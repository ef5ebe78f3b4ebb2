-- ===== src/InputBatch/Condense.antt =====
-- vllm_ascend/worker/npu_input_batch.py, InputBatch.condense: requests slide down into the holes that
-- remove_request left.
use vllm_ascend_origin.Prelude.Arrays.{set_at, get_at}
use vllm_ascend_origin.Prelude.{
  ℕ, zero, suc, ◌+◌, ◌-◌, ◌≡◌, ◌<◌, Bool, false, Option, none, some, List, [], ◌∷◌, ◌==◌,
  if◌then◌else◌, ltb, leb, length, elem, take, update, lookup, insert, erase,
}
use vllm_ascend_origin.Prelude.Result.{
  Result, ok, err, ◌>>=◌, or_fail, assertion_error, out_of_fuel,
}
use vllm_ascend_origin.InputBatch.State.{Ext, InputBatch, num_reqs}

-- `while last_req_index in removed: last_req_index -= 1`, where -1 is `none`.
unfoldable pub find_last : ℕ → List ℕ → Option ℕ
find_last zero removed = if elem 0 removed then none else some 0
find_last (suc n) removed =
    let lower = find_last n removed in if elem (suc n) removed then lower else some (suc n)

-- `dst[:n] = src[:n]`
unfoldable pub copy_prefix : ℕ → (ℕ → ℕ) → (ℕ → ℕ) → ℕ → ℕ
copy_prefix n src dst j = if ltb j n then src j else dst j

-- `v = d.pop(last, None)`, and `d[empty] = v` unless it is None
unfoldable pub move_key : {V : Type 0} → ℕ → ℕ → List (ℕ × V) → List (ℕ × V)
move_key last empty d = elim (lookup last d) [
  | none ↦ erase last d
  | some v ↦ insert empty v (erase last d)
]

unfoldable pub move_entry {ℓ} : {A : Type ℓ} → ℕ → ℕ → List (Option A) → Result (List (Option A))
move_entry last empty xs = get_at xs last >>= λ x. set_at xs empty x >>= λ xs. set_at xs last none

-- An array's entry at `last` is copied to `empty`.
abbrev pub copy_row {ℓ} : {A : Type ℓ} → ℕ → ℕ → (ℕ → A) → ℕ → A
copy_row last empty f = update f empty (f last)

-- Taking a hole makes the builder's list shorter, and noting a move leaves it as it is.
pub record BuilderLaws (E : Ext) : Type 0 where
  pub shorter :
      (u : E.Builder)
      → 0 < length (E.removed u)
      → length (E.removed (E.pop_removed u).1) < length (E.removed u)
  pub kept :
      (i j : ℕ) (s : Bool) (u : E.Builder)
      → length (E.removed (E.moved i j s u)) ≡ length (E.removed u)

module _ {E : Ext} where
  unfoldable pub move_arrays : ℕ → ℕ → InputBatch E → InputBatch E
  move_arrays last empty b = record b {
    token_ids_cpu =
        update b.token_ids_cpu empty
          (copy_prefix (b.num_tokens last) (b.token_ids_cpu last) (b.token_ids_cpu empty));
    num_tokens = copy_row last empty b.num_tokens;
    num_tokens_no_spec = copy_row last empty b.num_tokens_no_spec;
    num_prompt_tokens = copy_row last empty b.num_prompt_tokens;
    num_computed_tokens_cpu = copy_row last empty b.num_computed_tokens_cpu;
    block_table = E.move_row last empty b.block_table;
    temperature_cpu = copy_row last empty b.temperature_cpu;
    top_p_cpu = copy_row last empty b.top_p_cpu;
    top_k_cpu = copy_row last empty b.top_k_cpu;
    frequency_penalties_cpu = copy_row last empty b.frequency_penalties_cpu;
    presence_penalties_cpu = copy_row last empty b.presence_penalties_cpu;
    repetition_penalties_cpu = copy_row last empty b.repetition_penalties_cpu;
    generators = move_key last empty b.generators;
    request_lora_mapping = copy_row last empty b.request_lora_mapping;
    allowed_token_ids_mask = elim b.allowed_token_ids_mask [
      | none ↦ none
      | some mask ↦ some (copy_row last empty mask)
    ];
    bad_words_token_ids = move_key last empty b.bad_words_token_ids;
  }

  unfoldable pub move_request : ℕ → ℕ → InputBatch E → Result (InputBatch E)
  move_request last empty b = get_at b.req_ids last >>= λ req_id.
      or_fail req_id assertion_error >>= λ id. move_entry last empty b.req_ids >>= λ ids.
      move_entry last empty b.req_output_token_ids >>= λ outputs. ok (
        move_arrays last empty (record b {
          batch_update_builder = E.moved last empty false (E.pop_removed b.batch_update_builder).1;
          req_ids = ids;
          req_output_token_ids = outputs;
          req_id_to_index = insert id empty b.req_id_to_index;
        }))

  -- The loop; every round behind the tests takes one hole from the builder.
  unfoldable pub fill_holes : ℕ → ℕ → InputBatch E → Result (InputBatch E)
  fill_holes zero last b = err out_of_fuel
  fill_holes (suc fuel) last b = elim (E.removed b.batch_update_builder) [
    | [] ↦ ok b
    | r ∷ rs ↦ or_fail (E.peek_removed b.batch_update_builder) assertion_error >>= λ empty.
        elim (find_last last (r ∷ rs)) [
          | none ↦ ok b
          | some l ↦
              if leb l empty
              then ok b
              else (move_request l empty b >>= λ b. fill_holes fuel (l - 1) b)
        ]
  ]

  unfoldable pub trim : ℕ → InputBatch E → InputBatch E
  trim n b = record b {
    req_ids = take n b.req_ids;
    req_output_token_ids = take n b.req_output_token_ids;
  }

  unfoldable pub condense : InputBatch E → Result (InputBatch E)
  condense b =
      let holes = length (E.removed b.batch_update_builder) in
      if b.is_pooling_model
      then ok (trim (num_reqs b) b)
      else (if holes == 0
          then ok b
          else (if num_reqs b == 0
              then ok (trim 0 b)
              else (fill_holes (suc holes) (num_reqs b + holes - 1) b >>= λ c.
                  ok (trim (num_reqs b) c))))
