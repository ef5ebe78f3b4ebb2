-- ===== src/InputBatch/Moves.antt =====
-- vllm_ascend/worker/npu_input_batch.py, InputBatch: remove_request, swap_states and condense.
use vllm_ascend_origin.Prelude.Arrays.{set_at, get_at}
use vllm_ascend_origin.Prelude.{
  ℕ, Bool, true, false, Option, none, some, List, ◌==◌, if◌then◌else◌, length, update, discard,
  lookup, insert, erase,
}
use vllm_ascend_origin.Prelude.Result.{Result, ok, ◌>>=◌, ◌>>◌, or_fail, assertion_error, key_error}
use vllm_ascend_origin.InputBatch.State.{Ext, InputBatch, swap}

unfoldable pub swap_at {ℓ} : {A : Type ℓ} → List A → ℕ → ℕ → Result (List A)
swap_at xs i j = get_at xs i >>= λ x. get_at xs j >>= λ y. set_at xs i y >>= λ xs. set_at xs j x

-- The index of each of the two ids.
unfoldable pub swap_indices : Option ℕ → Option ℕ → List (ℕ × ℕ) → Result (List (ℕ × ℕ))
swap_indices first second d = or_fail first assertion_error >>= λ id1.
    or_fail second assertion_error >>= λ id2. or_fail (lookup id2 d) key_error >>= λ index2.
    or_fail (lookup id1 d) key_error >>= λ index1. ok (insert id2 index1 (insert id1 index2 d))

-- `t[i1], t[i2] = t[i2], t[i1]` of a torch tensor of two dimensions: the right side are views, so
-- the second assignment reads what the first has written.
unfoldable pub swap_views : (ℕ → ℕ → Bool) → ℕ → ℕ → ℕ → ℕ → Bool
swap_views t i1 i2 = let t' : ℕ → ℕ → Bool = update t i1 (t i2) in update t' i2 (t' i1)

module _ {E : Ext} where
  -- The sets and dicts that are keyed by the id, and those keyed by the index.
  unfoldable pub forget : ℕ → ℕ → InputBatch E → InputBatch E
  forget id i b = record b {
    greedy_reqs = discard id b.greedy_reqs;
    random_reqs = discard id b.random_reqs;
    top_p_reqs = discard id b.top_p_reqs;
    top_k_reqs = discard id b.top_k_reqs;
    spec_decode_unsupported_reqs = discard id b.spec_decode_unsupported_reqs;
    frequency_penalties_reqs = discard id b.frequency_penalties_reqs;
    presence_penalties_reqs = discard id b.presence_penalties_reqs;
    repetition_penalties_reqs = discard id b.repetition_penalties_reqs;
    generators = erase i b.generators;
    num_logprobs = erase id b.num_logprobs;
    num_prompt_logprobs = erase id b.num_prompt_logprobs;
    in_progress_prompt_logprobs_cpu = erase id b.in_progress_prompt_logprobs_cpu;
    has_allowed_token_ids = discard id b.has_allowed_token_ids;
    allowed_token_ids_mask = elim b.allowed_token_ids_mask [
      | none ↦ none
      | some mask ↦ some (update mask i (λ _. false))
    ];
    bad_words_token_ids = erase i b.bad_words_token_ids;
    pooling_params = erase id b.pooling_params;
  }

  -- `lora_id_to_lora_request.pop(lora_id)` raises on a missing key.
  unfoldable pub drop_lora : ℕ → InputBatch E → Result (InputBatch E)
  drop_lora lora_id b =
      or_fail (lookup lora_id b.lora_id_to_lora_request) key_error
      >> ok (record b {
        lora_id_to_request_ids = erase lora_id b.lora_id_to_request_ids;
        lora_id_to_lora_request = erase lora_id b.lora_id_to_lora_request;
      })

  unfoldable pub remove_lora : ℕ → ℕ → InputBatch E → Result (InputBatch E)
  remove_lora id i b =
      let lora_id = b.request_lora_mapping i in
      if lora_id == 0
      then ok b
      else (or_fail (lookup lora_id b.lora_id_to_request_ids) key_error >>= λ ids.
          (if length (discard id ids) == 0
            then drop_lora lora_id b
            else ok (record b {
              lora_id_to_request_ids = insert lora_id (discard id ids) b.lora_id_to_request_ids;
            }))
          >>= λ b. ok (record b { request_lora_mapping = update b.request_lora_mapping i 0 }))

  unfoldable pub note_removed : ℕ → InputBatch E → Result (InputBatch E)
  note_removed i b =
      if b.is_pooling_model
      then ok b
      else (E.removed_append i b.batch_update_builder >>= λ builder.
          ok (record b { batch_update_builder = builder }))

  -- Both lists lose the entry, which stays as a hole.
  unfoldable pub clear_slot : ℕ → InputBatch E → Result (InputBatch E)
  clear_slot i b = set_at b.req_ids i none >>= λ ids.
      set_at b.req_output_token_ids i none >>= λ outputs.
      ok (record b { req_ids = ids; req_output_token_ids = outputs })

  unfoldable pub remove_request : ℕ → InputBatch E → Result (Option ℕ × InputBatch E)
  remove_request id b = elim (lookup id b.req_id_to_index) [
    | none ↦ ok (none, b)
    | some i ↦ note_removed i (record b { req_id_to_index = erase id b.req_id_to_index }) >>= λ b.
        clear_slot i b >>= λ b. remove_lora id i b >>= λ b. ok (some i, forget id i b)
  ]

  unfoldable pub swap_arrays : ℕ → ℕ → InputBatch E → InputBatch E
  swap_arrays i1 i2 b = record b {
    num_tokens = swap b.num_tokens i1 i2;
    num_tokens_no_spec = swap b.num_tokens_no_spec i1 i2;
    num_prompt_tokens = swap b.num_prompt_tokens i1 i2;
    num_computed_tokens_cpu = swap b.num_computed_tokens_cpu i1 i2;
    temperature_cpu = swap b.temperature_cpu i1 i2;
    top_p_cpu = swap b.top_p_cpu i1 i2;
    top_k_cpu = swap b.top_k_cpu i1 i2;
    frequency_penalties_cpu = swap b.frequency_penalties_cpu i1 i2;
    presence_penalties_cpu = swap b.presence_penalties_cpu i1 i2;
    repetition_penalties_cpu = swap b.repetition_penalties_cpu i1 i2;
    token_ids_cpu = swap b.token_ids_cpu i1 i2;
    request_lora_mapping = swap b.request_lora_mapping i1 i2;
  }

  unfoldable pub swap_maps : ℕ → ℕ → InputBatch E → InputBatch E
  swap_maps i1 i2 b = record b {
    generators = E.swap_dict_values i1 i2 b.generators;
    bad_words_token_ids = E.swap_dict_values i1 i2 b.bad_words_token_ids;
    allowed_token_ids_mask = elim b.allowed_token_ids_mask [
      | none ↦ none
      | some mask ↦ some (swap_views mask i1 i2)
    ];
    block_table = E.swap_row i1 i2 b.block_table;
  }

  unfoldable pub swap_states : ℕ → ℕ → InputBatch E → Result (InputBatch E)
  swap_states i1 i2 b = get_at b.req_ids i1 >>= λ id1. get_at b.req_ids i2 >>= λ id2.
      swap_at b.req_ids i1 i2 >>= λ ids. swap_at b.req_output_token_ids i1 i2 >>= λ outputs.
      swap_indices id1 id2 b.req_id_to_index >>= λ indices. ok (
        swap_maps i1 i2 (
          swap_arrays i1 i2 (record b {
            batch_update_builder = E.moved i1 i2 true b.batch_update_builder;
            req_ids = ids;
            req_output_token_ids = outputs;
            req_id_to_index = indices;
          })))
