-- ===== src/InputBatch/Removal.antt =====
-- vllm_ascend/worker/npu_input_batch.py, InputBatch: what remove_request leaves of a request.
use vllm_ascend_origin.Prelude.Arrays.{set_at}
use vllm_ascend_origin.Prelude.{
  ℕ, suc, zero, ◌≡◌, refl, false, Option, none, some, List, [], ◌∷◌, ◌==◌, if◌then◌else◌, inl, inr,
  arith, ==_self, Option-cases, get_elem?, update, elem, discard, elem-discard, lookup, erase,
  insert, length,
}
use vllm_ascend_origin.Prelude.Result.{
  ok, Ensures, Ensures-bind, Ensures-any, Ensures-ok, Ensures-if, or_fail, key_error,
}
use vllm_ascend_origin.InputBatch.State.{Ext, InputBatch}
use vllm_ascend_origin.InputBatch.Moves.{
  forget, drop_lora, remove_lora, note_removed, clear_slot, remove_request,
}

-- No sampling set holds the id, and its places in the two lists are None.
pub record Forgotten {E : Ext} (id i : ℕ) (b : InputBatch E) : Type 0 where
  pub greedy : elem id b.greedy_reqs ≡ false
  pub random : elem id b.random_reqs ≡ false
  pub top_p : elem id b.top_p_reqs ≡ false
  pub top_k : elem id b.top_k_reqs ≡ false
  pub spec_decode : elem id b.spec_decode_unsupported_reqs ≡ false
  pub frequency : elem id b.frequency_penalties_reqs ≡ false
  pub presence : elem id b.presence_penalties_reqs ≡ false
  pub repetition : elem id b.repetition_penalties_reqs ≡ false
  pub allowed : elem id b.has_allowed_token_ids ≡ false
  pub slot : get_elem? b.req_ids i ≡ some none
  pub output : get_elem? b.req_output_token_ids i ≡ some none

elem-discard_self : (id : ℕ) (s : List ℕ) → elem id (discard id s) ≡ false
elem-discard_self id s = ground (arith, elem-discard id id s, ==_self id)

set_at-get_elem? {ℓ} :
    {A : Type ℓ} (xs : List A) (i : ℕ) (x : A)
    → Ensures (λ ys. get_elem? ys i ≡ some x) (set_at xs i x)
unfolding set_at
set_at-get_elem? [] i x = tt
set_at-get_elem? (y ∷ xs) zero x = refl
set_at-get_elem? (y ∷ xs) (suc i) x =
    Ensures-bind _ _ (set_at xs i x) _ (set_at-get_elem? xs i x) (λ ys h. h)

module _ {E : Ext} where
  abbrev Cleared : ℕ → InputBatch E → Type 0
  Cleared i b =
      (get_elem? b.req_ids i ≡ some none) × (get_elem? b.req_output_token_ids i ≡ some none)

  clear_slot-Cleared : (i : ℕ) (b : InputBatch E) → Ensures (Cleared i) (clear_slot i b)
  unfolding clear_slot
  clear_slot-Cleared i b =
      Ensures-bind _ (Cleared i) (set_at b.req_ids i none) _ (set_at-get_elem? b.req_ids i none)
        (λ ids h.
          Ensures-bind _ (Cleared i) (set_at b.req_output_token_ids i none) _
            (set_at-get_elem? b.req_output_token_ids i none) (λ outputs k. (h, k)))

  remove_lora-Cleared :
      (id i : ℕ) (b : InputBatch E) → Cleared i b → Ensures (Cleared i) (remove_lora id i b)
  unfolding remove_lora drop_lora
  remove_lora-Cleared id i b h =
      let lora_id : ℕ = b.request_lora_mapping i in
      Ensures-if (Cleared i) (lora_id == 0) _ _ (λ _. h)
        (λ _.
          Ensures-bind (λ _. Unit {0}) (Cleared i)
            (or_fail (lookup lora_id b.lora_id_to_request_ids) key_error) _ (Ensures-any _)
            (λ ids _.
              Ensures-bind (Cleared i) (Cleared i)
                (if length (discard id ids) == 0
                  then drop_lora lora_id b
                  else ok (record b {
                    lora_id_to_request_ids =
                        insert lora_id (discard id ids) b.lora_id_to_request_ids;
                  }))
                (λ b. ok (record b { request_lora_mapping = update b.request_lora_mapping i 0 }))
                (Ensures-if (Cleared i) (length (discard id ids) == 0) _ _
                  (λ _.
                    Ensures-bind (λ _. Unit {0}) (Cleared i)
                      (or_fail (lookup lora_id b.lora_id_to_lora_request) key_error) _
                      (Ensures-any _) (λ _ _. h))
                  (λ _. h))
                (λ _ k. k)))

  forget-Forgotten : (id i : ℕ) (b : InputBatch E) → Cleared i b → Forgotten id i (forget id i b)
  unfolding forget
  forget-Forgotten id i b h = record {
    greedy = elem-discard_self id b.greedy_reqs;
    random = elem-discard_self id b.random_reqs;
    top_p = elem-discard_self id b.top_p_reqs;
    top_k = elem-discard_self id b.top_k_reqs;
    spec_decode = elem-discard_self id b.spec_decode_unsupported_reqs;
    frequency = elem-discard_self id b.frequency_penalties_reqs;
    presence = elem-discard_self id b.presence_penalties_reqs;
    repetition = elem-discard_self id b.repetition_penalties_reqs;
    allowed = elem-discard_self id b.has_allowed_token_ids;
    slot = h.0;
    output = h.1;
  }

  abbrev pub Leaves : ℕ → Option ℕ × InputBatch E → Type 0
  Leaves id r = elim r.0 [ none ↦ Unit {0} | some i ↦ Forgotten id i r.1 ]

  -- When remove_request returns the index of a known request, the id is in none of the sampling
  -- sets any more, and its places in _req_ids and req_output_token_ids are None.
  pub remove_request-Forgotten :
      (id i : ℕ) (b c : InputBatch E) → remove_request id b ≡ ok (some i, c) → Forgotten id i c
  unfolding remove_request
  remove_request-Forgotten id i b c h =
      Ensures-ok (Leaves id) (remove_request id b) (some i, c)
        (elim (Option-cases (lookup id b.req_id_to_index)) [
          | inl e ↦ rw (e, remove_request) tt
          | inr (j, e) ↦
              rw (e, remove_request)
                (Ensures-bind (λ _. Unit {0}) (Leaves id)
                  (note_removed j (record b { req_id_to_index = erase id b.req_id_to_index })) _
                  (Ensures-any _)
                  (λ b _.
                    Ensures-bind (Cleared j) (Leaves id) (clear_slot j b) _ (clear_slot-Cleared j b)
                      (λ b k.
                        Ensures-bind (Cleared j) (Leaves id) (remove_lora id j b) _
                          (remove_lora-Cleared id j b k) (λ b k. forget-Forgotten id j b k))))
        ])
        h
