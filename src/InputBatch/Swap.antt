-- ===== src/InputBatch/Swap.antt =====
-- vllm_ascend/worker/npu_input_batch.py, InputBatch.swap_states: what two requests find in each other's
-- rows.
use vllm_ascend_origin.Prelude.Arrays.{get_at}
use vllm_ascend_origin.Prelude.{ℕ, ◌≡◌, ◌≢◌, Bool, false, Option, none, some, ◌==◌, arith, ==_self}
use vllm_ascend_origin.Prelude.Result.{ok, Ensures-bind, Ensures-any, Ensures-ok}
use vllm_ascend_origin.InputBatch.State.{Ext, InputBatch, swap}
use vllm_ascend_origin.InputBatch.Moves.{
  swap_views, swap_at, swap_indices, swap_states, swap_arrays, swap_maps,
}

abbrev pub Swapped {ℓ} : {A : Type ℓ} → ℕ → ℕ → (ℕ → A) → (ℕ → A) → Type ℓ
Swapped i j f g = (g i ≡ f j) × (g j ≡ f i)

-- Both rows of the mask are the old row `j`, if there is a mask.
abbrev pub Overwritten : ℕ → ℕ → Option (ℕ → ℕ → Bool) → Option (ℕ → ℕ → Bool) → Type 0
Overwritten i j none none = Unit
Overwritten i j none (some n) = ⊥
Overwritten i j (some m) none = ⊥
Overwritten i j (some m) (some n) = (n i ≡ m j) × (n j ≡ m j)

swap-Swapped {ℓ} : {A : Type ℓ} (f : ℕ → A) (i j : ℕ) → i ≢ j → Swapped i j f (swap f i j)
unfolding swap
swap-Swapped f i j ne =
    let ne' : (j == i) ≡ false = ground (arith, ne) in (rw (ne', ==_self i), rw (==_self j))

swap_views-Overwritten :
    (o : Option (ℕ → ℕ → Bool)) (i j : ℕ)
    → i ≢ j
    → Overwritten i j o (elim o [ none ↦ none | some t ↦ some (swap_views t i j) ])
unfolding swap_views
swap_views-Overwritten none i j ne = tt
swap_views-Overwritten (some t) i j ne =
    let ne' : (j == i) ≡ false = ground (arith, ne) in
    (rw (ne', ==_self i), rw (==_self j, ==_self i))

pub record Exchanged {E : Ext} (i j : ℕ) (b c : InputBatch E) : Type 0 where
  pub tokens : Swapped i j b.token_ids_cpu c.token_ids_cpu
  pub counts : Swapped i j b.num_tokens c.num_tokens
  pub computed : Swapped i j b.num_computed_tokens_cpu c.num_computed_tokens_cpu
  pub lora : Swapped i j b.request_lora_mapping c.request_lora_mapping
  pub mask : Overwritten i j b.allowed_token_ids_mask c.allowed_token_ids_mask

-- When swap_states of two different indices returns, the token ids, their counts, the computed
-- tokens and the LoRA ids of the two rows are exchanged, but the two rows of the mask of allowed
-- tokens, if there is a mask, are both the old row of the second index.
pub swap_states-Exchanged :
    {E : Ext} (i j : ℕ) (b c : InputBatch E) → i ≢ j → swap_states i j b ≡ ok c → Exchanged i j b c
unfolding swap_states swap_arrays swap_maps
swap_states-Exchanged {E = E} i j b c ne h =
    Ensures-ok (Exchanged i j b) (swap_states i j b) c
      (Ensures-bind (λ _. Unit {0}) _ (get_at b.req_ids i) _ (Ensures-any _)
        (λ id1 _.
          Ensures-bind (λ _. Unit {0}) _ (get_at b.req_ids j) _ (Ensures-any _)
            (λ id2 _.
              Ensures-bind (λ _. Unit {0}) _ (swap_at b.req_ids i j) _ (Ensures-any _)
                (λ ids _.
                  Ensures-bind (λ _. Unit {0}) _ (swap_at b.req_output_token_ids i j) _
                    (Ensures-any _)
                    (λ outputs _.
                      Ensures-bind (λ _. Unit {0}) _ (swap_indices id1 id2 b.req_id_to_index) _
                        (Ensures-any _)
                        (λ indices _. record {
                          tokens = swap-Swapped b.token_ids_cpu i j ne;
                          counts = swap-Swapped b.num_tokens i j ne;
                          computed = swap-Swapped b.num_computed_tokens_cpu i j ne;
                          lora = swap-Swapped b.request_lora_mapping i j ne;
                          mask = swap_views-Overwritten b.allowed_token_ids_mask i j ne;
                        }))))))
      h
