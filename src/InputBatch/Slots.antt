-- ===== src/InputBatch/Slots.antt =====
-- vllm_ascend/worker/npu_input_batch.py, InputBatch: its lists of entries, where None is a hole.
use vllm_ascend_origin.Prelude.Arrays.{occupied}
use vllm_ascend_origin.Prelude.{
  ℕ, zero, suc, ◌<◌, ◌≤◌, ◌≡◌, ◌≢◌, refl, Option, none, some, List, [], ◌∷◌, arith, length,
  get_elem?,
}

-- Exactly the first `n` entries are occupied.
pub record Packed {A : Type 0} (n : ℕ) (xs : List (Option A)) : Type 0 where
  pub within : n ≤ length xs
  pub below : (i : ℕ) → i < n → get_elem? xs i ≢ some none
  pub above : (i : ℕ) (x : A) → n ≤ i → get_elem? xs i ≢ some (some x)

pub Packed-occupied : {A : Type 0} (n : ℕ) (xs : List (Option A)) → Packed n xs → occupied xs ≡ n
Packed-occupied n [] p = omega (arith, p.within)
Packed-occupied zero (none ∷ xs) p = Packed-occupied zero xs (record {
  within = omega arith;
  below = λ i h. absurd (omega (arith, h));
  above = λ i x h. p.above (suc i) x (omega arith);
})
Packed-occupied zero (some x ∷ xs) p = absurd (p.above 0 x (omega arith) refl)
Packed-occupied (suc n) (none ∷ xs) p = absurd (p.below 0 (omega arith) refl)
Packed-occupied (suc n) (some x ∷ xs) p =
    let e : occupied xs ≡ n = Packed-occupied n xs (record {
      within = omega (arith, p.within);
      below = λ i h. p.below (suc i) (omega (arith, h));
      above = λ i x h. p.above (suc i) x (omega (arith, h));
    }) in
    omega (arith, e)
