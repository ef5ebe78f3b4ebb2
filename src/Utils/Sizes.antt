-- ===== src/Utils/Sizes.antt =====
-- vllm_ascend/utils.py, update_aclgraph_sizes: every outcome, and the bound on the sizes it leaves.
use vllm_ascend_origin.Prelude.{
  ℕ, ◌-◌, ◌≤◌, ◌<◌, ◌≡◌, ◌⊎◌, true, Option, none, some, List, length, elem, get_elem?,
}
use vllm_ascend_origin.Prelude.Result.{Result, Fault, ok, err}
use vllm_ascend_origin.Utils.Picks.{InRange, Picks}
use vllm_ascend_origin.Utils.{Outside}

module _ (out : Outside) where
  -- What the code relies on: rounding keeps the first `m` indices in range, and vllm's sizes are
  -- among those given.
  pub record OutsideLaws : Type 0 where
    pub round_index : (i n m : ℕ) → i ≤ m → out.round_index i n m ≤ n
    pub fewer : (sizes : List ℕ) → length (out.init_with_cudagraph_sizes sizes) ≤ length sizes
    pub among :
        (x : ℕ) (sizes : List ℕ)
        → elem x (out.init_with_cudagraph_sizes sizes) ≡ true
        → elem x sizes ≡ true
    pub kept :
        (x : ℕ) (sizes : List ℕ)
        → elem x sizes ≡ true
        → elem x (out.init_with_cudagraph_sizes sizes) ≡ true

  -- The sizes at the first index, the last, and others, each of them in range.
  pub record Sampled (sizes : List ℕ) (number : ℕ) (xs : List ℕ) : Type 0 where
    pub size : length xs ≡ number
    pub first : get_elem? xs 0 ≡ get_elem? sizes 0
    pub last : get_elem? xs (number - 1) ≡ get_elem? sizes (length sizes - 1)
    pub among : (y : ℕ) → elem y xs ≡ true → elem y sizes ≡ true

  -- The indices, with the two ends set.
  record Ends (number n : ℕ) (is : List ℕ) : Type 0 where
    size : length is ≡ number
    first : get_elem? is 0 ≡ some 0
    last : get_elem? is (number - 1) ≡ some n
    range : InRange n is

  -- The sizes that are left: those sampled, by way of vllm.
  pub record Reduced (sizes : List ℕ) (number : ℕ) (left : List ℕ) : Type 0 where
    pub sampled : List ℕ
    pub sampled_holds : Sampled sizes number sampled
    pub left_eq : left ≡ out.init_with_cudagraph_sizes sampled
    pub fits : length left ≤ number
    pub among : (y : ℕ) → elem y left ≡ true → elem y sizes ≡ true
    pub first : (x : ℕ) × (get_elem? sizes 0 ≡ some x) × (elem x left ≡ true)
    pub last : (x : ℕ) × (get_elem? sizes (length sizes - 1) ≡ some x) × (elem x left ≡ true)

  -- The sizes are as before, they are lost to an error, or they are reduced.
  pub Outcome : List ℕ → ℕ → Result (Unit {0}) × Option (List ℕ) → Type 0
  Outcome sizes number r =
      ((length sizes ≤ number) × (r ≡ (ok tt, some sizes)))
      ⊎ (((number < length sizes) × (number ≤ 1) × (x : Fault) × (r ≡ (err x, none)))
          ⊎ ((number < length sizes)
              × (left : List ℕ) × (r ≡ (ok tt, some left))
              × Reduced sizes number left))
