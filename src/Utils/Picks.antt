-- ===== src/Utils/Picks.antt =====
-- vllm_ascend/utils.py: the items of a list at the indices of another.
use vllm_ascend_origin.Prelude.{
  ℕ, zero, suc, ◌≤◌, ◌<◌, ◌≡◌, refl, ap, true, some, List, [], ◌∷◌, length, elem, elem-get_elem?,
  get_elem?, arith,
}
use vllm_ascend_origin.Prelude.Arrays.{get_at}
use vllm_ascend_origin.Prelude.Result.{Returns}

-- The items are at most n.
abbrev pub InRange : ℕ → List ℕ → Type 0
InRange n xs = (k j : ℕ) → get_elem? xs k ≡ some j → j ≤ n

-- The sizes at these indices
abbrev pub Picks : List ℕ → List ℕ → List ℕ → Type 0
Picks sizes [] [] = Unit {0}
Picks sizes (i ∷ indices) (x ∷ xs) = (get_elem? sizes i ≡ some x) × Picks sizes indices xs
Picks sizes indices xs = ⊥

pub Picks-length : (sizes is xs : List ℕ) → Picks sizes is xs → length xs ≡ length is
Picks-length sizes [] [] h = refl
Picks-length sizes (i ∷ is) (x ∷ xs) h = ap suc (Picks-length sizes is xs h.1)
Picks-length sizes [] (x ∷ xs) h = absurd h
Picks-length sizes (i ∷ is) [] h = absurd h

pub Picks-elem :
    (sizes is xs : List ℕ) (y : ℕ) → Picks sizes is xs → elem y xs ≡ true → elem y sizes ≡ true
Picks-elem sizes [] [] y h e = absurd (grind arith)
Picks-elem sizes (i ∷ is) (x ∷ xs) y h e =
    ground (arith, Picks-elem sizes is xs y h.1, elem-get_elem? sizes i h.0)
Picks-elem sizes [] (x ∷ xs) y h e = absurd h
Picks-elem sizes (i ∷ is) [] y h e = absurd h

pub Picks-get_elem? :
    (sizes is xs : List ℕ) (k i : ℕ)
    → Picks sizes is xs
    → get_elem? is k ≡ some i
    → get_elem? xs k ≡ get_elem? sizes i
Picks-get_elem? sizes [] [] k i h e = absurd (grind arith)
Picks-get_elem? sizes (j ∷ is) (x ∷ xs) zero i h e = ground (arith, h.0)
Picks-get_elem? sizes (j ∷ is) (x ∷ xs) (suc k) i h e = Picks-get_elem? sizes is xs k i h.1 e
Picks-get_elem? sizes [] (x ∷ xs) k i h e = absurd h
Picks-get_elem? sizes (j ∷ is) [] k i h e = absurd h

pub get_at-here :
    (xs : List ℕ) (i : ℕ) → i < length xs → Returns (λ x. get_elem? xs i ≡ some x) (get_at xs i)
unfolding get_at
get_at-here [] i h = absurd (omega (arith, h))
get_at-here (x ∷ xs) zero h = refl
get_at-here (x ∷ xs) (suc i) h = get_at-here xs i (omega (arith, h))
