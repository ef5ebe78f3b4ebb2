-- ===== src/Prelude/Dict.antt =====
-- Python's dict and set over numeric keys, in insertion order, and a function updated at a key.
use Prim.Native.Nat.{ℕ, ◌+◌, ◌≤◌, ◌<◌}
use mathlib.Core.Path.{◌≡◌, refl, ap}
use mathlib.Core.List.{List, [], ◌∷◌, ◌++◌}
use mathlib.Core.Option.{Option, none, some}
use mathlib.Core.Bool.{false, ◌||◌}
use native.Mathlib.Omega.{arith}
use vllm_ascend_origin.Prelude.Tests.{◌==◌, if◌then◌else◌}
use vllm_ascend_origin.Prelude.Lists.{elem, sum, length, length-append, elem-append, elem-eq}

module _ {ℓ} {V : Type ℓ} where
  -- `m[k] = v` on an object's field that every key has.
  abbrev pub update : (ℕ → V) → ℕ → V → ℕ → V
  update f k v j = if k == j then v else f j

  abbrev pub keys : List (ℕ × V) → List ℕ
  keys [] = []
  keys ((k, v) ∷ d) = k ∷ keys d

  unfoldable pub lookup : ℕ → List (ℕ × V) → Option V
  lookup k [] = none
  lookup k ((j, v) ∷ d) = if j == k then some v else lookup k d

  -- `d[k] = v`: a key keeps its place, and a new one goes to the end.
  unfoldable pub insert : ℕ → V → List (ℕ × V) → List (ℕ × V)
  insert k v [] = (k, v) ∷ []
  insert k v ((j, w) ∷ d) = if j == k then (k, v) ∷ d else (j, w) ∷ insert k v d

  -- `d.pop(k, None)`
  unfoldable pub erase : ℕ → List (ℕ × V) → List (ℕ × V)
  erase k [] = []
  erase k ((j, w) ∷ d) = if j == k then d else (j, w) ∷ erase k d

  pub lookup-insert :
      (k j : ℕ) (v : V) (d : List (ℕ × V))
      → lookup j (insert k v d) ≡ (if k == j then some v else lookup j d)
  unfolding lookup insert
  lookup-insert k j v [] = refl
  lookup-insert k j v ((i, w) ∷ d) = ground (arith, lookup-insert k j v d)

  pub insert-fresh :
      (k : ℕ) (v : V) (d : List (ℕ × V)) → elem k (keys d) ≡ false → insert k v d ≡ d ++ (k, v) ∷ []
  unfolding insert
  insert-fresh k v [] h = refl
  insert-fresh k v ((j, w) ∷ d) h = ground (arith, insert-fresh k v d)

abbrev pub values : List (ℕ × ℕ) → List ℕ
values [] = []
values ((k, v) ∷ d) = v ∷ values d

pub sum-values-insert :
    (k v : ℕ) (d : List (ℕ × ℕ))
    → elem k (keys d) ≡ false
    → sum (values (insert k v d)) ≡ sum (values d) + v
unfolding insert
sum-values-insert k v [] h = omega arith
sum-values-insert k v ((j, w) ∷ d) h = ground (arith, sum-values-insert k v d)

-- Without a fresh key a value is overwritten, so the sum grows by at most the new one.
pub sum-values-insert-le :
    (k v : ℕ) (d : List (ℕ × ℕ)) → sum (values (insert k v d)) ≤ sum (values d) + v
unfolding insert
sum-values-insert-le k v [] = omega arith
sum-values-insert-le k v ((j, w) ∷ d) = ground (arith, sum-values-insert-le k v d)

-- `s.add(k)` and `s.discard(k)` of a set.
unfoldable pub add : ℕ → List ℕ → List ℕ
add k s = if elem k s then s else s ++ k ∷ []

unfoldable pub discard : ℕ → List ℕ → List ℕ
discard k [] = []
discard k (j ∷ s) = let rest = discard k s in if j == k then rest else j ∷ rest

pub length-add-le : (k : ℕ) (s : List ℕ) → length (add k s) ≤ length s + 1
unfolding add
length-add-le k s = ground (arith, length-append s (k ∷ []))

pub length-add-pos : (k : ℕ) (s : List ℕ) → 0 < length (add k s)
unfolding add
length-add-pos k [] = omega arith
length-add-pos k (j ∷ s) = ground (arith, length-append s (k ∷ []))

pub elem-add : (x k : ℕ) (s : List ℕ) → elem x (add k s) ≡ (k == x || elem x s)
unfolding add
elem-add x k s = ground (arith, elem-append x s (k ∷ []), elem-eq k x s)

pub elem-discard :
    (x k : ℕ) (s : List ℕ) → elem x (discard k s) ≡ (if k == x then false else elem x s)
unfolding discard
elem-discard x k [] = ground arith
elem-discard x k (j ∷ s) = ground (arith, elem-discard x k s)

-- `d.get(k, 0)`
unfoldable pub get_or_zero : ℕ → List (ℕ × ℕ) → ℕ
get_or_zero k d = elim (lookup k d) [ none ↦ 0 | some n ↦ n ]

pub get_or_zero-insert :
    (k j n : ℕ) (d : List (ℕ × ℕ))
    → get_or_zero j (insert k n d) ≡ (if k == j then n else get_or_zero j d)
unfolding get_or_zero
get_or_zero-insert k j n d = ground (arith, lookup-insert k j n d)

pub get_or_zero_eq : (k j : ℕ) (d : List (ℕ × ℕ)) → k ≡ j → get_or_zero k d ≡ get_or_zero j d
get_or_zero_eq k j d e = rw e

-- No key twice, as in any dict.
abbrev pub UniqueKeys : {V : Type 0} → List (ℕ × V) → Type 0
UniqueKeys [] = Unit {0}
UniqueKeys ((k, v) ∷ d) = (lookup k d ≡ none) × UniqueKeys d

pub lookup-erase :
    {V : Type 0} (k j : ℕ) (d : List (ℕ × V))
    → UniqueKeys d
    → lookup j (erase k d) ≡ (if k == j then none else lookup j d)
unfolding lookup erase
lookup-erase k j [] u = ground arith
lookup-erase k j ((i, w) ∷ d) u =
    ground (arith, lookup-erase k j d u.1, u.0, λ (e : i ≡ j). ap (λ n. lookup n d) e)

pub lookup-erase_other :
    {V : Type 0} (k j : ℕ) (d : List (ℕ × V)) → (k == j) ≡ false → lookup j (erase k d) ≡ lookup j d
unfolding lookup erase
lookup-erase_other k j [] h = refl
lookup-erase_other k j ((i, w) ∷ d) h = ground (arith, lookup-erase_other k j d h)

pub erase-UniqueKeys :
    {V : Type 0} (k : ℕ) (d : List (ℕ × V)) → UniqueKeys d → UniqueKeys (erase k d)
unfolding erase
erase-UniqueKeys k [] u = tt
erase-UniqueKeys k ((i, w) ∷ d) u = ground (arith, erase-UniqueKeys k d, lookup-erase k i d)

pub insert-UniqueKeys :
    {V : Type 0} (k : ℕ) (v : V) (d : List (ℕ × V)) → UniqueKeys d → UniqueKeys (insert k v d)
unfolding insert lookup
insert-UniqueKeys k v [] u = (refl, tt)
insert-UniqueKeys k v ((i, w) ∷ d) u =
    ground (arith, insert-UniqueKeys k v d, lookup-insert k i v d)

pub length-insert_old :
    {V : Type 0} (k : ℕ) (v w : V) (d : List (ℕ × V))
    → lookup k d ≡ some w
    → length (insert k v d) ≡ length d
unfolding lookup insert
length-insert_old k v w [] h = cc
length-insert_old k v w ((j, u) ∷ d) h = ground (arith, length-insert_old k v w d)

pub length-insert_new :
    {V : Type 0} (k : ℕ) (v : V) (d : List (ℕ × V))
    → lookup k d ≡ none
    → length (insert k v d) ≡ length d + 1
unfolding lookup insert
length-insert_new k v [] h = omega arith
length-insert_new k v ((j, u) ∷ d) h = ground (arith, length-insert_new k v d)

pub length-erase_old :
    {V : Type 0} (k : ℕ) (v : V) (d : List (ℕ × V))
    → lookup k d ≡ some v
    → length (erase k d) + 1 ≡ length d
unfolding lookup erase
length-erase_old k v [] h = cc
length-erase_old k v ((j, u) ∷ d) h = ground (arith, length-erase_old k v d)

pub lookup-length :
    {V : Type 0} (k : ℕ) (d : List (ℕ × V)) {v : V} → lookup k d ≡ some v → 0 < length d
unfolding lookup
lookup-length k [] h = cc
lookup-length k ((j, u) ∷ d) h = omega arith

-- `d[k]` of a defaultdict of lists: a missing key reads as the empty list.
unfoldable pub entries : {V : Type 0} → ℕ → List (ℕ × List V) → List V
entries k d = elim (lookup k d) [ none ↦ [] | some vs ↦ vs ]

pub entries-insert :
    {V : Type 0} (k j : ℕ) (v : List V) (d : List (ℕ × List V))
    → entries j (insert k v d) ≡ (if k == j then v else entries j d)
unfolding entries
entries-insert k j v d = ground (arith, lookup-insert k j v d)
