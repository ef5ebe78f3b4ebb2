-- ===== src/Prelude/Lists.antt =====
-- Lists measured and indexed by native numbers, under the library's names.
use Prim.Native.Nat.{ℕ, zero, suc, ◌+◌, ◌-◌, ◌≤◌, ◌<◌, min}
use mathlib.Core.Path.{◌≡◌, refl, ap}
use mathlib.Core.Logic.{◌⊎◌, inl, inr}
use mathlib.Core.List.{List, [], ◌∷◌, ◌++◌}
use mathlib.Core.Option.{Option, none, some}
use mathlib.Core.Bool.{Bool, true, false, ◌||◌}
use native.Mathlib.Omega.{arith}
use vllm_ascend_origin.Prelude.Tests.{ltb, ◌==◌, if◌then◌else◌, Option-cases}

module _ {ℓ} {A : Type ℓ} where
  abbrev pub length : List A → ℕ
  length [] = 0
  length (x ∷ xs) = suc (length xs)

  abbrev pub get_elem? : List A → ℕ → Option A
  get_elem? [] i = none
  get_elem? (x ∷ xs) zero = some x
  get_elem? (x ∷ xs) (suc i) = get_elem? xs i

  abbrev pub take : ℕ → List A → List A
  take zero xs = []
  take (suc n) [] = []
  take (suc n) (x ∷ xs) = x ∷ take n xs

  abbrev pub drop : ℕ → List A → List A
  drop zero xs = xs
  drop (suc n) [] = []
  drop (suc n) (x ∷ xs) = drop n xs

  pub List-cases : (xs : List A) → (xs ≡ []) ⊎ ((y : A) × (ys : List A) × (xs ≡ y ∷ ys))
  List-cases [] = inl refl
  List-cases (y ∷ ys) = inr (y, ys, refl)

  pub length-append : (xs ys : List A) → length (xs ++ ys) ≡ length xs + length ys
  length-append [] ys = omega arith
  length-append (x ∷ xs) ys = omega (arith, length-append xs ys)

  pub length-take : (n : ℕ) (xs : List A) → length (take n xs) ≡ min n (length xs)
  length-take zero xs = omega arith
  length-take (suc n) [] = omega arith
  length-take (suc n) (x ∷ xs) = omega (arith, length-take n xs)

  pub length-drop : (n : ℕ) (xs : List A) → length (drop n xs) ≡ length xs - n
  length-drop zero xs = omega arith
  length-drop (suc n) [] = omega arith
  length-drop (suc n) (x ∷ xs) = omega (arith, length-drop n xs)

  pub take-append-drop : (n : ℕ) (xs : List A) → take n xs ++ drop n xs ≡ xs
  take-append-drop zero xs = refl
  take-append-drop (suc n) [] = refl
  take-append-drop (suc n) (x ∷ xs) = rw (take-append-drop n xs)

abbrev pub sum : List ℕ → ℕ
sum [] = 0
sum (x ∷ xs) = x + sum xs

pub sum-append : (xs ys : List ℕ) → sum (xs ++ ys) ≡ sum xs + sum ys
sum-append [] ys = omega arith
sum-append (x ∷ xs) ys = omega (arith, sum-append xs ys)

-- `x in xs` for a list or a set of numbers.
abbrev pub elem : ℕ → List ℕ → Bool
elem x [] = false
elem x (y ∷ ys) = y == x || elem x ys

-- deque.extendleft: the items are put in front one by one.
abbrev pub extendleft {ℓ} : {A : Type ℓ} → List A → List A → List A
extendleft [] queue = queue
extendleft (x ∷ xs) queue = extendleft xs (x ∷ queue)

-- list.pop(): the list without its last item, and that item.
unfoldable pub pop {ℓ} : {A : Type ℓ} → List A → Option (List A × A)
pop [] = none
pop (x ∷ xs) = elim (pop xs) [ none ↦ some ([], x) | some (rest, y) ↦ some (x ∷ rest, y) ]

-- How often a number stands in a list.
abbrev pub count : ℕ → List ℕ → ℕ
count x [] = 0
count x (y ∷ ys) = if y == x then suc (count x ys) else count x ys

pub count-append : (x : ℕ) (xs ys : List ℕ) → count x (xs ++ ys) ≡ count x xs + count x ys
count-append x [] ys = omega arith
count-append x (y ∷ xs) ys = ground (arith, count-append x xs ys)

pub elem-count : (x : ℕ) (xs : List ℕ) → elem x xs ≡ ltb 0 (count x xs)
elem-count x [] = ground arith
elem-count x (y ∷ xs) = ground (arith, elem-count x xs)

pub count-extendleft : (x : ℕ) (xs q : List ℕ) → count x (extendleft xs q) ≡ count x xs + count x q
count-extendleft x [] q = omega arith
count-extendleft x (y ∷ xs) q = ground (arith, count-extendleft x xs (y ∷ q))

module _ {ℓ} {A : Type ℓ} where
  pub pop-nil : (xs : List A) → pop xs ≡ none → xs ≡ []
  unfolding pop
  pop-nil [] e = refl
  pop-nil (x ∷ xs) e = elim (Option-cases (pop xs)) [
    | inl e' ↦ cc (rw (e', pop) at e)
    | inr (_, e') ↦ cc (rw (e', pop) at e)
  ]

  -- pop takes off the last item, and nothing else.
  pub pop-append : (xs rest : List A) (y : A) → pop xs ≡ some (rest, y) → xs ≡ rest ++ y ∷ []
  unfolding pop
  pop-append [] rest y e = cc
  pop-append (x ∷ xs) rest y e = elim (Option-cases (pop xs)) [
    | inl e' ↦ ground (arith, rw (e', pop) at e, pop-nil xs e')
    | inr ((r, z), e') ↦ ground (arith, rw (e', pop) at e, pop-append xs r z e')
  ]

pub get_elem?-lt {ℓ} :
    {A : Type ℓ} (xs : List A) (i : ℕ) {x : A} → get_elem? xs i ≡ some x → i < length xs
get_elem?-lt [] i e = cc
get_elem?-lt (x ∷ xs) zero e = omega arith
get_elem?-lt (x ∷ xs) (suc i) e = omega (arith, get_elem?-lt xs i e)

pub elem-append : (x : ℕ) (xs ys : List ℕ) → elem x (xs ++ ys) ≡ (elem x xs || elem x ys)
elem-append x [] ys = refl
elem-append x (y ∷ xs) ys = ground (arith, elem-append x xs ys)

pub elem-eq : (k x : ℕ) (s : List ℕ) → k ≡ x → elem k s ≡ elem x s
elem-eq k x s e = rw e

-- The empty set is the one that has no element.
pub elem-nil : (s : List ℕ) → ((x : ℕ) → elem x s ≡ false) → s ≡ []
elem-nil [] h = refl
elem-nil (y ∷ s) h = ground (arith, h y)

pub elem-take : (x i : ℕ) (xs : List ℕ) → elem x (take i xs) ≡ true → elem x xs ≡ true
elem-take x zero xs e = cc
elem-take x (suc i) [] e = e
elem-take x (suc i) (y ∷ xs) e = ground (arith, elem-take x i xs)

pub take-append {ℓ} :
    {A : Type ℓ} (i : ℕ) (xs ys : List A) → i ≤ length xs → take i (xs ++ ys) ≡ take i xs
take-append zero xs ys h = refl
take-append (suc i) [] ys h = absurd (omega arith)
take-append (suc i) (x ∷ xs) ys h = ap (λ l. x ∷ l) (take-append i xs ys (omega arith))

-- The next item joins the prefix.
pub elem-take-suc :
    (x i y : ℕ) (xs : List ℕ)
    → get_elem? xs i ≡ some y
    → elem x (take (suc i) xs) ≡ (elem x (take i xs) || y == x)
elem-take-suc x i y [] e = cc
elem-take-suc x zero y (z ∷ xs) e = ground arith
elem-take-suc x (suc i) y (z ∷ xs) e = ground (arith, elem-take-suc x i y xs)

pub elem-length : (x : ℕ) (s : List ℕ) → elem x s ≡ true → 0 < length s
elem-length x [] e = cc
elem-length x (y ∷ s) e = omega arith

pub elem-get_elem? : (xs : List ℕ) (i : ℕ) {x : ℕ} → get_elem? xs i ≡ some x → elem x xs ≡ true
elem-get_elem? [] i e = cc
elem-get_elem? (y ∷ xs) zero e = ground arith
elem-get_elem? (y ∷ xs) (suc i) e = ground (arith, elem-get_elem? xs i e)

pub get_elem?-none {ℓ} : {A : Type ℓ} (xs : List A) (i : ℕ) → get_elem? xs i ≡ none → length xs ≤ i
get_elem?-none [] i e = omega arith
get_elem?-none (x ∷ xs) zero e = cc
get_elem?-none (x ∷ xs) (suc i) e = omega (arith, get_elem?-none xs i e)

pub get_elem?-some {ℓ} :
    {A : Type ℓ} (xs : List A) (i : ℕ) → i < length xs → (x : A) × (get_elem? xs i ≡ some x)
get_elem?-some [] i h = absurd (omega (arith, h))
get_elem?-some (x ∷ xs) zero h = (x, refl)
get_elem?-some (x ∷ xs) (suc i) h = get_elem?-some xs i (omega (arith, h))

pub get_elem?-take {ℓ} :
    {A : Type ℓ} (n i : ℕ) (xs : List A)
    → get_elem? (take n xs) i ≡ (if ltb i n then get_elem? xs i else none)
get_elem?-take zero i xs = ground arith
get_elem?-take (suc n) i [] = ground arith
get_elem?-take (suc n) zero (x ∷ xs) = ground arith
get_elem?-take (suc n) (suc i) (x ∷ xs) = ground (arith, get_elem?-take n i xs)

-- A predicate of every item.
abbrev pub All {ℓ} : {A : Type ℓ} → (A → Type 0) → List A → Type 0
All P [] = Unit
All P (x ∷ xs) = P x × All P xs

pub All-append {ℓ} :
    {A : Type ℓ} (P : A → Type 0) (xs ys : List A) → All P xs → All P ys → All P (xs ++ ys)
All-append P [] ys p q = q
All-append P (x ∷ xs) ys p q = (p.0, All-append P xs ys p.1 q)

module _ {A : Type 0} where
  pub get_elem?-append_left :
      (xs ys : List A) (i : ℕ) → i < length xs → get_elem? (xs ++ ys) i ≡ get_elem? xs i
  get_elem?-append_left [] ys i h = absurd (omega (arith, h))
  get_elem?-append_left (x ∷ xs) ys zero h = refl
  get_elem?-append_left (x ∷ xs) ys (suc i) h = get_elem?-append_left xs ys i (omega (arith, h))

  pub get_elem?-append_right :
      (xs ys : List A) (i : ℕ) → get_elem? (xs ++ ys) (length xs + i) ≡ get_elem? ys i
  get_elem?-append_right [] ys i = ap (λ j. get_elem? ys j) (omega arith)
  get_elem?-append_right (x ∷ xs) ys i =
      let next : suc (length xs) + i ≡ suc (length xs + i) = omega arith in
      rw next (get_elem?-append_right xs ys i)

abbrev pub Distinct : List ℕ → Type 0
Distinct [] = Unit {0}
Distinct (r ∷ rs) = (elem r rs ≡ false) × Distinct rs
