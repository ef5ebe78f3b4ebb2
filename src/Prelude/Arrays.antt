-- ===== src/Prelude/Arrays.antt =====
-- Lists as arrays: reads and writes at an index, which raise out of range.
use Prim.Native.Nat.{ℕ, zero, suc, ◌+◌, ◌<◌}
use mathlib.Core.Path.{◌≡◌, refl, sym, ◌∙◌}
use mathlib.Core.List.{List, [], ◌∷◌, ◌++◌, append_assoc}
use mathlib.Core.Option.{Option, none, some}
use native.Mathlib.Omega.{arith}
use vllm_ascend_origin.Prelude.Tests.{◌==◌, if◌then◌else◌}
use vllm_ascend_origin.Prelude.Lists.{length, length-append, get_elem?, All}
use vllm_ascend_origin.Prelude.Result.{Result, ok, err, index_error, ◌>>=◌, Returns, Returns-bind}

-- `xs[i] = x` of a list
unfoldable pub set_at {ℓ} : {A : Type ℓ} → List A → ℕ → A → Result (List A)
set_at [] i x = err index_error
set_at (y ∷ xs) zero x = ok (x ∷ xs)
set_at (y ∷ xs) (suc i) x = set_at xs i x >>= λ xs. ok (y ∷ xs)

-- `xs[i]` of a list
unfoldable pub get_at {ℓ} : {A : Type ℓ} → List A → ℕ → Result A
get_at [] i = err index_error
get_at (x ∷ xs) zero = ok x
get_at (x ∷ xs) (suc i) = get_at xs i

module _ {A : Type 0} where
  -- The list is `xs`, but for the entry `x` at `i`.
  pub record Written (xs : List A) (i : ℕ) (x : A) (ys : List A) : Type 0 where
    pub read : (k : ℕ) → get_elem? ys k ≡ (if i == k then some x else get_elem? xs k)
    pub size : length ys ≡ length xs

  pub get_at-eq-ok : (xs : List A) (i : ℕ) {x : A} → get_elem? xs i ≡ some x → get_at xs i ≡ ok x
  unfolding get_at
  get_at-eq-ok [] i h = cc
  get_at-eq-ok (y ∷ xs) zero h = cc
  get_at-eq-ok (y ∷ xs) (suc i) h = get_at-eq-ok xs i h

  Written-cons :
      (y : A) (xs : List A) (i : ℕ) (x : A) (ys : List A)
      → Written xs i x ys
      → Written (y ∷ xs) (suc i) x (y ∷ ys)
  Written-cons y xs i x ys w = record {
    read = λ k.
        elim k
          as (λ k. get_elem? (y ∷ ys) k ≡ (if suc i == k then some x else get_elem? (y ∷ xs) k)) [
            | zero ↦ ground arith
            | suc k ↦ ground (arith, w.read k)
          ];
    size = omega (arith, w.size);
  }

  pub set_at-Written :
      (xs : List A) (i : ℕ) (x : A) → i < length xs → Returns (Written xs i x) (set_at xs i x)
  unfolding set_at
  set_at-Written [] i x h = ground (arith, h)
  set_at-Written (y ∷ xs) zero x h = record {
    read = λ k.
        elim k
          as (λ k. get_elem? (x ∷ xs) k ≡ (if zero == k then some x else get_elem? (y ∷ xs) k)) [
            | zero ↦ ground arith
            | suc k ↦ ground arith
          ];
    size = refl;
  }
  set_at-Written (y ∷ xs) (suc i) x h =
      Returns-bind (Written xs i x) (Written (y ∷ xs) (suc i) x) (set_at xs i x) (λ ys. ok (y ∷ ys))
        (set_at-Written xs i x (omega (arith, h))) (λ ys w. Written-cons y xs i x ys w)

pub get_at-Returns :
    {A : Type 0} (P : A → Type 0) (xs : List A) (i : ℕ)
    → All P xs
    → i < length xs
    → Returns P (get_at xs i)
unfolding get_at
get_at-Returns P [] i p h = absurd (omega (arith, h))
get_at-Returns P (x ∷ xs) zero p h = p.0
get_at-Returns P (x ∷ xs) (suc i) p h = get_at-Returns P xs i p.1 (omega (arith, h))

anything : {A : Type 0} (xs : List A) → All (λ _. Unit) xs
anything [] = tt
anything (x ∷ xs) = (tt, anything xs)

pub get_at-any :
    {A : Type 0} (xs : List A) (i : ℕ) → i < length xs → Returns (λ _. Unit) (get_at xs i)
get_at-any xs i h = get_at-Returns (λ _. Unit) xs i (anything xs) h

pub set_at-append :
    {A : Type 0} (done : List A) (r x : A) (row : List A)
    → set_at (done ++ r ∷ row) (length done) x ≡ ok (done ++ x ∷ row)
unfolding set_at
set_at-append [] r x row = refl
set_at-append (d ∷ done) r x row = rw (set_at-append done r x row)

pub get_at-append :
    {A : Type 0} (done : List A) (x : A) (rest : List A)
    → get_at (done ++ x ∷ rest) (length done) ≡ ok x
unfolding get_at
get_at-append [] x rest = refl
get_at-append (d ∷ done) x rest = get_at-append done x rest

-- The entries that are no holes.
abbrev pub occupied : {A : Type 0} → List (Option A) → ℕ
occupied [] = 0
occupied (none ∷ xs) = occupied xs
occupied (some x ∷ xs) = suc (occupied xs)

abbrev pub here : {A : Type 0} → Option A → ℕ
here none = 0
here (some x) = 1

pub occupied-cons :
    {A : Type 0} (o : Option A) (xs : List (Option A)) → occupied (o ∷ xs) ≡ here o + occupied xs
occupied-cons none xs = omega arith
occupied-cons (some x) xs = omega arith

-- Counting: an entry is exchanged for another.
pub set_at-occupied :
    {A : Type 0} (xs : List (Option A)) (i : ℕ) (o p : Option A)
    → get_elem? xs i ≡ some o
    → Returns (λ ys. occupied ys + here o ≡ occupied xs + here p) (set_at xs i p)
unfolding set_at
set_at-occupied [] i o p h = cc
set_at-occupied (q ∷ xs) zero o p h =
    let e : q ≡ o = cc in rw e (omega (arith, occupied-cons o xs, occupied-cons p xs))
set_at-occupied (q ∷ xs) (suc i) o p h =
    Returns-bind _ _ (set_at xs i p) (λ ys. ok (q ∷ ys)) (set_at-occupied xs i o p h)
      (λ ys e. omega (arith, e, occupied-cons q ys, occupied-cons q xs))

-- Two lists of one length, related item by item.
abbrev pub AllPairs : {A B : Type 0} → (A → B → Type 0) → List A → List B → Type 0
AllPairs R [] [] = Unit
AllPairs R [] (y ∷ ys) = ⊥
AllPairs R (x ∷ xs) [] = ⊥
AllPairs R (x ∷ xs) (y ∷ ys) = R x y × AllPairs R xs ys

pub get_at-AllPairs :
    {A B : Type 0} (R : A → B → Type 0) (xs : List A) (ys : List B) (i : ℕ) (x : A)
    → AllPairs R xs ys
    → get_at xs i ≡ ok x
    → Returns (R x) (get_at ys i)
unfolding get_at
get_at-AllPairs R [] ys i x h e = cc
get_at-AllPairs R (z ∷ xs) [] i x h e = h
get_at-AllPairs R (z ∷ xs) (y ∷ ys) zero x h e = let same : z ≡ x = cc in rw (sym same) h.0
get_at-AllPairs R (z ∷ xs) (y ∷ ys) (suc i) x h e = get_at-AllPairs R xs ys i x h.1 e

-- A loop over the indices that are left reads the items that are left.
pub loop-AllPairs :
    {A B : Type 0} (R : A → B → Type 0) (P : A → Type 0) (step : A → Result B)
    (loop : ℕ → ℕ → Result (List B)) (all : List A)
    → ((x : A) → P x → Returns (R x) (step x))
    → ((i : ℕ) → loop i zero ≡ ok [])
    → ((i left : ℕ)
        → loop i (suc left)
          ≡ (get_at all i >>= λ x. step x >>= λ y. loop (suc i) left >>= λ ys. ok (y ∷ ys)))
    → (done rest : List A) → all ≡ done ++ rest
    → All P rest
    → Returns (AllPairs R rest) (loop (length done) (length rest))
loop-AllPairs R P step loop all good stop next done [] split h = rw (stop (length done)) tt
loop-AllPairs R P step loop all good stop next done (x ∷ rest) split h =
    let read : get_at all (length done) ≡ ok x = rw split (get_at-append done x rest) in
    let more : length (done ++ x ∷ []) ≡ suc (length done) =
      omega (arith, length-append done (x ∷ [])) in
    rw (next (length done) (length rest), read)
      (Returns-bind (R x) (AllPairs R (x ∷ rest)) (step x) _ (good x h.0) (λ y r.
        Returns-bind (AllPairs R rest) (AllPairs R (x ∷ rest))
          (loop (suc (length done)) (length rest)) _
          (rw (sym more) (
            loop-AllPairs R P step loop all good stop next (done ++ x ∷ []) rest
              (split ∙ sym (append_assoc done (x ∷ []) rest)) h.1))
          (λ ys rs. (r, rs))))
