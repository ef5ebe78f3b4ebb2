-- ===== src/Prelude/Step.antt =====
-- Code that changes a state and may raise: the state is kept when it raises.
use mathlib.Core.Logic.{inl, inr}
use mathlib.Core.Path.{◌≡◌, ap}
use vllm_ascend_origin.Prelude.Result.{Fault, Result, ok, err, Result-cases}

abbrev pub Step {ℓ κ} : Type ℓ → Type κ → Type (ℓ ⊔ κ)
Step S A = S → Result A × S

abbrev pub continue_with {ℓ κ μ} :
    {S : Type ℓ} {A : Type κ} {B : Type μ} → (A → Step S B) → Result A × S → Result B × S
continue_with f (r, s) = elim r [ ok a ↦ f a s | err e ↦ (err e, s) ]

infixl 5 ◌>>>◌
unfoldable pub ◌>>>◌ {ℓ κ μ} :
    {S : Type ℓ} {A : Type κ} {B : Type μ} → Step S A → (A → Step S B) → Step S B
(m >>> f) s = continue_with f (m s)

-- Code that reads and writes no state.
unfoldable pub pure {ℓ κ} : {S : Type ℓ} {A : Type κ} → Result A → Step S A
pure r s = (r, s)

-- What holds of the state before and after, whether the code returns or raises.
pub record Keeps {S A : Type 0} (R : S → S → Type 0) (m : Step S A) : Type 0 where
  pub kept : (s : S) → R s (m s).1

module _ {ℓ κ μ} {S : Type ℓ} {A : Type κ} {B : Type μ} where
  pub then-ok :
      (m : Step S A) (f : A → Step S B) (s t : S) (a : A) → m s ≡ (ok a, t) → (m >>> f) s ≡ f a t
  unfolding ◌>>>◌
  then-ok m f s t a e = ap (continue_with f) e

  pub then-err :
      (m : Step S A) (f : A → Step S B) (s t : S) (x : Fault)
      → m s ≡ (err x, t)
      → (m >>> f) s ≡ (err x, t)
  unfolding ◌>>>◌
  then-err m f s t x e = ap (continue_with f) e

module _ {S : Type 0} (R : S → S → Type 0) where
  pub pure-Keeps : {A : Type 0} (r : Result A) → ((s : S) → R s s) → Keeps R (pure r)
  unfolding pure
  pure-Keeps r refl_of = record { kept = refl_of }

  -- A relation that composes is kept by a sequence of steps that keep it.
  pub then-Keeps :
      {A B : Type 0}
      → ((s t u : S) → R s t → R t u → R s u)
      → {m : Step S A} {f : A → Step S B} → Keeps R m
      → ((a : A) → Keeps R (f a))
      → Keeps R (m >>> f)
  unfolding ◌>>>◌
  then-Keeps trans {m = m} {f = f} h k = record {
    kept = λ s. elim (Result-cases (m s).0) [
      | inl (a, e) ↦ rw e (trans s (m s).1 (f a (m s).1).1 (h.kept s) ((k a).kept (m s).1))
      | inr (x, e) ↦ rw e (h.kept s)
    ];
  }

-- A postcondition of a sequence: for the first step's error, and behind its result.
pub then-post :
    {S A B : Type 0} (Q : Result B × S → Type 0) (m : Step S A) (f : A → Step S B) (s : S)
    → ((x : Fault) (t : S) → m s ≡ (err x, t) → Q (err x, t))
    → ((a : A) (t : S) → m s ≡ (ok a, t) → Q (f a t))
    → Q ((m >>> f) s)
unfolding ◌>>>◌
then-post Q m f s h k = elim (Result-cases (m s).0) [
  | inl (a, e) ↦ rw e (k a (m s).1 (ap (λ r. (r, (m s).1)) e))
  | inr (x, e) ↦ rw e (h x (m s).1 (ap (λ r. (r, (m s).1)) e))
]
