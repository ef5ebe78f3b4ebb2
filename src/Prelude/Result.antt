-- ===== src/Prelude/Result.antt =====
-- Results of code that may raise, with the rules of `Ensures`: what holds of the result, if any.
use mathlib.Core.Path.{◌≡◌, refl}
use mathlib.Core.Logic.{◌⊎◌, inl, inr}
use mathlib.Core.Bool.{Bool}
use mathlib.Core.Option.{Option}
use vllm_ascend_origin.Prelude.Tests.{if◌then◌else◌}

-- The exceptions, and two ends of the models' own: a loop without fuel, and a count that Python
-- would go on with as a negative number.
pub data Fault : Type 0 where
  assertion_error runtime_error index_error key_error : Fault
  value_error not_implemented_error decode_error type_error attribute_error : Fault
  zero_division_error : Fault
  out_of_fuel negative_count : Fault

pub data Result {ℓ} (A : Type ℓ) : Type ℓ where
  ok : A → Result A
  err : Fault → Result A

infixl 5 ◌>>=◌ ◌>>◌
abbrev pub ◌>>=◌ {ℓ κ} : {A : Type ℓ} {B : Type κ} → Result A → (A → Result B) → Result B
ok a >>= f = f a
err e >>= f = err e

abbrev pub ◌>>◌ {ℓ κ} : {A : Type ℓ} {B : Type κ} → Result A → Result B → Result B
m >> k = m >>= λ _. k

abbrev pub guard : Bool → Fault → Result (Unit {0})
guard Bool.true e = ok tt
guard Bool.false e = err e

abbrev pub or_fail {ℓ} : {A : Type ℓ} → Option A → Fault → Result A
or_fail Option.none e = err e
or_fail (Option.some a) e = ok a

pub Result-cases {ℓ} :
    {A : Type ℓ} (m : Result A) → ((a : A) × (m ≡ ok a)) ⊎ ((e : Fault) × (m ≡ err e))
Result-cases (ok a) = inl (a, refl)
Result-cases (err e) = inr (e, refl)

-- What holds of the result, if there is one.
abbrev pub Ensures {ℓ κ} : {A : Type ℓ} → (A → Type κ) → Result A → Type κ
Ensures Q (ok a) = Q a
Ensures Q (err e) = Unit

pub Ensures-map {ℓ κ μ} :
    {A : Type ℓ} {P : A → Type κ} {Q : A → Type μ}
    → ((a : A) → P a → Q a)
    → (m : Result A) → Ensures P m
    → Ensures Q m
Ensures-map h (ok a) p = h a p
Ensures-map h (err e) p = tt

pub Ensures-bind {ℓ κ μ ν} :
    {A : Type ℓ} {B : Type κ} (P : A → Type μ) (Q : B → Type ν) (m : Result A) (f : A → Result B)
    → Ensures P m
    → ((a : A) → P a → Ensures Q (f a))
    → Ensures Q (m >>= f)
Ensures-bind P Q (ok a) f p h = h a p
Ensures-bind P Q (err e) f p h = tt

pub Ensures-if {ℓ κ} :
    {A : Type ℓ} (Q : A → Type κ) (b : Bool) (m n : Result A)
    → (b ≡ Bool.true → Ensures Q m)
    → (b ≡ Bool.false → Ensures Q n)
    → Ensures Q (if b then m else n)
Ensures-if Q Bool.true m n h k = h refl
Ensures-if Q Bool.false m n h k = k refl

pub Ensures-ok {ℓ κ} :
    {A : Type ℓ} (P : A → Type κ) (m : Result A) (a : A) → Ensures P m → m ≡ ok a → P a
Ensures-ok P m a p e = rw e at p

pub Ensures-any {ℓ} : {A : Type ℓ} (m : Result A) → Ensures (λ _. Unit {0}) m
Ensures-any (ok a) = tt
Ensures-any (err e) = tt

-- What follows a step may use what the step has given.
pub Ensures-known {ℓ κ μ} :
    {A : Type ℓ} {B : Type κ} (Q : B → Type μ) (m : Result A) (f : A → Result B)
    → ((a : A) → m ≡ ok a → Ensures Q (f a))
    → Ensures Q (m >>= f)
Ensures-known Q (ok a) f h = h a refl
Ensures-known Q (err e) f h = tt

-- Total correctness: there is a result, and it satisfies the predicate.
abbrev pub Returns {ℓ} : {A : Type ℓ} → (A → Type 0) → Result A → Type 0
Returns Q (ok a) = Q a
Returns Q (err e) = ⊥

pub Returns-bind {ℓ κ} :
    {A : Type ℓ} {B : Type κ} (P : A → Type 0) (Q : B → Type 0) (m : Result A) (f : A → Result B)
    → Returns P m
    → ((a : A) → P a → Returns Q (f a))
    → Returns Q (m >>= f)
Returns-bind P Q (ok a) f p h = h a p
Returns-bind P Q (err e) f p h = elim p [ ]

pub Returns-ok {ℓ} :
    {A : Type ℓ} (P : A → Type 0) (m : Result A) → Returns P m → (a : A) × (m ≡ ok a) × P a
Returns-ok P (ok a) p = (a, refl, p)
Returns-ok P (err e) p = elim p [ ]

pub Returns-both {ℓ} :
    {A : Type ℓ} (P Q : A → Type 0) (m : Result A)
    → Returns P m
    → Returns Q m
    → Returns (λ a. P a × Q a) m
Returns-both P Q (ok a) p q = (p, q)
Returns-both P Q (err e) p q = p

pub Returns-map {ℓ} :
    {A : Type ℓ} {P Q : A → Type 0}
    → ((a : A) → P a → Q a)
    → (m : Result A) → Returns P m
    → Returns Q m
Returns-map h (ok a) p = h a p
Returns-map h (err e) p = p

pub Returns-if {ℓ} :
    {A : Type ℓ} (Q : A → Type 0) (b : Bool) (m n : Result A)
    → (b ≡ Bool.true → Returns Q m)
    → (b ≡ Bool.false → Returns Q n)
    → Returns Q (if b then m else n)
Returns-if Q Bool.true m n h k = h refl
Returns-if Q Bool.false m n h k = k refl

pub Returns-Ensures {ℓ} : {A : Type ℓ} (P : A → Type 0) (m : Result A) → Returns P m → Ensures P m
Returns-Ensures P (ok a) p = p
Returns-Ensures P (err e) p = tt

pub Ensures-eq {ℓ} : {A : Type ℓ} (m : Result A) → Ensures (λ a. m ≡ ok a) m
Ensures-eq (ok a) = refl
Ensures-eq (err e) = tt

pub Returns-with {ℓ} :
    {A : Type ℓ} (P Q : A → Type 0) (m : Result A) → Returns P m → Ensures Q m → Returns Q m
Returns-with P Q (ok a) p q = q
Returns-with P Q (err e) p q = p
