-- ===== src/InputBatch/Holes.antt =====
-- vllm_ascend/worker/npu_input_batch.py, InputBatch.condense: how the loop over the holes ends.
use vllm_ascend_origin.Prelude.Arrays.{set_at, get_at}
use vllm_ascend_origin.Prelude.{
  ℕ, zero, suc, ◌+◌, ◌-◌, ◌≡◌, ◌<◌, refl, Bool, true, false, Option, none, some, List, [], ◌∷◌,
  ◌==◌, if◌then◌else◌, leb, length, arith, List-cases, ap, Bool-cases, Option-cases, inl, inr,
}
use vllm_ascend_origin.Prelude.Result.{
  Fault, assertion_error, index_error, Result, ok, err, ◌>>=◌, or_fail, Ensures, Ensures-bind,
  Ensures-any, Ensures-ok,
}
use vllm_ascend_origin.InputBatch.State.{Ext, InputBatch, num_reqs}
use vllm_ascend_origin.InputBatch.Condense.{
  find_last, move_entry, move_arrays, move_request, fill_holes, condense, BuilderLaws,
}

-- What condense may raise: an assertion, or an index that is out of range.
abbrev pub MayRaise : Fault → Type 0
MayRaise assertion_error = Unit
MayRaise index_error = Unit
MayRaise _ = ⊥

abbrev pub Fails {ℓ} : {A : Type ℓ} → Result A → Type 0
Fails (ok a) = Unit
Fails (err e) = MayRaise e

Fails-bind {ℓ κ} :
    {A : Type ℓ} {B : Type κ} (m : Result A) (f : A → Result B)
    → Fails m
    → ((a : A) → m ≡ ok a → Fails (f a))
    → Fails (m >>= f)
Fails-bind (ok a) f h k = k a refl
Fails-bind (err e) f h k = h

Fails-if {ℓ} :
    {A : Type ℓ} (c : Bool) (m n : Result A) → Fails m → Fails n → Fails (if c then m else n)
Fails-if true m n h k = h
Fails-if false m n h k = k

get_at-Fails {ℓ} : {A : Type ℓ} (xs : List A) (i : ℕ) → Fails (get_at xs i)
unfolding get_at
get_at-Fails [] i = tt
get_at-Fails (x ∷ xs) zero = tt
get_at-Fails (x ∷ xs) (suc i) = get_at-Fails xs i

set_at-Fails {ℓ} : {A : Type ℓ} (xs : List A) (i : ℕ) (x : A) → Fails (set_at xs i x)
unfolding set_at
set_at-Fails [] i x = tt
set_at-Fails (y ∷ xs) zero x = tt
set_at-Fails (y ∷ xs) (suc i) x =
    Fails-bind (set_at xs i x) (λ xs. ok (y ∷ xs)) (set_at-Fails xs i x) (λ _ _. tt)

or_fail-Fails {ℓ} : {A : Type ℓ} (o : Option A) → Fails (or_fail o assertion_error)
or_fail-Fails none = tt
or_fail-Fails (some a) = tt

move_entry-Fails {ℓ} :
    {A : Type ℓ} (last empty : ℕ) (xs : List (Option A)) → Fails (move_entry last empty xs)
unfolding move_entry
move_entry-Fails last empty xs = Fails-bind (get_at xs last) _ (get_at-Fails xs last) (λ x _.
    Fails-bind (set_at xs empty x) _ (set_at-Fails xs empty x) (λ ys _. set_at-Fails ys last none))

module _ {E : Ext} (laws : BuilderLaws E) where
  move_request-Fails : (last empty : ℕ) (b : InputBatch E) → Fails (move_request last empty b)
  unfolding move_request
  move_request-Fails last empty b =
      Fails-bind (get_at b.req_ids last) _ (get_at-Fails b.req_ids last) (λ o _.
        Fails-bind (or_fail o assertion_error) _ (or_fail-Fails o) (λ id _.
          Fails-bind (move_entry last empty b.req_ids) _ (move_entry-Fails last empty b.req_ids)
            (λ ids _.
              Fails-bind (move_entry last empty b.req_output_token_ids) _
                (move_entry-Fails last empty b.req_output_token_ids) (λ outputs _. tt))))

  move_request-shorter :
      (last empty : ℕ) (b : InputBatch E)
      → 0 < length (E.removed b.batch_update_builder)
      → Ensures
          (λ c.
            length (E.removed c.batch_update_builder) < length (E.removed b.batch_update_builder))
          (move_request last empty b)
  unfolding move_request move_arrays
  move_request-shorter last empty b pos =
      Ensures-bind (λ _. Unit {0}) _ (get_at b.req_ids last) _ (Ensures-any _)
        (λ o _.
          Ensures-bind (λ _. Unit {0}) _ (or_fail o assertion_error) _ (Ensures-any _)
            (λ id _.
              Ensures-bind (λ _. Unit {0}) _ (move_entry last empty b.req_ids) _ (Ensures-any _)
                (λ ids _.
                  Ensures-bind (λ _. Unit {0}) _ (move_entry last empty b.req_output_token_ids) _
                    (Ensures-any _)
                    (λ outputs _. omega (
                      arith,
                      laws.shorter b.batch_update_builder pos,
                      laws.kept last empty false (E.pop_removed b.batch_update_builder).1,
                    )))))

  fill_holes-Fails :
      (fuel last : ℕ) (b : InputBatch E)
      → length (E.removed b.batch_update_builder) < fuel
      → Fails (fill_holes fuel last b)
  unfolding fill_holes
  fill_holes-Fails zero last b h = omega (arith, h)
  fill_holes-Fails (suc fuel) last b h = elim (List-cases (E.removed b.batch_update_builder)) [
    | inl e ↦ rw (e, fill_holes) tt
    | inr (r, rs, e) ↦
        rw (e, fill_holes)
          (Fails-bind (or_fail (E.peek_removed b.batch_update_builder) assertion_error) _
            (or_fail-Fails (E.peek_removed b.batch_update_builder))
            (λ empty _. elim (Option-cases (find_last last (r ∷ rs))) [
              | inl f ↦ rw f tt
              | inr (l, f) ↦ elim (Bool-cases (leb l empty)) [
                | inl g ↦ rw (f, g) tt
                | inr g ↦
                    rw (f, g)
                      (Fails-bind (move_request l empty b) _ (move_request-Fails l empty b) (λ c m.
                        fill_holes-Fails fuel (l - 1) c (
                          omega (
                            arith,
                            h,
                            Ensures-ok
                                (λ c.
                                  length (E.removed c.batch_update_builder)
                                  < length (E.removed b.batch_update_builder))
                                (move_request l empty b) c
                                (move_request-shorter l empty b
                                  (omega (arith, ap (λ xs. length xs) e)))
                                m,
                          ))))
              ]
            ]))
  ]

  -- Let the builder keep its documented laws. Then condense returns, or raises an assertion or an
  -- index that is out of range: the loop over the holes ends, with one round for each hole at most.
  pub condense-Fails : (b : InputBatch E) → Fails (condense b)
  unfolding condense
  condense-Fails b =
      let holes : ℕ = length (E.removed b.batch_update_builder) in
      Fails-if b.is_pooling_model _ _ tt (
        Fails-if (holes == 0) _ _ tt (
          Fails-if (num_reqs b == 0) _ _ tt (
            Fails-bind (fill_holes (suc holes) (num_reqs b + holes - 1) b) _
              (fill_holes-Fails (suc holes) (num_reqs b + holes - 1) b (omega arith)) (λ _ _. tt))))
