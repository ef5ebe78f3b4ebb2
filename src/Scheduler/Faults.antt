-- ===== src/Scheduler/Faults.antt =====
-- vllm_ascend/core/scheduler.py: how `schedule` can fail. The loops have enough fuel, no index is
-- out of range and no key is missing.
use vllm_ascend_origin.Prelude.{
  ℕ, zero, suc, ◌+◌, ◌≤◌, ◌≡◌, refl, ap, true, ◌&&◌, inl, inr, Option, none, some, List, [], ◌∷◌,
  arith, ltb, ◌==◌, Bool-cases, Option-cases, length, length-append, elem, elem-append, elem-length,
  elem-get_elem?, get_elem?, get_elem?-none, pop, pop-nil, pop-append, extendleft,
}
use vllm_ascend_origin.Scheduler.State.{
  Request, Fault, assertion_error, runtime_error, negative_count, Result, ok, err, ◌>>=◌,
  Ensures-map, Ensures-ok, Config, Vllm, Plan, Frame, AscendScheduler,
}
use vllm_ascend_origin.Scheduler.Limits.{get_prompt_limit}
use vllm_ascend_origin.Scheduler.Prefill.{
  Turn, break, continue, resume, Computed, New, decide_tokens, admit, allocate, place,
  prefill_round, prefill_loop,
}
use vllm_ascend_origin.Scheduler.Decode.{
  decode_slots, decode_tokens, preempt, allocate_or_preempt, after_allocation, decode_round,
  decode_loop,
}
use vllm_ascend_origin.Scheduler.Decode.{preempted, resumed}
use vllm_ascend_origin.Scheduler.Decode.Moves.{
  Preempts, last, DecodeMove, passes, gives_up, schedules, decode_round-Move,
}
use vllm_ascend_origin.Scheduler.Schedule.{start, schedule_loops}

-- The faults that a step may end in.
abbrev pub MayRaise : Fault → Type 0
MayRaise assertion_error = Unit
MayRaise runtime_error = Unit
MayRaise negative_count = Unit
MayRaise _ = ⊥

abbrev pub Fails {ℓ} : {A : Type ℓ} → Result A → Type 0
Fails (ok a) = Unit
Fails (err e) = MayRaise e

Fails-bind {ℓ κ} :
    {A : Type ℓ} {B : Type κ} (m : Result A) (f : A → Result B)
    → Fails m
    → ((a : A) → m ≡ ok a → Fails (f a))
    → Fails (m >>= f)
Fails-bind (ok a) f h k = k a refl
Fails-bind (err e) f h k = h

Fails-resume {ℓ} :
    {A : Type 0} {B : Type ℓ} (stop : A → B) (again : A → Result B) (m : Result (Turn A))
    → Fails m
    → ((g : A) → m ≡ ok (continue g) → Fails (again g))
    → Fails (resume stop again m)
unfolding resume
Fails-resume stop again (err e) h k = h
Fails-resume stop again (ok (break g)) h k = tt
Fails-resume stop again (ok (continue g)) h k = k g refl

module _ (v : Vllm) (c : Config) where
  decide_tokens-Fails :
      (r : Request) (computed budget : ℕ) → Fails (decide_tokens c r computed budget)
  unfolding decide_tokens get_prompt_limit
  decide_tokens-Fails r computed budget = ground arith

  admit-Fails :
      (id n : ℕ) (k : Computed v.Blocks) (b : v.Blocks) (f : Frame v.Ext (New v c))
      → Fails (admit v c id n k b f)
  unfolding admit
  admit-Fails id n k b f = ground arith

  allocate-Fails :
      (id n : ℕ) (bs : Option (List v.Block)) (k : Computed v.Blocks) (f : Frame v.Ext (New v c))
      → Fails (allocate v c id n bs k f)
  unfolding allocate
  allocate-Fails id n bs k f = grind (arith, admit-Fails)

  place-Fails : (id : ℕ) (f : Frame v.Ext (New v c)) → Fails (place v c id f)
  unfolding place
  place-Fails id f = grind (arith, allocate-Fails, decide_tokens-Fails)

  prefill_round-Fails : (id : ℕ) (f : Frame v.Ext (New v c)) → Fails (prefill_round v c id f)
  unfolding prefill_round
  prefill_round-Fails id f = grind (arith, place-Fails)

  prefill_loop-Fails : (q : List ℕ) (f : Frame v.Ext (New v c)) → Fails (prefill_loop v c q f)
  unfolding prefill_loop
  prefill_loop-Fails [] f = tt
  prefill_loop-Fails (id ∷ q) f = elim (Bool-cases (ltb 0 f.plan.token_budget)) [
    | inr spent ↦ rw (spent, prefill_loop) tt
    | inl more ↦
        rw (more, prefill_loop)
          (Fails-resume _ _ (prefill_round v c id f) (prefill_round-Fails id f)
            (λ g _. prefill_loop-Fails q g))
  ]

  -- As long as the request itself is running, the inner loop finds a request to preempt.
  allocate_or_preempt-Fails :
      (fuel id n : ℕ) (w : List ℕ) (f : Frame v.Ext (New v c))
      → elem id f.plan.running ≡ true
      → length f.plan.running ≤ fuel
      → Fails (allocate_or_preempt v c fuel id n w f)
  unfolding allocate_or_preempt preempt preempted
  allocate_or_preempt-Fails zero id n w f here enough =
      absurd (omega (arith, elem-length id f.plan.running here))
  allocate_or_preempt-Fails (suc fuel) id n w f here enough =
      elim (Option-cases (v.allocate_slots f.ext id (f.requests id) (decode_slots c n)).0) [
        | inr (b, e) ↦ rw (e, allocate_or_preempt) tt
        | inl e ↦ elim (Option-cases (pop f.plan.running)) [
          | inl empty ↦ absurd (
              omega (
                arith,
                elem-length id f.plan.running here,
                ap length (pop-nil f.plan.running empty),
              ))
          | inr ((rest, victim), popped) ↦ elim (Bool-cases (victim == id)) [
            | inl self ↦ rw (e, popped, self, allocate_or_preempt) tt
            | inr other ↦
                let whole = pop-append f.plan.running rest victim popped in
                rw (e, popped, other, allocate_or_preempt)
                  (allocate_or_preempt-Fails fuel id n (victim ∷ w) _
                    (ground (arith, whole, ap (elem id) whole, elem-append id rest (victim ∷ [])))
                    (omega (arith, ap length whole, length-append rest (victim ∷ []))))
          ]
        ]
      ]

  after_allocation-Fails :
      (id n : ℕ) (r : Option v.Blocks × List ℕ × Frame v.Ext (New v c))
      → Fails (after_allocation v c id n r)
  unfolding after_allocation
  after_allocation-Fails id n (none, w, f) = tt
  after_allocation-Fails id n (some b, w, f) = tt

  decode_tokens-Fails :
      (r : Request) (loras : List ℕ) (budget : ℕ) → Fails (decode_tokens c r loras budget)
  unfolding decode_tokens
  decode_tokens-Fails r loras budget = ground arith

  decode_round-Fails :
      (id : ℕ) (w : List ℕ) (f : Frame v.Ext (New v c))
      → elem id f.plan.running ≡ true
      → Fails (decode_round v c id w f)
  unfolding decode_round
  decode_round-Fails id w f here = elim (Bool-cases (elem id f.plan.scheduled_req_ids)) [
    | inl done ↦ rw (done, decode_round) tt
    | inr fresh ↦
        rw (fresh, decode_round)
          (Fails-bind (decode_tokens c (f.requests id) f.plan.scheduled_loras f.plan.token_budget) _
            (decode_tokens-Fails (f.requests id) f.plan.scheduled_loras f.plan.token_budget)
            (λ n _. elim (Bool-cases (n == 0)) [
              | inl none_new ↦ rw none_new tt
              | inr some_new ↦ rw some_new (
                  Fails-bind (allocate_or_preempt v c (length f.plan.running) id n w f) _
                    (allocate_or_preempt-Fails (length f.plan.running) id n w f here (omega arith))
                    (λ r _. after_allocation-Fails id n r))
            ]))
  ]

  length-Preempts :
      {id : ℕ} {w' : List ℕ} {q : Plan (New v c)} {w : List ℕ} {p : Plan (New v c)}
      → Preempts id w' q w p
      → length q.running ≤ length p.running
  unfolding preempted
  length-Preempts (Preempts.here ew eq) =
      omega (arith, ap (λ (r : Plan (New v c)). length r.running) eq)
  length-Preempts (last {p = p} victim rest e ne m) = omega (
    arith,
    length-Preempts m,
    ap length (pop-append p.running rest victim e),
    length-append rest (victim ∷ []),
  )

  -- No round lengthens the list of running requests.
  Shrinks : ℕ → Turn (List ℕ × Frame v.Ext (New v c)) → Type 0
  Shrinks n (break r) = Unit
  Shrinks n (continue (w, g)) = length g.plan.running ≤ n

  Move-Shrinks :
      (id : ℕ) (w : List ℕ) (p : Plan (New v c)) (t : Turn (List ℕ × Frame v.Ext (New v c)))
      → DecodeMove v c id w p t
      → Shrinks (length p.running) t
  unfolding Shrinks resumed
  Move-Shrinks id w p t (passes ew eg) = rw eg (omega arith)
  Move-Shrinks id w p t (gives_up w₁ rest q m e ew eg) = tt
  Move-Shrinks id w p t (schedules q n new kept r fresh lora pos fits m eg) =
      rw eg (length-Preempts m)

  round-Shrinks :
      (id : ℕ) (w : List ℕ) (f : Frame v.Ext (New v c)) (w' : List ℕ) (g : Frame v.Ext (New v c))
      → decode_round v c id w f ≡ ok (continue (w', g))
      → length g.plan.running ≤ length f.plan.running
  unfolding Shrinks
  round-Shrinks id w f w' g e =
      Ensures-ok (Shrinks (length f.plan.running)) (decode_round v c id w f) (continue (w', g))
        (Ensures-map (Move-Shrinks id w f.plan) (decode_round v c id w f)
          (decode_round-Move v c id w f))
        e

  -- One round more than there are requests left is enough fuel.
  decode_loop-Fails :
      (n i : ℕ) (w : List ℕ) (f : Frame v.Ext (New v c))
      → length f.plan.running ≤ n + i
      → Fails (decode_loop v c (suc n) i w f)
  unfolding decode_loop
  decode_loop-Fails zero i w f enough =
      elim (Bool-cases (ltb i (length f.plan.running) && ltb 0 f.plan.token_budget)) [
        | inr done ↦ rw (done, decode_loop) tt
        | inl more ↦ absurd (ground (arith, more))
      ]
  decode_loop-Fails (suc n) i w f enough =
      elim (Bool-cases (ltb i (length f.plan.running) && ltb 0 f.plan.token_budget)) [
        | inr done ↦ rw (done, decode_loop) tt
        | inl more ↦ elim (Option-cases (get_elem? f.plan.running i)) [
          | inl out ↦ absurd (ground (arith, more, get_elem?-none f.plan.running i out))
          | inr (id, at_i) ↦
              rw (more, at_i, decode_loop)
                (Fails-resume _ _ (decode_round v c id w f)
                  (decode_round-Fails id w f (elem-get_elem? f.plan.running i at_i))
                  (λ (w', g) e.
                    decode_loop-Fails n (i + 1) w' g (omega (arith, round-Shrinks id w f w' g e))))
        ]
      ]

  -- A run of both loops that fails does so by an assertion, an invalid status or a negative count:
  -- no loop runs out of fuel and no index is out of range.
  pub schedule_loops-Fails : (s : AscendScheduler v.Ext) → Fails (schedule_loops v c s)
  unfolding schedule_loops
  schedule_loops-Fails s =
      Fails-bind (prefill_loop v c s.waiting (start v c s)) _
        (prefill_loop-Fails s.waiting (start v c s))
        (λ (q, f) _. elim (Bool-cases (length f.plan.scheduled_req_ids == 0)) [
          | inl none_scheduled ↦ rw none_scheduled (
              decode_loop-Fails (length f.plan.running) 0
                (extendleft f.plan.skipped_waiting_requests q) f (omega arith))
          | inr some_scheduled ↦ rw some_scheduled tt
        ])
