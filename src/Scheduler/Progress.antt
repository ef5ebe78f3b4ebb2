-- ===== src/Scheduler/Progress.antt =====
-- vllm_ascend/core/scheduler.py: after a step and its update no request is marked as scheduled, so
-- that the next step can decode; and what an unbalanced mark does to the steps that follow.
use native.Mathlib.Numerals.{add-one}
use vllm_ascend_origin.Prelude.{
  ℕ, ◌≤◌, ◌<◌, ◌≡◌, ap, true, false, ◌||◌, List, [], ◌∷◌, ◌++◌, arith, ◌==◌, if◌then◌else◌, length,
  length-append, take, take-append, elem, elem-append, elem-length, elem-take, elem-take-suc,
  elem-nil, get_elem?-lt, add, elem-add, discard, elem-discard, insert, get_or_zero,
  get_or_zero-insert, get_or_zero_eq, pop-append,
}
use vllm_ascend_origin.Scheduler.State.{
  Ensures, Ensures-bind, Ensures-any, Config, Vllm, Plan, Frame, AscendScheduler,
}
use vllm_ascend_origin.Scheduler.Prefill.{skipped, ignored, admitted, New}
use vllm_ascend_origin.Scheduler.Prefill.Loop.{PrefillRule}
use vllm_ascend_origin.Scheduler.Decode.{preempted, resumed}
use vllm_ascend_origin.Scheduler.Decode.Loop.{DecodeRule}
use vllm_ascend_origin.Scheduler.Schedule.Loops.{schedule_loops_inv, schedule_unchunked}
use vllm_ascend_origin.Scheduler.Schedule.{
  start, schedule_loops, schedule_step, schedule, new_reqs_data, make_output, check_constraints,
  discard_scheduled,
}

-- Each marked id is in `ids` and has a positive number of scheduled tokens.
abbrev Marked : List ℕ → List ℕ → List (ℕ × ℕ) → Type 0
Marked marks ids d = (x : ℕ) → elem x marks ≡ true → (elem x ids ≡ true) × (0 < get_or_zero x d)

Marked-add :
    (marks ids ids' : List ℕ) (d : List (ℕ × ℕ)) (id n : ℕ)
    → 0 < n
    → ((x : ℕ) → elem x ids' ≡ (elem x ids || id == x))
    → Marked marks ids d
    → Marked (add id marks) ids' (insert id n d)
Marked-add marks ids ids' d id n pos e m x h =
    ground (arith, e x, m x, elem-add x id marks, get_or_zero-insert id x n d)

Marked-ids :
    (marks ids ids' : List ℕ) (d : List (ℕ × ℕ))
    → ((x : ℕ) → elem x ids ≡ true → elem x ids' ≡ true)
    → Marked marks ids d
    → Marked marks ids' d
Marked-ids marks ids ids' d e m x h = ground (arith, m x h, e x)

-- The update clears all marks.
Marked-discard_scheduled :
    (ids marks : List ℕ) (d : List (ℕ × ℕ))
    → Marked marks ids d
    → discard_scheduled d ids marks ≡ []
unfolding discard_scheduled
Marked-discard_scheduled [] marks d m = elem-nil marks (λ x. ground (arith, m x))
Marked-discard_scheduled (id ∷ ids) marks d m =
    Marked-discard_scheduled ids (if get_or_zero id d == 0 then marks else discard id marks) d
      (λ x h. ground (arith, m x, elem-discard x id marks, get_or_zero_eq id x d))

module _ (v : Vllm) (c : Config) where
  elem_snoc : (x id : ℕ) (xs : List ℕ) → elem x (xs ++ id ∷ []) ≡ (elem x xs || id == x)
  elem_snoc x id xs = ground (arith, elem-append x xs (id ∷ []))

  Marked-prefill :
      PrefillRule v c (λ q p. Marked p.scheduled_req_ids p.running p.num_scheduled_tokens)
  unfolding skipped ignored admitted
  Marked-prefill = record {
    skip = λ id q p h. h;
    ignore = λ id q p h. h;
    admit = λ id q p n is_new new r lora pos fits room h.
        Marked-add p.scheduled_req_ids p.running (p.running ++ id ∷ []) p.num_scheduled_tokens id n
          pos (λ x. elem_snoc x id p.running) h;
  }

  -- In the decode loop the marked requests stand before the index.
  abbrev MarkedBelow : ℕ → List ℕ → Plan (New v c) → Type 0
  MarkedBelow i w p =
      (i ≤ length p.running) × Marked p.scheduled_req_ids (take i p.running) p.num_scheduled_tokens

  Marked-decode : DecodeRule v c MarkedBelow
  unfolding preempted resumed
  Marked-decode = record {
    pass = λ i id w p at_i h. (
      omega (arith, get_elem?-lt p.running i at_i),
      Marked-ids p.scheduled_req_ids (take i p.running) _ p.num_scheduled_tokens
          (λ x e. rw add-one (ground (arith, elem-take-suc x i id p.running at_i))) h.1,
    );
    preempt = λ i id victim w rest p at_i e h.
        let whole = pop-append p.running rest victim e in
        let room : i ≤ length rest = omega (
          arith,
          get_elem?-lt p.running i at_i,
          ap length whole,
          length-append rest (victim ∷ []),
        ) in
        (
          room,
          Marked-ids p.scheduled_req_ids (take i p.running) (take i rest) p.num_scheduled_tokens
              (λ x m. rw (whole, take-append i rest (victim ∷ []) room) at m) h.1,
        );
    schedule = λ i id w p n new kept r at_i fresh lora pos fits h. (
      omega (arith, get_elem?-lt p.running i at_i),
      Marked-add p.scheduled_req_ids (take i p.running) _ p.num_scheduled_tokens id n pos
          (λ x. rw add-one (elem-take-suc x i id p.running at_i)) h.1,
    );
  }

  schedule_loops-Marked :
      (s : AscendScheduler v.Ext)
      → s.scheduled_req_ids ≡ []
      → Ensures
          (λ (w, f). Marked f.plan.scheduled_req_ids f.plan.running f.plan.num_scheduled_tokens)
          (schedule_loops v c s)
  unfolding start
  schedule_loops-Marked s clear =
      schedule_loops_inv v c (λ q p. Marked p.scheduled_req_ids p.running p.num_scheduled_tokens)
        MarkedBelow (λ w p. Marked p.scheduled_req_ids p.running p.num_scheduled_tokens)
        (record {
          prefills = Marked-prefill;
          decodes = Marked-decode;
          enter = λ q p e h.
              (omega arith, λ x m. absurd (omega (arith, e, elem-length x p.scheduled_req_ids m)));
          after_prefill = λ q p e h. h;
          after_decode = λ i w p h.
              Marked-ids p.scheduled_req_ids (take i p.running) p.running p.num_scheduled_tokens
                (λ x m. elem-take x i p.running m) h.1;
        })
        s (λ x m. cc)

  make_output-tokens :
      (f : Frame v.Ext (New v c))
      → Ensures
          (λ (out, e). out.num_scheduled_tokens ≡ f.plan.num_scheduled_tokens)
          (make_output v c f)
  unfolding make_output
  make_output-tokens f =
      Ensures-bind (λ _. Unit {0}) _ (new_reqs_data v c f f.plan.scheduled_new_reqs) _
        (Ensures-any (new_reqs_data v c f f.plan.scheduled_new_reqs)) (λ new_data _. ground arith)

  -- Without chunked prefill, and with no request marked as scheduled before the step: the update
  -- behind the step clears every mark that the step made, so the next step may decode again.
  pub discard_scheduled-schedule :
      (s : AscendScheduler v.Ext)
      → c.chunked_prefill_enabled ≡ false
      → s.scheduled_req_ids ≡ []
      → Ensures
          (λ (out, s').
            discard_scheduled out.num_scheduled_tokens s'.running s'.scheduled_req_ids ≡ [])
          (schedule v c s)
  unfolding schedule_step
  discard_scheduled-schedule s whole clear = rw (schedule_unchunked v c s whole) (
      Ensures-bind _ _ (schedule_loops v c s) _ (schedule_loops-Marked s clear) (λ (w, f) m.
        Ensures-bind (λ _. Unit {0}) _ (check_constraints v c f.plan) _
          (Ensures-any (check_constraints v c f.plan))
          (λ _ _. Ensures-bind _ _ (make_output v c f) _ (make_output-tokens f) (λ (out, e) same.
            rw same (
              Marked-discard_scheduled f.plan.running f.plan.scheduled_req_ids
                f.plan.num_scheduled_tokens m)))))
