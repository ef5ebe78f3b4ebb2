-- ===== src/Scheduler/Finish.antt =====
-- vllm_ascend/core/scheduler.py: finish_requests, and what a mark that it leaves behind does.
use vllm_ascend_origin.Prelude.{
  ℕ, ◌≡◌, refl, ap, ◌∙◌, true, false, List, [], ◌∷◌, arith, if◌then◌else◌, elem, elem-add,
  elem-length, discard, elem-discard,
}
use vllm_ascend_origin.Scheduler.State.{
  RequestStatus, Ensures, Config, Vllm, Plan, AscendScheduler, one, many,
}
use vllm_ascend_origin.Scheduler.Prefill.{skipped, ignored, admitted, New}
use vllm_ascend_origin.Scheduler.Prefill.Loop.{PrefillRule}
use vllm_ascend_origin.Scheduler.Schedule.Loops.{schedule_loops_inv}
use vllm_ascend_origin.Scheduler.Schedule.{start, schedule_loops, discard_running, finish_requests}

-- A running request that is finished loses its mark, and every other mark stays.
discard_running-elem :
    {Ext : Type 0} (s : AscendScheduler Ext) (x : ℕ) (ids marks : List ℕ)
    → s.has_request x ≡ true
    → (s.requests x).status ≡ RequestStatus.running
    → elem x (discard_running s ids marks) ≡ (if elem x ids then false else elem x marks)
unfolding discard_running
discard_running-elem s x [] marks known runs = refl
discard_running-elem s x (id ∷ ids) marks known runs = ground (
  arith,
  elem-discard x id marks,
  discard_running-elem s x ids marks known runs,
  discard_running-elem s x ids (discard id marks) known runs,
)

-- With an iterable of ids, finish_requests takes the mark of a running request among them before
-- the base class goes on.
pub finish_requests-many :
    (v : Vllm) (c : Config) (s : AscendScheduler v.Ext) (x : ℕ) (ids : List ℕ)
    (status : RequestStatus)
    → s.has_request x ≡ true
    → (s.requests x).status ≡ RequestStatus.running
    → elem x ids ≡ true
    → ((t : AscendScheduler v.Ext)
        → (v.super_finish_requests (many ids) status t).scheduled_req_ids ≡ t.scheduled_req_ids)
    → elem x (finish_requests v c (many ids) status s).scheduled_req_ids ≡ false
unfolding finish_requests
finish_requests-many v c s x ids status known runs listed base =
    let marks = discard_running s ids s.scheduled_req_ids in
    ground (
      arith,
      ap (elem x) (base (record s { scheduled_req_ids = marks })),
      discard_running-elem s x ids s.scheduled_req_ids known runs,
    )

discard_running_other :
    {Ext : Type 0} (s : AscendScheduler Ext) (x : ℕ) (ids marks : List ℕ)
    → elem x ids ≡ false
    → elem x (discard_running s ids marks) ≡ elem x marks
unfolding discard_running
discard_running_other s x [] marks out = refl
discard_running_other s x (id ∷ ids) marks out = ground (
  arith,
  elem-discard x id marks,
  discard_running_other s x ids marks,
  discard_running_other s x ids (discard id marks),
)

module _ (v : Vllm) (c : Config) where
  -- Given a single id as a text, the code walks over its characters: unless the id is one of its own
  -- characters, the mark of the request stays, although the request is finished.
  pub finish_requests-one :
      (s : AscendScheduler v.Ext) (x : ℕ) (status : RequestStatus)
      → elem x (v.characters x) ≡ false
      → ((t : AscendScheduler v.Ext)
          → (v.super_finish_requests (one x) status t).scheduled_req_ids ≡ t.scheduled_req_ids)
      → elem x (finish_requests v c (one x) status s).scheduled_req_ids ≡ elem x s.scheduled_req_ids
  unfolding finish_requests
  finish_requests-one s x status out base =
      let marks = discard_running s (v.characters x) s.scheduled_req_ids in
      ap (elem x) (base (record s { scheduled_req_ids = marks }))
      ∙ discard_running_other s x (v.characters x) s.scheduled_req_ids out

  record Blocked (x : ℕ) (p : Plan (New v c)) : Type 0 where
    marked : elem x p.scheduled_req_ids ≡ true
    none_running : p.scheduled_running_reqs ≡ []

  Blocked-prefill : (x : ℕ) → PrefillRule v c (λ q p. Blocked x p)
  unfolding skipped ignored admitted
  Blocked-prefill x = record {
    skip = λ id q p h. record { marked = h.marked; none_running = h.none_running };
    ignore = λ id q p h. record { marked = h.marked; none_running = h.none_running };
    admit = λ id q p n is_new new r lora pos fits room h. record {
      marked = ground (arith, elem-add x id p.scheduled_req_ids, h.marked);
      none_running = h.none_running;
    };
  }

  -- A mark that is there before a step is there behind its loops, and keeps the step from scheduling
  -- any running request.
  pub schedule_loops-Blocked :
      (s : AscendScheduler v.Ext) (x : ℕ)
      → elem x s.scheduled_req_ids ≡ true
      → Ensures
          (λ (w, f).
            (elem x f.plan.scheduled_req_ids ≡ true) × (f.plan.scheduled_running_reqs ≡ []))
          (schedule_loops v c s)
  unfolding start
  schedule_loops-Blocked s x marked =
      schedule_loops_inv v c (λ q p. Blocked x p) (λ i w p. ⊥)
        (λ w p. (elem x p.scheduled_req_ids ≡ true) × (p.scheduled_running_reqs ≡ []))
        (record {
          prefills = Blocked-prefill x;
          decodes = record {
            pass = λ i id w p at_i h. h;
            preempt = λ i id victim w rest p at_i e h. h;
            schedule = λ i id w p n new kept r at_i fresh lora pos fits h. h;
          };
          enter = λ q p e h. omega (arith, e, elem-length x p.scheduled_req_ids h.marked);
          after_prefill = λ q p e h. (h.marked, h.none_running);
          after_decode = λ i w p h. absurd h;
        })
        s (record { marked = marked; none_running = refl })
