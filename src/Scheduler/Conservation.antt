-- ===== src/Scheduler/Conservation.antt =====
-- vllm_ascend/core/scheduler.py: no request is lost or doubled by a step.
use vllm_ascend_origin.Prelude.{
  ℕ, ◌+◌, ◌≡◌, ap, false, List, [], ◌∷◌, arith, count, count-append, count-extendleft, elem,
  elem-add, extendleft, pop-append,
}
use vllm_ascend_origin.Scheduler.State.{Ensures, Config, Vllm, Plan, AscendScheduler}
use vllm_ascend_origin.Scheduler.Prefill.{skipped, ignored, admitted, New}
use vllm_ascend_origin.Scheduler.Prefill.Loop.{PrefillRule}
use vllm_ascend_origin.Scheduler.Decode.{preempted, resumed}
use vllm_ascend_origin.Scheduler.Decode.Loop.{DecodeRule}
use vllm_ascend_origin.Scheduler.Schedule.Loops.{schedule_loops_inv}
use vllm_ascend_origin.Scheduler.Schedule.{start, schedule_loops}

module _ (v : Vllm) (c : Config) (s : AscendScheduler v.Ext) (x : ℕ) where
  abbrev before : ℕ
  before = count x s.waiting + count x s.running

  record Prefilling (q : List ℕ) (p : Plan (New v c)) : Type 0 where
    kept :
        elem x p.finished_req_ids ≡ false
        → count x q + count x p.skipped_waiting_requests + count x p.running ≡ before

  pub record Kept (w : List ℕ) (p : Plan (New v c)) : Type 0 where
    pub kept : elem x p.finished_req_ids ≡ false → count x w + count x p.running ≡ before

  Prefilling-rule : PrefillRule v c Prefilling
  unfolding skipped ignored admitted
  Prefilling-rule = record {
    skip = λ id q p h. ground arith;
    ignore = λ id q p h. ground (arith, elem-add x id p.finished_req_ids);
    admit = λ id q p n is_new new r lora pos fits room h.
        ground (arith, count-append x p.running (id ∷ []));
  }

  Kept-decode : DecodeRule v c (λ i w p. Kept w p)
  unfolding preempted resumed
  Kept-decode = record {
    pass = λ i id w p at_i h. h;
    preempt = λ i id victim w rest p at_i e h. ground (
      arith,
      ap (count x) (pop-append p.running rest victim e),
      count-append x rest (victim ∷ []),
    );
    schedule = λ i id w p n new kept r at_i fresh lora pos fits h. record { kept = h.kept };
  }

  Prefilling-Kept :
      (q : List ℕ) (p : Plan (New v c))
      → Prefilling q p
      → Kept (extendleft p.skipped_waiting_requests q) p
  Prefilling-Kept q p h = ground (arith, count-extendleft x p.skipped_waiting_requests q)

  -- A request that is not finished by the step stands in the waiting queue and among the running
  -- requests as often as before, all in all: it is neither lost nor doubled.
  pub schedule_loops-Kept : Ensures (λ (w, f). Kept w f.plan) (schedule_loops v c s)
  unfolding start
  schedule_loops-Kept =
      schedule_loops_inv v c Prefilling (λ i w p. Kept w p) Kept
        (record {
          prefills = Prefilling-rule;
          decodes = Kept-decode;
          enter = λ q p e h. Prefilling-Kept q p h;
          after_prefill = λ q p e h. Prefilling-Kept q p h;
          after_decode = λ i w p h. h;
        })
        s (record { kept = λ e. omega arith })
