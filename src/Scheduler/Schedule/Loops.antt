-- ===== src/Scheduler/Schedule/Loops.antt =====
-- vllm_ascend/core/scheduler.py: one rule for both loops of `schedule`.
use vllm_ascend_origin.Prelude.{
  ℕ, suc, ◌≡◌, ◌≢◌, false, inl, inr, List, arith, ◌==◌, Bool-cases, length, extendleft,
}
use vllm_ascend_origin.Scheduler.State.{
  Ensures, Ensures-map, Ensures-bind, Config, Vllm, Plan, AscendScheduler,
}
use vllm_ascend_origin.Scheduler.Prefill.{New, prefill_loop}
use vllm_ascend_origin.Scheduler.Prefill.Loop.{PrefillRule, prefill_loop_inv}
use vllm_ascend_origin.Scheduler.Decode.{decode_loop}
use vllm_ascend_origin.Scheduler.Decode.Loop.{DecodeRule, decode_loop_inv, Reached}
use vllm_ascend_origin.Scheduler.Schedule.{start, schedule_loops, schedule_step, schedule}

module _ (v : Vllm) (c : Config) where
  open v use {Ext}

  -- An invariant of each loop, how the second follows from the first, and what both give.
  pub record LoopsRule {ℓ} (P : List ℕ → Plan (New v c) → Type ℓ)
      (D : ℕ → List ℕ → Plan (New v c) → Type ℓ) (Q : List ℕ → Plan (New v c) → Type ℓ)
      : Type ℓ where
    pub prefills : PrefillRule v c P
    pub decodes : DecodeRule v c D
    pub enter :
        (q : List ℕ) (p : Plan (New v c))
        → length p.scheduled_req_ids ≡ 0
        → P q p
        → D 0 (extendleft p.skipped_waiting_requests q) p
    pub after_prefill :
        (q : List ℕ) (p : Plan (New v c))
        → length p.scheduled_req_ids ≢ 0
        → P q p
        → Q (extendleft p.skipped_waiting_requests q) p
    pub after_decode : (i : ℕ) (w : List ℕ) (p : Plan (New v c)) → D i w p → Q w p

  pub schedule_loops_inv {ℓ} :
      (P : List ℕ → Plan (New v c) → Type ℓ) (D : ℕ → List ℕ → Plan (New v c) → Type ℓ)
      (Q : List ℕ → Plan (New v c) → Type ℓ) (rule : LoopsRule P D Q) (s : AscendScheduler Ext)
      → P s.waiting (start v c s).plan
      → Ensures (λ (w, f). Q w f.plan) (schedule_loops v c s)
  unfolding schedule_loops
  schedule_loops_inv P D Q rule s h =
      Ensures-bind (λ (q, f). P q f.plan) (λ (w, f). Q w f.plan)
        (prefill_loop v c s.waiting (start v c s)) _
        (prefill_loop_inv v c P rule.prefills s.waiting (start v c s) h)
        (λ (q, f) p. elim (Bool-cases (length f.plan.scheduled_req_ids == 0)) [
          | inr some_scheduled ↦
              rw some_scheduled (rule.after_prefill q f.plan (λ e. ground arith) p)
          | inl none_scheduled ↦ rw none_scheduled (
              Ensures-map {P = Reached v c D} (λ (w, g) (i, d). rule.after_decode i w g.plan d)
                (decode_loop v c (suc (length f.plan.running)) 0
                  (extendleft f.plan.skipped_waiting_requests q) f)
                (decode_loop_inv v c D rule.decodes (suc (length f.plan.running)) 0
                  (extendleft f.plan.skipped_waiting_requests q) f
                  (rule.enter q f.plan (ground arith) p)))
        ])

  pub schedule_unchunked :
      (s : AscendScheduler Ext)
      → c.chunked_prefill_enabled ≡ false
      → schedule v c s ≡ schedule_step v c s
  unfolding schedule
  schedule_unchunked s whole = simp whole
