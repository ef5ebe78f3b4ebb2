-- ===== src/Scheduler/Fcfs.antt =====
-- vllm_ascend/core/scheduler.py: the order of the waiting queue and of the running requests.
use mathlib.Core.Path.{subst}
use mathlib.Core.List.{append_assoc, append-nil}
use vllm_ascend_origin.Prelude.{
  ℕ, ◌≡◌, refl, ◌⊎◌, inl, inr, arith, length, length-add-pos, sym, ap, ◌∙◌, List, [], ◌∷◌, ◌++◌,
  extendleft, pop-append,
}
use vllm_ascend_origin.Scheduler.State.{Ensures, Config, Vllm, Plan, AscendScheduler}
use vllm_ascend_origin.Scheduler.Prefill.{skipped, ignored, admitted, New}
use vllm_ascend_origin.Scheduler.Prefill.Loop.{PrefillRule}
use vllm_ascend_origin.Scheduler.Decode.{preempted, resumed}
use vllm_ascend_origin.Scheduler.Decode.Loop.{DecodeRule}
use vllm_ascend_origin.Scheduler.Schedule.Loops.{schedule_loops_inv}
use vllm_ascend_origin.Scheduler.Schedule.{start, schedule_loops}

-- The queue `ws` dealt out in order: to those admitted, to those that stay, and to those that leave.
pub data Dealt : List ℕ → List ℕ → List ℕ → List ℕ → Type 0 where
  done : Dealt [] [] [] []
  admit : {ys ss gs ws : List ℕ} (x : ℕ) → Dealt ys ss gs ws → Dealt (x ∷ ys) ss gs (x ∷ ws)
  stay : {ys ss gs ws : List ℕ} (x : ℕ) → Dealt ys ss gs ws → Dealt ys (x ∷ ss) gs (x ∷ ws)
  leave : {ys ss gs ws : List ℕ} (x : ℕ) → Dealt ys ss gs ws → Dealt ys ss (x ∷ gs) (x ∷ ws)

stay_all : (ws : List ℕ) → Dealt [] ws [] ws
stay_all [] = done
stay_all (w ∷ ws) = stay w (stay_all ws)

module _ (v : Vllm) (c : Config) (s : AscendScheduler v.Ext) where
  -- The admitted requests, and how the queue is dealt out once the rest of it is.
  record Queued (q : List ℕ) (p : Plan (New v c)) : Type 0 where
    admits : List ℕ
    gone : List ℕ
    ran : p.running ≡ s.running ++ admits
    fresh : length p.scheduled_req_ids ≡ 0 → admits ≡ []
    dealt :
        (ys ss gs : List ℕ)
        → Dealt ys ss gs q
        → Dealt (admits ++ ys) (extendleft p.skipped_waiting_requests ss) (gone ++ gs) s.waiting

  Queued-rule : PrefillRule v c Queued
  unfolding skipped ignored admitted
  Queued-rule = record {
    skip = λ id q p h. record {
      admits = h.admits;
      gone = h.gone;
      ran = h.ran;
      fresh = h.fresh;
      dealt = λ ys ss gs d. h.dealt ys (id ∷ ss) gs (stay id d);
    };
    ignore = λ id q p h. record {
      admits = h.admits;
      gone = h.gone ++ id ∷ [];
      ran = h.ran;
      fresh = h.fresh;
      dealt = λ ys ss gs d. rw append_assoc (h.dealt ys ss (id ∷ gs) (leave id d));
    };
    admit = λ id q p n is_new new r lora pos fits room h. record {
      admits = h.admits ++ id ∷ [];
      gone = h.gone;
      ran = ap (λ l. l ++ id ∷ []) h.ran ∙ append_assoc s.running h.admits (id ∷ []);
      fresh = λ e. absurd (omega (arith, e, length-add-pos id p.scheduled_req_ids));
      dealt = λ ys ss gs d. rw append_assoc (h.dealt (id ∷ ys) ss gs (admit id d));
    };
  }

  -- The running requests and the queue behind them are what the step started with: first the
  -- requests that ran, then those that were admitted, then the others in the queue's old order. If
  -- any is admitted, nobody is preempted, and the queue is exactly those that stay.
  pub record InOrder (w : List ℕ) (p : Plan (New v c)) : Type 0 where
    pub admits : List ℕ
    pub stays : List ℕ
    pub gone : List ℕ
    pub dealt : Dealt admits stays gone s.waiting
    pub whole : p.running ++ w ≡ s.running ++ (admits ++ stays)
    pub exact : ((p.running ≡ s.running ++ admits) × (w ≡ stays)) ⊎ (admits ≡ [])

  -- The same, behind a prefill loop that admits none.
  record NoneAdmitted (w : List ℕ) (p : Plan (New v c)) : Type 0 where
    stays : List ℕ
    gone : List ℕ
    dealt : Dealt [] stays gone s.waiting
    whole : p.running ++ w ≡ s.running ++ stays

  NoneAdmitted-decode : DecodeRule v c (λ i w p. NoneAdmitted w p)
  unfolding preempted resumed
  NoneAdmitted-decode = record {
    pass = λ i id w p at_i h. h;
    preempt = λ i id victim w rest p at_i e h. record {
      stays = h.stays;
      gone = h.gone;
      dealt = h.dealt;
      whole =
          sym (append_assoc rest (victim ∷ []) w)
          ∙ ap (λ l. l ++ w) (sym (pop-append p.running rest victim e))
          ∙ h.whole;
    };
    schedule = λ i id w p n new kept r at_i fresh lora pos fits h. record {
      stays = h.stays;
      gone = h.gone;
      dealt = h.dealt;
      whole = h.whole;
    };
  }

  queue_dealt :
      (q : List ℕ) (p : Plan (New v c)) (h : Queued q p)
      → Dealt h.admits (extendleft p.skipped_waiting_requests q) h.gone s.waiting
  queue_dealt q p h = rw (append-nil h.admits, append-nil h.gone) at (h.dealt [] q [] (stay_all q))

  -- First come, first served: a step leaves the running requests in place and the requests that
  -- still wait in their old order, and appends those it admits to the running ones in the queue's
  -- order. Only if it admits none, it puts preempted requests back at the head of the queue in the
  -- order in which they ran.
  pub schedule_loops-InOrder : Ensures (λ (w, f). InOrder w f.plan) (schedule_loops v c s)
  unfolding start
  schedule_loops-InOrder =
      schedule_loops_inv v c Queued (λ i w p. NoneAdmitted w p) InOrder
        (record {
          prefills = Queued-rule;
          decodes = NoneAdmitted-decode;
          enter = λ q p e h. record {
            stays = extendleft p.skipped_waiting_requests q;
            gone = h.gone;
            dealt =
                subst (λ ys. Dealt ys (extendleft p.skipped_waiting_requests q) h.gone s.waiting)
                  (h.fresh e) (queue_dealt q p h);
            whole =
                ap (λ l. l ++ extendleft p.skipped_waiting_requests q)
                  (h.ran ∙ ap (λ ys. s.running ++ ys) (h.fresh e) ∙ append-nil s.running);
          };
          after_prefill = λ q p e h. record {
            admits = h.admits;
            stays = extendleft p.skipped_waiting_requests q;
            gone = h.gone;
            dealt = queue_dealt q p h;
            whole = rw h.ran (append_assoc s.running h.admits _);
            exact = inl (h.ran, refl);
          };
          after_decode = λ i w p h. record {
            admits = [];
            stays = h.stays;
            gone = h.gone;
            dealt = h.dealt;
            whole = h.whole;
            exact = inr refl;
          };
        })
        s
        (record {
          admits = [];
          gone = [];
          ran = sym (append-nil s.running);
          fresh = λ e. refl;
          dealt = λ ys ss gs d. d;
        })
