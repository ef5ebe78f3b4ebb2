-- ===== src/Scheduler/Budget.antt =====
-- vllm_ascend/core/scheduler.py: the bounds that `schedule` asserts behind its loops.
use vllm_ascend_origin.Prelude.{
  ℕ, ◌+◌, ◌≤◌, ◌≡◌, refl, ◌⊎◌, inl, inr, List, [], ◌∷◌, arith, length, length-append, ap,
  length-add-pos, get_elem?-lt, sum, values, sum-values-insert-le, pop-append,
}
use vllm_ascend_origin.Scheduler.State.{
  ok, Ensures, Ensures-map, Config, Vllm, Plan, AscendScheduler,
}
use vllm_ascend_origin.Scheduler.Prefill.{skipped, ignored, admitted, New}
use vllm_ascend_origin.Scheduler.Prefill.Loop.{PrefillRule}
use vllm_ascend_origin.Scheduler.Decode.{preempted, resumed}
use vllm_ascend_origin.Scheduler.Decode.Loop.{DecodeRule}
use vllm_ascend_origin.Scheduler.Schedule.Loops.{LoopsRule, schedule_loops_inv}
use vllm_ascend_origin.Scheduler.Schedule.{start, schedule_loops, check_constraints}

module _ (v : Vllm) (c : Config) where
  -- In the prefill loop: the budget, and what is counted.
  pub record Prefilled (q : List ℕ) (p : Plan (New v c)) : Type 0 where
    pub tokens : sum (values p.num_scheduled_tokens) + p.token_budget ≤ c.max_num_scheduled_tokens
    pub covered : p.overdraft ≡ 0
    pub running_limit : length p.running ≤ c.max_num_running_reqs
    pub no_decode : length p.scheduled_running_reqs ≡ 0
    pub none_new :
        length p.scheduled_req_ids ≡ 0
        → length p.scheduled_new_reqs + length p.scheduled_resumed_reqs ≡ 0
    pub counted : length p.scheduled_new_reqs + length p.scheduled_resumed_reqs ≤ length p.running

  Prefilled-rule : PrefillRule v c Prefilled
  unfolding skipped ignored admitted
  Prefilled-rule = record {
    skip = λ id q p h. ground arith;
    ignore = λ id q p h. ground arith;
    admit = λ id q p n is_new new r lora pos fits room h. ground (
      arith,
      sum-values-insert-le id n p.num_scheduled_tokens,
      length-append p.running (id ∷ []),
      length-append p.scheduled_new_reqs (id ∷ []),
      length-append p.scheduled_resumed_reqs (id ∷ []),
      length-add-pos id p.scheduled_req_ids,
    );
  }

  -- In the decode loop, which runs only when no request of the queue is scheduled.
  pub record Decoded (i : ℕ) (w : List ℕ) (p : Plan (New v c)) : Type 0 where
    pub tokens : sum (values p.num_scheduled_tokens) + p.token_budget ≤ c.max_num_scheduled_tokens
    pub covered : p.overdraft ≡ 0
    pub running_limit : length p.running ≤ c.max_num_running_reqs
    pub no_prefill : length p.scheduled_new_reqs + length p.scheduled_resumed_reqs ≡ 0
    pub counted : length p.scheduled_running_reqs ≤ i
    pub in_range : i ≤ length p.running

  Decoded-rule : DecodeRule v c Decoded
  unfolding preempted resumed
  Decoded-rule = record {
    pass = λ i id w p at_i h. ground (arith, get_elem?-lt p.running i at_i);
    preempt = λ i id victim w rest p at_i e h. ground (
      arith,
      get_elem?-lt p.running i at_i,
      ap length (pop-append p.running rest victim e),
      length-append rest (victim ∷ []),
    );
    schedule = λ i id w p n new kept r at_i fresh lora pos fits h. ground (
      arith,
      get_elem?-lt p.running i at_i,
      sum-values-insert-le id n p.num_scheduled_tokens,
      length-append p.scheduled_running_reqs (id ∷ []),
    );
  }

  -- What holds behind the loops.
  pub record Within (p : Plan (New v c)) : Type 0 where
    pub tokens : sum (values p.num_scheduled_tokens) + p.token_budget ≤ c.max_num_scheduled_tokens
    pub covered : p.overdraft ≡ 0
    pub running_limit : length p.running ≤ c.max_num_running_reqs
    pub counted :
        length p.scheduled_new_reqs
          + length p.scheduled_resumed_reqs
          + length p.scheduled_running_reqs
        ≤ length p.running
    pub exclusive :
        (length p.scheduled_new_reqs + length p.scheduled_resumed_reqs ≡ 0)
        ⊎ (length p.scheduled_running_reqs ≡ 0)

  Within-rule : LoopsRule v c Prefilled Decoded (λ w p. Within p)
  Within-rule = record {
    prefills = Prefilled-rule;
    decodes = Decoded-rule;
    enter = λ q p empty h. record {
      tokens = h.tokens;
      covered = h.covered;
      running_limit = h.running_limit;
      no_prefill = h.none_new empty;
      counted = omega (arith, h.no_decode);
      in_range = omega arith;
    };
    after_prefill = λ q p some_ids h. record {
      tokens = h.tokens;
      covered = h.covered;
      running_limit = h.running_limit;
      counted = omega (arith, h.counted, h.no_decode);
      exclusive = inr h.no_decode;
    };
    after_decode = λ i w p d. record {
      tokens = d.tokens;
      covered = d.covered;
      running_limit = d.running_limit;
      counted = omega (arith, d.counted, d.in_range, d.no_prefill);
      exclusive = inl d.no_prefill;
    };
  }

  -- Behind the loops of a step that started with at most max_num_running_reqs running requests: the
  -- scheduled tokens and the rest of the budget, which is not below 0, are together at most
  -- max_num_scheduled_tokens, the limit of running requests holds, no more requests are scheduled
  -- than run, and the step schedules requests from the waiting queue or running requests, never
  -- both.
  pub schedule_loops-Within :
      (s : AscendScheduler v.Ext)
      → length s.running ≤ c.max_num_running_reqs
      → Ensures (λ (w, f). Within f.plan) (schedule_loops v c s)
  unfolding start
  schedule_loops-Within s limit =
      schedule_loops_inv v c Prefilled Decoded (λ w p. Within p) Within-rule s
        (record {
          tokens = omega arith;
          covered = refl;
          running_limit = limit;
          no_decode = refl;
          none_new = λ e. refl;
          counted = omega arith;
        })

  -- When a step starts with at most max_num_running_reqs running requests and its loops return, the
  -- four assertions behind the loops pass; among them, the token budget is not below 0.
  pub check_constraints-schedule_loops :
      (s : AscendScheduler v.Ext)
      → length s.running ≤ c.max_num_running_reqs
      → Ensures (λ (w, f). check_constraints v c f.plan ≡ ok tt) (schedule_loops v c s)
  unfolding check_constraints
  check_constraints-schedule_loops s limit =
      Ensures-map (λ (w, f) h. ground (arith, h.tokens, h.covered, h.running_limit, h.counted))
        (schedule_loops v c s) (schedule_loops-Within s limit)
