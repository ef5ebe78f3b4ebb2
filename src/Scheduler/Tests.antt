-- ===== src/Scheduler/Tests.antt =====
-- Runs of the scheduler on a small instance of vllm, and the theorems at it.
use native.Mathlib.Nat.{div-mul-le_self, le-div_iff_mul-le}
use vllm_ascend_origin.Prelude.{
  ℕ, zero, suc, ◌+◌, ◌-◌, ◌/◌, ◌≡◌, refl, true, false, none, some, List, [], ◌∷◌, arith, leb,
  if◌then◌else◌, ◌≤◌, elem, lookup, insert, erase, add, discard, pop, get_or_zero,
}
use vllm_ascend_origin.Prelude.Int.{ℤ, pos, negsuc, ◌-ℤ◌, ◌≤ℤ◌}
use vllm_ascend_origin.Scheduler.State.{
  RequestStatus, Request, Result, ok, ◌>>=◌, Ensures, Config, Vllm, AscendScheduler, one, many,
}
use vllm_ascend_origin.Scheduler.Limits.{
  count_evictable, blocks_left, check_watermark_for_prefill, get_prompt_limit,
}
use vllm_ascend_origin.Scheduler.Prefill.{
  resume, exceeds_max_loras, add_lora, decide_tokens, skipped, ignored, admitted, await_remote_kv,
  count_computed, skip_cur_request, ignore_request, admit, allocate, place, prefill_round,
  prefill_loop,
}
use vllm_ascend_origin.Scheduler.Decode.{
  decode_tokens, kept_spec_tokens, preempted, resumed, preempt, allocate_or_preempt,
  schedule_running, after_allocation, decode_round, decode_loop,
}
use vllm_ascend_origin.Scheduler.Schedule.{
  advance, discard_running, discard_scheduled, start, check_constraints, new_reqs_data, make_output,
  schedule_loops, schedule_step, schedule, finish_requests,
}
use vllm_ascend_origin.Scheduler.Budget.{
  Within, schedule_loops-Within, check_constraints-schedule_loops,
}
use vllm_ascend_origin.Scheduler.Fcfs.{InOrder, schedule_loops-InOrder}
use vllm_ascend_origin.Scheduler.Conservation.{Kept, schedule_loops-Kept}
use vllm_ascend_origin.Scheduler.Progress.{discard_scheduled-schedule}
use vllm_ascend_origin.Scheduler.Faults.{Fails, schedule_loops-Fails}
use vllm_ascend_origin.Scheduler.Finish.{
  finish_requests-many, finish_requests-one, schedule_loops-Blocked,
}

-- A cache that is a count of free blocks: a request takes one block for each token.
abbrev vllm : Vllm
vllm = record {
  Ext = ℕ;
  Blocks = ℕ;
  Block = ℕ;
  Ids = ℕ;
  Float = ℕ;
  NewData = ℕ × ℕ;
  CachedData = List ℕ;
  Freed = ℕ;
  Meta = ℕ;
  RunnerOutput = ℕ;
  EngineOutput = ℕ;
  update_waiting_for_remote_kv = λ e id r. (true, r, e);
  get_computed_blocks = λ e id r. (0, 0, e);
  create_empty_block_list = 0;
  append_blocks = λ a b. a + b;
  first_group = λ b. [];
  get_block_ids = λ b. b;
  request_block_ids = λ e id. id;
  ref_cnt = λ e b. 0;
  allocate_slots = λ e id r slots.
      if leb slots.num_new_tokens e
      then (some slots.num_new_tokens, e - slots.num_new_tokens)
      else (none, e);
  free = λ e id r. e + r.num_computed_tokens;
  num_req_blocks = λ e id. 0;
  get_num_free_blocks = λ e. e;
  get_num_common_prefix_blocks = λ e id n. 0;
  has_connector = false;
  get_num_new_matched_tokens = λ e id r n. (0, false, e);
  update_state_after_alloc = λ e id r b n. e;
  cdiv = λ a b. (a + b - 1) / b;
  watermark = 0;
  float_times = λ n w. 0;
  int_lt_float = λ z w. elim z [ pos n ↦ false | negsuc n ↦ true ];
  from_request = λ id r b. (id, b);
  make_cached_request_data = λ e rs running resumed tokens spec new. running;
  get_freed = λ e. (0, e);
  build_connector_meta = λ e out. (0, e);
  publish_events = λ e. e;
  super_schedule = λ s. (
    record {
      scheduled_new_reqs = [];
      scheduled_cached_reqs = [];
      num_scheduled_tokens = [];
      total_num_scheduled_tokens = 0;
      scheduled_spec_decode_tokens = [];
      num_common_prefix_blocks = 0;
      finished_req_ids = [];
      freed = 0;
      kv_connector_metadata = none;
    },
    s,
  );
  super_finish_requests = λ ids status s. s;
  super_update_from_output = λ out runner s. (0, s);
  characters = λ id. [];
}

abbrev config : Config
config = record {
  max_num_scheduled_tokens = 10;
  max_num_running_reqs = 3;
  max_model_len = 16;
  num_lookahead_tokens = 0;
  block_size = 1;
  num_blocks = 20;
  max_loras = none;
  chunked_prefill_enabled = false;
  is_multi_step = false;
  config_max_model_len = 16;
  max_num_batched_tokens = 16;
  is_0_10_1_1 = true;
}

abbrev request : RequestStatus → ℕ → ℕ → Request
request status computed tokens = record {
  status = status;
  num_computed_tokens = computed;
  num_tokens = tokens;
  num_tokens_with_spec = tokens;
  spec_token_ids = [];
  lora_request = none;
  num_cached_tokens = negsuc 0;
}

-- Requests 1 (4 tokens), 2 (12 tokens, over the budget) and 3 (5 tokens) wait.
abbrev waiting_requests : ℕ → Request
waiting_requests (suc (suc (suc _))) = request RequestStatus.waiting 0 5
waiting_requests (suc (suc zero)) = request RequestStatus.waiting 0 12
waiting_requests _ = request RequestStatus.waiting 0 4

abbrev prefill_state : AscendScheduler ℕ
prefill_state = record {
  requests = waiting_requests;
  has_request = λ id. true;
  waiting = 1 ∷ 2 ∷ 3 ∷ [];
  running = [];
  scheduled_req_ids = [];
  finished_req_ids = [];
  ext = 20;
}

-- Requests 1 and 2 run, and there is room for one token only.
abbrev decode_state : AscendScheduler ℕ
decode_state = record {
  requests = λ id. request RequestStatus.running 4 5;
  has_request = λ id. true;
  waiting = 3 ∷ [];
  running = 1 ∷ 2 ∷ [];
  scheduled_req_ids = [];
  finished_req_ids = [];
  ext = 1;
}

abbrev Summary : Type 0
Summary = List (ℕ × ℕ) × List ℕ × List ℕ × List ℕ

-- The scheduled tokens, the queue, the running requests and the marks behind a step.
abbrev summary : AscendScheduler ℕ → Result Summary
summary s = do
  (out, t) ← schedule vllm config s
  ok (out.num_scheduled_tokens, t.waiting, t.running, t.scheduled_req_ids)

program : Unit {0}
unfolding lookup insert erase add discard pop get_or_zero ◌-ℤ◌ count_evictable blocks_left
    check_watermark_for_prefill get_prompt_limit resume exceeds_max_loras add_lora decide_tokens
    skipped ignored admitted await_remote_kv count_computed skip_cur_request ignore_request admit
    allocate place prefill_round prefill_loop decode_tokens kept_spec_tokens preempted resumed
    preempt allocate_or_preempt schedule_running after_allocation decode_round decode_loop advance
    discard_running discard_scheduled start check_constraints new_reqs_data make_output
    schedule_loops schedule_step schedule finish_requests
program = tt

-- Request 2 is skipped, and is still the first in the queue.
prefill_runs : summary prefill_state ≡ ok ((1, 4) ∷ (3, 5) ∷ [], 2 ∷ [], 1 ∷ 3 ∷ [], 1 ∷ 3 ∷ [])
unfolding program
prefill_runs = refl

-- Request 3 does not fit into the cache. Request 1 takes the last block, request 2 preempts itself.
decode_runs : summary decode_state ≡ ok ((1, 1) ∷ [], 2 ∷ 3 ∷ [], 1 ∷ [], 1 ∷ [])
unfolding program
decode_runs = refl

schedule_loops-Within_example :
    Ensures (λ (w, f). Within vllm config f.plan) (schedule_loops vllm config decode_state)
schedule_loops-Within_example = schedule_loops-Within vllm config decode_state (omega arith)

check_constraints-schedule_loops_example :
    Ensures
      (λ (w, f). check_constraints vllm config f.plan ≡ ok tt)
      (schedule_loops vllm config prefill_state)
check_constraints-schedule_loops_example =
    check_constraints-schedule_loops vllm config prefill_state (omega arith)

schedule_loops-InOrder_example :
    Ensures
      (λ (w, f). InOrder vllm config prefill_state w f.plan)
      (schedule_loops vllm config prefill_state)
schedule_loops-InOrder_example = schedule_loops-InOrder vllm config prefill_state

schedule_loops-Kept_example :
    Ensures
      (λ (w, f). Kept vllm config decode_state 2 w f.plan)
      (schedule_loops vllm config decode_state)
schedule_loops-Kept_example = schedule_loops-Kept vllm config decode_state 2

discard_scheduled-schedule_example :
    Ensures
      (λ (out, s). discard_scheduled out.num_scheduled_tokens s.running s.scheduled_req_ids ≡ [])
      (schedule vllm config decode_state)
discard_scheduled-schedule_example = discard_scheduled-schedule vllm config decode_state refl refl

schedule_loops-Fails_example : Fails (schedule_loops vllm config decode_state)
schedule_loops-Fails_example = schedule_loops-Fails vllm config decode_state

finish_requests-many_example :
    elem 1
      (finish_requests vllm config
        (many (1 ∷ []))
        RequestStatus.finished_length_capped
        (record decode_state { scheduled_req_ids = 1 ∷ 2 ∷ [] })).scheduled_req_ids
    ≡ false
finish_requests-many_example =
    finish_requests-many vllm config (record decode_state { scheduled_req_ids = 1 ∷ 2 ∷ [] }) 1
      (1 ∷ []) RequestStatus.finished_length_capped refl refl refl (λ t. refl)

finish_requests-one_example :
    elem 1
      (finish_requests vllm config
        (one 1)
        RequestStatus.finished_length_capped
        (record decode_state { scheduled_req_ids = 1 ∷ 2 ∷ [] })).scheduled_req_ids
    ≡ true
finish_requests-one_example =
    finish_requests-one vllm config (record decode_state { scheduled_req_ids = 1 ∷ 2 ∷ [] }) 1
      RequestStatus.finished_length_capped refl (λ t. refl)

schedule_loops-Blocked_example :
    Ensures
      (λ (w, f). (elem 7 f.plan.scheduled_req_ids ≡ true) × (f.plan.scheduled_running_reqs ≡ []))
      (schedule_loops vllm config (record decode_state { scheduled_req_ids = 7 ∷ [] }))
schedule_loops-Blocked_example =
    schedule_loops-Blocked vllm config (record decode_state { scheduled_req_ids = 7 ∷ [] }) 7 refl

cdiv_mono : (a b k : ℕ) → a ≤ b → vllm.cdiv a k ≤ vllm.cdiv b k
cdiv_mono a b zero h = grind arith
cdiv_mono a b (suc k) h =
    let fits = div-mul-le_self (a + suc k - 1) (suc k) in
    (le-div_iff_mul-le (omega arith)).1 (omega (arith, fits))

int_lt_float-down :
    (x y : ℤ) (z : ℕ) → x ≤ℤ y → vllm.int_lt_float y z ≡ true → vllm.int_lt_float x z ≡ true
int_lt_float-down (pos a) (pos b) z h e = e
int_lt_float-down (pos a) (negsuc b) z h e = absurd (omega arith)
int_lt_float-down (negsuc a) y z h e = refl
