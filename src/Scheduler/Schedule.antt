-- ===== src/Scheduler/Schedule.antt =====
-- vllm_ascend/core/scheduler.py: `schedule`, `finish_requests` and `update_from_output`.
pub mod Loops
use vllm_ascend_origin.Prelude.{
  ℕ, suc, ◌+◌, Bool, true, false, ◌&&◌, Option, none, some, List, [], ◌∷◌, leb, ◌==◌, if◌then◌else◌,
  length, sum, elem, update, lookup, get_or_zero, values, discard, extendleft,
}
use vllm_ascend_origin.Scheduler.State.{
  RequestStatus, Request, Result, ok, err, guard, or_fail, ◌>>=◌, ◌>>◌, assertion_error, key_error,
  Config, NewBlocks, block_ids, blocks, Vllm, Plan, Frame, AscendScheduler, SchedulerOutput,
  RequestIds, one, many,
}
use vllm_ascend_origin.Scheduler.Prefill.{New, prefill_loop}
use vllm_ascend_origin.Scheduler.Decode.{decode_loop}

-- for req_id, n in num_scheduled_tokens.items(): self.requests[req_id].num_computed_tokens += n
unfoldable pub advance : List (ℕ × ℕ) → (ℕ → Request) → ℕ → Request
advance [] requests = requests
advance ((id, n) ∷ d) requests = advance d (
    update requests id
      (record (requests id) { num_computed_tokens = (requests id).num_computed_tokens + n }))

-- The loop of finish_requests over the known ids.
unfoldable pub discard_running : {Ext : Type 0} → AscendScheduler Ext → List ℕ → List ℕ → List ℕ
discard_running s [] ids = ids
discard_running s (id ∷ request_ids) ids = discard_running s request_ids (
    if s.has_request id
    then (elim (s.requests id).status [ RequestStatus.running ↦ discard id ids | _ ↦ ids ])
    else ids)

-- The loop of update_from_output over the running requests.
unfoldable pub discard_scheduled : List (ℕ × ℕ) → List ℕ → List ℕ → List ℕ
discard_scheduled num_scheduled_tokens [] ids = ids
discard_scheduled num_scheduled_tokens (id ∷ running) ids =
    discard_scheduled num_scheduled_tokens running
      (if get_or_zero id num_scheduled_tokens == 0 then ids else discard id ids)

module _ (v : Vllm) (c : Config) where
  open v use {Ext, Ids, Blocks, NewData, CachedData, Freed, Meta}

  abbrev pub Output : Type 0
  Output = SchedulerOutput NewData CachedData Freed Meta

  unfoldable pub start : AscendScheduler Ext → Frame Ext (New v c)
  start s = record {
    plan = record {
      running = s.running;
      scheduled_req_ids = s.scheduled_req_ids;
      finished_req_ids = s.finished_req_ids;
      scheduled_new_reqs = [];
      scheduled_resumed_reqs = [];
      scheduled_running_reqs = [];
      preempted_reqs = [];
      req_to_new_blocks = [];
      num_scheduled_tokens = [];
      token_budget = c.max_num_scheduled_tokens;
      overdraft = 0;
      scheduled_spec_decode_tokens = [];
      scheduled_loras = [];
      skipped_waiting_requests = [];
    };
    requests = s.requests;
    ext = s.ext;
  }

  -- `# Check if the scheduling constraints are satisfied.`
  unfoldable pub check_constraints : Plan (New v c) → Result (Unit {0})
  check_constraints p = do
    guard (leb (sum (values p.num_scheduled_tokens)) c.max_num_scheduled_tokens) assertion_error
    guard (p.overdraft == 0) assertion_error
    guard (leb (length p.running) c.max_num_running_reqs) assertion_error
    guard
        (leb
          (length p.scheduled_new_reqs
            + length p.scheduled_resumed_reqs
            + length p.scheduled_running_reqs)
          (length p.running))
        assertion_error

  -- The ids of the blocks that NewRequestData takes.
  abbrev new_block_ids : New v c → Ids
  new_block_ids (block_ids i) = i
  new_block_ids (blocks b) = v.get_block_ids b

  unfoldable pub new_reqs_data : Frame Ext (New v c) → List ℕ → Result (List NewData)
  new_reqs_data f [] = ok []
  new_reqs_data f (id ∷ ids) = do
    b ← or_fail (lookup id f.plan.req_to_new_blocks) key_error
    rest ← new_reqs_data f ids
    ok (v.from_request id (f.requests id) (new_block_ids b) ∷ rest)

  unfoldable pub make_output : Frame Ext (New v c) → Result (Output × Ext)
  make_output f =
      let p = f.plan in
      do
        new_data ← new_reqs_data f p.scheduled_new_reqs
        let (freed, e) = v.get_freed f.ext
        let output : Output = record {
          scheduled_new_reqs = new_data;
          scheduled_cached_reqs =
              v.make_cached_request_data f.ext f.requests p.scheduled_running_reqs
                p.scheduled_resumed_reqs p.num_scheduled_tokens p.scheduled_spec_decode_tokens
                p.req_to_new_blocks;
          num_scheduled_tokens = p.num_scheduled_tokens;
          total_num_scheduled_tokens = sum (values p.num_scheduled_tokens);
          scheduled_spec_decode_tokens = p.scheduled_spec_decode_tokens;
          num_common_prefix_blocks = elim p.running [
            | [] ↦ 0
            | any_request ∷ rest ↦
                v.get_num_common_prefix_blocks f.ext any_request (length (any_request ∷ rest))
          ];
          finished_req_ids = p.finished_req_ids;
          freed = freed;
          kv_connector_metadata = none;
        }
        if v.has_connector
            then (let (meta, e') = v.build_connector_meta e output in
                ok (record output { kv_connector_metadata = some meta }, v.publish_events e'))
            else ok (output, v.publish_events e)

  -- Both loops: prefill first, and decode only if no request is scheduled by then.
  unfoldable pub schedule_loops : AscendScheduler Ext → Result (List ℕ × Frame Ext (New v c))
  schedule_loops s = prefill_loop v c s.waiting (start s) >>= λ (queue, f).
      let waiting = extendleft f.plan.skipped_waiting_requests queue in
      if length f.plan.scheduled_req_ids == 0
      then decode_loop v c (suc (length f.plan.running)) 0 waiting f
      else ok (waiting, f)

  -- `schedule` without chunked prefill.
  unfoldable pub schedule_step : AscendScheduler Ext → Result (Output × AscendScheduler Ext)
  schedule_step s = schedule_loops s >>= λ (waiting, f).
      check_constraints f.plan
      >> (make_output f >>= λ (output, e). ok (
        output,
        record s {
          requests = advance f.plan.num_scheduled_tokens f.requests;
          waiting = waiting;
          running = f.plan.running;
          scheduled_req_ids = f.plan.scheduled_req_ids;
          finished_req_ids = [];
          ext = e;
        },
      ))

  unfoldable pub schedule : AscendScheduler Ext → Result (Output × AscendScheduler Ext)
  schedule s = if c.chunked_prefill_enabled then ok (v.super_schedule s) else schedule_step s

  -- What the `for` loop visits: of a single id, its characters.
  abbrev pub iterate : RequestIds → List ℕ
  iterate (one id) = v.characters id
  iterate (many ids) = ids

  unfoldable pub finish_requests :
      RequestIds → RequestStatus → AscendScheduler Ext → AscendScheduler Ext
  finish_requests request_ids status s =
      v.super_finish_requests request_ids status (record s {
        scheduled_req_ids = discard_running s (iterate request_ids) s.scheduled_req_ids;
      })

  unfoldable pub update_from_output :
      Output → v.RunnerOutput → AscendScheduler Ext → v.EngineOutput × AscendScheduler Ext
  update_from_output output runner_output s =
      v.super_update_from_output output runner_output (record s {
        scheduled_req_ids =
            discard_scheduled output.num_scheduled_tokens s.running s.scheduled_req_ids;
      })
