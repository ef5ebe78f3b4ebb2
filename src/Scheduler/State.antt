-- ===== src/Scheduler/State.antt =====
-- vllm_ascend/core/scheduler.py: the state of AscendScheduler, the locals of `schedule`, and what
-- the file takes from vllm, which is a parameter. Requests are shared objects: they stand in the
-- map `requests` under their ids, and every list of requests is a list of ids.
use vllm_ascend_origin.Prelude.{ℕ, Bool, Option, List}
pub use vllm_ascend_origin.Prelude.Result.{
  Fault, assertion_error, runtime_error, index_error, key_error, value_error, not_implemented_error,
  out_of_fuel, negative_count, Result, ok, err, ◌>>=◌, ◌>>◌, guard, or_fail, Result-cases, Ensures,
  Ensures-map, Ensures-bind, Ensures-ok, Ensures-any,
}
use vllm_ascend_origin.Prelude.Int.{ℤ}

-- The statuses that the repository names; `other` is any further one.
pub data RequestStatus : Type 0 where
  waiting waiting_for_remote_kvs running preempted : RequestStatus
  finished_ignored finished_length_capped : RequestStatus
  other : ℕ → RequestStatus

pub record LoraRequest : Type 0 where
  pub lora_int_id : ℕ
  -- Python's None is `none`.
  pub long_lora_max_len : Option ℕ

pub record Request : Type 0 where
  pub status : RequestStatus
  pub num_computed_tokens : ℕ
  pub num_tokens : ℕ
  pub num_tokens_with_spec : ℕ
  pub spec_token_ids : List ℕ
  pub lora_request : Option LoraRequest
  -- Negative until the cached tokens have been counted.
  pub num_cached_tokens : ℤ

-- The fields of scheduler_config, kv_cache_config and the scheduler that `schedule` reads.
pub record Config : Type 0 where
  pub max_num_scheduled_tokens : ℕ
  pub max_num_running_reqs : ℕ
  pub max_model_len : ℕ
  pub num_lookahead_tokens : ℕ
  pub block_size : ℕ
  pub num_blocks : ℕ
  -- lora_config.max_loras, with a LoRA config.
  pub max_loras : Option ℕ
  pub chunked_prefill_enabled : Bool
  pub is_multi_step : Bool
  pub config_max_model_len : ℕ
  pub max_num_batched_tokens : ℕ
  -- vllm_version_is("0.10.1.1")
  pub is_0_10_1_1 : Bool

-- The arguments of allocate_slots behind the request; `none` is an argument that is left out.
pub record Slots (Blocks : Type 0) : Type 0 where
  pub num_new_tokens : ℕ
  pub num_new_computed_tokens : Option ℕ
  pub new_computed_blocks : Option Blocks
  pub num_lookahead_tokens : ℕ
  pub delay_cache_blocks : Option Bool

-- What stands in req_to_new_block_ids (0.10.1.1) or req_to_new_blocks.
pub data NewBlocks (Ids Blocks : Type 0) : Type 0 where
  block_ids : Ids → NewBlocks Ids Blocks
  blocks : Blocks → NewBlocks Ids Blocks

-- The locals of `schedule`, and the fields of the scheduler that only it and its callers write.
pub record Plan (New : Type 0) : Type 0 where
  pub running : List ℕ
  pub scheduled_req_ids : List ℕ
  pub finished_req_ids : List ℕ
  pub scheduled_new_reqs : List ℕ
  pub scheduled_resumed_reqs : List ℕ
  pub scheduled_running_reqs : List ℕ
  pub preempted_reqs : List ℕ
  pub req_to_new_blocks : List (ℕ × New)
  pub num_scheduled_tokens : List (ℕ × ℕ)
  pub token_budget : ℕ
  -- How far the budget is below 0, which the loops do not look at.
  pub overdraft : ℕ
  pub scheduled_spec_decode_tokens : List (ℕ × List ℕ)
  pub scheduled_loras : List ℕ
  pub skipped_waiting_requests : List ℕ

-- The state inside the loops of `schedule`. The queue `waiting` is an argument of the loops.
pub record Frame (Ext New : Type 0) : Type 0 where
  pub plan : Plan New
  pub requests : ℕ → Request
  pub ext : Ext

pub record AscendScheduler (Ext : Type 0) : Type 0 where
  pub requests : ℕ → Request
  -- The keys of the dict `requests`; the map itself is the heap of request objects.
  pub has_request : ℕ → Bool
  pub waiting : List ℕ
  pub running : List ℕ
  pub scheduled_req_ids : List ℕ
  pub finished_req_ids : List ℕ
  pub ext : Ext

pub record SchedulerOutput (NewData CachedData Freed Meta : Type 0) : Type 0 where
  pub scheduled_new_reqs : List NewData
  pub scheduled_cached_reqs : CachedData
  pub num_scheduled_tokens : List (ℕ × ℕ)
  pub total_num_scheduled_tokens : ℕ
  pub scheduled_spec_decode_tokens : List (ℕ × List ℕ)
  pub num_common_prefix_blocks : ℕ
  pub finished_req_ids : List ℕ
  -- free_encoder_input_ids (0.10.1.1) or free_encoder_mm_hashes.
  pub freed : Freed
  pub kv_connector_metadata : Option Meta

-- The first argument of finish_requests: one id, or an iterable of ids.
pub data RequestIds : Type 0 where
  one : ℕ → RequestIds
  many : List ℕ → RequestIds

-- vllm: the KV cache manager, the connector and the base class. `Ext` is all of their state.
pub record Vllm : Type 1 where
  pub Ext : Type 0
  pub Blocks : Type 0
  pub Block : Type 0
  pub Ids : Type 0
  pub Float : Type 0
  pub NewData : Type 0
  pub CachedData : Type 0
  pub Freed : Type 0
  pub Meta : Type 0
  pub RunnerOutput : Type 0
  pub EngineOutput : Type 0
  pub update_waiting_for_remote_kv : Ext → ℕ → Request → Bool × Request × Ext
  pub get_computed_blocks : Ext → ℕ → Request → Blocks × ℕ × Ext
  pub create_empty_block_list : Blocks
  pub append_blocks : Blocks → Blocks → Blocks
  pub first_group : Blocks → List Block
  pub get_block_ids : Blocks → Ids
  pub request_block_ids : Ext → ℕ → Ids
  pub ref_cnt : Ext → Block → ℕ
  pub allocate_slots : Ext → ℕ → Request → Slots Blocks → Option Blocks × Ext
  pub free : Ext → ℕ → Request → Ext
  pub num_req_blocks : Ext → ℕ → ℕ
  pub get_num_free_blocks : Ext → ℕ
  pub get_num_common_prefix_blocks : Ext → ℕ → ℕ → ℕ
  -- `self.connector is not None`
  pub has_connector : Bool
  pub get_num_new_matched_tokens : Ext → ℕ → Request → ℕ → ℕ × Bool × Ext
  pub update_state_after_alloc : Ext → ℕ → Request → Blocks → ℕ → Ext
  pub cdiv : ℕ → ℕ → ℕ
  -- The watermark is a float: `num_blocks * watermark`, and an integer below a float.
  pub watermark : Float
  pub float_times : ℕ → Float → Float
  pub int_lt_float : ℤ → Float → Bool
  pub from_request : ℕ → Request → Ids → NewData
  pub make_cached_request_data :
      Ext
      → (ℕ → Request)
      → List ℕ
      → List ℕ
      → List (ℕ × ℕ)
      → List (ℕ × List ℕ)
      → List (ℕ × NewBlocks Ids Blocks)
      → CachedData
  pub get_freed : Ext → Freed × Ext
  pub build_connector_meta : Ext → SchedulerOutput NewData CachedData Freed Meta → Meta × Ext
  -- take_events, and the publication of what it returned.
  pub publish_events : Ext → Ext
  -- The methods of the base class.
  pub super_schedule :
      AscendScheduler Ext → SchedulerOutput NewData CachedData Freed Meta × AscendScheduler Ext
  pub super_finish_requests : RequestIds → RequestStatus → AscendScheduler Ext → AscendScheduler Ext
  pub super_update_from_output :
      SchedulerOutput NewData CachedData Freed Meta
      → RunnerOutput
      → AscendScheduler Ext
      → EngineOutput × AscendScheduler Ext
  -- The characters of an id, as ids: what a `for` loop over the text of one id visits.
  pub characters : ℕ → List ℕ
