-- ===== src/ScheduleConfig.antt =====
-- vllm_ascend/core/schedule_config.py: AscendSchedulerConfig.
pub mod Accepts
mod Tests
use vllm_ascend_origin.Prelude.{
  ℕ, Bool, true, false, not, ◌&&◌, Option, none, some, List, [], ◌∷◌, ◌==◌, if◌then◌else◌, ltb, leb,
  insert,
}
use vllm_ascend_origin.Prelude.Result.{
  Result, ok, err, ◌>>=◌, ◌>>◌, guard, value_error, not_implemented_error,
}

-- A policy is named by a number; the float delay_factor is read as `delay_factor > 0`.
pub record AscendSchedulerConfig : Type 0 where
  pub enable_chunked_prefill : Bool
  pub policy : ℕ
  pub num_scheduler_steps : ℕ
  pub max_num_batched_tokens : ℕ
  pub max_model_len : ℕ
  pub is_multimodal_model : Bool
  pub send_delta_data : Bool
  pub has_delay : Bool
  pub max_num_encoder_input_tokens : ℕ
  pub encoder_cache_size : ℕ
  pub chunked_prefill_enabled : Bool

abbrev pub fcfs : ℕ
fcfs = 0

unfoldable pub derive_fields : AscendSchedulerConfig → AscendSchedulerConfig
derive_fields c = record c {
  max_num_encoder_input_tokens = c.max_num_batched_tokens;
  encoder_cache_size = c.max_num_batched_tokens;
  chunked_prefill_enabled = c.enable_chunked_prefill;
}

unfoldable pub check_fields : AscendSchedulerConfig → Result (Unit {0})
check_fields c =
    guard (not (ltb c.max_num_batched_tokens c.max_model_len && not c.chunked_prefill_enabled))
      value_error
    >> guard (c.policy == fcfs) not_implemented_error
    >> guard (not c.is_multimodal_model) not_implemented_error
    >> guard (leb c.num_scheduler_steps 1) not_implemented_error
    >> guard (not c.send_delta_data) not_implemented_error
    >> guard (not c.has_delay) not_implemented_error

unfoldable pub post_init : AscendSchedulerConfig → Result AscendSchedulerConfig
post_init c = check_fields (derive_fields c) >>= λ _. ok (derive_fields c)

-- The names of the four fields that get a default of their own.
abbrev pub name_chunked : ℕ
name_chunked = 0

abbrev pub name_policy : ℕ
name_policy = 1

abbrev pub name_steps : ℕ
name_steps = 2

abbrev pub name_cls : ℕ
name_cls = 3

-- The values of these defaults: False, "fcfs", 1 and the path of the scheduler.
pub record Defaults (V : Type 0) : Type 0 where
  pub chunked : V
  pub policy : V
  pub steps : V
  pub cls : V

module _ {V : Type 0} where
  unfoldable pub with_defaults : Defaults V → List (ℕ × V) → List (ℕ × V)
  with_defaults v config = insert name_cls v.cls (
      insert name_steps v.steps
        (insert name_policy v.policy (insert name_chunked v.chunked config)))

  -- `getattr(ascend_scheduler_config, k)` where it has the attribute.
  unfoldable pub override : List (ℕ × V) → (ℕ → Option V) → List (ℕ × V)
  override [] ascend = []
  override ((k, v) ∷ config) ascend =
      (k, elim (ascend k) [ none ↦ v | some w ↦ w ]) ∷ override config ascend

  -- The keyword arguments that the class is called with; `config` has the init fields of the vllm
  -- configuration.
  unfoldable pub initialize_from_config : Defaults V → List (ℕ × V) → (ℕ → Option V) → List (ℕ × V)
  initialize_from_config v config ascend = override (with_defaults v config) ascend
