-- ===== src/ScheduleConfig/Tests.antt =====
-- Runs of the scheduler configuration's model on small inputs.
use vllm_ascend_origin.Prelude.{
  ℕ, ◌≡◌, true, false, Option, none, some, List, [], ◌∷◌, ◌==◌, if◌then◌else◌,
}
use vllm_ascend_origin.Prelude.Result.{ok}
use vllm_ascend_origin.ScheduleConfig.{
  AscendSchedulerConfig, post_init, name_chunked, name_policy, name_steps, Defaults,
}
use vllm_ascend_origin.ScheduleConfig.Accepts.{Supported, post_init-Supported}

-- Without chunked prefill, and with as many batched tokens as the model length.
abbrev plain : AscendSchedulerConfig
plain = record {
  enable_chunked_prefill = false;
  policy = 0;
  num_scheduler_steps = 1;
  max_num_batched_tokens = 2048;
  max_model_len = 2048;
  is_multimodal_model = false;
  send_delta_data = false;
  has_delay = false;
  max_num_encoder_input_tokens = 0;
  encoder_cache_size = 0;
  chunked_prefill_enabled = true;
}

post_init-Supported_example :
    (Supported plain
      → post_init plain
        ≡ ok (record plain {
          max_num_encoder_input_tokens = 2048;
          encoder_cache_size = 2048;
          chunked_prefill_enabled = false;
        }))
    × ((d : AscendSchedulerConfig) → post_init plain ≡ ok d → Supported plain)
post_init-Supported_example = post_init-Supported plain

abbrev values : Defaults ℕ
values = record { chunked = 0; policy = 0; steps = 1; cls = 9 }

-- Steps overridden with 8, and one more field.
abbrev steps_8 : ℕ → Option ℕ
steps_8 k = if k == name_steps then some 8 else none

abbrev fields : List (ℕ × ℕ)
fields = (name_chunked, 1) ∷ (name_policy, 5) ∷ (7, 2048) ∷ []
