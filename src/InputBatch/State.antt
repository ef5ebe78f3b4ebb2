-- ===== src/InputBatch/State.antt =====
-- vllm_ascend/worker/npu_input_batch.py: CachedRequestState and the state of InputBatch. An array of
-- max_num_reqs rows is a function of the row. The device copies of the arrays and sampling_metadata
-- are left out.
use vllm_ascend_origin.Prelude.{ℕ, Bool, Option, List, length, update}
use vllm_ascend_origin.Prelude.Int.{ℤ}
use vllm_ascend_origin.Prelude.Result.{Result}

-- Floats, and the classes of vllm and torch that the batch only calls.
pub record Ext : Type 1 where
  pub Float : Type 0
  pub minus_one : Float
  pub lt_one : Float → Bool
  pub is_zero : Float → Bool
  pub is_one : Float → Bool
  pub Generator : Type 0
  pub LoraRequest : Type 0
  pub lora_int_id : LoraRequest → ℕ
  pub PoolingParams : Type 0
  pub requires_token_ids : PoolingParams → Bool
  pub LogprobsTensors : Type 0
  -- BatchUpdateBuilder. `moved` has the flag set for a swap.
  pub Builder : Type 0
  pub removed : Builder → List ℕ
  pub peek_removed : Builder → Option ℕ
  pub pop_removed : Builder → Option ℕ × Builder
  pub removed_append : ℕ → Builder → Result Builder
  pub added : ℕ → List ℕ → List ℕ → Builder → Builder
  pub moved : ℕ → ℕ → Bool → Builder → Builder
  -- MultiGroupBlockTable
  pub BlockTable : Type 0
  -- What the table holds of one row.
  pub BlockRow : Type 0
  pub row_of : BlockTable → ℕ → BlockRow
  pub add_row : List (List ℕ) → ℕ → BlockTable → BlockTable
  pub swap_row : ℕ → ℕ → BlockTable → BlockTable
  pub move_row : ℕ → ℕ → BlockTable → BlockTable
  -- vllm.utils.swap_dict_values
  pub swap_dict_values : {V : Type 0} → ℕ → ℕ → List (ℕ × V) → List (ℕ × V)

pub record SamplingParams (E : Ext) : Type 0 where
  -- is_spec_decode_unsupported(sampling_params)
  pub spec_decode_unsupported : Bool
  -- sampling_type == SamplingType.GREEDY
  pub greedy : Bool
  pub temperature : E.Float
  pub top_p : E.Float
  pub top_k : ℤ
  pub frequency_penalty : E.Float
  pub presence_penalty : E.Float
  pub repetition_penalty : E.Float
  pub logprobs : Option ℤ
  pub prompt_logprobs : Option ℤ
  -- None and the empty list are read alike.
  pub allowed_token_ids : List ℕ
  pub bad_words_token_ids : List (List ℕ)

pub record CachedRequestState (E : Ext) : Type 0 where
  pub req_id : ℕ
  pub prompt_token_ids : List ℕ
  pub output_token_ids : List ℕ
  pub sampling_params : Option (SamplingParams E)
  pub pooling_params : Option E.PoolingParams
  pub generator : Option E.Generator
  pub block_ids : List (List ℕ)
  pub num_computed_tokens : ℕ
  pub lora_request : Option E.LoraRequest

pub record InputBatch (E : Ext) : Type 0 where
  pub is_pooling_model : Bool
  pub is_spec_decode : Bool
  pub max_num_reqs : ℕ
  pub max_model_len : ℕ
  pub vocab_size : ℕ
  pub req_ids : List (Option ℕ)
  pub req_id_to_index : List (ℕ × ℕ)
  pub token_ids_cpu : ℕ → ℕ → ℕ
  pub num_tokens : ℕ → ℕ
  pub num_tokens_no_spec : ℕ → ℕ
  pub num_prompt_tokens : ℕ → ℕ
  pub num_computed_tokens_cpu : ℕ → ℕ
  pub block_table : E.BlockTable
  pub temperature_cpu : ℕ → E.Float
  pub greedy_reqs : List ℕ
  pub random_reqs : List ℕ
  pub top_p_cpu : ℕ → E.Float
  pub top_p_reqs : List ℕ
  pub top_k_cpu : ℕ → ℤ
  pub top_k_reqs : List ℕ
  pub spec_decode_unsupported_reqs : List ℕ
  pub frequency_penalties_cpu : ℕ → E.Float
  pub frequency_penalties_reqs : List ℕ
  pub presence_penalties_cpu : ℕ → E.Float
  pub presence_penalties_reqs : List ℕ
  pub repetition_penalties_cpu : ℕ → E.Float
  pub repetition_penalties_reqs : List ℕ
  pub request_lora_mapping : ℕ → ℕ
  pub lora_id_to_request_ids : List (ℕ × List ℕ)
  pub lora_id_to_lora_request : List (ℕ × E.LoraRequest)
  pub generators : List (ℕ × E.Generator)
  pub num_logprobs : List (ℕ × ℤ)
  pub num_prompt_logprobs : List (ℕ × ℤ)
  pub in_progress_prompt_logprobs_cpu : List (ℕ × E.LogprobsTensors)
  pub batch_update_builder : E.Builder
  pub has_allowed_token_ids : List ℕ
  -- allowed_token_ids_mask_cpu_tensor; the device tensor is allocated with it.
  pub allowed_token_ids_mask : Option (ℕ → ℕ → Bool)
  pub bad_words_token_ids : List (ℕ × List (List ℕ))
  pub logits_processing_needs_token_ids : ℕ → Bool
  pub req_output_token_ids : List (Option (List ℕ))
  pub pooling_params : List (ℕ × E.PoolingParams)

unfoldable pub num_reqs : {E : Ext} → InputBatch E → ℕ
num_reqs b = length b.req_id_to_index

-- `a[i], a[j] = a[j], a[i]` of an array of numbers
unfoldable pub swap {ℓ} : {A : Type ℓ} → (ℕ → A) → ℕ → ℕ → ℕ → A
swap f i j = update (update f i (f j)) j (f i)
