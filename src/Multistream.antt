-- ===== src/Multistream.antt =====
-- vllm_ascend/multistream/ms_split.py and the metadata of vllm_ascend/attention/mla_v1.py: one batch
-- is split into two micro batches. Tensors are lists, of lists where they have two axes, and the
-- numbers in them that are only copied are natural. A tensor that the split drops is an optional
-- number.
pub mod Split
pub mod MicroBatch
pub mod Index
pub mod Starts
pub mod Complete
pub mod Parts
pub mod Halves
mod Tests
use vllm_ascend_origin.Prelude.{
  ℕ, zero, suc, ◌+◌, ◌-◌, ◌/◌, min, max, Bool, true, false, Option, none, some, List, [], ◌∷◌, leb,
  if◌then◌else◌, take, drop, sum, length,
}
use vllm_ascend_origin.Prelude.Int.{ℤ}
use vllm_ascend_origin.Prelude.Result.{
  Result, ok, err, assertion_error, value_error, or_fail, ◌>>=◌,
}

pub data AscendAttentionState : Type 0 where
  prefill_no_cache prefill_cache_hit decode_only chunked_prefill spec_decoding :
      AscendAttentionState

pub record AscendMlaPrefillMetadata : Type 0 where
  pub attn_mask : Option (List (List ℕ))
  pub query_lens : List ℕ
  pub seq_lens : List ℕ
  pub context_lens : List ℕ
  pub input_positions : List ℕ
  pub query_start_loc : List ℤ
  pub block_table : List (List ℕ)
  pub max_query_len : ℕ
  pub max_seq_lens : ℕ
  pub chunked_context : Option ℕ
  pub sin : Option ℕ
  pub cos : Option ℕ

pub record AscendMlaDecodeMetadata : Type 0 where
  pub input_positions : List ℕ
  pub block_table : List (List ℕ)
  pub seq_lens : List ℕ
  pub max_seq_lens : ℕ
  pub seq_lens_list : List ℕ
  pub actual_seq_lengths_q : Option (List ℕ)
  pub attn_mask : Option (List (List ℕ))
  pub sin : Option ℕ
  pub cos : Option ℕ

pub record AscendMlaMetadata : Type 0 where
  pub num_actual_tokens : ℤ
  pub slot_mapping : List ℕ
  pub query_start_loc : Option (List ℤ)
  pub seq_lens : List ℕ
  pub block_tables : List (List ℕ)
  pub num_decodes : ℕ
  pub num_decode_tokens : ℕ
  pub num_prefills : ℕ
  pub num_input_tokens : ℤ
  pub query_lens : Option (List ℕ)
  pub head_dim : Option ℕ
  pub attn_mask : Option (List (List ℕ))
  pub attn_state : AscendAttentionState
  pub decode : Option AscendMlaDecodeMetadata
  pub prefill : Option AscendMlaPrefillMetadata
  pub enable_dbo_across_dp : Bool

-- Where to split: the tokens and the sequences of the first half.
pub record SplitIndex : Type 0 where
  pub token_index : ℕ
  pub seq_index : ℕ

abbrev no_split : SplitIndex
no_split = record { token_index = 0; seq_index = 0 }

-- abs of a difference
unfoldable pub distance : ℕ → ℕ → ℕ
distance a b = (a - b) + (b - a)

-- `split_attn_tensor_type(input_tensor, index)`
unfoldable pub split_attn_tensor_type : {A : Type 0} → List A → ℕ → List A × List A
split_attn_tensor_type input_tensor index = (take index input_tensor, drop index input_tensor)

-- The index `a - b` into a tensor: a negative one counts from the end.
unfoldable pub offset_index : {A : Type 0} → List A → ℕ → ℕ → ℕ
offset_index input_tensor a b = if leb b a then a - b else length input_tensor - (b - a)

unfoldable pub split_attn_int_type : ℕ → ℕ → ℕ × ℕ
split_attn_int_type var index = (min var index, var - index)

-- `max(values)`
unfoldable pub max_of : List ℕ → Result ℕ
max_of [] = err value_error
max_of (x ∷ []) = ok x
max_of (x ∷ y ∷ xs) = max_of (y ∷ xs) >>= λ m. ok (max x m)

-- `close difference total` is `difference < total * imbalance_ratio`, a comparison of floats.
module _ (close : ℕ → ℕ → Bool) where
  -- The loop over query_lens, behind `index` of them with `tokens`.
  unfoldable pub split_loop : ℕ → ℕ → ℕ → List ℕ → SplitIndex
  split_loop total_tokens tokens index [] = no_split
  split_loop total_tokens tokens index (value ∷ query_lens) =
      let rest = split_loop total_tokens (tokens + value) (suc index) query_lens in
      if leb (total_tokens / 2) (tokens + value)
      then (if close (distance (tokens + value) (total_tokens / 2)) total_tokens
          then record { token_index = tokens + value; seq_index = suc index }
          else if close (distance tokens (total_tokens / 2)) total_tokens
          then record { token_index = tokens; seq_index = index }
          else no_split)
      else rest

  unfoldable pub compute_split_seq_index :
      Option (List ℕ) → AscendAttentionState → ℕ → Result SplitIndex
  compute_split_seq_index query_lens decode_only num_tokens =
      ok (record { token_index = num_tokens / 2; seq_index = num_tokens / 2 })
  compute_split_seq_index query_lens attn_state num_tokens =
      or_fail query_lens assertion_error >>= λ lens. ok (split_loop (sum lens) 0 0 lens)
