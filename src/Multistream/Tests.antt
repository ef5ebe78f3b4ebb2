-- ===== src/Multistream/Tests.antt =====
-- Runs of the batch split: two prefills of four tokens each, and three decodes.
use vllm_ascend_origin.Prelude.{
  ℕ, ◌*◌, ◌≡◌, ◌⊎◌, refl, Bool, false, Option, none, some, List, [], ◌∷◌, ltb, arith,
}
use vllm_ascend_origin.Prelude.Int.{pos, ◌-ℤ◌}
use vllm_ascend_origin.Prelude.Result.{Result, ok}
use vllm_ascend_origin.Multistream.{
  chunked_prefill, AscendMlaMetadata, AscendMlaPrefillMetadata, SplitIndex, no_split, distance,
  split_attn_tensor_type, offset_index, split_attn_int_type, max_of, split_loop,
  compute_split_seq_index,
}
use vllm_ascend_origin.Multistream.Split.{
  split_start_loc, split_query_start_loc, chunked_mask, split_chunked_masks, split_masks,
  tensor_max, split_prefill, seq_lens_of, split_parts, split_at, split_found,
  model_input_split_v1_mla_attn,
}
use vllm_ascend_origin.Multistream.MicroBatch.{
  SplitBatch, split, split_tensor, split_intermediate, split_inputs, split_micro_batch,
  merge_micro_batches, merge_micro_batches-split_micro_batch,
}
use vllm_ascend_origin.Multistream.Index.{Balanced, compute_split_seq_index-Balanced}
use vllm_ascend_origin.Multistream.Starts.{starts_of}
use vllm_ascend_origin.Multistream.Complete.{Complete}

abbrev tenth : ℕ → ℕ → Bool
tenth difference total = ltb (difference * 10) total

abbrev lens : List ℕ
lens = 4 ∷ 4 ∷ []

abbrev prefills : AscendMlaPrefillMetadata
prefills = record {
  attn_mask = some ([] ∷ []);
  query_lens = lens;
  seq_lens = 4 ∷ 6 ∷ [];
  context_lens = 4 ∷ 6 ∷ [];
  input_positions = 0 ∷ 1 ∷ 2 ∷ 3 ∷ 2 ∷ 3 ∷ 4 ∷ 5 ∷ [];
  query_start_loc = starts_of 0 lens;
  block_table = (7 ∷ []) ∷ (8 ∷ []) ∷ [];
  max_query_len = 4;
  max_seq_lens = 6;
  chunked_context = some 1;
  sin = none;
  cos = none;
}

abbrev batch : AscendMlaMetadata
batch = record {
  num_actual_tokens = pos 8;
  slot_mapping = 70 ∷ 71 ∷ 72 ∷ 73 ∷ 82 ∷ 83 ∷ 84 ∷ 85 ∷ [];
  query_start_loc = some (starts_of 0 lens);
  seq_lens = 4 ∷ 6 ∷ [];
  block_tables = (7 ∷ []) ∷ (8 ∷ []) ∷ [];
  num_decodes = 0;
  num_decode_tokens = 0;
  num_prefills = 2;
  num_input_tokens = pos 0;
  query_lens = some lens;
  head_dim = none;
  attn_mask = some ([] ∷ []);
  attn_state = chunked_prefill;
  decode = none;
  prefill = some prefills;
  enable_dbo_across_dp = false;
}

index_run :
    compute_split_seq_index tenth (some lens) chunked_prefill 0
    ≡ ok (record { token_index = 4; seq_index = 1 })
unfolding compute_split_seq_index split_loop distance
index_run = refl

-- An imbalanced batch is not split.
imbalanced_run : compute_split_seq_index tenth (some (1 ∷ 9 ∷ [])) chunked_prefill 0 ≡ ok no_split
unfolding compute_split_seq_index split_loop distance
imbalanced_run = refl

compute_split_seq_index-Balanced_example :
    (i : SplitIndex) × (compute_split_seq_index tenth (some lens) chunked_prefill 0 ≡ ok i)
    × ((i ≡ no_split) ⊎ Balanced tenth lens i)
compute_split_seq_index-Balanced_example =
    compute_split_seq_index-Balanced tenth lens chunked_prefill 0 (λ e. grind arith)

abbrev inputs : List (Option (List ℕ))
inputs = none ∷ some (0 ∷ 1 ∷ 2 ∷ 3 ∷ 2 ∷ 3 ∷ 4 ∷ 5 ∷ []) ∷ []

abbrev first_half : Result (SplitBatch ℕ) → AscendMlaMetadata
first_half (ok (split pre post pieces inter)) = pre
first_half r = batch

abbrev second_half : Result (SplitBatch ℕ) → AscendMlaMetadata
second_half (ok (split pre post pieces inter)) = post
second_half r = batch

abbrev pre_half : AscendMlaMetadata
pre_half = first_half (split_micro_batch tenth 2 batch inputs none none)

abbrev post_half : AscendMlaMetadata
post_half = second_half (split_micro_batch tenth 2 batch inputs none none)

abbrev pieces : List (Option (List ℕ) × Option (List ℕ))
pieces = (none, none) ∷ (some (0 ∷ 1 ∷ 2 ∷ 3 ∷ []), some (2 ∷ 3 ∷ 4 ∷ 5 ∷ [])) ∷ []

-- The halves lose the chunked context of the prefills.
context_run :
    pre_half.prefill
    ≡ some (record prefills {
      attn_mask = some ([] ∷ []);
      query_lens = 4 ∷ [];
      seq_lens = 4 ∷ [];
      context_lens = 4 ∷ [];
      input_positions = 0 ∷ 1 ∷ 2 ∷ 3 ∷ [];
      query_start_loc = starts_of 0 (4 ∷ []);
      block_table = (7 ∷ []) ∷ [];
      max_query_len = 4;
      max_seq_lens = 4;
      chunked_context = none;
    })
unfolding split_micro_batch model_input_split_v1_mla_attn split_found split_at seq_lens_of
    split_attn_tensor_type split_attn_int_type split_query_start_loc split_start_loc split_masks
    split_chunked_masks chunked_mask max_of tensor_max split_parts split_prefill offset_index
    compute_split_seq_index split_loop distance split_inputs split_intermediate split_tensor ◌-ℤ◌
context_run = refl

split_run :
    split_micro_batch tenth 2 batch inputs none none ≡ ok (split pre_half post_half pieces none)
unfolding split_micro_batch model_input_split_v1_mla_attn split_found split_at seq_lens_of
    split_attn_tensor_type split_attn_int_type split_query_start_loc split_start_loc split_masks
    split_chunked_masks chunked_mask max_of tensor_max split_parts split_prefill offset_index
    compute_split_seq_index split_loop distance split_inputs split_intermediate split_tensor ◌-ℤ◌
split_run = refl

merge_micro_batches-split_micro_batch_example : merge_micro_batches pieces ≡ ok inputs
merge_micro_batches-split_micro_batch_example =
    merge_micro_batches-split_micro_batch tenth 2 batch none
      (some (0 ∷ 1 ∷ 2 ∷ 3 ∷ 2 ∷ 3 ∷ 4 ∷ 5 ∷ []) ∷ []) none none pre_half post_half pieces none
      split_run
