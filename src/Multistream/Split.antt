-- ===== src/Multistream/Split.antt =====
-- vllm_ascend/multistream/ms_split.py: model_input_split_v1_mla_attn, in the order of its parts.
use vllm_ascend_origin.Prelude.{
  ℕ, suc, ◌-◌, Bool, ◌&&◌, ◌||◌, Option, none, some, List, [], ◌∷◌, ltb, ◌==◌, if◌then◌else◌, take,
  drop, length, get_elem?,
}
use mathlib.Core.List.{map}
use vllm_ascend_origin.Prelude.Int.{ℤ, pos, ◌-ℤ◌}
use vllm_ascend_origin.Prelude.Result.{
  Result, ok, err, assertion_error, runtime_error, index_error, type_error, attribute_error, guard,
  or_fail, ◌>>=◌, ◌>>◌,
}
use vllm_ascend_origin.Multistream.{
  AscendAttentionState, prefill_no_cache, prefill_cache_hit, decode_only, chunked_prefill,
  AscendMlaPrefillMetadata, AscendMlaDecodeMetadata, AscendMlaMetadata, SplitIndex,
  split_attn_tensor_type, offset_index, split_attn_int_type, max_of, compute_split_seq_index,
}

-- `loc[:index + 1]`, and `loc[index:] - loc[index]`
unfoldable pub split_start_loc : List ℤ → ℕ → Result (List ℤ × List ℤ)
split_start_loc loc index = or_fail (get_elem? loc index) index_error >>= λ start.
    ok (take (suc index) loc, map (λ x. x -ℤ start) (drop index loc))

unfoldable pub split_query_start_loc :
    Option (List ℤ) → ℕ → Result (Option (List ℤ) × Option (List ℤ))
split_query_start_loc none seq_index = ok (none, none)
split_query_start_loc (some loc) seq_index =
    split_start_loc loc seq_index >>= λ halves. ok (some halves.0, some halves.1)

-- The attention state and mask of a half.
pub record Masked : Type 0 where
  pub state : AscendAttentionState
  pub mask : Option (List (List ℕ))

abbrev shared : AscendAttentionState → List (List ℕ) → Masked
shared state m = record { state = state; mask = some m }

unfoldable pub chunked_mask : List (List ℕ) → List ℕ → Result Masked
chunked_mask rows seq_lens = max_of seq_lens >>= λ m.
    ok (record { state = chunked_prefill; mask = some (map (take m) rows) })

-- The halves in the states other than the three that share the mask.
unfoldable pub split_chunked_masks :
    List (List ℕ) → ℕ → ℕ → List ℕ → List ℕ → Result (Masked × Masked)
split_chunked_masks attn_mask token_index num_prefills_pre seq_lens_pre seq_lens_post =
    (if ltb 0 num_prefills_pre
      then chunked_mask (take token_index attn_mask) seq_lens_pre
      else ok (record { state = decode_only; mask = none }))
    >>= λ pre. chunked_mask (drop token_index attn_mask) seq_lens_post >>= λ post. ok (pre, post)

unfoldable pub split_masks :
    AscendAttentionState → List (List ℕ) → ℕ → ℕ → List ℕ → List ℕ → Result (Masked × Masked)
split_masks prefill_no_cache m token_index num_prefills_pre pre post =
    ok (shared prefill_no_cache m, shared prefill_no_cache m)
split_masks prefill_cache_hit m token_index num_prefills_pre pre post =
    ok (shared prefill_cache_hit m, shared prefill_cache_hit m)
split_masks decode_only m token_index num_prefills_pre pre post =
    ok (shared decode_only m, shared decode_only m)
split_masks state m token_index num_prefills_pre pre post =
    split_chunked_masks m token_index num_prefills_pre pre post

-- `values.max().item()`
unfoldable pub tensor_max : List ℕ → Result ℕ
tensor_max [] = err runtime_error
tensor_max (x ∷ xs) = max_of (x ∷ xs)

-- The parts of a half: its prefills and its decodes.
pub record Parts : Type 0 where
  pub prefill : Option AscendMlaPrefillMetadata
  pub decode : Option AscendMlaDecodeMetadata

-- The second half gets the context lengths of all its sequences.
unfoldable pub split_prefill :
    AscendMlaMetadata
    → AscendMlaPrefillMetadata
    → SplitIndex
    → Masked × Masked
    → List ℕ × List ℕ
    → Result (Parts × Parts)
split_prefill m prefill i (mask_pre, mask_post) (seq_lens_pre, seq_lens_post) =
    let (positions_pre, positions_post) =
      split_attn_tensor_type prefill.input_positions
        (offset_index prefill.input_positions i.token_index m.num_decode_tokens) in
    let (tables_pre, tables_post) =
      split_attn_tensor_type prefill.block_table (i.seq_index - m.num_decodes) in
    let (lens_pre, lens_post) =
      split_attn_tensor_type prefill.query_lens (i.seq_index - m.num_decodes) in
    split_start_loc prefill.query_start_loc (i.seq_index - m.num_decodes) >>= λ loc.
    max_of lens_pre >>= λ max_query_len_pre. max_of lens_post >>= λ max_query_len_post.
    tensor_max (drop m.num_decodes seq_lens_pre) >>= λ max_seq_lens_pre.
    tensor_max seq_lens_post >>= λ max_seq_lens_post. ok (
      record {
        prefill = some (record {
          attn_mask = mask_pre.mask;
          query_lens = lens_pre;
          seq_lens = seq_lens_pre;
          context_lens = drop m.num_decodes seq_lens_pre;
          input_positions = positions_pre;
          query_start_loc = loc.0;
          block_table = tables_pre;
          max_query_len = max_query_len_pre;
          max_seq_lens = max_seq_lens_pre;
          chunked_context = none;
          sin = none;
          cos = none;
        });
        decode = m.decode;
      },
      record {
        prefill = some (record {
          attn_mask = mask_post.mask;
          query_lens = lens_post;
          seq_lens = seq_lens_post;
          context_lens = seq_lens_post;
          input_positions = positions_post;
          query_start_loc = loc.1;
          block_table = tables_post;
          max_query_len = max_query_len_post;
          max_seq_lens = max_seq_lens_post;
          chunked_context = none;
          sin = none;
          cos = none;
        });
        decode = none;
      },
    )

unfoldable pub decode_half : List ℕ → List (List ℕ) → List ℕ → Result AscendMlaDecodeMetadata
decode_half input_positions block_table seq_lens = max_of seq_lens >>= λ max_seq_lens. ok (record {
  input_positions = input_positions;
  block_table = block_table;
  seq_lens = seq_lens;
  max_seq_lens = max_seq_lens;
  seq_lens_list = seq_lens;
  actual_seq_lengths_q = none;
  attn_mask = none;
  sin = none;
  cos = none;
})

unfoldable pub split_decode :
    AscendMlaMetadata → AscendMlaDecodeMetadata → SplitIndex → List ℕ → Result (Parts × Parts)
split_decode m decode i seq_lens =
    let (positions_pre, positions_post) =
      split_attn_tensor_type decode.input_positions i.token_index in
    let (tables_pre, tables_post) = split_attn_tensor_type decode.block_table i.seq_index in
    let (seq_lens_pre, seq_lens_post) = split_attn_tensor_type seq_lens i.seq_index in
    decode_half positions_pre tables_pre seq_lens_pre >>= λ pre.
    decode_half positions_post tables_post seq_lens_post >>= λ post. ok (
      record { prefill = none; decode = some pre },
      record { prefill = m.prefill; decode = some post },
    )

-- `seq_lens`: of the prefills if there are any.
unfoldable pub seq_lens_of : AscendMlaMetadata → Result (List ℕ)
seq_lens_of m =
    if ltb 0 m.num_prefills
    then (or_fail m.prefill attribute_error >>= λ prefill. ok prefill.seq_lens)
    else (or_fail m.decode attribute_error >>= λ decode. ok decode.seq_lens)

unfoldable pub split_parts :
    AscendMlaMetadata → SplitIndex → ℕ → Masked × Masked → List ℕ → Result (Parts × Parts)
split_parts m i num_prefills_pre masks seq_lens =
    if ltb 0 num_prefills_pre
    then (or_fail m.prefill attribute_error >>= λ prefill.
        split_prefill m prefill i masks (split_attn_tensor_type seq_lens i.seq_index))
    else (or_fail m.decode attribute_error >>= λ decode. split_decode m decode i seq_lens)

unfoldable pub split_at :
    AscendMlaMetadata → SplitIndex → Result (AscendMlaMetadata × AscendMlaMetadata)
split_at m i =
    let (slots_pre, slots_post) = split_attn_tensor_type m.slot_mapping i.token_index in
    let (decodes_pre, decodes_post) = split_attn_int_type m.num_decodes i.seq_index in
    let (decode_tokens_pre, decode_tokens_post) =
      split_attn_int_type m.num_decode_tokens i.token_index in
    let (prefills_pre, prefills_post) =
      split_attn_int_type m.num_prefills (i.seq_index - m.num_decodes) in
    seq_lens_of m >>= λ seq_lens.
    let (seq_lens_pre, seq_lens_post) = split_attn_tensor_type seq_lens i.seq_index in
    split_query_start_loc m.query_start_loc i.seq_index >>= λ loc.
    let (tables_pre, tables_post) = split_attn_tensor_type m.block_tables i.seq_index in
    or_fail m.attn_mask assertion_error >>= λ attn_mask.
    split_masks m.attn_state attn_mask i.token_index prefills_pre seq_lens_pre seq_lens_post
    >>= λ masks. split_parts m i prefills_pre masks seq_lens >>= λ parts. ok (
      record {
        num_actual_tokens = pos i.token_index;
        slot_mapping = slots_pre;
        query_start_loc = loc.0;
        seq_lens = seq_lens_pre;
        block_tables = tables_pre;
        num_decodes = decodes_pre;
        num_decode_tokens = decode_tokens_pre;
        num_prefills = prefills_pre;
        num_input_tokens = pos i.token_index;
        query_lens = none;
        head_dim = m.head_dim;
        attn_mask = masks.0.mask;
        attn_state = masks.0.state;
        decode = parts.0.decode;
        prefill = parts.0.prefill;
        enable_dbo_across_dp = m.enable_dbo_across_dp;
      },
      record {
        num_actual_tokens = m.num_actual_tokens -ℤ pos i.token_index;
        slot_mapping = slots_post;
        query_start_loc = loc.1;
        seq_lens = seq_lens_post;
        block_tables = tables_post;
        num_decodes = decodes_post;
        num_decode_tokens = decode_tokens_post;
        num_prefills = prefills_post;
        num_input_tokens = m.num_input_tokens -ℤ pos i.token_index;
        query_lens = none;
        head_dim = m.head_dim;
        attn_mask = masks.1.mask;
        attn_state = masks.1.state;
        decode = parts.1.decode;
        prefill = parts.1.prefill;
        enable_dbo_across_dp = m.enable_dbo_across_dp;
      },
    )

-- The micro batches: the batch itself, or its halves.
pub data MicroBatches : Type 0 where
  whole : Option AscendMlaMetadata → MicroBatches
  halves : AscendMlaMetadata → AscendMlaMetadata → MicroBatches

unfoldable pub split_found : AscendMlaMetadata → SplitIndex → Result MicroBatches
split_found m i =
    if (i.token_index == 0) || (i.seq_index == 0)
    then ok (whole (some m))
    else (or_fail m.query_lens type_error >>= λ query_lens.
        if i.seq_index == length query_lens
        then ok (whole (some m))
        else (split_at m i >>= λ batches. ok (halves batches.0 batches.1)))

unfoldable pub model_input_split_v1_mla_attn :
    (ℕ → ℕ → Bool) → Option AscendMlaMetadata → ℕ → Result MicroBatches
model_input_split_v1_mla_attn close attn_metadata num_micro_batches =
    guard (ltb 0 num_micro_batches && ltb num_micro_batches 3) assertion_error
    >> elim attn_metadata [
      | none ↦ ok (whole none)
      | some m ↦
          compute_split_seq_index close m.query_lens m.attn_state m.num_decode_tokens
          >>= split_found m
    ]
