-- ===== src/Multistream/Complete.antt =====
-- vllm_ascend/multistream/ms_split.py: when model_input_split_v1_mla_attn finds all that it reads.
use vllm_ascend_origin.Prelude.{
  ℕ, ◌+◌, ◌-◌, ◌≤◌, ◌<◌, ◌≡◌, Option, some, List, [], ◌∷◌, ltb, ltb→lt, not-ltb→le, take, drop,
  length, ap, ◌∙◌, sum, min, length-take, length-drop, arith,
}
use vllm_ascend_origin.Prelude.Int.{ℤ}
use vllm_ascend_origin.Prelude.Result.{
  Result, Fault, Returns, Returns-bind, Returns-if, or_fail, attribute_error, assertion_error,
  ◌>>=◌,
}
use vllm_ascend_origin.Multistream.{
  AscendAttentionState, decode_only, prefill_no_cache, prefill_cache_hit, chunked_prefill,
  spec_decoding, AscendMlaMetadata, AscendMlaPrefillMetadata, AscendMlaDecodeMetadata, SplitIndex,
  split_attn_tensor_type, split_attn_int_type, max_of,
}
use vllm_ascend_origin.Multistream.Split.{
  Masked, chunked_mask, split_chunked_masks, split_masks, tensor_max, split_prefill, split_decode,
  decode_half, split_start_loc, split_query_start_loc, seq_lens_of, split_parts, split_at,
}
use vllm_ascend_origin.Multistream.Starts.{starts_of, split_start_loc-starts_of}

-- There is a result.
abbrev pub Total : {A : Type 0} → Result A → Type 0
Total m = Returns (λ _. Unit {0}) m

-- The metadata has the mask, the sequence lengths, and the prefills and decodes that it counts.
pub record Complete (q : List ℕ) (m : AscendMlaMetadata) : Type 0 where
  pub mask : (x : List (List ℕ)) × (m.attn_mask ≡ some x)
  pub starts : m.query_start_loc ≡ some (starts_of 0 q)
  pub lens : Returns (λ xs. length xs ≡ length q) (seq_lens_of m)
  pub counts : m.num_decodes + m.num_prefills ≡ length q
  pub prefill :
      0 < m.num_prefills
      → (p : AscendMlaPrefillMetadata) × (m.prefill ≡ some p)
        × (p.query_lens ≡ drop m.num_decodes q)
        × (p.query_start_loc ≡ starts_of 0 p.query_lens)
  pub decode_tokens : m.num_decode_tokens ≡ sum (take m.num_decodes q)
  pub decode : 0 < m.num_decodes → (d : AscendMlaDecodeMetadata) × (m.decode ≡ some d)

max_of-Total : (xs : List ℕ) → 0 < length xs → Total (max_of xs)
unfolding max_of
max_of-Total [] h = absurd (omega (arith, h))
max_of-Total (x ∷ []) h = tt
max_of-Total (x ∷ y ∷ xs) h =
    Returns-bind _ _ (max_of (y ∷ xs)) _ (max_of-Total (y ∷ xs) (omega arith)) λ _ _. tt

tensor_max-Total : (xs : List ℕ) → 0 < length xs → Total (tensor_max xs)
unfolding tensor_max
tensor_max-Total [] h = absurd (omega (arith, h))
tensor_max-Total (x ∷ xs) h = max_of-Total (x ∷ xs) h

chunked_mask-Total :
    (rows : List (List ℕ)) (lens : List ℕ) → 0 < length lens → Total (chunked_mask rows lens)
unfolding chunked_mask
chunked_mask-Total rows lens h = Returns-bind _ _ (max_of lens) _ (max_of-Total lens h) λ _ _. tt

split_chunked_masks-Total :
    (x : List (List ℕ)) (t n : ℕ) (pre post : List ℕ)
    → 0 < length pre
    → 0 < length post
    → Total (split_chunked_masks x t n pre post)
unfolding split_chunked_masks
split_chunked_masks-Total x t n pre post h k =
    Returns-bind (λ _. Unit {0}) _ _ _
      (Returns-if (λ _. Unit {0}) (ltb 0 n) (chunked_mask (take t x) pre) _
        (λ _. chunked_mask-Total _ pre h) (λ _. tt))
      λ _ _. Returns-bind _ _ (chunked_mask _ post) _ (chunked_mask-Total _ post k) λ _ _. tt

split_masks-Total :
    (state : AscendAttentionState) (x : List (List ℕ)) (t n : ℕ) (pre post : List ℕ)
    → 0 < length pre
    → 0 < length post
    → Total (split_masks state x t n pre post)
unfolding split_masks
split_masks-Total prefill_no_cache x t n pre post h k = tt
split_masks-Total prefill_cache_hit x t n pre post h k = tt
split_masks-Total decode_only x t n pre post h k = tt
split_masks-Total chunked_prefill x t n pre post h k = split_chunked_masks-Total x t n pre post h k
split_masks-Total spec_decoding x t n pre post h k = split_chunked_masks-Total x t n pre post h k

decode_half-Total :
    (positions : List ℕ) (table : List (List ℕ)) (lens : List ℕ)
    → 0 < length lens
    → Total (decode_half positions table lens)
unfolding decode_half
decode_half-Total positions table lens h =
    Returns-bind _ _ (max_of lens) _ (max_of-Total lens h) λ _ _. tt

split_decode-Total :
    (m : AscendMlaMetadata) (d : AscendMlaDecodeMetadata) (i : SplitIndex) (lens : List ℕ)
    → 0 < i.seq_index
    → i.seq_index < length lens
    → Total (split_decode m d i lens)
unfolding split_decode split_attn_tensor_type
split_decode-Total m d i lens h k =
    Returns-bind _ _ (decode_half _ _ (take i.seq_index lens)) _
      (decode_half-Total _ _ _ (omega (arith, h, k, length-take i.seq_index lens)))
      λ _ _.
        Returns-bind _ _ (decode_half _ _ (drop i.seq_index lens)) _
          (decode_half-Total _ _ _ (omega (arith, k, length-drop i.seq_index lens))) λ _ _. tt

split_start_loc-Total :
    (loc : List ℤ) (k : ℕ) (q : List ℕ)
    → loc ≡ starts_of 0 q
    → k ≤ length q
    → Total (split_start_loc loc k)
split_start_loc-Total loc k q e h = rw (e, split_start_loc-starts_of k q h) tt

split_prefill-Total :
    (m : AscendMlaMetadata) (p : AscendMlaPrefillMetadata) (i : SplitIndex)
    (masks : Masked × Masked) (lens : List ℕ)
    → p.query_start_loc ≡ starts_of 0 p.query_lens
    → m.num_decodes + length p.query_lens ≡ length lens
    → m.num_decodes < i.seq_index
    → i.seq_index < length lens
    → Total (split_prefill m p i masks (split_attn_tensor_type lens i.seq_index))
unfolding split_prefill split_attn_tensor_type
split_prefill-Total m p i masks lens e c h k =
    let n = i.seq_index - m.num_decodes in
    Returns-bind (λ _. Unit {0}) _ (split_start_loc p.query_start_loc n) _
      (split_start_loc-Total _ n p.query_lens e (omega arith))
      λ loc _.
        Returns-bind _ _ (max_of (take n p.query_lens)) _
          (max_of-Total _ (omega (arith, length-take n p.query_lens)))
          λ _ _.
            Returns-bind _ _ (max_of (drop n p.query_lens)) _
              (max_of-Total _ (omega (arith, length-drop n p.query_lens)))
              λ _ _.
                Returns-bind _ _ (tensor_max (drop m.num_decodes (take i.seq_index lens))) _
                  (tensor_max-Total _ (
                    omega (
                      arith,
                      length-drop m.num_decodes (take i.seq_index lens),
                      length-take i.seq_index lens,
                    )))
                  λ _ _.
                    Returns-bind _ _ (tensor_max (drop i.seq_index lens)) _
                      (tensor_max-Total _ (omega (arith, length-drop i.seq_index lens))) λ _ _. tt

or_fail-found :
    {A B : Type 0} (o : Option A) (f : A → Result B) (a : A)
    → o ≡ some a
    → Total (f a)
    → Total (or_fail o attribute_error >>= f)
or_fail-found o f a e h = rw e h

split_parts-Total :
    (q : List ℕ) (m : AscendMlaMetadata) (i : SplitIndex) (masks : Masked × Masked) (lens : List ℕ)
    → Complete q m
    → length lens ≡ length q
    → 0 < i.seq_index
    → i.seq_index < length q
    → Total (split_parts m i (min m.num_prefills (i.seq_index - m.num_decodes)) masks lens)
unfolding split_parts
split_parts-Total q m i masks lens c e h k =
    let n = min m.num_prefills (i.seq_index - m.num_decodes) in
    Returns-if (λ _. Unit {0}) (ltb 0 n) _ _
      (λ t.
        let some_prefills : 0 < m.num_prefills = omega (arith, ltb→lt 0 n t) in
        let (p, found, queries, loc) = c.prefill some_prefills in
        let ql : length p.query_lens ≡ m.num_prefills =
          ap length queries ∙ omega (arith, length-drop m.num_decodes q, c.counts) in
        or_fail-found m.prefill _ p found (
          split_prefill-Total m p i masks lens loc (omega (arith, ql, c.counts, e))
            (omega (arith, ltb→lt 0 n t)) (omega (arith, e, k))))
      (λ f.
        let some_decodes : 0 < m.num_decodes = omega (arith, not-ltb→le 0 n f, c.counts, h, k) in
        let (d, found) = c.decode some_decodes in
        or_fail-found m.decode _ d found (split_decode-Total m d i lens h (omega (arith, e, k))))

split_query_start_loc-Total :
    (loc : Option (List ℤ)) (k : ℕ) (q : List ℕ)
    → loc ≡ some (starts_of 0 q)
    → k ≤ length q
    → Total (split_query_start_loc loc k)
unfolding split_query_start_loc
split_query_start_loc-Total loc k q e h = rw (e, split_start_loc-starts_of k q h) tt

or_fail-Total : {A : Type 0} (o : Option A) (f : Fault) (a : A) → o ≡ some a → Total (or_fail o f)
or_fail-Total o f a e = rw e tt

-- A split with sequences on both sides raises no error.
pub split_at-Total :
    (q : List ℕ) (m : AscendMlaMetadata) (i : SplitIndex)
    → Complete q m
    → 0 < i.seq_index
    → i.seq_index < length q
    → Total (split_at m i)
unfolding split_at split_attn_tensor_type split_attn_int_type
split_at-Total q m i c h k = Returns-bind _ _ (seq_lens_of m) _ c.lens λ lens e.
    Returns-bind _ _ (split_query_start_loc m.query_start_loc i.seq_index) _
      (split_query_start_loc-Total _ i.seq_index q c.starts (omega arith))
      λ loc _.
        Returns-bind _ _ (or_fail m.attn_mask assertion_error) _
          (or_fail-Total m.attn_mask assertion_error c.mask.0 c.mask.1)
          λ mask _.
            Returns-bind _ _ (split_masks m.attn_state mask _ _ _ _) _
              (split_masks-Total m.attn_state mask _ _ (take i.seq_index lens)
                (drop i.seq_index lens) (omega (arith, length-take i.seq_index lens))
                (omega (arith, length-drop i.seq_index lens)))
              λ masks _.
                Returns-bind _ _ (split_parts m i _ masks lens) _
                  (split_parts-Total q m i masks lens c e h k) λ parts _. tt
