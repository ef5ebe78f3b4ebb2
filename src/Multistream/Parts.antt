-- ===== src/Multistream/Parts.antt =====
-- vllm_ascend/multistream/ms_split.py, model_input_split_v1_mla_attn: what the prefill and decode parts
-- of the halves hold.
use mathlib.Core.Path.{subst}
use vllm_ascend_origin.Prelude.{
  ℕ, zero, suc, ◌+◌, ◌-◌, ◌≤◌, ◌<◌, ◌≡◌, refl, sym, ap, ◌∙◌, ◌⊎◌, inl, inr, true, Option, none,
  some, List, [], ◌∷◌, ltb, ltb→lt, not-ltb→le, take, drop, length, sum, min, elem, length-drop,
  arith,
}
use vllm_ascend_origin.Prelude.Result.{Ensures, Ensures-bind, Ensures-if, or_fail, attribute_error}
use vllm_ascend_origin.Multistream.{
  AscendMlaMetadata, AscendMlaPrefillMetadata, AscendMlaDecodeMetadata, SplitIndex,
  split_attn_tensor_type, offset_index, max_of,
}
use vllm_ascend_origin.Multistream.Split.{
  Masked, Parts, tensor_max, split_prefill, split_decode, decode_half, split_start_loc, split_parts,
}
use vllm_ascend_origin.Multistream.Index.{AtSequence}
use vllm_ascend_origin.Multistream.Complete.{Complete}
use vllm_ascend_origin.Multistream.Starts.{starts_of, split_start_loc-starts_of}

pub record IsMax (xs : List ℕ) (m : ℕ) : Type 0 where
  pub member : elem m xs ≡ true
  pub bound : (x : ℕ) → elem x xs ≡ true → x ≤ m

-- The prefills `p`, cut behind `n` of them: the parts `x` and `y` of halves with these sequence
-- lengths, where the first half begins with `d` decodes.
pub record PrefillHalves (d n : ℕ) (p x y : AscendMlaPrefillMetadata) (pre post : List ℕ)
    : Type 0 where
  pub first_queries : x.query_lens ≡ take n p.query_lens
  pub second_queries : y.query_lens ≡ drop n p.query_lens
  pub first_positions : x.input_positions ≡ take (sum x.query_lens) p.input_positions
  pub second_positions : y.input_positions ≡ drop (sum x.query_lens) p.input_positions
  pub first_tables : x.block_table ≡ take n p.block_table
  pub second_tables : y.block_table ≡ drop n p.block_table
  pub first_starts : x.query_start_loc ≡ starts_of 0 x.query_lens
  pub second_starts : y.query_start_loc ≡ starts_of 0 y.query_lens
  pub first_lens : x.seq_lens ≡ pre
  pub second_lens : y.seq_lens ≡ post
  pub first_context : x.context_lens ≡ drop d pre
  pub second_context : y.context_lens ≡ post
  pub first_query_max : IsMax x.query_lens x.max_query_len
  pub second_query_max : IsMax y.query_lens y.max_query_len
  pub first_seq_max : IsMax x.context_lens x.max_seq_lens
  pub second_seq_max : IsMax y.context_lens y.max_seq_lens

-- The decodes `d`, cut behind `n` sequences with `t` tokens.
pub record DecodeHalves (n t : ℕ) (d x y : AscendMlaDecodeMetadata) (pre post : List ℕ)
    : Type 0 where
  pub first_positions : x.input_positions ≡ take t d.input_positions
  pub second_positions : y.input_positions ≡ drop t d.input_positions
  pub first_tables : x.block_table ≡ take n d.block_table
  pub second_tables : y.block_table ≡ drop n d.block_table
  pub first_lens : (x.seq_lens ≡ pre) × (x.seq_lens_list ≡ pre)
  pub second_lens : (y.seq_lens ≡ post) × (y.seq_lens_list ≡ post)
  pub first_max : IsMax pre x.max_seq_lens
  pub second_max : IsMax post y.max_seq_lens

-- A split behind the decodes cuts the prefills, and the first half keeps the decodes; one among the
-- decodes cuts these, and the second half keeps the prefills.
pub PartsOf : ℕ → List ℕ → AscendMlaMetadata → List ℕ → List ℕ → Parts × Parts → Type 0
PartsOf k q m pre post r =
    ((m.num_decodes < k)
      × ((p : AscendMlaPrefillMetadata) × (m.prefill ≡ some p)
          × ((x : AscendMlaPrefillMetadata) × (r.0.prefill ≡ some x)
              × ((y : AscendMlaPrefillMetadata) × (r.1.prefill ≡ some y)
                  × (r.0.decode ≡ m.decode)
                  × (r.1.decode ≡ none)
                  × PrefillHalves m.num_decodes (k - m.num_decodes) p x y pre post))))
    ⊎ ((k ≤ m.num_decodes)
        × ((d : AscendMlaDecodeMetadata) × (m.decode ≡ some d)
            × ((x : AscendMlaDecodeMetadata) × (r.0.decode ≡ some x)
                × ((y : AscendMlaDecodeMetadata) × (r.1.decode ≡ some y)
                    × (r.0.prefill ≡ none)
                    × (r.1.prefill ≡ m.prefill)
                    × DecodeHalves k (sum (take k q)) d x y pre post))))

max_of-IsMax : (xs : List ℕ) → Ensures (IsMax xs) (max_of xs)
unfolding max_of
max_of-IsMax [] = tt
max_of-IsMax (x ∷ []) = record { member = ground arith; bound = λ y h. ground arith }
max_of-IsMax (x ∷ y ∷ xs) =
    Ensures-bind (IsMax (y ∷ xs)) _ (max_of (y ∷ xs)) _ (max_of-IsMax (y ∷ xs))
      λ m h. record { member = ground (arith, h.member); bound = λ z e. ground (arith, h.bound z) }

tensor_max-IsMax : (xs : List ℕ) → Ensures (IsMax xs) (tensor_max xs)
unfolding tensor_max
tensor_max-IsMax [] = tt
tensor_max-IsMax (x ∷ xs) = max_of-IsMax (x ∷ xs)

sum-take_nil : (k : ℕ) → sum (take k []) ≡ 0
sum-take_nil zero = refl
sum-take_nil (suc k) = refl

sum-take-drop :
    (d k : ℕ) (q : List ℕ) → d ≤ k → sum (take k q) ≡ sum (take d q) + sum (take (k - d) (drop d q))
sum-take-drop zero k q h =
    let same : k ≡ k - 0 = omega arith in ap (λ j. sum (take j q)) same ∙ omega arith
sum-take-drop (suc d) zero q h = absurd (omega (arith, h))
sum-take-drop (suc d) (suc k) [] h = omega (arith, sum-take_nil (suc k - suc d))
sum-take-drop (suc d) (suc k) (n ∷ q) h =
    let same : k - d ≡ suc k - suc d = omega arith in
    omega (arith, sum-take-drop d k q (omega (arith, h)), ap (λ j. sum (take j (drop d q))) same)

-- Where the prefills are cut.
tokens-queries :
    (q : List ℕ) (m : AscendMlaMetadata) (i : SplitIndex) (p : AscendMlaPrefillMetadata)
    → Complete q m
    → AtSequence q i
    → p.query_lens ≡ drop m.num_decodes q
    → m.num_decodes ≤ i.seq_index
    → offset_index p.input_positions i.token_index m.num_decode_tokens
      ≡ sum (take (i.seq_index - m.num_decodes) p.query_lens)
unfolding offset_index
tokens-queries q m i p c s e le =
    let total = sum-take-drop m.num_decodes i.seq_index q le in
    let queries : sum (take (i.seq_index - m.num_decodes) p.query_lens)
        ≡ sum (take (i.seq_index - m.num_decodes) (drop m.num_decodes q)) =
      ap (λ xs. sum (take (i.seq_index - m.num_decodes) xs)) e in
    ground (arith, total, queries, c.decode_tokens, s.tokens)

split_prefill-PartsOf :
    (q : List ℕ) (m : AscendMlaMetadata) (i : SplitIndex) (p : AscendMlaPrefillMetadata)
    (masks : Masked × Masked) (pre post : List ℕ)
    → Complete q m
    → AtSequence q i
    → m.prefill ≡ some p
    → p.query_lens ≡ drop m.num_decodes q
    → p.query_start_loc ≡ starts_of 0 p.query_lens
    → m.num_decodes < i.seq_index
    → i.seq_index < length q
    → Ensures (PartsOf i.seq_index q m pre post) (split_prefill m p i masks (pre, post))
unfolding split_prefill split_attn_tensor_type PartsOf
split_prefill-PartsOf q m i p masks pre post c s found e loc lt le =
    let n = i.seq_index - m.num_decodes in
    let within : n ≤ length p.query_lens =
      omega (arith, ap length e, length-drop m.num_decodes q, le) in
    let cut = tokens-queries q m i p c s e (omega (arith, lt)) in
    let starts =
      ap (λ l. split_start_loc l n) loc ∙ split_start_loc-starts_of n p.query_lens within in
    rw starts (
      Ensures-bind (IsMax (take n p.query_lens)) _ (max_of (take n p.query_lens)) _ (max_of-IsMax _)
        λ a ha.
          Ensures-bind (IsMax (drop n p.query_lens)) _ (max_of (drop n p.query_lens)) _
            (max_of-IsMax _)
            λ b hb.
              Ensures-bind (IsMax (drop m.num_decodes pre)) _ (tensor_max (drop m.num_decodes pre))
                _ (tensor_max-IsMax _)
                λ f hf. Ensures-bind (IsMax post) _ (tensor_max post) _ (tensor_max-IsMax _) λ g hg.
                  inl (
                    lt,
                    (
                      p,
                      found,
                      (
                        _,
                        refl,
                        (
                          _,
                          refl,
                          refl,
                          refl,
                          record {
                            first_queries = refl;
                            second_queries = refl;
                            first_positions = ap (λ t. take t p.input_positions) cut;
                            second_positions = ap (λ t. drop t p.input_positions) cut;
                            first_tables = refl;
                            second_tables = refl;
                            first_starts = refl;
                            second_starts = refl;
                            first_lens = refl;
                            second_lens = refl;
                            first_context = refl;
                            second_context = refl;
                            first_query_max = ha;
                            second_query_max = hb;
                            first_seq_max = hf;
                            second_seq_max = hg;
                          },
                        ),
                      ),
                    ),
                  ))

split_decode-PartsOf :
    (q : List ℕ) (m : AscendMlaMetadata) (i : SplitIndex) (d : AscendMlaDecodeMetadata)
    (lens : List ℕ)
    → AtSequence q i
    → m.decode ≡ some d
    → i.seq_index ≤ m.num_decodes
    → Ensures
        (PartsOf i.seq_index q m (take i.seq_index lens) (drop i.seq_index lens))
        (split_decode m d i lens)
unfolding split_decode decode_half split_attn_tensor_type PartsOf
split_decode-PartsOf q m i d lens s found le =
    let pre = take i.seq_index lens in
    let post = drop i.seq_index lens in
    Ensures-bind
      (λ (x : AscendMlaDecodeMetadata).
        (x.input_positions ≡ take i.token_index d.input_positions)
        × (x.block_table ≡ take i.seq_index d.block_table)
        × ((x.seq_lens ≡ pre) × (x.seq_lens_list ≡ pre))
        × IsMax pre x.max_seq_lens)
      _ (decode_half _ _ pre) _
      (Ensures-bind (IsMax pre) _ (max_of pre) _ (max_of-IsMax pre)
        λ a h. (refl, refl, (refl, refl), h))
      λ x hx.
        Ensures-bind
          (λ (y : AscendMlaDecodeMetadata).
            (y.input_positions ≡ drop i.token_index d.input_positions)
            × (y.block_table ≡ drop i.seq_index d.block_table)
            × ((y.seq_lens ≡ post) × (y.seq_lens_list ≡ post))
            × IsMax post y.max_seq_lens)
          _ (decode_half _ _ post) _
          (Ensures-bind (IsMax post) _ (max_of post) _ (max_of-IsMax post)
            λ a h. (refl, refl, (refl, refl), h))
          λ y hy. inr (
            le,
            (
              d,
              found,
              (
                x,
                refl,
                (
                  y,
                  refl,
                  refl,
                  refl,
                  record {
                    first_positions = hx.0 ∙ ap (λ t. take t d.input_positions) s.tokens;
                    second_positions = hy.0 ∙ ap (λ t. drop t d.input_positions) s.tokens;
                    first_tables = hx.1;
                    second_tables = hy.1;
                    first_lens = hx.2;
                    second_lens = hy.2;
                    first_max = hx.3;
                    second_max = hy.3;
                  },
                ),
              ),
            ),
          )

pub split_parts-PartsOf :
    (q : List ℕ) (m : AscendMlaMetadata) (i : SplitIndex) (masks : Masked × Masked) (lens : List ℕ)
    → Complete q m
    → AtSequence q i
    → i.seq_index < length q
    → Ensures
        (PartsOf i.seq_index q m (take i.seq_index lens) (drop i.seq_index lens))
        (split_parts m i (min m.num_prefills (i.seq_index - m.num_decodes)) masks lens)
unfolding split_parts split_attn_tensor_type
split_parts-PartsOf q m i masks lens c s lt =
    let n = min m.num_prefills (i.seq_index - m.num_decodes) in
    let Goal : Parts × Parts → Type 0 =
      PartsOf i.seq_index q m (take i.seq_index lens) (drop i.seq_index lens) in
    Ensures-if Goal (ltb 0 n) _ _
      (λ t.
        let behind : m.num_decodes < i.seq_index = omega (arith, ltb→lt 0 n t) in
        let (p, found, queries, loc) = c.prefill (omega (arith, ltb→lt 0 n t)) in
        Ensures-bind (λ x. m.prefill ≡ some x) Goal (or_fail m.prefill attribute_error) _
          (found_eq m.prefill)
          λ x e.
            subst
              (λ x'.
                Ensures Goal
                  (split_prefill m x' i masks (take i.seq_index lens, drop i.seq_index lens)))
              (some_eq p x (sym found ∙ e))
              (split_prefill-PartsOf q m i p masks (take i.seq_index lens) (drop i.seq_index lens) c
                s found queries loc behind lt))
      (λ f.
        let among : i.seq_index ≤ m.num_decodes = omega (arith, not-ltb→le 0 n f, c.counts, lt) in
        Ensures-bind (λ d. m.decode ≡ some d) Goal (or_fail m.decode attribute_error) _
          (found_eq m.decode) λ d e. split_decode-PartsOf q m i d lens s e among)
  where
    found_eq : {A : Type 0} (o : Option A) → Ensures (λ x. o ≡ some x) (or_fail o attribute_error)
    found_eq none = tt
    found_eq (some x) = refl

    some_eq : {A : Type 0} (a b : A) → Option.some a ≡ some b → a ≡ b
    some_eq a b e = ap (λ o. elim o [ none ↦ a | some x ↦ x ]) e
