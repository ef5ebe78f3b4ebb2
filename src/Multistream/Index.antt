-- ===== src/Multistream/Index.antt =====
-- vllm_ascend/multistream/ms_split.py, compute_split_seq_index: a split stands between sequences.
use vllm_ascend_origin.Prelude.{
  ℕ, suc, ◌+◌, ◌/◌, ◌≤◌, ◌≡◌, ◌≢◌, refl, ap, ◌⊎◌, inl, inr, Bool, true, Bool-cases, some, List, [],
  ◌∷◌, leb, take, length, sum, arith,
}
use vllm_ascend_origin.Prelude.Result.{ok}
use vllm_ascend_origin.Multistream.{
  AscendAttentionState, prefill_no_cache, prefill_cache_hit, decode_only, chunked_prefill,
  spec_decoding, SplitIndex, no_split, distance, split_loop, compute_split_seq_index,
}

-- The split stands behind `seq_index` sequences, which have `token_index` tokens.
pub record AtSequence (q : List ℕ) (i : SplitIndex) : Type 0 where
  pub within : i.seq_index ≤ length q
  pub tokens : i.token_index ≡ sum (take i.seq_index q)

module _ (close : ℕ → ℕ → Bool) where
  -- ... of the sequences behind `index` others with `tokens` tokens
  record AtSequenceFrom (total tokens index : ℕ) (q : List ℕ) (i : SplitIndex) : Type 0 where
    behind : ℕ
    within : behind ≤ length q
    seq_index_eq : i.seq_index ≡ index + behind
    token_index_eq : i.token_index ≡ tokens + sum (take behind q)
    balanced : close (distance i.token_index (total / 2)) total ≡ true

  split_loop-AtSequenceFrom :
      (total tokens index : ℕ) (q : List ℕ)
      → (split_loop close total tokens index q ≡ no_split)
        ⊎ AtSequenceFrom total tokens index q (split_loop close total tokens index q)
  unfolding split_loop
  split_loop-AtSequenceFrom total tokens index [] = inl refl
  split_loop-AtSequenceFrom total tokens index (value ∷ q) =
      let rest = split_loop-AtSequenceFrom total (tokens + value) (suc index) q in
      elim (Bool-cases (leb (total / 2) (tokens + value))) [
        | inl t ↦ elim (Bool-cases (close (distance (tokens + value) (total / 2)) total)) [
          | inl c ↦
              rw (t, c)
                (inr (record {
                  behind = 1;
                  within = omega arith;
                  seq_index_eq = omega arith;
                  token_index_eq = omega arith;
                  balanced = c;
                }))
          | inr c ↦ elim (Bool-cases (close (distance tokens (total / 2)) total)) [
            | inl d ↦
                rw (t, c, d)
                  (inr (record {
                    behind = 0;
                    within = omega arith;
                    seq_index_eq = omega arith;
                    token_index_eq = omega arith;
                    balanced = d;
                  }))
            | inr d ↦ rw (t, c, d) (inl refl)
          ]
        ]
        | inr f ↦ rw f (elim rest [
          | inl e ↦ inl e
          | inr h ↦ inr (record {
            behind = suc h.behind;
            within = omega (arith, h.within);
            seq_index_eq = omega (arith, h.seq_index_eq);
            token_index_eq = omega (arith, h.token_index_eq);
            balanced = h.balanced;
          })
        ])
      ]

  -- A split of a batch that is not of decodes alone.
  pub Balanced : List ℕ → SplitIndex → Type 0
  Balanced q i = AtSequence q i × (close (distance i.token_index (sum q / 2)) (sum q) ≡ true)

  split_loop-Balanced :
      (q : List ℕ)
      → (split_loop close (sum q) 0 0 q ≡ no_split) ⊎ Balanced q (split_loop close (sum q) 0 0 q)
  unfolding Balanced
  split_loop-Balanced q = elim (split_loop-AtSequenceFrom (sum q) 0 0 q) [
    | inl e ↦ inl e
    | inr h ↦ inr (
      record {
        within = omega (arith, h.within, h.seq_index_eq);
        tokens =
            let e : h.behind ≡ (split_loop close (sum q) 0 0 q).seq_index =
              omega (arith, h.seq_index_eq) in
            omega (arith, h.token_index_eq, ap (λ k. sum (take k q)) e);
      },
      h.balanced,
    )
  ]

  pub split_loop-AtSequence : (q : List ℕ) → AtSequence q (split_loop close (sum q) 0 0 q)
  unfolding Balanced
  split_loop-AtSequence q = elim (split_loop-Balanced q) [
    | inl e ↦ rw e (record { within = omega arith; tokens = refl })
    | inr h ↦ h.0
  ]

  -- Unless the batch is of decodes alone, compute_split_seq_index returns [0, 0], or a number of
  -- whole sequences with the number of their tokens, which differs from half of all the tokens by
  -- less than the imbalance ratio of them.
  pub compute_split_seq_index-Balanced :
      (q : List ℕ) (attn_state : AscendAttentionState) (num_tokens : ℕ)
      → attn_state ≢ decode_only
      → (i : SplitIndex) × (compute_split_seq_index close (some q) attn_state num_tokens ≡ ok i)
        × ((i ≡ no_split) ⊎ Balanced q i)
  unfolding Balanced compute_split_seq_index
  compute_split_seq_index-Balanced q decode_only n ne = absurd (ne refl)
  compute_split_seq_index-Balanced q prefill_no_cache n ne = (_, refl, split_loop-Balanced q)
  compute_split_seq_index-Balanced q prefill_cache_hit n ne = (_, refl, split_loop-Balanced q)
  compute_split_seq_index-Balanced q chunked_prefill n ne = (_, refl, split_loop-Balanced q)
  compute_split_seq_index-Balanced q spec_decoding n ne = (_, refl, split_loop-Balanced q)
