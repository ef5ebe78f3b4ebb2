-- ===== src/RejectionSampler/Drawn.antt =====
-- vllm_ascend/sample/rejection_sampler.py, rejection_random_sample_pytorch: which token stands for a
-- position, in words of the tensors.
use vllm_ascend_origin.Prelude.Arrays.{get_at}
use vllm_ascend_origin.Prelude.{
  ℕ, suc, ◌≡◌, refl, ◌⊎◌, inl, inr, Bool, true, false, ◌&&◌, none, some, List, [], ◌∷◌,
  Option-cases,
}
use vllm_ascend_origin.Prelude.Result.{
  ok, Ensures, Ensures-map, Ensures-bind, Ensures-eq, Ensures-if, Ensures-ok,
}
use vllm_ascend_origin.RejectionSampler.{Floats, Drafts, draft_prob, sample_token}
use vllm_ascend_origin.RejectionSampler.Emitted.{Sampled}

module _ {F : Floats} (b : Drafts F) where
  -- The draft's own probability of a token: 1 for an n-gram.
  abbrev pub DraftProb : ℕ → ℕ → F.Prob → Type 0
  DraftProb i token p =
      ((b.draft_probs ≡ none) × (p ≡ F.one))
      ⊎ ((probs : List (List F.Prob)) × (row : List F.Prob) × (b.draft_probs ≡ some probs)
          × (get_at probs i ≡ ok row)
          × (get_at row token ≡ ok p))

  -- The draft is accepted if its probability is positive and the target's, divided by it, is at
  -- least the uniform number. Else the recovered token stands for it, and it is rejected.
  pub record Draw (i : ℕ) (token : ℕ × Bool) : Type 0 where
    pub draft : ℕ
    pub p : F.Prob
    pub target_row : List F.Prob
    pub q : F.Prob
    pub u : F.Prob
    pub draft_of : get_at b.draft_token_ids i ≡ ok draft
    pub p_of : DraftProb i draft p
    pub row_of : get_at b.target_probs i ≡ ok target_row
    pub q_of : get_at target_row draft ≡ ok q
    pub u_of : get_at b.uniform_probs i ≡ ok u
    pub outcome :
        ((F.above p F.zero_prob && F.at_least (F.quotient q p) u ≡ true) × (token ≡ (draft, false)))
        ⊎ ((F.above p F.zero_prob && F.at_least (F.quotient q p) u ≡ false)
            × (recovered : ℕ) × (get_at b.recovered_token_ids i ≡ ok recovered)
            × (token ≡ (recovered, true)))

  abbrev pub Drawn : ℕ → List (ℕ × Bool) → Type 0
  Drawn i [] = Unit {0}
  Drawn i (token ∷ tokens) = Draw i token × Drawn (suc i) tokens

  draft_prob-DraftProb : (i token : ℕ) → Ensures (DraftProb i token) (draft_prob b i token)
  unfolding draft_prob
  draft_prob-DraftProb i token = elim (Option-cases b.draft_probs) [
    | inl e ↦ rw (draft_prob, e) (inl (refl, refl))
    | inr (probs, e) ↦
        rw (draft_prob, e)
          (Ensures-bind _ _ (get_at probs i) _ (Ensures-eq (get_at probs i)) λ row r.
            Ensures-map (λ p k. inr (probs, row, refl, r, k)) (get_at row token)
              (Ensures-eq (get_at row token)))
  ]

  sample_token-Draw : (i : ℕ) → Ensures (Draw i) (sample_token b i)
  unfolding sample_token
  sample_token-Draw i = Ensures-bind _ _ (get_at b.draft_token_ids i) _ (Ensures-eq _) λ d d_of.
      Ensures-bind _ _ (draft_prob b i d) _ (draft_prob-DraftProb i d) λ p p_of.
        Ensures-bind _ _ (get_at b.target_probs i) _ (Ensures-eq _) λ row row_of.
          Ensures-bind _ _ (get_at row d) _ (Ensures-eq _) λ q q_of.
            Ensures-bind _ _ (get_at b.uniform_probs i) _ (Ensures-eq _) λ u u_of.
              Ensures-if (Draw i) (F.above p F.zero_prob && F.at_least (F.quotient q p) u) _ _
                (λ e. record {
                  draft = d;
                  p = p;
                  target_row = row;
                  q = q;
                  u = u;
                  draft_of = d_of;
                  p_of = p_of;
                  row_of = row_of;
                  q_of = q_of;
                  u_of = u_of;
                  outcome = inl (e, refl);
                })
                (λ e. Ensures-bind _ _ (get_at b.recovered_token_ids i) _ (Ensures-eq _) λ r r_of.
                  record {
                    draft = d;
                    p = p;
                    target_row = row;
                    q = q;
                    u = u;
                    draft_of = d_of;
                    p_of = p_of;
                    row_of = row_of;
                    q_of = q_of;
                    u_of = u_of;
                    outcome = inr (e, r, r_of, refl);
                  })

  pub Sampled-Drawn : (i : ℕ) (tokens : List (ℕ × Bool)) → Sampled b i tokens → Drawn i tokens
  Sampled-Drawn i [] h = tt
  Sampled-Drawn i (token ∷ tokens) h = (
    Ensures-ok (Draw i) (sample_token b i) token (sample_token-Draw i) h.0,
    Sampled-Drawn (suc i) tokens h.1,
  )
