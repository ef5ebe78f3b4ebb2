-- ===== src/RejectionSampler/Emitted.antt =====
-- vllm_ascend/sample/rejection_sampler.py, rejection_random_sample_pytorch: the row of a request is
-- the accepted prefix of its drafts, and one token more.
use vllm_ascend_origin.Prelude.Arrays.{get_at, get_at-Returns, get_at-any}
use vllm_ascend_origin.Prelude.{
  ℕ, zero, suc, ◌+◌, ◌≤◌, ◌<◌, ◌≡◌, refl, ap, inl, inr, Bool, true, false, ◌&&◌, some, Option-cases,
  List, [], ◌∷◌, length, All, arith,
}
use vllm_ascend_origin.Prelude.Result.{ok, Returns, Returns-bind, Returns-ok, Returns-if}
use vllm_ascend_origin.RejectionSampler.{Row, Floats, Drafts, draft_prob, sample_token}

-- Tokens with their rejections: those up to the first rejection, and the bonus if there is none.
abbrev pub emitted : List (ℕ × Bool) → ℕ → List ℕ
emitted [] bonus = bonus ∷ []
emitted ((token, true) ∷ tokens) bonus = token ∷ []
emitted ((token, false) ∷ tokens) bonus = token ∷ emitted tokens bonus

-- A row whose first items are given, and the others as they were.
abbrev pub overlay : List ℕ → Row → Row
overlay [] row = row
overlay (x ∷ xs) [] = []
overlay (x ∷ xs) (r ∷ row) = some x ∷ overlay xs row

pub length-emitted :
    (tokens : List (ℕ × Bool)) (bonus : ℕ) → length (emitted tokens bonus) ≤ suc (length tokens)
length-emitted [] bonus = omega arith
length-emitted ((token, true) ∷ tokens) bonus = omega arith
length-emitted ((token, false) ∷ tokens) bonus = omega (arith, length-emitted tokens bonus)

-- The array shapes that rejection_sample asserts, and drafts within the vocabulary.
pub record Shaped {F : Floats} (b : Drafts F) (num_tokens vocab_size : ℕ) : Type 0 where
  pub tokens : length b.draft_token_ids ≡ num_tokens
  pub vocabulary : All (λ t. t < vocab_size) b.draft_token_ids
  pub draft_shape :
      (probs : List (List F.Prob))
      → b.draft_probs ≡ some probs
      → (length probs ≡ num_tokens) × All (λ row. length row ≡ vocab_size) probs
  pub targets : length b.target_probs ≡ num_tokens
  pub target_rows : All (λ row. length row ≡ vocab_size) b.target_probs
  pub uniforms : length b.uniform_probs ≡ num_tokens
  pub recovered : length b.recovered_token_ids ≡ num_tokens

-- What sample_token gives from a position on.
abbrev pub Sampled : {F : Floats} → Drafts F → ℕ → List (ℕ × Bool) → Type 0
Sampled b i [] = Unit
Sampled b i (token ∷ tokens) = (sample_token b i ≡ ok token) × Sampled b (suc i) tokens

module _ {F : Floats} (b : Drafts F) (num_tokens vocab_size : ℕ)
    (shaped : Shaped b num_tokens vocab_size) where
  draft_prob-Returns :
      (i token : ℕ)
      → i < num_tokens
      → token < vocab_size
      → Returns (λ _. Unit) (draft_prob b i token)
  unfolding draft_prob
  draft_prob-Returns i token h k = elim (Option-cases b.draft_probs) [
    | inl e ↦ rw (draft_prob, e) tt
    | inr (probs, e) ↦
        let (long, rows) = shaped.draft_shape probs e in
        rw (draft_prob, e)
          (Returns-bind (λ row. length row ≡ vocab_size) (λ _. Unit) (get_at probs i) _
            (get_at-Returns (λ row. length row ≡ vocab_size) probs i rows (omega (arith, h, long)))
            (λ row w. get_at-any row token (omega (arith, k, w))))
  ]

  sample_token-Returns : (i : ℕ) → i < num_tokens → Returns (λ _. Unit) (sample_token b i)
  unfolding sample_token
  sample_token-Returns i h =
      Returns-bind (λ t. t < vocab_size) (λ _. Unit) (get_at b.draft_token_ids i) _
        (get_at-Returns (λ t. t < vocab_size) b.draft_token_ids i shaped.vocabulary
          (omega (arith, h, shaped.tokens)))
        (λ d k.
          Returns-bind (λ _. Unit) (λ _. Unit) (draft_prob b i d) _ (draft_prob-Returns i d h k)
            (λ p u.
              Returns-bind (λ row. length row ≡ vocab_size) (λ _. Unit) (get_at b.target_probs i) _
                (get_at-Returns (λ row. length row ≡ vocab_size) b.target_probs i shaped.target_rows
                  (omega (arith, h, shaped.targets)))
                (λ row w.
                  Returns-bind (λ _. Unit) (λ _. Unit) (get_at row d) _
                    (get_at-any row d (omega (arith, k, w)))
                    (λ q u.
                      Returns-bind (λ _. Unit) (λ _. Unit) (get_at b.uniform_probs i) _
                        (get_at-any b.uniform_probs i (omega (arith, h, shaped.uniforms)))
                        (λ u v.
                          Returns-if (λ _. Unit)
                            (F.above p F.zero_prob && F.at_least (F.quotient q p) u) _ _ (λ e. tt)
                            (λ e.
                              Returns-bind (λ _. Unit) (λ _. Unit) (get_at b.recovered_token_ids i)
                                _
                                (get_at-any b.recovered_token_ids i
                                  (omega (arith, h, shaped.recovered)))
                                (λ r u. tt)))))))

  -- Every position of a request within the tokens has a token.
  pub tokens_from :
      (n i : ℕ)
      → i + n ≤ num_tokens
      → (tokens : List (ℕ × Bool)) × (length tokens ≡ n) × Sampled b i tokens
  tokens_from zero i h = ([], refl, tt)
  tokens_from (suc n) i h =
      let (token, e, u) =
        Returns-ok (λ _. Unit) (sample_token b i) (sample_token-Returns i (omega (arith, h))) in
      let (tokens, long, rest) = tokens_from n (suc i) (omega (arith, h)) in
      (token ∷ tokens, ap suc long, (e, rest))
