-- ===== src/RejectionSampler/Recovered.antt =====
-- vllm_ascend/sample/rejection_sampler.py, sample_recovered_tokens_pytorch: the target probabilities
-- that are set to 0 for the time of a use are put back.
use vllm_ascend_origin.Prelude.Arrays.{get_at, set_at}
use vllm_ascend_origin.Prelude.{
  ℕ, zero, suc, ◌-◌, ◌≡◌, refl, ◌∙◌, inl, inr, Option-cases, List, [], ◌∷◌,
}
use vllm_ascend_origin.Prelude.Result.{
  ok, Ensures, Ensures-bind, Ensures-known, Ensures-ok, Ensures-map,
}
use vllm_ascend_origin.RejectionSampler.{
  Floats, Drafts, start_index, recover_token, recover_positions, sample_recovered_tokens,
}

-- Writing an item and then the old one leaves the list as it was.
set_at-restored :
    {A : Type 0} (xs : List A) (i : ℕ) (x y : A)
    → get_at xs i ≡ ok x
    → Ensures (λ ys. set_at ys i x ≡ ok xs) (set_at xs i y)
unfolding get_at set_at
set_at-restored [] i x y e = tt
set_at-restored (z ∷ xs) zero x y e = cc
set_at-restored (z ∷ xs) (suc i) x y e =
    Ensures-bind (λ ys. set_at ys i x ≡ ok xs) (λ ys. set_at ys (suc i) x ≡ ok (z ∷ xs))
      (set_at xs i y) _ (set_at-restored xs i x y e) (λ ys h. rw h)

-- The entry of a matrix is as it was.
written_back :
    {A : Type 0} (xs ys : List A) (i : ℕ) (x y : A)
    → get_at xs i ≡ ok x
    → set_at xs i y ≡ ok ys
    → set_at ys i x ≡ ok xs
written_back xs ys i x y e f =
    Ensures-ok (λ ys. set_at ys i x ≡ ok xs) (set_at xs i y) ys (set_at-restored xs i x y e) f

module _ {F : Floats} (b : Drafts F) where
  recover_token-restored :
      (q : List F.Prob) (i : ℕ) (target_probs : List (List F.Prob))
      → Ensures (λ out. out.1 ≡ target_probs) (recover_token b q i target_probs)
  unfolding recover_token
  recover_token-restored q i target_probs = elim (Option-cases b.draft_probs) [
    | inl e ↦
        rw (recover_token, e)
          (Ensures-known (λ out. out.1 ≡ target_probs) (get_at b.draft_token_ids i) _
            (λ d drafted.
              Ensures-known (λ out. out.1 ≡ target_probs) (get_at target_probs i) _
                (λ row got.
                  Ensures-known (λ out. out.1 ≡ target_probs) (get_at row d) _
                    (λ orig_prob had.
                      Ensures-known (λ out. out.1 ≡ target_probs) (set_at row d F.zero_prob) _
                        (λ masked m.
                          Ensures-known (λ out. out.1 ≡ target_probs) (set_at target_probs i masked)
                            _
                            (λ with_mask w.
                              rw (written_back row masked d orig_prob F.zero_prob had m) (
                                rw (written_back target_probs with_mask i row masked got w)
                                  refl)))))))
    | inr (probs, e) ↦
        rw (recover_token, e)
          (Ensures-known (λ out. out.1 ≡ target_probs) (get_at probs i) _
            (λ draft_row d.
              Ensures-known (λ out. out.1 ≡ target_probs) (get_at target_probs i) _
                (λ target_row t. refl)))
  ]

  recover_positions-restored :
      (q : List F.Prob) (i left : ℕ) (output : List ℕ) (target_probs : List (List F.Prob))
      → Ensures (λ out. out.1 ≡ target_probs) (recover_positions b q i left (output, target_probs))
  unfolding recover_positions
  recover_positions-restored q i zero output target_probs = refl
  recover_positions-restored q i (suc left) output target_probs =
      Ensures-bind (λ out. out.1 ≡ target_probs) (λ out. out.1 ≡ target_probs)
        (recover_token b q i target_probs) _ (recover_token-restored q i target_probs)
        (λ found same.
          Ensures-known (λ out. out.1 ≡ target_probs) (set_at output i found.0) _
            (λ output' w.
              Ensures-map (λ out h. h ∙ same)
                (recover_positions b q (suc i) left (output', found.1))
                (recover_positions-restored q (suc i) left output' found.1)))

  recovered_from :
      (req : ℕ) (qs : List (List F.Prob)) (output : List ℕ) (target_probs : List (List F.Prob))
      → Ensures
          (λ out. out.1 ≡ target_probs)
          (sample_recovered_tokens b req qs (output, target_probs))
  unfolding sample_recovered_tokens
  recovered_from req [] output target_probs = refl
  recovered_from req (q ∷ qs) output target_probs =
      Ensures-known (λ out. out.1 ≡ target_probs) (start_index b.cu_num_draft_tokens req) _
        (λ start s.
          Ensures-known (λ out. out.1 ≡ target_probs) (get_at b.cu_num_draft_tokens req) _
            (λ end e.
              Ensures-bind (λ out. out.1 ≡ target_probs) (λ out. out.1 ≡ target_probs)
                (recover_positions b q start (end - start) (output, target_probs)) _
                (recover_positions-restored q start (end - start) output target_probs)
                (λ out same.
                  Ensures-map (λ out' h. h ∙ same) (sample_recovered_tokens b (suc req) qs out)
                    (recovered_from (suc req) qs out.0 out.1))))

-- Where the loops that recover tokens return, over any requests, the target probabilities are as
-- they were before: the n-gram case, which sets entries of them to 0, has put all of them back.
pub sample_recovered_tokens-restored :
    {F : Floats} (b : Drafts F) (qs : List (List F.Prob)) (output : List ℕ)
    (target_probs : List (List F.Prob))
    → Ensures (λ out. out.1 ≡ target_probs) (sample_recovered_tokens b 0 qs (output, target_probs))
sample_recovered_tokens-restored b qs output target_probs =
    recovered_from b 0 qs output target_probs
