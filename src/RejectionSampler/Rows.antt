-- ===== src/RejectionSampler/Rows.antt =====
-- vllm_ascend/sample/rejection_sampler.py, rejection_random_sample_pytorch: the rows it writes.
use vllm_ascend_origin.Prelude.Arrays.{get_at, set_at-append}
use vllm_ascend_origin.Prelude.{
  ℕ, suc, ◌+◌, ◌-◌, ◌≤◌, ◌<◌, ◌≡◌, refl, sym, ap, ◌∙◌, ◌⊎◌, inl, inr, Bool, Bool-cases, true, false,
  some, List, [], ◌∷◌, ◌++◌, leb, length, length-append, arith,
}
use mathlib.Core.Path.{subst}
use mathlib.Core.List.{append_assoc}
use vllm_ascend_origin.Prelude.Result.{ok, ◌>>=◌}
use vllm_ascend_origin.RejectionSampler.{
  Row, start_index, Floats, Drafts, sample_positions, add_bonus, sample_request, sample_row,
  rejection_random_sample,
}
use vllm_ascend_origin.RejectionSampler.Drawn.{Drawn, Sampled-Drawn}
use vllm_ascend_origin.RejectionSampler.Emitted.{emitted, overlay, Shaped, Sampled, tokens_from}

module _ {F : Floats} (b : Drafts F) (req start bonus : ℕ)
    (bonus_of : get_at b.bonus_token_ids req ≡ ok bonus) where
  -- The positions that are left, and the bonus, from a row whose first positions are done.
  positions-emitted :
      (tokens : List (ℕ × Bool)) (n : ℕ) (done row : Row)
      → n ≡ length done + length tokens
      → length tokens < length row
      → Sampled b (start + length done) tokens
      → (sample_positions b start (length done) (length tokens) (done ++ row) >>= add_bonus b req n)
        ≡ ok (done ++ overlay (emitted tokens bonus) row)
  unfolding sample_positions add_bonus
  positions-emitted tokens n done [] size room h = absurd (omega (arith, room))
  positions-emitted [] n done (r ∷ row) size room h =
      let here : n ≡ length done = omega (arith, size) in
      rw (bonus_of, here, set_at-append done r (some bonus) row)
  positions-emitted ((token, true) ∷ tokens) n done (r ∷ row) size room h =
      rw (h.0, set_at-append done r (some token) row)
  positions-emitted ((token, false) ∷ tokens) n done (r ∷ row) size room h =
      let more : length (done ++ some token ∷ []) ≡ suc (length done) =
        omega (arith, length-append done (some token ∷ [])) in
      let next : suc (start + length done) ≡ start + length (done ++ some token ∷ []) =
        omega (arith, more) in
      let rest =
        positions-emitted tokens n (done ++ some token ∷ []) row (omega (arith, size, more))
          (omega (arith, room)) (subst (λ i. Sampled b i tokens) next h.1) in
      rw (h.0, set_at-append done r (some token) row)
        (rw
          (
            more,
            append_assoc done (some token ∷ []) row,
            append_assoc done (some token ∷ []) (overlay (emitted tokens bonus) row),
          )
          at rest)

-- The row of a request after the sampling: with the tokens that its drafts gave, one for each.
pub record Emits {F : Floats} (b : Drafts F) (req : ℕ) (row row' : Row) : Type 0 where
  pub start : ℕ
  pub tokens : List (ℕ × Bool)
  pub bonus : ℕ
  pub start_of : start_index b.cu_num_draft_tokens req ≡ ok start
  pub end_of : get_at b.cu_num_draft_tokens req ≡ ok (start + length tokens)
  pub drawn : Drawn b start tokens
  pub bonus_of : get_at b.bonus_token_ids req ≡ ok bonus
  pub row_is : row' ≡ overlay (emitted tokens bonus) row

-- The entries of a request: the cumulative counts do not fall and stay within the tokens, and the
-- row has room for the drafts and the bonus.
pub record Request {F : Floats} (b : Drafts F) (num_tokens req : ℕ) (row : Row) : Type 0 where
  pub greedy : Bool
  pub start : ℕ
  pub count : ℕ
  pub bonus : ℕ
  pub greedy_of : get_at b.is_greedy req ≡ ok greedy
  pub start_of : start_index b.cu_num_draft_tokens req ≡ ok start
  pub end_of : get_at b.cu_num_draft_tokens req ≡ ok (start + count)
  pub within : start + count ≤ num_tokens
  pub bonus_of : get_at b.bonus_token_ids req ≡ ok bonus
  pub room : count < length row

sample_request-Emits :
    {F : Floats} (b : Drafts F) (num_tokens vocab_size req : ℕ) (row : Row)
    → Shaped b num_tokens vocab_size
    → Request b num_tokens req row
    → (row' : Row) × (sample_request b req row ≡ ok row') × Emits b req row row'
unfolding sample_request
sample_request-Emits b num_tokens vocab_size req row shaped h =
    let (tokens, long, sampled) =
      tokens_from b num_tokens vocab_size shaped h.count h.start h.within in
    let at_start : Sampled b (h.start + 0) tokens =
      subst (λ i. Sampled b i tokens) (omega arith) sampled in
    let rising : leb h.start (h.start + h.count) ≡ true = ground arith in
    let size : h.start + h.count - h.start ≡ length tokens = omega (arith, long) in
    let done =
      positions-emitted b req h.start h.bonus h.bonus_of tokens (length tokens) [] row (omega arith)
        (omega (arith, long, h.room)) at_start in
    (
      overlay (emitted tokens h.bonus) row,
      rw (h.start_of, h.end_of, rising, size) done,
      record {
        start = h.start;
        tokens = tokens;
        bonus = h.bonus;
        start_of = h.start_of;
        end_of = h.end_of ∙ ap (λ n. ok (h.start + n)) (sym long);
        drawn = Sampled-Drawn b h.start tokens sampled;
        bonus_of = h.bonus_of;
        row_is = refl;
      },
    )

-- What the sampling makes of a row: nothing for a greedy request.
abbrev pub RowSampled : {F : Floats} → Drafts F → ℕ → Row → Row → Type 0
RowSampled b req row row' =
    ((get_at b.is_greedy req ≡ ok true) × (row' ≡ row))
    ⊎ ((get_at b.is_greedy req ≡ ok false) × Emits b req row row')

abbrev pub AllRequests : {F : Floats} → Drafts F → ℕ → ℕ → List Row → Type 0
AllRequests b num_tokens req [] = Unit
AllRequests b num_tokens req (row ∷ rows) =
    Request b num_tokens req row × AllRequests b num_tokens (suc req) rows

abbrev pub RowsSampled : {F : Floats} → Drafts F → ℕ → List Row → List Row → Type 0
RowsSampled b req [] [] = Unit
RowsSampled b req [] (row' ∷ rows') = ⊥
RowsSampled b req (row ∷ rows) [] = ⊥
RowsSampled b req (row ∷ rows) (row' ∷ rows') =
    RowSampled b req row row' × RowsSampled b (suc req) rows rows'

sample_row-RowSampled :
    {F : Floats} (b : Drafts F) (num_tokens vocab_size req : ℕ) (row : Row)
    → Shaped b num_tokens vocab_size
    → Request b num_tokens req row
    → (row' : Row) × (sample_row b req row ≡ ok row') × RowSampled b req row row'
unfolding sample_row
sample_row-RowSampled b num_tokens vocab_size req row shaped h = elim (Bool-cases h.greedy) [
  | inl e ↦
      let greedy : get_at b.is_greedy req ≡ ok true = h.greedy_of ∙ ap (λ g. ok g) e in
      (row, rw greedy, inl (greedy, refl))
  | inr e ↦
      let random : get_at b.is_greedy req ≡ ok false = h.greedy_of ∙ ap (λ g. ok g) e in
      let (row', same, emits) = sample_request-Emits b num_tokens vocab_size req row shaped h in
      (row', rw random same, inr (random, emits))
]

rows_from :
    {F : Floats} (b : Drafts F) (num_tokens vocab_size req : ℕ) (rows : List Row)
    → Shaped b num_tokens vocab_size
    → AllRequests b num_tokens req rows
    → (rows' : List Row) × (rejection_random_sample b req rows ≡ ok rows')
      × RowsSampled b req rows rows'
unfolding rejection_random_sample
rows_from b num_tokens vocab_size req [] shaped h = ([], refl, tt)
rows_from b num_tokens vocab_size req (row ∷ rows) shaped h =
    let (row', e, now) = sample_row-RowSampled b num_tokens vocab_size req row shaped h.0 in
    let (rows', f, rest) = rows_from b num_tokens vocab_size (suc req) rows shaped h.1 in
    (row' ∷ rows', rw (e, f), (now, rest))

-- Let the arrays have the asserted shapes, the drafts lie in the vocabulary, the cumulative counts
-- not fall nor pass the number of tokens, and each row have room for its drafts and the bonus. Then
-- the random sampling raises no error. The row of a greedy request stays as it is. That of another
-- begins with the drafts accepted before the first rejection, then has the recovered token of the
-- rejection, or the bonus token if there is none, and is as before from there on.
pub rejection_random_sample-RowsSampled :
    {F : Floats} (b : Drafts F) (num_tokens vocab_size : ℕ) (rows : List Row)
    → Shaped b num_tokens vocab_size
    → AllRequests b num_tokens 0 rows
    → (rows' : List Row) × (rejection_random_sample b 0 rows ≡ ok rows')
      × RowsSampled b 0 rows rows'
rejection_random_sample-RowsSampled b num_tokens vocab_size rows shaped h =
    rows_from b num_tokens vocab_size 0 rows shaped h
