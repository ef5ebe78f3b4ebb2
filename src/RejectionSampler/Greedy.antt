-- ===== src/RejectionSampler/Greedy.antt =====
-- vllm_ascend/sample/rejection_sampler.py, rejection_greedy_sample_spec_len_1_pytorch: the special
-- case is the general rule.
use vllm_ascend_origin.Prelude.{
  ℕ, ◌≡◌, refl, inl, inr, Bool-cases, not, none, List, [], ◌∷◌, ◌==◌, ==_self, length, arith,
}
use vllm_ascend_origin.Prelude.Result.{ok}
use vllm_ascend_origin.RejectionSampler.{Row, greedy_rows, rejection_greedy_sample_spec_len_1}
use vllm_ascend_origin.RejectionSampler.Emitted.{emitted, overlay}

-- Greedy sampling of one draft for each request, as the general rule has it: the target's token,
-- and the bonus if the draft is that token.
abbrev pub one_draft_rows : List ℕ → List ℕ → List ℕ → List Row
one_draft_rows (d ∷ drafts) (t ∷ targets) (bonus ∷ bonuses) =
    overlay (emitted ((t, not (d == t)) ∷ []) bonus) (none ∷ none ∷ [])
    ∷ one_draft_rows drafts targets bonuses
one_draft_rows drafts targets bonuses = []

greedy_rows-one_draft :
    (drafts targets bonuses : List ℕ)
    → length targets ≡ length drafts
    → length bonuses ≡ length drafts
    → greedy_rows drafts targets bonuses ≡ ok (one_draft_rows drafts targets bonuses)
unfolding greedy_rows
greedy_rows-one_draft [] [] [] h k = refl
greedy_rows-one_draft [] [] (bonus ∷ bonuses) h k = absurd (omega (arith, k))
greedy_rows-one_draft [] (t ∷ targets) bonuses h k = absurd (omega (arith, h))
greedy_rows-one_draft (d ∷ drafts) [] bonuses h k = absurd (omega (arith, h))
greedy_rows-one_draft (d ∷ drafts) (t ∷ targets) [] h k = absurd (omega (arith, k))
greedy_rows-one_draft (d ∷ drafts) (t ∷ targets) (bonus ∷ bonuses) h k =
    let rest = greedy_rows-one_draft drafts targets bonuses (omega (arith, h)) (omega (arith, k)) in
    elim (Bool-cases (d == t)) [ inl e ↦ rw (rest, e) | inr e ↦ rw (rest, e) ]

-- For as many target tokens and bonus tokens as draft tokens, the greedy sampling of one draft for
-- each of these requests raises no error, and its rows are those of the general rule: the tokens up
-- to the first rejection and the bonus if there is none, over placeholders.
pub rejection_greedy_sample_spec_len_1-one_draft :
    (drafts targets bonuses : List ℕ)
    → length targets ≡ length drafts
    → length bonuses ≡ length drafts
    → rejection_greedy_sample_spec_len_1 (length drafts) drafts targets bonuses
      ≡ ok (one_draft_rows drafts targets bonuses)
unfolding rejection_greedy_sample_spec_len_1
rejection_greedy_sample_spec_len_1-one_draft drafts targets bonuses h k =
    rw (==_self (length drafts), greedy_rows-one_draft drafts targets bonuses h k)
