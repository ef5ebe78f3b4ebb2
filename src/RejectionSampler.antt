-- ===== src/RejectionSampler.antt =====
-- vllm_ascend/sample/rejection_sampler.py: the rejection sampling of draft tokens, as far as it is
-- written as loops: random sampling, the recovered tokens, the expansion to tokens, and the greedy case of
-- one draft token each. Tensors are lists, and floats a type with the operations that are used.
pub mod Emitted
pub mod Drawn
pub mod Rows
pub mod Greedy
pub mod Recovered
pub mod Expanded
mod Tests
use vllm_ascend_origin.Prelude.Arrays.{get_at, set_at}
use vllm_ascend_origin.Prelude.{
  ℕ, zero, suc, ◌+◌, ◌-◌, Bool, true, false, not, ◌&&◌, Option, none, some, List, [], ◌∷◌, ◌==◌,
  if◌then◌else◌, leb, length,
}
use vllm_ascend_origin.Prelude.Result.{
  Result, ok, err, ◌>>=◌, ◌>>◌, guard, assertion_error, runtime_error, negative_count,
}

-- A row of the output: PLACEHOLDER_TOKEN_ID is `none`.
abbrev pub Row : Type 0
Row = List (Option ℕ)

-- The first position of a request among the tokens of all requests.
unfoldable pub start_index : List ℕ → ℕ → Result ℕ
start_index cu_num_draft_tokens zero = ok 0
start_index cu_num_draft_tokens (suc req) = get_at cu_num_draft_tokens req

-- The operations on floats. `above` is >, `at_least` >=, `quotient` /,
-- `surplus` the maximum of 0 and the difference, and `argmax_ratio` the argmax of the quotients.
pub record Floats : Type 1 where
  pub Prob : Type 0
  pub one : Prob
  pub zero_prob : Prob
  pub above : Prob → Prob → Bool
  pub at_least : Prob → Prob → Bool
  pub quotient : Prob → Prob → Prob
  pub surplus : List Prob → List Prob → List Prob
  pub argmax_ratio : List Prob → List Prob → ℕ

-- The arguments that the loops share. Without `draft_probs` the drafts are n-grams.
pub record Drafts (F : Floats) : Type 0 where
  pub cu_num_draft_tokens : List ℕ
  pub draft_token_ids : List ℕ
  pub draft_probs : Option (List (List F.Prob))
  pub target_probs : List (List F.Prob)
  pub bonus_token_ids : List ℕ
  pub recovered_token_ids : List ℕ
  pub uniform_probs : List F.Prob
  pub is_greedy : List Bool

module _ {F : Floats} where
  unfoldable pub draft_prob : Drafts F → ℕ → ℕ → Result F.Prob
  draft_prob b i token = elim b.draft_probs [
    | none ↦ ok F.one
    | some probs ↦ get_at probs i >>= λ row. get_at row token
  ]

  -- The token for a position, and whether the draft was rejected.
  unfoldable pub sample_token : Drafts F → ℕ → Result (ℕ × Bool)
  sample_token b i = get_at b.draft_token_ids i >>= λ draft_token_id.
      draft_prob b i draft_token_id >>= λ p. get_at b.target_probs i >>= λ target_row.
      get_at target_row draft_token_id >>= λ q. get_at b.uniform_probs i >>= λ u.
      if F.above p F.zero_prob && F.at_least (F.quotient q p) u
      then ok (draft_token_id, false)
      else (get_at b.recovered_token_ids i >>= λ recovered. ok (recovered, true))

  -- The positions that are left of a request: after a rejection, none has an effect.
  unfoldable pub sample_positions : Drafts F → ℕ → ℕ → ℕ → Row → Result (Row × Bool)
  sample_positions b start pos zero row = ok (row, false)
  sample_positions b start pos (suc left) row = sample_token b (start + pos) >>= λ token.
      set_at row pos (some token.0) >>= λ row. elim token.1 [
        | true ↦ ok (row, true)
        | false ↦ sample_positions b start (suc pos) left row
      ]

  unfoldable pub add_bonus : Drafts F → ℕ → ℕ → Row × Bool → Result Row
  add_bonus b req num_draft_tokens (row, true) = ok row
  add_bonus b req num_draft_tokens (row, false) =
      get_at b.bonus_token_ids req >>= λ bonus. set_at row num_draft_tokens (some bonus)

  -- A cumulative count that falls is a fault of the model's own.
  unfoldable pub sample_request : Drafts F → ℕ → Row → Result Row
  sample_request b req row = start_index b.cu_num_draft_tokens req >>= λ start.
      get_at b.cu_num_draft_tokens req >>= λ end. guard (leb start end) negative_count >>= λ _.
      sample_positions b start 0 (end - start) row >>= add_bonus b req (end - start)

  unfoldable pub sample_row : Drafts F → ℕ → Row → Result Row
  sample_row b req row =
      get_at b.is_greedy req >>= λ greedy. if greedy then ok row else sample_request b req row

  -- The loop over the requests, from `req` on.
  unfoldable pub rejection_random_sample : Drafts F → ℕ → List Row → Result (List Row)
  rejection_random_sample b req [] = ok []
  rejection_random_sample b req (row ∷ rows) = sample_row b req row >>= λ row.
      rejection_random_sample b (suc req) rows >>= λ rows. ok (row ∷ rows)

  -- The probabilities to recover from: an n-gram draft's own is set to 0 for the time of the use. The
  -- output is written before the old value is put back; here after it, and neither reads the other.
  unfoldable pub recover_token :
      Drafts F → List F.Prob → ℕ → List (List F.Prob) → Result (ℕ × List (List F.Prob))
  recover_token b q i target_probs = elim b.draft_probs [
    | none ↦ get_at b.draft_token_ids i >>= λ draft_token_id. get_at target_probs i >>= λ row.
        get_at row draft_token_id >>= λ orig_prob.
        set_at row draft_token_id F.zero_prob >>= λ masked.
        set_at target_probs i masked >>= λ target_probs.
        set_at masked draft_token_id orig_prob >>= λ restored.
        set_at target_probs i restored >>= λ target_probs.
        ok (F.argmax_ratio masked q, target_probs)
    | some probs ↦ get_at probs i >>= λ draft_row. get_at target_probs i >>= λ target_row.
        ok (F.argmax_ratio (F.surplus target_row draft_row) q, target_probs)
  ]

  -- The positions of a request that are left, from the token `i` on.
  unfoldable pub recover_positions :
      Drafts F
      → List F.Prob
      → ℕ
      → ℕ
      → List ℕ × List (List F.Prob)
      → Result (List ℕ × List (List F.Prob))
  recover_positions b q i zero (output, target_probs) = ok (output, target_probs)
  recover_positions b q i (suc left) (output, target_probs) =
      recover_token b q i target_probs >>= λ found.
      set_at output i found.0 >>= λ output. recover_positions b q (suc i) left (output, found.1)

  -- The loop over the requests, from `req` on, with the random numbers of each: `q` has a row for
  -- each request.
  unfoldable pub sample_recovered_tokens :
      Drafts F
      → ℕ
      → List (List F.Prob)
      → List ℕ × List (List F.Prob)
      → Result (List ℕ × List (List F.Prob))
  sample_recovered_tokens b req [] out = ok out
  sample_recovered_tokens b req (q ∷ qs) out = start_index b.cu_num_draft_tokens req >>= λ start.
      get_at b.cu_num_draft_tokens req >>= λ end.
      recover_positions b q start (end - start) out >>= λ out.
      sample_recovered_tokens b (suc req) qs out

-- output[i : i + count] = value
unfoldable pub fill : {A : Type 0} → ℕ → ℕ → A → List A → Result (List A)
fill i zero value output = ok output
fill i (suc count) value output =
    set_at output i value >>= λ output. fill (suc i) count value output

-- expand_pytorch, from the request `req` on. `replace_from` is replaced by `replace_to`; a request has no
-- more than MAX_NUM_TOKENS tokens.
unfoldable pub expand : List ℕ → ℕ → ℕ → ℕ → ℕ → List ℕ → List ℕ → Result (List ℕ)
expand cu replace_from replace_to max_num_tokens req [] output = ok output
expand cu replace_from replace_to max_num_tokens req (x ∷ xs) output =
    start_index cu req >>= λ start. get_at cu req >>= λ end.
    fill start (if leb (end - start) max_num_tokens then end - start else max_num_tokens)
      (if x == replace_from then replace_to else x) output
    >>= λ output. expand cu replace_from replace_to max_num_tokens (suc req) xs output

-- Each request has one draft token: the target's own, and the bonus if the draft is that token.
unfoldable pub greedy_rows : List ℕ → List ℕ → List ℕ → Result (List Row)
greedy_rows [] [] [] = ok []
greedy_rows (d ∷ drafts) (t ∷ targets) (bonus ∷ bonuses) =
    greedy_rows drafts targets bonuses >>= λ rows.
    ok ((some t ∷ (if d == t then some bonus else none) ∷ []) ∷ rows)
greedy_rows drafts targets bonuses = err runtime_error

-- `batch_size` is the number of rows of the output, which is fresh.
unfoldable pub rejection_greedy_sample_spec_len_1 : ℕ → List ℕ → List ℕ → List ℕ → Result (List Row)
rejection_greedy_sample_spec_len_1 batch_size drafts targets bonuses =
    guard (batch_size == length drafts) assertion_error >>= λ _. greedy_rows drafts targets bonuses
