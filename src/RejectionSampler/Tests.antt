-- ===== src/RejectionSampler/Tests.antt =====
-- Runs of the rejection sampling on small inputs: probabilities in quarters.
use vllm_ascend_origin.Prelude.Arrays.{get_at, set_at}
use vllm_ascend_origin.Prelude.{
  ℕ, zero, suc, ◌*◌, ◌/◌, ◌-◌, ◌≡◌, refl, true, false, none, some, List, [], ◌∷◌, ltb, leb, arith,
}
use vllm_ascend_origin.Prelude.Result.{ok}
use vllm_ascend_origin.RejectionSampler.{
  Row, start_index, Floats, Drafts, draft_prob, sample_token, sample_positions, add_bonus,
  sample_request, sample_row, rejection_random_sample, expand,
}
use vllm_ascend_origin.RejectionSampler.Emitted.{Shaped}
use vllm_ascend_origin.RejectionSampler.Rows.{
  Request, RowsSampled, rejection_random_sample-RowsSampled,
}
use vllm_ascend_origin.RejectionSampler.Expanded.{expanded, expand-expanded}

abbrev differences : List ℕ → List ℕ → List ℕ
differences [] qs = []
differences (p ∷ ps) [] = []
differences (p ∷ ps) (q ∷ qs) = (p - q) ∷ differences ps qs

-- The argmax is the first place where the first list is not 0.
abbrev first_place : List ℕ → List ℕ → ℕ
first_place [] qs = 0
first_place (p ∷ ps) qs = elim p [ zero ↦ suc (first_place ps qs) | suc _ ↦ 0 ]

abbrev quarters : Floats
quarters = record {
  Prob = ℕ;
  one = 4;
  zero_prob = 0;
  above = λ p q. ltb q p;
  at_least = λ p q. leb q p;
  quotient = λ q p. q * 4 / p;
  surplus = differences;
  argmax_ratio = first_place;
}

-- Two drafts for the first request, of which the second is rejected, and one for the second, which
-- is greedy.
abbrev batch : Drafts quarters
batch = record {
  cu_num_draft_tokens = 2 ∷ 3 ∷ [];
  draft_token_ids = 0 ∷ 1 ∷ 1 ∷ [];
  draft_probs = none;
  target_probs = (3 ∷ 1 ∷ []) ∷ (4 ∷ 0 ∷ []) ∷ (2 ∷ 2 ∷ []) ∷ [];
  bonus_token_ids = 1 ∷ 0 ∷ [];
  recovered_token_ids = 1 ∷ 0 ∷ 0 ∷ [];
  uniform_probs = 2 ∷ 2 ∷ 2 ∷ [];
  is_greedy = false ∷ true ∷ [];
}

abbrev empty_row : Row
empty_row = none ∷ none ∷ none ∷ []

batch_run :
    rejection_random_sample batch 0 (empty_row ∷ empty_row ∷ [])
    ≡ ok ((some 0 ∷ some 0 ∷ none ∷ []) ∷ empty_row ∷ [])
unfolding rejection_random_sample sample_row sample_request sample_positions sample_token draft_prob
    add_bonus start_index get_at set_at
batch_run = refl

batch_shape : Shaped batch 3 2
batch_shape = record {
  tokens = refl;
  vocabulary = (omega arith, (omega arith, (omega arith, tt)));
  draft_shape = λ probs e. cc;
  targets = refl;
  target_rows = (refl, (refl, (refl, tt)));
  uniforms = refl;
  recovered = refl;
}

request_0 : Request batch 3 0 empty_row
unfolding start_index get_at
request_0 = record {
  greedy = false;
  start = 0;
  count = 2;
  bonus = 1;
  greedy_of = refl;
  start_of = refl;
  end_of = refl;
  within = omega arith;
  bonus_of = refl;
  room = omega arith;
}

request_1 : Request batch 3 1 empty_row
unfolding start_index get_at
request_1 = record {
  greedy = true;
  start = 2;
  count = 1;
  bonus = 0;
  greedy_of = refl;
  start_of = refl;
  end_of = refl;
  within = omega arith;
  bonus_of = refl;
  room = omega arith;
}

rejection_random_sample-RowsSampled_example :
    (rows' : List Row) × (rejection_random_sample batch 0 (empty_row ∷ empty_row ∷ []) ≡ ok rows')
    × RowsSampled batch 0 (empty_row ∷ empty_row ∷ []) rows'
rejection_random_sample-RowsSampled_example =
    rejection_random_sample-RowsSampled batch 3 2 (empty_row ∷ empty_row ∷ []) batch_shape
      (request_0, (request_1, tt))

-- The docstring's example, [a, b, c] with the cumulative counts [2, 5, 6].
expand-expanded_example :
    expand (2 ∷ 5 ∷ 6 ∷ []) 0 1 32 0 (7 ∷ 0 ∷ 9 ∷ []) (0 ∷ 0 ∷ 0 ∷ 0 ∷ 0 ∷ 0 ∷ [])
    ≡ ok (expanded 0 1 (2 ∷ 3 ∷ 1 ∷ []) (7 ∷ 0 ∷ 9 ∷ []))
unfolding get_at
expand-expanded_example =
    expand-expanded (2 ∷ 5 ∷ 6 ∷ []) 0 1 32 (2 ∷ 3 ∷ 1 ∷ []) (7 ∷ 0 ∷ 9 ∷ [])
      (0 ∷ 0 ∷ 0 ∷ 0 ∷ 0 ∷ 0 ∷ []) refl (omega arith, (omega arith, (omega arith, tt)))
      (refl, (refl, (refl, tt))) refl
