-- ===== src/InputBatch/Tests.antt =====
-- Runs of the input batch's model on small inputs.
use vllm_ascend_origin.Prelude.Arrays.{set_at, get_at}
use vllm_ascend_origin.Prelude.{
  ℕ, suc, ◌≡◌, refl, false, none, some, [], ◌∷◌, length, arith, ◌==◌, lookup, insert, erase, count,
  get_elem?, elem, ◌≢◌, zero, if◌then◌else◌, ap, ◌∙◌,
}
use vllm_ascend_origin.InputBatch.Sample.{
  simple, simple-BuilderLaws, simple-HoleLaws, simple-TableLaws, simple-SwapLaws,
}
use vllm_ascend_origin.InputBatch.View.{view, IsIndexed}
use vllm_ascend_origin.InputBatch.Dense.{Awaiting, Condensed, condense-Condensed}
use vllm_ascend_origin.InputBatch.Exchange.{swap_states-view}
use vllm_ascend_origin.InputBatch.Vacate.{remove_request-view}
use vllm_ascend_origin.InputBatch.Cleared.{Appends}
use vllm_ascend_origin.Prelude.Int.{pos}
use vllm_ascend_origin.Prelude.Result.{ok, Returns, Ensures, Ensures-ok}
use vllm_ascend_origin.InputBatch.State.{InputBatch, num_reqs}
use vllm_ascend_origin.InputBatch.Moves.{
  remove_request, note_removed, clear_slot, remove_lora, forget, swap_states, swap_at, swap_indices,
  swap_arrays, swap_maps,
}
use vllm_ascend_origin.InputBatch.Condense.{condense}
use vllm_ascend_origin.InputBatch.Holes.{Fails, condense-Fails}
use vllm_ascend_origin.InputBatch.Removal.{Forgotten, remove_request-Forgotten}
use vllm_ascend_origin.InputBatch.Swap.{Exchanged, swap_states-Exchanged}

-- The requests 7 and 8 in the rows 0 and 1; both have a row in the mask.
abbrev two : InputBatch simple
two = record {
  is_pooling_model = false;
  is_spec_decode = false;
  max_num_reqs = 4;
  max_model_len = 16;
  vocab_size = 5;
  req_ids = some 7 ∷ some 8 ∷ [];
  req_id_to_index = (7, 0) ∷ (8, 1) ∷ [];
  token_ids_cpu = λ i j. i;
  num_tokens = λ i. suc i;
  num_tokens_no_spec = λ i. suc i;
  num_prompt_tokens = λ i. suc i;
  num_computed_tokens_cpu = λ i. 0;
  block_table = λ i. (i ∷ []) ∷ [];
  temperature_cpu = λ i. 10;
  greedy_reqs = 7 ∷ [];
  random_reqs = 8 ∷ [];
  top_p_cpu = λ i. 10;
  top_p_reqs = [];
  top_k_cpu = λ i. pos 5;
  top_k_reqs = 7 ∷ 8 ∷ [];
  spec_decode_unsupported_reqs = [];
  frequency_penalties_cpu = λ i. 0;
  frequency_penalties_reqs = [];
  presence_penalties_cpu = λ i. 0;
  presence_penalties_reqs = [];
  repetition_penalties_cpu = λ i. 10;
  repetition_penalties_reqs = [];
  request_lora_mapping = λ i. 0;
  lora_id_to_request_ids = [];
  lora_id_to_lora_request = [];
  generators = (0, 5) ∷ [];
  num_logprobs = [];
  num_prompt_logprobs = [];
  in_progress_prompt_logprobs_cpu = [];
  batch_update_builder = [];
  has_allowed_token_ids = 7 ∷ 8 ∷ [];
  allowed_token_ids_mask = some (λ i j. j == i);
  bad_words_token_ids = (1, (2 ∷ []) ∷ []) ∷ [];
  logits_processing_needs_token_ids = λ i. false;
  req_output_token_ids = some [] ∷ some [] ∷ [];
  pooling_params = [];
}

-- The batches behind the removal of 7 and behind the swap of the two rows.
abbrev removed : InputBatch simple
removed = forget 7 0 (record two {
  req_ids = none ∷ some 8 ∷ [];
  req_output_token_ids = none ∷ some [] ∷ [];
  req_id_to_index = (8, 1) ∷ [];
  batch_update_builder = 0 ∷ [];
})

abbrev swapped : InputBatch simple
swapped = swap_maps 0 1 (
    swap_arrays 0 1
      (record two { req_ids = some 8 ∷ some 7 ∷ []; req_id_to_index = (7, 1) ∷ (8, 0) ∷ [] }))

remove_request-removed : remove_request 7 two ≡ ok (some 0, removed)
unfolding remove_request note_removed clear_slot remove_lora set_at lookup erase
remove_request-removed = refl

swap_states-swapped : swap_states 0 1 two ≡ ok swapped
unfolding swap_states swap_at swap_indices get_at set_at lookup insert
swap_states-swapped = refl

remove_request-Forgotten_example : Forgotten 7 0 removed
remove_request-Forgotten_example = remove_request-Forgotten 7 0 two removed remove_request-removed

swap_states-Exchanged_example : Exchanged 0 1 two swapped
swap_states-Exchanged_example =
    swap_states-Exchanged 0 1 two swapped (omega arith) swap_states-swapped

condense-Fails_example : Fails (condense removed)
condense-Fails_example = condense-Fails simple-BuilderLaws removed

two_owned :
    (id i : ℕ) → get_elem? two.req_ids i ≡ some (some id) → lookup id two.req_id_to_index ≡ some i
unfolding lookup
two_owned id zero h = ground (arith, h)
two_owned id (suc zero) h = ground (arith, h)
two_owned id (suc (suc i)) h = cc

two_filled : (i : ℕ) → elem i two.batch_update_builder ≡ false → get_elem? two.req_ids i ≢ some none
two_filled zero h g = cc
two_filled (suc zero) h g = cc
two_filled (suc (suc i)) h g = cc

two_bare :
    (i : ℕ)
    → get_elem? two.req_ids i ≡ some none
    → (lookup i two.generators ≡ none) × (lookup i two.bad_words_token_ids ≡ none)
two_bare zero h = cc
two_bare (suc zero) h = cc
two_bare (suc (suc i)) h = cc

two-IsIndexed : IsIndexed two
unfolding lookup
two-IsIndexed = record {
  unique = (refl, (refl, tt));
  indexed = λ id i h. ground (arith, h);
  owned = two_owned;
  outputs = refl;
  counted = refl;
  unique_generators = (refl, tt);
  unique_bad_words = (refl, tt);
  bare = two_bare;
}

two-Awaiting : Awaiting two
unfolding num_reqs
two-Awaiting = record {
  valid = two-IsIndexed;
  online = refl;
  holes = λ i h. cc;
  filled = two_filled;
  size = omega arith;
  once = λ k. omega arith;
}

-- The two requests have no row in a mask.
abbrev unmasked : InputBatch simple
unmasked = record two { has_allowed_token_ids = []; allowed_token_ids_mask = none }

unmasked-IsIndexed : IsIndexed unmasked
unmasked-IsIndexed = record {
  unique = two-IsIndexed.unique;
  indexed = two-IsIndexed.indexed;
  owned = two-IsIndexed.owned;
  outputs = two-IsIndexed.outputs;
  counted = two-IsIndexed.counted;
  unique_generators = two-IsIndexed.unique_generators;
  unique_bad_words = two-IsIndexed.unique_bad_words;
  bare = two_bare;
}

swap_states-view_example :
    Returns (λ c. IsIndexed c × ((q : ℕ) → view c q ≡ view unmasked q)) (swap_states 0 1 unmasked)
swap_states-view_example =
    swap_states-view simple-TableLaws simple-SwapLaws 0 1 7 8 unmasked (omega arith)
      unmasked-IsIndexed refl refl refl

simple_appends : Appends simple
simple_appends i u u' h =
    let e : u' ≡ i ∷ u = ground (arith, h) in
    (λ k. ap (count k) e ∙ ground arith, ap (λ xs. length xs) e ∙ omega arith)

remove_request-view_example :
    Ensures
      (λ r.
        (r.0 ≡ some 0)
        × Awaiting r.1
        × ((q : ℕ) → view r.1 q ≡ (if 7 == q then none else view two q)))
      (remove_request 7 two)
unfolding lookup
remove_request-view_example = remove_request-view simple_appends 7 0 two two-Awaiting refl

removed-Awaiting : Awaiting removed
removed-Awaiting =
    (Ensures-ok
      (λ r.
        (r.0 ≡ some 0)
        × Awaiting r.1
        × ((q : ℕ) → view r.1 q ≡ (if 7 == q then none else view two q)))
      (remove_request 7 two) (some 0, removed) remove_request-view_example remove_request-removed).1

condense-Condensed_example : Returns (Condensed removed) (condense removed)
condense-Condensed_example =
    condense-Condensed simple-TableLaws simple-HoleLaws removed removed-Awaiting
