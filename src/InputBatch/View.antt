-- ===== src/InputBatch/View.antt =====
-- vllm_ascend/worker/npu_input_batch.py, InputBatch, as a map from request ids to rows: the view in
-- which the place of a request in the batch is forgotten.
use vllm_ascend_origin.Prelude.Arrays.{occupied}
use vllm_ascend_origin.Prelude.{Bool, ◌==◌}
use vllm_ascend_origin.Prelude.{
  ℕ, ◌≡◌, Option, none, some, List, if◌then◌else◌, ltb, length, get_elem?, lookup, UniqueKeys,
}
use vllm_ascend_origin.Prelude.Int.{ℤ}
use vllm_ascend_origin.InputBatch.State.{Ext, InputBatch}

-- What the arrays, the block table and the dicts that are keyed by the index hold of one request. Only the first `num_tokens` token ids count.
pub record Row (E : Ext) : Type 0 where
  pub tokens : ℕ → Option ℕ
  pub num_tokens : ℕ
  pub num_tokens_no_spec : ℕ
  pub num_prompt_tokens : ℕ
  pub num_computed_tokens : ℕ
  pub temperature : E.Float
  pub top_p : E.Float
  pub top_k : ℤ
  pub frequency_penalty : E.Float
  pub presence_penalty : E.Float
  pub repetition_penalty : E.Float
  pub lora_id : ℕ
  pub block_row : E.BlockRow
  pub generator : Option E.Generator
  pub bad_words : Option (List (List ℕ))
  pub mask_row : Option (ℕ → Bool)

-- Where the entry of an index stands behind a swap.
abbrev pub transpose : ℕ → ℕ → ℕ → ℕ
transpose i j k = if j == k then i else (if i == k then j else k)

abbrev pub prefix_of : ℕ → (ℕ → ℕ) → ℕ → Option ℕ
prefix_of n row j = if ltb j n then some (row j) else none

-- The row of the mask of allowed tokens, if there is a mask.
abbrev pub mask_row_at : Option (ℕ → ℕ → Bool) → ℕ → Option (ℕ → Bool)
mask_row_at none i = none
mask_row_at (some mask) i = some (mask i)

module _ {E : Ext} where
  abbrev pub row_at : InputBatch E → ℕ → Row E
  row_at b i = record {
    tokens = prefix_of (b.num_tokens i) (b.token_ids_cpu i);
    num_tokens = b.num_tokens i;
    num_tokens_no_spec = b.num_tokens_no_spec i;
    num_prompt_tokens = b.num_prompt_tokens i;
    num_computed_tokens = b.num_computed_tokens_cpu i;
    temperature = b.temperature_cpu i;
    top_p = b.top_p_cpu i;
    top_k = b.top_k_cpu i;
    frequency_penalty = b.frequency_penalties_cpu i;
    presence_penalty = b.presence_penalties_cpu i;
    repetition_penalty = b.repetition_penalties_cpu i;
    lora_id = b.request_lora_mapping i;
    block_row = E.row_of b.block_table i;
    generator = lookup i b.generators;
    bad_words = lookup i b.bad_words_token_ids;
    mask_row = mask_row_at b.allowed_token_ids_mask i;
  }

  -- The row of a request, with the entry of its output tokens.
  abbrev pub entry_at : InputBatch E → ℕ → Row E × Option (Option (List ℕ))
  entry_at b i = (row_at b i, get_elem? b.req_output_token_ids i)

  abbrev pub view : InputBatch E → ℕ → Option (Row E × Option (Option (List ℕ)))
  view b id = elim (lookup id b.req_id_to_index) [ none ↦ none | some i ↦ some (entry_at b i) ]

module _ {E : Ext} (b c : InputBatch E) (q : ℕ) where
  -- A request that two batches know has the same view in both, where row and outputs are equal.
  pub view_eq :
      (i j : ℕ)
      → lookup q b.req_id_to_index ≡ some i
      → lookup q c.req_id_to_index ≡ some j
      → row_at c j ≡ row_at b i
      → get_elem? c.req_output_token_ids j ≡ get_elem? b.req_output_token_ids i
      → view c q ≡ view b q
  view_eq i j p r e o = rw (view, p, r) (λ k. some (e k, o k))

  pub view_eq_none :
      lookup q b.req_id_to_index ≡ none → lookup q c.req_id_to_index ≡ none → view c q ≡ view b q
  view_eq_none p r = rw (view, p, r)

-- The documented behaviour of the block table and of swap_dict_values on a dict.
pub record TableLaws (E : Ext) : Type 0 where
  pub moved :
      (i j k : ℕ) (t : E.BlockTable)
      → E.row_of (E.move_row i j t) k ≡ (if j == k then E.row_of t i else E.row_of t k)
  pub swapped :
      (i j k : ℕ) (t : E.BlockTable) → E.row_of (E.swap_row i j t) k ≡ E.row_of t (transpose i j k)

pub record SwapLaws (E : Ext) : Type 1 where
  pub swapped :
      {V : Type 0} (i j k : ℕ) (d : List (ℕ × V))
      → UniqueKeys d
      → lookup k (E.swap_dict_values i j d) ≡ lookup (transpose i j k) d
  pub unique :
      {V : Type 0} (i j : ℕ) (d : List (ℕ × V))
      → UniqueKeys d
      → UniqueKeys (E.swap_dict_values i j d)

-- The index map and the list of ids agree.
pub record IsIndexed {E : Ext} (b : InputBatch E) : Type 0 where
  pub unique : UniqueKeys b.req_id_to_index
  pub indexed :
      (id i : ℕ) → lookup id b.req_id_to_index ≡ some i → get_elem? b.req_ids i ≡ some (some id)
  pub owned :
      (id i : ℕ) → get_elem? b.req_ids i ≡ some (some id) → lookup id b.req_id_to_index ≡ some i
  pub outputs : length b.req_output_token_ids ≡ length b.req_ids
  pub counted : occupied b.req_ids ≡ length b.req_id_to_index
  -- A hole has no entry in the dicts that are keyed by the index.
  pub unique_generators : UniqueKeys b.generators
  pub unique_bad_words : UniqueKeys b.bad_words_token_ids
  pub bare :
      (i : ℕ)
      → get_elem? b.req_ids i ≡ some none
      → (lookup i b.generators ≡ none) × (lookup i b.bad_words_token_ids ≡ none)
