-- ===== src/InputBatch/Requests.antt =====
-- vllm_ascend/worker/npu_input_batch.py, InputBatch: add_request and remove_request.
use vllm_ascend_origin.Prelude.Arrays.{set_at}
use vllm_ascend_origin.Prelude.{
  ℕ, ◌+◌, ◌-◌, Bool, true, false, not, ◌&&◌, none, some, List, [], ◌∷◌, ◌++◌, ◌==◌, if◌then◌else◌,
  ltb, leb, length, update, add, lookup, insert,
}
use vllm_ascend_origin.Prelude.Int.{ℤ, pos, negsuc}
use vllm_ascend_origin.Prelude.Result.{
  Result, ok, err, ◌>>=◌, ◌>>◌, guard, or_fail, assertion_error, index_error, value_error,
  not_implemented_error,
}
use vllm_ascend_origin.InputBatch.State.{
  Ext, SamplingParams, CachedRequestState, InputBatch, num_reqs,
}

-- `row[start : start + len(xs)] = xs`
unfoldable pub write_row : List ℕ → ℕ → (ℕ → ℕ) → ℕ → ℕ
write_row [] start row = row
write_row (x ∷ xs) start row = write_row xs (start + 1) (update row start x)

-- The slice ends with the row of `width`. A list that is longer than the slice is refused, but
-- one of a single element is broadcast, here over nothing.
unfoldable pub write_slice : List ℕ → ℕ → ℕ → (ℕ → ℕ) → Result (ℕ → ℕ)
write_slice xs start width row =
    if leb (length xs) (width - start)
    then ok (write_row xs start row)
    else (if length xs == 1 then ok row else err value_error)

abbrev pub add_if : Bool → ℕ → List ℕ → List ℕ
add_if c id s = if c then add id s else s

-- `0 < top_k < self.vocab_size`
unfoldable pub is_top_k : ℤ → ℕ → Bool
is_top_k (pos k) vocab_size = ltb 0 k && ltb k vocab_size
is_top_k (negsuc k) vocab_size = false

-- `self.vocab_size if sampling_params.logprobs == -1 else sampling_params.logprobs`
unfoldable pub count_logprobs : ℤ → ℕ → ℤ
count_logprobs (pos n) vocab_size = pos n
count_logprobs (negsuc n) vocab_size = if n == 0 then pos vocab_size else negsuc n

-- The row of the mask: true is filled with -inf, and an id beyond the vocabulary is refused.
unfoldable pub allow : List ℕ → ℕ → (ℕ → Bool) → Result (ℕ → Bool)
allow [] vocab_size row = ok row
allow (t ∷ ts) vocab_size row =
    let rest = allow ts vocab_size (update row t false) in
    if ltb t vocab_size then rest else err index_error

module _ {E : Ext} where
  unfoldable pub register_add_request :
      CachedRequestState E → InputBatch E → Result (ℕ × InputBatch E)
  register_add_request request b =
      let popped = E.pop_removed b.batch_update_builder in
      let index : ℕ = elim popped.0 [ none ↦ num_reqs b | some i ↦ i ] in
      or_fail request.sampling_params assertion_error
      >> guard (ltb index b.max_num_reqs) assertion_error
      >> ok (
        index,
        record b {
          batch_update_builder =
              E.added index request.prompt_token_ids request.output_token_ids popped.1;
        },
      )

  unfoldable pub new_index : CachedRequestState E → InputBatch E → Result (ℕ × InputBatch E)
  new_index request b =
      if b.is_pooling_model then ok (num_reqs b, b) else register_add_request request b

  unfoldable pub put_id : CachedRequestState E → ℕ → InputBatch E → Result (InputBatch E)
  put_id request i b =
      (if i == length b.req_ids
        then ok (record b {
          req_ids = b.req_ids ++ some request.req_id ∷ [];
          req_output_token_ids = b.req_output_token_ids ++ some request.output_token_ids ∷ [];
        })
        else (set_at b.req_ids i (some request.req_id) >>= λ ids.
            set_at b.req_output_token_ids i (some request.output_token_ids) >>= λ outputs.
            ok (record b { req_ids = ids; req_output_token_ids = outputs })))
      >>= λ b. ok (record b { req_id_to_index = insert request.req_id i b.req_id_to_index })

  unfoldable pub copy_tokens : CachedRequestState E → ℕ → InputBatch E → Result (InputBatch E)
  copy_tokens request i b =
      let prompt = length request.prompt_token_ids in
      let total = prompt + length request.output_token_ids in
      guard (ltb i b.max_num_reqs) index_error
      >> write_slice request.prompt_token_ids 0 b.max_model_len (b.token_ids_cpu i)
      >>= λ row. write_slice request.output_token_ids prompt b.max_model_len row >>= λ row.
          ok (record b {
            num_prompt_tokens = update b.num_prompt_tokens i prompt;
            token_ids_cpu = update b.token_ids_cpu i row;
            num_tokens = update b.num_tokens i total;
            num_tokens_no_spec = update b.num_tokens_no_spec i total;
            num_computed_tokens_cpu =
                update b.num_computed_tokens_cpu i request.num_computed_tokens;
            block_table = E.add_row request.block_ids i b.block_table;
          })

  unfoldable pub add_sampling : SamplingParams E → ℕ → ℕ → InputBatch E → InputBatch E
  add_sampling s id i b = record b {
    spec_decode_unsupported_reqs =
        add_if (b.is_spec_decode && s.spec_decode_unsupported) id b.spec_decode_unsupported_reqs;
    temperature_cpu = update b.temperature_cpu i (if s.greedy then E.minus_one else s.temperature);
    greedy_reqs = add_if s.greedy id b.greedy_reqs;
    random_reqs = add_if (not s.greedy) id b.random_reqs;
    top_p_cpu = update b.top_p_cpu i s.top_p;
    top_p_reqs = add_if (E.lt_one s.top_p) id b.top_p_reqs;
    top_k_reqs = add_if (is_top_k s.top_k b.vocab_size) id b.top_k_reqs;
    top_k_cpu =
        update b.top_k_cpu i (if is_top_k s.top_k b.vocab_size then s.top_k else pos b.vocab_size);
    frequency_penalties_cpu = update b.frequency_penalties_cpu i s.frequency_penalty;
    frequency_penalties_reqs =
        add_if (not (E.is_zero s.frequency_penalty)) id b.frequency_penalties_reqs;
    presence_penalties_cpu = update b.presence_penalties_cpu i s.presence_penalty;
    presence_penalties_reqs =
        add_if (not (E.is_zero s.presence_penalty)) id b.presence_penalties_reqs;
    repetition_penalties_cpu = update b.repetition_penalties_cpu i s.repetition_penalty;
    repetition_penalties_reqs =
        add_if (not (E.is_one s.repetition_penalty)) id b.repetition_penalties_reqs;
  }

  unfoldable pub add_options :
      CachedRequestState E → SamplingParams E → ℕ → InputBatch E → InputBatch E
  add_options request s i b = record b {
    generators = elim request.generator [ none ↦ b.generators | some g ↦ insert i g b.generators ];
    num_logprobs = elim s.logprobs [
      | none ↦ b.num_logprobs
      | some n ↦ insert request.req_id (count_logprobs n b.vocab_size) b.num_logprobs
    ];
    num_prompt_logprobs = elim s.prompt_logprobs [
      | none ↦ b.num_prompt_logprobs
      | some n ↦ insert request.req_id n b.num_prompt_logprobs
    ];
    bad_words_token_ids = elim s.bad_words_token_ids [
      | [] ↦ b.bad_words_token_ids
      | w ∷ ws ↦ insert i (w ∷ ws) b.bad_words_token_ids
    ];
  }

  unfoldable pub add_allowed : List ℕ → ℕ → ℕ → InputBatch E → Result (InputBatch E)
  add_allowed [] id i b = ok b
  add_allowed (t ∷ ts) id i b =
      let mask : ℕ → ℕ → Bool = elim b.allowed_token_ids_mask [
        | none ↦ λ _ _. false
        | some m ↦ m
      ] in
      allow (t ∷ ts) b.vocab_size (λ _. true) >>= λ row. ok (record b {
        has_allowed_token_ids = add id b.has_allowed_token_ids;
        allowed_token_ids_mask = some (update mask i row);
      })

  unfoldable pub add_params : CachedRequestState E → ℕ → InputBatch E → Result (InputBatch E)
  add_params request i b = elim request.sampling_params [
    | some s ↦
        add_allowed s.allowed_token_ids request.req_id i
          (add_options request s i (add_sampling s request.req_id i b))
    | none ↦ elim request.pooling_params [
      | some p ↦ ok (record b {
        pooling_params = insert request.req_id p b.pooling_params;
        logits_processing_needs_token_ids =
            update b.logits_processing_needs_token_ids i (E.requires_token_ids p);
      })
      | none ↦ err not_implemented_error
    ]
  ]

  unfoldable pub add_lora_request : CachedRequestState E → ℕ → InputBatch E → InputBatch E
  add_lora_request request i b = elim request.lora_request [
    | none ↦ record b { request_lora_mapping = update b.request_lora_mapping i 0 }
    | some l ↦
        let ids : List ℕ = elim (lookup (E.lora_int_id l) b.lora_id_to_request_ids) [
          | none ↦ []
          | some s ↦ s
        ] in
        record b {
          request_lora_mapping = update b.request_lora_mapping i (E.lora_int_id l);
          lora_id_to_request_ids =
              insert (E.lora_int_id l) (add request.req_id ids) b.lora_id_to_request_ids;
          lora_id_to_lora_request = insert (E.lora_int_id l) l b.lora_id_to_lora_request;
        }
  ]

  unfoldable pub add_request : CachedRequestState E → InputBatch E → Result (ℕ × InputBatch E)
  add_request request b = new_index request b >>= λ r. put_id request r.0 r.1 >>= λ b.
      copy_tokens request r.0 b >>= λ b.
      add_params request r.0 b >>= λ b. ok (r.0, add_lora_request request r.0 b)
