-- ===== src/Scheduler/Decode.antt =====
-- vllm_ascend/core/scheduler.py: the second loop of `schedule`, over the running requests.
pub mod Moves
pub mod Loop
use vllm_ascend_origin.Prelude.{
  ℕ, zero, suc, ◌+◌, ◌-◌, Bool, true, false, ◌&&◌, Option, none, some, List, [], ◌∷◌, ◌++◌, min,
  ltb, leb, ◌==◌, if◌then◌else◌, length, get_elem?, take, elem, update, insert, add, pop,
}
use vllm_ascend_origin.Scheduler.State.{
  RequestStatus, Request, Result, ok, err, guard, or_fail, ◌>>=◌, ◌>>◌, assertion_error,
  index_error, out_of_fuel, negative_count, Config, Slots, NewBlocks, block_ids, blocks, Vllm, Plan,
  Frame,
}
use vllm_ascend_origin.Scheduler.Prefill.{
  Turn, break, continue, resume, exceeds_max_loras, add_lora, New,
}

-- The number of tokens for a running request. The code goes on with a negative count where the
-- model stops with `negative_count`.
unfoldable pub decode_tokens : Config → Request → List ℕ → ℕ → Result ℕ
decode_tokens c r scheduled_loras token_budget = do
  guard (r.num_tokens == r.num_computed_tokens + 1) assertion_error
  if exceeds_max_loras c scheduled_loras r
      then ok 0
      else (guard
            (leb r.num_computed_tokens r.num_tokens_with_spec
              && leb r.num_computed_tokens c.max_model_len)
            negative_count
          >> ok (
              min (min (r.num_tokens_with_spec - r.num_computed_tokens) token_budget)
                (c.max_model_len - r.num_computed_tokens)))

-- The spec tokens that stay when `n` tokens are scheduled: none of them to record, or a prefix.
unfoldable pub kept_spec_tokens : Request → ℕ → Option (List ℕ)
kept_spec_tokens r n =
    let num_spec = n + r.num_computed_tokens - r.num_tokens in
    elim r.spec_token_ids [
      | [] ↦ none
      | t ∷ ts ↦ if ltb 0 num_spec then some (take num_spec (t ∷ ts)) else none
    ]

abbrev pub decode_slots : {B : Type 0} → Config → ℕ → Slots B
decode_slots c n = record {
  num_new_tokens = n;
  num_new_computed_tokens = none;
  new_computed_blocks = none;
  num_lookahead_tokens = c.num_lookahead_tokens;
  delay_cache_blocks = none;
}

module _ {New : Type 0} where
  unfoldable pub preempted : ℕ → List ℕ → Plan New → Plan New
  preempted victim rest p = record p {
    running = rest;
    preempted_reqs = p.preempted_reqs ++ victim ∷ [];
  }

  -- `n` tokens of a running request are scheduled.
  unfoldable pub resumed : ℕ → ℕ → New → Option (List ℕ) → List ℕ → Plan New → Plan New
  resumed id n new kept loras p = record p {
    scheduled_running_reqs = p.scheduled_running_reqs ++ id ∷ [];
    scheduled_req_ids = add id p.scheduled_req_ids;
    req_to_new_blocks = insert id new p.req_to_new_blocks;
    num_scheduled_tokens = insert id n p.num_scheduled_tokens;
    token_budget = p.token_budget - n;
    overdraft = p.overdraft + (n - p.token_budget);
    scheduled_spec_decode_tokens = elim kept [
      | none ↦ p.scheduled_spec_decode_tokens
      | some ts ↦ insert id ts p.scheduled_spec_decode_tokens
    ];
    scheduled_loras = loras;
  }

module _ (v : Vllm) (c : Config) where
  open v use {Ext, Blocks, Ids}

  -- The request that was popped off `running` goes to the head of the waiting queue.
  unfoldable pub preempt : ℕ → List ℕ → List ℕ → Frame Ext (New v c) → List ℕ × Frame Ext (New v c)
  preempt victim rest waiting f = (
    victim ∷ waiting,
    record f {
      plan = preempted victim rest f.plan;
      requests = update f.requests victim (record (f.requests victim) {
        status = RequestStatus.preempted;
        num_computed_tokens = 0;
      });
      ext = v.free f.ext victim (f.requests victim);
    },
  )

  -- `while True`: allocate, and preempt the last running request as long as that fails. The blocks
  -- are `none` where the request had to preempt itself.
  unfoldable pub allocate_or_preempt :
      ℕ
      → ℕ
      → ℕ
      → List ℕ
      → Frame Ext (New v c)
      → Result (Option Blocks × List ℕ × Frame Ext (New v c))
  allocate_or_preempt zero id n waiting f = err out_of_fuel
  allocate_or_preempt (suc fuel) id n waiting f =
      let (allocated, e) = v.allocate_slots f.ext id (f.requests id) (decode_slots c n) in
      elim allocated [
        | some new_blocks ↦ ok (some new_blocks, waiting, record f { ext = e })
        | none ↦ elim (pop f.plan.running) [
          | none ↦ err index_error
          | some (rest, victim) ↦
              let (waiting', g) = preempt victim rest waiting (record f { ext = e }) in
              elim (victim == id) [
                | true ↦ ok (none, waiting', g)
                | false ↦ allocate_or_preempt fuel id n waiting' g
              ]
        ]
      ]

  -- `# Schedule the request.`
  unfoldable pub schedule_running : ℕ → ℕ → Blocks → Frame Ext (New v c) → Frame Ext (New v c)
  schedule_running id n new_blocks f =
      let r = f.requests id in
      let kept = kept_spec_tokens r n in
      let new =
        if c.is_0_10_1_1 then block_ids (v.get_block_ids new_blocks) else blocks new_blocks in
      record f {
        plan = resumed id n new kept (add_lora c f.plan.scheduled_loras r) f.plan;
        requests = elim kept [
          | none ↦ f.requests
          | some ts ↦ update f.requests id (record r { spec_token_ids = ts })
        ];
      }

  -- The end of a round, behind the inner loop.
  unfoldable pub after_allocation :
      ℕ
      → ℕ
      → Option Blocks × List ℕ × Frame Ext (New v c)
      → Result (Turn (List ℕ × Frame Ext (New v c)))
  after_allocation id n (none, waiting, f) = ok (break (waiting, f))
  after_allocation id n (some new_blocks, waiting, f) =
      ok (continue (waiting, schedule_running id n new_blocks f))

  unfoldable pub decode_round :
      ℕ → List ℕ → Frame Ext (New v c) → Result (Turn (List ℕ × Frame Ext (New v c)))
  decode_round id waiting f =
      if elem id f.plan.scheduled_req_ids
      then ok (continue (waiting, f))
      else (decode_tokens c (f.requests id) f.plan.scheduled_loras f.plan.token_budget >>= λ n.
          if n == 0
          then ok (continue (waiting, f))
          else (allocate_or_preempt (length f.plan.running) id n waiting f
              >>= after_allocation id n))

  -- `while req_index < len(self.running) and token_budget > 0`
  unfoldable pub decode_loop :
      ℕ → ℕ → List ℕ → Frame Ext (New v c) → Result (List ℕ × Frame Ext (New v c))
  decode_loop zero req_index waiting f = err out_of_fuel
  decode_loop (suc fuel) req_index waiting f =
      elim (ltb req_index (length f.plan.running) && ltb 0 f.plan.token_budget) [
        | false ↦ ok (waiting, f)
        | true ↦ elim (get_elem? f.plan.running req_index) [
          | none ↦ err index_error
          | some id ↦
              resume (λ r. r) (λ (waiting', g). decode_loop fuel (req_index + 1) waiting' g)
                (decode_round id waiting f)
        ]
      ]
