-- ===== src/Scheduler/Prefill.antt =====
-- vllm_ascend/core/scheduler.py: the first loop of `schedule`, over the waiting queue.
pub mod Moves
pub mod Loop
use vllm_ascend_origin.Prelude.{
  ℕ, zero, suc, ◌+◌, ◌-◌, ◌*◌, Bool, true, false, ◌&&◌, not, Option, none, some, List, [], ◌∷◌,
  ◌++◌, min, ltb, ◌==◌, if◌then◌else◌, length, elem, update, insert, add,
}
use vllm_ascend_origin.Prelude.Int.{ℤ, pos, negsuc}
use vllm_ascend_origin.Scheduler.State.{
  RequestStatus, Request, Result, ok, err, guard, ◌>>=◌, ◌>>◌, assertion_error, runtime_error,
  Config, Slots, NewBlocks, block_ids, blocks, Vllm, Plan, Frame,
}
use vllm_ascend_origin.Scheduler.Limits.{get_prompt_limit, check_watermark_for_prefill}

-- How a round of the loop ends: by `break`, or by `continue` or its end.
pub data Turn (A : Type 0) : Type 0 where
  break continue : A → Turn A

-- The loop after a round: its end, or the rounds that follow.
unfoldable pub resume {ℓ} :
    {A : Type 0} {B : Type ℓ} → (A → B) → (A → Result B) → Result (Turn A) → Result B
resume stop again (err e) = err e
resume stop again (ok (break g)) = ok (stop g)
resume stop again (ok (continue g)) = again g

-- What a round knows of a request's tokens.
pub record Computed (Blocks : Type 0) : Type 0 where
  pub new_computed_blocks : Blocks
  pub num_new_local_computed_tokens : ℕ
  pub num_external_computed_tokens : ℕ
  pub load_kv_async : Bool
  pub num_computed_tokens : ℕ

-- What is decided from the number of new tokens.
pub data Decision : Type 0 where
  ignore skip : Decision
  take : ℕ → Decision

-- The test of the LoRA limit, in both loops.
unfoldable pub exceeds_max_loras : Config → List ℕ → Request → Bool
exceeds_max_loras c scheduled_loras r = elim c.max_loras [
  | none ↦ false
  | some max_loras ↦ elim r.lora_request [
    | none ↦ false
    | some l ↦ length scheduled_loras == max_loras && not (elem l.lora_int_id scheduled_loras)
  ]
]

-- `if self.lora_config and request.lora_request: scheduled_loras.add(...)`
unfoldable pub add_lora : Config → List ℕ → Request → List ℕ
add_lora c scheduled_loras r = elim c.max_loras [
  | none ↦ scheduled_loras
  | some _ ↦ elim r.lora_request [
    | none ↦ scheduled_loras
    | some l ↦ add l.lora_int_id scheduled_loras
  ]
]

-- The number of new tokens against the limits, for a request that loads nothing asynchronously.
-- Where Python's difference is negative, ours is 0: each fails at the assertion.
unfoldable pub decide_tokens : Config → Request → ℕ → ℕ → Result Decision
decide_tokens c r num_computed_tokens token_budget = do
  limit ← get_prompt_limit c r
  let num_new_tokens = r.num_tokens - num_computed_tokens
  let prompt_limit = min limit (c.num_blocks * c.block_size)
  if ltb prompt_limit num_new_tokens
      then ok ignore
      else if ltb token_budget num_new_tokens
      then ok skip
      else (guard (ltb 0 num_new_tokens) assertion_error >> ok (take num_new_tokens))

abbrev scheduled_status : Request → Result Bool
scheduled_status r = elim r.status [
  | RequestStatus.waiting ↦ ok true
  | RequestStatus.preempted ↦ ok false
  | _ ↦ err runtime_error
]

module _ {New : Type 0} where
  unfoldable pub skipped : ℕ → Plan New → Plan New
  skipped id p = record p { skipped_waiting_requests = id ∷ p.skipped_waiting_requests }

  unfoldable pub ignored : ℕ → Plan New → Plan New
  ignored id p = record p { finished_req_ids = add id p.finished_req_ids }

  -- `n` tokens of a request from the waiting queue are scheduled.
  unfoldable pub admitted : ℕ → ℕ → Bool → New → List ℕ → Plan New → Plan New
  admitted id n is_new new loras p = record p {
    running = p.running ++ id ∷ [];
    scheduled_req_ids = add id p.scheduled_req_ids;
    scheduled_new_reqs = if is_new then p.scheduled_new_reqs ++ id ∷ [] else p.scheduled_new_reqs;
    scheduled_resumed_reqs =
        if is_new then p.scheduled_resumed_reqs else p.scheduled_resumed_reqs ++ id ∷ [];
    scheduled_loras = loras;
    req_to_new_blocks = insert id new p.req_to_new_blocks;
    num_scheduled_tokens = insert id n p.num_scheduled_tokens;
    token_budget = p.token_budget - n;
    overdraft = p.overdraft + (n - p.token_budget);
  }

module _ (v : Vllm) (c : Config) where
  open v use {Ext, Blocks, Block, Ids}

  abbrev pub New : Type 0
  New = NewBlocks Ids Blocks

  -- A request that loads KV blocks from a remote node waits until they are there.
  unfoldable pub await_remote_kv : ℕ → Frame Ext New → Bool × Frame Ext New
  await_remote_kv id f = elim (f.requests id).status [
    | RequestStatus.waiting_for_remote_kvs ↦
        let (ready, r, e) = v.update_waiting_for_remote_kv f.ext id (f.requests id) in
        let r' = if ready then record r { status = RequestStatus.waiting } else r in
        (ready, record f { requests = update f.requests id r'; ext = e })
    | _ ↦ (true, f)
  ]

  -- The tokens that are cached here or elsewhere.
  unfoldable pub count_computed : Ext → ℕ → Request → Computed Blocks × Ext
  count_computed e id r =
      if r.num_computed_tokens == 0
      then (let (found, local, e') = v.get_computed_blocks e id r in
          let (external, load_async, e'') =
            if v.has_connector
            then v.get_num_new_matched_tokens e' id r local
            else (0, false, e') in
          (
            record {
              new_computed_blocks = found;
              num_new_local_computed_tokens = local;
              num_external_computed_tokens = external;
              load_kv_async = load_async;
              num_computed_tokens = local + external;
            },
            e'',
          ))
      else (
        record {
          new_computed_blocks = v.create_empty_block_list;
          num_new_local_computed_tokens = 0;
          num_external_computed_tokens = 0;
          load_kv_async = false;
          num_computed_tokens = r.num_computed_tokens;
        },
        e,
      )

  unfoldable pub skip_cur_request : ℕ → Frame Ext New → Frame Ext New
  skip_cur_request id f = record f { plan = skipped id f.plan }

  -- A request that exceeds the prompt limit is finished.
  unfoldable pub ignore_request : ℕ → Frame Ext New → Frame Ext New
  ignore_request id f = record f {
    plan = ignored id f.plan;
    requests =
        update f.requests id (record (f.requests id) { status = RequestStatus.finished_ignored });
  }

  -- The end of a round: the request is running, and its tokens are scheduled.
  unfoldable pub admit : ℕ → ℕ → Computed Blocks → Blocks → Frame Ext New → Result (Frame Ext New)
  admit id n k new_blocks f =
      let r = f.requests id in
      let new =
        if c.is_0_10_1_1 then block_ids (v.request_block_ids f.ext id) else blocks new_blocks in
      do
        is_new ← scheduled_status r
        ok (record f {
          plan = admitted id n is_new new (add_lora c f.plan.scheduled_loras r) f.plan;
          requests = update f.requests id (record r {
            status = RequestStatus.running;
            num_computed_tokens = k.num_computed_tokens;
            num_cached_tokens = elim r.num_cached_tokens [
              | negsuc _ ↦ pos k.num_computed_tokens
              | pos n ↦ pos n
            ];
          });
        })

  -- Watermark, allocation, connector; then the request is loading or admitted.
  unfoldable pub allocate :
      ℕ → ℕ → Option (List Block) → Computed Blocks → Frame Ext New → Result (Turn (Frame Ext New))
  allocate id n computed_blocks k f =
      if not (check_watermark_for_prefill v c f.ext id (f.requests id) n computed_blocks)
      then ok (continue (skip_cur_request id f))
      else (let (allocated, e) = v.allocate_slots f.ext id (f.requests id) (record {
        num_new_tokens = n + k.num_external_computed_tokens;
        num_new_computed_tokens = some k.num_new_local_computed_tokens;
        new_computed_blocks = some k.new_computed_blocks;
        num_lookahead_tokens = c.num_lookahead_tokens;
        delay_cache_blocks = some k.load_kv_async;
      }) in
          elim allocated [
            | none ↦ ok (break (record f { ext = e }))
            | some new_blocks ↦
                let e' =
                  if v.has_connector
                  then v.update_state_after_alloc e id (f.requests id)
                      (v.append_blocks k.new_computed_blocks new_blocks)
                      k.num_external_computed_tokens
                  else e in
                let g = record f { ext = e' } in
                if k.load_kv_async
                then ok (
                    continue (record (skip_cur_request id g) {
                      requests = update g.requests id (record (g.requests id) {
                        status = RequestStatus.waiting_for_remote_kvs;
                      });
                    }))
                else (admit id n k new_blocks g >>= λ h. ok (continue h))
          ])

  -- The part of a round behind the tests of status and LoRA.
  unfoldable pub place : ℕ → Frame Ext New → Result (Turn (Frame Ext New))
  place id f =
      let (k, e) = count_computed f.ext id (f.requests id) in
      let g = record f { ext = e } in
      if k.load_kv_async
      then (guard (ltb 0 k.num_external_computed_tokens) assertion_error >> allocate id 0 none k g)
      else (decide_tokens c (f.requests id) k.num_computed_tokens f.plan.token_budget >>= λ d.
          elim d [
            | ignore ↦ ok (continue (ignore_request id g))
            | skip ↦ ok (continue (skip_cur_request id g))
            | take n ↦ allocate id n (some (v.first_group k.new_computed_blocks)) k g
          ])

  unfoldable pub prefill_round : ℕ → Frame Ext New → Result (Turn (Frame Ext New))
  prefill_round id f =
      if length f.plan.running == c.max_num_running_reqs
      then ok (break f)
      else (let (ready, g) = await_remote_kv id f in
          if not ready
          then ok (continue (skip_cur_request id g))
          else if exceeds_max_loras c g.plan.scheduled_loras (g.requests id)
          then ok (continue (skip_cur_request id g))
          else place id g)

  -- `while self.waiting and token_budget > 0`. A round that does not break pops the head of the
  -- queue, so the loop is a recursion on the queue; it returns what is left of it.
  unfoldable pub prefill_loop : List ℕ → Frame Ext New → Result (List ℕ × Frame Ext New)
  prefill_loop [] f = ok ([], f)
  prefill_loop (id ∷ queue) f = elim (ltb 0 f.plan.token_budget) [
    | false ↦ ok (id ∷ queue, f)
    | true ↦ resume (λ g. (id ∷ queue, g)) (prefill_loop queue) (prefill_round id f)
  ]
