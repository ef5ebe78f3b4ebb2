-- ===== src/Mooncake/Connector/Handover.antt =====
-- vllm_ascend/distributed/mooncake_connector.py, MooncakeConnectorScheduler: what the prefill side
-- hands over reaches the decode side's workers, once.
use vllm_ascend_origin.Prelude.{
  ℕ, suc, ◌-◌, ◌≡◌, ◌<◌, refl, true, false, some, List, [], ◌∷◌, inl, inr, ==_self, lt→ltb, sym,
  Option-cases, length, arith, insert, update,
}
use vllm_ascend_origin.Prelude.Result.{ok, ◌>>=◌, Ensures-ok, Ensures-any, Ensures-bind, Ensures-if}
use vllm_ascend_origin.Mooncake.Connector.{
  KvTransferParams, ConnectorScheduler, wants_remote_prefill, get_num_new_matched_tokens,
  has_remote_blocks, has_remote, note_transfer, clear_remote_prefill, update_state_after_alloc,
  add_new_req, add_reqs, build_connector_meta, request_finished,
}

-- The request wants no remote prefill, or not any more.
abbrev pub Settled : ℕ → ConnectorScheduler → Type 0
Settled request c = wants_remote_prefill (c.kv_transfer_params request) ≡ false

settled :
    (request m : ℕ) (others prompt : List ℕ) (computed : ℕ) (c : ConnectorScheduler)
    → Settled request c
    → (get_num_new_matched_tokens c request prompt computed ≡ ok (0, false))
      × (update_state_after_alloc request others m c ≡ ok c)
unfolding update_state_after_alloc get_num_new_matched_tokens wants_remote_prefill
settled request m others prompt computed c h = elim (Option-cases (c.kv_transfer_params request)) [
  | inl e ↦ (rw (e, get_num_new_matched_tokens), rw (e, update_state_after_alloc))
  | inr (params, e) ↦
      let off : params.do_remote_prefill ≡ false = rw e at h in
      (rw (e, off, get_num_new_matched_tokens), rw (e, off, update_state_after_alloc))
]

update_state_after_alloc-Settled :
    (request n : ℕ) (blocks : List ℕ) (c c' : ConnectorScheduler)
    → update_state_after_alloc request blocks n c ≡ ok c'
    → Settled request c'
unfolding update_state_after_alloc wants_remote_prefill clear_remote_prefill
update_state_after_alloc-Settled request n blocks c c' h =
    Ensures-ok (Settled request) (update_state_after_alloc request blocks n c) c'
      (elim (Option-cases (c.kv_transfer_params request)) [
        | inl e ↦ rw (e, update_state_after_alloc) (rw e)
        | inr (params, e) ↦
            rw (e, update_state_after_alloc)
              (Ensures-if (Settled request) params.do_remote_prefill
                (note_transfer params request blocks n c >>= λ c.
                  ok (clear_remote_prefill request params c))
                (ok c)
                (λ on.
                  Ensures-bind (λ _. Unit {0}) (Settled request)
                    (note_transfer params request blocks n c)
                    (λ c. ok (clear_remote_prefill request params c))
                    (Ensures-any (note_transfer params request blocks n c))
                    (λ c _. rw (==_self request)))
                (λ off. rw (e, off)))
      ])
      h

-- Once update_state_after_alloc has returned for a request, whatever its parameters were, no token
-- of it matches remotely any more, and a second call for it changes nothing.
pub update_state_after_alloc_once :
    (request n m : ℕ) (blocks others prompt : List ℕ) (computed : ℕ) (c c' : ConnectorScheduler)
    → update_state_after_alloc request blocks n c ≡ ok c'
    → (get_num_new_matched_tokens c' request prompt computed ≡ ok (0, false))
      × (update_state_after_alloc request others m c' ≡ ok c')
update_state_after_alloc_once request n m blocks others prompt computed c c' h =
    settled request m others prompt computed c'
      (update_state_after_alloc-Settled request n blocks c c' h)

-- A request of the prefill side ends capped by its length and with blocks; its parameters asked for
-- a remote decode. On the decode side let a request carry the parameters that request_finished
-- returned, let nothing else wait to be received, and let the prompt have two tokens or more.
-- Then the blocks stay allocated on the prefill side, all tokens but the last of the prompt are
-- loaded remotely, and after the allocation the metadata for the workers hold exactly this request,
-- with the blocks and the address of the prefill side; nothing is left waiting.
pub build_connector_meta-request_finished :
    (p d : ConnectorScheduler) (id request : ℕ) (block : ℕ) (rest blocks prompt : List ℕ)
    (asked : KvTransferParams) (n : ℕ)
    → p.kv_transfer_params id ≡ some asked
    → asked.do_remote_decode ≡ true
    → d.kv_transfer_params request ≡ (request_finished p id true (block ∷ rest)).1
    → d.reqs_need_recv ≡ []
    → 1 < length prompt
    → n ≡ length prompt - 1
    → ((request_finished p id true (block ∷ rest)).0 ≡ true)
      × (get_num_new_matched_tokens d request prompt 0 ≡ ok (n, true))
      × ((c : ConnectorScheduler) × ((update_state_after_alloc request blocks n d
              >>= build_connector_meta)
            ≡ ok (
              (
                request,
                record {
                  local_block_ids = blocks;
                  remote_block_ids = block ∷ rest;
                  remote_host = p.side_channel_host;
                  remote_port = p.side_channel_port;
                  remote_engine_id = p.engine_id;
                },
              )
                  ∷ [],
              c,
            ))
          × (c.reqs_need_recv ≡ []))
unfolding request_finished wants_remote_prefill get_num_new_matched_tokens update_state_after_alloc
    build_connector_meta has_remote_blocks has_remote note_transfer clear_remote_prefill add_reqs
    add_new_req insert
build_connector_meta-request_finished p d id request block rest blocks prompt asked n hp hd hr hn hl
      e =
    let sent : KvTransferParams = record {
      do_remote_prefill = true;
      do_remote_decode = false;
      remote_block_ids = some (block ∷ rest);
      remote_engine_id = some p.engine_id;
      remote_host = some p.side_channel_host;
      remote_port = some p.side_channel_port;
    } in
    let carried : d.kv_transfer_params request ≡ some sent = rw (hp, hd, request_finished) at hr in
    (
      rw (hp, hd, request_finished) (lt→ltb 0 (suc (length rest)) (omega arith)),
      rw (
        carried,
        get_num_new_matched_tokens,
        wants_remote_prefill,
        sym e,
        lt→ltb 0 n (omega (arith, hl, e)),
      ),
      (
        record d {
          kv_transfer_params =
              update d.kv_transfer_params request
                (some (record sent { do_remote_prefill = false }));
          reqs_need_recv = [];
        },
        rw (
          carried,
          update_state_after_alloc,
          hn,
          ==_self request,
          lt→ltb 0 n (omega (arith, hl, e)),
        ),
        refl,
      ),
    )
