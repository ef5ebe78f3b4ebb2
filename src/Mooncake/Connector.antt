-- ===== src/Mooncake/Connector.antt =====
-- vllm_ascend/distributed/mooncake_connector.py: MooncakeConnectorScheduler, ReqMeta and
-- MooncakeConnectorMetadata. A request object is known by its id: the connector writes into the
-- kv_transfer_params of the object, which are therefore part of the state.
pub mod Handover
use vllm_ascend_origin.Prelude.{
  ℕ, ◌-◌, Bool, true, false, Option, none, some, List, [], ◌∷◌, ◌==◌, if◌then◌else◌, ltb, length,
  insert, update,
}
use vllm_ascend_origin.Prelude.Result.{
  Fault, assertion_error, key_error, Result, ok, err, ◌>>=◌, ◌>>◌, guard, or_fail,
}

-- The keys of the dict; a key that is absent is `none` (`false` for the two flags, which are read by
-- `get`). Hosts and engine ids are named by numbers.
pub record KvTransferParams : Type 0 where
  pub do_remote_prefill : Bool
  pub do_remote_decode : Bool
  pub remote_block_ids : Option (List ℕ)
  pub remote_engine_id : Option ℕ
  pub remote_host : Option ℕ
  pub remote_port : Option ℕ

pub record ReqMeta : Type 0 where
  pub local_block_ids : List ℕ
  pub remote_block_ids : List ℕ
  pub remote_host : ℕ
  pub remote_port : ℕ
  pub remote_engine_id : ℕ

pub record ConnectorScheduler : Type 0 where
  pub engine_id : ℕ
  pub side_channel_host : ℕ
  pub side_channel_port : ℕ
  -- _reqs_need_recv: the request is known by the key.
  pub reqs_need_recv : List (ℕ × List ℕ)
  -- `request.kv_transfer_params` of each request object.
  pub kv_transfer_params : ℕ → Option KvTransferParams

-- `params is not None and params.get("do_remote_prefill")`
unfoldable pub wants_remote_prefill : Option KvTransferParams → Bool
wants_remote_prefill none = false
wants_remote_prefill (some params) = params.do_remote_prefill

unfoldable pub get_num_new_matched_tokens : ConnectorScheduler → ℕ → List ℕ → ℕ → Result (ℕ × Bool)
get_num_new_matched_tokens c request prompt_token_ids num_computed_tokens =
    if wants_remote_prefill (c.kv_transfer_params request)
    then guard (num_computed_tokens == 0) assertion_error
      >> ok (
          let count = length prompt_token_ids - 1 in
          if ltb 0 count then (count, true) else (0, false))
    else ok (0, false)

-- `params.get("remote_block_ids")` is neither absent nor empty.
unfoldable pub has_remote_blocks : KvTransferParams → Bool
has_remote_blocks params = elim params.remote_block_ids [
  | none ↦ false
  | some ids ↦ elim ids [ [] ↦ false | _ ↦ true ]
]

-- `all(p in params for p in ("remote_engine_id", "remote_host", "remote_port"))`
unfoldable pub has_remote : KvTransferParams → Bool
has_remote params = elim params.remote_engine_id [
  | none ↦ false
  | some e ↦ elim params.remote_host [
    | none ↦ false
    | some h ↦ elim params.remote_port [ none ↦ false | some p ↦ true ]
  ]
]

-- `blocks` are the unhashed block ids.
unfoldable pub note_transfer :
    KvTransferParams → ℕ → List ℕ → ℕ → ConnectorScheduler → Result ConnectorScheduler
note_transfer params request blocks num_external_tokens c =
    if has_remote_blocks params
    then ok (
        if has_remote params
        then record c {
          reqs_need_recv =
              insert request (if ltb 0 num_external_tokens then blocks else []) c.reqs_need_recv;
        }
        else c)
    else guard (num_external_tokens == 0) assertion_error >> ok c

-- `params["do_remote_prefill"] = False`, in the request's own dict
unfoldable pub clear_remote_prefill : ℕ → KvTransferParams → ConnectorScheduler → ConnectorScheduler
clear_remote_prefill request params c = record c {
  kv_transfer_params =
      update c.kv_transfer_params request (some (record params { do_remote_prefill = false }));
}

unfoldable pub update_state_after_alloc :
    ℕ → List ℕ → ℕ → ConnectorScheduler → Result ConnectorScheduler
update_state_after_alloc request blocks num_external_tokens c =
    elim (c.kv_transfer_params request) [
      | none ↦ ok c
      | some params ↦
          if params.do_remote_prefill
          then (note_transfer params request blocks num_external_tokens c >>= λ c.
              ok (clear_remote_prefill request params c))
          else ok c
    ]

unfoldable pub add_new_req :
    ℕ → List ℕ → KvTransferParams → List (ℕ × ReqMeta) → Result (List (ℕ × ReqMeta))
add_new_req request local_block_ids params requests =
    or_fail params.remote_block_ids key_error >>= λ remote_block_ids.
    or_fail params.remote_engine_id key_error >>= λ remote_engine_id.
    or_fail params.remote_host key_error >>= λ remote_host.
    or_fail params.remote_port key_error >>= λ remote_port. ok (
      insert request
        (record {
          local_block_ids = local_block_ids;
          remote_block_ids = remote_block_ids;
          remote_host = remote_host;
          remote_port = remote_port;
          remote_engine_id = remote_engine_id;
        })
        requests)

unfoldable pub add_reqs :
    List (ℕ × List ℕ) → ConnectorScheduler → List (ℕ × ReqMeta) → Result (List (ℕ × ReqMeta))
add_reqs [] c requests = ok requests
add_reqs ((request, block_ids) ∷ rest) c requests =
    or_fail (c.kv_transfer_params request) assertion_error >>= λ params.
    add_new_req request block_ids params requests >>= λ requests. add_reqs rest c requests

unfoldable pub build_connector_meta :
    ConnectorScheduler → Result (List (ℕ × ReqMeta) × ConnectorScheduler)
build_connector_meta c =
    add_reqs c.reqs_need_recv c [] >>= λ requests. ok (requests, record c { reqs_need_recv = [] })

-- `length_capped`: the status of the request is FINISHED_LENGTH_CAPPED.
unfoldable pub request_finished :
    ConnectorScheduler → ℕ → Bool → List ℕ → Bool × Option KvTransferParams
request_finished c request length_capped block_ids =
    let finish : Bool × Option KvTransferParams = (
      ltb 0 (length block_ids),
      some (record {
        do_remote_prefill = true;
        do_remote_decode = false;
        remote_block_ids = some block_ids;
        remote_engine_id = some c.engine_id;
        remote_host = some c.side_channel_host;
        remote_port = some c.side_channel_port;
      }),
    ) in
    elim (c.kv_transfer_params request) [
      | none ↦ (false, none)
      | some params ↦
          if params.do_remote_decode
          then (if length_capped then finish else (false, none))
          else (false, none)
    ]
