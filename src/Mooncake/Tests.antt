-- ===== src/Mooncake/Tests.antt =====
-- Runs of the Mooncake connector's models on small inputs.
use vllm_ascend_origin.Prelude.{
  ℕ, ◌≡◌, refl, true, false, none, some, List, [], ◌∷◌, arith, length, elem, update, insert, ◌==◌,
}
use vllm_ascend_origin.Prelude.Result.{ok, ◌>>=◌}
use vllm_ascend_origin.Mooncake.Tracker.{init_tracker, get_and_clear_finished_requests, listen}
use vllm_ascend_origin.Mooncake.Tracker.Signals.{ranks_of, get_and_clear_finished_requests-listen}
use vllm_ascend_origin.Mooncake.Transfer.{group_concurrent_contiguous, layer_transfers}
use vllm_ascend_origin.Mooncake.Transfer.Groups.{
  by_blocks, block_transfers, layer_transfers-group_concurrent_contiguous,
}
use vllm_ascend_origin.Mooncake.Connector.{
  KvTransferParams, ConnectorScheduler, get_num_new_matched_tokens, update_state_after_alloc,
  note_transfer, has_remote, has_remote_blocks, clear_remote_prefill, build_connector_meta,
  request_finished,
}
use vllm_ascend_origin.Mooncake.Connector.Handover.{build_connector_meta-request_finished}

-- Ranks 0 and 1 of the requests 7 and 8, interleaved.
abbrev signals : List (ℕ × ℕ)
signals = (7, 0) ∷ (8, 1) ∷ (7, 1) ∷ []

get_and_clear_finished_requests-listen_example :
    elem 7 (get_and_clear_finished_requests (listen signals (init_tracker 0 2))).0
    ≡ (length (ranks_of 7 signals) == 2)
get_and_clear_finished_requests-listen_example =
    get_and_clear_finished_requests-listen 7 0 2 signals (omega arith) (refl, (refl, tt))
      (omega arith)

-- The remote blocks 4, 5 and 9 into the local blocks 1, 2 and 3: two groups.
layer_transfers-group_concurrent_contiguous_example :
    (group_concurrent_contiguous (4 ∷ 5 ∷ 9 ∷ []) (1 ∷ 2 ∷ 3 ∷ []) >>= λ g.
    layer_transfers 1000 2000 16 g.0 g.1 >>= λ ts. ok (by_blocks 16 ts))
    ≡ ok (block_transfers 1000 2000 16 (4 ∷ 5 ∷ 9 ∷ []) (1 ∷ 2 ∷ 3 ∷ []))
layer_transfers-group_concurrent_contiguous_example =
    layer_transfers-group_concurrent_contiguous 1000 2000 16 (4 ∷ 5 ∷ 9 ∷ []) (1 ∷ 2 ∷ 3 ∷ [])
      (omega arith) refl

abbrev asked : KvTransferParams
asked = record {
  do_remote_prefill = false;
  do_remote_decode = true;
  remote_block_ids = none;
  remote_engine_id = none;
  remote_host = none;
  remote_port = none;
}

abbrev handed : KvTransferParams
handed = record {
  do_remote_prefill = true;
  do_remote_decode = false;
  remote_block_ids = some (4 ∷ 5 ∷ []);
  remote_engine_id = some 1;
  remote_host = some 10;
  remote_port = some 5000;
}

abbrev prefill : ConnectorScheduler
prefill = record {
  engine_id = 1;
  side_channel_host = 10;
  side_channel_port = 5000;
  reqs_need_recv = [];
  kv_transfer_params = λ _. some asked;
}

abbrev decode : ConnectorScheduler
decode = record {
  engine_id = 2;
  side_channel_host = 11;
  side_channel_port = 6000;
  reqs_need_recv = [];
  kv_transfer_params = λ _. some handed;
}

handed-request_finished :
    decode.kv_transfer_params 3 ≡ (request_finished prefill 7 true (4 ∷ 5 ∷ [])).1
unfolding request_finished
handed-request_finished = refl

build_connector_meta-request_finished_example :
    ((request_finished prefill 7 true (4 ∷ 5 ∷ [])).0 ≡ true)
    × (get_num_new_matched_tokens decode 3 (100 ∷ 101 ∷ 102 ∷ []) 0 ≡ ok (2, true))
    × ((c : ConnectorScheduler) × ((update_state_after_alloc 3 (8 ∷ 9 ∷ []) 2 decode
            >>= build_connector_meta)
          ≡ ok (
            (
              3,
              record {
                local_block_ids = 8 ∷ 9 ∷ [];
                remote_block_ids = 4 ∷ 5 ∷ [];
                remote_host = 10;
                remote_port = 5000;
                remote_engine_id = 1;
              },
            )
                ∷ [],
            c,
          ))
        × (c.reqs_need_recv ≡ []))
build_connector_meta-request_finished_example =
    build_connector_meta-request_finished prefill decode 7 3 4 (5 ∷ []) (8 ∷ 9 ∷ [])
      (100 ∷ 101 ∷ 102 ∷ []) asked 2 refl refl handed-request_finished refl (omega arith) refl

abbrev after : ConnectorScheduler
after = record decode {
  reqs_need_recv = (3, 8 ∷ 9 ∷ []) ∷ [];
  kv_transfer_params =
      update decode.kv_transfer_params 3 (some (record handed { do_remote_prefill = false }));
}

update_state_after_alloc-after : update_state_after_alloc 3 (8 ∷ 9 ∷ []) 2 decode ≡ ok after
unfolding update_state_after_alloc note_transfer has_remote has_remote_blocks clear_remote_prefill
    insert
update_state_after_alloc-after = refl
