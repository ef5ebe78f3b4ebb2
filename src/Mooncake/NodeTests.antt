-- ===== src/Mooncake/NodeTests.antt =====
-- Runs of the receiving thread and of the worker on small inputs: a node whose network needs two
-- polls for an answer, and one whose network is down.
use vllm_ascend_origin.Prelude.{
  ℕ, suc, ◌+◌, ◌%◌, ◌≡◌, refl, true, false, none, some, List, [], ◌∷◌, ◌==◌, arith,
}
use vllm_ascend_origin.Prelude.Int.{pos}
use vllm_ascend_origin.Prelude.Result.{ok}
use vllm_ascend_origin.Mooncake.Connector.{ReqMeta}
use vllm_ascend_origin.Mooncake.Tracker.{init_tracker}
use vllm_ascend_origin.Mooncake.Transfer.{Transfer}
use vllm_ascend_origin.Mooncake.Sockets.{
  Transport, PullRequest, RecvingThread, recv_once, ensure_zmq_recv,
}
use vllm_ascend_origin.Mooncake.Sockets.Retries.{FirstSuccess, ensure_zmq_recv-FirstSuccess}
use vllm_ascend_origin.Mooncake.Receiver.{run}
use vllm_ascend_origin.Mooncake.Receiver.Pool.{PoolKept}
use vllm_ascend_origin.Mooncake.Receiver.Pooled.{run-PoolKept}
use vllm_ascend_origin.Mooncake.Receiver.Counted.{Counted, run-Counted}
use vllm_ascend_origin.Mooncake.Worker.{
  WorkerConfig, ConnectorWorker, range, init_worker, get_prefill_decode_size, device_ids,
  build_worker, side_channel_port_of, get_remote_tp_rank, get_remote_tp_ranks_for_req,
}
use vllm_ascend_origin.Mooncake.Worker.Ranks.{
  SampleLaws, length-range, range-All, range-Distinct, get_remote_tp_rank_injective,
}

-- The world is a clock that each call moves; a socket is the path that it was made for.
abbrev slow : Transport ℕ ℕ ℕ
slow = record {
  make_zmq_path = λ host port. host + port;
  make_socket = λ path w. (ok path, suc w);
  send = λ socket message w. (true, suc w);
  poll = λ w. (some (w % 2 == 0), suc w);
  recv = λ socket w. (some 1, suc w);
  decode =
      λ bytes. some (record { engine_id = 1; te_rpc_port = 9000; kv_caches_base_addr = 3000 ∷ [] });
  is_utf8 = λ bytes. true;
  is_ack = λ bytes. bytes == 1;
  batch_transfer_sync_read = λ host port transfers w. (ok (pos 0), suc w);
}

-- Nothing that is sent arrives.
abbrev down : Transport ℕ ℕ ℕ
down = record slow { send = λ socket message w. (false, suc w) }

abbrev first_pull : PullRequest
first_pull = record {
  request_id = 7;
  local_block_ids = 4 ∷ 5 ∷ [];
  remote_block_ids = 8 ∷ 9 ∷ [];
  remote_engine_id = 1;
  remote_host = 10;
  remote_handshake_port = 5001;
}

-- A request without local blocks: only the signal is sent.
abbrev second_pull : PullRequest
second_pull = record first_pull { request_id = 8; local_block_ids = []; remote_block_ids = [] }

abbrev thread : RecvingThread ℕ ℕ
thread = record {
  tp_rank = 1;
  local_engine_id = 2;
  local_handshake_port = 6001;
  kv_caches_base_addr = (2, (6001, 1000 ∷ []) ∷ []) ∷ (1, (5001, 3000 ∷ []) ∷ []) ∷ [];
  remote_te_port = (1, (5001, 9000) ∷ []) ∷ [];
  use_mla = false;
  block_len_0 = 16;
  block_len_1 = 16;
  task_tracker = init_tracker 1 2;
  signals = [];
  remote_sockets = (5011, 5011 ∷ []) ∷ [];
  request_queue = some first_pull ∷ none ∷ some second_pull ∷ [];
  unfinished_tasks = 3;
  world = 0;
}

ensure_zmq_recv-FirstSuccess_example :
    FirstSuccess (recv_once slow 5011) 3 1 (ensure_zmq_recv slow 5011 3 1)
ensure_zmq_recv-FirstSuccess_example = ensure_zmq_recv-FirstSuccess slow 5011 3 1

own_tracker : thread.task_tracker.tp_rank ≡ 1
unfolding init_tracker
own_tracker = refl

run-Counted_example : Counted ((7, 1) ∷ (8, 1) ∷ []) thread (run down thread)
run-Counted_example = run-Counted down thread own_tracker

run-PoolKept_example :
    PoolKept (λ path socket. socket ≡ path) thread.remote_sockets (run slow thread).remote_sockets
run-PoolKept_example = run-PoolKept slow (λ path socket. socket ≡ path) thread (λ path w. refl)

-- A sample that takes the first items.
abbrev first_items : ℕ → ℕ → ℕ → List ℕ
first_items seed n k = range 0 k

abbrev hash : ℕ → ℕ
hash request = request

first_items-SampleLaws : SampleLaws first_items
first_items-SampleLaws = record {
  counted = λ seed n k h. length-range 0 k;
  within = λ seed n k h. range-All 0 k n (omega (arith, h));
  distinct = λ seed n k h. range-Distinct 0 k;
}

abbrev config : ℕ → WorkerConfig
config rank = record {
  prefill = record { tp_size = some 4; dp_size = some 1 };
  decode = record { tp_size = some 2; dp_size = some 1 };
  tp_rank = rank;
  tp_size = 2;
  dp_rank = 1;
  kv_port = 6000;
  visible_devices = none;
}

abbrev worker : ℕ → ConnectorWorker
worker rank = record {
  sizes = record {
    prefill_tp_size = 4;
    prefill_dp_size = 1;
    decode_tp_size = 2;
    decode_dp_size = 1;
  };
  tp_rank = rank;
  side_channel_port = 6002;
  handshake_port = 6002 + rank;
  device_id = 2 + rank;
}

worker_1 : init_worker true (λ device. 0) (config 1) ≡ ok (worker 1)
unfolding init_worker get_prefill_decode_size device_ids build_worker side_channel_port_of range
worker_1 = refl

rank_of_1 : get_remote_tp_rank first_items hash (worker 1) 7 ≡ ok 1
unfolding get_remote_tp_rank get_remote_tp_ranks_for_req range
rank_of_1 = refl

get_remote_tp_rank_injective_example : (worker 1).tp_rank ≡ (worker 1).tp_rank
get_remote_tp_rank_injective_example =
    get_remote_tp_rank_injective first_items hash true (λ device. 0) (config 1) (worker 1)
      (worker 1) 7 1 first_items-SampleLaws worker_1 refl rank_of_1 rank_of_1

abbrev meta : ReqMeta
meta = record {
  local_block_ids = 4 ∷ 5 ∷ [];
  remote_block_ids = 8 ∷ 9 ∷ [];
  remote_host = 10;
  remote_port = 5000;
  remote_engine_id = 1;
}
