-- ===== src/Mooncake/Sockets.antt =====
-- vllm_ascend/distributed/mooncake_connector.py: ensure_zmq_send, ensure_zmq_recv, and how
-- KVCacheRecvingThread talks to the sending threads over its pool of sockets. zmq, msgspec and the
-- TransferEngine are the operations of `Transport`; each acts on the state of the outside world.
pub mod Retries
use vllm_ascend_origin.Prelude.{
  ℕ, zero, suc, ◌-◌, Bool, Option, none, some, List, [], ◌∷◌, ◌++◌, ◌==◌, if◌then◌else◌, not,
  lookup, insert,
}
use vllm_ascend_origin.Prelude.Int.{ℤ}
use vllm_ascend_origin.Prelude.Result.{
  Fault, assertion_error, runtime_error, value_error, decode_error, Result, ok, err, guard, or_fail,
}
use vllm_ascend_origin.Prelude.Step.{Step, ◌>>>◌, pure}
use vllm_ascend_origin.Mooncake.Tracker.{KvCacheTaskTracker}
use vllm_ascend_origin.Mooncake.Transfer.{Transfer}

pub record AgentMetadata : Type 0 where
  pub engine_id : ℕ
  pub te_rpc_port : ℕ
  pub kv_caches_base_addr : List ℕ

-- What the receiving thread sends, before it is encoded: GET_META_MSG, or DONE_RECVING_MSG with the
-- request and the rank.
pub data Sent : Type 0 where
  get_meta : Sent
  done_recving : ℕ → ℕ → Sent

-- The libraries. `send`, `poll` and `recv` return `none` (`false`) for a zmq.ZMQError.
pub record Transport (World Socket Bytes : Type 0) : Type 0 where
  pub make_zmq_path : ℕ → ℕ → ℕ
  pub make_socket : ℕ → Step World Socket
  pub send : Socket → Sent → World → Bool × World
  pub poll : World → Option Bool × World
  pub recv : Socket → World → Option Bytes × World
  pub decode : Bytes → Option AgentMetadata
  pub is_utf8 : Bytes → Bool
  pub is_ack : Bytes → Bool
  pub batch_transfer_sync_read : ℕ → ℕ → List Transfer → Step World ℤ

-- An entry of the thread's queue.
pub record PullRequest : Type 0 where
  pub request_id : ℕ
  pub local_block_ids : List ℕ
  pub remote_block_ids : List ℕ
  pub remote_engine_id : ℕ
  pub remote_host : ℕ
  pub remote_handshake_port : ℕ

pub record RecvingThread (World Socket : Type 0) : Type 0 where
  pub tp_rank : ℕ
  pub local_engine_id : ℕ
  pub local_handshake_port : ℕ
  -- defaultdicts, by engine and handshake port: a missing engine reads as the empty dict.
  pub kv_caches_base_addr : List (ℕ × List (ℕ × List ℕ))
  pub remote_te_port : List (ℕ × List (ℕ × ℕ))
  -- block_len[0], and block_len[1], which is read only with `use_mla`, where it exists.
  pub use_mla : Bool
  pub block_len_0 : ℕ
  pub block_len_1 : ℕ
  pub task_tracker : KvCacheTaskTracker
  -- What the tracker has sent to the listener of rank 0.
  pub signals : List (ℕ × ℕ)
  -- A defaultdict of deques, by path: a missing path reads as the empty deque.
  pub remote_sockets : List (ℕ × List Socket)
  -- queue.Queue: the items, and how many of all items put are not marked as done.
  pub request_queue : List (Option PullRequest)
  pub unfinished_tasks : ℕ
  pub world : World

module _ {World A : Type 0} (attempt : World → Option A × World) where
  -- The loop around an attempt that may fail: `retries_left` counts those after this one.
  unfoldable pub retrying : ℕ → Step World A
  retrying zero w = let (r, w') = attempt w in (or_fail r runtime_error, w')
  retrying (suc retries_left) w =
      let (r, w') = attempt w in elim r [ some a ↦ (ok a, w') | none ↦ retrying retries_left w' ]

-- A step of the outside world, within the thread.
unfoldable pub outside :
    {World Socket A : Type 0} → Step World A → Step (RecvingThread World Socket) A
outside m t = let (r, w) = m t.world in (r, record t { world = w })

module _ {World Socket Bytes : Type 0} (net : Transport World Socket Bytes) where
  unfoldable pub send_once : Socket → Sent → World → Option (Unit {0}) × World
  send_once socket message w =
      let (sent, w') = net.send socket message w in (if sent then some tt else none, w')

  -- The socket is read only if the poll says that there is something to read.
  unfoldable pub recv_once : Socket → World → Option Bytes × World
  recv_once socket w =
      let (events, w') = net.poll w in
      elim events [
        | none ↦ (none, w')
        | some ready ↦ if ready then net.recv socket w' else (none, w')
      ]

  unfoldable pub ensure_zmq_send : Socket → Sent → ℕ → Step World (Unit {0})
  ensure_zmq_send socket message max_retries = retrying (send_once socket message) (max_retries - 1)

  unfoldable pub ensure_zmq_recv : Socket → ℕ → Step World Bytes
  ensure_zmq_recv socket max_retries = retrying (recv_once socket) (max_retries - 1)
