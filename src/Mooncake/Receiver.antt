-- ===== src/Mooncake/Receiver.antt =====
-- vllm_ascend/distributed/mooncake_connector.py, KVCacheRecvingThread: the requests of its queue,
-- over any behaviour of the network and of the transfer engine.
pub mod Pool
pub mod Kept
pub mod Exchanges
pub mod Counted
pub mod Pooled
pub mod Layers
use vllm_ascend_origin.Prelude.{
  entries, ℕ, suc, ◌-◌, Bool, Option, none, some, List, [], ◌∷◌, ◌++◌, ◌==◌, if◌then◌else◌, not,
  lookup, insert,
}
use vllm_ascend_origin.Prelude.Int.{ℤ, pos, negsuc}
use vllm_ascend_origin.Prelude.Result.{
  Fault, assertion_error, runtime_error, value_error, decode_error, key_error, Result, ok, err,
  guard, or_fail, ◌>>=◌,
}
use vllm_ascend_origin.Prelude.Step.{Step, ◌>>>◌, pure}
use vllm_ascend_origin.Mooncake.Tracker.{KvCacheTaskTracker, update_done_task_count}
use vllm_ascend_origin.Mooncake.Transfer.{
  Transfer, group_concurrent_contiguous, all_transfers, layer_block_len,
}
use vllm_ascend_origin.Mooncake.Sockets.{
  AgentMetadata, Sent, get_meta, done_recving, Transport, PullRequest, RecvingThread,
  ensure_zmq_send, ensure_zmq_recv, outside,
}

-- `kv_caches_base_addr[engine][port]` and `remote_te_port[engine][port]`
unfoldable pub lookup_port : {V : Type 0} → ℕ → ℕ → List (ℕ × List (ℕ × V)) → Option V
lookup_port engine port d = lookup port (entries engine d)

unfoldable pub insert_port :
    {V : Type 0} → ℕ → ℕ → V → List (ℕ × List (ℕ × V)) → List (ℕ × List (ℕ × V))
insert_port engine port v d = insert engine (insert port v (entries engine d)) d

-- An early return if the list is empty.
unfoldable pub unless_empty : {S : Type 0} → List ℕ → Step S (Unit {0}) → Step S (Unit {0})
unless_empty [] m s = (ok tt, s)
unless_empty (x ∷ xs) m s = m s

-- `ret < 0`
unfoldable pub check_ret : ℤ → Result (Unit {0})
check_ret (pos n) = ok tt
check_ret (negsuc n) = err runtime_error

module _ {World Socket : Type 0} where
  -- The transfers of a request, over all layers, and the port of the remote engine.
  unfoldable pub plan_transfers :
      PullRequest → RecvingThread World Socket → Result (List Transfer × ℕ)
  plan_transfers req t =
      group_concurrent_contiguous req.remote_block_ids req.local_block_ids >>= λ groups.
      or_fail (lookup_port req.remote_engine_id req.remote_handshake_port t.kv_caches_base_addr)
        key_error
      >>= λ remotes.
          or_fail (lookup_port t.local_engine_id t.local_handshake_port t.kv_caches_base_addr)
            key_error
          >>= λ locals.
              or_fail (lookup_port req.remote_engine_id req.remote_handshake_port t.remote_te_port)
                key_error
              >>= λ te_port.
                  all_transfers locals remotes
                    (layer_block_len t.use_mla t.block_len_0 t.block_len_1) 0 groups.0 groups.1
                  >>= λ transfers. ok (transfers, te_port)

  unfoldable pub store_metadata : ℕ → AgentMetadata → Step (RecvingThread World Socket) (Unit {0})
  store_metadata port meta t =
      if meta.engine_id == t.local_engine_id then (err assertion_error, t) else (
        ok tt,
        record t {
          kv_caches_base_addr =
              insert_port meta.engine_id port meta.kv_caches_base_addr t.kv_caches_base_addr;
          remote_te_port = insert_port meta.engine_id port meta.te_rpc_port t.remote_te_port;
        },
      )

  -- The tracker after an update, and its message to the listener of rank 0, if any.
  unfoldable pub deliver :
      KvCacheTaskTracker × Option (ℕ × ℕ) → RecvingThread World Socket → RecvingThread World Socket
  deliver (tracker, sent) t = record t {
    task_tracker = tracker;
    signals = elim sent [ none ↦ t.signals | some s ↦ t.signals ++ s ∷ [] ];
  }

  unfoldable pub count_done : ℕ → RecvingThread World Socket → RecvingThread World Socket
  count_done request t = deliver (update_done_task_count request t.tp_rank t.task_tracker) t

  -- queue.Queue.task_done
  unfoldable pub task_done : Step (RecvingThread World Socket) (Unit {0})
  task_done t =
      if t.unfinished_tasks == 0
      then (err value_error, t)
      else (ok tt, record t { unfinished_tasks = t.unfinished_tasks - 1 })

  unfoldable pub add_request : PullRequest → RecvingThread World Socket → RecvingThread World Socket
  add_request req t = record t {
    request_queue = t.request_queue ++ some req ∷ [];
    unfinished_tasks = suc t.unfinished_tasks;
  }

module _ {World Socket Bytes : Type 0} (net : Transport World Socket Bytes) where
  unfoldable pub get_remote_socket : ℕ → ℕ → Step (RecvingThread World Socket) Socket
  get_remote_socket host port t =
      let path = net.make_zmq_path host port in
      elim (entries path t.remote_sockets) [
        | [] ↦ outside (net.make_socket path) t
        | socket ∷ rest ↦
            (ok socket, record t { remote_sockets = insert path rest t.remote_sockets })
      ]

  unfoldable pub return_remote_socket :
      Socket → ℕ → ℕ → RecvingThread World Socket → RecvingThread World Socket
  return_remote_socket socket host port t =
      let path = net.make_zmq_path host port in
      record t {
        remote_sockets =
            insert path (entries path t.remote_sockets ++ socket ∷ []) t.remote_sockets;
      }

  -- The `try` and `finally` around the use of a socket: once there is one, it is put back.
  unfoldable pub with_socket :
      {A : Type 0}
      → ℕ
      → ℕ
      → (Socket → Step (RecvingThread World Socket) A)
      → Step (RecvingThread World Socket) A
  with_socket host port body = get_remote_socket host port >>> λ socket t.
      let (r, t') = body socket t in (r, return_remote_socket socket host port t')

  unfoldable pub get_remote_metadata : ℕ → ℕ → Step (RecvingThread World Socket) (Unit {0})
  get_remote_metadata host port = with_socket host port (λ socket.
      outside (ensure_zmq_send net socket get_meta 3) >>> λ _.
      outside (ensure_zmq_recv net socket 3) >>> λ bytes.
      pure (or_fail (net.decode bytes) decode_error) >>> λ meta. store_metadata port meta)

  unfoldable pub check_ack : Bytes → Result (Unit {0})
  check_ack resp =
      guard (net.is_utf8 resp) value_error >>= λ _. guard (net.is_ack resp) runtime_error

  unfoldable pub send_done_recv_signal : ℕ → ℕ → ℕ → Step (RecvingThread World Socket) (Unit {0})
  send_done_recv_signal request host port t =
      with_socket host port
        (λ socket. outside (ensure_zmq_send net socket (done_recving request t.tp_rank) 3) >>> λ _.
          outside (ensure_zmq_recv net socket 3) >>> λ resp. pure (check_ack resp))
        t

  -- The remote metadata is fetched once for an engine and a port.
  unfoldable pub ensure_metadata : PullRequest → Step (RecvingThread World Socket) (Unit {0})
  ensure_metadata req t =
      elim (lookup_port req.remote_engine_id req.remote_handshake_port t.kv_caches_base_addr) [
        | none ↦ get_remote_metadata req.remote_host req.remote_handshake_port t
        | some _ ↦ (ok tt, t)
      ]

  unfoldable pub read_transfers :
      PullRequest → List Transfer × ℕ → Step (RecvingThread World Socket) (Unit {0})
  read_transfers req (transfers, te_port) =
      outside (net.batch_transfer_sync_read req.remote_host te_port transfers) >>> λ ret.
      pure (check_ret ret)

  unfoldable pub start_transfer : PullRequest → Step (RecvingThread World Socket) (Unit {0})
  start_transfer req =
      ensure_metadata req >>> λ _ t. (pure (plan_transfers req t) >>> read_transfers req) t

  unfoldable pub transfer_kv_cache : PullRequest → Step (RecvingThread World Socket) (Unit {0})
  transfer_kv_cache req = unless_empty req.local_block_ids (start_transfer req)

  -- Whatever the transfer raises is logged, and then the `finally` runs.
  unfoldable pub handle_request : PullRequest → Step (RecvingThread World Socket) (Unit {0})
  handle_request req t =
      let (_, t') = transfer_kv_cache req t in
      (send_done_recv_signal req.request_id req.remote_host req.remote_handshake_port >>> λ _.
      task_done)
        (count_done req.request_id t')

  -- One round of the thread's loop: what it raises is logged.
  unfoldable pub handle_item :
      Option PullRequest → RecvingThread World Socket → RecvingThread World Socket
  handle_item none t = (task_done t).1
  handle_item (some req) t = (handle_request req t).1

  unfoldable pub handle_items :
      List (Option PullRequest) → RecvingThread World Socket → RecvingThread World Socket
  handle_items [] t = t
  handle_items (item ∷ items) t = handle_items items (handle_item item t)

  -- The rounds until the queue is empty, where the thread waits.
  unfoldable pub run : RecvingThread World Socket → RecvingThread World Socket
  run t = handle_items t.request_queue (record t { request_queue = [] })
