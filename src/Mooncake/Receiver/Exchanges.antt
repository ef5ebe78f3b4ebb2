-- ===== src/Mooncake/Receiver/Exchanges.antt =====
-- vllm_ascend/distributed/mooncake_connector.py, KVCacheRecvingThread._transfer_kv_cache and
-- _send_done_recv_signal: neither counts a request, and neither loses a socket.
use vllm_ascend_origin.Prelude.{
  ℕ, refl, ◌∙◌, inl, inr, Bool-cases, Option-cases, ◌==◌, List, [], ◌∷◌,
}
use vllm_ascend_origin.Prelude.Result.{Ensures, or_fail, decode_error}
use vllm_ascend_origin.Prelude.Step.{Step, ◌>>>◌, Keeps, pure-Keeps, then-Keeps}
use vllm_ascend_origin.Mooncake.Transfer.{Transfer}
use vllm_ascend_origin.Mooncake.Sockets.{
  AgentMetadata, Transport, Sent, get_meta, done_recving, RecvingThread, PullRequest, outside,
  ensure_zmq_send, ensure_zmq_recv,
}
use vllm_ascend_origin.Mooncake.Receiver.{
  store_metadata, get_remote_metadata, send_done_recv_signal, ensure_metadata, read_transfers,
  transfer_kv_cache, start_transfer, unless_empty, lookup_port, plan_transfers, check_ret,
  check_ack,
}
use vllm_ascend_origin.Mooncake.Receiver.Pool.{PoolKept-refl, PoolKept-trans}
use vllm_ascend_origin.Mooncake.Receiver.Kept.{
  Untouched, Untouched-refl, Untouched-trans, outside-Untouched, Kept, with_socket-Kept,
}

pub Kept-trans :
    {World Socket : Type 0} (Fits : ℕ → Socket → Type 0) (s t u : RecvingThread World Socket)
    → Kept Fits s t
    → Kept Fits t u
    → Kept Fits s u
Kept-trans Fits s t u h k = record {
  tp_rank = k.tp_rank ∙ h.tp_rank;
  task_tracker = k.task_tracker ∙ h.task_tracker;
  signals = k.signals ∙ h.signals;
  remote_sockets =
      PoolKept-trans Fits s.remote_sockets t.remote_sockets u.remote_sockets h.remote_sockets
        k.remote_sockets;
}

Untouched-Kept :
    {World Socket : Type 0} (Fits : ℕ → Socket → Type 0) (s t : RecvingThread World Socket)
    → Untouched s t
    → Kept Fits s t
Untouched-Kept Fits s t h = record {
  tp_rank = h.tp_rank;
  task_tracker = h.task_tracker;
  signals = h.signals;
  remote_sockets = rw h.remote_sockets (PoolKept-refl Fits s.remote_sockets);
}

pub Kept-refl :
    {World Socket : Type 0} (Fits : ℕ → Socket → Type 0) (s : RecvingThread World Socket)
    → Kept Fits s s
Kept-refl Fits s = Untouched-Kept Fits s s (Untouched-refl s)

store_metadata-Untouched :
    {World Socket : Type 0} (port : ℕ) (meta : AgentMetadata)
    → Keeps (Untouched {World = World} {Socket = Socket}) (store_metadata port meta)
unfolding store_metadata
store_metadata-Untouched port meta = record {
  kept = λ t. elim (Bool-cases (meta.engine_id == t.local_engine_id)) [
    | inl e ↦ rw e (Untouched-refl t)
    | inr e ↦
        rw e (record { tp_rank = refl; task_tracker = refl; signals = refl; remote_sockets = refl })
  ];
}

unless_empty-Keeps :
    {S : Type 0} (R : S → S → Type 0)
    → ((s : S) → R s s)
    → (ids : List ℕ) {m : Step S (Unit {0})} → Keeps R m
    → Keeps R (unless_empty ids m)
unfolding unless_empty
unless_empty-Keeps R same [] h = record { kept = same }
unless_empty-Keeps R same (x ∷ xs) h = record { kept = h.kept }

module _ {World Socket Bytes : Type 0} (net : Transport World Socket Bytes)
    (Fits : ℕ → Socket → Type 0)
    (made : (path : ℕ) (w : World) → Ensures (Fits path) (net.make_socket path w).0) where
  -- A message and its answer, however the answer is taken.
  exchange-Untouched :
      {A : Type 0} (socket : Socket) (message : Sent)
      {use_answer : Bytes → Step (RecvingThread World Socket) A}
      → ((bytes : Bytes) → Keeps Untouched (use_answer bytes))
      → Keeps Untouched (
          outside (ensure_zmq_send net socket message 3) >>> λ _.
          outside (ensure_zmq_recv net socket 3) >>> use_answer)
  exchange-Untouched socket message h =
      then-Keeps Untouched Untouched-trans
        (outside-Untouched (ensure_zmq_send net socket message 3))
        (λ _.
          then-Keeps Untouched Untouched-trans (outside-Untouched (ensure_zmq_recv net socket 3)) h)

  get_remote_metadata-Kept : (host port : ℕ) → Keeps (Kept Fits) (get_remote_metadata net host port)
  unfolding get_remote_metadata
  get_remote_metadata-Kept host port = with_socket-Kept net Fits made host port _ (λ socket.
      exchange-Untouched socket get_meta (λ bytes.
        then-Keeps Untouched Untouched-trans
          (pure-Keeps Untouched (or_fail (net.decode bytes) decode_error) Untouched-refl)
          (store_metadata-Untouched port)))

  pub send_done_recv_signal-Kept :
      (request host port : ℕ) → Keeps (Kept Fits) (send_done_recv_signal net request host port)
  unfolding send_done_recv_signal
  send_done_recv_signal-Kept request host port = record {
    kept = λ t.
        (with_socket-Kept net Fits made host port _ (λ socket.
            exchange-Untouched socket (done_recving request t.tp_rank)
              (λ bytes. pure-Keeps Untouched (check_ack net bytes) Untouched-refl))).kept
          t;
  }

  ensure_metadata-Kept : (req : PullRequest) → Keeps (Kept Fits) (ensure_metadata net req)
  unfolding ensure_metadata
  ensure_metadata-Kept req = record {
    kept = λ t.
        elim (Option-cases
          (lookup_port req.remote_engine_id req.remote_handshake_port t.kv_caches_base_addr)) [
            | inl e ↦
                rw (ensure_metadata, e)
                  ((get_remote_metadata-Kept req.remote_host req.remote_handshake_port).kept t)
            | inr (_, e) ↦ rw (ensure_metadata, e) (Kept-refl Fits t)
          ];
  }

  read_transfers-Untouched :
      (req : PullRequest) (plan : List Transfer × ℕ) → Keeps Untouched (read_transfers net req plan)
  unfolding read_transfers
  read_transfers-Untouched req (transfers, te_port) =
      then-Keeps Untouched Untouched-trans
        (outside-Untouched (net.batch_transfer_sync_read req.remote_host te_port transfers))
        (λ ret. pure-Keeps Untouched (check_ret ret) Untouched-refl)

  start_transfer-Kept : (req : PullRequest) → Keeps (Kept Fits) (start_transfer net req)
  unfolding start_transfer
  start_transfer-Kept req =
      then-Keeps (Kept Fits) (Kept-trans Fits) (ensure_metadata-Kept req) (λ _. record {
        kept = λ s.
            (then-Keeps (Kept Fits) (Kept-trans Fits)
                (pure-Keeps (Kept Fits) (plan_transfers req s) (Kept-refl Fits))
                (λ plan. record {
                  kept = λ u.
                      Untouched-Kept Fits u (read_transfers net req plan u).1
                        ((read_transfers-Untouched req plan).kept u);
                })).kept
              s;
      })

  pub transfer_kv_cache-Kept : (req : PullRequest) → Keeps (Kept Fits) (transfer_kv_cache net req)
  unfolding transfer_kv_cache
  transfer_kv_cache-Kept req =
      unless_empty-Keeps (Kept Fits) (Kept-refl Fits) req.local_block_ids (start_transfer-Kept req)
