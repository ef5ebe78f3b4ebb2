-- ===== src/Mooncake/Receiver/Pooled.antt =====
-- vllm_ascend/distributed/mooncake_connector.py, KVCacheRecvingThread.run: the pool of sockets over
-- all rounds of the thread, whatever fails.
use vllm_ascend_origin.Prelude.{ℕ, ◌≡◌, refl, Option, none, some, List, [], ◌∷◌}
use vllm_ascend_origin.Prelude.Result.{Ensures}
use vllm_ascend_origin.Prelude.Step.{then-Keeps}
use vllm_ascend_origin.Mooncake.Sockets.{Transport, RecvingThread, PullRequest}
use vllm_ascend_origin.Mooncake.Receiver.{
  deliver, count_done, transfer_kv_cache, handle_request, handle_item, handle_items, run,
}
use vllm_ascend_origin.Mooncake.Receiver.Pool.{PoolKept, PoolKept-refl, PoolKept-trans}
use vllm_ascend_origin.Mooncake.Receiver.Kept.{Kept}
use vllm_ascend_origin.Mooncake.Receiver.Exchanges.{
  Kept-trans, transfer_kv_cache-Kept, send_done_recv_signal-Kept,
}
use vllm_ascend_origin.Mooncake.Receiver.Counted.{task_done-Kept}

count_done-remote_sockets :
    {World Socket : Type 0} (request : ℕ) (t : RecvingThread World Socket)
    → (count_done request t).remote_sockets ≡ t.remote_sockets
unfolding count_done deliver
count_done-remote_sockets request t = refl

module _ {World Socket Bytes : Type 0} (net : Transport World Socket Bytes)
    (Fits : ℕ → Socket → Type 0)
    (made : (path : ℕ) (w : World) → Ensures (Fits path) (net.make_socket path w).0) where
  handle_item-PoolKept :
      (item : Option PullRequest) (s : RecvingThread World Socket)
      → PoolKept Fits s.remote_sockets (handle_item net item s).remote_sockets
  unfolding handle_item handle_request
  handle_item-PoolKept none s = ((task_done-Kept Fits).kept s).remote_sockets
  handle_item-PoolKept (some req) s =
      let t : RecvingThread World Socket = (transfer_kv_cache net req s).1 in
      let u : RecvingThread World Socket = count_done req.request_id t in
      let moved : PoolKept Fits s.remote_sockets u.remote_sockets =
        rw (count_done-remote_sockets req.request_id t)
          (((transfer_kv_cache-Kept net Fits made req).kept s).remote_sockets) in
      let after =
        (then-Keeps (Kept Fits) (Kept-trans Fits)
            (send_done_recv_signal-Kept net Fits made req.request_id req.remote_host
              req.remote_handshake_port)
            (λ _. task_done-Kept Fits)).kept
          u in
      PoolKept-trans Fits s.remote_sockets u.remote_sockets
        (handle_item net (some req) s).remote_sockets moved after.remote_sockets

  handle_items-PoolKept :
      (items : List (Option PullRequest)) (s : RecvingThread World Socket)
      → PoolKept Fits s.remote_sockets (handle_items net items s).remote_sockets
  unfolding handle_items
  handle_items-PoolKept [] s = PoolKept-refl Fits s.remote_sockets
  handle_items-PoolKept (item ∷ items) s =
      let t : RecvingThread World Socket = handle_item net item s in
      PoolKept-trans Fits s.remote_sockets t.remote_sockets
        (handle_items net items t).remote_sockets (handle_item-PoolKept item s)
        (handle_items-PoolKept items t)

-- Let the sockets that are made for a path fit it. Whatever the network and the engine do, the
-- rounds over the queue leave as many sockets or more in the pool of each path, and if those of a
-- path fit it before, they do after.
pub run-PoolKept :
    {World Socket Bytes : Type 0} (net : Transport World Socket Bytes) (Fits : ℕ → Socket → Type 0)
    (t : RecvingThread World Socket)
    → ((path : ℕ) (w : World) → Ensures (Fits path) (net.make_socket path w).0)
    → PoolKept Fits t.remote_sockets (run net t).remote_sockets
unfolding run
run-PoolKept net Fits t made =
    handle_items-PoolKept net Fits made t.request_queue (record t { request_queue = [] })
