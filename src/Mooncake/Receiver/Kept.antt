-- ===== src/Mooncake/Receiver/Kept.antt =====
-- vllm_ascend/distributed/mooncake_connector.py, KVCacheRecvingThread: what a transfer and an
-- exchange with a sending thread leave as it is, whether they return or raise.
use vllm_ascend_origin.Prelude.{
  entries, entries-insert, ℕ, ◌≡◌, refl, ap, ◌∙◌, inl, inr, List, [], ◌∷◌, ◌++◌, ==_self, insert,
  List-cases,
}
use vllm_ascend_origin.Prelude.Result.{ok, err, Result-cases, Ensures, Ensures-ok}
use vllm_ascend_origin.Prelude.Step.{Step, Keeps, then-ok, then-err}
use vllm_ascend_origin.Mooncake.Sockets.{Transport, RecvingThread, outside}
use vllm_ascend_origin.Mooncake.Receiver.{get_remote_socket, return_remote_socket, with_socket}
use vllm_ascend_origin.Mooncake.Receiver.Pool.{
  PoolKept, PoolKept-refl, PoolKept-cycle, PoolKept-join,
}

module _ {World Socket : Type 0} where
  -- The same rank, tracker, signals and pool.
  pub record Untouched (s s' : RecvingThread World Socket) : Type 0 where
    pub tp_rank : s'.tp_rank ≡ s.tp_rank
    pub task_tracker : s'.task_tracker ≡ s.task_tracker
    pub signals : s'.signals ≡ s.signals
    pub remote_sockets : s'.remote_sockets ≡ s.remote_sockets

  pub Untouched-refl : (s : RecvingThread World Socket) → Untouched s s
  Untouched-refl s = record {
    tp_rank = refl;
    task_tracker = refl;
    signals = refl;
    remote_sockets = refl;
  }

  pub Untouched-trans :
      (s t u : RecvingThread World Socket) → Untouched s t → Untouched t u → Untouched s u
  Untouched-trans s t u h k = record {
    tp_rank = k.tp_rank ∙ h.tp_rank;
    task_tracker = k.task_tracker ∙ h.task_tracker;
    signals = k.signals ∙ h.signals;
    remote_sockets = k.remote_sockets ∙ h.remote_sockets;
  }

  pub outside-Untouched : {A : Type 0} (m : Step World A) → Keeps Untouched (outside m)
  unfolding outside
  outside-Untouched m = record {
    kept =
        λ t. record { tp_rank = refl; task_tracker = refl; signals = refl; remote_sockets = refl };
  }

  -- The same rank, tracker and signals, and a pool that has kept its sockets.
  pub record Kept (Fits : ℕ → Socket → Type 0) (s s' : RecvingThread World Socket) : Type 0 where
    pub tp_rank : s'.tp_rank ≡ s.tp_rank
    pub task_tracker : s'.task_tracker ≡ s.task_tracker
    pub signals : s'.signals ≡ s.signals
    pub remote_sockets : PoolKept Fits s.remote_sockets s'.remote_sockets

-- What the uses of a socket keep, whatever the network does; sockets are made to fit their path.
module _ {World Socket Bytes : Type 0} (net : Transport World Socket Bytes)
    (Fits : ℕ → Socket → Type 0)
    (made : (path : ℕ) (w : World) → Ensures (Fits path) (net.make_socket path w).0) where
  returned-Kept :
      (host port : ℕ) (socket : Socket) (s t u : RecvingThread World Socket)
      → t.tp_rank ≡ s.tp_rank
      → t.task_tracker ≡ s.task_tracker
      → t.signals ≡ s.signals
      → Untouched t u
      → PoolKept Fits s.remote_sockets (
          insert
            (net.make_zmq_path host port)
            (entries (net.make_zmq_path host port) t.remote_sockets ++ socket ∷ [])
            t.remote_sockets)
      → Kept Fits s (return_remote_socket net socket host port u)
  unfolding return_remote_socket
  returned-Kept host port socket s t u rank tracker signals h pool = record {
    tp_rank = h.tp_rank ∙ rank;
    task_tracker = h.task_tracker ∙ tracker;
    signals = h.signals ∙ signals;
    remote_sockets = rw h.remote_sockets pool;
  }

  get_remote_socket-made :
      (host port : ℕ) (t : RecvingThread World Socket)
      → entries (net.make_zmq_path host port) t.remote_sockets ≡ []
      → get_remote_socket net host port t ≡ (
        (net.make_socket (net.make_zmq_path host port) t.world).0,
        record t { world = (net.make_socket (net.make_zmq_path host port) t.world).1 },
      )
  unfolding get_remote_socket outside
  get_remote_socket-made host port t e = rw (get_remote_socket, e)

  get_remote_socket-pooled :
      (host port : ℕ) (t : RecvingThread World Socket) (socket : Socket) (rest : List Socket)
      → entries (net.make_zmq_path host port) t.remote_sockets ≡ socket ∷ rest
      → get_remote_socket net host port t ≡ (
        ok socket,
        record t { remote_sockets = insert (net.make_zmq_path host port) rest t.remote_sockets },
      )
  unfolding get_remote_socket
  get_remote_socket-pooled host port t socket rest e = rw (get_remote_socket, e)

  pub with_socket-Kept :
      {A : Type 0} (host port : ℕ) (body : Socket → Step (RecvingThread World Socket) A)
      → ((socket : Socket) → Keeps Untouched (body socket))
      → Keeps (Kept Fits) (with_socket net host port body)
  unfolding with_socket outside
  with_socket-Kept host port body h = record {
    kept = λ t.
        let path : ℕ = net.make_zmq_path host port in
        elim (List-cases (entries path t.remote_sockets)) [
          | inl e ↦
              let t' : RecvingThread World Socket = record t {
                world = (net.make_socket path t.world).1;
              } in
              elim (Result-cases (net.make_socket path t.world).0) [
                | inl (socket, r) ↦
                    let got : get_remote_socket net host port t ≡ (ok socket, t') =
                      get_remote_socket-made host port t e ∙ ap (λ x. (x, t')) r in
                    rw (then-ok (get_remote_socket net host port) _ t t' socket got) (
                      returned-Kept host port socket t t' (body socket t').1 refl refl refl
                        ((h socket).kept t')
                        (PoolKept-join Fits path socket t.remote_sockets (
                          Ensures-ok (Fits path) (net.make_socket path t.world).0 socket
                            (made path t.world) r)))
                | inr (x, r) ↦
                    let got : get_remote_socket net host port t ≡ (err x, t') =
                      get_remote_socket-made host port t e ∙ ap (λ x. (x, t')) r in
                    rw (then-err (get_remote_socket net host port) _ t t' x got) (record {
                      tp_rank = refl;
                      task_tracker = refl;
                      signals = refl;
                      remote_sockets = PoolKept-refl Fits t.remote_sockets;
                    })
              ]
          | inr (socket, rest, e) ↦
              let pool : List (ℕ × List Socket) = insert path rest t.remote_sockets in
              let t' : RecvingThread World Socket = record t { remote_sockets = pool } in
              rw
                (then-ok (get_remote_socket net host port) _ t t' socket
                  (get_remote_socket-pooled host port t socket rest e))
                (returned-Kept host port socket t t' (body socket t').1 refl refl refl
                  ((h socket).kept t')
                  (PoolKept-cycle Fits path socket rest t.remote_sockets pool e
                    (rw (entries-insert path path rest t.remote_sockets, ==_self path))
                    (λ q ne. rw (entries-insert path q rest t.remote_sockets, ne))))
        ];
  }
