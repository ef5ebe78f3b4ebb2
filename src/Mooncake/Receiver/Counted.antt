-- ===== src/Mooncake/Receiver/Counted.antt =====
-- vllm_ascend/distributed/mooncake_connector.py, KVCacheRecvingThread.run: each request of the queue
-- is counted once, and no socket of the pool is lost, whatever fails.
use vllm_ascend_origin.Prelude.{
  ℕ, ◌≡◌, refl, sym, ap, ◌∙◌, inl, inr, true, false, Bool-cases, Option, none, some, List, [], ◌∷◌,
  ◌++◌, ◌==◌, ==→eq, arith,
}
use mathlib.Core.List.{append-nil, append_assoc}
use mathlib.Core.Path.{subst}
use vllm_ascend_origin.Prelude.Result.{Ensures, Ensures-any}
use vllm_ascend_origin.Prelude.Step.{Keeps, then-Keeps}
use vllm_ascend_origin.Mooncake.Tracker.{
  KvCacheTaskTracker, increment_task_count, update_done_task_count, listen,
}
use vllm_ascend_origin.Mooncake.Sockets.{Transport, RecvingThread, PullRequest}
use vllm_ascend_origin.Mooncake.Receiver.{
  deliver, count_done, task_done, transfer_kv_cache, handle_request, handle_item, handle_items, run,
}
use vllm_ascend_origin.Mooncake.Receiver.Pool.{PoolKept-refl}
use vllm_ascend_origin.Mooncake.Receiver.Kept.{Kept}
use vllm_ascend_origin.Mooncake.Receiver.Exchanges.{
  Kept-refl, Kept-trans, transfer_kv_cache-Kept, send_done_recv_signal-Kept,
}

-- One signal for each request among the items, in their order.
abbrev pub signals_of : ℕ → List (Option PullRequest) → List (ℕ × ℕ)
signals_of rank [] = []
signals_of rank (none ∷ items) = signals_of rank items
signals_of rank (some req ∷ items) = (req.request_id, rank) ∷ signals_of rank items

listen-append :
    (xs ys : List (ℕ × ℕ)) (t : KvCacheTaskTracker) → listen (xs ++ ys) t ≡ listen ys (listen xs t)
unfolding listen
listen-append [] ys t = refl
listen-append ((id, rank) ∷ xs) ys t = listen-append xs ys (increment_task_count id rank t)

increment-tp_rank :
    (id rank : ℕ) (t : KvCacheTaskTracker) → (increment_task_count id rank t).tp_rank ≡ t.tp_rank
unfolding increment_task_count
increment-tp_rank id rank t = ground arith

update-own :
    (id rank : ℕ) (t : KvCacheTaskTracker)
    → (t.tp_rank == 0) ≡ true
    → update_done_task_count id rank t ≡ (increment_task_count id rank t, none)
unfolding update_done_task_count
update-own id rank t e = rw (update_done_task_count, e)

update-sent :
    (id rank : ℕ) (t : KvCacheTaskTracker)
    → (t.tp_rank == 0) ≡ false
    → update_done_task_count id rank t ≡ (t, some (id, rank))
unfolding update_done_task_count
update-sent id rank t e = rw (update_done_task_count, e)

module _ {World Socket : Type 0} where
  -- The signals are counted by rank 0, and any other rank has sent them.
  pub record Counted (sent : List (ℕ × ℕ)) (s s' : RecvingThread World Socket) : Type 0 where
    pub tp_rank : s'.tp_rank ≡ s.tp_rank
    pub own : s'.task_tracker.tp_rank ≡ s'.tp_rank
    pub first :
        s.tp_rank ≡ 0 → (s'.task_tracker ≡ listen sent s.task_tracker) × (s'.signals ≡ s.signals)
    pub other :
        (s.tp_rank == 0) ≡ false
        → (s'.task_tracker ≡ s.task_tracker) × (s'.signals ≡ s.signals ++ sent)

  Counted-none :
      (s s' : RecvingThread World Socket)
      → s.task_tracker.tp_rank ≡ s.tp_rank
      → s'.tp_rank ≡ s.tp_rank
      → s'.task_tracker ≡ s.task_tracker
      → s'.signals ≡ s.signals
      → Counted [] s s'
  unfolding listen
  Counted-none s s' own rank tracker signals = record {
    tp_rank = rank;
    own = ap (λ (t : KvCacheTaskTracker). t.tp_rank) tracker ∙ own ∙ sym rank;
    first = λ zero. (tracker, signals);
    other = λ more. (tracker, signals ∙ sym (append-nil s.signals));
  }

  Counted-trans :
      (xs ys : List (ℕ × ℕ)) (s t u : RecvingThread World Socket)
      → Counted xs s t
      → Counted ys t u
      → Counted (xs ++ ys) s u
  Counted-trans xs ys s t u h k = record {
    tp_rank = k.tp_rank ∙ h.tp_rank;
    own = k.own;
    first = λ zero.
        let (a, b) = h.first zero in
        let (c, d) = k.first (h.tp_rank ∙ zero) in
        (c ∙ ap (listen ys) a ∙ sym (listen-append xs ys s.task_tracker), d ∙ b);
    other = λ more.
        let (a, b) = h.other more in
        let (c, d) = k.other (rw h.tp_rank more) in
        (c ∙ a, d ∙ ap (λ l. l ++ ys) b ∙ append_assoc s.signals xs ys);
  }

  deliver-own :
      (request : ℕ) (s : RecvingThread World Socket)
      → s.task_tracker.tp_rank ≡ s.tp_rank
      → s.tp_rank ≡ 0
      → Counted
          ((request, s.tp_rank) ∷ [])
          s
          (deliver (increment_task_count request s.tp_rank s.task_tracker, none) s)
  unfolding deliver listen
  deliver-own request s own e = record {
    tp_rank = refl;
    own = increment-tp_rank request s.tp_rank s.task_tracker ∙ own;
    first = λ zero. (refl, refl);
    other = λ more. ground (arith, e, more);
  }

  deliver-sent :
      (request : ℕ) (s : RecvingThread World Socket)
      → s.task_tracker.tp_rank ≡ s.tp_rank
      → (s.tp_rank == 0) ≡ false
      → Counted
          ((request, s.tp_rank) ∷ [])
          s
          (deliver (s.task_tracker, some (request, s.tp_rank)) s)
  unfolding deliver
  deliver-sent request s own e = record {
    tp_rank = refl;
    own = own;
    first = λ zero. ground (arith, e, zero);
    other = λ more. (refl, refl);
  }

  count_done-Counted :
      (request : ℕ) (s : RecvingThread World Socket)
      → s.task_tracker.tp_rank ≡ s.tp_rank
      → Counted ((request, s.tp_rank) ∷ []) s (count_done request s)
  unfolding count_done
  count_done-Counted request s own = elim (Bool-cases (s.tp_rank == 0)) [
    | inl e ↦
        rw (update-own request s.tp_rank s.task_tracker (rw own e))
          (deliver-own request s own (==→eq s.tp_rank 0 e))
    | inr e ↦
        rw (update-sent request s.tp_rank s.task_tracker (rw own e)) (deliver-sent request s own e)
  ]

  pub task_done-Kept : (Fits : ℕ → Socket → Type 0) → Keeps (Kept Fits) (task_done {World = World})
  unfolding task_done
  task_done-Kept Fits = record {
    kept = λ t. elim (Bool-cases (t.unfinished_tasks == 0)) [
      | inl e ↦ rw (task_done, e) (Kept-refl Fits t)
      | inr e ↦
          rw (task_done, e)
            (record {
              tp_rank = refl;
              task_tracker = refl;
              signals = refl;
              remote_sockets = PoolKept-refl Fits t.remote_sockets;
            })
    ];
  }

module _ {World Socket Bytes : Type 0} (net : Transport World Socket Bytes) where
  Whatever : ℕ → Socket → Type 0
  Whatever path socket = Unit

  any_made : (path : ℕ) (w : World) → Ensures (Whatever path) (net.make_socket path w).0
  unfolding Whatever
  any_made path w = Ensures-any (net.make_socket path w).0

  -- The counting between the transfer and the done signal.
  handle_item-Counted :
      (item : Option PullRequest) (s : RecvingThread World Socket)
      → s.task_tracker.tp_rank ≡ s.tp_rank
      → Counted (signals_of s.tp_rank (item ∷ [])) s (handle_item net item s)
  unfolding handle_item handle_request
  handle_item-Counted none s own =
      let done = (task_done-Kept Whatever).kept s in
      Counted-none s (task_done s).1 own done.tp_rank done.task_tracker done.signals
  handle_item-Counted (some req) s own =
      let t : RecvingThread World Socket = (transfer_kv_cache net req s).1 in
      let u : RecvingThread World Socket = count_done req.request_id t in
      let moved = (transfer_kv_cache-Kept net Whatever any_made req).kept s in
      let before = Counted-none s t own moved.tp_rank moved.task_tracker moved.signals in
      let counted = count_done-Counted req.request_id t before.own in
      let after =
        (then-Keeps (Kept Whatever) (Kept-trans Whatever)
            (send_done_recv_signal-Kept net Whatever any_made req.request_id req.remote_host
              req.remote_handshake_port)
            (λ _. task_done-Kept Whatever)).kept
          u in
      let last =
        Counted-none u (handle_item net (some req) s) counted.own after.tp_rank after.task_tracker
          after.signals in
      subst (λ rank. Counted ((req.request_id, rank) ∷ []) s (handle_item net (some req) s))
        before.tp_rank
        (Counted-trans [] ((req.request_id, t.tp_rank) ∷ []) s t (handle_item net (some req) s)
          before
          (Counted-trans ((req.request_id, t.tp_rank) ∷ []) [] t u (handle_item net (some req) s)
            counted last))

  signals_of-append :
      (rank : ℕ) (item : Option PullRequest) (items : List (Option PullRequest))
      → signals_of rank (item ∷ items) ≡ signals_of rank (item ∷ []) ++ signals_of rank items
  signals_of-append rank none items = refl
  signals_of-append rank (some req) items = refl

  handle_items-Counted :
      (items : List (Option PullRequest)) (s : RecvingThread World Socket)
      → s.task_tracker.tp_rank ≡ s.tp_rank
      → Counted (signals_of s.tp_rank items) s (handle_items net items s)
  unfolding handle_items
  handle_items-Counted [] s own = Counted-none s s own refl refl refl
  handle_items-Counted (item ∷ items) s own =
      let t : RecvingThread World Socket = handle_item net item s in
      let now = handle_item-Counted item s own in
      let rest : Counted (signals_of s.tp_rank items) t (handle_items net items t) =
        subst (λ rank. Counted (signals_of rank items) t (handle_items net items t)) now.tp_rank
          (handle_items-Counted items t now.own) in
      rw (signals_of-append s.tp_rank item items) (
        Counted-trans (signals_of s.tp_rank (item ∷ [])) (signals_of s.tp_rank items) s t
          (handle_items net items t) now rest)

-- Let the thread's tracker be of its own rank. Whatever the network and the engine do, the rounds
-- over the queue count each request of the queue once, in the order of the queue: on rank 0 the
-- tracker ends as after listening to these signals and nothing is sent, and on any other rank the
-- tracker is as before and these signals have been sent to rank 0.
pub run-Counted :
    {World Socket Bytes : Type 0} (net : Transport World Socket Bytes)
    (t : RecvingThread World Socket)
    → t.task_tracker.tp_rank ≡ t.tp_rank
    → Counted (signals_of t.tp_rank t.request_queue) t (run net t)
unfolding run
run-Counted net t own =
    let s = handle_items-Counted net t.request_queue (record t { request_queue = [] }) own in
    record { tp_rank = s.tp_rank; own = s.own; first = s.first; other = s.other }
