-- ===== src/Mooncake/Tracker/Signals.antt =====
-- vllm_ascend/distributed/mooncake_connector.py, KVCacheTaskTracker: when a request counts as
-- finished, whatever signals of other requests come in between.
use vllm_ascend_origin.Prelude.{
  Distinct, ℕ, ◌+◌, ◌≤◌, ◌<◌, ◌≡◌, refl, false, inl, inr, List, [], ◌∷◌, ◌++◌, arith, ◌==◌,
  if◌then◌else◌, ap, sym, ◌∙◌, ==→eq, Bool-cases, length, length-append, elem, elem-append, add,
  elem-add, lookup, insert, erase, lookup-insert, UniqueKeys, lookup-erase, erase-UniqueKeys,
  insert-UniqueKeys,
}
use mathlib.Core.List.{append-nil, append_assoc}
use vllm_ascend_origin.Mooncake.Tracker.{
  KvCacheTaskTracker, init_tracker, get_and_clear_finished_requests, done_ranks,
  increment_task_count, listen,
}

-- The ranks that report a request, in the order of their signals.
abbrev pub ranks_of : ℕ → List (ℕ × ℕ) → List ℕ
ranks_of x [] = []
ranks_of x ((id, rank) ∷ s) = if id == x then rank ∷ ranks_of x s else ranks_of x s

-- `ranks` have reported the request `x`, and it is finished exactly if all have.
pub record Reported (x : ℕ) (ranks : List ℕ) (t : KvCacheTaskTracker) : Type 0 where
  pub unique : UniqueKeys t.done_task_counts
  pub finished : elem x t.finished_requests ≡ (length ranks == t.target_count)
  pub counted : length ranks < t.target_count → done_ranks x t.done_task_counts ≡ ranks

pub done_ranks-insert :
    (id x : ℕ) (v : List ℕ) (d : List (ℕ × List ℕ))
    → done_ranks x (insert id v d) ≡ (if id == x then v else done_ranks x d)
unfolding done_ranks
done_ranks-insert id x v d = ground (arith, lookup-insert id x v d)

pub done_ranks-erase :
    (id x : ℕ) (d : List (ℕ × List ℕ))
    → UniqueKeys d
    → done_ranks x (erase id d) ≡ (if id == x then [] else done_ranks x d)
unfolding done_ranks
done_ranks-erase id x d u = ground (arith, lookup-erase id x d u)

-- A signal of another request changes nothing for this one.
increment_other :
    (x id rank : ℕ) (ranks : List ℕ) (t : KvCacheTaskTracker)
    → (id == x) ≡ false
    → Reported x ranks t
    → Reported x ranks (increment_task_count id rank t)
unfolding increment_task_count
increment_other x id rank ranks t ne h =
    elim (Bool-cases (elem rank (done_ranks id t.done_task_counts))) [
      | inl e ↦ rw e h
      | inr e ↦
          elim (Bool-cases
            (length (add rank (done_ranks id t.done_task_counts)) == t.target_count)) [
              | inl f ↦
                  rw (e, f)
                    (record {
                      unique = erase-UniqueKeys id t.done_task_counts h.unique;
                      finished = ground (arith, elem-add x id t.finished_requests, h.finished);
                      counted = λ room. ground (
                        arith,
                        done_ranks-erase id x t.done_task_counts h.unique,
                        h.counted room,
                      );
                    })
              | inr f ↦
                  rw (e, f)
                    (record {
                      unique =
                          insert-UniqueKeys id (add rank (done_ranks id t.done_task_counts))
                            t.done_task_counts h.unique;
                      finished = h.finished;
                      counted = λ room. ground (
                        arith,
                        done_ranks-insert id x (add rank (done_ranks id t.done_task_counts))
                            t.done_task_counts,
                        h.counted room,
                      );
                    })
            ]
    ]

-- The last of the target's ranks finishes the request, and any other only adds itself.
increment_self :
    (x rank : ℕ) (ranks : List ℕ) (t : KvCacheTaskTracker)
    → elem rank ranks ≡ false
    → length ranks < t.target_count
    → Reported x ranks t
    → Reported x (ranks ++ rank ∷ []) (increment_task_count x rank t)
unfolding increment_task_count add
increment_self x rank ranks t new room h =
    let same : done_ranks x t.done_task_counts ≡ ranks = h.counted room in
    let size : length (ranks ++ rank ∷ []) ≡ length ranks + 1 = length-append ranks (rank ∷ []) in
    elim (Bool-cases (length (ranks ++ rank ∷ []) == t.target_count)) [
      | inl f ↦
          rw (same, new, f)
            (record {
              unique = erase-UniqueKeys x t.done_task_counts h.unique;
              finished = ground (arith, elem-add x x t.finished_requests, f);
              counted = λ lt. ground (arith, f, lt);
            })
      | inr f ↦
          rw (same, new, f)
            (record {
              unique = insert-UniqueKeys x (ranks ++ rank ∷ []) t.done_task_counts h.unique;
              finished = ground (arith, h.finished, f, size);
              counted = λ lt.
                  ground (arith, done_ranks-insert x x (ranks ++ rank ∷ []) t.done_task_counts);
            })
    ]

increment-target_count :
    (x rank : ℕ) (t : KvCacheTaskTracker)
    → (increment_task_count x rank t).target_count ≡ t.target_count
unfolding increment_task_count
increment-target_count x rank t = ground arith

pub elem-Distinct :
    (r : ℕ) (ranks rest : List ℕ) → Distinct (ranks ++ r ∷ rest) → elem r ranks ≡ false
elem-Distinct r [] rest d = refl
elem-Distinct r (k ∷ ranks) rest d =
    ground (arith, elem-Distinct r ranks rest d.1, d.0, elem-append k ranks (r ∷ rest))

-- From any tracker on: the ranks reported so far and those still to come are distinct.
pub listen-Reported :
    (x : ℕ) (signals : List (ℕ × ℕ)) (ranks : List ℕ) (t : KvCacheTaskTracker)
    → Distinct (ranks ++ ranks_of x signals)
    → length (ranks ++ ranks_of x signals) ≤ t.target_count
    → Reported x ranks t
    → Reported x (ranks ++ ranks_of x signals) (listen signals t)
unfolding listen
listen-Reported x [] ranks t d room h = rw (append-nil ranks) h
listen-Reported x ((id, rank) ∷ signals) ranks t d room h =
    let next : KvCacheTaskTracker = increment_task_count id rank t in
    let same : next.target_count ≡ t.target_count = increment-target_count id rank t in
    elim (Bool-cases (id == x)) [
      | inl e ↦
          let d' : Distinct (ranks ++ rank ∷ ranks_of x signals) = rw e at d in
          let room' : length (ranks ++ rank ∷ ranks_of x signals) ≤ t.target_count = rw e at room in
          let grown : Reported x (ranks ++ rank ∷ []) next = rw (==→eq id x e) (
            increment_self x rank ranks t (elem-Distinct rank ranks (ranks_of x signals) d')
              (omega (arith, room', length-append ranks (rank ∷ ranks_of x signals))) h) in
          rw (e, sym (append_assoc ranks (rank ∷ []) (ranks_of x signals)))
            (listen-Reported x signals (ranks ++ rank ∷ []) next
              (rw (append_assoc ranks (rank ∷ []) (ranks_of x signals)) d')
              (rw (same, append_assoc ranks (rank ∷ []) (ranks_of x signals)) room') grown)
      | inr e ↦ rw e (
          listen-Reported x signals ranks next (rw e at d) (rw (e, sym same) at room)
            (increment_other x id rank ranks t e h))
    ]

listen-target_count :
    (signals : List (ℕ × ℕ)) (t : KvCacheTaskTracker)
    → (listen signals t).target_count ≡ t.target_count
unfolding listen
listen-target_count [] t = refl
listen-target_count ((id, rank) ∷ signals) t =
    listen-target_count signals (increment_task_count id rank t) ∙ increment-target_count id rank t

-- Let the listener of a fresh tracker receive signals of any requests in any order, those of the
-- request `x` from distinct ranks and no more than the target count. Then `x` is among the
-- finished requests exactly if the signals of `x` are as many as the target count.
pub get_and_clear_finished_requests-listen :
    (x rank target : ℕ) (signals : List (ℕ × ℕ))
    → 0 < target
    → Distinct (ranks_of x signals)
    → length (ranks_of x signals) ≤ target
    → elem x (get_and_clear_finished_requests (listen signals (init_tracker rank target))).0
      ≡ (length (ranks_of x signals) == target)
unfolding get_and_clear_finished_requests init_tracker done_ranks lookup
get_and_clear_finished_requests-listen x rank target signals pos d room =
    let reached : Reported x (ranks_of x signals) (listen signals (init_tracker rank target)) =
      listen-Reported x signals [] (init_tracker rank target) d room
        (record { unique = tt; finished = ground (arith, pos); counted = λ lt. refl }) in
    reached.finished
    ∙ ap (λ n. length (ranks_of x signals) == n)
        (listen-target_count signals (init_tracker rank target))
