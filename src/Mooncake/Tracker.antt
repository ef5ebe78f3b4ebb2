-- ===== src/Mooncake/Tracker.antt =====
-- vllm_ascend/distributed/mooncake_connector.py: KVCacheTaskTracker, and the messages that
-- KVCacheSendingThread handles. The lock makes each method one step.
pub mod Signals
use vllm_ascend_origin.Prelude.{
  ℕ, ◌≡◌, Bool, true, false, Option, none, some, List, [], ◌∷◌, ◌==◌, if◌then◌else◌, length, elem,
  add, lookup, insert, erase,
}

pub record KvCacheTaskTracker : Type 0 where
  pub tp_rank : ℕ
  pub target_count : ℕ
  -- A defaultdict(set): a missing key reads as the empty set.
  pub done_task_counts : List (ℕ × List ℕ)
  pub finished_requests : List ℕ

unfoldable pub init_tracker : ℕ → ℕ → KvCacheTaskTracker
init_tracker tp_rank target_count = record {
  tp_rank = tp_rank;
  target_count = target_count;
  done_task_counts = [];
  finished_requests = [];
}

-- `self.done_task_counts[request_id]`, read
unfoldable pub done_ranks : ℕ → List (ℕ × List ℕ) → List ℕ
done_ranks id d = elim (lookup id d) [ none ↦ [] | some ranks ↦ ranks ]

unfoldable pub increment_task_count : ℕ → ℕ → KvCacheTaskTracker → KvCacheTaskTracker
increment_task_count id rank t =
    let ranks = done_ranks id t.done_task_counts in
    if elem rank ranks
    then t
    else (let ranks' = add rank ranks in
        if length ranks' == t.target_count
        then record t {
          finished_requests = add id t.finished_requests;
          done_task_counts = erase id t.done_task_counts;
        }
        else record t { done_task_counts = insert id ranks' t.done_task_counts })

unfoldable pub get_and_clear_finished_requests : KvCacheTaskTracker → List ℕ × KvCacheTaskTracker
get_and_clear_finished_requests t = (t.finished_requests, record t { finished_requests = [] })

-- Rank 0 counts the signal itself; any other rank sends it to the listener of rank 0.
unfoldable pub update_done_task_count :
    ℕ → ℕ → KvCacheTaskTracker → KvCacheTaskTracker × Option (ℕ × ℕ)
update_done_task_count id rank t =
    if t.tp_rank == 0 then (increment_task_count id rank t, none) else (t, some (id, rank))

-- The listener of rank 0, over the signals that it receives.
unfoldable pub listen : List (ℕ × ℕ) → KvCacheTaskTracker → KvCacheTaskTracker
listen [] t = t
listen ((id, rank) ∷ signals) t = listen signals (increment_task_count id rank t)

-- A decoded payload of the sending thread.
pub data Message : Type 0 where
  get_meta_msg : Message
  done_recving_msg : ℕ → ℕ → Message
  unexpected : Message

-- What the thread sends back to the identity of the request.
pub data Reply : Type 0 where
  metadata ack : Reply

module _ {Frame : Type 0} (is_empty : Frame → Bool) (decode : Frame → Option Message) where
  -- [f for f in frames if f != b""]
  unfoldable pub nonempty : List Frame → List Frame
  nonempty [] = []
  nonempty (f ∷ fs) = let rest = nonempty fs in if is_empty f then rest else f ∷ rest

  -- One round of the thread's loop: a malformed message is logged and dropped, and so is one that
  -- `decode` raises on (`none`).
  unfoldable pub handle_payload :
      List Frame → KvCacheTaskTracker → KvCacheTaskTracker × Option (ℕ × ℕ) × Option Reply
  handle_payload [] t = (t, none, none)
  handle_payload (f ∷ (g ∷ fs)) t = (t, none, none)
  handle_payload (f ∷ []) t = elim (decode f) [
    | none ↦ (t, none, none)
    | some m ↦ elim m [
      | get_meta_msg ↦ (t, none, some metadata)
      | done_recving_msg id rank ↦
          let (t', sent) = update_done_task_count id rank t in (t', sent, some ack)
      | unexpected ↦ (t, none, none)
    ]
  ]

  unfoldable pub handle_frames :
      List Frame → KvCacheTaskTracker → KvCacheTaskTracker × Option (ℕ × ℕ) × Option Reply
  handle_frames [] t = (t, none, none)
  handle_frames (identity ∷ []) t = (t, none, none)
  handle_frames (identity ∷ (f ∷ fs)) t = handle_payload (nonempty (f ∷ fs)) t
