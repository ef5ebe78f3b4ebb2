-- ===== src/Mooncake/Transfer.antt =====
-- vllm_ascend/distributed/mooncake_connector.py: how KVCacheRecvingThread turns block ids into
-- transfers, and its group_concurrent_contiguous.
pub mod Groups
use vllm_ascend_origin.Prelude.{
  ℕ, suc, ◌+◌, ◌-◌, ◌*◌, ◌%◌, Bool, true, false, not, ◌||◌, List, [], ◌∷◌, ◌++◌, ◌==◌,
  if◌then◌else◌, length, take, drop,
}
use vllm_ascend_origin.Prelude.Result.{Result, ok, err, ◌>>=◌}
use vllm_ascend_origin.Prelude.Result.Fault.{value_error, index_error, runtime_error}

-- `np.diff(x) != 1`
unfoldable pub breaks : List ℕ → List Bool
breaks [] = []
breaks (x ∷ []) = []
breaks (x ∷ (y ∷ ys)) = not (y == suc x) ∷ breaks (y ∷ ys)

unfoldable pub or_all : List Bool → List Bool → List Bool
or_all [] bs = []
or_all (a ∷ vs) [] = []
or_all (a ∷ vs) (b ∷ bs) = (a || b) ∷ or_all vs bs

unfoldable pub or_each : Bool → List Bool → List Bool
or_each a [] = []
or_each a (b ∷ bs) = (a || b) ∷ or_each a bs

-- `a | b` of two arrays: one with a single element is broadcast.
unfoldable pub or_broadcast : List Bool → List Bool → Result (List Bool)
or_broadcast vs bs = if length vs == length bs then ok (or_all vs bs) else elim vs [
  | a ∷ [] ↦ ok (or_each a bs)
  | ws ↦ elim bs [ b ∷ [] ↦ ok (or_each b ws) | _ ↦ err value_error ]
]

-- `np.where(flags)[0] + 1`, the positions from `i` on
unfoldable pub where_next : ℕ → List Bool → List ℕ
where_next i [] = []
where_next i (b ∷ bs) = let rest = where_next (suc i) bs in if b then suc i ∷ rest else rest

-- `np.split(xs, brk)`, `xs` from the position `i` on
unfoldable pub split : ℕ → List ℕ → List ℕ → List (List ℕ)
split i [] xs = xs ∷ []
split i (b ∷ brk) xs = take (b - i) xs ∷ split b brk (drop (b - i) xs)

unfoldable pub group_concurrent_contiguous :
    List ℕ → List ℕ → Result (List (List ℕ) × List (List ℕ))
group_concurrent_contiguous [] dst = ok ([], [])
group_concurrent_contiguous (x ∷ xs) dst = or_broadcast (breaks (x ∷ xs)) (breaks dst) >>= λ flags.
    ok (split 0 (where_next 0 flags) (x ∷ xs), split 0 (where_next 0 flags) dst)

-- One entry of src_list, dst_list and length_list.
pub record Transfer : Type 0 where
  pub src : ℕ
  pub dst : ℕ
  pub size : ℕ

-- The inner loop over the groups, for one layer.
unfoldable pub layer_transfers : ℕ → ℕ → ℕ → List (List ℕ) → List (List ℕ) → Result (List Transfer)
layer_transfers src_base dst_base block_len [] locals = ok []
layer_transfers src_base dst_base block_len (remote ∷ remotes) [] = err index_error
layer_transfers src_base dst_base block_len (remote ∷ remotes) ([] ∷ locals) = err index_error
layer_transfers src_base dst_base block_len ([] ∷ remotes) ((l ∷ ls) ∷ locals) = err index_error
layer_transfers src_base dst_base block_len ((r ∷ rs) ∷ remotes) ((l ∷ ls) ∷ locals) =
    layer_transfers src_base dst_base block_len remotes locals >>= λ rest. ok (
      record {
        src = src_base + l * block_len;
        dst = dst_base + r * block_len;
        size = length (l ∷ ls) * block_len;
      }
      ∷ rest)

-- `self.block_len[k % 2] if self.use_mla else self.block_len[0]`
unfoldable pub layer_block_len : Bool → ℕ → ℕ → ℕ → ℕ
layer_block_len use_mla len_0 len_1 k =
    if use_mla then (if k % 2 == 0 then len_0 else len_1) else len_0

-- The outer loop over the zipped base addresses, from layer `k` on.
unfoldable pub all_transfers :
    List ℕ → List ℕ → (ℕ → ℕ) → ℕ → List (List ℕ) → List (List ℕ) → Result (List Transfer)
all_transfers [] dsts block_len k remotes locals = ok []
all_transfers (s ∷ srcs) [] block_len k remotes locals = ok []
all_transfers (s ∷ srcs) (d ∷ dsts) block_len k remotes locals =
    layer_transfers s d (block_len k) remotes locals >>= λ here.
    all_transfers srcs dsts block_len (suc k) remotes locals >>= λ rest. ok (here ++ rest)
