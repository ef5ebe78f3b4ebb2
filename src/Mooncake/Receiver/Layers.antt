-- ===== src/Mooncake/Receiver/Layers.antt =====
-- vllm_ascend/distributed/mooncake_connector.py, KVCacheRecvingThread._transfer_kv_cache: what is
-- read from the remote engine, over all layers.
use vllm_ascend_origin.Prelude.{ℕ, suc, ◌≡◌, some, List, [], ◌∷◌, ◌++◌}
use vllm_ascend_origin.Mooncake.Transfer.{Transfer}
use vllm_ascend_origin.Mooncake.Transfer.Groups.{by_blocks, block_transfers}
use vllm_ascend_origin.Mooncake.Sockets.{RecvingThread, PullRequest}
use vllm_ascend_origin.Mooncake.Receiver.{lookup_port}

abbrev pub concat : List (List Transfer) → List Transfer
concat [] = []
concat (ts ∷ layers) = ts ++ concat layers

-- The transfers of each pair of base addresses, from layer `k` on, cut into blocks of the layer's
-- length, are those of each remote block to its local block.
abbrev pub LayerPlans :
    (ℕ → ℕ) → ℕ → List ℕ → List ℕ → List ℕ → List ℕ → List (List Transfer) → Type 0
LayerPlans block_len k [] dsts remotes locals layers = layers ≡ []
LayerPlans block_len k (s ∷ srcs) [] remotes locals layers = layers ≡ []
LayerPlans block_len k (s ∷ srcs) (d ∷ dsts) remotes locals [] = ⊥
LayerPlans block_len k (s ∷ srcs) (d ∷ dsts) remotes locals (ts ∷ layers) =
    (by_blocks (block_len k) ts ≡ block_transfers s d (block_len k) remotes locals)
    × LayerPlans block_len (suc k) srcs dsts remotes locals layers

module _ {World Socket : Type 0} (req : PullRequest) (t : RecvingThread World Socket) where
  -- The addresses and the port that the plan looks up.
  pub record Known (srcs dsts : List ℕ) (te_port : ℕ) : Type 0 where
    pub local_addresses :
        lookup_port t.local_engine_id t.local_handshake_port t.kv_caches_base_addr ≡ some srcs
    pub remote_addresses :
        lookup_port req.remote_engine_id req.remote_handshake_port t.kv_caches_base_addr ≡ some dsts
    pub remote_port :
        lookup_port req.remote_engine_id req.remote_handshake_port t.remote_te_port ≡ some te_port
