-- ===== src/Mooncake/Worker/Ports.antt =====
-- vllm_ascend/distributed/mooncake_connector.py, MooncakeConnectorWorker: the handshake ports of
-- the workers of a node, and the requests that start_load_kv puts into the receiving thread's queue.
use vllm_ascend_origin.Prelude.{
  Bool, ℕ, zero, suc, ◌+◌, ◌*◌, ◌<◌, ◌≡◌, refl, sym, ap, List, [], ◌∷◌, arith,
}
use vllm_ascend_origin.Prelude.Result.{ok, Ensures-ok}
use vllm_ascend_origin.Mooncake.Connector.{ReqMeta}
use vllm_ascend_origin.Mooncake.Sockets.{PullRequest, RecvingThread}
use vllm_ascend_origin.Mooncake.Receiver.{add_request}
use vllm_ascend_origin.Mooncake.Worker.{
  WorkerConfig, ConnectorWorker, side_channel_port_of, init_worker,
}
use vllm_ascend_origin.Mooncake.Worker.Ranks.{Constructed, init_worker-Constructed}

-- A number below the base is the remainder.
digits_unique : (n a b i j : ℕ) → i < n → j < n → a * n + i ≡ b * n + j → (a ≡ b) × (i ≡ j)
digits_unique n zero zero i j p q e = (refl, omega (arith, e))
digits_unique n zero (suc b) i j p q e = absurd (ground (arith, p, e))
digits_unique n (suc a) zero i j p q e = absurd (ground (arith, q, e))
digits_unique n (suc a) (suc b) i j p q e =
    let (h, k) = digits_unique n a b i j p q (ground (arith, e)) in (ap suc h, k)

-- Two workers that are constructed from configurations with the same base port and the same tensor
-- parallel size, with ranks below it, and that have the same handshake port, have the same data
-- parallel rank and the same tensor parallel rank.
pub handshake_port_injective :
    (available : Bool) (initialize : ℕ → ℕ) (c d : WorkerConfig) (v w : ConnectorWorker)
    → init_worker available initialize c ≡ ok v
    → init_worker available initialize d ≡ ok w
    → c.kv_port ≡ d.kv_port
    → c.tp_size ≡ d.tp_size
    → c.tp_rank < c.tp_size
    → d.tp_rank < d.tp_size
    → v.handshake_port ≡ w.handshake_port
    → (c.dp_rank ≡ d.dp_rank) × (c.tp_rank ≡ d.tp_rank)
unfolding side_channel_port_of
handshake_port_injective available initialize c d v w made made' port size below below' same =
    let built =
      Ensures-ok (Constructed c) (init_worker available initialize c) v
        (init_worker-Constructed available initialize c) made in
    let built' =
      Ensures-ok (Constructed d) (init_worker available initialize d) w
        (init_worker-Constructed available initialize d) made' in
    let scaled : d.dp_rank * d.tp_size ≡ d.dp_rank * c.tp_size =
      ap (λ n. d.dp_rank * n) (sym size) in
    digits_unique c.tp_size c.dp_rank d.dp_rank c.tp_rank d.tp_rank below
      (omega (arith, below', size)) (ground (arith, built.port, built'.port, same, port, scaled))

-- A queued request asks for the blocks of the metadata, at the port of some rank of the prefill
-- side: its handshake port, if the metadata names the port of rank 0.
pub record Pulls (prefill_tp_size request : ℕ) (meta : ReqMeta) (req : PullRequest) : Type 0 where
  pub request_id : req.request_id ≡ request
  pub local_block_ids : req.local_block_ids ≡ meta.local_block_ids
  pub remote_block_ids : req.remote_block_ids ≡ meta.remote_block_ids
  pub remote_engine_id : req.remote_engine_id ≡ meta.remote_engine_id
  pub remote_host : req.remote_host ≡ meta.remote_host
  pub remote_port :
      (rank : ℕ) × (rank < prefill_tp_size) × (req.remote_handshake_port ≡ meta.remote_port + rank)

abbrev pub AllPulls : ℕ → List (ℕ × ReqMeta) → List PullRequest → Type 0
AllPulls n [] [] = Unit
AllPulls n [] (req ∷ reqs) = ⊥
AllPulls n ((request, meta) ∷ requests) [] = ⊥
AllPulls n ((request, meta) ∷ requests) (req ∷ reqs) =
    Pulls n request meta req × AllPulls n requests reqs

-- The queue with the requests at its end.
abbrev pub queued :
    {World Socket : Type 0}
    → List PullRequest
    → RecvingThread World Socket
    → RecvingThread World Socket
queued [] t = t
queued (req ∷ reqs) t = queued reqs (add_request req t)
