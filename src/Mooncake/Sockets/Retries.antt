-- ===== src/Mooncake/Sockets/Retries.antt =====
-- vllm_ascend/distributed/mooncake_connector.py, ensure_zmq_recv: which attempts are made.
use vllm_ascend_origin.Prelude.{
  ℕ, zero, suc, ◌-◌, ◌≤◌, max, ◌≡◌, ◌⊎◌, inl, inr, Option, none, some, arith, Option-cases,
}
use vllm_ascend_origin.Prelude.Result.{Result, ok, err, runtime_error}
use vllm_ascend_origin.Mooncake.Sockets.{Transport, retrying, recv_once, ensure_zmq_recv}

module _ {World A : Type 0} (attempt : World → Option A × World) where
  -- The world after some attempts.
  abbrev pub after : ℕ → World → World
  after zero w = w
  after (suc n) w = after n (attempt w).1

  -- The first attempts all fail.
  abbrev pub AllFail : ℕ → World → Type 0
  AllFail zero w = Unit
  AllFail (suc n) w = ((attempt w).0 ≡ none) × AllFail n (attempt w).1

  -- The first attempt that succeeds, among as many, gives the result; if none does, it is an error.
  abbrev pub FirstSuccess : ℕ → World → Result A × World → Type 0
  FirstSuccess attempts w result =
      ((failed : ℕ) × (a : A) × (suc failed ≤ attempts)
        × AllFail failed w
        × ((attempt (after failed w)).0 ≡ some a)
        × (result ≡ (ok a, after (suc failed) w)))
      ⊎ (AllFail attempts w × (result ≡ (err runtime_error, after attempts w)))

  retrying-FirstSuccess :
      (retries_left : ℕ) (w : World)
      → FirstSuccess (suc retries_left) w (retrying attempt retries_left w)
  unfolding retrying
  retrying-FirstSuccess zero w = elim (Option-cases (attempt w).0) [
    | inl e ↦ inr ((e, tt), rw (retrying, e))
    | inr (a, e) ↦ inl (0, a, omega arith, tt, e, rw (retrying, e))
  ]
  retrying-FirstSuccess (suc n) w = elim (Option-cases (attempt w).0) [
    | inl e ↦ elim (retrying-FirstSuccess n (attempt w).1) [
      | inl (failed, a, le, fails, got, same) ↦
          inl (suc failed, a, omega (arith, le), (e, fails), got, rw (retrying, e) same)
      | inr (fails, same) ↦ inr ((e, fails), rw (retrying, e) same)
    ]
    | inr (a, e) ↦ inl (0, a, omega arith, tt, e, rw (retrying, e))
  ]

-- Whatever the network does, ensure_zmq_recv makes at most max_retries attempts, and at least one.
-- The data of the first attempt that succeeds is the result, after no other attempt; there is an
-- error, a RuntimeError, only if all of these attempts fail.
pub ensure_zmq_recv-FirstSuccess :
    {World Socket Bytes : Type 0} (net : Transport World Socket Bytes) (socket : Socket)
    (max_retries : ℕ) (w : World)
    → FirstSuccess
        (recv_once net socket)
        (max 1 max_retries)
        w
        (ensure_zmq_recv net socket max_retries w)
unfolding ensure_zmq_recv
ensure_zmq_recv-FirstSuccess net socket max_retries w =
    let e : max 1 max_retries ≡ suc (max_retries - 1) = omega arith in
    rw e (retrying-FirstSuccess (recv_once net socket) (max_retries - 1) w)
