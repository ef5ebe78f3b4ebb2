-- ===== src/Mooncake/Receiver/Pool.antt =====
-- vllm_ascend/distributed/mooncake_connector.py, KVCacheRecvingThread.remote_sockets: a socket that
-- is put back fits its path, and none is lost.
use vllm_ascend_origin.Prelude.{
  entries, entries-insert, ℕ, ◌≤◌, ◌≡◌, sym, inl, inr, false, Bool-cases, List, [], ◌∷◌, ◌++◌, ◌==◌,
  ==→eq, arith, length, length-append, insert, All, All-append,
}

module _ {Socket : Type 0} (Fits : ℕ → Socket → Type 0) where
  -- Each path has as many pooled sockets as before or more, and they still fit the path.
  pub PoolKept : List (ℕ × List Socket) → List (ℕ × List Socket) → Type 0
  PoolKept d d' =
      (path : ℕ)
      → (length (entries path d) ≤ length (entries path d'))
        × (All (Fits path) (entries path d) → All (Fits path) (entries path d'))

  pub PoolKept-refl : (d : List (ℕ × List Socket)) → PoolKept d d
  unfolding PoolKept
  PoolKept-refl d path = (omega arith, λ fit. fit)

  pub PoolKept-trans : (d e f : List (ℕ × List Socket)) → PoolKept d e → PoolKept e f → PoolKept d f
  unfolding PoolKept
  PoolKept-trans d e f h k path =
      (omega (arith, (h path).0, (k path).0), λ fit. (k path).1 ((h path).1 fit))

  -- A socket that is taken from the front and put back at the end.
  pub PoolKept-cycle :
      (path : ℕ) (socket : Socket) (rest : List Socket) (d d' : List (ℕ × List Socket))
      → entries path d ≡ socket ∷ rest
      → entries path d' ≡ rest
      → ((q : ℕ) → (path == q) ≡ false → entries q d' ≡ entries q d)
      → PoolKept d (insert path (entries path d' ++ socket ∷ []) d')
  unfolding PoolKept
  PoolKept-cycle path socket rest d d' e e' other q = elim (Bool-cases (path == q)) [
    | inl same ↦
        rw
          (
            entries-insert path q (entries path d' ++ socket ∷ []) d',
            same,
            e',
            sym (==→eq path q same),
            e,
          )
          (
            omega (arith, length-append rest (socket ∷ [])),
            λ fit. All-append (Fits path) rest (socket ∷ []) fit.1 (fit.0, tt),
          )
    | inr ne ↦
        rw (entries-insert path q (entries path d' ++ socket ∷ []) d', ne, other q ne)
          (omega arith, λ fit. fit)
  ]

  -- A new socket that fits its path joins it.
  pub PoolKept-join :
      (path : ℕ) (socket : Socket) (d : List (ℕ × List Socket))
      → Fits path socket
      → PoolKept d (insert path (entries path d ++ socket ∷ []) d)
  unfolding PoolKept
  PoolKept-join path socket d fits q = elim (Bool-cases (path == q)) [
    | inl same ↦
        rw (entries-insert path q (entries path d ++ socket ∷ []) d, same, sym (==→eq path q same))
          (
            omega (arith, length-append (entries path d) (socket ∷ [])),
            λ fit. All-append (Fits path) (entries path d) (socket ∷ []) fit (fits, tt),
          )
    | inr ne ↦
        rw (entries-insert path q (entries path d ++ socket ∷ []) d, ne) (omega arith, λ fit. fit)
  ]
