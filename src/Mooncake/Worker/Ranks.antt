-- ===== src/Mooncake/Worker/Ranks.antt =====
-- vllm_ascend/distributed/mooncake_connector.py, MooncakeConnectorWorker: which prefill worker a
-- decode worker talks to, and at which port.
use vllm_ascend_origin.Prelude.{
  Distinct, ℕ, zero, suc, ◌+◌, ◌<◌, ◌≤◌, ◌≡◌, refl, sym, ap, ◌∙◌, inl, inr, Bool, true, false,
  Bool-cases, not, Option, some, Option-cases, List, [], ◌∷◌, ◌==◌, ltb, arith, length, get_elem?,
  get_elem?-some, elem, elem-get_elem?, All,
}
use vllm_ascend_origin.Prelude.Result.{
  Fault, index_error, Result, ok, guard, or_fail, ◌>>=◌, Ensures, Ensures-bind, Ensures-ok,
  Ensures-any,
}
use vllm_ascend_origin.Mooncake.Worker.{
  SideSizes, WorkerConfig, ConnectorWorker, range, side_channel_port_of, get_prefill_decode_size,
  device_ids, build_worker, init_worker, get_remote_tp_ranks_for_req, get_remote_tp_rank,
}

-- What random.sample documents: `k` distinct items of the population, if it has as many.
pub record SampleLaws (sample : ℕ → ℕ → ℕ → List ℕ) : Type 0 where
  pub counted : (seed n k : ℕ) → k ≤ n → length (sample seed n k) ≡ k
  pub within : (seed n k : ℕ) → k ≤ n → All (λ i. i < n) (sample seed n k)
  pub distinct : (seed n k : ℕ) → k ≤ n → Distinct (sample seed n k)

pub length-range : (s n : ℕ) → length (range s n) ≡ n
unfolding range
length-range s zero = refl
length-range s (suc n) = ap suc (length-range (suc s) n)

pub range-All : (s n m : ℕ) → s + n ≤ m → All (λ i. i < m) (range s n)
unfolding range
range-All s zero m h = tt
range-All s (suc n) m h = (omega (arith, h), range-All (suc s) n m (omega (arith, h)))

elem-range : (x s n : ℕ) → x < s → elem x (range s n) ≡ false
unfolding range
elem-range x s zero h = refl
elem-range x s (suc n) h = ground (arith, h, elem-range x (suc s) n (omega (arith, h)))

pub range-Distinct : (s n : ℕ) → Distinct (range s n)
unfolding range
range-Distinct s zero = tt
range-Distinct s (suc n) = (elem-range s (suc s) n (omega arith), range-Distinct (suc s) n)

get_elem?-All :
    (n : ℕ) (xs : List ℕ) (i : ℕ) {x : ℕ} → All (λ k. k < n) xs → get_elem? xs i ≡ some x → x < n
get_elem?-All n [] i p e = cc
get_elem?-All n (y ∷ xs) zero p e = ground (arith, p.0, e)
get_elem?-All n (y ∷ xs) (suc i) p e = get_elem?-All n xs i p.1 e

-- An item stands at one place of a list without repetitions.
get_elem?-Distinct :
    (xs : List ℕ) (i j : ℕ) {x : ℕ}
    → Distinct xs
    → get_elem? xs i ≡ some x
    → get_elem? xs j ≡ some x
    → i ≡ j
get_elem?-Distinct [] i j d e f = cc
get_elem?-Distinct (y ∷ xs) zero zero d e f = refl
get_elem?-Distinct (y ∷ xs) zero (suc j) d e f = ground (arith, d.0, e, elem-get_elem? xs j f)
get_elem?-Distinct (y ∷ xs) (suc i) zero d e f = ground (arith, d.0, f, elem-get_elem? xs i e)
get_elem?-Distinct (y ∷ xs) (suc i) (suc j) d e f = omega (arith, get_elem?-Distinct xs i j d.1 e f)

or_fail-some : (o : Option ℕ) (fault : Fault) {x : ℕ} → or_fail o fault ≡ ok x → o ≡ some x
or_fail-some o fault h = elim (Option-cases o) [
  | inl e ↦ cc (rw e at h)
  | inr (y, e) ↦ cc (rw e at h)
]

-- What the constructor leaves.
pub record Constructed (c : WorkerConfig) (w : ConnectorWorker) : Type 0 where
  pub sized : w.sizes.decode_tp_size ≤ w.sizes.prefill_tp_size
  pub ranked : w.tp_rank ≡ c.tp_rank
  pub port : w.handshake_port ≡ side_channel_port_of c.kv_port c.dp_rank c.tp_size + c.tp_rank

guard-Ensures :
    {A : Type 0} (Q : A → Type 0) (b : Bool) (e : Fault) (f : Unit {0} → Result A)
    → (b ≡ true → Ensures Q (f tt))
    → Ensures Q (guard b e >>= f)
guard-Ensures Q true e f h = h refl
guard-Ensures Q false e f h = tt

then-Ensures :
    {A B : Type 0} (Q : B → Type 0) (m : Result A) (f : A → Result B)
    → ((a : A) → Ensures Q (f a))
    → Ensures Q (m >>= f)
then-Ensures Q m f h = Ensures-bind (λ a. Unit {0}) Q m f (Ensures-any m) (λ a u. h a)

pub init_worker-Constructed :
    (available : Bool) (initialize : ℕ → ℕ) (c : WorkerConfig)
    → Ensures (Constructed c) (init_worker available initialize c)
unfolding init_worker build_worker
init_worker-Constructed available initialize c =
    then-Ensures (Constructed c) (get_prefill_decode_size c.prefill c.decode) _ (λ sizes.
      guard-Ensures (Constructed c) (not (ltb sizes.prefill_tp_size sizes.decode_tp_size)) _ _
        (λ sized. then-Ensures (Constructed c) (guard available _) _ (λ _.
          then-Ensures (Constructed c) (guard (ltb c.tp_rank (length (device_ids c))) _) _ (λ _.
            then-Ensures (Constructed c) (or_fail (get_elem? (device_ids c) c.tp_rank) _) _ (λ d.
              let done : Constructed c (build_worker c sizes d) = record {
                sized = ground (arith, sized);
                ranked = refl;
                port = refl;
              } in
              then-Ensures (Constructed c) (guard (initialize d == 0) _) _ (λ _. done))))))

module _ (sample : ℕ → ℕ → ℕ → List ℕ) (string_to_int64_hash : ℕ → ℕ) (laws : SampleLaws sample)
    (request : ℕ) (sizes : SideSizes) (sized : sizes.decode_tp_size ≤ sizes.prefill_tp_size) where
  ranks-length :
      sizes.decode_tp_size
      ≤ length (get_remote_tp_ranks_for_req sample string_to_int64_hash sizes request)
  unfolding get_remote_tp_ranks_for_req
  ranks-length = ground (
    arith,
    sized,
    length-range 0 sizes.prefill_tp_size,
    laws.counted (string_to_int64_hash request) sizes.prefill_tp_size sizes.decode_tp_size sized,
  )

  ranks-All :
      All
        (λ i. i < sizes.prefill_tp_size)
        (get_remote_tp_ranks_for_req sample string_to_int64_hash sizes request)
  unfolding get_remote_tp_ranks_for_req
  ranks-All = elim (Bool-cases (sizes.prefill_tp_size == sizes.decode_tp_size)) [
    | inl e ↦
        rw (get_remote_tp_ranks_for_req, e)
          (range-All 0 sizes.prefill_tp_size sizes.prefill_tp_size (omega arith))
    | inr e ↦
        rw (get_remote_tp_ranks_for_req, e)
          (laws.within (string_to_int64_hash request) sizes.prefill_tp_size sizes.decode_tp_size
            sized)
  ]

  ranks-Distinct : Distinct (get_remote_tp_ranks_for_req sample string_to_int64_hash sizes request)
  unfolding get_remote_tp_ranks_for_req
  ranks-Distinct = elim (Bool-cases (sizes.prefill_tp_size == sizes.decode_tp_size)) [
    | inl e ↦ rw (get_remote_tp_ranks_for_req, e) (range-Distinct 0 sizes.prefill_tp_size)
    | inr e ↦
        rw (get_remote_tp_ranks_for_req, e)
          (laws.distinct (string_to_int64_hash request) sizes.prefill_tp_size sizes.decode_tp_size
            sized)
  ]

  remote_rank-within :
      (i : ℕ)
      → i < sizes.decode_tp_size
      → (rank : ℕ) × (get_elem?
            (get_remote_tp_ranks_for_req sample string_to_int64_hash sizes request)
            i
          ≡ some rank)
        × (rank < sizes.prefill_tp_size)
  remote_rank-within i h =
      let ranks = get_remote_tp_ranks_for_req sample string_to_int64_hash sizes request in
      let (rank, e) = get_elem?-some ranks i (omega (arith, h, ranks-length)) in
      (rank, e, get_elem?-All sizes.prefill_tp_size ranks i ranks-All e)

-- Let random.sample behave as documented, and let a worker be constructed. If its rank is one of
-- the decode side's, then for every request it is sent to a rank of the prefill side, without an
-- error.
pub get_remote_tp_rank-within :
    (sample : ℕ → ℕ → ℕ → List ℕ) (string_to_int64_hash : ℕ → ℕ) (available : Bool)
    (initialize : ℕ → ℕ) (c : WorkerConfig) (w : ConnectorWorker) (request : ℕ)
    → SampleLaws sample
    → init_worker available initialize c ≡ ok w
    → w.tp_rank < w.sizes.decode_tp_size
    → (rank : ℕ) × (get_remote_tp_rank sample string_to_int64_hash w request ≡ ok rank)
      × (rank < w.sizes.prefill_tp_size)
unfolding get_remote_tp_rank
get_remote_tp_rank-within sample hash available initialize c w request laws made h =
    let built =
      Ensures-ok (Constructed c) (init_worker available initialize c) w
        (init_worker-Constructed available initialize c) made in
    let (rank, e, lt) =
      remote_rank-within sample hash laws request w.sizes built.sized w.tp_rank h in
    (rank, rw e, lt)

-- Under the same conditions, two workers with the same sizes whom a request sends to the same rank
-- of the prefill side have the same rank.
pub get_remote_tp_rank_injective :
    (sample : ℕ → ℕ → ℕ → List ℕ) (string_to_int64_hash : ℕ → ℕ) (available : Bool)
    (initialize : ℕ → ℕ) (c : WorkerConfig) (v w : ConnectorWorker) (request rank : ℕ)
    → SampleLaws sample
    → init_worker available initialize c ≡ ok v
    → w.sizes ≡ v.sizes
    → get_remote_tp_rank sample string_to_int64_hash v request ≡ ok rank
    → get_remote_tp_rank sample string_to_int64_hash w request ≡ ok rank
    → v.tp_rank ≡ w.tp_rank
unfolding get_remote_tp_rank
get_remote_tp_rank_injective sample hash available initialize c v w request rank laws made same e
      f =
    let built =
      Ensures-ok (Constructed c) (init_worker available initialize c) v
        (init_worker-Constructed available initialize c) made in
    let ranks : List ℕ = get_remote_tp_ranks_for_req sample hash v.sizes request in
    let f' : or_fail (get_elem? ranks w.tp_rank) index_error ≡ ok rank =
      ap
        (λ sizes.
          or_fail (get_elem? (get_remote_tp_ranks_for_req sample hash sizes request) w.tp_rank)
            index_error)
        (sym same)
      ∙ f in
    get_elem?-Distinct ranks v.tp_rank w.tp_rank
      (ranks-Distinct sample hash laws request v.sizes built.sized)
      (or_fail-some (get_elem? ranks v.tp_rank) index_error e)
      (or_fail-some (get_elem? ranks w.tp_rank) index_error f')
