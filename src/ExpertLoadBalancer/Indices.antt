-- ===== src/ExpertLoadBalancer/Indices.antt =====
-- vllm_ascend/ops/expert_load_balancer.py, generate_log2phy_expert_map: the dicts that it reads.
use vllm_ascend_origin.Prelude.{
  ℕ, suc, ◌+◌, ◌-◌, ◌≤◌, ◌<◌, ◌≡◌, refl, ap, ◌∙◌, ◌⊎◌, inl, inr, true, ◌||◌, Bool-cases, some,
  Option-cases, List, [], ◌∷◌, ◌++◌, ◌==◌, ==→eq, length, length-append, get_elem?, elem, All,
  All-append, keys, lookup, insert, lookup-insert, entries, arith,
}
use mathlib.Core.Path.{subst}
use vllm_ascend_origin.ExpertLoadBalancer.{index_row, positions}

-- What the dict of a row knows of an expert: a slot of the row that holds it.
pub index_row-lookup :
    (idx : ℕ) (row : List ℕ) (d : List (ℕ × ℕ)) (e p : ℕ)
    → lookup e (index_row idx row d) ≡ some p
    → ((idx ≤ p) × (p < idx + length row) × (get_elem? row (p - idx) ≡ some e))
      ⊎ (lookup e d ≡ some p)
unfolding index_row
index_row-lookup idx [] d e p h = inr h
index_row-lookup idx (value ∷ row) d e p h =
    elim (index_row-lookup (suc idx) row (insert value idx d) e p h) [
      | inl (lo, hi, got) ↦
          let next : p - idx ≡ suc (p - suc idx) = omega (arith, lo) in
          inl (omega (arith, lo), omega (arith, hi), rw next got)
      | inr old ↦ elim (Bool-cases (value == e)) [
        | inl same ↦
            let here : idx ≡ p = ground (arith, lookup-insert value e idx d, old, same) in
            let first : p - idx ≡ 0 = omega (arith, here) in
            inl (
              omega (arith, here),
              omega (arith, here),
              rw first (ap (λ v. some v) (==→eq value e same)),
            )
        | inr other ↦ inr (ground (arith, lookup-insert value e idx d, old, other))
      ]
    ]

index_row-keeps :
    (idx : ℕ) (row : List ℕ) (d : List (ℕ × ℕ)) (e q : ℕ)
    → lookup e d ≡ some q
    → (p : ℕ) × (lookup e (index_row idx row d) ≡ some p)
unfolding index_row
index_row-keeps idx [] d e q h = (q, h)
index_row-keeps idx (value ∷ row) d e q h = elim (Bool-cases (value == e)) [
  | inl same ↦
      index_row-keeps (suc idx) row (insert value idx d) e idx
        (ground (arith, lookup-insert value e idx d, same))
  | inr other ↦
      index_row-keeps (suc idx) row (insert value idx d) e q
        (ground (arith, lookup-insert value e idx d, other, h))
]

pub index_row-elem :
    (idx : ℕ) (row : List ℕ) (d : List (ℕ × ℕ)) (e : ℕ)
    → elem e row ≡ true
    → (p : ℕ) × (lookup e (index_row idx row d) ≡ some p)
unfolding index_row
index_row-elem idx [] d e h = cc
index_row-elem idx (value ∷ row) d e h = elim (Bool-cases (value == e)) [
  | inl same ↦
      index_row-keeps (suc idx) row (insert value idx d) e idx
        (ground (arith, lookup-insert value e idx d, same))
  | inr other ↦ index_row-elem (suc idx) row (insert value idx d) e (ground (arith, h, other))
]

module _ {V : Type 0} (P : ℕ × V → Type 0) where
  All-insert : (k : ℕ) (v : V) (d : List (ℕ × V)) → All P d → P (k, v) → All P (insert k v d)
  unfolding insert
  All-insert k v [] h p = (p, tt)
  All-insert k v ((j, w) ∷ d) h p = elim (Bool-cases (j == k)) [
    | inl e ↦ rw e (p, h.1)
    | inr e ↦ rw e (h.0, All-insert k v d h.1 p)
  ]

  lookup-All : (k : ℕ) (d : List (ℕ × V)) {v : V} → All P d → lookup k d ≡ some v → P (k, v)
  unfolding lookup
  lookup-All k [] h e = cc
  lookup-All k ((j, w) ∷ d) {v} h e = elim (Bool-cases (j == k)) [
    | inl same ↦
        let value : w ≡ v = ground (arith, e, same) in
        subst (λ i. P (i, v)) (==→eq j k same) (subst (λ x. P (j, x)) value h.0)
    | inr other ↦ lookup-All k d h.1 (ground (arith, e, other))
  ]

pub elem-keys-insert :
    {V : Type 0} (e k : ℕ) (v : V) (d : List (ℕ × V))
    → elem e (keys (insert k v d)) ≡ (k == e || elem e (keys d))
unfolding insert
elem-keys-insert e k v [] = refl
elem-keys-insert e k v ((j, w) ∷ d) = ground (arith, elem-keys-insert e k v d)

-- The indices of an expert in the flattened layer: there is one, and each holds the expert.
abbrev pub GoodItem : List ℕ → ℕ → ℕ × List ℕ → Type 0
GoodItem flat n (key, indices) =
    (key < n) × (0 < length indices) × All (λ i. get_elem? flat i ≡ some key) indices

entries-All :
    (flat : List ℕ) (n k : ℕ) (d : List (ℕ × List ℕ))
    → All (GoodItem flat n) d
    → All (λ i. get_elem? flat i ≡ some k) (entries k d)
unfolding entries
entries-All flat n k d good = elim (Option-cases (lookup k d)) [
  | inl e ↦ rw (entries, e) tt
  | inr (is, e) ↦ rw (entries, e) (lookup-All (GoodItem flat n) k d good e).2
]

pub positions-GoodItem :
    (flat : List ℕ) (n idx : ℕ) (ks : List ℕ) (d : List (ℕ × List ℕ))
    → ((i : ℕ) → get_elem? flat (idx + i) ≡ get_elem? ks i)
    → All (λ k. k < n) ks
    → All (GoodItem flat n) d
    → All (GoodItem flat n) (positions idx ks d)
unfolding positions
positions-GoodItem flat n idx [] d suffix small good = good
positions-GoodItem flat n idx (k ∷ ks) d suffix small good =
    let here : get_elem? flat idx ≡ some k = ap (λ i. get_elem? flat i) (omega arith) ∙ suffix 0 in
    let indices : List ℕ = entries k d ++ idx ∷ [] in
    positions-GoodItem flat n (suc idx) ks (insert k indices d)
      (λ i. ap (λ j. get_elem? flat j) (omega arith) ∙ suffix (suc i)) small.1
      (All-insert (GoodItem flat n) k indices d good (
        small.0,
        omega (arith, length-append (entries k d) (idx ∷ [])),
        All-append (λ i. get_elem? flat i ≡ some k) (entries k d) (idx ∷ [])
            (entries-All flat n k d good) (here, tt),
      ))

pub elem-keys-positions :
    (e idx : ℕ) (ks : List ℕ) (d : List (ℕ × List ℕ))
    → elem e (keys (positions idx ks d)) ≡ (elem e ks || elem e (keys d))
unfolding positions
elem-keys-positions e idx [] d = refl
elem-keys-positions e idx (k ∷ ks) d =
    let indices : List ℕ = entries k d ++ idx ∷ [] in
    ground (
      arith,
      elem-keys-positions e (suc idx) ks (insert k indices d),
      elem-keys-insert e k indices d,
    )
