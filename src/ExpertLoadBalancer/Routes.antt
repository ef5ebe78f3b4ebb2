-- ===== src/ExpertLoadBalancer/Routes.antt =====
-- vllm_ascend/ops/expert_load_balancer.py, generate_log2phy_expert_map: each expert of a layer is
-- routed to one of its copies, to one on the rank itself where there is one.
use vllm_ascend_origin.Prelude.{
  ℕ, zero, suc, ◌+◌, ◌-◌, ◌≤◌, ◌<◌, ◌≡◌, refl, sym, ap, ◌∙◌, inl, inr, true, Bool-cases, Option,
  some, Option-cases, List, [], ◌∷◌, ◌++◌, ◌==◌, ==→eq, length, length-append,
  get_elem?-append_left, get_elem?-append_right, get_elem?, elem, All, keys, lookup, arith,
}
use mathlib.Core.Path.{subst}
use mathlib.Core.List.{append_assoc}
use vllm_ascend_origin.Prelude.Arrays.{get_at-append, get_at, set_at, Written, set_at-Written}
use vllm_ascend_origin.Prelude.Result.{ok, Returns, Returns-bind, Returns-map}
use vllm_ascend_origin.ExpertLoadBalancer.{
  ExpertLoadBalancer, index_row, generate_index_dicts, unset, flatten, positions, route, route_keys,
  route_ranks, generate_log2phy_expert_map,
}
use vllm_ascend_origin.ExpertLoadBalancer.Indices.{
  index_row-lookup, index_row-elem, GoodItem, positions-GoodItem, elem-keys-positions,
}

elem-All : (P : ℕ → Type 0) (x : ℕ) (xs : List ℕ) → All P xs → elem x xs ≡ true → P x
elem-All P x [] h e = cc
elem-All P x (y ∷ xs) h e = elim (Bool-cases (y == x)) [
  | inl same ↦ subst P (==→eq y x same) h.0
  | inr other ↦ elem-All P x xs h.1 (ground (arith, e, other))
]

-- What random.choice documents.
abbrev pub ChoiceLaw : (ℕ → ℕ → List ℕ → ℕ) → Type 0
ChoiceLaw choice =
    (rank key : ℕ) (xs : List ℕ) → 0 < length xs → elem (choice rank key xs) xs ≡ true

-- The slot `p` of the flattened layer holds the expert `e`, and lies in the rank's own row, from
-- `start` on, if the expert stands there.
pub record Holds (flat : List ℕ) (start : ℕ) (own : List ℕ) (e p : ℕ) : Type 0 where
  pub slot : get_elem? flat p ≡ some e
  pub local : elem e own ≡ true → (start ≤ p) × (p < start + length own)

-- The map of a rank: every expert of the layer has an entry, and every entry is a copy.
pub record Routed (flat : List ℕ) (n start : ℕ) (own : List ℕ) (row : List (Option ℕ))
    : Type 0 where
  pub size : length row ≡ n
  pub copy : (e p : ℕ) → get_elem? row e ≡ some (some p) → Holds flat start own e p
  pub total : (e : ℕ) → elem e flat ≡ true → (p : ℕ) × (get_elem? row e ≡ some (some p))

module _ (choice : ℕ → ℕ → List ℕ → ℕ) (law : ChoiceLaw choice) (flat : List ℕ) (n start : ℕ)
    (own : List ℕ)
    (segment : (i : ℕ) → i < length own → get_elem? flat (start + i) ≡ get_elem? own i) where
  route-Holds :
      (rank key : ℕ) (indices : List ℕ)
      → GoodItem flat n (key, indices)
      → Holds flat start own key (route choice rank (index_row start own []) key indices)
  unfolding route lookup
  route-Holds rank key indices good = elim (Option-cases (lookup key (index_row start own []))) [
    | inl e ↦
        rw (route, e)
          (record {
            slot =
                elem-All (λ i. get_elem? flat i ≡ some key) (choice rank key indices) indices good.2
                  (law rank key indices good.1);
            local = λ known. let (p, f) = index_row-elem start own [] key known in cc;
          })
    | inr (p, e) ↦ elim (index_row-lookup start own [] key p e) [
      | inl (lo, hi, got) ↦
          let at_p : start + (p - start) ≡ p = omega (arith, lo) in
          rw (route, e)
            (record {
              slot =
                  ap (λ i. get_elem? flat i) (sym at_p)
                  ∙ segment (p - start) (omega (arith, lo, hi))
                  ∙ got;
              local = λ known. (lo, hi);
            })
      | inr old ↦ cc
    ]
  ]

  -- The loop over the experts, from a row whose entries are copies.
  route_keys-copy :
      (rank : ℕ) (items : List (ℕ × List ℕ)) (row : List (Option ℕ))
      → All (GoodItem flat n) items
      → length row ≡ n
      → ((e p : ℕ) → get_elem? row e ≡ some (some p) → Holds flat start own e p)
      → Returns
          (λ row'.
            (length row' ≡ n)
            × ((e p : ℕ) → get_elem? row' e ≡ some (some p) → Holds flat start own e p)
            × ((e p : ℕ)
                → get_elem? row e ≡ some (some p)
                → (q : ℕ) × (get_elem? row' e ≡ some (some q)))
            × ((e : ℕ) → elem e (keys items) ≡ true → (q : ℕ) × (get_elem? row' e ≡ some (some q))))
          (route_keys choice rank (index_row start own []) items row)
  unfolding route_keys
  route_keys-copy rank [] row good size copy = (size, copy, λ e p h. (p, h), λ e h. cc)
  route_keys-copy rank ((key, indices) ∷ items) row good size copy =
      let v : ℕ = route choice rank (index_row start own []) key indices in
      Returns-bind (Written row key (some v)) _ (set_at row key (some v)) _
        (set_at-Written row key (some v) (omega (arith, size, good.0.0)))
        (λ row1 w.
          Returns-map
            (λ row' h. (
              h.0,
              h.1,
              λ e p had. elim (Bool-cases (key == e)) [
                | inl same ↦ h.2 e v (ground (arith, w.read e, same))
                | inr other ↦ h.2 e p (ground (arith, w.read e, other, had))
              ],
              λ e known. elim (Bool-cases (key == e)) [
                | inl same ↦ h.2 e v (ground (arith, w.read e, same))
                | inr other ↦ h.3 e (ground (arith, known, other))
              ],
            ))
            (route_keys choice rank (index_row start own []) items row1)
            (route_keys-copy rank items row1 good.1 (omega (arith, w.size, size)) (λ e p h.
              elim (Bool-cases (key == e)) [
                | inl same ↦
                    let value : v ≡ p = ground (arith, w.read e, same, h) in
                    subst (λ i. Holds flat start own i p) (==→eq key e same)
                      (subst (λ q. Holds flat start own key q) value
                        (route-Holds rank key indices good.0))
                | inr other ↦ copy e p (ground (arith, w.read e, other, h))
              ])))

length-unset : (n : ℕ) → length (unset n) ≡ n
length-unset zero = refl
length-unset (suc n) = ap suc (length-unset n)

unset-none : (n e p : ℕ) → get_elem? (unset n) e ≡ some (some p) → ⊥
unset-none zero e p h = cc
unset-none (suc n) zero p h = cc
unset-none (suc n) (suc e) p h = unset-none n e p h

-- The maps of the ranks, of which the first row begins at `start`.
abbrev pub AllRouted : List ℕ → ℕ → ℕ → List (List ℕ) → List (List (Option ℕ)) → Type 0
AllRouted flat n start [] [] = Unit
AllRouted flat n start [] (m ∷ maps) = ⊥
AllRouted flat n start (own ∷ rows) [] = ⊥
AllRouted flat n start (own ∷ rows) (m ∷ maps) =
    Routed flat n start own m × AllRouted flat n (start + length own) rows maps

module _ (choice : ℕ → ℕ → List ℕ → ℕ) (law : ChoiceLaw choice) (flat : List ℕ) (n : ℕ)
    (small : All (λ k. k < n) flat) where
  abbrev result_dict : List (ℕ × List ℕ)
  result_dict = positions 0 flat []

  good_items : All (GoodItem flat n) result_dict
  good_items =
      positions-GoodItem flat n 0 flat [] (λ i. ap (λ j. get_elem? flat j) (omega arith)) small tt

  listed : (e : ℕ) → elem e flat ≡ true → elem e (keys result_dict) ≡ true
  listed e h = ground (arith, elem-keys-positions e 0 flat [], h)

  rank-Routed :
      (rank start : ℕ) (own : List ℕ)
      → ((i : ℕ) → i < length own → get_elem? flat (start + i) ≡ get_elem? own i)
      → Returns
          (Routed flat n start own)
          (route_keys choice rank (index_row start own []) result_dict (unset n))
  rank-Routed rank start own segment =
      Returns-map
        (λ row h. record { size = h.0; copy = h.1; total = λ e known. h.3 e (listed e known) })
        (route_keys choice rank (index_row start own []) result_dict (unset n))
        (route_keys-copy choice law flat n start own segment rank result_dict (unset n) good_items
          (length-unset n) (λ e p h. absurd (unset-none n e p h)))

  ranks-AllRouted :
      (rows : List (List ℕ)) (dicts done : List (List (ℕ × ℕ))) (before : List ℕ) (rank start : ℕ)
      → dicts ≡ done ++ generate_index_dicts start rows
      → length done ≡ rank
      → flat ≡ before ++ flatten rows
      → length before ≡ start
      → Returns
          (AllRouted flat n start rows)
          (route_ranks choice n dicts result_dict rank (length rows))
  unfolding generate_index_dicts flatten route_ranks
  ranks-AllRouted [] dicts done before rank start split ranks whole at_start = tt
  ranks-AllRouted (own ∷ rows) dicts done before rank start split ranks whole at_start =
      let local : List (ℕ × ℕ) = index_row start own [] in
      let later : List (List (ℕ × ℕ)) = generate_index_dicts (start + length own) rows in
      let read : get_at dicts rank ≡ ok local =
        rw (split, sym ranks) (get_at-append done local later) in
      let segment : (i : ℕ) → i < length own → get_elem? flat (start + i) ≡ get_elem? own i = λ i h.
        rw (whole, sym at_start)
          (get_elem?-append_right before (own ++ flatten rows) i
            ∙ get_elem?-append_left own (flatten rows) i h) in
      rw read (
        Returns-bind (Routed flat n start own) (AllRouted flat n start (own ∷ rows))
          (route_keys choice rank local result_dict (unset n)) _
          (rank-Routed rank start own segment)
          (λ row routed.
            Returns-bind (AllRouted flat n (start + length own) rows)
              (AllRouted flat n start (own ∷ rows))
              (route_ranks choice n dicts result_dict (suc rank) (length rows)) _
              (ranks-AllRouted rows dicts (done ++ local ∷ []) (before ++ own) (suc rank)
                (start + length own) (split ∙ sym (append_assoc done (local ∷ []) later))
                (omega (arith, length-append done (local ∷ []), ranks))
                (whole ∙ sym (append_assoc before own (flatten rows)))
                (omega (arith, length-append before own, at_start)))
              (λ maps all. (routed, all))))

-- Let random.choice return an item of its list, let a layer have as many rows as there are ranks,
-- and let its experts be below the global number. Then generate_log2phy_expert_map raises no error
-- and has a map for each rank. In it every expert of the layer has an entry, which is the index of a
-- slot of the flattened layer that holds this expert, and one of the rank's own row if the expert
-- stands there.
pub generate_log2phy_expert_map-AllRouted :
    (choice : ℕ → ℕ → List ℕ → ℕ) (b : ExpertLoadBalancer) (layer_id : ℕ) (rows : List (List ℕ))
    → ChoiceLaw choice
    → get_at b.expert_map layer_id ≡ ok rows
    → length rows ≡ b.ranks_num
    → All (λ k. k < b.global_expert_num) (flatten rows)
    → Returns
        (AllRouted (flatten rows) b.global_expert_num 0 rows)
        (generate_log2phy_expert_map choice b layer_id)
unfolding generate_log2phy_expert_map
generate_log2phy_expert_map-AllRouted choice b layer_id rows law layer ranks small =
    rw (layer, sym ranks)
      (ranks-AllRouted choice law (flatten rows) b.global_expert_num small rows
        (generate_index_dicts 0 rows) [] [] 0 0 refl refl refl refl)
