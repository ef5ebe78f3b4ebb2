-- ===== src/ExpertLoadBalancer/Placement.antt =====
-- vllm_ascend/ops/expert_load_balancer.py, get_rank_placement_map: the map of a rank is the inverse
-- of its row of experts.
use vllm_ascend_origin.Prelude.{
  ℕ, zero, suc, ◌+◌, ◌-◌, ◌≤◌, ◌<◌, ◌≡◌, refl, sym, ap, ◌∙◌, ◌⊎◌, inl, inr, false, Bool-cases,
  Option, none, some, List, [], ◌∷◌, ◌==◌, ==→eq, length, get_elem?, get_elem?-lt, elem, Distinct,
  All, arith,
}
use vllm_ascend_origin.Prelude.Arrays.{
  AllPairs, get_at-AllPairs, loop-AllPairs, get_at, set_at, Written, set_at-Written, occupied,
  set_at-occupied,
}
use vllm_ascend_origin.Prelude.Result.{ok, Returns, Returns-bind, Returns-both, Returns-map}
use vllm_ascend_origin.ExpertLoadBalancer.{
  ExpertLoadBalancer, unset, place_experts, place_ranks, place_layers,
  generate_expert_placement_map, get_rank_placement_map,
}

-- The row after the experts `es` are placed from slot `i` on.
record Placing (i : ℕ) (es : List ℕ) (row row' : List (Option ℕ)) : Type 0 where
  size : length row' ≡ length row
  count : occupied row' ≡ occupied row + length es
  back :
      (e j : ℕ)
      → get_elem? row' e ≡ some (some j)
      → ((i ≤ j) × (get_elem? es (j - i) ≡ some e)) ⊎ (get_elem? row e ≡ some (some j))
  placed : (k e : ℕ) → get_elem? es k ≡ some e → get_elem? row' e ≡ some (some (i + k))
  other : (e : ℕ) → elem e es ≡ false → get_elem? row' e ≡ get_elem? row e

still_free :
    (e : ℕ) (x : Option ℕ) (es : List ℕ) (row row1 : List (Option ℕ))
    → Written row e x row1
    → elem e es ≡ false
    → All (λ k. get_elem? row k ≡ some none) es
    → All (λ k. get_elem? row1 k ≡ some none) es
still_free e x [] row row1 w h free = tt
still_free e x (k ∷ es) row row1 w h free =
    (ground (arith, w.read k, h, free.0), still_free e x es row row1 w (ground (arith, h)) free.1)

-- One expert more, before the others.
Placing-cons :
    (i e : ℕ) (es : List ℕ) (row row1 row' : List (Option ℕ))
    → elem e es ≡ false
    → Written row e (some i) row1
    → occupied row1 + 0 ≡ occupied row + 1
    → Placing (suc i) es row1 row'
    → Placing i (e ∷ es) row row'
Placing-cons i e es row row1 row' new w counted p = record {
  size = p.size ∙ w.size;
  count = omega (arith, p.count, counted);
  back = λ x j h. elim (p.back x j h) [
    | inl (le, got) ↦
        let next : j - i ≡ suc (j - suc i) = omega (arith, le) in
        inl (omega (arith, le), rw next got)
    | inr old ↦ elim (Bool-cases (e == x)) [
      | inl same ↦
          let here : i ≡ j = ground (arith, w.read x, same, old) in
          let first : j - i ≡ 0 = omega (arith, here) in
          inl (omega (arith, here), rw first (ap (λ v. some v) (==→eq e x same)))
      | inr other ↦ inr (ground (arith, w.read x, other, old))
    ]
  ];
  placed = λ k x h.
      elim k as (λ k. get_elem? (e ∷ es) k ≡ some x → get_elem? row' x ≡ some (some (i + k))) [
        | zero ↦ λ h.
            let same : e ≡ x = cc in
            let here : get_elem? row' e ≡ some (some (i + 0)) =
              ground (arith, p.other e new, w.read e) in
            rw (sym same) here
        | suc k ↦ λ h. let shift : i + suc k ≡ suc i + k = omega arith in rw shift (p.placed k x h)
      ]
        h;
  other = λ x h. ground (arith, p.other x, w.read x, h);
}

place_experts-Placing :
    (i : ℕ) (es : List ℕ) (row : List (Option ℕ))
    → All (λ e. get_elem? row e ≡ some none) es
    → Distinct es
    → Returns (Placing i es row) (place_experts i es row)
unfolding place_experts
place_experts-Placing i [] row free d = record {
  size = refl;
  count = omega arith;
  back = λ e j h. inr h;
  placed = λ k e h. cc;
  other = λ e h. refl;
}
place_experts-Placing i (e ∷ es) row free d =
    Returns-bind (λ row1. Written row e (some i) row1 × (occupied row1 + 0 ≡ occupied row + 1))
      (Placing i (e ∷ es) row) (set_at row e (some i)) (place_experts (suc i) es)
      (Returns-both (Written row e (some i)) _ (set_at row e (some i))
        (set_at-Written row e (some i) (get_elem?-lt row e free.0))
        (set_at-occupied row e none (some i) free.0))
      (λ row1 w.
        Returns-map (λ row' p. Placing-cons i e es row row1 row' d.0 w.0 w.1 p)
          (place_experts (suc i) es row1)
          (place_experts-Placing (suc i) es row1 (still_free e (some i) es row row1 w.0 d.0 free.1)
            d.1))

-- The map tells for each expert the slot of the row that holds it, and for no other expert any.
pub record Inverse (n : ℕ) (own : List ℕ) (m : List (Option ℕ)) : Type 0 where
  pub size : length m ≡ n
  pub count : occupied m ≡ length own
  pub to : (i e : ℕ) → get_elem? own i ≡ some e → get_elem? m e ≡ some (some i)
  pub from : (i e : ℕ) → get_elem? m e ≡ some (some i) → get_elem? own i ≡ some e

-- Experts below the global number, none twice.
abbrev pub Row : ℕ → List ℕ → Type 0
Row n own = All (λ e. e < n) own × Distinct own

unset_lem : (n e : ℕ) → e < n → get_elem? (unset n) e ≡ some none
unset_lem zero e h = absurd (omega (arith, h))
unset_lem (suc n) zero h = refl
unset_lem (suc n) (suc e) h = unset_lem n e (omega (arith, h))

unset-free :
    (n : ℕ) (own : List ℕ) → All (λ e. e < n) own → All (λ e. get_elem? (unset n) e ≡ some none) own
unset-free n [] h = tt
unset-free n (e ∷ own) h = (unset_lem n e h.0, unset-free n own h.1)

unset-size : (n : ℕ) → (length (unset n) ≡ n) × (occupied (unset n) ≡ 0)
unset-size zero = (refl, refl)
unset-size (suc n) = (ap suc (unset-size n).0, (unset-size n).1)

unset-blank : (n e j : ℕ) → get_elem? (unset n) e ≡ some (some j) → ⊥
unset-blank zero e j h = cc
unset-blank (suc n) zero j h = cc
unset-blank (suc n) (suc e) j h = unset-blank n e j h

place_experts-Inverse :
    (n : ℕ) (own : List ℕ) → Row n own → Returns (Inverse n own) (place_experts 0 own (unset n))
place_experts-Inverse n own h =
    Returns-map
      (λ m p. record {
        size = p.size ∙ (unset-size n).0;
        count = omega (arith, p.count, (unset-size n).1);
        to = λ i e got. p.placed i e got ∙ ap (λ j. some (some j)) (omega arith);
        from = λ i e got. elim (p.back e i got) [
          | inl (le, held) ↦ ap (λ j. get_elem? own j) (omega arith) ∙ held
          | inr old ↦ absurd (unset-blank n e i old)
        ];
      })
      (place_experts 0 own (unset n))
      (place_experts-Placing 0 own (unset n) (unset-free n own h.0) h.1)

place_ranks-Inverse :
    (n : ℕ) (rows : List (List ℕ))
    → All (Row n) rows
    → Returns (AllPairs (Inverse n) rows) (place_ranks n rows 0 (length rows))
unfolding place_ranks
place_ranks-Inverse n rows h =
    loop-AllPairs (Inverse n) (Row n) (λ own. place_experts 0 own (unset n)) (place_ranks n rows)
      rows (place_experts-Inverse n) (λ i. refl) (λ i left. refl) [] rows refl h

-- A layer has as many rows as there are ranks.
abbrev pub Layer : ExpertLoadBalancer → List (List ℕ) → Type 0
Layer b rows = (length rows ≡ b.ranks_num) × All (Row b.global_expert_num) rows

placement_map-Inverse :
    (b : ExpertLoadBalancer)
    → length b.expert_map ≡ b.layers_num
    → All (Layer b) b.expert_map
    → Returns
        (AllPairs (λ rows. AllPairs (Inverse b.global_expert_num) rows) b.expert_map)
        (generate_expert_placement_map b)
unfolding generate_expert_placement_map place_layers
placement_map-Inverse b size h = rw (sym size) (
    loop-AllPairs (λ rows. AllPairs (Inverse b.global_expert_num) rows) (Layer b)
      (λ rows. place_ranks b.global_expert_num rows 0 b.ranks_num) (place_layers b) b.expert_map
      (λ rows layer. rw (sym layer.0) (place_ranks-Inverse b.global_expert_num rows layer.1))
      (λ i. refl) (λ i left. refl) [] b.expert_map refl h)

-- Let there be as many layers as layers_num, each with a row for each rank, and let the experts of
-- a row be below the global number and different. Then get_rank_placement_map raises no error for
-- a layer and a rank that there are: it counts the experts of the row, and its map is the inverse
-- of the row, with an entry -1 for each other expert.
pub get_rank_placement_map-Inverse :
    (b : ExpertLoadBalancer) (layer_id rank_id : ℕ) (rows : List (List ℕ)) (own : List ℕ)
    → length b.expert_map ≡ b.layers_num
    → All (Layer b) b.expert_map
    → get_at b.expert_map layer_id ≡ ok rows
    → get_at rows rank_id ≡ ok own
    → Returns
        (λ r. (r.0 ≡ length own) × Inverse b.global_expert_num own r.1)
        (get_rank_placement_map b layer_id rank_id)
unfolding get_rank_placement_map
get_rank_placement_map-Inverse b layer_id rank_id rows own size h layer rank =
    Returns-bind (AllPairs (λ rows. AllPairs (Inverse b.global_expert_num) rows) b.expert_map) _
      (generate_expert_placement_map b) _ (placement_map-Inverse b size h)
      (λ layers all.
        Returns-bind (AllPairs (Inverse b.global_expert_num) rows) _ (get_at layers layer_id) _
          (get_at-AllPairs (λ rows. AllPairs (Inverse b.global_expert_num) rows) b.expert_map layers
            layer_id rows all layer)
          (λ maps pairs.
            Returns-bind (Inverse b.global_expert_num own) _ (get_at maps rank_id) _
              (get_at-AllPairs (Inverse b.global_expert_num) rows maps rank_id own pairs rank)
              (λ m inverse. (inverse.count, inverse))))
