-- ===== src/ExpertLoadBalancer/Tests.antt =====
-- Runs of the expert load balancer: two ranks with two slots each, and a copy of expert 0 on both.
use vllm_ascend_origin.Prelude.{ℕ, ◌≡◌, refl, some, List, [], ◌∷◌, arith, lookup, insert, entries}
use vllm_ascend_origin.Prelude.Int.{pos}
use vllm_ascend_origin.Prelude.Arrays.{get_at, set_at}
use vllm_ascend_origin.Prelude.Result.{ok, Returns}
use vllm_ascend_origin.ExpertLoadBalancer.{
  ExpertLoadBalancer, init_balancer, to_tensor, check_lengths, check_slots, device_lists,
  generate_index_dicts, index_row, positions, flatten, route, route_keys, route_ranks,
  generate_log2phy_expert_map, get_rank_placement_map, get_global_redundant_expert_num,
}
use vllm_ascend_origin.ExpertLoadBalancer.Routes.{
  ChoiceLaw, AllRouted, generate_log2phy_expert_map-AllRouted,
}
use vllm_ascend_origin.ExpertLoadBalancer.Placement.{Inverse, get_rank_placement_map-Inverse}

abbrev balancer : ExpertLoadBalancer
balancer = record {
  expert_map = ((0 ∷ 2 ∷ []) ∷ (1 ∷ 0 ∷ []) ∷ []) ∷ [];
  layers_num = 1;
  ranks_num = 2;
  global_expert_num = 3;
}

init_run :
    init_balancer
      (record {
        moe_layer_count = 1;
        layer_list =
            record { device_count = 2; device_list = (0 ∷ 2 ∷ []) ∷ (1 ∷ 0 ∷ []) ∷ [] } ∷ [];
      })
      3
    ≡ ok balancer
unfolding init_balancer to_tensor check_lengths check_slots device_lists get_at
init_run = refl

abbrev first_of : ℕ → ℕ → List ℕ → ℕ
first_of rank key [] = 0
first_of rank key (x ∷ xs) = x

first_of-ChoiceLaw : ChoiceLaw first_of
first_of-ChoiceLaw rank key [] h = absurd (omega (arith, h))
first_of-ChoiceLaw rank key (x ∷ xs) h = ground arith

-- Expert 0 is routed to the rank's own copy.
log2phy_run :
    generate_log2phy_expert_map first_of balancer 0
    ≡ ok ((some 0 ∷ some 2 ∷ some 1 ∷ []) ∷ (some 3 ∷ some 2 ∷ some 1 ∷ []) ∷ [])
unfolding generate_log2phy_expert_map route_ranks route_keys route positions flatten
    generate_index_dicts index_row get_at set_at lookup insert entries
log2phy_run = refl

redundant_run : get_global_redundant_expert_num balancer ≡ ok (pos 1)
unfolding get_global_redundant_expert_num get_at
redundant_run = refl

generate_log2phy_expert_map-AllRouted_example :
    Returns
      (AllRouted (0 ∷ 2 ∷ 1 ∷ 0 ∷ []) 3 0 ((0 ∷ 2 ∷ []) ∷ (1 ∷ 0 ∷ []) ∷ []))
      (generate_log2phy_expert_map first_of balancer 0)
unfolding get_at flatten
generate_log2phy_expert_map-AllRouted_example =
    generate_log2phy_expert_map-AllRouted first_of balancer 0 ((0 ∷ 2 ∷ []) ∷ (1 ∷ 0 ∷ []) ∷ [])
      first_of-ChoiceLaw refl refl (omega arith, (omega arith, (omega arith, (omega arith, tt))))

get_rank_placement_map-Inverse_example :
    Returns (λ r. (r.0 ≡ 2) × Inverse 3 (1 ∷ 0 ∷ []) r.1) (get_rank_placement_map balancer 0 1)
unfolding get_at
get_rank_placement_map-Inverse_example =
    get_rank_placement_map-Inverse balancer 0 1 ((0 ∷ 2 ∷ []) ∷ (1 ∷ 0 ∷ []) ∷ []) (1 ∷ 0 ∷ []) refl
      (
        (
          refl,
          (
            ((omega arith, (omega arith, tt)), (refl, (refl, tt))),
            (((omega arith, (omega arith, tt)), (refl, (refl, tt))), tt),
          ),
        ),
        tt,
      )
      refl refl
