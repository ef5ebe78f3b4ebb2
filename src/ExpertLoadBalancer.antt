-- ===== src/ExpertLoadBalancer.antt =====
-- vllm_ascend/ops/expert_load_balancer.py: the maps between logical experts and their physical
-- copies. Tensors are nested lists, of which an entry -1 is `none`.
pub mod Placement
pub mod Indices
pub mod Routes
mod Tests
use vllm_ascend_origin.Prelude.{
  ℕ, zero, suc, ◌+◌, ◌*◌, Option, none, some, List, [], ◌∷◌, ◌++◌, ◌==◌, if◌then◌else◌, length,
  lookup, insert, entries,
}
use vllm_ascend_origin.Prelude.Int.{ℤ, sub_ℕ}
use vllm_ascend_origin.Prelude.Arrays.{get_at, set_at, occupied}
use vllm_ascend_origin.Prelude.Result.{Result, ok, err, value_error, ◌>>=◌}

-- The parsed JSON file: `device_count` of each layer, and `device_expert` of each of its devices.
pub record LayerEntry : Type 0 where
  pub device_count : ℕ
  pub device_list : List (List ℕ)

pub record ExpertFile : Type 0 where
  pub moe_layer_count : ℕ
  pub layer_list : List LayerEntry

pub record ExpertLoadBalancer : Type 0 where
  -- Layer, rank, slot.
  pub expert_map : List (List (List ℕ))
  pub layers_num : ℕ
  pub ranks_num : ℕ
  pub global_expert_num : ℕ

-- torch.tensor of nested lists: those of one depth have one length.
unfoldable pub check_lengths : {A : Type 0} → ℕ → List (List A) → Result (Unit {0})
check_lengths n [] = ok tt
check_lengths n (xs ∷ xss) =
    let rest = check_lengths n xss in if length xs == n then rest else err value_error

unfoldable pub check_slots : {A : Type 0} → ℕ → List (List (List A)) → Result (Unit {0})
check_slots n [] = ok tt
check_slots n (layer ∷ layers) = check_lengths n layer >>= λ _. check_slots n layers

unfoldable pub to_tensor : List (List (List ℕ)) → Result (List (List (List ℕ)))
to_tensor [] = ok []
to_tensor ([] ∷ layers) = check_lengths 0 layers >>= λ _. ok ([] ∷ layers)
to_tensor ((row ∷ rows) ∷ layers) = check_lengths (length (row ∷ rows)) layers >>= λ _.
    check_slots (length row) ((row ∷ rows) ∷ layers) >>= λ _. ok ((row ∷ rows) ∷ layers)

unfoldable pub device_lists : List LayerEntry → List (List (List ℕ))
device_lists [] = []
device_lists (layer ∷ layers) = layer.device_list ∷ device_lists layers

unfoldable pub init_balancer : ExpertFile → ℕ → Result ExpertLoadBalancer
init_balancer file global_expert_num = get_at file.layer_list 0 >>= λ first.
    to_tensor (device_lists file.layer_list) >>= λ expert_map. ok (record {
      expert_map = expert_map;
      layers_num = file.moe_layer_count;
      ranks_num = first.device_count;
      global_expert_num = global_expert_num;
    })

-- The dict of one row, from the global index of its next slot on.
unfoldable pub index_row : ℕ → List ℕ → List (ℕ × ℕ) → List (ℕ × ℕ)
index_row idx [] d = d
index_row idx (value ∷ row) d = index_row (suc idx) row (insert value idx d)

unfoldable pub generate_index_dicts : ℕ → List (List ℕ) → List (List (ℕ × ℕ))
generate_index_dicts current_idx [] = []
generate_index_dicts current_idx (row ∷ rows) =
    index_row current_idx row [] ∷ generate_index_dicts (current_idx + length row) rows

-- A tensor of `n` entries -1.
abbrev pub unset : ℕ → List (Option ℕ)
unset zero = []
unset (suc n) = none ∷ unset n

-- `row[e_ids] = arange(len(e_ids))`, from slot `i` on. For an expert that stands twice in `e_ids`,
-- torch leaves open which slot is written; here it is the last.
unfoldable pub place_experts : ℕ → List ℕ → List (Option ℕ) → Result (List (Option ℕ))
place_experts i [] row = ok row
place_experts i (e ∷ e_ids) row = set_at row e (some i) >>= place_experts (suc i) e_ids

-- The ranks of a layer that are left, from `rank` on.
unfoldable pub place_ranks : ℕ → List (List ℕ) → ℕ → ℕ → Result (List (List (Option ℕ)))
place_ranks global_expert_num rows rank zero = ok []
place_ranks global_expert_num rows rank (suc left) = get_at rows rank >>= λ e_ids.
    place_experts 0 e_ids (unset global_expert_num) >>= λ row.
    place_ranks global_expert_num rows (suc rank) left >>= λ rest. ok (row ∷ rest)

unfoldable pub place_layers : ExpertLoadBalancer → ℕ → ℕ → Result (List (List (List (Option ℕ))))
place_layers b layer zero = ok []
place_layers b layer (suc left) = get_at b.expert_map layer >>= λ rows.
    place_ranks b.global_expert_num rows 0 b.ranks_num >>= λ placed.
    place_layers b (suc layer) left >>= λ rest. ok (placed ∷ rest)

unfoldable pub generate_expert_placement_map :
    ExpertLoadBalancer → Result (List (List (List (Option ℕ))))
generate_expert_placement_map b = place_layers b 0 b.layers_num

-- The number of entries that are not -1, and the entries.
unfoldable pub get_rank_placement_map : ExpertLoadBalancer → ℕ → ℕ → Result (ℕ × List (Option ℕ))
get_rank_placement_map b layer_id rank_id = generate_expert_placement_map b >>= λ layers.
    get_at layers layer_id >>= λ layer. get_at layer rank_id >>= λ row. ok (occupied row, row)

-- `torch.flatten`
unfoldable pub flatten : List (List ℕ) → List ℕ
flatten [] = []
flatten (row ∷ rows) = row ++ flatten rows

-- result_dict: the indices of each expert, from `idx` on.
unfoldable pub positions : ℕ → List ℕ → List (ℕ × List ℕ) → List (ℕ × List ℕ)
positions idx [] d = d
positions idx (key ∷ keys) d = positions (suc idx) keys (insert key (entries key d ++ idx ∷ []) d)

-- random.choice, in the call for a rank and an expert
module _ (choice : ℕ → ℕ → List ℕ → ℕ) where
  -- A copy on the rank itself, if there is one, and any copy otherwise.
  unfoldable pub route : ℕ → List (ℕ × ℕ) → ℕ → List ℕ → ℕ
  route rank local key indices_in_concat = elim (lookup key local) [
    | some idx ↦ idx
    | none ↦ choice rank key indices_in_concat
  ]

  unfoldable pub route_keys :
      ℕ → List (ℕ × ℕ) → List (ℕ × List ℕ) → List (Option ℕ) → Result (List (Option ℕ))
  route_keys rank local [] row = ok row
  route_keys rank local ((key, indices) ∷ result_dict) row =
      set_at row key (some (route rank local key indices)) >>= route_keys rank local result_dict

  -- The ranks that are left, from `rank` on.
  unfoldable pub route_ranks :
      ℕ → List (List (ℕ × ℕ)) → List (ℕ × List ℕ) → ℕ → ℕ → Result (List (List (Option ℕ)))
  route_ranks global_expert_num dicts result_dict rank zero = ok []
  route_ranks global_expert_num dicts result_dict rank (suc left) = get_at dicts rank >>= λ local.
      route_keys rank local result_dict (unset global_expert_num) >>= λ row.
      route_ranks global_expert_num dicts result_dict (suc rank) left >>= λ rest. ok (row ∷ rest)

  unfoldable pub generate_log2phy_expert_map :
      ExpertLoadBalancer → ℕ → Result (List (List (Option ℕ)))
  generate_log2phy_expert_map b layer_id = get_at b.expert_map layer_id >>= λ rows.
      route_ranks b.global_expert_num (generate_index_dicts 0 rows) (positions 0 (flatten rows) [])
        0 b.ranks_num

  unfoldable pub get_rank_log2phy_map : ExpertLoadBalancer → ℕ → ℕ → Result (List (Option ℕ))
  get_rank_log2phy_map b layer_id rank_id =
      generate_log2phy_expert_map b layer_id >>= λ rows. get_at rows rank_id

unfoldable pub get_global_redundant_expert_num : ExpertLoadBalancer → Result ℤ
get_global_redundant_expert_num b = get_at b.expert_map 0 >>= λ rows.
    get_at rows 0 >>= λ row. ok (sub_ℕ (length row * b.ranks_num) b.global_expert_num)
