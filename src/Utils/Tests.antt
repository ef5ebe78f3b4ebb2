-- ===== src/Utils/Tests.antt =====
-- Runs of update_aclgraph_sizes: a model of 319 layers has room for three sizes with tensor
-- parallelism, and one of 959 for one size.
use vllm_ascend_origin.Prelude.{ℕ, ◌*◌, ◌/◌, ◌≡◌, refl, none, some, List, [], ◌∷◌, min}
use vllm_ascend_origin.Prelude.Arrays.{set_at, get_at}
use vllm_ascend_origin.Prelude.Result.{ok, err, value_error, zero_division_error}
use vllm_ascend_origin.Utils.{
  int, dict, other, empty, item, rec_find, max_count, get_max_hidden_layers, HfConfig,
  num_hidden_layers_of, parallel_factor, max_num_batch_sizes_of, Outside, indices_from, gather,
  sample_sizes, set_sizes, update_aclgraph_sizes,
}

-- Rounding down, and sizes that vllm leaves as they are.
abbrev outside : Outside
outside = record {
  round_index = λ i n m. min n (i * n / m);
  init_with_cudagraph_sizes = λ sizes. sizes;
}

abbrev model : ℕ → HfConfig
model layers = record {
  num_hidden_layers = none;
  to_dict = item 1 other (item 2 (dict (item 0 (int layers) empty)) (item 0 (int 2) empty));
}

no_layers_run : get_max_hidden_layers (item 1 (int 5) empty) ≡ err value_error
unfolding get_max_hidden_layers rec_find max_count
no_layers_run = refl

abbrev sizes : List ℕ
sizes = 16 ∷ 8 ∷ 4 ∷ 2 ∷ 1 ∷ []

sampled_run :
    update_aclgraph_sizes outside (model 319) 1 2 (some sizes) ≡ (ok tt, some (16 ∷ 4 ∷ 1 ∷ []))
unfolding update_aclgraph_sizes num_hidden_layers_of get_max_hidden_layers rec_find max_count
    parallel_factor max_num_batch_sizes_of set_sizes sample_sizes indices_from gather set_at get_at
sampled_run = refl

-- Room for one size: the division fails, and the sizes are gone.
lost_run :
    update_aclgraph_sizes outside (model 959) 1 2 (some sizes) ≡ (err zero_division_error, none)
unfolding update_aclgraph_sizes num_hidden_layers_of get_max_hidden_layers rec_find max_count
    parallel_factor max_num_batch_sizes_of set_sizes sample_sizes indices_from gather set_at get_at
lost_run = refl
