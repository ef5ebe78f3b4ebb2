-- ===== src/Utils.antt =====
-- vllm_ascend/utils.py: the batch sizes for which graphs are captured, which the hardware limits.
-- floor(1920 / (layers + 1) / factor) of floats is the quotient of naturals: where it is no integer,
-- it is further from one than the rounding of the division.
pub mod Picks
pub mod Sizes
mod Tests
use vllm_ascend_origin.Prelude.{
  ℕ, zero, suc, ◌+◌, ◌-◌, ◌/◌, max, not, ◌==◌, ltb, if◌then◌else◌, Option, none, some, List, [],
  ◌∷◌, ◌++◌, length,
}
use vllm_ascend_origin.Prelude.Arrays.{set_at, get_at}
use vllm_ascend_origin.Prelude.Result.{
  Result, ok, err, guard, value_error, type_error, zero_division_error, ◌>>=◌,
}
use vllm_ascend_origin.Prelude.Step.{Step}

-- MAX_CAPTURE_SIZE
abbrev pub max_capture_size : ℕ
max_capture_size = 1920

-- hf_config.to_dict(): integers, dicts and other values. Keys are numbers.
mutual
  pub data ConfigValue : Type 0 where
    int : ℕ → ConfigValue
    dict : ConfigDict → ConfigValue
    other : ConfigValue

  pub data ConfigDict : Type 0 where
    empty : ConfigDict
    item : ℕ → ConfigValue → ConfigDict → ConfigDict

-- The key "num_hidden_layers"
abbrev pub layers_key : ℕ
layers_key = 0

-- _rec_find: the counts in a dict, in order, and of a value under a key.
unfoldable mutual
  pub rec_find : ConfigDict → List ℕ
  rec_find empty = []
  rec_find (item k v d) = find_value k v ++ rec_find d

  pub find_value : ℕ → ConfigValue → List ℕ
  find_value k (int n) = if k == layers_key then n ∷ [] else []
  find_value k (dict d) = rec_find d
  find_value k other = []

unfoldable pub max_count : List ℕ → Result ℕ
max_count [] = err value_error
max_count (n ∷ []) = ok n
max_count (n ∷ k ∷ counts) = max_count (k ∷ counts) >>= λ m. ok (max n m)

unfoldable pub get_max_hidden_layers : ConfigDict → Result ℕ
get_max_hidden_layers d = max_count (rec_find d)

-- The model's configuration: its attribute num_hidden_layers, if it has one, and its dict.
pub record HfConfig : Type 0 where
  pub num_hidden_layers : Option ℕ
  pub to_dict : ConfigDict

unfoldable pub num_hidden_layers_of : HfConfig → Result ℕ
num_hidden_layers_of hf_config = elim hf_config.num_hidden_layers [
  | some n ↦ ok n
  | none ↦ get_max_hidden_layers hf_config.to_dict
]

unfoldable pub parallel_factor : ℕ → ℕ → ℕ
parallel_factor data_parallel_size_local tensor_parallel_size =
    1
    + (if ltb 1 data_parallel_size_local then 1 else 0)
    + (if ltb 1 tensor_parallel_size then 1 else 0)

unfoldable pub max_num_batch_sizes_of : ℕ → ℕ → ℕ
max_num_batch_sizes_of num_hidden_layers factor =
    max_capture_size / (num_hidden_layers + 1) / factor

-- `round(i * (n / m))` of floats, and vllm's init_with_cudagraph_sizes, which sorts the sizes and
-- drops repeated ones.
pub record Outside : Type 0 where
  pub round_index : ℕ → ℕ → ℕ → ℕ
  pub init_with_cudagraph_sizes : List ℕ → List ℕ

module _ (out : Outside) where
  -- The indices from `i` on, `left` of them.
  unfoldable pub indices_from : ℕ → ℕ → ℕ → ℕ → List ℕ
  indices_from n m i zero = []
  indices_from n m i (suc left) = out.round_index i n m ∷ indices_from n m (suc i) left

  -- [original_sizes[i] for i in indices]
  unfoldable pub gather : List ℕ → List ℕ → Result (List ℕ)
  gather sizes [] = ok []
  gather sizes (i ∷ indices) =
      get_at sizes i >>= λ size. gather sizes indices >>= λ rest. ok (size ∷ rest)

  unfoldable pub sample_sizes : List ℕ → ℕ → Result (List ℕ)
  sample_sizes original_sizes max_num_batch_sizes =
      let last = length original_sizes - 1 in
      guard (not (max_num_batch_sizes == 1)) zero_division_error >>= λ _.
      set_at (indices_from last (max_num_batch_sizes - 1) 0 max_num_batch_sizes) 0 0 >>= λ indices.
      set_at indices (length indices - 1) last >>= gather original_sizes

  -- On compilation_config.cudagraph_capture_sizes, which is None meanwhile.
  unfoldable pub set_sizes : ℕ → List ℕ → Result (Unit {0}) × Option (List ℕ)
  set_sizes max_num_batch_sizes original_sizes =
      if ltb max_num_batch_sizes (length original_sizes)
      then elim (sample_sizes original_sizes max_num_batch_sizes) [
        | ok sampled ↦ (ok tt, some (out.init_with_cudagraph_sizes sampled))
        | err e ↦ (err e, none)
      ]
      else (ok tt, some original_sizes)

  unfoldable pub update_aclgraph_sizes : HfConfig → ℕ → ℕ → Step (Option (List ℕ)) (Unit {0})
  update_aclgraph_sizes hf_config data_parallel_size_local tensor_parallel_size original =
      elim (num_hidden_layers_of hf_config) [
        | err e ↦ (err e, none)
        | ok layers ↦ elim original [
          | none ↦ (err type_error, none)
          | some sizes ↦
              set_sizes
                (max_num_batch_sizes_of layers
                  (parallel_factor data_parallel_size_local tensor_parallel_size))
                sizes
        ]
      ]
