-- ===== src/Multistream/MicroBatch.antt =====
-- vllm_ascend/multistream/metadata.py: MultiStreamMetadata.split_micro_batch and
-- merge_micro_batches, around the layers that run the halves. A tensor is the list of its rows, and
-- a dict of tensors has numbers for keys.
use mathlib.Core.List.{map}
use vllm_ascend_origin.Prelude.{
  ℕ, ◌≡◌, refl, Bool, Option, none, some, List, [], ◌∷◌, ◌++◌, take, drop, take-append-drop, length,
  lookup,
}
use vllm_ascend_origin.Prelude.Result.{
  Result, ok, err, assertion_error, index_error, key_error, type_error, or_fail, ◌>>=◌, Ensures,
  Ensures-any, Ensures-bind, Ensures-ok,
}
use vllm_ascend_origin.Multistream.{AscendMlaMetadata}
use vllm_ascend_origin.Multistream.Split.{
  MicroBatches, whole, halves, model_input_split_v1_mla_attn,
}

-- A list of tensors, where some may be missing, and what split_micro_batches_tensors makes of it
unfoldable pub split_tensor {ℓ} :
    {A : Type ℓ} → ℕ → Option (List A) → Option (List A) × Option (List A)
split_tensor split_index none = (none, none)
split_tensor split_index (some tensor) =
    (some (take split_index tensor), some (drop split_index tensor))

unfoldable pub split_dict :
    {A : Type 0} → ℕ → List (ℕ × List A) → List ℕ → Result (List (ℕ × List A) × List (ℕ × List A))
split_dict split_index tensors [] = ok ([], [])
split_dict split_index tensors (key ∷ keys) = or_fail (lookup key tensors) key_error >>= λ tensor.
    split_dict split_index tensors keys >>= λ rest.
    ok ((key, take split_index tensor) ∷ rest.0, (key, drop split_index tensor) ∷ rest.1)

unfoldable pub split_intermediate :
    {A : Type 0}
    → ℕ
    → Option (List (ℕ × List A))
    → Option (List ℕ)
    → Result (Option (List (ℕ × List A) × List (ℕ × List A)))
split_intermediate split_index none keys = ok none
split_intermediate split_index (some tensors) keys = or_fail keys assertion_error >>= λ keys.
    split_dict split_index tensors keys >>= λ r. ok (some r)

-- What split_micro_batch returns: False with its arguments, or True with their halves.
pub data SplitBatch (A : Type 0) : Type 0 where
  unsplit :
      Option AscendMlaMetadata → List (Option (List A)) → Option (List (ℕ × List A)) → SplitBatch A
  split :
      AscendMlaMetadata
      → AscendMlaMetadata
      → List (Option (List A) × Option (List A))
      → Option (List (ℕ × List A) × List (ℕ × List A))
      → SplitBatch A

unfoldable pub split_inputs :
    {A : Type 0}
    → List (Option (List A))
    → Option (List (ℕ × List A))
    → Option (List ℕ)
    → MicroBatches
    → Result (SplitBatch A)
split_inputs inputs intermediate keys (whole m) = ok (unsplit m inputs intermediate)
split_inputs inputs intermediate keys (halves pre post) =
    let split_index = length pre.slot_mapping in
    split_intermediate split_index intermediate keys >>= λ inter.
    ok (split pre post (map (split_tensor split_index) inputs) inter)

unfoldable pub split_micro_batch :
    {A : Type 0}
    → (ℕ → ℕ → Bool)
    → ℕ
    → AscendMlaMetadata
    → List (Option (List A))
    → Option (List (ℕ × List A))
    → Option (List ℕ)
    → Result (SplitBatch A)
split_micro_batch close num_micro_batches m inputs intermediate keys =
    model_input_split_v1_mla_attn close (some m) num_micro_batches
    >>= split_inputs inputs intermediate keys

-- torch.cat of the halves of one tensor. A missing tensor is missing in both, and a missing second
-- half is refused.
unfoldable pub merge_tensors {ℓ} :
    {A : Type ℓ} → Option (List A) × Option (List A) → Result (Option (List A))
merge_tensors (none, post) = ok none
merge_tensors (some pre, none) = err type_error
merge_tensors (some pre, some post) = ok (some (pre ++ post))

unfoldable pub merge_all {ℓ} :
    {A : Type ℓ} → List (Option (List A) × Option (List A)) → Result (List (Option (List A)))
merge_all [] = ok []
merge_all (tensors ∷ rest) = merge_tensors tensors >>= λ t. merge_all rest >>= λ ts. ok (t ∷ ts)

-- On the lists of halves. The test for plain tensors reads the first item.
unfoldable pub merge_micro_batches {ℓ} :
    {A : Type ℓ} → List (Option (List A) × Option (List A)) → Result (List (Option (List A)))
merge_micro_batches [] = err index_error
merge_micro_batches (tensors ∷ rest) = merge_all (tensors ∷ rest)

merge_all-split_tensor :
    {A : Type 0} (i : ℕ) (inputs : List (Option (List A)))
    → merge_all (map (split_tensor i) inputs) ≡ ok inputs
unfolding merge_all merge_tensors split_tensor
merge_all-split_tensor i [] = refl
merge_all-split_tensor i (none ∷ inputs) = rw (merge_all-split_tensor i inputs) refl
merge_all-split_tensor i (some t ∷ inputs) =
    rw (merge_all-split_tensor i inputs, take-append-drop i t) refl

abbrev Merges : {A : Type 0} → List (Option (List A)) → SplitBatch A → Type 0
Merges inputs (unsplit m inputs' inter) = Unit {0}
Merges inputs (split pre post pieces inter) = merge_micro_batches pieces ≡ ok inputs

split_inputs-Merges :
    {A : Type 0} (x : Option (List A)) (inputs : List (Option (List A)))
    (intermediate : Option (List (ℕ × List A))) (keys : Option (List ℕ)) (b : MicroBatches)
    → Ensures (Merges (x ∷ inputs)) (split_inputs (x ∷ inputs) intermediate keys b)
unfolding split_inputs merge_micro_batches
split_inputs-Merges x inputs intermediate keys (whole m) = tt
split_inputs-Merges x inputs intermediate keys (halves pre post) =
    Ensures-bind _ _ (split_intermediate (length pre.slot_mapping) intermediate keys) _
      (Ensures-any _) λ _ _. merge_all-split_tensor (length pre.slot_mapping) (x ∷ inputs)

-- When split_micro_batch splits a batch, merge_micro_batches of the halves of its tensors returns
-- the tensors that were given, if there is one.
pub merge_micro_batches-split_micro_batch :
    {A : Type 0} (close : ℕ → ℕ → Bool) (num_micro_batches : ℕ) (m : AscendMlaMetadata)
    (x : Option (List A)) (inputs : List (Option (List A)))
    (intermediate : Option (List (ℕ × List A))) (keys : Option (List ℕ))
    (pre post : AscendMlaMetadata) (pieces : List (Option (List A) × Option (List A)))
    (inter : Option (List (ℕ × List A) × List (ℕ × List A)))
    → split_micro_batch close num_micro_batches m (x ∷ inputs) intermediate keys
      ≡ ok (split pre post pieces inter)
    → merge_micro_batches pieces ≡ ok (x ∷ inputs)
unfolding split_micro_batch
merge_micro_batches-split_micro_batch close n m x inputs intermediate keys pre post pieces inter e =
    Ensures-ok (Merges (x ∷ inputs)) _ _
      (Ensures-bind _ _ (model_input_split_v1_mla_attn close (some m) n) _ (Ensures-any _)
        λ b _. split_inputs-Merges x inputs intermediate keys b)
      e
