-- ===== src/InputBatch/Rows.antt =====
-- vllm_ascend/worker/npu_input_batch.py, InputBatch.condense: a row's tokens, mask and dict entries are
-- copied to another index.
use mathlib.Core.Path.{fun_ext}
use vllm_ascend_origin.Prelude.{
  ℕ, ◌≡◌, ◌≢◌, sym, Bool, inl, inr, Option, none, some, List, arith, ◌==◌, if◌then◌else◌,
  Option-cases, lookup, erase, lookup-insert, lookup-erase, UniqueKeys, insert-UniqueKeys,
  erase-UniqueKeys,
}
use vllm_ascend_origin.InputBatch.View.{prefix_of, mask_row_at}
use vllm_ascend_origin.InputBatch.Condense.{copy_prefix, copy_row, move_key}

module _ {V : Type 0} (last empty : ℕ) (d : List (ℕ × V)) where
  pub lookup-move_key :
      (k : ℕ)
      → last ≢ empty
      → UniqueKeys d
      → lookup empty d ≡ none
      → lookup k (move_key last empty d)
        ≡ (if last == k then none else (if empty == k then lookup last d else lookup k d))
  unfolding move_key
  lookup-move_key k ne u h = elim (Option-cases (lookup last d)) [
    | inl e ↦ rw (e, move_key) (ground (arith, lookup-erase last k d u, h, e, h' k))
    | inr (x, e) ↦
        rw (e, move_key)
          (ground (arith, lookup-insert empty k x (erase last d), lookup-erase last k d u, ne))
  ]
    where
      h' : (k : ℕ) → empty ≡ k → lookup k d ≡ none
      h' k e = rw (sym e) h

  pub move_key-UniqueKeys : UniqueKeys d → UniqueKeys (move_key last empty d)
  unfolding move_key
  move_key-UniqueKeys u = elim (Option-cases (lookup last d)) [
    | inl e ↦ rw (e, move_key) (erase-UniqueKeys last d u)
    | inr (x, e) ↦
        rw (e, move_key) (insert-UniqueKeys empty x (erase last d) (erase-UniqueKeys last d u))
  ]

pub prefix-copy_prefix :
    (n : ℕ) (src dst : ℕ → ℕ) → prefix_of n (copy_prefix n src dst) ≡ prefix_of n src
unfolding copy_prefix
prefix-copy_prefix n src dst = fun_ext (λ j. ground arith)

pub mask_row-copy :
    (o : Option (ℕ → ℕ → Bool)) (last empty k : ℕ)
    → mask_row_at (elim o [ none ↦ none | some mask ↦ some (copy_row last empty mask) ]) k
      ≡ (if empty == k then mask_row_at o last else mask_row_at o k)
mask_row-copy none last empty k = ground arith
mask_row-copy (some mask) last empty k = ground arith
