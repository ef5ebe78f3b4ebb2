-- ===== src/InputBatch/Entries.antt =====
-- vllm_ascend/worker/npu_input_batch.py, InputBatch.condense: one entry slides into a hole.
use vllm_ascend_origin.Prelude.Arrays.{occupied, here, set_at-occupied}
use vllm_ascend_origin.Prelude.Arrays.{set_at, Written, get_at-eq-ok, set_at-Written}
use vllm_ascend_origin.Prelude.{
  ℕ, ◌+◌, ◌<◌, ◌≡◌, Option, none, some, List, arith, ◌==◌, if◌then◌else◌, length, get_elem?,
  get_elem?-lt,
}
use vllm_ascend_origin.Prelude.Result.{Returns, Returns-bind, Returns-both, Returns-map}
use vllm_ascend_origin.InputBatch.Condense.{move_entry}

-- The entry at `last` stands at `empty`, and `last` is a hole.
pub record Slid {A : Type 0} (last empty : ℕ) (x : Option A) (xs ys : List (Option A))
    : Type 0 where
  pub read :
      (k : ℕ)
      → get_elem? ys k
        ≡ (if last == k then some none else (if empty == k then some x else get_elem? xs k))
  pub size : length ys ≡ length xs

pub move_entry-Slid :
    {A : Type 0} (last empty : ℕ) (x : Option A) (xs : List (Option A))
    → get_elem? xs last ≡ some x
    → empty < length xs
    → Returns (Slid last empty x xs) (move_entry last empty xs)
unfolding move_entry
move_entry-Slid last empty x xs h lt =
    let room : last < length xs = get_elem?-lt xs last h in
    rw (get_at-eq-ok xs last h) (
      Returns-bind (Written xs empty x) (Slid last empty x xs) (set_at xs empty x)
        (λ ys. set_at ys last none) (set_at-Written xs empty x lt)
        (λ ys v.
          Returns-map
            (λ zs w. record {
              read = λ k. ground (arith, w.read k, v.read k);
              size = omega (arith, w.size, v.size);
            })
            (set_at ys last none) (set_at-Written ys last none (omega (arith, room, v.size)))))

-- The number of entries stays, where the entry slides into a hole.
pub move_entry-occupied :
    {A : Type 0} (last empty : ℕ) (x : A) (xs : List (Option A))
    → get_elem? xs last ≡ some (some x)
    → get_elem? xs empty ≡ some none
    → Returns (λ ys. occupied ys ≡ occupied xs) (move_entry last empty xs)
unfolding move_entry
move_entry-occupied {A} last empty x xs h hole =
    let filled : List (Option A) → Type 0 =
      λ ys. occupied ys + here {A = A} none ≡ occupied xs + here (some x) in
    rw (get_at-eq-ok xs last h) (
      Returns-bind (λ ys. Written xs empty (some x) ys × filled ys)
        (λ ys. occupied ys ≡ occupied xs) (set_at xs empty (some x)) (λ ys. set_at ys last none)
        (Returns-both (Written xs empty (some x)) filled (set_at xs empty (some x))
          (set_at-Written xs empty (some x) (get_elem?-lt xs empty hole))
          (set_at-occupied xs empty none (some x) hole))
        (λ ys p.
          Returns-map (λ zs e. omega (arith, e, p.1)) (set_at ys last none)
            (set_at-occupied ys last (some x) none (ground (arith, p.0.read last, h)))))
