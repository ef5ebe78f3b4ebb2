-- ===== src/InputBatch/Search.antt =====
-- vllm_ascend/worker/npu_input_batch.py, InputBatch.condense: the search for the last request, and
-- the order in which the holes are handed out.
use vllm_ascend_origin.Prelude.{
  ℕ, zero, suc, ◌<◌, ◌≤◌, ◌≡◌, Bool, true, false, inl, inr, none, some, List, [], arith, ◌==◌,
  if◌then◌else◌, Bool-cases, elem, count, ◌-◌,
}
use vllm_ascend_origin.InputBatch.State.{Ext}
use vllm_ascend_origin.InputBatch.Condense.{find_last, BuilderLaws}

-- The update builder's documented behaviour: it hands out the least of the removed
-- indices, of which one is then gone from the list.
pub record HoleLaws (E : Ext) : Type 0 where
  pub ends : BuilderLaws E
  pub peek_none : (u : E.Builder) → E.peek_removed u ≡ none → E.removed u ≡ []
  pub peek_some :
      (u : E.Builder) (m : ℕ)
      → E.peek_removed u ≡ some m
      → (elem m (E.removed u) ≡ true) × ((k : ℕ) → elem k (E.removed u) ≡ true → m ≤ k)
  pub popped :
      (u : E.Builder) (m k : ℕ)
      → E.peek_removed u ≡ some m
      → count k (E.removed (E.pop_removed u).1)
        ≡ (if m == k then count k (E.removed u) - 1 else count k (E.removed u))
  pub noted : (i j : ℕ) (s : Bool) (u : E.Builder) → E.removed (E.moved i j s u) ≡ E.removed u

-- No index is listed twice.
abbrev pub Once : List ℕ → Type 0
Once xs = (k : ℕ) → count k xs ≤ 1

-- What the downward search finds: all above it, up to `last`, are removed.
pub find_last-found :
    (last l : ℕ) (removed : List ℕ)
    → find_last last removed ≡ some l
    → (l ≤ last) × (elem l removed ≡ false) × ((k : ℕ) → l < k → k ≤ last → elem k removed ≡ true)
unfolding find_last
find_last-found zero l removed h =
    (ground (arith, h), ground (arith, h), λ k p q. ground (arith, h))
find_last-found (suc n) l removed h = elim (Bool-cases (elem (suc n) removed)) [
  | inl e ↦
      let (p, q, r) = find_last-found n l removed (rw e at h) in
      (omega (arith, p), q, λ k a b. ground (arith, e, r k))
  | inr e ↦
      let same : some (suc n) ≡ some l = rw e at h in
      (ground (arith, same), ground (arith, same, e), λ k a b. ground (arith, same))
]

pub find_last-none :
    (last : ℕ) (removed : List ℕ)
    → find_last last removed ≡ none
    → (k : ℕ) → k ≤ last
    → elem k removed ≡ true
unfolding find_last
find_last-none zero removed h k le = ground (arith, h)
find_last-none (suc n) removed h k le = elim (Bool-cases (elem (suc n) removed)) [
  | inl e ↦ ground (arith, e, find_last-none n removed (rw e at h) k)
  | inr e ↦ ground (arith, e, h)
]
