-- ===== src/InputBatch/Packing.antt =====
-- vllm_ascend/worker/npu_input_batch.py, InputBatch.condense: it returns, no hole is left, and every
-- request keeps its row.
use vllm_ascend_origin.Prelude.{
  ℕ, zero, suc, ◌-◌, ◌<◌, ◌≤◌, ◌≡◌, ◌≢◌, refl, sym, ap, ◌∙◌, true, false, inl, inr, none, some, [],
  ◌∷◌, arith, ◌==◌, if◌then◌else◌, leb, Bool-cases, Option-cases, List-cases, length, elem,
  get_elem?, get_elem?-some, elem-length, leb→le, count, elem-count,
}
use vllm_ascend_origin.Prelude.Result.{◌>>=◌, Returns, Returns-bind, Returns-map}
use vllm_ascend_origin.InputBatch.State.{Ext, InputBatch, num_reqs}
use vllm_ascend_origin.InputBatch.Slots.{Packed, Packed-occupied}
use vllm_ascend_origin.InputBatch.View.{view, IsIndexed, TableLaws}
use vllm_ascend_origin.InputBatch.Condense.{find_last, move_request, fill_holes}
use vllm_ascend_origin.InputBatch.Slide.{Moved, move_request-Moved}
use vllm_ascend_origin.InputBatch.Search.{HoleLaws, Once, find_last-found, find_last-none}

-- Between two rounds: up to `last` the holes are the removed indices, and nothing stands above.
pub record Sliding {E : Ext} (last : ℕ) (b : InputBatch E) : Type 0 where
  pub valid : IsIndexed b
  pub holes :
      (i : ℕ)
      → i ≤ last
      → elem i (E.removed b.batch_update_builder) ≡ true
      → get_elem? b.req_ids i ≡ some none
  pub filled :
      (i : ℕ)
      → i ≤ last
      → elem i (E.removed b.batch_update_builder) ≡ false
      → get_elem? b.req_ids i ≢ some none
  pub above : (i id : ℕ) → last < i → get_elem? b.req_ids i ≢ some (some id)
  pub inside : last < length b.req_ids
  pub once : Once (E.removed b.batch_update_builder)

-- The same requests with the same rows, packed.
pub record Settled {E : Ext} (b c : InputBatch E) : Type 0 where
  pub valid : IsIndexed c
  pub packed : Packed (num_reqs b) c.req_ids
  pub reqs : num_reqs c ≡ num_reqs b
  pub same : (q : ℕ) → view c q ≡ view b q

Packed-now : {E : Ext} (n : ℕ) (b : InputBatch E) → IsIndexed b → Packed n b.req_ids → Settled b b
unfolding num_reqs
Packed-now n b v p =
    let size : n ≡ length b.req_id_to_index = sym (Packed-occupied n b.req_ids p) ∙ v.counted in
    record { valid = v; packed = rw size at p; reqs = refl; same = λ q. refl }

-- One round, where the least hole is below the last request.
Sliding-next :
    {E : Ext} (laws : HoleLaws E) (last l empty id : ℕ) (b c : InputBatch E)
    → Sliding last b
    → l ≤ last
    → ((k : ℕ) → l < k → k ≤ last → elem k (E.removed b.batch_update_builder) ≡ true)
    → E.peek_removed b.batch_update_builder ≡ some empty
    → empty < l
    → Moved l empty id b c
    → Sliding (l - 1) c
Sliding-next {E = E} laws last l empty id b c s le gone peeked lt m =
    let counted : (k : ℕ)
        → count k (E.removed c.batch_update_builder) ≡ (
            if empty == k
            then count k (E.removed b.batch_update_builder) - 1
            else count k (E.removed b.batch_update_builder)) =
      λ k.
        rw (m.builder, laws.noted l empty false (E.pop_removed b.batch_update_builder).1)
          (laws.popped b.batch_update_builder empty k peeked) in
    let removed : (k : ℕ)
        → elem k (E.removed c.batch_update_builder)
          ≡ (if empty == k then false else elem k (E.removed b.batch_update_builder)) =
      λ k. ground (
        arith,
        counted k,
        s.once k,
        elem-count k (E.removed c.batch_update_builder),
        elem-count k (E.removed b.batch_update_builder),
      ) in
    record {
      valid = m.valid;
      holes = λ i p h. ground (arith, removed i, m.ids.read i, s.holes i, h);
      filled = λ i p h g. ground (arith, removed i, m.ids.read i, s.filled i, h, g);
      above = λ i q p g. ground (arith, m.ids.read i, s.above i q, gone i, s.holes i, g);
      inside = omega (arith, s.inside, m.ids.size);
      once = λ k. ground (arith, counted k, s.once k);
    }

Settled-Moved :
    {E : Ext} (l empty id : ℕ) (b c d : InputBatch E)
    → Moved l empty id b c
    → Settled c d
    → Settled b d
unfolding num_reqs
Settled-Moved l empty id b c d m s = record {
  valid = s.valid;
  packed = rw m.reqs at s.packed;
  reqs = s.reqs ∙ m.reqs;
  same = λ q. s.same q ∙ m.same q;
}

module _ {E : Ext} (table : TableLaws E) (laws : HoleLaws E) where
  -- Where the least hole is above the last request, or nothing is left, the requests are packed.
  done :
      (last : ℕ) (b : InputBatch E)
      → Sliding last b
      → E.removed b.batch_update_builder ≡ []
      → Settled b b
  done last b s e = Packed-now (suc last) b s.valid (record {
    within = s.inside;
    below = λ i h. s.filled i (omega (arith, h)) (rw e);
    above = λ i id h. s.above i id h;
  })

  nothing_left :
      (last : ℕ) (b : InputBatch E)
      → Sliding last b
      → find_last last (E.removed b.batch_update_builder) ≡ none
      → Settled b b
  nothing_left last b s e = Packed-now 0 b s.valid (record {
    within = omega arith;
    below = λ i h. absurd (omega (arith, h));
    above = λ i id h g. ground (
      arith,
      g,
      s.above i id,
      s.holes i,
      find_last-none last (E.removed b.batch_update_builder) e i,
    );
  })

  in_order :
      (last l empty : ℕ) (b : InputBatch E)
      → Sliding last b
      → find_last last (E.removed b.batch_update_builder) ≡ some l
      → E.peek_removed b.batch_update_builder ≡ some empty
      → l ≤ empty
      → Settled b b
  in_order last l empty b s e peeked le =
      let (bound, free, gone) = find_last-found last l (E.removed b.batch_update_builder) e in
      let (hole, least) = laws.peek_some b.batch_update_builder empty peeked in
      Packed-now (suc l) b s.valid (record {
        within = omega (arith, bound, s.inside);
        below = λ i h g. ground (arith, g, h, s.filled i, least i, free, hole, le, bound);
        above = λ i id h g. ground (arith, g, h, s.above i id, s.holes i, gone i);
      })

  standing :
      (last l : ℕ) (b : InputBatch E)
      → Sliding last b
      → l ≤ last
      → elem l (E.removed b.batch_update_builder) ≡ false
      → (id : ℕ) × (get_elem? b.req_ids l ≡ some (some id))
  standing last l b s le free =
      let (o, e) = get_elem?-some b.req_ids l (omega (arith, le, s.inside)) in
      elim (Option-cases o) [
        | inl n ↦ absurd (s.filled l le free (e ∙ ap some n))
        | inr (id, n) ↦ (id, e ∙ ap some n)
      ]

  module _ (fuel last : ℕ) (b : InputBatch E) (s : Sliding last b) where
    slide :
        (l empty : ℕ)
        → find_last last (E.removed b.batch_update_builder) ≡ some l
        → E.peek_removed b.batch_update_builder ≡ some empty
        → empty < l
        → ((c : InputBatch E)
            → Sliding (l - 1) c
            → length (E.removed c.batch_update_builder) < length (E.removed b.batch_update_builder)
            → Returns (Settled c) (fill_holes fuel (l - 1) c))
        → Returns (Settled b) (move_request l empty b >>= λ c. fill_holes fuel (l - 1) c)
    slide l empty e peeked lt ih =
        let (bound, free, gone) = find_last-found last l (E.removed b.batch_update_builder) e in
        let (hole, least) = laws.peek_some b.batch_update_builder empty peeked in
        let (id, stands) = standing last l b s bound free in
        Returns-bind (Moved l empty id b) (Settled b) (move_request l empty b)
          (λ c. fill_holes fuel (l - 1) c)
          (move_request-Moved table l empty b s.valid id stands
            (s.holes empty (omega (arith, lt, bound)) hole))
          (λ c m.
            Returns-map (λ d t. Settled-Moved l empty id b c d m t) (fill_holes fuel (l - 1) c)
              (ih c (Sliding-next laws last l empty id b c s bound gone peeked lt m)
                (shorter l empty id c hole m)))
      where
        shorter :
            (l empty id : ℕ) (c : InputBatch E)
            → elem empty (E.removed b.batch_update_builder) ≡ true
            → Moved l empty id b c
            → length (E.removed c.batch_update_builder) < length (E.removed b.batch_update_builder)
        shorter l empty id c hole m =
            rw (m.builder, laws.noted l empty false (E.pop_removed b.batch_update_builder).1)
              (laws.ends.shorter b.batch_update_builder
                (elem-length empty (E.removed b.batch_update_builder) hole))

  pub fill_holes-Settled :
      (fuel last : ℕ) (b : InputBatch E)
      → Sliding last b
      → length (E.removed b.batch_update_builder) < fuel
      → Returns (Settled b) (fill_holes fuel last b)
  unfolding fill_holes
  fill_holes-Settled zero last b s h = omega (arith, h)
  fill_holes-Settled (suc fuel) last b s h = elim (List-cases (E.removed b.batch_update_builder)) [
    | inl e ↦ rw (e, fill_holes) (done last b s e)
    | inr (r, rs, e) ↦ elim (Option-cases (E.peek_removed b.batch_update_builder)) [
      | inl p ↦ ground (arith, laws.peek_none b.batch_update_builder p, e)
      | inr (empty, p) ↦ elim (Option-cases (find_last last (r ∷ rs))) [
        | inl f ↦ rw (e, p, f, fill_holes) (nothing_left last b s (rw e f))
        | inr (l, f) ↦ elim (Bool-cases (leb l empty)) [
          | inl g ↦
              rw (e, p, f, g, fill_holes) (in_order last l empty b s (rw e f) p (leb→le l empty g))
          | inr g ↦
              rw (e, p, f, g, fill_holes)
                (slide fuel last b s l empty (rw e f) p (ground (arith, g))
                  (λ c t lt. fill_holes-Settled fuel (l - 1) c t (omega (arith, lt, h))))
        ]
      ]
    ]
  ]
