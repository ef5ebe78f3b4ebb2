-- ===== src/InputBatch/Dense.antt =====
-- vllm_ascend/worker/npu_input_batch.py, InputBatch.condense as a whole: behind removals the batch is
-- dense again.
use vllm_ascend_origin.Prelude.{
  ℕ, suc, ◌+◌, ◌-◌, ◌<◌, ◌≡◌, ◌≢◌, refl, ◌∙◌, true, false, inl, inr, none, some, arith, ◌==◌, ltb,
  ==→eq, Bool-cases, Option-cases, length, length-take, elem, elem-length, lookup-length, take,
  get_elem?, get_elem?-lt, get_elem?-take, lookup,
}
use vllm_ascend_origin.Prelude.Result.{Returns, Returns-bind, Returns-if}
use vllm_ascend_origin.InputBatch.State.{Ext, InputBatch, num_reqs}
use vllm_ascend_origin.InputBatch.Slots.{Packed, Packed-occupied}
use vllm_ascend_origin.InputBatch.View.{view, view_eq, view_eq_none, IsIndexed, TableLaws}
use vllm_ascend_origin.InputBatch.Condense.{fill_holes, trim, condense}
use vllm_ascend_origin.InputBatch.Packing.{Sliding, Settled, fill_holes-Settled}
use vllm_ascend_origin.InputBatch.Search.{HoleLaws, Once}

-- The batch of an autoregressive model behind removals: the builder knows exactly the holes.
pub record Awaiting {E : Ext} (b : InputBatch E) : Type 0 where
  pub valid : IsIndexed b
  pub online : b.is_pooling_model ≡ false
  pub holes :
      (i : ℕ) → elem i (E.removed b.batch_update_builder) ≡ true → get_elem? b.req_ids i ≡ some none
  pub filled :
      (i : ℕ)
      → elem i (E.removed b.batch_update_builder) ≡ false
      → get_elem? b.req_ids i ≢ some none
  pub size : length (E.removed b.batch_update_builder) + num_reqs b ≡ length b.req_ids
  pub once : Once (E.removed b.batch_update_builder)

-- No hole, as many entries as requests, and the same requests with the same rows.
pub record Condensed {E : Ext} (b c : InputBatch E) : Type 0 where
  pub valid : IsIndexed c
  pub dense : (i : ℕ) → get_elem? c.req_ids i ≢ some none
  pub size : length c.req_ids ≡ num_reqs b
  pub reqs : num_reqs c ≡ num_reqs b
  pub same : (q : ℕ) → view c q ≡ view b q

module _ {E : Ext} (n : ℕ) (c : InputBatch E) (v : IsIndexed c) (p : Packed n c.req_ids) where
  packed-lt : (q i : ℕ) → lookup q c.req_id_to_index ≡ some i → i < n
  packed-lt q i h = elim (Bool-cases (ltb i n)) [
    | inl e ↦ ground (arith, e)
    | inr e ↦ absurd (p.above i q (ground (arith, e)) (v.indexed q i h))
  ]

  trim-Packed : Packed n (take n c.req_ids)
  trim-Packed = record {
    within = omega (arith, length-take n c.req_ids, p.within);
    below = λ i h g. ground (arith, get_elem?-take n i c.req_ids, p.below i, h, g);
    above = λ i x h g. ground (arith, get_elem?-take n i c.req_ids, h, g);
  }

  trim-IsIndexed : IsIndexed (trim n c)
  unfolding trim
  trim-IsIndexed = record {
    unique = v.unique;
    indexed =
        λ q i h. ground (arith, get_elem?-take n i c.req_ids, v.indexed q i h, packed-lt q i h);
    owned = λ q i h. ground (arith, get_elem?-take n i c.req_ids, v.owned q i, h);
    outputs =
        omega (arith, length-take n c.req_ids, length-take n c.req_output_token_ids, v.outputs);
    counted = omega (
      arith,
      Packed-occupied n (take n c.req_ids) trim-Packed,
      Packed-occupied n c.req_ids p,
      v.counted,
    );
    unique_generators = v.unique_generators;
    unique_bad_words = v.unique_bad_words;
    bare = λ i h. v.bare i (ground (arith, get_elem?-take n i c.req_ids, h));
  }

  trim-view : (q : ℕ) → view (trim n c) q ≡ view c q
  unfolding trim
  trim-view q = elim (Option-cases (lookup q c.req_id_to_index)) [
    | inl e ↦ view_eq_none c (trim n c) q e e
    | inr (i, e) ↦
        view_eq c (trim n c) q i i e e refl
          (ground (arith, get_elem?-take n i c.req_output_token_ids, packed-lt q i e))
  ]

trim-Condensed : {E : Ext} (b c : InputBatch E) → Settled b c → Condensed b (trim (num_reqs b) c)
unfolding trim num_reqs
trim-Condensed b c s =
    let n : ℕ = length b.req_id_to_index in
    record {
      valid = trim-IsIndexed n c s.valid s.packed;
      dense = λ i g. ground (arith, get_elem?-take n i c.req_ids, s.packed.below i, g);
      size = omega (arith, length-take n c.req_ids, s.packed.within);
      reqs = s.reqs;
      same = λ q. trim-view n c s.valid s.packed q ∙ s.same q;
    }

module _ {E : Ext} (table : TableLaws E) (laws : HoleLaws E) (b : InputBatch E)
    (w : Awaiting b) where
  Awaiting-Sliding : (n : ℕ) → suc n ≡ length b.req_ids → Sliding n b
  Awaiting-Sliding n e = record {
    valid = w.valid;
    holes = λ i h. w.holes i;
    filled = λ i h. w.filled i;
    above = λ i id h g. omega (arith, h, e, get_elem?-lt b.req_ids i g);
    inside = omega (arith, e);
    once = w.once;
  }

  full-Condensed : length (E.removed b.batch_update_builder) ≡ 0 → Condensed b b
  full-Condensed e = record {
    valid = w.valid;
    dense = λ i. w.filled i (ground (arith, elem-length i (E.removed b.batch_update_builder), e));
    size = omega (arith, w.size, e);
    reqs = refl;
    same = λ q. refl;
  }

  empty-Condensed : num_reqs b ≡ 0 → Condensed b (trim 0 b)
  unfolding num_reqs
  empty-Condensed e = rw e at (
      trim-Condensed b b (record {
        valid = w.valid;
        packed = rw e (record {
          within = omega arith;
          below = λ i h. absurd (omega (arith, h));
          above = λ i id h g.
              omega (arith, e, lookup-length id b.req_id_to_index (w.valid.owned id i g));
        });
        reqs = refl;
        same = λ q. refl;
      }))

  -- Behind any removals, condense returns, and its result is dense: one entry for each request and no
  -- hole, with the index map in agreement; and every request has the row (blocks, generator, bad words
  -- and mask included) and the output tokens that it had before. The block table is taken to move a row
  -- and the builder to hand out the least removed index.
  pub condense-Condensed : Returns (Condensed b) (condense b)
  unfolding condense
  condense-Condensed =
      let removed : ℕ = length (E.removed b.batch_update_builder) in
      Returns-if (Condensed b) b.is_pooling_model _ _ (λ h. ground (arith, h, w.online))
        (λ _.
          Returns-if (Condensed b) (removed == 0) _ _ (λ h. full-Condensed (==→eq removed 0 h))
            (λ h.
              Returns-if (Condensed b) (num_reqs b == 0) _ _
                (λ k. empty-Condensed (==→eq (num_reqs b) 0 k))
                (λ k.
                  Returns-bind (Settled b) (Condensed b)
                    (fill_holes (suc removed) (num_reqs b + removed - 1) b) _
                    (fill_holes-Settled table laws (suc removed) (num_reqs b + removed - 1) b
                      (Awaiting-Sliding (num_reqs b + removed - 1) (ground (arith, w.size, h)))
                      (omega arith))
                    (λ c s. trim-Condensed b c s))))
