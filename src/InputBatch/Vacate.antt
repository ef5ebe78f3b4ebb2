-- ===== src/InputBatch/Vacate.antt =====
-- vllm_ascend/worker/npu_input_batch.py, InputBatch.remove_request on the map from request ids to rows.
use vllm_ascend_origin.Prelude.{true, ap, ==→eq, ==_self, ◌||◌, count, elem, elem-count}
use vllm_ascend_origin.Prelude.{
  ℕ, ◌≡◌, refl, ◌∙◌, false, inl, inr, Option, none, some, arith, ◌==◌, if◌then◌else◌, Bool-cases,
  Option-cases, get_elem?, lookup, erase, lookup-erase, erase-UniqueKeys, length-erase_old,
}
use vllm_ascend_origin.Prelude.Result.{Ensures, Ensures-bind}
use vllm_ascend_origin.InputBatch.State.{Ext, InputBatch, num_reqs}
use vllm_ascend_origin.InputBatch.View.{view, view_eq, view_eq_none, IsIndexed}
use vllm_ascend_origin.InputBatch.Moves.{
  forget, remove_lora, note_removed, clear_slot, remove_request,
}
use vllm_ascend_origin.InputBatch.Dense.{Awaiting}
use vllm_ascend_origin.InputBatch.Cleared.{
  Appends, Kept, Kept-lora, Kept-forget, Vacated, Vacated-Kept, Noted, note_removed-Noted,
  clear_slot-Vacated,
}

module _ {E : Ext} (appends : Appends E) (id i : ℕ) (b c : InputBatch E) (w : Awaiting b)
    (known : lookup id b.req_id_to_index ≡ some i) (v : Vacated id i b c)
    (freed : (lookup i c.generators ≡ none) × (lookup i c.bad_words_token_ids ≡ none)) where
  stands : get_elem? b.req_ids i ≡ some (some id)
  stands = w.valid.indexed id i known

  lookup-vacated :
      (q : ℕ) → lookup q c.req_id_to_index ≡ (if id == q then none else lookup q b.req_id_to_index)
  lookup-vacated q = rw v.index (lookup-erase id q b.req_id_to_index w.valid.unique)

  Vacated-IsIndexed : IsIndexed c
  Vacated-IsIndexed = record {
    unique = rw v.index (erase-UniqueKeys id b.req_id_to_index w.valid.unique);
    indexed =
        λ q k h. ground (arith, lookup-vacated q, v.ids.read k, w.valid.indexed q k, stands, h);
    owned = λ q k h. ground (arith, lookup-vacated q, v.ids.read k, w.valid.owned q k, h, known);
    outputs = omega (arith, v.ids.size, v.outputs.size, w.valid.outputs);
    counted =
        rw v.index
          (omega (arith, v.count, w.valid.counted, length-erase_old id i b.req_id_to_index known));
    unique_generators = v.generators w.valid.unique_generators;
    unique_bad_words = v.bad_words w.valid.unique_bad_words;
    bare = λ k h. elim (Bool-cases (i == k)) [
      | inl e ↦ rw (==→eq i k e) at freed
      | inr e ↦
          let before = w.valid.bare k (ground (arith, v.ids.read k, h, e)) in
          (
            ap (λ r. r.generator) (v.row k e) ∙ before.0,
            ap (λ r. r.bad_words) (v.row k e) ∙ before.1,
          )
    ];
  }

  vacant : (k : ℕ) → (i == k) ≡ true → count k (E.removed b.batch_update_builder) ≡ 0
  vacant k h = ground (arith, w.holes k, stands, h, elem-count k (E.removed b.batch_update_builder))

  Vacated-Awaiting : Awaiting c
  unfolding num_reqs
  Vacated-Awaiting =
      let (grown, longer) = appends i b.batch_update_builder c.batch_update_builder v.builder in
      let present : (k : ℕ)
          → elem k (E.removed c.batch_update_builder)
            ≡ (i == k || elem k (E.removed b.batch_update_builder)) =
        λ k. ground (
          arith,
          grown k,
          elem-count k (E.removed b.batch_update_builder),
          elem-count k (E.removed c.batch_update_builder),
        ) in
      record {
        valid = Vacated-IsIndexed;
        online = v.online ∙ w.online;
        holes = λ k h. ground (arith, present k, v.ids.read k, w.holes k, h);
        filled = λ k h g. ground (arith, present k, v.ids.read k, w.filled k, h, g);
        once = λ k. ground (arith, grown k, w.once k, vacant k);
        size = rw v.index (
            omega
              (arith, longer, w.size, v.ids.size, length-erase_old id i b.req_id_to_index known));
      }

  Vacated-view : (q : ℕ) → view c q ≡ (if id == q then none else view b q)
  Vacated-view q = elim (Bool-cases (id == q)) [
    | inl e ↦
        let gone : lookup q c.req_id_to_index ≡ none = lookup-vacated q ∙ rw e in rw (e, view, gone)
    | inr e ↦
        let same : lookup q c.req_id_to_index ≡ lookup q b.req_id_to_index =
          lookup-vacated q ∙ rw e in
        rw e (kept q e same)
  ]
    where
      kept :
          (q : ℕ)
          → (id == q) ≡ false
          → lookup q c.req_id_to_index ≡ lookup q b.req_id_to_index
          → view c q ≡ view b q
      kept q e same = elim (Option-cases (lookup q b.req_id_to_index)) [
        | inl n ↦ view_eq_none b c q n (same ∙ n)
        | inr (k, n) ↦
            let other : (i == k) ≡ false = ground (arith, w.valid.indexed q k n, stands, e) in
            view_eq b c q k k n (same ∙ n) (v.row k other) (ground (arith, v.outputs.read k, other))
      ]

-- No generator and no bad words are left at the index.
forget_freed :
    {E : Ext} (id i : ℕ) (b c : InputBatch E)
    → Awaiting b
    → Vacated id i b c
    → (lookup i (forget id i c).generators ≡ none)
      × (lookup i (forget id i c).bad_words_token_ids ≡ none)
unfolding forget
forget_freed id i b c w v = (
  lookup-erase i i c.generators (v.generators w.valid.unique_generators) ∙ rw (==_self i),
  lookup-erase i i c.bad_words_token_ids (v.bad_words w.valid.unique_bad_words) ∙ rw (==_self i),
)

-- Let the builder's list of removed indices grow by what is appended. When remove_request returns,
-- for a known request of an autoregressive batch that awaits condense, the batch still awaits it (the
-- index map agrees, the builder knows exactly the holes), the request is gone, and every other one has
-- its row (blocks, generator, bad words and mask included) and its output tokens.
pub remove_request-view :
    {E : Ext} (appends : Appends E) (id i : ℕ) (b : InputBatch E)
    → Awaiting b
    → lookup id b.req_id_to_index ≡ some i
    → Ensures
        (λ r.
          (r.0 ≡ some i)
          × Awaiting r.1
          × ((q : ℕ) → view r.1 q ≡ (if id == q then none else view b q)))
        (remove_request id b)
unfolding remove_request
remove_request-view {E} appends id i b w known =
    let Goal : Option ℕ × InputBatch E → Type 0 = λ r.
      (r.0 ≡ some i)
      × Awaiting r.1
      × ((q : ℕ) → view r.1 q ≡ (if id == q then none else view b q)) in
    let at : get_elem? b.req_ids i ≡ some (some id) = w.valid.indexed id i known in
    rw (known, remove_request)
      (Ensures-bind (Noted id i b) Goal
        (note_removed i (record b { req_id_to_index = erase id b.req_id_to_index })) _
        (note_removed-Noted id i b w.online)
        (λ b1 n.
          Ensures-bind (Vacated id i b) Goal (clear_slot i b1) _
            (clear_slot-Vacated id i b at w.valid.outputs b1 n)
            (λ b2 v.
              Ensures-bind (Kept i b2) Goal (remove_lora id i b2) _ (Kept-lora id i b2) (λ b3 k.
                let v3 = Vacated-Kept id i b b2 b3 v k in
                let v4 = Vacated-Kept id i b b3 (forget id i b3) v3 (Kept-forget id i b3) in
                (
                  refl,
                  Vacated-Awaiting appends id i b (forget id i b3) w known v4
                      (forget_freed id i b b3 w v3),
                  Vacated-view appends id i b (forget id i b3) w known v4
                      (forget_freed id i b b3 w v3),
                )))))
