-- ===== src/InputBatch/Slide.antt =====
-- vllm_ascend/worker/npu_input_batch.py, InputBatch.condense: one request slides into a hole.
use vllm_ascend_origin.Prelude.Arrays.{occupied, here}
use vllm_ascend_origin.Prelude.Arrays.{get_at-eq-ok}
use vllm_ascend_origin.Prelude.{
  ℕ, ◌<◌, ◌≡◌, ◌≢◌, refl, ◌∙◌, false, inl, inr, Option, none, some, List, arith, ◌==◌,
  if◌then◌else◌, ==_self, Bool-cases, Option-cases, length, get_elem?, get_elem?-lt, get_elem?-none,
  lookup, insert, lookup-insert, UniqueKeys, insert-UniqueKeys, length-insert_old,
}
use vllm_ascend_origin.Prelude.Result.{Returns, Returns-bind, Returns-both}
use vllm_ascend_origin.InputBatch.State.{Ext, InputBatch}
use vllm_ascend_origin.InputBatch.View.{row_at, TableLaws, view, view_eq, view_eq_none, IsIndexed}
use vllm_ascend_origin.InputBatch.Condense.{move_key, move_entry, move_arrays, move_request}
use vllm_ascend_origin.InputBatch.Rows.{
  lookup-move_key, move_key-UniqueKeys, prefix-copy_prefix, mask_row-copy,
}
use vllm_ascend_origin.InputBatch.Entries.{Slid, move_entry-Slid, move_entry-occupied}

module _ {E : Ext} where
  -- The request `id` has moved from `last` to `empty`.
  pub record Moved (last empty id : ℕ) (b c : InputBatch E) : Type 0 where
    pub ids : Slid last empty (some id) b.req_ids c.req_ids
    pub builder :
        c.batch_update_builder ≡ E.moved last empty false (E.pop_removed b.batch_update_builder).1
    pub valid : IsIndexed c
    pub reqs : length c.req_id_to_index ≡ length b.req_id_to_index
    pub same : (q : ℕ) → view c q ≡ view b q

  -- Behind the writes to the lists and the index map.
  record Placed (last empty id : ℕ) (b c : InputBatch E) : Type 0 where
    ids : Slid last empty (some id) b.req_ids c.req_ids
    count : occupied c.req_ids ≡ occupied b.req_ids
    outputs :
        (o : Option (List ℕ)) × (get_elem? b.req_output_token_ids last ≡ some o)
        × Slid last empty o b.req_output_token_ids c.req_output_token_ids
    index : c.req_id_to_index ≡ insert id empty b.req_id_to_index
    generators : c.generators ≡ move_key last empty b.generators
    bad_words : c.bad_words_token_ids ≡ move_key last empty b.bad_words_token_ids

  module _ (last empty id : ℕ) (b c : InputBatch E) (v : IsIndexed b)
      (at_last : get_elem? b.req_ids last ≡ some (some id))
      (hole : get_elem? b.req_ids empty ≡ some none) (p : Placed last empty id b c) where
    owner : lookup id b.req_id_to_index ≡ some last
    owner = v.owned id last at_last

    lookup-placed :
        (q : ℕ)
        → lookup q c.req_id_to_index ≡ (if id == q then some empty else lookup q b.req_id_to_index)
    lookup-placed q = rw p.index (lookup-insert id q empty b.req_id_to_index)

    indexed-placed :
        (q i : ℕ) → lookup q c.req_id_to_index ≡ some i → get_elem? c.req_ids i ≡ some (some q)
    indexed-placed q i h =
        ground (arith, lookup-placed q, v.indexed q i, p.ids.read i, at_last, hole)

    owned-placed :
        (q i : ℕ) → get_elem? c.req_ids i ≡ some (some q) → lookup q c.req_id_to_index ≡ some i
    owned-placed q i h = ground (arith, lookup-placed q, v.owned q i, p.ids.read i, owner)

    bare-placed :
        {V : Type 0} (k : ℕ)
        → get_elem? c.req_ids k ≡ some none
        → (d : List (ℕ × V)) → UniqueKeys d
        → ((i : ℕ) → get_elem? b.req_ids i ≡ some none → lookup i d ≡ none)
        → (e : List (ℕ × V)) → e ≡ move_key last empty d
        → lookup k e ≡ none
    bare-placed k h d u bare e same = rw same (
        ground (
          arith,
          lookup-move_key last empty d k (ground (arith, at_last, hole)) u (bare empty hole),
          p.ids.read k,
          bare k,
          h,
        ))

    Placed-IsIndexed : IsIndexed c
    Placed-IsIndexed = record {
      unique = rw p.index (insert-UniqueKeys id empty b.req_id_to_index v.unique);
      indexed = indexed-placed;
      owned = owned-placed;
      outputs = omega (arith, p.ids.size, p.outputs.2.size, v.outputs);
      counted = rw p.index (
          omega
            (arith, p.count, v.counted, length-insert_old id empty last b.req_id_to_index owner));
      unique_generators =
          rw p.generators (move_key-UniqueKeys last empty b.generators v.unique_generators);
      unique_bad_words =
          rw p.bad_words (move_key-UniqueKeys last empty b.bad_words_token_ids v.unique_bad_words);
      bare = λ k h. (
        bare-placed k h b.generators v.unique_generators (λ i g. (v.bare i g).0) _ p.generators,
        bare-placed k h b.bad_words_token_ids v.unique_bad_words (λ i g. (v.bare i g).1) _
            p.bad_words,
      );
    }

    Placed-view :
        row_at c empty ≡ row_at b last
        → ((k : ℕ) → (empty == k) ≡ false → (last == k) ≡ false → row_at c k ≡ row_at b k)
        → (q : ℕ) → view c q ≡ view b q
    Placed-view here other q =
        let distinct : last ≢ empty = ground (arith, at_last, hole) in
        elim (Bool-cases (id == q)) [
          | inl e ↦
              let found : lookup q c.req_id_to_index ≡ some empty =
                ground (arith, lookup-placed q) in
              let before : lookup q b.req_id_to_index ≡ some last = ground (arith, owner) in
              let output : get_elem? c.req_output_token_ids empty
                  ≡ get_elem? b.req_output_token_ids last =
                ground (arith, p.outputs.2.read empty, p.outputs.1) in
              view_eq b c q last empty before found here output
          | inr e ↦
              let found : lookup q c.req_id_to_index ≡ lookup q b.req_id_to_index =
                ground (arith, lookup-placed q) in
              elim (Option-cases (lookup q b.req_id_to_index)) [
                | inl n ↦ view_eq_none b c q n (found ∙ n)
                | inr (k, n) ↦
                    let stands : get_elem? b.req_ids k ≡ some (some q) = v.indexed q k n in
                    let free : (empty == k) ≡ false = ground (arith, hole, stands) in
                    let stays : (last == k) ≡ false = ground (arith, at_last, stands, e) in
                    let output : get_elem? c.req_output_token_ids k
                        ≡ get_elem? b.req_output_token_ids k =
                      ground (arith, p.outputs.2.read k) in
                    view_eq b c q k k n (found ∙ n) (other k free stays) output
              ]
        ]

module _ {E : Ext} (table : TableLaws E) (last empty : ℕ) (b : InputBatch E) (v : IsIndexed b)
    (id : ℕ) (at_last : get_elem? b.req_ids last ≡ some (some id))
    (hole : get_elem? b.req_ids empty ≡ some none) where
  apart : last ≢ empty
  apart = ground (arith, at_last, hole)

  not_last : (last == empty) ≡ false
  not_last = ground (arith, apart)

  move_arrays-row_self : row_at (move_arrays last empty b) empty ≡ row_at b last
  unfolding move_arrays
  move_arrays-row_self = rw (
    lookup-move_key last empty b.generators empty apart v.unique_generators (v.bare empty hole).0,
    lookup-move_key last empty b.bad_words_token_ids empty apart v.unique_bad_words
        (v.bare empty hole).1,
    table.moved last empty empty b.block_table,
    mask_row-copy b.allowed_token_ids_mask last empty empty,
    ==_self empty,
    not_last,
    prefix-copy_prefix (b.num_tokens last) (b.token_ids_cpu last) (b.token_ids_cpu empty),
  )

  move_arrays-row :
      (k : ℕ)
      → (empty == k) ≡ false
      → (last == k) ≡ false
      → row_at (move_arrays last empty b) k ≡ row_at b k
  unfolding move_arrays
  move_arrays-row k h g = rw (
    lookup-move_key last empty b.generators k apart v.unique_generators (v.bare empty hole).0,
    lookup-move_key last empty b.bad_words_token_ids k apart v.unique_bad_words
        (v.bare empty hole).1,
    table.moved last empty k b.block_table,
    mask_row-copy b.allowed_token_ids_mask last empty k,
    h,
    g,
  )

  abbrev target : List (Option ℕ) → List (Option (List ℕ)) → InputBatch E
  target ids outputs = move_arrays last empty (record b {
    batch_update_builder = E.moved last empty false (E.pop_removed b.batch_update_builder).1;
    req_ids = ids;
    req_output_token_ids = outputs;
    req_id_to_index = insert id empty b.req_id_to_index;
  })

  target-Moved :
      (ids : List (Option ℕ)) (outputs : List (Option (List ℕ)))
      → Placed last empty id b (target ids outputs)
      → Moved last empty id b (target ids outputs)
  unfolding move_arrays
  target-Moved ids outputs p = record {
    ids = p.ids;
    builder = refl;
    valid = Placed-IsIndexed last empty id b (target ids outputs) v at_last hole p;
    reqs = length-insert_old id empty last b.req_id_to_index (v.owned id last at_last);
    same =
        Placed-view last empty id b (target ids outputs) v at_last hole p move_arrays-row_self
          move_arrays-row;
  }

  Placed-target :
      (ids : List (Option ℕ)) (outputs : List (Option (List ℕ))) (o : Option (List ℕ))
      → Slid last empty (some id) b.req_ids ids
      → occupied ids ≡ occupied b.req_ids
      → get_elem? b.req_output_token_ids last ≡ some o
      → Slid last empty o b.req_output_token_ids outputs
      → Placed last empty id b (target ids outputs)
  unfolding move_arrays
  Placed-target ids outputs o s e output t = record {
    ids = s;
    count = e;
    outputs = (o, output, t);
    index = refl;
    generators = refl;
    bad_words = refl;
  }

  pub move_request-Moved : Returns (Moved last empty id b) (move_request last empty b)
  unfolding move_request
  move_request-Moved =
      let placed : List (Option ℕ) → Type 0 = λ ids. occupied ids ≡ occupied b.req_ids in
      let id_room : empty < length b.req_ids = get_elem?-lt b.req_ids empty hole in
      elim (Option-cases (get_elem? b.req_output_token_ids last)) [
        | inl n ↦ absurd (
            omega (
              arith,
              get_elem?-none b.req_output_token_ids last n,
              v.outputs,
              get_elem?-lt b.req_ids last at_last,
            ))
        | inr (o, output) ↦ rw (get_at-eq-ok b.req_ids last at_last) (
            Returns-bind (λ ids. Slid last empty (some id) b.req_ids ids × placed ids)
              (Moved last empty id b) (move_entry last empty b.req_ids) _
              (Returns-both (Slid last empty (some id) b.req_ids) placed
                (move_entry last empty b.req_ids)
                (move_entry-Slid last empty (some id) b.req_ids at_last id_room)
                (move_entry-occupied last empty id b.req_ids at_last hole))
              (λ ids s.
                Returns-bind (Slid last empty o b.req_output_token_ids) (Moved last empty id b)
                  (move_entry last empty b.req_output_token_ids) _
                  (move_entry-Slid last empty o b.req_output_token_ids output
                    (omega (arith, id_room, v.outputs)))
                  (λ outputs t.
                    target-Moved ids outputs (Placed-target ids outputs o s.0 s.1 output t))))
      ]
