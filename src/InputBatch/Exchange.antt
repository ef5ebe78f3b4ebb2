-- ===== src/InputBatch/Exchange.antt =====
-- vllm_ascend/worker/npu_input_batch.py, InputBatch.swap_states as the identity on the map from request
-- ids to rows.
use vllm_ascend_origin.Prelude.Arrays.{occupied, here, set_at-occupied}
use vllm_ascend_origin.Prelude.Arrays.{set_at, Written, get_at-eq-ok, set_at-Written}
use vllm_ascend_origin.Prelude.{
  Bool, ℕ, refl, ◌+◌, ◌<◌, ◌≡◌, ◌≢◌, sym, ◌∙◌, true, false, inl, inr, Option, none, some, List,
  arith, ◌==◌, Option-cases, length, get_elem?, get_elem?-lt, get_elem?-some, lookup, insert,
  lookup-insert, insert-UniqueKeys, length-insert_old,
}
use vllm_ascend_origin.Prelude.Result.{ok, Returns, Returns-bind, Returns-both, Returns-map}
use vllm_ascend_origin.InputBatch.State.{Ext, InputBatch, swap}
use vllm_ascend_origin.InputBatch.View.{
  transpose, mask_row_at, row_at, TableLaws, SwapLaws, view, view_eq, view_eq_none, IsIndexed,
}
use vllm_ascend_origin.InputBatch.Moves.{
  swap_views, swap_at, swap_indices, swap_states, swap_arrays, swap_maps,
}

pub record Exchanges {A : Type 0} (i j : ℕ) (xs ys : List A) : Type 0 where
  pub read : (k : ℕ) → get_elem? ys k ≡ get_elem? xs (transpose i j k)
  pub size : length ys ≡ length xs

swap_at-Exchanges :
    {A : Type 0} (xs : List A) (i j : ℕ)
    → i < length xs
    → j < length xs
    → Returns (Exchanges i j xs) (swap_at xs i j)
unfolding swap_at
swap_at-Exchanges {A} xs i j p q =
    let (x, e) = get_elem?-some xs i p in
    let (y, f) = get_elem?-some xs j q in
    rw (get_at-eq-ok xs i e, get_at-eq-ok xs j f)
      (Returns-bind (Written xs i y) (Exchanges i j xs) (set_at xs i y) (λ ys. set_at ys j x)
        (set_at-Written xs i y p)
        (λ ys v.
          Returns-map
            (λ zs w. record {
              read = λ k. ground (arith, w.read k, v.read k, e, f);
              size = omega (arith, w.size, v.size);
            })
            (set_at ys j x) (set_at-Written ys j x (omega (arith, q, v.size)))))

swap_at-occupied :
    (xs : List (Option ℕ)) (i j a b : ℕ)
    → get_elem? xs i ≡ some (some a)
    → get_elem? xs j ≡ some (some b)
    → Returns (λ ys. occupied ys ≡ occupied xs) (swap_at xs i j)
unfolding swap_at
swap_at-occupied xs i j a b e f =
    let count : List (Option ℕ) → Type 0 =
      λ ys. occupied ys + here {A = ℕ} (some a) ≡ occupied xs + here {A = ℕ} (some b) in
    rw (get_at-eq-ok xs i e, get_at-eq-ok xs j f)
      (Returns-bind (λ ys. Written xs i (some b) ys × count ys) (λ ys. occupied ys ≡ occupied xs)
        (set_at xs i (some b)) (λ ys. set_at ys j (some a))
        (Returns-both (Written xs i (some b)) count (set_at xs i (some b))
          (set_at-Written xs i (some b) (get_elem?-lt xs i e))
          (set_at-occupied xs i (some a) (some b) e))
        (λ ys p.
          Returns-map (λ zs c. omega (arith, c, p.1)) (set_at ys j (some a))
            (set_at-occupied ys j (some b) (some a) (ground (arith, p.0.read j, f)))))

transpose_twice : (i j k : ℕ) → transpose i j (transpose i j k) ≡ k
transpose_twice i j k = ground arith

swap-transpose : {A : Type 0} (f : ℕ → A) (i j k : ℕ) → swap f i j k ≡ f (transpose i j k)
unfolding swap
swap-transpose f i j k = ground arith

mask_row-swap_views :
    (o : Option (ℕ → ℕ → Bool)) (i j k : ℕ)
    → i ≢ j
    → mask_row_at o i ≡ mask_row_at o j
    → mask_row_at (elim o [ none ↦ none | some mask ↦ some (swap_views mask i j) ]) k
      ≡ mask_row_at o (transpose i j k)
unfolding swap_views
mask_row-swap_views none i j k ne shared = refl
mask_row-swap_views (some mask) i j k ne shared = ground (arith, shared, ne)

module _ {E : Ext} (table : TableLaws E) (dicts : SwapLaws E) (i j id1 id2 : ℕ) (b : InputBatch E)
    (ne : i ≢ j) (v : IsIndexed b)
    (shared : mask_row_at b.allowed_token_ids_mask i ≡ mask_row_at b.allowed_token_ids_mask j)
    (first : get_elem? b.req_ids i ≡ some (some id1))
    (second : get_elem? b.req_ids j ≡ some (some id2)) where
  distinct : (id1 == id2) ≡ false
  distinct = ground (arith, v.owned id1 i first, v.owned id2 j second, ne)

  swap_indices-eq :
      swap_indices (some id1) (some id2) b.req_id_to_index
      ≡ ok (insert id2 i (insert id1 j b.req_id_to_index))
  unfolding swap_indices
  swap_indices-eq = rw (v.owned id1 i first, v.owned id2 j second)

  lookup-indices :
      (q : ℕ)
      → lookup q (insert id2 i (insert id1 j b.req_id_to_index))
        ≡ (elim (lookup q b.req_id_to_index) [ none ↦ none | some k ↦ some (transpose i j k) ])
  lookup-indices q =
      let outer = lookup-insert id2 q i (insert id1 j b.req_id_to_index) in
      let inner = lookup-insert id1 q j b.req_id_to_index in
      let owner1 = v.owned id1 i first in
      let owner2 = v.owned id2 j second in
      elim (Option-cases (lookup q b.req_id_to_index)) [
        | inl n ↦ rw n (ground (arith, outer, inner, n, owner1, owner2))
        | inr (k, n) ↦
            let stands = v.indexed q k n in
            rw n (ground (arith, outer, inner, n, owner1, owner2, stands, first, second))
      ]

  -- The state that swap_states ends in.
  abbrev exchanged : List (Option ℕ) → List (Option (List ℕ)) → InputBatch E
  exchanged ids outputs = swap_maps i j (
      swap_arrays i j (record b {
        batch_update_builder = E.moved i j true b.batch_update_builder;
        req_ids = ids;
        req_output_token_ids = outputs;
        req_id_to_index = insert id2 i (insert id1 j b.req_id_to_index);
      }))

  module _ (ids : List (Option ℕ)) (outputs : List (Option (List ℕ)))
      (x : Exchanges i j b.req_ids ids) (count : occupied ids ≡ occupied b.req_ids)
      (o : Exchanges i j b.req_output_token_ids outputs) where
    exchanged-indexed :
        (q k : ℕ)
        → lookup q (insert id2 i (insert id1 j b.req_id_to_index)) ≡ some k
        → get_elem? ids k ≡ some (some q)
    exchanged-indexed q k h = elim (Option-cases (lookup q b.req_id_to_index)) [
      | inl n ↦ cc (h, rw n at (lookup-indices q))
      | inr (m, n) ↦
          let there : some (transpose i j m) ≡ some k = rw n at (sym (lookup-indices q) ∙ h) in
          let back : m ≡ transpose i j k = ground (arith, transpose_twice i j m, there) in
          x.read k ∙ rw (sym back) (v.indexed q m n)
    ]

    exchanged-owned :
        (q k : ℕ)
        → get_elem? ids k ≡ some (some q)
        → lookup q (insert id2 i (insert id1 j b.req_id_to_index)) ≡ some k
    exchanged-owned q k h =
        let before : lookup q b.req_id_to_index ≡ some (transpose i j k) =
          v.owned q (transpose i j k) (sym (x.read k) ∙ h) in
        lookup-indices q ∙ rw (before, transpose_twice i j k)

    exchanged-length :
        length (insert id2 i (insert id1 j b.req_id_to_index)) ≡ length b.req_id_to_index
    exchanged-length =
        let inner : lookup id2 (insert id1 j b.req_id_to_index) ≡ some j =
          ground
            (arith, lookup-insert id1 id2 j b.req_id_to_index, distinct, v.owned id2 j second) in
        length-insert_old id2 i j (insert id1 j b.req_id_to_index) inner
        ∙ length-insert_old id1 j i b.req_id_to_index (v.owned id1 i first)

    exchanged-IsIndexed : IsIndexed (exchanged ids outputs)
    unfolding swap_maps swap_arrays
    exchanged-IsIndexed = record {
      unique =
          insert-UniqueKeys id2 i (insert id1 j b.req_id_to_index)
            (insert-UniqueKeys id1 j b.req_id_to_index v.unique);
      indexed = exchanged-indexed;
      owned = exchanged-owned;
      outputs = omega (arith, x.size, o.size, v.outputs);
      counted = count ∙ v.counted ∙ sym exchanged-length;
      unique_generators = dicts.unique i j b.generators v.unique_generators;
      unique_bad_words = dicts.unique i j b.bad_words_token_ids v.unique_bad_words;
      bare = λ k h.
          let before = v.bare (transpose i j k) (sym (x.read k) ∙ h) in
          (
            dicts.swapped i j k b.generators v.unique_generators ∙ before.0,
            dicts.swapped i j k b.bad_words_token_ids v.unique_bad_words ∙ before.1,
          );
    }

    exchanged-row : (k : ℕ) → row_at (exchanged ids outputs) k ≡ row_at b (transpose i j k)
    unfolding swap_maps swap_arrays
    exchanged-row k =
        rw
          (
            dicts.swapped i j k b.generators v.unique_generators,
            dicts.swapped i j k b.bad_words_token_ids v.unique_bad_words,
            table.swapped i j k b.block_table,
            mask_row-swap_views b.allowed_token_ids_mask i j k ne shared,
          )
          (simp (swap-transpose))

    exchanged-view : (q : ℕ) → view (exchanged ids outputs) q ≡ view b q
    unfolding swap_maps swap_arrays
    exchanged-view q = elim (Option-cases (lookup q b.req_id_to_index)) [
      | inl n ↦ view_eq_none b (exchanged ids outputs) q n (found n)
      | inr (k, n) ↦
          view_eq b (exchanged ids outputs) q k (transpose i j k) n (moved k n) (back k) (output k)
    ]
      where
        found :
            lookup q b.req_id_to_index ≡ none
            → lookup q (exchanged ids outputs).req_id_to_index ≡ none
        found n = lookup-indices q ∙ rw n

        moved :
            (k : ℕ)
            → lookup q b.req_id_to_index ≡ some k
            → lookup q (exchanged ids outputs).req_id_to_index ≡ some (transpose i j k)
        moved k n = lookup-indices q ∙ rw n

        back : (k : ℕ) → row_at (exchanged ids outputs) (transpose i j k) ≡ row_at b k
        back k = exchanged-row (transpose i j k) ∙ rw (transpose_twice i j k)

        output : (k : ℕ) → get_elem? outputs (transpose i j k) ≡ get_elem? b.req_output_token_ids k
        output k = o.read (transpose i j k) ∙ rw (transpose_twice i j k)

-- Let the block table and swap_dict_values exchange what they hold of the two indices. Swapping the
-- rows of two different requests returns and keeps the index map in agreement. If the two have the
-- same row of the mask of allowed tokens, or there is no mask, it leaves every request with the row
-- (blocks, generator, bad words and mask included) and the output tokens that it had before.
pub swap_states-view :
    {E : Ext} (table : TableLaws E) (dicts : SwapLaws E) (i j id1 id2 : ℕ) (b : InputBatch E)
    → i ≢ j
    → IsIndexed b
    → mask_row_at b.allowed_token_ids_mask i ≡ mask_row_at b.allowed_token_ids_mask j
    → get_elem? b.req_ids i ≡ some (some id1)
    → get_elem? b.req_ids j ≡ some (some id2)
    → Returns (λ c. IsIndexed c × ((q : ℕ) → view c q ≡ view b q)) (swap_states i j b)
unfolding swap_states
swap_states-view {E} table dicts i j id1 id2 b ne v shared first second =
    let Goal : InputBatch E → Type 0 = λ c. IsIndexed c × ((q : ℕ) → view c q ≡ view b q) in
    let count : List (Option ℕ) → Type 0 = λ ys. occupied ys ≡ occupied b.req_ids in
    let room_i : i < length b.req_ids = get_elem?-lt b.req_ids i first in
    let room_j : j < length b.req_ids = get_elem?-lt b.req_ids j second in
    rw
      (
        get_at-eq-ok b.req_ids i first,
        get_at-eq-ok b.req_ids j second,
        swap_indices-eq table dicts i j id1 id2 b ne v shared first second,
      )
      (Returns-bind (λ ids. Exchanges i j b.req_ids ids × count ids) Goal (swap_at b.req_ids i j) _
        (Returns-both (Exchanges i j b.req_ids) count (swap_at b.req_ids i j)
          (swap_at-Exchanges b.req_ids i j room_i room_j)
          (swap_at-occupied b.req_ids i j id1 id2 first second))
        (λ ids x.
          Returns-bind (Exchanges i j b.req_output_token_ids) Goal
            (swap_at b.req_output_token_ids i j) _
            (swap_at-Exchanges b.req_output_token_ids i j (omega (arith, room_i, v.outputs))
              (omega (arith, room_j, v.outputs)))
            (λ outputs o. (
              exchanged-IsIndexed table dicts i j id1 id2 b ne v shared first second ids outputs x.0
                  x.1 o,
              exchanged-view table dicts i j id1 id2 b ne v shared first second ids outputs x.0 x.1
                  o,
            ))))
