-- ===== src/InputBatch/Cleared.antt =====
-- vllm_ascend/worker/npu_input_batch.py, InputBatch.remove_request: what each of its calls does to the
-- slot of the request, and what it leaves alone.
use mathlib.Core.Path.{subst}
use vllm_ascend_origin.Prelude.Arrays.{occupied, here, set_at-occupied}
use vllm_ascend_origin.Prelude.Arrays.{set_at, Written, set_at-Written}
use vllm_ascend_origin.Prelude.{
  ℕ, ◌+◌, ◌<◌, ◌≡◌, refl, sym, ap, ◌∙◌, false, inl, inr, Option, none, some, List, arith, ◌==◌,
  if◌then◌else◌, length, get_elem?, get_elem?-lt, update, lookup, erase, insert, discard,
}
use vllm_ascend_origin.Prelude.Result.{
  ok, or_fail, key_error, Ensures, Ensures-bind, Ensures-any, Ensures-if, Result-cases,
  Returns-Ensures, Returns-both,
}
use vllm_ascend_origin.InputBatch.State.{Ext, InputBatch}
use vllm_ascend_origin.InputBatch.View.{row_at, mask_row_at}
use vllm_ascend_origin.Prelude.{Bool, count, UniqueKeys, erase-UniqueKeys, lookup-erase_other}
use vllm_ascend_origin.InputBatch.Moves.{forget, drop_lora, remove_lora, note_removed, clear_slot}

-- `removed_append` adds an index to the list.
abbrev pub Appends : Ext → Type 0
Appends E =
    (i : ℕ) (u u' : E.Builder)
    → E.removed_append i u ≡ ok u'
    → ((k : ℕ) → count k (E.removed u') ≡ count k (E.removed u) + (if i == k then 1 else 0))
      × (length (E.removed u') ≡ length (E.removed u) + 1)

-- What the later calls of remove_request leave alone: all that the view and the invariant read, but
-- for the LoRA id of the row.
pub record Kept {E : Ext} (i : ℕ) (b c : InputBatch E) : Type 0 where
  pub ids : c.req_ids ≡ b.req_ids
  pub outputs : c.req_output_token_ids ≡ b.req_output_token_ids
  pub index : c.req_id_to_index ≡ b.req_id_to_index
  pub builder : c.batch_update_builder ≡ b.batch_update_builder
  pub online : c.is_pooling_model ≡ b.is_pooling_model
  pub row : (k : ℕ) → (i == k) ≡ false → row_at c k ≡ row_at b k
  pub generators : UniqueKeys b.generators → UniqueKeys c.generators
  pub bad_words : UniqueKeys b.bad_words_token_ids → UniqueKeys c.bad_words_token_ids

mask_row-update :
    (o : Option (ℕ → ℕ → Bool)) (i k : ℕ)
    → (i == k) ≡ false
    → mask_row_at (elim o [ none ↦ none | some mask ↦ some (update mask i (λ _. false)) ]) k
      ≡ mask_row_at o k
mask_row-update none i k h = refl
mask_row-update (some mask) i k h = rw h

module _ {E : Ext} where
  pub Kept-lora : (id i : ℕ) (b : InputBatch E) → Ensures (Kept i b) (remove_lora id i b)
  unfolding remove_lora drop_lora
  Kept-lora id i b =
      let lora_id : ℕ = b.request_lora_mapping i in
      Ensures-if (Kept i b) (lora_id == 0) _ _
        (λ _. record {
          ids = refl;
          outputs = refl;
          index = refl;
          builder = refl;
          online = refl;
          row = λ k h. refl;
          generators = λ u. u;
          bad_words = λ u. u;
        })
        (λ _.
          Ensures-bind (λ _. Unit {0}) (Kept i b)
            (or_fail (lookup lora_id b.lora_id_to_request_ids) key_error) _ (Ensures-any _)
            (λ ids _.
              Ensures-bind (Kept i b) (Kept i b)
                (if length (discard id ids) == 0
                  then drop_lora lora_id b
                  else ok (record b {
                    lora_id_to_request_ids =
                        insert lora_id (discard id ids) b.lora_id_to_request_ids;
                  }))
                (λ b. ok (record b { request_lora_mapping = update b.request_lora_mapping i 0 }))
                (Ensures-if (Kept i b) (length (discard id ids) == 0) _ _
                  (λ _.
                    Ensures-bind (λ _. Unit {0}) (Kept i b)
                      (or_fail (lookup lora_id b.lora_id_to_lora_request) key_error) _
                      (Ensures-any _)
                      (λ _ _. record {
                        ids = refl;
                        outputs = refl;
                        index = refl;
                        builder = refl;
                        online = refl;
                        row = λ k h. refl;
                        generators = λ u. u;
                        bad_words = λ u. u;
                      }))
                  (λ _. record {
                    ids = refl;
                    outputs = refl;
                    index = refl;
                    builder = refl;
                    online = refl;
                    row = λ k h. refl;
                    generators = λ u. u;
                    bad_words = λ u. u;
                  }))
                (λ c k. record {
                  ids = k.ids;
                  outputs = k.outputs;
                  index = k.index;
                  builder = k.builder;
                  online = k.online;
                  row = λ j h. rw h (k.row j h);
                  generators = k.generators;
                  bad_words = k.bad_words;
                })))

  pub Kept-forget : (id i : ℕ) (b : InputBatch E) → Kept i b (forget id i b)
  unfolding forget
  Kept-forget id i b = record {
    ids = refl;
    outputs = refl;
    index = refl;
    builder = refl;
    online = refl;
    row = λ k h. rw (
      lookup-erase_other i k b.generators h,
      lookup-erase_other i k b.bad_words_token_ids h,
      mask_row-update b.allowed_token_ids_mask i k h,
    );
    generators = erase-UniqueKeys i b.generators;
    bad_words = erase-UniqueKeys i b.bad_words_token_ids;
  }

-- The slot `i` of the request `id` is vacated.
pub record Vacated {E : Ext} (id i : ℕ) (b c : InputBatch E) : Type 0 where
  pub ids : Written b.req_ids i none c.req_ids
  pub count : occupied c.req_ids + 1 ≡ occupied b.req_ids
  pub outputs : Written b.req_output_token_ids i none c.req_output_token_ids
  pub index : c.req_id_to_index ≡ erase id b.req_id_to_index
  pub builder : E.removed_append i b.batch_update_builder ≡ ok c.batch_update_builder
  pub online : c.is_pooling_model ≡ b.is_pooling_model
  pub row : (k : ℕ) → (i == k) ≡ false → row_at c k ≡ row_at b k
  pub generators : UniqueKeys b.generators → UniqueKeys c.generators
  pub bad_words : UniqueKeys b.bad_words_token_ids → UniqueKeys c.bad_words_token_ids

module _ {E : Ext} (id i : ℕ) (b : InputBatch E) where
  pub Vacated-Kept : (c d : InputBatch E) → Vacated id i b c → Kept i c d → Vacated id i b d
  Vacated-Kept c d v k = record {
    ids = rw k.ids v.ids;
    count = rw k.ids v.count;
    outputs = rw k.outputs v.outputs;
    index = k.index ∙ v.index;
    builder = rw k.builder v.builder;
    online = k.online ∙ v.online;
    row = λ j h. k.row j h ∙ v.row j h;
    generators = λ u. k.generators (v.generators u);
    bad_words = λ u. k.bad_words (v.bad_words u);
  }

  -- Behind note_removed.
  pub record Noted (c : InputBatch E) : Type 0 where
    ids : c.req_ids ≡ b.req_ids
    outputs : c.req_output_token_ids ≡ b.req_output_token_ids
    index : c.req_id_to_index ≡ erase id b.req_id_to_index
    builder : E.removed_append i b.batch_update_builder ≡ ok c.batch_update_builder
    online : c.is_pooling_model ≡ b.is_pooling_model
    row : (k : ℕ) → row_at c k ≡ row_at b k
    generators : UniqueKeys b.generators → UniqueKeys c.generators
    bad_words : UniqueKeys b.bad_words_token_ids → UniqueKeys c.bad_words_token_ids

  pub note_removed-Noted :
      b.is_pooling_model ≡ false
      → Ensures Noted (note_removed i (record b { req_id_to_index = erase id b.req_id_to_index }))
  unfolding note_removed
  note_removed-Noted h =
      Ensures-if Noted b.is_pooling_model _ _ (λ e. ground (arith, e, h))
        (λ _. elim (Result-cases (E.removed_append i b.batch_update_builder)) [
          | inl (u, e) ↦ rw e (record {
            ids = refl;
            outputs = refl;
            index = refl;
            builder = e;
            online = refl;
            row = λ k. refl;
            generators = λ u. u;
            bad_words = λ u. u;
          })
          | inr (x, e) ↦ rw e tt
        ])

  pub clear_slot-Vacated :
      get_elem? b.req_ids i ≡ some (some id)
      → length b.req_output_token_ids ≡ length b.req_ids
      → (c : InputBatch E) → Noted c
      → Ensures (Vacated id i b) (clear_slot i c)
  unfolding clear_slot
  clear_slot-Vacated at same c n =
      let freed : List (Option ℕ) → Type 0 =
        λ ids. occupied ids + here {A = ℕ} (some id) ≡ occupied c.req_ids + here {A = ℕ} none in
      let stands : get_elem? c.req_ids i ≡ some (some id) = ap (λ xs. get_elem? xs i) n.ids ∙ at in
      let room : i < length c.req_ids = get_elem?-lt c.req_ids i stands in
      let sizes : length c.req_output_token_ids ≡ length c.req_ids =
        ap (λ xs. length xs) n.outputs ∙ same ∙ sym (ap (λ xs. length xs) n.ids) in
      Ensures-bind (λ ids. Written c.req_ids i none ids × freed ids) (Vacated id i b)
        (set_at c.req_ids i none) _
        (Returns-Ensures _ (set_at c.req_ids i none) (
          Returns-both (Written c.req_ids i none) freed (set_at c.req_ids i none)
            (set_at-Written c.req_ids i none room)
            (set_at-occupied c.req_ids i (some id) none stands)))
        (λ ids w.
          Ensures-bind (Written c.req_output_token_ids i none) (Vacated id i b)
            (set_at c.req_output_token_ids i none) _
            (Returns-Ensures _ (set_at c.req_output_token_ids i none)
              (set_at-Written c.req_output_token_ids i none (omega (arith, room, sizes))))
            (λ outputs o. record {
              ids = subst (λ xs. Written xs i none ids) (n.ids) (w.0);
              count = omega (arith, w.1, ap (λ xs. occupied xs) n.ids);
              outputs = subst (λ xs. Written xs i none outputs) (n.outputs) o;
              index = n.index;
              builder = n.builder;
              online = n.online;
              row = λ k h. n.row k;
              generators = n.generators;
              bad_words = n.bad_words;
            }))
