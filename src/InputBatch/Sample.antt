-- ===== src/InputBatch/Sample.antt =====
-- A concrete update builder for the tests: a list of indices, of which the least is handed out.
use vllm_ascend_origin.Prelude.{
  ℕ, ◌<◌, ◌≤◌, ◌≡◌, refl, true, false, inl, inr, Option, none, some, List, [], ◌∷◌, arith, ltb,
  ◌==◌, if◌then◌else◌, ap, Option-cases, length, elem, count, elem-count, ◌-◌, update, lookup,
  insert, erase, lookup-erase, lookup-insert, erase-UniqueKeys, insert-UniqueKeys, UniqueKeys,
}
use vllm_ascend_origin.Prelude.Result.{ok}
use vllm_ascend_origin.InputBatch.State.{Ext}
use vllm_ascend_origin.InputBatch.View.{transpose, TableLaws, SwapLaws}
use vllm_ascend_origin.InputBatch.Condense.{BuilderLaws}
use vllm_ascend_origin.InputBatch.Search.{HoleLaws}

abbrev pub min_of : List ℕ → Option ℕ
min_of [] = none
min_of (i ∷ u) = elim (min_of u) [ none ↦ some i | some m ↦ some (if ltb m i then m else i) ]

-- list.remove
abbrev pub drop_one : ℕ → List ℕ → List ℕ
drop_one k [] = []
drop_one k (i ∷ u) = if i == k then u else i ∷ drop_one k u

abbrev pub put : {V : Type 0} → ℕ → Option V → List (ℕ × V) → List (ℕ × V)
put k none d = erase k d
put k (some v) d = insert k v d

abbrev pub without : Option ℕ → List ℕ → List ℕ
without none u = u
without (some m) u = drop_one m u

-- A float is a number of tenths.
abbrev pub simple : Ext
simple = record {
  Float = ℕ;
  minus_one = 0;
  lt_one = λ x. ltb x 10;
  is_zero = λ x. x == 0;
  is_one = λ x. x == 10;
  Generator = ℕ;
  LoraRequest = ℕ;
  lora_int_id = λ l. l;
  PoolingParams = Unit {0};
  requires_token_ids = λ _. false;
  LogprobsTensors = Unit {0};
  Builder = List ℕ;
  removed = λ u. u;
  peek_removed = min_of;
  pop_removed = λ u. (min_of u, without (min_of u) u);
  removed_append = λ i u. ok (i ∷ u);
  added = λ i ps os u. u;
  moved = λ i j s u. u;
  BlockTable = ℕ → List (List ℕ);
  BlockRow = List (List ℕ);
  row_of = λ t i. t i;
  add_row = λ ids i t. update t i ids;
  swap_row = λ i j t k. t (transpose i j k);
  move_row = λ i j t. update t j (t i);
  swap_dict_values = λ i j d. put j (lookup i d) (put i (lookup j d) d);
}

min_of-none : (u : List ℕ) → min_of u ≡ none → u ≡ []
min_of-none [] h = refl
min_of-none (i ∷ u) h = elim (Option-cases (min_of u)) [
  | inl e ↦ cc (rw e at h)
  | inr (m, e) ↦ cc (rw e at h)
]

min_of_least :
    (u : List ℕ) (m : ℕ)
    → min_of u ≡ some m
    → (elem m u ≡ true) × ((k : ℕ) → elem k u ≡ true → m ≤ k)
min_of_least [] m h = cc
min_of_least (i ∷ u) m h = elim (Option-cases (min_of u)) [
  | inl e ↦
      let same : some i ≡ some m = rw e at h in
      (ground (arith, same), λ k g. ground (arith, same, g, ap (λ xs. elem k xs) (min_of-none u e)))
  | inr (l, e) ↦
      let same : some (if ltb l i then l else i) ≡ some m = rw e at h in
      let (p, q) = min_of_least u l e in
      (ground (arith, same, p), λ k g. ground (arith, same, g, q k))
]

drop_one-lt : (k : ℕ) (u : List ℕ) → elem k u ≡ true → length (drop_one k u) < length u
drop_one-lt k [] h = cc
drop_one-lt k (i ∷ u) h = ground (arith, drop_one-lt k u)

count-drop_one :
    (k m : ℕ) (u : List ℕ) → count k (drop_one m u) ≡ (if m == k then count k u - 1 else count k u)
count-drop_one k m [] = ground arith
count-drop_one k m (i ∷ u) = ground (arith, count-drop_one k m u, elem-count m u)

shorter : (u : List ℕ) → 0 < length u → length (without (min_of u) u) < length u
shorter u h = elim (Option-cases (min_of u)) [
  | inl e ↦ absurd (omega (arith, h, ap (λ xs. length xs) (min_of-none u e)))
  | inr (m, e) ↦ rw e (drop_one-lt m u (min_of_least u m e).0)
]

popped :
    (u : List ℕ) (m k : ℕ)
    → min_of u ≡ some m
    → count k (without (min_of u) u) ≡ (if m == k then count k u - 1 else count k u)
popped u m k h = rw h (count-drop_one k m u)

lookup-put :
    {V : Type 0} (k j : ℕ) (o : Option V) (d : List (ℕ × V))
    → UniqueKeys d
    → lookup j (put k o d) ≡ (if k == j then o else lookup j d)
lookup-put k j none d u = lookup-erase k j d u
lookup-put k j (some v) d u = lookup-insert k j v d

put-UniqueKeys :
    {V : Type 0} (k : ℕ) (o : Option V) (d : List (ℕ × V)) → UniqueKeys d → UniqueKeys (put k o d)
put-UniqueKeys k none d u = erase-UniqueKeys k d u
put-UniqueKeys k (some v) d u = insert-UniqueKeys k v d u

pub simple-TableLaws : TableLaws simple
simple-TableLaws = record { moved = λ i j k t. refl; swapped = λ i j k t. refl }

pub simple-SwapLaws : SwapLaws simple
simple-SwapLaws = record {
  swapped = λ i j k d u. ground (
    arith,
    lookup-put i k (lookup j d) d u,
    lookup-put j k (lookup i d) (put i (lookup j d) d) (put-UniqueKeys i (lookup j d) d u),
  );
  unique = λ i j d u.
      put-UniqueKeys j (lookup i d) (put i (lookup j d) d) (put-UniqueKeys i (lookup j d) d u);
}

pub simple-BuilderLaws : BuilderLaws simple
simple-BuilderLaws = record { shorter = shorter; kept = λ i j s u. refl }

pub simple-HoleLaws : HoleLaws simple
simple-HoleLaws = record {
  ends = simple-BuilderLaws;
  peek_none = min_of-none;
  peek_some = min_of_least;
  popped = popped;
  noted = λ i j s u. refl;
}
