-- ===== src/Mooncake/Transfer/Groups.antt =====
-- vllm_ascend/distributed/mooncake_connector.py, group_concurrent_contiguous and
-- KVCacheRecvingThread._transfer_kv_cache: the transfers of the groups are those of the blocks.
use vllm_ascend_origin.Prelude.{
  ℕ, zero, suc, ◌+◌, ◌-◌, ◌*◌, ◌/◌, inl, inr, ◌≡◌, ◌<◌, ◌≤◌, refl, Bool, true, false, not, List, [],
  ◌∷◌, ◌++◌, ◌==◌, length, arith, ==_self, Bool-cases, ◌||◌, ap, sym, ◌∙◌,
}
use native.Mathlib.Nat.{mul-div_cancel}
use vllm_ascend_origin.Prelude.Result.{Result, ok, ◌>>=◌, Result-cases}
use vllm_ascend_origin.Mooncake.Transfer.{
  breaks, or_all, or_broadcast, where_next, split, group_concurrent_contiguous, Transfer,
  layer_transfers,
}

-- What to transfer, block by block.
abbrev pub block_transfers : ℕ → ℕ → ℕ → List ℕ → List ℕ → List Transfer
block_transfers s d n [] locals = []
block_transfers s d n (r ∷ remotes) [] = []
block_transfers s d n (r ∷ remotes) (l ∷ locals) =
    record { src = s + l * n; dst = d + r * n; size = n } ∷ block_transfers s d n remotes locals

-- The bytes of `count` blocks of `n` from an address on, as one transfer for each block.
abbrev pub cut : ℕ → ℕ → ℕ → ℕ → List Transfer
cut n src dst zero = []
cut n src dst (suc count) =
    record { src = src; dst = dst; size = n } ∷ cut n (src + n) (dst + n) count

abbrev pub cons_group : ℕ → List (List ℕ) → List (List ℕ)
cons_group x [] = (x ∷ []) ∷ []
cons_group x (g ∷ gs) = (x ∷ g) ∷ gs

-- The groups read off the flags, one element at a time.
abbrev pub grouped : ℕ → List ℕ → List Bool → List (List ℕ)
grouped x [] flags = (x ∷ []) ∷ []
grouped x (y ∷ ys) [] = (x ∷ y ∷ ys) ∷ []
grouped x (y ∷ ys) (true ∷ flags) = (x ∷ []) ∷ grouped y ys flags
grouped x (y ∷ ys) (false ∷ flags) = cons_group x (grouped y ys flags)

abbrev FromAbove : ℕ → List ℕ → Type 0
FromAbove i [] = Unit {0}
FromAbove i (b ∷ bs) = i < b

where_next-FromAbove : (i j : ℕ) (flags : List Bool) → j ≤ i → FromAbove j (where_next i flags)
unfolding where_next
where_next-FromAbove i j [] h = tt
where_next-FromAbove i j (true ∷ flags) h = omega (arith, h)
where_next-FromAbove i j (false ∷ flags) h = where_next-FromAbove (suc i) j flags (omega (arith, h))

split-cons :
    (i x : ℕ) (brk xs : List ℕ)
    → FromAbove i brk
    → split i brk (x ∷ xs) ≡ cons_group x (split (suc i) brk xs)
unfolding split
split-cons i x [] xs h = refl
split-cons i x (b ∷ brk) xs h = let e : b - i ≡ suc (b - suc i) = omega (arith, h) in rw e

split-where_next :
    (i x : ℕ) (xs : List ℕ) (flags : List Bool)
    → length xs ≡ length flags
    → split i (where_next i flags) (x ∷ xs) ≡ grouped x xs flags
unfolding split where_next
split-where_next i x [] [] h = refl
split-where_next i x [] (b ∷ flags) h = ground (arith, h)
split-where_next i x (y ∷ ys) [] h = ground (arith, h)
split-where_next i x (y ∷ ys) (true ∷ flags) h =
    let e : suc i - i ≡ 1 = omega arith in
    rw (e, split-where_next (suc i) y ys flags (omega (arith, h)))
split-where_next i x (y ∷ ys) (false ∷ flags) h = rw (
  split-cons i x (where_next (suc i) flags) (y ∷ ys)
      (where_next-FromAbove (suc i) i flags (omega arith)),
  split-where_next (suc i) y ys flags (omega (arith, h)),
)

-- The transfers of blocks that the transfers of `ts` come to.
abbrev pub by_blocks : ℕ → List Transfer → List Transfer
by_blocks n [] = []
by_blocks n (t ∷ ts) = cut n t.src t.dst (t.size / n) ++ by_blocks n ts

abbrev plan : ℕ → ℕ → ℕ → List (List ℕ) → List (List ℕ) → Result (List Transfer)
plan s d n remotes locals = layer_transfers s d n remotes locals >>= λ ts. ok (by_blocks n ts)

plan-cons :
    (s d n r l : ℕ) (rs ls : List ℕ) (remotes locals : List (List ℕ))
    → 0 < n
    → plan s d n ((r ∷ rs) ∷ remotes) ((l ∷ ls) ∷ locals) ≡ (
        plan s d n remotes locals >>= λ ts.
        ok (cut n (s + l * n) (d + r * n) (length (l ∷ ls)) ++ ts))
unfolding layer_transfers
plan-cons s d n r l rs ls remotes locals pos =
    elim (Result-cases (layer_transfers s d n remotes locals)) [
      | inl (ts, e) ↦ rw (e, mul-div_cancel (length (l ∷ ls)) pos)
      | inr (f, e) ↦ rw e
    ]

abbrev step : ℕ → ℕ → ℕ → ℕ → ℕ → List Transfer → Result (List Transfer)
step s d n r l ts = ok (record { src = s + l * n; dst = d + r * n; size = n } ∷ ts)

plan-cons_group :
    (s d n r l : ℕ) (rs ls : List ℕ) (remotes locals : List (List ℕ))
    → 0 < n
    → plan s d n (cons_group r ((suc r ∷ rs) ∷ remotes)) (cons_group l ((suc l ∷ ls) ∷ locals))
      ≡ (plan s d n ((suc r ∷ rs) ∷ remotes) ((suc l ∷ ls) ∷ locals) >>= step s d n r l)
plan-cons_group s d n r l rs ls remotes locals pos =
    let src_next : s + suc l * n ≡ s + l * n + n = ground arith in
    let dst_next : d + suc r * n ≡ d + r * n + n = ground arith in
    rw
      (
        plan-cons s d n r l (suc r ∷ rs) (suc l ∷ ls) remotes locals pos,
        plan-cons s d n (suc r) (suc l) rs ls remotes locals pos,
        src_next,
        dst_next,
      )
      (elim (Result-cases (layer_transfers s d n remotes locals)) [
        | inl (ts, e) ↦ rw e
        | inr (f, e) ↦ rw e
      ])

plan-nil : (s d n : ℕ) → plan s d n [] [] ≡ ok []
unfolding layer_transfers
plan-nil s d n = refl

plan-joined :
    (s d n r l : ℕ) {r' l' : ℕ} {rs ls : List ℕ} {remotes locals rg lg : List (List ℕ)}
    {ts : List Transfer}
    → 0 < n
    → r' ≡ suc r
    → l' ≡ suc l
    → rg ≡ (r' ∷ rs) ∷ remotes
    → lg ≡ (l' ∷ ls) ∷ locals
    → plan s d n rg lg ≡ ok ts
    → plan s d n (cons_group r rg) (cons_group l lg) ≡ step s d n r l ts
plan-joined s d n r l {rs = rs} {ls = ls} {remotes = remotes} {locals = locals} pos r_next l_next re
      le h =
    let h' : plan s d n ((suc r ∷ rs) ∷ remotes) ((suc l ∷ ls) ∷ locals) ≡ ok _ =
      rw (re, le, r_next, l_next) at h in
    rw (re, le, r_next, l_next)
      (plan-cons_group s d n r l rs ls remotes locals pos ∙ ap (λ m. m >>= step s d n r l) h')

grouped-head :
    (x : ℕ) (xs : List ℕ) (flags : List Bool)
    → (g : List ℕ) × (gs : List (List ℕ)) × (grouped x xs flags ≡ (x ∷ g) ∷ gs)
grouped-head x [] flags = ([], [], refl)
grouped-head x (y ∷ ys) [] = (y ∷ ys, [], refl)
grouped-head x (y ∷ ys) (true ∷ flags) = ([], grouped y ys flags, refl)
grouped-head x (y ∷ ys) (false ∷ flags) =
    let (g, gs, e) = grouped-head y ys flags in (y ∷ g, gs, rw e)

plan-grouped :
    (s d n r l : ℕ) (rs ls : List ℕ)
    → 0 < n
    → length rs ≡ length ls
    → plan s d n
        (grouped r rs (or_all (breaks (r ∷ rs)) (breaks (l ∷ ls))))
        (grouped l ls (or_all (breaks (r ∷ rs)) (breaks (l ∷ ls))))
      ≡ ok (block_transfers s d n (r ∷ rs) (l ∷ ls))
unfolding breaks or_all
plan-grouped s d n r l [] [] pos h = rw (plan-cons s d n r l [] [] [] [] pos, plan-nil s d n)
plan-grouped s d n r l [] (l' ∷ ls) pos h = ground (arith, h)
plan-grouped s d n r l (r' ∷ rs) [] pos h = ground (arith, h)
plan-grouped s d n r l (r' ∷ rs) (l' ∷ ls) pos h =
    let rest = plan-grouped s d n r' l' rs ls pos (omega (arith, h)) in
    elim (Bool-cases (not (r' == suc r) || not (l' == suc l))) [
      | inl e ↦ rw (
        e,
        plan-cons s d n r l [] [] (grouped r' rs (or_all (breaks (r' ∷ rs)) (breaks (l' ∷ ls))))
            (grouped l' ls (or_all (breaks (r' ∷ rs)) (breaks (l' ∷ ls)))) pos,
        rest,
      )
      | inr e ↦
          let (rg, rgs, re) = grouped-head r' rs (or_all (breaks (r' ∷ rs)) (breaks (l' ∷ ls))) in
          let (lg, lgs, le) = grouped-head l' ls (or_all (breaks (r' ∷ rs)) (breaks (l' ∷ ls))) in
          let r_next : r' ≡ suc r = ground (arith, e) in
          let l_next : l' ≡ suc l = ground (arith, e) in
          rw e (plan-joined s d n r l pos r_next l_next re le rest)
    ]

breaks-length :
    (x y : ℕ) (xs ys : List ℕ)
    → length xs ≡ length ys
    → length xs ≡ length (or_all (breaks (x ∷ xs)) (breaks (y ∷ ys)))
      × length (breaks (x ∷ xs)) ≡ length (breaks (y ∷ ys))
unfolding breaks or_all
breaks-length x y [] [] h = (refl, refl)
breaks-length x y [] (b ∷ ys) h = ground (arith, h)
breaks-length x y (a ∷ xs) [] h = ground (arith, h)
breaks-length x y (a ∷ xs) (b ∷ ys) h =
    let (p, q) = breaks-length a b xs ys (omega (arith, h)) in (omega (arith, p), omega (arith, q))

-- Let there be as many remote as local block ids, and let blocks have a positive length. Then the
-- grouping and the loop over the groups raise no error, and the transfers they list, each cut into
-- blocks, are those of the i-th remote block to the i-th local block for all i, in this order.
pub layer_transfers-group_concurrent_contiguous :
    (s d n : ℕ) (remotes locals : List ℕ)
    → 0 < n
    → length remotes ≡ length locals
    → (group_concurrent_contiguous remotes locals >>= λ g.
        layer_transfers s d n g.0 g.1 >>= λ ts. ok (by_blocks n ts))
      ≡ ok (block_transfers s d n remotes locals)
unfolding group_concurrent_contiguous or_broadcast layer_transfers
layer_transfers-group_concurrent_contiguous s d n [] [] pos h = refl
layer_transfers-group_concurrent_contiguous s d n [] (l ∷ ls) pos h = refl
layer_transfers-group_concurrent_contiguous s d n (r ∷ rs) [] pos h = ground (arith, h)
layer_transfers-group_concurrent_contiguous s d n (r ∷ rs) (l ∷ ls) pos h =
    let same : length rs ≡ length ls = omega (arith, h) in
    let (p, q) = breaks-length r l rs ls same in
    rw (
      q,
      ==_self (length (breaks (l ∷ ls))),
      split-where_next 0 r rs (or_all (breaks (r ∷ rs)) (breaks (l ∷ ls))) p,
      split-where_next 0 l ls (or_all (breaks (r ∷ rs)) (breaks (l ∷ ls))) (sym same ∙ p),
      plan-grouped s d n r l rs ls pos same,
    )
