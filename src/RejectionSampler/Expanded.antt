-- ===== src/RejectionSampler/Expanded.antt =====
-- vllm_ascend/sample/rejection_sampler.py, expand_pytorch: each value of a request stands once for
-- each of its tokens.
use vllm_ascend_origin.Prelude.Arrays.{get_at, set_at-append}
use vllm_ascend_origin.Prelude.{
  ℕ, zero, suc, ◌+◌, ◌-◌, ◌≤◌, ◌≡◌, refl, sym, ap, ◌∙◌, true, List, [], ◌∷◌, ◌++◌, ◌==◌,
  if◌then◌else◌, leb, length, length-append, sum, All, drop, length-drop, arith,
}
use mathlib.Core.List.{append_assoc}
use vllm_ascend_origin.Prelude.Result.{ok}
use vllm_ascend_origin.RejectionSampler.{start_index, fill, expand}

abbrev pub replicate : ℕ → ℕ → List ℕ
replicate zero x = []
replicate (suc n) x = x ∷ replicate n x

-- The cumulative counts from the request `req` on, whose tokens begin at `start`.
abbrev pub Cumulative : List ℕ → ℕ → ℕ → List ℕ → Type 0
Cumulative cu req start [] = Unit
Cumulative cu req start (n ∷ counts) =
    (get_at cu req ≡ ok (start + n)) × Cumulative cu (suc req) (start + n) counts

abbrev pub expanded : ℕ → ℕ → List ℕ → List ℕ → List ℕ
expanded replace_from replace_to (n ∷ counts) (x ∷ xs) =
    replicate n (if x == replace_from then replace_to else x)
    ++ expanded replace_from replace_to counts xs
expanded replace_from replace_to counts xs = []

length-replicate : (n x : ℕ) → length (replicate n x) ≡ n
length-replicate zero x = refl
length-replicate (suc n) x = ap suc (length-replicate n x)

start_next : (cu : List ℕ) (req : ℕ) → start_index cu (suc req) ≡ get_at cu req
unfolding start_index
start_next cu req = refl

fill-append :
    (n v : ℕ) (done rest : List ℕ)
    → n ≤ length rest
    → fill (length done) n v (done ++ rest) ≡ ok (done ++ (replicate n v ++ drop n rest))
unfolding fill
fill-append zero v done rest h = refl
fill-append (suc n) v done [] h = absurd (omega (arith, h))
fill-append (suc n) v done (r ∷ rest) h =
    let more : length (done ++ v ∷ []) ≡ suc (length done) =
      omega (arith, length-append done (v ∷ [])) in
    let later = fill-append n v (done ++ v ∷ []) rest (omega (arith, h)) in
    rw (set_at-append done r v rest) (
      rw
        (
          more,
          append_assoc done (v ∷ []) rest,
          append_assoc done (v ∷ []) (replicate n v ++ drop n rest),
        )
        at later)

expand_from :
    (cu : List ℕ) (replace_from replace_to max_num_tokens req : ℕ) (counts xs done rest : List ℕ)
    → length xs ≡ length counts
    → All (λ n. n ≤ max_num_tokens) counts
    → start_index cu req ≡ ok (length done)
    → Cumulative cu req (length done) counts
    → length rest ≡ sum counts
    → expand cu replace_from replace_to max_num_tokens req xs (done ++ rest)
      ≡ ok (done ++ expanded replace_from replace_to counts xs)
unfolding expand
expand_from cu from to most req [] [] done [] same few at_start cumulative full = refl
expand_from cu from to most req [] [] done (r ∷ rest) same few at_start cumulative full =
    absurd (omega (arith, full))
expand_from cu from to most req [] (x ∷ xs) done rest same few at_start cumulative full =
    absurd (omega (arith, same))
expand_from cu from to most req (n ∷ counts) [] done rest same few at_start cumulative full =
    absurd (omega (arith, same))
expand_from cu from to most req (n ∷ counts) (x ∷ xs) done rest same few at_start cumulative full =
    let v : ℕ = if x == from then to else x in
    let size : length done + n - length done ≡ n = omega arith in
    let small : leb n most ≡ true = ground (arith, few.0) in
    let filled = fill-append n v done rest (omega (arith, full)) in
    let long : length (done ++ replicate n v) ≡ length done + n =
      length-append done (replicate n v) ∙ ap (λ k. length done + k) (length-replicate n v) in
    let later =
      expand_from cu from to most (suc req) counts xs (done ++ replicate n v) (drop n rest)
        (omega (arith, same)) few.1 (start_next cu req ∙ cumulative.0 ∙ ap (λ k. ok k) (sym long))
        (rw long cumulative.1) (omega (arith, length-drop n rest, full)) in
    rw (at_start, cumulative.0, size, small, filled)
      (rw
        (
          append_assoc done (replicate n v) (drop n rest),
          append_assoc done (replicate n v) (expanded from to counts xs),
        )
        at later)

-- Let the cumulative counts be those of the counts, none of which is above MAX_NUM_TOKENS, and let
-- there be as many values as counts and an output of as many places as tokens. Then the expansion
-- raises no error and has, request by request, its value once for each of its tokens, with
-- `replace_to` in place of `replace_from`.
pub expand-expanded :
    (cu : List ℕ) (replace_from replace_to max_num_tokens : ℕ) (counts xs output : List ℕ)
    → length xs ≡ length counts
    → All (λ n. n ≤ max_num_tokens) counts
    → Cumulative cu 0 0 counts
    → length output ≡ sum counts
    → expand cu replace_from replace_to max_num_tokens 0 xs output
      ≡ ok (expanded replace_from replace_to counts xs)
unfolding start_index
expand-expanded cu from to most counts xs output same few cumulative full =
    expand_from cu from to most 0 counts xs [] output same few refl cumulative full
