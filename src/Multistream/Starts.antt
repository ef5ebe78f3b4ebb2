-- ===== src/Multistream/Starts.antt =====
-- vllm_ascend/multistream/ms_split.py: the two parts of query_start_loc, each from 0.
use mathlib.Core.List.{map}
use vllm_ascend_origin.Prelude.{
  ℕ, zero, suc, ◌+◌, ◌≤◌, ◌≡◌, refl, ap, ◌∙◌, some, List, [], ◌∷◌, take, drop, length, sum,
  get_elem?, arith,
}
use vllm_ascend_origin.Prelude.Int.{ℤ, pos, ◌-ℤ◌}
use vllm_ascend_origin.Prelude.Result.{ok}
use vllm_ascend_origin.Multistream.Split.{split_start_loc}

-- Where each sequence starts among the tokens, and the end of the last one.
abbrev pub starts_of : ℕ → List ℕ → List ℤ
starts_of a [] = pos a ∷ []
starts_of a (n ∷ q) = pos a ∷ starts_of (a + n) q

starts_of_eq : (a b : ℕ) (q : List ℕ) → a ≡ b → starts_of a q ≡ starts_of b q
starts_of_eq a b q e = ap (λ n. starts_of n q) e

take-starts_of : (a k : ℕ) (q : List ℕ) → take (suc k) (starts_of a q) ≡ starts_of a (take k q)
take-starts_of a zero [] = refl
take-starts_of a (suc k) [] = refl
take-starts_of a zero (n ∷ q) = refl
take-starts_of a (suc k) (n ∷ q) = ap (λ xs. pos a ∷ xs) (take-starts_of (a + n) k q)

drop-starts_of :
    (a k : ℕ) (q : List ℕ)
    → k ≤ length q
    → drop k (starts_of a q) ≡ starts_of (a + sum (take k q)) (drop k q)
drop-starts_of a zero q h = starts_of_eq a (a + 0) q (omega arith)
drop-starts_of a (suc k) [] h = absurd (omega (arith, h))
drop-starts_of a (suc k) (n ∷ q) h =
    drop-starts_of (a + n) k q (omega (arith, h))
    ∙ starts_of_eq _ (a + (n + sum (take k q))) (drop k q) (omega arith)

get_elem?-starts_of :
    (a k : ℕ) (q : List ℕ)
    → k ≤ length q
    → get_elem? (starts_of a q) k ≡ some (pos (a + sum (take k q)))
get_elem?-starts_of a zero [] h = ap (λ n. some (pos n)) (omega arith)
get_elem?-starts_of a zero (n ∷ q) h = ap (λ n. some (pos n)) (omega arith)
get_elem?-starts_of a (suc k) [] h = absurd (omega (arith, h))
get_elem?-starts_of a (suc k) (n ∷ q) h =
    get_elem?-starts_of (a + n) k q (omega (arith, h)) ∙ ap (λ n. some (pos n)) (omega arith)

pub sub-pos : (a b : ℕ) → pos (a + b) -ℤ pos a ≡ pos b
unfolding ◌-ℤ◌
sub-pos a b = ground arith

map-starts_of : (a b : ℕ) (q : List ℕ) → map (λ x. x -ℤ pos a) (starts_of (a + b) q) ≡ starts_of b q
map-starts_of a b [] = ap (λ x. x ∷ []) (sub-pos a b)
map-starts_of a b (n ∷ q) =
    ap (λ x. x ∷ map (λ x. x -ℤ pos a) (starts_of (a + b + n) q)) (sub-pos a b)
    ∙ ap (λ xs. pos b ∷ xs)
        (ap (map (λ x. x -ℤ pos a)) (starts_of_eq (a + b + n) (a + (b + n)) q (omega arith))
          ∙ map-starts_of a (b + n) q)

pub split_start_loc-starts_of :
    (k : ℕ) (q : List ℕ)
    → k ≤ length q
    → split_start_loc (starts_of 0 q) k ≡ ok (starts_of 0 (take k q), starts_of 0 (drop k q))
unfolding split_start_loc
split_start_loc-starts_of k q h =
    let start = 0 + sum (take k q) in
    let rebased : map (λ x. x -ℤ pos start) (starts_of start (drop k q)) ≡ starts_of 0 (drop k q) =
      ap (map (λ x. x -ℤ pos start)) (starts_of_eq start (start + 0) (drop k q) (omega arith))
      ∙ map-starts_of start 0 (drop k q) in
    rw (get_elem?-starts_of 0 k q h, drop-starts_of 0 k q h, take-starts_of 0 k q, rebased) refl
