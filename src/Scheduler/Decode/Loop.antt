-- ===== src/Scheduler/Decode/Loop.antt =====
-- vllm_ascend/core/scheduler.py, the decode loop: the invariant rule of the loop.
use vllm_ascend_origin.Prelude.{
  ℕ, zero, suc, ◌+◌, ◌≤◌, ◌<◌, ◌≡◌, ◌≢◌, refl, false, ◌&&◌, inl, inr, Option, some, List, [], ◌∷◌,
  ◌++◌, arith, ltb, Bool-cases, Option-cases, length, get_elem?, elem, pop, pop-append,
}
use vllm_ascend_origin.Scheduler.State.{Request, Ensures, Ensures-map, Config, Vllm, Plan, Frame}
use vllm_ascend_origin.Scheduler.Prefill.{Turn, break, continue, exceeds_max_loras, add_lora, New}
use vllm_ascend_origin.Scheduler.Prefill.Moves.{resume-Ensures}
use vllm_ascend_origin.Scheduler.Decode.{preempted, resumed, decode_round, decode_loop}
use vllm_ascend_origin.Scheduler.Decode.Moves.{
  Preempts, here, last, DecodeMove, passes, gives_up, schedules, decode_round-Move,
}

-- An item that is not the last one taken off keeps its place.
pub get_elem?-append_ne :
    (xs : List ℕ) (i x y : ℕ)
    → get_elem? (xs ++ y ∷ []) i ≡ some x
    → y ≢ x
    → get_elem? xs i ≡ some x
get_elem?-append_ne [] zero x y e ne = absurd (ne (ground arith))
get_elem?-append_ne [] (suc i) x y e ne = cc
get_elem?-append_ne (z ∷ xs) zero x y e ne = e
get_elem?-append_ne (z ∷ xs) (suc i) x y e ne = get_elem?-append_ne xs i x y e ne

module _ (v : Vllm) (c : Config) where
  open v use {Ext}

  -- What to show of an invariant over the index, the waiting queue and the plan.
  pub record DecodeRule {ℓ} (P : ℕ → List ℕ → Plan (New v c) → Type ℓ) : Type ℓ where
    pub pass :
        (i id : ℕ) (w : List ℕ) (p : Plan (New v c))
        → get_elem? p.running i ≡ some id
        → P i w p
        → P (i + 1) w p
    pub preempt :
        (i id victim : ℕ) (w rest : List ℕ) (p : Plan (New v c))
        → get_elem? p.running i ≡ some id
        → pop p.running ≡ some (rest, victim)
        → P i w p
        → P i (victim ∷ w) (preempted victim rest p)
    pub schedule :
        (i id : ℕ) (w : List ℕ) (p : Plan (New v c)) (n : ℕ) (new : New v c)
        (kept : Option (List ℕ)) (r : Request)
        → get_elem? p.running i ≡ some id
        → elem id p.scheduled_req_ids ≡ false
        → exceeds_max_loras c p.scheduled_loras r ≡ false
        → 0 < n
        → n ≤ p.token_budget
        → P i w p
        → P (i + 1) w (resumed id n new kept (add_lora c p.scheduled_loras r) p)

  abbrev pub Reached {ℓ} :
      (ℕ → List ℕ → Plan (New v c) → Type ℓ) → List ℕ × Frame Ext (New v c) → Type ℓ
  Reached P (w, g) = (i : ℕ) × P i w g.plan

  abbrev After {ℓ} :
      (ℕ → List ℕ → Plan (New v c) → Type ℓ) → ℕ → Turn (List ℕ × Frame Ext (New v c)) → Type ℓ
  After P i (break r) = Reached P r
  After P i (continue (w, g)) = P (i + 1) w g.plan

  -- What preemption leaves alone.
  record Same (id i : ℕ) (p q : Plan (New v c)) : Type 0 where
    ids : q.scheduled_req_ids ≡ p.scheduled_req_ids
    loras : q.scheduled_loras ≡ p.scheduled_loras
    budget : q.token_budget ≡ p.token_budget
    place : get_elem? q.running i ≡ some id

  module _ {ℓ} (P : ℕ → List ℕ → Plan (New v c) → Type ℓ) (rule : DecodeRule P) where
    Preempts-inv :
        {id : ℕ} {w' : List ℕ} {q : Plan (New v c)} (i : ℕ) (w : List ℕ) (p : Plan (New v c))
        → get_elem? p.running i ≡ some id
        → P i w p
        → Preempts id w' q w p
        → P i w' q × Same id i p q
    unfolding preempted
    Preempts-inv i w p at_i h (here ew eq) =
        (rw (ew, eq) h, rw eq (record { ids = refl; loras = refl; budget = refl; place = at_i }))
    Preempts-inv i w p at_i h (last victim rest e ne m) =
        let (h', same) =
          Preempts-inv i (victim ∷ w) (preempted victim rest p)
            (get_elem?-append_ne rest i _ victim (rw (pop-append p.running rest victim e) at at_i)
              ne)
            (rule.preempt i _ victim w rest p at_i e h) m in
        (
          h',
          record { ids = same.ids; loras = same.loras; budget = same.budget; place = same.place },
        )

    Move-After :
        (i id : ℕ) (w : List ℕ) (p : Plan (New v c))
        → get_elem? p.running i ≡ some id
        → P i w p
        → (t : Turn (List ℕ × Frame Ext (New v c))) → DecodeMove v c id w p t
        → After P i t
    Move-After i id w p at_i h t (passes ew eg) = rw (ew, eg) (rule.pass i id w p at_i h)
    Move-After i id w p at_i h t (gives_up w₁ rest q m e ew eg) =
        let (h', same) = Preempts-inv i w p at_i h m in
        (i, rw (ew, eg) (rule.preempt i id id w₁ rest q same.place e h'))
    Move-After i id w p at_i h t (schedules {w' = w'} q n new kept r fresh lora pos fits m eg) =
        let (h', same) = Preempts-inv i w p at_i h m in
        rw eg (
          rule.schedule i id w' q n new kept r same.place (rw same.ids fresh) (rw same.loras lora)
            pos (omega (arith, same.budget)) h')

    pub decode_loop_inv :
        (fuel i : ℕ) (w : List ℕ) (f : Frame Ext (New v c))
        → P i w f.plan
        → Ensures (Reached P) (decode_loop v c fuel i w f)
    unfolding decode_loop
    decode_loop_inv zero i w f h = tt
    decode_loop_inv (suc fuel) i w f h =
        elim (Bool-cases (ltb i (length f.plan.running) && ltb 0 f.plan.token_budget)) [
          | inr done ↦ rw (done, decode_loop) (i, h)
          | inl more ↦ elim (Option-cases (get_elem? f.plan.running i)) [
            | inl out ↦ rw (more, out, decode_loop) tt
            | inr (id, at_i) ↦
                rw (more, at_i, decode_loop)
                  (resume-Ensures _ _ (After P i) (Reached P) (λ g a. a)
                    (λ (w', g) a. decode_loop_inv fuel (i + 1) w' g a) (decode_round v c id w f)
                    (Ensures-map (Move-After i id w f.plan at_i h) (decode_round v c id w f)
                      (decode_round-Move v c id w f)))
          ]
        ]
