-- ===== src/Scheduler/Prefill/Loop.antt =====
-- vllm_ascend/core/scheduler.py, the prefill loop: the invariant rule of the loop.
use vllm_ascend_origin.Prelude.{
  ℕ, ◌≤◌, ◌<◌, ◌≡◌, ◌≢◌, Bool, false, inl, inr, List, [], ◌∷◌, ltb, Bool-cases, length,
}
use vllm_ascend_origin.Scheduler.State.{Request, Ensures, Ensures-map, Config, Vllm, Plan, Frame}
use vllm_ascend_origin.Scheduler.Prefill.{
  Turn, break, continue, skipped, ignored, admitted, add_lora, exceeds_max_loras, New,
  prefill_round, prefill_loop,
}
use vllm_ascend_origin.Scheduler.Prefill.Moves.{
  PrefillMove, stops, skips, ignores, admits, prefill_round-Move, resume-Ensures,
}

module _ (v : Vllm) (c : Config) where
  open v use {Ext}

  -- What to show of an invariant over the queue that is left and the plan.
  pub record PrefillRule {ℓ} (P : List ℕ → Plan (New v c) → Type ℓ) : Type ℓ where
    pub skip : (id : ℕ) (q : List ℕ) (p : Plan (New v c)) → P (id ∷ q) p → P q (skipped id p)
    pub ignore : (id : ℕ) (q : List ℕ) (p : Plan (New v c)) → P (id ∷ q) p → P q (ignored id p)
    pub admit :
        (id : ℕ) (q : List ℕ) (p : Plan (New v c)) (n : ℕ) (is_new : Bool) (new : New v c)
        (r : Request)
        → exceeds_max_loras c p.scheduled_loras r ≡ false
        → 0 < n
        → n ≤ p.token_budget
        → length p.running ≢ c.max_num_running_reqs
        → P (id ∷ q) p
        → P q (admitted id n is_new new (add_lora c p.scheduled_loras r) p)

  abbrev After {ℓ} :
      (List ℕ → Plan (New v c) → Type ℓ) → ℕ → List ℕ → Turn (Frame Ext (New v c)) → Type ℓ
  After P id q (break g) = P (id ∷ q) g.plan
  After P id q (continue g) = P q g.plan

  module _ {ℓ} (P : List ℕ → Plan (New v c) → Type ℓ) (rule : PrefillRule P) where
    Move-After :
        (id : ℕ) (q : List ℕ) (p : Plan (New v c))
        → P (id ∷ q) p
        → (t : Turn (Frame Ext (New v c))) → PrefillMove v c id p t
        → After P id q t
    Move-After id q p h t (stops e) = rw e h
    Move-After id q p h t (skips e) = rw e (rule.skip id q p h)
    Move-After id q p h t (ignores e) = rw e (rule.ignore id q p h)
    Move-After id q p h t (admits n i new r lora pos fits room e) =
        rw e (rule.admit id q p n i new r lora pos fits room h)

    round-After :
        (id : ℕ) (q : List ℕ) (f : Frame Ext (New v c))
        → P (id ∷ q) f.plan
        → Ensures (After P id q) (prefill_round v c id f)
    round-After id q f h =
        Ensures-map (Move-After id q f.plan h) (prefill_round v c id f)
          (prefill_round-Move v c id f)

    pub prefill_loop_inv :
        (q : List ℕ) (f : Frame Ext (New v c))
        → P q f.plan
        → Ensures (λ (left, g). P left g.plan) (prefill_loop v c q f)
    unfolding prefill_loop
    prefill_loop_inv [] f h = h
    prefill_loop_inv (id ∷ q) f h = elim (Bool-cases (ltb 0 f.plan.token_budget)) [
      | inr spent ↦ rw (spent, prefill_loop) h
      | inl more ↦
          rw (more, prefill_loop)
            (resume-Ensures _ _ (After P id q) (λ (left, g). P left g.plan) (λ g a. a)
              (λ g a. prefill_loop_inv q g a) (prefill_round v c id f) (round-After id q f h))
    ]
