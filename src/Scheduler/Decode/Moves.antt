-- ===== src/Scheduler/Decode/Moves.antt =====
-- vllm_ascend/core/scheduler.py, the decode loop: what a round can do to the plan and the queue.
use vllm_ascend_origin.Prelude.{
  ℕ, zero, suc, ◌≤◌, ◌<◌, ◌≡◌, ◌≢◌, refl, false, inl, inr, Option, none, some, List, ◌∷◌, arith,
  ◌==◌, Bool-cases, ==→eq, elem, Option-cases, length, pop,
}
use vllm_ascend_origin.Scheduler.State.{
  Request, Ensures, Ensures-map, Ensures-bind, Config, Vllm, Plan, Frame,
}
use vllm_ascend_origin.Scheduler.Prefill.{Turn, break, continue, exceeds_max_loras, add_lora, New}
use vllm_ascend_origin.Scheduler.Decode.{
  decode_slots, decode_tokens, kept_spec_tokens, preempted, resumed, preempt, allocate_or_preempt,
  schedule_running, after_allocation, decode_round,
}

-- From the queue `w` and the plan `p`, running requests other than `id` went from the end of
-- `running` to the head of the queue, up to the queue `w'` and the plan `q`.
pub data Preempts {New : Type 0} (id : ℕ) (w' : List ℕ) (q : Plan New)
    : List ℕ → Plan New → Type 0 where
  here : {w : List ℕ} {p : Plan New} → w' ≡ w → q ≡ p → Preempts id w' q w p
  last :
      {w : List ℕ} {p : Plan New} (victim : ℕ) (rest : List ℕ)
      → pop p.running ≡ some (rest, victim)
      → victim ≢ id
      → Preempts id w' q (victim ∷ w) (preempted victim rest p)
      → Preempts id w' q w p

module _ (v : Vllm) (c : Config) where
  open v use {Ext, Blocks}

  -- What allocate_or_preempt does: room is found, or the request preempts itself in the end.
  pub data Allocated (id : ℕ) (r : Request) (w : List ℕ) (p : Plan (New v c))
      : Option Blocks × List ℕ × Frame Ext (New v c) → Type 0 where
    fits :
        {w' : List ℕ} {g : Frame Ext (New v c)} (b : Blocks)
        → g.requests id ≡ r
        → Preempts id w' g.plan w p
        → Allocated id r w p (some b, w', g)
    fails :
        {w' : List ℕ} {g : Frame Ext (New v c)} (w₁ rest : List ℕ) (q : Plan (New v c))
        → Preempts id w₁ q w p
        → pop q.running ≡ some (rest, id)
        → w' ≡ id ∷ w₁
        → g.plan ≡ preempted id rest q
        → Allocated id r w p (none, w', g)

  -- A round breaks, or it goes on and may have scheduled the request `id`.
  pub data DecodeMove (id : ℕ) (w : List ℕ) (p : Plan (New v c))
      : Turn (List ℕ × Frame Ext (New v c)) → Type 0 where
    passes :
        {w' : List ℕ} {g : Frame Ext (New v c)}
        → w' ≡ w
        → g.plan ≡ p
        → DecodeMove id w p (continue (w', g))
    gives_up :
        {w' : List ℕ} {g : Frame Ext (New v c)} (w₁ rest : List ℕ) (q : Plan (New v c))
        → Preempts id w₁ q w p
        → pop q.running ≡ some (rest, id)
        → w' ≡ id ∷ w₁
        → g.plan ≡ preempted id rest q
        → DecodeMove id w p (break (w', g))
    schedules :
        {w' : List ℕ} {g : Frame Ext (New v c)} (q : Plan (New v c)) (n : ℕ) (new : New v c)
        (kept : Option (List ℕ)) (r : Request)
        → elem id p.scheduled_req_ids ≡ false
        → exceeds_max_loras c p.scheduled_loras r ≡ false
        → 0 < n
        → n ≤ p.token_budget
        → Preempts id w' q w p
        → g.plan ≡ resumed id n new kept (add_lora c q.scheduled_loras r) q
        → DecodeMove id w p (continue (w', g))

  Allocated-last :
      (id victim : ℕ) (r : Request) (w rest : List ℕ) (p : Plan (New v c))
      → pop p.running ≡ some (rest, victim)
      → victim ≢ id
      → (t : Option Blocks × List ℕ × Frame Ext (New v c))
      → Allocated id r (victim ∷ w) (preempted victim rest p) t
      → Allocated id r w p t
  Allocated-last id victim r w rest p e ne t (fits b er m) = fits b er (last victim rest e ne m)
  Allocated-last id victim r w rest p e ne t (fails w₁ rest₁ q m e₁ ew eg) =
      fails w₁ rest₁ q (last victim rest e ne m) e₁ ew eg

  allocate_or_preempt-Allocated :
      (fuel id n : ℕ) (w : List ℕ) (f : Frame Ext (New v c))
      → Ensures (Allocated id (f.requests id) w f.plan) (allocate_or_preempt v c fuel id n w f)
  unfolding allocate_or_preempt preempt
  allocate_or_preempt-Allocated zero id n w f = tt
  allocate_or_preempt-Allocated (suc fuel) id n w f =
      elim (Option-cases (v.allocate_slots f.ext id (f.requests id) (decode_slots c n)).0) [
        | inr (b, e) ↦ rw (e, allocate_or_preempt) (fits b refl (here refl refl))
        | inl e ↦ elim (Option-cases (pop f.plan.running)) [
          | inl empty ↦ rw (e, empty, allocate_or_preempt) tt
          | inr ((rest, victim), popped) ↦ elim (Bool-cases (victim == id)) [
            | inl self ↦
                rw (e, popped, self, allocate_or_preempt)
                  (fails w rest f.plan (here refl refl) (rw (==→eq victim id self) at popped)
                    (rw (==→eq victim id self) refl) (rw (==→eq victim id self) refl))
            | inr other ↦
                let tried : Frame Ext (New v c) = record f {
                  ext = (v.allocate_slots f.ext id (f.requests id) (decode_slots c n)).1;
                } in
                let g : Frame Ext (New v c) = (preempt v c victim rest w tried).1 in
                let kept : g.requests id ≡ f.requests id = rw other refl in
                rw (e, popped, other, allocate_or_preempt)
                  (Ensures-map
                    (Allocated-last id victim (f.requests id) w rest f.plan popped
                      (λ same. ground (arith, same)))
                    (allocate_or_preempt v c fuel id n (victim ∷ w) g)
                    (rw kept at (allocate_or_preempt-Allocated fuel id n (victim ∷ w) g)))
          ]
        ]
      ]

  -- What decode_tokens says of a number that is not 0.
  abbrev Bounded : Request → List ℕ → ℕ → ℕ → Type 0
  Bounded r loras budget n = n ≢ 0 → (0 < n) × (n ≤ budget) × (exceeds_max_loras c loras r ≡ false)

  decode_tokens-Bounded :
      (r : Request) (loras : List ℕ) (budget : ℕ)
      → Ensures (Bounded r loras budget) (decode_tokens c r loras budget)
  unfolding decode_tokens
  decode_tokens-Bounded r loras budget = ground arith

  schedule_running-plan :
      (id n : ℕ) (b : Blocks) (f : Frame Ext (New v c))
      → (new : New v c) × ((schedule_running v c id n b f).plan
          ≡ resumed id n new
              (kept_spec_tokens (f.requests id) n)
              (add_lora c f.plan.scheduled_loras (f.requests id))
              f.plan)
  unfolding schedule_running
  schedule_running-plan id n b f = (_, refl)

  settle :
      (id n : ℕ) (w : List ℕ) (f : Frame Ext (New v c))
      → elem id f.plan.scheduled_req_ids ≡ false
      → (0 < n)
        × (n ≤ f.plan.token_budget)
        × (exceeds_max_loras c f.plan.scheduled_loras (f.requests id) ≡ false)
      → (r : Option Blocks × List ℕ × Frame Ext (New v c)) → Allocated id (f.requests id) w f.plan r
      → Ensures (DecodeMove id w f.plan) (after_allocation v c id n r)
  unfolding after_allocation
  settle id n w f fresh bounds r (fits {g = g} b er m) =
      schedules g.plan n _ _ (g.requests id) fresh (rw er bounds.2) bounds.0 bounds.1 m
        (schedule_running-plan id n b g).1
  settle id n w f fresh bounds r (fails w₁ rest q m e ew eg) = gives_up w₁ rest q m e ew eg

  pub decode_round-Move :
      (id : ℕ) (w : List ℕ) (f : Frame Ext (New v c))
      → Ensures (DecodeMove id w f.plan) (decode_round v c id w f)
  unfolding decode_round
  decode_round-Move id w f = elim (Bool-cases (elem id f.plan.scheduled_req_ids)) [
    | inl done ↦ rw (done, decode_round) (passes refl refl)
    | inr fresh ↦
        rw (fresh, decode_round)
          (Ensures-bind (Bounded (f.requests id) f.plan.scheduled_loras f.plan.token_budget)
            (DecodeMove id w f.plan)
            (decode_tokens c (f.requests id) f.plan.scheduled_loras f.plan.token_budget) _
            (decode_tokens-Bounded (f.requests id) f.plan.scheduled_loras f.plan.token_budget)
            (λ n bounded. elim (Bool-cases (n == 0)) [
              | inl none_new ↦ rw none_new (passes refl refl)
              | inr some_new ↦ rw some_new (
                  Ensures-bind (Allocated id (f.requests id) w f.plan) (DecodeMove id w f.plan)
                    (allocate_or_preempt v c (length f.plan.running) id n w f) _
                    (allocate_or_preempt-Allocated (length f.plan.running) id n w f)
                    (settle id n w f fresh (bounded (λ e. ground arith))))
            ]))
  ]
