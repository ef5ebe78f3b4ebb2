-- ===== src/Scheduler/Prefill/Moves.antt =====
-- vllm_ascend/core/scheduler.py, the prefill loop: what a round can do to the plan of the step.
use vllm_ascend_origin.Prelude.{
  ℕ, ◌≤◌, ◌<◌, ◌≡◌, ◌≢◌, refl, Bool, false, inl, inr, Option, List, arith, length,
}
use vllm_ascend_origin.Scheduler.State.{
  Request, Result, ok, err, Ensures, Result-cases, Config, Vllm, Plan, Frame,
}
use vllm_ascend_origin.Scheduler.Prefill.{
  Turn, resume, break, skipped, ignored, admitted, continue, Computed, scheduled_status, add_lora,
  take, New, exceeds_max_loras, decide_tokens, await_remote_kv, skip_cur_request, ignore_request,
  admit, allocate, place, prefill_round,
}

module _ (v : Vllm) (c : Config) where
  open v use {Ext, Blocks}

  pub data PrefillMove (id : ℕ) (p : Plan (New v c)) : Turn (Frame Ext (New v c)) → Type 0 where
    stops : {g : Frame Ext (New v c)} → g.plan ≡ p → PrefillMove id p (break g)
    skips : {g : Frame Ext (New v c)} → g.plan ≡ skipped id p → PrefillMove id p (continue g)
    ignores : {g : Frame Ext (New v c)} → g.plan ≡ ignored id p → PrefillMove id p (continue g)
    admits :
        {g : Frame Ext (New v c)} (n : ℕ) (is_new : Bool) (new : New v c) (r : Request)
        → exceeds_max_loras c p.scheduled_loras r ≡ false
        → 0 < n
        → n ≤ p.token_budget
        → length p.running ≢ c.max_num_running_reqs
        → g.plan ≡ admitted id n is_new new (add_lora c p.scheduled_loras r) p
        → PrefillMove id p (continue g)

  admit-Move :
      (id n : ℕ) (k : Computed Blocks) (b : Blocks) (f : Frame Ext (New v c))
      → exceeds_max_loras c f.plan.scheduled_loras (f.requests id) ≡ false
      → 0 < n
      → n ≤ f.plan.token_budget
      → length f.plan.running ≢ c.max_num_running_reqs
      → Ensures (λ g. PrefillMove id f.plan (continue g)) (admit v c id n k b f)
  unfolding admit
  admit-Move id n k b f lora pos fits room =
      elim (Result-cases (scheduled_status (f.requests id))) [
        | inl (is_new, e) ↦ rw (e, admit) (admits n is_new _ _ lora pos fits room refl)
        | inr (_, e) ↦ rw (e, admit) tt
      ]

  await_remote_kv-plan :
      (id : ℕ) (f : Frame Ext (New v c)) → (await_remote_kv v c id f).1.plan ≡ f.plan
  unfolding await_remote_kv
  await_remote_kv-plan id f = ground arith

  allocate-Move :
      (id n : ℕ) (bs : Option (List v.Block)) (k : Computed Blocks) (f : Frame Ext (New v c))
      → exceeds_max_loras c f.plan.scheduled_loras (f.requests id) ≡ false
      → (k.load_kv_async ≡ false → (0 < n) × (n ≤ f.plan.token_budget))
      → length f.plan.running ≢ c.max_num_running_reqs
      → Ensures (PrefillMove id f.plan) (allocate v c id n bs k f)
  unfolding allocate skip_cur_request
  allocate-Move id n bs k f lora given room = grind (arith, stops, skips, admit-Move)

  decide-take :
      (r : Request) (computed budget n : ℕ)
      → decide_tokens c r computed budget ≡ ok (take n)
      → (0 < n) × (n ≤ budget)
  unfolding decide_tokens
  decide-take r computed budget n h = ground arith

  place-Move :
      (id : ℕ) (f : Frame Ext (New v c))
      → exceeds_max_loras c f.plan.scheduled_loras (f.requests id) ≡ false
      → length f.plan.running ≢ c.max_num_running_reqs
      → Ensures (PrefillMove id f.plan) (place v c id f)
  unfolding place skip_cur_request ignore_request
  place-Move id f lora room = grind (arith, skips, ignores, allocate-Move, decide-take)

  pub prefill_round-Move :
      (id : ℕ) (f : Frame Ext (New v c)) → Ensures (PrefillMove id f.plan) (prefill_round v c id f)
  unfolding prefill_round skip_cur_request
  prefill_round-Move id f = grind (arith, stops, skips, place-Move, await_remote_kv-plan)

-- Induction over a loop's turn: what holds where it breaks, and what its rest ensures.
pub resume-Ensures {ℓ κ μ} :
    {A : Type 0} {B : Type ℓ} (stop : A → B) (again : A → Result B) (P : Turn A → Type κ)
    (Q : B → Type μ)
    → ((g : A) → P (break g) → Q (stop g))
    → ((g : A) → P (continue g) → Ensures Q (again g))
    → (m : Result (Turn A)) → Ensures P m
    → Ensures Q (resume stop again m)
unfolding resume
resume-Ensures stop again P Q hb hc (err e) p = tt
resume-Ensures stop again P Q hb hc (ok (break g)) p = hb g p
resume-Ensures stop again P Q hb hc (ok (continue g)) p = hc g p
