-- ===== src/ScheduleConfig/Accepts.antt =====
-- vllm_ascend/core/schedule_config.py: which configurations are accepted, and what a field is.
use vllm_ascend_origin.Prelude.{
  ℕ, ◌≡◌, ◌≤◌, refl, Bool, true, false, not, ◌&&◌, ◌||◌, Option, none, some, List, [], ◌∷◌, ◌==◌,
  if◌then◌else◌, ltb, leb, arith, Bool-cases, inl, inr, ==→eq, insert, lookup, lookup-insert, ap,
  ◌∙◌,
}
use vllm_ascend_origin.Prelude.Result.{
  Result, ok, ◌>>=◌, ◌>>◌, guard, value_error, not_implemented_error, Ensures, Ensures-bind,
  Ensures-ok,
}
use vllm_ascend_origin.ScheduleConfig.{
  AscendSchedulerConfig, fcfs, derive_fields, check_fields, post_init, name_chunked, name_policy,
  name_steps, name_cls, Defaults, with_defaults, override, initialize_from_config,
}

pub record Supported (c : AscendSchedulerConfig) : Type 0 where
  pub fits : (leb c.max_model_len c.max_num_batched_tokens || c.enable_chunked_prefill) ≡ true
  pub in_order : c.policy ≡ fcfs
  pub single_step : c.num_scheduler_steps ≤ 1
  pub text_only : c.is_multimodal_model ≡ false
  pub no_delta : c.send_delta_data ≡ false
  pub no_delay : c.has_delay ≡ false

module _ {V : Type 0} where
  abbrev pub overridden : (ℕ → Option V) → ℕ → V → V
  overridden ascend k v = elim (ascend k) [ none ↦ v | some w ↦ w ]

  abbrev pub applied : (ℕ → Option V) → ℕ → Option V → Option V
  applied ascend k none = none
  applied ascend k (some v) = some (overridden ascend k v)

  applied-if :
      (ascend : ℕ → Option V) (k : ℕ) (b : Bool) (v : V) (o : Option V)
      → applied ascend k (if b then some v else o)
        ≡ (if b then some (overridden ascend k v) else applied ascend k o)
  applied-if ascend k true v o = refl
  applied-if ascend k false v o = refl

  lookup-override :
      (config : List (ℕ × V)) (ascend : ℕ → Option V) (k : ℕ)
      → lookup k (override config ascend) ≡ applied ascend k (lookup k config)
  unfolding lookup override
  lookup-override [] ascend k = refl
  lookup-override ((j, v) ∷ config) ascend k = elim (Bool-cases (j == k)) [
    | inl e ↦ rw (e, ==→eq j k e)
    | inr e ↦ rw (e, lookup-override config ascend k)
  ]

  -- A field of the result is what the ascend configuration says, if it has an attribute of that name;
  -- otherwise the own default for the four fields that have one, and the vllm configuration's value
  -- for any other. A field that neither has stays absent.
  pub lookup-initialize_from_config :
      (v : Defaults V) (config : List (ℕ × V)) (ascend : ℕ → Option V) (k : ℕ)
      → lookup k (initialize_from_config v config ascend) ≡ (
          if name_cls == k
          then some (overridden ascend k v.cls)
          else (if name_steps == k
              then some (overridden ascend k v.steps)
              else (if name_policy == k
                  then some (overridden ascend k v.policy)
                  else (if name_chunked == k
                      then some (overridden ascend k v.chunked)
                      else applied ascend k (lookup k config)))))
  unfolding initialize_from_config with_defaults
  lookup-initialize_from_config v config ascend k =
      let first : List (ℕ × V) = insert name_chunked v.chunked config in
      let second : List (ℕ × V) = insert name_policy v.policy first in
      let third : List (ℕ × V) = insert name_steps v.steps second in
      lookup-override (insert name_cls v.cls third) ascend k
      ∙ rw (
        lookup-insert name_cls k v.cls third,
        applied-if ascend k (name_cls == k) v.cls (lookup k third),
        lookup-insert name_steps k v.steps second,
        applied-if ascend k (name_steps == k) v.steps (lookup k second),
        lookup-insert name_policy k v.policy first,
        applied-if ascend k (name_policy == k) v.policy (lookup k first),
        lookup-insert name_chunked k v.chunked config,
        applied-if ascend k (name_chunked == k) v.chunked (lookup k config),
      )

-- The six tests of __post_init__ in a row.
abbrev tests : Bool → Bool → Bool → Bool → Bool → Bool → Result (Unit {0})
tests a b c d e f =
    guard a value_error
    >> guard b not_implemented_error
    >> guard c not_implemented_error
    >> guard d not_implemented_error
    >> guard e not_implemented_error
    >> guard f not_implemented_error

abbrev AllTrue : Bool → Bool → Bool → Bool → Bool → Bool → Type 0
AllTrue a b c d e f = (a ≡ true) × (b ≡ true) × (c ≡ true) × (d ≡ true) × (e ≡ true) × (f ≡ true)

tests-AllTrue : (a b c d e f : Bool) → Ensures (λ _. AllTrue a b c d e f) (tests a b c d e f)
tests-AllTrue true true true true true true = (refl, refl, refl, refl, refl, refl)
tests-AllTrue false b c d e f = tt
tests-AllTrue true false c d e f = tt
tests-AllTrue true true false d e f = tt
tests-AllTrue true true true false e f = tt
tests-AllTrue true true true true false f = tt
tests-AllTrue true true true true true false = tt

AllTrue-tests : (a b c d e f : Bool) → AllTrue a b c d e f → tests a b c d e f ≡ ok tt
AllTrue-tests a b c d e f (p, q, r, s, t, u) = rw (p, q, r, s, t, u)

-- Exactly the supported configurations are accepted: the batched tokens cover the model length, or
-- chunked prefill is on; the policy is fcfs; and neither several steps, multimodal models, delta
-- data nor a delay are asked for. An accepted configuration gets the batched tokens as its encoder
-- input tokens and encoder cache size and the switch of chunked prefill as
-- chunked_prefill_enabled, and is otherwise as it was.
pub post_init-Supported :
    (c : AscendSchedulerConfig)
    → (Supported c
        → post_init c
          ≡ ok (record c {
            max_num_encoder_input_tokens = c.max_num_batched_tokens;
            encoder_cache_size = c.max_num_batched_tokens;
            chunked_prefill_enabled = c.enable_chunked_prefill;
          }))
      × ((d : AscendSchedulerConfig) → post_init c ≡ ok d → Supported c)
unfolding post_init check_fields derive_fields
post_init-Supported c = (
  λ s.
      ap (λ m. m >>= λ _. ok (derive_fields c))
        (AllTrue-tests
          (not (ltb c.max_num_batched_tokens c.max_model_len && not c.enable_chunked_prefill))
          (c.policy == fcfs) (not c.is_multimodal_model) (leb c.num_scheduler_steps 1)
          (not c.send_delta_data) (not c.has_delay)
          (
            ground (arith, s.fits),
            ground (arith, s.in_order),
            ap (λ b. not b) s.text_only,
            ground (arith, s.single_step),
            ap (λ b. not b) s.no_delta,
            ap (λ b. not b) s.no_delay,
          )),
  λ d h.
      Ensures-ok (λ _. Supported c) (post_init c) d
        (Ensures-bind _ (λ _. Supported c) (check_fields (derive_fields c))
          (λ _. ok (derive_fields c))
          (tests-AllTrue
            (not (ltb c.max_num_batched_tokens c.max_model_len && not c.enable_chunked_prefill))
            (c.policy == fcfs) (not c.is_multimodal_model) (leb c.num_scheduler_steps 1)
            (not c.send_delta_data) (not c.has_delay))
          (λ _ (p, q, r, s, t, u). record {
            fits = ground (arith, p);
            in_order = ground (arith, q);
            single_step = ground (arith, s);
            text_only = ground (arith, r);
            no_delta = ground (arith, t);
            no_delay = ground (arith, u);
          }))
        h,
)
