-- ===== src/ForwardContext/Padding.antt =====
-- vllm_ascend/ascend_forward_context.py: the padding of the tokens, and the mask over them.
use native.Mathlib.Nat.{div-mul-le_self, lt-div-mul-add}
use mathlib.Core.Path.{subst}
use vllm_ascend_origin.Prelude.{
  sym, ◌∙◌, ◌⊎◌, none, ◌==◌, ℕ, zero, suc, ◌+◌, ◌-◌, ◌*◌, ◌/◌, ◌≤◌, ◌<◌, ◌≡◌, refl, ap, inl, inr,
  Bool, true, false, Bool-cases, ◌&&◌, not, Option, some, List, [], ◌∷◌, ◌++◌, ltb, ltb→lt, leb,
  min, if◌then◌else◌, length, take, drop, get_elem?, length-take, arith,
}
use vllm_ascend_origin.ForwardContext.{
  FusedMoeState, mc2, MoeEnvs, get_fused_moe_state, Environment, ForwardArgs, ForwardContext,
  actual_of, ep_size_of, is_deepseek_v3_r1, num_tokens_of, max_tokens_of, padded_num_tokens_of,
  set_first, set_rest, set_mc2_mask, base_context, pad_context, set_ascend_forward_context,
}

abbrev pub is_mc2 : FusedMoeState → Bool
is_mc2 mc2 = true
is_mc2 state = false

get_fused_moe_state-mc2 :
    (envs : MoeEnvs) (ep_size : ℕ) (with_prefill v3 : Bool)
    → is_mc2 (get_fused_moe_state envs ep_size with_prefill v3)
      ≡ (leb 16 ep_size && not with_prefill && not (envs.fused_experts_allgather_ep && v3))
unfolding get_fused_moe_state
get_fused_moe_state-mc2 envs ep_size with_prefill v3 = ground arith

cleared :
    (k : ℕ) (mask : List Bool)
    → k < length mask
    → get_elem? (set_rest zero false mask) k ≡ some false
unfolding set_rest
cleared k [] h = absurd (omega (arith, h))
cleared zero (b ∷ mask) h = refl
cleared (suc k) (b ∷ mask) h = cleared k mask (omega (arith, h))

mask-read :
    (n k : ℕ) (mask : List Bool)
    → k < length mask
    → get_elem? (set_rest n false (set_first n true mask)) k ≡ some (ltb k n)
unfolding set_rest set_first
mask-read n k [] h = absurd (omega (arith, h))
mask-read zero zero (b ∷ mask) h = ground arith
mask-read zero (suc k) (b ∷ mask) h = ground (arith, cleared k mask)
mask-read (suc n) zero (b ∷ mask) h = ground arith
mask-read (suc n) (suc k) (b ∷ mask) h = ground (arith, mask-read n k mask)

length-mask :
    (n : ℕ) (mask : List Bool) → length (set_rest n false (set_first n true mask)) ≡ length mask
unfolding set_rest set_first
length-mask n [] = refl
length-mask zero (b ∷ []) = refl
length-mask zero (b ∷ c ∷ mask) = ap suc (length-mask zero (c ∷ mask))
length-mask (suc n) (b ∷ mask) = ap suc (length-mask n mask)

-- The padded count of tokens: the least multiple of the tensor parallel size that covers them.
pub record Padded (max_tokens tp padded : ℕ) : Type 0 where
  pub covers : max_tokens ≤ padded
  pub least : padded < max_tokens + tp
  pub multiple : (k : ℕ) × (padded ≡ k * tp)

-- The mask marks the actual tokens among those padded, as far as the reserved mask goes, whose other
-- items stay.
pub record Marked (padded actual : ℕ) (reserved : List Bool)
    (r : Option (List Bool) × Option (List Bool)) : Type 0 where
  pub mask : List Bool
  pub noted : r ≡ (some mask, some (mask ++ drop padded reserved))
  pub size : length mask ≡ min padded (length reserved)
  pub marks :
      (k : ℕ)
      → (if ltb k (length mask) then get_elem? mask k else some (ltb k actual))
        ≡ some (ltb k actual)

padded_num_tokens_of-Padded :
    (max_tokens tp : ℕ) → 0 < tp → Padded max_tokens tp (padded_num_tokens_of max_tokens tp)
unfolding padded_num_tokens_of
padded_num_tokens_of-Padded max_tokens tp h =
    let n = max_tokens + tp - 1 in
    record {
      covers = omega (arith, h, lt-div-mul-add {a = n} h);
      least = omega (arith, h, div-mul-le_self n tp);
      multiple = (n / tp, refl);
    }

set_mc2_mask-Marked :
    (padded actual : ℕ) (reserved : List Bool)
    → Marked padded actual reserved (set_mc2_mask padded actual (some reserved))
unfolding set_mc2_mask
set_mc2_mask-Marked padded actual reserved =
    let view = take padded reserved in
    let mask = set_rest actual false (set_first actual true view) in
    record {
      mask = mask;
      noted = refl;
      size = omega (arith, length-mask actual view, length-take padded reserved);
      marks = λ k. elim (Bool-cases (ltb k (length mask))) [
        | inl t ↦ rw t (
            mask-read actual k view
              (omega (arith, ltb→lt k (length mask) t, length-mask actual view)))
        | inr f ↦ rw f refl
      ];
    }

-- The tokens of the pass: those given, or those of the attention metadata.
abbrev pub PassTokens : ForwardArgs → ℕ → Type 0
PassTokens args n =
    (args.num_tokens ≡ some n) ⊎ ((args.num_tokens ≡ none) × (args.attn_num_actual_tokens ≡ some n))

-- The most tokens of a data parallel rank: those of the metadata where there are several ranks and
-- metadata, and otherwise the tokens of the pass.
abbrev pub MostTokens : Environment → ℕ → ℕ → Type 0
MostTokens env n most =
    ((1 < env.dp_world_size) × (env.dp_max_tokens ≡ some most))
    ⊎ (((env.dp_world_size ≤ 1) ⊎ (env.dp_max_tokens ≡ none)) × (most ≡ n))

-- The actual tokens: those given, or else all tokens of the pass.
abbrev pub ActualTokens : ForwardArgs → ℕ → ℕ → Type 0
ActualTokens args n actual =
    (args.num_actual_tokens ≡ some actual) ⊎ ((args.num_actual_tokens ≡ none) × (actual ≡ n))

PassTokens-eq : (args : ForwardArgs) (n : ℕ) → PassTokens args n → num_tokens_of args ≡ some n
unfolding num_tokens_of
PassTokens-eq args n (inl e) = ground (arith, e)
PassTokens-eq args n (inr (e, k)) = ground (arith, e, k)

MostTokens-eq :
    (env : Environment) (n most : ℕ)
    → MostTokens env n most
    → max_tokens_of env (some n) ≡ some most
unfolding max_tokens_of
MostTokens-eq env n most (inl (several, e)) = ground (arith, several, e)
MostTokens-eq env n most (inr (inl one, e)) = ground (arith, one, e)
MostTokens-eq env n most (inr (inr no_metadata, e)) = ground (arith, no_metadata, e)

ActualTokens-eq :
    (args : ForwardArgs) (n actual : ℕ) → ActualTokens args n actual → actual_of args n ≡ actual
unfolding actual_of
ActualTokens-eq args n actual (inl e) = ground (arith, e)
ActualTokens-eq args n actual (inr (e, k)) = ground (arith, e, k)

-- What holds of the context and the reserved mask behind it. The model is DeepSeek V3 or R1 if it has
-- 256 routed experts.
pub record Noted (env : Environment) (args : ForwardArgs) (actual most : ℕ) (reserved : List Bool)
    (r : ForwardContext × Option (List Bool)) : Type 0 where
  pub padded : ℕ
  pub padded_holds : Padded most env.tp_world_size padded
  pub padded_noted : r.0.padded_num_tokens ≡ some padded
  pub most_noted : r.0.max_tokens_across_dp ≡ some most
  pub marked : Marked padded actual reserved (r.0.mc2_mask, r.1)
  pub uses_mc2 : is_mc2 r.0.fused_moe_state ≡ (
      leb 16 (if env.enable_expert_parallel then env.ep_world_size else 1)
      && not args.with_prefill
      && not (
          env.envs.fused_experts_allgather_ep
          && (elim env.n_routed_experts [ none ↦ false | some n ↦ n == 256 ])))

pad_context-Noted :
    (env : Environment) (args : ForwardArgs) (num_tokens most : ℕ) (reserved : List Bool)
    → 0 < env.tp_world_size
    → max_tokens_of env (num_tokens_of args) ≡ some most
    → Noted env args
        (actual_of args num_tokens)
        most
        reserved
        (pad_context env args num_tokens most (some reserved))
unfolding pad_context base_context ep_size_of is_deepseek_v3_r1
pad_context-Noted env args num_tokens most reserved h k =
    let padded = padded_num_tokens_of most env.tp_world_size in
    record {
      padded = padded;
      padded_holds = padded_num_tokens_of-Padded most env.tp_world_size h;
      padded_noted = refl;
      most_noted = k;
      marked = set_mc2_mask-Marked padded (actual_of args num_tokens) reserved;
      uses_mc2 =
          get_fused_moe_state-mc2 env.envs (ep_size_of env) args.with_prefill
            (is_deepseek_v3_r1 env);
    }

-- With a count of tokens and a positive tensor parallel size, the context has the most tokens of a
-- rank and the least multiple of that size that covers them, its mask marks the actual tokens among
-- those of the reserved mask, whose other items stay, and it uses MC2 exactly for 16 expert parallel
-- ranks or more without a prefill, unless AllGatherEP is enabled and the model has 256 routed experts.
pub set_ascend_forward_context-Noted :
    (env : Environment) (args : ForwardArgs) (num_tokens most actual : ℕ) (reserved : List Bool)
    → 0 < env.tp_world_size
    → PassTokens args num_tokens
    → MostTokens env num_tokens most
    → ActualTokens args num_tokens actual
    → Noted env args actual most reserved (set_ascend_forward_context env args (some reserved))
unfolding set_ascend_forward_context
set_ascend_forward_context-Noted env args num_tokens most actual reserved h pass m a =
    let e = PassTokens-eq args num_tokens pass in
    let k = MostTokens-eq env num_tokens most m in
    let all : max_tokens_of env (num_tokens_of args) ≡ some most = ap (max_tokens_of env) e ∙ k in
    let opened : set_ascend_forward_context env args (some reserved)
        ≡ pad_context env args num_tokens most (some reserved) =
      rw (set_ascend_forward_context, e, k) refl in
    subst (Noted env args actual most reserved) (sym opened) (
      subst
        (λ n. Noted env args n most reserved (pad_context env args num_tokens most (some reserved)))
        (ActualTokens-eq args num_tokens actual a)
        (pad_context-Noted env args num_tokens most reserved h all))
