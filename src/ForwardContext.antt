-- ===== src/ForwardContext.antt =====
-- vllm_ascend/ascend_forward_context.py: what set_ascend_forward_context notes in the forward context,
-- and the mask of tokens for MC2, which is a view of the reserved mask. ceil(a / b) of a float
-- quotient is that of the naturals for counts of tokens.
pub mod Padding
mod Tests
use vllm_ascend_origin.Prelude.{
  ℕ, zero, suc, ◌+◌, ◌-◌, ◌*◌, ◌/◌, Bool, true, false, ◌&&◌, ◌||◌, Option, none, some, List, [],
  ◌∷◌, ◌++◌, ◌==◌, ltb, if◌then◌else◌, take, drop,
}

pub data FusedMoeState : Type 0 where
  all_gather all2all mc2 all_gather_ep naive_multicast all2all_seq : FusedMoeState

-- VLLM_ENABLE_FUSED_EXPERTS_ALLGATHER_EP and VLLM_ASCEND_ENABLE_MOE_ALL2ALL_SEQ
pub record MoeEnvs : Type 0 where
  pub fused_experts_allgather_ep : Bool
  pub moe_all2all_seq : Bool

unfoldable pub get_fused_moe_state : MoeEnvs → ℕ → Bool → Bool → FusedMoeState
get_fused_moe_state envs ep_size with_prefill is_deepseek_v3_r1 =
    if envs.fused_experts_allgather_ep && ltb 1 ep_size && is_deepseek_v3_r1
    then all_gather_ep
    else if ep_size == 1
    then (if with_prefill then naive_multicast else all_gather)
    else if envs.moe_all2all_seq
    then (if ltb ep_size 16 || with_prefill then all2all_seq else mc2)
    else if ltb ep_size 16 || with_prefill
    then all2all
    else mc2

-- The sizes of the groups, and what the code reads of vllm's configuration and forward context.
pub record Environment : Type 0 where
  pub envs : MoeEnvs
  pub enable_expert_parallel : Bool
  pub ep_world_size : ℕ
  pub dp_world_size : ℕ
  pub tp_world_size : ℕ
  pub n_routed_experts : Option ℕ
  -- dp_metadata.max_tokens_across_dp_cpu, if there is a dp_metadata
  pub dp_max_tokens : Option ℕ

pub record ForwardArgs : Type 0 where
  -- attn_metadata.num_actual_tokens, if there is an attn_metadata
  pub attn_num_actual_tokens : Option ℕ
  pub num_tokens : Option ℕ
  pub with_prefill : Bool
  pub in_profile_run : Bool
  pub num_actual_tokens : Option ℕ

pub record ForwardContext : Type 0 where
  pub with_prefill : Bool
  pub fused_moe_state : FusedMoeState
  pub in_profile_run : Bool
  pub capturing : Bool
  pub max_tokens_across_dp : Option ℕ
  pub padded_num_tokens : Option ℕ
  pub mc2_mask : Option (List Bool)

unfoldable pub ep_size_of : Environment → ℕ
ep_size_of env = if env.enable_expert_parallel then env.ep_world_size else 1

unfoldable pub is_deepseek_v3_r1 : Environment → Bool
is_deepseek_v3_r1 env = elim env.n_routed_experts [ none ↦ false | some n ↦ n == 256 ]

-- `x if x is not None else y`
abbrev pub or_else : Option ℕ → Option ℕ → Option ℕ
or_else none y = y
or_else (some x) y = some x

unfoldable pub num_tokens_of : ForwardArgs → Option ℕ
num_tokens_of args = or_else args.num_tokens args.attn_num_actual_tokens

unfoldable pub max_tokens_of : Environment → Option ℕ → Option ℕ
max_tokens_of env num_tokens =
    if ltb 1 env.dp_world_size then or_else env.dp_max_tokens num_tokens else num_tokens

unfoldable pub padded_num_tokens_of : ℕ → ℕ → ℕ
padded_num_tokens_of max_tokens tp_world_size =
    (max_tokens + tp_world_size - 1) / tp_world_size * tp_world_size

-- mask[:n] = value, and mask[n:] = value
unfoldable pub set_first : ℕ → Bool → List Bool → List Bool
set_first n value [] = []
set_first zero value mask = mask
set_first (suc n) value (b ∷ mask) = value ∷ set_first n value mask

unfoldable pub set_rest : ℕ → Bool → List Bool → List Bool
set_rest n value [] = []
set_rest zero value (b ∷ mask) = value ∷ set_rest zero value mask
set_rest (suc n) value (b ∷ mask) = b ∷ set_rest n value mask

-- The mask for the tokens, and the reserved mask, whose memory it is.
unfoldable pub set_mc2_mask : ℕ → ℕ → Option (List Bool) → Option (List Bool) × Option (List Bool)
set_mc2_mask padded num_actual_tokens none = (none, none)
set_mc2_mask padded num_actual_tokens (some reserved) =
    let mask =
      set_rest num_actual_tokens false (set_first num_actual_tokens true (take padded reserved)) in
    (some mask, some (mask ++ drop padded reserved))

unfoldable pub base_context : Environment → ForwardArgs → ForwardContext
base_context env args = record {
  with_prefill = args.with_prefill;
  fused_moe_state =
      get_fused_moe_state env.envs (ep_size_of env) args.with_prefill (is_deepseek_v3_r1 env);
  in_profile_run = args.in_profile_run;
  capturing = false;
  max_tokens_across_dp = max_tokens_of env (num_tokens_of args);
  padded_num_tokens = none;
  mc2_mask = none;
}

-- num_actual_tokens, which defaults to num_tokens
unfoldable pub actual_of : ForwardArgs → ℕ → ℕ
actual_of args num_tokens = elim args.num_actual_tokens [ none ↦ num_tokens | some n ↦ n ]

-- With some tokens: `num_tokens`, and the most of a rank.
unfoldable pub pad_context :
    Environment → ForwardArgs → ℕ → ℕ → Option (List Bool) → ForwardContext × Option (List Bool)
pad_context env args num_tokens max_tokens reserved =
    let padded = padded_num_tokens_of max_tokens env.tp_world_size in
    let (mask, reserved) = set_mc2_mask padded (actual_of args num_tokens) reserved in
    (record (base_context env args) { padded_num_tokens = some padded; mc2_mask = mask }, reserved)

-- The forward context, and the reserved mask behind it.
unfoldable pub set_ascend_forward_context :
    Environment → ForwardArgs → Option (List Bool) → ForwardContext × Option (List Bool)
set_ascend_forward_context env args reserved_mc2_mask = elim (num_tokens_of args) [
  | none ↦ (base_context env args, reserved_mc2_mask)
  | some num_tokens ↦ elim (max_tokens_of env (some num_tokens)) [
    | none ↦ (base_context env args, reserved_mc2_mask)
    | some max_tokens ↦ pad_context env args num_tokens max_tokens reserved_mc2_mask
  ]
]
