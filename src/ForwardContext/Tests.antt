-- ===== src/ForwardContext/Tests.antt =====
-- A run of the forward context: five tokens, of at most six on a rank, for a tensor parallel size of
-- four.
use vllm_ascend_origin.Prelude.{
  inl, inr, ◌≡◌, refl, Bool, true, false, none, some, List, [], ◌∷◌, arith,
}
use vllm_ascend_origin.ForwardContext.{
  get_fused_moe_state, mc2, Environment, ForwardArgs, ep_size_of, is_deepseek_v3_r1, num_tokens_of,
  max_tokens_of, padded_num_tokens_of, set_first, set_rest, set_mc2_mask, base_context, actual_of,
  pad_context, set_ascend_forward_context,
}
use vllm_ascend_origin.ForwardContext.Padding.{Noted, set_ascend_forward_context-Noted}

abbrev env : Environment
env = record {
  envs = record { fused_experts_allgather_ep = false; moe_all2all_seq = true };
  enable_expert_parallel = true;
  ep_world_size = 16;
  dp_world_size = 4;
  tp_world_size = 4;
  n_routed_experts = some 256;
  dp_max_tokens = some 6;
}

abbrev args : ForwardArgs
args = record {
  attn_num_actual_tokens = some 5;
  num_tokens = none;
  with_prefill = false;
  in_profile_run = false;
  num_actual_tokens = none;
}

abbrev reserved : List Bool
reserved = true ∷ true ∷ true ∷ true ∷ false ∷ true ∷ true ∷ true ∷ true ∷ []

context_run : set_ascend_forward_context env args (some reserved) ≡ (
  record {
    with_prefill = false;
    fused_moe_state = mc2;
    in_profile_run = false;
    capturing = false;
    max_tokens_across_dp = some 6;
    padded_num_tokens = some 8;
    mc2_mask = some (true ∷ true ∷ true ∷ true ∷ true ∷ false ∷ false ∷ false ∷ []);
  },
  some (true ∷ true ∷ true ∷ true ∷ true ∷ false ∷ false ∷ false ∷ true ∷ []),
)
unfolding set_ascend_forward_context num_tokens_of max_tokens_of pad_context base_context
    get_fused_moe_state ep_size_of is_deepseek_v3_r1 padded_num_tokens_of set_mc2_mask set_first
    set_rest actual_of
context_run = refl

set_ascend_forward_context-Noted_example :
    Noted env args 5 6 reserved (set_ascend_forward_context env args (some reserved))
set_ascend_forward_context-Noted_example =
    set_ascend_forward_context-Noted env args 5 6 5 reserved (omega arith) (inr (refl, refl))
      (inl (omega arith, refl)) (inr (refl, refl))
