-- ===== src/Scheduler/Limits.antt =====
-- vllm_ascend/core/scheduler.py: _get_prompt_limit and _check_watermark_for_prefill.
pub mod Watermark
use vllm_ascend_origin.Prelude.{
  ℕ, zero, suc, ◌+◌, ◌*◌, ◌≤◌, ◌≡◌, Bool, true, false, ◌&&◌, not, Option, none, some, List, [], ◌∷◌,
  arith, min, leb, ◌==◌, if◌then◌else◌, length,
}
use vllm_ascend_origin.Prelude.Int.{ℤ, pos, ◌-ℤ◌, ◌≤ℤ◌, -ℤ_parts}
use vllm_ascend_origin.Scheduler.State.{
  LoraRequest, Request, Result, ok, guard, ◌>>◌, assertion_error, Config, Vllm,
}

-- `request.lora_request and request.lora_request.long_lora_max_len`: 0 is as good as None.
abbrev truthy : Option ℕ → Option ℕ
truthy none = none
truthy (some zero) = none
truthy (some (suc n)) = some (suc n)

abbrev long_lora : Request → Option ℕ
long_lora r = elim r.lora_request [ none ↦ none | some l ↦ truthy l.long_lora_max_len ]

unfoldable pub get_prompt_limit : Config → Request → Result ℕ
get_prompt_limit c r =
    let prompt_limit : ℕ =
      if c.chunked_prefill_enabled && not c.is_multi_step
      then c.config_max_model_len
      else min c.config_max_model_len c.max_num_batched_tokens in
    elim (long_lora r) [
      | none ↦ ok prompt_limit
      | some max_len ↦ guard (leb prompt_limit max_len) assertion_error >> ok max_len
    ]

module _ (v : Vllm) (c : Config) where
  open v use {Ext, Block}

  -- sum(1 for blk in computed_blocks if blk.ref_cnt == 0)
  unfoldable pub count_evictable : Ext → List Block → ℕ
  count_evictable e [] = 0
  count_evictable e (b ∷ bs) =
      let rest = count_evictable e bs in if v.ref_cnt e b == 0 then suc rest else rest

  -- `computed_blocks or []`
  abbrev pub blocks_or_nil : Option (List Block) → List Block
  blocks_or_nil none = []
  blocks_or_nil (some bs) = bs

  -- The free blocks that are left after the allocation.
  unfoldable pub blocks_left : Ext → ℕ → Request → ℕ → List Block → ℤ
  blocks_left e id r num_new_tokens bs =
      let num_computed = r.num_computed_tokens + length bs * c.block_size in
      let num_required_blocks = v.cdiv (num_new_tokens + num_computed) c.block_size in
      let num_new_blocks =
        pos num_required_blocks -ℤ pos (v.num_req_blocks e id) -ℤ pos (length bs) in
      pos (v.get_num_free_blocks e) -ℤ pos (count_evictable e bs) -ℤ num_new_blocks

  unfoldable pub check_watermark_for_prefill : Ext → ℕ → Request → ℕ → Option (List Block) → Bool
  check_watermark_for_prefill e id r num_new_tokens computed_blocks =
      let left = blocks_left e id r num_new_tokens (blocks_or_nil computed_blocks) in
      not (v.int_lt_float left (v.float_times c.num_blocks v.watermark))
