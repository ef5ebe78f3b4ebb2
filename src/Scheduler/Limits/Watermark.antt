-- ===== src/Scheduler/Limits/Watermark.antt =====
-- vllm_ascend/core/scheduler.py: what the watermark test and the prompt limit guarantee.
use vllm_ascend_origin.Prelude.{ℕ, ◌+◌, ◌*◌, ◌≤◌, ◌≡◌, true, Option, List, arith, length}
use vllm_ascend_origin.Prelude.Int.{ℤ, ◌≤ℤ◌, -ℤ_parts}
use vllm_ascend_origin.Scheduler.State.{Request, Config, Vllm}
use vllm_ascend_origin.Scheduler.Limits.{blocks_left, blocks_or_nil, check_watermark_for_prefill}

blocks_left_mono :
    (v : Vllm) (c : Config)
    → ((a b k : ℕ) → a ≤ b → v.cdiv a k ≤ v.cdiv b k)
    → (e : v.Ext) (id : ℕ) (r : Request) (n m : ℕ) (bs : List v.Block) → n ≤ m
    → blocks_left v c e id r m bs ≤ℤ blocks_left v c e id r n bs
unfolding blocks_left
blocks_left_mono v c cdiv_mono e id r n m bs le =
    let computed = r.num_computed_tokens + length bs * c.block_size in
    omega (arith, -ℤ_parts, cdiv_mono (n + computed) (m + computed) c.block_size (omega arith))

-- The test is monotone: with fewer new tokens a request that passes still passes. cdiv is assumed
-- to be monotone, and what is below a float to be downward closed.
pub check_watermark_for_prefill_mono :
    (v : Vllm) (c : Config)
    → ((a b k : ℕ) → a ≤ b → v.cdiv a k ≤ v.cdiv b k)
    → ((x y : ℤ) (z : v.Float) → x ≤ℤ y → v.int_lt_float y z ≡ true → v.int_lt_float x z ≡ true)
    → (e : v.Ext) (id : ℕ) (r : Request) (n m : ℕ) (bs : Option (List v.Block)) → n ≤ m
    → check_watermark_for_prefill v c e id r m bs ≡ true
    → check_watermark_for_prefill v c e id r n bs ≡ true
unfolding check_watermark_for_prefill
check_watermark_for_prefill_mono v c cdiv_mono lt_down e id r n m bs le h =
    let list = blocks_or_nil v c bs in
    let more = blocks_left v c e id r m list in
    let fewer = blocks_left v c e id r n list in
    ground (
      arith,
      lt_down more fewer (v.float_times c.num_blocks v.watermark)
          (blocks_left_mono v c cdiv_mono e id r n m list le),
    )
