-- ===== src/InputBatch.antt =====
-- vllm_ascend/worker/npu_input_batch.py, InputBatch.
pub mod State
pub mod Requests
pub mod Moves
pub mod Slots
pub mod View
pub mod Condense
pub mod Removal
pub mod Entries
pub mod Rows
pub mod Slide
pub mod Search
pub mod Packing
pub mod Dense
pub mod Exchange
pub mod Cleared
pub mod Vacate
pub mod Holes
pub mod Swap
mod Sample
mod Tests
