-- ===== src/Scheduler.antt =====
-- vllm_ascend/core/scheduler.py: AscendScheduler.
pub mod State
pub mod Limits
pub mod Prefill
pub mod Decode
pub mod Schedule
pub mod Budget
pub mod Fcfs
pub mod Conservation
pub mod Progress
pub mod Faults
pub mod Finish
mod Tests
