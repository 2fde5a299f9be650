-- ===== src/Sched/Orderly.antt =====
-- The scheduler's queues in order: the invariant that `selfcheck` of
-- lib/runtime/record-scheduler.cpp tests, kept by every operation.
pub mod Order
pub mod Moving
pub mod Waking
pub mod Heads
pub mod Choosing
pub mod Yielding
pub mod Passing
pub mod Entering
pub mod Runs
