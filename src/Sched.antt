-- ===== src/Sched.antt =====
-- The state of the deterministic scheduler: `struct Scheduler` of include/tern/runtime/scheduler.h
-- and `struct RRScheduler` of include/tern/runtime/record-scheduler.h, with the options that it
-- reads, the per-thread wait slots and the two run queues.
--
-- A run queue is here the list of its threads from the head on, as RunQueue proves that the linked
-- list stands for; the fields `status` and `last_yield` of the shared elements are maps over the
-- threads. A push of a thread without an element is a fault, as is a pop of an empty queue.
mod Defs
mod Queues
pub mod Wakeups
pub mod Signals
pub mod Next
pub mod Turn
pub mod Setup
pub mod Conserve
pub mod Timely
pub mod Fifo
pub mod RoundRobin
pub mod Stays
pub mod Broadcast
pub mod Place
pub mod Inserting
pub mod Ends
pub mod Serial
pub mod Selfcheck
pub mod Orderly
unfoldable pub use Defs.*
unfoldable pub use Queues.*
