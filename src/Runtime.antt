-- ===== src/Runtime.antt =====
-- `RecorderRT` of include/tern/runtime/record-runtime.h and lib/runtime/record-runtime.cpp: the
-- wrappers of the pthread operations over the scheduler.
pub mod State
pub mod Finish
pub mod Time
pub mod Mutex
pub mod Sem
pub mod Sems
pub mod RwLock
pub mod Sharing
pub mod Barrier
pub mod Cond
pub mod CondCodes
pub mod Release
pub mod Locks
pub mod Thread
pub mod Region
pub mod Blocking
pub mod Outside
pub mod Passing
pub mod Fork
pub mod Child
pub mod Task
pub mod Turns
unfoldable pub use State.*
unfoldable pub use Finish.*
