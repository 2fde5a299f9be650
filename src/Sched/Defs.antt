-- ===== src/Sched/Defs.antt =====
-- Options, wait slots (`wait_t`), and the scheduler's state.
use min_smt.Prelude.{
  ℕ, ◌+◌, ◌-◌, ◌^◌, Bool, true, false, not, ◌&&◌, Option, none, some, List, ltb, if◌then◌else◌,
}
use min_smt.RunQueue.{Status}
use min_smt.TidMap.{TidMap}
use min_smt.NonDetSet.{NonDetSet}

-- The values of `options::enforce_turn_type`: below 0, 0, 1, 2, and above.
pub data TurnType : Type 0 where
  null_policy busy_relay semaphore_relay hybrid_relay other_relay : TurnType

abbrev pub is_null : TurnType → Bool
is_null null_policy = true
is_null _ = false

-- The options that the scheduler reads. `hp_policy` is `scheduling_policy & 0x04`; `ndebug` says
-- whether the build has `-DNDEBUG`; `non_det_cv` is the address of `nonDetCV`.
pub record Options : Type 0 where
  pub ndebug : Bool
  pub turn_type : TurnType
  pub hp_policy : Bool
  pub wakeamap_plus : Bool
  pub launch_idle_thread : ℕ
  pub enforce_non_det_annotations : Bool
  pub enforce_non_det_clock_bound : Bool
  pub non_det_clock_bound : ℕ
  pub non_det_cv : ℕ

abbrev pub uint_mod : ℕ
uint_mod = 2 ^ 32

-- `FOREVER`, which is `UINT_MAX`.
abbrev pub forever : ℕ
forever = uint_mod - 1

abbrev pub etimedout : ℕ
etimedout = 110

-- `enum Wake_Reasons {SIGNAL, TIMEDOUT}`.
pub data WakeReason : Type 0 where
  signaled timedout : WakeReason

-- `wait_t`. The semaphore is its count.
pub record Slot : Type 0 where
  pub sem : ℕ
  pub chan : ℕ
  pub timeout : ℕ
  pub ret : ℕ
  pub waken_up : Bool
  pub wake_reason : WakeReason
  pub from_hp : Bool
  pub is_runnable : Bool

-- `wait_t::reset(st)`.
unfoldable pub reset_slot : ℕ → Slot → Slot
reset_slot st w = record w {
  chan = 0;
  timeout = forever;
  ret = st;
  waken_up = false;
  is_runnable = true;
}

-- `wait_t::post()`.
unfoldable pub post : TurnType → Slot → Slot
post semaphore_relay w = record w { sem = w.sem + 1 }
post hybrid_relay w = record w { waken_up = true }
post busy_relay w = record w { waken_up = true }
post null_policy w = record w { is_runnable = true }
post other_relay w = w

-- `wait_t::wait()`: the slot and the flag `inSync` once the call returns; `none` while it blocks.
unfoldable pub try_wait : TurnType → Slot → (in_sync : Bool) → Option (Slot × Bool)
try_wait semaphore_relay w y = if ltb 0 w.sem then some (record w { sem = w.sem - 1 }, y) else none
try_wait hybrid_relay w y = if w.waken_up then some (record w { waken_up = false }, y) else none
try_wait busy_relay w y = if w.waken_up then some (record w { waken_up = false }, y) else none
try_wait null_policy w y = if w.is_runnable && not y then some (w, true) else none
try_wait other_relay w y = some (w, y)

-- A run queue: its threads from the head on, and `num_yield_elem`.
pub record Line : Type 0 where
  pub items : List ℕ
  pub num_yield : ℕ

pub record Sched : Type 0 where
  pub opts : Options
  pub tids : TidMap
  pub turn_count : ℕ
  pub runq : Line
  pub hp_runq : Line
  pub known : ℕ → Bool
  pub hp_known : ℕ → Bool
  pub status : ℕ → Status
  pub last_yield : ℕ → Bool
  pub waitq : List ℕ
  pub slots : ℕ → Slot
  pub non_det : NonDetSet
  pub wakeup_tids : List ℕ
  pub wakeup_flag : Bool
  pub in_sync : Bool
  pub idle_done : Bool
  pub n_non_det_wait : ℕ

-- The argument `strategy` of `putTurn` and `next`.
pub data Strategy : Type 0 where
  default_strategy current_thread current_role yield_strategy create_strategy : Strategy
