-- ===== src/Runtime/State.antt =====
-- The runtime's state: the scheduler, the synchronisation objects, the maps of waiters, and the
-- `__thread` variables of every thread.
--
-- An object is known by its address. A mutex is whether it is locked, a semaphore its count, as
-- POSIX has them; to lock a mutex means the same for every type of mutex here, and what it means to
-- unlock one is a parameter. The maps `cond_map` and `sem_map` give 0 for a missing key.
use min_smt.Prelude.{ℕ, Bool, Option, List}
use min_smt.Prelude.Int.{ℤ}
use min_smt.Sched.{Sched}

-- The options that the runtime reads beside the scheduler's. `cs_policy` and `wait_policy` are the
-- bits 0x01 and 0x02 of `scheduling_policy`.
pub record RtOptions : Type 0 where
  pub cs_policy : Bool
  pub wait_policy : Bool
  pub high_priority_yield : Bool
  pub enforce_next_n_annotations : Bool
  pub nanosec_per_turn : ℕ

-- `Addr_n_role`.
abbrev pub AddrRole : Type 0
AddrRole = ℕ × ℕ

-- `struct timespec`.
pub record Timespec : Type 0 where
  pub tv_sec : ℤ
  pub tv_nsec : ℤ

-- The `__thread` variables. `satisfying_role` is the address of an `Addr_n_role`.
pub record Local : Type 0 where
  pub in_cs_level : ℕ
  pub slock_n_turns : ℤ
  pub no_cs_whole_local : Bool
  pub satisfying_cv : Option ℕ
  pub satisfying_sem : Option ℕ
  pub satisfying_role : Option ℕ
  pub yield_this : Bool
  pub in_non_det : Bool
  pub in_no_wait_non_det : Bool
  pub process_proposed_role : Bool
  pub base_time : Timespec

-- `barrier_t`.
pub record BarrierState : Type 0 where
  pub count : ℕ
  pub narrived : ℕ

-- `ref_cnt_barrier_t`; `arriving` is its phase, and `addr` where it stands.
pub record Lineup : Type 0 where
  pub size : ℕ
  pub nactive : ℕ
  pub timeout : ℕ
  pub arriving : Bool
  pub addr : ℕ

-- A read-write lock: how many hold it for reading, or that one holds it for writing.
pub data RwLock : Type 0 where
  readers : ℕ → RwLock
  written : RwLock

-- `role_at` holds the `Addr_n_role` objects by their addresses, of which `next_role` is fresh.
pub record Rt : Type 0 where
  pub opts : RtOptions
  pub sched : Sched
  pub locked : ℕ → Bool
  pub sems : ℕ → ℕ
  pub rwlocks : ℕ → RwLock
  pub barriers : ℕ → Option BarrierState
  pub lineups : ℕ → Option Lineup
  pub cond_map : ℕ → ℤ
  pub sem_map : ℕ → ℤ
  pub blocked_line : ℕ → Option ℕ
  pub blocked_count : List (AddrRole × ℤ)
  pub role_at : ℕ → AddrRole
  pub next_role : ℕ
  pub proposed_role : List (ℕ × ℕ)
  pub dmt_lock_holder : Option ℕ
  pub locals : ℕ → Local

-- How far an operation has come: it has returned, it waits for the turn and goes on then, or it
-- stands in a non-deterministic region and is the plain pthread call.
pub data Progress : Type 0 where
  returned : ℤ → Progress
  waiting : Progress
  outside : Progress
