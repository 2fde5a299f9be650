-- ===== src/Runtime/Mutex.antt =====
-- The mutex wrappers of lib/runtime/record-runtime.cpp. An operation that may wait is two functions:
-- up to its first wait, and `…_continue` from the turn's return on, for each further wait.
use min_smt.Prelude.{
  ℕ, ◌+◌, ◌-◌, ◌%◌, ◌≡◌, refl, Bool, true, false, not, ◌&&◌, Option, none, some, ltb, ◌==◌,
  if◌then◌else◌, update, Result, ok, assert, ◌>>=◌, ◌>>◌,
}
use min_smt.Prelude.Int.{ℤ, pos, lt_ℤ, is_zero}
use min_smt.Sched.{WakeReason, signaled, timedout, forever, etimedout, uint_mod}
use min_smt.Sched.Turn.{wait_result}
use min_smt.Sched.Wakeups.{get_turn_count}
use min_smt.Runtime.State.{Rt, Local, Progress, waiting, outside, Timespec}
use min_smt.Runtime.Finish.{begin, finish, sync_wait, sync_signal, set_local, bypassed}
use min_smt.Runtime.Time.{time_diff, rel_time_to_turn}

abbrev pub ebusy : ℕ
ebusy = 16

-- The `int` that `wait` returns for a reason.
abbrev pub reason_code : WakeReason → ℕ
reason_code signaled = 0
reason_code timedout = 1

-- How a round of `pthreadMutexLockHelper` ends.
pub data Attempt : Type 0 where
  acquired waits expired : Attempt

-- `pthread_mutex_trylock`.
unfoldable pub real_trylock : ℕ → Rt → Bool × Rt
real_trylock mu rt =
    if rt.locked mu then (false, rt) else (true, record rt { locked = update rt.locked mu true })

-- A round of `pthreadMutexLockHelper`: try the lock, or wait on it.
unfoldable pub lock_round : (me mu timeout : ℕ) → Rt → Result (Attempt × Rt)
unfolding real_trylock
lock_round me mu timeout rt =
    let (got, rt1) = real_trylock mu rt in
    if got then ok (acquired, rt1) else (do (p, rt2) ← sync_wait me mu timeout rt1; ok (waits, rt2))

-- The helper from the return of `syncWait` on.
unfoldable pub lock_resumed : (me mu timeout : ℕ) → Rt → Result (Attempt × Rt)
unfolding lock_round wait_result
lock_resumed me mu timeout rt =
    if reason_code (wait_result me rt.sched) == etimedout
    then ok (expired, rt)
    else lock_round me mu timeout rt

-- `pthreadMutexLock` behind the helper, whose result it does not look at.
unfoldable pub locked_end : (me : ℕ) → Attempt × Rt → Result (Progress × Rt)
unfolding set_local
locked_end me (waits, rt) = ok (waiting, rt)
locked_end me (a, rt) =
    let l = rt.locals me in
    finish false me (pos 0) (
      if rt.opts.cs_policy && not l.no_cs_whole_local
      then set_local me (record l { in_cs_level = l.in_cs_level + 1 }) rt
      else rt)

unfoldable pub mutex_lock : (me mu : ℕ) → Rt → Result (Progress × Rt)
unfolding lock_round locked_end begin
mutex_lock me mu rt =
    if bypassed me rt
    then ok (outside, rt)
    else do rt1 ← begin me rt; r ← lock_round me mu forever rt1; locked_end me r

unfoldable pub mutex_lock_continue : (me mu : ℕ) → Rt → Result (Progress × Rt)
unfolding lock_resumed locked_end
mutex_lock_continue me mu rt = do r ← lock_resumed me mu forever rt; locked_end me r

-- The time from which a deadline counts: the thread's base time if it has one, or the clock.
abbrev pub base_or_clock : (clock : Timespec) → Local → Timespec
base_or_clock clock l =
    if lt_ℤ l.base_time.tv_sec (pos 0)
    then l.base_time
    else if lt_ℤ (pos 0) l.base_time.tv_sec
    then l.base_time
    else clock

-- The turn at which a wait until `abstime` times out.
unfoldable pub deadline : (clock abstime : Timespec) → (me : ℕ) → Rt → Result ℕ
unfolding get_turn_count time_diff rel_time_to_turn
deadline clock abstime me rt = do
  n ←
      rel_time_to_turn rt.sched.opts.launch_idle_thread rt.opts.nanosec_per_turn
        rt.sched.tids.nthread (some (time_diff (base_or_clock clock (rt.locals me)) abstime))
  ok ((get_turn_count rt.sched + n) % uint_mod)

-- `pthreadMutexTimedLock` behind the helper.
unfoldable pub timed_end : (me : ℕ) → Attempt × Rt → Result (Progress × Rt)
timed_end me (acquired, rt) = finish false me (pos 0) rt
timed_end me (expired, rt) = finish false me (pos etimedout) rt
timed_end me (waits, rt) = ok (waiting, rt)

-- `pthreadMutexTimedLock`; `none` is a NULL `abstime`. The relative time is taken before the turn.
unfoldable pub mutex_timed_lock :
    (clock : Timespec) → (me mu : ℕ) → Option Timespec → Rt → Result (Progress × Rt)
unfolding mutex_lock deadline lock_round timed_end begin
mutex_timed_lock clock me mu none rt = mutex_lock me mu rt
mutex_timed_lock clock me mu (some abstime) rt = if bypassed me rt then ok (outside, rt) else do
  rt1 ← begin me rt
  timeout ← deadline clock abstime me rt1
  r ← lock_round me mu timeout rt1
  timed_end me r

unfoldable pub mutex_timed_lock_continue : (me mu timeout : ℕ) → Rt → Result (Progress × Rt)
unfolding lock_resumed timed_end
mutex_timed_lock_continue me mu timeout rt = do r ← lock_resumed me mu timeout rt; timed_end me r

unfoldable pub mutex_trylock : (me mu : ℕ) → Rt → Result (Progress × Rt)
unfolding real_trylock begin
mutex_trylock me mu rt = if bypassed me rt then ok (outside, rt) else do
  rt1 ← begin me rt
  let (got, rt2) = real_trylock mu rt1
  finish false me (if got then pos 0 else pos ebusy) rt2

-- What `pthread_mutex_unlock` of the C library does, which the type of the mutex decides: its result,
-- and the locks after it, for a call by a thread on a mutex, with the locks before it.
abbrev pub UnlockCall : Type 0
UnlockCall = (me mu : ℕ) → (ℕ → Bool) → ℤ × (ℕ → Bool)

-- `inCSLevel--`.
unfoldable pub leave_section : (cs_policy : Bool) → Local → Local
leave_section cs l =
    if cs && ltb 0 l.in_cs_level && not l.no_cs_whole_local
    then record l { in_cs_level = l.in_cs_level - 1 }
    else l

-- `pthreadMutexUnlock`, over the real call `unlock`.
unfoldable pub mutex_unlock : UnlockCall → (me mu : ℕ) → Rt → Result (Progress × Rt)
unfolding begin set_local sync_signal leave_section
mutex_unlock unlock me mu rt = if bypassed me rt then ok (outside, rt) else do
  rt1 ← begin me rt
  let (ret, locked) = unlock me mu rt1.locked
  assert rt1.sched.opts.ndebug (is_zero ret)
  let rt2 = record rt1 { locked = locked }
  let rt3 = set_local me (leave_section rt2.opts.cs_policy (rt2.locals me)) rt2
  rt4 ← sync_signal me mu false rt3
  finish false me ret rt4

-- `pthreadMutexInit` and `pthreadMutexDestroy`, where the real calls succeed.
unfoldable pub mutex_init : (me mu : ℕ) → Rt → Result (Progress × Rt)
unfolding begin
mutex_init me mu rt = if bypassed me rt then ok (outside, rt) else do
  rt1 ← begin me rt
  finish false me (pos 0) (record rt1 { locked = update rt1.locked mu false })

unfoldable pub mutex_destroy : (me mu : ℕ) → Rt → Result (Progress × Rt)
unfolding begin
mutex_destroy me mu rt =
    if bypassed me rt then ok (outside, rt) else do rt1 ← begin me rt; finish false me (pos 0) rt1

-- A timed lock never gives up: whatever ended the wait, a timeout included, the helper tries the
-- lock again, since the reason that `wait` returns is never ETIMEDOUT.
pub lock_resumed-never_expires :
    (me mu timeout : ℕ) (rt : Rt) → lock_resumed me mu timeout rt ≡ lock_round me mu timeout rt
unfolding lock_resumed
lock_resumed-never_expires me mu timeout rt = by_reason (wait_result me rt.sched)
  where
    by_reason :
        (r : WakeReason)
        → (if reason_code r == etimedout then ok (expired, rt) else lock_round me mu timeout rt)
          ≡ lock_round me mu timeout rt
    by_reason signaled = refl
    by_reason timedout = refl
