-- ===== src/Runtime/Sem.antt =====
-- The semaphore wrappers of lib/runtime/record-runtime.cpp, in parts as Mutex has them.
use min_smt.Prelude.{
  ℕ, ◌+◌, ◌-◌, ◌^◌, Bool, true, false, ◌&&◌, Option, none, some, ltb, ◌==◌, if◌then◌else◌, update,
  Result, ok, assert, ◌>>=◌, ◌>>◌,
}
use min_smt.Prelude.Int.{ℤ, pos, negsuc, is_zero, lt_ℤ, ◌+ℤ◌, ◌-ℤ◌}
use min_smt.Sched.{forever, etimedout}
use min_smt.Sched.Turn.{wait_result}
use min_smt.Runtime.State.{Rt, Progress, waiting, outside, Timespec}
use min_smt.Runtime.Finish.{begin, finish, sync_wait, sync_signal, set_local, bypassed}
use min_smt.Runtime.Mutex.{Attempt, acquired, waits, expired, reason_code, deadline}

-- `sem_trywait`.
unfoldable pub real_trywait : ℕ → Rt → Bool × Rt
real_trywait sem rt =
    if ltb 0 (rt.sems sem)
    then (true, record rt { sems = update rt.sems sem (rt.sems sem - 1) })
    else (false, rt)

-- `sem_map[sem] += 1`, and its inverse.
abbrev pub count_sem_up : ℕ → Rt → Rt
count_sem_up sem rt = record rt { sem_map = update rt.sem_map sem (rt.sem_map sem +ℤ pos 1) }

abbrev pub count_sem_down : ℕ → Rt → Rt
count_sem_down sem rt = record rt { sem_map = update rt.sem_map sem (rt.sem_map sem -ℤ pos 1) }

-- A round of the loops of `semWait` and `semTimedWait`. The statement `satisfyingSem == NULL;`
-- there compares and changes nothing.
unfoldable pub sem_round : (me sem timeout : ℕ) → Rt → Result (Attempt × Rt)
unfolding real_trywait
sem_round me sem timeout rt =
    let (got, rt1) = real_trywait sem rt in
    if got
    then ok (acquired, rt1)
    else (do (p, rt2) ← sync_wait me sem timeout (count_sem_up sem rt1); ok (waits, rt2))

unfoldable pub sem_end : (me : ℕ) → Attempt × Rt → Result (Progress × Rt)
sem_end me (acquired, rt) = finish false me (pos 0) rt
sem_end me (expired, rt) = finish false me (negsuc 0) rt
sem_end me (waits, rt) = ok (waiting, rt)

unfoldable pub sem_wait : (me sem : ℕ) → Rt → Result (Progress × Rt)
unfolding sem_round sem_end begin
sem_wait me sem rt =
    if bypassed me rt
    then ok (outside, rt)
    else do rt1 ← begin me rt; r ← sem_round me sem forever rt1; sem_end me r

-- `semWait` from the return of `syncWait` on, whose result it does not look at.
unfoldable pub sem_wait_continue : (me sem : ℕ) → Rt → Result (Progress × Rt)
unfolding sem_round sem_end
sem_wait_continue me sem rt = do r ← sem_round me sem forever rt; sem_end me r

unfoldable pub sem_try_wait : (me sem : ℕ) → Rt → Result (Progress × Rt)
unfolding real_trywait begin
sem_try_wait me sem rt = if bypassed me rt then ok (outside, rt) else do
  rt1 ← begin me rt
  let (got, rt2) = real_trywait sem rt1
  finish false me (if got then pos 0 else negsuc 0) rt2

unfoldable pub sem_timed_wait :
    (clock : Timespec) → (me sem : ℕ) → Option Timespec → Rt → Result (Progress × Rt)
unfolding sem_wait deadline sem_round sem_end begin
sem_timed_wait clock me sem none rt = sem_wait me sem rt
sem_timed_wait clock me sem (some abstime) rt = if bypassed me rt then ok (outside, rt) else do
  rt1 ← begin me rt
  timeout ← deadline clock abstime me rt1
  r ← sem_round me sem timeout rt1
  sem_end me r

unfoldable pub sem_timed_wait_continue : (me sem timeout : ℕ) → Rt → Result (Progress × Rt)
unfolding sem_round sem_end wait_result
sem_timed_wait_continue me sem timeout rt = do
  r ←
      (if reason_code (wait_result me rt.sched) == etimedout
        then ok (expired, count_sem_down sem rt)
        else sem_round me sem timeout rt)
  sem_end me r

-- `semPost` behind `syncSignal`: one waiter less, and the thread holds on to the turn while more
-- wait.
unfoldable pub sem_posted : (me sem : ℕ) → Rt → Rt
unfolding set_local
sem_posted me sem rt =
    let rt1 = (if lt_ℤ (pos 0) (rt.sem_map sem) then count_sem_down sem rt else rt) in
    if rt1.opts.wait_policy && lt_ℤ (pos 0) (rt1.sem_map sem)
    then set_local me (record (rt1.locals me) { satisfying_sem = some sem }) rt1
    else rt1

-- `SEM_VALUE_MAX` of the C library.
abbrev pub sem_value_max : ℕ
sem_value_max = 2 ^ 31 - 1

-- `sem_post`, which fails once the value is the greatest one.
unfoldable pub real_post : ℕ → Rt → ℤ × Rt
real_post sem rt =
    if ltb (rt.sems sem) sem_value_max
    then (pos 0, record rt { sems = update rt.sems sem (rt.sems sem + 1) })
    else (negsuc 0, rt)

-- `semPost`, which returns 0 whatever the real call returned.
unfoldable pub sem_post : (me sem : ℕ) → Rt → Result (Progress × Rt)
unfolding real_post sem_posted sync_signal begin
sem_post me sem rt = if bypassed me rt then ok (outside, rt) else do
  rt1 ← begin me rt
  let (ret, rt2) = real_post sem rt1
  assert rt2.sched.opts.ndebug (is_zero ret)
  rt3 ← sync_signal me sem false rt2
  finish false me (pos 0) (sem_posted me sem rt3)

unfoldable pub sem_init : (me sem value : ℕ) → Rt → Result (Progress × Rt)
unfolding begin
sem_init me sem value rt = if bypassed me rt then ok (outside, rt) else do
  rt1 ← begin me rt
  finish false me (pos 0) (record rt1 { sems = update rt1.sems sem value })
