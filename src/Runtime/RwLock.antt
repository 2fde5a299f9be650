-- ===== src/Runtime/RwLock.antt =====
-- The wrappers of read-write locks of lib/runtime/record-runtime.cpp, in parts as Mutex has them.
use min_smt.Prelude.{ℕ, ◌+◌, ◌-◌, Bool, true, false, ◌==◌, if◌then◌else◌, update, Result, ok, ◌>>=◌}
use min_smt.Prelude.Int.{pos}
use min_smt.Sched.{forever, etimedout}
use min_smt.Sched.Turn.{wait_result}
use min_smt.Runtime.State.{Rt, RwLock, readers, written, Progress, waiting, outside}
use min_smt.Runtime.Finish.{begin, finish, sync_wait, sync_signal, bypassed}
use min_smt.Runtime.Mutex.{Attempt, acquired, waits, expired, reason_code, ebusy}

-- The test of `pthread_rwlock_trywrlock`, and of `pthread_rwlock_tryrdlock`.
abbrev pub is_free : RwLock → Bool
is_free (readers n) = n == 0
is_free written = false

abbrev pub is_shared : RwLock → Bool
is_shared (readers n) = true
is_shared written = false

-- The lock with one reader more, and with one holder less.
abbrev pub one_more : RwLock → RwLock
one_more (readers n) = readers (n + 1)
one_more written = written

abbrev pub one_less : RwLock → RwLock
one_less (readers n) = readers (n - 1)
one_less written = readers 0

abbrev pub set_rwlock : ℕ → RwLock → Rt → Rt
set_rwlock lk l rt = record rt { rwlocks = update rt.rwlocks lk l }

-- `pthread_rwlock_trywrlock` and `pthread_rwlock_tryrdlock`.
abbrev pub real_trywrlock : ℕ → Rt → Bool × Rt
real_trywrlock lk rt =
    if is_free (rt.rwlocks lk) then (true, set_rwlock lk written rt) else (false, rt)

abbrev pub real_tryrdlock : ℕ → Rt → Bool × Rt
real_tryrdlock lk rt =
    if is_shared (rt.rwlocks lk)
    then (true, set_rwlock lk (one_more (rt.rwlocks lk)) rt)
    else (false, rt)

-- A round of `pthreadRWLockWrLockHelper`, and of `pthreadRWLockRdLockHelper`.
unfoldable pub wrlock_round : (me lk timeout : ℕ) → Rt → Result (Attempt × Rt)
wrlock_round me lk timeout rt =
    let (got, rt1) = real_trywrlock lk rt in
    if got then ok (acquired, rt1) else (do (p, rt2) ← sync_wait me lk timeout rt1; ok (waits, rt2))

unfoldable pub rdlock_round : (me lk timeout : ℕ) → Rt → Result (Attempt × Rt)
rdlock_round me lk timeout rt =
    let (got, rt1) = real_tryrdlock lk rt in
    if got then ok (acquired, rt1) else (do (p, rt2) ← sync_wait me lk timeout rt1; ok (waits, rt2))

-- The helpers from the return of `syncWait` on.
unfoldable pub wrlock_resumed : (me lk timeout : ℕ) → Rt → Result (Attempt × Rt)
unfolding wrlock_round wait_result
wrlock_resumed me lk timeout rt =
    if reason_code (wait_result me rt.sched) == etimedout
    then ok (expired, rt)
    else wrlock_round me lk timeout rt

unfoldable pub rdlock_resumed : (me lk timeout : ℕ) → Rt → Result (Attempt × Rt)
unfolding rdlock_round wait_result
rdlock_resumed me lk timeout rt =
    if reason_code (wait_result me rt.sched) == etimedout
    then ok (expired, rt)
    else rdlock_round me lk timeout rt

-- The wrappers behind the helper, whose result they do not look at.
unfoldable pub rw_end : (me : ℕ) → Attempt × Rt → Result (Progress × Rt)
rw_end me (waits, rt) = ok (waiting, rt)
rw_end me (a, rt) = finish false me (pos 0) rt

unfoldable pub rwlock_rdlock : (me lk : ℕ) → Rt → Result (Progress × Rt)
unfolding begin rdlock_round rw_end
rwlock_rdlock me lk rt =
    if bypassed me rt
    then ok (outside, rt)
    else do rt1 ← begin me rt; r ← rdlock_round me lk forever rt1; rw_end me r

unfoldable pub rwlock_rdlock_continue : (me lk : ℕ) → Rt → Result (Progress × Rt)
unfolding rdlock_resumed rw_end
rwlock_rdlock_continue me lk rt = do r ← rdlock_resumed me lk forever rt; rw_end me r

unfoldable pub rwlock_wrlock : (me lk : ℕ) → Rt → Result (Progress × Rt)
unfolding begin wrlock_round rw_end
rwlock_wrlock me lk rt =
    if bypassed me rt
    then ok (outside, rt)
    else do rt1 ← begin me rt; r ← wrlock_round me lk forever rt1; rw_end me r

unfoldable pub rwlock_wrlock_continue : (me lk : ℕ) → Rt → Result (Progress × Rt)
unfolding wrlock_resumed rw_end
rwlock_wrlock_continue me lk rt = do r ← wrlock_resumed me lk forever rt; rw_end me r

-- The call for reading tries to lock for writing, as its FIXME says.
unfoldable pub rwlock_tryrdlock : (me lk : ℕ) → Rt → Result (Progress × Rt)
unfolding begin
rwlock_tryrdlock me lk rt = if bypassed me rt then ok (outside, rt) else do
  rt1 ← begin me rt
  let (got, rt2) = real_trywrlock lk rt1
  finish false me (if got then pos 0 else pos ebusy) rt2

unfoldable pub rwlock_trywrlock : (me lk : ℕ) → Rt → Result (Progress × Rt)
unfolding begin
rwlock_trywrlock me lk rt = if bypassed me rt then ok (outside, rt) else do
  rt1 ← begin me rt
  let (got, rt2) = real_trywrlock lk rt1
  finish false me (if got then pos 0 else pos ebusy) rt2

-- The real unlock, by a holder, succeeds.
unfoldable pub rwlock_unlock : (me lk : ℕ) → Rt → Result (Progress × Rt)
unfolding begin sync_signal
rwlock_unlock me lk rt = if bypassed me rt then ok (outside, rt) else do
  rt1 ← begin me rt
  rt2 ← sync_signal me lk false (set_rwlock lk (one_less (rt1.rwlocks lk)) rt1)
  finish false me (pos 0) rt2

-- Where the real calls succeed.
unfoldable pub rwlock_init : (me lk : ℕ) → Rt → Result (Progress × Rt)
unfolding begin
rwlock_init me lk rt =
    if bypassed me rt
    then ok (outside, rt)
    else do rt1 ← begin me rt; finish false me (pos 0) (set_rwlock lk (readers 0) rt1)

unfoldable pub rwlock_destroy : (me lk : ℕ) → Rt → Result (Progress × Rt)
unfolding begin
rwlock_destroy me lk rt =
    if bypassed me rt then ok (outside, rt) else do rt1 ← begin me rt; finish false me (pos 0) rt1
