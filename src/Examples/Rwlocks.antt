-- ===== src/Examples/Rwlocks.antt =====
-- Calls of the wrappers of read-write locks by a thread that has the turn.
use min_smt.Prelude.{◌≡◌, refl, ok, err, Result, ◌==◌, if◌then◌else◌}
use min_smt.Prelude.Int.{pos}
use min_smt.Sched.Wakeups
use min_smt.Sched.Next
use min_smt.Sched.Turn
use min_smt.Runtime.State.{Rt, readers, written, Progress, returned, waiting}
use min_smt.Runtime.Finish.{begin, finish}
use min_smt.Runtime.Mutex.{ebusy}
use min_smt.Runtime.RwLock.{is_free, rwlock_wrlock, rwlock_tryrdlock}
use min_smt.Runtime.Sharing.{Locked, rwlock_wrlock-Locked, rwlock_tryrdlock-refuses}
use min_smt.Examples.Times.{timed_out}

-- Two threads hold the lock 900 for reading; all other locks are free.
abbrev read_by_two : Rt
read_by_two = record timed_out { rwlocks = λ m. if m == 900 then readers 2 else readers 0 }

abbrev result : Result (Progress × Rt) → Progress × Rt
result (ok r) = r
result (err e) = (waiting, timed_out)

writes : rwlock_wrlock 0 901 read_by_two ≡ ok (result (rwlock_wrlock 0 901 read_by_two))
unfolding rwlock_wrlock finish Wakeups.inc_turn_count Turn.put_turn Next.next_runnable
    Next.one_round
writes = refl

rwlock_wrlock-Locked_example :
    Locked is_free written 901 read_by_two.rwlocks (result (rwlock_wrlock 0 901 read_by_two))
rwlock_wrlock-Locked_example =
    rwlock_wrlock-Locked 0 901 read_by_two (result (rwlock_wrlock 0 901 read_by_two)) writes

abbrev after_try : Rt
after_try = (result (rwlock_tryrdlock 0 900 read_by_two)).1

tries : rwlock_tryrdlock 0 900 read_by_two ≡ ok (returned (pos ebusy), after_try)
unfolding rwlock_tryrdlock begin finish Wakeups.inc_turn_count Turn.put_turn Next.next_runnable
    Next.one_round
tries = refl

rwlock_tryrdlock-refuses_example :
    (pos ebusy ≡ pos ebusy) × (after_try.rwlocks ≡ read_by_two.rwlocks)
rwlock_tryrdlock-refuses_example =
    rwlock_tryrdlock-refuses 0 900 1 read_by_two after_try (pos ebusy) refl tries
