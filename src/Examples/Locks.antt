-- ===== src/Examples/Locks.antt =====
-- Calls of the wrappers by a thread that has the turn.
use min_smt.Prelude.{
  ℕ, ◌≡◌, refl, true, false, none, some, [], ◌∷◌, arith, has, ◌==◌, ◌||◌, if◌then◌else◌, Result, ok,
  err, update,
}
use min_smt.Prelude.Int.{pos}
use min_smt.Sched.Wakeups
use min_smt.RunQueue.{running_reg}
use min_smt.Sched.{post}
use min_smt.Sched.Next
use min_smt.Sched.Next.{is_runnable}
use min_smt.Sched.Turn
use min_smt.Sched.Turn.{put_turn}
use min_smt.Sched.Setup.{new_slot}
use min_smt.Sched.RoundRobin.{HasTurn}
use min_smt.Sched.Fifo.{taken, waits_on, signaled_slots}
use min_smt.Runtime.State.{Rt, Progress, returned, waiting}
use min_smt.Runtime.Finish.{put_turn_strategy, finish}
use min_smt.Runtime.Mutex.{UnlockCall, leave_section, mutex_lock, mutex_lock_continue, mutex_unlock}
use min_smt.Runtime.Barrier.{arrive}
use min_smt.Runtime.Release.{arrive-releases}
use min_smt.Runtime.Locks.{Outcome, mutex_lock-Outcome}
use min_smt.Runtime.Passing.{Passes, Passed, mutex_unlock-Passed}
use min_smt.Examples.Turns.{three_threads}
use min_smt.Examples.Times.{timed_out}

-- Threads 1 and 2 wait at the barrier 40, which three threads share; thread 1 is blocked outside.
abbrev two_at_barrier : Rt
two_at_barrier = record timed_out {
  sched = record three_threads {
    runq = record { items = 0 ∷ []; num_yield = 0 };
    waitq = 1 ∷ 2 ∷ [];
    slots = λ t. record new_slot { chan = 40 };
  };
  barriers = update (λ _. none) 40 (some (record { count = 3; narrived = 2 }));
}

two_at_barrier-HasTurn : HasTurn two_at_barrier.sched 0 []
two_at_barrier-HasTurn = record {
  plain = record { relayed = refl; no_hp = refl; no_bound = refl; no_regions = refl };
  at_front = refl;
  running = refl;
  element = refl;
  not_hp = refl;
  id = ground arith;
  no_wakeups = refl;
}

arrive-releases_example :
    (rt' : Rt) × (arrive 0 40 (record { count = 3; narrived = 2 }) two_at_barrier
      ≡ ok (waiting, rt'))
    × (rt'.barriers 40 ≡ some (record { count = 3; narrived = 0 }))
    × (rt'.sched.runq.items ≡ 2 ∷ 0 ∷ [])
    × (rt'.sched.status 2 ≡ (
        if is_runnable (two_at_barrier.sched.status 2) || (2 == 0)
        then running_reg
        else two_at_barrier.sched.status 2))
    × (let slots =
          signaled_slots
            (taken 40 true two_at_barrier.sched two_at_barrier.sched.waitq)
            two_at_barrier.sched in
        (a : ℕ)
        → rt'.sched.slots a ≡ update slots 2 (post two_at_barrier.sched.opts.turn_type (slots 2)) a)
    × ((a : ℕ) → has a rt'.sched.waitq ≡ true → waits_on two_at_barrier.sched 40 a ≡ false)
arrive-releases_example =
    arrive-releases 0 40 (record { count = 3; narrived = 2 }) two_at_barrier [] (1 ∷ []) 2 (0 ∷ [])
      two_at_barrier-HasTurn (ground arith) (ground arith) (ground arith) refl refl refl (refl, tt)
      refl (ground arith)

abbrev result : Result (Progress × Rt) → Progress × Rt
result (ok r) = r
result (err e) = (waiting, timed_out)

locks : mutex_lock 0 600 timed_out ≡ ok (result (mutex_lock 0 600 timed_out))
unfolding mutex_lock finish Wakeups.inc_turn_count Turn.put_turn Next.next_runnable Next.one_round
locks = refl

mutex_lock-Outcome_example : Outcome 600 timed_out.locked (result (mutex_lock 0 600 timed_out))
mutex_lock-Outcome_example =
    mutex_lock-Outcome 0 600 timed_out (result (mutex_lock 0 600 timed_out)) locks

locks_now : mutex_lock_continue 0 600 timed_out ≡ ok (result (mutex_lock_continue 0 600 timed_out))
unfolding mutex_lock_continue finish Wakeups.inc_turn_count Turn.put_turn Next.next_runnable
    Next.one_round
locks_now = refl

-- Thread 0 holds the mutex 600; thread 2 waits for it, and thread 1 is blocked outside.
abbrev holds_600 : Rt
holds_600 = record timed_out {
  sched = record three_threads {
    runq = record { items = 0 ∷ 1 ∷ []; num_yield = 0 };
    waitq = 2 ∷ [];
    slots = λ t. record new_slot { chan = 600 };
  };
  locked = λ m. m == 600;
}

holds_600-Passes : Passes 600 0 (1 ∷ []) (1 ∷ []) 2 (0 ∷ []) holds_600.sched
holds_600-Passes = record {
  turn = record {
    plain = record { relayed = refl; no_hp = refl; no_bound = refl; no_regions = refl };
    at_front = refl;
    running = refl;
    element = refl;
    not_hp = refl;
    id = ground arith;
    no_wakeups = refl;
  };
  named = ground arith;
  distinct = ground arith;
  all_known = ground arith;
  not_waiting = refl;
  patient = (refl, tt);
  in_line = refl;
  blocked = (refl, tt);
  free = refl;
  id = ground arith;
}

-- A mutex that checks for errors: to unlock one that is not locked fails with EPERM.
abbrev checked_unlock : UnlockCall
checked_unlock me mu locked = if locked mu then (pos 0, update locked mu false) else (pos 1, locked)

mutex_unlock-Passed_example :
    (rt' : Rt) × (mutex_unlock checked_unlock 0 600 holds_600 ≡ ok (returned (pos 0), rt'))
    × (rt'.locked ≡ update holds_600.locked 600 false)
    × Passed 600 0 2 (0 ∷ []) holds_600.sched rt'.sched
unfolding put_turn_strategy leave_section
mutex_unlock-Passed_example =
    mutex_unlock-Passed checked_unlock 0 600 holds_600 (1 ∷ []) (1 ∷ []) 2 (0 ∷ []) refl refl
      holds_600-Passes refl refl
