-- ===== src/Examples/Sems.antt =====
-- Calls of the semaphore wrappers by a thread that has the turn.
use min_smt.Prelude.{ℕ, ◌≡◌, refl, [], ◌∷◌, arith, ok, err, update, Result, ◌==◌, if◌then◌else◌}
use min_smt.Prelude.Int.{pos, ◌-ℤ◌, lt_ℤ}
use min_smt.Sched.Wakeups
use min_smt.Sched.Next
use min_smt.Sched.Turn
use min_smt.Runtime.State.{Rt, Progress, returned, waiting}
use min_smt.Runtime.Finish.{finish, put_turn_strategy}
use min_smt.Runtime.Sem.{sem_wait, sem_post, sem_posted}
use min_smt.Runtime.Sems.{Down, sem_wait-Down}
use min_smt.Runtime.Passing.{Passes, Passed, raised, sem_post-Passed}
use min_smt.Sched.Setup.{new_slot}
use min_smt.Examples.Turns.{three_threads}
use min_smt.Examples.Times.{timed_out}

-- The semaphore 800 has the value 2, all others 0.
abbrev two_at_800 : Rt
two_at_800 = record timed_out { sems = λ m. if m == 800 then 2 else 0 }

abbrev result : Result (Progress × Rt) → Progress × Rt
result (ok r) = r
result (err e) = (waiting, timed_out)

takes : sem_wait 0 800 two_at_800 ≡ ok (result (sem_wait 0 800 two_at_800))
unfolding sem_wait finish Wakeups.inc_turn_count Turn.put_turn Next.next_runnable Next.one_round
takes = refl

sem_wait-Down_example : Down 800 two_at_800.sems (result (sem_wait 0 800 two_at_800))
sem_wait-Down_example = sem_wait-Down 0 800 two_at_800 (result (sem_wait 0 800 two_at_800)) takes

-- Thread 2 waits for the semaphore 800, whose value is 0.
abbrev one_waits : Rt
one_waits = record timed_out {
  sched = record three_threads {
    runq = record { items = 0 ∷ 1 ∷ []; num_yield = 0 };
    waitq = 2 ∷ [];
    slots = λ t. record new_slot { chan = 800 };
  };
  sem_map = λ m. if m == 800 then pos 1 else pos 0;
}

one_waits-Passes : Passes 800 0 (1 ∷ []) (1 ∷ []) 2 (0 ∷ []) one_waits.sched
one_waits-Passes = record {
  turn = record {
    plain = record { relayed = refl; no_hp = refl; no_bound = refl; no_regions = refl };
    at_front = refl;
    running = refl;
    element = refl;
    not_hp = refl;
    id = ground arith;
    no_wakeups = refl;
  };
  named = ground arith;
  distinct = ground arith;
  all_known = ground arith;
  not_waiting = refl;
  patient = (refl, tt);
  in_line = refl;
  blocked = (refl, tt);
  free = refl;
  id = ground arith;
}

sem_post-Passed_example :
    (rt' : Rt) × (sem_post 0 800 one_waits ≡ ok (returned (pos 0), rt'))
    × ((a : ℕ) → rt'.sems a ≡ update one_waits.sems 800 (raised (one_waits.sems 800)) a)
    × (rt'.sem_map 800 ≡ (
        if lt_ℤ (pos 0) (one_waits.sem_map 800)
        then one_waits.sem_map 800 -ℤ pos 1
        else one_waits.sem_map 800))
    × Passed 800 0 2 (0 ∷ []) one_waits.sched rt'.sched
unfolding put_turn_strategy sem_posted
sem_post-Passed_example =
    sem_post-Passed 0 800 one_waits (1 ∷ []) (1 ∷ []) 2 (0 ∷ []) refl refl one_waits-Passes refl
      refl
