-- ===== src/Examples/Times.antt =====
-- Intervals, and the ends of timed waits.
use min_smt.Prelude.{
  ℕ, ◌+◌, ◌*◌, ◌<◌, ◌≤◌, ◌≡◌, ◌≢◌, ◌⊎◌, refl, true, false, none, some, [], ◌∷◌, arith, Result, ok,
  err, ◌==◌, if◌then◌else◌,
}
use min_smt.Prelude.Int.{pos, negsuc, ◌-ℤ◌, ◌+ℤ◌, scale, to_u64}
use min_smt.RunQueue.{runnable, running_reg}
use min_smt.TidMap.{cleared}
use min_smt.Sched.{Sched, etimedout, timedout}
use min_smt.Sched.Setup.{blank, new_slot}
use min_smt.Examples.Turns.{plain}
use min_smt.Runtime.Mutex.{reason_code}
use min_smt.Runtime.Cond.{cond_timed_wait_continue}
use min_smt.Runtime.CondCodes.{cond_timed_wait-code}
use min_smt.Sched.Wakeups
use min_smt.Sched.Next
use min_smt.Sched.Turn
use min_smt.Runtime.Finish.{finish}
use min_smt.Sched.Turn.{wait_result}
use min_smt.Runtime.State.{readers, Timespec, Rt, Local, Progress, returned}
use min_smt.Runtime.Time.{
  time_diff, nanos, giga, rel_time_to_turn, max_rel, time_diff-nanos, rel_time_to_turn-bounds,
  rel_time_to_turn-negative,
}

abbrev pub before : Timespec
before = record { tv_sec = pos 3; tv_nsec = pos 900000000 }

abbrev pub after : Timespec
after = record { tv_sec = pos 5; tv_nsec = pos 200000000 }

time_diff-nanos_example :
    ((k : ℕ) × ((time_diff before after).tv_nsec ≡ pos k) × (k < giga))
    × (nanos (time_diff before after) ≡ nanos after -ℤ nanos before)
time_diff-nanos_example =
    time_diff-nanos before after 900000000 200000000 refl refl (ground arith) (ground arith)

-- 1.3 seconds, in turns of a hundred microseconds, with four threads.
one_and_a_bit :
    rel_time_to_turn 1 100000 4 (some (record { tv_sec = pos 1; tv_nsec = pos 300000000 }))
    ≡ ok 13000
unfolding rel_time_to_turn ◌+ℤ◌ scale to_u64
one_and_a_bit = refl

rel_time_to_turn-bounds_example : (5 * 4 + 1 ≤ 13000) × ((13000 ≤ max_rel) ⊎ (13000 ≡ 5 * 4 + 1))
rel_time_to_turn-bounds_example =
    rel_time_to_turn-bounds 1 100000 4 (record { tv_sec = pos 1; tv_nsec = pos 300000000 }) 13000
      one_and_a_bit

-- A nanosecond ago.
abbrev just_past : Timespec
just_past = record { tv_sec = negsuc 0; tv_nsec = pos 999999999 }

just_past-nanos : nanos just_past ≡ negsuc 0
unfolding ◌+ℤ◌ scale
just_past-nanos = refl

rel_time_to_turn-negative_example : rel_time_to_turn 1 100000 4 (some just_past) ≡ ok max_rel
rel_time_to_turn-negative_example =
    rel_time_to_turn-negative 1 100000 4 0 just_past (ground arith) (ground arith) (ground arith)
      (ground arith) just_past-nanos (ground arith)

abbrev three_turns : Sched
three_turns = record (blank plain) {
  tids = record cleared { nthread = 2 };
  runq = record { items = 0 ∷ 1 ∷ []; num_yield = 0 };
  known = λ _. true;
  status = λ t. if t == 0 then running_reg else runnable;
  slots = λ t. record new_slot { wake_reason = timedout };
}

abbrev pub no_locals : Local
no_locals = record {
  in_cs_level = 0;
  slock_n_turns = pos 0;
  no_cs_whole_local = false;
  satisfying_cv = none;
  satisfying_sem = none;
  satisfying_role = none;
  yield_this = false;
  in_non_det = false;
  in_no_wait_non_det = false;
  process_proposed_role = false;
  base_time = before;
}

-- Thread 0 has the turn, back from a wait that timed out.
abbrev pub timed_out : Rt
timed_out = record {
  opts = record {
    cs_policy = false;
    wait_policy = false;
    high_priority_yield = false;
    enforce_next_n_annotations = false;
    nanosec_per_turn = 100000;
  };
  sched = three_turns;
  locked = λ _. false;
  sems = λ _. 0;
  rwlocks = λ _. readers 0;
  barriers = λ _. none;
  lineups = λ _. none;
  cond_map = λ _. pos 1;
  sem_map = λ _. pos 0;
  blocked_line = λ _. none;
  blocked_count = [];
  role_at = λ _. (0, 0);
  next_role = 1;
  proposed_role = [];
  dmt_lock_holder = none;
  locals = λ _. no_locals;
}

abbrev reached : Result (Progress × Rt) → Rt
reached (ok (p, rt)) = rt
reached (err e) = timed_out

wait_over :
    cond_timed_wait_continue 0 500 600 0 timed_out
    ≡ ok (returned (pos 1), reached (cond_timed_wait_continue 0 500 600 0 timed_out))
unfolding cond_timed_wait_continue finish Wakeups.inc_turn_count Turn.put_turn Next.next_runnable
    Next.one_round
wait_over = refl

cond_timed_wait-code_example :
    (pos 1 ≡ pos (reason_code (wait_result 0 timed_out.sched))) × (pos 1 ≢ pos etimedout)
cond_timed_wait-code_example =
    cond_timed_wait-code 0 500 600 0 timed_out
      (reached (cond_timed_wait_continue 0 500 600 0 timed_out)) (pos 1) wait_over
