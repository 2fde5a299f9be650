-- ===== src/Examples/Turns.antt =====
-- Three threads: thread 0 holds the turn, thread 1 is blocked outside, and thread 2 can run.
use min_smt.Prelude.{
  ℕ, ◌≡◌, refl, true, false, some, [], ◌∷◌, ◌++◌, ◌||◌, arith, has, length, ◌==◌, if◌then◌else◌, ok,
  update,
}
use min_smt.RunQueue.{Status, runnable, running_reg, inter_pro_stop}
use min_smt.TidMap.{cleared}
use min_smt.Sched.{
  Sched, Options, timedout, etimedout, hybrid_relay, default_strategy, post, forever,
}
use min_smt.Sched.Wakeups.{fire_timeouts}
use min_smt.Sched.Signals.{signal}
use min_smt.Sched.Next.{next_runnable, is_runnable}
use min_smt.Sched.Turn.{put_turn}
use min_smt.Sched.Setup.{blank, new_slot}
use min_smt.Sched.Timely.{late, on_time, woken_slot, AllKnown, fire_timeouts-late}
use min_smt.Sched.Fifo.{Woken, signal-Woken}
use min_smt.Sched.RoundRobin.{IsPlain, HasTurn, Chosen, next_runnable-Chosen, put_turn-rotates}

abbrev pub plain : Options
plain = record {
  ndebug = false;
  turn_type = hybrid_relay;
  hp_policy = false;
  wakeamap_plus = false;
  launch_idle_thread = 1;
  enforce_non_det_annotations = false;
  enforce_non_det_clock_bound = false;
  non_det_clock_bound = 0;
  non_det_cv = 5000;
}

abbrev statuses : ℕ → Status
statuses t = if t == 0 then running_reg else if t == 1 then inter_pro_stop else runnable

abbrev pub three_threads : Sched
three_threads = record (blank plain) {
  tids = record cleared { nthread = 3 };
  runq = record { items = 0 ∷ 1 ∷ 2 ∷ []; num_yield = 0 };
  known = λ _. true;
  status = statuses;
}

pub three_threads-IsPlain : IsPlain three_threads
three_threads-IsPlain = record { relayed = refl; no_hp = refl; no_bound = refl; no_regions = refl }

pub three_threads-HasTurn : HasTurn three_threads 0 (1 ∷ 2 ∷ [])
three_threads-HasTurn = record {
  plain = three_threads-IsPlain;
  at_front = refl;
  running = refl;
  element = refl;
  not_hp = refl;
  id = ground arith;
  no_wakeups = refl;
}

put_turn-rotates_example :
    (s' : Sched) × (put_turn 0 70 false default_strategy three_threads ≡ ok (some 2, s'))
    × (s'.runq.items ≡ 2 ∷ 0 ∷ [])
    × (s'.status 2 ≡ (
        if is_runnable (three_threads.status 2) || (2 == 0)
        then running_reg
        else three_threads.status 2))
    × (s'.slots
        ≡ update three_threads.slots 2 (post three_threads.opts.turn_type (three_threads.slots 2)))
    × (s'.waitq ≡ three_threads.waitq)
put_turn-rotates_example =
    put_turn-rotates 0 70 (1 ∷ 2 ∷ []) (1 ∷ []) 2 (0 ∷ []) three_threads three_threads-HasTurn refl
      (refl, tt) refl (ground arith)

-- The same threads once thread 0 has left the queue.
abbrev two_left : Sched
two_left = record three_threads { runq = record { items = 1 ∷ 2 ∷ []; num_yield = 0 } }

next_runnable-Chosen_example :
    (s' : Sched) × (next_runnable 4 0 false default_strategy two_left ≡ ok (some 2, s'))
    × Chosen two_left 2 [] s'
next_runnable-Chosen_example =
    next_runnable-Chosen 0 false default_strategy refl 4 two_left (1 ∷ []) 2 []
      (record { relayed = refl; no_hp = refl; no_bound = refl; no_regions = refl }) refl (refl, tt)
      refl (ground arith)

-- Threads 1 and 2 wait, on the channels 40 and 41; thread 2 waits until turn 6, and it is turn 9.
abbrev two_wait : Sched
two_wait = record three_threads {
  turn_count = 9;
  runq = record { items = 0 ∷ []; num_yield = 0 };
  waitq = 1 ∷ 2 ∷ [];
  slots = λ t. record new_slot {
    chan = if t == 1 then 40 else 41;
    timeout = if t == 2 then 6 else forever;
  };
}

two_wait-AllKnown : AllKnown two_wait (1 ∷ 2 ∷ [])
two_wait-AllKnown = ground arith

fire_timeouts-late_example :
    (s' : Sched) × (fire_timeouts two_wait ≡ ok (length (late two_wait), s'))
    × (s'.waitq ≡ on_time two_wait)
    × (s'.runq.items ≡ two_wait.runq.items ++ late two_wait)
    × ((a : ℕ)
        → s'.slots a ≡ (
            if has a (late two_wait)
            then woken_slot timedout etimedout (two_wait.slots a)
            else two_wait.slots a))
    × (s' ≡ record two_wait {
      runq = record (two_wait.runq) { items = s'.runq.items };
      slots = s'.slots;
      waitq = s'.waitq;
    })
fire_timeouts-late_example = fire_timeouts-late two_wait refl refl (ground arith) two_wait-AllKnown

signal-Woken_example :
    (s' : Sched) × (signal 0 41 false two_wait ≡ ok s') × Woken 41 false two_wait s'
signal-Woken_example =
    signal-Woken 0 41 [] false two_wait refl refl (ground arith) refl (ground arith)
      two_wait-AllKnown
