-- ===== src/Examples/Order.antt =====
-- The scheduler's own check in a state that a run reaches.
use min_smt.Prelude.{◌≡◌, refl, some, none, ok, inl, arith}
use min_smt.Sched.Selfcheck.{selfcheck}
use min_smt.Sched.Serial.Reach.{takes, creates, waits}
use min_smt.Sched.Orderly.Order.{IsChecked}
use min_smt.Sched.Orderly.Runs.{Runs, begins, steps, selfcheck-passes}
use min_smt.Examples.Turns.{plain}
use min_smt.Examples.Runs.{started, main_steps, main_creates, main_waits, after_wait}

plain-IsChecked : IsChecked plain
plain-IsChecked = record { asserts = refl; relayed = refl; no_hp = refl; no_bound = refl }

-- The main thread waits for the channel 40, and the other one runs.
run_to_wait : Runs plain 70 none after_wait
run_to_wait =
    steps (steps (steps (begins started) (takes main_steps) tt) (creates 1 71 900 main_creates) tt)
      (waits 40 4294967295 (some 1) main_waits) (inl (ground arith))

selfcheck-passes_example : selfcheck after_wait ≡ ok tt
selfcheck-passes_example = selfcheck-passes plain 70 none after_wait plain-IsChecked run_to_wait
