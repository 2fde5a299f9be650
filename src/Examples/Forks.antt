-- ===== src/Examples/Forks.antt =====
-- The child of a fork, and a task that is padded to its length.
use min_smt.Prelude.{
  ℕ, ◌≡◌, ◌≢◌, refl, Bool, none, true, false, not, [], ◌∷◌, arith, ◌==◌, if◌then◌else◌, ok, err,
  bad_pointer,
}
use min_smt.Prelude.Int.{pos}
use min_smt.RunQueue.{running_reg}
use min_smt.Sched.{post, try_wait, forever}
use min_smt.Runtime.State.{Rt, returned}
use min_smt.Runtime.Time.{time_diff}
use min_smt.Runtime.Finish.{put_turn_strategy}
use min_smt.Runtime.Fork.{fork_child}
use min_smt.Runtime.Child.{fork_child-pending_fails, fork_child-alone}
use min_smt.Runtime.Task.{
  timespec_to_usec, mark_task_start, mark_task_end, TaskOver, mark_task_end-pads, TaskOptions, Task,
}
use min_smt.Examples.Turns.{three_threads, three_threads-IsPlain}
use min_smt.Examples.Times.{timed_out, before, after}

-- Thread 0 forks; nobody comes back from a blocking call.
abbrev forks : Rt
forks = record timed_out { sched = three_threads }

fork_child-alone_example :
    (rt' : Rt) × (fork_child 0 77 forks
      ≡ ok (not (forks.sched.opts.launch_idle_thread == 0), returned (pos 0), rt'))
    × (rt'.sched.runq.items ≡ 0 ∷ [])
    × (rt'.sched.status 0 ≡ running_reg)
    × (rt'.sched.slots 0
        ≡ post forks.sched.opts.turn_type (record (forks.sched.slots 0) {
          chan = 0;
          timeout = forever;
          ret = 0;
          waken_up = false;
          is_runnable = true;
        }))
    × ((y : Bool) → try_wait forks.sched.opts.turn_type (rt'.sched.slots 0) y ≢ none)
    × (rt'.sched.waitq ≡ [])
unfolding put_turn_strategy
fork_child-alone_example =
    fork_child-alone 0 77 forks refl refl three_threads-IsPlain refl refl refl

-- Thread 1 has just come back.
abbrev woken : Rt
woken = record timed_out {
  sched = record three_threads { wakeup_tids = 1 ∷ []; wakeup_flag = true };
}

fork_child-pending_fails_example : fork_child 0 77 woken ≡ err bad_pointer
fork_child-pending_fails_example =
    fork_child-pending_fails 0 77 woken 1 [] refl refl refl refl (ground arith)

-- Task 5 shall last two seconds, and has run for 1.3 seconds.
abbrev enforced : TaskOptions
enforced = record { log_task_time = 0; enforce_delays = true }

abbrev two_seconds : ℕ → ℕ
two_seconds t = if t == 5 then 2000000 else 0

abbrev unmarked : Task
unmarked = record { this_task = 0; start_time = before }

mark_task_end-pads_example :
    TaskOver enforced
      (two_seconds 5)
      (timespec_to_usec (time_diff before after))
      before
      (mark_task_end false enforced two_seconds 5 after (mark_task_start 5 before unmarked))
mark_task_end-pads_example = mark_task_end-pads false enforced two_seconds 5 before after unmarked
