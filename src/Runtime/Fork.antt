-- ===== src/Runtime/Fork.antt =====
-- `__fork` of lib/runtime/record-runtime.cpp, in the two processes that come out of it. The real
-- call is left out, as are the log files; the idle thread of the child is made by its creator.
use min_smt.Prelude.{ℕ, Bool, false, not, ltb, ◌==◌, update, Result, ok, assert, ◌>>=◌, ◌>>◌}
use min_smt.Prelude.Int.{ℤ, pos, negsuc}
use min_smt.TidMap.{Pthread, main_thread_tid}
use min_smt.Sched.Setup
use min_smt.Runtime.State.{Rt, Progress}
use min_smt.Runtime.Finish.{begin, finish}

abbrev pub is_positive : ℤ → Bool
is_positive (pos n) = ltb 0 n
is_positive (negsuc n) = false

-- In the parent, where the real call has returned `ret`.
unfoldable pub fork_parent : (me : ℕ) → (ret : ℤ) → Rt → Result (Progress × Rt)
unfolding begin
fork_parent me ret rt = do
  rt1 ← begin me rt
  assert rt1.sched.opts.ndebug (is_positive ret)
  finish false me ret rt1

-- In the child, by the thread with the handle `th`, which had the id `me` and is the main thread
-- now: its `__thread` variables are those that it had. The result says also whether an idle thread
-- is to be made.
unfoldable pub fork_child : (me : ℕ) → Pthread → Rt → Result (Bool × Progress × Rt)
unfolding begin Setup.child_fork_return
fork_child me th rt = do
  rt1 ← begin me rt
  s ← Setup.child_fork_return th rt1.sched
  (p, rt2) ←
      finish false main_thread_tid (pos 0)
        (record rt1 { sched = s; locals = update rt1.locals main_thread_tid (rt1.locals me) })
  ok (not (s.opts.launch_idle_thread == 0), p, rt2)
