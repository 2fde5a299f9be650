-- ===== src/Sched/Signals.antt =====
-- `signal` of lib/runtime/record-scheduler.cpp.
use min_smt.Prelude.{
  ℕ, Bool, not, ◌&&◌, List, [], ◌∷◌, ltb, ◌==◌, if◌then◌else◌, Result, ok, assert, ◌>>=◌, ◌>>◌,
}
use min_smt.Sched.Defs.{Sched, signaled}
use min_smt.Sched.Queues.{wake, assert_front}

-- The loop over what is left of the wait queue; the result begins with what stays of it.
unfoldable pub scan : (chan : ℕ) → (every : Bool) → List ℕ → Sched → Result (List ℕ × Sched)
unfolding wake
scan chan every [] s = ok ([], s)
scan chan every (t ∷ ts) s = do
  assert s.opts.ndebug (ltb t s.tids.nthread)
  let hit = (s.slots t).chan == chan
  s1 ← (if hit then wake 0 signaled t s else ok s)
  (kept, s2) ← (if hit && not every then ok (ts, s1) else scan chan every ts s1)
  ok (if hit then kept else t ∷ kept, s2)

-- `signal(chan, all)` by the thread `me`. The list of woken threads is returned only in a build for
-- dbug, and is left out.
unfoldable pub signal : (me chan : ℕ) → (every : Bool) → Sched → Result Sched
unfolding scan assert_front
signal me chan every s = do
  assert s.opts.ndebug (not (chan == 0))
  assert_front me s
  (kept, s') ← scan chan every s.waitq s
  ok (record s' { waitq = kept })
