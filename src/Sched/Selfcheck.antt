-- ===== src/Sched/Selfcheck.antt =====
-- `RRScheduler::selfcheck` of lib/runtime/record-scheduler.cpp, the scheduler's own check of its
-- queues, without what it prints. The set `tids` is the list of the threads met so far.
use min_smt.Prelude.{
  ℕ, Bool, not, ◌&&◌, ◌||◌, List, [], ◌∷◌, ltb, ◌==◌, has, Result, ok, assert, ◌>>=◌, ◌>>◌,
}
use min_smt.Sched.Defs.{Sched, Slot, forever}

-- The loops that look for threads that are unknown or stand twice.
unfoldable pub check_ids : (ndebug : Bool) → (nthread : ℕ) → List ℕ → List ℕ → Result (List ℕ)
check_ids nd n [] tids = ok tids
check_ids nd n (t ∷ ts) tids = do
  assert nd (not (ltb n t))
  assert nd (not (has t tids))
  check_ids nd n ts (t ∷ tids)

-- The loop over the run queue: no channel, and no timeout.
unfoldable pub check_runnable : (ndebug : Bool) → (ℕ → Slot) → List ℕ → Result (Unit {0})
check_runnable nd slots [] = ok tt
check_runnable nd slots (t ∷ ts) = do
  assert nd (not (not ((slots t).chan == 0) || not ((slots t).timeout == forever)))
  check_runnable nd slots ts

-- The loop over the wait queue: a channel, or a timeout.
unfoldable pub check_waiting : (ndebug : Bool) → (ℕ → Slot) → List ℕ → Result (Unit {0})
check_waiting nd slots [] = ok tt
check_waiting nd slots (t ∷ ts) = do
  assert nd (not ((slots t).chan == 0 && (slots t).timeout == forever))
  check_waiting nd slots ts

unfoldable pub selfcheck : Sched → Result (Unit {0})
unfolding check_ids check_runnable check_waiting
selfcheck s = do
  tids ← check_ids s.opts.ndebug s.tids.nthread s.runq.items []
  tids' ← check_ids s.opts.ndebug s.tids.nthread s.waitq tids
  check_runnable s.opts.ndebug s.slots s.runq.items
  check_waiting s.opts.ndebug s.slots s.waitq
