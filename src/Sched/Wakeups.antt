-- ===== src/Sched/Wakeups.antt =====
-- Turn counting, timeouts and the wake-ups of threads that come back from blocking calls:
-- `incTurnCount`, `getTurnCount`, `nextTimeout`, `fireTimeouts`, `check_wakeup` and `wakeup` of
-- lib/runtime/record-scheduler.cpp and lib/runtime/scheduler.cpp.
use min_smt.Prelude.{
  ℕ, ◌+◌, ◌-◌, ◌%◌, true, false, List, [], ◌∷◌, ◌++◌, ltb, if◌then◌else◌, has, Result, ok, assert,
  ◌>>=◌, ◌>>◌,
}
use min_smt.NonDetSet
use min_smt.Sched.Defs.{Sched, timedout, etimedout, forever, uint_mod, is_null}
use min_smt.Sched.Queues.{wake, post_to, push_runq, in_runq}

-- `nextTimeout`.
unfoldable pub next_timeout_from : List ℕ → ℕ → Sched → ℕ
next_timeout_from [] least s = least
next_timeout_from (t ∷ ts) least s =
    next_timeout_from ts (if ltb (s.slots t).timeout least then (s.slots t).timeout else least) s

unfoldable pub next_timeout : Sched → ℕ
unfolding next_timeout_from
next_timeout s = next_timeout_from s.waitq forever s

-- The loop of `fireTimeouts` over what is left of the wait queue: what stays of it, and how many
-- threads timed out.
unfoldable pub fire : List ℕ → Sched → Result (List ℕ × ℕ × Sched)
unfolding wake
fire [] s = ok ([], 0, s)
fire (t ∷ ts) s = do
  assert s.opts.ndebug (ltb t s.tids.nthread)
  let late = ltb (s.slots t).timeout s.turn_count
  s1 ← (if late then wake etimedout timedout t s else ok s)
  (kept, n, s2) ← fire ts s1
  ok (if late then kept else t ∷ kept, if late then n + 1 else n, s2)

unfoldable pub fire_timeouts : Sched → Result (ℕ × Sched)
unfolding fire
fire_timeouts s = do (kept, n, s') ← fire s.waitq s; ok (n, record s' { waitq = kept })

-- The loop of `check_wakeup` over the set of threads to wake, in the set's order.
unfoldable pub wake_all : List ℕ → Sched → Result Sched
unfolding in_runq post_to push_runq
wake_all [] s = ok s
wake_all (t ∷ ts) s = do
  inside ← in_runq t s
  s1 ←
      (if inside then ok s else do
        s1 ← (if is_null s.opts.turn_type then ok (post_to t s) else push_runq t s)
        if s1.opts.enforce_non_det_clock_bound
            then (do
              d ← NonDetSet.remove s1.opts.ndebug t s1.non_det
              ok (record s1 { non_det = d }))
            else ok s1)
  wake_all ts s1

unfoldable pub check_wakeup : Sched → Result Sched
unfolding wake_all
check_wakeup s =
    if s.wakeup_flag
    then (do
      s' ← wake_all s.wakeup_tids s
      ok (record s' { wakeup_tids = []; wakeup_flag = false }))
    else ok s

-- `wakeup`, by the thread `me`.
unfoldable pub wakeup : ℕ → Sched → Sched
wakeup me s = record s {
  wakeup_tids = if has me s.wakeup_tids then s.wakeup_tids else s.wakeup_tids ++ me ∷ [];
  wakeup_flag = true;
}

-- `incTurnCount`; the counter is an `unsigned`.
unfoldable pub inc_turn_count : Sched → Result (ℕ × Sched)
unfolding fire_timeouts check_wakeup
inc_turn_count s = do
  (n, s1) ← fire_timeouts (record s { turn_count = (s.turn_count + 1) % uint_mod })
  s2 ← check_wakeup s1
  ok (s.turn_count, s2)

unfoldable pub get_turn_count : Sched → ℕ
get_turn_count s = (s.turn_count + uint_mod - 1) % uint_mod
