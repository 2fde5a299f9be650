-- ===== src/Sched/Turn.antt =====
-- Giving up the turn: `putTurn`, `wait`, `block`, `checkNonDetBound`, the calls around
-- inter-process operations, and those of the idle thread, of lib/runtime/record-scheduler.cpp.
-- Each is the part that runs with the turn held; `getTurn` is `get_turn`.
use min_smt.Prelude.{
  ℕ, ◌+◌, ◌%◌, Bool, true, false, not, Option, none, some, List, [], ◌∷◌, ◌++◌, ltb, ◌==◌,
  if◌then◌else◌, is_empty, Result, ok, err, bad_pointer, assert, ◌>>=◌, ◌>>◌,
}
use min_smt.RunQueue.{runnable, running_reg, running_inter_pro, inter_pro_stop}
use min_smt.TidMap
use min_smt.TidMap.{Pthread, idle_thread_tid}
use min_smt.NonDetSet
use min_smt.Sched.Defs.{
  Sched, Strategy, default_strategy, current_thread, yield_strategy, create_strategy, is_null,
  try_wait, uint_mod, forever, WakeReason,
}
use min_smt.Sched.Queues.{set_status, set_slot, push_runq, insert_yield, assert_front}
use min_smt.Sched.Wakeups.{inc_turn_count}
use min_smt.Sched.Signals.{signal}
use min_smt.Sched.Next.{next, note_non_det, leave_queue, is_runnable, is_running_reg, is_stop}

-- `getTurn` by the thread `me`; `none` while it blocks.
unfoldable pub get_turn : ℕ → Sched → Option Sched
unfolding set_slot
get_turn me s = elim (try_wait s.opts.turn_type (s.slots me) s.in_sync) [
  | none ↦ none
  | some (w, y) ↦ some (record (set_slot me w s) { in_sync = y })
]

-- `getTurn`: its assertion, and then the wait.
unfoldable pub checked_get_turn : ℕ → Sched → Result (Option Sched)
unfolding get_turn
checked_get_turn me s = do assert s.opts.ndebug (ltb me s.tids.nthread); ok (get_turn me s)

-- `checkNonDetBound`.
unfoldable pub check_non_det_bound : Sched → Result Sched
unfolding push_runq
check_non_det_bound s = if not s.opts.enforce_non_det_clock_bound then ok s else do
  n ← NonDetSet.size s.opts.ndebug s.non_det
  if n == 0 then ok s else do
    t ← NonDetSet.first_thread s.opts.ndebug s.non_det
    (clock, looked_up) ← NonDetSet.get_clock s.opts.ndebug t s.non_det
    let s1 = record s { non_det = looked_up }
    if ltb ((clock + s1.opts.non_det_clock_bound) % uint_mod) s1.turn_count
        then (do
          s2 ← (if is_null s1.opts.turn_type then ok s1 else push_runq t s1)
          d ← NonDetSet.remove s2.opts.ndebug t s2.non_det
          ok (record s2 { non_det = d }))
        else ok s1

-- Does the strategy leave the thread at the head of its queue?
abbrev pub stays : Strategy → Bool
stays current_thread = true
stays create_strategy = true
stays _ = false

abbrev pub is_yield : Strategy → Bool
is_yield yield_strategy = true
is_yield _ = false

-- The part of `putTurn` that moves the calling thread within the queue.
unfoldable pub requeue : ℕ → Strategy → Sched → Result Sched
unfolding leave_queue insert_yield push_runq
requeue me st s =
    if stays st
    then ok s
    else do s1 ← leave_queue me s; if is_yield st then insert_yield me s1 else push_runq me s1

-- `putTurn(at_thread_end, strategy)` by the thread `me`, whose handle is `th`.
unfoldable pub put_turn :
    (me : ℕ) → Pthread → (at_thread_end : Bool) → Strategy → Sched → Result (Option ℕ × Sched)
unfolding requeue check_non_det_bound next set_status signal assert_front
put_turn me th at_end st s = do
  assert s.opts.ndebug (ltb me s.tids.nthread)
  assert_front me s
  (popped, s3) ←
      (if at_end
        then (do
          s1 ← signal me th false s
          m ← TidMap.zombify s1.opts.ndebug me th s1.tids
          ok (false, record s1 { tids = m }))
        else if is_null s.opts.turn_type
        then ok (false, s)
        else (do
          assert s.opts.ndebug (is_running_reg (s.status me))
          s2 ← (if s.known me then requeue me st (set_status me runnable s) else err bad_pointer)
          ok (true, s2)))
  s4 ← check_non_det_bound s3
  next me at_end popped st s4

-- `wait(chan, nturn)` up to the point where it blocks in `getTurn`. Its result, once the turn is
-- back, is `wait_result`.
unfoldable pub wait : (me chan nturn : ℕ) → Sched → Result (Option ℕ × Sched)
unfolding inc_turn_count set_slot next assert_front
wait me chan nturn s = do
  (n, s1) ← inc_turn_count s
  assert s1.opts.ndebug (ltb me s1.tids.nthread)
  assert_front me s1
  let w = record (s1.slots me) { chan = chan; timeout = nturn }
  let s2 = record (set_slot me w s1) { waitq = s1.waitq ++ me ∷ [] }
  let s3 =
      (if is_null s2.opts.turn_type then set_slot me (record w { is_runnable = false }) s2 else s2)
  next me false false default_strategy s3

unfoldable pub wait_result : ℕ → Sched → WakeReason
wait_result me s = (s.slots me).wake_reason

-- `block()` once it has the turn; the result is the turn number.
unfoldable pub block : ℕ → Sched → Result (ℕ × Option ℕ × Sched)
unfolding note_non_det inc_turn_count next assert_front
block me s = do
  s1 ← note_non_det me s
  assert s1.opts.ndebug (ltb me s1.tids.nthread)
  assert_front me s1
  (n, s2) ← inc_turn_count s1
  (t, s3) ← next me false false default_strategy s2
  ok (n, t, s3)

-- `interProStart`: was the thread the head? The thread needs an element.
unfoldable pub inter_pro_start : ℕ → Sched → Result (Bool × Sched)
unfolding set_status
inter_pro_start me s =
    if not (s.known me)
    then err bad_pointer
    else if is_runnable (s.status me)
    then ok (false, set_status me inter_pro_stop s)
    else (assert s.opts.ndebug (is_running_reg (s.status me))
        >> ok (true, set_status me running_inter_pro s))

unfoldable pub inter_pro_end : ℕ → Sched → Result (Bool × Sched)
unfolding set_status
inter_pro_end me s =
    if not (s.known me)
    then err bad_pointer
    else (assert s.opts.ndebug (is_stop (s.status me)) >> ok (true, set_status me runnable s))

-- The loop of `tryPutTurn` over the threads behind the head.
unfoldable pub try_rest : List ℕ → Sched → Bool × Sched
unfolding set_status
try_rest [] s = (false, s)
try_rest (t ∷ ts) s =
    let rest = try_rest ts s in
    if is_runnable (s.status t) then (true, set_status t running_reg s) else rest

unfoldable pub try_put_turn : ℕ → Sched → Result (Bool × Sched)
unfolding try_rest assert_front
try_put_turn me s = do
  assert s.opts.ndebug (not (is_empty s.runq.items))
  assert_front me s
  elim s.runq.items [ [] ↦ err bad_pointer | t ∷ ts ↦ ok (try_rest ts s) ]

-- `idleThreadCondWait` by the thread `me`, but for the wait on the host's condition variable
-- `idle_cond`.
unfoldable pub idle_thread_cond_wait :
    (me : ℕ) → Pthread → (idle_cond : ℕ) → Sched → Result (Option ℕ × Sched)
unfolding try_put_turn put_turn next set_slot assert_front
idle_thread_cond_wait me th idle_cond s = do
  (done, s1) ← try_put_turn me s
  if done
      then (do
        assert s1.opts.ndebug (me == idle_thread_tid)
        let s2 = set_slot me (record (s1.slots me) { chan = idle_cond; timeout = forever }) s1
        let s3 = record s2 { waitq = s2.waitq ++ me ∷ [] }
        assert_front me s3
        next me false false default_strategy s3)
      else put_turn me th false default_strategy s1
