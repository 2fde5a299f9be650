-- ===== src/Runtime/Thread.antt =====
-- The wrappers of lib/runtime/record-runtime.cpp for threads and for sleeping, in parts as Mutex has
-- them. What the C library and the hooks do, a new thread and the idle thread, are arguments.
use min_smt.Prelude.{
  ℕ, ◌+◌, ◌*◌, ◌%◌, Bool, true, false, Option, some, if◌then◌else◌, Result, ok, ◌>>=◌,
}
use min_smt.Prelude.Int.{pos, ◌+ℤ◌}
use min_smt.TidMap
use min_smt.TidMap.{Pthread, Routine}
use min_smt.Sched.{
  TurnType, semaphore_relay, hybrid_relay, other_relay, busy_relay, null_policy, default_strategy,
  forever, uint_mod,
}
use min_smt.Sched.Setup
use min_smt.Sched.Turn
use min_smt.Sched.Wakeups
use min_smt.Sched.Wakeups.{get_turn_count}
use min_smt.Runtime.State.{Rt, Timespec, Progress, returned, waiting, outside}
use min_smt.Runtime.Finish.{begin, finish, set_local, bypassed}
use min_smt.Runtime.Time.{rel_time_to_turn}

-- `pthreadCreate`, by a thread that has made the idle thread on the way if `made_idle`; the C library
-- has made the thread with handle `th`.
unfoldable pub pthread_create :
    (made_idle : Bool) → (me : ℕ) → Pthread → Routine → Rt → Result (Progress × Rt)
unfolding begin set_local
pthread_create made_idle me th func rt = do
  let l = rt.locals me
  rt1 ← begin me (
      if made_idle
      then set_local me (record l { slock_n_turns = l.slock_n_turns +ℤ pos 2 }) rt
      else rt)
  (t, s) ← Setup.create me th func rt1.sched
  finish true me (pos 0) (record rt1 { sched = s })

-- A round of the loop of `pthreadJoin`: the thread is over and is forgotten, or is waited for.
unfoldable pub join_round : (me : ℕ) → Pthread → Rt → Result (Progress × Rt)
join_round me th rt =
    if TidMap.zombie th rt.sched.tids
    then finish false me (pos 0)
        (record rt { sched = record (rt.sched) { tids = TidMap.reap th rt.sched.tids } })
    else (do (t, s) ← Turn.wait me th forever rt.sched; ok (waiting, record rt { sched = s }))

unfoldable pub pthread_join : (me : ℕ) → Pthread → Rt → Result (Progress × Rt)
unfolding join_round begin
pthread_join me th rt = do rt1 ← begin me rt; join_round me th rt1

-- `threadBegin` once the new thread knows its id.
unfoldable pub thread_begin : (me : ℕ) → Rt → Result (Progress × Rt)
unfolding begin
thread_begin me rt = do rt1 ← begin me rt; finish false me (pos 0) rt1

-- `threadEnd` by the thread `me` with handle `th`.
unfoldable pub thread_end : (me : ℕ) → Pthread → Rt → Result (Progress × Rt)
unfolding begin
thread_end me th rt = do
  rt1 ← begin me rt
  (n, s1) ← Wakeups.inc_turn_count rt1.sched
  (t, s2) ← Turn.put_turn me th true default_strategy s1
  ok (returned (pos 0), record rt1 { sched = s2 })

unfoldable pub sched_yield : (me : ℕ) → Rt → Result (Progress × Rt)
unfolding begin set_local
sched_yield me rt = if bypassed me rt then ok (outside, rt) else do
  rt1 ← begin me rt
  finish false me (pos 0) (set_local me (record (rt1.locals me) { yield_this = true }) rt1)

-- `options::enforce_turn_type > 0`.
abbrev pub positive_type : TurnType → Bool
positive_type semaphore_relay = true
positive_type hybrid_relay = true
positive_type other_relay = true
positive_type busy_relay = false
positive_type null_policy = false

-- `__nanosleep`, without the real sleep behind it: a wait on no channel at all, which only a timeout
-- ends.
unfoldable pub nanosleep : (me : ℕ) → Option Timespec → Rt → Result (Progress × Rt)
unfolding begin get_turn_count rel_time_to_turn
nanosleep me req rt = do
  rt1 ← begin me rt
  if positive_type rt1.sched.opts.turn_type
      then (do
        n ←
            rel_time_to_turn rt1.sched.opts.launch_idle_thread rt1.opts.nanosec_per_turn
              rt1.sched.tids.nthread req
        (t, s) ← Turn.wait me 0 ((get_turn_count rt1.sched + n) % uint_mod) rt1.sched
        ok (waiting, record rt1 { sched = s }))
      else finish false me (pos 0) rt1

unfoldable pub sleep : (me seconds : ℕ) → Rt → Result (Progress × Rt)
unfolding nanosleep
sleep me seconds rt = nanosleep me (some (record { tv_sec = pos seconds; tv_nsec = pos 0 })) rt

-- `1000 * usec` is a product of type `unsigned`.
unfoldable pub usleep : (me usec : ℕ) → Rt → Result (Progress × Rt)
unfolding nanosleep
usleep me usec rt =
    nanosleep me (some (record { tv_sec = pos 0; tv_nsec = pos ((1000 * usec) % uint_mod) })) rt

-- The three sleeps once the turn is back.
unfoldable pub sleep_continue : (me : ℕ) → Rt → Result (Progress × Rt)
sleep_continue me rt = finish false me (pos 0) rt
