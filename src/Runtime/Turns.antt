-- ===== src/Runtime/Turns.antt =====
-- The operations of lib/runtime/record-runtime.cpp that only take the turn: the turns of extensions,
-- the dummy operations, those of the idle thread, and what needs no turn at all.
use min_smt.Prelude.{
  ℕ, ◌+◌, ◌-◌, ◌%◌, ◌^◌, Bool, true, false, not, ◌&&◌, Option, none, some, ltb, leb, ◌==◌,
  if◌then◌else◌, length, Result, ok, assert, ◌>>=◌, ◌>>◌,
}
use min_smt.Prelude.Int.{pos}
use min_smt.TidMap.{Pthread}
use min_smt.Sched.{is_null, default_strategy, uint_mod}
use min_smt.Sched.Wakeups
use min_smt.Sched.Turn
use min_smt.Runtime.State.{Rt, Timespec, Progress, outside}
use min_smt.Runtime.Finish.{begin, finish, set_local, bypassed}

-- The condition of the two operations for extensions; `enforce` is `options::enforce_ext_turn`.
abbrev pub ext_turn : (enforce : Bool) → (me : ℕ) → Rt → Bool
ext_turn enforce me rt = enforce && not (bypassed me rt) && not (is_null rt.sched.opts.turn_type)

-- Is the fake lock held by `holder`, or by none?
abbrev pub is_free : Option ℕ → Bool
is_free none = true
is_free (some h) = false

abbrev pub holds : ℕ → Option ℕ → Bool
holds self none = false
holds self (some h) = h == self

-- `ext_get_turn` by the thread with the handle `self`, of which 32 bits are kept.
unfoldable pub ext_get_turn : (enforce : Bool) → (me : ℕ) → Pthread → Rt → Result (Progress × Rt)
unfolding begin set_local
ext_get_turn enforce me self rt = if not (ext_turn enforce me rt) then ok (outside, rt) else do
  rt1 ← begin me rt
  assert rt1.sched.opts.ndebug (is_free rt1.dmt_lock_holder)
  let l = rt1.locals me
  finish false me (pos 0) (
      set_local me (record l { in_cs_level = l.in_cs_level + 1 })
        (record rt1 { dmt_lock_holder = some (self % uint_mod) }))

unfoldable pub ext_put_turn : (enforce : Bool) → (me : ℕ) → Pthread → Rt → Result (Progress × Rt)
unfolding begin set_local
ext_put_turn enforce me self rt = if not (ext_turn enforce me rt) then ok (outside, rt) else do
  rt1 ← begin me rt
  assert rt1.sched.opts.ndebug (holds (self % uint_mod) rt1.dmt_lock_holder)
  let l = rt1.locals me
  finish false me (pos 0) (
      set_local me (if ltb 0 l.in_cs_level then record l { in_cs_level = l.in_cs_level - 1 } else l)
        (record rt1 { dmt_lock_holder = none }))

-- `dummySync`; `enforce` is `options::enforce_dummy_sync`.
unfoldable pub dummy_sync : (enforce : Bool) → (me : ℕ) → Rt → Result (Progress × Rt)
unfolding begin
dummy_sync enforce me rt = do
  assert rt.sched.opts.ndebug enforce
  rt1 ← begin me rt
  finish false me (pos 0) rt1

unfoldable pub symbolic : (me : ℕ) → Rt → Result (Progress × Rt)
unfolding begin
symbolic me rt = do rt1 ← begin me rt; finish false me (pos 0) rt1

-- `setBaseTime`, which takes no turn; `none` is a NULL pointer.
unfoldable pub set_base_time : (me : ℕ) → Timespec → Rt → Rt
unfolding set_local
set_base_time me ts rt = set_local me (record (rt.locals me) { base_time = ts }) rt

-- `int turn = incTurnCount(); assert(turn >= 0);`: a count from 2 ^ 31 on is a negative `int`.
abbrev pub is_int : ℕ → Bool
is_int turn = ltb turn (2 ^ 31)

-- `idle_sleep`, by the idle thread `me` with handle `th`.
unfoldable pub idle_sleep : (me : ℕ) → Pthread → Rt → Result Rt
idle_sleep me th rt = do
  (turn, s1) ← Wakeups.inc_turn_count rt.sched
  assert s1.opts.ndebug (is_int turn)
  (t, s2) ← Turn.put_turn me th false default_strategy s1
  ok (record rt { sched = s2 })

-- `idle_cond_wait`: the idle thread waits if another thread can run.
unfoldable pub idle_cond_wait : (me : ℕ) → Pthread → (idle_cond : ℕ) → Rt → Result Rt
idle_cond_wait me th idle_cond rt = do
  (turn, s1) ← Wakeups.inc_turn_count rt.sched
  assert s1.opts.ndebug (is_int turn)
  (t, s2) ←
      (if leb 2 (length s1.runq.items)
        then Turn.idle_thread_cond_wait me th idle_cond s1
        else Turn.put_turn me th false default_strategy s1)
  ok (record rt { sched = s2 })
