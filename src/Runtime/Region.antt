-- ===== src/Runtime/Region.antt =====
-- The regions of lib/runtime/record-runtime.cpp that are not deterministic, and the annotations that
-- change the variables of a thread. `outside_mode` is `options::enforce_no_wait_non_det_annotations`.
use min_smt.Prelude.{
  ℕ, ◌+◌, ◌-◌, ◌≡◌, refl, Bool, true, false, not, ◌&&◌, List, [], ◌∷◌, ◌==◌, if◌then◌else◌, arith,
  Result, ok, err, assertion, assert, ◌>>=◌, ◌>>◌,
}
use min_smt.Prelude.Int.{ℤ, pos, ◌-ℤ◌}
use min_smt.TidMap.{Pthread, Routine}
use min_smt.Sched.{forever}
use min_smt.Sched.Wakeups
use min_smt.Sched.Turn
use min_smt.Runtime.State.{Rt, Local, Progress, waiting}
use min_smt.Runtime.Finish.{begin, finish, set_local}

-- `nonDetStart` up to its wait for all others to pause. `nNonDetWait` counts in the scheduler's state.
unfoldable pub non_det_start : (me : ℕ) → Rt → Result (Progress × Rt)
unfolding begin
non_det_start me rt = do
  rt1 ← begin me rt
  let s = record (rt1.sched) { n_non_det_wait = rt1.sched.n_non_det_wait + 1 }
  (t, s1) ← Turn.wait me s.opts.non_det_cv forever s
  ok (waiting, record rt1 { sched = s1 })

-- The part up to the call of `block`, and the part behind it, once the turn is back each time.
unfoldable pub non_det_waited : (me : ℕ) → Rt → Result (Progress × Rt)
non_det_waited me rt =
    finish false me (pos 0)
      (record rt { sched = record (rt.sched) { n_non_det_wait = rt.sched.n_non_det_wait - 1 } })

unfoldable pub non_det_enter : (me : ℕ) → Rt → Result Rt
unfolding set_local
non_det_enter me rt = do
  (n, t, s) ← Turn.block me rt.sched
  let rt1 = record rt { sched = s }
  assert s.opts.ndebug (not (rt1.locals me).in_non_det)
  ok (set_local me (record (rt1.locals me) { in_non_det = true }) rt1)

unfoldable pub non_det_end : (me : ℕ) → Rt → Result Rt
unfolding set_local
non_det_end me rt = do
  assert rt.sched.opts.ndebug rt.sched.opts.enforce_non_det_annotations
  assert rt.sched.opts.ndebug (rt.locals me).in_non_det
  let rt1 = set_local me (record (rt.locals me) { in_non_det = false }) rt
  ok (record rt1 { sched = Wakeups.wakeup me rt1.sched })

unfoldable pub no_wait_non_det_start : (ndebug : Bool) → (outside_mode : ℕ) → Local → Result Local
no_wait_non_det_start nd mode l = do
  assert nd (not l.in_non_det && not l.in_no_wait_non_det)
  ok (
      if mode == 1
      then record l { in_no_wait_non_det = true }
      else if mode == 2
      then record l { no_cs_whole_local = true }
      else l)

unfoldable pub no_wait_non_det_end : (ndebug : Bool) → (outside_mode : ℕ) → Local → Result Local
no_wait_non_det_end nd mode l = do
  assert nd l.in_no_wait_non_det
  ok (
      if mode == 1
      then record l { in_no_wait_non_det = false }
      else if mode == 2
      then record l { no_cs_whole_local = false }
      else l)

unfoldable pub set_slock_next_n : (me : ℕ) → (next_n_turns : ℤ) → Rt → Rt
unfolding set_local
set_slock_next_n me n rt =
    if rt.opts.enforce_next_n_annotations
    then set_local me (record (rt.locals me) { slock_n_turns = n -ℤ pos 1 }) rt
    else rt

-- `proposed_role[th] = func`.
abbrev pub propose : Pthread → Routine → List (ℕ × ℕ) → List (ℕ × ℕ)
propose th func [] = (th, func) ∷ []
propose th func ((k, f) ∷ m) = if th == k then (k, func) ∷ m else (k, f) ∷ propose th func m

unfoldable pub propose_thread_role : (me : ℕ) → Pthread → Routine → Rt → Rt
unfolding set_local
propose_thread_role me th func rt =
    set_local me (record (rt.locals me) { process_proposed_role = true })
      (record rt { proposed_role = propose th func rt.proposed_role })

-- A region that is entered with `noWaitNonDetStart` in mode 2 cannot be left: in a build with
-- assertions the start succeeds for a thread outside every region, and then `noWaitNonDetEnd` fails
-- its assertion, since the start of that mode does not set the flag that the end asserts.
no_wait_non_det_end-fails :
    (l : Local)
    → l.in_non_det ≡ false
    → l.in_no_wait_non_det ≡ false
    → (l' : Local) × (no_wait_non_det_start false 2 l ≡ ok l')
      × (l'.no_cs_whole_local ≡ true)
      × (no_wait_non_det_end false 2 l' ≡ err assertion)
unfolding no_wait_non_det_start no_wait_non_det_end
no_wait_non_det_end-fails l a b =
    (record l { no_cs_whole_local = true }, ground (arith, a, b), refl, ground (arith, b))
