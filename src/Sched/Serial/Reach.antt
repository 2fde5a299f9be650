-- ===== src/Sched/Serial/Reach.antt =====
-- The runs of the scheduler: in which order the threads call its operations is up to them, but only
-- a thread for which `getTurn` has returned calls those that want the turn.
use min_smt.Prelude.{ℕ, ◌≡◌, Bool, Option, none, some, ok}
use min_smt.TidMap
use min_smt.TidMap.{Pthread, Routine, main_thread_tid}
use min_smt.Sched.Defs.{Sched, Options, Strategy}
use min_smt.Sched.Wakeups.{inc_turn_count, wakeup}
use min_smt.Sched.Signals.{signal}
use min_smt.Sched.Turn.{
  checked_get_turn, put_turn, wait, block, idle_thread_cond_wait, inter_pro_start, inter_pro_end,
}
use min_smt.Sched.Setup.{start, create}

-- One call, with the thread that holds the turn before it and after it, if any.
pub data Step : Option ℕ → Sched → Option ℕ → Sched → Type 0 where
  takes :
      {act : Option ℕ} {me : ℕ} {s s' : Sched}
      → checked_get_turn me s ≡ ok (some s')
      → Step act s (some me) s'
  signals :
      {me : ℕ} {s s' : Sched} (chan : ℕ) (every : Bool)
      → signal me chan every s ≡ ok s'
      → Step (some me) s (some me) s'
  counts :
      {me : ℕ} {s s' : Sched} (n : ℕ)
      → inc_turn_count s ≡ ok (n, s')
      → Step (some me) s (some me) s'
  creates :
      {me : ℕ} {s s' : Sched} (t : ℕ) (th : Pthread) (f : Routine)
      → create me th f s ≡ ok (t, s')
      → Step (some me) s (some me) s'
  changes_role :
      {me : ℕ} {s : Sched} (th : Pthread) (f : Routine) (m : TidMap.TidMap)
      → TidMap.change_role s.opts.ndebug th f s.tids ≡ ok m
      → Step (some me) s (some me) (record s { tids = m })
  puts :
      {me : ℕ} {s s' : Sched} (th : Pthread) (at_end : Bool) (st : Strategy) (r : Option ℕ)
      → put_turn me th at_end st s ≡ ok (r, s')
      → Step (some me) s none s'
  waits :
      {me : ℕ} {s s' : Sched} (chan nturn : ℕ) (r : Option ℕ)
      → wait me chan nturn s ≡ ok (r, s')
      → Step (some me) s none s'
  blocks :
      {me : ℕ} {s s' : Sched} (n : ℕ) (r : Option ℕ)
      → block me s ≡ ok (n, r, s')
      → Step (some me) s none s'
  idles :
      {me : ℕ} {s s' : Sched} (th : Pthread) (idle_cond : ℕ) (r : Option ℕ)
      → idle_thread_cond_wait me th idle_cond s ≡ ok (r, s')
      → Step (some me) s none s'
  starts_outside :
      {act : Option ℕ} {s s' : Sched} (t : ℕ) (b : Bool)
      → inter_pro_start t s ≡ ok (b, s')
      → Step act s act s'
  ends_outside :
      {act : Option ℕ} {s s' : Sched} (t : ℕ) (b : Bool)
      → inter_pro_end t s ≡ ok (b, s')
      → Step act s act s'
  wakes : {act : Option ℕ} {s : Sched} (t : ℕ) → Step act s act (wakeup t s)

-- The states that a run reaches from the constructor on.
pub data Reach (o : Options) (th : Pthread) : Option ℕ → Sched → Type 0 where
  begins : {s : Sched} → start o th ≡ ok s → Reach o th none s
  steps :
      {act act' : Option ℕ} {s s' : Sched}
      → Reach o th act s
      → Step act s act' s'
      → Reach o th act' s'
