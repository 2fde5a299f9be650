-- ===== src/Sched/Orderly/Runs.antt =====
-- Runs of the scheduler in which threads call what they can call, and what `selfcheck` of
-- lib/runtime/record-scheduler.cpp says of the states that they reach.
use min_smt.Prelude.{
  ℕ, ◌+◌, ◌<◌, ◌≤◌, ◌≡◌, ◌≢◌, ◌⊎◌, refl, Bool, true, false, not, ◌&&◌, ◌||◌, none, Option, List, [],
  ◌∷◌, arith, ltb, ◌==◌, ok, assert, has, ap,
}
use min_smt.Prelude.Ensures
use min_smt.Prelude.Ensures.{Ensures}
use min_smt.TidMap.{Pthread}
use min_smt.Sched.Defs.{Sched, Options, Slot, forever}
use min_smt.Sched.Setup.{start}
use min_smt.Sched.Selfcheck.{check_ids, check_runnable, check_waiting, selfcheck}
use min_smt.Sched.Conserve.{times}
use min_smt.Sched.Serial.Token.{checked_get_turn-some}
use min_smt.Sched.Serial.Reach.{
  Step, takes, signals, counts, creates, changes_role, puts, waits, blocks, idles, starts_outside,
  ends_outside, wakes,
}
use min_smt.Sched.Orderly.Order.{IsChecked, IsCalm, IsOrderly}
use min_smt.Sched.Orderly.Moving.{signal-IsOrderly}
use min_smt.Sched.Orderly.Waking.{has_of_times, inc_turn_count-IsOrderly}
use min_smt.Sched.Orderly.Passing.{
  put_turn-IsOrderly, wait-IsOrderly, block-IsOrderly, idle_thread_cond_wait-IsOrderly,
  with_tids-IsOrderly,
}
use min_smt.Sched.Orderly.Entering.{
  create-IsOrderly, change_role-nthread, start-IsOrderly, get_turn-IsOrderly,
  inter_pro_start-IsOrderly, inter_pro_end-IsOrderly, wakeup-IsOrderly,
}

-- What a thread can do: it waits for a channel or until a turn, the idle thread waits for its
-- condition variable and has no wake-up of its own pending, as `idle_cond_wait` counts the turn
-- first, and a thread that asks to be woken is known and is not inside `wait`.
abbrev pub Sensible : {act act' : Option ℕ} {s s' : Sched} → Step act s act' s' → Type 0
Sensible (waits chan nturn r h) = (chan ≢ 0) ⊎ (nturn ≢ forever)
Sensible (idles {me = me} {s = s} th idle_cond r h) =
    (idle_cond ≢ 0) × (has me s.wakeup_tids ≡ false)
Sensible (wakes {s = s} t) = (times t s.waitq ≡ 0) × (t < s.tids.nthread)
Sensible (takes h) = Unit
Sensible (signals chan every h) = Unit
Sensible (counts n h) = Unit
Sensible (creates t th f h) = Unit
Sensible (changes_role th f m h) = Unit
Sensible (puts th at_end st r h) = Unit
Sensible (blocks n r h) = Unit
Sensible (starts_outside t b h) = Unit
Sensible (ends_outside t b h) = Unit

-- The states that such a run reaches from the constructor on.
pub data Runs (o : Options) (th : Pthread) : Option ℕ → Sched → Type 0 where
  begins : {s : Sched} → start o th ≡ ok s → Runs o th none s
  steps :
      {act act' : Option ℕ} {s s' : Sched}
      → Runs o th act s
      → (st : Step act s act' s') → Sensible st
      → Runs o th act' s'

Step-IsOrderly :
    {act act' : Option ℕ} {s s' : Sched} (st : Step act s act' s')
    → Sensible st
    → IsOrderly s
    → IsOrderly s'
Step-IsOrderly (takes {me = me} h) p v =
    get_turn-IsOrderly me _ _ v (checked_get_turn-some me _ _ h)
Step-IsOrderly (signals {me = me} {s = s} chan every h) p v =
    Ensures.of_ok (signal-IsOrderly me chan every s v) h
Step-IsOrderly (counts {s = s} n h) p v = (Ensures.of_ok (inc_turn_count-IsOrderly s v) h).0
Step-IsOrderly (creates {me = me} {s = s} t th f h) p v =
    Ensures.of_ok (create-IsOrderly me th f s v) h
Step-IsOrderly (changes_role {s = s} th f m h) p v =
    with_tids-IsOrderly s m v (Ensures.of_ok (change_role-nthread s.opts.ndebug th f s.tids) h)
Step-IsOrderly (puts {me = me} {s = s} th at_end st r h) p v =
    Ensures.of_ok (put_turn-IsOrderly me th at_end st s v) h
Step-IsOrderly (waits {me = me} {s = s} chan nturn r h) p v =
    Ensures.of_ok (wait-IsOrderly me chan nturn s p v) h
Step-IsOrderly (blocks {me = me} {s = s} n r h) p v = Ensures.of_ok (block-IsOrderly me s v) h
Step-IsOrderly (idles {me = me} {s = s} th idle_cond r h) p v =
    Ensures.of_ok (idle_thread_cond_wait-IsOrderly me th idle_cond s p.0 p.1 v) h
Step-IsOrderly (starts_outside {s = s} t b h) p v =
    Ensures.of_ok (inter_pro_start-IsOrderly t s v) h
Step-IsOrderly (ends_outside {s = s} t b h) p v = Ensures.of_ok (inter_pro_end-IsOrderly t s v) h
Step-IsOrderly (wakes {s = s} t) p v = wakeup-IsOrderly t s p.0 p.1 v

-- In a build with assertions, with relayed turns, no high priority queue and no bound on clocks, in
-- every state that a run reaches, whichever threads called what in which order: every thread stands
-- in at most one place of the run queue and the wait queue; it waits for a channel or a turn if it
-- is in the wait queue, and for nothing otherwise; none without an id stands there; and none is to
-- be woken that still waits.
pub Runs-IsOrderly :
    (o : Options) (th : Pthread) (act : Option ℕ) (s : Sched)
    → IsChecked o
    → Runs o th act s
    → IsOrderly s
Runs-IsOrderly o th act s c (begins h) = Ensures.of_ok (start-IsOrderly o th c) h
Runs-IsOrderly o th act s c (steps {act = act0} {s = s0} run st p) =
    Step-IsOrderly st p (Runs-IsOrderly o th act0 s0 c run)

assert_passes : (nd b : Bool) → b ≡ true → assert nd b ≡ ok tt
assert_passes true b e = refl
assert_passes false b e = rw e

check_ids-passes :
    (nd : Bool) (n : ℕ) (ts tids : List ℕ)
    → ((a : ℕ) → times a tids + times a ts ≤ 1)
    → ((a : ℕ) → n ≤ a → times a ts ≡ 0)
    → (r : List ℕ) × (check_ids nd n ts tids ≡ ok r)
      × ((a : ℕ) → times a r ≡ times a tids + times a ts)
unfolding check_ids
check_ids-passes nd n [] tids once ids = (tids, refl, λ a. omega arith)
check_ids-passes nd n (t ∷ ts) tids once ids =
    let known : not (ltb n t) ≡ true = ground (arith, ids t) in
    let fresh : not (has t tids) ≡ true = ap not (has_of_times t tids (ground (arith, once t))) in
    let rest =
      check_ids-passes nd n ts (t ∷ tids) (λ a. omega (arith, once a))
        (λ a e. omega (arith, ids a e)) in
    (
      rest.0,
      rw (assert_passes nd _ known, assert_passes nd _ fresh) rest.1,
      λ a. omega (arith, rest.2 a),
    )

check_runnable-passes :
    (nd : Bool) (slots : ℕ → Slot) (ts : List ℕ)
    → ((a : ℕ) → 0 < times a ts → IsCalm (slots a))
    → check_runnable nd slots ts ≡ ok tt
unfolding check_runnable
check_runnable-passes nd slots [] calm = refl
check_runnable-passes nd slots (t ∷ ts) calm =
    let free : not (not ((slots t).chan == 0) || not ((slots t).timeout == forever)) ≡ true =
      ground (arith, calm t) in
    rw (assert_passes nd _ free)
      (check_runnable-passes nd slots ts (λ a h. calm a (omega (arith, h))))

check_waiting-passes :
    (nd : Bool) (slots : ℕ → Slot) (ts : List ℕ)
    → ((a : ℕ) → 0 < times a ts → ((slots a).chan ≢ 0) ⊎ ((slots a).timeout ≢ forever))
    → check_waiting nd slots ts ≡ ok tt
unfolding check_waiting
check_waiting-passes nd slots [] some_wait = refl
check_waiting-passes nd slots (t ∷ ts) some_wait =
    let waits : not ((slots t).chan == 0 && (slots t).timeout == forever) ≡ true =
      ground (arith, some_wait t) in
    rw (assert_passes nd _ waits)
      (check_waiting-passes nd slots ts (λ a h. some_wait a (omega (arith, h))))

IsOrderly-selfcheck : (s : Sched) → IsOrderly s → selfcheck s ≡ ok tt
unfolding selfcheck
IsOrderly-selfcheck s v =
    let first =
      check_ids-passes s.opts.ndebug s.tids.nthread s.runq.items [] (λ a. omega (arith, v.once a))
        (λ a e. omega (arith, v.ids a e)) in
    let second =
      check_ids-passes s.opts.ndebug s.tids.nthread s.waitq first.0
        (λ a. omega (arith, v.once a, first.2 a)) (λ a e. omega (arith, v.ids a e)) in
    rw
      (
        first.1,
        second.1,
        check_runnable-passes s.opts.ndebug s.slots s.runq.items
            (λ a h. v.calm a (omega (arith, v.once a, h))),
      )
      (check_waiting-passes s.opts.ndebug s.slots s.waitq v.waits)

-- The scheduler's own check, `selfcheck`, never fails: in a build with assertions, with relayed
-- turns, no high priority queue and no bound on clocks, it passes in every state that a run reaches,
-- if no thread waits for nothing forever and none that is inside `wait` asks to be woken.
pub selfcheck-passes :
    (o : Options) (th : Pthread) (act : Option ℕ) (s : Sched)
    → IsChecked o
    → Runs o th act s
    → selfcheck s ≡ ok tt
selfcheck-passes o th act s c run = IsOrderly-selfcheck s (Runs-IsOrderly o th act s c run)
