-- ===== src/Sched/Conserve.antt =====
-- No operation of the scheduler loses or doubles a thread: how often a thread stands in the queues.
use min_smt.Prelude.{
  ℕ, ◌+◌, ◌≡◌, refl, Bool, false, List, [], ◌∷◌, ◌++◌, arith, ◌==◌, if◌then◌else◌, Result, ok, err,
  Bool-cases, inl, inr, not, ◌&&◌, ltb,
}
use min_smt.Prelude.Ensures
use min_smt.Prelude.Ensures.{Ensures, ensured, failed}
use min_smt.Sched.Defs.{Sched, WakeReason, timedout, signaled, etimedout, is_null}
use min_smt.Sched.Queues.{assert_front, wake}
use min_smt.Sched.Wakeups.{fire, fire_timeouts}
use min_smt.Sched.Signals.{scan, signal}

abbrev pub times : ℕ → List ℕ → ℕ
times a [] = 0
times a (x ∷ xs) = (if a == x then 1 else 0) + times a xs

pub times-append :
    (t : ℕ) (front back : List ℕ) → times t (front ++ back) ≡ times t front + times t back
times-append t [] back = omega arith
times-append t (u ∷ front) back = omega (arith, times-append t front back)

-- How often thread `a` stands in the two run queues.
abbrev pub queued : ℕ → Sched → ℕ
queued a s = times a s.runq.items + times a s.hp_runq.items

-- How often it stands in any queue.
abbrev pub present : ℕ → Sched → ℕ
present a s = queued a s + times a s.waitq

-- The state `s'` has the threads of `s` queued, and those of `ts` less those of `kept`; the wait
-- queue and the options are as they were.
abbrev pub Moves : List ℕ → Sched → List ℕ → Sched → Type 0
Moves ts s kept s' =
    ((a : ℕ) → queued a s' + times a kept ≡ queued a s + times a ts)
    × (s'.waitq ≡ s.waitq)
    × (s'.opts ≡ s.opts)

-- Waking a thread puts it into one of the run queues, once.
wake-Moves :
    (st : ℕ) (why : WakeReason) (t : ℕ) (s : Sched)
    → is_null s.opts.turn_type ≡ false
    → Ensures (Moves (t ∷ []) s []) (wake st why t s)
unfolding wake
wake-Moves st why t s nn = rw nn (
    Ensures.branch (s.opts.hp_policy && not (t == 1))
      (λ e.
        Ensures.branch (s.hp_known t)
          (λ k. ensured (λ a. ground (arith, times-append a s.hp_runq.items (t ∷ [])), refl, refl))
          (λ k. failed))
      (λ e.
        Ensures.branch (s.known t)
          (λ k. ensured (λ a. ground (arith, times-append a s.runq.items (t ∷ [])), refl, refl))
          (λ k. failed)))

fire-Moves :
    (ts : List ℕ) (s : Sched)
    → is_null s.opts.turn_type ≡ false
    → Ensures (λ (kept, n, s'). Moves ts s kept s') (fire ts s)
unfolding fire
fire-Moves [] s nn = ensured (λ a. refl, refl, refl)
fire-Moves (t ∷ ts) s nn =
    Ensures.after_assert s.opts.ndebug _ (elim (Bool-cases (ltb (s.slots t).timeout s.turn_count)) [
      | inl e ↦ rw e (
          Ensures.bind (wake-Moves etimedout timedout t s nn) λ s1 m.
            Ensures.bind (fire-Moves ts s1 (ground arith)) λ (kept, n, s2) f.
              ensured (λ a. ground (arith, m.0 a, f.0 a), ground arith, ground arith))
      | inr e ↦ rw e (
          Ensures.bind (fire-Moves ts s nn)
            λ (kept, n, s2) f. ensured (λ a. ground (arith, f.0 a), ground arith, ground arith))
    ])

scan-Moves :
    (chan : ℕ) (every : Bool) (ts : List ℕ) (s : Sched)
    → is_null s.opts.turn_type ≡ false
    → Ensures (λ (kept, s'). Moves ts s kept s') (scan chan every ts s)
unfolding scan
scan-Moves chan every [] s nn = ensured (λ a. refl, refl, refl)
scan-Moves chan every (t ∷ ts) s nn =
    Ensures.after_assert s.opts.ndebug _ (elim (Bool-cases ((s.slots t).chan == chan)) [
      | inl e ↦ rw e (
          Ensures.bind (wake-Moves 0 signaled t s nn) λ s1 m.
            Ensures.bind
              (Ensures.branch {P = λ (kept, s'). Moves ts s1 kept s'} (not every)
                (λ one. ensured (λ a. refl, refl, refl))
                (λ more. scan-Moves chan every ts s1 (ground arith)))
              λ (kept, s2) f.
                ensured (λ a. ground (arith, m.0 a, f.0 a), ground arith, ground arith))
      | inr e ↦ rw e (
          Ensures.bind (scan-Moves chan every ts s nn)
            λ (kept, s2) f. ensured (λ a. ground (arith, f.0 a), ground arith, ground arith))
    ])

pub passes : (me : ℕ) (s : Sched) → Ensures (λ _. Unit {0}) (assert_front me s)
passes me s = go (assert_front me s)
  where
    go : (r : Result (Unit {0})) → Ensures (λ _. Unit {0}) r
    go (ok u) = ensured tt
    go (err e) = failed

pub fire_timeouts-Keeps :
    (s : Sched)
    → is_null s.opts.turn_type ≡ false
    → Ensures (λ (n, s'). (a : ℕ) → present a s' ≡ present a s) (fire_timeouts s)
unfolding fire_timeouts
fire_timeouts-Keeps s nn =
    Ensures.bind (fire-Moves s.waitq s nn) λ (kept, n, s') m. ensured (λ a. ground (arith, m.0 a))

pub signal-Keeps :
    (me chan : ℕ) (every : Bool) (s : Sched)
    → is_null s.opts.turn_type ≡ false
    → Ensures
        (λ s'. ((a : ℕ) → present a s' ≡ present a s) × (s'.opts ≡ s.opts))
        (signal me chan every s)
unfolding signal
signal-Keeps me chan every s nn = Ensures.after_assert s.opts.ndebug _ (
    Ensures.bind (passes me s) λ u _.
      Ensures.bind (scan-Moves chan every s.waitq s nn)
        λ (kept, s') m. ensured (λ a. ground (arith, m.0 a), m.2))

-- With a relayed turn, where `fireTimeouts` returns, every thread stands in the run queues and the
-- wait queue together as often as before: none is lost or doubled, also with the high priority
-- queue on.
fire_timeouts-present :
    (s : Sched) (n : ℕ) (s' : Sched)
    → is_null s.opts.turn_type ≡ false
    → fire_timeouts s ≡ ok (n, s')
    → (a : ℕ) → present a s' ≡ present a s
fire_timeouts-present s n s' nn e = Ensures.of_ok (fire_timeouts-Keeps s nn) e

-- With a relayed turn, where `signal` returns, to one waiter or to all, every thread stands in the
-- run queues and the wait queue together as often as before, also with the high priority queue on.
signal-present :
    (me chan : ℕ) (every : Bool) (s s' : Sched)
    → is_null s.opts.turn_type ≡ false
    → signal me chan every s ≡ ok s'
    → (a : ℕ) → present a s' ≡ present a s
signal-present me chan every s s' nn e = (Ensures.of_ok (signal-Keeps me chan every s nn) e).0
