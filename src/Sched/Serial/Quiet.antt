-- ===== src/Sched/Serial/Quiet.antt =====
-- Operations that hand out no turn: no slot has a token that it did not have before.
use min_smt.Prelude.{
  ℕ, ◌+◌, ◌≤◌, ◌%◌, ◌≡◌, refl, Bool, true, false, not, ◌&&◌, List, [], ◌∷◌, arith, ltb, ◌==◌,
  if◌then◌else◌, ◌⊎◌, subst, sym, eq_of_==, update, Bool-cases, inl, inr,
}
use min_smt.Prelude.Ensures
use min_smt.Prelude.Ensures.{Ensures, ensured, failed}
use min_smt.NonDetSet
use min_smt.Sched.Defs.{
  Sched, Slot, TurnType, semaphore_relay, hybrid_relay, busy_relay, null_policy, other_relay,
  WakeReason, timedout, signaled, etimedout, is_null, uint_mod,
}
use min_smt.Sched.Queues.{wake, push_runq, assert_front, in_runq}
use min_smt.Sched.Wakeups.{fire, fire_timeouts, wake_all, check_wakeup, inc_turn_count}
use min_smt.Sched.Signals.{scan, signal}

-- How often a thread can get the turn by its slot alone, under each kind of relay.
abbrev pub tokens : TurnType → Slot → ℕ
tokens semaphore_relay w = w.sem
tokens hybrid_relay w = if w.waken_up then 1 else 0
tokens busy_relay w = if w.waken_up then 1 else 0
tokens null_policy w = 0
tokens other_relay w = 0

-- The kinds of relay under which `getTurn` waits for a token.
abbrev pub is_relay : TurnType → Bool
is_relay semaphore_relay = true
is_relay hybrid_relay = true
is_relay busy_relay = true
is_relay null_policy = false
is_relay other_relay = false

abbrev pub pending : Sched → ℕ → ℕ
pending s a = tokens s.opts.turn_type (s.slots a)

-- From `s` to `s'` no token is new, and the options stay.
pub record IsQuiet (s s' : Sched) : Type 0 where
  pub opts : s'.opts ≡ s.opts
  pub fewer : (a : ℕ) → tokens s.opts.turn_type (s'.slots a) ≤ pending s a

pub same_slots : (s s' : Sched) → s'.opts ≡ s.opts → s'.slots ≡ s.slots → IsQuiet s s'
same_slots s s' o e = record { opts = o; fewer = λ a. rw e (omega arith) }

pub then-IsQuiet : (s s1 s2 : Sched) → IsQuiet s s1 → IsQuiet s1 s2 → IsQuiet s s2
then-IsQuiet s s1 s2 p q = record {
  opts = ground (arith, p.opts, q.opts);
  fewer = λ a. ground (arith, p.opts, p.fewer a, q.fewer a);
}

pub relayed :
    (s s' : Sched)
    → IsQuiet s s'
    → is_null s.opts.turn_type ≡ false
    → is_null s'.opts.turn_type ≡ false
relayed s s' q nn = ground (arith, q.opts)

-- A slot with the semaphore of `w` and no more of the mark has no token that `w` lacks.
tokens-le :
    (p : TurnType) (v w : Slot)
    → v.sem ≡ w.sem
    → (v.waken_up ≡ false) ⊎ (v.waken_up ≡ w.waken_up)
    → tokens p v ≤ tokens p w
tokens-le semaphore_relay v w e f = omega (arith, e)
tokens-le hybrid_relay v w e f = ground (arith, f)
tokens-le busy_relay v w e f = ground (arith, f)
tokens-le null_policy v w e f = omega arith
tokens-le other_relay v w e f = omega arith

pub one_slot :
    (t : ℕ) (w : Slot) (s s' : Sched)
    → s'.opts ≡ s.opts
    → s'.slots ≡ update s.slots t w
    → w.sem ≡ (s.slots t).sem
    → (w.waken_up ≡ false) ⊎ (w.waken_up ≡ (s.slots t).waken_up)
    → IsQuiet s s'
one_slot t w s s' o e m f = record { opts = o; fewer = λ a. rw e (at a) }
  where
    at : (a : ℕ) → tokens s.opts.turn_type (update s.slots t w a) ≤ pending s a
    at a = elim (Bool-cases (a == t)) [
      | inl h ↦
          subst (λ j. tokens s.opts.turn_type (update s.slots t w j) ≤ pending s j)
            (sym (eq_of_== _ _ h)) (ground (arith, tokens-le s.opts.turn_type w (s.slots t) m f))
      | inr h ↦ rw h (omega arith)
    ]

-- Resetting a slot takes its token, or leaves it.
wake-IsQuiet :
    (st : ℕ) (why : WakeReason) (t : ℕ) (s : Sched)
    → is_null s.opts.turn_type ≡ false
    → Ensures (IsQuiet s) (wake st why t s)
unfolding wake
wake-IsQuiet st why t s nn = rw nn (
    Ensures.branch (s.opts.hp_policy && not (t == 1))
      (λ e.
        Ensures.branch (s.hp_known t) (λ k. ensured (one_slot t _ s _ refl refl refl (inl refl)))
          (λ k. failed))
      (λ e.
        Ensures.branch (s.known t) (λ k. ensured (one_slot t _ s _ refl refl refl (inl refl)))
          (λ k. failed)))

fire-IsQuiet :
    (ts : List ℕ) (s : Sched)
    → is_null s.opts.turn_type ≡ false
    → Ensures (λ (kept, n, s'). IsQuiet s s') (fire ts s)
unfolding fire
fire-IsQuiet [] s nn = ensured (same_slots s s refl refl)
fire-IsQuiet (t ∷ ts) s nn =
    Ensures.after_assert s.opts.ndebug _ (elim (Bool-cases (ltb (s.slots t).timeout s.turn_count)) [
      | inl e ↦ rw e (
          Ensures.bind (wake-IsQuiet etimedout timedout t s nn) λ s1 q.
            Ensures.bind (fire-IsQuiet ts s1 (relayed s s1 q nn))
              λ (kept, n, s2) r. ensured (then-IsQuiet s s1 s2 q r))
      | inr e ↦ rw e (Ensures.bind (fire-IsQuiet ts s nn) λ (kept, n, s2) r. ensured r)
    ])

scan-IsQuiet :
    (chan : ℕ) (every : Bool) (ts : List ℕ) (s : Sched)
    → is_null s.opts.turn_type ≡ false
    → Ensures (λ (kept, s'). IsQuiet s s') (scan chan every ts s)
unfolding scan
scan-IsQuiet chan every [] s nn = ensured (same_slots s s refl refl)
scan-IsQuiet chan every (t ∷ ts) s nn =
    Ensures.after_assert s.opts.ndebug _ (elim (Bool-cases ((s.slots t).chan == chan)) [
      | inl e ↦ rw e (
          Ensures.bind (wake-IsQuiet 0 signaled t s nn) λ s1 q.
            Ensures.bind
              (Ensures.branch {P = λ (kept, s'). IsQuiet s1 s'} (not every)
                (λ one. ensured (same_slots s1 s1 refl refl))
                (λ more. scan-IsQuiet chan every ts s1 (relayed s s1 q nn)))
              λ (kept, s2) r. ensured (then-IsQuiet s s1 s2 q r))
      | inr e ↦ rw e (Ensures.bind (scan-IsQuiet chan every ts s nn) λ (kept, s2) r. ensured r)
    ])

-- A change of the wait queue alone gives no token.
pub with_waitq : (s s1 : Sched) (ts : List ℕ) → IsQuiet s s1 → IsQuiet s (record s1 { waitq = ts })
with_waitq s s1 ts q = record { opts = q.opts; fewer = q.fewer }

pub signal-IsQuiet :
    (me chan : ℕ) (every : Bool) (s : Sched)
    → is_null s.opts.turn_type ≡ false
    → Ensures (IsQuiet s) (signal me chan every s)
unfolding signal
signal-IsQuiet me chan every s nn = Ensures.after_assert s.opts.ndebug _ (
    Ensures.bind (Ensures.always (assert_front me s)) λ u _.
      Ensures.bind (scan-IsQuiet chan every s.waitq s nn)
        λ (kept, s1) q. ensured (with_waitq s s1 kept q))

pub push_runq-IsQuiet : (t : ℕ) (s : Sched) → Ensures (IsQuiet s) (push_runq t s)
unfolding push_runq
push_runq-IsQuiet t s =
    Ensures.branch (s.known t) (λ k. ensured (same_slots s _ refl refl)) (λ k. failed)

-- A change of the set of threads in regions alone gives no token.
pub with_non_det :
    (s s1 : Sched) (d : NonDetSet.NonDetSet) → IsQuiet s s1 → IsQuiet s (record s1 { non_det = d })
with_non_det s s1 d q = record { opts = q.opts; fewer = q.fewer }

wake_all-IsQuiet :
    (ts : List ℕ) (s : Sched)
    → is_null s.opts.turn_type ≡ false
    → Ensures (IsQuiet s) (wake_all ts s)
unfolding wake_all
wake_all-IsQuiet [] s nn = ensured (same_slots s s refl refl)
wake_all-IsQuiet (t ∷ ts) s nn = rw nn (
    Ensures.bind (Ensures.always (in_runq t s)) λ inside _.
      Ensures.bind
        (Ensures.branch inside (λ e. ensured (same_slots s s refl refl))
          (λ e. Ensures.bind (push_runq-IsQuiet t s) λ s1 q.
            Ensures.branch s1.opts.enforce_non_det_clock_bound
              (λ b.
                Ensures.bind (Ensures.always (NonDetSet.remove s1.opts.ndebug t s1.non_det))
                  λ d _. ensured (with_non_det s s1 d q))
              (λ b. ensured q)))
        λ s1 q.
          Ensures.mono (wake_all-IsQuiet ts s1 (relayed s s1 q nn))
            λ s2 r. then-IsQuiet s s1 s2 q r)

pub check_wakeup-IsQuiet :
    (s : Sched) → is_null s.opts.turn_type ≡ false → Ensures (IsQuiet s) (check_wakeup s)
unfolding check_wakeup
check_wakeup-IsQuiet s nn =
    Ensures.branch s.wakeup_flag
      (λ e.
        Ensures.bind (wake_all-IsQuiet s.wakeup_tids s nn)
          λ s1 q. ensured (record { opts = q.opts; fewer = q.fewer }))
      (λ e. ensured (same_slots s s refl refl))

fire_timeouts-IsQuiet :
    (s : Sched)
    → is_null s.opts.turn_type ≡ false
    → Ensures (λ (n, s'). IsQuiet s s') (fire_timeouts s)
unfolding fire_timeouts
fire_timeouts-IsQuiet s nn =
    Ensures.bind (fire-IsQuiet s.waitq s nn) λ (kept, n, s1) q. ensured (with_waitq s s1 kept q)

pub inc_turn_count-IsQuiet :
    (s : Sched)
    → is_null s.opts.turn_type ≡ false
    → Ensures (λ (n, s'). IsQuiet s s') (inc_turn_count s)
unfolding inc_turn_count
inc_turn_count-IsQuiet s nn =
    let s0 : Sched = record s { turn_count = (s.turn_count + 1) % uint_mod } in
    Ensures.bind (fire_timeouts-IsQuiet s0 nn) λ (n, s1) q.
      Ensures.bind (check_wakeup-IsQuiet s1 (relayed s0 s1 q nn))
        λ s2 r. ensured (then-IsQuiet s s1 s2 (record { opts = q.opts; fewer = q.fewer }) r)
