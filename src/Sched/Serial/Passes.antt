-- ===== src/Sched/Serial/Passes.antt =====
-- Operations that hand the turn on: at most the thread that they name gets a token, and one.
use min_smt.Prelude.{
  ℕ, ◌+◌, ◌≤◌, ◌<◌, ◌≡◌, refl, Bool, true, false, Option, none, some, arith, ltb, ◌==◌,
  if◌then◌else◌, ok, ◌>>◌, Bool-cases, inl, inr, assert, update, subst, sym, eq_of_==,
}
use min_smt.Prelude.Ensures
use min_smt.Prelude.Ensures.{Ensures, ensured, failed}
use min_smt.Sched.Defs.{
  Sched, Slot, Strategy, TurnType, semaphore_relay, hybrid_relay, busy_relay, null_policy,
  other_relay, is_null, post,
}
use min_smt.Sched.Queues.{post_to}
use min_smt.Sched.Next.{next, rounds}
use min_smt.Sched.Serial.Quiet
use min_smt.Sched.Serial.Quiet.{
  IsQuiet, is_relay, tokens, pending, same_slots, one_slot, then-IsQuiet, relayed, with_non_det,
}
use min_smt.Sched.Serial.Rounds

-- The tokens that a thread may get when `r` is chosen.
abbrev pub given : Option ℕ → ℕ → ℕ
given none a = 0
given (some t) a = if a == t then 1 else 0

-- From `s` to `s'` the chosen thread gets a token under a relay, and no other thread does.
pub record IsPassed (s : Sched) (r : Option ℕ) (s' : Sched) : Type 0 where
  pub opts : s'.opts ≡ s.opts
  pub reaches :
      (t : ℕ)
      → r ≡ some t
      → is_relay s.opts.turn_type ≡ true
      → 0 < tokens s.opts.turn_type (s'.slots t)
  pub at_most : (a : ℕ) → tokens s.opts.turn_type (s'.slots a) ≤ pending s a + given r a

pub then-IsPassed :
    (s s1 s2 : Sched) (r : Option ℕ) → IsQuiet s s1 → IsPassed s1 r s2 → IsPassed s r s2
then-IsPassed s s1 s2 r q p = record {
  opts = ground (arith, q.opts, p.opts);
  reaches = λ t e k. ground (arith, q.opts, p.reaches t e, k);
  at_most = λ a. ground (arith, q.opts, q.fewer a, p.at_most a);
}

post-tokens : (p : TurnType) (w : Slot) → tokens p (post p w) ≤ tokens p w + 1
unfolding post
post-tokens semaphore_relay w = omega arith
post-tokens hybrid_relay w = ground arith
post-tokens busy_relay w = ground arith
post-tokens null_policy w = omega arith
post-tokens other_relay w = omega arith

post-reaches : (p : TurnType) (w : Slot) → is_relay p ≡ true → 0 < tokens p (post p w)
unfolding post
post-reaches semaphore_relay w k = omega arith
post-reaches hybrid_relay w k = omega arith
post-reaches busy_relay w k = omega arith
post-reaches null_policy w k = cc
post-reaches other_relay w k = cc

pub post_to-IsPassed : (t : ℕ) (s : Sched) → IsPassed s (some t) (post_to t s)
unfolding post_to
post_to-IsPassed t s = record {
  opts = refl;
  reaches = λ u e k. ground (arith, e, post-reaches s.opts.turn_type (s.slots t) k);
  at_most = at;
}
  where
    at :
        (a : ℕ)
        → tokens s.opts.turn_type (update s.slots t (post s.opts.turn_type (s.slots t)) a)
          ≤ pending s a + (if a == t then 1 else 0)
    at a = elim (Bool-cases (a == t)) [
      | inl h ↦ rw h (
          subst (λ j. tokens s.opts.turn_type (post s.opts.turn_type (s.slots t)) ≤ pending s j + 1)
            (sym (eq_of_== _ _ h)) (post-tokens s.opts.turn_type (s.slots t)))
      | inr h ↦ rw h (omega arith)
    ]

-- The end of `next`.
hand_on-IsPassed :
    (s s3 : Sched) (t : Option ℕ)
    → IsQuiet s s3
    → Ensures
        (λ (r, s'). IsPassed s r s')
        (elim t [
          | none ↦ ok (none, s3)
          | some n ↦ assert s3.opts.ndebug (ltb n s3.tids.nthread) >> ok (some n, post_to n s3)
        ])
hand_on-IsPassed s s3 none q =
    ensured
      (record { opts = q.opts; reaches = λ t e k. cc; at_most = λ a. ground (arith, q.fewer a) })
hand_on-IsPassed s s3 (some n) q =
    Ensures.after_assert s3.opts.ndebug (ltb n s3.tids.nthread)
      (ensured (then-IsPassed s s3 _ (some n) q (post_to-IsPassed n s3)))

pub next-IsPassed :
    (me : ℕ) (at_end popped : Bool) (st : Strategy) (s : Sched)
    → is_null s.opts.turn_type ≡ false
    → Ensures (λ (r, s'). IsPassed s r s') (next me at_end popped st s)
unfolding next
next-IsPassed me at_end popped st s nn = rw nn (
    Ensures.bind
      (Ensures.branch popped (λ e. ensured (same_slots s s refl refl))
        (λ e.
          Ensures.bind (Rounds.settle_status-IsQuiet me s) λ s1 q.
            Ensures.mono (Rounds.leave_queue-IsQuiet me s1) λ s2 r. then-IsQuiet s s1 s2 q r))
      λ s1 q1. Ensures.bind (Quiet.check_wakeup-IsQuiet s1 (relayed s s1 q1 nn)) λ s2 q2.
        let q = then-IsQuiet s s1 s2 q1 q2 in
        Ensures.bind (Rounds.next_runnable-IsQuiet (rounds s2) me at_end st s2 (relayed s s2 q nn))
          λ (t, s3) q3. hand_on-IsPassed s s3 t (then-IsQuiet s s2 s3 q q3))
