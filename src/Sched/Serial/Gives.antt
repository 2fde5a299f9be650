-- ===== src/Sched/Serial/Gives.antt =====
-- `putTurn`, `wait` and `block` hand the turn to one thread at most.
use min_smt.Prelude.{
  ℕ, ◌+◌, ◌%◌, ◌≡◌, refl, Bool, false, not, ◌++◌, List, [], ◌∷◌, ltb, ◌==◌, Bool-cases, inl, inr,
  bad_pointer, update, is_empty,
}
use min_smt.Prelude.Ensures
use min_smt.Prelude.Ensures.{Ensures, ensured, failed}
use min_smt.RunQueue.{runnable}
use min_smt.TidMap
use min_smt.TidMap.{Pthread, idle_thread_tid}
use min_smt.NonDetSet
use min_smt.Sched.Defs.{Sched, Strategy, default_strategy, is_null, uint_mod, forever}
use min_smt.Sched.Queues.{set_status, insert_yield, assert_front}
use min_smt.Sched.Next.{is_running_reg, is_runnable}
use min_smt.Sched.Turn.{
  check_non_det_bound, requeue, put_turn, wait, block, stays, is_yield, try_rest, try_put_turn,
  idle_thread_cond_wait,
}
use min_smt.Sched.Serial.Quiet
use min_smt.Sched.Serial.Quiet.{IsQuiet, same_slots, one_slot, then-IsQuiet, relayed, with_non_det}
use min_smt.Sched.Serial.Rounds
use min_smt.Sched.Serial.Passes.{IsPassed, then-IsPassed, next-IsPassed}

insert_yield-IsQuiet : (t : ℕ) (s : Sched) → Ensures (IsQuiet s) (insert_yield t s)
unfolding insert_yield
insert_yield-IsQuiet t s =
    Ensures.branch (not (s.known t)) (λ e. failed {e = bad_pointer})
      (λ e.
        Ensures.on_list s.runq.items (ensured (same_slots s _ refl refl))
          (λ a r. ensured (same_slots s _ refl refl)))

requeue-IsQuiet : (me : ℕ) (st : Strategy) (s : Sched) → Ensures (IsQuiet s) (requeue me st s)
unfolding requeue
requeue-IsQuiet me st s =
    Ensures.branch (stays st) (λ e. ensured (same_slots s s refl refl))
      (λ e. Ensures.bind (Rounds.leave_queue-IsQuiet me s) λ s1 q.
        Ensures.branch (is_yield st)
          (λ y. Ensures.mono (insert_yield-IsQuiet me s1) λ s2 r. then-IsQuiet s s1 s2 q r)
          (λ y. Ensures.mono (Quiet.push_runq-IsQuiet me s1) λ s2 r. then-IsQuiet s s1 s2 q r))

check_non_det_bound-IsQuiet :
    (s : Sched) → is_null s.opts.turn_type ≡ false → Ensures (IsQuiet s) (check_non_det_bound s)
unfolding check_non_det_bound
check_non_det_bound-IsQuiet s nn = rw nn (
    Ensures.branch (not s.opts.enforce_non_det_clock_bound)
      (λ e. ensured (same_slots s s refl refl))
      (λ e. Ensures.bind (Ensures.always (NonDetSet.size s.opts.ndebug s.non_det)) λ n _.
        Ensures.branch (n == 0) (λ z. ensured (same_slots s s refl refl))
          (λ z.
            Ensures.bind (Ensures.always (NonDetSet.first_thread s.opts.ndebug s.non_det)) λ t _.
              Ensures.bind (Ensures.always (NonDetSet.get_clock s.opts.ndebug t s.non_det))
                λ (clock, looked_up) _.
                  let s1 : Sched = record s { non_det = looked_up } in
                  let same = same_slots s s1 refl refl in
                  Ensures.branch
                    (ltb ((clock + s.opts.non_det_clock_bound) % uint_mod) s.turn_count)
                    (λ l. Ensures.bind (Quiet.push_runq-IsQuiet t s1) λ s2 q.
                      Ensures.bind (Ensures.always (NonDetSet.remove s2.opts.ndebug t s2.non_det))
                        λ d _. ensured (with_non_det s s2 d (then-IsQuiet s s1 s2 same q)))
                    (λ l. ensured same))))

pub put_turn-IsPassed :
    (me : ℕ) (th : Pthread) (at_end : Bool) (st : Strategy) (s : Sched)
    → is_null s.opts.turn_type ≡ false
    → Ensures (λ (r, s'). IsPassed s r s') (put_turn me th at_end st s)
unfolding put_turn
put_turn-IsPassed me th at_end st s nn = rw nn (
    Ensures.after_assert s.opts.ndebug (ltb me s.tids.nthread) (
      Ensures.bind (Ensures.always (assert_front me s)) λ u _.
        Ensures.bind {P = λ (popped, s3). IsQuiet s s3}
          (Ensures.branch at_end
            (λ e. Ensures.bind (Quiet.signal-IsQuiet me th false s nn) λ s1 q.
              Ensures.bind (Ensures.always (TidMap.zombify s1.opts.ndebug me th s1.tids))
                λ m _. ensured (record { opts = q.opts; fewer = q.fewer }))
            (λ e. Ensures.after_assert s.opts.ndebug (is_running_reg (s.status me)) (
              Ensures.bind
                (Ensures.branch (s.known me)
                  (λ k.
                    Ensures.mono (requeue-IsQuiet me st (set_status me runnable s))
                      λ s2 q. then-IsQuiet s _ s2 (same_slots s _ refl refl) q)
                  (λ k. failed {e = bad_pointer}))
                λ s2 q. ensured q)))
          λ (popped, s3) q.
            Ensures.bind (check_non_det_bound-IsQuiet s3 (relayed s s3 q nn)) λ s4 r.
              let t = then-IsQuiet s s3 s4 q r in
              Ensures.mono (next-IsPassed me at_end popped st s4 (relayed s s4 t nn))
                λ (n, s5) p. then-IsPassed s s4 s5 n t p))

pub wait-IsPassed :
    (me chan nturn : ℕ) (s : Sched)
    → is_null s.opts.turn_type ≡ false
    → Ensures (λ (r, s'). IsPassed s r s') (wait me chan nturn s)
unfolding wait
wait-IsPassed me chan nturn s nn = Ensures.bind (Quiet.inc_turn_count-IsQuiet s nn) λ (n, s1) q.
    Ensures.after_assert s1.opts.ndebug (ltb me s1.tids.nthread) (
      Ensures.bind (Ensures.always (assert_front me s1)) λ u _.
        let s3 : Sched = record s1 {
          slots = update s1.slots me (record (s1.slots me) { chan = chan; timeout = nturn });
          waitq = s1.waitq ++ me ∷ [];
        } in
        let t = then-IsQuiet s s1 s3 q (one_slot me _ s1 s3 refl refl refl (inr refl)) in
        rw (relayed s s1 q nn) (
          Ensures.mono (next-IsPassed me false false default_strategy s3 (relayed s s3 t nn))
            λ (k, s5) p. then-IsPassed s s3 s5 k t p))

try_rest-slots :
    (ts : List ℕ) (s : Sched)
    → ((try_rest ts s).1.opts ≡ s.opts) × ((try_rest ts s).1.slots ≡ s.slots)
unfolding try_rest
try_rest-slots [] s = (refl, refl)
try_rest-slots (t ∷ ts) s = elim (Bool-cases (is_runnable (s.status t))) [
  | inl e ↦ rw e (refl, refl)
  | inr e ↦ rw e (try_rest-slots ts s)
]

try_put_turn-IsQuiet : (me : ℕ) (s : Sched) → Ensures (λ (b, s'). IsQuiet s s') (try_put_turn me s)
unfolding try_put_turn
try_put_turn-IsQuiet me s = Ensures.after_assert s.opts.ndebug (not (is_empty s.runq.items)) (
    Ensures.bind (Ensures.always (assert_front me s)) λ u _.
      Ensures.on_list s.runq.items (failed {e = bad_pointer}) (λ t ts.
        ensured (same_slots s (try_rest ts s).1 (try_rest-slots ts s).0 (try_rest-slots ts s).1)))

pub idle_thread_cond_wait-IsPassed :
    (me : ℕ) (th : Pthread) (idle_cond : ℕ) (s : Sched)
    → is_null s.opts.turn_type ≡ false
    → Ensures (λ (r, s'). IsPassed s r s') (idle_thread_cond_wait me th idle_cond s)
unfolding idle_thread_cond_wait
idle_thread_cond_wait-IsPassed me th idle_cond s nn =
    Ensures.bind (try_put_turn-IsQuiet me s) λ (done, s1) q.
      Ensures.branch done
        (λ e. Ensures.after_assert s1.opts.ndebug (me == idle_thread_tid) (
          let s3 : Sched = record s1 {
            slots =
                update s1.slots me (record (s1.slots me) { chan = idle_cond; timeout = forever });
            waitq = s1.waitq ++ me ∷ [];
          } in
          let t = then-IsQuiet s s1 s3 q (one_slot me _ s1 s3 refl refl refl (inr refl)) in
          Ensures.bind (Ensures.always (assert_front me s3)) λ u _.
            Ensures.mono (next-IsPassed me false false default_strategy s3 (relayed s s3 t nn))
              λ (k, s5) p. then-IsPassed s s3 s5 k t p))
        (λ e.
          Ensures.mono (put_turn-IsPassed me th false default_strategy s1 (relayed s s1 q nn))
            λ (k, s5) p. then-IsPassed s s1 s5 k q p)

pub block-IsPassed :
    (me : ℕ) (s : Sched)
    → is_null s.opts.turn_type ≡ false
    → Ensures (λ (n, r, s'). IsPassed s r s') (block me s)
unfolding block
block-IsPassed me s nn = Ensures.bind (Rounds.note_non_det-IsQuiet me s) λ s1 q1.
    Ensures.after_assert s1.opts.ndebug (ltb me s1.tids.nthread) (
      Ensures.bind (Ensures.always (assert_front me s1)) λ u _.
        Ensures.bind (Quiet.inc_turn_count-IsQuiet s1 (relayed s s1 q1 nn)) λ (n, s2) q2.
          let q = then-IsQuiet s s1 s2 q1 q2 in
          Ensures.bind (next-IsPassed me false false default_strategy s2 (relayed s s2 q nn))
            λ (t, s3) p. ensured (then-IsPassed s s2 s3 t q p))
