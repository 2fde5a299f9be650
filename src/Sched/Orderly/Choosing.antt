-- ===== src/Sched/Orderly/Choosing.antt =====
-- `nextRunnable` and `next` keep the queues in order.
use min_smt.Prelude.{
  ℕ, zero, suc, ◌+◌, ◌≡◌, refl, Bool, true, false, not, ◌&&◌, ◌||◌, Option, none, some, ◌∷◌, ltb,
  ◌==◌, arith, ok, ◌>>=◌, exited, is_empty, ap, ◌∙◌, assert, ◌>>◌,
}
use min_smt.Prelude.Ensures
use min_smt.Prelude.Ensures.{Ensures, ensured, failed}
use min_smt.TidMap
use min_smt.TidMap.{main_thread_tid, idle_thread_tid}
use min_smt.Sched.Defs.{Sched, Strategy, current_role, default_strategy, is_null}
use min_smt.Sched.Queues.{pop_runq, set_status, post_to, push_runq}
use min_smt.Sched.Next.{
  Round, again, chosen, invalid, note_non_det, take_turn, round_role, round_head, round_plain,
  one_round, next_runnable, leave_queue, settle_status, next, rounds, is_stop, is_running_reg,
  is_running_inter_pro, is_current_role, wants_hp,
}
use min_smt.Sched.Conserve.{times}
use min_smt.Sched.Orderly.Order.{IsOrderly, placed, Thins, Thins-IsOrderly, post_to-Thins}
use min_smt.Sched.Orderly.Moving.{signal-IsOrderly, wake_up_idle_thread-IsOrderly}
use min_smt.Sched.Orderly.Waking.{push_runq-IsOrderly, check_wakeup-IsOrderly}
use min_smt.Sched.Orderly.Heads.{
  tail, left, left-IsOrderly, alike-Thins, pop_runq-left, front-head, note_non_det-Thins,
  take_turn-Thins,
}

-- A blocked head is popped, and noted.
drop_head-IsOrderly :
    (t : ℕ) (st : Strategy) (s : Sched)
    → IsOrderly s
    → Ensures
        (λ (r, s'). IsOrderly s')
        (pop_runq s >>= λ s1. note_non_det t s1 >>= λ s2. ok (again st, s2))
drop_head-IsOrderly t st s v = Ensures.bind (pop_runq-left s) λ s1 p.
    Ensures.bind (note_non_det-Thins t s1) λ s2 q.
      ensured (Thins-IsOrderly s1 s2 (Thins-IsOrderly (left s) s1 (left-IsOrderly s v) p.0) q)

-- The head goes to the end of the queue.
pub move_back-IsOrderly :
    (t : ℕ) (s s1 : Sched)
    → IsOrderly s
    → s.runq.items ≡ t ∷ tail s.runq.items
    → Thins (left s) s1
    → s1.runq.items ≡ tail s.runq.items
    → Ensures IsOrderly (push_runq t s1)
move_back-IsOrderly t s s1 v e p q =
    let v1 = Thins-IsOrderly (left s) s1 (left-IsOrderly s v) p in
    let there : times t s.runq.items ≡ 1 + times t (tail s.runq.items) =
      ap (times t) e ∙ ground arith in
    let out : placed t s1 ≡ 0 =
      omega (arith, v.once t, there, ap (times t) q, ap (times t) p.waitq) in
    Ensures.mono
      (push_runq-IsOrderly t s1 v1 out (ground (arith, there, v.once t, v.ids t, p.nthread)))
      λ s2 r. r.0

round_role-IsOrderly :
    (me : ℕ) (s : Sched) → IsOrderly s → Ensures (λ (r, s'). IsOrderly s') (round_role me s)
unfolding round_role
round_role-IsOrderly me s v =
    Ensures.bind (Ensures.always (TidMap.get_roleid s.opts.ndebug me s.tids)) λ role _.
      Ensures.bind (front-head s) λ t e.
        Ensures.branch (is_stop (s.status t)) (λ b. drop_head-IsOrderly t current_role s v)
          (λ b. Ensures.bind (Ensures.always (TidMap.get_roleid s.opts.ndebug t s.tids)) λ its _.
            Ensures.branch (role == its)
              (λ i. ensured (Thins-IsOrderly s (take_turn t s) v (take_turn-Thins t s)))
              (λ i.
                Ensures.bind (pop_runq-left s)
                  λ s1 p. Ensures.bind (move_back-IsOrderly t s s1 v e p.0 p.1) λ s2 w. ensured w))

round_head-IsOrderly :
    (st : Strategy) (s : Sched) → IsOrderly s → Ensures (λ (r, s'). IsOrderly s') (round_head st s)
unfolding round_head
round_head-IsOrderly st s v = Ensures.after_assert s.opts.ndebug _ (
    Ensures.bind (front-head s) λ t e.
      Ensures.branch (is_stop (s.status t)) (λ b. drop_head-IsOrderly t st s v)
        (λ b. ensured (Thins-IsOrderly s (take_turn t s) v (take_turn-Thins t s))))

round_plain-IsOrderly :
    (me : ℕ) (at_end : Bool) (st : Strategy) (s : Sched)
    → IsOrderly s
    → Ensures (λ (r, s'). IsOrderly s') (round_plain me at_end st s)
unfolding round_plain
round_plain-IsOrderly me at_end st s v =
    Ensures.on_list s.runq.items
      (Ensures.branch (at_end && (is_empty s.waitq || me == main_thread_tid))
        (λ o. ensured {a = (invalid, s)} v)
        (λ o.
          Ensures.branch (s.opts.launch_idle_thread == 0) (λ z. failed {e = exited})
            (λ z. Ensures.after_assert s.opts.ndebug (not (me == idle_thread_tid)) (
              Ensures.bind (wake_up_idle_thread-IsOrderly s v)
                λ s1 w. round_head-IsOrderly default_strategy s1 w))))
      (λ t ts.
        Ensures.branch
          (s.opts.enforce_non_det_annotations
            && ltb 0 s.n_non_det_wait
            && me == idle_thread_tid
            && is_empty ts
            && t == idle_thread_tid)
          (λ o.
            Ensures.bind (signal-IsOrderly me s.opts.non_det_cv true s v)
              λ s1 w. round_head-IsOrderly st s1 w)
          (λ o. round_head-IsOrderly st s v))

one_round-IsOrderly :
    (me : ℕ) (at_end : Bool) (st : Strategy) (s : Sched)
    → IsOrderly s
    → Ensures (λ (r, s'). IsOrderly s') (one_round me at_end st s)
unfolding one_round
one_round-IsOrderly me at_end st s v =
    Ensures.branch (wants_hp me st s)
      (λ e. unfold wants_hp in absurd (ground (arith, v.opts.no_hp, e)))
      (λ e.
        Ensures.branch (is_current_role st && not (is_empty s.runq.items))
          (λ o. round_role-IsOrderly me s v) (λ o. round_plain-IsOrderly me at_end st s v))

pub next_runnable-IsOrderly :
    (fuel me : ℕ) (at_end : Bool) (st : Strategy) (s : Sched)
    → IsOrderly s
    → Ensures (λ (r, s'). IsOrderly s') (next_runnable fuel me at_end st s)
unfolding next_runnable
next_runnable-IsOrderly zero me at_end st s v = failed
next_runnable-IsOrderly (suc fuel) me at_end st s v =
    Ensures.bind (one_round-IsOrderly me at_end st s v)
      λ (r, s1) w. by_round r s1 w (λ st1. next_runnable-IsOrderly fuel me at_end st1 s1 w)
  where
    by_round :
        (r : Round) (s1 : Sched)
        → IsOrderly s1
        → ((st1 : Strategy)
            → Ensures (λ (t, s'). IsOrderly s') (next_runnable fuel me at_end st1 s1))
        → Ensures
            (λ (t, s'). IsOrderly s')
            (elim r [
              | chosen t ↦ ok (some t, s1)
              | invalid ↦ ok (none, s1)
              | again st1 ↦ next_runnable fuel me at_end st1 s1
            ])
    by_round (chosen t) s1 w rest = ensured w
    by_round invalid s1 w rest = ensured w
    by_round (again st1) s1 w rest = rest st1

settle_status-left :
    (me : ℕ) (s : Sched)
    → Ensures (λ s1. Thins (left s) (left s1) × (s1.slots ≡ s.slots)) (settle_status me s)
unfolding settle_status set_status
settle_status-left me s =
    Ensures.branch (not (s.known me)) (λ e. failed)
      (λ e.
        Ensures.branch (is_running_reg (s.status me))
          (λ o. ensured (alike-Thins (left s) _ refl refl refl refl refl refl refl, refl))
          (λ o.
            Ensures.after_assert s.opts.ndebug (is_running_inter_pro (s.status me))
              (ensured (alike-Thins (left s) _ refl refl refl refl refl refl refl, refl))))

-- The calling thread leaves its queue, and what is left of it is in order.
leaves-IsOrderly :
    (me : ℕ) (s : Sched)
    → IsOrderly (left s)
    → Ensures IsOrderly (settle_status me s >>= λ s1. leave_queue me s1)
unfolding leave_queue
leaves-IsOrderly me s v = Ensures.bind (settle_status-left me s) λ s1 p.
    let v1 = Thins-IsOrderly (left s) (left s1) v p.0 in
    Ensures.branch (s1.slots me).from_hp (λ e. absurd (ground (arith, v1.low me, e)))
      (λ e. Ensures.mono (pop_runq-left s1) λ s2 q. Thins-IsOrderly (left s1) s2 v1 q.0)

-- `next` of a thread that has left its queue, or whose queue is in order once it has.
pub next-IsOrderly :
    (me : ℕ) (at_end popped : Bool) (st : Strategy) (s : Sched)
    → is_null s.opts.turn_type ≡ false
    → (popped ≡ true → IsOrderly s)
    → (popped ≡ false → IsOrderly (left s))
    → Ensures (λ (t, s'). IsOrderly s') (next me at_end popped st s)
unfolding next
next-IsOrderly me at_end popped st s nn done not_yet = rw nn (
    Ensures.bind
      (Ensures.branch {P = IsOrderly} popped (λ e. ensured (done e))
        (λ e. leaves-IsOrderly me s (not_yet e)))
      λ s1 v. Ensures.bind (check_wakeup-IsOrderly s1 v) λ s2 w.
        Ensures.bind (next_runnable-IsOrderly (rounds s2) me at_end st s2 w.0)
          λ (t, s3) x. posted t s3 x)
  where
    posted :
        (t : Option ℕ) (s3 : Sched)
        → IsOrderly s3
        → Ensures
            (λ (t, s'). IsOrderly s')
            (elim t [
              | none ↦ ok (none, s3)
              | some n ↦ assert s3.opts.ndebug (ltb n s3.tids.nthread) >> ok (some n, post_to n s3)
            ])
    posted none s3 x = ensured x
    posted (some n) s3 x =
        Ensures.after_assert s3.opts.ndebug _
          (ensured (Thins-IsOrderly s3 (post_to n s3) x (post_to-Thins n s3)))
