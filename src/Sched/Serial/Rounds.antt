-- ===== src/Sched/Serial/Rounds.antt =====
-- `nextRunnable` hands out no token: it only chooses the thread.
use min_smt.Prelude.{
  ℕ, zero, suc, ◌≡◌, refl, Bool, true, false, not, ◌&&◌, none, some, List, [], ◌∷◌, ltb, ◌==◌,
  Result, ok, ◌>>=◌, Bool-cases, inl, inr, exited, is_empty, ◌||◌,
}
use min_smt.Prelude.Ensures
use min_smt.Prelude.Ensures.{Ensures, ensured, failed}
use min_smt.TidMap
use min_smt.TidMap.{main_thread_tid, idle_thread_tid}
use min_smt.NonDetSet
use min_smt.Sched.Defs.{Sched, Strategy, current_role, default_strategy, is_null, reset_slot}
use min_smt.Sched.Queues.{pop_runq, pop_hp, set_slot, front}
use min_smt.Sched.Next.{
  Round, again, chosen, invalid, note_non_det, take_turn, round_hp, round_role, round_head,
  find_idle, wake_up_idle_thread, round_plain, one_round, next_runnable, leave_queue, settle_status,
  is_stop, is_runnable, is_running_reg, is_running_inter_pro, is_current_role, wants_hp,
}
use min_smt.Sched.Serial.Quiet.{
  IsQuiet, same_slots, one_slot, then-IsQuiet, relayed, with_waitq, with_non_det, push_runq-IsQuiet,
  signal-IsQuiet,
}

pub pop_runq-IsQuiet : (s : Sched) → Ensures (IsQuiet s) (pop_runq s)
unfolding pop_runq
pop_runq-IsQuiet s = Ensures.on_list s.runq.items failed λ t ts. ensured (same_slots s _ refl refl)

pub pop_hp-IsQuiet : (s : Sched) → Ensures (IsQuiet s) (pop_hp s)
unfolding pop_hp
pop_hp-IsQuiet s = Ensures.on_list s.hp_runq.items failed λ t ts. ensured (same_slots s _ refl refl)

pub note_non_det-IsQuiet : (t : ℕ) (s : Sched) → Ensures (IsQuiet s) (note_non_det t s)
unfolding note_non_det
note_non_det-IsQuiet t s =
    Ensures.branch s.opts.enforce_non_det_clock_bound
      (λ e.
        Ensures.bind (Ensures.always (NonDetSet.insert s.opts.ndebug t s.turn_count s.non_det))
          λ d _. ensured (with_non_det s s d (same_slots s s refl refl)))
      (λ e. ensured (same_slots s s refl refl))

take_turn-IsQuiet : (t : ℕ) (s : Sched) → IsQuiet s (take_turn t s)
unfolding take_turn
take_turn-IsQuiet t s = elim (Bool-cases (is_runnable (s.status t))) [
  | inl e ↦ rw e (same_slots s _ refl refl)
  | inr e ↦ rw e (same_slots s s refl refl)
]

-- A blocked head is popped, and noted.
drop_head-IsQuiet :
    (t : ℕ) (st : Strategy) (s : Sched) (pop : Result Sched)
    → Ensures (IsQuiet s) pop
    → Ensures
        (λ (r, s'). IsQuiet s s')
        (pop >>= λ s1. note_non_det t s1 >>= λ s2. ok (again st, s2))
drop_head-IsQuiet t st s pop p =
    Ensures.bind p
      λ s1 q. Ensures.bind (note_non_det-IsQuiet t s1) λ s2 r. ensured (then-IsQuiet s s1 s2 q r)

round_hp-IsQuiet : (st : Strategy) (s : Sched) → Ensures (λ (r, s'). IsQuiet s s') (round_hp st s)
unfolding round_hp
round_hp-IsQuiet st s = Ensures.on_list s.hp_runq.items failed λ t ts.
    Ensures.branch (is_stop (s.status t))
      (λ e. drop_head-IsQuiet t st s (pop_hp s) (pop_hp-IsQuiet s))
      (λ e.
        let s1 = take_turn t s in
        ensured (
          then-IsQuiet s s1 _ (take_turn-IsQuiet t s)
            (one_slot t _ s1 _ refl refl refl (inr refl))))

round_role-IsQuiet : (me : ℕ) (s : Sched) → Ensures (λ (r, s'). IsQuiet s s') (round_role me s)
unfolding round_role
round_role-IsQuiet me s =
    Ensures.bind (Ensures.always (TidMap.get_roleid s.opts.ndebug me s.tids)) λ role _.
      Ensures.bind (Ensures.always (front s)) λ t _.
        Ensures.branch (is_stop (s.status t))
          (λ e. drop_head-IsQuiet t current_role s (pop_runq s) (pop_runq-IsQuiet s))
          (λ e. Ensures.bind (Ensures.always (TidMap.get_roleid s.opts.ndebug t s.tids)) λ its _.
            Ensures.branch (role == its) (λ i. ensured (take_turn-IsQuiet t s))
              (λ i. Ensures.bind (pop_runq-IsQuiet s) λ s1 q.
                Ensures.bind (push_runq-IsQuiet t s1) λ s2 r. ensured (then-IsQuiet s s1 s2 q r)))

round_head-IsQuiet :
    (st : Strategy) (s : Sched) → Ensures (λ (r, s'). IsQuiet s s') (round_head st s)
unfolding round_head
round_head-IsQuiet st s = Ensures.after_assert s.opts.ndebug _ (
    Ensures.bind (Ensures.always (front s)) λ t _.
      Ensures.branch (is_stop (s.status t))
        (λ e. drop_head-IsQuiet t st s (pop_runq s) (pop_runq-IsQuiet s))
        (λ e. ensured (take_turn-IsQuiet t s)))

find_idle-IsQuiet :
    (ts : List ℕ) (s : Sched)
    → is_null s.opts.turn_type ≡ false
    → Ensures (λ (kept, last, s'). IsQuiet s s') (find_idle ts s)
unfolding find_idle
find_idle-IsQuiet [] s nn = ensured (same_slots s s refl refl)
find_idle-IsQuiet (t ∷ ts) s nn = rw nn (
    Ensures.after_assert s.opts.ndebug _ (
      Ensures.branch (t == idle_thread_tid)
        (λ e.
          let s1 = set_slot t (reset_slot 0 (s.slots t)) s in
          Ensures.bind (push_runq-IsQuiet t s1)
            λ s2 q. ensured (then-IsQuiet s s1 s2 (one_slot t _ s s1 refl refl refl (inl refl)) q))
        (λ e. Ensures.bind (find_idle-IsQuiet ts s nn) λ (kept, last, s1) q. ensured q)))

wake_up_idle_thread-IsQuiet :
    (s : Sched) → is_null s.opts.turn_type ≡ false → Ensures (IsQuiet s) (wake_up_idle_thread s)
unfolding wake_up_idle_thread
wake_up_idle_thread-IsQuiet s nn =
    Ensures.branch s.idle_done (λ e. failed)
      (λ e. Ensures.bind (find_idle-IsQuiet s.waitq s nn) λ (kept, last, s1) q.
        Ensures.after_assert s.opts.ndebug _
          (Ensures.after_assert s.opts.ndebug _ (ensured (with_waitq s s1 kept q))))

round_plain-IsQuiet :
    (me : ℕ) (at_end : Bool) (st : Strategy) (s : Sched)
    → is_null s.opts.turn_type ≡ false
    → Ensures (λ (r, s'). IsQuiet s s') (round_plain me at_end st s)
unfolding round_plain
round_plain-IsQuiet me at_end st s nn =
    Ensures.on_list s.runq.items
      (Ensures.branch (at_end && (is_empty s.waitq || me == main_thread_tid))
        (λ o. ensured {a = (invalid, s)} (same_slots s s refl refl))
        (λ o.
          Ensures.branch (s.opts.launch_idle_thread == 0) (λ z. failed {e = exited})
            (λ z. Ensures.after_assert s.opts.ndebug (not (me == idle_thread_tid)) (
              Ensures.bind (wake_up_idle_thread-IsQuiet s nn) λ s1 q.
                Ensures.mono (round_head-IsQuiet default_strategy s1)
                  λ (r, s2) h. then-IsQuiet s s1 s2 q h))))
      (λ t ts.
        Ensures.branch
          (s.opts.enforce_non_det_annotations
            && ltb 0 s.n_non_det_wait
            && me == idle_thread_tid
            && is_empty ts
            && t == idle_thread_tid)
          (λ o.
            Ensures.bind (signal-IsQuiet me s.opts.non_det_cv true s nn)
              λ s1 q. Ensures.mono (round_head-IsQuiet st s1) λ (r, s2) h. then-IsQuiet s s1 s2 q h)
          (λ o. round_head-IsQuiet st s))

one_round-IsQuiet :
    (me : ℕ) (at_end : Bool) (st : Strategy) (s : Sched)
    → is_null s.opts.turn_type ≡ false
    → Ensures (λ (r, s'). IsQuiet s s') (one_round me at_end st s)
unfolding one_round
one_round-IsQuiet me at_end st s nn =
    Ensures.branch (wants_hp me st s) (λ e. round_hp-IsQuiet st s)
      (λ e.
        Ensures.branch (is_current_role st && not (is_empty s.runq.items))
          (λ o. round_role-IsQuiet me s) (λ o. round_plain-IsQuiet me at_end st s nn))

pub next_runnable-IsQuiet :
    (fuel me : ℕ) (at_end : Bool) (st : Strategy) (s : Sched)
    → is_null s.opts.turn_type ≡ false
    → Ensures (λ (r, s'). IsQuiet s s') (next_runnable fuel me at_end st s)
unfolding next_runnable
next_runnable-IsQuiet zero me at_end st s nn = failed
next_runnable-IsQuiet (suc fuel) me at_end st s nn =
    Ensures.bind (one_round-IsQuiet me at_end st s nn) λ (r, s1) q.
      by_round r s1 q (λ st1. next_runnable-IsQuiet fuel me at_end st1 s1 (relayed s s1 q nn))
  where
    by_round :
        (r : Round) (s1 : Sched)
        → IsQuiet s s1
        → ((st1 : Strategy)
            → Ensures (λ (t, s'). IsQuiet s1 s') (next_runnable fuel me at_end st1 s1))
        → Ensures
            (λ (t, s'). IsQuiet s s')
            (elim r [
              | chosen t ↦ ok (some t, s1)
              | invalid ↦ ok (none, s1)
              | again st1 ↦ next_runnable fuel me at_end st1 s1
            ])
    by_round (chosen t) s1 q rest = ensured q
    by_round invalid s1 q rest = ensured q
    by_round (again st1) s1 q rest = Ensures.mono (rest st1) λ (t, s2) h. then-IsQuiet s s1 s2 q h

pub leave_queue-IsQuiet : (me : ℕ) (s : Sched) → Ensures (IsQuiet s) (leave_queue me s)
unfolding leave_queue
leave_queue-IsQuiet me s =
    Ensures.branch (s.slots me).from_hp
      (λ e.
        Ensures.bind (pop_hp-IsQuiet s)
          λ s1 q. ensured (then-IsQuiet s s1 _ q (one_slot me _ s1 _ refl refl refl (inr refl))))
      (λ e. pop_runq-IsQuiet s)

pub settle_status-IsQuiet : (me : ℕ) (s : Sched) → Ensures (IsQuiet s) (settle_status me s)
unfolding settle_status
settle_status-IsQuiet me s =
    Ensures.branch (not (s.known me)) (λ e. failed)
      (λ e.
        Ensures.branch (is_running_reg (s.status me)) (λ o. ensured (same_slots s _ refl refl))
          (λ o.
            Ensures.after_assert s.opts.ndebug (is_running_inter_pro (s.status me))
              (ensured (same_slots s _ refl refl))))
