-- ===== src/Sched/Orderly/Moving.antt =====
-- Operations that move threads from the wait queue to the run queue: `signal`, `fireTimeouts` and
-- what ends the idle thread's wait; and `check_wakeup`, which brings threads back from outside.
use min_smt.Prelude.{
  ℕ, ◌+◌, ◌≤◌, ◌<◌, ◌≡◌, refl, Bool, not, ◌&&◌, List, [], ◌∷◌, arith, ltb, ◌==◌, Bool-cases, inl,
  inr, ◌∙◌, sym,
}
use min_smt.Prelude.Ensures
use min_smt.Prelude.Ensures.{Ensures, ensured, failed}
use min_smt.TidMap.{idle_thread_tid}
use min_smt.Sched.Defs.{Sched, Slot, WakeReason, timedout, signaled, etimedout, reset_slot}
use min_smt.Sched.Queues.{wake, push_runq, set_slot}
use min_smt.Sched.Wakeups.{fire, fire_timeouts}
use min_smt.Sched.Signals.{scan, signal}
use min_smt.Sched.Next.{find_idle, wake_up_idle_thread}
use min_smt.Sched.Conserve.{times, times-append, passes}
use min_smt.Sched.Orderly.Order.{IsChecked, IsCalm, IsOrderly, Alike}

-- From `s` to `s'` the threads of `ts` that are not in `kept` have joined the run queue, and their
-- slots wait for nothing; the slots of the others are alike, and all else that counts is the same.
record Moves (ts : List ℕ) (s : Sched) (kept : List ℕ) (s' : Sched) : Type 0 where
  opts : s'.opts ≡ s.opts
  counts : (a : ℕ) → times a s'.runq.items + times a kept ≡ times a s.runq.items + times a ts
  fewer : (a : ℕ) → times a kept ≤ times a ts
  alike : (a : ℕ) → times a kept ≡ times a ts → Alike (s'.slots a) (s.slots a)
  calmed : (a : ℕ) → times a kept < times a ts → IsCalm (s'.slots a)
  low : (a : ℕ) → (s'.slots a).from_hp ≡ (s.slots a).from_hp
  waitq : s'.waitq ≡ s.waitq
  nthread : s'.tids.nthread ≡ s.tids.nthread
  wakeups : s'.wakeup_tids ≡ s.wakeup_tids
  flag : s'.wakeup_flag ≡ s.wakeup_flag

none-Moves : (ts : List ℕ) (s : Sched) → Moves ts s ts s
none-Moves ts s = record {
  opts = refl;
  counts = λ a. refl;
  fewer = λ a. omega arith;
  alike = λ a e. (refl, refl, refl);
  calmed = λ a e. absurd (omega arith);
  low = λ a. refl;
  waitq = refl;
  nthread = refl;
  wakeups = refl;
  flag = refl;
}

-- A thread that stays in front of what is kept.
kept-Moves :
    (t : ℕ) (ts : List ℕ) (s : Sched) (kept : List ℕ) (s' : Sched)
    → Moves ts s kept s'
    → Moves (t ∷ ts) s (t ∷ kept) s'
kept-Moves t ts s kept s' m = record {
  opts = m.opts;
  counts = λ a. omega (arith, m.counts a);
  fewer = λ a. omega (arith, m.fewer a);
  alike = λ a e. m.alike a (omega arith);
  calmed = λ a e. m.calmed a (omega arith);
  low = m.low;
  waitq = m.waitq;
  nthread = m.nthread;
  wakeups = m.wakeups;
  flag = m.flag;
}

-- One thread moves, and then the others.
then-Moves :
    (t : ℕ) (ts : List ℕ) (s s1 : Sched) (kept : List ℕ) (s2 : Sched)
    → Moves (t ∷ []) s [] s1
    → Moves ts s1 kept s2
    → Moves (t ∷ ts) s kept s2
then-Moves t ts s s1 kept s2 m n = record {
  opts = n.opts ∙ m.opts;
  counts = λ a. omega (arith, m.counts a, n.counts a);
  fewer = λ a. omega (arith, n.fewer a);
  alike = λ a e. ground (arith, n.fewer a, n.alike a, m.alike a, e);
  calmed = λ a e. ground (arith, n.fewer a, n.calmed a, n.alike a, m.calmed a, e);
  low = λ a. n.low a ∙ m.low a;
  waitq = n.waitq ∙ m.waitq;
  nthread = n.nthread ∙ m.nthread;
  wakeups = n.wakeups ∙ m.wakeups;
  flag = n.flag ∙ m.flag;
}

-- A thread whose slot is reset is pushed.
pushed-Moves :
    (t : ℕ) (w : Slot) (s : Sched)
    → IsCalm w
    → w.from_hp ≡ (s.slots t).from_hp
    → Ensures (Moves (t ∷ []) s []) (push_runq t (set_slot t w s))
unfolding push_runq set_slot
pushed-Moves t w s c h =
    Ensures.branch (s.known t)
      (λ k. ensured (record {
        opts = refl;
        counts = λ a. ground (arith, times-append a s.runq.items (t ∷ []));
        fewer = λ a. omega arith;
        alike = λ a e. ground (arith, e);
        calmed = λ a e. ground (arith, e, c);
        low = λ a. ground (arith, h);
        waitq = refl;
        nthread = refl;
        wakeups = refl;
        flag = refl;
      }))
      (λ k. failed)

wake-Moves :
    (st : ℕ) (why : WakeReason) (t : ℕ) (s : Sched)
    → IsChecked s.opts
    → Ensures (Moves (t ∷ []) s []) (wake st why t s)
unfolding wake reset_slot
wake-Moves st why t s c = rw c.relayed (
    Ensures.branch (s.opts.hp_policy && not (t == 1)) (λ e. absurd (ground (arith, c.no_hp, e)))
      (λ e.
        pushed-Moves t (record (reset_slot st (s.slots t)) { wake_reason = why }) s (refl, refl)
          refl))

Moves-IsChecked :
    (ts : List ℕ) (s : Sched) (kept : List ℕ) (s' : Sched)
    → Moves ts s kept s'
    → IsChecked s.opts
    → IsChecked s'.opts
Moves-IsChecked ts s kept s' m c = rw m.opts c

fire-Moves :
    (ts : List ℕ) (s : Sched)
    → IsChecked s.opts
    → Ensures (λ (kept, n, s'). Moves ts s kept s') (fire ts s)
unfolding fire
fire-Moves [] s c = ensured (none-Moves [] s)
fire-Moves (t ∷ ts) s c =
    Ensures.after_assert s.opts.ndebug _ (elim (Bool-cases (ltb (s.slots t).timeout s.turn_count)) [
      | inl e ↦ rw e (
          Ensures.bind (wake-Moves etimedout timedout t s c) λ s1 m.
            Ensures.bind (fire-Moves ts s1 (Moves-IsChecked (t ∷ []) s [] s1 m c))
              λ (kept, n, s2) f. ensured (then-Moves t ts s s1 kept s2 m f))
      | inr e ↦ rw e (
          Ensures.bind (fire-Moves ts s c) λ (kept, n, s2) f. ensured (kept-Moves t ts s kept s2 f))
    ])

scan-Moves :
    (chan : ℕ) (every : Bool) (ts : List ℕ) (s : Sched)
    → IsChecked s.opts
    → Ensures (λ (kept, s'). Moves ts s kept s') (scan chan every ts s)
unfolding scan
scan-Moves chan every [] s c = ensured (none-Moves [] s)
scan-Moves chan every (t ∷ ts) s c =
    Ensures.after_assert s.opts.ndebug _ (elim (Bool-cases ((s.slots t).chan == chan)) [
      | inl e ↦ rw e (
          Ensures.bind (wake-Moves 0 signaled t s c) λ s1 m.
            Ensures.bind
              (Ensures.branch {P = λ (kept, s'). Moves ts s1 kept s'} (not every)
                (λ one. ensured (none-Moves ts s1))
                (λ more. scan-Moves chan every ts s1 (Moves-IsChecked (t ∷ []) s [] s1 m c)))
              λ (kept, s2) f. ensured (then-Moves t ts s s1 kept s2 m f))
      | inr e ↦ rw e (
          Ensures.bind (scan-Moves chan every ts s c)
            λ (kept, s2) f. ensured (kept-Moves t ts s kept s2 f))
    ])

find_idle-Moves :
    (ts : List ℕ) (s : Sched)
    → IsChecked s.opts
    → Ensures (λ (kept, last, s'). Moves ts s kept s') (find_idle ts s)
unfolding find_idle reset_slot
find_idle-Moves [] s c = ensured (none-Moves [] s)
find_idle-Moves (t ∷ ts) s c = rw c.relayed (
    Ensures.after_assert s.opts.ndebug _ (
      Ensures.branch (t == idle_thread_tid)
        (λ e.
          Ensures.bind (pushed-Moves t (reset_slot 0 (s.slots t)) s (refl, refl) refl)
            λ s1 m. ensured (then-Moves t ts s s1 ts s1 m (none-Moves ts s1)))
        (λ e.
          Ensures.bind (find_idle-Moves ts s c)
            λ (kept, last, s1) m. ensured (kept-Moves t ts s kept s1 m))))

-- Threads that move from the wait queue of an orderly state leave an orderly one.
moved-IsOrderly :
    (s : Sched) (kept : List ℕ) (s' : Sched)
    → IsOrderly s
    → Moves s.waitq s kept s'
    → IsOrderly (record s' { waitq = kept })
moved-IsOrderly s kept s' v m = record {
  opts = rw m.opts v.opts;
  once = λ a. omega (arith, v.once a, m.counts a);
  calm = λ a e. ground (arith, e, v.calm a, m.alike a, m.calmed a);
  waits = λ a e. ground (arith, e, v.once a, v.waits a, m.counts a, m.fewer a, m.alike a);
  ids = λ a e. ground (arith, v.ids a, m.nthread, m.counts a, e);
  woken = λ a e. ground (arith, v.woken a, m.wakeups, m.nthread, m.fewer a, e);
  low = λ a. m.low a ∙ v.low a;
  flagged = λ e. m.wakeups ∙ v.flagged (sym m.flag ∙ e);
}

pub signal-IsOrderly :
    (me chan : ℕ) (every : Bool) (s : Sched)
    → IsOrderly s
    → Ensures IsOrderly (signal me chan every s)
unfolding signal
signal-IsOrderly me chan every s v = Ensures.after_assert s.opts.ndebug _ (
    Ensures.bind (passes me s) λ u _.
      Ensures.bind (scan-Moves chan every s.waitq s v.opts)
        λ (kept, s1) m. ensured (moved-IsOrderly s kept s1 v m))

pub fire_timeouts-IsOrderly :
    (s : Sched) → IsOrderly s → Ensures (λ (n, s'). IsOrderly s') (fire_timeouts s)
unfolding fire_timeouts
fire_timeouts-IsOrderly s v =
    Ensures.bind (fire-Moves s.waitq s v.opts)
      λ (kept, n, s1) m. ensured (moved-IsOrderly s kept s1 v m)

pub wake_up_idle_thread-IsOrderly :
    (s : Sched) → IsOrderly s → Ensures IsOrderly (wake_up_idle_thread s)
unfolding wake_up_idle_thread
wake_up_idle_thread-IsOrderly s v =
    Ensures.branch s.idle_done (λ e. failed)
      (λ e. Ensures.bind (find_idle-Moves s.waitq s v.opts) λ (kept, last, s1) m.
        Ensures.after_assert s.opts.ndebug _
          (Ensures.after_assert s.opts.ndebug _ (ensured (moved-IsOrderly s kept s1 v m))))
