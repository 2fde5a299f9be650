-- ===== src/Sched/Orderly/Order.antt =====
-- The invariant of the queues, and the changes that plainly keep it.
use min_smt.Prelude.{
  ℕ, ◌+◌, ◌≤◌, ◌<◌, ◌≡◌, ◌≢◌, ◌⊎◌, refl, true, false, [], arith, has, update, ◌∙◌, sym,
}
use min_smt.Sched.Defs.{
  Sched, Options, Slot, TurnType, semaphore_relay, hybrid_relay, busy_relay, null_policy,
  other_relay, is_null, forever, post,
}
use min_smt.Sched.Queues.{post_to}
use min_smt.Sched.Conserve.{times}

-- A build with assertions, relayed turns, no high priority queue, and no bound on the clocks of
-- threads in regions.
pub record IsChecked (o : Options) : Type 0 where
  pub asserts : o.ndebug ≡ false
  pub relayed : is_null o.turn_type ≡ false
  pub no_hp : o.hp_policy ≡ false
  pub no_bound : o.enforce_non_det_clock_bound ≡ false

-- A slot that waits for nothing.
abbrev pub IsCalm : Slot → Type 0
IsCalm w = (w.chan ≡ 0) × (w.timeout ≡ forever)

-- How often thread `a` stands in the run queue and the wait queue.
abbrev pub placed : ℕ → Sched → ℕ
placed a s = times a s.runq.items + times a s.waitq

-- Every thread stands in at most one place, it waits for something where it is in the wait queue,
-- and for nothing elsewhere; no thread is there that has no id yet, and none is to be woken that
-- waits, or without the flag.
pub record IsOrderly (s : Sched) : Type 0 where
  pub opts : IsChecked s.opts
  pub once : (a : ℕ) → placed a s ≤ 1
  pub calm : (a : ℕ) → times a s.waitq ≡ 0 → IsCalm (s.slots a)
  pub waits :
      (a : ℕ) → 0 < times a s.waitq → ((s.slots a).chan ≢ 0) ⊎ ((s.slots a).timeout ≢ forever)
  pub ids : (a : ℕ) → s.tids.nthread ≤ a → placed a s ≡ 0
  pub woken : (a : ℕ) → has a s.wakeup_tids ≡ true → (times a s.waitq ≡ 0) × (a < s.tids.nthread)
  pub low : (a : ℕ) → (s.slots a).from_hp ≡ false
  pub flagged : s.wakeup_flag ≡ false → s.wakeup_tids ≡ []

-- A slot that waits for the same, in the same queue.
abbrev pub Alike : Slot → Slot → Type 0
Alike v w = (v.chan ≡ w.chan) × (v.timeout ≡ w.timeout) × (v.from_hp ≡ w.from_hp)

-- From `s` to `s'` no thread is more often in the run queue, and all else that counts is the same.
pub record Thins (s s' : Sched) : Type 0 where
  pub opts : s'.opts ≡ s.opts
  pub fewer : (a : ℕ) → times a s'.runq.items ≤ times a s.runq.items
  pub waitq : s'.waitq ≡ s.waitq
  pub slots : (a : ℕ) → Alike (s'.slots a) (s.slots a)
  pub nthread : s'.tids.nthread ≡ s.tids.nthread
  pub wakeups : s'.wakeup_tids ≡ s.wakeup_tids
  pub flag : s'.wakeup_flag ≡ s.wakeup_flag

pub Thins-IsOrderly : (s s' : Sched) → IsOrderly s → Thins s s' → IsOrderly s'
Thins-IsOrderly s s' v h = record {
  opts = rw h.opts v.opts;
  once = λ a. ground (arith, v.once a, h.fewer a, h.waitq);
  calm = λ a e. ground (arith, v.calm a, h.slots a, h.waitq, e);
  waits = λ a e. ground (arith, v.waits a, h.slots a, h.waitq, e);
  ids = λ a e. ground (arith, v.ids a, h.fewer a, h.waitq, h.nthread, e);
  woken = λ a e. ground (arith, v.woken a, h.wakeups, h.waitq, h.nthread, e);
  low = λ a. ground (arith, v.low a, h.slots a);
  flagged = λ e. h.wakeups ∙ v.flagged (sym h.flag ∙ e);
}

pub same-Thins : (s : Sched) → Thins s s
same-Thins s = record {
  opts = refl;
  fewer = λ a. omega arith;
  waitq = refl;
  slots = λ a. (refl, refl, refl);
  nthread = refl;
  wakeups = refl;
  flag = refl;
}

pub post-Alike : (p : TurnType) (w : Slot) → Alike (post p w) w
unfolding post
post-Alike semaphore_relay w = (refl, refl, refl)
post-Alike hybrid_relay w = (refl, refl, refl)
post-Alike busy_relay w = (refl, refl, refl)
post-Alike null_policy w = (refl, refl, refl)
post-Alike other_relay w = (refl, refl, refl)

-- A write of an alike slot.
pub one-Alike :
    (t : ℕ) (w : Slot) (f : ℕ → Slot) (a : ℕ) → Alike w (f t) → Alike (update f t w a) (f a)
one-Alike t w f a h = ground (arith, h)

pub post_to-Thins : (t : ℕ) (s : Sched) → Thins s (post_to t s)
unfolding post_to
post_to-Thins t s = record {
  opts = refl;
  fewer = λ a. omega arith;
  waitq = refl;
  slots = λ a.
      one-Alike t (post s.opts.turn_type (s.slots t)) s.slots a
        (post-Alike s.opts.turn_type (s.slots t));
  nthread = refl;
  wakeups = refl;
  flag = refl;
}
