-- ===== src/Sched/Orderly/Heads.antt =====
-- What is done to the heads of the run queue keeps the queues in order: `front`, `pop_front`, and the
-- changes of status on the way.
use min_smt.Prelude.{
  ℕ, ◌≤◌, ◌≡◌, refl, false, List, [], ◌∷◌, arith, ok, err, bad_pointer, if◌then◌else◌, update, ap,
}
use min_smt.Prelude.Ensures
use min_smt.Prelude.Ensures.{Ensures, ensured, failed}
use min_smt.NonDetSet
use min_smt.Sched.Defs.{Sched}
use min_smt.RunQueue.{dec}
use min_smt.Sched.Queues.{pop_runq, front}
use min_smt.Sched.Next.{note_non_det, take_turn}
use min_smt.Sched.Conserve.{times}
use min_smt.Sched.Orderly.Order.{IsOrderly, Thins, Thins-IsOrderly, same-Thins}

abbrev pub tail : List ℕ → List ℕ
tail [] = []
tail (x ∷ xs) = xs

times-tail : (a : ℕ) (xs : List ℕ) → times a (tail xs) ≤ times a xs
times-tail a [] = omega arith
times-tail a (x ∷ xs) = omega arith

-- The state whose run queue has lost its head.
abbrev pub left : Sched → Sched
left s = record s { runq = record (s.runq) { items = tail s.runq.items } }

pub left-Thins : (s : Sched) → Thins s (left s)
left-Thins s = record {
  opts = refl;
  fewer = λ a. times-tail a s.runq.items;
  waitq = refl;
  slots = λ a. (refl, refl, refl);
  nthread = refl;
  wakeups = refl;
  flag = refl;
}

pub left-IsOrderly : (s : Sched) → IsOrderly s → IsOrderly (left s)
left-IsOrderly s v = Thins-IsOrderly s (left s) v (left-Thins s)

-- A state that differs from `left s` in nothing that counts.
pub alike-Thins :
    (s s' : Sched)
    → s'.opts ≡ s.opts
    → s'.runq.items ≡ s.runq.items
    → s'.waitq ≡ s.waitq
    → s'.slots ≡ s.slots
    → s'.tids ≡ s.tids
    → s'.wakeup_tids ≡ s.wakeup_tids
    → s'.wakeup_flag ≡ s.wakeup_flag
    → Thins s s'
alike-Thins s s' o q w l t k f = record {
  opts = o;
  fewer = λ a. rw q (omega arith);
  waitq = w;
  slots = λ a. rw l (refl, refl, refl);
  nthread = rw t refl;
  wakeups = k;
  flag = f;
}

pub pop_runq-left :
    (s : Sched)
    → Ensures (λ s1. Thins (left s) s1 × (s1.runq.items ≡ tail s.runq.items)) (pop_runq s)
unfolding pop_runq
pop_runq-left s = go s.runq.items refl
  where
    go :
        (l : List ℕ)
        → l ≡ s.runq.items
        → Ensures
            (λ s1. Thins (left s) s1 × (s1.runq.items ≡ tail s.runq.items))
            (elim l [
              | [] ↦ err bad_pointer
              | t ∷ ts ↦ ok (record s {
                runq = record {
                  items = ts;
                  num_yield = if s.last_yield t then dec s.runq.num_yield else s.runq.num_yield;
                };
                last_yield = update s.last_yield t false;
              })
            ])
    go [] e = failed
    go (t ∷ ts) e =
        ensured (alike-Thins (left s) _ refl (ap tail e) refl refl refl refl refl, ap tail e)

pub front-head : (s : Sched) → Ensures (λ t. s.runq.items ≡ t ∷ tail s.runq.items) (front s)
unfolding front
front-head s = go s.runq.items
  where
    go :
        (l : List ℕ)
        → Ensures (λ t. l ≡ t ∷ tail l) (elim l [ [] ↦ err bad_pointer | t ∷ ts ↦ ok t ])
    go [] = failed
    go (t ∷ ts) = ensured refl

pub note_non_det-Thins : (t : ℕ) (s : Sched) → Ensures (Thins s) (note_non_det t s)
unfolding note_non_det
note_non_det-Thins t s =
    Ensures.branch s.opts.enforce_non_det_clock_bound
      (λ e.
        Ensures.bind (Ensures.always (NonDetSet.insert s.opts.ndebug t s.turn_count s.non_det))
          λ d _. ensured (alike-Thins s _ refl refl refl refl refl refl refl))
      (λ e. ensured (same-Thins s))

pub take_turn-Thins : (t : ℕ) (s : Sched) → Thins s (take_turn t s)
unfolding take_turn
take_turn-Thins t s = record {
  opts = ground arith;
  fewer = λ a. ground arith;
  waitq = ground arith;
  slots = λ a. ground arith;
  nthread = ground arith;
  wakeups = ground arith;
  flag = ground arith;
}
