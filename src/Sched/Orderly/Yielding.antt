-- ===== src/Sched/Orderly/Yielding.antt =====
-- What `putTurn` does with the calling thread within the queue keeps the queues in order.
use min_smt.Prelude.{
  ℕ, ◌+◌, ◌<◌, ◌≡◌, refl, Bool, true, false, not, ◌||◌, List, [], ◌∷◌, ltb, ◌==◌, arith, ok,
  if◌then◌else◌, ap, ◌∙◌, sym, assert, update, eq_of_==, Bool-cases, inl, inr,
}
use min_smt.Prelude.Ensures
use min_smt.Prelude.Ensures.{Ensures, ensured, failed}
use min_smt.RunQueue.{inc}
use min_smt.Sched.Defs.{Sched, Strategy}
use min_smt.Sched.Queues.{insert_yield, yield_place, assert_front}
use min_smt.Sched.Next.{leave_queue}
use min_smt.Sched.Turn.{requeue, stays, is_yield}
use min_smt.Sched.Conserve.{times}
use min_smt.Sched.Orderly.Order.{IsOrderly, placed, Thins, Thins-IsOrderly}
use min_smt.Sched.Orderly.Heads.{tail, left, left-IsOrderly, alike-Thins, pop_runq-left, front-head}
use min_smt.Sched.Orderly.Choosing.{move_back-IsOrderly}

assert-true : (b : Bool) → Ensures (λ u. b ≡ true) (assert false b)
assert-true true = ensured refl
assert-true false = failed

-- In a build with assertions the calling thread stands at the head.
pub assert_front-head :
    (me : ℕ) (s : Sched)
    → s.opts.ndebug ≡ false
    → Ensures (λ u. s.runq.items ≡ me ∷ tail s.runq.items) (assert_front me s)
unfolding assert_front
assert_front-head me s nd =
    Ensures.branch s.opts.ndebug (λ e. absurd (ground (arith, nd, e)))
      (λ e. Ensures.bind (front-head s) λ f h.
        Ensures.mono (assert-true (me == f))
          λ u b. h ∙ ap (λ t. t ∷ tail s.runq.items) (sym (eq_of_== me f b)))

-- How often a thread stands in a queue after a yield.
times-yield_place :
    (a : ℕ) (marks : ℕ → Bool) (y count : ℕ) (found : Bool) (p cur : ℕ) (r : List ℕ)
    → times a (yield_place marks y count found p cur r) ≡ times a (p ∷ cur ∷ r)
unfolding yield_place
times-yield_place a marks y count found p cur [] = omega arith
times-yield_place a marks y count found p cur (n ∷ r) =
    elim (Bool-cases (ltb count y || not found)) [
      | inl e ↦ rw e (
          omega (
            arith,
            times-yield_place a marks y (if marks n then count + 1 else count)
                (if marks n then found else true) p n r,
          ))
      | inr e ↦ rw e (omega arith)
    ]

-- A known thread that stands nowhere is put into the run queue.
joined-IsOrderly :
    (t : ℕ) (s s' : Sched)
    → IsOrderly s
    → placed t s ≡ 0
    → t < s.tids.nthread
    → Thins s (record s' { runq = s.runq })
    → ((a : ℕ) → times a s'.runq.items ≡ times a (t ∷ s.runq.items))
    → IsOrderly s'
joined-IsOrderly t s s' v out id h more =
    let w = Thins-IsOrderly s (record s' { runq = s.runq }) v h in
    record {
      opts = w.opts;
      once = λ a. ground (arith, more a, v.once a, h.waitq, out);
      calm = w.calm;
      waits = w.waits;
      ids = λ a e. ground (arith, more a, v.ids a, h.waitq, h.nthread, id, e);
      woken = w.woken;
      low = w.low;
      flagged = w.flagged;
    }

insert_yield-IsOrderly :
    (t : ℕ) (s : Sched)
    → IsOrderly s
    → placed t s ≡ 0
    → t < s.tids.nthread
    → Ensures IsOrderly (insert_yield t s)
unfolding insert_yield
insert_yield-IsOrderly t s v out id =
    Ensures.branch (not (s.known t)) (λ k. failed) (λ k. go s.runq.items refl)
  where
    go :
        (l : List ℕ)
        → l ≡ s.runq.items
        → Ensures IsOrderly (elim l [
          | [] ↦ ok (record s {
            last_yield = update s.last_yield t true;
            runq = record (s.runq) { items = t ∷ [] };
          })
          | a ∷ r ↦ ok (record s {
            last_yield = update s.last_yield t true;
            runq = record {
              items =
                  yield_place
                    (update s.last_yield t true)
                    s.runq.num_yield
                    (if update s.last_yield t true a then 1 else 0)
                    (not (update s.last_yield t true a))
                    t
                    a
                    r;
              num_yield = inc s.runq.num_yield;
            };
          })
        ])
    go [] e = ensured (
        joined-IsOrderly t s _ v out id (alike-Thins s _ refl refl refl refl refl refl refl)
          λ a. ap (λ l. times a (t ∷ l)) e)
    go (b ∷ r) e = ensured (
        joined-IsOrderly t s _ v out id (alike-Thins s _ refl refl refl refl refl refl refl) λ a.
          times-yield_place a (update s.last_yield t true) s.runq.num_yield
            (if update s.last_yield t true b then 1 else 0) (not (update s.last_yield t true b)) t b
            r
          ∙ ap (λ l. times a (t ∷ l)) e)

-- A thread that heads the queue and is taken off it stands nowhere.
head_out :
    (me : ℕ) (s s1 : Sched)
    → IsOrderly s
    → s.runq.items ≡ me ∷ tail s.runq.items
    → Thins (left s) s1
    → (placed me s1 ≡ 0) × (me < s1.tids.nthread)
head_out me s s1 v e p =
    let there : times me s.runq.items ≡ 1 + times me (tail s.runq.items) =
      ap (times me) e ∙ ground arith in
    (
      ground (arith, v.once me, there, p.fewer me, p.waitq),
      ground (arith, there, v.ids me, p.nthread),
    )

pub requeue-IsOrderly :
    (me : ℕ) (st : Strategy) (s : Sched)
    → IsOrderly s
    → s.runq.items ≡ me ∷ tail s.runq.items
    → Ensures IsOrderly (requeue me st s)
unfolding requeue leave_queue
requeue-IsOrderly me st s v e =
    Ensures.branch (stays st) (λ b. ensured v)
      (λ b.
        Ensures.bind
          (Ensures.branch {P = λ s1. Thins (left s) s1 × (s1.runq.items ≡ tail s.runq.items)}
            (s.slots me).from_hp (λ h. absurd (ground (arith, v.low me, h))) (λ h. pop_runq-left s))
          λ s1 p.
            let v1 = Thins-IsOrderly (left s) s1 (left-IsOrderly s v) p.0 in
            let out = head_out me s s1 v e p.0 in
            Ensures.branch (is_yield st) (λ y. insert_yield-IsOrderly me s1 v1 out.0 out.1)
              (λ y. move_back-IsOrderly me s s1 v e p.0 p.1))
