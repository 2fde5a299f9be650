-- ===== src/Sched/Broadcast.antt =====
-- The queues after a signal: who still waits, and that the head keeps the turn.
use min_smt.Prelude.{
  ℕ, Bool, false, ◌<◌, ◌≡◌, refl, true, false, List, [], ◌∷◌, ◌++◌, ap, sym, ◌∙◌, arith, ◌==◌, has,
  Bool-cases, inl, inr, subst,
}
use min_smt.Sched.{Sched, Slot}
use min_smt.Sched.Fifo.{taken, left, waits_on, Woken}
use min_smt.Sched.RoundRobin.{HasTurn}

-- No waiter on the channel is left.
pub left-waits_on :
    (chan : ℕ) (s : Sched) (ts : List ℕ) (a : ℕ)
    → has a (left chan true s ts) ≡ true
    → waits_on s chan a ≡ false
left-waits_on chan s [] a h = cc
left-waits_on chan s (t ∷ ts) a h = elim (Bool-cases (waits_on s chan t)) [
  | inl e ↦ left-waits_on chan s ts a (ground (arith, e, h))
  | inr e ↦ elim (Bool-cases (a == t)) [
    | inl q ↦ ground (arith, e, q)
    | inr q ↦ left-waits_on chan s ts a (ground (arith, e, h, q))
  ]
]

pub has-taken :
    (chan : ℕ) (every : Bool) (s : Sched) (ts : List ℕ) (a : ℕ)
    → has a ts ≡ false
    → has a (taken chan every s ts) ≡ false
has-taken chan every s [] a h = refl
has-taken chan true s (t ∷ ts) a h =
    let ih = has-taken chan true s ts a (ground arith) in ground (arith, ih)
has-taken chan false s (t ∷ ts) a h =
    let ih = has-taken chan false s ts a (ground arith) in ground (arith, ih)

-- The head keeps the turn over a signal.
pub HasTurn-Woken :
    (me chan : ℕ) (every : Bool) (rest : List ℕ) (s s1 : Sched)
    → HasTurn s me rest
    → has me s.waitq ≡ false
    → Woken chan every s s1
    → HasTurn s1 me (rest ++ taken chan every s s.waitq)
HasTurn-Woken me chan every rest s s1 h out w =
    let opts : s1.opts ≡ s.opts = ap (λ (z : Sched). z.opts) w.3 in
    let mine : s1.slots me ≡ s.slots me =
      w.2 me ∙ rw (has-taken chan every s s.waitq me out) refl in
    record {
      plain = record {
        relayed = ground (arith, opts, h.plain.relayed);
        no_hp = ground (arith, opts, h.plain.no_hp);
        no_bound = ground (arith, opts, h.plain.no_bound);
        no_regions = ground (arith, opts, h.plain.no_regions);
      };
      at_front = w.1 ∙ ap (λ l. l ++ taken chan every s s.waitq) h.at_front;
      running = ap (λ (z : Sched). z.status me) w.3 ∙ h.running;
      element = ap (λ (z : Sched). z.known me) w.3 ∙ h.element;
      not_hp = ap (λ (z : Slot). z.from_hp) mine ∙ h.not_hp;
      id = subst (λ n. me < n) (sym (ap (λ (z : Sched). z.tids.nthread) w.3)) h.id;
      no_wakeups = ap (λ (z : Sched). z.wakeup_flag) w.3 ∙ h.no_wakeups;
    }
