-- ===== src/Runtime/Release.antt =====
-- The last thread that arrives at a barrier releases the others.
use min_smt.Prelude.{
  ℕ, ◌+◌, ◌<◌, ◌≡◌, ◌≢◌, refl, true, ◌||◌, ◌==◌, if◌then◌else◌, false, some, List, [], ◌∷◌, ◌++◌,
  ap, sym, ◌∙◌, arith, has, All, Distinct, ok, update, subst,
}
use min_smt.RunQueue.{Status, running_reg}
use min_smt.Sched.{Sched, post}
use min_smt.Sched.Next.{is_stop, is_runnable}
use min_smt.Sched.Timely.{AllKnown}
use min_smt.Sched.Fifo.{taken, waits_on, signaled_slots, signal-Woken}
use min_smt.Sched.Broadcast.{left-waits_on, HasTurn-Woken}
use min_smt.Sched.RoundRobin.{HasTurn, put_turn-rotates}
use min_smt.Runtime.State.{Rt, BarrierState, waiting}
use min_smt.Runtime.Barrier.{arrive}

is_stop-eq :
    (f g : ℕ → Status) (bs : List ℕ)
    → g ≡ f
    → All (λ b. is_stop (f b) ≡ true) bs
    → All (λ b. is_stop (g b) ≡ true) bs
is_stop-eq f g bs e a = rw e a

-- With round robin alone, no wake-ups pending, and a wait queue of distinct known threads without
-- `me`: when the running head `me` is the last thread to arrive at barrier `barrier`, every thread
-- that waits there goes to the end of the run queue in the order of arrival and none is left
-- waiting, the barrier is empty again, `me` goes behind them all, and the first thread `t` that is
-- not blocked heads the queue, runs if it could, and is posted its turn; the slots of the threads
-- that waited are reset as by a signal, and no other slot changes.
pub arrive-releases :
    (me barrier : ℕ) (b : BarrierState) (rt : Rt) (rest bs : List ℕ) (t : ℕ) (ts : List ℕ)
    → HasTurn rt.sched me rest
    → barrier ≢ 0
    → Distinct rt.sched.waitq
    → AllKnown rt.sched rt.sched.waitq
    → has me rt.sched.waitq ≡ false
    → b.count ≡ b.narrived + 1
    → (rest ++ taken barrier true rt.sched rt.sched.waitq) ++ me ∷ [] ≡ bs ++ t ∷ ts
    → All (λ a. is_stop (rt.sched.status a) ≡ true) bs
    → is_stop (rt.sched.status t) ≡ false
    → t < rt.sched.tids.nthread
    → (rt' : Rt) × (arrive me barrier b rt ≡ ok (waiting, rt'))
      × (rt'.barriers barrier ≡ some (record b { narrived = 0 }))
      × (rt'.sched.runq.items ≡ t ∷ ts)
      × (rt'.sched.status t ≡ (
          if is_runnable (rt.sched.status t) || (t == me) then running_reg else rt.sched.status t))
      × (let slots = signaled_slots (taken barrier true rt.sched rt.sched.waitq) rt.sched in
          (a : ℕ) → rt'.sched.slots a ≡ update slots t (post rt.sched.opts.turn_type (slots t)) a)
      × ((a : ℕ) → has a rt'.sched.waitq ≡ true → waits_on rt.sched barrier a ≡ false)
unfolding arrive
arrive-releases me barrier b rt rest bs t ts h ne d k out full q stopped go lt =
    let (s1, r, w) =
      signal-Woken me barrier rest true rt.sched h.plain.relayed h.plain.no_hp ne h.at_front d k in
    let status : s1.status ≡ rt.sched.status = ap (λ (z : Sched). z.status) w.3 in
    let opts : s1.opts ≡ rt.sched.opts = ap (λ (z : Sched). z.opts) w.3 in
    let (s2, p, queue, run, slots, waitq) =
      put_turn-rotates me 0 (rest ++ taken barrier true rt.sched rt.sched.waitq) bs t ts s1
        (HasTurn-Woken me barrier true rest rt.sched s1 h out w) q
        (is_stop-eq rt.sched.status s1.status bs status stopped)
        (ap (λ (f : ℕ → Status). is_stop (f t)) status ∙ go)
        (subst (λ n. t < n) (sym (ap (λ (z : Sched). z.tids.nthread) w.3)) lt) in
    (
      record rt {
        sched = s2;
        barriers = update rt.barriers barrier (some (record b { narrived = 0 }));
      },
      ground (arith, r, p, full),
      ground arith,
      queue,
      run ∙ rw status refl,
      λ a. ground (arith, slots, opts, w.2 a, w.2 t),
      λ a m.
          left-waits_on barrier rt.sched rt.sched.waitq a
            (subst (λ l. has a l ≡ true) (waitq ∙ w.0) m),
    )
