-- ===== src/Runtime/Passing.antt =====
-- Who has the turn after `pthreadMutexUnlock` and `semPost` of lib/runtime/record-runtime.cpp: the
-- call wakes the first waiter, counts a turn and gives up the turn.
use min_smt.Prelude.{
  ℕ, ◌+◌, ◌<◌, ◌≡◌, ◌≢◌, refl, Bool, true, false, ◌||◌, ◌&&◌, ◌==◌, some, List, [], ◌∷◌, ◌++◌, ap,
  sym, ◌∙◌, subst, arith, ltb, if◌then◌else◌, has, All, Distinct, ok, update, assert, Bool-cases,
  inl, inr,
}
use min_smt.Prelude.Int.{pos, is_zero, lt_ℤ, ◌-ℤ◌}
use min_smt.RunQueue.{Status, running_reg}
use min_smt.Sched.{Sched, post, forever, uint_mod, default_strategy}
use min_smt.Sched.Wakeups.{fire, fire_timeouts, check_wakeup, inc_turn_count}
use min_smt.Sched.Signals.{signal}
use min_smt.Sched.Next.{is_stop, is_runnable}
use min_smt.Sched.Turn.{put_turn}
use min_smt.Sched.Timely.{AllKnown}
use min_smt.Sched.Fifo.{taken, left, waits_on, signaled_slots, signal-Woken}
use min_smt.Sched.Broadcast.{HasTurn-Woken}
use min_smt.Sched.RoundRobin.{HasTurn, put_turn-rotates}
use min_smt.Runtime.State.{Rt, returned}
use min_smt.Runtime.Finish.{put_turn_strategy, bypassed, set_local, sync_signal}
use min_smt.Runtime.Mutex.{UnlockCall, leave_section, mutex_unlock}
use min_smt.Runtime.Sem.{sem_value_max, real_post, sem_posted, sem_post}
use min_smt.Runtime.Outside.{counted}
use min_smt.Runtime.Child.{begin-same, finish-puts}

-- Threads that wait without a timeout.
abbrev pub IsPatient : Sched → List ℕ → Type 0
IsPatient s ts = All (λ a. (s.slots a).timeout ≡ forever) ts

fire-IsPatient :
    (ts : List ℕ) (s : Sched)
    → s.turn_count < uint_mod
    → AllKnown s ts
    → IsPatient s ts
    → fire ts s ≡ ok (ts, 0, s)
unfolding fire
fire-IsPatient [] s c k p = refl
fire-IsPatient (t ∷ ts) s c k p =
    let ih = fire-IsPatient ts s c k.1 p.1 in
    let late : ltb (s.slots t).timeout s.turn_count ≡ false = ground (arith, p.0) in
    let known : assert s.opts.ndebug (ltb t s.tids.nthread) ≡ ok tt = ground (arith, k.0.0) in
    rw (known, late, ih) refl

-- With patient waiters and nobody to wake, a turn is counted and nothing else happens.
inc_turn_count-IsPatient :
    (s : Sched)
    → AllKnown s s.waitq
    → IsPatient s s.waitq
    → s.wakeup_flag ≡ false
    → inc_turn_count s ≡ ok (s.turn_count, counted s)
unfolding inc_turn_count fire_timeouts check_wakeup
inc_turn_count-IsPatient s k p w =
    rw (fire-IsPatient s.waitq (counted s) (omega arith) k p) (rw w refl)

left-All {ℓ} :
    (P : ℕ → Type ℓ) (chan : ℕ) (s : Sched) (ts : List ℕ) → All P ts → All P (left chan false s ts)
left-All P chan s [] a = a
left-All P chan s (t ∷ ts) a = elim (Bool-cases (waits_on s chan t)) [
  | inl e ↦ rw e a.1
  | inr e ↦ rw e (a.0, left-All P chan s ts a.1)
]

signaled-IsPatient :
    (us : List ℕ) (s s1 : Sched) (ts : List ℕ)
    → ((a : ℕ) → s1.slots a ≡ signaled_slots us s a)
    → IsPatient s ts
    → IsPatient s1 ts
signaled-IsPatient us s s1 [] e p = tt
signaled-IsPatient us s s1 (t ∷ ts) e p =
    (ground (arith, e t, p.0), signaled-IsPatient us s s1 ts e p.1)

-- The thread `me` at the head of the queue holds the turn, before a call that wakes a waiter on
-- `chan` and after which `t` comes next: `me` is not waiting, the waiters are distinct, known, and
-- have no timeout, and the threads `bs` between are blocked.
pub record Passes (chan me : ℕ) (rest bs : List ℕ) (t : ℕ) (ts : List ℕ) (s : Sched) : Type 0 where
  pub turn : HasTurn s me rest
  pub named : chan ≢ 0
  pub distinct : Distinct s.waitq
  pub all_known : AllKnown s s.waitq
  pub not_waiting : has me s.waitq ≡ false
  pub patient : IsPatient s s.waitq
  pub in_line : (rest ++ taken chan false s s.waitq) ++ me ∷ [] ≡ bs ++ t ∷ ts
  pub blocked : All (λ b. is_stop (s.status b) ≡ true) bs
  pub free : is_stop (s.status t) ≡ false
  pub id : t < s.tids.nthread

-- The state `s'` after the call: `t` heads the queue, runs if it could, and is posted its turn; the
-- first waiter on `chan` no longer waits and its slot is reset as by a signal, and no other slot
-- changes.
pub record Passed (chan me t : ℕ) (ts : List ℕ) (s s' : Sched) : Type 0 where
  pub queue : s'.runq.items ≡ t ∷ ts
  pub running :
      s'.status t ≡ (if is_runnable (s.status t) || (t == me) then running_reg else s.status t)
  pub slots :
      let ws = signaled_slots (taken chan false s s.waitq) s in
      (a : ℕ) → s'.slots a ≡ update ws t (post s.opts.turn_type (ws t)) a
  pub waitq : s'.waitq ≡ left chan false s s.waitq

signal-Passed :
    (chan me : ℕ) (rest bs : List ℕ) (t : ℕ) (ts : List ℕ) (s : Sched)
    → Passes chan me rest bs t ts s
    → (s1 : Sched) × (s2 : Sched) × (signal me chan false s ≡ ok s1)
      × (inc_turn_count s1 ≡ ok (s1.turn_count, counted s1))
      × (put_turn me 0 false default_strategy (counted s1) ≡ ok (some t, s2))
      × (s1.opts ≡ s.opts)
      × Passed chan me t ts s s2
signal-Passed chan me rest bs t ts s c =
    let us = taken chan false s s.waitq in
    let (s1, r, w) =
      signal-Woken me chan rest false s c.turn.plain.relayed c.turn.plain.no_hp c.named
        c.turn.at_front c.distinct c.all_known in
    let h = HasTurn-Woken me chan false rest s s1 c.turn c.not_waiting w in
    let opts : s1.opts ≡ s.opts = ap (λ (z : Sched). z.opts) w.3 in
    let status : s1.status ≡ s.status = ap (λ (z : Sched). z.status) w.3 in
    let known : AllKnown s1 s1.waitq =
      subst (λ (z : Sched). AllKnown z s1.waitq) (sym w.3)
        (subst (AllKnown s) (sym w.0) (left-All _ chan s s.waitq c.all_known)) in
    let patient : IsPatient s1 s1.waitq = subst (IsPatient s1) (sym w.0) (
      signaled-IsPatient us s s1 (left chan false s s.waitq) w.2
        (left-All _ chan s s.waitq c.patient)) in
    let (s2, p, queue, run, slots, waitq) =
      put_turn-rotates me 0 (rest ++ us) bs t ts (counted s1)
        (record {
          plain = record {
            relayed = h.plain.relayed;
            no_hp = h.plain.no_hp;
            no_bound = h.plain.no_bound;
            no_regions = h.plain.no_regions;
          };
          at_front = h.at_front;
          running = h.running;
          element = h.element;
          not_hp = h.not_hp;
          id = h.id;
          no_wakeups = h.no_wakeups;
        })
        c.in_line
        (subst (λ (f : ℕ → Status). All (λ b. is_stop (f b) ≡ true) bs) (sym status) c.blocked)
        (ap (λ (f : ℕ → Status). is_stop (f t)) status ∙ c.free)
        (subst (λ n. t < n) (sym (ap (λ (z : Sched). z.tids.nthread) w.3)) c.id) in
    (
      s1,
      s2,
      r,
      inc_turn_count-IsPatient s1 known patient h.no_wakeups,
      p,
      opts,
      record {
        queue = queue;
        running = run ∙ rw status refl;
        slots = λ a. ground (arith, slots, opts, w.2 a, w.2 t);
        waitq = waitq ∙ w.0;
      },
    )

pub mutex_unlock-Passed :
    (unlock : UnlockCall) (me mu : ℕ) (rt : Rt) (rest bs : List ℕ) (t : ℕ) (ts : List ℕ)
    → bypassed me rt ≡ false
    → (rt.locals me).process_proposed_role ≡ false
    → Passes mu me rest bs t ts rt.sched
    → rt.sched.opts.ndebug || is_zero (unlock me mu rt.locked).0 ≡ true
    → (put_turn_strategy false rt.opts.high_priority_yield rt.sched.opts.wakeamap_plus
        (leave_section rt.opts.cs_policy (rt.locals me))).0
      ≡ default_strategy
    → (rt' : Rt) × (mutex_unlock unlock me mu rt ≡ ok (returned (unlock me mu rt.locked).0, rt'))
      × (rt'.locked ≡ (unlock me mu rt.locked).1)
      × Passed mu me t ts rt.sched rt'.sched
unfolding mutex_unlock set_local sync_signal
mutex_unlock-Passed unlock me mu rt rest bs t ts b p c fine st =
    let (s1, s2, r, i, put, opts, q) = signal-Passed mu me rest bs t ts rt.sched c in
    let checked : assert rt.sched.opts.ndebug (is_zero (unlock me mu rt.locked).0) ≡ ok tt =
      ground (arith, fine) in
    let rt4 : Rt = record rt {
      sched = s1;
      locked = (unlock me mu rt.locked).1;
      locals = update rt.locals me (leave_section rt.opts.cs_policy (rt.locals me));
    } in
    let own : rt4.locals me ≡ leave_section rt.opts.cs_policy (rt.locals me) = ground arith in
    let (l, done) =
      finish-puts me (unlock me mu rt.locked).0 rt4 s1.turn_count (counted s1) (some t) s2 i
        (rw (opts, own) st) put in
    (
      set_local me l (record rt4 { sched = s2 }),
      rw (begin-same me rt b p, b, checked, r) done,
      refl,
      q,
    )

-- The value of a semaphore `sem` after a post: one more, unless it is the greatest one.
abbrev pub raised : ℕ → ℕ
raised v = if ltb v sem_value_max then v + 1 else v

-- The state after `semPost` has looked at the map of waiters, which depends on its map, options and
-- local variables.
sem_posted-parts :
    (me sem : ℕ) (rt : Rt) (s1 : Sched) (f : ℕ → ℕ)
    → let posted = sem_posted me sem (record rt { sched = s1; sems = f }) in
      (posted.sched ≡ s1)
      × (posted.sems ≡ f)
      × (posted.opts ≡ rt.opts)
      × (posted.locals ≡ (sem_posted me sem rt).locals)
      × (posted.sem_map sem
          ≡ (if lt_ℤ (pos 0) (rt.sem_map sem) then rt.sem_map sem -ℤ pos 1 else rt.sem_map sem))
unfolding sem_posted set_local
sem_posted-parts me sem rt s1 f = elim (Bool-cases (lt_ℤ (pos 0) (rt.sem_map sem))) [
  | inl e ↦
      let own : update rt.sem_map sem (rt.sem_map sem -ℤ pos 1) sem ≡ rt.sem_map sem -ℤ pos 1 =
        ground arith in
      elim (Bool-cases (rt.opts.wait_policy && lt_ℤ (pos 0) (rt.sem_map sem -ℤ pos 1))) [
        | inl h ↦ rw (e, own, h) (refl, refl, refl, refl, own)
        | inr h ↦ rw (e, own, h) (refl, refl, refl, refl, own)
      ]
  | inr e ↦ elim (Bool-cases (rt.opts.wait_policy && lt_ℤ (pos 0) (rt.sem_map sem))) [
    | inl h ↦ rw e (ground (arith, e, h))
    | inr h ↦ rw (e, h) (refl, refl, refl, refl, refl)
  ]
]

real_post-raises :
    (nd : Bool) (sem : ℕ) (rt : Rt)
    → nd || ltb (rt.sems sem) sem_value_max ≡ true
    → (f : ℕ → ℕ) × ((real_post sem rt).1 ≡ record rt { sems = f })
      × (assert nd (is_zero (real_post sem rt).0) ≡ ok tt)
      × ((a : ℕ) → f a ≡ update rt.sems sem (raised (rt.sems sem)) a)
unfolding real_post
real_post-raises nd sem rt fine = elim (Bool-cases (ltb (rt.sems sem) sem_value_max)) [
  | inl e ↦ rw e (update rt.sems sem (rt.sems sem + 1), refl, ground arith, λ a. refl)
  | inr e ↦ rw e (rt.sems, refl, ground (arith, fine, e), λ a. ground arith)
]

pub sem_post-Passed :
    (me sem : ℕ) (rt : Rt) (rest bs : List ℕ) (t : ℕ) (ts : List ℕ)
    → bypassed me rt ≡ false
    → (rt.locals me).process_proposed_role ≡ false
    → Passes sem me rest bs t ts rt.sched
    → rt.sched.opts.ndebug || ltb (rt.sems sem) sem_value_max ≡ true
    → (put_turn_strategy false rt.opts.high_priority_yield rt.sched.opts.wakeamap_plus
        ((sem_posted me sem rt).locals me)).0
      ≡ default_strategy
    → (rt' : Rt) × (sem_post me sem rt ≡ ok (returned (pos 0), rt'))
      × ((a : ℕ) → rt'.sems a ≡ update rt.sems sem (raised (rt.sems sem)) a)
      × (rt'.sem_map sem
          ≡ (if lt_ℤ (pos 0) (rt.sem_map sem) then rt.sem_map sem -ℤ pos 1 else rt.sem_map sem))
      × Passed sem me t ts rt.sched rt'.sched
unfolding sem_post sem_posted set_local sync_signal
sem_post-Passed me sem rt rest bs t ts b p c fine st =
    let (s1, s2, r, i, put, opts, q) = signal-Passed sem me rest bs t ts rt.sched c in
    let (f, real, checked, up) = real_post-raises rt.sched.opts.ndebug sem rt fine in
    let rt4 = sem_posted me sem (record rt { sched = s1; sems = f }) in
    let m = sem_posted-parts me sem rt s1 f in
    let (l, done) =
      finish-puts me (pos 0) rt4 s1.turn_count (counted s1) (some t) s2 (rw m.0 i)
        (rw (m.2, opts, m.3) st) put in
    (
      set_local me l (record rt4 { sched = s2 }),
      rw (begin-same me rt b p, b, real, checked, r) done,
      λ a. ap (λ (g : ℕ → ℕ). g a) m.1 ∙ up a,
      m.4,
      q,
    )
