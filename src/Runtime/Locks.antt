-- ===== src/Runtime/Locks.antt =====
-- Who holds a mutex: what the wrappers of lib/runtime/record-runtime.cpp do to the locks.
use min_smt.Prelude.{
  ℕ, ◌+◌, ◌≡◌, refl, Bool, true, false, not, ◌&&◌, ◌∙◌, if◌then◌else◌, ok, update, Bool-cases, inl,
  inr, subst, sym,
}
use min_smt.Prelude.Int.{ℤ, pos}
use min_smt.Prelude.Ensures
use min_smt.Prelude.Ensures.{Ensures, ensured, failed}
use min_smt.Sched.{forever}
use min_smt.Sched.Wakeups
use min_smt.Sched.Turn
use min_smt.Sched.Turn.{wait_result}
use min_smt.Runtime.State.{Rt, Progress, returned, waiting, outside}
use min_smt.Runtime.Finish.{
  put_turn_strategy, begin, finish, sync_wait, set_local, bypassed, change_roles, some_of,
}
use min_smt.Runtime.Mutex.{
  Attempt, acquired, waits, expired, lock_round, locked_end, mutex_lock, mutex_lock_continue,
  lock_resumed-never_expires,
}

-- An operation after which the locks are `f`.
abbrev Leaves : (ℕ → Bool) → Rt → Type 0
Leaves f rt = rt.locked ≡ f

begin-Leaves : (me : ℕ) (rt : Rt) → Ensures (Leaves rt.locked) (begin me rt)
unfolding begin
begin-Leaves me rt =
    Ensures.after_assert rt.sched.opts.ndebug
      (not (rt.sched.opts.enforce_non_det_annotations && bypassed me rt))
      (Ensures.branch ((rt.locals me).process_proposed_role && some_of rt.proposed_role)
        (λ e.
          Ensures.bind (Ensures.always (change_roles rt.proposed_role rt.sched))
            λ s _. ensured refl)
        (λ e. ensured refl))

-- The end of an operation is its return, and keeps the locks.
finish-Leaves :
    (c : Bool) (me : ℕ) (ret : ℤ) (rt : Rt)
    → Ensures (λ (p, rt'). (p ≡ returned ret) × (rt'.locked ≡ rt.locked)) (finish c me ret rt)
unfolding finish set_local
finish-Leaves c me ret rt =
    Ensures.bind (Ensures.always (Wakeups.inc_turn_count rt.sched)) λ (n, s1) q.
      let st =
        (put_turn_strategy c rt.opts.high_priority_yield s1.opts.wakeamap_plus (rt.locals me)).0 in
      Ensures.bind (Ensures.always (Turn.put_turn me 0 false st s1))
        λ (b, s2) r. ensured (refl, refl)

sync_wait-Leaves :
    (me chan timeout : ℕ) (rt : Rt)
    → Ensures (λ (p, rt'). rt'.locked ≡ rt.locked) (sync_wait me chan timeout rt)
unfolding sync_wait
sync_wait-Leaves me chan timeout rt =
    Ensures.bind (Ensures.always (Turn.wait me chan timeout rt.sched)) λ (n, s) q. ensured refl

-- What an attempt to lock `mu` has done to the locks `f`.
abbrev Tried : (mu : ℕ) → (ℕ → Bool) → Attempt × Rt → Type 0
Tried mu f (acquired, rt) = (f mu ≡ false) × (rt.locked ≡ update f mu true)
Tried mu f (waits, rt) = (f mu ≡ true) × (rt.locked ≡ f)
Tried mu f (expired, rt) = true ≡ false

lock_round-Tried :
    (me mu timeout : ℕ) (rt : Rt) → Ensures (Tried mu rt.locked) (lock_round me mu timeout rt)
unfolding lock_round
lock_round-Tried me mu timeout rt = elim (Bool-cases (rt.locked mu)) [
  | inl e ↦ rw e (Ensures.bind (sync_wait-Leaves me mu timeout rt) λ (p, rt2) q. ensured (e, q))
  | inr e ↦ rw e (ensured (e, refl))
]

-- What a call that locks `mu` promises of the locks `f` that it met: when it returns, the mutex was
-- free and is locked now, and no other lock has changed; when it waits, the mutex was locked.
abbrev pub Outcome : (mu : ℕ) → (ℕ → Bool) → Progress × Rt → Type 0
Outcome mu f (returned v, rt) = (f mu ≡ false) × (rt.locked ≡ update f mu true) × (v ≡ pos 0)
Outcome mu f (waiting, rt) = (f mu ≡ true) × (rt.locked ≡ f)
Outcome mu f (outside, rt) = rt.locked ≡ f

either_locked : (b : Bool) (x y : Rt) → x.locked ≡ y.locked → (if b then x else y).locked ≡ y.locked
either_locked true x y e = e
either_locked false x y e = refl

locked_end-Outcome :
    (me mu : ℕ) (f : ℕ → Bool) (r : Attempt × Rt)
    → Tried mu f r
    → Ensures (Outcome mu f) (locked_end me r)
unfolding locked_end set_local
locked_end-Outcome me mu f (waits, rt) t = ensured t
locked_end-Outcome me mu f (expired, rt) t = cc
locked_end-Outcome me mu f (acquired, rt) t =
    let l = rt.locals me in
    let more : Rt = record rt {
      locals = update rt.locals me (record l { in_cs_level = l.in_cs_level + 1 });
    } in
    let b = rt.opts.cs_policy && not l.no_cs_whole_local in
    Ensures.mono (finish-Leaves false me (pos 0) (if b then more else rt)) λ (p, rt') (e, same).
      subst (λ q. Outcome mu f (q, rt')) (sym e)
        (t.0, same ∙ either_locked b more rt refl ∙ t.1, refl)

-- A call of `pthread_mutex_lock`, up to its wait if the mutex is locked: when it returns, which it
-- does with 0, the mutex was free, is locked now, and no other lock has changed; when it waits, the
-- mutex was locked, and no lock has changed; within a region it is the plain call.
pub mutex_lock-Outcome :
    (me mu : ℕ) (rt : Rt) (r : Progress × Rt) → mutex_lock me mu rt ≡ ok r → Outcome mu rt.locked r
unfolding mutex_lock
mutex_lock-Outcome me mu rt r h =
    Ensures.of_ok
      (Ensures.branch (bypassed me rt) (λ e. ensured {a = (outside, rt)} refl)
        (λ e. Ensures.bind (begin-Leaves me rt) λ rt1 b.
          Ensures.bind (lock_round-Tried me mu forever rt1) λ a t.
            subst (λ f. Ensures (Outcome mu f) (locked_end me a)) b
              (locked_end-Outcome me mu rt1.locked a t)))
      h

-- `pthread_mutex_lock` once its wait is over, whatever ended it: when the call returns, which it does
-- with 0, the mutex was free by then, is locked now, and no other lock has changed; when it waits
-- again, the mutex was still locked, and no lock has changed.
mutex_lock_continue-Outcome :
    (me mu : ℕ) (rt : Rt) (r : Progress × Rt)
    → mutex_lock_continue me mu rt ≡ ok r
    → Outcome mu rt.locked r
unfolding mutex_lock_continue
mutex_lock_continue-Outcome me mu rt r h =
    Ensures.of_ok
      (Ensures.bind
        (subst (Ensures (Tried mu rt.locked)) (sym (lock_resumed-never_expires me mu forever rt))
          (lock_round-Tried me mu forever rt))
        λ a t. locked_end-Outcome me mu rt.locked a t)
      h
