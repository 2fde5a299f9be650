-- ===== src/Runtime/Sharing.antt =====
-- Who holds a read-write lock: what the wrappers of lib/runtime/record-runtime.cpp do to them.
use min_smt.Prelude.{
  ℕ, ◌+◌, ◌≡◌, refl, Bool, true, false, not, ◌&&◌, ◌∙◌, ok, update, Bool-cases, inl, inr, subst,
  sym, ap, arith,
}
use min_smt.Prelude.Int.{ℤ, pos}
use min_smt.Prelude.Ensures
use min_smt.Prelude.Ensures.{Ensures, ensured, failed}
use min_smt.Sched.{forever}
use min_smt.Sched.Wakeups
use min_smt.Sched.Turn
use min_smt.Sched.Signals
use min_smt.Runtime.State.{Rt, RwLock, readers, written, Progress, returned, waiting, outside}
use min_smt.Runtime.Finish.{
  put_turn_strategy, begin, finish, sync_wait, sync_signal, set_local, bypassed, change_roles,
  some_of,
}
use min_smt.Runtime.Mutex.{Attempt, acquired, waits, expired, ebusy}
use min_smt.Runtime.RwLock.{
  is_free, is_shared, one_more, wrlock_round, rdlock_round, rw_end, rwlock_rdlock, rwlock_wrlock,
  rwlock_tryrdlock,
}

-- An operation after which the locks are `f`.
abbrev Locks : (ℕ → RwLock) → Rt → Type 0
Locks f rt = rt.rwlocks ≡ f

begin-Locks : (me : ℕ) (rt : Rt) → Ensures (Locks rt.rwlocks) (begin me rt)
unfolding begin
begin-Locks me rt =
    Ensures.after_assert rt.sched.opts.ndebug
      (not (rt.sched.opts.enforce_non_det_annotations && bypassed me rt))
      (Ensures.branch ((rt.locals me).process_proposed_role && some_of rt.proposed_role)
        (λ e.
          Ensures.bind (Ensures.always (change_roles rt.proposed_role rt.sched))
            λ s _. ensured refl)
        (λ e. ensured refl))

finish-Locks :
    (me : ℕ) (ret : ℤ) (rt : Rt)
    → Ensures (λ (p, rt'). (p ≡ returned ret) × (rt'.rwlocks ≡ rt.rwlocks)) (finish false me ret rt)
unfolding finish set_local
finish-Locks me ret rt =
    Ensures.bind (Ensures.always (Wakeups.inc_turn_count rt.sched)) λ (n, s1) q.
      let st =
        (put_turn_strategy false rt.opts.high_priority_yield s1.opts.wakeamap_plus
          (rt.locals me)).0 in
      Ensures.bind (Ensures.always (Turn.put_turn me 0 false st s1))
        λ (b, s2) r. ensured (refl, refl)

sync_wait-Locks :
    (me chan timeout : ℕ) (rt : Rt)
    → Ensures (λ (p, rt'). rt'.rwlocks ≡ rt.rwlocks) (sync_wait me chan timeout rt)
unfolding sync_wait
sync_wait-Locks me chan timeout rt =
    Ensures.bind (Ensures.always (Turn.wait me chan timeout rt.sched)) λ (n, s) q. ensured refl

sync_signal-Locks :
    (me chan : ℕ) (every : Bool) (rt : Rt)
    → Ensures (Locks rt.rwlocks) (sync_signal me chan every rt)
unfolding sync_signal
sync_signal-Locks me chan every rt =
    Ensures.bind (Ensures.always (Signals.signal me chan every rt.sched)) λ s q. ensured refl

-- An attempt at the lock `lk` of `f`, which `test` admits and which makes it `l`.
abbrev Tried :
    (test : RwLock → Bool) → (l : RwLock) → (lk : ℕ) → (ℕ → RwLock) → Attempt × Rt → Type 0
Tried test l lk f (acquired, rt) = (test (f lk) ≡ true) × (rt.rwlocks ≡ update f lk l)
Tried test l lk f (waits, rt) = (test (f lk) ≡ false) × (rt.rwlocks ≡ f)
Tried test l lk f (expired, rt) = true ≡ false

wrlock_round-Tried :
    (me lk timeout : ℕ) (rt : Rt)
    → Ensures (Tried is_free written lk rt.rwlocks) (wrlock_round me lk timeout rt)
unfolding wrlock_round
wrlock_round-Tried me lk timeout rt = elim (Bool-cases (is_free (rt.rwlocks lk))) [
  | inl e ↦ rw e (ensured (e, refl))
  | inr e ↦ rw e (Ensures.bind (sync_wait-Locks me lk timeout rt) λ (p, rt2) q. ensured (e, q))
]

rdlock_round-Tried :
    (me lk timeout : ℕ) (rt : Rt)
    → Ensures
        (Tried is_shared (one_more (rt.rwlocks lk)) lk rt.rwlocks)
        (rdlock_round me lk timeout rt)
unfolding rdlock_round
rdlock_round-Tried me lk timeout rt = elim (Bool-cases (is_shared (rt.rwlocks lk))) [
  | inl e ↦ rw e (ensured (e, refl))
  | inr e ↦ rw e (Ensures.bind (sync_wait-Locks me lk timeout rt) λ (p, rt2) q. ensured (e, q))
]

-- What a call that locks `lk` promises of the locks `f` that it met: when it returns, the lock
-- passed `test` and is `l` now, and no other lock has changed; when it waits, it failed `test`.
abbrev pub Locked :
    (test : RwLock → Bool) → (l : RwLock) → (lk : ℕ) → (ℕ → RwLock) → Progress × Rt → Type 0
Locked test l lk f (returned v, rt) =
    (test (f lk) ≡ true) × (rt.rwlocks ≡ update f lk l) × (v ≡ pos 0)
Locked test l lk f (waiting, rt) = (test (f lk) ≡ false) × (rt.rwlocks ≡ f)
Locked test l lk f (outside, rt) = rt.rwlocks ≡ f

rw_end-Locked :
    (test : RwLock → Bool) (l : RwLock) (me lk : ℕ) (f : ℕ → RwLock) (r : Attempt × Rt)
    → Tried test l lk f r
    → Ensures (Locked test l lk f) (rw_end me r)
unfolding rw_end
rw_end-Locked test l me lk f (waits, rt) t = ensured t
rw_end-Locked test l me lk f (expired, rt) t = cc
rw_end-Locked test l me lk f (acquired, rt) t =
    Ensures.mono (finish-Locks me (pos 0) rt)
      λ (p, rt') (e, same). subst (λ q. Locked test l lk f (q, rt')) (sym e) (t.0, same ∙ t.1, refl)

-- A call of `pthread_rwlock_wrlock`, up to its wait if the lock is held: when it returns, which it
-- does with 0, nobody held the lock, it is held for writing now, and no other lock has changed; when
-- it waits, a reader or a writer held the lock, and no lock has changed; within a region it is the
-- plain call.
pub rwlock_wrlock-Locked :
    (me lk : ℕ) (rt : Rt) (r : Progress × Rt)
    → rwlock_wrlock me lk rt ≡ ok r
    → Locked is_free written lk rt.rwlocks r
unfolding rwlock_wrlock
rwlock_wrlock-Locked me lk rt r h =
    Ensures.of_ok
      (Ensures.branch (bypassed me rt) (λ e. ensured {a = (outside, rt)} refl)
        (λ e. Ensures.bind (begin-Locks me rt) λ rt1 b.
          Ensures.bind (wrlock_round-Tried me lk forever rt1) λ a t.
            subst (λ f. Ensures (Locked is_free written lk f) (rw_end me a)) b
              (rw_end-Locked is_free written me lk rt1.rwlocks a t)))
      h

-- A call of `pthread_rwlock_rdlock`, up to its wait if a writer holds the lock: when it returns,
-- which it does with 0, no writer held the lock, it has one reader more now, and no other lock has
-- changed; when it waits, a writer held the lock, and no lock has changed; within a region it is the
-- plain call.
rwlock_rdlock-Locked :
    (me lk : ℕ) (rt : Rt) (r : Progress × Rt)
    → rwlock_rdlock me lk rt ≡ ok r
    → Locked is_shared (one_more (rt.rwlocks lk)) lk rt.rwlocks r
unfolding rwlock_rdlock
rwlock_rdlock-Locked me lk rt r h =
    Ensures.of_ok
      (Ensures.branch (bypassed me rt) (λ e. ensured {a = (outside, rt)} refl)
        (λ e. Ensures.bind (begin-Locks me rt) λ rt1 b.
          Ensures.bind (rdlock_round-Tried me lk forever rt1) λ a t.
            subst (λ f. Ensures (Locked is_shared (one_more (f lk)) lk f) (rw_end me a)) b
              (rw_end-Locked is_shared (one_more (rt1.rwlocks lk)) me lk rt1.rwlocks a t)))
      h

abbrev Busy : (ℕ → RwLock) → Progress × Rt → Type 0
Busy f (returned v, rt) = (v ≡ pos ebusy) × (rt.rwlocks ≡ f)
Busy f (_, rt) = Unit {0}

tryrdlock-Busy :
    (me lk n : ℕ) (rt : Rt)
    → rt.rwlocks lk ≡ readers (n + 1)
    → Ensures (Busy rt.rwlocks) (rwlock_tryrdlock me lk rt)
unfolding rwlock_tryrdlock
tryrdlock-Busy me lk n rt held =
    Ensures.branch (bypassed me rt) (λ e. ensured {a = (outside, rt)} tt)
      (λ e. Ensures.bind (begin-Locks me rt) λ rt1 b.
        let not_free : is_free (rt1.rwlocks lk) ≡ false =
          ap (λ f. is_free (f lk)) b ∙ ap is_free held ∙ ground arith in
        rw not_free (
          Ensures.mono (finish-Locks me (pos ebusy) rt1)
            λ (p, rt2) (e, same). subst (λ q. Busy rt.rwlocks (q, rt2)) (sym e) (refl, same ∙ b)))

-- While readers, and no writer, hold a lock, a call of `pthread_rwlock_tryrdlock` that returns
-- outside a region fails with EBUSY and changes no lock, though the lock may be shared.
pub rwlock_tryrdlock-refuses :
    (me lk n : ℕ) (rt rt' : Rt) (v : ℤ)
    → rt.rwlocks lk ≡ readers (n + 1)
    → rwlock_tryrdlock me lk rt ≡ ok (returned v, rt')
    → (v ≡ pos ebusy) × (rt'.rwlocks ≡ rt.rwlocks)
rwlock_tryrdlock-refuses me lk n rt rt' v held h = Ensures.of_ok (tryrdlock-Busy me lk n rt held) h
