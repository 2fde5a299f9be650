-- ===== src/Runtime/Sems.antt =====
-- The values of the semaphores: what the wrappers of lib/runtime/record-runtime.cpp do to them.
use min_smt.Prelude.{
  ℕ, ◌-◌, ◌≡◌, refl, true, false, not, ◌&&◌, ◌∙◌, ltb, ok, update, Bool-cases, inl, inr, subst, sym,
}
use min_smt.Prelude.Int.{ℤ, pos}
use min_smt.Prelude.Ensures
use min_smt.Prelude.Ensures.{Ensures, ensured, failed}
use min_smt.Sched.{forever}
use min_smt.Sched.Wakeups
use min_smt.Sched.Turn
use min_smt.Runtime.State.{Rt, Progress, returned, waiting, outside}
use min_smt.Runtime.Finish.{
  put_turn_strategy, begin, finish, sync_wait, set_local, bypassed, change_roles, some_of,
}
use min_smt.Runtime.Mutex.{Attempt, acquired, waits, expired}
use min_smt.Runtime.Sem.{count_sem_up, sem_round, sem_end, sem_wait, sem_wait_continue}

-- An operation after which the values are `f`.
abbrev Values : (ℕ → ℕ) → Rt → Type 0
Values f rt = rt.sems ≡ f

begin-Values : (me : ℕ) (rt : Rt) → Ensures (Values rt.sems) (begin me rt)
unfolding begin
begin-Values me rt =
    Ensures.after_assert rt.sched.opts.ndebug
      (not (rt.sched.opts.enforce_non_det_annotations && bypassed me rt))
      (Ensures.branch ((rt.locals me).process_proposed_role && some_of rt.proposed_role)
        (λ e.
          Ensures.bind (Ensures.always (change_roles rt.proposed_role rt.sched))
            λ s _. ensured refl)
        (λ e. ensured refl))

finish-Values :
    (me : ℕ) (ret : ℤ) (rt : Rt)
    → Ensures (λ (p, rt'). (p ≡ returned ret) × (rt'.sems ≡ rt.sems)) (finish false me ret rt)
unfolding finish set_local
finish-Values me ret rt =
    Ensures.bind (Ensures.always (Wakeups.inc_turn_count rt.sched)) λ (n, s1) q.
      let st =
        (put_turn_strategy false rt.opts.high_priority_yield s1.opts.wakeamap_plus
          (rt.locals me)).0 in
      Ensures.bind (Ensures.always (Turn.put_turn me 0 false st s1))
        λ (b, s2) r. ensured (refl, refl)

sync_wait-Values :
    (me chan timeout : ℕ) (rt : Rt)
    → Ensures (λ (p, rt'). rt'.sems ≡ rt.sems) (sync_wait me chan timeout rt)
unfolding sync_wait
sync_wait-Values me chan timeout rt =
    Ensures.bind (Ensures.always (Turn.wait me chan timeout rt.sched)) λ (n, s) q. ensured refl

-- What an attempt to take one from `sem` has done to the values `f`.
abbrev Taken : (sem : ℕ) → (ℕ → ℕ) → Attempt × Rt → Type 0
Taken sem f (acquired, rt) = (ltb 0 (f sem) ≡ true) × (rt.sems ≡ update f sem (f sem - 1))
Taken sem f (waits, rt) = (ltb 0 (f sem) ≡ false) × (rt.sems ≡ f)
Taken sem f (expired, rt) = true ≡ false

sem_round-Taken :
    (me sem timeout : ℕ) (rt : Rt) → Ensures (Taken sem rt.sems) (sem_round me sem timeout rt)
unfolding sem_round
sem_round-Taken me sem timeout rt = elim (Bool-cases (ltb 0 (rt.sems sem))) [
  | inl e ↦ rw e (ensured (e, refl))
  | inr e ↦ rw e (
      Ensures.bind (sync_wait-Values me sem timeout (count_sem_up sem rt))
        λ (p, rt2) q. ensured (e, q))
]

-- What a call of `sem_wait` promises of the values `f` that it met: when it returns, the value was
-- not 0 and is one less, and no other value has changed; when it waits, the value was 0.
abbrev pub Down : (sem : ℕ) → (ℕ → ℕ) → Progress × Rt → Type 0
Down sem f (returned v, rt) =
    (ltb 0 (f sem) ≡ true) × (rt.sems ≡ update f sem (f sem - 1)) × (v ≡ pos 0)
Down sem f (waiting, rt) = (ltb 0 (f sem) ≡ false) × (rt.sems ≡ f)
Down sem f (outside, rt) = rt.sems ≡ f

sem_end-Down :
    (me sem : ℕ) (f : ℕ → ℕ) (r : Attempt × Rt)
    → Taken sem f r
    → Ensures (Down sem f) (sem_end me r)
unfolding sem_end
sem_end-Down me sem f (waits, rt) t = ensured t
sem_end-Down me sem f (expired, rt) t = cc
sem_end-Down me sem f (acquired, rt) t =
    Ensures.mono (finish-Values me (pos 0) rt)
      λ (p, rt') (e, same). subst (λ q. Down sem f (q, rt')) (sym e) (t.0, same ∙ t.1, refl)

-- A call of `sem_wait`, up to its wait if the value is 0: when it returns, which it does with 0, the
-- value was positive, is one less now, and no other value has changed; when it waits, the value was
-- 0, and no value has changed; within a region it is the plain call.
pub sem_wait-Down :
    (me sem : ℕ) (rt : Rt) (r : Progress × Rt) → sem_wait me sem rt ≡ ok r → Down sem rt.sems r
unfolding sem_wait
sem_wait-Down me sem rt r h =
    Ensures.of_ok
      (Ensures.branch (bypassed me rt) (λ e. ensured {a = (outside, rt)} refl)
        (λ e. Ensures.bind (begin-Values me rt) λ rt1 b.
          Ensures.bind (sem_round-Taken me sem forever rt1) λ a t.
            subst (λ f. Ensures (Down sem f) (sem_end me a)) b (sem_end-Down me sem rt1.sems a t)))
      h

-- `sem_wait` once its wait is over, whatever ended it: when the call returns, which it does with 0,
-- the value was positive by then, is one less now, and no other value has changed; when it waits
-- again, the value was 0, and no value has changed.
sem_wait_continue-Down :
    (me sem : ℕ) (rt : Rt) (r : Progress × Rt)
    → sem_wait_continue me sem rt ≡ ok r
    → Down sem rt.sems r
unfolding sem_wait_continue
sem_wait_continue-Down me sem rt r h =
    Ensures.of_ok
      (Ensures.bind (sem_round-Taken me sem forever rt) λ a t. sem_end-Down me sem rt.sems a t) h
