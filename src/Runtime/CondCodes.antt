-- ===== src/Runtime/CondCodes.antt =====
-- What `pthreadCondTimedWait` of lib/runtime/record-runtime.cpp returns.
use min_smt.Prelude.{ℕ, ◌≡◌, ◌≢◌, ◌⊎◌, inl, inr, arith, refl, sym, Bool, false, ok}
use min_smt.Prelude.Ensures
use min_smt.Prelude.Ensures.{Ensures, ensured}
use min_smt.Prelude.Int.{ℤ, pos}
use min_smt.Sched.{WakeReason, signaled, timedout, forever, etimedout}
use min_smt.Sched.Wakeups
use min_smt.Sched.Turn
use min_smt.Sched.Turn.{wait_result}
use min_smt.Runtime.State.{Rt, Progress, returned, waiting}
use min_smt.Runtime.Finish.{put_turn_strategy, finish}
use min_smt.Runtime.Mutex.{Attempt, acquired, waits, expired, reason_code, lock_round}
use min_smt.Runtime.Cond.{relocked, unnote_wait, cond_timed_wait_continue}

-- What an operation has come to: it waits again, or it returns `ret`.
abbrev Ends : ℤ → Progress × Rt → Type 0
Ends ret (p, rt) = (p ≡ waiting) ⊎ (p ≡ returned ret)

finish-Ends : (c : Bool) (me : ℕ) (ret : ℤ) (rt : Rt) → Ensures (Ends ret) (finish c me ret rt)
unfolding finish
finish-Ends c me ret rt =
    Ensures.bind (Ensures.always (Wakeups.inc_turn_count rt.sched)) λ (n, s1) q.
      let st =
        (put_turn_strategy c rt.opts.high_priority_yield s1.opts.wakeamap_plus (rt.locals me)).0 in
      Ensures.bind (Ensures.always (Turn.put_turn me 0 false st s1)) λ (b, s2) r. ensured (inr refl)

relocked-Ends : (me : ℕ) (ret : ℤ) (r : Attempt × Rt) → Ensures (Ends ret) (relocked me ret r)
unfolding relocked
relocked-Ends me ret (waits, rt) = ensured (inl refl)
relocked-Ends me ret (acquired, rt) = finish-Ends false me ret rt
relocked-Ends me ret (expired, rt) = finish-Ends false me ret rt

reason_code-ne : (w : WakeReason) → pos (reason_code w) ≢ pos etimedout
reason_code-ne signaled = λ e. ground (arith, e)
reason_code-ne timedout = λ e. ground (arith, e)

cond_timed_wait-Ends :
    (me cv mu p : ℕ) (rt : Rt)
    → Ensures
        (Ends (pos (reason_code (wait_result me rt.sched))))
        (cond_timed_wait_continue me cv mu p rt)
unfolding cond_timed_wait_continue
cond_timed_wait-Ends me cv mu p rt =
    let why = wait_result me rt.sched in
    let round =
      lock_round me mu forever (elim why [ timedout ↦ unnote_wait me cv p rt | signaled ↦ rt ]) in
    Ensures.bind (Ensures.always round) λ r q. relocked-Ends me (pos (reason_code why)) r

-- When the wait of `pthreadCondTimedWait` on `cv` is over and the call then returns `v`, `v` is the
-- code of the reason that `wait` gave, 0 for a signal and 1 for a timeout; so `v` is never ETIMEDOUT.
pub cond_timed_wait-code :
    (me cv mu p : ℕ) (rt rt' : Rt) (v : ℤ)
    → cond_timed_wait_continue me cv mu p rt ≡ ok (returned v, rt')
    → (v ≡ pos (reason_code (wait_result me rt.sched))) × (v ≢ pos etimedout)
cond_timed_wait-code me cv mu p rt rt' v e =
    let ends = Ensures.of_ok (cond_timed_wait-Ends me cv mu p rt) e in
    let same : v ≡ pos (reason_code (wait_result me rt.sched)) = ground (arith, ends) in
    (same, λ q. reason_code-ne (wait_result me rt.sched) (cc (sym same, q)))
