-- ===== src/Runtime/Cond.antt =====
-- The condition variable wrappers of lib/runtime/record-runtime.cpp, in parts as Mutex has them.
use min_smt.Prelude.{
  ℕ, ◌+◌, true, false, not, ◌&&◌, Option, none, some, ◌==◌, if◌then◌else◌, update, Result, ok,
  ◌>>=◌,
}
use min_smt.Prelude.Int.{ℤ, pos, negsuc, lt_ℤ, ◌+ℤ◌, ◌-ℤ◌}
use min_smt.TidMap
use min_smt.Sched.{signaled, timedout, forever}
use min_smt.Sched.Turn.{wait_result}
use min_smt.Runtime.State.{Rt, AddrRole, Progress, waiting, outside, Timespec}
use min_smt.Runtime.Finish.{
  begin, finish, fake_end, sync_wait, sync_signal, set_local, bypassed, find_role, role_count,
  put_role, drop_role, present,
}
use min_smt.Runtime.Mutex.{Attempt, waits, reason_code, deadline, lock_round, lock_resumed}

-- `cond_map[cv] += by`.
abbrev pub count_cv : ℕ → ℤ → Rt → Rt
count_cv cv by rt = record rt { cond_map = update rt.cond_map cv (rt.cond_map cv +ℤ by) }

-- The bookkeeping of a wait on `cv` called from `caller`: with roles on, a new `Addr_n_role` is the
-- line on which `cv` blocks, and its count goes up. The result names that object.
unfoldable pub note_wait : (me caller cv : ℕ) → Rt → Result (ℕ × Rt)
note_wait me caller cv rt =
    let rt1 = count_cv cv (pos 1) rt in
    if rt1.sched.opts.wakeamap_plus
    then (do
      role ← TidMap.get_roleid rt1.sched.opts.ndebug me rt1.sched.tids
      let p = rt1.next_role
      let k : AddrRole = (caller, role)
      ok (
        p,
        record rt1 {
          role_at = update rt1.role_at p k;
          next_role = p + 1;
          blocked_line = update rt1.blocked_line cv (some p);
          blocked_count = put_role k (role_count k rt1.blocked_count +ℤ pos 1) rt1.blocked_count;
        },
      ))
    else ok (rt1.next_role, rt1)

abbrev pub unlock_real : ℕ → Rt → Rt
unlock_real mu rt = record rt { locked = update rt.locked mu false }

-- `pthreadCondWait` up to its wait on `cv`.
unfoldable pub cond_wait : (me caller cv mu : ℕ) → Rt → Result (Progress × Rt)
unfolding begin note_wait sync_signal fake_end sync_wait
cond_wait me caller cv mu rt = if bypassed me rt then ok (outside, rt) else do
  rt1 ← begin me rt
  (p, rt2) ← note_wait me caller cv rt1
  rt3 ← sync_signal me mu false (unlock_real mu rt2)
  rt4 ← fake_end rt3
  sync_wait me cv forever rt4

-- The end of a wait behind `pthreadMutexLockHelper`, whose result is not looked at.
unfoldable pub relocked : (me : ℕ) → (ret : ℤ) → Attempt × Rt → Result (Progress × Rt)
relocked me ret (waits, rt) = ok (waiting, rt)
relocked me ret (a, rt) = finish false me ret rt

-- `pthreadCondWait` once the wait on `cv` is over, and once each wait on the mutex is.
unfoldable pub cond_wait_continue : (me mu : ℕ) → Rt → Result (Progress × Rt)
unfolding lock_round relocked
cond_wait_continue me mu rt = do r ← lock_round me mu forever rt; relocked me (pos 0) r

unfoldable pub relock_continue : (me mu : ℕ) → (ret : ℤ) → Rt → Result (Progress × Rt)
unfolding lock_resumed relocked
relock_continue me mu ret rt = do r ← lock_resumed me mu forever rt; relocked me ret r

-- `pthreadCondTimedWait` up to its wait on `cv`. The result names the `Addr_n_role` too.
unfoldable pub cond_timed_wait :
    (clock : Timespec) → (me caller cv mu : ℕ) → Option Timespec → Rt → Result (Progress × ℕ × Rt)
unfolding cond_wait begin note_wait sync_signal fake_end sync_wait deadline
cond_timed_wait clock me caller cv mu none rt = do
  (p, rt1) ← cond_wait me caller cv mu rt
  ok (p, 0, rt1)
cond_timed_wait clock me caller cv mu (some abstime) rt =
    if bypassed me rt then ok (outside, 0, rt) else do
      rt1 ← begin me rt
      (p, rt2) ← note_wait me caller cv (unlock_real mu rt1)
      rt3 ← fake_end rt2
      rt4 ← sync_signal me mu false rt3
      timeout ← deadline clock abstime me rt4
      (q, rt5) ← sync_wait me cv timeout rt4
      ok (q, p, rt5)

-- What a timeout takes back of the bookkeeping of the wait that made the object `p`.
unfoldable pub unnote_wait : (me cv p : ℕ) → Rt → Rt
unfolding set_local
unnote_wait me cv p rt =
    let rt1 = count_cv cv (negsuc 0) rt in
    let k = rt1.role_at p in
    let left = role_count k rt1.blocked_count -ℤ pos 1 in
    if not rt1.sched.opts.wakeamap_plus
    then rt1
    else if lt_ℤ left (pos 1)
    then set_local me (record (rt1.locals me) { satisfying_role = none })
        (record rt1 {
          blocked_count = drop_role k rt1.blocked_count;
          blocked_line = update rt1.blocked_line cv none;
        })
    else record rt1 { blocked_count = put_role k left rt1.blocked_count }

-- `pthreadCondTimedWait` once the wait on `cv` is over; it returns the reason of the wake-up.
unfoldable pub cond_timed_wait_continue : (me cv mu p : ℕ) → Rt → Result (Progress × Rt)
unfolding unnote_wait lock_round relocked wait_result
cond_timed_wait_continue me cv mu p rt = do
  let why = wait_result me rt.sched
  r ← lock_round me mu forever (elim why [ timedout ↦ unnote_wait me cv p rt | signaled ↦ rt ])
  relocked me (pos (reason_code why)) r

-- `pthreadCondSignal` behind `syncSignal`: one waiter less, and with roles on one less on the line
-- on which `cv` blocks. The result is that line, and its count.
unfoldable pub note_signal : (cv : ℕ) → Rt → Option ℕ × ℤ × Rt
note_signal cv rt =
    let rt1 = (if lt_ℤ (pos 0) (rt.cond_map cv) then count_cv cv (negsuc 0) rt else rt) in
    if not rt1.sched.opts.wakeamap_plus then (none, pos 0, rt1) else elim (rt1.blocked_line cv) [
      | none ↦ (none, pos 0, rt1)
      | some p ↦
          let k = rt1.role_at p in
          let left = role_count k rt1.blocked_count -ℤ pos 1 in
          (
            some p,
            left,
            (if lt_ℤ left (pos 1)
                then record rt1 {
                  blocked_count = drop_role k rt1.blocked_count;
                  blocked_line = update rt1.blocked_line cv none;
                }
                else record rt1 { blocked_count = put_role k left rt1.blocked_count }),
          )
    ]

-- The line on which `satisfyingCV` blocks, NULL being 0.
abbrev pub old_line : ℕ → Rt → Option ℕ
old_line me rt = rt.blocked_line (elim (rt.locals me).satisfying_cv [ none ↦ 0 | some c ↦ c ])

-- With the policy for waiters on, the thread holds on to the turn while more threads wait on `cv`;
-- with roles on it serves the line of `cv`, unless it serves another one with as many waiters. To
-- read a missing count enters it as 0.
unfoldable pub hold_on : (me cv : ℕ) → Option ℕ → (left : ℤ) → Rt → Rt
unfolding set_local
hold_on me cv line left rt =
    let l = rt.locals me in
    if not rt.opts.wait_policy
    then rt
    else if not rt.sched.opts.wakeamap_plus
    then (if lt_ℤ (pos 0) (rt.cond_map cv)
        then set_local me (record l { satisfying_cv = some cv }) rt
        else rt)
    else elim line [
      | none ↦ rt
      | some p ↦
          let k = rt.role_at p in
          let serve = set_local me (record l { satisfying_role = some p }) rt in
          if present (find_role k rt.blocked_count) && lt_ℤ (pos 0) (role_count k rt.blocked_count)
          then elim l.satisfying_role [
            | none ↦ serve
            | some r ↦ if r == p then serve else elim (old_line me rt) [
              | none ↦ serve
              | some o ↦
                  let j = rt.role_at o in
                  let read = put_role j (role_count j rt.blocked_count) rt.blocked_count in
                  record (if lt_ℤ (role_count j rt.blocked_count) left then serve else rt) {
                    blocked_count = read;
                  }
            ]
          ]
          else rt
    ]

unfoldable pub cond_signal : (me cv : ℕ) → Rt → Result (Progress × Rt)
unfolding begin sync_signal note_signal hold_on
cond_signal me cv rt = if bypassed me rt then ok (outside, rt) else do
  rt1 ← begin me rt
  rt2 ← sync_signal me cv false rt1
  let (line, left, rt3) = note_signal cv rt2
  finish false me (pos 0) (hold_on me cv line left rt3)

-- What a broadcast on `cv` by `me` leaves of the bookkeeping.
unfoldable pub forget_cv : (me cv : ℕ) → Rt → Rt
unfolding set_local
forget_cv me cv rt =
    let rt1 =
      (if rt.sched.opts.wakeamap_plus
        then record rt { blocked_line = update rt.blocked_line cv none }
        else rt) in
    let l = rt1.locals me in
    let rt2 =
      (if (elim l.satisfying_cv [ none ↦ false | some c ↦ cv == c ])
        then set_local me (record l { satisfying_cv = none }) rt1
        else rt1) in
    record rt2 { cond_map = update rt2.cond_map cv (pos 0) }

unfoldable pub cond_broadcast : (me cv : ℕ) → Rt → Result (Progress × Rt)
unfolding begin sync_signal forget_cv
cond_broadcast me cv rt = if bypassed me rt then ok (outside, rt) else do
  rt1 ← begin me rt
  rt2 ← sync_signal me cv true rt1
  finish false me (pos 0) (forget_cv me cv rt2)
