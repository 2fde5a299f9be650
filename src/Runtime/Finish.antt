-- ===== src/Runtime/Finish.antt =====
-- The end of an operation, `SCHED_TIMER_END` of lib/runtime/record-runtime.cpp: the turn is
-- counted and given up under the strategy that `getPutTurnStrategy` chooses. Logging, statistics
-- and the measuring of time are left out.
use min_smt.Prelude.{
  ℕ, Bool, true, false, not, ◌&&◌, ◌||◌, Option, none, some, List, [], ◌∷◌, ltb, ◌==◌,
  if◌then◌else◌, update, Result, ok, assert, ◌>>=◌, ◌>>◌,
}
use min_smt.Prelude.Int.{ℤ, pos, ◌-ℤ◌, lt_ℤ}
use min_smt.Sched.{
  Sched, Strategy, default_strategy, current_thread, current_role, yield_strategy, create_strategy,
}
use min_smt.TidMap
use min_smt.Sched.Wakeups
use min_smt.Sched.Turn
use min_smt.Sched.Signals
use min_smt.Runtime.State.{Rt, Local, AddrRole, Progress, returned, waiting}

abbrev pub some_of {ℓ} : {A : Type ℓ} → List A → Bool
some_of [] = false
some_of (x ∷ xs) = true

abbrev pub present {ℓ} : {A : Type ℓ} → Option A → Bool
present none = false
present (some a) = true

abbrev pub same_role : AddrRole → AddrRole → Bool
same_role (a, r) (b, q) = (a == b) && (r == q)

-- `blocked_cv_count_map`: lookup, `count(k)`, `m[k] = v`, `erase(k)`.
abbrev pub find_role : AddrRole → List (AddrRole × ℤ) → Option ℤ
find_role k [] = none
find_role k ((j, v) ∷ m) = if same_role k j then some v else find_role k m

abbrev pub role_count : AddrRole → List (AddrRole × ℤ) → ℤ
role_count k m = elim (find_role k m) [ none ↦ pos 0 | some v ↦ v ]

abbrev pub put_role : AddrRole → ℤ → List (AddrRole × ℤ) → List (AddrRole × ℤ)
put_role k v [] = (k, v) ∷ []
put_role k v ((j, w) ∷ m) = if same_role k j then (j, v) ∷ m else (j, w) ∷ put_role k v m

abbrev pub drop_role : AddrRole → List (AddrRole × ℤ) → List (AddrRole × ℤ)
drop_role k [] = []
drop_role k ((j, w) ∷ m) = if same_role k j then m else (j, w) ∷ drop_role k m

unfoldable pub set_local : ℕ → Local → Rt → Rt
set_local me l rt = record rt { locals = update rt.locals me l }

-- `getPutTurnStrategy`; `creates` says that the operation is `pthread_create`. The thread's mark
-- `yield_this` is cleared on the way.
unfoldable pub put_turn_strategy :
    (creates : Bool) → (high_priority_yield plus : Bool) → Local → Strategy × Local
put_turn_strategy creates hy plus l =
    if l.yield_this
    then ((if hy then yield_strategy else default_strategy), record l { yield_this = false })
    else if lt_ℤ (pos 0) l.slock_n_turns && creates
    then (create_strategy, l)
    else if (ltb 0 l.in_cs_level && not l.no_cs_whole_local)
        || lt_ℤ (pos 0) l.slock_n_turns
        || (not plus && (present l.satisfying_cv || present l.satisfying_sem))
    then (current_thread, l)
    else if plus && (present l.satisfying_role || present l.satisfying_sem)
    then (current_role, l)
    else (default_strategy, l)

-- `check_cv_wait_cnt`.
unfoldable pub check_cv : Rt → Local → Local
check_cv rt l =
    if not rt.sched.opts.wakeamap_plus
    then elim l.satisfying_cv [
      | none ↦ l
      | some cv ↦ if lt_ℤ (rt.cond_map cv) (pos 1) then record l { satisfying_cv = none } else l
    ]
    else elim l.satisfying_role [
      | none ↦ l
      | some r ↦
          if present (find_role (rt.role_at r) rt.blocked_count)
          then l
          else record l { satisfying_role = none }
    ]

unfoldable pub check_sem : Rt → Local → Local
check_sem rt l = elim l.satisfying_sem [
  | none ↦ l
  | some s ↦ if lt_ℤ (rt.sem_map s) (pos 1) then record l { satisfying_sem = none } else l
]

unfoldable pub check_cv_wait_cnt : Rt → Local → Local
unfolding check_cv check_sem
check_cv_wait_cnt rt l = check_sem rt (check_cv rt l)

-- `if (slock_n_turns > 0) slock_n_turns--`.
abbrev pub spend_slock : Local → Local
spend_slock l =
    if lt_ℤ (pos 0) l.slock_n_turns
    then record l { slock_n_turns = l.slock_n_turns -ℤ pos 1 }
    else l

-- `inNonDet || inNoWaitNonDet`.
abbrev pub bypassed : ℕ → Rt → Bool
bypassed me rt = (rt.locals me).in_non_det || (rt.locals me).in_no_wait_non_det

-- The loop of `CHECK_AND_CHANGE_ROLE` over the proposed roles, in the order of the map.
unfoldable pub change_roles : List (ℕ × ℕ) → Sched → Result Sched
change_roles [] s = ok s
change_roles ((th, func) ∷ r) s = do
  m ← TidMap.change_role s.opts.ndebug th func s.tids
  change_roles r (record s { tids = m })

-- `SCHED_TIMER_START` by the thread `me`, once `getTurn` has returned.
unfoldable pub begin : (me : ℕ) → Rt → Result Rt
unfolding change_roles set_local
begin me rt = do
  assert rt.sched.opts.ndebug (not (rt.sched.opts.enforce_non_det_annotations && bypassed me rt))
  if (rt.locals me).process_proposed_role && some_of rt.proposed_role
      then (do
        s ← change_roles rt.proposed_role rt.sched
        ok (
            set_local me (record (rt.locals me) { process_proposed_role = false })
              (record rt { sched = s; proposed_role = [] })))
      else ok rt

-- `SCHED_TIMER_FAKE_END`.
unfoldable pub fake_end : Rt → Result Rt
fake_end rt = do (n, s) ← Wakeups.inc_turn_count rt.sched; ok (record rt { sched = s })

-- `SCHED_TIMER_END` by the thread `me`, for an operation that returns `ret`.
unfoldable pub finish : (creates : Bool) → (me : ℕ) → (ret : ℤ) → Rt → Result (Progress × Rt)
unfolding put_turn_strategy check_cv_wait_cnt set_local
finish creates me ret rt = do
  (n, s1) ← Wakeups.inc_turn_count rt.sched
  let (st, l) =
      put_turn_strategy creates rt.opts.high_priority_yield s1.opts.wakeamap_plus (rt.locals me)
  (next, s2) ← Turn.put_turn me 0 false st s1
  let rt2 = record rt { sched = s2 }
  ok (returned ret, set_local me (check_cv_wait_cnt rt2 (spend_slock l)) rt2)

-- `syncWait`: the thread has given up the turn.
unfoldable pub sync_wait : (me chan timeout : ℕ) → Rt → Result (Progress × Rt)
sync_wait me chan timeout rt = do
  (next, s) ← Turn.wait me chan timeout rt.sched
  ok (waiting, record rt { sched = s })

-- `syncSignal`.
unfoldable pub sync_signal : (me chan : ℕ) → (every : Bool) → Rt → Result Rt
sync_signal me chan every rt = do
  s ← Signals.signal me chan every rt.sched
  ok (record rt { sched = s })
