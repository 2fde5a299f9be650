-- ===== src/Sched/Next.antt =====
-- Choosing the thread that gets the turn: `nextRunnable`, `wakeUpIdleThread` and `next` of
-- lib/runtime/record-scheduler.cpp.
use min_smt.Prelude.{
  ℕ, zero, suc, ◌+◌, Bool, true, false, not, ◌&&◌, ◌||◌, Option, none, some, List, [], ◌∷◌, ltb,
  ◌==◌, if◌then◌else◌, length, is_empty, Result, ok, err, bad_pointer, exited, out_of_fuel, assert,
  ◌>>=◌, ◌>>◌,
}
use min_smt.RunQueue.{Status, runnable, running_reg, running_inter_pro, inter_pro_stop}
use min_smt.TidMap
use min_smt.TidMap.{main_thread_tid, idle_thread_tid}
use min_smt.NonDetSet
use min_smt.Sched.Defs.{
  Sched, Strategy, default_strategy, current_thread, current_role, is_null, reset_slot,
}
use min_smt.Sched.Queues.{set_status, set_slot, post_to, push_runq, pop_runq, pop_hp, front}
use min_smt.Sched.Wakeups.{check_wakeup}
use min_smt.Sched.Signals.{signal}

-- Tests of enumerations.
abbrev pub is_stop : Status → Bool
is_stop inter_pro_stop = true
is_stop _ = false

abbrev pub is_runnable : Status → Bool
is_runnable runnable = true
is_runnable _ = false

abbrev pub is_running_reg : Status → Bool
is_running_reg running_reg = true
is_running_reg _ = false

abbrev pub is_running_inter_pro : Status → Bool
is_running_inter_pro running_inter_pro = true
is_running_inter_pro _ = false

abbrev pub is_current_thread : Strategy → Bool
is_current_thread current_thread = true
is_current_thread _ = false

abbrev pub is_current_role : Strategy → Bool
is_current_role current_role = true
is_current_role _ = false

-- One round of the loop of `nextRunnable`: the thread that gets the turn, no thread at all
-- (`InvalidTid`), or another round with this strategy.
pub data Round : Type 0 where
  chosen : ℕ → Round
  invalid : Round
  again : Strategy → Round

-- A head that is blocked outside is recorded with the current clock, if that is asked for.
unfoldable pub note_non_det : ℕ → Sched → Result Sched
note_non_det t s =
    if s.opts.enforce_non_det_clock_bound
    then (do
      d ← NonDetSet.insert s.opts.ndebug t s.turn_count s.non_det
      ok (record s { non_det = d }))
    else ok s

-- A head that is not blocked: its status moves on, and it is chosen.
unfoldable pub take_turn : ℕ → Sched → Sched
unfolding set_status
take_turn t s = if is_runnable (s.status t) then set_status t running_reg s else s

-- A round at the head of `hp_runq`.
unfoldable pub round_hp : Strategy → Sched → Result (Round × Sched)
unfolding note_non_det take_turn set_slot pop_hp
round_hp st s = elim s.hp_runq.items [
  | [] ↦ err bad_pointer
  | t ∷ ts ↦
      if is_stop (s.status t)
      then (do s1 ← pop_hp s; s2 ← note_non_det t s1; ok (again st, s2))
      else (let s1 = take_turn t s in
          ok (chosen t, set_slot t (record (s1.slots t) { from_hp = true }) s1))
]

-- A round at the head of `runq` that wants a thread of the role of `me`.
unfoldable pub round_role : (me : ℕ) → Sched → Result (Round × Sched)
unfolding note_non_det take_turn pop_runq push_runq
round_role me s = do
  role ← TidMap.get_roleid s.opts.ndebug me s.tids
  t ← front s
  if is_stop (s.status t)
      then (do s1 ← pop_runq s; s2 ← note_non_det t s1; ok (again current_role, s2))
      else do
        its ← TidMap.get_roleid s.opts.ndebug t s.tids
        if role == its
            then ok (chosen t, take_turn t s)
            else do s1 ← pop_runq s; s2 ← push_runq t s1; ok (again current_role, s2)

-- A round at the head of `runq`, whoever it is.
unfoldable pub round_head : Strategy → Sched → Result (Round × Sched)
unfolding note_non_det take_turn pop_runq front
round_head st s = do
  assert s.opts.ndebug (not (is_empty s.runq.items))
  t ← front s
  if is_stop (s.status t)
      then (do s1 ← pop_runq s; s2 ← note_non_det t s1; ok (again st, s2))
      else ok (chosen t, take_turn t s)

-- The loop of `wakeUpIdleThread`: what stays of the wait queue, and the last thread looked at.
unfoldable pub find_idle : List ℕ → Sched → Result (List ℕ × Option ℕ × Sched)
unfolding set_slot post_to push_runq reset_slot
find_idle [] s = ok ([], none, s)
find_idle (t ∷ ts) s = do
  assert s.opts.ndebug (ltb t s.tids.nthread)
  if t == idle_thread_tid
      then (do
        let s1 = set_slot t (reset_slot 0 (s.slots t)) s
        s2 ← (if is_null s.opts.turn_type then ok (post_to t s1) else push_runq t s1)
        ok (ts, some t, s2))
      else (do
        (kept, last, s1) ← find_idle ts s
        ok (t ∷ kept, (elim last [ none ↦ some t | some l ↦ some l ]), s1))

-- `wakeUpIdleThread`, but for the signal on the host's condition variable. With the idle thread
-- done the calling thread exits.
unfoldable pub wake_up_idle_thread : Sched → Result Sched
unfolding find_idle
wake_up_idle_thread s = if s.idle_done then err exited else do
  (kept, last, s1) ← find_idle s.waitq s
  assert s.opts.ndebug (elim last [ none ↦ false | some t ↦ t == idle_thread_tid ])
  assert s.opts.ndebug (not (is_empty s1.runq.items))
  ok (record s1 { waitq = kept })

-- What a round does first where it looks at `runq`: with no thread left it gives up or wakes the
-- idle thread; where only the idle thread is left it wakes those that wait for a region to start.
unfoldable pub round_plain :
    (me : ℕ) → (at_thread_end : Bool) → Strategy → Sched → Result (Round × Sched)
unfolding round_head wake_up_idle_thread
round_plain me at_end st s = elim s.runq.items [
  | [] ↦
      if at_end && (is_empty s.waitq || me == main_thread_tid)
      then ok (invalid, s)
      else if s.opts.launch_idle_thread == 0
      then err exited
      else (do
        assert s.opts.ndebug (not (me == idle_thread_tid))
        s1 ← wake_up_idle_thread s
        round_head default_strategy s1)
  | t ∷ ts ↦
      if s.opts.enforce_non_det_annotations
        && ltb 0 s.n_non_det_wait
        && me == idle_thread_tid
        && is_empty ts
        && t == idle_thread_tid
      then (do s1 ← signal me s.opts.non_det_cv true s; round_head st s1)
      else round_head st s
]

-- Does this round look at `hp_runq`?
unfoldable pub wants_hp : (me : ℕ) → Strategy → Sched → Bool
wants_hp me st s =
    s.opts.hp_policy
    && not (is_empty s.hp_runq.items)
    && (if is_current_thread st then (s.slots me).from_hp else not (s.slots me).from_hp)
    && not (is_current_role st)

unfoldable pub one_round :
    (me : ℕ) → (at_thread_end : Bool) → Strategy → Sched → Result (Round × Sched)
unfolding round_hp round_role round_plain wants_hp
one_round me at_end st s =
    if wants_hp me st s
    then round_hp st s
    else if is_current_role st && not (is_empty s.runq.items)
    then round_role me s
    else round_plain me at_end st s

-- `nextRunnable`, with at most `fuel` rounds; `none` is `InvalidTid`.
unfoldable pub next_runnable :
    (fuel me : ℕ) → (at_thread_end : Bool) → Strategy → Sched → Result (Option ℕ × Sched)
next_runnable zero me at_end st s = err out_of_fuel
next_runnable (suc fuel) me at_end st s = do
  (r, s1) ← one_round me at_end st s
  elim r [
    | chosen t ↦ ok (some t, s1)
    | invalid ↦ ok (none, s1)
    | again st1 ↦ next_runnable fuel me at_end st1 s1
  ]

-- The rounds that `next` allows: each one takes a blocked head away, passes a thread of another role,
-- or ends the loop.
abbrev pub rounds : Sched → ℕ
rounds s = length s.runq.items + length s.runq.items + length s.hp_runq.items + length s.waitq + 2

-- The part of `next` that takes the calling thread off its queue.
unfoldable pub leave_queue : ℕ → Sched → Result Sched
unfolding set_slot pop_runq pop_hp
leave_queue me s =
    if (s.slots me).from_hp
    then (do s1 ← pop_hp s; ok (set_slot me (record (s1.slots me) { from_hp = false }) s1))
    else pop_runq s

-- The part of `next` that sets the status of a thread that has not left the queue yet.
unfoldable pub settle_status : ℕ → Sched → Result Sched
unfolding set_status
settle_status me s =
    if not (s.known me)
    then err bad_pointer
    else if is_running_reg (s.status me)
    then ok (set_status me runnable s)
    else (do
      assert s.opts.ndebug (is_running_inter_pro (s.status me))
      ok (set_status me inter_pro_stop s))

-- `next(at_thread_end, hasPoppedFront, strategy)` by the thread `me`. The thread that got the turn
-- is returned too.
unfoldable pub next :
    (me : ℕ) → (at_thread_end popped : Bool) → Strategy → Sched → Result (Option ℕ × Sched)
unfolding leave_queue settle_status post_to check_wakeup
next me at_end popped st s =
    if is_null s.opts.turn_type
    then (do s1 ← check_wakeup s; ok (none, record s1 { in_sync = false }))
    else do
      s1 ← (if popped then ok s else (do s1 ← settle_status me s; leave_queue me s1))
      s2 ← check_wakeup s1
      (t, s3) ← next_runnable (rounds s2) me at_end st s2
      elim t [
        | none ↦ ok (none, s3)
        | some n ↦ assert s3.opts.ndebug (ltb n s3.tids.nthread) >> ok (some n, post_to n s3)
      ]
