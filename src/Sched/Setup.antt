-- ===== src/Sched/Setup.antt =====
-- Threads enter: the constructors of include/tern/runtime/scheduler.h and
-- lib/runtime/record-scheduler.cpp, `Scheduler::create`, and `childForkReturn`.
use min_smt.Prelude.{ℕ, true, false, [], if◌then◌else◌, update, Result, ok, ltb, ◌>>=◌, ◌>>◌}
use min_smt.RunQueue.{runnable, running_reg, max_thread_num}
use min_smt.TidMap
use min_smt.TidMap.{Pthread, Routine, cleared, main_thread_tid}
use min_smt.NonDetSet.{empty_set}
use min_smt.Sched.Defs.{Sched, Options, Slot, signaled, forever, is_null, reset_slot}
use min_smt.Sched.Queues.{set_status, push_runq, push_hp, post_to, assert_front}

-- `runq.create_thd_elem(t)`: a new element.
unfoldable pub create_elem : ℕ → Sched → Sched
create_elem t s = record s {
  known = update s.known t true;
  status = update s.status t runnable;
  last_yield = update s.last_yield t false;
}

-- `Scheduler::create(new_th, thread_func)` by the thread `me`: the new thread's id.
unfoldable pub create : (me : ℕ) → Pthread → Routine → Sched → Result (ℕ × Sched)
unfolding create_elem push_runq push_hp assert_front
create me th func s = do
  assert_front me s
  (t, m) ← TidMap.create s.opts.ndebug s.opts.wakeamap_plus th func s.tids
  let s1 = create_elem t (record s { tids = m })
  s2 ←
      (if is_null s1.opts.turn_type
        then ok s1
        else if s1.opts.hp_policy
        then push_hp t (record s1 { hp_known = update s1.hp_known t true })
        else push_runq t s1)
  ok (t, s2)

-- A wait slot as its constructor leaves it.
abbrev pub new_slot : Slot
new_slot = record {
  sem = 0;
  chan = 0;
  timeout = forever;
  ret = 0;
  waken_up = false;
  wake_reason = signaled;
  from_hp = false;
  is_runnable = true;
}

-- The members before any thread is known.
abbrev pub blank : Options → Sched
blank o = record {
  opts = o;
  tids = cleared;
  turn_count = 0;
  runq = record { items = []; num_yield = 0 };
  hp_runq = record { items = []; num_yield = 0 };
  known = λ _. false;
  hp_known = λ _. false;
  status = λ _. runnable;
  last_yield = λ _. false;
  waitq = [];
  slots = λ _. new_slot;
  non_det = empty_set;
  wakeup_tids = [];
  wakeup_flag = false;
  in_sync = false;
  idle_done = false;
  n_non_det_wait = 0;
}

-- The constructor, by the main thread with handle `th`: the main thread has the first turn.
unfoldable pub start : Options → Pthread → Result Sched
unfolding create_elem push_runq set_status post_to
start o th = do
  (self, m) ← TidMap.init o.ndebug o.wakeamap_plus th cleared
  let s1 = create_elem main_thread_tid (record (blank o) { tids = m })
  let s2 =
      (if o.hp_policy then record s1 { hp_known = update s1.hp_known main_thread_tid true } else s1)
  s3 ← push_runq main_thread_tid s2
  ok (set_status main_thread_tid running_reg (post_to main_thread_tid s3))

-- `childForkReturn`, in the child process, by the thread with handle `th`. `runq.deep_clear`
-- deletes every element; `hp_runq` is not cleared.
unfoldable pub child_fork_return : Pthread → Sched → Result Sched
unfolding create_elem push_runq set_status
child_fork_return th s = do
  (self, m) ← TidMap.reset s.opts.ndebug s.opts.wakeamap_plus th s.tids
  let s1 = record s {
    tids = m;
    waitq = [];
    known = λ _. false;
    runq = record { items = []; num_yield = 0 };
  }
  let s2 = create_elem main_thread_tid s1
  let s3 =
      (if s2.opts.hp_policy
        then record s2 { hp_known = update s2.hp_known main_thread_tid true }
        else s2)
  s4 ← push_runq main_thread_tid (set_status main_thread_tid running_reg s3)
  ok (record s4 {
    slots = λ t. if ltb t max_thread_num then reset_slot 0 (s4.slots t) else s4.slots t;
  })
