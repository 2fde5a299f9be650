-- ===== src/Hooks/Process.antt =====
-- The start and the end of a process and of its threads, and the round of the idle thread, of
-- lib/runtime/helper.cpp. The options are read and the runtime is installed by `install`.
use min_smt.Prelude.{
  ℕ, Bool, true, false, not, ◌&&◌, ◌||◌, ◌==◌, if◌then◌else◌, Result, ok, err, exited, assert,
  ◌>>=◌, ◌>>◌,
}
use min_smt.TidMap.{main_thread_tid}
use min_smt.Hooks.Space.{Caller, is_app, is_sys, enter_sys, exit_sys}
use min_smt.Hooks.Entry.{Call, run_entry, thread_begin, thread_end, prog_step}
use min_smt.Hooks.Plans.{Entry, of_mutex, of_cond, of_process, plan}
use min_smt.Hooks.Plans
use min_smt.Hooks.Interpose.{Function}

-- The process as its calling thread sees it.
pub record Process {ℓ} (A : Type ℓ) : Type ℓ where
  pub caller : Caller
  pub prog_began : Bool
  pub idle_created : Bool
  pub idle_done : Bool
  pub shared : A

-- The methods of the runtime that have no entry of their own.
pub record Life {ℓ} (A : Type ℓ) : Type ℓ where
  pub prog_begin : Call A
  pub prog_end : Call A
  pub thread_begin : Call A
  pub thread_end : Call A

-- `options::launch_idle_thread` and `options::non_det_for_single_thread`.
pub record IdleOptions : Type 0 where
  pub launch_idle_thread : ℕ
  pub non_det_for_single_thread : Bool

-- An entry point, called by the process itself.
unfoldable pub enter {ℓ} :
    {A : Type ℓ} → (ndebug : Bool) → (Entry → Call A) → Entry → Process A → Result (Process A)
unfolding run_entry Plans.mutex_plan Plans.cond_plan Plans.process_plan
enter nd methods e p = do
  (ret, c, a) ← run_entry nd (plan e) (methods e) p.caller p.shared
  ok (record p { caller = c; shared = a })

abbrev pub put {ℓ} : {A : Type ℓ} → Process A → Caller × A → Process A
put p (c, a) = record p { caller = c; shared = a }

-- `__tern_create_idle_thread`.
unfoldable pub create_idle_thread {ℓ} :
    {A : Type ℓ} → (ndebug : Bool) → (Entry → Call A) → Process A → Result (Process A)
unfolding enter
create_idle_thread nd methods p = do
  p1 ← enter nd methods (of_mutex Plans.pthread_mutex_init) (record p { idle_created = true })
  enter nd methods (of_mutex Plans.pthread_create) p1

abbrev pub wants_idle : IdleOptions → Bool
wants_idle o =
    o.launch_idle_thread == 1
    || (not (o.launch_idle_thread == 0) && not o.non_det_for_single_thread)

-- `__tern_prog_begin`.
unfoldable pub begin_process {ℓ} :
    {A : Type ℓ}
    → (ndebug : Bool) → IdleOptions
    → (install : A → A) → Life A
    → (Entry → Call A)
    → Process A
    → Result (Process A)
begin_process nd o install life methods p = do
  assert nd (not p.prog_began)
  assert nd (is_sys p.caller)
  let p1 = record p { prog_began = true; shared = install p.shared }
  begun ← prog_step nd life.prog_begin p1.caller p1.shared
  let p2 = put p1 begun
  assert nd (is_sys p2.caller)
  started ← thread_begin nd life.thread_begin p2.caller p2.shared
  let p3 = put p2 started
  assert nd (is_app p3.caller)
  p4 ← (if wants_idle o then create_idle_thread nd methods p3 else ok p3)
  assert nd (is_app p4.caller)
  ok p4

-- The part of `__tern_prog_end` that tells the idle thread to stop; `wake_idle` are the plain calls
-- that lock its mutex, signal and unlock.
unfoldable pub stop_idle {ℓ} :
    {A : Type ℓ}
    → (ndebug : Bool) → (wake_idle : A → A) → (Entry → Call A)
    → Process A
    → Result (Process A)
stop_idle nd wake_idle methods p = do
  p1 ← enter nd methods (of_mutex Plans.pthread_mutex_lock) p
  p2 ← enter nd methods (of_mutex Plans.pthread_mutex_unlock) (record p1 { idle_done = true })
  p3 ← enter nd methods (of_cond Plans.pthread_cond_signal) p2
  c4 ← enter_sys nd p3.caller
  let p4 = record p3 { caller = c4; shared = wake_idle p3.shared }
  c5 ← exit_sys nd p4.caller
  ok (record p4 { caller = c5 })

-- `__tern_prog_end`.
unfoldable pub end_process {ℓ} :
    {A : Type ℓ}
    → (ndebug : Bool) → IdleOptions
    → (wake_idle : A → A) → Life A
    → (Entry → Call A)
    → Process A
    → Result (Process A)
end_process nd o wake_idle life methods p = do
  assert nd p.prog_began
  let p1 = record p { prog_began = false }
  assert nd (is_app p1.caller)
  p2 ← enter nd methods (of_process Plans.print_runtime_stat) p1
  p3 ← stop_idle nd wake_idle methods p2
  p4 ←
      (if not (o.launch_idle_thread == 0) && p3.idle_created
        then enter nd methods (of_mutex Plans.pthread_join) p3
        else ok p3)
  ended ← thread_end nd life.thread_end p4.caller p4.shared
  let p5 = put p4 ended
  assert nd (is_sys p5.caller)
  left ← prog_step nd life.prog_end p5.caller p5.shared
  let p6 = put p5 left
  assert nd (is_sys p6.caller)
  ok p6

-- `tern_pthread_exit`, before the thread is gone: the main thread ends the process.
unfoldable pub exit_thread {ℓ} :
    {A : Type ℓ} → (ndebug : Bool) → (me : ℕ) → Life A → Caller → A → Result (Caller × A)
unfolding thread_end
exit_thread nd me life c a =
    if me == main_thread_tid
    then err exited
    else do (c1, a1) ← thread_end nd life.thread_end c a; assert nd (is_sys c1); ok (c1, a1)

-- `__tern_thread_func`: the thread `me` with its start routine.
unfoldable pub run_thread {ℓ} :
    {A : Type ℓ}
    → (ndebug : Bool) → (me : ℕ) → Life A
    → (user_thread_func : Function A) → Caller
    → A
    → Result (Caller × A)
unfolding thread_begin exit_thread
run_thread nd me life user_thread_func c a = do
  (c1, a1) ← thread_begin nd life.thread_begin c a
  (ret, c2, a2) ← user_thread_func c1 a1
  exit_thread nd me life c2 a2

-- One round of `idle_thread`, with whether the loop goes on.
unfoldable pub idle_round {ℓ} :
    {A : Type ℓ} → (ndebug : Bool) → (Entry → Call A) → Process A → Result (Bool × Process A)
unfolding enter
idle_round nd methods p = do
  p1 ← enter nd methods (of_mutex Plans.pthread_mutex_lock) p
  if not p1.idle_done
      then (do
        p2 ← enter nd methods (of_process Plans.idle_cond_wait) p1
        p3 ← enter nd methods (of_mutex Plans.pthread_mutex_unlock) p2
        p4 ← enter nd methods (of_process Plans.idle_sleep) p3
        ok (true, p4))
      else (do p2 ← enter nd methods (of_mutex Plans.pthread_mutex_unlock) p1; ok (false, p2))
