-- ===== src/Examples/Hooks.antt =====
-- Calls through the entry points, and the life of a process.
use min_smt.Prelude.{
  ◌≡◌, refl, Bool, true, false, inr, Result, Fault, ok, err, assertion, out_of_fuel, update, ◌>>=◌,
}
use min_smt.Prelude.Int.{ℤ, pos}
use min_smt.Runtime.State.{Rt, Progress, returned, waiting, outside}
use min_smt.Runtime.Thread.{thread_begin, thread_end, pthread_join}
use min_smt.Runtime.Mutex.{mutex_init, mutex_lock, mutex_unlock}
use min_smt.Runtime.Cond.{cond_signal}
use min_smt.Runtime.Turns.{set_base_time}
use min_smt.Runtime.Blocking.{read}
use min_smt.Hooks.Space.{Caller, sys, app}
use min_smt.Hooks.Entry.{Call, run_entry}
use min_smt.Hooks.Plans
use min_smt.Hooks.Plans.{Entry, of_mutex, of_cond, of_mark, of_file, plan}
use min_smt.Hooks.Interpose.{
  Function, HookOptions, MarkOptions, base_timespec, interposed, annotate,
}
use min_smt.Hooks.Process.{Life, IdleOptions, begin_process, end_process}
use min_smt.Hooks.Crossing.{at, inner, interposed-plain, interposed-ReturnsTo}
use min_smt.Hooks.Endings
use min_smt.Hooks.Endings.{Ends, returns}
use min_smt.Hooks.Marks.{annotate-ReturnsTo}
use min_smt.Hooks.Lifetime.{Keeps, Stands, process, process-lifetime}
use min_smt.Examples.Times.{timed_out, after}

-- A method that leaves the state alone, and one that sets the base time of thread 0.
abbrev quiet : Call Rt
quiet error c rt = ok (error, pos 0, c, rt)

abbrev sets_base : Call Rt
sets_base error c rt = ok (error, pos 0, c, set_base_time 0 after rt)

abbrev methods : Entry → Call Rt
methods (of_mark m) = sets_base
methods e = quiet

-- A `read` that fails with EAGAIN in the runtime, and one that gets eight bytes in the C library.
abbrev fails : Call Rt
fails error c rt = ok (pos 11, pos 0, c, rt)

abbrev gets_eight : Function Rt
gets_eight c rt = ok (pos 8, c, rt)

abbrev pub both_on : HookOptions
both_on = record { dmt = true; non_det_for_single_thread = true; dync_geteip = true }

interposed-plain_example :
    interposed false false both_on true
      (run_entry false (plan (of_file read)) fails)
      gets_eight
      (at app (pos 3))
      timed_out
    ≡ ok (pos 8, at app (pos 3), timed_out)
interposed-plain_example =
    interposed-plain false false both_on true (run_entry false (plan (of_file read)) fails)
      gets_eight app (pos 3) (pos 8) (pos 3) timed_out timed_out (inr refl) refl

interposed-ReturnsTo_example :
    (r : ℤ) × (e' : ℤ) × (rt : Rt) × (interposed false false both_on false
        (run_entry false (plan (of_file read)) fails)
        gets_eight
        (at app (pos 3))
        timed_out
      ≡ ok (r, at app e', rt))
unfolding Plans.file_plan
interposed-ReturnsTo_example =
    interposed-ReturnsTo false false both_on false (plan (of_file read)) fails gets_eight app
      (λ error e rt. (pos 11, pos 0, e, rt, refl)) (λ e rt. (pos 8, e, rt, refl)) (pos 3) timed_out

abbrev all_marks : MarkOptions
all_marks = record {
  dmt = true;
  enforce_annotations = true;
  disable_soba = false;
  enforce_non_det_annotations = true;
  enforce_no_wait_non_det_annotations = true;
  enforce_next_n_annotations = true;
  enforce_ext_turn = true;
  enforce_dummy_sync = true;
  enforce_delays = true;
  log_task_time = 0;
}

annotate-ReturnsTo_example :
    (r : ℤ) × (e' : ℤ) × (rt : Rt) × (annotate false all_marks methods base_timespec
        (at app (pos 3))
        timed_out
      ≡ ok (r, at app e', rt))
annotate-ReturnsTo_example =
    annotate-ReturnsTo false all_marks methods base_timespec app
      (λ m s error e rt. (error, pos 0, e, set_base_time 0 after rt, refl)) (pos 3) timed_out

-- An operation of the runtime as a method: to wait with nobody else to run is to fail.
abbrev comes_back : ℤ → Caller → Progress × Rt → Result (ℤ × ℤ × Caller × Rt)
comes_back error c (returned v, rt) = ok (error, v, c, rt)
comes_back error c (waiting, rt) = err out_of_fuel
comes_back error c (outside, rt) = ok (error, pos 0, c, rt)

abbrev lift : (Rt → Result (Progress × Rt)) → Call Rt
lift f error c rt = do r ← f rt; comes_back error c r

abbrev AnyFault : Fault → Type 0
AnyFault f = Unit {0}

lift-Keeps : (s : Bool) (f : Rt → Result (Progress × Rt)) → Keeps AnyFault s (lift f)
lift-Keeps s f error c rt e = go (f rt)
  where
    go :
        (r : Result (Progress × Rt))
        → Ends (λ (_, _, c', _). c'.space ≡ s) AnyFault (r >>= comes_back error c)
    go (ok (returned v, rt')) = returns e
    go (ok (waiting, rt')) = Endings.fails tt
    go (ok (outside, rt')) = returns e
    go (err f) = Endings.fails tt

abbrev life : Life Rt
life = record {
  prog_begin = quiet;
  prog_end = quiet;
  thread_begin = lift (thread_begin 0);
  thread_end = lift (thread_end 0 70);
}

-- The operations that thread 0 calls at the start and at the end, with the mutex 600.
abbrev operation : Entry → Rt → Result (Progress × Rt)
operation (of_mutex Plans.pthread_mutex_init) rt = mutex_init 0 600 rt
operation (of_mutex Plans.pthread_mutex_lock) rt = mutex_lock 0 600 rt
operation (of_mutex Plans.pthread_mutex_unlock) rt =
    mutex_unlock (λ me mu locked. (pos 0, update locked mu false)) 0 600 rt
operation (of_mutex Plans.pthread_join) rt = pthread_join 0 71 rt
operation (of_cond Plans.pthread_cond_signal) rt = cond_signal 0 500 rt
operation e rt = ok (returned (pos 0), rt)

abbrev idles : IdleOptions
idles = record { launch_idle_thread = 1; non_det_for_single_thread = false }

abbrev same : Rt → Rt
same rt = rt

process-lifetime_example :
    Ends (Stands app true true false) AnyFault (
      begin_process false idles same life
        (λ e. lift (operation e))
        (process sys (pos 0) false false false timed_out))
    × Ends (Stands sys false true true) AnyFault (
        end_process false idles same life
          (λ e. lift (operation e))
          (process app (pos 0) true true false timed_out))
    × (begin_process false idles same life
          (λ e. lift (operation e))
          (process app (pos 0) true true false timed_out)
        ≡ err assertion)
process-lifetime_example =
    process-lifetime AnyFault false life (λ e. lift (operation e)) idles same same (pos 0) timed_out
      true false
      (record {
        prog_begin = λ error c rt e. returns e;
        prog_end = λ error c rt e. returns e;
        thread_begin = lift-Keeps sys (thread_begin 0);
        thread_end = lift-Keeps sys (thread_end 0 70);
        entries = λ e. lift-Keeps (inner (plan e)) (operation e);
      })
