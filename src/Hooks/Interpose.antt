-- ===== src/Hooks/Interpose.antt =====
-- The functions of dync_hook that stand in for those of the C library: func_template.cpp,
-- void_func_template.cpp, always_check_func_template.cpp and var_arg_template.cpp, and the functions
-- for annotations in annotation_hooks.cpp.
use min_smt.Prelude.{ℕ, Bool, true, not, ◌&&◌, ◌||◌, ◌==◌, if◌then◌else◌, Result, ok, ◌>>=◌}
use min_smt.Prelude.Int.{ℤ, pos, scale}
use min_smt.Runtime.State.{Timespec}
use min_smt.Hooks.Space.{Caller, is_app, enter_sys, exit_sys}
use min_smt.Hooks.Entry.{Call, run_entry, dummy_sync_entry}
use min_smt.Hooks.Plans.{Entry, of_mark, plan}
use min_smt.Hooks.Plans

-- A function as the program calls it: it returns a number and changes the state of the process.
abbrev pub Function {ℓ} : Type ℓ → Type ℓ
Function A = Caller → A → Result (ℤ × Caller × A)

pub record HookOptions : Type 0 where
  pub dmt : Bool
  pub non_det_for_single_thread : Bool
  pub dync_geteip : Bool

-- The reading of the return address, in the runtime's space.
unfoldable pub take_eip : (ndebug : Bool) → HookOptions → Caller → Result Caller
unfolding enter_sys exit_sys
take_eip nd o c = if o.dync_geteip then (do c1 ← enter_sys nd c; exit_sys nd c1) else ok c

-- Does the program's call go to the runtime? `always` holds for `pthread_create` and
-- `pthread_barrier_init`, and `alone` is `no_child_threads_created`.
abbrev pub to_runtime : (always : Bool) → HookOptions → (alone : Bool) → Bool
to_runtime always o alone = o.dmt && (always || not (o.non_det_for_single_thread && alone))

-- The function that stands in for `orig_func`, where `entry` is the entry point for it.
unfoldable pub interposed {ℓ} :
    {A : Type ℓ}
    → (ndebug always : Bool) → HookOptions
    → (alone : Bool) → (entry orig_func : Function A) → Function A
unfolding take_eip enter_sys exit_sys
interposed nd always o alone entry orig_func c a =
    if not (is_app c)
    then orig_func c a
    else if to_runtime always o alone
    then (do c1 ← take_eip nd o c; entry c1 a)
    else (do
      c1 ← take_eip nd o c
      c2 ← enter_sys nd c1
      (ret, c3, a1) ← orig_func c2 a
      c4 ← exit_sys nd c3
      ok (ret, c4, a1))

-- The options that the functions for annotations read.
pub record MarkOptions : Type 0 where
  pub dmt : Bool
  pub enforce_annotations : Bool
  pub disable_soba : Bool
  pub enforce_non_det_annotations : Bool
  pub enforce_no_wait_non_det_annotations : Bool
  pub enforce_next_n_annotations : Bool
  pub enforce_ext_turn : Bool
  pub enforce_dummy_sync : Bool
  pub enforce_delays : Bool
  pub log_task_time : ℕ

-- The functions of annotation_hooks.cpp.
pub data Annotation : Type 0 where
  soba_init soba_destroy lineup_begins lineup_ends soba_wait pcs_enter pcs_exit : Annotation
  no_wait_pcs_enter no_wait_pcs_exit slock_next_n task_begins task_ends task_unmarked : Annotation
  gets_turn puts_turn dummy role base_timespec base_timeval detaches pcs_barrier_exit : Annotation
  iter : Annotation

-- The condition of each, for a thread that is in the program's space if `in_app`.
unfoldable pub is_enforced : MarkOptions → (in_app : Bool) → Annotation → Bool
is_enforced o in_app soba_init = in_app && o.dmt && o.enforce_annotations && not o.disable_soba
is_enforced o in_app soba_destroy = in_app && o.dmt && o.enforce_annotations && not o.disable_soba
is_enforced o in_app lineup_begins = in_app && o.dmt && o.enforce_annotations && not o.disable_soba
is_enforced o in_app lineup_ends = in_app && o.dmt && o.enforce_annotations && not o.disable_soba
is_enforced o in_app soba_wait = in_app && o.dmt && o.enforce_annotations && not o.disable_soba
is_enforced o in_app pcs_enter =
    in_app && o.dmt && o.enforce_annotations && o.enforce_non_det_annotations
is_enforced o in_app pcs_exit =
    in_app && o.dmt && o.enforce_annotations && o.enforce_non_det_annotations
is_enforced o in_app no_wait_pcs_enter =
    in_app && o.dmt && o.enforce_annotations && o.enforce_no_wait_non_det_annotations
is_enforced o in_app no_wait_pcs_exit =
    in_app && o.dmt && o.enforce_annotations && o.enforce_no_wait_non_det_annotations
is_enforced o in_app slock_next_n =
    in_app && o.dmt && o.enforce_annotations && o.enforce_next_n_annotations
is_enforced o in_app task_begins = o.enforce_delays || not (o.log_task_time == 0)
is_enforced o in_app task_ends = o.enforce_delays || not (o.log_task_time == 0)
is_enforced o in_app task_unmarked = o.enforce_delays || not (o.log_task_time == 0)
is_enforced o in_app gets_turn = in_app && o.dmt && o.enforce_annotations && o.enforce_ext_turn
is_enforced o in_app puts_turn = in_app && o.dmt && o.enforce_annotations && o.enforce_ext_turn
is_enforced o in_app dummy = in_app && o.dmt && o.enforce_annotations && o.enforce_dummy_sync
is_enforced o in_app role = in_app && o.dmt && o.enforce_annotations
is_enforced o in_app base_timespec = in_app && o.dmt && o.enforce_annotations
is_enforced o in_app base_timeval = in_app && o.dmt && o.enforce_annotations
is_enforced o in_app detaches = in_app && o.dmt && o.enforce_annotations
is_enforced o in_app pcs_barrier_exit =
    in_app && o.dmt && o.enforce_annotations && o.enforce_non_det_annotations
is_enforced o in_app iter = true

-- The time that `tern_set_base_timeval` passes on, from the fields `tv_sec` and `tv_usec`.
abbrev pub timespec_of : (tv_sec tv_usec : ℤ) → Timespec
timespec_of sec usec = record { tv_sec = sec; tv_nsec = scale 1000 usec }

abbrev run_mark {ℓ} :
    {A : Type ℓ} → (ndebug : Bool) → (methods : Entry → Call A) → Plans.MarkCall → Function A
run_mark nd methods m c a = run_entry nd (plan (of_mark m)) (methods (of_mark m)) c a

-- What a function for an annotation calls, where `methods` are those of the runtime.
unfoldable pub enforced {ℓ} :
    {A : Type ℓ}
    → (ndebug : Bool) → MarkOptions
    → (methods : Entry → Call A) → Annotation
    → Function A
unfolding run_entry Plans.mark_plan dummy_sync_entry
enforced nd o methods soba_init c a = run_mark nd methods Plans.lineup_init c a
enforced nd o methods soba_destroy c a = run_mark nd methods Plans.lineup_destroy c a
enforced nd o methods lineup_begins c a = run_mark nd methods Plans.lineup_start c a
enforced nd o methods lineup_ends c a = run_mark nd methods Plans.lineup_end c a
enforced nd o methods soba_wait c a = do
  (ret, c1, a1) ← run_mark nd methods Plans.lineup_start c a
  run_mark nd methods Plans.lineup_end c1 a1
enforced nd o methods pcs_enter c a = run_mark nd methods Plans.non_det_start c a
enforced nd o methods pcs_exit c a = run_mark nd methods Plans.non_det_end c a
enforced nd o methods no_wait_pcs_enter c a = run_mark nd methods Plans.no_wait_non_det_start c a
enforced nd o methods no_wait_pcs_exit c a = run_mark nd methods Plans.no_wait_non_det_end c a
enforced nd o methods slock_next_n c a = run_mark nd methods Plans.set_slock_next_n c a
enforced nd o methods task_begins c a = run_mark nd methods Plans.mark_task_start c a
enforced nd o methods task_ends c a = run_mark nd methods Plans.mark_task_end c a
enforced nd o methods task_unmarked c a = run_mark nd methods Plans.unmark_task c a
enforced nd o methods gets_turn c a = run_mark nd methods Plans.ext_get_turn c a
enforced nd o methods puts_turn c a = run_mark nd methods Plans.ext_put_turn c a
enforced nd o methods dummy c a =
    dummy_sync_entry nd o.enforce_dummy_sync (methods (of_mark Plans.dummy_sync)) c a
enforced nd o methods role c a = run_mark nd methods Plans.propose_thread_role c a
enforced nd o methods base_timespec c a = run_mark nd methods Plans.set_base_time c a
enforced nd o methods base_timeval c a = run_mark nd methods Plans.set_base_time c a
enforced nd o methods detaches c a = run_mark nd methods Plans.detach c a
enforced nd o methods pcs_barrier_exit c a = run_mark nd methods Plans.non_det_barrier_end c a
enforced nd o methods iter c a = run_mark nd methods Plans.set_iter c a

-- A function for an annotation.
unfoldable pub annotate {ℓ} :
    {A : Type ℓ}
    → (ndebug : Bool) → MarkOptions
    → (methods : Entry → Call A) → Annotation
    → Function A
unfolding enforced is_enforced
annotate nd o methods m c a =
    if is_enforced o (is_app c) m then enforced nd o methods m c a else ok (pos 0, c, a)
