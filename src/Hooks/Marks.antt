-- ===== src/Hooks/Marks.antt =====
-- Annotations come back to the space that they were made in.
use min_smt.Prelude.{Bool, true, false, ◌≡◌, refl, ◌⊎◌, inl, inr, Bool-cases}
use min_smt.Prelude.Int.{pos}
use min_smt.Hooks.Space.{sys, app}
use min_smt.Hooks.Entry.{Call, run_entry, dummy_sync_entry}
use min_smt.Hooks.Plans
use min_smt.Hooks.Plans.{Entry, MarkCall, of_mark, plan}
use min_smt.Hooks.Interpose.{
  MarkOptions, Annotation, soba_init, soba_destroy, lineup_begins, lineup_ends, soba_wait,
  pcs_enter, pcs_exit, no_wait_pcs_enter, no_wait_pcs_exit, slock_next_n, task_begins, task_ends,
  task_unmarked, gets_turn, puts_turn, dummy, role, base_timespec, base_timeval, detaches,
  pcs_barrier_exit, iter, annotate, enforced, is_enforced,
}
use min_smt.Hooks.Crossing.{Returns, ReturnsTo, inner, run_entry-ReturnsTo}

-- The methods that annotations call return to the space that they are called in.
abbrev pub MarksReturn {ℓ} : {A : Type ℓ} → (Entry → Call A) → Type ℓ
MarksReturn methods = (m : MarkCall) (s : Bool) → Returns s (methods (of_mark m))

module _ {ℓ} {A : Type ℓ} (nd : Bool) (o : MarkOptions) (methods : Entry → Call A)
    (h : MarksReturn methods) where
  mark-ReturnsTo :
      (m : MarkCall) → ReturnsTo app (run_entry nd (plan (of_mark m)) (methods (of_mark m)))
  mark-ReturnsTo m =
      run_entry-ReturnsTo nd (plan (of_mark m)) (methods (of_mark m))
        (h m (inner (plan (of_mark m))))

  dummy-ReturnsTo :
      (enforce : Bool)
      → ReturnsTo app (dummy_sync_entry nd enforce (methods (of_mark Plans.dummy_sync)))
  unfolding dummy_sync_entry Plans.mark_plan
  dummy-ReturnsTo false e a = (pos 0, e, a, refl)
  dummy-ReturnsTo true e a = mark-ReturnsTo Plans.dummy_sync e a

  enforced-ReturnsTo : (x : Annotation) → ReturnsTo app (enforced nd o methods x)
  unfolding enforced
  enforced-ReturnsTo soba_init e a = mark-ReturnsTo Plans.lineup_init e a
  enforced-ReturnsTo soba_destroy e a = mark-ReturnsTo Plans.lineup_destroy e a
  enforced-ReturnsTo lineup_begins e a = mark-ReturnsTo Plans.lineup_start e a
  enforced-ReturnsTo lineup_ends e a = mark-ReturnsTo Plans.lineup_end e a
  enforced-ReturnsTo soba_wait e a =
      let (r, e1, a1, q) = mark-ReturnsTo Plans.lineup_start e a in
      let (r', e2, a2, q') = mark-ReturnsTo Plans.lineup_end e1 a1 in (r', e2, a2, rw (q, q') refl)
  enforced-ReturnsTo pcs_enter e a = mark-ReturnsTo Plans.non_det_start e a
  enforced-ReturnsTo pcs_exit e a = mark-ReturnsTo Plans.non_det_end e a
  enforced-ReturnsTo no_wait_pcs_enter e a = mark-ReturnsTo Plans.no_wait_non_det_start e a
  enforced-ReturnsTo no_wait_pcs_exit e a = mark-ReturnsTo Plans.no_wait_non_det_end e a
  enforced-ReturnsTo slock_next_n e a = mark-ReturnsTo Plans.set_slock_next_n e a
  enforced-ReturnsTo task_begins e a = mark-ReturnsTo Plans.mark_task_start e a
  enforced-ReturnsTo task_ends e a = mark-ReturnsTo Plans.mark_task_end e a
  enforced-ReturnsTo task_unmarked e a = mark-ReturnsTo Plans.unmark_task e a
  enforced-ReturnsTo gets_turn e a = mark-ReturnsTo Plans.ext_get_turn e a
  enforced-ReturnsTo puts_turn e a = mark-ReturnsTo Plans.ext_put_turn e a
  enforced-ReturnsTo dummy e a = dummy-ReturnsTo o.enforce_dummy_sync e a
  enforced-ReturnsTo role e a = mark-ReturnsTo Plans.propose_thread_role e a
  enforced-ReturnsTo base_timespec e a = mark-ReturnsTo Plans.set_base_time e a
  enforced-ReturnsTo base_timeval e a = mark-ReturnsTo Plans.set_base_time e a
  enforced-ReturnsTo detaches e a = mark-ReturnsTo Plans.detach e a
  enforced-ReturnsTo pcs_barrier_exit e a = mark-ReturnsTo Plans.non_det_barrier_end e a
  enforced-ReturnsTo iter e a = mark-ReturnsTo Plans.set_iter e a

  -- In the runtime's space a function does nothing, or calls its method there.
  local-ReturnsTo :
      (x : Annotation) → (is_enforced o sys x ≡ false) ⊎ ReturnsTo sys (enforced nd o methods x)
  unfolding is_enforced enforced run_entry Plans.mark_plan
  local-ReturnsTo soba_init = inl refl
  local-ReturnsTo soba_destroy = inl refl
  local-ReturnsTo lineup_begins = inl refl
  local-ReturnsTo lineup_ends = inl refl
  local-ReturnsTo soba_wait = inl refl
  local-ReturnsTo pcs_enter = inl refl
  local-ReturnsTo pcs_exit = inl refl
  local-ReturnsTo no_wait_pcs_enter = inl refl
  local-ReturnsTo no_wait_pcs_exit = inl refl
  local-ReturnsTo slock_next_n = inl refl
  local-ReturnsTo task_begins = inr (λ e a.
      let (m, r, e1, a1, q) = h Plans.mark_task_start sys e e a in (pos 0, m, a1, rw q refl))
  local-ReturnsTo task_ends =
      inr (λ e a.
        let (m, r, e1, a1, q) = h Plans.mark_task_end sys e e a in (pos 0, m, a1, rw q refl))
  local-ReturnsTo task_unmarked =
      inr
        (λ e a. let (m, r, e1, a1, q) = h Plans.unmark_task sys e e a in (pos 0, m, a1, rw q refl))
  local-ReturnsTo gets_turn = inl refl
  local-ReturnsTo puts_turn = inl refl
  local-ReturnsTo dummy = inl refl
  local-ReturnsTo role = inl refl
  local-ReturnsTo base_timespec = inl refl
  local-ReturnsTo base_timeval = inl refl
  local-ReturnsTo detaches = inl refl
  local-ReturnsTo pcs_barrier_exit = inl refl
  local-ReturnsTo iter =
      inr (λ e a. let (m, r, e1, a1, q) = h Plans.set_iter sys e e a in (pos 0, e1, a1, rw q refl))

-- A function for an annotation, from a space in which what it calls returns.
annotate-enforced {ℓ} :
    {A : Type ℓ} (nd : Bool) (o : MarkOptions) (methods : Entry → Call A) (x : Annotation)
    (s : Bool)
    → (is_enforced o s x ≡ false) ⊎ ReturnsTo s (enforced nd o methods x)
    → ReturnsTo s (annotate nd o methods x)
unfolding annotate
annotate-enforced nd o methods x s (inl off) e a = (pos 0, e, a, rw off refl)
annotate-enforced nd o methods x s (inr returns) e a = elim (Bool-cases (is_enforced o s x)) [
  | inl on ↦ let (r, e1, a1, q) = returns e a in (r, e1, a1, rw on q)
  | inr off ↦ (pos 0, e, a, rw off refl)
]

-- If the methods that annotations call return to the space that they are called in, then every
-- function for an annotation returns from either space and to the same one, whatever the options
-- are.
pub annotate-ReturnsTo {ℓ} :
    {A : Type ℓ} (nd : Bool) (o : MarkOptions) (methods : Entry → Call A) (x : Annotation)
    (s : Bool)
    → MarksReturn methods
    → ReturnsTo s (annotate nd o methods x)
annotate-ReturnsTo nd o methods x false h =
    annotate-enforced nd o methods x sys (local-ReturnsTo nd o methods h x)
annotate-ReturnsTo nd o methods x true h =
    annotate-enforced nd o methods x app (inr (enforced-ReturnsTo nd o methods h x))
