-- ===== src/Plain/Errno.antt =====
-- `errno` on its way from the program to the C library and back.
use min_smt.Prelude.{Bool, true, ◌≡◌, refl, ok, ◌∙◌}
use min_smt.Prelude.Int.{ℤ}
use min_smt.Hooks.Space.{sys, app}
use min_smt.Hooks.Entry.{Returned, crosses, run_entry, narrow}
use min_smt.Hooks.Interpose.{Function, HookOptions, interposed, to_runtime}
use min_smt.Hooks.Crossing.{at, enter_sys-app, exit_sys-sys, interposed-runtime}
use min_smt.Plain.{plain_call}

entry-plain {ℓ} :
    {A : Type ℓ} (nd : Bool) (k : Returned) (f : Function A) (e r e' : ℤ) (a a' : A)
    → f (at sys e) a ≡ ok (r, at sys e', a')
    → run_entry nd (crosses k) (plain_call f) (at app e) a ≡ ok (narrow k r, at app e', a')
unfolding run_entry plain_call
entry-plain nd k f e r e' a a' q = rw (enter_sys-app nd e, q, exit_sys-sys nd e') refl

-- A program's call that goes through the function that stands in, the entry point and the plain call
-- of the runtime behaves as the C library's function does, where the runtime runs and the function
-- stays in its space: the function sees the program's errno, the program gets the function's result
-- as the entry point keeps it, the errno that it left, and the state that it left, and is back in its
-- own space.
pub interposed-transparent {ℓ} :
    {A : Type ℓ} (nd always : Bool) (o : HookOptions) (alone : Bool) (k : Returned)
    (f orig_func : Function A) (e r e' : ℤ) (a a' : A)
    → to_runtime always o alone ≡ true
    → f (at sys e) a ≡ ok (r, at sys e', a')
    → interposed nd always o alone (run_entry nd (crosses k) (plain_call f)) orig_func (at app e) a
      ≡ ok (narrow k r, at app e', a')
interposed-transparent nd always o alone k f orig_func e r e' a a' on q =
    interposed-runtime nd always o alone (run_entry nd (crosses k) (plain_call f)) orig_func e a on
    ∙ entry-plain nd k f e r e' a a' q
