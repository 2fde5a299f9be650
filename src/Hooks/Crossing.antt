-- ===== src/Hooks/Crossing.antt =====
-- Calls come back to the space that they were made in.
use min_smt.Prelude.{Bool, true, false, arith, ◌≡◌, refl, ok, ◌⊎◌, inl, inr, Bool-cases, ◌∙◌}
use min_smt.Prelude.Int.{ℤ, pos}
use min_smt.Hooks.Space.{Caller, sys, app, enter_sys, exit_sys}
use min_smt.Hooks.Entry.{Call, Plan, crosses, bare, stays, direct, run_entry, narrow}
use min_smt.Hooks.Interpose.{Function, HookOptions, interposed, take_eip, to_runtime}

abbrev pub at : Bool → ℤ → Caller
at s e = record { space = s; errno = e }

-- From the space `s` the method returns, and to the same space.
abbrev pub Returns {ℓ} : {A : Type ℓ} → Bool → Call A → Type ℓ
Returns {A} s call =
    (error e : ℤ) (a : A)
    → (error' : ℤ) × (r : ℤ) × (e' : ℤ) × (a' : A) × (call error (at s e) a
        ≡ ok (error', r, at s e', a'))

-- The same of a function as the program calls it.
abbrev pub ReturnsTo {ℓ} : {A : Type ℓ} → Bool → Function A → Type ℓ
ReturnsTo {A} s f =
    (e : ℤ) (a : A) → (r : ℤ) × (e' : ℤ) × (a' : A) × (f (at s e) a ≡ ok (r, at s e', a'))

-- The space in which an entry point calls its method, for a thread of the program.
abbrev pub inner : Plan → Bool
inner (crosses r) = sys
inner bare = sys
inner stays = app
inner direct = app

pub enter_sys-app : (nd : Bool) (e : ℤ) → enter_sys nd (at app e) ≡ ok (at sys e)
unfolding enter_sys
enter_sys-app nd e = ground arith

pub exit_sys-sys : (nd : Bool) (e : ℤ) → exit_sys nd (at sys e) ≡ ok (at app e)
unfolding exit_sys
exit_sys-sys nd e = ground arith

pub run_entry-ReturnsTo {ℓ} :
    {A : Type ℓ} (nd : Bool) (p : Plan) (call : Call A)
    → Returns (inner p) call
    → ReturnsTo app (run_entry nd p call)
unfolding run_entry
run_entry-ReturnsTo nd (crosses k) call h e a =
    let (error, r, e', a', q) = h e e a in
    (narrow k r, error, a', rw (enter_sys-app nd e, q, exit_sys-sys nd e') refl)
run_entry-ReturnsTo nd bare call h e a =
    let (error, r, e', a', q) = h e e a in
    (pos 0, e', a', rw (enter_sys-app nd e, q, exit_sys-sys nd e') refl)
run_entry-ReturnsTo nd stays call h e a =
    let (error, r, e', a', q) = h e e a in (pos 0, error, a', rw q refl)
run_entry-ReturnsTo nd direct call h e a =
    let (error, r, e', a', q) = h e e a in (pos 0, e', a', rw q refl)

take_eip-app : (nd : Bool) (o : HookOptions) (e : ℤ) → take_eip nd o (at app e) ≡ ok (at app e)
unfolding take_eip enter_sys exit_sys
take_eip-app nd o e = ground arith

-- Where the runtime is not asked, the function that stands in for another one does what that one
-- does: for a thread in the runtime's space, and for the program when the runtime is off, or waits
-- for a second thread, what the plain function returns in the runtime's space, the state and `errno`
-- that it leaves, are those of the call, and the thread is back in its own space.
pub interposed-plain {ℓ} :
    {A : Type ℓ} (nd always : Bool) (o : HookOptions) (alone : Bool) (entry orig_func : Function A)
    (s : Bool) (e r e' : ℤ) (a a' : A)
    → (s ≡ sys) ⊎ (to_runtime always o alone ≡ false)
    → orig_func (at sys e) a ≡ ok (r, at sys e', a')
    → interposed nd always o alone entry orig_func (at s e) a ≡ ok (r, at s e', a')
unfolding interposed
interposed-plain nd always o alone entry orig_func false e r e' a a' off q = q
interposed-plain nd always o alone entry orig_func true e r e' a a' (inl wrong) q =
    ground (arith, wrong)
interposed-plain nd always o alone entry orig_func true e r e' a a' (inr off) q =
    rw (off, take_eip-app nd o e, enter_sys-app nd e, q, exit_sys-sys nd e') refl

pub interposed-runtime {ℓ} :
    {A : Type ℓ} (nd always : Bool) (o : HookOptions) (alone : Bool) (entry orig_func : Function A)
    (e : ℤ) (a : A)
    → to_runtime always o alone ≡ true
    → interposed nd always o alone entry orig_func (at app e) a ≡ entry (at app e) a
unfolding interposed
interposed-runtime nd always o alone entry orig_func e a on = rw (on, take_eip-app nd o e) refl

-- If the method of the runtime returns to the space in which the entry point of the shape `p` calls
-- it, and the plain function to the runtime's space, then the function that stands in returns from
-- either space and to the same one: no assertion on spaces fails, whatever the options are.
pub interposed-ReturnsTo {ℓ} :
    {A : Type ℓ} (nd always : Bool) (o : HookOptions) (alone : Bool) (p : Plan) (call : Call A)
    (orig_func : Function A) (s : Bool)
    → Returns (inner p) call
    → ReturnsTo sys orig_func
    → ReturnsTo s (interposed nd always o alone (run_entry nd p call) orig_func)
interposed-ReturnsTo nd always o alone p call orig_func false h k e a =
    let (r, e', a', q) = k e a in
    (r, e', a', interposed-plain nd always o alone _ orig_func sys e r e' a a' (inl refl) q)
interposed-ReturnsTo nd always o alone p call orig_func true h k e a =
    elim (Bool-cases (to_runtime always o alone)) [
      | inl on ↦
          let (r, e', a', q) = run_entry-ReturnsTo nd p call h e a in
          (
            r,
            e',
            a',
            interposed-runtime nd always o alone (run_entry nd p call) orig_func e a on ∙ q,
          )
      | inr off ↦
          let (r, e', a', q) = k e a in
          (r, e', a', interposed-plain nd always o alone _ orig_func app e r e' a a' (inr off) q)
    ]
