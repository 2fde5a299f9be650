-- ===== src/Hooks/Lifetime.antt =====
-- The spaces of a process from its start to its end.
use min_smt.Prelude.{
  Bool, true, false, not, arith, ◌≡◌, refl, ok, err, assertion, if◌then◌else◌, ◌==◌, ◌&&◌, Fault,
}
use min_smt.Prelude.Int.{ℤ}
use min_smt.Hooks.Space.{Caller, sys, app, enter_sys, exit_sys}
use min_smt.Hooks.Entry.{
  Call, Plan, crosses, bare, stays, direct, run_entry, thread_begin, thread_end, prog_step,
}
use min_smt.Hooks.Plans.{
  Entry, MutexCall, CondCall, of_mutex, of_cond, of_process, plan, mutex_plan, cond_plan,
}
use min_smt.Hooks.Plans
use min_smt.Hooks.Process.{
  Process, Life, IdleOptions, enter, create_idle_thread, wants_idle, begin_process, stop_idle,
  end_process,
}
use min_smt.Hooks.Crossing.{inner}
use min_smt.Hooks.Endings
use min_smt.Hooks.Endings.{Ends, returns, fails}

-- A method that returns to the space in which it is called, or fails with a fault in `Q`.
abbrev pub Keeps : {A : Type 0} → (Fault → Type 0) → (space : Bool) → Call A → Type 0
Keeps {A} Q s call =
    (error : ℤ) (c : Caller) (a : A)
    → c.space ≡ s
    → Ends (λ (_, _, c', _). c'.space ≡ s) Q (call error c a)

-- The methods that a process calls by itself.
pub record LifeKeeps {A : Type 0} (Q : Fault → Type 0) (life : Life A) (methods : Entry → Call A)
    : Type 0 where
  pub prog_begin : Keeps Q sys life.prog_begin
  pub prog_end : Keeps Q sys life.prog_end
  pub thread_begin : Keeps Q sys life.thread_begin
  pub thread_end : Keeps Q sys life.thread_end
  pub entries : (e : Entry) → Keeps Q (inner (plan e)) (methods e)

-- The process with a thread in the space `s`.
abbrev pub process : {A : Type 0} → Bool → ℤ → (began created done : Bool) → A → Process A
process s e began created done a = record {
  caller = record { space = s; errno = e };
  prog_began = began;
  idle_created = created;
  idle_done = done;
  shared = a;
}

-- The process has a thread in the space `s`, and its flags are these.
pub record Stands {A : Type 0} (s b k d : Bool) (p : Process A) : Type 0 where
  pub space : p.caller.space ≡ s
  pub began : p.prog_began ≡ b
  pub created : p.idle_created ≡ k
  pub done : p.idle_done ≡ d

enter_sys-Ends :
    (Q : Fault → Type 0) (nd : Bool) (c : Caller)
    → c.space ≡ app
    → Ends (λ c'. c'.space ≡ sys) Q (enter_sys nd c)
unfolding enter_sys
enter_sys-Ends Q nd c e =
    Endings.after_assert nd _ (ground (arith, e)) (returns (ground (arith, e)))

exit_sys-Ends :
    (Q : Fault → Type 0) (nd : Bool) (c : Caller)
    → c.space ≡ sys
    → Ends (λ c'. c'.space ≡ app) Q (exit_sys nd c)
unfolding exit_sys
exit_sys-Ends Q nd c e = Endings.after_assert nd _ (ground (arith, e)) (returns (ground (arith, e)))

module _ {A : Type 0} (Q : Fault → Type 0) (nd : Bool) where
  run_entry-Ends :
      (p : Plan) (call : Call A) (c : Caller) (a : A)
      → Keeps Q (inner p) call
      → c.space ≡ app
      → Ends (λ (_, c', _). c'.space ≡ app) Q (run_entry nd p call c a)
  unfolding run_entry
  run_entry-Ends (crosses k) call c a h e = Endings.bind (enter_sys-Ends Q nd c e) λ c1 s1.
      Endings.bind (h c.errno c1 a s1)
        λ (error, ret, c2, a2) s2. Endings.bind (exit_sys-Ends Q nd c2 s2) λ c3 s3. returns s3
  run_entry-Ends bare call c a h e = Endings.bind (enter_sys-Ends Q nd c e) λ c1 s1.
      Endings.bind (h c.errno c1 a s1)
        λ (error, ret, c2, a2) s2. Endings.bind (exit_sys-Ends Q nd c2 s2) λ c3 s3. returns s3
  run_entry-Ends stays call c a h e =
      Endings.bind (h c.errno c a e) λ (error, ret, c2, a2) s2. returns s2
  run_entry-Ends direct call c a h e =
      Endings.bind (h c.errno c a e) λ (error, ret, c2, a2) s2. returns s2

  prog_step-Ends :
      (call : Call A) (c : Caller) (a : A)
      → Keeps Q sys call
      → c.space ≡ sys
      → Ends (λ (c', _). c'.space ≡ sys) Q (prog_step nd call c a)
  unfolding prog_step
  prog_step-Ends call c a h e = Endings.after_assert nd _ (ground (arith, e)) (
      Endings.bind (h c.errno c a e)
        λ (error, ret, c1, a1) s1. Endings.after_assert nd _ (ground (arith, s1)) (returns s1))

  thread_begin-Ends :
      (call : Call A) (c : Caller) (a : A)
      → Keeps Q sys call
      → c.space ≡ sys
      → Ends (λ (c', _). c'.space ≡ app) Q (thread_begin nd call c a)
  unfolding thread_begin
  thread_begin-Ends call c a h e = Endings.after_assert nd _ (ground (arith, e)) (
      Endings.bind (h c.errno c a e) λ (error, ret, c1, a1) s1.
        Endings.bind (exit_sys-Ends Q nd c1 s1)
          λ c2 s2. Endings.after_assert nd _ (ground (arith, s2)) (returns s2))

  thread_end-Ends :
      (call : Call A) (c : Caller) (a : A)
      → Keeps Q sys call
      → c.space ≡ app
      → Ends (λ (c', _). c'.space ≡ sys) Q (thread_end nd call c a)
  unfolding thread_end
  thread_end-Ends call c a h e = Endings.after_assert nd _ (ground (arith, e)) (
      Endings.bind (enter_sys-Ends Q nd c e) λ c1 s1.
        Endings.bind (h c.errno c1 a s1)
          λ (error, ret, c2, a2) s2. Endings.after_assert nd _ (ground (arith, s2)) (returns s2))

  module _ (life : Life A) (methods : Entry → Call A) (h : LifeKeeps Q life methods) where
    enter-Ends :
        (m : Entry) (b k d : Bool) (p : Process A)
        → Stands app b k d p
        → Ends (Stands app b k d) Q (enter nd methods m p)
    unfolding enter
    enter-Ends m b k d p s =
        Endings.bind (run_entry-Ends (plan m) (methods m) p.caller p.shared (h.entries m) s.space)
          λ (ret, c, a) e.
            returns (record { space = e; began = s.began; created = s.created; done = s.done })

    stop_idle-Ends :
        (wake_idle : A → A) (b k d : Bool) (p : Process A)
        → Stands app b k d p
        → Ends (Stands app b k true) Q (stop_idle nd wake_idle methods p)
    unfolding stop_idle
    stop_idle-Ends wake_idle b k d p s =
        Endings.bind (enter-Ends (of_mutex Plans.pthread_mutex_lock) b k d p s) λ p1 s1.
          Endings.bind
            (enter-Ends (of_mutex Plans.pthread_mutex_unlock) b k true
              (record p1 { idle_done = true })
              (record { space = s1.space; began = s1.began; created = s1.created; done = refl }))
            λ p2 s2.
              Endings.bind (enter-Ends (of_cond Plans.pthread_cond_signal) b k true p2 s2) λ p3 s3.
                Endings.bind (enter_sys-Ends Q nd p3.caller s3.space) λ c4 e4.
                  Endings.bind (exit_sys-Ends Q nd c4 e4) λ c5 e5.
                    returns (record {
                      space = e5;
                      began = s3.began;
                      created = s3.created;
                      done = s3.done;
                    })

    create_idle_thread-Ends :
        (b k d : Bool) (p : Process A)
        → Stands app b k d p
        → Ends (Stands app b true d) Q (create_idle_thread nd methods p)
    unfolding create_idle_thread
    create_idle_thread-Ends b k d p s =
        Endings.bind
          (enter-Ends (of_mutex Plans.pthread_mutex_init) b true d
            (record p { idle_created = true })
            (record { space = s.space; began = s.began; created = refl; done = s.done }))
          λ p1 s1. enter-Ends (of_mutex Plans.pthread_create) b true d p1 s1

    begin_process-Ends :
        (o : IdleOptions) (install : A → A) (d : Bool) (p : Process A)
        → Stands sys false false d p
        → Ends (Stands app true (wants_idle o) d) Q (begin_process nd o install life methods p)
    unfolding begin_process
    begin_process-Ends o install d p s = Endings.after_assert nd _ (ground (arith, s.began)) (
        Endings.after_assert nd _ (ground (arith, s.space)) (
          Endings.bind
            (prog_step-Ends life.prog_begin p.caller (install p.shared) h.prog_begin s.space)
            λ (c1, a1) e1. Endings.after_assert nd _ (ground (arith, e1)) (
              Endings.bind (thread_begin-Ends life.thread_begin c1 a1 h.thread_begin e1)
                λ (c2, a2) e2. Endings.after_assert nd _ (ground (arith, e2)) (
                  Endings.bind
                    (idle (wants_idle o)
                      (record {
                        caller = c2;
                        prog_began = true;
                        idle_created = p.idle_created;
                        idle_done = p.idle_done;
                        shared = a2;
                      })
                      (record { space = e2; began = refl; created = s.created; done = s.done }))
                    λ p4 s4. Endings.after_assert nd _ (ground (arith, s4.space)) (returns s4)))))
      where
        idle :
            (on : Bool) (p3 : Process A)
            → Stands app true false d p3
            → Ends (Stands app true on d) Q (if on then create_idle_thread nd methods p3 else ok p3)
        idle true p3 s3 = create_idle_thread-Ends true false d p3 s3
        idle false p3 s3 = returns s3

    end_process-Ends :
        (o : IdleOptions) (wake_idle : A → A) (k d : Bool) (p : Process A)
        → Stands app true k d p
        → Ends (Stands sys false k true) Q (end_process nd o wake_idle life methods p)
    unfolding end_process
    end_process-Ends o wake_idle k d p s = Endings.after_assert nd _ (ground (arith, s.began)) (
        Endings.after_assert nd _ (ground (arith, s.space)) (
          Endings.bind
            (enter-Ends (of_process Plans.print_runtime_stat) false k d
              (record p { prog_began = false })
              (record { space = s.space; began = refl; created = s.created; done = s.done }))
            λ p2 s2. Endings.bind (stop_idle-Ends wake_idle false k d p2 s2) λ p3 s3.
              Endings.bind
                (Endings.branch (not (o.launch_idle_thread == 0) && p3.idle_created)
                  (λ on. enter-Ends (of_mutex Plans.pthread_join) false k true p3 s3)
                  (λ off. returns s3))
                λ p4 s4.
                  Endings.bind
                    (thread_end-Ends life.thread_end p4.caller p4.shared h.thread_end s4.space)
                    λ (c5, a5) e5. Endings.after_assert nd _ (ground (arith, e5)) (
                      Endings.bind (prog_step-Ends life.prog_end c5 a5 h.prog_end e5) λ (c6, a6) e6.
                        Endings.after_assert nd _ (ground (arith, e6)) (
                          returns (record {
                            space = e6;
                            began = s4.began;
                            created = s4.created;
                            done = s4.done;
                          })))))

pub process-lifetime :
    {A : Type 0} (Q : Fault → Type 0) (nd : Bool) (life : Life A) (methods : Entry → Call A)
    (o : IdleOptions) (install wake_idle : A → A) (e : ℤ) (a : A) (k d : Bool)
    → LifeKeeps Q life methods
    → Ends
        (Stands app true (wants_idle o) false)
        Q
        (begin_process nd o install life methods (process sys e false false false a))
      × Ends
          (Stands sys false k true)
          Q
          (end_process nd o wake_idle life methods (process app e true k d a))
      × (begin_process false o install life methods (process app e true k d a) ≡ err assertion)
unfolding begin_process
process-lifetime Q nd life methods o install wake_idle e a k d h = (
  begin_process-Ends Q nd life methods h o install false _
      (record { space = refl; began = refl; created = refl; done = refl }),
  end_process-Ends Q nd life methods h o wake_idle k d _
      (record { space = refl; began = refl; created = refl; done = refl }),
  refl,
)
