-- ===== src/Sched/Serial/Calls.antt =====
-- The calls of threads that come and of threads outside hand out no token.
use min_smt.Prelude.{ℕ, ◌≡◌, refl, true, false, not, bad_pointer, update}
use min_smt.Prelude.Ensures
use min_smt.Prelude.Ensures.{Ensures, ensured, failed}
use min_smt.TidMap
use min_smt.TidMap.{Pthread, Routine, cleared, main_thread_tid}
use min_smt.RunQueue.{inter_pro_stop}
use min_smt.Sched.Defs.{Sched, is_null}
use min_smt.Sched.Queues.{push_hp, set_status, assert_front}
use min_smt.Sched.Next.{is_runnable, is_running_reg, is_stop}
use min_smt.Sched.Turn.{inter_pro_start, inter_pro_end}
use min_smt.Sched.Setup.{create, create_elem}
use min_smt.Sched.Serial.Quiet
use min_smt.Sched.Serial.Quiet.{IsQuiet, is_relay, tokens, pending, same_slots, then-IsQuiet}

-- Neither of the calls around a blocking operation gives a token.
pub inter_pro_start-IsQuiet :
    (t : ℕ) (s : Sched) → Ensures (λ (b, s'). IsQuiet s s') (inter_pro_start t s)
unfolding inter_pro_start
inter_pro_start-IsQuiet t s =
    Ensures.branch (not (s.known t)) (λ e. failed {e = bad_pointer})
      (λ e.
        Ensures.branch (is_runnable (s.status t))
          (λ o. ensured {a = (false, set_status t inter_pro_stop s)} (same_slots s _ refl refl))
          (λ o.
            Ensures.after_assert s.opts.ndebug (is_running_reg (s.status t))
              (ensured (same_slots s _ refl refl))))

pub inter_pro_end-IsQuiet :
    (t : ℕ) (s : Sched) → Ensures (λ (b, s'). IsQuiet s s') (inter_pro_end t s)
unfolding inter_pro_end
inter_pro_end-IsQuiet t s =
    Ensures.branch (not (s.known t)) (λ e. failed {e = bad_pointer})
      (λ e.
        Ensures.after_assert s.opts.ndebug (is_stop (s.status t))
          (ensured (same_slots s _ refl refl)))

push_hp-IsQuiet : (t : ℕ) (s : Sched) → Ensures (IsQuiet s) (push_hp t s)
unfolding push_hp
push_hp-IsQuiet t s =
    Ensures.branch (s.hp_known t) (λ k. ensured (same_slots s _ refl refl)) (λ k. failed)

pub create-IsQuiet :
    (me : ℕ) (th : Pthread) (f : Routine) (s : Sched)
    → is_null s.opts.turn_type ≡ false
    → Ensures (λ (t, s'). IsQuiet s s') (create me th f s)
unfolding create
create-IsQuiet me th f s nn = Ensures.bind (Ensures.always (assert_front me s)) λ u _.
    Ensures.bind (Ensures.always (TidMap.create s.opts.ndebug s.opts.wakeamap_plus th f s.tids))
      λ (t, m) _.
        let s1 = create_elem t (record s { tids = m }) in
        rw nn (
          Ensures.bind
            (Ensures.branch s.opts.hp_policy
              (λ e.
                Ensures.mono
                  (push_hp-IsQuiet t (record s1 { hp_known = update s1.hp_known t true }))
                  λ s2 q. record { opts = q.opts; fewer = q.fewer })
              (λ e.
                Ensures.mono (Quiet.push_runq-IsQuiet t s1)
                  λ s2 q. record { opts = q.opts; fewer = q.fewer }))
            λ s2 q. ensured q)
