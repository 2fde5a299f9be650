-- ===== src/Sched/Orderly/Waking.antt =====
-- Threads that come back from outside, and the counting of a turn: `check_wakeup` and `incTurnCount`.
use min_smt.Prelude.{
  ℕ, ◌+◌, ◌%◌, ◌<◌, ◌≡◌, refl, true, false, List, [], ◌∷◌, arith, has, bad_pointer,
}
use min_smt.Prelude.Ensures
use min_smt.Prelude.Ensures.{Ensures, ensured, failed}
use min_smt.Sched.Defs.{Sched, uint_mod}
use min_smt.Sched.Queues.{push_runq, in_runq}
use min_smt.Sched.Wakeups.{wake_all, check_wakeup, inc_turn_count}
use min_smt.Sched.Conserve.{times, times-append}
use min_smt.Sched.Orderly.Order.{IsOrderly, placed}
use min_smt.Sched.Orderly.Moving.{fire_timeouts-IsOrderly}

pub times_of_has : (a : ℕ) (xs : List ℕ) → has a xs ≡ false → times a xs ≡ 0
times_of_has a [] h = refl
times_of_has a (x ∷ xs) h = ground (arith, times_of_has a xs, h)

pub has_of_times : (a : ℕ) (xs : List ℕ) → times a xs ≡ 0 → has a xs ≡ false
has_of_times a [] h = refl
has_of_times a (x ∷ xs) h = ground (arith, has_of_times a xs, h)

-- A known thread that stands nowhere joins the run queue.
pub push_runq-IsOrderly :
    (t : ℕ) (s : Sched)
    → IsOrderly s
    → placed t s ≡ 0
    → t < s.tids.nthread
    → Ensures (λ s'. IsOrderly s' × (s'.wakeup_tids ≡ s.wakeup_tids)) (push_runq t s)
unfolding push_runq
push_runq-IsOrderly t s v out id =
    Ensures.branch (s.known t)
      (λ k. ensured (
        record {
          opts = v.opts;
          once = λ a. ground (arith, v.once a, times-append a s.runq.items (t ∷ []), out);
          calm = v.calm;
          waits = v.waits;
          ids = λ a e. ground (arith, v.ids a, times-append a s.runq.items (t ∷ []), id, e);
          woken = v.woken;
          low = v.low;
          flagged = v.flagged;
        },
        refl,
      ))
      (λ k. failed)

in_runq-has : (t : ℕ) (s : Sched) → Ensures (λ b. b ≡ has t s.runq.items) (in_runq t s)
unfolding in_runq
in_runq-has t s = Ensures.branch (s.known t) (λ k. ensured refl) (λ k. failed {e = bad_pointer})

wake_all-IsOrderly :
    (ts : List ℕ) (s : Sched)
    → IsOrderly s
    → ((a : ℕ) → has a ts ≡ true → has a s.wakeup_tids ≡ true)
    → Ensures IsOrderly (wake_all ts s)
unfolding wake_all
wake_all-IsOrderly [] s v sub = ensured v
wake_all-IsOrderly (t ∷ ts) s v sub = rw v.opts.relayed (
    Ensures.bind (in_runq-has t s) λ inside h.
      Ensures.bind
        (Ensures.branch {P = λ s'. IsOrderly s' × (s'.wakeup_tids ≡ s.wakeup_tids)} inside
          (λ e. ensured (v, refl))
          (λ e.
            let free = v.woken t (sub t (ground arith)) in
            Ensures.bind
              (push_runq-IsOrderly t s v
                (omega (arith, times_of_has t s.runq.items (ground (arith, h, e)), free.0)) free.1)
              λ s1 q.
                Ensures.branch s1.opts.enforce_non_det_clock_bound
                  (λ b. absurd (ground (arith, q.0.opts.no_bound, b))) (λ b. ensured q)))
        λ s1 q. wake_all-IsOrderly ts s1 q.0 (λ a e. ground (arith, sub a, q.1, e)))

pub check_wakeup-IsOrderly :
    (s : Sched)
    → IsOrderly s
    → Ensures (λ s'. IsOrderly s' × (s'.wakeup_tids ≡ [])) (check_wakeup s)
unfolding check_wakeup
check_wakeup-IsOrderly s v =
    Ensures.branch s.wakeup_flag
      (λ e. Ensures.bind (wake_all-IsOrderly s.wakeup_tids s v (λ a h. h)) λ s1 w. ensured (
        record {
          opts = w.opts;
          once = w.once;
          calm = w.calm;
          waits = w.waits;
          ids = w.ids;
          woken = λ a h. cc;
          low = w.low;
          flagged = λ e. refl;
        },
        refl,
      ))
      (λ e. ensured (v, v.flagged e))

pub inc_turn_count-IsOrderly :
    (s : Sched)
    → IsOrderly s
    → Ensures (λ (n, s'). IsOrderly s' × (s'.wakeup_tids ≡ [])) (inc_turn_count s)
unfolding inc_turn_count
inc_turn_count-IsOrderly s v =
    let s0 : Sched = record s { turn_count = (s.turn_count + 1) % uint_mod } in
    let v0 : IsOrderly s0 = record {
      opts = v.opts;
      once = v.once;
      calm = v.calm;
      waits = v.waits;
      ids = v.ids;
      woken = v.woken;
      low = v.low;
      flagged = v.flagged;
    } in
    Ensures.bind (fire_timeouts-IsOrderly s0 v0)
      λ (n, s1) w. Ensures.bind (check_wakeup-IsOrderly s1 w) λ s2 x. ensured x
