-- ===== src/Sched/Orderly/Passing.antt =====
-- Giving up the turn keeps the queues in order: `putTurn`, `wait`, `block`, `idleThreadCondWait`.
use min_smt.Prelude.{
  ℕ, ◌≡◌, ◌≢◌, ◌⊎◌, refl, Bool, true, false, not, none, some, List, [], ◌∷◌, ◌++◌, ◌==◌, arith, ok,
  err, bad_pointer, ap, ◌∙◌, has, update, Option, assert, ◌>>◌, Bool-cases, inl, inr,
}
use min_smt.Prelude.Ensures
use min_smt.Prelude.Ensures.{Ensures, ensured, failed}
use min_smt.RunQueue.{runnable}
use min_smt.TidMap
use min_smt.TidMap.{Pthread, idle_thread_tid}
use min_smt.Sched.Defs.{Sched, Slot, Strategy, default_strategy, is_null, forever}
use min_smt.Sched.Queues.{set_status, set_slot, assert_front}
use min_smt.Sched.Next.{is_runnable}
use min_smt.Sched.Turn.{
  put_turn, check_non_det_bound, wait, block, try_rest, try_put_turn, idle_thread_cond_wait,
}
use min_smt.Sched.Conserve.{times, times-append}
use min_smt.Sched.Orderly.Order.{IsOrderly, Thins, Thins-IsOrderly, same-Thins}
use min_smt.Sched.Orderly.Moving.{signal-IsOrderly}
use min_smt.Sched.Orderly.Waking.{inc_turn_count-IsOrderly}
use min_smt.Sched.Orderly.Heads.{tail, left, left-IsOrderly, alike-Thins, note_non_det-Thins}
use min_smt.Sched.Orderly.Choosing.{next-IsOrderly}
use min_smt.Sched.Orderly.Yielding.{assert_front-head, requeue-IsOrderly}

check_non_det_bound-IsOrderly :
    (s : Sched) → IsOrderly s → Ensures IsOrderly (check_non_det_bound s)
unfolding check_non_det_bound
check_non_det_bound-IsOrderly s v =
    Ensures.branch (not s.opts.enforce_non_det_clock_bound) (λ e. ensured v)
      (λ e. absurd (ground (arith, v.opts.no_bound, e)))

zombify-nthread :
    (nd : Bool) (me : ℕ) (th : Pthread) (m : TidMap.TidMap)
    → Ensures (λ m'. m'.nthread ≡ m.nthread) (TidMap.zombify nd me th m)
unfolding TidMap.zombify
zombify-nthread nd me th m = Ensures.after_assert nd _ (go (m.t_p_map me))
  where
    go :
        (p : Option Pthread)
        → Ensures
            (λ m'. m'.nthread ≡ m.nthread)
            (elim p [
              | none ↦ err bad_pointer
              | some p ↦
                  assert nd (th == p)
                  >> ok (record m {
                    zombies = update m.zombies p true;
                    p_t_map = update m.p_t_map p none;
                    t_p_map = update m.t_p_map me none;
                  })
            ])
    go none = failed
    go (some p) = Ensures.after_assert nd (th == p) (ensured refl)

-- A change of the thread map that keeps the number of threads.
pub with_tids-IsOrderly :
    (s : Sched) (m : TidMap.TidMap)
    → IsOrderly s
    → m.nthread ≡ s.tids.nthread
    → IsOrderly (record s { tids = m })
with_tids-IsOrderly s m v e =
    Thins-IsOrderly s (record s { tids = m }) v
      (record {
        opts = refl;
        fewer = λ a. omega arith;
        waitq = refl;
        slots = λ a. (refl, refl, refl);
        nthread = e;
        wakeups = refl;
        flag = refl;
      })

pub put_turn-IsOrderly :
    (me : ℕ) (th : Pthread) (at_end : Bool) (st : Strategy) (s : Sched)
    → IsOrderly s
    → Ensures (λ (t, s'). IsOrderly s') (put_turn me th at_end st s)
unfolding put_turn set_status
put_turn-IsOrderly me th at_end st s v = Ensures.after_assert s.opts.ndebug _ (
    Ensures.bind (assert_front-head me s v.opts.asserts) λ u e.
      Ensures.bind
        (Ensures.branch {P = λ (popped, s3). IsOrderly s3} at_end
          (λ b. Ensures.bind (signal-IsOrderly me th false s v) λ s1 w.
            Ensures.bind (zombify-nthread s1.opts.ndebug me th s1.tids)
              λ m k. ensured (with_tids-IsOrderly s1 m w k))
          (λ b.
            Ensures.branch (is_null s.opts.turn_type)
              (λ n. absurd (ground (arith, v.opts.relayed, n)))
              (λ n. Ensures.after_assert s.opts.ndebug _ (
                Ensures.bind
                  (Ensures.branch {P = IsOrderly} (s.known me)
                    (λ k.
                      let s0 = set_status me runnable s in
                      requeue-IsOrderly me st s0
                        (Thins-IsOrderly s s0 v
                          (alike-Thins s s0 refl refl refl refl refl refl refl))
                        e)
                    (λ k. failed {e = bad_pointer}))
                  λ s2 w. ensured w))))
        λ (popped, s3) w. Ensures.bind (check_non_det_bound-IsOrderly s3 w) λ s4 x.
          next-IsOrderly me at_end popped st s4 x.opts.relayed (λ e. x) (λ e. left-IsOrderly s4 x))

-- The head of the run queue goes to the end of the wait queue.
waiting-IsOrderly :
    (me : ℕ) (w : Slot) (s : Sched)
    → IsOrderly s
    → s.runq.items ≡ me ∷ tail s.runq.items
    → (w.chan ≢ 0) ⊎ (w.timeout ≢ forever)
    → w.from_hp ≡ false
    → has me s.wakeup_tids ≡ false
    → IsOrderly (left (record s { slots = update s.slots me w; waitq = s.waitq ++ me ∷ [] }))
waiting-IsOrderly me w s v e some_wait low quiet =
    let split = λ (a : ℕ). times-append a s.waitq (me ∷ []) in
    let heads = λ (a : ℕ). ap (times a) e in
    let rest = left-IsOrderly s v in
    record {
      opts = v.opts;
      once = λ a. ground (arith, split a, heads a, v.once a);
      calm = λ a h. ground (arith, split a, h, v.calm a);
      waits = λ a h. ground (arith, split a, heads a, v.once a, h, v.waits a, some_wait);
      ids = λ a h. ground (arith, split a, heads a, v.ids a, h);
      woken = λ a h. ground (arith, split a, v.woken a, h, quiet);
      low = λ a. ground (arith, v.low a, low);
      flagged = v.flagged;
    }

-- A wait for a channel or until a turn.
pub wait-IsOrderly :
    (me chan nturn : ℕ) (s : Sched)
    → (chan ≢ 0) ⊎ (nturn ≢ forever)
    → IsOrderly s
    → Ensures (λ (t, s'). IsOrderly s') (wait me chan nturn s)
unfolding wait set_slot
wait-IsOrderly me chan nturn s some_wait v =
    Ensures.bind (inc_turn_count-IsOrderly s v) λ (n, s1) w. Ensures.after_assert s1.opts.ndebug _ (
      Ensures.bind (assert_front-head me s1 w.0.opts.asserts) λ u e. rw w.0.opts.relayed (
        next-IsOrderly me false false default_strategy _ w.0.opts.relayed (λ p. cc)
          (λ p.
            waiting-IsOrderly me (record (s1.slots me) { chan = chan; timeout = nturn }) s1 w.0 e
              some_wait (w.0.low me) (ap (has me) w.1))))

pub block-IsOrderly :
    (me : ℕ) (s : Sched) → IsOrderly s → Ensures (λ (n, t, s'). IsOrderly s') (block me s)
unfolding block
block-IsOrderly me s v = Ensures.bind (note_non_det-Thins me s) λ s1 p.
    let v1 = Thins-IsOrderly s s1 v p in
    Ensures.after_assert s1.opts.ndebug _ (
      Ensures.bind (assert_front-head me s1 v1.opts.asserts) λ u e.
        Ensures.bind (inc_turn_count-IsOrderly s1 v1) λ (n, s2) w.
          Ensures.bind
            (next-IsOrderly me false false default_strategy s2 w.0.opts.relayed (λ p. cc)
              (λ p. left-IsOrderly s2 w.0))
            λ (t, s3) x. ensured x)

try_rest-Thins : (ts : List ℕ) (s : Sched) → Thins s (try_rest ts s).1
unfolding try_rest set_status
try_rest-Thins [] s = same-Thins s
try_rest-Thins (t ∷ ts) s = elim (Bool-cases (is_runnable (s.status t))) [
  | inl e ↦ rw e (alike-Thins s _ refl refl refl refl refl refl refl)
  | inr e ↦ rw e (try_rest-Thins ts s)
]

try_put_turn-Thins : (me : ℕ) (s : Sched) → Ensures (λ (b, s'). Thins s s') (try_put_turn me s)
unfolding try_put_turn
try_put_turn-Thins me s = Ensures.after_assert s.opts.ndebug _ (
    Ensures.bind (Ensures.always (assert_front me s))
      λ u _. Ensures.on_list s.runq.items failed λ t ts. ensured (try_rest-Thins ts s))

-- The idle thread waits, unless a wake-up of it is pending.
pub idle_thread_cond_wait-IsOrderly :
    (me : ℕ) (th : Pthread) (idle_cond : ℕ) (s : Sched)
    → idle_cond ≢ 0
    → has me s.wakeup_tids ≡ false
    → IsOrderly s
    → Ensures (λ (t, s'). IsOrderly s') (idle_thread_cond_wait me th idle_cond s)
unfolding idle_thread_cond_wait set_slot
idle_thread_cond_wait-IsOrderly me th idle_cond s there quiet v =
    Ensures.bind (try_put_turn-Thins me s) λ (done, s1) p.
      let v1 = Thins-IsOrderly s s1 v p in
      Ensures.branch done
        (λ b. Ensures.after_assert s1.opts.ndebug _ (
          let w = record (s1.slots me) { chan = idle_cond; timeout = forever } in
          let s3 : Sched = record s1 {
            slots = update s1.slots me w;
            waitq = s1.waitq ++ me ∷ [];
          } in
          Ensures.bind (assert_front-head me s3 v1.opts.asserts) λ u e.
            next-IsOrderly me false false default_strategy s3 v1.opts.relayed (λ q. cc)
              (λ q.
                waiting-IsOrderly me w s1 v1 e (inl there) (v1.low me)
                  (ap (has me) p.wakeups ∙ quiet))))
        (λ b. put_turn-IsOrderly me th false default_strategy s1 v1)
