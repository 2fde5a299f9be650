-- ===== src/Runtime/Outside.antt =====
-- A thread that blocks outside: who has the turn meanwhile, and how the thread comes back.
use min_smt.Prelude.{
  ℕ, ◌+◌, ◌%◌, ◌<◌, ◌≡◌, ◌≢◌, refl, true, false, some, List, [], ◌∷◌, ◌++◌, arith, ltb,
  if◌then◌else◌, has, All, Distinct, ok, update, assert, ◌∙◌, ap,
}
use min_smt.RunQueue.{runnable, running_inter_pro, inter_pro_stop, dec}
use min_smt.Sched.{Sched, Slot, is_null, default_strategy, uint_mod}
use min_smt.Sched.{post_to}
use min_smt.Sched.Wakeups.{check_wakeup, inc_turn_count}
use min_smt.Sched.Next.{next, is_stop}
use min_smt.Sched.Turn.{block}
use min_smt.Sched.Timely.{AllKnown, late, on_time, fire_timeouts-frame}
use min_smt.Sched.RoundRobin.{IsPlain, next-Chosen}
use min_smt.Runtime.State.{Rt}
use min_smt.Runtime.Blocking.{block_turn, block_end}

-- The state with the turn counted.
abbrev pub counted : Sched → Sched
counted s = record s { turn_count = (s.turn_count + 1) % uint_mod }

-- The calling thread `me` has the turn, at the head of the queue, and is about to block outside.
pub record IsLeaving (s : Sched) (me : ℕ) (rest : List ℕ) : Type 0 where
  pub plain : IsPlain s
  pub at_front : s.runq.items ≡ me ∷ rest
  pub leaving : s.status me ≡ running_inter_pro
  pub element : s.known me ≡ true
  pub not_hp : (s.slots me).from_hp ≡ false
  pub id : me < s.tids.nthread
  pub no_wakeups : s.wakeup_flag ≡ false
  pub distinct : Distinct s.waitq
  pub all_known : AllKnown s s.waitq
  pub not_waiting : has me (late (counted s)) ≡ false

-- The state after the turn is counted and `me` has left the queue.
abbrev outside : ℕ → List ℕ → (ℕ → Slot) → Sched → Sched
outside me rest slots s = record (counted s) {
  status = update s.status me inter_pro_stop;
  runq = record {
    items = rest ++ late (counted s);
    num_yield = if s.last_yield me then dec s.runq.num_yield else s.runq.num_yield;
  };
  last_yield = update s.last_yield me false;
  slots = slots;
  waitq = on_time (counted s);
}

-- The state after the turn is counted.
abbrev fired : (ℕ → Slot) → Sched → Sched
fired slots s = record (counted s) {
  runq = record (s.runq) { items = s.runq.items ++ late (counted s) };
  slots = slots;
  waitq = on_time (counted s);
}

next-outside :
    (me : ℕ) (rest : List ℕ) (slots : ℕ → Slot) (s : Sched)
    → IsLeaving s me rest
    → (slots me).from_hp ≡ false
    → next me false false default_strategy (fired slots s)
      ≡ next me false true default_strategy (outside me rest slots s)
unfolding next
next-outside me rest slots s h low =
    ground (arith, h.at_front, h.leaving, h.element, h.plain.relayed, low)

inc_turn_count-fired :
    (s : Sched)
    → IsPlain s
    → s.wakeup_flag ≡ false
    → Distinct s.waitq
    → AllKnown s s.waitq
    → (slots : ℕ → Slot) × (inc_turn_count s ≡ ok (s.turn_count, fired slots s))
      × ((a : ℕ) → has a (late (counted s)) ≡ false → slots a ≡ s.slots a)
unfolding inc_turn_count check_wakeup
inc_turn_count-fired s p w d k =
    let (slots, e, same) = fire_timeouts-frame (counted s) p.relayed p.no_hp d k in
    (slots, rw e (rw w refl), same)

block-outside :
    (me : ℕ) (rest : List ℕ) (slots : ℕ → Slot) (s : Sched) (t : ℕ) (s' : Sched)
    → IsLeaving s me rest
    → inc_turn_count s ≡ ok (s.turn_count, fired slots s)
    → next me false false default_strategy (fired slots s) ≡ ok (some t, s')
    → block me s ≡ ok (s.turn_count, some t, s')
unfolding block
block-outside me rest slots s t s' h i n =
    let ours : assert s.opts.ndebug (ltb me s.tids.nthread) ≡ ok tt = ground (arith, h.id) in
    ground (arith, h.at_front, h.plain.no_bound, ours, i, n)

still_stopped :
    (me : ℕ) (s : Sched) (bs : List ℕ)
    → All (λ b. is_stop (s.status b) ≡ true) bs
    → All (λ b. is_stop (update s.status me inter_pro_stop b) ≡ true) bs
still_stopped me s [] a = tt
still_stopped me s (b ∷ bs) a = (ground (arith, a.0), still_stopped me s bs a.1)

-- With round robin alone and no wake-ups pending, the head `me` that is about to block outside and
-- calls `block` with the turn gives it up: the call returns, `me` leaves the queue and is marked as
-- blocked, the threads whose timeout has passed join the queue at its end, the blocked threads `bs`
-- in front are dropped, and the first other one, `t`, gets the turn: it heads the queue, and its
-- slot is posted.
pub block_turn-passes :
    (me : ℕ) (rt : Rt) (rest bs : List ℕ) (t : ℕ) (ts : List ℕ)
    → IsLeaving rt.sched me rest
    → rest ++ late (counted rt.sched) ≡ bs ++ t ∷ ts
    → All (λ b. is_stop (rt.sched.status b) ≡ true) bs
    → is_stop (rt.sched.status t) ≡ false
    → t ≢ me
    → t < rt.sched.tids.nthread
    → (s' : Sched) × (block_turn me rt ≡ ok (record rt { sched = post_to t s' }))
      × (s'.runq.items ≡ t ∷ ts)
      × (s'.status me ≡ inter_pro_stop)
      × (s'.waitq ≡ on_time (counted rt.sched))
unfolding block_turn
block_turn-passes me rt rest bs t ts h q b e other lt =
    let s = rt.sched in
    let (slots, i, same) = inc_turn_count-fired s h.plain h.no_wakeups h.distinct h.all_known in
    let low : (slots me).from_hp ≡ false =
      ap (λ (w : Slot). w.from_hp) (same me h.not_waiting) ∙ h.not_hp in
    let (s1, n, c) =
      next-Chosen me false default_strategy refl (outside me rest slots s) bs t ts
        (record {
          relayed = h.plain.relayed;
          no_hp = h.plain.no_hp;
          no_bound = h.plain.no_bound;
          no_regions = h.plain.no_regions;
        })
        h.no_wakeups q (still_stopped me s bs b) (ground (arith, e, other)) lt in
    (
      s1,
      rw (
          block-outside me rest slots s t (post_to t s1) h i
            (next-outside me rest slots s h low ∙ n)),
      c.queue,
      ground (arith, c.statuses me, other),
      c.waitq,
    )

-- A blocked thread `me` that is in no queue comes back: with relayed turns and no bound on clocks,
-- the end of its call returns, and the next look at the wake-ups, with no other pending, puts it at
-- the end of the run queue, ready to run, and forgets the wake-up; the wait queue and the slots stay.
pub block_end-comes_back :
    (me : ℕ) (rt : Rt)
    → is_null rt.sched.opts.turn_type ≡ false
    → rt.sched.opts.enforce_non_det_clock_bound ≡ false
    → rt.sched.known me ≡ true
    → rt.sched.status me ≡ inter_pro_stop
    → has me rt.sched.runq.items ≡ false
    → rt.sched.wakeup_tids ≡ []
    → (rt' : Rt) × (block_end me rt ≡ ok rt')
      × (s' : Sched) × (check_wakeup rt'.sched ≡ ok s')
      × (s'.runq.items ≡ rt.sched.runq.items ++ me ∷ [])
      × (s'.status me ≡ runnable)
      × (s'.wakeup_flag ≡ false)
      × (s'.waitq ≡ rt.sched.waitq)
      × (s'.slots ≡ rt.sched.slots)
unfolding block_end check_wakeup
block_end-comes_back me rt nn nb known stopped out none_woken =
    let s1 : Sched = record (rt.sched) {
      status = update rt.sched.status me runnable;
      wakeup_tids = me ∷ [];
      wakeup_flag = true;
    } in
    let s2 : Sched = record s1 {
      runq = record (s1.runq) { items = s1.runq.items ++ me ∷ [] };
      wakeup_tids = [];
      wakeup_flag = false;
    } in
    (
      record rt { sched = s1 },
      ground (arith, known, stopped, none_woken),
      s2,
      ground (arith, known, nn, nb, out),
      refl,
      ground arith,
      refl,
      refl,
      refl,
    )
