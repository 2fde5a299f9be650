-- ===== src/Sched/Ends.antt =====
-- `putTurn(true)`, the end of a thread: a thread that joins it is woken.
use min_smt.Prelude.{
  ℕ, ◌<◌, ◌≡◌, ◌≢◌, refl, Bool, true, false, none, some, ◌||◌, ◌==◌, List, ◌∷◌, ◌++◌, ap, sym, ◌∙◌,
  subst, arith, ltb, if◌then◌else◌, has, All, Distinct, ok, update, assert,
}
use min_smt.RunQueue.{Status, runnable, running_reg, dec}
use min_smt.TidMap
use min_smt.TidMap.{TidMap, zombify, zombie}
use min_smt.Sched.Defs.{Sched, Strategy, default_strategy, post}
use min_smt.Sched.Queues.{post_to, assert_front}
use min_smt.Sched.Signals.{signal}
use min_smt.Sched.Next.{next, is_stop, is_runnable}
use min_smt.Sched.Turn.{put_turn}
use min_smt.Sched.Timely.{AllKnown}
use min_smt.Sched.Fifo.{taken, left, signaled_slots, signal-Woken}
use min_smt.Sched.RoundRobin.{HasTurn, next-Chosen, stops_stay}
use min_smt.Sched.Broadcast.{HasTurn-Woken}

-- The state after `me` has left the head of the queue for good.
abbrev gone : ℕ → List ℕ → Sched → Sched
gone me rest s = record s {
  status = update s.status me runnable;
  runq = record {
    items = rest;
    num_yield = if s.last_yield me then dec s.runq.num_yield else s.runq.num_yield;
  };
  last_yield = update s.last_yield me false;
}

next-gone :
    (me : ℕ) (at_end : Bool) (st : Strategy) (rest : List ℕ) (s : Sched)
    → HasTurn s me rest
    → next me at_end false st s ≡ next me at_end true st (gone me rest s)
unfolding next
next-gone me at_end st rest s h =
    ground (arith, h.at_front, h.running, h.element, h.not_hp, h.plain.relayed)

-- The thread map without the thread `me`, whose handle is `th`.
abbrev buried : ℕ → ℕ → TidMap → TidMap
buried me th m = record m {
  zombies = update m.zombies th true;
  p_t_map = update m.p_t_map th none;
  t_p_map = update m.t_p_map me none;
}

zombify-buried :
    (nd : Bool) (me th : ℕ) (m : TidMap)
    → m.t_p_map me ≡ some th
    → zombify nd me th m ≡ ok (buried me th m)
unfolding zombify
zombify-buried nd me th m e = ground arith

put_turn-gone :
    (me th : ℕ) (rest : List ℕ) (s s1 : Sched)
    → HasTurn s me rest
    → HasTurn s1 me (rest ++ taken th false s s.waitq)
    → signal me th false s ≡ ok s1
    → s1.tids.t_p_map me ≡ some th
    → put_turn me th true default_strategy s
      ≡ next me true true default_strategy
          (gone me (rest ++ taken th false s s.waitq) (record s1 { tids = buried me th s1.tids }))
unfolding put_turn
put_turn-gone me th rest s s1 h h1 r e =
    let ours : assert s.opts.ndebug (ltb me s.tids.nthread) ≡ ok tt = ground (arith, h.id) in
    let front : assert_front me s ≡ ok tt = unfold assert_front in ground (arith, h.at_front) in
    let s2 : Sched = record s1 { tids = buried me th s1.tids } in
    let h2 : HasTurn s2 me (rest ++ taken th false s s.waitq) = record {
      plain = record {
        relayed = h1.plain.relayed;
        no_hp = h1.plain.no_hp;
        no_bound = h1.plain.no_bound;
        no_regions = h1.plain.no_regions;
      };
      at_front = h1.at_front;
      running = h1.running;
      element = h1.element;
      not_hp = h1.not_hp;
      id = h1.id;
      no_wakeups = h1.no_wakeups;
    } in
    ground (
      arith,
      ours,
      front,
      r,
      zombify-buried s1.opts.ndebug me th s1.tids e,
      next-gone me true default_strategy (rest ++ taken th false s s.waitq) s2 h2,
      h1.plain.no_bound,
    )

-- With round robin alone, no wake-ups pending, and a wait queue of distinct known threads without
-- `me`: when the running head `me`, whose handle is `th`, ends, `putTurn` returns. The first thread
-- that waits on `th`, as a joining thread does, goes to the end of the run queue with its slot
-- reset as by a signal, `me` leaves the queue for good and is a zombie without an id, and the first
-- thread `t` that is not blocked heads the queue, runs if it could, and is posted its turn; no other
-- slot changes, and the other waiters go on waiting.
pub put_turn-ends :
    (me th : ℕ) (rest bs : List ℕ) (t : ℕ) (ts : List ℕ) (s : Sched)
    → HasTurn s me rest
    → th ≢ 0
    → Distinct s.waitq
    → AllKnown s s.waitq
    → has me s.waitq ≡ false
    → s.tids.t_p_map me ≡ some th
    → rest ++ taken th false s s.waitq ≡ bs ++ t ∷ ts
    → All (λ b. is_stop (s.status b) ≡ true) bs
    → is_stop (s.status t) ≡ false
    → t < s.tids.nthread
    → (s' : Sched) × (put_turn me th true default_strategy s ≡ ok (some t, s'))
      × (s'.runq.items ≡ t ∷ ts)
      × (s'.status t ≡ (if is_runnable (s.status t) || (t == me) then running_reg else s.status t))
      × (let slots = signaled_slots (taken th false s s.waitq) s in
          (a : ℕ) → s'.slots a ≡ update slots t (post s.opts.turn_type (slots t)) a)
      × (s'.waitq ≡ left th false s s.waitq)
      × (zombie th s'.tids ≡ true)
      × (TidMap.get_tid th s'.tids ≡ none)
unfolding post_to zombie TidMap.get_tid
put_turn-ends me th rest bs t ts s h ne d k out e q stopped go lt =
    let (s1, r, w) =
      signal-Woken me th rest false s h.plain.relayed h.plain.no_hp ne h.at_front d k in
    let h1 = HasTurn-Woken me th false rest s s1 h out w in
    let status : s1.status ≡ s.status = ap (λ (z : Sched). z.status) w.3 in
    let opts : s1.opts ≡ s.opts = ap (λ (z : Sched). z.opts) w.3 in
    let tids : s1.tids ≡ s.tids = ap (λ (z : Sched). z.tids) w.3 in
    let s2 =
      gone me (rest ++ taken th false s s.waitq) (record s1 { tids = buried me th s1.tids }) in
    let (s3, p, c) =
      next-Chosen me true default_strategy refl s2 bs t ts
        (record {
          relayed = h1.plain.relayed;
          no_hp = h1.plain.no_hp;
          no_bound = h1.plain.no_bound;
          no_regions = h1.plain.no_regions;
        })
        h1.no_wakeups q
        (stops_stay me (record s { status = s1.status }) bs
          (ap (λ (f : ℕ → Status). f me) status ∙ h.running) (rw status stopped))
        (ground (arith, status, go)) (subst (λ (m : TidMap). t < m.nthread) (sym tids) lt) in
    (
      post_to t s3,
      put_turn-gone me th rest s s1 h h1 r (ap (λ (m : TidMap). m.t_p_map me) tids ∙ e) ∙ p,
      c.queue,
      ground (arith, c.status_of, status),
      λ a. ground (arith, c.slots, c.opts, opts, w.2 a, w.2 t),
      c.waitq ∙ w.0,
      ground (arith, c.tids),
      ground (arith, c.tids),
    )
