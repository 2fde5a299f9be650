-- ===== src/Sched/RoundRobin.antt =====
-- Which thread gets the turn next, with the round robin policy alone: `nextRunnable`, `next` and
-- `putTurn`.
use min_smt.Prelude.{
  ℕ, zero, suc, ◌<◌, ◌≡◌, refl, Bool, true, false, ◌||◌, some, List, [], ◌∷◌, ◌++◌, ap, ◌∙◌, arith,
  ltb, ◌==◌, if◌then◌else◌, length, All, ok, update, assert, length-append,
}
use min_smt.RunQueue.{runnable, running_reg, dec}
use min_smt.Sched.Defs.{Sched, Strategy, default_strategy, is_null, post}
use min_smt.Sched.Next.{
  again, chosen, next_runnable, one_round, next, is_stop, is_runnable, is_current_role, rounds,
}
use min_smt.Sched.Queues.{post_to}
use min_smt.Sched.Turn.{put_turn}

-- Round robin alone: relayed turns, no high priority queue, no bounds and no regions.
pub record IsPlain (s : Sched) : Type 0 where
  pub relayed : is_null s.opts.turn_type ≡ false
  pub no_hp : s.opts.hp_policy ≡ false
  pub no_bound : s.opts.enforce_non_det_clock_bound ≡ false
  pub no_regions : s.opts.enforce_non_det_annotations ≡ false

-- The state `s'` in which `t` has been chosen at the head of a queue whose blocked heads are gone.
pub record Chosen (s : Sched) (t : ℕ) (ts : List ℕ) (s' : Sched) : Type 0 where
  pub queue : s'.runq.items ≡ t ∷ ts
  pub status_of : s'.status t ≡ (if is_runnable (s.status t) then running_reg else s.status t)
  pub statuses : (a : ℕ) → (a == t) ≡ false → s'.status a ≡ s.status a
  pub slots : s'.slots ≡ s.slots
  pub waitq : s'.waitq ≡ s.waitq
  pub tids : s'.tids ≡ s.tids
  pub opts : s'.opts ≡ s.opts

-- The state after the head `b` is popped and `r` is left.
abbrev popped : ℕ → List ℕ → Sched → Sched
popped b r s = record s {
  runq = record {
    items = r;
    num_yield = if s.last_yield b then dec s.runq.num_yield else s.runq.num_yield;
  };
  last_yield = update s.last_yield b false;
}

abbrev taken : ℕ → Sched → Sched
taken t s =
    if is_runnable (s.status t) then record s { status = update s.status t running_reg } else s

module _ (me : ℕ) (at_end : Bool) (st : Strategy) (not_role : is_current_role st ≡ false) where
  round-blocked :
      (s : Sched) (b : ℕ) (r : List ℕ)
      → IsPlain s
      → s.runq.items ≡ b ∷ r
      → is_stop (s.status b) ≡ true
      → one_round me at_end st s ≡ ok (again st, popped b r s)
  unfolding one_round
  round-blocked s b r p q e = ground arith

  round-taken :
      (s : Sched) (t : ℕ) (r : List ℕ)
      → IsPlain s
      → s.runq.items ≡ t ∷ r
      → is_stop (s.status t) ≡ false
      → one_round me at_end st s ≡ ok (chosen t, taken t s)
  unfolding one_round
  round-taken s t r p q e = ground arith

  -- With round robin alone, a strategy that asks for no role, and fuel beyond the number of blocked
  -- heads `bs`, `nextRunnable` returns: it drops those heads and chooses the first thread `t` that
  -- is not blocked, which then heads the queue and runs, if it could; other statuses, the slots, the
  -- wait queue, the thread map and the options stay as they were.
  pub next_runnable-Chosen :
      (fuel : ℕ) (s : Sched) (bs : List ℕ) (t : ℕ) (ts : List ℕ)
      → IsPlain s
      → s.runq.items ≡ bs ++ t ∷ ts
      → All (λ b. is_stop (s.status b) ≡ true) bs
      → is_stop (s.status t) ≡ false
      → length bs < fuel
      → (s' : Sched) × (next_runnable fuel me at_end st s ≡ ok (some t, s')) × Chosen s t ts s'
  unfolding next_runnable
  next_runnable-Chosen zero s bs t ts p q b e f = absurd (omega arith)
  next_runnable-Chosen (suc fuel) s [] t ts p q b e f =
      (taken t s, rw (round-taken s t ts p q e), ground arith)
  next_runnable-Chosen (suc fuel) s (x ∷ bs) t ts p q b e f =
      let (s', r, c) =
        next_runnable-Chosen fuel (popped x (bs ++ t ∷ ts) s) bs t ts (ground arith) refl b.1 e
          (omega arith) in
      (
        s',
        rw (round-blocked s x (bs ++ t ∷ ts) p q b.0) r,
        record {
          queue = c.queue;
          status_of = c.status_of;
          statuses = c.statuses;
          slots = c.slots;
          waitq = c.waitq;
          tids = c.tids;
          opts = c.opts;
        },
      )

  -- Within the rounds that `next` allows, and with nothing to wake, the chosen thread gets the turn.
  pub next-Chosen :
      (s : Sched) (bs : List ℕ) (t : ℕ) (ts : List ℕ)
      → IsPlain s
      → s.wakeup_flag ≡ false
      → s.runq.items ≡ bs ++ t ∷ ts
      → All (λ b. is_stop (s.status b) ≡ true) bs
      → is_stop (s.status t) ≡ false
      → t < s.tids.nthread
      → (s' : Sched) × (next me at_end true st s ≡ ok (some t, post_to t s')) × Chosen s t ts s'
  unfolding next
  next-Chosen s bs t ts p w q b e lt =
      let (s', r, c) = next_runnable-Chosen (rounds s) s bs t ts p q b e (enough q) in
      (s', ground (arith, r, c.tids), c)
    where
      enough : s.runq.items ≡ bs ++ t ∷ ts → length bs < rounds s
      enough h = omega (arith, ap (λ (l : List ℕ). length l) h, length-append bs (t ∷ ts))

-- The calling thread `me` holds the turn: it runs at the head of the queue, in front of `rest`.
pub record HasTurn (s : Sched) (me : ℕ) (rest : List ℕ) : Type 0 where
  pub plain : IsPlain s
  pub at_front : s.runq.items ≡ me ∷ rest
  pub running : s.status me ≡ running_reg
  pub element : s.known me ≡ true
  pub not_hp : (s.slots me).from_hp ≡ false
  pub id : me < s.tids.nthread
  pub no_wakeups : s.wakeup_flag ≡ false

-- The state after `me` has gone from the head to the end.
abbrev requeued : ℕ → List ℕ → Sched → Sched
requeued me rest s = record s {
  status = update s.status me runnable;
  runq = record {
    items = rest ++ me ∷ [];
    num_yield = if s.last_yield me then dec s.runq.num_yield else s.runq.num_yield;
  };
  last_yield = update s.last_yield me false;
}

put_turn-requeued :
    (me th : ℕ) (rest : List ℕ) (s : Sched)
    → HasTurn s me rest
    → put_turn me th false default_strategy s
      ≡ next me false true default_strategy (requeued me rest s)
unfolding put_turn
put_turn-requeued me th rest s h =
    let ours : assert s.opts.ndebug (ltb me s.tids.nthread) ≡ ok tt = ground (arith, h.id) in
    ground
      (arith, h.at_front, h.running, h.element, h.not_hp, h.plain.relayed, h.plain.no_bound, ours)

pub stops_stay :
    (me : ℕ) (s : Sched) (bs : List ℕ)
    → s.status me ≡ running_reg
    → All (λ b. is_stop (s.status b) ≡ true) bs
    → All (λ b. is_stop (update s.status me runnable b) ≡ true) bs
stops_stay me s [] r a = tt
stops_stay me s (b ∷ bs) r a = (ground (arith, a.0), stops_stay me s bs r a.1)

-- With round robin alone and no wake-ups pending, the running head `me` gives up the turn and
-- `putTurn` returns: `me` goes to the end of the queue, the blocked threads `bs` in front are
-- dropped, and the first other one, `t`, gets the turn. It heads the queue, runs if it could, and
-- its slot, and no other, is posted; the wait queue stays.
pub put_turn-rotates :
    (me th : ℕ) (rest bs : List ℕ) (t : ℕ) (ts : List ℕ) (s : Sched)
    → HasTurn s me rest
    → rest ++ me ∷ [] ≡ bs ++ t ∷ ts
    → All (λ b. is_stop (s.status b) ≡ true) bs
    → is_stop (s.status t) ≡ false
    → t < s.tids.nthread
    → (s' : Sched) × (put_turn me th false default_strategy s ≡ ok (some t, s'))
      × (s'.runq.items ≡ t ∷ ts)
      × (s'.status t ≡ (if is_runnable (s.status t) || (t == me) then running_reg else s.status t))
      × (s'.slots ≡ update s.slots t (post s.opts.turn_type (s.slots t)))
      × (s'.waitq ≡ s.waitq)
unfolding post_to
put_turn-rotates me th rest bs t ts s h q b e lt =
    let (s1, r, c) =
      next-Chosen me false default_strategy refl (requeued me rest s) bs t ts
        (record {
          relayed = h.plain.relayed;
          no_hp = h.plain.no_hp;
          no_bound = h.plain.no_bound;
          no_regions = h.plain.no_regions;
        })
        h.no_wakeups q (stops_stay me s bs h.running b) (ground arith) lt in
    (
      post_to t s1,
      put_turn-requeued me th rest s h ∙ r,
      c.queue,
      ground (arith, c.status_of),
      rw (c.slots, c.opts),
      c.waitq,
    )
