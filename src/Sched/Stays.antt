-- ===== src/Sched/Stays.antt =====
-- Giving up the turn under a strategy that keeps the thread at the head: the thread gets it back.
use min_smt.Prelude.{ℕ, ◌≡◌, refl, true, false, some, List, [], ◌∙◌, arith, ltb, ok, update, assert}
use min_smt.RunQueue.{runnable, running_reg}
use min_smt.Sched.Defs.{Sched, Strategy, post}
use min_smt.Sched.Next.{next, is_current_role}
use min_smt.Sched.Queues.{post_to}
use min_smt.Sched.Turn.{put_turn, stays}
use min_smt.Sched.RoundRobin.{HasTurn, next-Chosen}

abbrev set_back : ℕ → Sched → Sched
set_back me s = record s { status = update s.status me runnable }

put_turn-set_back :
    (me th : ℕ) (rest : List ℕ) (st : Strategy) (s : Sched)
    → stays st ≡ true
    → HasTurn s me rest
    → put_turn me th false st s ≡ next me false true st (set_back me s)
unfolding put_turn
put_turn-set_back me th rest st s k h =
    let ours : assert s.opts.ndebug (ltb me s.tids.nthread) ≡ ok tt = ground (arith, h.id) in
    ground (
      arith, h.at_front, h.running, h.element, h.not_hp, h.plain.relayed, h.plain.no_bound, ours, k,
    )

-- With round robin alone and no wake-ups pending, the running head `me` that gives up the turn under
-- a strategy for the current thread or for creating threads gets it back at once: `putTurn` returns,
-- the run queue and the wait queue stay as they were, `me` runs, and its slot, and no other, is
-- posted.
put_turn-stays :
    (me th : ℕ) (rest : List ℕ) (st : Strategy) (s : Sched)
    → stays st ≡ true
    → is_current_role st ≡ false
    → HasTurn s me rest
    → (s' : Sched) × (put_turn me th false st s ≡ ok (some me, s'))
      × (s'.runq.items ≡ s.runq.items)
      × (s'.status me ≡ running_reg)
      × (s'.slots ≡ update s.slots me (post s.opts.turn_type (s.slots me)))
      × (s'.waitq ≡ s.waitq)
unfolding post_to
put_turn-stays me th rest st s k nr h =
    let (s1, r, c) =
      next-Chosen me false st nr (set_back me s) [] me rest
        (record {
          relayed = h.plain.relayed;
          no_hp = h.plain.no_hp;
          no_bound = h.plain.no_bound;
          no_regions = h.plain.no_regions;
        })
        h.no_wakeups h.at_front tt (ground arith) h.id in
    (
      post_to me s1,
      put_turn-set_back me th rest st s k h ∙ r,
      ground (arith, c.queue, h.at_front),
      ground (arith, c.status_of),
      rw (c.slots, c.opts) refl,
      c.waitq,
    )
