-- ===== src/Sched/Queues.antt =====
-- The operations of the two run queues on the scheduler's state.
use min_smt.Prelude.{
  ℕ, ◌+◌, Bool, true, false, not, ◌&&◌, ◌||◌, List, [], ◌∷◌, ◌++◌, ltb, ◌==◌, if◌then◌else◌, update,
  Result, ok, err, bad_pointer, assert, has, ◌>>=◌,
}
use min_smt.RunQueue.{Status, inc, dec}
use min_smt.Sched.Defs.{Sched, Slot, post, is_null, reset_slot, WakeReason}

-- A status is written through the element of the thread.
unfoldable pub set_status : ℕ → Status → Sched → Sched
set_status t st s = record s { status = update s.status t st }

unfoldable pub set_slot : ℕ → Slot → Sched → Sched
set_slot t w s = record s { slots = update s.slots t w }

-- `waits[t].post()`.
unfoldable pub post_to : ℕ → Sched → Sched
unfolding set_slot post
post_to t s = set_slot t (post s.opts.turn_type (s.slots t)) s

-- `runq.push_back(t)` and `hp_runq.push_back(t)`.
unfoldable pub push_runq : ℕ → Sched → Result Sched
push_runq t s =
    if s.known t
    then ok (record s { runq = record (s.runq) { items = s.runq.items ++ t ∷ [] } })
    else err bad_pointer

unfoldable pub push_hp : ℕ → Sched → Result Sched
push_hp t s =
    if s.hp_known t
    then ok (record s { hp_runq = record (s.hp_runq) { items = s.hp_runq.items ++ t ∷ [] } })
    else err bad_pointer

-- `runq.pop_front()`: the yield mark of the popped element is cleared and no longer counted.
unfoldable pub pop_runq : Sched → Result Sched
pop_runq s = elim s.runq.items [
  | [] ↦ err bad_pointer
  | t ∷ ts ↦ ok (record s {
    runq = record {
      items = ts;
      num_yield = if s.last_yield t then dec s.runq.num_yield else s.runq.num_yield;
    };
    last_yield = update s.last_yield t false;
  })
]

unfoldable pub pop_hp : Sched → Result Sched
pop_hp s = elim s.hp_runq.items [
  | [] ↦ err bad_pointer
  | t ∷ ts ↦ ok (record s {
    hp_runq = record {
      items = ts;
      num_yield = if s.last_yield t then dec s.hp_runq.num_yield else s.hp_runq.num_yield;
    };
    last_yield = update s.last_yield t false;
  })
]

-- The walk of `insert_yield` behind the element `cur`, with its `count` and `non_yield_found`.
unfoldable pub yield_place :
    (marks : ℕ → Bool) → (yields count : ℕ) → (found : Bool) → (p cur : ℕ) → List ℕ → List ℕ
yield_place marks y count found p cur [] = cur ∷ p ∷ []
yield_place marks y count found p cur (n ∷ r) =
    let rest =
      yield_place marks y (if marks n then count + 1 else count) (if marks n then found else true) p
        n r in
    if ltb count y || not found then cur ∷ rest else cur ∷ p ∷ n ∷ r

-- `runq.insert_yield(t)`.
unfoldable pub insert_yield : ℕ → Sched → Result Sched
unfolding yield_place
insert_yield t s =
    let marks = update s.last_yield t true in
    if not (s.known t) then err bad_pointer else elim s.runq.items [
      | [] ↦ ok (record s { last_yield = marks; runq = record (s.runq) { items = t ∷ [] } })
      | a ∷ r ↦ ok (record s {
        last_yield = marks;
        runq = record {
          items =
              yield_place marks s.runq.num_yield (if marks a then 1 else 0) (not (marks a)) t a r;
          num_yield = inc s.runq.num_yield;
        };
      })
    ]

-- `runq.front()`.
unfoldable pub front : Sched → Result ℕ
front s = elim s.runq.items [ [] ↦ err bad_pointer | t ∷ ts ↦ ok t ]

-- `runq.in(t)`, for a thread that is not in the other queue.
unfoldable pub in_runq : ℕ → Sched → Result Bool
in_runq t s = if s.known t then ok (has t s.runq.items) else err bad_pointer

-- `assert(tid == runq.front())`.
unfoldable pub assert_front : ℕ → Sched → Result (Unit {0})
unfolding front
assert_front me s = if s.opts.ndebug then ok tt else do f ← front s; assert false (me == f)

-- Where a woken thread goes: to the high priority queue, to the run queue, or on by itself.
unfoldable pub make_runnable : ℕ → Sched → Result Sched
unfolding post_to push_hp push_runq
make_runnable t s =
    if is_null s.opts.turn_type
    then ok (post_to t s)
    else if s.opts.hp_policy && not (t == 1)
    then push_hp t s
    else push_runq t s

-- A wait ends: the slot is reset with `st`, and the reason noted.
unfoldable pub wake : (st : ℕ) → WakeReason → ℕ → Sched → Result Sched
unfolding make_runnable set_slot reset_slot
wake st why t s =
    make_runnable t (set_slot t (record (reset_slot st (s.slots t)) { wake_reason = why }) s)
