-- ===== src/Examples/Queues.antt =====
-- Run queues of two threads, whose elements stand at the addresses 1 and 2.
use min_smt.Prelude.{
  true, not, ◌+◌, ◌-◌, ◌≡◌, refl, false, [], ◌∷◌, arith, ◌==◌, if◌then◌else◌, ok, ◌>>=◌, update,
}
use min_smt.RunQueue.{
  Ptr, Runq, new_elem, null, size_mod, push_back, pop_front, insert_yield, inc, dec,
}
use min_smt.RunQueue.Chain.{Holds}
use min_smt.RunQueue.Basics.{Pushed, push_back-Holds, pop_front-Holds}
use min_smt.RunQueue.Yield.{insert_yield-pop_wraps}
use min_smt.Sched.{yield_place}
use min_smt.Sched.Inserting.{marks, insert_yield-Holds}

abbrev no_threads : Runq
no_threads = record {
  heap = λ p. new_elem (p - 1);
  head = null;
  tail = null;
  num_elements = 0;
  tid_map = λ t. t + 1;
  num_yield_elem = 0;
}

no_threads-Holds : Holds no_threads []
no_threads-Holds = record {
  linked = tt;
  distinct = tt;
  at_head = refl;
  at_tail = refl;
  count = refl;
  fits = ground arith;
  detached = λ p h. (refl, refl);
}

-- Thread 0 in front of thread 1.
abbrev two_threads : Runq
two_threads = record no_threads {
  heap =
      update (update no_threads.heap 1 (record (new_elem 0) { next = 2 })) 2
        (record (new_elem 1) { prev = 1 });
  head = 1;
  tail = 2;
  num_elements = 2;
}

two_threads-Holds : Holds two_threads (1 ∷ 2 ∷ [])
two_threads-Holds = record {
  linked = ground arith;
  distinct = ground arith;
  at_head = refl;
  at_tail = refl;
  count = refl;
  fits = ground arith;
  detached = λ p h. ground arith;
}

push_back-Holds_example :
    (q' : Runq) × (push_back 5 two_threads ≡ ok q') × Pushed 5 two_threads (1 ∷ 2 ∷ []) q'
push_back-Holds_example =
    push_back-Holds 5 two_threads (1 ∷ 2 ∷ []) two_threads-Holds (ground arith) refl refl
      (ground arith)

pop_front-Holds_example :
    (q' : Runq) × (pop_front two_threads ≡ ok q')
    × Holds q' (2 ∷ [])
    × (q'.tid_map ≡ two_threads.tid_map)
    × (q'.num_yield_elem ≡ (
        if (two_threads.heap 1).last_yield
        then dec two_threads.num_yield_elem
        else two_threads.num_yield_elem))
    × ((q'.heap 1).last_yield ≡ false)
    × ((j : Ptr)
        → ((q'.heap j).tid ≡ (two_threads.heap j).tid)
          × ((q'.heap j).status ≡ (two_threads.heap j).status))
    × ((j : Ptr) → (j == 1) ≡ false → (q'.heap j).last_yield ≡ (two_threads.heap j).last_yield)
pop_front-Holds_example = pop_front-Holds two_threads 1 (2 ∷ []) two_threads-Holds

insert_yield-pop_wraps_example :
    (q' : Runq) × ((insert_yield 0 no_threads >>= pop_front) ≡ ok q')
    × (q'.num_yield_elem ≡ size_mod - 1)
insert_yield-pop_wraps_example =
    insert_yield-pop_wraps 0 no_threads no_threads-Holds (ground arith) refl refl

-- Thread 5 yields: one element that has not yielded is found at once, and it goes behind that one.
insert_yield-Holds_example :
    (q' : Runq) × (insert_yield 5 two_threads ≡ ok q')
    × Holds q' (
        yield_place
          (update (marks two_threads.heap) 6 true)
          0
          0
          (not (marks two_threads.heap 1))
          6
          1
          (2 ∷ []))
    × (q'.tid_map ≡ two_threads.tid_map)
    × (q'.num_yield_elem ≡ inc 0)
    × ((j : Ptr) → marks q'.heap j ≡ update (marks two_threads.heap) 6 true j)
    × ((j : Ptr)
        → ((q'.heap j).tid ≡ (two_threads.heap j).tid)
          × ((q'.heap j).status ≡ (two_threads.heap j).status))
insert_yield-Holds_example =
    insert_yield-Holds 5 two_threads 1 (2 ∷ []) two_threads-Holds (ground arith) refl refl
      (ground arith)
