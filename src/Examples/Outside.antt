-- ===== src/Examples/Outside.antt =====
-- Thread 0 blocks outside, and comes back.
use min_smt.Prelude.{◌≡◌, refl, false, [], ◌∷◌, ◌++◌, arith, ◌==◌, if◌then◌else◌, ok}
use min_smt.RunQueue.{runnable, running_inter_pro, inter_pro_stop}
use min_smt.Sched.{Sched, post_to}
use min_smt.Sched.Timely.{on_time}
use min_smt.Sched.Wakeups.{check_wakeup}
use min_smt.Runtime.State.{Rt}
use min_smt.Runtime.Blocking.{block_turn, block_end}
use min_smt.Runtime.Outside.{IsLeaving, counted, block_turn-passes, block_end-comes_back}
use min_smt.Examples.Turns.{three_threads}
use min_smt.Examples.Times.{timed_out}

-- Thread 0 has the turn for `block`, thread 1 is blocked outside, and thread 2 can run.
abbrev leaves : Rt
leaves = record timed_out {
  sched = record three_threads {
    status = λ t. if t == 0 then running_inter_pro else three_threads.status t;
  };
}

leaves-IsLeaving : IsLeaving leaves.sched 0 (1 ∷ 2 ∷ [])
leaves-IsLeaving = record {
  plain = record { relayed = refl; no_hp = refl; no_bound = refl; no_regions = refl };
  at_front = refl;
  leaving = refl;
  element = refl;
  not_hp = refl;
  id = ground arith;
  no_wakeups = refl;
  distinct = ground arith;
  all_known = ground arith;
  not_waiting = refl;
}

block_turn-passes_example :
    (s' : Sched) × (block_turn 0 leaves ≡ ok (record leaves { sched = post_to 2 s' }))
    × (s'.runq.items ≡ 2 ∷ [])
    × (s'.status 0 ≡ inter_pro_stop)
    × (s'.waitq ≡ on_time (counted leaves.sched))
block_turn-passes_example =
    block_turn-passes 0 leaves (1 ∷ 2 ∷ []) (1 ∷ []) 2 [] leaves-IsLeaving refl (refl, tt) refl
      (ground arith) (ground arith)

-- Thread 1 is outside, and thread 0 runs.
abbrev left : Rt
left = record timed_out {
  sched = record three_threads { runq = record { items = 0 ∷ 2 ∷ []; num_yield = 0 } };
}

block_end-comes_back_example :
    (rt' : Rt) × (block_end 1 left ≡ ok rt')
    × (s' : Sched) × (check_wakeup rt'.sched ≡ ok s')
    × (s'.runq.items ≡ left.sched.runq.items ++ 1 ∷ [])
    × (s'.status 1 ≡ runnable)
    × (s'.wakeup_flag ≡ false)
    × (s'.waitq ≡ left.sched.waitq)
    × (s'.slots ≡ left.sched.slots)
block_end-comes_back_example = block_end-comes_back 1 left refl refl refl refl refl refl
