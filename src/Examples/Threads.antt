-- ===== src/Examples/Threads.antt =====
-- A thread that ends while another joins it.
use min_smt.Prelude.{
  ℕ, ◌||◌, ◌==◌, if◌then◌else◌, ◌≡◌, refl, true, false, none, some, [], ◌∷◌, arith, ok, update,
}
use min_smt.TidMap
use min_smt.TidMap.{zombie, cleared}
use min_smt.Sched.{Sched, default_strategy, post}
use min_smt.RunQueue.{running_reg}
use min_smt.Sched.Next.{is_runnable}
use min_smt.Sched.Turn.{put_turn}
use min_smt.Sched.Setup.{new_slot}
use min_smt.Sched.Fifo.{left, taken, signaled_slots}
use min_smt.Sched.RoundRobin.{HasTurn}
use min_smt.Sched.Ends.{put_turn-ends}
use min_smt.Examples.Turns.{three_threads}

-- Thread 2 joins thread 0, whose handle is 70.
abbrev joined : Sched
joined = record three_threads {
  tids = record cleared { nthread = 3; t_p_map = update (λ _. none) 0 (some 70) };
  runq = record { items = 0 ∷ 1 ∷ []; num_yield = 0 };
  waitq = 2 ∷ [];
  slots = λ t. record new_slot { chan = 70 };
}

joined-HasTurn : HasTurn joined 0 (1 ∷ [])
joined-HasTurn = record {
  plain = record { relayed = refl; no_hp = refl; no_bound = refl; no_regions = refl };
  at_front = refl;
  running = refl;
  element = refl;
  not_hp = refl;
  id = ground arith;
  no_wakeups = refl;
}

put_turn-ends_example :
    (s' : Sched) × (put_turn 0 70 true default_strategy joined ≡ ok (some 2, s'))
    × (s'.runq.items ≡ 2 ∷ [])
    × (s'.status 2
        ≡ (if is_runnable (joined.status 2) || (2 == 0) then running_reg else joined.status 2))
    × (let slots = signaled_slots (taken 70 false joined joined.waitq) joined in
        (a : ℕ) → s'.slots a ≡ update slots 2 (post joined.opts.turn_type (slots 2)) a)
    × (s'.waitq ≡ left 70 false joined joined.waitq)
    × (zombie 70 s'.tids ≡ true)
    × (TidMap.get_tid 70 s'.tids ≡ none)
put_turn-ends_example =
    put_turn-ends 0 70 (1 ∷ []) (1 ∷ []) 2 [] joined joined-HasTurn (ground arith) (ground arith)
      (ground arith) refl refl refl (refl, tt) refl (ground arith)
