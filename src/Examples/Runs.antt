-- ===== src/Examples/Runs.antt =====
-- A run: the main thread takes the first turn, makes a thread, and gives up the turn.
use min_smt.Prelude.{ℕ, ◌≡◌, ◌≢◌, refl, false, Option, none, some, ok, err}
use min_smt.Sched.{Sched, default_strategy, forever, try_wait}
use min_smt.TidMap
use min_smt.Sched.Next
use min_smt.Sched.Wakeups
use min_smt.Sched.Turn.{get_turn, checked_get_turn, put_turn, wait}
use min_smt.Sched.Setup.{start, create, blank}
use min_smt.Sched.Serial.Reach.{Reach, begins, steps, takes, creates}
use min_smt.Sched.Serial.Exclusive.{IsExclusive, Reach-IsExclusive}
use min_smt.Sched.Serial.Handover.{get_turn-excludes, put_turn-hands_on, wait-hands_on}
use min_smt.Examples.Turns.{plain}

abbrev at_first : Sched
at_first = elim (start plain 70) [ ok s ↦ s | err e ↦ blank plain ]

pub started : start plain 70 ≡ ok at_first
unfolding TidMap.init start
started = refl

abbrev main_holds : Sched
main_holds = elim (get_turn 0 at_first) [ some s ↦ s | none ↦ at_first ]

pub main_takes : get_turn 0 at_first ≡ some main_holds
unfolding try_wait TidMap.init get_turn start
main_takes = refl

pub main_steps : checked_get_turn 0 at_first ≡ ok (some main_holds)
unfolding checked_get_turn try_wait TidMap.init get_turn start
main_steps = refl

abbrev two_exist : Sched
two_exist = elim (create 0 71 900 main_holds) [ ok (t, s) ↦ s | err e ↦ main_holds ]

pub main_creates : create 0 71 900 main_holds ≡ ok (1, two_exist)
unfolding try_wait TidMap.init get_turn start create
main_creates = refl

run_to_start : Reach plain 70 none at_first
run_to_start = begins started

run_to_two : Reach plain 70 (some 0) two_exist
run_to_two = steps (steps run_to_start (takes main_steps)) (creates 1 71 900 main_creates)

abbrev after_put : Sched
after_put = elim (put_turn 0 70 false default_strategy two_exist) [
  | ok (t, s) ↦ s
  | err e ↦ two_exist
]

main_puts : put_turn 0 70 false default_strategy two_exist ≡ ok (some 1, after_put)
unfolding try_wait TidMap.init get_turn start create put_turn Next.next Next.next_runnable
    Next.one_round
main_puts = refl

abbrev pub after_wait : Sched
after_wait = elim (wait 0 40 forever two_exist) [ ok (t, s) ↦ s | err e ↦ two_exist ]

pub main_waits : wait 0 40 forever two_exist ≡ ok (some 1, after_wait)
unfolding try_wait TidMap.init get_turn start create wait Wakeups.inc_turn_count Next.next
    Next.next_runnable Next.one_round
main_waits = refl

Reach-IsExclusive_example : IsExclusive (some 0) two_exist × (two_exist.opts ≡ plain)
Reach-IsExclusive_example = Reach-IsExclusive plain 70 (some 0) two_exist refl run_to_two

get_turn-excludes_example :
    (◌≡◌ {A = Option ℕ} none none) × ((t : ℕ) → get_turn t main_holds ≡ none)
get_turn-excludes_example =
    get_turn-excludes plain 70 none at_first main_holds 0 refl run_to_start main_takes

put_turn-hands_on_example :
    ((s1 : Sched) × (get_turn 1 after_put ≡ some s1))
    × ((u : ℕ) → u ≢ 1 → get_turn u after_put ≡ none)
put_turn-hands_on_example =
    put_turn-hands_on plain 70 two_exist after_put 0 1 70 false default_strategy refl run_to_two
      main_puts

wait-hands_on_example :
    ((s1 : Sched) × (get_turn 1 after_wait ≡ some s1))
    × ((u : ℕ) → u ≢ 1 → get_turn u after_wait ≡ none)
wait-hands_on_example =
    wait-hands_on plain 70 two_exist after_wait 0 1 40 forever refl run_to_two main_waits
