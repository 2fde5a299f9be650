-- ===== src/Sched/Serial/Handover.antt =====
-- Who gets the turn: nobody beside the thread that holds it, and then the thread it hands on to.
use min_smt.Prelude.{ℕ, ◌≢◌, ◌<◌, ◌≡◌, refl, Bool, true, Option, none, some, arith, ok, update}
use min_smt.Prelude.Ensures
use min_smt.Prelude.Ensures.{Ensures, ensured, failed}
use min_smt.TidMap.{Pthread}
use min_smt.Sched.Defs.{Sched, Options, Strategy}
use min_smt.Sched.Turn.{get_turn, put_turn, wait}
use min_smt.Sched.Serial.Quiet.{is_relay, pending}
use min_smt.Sched.Serial.Gives
use min_smt.Sched.Serial.Reach.{Reach}
use min_smt.Sched.Serial.Token.{get_turn-blocks, try_wait-returns}
use min_smt.Sched.Serial.Exclusive.{
  IsExclusive, takes_keeps, passed_keeps, relay-not_null, Reach-IsExclusive,
}

-- Mutual exclusion: under every relay, in every state that a run reaches, if `getTurn` returns for
-- a thread then no other thread holds the turn, and from then on `getTurn` blocks for every thread
-- until the turn is given up.
pub get_turn-excludes :
    (o : Options) (th : Pthread) (act : Option ℕ) (s s' : Sched) (me : ℕ)
    → is_relay o.turn_type ≡ true
    → Reach o th act s
    → get_turn me s ≡ some s'
    → (act ≡ none) × ((t : ℕ) → get_turn t s' ≡ none)
get_turn-excludes o th act s s' me r run h =
    let i = Reach-IsExclusive o th act s r run in
    let relay : is_relay s.opts.turn_type ≡ true = ground (arith, i.1, r) in
    let k = takes_keeps act me s s' relay h i.0 in
    (k.1, λ t. get_turn-blocks t s' (ground (arith, k.2, relay)) (k.0.held me t refl))

-- A thread with a token gets the turn, and when the turn is exclusive no other thread does.
owner_alone :
    (s : Sched) (t : ℕ)
    → is_relay s.opts.turn_type ≡ true
    → IsExclusive none s
    → 0 < pending s t
    → ((s' : Sched) × (get_turn t s ≡ some s')) × ((u : ℕ) → u ≢ t → get_turn u s ≡ none)
unfolding get_turn
owner_alone s t r x l =
    let (v, z, e) = try_wait-returns s.opts.turn_type (s.slots t) s.in_sync r l in
    (
      (record s { slots = update s.slots t v; in_sync = z }, rw (get_turn, e) refl),
      λ u ne. get_turn-blocks u s r (ground (arith, x.one_owner u t, ne)),
    )

-- The hand-over: under every relay, in every state that a run reaches, when `putTurn` of the thread
-- with the turn, under whatever strategy, chooses thread `t`, then `getTurn` returns for `t` and
-- blocks for every other thread.
pub put_turn-hands_on :
    (o : Options) (th : Pthread) (s s' : Sched) (me t : ℕ) (self : Pthread) (at_end : Bool)
    (st : Strategy)
    → is_relay o.turn_type ≡ true
    → Reach o th (some me) s
    → put_turn me self at_end st s ≡ ok (some t, s')
    → ((s1 : Sched) × (get_turn t s' ≡ some s1)) × ((u : ℕ) → u ≢ t → get_turn u s' ≡ none)
put_turn-hands_on o th s s' me t self at_end st r run h =
    let i = Reach-IsExclusive o th (some me) s r run in
    let relay : is_relay s.opts.turn_type ≡ true = ground (arith, i.1, r) in
    let p =
      Ensures.of_ok (Gives.put_turn-IsPassed me self at_end st s (relay-not_null _ relay)) h in
    owner_alone s' t (ground (arith, p.opts, relay)) (passed_keeps me s s' (some t) p i.0)
      (ground (arith, p.opts, p.reaches t refl relay))

-- In a run with a relay turn type, when a thread with the turn calls `wait` and that chooses a
-- thread, the thread that it chooses gets the turn, and no other thread does.
pub wait-hands_on :
    (o : Options) (th : Pthread) (s s' : Sched) (me t chan nturn : ℕ)
    → is_relay o.turn_type ≡ true
    → Reach o th (some me) s
    → wait me chan nturn s ≡ ok (some t, s')
    → ((s1 : Sched) × (get_turn t s' ≡ some s1)) × ((u : ℕ) → u ≢ t → get_turn u s' ≡ none)
wait-hands_on o th s s' me t chan nturn r run h =
    let i = Reach-IsExclusive o th (some me) s r run in
    let relay : is_relay s.opts.turn_type ≡ true = ground (arith, i.1, r) in
    let p = Ensures.of_ok (Gives.wait-IsPassed me chan nturn s (relay-not_null _ relay)) h in
    owner_alone s' t (ground (arith, p.opts, relay)) (passed_keeps me s s' (some t) p i.0)
      (ground (arith, p.opts, p.reaches t refl relay))
