-- ===== src/Sched/Serial/Token.antt =====
-- `getTurn` and the tokens of a wait slot.
use min_smt.Prelude.{
  ℕ, ◌+◌, ◌-◌, ◌<◌, ◌≡◌, refl, Bool, true, false, Option, none, some, ok, arith, update,
}
use min_smt.Sched.Defs.{
  Sched, Slot, TurnType, semaphore_relay, hybrid_relay, busy_relay, null_policy, other_relay,
  try_wait,
}
use min_smt.Sched.Turn.{get_turn, checked_get_turn}
use min_smt.Sched.Serial.Quiet.{is_relay, tokens, pending}

-- `getTurn` takes a token, and without one it blocks.
pub try_wait-tokens :
    (p : TurnType) (w : Slot) (y : Bool)
    → is_relay p ≡ true
    → (tokens p w ≡ 0 → try_wait p w y ≡ none)
      × ((v : Slot) (z : Bool) → try_wait p w y ≡ some (v, z) → tokens p v + 1 ≡ tokens p w)
unfolding try_wait
try_wait-tokens semaphore_relay w y e = (λ z. ground arith, λ v z h. ground (arith, h))
try_wait-tokens hybrid_relay w y e = (λ z. ground arith, λ v z h. ground (arith, h))
try_wait-tokens busy_relay w y e = (λ z. ground arith, λ v z h. ground (arith, h))
try_wait-tokens null_policy w y e = cc
try_wait-tokens other_relay w y e = cc

pub get_turn-blocks :
    (t : ℕ) (s : Sched) → is_relay s.opts.turn_type ≡ true → pending s t ≡ 0 → get_turn t s ≡ none
unfolding get_turn
get_turn-blocks t s r z =
    rw (get_turn, (try_wait-tokens s.opts.turn_type (s.slots t) s.in_sync r).0 z) refl

-- A call of `getTurn` that returns has passed its assertion and its wait.
pub checked_get_turn-some :
    (me : ℕ) (s s' : Sched) → checked_get_turn me s ≡ ok (some s') → get_turn me s ≡ some s'
unfolding checked_get_turn
checked_get_turn-some me s s' h = ground (arith, h)

pub get_turn-taken :
    (me : ℕ) (s s' : Sched)
    → get_turn me s ≡ some s'
    → (w : Slot) × (y : Bool) × (try_wait s.opts.turn_type (s.slots me) s.in_sync ≡ some (w, y))
      × (s' ≡ record s { slots = update s.slots me w; in_sync = y })
unfolding get_turn
get_turn-taken me s s' h = split (try_wait s.opts.turn_type (s.slots me) s.in_sync) refl
  where
    split :
        (o : Option (Slot × Bool))
        → try_wait s.opts.turn_type (s.slots me) s.in_sync ≡ o
        → (w : Slot) × (y : Bool) × (try_wait s.opts.turn_type (s.slots me) s.in_sync ≡ some (w, y))
          × (s' ≡ record s { slots = update s.slots me w; in_sync = y })
    split none e = ground (arith, h, e)
    split (some (w, y)) e = (w, y, e, ground (arith, h, e))

pub try_wait-returns :
    (p : TurnType) (w : Slot) (y : Bool)
    → is_relay p ≡ true
    → 0 < tokens p w
    → (v : Slot) × (z : Bool) × (try_wait p w y ≡ some (v, z))
unfolding try_wait
try_wait-returns semaphore_relay w y e l = (record w { sem = w.sem - 1 }, y, ground arith)
try_wait-returns hybrid_relay w y e l = (record w { waken_up = false }, y, ground arith)
try_wait-returns busy_relay w y e l = (record w { waken_up = false }, y, ground arith)
try_wait-returns null_policy w y e l = cc
try_wait-returns other_relay w y e l = cc
