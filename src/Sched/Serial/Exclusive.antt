-- ===== src/Sched/Serial/Exclusive.antt =====
-- The turn is exclusive: at most one thread holds it or has been given it.
use min_smt.Prelude.{
  ℕ, ◌+◌, ◌≤◌, ◌<◌, ◌≡◌, refl, Bool, true, false, Option, none, some, arith, ◌==◌, if◌then◌else◌,
  Bool-cases, inl, inr, update, sym, subst, ap, ◌∙◌,
}
use min_smt.Prelude.Ensures
use min_smt.Prelude.Ensures.{Ensures, ensured, failed}
use min_smt.TidMap
use min_smt.TidMap.{Pthread, Routine, cleared, main_thread_tid}
use min_smt.RunQueue.{running_reg}
use min_smt.Sched.Defs.{
  Sched, Options, Slot, TurnType, semaphore_relay, hybrid_relay, busy_relay, null_policy,
  other_relay, is_null,
}
use min_smt.Sched.Queues.{push_runq, set_status, post_to}
use min_smt.Sched.Wakeups.{wakeup}
use min_smt.Sched.Turn.{get_turn}
use min_smt.Sched.Setup.{start, create_elem, blank, new_slot}
use min_smt.Sched.Serial.Quiet
use min_smt.Sched.Serial.Quiet.{IsQuiet, is_relay, tokens, pending, same_slots, then-IsQuiet}
use min_smt.Sched.Serial.Passes.{IsPassed, given, post_to-IsPassed}
use min_smt.Sched.Serial.Gives
use min_smt.Sched.Serial.Reach.{
  Step, Reach, takes, signals, counts, creates, changes_role, puts, waits, blocks, idles,
  starts_outside, ends_outside, wakes, begins, steps,
}
use min_smt.Sched.Serial.Token.{try_wait-tokens, get_turn-taken, checked_get_turn-some}
use min_smt.Sched.Serial.Calls.{inter_pro_start-IsQuiet, inter_pro_end-IsQuiet, create-IsQuiet}

-- While a thread holds the turn there is no token; otherwise there is one at most.
pub record IsExclusive (act : Option ℕ) (s : Sched) : Type 0 where
  pub at_most_one : (a : ℕ) → pending s a ≤ 1
  pub one_owner : (a b : ℕ) → 0 < pending s a → 0 < pending s b → a ≡ b
  pub held : (me a : ℕ) → act ≡ some me → pending s a ≡ 0

quiet_keeps :
    (act : Option ℕ) (s s' : Sched) → IsQuiet s s' → IsExclusive act s → IsExclusive act s'
quiet_keeps act s s' q x = record {
  at_most_one = λ a. ground (arith, q.opts, q.fewer a, x.at_most_one a);
  one_owner = λ a b l r.
      x.one_owner a b (ground (arith, q.opts, q.fewer a)) (ground (arith, q.opts, q.fewer b));
  held = λ me a e. ground (arith, q.opts, q.fewer a, x.held me a e);
}

given-le : (r : Option ℕ) (a : ℕ) → given r a ≤ 1
given-le none a = omega arith
given-le (some t) a = ground arith

given-owner : (r : Option ℕ) (a b : ℕ) → 0 < given r a → 0 < given r b → a ≡ b
given-owner none a b l m = absurd (omega arith)
given-owner (some t) a b l m = ground arith

pub passed_keeps :
    (me : ℕ) (s s' : Sched) (r : Option ℕ)
    → IsPassed s r s'
    → IsExclusive (some me) s
    → IsExclusive none s'
passed_keeps me s s' r p x = record {
  at_most_one = λ a. ground (arith, p.opts, p.at_most a, x.held me a refl, given-le r a);
  one_owner = λ a b l m.
      given-owner r a b (ground (arith, p.opts, p.at_most a, x.held me a refl))
        (ground (arith, p.opts, p.at_most b, x.held me b refl));
  held = λ k a e. cc;
}

-- Without a token anywhere the turn is exclusive, whoever holds it.
none_pending : (act : Option ℕ) (s : Sched) → ((a : ℕ) → pending s a ≡ 0) → IsExclusive act s
none_pending act s z = record {
  at_most_one = λ a. omega (arith, z a);
  one_owner = λ a b l m. absurd (omega (arith, z a));
  held = λ me a e. z a;
}

-- The thread for which `getTurn` returns takes the only token, when nobody else holds the turn.
pub takes_keeps :
    (act : Option ℕ) (me : ℕ) (s s' : Sched)
    → is_relay s.opts.turn_type ≡ true
    → get_turn me s ≡ some s'
    → IsExclusive act s
    → IsExclusive (some me) s' × (act ≡ none) × (s'.opts ≡ s.opts)
takes_keeps act me s s' r h x =
    let (w, y, e, q) = get_turn-taken me s s' h in
    let less = (try_wait-tokens s.opts.turn_type (s.slots me) s.in_sync r).1 w y e in
    (
      subst (λ z. IsExclusive (some me) z) (sym q) (none_pending (some me) _ (λ a. spent w less a)),
      free act refl w less,
      ap (λ (z : Sched). z.opts) q,
    )
  where
    spent :
        (w : Slot)
        → tokens s.opts.turn_type w + 1 ≡ pending s me
        → (a : ℕ) → tokens s.opts.turn_type (update s.slots me w a) ≡ 0
    spent w l a = elim (Bool-cases (a == me)) [
      | inl h ↦ rw h (omega (arith, l, x.at_most_one me))
      | inr h ↦ rw h (ground (arith, l, x.one_owner a me))
    ]

    free :
        (o : Option ℕ)
        → act ≡ o
        → (w : Slot) → tokens s.opts.turn_type w + 1 ≡ pending s me
        → act ≡ none
    free none e w l = e
    free (some k) e w l = absurd (omega (arith, l, x.held k me e))

new_slot-tokens : (p : TurnType) → tokens p new_slot ≡ 0
new_slot-tokens semaphore_relay = refl
new_slot-tokens hybrid_relay = refl
new_slot-tokens busy_relay = refl
new_slot-tokens null_policy = refl
new_slot-tokens other_relay = refl

-- The first turn is the main thread's.
first_post :
    (o : Options) (s : Sched)
    → s.opts ≡ o
    → s.slots ≡ (λ _. new_slot)
    → IsExclusive none (set_status main_thread_tid running_reg (post_to main_thread_tid s))
      × ((post_to main_thread_tid s).opts ≡ o)
unfolding set_status post_to
first_post o s e n =
    let p = post_to-IsPassed main_thread_tid s in
    let x =
      passed_keeps 0 s _ (some 0) p
        (none_pending (some 0) s (λ a. rw n (new_slot-tokens s.opts.turn_type))) in
    (record { at_most_one = x.at_most_one; one_owner = x.one_owner; held = x.held }, p.opts ∙ e)

push_runq-same :
    (t : ℕ) (s : Sched) → Ensures (λ s'. (s'.opts ≡ s.opts) × (s'.slots ≡ s.slots)) (push_runq t s)
unfolding push_runq
push_runq-same t s = Ensures.branch (s.known t) (λ k. ensured (refl, refl)) (λ k. failed)

-- A choice between two states with the same options and slots.
either_same :
    (b : Bool) (x y : Sched)
    → x.opts ≡ y.opts
    → x.slots ≡ y.slots
    → ((if b then x else y).opts ≡ y.opts) × ((if b then x else y).slots ≡ y.slots)
either_same true x y e f = (e, f)
either_same false x y e f = (refl, refl)

start-IsExclusive :
    (o : Options) (th : Pthread) → Ensures (λ s. IsExclusive none s × (s.opts ≡ o)) (start o th)
unfolding start
start-IsExclusive o th =
    Ensures.bind (Ensures.always (TidMap.init o.ndebug o.wakeamap_plus th cleared)) λ (self, m) _.
      let s1 = create_elem main_thread_tid (record (blank o) { tids = m }) in
      let hp : Sched = record s1 { hp_known = update s1.hp_known main_thread_tid true } in
      let same = either_same o.hp_policy hp s1 refl refl in
      Ensures.bind (push_runq-same main_thread_tid (if o.hp_policy then hp else s1))
        λ s3 q. ensured (first_post o s3 (q.0 ∙ same.0) (q.1 ∙ same.1))

pub relay-not_null : (p : TurnType) → is_relay p ≡ true → is_null p ≡ false
relay-not_null semaphore_relay r = refl
relay-not_null hybrid_relay r = refl
relay-not_null busy_relay r = refl
relay-not_null null_policy r = cc
relay-not_null other_relay r = refl

-- Every step keeps the turn exclusive.
steps_keep :
    (act act' : Option ℕ) (s s' : Sched)
    → is_relay s.opts.turn_type ≡ true
    → Step act s act' s'
    → IsExclusive act s
    → IsExclusive act' s' × (s'.opts ≡ s.opts)
steps_keep act act' s s' r (takes {me = me} h) x =
    let k = takes_keeps act me s s' r (checked_get_turn-some me s s' h) x in (k.0, k.2)
steps_keep act act' s s' r (signals {me = me} chan every h) x =
    let q = Ensures.of_ok (Quiet.signal-IsQuiet me chan every s (relay-not_null _ r)) h in
    (quiet_keeps act s s' q x, q.opts)
steps_keep act act' s s' r (counts n h) x =
    let q = Ensures.of_ok (Quiet.inc_turn_count-IsQuiet s (relay-not_null _ r)) h in
    (quiet_keeps act s s' q x, q.opts)
steps_keep act act' s s' r (creates {me = me} t th f h) x =
    let q = Ensures.of_ok (create-IsQuiet me th f s (relay-not_null _ r)) h in
    (quiet_keeps act s s' q x, q.opts)
steps_keep act act' s s' r (changes_role th f m h) x =
    (quiet_keeps act s s' (same_slots s s' refl refl) x, refl)
steps_keep act act' s s' r (puts {me = me} th at_end st n h) x =
    let p = Ensures.of_ok (Gives.put_turn-IsPassed me th at_end st s (relay-not_null _ r)) h in
    (passed_keeps me s s' n p x, p.opts)
steps_keep act act' s s' r (waits {me = me} chan nturn n h) x =
    let p = Ensures.of_ok (Gives.wait-IsPassed me chan nturn s (relay-not_null _ r)) h in
    (passed_keeps me s s' n p x, p.opts)
steps_keep act act' s s' r (blocks {me = me} k n h) x =
    let p = Ensures.of_ok (Gives.block-IsPassed me s (relay-not_null _ r)) h in
    (passed_keeps me s s' n p x, p.opts)
steps_keep act act' s s' r (idles {me = me} th idle_cond n h) x =
    let p =
      Ensures.of_ok (Gives.idle_thread_cond_wait-IsPassed me th idle_cond s (relay-not_null _ r))
        h in
    (passed_keeps me s s' n p x, p.opts)
steps_keep act act' s s' r (starts_outside t b h) x =
    let q = Ensures.of_ok (inter_pro_start-IsQuiet t s) h in (quiet_keeps act s s' q x, q.opts)
steps_keep act act' s s' r (ends_outside t b h) x =
    let q = Ensures.of_ok (inter_pro_end-IsQuiet t s) h in (quiet_keeps act s s' q x, q.opts)
steps_keep act act' s s' r (wakes t) x =
    unfold wakeup in (quiet_keeps act s s' (same_slots s s' refl refl) x, refl)

-- Under every relay, in every state that a run reaches, whichever threads called what in which
-- order: at most one wait slot holds a token, at most one token, and none while a thread holds the
-- turn.
pub Reach-IsExclusive :
    (o : Options) (th : Pthread) (act : Option ℕ) (s : Sched)
    → is_relay o.turn_type ≡ true
    → Reach o th act s
    → IsExclusive act s × (s.opts ≡ o)
Reach-IsExclusive o th act s r (begins h) = Ensures.of_ok (start-IsExclusive o th) h
Reach-IsExclusive o th act s r (steps {act = act0} {s = s0} run step) =
    let ih = Reach-IsExclusive o th act0 s0 r run in
    let k = steps_keep act0 act s0 s (ground (arith, ih.1, r)) step ih.0 in (k.0, k.1 ∙ ih.1)
