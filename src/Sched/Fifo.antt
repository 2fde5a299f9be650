-- ===== src/Sched/Fifo.antt =====
-- Which waiters `signal` wakes, and in which order.
use mathlib.Core.List.{append_assoc, append-nil}
use min_smt.Prelude.{
  ℕ, ap, ◌≡◌, ◌≢◌, refl, Bool, true, false, not, List, [], ◌∷◌, ◌++◌, sym, ◌∙◌, arith, ltb, ◌==◌,
  if◌then◌else◌, has, Distinct, ok, Bool-cases, inl, inr, assert, update,
}
use min_smt.Sched.Defs.{Sched, Slot, signaled, is_null}
use min_smt.Sched.Queues.{wake, assert_front}
use min_smt.Sched.Signals.{scan, signal}
use min_smt.Sched.Timely.{AllKnown, woken_slot}

abbrev pub waits_on : Sched → ℕ → ℕ → Bool
waits_on s chan t = (s.slots t).chan == chan

-- The state after `t` has been signaled.
abbrev signal_to : ℕ → Sched → Sched
signal_to t s = record s {
  runq = record (s.runq) { items = s.runq.items ++ t ∷ [] };
  slots = update s.slots t (woken_slot signaled 0 (s.slots t));
}

abbrev signal_all : List ℕ → Sched → Sched
signal_all [] s = s
signal_all (t ∷ ts) s = signal_all ts (signal_to t s)

wake-signal_to :
    (t : ℕ) (s : Sched)
    → is_null s.opts.turn_type ≡ false
    → s.opts.hp_policy ≡ false
    → s.known t ≡ true
    → wake 0 signaled t s ≡ ok (signal_to t s)
unfolding wake
wake-signal_to t s nn hp k = ground arith

-- What the loop takes: the first of the waiters on `chan`, or all of them.
abbrev pub taken : (chan : ℕ) → (every : Bool) → Sched → List ℕ → List ℕ
taken chan every s [] = []
taken chan every s (t ∷ ts) =
    if waits_on s chan t
    then t ∷ (if every then taken chan every s ts else [])
    else taken chan every s ts

abbrev pub left : (chan : ℕ) → (every : Bool) → Sched → List ℕ → List ℕ
left chan every s [] = []
left chan every s (t ∷ ts) =
    if waits_on s chan t
    then (if every then left chan every s ts else ts)
    else t ∷ left chan every s ts

taken-signal_to :
    (chan : ℕ) (t : ℕ) (s : Sched) (ts : List ℕ)
    → has t ts ≡ false
    → (taken chan true (signal_to t s) ts ≡ taken chan true s ts)
      × (left chan true (signal_to t s) ts ≡ left chan true s ts)
taken-signal_to chan t s [] out = (refl, refl)
taken-signal_to chan t s (u ∷ us) out =
    let ih = taken-signal_to chan t s us (ground arith) in
    let e : (u == t) ≡ false = ground arith in rw e (rw (ih.0, ih.1) (refl, refl))

scan-signal_all :
    (chan : ℕ) (every : Bool) (ts : List ℕ) (s : Sched)
    → is_null s.opts.turn_type ≡ false
    → s.opts.hp_policy ≡ false
    → Distinct ts
    → AllKnown s ts
    → scan chan every ts s ≡ ok (left chan every s ts, signal_all (taken chan every s ts) s)
unfolding scan
scan-signal_all chan every [] s nn hp d k = refl
scan-signal_all chan true (t ∷ ts) s nn hp d k =
    let known : assert s.opts.ndebug (ltb t s.tids.nthread) ≡ ok tt = ground arith in
    rw known (elim (Bool-cases (waits_on s chan t)) [
      | inl e ↦
          let c = taken-signal_to chan t s ts d.0 in
          rw (
            e,
            wake-signal_to t s nn hp k.0.1,
            scan-signal_all chan true ts (signal_to t s) nn hp d.1 k.1,
            c.0,
            c.1,
          )
      | inr e ↦ rw (e, scan-signal_all chan true ts s nn hp d.1 k.1)
    ])
scan-signal_all chan false (t ∷ ts) s nn hp d k =
    let known : assert s.opts.ndebug (ltb t s.tids.nthread) ≡ ok tt = ground arith in
    rw known (elim (Bool-cases (waits_on s chan t)) [
      | inl e ↦ rw (e, wake-signal_to t s nn hp k.0.1)
      | inr e ↦ rw (e, scan-signal_all chan false ts s nn hp d.1 k.1)
    ])

signal_all-queue : (ts : List ℕ) (s : Sched) → (signal_all ts s).runq.items ≡ s.runq.items ++ ts
signal_all-queue [] s = sym (append-nil _)
signal_all-queue (t ∷ ts) s =
    signal_all-queue ts (signal_to t s) ∙ append_assoc s.runq.items (t ∷ []) ts

-- Nothing but the run queue and the slots changes.
signal_all-frame :
    (ts : List ℕ) (s : Sched)
    → signal_all ts s ≡ record s {
      runq = record (s.runq) { items = (signal_all ts s).runq.items };
      slots = (signal_all ts s).slots;
    }
signal_all-frame [] s = refl
signal_all-frame (t ∷ ts) s = signal_all-frame ts (signal_to t s)

signal_all-slots :
    (ts : List ℕ) (s : Sched) (a : ℕ)
    → (signal_all ts s).slots a
      ≡ (if has a ts then woken_slot signaled 0 (s.slots a) else s.slots a)
signal_all-slots [] s a = refl
signal_all-slots (t ∷ ts) s a =
    let ih = signal_all-slots ts (signal_to t s) a in
    elim (Bool-cases (a == t)) [
      | inl e ↦
          let same : woken_slot signaled 0 (s.slots t) ≡ woken_slot signaled 0 (s.slots a) =
            ap (λ u. woken_slot signaled 0 (s.slots u)) (ground arith) in
          rw (ih, e) (elim (Bool-cases (has a ts)) [ inl h ↦ rw h same | inr h ↦ rw h same ])
      | inr e ↦ rw (ih, e) refl
    ]

-- The slots once the threads `ts` have been signaled.
abbrev pub signaled_slots : List ℕ → Sched → ℕ → Slot
signaled_slots ts s a = if has a ts then woken_slot signaled 0 (s.slots a) else s.slots a

-- What a signal on `chan` by the head `me` promises.
abbrev pub Woken : (chan : ℕ) → (every : Bool) → Sched → Sched → Type 0
Woken chan every s s' =
    (s'.waitq ≡ left chan every s s.waitq)
    × (s'.runq.items ≡ s.runq.items ++ taken chan every s s.waitq)
    × ((a : ℕ) → s'.slots a ≡ signaled_slots (taken chan every s s.waitq) s a)
    × (s' ≡ record s {
      runq = record (s.runq) { items = s'.runq.items };
      slots = s'.slots;
      waitq = s'.waitq;
    })

-- By the head of the run queue, with a wait queue of distinct known threads and no high priority
-- queue, a signal on a channel that is not NULL returns. It takes the first waiter on the channel,
-- or with `all` every one of them, off the wait queue to the end of the run queue, in the order in
-- which they waited; the slot of each says that it was signaled and can run, and has no channel, no
-- timeout and no turn posted to it; nothing else changes.
pub signal-Woken :
    (me chan : ℕ) (rest : List ℕ) (every : Bool) (s : Sched)
    → is_null s.opts.turn_type ≡ false
    → s.opts.hp_policy ≡ false
    → chan ≢ 0
    → s.runq.items ≡ me ∷ rest
    → Distinct s.waitq
    → AllKnown s s.waitq
    → (s' : Sched) × (signal me chan every s ≡ ok s') × Woken chan every s s'
unfolding signal
signal-Woken me chan rest every s nn hp ne h d k =
    let ts = taken chan every s s.waitq in
    (
      record (signal_all ts s) { waitq = left chan every s s.waitq },
      signal-computes,
      (
        refl,
        signal_all-queue ts s,
        signal_all-slots ts s,
        ap (λ (z : Sched). record z { waitq = left chan every s s.waitq }) (signal_all-frame ts s),
      ),
    )
  where
    head_ok : assert_front me s ≡ ok tt
    head_ok = ground arith

    signal-computes :
        signal me chan every s
        ≡ ok (record (signal_all (taken chan every s s.waitq) s) {
          waitq = left chan every s s.waitq;
        })
    signal-computes =
        let c : assert s.opts.ndebug (not (chan == 0)) ≡ ok tt = ground arith in
        rw (c, head_ok, scan-signal_all chan every s.waitq s nn hp d k)
