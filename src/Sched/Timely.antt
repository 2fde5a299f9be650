-- ===== src/Sched/Timely.antt =====
-- Which threads `fireTimeouts` takes off the wait queue, and in which order they can run again.
use min_smt.Prelude.{
  ℕ, ◌<◌, ◌≡◌, refl, Bool, true, false, not, List, [], ◌∷◌, ◌++◌, ap, sym, ◌∙◌, arith, ltb, ◌==◌,
  if◌then◌else◌, length, All, ok, Bool-cases, inl, inr, assert, Distinct, has, update,
}
use mathlib.Core.List.{append_assoc, append-nil}
use min_smt.Sched.Defs.{Sched, Slot, WakeReason, timedout, etimedout, forever, is_null}
use min_smt.Sched.Queues.{wake}
use min_smt.Sched.Wakeups.{fire, fire_timeouts}

-- A thread that is past its timeout, by the slots and the turn count of `s`.
abbrev pub is_late : Sched → ℕ → Bool
is_late s t = ltb (s.slots t).timeout s.turn_count

abbrev pub keep : (ℕ → Bool) → List ℕ → List ℕ
keep p [] = []
keep p (t ∷ ts) = if p t then t ∷ keep p ts else keep p ts

-- The threads of the wait queue that are late, and the others, in the order of the queue.
abbrev pub late : Sched → List ℕ
late s = keep (is_late s) s.waitq

abbrev pub on_time : Sched → List ℕ
on_time s = keep (λ t. not (is_late s t)) s.waitq

-- Threads with an id and an element.
abbrev pub AllKnown : Sched → List ℕ → Type 0
AllKnown s ts = All (λ t. (t < s.tids.nthread) × (s.known t ≡ true)) ts

-- The slot `w` after its thread has been woken for `why`, with `st` as the result of its wait.
abbrev pub woken_slot : WakeReason → (st : ℕ) → Slot → Slot
woken_slot why st w = record w {
  chan = 0;
  timeout = forever;
  ret = st;
  waken_up = false;
  is_runnable = true;
  wake_reason = why;
}

-- The state after the threads `ts` have timed out, one after another.
abbrev time_out : ℕ → Sched → Sched
time_out t s = record s {
  runq = record (s.runq) { items = s.runq.items ++ t ∷ [] };
  slots = update s.slots t (woken_slot timedout etimedout (s.slots t));
}

abbrev pub time_out_all : List ℕ → Sched → Sched
time_out_all [] s = s
time_out_all (t ∷ ts) s = time_out_all ts (time_out t s)

wake-time_out :
    (t : ℕ) (s : Sched)
    → is_null s.opts.turn_type ≡ false
    → s.opts.hp_policy ≡ false
    → s.known t ≡ true
    → wake etimedout timedout t s ≡ ok (time_out t s)
unfolding wake
wake-time_out t s nn hp k = ground arith

-- A timeout leaves the lateness of the other threads as it was.
keep-time_out :
    (b : Bool) (t : ℕ) (s : Sched) (ts : List ℕ)
    → has t ts ≡ false
    → (keep (is_late (time_out t s)) ts ≡ keep (is_late s) ts)
      × (keep (λ u. not (is_late (time_out t s) u)) ts ≡ keep (λ u. not (is_late s u)) ts)
keep-time_out b t s [] out = (refl, refl)
keep-time_out b t s (u ∷ us) out =
    let ih = keep-time_out b t s us (ground arith) in
    let e : (u == t) ≡ false = ground arith in rw e (rw (ih.0, ih.1) (refl, refl))

fire-time_out_all :
    (ts : List ℕ) (s : Sched)
    → is_null s.opts.turn_type ≡ false
    → s.opts.hp_policy ≡ false
    → Distinct ts
    → AllKnown s ts
    → fire ts s
      ≡ ok (
        keep (λ t. not (is_late s t)) ts,
        length (keep (is_late s) ts),
        time_out_all (keep (is_late s) ts) s,
      )
unfolding fire
fire-time_out_all [] s nn hp d k = refl
fire-time_out_all (t ∷ ts) s nn hp d k =
    let known : assert s.opts.ndebug (ltb t s.tids.nthread) ≡ ok tt = ground arith in
    rw known (elim (Bool-cases (is_late s t)) [
      | inl e ↦
          let c = keep-time_out true t s ts d.0 in
          rw
            (
              e,
              wake-time_out t s nn hp k.0.1,
              fire-time_out_all ts (time_out t s) nn hp d.1 k.1,
              c.0,
              c.1,
            )
            (ap
              (λ (n : ℕ). ok (
                keep (λ u. not (is_late s u)) ts,
                n,
                time_out_all (keep (is_late s) ts) (time_out t s),
              ))
              (omega arith))
      | inr e ↦ rw (e, fire-time_out_all ts s nn hp d.1 k.1)
    ])

-- What a chain of timeouts leaves: the queue, and the slots.
time_out_all-queue :
    (ts : List ℕ) (s : Sched)
    → ((time_out_all ts s).runq.items ≡ s.runq.items ++ ts)
      × ((time_out_all ts s).turn_count ≡ s.turn_count)
time_out_all-queue [] s = (sym (append-nil _), refl)
time_out_all-queue (t ∷ ts) s =
    let ih = time_out_all-queue ts (time_out t s) in
    (ih.0 ∙ append_assoc s.runq.items (t ∷ []) ts, ih.1)

-- Nothing but the run queue and the slots changes.
time_out_all-frame :
    (ts : List ℕ) (s : Sched)
    → time_out_all ts s ≡ record s {
      runq = record (s.runq) { items = (time_out_all ts s).runq.items };
      slots = (time_out_all ts s).slots;
    }
time_out_all-frame [] s = refl
time_out_all-frame (t ∷ ts) s = time_out_all-frame ts (time_out t s)

-- A thread that is woken twice has the slot that it has after the first time.
time_out_all-slots :
    (ts : List ℕ) (s : Sched) (a : ℕ)
    → (time_out_all ts s).slots a
      ≡ (if has a ts then woken_slot timedout etimedout (s.slots a) else s.slots a)
time_out_all-slots [] s a = refl
time_out_all-slots (t ∷ ts) s a =
    let ih = time_out_all-slots ts (time_out t s) a in
    elim (Bool-cases (a == t)) [
      | inl e ↦
          let same : woken_slot timedout etimedout (s.slots t)
              ≡ woken_slot timedout etimedout (s.slots a) =
            ap (λ u. woken_slot timedout etimedout (s.slots u)) (ground arith) in
          rw (ih, e) (elim (Bool-cases (has a ts)) [ inl h ↦ rw h same | inr h ↦ rw h same ])
      | inr e ↦ rw (ih, e) refl
    ]

-- What `fireTimeouts` leaves as it was.
pub fire_timeouts-frame :
    (s : Sched)
    → is_null s.opts.turn_type ≡ false
    → s.opts.hp_policy ≡ false
    → Distinct s.waitq
    → AllKnown s s.waitq
    → (slots : ℕ → Slot) × (fire_timeouts s
        ≡ ok (
          length (late s),
          record s {
            runq = record (s.runq) { items = s.runq.items ++ late s };
            slots = slots;
            waitq = on_time s;
          },
        ))
      × ((a : ℕ) → has a (late s) ≡ false → slots a ≡ s.slots a)
unfolding fire_timeouts
fire_timeouts-frame s nn hp d k = (
  (time_out_all (late s) s).slots,
  rw (
    fire-time_out_all s.waitq s nn hp d k,
    time_out_all-frame (late s) s,
    (time_out_all-queue (late s) s).0,
  ),
  λ a h. time_out_all-slots (late s) s a ∙ rw h refl,
)

-- With a wait queue of distinct known threads and no high priority queue, `fireTimeouts` returns.
-- Exactly the threads whose timeout is below the turn count leave the wait queue; they go to the
-- end of the run queue in the order in which they waited, and are counted; the slot of each says
-- that it timed out and can run, and has no channel, no timeout and no turn posted to it; the other
-- slots and the rest of the state stay as they were.
pub fire_timeouts-late :
    (s : Sched)
    → is_null s.opts.turn_type ≡ false
    → s.opts.hp_policy ≡ false
    → Distinct s.waitq
    → AllKnown s s.waitq
    → (s' : Sched) × (fire_timeouts s ≡ ok (length (late s), s'))
      × (s'.waitq ≡ on_time s)
      × (s'.runq.items ≡ s.runq.items ++ late s)
      × ((a : ℕ)
          → s'.slots a
            ≡ (if has a (late s) then woken_slot timedout etimedout (s.slots a) else s.slots a))
      × (s' ≡ record s {
        runq = record (s.runq) { items = s'.runq.items };
        slots = s'.slots;
        waitq = s'.waitq;
      })
unfolding fire_timeouts
fire_timeouts-late s nn hp d k = (
  record (time_out_all (late s) s) { waitq = on_time s },
  rw (fire-time_out_all s.waitq s nn hp d k),
  refl,
  (time_out_all-queue (late s) s).0,
  time_out_all-slots (late s) s,
  ap (λ (z : Sched). record z { waitq = on_time s }) (time_out_all-frame (late s) s),
)
