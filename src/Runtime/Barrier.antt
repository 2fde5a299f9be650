-- ===== src/Runtime/Barrier.antt =====
-- The barrier and lineup wrappers of lib/runtime/record-runtime.cpp, in parts as Mutex has them.
use min_smt.Prelude.{
  ℕ, ◌+◌, ◌-◌, ◌%◌, Bool, true, false, not, ◌&&◌, Option, none, some, ltb, leb, ◌==◌, if◌then◌else◌,
  update, Result, ok, err, bad_pointer, assert, ◌>>=◌, ◌>>◌,
}
use min_smt.Prelude.Int.{pos, negsuc}
use min_smt.Sched.{default_strategy, forever, uint_mod}
use min_smt.Sched.Turn
use min_smt.Sched.Wakeups.{get_turn_count}
use min_smt.Runtime.State.{Rt, BarrierState, Lineup, Progress, returned, waiting, outside}
use min_smt.Runtime.Finish.{begin, finish, fake_end, sync_wait, sync_signal, bypassed}
use min_smt.Runtime.Mutex.{ebusy}

abbrev pub absent {ℓ} : {A : Type ℓ} → Option A → Bool
absent none = true
absent (some a) = false

-- `pthreadBarrierInit`, which enters the barrier within a region too.
unfoldable pub barrier_init : (me barrier count : ℕ) → Rt → Result (Progress × Rt)
unfolding begin
barrier_init me barrier count rt =
    let fresh = some (record { count = count; narrived = 0 }) in
    if bypassed me rt
    then (do
      assert rt.sched.opts.ndebug (absent (rt.barriers barrier))
      ok (returned (pos 0), record rt { barriers = update rt.barriers barrier fresh }))
    else (do
      rt1 ← begin me rt
      assert rt1.sched.opts.ndebug (absent (rt1.barriers barrier))
      finish false me (pos 0) (record rt1 { barriers = update rt1.barriers barrier fresh }))

-- `pthreadBarrierWait` from the arrival on, at a barrier in the state `b`: the last thread to arrive
-- wakes the others and gives up the turn, any other waits.
unfoldable pub arrive : (me barrier : ℕ) → BarrierState → Rt → Result (Progress × Rt)
unfolding sync_wait sync_signal
arrive me barrier b rt = do
  let n = b.narrived + 1
  assert rt.sched.opts.ndebug (leb n b.count)
  if b.count == n
      then (do
        rt1 ←
            sync_signal me barrier true (record rt {
              barriers = update rt.barriers barrier (some (record b { narrived = 0 }));
            })
        (t, s) ← Turn.put_turn me 0 false default_strategy rt1.sched
        ok (waiting, record rt1 { sched = s }))
      else sync_wait me barrier forever
          (record rt { barriers = update rt.barriers barrier (some (record b { narrived = n })) })

unfoldable pub barrier_wait : (me barrier : ℕ) → Rt → Result (Progress × Rt)
unfolding begin fake_end arrive
barrier_wait me barrier rt = if bypassed me rt then ok (outside, rt) else do
  rt1 ← begin me rt
  rt2 ← fake_end rt1
  assert rt2.sched.opts.ndebug (not (absent (rt2.barriers barrier)))
  elim (rt2.barriers barrier) [ none ↦ err bad_pointer | some b ↦ arrive me barrier b rt2 ]

-- `pthreadBarrierWait` once the turn is back: the last thread returns
-- `PTHREAD_BARRIER_SERIAL_THREAD`, the others 0.
unfoldable pub barrier_wait_continue : (me : ℕ) → (last : Bool) → Rt → Result (Progress × Rt)
barrier_wait_continue me last rt = finish false me (if last then negsuc 0 else pos 0) rt

-- `pthreadBarrierDestroy`; `busy` is whether the real call returns EBUSY.
unfoldable pub barrier_destroy : (me barrier : ℕ) → (busy : Bool) → Rt → Result (Progress × Rt)
unfolding begin
barrier_destroy me barrier busy rt = if bypassed me rt then ok (outside, rt) else do
  rt1 ← begin me rt
  if busy then finish false me (pos ebusy) rt1 else do
    assert rt1.sched.opts.ndebug (not (absent (rt1.barriers barrier)))
    if absent (rt1.barriers barrier)
        then err bad_pointer
        else finish false me (pos 0) (record rt1 { barriers = update rt1.barriers barrier none })

-- `lineupInit`; the new barrier stands at `addr`.
unfoldable pub lineup_init : (addr me type count timeout : ℕ) → Rt → Result (Progress × Rt)
unfolding begin
lineup_init addr me type count timeout rt = if bypassed me rt then ok (outside, rt) else do
  rt1 ← begin me rt
  assert rt1.sched.opts.ndebug (absent (rt1.lineups type))
  finish false me (pos 0) (record rt1 {
    lineups = update rt1.lineups type (
        some
          (record { size = count; nactive = 0; timeout = timeout; arriving = true; addr = addr }));
  })

unfoldable pub lineup_destroy : (me type : ℕ) → Rt → Result (Progress × Rt)
unfolding begin
lineup_destroy me type rt = if bypassed me rt then ok (outside, rt) else do
  rt1 ← begin me rt
  assert rt1.sched.opts.ndebug (not (absent (rt1.lineups type)))
  finish false me (pos 0) (record rt1 { lineups = update rt1.lineups type none })

abbrev pub set_lineup : ℕ → Lineup → Rt → Rt
set_lineup type b rt = record rt { lineups = update rt.lineups type (some b) }

-- `lineupStart` at a lineup in the state `b`: the thread that fills it opens it for all, one that
-- arrives early waits for the timeout at most, and any other goes on.
unfoldable pub line_up : (me type : ℕ) → Lineup → Rt → Result (Progress × Rt)
unfolding sync_wait sync_signal get_turn_count
line_up me type b rt =
    let n = (b.nactive + 1) % uint_mod in
    let b1 = record b { nactive = n } in
    if n == b.size
    then (if b.arriving
        then (do
          rt1 ← sync_signal me b.addr true (set_lineup type (record b1 { arriving = false }) rt)
          finish false me (pos 0) rt1)
        else finish false me (pos 0) (set_lineup type b1 rt))
    else (if b.arriving
        then sync_wait me b.addr ((get_turn_count rt.sched + b.timeout) % uint_mod)
            (set_lineup type b1 rt)
        else finish false me (pos 0) (set_lineup type b1 rt))

unfoldable pub lineup_start : (me type : ℕ) → Rt → Result (Progress × Rt)
unfolding begin line_up
lineup_start me type rt = if bypassed me rt then ok (outside, rt) else do
  rt1 ← begin me rt
  assert rt1.sched.opts.ndebug (not (absent (rt1.lineups type)))
  elim (rt1.lineups type) [ none ↦ err bad_pointer | some b ↦ line_up me type b rt1 ]

-- `lineupStart` once the wait is over: if the lineup is still not full, it timed out and opens.
unfoldable pub lineup_start_continue : (me type : ℕ) → Rt → Result (Progress × Rt)
unfolding sync_signal
lineup_start_continue me type rt = elim (rt.lineups type) [
  | none ↦ err bad_pointer
  | some b ↦
      if ltb b.nactive b.size && b.arriving
      then (do
        rt1 ← sync_signal me b.addr true (set_lineup type (record b { arriving = false }) rt)
        finish false me (pos 0) rt1)
      else finish false me (pos 0) rt
]

-- `lineupEnd`; `nactive` is an `unsigned`.
unfoldable pub lineup_end : (me type : ℕ) → Rt → Result (Progress × Rt)
unfolding begin
lineup_end me type rt = if bypassed me rt then ok (outside, rt) else do
  rt1 ← begin me rt
  assert rt1.sched.opts.ndebug (not (absent (rt1.lineups type)))
  elim (rt1.lineups type) [
    | none ↦ err bad_pointer
    | some b ↦
        let n = (b.nactive + uint_mod - 1) % uint_mod in
        finish false me (pos 0) (
          set_lineup type
            (record b {
              nactive = n;
              arriving = if n == 0 && not b.arriving then true else b.arriving;
            })
            rt1)
  ]
