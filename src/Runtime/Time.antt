-- ===== src/Runtime/Time.antt =====
-- Logical time: `time_diff`, `time2turn` and `relTimeToTurn` of lib/runtime/record-runtime.cpp.
use min_smt.Prelude.{
  ℕ, ◌+◌, ◌-◌, ◌*◌, ◌/◌, ◌^◌, ◌≤◌, ◌<◌, ◌≡◌, ◌⊎◌, inl, inr, Bool-cases, true, false, Option, none,
  some, ltb, ◌==◌, if◌then◌else◌, Result, ok, err, exited, div_by_zero, arith, ◌>>=◌,
}
use min_smt.Runtime.State.{Timespec}
use native.Mathlib.Nat.{le-div_iff_mul-le}
use min_smt.Prelude.Int.{
  ℤ, pos, negsuc, eq_of_parts, +ℤ_parts, -ℤ_parts, scale_parts, ◌+ℤ◌, ◌-ℤ◌, scale, lt_ℤ, to_u64,
}

abbrev pub giga : ℕ
giga = 1000000000

unfoldable pub time_diff : Timespec → Timespec → Timespec
time_diff start end =
    if lt_ℤ (end.tv_nsec -ℤ start.tv_nsec) (pos 0)
    then record {
      tv_sec = end.tv_sec -ℤ start.tv_sec -ℤ pos 1;
      tv_nsec = pos giga -ℤ start.tv_nsec +ℤ end.tv_nsec;
    }
    else record { tv_sec = end.tv_sec -ℤ start.tv_sec; tv_nsec = end.tv_nsec -ℤ start.tv_nsec }

abbrev pub max_rel : ℕ
max_rel = 1000000

-- `time2turn(nsec)`.
unfoldable pub time_to_turn : (launch_idle nanosec_per_turn : ℕ) → (nsec : ℕ) → Result ℕ
time_to_turn launch_idle per nsec =
    if launch_idle == 0
    then err exited
    else if per == 0
    then err div_by_zero
    else ok (if ltb max_rel (nsec / per) then max_rel else nsec / per)

-- `relTimeToTurn(reltime)`; NULL is `none`.
unfoldable pub rel_time_to_turn : (launch_idle per nthread : ℕ) → Option Timespec → Result ℕ
unfolding time_to_turn
rel_time_to_turn launch_idle per nthread none = ok 0
rel_time_to_turn launch_idle per nthread (some t) = do
  ret ← time_to_turn launch_idle per (to_u64 (scale giga t.tv_sec +ℤ t.tv_nsec))
  ok (if ltb ret (5 * nthread + 1) then 5 * nthread + 1 else ret)

-- The nanoseconds of a time.
abbrev pub nanos : Timespec → ℤ
nanos t = scale giga t.tv_sec +ℤ t.tv_nsec

borrow-nsec :
    (x y : ℤ) (m n : ℕ)
    → x ≡ pos m
    → y ≡ pos n
    → n < m
    → m < giga
    → pos giga -ℤ x +ℤ y ≡ pos (giga + n - m)
unfolding ◌+ℤ◌ ◌-ℤ◌
borrow-nsec x y m n a b lt h = rw (a, b) (ground arith)

plain-nsec : (x y : ℤ) (m n : ℕ) → x ≡ pos m → y ≡ pos n → m ≤ n → y -ℤ x ≡ pos (n - m)
unfolding ◌-ℤ◌
plain-nsec x y m n a b le = rw (a, b) (ground arith)

borrow-nanos :
    (es ss en sn : ℤ)
    → scale giga (es -ℤ ss -ℤ pos 1) +ℤ (pos giga -ℤ sn +ℤ en)
      ≡ scale giga es +ℤ en -ℤ (scale giga ss +ℤ sn)
borrow-nanos es ss en sn = eq_of_parts _ _ (
    omega (
      arith,
      +ℤ_parts (scale giga (es -ℤ ss -ℤ pos 1)) (pos giga -ℤ sn +ℤ en),
      scale_parts giga (es -ℤ ss -ℤ pos 1),
      -ℤ_parts (es -ℤ ss) (pos 1),
      -ℤ_parts es ss,
      +ℤ_parts (pos giga -ℤ sn) en,
      -ℤ_parts (pos giga) sn,
      -ℤ_parts (scale giga es +ℤ en) (scale giga ss +ℤ sn),
      +ℤ_parts (scale giga es) en,
      +ℤ_parts (scale giga ss) sn,
      scale_parts giga es,
      scale_parts giga ss,
    ))

plain-nanos :
    (es ss en sn : ℤ)
    → scale giga (es -ℤ ss) +ℤ (en -ℤ sn) ≡ scale giga es +ℤ en -ℤ (scale giga ss +ℤ sn)
plain-nanos es ss en sn = eq_of_parts _ _ (
    omega (
      arith,
      +ℤ_parts (scale giga (es -ℤ ss)) (en -ℤ sn),
      scale_parts giga (es -ℤ ss),
      -ℤ_parts es ss,
      -ℤ_parts en sn,
      -ℤ_parts (scale giga es +ℤ en) (scale giga ss +ℤ sn),
      +ℤ_parts (scale giga es) en,
      +ℤ_parts (scale giga ss) sn,
      scale_parts giga es,
      scale_parts giga ss,
    ))

-- The difference of two normal times is normal, and as many nanoseconds as lie between them.
pub time_diff-nanos :
    (start end : Timespec) (m n : ℕ)
    → start.tv_nsec ≡ pos m
    → end.tv_nsec ≡ pos n
    → m < giga
    → n < giga
    → ((k : ℕ) × ((time_diff start end).tv_nsec ≡ pos k) × (k < giga))
      × (nanos (time_diff start end) ≡ nanos end -ℤ nanos start)
unfolding time_diff
time_diff-nanos start end m n a b hm hn =
    elim (Bool-cases (lt_ℤ (end.tv_nsec -ℤ start.tv_nsec) (pos 0))) [
      | inl e ↦ rw e (
        (giga + n - m, borrow-nsec _ _ m n a b (below e) hm, omega (arith, below e)),
        borrow-nanos end.tv_sec start.tv_sec end.tv_nsec start.tv_nsec,
      )
      | inr e ↦ rw e (
        (n - m, plain-nsec _ _ m n a b (above e), omega arith),
        plain-nanos end.tv_sec start.tv_sec end.tv_nsec start.tv_nsec,
      )
    ]
  where
    below : lt_ℤ (end.tv_nsec -ℤ start.tv_nsec) (pos 0) ≡ true → n < m
    below e = ground (arith, -ℤ_parts end.tv_nsec start.tv_nsec)

    above : lt_ℤ (end.tv_nsec -ℤ start.tv_nsec) (pos 0) ≡ false → m ≤ n
    above e = ground (arith, -ℤ_parts end.tv_nsec start.tv_nsec)

-- A wait for a relative time, where the code does not exit, is at least five turns for each thread and one, and at most the longest of that and a
-- million turns.
pub rel_time_to_turn-bounds :
    (launch_idle per nthread : ℕ) (t : Timespec) (r : ℕ)
    → rel_time_to_turn launch_idle per nthread (some t) ≡ ok r
    → (5 * nthread + 1 ≤ r) × ((r ≤ max_rel) ⊎ (r ≡ 5 * nthread + 1))
unfolding rel_time_to_turn
rel_time_to_turn-bounds launch_idle per nthread t r e = ground arith

-- With the idle thread on and few threads, a relative time that is negative, as of a deadline that
-- has passed, becomes the longest wait of a million turns, not the shortest one.
pub rel_time_to_turn-negative :
    (launch_idle per nthread k : ℕ) (t : Timespec)
    → 0 < launch_idle
    → 0 < per
    → per ≤ 2 ^ 40
    → 5 * nthread + 1 ≤ max_rel
    → nanos t ≡ negsuc k
    → k < 2 ^ 63
    → rel_time_to_turn launch_idle per nthread (some t) ≡ ok max_rel
unfolding rel_time_to_turn to_u64
rel_time_to_turn-negative launch_idle per nthread k t l p q m e b = rw e (ground (arith, far))
  where
    far : max_rel < to_u64 (negsuc k) / per
    far = (le-div_iff_mul-le p).1 (omega arith)
