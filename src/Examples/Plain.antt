-- ===== src/Examples/Plain.antt =====
-- Calls of the C library through the whole way from the program and back.
use min_smt.Prelude.{ℕ, ◌+◌, ◌-◌, ◌≡◌, refl, false, inr, ok, leb, if◌then◌else◌, arith}
use min_smt.Prelude.Int.{ℤ, pos}
use min_smt.Hooks.Space.{Caller, app, fresh}
use min_smt.Hooks.Entry.{run_entry, crosses, int_ret, narrow}
use min_smt.Hooks.Interpose.{Function, interposed}
use min_smt.Hooks.Crossing.{at}
use min_smt.Plain.{plain_call}
use min_smt.Plain.Receive.{receive, Got, receive-Got}
use min_smt.Plain.Errno.{interposed-transparent}
use min_smt.Examples.Hooks.{both_on}

-- A socket with so many bytes that have come, of which a call gets what it wants, and a pause in
-- which three more come.
abbrev part : ℕ → ℕ → Function ℕ
part got want c n =
    ok (pos (if leb n want then n else want), c, (if leb n want then 0 else n - want))

abbrev pause : Function ℕ
pause c n = ok (pos 0, c, n + 3)

part-Got : (want n : ℕ) → Got want (pos (if leb n want then n else want))
part-Got want n = record { got = inr ((if leb n want then n else want), refl, ground arith) }

receive-Got_example :
    (r : ℤ) × (c' : Caller) × (n : ℕ) × (receive false part pause 64 fresh 5 ≡ ok (r, c', n))
    × Got 64 r
receive-Got_example =
    receive-Got false part pause 64 fresh 5
      (λ got want c n. (
        pos (if leb n want then n else want),
        c,
        (if leb n want then 0 else n - want),
        refl,
        part-Got want n,
      ))
      (λ c n. (pos 0, c, n + 3, refl)) (ground arith)

-- A call that returns 8 and leaves 11 in errno.
abbrev eight : Function ℕ
eight c n = ok (pos 8, record c { errno = pos 11 }, n)

interposed-transparent_example :
    interposed false false both_on false
      (run_entry false (crosses int_ret) (plain_call eight))
      pause
      (at app (pos 3))
      0
    ≡ ok (narrow int_ret (pos 8), at app (pos 11), 0)
interposed-transparent_example =
    interposed-transparent false false both_on false int_ret eight pause (pos 3) (pos 8) (pos 11) 0
      0 refl refl
