-- ===== src/Plain/Receive.antt =====
-- The loop of `__recv` of lib/runtime/runtime.cpp: with `options::non_block_recv` it calls `recv` until
-- the buffer is full, an error, or ten calls that got nothing.
use min_smt.Prelude.{
  ℕ, zero, suc, ◌+◌, ◌-◌, ◌<◌, ◌≤◌, ◌^◌, ◌≡◌, ◌⊎◌, inl, inr, refl, Bool, true, false, not, ◌&&◌,
  ltb, ◌==◌, if◌then◌else◌, arith, Result, ok, err, out_of_fuel, ◌>>=◌, Bool-cases, sym, ◌∙◌,
}
use min_smt.Prelude.Int.{ℤ, pos, negsuc, lt_ℤ}
use min_smt.Hooks.Space.{Caller, to_int}
use min_smt.Hooks.Interpose.{Function}

-- The bound on calls that get nothing.
abbrev pub max_tries : ℕ
max_tries = 10

-- The condition of the loop, which compares as `int`.
unfoldable pub goes_on : (len got tries : ℕ) → Bool
unfolding to_int
goes_on len got tries = lt_ℤ (to_int (pos got)) (to_int (pos len)) && ltb tries max_tries

-- The pause behind a call that got nothing.
unfoldable pub paused {ℓ} :
    {A : Type ℓ} → (nothing : Bool) → (pause : Function A) → Caller → A → Result (Caller × A)
paused false pause c a = ok (c, a)
paused true pause c a = do (ret, c1, a1) ← pause c a; ok (c1, a1)

-- The loop; `part got want` is the call of `recv` for `want` bytes behind the first `got`.
unfoldable pub receive_loop {ℓ} :
    {A : Type ℓ}
    → (fuel : ℕ) → (non_block : Bool) → (part : ℕ → ℕ → Function A) → (pause : Function A)
    → (len got tries : ℕ) → Function A
unfolding goes_on paused
receive_loop zero nb part pause len got tries c a = err out_of_fuel
receive_loop (suc fuel) nb part pause len got tries c a =
    if not (goes_on len got tries) then ok (pos got, c, a) else do
      (sr, c1, a1) ← part got (len - got) c a
      elim sr [
        | negsuc n ↦ ok (if got == 0 then negsuc 0 else pos got, c1, a1)
        | pos n ↦ elim nb [
          | false ↦ ok (pos (got + n), c1, a1)
          | true ↦ (do
            (c2, a2) ← paused (n == 0) pause c1 a1
            receive_loop fuel true part pause len (got + n) (if n == 0 then tries + 1 else tries) c2
                a2)
        ]
      ]

-- `__recv` between the two assignments of `errno`, with fuel for every byte and every try.
unfoldable pub receive {ℓ} :
    {A : Type ℓ}
    → (non_block : Bool) → (part : ℕ → ℕ → Function A) → (pause : Function A) → (len : ℕ)
    → Function A
unfolding receive_loop
receive nb part pause len c a = receive_loop (suc (len + max_tries)) nb part pause len 0 0 c a

-- What a call of `recv` for `want` bytes returns: -1, or at most `want`.
pub record Got (want : ℕ) (r : ℤ) : Type 0 where
  pub got : (r ≡ negsuc 0) ⊎ ((n : ℕ) × (r ≡ pos n) × (n ≤ want))

-- The calls in the loop return.
abbrev pub Answers {ℓ} : {A : Type ℓ} → (ℕ → ℕ → Function A) → Type ℓ
Answers {A} part =
    (got want : ℕ) (c : Caller) (a : A)
    → (r : ℤ) × (c' : Caller) × (a' : A) × (part got want c a ≡ ok (r, c', a')) × Got want r

abbrev pub Comes {ℓ} : {A : Type ℓ} → Function A → Type ℓ
Comes {A} f = (c : Caller) (a : A) → (r : ℤ) × (c' : Caller) × (a' : A) × (f c a ≡ ok (r, c', a'))

goes_on-bounds :
    (len got tries : ℕ)
    → len < 2 ^ 31
    → got ≤ len
    → goes_on len got tries ≡ (ltb got len && ltb tries max_tries)
unfolding goes_on to_int
goes_on-bounds len got tries small le = ground arith

paused-Comes {ℓ} :
    {A : Type ℓ} (b : Bool) (pause : Function A) (c : Caller) (a : A)
    → Comes pause
    → (c' : Caller) × (a' : A) × (paused b pause c a ≡ ok (c', a'))
unfolding paused
paused-Comes false pause c a h = (c, a, refl)
paused-Comes true pause c a h = let (r, c', a', q) = h c a in (c', a', rw q refl)

-- With so much fuel the loop returns.
abbrev Ends {ℓ} :
    {A : Type ℓ} → (fuel : ℕ) → (nb : Bool) → (ℕ → ℕ → Function A) → Function A → (len : ℕ) → Type ℓ
Ends {A} fuel nb part pause len =
    (got tries : ℕ) (c : Caller) (a : A)
    → got ≤ len
    → (len - got) + (max_tries - tries) < fuel
    → (r : ℤ) × (c' : Caller) × (a' : A) × (receive_loop fuel nb part pause len got tries c a
        ≡ ok (r, c', a'))
      × Got len r

-- A round, once `recv` has answered.
answered-Got {ℓ} :
    {A : Type ℓ} (fuel : ℕ) (nb : Bool) (part : ℕ → ℕ → Function A) (pause : Function A)
    (len got tries : ℕ) (c : Caller) (a : A) (r : ℤ) (c1 : Caller) (a1 : A)
    → Ends fuel true part pause len
    → Comes pause
    → got ≤ len
    → (len - got) + (max_tries - tries) < suc fuel
    → goes_on len got tries ≡ true
    → (ltb got len && ltb tries max_tries) ≡ true
    → part got (len - got) c a ≡ ok (r, c1, a1)
    → (r ≡ negsuc 0) ⊎ ((n : ℕ) × (r ≡ pos n) × (n ≤ len - got))
    → (r' : ℤ) × (c' : Caller) × (a' : A) × (receive_loop (suc fuel) nb part pause len got tries c a
        ≡ ok (r', c', a'))
      × Got len r'
unfolding receive_loop
answered-Got fuel nb part pause len got tries c a r c1 a1 ih k le f on more q (inl e) = (
  (if got == 0 then negsuc 0 else pos got),
  c1,
  a1,
  rw (on, q, e) refl,
  elim (Bool-cases (got == 0)) [
    | inl z ↦ record { got = inl (rw z refl) }
    | inr z ↦ record { got = inr (got, rw z refl, le) }
  ],
)
answered-Got fuel false part pause len got tries c a r c1 a1 ih k le f on more q (inr (n, e, b)) =
    (pos (got + n), c1, a1, rw (on, q, e) refl, record { got = inr (got + n, refl, omega arith) })
answered-Got fuel true part pause len got tries c a r c1 a1 ih k le f on more q (inr (n, e, b)) =
    let (c2, a2, p) = paused-Comes (n == 0) pause c1 a1 k in
    let (r', c', a', w, g) =
      ih (got + n) (if n == 0 then tries + 1 else tries) c2 a2 (omega arith)
        (ground (arith, more, b, f)) in
    (r', c', a', rw (on, q, e, p) w, g)

receive_loop-Ends {ℓ} :
    {A : Type ℓ} (fuel : ℕ) (nb : Bool) (part : ℕ → ℕ → Function A) (pause : Function A) (len : ℕ)
    → Answers part
    → Comes pause
    → len < 2 ^ 31
    → Ends fuel nb part pause len
unfolding receive_loop
receive_loop-Ends zero nb part pause len h k small got tries c a le f = absurd (omega arith)
receive_loop-Ends (suc fuel) nb part pause len h k small got tries c a le f =
    elim (Bool-cases (goes_on len got tries)) [
      | inr off ↦ (pos got, c, a, rw off refl, record { got = inr (got, refl, le) })
      | inl on ↦
          let more = sym (goes_on-bounds len got tries small le) ∙ on in
          let (r, c1, a1, q, g) = h got (len - got) c a in
          answered-Got fuel nb part pause len got tries c a r c1 a1
            (receive_loop-Ends fuel true part pause len h k small) k le f on more q g.got
    ]

-- The first round without `non_block_recv` is the last.
receive_loop-once {ℓ} :
    {A : Type ℓ} (fuel : ℕ) (part : ℕ → ℕ → Function A) (pause : Function A) (len : ℕ) (c : Caller)
    (a : A) (r : ℤ) (c' : Caller) (a' : A)
    → goes_on len 0 0 ≡ true
    → part 0 len c a ≡ ok (r, c', a')
    → (r ≡ negsuc 0) ⊎ ((n : ℕ) × (r ≡ pos n) × (n ≤ len))
    → receive_loop (suc fuel) false part pause len 0 0 c a ≡ ok (r, c', a')
unfolding receive_loop
receive_loop-once fuel part pause len c a r c' a' on q (inl e) =
    let all : len - 0 ≡ len = omega arith in rw (on, all, q, e) refl
receive_loop-once fuel part pause len c a r c' a' on q (inr (n, e, b)) =
    let all : len - 0 ≡ len = omega arith in
    let sum : 0 + n ≡ n = omega arith in rw (on, all, q, e, sum) refl

-- If `recv` returns -1 or at most as many bytes as it is asked for, and the pause returns, then
-- `__recv` for less than 2 ^ 31 bytes returns too, within the fuel that it gets, whatever the calls
-- answer, and its result is -1 or at most the length of the buffer.
pub receive-Got {ℓ} :
    {A : Type ℓ} (nb : Bool) (part : ℕ → ℕ → Function A) (pause : Function A) (len : ℕ) (c : Caller)
    (a : A)
    → Answers part
    → Comes pause
    → len < 2 ^ 31
    → (r : ℤ) × (c' : Caller) × (a' : A) × (receive nb part pause len c a ≡ ok (r, c', a'))
      × Got len r
unfolding receive
receive-Got nb part pause len c a h k small =
    receive_loop-Ends (suc (len + max_tries)) nb part pause len h k small 0 0 c a (omega arith)
      (omega arith)

-- Without `non_block_recv` a `__recv` for at least one and less than 2 ^ 31 bytes is one call of
-- `recv` for all of them: it returns what that call returns.
pub receive-blocking {ℓ} :
    {A : Type ℓ} (part : ℕ → ℕ → Function A) (pause : Function A) (len : ℕ) (c : Caller) (a : A)
    (r : ℤ) (c' : Caller) (a' : A)
    → 0 < len
    → len < 2 ^ 31
    → part 0 len c a ≡ ok (r, c', a')
    → Got len r
    → receive false part pause len c a ≡ ok (r, c', a')
unfolding receive
receive-blocking part pause len c a r c' a' some small q g =
    receive_loop-once (len + max_tries) part pause len c a r c' a'
      (goes_on-bounds len 0 0 small (omega arith) ∙ ground arith) q g.got
