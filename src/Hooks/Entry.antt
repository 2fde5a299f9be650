-- ===== src/Hooks/Entry.antt =====
-- The entry points of lib/runtime/hooks.cpp: each saves `errno`, enters the runtime's space, calls the
-- method of the runtime, and comes back.
use min_smt.Prelude.{ℕ, Bool, Option, none, some, if◌then◌else◌, Result, ok, assert, ◌>>=◌, ◌>>◌}
use min_smt.Prelude.Int.{ℤ, pos}
use min_smt.Hooks.Space.{Caller, enter_sys, exit_sys, is_sys, is_app, to_int, to_unsigned}

-- A method of the runtime on the state `A` of the process, by a thread that goes in with `error` and
-- comes out with its new value and with what the method returns. The method runs to its end: what
-- other threads do while it waits for a turn is part of it.
abbrev pub Call {ℓ} : Type ℓ → Type ℓ
Call A = (error : ℤ) → Caller → A → Result (ℤ × ℤ × Caller × A)

-- How an entry point keeps what the method returns: in an `int`, in an `unsigned`, in a pointer, or
-- not at all.
pub data Returned : Type 0 where
  int_ret unsigned_ret pointer_ret void_ret : Returned

unfoldable pub narrow : Returned → ℤ → ℤ
unfolding to_int to_unsigned
narrow int_ret a = to_int a
narrow unsigned_ret a = to_unsigned a
narrow pointer_ret a = a
narrow void_ret a = pos 0

-- The shapes of entry points: one that crosses and restores `errno`, one that only crosses, one that
-- only restores `errno`, and a plain call.
pub data Plan : Type 0 where
  crosses : Returned → Plan
  bare stays direct : Plan

unfoldable pub run_entry {ℓ} :
    {A : Type ℓ} → (ndebug : Bool) → Plan → Call A → Caller → A → Result (ℤ × Caller × A)
unfolding enter_sys exit_sys narrow
run_entry nd (crosses r) call c a = do
  c1 ← enter_sys nd c
  (error, ret, c2, a2) ← call c.errno c1 a
  c3 ← exit_sys nd c2
  ok (narrow r ret, record c3 { errno = error }, a2)
run_entry nd bare call c a = do
  c1 ← enter_sys nd c
  (error, ret, c2, a2) ← call c.errno c1 a
  c3 ← exit_sys nd c2
  ok (pos 0, c3, a2)
run_entry nd stays call c a = do
  (error, ret, c2, a2) ← call c.errno c a
  ok (pos 0, record c2 { errno = error }, a2)
run_entry nd direct call c a = do (error, ret, c2, a2) ← call c.errno c a; ok (pos 0, c2, a2)

-- `tern_thread_begin`: a thread begins in the runtime's space and ends up in the program's.
unfoldable pub thread_begin {ℓ} :
    {A : Type ℓ} → (ndebug : Bool) → Call A → Caller → A → Result (Caller × A)
unfolding exit_sys
thread_begin nd call c a = do
  assert nd (is_sys c)
  (error, ret, c1, a1) ← call c.errno c a
  c2 ← exit_sys nd c1
  let c3 = record c2 { errno = c.errno }
  assert nd (is_app c3)
  ok (c3, a1)

-- `tern_thread_end`: a thread ends in the runtime's space.
unfoldable pub thread_end {ℓ} :
    {A : Type ℓ} → (ndebug : Bool) → Call A → Caller → A → Result (Caller × A)
unfolding enter_sys
thread_end nd call c a = do
  assert nd (is_app c)
  c1 ← enter_sys nd c
  (error, ret, c2, a2) ← call c.errno c1 a
  let c3 = record c2 { errno = c.errno }
  assert nd (is_sys c3)
  ok (c3, a2)

-- `tern_prog_begin` and `tern_prog_end`, which stay in the runtime's space.
unfoldable pub prog_step {ℓ} :
    {A : Type ℓ} → (ndebug : Bool) → Call A → Caller → A → Result (Caller × A)
prog_step nd call c a = do
  assert nd (is_sys c)
  (error, ret, c1, a1) ← call c.errno c a
  assert nd (is_sys c1)
  ok (c1, a1)

-- The attributes with which `tern_pthread_mutex_init` calls the runtime; `errorcheck` stands for
-- attributes of the type PTHREAD_MUTEX_ERRORCHECK, and `none` is NULL.
unfoldable pub mutex_init_attr :
    (set_mutex_errorcheck : Bool) → (errorcheck : ℕ) → Option ℕ → Option ℕ
mutex_init_attr set errorcheck (some attr) = some attr
mutex_init_attr set errorcheck none = if set then some errorcheck else none

-- `tern_dummy_sync_real`.
unfoldable pub dummy_sync_entry {ℓ} :
    {A : Type ℓ} → (ndebug enforce : Bool) → Call A → Caller → A → Result (ℤ × Caller × A)
unfolding run_entry
dummy_sync_entry nd enforce call c a =
    if enforce then run_entry nd bare call c a else ok (pos 0, c, a)
