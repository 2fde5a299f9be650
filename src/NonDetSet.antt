-- ===== src/NonDetSet.antt =====
-- include/tern/runtime/non-det-thread-set.h: the threads in non-deterministic regions, in the order
-- in which they entered, each with the logical clock at its entry. DEBUG_NON_DET_THREAD_SET is
-- defined in that header, so ASSERT2 is `assert`. The `unordered_map` is an association list.
pub mod Laws
use min_smt.Prelude.{
  ℕ, Bool, true, false, Option, none, some, List, [], ◌∷◌, ◌++◌, ◌||◌, not, ltb, ◌==◌,
  if◌then◌else◌, length, has, is_empty, erase, Result, ok, err, bad_pointer, assert, ◌>>=◌, ◌>>◌,
}

abbrev pub Clocks : Type 0
Clocks = List (ℕ × ℕ)

abbrev pub find : ℕ → Clocks → Option ℕ
find t [] = none
find t ((k, v) ∷ m) = if t == k then some v else find t m

abbrev pub drop_key : ℕ → Clocks → Clocks
drop_key t [] = []
drop_key t ((k, v) ∷ m) = if t == k then m else (k, v) ∷ drop_key t m

-- `m[t] = v`.
abbrev pub put : ℕ → ℕ → Clocks → Clocks
put t c [] = (t, c) ∷ []
put t c ((k, v) ∷ m) = if t == k then (k, c) ∷ m else (k, v) ∷ put t c m

pub record NonDetSet : Type 0 where
  pub tid_list : List ℕ
  pub clocks : Clocks

abbrev pub empty_set : NonDetSet
empty_set = record { tid_list = []; clocks = [] }

abbrev pub found : Option ℕ → Bool
found none = false
found (some c) = true

-- `in`.
unfoldable pub contains : ℕ → NonDetSet → Bool
contains t s = if found (find t s.clocks) then true else has t s.tid_list

unfoldable pub insert : (ndebug : Bool) → ℕ → (clock : ℕ) → NonDetSet → Result NonDetSet
unfolding contains
insert nd t clock s = do
  assert nd (not (contains t s))
  assert nd (not (found (find t s.clocks)))
  ok (record { tid_list = s.tid_list ++ t ∷ []; clocks = put t clock s.clocks })

unfoldable pub remove : (ndebug : Bool) → ℕ → NonDetSet → Result NonDetSet
remove nd t s =
    if has t s.tid_list
    then ok (record { tid_list = erase t s.tid_list; clocks = drop_key t s.clocks })
    else (assert nd false >> ok s)

unfoldable pub size : (ndebug : Bool) → NonDetSet → Result ℕ
size nd s = assert nd (length s.tid_list == length s.clocks) >> ok (length s.tid_list)

-- `first_thread`.
unfoldable pub first_thread : (ndebug : Bool) → NonDetSet → Result ℕ
unfolding size
first_thread nd s = do
  n ← size nd s
  assert nd (ltb 0 n)
  elim s.tid_list [ [] ↦ err bad_pointer | t ∷ ts ↦ ok t ]

-- `get_clock`; where the assertion is compiled out, a missing key is entered with 0.
unfoldable pub get_clock : (ndebug : Bool) → ℕ → NonDetSet → Result (ℕ × NonDetSet)
get_clock nd t s = do
  assert nd (found (find t s.clocks))
  ok (elim (find t s.clocks) [
    | none ↦ (0, record s { clocks = put t 0 s.clocks })
    | some c ↦ (c, s)
  ])
