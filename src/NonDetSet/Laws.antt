-- ===== src/NonDetSet/Laws.antt =====
-- The list and the clocks of the set hold the same threads in the same order.
use min_smt.Prelude.{
  ℕ, suc, ◌≡◌, refl, Bool, true, false, some, List, [], ◌∷◌, ◌++◌, ap, sym, subst, ◌∙◌, arith,
  length, has, erase, Distinct, Distinct-snoc, ok,
}
use min_smt.NonDetSet.{
  NonDetSet, Clocks, find, drop_key, put, found, contains, insert, remove, size, get_clock,
}

abbrev pub keys : Clocks → List ℕ
keys [] = []
keys ((k, v) ∷ m) = k ∷ keys m

pub record IsValid (s : NonDetSet) : Type 0 where
  pub same : keys s.clocks ≡ s.tid_list
  pub distinct : Distinct s.tid_list

found-find : (t : ℕ) (m : Clocks) → found (find t m) ≡ has t (keys m)
found-find t [] = refl
found-find t ((k, v) ∷ m) = ground (arith, found-find t m)

keys-put : (t c : ℕ) (m : Clocks) → has t (keys m) ≡ false → keys (put t c m) ≡ keys m ++ t ∷ []
keys-put t c [] h = refl
keys-put t c ((k, v) ∷ m) h = ground (arith, keys-put t c m)

find-put : (t c : ℕ) (m : Clocks) → find t (put t c m) ≡ some c
find-put t c [] = ground arith
find-put t c ((k, v) ∷ m) = ground (arith, find-put t c m)

keys-drop_key : (t : ℕ) (m : Clocks) → keys (drop_key t m) ≡ erase t (keys m)
keys-drop_key t [] = refl
keys-drop_key t ((k, v) ∷ m) = ground (arith, keys-drop_key t m)

length-keys : (m : Clocks) → length (keys m) ≡ length m
length-keys [] = refl
length-keys ((k, v) ∷ m) = ap suc (length-keys m)

erase-Distinct :
    (t : ℕ) (xs : List ℕ)
    → Distinct xs
    → Distinct (erase t xs)
      × (has t (erase t xs) ≡ false)
      × ((a : ℕ) → has a xs ≡ false → has a (erase t xs) ≡ false)
erase-Distinct t [] d = (tt, refl, λ a h. refl)
erase-Distinct t (x ∷ xs) d =
    let ih = erase-Distinct t xs d.1 in
    (ground (arith, ih.0, ih.2 x d.0), ground (arith, ih.1), λ a h. ground (arith, ih.2 a))

-- A thread that is not in a valid set goes to its end, with its clock, and no assertion fails.
pub insert-IsValid :
    (nd : Bool) (t clock : ℕ) (s : NonDetSet)
    → IsValid s
    → has t s.tid_list ≡ false
    → (s' : NonDetSet) × (insert nd t clock s ≡ ok s')
      × IsValid s'
      × (s'.tid_list ≡ s.tid_list ++ t ∷ [])
      × (get_clock nd t s' ≡ ok (clock, s'))
      × (contains t s' ≡ true)
unfolding insert get_clock contains
insert-IsValid nd t clock s v out = (
  record { tid_list = s.tid_list ++ t ∷ []; clocks = put t clock s.clocks },
  ground (arith, found-find t s.clocks, v.same),
  record {
    same =
        keys-put t clock s.clocks (subst (λ l. has t l ≡ false) (sym v.same) out)
        ∙ ap (λ l. l ++ t ∷ []) v.same;
    distinct = Distinct-snoc t s.tid_list v.distinct out;
  },
  refl,
  ground (arith, find-put t clock s.clocks),
  ground (arith, find-put t clock s.clocks),
)

-- A thread of a valid set is taken out of its list and of its clocks, and the set stays valid: the
-- size that the code computes passes its assertion.
remove-IsValid :
    (nd : Bool) (t : ℕ) (s : NonDetSet)
    → IsValid s
    → has t s.tid_list ≡ true
    → (s' : NonDetSet) × (remove nd t s ≡ ok s')
      × IsValid s'
      × (contains t s' ≡ false)
      × (size nd s' ≡ ok (length s'.tid_list))
unfolding remove contains size
remove-IsValid nd t s v m = (
  record { tid_list = erase t s.tid_list; clocks = drop_key t s.clocks },
  ground arith,
  record { same = kept; distinct = (erase-Distinct t s.tid_list v.distinct).0 },
  ground
      (arith, found-find t (drop_key t s.clocks), kept, (erase-Distinct t s.tid_list v.distinct).1),
  ground (arith, length-keys (drop_key t s.clocks), ap (λ (l : List ℕ). length l) kept),
)
  where
    kept : keys (drop_key t s.clocks) ≡ erase t s.tid_list
    kept = keys-drop_key t s.clocks ∙ ap (erase t) v.same
