-- ===== src/RunQueue/Chain.antt =====
-- What a run queue of include/tern/runtime/run-queue.h stands for: the list of the addresses of
-- its elements, from the head to the tail.
use min_smt.Prelude.{
  ◌<◌, ◌≡◌, ◌≢◌, true, false, List, [], ◌∷◌, ◌++◌, arith, ◌==◌, has, length, Distinct, Bool-cases,
  eq_of_==, ==_of_ne, subst, sym, ◌∙◌, inl, inr,
}
use min_smt.RunQueue.{Ptr, null, Heap, Runq, size_mod}

abbrev pub first : List Ptr → Ptr
first [] = null
first (a ∷ ps) = a

abbrev pub last : List Ptr → Ptr
last [] = null
last (a ∷ []) = a
last (a ∷ b ∷ ps) = last (b ∷ ps)

-- The `next` pointers lead along the list to NULL, and the `prev` pointers lead back, but for the
-- head's: `pop_front` leaves the `prev` of the new head as it was.
abbrev pub Linked : Heap → List Ptr → Type 0
Linked h [] = Unit {0}
Linked h (a ∷ []) = (a ≢ null) × ((h a).live ≡ true) × ((h a).next ≡ null)
Linked h (a ∷ b ∷ ps) =
    (a ≢ null) × ((h a).live ≡ true) × ((h a).next ≡ b) × ((h b).prev ≡ a) × Linked h (b ∷ ps)

-- Elements off the list have no neighbours.
abbrev pub Detached : Heap → List Ptr → Type 0
Detached h ps = (p : Ptr) → has p ps ≡ false → ((h p).prev ≡ null) × ((h p).next ≡ null)

pub record Holds (q : Runq) (ps : List Ptr) : Type 0 where
  pub linked : Linked q.heap ps
  pub distinct : Distinct ps
  pub at_head : q.head ≡ first ps
  pub at_tail : q.tail ≡ last ps
  pub count : q.num_elements ≡ length ps
  pub fits : length ps < size_mod
  pub detached : Detached q.heap ps

-- A chain survives a change of the heap that keeps the links of its own elements.
pub Linked-frame :
    (h g : Heap) (ps : List Ptr)
    → ((p : Ptr) → has p ps ≡ true → g p ≡ h p)
    → Linked h ps
    → Linked g ps
Linked-frame h g [] same l = tt
Linked-frame h g (a ∷ []) same l = ground (arith, same a)
Linked-frame h g (a ∷ b ∷ ps) same l =
    let rest = Linked-frame h g (b ∷ ps) (λ p m. ground (arith, same p, m)) l.4 in
    ground (arith, same a, same b, rest)

-- The last element is one of the list.
pub has-last : (a : Ptr) (ps : List Ptr) → has (last (a ∷ ps)) (a ∷ ps) ≡ true
has-last a [] = ground arith
has-last a (b ∷ ps) = ground (arith, has-last b ps)

-- The parts of a chain that a new last element `p` needs: `g` differs from `h` at the old last
-- element, which now leads to `p`, and at `p`.
pub Linked-snoc :
    (h g : Heap) (p : Ptr) (ps : List Ptr)
    → ((j : Ptr) → (j == p) ≡ false → (j == last ps) ≡ false → g j ≡ h j)
    → (g (last ps)).next ≡ p
    → (g (last ps)).prev ≡ (h (last ps)).prev
    → (g (last ps)).live ≡ true
    → p ≢ null
    → (g p).live ≡ true
    → (g p).next ≡ null
    → (g p).prev ≡ last ps
    → Distinct ps
    → has p ps ≡ false
    → Linked h ps
    → Linked g (ps ++ p ∷ [])
Linked-snoc h g p [] same n pr lv ne l nx pv d out c = (ne, l, nx)
Linked-snoc h g p (a ∷ []) same n pr lv ne l nx pv d out c = (c.0, lv, n, pv, (ne, l, nx))
Linked-snoc h g p (a ∷ b ∷ ps) same n pr lv ne l nx pv d out c =
    let rest = Linked-snoc h g p (b ∷ ps) same n pr lv ne l nx pv d.1 (ground arith) c.4 in
    let here : g a ≡ h a =
      same a (ground arith) (
        ==_of_ne _ _ (λ e. cc (subst (λ j. has j (b ∷ ps) ≡ true) (sym e) (has-last b ps), d.0))) in
    let back : (g b).prev ≡ a = elim (Bool-cases (b == last (b ∷ ps))) [
      | inl e ↦ subst (λ j. (g j).prev ≡ (h j).prev) (sym (eq_of_== _ _ e)) pr ∙ c.3
      | inr e ↦ ground (arith, same b)
    ] in
    (c.0, ground arith, ground arith, back, rest)

pub first-ne-null : (h : Heap) (a : Ptr) (ps : List Ptr) → Linked h (a ∷ ps) → a ≢ null
first-ne-null h a [] l = l.0
first-ne-null h a (b ∷ ps) l = l.0
