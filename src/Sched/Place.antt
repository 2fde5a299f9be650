-- ===== src/Sched/Place.antt =====
-- An element `p` behind another one, `k`, of a list, and of the chain of a run queue.
use min_smt.Prelude.{
  ◌≡◌, ◌≢◌, true, false, List, [], ◌∷◌, arith, ◌==◌, ◌||◌, if◌then◌else◌, has, length, Distinct,
  Bool-cases, ◌⊎◌, inl, inr, ℕ, suc, eq_of_==, subst, sym, ◌∙◌,
}
use min_smt.RunQueue.{Ptr, null, Heap}
use min_smt.RunQueue.Chain.{Linked, last, has-last, first-ne-null}

-- The list with `p` behind `k`.
abbrev pub placed : (k p : ℕ) → List ℕ → List ℕ
placed k p [] = []
placed k p (a ∷ r) = if a == k then a ∷ p ∷ r else a ∷ placed k p r

pub length-placed : (k p : ℕ) (l : List ℕ) → has k l ≡ true → length (placed k p l) ≡ suc (length l)
length-placed k p [] m = ground (arith, m)
length-placed k p (a ∷ r) m = ground (arith, length-placed k p r, m)

pub has-placed :
    (j k p : ℕ) (l : List ℕ) → has k l ≡ true → has j (placed k p l) ≡ (has j l || (j == p))
has-placed j k p [] m = ground (arith, m)
has-placed j k p (a ∷ r) m = ground (arith, has-placed j k p r, m)

pub placed-Distinct :
    (k p : ℕ) (l : List ℕ) → has k l ≡ true → has p l ≡ false → Distinct l → Distinct (placed k p l)
placed-Distinct k p [] m out d = tt
placed-Distinct k p (a ∷ r) m out d = elim (Bool-cases (a == k)) [
  | inl e ↦ ground (arith, e, d, out)
  | inr e ↦
      let rest = placed-Distinct k p r (ground (arith, m, e)) (ground (arith, out)) d.1 in
      ground (arith, e, d, out, rest, has-placed a k p r, m)
]

last-cons : (a k p b : ℕ) (r : List ℕ) → last (a ∷ placed k p (b ∷ r)) ≡ last (placed k p (b ∷ r))
last-cons a k p b r = ground arith

-- The last element is `p` if `k` was the last one.
pub last-placed :
    (k p a : ℕ) (r : List ℕ)
    → has k (a ∷ r) ≡ true
    → Distinct (a ∷ r)
    → last (placed k p (a ∷ r)) ≡ (if k == last (a ∷ r) then p else last (a ∷ r))
last-placed k p a [] m d = ground (arith, m)
last-placed k p a (b ∷ r) m d = elim (Bool-cases (a == k)) [
  | inl e ↦ ground (arith, e, d, has-last b r)
  | inr e ↦ ground (arith, e, last-cons a k p b r, last-placed k p b r (ground (arith, m, e)) d.1)
]

-- The successor of an element is further back, or there is none.
pub successor :
    (h : Heap) (k a : Ptr) (ps : List Ptr)
    → Linked h (a ∷ ps)
    → has k (a ∷ ps) ≡ true
    → ((h k).next ≡ null) ⊎ (has (h k).next ps ≡ true)
successor h k a [] l m = ground (arith, l, m)
successor h k a (b ∷ ps) l m = elim (Bool-cases (k == a)) [
  | inl e ↦ ground (arith, l, e)
  | inr e ↦ ground (arith, successor h k b ps l.4 (ground (arith, m, e)))
]

-- So the element at the head is no successor.
not-successor :
    (h : Heap) (k a : Ptr) (ps : List Ptr)
    → Linked h (a ∷ ps)
    → Distinct (a ∷ ps)
    → has k (a ∷ ps) ≡ true
    → (a == (h k).next) ≡ false
not-successor h k a ps l d m = ground (arith, successor h k a ps l m, first-ne-null h a ps l, d)

-- A chain whose head may have another predecessor.
Linked-behind :
    (h g : Heap) (a : Ptr) (ps : List Ptr)
    → ((j : Ptr) → has j (a ∷ ps) ≡ true → ((g j).next ≡ (h j).next) × ((g j).live ≡ (h j).live))
    → ((j : Ptr) → has j ps ≡ true → (g j).prev ≡ (h j).prev)
    → Linked h (a ∷ ps)
    → Linked g (a ∷ ps)
Linked-behind h g a [] next prev l = ground (arith, next a, l)
Linked-behind h g a (b ∷ ps) next prev l =
    let rest =
      Linked-behind h g b ps (λ j m. next j (ground (arith, m))) (λ j m. prev j (ground (arith, m)))
        l.4 in
    ground (arith, next a, prev b, l, rest)

-- The heap `g` differs from `h` in the links of `p` behind `k`.
pub record IsLinkedIn (h g : Heap) (k p : Ptr) : Type 0 where
  pub next : (j : Ptr) → (j == k) ≡ false → (j == p) ≡ false → (g j).next ≡ (h j).next
  pub live : (j : Ptr) → (j == p) ≡ false → (g j).live ≡ (h j).live
  pub prev : (j : Ptr) → (j == (h k).next) ≡ false → (j == p) ≡ false → (g j).prev ≡ (h j).prev
  pub forth : (g k).next ≡ p
  pub back : (g p).prev ≡ k
  pub on : (g p).next ≡ (h k).next
  pub next_back : (h k).next ≢ null → (g (h k).next).prev ≡ p
  pub there : (g p).live ≡ true
  pub proper : p ≢ null

-- `p` behind the head.
Linked-here :
    (h g : Heap) (p a b : Ptr) (ps : List Ptr)
    → IsLinkedIn h g a p
    → Linked h (a ∷ b ∷ ps)
    → Distinct (a ∷ b ∷ ps)
    → has p (a ∷ b ∷ ps) ≡ false
    → Linked g (a ∷ p ∷ b ∷ ps)
Linked-here h g p a b ps i l d out =
    let rest =
      Linked-behind h g b ps
        (λ j n. (
          i.next j (ground (arith, d, n)) (ground (arith, out, n)),
          i.live j (ground (arith, out, n)),
        ))
        (λ j n. i.prev j (ground (arith, d, l, n)) (ground (arith, out, n))) l.4 in
    let comes_back =
      subst (λ z. z ≢ null → (g z).prev ≡ p) l.2 i.next_back (first-ne-null h b ps l.4) in
    (
      l.0,
      i.live a (ground (arith, out)) ∙ l.1,
      i.forth,
      i.back,
      (i.proper, i.there, i.on ∙ l.2, comes_back, rest),
    )

-- A head before the place of `p`.
Linked-further :
    (h g : Heap) (k p a b : Ptr) (ps qs : List Ptr)
    → IsLinkedIn h g k p
    → Linked h (a ∷ b ∷ ps)
    → (a == k) ≡ false
    → (a == p) ≡ false
    → (b == p) ≡ false
    → (b == (h k).next) ≡ false
    → Linked g (b ∷ qs)
    → Linked g (a ∷ b ∷ qs)
Linked-further h g k p a b ps qs i l e f n apart rest =
    (l.0, i.live a f ∙ l.1, i.next a e f ∙ l.2, i.prev b apart n ∙ l.3, rest)

-- The list behind the head, once `p` is placed.
abbrev rest_placed : (k p a : ℕ) → List ℕ → List ℕ
rest_placed k p a r = if a == k then p ∷ r else placed k p r

placed-cons : (k p a : ℕ) (r : List ℕ) → placed k p (a ∷ r) ≡ a ∷ rest_placed k p a r
placed-cons k p a r = ground arith

pub placed-Linked :
    (h g : Heap) (k p a : Ptr) (ps : List Ptr)
    → IsLinkedIn h g k p
    → Linked h (a ∷ ps)
    → Distinct (a ∷ ps)
    → has k (a ∷ ps) ≡ true
    → has p (a ∷ ps) ≡ false
    → Linked g (placed k p (a ∷ ps))
placed-Linked h g k p a [] i l d m out =
    ground (arith, m, l, i.live a, i.forth, i.back, i.on, i.there, i.proper)
placed-Linked h g k p a (b ∷ ps) i l d m out = elim (Bool-cases (a == k)) [
  | inl e ↦
      rw e (
        Linked-here h g p a b ps (subst (λ z. IsLinkedIn h g z p) (sym (eq_of_== a k e)) i) l d out)
  | inr e ↦
      let inside : has k (b ∷ ps) ≡ true = ground (arith, m, e) in
      let rest =
        subst (Linked g) (placed-cons k p b ps)
          (placed-Linked h g k p b ps i l.4 d.1 inside (ground (arith, out))) in
      let all =
        Linked-further h g k p a b ps (rest_placed k p b ps) i l e (ground (arith, out))
          (ground (arith, out)) (not-successor h k b ps l.4 d.1 inside) rest in
      rw e (subst (λ z. Linked g (a ∷ z)) (sym (placed-cons k p b ps)) all)
]
