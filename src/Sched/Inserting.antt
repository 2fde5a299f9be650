-- ===== src/Sched/Inserting.antt =====
-- `insert_yield` of include/tern/runtime/run-queue.h on its pointers, against the operation on lists
-- that the scheduler's model uses.
use min_smt.Prelude.{
  ℕ, zero, suc, ◌+◌, ◌≤◌, ◌<◌, ◌≡◌, ◌≢◌, ◌⊎◌, inl, inr, refl, Bool, true, false, not, ◌||◌, List,
  [], ◌∷◌, arith, ltb, ◌==◌, if◌then◌else◌, has, length, Distinct, Bool-cases, subst, sym, ◌∙◌, ok,
  update,
}
use min_smt.RunQueue.{Ptr, null, Heap, Runq, seek, inc, insert_yield, size_mod}
use min_smt.RunQueue.Chain.{Holds, Linked, Linked-frame}
use min_smt.RunQueue.Yield.{Linked-inside, behind, inserted, insert_yield-behind, marked}
use min_smt.Sched.{yield_place}
use min_smt.Sched.Place.{
  placed, length-placed, has-placed, placed-Distinct, last-placed, successor, IsLinkedIn,
  placed-Linked,
}

-- The yield marks in a heap.
abbrev pub marks : Heap → Ptr → Bool
marks h j = (h j).last_yield

-- The walk over the pointers stops at the element behind which the walk over the list inserts.
seek-yield_place :
    (fuel : ℕ) (h : Heap) (y p a : ℕ) (ps : List Ptr) (count : ℕ) (found : Bool)
    → Linked h (a ∷ ps)
    → Distinct (a ∷ ps)
    → length (a ∷ ps) ≤ fuel
    → (k : Ptr) × (seek fuel h y a count found ≡ ok k)
      × (has k (a ∷ ps) ≡ true)
      × (yield_place (marks h) y count found p a ps ≡ placed k p (a ∷ ps))
unfolding seek yield_place
seek-yield_place zero h y p a ps count found l d f = absurd (omega arith)
seek-yield_place (suc fuel) h y p a [] count found l d f =
    (a, ground (arith, l), ground arith, ground arith)
seek-yield_place (suc fuel) h y p a (b ∷ ps) count found l d f =
    let (k, r, m, q) =
      seek-yield_place fuel h y p b ps (if marks h b then count + 1 else count)
        (if marks h b then found else true) l.4 d.1 (omega arith) in
    let next = Linked-inside h b b ps l.4 (ground arith) in
    let apart : (a == k) ≡ false = ground (arith, d, m) in
    elim (Bool-cases (ltb count y || not found)) [
      | inl e ↦ (k, ground (arith, l, e, r, next), ground (arith, m), rw (e, q, apart) refl)
      | inr e ↦ (a, ground (arith, l, e, next), ground arith, rw e (ground arith))
    ]

-- The writes of `insert_yield` link `p` in behind `k`.
behind-IsLinkedIn :
    (h : Heap) (k p : Ptr)
    → (k == p) ≡ false
    → ((h k).next == p) ≡ false
    → ((h k).next == k) ≡ false
    → (h p).live ≡ true
    → p ≢ null
    → IsLinkedIn h (behind h p k) k p
behind-IsLinkedIn h k p kp np nk lv ne = record {
  next = λ j e f. ground arith;
  live = λ j f. ground arith;
  prev = λ j e f. ground arith;
  forth = ground arith;
  back = ground arith;
  on = ground arith;
  next_back = λ n. ground arith;
  there = ground arith;
  proper = ne;
}

behind-elsewhere :
    (h : Heap) (k p j : Ptr)
    → (j == k) ≡ false
    → (j == p) ≡ false
    → ((h k).next ≡ null) ⊎ ((j == (h k).next) ≡ false)
    → behind h p k j ≡ h j
behind-elsewhere h k p j jk jp (inl e) = ground arith
behind-elsewhere h k p j jk jp (inr e) = ground arith

-- The queue that `insert_yield` leaves, once the walk has stopped at `k`.
inserted-Holds :
    (t : ℕ) (q : Runq) (a : Ptr) (ps : List Ptr) (k : Ptr)
    → Holds q (a ∷ ps)
    → q.tid_map t ≢ null
    → (q.heap (q.tid_map t)).live ≡ true
    → has (q.tid_map t) (a ∷ ps) ≡ false
    → suc (length (a ∷ ps)) < size_mod
    → has k (a ∷ ps) ≡ true
    → Holds
        (inserted t q k (behind (marked (q.tid_map t) q.heap) (q.tid_map t) k))
        (placed k (q.tid_map t) (a ∷ ps))
inserted-Holds t q a ps k v ne l out room m =
    let p = q.tid_map t in
    let h : Heap = marked p q.heap in
    let c = Linked-frame q.heap h (a ∷ ps) (λ j n. ground (arith, out, n)) v.linked in
    let s = successor h k a ps c m in
    let i =
      behind-IsLinkedIn h k p (ground (arith, out, m)) (ground (arith, s, out, ne))
        (self h k a ps c v.distinct m) (ground (arith, l)) ne in
    record {
      linked = placed-Linked h (behind h p k) k p a ps i c v.distinct m out;
      distinct = placed-Distinct k p (a ∷ ps) m out v.distinct;
      at_head = ground (arith, v.at_head);
      at_tail = ground (arith, v.at_tail, last-placed k p a ps m v.distinct);
      count = ground (arith, v.count, length-placed k p (a ∷ ps) m);
      fits = omega (arith, length-placed k p (a ∷ ps) m);
      detached = λ j n.
          let off : (has j (a ∷ ps) || (j == p)) ≡ false = sym (has-placed j k p (a ∷ ps) m) ∙ n in
          rw
            (behind-elsewhere h k p j (ground (arith, off, m)) (ground (arith, off))
              (ground (arith, off, s)))
            (ground (arith, off, v.detached j));
    }
  where
    self :
        (h : Heap) (k a : Ptr) (ps : List Ptr)
        → Linked h (a ∷ ps)
        → Distinct (a ∷ ps)
        → has k (a ∷ ps) ≡ true
        → ((h k).next == k) ≡ false
    self h k a [] l d m = ground (arith, l, m)
    self h k a (b ∷ ps) l d m = elim (Bool-cases (k == a)) [
      | inl e ↦ ground (arith, e, l, d)
      | inr e ↦ self h k b ps l.4 d.1 (ground (arith, m, e))
    ]

-- The links apart, the writes of `insert_yield` keep every element.
behind-data :
    (h : Heap) (k p j : Ptr)
    → ((behind h p k j).tid ≡ (h j).tid)
      × ((behind h p k j).status ≡ (h j).status)
      × ((behind h p k j).last_yield ≡ (h j).last_yield)
behind-data h k p j = ground arith

marked-marks : (p : Ptr) (h : Heap) (j : Ptr) → marks (marked p h) j ≡ update (marks h) p true j
marked-marks p h j = ground arith

marked-data :
    (p : Ptr) (h : Heap) (j : Ptr)
    → ((marked p h j).tid ≡ (h j).tid) × ((marked p h j).status ≡ (h j).status)
marked-data p h j = ground arith

-- `insert_yield` of a thread with an element that is not in the queue, on a queue that stands for
-- the list `a ∷ ps`, with room for one more: it returns, and the queue stands for the list that the
-- scheduler's model makes by the yield marks and their count, the pointers consistent in both
-- directions. The element is marked, one more yielded thread is counted, and every element keeps
-- its id, its status and, but for the new one, its mark.
pub insert_yield-Holds :
    (t : ℕ) (q : Runq) (a : Ptr) (ps : List Ptr)
    → Holds q (a ∷ ps)
    → q.tid_map t ≢ null
    → (q.heap (q.tid_map t)).live ≡ true
    → has (q.tid_map t) (a ∷ ps) ≡ false
    → suc (length (a ∷ ps)) < size_mod
    → (q' : Runq) × (insert_yield t q ≡ ok q')
      × Holds q' (
          yield_place
            (update (marks q.heap) (q.tid_map t) true)
            q.num_yield_elem
            (if marks q.heap a then 1 else 0)
            (not (marks q.heap a))
            (q.tid_map t)
            a
            ps)
      × (q'.tid_map ≡ q.tid_map)
      × (q'.num_yield_elem ≡ inc q.num_yield_elem)
      × ((j : Ptr) → marks q'.heap j ≡ update (marks q.heap) (q.tid_map t) true j)
      × ((j : Ptr) → ((q'.heap j).tid ≡ (q.heap j).tid) × ((q'.heap j).status ≡ (q.heap j).status))
insert_yield-Holds t q a ps v ne l out room =
    let p = q.tid_map t in
    let h : Heap = marked p q.heap in
    let c = Linked-frame q.heap h (a ∷ ps) (λ j n. ground (arith, out, n)) v.linked in
    let (k, r, m, e) =
      seek-yield_place (suc q.num_elements) h q.num_yield_elem p a ps (if marks h a then 1 else 0)
        (not (marks h a)) c v.distinct (omega (arith, v.count)) in
    let same : marks h ≡ update (marks q.heap) p true = λ x j. marked-marks p q.heap j x in
    let head : marks h a ≡ marks q.heap a = ground (arith, out) in
    let walked =
      subst
        (λ z.
          yield_place (update (marks q.heap) p true) q.num_yield_elem (if z then 1 else 0) (not z) p
            a ps
          ≡ placed k p (a ∷ ps))
        head
        (subst
          (λ f.
            yield_place f q.num_yield_elem (if marks h a then 1 else 0) (not (marks h a)) p a ps
            ≡ placed k p (a ∷ ps))
          same e) in
    (
      inserted t q k (behind h p k),
      insert_yield-behind t q a ps k v ne l out r m,
      subst (Holds (inserted t q k (behind h p k))) (sym walked)
          (inserted-Holds t q a ps k v ne l out room m),
      refl,
      refl,
      λ j. (behind-data h k p j).2 ∙ marked-marks p q.heap j,
      λ j. (
        (behind-data h k p j).0 ∙ (marked-data p q.heap j).0,
        (behind-data h k p j).1 ∙ (marked-data p q.heap j).1,
      ),
    )
