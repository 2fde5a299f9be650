-- ===== src/RunQueue/Yield.antt =====
-- `insert_yield` of include/tern/runtime/run-queue.h: on an empty queue, and its walk on others.
use min_smt.Prelude.{
  ℕ, zero, suc, ◌+◌, ◌-◌, ◌≤◌, ◌≡◌, ◌≢◌, ◌⊎◌, inl, inr, refl, Bool, true, false, not, ◌||◌, List,
  [], ◌∷◌, arith, ltb, ◌==◌, if◌then◌else◌, has, length, Bool-cases, subst, sym, ◌∙◌, ==_of_ne,
  Result, ok, ◌>>=◌, update,
}
use min_smt.RunQueue.{
  null, Ptr, Heap, seek, set_last_yield, load, set_next, set_prev, Runq, size_mod, inc,
  insert_yield, pop_front,
}
use min_smt.RunQueue.Chain.{Holds, Linked, Linked-frame}

-- The queue that an empty `q` becomes.
abbrev yielded : ℕ → Runq → Runq
yielded t q = record q {
  heap = update q.heap (q.tid_map t) (record (q.heap (q.tid_map t)) { last_yield = true });
  head = q.tid_map t;
  tail = q.tid_map t;
  num_elements = inc q.num_elements;
}

insert_yield-empty :
    (t : ℕ) (q : Runq)
    → Holds q []
    → q.tid_map t ≢ null
    → (q.heap (q.tid_map t)).live ≡ true
    → insert_yield t q ≡ ok (yielded t q)
unfolding insert_yield
insert_yield-empty t q v ne l = ground (arith, v.at_head)

-- A thread with an element that yields into an empty queue with no yielded threads counted carries
-- the yield mark but is not counted, so that popping it takes the count from 0 to the largest
-- `size_t`.
pub insert_yield-pop_wraps :
    (t : ℕ) (q : Runq)
    → Holds q []
    → q.tid_map t ≢ null
    → (q.heap (q.tid_map t)).live ≡ true
    → q.num_yield_elem ≡ 0
    → (q' : Runq) × ((insert_yield t q >>= pop_front) ≡ ok q') × (q'.num_yield_elem ≡ size_mod - 1)
unfolding pop_front
insert_yield-pop_wraps t q v ne l z = rw (insert_yield-empty t q v ne l) (
  record (yielded t q) {
    heap = update (yielded t q).heap (q.tid_map t) (record ((yielded t q).heap (q.tid_map t)) {
      prev = null;
      next = null;
      last_yield = false;
    });
    head = null;
    tail = null;
    num_elements = 0;
    num_yield_elem = size_mod - 1;
  },
  ground (arith, v.detached (q.tid_map t) refl, v.count),
  refl,
)

-- The elements of a chain are there, and so are the successors of all but the last.
pub Linked-inside :
    (h : Heap) (k a : Ptr) (ps : List Ptr)
    → Linked h (a ∷ ps)
    → has k (a ∷ ps) ≡ true
    → (k ≢ null)
      × ((h k).live ≡ true)
      × (((h k).next ≡ null) ⊎ (((h k).next ≢ null) × ((h (h k).next).live ≡ true)))
Linked-inside h k a [] l m = ground (arith, l)
Linked-inside h k a (b ∷ ps) l m =
    let head = Linked-inside h b b ps l.4 in
    elim (Bool-cases (k == a)) [
      | inl e ↦ ground (arith, l, e, head (ground arith))
      | inr e ↦ Linked-inside h k b ps l.4 (ground (arith, m, e))
    ]

-- With fuel for the rest of the chain the walk stops at one of its elements.
seek-stops :
    (fuel : ℕ) (h : Heap) (yields a : ℕ) (ps : List Ptr) (count : ℕ) (found : Bool)
    → Linked h (a ∷ ps)
    → length (a ∷ ps) ≤ fuel
    → (k : Ptr) × (seek fuel h yields a count found ≡ ok k) × (has k (a ∷ ps) ≡ true)
unfolding seek
seek-stops zero h yields a ps count found l f = absurd (omega arith)
seek-stops (suc fuel) h yields a [] count found l f = (a, ground (arith, l), ground arith)
seek-stops (suc fuel) h yields a (b ∷ ps) count found l f =
    let (k, r, m) =
      seek-stops fuel h yields b ps (if (h b).last_yield then count + 1 else count)
        (if (h b).last_yield then found else true) l.4 (omega arith) in
    let next = Linked-inside h b b ps l.4 (ground arith) in
    elim (Bool-cases (ltb count yields || not found)) [
      | inl e ↦ (k, ground (arith, l, e, r, next), ground (arith, m))
      | inr e ↦ (a, ground (arith, l, e, next), ground arith)
    ]

-- The heap once `p` stands behind `k`.
abbrev pub behind : Heap → (p k : Ptr) → Heap
behind h p k =
    let h1 = update h k (record (h k) { next = p }) in
    let h2 = update h1 p (record (h1 p) { prev = k }) in
    let h3 = update h2 p (record (h2 p) { next = (h k).next }) in
    if (h k).next == null then h3 else update h3 (h k).next (record (h3 (h k).next) { prev = p })

-- The pointer writes behind the walk make that heap.
link_behind :
    (h : Heap) (p k : Ptr) (f : Heap → Result Runq)
    → k ≢ null
    → (h k).live ≡ true
    → p ≢ null
    → (h p).live ≡ true
    → (k == p) ≡ false
    → ((h k).next ≡ null) ⊎ (((h k).next ≢ null) × ((h (h k).next).live ≡ true))
    → (load h k >>= λ c. set_next h k p >>= λ h1. set_prev h1 p k >>= λ h2.
        set_next h2 p c.next >>= λ h3.
        (if c.next == null then ok h3 else set_prev h3 c.next p) >>= f)
      ≡ f (behind h p k)
unfolding load set_next set_prev
link_behind h p k f nk lk np lp d (inl e) = ground (arith, nk, lk, np, lp, d, e)
link_behind h p k f nk lk np lp d (inr e) = ground (arith, nk, lk, np, lp, d, e)

-- The queue with the new heap `g`, in which the thread's element stands behind `k`.
abbrev pub inserted : ℕ → Runq → (k : Ptr) → Heap → Runq
inserted t q k g = record q {
  heap = g;
  tail = if k == q.tail then q.tid_map t else q.tail;
  num_elements = inc q.num_elements;
  num_yield_elem = inc q.num_yield_elem;
}

-- The part of `insert_yield` up to the writes, on a queue that is not empty.
insert_yield-walks :
    (t : ℕ) (q : Runq) (h : Heap) (k : Ptr)
    → set_last_yield q.heap (q.tid_map t) true ≡ ok h
    → (q.head == null) ≡ false
    → (h q.head).live ≡ true
    → seek
        (suc q.num_elements)
        h
        q.num_yield_elem
        q.head
        (if (h q.head).last_yield then 1 else 0)
        (not (h q.head).last_yield)
      ≡ ok k
    → insert_yield t q ≡ (
        load h k >>= λ c. set_next h k (q.tid_map t) >>= λ h1. set_prev h1 (q.tid_map t) k >>= λ h2.
        set_next h2 (q.tid_map t) c.next >>= λ h3.
        (if c.next == null then ok h3 else set_prev h3 c.next (q.tid_map t)) >>= λ g.
        ok (inserted t q k g))
unfolding insert_yield
insert_yield-walks t q h k m e lv w = ground (arith, m, e, lv, w)

-- The heap with the yield mark of `p`.
abbrev pub marked : Ptr → Heap → Heap
marked p h = update h p (record (h p) { last_yield = true })

-- `insert_yield` on a queue that is not empty, once it is known where the walk stops.
pub insert_yield-behind :
    (t : ℕ) (q : Runq) (a : Ptr) (ps : List Ptr) (k : Ptr)
    → Holds q (a ∷ ps)
    → q.tid_map t ≢ null
    → (q.heap (q.tid_map t)).live ≡ true
    → has (q.tid_map t) (a ∷ ps) ≡ false
    → seek
        (suc q.num_elements)
        (marked (q.tid_map t) q.heap)
        q.num_yield_elem
        a
        (if (marked (q.tid_map t) q.heap a).last_yield then 1 else 0)
        (not (marked (q.tid_map t) q.heap a).last_yield)
      ≡ ok k
    → has k (a ∷ ps) ≡ true
    → insert_yield t q ≡ ok (inserted t q k (behind (marked (q.tid_map t) q.heap) (q.tid_map t) k))
insert_yield-behind t q a ps k v ne l out r m =
    let h : Heap = marked (q.tid_map t) q.heap in
    let c = Linked-frame q.heap h (a ∷ ps) (λ p n. ground (arith, out, n)) v.linked in
    let at = Linked-inside h k a ps c m in
    let first = Linked-inside h a a ps c (ground arith) in
    let writes : set_last_yield q.heap (q.tid_map t) true ≡ ok h =
      unfold set_last_yield in ground (arith, ne, l) in
    let some_head : (q.head == null) ≡ false = ground (arith, v.at_head, first) in
    let head_live : (h q.head).live ≡ true = ground (arith, v.at_head, first) in
    let walked =
      subst
        (λ z.
          seek (suc q.num_elements) h q.num_yield_elem z (if (h z).last_yield then 1 else 0)
            (not (h z).last_yield)
          ≡ ok k)
        (sym v.at_head) r in
    let apart : k ≢ q.tid_map t = λ e. cc (subst (λ j. has j (a ∷ ps) ≡ true) e m, out) in
    insert_yield-walks t q h k writes some_head head_live walked
    ∙ link_behind h (q.tid_map t) k (λ g. ok (inserted t q k g)) at.0 at.1 ne (ground arith)
        (==_of_ne _ _ apart) at.2

-- `insert_yield` of a thread with an element that is not in the queue, whatever the yield marks and
-- their count, stops within the fuel given to it and returns; the queue has one element more.
insert_yield-returns :
    (t : ℕ) (q : Runq) (ps : List Ptr)
    → Holds q ps
    → q.tid_map t ≢ null
    → (q.heap (q.tid_map t)).live ≡ true
    → has (q.tid_map t) ps ≡ false
    → (q' : Runq) × (insert_yield t q ≡ ok q') × (q'.num_elements ≡ inc (length ps))
insert_yield-returns t q [] v ne l out =
    (yielded t q, insert_yield-empty t q v ne l, ground (arith, v.count))
insert_yield-returns t q (a ∷ ps) v ne l out =
    let h : Heap = marked (q.tid_map t) q.heap in
    let c = Linked-frame q.heap h (a ∷ ps) (λ p n. ground (arith, out, n)) v.linked in
    let (k, r, m) =
      seek-stops (suc q.num_elements) h q.num_yield_elem a ps (if (h a).last_yield then 1 else 0)
        (not (h a).last_yield) c (omega (arith, v.count)) in
    (
      inserted t q k (behind h (q.tid_map t) k),
      insert_yield-behind t q a ps k v ne l out r m,
      ground (arith, v.count),
    )
