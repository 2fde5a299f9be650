-- ===== src/RunQueue/Basics.antt =====
-- `push_back`, `pop_front`, `front` and `in` of include/tern/runtime/run-queue.h against the list
-- that the queue stands for.
use min_smt.Prelude.{
  ℕ, suc, ◌+◌, ◌<◌, ◌≡◌, refl, ◌≢◌, true, false, List, [], ◌∷◌, ◌++◌, arith, ◌==◌, has, length, sym,
  ap, Bool-cases, ◌⊎◌, inl, inr, ◌-◌, has-append, Distinct-snoc, length-append, ok, if◌then◌else◌,
  update,
}
use min_smt.RunQueue.{Ptr, null, Heap, Runq, size_mod, dec, push_back, pop_front, front, contains}
use min_smt.RunQueue.Chain.{
  first, last, Linked, Holds, Linked-frame, Linked-snoc, has-last, first-ne-null,
}

-- The queue after `push_back` of the element `p`.
abbrev pushed : Ptr → Runq → Runq
pushed p q = record q {
  heap =
      update (update q.heap p (record (q.heap p) { prev = q.tail })) q.tail
        (record (update q.heap p (record (q.heap p) { prev = q.tail }) q.tail) { next = p });
  tail = p;
  num_elements = q.num_elements + 1;
}

last-live :
    (h : Heap) (a : Ptr) (ps : List Ptr)
    → Linked h (a ∷ ps)
    → ((h (last (a ∷ ps))).live ≡ true) × (last (a ∷ ps) ≢ null)
last-live h a [] l = (l.1, l.0)
last-live h a (b ∷ ps) l = last-live h b ps l.4

last-snoc : (p : Ptr) (ps : List Ptr) → last (ps ++ p ∷ []) ≡ p
last-snoc p [] = refl
last-snoc p (a ∷ []) = refl
last-snoc p (a ∷ b ∷ ps) = last-snoc p (b ∷ ps)

push_back-computes :
    (t : ℕ) (q : Runq) (a : Ptr) (ps : List Ptr)
    → Holds q (a ∷ ps)
    → q.tid_map t ≢ null
    → (q.heap (q.tid_map t)).live ≡ true
    → suc (suc (length ps)) < size_mod
    → push_back t q ≡ ok (pushed (q.tid_map t) q)
unfolding push_back
push_back-computes t q a ps v ne l room =
    ground (arith, first-ne-null q.heap a ps v.linked, last-live q.heap a ps v.linked)

-- What every element keeps: its thread, its status and its yield mark.
abbrev pub SameData : Heap → Heap → Type 0
SameData h g =
    (j : Ptr)
    → ((g j).tid ≡ (h j).tid)
      × ((g j).status ≡ (h j).status)
      × ((g j).last_yield ≡ (h j).last_yield)

-- `push_back` on a queue with elements.
push_back-cons :
    (p : Ptr) (q : Runq) (a : Ptr) (ps : List Ptr)
    → Holds q (a ∷ ps)
    → p ≢ null
    → (q.heap p).live ≡ true
    → has p (a ∷ ps) ≡ false
    → suc (suc (length ps)) < size_mod
    → Holds (pushed p q) (a ∷ ps ++ p ∷ [])
push_back-cons p q a ps v ne l out room = record {
  linked =
      Linked-snoc q.heap (pushed p q).heap p (a ∷ ps) (λ j e f. ground arith) (ground arith)
        (ground (arith, has-last a ps)) (ground (arith, last-live q.heap a ps v.linked)) ne
        (ground arith) (ground (arith, v.detached p, has-last a ps)) (ground (arith, has-last a ps))
        v.distinct out v.linked;
  distinct = Distinct-snoc p (a ∷ ps) v.distinct out;
  at_head = v.at_head;
  at_tail = sym (last-snoc p (a ∷ ps));
  count = omega (arith, v.count, length-append (a ∷ ps) (p ∷ []));
  fits = omega (arith, length-append (a ∷ ps) (p ∷ []));
  detached = λ j e. ground (arith, v.detached j, has-append j (a ∷ ps) (p ∷ []), has-last a ps);
}

-- What `push_back` promises of the queue `q` that stands for `ps`.
abbrev pub Pushed : ℕ → Runq → List Ptr → Runq → Type 0
Pushed t q ps q' =
    Holds q' (ps ++ q.tid_map t ∷ [])
    × SameData q.heap q'.heap
    × (q'.tid_map ≡ q.tid_map)
    × (q'.num_yield_elem ≡ q.num_yield_elem)

-- `push_back` of a thread whose element is there and not in the queue returns. The queue then stands
-- for the list with the element at its end, the pointers consistent in both directions; no element
-- changes its id, status or yield mark, and the count of yielded threads stays.
pub push_back-Holds :
    (t : ℕ) (q : Runq) (ps : List Ptr)
    → Holds q ps
    → q.tid_map t ≢ null
    → (q.heap (q.tid_map t)).live ≡ true
    → has (q.tid_map t) ps ≡ false
    → suc (length ps) < size_mod
    → (q' : Runq) × (push_back t q ≡ ok q') × Pushed t q ps q'
unfolding push_back
push_back-Holds t q [] v ne l out room = (
  record q { head = q.tid_map t; tail = q.tid_map t; num_elements = 1 },
  ground (arith, v.at_head, v.count),
  (
    record {
      linked = (ne, l, (v.detached (q.tid_map t) refl).1);
      distinct = (refl, tt);
      at_head = refl;
      at_tail = refl;
      count = refl;
      fits = room;
      detached = λ j e. v.detached j refl;
    },
    λ j. (refl, refl, refl),
    refl,
    refl,
  ),
)
push_back-Holds t q (a ∷ ps) v ne l out room = (
  pushed (q.tid_map t) q,
  push_back-computes t q a ps v ne l room,
  (push_back-cons (q.tid_map t) q a ps v ne l out room, λ j. ground arith, refl, refl),
)

-- The queue after `pop_front`.
abbrev popped : Runq → Runq
popped q = record q {
  heap =
      update q.heap q.head
        (record (q.heap q.head) { prev = null; next = null; last_yield = false });
  head = (q.heap q.head).next;
  tail = if (q.heap q.head).next == null then null else q.tail;
  num_elements = q.num_elements - 1;
  num_yield_elem = if (q.heap q.head).last_yield then dec q.num_yield_elem else q.num_yield_elem;
}

next_of_head :
    (h : Heap) (a : Ptr) (ps : List Ptr)
    → Linked h (a ∷ ps)
    → ((h a).next ≡ first ps) × ((h a).live ≡ true)
next_of_head h a [] l = (l.2, l.1)
next_of_head h a (b ∷ ps) l = (l.2, l.1)

pop_front-computes :
    (q : Runq) (a : Ptr) (ps : List Ptr) → Holds q (a ∷ ps) → pop_front q ≡ ok (popped q)
unfolding pop_front
pop_front-computes q a ps v = ground (
  arith,
  v.at_head,
  v.count,
  v.fits,
  next_of_head q.heap a ps v.linked,
  first-ne-null q.heap a ps v.linked,
)

Linked-tail : (h : Heap) (a : Ptr) (ps : List Ptr) → Linked h (a ∷ ps) → Linked h ps
Linked-tail h a [] l = tt
Linked-tail h a (b ∷ ps) l = l.4

last-tail :
    (h : Heap) (a : Ptr) (ps : List Ptr)
    → Linked h (a ∷ ps)
    → (if first ps == null then null else last (a ∷ ps)) ≡ last ps
last-tail h a [] l = refl
last-tail h a (b ∷ ps) l = ground (arith, first-ne-null h b ps l.4)

-- `pop_front` of a queue that is not empty takes the head off: what is left stands for the rest of the list, the popped element
-- is detached and its yield mark cleared, and the other elements keep their data.
pub pop_front-Holds :
    (q : Runq) (a : Ptr) (ps : List Ptr)
    → Holds q (a ∷ ps)
    → (q' : Runq) × (pop_front q ≡ ok q')
      × Holds q' ps
      × (q'.tid_map ≡ q.tid_map)
      × (q'.num_yield_elem
          ≡ (if (q.heap a).last_yield then dec q.num_yield_elem else q.num_yield_elem))
      × ((q'.heap a).last_yield ≡ false)
      × ((j : Ptr) → ((q'.heap j).tid ≡ (q.heap j).tid) × ((q'.heap j).status ≡ (q.heap j).status))
      × ((j : Ptr) → (j == a) ≡ false → (q'.heap j).last_yield ≡ (q.heap j).last_yield)
pop_front-Holds q a ps v =
    let n = next_of_head q.heap a ps v.linked in
    (
      popped q,
      pop_front-computes q a ps v,
      record {
        linked =
            Linked-frame q.heap (popped q).heap ps (λ p m. ground (arith, v.at_head))
              (Linked-tail q.heap a ps v.linked);
        distinct = v.distinct.1;
        at_head = ground (arith, v.at_head, n);
        at_tail = ground (arith, v.at_head, v.at_tail, n, last-tail q.heap a ps v.linked);
        count = omega (arith, v.count);
        fits = omega (arith, v.fits);
        detached = λ p m. ground (arith, v.at_head, v.detached p);
      },
      refl,
      ground (arith, v.at_head),
      ground (arith, v.at_head),
      λ j. ground arith,
      λ j e. ground (arith, v.at_head),
    )

-- `front` is the thread of the head.
pub front-Holds :
    (q : Runq) (a : Ptr) (ps : List Ptr) → Holds q (a ∷ ps) → front q ≡ ok (q.heap a).tid
unfolding front
front-Holds q a ps v =
    ground (arith, v.at_head, next_of_head q.heap a ps v.linked, first-ne-null q.heap a ps v.linked)

-- Where an element of the list stands, one of its links or both ends show that it is there.
has-ends :
    (h : Heap) (p a : Ptr) (ps : List Ptr)
    → Linked h (a ∷ ps)
    → has p (a ∷ ps) ≡ true
    → ((h p).prev ≢ null) ⊎ ((h p).next ≢ null) ⊎ ((p ≡ a) × (ps ≡ []))
has-ends h p a [] l m = inr (inr (ground arith, refl))
has-ends h p a (b ∷ ps) l m = ground (arith, has-ends h p b ps l.4, first-ne-null h b ps l.4)

-- `in` of a thread with an element answers whether the element is in the list that the queue stands
-- for, although it looks at the links of that element and at the two ends alone.
contains-has :
    (t : ℕ) (q : Runq) (ps : List Ptr)
    → Holds q ps
    → q.tid_map t ≢ null
    → (q.heap (q.tid_map t)).live ≡ true
    → contains t q ≡ ok (has (q.tid_map t) ps)
unfolding contains
contains-has t q [] v ne l = ground (arith, v.at_head, v.detached (q.tid_map t))
contains-has t q (a ∷ ps) v ne l = elim (Bool-cases (has (q.tid_map t) (a ∷ ps))) [
  | inl m ↦ rw m (inside (has-ends q.heap (q.tid_map t) a ps v.linked m))
  | inr out ↦ rw out (ground (arith, v.detached (q.tid_map t) out, v.at_head))
]
  where
    inside :
        ((q.heap (q.tid_map t)).prev ≢ null)
          ⊎ ((q.heap (q.tid_map t)).next ≢ null)
          ⊎ ((q.tid_map t ≡ a) × (ps ≡ []))
        → contains t q ≡ ok true
    inside (inl e) = ground arith
    inside (inr (inl e)) = ground arith
    inside (inr (inr (e, f))) = ground (arith, v.at_head, v.at_tail, ap (λ l. last (a ∷ l)) f)
