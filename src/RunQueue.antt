-- ===== src/RunQueue.antt =====
-- include/tern/runtime/run-queue.h: the run queue, a doubly linked list of thread elements behind
-- an array from thread ids to elements. Elements live on an explicit heap, so a read through NULL
-- or through a deleted element is a fault. The assertions and prints that only DEBUG_RUN_QUEUE
-- switches on are left out, as in the default build; so are the spin locks of the elements.
pub mod Chain
pub mod Basics
pub mod Yield
use min_smt.Prelude.{
  ℕ, zero, suc, ◌+◌, ◌-◌, ◌%◌, ◌^◌, Bool, true, false, not, ◌&&◌, ◌||◌, ltb, ◌==◌, if◌then◌else◌,
  update, Result, ok, err, bad_pointer, out_of_fuel, ◌>>=◌,
}

-- `enum THD_STATUS`.
pub data Status : Type 0 where
  runnable running_reg running_inter_pro inter_pro_stop : Status

abbrev pub Ptr : Type 0
Ptr = ℕ

abbrev pub null : Ptr
null = 0

-- `struct runq_elem`. `live` says that the address holds an element that is not deleted.
pub record Elem : Type 0 where
  pub live : Bool
  pub tid : ℕ
  pub status : Status
  pub prev : Ptr
  pub next : Ptr
  pub last_yield : Bool

abbrev pub Heap : Type 0
Heap = Ptr → Elem

abbrev pub max_thread_num : ℕ
max_thread_num = 5000

abbrev pub size_mod : ℕ
size_mod = 2 ^ 64

-- The members of `class run_queue`, with the heap that its pointers lead into.
pub record Runq : Type 0 where
  pub heap : Heap
  pub head : Ptr
  pub tail : Ptr
  pub num_elements : ℕ
  pub tid_map : ℕ → Ptr
  pub num_yield_elem : ℕ

-- `runq_elem(int tid)`.
abbrev pub new_elem : ℕ → Elem
new_elem t = record {
  live = true;
  tid = t;
  status = runnable;
  prev = null;
  next = null;
  last_yield = false;
}

-- `*p`.
unfoldable pub load : Heap → Ptr → Result Elem
load h p = if (p == null) || not (h p).live then err bad_pointer else ok (h p)

unfoldable pub set_prev : Heap → Ptr → Ptr → Result Heap
unfolding load
set_prev h p v = do e ← load h p; ok (update h p (record e { prev = v }))

unfoldable pub set_next : Heap → Ptr → Ptr → Result Heap
unfolding load
set_next h p v = do e ← load h p; ok (update h p (record e { next = v }))

unfoldable pub set_last_yield : Heap → Ptr → Bool → Result Heap
unfolding load
set_last_yield h p v = do e ← load h p; ok (update h p (record e { last_yield = v }))

-- `++` and `--` of a `size_t`.
abbrev pub inc : ℕ → ℕ
inc n = (n + 1) % size_mod

abbrev pub dec : ℕ → ℕ
dec n = (n + size_mod - 1) % size_mod

unfoldable pub get_my_elem : Runq → ℕ → Ptr
get_my_elem q t = q.tid_map t

-- `new runq_elem(tid)` at the address `fresh`, which is what `new` returns.
unfoldable pub create_thd_elem : (fresh : Ptr) → ℕ → Runq → Runq
create_thd_elem fresh t q = record q {
  heap = update q.heap fresh (new_elem t);
  tid_map = update q.tid_map t fresh;
}

unfoldable pub set_thd_elem : ℕ → Ptr → Runq → Runq
set_thd_elem t p q = record q { tid_map = update q.tid_map t p }

unfoldable pub del_thd_elem : ℕ → Runq → Result Runq
unfolding load
del_thd_elem t q = do
  let p = q.tid_map t
  e ← load q.heap p
  ok (record q {
    heap = update q.heap p (record e { live = false });
    tid_map = update q.tid_map t null;
  })

-- Is the thread's element in the queue?
unfoldable pub contains : ℕ → Runq → Result Bool
unfolding load
contains t q = do
  let p = q.tid_map t
  e ← load q.heap p
  ok (if not (e.prev == null) || not (e.next == null) then true else (q.head == p) && (q.tail == p))

-- The loop of `deep_clear`: the indices below `n`, from 0 up.
clear_from : ℕ → Runq → Result Runq
unfolding load set_prev set_next del_thd_elem
clear_from zero q = ok q
clear_from (suc n) q = do
  q ← clear_from n q
  let p = q.tid_map n
  if p == null then ok q else do
    e ← load q.heap p
    h ← set_next q.heap p null
    h ← set_prev h p null
    del_thd_elem e.tid (record q { heap = h })

unfoldable pub deep_clear : Runq → Result Runq
unfolding clear_from
deep_clear q =
    clear_from max_thread_num
      (record q { head = null; tail = null; num_elements = 0; num_yield_elem = 0 })

unfoldable pub size : Runq → ℕ
size q = q.num_elements

unfoldable pub empty : Runq → Bool
unfolding size
empty q = size q == 0

unfoldable pub front : Runq → Result ℕ
unfolding load
front q = do e ← load q.heap q.head; ok e.tid

unfoldable pub push_back : ℕ → Runq → Result Runq
unfolding load set_prev set_next
push_back t q = do
  let p = q.tid_map t
  if q.head == null
      then ok (record q { head = p; tail = p; num_elements = inc q.num_elements })
      else do
        h ← set_prev q.heap p q.tail
        h ← set_next h q.tail p
        ok (record q { heap = h; tail = p; num_elements = inc q.num_elements })

unfoldable pub push_front : ℕ → Runq → Result Runq
unfolding load set_next
push_front t q = do
  let p = q.tid_map t
  if q.head == null
      then ok (record q { head = p; tail = p; num_elements = inc q.num_elements })
      else do
        h ← set_next q.heap p q.head
        ok (record q { heap = h; head = p; num_elements = inc q.num_elements })

unfoldable pub pop_front : Runq → Result Runq
unfolding load
pop_front q = do
  let p = q.head
  e ← load q.heap p
  let yields = if e.last_yield then dec q.num_yield_elem else q.num_yield_elem
  ok (record q {
    heap = update q.heap p (record e { prev = null; next = null; last_yield = false });
    head = e.next;
    tail = if e.next == null then null else q.tail;
    num_elements = dec q.num_elements;
    num_yield_elem = yields;
  })

-- `erase(position)` for the iterator at the element `p`; the result is the next position.
unfoldable pub erase_at : Ptr → Runq → Result (Ptr × Runq)
unfolding load set_prev set_next
erase_at p q = if p == null then ok (null, q) else do
  e ← load q.heap p
  h ← (if e.prev == null then ok q.heap else set_next q.heap e.prev e.next)
  h ← (if e.next == null then ok h else set_prev h e.next e.prev)
  e' ← load h p
  let head' = if q.head == p then e'.next else q.head
  let tail' = if q.tail == p then e'.prev else q.tail
  ok (
    e.next,
    record q {
      heap = update h p (record e' { prev = null; next = null });
      head = head';
      tail = tail';
      num_elements = dec q.num_elements;
      num_yield_elem = if e'.last_yield then dec q.num_yield_elem else q.num_yield_elem;
    },
  )

-- The `while` of `insert_yield`: the element behind which to insert.
unfoldable pub seek :
    ℕ → Heap → (yields : ℕ) → (cur : Ptr) → (count : ℕ) → (found : Bool) → Result Ptr
unfolding load
seek zero h yields cur count found = err out_of_fuel
seek (suc fuel) h yields cur count found = do
  e ← load h cur
  if not (e.next == null) && (ltb count yields || not found)
      then (do
        n ← load h e.next
        seek fuel h yields e.next (if n.last_yield then count + 1 else count)
            (if n.last_yield then found else true))
      else ok cur

unfoldable pub insert_yield : ℕ → Runq → Result Runq
unfolding load set_prev set_next set_last_yield seek
insert_yield t q = do
  let p = q.tid_map t
  h ← set_last_yield q.heap p true
  if q.head == null
      then ok (record q { heap = h; head = p; tail = p; num_elements = inc q.num_elements })
      else do
        first ← load h q.head
        cur ←
            seek (suc q.num_elements) h q.num_yield_elem q.head (if first.last_yield then 1 else 0)
              (not first.last_yield)
        c ← load h cur
        h ← set_next h cur p
        h ← set_prev h p cur
        h ← set_next h p c.next
        h ← (if c.next == null then ok h else set_prev h c.next p)
        ok (record q {
          heap = h;
          tail = if cur == q.tail then p else q.tail;
          num_elements = inc q.num_elements;
          num_yield_elem = inc q.num_yield_elem;
        })
