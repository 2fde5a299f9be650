-- ===== src/Runtime/Child.antt =====
-- The child of a fork: what its scheduler starts with.
use min_smt.Prelude.{
  ℕ, ◌+◌, ◌%◌, ◌≡◌, ◌≢◌, refl, Bool, true, false, not, ◌&&◌, Option, none, some, List, [], ◌∷◌, ltb,
  ◌==◌, if◌then◌else◌, arith, update, ok, err, bad_pointer, ◌>>=◌, assert, ap, ◌∙◌,
}
use min_smt.Prelude.Int.{ℤ, pos}
use min_smt.RunQueue.{runnable, running_reg, max_thread_num}
use min_smt.TidMap
use min_smt.TidMap.{Pthread}
use min_smt.TidMap.Laws.{reset-main}
use min_smt.Sched.{
  Sched, Slot, Options, TurnType, is_null, post, try_wait, forever, default_strategy, uint_mod,
  reset_slot,
}
use min_smt.Sched.Setup.{child_fork_return}
use min_smt.Sched.Wakeups.{check_wakeup, inc_turn_count, fire_timeouts}
use min_smt.Sched.Turn.{put_turn}
use min_smt.Sched.RoundRobin.{IsPlain, HasTurn, put_turn-rotates}
use min_smt.Runtime.State.{Rt, Local, returned}
use min_smt.Runtime.Finish.{
  begin, finish, put_turn_strategy, bypassed, set_local, check_cv_wait_cnt, spend_slock,
}
use min_smt.Runtime.Fork.{fork_child}

-- What `childForkReturn` makes of the state `s`: a queue with the main thread alone, which runs.
record Alone (s s' : Sched) : Type 0 where
  opts : s'.opts ≡ s.opts
  queue : s'.runq.items ≡ 0 ∷ []
  waitq : s'.waitq ≡ []
  known : s'.known ≡ update (λ _. false) 0 true
  running : s'.status 0 ≡ running_reg
  nthread : s'.tids.nthread ≡ 1
  flag : s'.wakeup_flag ≡ s.wakeup_flag
  wakeups : s'.wakeup_tids ≡ s.wakeup_tids
  first : s'.slots 0 ≡ record (s.slots 0) {
    chan = 0;
    timeout = forever;
    ret = 0;
    waken_up = false;
    is_runnable = true;
  }

-- The state that `childForkReturn` leaves.
abbrev born : TidMap.TidMap → Sched → Sched
born m s = record s {
  tids = m;
  waitq = [];
  known = update (λ _. false) 0 true;
  hp_known = if s.opts.hp_policy then update s.hp_known 0 true else s.hp_known;
  status = update (update s.status 0 runnable) 0 running_reg;
  last_yield = update s.last_yield 0 false;
  runq = record { items = 0 ∷ []; num_yield = 0 };
  slots = λ t. if ltb t max_thread_num then reset_slot 0 (s.slots t) else s.slots t;
}

child_fork_return-Alone :
    (th : Pthread) (s : Sched) → (s' : Sched) × (child_fork_return th s ≡ ok s') × Alone s s'
unfolding child_fork_return reset_slot
child_fork_return-Alone th s =
    let (m, r, v, one, other) = reset-main s.opts.ndebug s.opts.wakeamap_plus th s.tids in
    (
      born m s,
      ground (arith, r),
      record {
        opts = refl;
        queue = refl;
        waitq = refl;
        known = refl;
        running = refl;
        nthread = one;
        flag = refl;
        wakeups = refl;
        first = ground arith;
      },
    )

-- The start of an operation of a thread that stands in no region and proposes no role.
pub begin-same :
    (me : ℕ) (rt : Rt)
    → bypassed me rt ≡ false
    → (rt.locals me).process_proposed_role ≡ false
    → begin me rt ≡ ok rt
unfolding begin
begin-same me rt b p =
    let free : assert rt.sched.opts.ndebug
          (not (rt.sched.opts.enforce_non_det_annotations && bypassed me rt))
        ≡ ok tt =
      ground (arith, b) in
    rw free (rw p refl)

-- With no thread in the wait queue, no turn times out.
inc_turn_count-empty :
    (s : Sched)
    → s.waitq ≡ []
    → inc_turn_count s ≡ (
        check_wakeup (record s { turn_count = (s.turn_count + 1) % uint_mod }) >>= λ s2.
        ok (s.turn_count, s2))
unfolding inc_turn_count fire_timeouts
inc_turn_count-empty s e = ground (arith, e)

-- A wake-up that is pending at a fork kills the child: the set of threads to wake is copied but
-- their elements are deleted, so that the child's first count of a turn reads one through NULL. This
-- holds in both builds, for a thread that stands in no region and proposes no role, where the first
-- thread to wake is not the one with the id 0.
pub fork_child-pending_fails :
    (me : ℕ) (th : Pthread) (rt : Rt) (t : ℕ) (ts : List ℕ)
    → bypassed me rt ≡ false
    → (rt.locals me).process_proposed_role ≡ false
    → rt.sched.wakeup_flag ≡ true
    → rt.sched.wakeup_tids ≡ t ∷ ts
    → t ≢ 0
    → fork_child me th rt ≡ err bad_pointer
unfolding fork_child finish
fork_child-pending_fails me th rt t ts b p w k ne =
    let (s, r, a) = child_fork_return-Alone th rt.sched in
    let dies : check_wakeup (record s { turn_count = (s.turn_count + 1) % uint_mod })
        ≡ err bad_pointer =
      unfold check_wakeup in ground (arith, a.flag, a.wakeups, a.known, w, k, ne) in
    rw (begin-same me rt b p, r, inc_turn_count-empty s a.waitq, dies) refl

inc_turn_count-quiet :
    (s : Sched)
    → s.waitq ≡ []
    → s.wakeup_flag ≡ false
    → inc_turn_count s ≡ ok (s.turn_count, record s { turn_count = (s.turn_count + 1) % uint_mod })
inc_turn_count-quiet s e w = inc_turn_count-empty s e ∙ (unfold check_wakeup in rw w refl)

-- The end of an operation, once its parts are known.
pub finish-puts :
    (me : ℕ) (ret : ℤ) (rt : Rt) (n : ℕ) (s1 : Sched) (t : Option ℕ) (s2 : Sched)
    → inc_turn_count rt.sched ≡ ok (n, s1)
    → (put_turn_strategy false rt.opts.high_priority_yield s1.opts.wakeamap_plus (rt.locals me)).0
      ≡ default_strategy
    → put_turn me 0 false default_strategy s1 ≡ ok (t, s2)
    → (l : Local) × (finish false me ret rt
        ≡ ok (returned ret, set_local me l (record rt { sched = s2 })))
unfolding finish
finish-puts me ret rt n s1 t s2 i st p =
    let l =
      (put_turn_strategy false rt.opts.high_priority_yield s1.opts.wakeamap_plus
        (rt.locals me)).1 in
    (check_cv_wait_cnt (record rt { sched = s2 }) (spend_slock l), rw (i, st, p) refl)

-- A slot that the turn is posted to does not block its thread.
try_wait-posted :
    (p : TurnType) (w : Slot) (y : Bool) → is_null p ≡ false → try_wait p (post p w) y ≢ none
unfolding try_wait post
try_wait-posted p w y n h = ground arith

-- With round robin alone, no wake-ups pending, and a thread in no region that holds no turns back,
-- the fork returns 0 in the child, and says whether the child wants an idle thread: the run queue is
-- the calling thread, as thread 0, which runs; its slot is reset and the turn is posted to it, so that
-- its next wait for the turn ends at once; and no thread waits.
pub fork_child-alone :
    (me : ℕ) (th : Pthread) (rt : Rt)
    → bypassed me rt ≡ false
    → (rt.locals me).process_proposed_role ≡ false
    → IsPlain rt.sched
    → rt.sched.wakeup_flag ≡ false
    → (rt.sched.slots 0).from_hp ≡ false
    → (put_turn_strategy false rt.opts.high_priority_yield rt.sched.opts.wakeamap_plus
        (rt.locals me)).0
      ≡ default_strategy
    → (rt' : Rt) × (fork_child me th rt
        ≡ ok (not (rt.sched.opts.launch_idle_thread == 0), returned (pos 0), rt'))
      × (rt'.sched.runq.items ≡ 0 ∷ [])
      × (rt'.sched.status 0 ≡ running_reg)
      × (rt'.sched.slots 0
          ≡ post rt.sched.opts.turn_type (record (rt.sched.slots 0) {
            chan = 0;
            timeout = forever;
            ret = 0;
            waken_up = false;
            is_runnable = true;
          }))
      × ((y : Bool) → try_wait rt.sched.opts.turn_type (rt'.sched.slots 0) y ≢ none)
      × (rt'.sched.waitq ≡ [])
unfolding fork_child set_local
fork_child-alone me th rt b p plain w low st =
    let (s, r, a) = child_fork_return-Alone th rt.sched in
    let s1 : Sched = record s { turn_count = (s.turn_count + 1) % uint_mod } in
    let turn : HasTurn s1 0 [] = record {
      plain = record {
        relayed = ground (arith, a.opts, plain.relayed);
        no_hp = ground (arith, a.opts, plain.no_hp);
        no_bound = ground (arith, a.opts, plain.no_bound);
        no_regions = ground (arith, a.opts, plain.no_regions);
      };
      at_front = a.queue;
      running = a.running;
      element = ground (arith, a.known);
      not_hp = ap (λ (w : Slot). w.from_hp) a.first ∙ low;
      id = omega (arith, a.nthread);
      no_wakeups = a.flag ∙ w;
    } in
    let (s2, put, queue, runs, slots, waitq) =
      put_turn-rotates 0 0 [] [] 0 [] s1 turn refl tt (ground (arith, a.running))
        (omega (arith, a.nthread)) in
    let slot : s2.slots 0
        ≡ post rt.sched.opts.turn_type (record (rt.sched.slots 0) {
          chan = 0;
          timeout = forever;
          ret = 0;
          waken_up = false;
          is_runnable = true;
        }) =
      rw (slots, a.opts, a.first) refl in
    let rt2 : Rt = record rt { sched = s2; locals = update rt.locals 0 (rt.locals me) } in
    let (l, done) =
      finish-puts 0 (pos 0) (record rt { sched = s; locals = update rt.locals 0 (rt.locals me) })
        s.turn_count s1 (some 0) (s2) (inc_turn_count-quiet s a.waitq (a.flag ∙ w))
        (ap
            (λ (o : Options).
              (put_turn_strategy false rt.opts.high_priority_yield o.wakeamap_plus
                (rt.locals me)).0)
            a.opts
          ∙ st)
        put in
    (
      set_local 0 l rt2,
      rw (begin-same me rt b p, r, done)
          (ap
            (λ (o : Options).
              ok (not (o.launch_idle_thread == 0), returned (pos 0), set_local 0 l rt2))
            a.opts),
      queue,
      ground (arith, runs),
      slot,
      λ y. rw slot (try_wait-posted rt.sched.opts.turn_type _ y plain.relayed),
      waitq ∙ a.waitq,
    )
