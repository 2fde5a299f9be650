-- ===== src/Sched/Orderly/Entering.antt =====
-- Threads that enter, and calls from outside, keep the queues in order.
use min_smt.Prelude.{
  ℕ, ◌+◌, ◌<◌, ◌≡◌, refl, Bool, true, false, not, none, some, Option, arith, bad_pointer,
  if◌then◌else◌, update, has, ◌∷◌, [], has-append, subst, Bool-cases, inl, inr,
}
use min_smt.Prelude.Ensures
use min_smt.Prelude.Ensures.{Ensures, ensured, failed}
use min_smt.RunQueue.{inter_pro_stop}
use min_smt.TidMap
use min_smt.TidMap.{Pthread, Routine, cleared, main_thread_tid}
use min_smt.Sched.Defs.{
  Sched, Options, Slot, TurnType, semaphore_relay, hybrid_relay, busy_relay, null_policy,
  other_relay, try_wait,
}
use min_smt.Sched.Queues.{set_status, set_slot, post_to}
use min_smt.Sched.Wakeups.{wakeup}
use min_smt.Sched.Next.{is_runnable, is_running_reg, is_stop}
use min_smt.Sched.Turn.{get_turn, inter_pro_start, inter_pro_end}
use min_smt.Sched.Setup.{create, create_elem, start, blank}
use min_smt.Sched.Conserve.{times}
use min_smt.Sched.Orderly.Order.{
  IsChecked, IsOrderly, placed, Thins-IsOrderly, post_to-Thins, one-Alike, Alike,
}
use min_smt.Sched.Orderly.Waking.{push_runq-IsOrderly}
use min_smt.Sched.Orderly.Heads.{alike-Thins}
use min_smt.Sched.Orderly.Yielding.{assert_front-head}

-- The map after a role is assigned, or not, knows as many threads.
assign_role-nthread :
    (tid : ℕ) (f : Routine) (m : TidMap.TidMap) → (TidMap.assign_role tid f m).nthread ≡ m.nthread
unfolding TidMap.assign_role
assign_role-nthread tid f m = ground arith

create-nthread :
    (nd roles : Bool) (th : Pthread) (f : Routine) (m : TidMap.TidMap)
    → Ensures
        (λ (t, m'). (t ≡ m.nthread) × (m'.nthread ≡ m.nthread + 1))
        (TidMap.create nd roles th f m)
unfolding TidMap.create
create-nthread nd roles th f m = Ensures.after_assert nd _ (ensured (refl, refl))

pub change_role-nthread :
    (nd : Bool) (th : Pthread) (f : Routine) (m : TidMap.TidMap)
    → Ensures (λ m'. m'.nthread ≡ m.nthread) (TidMap.change_role nd th f m)
unfolding TidMap.change_role
change_role-nthread nd th f m = Ensures.after_assert nd _ (ensured (go (m.p_t_map th)))
  where
    go :
        (p : Option ℕ)
        → (elim p as (λ _. TidMap.TidMap) [
          | some tid ↦ TidMap.assign_role tid f m
          | none ↦ TidMap.assign_role 0 f (record m { p_t_map = update m.p_t_map th (some 0) })
        ]).nthread
          ≡ m.nthread
    go none = assign_role-nthread 0 f (record m { p_t_map = update m.p_t_map th (some 0) })
    go (some tid) = assign_role-nthread tid f m

-- The thread map has a thread more.
grown-IsOrderly :
    (s : Sched) (m : TidMap.TidMap)
    → IsOrderly s
    → m.nthread ≡ s.tids.nthread + 1
    → IsOrderly (record s { tids = m })
grown-IsOrderly s m v e = record {
  opts = v.opts;
  once = v.once;
  calm = v.calm;
  waits = v.waits;
  ids = λ a h. v.ids a (omega (arith, e));
  woken = λ a h. ground (arith, v.woken a, h, e);
  low = v.low;
  flagged = v.flagged;
}

pub create-IsOrderly :
    (me : ℕ) (th : Pthread) (f : Routine) (s : Sched)
    → IsOrderly s
    → Ensures (λ (t, s'). IsOrderly s') (create me th f s)
unfolding create create_elem
create-IsOrderly me th f s v = Ensures.bind (assert_front-head me s v.opts.asserts) λ u _.
    Ensures.bind (create-nthread s.opts.ndebug s.opts.wakeamap_plus th f s.tids)
      λ (t, m) (new, more).
        let s0 : Sched = record s { tids = m } in
        let s1 = create_elem t s0 in
        let v1 =
          Thins-IsOrderly s0 s1 (grown-IsOrderly s m v more)
            (alike-Thins s0 s1 refl refl refl refl refl refl refl) in
        rw v.opts.relayed (
          Ensures.bind
            (Ensures.branch {P = IsOrderly} s.opts.hp_policy
              (λ e. absurd (ground (arith, v.opts.no_hp, e)))
              (λ e.
                Ensures.mono
                  (push_runq-IsOrderly t s1 v1 (v.ids t (omega (arith, new)))
                    (omega (arith, new, more)))
                  λ s2 q. q.0))
            λ s2 w. ensured w)

-- The members as the constructor leaves them, with the main thread known.
blank-IsOrderly :
    (o : Options) (m : TidMap.TidMap) → IsChecked o → IsOrderly (record (blank o) { tids = m })
blank-IsOrderly o m c = record {
  opts = c;
  once = λ a. omega arith;
  calm = λ a e. (refl, refl);
  waits = λ a e. absurd (omega arith);
  ids = λ a e. refl;
  woken = λ a e. cc;
  low = λ a. refl;
  flagged = λ e. refl;
}

init-nthread :
    (nd roles : Bool) (th : Pthread) (m : TidMap.TidMap)
    → Ensures (λ (t, m'). m'.nthread ≡ 1) (TidMap.init nd roles th m)
unfolding TidMap.init
init-nthread nd roles th m =
    Ensures.bind (create-nthread nd roles th 0 (record m { nthread = 0; nrole = 0 }))
      λ (t, m') e. Ensures.bind (Ensures.always (TidMap.self_tid nd th m')) λ self _. ensured e.1

either : (P : Sched → Type 0) (b : Bool) (x y : Sched) → P x → P y → P (if b then x else y)
either P true x y px py = px
either P false x y px py = py

pub start-IsOrderly : (o : Options) (th : Pthread) → IsChecked o → Ensures IsOrderly (start o th)
unfolding start create_elem set_status
start-IsOrderly o th c =
    Ensures.bind (init-nthread o.ndebug o.wakeamap_plus th cleared) λ (self, m) one.
      let s0 : Sched = record (blank o) { tids = m } in
      let s1 = create_elem main_thread_tid s0 in
      let known = record s1 { hp_known = update s1.hp_known main_thread_tid true } in
      let s2 = (if o.hp_policy then known else s1) in
      let thin = λ (s' : Sched). IsOrderly s' × (placed 0 s' ≡ 0) × (0 < s'.tids.nthread) in
      let v0 = blank-IsOrderly o m c in
      let v2 : thin s2 =
        either thin o.hp_policy known s1
          (
            Thins-IsOrderly s0 known v0 (alike-Thins s0 known refl refl refl refl refl refl refl),
            refl,
            omega (arith, one),
          )
          (
            Thins-IsOrderly s0 s1 v0 (alike-Thins s0 s1 refl refl refl refl refl refl refl),
            refl,
            omega (arith, one),
          ) in
      Ensures.bind (push_runq-IsOrderly main_thread_tid s2 v2.0 v2.1 v2.2) λ s3 w.
        let s4 = post_to main_thread_tid s3 in
        ensured (
          Thins-IsOrderly s4 _ (Thins-IsOrderly s3 s4 w.0 (post_to-Thins main_thread_tid s3))
            (alike-Thins s4 _ refl refl refl refl refl refl refl))

try_wait-Alike :
    (p : TurnType) (w : Slot) (y : Bool) (w' : Slot) (y' : Bool)
    → try_wait p w y ≡ some (w', y')
    → Alike w' w
unfolding try_wait
try_wait-Alike semaphore_relay w y w' y' h = ground (arith, h)
try_wait-Alike hybrid_relay w y w' y' h = ground (arith, h)
try_wait-Alike busy_relay w y w' y' h = ground (arith, h)
try_wait-Alike null_policy w y w' y' h = ground (arith, h)
try_wait-Alike other_relay w y w' y' h = ground (arith, h)

pub get_turn-IsOrderly :
    (me : ℕ) (s s' : Sched) → IsOrderly s → get_turn me s ≡ some s' → IsOrderly s'
unfolding get_turn
get_turn-IsOrderly me s s' v h = go (try_wait s.opts.turn_type (s.slots me) s.in_sync) refl h
  where
    go :
        (r : Option (Slot × Bool))
        → try_wait s.opts.turn_type (s.slots me) s.in_sync ≡ r
        → (elim r as (λ _. Option Sched) [
          | none ↦ none
          | some (w, y) ↦ some (record (set_slot me w s) { in_sync = y })
        ])
          ≡ some s'
        → IsOrderly s'
    go none t h = cc
    go (some (w, y)) t h =
        let s1 : Sched = record (set_slot me w s) { in_sync = y } in
        let e : s1 ≡ s' = cc in
        subst IsOrderly e (
          Thins-IsOrderly s s1 v (
            unfold set_slot in
            record {
              opts = refl;
              fewer = λ a. omega arith;
              waitq = refl;
              slots = λ a.
                  one-Alike me w s.slots a
                    (try_wait-Alike s.opts.turn_type (s.slots me) s.in_sync w y t);
              nthread = refl;
              wakeups = refl;
              flag = refl;
            }))

pub inter_pro_start-IsOrderly :
    (t : ℕ) (s : Sched) → IsOrderly s → Ensures (λ (b, s'). IsOrderly s') (inter_pro_start t s)
unfolding inter_pro_start set_status
inter_pro_start-IsOrderly t s v =
    Ensures.branch (not (s.known t)) (λ e. failed {e = bad_pointer})
      (λ e.
        Ensures.branch (is_runnable (s.status t))
          (λ o.
            ensured {a = (false, set_status t inter_pro_stop s)}
              (Thins-IsOrderly s _ v (alike-Thins s _ refl refl refl refl refl refl refl)))
          (λ o.
            Ensures.after_assert s.opts.ndebug (is_running_reg (s.status t)) (
              ensured
                (Thins-IsOrderly s _ v (alike-Thins s _ refl refl refl refl refl refl refl)))))

pub inter_pro_end-IsOrderly :
    (t : ℕ) (s : Sched) → IsOrderly s → Ensures (λ (b, s'). IsOrderly s') (inter_pro_end t s)
unfolding inter_pro_end set_status
inter_pro_end-IsOrderly t s v =
    Ensures.branch (not (s.known t)) (λ e. failed {e = bad_pointer})
      (λ e.
        Ensures.after_assert s.opts.ndebug (is_stop (s.status t))
          (ensured (Thins-IsOrderly s _ v (alike-Thins s _ refl refl refl refl refl refl refl))))

-- A thread that does not wait asks to be woken.
pub wakeup-IsOrderly :
    (t : ℕ) (s : Sched)
    → times t s.waitq ≡ 0
    → t < s.tids.nthread
    → IsOrderly s
    → IsOrderly (wakeup t s)
unfolding wakeup
wakeup-IsOrderly t s out id v = record {
  opts = v.opts;
  once = v.once;
  calm = v.calm;
  waits = v.waits;
  ids = v.ids;
  woken = λ a h. elim (Bool-cases (has t s.wakeup_tids)) [
    | inl e ↦ v.woken a (rw e at h)
    | inr e ↦ ground (arith, v.woken a, has-append a s.wakeup_tids (t ∷ []), h, e, out, id)
  ];
  low = v.low;
  flagged = λ e. cc;
}
