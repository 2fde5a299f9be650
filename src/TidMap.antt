-- ===== src/TidMap.antt =====
-- `struct TidMap` of include/tern/runtime/scheduler.h: logical thread ids for pthread handles, and
-- role ids for the start routines. An `unordered_map` or `unordered_set` is a function; a handle
-- and a routine are numbers, the routine `NULL` being 0. `ndebug` says whether the build has
-- `-DNDEBUG`. The thread-local `self_tid` and `self_roleid` are results and arguments.
pub mod Laws
use min_smt.Prelude.{
  ℕ, ◌+◌, Bool, true, false, Option, none, some, ◌==◌, if◌then◌else◌, update, Result, ok, err,
  bad_pointer, assert, ◌>>=◌, ◌>>◌,
}

abbrev pub Pthread : Type 0
Pthread = ℕ

abbrev pub Routine : Type 0
Routine = ℕ

abbrev pub main_thread_tid : ℕ
main_thread_tid = 0

abbrev pub idle_thread_tid : ℕ
idle_thread_tid = 1

pub record TidMap : Type 0 where
  pub p_t_map : Pthread → Option ℕ
  pub t_p_map : ℕ → Option Pthread
  pub zombies : Pthread → Bool
  pub nthread : ℕ
  pub f_r_map : Routine → Option ℕ
  pub r_f_map : ℕ → Option Routine
  pub nrole : ℕ
  pub t_r_map : ℕ → Option ℕ

abbrev pub is_some {ℓ} : {A : Type ℓ} → Option A → Bool
is_some none = false
is_some (some a) = true

abbrev pub is_none {ℓ} : {A : Type ℓ} → Option A → Bool
is_none none = true
is_none (some a) = false

-- The part of `create` and `changeRole` that gives thread `tid` the role of `func`.
unfoldable pub assign_role : ℕ → Routine → TidMap → TidMap
assign_role tid func m = elim (m.f_r_map func) [
  | none ↦ record m {
    f_r_map = update m.f_r_map func (some m.nrole);
    r_f_map = update m.r_f_map m.nrole (some func);
    t_r_map = update m.t_r_map tid (some m.nrole);
    nrole = m.nrole + 1;
  }
  | some r ↦ record m { t_r_map = update m.t_r_map tid (some r) }
]

-- `create`; the result is the new thread id. `roles` is `options::wakeamap_plus`.
unfoldable pub create : (ndebug roles : Bool) → Pthread → Routine → TidMap → Result (ℕ × TidMap)
unfolding assign_role
create nd roles th func m = do
  assert nd (is_none (m.p_t_map th))
  let m1 = record m {
    p_t_map = update m.p_t_map th (some m.nthread);
    t_p_map = update m.t_p_map m.nthread (some th);
  }
  let m2 = if roles then assign_role m.nthread func m1 else m1
  ok (m.nthread, record m2 { nthread = m.nthread + 1 })

-- `changeRole`. `p_t_map[th]` of a missing handle is a fresh 0.
unfoldable pub change_role : (ndebug : Bool) → Pthread → Routine → TidMap → Result TidMap
unfolding assign_role
change_role nd th func m = do
  assert nd (is_some (m.p_t_map th))
  ok (elim (m.p_t_map th) [
    | some tid ↦ assign_role tid func m
    | none ↦ assign_role 0 func (record m { p_t_map = update m.p_t_map th (some 0) })
  ])

-- `getRoleid`; with no entry the iterator is read past the end.
unfoldable pub get_roleid : (ndebug : Bool) → ℕ → TidMap → Result ℕ
get_roleid nd tid m = do
  assert nd (is_some (m.t_r_map tid))
  elim (m.t_r_map tid) [ some r ↦ ok r | none ↦ err bad_pointer ]

-- `self(self_th)`: what becomes of `self_tid`.
unfoldable pub self_tid : (ndebug : Bool) → Pthread → TidMap → Result ℕ
self_tid nd th m = do
  assert nd (is_some (m.p_t_map th))
  elim (m.p_t_map th) [ some tid ↦ ok tid | none ↦ err bad_pointer ]

-- `zombify(self_th)` by the thread `self`.
unfoldable pub zombify : (ndebug : Bool) → (self : ℕ) → Pthread → TidMap → Result TidMap
zombify nd self th m = do
  assert nd (is_some (m.t_p_map self))
  elim (m.t_p_map self) [
    | none ↦ err bad_pointer
    | some p ↦
        assert nd (th == p)
        >> ok (record m {
          zombies = update m.zombies p true;
          p_t_map = update m.p_t_map p none;
          t_p_map = update m.t_p_map self none;
        })
  ]

unfoldable pub reap : Pthread → TidMap → TidMap
reap th m = record m { zombies = update m.zombies th false }

-- `getTid`; `none` is `InvalidTid`.
unfoldable pub get_tid : Pthread → TidMap → Option ℕ
get_tid th m = m.p_t_map th

-- `getPthreadTid`.
unfoldable pub get_pthread_tid : ℕ → TidMap → Option Pthread
get_pthread_tid tid m = m.t_p_map tid

unfoldable pub zombie : Pthread → TidMap → Bool
zombie th m = m.zombies th

abbrev pub cleared : TidMap
cleared = record {
  p_t_map = λ _. none;
  t_p_map = λ _. none;
  zombies = λ _. false;
  nthread = 0;
  f_r_map = λ _. none;
  r_f_map = λ _. none;
  nrole = 0;
  t_r_map = λ _. none;
}

-- `init(main_th)`; `self(main_th)` at its end reads the entry that `create` has made.
unfoldable pub init : (ndebug roles : Bool) → Pthread → TidMap → Result (ℕ × TidMap)
unfolding create self_tid
init nd roles main_th m = do
  (t, m') ← create nd roles main_th 0 (record m { nthread = 0; nrole = 0 })
  self ← self_tid nd main_th m'
  ok (self, m')

-- `reset(main_th)`.
unfoldable pub reset : (ndebug roles : Bool) → Pthread → TidMap → Result (ℕ × TidMap)
unfolding init
reset nd roles main_th m = init nd roles main_th cleared
