-- ===== src/TidMap/Laws.antt =====
-- The invariant of the thread map and what its operations keep.
use min_smt.Prelude.{
  ℕ, ◌+◌, ◌<◌, ◌≡◌, ◌≢◌, refl, Bool, true, false, Option, none, some, arith, ok, if◌then◌else◌,
  update,
}
use min_smt.TidMap.{
  TidMap, Pthread, Routine, create, change_role, get_roleid, self_tid, zombify, get_tid,
  get_pthread_tid, zombie, reap, reset, assign_role, cleared,
}

-- Handles and ids name each other one to one, ids are below `nthread`, and roles and routines
-- likewise.
pub record IsValid (m : TidMap) : Type 0 where
  pub there : (th : Pthread) (t : ℕ) → m.p_t_map th ≡ some t → m.t_p_map t ≡ some th
  pub back : (th : Pthread) (t : ℕ) → m.t_p_map t ≡ some th → m.p_t_map th ≡ some t
  pub below : (t : ℕ) (th : Pthread) → m.t_p_map t ≡ some th → t < m.nthread
  pub role_there : (f : Routine) (r : ℕ) → m.f_r_map f ≡ some r → m.r_f_map r ≡ some f
  pub role_below : (f : Routine) (r : ℕ) → m.f_r_map f ≡ some r → r < m.nrole

-- The map after the new thread's entries are made, and its count.
abbrev entered : Pthread → TidMap → TidMap
entered th m = record m {
  p_t_map = update m.p_t_map th (some m.nthread);
  t_p_map = update m.t_p_map m.nthread (some th);
  nthread = m.nthread + 1;
}

entered-IsValid :
    (th : Pthread) (m : TidMap) → IsValid m → m.p_t_map th ≡ none → IsValid (entered th m)
entered-IsValid th m v new = record {
  there = λ p t e. ground (arith, v.there p t, v.below t p);
  back = λ p t e. ground (arith, v.back p t, v.below t p);
  below = λ t p e. ground (arith, v.below t p);
  role_there = v.role_there;
  role_below = v.role_below;
}

-- Giving a role touches neither handles nor ids.
assign_role-IsValid :
    (tid : ℕ) (f : Routine) (m : TidMap) → IsValid m → IsValid (assign_role tid f m)
unfolding assign_role
assign_role-IsValid tid f m v = split (m.f_r_map f) refl
  where
    split : (o : Option ℕ) → m.f_r_map f ≡ o → IsValid (assign_role tid f m)
    split none e = record {
      there = λ p t h. ground (arith, v.there p t);
      back = λ p t h. ground (arith, v.back p t);
      below = λ t p h. ground (arith, v.below t p);
      role_there = λ g r h. ground (arith, v.role_there g r, v.role_below g r);
      role_below = λ g r h. ground (arith, v.role_below g r);
    }
    split (some r) e = record {
      there = λ p t h. ground (arith, v.there p t);
      back = λ p t h. ground (arith, v.back p t);
      below = λ t p h. ground (arith, v.below t p);
      role_there = λ g r' h. ground (arith, v.role_there g r');
      role_below = λ g r' h. ground (arith, v.role_below g r');
    }

-- `create` without its assertion.
abbrev created : (roles : Bool) → Pthread → Routine → TidMap → TidMap
created roles th f m = if roles then assign_role m.nthread f (entered th m) else entered th m

create-computes :
    (nd roles : Bool) (th : Pthread) (f : Routine) (m : TidMap)
    → m.p_t_map th ≡ none
    → create nd roles th f m ≡ ok (m.nthread, created roles th f m)
unfolding create assign_role
create-computes nd roles th f m new = ground arith

-- `create` of a handle that is not in the map hands out the next id, whose handle it then is, and
-- keeps the invariant, in both builds and with or without roles.
pub create-IsValid :
    (nd roles : Bool) (th : Pthread) (f : Routine) (m : TidMap)
    → IsValid m
    → m.p_t_map th ≡ none
    → (m' : TidMap) × (create nd roles th f m ≡ ok (m.nthread, m'))
      × IsValid m'
      × (get_tid th m' ≡ some m.nthread)
      × (get_pthread_tid m.nthread m' ≡ some th)
      × (m'.nthread ≡ m.nthread + 1)
unfolding get_tid get_pthread_tid assign_role
create-IsValid nd true th f m v new = (
  created true th f m,
  create-computes nd true th f m new,
  assign_role-IsValid m.nthread f (entered th m) (entered-IsValid th m v new),
  ground arith,
  ground arith,
  ground arith,
)
create-IsValid nd false th f m v new = (
  created false th f m,
  create-computes nd false th f m new,
  entered-IsValid th m v new,
  ground arith,
  ground arith,
  ground arith,
)

-- With a valid map, a thread that ends leaves both maps, is a zombie, and is one no more once it is reaped; the ids
-- of all other threads stay.
zombify-IsValid :
    (nd : Bool) (self : ℕ) (th : Pthread) (m : TidMap)
    → IsValid m
    → m.t_p_map self ≡ some th
    → (m' : TidMap) × (zombify nd self th m ≡ ok m')
      × IsValid m'
      × (zombie th m' ≡ true)
      × (get_tid th m' ≡ none)
      × (get_pthread_tid self m' ≡ none)
      × (zombie th (reap th m') ≡ false)
      × ((p : Pthread) → p ≢ th → get_tid p m' ≡ get_tid p m)
unfolding zombify zombie get_tid get_pthread_tid reap
zombify-IsValid nd self th m v e = (
  record m {
    zombies = update m.zombies th true;
    p_t_map = update m.p_t_map th none;
    t_p_map = update m.t_p_map self none;
  },
  ground arith,
  record {
    there = λ p t h. ground (arith, v.there p t, v.back th t, v.back th self, v.there th t);
    back = λ p t h. ground (arith, v.back p t, v.back th self);
    below = λ t p h. ground (arith, v.below t p);
    role_there = v.role_there;
    role_below = v.role_below;
  },
  ground arith,
  ground arith,
  ground arith,
  ground arith,
  λ p ne. ground arith,
)

-- Two threads of one role were started by one routine: ids of roles and routines correspond.
pub role_injective :
    (m : TidMap) (f g : Routine) (r : ℕ)
    → IsValid m
    → m.f_r_map f ≡ some r
    → m.f_r_map g ≡ some r
    → f ≡ g
role_injective m f g r v a b = ground (arith, v.role_there f r a, v.role_there g r b)

-- After `changeRole` of a thread in a valid map, which returns and keeps the map valid, the thread has the routine's role, and every routine keeps the role it had.
change_role-get_roleid :
    (nd : Bool) (th : Pthread) (f : Routine) (m : TidMap) (t : ℕ)
    → IsValid m
    → m.p_t_map th ≡ some t
    → (m' : TidMap) × (change_role nd th f m ≡ ok m')
      × IsValid m'
      × ((r : ℕ) × (get_roleid nd t m' ≡ ok r) × (m'.f_r_map f ≡ some r))
      × ((g : Routine) (r : ℕ) → m.f_r_map g ≡ some r → m'.f_r_map g ≡ some r)
unfolding change_role get_roleid
change_role-get_roleid nd th f m t v e = (
  assign_role t f m,
  ground arith,
  assign_role-IsValid t f m v,
  gets,
  λ g r h. unfold assign_role in keeps g r h,
)
  where
    gets :
        (r : ℕ) × (get_roleid nd t (assign_role t f m) ≡ ok r)
        × ((assign_role t f m).f_r_map f ≡ some r)
    gets = split (m.f_r_map f) refl
      where
        split :
            (o : Option ℕ)
            → m.f_r_map f ≡ o
            → (r : ℕ) × (get_roleid nd t (assign_role t f m) ≡ ok r)
              × ((assign_role t f m).f_r_map f ≡ some r)
        split none h = (m.nrole, ground arith, ground arith)
        split (some r) h = (r, ground arith, ground arith)

    keeps : (g : Routine) (r : ℕ) → m.f_r_map g ≡ some r → (assign_role t f m).f_r_map g ≡ some r
    keeps g r h = ground arith

cleared-IsValid : IsValid cleared
cleared-IsValid = record {
  there = λ p t h. cc;
  back = λ p t h. cc;
  below = λ t p h. cc;
  role_there = λ f r h. cc;
  role_below = λ f r h. cc;
}

-- After a fork the child's map is valid and holds the calling thread alone, as thread 0, whatever
-- it held.
pub reset-main :
    (nd roles : Bool) (th : Pthread) (m : TidMap)
    → (m' : TidMap) × (reset nd roles th m ≡ ok (0, m'))
      × IsValid m'
      × (m'.nthread ≡ 1)
      × ((p : Pthread) → p ≢ th → get_tid p m' ≡ none)
unfolding reset get_tid self_tid
reset-main nd true th m = (
  created true th 0 cleared,
  unfold create assign_role in ground arith,
  assign_role-IsValid 0 0 (entered th cleared) (entered-IsValid th cleared cleared-IsValid refl),
  unfold assign_role in ground arith,
  λ p ne. unfold assign_role in ground arith,
)
reset-main nd false th m = (
  created false th 0 cleared,
  unfold create in ground arith,
  entered-IsValid th cleared cleared-IsValid refl,
  ground arith,
  λ p ne. ground arith,
)
