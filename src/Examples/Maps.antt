-- ===== src/Examples/Maps.antt =====
-- A thread map of one thread, and sets of threads in regions.
use min_smt.Prelude.{◌≡◌, refl, true, false, none, some, [], ◌∷◌, arith, ok, update}
use min_smt.TidMap
use min_smt.TidMap.{
  TidMap, Pthread, Routine, cleared, get_tid, get_pthread_tid, zombie, zombify, reap, get_roleid,
  change_role, reset,
}
use min_smt.TidMap.Laws.{create-IsValid}
use min_smt.NonDetSet
use min_smt.NonDetSet.{NonDetSet, insert, remove}
use min_smt.NonDetSet.Laws.{insert-IsValid}

-- Thread 0 with the handle 70, and the routine NULL with role 0.
abbrev one_thread : TidMap
one_thread = record {
  p_t_map = update (λ _. none) 70 (some 0);
  t_p_map = update (λ _. none) 0 (some 70);
  zombies = λ _. false;
  nthread = 1;
  f_r_map = update (λ _. none) 0 (some 0);
  r_f_map = update (λ _. none) 0 (some 0);
  nrole = 1;
  t_r_map = update (λ _. none) 0 (some 0);
}

one_thread-IsValid : TidMap.Laws.IsValid one_thread
one_thread-IsValid = record {
  there = λ p t e. ground arith;
  back = λ p t e. ground arith;
  below = λ t p e. ground arith;
  role_there = λ f r e. ground arith;
  role_below = λ f r e. ground arith;
}

create-IsValid_example :
    (m' : TidMap) × (TidMap.create false true 71 900 one_thread ≡ ok (1, m'))
    × TidMap.Laws.IsValid m'
    × (get_tid 71 m' ≡ some 1)
    × (get_pthread_tid 1 m' ≡ some 71)
    × (m'.nthread ≡ 2)
create-IsValid_example = create-IsValid false true 71 900 one_thread one_thread-IsValid refl

abbrev in_region : NonDetSet
in_region = record { tid_list = 4 ∷ []; clocks = (4, 17) ∷ [] }

in_region-IsValid : NonDetSet.Laws.IsValid in_region
in_region-IsValid = record { same = refl; distinct = ground arith }

insert-IsValid_example :
    (s' : NonDetSet) × (insert false 2 20 in_region ≡ ok s')
    × NonDetSet.Laws.IsValid s'
    × (s'.tid_list ≡ 4 ∷ 2 ∷ [])
    × (NonDetSet.get_clock false 2 s' ≡ ok (20, s'))
    × (NonDetSet.contains 2 s' ≡ true)
insert-IsValid_example = insert-IsValid false 2 20 in_region in_region-IsValid refl
