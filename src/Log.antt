-- ===== src/Log.antt =====
-- The text log of lib/runtime/record-log.cpp, `TxtLogger`: the line that an operation is logged with.
-- A line is kept as its fields; how they are printed is left out.
use min_smt.Prelude.{
  ℕ, zero, suc, ◌≤◌, ◌≡◌, refl, Bool, true, false, Option, none, some, List, [], ◌∷◌, length, arith,
  Result, ok, err, bad_pointer, ◌⊎◌, inl, inr, assertion, assert, ◌>>=◌, ◌>>◌,
}
use min_smt.Prelude.Int.{ℤ}
use min_smt.Runtime.State.{Timespec}
pub mod Records
pub mod Known

-- The operations that `RecorderRT` logs.
pub data LoggedOp : Type 0 where
  tern_thread_begin tern_thread_end pthread_create pthread_join pthread_mutex_init : LoggedOp
  pthread_mutex_destroy pthread_mutex_lock pthread_rwlock_rdlock : LoggedOp
  pthread_rwlock_wrlock pthread_rwlock_tryrdlock pthread_rwlock_trywrlock : LoggedOp
  pthread_rwlock_unlock pthread_rwlock_destroy pthread_rwlock_init : LoggedOp
  pthread_mutex_trylock pthread_mutex_timedlock pthread_mutex_unlock : LoggedOp
  pthread_barrier_init pthread_barrier_wait pthread_barrier_destroy : LoggedOp
  pthread_cond_wait pthread_cond_timedwait pthread_cond_signal : LoggedOp
  pthread_cond_broadcast sem_wait sem_trywait sem_timedwait sem_post sem_init : LoggedOp
  tern_lineup_init tern_lineup_destroy tern_lineup_start tern_lineup_end : LoggedOp
  tern_non_det_start tern_ext_get_turn tern_ext_put_turn tern_dummy_sync : LoggedOp
  tern_symbolic tern_idle fork sched_yield sleep usleep nanosleep : LoggedOp

-- How many arguments the runtime passes for each, behind the fixed ones.
unfoldable pub passes : LoggedOp → ℕ
passes tern_thread_begin = 1
passes tern_thread_end = 1
passes pthread_create = 2
passes pthread_join = 1
passes pthread_mutex_init = 1
passes pthread_mutex_destroy = 1
passes pthread_mutex_lock = 1
passes pthread_rwlock_rdlock = 1
passes pthread_rwlock_wrlock = 1
passes pthread_rwlock_tryrdlock = 2
passes pthread_rwlock_trywrlock = 2
passes pthread_rwlock_unlock = 2
passes pthread_rwlock_destroy = 2
passes pthread_rwlock_init = 3
passes pthread_mutex_trylock = 2
passes pthread_mutex_timedlock = 2
passes pthread_mutex_unlock = 2
passes pthread_barrier_init = 2
passes pthread_barrier_wait = 1
passes pthread_barrier_destroy = 2
passes pthread_cond_wait = 2
passes pthread_cond_timedwait = 3
passes pthread_cond_signal = 1
passes pthread_cond_broadcast = 1
passes sem_wait = 1
passes sem_trywait = 2
passes sem_timedwait = 2
passes sem_post = 2
passes sem_init = 2
passes tern_lineup_init = 3
passes tern_lineup_destroy = 1
passes tern_lineup_start = 1
passes tern_lineup_end = 1
passes tern_non_det_start = 1
passes tern_ext_get_turn = 1
passes tern_ext_put_turn = 1
passes tern_dummy_sync = 1
passes tern_symbolic = 2
passes tern_idle = 0
passes fork = 1
passes sched_yield = 1
passes sleep = 1
passes usleep = 1
passes nanosleep = 1

-- How many arguments the log reads for each; `none` is one that it does not know.
unfoldable pub reads : LoggedOp → Option ℕ
reads tern_thread_begin = some 1
reads tern_thread_end = some 1
reads pthread_create = some 2
reads pthread_join = some 1
reads pthread_mutex_init = some 1
reads pthread_mutex_destroy = some 1
reads pthread_mutex_lock = some 1
reads pthread_rwlock_rdlock = some 1
reads pthread_rwlock_wrlock = some 1
reads pthread_rwlock_tryrdlock = some 2
reads pthread_rwlock_trywrlock = some 2
reads pthread_rwlock_unlock = some 2
reads pthread_rwlock_destroy = none
reads pthread_rwlock_init = none
reads pthread_mutex_trylock = some 2
reads pthread_mutex_timedlock = some 2
reads pthread_mutex_unlock = some 1
reads pthread_barrier_init = some 2
reads pthread_barrier_wait = some 1
reads pthread_barrier_destroy = some 1
reads pthread_cond_wait = some 2
reads pthread_cond_timedwait = some 3
reads pthread_cond_signal = some 1
reads pthread_cond_broadcast = some 1
reads sem_wait = some 1
reads sem_trywait = some 2
reads sem_timedwait = some 2
reads sem_post = some 1
reads sem_init = some 1
reads tern_lineup_init = some 3
reads tern_lineup_destroy = some 1
reads tern_lineup_start = some 1
reads tern_lineup_end = some 1
reads tern_non_det_start = some 0
reads tern_ext_get_turn = some 0
reads tern_ext_put_turn = some 0
reads tern_dummy_sync = some 0
reads tern_symbolic = none
reads tern_idle = some 0
reads fork = some 0
reads sched_yield = some 0
reads sleep = some 1
reads usleep = some 1
reads nanosleep = some 1

-- `NumRecordsForSync(sync) == 2`.
unfoldable pub in_two_parts : LoggedOp → Bool
in_two_parts tern_thread_begin = false
in_two_parts tern_thread_end = false
in_two_parts pthread_create = false
in_two_parts pthread_join = false
in_two_parts pthread_mutex_init = false
in_two_parts pthread_mutex_destroy = false
in_two_parts pthread_mutex_lock = false
in_two_parts pthread_rwlock_rdlock = false
in_two_parts pthread_rwlock_wrlock = false
in_two_parts pthread_rwlock_tryrdlock = false
in_two_parts pthread_rwlock_trywrlock = false
in_two_parts pthread_rwlock_unlock = false
in_two_parts pthread_rwlock_destroy = false
in_two_parts pthread_rwlock_init = false
in_two_parts pthread_mutex_trylock = false
in_two_parts pthread_mutex_timedlock = false
in_two_parts pthread_mutex_unlock = false
in_two_parts pthread_barrier_init = false
in_two_parts pthread_barrier_wait = true
in_two_parts pthread_barrier_destroy = false
in_two_parts pthread_cond_wait = true
in_two_parts pthread_cond_timedwait = true
in_two_parts pthread_cond_signal = false
in_two_parts pthread_cond_broadcast = false
in_two_parts sem_wait = false
in_two_parts sem_trywait = false
in_two_parts sem_timedwait = false
in_two_parts sem_post = false
in_two_parts sem_init = false
in_two_parts tern_lineup_init = false
in_two_parts tern_lineup_destroy = false
in_two_parts tern_lineup_start = false
in_two_parts tern_lineup_end = false
in_two_parts tern_non_det_start = false
in_two_parts tern_ext_get_turn = false
in_two_parts tern_ext_put_turn = false
in_two_parts tern_dummy_sync = false
in_two_parts tern_symbolic = false
in_two_parts tern_idle = false
in_two_parts fork = false
in_two_parts sched_yield = false
in_two_parts sleep = false
in_two_parts usleep = false
in_two_parts nanosleep = false

-- A line. The suffix says which part of an operation in two parts it is.
pub data Suffix : Type 0 where
  whole first_part second_part : Suffix

pub record Line : Type 0 where
  pub iter_num : ℤ
  pub op : LoggedOp
  pub suffix : Suffix
  pub insid : ℕ
  pub turn : ℕ
  pub app_time : Timespec
  pub syscall_time : Timespec
  pub sched_time : Timespec
  pub tid : ℕ
  pub wait_type : ℤ
  pub args : List ℕ

abbrev pub suffix_of : (two : Bool) → (after : Bool) → Suffix
suffix_of false after = whole
suffix_of true false = first_part
suffix_of true true = second_part

-- `va_arg`, so many times; to read an argument that was not passed is undefined.
unfoldable pub read_args : ℕ → List ℕ → Result (List ℕ)
read_args zero args = ok []
read_args (suc n) [] = err bad_pointer
read_args (suc n) (x ∷ args) = do r ← read_args n args; ok (x ∷ r)

-- The `switch` of `logSync`.
unfoldable pub read_known : (ndebug : Bool) → Option ℕ → List ℕ → Result (List ℕ)
unfolding read_args
read_known nd none args = do assert nd false; ok []
read_known nd (some n) args = read_args n args

-- `logSync` by the log of the thread `tid`.
unfoldable pub log_sync :
    (ndebug : Bool)
    → (iter_num : ℤ) → (tid : ℕ) → (wait_type : ℤ) → LoggedOp
    → (insid turn : ℕ) → (time1 time2 sched_time : Timespec) → (after : Bool) → List ℕ
    → Result Line
unfolding read_known reads in_two_parts
log_sync nd iter tid wait_type o insid turn t1 t2 t3 after passed = do
  read ← read_known nd (reads o) passed
  ok (record {
    iter_num = iter;
    op = o;
    suffix = suffix_of (in_two_parts o) after;
    insid = insid;
    turn = turn;
    app_time = t1;
    syscall_time = t2;
    sched_time = t3;
    tid = tid;
    wait_type = wait_type;
    args = read;
  })
