-- ===== src/Log/Known.antt =====
-- Which operations the text log knows, and that it reads no more than is passed.
use min_smt.Prelude.{
  ℕ, zero, suc, ◌≤◌, ◌≡◌, refl, false, Bool, Option, none, some, List, [], ◌∷◌, length, arith, ok,
  err, assertion, ◌⊎◌, inl, inr,
}
use min_smt.Prelude.Int.{ℤ}
use min_smt.Runtime.State.{Timespec}
use min_smt.Log.{
  tern_thread_begin, tern_thread_end, pthread_create, pthread_join, pthread_mutex_init,
  pthread_mutex_destroy, pthread_mutex_lock, pthread_rwlock_rdlock, pthread_rwlock_wrlock,
  pthread_rwlock_tryrdlock, pthread_rwlock_trywrlock, pthread_rwlock_unlock, pthread_rwlock_destroy,
  pthread_rwlock_init, pthread_mutex_trylock, pthread_mutex_timedlock, pthread_mutex_unlock,
  pthread_barrier_init, pthread_barrier_wait, pthread_barrier_destroy, pthread_cond_wait,
  pthread_cond_timedwait, pthread_cond_signal, pthread_cond_broadcast, sem_wait, sem_trywait,
  sem_timedwait, sem_post, sem_init, tern_lineup_init, tern_lineup_destroy, tern_lineup_start,
  tern_lineup_end, tern_non_det_start, tern_ext_get_turn, tern_ext_put_turn, tern_dummy_sync,
  tern_symbolic, tern_idle, fork, sched_yield, sleep, usleep, nanosleep, LoggedOp, Line, passes,
  reads, in_two_parts, suffix_of, read_args, log_sync,
}

-- The operations that the log does not know.
pub data Unknown : LoggedOp → Type 0 where
  lost_destroy : Unknown pthread_rwlock_destroy
  lost_init : Unknown pthread_rwlock_init
  lost_symbolic : Unknown tern_symbolic

unknown : (o : LoggedOp) → reads o ≡ none → Unknown o
unfolding reads
unknown tern_thread_begin e = absurd (ground (arith, e))
unknown tern_thread_end e = absurd (ground (arith, e))
unknown pthread_create e = absurd (ground (arith, e))
unknown pthread_join e = absurd (ground (arith, e))
unknown pthread_mutex_init e = absurd (ground (arith, e))
unknown pthread_mutex_destroy e = absurd (ground (arith, e))
unknown pthread_mutex_lock e = absurd (ground (arith, e))
unknown pthread_rwlock_rdlock e = absurd (ground (arith, e))
unknown pthread_rwlock_wrlock e = absurd (ground (arith, e))
unknown pthread_rwlock_tryrdlock e = absurd (ground (arith, e))
unknown pthread_rwlock_trywrlock e = absurd (ground (arith, e))
unknown pthread_rwlock_unlock e = absurd (ground (arith, e))
unknown pthread_rwlock_destroy e = lost_destroy
unknown pthread_rwlock_init e = lost_init
unknown pthread_mutex_trylock e = absurd (ground (arith, e))
unknown pthread_mutex_timedlock e = absurd (ground (arith, e))
unknown pthread_mutex_unlock e = absurd (ground (arith, e))
unknown pthread_barrier_init e = absurd (ground (arith, e))
unknown pthread_barrier_wait e = absurd (ground (arith, e))
unknown pthread_barrier_destroy e = absurd (ground (arith, e))
unknown pthread_cond_wait e = absurd (ground (arith, e))
unknown pthread_cond_timedwait e = absurd (ground (arith, e))
unknown pthread_cond_signal e = absurd (ground (arith, e))
unknown pthread_cond_broadcast e = absurd (ground (arith, e))
unknown sem_wait e = absurd (ground (arith, e))
unknown sem_trywait e = absurd (ground (arith, e))
unknown sem_timedwait e = absurd (ground (arith, e))
unknown sem_post e = absurd (ground (arith, e))
unknown sem_init e = absurd (ground (arith, e))
unknown tern_lineup_init e = absurd (ground (arith, e))
unknown tern_lineup_destroy e = absurd (ground (arith, e))
unknown tern_lineup_start e = absurd (ground (arith, e))
unknown tern_lineup_end e = absurd (ground (arith, e))
unknown tern_non_det_start e = absurd (ground (arith, e))
unknown tern_ext_get_turn e = absurd (ground (arith, e))
unknown tern_ext_put_turn e = absurd (ground (arith, e))
unknown tern_dummy_sync e = absurd (ground (arith, e))
unknown tern_symbolic e = lost_symbolic
unknown tern_idle e = absurd (ground (arith, e))
unknown fork e = absurd (ground (arith, e))
unknown sched_yield e = absurd (ground (arith, e))
unknown sleep e = absurd (ground (arith, e))
unknown usleep e = absurd (ground (arith, e))
unknown nanosleep e = absurd (ground (arith, e))

reads-passes : (o : LoggedOp) (n : ℕ) → reads o ≡ some n → n ≤ passes o
unfolding reads passes
reads-passes tern_thread_begin n e = ground (arith, e)
reads-passes tern_thread_end n e = ground (arith, e)
reads-passes pthread_create n e = ground (arith, e)
reads-passes pthread_join n e = ground (arith, e)
reads-passes pthread_mutex_init n e = ground (arith, e)
reads-passes pthread_mutex_destroy n e = ground (arith, e)
reads-passes pthread_mutex_lock n e = ground (arith, e)
reads-passes pthread_rwlock_rdlock n e = ground (arith, e)
reads-passes pthread_rwlock_wrlock n e = ground (arith, e)
reads-passes pthread_rwlock_tryrdlock n e = ground (arith, e)
reads-passes pthread_rwlock_trywrlock n e = ground (arith, e)
reads-passes pthread_rwlock_unlock n e = ground (arith, e)
reads-passes pthread_rwlock_destroy n e = ground (arith, e)
reads-passes pthread_rwlock_init n e = ground (arith, e)
reads-passes pthread_mutex_trylock n e = ground (arith, e)
reads-passes pthread_mutex_timedlock n e = ground (arith, e)
reads-passes pthread_mutex_unlock n e = ground (arith, e)
reads-passes pthread_barrier_init n e = ground (arith, e)
reads-passes pthread_barrier_wait n e = ground (arith, e)
reads-passes pthread_barrier_destroy n e = ground (arith, e)
reads-passes pthread_cond_wait n e = ground (arith, e)
reads-passes pthread_cond_timedwait n e = ground (arith, e)
reads-passes pthread_cond_signal n e = ground (arith, e)
reads-passes pthread_cond_broadcast n e = ground (arith, e)
reads-passes sem_wait n e = ground (arith, e)
reads-passes sem_trywait n e = ground (arith, e)
reads-passes sem_timedwait n e = ground (arith, e)
reads-passes sem_post n e = ground (arith, e)
reads-passes sem_init n e = ground (arith, e)
reads-passes tern_lineup_init n e = ground (arith, e)
reads-passes tern_lineup_destroy n e = ground (arith, e)
reads-passes tern_lineup_start n e = ground (arith, e)
reads-passes tern_lineup_end n e = ground (arith, e)
reads-passes tern_non_det_start n e = ground (arith, e)
reads-passes tern_ext_get_turn n e = ground (arith, e)
reads-passes tern_ext_put_turn n e = ground (arith, e)
reads-passes tern_dummy_sync n e = ground (arith, e)
reads-passes tern_symbolic n e = ground (arith, e)
reads-passes tern_idle n e = ground (arith, e)
reads-passes fork n e = ground (arith, e)
reads-passes sched_yield n e = ground (arith, e)
reads-passes sleep n e = ground (arith, e)
reads-passes usleep n e = ground (arith, e)
reads-passes nanosleep n e = ground (arith, e)

read_args-returns :
    (n : ℕ) (args : List ℕ)
    → n ≤ length args
    → (r : List ℕ) × (read_args n args ≡ ok r) × (length r ≡ n)
unfolding read_args
read_args-returns zero args h = ([], refl, refl)
read_args-returns (suc n) [] h = absurd (omega arith)
read_args-returns (suc n) (x ∷ args) h =
    let (r, q, e) = read_args-returns n args (omega arith) in (x ∷ r, rw q refl, omega arith)

-- A build with assertions, for each operation that the runtime logs and for as many arguments as it
-- passes: the log either knows the operation, reads no argument that was not passed, and makes a
-- line for the operation and the thread with the arguments that it has for it; or it does not know
-- the operation, which holds for `pthread_rwlock_init`, `pthread_rwlock_destroy` and `tern_symbolic`
-- and for no other, and its assertion fails.
pub log_sync-knows :
    (iter : ℤ) (tid : ℕ) (wait_type : ℤ) (o : LoggedOp) (insid turn : ℕ) (t1 t2 t3 : Timespec)
    (after : Bool) (args : List ℕ)
    → length args ≡ passes o
    → ((line : Line) × (log_sync false iter tid wait_type o insid turn t1 t2 t3 after args
          ≡ ok line)
        × (reads o ≡ some (length line.args))
        × (line.op ≡ o)
        × (line.tid ≡ tid))
      ⊎ ((log_sync false iter tid wait_type o insid turn t1 t2 t3 after args ≡ err assertion)
          × Unknown o)
unfolding log_sync
log_sync-knows iter tid wait_type o insid turn t1 t2 t3 after args len = go (reads o) refl
  where
    go :
        (k : Option ℕ)
        → reads o ≡ k
        → ((line : Line) × (log_sync false iter tid wait_type o insid turn t1 t2 t3 after args
              ≡ ok line)
            × (reads o ≡ some (length line.args))
            × (line.op ≡ o)
            × (line.tid ≡ tid))
          ⊎ ((log_sync false iter tid wait_type o insid turn t1 t2 t3 after args ≡ err assertion)
              × Unknown o)
    go none e = inr (rw e refl, unknown o e)
    go (some n) e =
        let (r, q, same) = read_args-returns n args (omega (arith, reads-passes o n e, len)) in
        inl (
          record {
            iter_num = iter;
            op = o;
            suffix = suffix_of (in_two_parts o) after;
            insid = insid;
            turn = turn;
            app_time = t1;
            syscall_time = t2;
            sched_time = t3;
            tid = tid;
            wait_type = wait_type;
            args = r;
          },
          rw (e, q) refl,
          rw (e, same) refl,
          refl,
          refl,
        )
