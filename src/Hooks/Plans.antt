-- ===== src/Hooks/Plans.antt =====
-- Which shape each entry point of lib/runtime/hooks.cpp has. The calls that may block outside are
-- those of Runtime/Blocking.
use min_smt.Runtime.Blocking.{
  SocketCall, accept, accept4, connect, send, sendto, sendmsg, recv, recvfrom, recvmsg, FileCall,
  read, write, pread, pwrite, PollCall, select, epoll_wait, epoll_create, epoll_ctl, poll, bind,
  sigwait, kill, SetupCall, socket, listen, shutdown, getpeername, getsockopt, setsockopt, pipe,
  fcntl, close, NameCall, time, clock_getres, clock_gettime, clock_settime, gettimeofday,
  settimeofday, gethostbyname, gethostbyname_r, getaddrinfo, freeaddrinfo, gethostbyaddr, inet_ntoa,
  strtok,
}
use min_smt.Hooks.Entry.{
  Plan, crosses, bare, stays, direct, int_ret, unsigned_ret, pointer_ret, void_ret,
}

-- Threads and mutexes, from `tern_pthread_cancel` to `tern_pthread_mutex_unlock`.
pub data MutexCall : Type 0 where
  pthread_cancel pthread_create pthread_join pthread_detach pthread_mutex_init : MutexCall
  pthread_mutex_destroy pthread_mutex_lock pthread_mutex_trylock : MutexCall
  pthread_mutex_timedlock pthread_mutex_unlock : MutexCall

unfoldable pub mutex_plan : MutexCall → Plan
mutex_plan pthread_cancel = crosses int_ret
mutex_plan pthread_create = crosses int_ret
mutex_plan pthread_join = crosses int_ret
mutex_plan pthread_detach = crosses int_ret
mutex_plan pthread_mutex_init = crosses int_ret
mutex_plan pthread_mutex_destroy = crosses int_ret
mutex_plan pthread_mutex_lock = crosses int_ret
mutex_plan pthread_mutex_trylock = crosses int_ret
mutex_plan pthread_mutex_timedlock = crosses int_ret
mutex_plan pthread_mutex_unlock = crosses int_ret

-- Condition variables, barriers and semaphores, to `tern_sem_post`.
pub data CondCall : Type 0 where
  pthread_cond_wait pthread_cond_timedwait pthread_cond_signal pthread_cond_broadcast : CondCall
  pthread_barrier_init pthread_barrier_wait pthread_barrier_destroy : CondCall
  sem_init sem_wait sem_trywait sem_timedwait sem_post : CondCall

unfoldable pub cond_plan : CondCall → Plan
cond_plan pthread_cond_wait = crosses int_ret
cond_plan pthread_cond_timedwait = crosses int_ret
cond_plan pthread_cond_signal = crosses int_ret
cond_plan pthread_cond_broadcast = crosses int_ret
cond_plan pthread_barrier_init = crosses int_ret
cond_plan pthread_barrier_wait = crosses int_ret
cond_plan pthread_barrier_destroy = crosses int_ret
cond_plan sem_init = crosses int_ret
cond_plan sem_wait = crosses int_ret
cond_plan sem_trywait = crosses int_ret
cond_plan sem_timedwait = crosses int_ret
cond_plan sem_post = crosses int_ret

-- What annotations call, from `tern_lineup_init_real` to `tern_non_det_barrier_end_real`, and
-- `tern_symbolic_real`, `tern_set_iter_real` and the call in `tern_dummy_sync_real`.
pub data MarkCall : Type 0 where
  lineup_init lineup_destroy lineup_start lineup_end non_det_start non_det_end : MarkCall
  no_wait_non_det_start no_wait_non_det_end set_slock_next_n mark_task_start : MarkCall
  mark_task_end unmark_task propose_thread_role ext_get_turn ext_put_turn detach : MarkCall
  set_base_time non_det_barrier_end symbolic set_iter dummy_sync : MarkCall

unfoldable pub mark_plan : MarkCall → Plan
mark_plan lineup_init = crosses void_ret
mark_plan lineup_destroy = crosses void_ret
mark_plan lineup_start = crosses void_ret
mark_plan lineup_end = crosses void_ret
mark_plan non_det_start = crosses void_ret
mark_plan non_det_end = crosses void_ret
mark_plan no_wait_non_det_start = direct
mark_plan no_wait_non_det_end = direct
mark_plan set_slock_next_n = crosses void_ret
mark_plan mark_task_start = stays
mark_plan mark_task_end = stays
mark_plan unmark_task = stays
mark_plan propose_thread_role = crosses void_ret
mark_plan ext_get_turn = crosses void_ret
mark_plan ext_put_turn = crosses void_ret
mark_plan detach = crosses void_ret
mark_plan set_base_time = crosses void_ret
mark_plan non_det_barrier_end = crosses void_ret
mark_plan symbolic = stays
mark_plan set_iter = direct
mark_plan dummy_sync = bare

unfoldable pub socket_plan : SocketCall → Plan
socket_plan accept = crosses int_ret
socket_plan accept4 = crosses int_ret
socket_plan connect = crosses int_ret
socket_plan send = crosses int_ret
socket_plan sendto = crosses int_ret
socket_plan sendmsg = crosses int_ret
socket_plan recv = crosses int_ret
socket_plan recvfrom = crosses int_ret
socket_plan recvmsg = crosses int_ret

unfoldable pub file_plan : FileCall → Plan
file_plan read = crosses int_ret
file_plan write = crosses int_ret
file_plan pread = crosses int_ret
file_plan pwrite = crosses int_ret

unfoldable pub poll_plan : PollCall → Plan
poll_plan select = crosses int_ret
poll_plan epoll_wait = crosses int_ret
poll_plan epoll_create = crosses int_ret
poll_plan epoll_ctl = crosses int_ret
poll_plan poll = crosses int_ret
poll_plan bind = crosses int_ret
poll_plan sigwait = crosses int_ret
poll_plan kill = crosses int_ret

unfoldable pub setup_plan : SetupCall → Plan
setup_plan socket = crosses int_ret
setup_plan listen = crosses int_ret
setup_plan shutdown = crosses int_ret
setup_plan getpeername = crosses int_ret
setup_plan getsockopt = crosses int_ret
setup_plan setsockopt = crosses int_ret
setup_plan pipe = crosses int_ret
setup_plan fcntl = crosses int_ret
setup_plan close = crosses int_ret

unfoldable pub name_plan : NameCall → Plan
name_plan time = crosses int_ret
name_plan clock_getres = crosses int_ret
name_plan clock_gettime = crosses int_ret
name_plan clock_settime = crosses int_ret
name_plan gettimeofday = crosses int_ret
name_plan settimeofday = crosses int_ret
name_plan gethostbyname = crosses pointer_ret
name_plan gethostbyname_r = crosses int_ret
name_plan getaddrinfo = crosses int_ret
name_plan freeaddrinfo = crosses void_ret
name_plan gethostbyaddr = crosses pointer_ret
name_plan inet_ntoa = crosses pointer_ret
name_plan strtok = crosses pointer_ret

-- Yielding, sleeping and processes, from `tern_sched_yield` to `tern_waitpid`, and
-- `tern_print_runtime_stat`.
pub data ProcessCall : Type 0 where
  sched_yield sleep usleep nanosleep fgets idle_sleep idle_cond_wait fork execv : ProcessCall
  wait waitpid print_runtime_stat : ProcessCall

unfoldable pub process_plan : ProcessCall → Plan
process_plan sched_yield = crosses int_ret
process_plan sleep = crosses unsigned_ret
process_plan usleep = crosses int_ret
process_plan nanosleep = crosses int_ret
process_plan fgets = crosses pointer_ret
process_plan idle_sleep = bare
process_plan idle_cond_wait = bare
process_plan fork = crosses int_ret
process_plan execv = crosses int_ret
process_plan wait = crosses int_ret
process_plan waitpid = crosses int_ret
process_plan print_runtime_stat = bare

pub data RwlockCall : Type 0 where
  rwlock_rdlock rwlock_tryrdlock rwlock_wrlock rwlock_trywrlock rwlock_unlock : RwlockCall
  rwlock_destroy rwlock_init : RwlockCall

unfoldable pub rwlock_plan : RwlockCall → Plan
rwlock_plan rwlock_rdlock = crosses int_ret
rwlock_plan rwlock_tryrdlock = crosses int_ret
rwlock_plan rwlock_wrlock = crosses int_ret
rwlock_plan rwlock_trywrlock = crosses int_ret
rwlock_plan rwlock_unlock = crosses int_ret
rwlock_plan rwlock_destroy = crosses int_ret
rwlock_plan rwlock_init = crosses int_ret

-- The entry points.
pub data Entry : Type 0 where
  of_mutex : MutexCall → Entry
  of_cond : CondCall → Entry
  of_mark : MarkCall → Entry
  of_socket : SocketCall → Entry
  of_file : FileCall → Entry
  of_poll : PollCall → Entry
  of_setup : SetupCall → Entry
  of_name : NameCall → Entry
  of_process : ProcessCall → Entry
  of_rwlock : RwlockCall → Entry

abbrev pub plan : Entry → Plan
plan (of_mutex m) = mutex_plan m
plan (of_cond m) = cond_plan m
plan (of_mark m) = mark_plan m
plan (of_socket m) = socket_plan m
plan (of_file m) = file_plan m
plan (of_poll m) = poll_plan m
plan (of_setup m) = setup_plan m
plan (of_name m) = name_plan m
plan (of_process m) = process_plan m
plan (of_rwlock m) = rwlock_plan m
