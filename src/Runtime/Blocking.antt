-- ===== src/Runtime/Blocking.antt =====
-- Calls that may block outside the scheduler: `BLOCK_TIMER_START`, `BLOCK_TIMER_END` and the wrappers
-- around them of lib/runtime/record-runtime.cpp. The real call lies between the two functions; what
-- it returns, and errno, which the end restores, pass through unchanged.
use min_smt.Prelude.{ℕ, ◌/◌, ◌%◌, ◌^◌, Bool, not, ◌&&◌, ◌==◌, if◌then◌else◌, Result, ok, ◌>>=◌}
use min_smt.Sched.Turn
use min_smt.Sched.Wakeups
use min_smt.Runtime.State.{Rt}
use min_smt.Runtime.Finish.{bypassed}

-- Where a call stands behind its start: it is the plain call and has no end, it wants the turn for
-- `block`, or it goes on to the real call at once.
pub data Started : Type 0 where
  plain wants_turn goes_on : Started

-- `BLOCK_TIMER_START`, up to the `getTurn` in `block`.
unfoldable pub block_start : (me : ℕ) → Rt → Result (Started × Rt)
unfolding Turn.inter_pro_start
block_start me rt = if bypassed me rt then ok (plain, rt) else do
  (head, s) ← Turn.inter_pro_start me rt.sched
  ok (if head then wants_turn else goes_on, record rt { sched = s })

-- `block`, with the turn.
unfoldable pub block_turn : (me : ℕ) → Rt → Result Rt
block_turn me rt = do (n, t, s) ← Turn.block me rt.sched; ok (record rt { sched = s })

-- `BLOCK_TIMER_END`.
unfoldable pub block_end : (me : ℕ) → Rt → Result Rt
unfolding Turn.inter_pro_end Wakeups.wakeup
block_end me rt = do
  (done, s) ← Turn.inter_pro_end me rt.sched
  ok (record rt { sched = if done then Wakeups.wakeup me s else s })

-- `regularFile`, from the field `st_mode`: neither a socket nor a fifo.
unfoldable pub regular_file : (st_mode : ℕ) → Bool
regular_file mode = let kind = (mode / 2 ^ 12) % 16 in not (kind == 12) && not (kind == 1)

-- `ignores` is `options::RR_ignore_rw_regular_file`.
abbrev pub file_start : (ignores : Bool) → (st_mode : ℕ) → (me : ℕ) → Rt → Result (Started × Rt)
file_start ignores mode me rt =
    if ignores && regular_file mode then ok (plain, rt) else block_start me rt

-- The calls on sockets, from `__accept` to `__recvmsg`.
pub data SocketCall : Type 0 where
  accept accept4 connect send sendto sendmsg recv recvfrom recvmsg : SocketCall

unfoldable pub socket_start : SocketCall → (me : ℕ) → Rt → Result (Started × Rt)
unfolding block_start
socket_start accept me rt = block_start me rt
socket_start accept4 me rt = block_start me rt
socket_start connect me rt = block_start me rt
socket_start send me rt = block_start me rt
socket_start sendto me rt = block_start me rt
socket_start sendmsg me rt = block_start me rt
socket_start recv me rt = block_start me rt
socket_start recvfrom me rt = block_start me rt
socket_start recvmsg me rt = block_start me rt

-- The calls on files, which a regular file does not order: `__read`, `__write`, `__pread`,
-- `__pwrite`.
pub data FileCall : Type 0 where
  read write pread pwrite : FileCall

unfoldable pub rw_start :
    FileCall → (ignores : Bool) → (st_mode : ℕ) → (me : ℕ) → Rt → Result (Started × Rt)
unfolding block_start regular_file
rw_start read ignores mode me rt = file_start ignores mode me rt
rw_start write ignores mode me rt = file_start ignores mode me rt
rw_start pread ignores mode me rt = file_start ignores mode me rt
rw_start pwrite ignores mode me rt = file_start ignores mode me rt

-- The calls from `__select` to `__sigwait`, and `__kill`, which all block.
pub data PollCall : Type 0 where
  select epoll_wait epoll_create epoll_ctl poll bind sigwait kill : PollCall

unfoldable pub poll_start : PollCall → (me : ℕ) → Rt → Result (Started × Rt)
unfolding block_start
poll_start select me rt = block_start me rt
poll_start epoll_wait me rt = block_start me rt
poll_start epoll_create me rt = block_start me rt
poll_start epoll_ctl me rt = block_start me rt
poll_start poll me rt = block_start me rt
poll_start bind me rt = block_start me rt
poll_start sigwait me rt = block_start me rt
poll_start kill me rt = block_start me rt

-- `__fgets`, on the descriptor of its stream.
unfoldable pub fgets_start :
    (ignores : Bool) → (st_mode : ℕ) → (me : ℕ) → Rt → Result (Started × Rt)
unfolding block_start regular_file
fgets_start ignores mode me rt = file_start ignores mode me rt

-- `__pthread_detach`.
unfoldable pub detach_start : (me : ℕ) → Rt → Result (Started × Rt)
unfolding block_start
detach_start me rt = block_start me rt

-- `__wait` and `__waitpid`.
unfoldable pub wait_start : (me : ℕ) → Rt → Result (Started × Rt)
unfolding block_start
wait_start me rt = block_start me rt

-- The calls from `__socket` to `__close`.
pub data SetupCall : Type 0 where
  socket listen shutdown getpeername getsockopt setsockopt pipe fcntl close : SetupCall

unfoldable pub setup_start :
    SetupCall → (ignores : Bool) → (st_mode : ℕ) → (me : ℕ) → Rt → Result (Started × Rt)
unfolding block_start regular_file
setup_start socket ignores mode me rt = block_start me rt
setup_start listen ignores mode me rt = block_start me rt
setup_start shutdown ignores mode me rt = block_start me rt
setup_start getpeername ignores mode me rt = ok (plain, rt)
setup_start getsockopt ignores mode me rt = block_start me rt
setup_start setsockopt ignores mode me rt = block_start me rt
setup_start pipe ignores mode me rt = block_start me rt
setup_start fcntl ignores mode me rt = block_start me rt
setup_start close ignores mode me rt = file_start ignores mode me rt

-- The calls of the clock, from `__time` to `__settimeofday`, which are left alone, and those from
-- `__gethostbyname` to `__strtok`.
pub data NameCall : Type 0 where
  time clock_getres clock_gettime clock_settime gettimeofday settimeofday : NameCall
  gethostbyname gethostbyname_r getaddrinfo freeaddrinfo gethostbyaddr inet_ntoa strtok : NameCall

unfoldable pub name_start : NameCall → (me : ℕ) → Rt → Result (Started × Rt)
unfolding block_start
name_start time me rt = ok (plain, rt)
name_start clock_getres me rt = ok (plain, rt)
name_start clock_gettime me rt = ok (plain, rt)
name_start clock_settime me rt = ok (plain, rt)
name_start gettimeofday me rt = ok (plain, rt)
name_start settimeofday me rt = ok (plain, rt)
name_start gethostbyname me rt = block_start me rt
name_start gethostbyname_r me rt = block_start me rt
name_start getaddrinfo me rt = block_start me rt
name_start freeaddrinfo me rt = block_start me rt
name_start gethostbyaddr me rt = block_start me rt
name_start inet_ntoa me rt = block_start me rt
name_start strtok me rt = block_start me rt
