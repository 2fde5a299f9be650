-- ===== src/Plain.antt =====
-- The plain calls of lib/runtime/runtime.cpp, with which the wrappers reach the C library: each puts
-- the program's `errno` in place, calls the function, and hands its `errno` on. The functions of the
-- C library are parameters.
use min_smt.Prelude.{
  ℕ, Bool, true, false, not, ◌&&◌, if◌then◌else◌, Result, ok, assert, ◌>>=◌, ◌>>◌,
}
use min_smt.Prelude.Int.{ℤ, pos, negsuc}
use min_smt.Runtime.Blocking.{
  SocketCall, accept, accept4, connect, send, sendto, sendmsg, recv, recvfrom, recvmsg, FileCall,
  PollCall, SetupCall, NameCall,
}
use min_smt.Hooks.Space.{Caller}
use min_smt.Hooks.Entry.{Call}
use min_smt.Hooks.Interpose.{Function}
use min_smt.Hooks.Plans.{ProcessCall, RwlockCall}
use Receive.{receive}
pub mod Receive
pub mod Errno

-- The shape of most calls: `errno = error; ret = f(...); error = errno; return ret;`.
unfoldable pub plain_call {ℓ} : {A : Type ℓ} → Function A → Call A
plain_call f error c a = do
  (ret, c1, a1) ← f (record c { errno = error }) a
  ok (c1.errno, ret, c1, a1)

-- A call that leaves `errno` alone, as `__pthread_create` and `__pthread_join`.
unfoldable pub untracked_call {ℓ} : {A : Type ℓ} → Function A → Call A
untracked_call f error c a = do (ret, c1, a1) ← f c a; ok (error, ret, c1, a1)

-- `assert(sock_nonblock(sockfd))`, where `set` is the call of `fcntl`: a build without assertions
-- does not make the call.
unfoldable pub assert_nonblock {ℓ} :
    {A : Type ℓ} → (ndebug : Bool) → (set : Function A) → Caller → A → Result (Caller × A)
assert_nonblock true set c a = ok (c, a)
assert_nonblock false set c a = do
  (ret, c1, a1) ← set c a
  assert false (elim ret [ pos n ↦ true | negsuc n ↦ false ])
  ok (c1, a1)

-- `__accept` and `__connect`; `non_block` is `options::non_block_recv`.
unfoldable pub nonblock_call {ℓ} :
    {A : Type ℓ} → (ndebug non_block : Bool) → (set : Function A) → Function A → Call A
unfolding assert_nonblock
nonblock_call nd non_block set f error c a = do
  (ret, c1, a1) ← f (record c { errno = error }) a
  (c2, a2) ← (if non_block then assert_nonblock nd set c1 a1 else ok (c1, a1))
  ok (c2.errno, ret, c2, a2)

-- The calls on sockets, from `__accept` to `__recvmsg`: `functions` are those of the C library, `set`
-- makes the socket not block, and `part` and `pause` are the `recv` and the `nanosleep` in `__recv`.
unfoldable pub socket_call {ℓ} :
    {A : Type ℓ}
    → (ndebug non_block : Bool) → (set : Function A) → (part : ℕ → ℕ → Function A)
    → (pause : Function A) → (len : ℕ) → (functions : SocketCall → Function A) → SocketCall
    → Call A
unfolding plain_call nonblock_call receive
socket_call nd nb set part pause len functions accept = nonblock_call nd nb set (functions accept)
socket_call nd nb set part pause len functions accept4 = plain_call (functions accept4)
socket_call nd nb set part pause len functions connect = nonblock_call nd nb set (functions connect)
socket_call nd nb set part pause len functions send = plain_call (functions send)
socket_call nd nb set part pause len functions sendto = plain_call (functions sendto)
socket_call nd nb set part pause len functions sendmsg = plain_call (functions sendmsg)
socket_call nd nb set part pause len functions recv = plain_call (receive nb part pause len)
socket_call nd nb set part pause len functions recvfrom = plain_call (functions recvfrom)
socket_call nd nb set part pause len functions recvmsg = plain_call (functions recvmsg)

-- The other calls, which have no code of their own: those on files from `__read` to `__pwrite`, from
-- `__select` to `__epoll_ctl` with `__bind`, `__sigwait` and `__kill`, from `__socket` to `__listen`
-- with `__shutdown`, `__getpeername` and `__close`, those on names from `__gethostbyname` to
-- `__strtok` and on clocks, on processes from `__sleep` to `__nanosleep`, and on read-write locks.
unfoldable pub file_call {ℓ} : {A : Type ℓ} → (FileCall → Function A) → FileCall → Call A
unfolding plain_call
file_call functions m = plain_call (functions m)

unfoldable pub poll_call {ℓ} : {A : Type ℓ} → (PollCall → Function A) → PollCall → Call A
unfolding plain_call
poll_call functions m = plain_call (functions m)

unfoldable pub setup_call {ℓ} : {A : Type ℓ} → (SetupCall → Function A) → SetupCall → Call A
unfolding plain_call
setup_call functions m = plain_call (functions m)

unfoldable pub name_call {ℓ} : {A : Type ℓ} → (NameCall → Function A) → NameCall → Call A
unfolding plain_call
name_call functions m = plain_call (functions m)

unfoldable pub process_call {ℓ} : {A : Type ℓ} → (ProcessCall → Function A) → ProcessCall → Call A
unfolding plain_call
process_call functions m = plain_call (functions m)

unfoldable pub rwlock_call {ℓ} : {A : Type ℓ} → (RwlockCall → Function A) → RwlockCall → Call A
unfolding plain_call
rwlock_call functions m = plain_call (functions m)
