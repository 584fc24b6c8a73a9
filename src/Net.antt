-- ===== src/Net.antt =====
-- The state that contexts and sockets share: the structs of ext/rbczmq/context.h and
-- ext/rbczmq/socket.h, and the operations of libczmq and libzmq that they call, as a parameter.
pub mod Failing
pub mod Ideal
use rbczmq.Base.{
  ℕ, ◌+◌, ◌≡◌, ◌≢◌, Bool, true, false, not, ◌||◌, ◌&&◌, Option, none, some, List, [], ◌∷◌, ℤ, pos,
  minus_one, zmq_error, sys_error, mem_error, type_error, arg_error, ok, raise, fault, Cmd, pure,
  throw, defined, or_raise, ◌>>=◌, ◌>>◌, modify, assert, ◌==◌, if◌then◌else◌, Table, update, ◌/◌,
  ◌%◌,
}
use rbczmq.Czmq.{Ptr, Bytes, Errno}
use rbczmq.Czmq.Zlist.{Zlist}
use rbczmq.Objects.{Value, qfalse, is_sys_error}

-- The socket options that take an integer, those that take a boolean and those that take a string.
pub data IntOption : Type 0 where
  sndhwm rcvhwm affinity rate recovery_ivl maxmsgsize multicast_hops sndbuf rcvbuf linger backlog :
      IntOption
  reconnect_ivl reconnect_ivl_max rcvtimeo sndtimeo : IntOption

pub data BoolOption : Type 0 where
  ipv4only delay_attach_on_connect router_mandatory router_raw xpub_verbose : BoolOption

pub data StringOption : Type 0 where
  identity subscribe unsubscribe : StringOption

pub record Zsocket : Type 1 where
  pub World : Type 0
  pub zmq_errno : World → Errno
  pub zctx_new : World → Ptr × World
  pub zctx_destroy : Ptr → World → Option World
  pub zctx_set_iothreads : Ptr → ℤ → World → Option World
  pub zctx_set_linger : Ptr → ℤ → World → Option World
  pub zsocket_new : Ptr → ℤ → World → Option (Ptr × World)
  pub zsocket_type : Ptr → World → Option ℕ
  pub zsocket_destroy : (ctx socket : Ptr) → World → Option World
  -- the return code is an integer: a port, 0, or -1
  pub zsocket_bind : Ptr → Bytes → World → Option (ℤ × World)
  pub zsocket_connect : Ptr → Bytes → World → Option (ℤ × World)
  pub zsocket_disconnect : Ptr → Bytes → World → Option (ℤ × World)
  pub zsocket_unbind : Ptr → Bytes → World → Option (ℤ × World)
  -- `none` inside is `NULL`
  pub zsocket_last_endpoint : Ptr → World → Option (Option Bytes)
  pub zsocket_fd : Ptr → World → Option ℤ
  pub zsocket_poll : Ptr → ℤ → World → Option (Bool × World)
  pub zsocket_get : IntOption → Ptr → World → Option ℤ
  pub zsocket_set : IntOption → Ptr → ℤ → World → Option World
  pub zsocket_ipv4only : Ptr → World → Option ℤ
  pub zsocket_rcvmore : Ptr → World → Option ℤ
  pub zsocket_events : Ptr → World → Option ℤ
  pub zsocket_set_bool : BoolOption → Ptr → Bool → World → Option World
  pub zsocket_set_string : StringOption → Ptr → Bytes → World → Option World
  -- `true` for success; the flag is ZMQ_SNDMORE
  pub zmq_sendmsg : Ptr → Bytes → Bool → World → Option (Bool × World)
  -- `none` inside for a negative return code; the flag is ZMQ_DONTWAIT
  pub zmq_recvmsg : Ptr → Bool → World → Option (Option Bytes × World)

-- The documented behaviour that the life cycle of contexts and sockets relies on: a socket that is
-- open can be closed, which closes no other; a context can be destroyed, which opens no socket; and
-- a new context takes a linger value.
pub record Closing (n : Zsocket) : Type 0 where
  pub is_open : n.World → Ptr → Bool
  pub close :
      (x p : Ptr) (w : n.World)
      → is_open w p ≡ true
      → (w' : n.World) × (n.zsocket_destroy x p w ≡ some w')
        × ((q : Ptr) → is_open w' q ≡ (if q == p then false else is_open w q))
  pub close_ctx :
      (x : Ptr) (w : n.World)
      → (w' : n.World) × (n.zctx_destroy x w ≡ some w')
        × ((q : Ptr) → is_open w q ≡ false → is_open w' q ≡ false)
  pub linger_new :
      (w : n.World)
      → (n.zctx_new w).0 ≢ 0
      → (w' : n.World) × (n.zctx_set_linger (n.zctx_new w).0 (pos 1) (n.zctx_new w).1 ≡ some w')

-- The documented behaviour that making sockets relies on: `zsocket_new` gives NULL, or a socket that
-- was not open before, and closes none; and the type of a socket is a number, as it is, though no
-- particular one, of NULL.
pub record Opening {n : Zsocket} (laws : Closing n) : Type 0 where
  pub opens :
      (x : Ptr) (t : ℤ) (w : n.World)
      → (p : Ptr) × (w' : n.World) × (n.zsocket_new x t w ≡ some (p, w'))
        × (p ≢ 0 → (laws.is_open w p ≡ false) × (laws.is_open w' p ≡ true))
        × ((q : Ptr) → laws.is_open w q ≡ true → laws.is_open w' q ≡ true)
  pub kind :
      (p : Ptr) (w : n.World)
      → (p ≢ 0 → laws.is_open w p ≡ true)
      → (k : ℕ) × (n.zsocket_type p w ≡ some k)

-- The member `context` of a socket, a VALUE: `NULL`, nil for a socket of a beacon, or a context.
pub data ContextRef : Type 0 where
  null nil : ContextRef
  ref : ℕ → ContextRef

-- ZMQ_SOCKET_PENDING, ZMQ_SOCKET_BOUND, ZMQ_SOCKET_CONNECTED, ZMQ_SOCKET_DISCONNECTED
abbrev pub pending : ℕ
pending = 0x01

abbrev pub bound : ℕ
bound = 0x02

abbrev pub connected : ℕ
connected = 0x04

abbrev pub disconnected : ℕ
disconnected = 0x08

-- `zmq_sock_wrapper`. `destroyed` is ZMQ_SOCKET_DESTROYED, the only bit of `flags`. `ctx` and
-- `socket` are addresses in the library.
pub record Sock : Type 0 where
  pub ctx : Ptr
  pub socket : Ptr
  pub ctx_wrapper : Option ℕ
  pub destroyed : Bool
  pub verbose : Bool
  pub state : ℕ
  pub endpoints : List Bytes
  pub thread : ℕ
  pub context : ContextRef

-- `rb_czmq_mark_sock`: the context that the collector marks for a socket, beside its thread, its
-- strings and what belongs to a monitor
pub mark_sock : Sock → List ℕ
mark_sock k = if k.ctx == 0 then [] else elim k.context [ null ↦ [] | nil ↦ [] | ref v ↦ v ∷ [] ]

-- `zmq_ctx_wrapper`, without the place of its creation. `destroyed` is ZMQ_CONTEXT_DESTROYED.
pub record Ctx (z : Zlist) : Type 0 where
  pub ctx : Ptr
  pub destroyed : Bool
  pub pid : ℕ
  pub sockets : Option z.L

pub record Net (n : Zsocket) (z : Zlist) : Type 0 where
  pub world : n.World
  pub socks : Table Sock
  pub ctxs : Table (Ctx z)
  -- the hash from a process to its context, where `none` is nil
  pub processes : Table ℕ
  pub next : ℕ
  -- the Ruby objects whose struct has been freed behind their back
  pub dangling : List ℕ
  -- the process and the Ruby thread that run
  pub pid : ℕ
  pub thread : ℕ

module _ {n : Zsocket} {z : Zlist} where
  abbrev pub after_call : {A : Type 0} → Option (A × n.World) → Cmd (Net n z) A
  after_call none s = fault
  after_call (some (a, w)) s = ok a (record s { world = w })

  abbrev pub after_run : Option n.World → Cmd (Net n z) (Unit {0})
  after_run none s = fault
  after_run (some w) s = ok tt (record s { world = w })

  -- Calls of the library: one that changes its state, one that returns nothing, and one that reads.
  abbrev pub call : {A : Type 0} → (n.World → Option (A × n.World)) → Cmd (Net n z) A
  call f s = after_call (f s.world) s

  abbrev pub run : (n.World → Option n.World) → Cmd (Net n z) (Unit {0})
  run f s = after_run (f s.world) s

  abbrev pub query : {A : Type 0} → (n.World → Option A) → Cmd (Net n z) A
  query f s = defined (f s.world) s

  -- A reference to a live struct of the class, and the test of the destroyed flag.
  abbrev pub unless_destroyed : {A : Type 0} → Bool → A → Cmd (Net n z) A
  unless_destroyed true a s = raise zmq_error s
  unless_destroyed false a s = ok a s

  -- `GetZmqSocket`
  abbrev pub get_socket : ℕ → Cmd (Net n z) Sock
  get_socket u = do k ← (λ s. or_raise type_error (s.socks u) s); unless_destroyed k.destroyed k

  -- `ZmqGetContext`
  abbrev pub get_context : ℕ → Cmd (Net n z) (Ctx z)
  get_context v = do x ← (λ s. or_raise type_error (s.ctxs v) s); unless_destroyed x.destroyed x

  abbrev pub deref_socket : ℕ → Cmd (Net n z) Sock
  deref_socket u s = defined (s.socks u) s

  abbrev pub deref_context : ℕ → Cmd (Net n z) (Ctx z)
  deref_context v s = defined (s.ctxs v) s

  abbrev pub put_socket : ℕ → Sock → Cmd (Net n z) (Unit {0})
  put_socket u k s = ok tt (record s { socks = update s.socks u (some k) })

  abbrev pub put_context : ℕ → Ctx z → Cmd (Net n z) (Unit {0})
  put_context v x s = ok tt (record s { ctxs = update s.ctxs v (some x) })

  -- `ZmqSockGuardCrossThread`
  abbrev pub guard_cross_thread : Sock → Cmd (Net n z) (Unit {0})
  guard_cross_thread k s = assert (k.thread == s.thread) zmq_error s

  -- `ZmqAssertContextPidMatches`
  abbrev pub assert_pid : Ctx z → Cmd (Net n z) (Unit {0})
  assert_pid x s = assert (x.pid == s.pid) zmq_error s

  -- `ZmqAssertSysError`
  abbrev pub assert_sys_error : Cmd (Net n z) (Unit {0})
  assert_sys_error s = assert (not (is_sys_error (n.zmq_errno s.world))) sys_error s

  -- `ZmqAssertObjOnAlloc` on NULL: `xfree(wrapper)` frees the struct of a Ruby object that has just
  -- been made under the next reference, and that the collector will free once more.
  abbrev pub alloc_failed : {A : Type 0} → Cmd (Net n z) A
  alloc_failed =
      (λ s. ok tt (record s { dangling = s.next ∷ s.dangling; next = s.next + 1 }))
      >> (assert_sys_error >> throw mem_error)

  -- The branch of `ZmqAssert` for the return code -1, and `ZmqAssert` with the rest of the method.
  abbrev pub call_failed : Cmd (Net n z) Value
  call_failed s = elim (n.zmq_errno s.world) [
    | Errno.mt_thread ↦ raise zmq_error s
    | Errno.success ↦ ok qfalse s
    | Errno.again ↦ ok qfalse s
    | _ ↦ raise sys_error s
  ]

  abbrev pub zmq_assert : Bool → Cmd (Net n z) Value → Cmd (Net n z) Value
  zmq_assert true rest = rest
  zmq_assert false rest = call_failed

-- `state & (ZMQ_SOCKET_BOUND | ZMQ_SOCKET_CONNECTED)`
abbrev pub is_attached : ℕ → Bool
is_attached state = (state / 2 % 2 == 1) || (state / 4 % 2 == 1)
