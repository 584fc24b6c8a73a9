-- ===== src/Context.antt =====
-- ext/rbczmq/context.c: contexts, one to a process, and the sockets that they own.
pub mod Closing
pub mod Freeing
pub mod Members
pub mod Opening
pub mod Single
use rbczmq.Base.{
  ℕ, zero, suc, ◌+◌, Bool, true, false, not, ◌&&◌, Option, none, some, List, [], ℤ, pos, negsuc,
  zmq_error, type_error, sys_error, assert, ok, fault, raise, Cmd, pure, throw, defined, ◌>>=◌,
  ◌>>◌, modify, ◌==◌, if◌then◌else◌, Table, update,
}
use rbczmq.Czmq.{Ptr, Errno}
use rbczmq.Czmq.Zlist.{Zlist}
use rbczmq.Net.{
  null, nil, ref, Zsocket, Net, Sock, Ctx, ContextRef, pending, disconnected, call, run, query,
  get_context, deref_context, deref_socket, put_context, put_socket, assert_pid, alloc_failed,
}
use rbczmq.Objects.{Value, qnil, qfalse, obj, int}

-- `rb_czmq_ctx_socket_klass`: the socket types of libzmq that have a class, ZMQ_PAIR (0) to
-- ZMQ_STREAM (11), in the order of their numbers.
pub data SocketClass : Type 0 where
  pair pub_socket sub req rep dealer router pull push xpub xsub stream : SocketClass

unfoldable pub socket_klass : ℕ → Option SocketClass
socket_klass t =
    if t == 0
    then some SocketClass.pair
    else if t == 1
    then some SocketClass.pub_socket
    else if t == 2
    then some SocketClass.sub
    else if t == 3
    then some SocketClass.req
    else if t == 4
    then some SocketClass.rep
    else if t == 5
    then some SocketClass.dealer
    else if t == 6
    then some SocketClass.router
    else if t == 7
    then some SocketClass.pull
    else if t == 8
    then some SocketClass.push
    else if t == 9
    then some SocketClass.xpub
    else if t == 10
    then some SocketClass.xsub
    else if t == 11
    then some SocketClass.stream
    else none

abbrev is_invalid : Errno → Bool
is_invalid Errno.invalid = true
is_invalid _ = false

-- What every way through `rb_czmq_context_destroy_socket` ends in.
abbrev pub closed : Sock → Sock
closed k = record k { destroyed = true; ctx = 0; socket = 0; state = disconnected }

module _ {n : Zsocket} {z : Zlist} where
  -- the library's part: the socket leaves its context's list, and is closed
  unfoldable pub close_in_context : ℕ → Sock → ℕ → Cmd (Net n z) (Unit {0})
  close_in_context u k v = do
    x ← deref_context v
    l ← defined x.sockets
    put_context v (record x { sockets = some (z.zlist_remove u l) })
    if k.socket == 0 then pure tt else run (n.zsocket_destroy k.ctx k.socket)

  -- `rb_czmq_context_destroy_socket`, where the address 0 is `NULL`
  unfoldable pub destroy_socket : ℕ → Cmd (Net n z) (Unit {0})
  unfolding close_in_context
  destroy_socket u = if u == 0 then pure tt else do
    k ← deref_socket u
    elim k.context [
      | null ↦ pure tt
      | nil ↦ put_socket u (closed k)
      | ref _ ↦ (do
        elim k.ctx_wrapper [
          | none ↦ pure tt
          | some v ↦ if not (k.ctx == 0) && not k.destroyed then close_in_context u k v else pure tt
        ]
        put_socket u (closed k))
    ]

  -- the loop of `rb_czmq_free_ctx` over the list of the sockets
  unfoldable pub destroy_sockets : (fuel context : ℕ) → Cmd (Net n z) (Unit {0})
  destroy_sockets zero v = λ _. fault
  destroy_sockets (suc f) v = do
    x ← deref_context v
    l ← defined x.sockets
    put_context v (record x { sockets = some (z.zlist_pop l).1 })
    if (z.zlist_pop l).0 == 0
        then pure tt
        else do destroy_socket (z.zlist_pop l).0; destroy_sockets f v

  -- `rb_czmq_nogvl_zctx_destroy`: only the process that made the context destroys it
  unfoldable pub zctx_destroy : ℕ → Cmd (Net n z) (Unit {0})
  zctx_destroy v = do
    x ← deref_context v
    (λ s. (if x.pid == s.pid then run (n.zctx_destroy x.ctx) else pure tt) s)
    put_context v (record x { destroyed = true })

  -- `rb_czmq_free_ctx`, with fuel for the loop
  unfoldable pub free_ctx : (fuel context : ℕ) → Cmd (Net n z) (Unit {0})
  free_ctx f v = do
    destroy_sockets f v
    zctx_destroy v
    x ← deref_context v
    modify (λ s. record s { processes = update s.processes x.pid none })
    put_context v (record x { ctx = 0; sockets = none })

  -- `rb_czmq_free_ctx_gc`
  unfoldable pub free_ctx_gc : (fuel context : ℕ) → Cmd (Net n z) (Unit {0})
  free_ctx_gc f v = do
    x ← deref_context v
    if not (x.ctx == 0) && not x.destroyed then free_ctx f v else pure tt
    modify (λ s. record s { ctxs = update s.ctxs v none })

  -- `rb_czmq_free_sock_gc` of socket.c
  unfoldable pub free_sock_gc : ℕ → Cmd (Net n z) (Unit {0})
  free_sock_gc u = do destroy_socket u; modify (λ s. record s { socks = update s.socks u none })

  -- `ctx.iothreads=`
  unfoldable pub set_iothreads : ℕ → Value → Cmd (Net n z) Value
  set_iothreads v (int i) = do
    x ← get_context v
    assert_pid x
    elim i [
      | negsuc _ ↦ throw zmq_error
      | pos k ↦ (do
        run (n.zctx_set_iothreads x.ctx (pos k))
        (λ s. assert (not (is_invalid (n.zmq_errno s.world))) sys_error s)
        pure qnil)
    ]
  set_iothreads v _ = do x ← get_context v; assert_pid x; throw type_error

  -- `ctx.linger=`
  unfoldable pub set_linger : ℕ → Value → Cmd (Net n z) Value
  set_linger v (int i) = do
    x ← get_context v
    assert_pid x
    elim i [
      | negsuc _ ↦ throw zmq_error
      | pos k ↦ (do run (n.zctx_set_linger x.ctx (pos k)); pure qnil)
    ]
  set_linger v _ = do x ← get_context v; assert_pid x; throw type_error

  -- The optional argument of `ZMQ::Context.new`.
  abbrev set_iothreads_unless_nil : ℕ → Value → Cmd (Net n z) Value
  set_iothreads_unless_nil v qnil = pure qnil
  set_iothreads_unless_nil v i = set_iothreads v i

  -- `ZMQ::Context.new`
  unfoldable pub s_new : Value → Cmd (Net n z) Value
  s_new iothreads = do
    process_ctx ← (λ s. ok (s.processes s.pid) s)
    elim process_ctx [
      | some _ ↦ throw zmq_error
      | none ↦ (do
        x ← call (λ w. some (n.zctx_new w))
        run (n.zctx_set_linger x (pos 1))
        if x == 0 then alloc_failed else do
          v ← (λ s. ok s.next (record s {
            ctxs = update s.ctxs s.next (
                some
                  (record { ctx = x; destroyed = false; pid = s.pid; sockets = some z.zlist_new }));
            next = s.next + 1;
            processes = update s.processes s.pid (some s.next);
          }))
          set_iothreads_unless_nil v iothreads
          pure (obj v))
    ]

  -- `ctx.destroy`
  unfoldable pub destroy : (fuel context : ℕ) → Cmd (Net n z) Value
  destroy f v = do x ← get_context v; assert_pid x; free_ctx f v; pure qnil

  -- `ZmqGetContext` of the member `context`, unless it is nil. The callers pass nil or a context that
  -- is not destroyed, for which it does not raise.
  unfoldable pub context_wrapper : ContextRef → Cmd (Net n z) (Option ℕ)
  context_wrapper null = throw type_error
  context_wrapper nil = pure none
  context_wrapper (ref v) = do get_context v; pure (some v)

  -- `rb_czmq_socket_alloc`, with the class of the socket
  unfoldable pub alloc_as : Option SocketClass → ContextRef → (zctx s : Ptr) → Cmd (Net n z) ℕ
  unfolding context_wrapper
  alloc_as none context zctx p = throw zmq_error
  alloc_as (some _) context zctx p = if p == 0 then alloc_failed else do
    wrapper ← context_wrapper context
    (λ s. ok s.next (record s {
      socks = update s.socks s.next (
          some (record {
            ctx = zctx;
            socket = p;
            ctx_wrapper = wrapper;
            destroyed = false;
            verbose = false;
            state = pending;
            endpoints = [];
            thread = s.thread;
            context = context;
          }));
      next = s.next + 1;
    }))

  unfoldable pub socket_alloc : ContextRef → (zctx s : Ptr) → Cmd (Net n z) ℕ
  unfolding alloc_as
  socket_alloc context zctx p = do
    t ← query (n.zsocket_type p)
    alloc_as (socket_klass t) context zctx p

  -- `ctx.socket`, of the number of a socket type
  unfoldable pub socket : ℕ → Value → Cmd (Net n z) Value
  socket v (int t) = do
    x ← get_context v
    assert_pid x
    p ← call (n.zsocket_new x.ctx t)
    u ← socket_alloc (ContextRef.ref v) x.ctx p
    y ← deref_context v
    l ← defined y.sockets
    put_context v (record y { sockets = some (z.zlist_push u l) })
    pure (obj u)
  socket v _ = do x ← get_context v; assert_pid x; throw type_error
