-- ===== src/Monitor.antt =====
-- ext/rbczmq/socket.c: the monitor of a socket, and the thread that hands its events on.
pub mod Events
use rbczmq.Base.{
  ℕ, ltb, length, zero, suc, ◌+◌, ◌≡◌, Bool, true, false, not, ◌&&◌, ◌||◌, Option, none, some, List,
  [], ◌∷◌, ℤ, pos, negsuc, minus_one, type_error, ok, raise, fault, Cmd, Run, pure, throw, defined,
  ◌>>=◌, ◌>>◌, ◌==◌, if◌then◌else◌, Table, update,
}
use rbczmq.Czmq.{Ptr, Bytes}
use rbczmq.Czmq.Zlist.{Zlist}
use rbczmq.Net.{Zsocket, Net, Sock, get_socket, deref_socket, guard_cross_thread, call}
use rbczmq.Objects.{Value, qnil, qtrue, qfalse, int, str}
use rbczmq.Socket.{c_string, is_success}

-- What the monitor uses of libzmq beside the operations on sockets, a parameter. `zmq_recvmsg` gives
-- its return code, the data of the message and whether more of it follows, and `event_of` reads the
-- number and the value of an event.
pub record Zmonitor (n : Zsocket) : Type 0 where
  pub zmq_socket_monitor : Ptr → Bytes → ℤ → n.World → Option (ℤ × n.World)
  pub zmq_connect : Ptr → Bytes → n.World → Option (ℤ × n.World)
  pub zmq_recvmsg : Ptr → n.World → Option ((ℤ × Bytes × Bool) × n.World)
  -- the error is ETERM, ENOTSOCK or EINTR
  pub is_end : n.World → Bool
  -- the size of the struct of an event in bytes, and what it holds when these are copied into it
  pub event_size : ℕ
  pub event_of : Bytes → ℕ × ℤ
  -- ZMQ_EVENT_ALL
  pub event_all : ℤ

-- The methods of a handler.
pub data EventName : Type 0 where
  on_connected on_connect_delayed on_connect_retried on_listening on_bind_failed : EventName
  on_accepted on_accept_failed on_close_failed on_closed on_disconnected : EventName

-- The method for an event by its number in libzmq, from ZMQ_EVENT_CONNECTED (1) to
-- ZMQ_EVENT_DISCONNECTED (512).
unfoldable pub event_name : ℕ → Option EventName
event_name e =
    if e == 1
    then some on_connected
    else if e == 2
    then some on_connect_delayed
    else if e == 4
    then some on_connect_retried
    else if e == 8
    then some on_listening
    else if e == 16
    then some on_bind_failed
    else if e == 32
    then some on_accepted
    else if e == 64
    then some on_accept_failed
    else if e == 256
    then some on_close_failed
    else if e == 128
    then some on_closed
    else if e == 512
    then some on_disconnected
    else none

-- `monitor_endpoint` and `monitor_handler` of a socket, where the handler is a reference.
pub record MonitorObj : Type 0 where
  pub endpoint : Bytes
  pub handler : ℕ

-- The sockets beside their monitors, by the references of the sockets.
pub record Watch (n : Zsocket) (z : Zlist) : Type 0 where
  pub net : Net n z
  pub monitors : Table MonitorObj

-- The code of the program, a parameter: a handler is called with an endpoint and a value.
abbrev pub Watcher : Zsocket → Zlist → Type 0
Watcher n z = ℕ → EventName → Bytes → ℤ → Cmd (Watch n z) (Unit {0})

-- The return code 0.
abbrev pub is_ok : ℤ → Bool
is_ok (pos zero) = true
is_ok _ = false

module _ {n : Zsocket} {z : Zlist} where
  abbrev of_net : {A : Type 0} → Run (Net n z) A → Cmd (Watch n z) A
  of_net (ok a m) s = ok a (record s { net = m })
  of_net (raise e m) s = raise e (record s { net = m })
  of_net fault s = fault

  -- A step on sockets.
  abbrev pub on_net : {A : Type 0} → Cmd (Net n z) A → Cmd (Watch n z) A
  on_net f s = of_net (f s.net) s

  -- `assert`, which stops the process
  abbrev stop_unless : Bool → Cmd (Watch n z) (Unit {0})
  stop_unless true s = ok tt s
  stop_unless false s = fault

  -- The handler, or a new `ZMQ::Monitor`.
  abbrev handler_of : Option ℕ → Cmd (Watch n z) ℕ
  handler_of (some h) s = ok h s
  handler_of none s = ok s.net.next (record s { net = record s.net { next = s.net.next + 1 } })

  abbrev check_string : Value → Cmd (Watch n z) (Unit {0})
  check_string (str e) = pure tt
  check_string _ = throw type_error

module _ {n : Zsocket} {z : Zlist} (lib : Zmonitor n) where
  abbrev events_of : Value → Cmd (Watch n z) ℤ
  events_of qnil = pure lib.event_all
  events_of (int i) = pure i
  events_of _ = throw type_error

  -- `sock.monitor`, which starts the thread below
  unfoldable pub monitor : ℕ → Value → Option ℕ → Value → Cmd (Watch n z) Value
  monitor u endpoint handler events = do
    k ← on_net (get_socket u)
    on_net (guard_cross_thread k)
    check_string endpoint
    h ← handler_of handler
    mask ← events_of events
    e ← on_net (c_string endpoint)
    rc ← on_net (call (lib.zmq_socket_monitor k.socket e mask))
    if is_ok rc
        then (do
          (λ s. ok tt (record s {
            monitors = update s.monitors u (some (record { endpoint = e; handler = h }));
          }))
          pure qtrue)
        else pure qfalse

  -- `rb_czmq_nogvl_monitor_recv`: the return code, the data of the event, and those of the endpoint,
  -- which are empty if it has not been received
  unfoldable pub monitor_recv : ℕ → Ptr → Cmd (Watch n z) (ℤ × Bytes × Bytes)
  monitor_recv u p = do
    k ← on_net (deref_socket u)
    if k.destroyed then pure (minus_one, [], []) else do
      r ← on_net (call (lib.zmq_recvmsg p))
      if is_ok r.0 && r.2
          then (do q ← on_net (call (lib.zmq_recvmsg p)); pure (q.0, r.1, q.1))
          else pure (r.0, r.1, [])

  module _ (ruby : Watcher n z) where
    -- the call of the handler, if the event has a method
    unfoldable pub notify : Option EventName → ℕ → Bytes → ℤ → Cmd (Watch n z) (Unit {0})
    notify none h endpoint value = pure tt
    notify (some m) h endpoint value = ruby h m endpoint value

    -- `memcpy` of as many bytes as an event has, which reads behind the end of shorter data
    unfoldable pub copy_event : Bytes → Cmd (Watch n z) (ℕ × ℤ)
    copy_event d = if ltb (length d) lib.event_size then (λ s. fault) else pure (lib.event_of d)

    -- whether the thread goes on behind an event
    unfoldable pub goes_on : ℕ → Cmd (Watch n z) Bool
    goes_on u = do k ← on_net (deref_socket u); pure (not k.destroyed)

    -- one turn of the loop of `rb_czmq_socket_monitor_thread`: whether there is another
    unfoldable pub monitor_turn : ℕ → Ptr → Cmd (Watch n z) Bool
    unfolding event_name monitor_recv copy_event notify goes_on
    monitor_turn u p = do
      r ← monitor_recv u p
      k ← on_net (deref_socket u)
      ends ← (λ s. ok (k.destroyed || lib.is_end s.net.world) s)
      if not (is_success r.0) && ends then pure false else do
        stop_unless (is_success r.0)
        event ← copy_event r.1
        m ← (λ s. defined (s.monitors u) s)
        notify (event_name event.0) m.handler r.2 event.1
        goes_on u

    -- the turns of the loop, at most `k`: whether it has ended
    unfoldable pub monitor_turns : (k : ℕ) → ℕ → Ptr → Cmd (Watch n z) Bool
    unfolding monitor_turn
    monitor_turns zero u p = pure false
    monitor_turns (suc k) u p = do
      more ← monitor_turn u p
      if more then monitor_turns k u p else pure true

    -- `rb_czmq_socket_monitor_thread`, for at most `k` turns
    unfoldable pub monitor_thread : (k : ℕ) → ℕ → Cmd (Watch n z) Bool
    unfolding monitor_turns
    monitor_thread k u = do
      sock ← on_net (deref_socket u)
      p ← on_net (call (n.zsocket_new sock.ctx (pos 0)))
      stop_unless (not (p == 0))
      m ← (λ s. defined (s.monitors u) s)
      e ← on_net (c_string (str m.endpoint))
      rc ← on_net (call (lib.zmq_connect p e))
      stop_unless (is_ok rc)
      monitor_turns k u p
