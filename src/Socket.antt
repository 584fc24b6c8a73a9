-- ===== src/Socket.antt =====
-- ext/rbczmq/socket.c: the life cycle of a socket, its endpoints, sending and receiving strings,
-- and its options, by the macros of ext/rbczmq/socket.h.
pub mod Options
pub mod Ended
pub mod Endpoints
pub mod Idle
pub mod Lives
pub mod Orders
pub mod OptionTable
pub mod Settings
pub mod Steps
use rbczmq.Base.{
  ℕ, zero, suc, ◌<◌, ◌+◌, Bool, true, false, not, ◌||◌, ◌&&◌, Option, none, some, List, [], ◌∷◌,
  ◌++◌, length, map, ℤ, pos, negsuc, zmq_error, type_error, arg_error, sys_error, assert, ok, fault,
  raise, Cmd, pure, throw, defined, ◌>>=◌, ◌>>◌, ◌==◌, ltb, if◌then◌else◌,
}
use rbczmq.Context.{destroy_socket}
use rbczmq.Czmq.{Bytes, bytes_eq}
use rbczmq.Czmq.Zlist.{Zlist}
use rbczmq.Net.{
  Zsocket, Net, Sock, IntOption, BoolOption, StringOption, identity, subscribe, unsubscribe,
  pending, bound, connected, disconnected, is_attached, call, run, query, get_socket, deref_socket,
  put_socket, guard_cross_thread, assert_sys_error, call_failed, zmq_assert,
}
use rbczmq.Objects.{Value, qnil, qtrue, qfalse, int, str, arr, or_nil, bool_value}

-- The return code that `ZmqAssert` takes for success: any but -1.
abbrev pub is_success : ℤ → Bool
is_success (negsuc zero) = false
is_success _ = true

-- `StringValueCStr`: a string without a NUL byte.
abbrev pub has_nul : Bytes → Bool
has_nul [] = false
has_nul (x ∷ xs) = (x == 0) || has_nul xs

-- `rb_ary_delete` on the endpoints: every equal string goes. Ruby's strings are equal when their
-- bytes are, since endpoints are ASCII.
abbrev pub delete : Bytes → List Bytes → List Bytes
delete e [] = []
delete e (d ∷ ds) = let rest = delete e ds in if bytes_eq d e then rest else d ∷ rest

-- The state after an endpoint has gone.
abbrev pub detached : Sock → Bytes → Sock
detached k e = elim (delete e k.endpoints) [
  | [] ↦ record k { endpoints = []; state = disconnected }
  | d ∷ ds ↦ record k { endpoints = d ∷ ds }
]

module _ {n : Zsocket} {z : Zlist} where
  -- `Check_Type(endpoint, T_STRING)` and `StringValueCStr`
  abbrev pub c_string : Value → Cmd (Net n z) Bytes
  c_string (str e) = if has_nul e then throw arg_error else pure e
  c_string _ = throw type_error

  -- `ZmqAssertSocketNotPending`
  abbrev pub assert_not_pending : Sock → Cmd (Net n z) (Unit {0})
  assert_not_pending k = assert (is_attached k.state) zmq_error

  -- `sock.close`
  unfoldable pub close : ℕ → Cmd (Net n z) Value
  close u = do
    k ← get_socket u
    guard_cross_thread k
    put_socket u (record k { state = disconnected })
    destroy_socket u
    pure qnil

  -- `sock.endpoints`, an array of strings
  pub endpoints : ℕ → Cmd (Net n z) (List Bytes)
  endpoints u = do k ← get_socket u; pure k.endpoints

  -- `sock.state`
  pub state : ℕ → Cmd (Net n z) Value
  state u = do k ← get_socket u; pure (int (pos k.state))

  -- `sock.fd`
  unfoldable pub fd : ℕ → Cmd (Net n z) Value
  fd u = do
    k ← get_socket u
    if (k.state == pending) || (k.state == disconnected)
        then pure (int (negsuc 0))
        else do i ← query (n.zsocket_fd k.socket); pure (int i)

  -- `rb_str_new_cstr` and `rb_ary_push` after the state has changed: the comparison with NULL that
  -- stands before is 0 or 1, which `ZmqAssert` takes for success, so that NULL comes through.
  abbrev pub push_endpoint : ℕ → (state : ℕ) → Option Bytes → Value → Cmd (Net n z) Value
  push_endpoint u st none v = do
    k ← deref_socket u
    put_socket u (record k { state = st })
    throw arg_error
  push_endpoint u st (some e) v = do
    k ← deref_socket u
    put_socket u (record k { state = st; endpoints = k.endpoints ++ e ∷ [] })
    pure v

  -- `sock.bind`, which returns the port
  unfoldable pub bind : ℕ → Value → Cmd (Net n z) Value
  bind u endpoint = do
    k ← get_socket u
    guard_cross_thread k
    e ← c_string endpoint
    rc ← call (n.zsocket_bind k.socket e)
    zmq_assert (is_success rc)
        (do last ← query (n.zsocket_last_endpoint k.socket); push_endpoint u bound last (int rc))

  -- `sock.connect`
  unfoldable pub connect : ℕ → Value → Cmd (Net n z) Value
  connect u endpoint = do
    k ← get_socket u
    guard_cross_thread k
    e ← c_string endpoint
    rc ← call (n.zsocket_connect k.socket e)
    zmq_assert (is_success rc)
        (do last ← query (n.zsocket_last_endpoint k.socket); push_endpoint u connected last qtrue)

  -- what `sock.disconnect` and `sock.unbind` do with an endpoint
  abbrev pub detach : (Bytes → n.World → Option (ℤ × n.World)) → ℕ → Bytes → Cmd (Net n z) Value
  detach f u e = do
    rc ← call (f e)
    zmq_assert (is_success rc) (do k ← deref_socket u; put_socket u (detached k e); pure qtrue)

  -- `sock.disconnect`
  unfoldable pub disconnect : ℕ → Value → Cmd (Net n z) Value
  disconnect u endpoint = do
    k ← get_socket u
    guard_cross_thread k
    e ← c_string endpoint
    detach (n.zsocket_disconnect k.socket) u e

  -- `sock.unbind`
  unfoldable pub unbind : ℕ → Value → Cmd (Net n z) Value
  unbind u endpoint = do
    k ← get_socket u
    guard_cross_thread k
    e ← c_string endpoint
    detach (n.zsocket_unbind k.socket) u e

  -- `sock.verbose=`
  pub set_verbose : ℕ → Value → Cmd (Net n z) Value
  set_verbose u level = do
    k ← get_socket u
    put_socket u (record k { verbose = elim level [ qtrue ↦ true | _ ↦ false ] })
    pure qnil

  -- `StringValue` with `Check_Type`: a string stays, and another object is converted by its
  -- `to_str`, which is code of the program or of Ruby, and raises if there is none.
  abbrev string_value : (Value → Cmd (Net n z) Bytes) → Value → Cmd (Net n z) Bytes
  string_value to_str (str d) = pure d
  string_value to_str v = to_str v

  -- `sock.send`, where the flag is ZMQ_SNDMORE for `sock.sendm`
  unfoldable send_flag :
      (to_str : Value → Cmd (Net n z) Bytes) → Bool → ℕ → Value → Cmd (Net n z) Value
  send_flag to_str more u v = do
    k ← get_socket u
    assert_not_pending k
    guard_cross_thread k
    d ← string_value to_str v
    sent ← call (n.zmq_sendmsg k.socket d more)
    zmq_assert sent (pure qtrue)

  unfoldable pub send : (to_str : Value → Cmd (Net n z) Bytes) → ℕ → Value → Cmd (Net n z) Value
  unfolding send_flag
  send to_str u v = send_flag to_str false u v

  -- `sock.sendm`
  unfoldable pub sendm : (to_str : Value → Cmd (Net n z) Bytes) → ℕ → Value → Cmd (Net n z) Value
  unfolding send_flag
  sendm to_str u v = send_flag to_str true u v

  abbrev received : Option Bytes → Cmd (Net n z) Value
  received none = pure qnil
  received (some d) = do assert_sys_error; pure (str d)

  -- `sock.recv`
  unfoldable pub recv : ℕ → Cmd (Net n z) Value
  recv u = do
    k ← get_socket u
    assert_not_pending k
    guard_cross_thread k
    d ← call (n.zmq_recvmsg k.socket false)
    received d

  -- `sock.recv_nonblock`
  unfoldable pub recv_nonblock : ℕ → Cmd (Net n z) Value
  recv_nonblock u = do
    k ← get_socket u
    assert_not_pending k
    guard_cross_thread k
    d ← call (n.zmq_recvmsg k.socket true)
    received d

  -- `sock.poll`
  unfoldable pub poll : ℕ → Value → Cmd (Net n z) Value
  poll u (int i) = do
    k ← get_socket u
    guard_cross_thread k
    readable ← call (n.zsocket_poll k.socket i)
    pure (bool_value readable)
  poll u _ = do get_socket u; throw type_error
