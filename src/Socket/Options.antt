-- ===== src/Socket/Options.antt =====
-- ext/rbczmq/socket.c: the options of a socket, by the macros ZmqSetSockOpt, ZmqSetBooleanSockOpt
-- and ZmqSetStringSockOpt of ext/rbczmq/socket.h.
use rbczmq.Base.{
  ℕ, zero, suc, Bool, true, false, not, Option, none, some, length, ℤ, pos, minus_one, zmq_error,
  type_error, arg_error, assert, Cmd, pure, throw, ◌>>=◌, ◌>>◌, ◌==◌, ltb,
}
use rbczmq.Czmq.{Bytes}
use rbczmq.Czmq.Zlist.{Zlist}
use rbczmq.Net.{
  Zsocket, Net, Sock, IntOption, BoolOption, StringOption, run, query, get_socket,
  guard_cross_thread,
}
use rbczmq.Objects.{Value, qnil, qtrue, qfalse, int, str, bool_value}
use rbczmq.Socket.{c_string}

abbrev is_zero : ℤ → Bool
is_zero (pos zero) = true
is_zero _ = false

abbrev is_one : ℤ → Bool
is_one (pos (suc zero)) = true
is_one _ = false

-- ZMQ_SUB
abbrev pub zmq_sub : ℕ
zmq_sub = 2

module _ {n : Zsocket} {z : Zlist} where
  -- the methods that read an integer
  unfoldable pub opt : IntOption → ℕ → Cmd (Net n z) Value
  opt o u = do k ← get_socket u; i ← query (n.zsocket_get o k.socket); pure (int i)

  -- `ZmqSetSockOpt`
  unfoldable pub set_sock_opt : IntOption → ℕ → Value → Cmd (Net n z) Value
  set_sock_opt o u (int i) = do
    k ← get_socket u
    guard_cross_thread k
    run (n.zsocket_set o k.socket i)
    pure qnil
  set_sock_opt o u _ = do k ← get_socket u; guard_cross_thread k; throw type_error

  -- `ZmqSetBooleanSockOpt`, with `CheckBoolean`
  abbrev set_boolean : BoolOption → Sock → Bool → Cmd (Net n z) Value
  set_boolean o k b = do run (n.zsocket_set_bool o k.socket b); pure qnil

  abbrev set_checked : BoolOption → Sock → Value → Cmd (Net n z) Value
  set_checked o k qtrue = set_boolean o k true
  set_checked o k qfalse = set_boolean o k false
  set_checked o k _ = throw type_error

  unfoldable set_boolean_sock_opt : BoolOption → ℕ → Value → Cmd (Net n z) Value
  set_boolean_sock_opt o u v = do k ← get_socket u; guard_cross_thread k; set_checked o k v

  -- `ZmqSetStringSockOpt`, whose assertion is `ZmqAssertSockOptFor(ZMQ_SUB)`
  unfoldable set_string_sock_opt : StringOption → ℕ → Value → Cmd (Net n z) Value
  set_string_sock_opt o u (str d) = do
    k ← get_socket u
    guard_cross_thread k
    t ← query (n.zsocket_type k.socket)
    assert (t == zmq_sub) zmq_error
    e ← c_string (str d)
    run (n.zsocket_set_string o k.socket e)
    pure qnil
  set_string_sock_opt o u _ = do k ← get_socket u; guard_cross_thread k; throw type_error

  unfoldable pub opt_sndhwm : ℕ → Cmd (Net n z) Value
  opt_sndhwm u = opt IntOption.sndhwm u

  unfoldable pub opt_rcvhwm : ℕ → Cmd (Net n z) Value
  opt_rcvhwm u = opt IntOption.rcvhwm u

  unfoldable pub opt_affinity : ℕ → Cmd (Net n z) Value
  opt_affinity u = opt IntOption.affinity u

  unfoldable pub opt_rate : ℕ → Cmd (Net n z) Value
  opt_rate u = opt IntOption.rate u

  unfoldable pub opt_recovery_ivl : ℕ → Cmd (Net n z) Value
  opt_recovery_ivl u = opt IntOption.recovery_ivl u

  unfoldable pub opt_maxmsgsize : ℕ → Cmd (Net n z) Value
  opt_maxmsgsize u = opt IntOption.maxmsgsize u

  unfoldable pub opt_multicast_hops : ℕ → Cmd (Net n z) Value
  opt_multicast_hops u = opt IntOption.multicast_hops u

  unfoldable pub opt_sndbuf : ℕ → Cmd (Net n z) Value
  opt_sndbuf u = opt IntOption.sndbuf u

  unfoldable pub opt_rcvbuf : ℕ → Cmd (Net n z) Value
  opt_rcvbuf u = opt IntOption.rcvbuf u

  unfoldable pub opt_backlog : ℕ → Cmd (Net n z) Value
  opt_backlog u = opt IntOption.backlog u

  unfoldable pub opt_reconnect_ivl : ℕ → Cmd (Net n z) Value
  opt_reconnect_ivl u = opt IntOption.reconnect_ivl u

  unfoldable pub opt_reconnect_ivl_max : ℕ → Cmd (Net n z) Value
  opt_reconnect_ivl_max u = opt IntOption.reconnect_ivl_max u

  unfoldable pub opt_rcvtimeo : ℕ → Cmd (Net n z) Value
  opt_rcvtimeo u = opt IntOption.rcvtimeo u

  unfoldable pub opt_sndtimeo : ℕ → Cmd (Net n z) Value
  opt_sndtimeo u = opt IntOption.sndtimeo u

  -- the value is not asked for
  unfoldable pub opt_linger : ℕ → Cmd (Net n z) Value
  opt_linger u = do get_socket u; pure (int minus_one)

  pub opt_ipv4only : ℕ → Cmd (Net n z) Value
  opt_ipv4only u = do
    k ← get_socket u
    i ← query (n.zsocket_ipv4only k.socket)
    pure (bool_value (not (is_zero i)))

  pub opt_rcvmore : ℕ → Cmd (Net n z) Value
  opt_rcvmore u = do
    k ← get_socket u
    i ← query (n.zsocket_rcvmore k.socket)
    pure (bool_value (is_one i))

  pub opt_events : ℕ → Cmd (Net n z) Value
  opt_events u = do k ← get_socket u; i ← query (n.zsocket_events k.socket); pure (int i)

  -- `rb_str_new_cstr` raises an ArgumentError on NULL
  abbrev new_cstr : Option Bytes → Cmd (Net n z) Value
  new_cstr none = throw arg_error
  new_cstr (some e) = pure (str e)

  pub opt_last_endpoint : ℕ → Cmd (Net n z) Value
  opt_last_endpoint u = do
    k ← get_socket u
    last ← query (n.zsocket_last_endpoint k.socket)
    new_cstr last

  unfoldable pub set_opt_sndhwm : ℕ → Value → Cmd (Net n z) Value
  set_opt_sndhwm u v = set_sock_opt IntOption.sndhwm u v

  unfoldable pub set_opt_rcvhwm : ℕ → Value → Cmd (Net n z) Value
  set_opt_rcvhwm u v = set_sock_opt IntOption.rcvhwm u v

  unfoldable pub set_opt_affinity : ℕ → Value → Cmd (Net n z) Value
  set_opt_affinity u v = set_sock_opt IntOption.affinity u v

  unfoldable pub set_opt_rate : ℕ → Value → Cmd (Net n z) Value
  set_opt_rate u v = set_sock_opt IntOption.rate u v

  unfoldable pub set_opt_recovery_ivl : ℕ → Value → Cmd (Net n z) Value
  set_opt_recovery_ivl u v = set_sock_opt IntOption.recovery_ivl u v

  unfoldable pub set_opt_maxmsgsize : ℕ → Value → Cmd (Net n z) Value
  set_opt_maxmsgsize u v = set_sock_opt IntOption.maxmsgsize u v

  unfoldable pub set_opt_multicast_hops : ℕ → Value → Cmd (Net n z) Value
  set_opt_multicast_hops u v = set_sock_opt IntOption.multicast_hops u v

  unfoldable pub set_opt_sndbuf : ℕ → Value → Cmd (Net n z) Value
  set_opt_sndbuf u v = set_sock_opt IntOption.sndbuf u v

  unfoldable pub set_opt_rcvbuf : ℕ → Value → Cmd (Net n z) Value
  set_opt_rcvbuf u v = set_sock_opt IntOption.rcvbuf u v

  unfoldable pub set_opt_backlog : ℕ → Value → Cmd (Net n z) Value
  set_opt_backlog u v = set_sock_opt IntOption.backlog u v

  unfoldable pub set_opt_reconnect_ivl : ℕ → Value → Cmd (Net n z) Value
  set_opt_reconnect_ivl u v = set_sock_opt IntOption.reconnect_ivl u v

  unfoldable pub set_opt_reconnect_ivl_max : ℕ → Value → Cmd (Net n z) Value
  set_opt_reconnect_ivl_max u v = set_sock_opt IntOption.reconnect_ivl_max u v

  unfoldable pub set_opt_rcvtimeo : ℕ → Value → Cmd (Net n z) Value
  set_opt_rcvtimeo u v = set_sock_opt IntOption.rcvtimeo u v

  unfoldable pub set_opt_sndtimeo : ℕ → Value → Cmd (Net n z) Value
  set_opt_sndtimeo u v = set_sock_opt IntOption.sndtimeo u v

  unfoldable pub set_opt_linger : ℕ → Value → Cmd (Net n z) Value
  set_opt_linger u v = set_sock_opt IntOption.linger u v

  pub set_opt_ipv4only : ℕ → Value → Cmd (Net n z) Value
  set_opt_ipv4only u v = set_boolean_sock_opt BoolOption.ipv4only u v

  pub set_opt_delay_attach_on_connect : ℕ → Value → Cmd (Net n z) Value
  set_opt_delay_attach_on_connect u v = set_boolean_sock_opt BoolOption.delay_attach_on_connect u v

  pub set_opt_router_mandatory : ℕ → Value → Cmd (Net n z) Value
  set_opt_router_mandatory u v = set_boolean_sock_opt BoolOption.router_mandatory u v

  pub set_opt_router_raw : ℕ → Value → Cmd (Net n z) Value
  set_opt_router_raw u v = set_boolean_sock_opt BoolOption.router_raw u v

  pub set_opt_xpub_verbose : ℕ → Value → Cmd (Net n z) Value
  set_opt_xpub_verbose u v = set_boolean_sock_opt BoolOption.xpub_verbose u v

  unfoldable pub set_opt_identity : ℕ → Value → Cmd (Net n z) Value
  set_opt_identity u (str d) = do
    k ← get_socket u
    guard_cross_thread k
    assert (not (length d == 0)) zmq_error
    assert (not (ltb 255 (length d))) zmq_error
    e ← c_string (str d)
    run (n.zsocket_set_string StringOption.identity k.socket e)
    pure qnil
  set_opt_identity u _ = do k ← get_socket u; guard_cross_thread k; throw type_error

  unfoldable pub set_opt_subscribe : ℕ → Value → Cmd (Net n z) Value
  unfolding set_string_sock_opt
  set_opt_subscribe u v = set_string_sock_opt StringOption.subscribe u v

  unfoldable pub set_opt_unsubscribe : ℕ → Value → Cmd (Net n z) Value
  unfolding set_string_sock_opt
  set_opt_unsubscribe u v = set_string_sock_opt StringOption.unsubscribe u v
