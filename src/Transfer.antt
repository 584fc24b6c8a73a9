-- ===== src/Transfer.antt =====
-- ext/rbczmq/socket.c: frames and messages that sockets send and receive. The state is that of the
-- sockets beside that of the frames and messages.
pub mod Sending
pub mod Receiving
pub mod Ideal
use rbczmq.Base.{
  ℕ, Bool, true, false, not, Option, none, some, ℤ, pos, negsuc, type_error, ok, raise, fault, Cmd,
  Run, pure, throw, ◌>>=◌, ◌>>◌, ◌==◌, if◌then◌else◌, ◌/◌, ◌%◌,
}
use rbczmq.Czmq.{Ptr, Czmq}
use rbczmq.Czmq.Zlist.{Zlist}
use rbczmq.Frame.{alloc_frame}
use rbczmq.Message.{alloc_message}
use rbczmq.Net.{Zsocket, Net, Sock, get_socket, guard_cross_thread, zmq_assert, call_failed}
use rbczmq.Objects.{
  Value, qnil, qtrue, int, obj, St, FrameObj, MessageObj, get_frame, get_message, put_frame,
  put_message, deref_frame, deref_message, assert_frame_owned_no_message, assert_message_owned,
}
use rbczmq.Socket.{assert_not_pending, is_success}

-- The calls of libczmq that move frames and messages through sockets, a parameter. An address 0 is
-- `NULL`, and the last argument of `zframe_send` is its flags.
pub record Wire (c : Czmq) (n : Zsocket) : Type 0 where
  pub zframe_send : (frame socket : Ptr) → ℤ → c.World → n.World → Option (ℤ × c.World × n.World)
  pub zframe_recv : Ptr → c.World → n.World → Option (Ptr × c.World × n.World)
  pub zframe_recv_nowait : Ptr → c.World → n.World → Option (Ptr × c.World × n.World)
  pub zmsg_send : (message socket : Ptr) → c.World → n.World → Option (ℤ × c.World × n.World)
  pub zmsg_recv : Ptr → c.World → n.World → Option (Ptr × c.World × n.World)

pub record Peer (c : Czmq) (n : Zsocket) (z : Zlist) : Type 0 where
  pub net : Net n z
  pub objs : St c z

-- ZFRAME_REUSE is bit 1 of the flags, in two's complement.
unfoldable pub is_reuse : ℤ → Bool
is_reuse (pos k) = k / 2 % 2 == 1
is_reuse (negsuc k) = k / 2 % 2 == 0

module _ {c : Czmq} {n : Zsocket} {z : Zlist} where
  abbrev pub of_net : {A : Type 0} → Run (Net n z) A → Cmd (Peer c n z) A
  of_net (ok a m) s = ok a (record s { net = m })
  of_net (raise e m) s = raise e (record s { net = m })
  of_net fault s = fault

  abbrev pub of_objs : {A : Type 0} → Run (St c z) A → Cmd (Peer c n z) A
  of_objs (ok a m) s = ok a (record s { objs = m })
  of_objs (raise e m) s = raise e (record s { objs = m })
  of_objs fault s = fault

  -- A step on sockets, and one on frames and messages.
  abbrev pub on_net : {A : Type 0} → Cmd (Net n z) A → Cmd (Peer c n z) A
  on_net f s = of_net (f s.net) s

  abbrev pub on_objs : {A : Type 0} → Cmd (St c z) A → Cmd (Peer c n z) A
  on_objs f s = of_objs (f s.objs) s

  abbrev after_wire : {A : Type 0} → Option (A × c.World × n.World) → Cmd (Peer c n z) A
  after_wire none s = fault
  after_wire (some (a, w, v)) s =
      ok a (record s { net = record s.net { world = v }; objs = record s.objs { world = w } })

  -- A call of the library on both.
  abbrev pub wire :
      {A : Type 0} → (c.World → n.World → Option (A × c.World × n.World)) → Cmd (Peer c n z) A
  wire f s = after_wire (f s.objs.world s.net.world) s

  -- The three guards that these methods begin with.
  unfoldable pub guarded : ℕ → Cmd (Peer c n z) Sock
  guarded u = do
    k ← on_net (get_socket u)
    on_net (assert_not_pending k)
    on_net (guard_cross_thread k)
    pure k

  -- the flags of `send_frame`, with nil for no argument
  abbrev flags_of : Value → Cmd (Peer c n z) ℤ
  flags_of qnil = pure (pos 0)
  flags_of (int i) = pure i
  flags_of _ = throw type_error

  -- `ZmqAssert`, with the rest of the method
  abbrev peer_assert : Bool → Cmd (Peer c n z) Value → Cmd (Peer c n z) Value
  peer_assert true rest = rest
  peer_assert false rest = on_net call_failed

  -- the frame is destroyed by the library: the object owns it no more
  abbrev disown_frame : ℕ → Cmd (Peer c n z) (Unit {0})
  disown_frame v = on_objs (do f ← deref_frame v; put_frame v (record f { owned = false }))

  -- `sock.send_frame`
  unfoldable pub send_frame : Wire c n → ℕ → ℕ → Value → Cmd (Peer c n z) Value
  send_frame lib u v flags = do
    k ← guarded u
    f ← on_objs (get_frame v)
    on_objs (assert_frame_owned_no_message f)
    flgs ← flags_of flags
    rc ← wire (lib.zframe_send f.frame k.socket flgs)
    peer_assert (is_success rc) (do if is_reuse flgs then pure tt else disown_frame v; pure qtrue)

  -- `sock.send_message`, which looks at no return code
  unfoldable pub send_message : Wire c n → ℕ → ℕ → Cmd (Peer c n z) Value
  send_message lib u v = do
    k ← guarded u
    m ← on_objs (get_message v)
    on_objs (assert_message_owned m)
    wire (lib.zmsg_send m.message k.socket)
    on_objs (do o ← deref_message v; put_message v (record o { owned = false }))
    pure qnil

  -- what the methods that receive a frame end in
  received_frame : Ptr → Cmd (Peer c n z) Value
  unfolding alloc_frame
  received_frame p = if p == 0 then pure qnil else do v ← on_objs (alloc_frame p); pure (obj v)

  -- `sock.recv_frame`
  unfoldable pub recv_frame : Wire c n → ℕ → Cmd (Peer c n z) Value
  unfolding received_frame
  recv_frame lib u = do k ← guarded u; p ← wire (lib.zframe_recv k.socket); received_frame p

  -- `sock.recv_frame_nonblock`
  unfoldable pub recv_frame_nonblock : Wire c n → ℕ → Cmd (Peer c n z) Value
  unfolding received_frame
  recv_frame_nonblock lib u = do
    k ← guarded u
    p ← wire (lib.zframe_recv_nowait k.socket)
    received_frame p

  -- `sock.recv_message`, with fuel for the loop of `rb_czmq_alloc_message`
  unfoldable pub recv_message : Wire c n → (fuel : ℕ) → ℕ → Cmd (Peer c n z) Value
  recv_message lib fuel u = do
    k ← guarded u
    m ← wire (lib.zmsg_recv k.socket)
    if m == 0 then pure qnil else on_objs (alloc_message fuel m)
