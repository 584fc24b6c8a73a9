-- ===== src/Extension.antt =====
-- ext/rbczmq/rbczmq_ext.c: the functions of the module ZMQ itself.
pub mod Clock
use rbczmq.Base.{
  ℕ, ◌+◌, ◌-◌, ◌%◌, ◌^◌, Bool, true, false, Option, none, some, List, [], ◌∷◌, ℤ, pos, negsuc, zero,
  type_error, ok, raise, fault, Cmd, pure, throw, ◌>>=◌, ◌>>◌, ltb, if◌then◌else◌,
}
use rbczmq.Czmq.{Ptr, Bytes}
use rbczmq.Czmq.Zlist.{Zlist}
use rbczmq.Net.{Zsocket, Net, get_socket, call}
use rbczmq.Objects.{Value, qnil, bool_value, int, obj}
use rbczmq.Socket.{c_string}

-- What these functions use of libczmq and libzmq, a parameter. The clock counts milliseconds.
pub record Library (n : Zsocket) : Type 0 where
  pub zctx_interrupted : n.World → Bool
  pub set_interrupted : n.World → n.World
  pub zmq_version : ℤ × ℤ × ℤ
  pub czmq_version : ℤ × ℤ × ℤ
  pub zclock_time : n.World → ℕ
  pub zclock_log : Bytes → n.World → n.World
  pub zmq_errno : n.World → ℤ
  pub zmq_strerror : ℤ → Bytes
  pub zmq_proxy : (frontend backend capture : Ptr) → n.World → Option (ℤ × n.World)

-- `INT2NUM` of a number that is not negative: it goes through an `int` of 32 bits.
unfoldable pub int_to_num : ℕ → ℤ
int_to_num k = let r = k % 2 ^ 32 in if ltb r (2 ^ 31) then pos r else negsuc (2 ^ 32 - (r + 1))

abbrev pub is_zero : ℤ → Bool
is_zero (pos zero) = true
is_zero _ = false

module _ {n : Zsocket} {z : Zlist} (lib : Library n) where
  -- `ZMQ.interrupted?`
  pub interrupted_p : Cmd (Net n z) Value
  interrupted_p s = ok (bool_value (lib.zctx_interrupted s.world)) s

  -- `ZMQ.version` and `ZMQ.czmq_version`
  pub version : Cmd (Net n z) (ℤ × ℤ × ℤ)
  version s = ok lib.zmq_version s

  pub czmq_version : Cmd (Net n z) (ℤ × ℤ × ℤ)
  czmq_version s = ok lib.czmq_version s

  -- `ZMQ.now`
  unfoldable pub now : Cmd (Net n z) Value
  unfolding int_to_num
  now s = ok (int (int_to_num (lib.zclock_time s.world))) s

  -- `ZMQ.log`
  pub log : Value → Cmd (Net n z) Value
  log msg = do
    d ← c_string msg
    (λ s. ok tt (record s { world = lib.zclock_log d s.world }))
    pure qnil

  -- `ZMQ.error`, by its message, where `none` is nil
  pub error : Cmd (Net n z) (Option Bytes)
  error s =
      let e = lib.zmq_errno s.world in ok (if is_zero e then none else some (lib.zmq_strerror e)) s

  -- `ZMQ.errno`
  pub errno : Cmd (Net n z) Value
  errno s = ok (int (lib.zmq_errno s.world)) s

  -- `ZMQ.interrupted!`
  pub interrupted_bang : Cmd (Net n z) Value
  interrupted_bang s = ok qnil (record s { world = lib.set_interrupted s.world })

  -- The address of the socket for `capture`, `NULL` for nil.
  abbrev capture_of : Option ℕ → Cmd (Net n z) Ptr
  capture_of none = pure 0
  capture_of (some u) = do k ← get_socket u; pure k.socket

  -- `ZMQ.proxy`, with nil for no third argument
  pub proxy : (frontend backend : ℕ) → (capture : Option ℕ) → Cmd (Net n z) Value
  proxy frontend backend capture = do
    f ← get_socket frontend
    b ← get_socket backend
    c ← capture_of capture
    rc ← call (lib.zmq_proxy f.socket b.socket c)
    pure (int rc)
