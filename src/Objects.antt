-- ===== src/Objects.antt =====
-- The state that frames and messages share: the Ruby objects of ext/rbczmq/frame.h and
-- ext/rbczmq/message.h with the state of libczmq behind them, and the steps that the macros of
-- these headers take. A Ruby reference (a VALUE) is a number, and so is the address of the struct
-- that it wraps. A reference that is in neither table is of another class.
use rbczmq.Base.{
  ℕ, Bool, true, false, not, Option, none, some, List, ◌∷◌, ◌+◌, ℤ, type_error, zmq_error,
  sys_error, mem_error, ok, raise, fault, Cmd, throw, defined, or_raise, ◌>>=◌, ◌>>◌, assert, ◌==◌,
  if◌then◌else◌, Table, update,
}
use rbczmq.Czmq.{Ptr, Bytes, Errno, Czmq}
use rbczmq.Czmq.Zlist.{Zlist}
use mathlib.Core.Option

-- `zmq_frame_wrapper`. `owned` is ZMQ_FRAME_OWNED, the only bit of `flags`.
pub record FrameObj : Type 0 where
  pub frame : Ptr
  pub message : Option ℕ
  pub owned : Bool

-- `zmq_message_wrapper`. `owned` is ZMQ_MESSAGE_OWNED, the only bit of `flags`.
pub record MessageObj (z : Zlist) : Type 0 where
  pub message : Ptr
  pub owned : Bool
  pub frames : Option z.L

-- What the methods return and take beside references to frames and messages.
pub data Value : Type 0 where
  qnil qtrue qfalse : Value
  obj : ℕ → Value
  int : ℤ → Value
  str : Bytes → Value
  arr : List ℕ → Value

pub record St (c : Czmq) (z : Zlist) : Type 0 where
  pub world : c.World
  pub frame_objs : Table FrameObj
  pub message_objs : Table (MessageObj z)
  -- the reference that the next allocation returns
  pub next : ℕ
  -- the Ruby objects whose struct has been freed behind their back
  pub dangling : List ℕ

-- A reference out of a list, where `NULL` stands for nil.
abbrev pub or_nil : ℕ → Value
or_nil v = if v == 0 then qnil else obj v

abbrev pub bool_value : Bool → Value
bool_value true = qtrue
bool_value false = qfalse

-- `errno` as `ZmqAssertSysError` tests it.
abbrev pub is_sys_error : Errno → Bool
is_sys_error Errno.success = false
is_sys_error Errno.again = false
is_sys_error _ = true

module _ {c : Czmq} {z : Zlist} where
  -- The state after a call of the library, which is undefined or returns.
  abbrev pub after_call : {A : Type 0} → Option (A × c.World) → Cmd (St c z) A
  after_call none s = fault
  after_call (some (a, w)) s = ok a (record s { world = w })

  abbrev pub after_run : Option c.World → Cmd (St c z) (Unit {0})
  after_run none s = fault
  after_run (some w) s = ok tt (record s { world = w })

  -- Calls of the library: one that changes its state, one that returns nothing, and one that reads.
  abbrev pub call : {A : Type 0} → (c.World → Option (A × c.World)) → Cmd (St c z) A
  call f s = after_call (f s.world) s

  abbrev pub run : (c.World → Option c.World) → Cmd (St c z) (Unit {0})
  run f s = after_run (f s.world) s

  abbrev pub query : {A : Type 0} → (c.World → Option A) → Cmd (St c z) A
  query f s = defined (f s.world) s

  -- `ZmqGetFrame` and `ZmqGetMessage`.
  abbrev pub get_frame : ℕ → Cmd (St c z) FrameObj
  get_frame v s = or_raise type_error (s.frame_objs v) s

  abbrev pub get_message : ℕ → Cmd (St c z) (MessageObj z)
  get_message v s = or_raise type_error (s.message_objs v) s

  -- A struct is written through its address.
  abbrev pub put_frame : ℕ → FrameObj → Cmd (St c z) (Unit {0})
  put_frame v f s = ok tt (record s { frame_objs = update s.frame_objs v (some f) })

  abbrev pub put_message : ℕ → MessageObj z → Cmd (St c z) (Unit {0})
  put_message v m s = ok tt (record s { message_objs = update s.message_objs v (some m) })

  -- The struct behind an address that the code holds, as opposed to a reference that it was given.
  abbrev pub deref_message : ℕ → Cmd (St c z) (MessageObj z)
  deref_message v s = defined (s.message_objs v) s

  abbrev pub deref_frame : ℕ → Cmd (St c z) FrameObj
  deref_frame v s = defined (s.frame_objs v) s

  -- The test of `ZmqAssertFrameOwned` and of `ZmqReturnNilUnlessFrameOwned`: it reads the message's
  -- struct if the frame is linked to one.
  abbrev pub is_frame_owned : FrameObj → Cmd (St c z) Bool
  is_frame_owned f s = if f.owned then ok true s else elim f.message [
    | none ↦ ok false s
    | some m ↦ defined (Option.map (λ (o : MessageObj z). o.owned) (s.message_objs m)) s
  ]

  abbrev pub assert_frame_owned : FrameObj → Cmd (St c z) (Unit {0})
  assert_frame_owned f = do owned ← is_frame_owned f; assert owned zmq_error

  -- `ZmqAssertFrameOwnedNoMessage`.
  abbrev pub assert_frame_owned_no_message : FrameObj → Cmd (St c z) (Unit {0})
  assert_frame_owned_no_message f = assert f.owned zmq_error

  -- `ZmqAssertMessageOwned`.
  abbrev pub assert_message_owned : MessageObj z → Cmd (St c z) (Unit {0})
  assert_message_owned m = assert m.owned type_error

  -- `ZmqAssertSysError`.
  abbrev pub assert_sys_error : Cmd (St c z) (Unit {0})
  assert_sys_error s = assert (not (is_sys_error (c.zmq_errno s.world))) sys_error s

  -- `ZmqAssertSysError(); rb_memerror();`
  abbrev pub no_memory : {A : Type 0} → Cmd (St c z) A
  no_memory = assert_sys_error >> throw mem_error

  -- The state in which the object under the next reference has been made, and its struct freed.
  abbrev pub dangled : St c z → St c z
  dangled s = record s { dangling = s.next ∷ s.dangling; next = s.next + 1 }

  -- `ZmqAssertObjOnAlloc` on NULL: `xfree(wrapper)` frees the struct of a Ruby object that has just
  -- been made, and that the collector will free once more.
  abbrev pub alloc_failed : {A : Type 0} → Cmd (St c z) A
  alloc_failed s = no_memory (dangled s)

  -- The branch of `ZmqAssert` for the return code -1: an exception, or false.
  abbrev pub call_failed : Cmd (St c z) Value
  call_failed s = elim (c.zmq_errno s.world) [
    | Errno.mt_thread ↦ raise zmq_error s
    | Errno.success ↦ ok qfalse s
    | Errno.again ↦ ok qfalse s
    | _ ↦ raise sys_error s
  ]

  -- `ZmqAssert(rc)`, with the rest of the method.
  abbrev pub zmq_assert : Bool → Cmd (St c z) Value → Cmd (St c z) Value
  zmq_assert true rest = rest
  zmq_assert false rest = call_failed
