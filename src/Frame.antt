-- ===== src/Frame.antt =====
-- ext/rbczmq/frame.c: the methods of ZMQ::Frame. Each takes the references of its receiver and of
-- its object arguments; a string argument is a value.
pub mod Ownership
use rbczmq.Base.{
  ℕ, ◌+◌, ◌-◌, ◌%◌, ◌^◌, ◌≡◌, Bool, true, false, not, ◌||◌, ◌&&◌, Option, none, some, List, [], ℤ,
  pos, minus_one, Exc, type_error, zmq_error, Run, ok, Cmd, pure, throw, defined, or_raise, ◌>>=◌,
  ◌>>◌, modify, assert, ltb, ◌==◌, if◌then◌else◌, Table, update,
}
use rbczmq.Czmq.{Ptr, Bytes, Errno, Czmq}
use rbczmq.Czmq.Zlist.{Zlist}
use rbczmq.Objects.{
  FrameObj, MessageObj, Value, qnil, qtrue, qfalse, obj, int, str, St, bool_value, call, run, query,
  get_frame, put_frame, deref_frame, is_frame_owned, assert_frame_owned, assert_sys_error,
  no_memory,
}

-- `Check_Type(v, T_STRING)`.
abbrev pub check_string : {S : Type 0} → Value → Cmd S Bytes
check_string (str b) = pure b
check_string _ = throw type_error

-- `long diff = a - b` over `size_t`, and the sign that `<=>` makes of it.
unfoldable pub size_order : ℕ → ℕ → ℤ
size_order a b =
    let diff = (a + 2 ^ 64 - b) % 2 ^ 64 in
    if diff == 0 then pos 0 else if ltb diff (2 ^ 63) then pos 1 else minus_one

module _ {c : Czmq} {z : Zlist} where
  -- `rb_czmq_alloc_frame`
  unfoldable pub alloc_frame : Ptr → Cmd (St c z) ℕ
  alloc_frame p s = ok s.next (record s {
    frame_objs =
        update s.frame_objs s.next (some (record { frame = p; message = none; owned = true }));
    next = s.next + 1;
  })

  -- `rb_czmq_free_frame`, of the struct at an address
  unfoldable pub free_frame : ℕ → Cmd (St c z) (Unit {0})
  free_frame v = do
    f ← deref_frame v
    if not (f.frame == 0) && f.owned
        then (do
          run (c.zframe_destroy f.frame)
          put_frame v (record f { frame = 0; owned = false }))
        else put_frame v (record f { frame = 0 })

  -- `rb_czmq_free_frame_gc`: the struct is given back too
  unfoldable pub free_frame_gc : ℕ → Cmd (St c z) (Unit {0})
  unfolding free_frame
  free_frame_gc v = do
    free_frame v
    modify (λ s. record s { frame_objs = update s.frame_objs v none })

  -- the ends of `ZMQ::Frame.new` and `dup`
  wrap_new : Ptr → Cmd (St c z) Value
  unfolding alloc_frame
  wrap_new p = if p == 0 then no_memory else do v ← alloc_frame p; pure (obj v)

  -- `ZMQ::Frame.new`, with nil for no argument
  unfoldable pub s_new : Value → Cmd (St c z) Value
  unfolding wrap_new
  s_new qnil = do p ← call (λ w. some (c.zframe_new [] w)); wrap_new p
  s_new v = do d ← check_string v; p ← call (λ w. some (c.zframe_new d w)); wrap_new p

  unfoldable pub destroy : ℕ → Cmd (St c z) Value
  unfolding free_frame
  destroy v = do f ← get_frame v; assert_frame_owned f; free_frame v; pure qnil

  -- the methods that return nil of a frame that is gone
  abbrev unless_gone : FrameObj → Cmd (St c z) Value → Cmd (St c z) Value
  unless_gone f rest = do owned ← is_frame_owned f; if owned then rest else pure qnil

  unfoldable pub size : ℕ → Cmd (St c z) Value
  size v = do
    f ← get_frame v
    unless_gone f (do n ← query (c.zframe_size f.frame); pure (int (pos n)))

  -- `data`
  unfoldable pub get_data : ℕ → Cmd (St c z) Value
  get_data v = do
    f ← get_frame v
    unless_gone f
        (do n ← query (c.zframe_size f.frame); d ← query (c.zframe_data f.frame); pure (str d))

  unfoldable pub strhex : ℕ → Cmd (St c z) Value
  strhex v = do
    f ← get_frame v
    unless_gone f (do d ← query (c.zframe_strhex f.frame); pure (str d))

  unfoldable pub dup : ℕ → Cmd (St c z) Value
  unfolding wrap_new
  dup v = do f ← get_frame v; assert_frame_owned f; p ← call (c.zframe_dup f.frame); wrap_new p

  -- `data_equals?`
  unfoldable pub data_equals_p : ℕ → Value → Cmd (St c z) Value
  data_equals_p v s = do
    f ← get_frame v
    assert_frame_owned f
    d ← check_string s
    b ← query (c.zframe_streq f.frame d)
    pure (bool_value b)

  -- `more?`, where ZFRAME_MORE is 1
  unfoldable pub more_p : ℕ → Cmd (St c z) Value
  more_p v = do
    f ← get_frame v
    unless_gone f (do n ← query (c.zframe_more f.frame); pure (bool_value (n == 1)))

  -- `eql?`
  unfoldable pub eql_p : ℕ → ℕ → Cmd (St c z) Value
  eql_p v u = do
    f ← get_frame v
    assert_frame_owned f
    g ← get_frame u
    assert (not (g.frame == 0)) type_error
    assert_frame_owned g
    b ← query (c.zframe_eq f.frame g.frame)
    pure (bool_value b)

  -- `==`
  unfoldable pub equals : ℕ → ℕ → Cmd (St c z) Value
  unfolding eql_p
  equals v u = if v == u then pure qtrue else eql_p v u

  -- `<=>`, which checks the owner of `frame` twice and that of `other` never
  unfoldable pub cmp : ℕ → ℕ → Cmd (St c z) Value
  unfolding size_order
  cmp v u = if v == u then pure (int (pos 0)) else do
    f ← get_frame v
    assert_frame_owned f
    g ← get_frame u
    assert (not (g.frame == 0)) type_error
    assert_frame_owned f
    a ← query (c.zframe_size f.frame)
    b ← query (c.zframe_size g.frame)
    pure (int (size_order a b))

  -- `print`, with nil for no prefix
  print_prefix : Value → Cmd (St c z) Bytes
  print_prefix qnil = pure []
  print_prefix v = check_string v

  unfoldable pub print : ℕ → Value → Cmd (St c z) Value
  unfolding print_prefix
  print v prefix = do
    f ← get_frame v
    assert_frame_owned f
    d ← print_prefix prefix
    run (c.zframe_print f.frame d)
    pure qnil

  unfoldable pub reset : ℕ → Value → Cmd (St c z) Value
  reset v s = do
    f ← get_frame v
    assert_frame_owned f
    d ← check_string s
    run (c.zframe_reset f.frame d)
    assert_sys_error
    pure qnil

  -- `gone?`
  unfoldable pub gone : ℕ → Cmd (St c z) Value
  gone v = do f ← get_frame v; owned ← is_frame_owned f; pure (bool_value (not owned))
