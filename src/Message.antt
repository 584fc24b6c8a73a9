-- ===== src/Message.antt =====
-- ext/rbczmq/message.c: the methods of ZMQ::Message. A message keeps the references of its frame
-- objects in a list beside the frames that libczmq holds. The methods that walk through the list
-- are in Message/Cursor, and those on whole messages in Message/Copies.
pub mod Copies
pub mod Cursor
pub mod Encoding
pub mod Sync
pub mod Deque
pub mod Gone
pub mod Sharing
pub mod Alloc
pub mod Access
pub mod Exchange
pub mod Iteration
pub mod Remove
pub mod Envelope
pub mod Refinement
pub mod Strings
use rbczmq.Base.{
  length, ℕ, zero, suc, ◌≡◌, Bool, true, false, not, ◌||◌, ◌&&◌, Option, none, some, List, [], ◌∷◌,
  ◌++◌, ℤ, pos, type_error, zmq_error, fault, ok, Cmd, pure, throw, defined, ◌>>=◌, ◌>>◌, ltb,
  modify, assert, ◌==◌, if◌then◌else◌, Table, update, ◌+◌,
}
use rbczmq.Czmq.{Ptr, Bytes, Czmq, bytes_eq, up_to_nul}
use rbczmq.Czmq.Zlist.{Zlist}
use rbczmq.Frame.{alloc_frame, check_string}
use rbczmq.Objects.{
  FrameObj, MessageObj, Value, qnil, qtrue, qfalse, obj, int, str, arr, St, or_nil, bool_value,
  call, run, query, get_frame, get_message, put_frame, put_message, deref_frame, deref_message,
  assert_frame_owned, assert_frame_owned_no_message, assert_message_owned, alloc_failed, zmq_assert,
}

module _ {c : Czmq} {z : Zlist} where
  -- A call on the list of a struct, where `NULL` is an error, and one that also returns a reference.
  abbrev pub on_list : ℕ → (z.L → z.L) → Cmd (St c z) (Unit {0})
  on_list v f = do
    m ← deref_message v
    l ← defined m.frames
    put_message v (record m { frames = some (f l) })

  abbrev pub from_list : ℕ → (z.L → ℕ × z.L) → Cmd (St c z) ℕ
  from_list v f = do
    m ← deref_message v
    l ← defined m.frames
    put_message v (record m { frames = some (f l).1 })
    pure (f l).0

  -- `rb_czmq_free_message`, of the struct at an address
  unfoldable pub free_message : ℕ → Cmd (St c z) (Unit {0})
  free_message v = do
    m ← deref_message v
    if not (m.message == 0) && m.owned
        then (do
          run (c.zmsg_destroy m.message)
          put_message v (record { message = 0; owned = false; frames = none }))
        else put_message v (record m { message = 0; frames = none })

  -- `rb_czmq_free_message_gc`
  unfoldable pub free_message_gc : ℕ → Cmd (St c z) (Unit {0})
  unfolding free_message
  free_message_gc v = do
    free_message v
    modify (λ s. record s { message_objs = update s.message_objs v none })

  -- A frame object is linked to a message: the message owns the frame.
  unfoldable pub link_frame : (frame message : ℕ) → Cmd (St c z) (Unit {0})
  link_frame v m = do f ← get_frame v; put_frame v (record f { owned = false; message = some m })

  -- A frame object is taken out of its message, and owns its frame.
  unfoldable pub unlink_frame : ℕ → Cmd (St c z) (Unit {0})
  unlink_frame v = do f ← get_frame v; put_frame v (record f { owned = true; message = none })

  -- the loop of `rb_czmq_alloc_message`
  unfoldable pub alloc_frames : (fuel message : ℕ) → Ptr → Ptr → Cmd (St c z) (Unit {0})
  unfolding alloc_frame link_frame
  alloc_frames zero m zmsg zframe = λ _. fault
  alloc_frames (suc k) m zmsg zframe = if zframe == 0 then pure tt else do
    v ← alloc_frame zframe
    link_frame v m
    on_list m (z.zlist_append v)
    rest ← call (c.zmsg_next zmsg)
    alloc_frames k m zmsg rest

  -- `rb_czmq_alloc_message`, with fuel for the loop over the frames
  unfoldable pub alloc_message : (fuel : ℕ) → Ptr → Cmd (St c z) Value
  alloc_message fuel zmsg = if zmsg == 0 then alloc_failed else do
    v ← (λ s. ok s.next (record s {
      message_objs =
          update s.message_objs s.next
            (some (record { message = zmsg; owned = true; frames = some z.zlist_new }));
      next = s.next + 1;
    }))
    p ← call (c.zmsg_first zmsg)
    alloc_frames fuel v zmsg p
    pure (obj v)

  -- `ZMQ::Message.new`
  unfoldable pub new : (fuel : ℕ) → Cmd (St c z) Value
  new fuel = do
    m ← call (λ w. some (c.zmsg_new w))
    if m == 0 then throw zmq_error else alloc_message fuel m

  -- the methods that return nil of a message that is gone
  abbrev pub unless_gone : MessageObj z → Cmd (St c z) Value → Cmd (St c z) Value
  unless_gone m rest = if m.owned then rest else pure qnil

  unfoldable pub size : ℕ → Cmd (St c z) Value
  size v = do
    m ← get_message v
    unless_gone m (do n ← query (c.zmsg_size m.message); pure (int (pos n)))

  unfoldable pub content_size : ℕ → Cmd (St c z) Value
  content_size v = do
    m ← get_message v
    unless_gone m (do n ← query (c.zmsg_content_size m.message); pure (int (pos n)))

  unfoldable pub push : (message frame : ℕ) → Cmd (St c z) Value
  unfolding link_frame
  push v u = do
    m ← get_message v
    assert_message_owned m
    f ← get_frame u
    assert_frame_owned_no_message f
    rc ← call (c.zmsg_push m.message f.frame)
    zmq_assert rc (do link_frame u v; on_list v (z.zlist_push u); pure qtrue)

  unfoldable pub add : (message frame : ℕ) → Cmd (St c z) Value
  unfolding link_frame
  add v u = do
    m ← get_message v
    assert_message_owned m
    f ← get_frame u
    assert_frame_owned_no_message f
    rc ← call (c.zmsg_add m.message f.frame)
    zmq_assert rc (do link_frame u v; on_list v (z.zlist_append u); pure qtrue)

  unfoldable pub pop : ℕ → Cmd (St c z) Value
  unfolding unlink_frame
  pop v = do
    m ← get_message v
    assert_message_owned m
    p ← call (c.zmsg_pop m.message)
    if p == 0 then pure qnil else do u ← from_list v z.zlist_pop; unlink_frame u; pure (or_nil u)

  unfoldable pub print : ℕ → Cmd (St c z) Value
  print v = do m ← get_message v; unless_gone m (do run (c.zmsg_dump m.message); pure qnil)

  unfoldable pub remove : (message frame : ℕ) → Cmd (St c z) Value
  unfolding unlink_frame
  remove v u = do
    m ← get_message v
    assert_message_owned m
    f ← get_frame u
    run (c.zmsg_remove m.message f.frame)
    on_list v (z.zlist_remove u)
    unlink_frame u
    pure qnil

  unfoldable pub pushstr : ℕ → Value → Cmd (St c z) Value
  unfolding alloc_frame link_frame
  pushstr v s = do
    m ← get_message v
    assert_message_owned m
    d ← check_string s
    rc ← call (c.zmsg_pushmem m.message d)
    zmq_assert rc (do
      p ← call (c.zmsg_first m.message)
      u ← alloc_frame p
      link_frame u v
      on_list v (z.zlist_push u)
      pure qtrue)

  unfoldable pub addstr : ℕ → Value → Cmd (St c z) Value
  unfolding alloc_frame link_frame
  addstr v s = do
    m ← get_message v
    assert_message_owned m
    d ← check_string s
    rc ← call (c.zmsg_addmem m.message d)
    zmq_assert rc (do
      p ← call (c.zmsg_last m.message)
      u ← alloc_frame p
      link_frame u v
      on_list v (z.zlist_append u)
      pure qtrue)

  -- The struct of the frame object is left as it is.
  unfoldable pub popstr : ℕ → Cmd (St c z) Value
  unfolding up_to_nul
  popstr v = do
    m ← get_message v
    assert_message_owned m
    s ← call (c.zmsg_popstr m.message)
    elim s [
      | none ↦ pure qnil
      | some d ↦ (do u ← from_list v z.zlist_pop; pure (str (up_to_nul d)))
    ]

  unfoldable pub wrap : (message frame : ℕ) → Cmd (St c z) Value
  unfolding alloc_frame link_frame
  wrap v u = do
    m ← get_message v
    assert_message_owned m
    f ← get_frame u
    assert_frame_owned f
    run (c.zmsg_wrap m.message f.frame)
    link_frame u v
    p ← call (c.zmsg_first m.message)
    q ← call (c.zmsg_next m.message)
    e ← alloc_frame q
    link_frame e v
    on_list v (z.zlist_push e)
    on_list v (z.zlist_push u)
    pure qnil

  unfoldable pub unwrap : ℕ → Cmd (St c z) Value
  unfolding unlink_frame
  unwrap v = do
    m ← get_message v
    assert_message_owned m
    p ← call (c.zmsg_pop m.message)
    u ← (if p == 0 then pure 0 else from_list v z.zlist_pop)
    e ← call (c.zmsg_first m.message)
    n ← query (c.zframe_size e)
    (if n == 0
        then (do
          e' ← call (c.zmsg_pop m.message)
          run (c.zframe_destroy e')
          from_list v z.zlist_pop
          pure tt)
        else pure tt)
    unlink_frame u
    pure (or_nil u)

  unfoldable pub destroy : ℕ → Cmd (St c z) Value
  unfolding free_message
  destroy v = do m ← get_message v; assert_message_owned m; free_message v; pure qnil

  -- `gone?`
  unfoldable pub gone : ℕ → Cmd (St c z) Value
  gone v = do m ← get_message v; pure (bool_value (not m.owned))
