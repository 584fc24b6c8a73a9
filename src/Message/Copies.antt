-- ===== src/Message/Copies.antt =====
-- The methods of ext/rbczmq/message.c that copy, encode, decode and compare whole messages.
use rbczmq.Base.{
  length, ℕ, zero, suc, Bool, true, not, ◌||◌, ◌&&◌, some, [], ◌∷◌, Cmd, pure, ◌>>=◌, ◌>>◌, ◌==◌,
  if◌then◌else◌,
}
use rbczmq.Czmq.{Bytes, Czmq}
use rbczmq.Czmq.Zlist.{Zlist}
use rbczmq.Frame.{check_string}
use rbczmq.Message.{unless_gone, alloc_message}
use rbczmq.Objects.{
  Value, qnil, qtrue, qfalse, str, St, bool_value, call, query, get_message, assert_message_owned,
}

-- `strncmp` of the two buffers over `n` bytes is 0: it stops at a common 0 byte.
unfoldable pub strncmp_eq : ℕ → Bytes → Bytes → Bool
strncmp_eq zero xs ys = true
strncmp_eq (suc n) [] ys = true
strncmp_eq (suc n) (x ∷ xs) [] = true
strncmp_eq (suc n) (x ∷ xs) (y ∷ ys) = (x == y) && ((x == 0) || strncmp_eq n xs ys)

module _ {c : Czmq} {z : Zlist} where
  unfoldable pub dup : (fuel : ℕ) → ℕ → Cmd (St c z) Value
  dup fuel v = do
    m ← get_message v
    assert_message_owned m
    d ← call (c.zmsg_dup m.message)
    alloc_message fuel d

  unfoldable pub encode : ℕ → Cmd (St c z) Value
  encode v = do
    m ← get_message v
    unless_gone m (do d ← query (c.zmsg_encode m.message); pure (str d))

  unfoldable pub s_decode : (fuel : ℕ) → Value → Cmd (St c z) Value
  s_decode fuel buffer = do
    d ← check_string buffer
    m ← call (λ w. some (c.zmsg_decode d w))
    if m == 0 then pure qnil else alloc_message fuel m

  -- `eql?`
  unfoldable pub eql_p : ℕ → ℕ → Cmd (St c z) Value
  unfolding strncmp_eq
  eql_p v u = do
    m ← get_message v
    o ← get_message u
    assert_message_owned m
    assert_message_owned o
    a ← query (c.zmsg_size m.message)
    b ← query (c.zmsg_size o.message)
    if not (a == b) then pure qfalse else do
      a' ← query (c.zmsg_content_size m.message)
      b' ← query (c.zmsg_content_size o.message)
      if not (a' == b') then pure qfalse else do
        d ← query (c.zmsg_encode m.message)
        e ← query (c.zmsg_encode o.message)
        pure (if not (length d == length e) then qfalse else bool_value (strncmp_eq (length d) d e))

  -- `==`
  unfoldable pub equals : ℕ → ℕ → Cmd (St c z) Value
  unfolding eql_p
  equals v u = if v == u then pure qtrue else eql_p v u
