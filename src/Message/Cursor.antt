-- ===== src/Message/Cursor.antt =====
-- The methods of ext/rbczmq/message.c that walk through the list of a message, with its cursor.
use rbczmq.Base.{
  ℕ, zero, suc, none, some, List, [], ◌∷◌, ◌++◌, fault, Cmd, pure, ◌>>=◌, ◌>>◌, ◌==◌, if◌then◌else◌,
}
use rbczmq.Czmq.{Czmq}
use rbczmq.Czmq.Zlist.{Zlist}
use rbczmq.Message.{from_list, unless_gone}
use rbczmq.Objects.{Value, arr, St, or_nil, get_message, deref_message, assert_message_owned}

module _ {c : Czmq} {z : Zlist} where
  unfoldable pub first : ℕ → Cmd (St c z) Value
  first v = do m ← get_message v; unless_gone m (do u ← from_list v z.zlist_first; pure (or_nil u))

  unfoldable pub next : ℕ → Cmd (St c z) Value
  next v = do m ← get_message v; unless_gone m (do u ← from_list v z.zlist_next; pure (or_nil u))

  unfoldable pub last : ℕ → Cmd (St c z) Value
  last v = do m ← get_message v; unless_gone m (do u ← from_list v z.zlist_last; pure (or_nil u))

  -- the loop of `to_a`, which appends to the array, and of `rb_czmq_mark_message`, which marks
  unfoldable pub collect : (fuel message : ℕ) → List ℕ → ℕ → Cmd (St c z) (List ℕ)
  collect zero v ary u = λ _. fault
  collect (suc k) v ary u =
      if u == 0
      then pure ary
      else do rest ← from_list v z.zlist_next; collect k v (ary ++ u ∷ []) rest

  unfoldable pub to_a : (fuel : ℕ) → ℕ → Cmd (St c z) Value
  unfolding collect
  to_a fuel v = do
    m ← get_message v
    assert_message_owned m
    u ← from_list v z.zlist_first
    ary ← collect fuel v [] u
    pure (arr ary)

  -- `rb_czmq_mark_message`: the references that the collector marks for a message
  unfoldable pub mark : (fuel : ℕ) → ℕ → Cmd (St c z) (List ℕ)
  unfolding collect
  mark fuel v = do
    m ← deref_message v
    elim m.frames [
      | none ↦ pure []
      | some _ ↦ (do u ← from_list v z.zlist_first; collect fuel v [] u)
    ]
