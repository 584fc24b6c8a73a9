-- ===== src/Message/Gone.antt =====
-- The methods of ext/rbczmq/message.c on a message that is gone, and on frames that they refuse.
use rbczmq.Base.{
  inl, inr, Bool-cases, Option-cases, ℕ, ◌≡◌, true, false, some, type_error, zmq_error, ok, raise,
}
use rbczmq.Czmq.{Czmq}
use rbczmq.Czmq.Zlist.{Zlist}
use rbczmq.Message.{
  size, content_size, print, push, add, pop, remove, pushstr, addstr, popstr, wrap, unwrap, destroy,
  gone,
}
use rbczmq.Message.Copies.{encode, dup, eql_p}
use rbczmq.Message.Cursor.{first, next, last, to_a}
use rbczmq.Objects.{FrameObj, MessageObj, Value, qnil, qtrue, St}

module _ {c : Czmq} {z : Zlist} (s : St c z) (v : ℕ) (o : MessageObj z)
    (here : s.message_objs v ≡ some o) where
  -- On a message that is gone, gone? is true, size, content_size, print, first, next, last and
  -- encode return nil, and none changes anything.
  pub gone_reads :
      o.owned ≡ false
      → (gone v s ≡ ok qtrue s)
        × (size v s ≡ ok qnil s)
        × (content_size v s ≡ ok qnil s)
        × (print v s ≡ ok qnil s)
        × (first v s ≡ ok qnil s)
        × (next v s ≡ ok qnil s)
        × (last v s ≡ ok qnil s)
        × (encode v s ≡ ok qnil s)
  unfolding gone size content_size print first next last encode
  gone_reads e = (
    rw (here, e),
    rw (here, e),
    rw (here, e),
    rw (here, e),
    rw (here, e),
    rw (here, e),
    rw (here, e),
    rw (here, e),
  )

  eql_p-gone : o.owned ≡ false → (u : ℕ) → eql_p u v s ≡ raise type_error s
  unfolding eql_p
  eql_p-gone e u = elim (Option-cases (s.message_objs u)) [
    | inl a ↦ rw a
    | inr (m, a) ↦ rw a (rw here (elim (Bool-cases m.owned) [ inl b ↦ rw (b, e) | inr b ↦ rw b ]))
  ]

  -- On a message that is gone, push, add, pop, remove, pushstr, addstr, popstr, wrap, unwrap, dup,
  -- destroy, to_a and eql? against it raise a TypeError whatever the other arguments, and change
  -- nothing.
  pub gone_refuses :
      o.owned ≡ false
      → ((u : ℕ) → push v u s ≡ raise type_error s)
        × ((u : ℕ) → add v u s ≡ raise type_error s)
        × (pop v s ≡ raise type_error s)
        × ((u : ℕ) → remove v u s ≡ raise type_error s)
        × ((x : Value) → pushstr v x s ≡ raise type_error s)
        × ((x : Value) → addstr v x s ≡ raise type_error s)
        × (popstr v s ≡ raise type_error s)
        × ((u : ℕ) → wrap v u s ≡ raise type_error s)
        × (unwrap v s ≡ raise type_error s)
        × ((k : ℕ) → dup k v s ≡ raise type_error s)
        × (destroy v s ≡ raise type_error s)
        × ((k : ℕ) → to_a k v s ≡ raise type_error s)
        × ((u : ℕ) → eql_p u v s ≡ raise type_error s)
  unfolding push add pop remove pushstr addstr popstr wrap unwrap dup destroy to_a
  gone_refuses e = (
    λ u. rw (here, e),
    λ u. rw (here, e),
    rw (here, e),
    λ u. rw (here, e),
    λ x. rw (here, e),
    λ x. rw (here, e),
    rw (here, e),
    λ u. rw (here, e),
    rw (here, e),
    λ k. rw (here, e),
    rw (here, e),
    λ k. rw (here, e),
    eql_p-gone e,
  )

  -- push and add on a message that is not gone raise a ZMQ::Error for an object that does not own
  -- its frame, and change nothing.
  push_refuses :
      (u : ℕ) (f : FrameObj)
      → o.owned ≡ true
      → s.frame_objs u ≡ some f
      → f.owned ≡ false
      → (push v u s ≡ raise zmq_error s) × (add v u s ≡ raise zmq_error s)
  unfolding push add
  push_refuses u f e g d = (rw (here, e, g, d), rw (here, e, g, d))
