-- ===== src/Frame/Ownership.antt =====
-- Who may use and who destroys the frame behind a frame object.
use mathlib.Core.Option
use rbczmq.Base.{
  ◌^◌, ◌<◌, ◌↔◌, minus_one, ℕ, ◌≡◌, ◌≢◌, refl, ◌∙◌, ap, true, false, Option, none, some, zmq_error,
  ok, raise, fault, Returns, returns, arith, ==_self, ne→==, pos,
}
use rbczmq.Czmq.{Ptr, Bytes, Czmq, Documented, set_frame}
use rbczmq.Czmq.Zlist.{Zlist}
use rbczmq.Frame.{
  free_frame_gc, destroy, size, get_data, strhex, dup, data_equals_p, more_p, eql_p, cmp, print,
  reset, gone, size_order,
}
use rbczmq.Objects.{FrameObj, MessageObj, Value, qnil, qtrue, qfalse, int, St}

module _ {c : Czmq} {z : Zlist} (laws : Documented c) where
  -- The object owns the live frame at `p`.
  pub record Holds (s : St c z) (u : ℕ) (p : Ptr) (d : Bytes) : Type 0 where
    pub object : s.frame_objs u ≡ some (record { frame = p; message = none; owned = true })
    pub live : (laws.view s.world).frames p ≡ some d
    pub ne_null : p ≢ 0

  module _ (s : St c z) (u : ℕ) (p : Ptr) (d : Bytes) (h : Holds s u p d) where
    -- destroy of an object that owns a live frame returns nil and takes just that frame from the
    -- library; then gone? holds, a second destroy raises a ZMQ::Error, and the collector frees the
    -- object without another call of the library.
    pub destroy_once :
        Returns
          (λ r t.
            (r ≡ qnil)
            × (laws.view t.world ≡ set_frame (laws.view s.world) p none)
            × (gone u t ≡ ok qtrue t)
            × (destroy u t ≡ raise zmq_error t)
            × Returns
                (λ r' t'. (t'.world ≡ t.world) × (t'.frame_objs u ≡ none))
                (λ e t'. ⊥)
                (free_frame_gc u t))
          (λ e t. ⊥)
          (destroy u s)
    unfolding destroy free_frame_gc gone
    destroy_once =
        let (w, e, k) = laws.destroy_frame p d s.world h.live in
        rw (h.object) (
          rw (h.object) (
            rw (ne→== h.ne_null, e)
              (returns (
                refl,
                k,
                rw (==_self u),
                rw (==_self u),
                rw (==_self u) (returns (refl, rw (==_self u))),
              ))))

module _ {c : Czmq} {z : Zlist} (s : St c z) (u p v : ℕ) (o : MessageObj z)
    (here : s.frame_objs u ≡ some (record { frame = p; message = some v; owned = false }))
    (message : s.message_objs v ≡ some o) where
  -- Of an object that is linked to a message which is gone, gone? is true, size, data, strhex and
  -- more? return nil, and destroy, dup, data_equals?, reset, print and eql? raise a ZMQ::Error
  -- whatever the other argument. None changes anything.
  pub gone_with_message :
      o.owned ≡ false
      → (gone u s ≡ ok qtrue s)
        × (size u s ≡ ok qnil s)
        × (get_data u s ≡ ok qnil s)
        × (strhex u s ≡ ok qnil s)
        × (more_p u s ≡ ok qnil s)
        × (destroy u s ≡ raise zmq_error s)
        × (dup u s ≡ raise zmq_error s)
        × ((x : Value) → data_equals_p u x s ≡ raise zmq_error s)
        × ((x : Value) → reset u x s ≡ raise zmq_error s)
        × ((x : Value) → print u x s ≡ raise zmq_error s)
        × ((w : ℕ) → eql_p u w s ≡ raise zmq_error s)
  unfolding gone size get_data strhex more_p destroy dup data_equals_p reset print eql_p
  gone_with_message e =
      let m : Option.map (λ (x : MessageObj z). x.owned) (s.message_objs v) ≡ some false =
        rw message (ap some e) in
      (
        rw (here, m),
        rw (here, m),
        rw (here, m),
        rw (here, m),
        rw (here, m),
        rw (here, m),
        rw (here, m),
        λ x. rw (here, m),
        λ x. rw (here, m),
        λ x. rw (here, m),
        λ w. rw (here, m),
      )

  -- destroy of the object of a frame, not NULL, that a message which is not gone holds returns
  -- nil, calls the library not at all and sets the object's pointer to NULL, while gone? stays
  -- false.
  pub destroy_linked :
      o.owned ≡ true
      → p ≢ 0
      → Returns
          (λ r t.
            (r ≡ qnil)
            × (t.world ≡ s.world)
            × (gone u t ≡ ok qfalse t)
            × (t.frame_objs u ≡ some (record { frame = 0; message = some v; owned = false })))
          (λ e t. ⊥)
          (destroy u s)
  unfolding destroy gone
  destroy_linked e n =
      let m : Option.map (λ (x : MessageObj z). x.owned) (s.message_objs v) ≡ some true =
        rw message (ap some e) in
      rw (here, m)
        (rw here (rw (ne→== n) (returns (refl, refl, rw (==_self u, m), rw (==_self u)))))

  -- Of an object linked to a message whose struct the collector has given back, while the object
  -- has not changed, gone?, size, data and destroy read freed memory.
  linked_dangles :
      (t : St c z)
      → t.frame_objs ≡ s.frame_objs
      → t.message_objs v ≡ none
      → (gone u t ≡ fault) × (size u t ≡ fault) × (get_data u t ≡ fault) × (destroy u t ≡ fault)
  unfolding gone size get_data destroy
  linked_dangles t f e = (
    rw (ap (λ (g : ℕ → Option FrameObj). g u) f ∙ here, e),
    rw (ap (λ (g : ℕ → Option FrameObj). g u) f ∙ here, e),
    rw (ap (λ (g : ℕ → Option FrameObj). g u) f ∙ here, e),
    rw (ap (λ (g : ℕ → Option FrameObj). g u) f ∙ here, e),
  )

module _ {c : Czmq} {z : Zlist} (s : St c z) (u p w q : ℕ) where
  -- For two different objects, the first of which owns its frame with a known size while the
  -- second owns none, belongs to no message and keeps a pointer that is not NULL: eql? raises a
  -- ZMQ::Error, and <=> reads the size behind the second pointer all the same, which is undefined
  -- if that frame is gone and else decides the result.
  pub cmp_unchecked :
      u ≢ w
      → s.frame_objs u ≡ some (record { frame = p; message = none; owned = true })
      → s.frame_objs w ≡ some (record { frame = q; message = none; owned = false })
      → q ≢ 0
      → (n : ℕ) → c.zframe_size p s.world ≡ some n
      → (eql_p u w s ≡ raise zmq_error s)
        × (c.zframe_size q s.world ≡ none → cmp u w s ≡ fault)
        × ((k : ℕ) → c.zframe_size q s.world ≡ some k → cmp u w s ≡ ok (int (size_order n k)) s)
  unfolding eql_p cmp
  cmp_unchecked ne a b nq n e = (
    rw (a, b, ne→== nq),
    λ h. rw (ne→== ne, a, b, ne→== nq, e, h),
    λ k h. rw (ne→== ne, a, b, ne→== nq, e, h),
  )

-- For sizes below 2 ^ 63 the result of <=> is 0, 1 or -1 just when the first size is equal to,
-- above or below the second.
size_order_lem :
    (a b : ℕ)
    → a < 2 ^ 63
    → b < 2 ^ 63
    → ((size_order a b ≡ pos 0) ↔ (a ≡ b))
      × ((size_order a b ≡ pos 1) ↔ (b < a))
      × ((size_order a b ≡ minus_one) ↔ (a < b))
unfolding size_order
size_order_lem a b h k = (ground arith, ground arith, ground arith)
