-- ===== src/Transfer/Sending.antt =====
-- `send_frame` and `send_message` of ext/rbczmq/socket.c: what is sent is the library's, and no
-- object owns it any more.
use rbczmq.Base.{
  ℕ, ◌≡◌, refl, ◌⊎◌, inl, inr, true, false, none, some, List, ℤ, pos, minus_one, zmq_error, Exc, ok,
  raise, Returns, returns, raises, Bool-cases, update, ◌==◌, ==_self, if◌then◌else◌,
}
use rbczmq.Context.Closing.{Member, live}
use rbczmq.Czmq.{Ptr, Bytes, Czmq, Documented, Store, set_frame, drop_frames}
use rbczmq.Czmq.Zlist.{Zlist, ListLaws}
use rbczmq.Frame
use rbczmq.Message
use rbczmq.Message.Sync.{Cell, frames, Synced, Owns}
use rbczmq.Net.Failing.{Returns-failed}
use rbczmq.Net.{Zsocket, Net, is_attached, call_failed}
use rbczmq.Objects.{FrameObj, Value, qnil, qtrue, qfalse, int}
use rbczmq.Transfer.{Wire, Peer, guarded, is_reuse, send_frame, send_message, on_net}

-- The store of the library without a message and its frames.
abbrev pub without : Store → Ptr → List Ptr → Store
without t m ps = record { frames = drop_frames t.frames ps; msgs = update t.msgs m none }

-- The documented behaviour of sending: what is sent is destroyed, a frame only if it is not to be
-- reused, and what is not sent stays.
pub record Sends {c : Czmq} {n : Zsocket} (lib : Wire c n) (laws : Documented c) : Type 0 where
  pub frame :
      (p q : Ptr) (d : Bytes) (i : ℤ) (w : c.World) (v : n.World)
      → (laws.view w).frames p ≡ some d
      → ((w' : c.World) × (v' : n.World) × (lib.zframe_send p q i w v ≡ some (pos 0, w', v'))
          × (laws.view w' ≡ (if is_reuse i then laws.view w else set_frame (laws.view w) p none)))
        ⊎ ((w' : c.World) × (v' : n.World) × (lib.zframe_send p q i w v ≡ some (minus_one, w', v'))
            × (laws.view w' ≡ laws.view w))
  pub message :
      (m q : Ptr) (ps : List Ptr) (w : c.World) (v : n.World)
      → (laws.view w).msgs m ≡ some ps
      → ((rc : ℤ) × (w' : c.World) × (v' : n.World) × (lib.zmsg_send m q w v ≡ some (rc, w', v'))
          × ((laws.view w' ≡ without (laws.view w) m ps) ⊎ (laws.view w' ≡ laws.view w)))

-- A socket that may send and receive: not closed, from its own thread, and bound or connected.
pub record Usable {n : Zsocket} {z : Zlist} (s : Net n z) (u v : ℕ) (m : Member) : Type 0 where
  pub here : s.socks u ≡ some (live v m)
  pub own : m.thread ≡ s.thread
  pub attached : is_attached m.state ≡ true

module _ {c : Czmq} {n : Zsocket} {z : Zlist} where
  pub guarded_lem :
      (s : Peer c n z) (u v : ℕ) (m : Member) → Usable s.net u v m → guarded u s ≡ ok (live v m) s
  unfolding guarded
  guarded_lem s u v m k =
      let same : (m.thread == s.net.thread) ≡ true = rw k.own (==_self s.net.thread) in
      rw k.here (rw (k.attached, same) refl)

  Returns-peer_failed :
      {P : Value → Peer c n z → Type 0} {Q : Exc → Peer c n z → Type 0} (s : Peer c n z)
      → P qfalse s
      → ((e : Exc) → Q e s)
      → Returns P Q (on_net call_failed s)
  Returns-peer_failed s p q =
      Returns-failed (λ r. on_net (λ _. r) s) s.net (returns p) (λ e. raises (q e))

module _ {c : Czmq} {n : Zsocket} {z : Zlist} (laws : Documented c) (lists : ListLaws z)
    (lib : Wire c n) (sends : Sends lib laws) (s : Peer c n z) (u k : ℕ) (m : Member)
    (usable : Usable s.net u k m) where
  -- The frame object that a frame which has been sent leaves.
  abbrev pub sent : Ptr → FrameObj
  sent p = record { frame = p; message = none; owned = false }

  -- On a socket that is open, of the thread that runs, and bound or connected, send_frame of an
  -- object that owns a live frame, with an integer for the flags, is defined. It returns false or
  -- raises an exception and the object owns the live frame; or it returns true, and the object
  -- owns the live frame if the flags have ZMQ_FRAME_REUSE, and else the frame is gone from the
  -- library, the object owns nothing, gone? is true and destroy raises a ZMQ::Error.
  pub send_frame_lem :
      (v : ℕ) (p : Ptr) (d : Bytes) (i : ℤ)
      → Owns laws lists s.objs v p d
      → Returns
          (λ r t.
            ((r ≡ qfalse) × Owns laws lists t.objs v p d)
            ⊎ ((r ≡ qtrue)
                × (((is_reuse i ≡ true) × Owns laws lists t.objs v p d)
                    ⊎ ((is_reuse i ≡ false)
                        × ((laws.view t.objs.world).frames p ≡ none)
                        × (t.objs.frame_objs v ≡ some (sent p))
                        × (Frame.gone v t.objs ≡ ok qtrue t.objs)
                        × (Frame.destroy v t.objs ≡ raise zmq_error t.objs)))))
          (λ e t. Owns laws lists t.objs v p d)
          (send_frame lib u v (int i) s)
  unfolding send_frame Frame.gone Frame.destroy
  send_frame_lem v p d i o = rw (guarded_lem s u k m usable) (
      rw o.object (elim (sends.frame p m.socket d i s.objs.world s.net.world o.live) [
        | inl (w, x, e, same) ↦ rw e (elim (Bool-cases (is_reuse i)) [
          | inl kept ↦ rw kept (
              returns (
                inr
                  (refl, inl (refl, record { object = o.object; live = rw (same, kept) o.live }))))
          | inr used ↦ rw used (
              rw o.object (
                returns (
                  inr (
                    refl,
                    inr (
                      refl,
                      rw (same, used, ==_self p),
                      rw (==_self v),
                      rw (==_self v),
                      rw (==_self v),
                    ),
                  ))))
        ])
        | inr (w, x, e, same) ↦ rw e (
            Returns-peer_failed _ (inl (refl, record { object = o.object; live = rw same o.live }))
              (λ _. record { object = o.object; live = rw same o.live }))
      ]))

  -- On a socket that is open, of the thread that runs, and bound or connected, send_message of a
  -- message in step returns nil, after which gone? of the message is true, no frame object has
  -- changed, and the library has neither the message nor its frames, or has kept all of them. It
  -- raises nothing.
  pub send_message_lem :
      (v : ℕ) (xs : List Cell) (y : Synced laws lists s.objs v xs)
      → Returns
          (λ r t.
            (r ≡ qnil)
            × (Message.gone v t.objs ≡ ok qtrue t.objs)
            × (t.objs.frame_objs ≡ s.objs.frame_objs)
            × ((laws.view t.objs.world ≡ without (laws.view s.objs.world) y.message (frames xs))
                ⊎ (laws.view t.objs.world ≡ laws.view s.objs.world)))
          (λ e t. ⊥)
          (send_message lib u v s)
  unfolding send_message Message.gone
  send_message_lem v xs y =
      let (rc, w, x, e, gone) =
        sends.message y.message m.socket (frames xs) s.objs.world s.net.world y.native in
      rw (guarded_lem s u k m usable)
        (rw y.object (rw e (rw y.object (returns (refl, rw (==_self v), refl, gone)))))
