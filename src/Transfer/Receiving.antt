-- ===== src/Transfer/Receiving.antt =====
-- `recv_frame`, `recv_frame_nonblock` and `recv_message` of ext/rbczmq/socket.c, and what comes
-- through a pair of sockets.
use rbczmq.Base.{
  ℕ, ◌<◌, ◌≡◌, ◌≢◌, refl, ap, ◌∙◌, ◌⊎◌, inl, inr, Option, some, Bool, true, List, ◌++◌, ◌+◌, [],
  ◌∷◌, map, length, ℤ, Exc, Distinct, NonNull, Run, Returns, returns, raises, Returns-mono, ==_self,
  ne→==, ◌>>◌, arith,
}
use rbczmq.Context.Closing.{Member}
use rbczmq.Czmq.{Ptr, Bytes, Czmq, Documented, set_frame, contents}
use rbczmq.Czmq.Zlist.{Zlist, ListLaws}
use rbczmq.Message.Alloc.{
  Fresh, numbered, pair_up, contents-frames, length-datas, length-bytes, bytes-numbered,
  alloc_message_lem,
}
use rbczmq.Message.Sync.{Cell, frames, bytes, Synced, Owns}
use rbczmq.Net.{Zsocket, Net}
use rbczmq.Objects.{Value, qnil, obj, St}
use rbczmq.Transfer.{
  Wire, Peer, of_objs, recv_frame, recv_frame_nonblock, send_message, recv_message,
}
use rbczmq.Transfer.Sending.{Usable, guarded_lem, without}

-- What a call that receives a frame gives: a new frame, or `NULL`.
abbrev pub NewFrame :
    {c : Czmq} (n : Zsocket) → Documented c → c.World → Option (Ptr × c.World × n.World) → Type 0
NewFrame {c} n laws w r =
    ((p : Ptr) × (d : Bytes) × (w' : c.World) × (v' : n.World) × (r ≡ some (p, w', v'))
      × (p ≢ 0)
      × (laws.view w' ≡ set_frame (laws.view w) p (some d)))
    ⊎ ((w' : c.World) × (v' : n.World) × (r ≡ some (0, w', v')) × (laws.view w' ≡ laws.view w))

pub record Receives {c : Czmq} {n : Zsocket} (lib : Wire c n) (laws : Documented c) : Type 0 where
  pub frame : (q : Ptr) (w : c.World) (v : n.World) → NewFrame n laws w (lib.zframe_recv q w v)
  pub frame_nowait :
      (q : Ptr) (w : c.World) (v : n.World) → NewFrame n laws w (lib.zframe_recv_nowait q w v)

-- A message of the library with these data, as it comes out of a socket.
abbrev pub Arrived : {c : Czmq} → Documented c → c.World → Ptr → List Bytes → Type 0
Arrived laws w m ds =
    (m ≢ 0)
    × ((qs : List Ptr) × ((laws.view w).msgs m ≡ some qs)
        × Distinct qs
        × NonNull qs
        × (contents (laws.view w) qs ≡ map some ds))

-- The documented behaviour of a socket `p` that sends to a socket `q`: while the one is ready, so
-- that sending does not fail, a message with a frame at least that is sent through it waits at the
-- other, in order, and is received as a message with the same data.
pub record Pipe {c : Czmq} {n : Zsocket} (lib : Wire c n) (laws : Documented c) (p q : Ptr)
    : Type 0 where
  pub ready : n.World → Bool
  pub waiting : n.World → List (List Bytes)
  pub put :
      (m : Ptr) (ps : List Ptr) (ds : List Bytes) (w : c.World) (v : n.World)
      → ready v ≡ true
      → ps ≢ []
      → (laws.view w).msgs m ≡ some ps
      → contents (laws.view w) ps ≡ map some ds
      → (rc : ℤ) × (w' : c.World) × (v' : n.World) × (lib.zmsg_send m p w v ≡ some (rc, w', v'))
        × (laws.view w' ≡ without (laws.view w) m ps)
        × (waiting v' ≡ waiting v ++ ds ∷ [])
  pub take :
      (ds : List Bytes) (rest : List (List Bytes)) (w : c.World) (v : n.World)
      → waiting v ≡ ds ∷ rest
      → (m : Ptr) × (w' : c.World) × (v' : n.World) × (lib.zmsg_recv q w v ≡ some (m, w', v'))
        × Arrived laws w' m ds
        × (waiting v' ≡ rest)

module _ {c : Czmq} {n : Zsocket} {z : Zlist} {P : Value → St c z → Type 0}
    {Q : Exc → St c z → Type 0} where
  Returns-of_objs :
      (s : Peer c n z) {r : Run (St c z) Value}
      → Returns P Q r
      → Returns (λ a t. P a t.objs × (t.net ≡ s.net)) (λ e t. Q e t.objs) (of_objs r s)
  Returns-of_objs s (returns p) = returns (p, refl)
  Returns-of_objs s (raises q) = raises q

some_frames : (xs : List Cell) → xs ≢ [] → frames xs ≢ []
some_frames [] h = λ e. h refl
some_frames (x ∷ xs) h = λ e. cc

module _ {c : Czmq} {n : Zsocket} {z : Zlist} (laws : Documented c) (lists : ListLaws z)
    (lib : Wire c n) where
  -- What receiving a frame may come to.
  abbrev pub Received : Peer c n z → Value → Peer c n z → Type 0
  Received s r t =
      ((p : Ptr) × (d : Bytes) × (r ≡ obj s.objs.next) × Owns laws lists t.objs s.objs.next p d)
      ⊎ ((r ≡ qnil)
          × (t.objs.frame_objs ≡ s.objs.frame_objs)
          × (laws.view t.objs.world ≡ laws.view s.objs.world))

  module _ (receives : Receives lib laws) (s : Peer c n z) (u k : ℕ) (m : Member)
      (usable : Usable s.net u k m) where
    -- On a socket that is open, of the thread that runs, and bound or connected, recv_frame and
    -- recv_frame_nonblock return an object under the next reference that owns a live frame of the
    -- library, or return nil with all frames and messages as they were. They raise nothing.
    pub recv_frame_lem :
        Returns (Received s) (λ e t. ⊥) (recv_frame lib u s)
        × Returns (Received s) (λ e t. ⊥) (recv_frame_nonblock lib u s)
    unfolding recv_frame recv_frame_nonblock
    recv_frame_lem = (
      rw (guarded_lem s u k m usable) (elim (receives.frame m.socket s.objs.world s.net.world) [
        | inl (p, d, w, v, e, nz, new) ↦ rw e (
            rw (ne→== nz) (
              returns (
                inl (
                  p,
                  d,
                  refl,
                  record { object = rw (==_self s.objs.next); live = rw (new, ==_self p) },
                ))))
        | inr (w, v, e, same) ↦ rw e (returns (inr (refl, refl, same)))
      ]),
      rw (guarded_lem s u k m usable)
          (elim (receives.frame_nowait m.socket s.objs.world s.net.world) [
            | inl (p, d, w, v, e, nz, new) ↦ rw e (
                rw (ne→== nz) (
                  returns (
                    inl (
                      p,
                      d,
                      refl,
                      record { object = rw (==_self s.objs.next); live = rw (new, ==_self p) },
                    ))))
            | inr (w, v, e, same) ↦ rw e (returns (inr (refl, refl, same)))
          ]),
    )

  -- receives
  recv_message_lem :
      (p : Ptr) (s : Peer c n z) (u k : ℕ) (m : Member)
      → Usable s.net u k m
      → (pipe : Pipe lib laws p m.socket) (ds : List Bytes) (rest : List (List Bytes)) (f : ℕ)
      → pipe.waiting s.net.world ≡ ds ∷ rest
      → Fresh laws lists s.objs
      → length ds < f
      → Returns
          (λ r t.
            ((r ≡ obj s.objs.next)
              × ((ys : List Cell) × Synced laws lists t.objs s.objs.next ys × (bytes ys ≡ ds)))
            × (pipe.waiting t.net.world ≡ rest))
          (λ e t. ⊥)
          (recv_message lib f u s)
  unfolding recv_message
  recv_message_lem p s u k m usable pipe ds rest f has fresh enough =
      let (a, w, v, e, (nz, (qs, n₁, d, nn, same)), left) =
        pipe.take ds rest s.objs.world s.net.world has in
      let (ps, f₁, l, g) = pair_up (laws.view w).frames qs ds same in
      let len : length ps < f = omega (arith, length-datas ps, ap length g, enough) in
      rw (guarded_lem s u k m usable) (
        rw e (
          rw (ne→== nz) (
            Returns-mono
              (Returns-of_objs _ (
                alloc_message_lem laws lists f (record s.objs { world = w }) ps a nz (rw f₁ n₁) l
                  (rw f₁ d) (rw f₁ nn) fresh len))
              (λ r t (y, same_net). (
                (
                  y.0,
                  (numbered (s.objs.next + 1) ps, y.1, bytes-numbered (s.objs.next + 1) ps ∙ g),
                ),
                ap (λ (h : Net n z). pipe.waiting h.world) same_net ∙ left,
              ))
              (λ x t q. q))))

  -- Where a socket passes messages on to another, both open, of the thread that runs, and bound or
  -- connected, the one is ready, so that sending does not fail, nothing waits between them, the
  -- message is in step and has a frame at least, no reference from the next one on is in use, and
  -- there is more fuel than frames: send_message on the one and then recv_message on the other
  -- returns a new message in step whose frames hold the same data in the same order, and nothing
  -- waits any more. It raises nothing.
  pub transfer_lem :
      (s : Peer c n z) (u k : ℕ) (m : Member) (u' k' : ℕ) (m' : Member)
      → Usable s.net u k m
      → Usable s.net u' k' m'
      → (pipe : Pipe lib laws m.socket m'.socket) (v : ℕ) (xs : List Cell) (f : ℕ)
      → pipe.waiting s.net.world ≡ []
      → pipe.ready s.net.world ≡ true
      → xs ≢ []
      → Synced laws lists s.objs v xs
      → Fresh laws lists s.objs
      → length xs < f
      → Returns
          (λ r t.
            (r ≡ obj s.objs.next)
            × ((ys : List Cell) × Synced laws lists t.objs s.objs.next ys × (bytes ys ≡ bytes xs))
            × (pipe.waiting t.net.world ≡ []))
          (λ e t. ⊥)
          ((send_message lib u v >> recv_message lib f u') s)
  unfolding send_message
  transfer_lem s u k m u' k' m' usable usable' pipe v xs f none_waits ready some_frame y fresh
        enough =
      let (rc, w, x, e, drop, now) =
        pipe.put y.message (frames xs) (bytes xs) s.objs.world s.net.world ready
          (some_frames xs some_frame) y.native (contents-frames _ _ v xs y.linked) in
      let waits : pipe.waiting x ≡ bytes xs ∷ [] = now ∙ ap (λ l. l ++ bytes xs ∷ []) none_waits in
      let len : length (bytes xs) < f = omega (arith, length-bytes xs, enough) in
      rw (guarded_lem s u k m usable) (
        rw y.object (
          rw e (
            rw y.object (
              Returns-mono
                (recv_message_lem m.socket _ u' k' m'
                  (record { here = usable'.here; own = usable'.own; attached = usable'.attached })
                  pipe (bytes xs) [] f waits fresh len)
                (λ r t (a, b). (a.0, a.1, b)) (λ x t q. q)))))
