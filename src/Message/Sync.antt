-- ===== src/Message/Sync.antt =====
-- The state of a message that is not gone: the Ruby objects in its list and the frames that
-- libczmq holds agree, in order.
use rbczmq.Base.{
  inl, inr, ℕ, ◌≡◌, ◌≢◌, refl, sym, subst, ◌∙◌, ap, true, false, Option, none, some, List, [], ◌∷◌,
  ◌++◌, Exc, Returns, returns, raises, Table, update, NotIn, arith, ==_self,
}
use rbczmq.Czmq.{Store, Ptr, Bytes, Czmq, Documented}
use rbczmq.Czmq.Errors.{errno_cases}
use rbczmq.Czmq.Zlist.{Zlist, ListLaws}
use rbczmq.Objects.{FrameObj, Value, qfalse, St, call_failed}

-- A frame of a message: the reference of its object, its address and its data.
pub record Cell : Type 0 where
  pub ref : ℕ
  pub frame : Ptr
  pub bytes : Bytes

abbrev pub refs : List Cell → List ℕ
refs [] = []
refs (x ∷ xs) = x.ref ∷ refs xs

abbrev pub frames : List Cell → List Ptr
frames [] = []
frames (x ∷ xs) = x.frame ∷ frames xs

abbrev pub bytes : List Cell → List Bytes
bytes [] = []
bytes (x ∷ xs) = x.bytes ∷ bytes xs

-- A frame object that message `v` owns.
abbrev pub linked : Ptr → ℕ → FrameObj
linked p v = record { frame = p; message = some v; owned = false }

-- A frame object that owns its frame.
abbrev pub free : Ptr → FrameObj
free p = record { frame = p; message = none; owned = true }

-- The live frames, of a store that is known by an equation.
pub frames_eq : {s t : Store} → s ≡ t → s.frames ≡ t.frames
frames_eq = ap (λ (x : Store). x.frames)

-- The objects of the cells are linked to `v`, their frames are live and hold the cells' data, and
-- no object and no frame stands twice.
abbrev pub Linked : Table FrameObj → Table Bytes → ℕ → List Cell → Type 0
Linked objs live v [] = Unit
Linked objs live v (x ∷ xs) =
    (objs x.ref ≡ some (linked x.frame v))
    × (live x.frame ≡ some x.bytes)
    × NotIn x.ref (refs xs)
    × NotIn x.frame (frames xs)
    × Linked objs live v xs

pub refs-append : (xs ys : List Cell) → refs (xs ++ ys) ≡ refs xs ++ refs ys
refs-append [] ys = refl
refs-append (x ∷ xs) ys = ap (◌∷◌ x.ref) (refs-append xs ys)

pub frames-append : (xs ys : List Cell) → frames (xs ++ ys) ≡ frames xs ++ frames ys
frames-append [] ys = refl
frames-append (x ∷ xs) ys = ap (◌∷◌ x.frame) (frames-append xs ys)

NotIn-refs_append :
    (u : ℕ) (xs : List Cell) (y : Cell)
    → NotIn u (refs xs)
    → u ≢ y.ref
    → NotIn u (refs (xs ++ y ∷ []))
NotIn-refs_append u [] y h ne = (ne, tt)
NotIn-refs_append u (x ∷ xs) y h ne = (h.0, NotIn-refs_append u xs y h.1 ne)

NotIn-frames_append :
    (p : Ptr) (xs : List Cell) (y : Cell)
    → NotIn p (frames xs)
    → p ≢ y.frame
    → NotIn p (frames (xs ++ y ∷ []))
NotIn-frames_append u [] y h ne = (ne, tt)
NotIn-frames_append u (x ∷ xs) y h ne = (h.0, NotIn-frames_append u xs y h.1 ne)

module _ (v : ℕ) (objs : Table FrameObj) (live : Table Bytes) where
  pub Linked-put :
      (u : ℕ) (o : Option FrameObj) (xs : List Cell)
      → NotIn u (refs xs)
      → Linked objs live v xs
      → Linked (update objs u o) live v xs
  Linked-put u o [] h l = tt
  Linked-put u o (x ∷ xs) h l = (ground (arith, h.0, l.0), l.1, l.2, l.3, Linked-put u o xs h.1 l.4)

  pub Linked-set :
      (p : Ptr) (d : Option Bytes) (xs : List Cell)
      → NotIn p (frames xs)
      → Linked objs live v xs
      → Linked objs (update live p d) v xs
  Linked-set p d [] h l = tt
  Linked-set p d (x ∷ xs) h l = (l.0, ground (arith, h.0, l.1), l.2, l.3, Linked-set p d xs h.1 l.4)

  pub Linked-live :
      {live' : Table Bytes} (xs : List Cell)
      → live' ≡ live
      → Linked objs live v xs
      → Linked objs live' v xs
  Linked-live xs e l = subst (λ t. Linked objs t v xs) (sym e) l

  -- An object that is not linked to `v` is not in the list, nor is a frame that is not live.
  pub NotIn-refs :
      (u : ℕ) (xs : List Cell)
      → ((p : Ptr) → objs u ≢ some (linked p v))
      → Linked objs live v xs
      → NotIn u (refs xs)
  NotIn-refs u [] h l = tt
  NotIn-refs u (x ∷ xs) h l = (λ e. h x.frame (ap objs e ∙ l.0), NotIn-refs u xs h l.4)

  pub NotIn-frames :
      (p : Ptr) (xs : List Cell) → live p ≡ none → Linked objs live v xs → NotIn p (frames xs)
  NotIn-frames p [] h l = tt
  NotIn-frames p (x ∷ xs) h l = (λ e. cc (sym h ∙ (ap live e ∙ l.1)), NotIn-frames p xs h l.4)

  pub Linked-append :
      (xs : List Cell) (y : Cell)
      → NotIn y.ref (refs xs)
      → NotIn y.frame (frames xs)
      → objs y.ref ≡ some (linked y.frame v)
      → live y.frame ≡ some y.bytes
      → Linked objs live v xs
      → Linked objs live v (xs ++ y ∷ [])
  Linked-append [] y h k o d l = (o, d, tt, tt, tt)
  Linked-append (x ∷ xs) y h k o d l = (
    l.0,
    l.1,
    NotIn-refs_append x.ref xs y l.2 (λ e. h.0 (sym e)),
    NotIn-frames_append x.frame xs y l.3 (λ e. k.0 (sym e)),
    Linked-append xs y h.1 k.1 o d l.4,
  )

module _ {c : Czmq} {z : Zlist} (laws : Documented c) (lists : ListLaws z) where
  -- Message `v` is not gone and has the frames `xs`.
  pub record Synced (s : St c z) (v : ℕ) (xs : List Cell) : Type 0 where
    pub message : Ptr
    pub list : z.L
    pub object :
        s.message_objs v ≡ some (record { message = message; owned = true; frames = some list })
    pub items : lists.items list ≡ refs xs
    pub native : (laws.view s.world).msgs message ≡ some (frames xs)
    pub linked : Linked s.frame_objs (laws.view s.world).frames v xs

  -- Object `u` owns the frame at `p`, which holds `d`.
  pub record Owns (s : St c z) (u : ℕ) (p : Ptr) (d : Bytes) : Type 0 where
    pub object : s.frame_objs u ≡ some (free p)
    pub live : (laws.view s.world).frames p ≡ some d

  -- The list of a message in step is written, with the same items.
  abbrev pub Synced-list :
      (s : St c z) (v : ℕ) (xs : List Cell) (y : Synced s v xs) (l : z.L)
      → lists.items l ≡ refs xs
      → Synced
          (record s {
            message_objs =
                update s.message_objs v
                  (some (record { message = y.message; owned = true; frames = some l }));
          })
          v
          xs
  Synced-list s v xs y l e = record {
    message = y.message;
    list = l;
    object = rw (==_self v) refl;
    items = e;
    native = y.native;
    linked = y.linked;
  }

  -- What the library does without an effect on frames and messages changes neither.
  pub Synced-world :
      (s : St c z) (w : c.World) {v : ℕ} {xs : List Cell}
      → laws.view w ≡ laws.view s.world
      → Synced s v xs
      → Synced (record s { world = w }) v xs
  Synced-world s w e y = record {
    message = y.message;
    list = y.list;
    object = y.object;
    items = y.items;
    native = rw e y.native;
    linked = rw e y.linked;
  }

  pub Owns-world :
      (s : St c z) (w : c.World) {u : ℕ} {p : Ptr} {d : Bytes}
      → laws.view w ≡ laws.view s.world
      → Owns s u p d
      → Owns (record s { world = w }) u p d
  Owns-world s w e y = record { object = y.object; live = rw e y.live }

module _ {c : Czmq} {z : Zlist} {P : Value → St c z → Type 0} {Q : Exc → St c z → Type 0} where
  -- A failed call raises an exception or returns false.
  pub Returns-call_failed :
      (s : St c z) → P qfalse s → ((e : Exc) → Q e s) → Returns P Q (call_failed s)
  Returns-call_failed s p q = elim (errno_cases (c.zmq_errno s.world)) [
    | inl (inl e) ↦ rw (e, call_failed) (raises (q _))
    | inl (inr (inl e)) ↦ rw (e, call_failed) (raises (q _))
    | inl (inr (inr (inl e))) ↦ rw (e, call_failed) (raises (q _))
    | inl (inr (inr (inr e))) ↦ rw (e, call_failed) (raises (q _))
    | inr (inl e) ↦ rw (e, call_failed) (returns p)
    | inr (inr e) ↦ rw (e, call_failed) (returns p)
  ]
