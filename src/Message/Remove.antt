-- ===== src/Message/Remove.antt =====
-- `remove` of ext/rbczmq/message.c, for a frame of the message.
use rbczmq.Base.{
  ℕ, ◌≡◌, ◌≢◌, refl, sym, ◌∙◌, ap, some, List, [], ◌∷◌, ◌++◌, erase_first, Returns, returns, NotIn,
  Table, ==_self, ne→==,
}
use rbczmq.Czmq.{Ptr, Bytes, Czmq, Documented}
use rbczmq.Czmq.Zlist.{Zlist, ListLaws}
use rbczmq.Message.{remove}
use rbczmq.Message.Sync.{
  Cell, refs, frames, Linked, linked, Synced, Owns, Linked-put, Linked-live, frames_eq,
}
use rbczmq.Objects.{FrameObj, qnil, St}

module _ (x : Cell) (ys : List Cell) where
  refs_middle :
      (u : ℕ) (xs : List Cell)
      → NotIn u (refs (xs ++ x ∷ ys))
      → (u ≢ x.ref) × NotIn u (refs (xs ++ ys))
  refs_middle u [] h = h
  refs_middle u (w ∷ xs) h = let (a, b) = refs_middle u xs h.1 in (a, (h.0, b))

  frames_middle :
      (p : Ptr) (xs : List Cell)
      → NotIn p (frames (xs ++ x ∷ ys))
      → (p ≢ x.frame) × NotIn p (frames (xs ++ ys))
  frames_middle p [] h = h
  frames_middle p (w ∷ xs) h = let (a, b) = frames_middle p xs h.1 in (a, (h.0, b))

  -- A cell stands once in the list, and the list without it is linked too.
  pub Linked-middle :
      (objs : Table FrameObj) (live : Table Bytes) (v : ℕ) (xs : List Cell)
      → Linked objs live v (xs ++ x ∷ ys)
      → (objs x.ref ≡ some (linked x.frame v))
        × (live x.frame ≡ some x.bytes)
        × NotIn x.ref (refs (xs ++ ys))
        × NotIn x.frame (frames (xs ++ ys))
        × Linked objs live v (xs ++ ys)
  Linked-middle objs live v [] l = l
  Linked-middle objs live v (w ∷ xs) l =
      let (o, d, a, b, rest) = Linked-middle objs live v xs l.4 in
      let (ne, out) = refs_middle w.ref xs l.2 in
      let (nf, gone) = frames_middle w.frame xs l.3 in
      (o, d, (λ e. ne (sym e), a), (λ e. nf (sym e), b), (l.0, l.1, out, gone, rest))

  erase-refs :
      (xs : List Cell)
      → NotIn x.ref (refs (xs ++ ys))
      → erase_first x.ref (refs (xs ++ x ∷ ys)) ≡ refs (xs ++ ys)
  erase-refs [] h = rw (==_self x.ref)
  erase-refs (w ∷ xs) h = rw (ne→== (λ e. h.0 (sym e))) (ap (◌∷◌ w.ref) (erase-refs xs h.1))

  erase-frames :
      (xs : List Cell)
      → NotIn x.frame (frames (xs ++ ys))
      → erase_first x.frame (frames (xs ++ x ∷ ys)) ≡ frames (xs ++ ys)
  erase-frames [] h = rw (==_self x.frame)
  erase-frames (w ∷ xs) h = rw (ne→== (λ e. h.0 (sym e))) (ap (◌∷◌ w.frame) (erase-frames xs h.1))

module _ {c : Czmq} {z : Zlist} (laws : Documented c) (lists : ListLaws z) where
  -- remove of a frame of a message in step, wherever it stands, returns nil, leaves the message in
  -- step without that frame and with the order of the others, and its object owns the live frame
  -- again. It raises nothing.
  pub remove_lem :
      (s : St c z) (v : ℕ) (xs : List Cell) (x : Cell) (ys : List Cell)
      → Synced laws lists s v (xs ++ x ∷ ys)
      → Returns
          (λ r t.
            (r ≡ qnil) × Synced laws lists t v (xs ++ ys) × Owns laws lists t x.ref x.frame x.bytes)
          (λ e t. ⊥)
          (remove v x.ref s)
  unfolding remove
  remove_lem s v xs x ys y =
      let (o, d, out, gone, rest) = Linked-middle x ys _ _ v xs y.linked in
      let (w, e, k) = laws.remove_msg y.message x.frame (frames (xs ++ x ∷ ys)) s.world y.native in
      rw (y.object, o)
        (rw e (
          rw (y.object, o)
            (returns (
              refl,
              record {
                message = y.message;
                list = z.zlist_remove x.ref y.list;
                object = rw (==_self v);
                items =
                    lists.items-remove x.ref y.list
                    ∙ ap (erase_first x.ref) y.items
                    ∙ erase-refs x ys xs out;
                native = rw (k, ==_self y.message, erase-frames x ys xs gone);
                linked =
                    Linked-live v _ _ (xs ++ ys) (frames_eq k)
                      (Linked-put v _ _ x.ref _ (xs ++ ys) out rest);
              },
              record { object = rw (==_self x.ref); live = rw k d },
            ))))
