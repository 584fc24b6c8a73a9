-- ===== src/Message/Strings.antt =====
-- `pushstr`, `addstr` and `popstr` of ext/rbczmq/message.c on a message that is not gone.
use rbczmq.Base.{
  ℕ, ◌≡◌, refl, sym, ◌∙◌, ap, ◌⊎◌, inl, inr, none, some, List, [], ◌∷◌, ◌++◌, Returns, returns,
  NotIn, last_or, ==_self, tail,
}
use rbczmq.Czmq.{Ptr, Bytes, Czmq, Documented, up_to_nul}
use rbczmq.Czmq.Zlist.{Zlist, ListLaws}
use rbczmq.Message.{pushstr, addstr, popstr}
use rbczmq.Message.Sync.{
  Cell, refs, frames, linked, Synced, Linked-put, Linked-set, Linked-append, NotIn-refs,
  NotIn-frames, Linked-live, frames_eq, refs-append, frames-append, Synced-world,
  Returns-call_failed,
}
use rbczmq.Objects.{Value, qtrue, qfalse, str, St}

abbrev pub cell : ℕ → Ptr → Bytes → Cell
cell u p d = record { ref = u; frame = p; bytes = d }

pub last_frame : (d : Ptr) (xs : List Ptr) (p : Ptr) → last_or d (xs ++ p ∷ []) ≡ p
last_frame d [] p = refl
last_frame d (x ∷ xs) p = last_frame x xs p

module _ {c : Czmq} {z : Zlist} (laws : Documented c) (lists : ListLaws z) where
  -- A new object holds a frame with the data, where `new` gives the list of frames; or no change.
  abbrev pub Added : (St c z) → ℕ → List Cell → (Cell → List Cell) → Value → St c z → Type 0
  Added s v old new r t =
      ((p : Ptr) × (d : Bytes) × (r ≡ qtrue) × Synced laws lists t v (new (cell s.next p d)))
      ⊎ ((r ≡ qfalse) × Synced laws lists t v old)

  module _ (s : St c z) (v : ℕ) (xs : List Cell) (d : Bytes) (y : Synced laws lists s v xs)
      (fresh : s.frame_objs s.next ≡ none) where
    out : NotIn s.next (refs xs)
    out =
        NotIn-refs v s.frame_objs (laws.view s.world).frames s.next xs (λ p e. cc (sym fresh ∙ e))
          y.linked

    -- pushstr of a string on a message in step, where the next reference is not in use, returns
    -- true with a new frame that holds the string in front, under that reference, and the message
    -- in step, or returns false or raises an exception with the message as it was.
    pub pushstr_lem :
        Returns
          (λ r t.
            ((p : Ptr) × (r ≡ qtrue) × Synced laws lists t v (cell s.next p d ∷ xs))
            ⊎ ((r ≡ qfalse) × Synced laws lists t v xs))
          (λ e t. Synced laws lists t v xs)
          (pushstr v (str d) s)
    unfolding pushstr
    pushstr_lem = rw y.object (elim (laws.pushmem_msg y.message d (frames xs) s.world y.native) [
      | inl (p, w, e, nz, dead, k) ↦
          let new : NotIn p (frames xs) = NotIn-frames v _ _ p xs dead y.linked in
          let (w', e', k', _) =
            laws.first_msg y.message (p ∷ frames xs) w (rw (k, ==_self y.message)) in
          rw e (
            rw (e', ==_self s.next, y.object)
              (returns (
                inl (
                  p,
                  refl,
                  record {
                    message = y.message;
                    list = z.zlist_push s.next y.list;
                    object = rw (==_self v);
                    items = lists.items-push s.next y.list ∙ ap (◌∷◌ s.next) y.items;
                    native = rw (k', k, ==_self y.message);
                    linked = (
                      rw (==_self s.next),
                      rw (k', k, ==_self p),
                      out,
                      new,
                      Linked-live v _ _ xs (frames_eq (k' ∙ k)) (
                          Linked-set v _ _ p _ xs new (
                            Linked-put v _ _ s.next _ xs out
                              (Linked-put v _ _ s.next _ xs out y.linked))),
                    );
                  },
                ))))
      | inr (w, e, k) ↦ rw e (
          Returns-call_failed _ (inr (refl, Synced-world laws lists s w k y))
            (λ _. Synced-world laws lists s w k y))
    ])

    -- Under the conditions of pushstr, addstr returns true with the new frame behind the others
    -- and the message in step, or returns false or raises an exception with the message as it was.
    pub addstr_lem :
        Returns
          (λ r t.
            ((p : Ptr) × (r ≡ qtrue) × Synced laws lists t v (xs ++ cell s.next p d ∷ []))
            ⊎ ((r ≡ qfalse) × Synced laws lists t v xs))
          (λ e t. Synced laws lists t v xs)
          (addstr v (str d) s)
    unfolding addstr
    addstr_lem = rw y.object (elim (laws.addmem_msg y.message d (frames xs) s.world y.native) [
      | inl (p, w, e, nz, dead, k) ↦
          let new : NotIn p (frames xs) = NotIn-frames v _ _ p xs dead y.linked in
          let (w', e', k') =
            laws.last_msg y.message (frames xs ++ p ∷ []) w (rw (k, ==_self y.message)) in
          rw e (
            rw (e', last_frame, ==_self s.next, y.object)
              (returns (
                inl (
                  p,
                  refl,
                  record {
                    message = y.message;
                    list = z.zlist_append s.next y.list;
                    object = rw (==_self v);
                    items =
                        rw refs-append
                          (lists.items-append s.next y.list ∙ ap (λ l. l ++ s.next ∷ []) y.items);
                    native = rw (k', k, ==_self y.message, frames-append);
                    linked =
                        Linked-append v _ _ xs (cell s.next p d) out new (rw (==_self s.next))
                          (rw (k', k, ==_self p))
                          (Linked-live v _ _ xs (frames_eq (k' ∙ k)) (
                            Linked-set v _ _ p _ xs new (
                              Linked-put v _ _ s.next _ xs out
                                (Linked-put v _ _ s.next _ xs out y.linked))));
                  },
                ))))
      | inr (w, e, k) ↦ rw e (
          Returns-call_failed _ (inr (refl, Synced-world laws lists s w k y))
            (λ _. Synced-world laws lists s w k y))
    ])

  -- popstr on a message in step that has a frame returns the first frame's data up to the first 0
  -- byte, destroys that frame and leaves the message in step with the others. It raises nothing,
  -- and the object of the destroyed frame stays linked to the message, so that it still passes for
  -- usable.
  pub popstr_lem :
      (s : St c z) (v : ℕ) (x : Cell) (xs : List Cell)
      → Synced laws lists s v (x ∷ xs)
      → Returns
          (λ r t.
            (r ≡ str (up_to_nul x.bytes))
            × Synced laws lists t v xs
            × (t.frame_objs x.ref ≡ some (linked x.frame v))
            × ((laws.view t.world).frames x.frame ≡ none))
          (λ e t. ⊥)
          (popstr v s)
  unfolding popstr
  popstr_lem s v x xs y =
      let (w, e, k) =
        laws.popstr_msg y.message x.frame (frames xs) x.bytes s.world y.native y.linked.1 in
      rw (y.object, e)
        (rw y.object (
          returns (
            refl,
            record {
              message = y.message;
              list = (z.zlist_pop y.list).1;
              object = rw (==_self v);
              items = lists.items-pop y.list ∙ ap tail y.items;
              native = rw (k, ==_self y.message);
              linked =
                  Linked-live v _ _ xs (frames_eq k)
                    (Linked-set v _ _ x.frame _ xs y.linked.3 y.linked.4);
            },
            y.linked.0,
            rw (k, ==_self x.frame),
          )))
