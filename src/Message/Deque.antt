-- ===== src/Message/Deque.antt =====
-- `push`, `add` and `pop` of ext/rbczmq/message.c on a message that is not gone.
use rbczmq.Base.{
  ℕ, ◌≡◌, ◌≢◌, refl, sym, ◌∙◌, ap, ◌⊎◌, inl, inr, some, List, [], ◌∷◌, ◌++◌, Exc, Returns, returns,
  Returns-mono, NotIn, ==_self, ne→==, head_or, tail,
}
use rbczmq.Czmq.{Ptr, Czmq, Documented}
use rbczmq.Czmq.Zlist.{Zlist, ListLaws}
use rbczmq.Message.{push, add, pop, link_frame, unlink_frame}
use rbczmq.Message.Sync.{
  Cell, refs, frames, linked, Synced, Owns, Linked-put, Linked-live, frames_eq, Linked-append,
  refs-append, frames-append, NotIn-refs, Synced-world, Owns-world, Returns-call_failed,
}
use rbczmq.Objects.{Value, qtrue, qfalse, obj, St}

module _ {c : Czmq} {z : Zlist} (laws : Documented c) (lists : ListLaws z) where
  -- What `push` and `add` may come to: the new list of frames, or no change.
  abbrev pub Grown : ℕ → List Cell → List Cell → Cell → Value → St c z → Type 0
  Grown v old new x r s =
      ((r ≡ qtrue) × Synced laws lists s v new)
      ⊎ ((r ≡ qfalse) × Synced laws lists s v old × Owns laws lists s x.ref x.frame x.bytes)

  abbrev pub Kept : ℕ → List Cell → Cell → Exc → St c z → Type 0
  Kept v old x e s = Synced laws lists s v old × Owns laws lists s x.ref x.frame x.bytes

  module _ (s : St c z) (v : ℕ) (xs : List Cell) (x : Cell) (y : Synced laws lists s v xs)
      (o : Owns laws lists s x.ref x.frame x.bytes) (new : NotIn x.frame (frames xs)) where
    not_linked : (p : Ptr) → s.frame_objs x.ref ≢ some (linked p v)
    not_linked p e = cc (sym o.object ∙ e)

    out : NotIn x.ref (refs xs)
    out = NotIn-refs v s.frame_objs (laws.view s.world).frames x.ref xs not_linked y.linked

    -- On a message that is in step (not gone, the objects of its list linked to it and, in order,
    -- those of the library's live frames, no object or frame twice), push of an object that owns a
    -- live frame which is not among the message's frames is defined. It returns true with the
    -- frame in front and the message in step, or returns false or raises an exception with the
    -- message as it was and the frame still owned by the object.
    pub push_lem : Returns (Grown v xs (x ∷ xs) x) (Kept v xs x) (push v x.ref s)
    unfolding push link_frame
    push_lem =
        rw (y.object, o.object)
          (elim (laws.push_msg y.message x.frame (frames xs) x.bytes s.world y.native o.live) [
            | inl (w, e, k) ↦ rw e (
                rw (o.object, y.object)
                  (returns (
                    inl (
                      refl,
                      record {
                        message = y.message;
                        list = z.zlist_push x.ref y.list;
                        object = rw (==_self v);
                        items = lists.items-push x.ref y.list ∙ ap (◌∷◌ x.ref) y.items;
                        native = rw (k, ==_self y.message);
                        linked = (
                          rw (==_self x.ref),
                          rw k o.live,
                          out,
                          new,
                          Linked-live v _ _ xs (frames_eq k)
                              (Linked-put v _ _ x.ref _ xs out y.linked),
                        );
                      },
                    ))))
            | inr (w, e, k) ↦ rw e (
                Returns-call_failed _
                  (inr (refl, Synced-world laws lists s w k y, Owns-world laws lists s w k o))
                  (λ _. (Synced-world laws lists s w k y, Owns-world laws lists s w k o)))
          ])

    -- Under the conditions of push, add is defined: it returns true with the frame behind the
    -- others and the message in step, or returns false or raises an exception with the message as
    -- it was and the frame still owned by the object.
    pub add_lem : Returns (Grown v xs (xs ++ x ∷ []) x) (Kept v xs x) (add v x.ref s)
    unfolding add link_frame
    add_lem =
        rw (y.object, o.object)
          (elim (laws.add_msg y.message x.frame (frames xs) x.bytes s.world y.native o.live) [
            | inl (w, e, k) ↦ rw e (
                rw (o.object, y.object)
                  (returns (
                    inl (
                      refl,
                      record {
                        message = y.message;
                        list = z.zlist_append x.ref y.list;
                        object = rw (==_self v);
                        items =
                            rw refs-append
                              (lists.items-append x.ref y.list ∙ ap (λ l. l ++ x.ref ∷ []) y.items);
                        native = rw (k, ==_self y.message, frames-append);
                        linked =
                            Linked-append v _ _ xs x out new (rw (==_self x.ref)) (rw k o.live) (
                              Linked-live v _ _ xs (frames_eq k)
                                (Linked-put v _ _ x.ref _ xs out y.linked));
                      },
                    ))))
            | inr (w, e, k) ↦ rw e (
                Returns-call_failed _
                  (inr (refl, Synced-world laws lists s w k y, Owns-world laws lists s w k o))
                  (λ _. (Synced-world laws lists s w k y, Owns-world laws lists s w k o)))
          ])

  -- pop on a message in step, whose first frame and its object are not NULL, returns that object,
  -- which owns the live frame again with its data unchanged, and leaves the message in step with
  -- the other frames. It raises nothing.
  pub pop_lem :
      (s : St c z) (v : ℕ) (x : Cell) (xs : List Cell)
      → x.ref ≢ 0
      → x.frame ≢ 0
      → Synced laws lists s v (x ∷ xs)
      → Returns
          (λ r t.
            (r ≡ obj x.ref) × Synced laws lists t v xs × Owns laws lists t x.ref x.frame x.bytes)
          (λ e t. ⊥)
          (pop v s)
  unfolding pop unlink_frame
  pop_lem s v x xs nr nf y =
      let (w, e, k) = laws.pop_msg y.message (frames (x ∷ xs)) s.world y.native in
      let got : (z.zlist_pop y.list).0 ≡ x.ref = lists.pop_value y.list ∙ ap (head_or 0) y.items in
      rw (y.object, e)
        (rw (ne→== nf, y.object, got, y.linked.0)
          (rw (ne→== nr) (
            returns (
              refl,
              record {
                message = y.message;
                list = (z.zlist_pop y.list).1;
                object = rw (==_self v);
                items = lists.items-pop y.list ∙ ap tail y.items;
                native = rw (k, ==_self y.message);
                linked =
                    Linked-live v _ _ xs (frames_eq k)
                      (Linked-put v _ _ x.ref _ xs y.linked.2 y.linked.4);
              },
              record { object = rw (==_self x.ref); live = rw k y.linked.1 },
            ))))

  -- pop of a message in step, whose first frame and its object are not NULL, returns that object,
  -- and push of it then returns true and gives back the message with the same frames and data, in
  -- step, or returns false or raises an exception and leaves the message in step without the
  -- frame, whose object owns it.
  pub pop-push :
      (s : St c z) (v : ℕ) (x : Cell) (xs : List Cell)
      → x.ref ≢ 0
      → x.frame ≢ 0
      → Synced laws lists s v (x ∷ xs)
      → Returns
          (λ r t. (r ≡ obj x.ref) × Returns (Grown v xs (x ∷ xs) x) (Kept v xs x) (push v x.ref t))
          (λ e t. ⊥)
          (pop v s)
  pop-push s v x xs nr nf y =
      Returns-mono (pop_lem s v x xs nr nf y) (λ r t d. (d.0, push_lem t v xs x d.1 d.2 y.linked.3))
        (λ e t q. q)
