-- ===== src/Message/Envelope.antt =====
-- `wrap` and `unwrap` of ext/rbczmq/message.c: a frame with an empty frame behind it, in front of a
-- message that is not gone.
use rbczmq.Base.{
  inl, inr, Bool-cases, ℕ, ◌≡◌, ◌≢◌, refl, sym, ◌∙◌, ap, none, some, List, [], ◌∷◌, length, Returns,
  returns, NotIn, if◌then◌else◌, ◌==◌, ==_self, ne→==, head_or, tail,
}
use rbczmq.Czmq.{Ptr, Czmq, Documented, set_msg, set_frame}
use rbczmq.Czmq.Zlist.{Zlist, ListLaws}
use rbczmq.Message.{wrap, unwrap}
use rbczmq.Message.Strings.{cell}
use rbczmq.Message.Sync.{
  Cell, refs, frames, Synced, Owns, Linked-put, Linked-set, Linked-live, frames_eq, NotIn-refs,
  NotIn-frames,
}
use rbczmq.Objects.{qnil, obj, St}

-- What `unwrap` leaves of the frames behind the first: an empty frame at the front goes too.
abbrev pub unwrapped : List Cell → List Cell
unwrapped [] = []
unwrapped (x ∷ xs) = if length x.bytes == 0 then xs else x ∷ xs

module _ {c : Czmq} {z : Zlist} (laws : Documented c) (lists : ListLaws z) where
  -- wrap with an object that owns a live frame which is not among the frames of a message in step
  -- returns nil and leaves the message in step with that frame, then a new empty frame under the
  -- next free reference, in front. It raises nothing.
  pub wrap_lem :
      (s : St c z) (v : ℕ) (xs : List Cell) (x : Cell)
      → Synced laws lists s v xs
      → Owns laws lists s x.ref x.frame x.bytes
      → NotIn x.frame (frames xs)
      → s.frame_objs s.next ≡ none
      → Returns
          (λ r t.
            (r ≡ qnil) × ((e : Ptr) × (e ≢ 0) × Synced laws lists t v (x ∷ cell s.next e [] ∷ xs)))
          (λ e t. ⊥)
          (wrap v x.ref s)
  unfolding wrap
  wrap_lem s v xs x y o new fresh =
      let (e, w, e₁, nz, dead, k) =
        laws.wrap_msg y.message x.frame (frames xs) x.bytes s.world y.native o.live in
      let ps = x.frame ∷ e ∷ frames xs in
      let (w₂, e₂, k₂, cur) = laws.first_msg y.message ps w (rw (k, ==_self y.message)) in
      let (w₃, e₃, k₃, _) = laws.next_msg y.message ps w₂ (rw (k₂, k, ==_self y.message)) in
      let same = k₃ ∙ k₂ ∙ k in
      let out : NotIn x.ref (refs xs) =
        NotIn-refs v _ _ x.ref xs (λ p h. cc (sym o.object ∙ h)) y.linked in
      let apart : NotIn s.next (refs xs) =
        NotIn-refs v _ _ s.next xs (λ p h. cc (sym fresh ∙ h)) y.linked in
      let gone : NotIn e (frames xs) = NotIn-frames v _ _ e xs dead y.linked in
      let ne : x.ref ≢ s.next = λ h. cc (sym o.object ∙ (ap s.frame_objs h ∙ fresh)) in
      let nf : x.frame ≢ e = λ h. cc (sym o.live ∙ (ap (laws.view s.world).frames h ∙ dead)) in
      rw (y.object, o.object)
        (rw (e₁, o.object)
          (rw (e₂, e₃)
            (rw (cur) (
              rw (==_self s.next) (
                rw (y.object, ==_self v)
                  (returns (
                    refl,
                    (
                      e,
                      nz,
                      record {
                        message = y.message;
                        list = z.zlist_push x.ref (z.zlist_push s.next y.list);
                        object = rw (==_self v);
                        items =
                            lists.items-push x.ref _
                            ∙ ap (◌∷◌ x.ref)
                                (lists.items-push s.next y.list ∙ ap (◌∷◌ s.next) y.items);
                        native = rw (same, ==_self y.message);
                        linked = (
                          rw (ne→== ne, ==_self x.ref),
                          rw (same, ne→== nf) o.live,
                          (ne, out),
                          (nf, new),
                          (
                            rw (==_self s.next),
                            rw (same, ==_self e),
                            apart,
                            gone,
                            Linked-live v _ _ xs (frames_eq same) (
                                Linked-set v _ _ e _ xs gone (
                                  Linked-put v _ _ s.next _ xs apart (
                                    Linked-put v _ _ s.next _ xs apart
                                      (Linked-put v _ _ x.ref _ xs out y.linked)))),
                          ),
                        );
                      },
                    ),
                  )))))))

  module _ (s : St c z) (v : ℕ) (x a : Cell) (xs : List Cell) (nr : x.ref ≢ 0) (nf : x.frame ≢ 0)
      (y : Synced laws lists s v (x ∷ a ∷ xs)) where
    -- unwrap on a message in step with at least two frames, the first of which and its object are
    -- not NULL, returns the first object, which owns its live frame again, drops the frame behind
    -- it just when that is empty, and leaves the message in step with the rest. It raises nothing.
    pub unwrap_lem :
        Returns
          (λ r t.
            (r ≡ obj x.ref)
            × Synced laws lists t v (unwrapped (a ∷ xs))
            × Owns laws lists t x.ref x.frame x.bytes)
          (λ e t. ⊥)
          (unwrap v s)
    unfolding unwrap
    unwrap_lem =
        let (w, e, k) = laws.pop_msg y.message (frames (x ∷ a ∷ xs)) s.world y.native in
        let (w₂, e₂, k₂, _) =
          laws.first_msg y.message (frames (a ∷ xs)) w (rw (k, ==_self y.message)) in
        let here : (laws.view w₂).frames a.frame ≡ some a.bytes = rw (k₂, k) y.linked.4.1 in
        let got : (z.zlist_pop y.list).0 ≡ x.ref =
          lists.pop_value y.list ∙ ap (head_or 0) y.items in
        rw (y.object, e)
          (rw (ne→== nf, y.object)
            (rw (e₂, laws.size_frame a.frame a.bytes w₂ here)
              (elim (Bool-cases (length a.bytes == 0)) [
                | inl empty ↦
                    let (w₃, e₃, k₃) =
                      laws.pop_msg y.message (frames (a ∷ xs)) w₂ (rw (k₂, k, ==_self y.message)) in
                    let same = k₃ ∙ ap (λ t. set_msg t y.message (some (frames xs))) (k₂ ∙ k) in
                    let (w₄, e₄, k₄) =
                      laws.destroy_frame a.frame a.bytes w₃ (rw (same) y.linked.4.1) in
                    let all = k₄ ∙ ap (λ t. set_frame t a.frame none) same in
                    let once = lists.items-pop y.list ∙ ap tail y.items in
                    rw empty (
                      rw e₃ (
                        rw e₄ (
                          rw (==_self v, got, y.linked.0)
                            (rw (ne→== nr) (
                              returns (
                                refl,
                                record {
                                  message = y.message;
                                  list = (z.zlist_pop (z.zlist_pop y.list).1).1;
                                  object = rw (==_self v);
                                  items = lists.items-pop _ ∙ ap tail once;
                                  native = rw (all, ==_self y.message);
                                  linked = Linked-live v _ _ xs (frames_eq all) (
                                      Linked-set v _ _ a.frame _ xs y.linked.4.3
                                        (Linked-put v _ _ x.ref _ xs y.linked.2.1 y.linked.4.4));
                                },
                                record {
                                  object = rw (==_self x.ref);
                                  live = rw (all, ne→== y.linked.3.0) y.linked.1;
                                },
                              ))))))
                | inr full ↦ rw full (
                    rw (got, y.linked.0)
                      (rw (ne→== nr) (
                        returns (
                          refl,
                          record {
                            message = y.message;
                            list = (z.zlist_pop y.list).1;
                            object = rw (==_self v);
                            items = lists.items-pop y.list ∙ ap tail y.items;
                            native = rw (k₂, k, ==_self y.message);
                            linked =
                                Linked-live v _ _ (a ∷ xs) (frames_eq (k₂ ∙ k))
                                  (Linked-put v _ _ x.ref _ (a ∷ xs) y.linked.2 y.linked.4);
                          },
                          record { object = rw (==_self x.ref); live = rw (k₂, k) y.linked.1 },
                        ))))
              ])))
