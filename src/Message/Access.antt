-- ===== src/Message/Access.antt =====
-- `size`, `first`, `last`, `to_a` and `destroy` of ext/rbczmq/message.c on a message that is not
-- gone.
use mathlib.Core.List.{append-nil, append_assoc}
use rbczmq.Base.{
  ℕ, zero, suc, ◌<◌, ◌≡◌, ◌≢◌, refl, sym, ◌∙◌, ap, none, List, [], ◌∷◌, ◌++◌, length, last_or,
  Returns, returns, Returns-bind, NonNull, arith, ==_self, ne→==, head_or, ok, pos,
}
use rbczmq.Czmq.{Czmq, Documented, drop_frames}
use rbczmq.Czmq.Zlist.{Zlist, ListLaws, from_first}
use rbczmq.Message.{size, destroy, gone}
use rbczmq.Message.Cursor.{last, collect, to_a}
use rbczmq.Message.Sync.{Cell, refs, frames, Synced, Synced-list}
use rbczmq.Objects.{qnil, qtrue, int, arr, St, or_nil}

length-frames : (xs : List Cell) → length (frames xs) ≡ length xs
length-frames [] = refl
length-frames (x ∷ xs) = ap suc (length-frames xs)

module _ {c : Czmq} {z : Zlist} (laws : Documented c) (lists : ListLaws z) where
  module _ (s : St c z) (v : ℕ) (xs : List Cell) (y : Synced laws lists s v xs) where
    -- `size` is the number of frames.
    pub size_lem : size v s ≡ ok (int (pos (length xs))) s
    unfolding size
    size_lem = rw (y.object, laws.size_msg y.message (frames xs) s.world y.native, length-frames)

    -- last on a message in step returns the object of the last frame, nil if there is none, and
    -- leaves the message in step. It raises nothing.
    pub last_lem :
        Returns
          (λ r t. (r ≡ or_nil (last_or 0 (refs xs))) × Synced laws lists t v xs)
          (λ e t. ⊥)
          (last v s)
    unfolding last
    last_lem =
        let got = lists.last_value y.list ∙ ap (last_or 0) y.items in
        rw (y.object) (
          rw (y.object, got)
            (returns (
              refl,
              Synced-list laws lists s v xs y (z.zlist_last y.list).1
                  (lists.items-last y.list ∙ y.items),
            )))

  -- The loop of `to_a` appends what the cursor has yet to return.
  pub collect_lem :
      (k : ℕ) (s : St c z) (v : ℕ) (xs : List Cell) (ary pending : List ℕ)
      (y : Synced laws lists s v xs)
      → lists.ahead y.list ≡ from_first pending
      → NonNull pending
      → length pending < k
      → Returns
          (λ r t.
            (r ≡ ary ++ pending) × ((y' : Synced laws lists t v xs) × (lists.ahead y'.list ≡ none)))
          (λ e t. ⊥)
          (collect k v ary (head_or 0 pending) s)
  unfolding collect
  collect_lem zero s v xs ary pending y a n h = absurd (omega arith)
  collect_lem (suc k) s v xs ary [] y a n h = returns (sym (append-nil ary), (y, a))
  collect_lem (suc k) s v xs ary (u ∷ us) y a n h =
      let got : (z.zlist_next y.list).0 ≡ head_or 0 us = lists.next_value y.list us a in
      rw (ne→== n.0, y.object, got)
        (rw (← append_assoc ary (u ∷ []) us) (
          collect_lem k _ v xs (ary ++ u ∷ []) us
            (Synced-list laws lists s v xs y (z.zlist_next y.list).1
              (lists.items-next y.list ∙ y.items))
            (lists.ahead-next y.list us a) n.1 (omega arith)))

  -- to_a on a message in step whose objects are not NULL, with more fuel than frames, returns the
  -- objects of all its frames in order and leaves the message in step. It raises nothing.
  pub to_a_lem :
      (k : ℕ) (s : St c z) (v : ℕ) (xs : List Cell)
      → Synced laws lists s v xs
      → NonNull (refs xs)
      → length (refs xs) < k
      → Returns (λ r t. (r ≡ arr (refs xs)) × Synced laws lists t v xs) (λ e t. ⊥) (to_a k v s)
  unfolding to_a
  to_a_lem k s v xs y n h =
      let got = lists.first_value y.list ∙ ap (head_or 0) y.items in
      rw (y.object) (
        rw (y.object, got)
          (Returns-bind
            (collect_lem k _ v xs [] (refs xs)
              (Synced-list laws lists s v xs y (z.zlist_first y.list).1
                (lists.items-first y.list ∙ y.items))
              (lists.ahead-first y.list ∙ ap from_first y.items) n h)
            (λ a t r. returns (ap arr r.0, r.1.0))))

  -- destroy of a message in step whose struct in the library is not NULL returns nil, after which
  -- gone? holds, the library has neither the message nor any of its frames, and no frame object
  -- has changed. It raises nothing.
  destroy_lem :
      (s : St c z) (v : ℕ) (xs : List Cell) (y : Synced laws lists s v xs)
      → y.message ≢ 0
      → Returns
          (λ r t.
            (r ≡ qnil)
            × (gone v t ≡ ok qtrue t)
            × ((laws.view t.world).msgs y.message ≡ none)
            × ((laws.view t.world).frames ≡ drop_frames (laws.view s.world).frames (frames xs))
            × (t.frame_objs ≡ s.frame_objs))
          (λ e t. ⊥)
          (destroy v s)
  unfolding destroy gone
  destroy_lem s v xs y n =
      let (w, e, k) = laws.destroy_msg y.message (frames xs) s.world y.native in
      rw (y.object) (
        rw (y.object)
          (rw (ne→== n, e) (returns (refl, rw (==_self v), rw (k, ==_self y.message), rw k, refl))))
