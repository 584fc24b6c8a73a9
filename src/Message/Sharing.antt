-- ===== src/Message/Sharing.antt =====
-- Two methods of ext/rbczmq/message.c that take a frame of another message: afterwards two owners
-- give the frame back to the library.
use rbczmq.Base.{
  ℕ, ◌≡◌, ◌≢◌, refl, ◌∙◌, some, List, ◌∷◌, ◌++◌, Returns, returns, NotIn, ==_self, ne→==,
}
use rbczmq.Czmq.{Ptr, Czmq, Documented}
use rbczmq.Czmq.Zlist.{Zlist, ListLaws}
use rbczmq.Message.{wrap, remove}
use rbczmq.Message.Remove.{Linked-middle}
use rbczmq.Message.Sync.{Cell, frames, Synced, Owns}
use rbczmq.Objects.{qnil, St}

module _ {c : Czmq} {z : Zlist} (laws : Documented c) (lists : ListLaws z) (s : St c z) (v w : ℕ)
    (xs zs ys : List Cell) (x : Cell) (y : Synced laws lists s v xs)
    (other : Synced laws lists s w (zs ++ x ∷ ys)) (apart : other.message ≢ y.message) where
  -- wrap, on a message in step, of any frame that another message in step holds is accepted and
  -- returns nil: afterwards the library has the frame in both messages.
  pub wrap_shares :
      Returns
        (λ r t.
          (r ≡ qnil)
          × ((e : Ptr) × ((laws.view t.world).msgs y.message ≡ some (x.frame ∷ e ∷ frames xs)))
          × ((laws.view t.world).msgs other.message ≡ some (frames (zs ++ x ∷ ys))))
        (λ e t. ⊥)
        (wrap v x.ref s)
  unfolding wrap
  wrap_shares =
      let held = Linked-middle x ys _ _ w zs other.linked in
      let (e, w₁, e₁, nz, dead, k) =
        laws.wrap_msg y.message x.frame (frames xs) x.bytes s.world y.native held.1 in
      let ps = x.frame ∷ e ∷ frames xs in
      let (w₂, e₂, k₂, cur) = laws.first_msg y.message ps w₁ (rw (k, ==_self y.message)) in
      let (w₃, e₃, k₃, _) = laws.next_msg y.message ps w₂ (rw (k₂, k, ==_self y.message)) in
      let same = k₃ ∙ k₂ ∙ k in
      rw (y.object, held.0, other.object)
        (rw (e₁, held.0)
          (rw (e₂, e₃)
            (rw cur (
              rw (==_self s.next) (
                rw (y.object, ==_self v)
                  (returns (
                    refl,
                    (e, rw (same, ==_self y.message)),
                    rw (same, ne→== apart) other.native,
                  )))))))

  -- remove, from a message in step, of the first frame of another message in step, which is not
  -- among the frames of the one, returns nil and makes the frame's object an owner of the frame,
  -- while the library keeps the frame in the other message.
  pub remove_shares :
      NotIn x.frame (frames xs)
      → Returns
          (λ r t.
            (r ≡ qnil)
            × Owns laws lists t x.ref x.frame x.bytes
            × ((laws.view t.world).msgs other.message ≡ some (frames (zs ++ x ∷ ys))))
          (λ e t. ⊥)
          (remove v x.ref s)
  unfolding remove
  remove_shares new =
      let held = Linked-middle x ys _ _ w zs other.linked in
      let (w₁, e₁, k) = laws.remove_msg y.message x.frame (frames xs) s.world y.native in
      rw (y.object, held.0)
        (rw e₁ (
          rw (y.object, held.0)
            (returns (
              refl,
              record { object = rw (==_self x.ref); live = rw k held.1 },
              rw (k, ne→== apart) other.native,
            ))))
