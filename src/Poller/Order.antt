-- ===== src/Poller/Order.antt =====
-- What it means that a poller of ext/rbczmq/poller.c is in order, and that every method keeps it so.
use rbczmq.Base.{
  ℕ, ◌∙◌, ◌+◌, ◌≤◌, ◌≡◌, ◌≢◌, refl, ◌⊎◌, inl, inr, Bool, true, false, none, some, List, [], ◌∷◌,
  ◌++◌, length, length-append, erase_all, NotIn, Distinct, Returns, returns, Returns-mono,
  Returns-bind, Bool-cases, update, arith, ==_self, ne→==,
}
use rbczmq.Czmq.Zlist.{Zlist}
use rbczmq.Net.{Zsocket, Net}
use rbczmq.Objects.{Value, obj, qfalse}
use rbczmq.Pollitem.{Pollitem, Polls, coerce, coerce_item}
use rbczmq.Poller.{register, remove}
use rbczmq.Poller.Coercion.{Made, coerce_lem, set_verbose_lem}
use rbczmq.Poller.Entries.{Distinct-snoc, Distinct-erase_all, Known-update, Known-absent}
use rbczmq.Poller.Items.{Known, WellFormed, Known-append}
use rbczmq.Poller.Removal.{first_match, remove_keeps}

module _ {n : Zsocket} {z : Zlist} where
  -- No reference from `next` on is an item.
  abbrev pub Fresh : Polls n z → Type 0
  Fresh s = (k : ℕ) → s.next ≤ k → s.items k ≡ none

  -- The poller is well formed, no item stands on it twice, and new items have new references.
  pub record InOrder (s : Polls n z) (v : ℕ) : Type 0 where
    pub refs : List ℕ
    pub structs : List Pollitem
    pub order : WellFormed s v refs structs
    pub apart : Distinct refs
    pub fresh : Fresh s

  -- In another state with the same poller and its items it is in order likewise.
  pub InOrder-as :
      (s t : Polls n z) (v : ℕ) (y : InOrder s v)
      → t.pollers v ≡ s.pollers v
      → Known t.items y.refs y.structs
      → Fresh t
      → InOrder t v
  InOrder-as s t v y same known fresh =
      let o = y.order in
      record {
        refs = y.refs;
        structs = y.structs;
        order = record {
          readables = o.readables;
          writables = o.writables;
          pollset = o.pollset;
          dirty = o.dirty;
          verbose = o.verbose;
          object = rw same (o.object);
          known = known;
          current = o.current;
        };
        apart = y.apart;
        fresh = fresh;
      }

  pub Made-InOrder :
      (s t : Polls n z) (v w : ℕ) (y : InOrder s v)
      → Made s w t
      → InOrder t v
        × NotIn w y.refs
        × Known t.items y.refs y.structs
        × ((it : Pollitem) × (t.items w ≡ some it))
        × Fresh t
        × (t.pollers v ≡ s.pollers v)
  Made-InOrder s t v w y (it, at, e) =
      let s' : Polls n z = record s {
        items = update s.items s.next (some it);
        next = s.next + 1;
      } in
      let out : NotIn s.next y.refs =
        Known-absent s.items y.refs y.structs s.next y.order.known (y.fresh s.next (omega arith)) in
      let known : Known s'.items y.refs y.structs =
        Known-update s.items y.refs y.structs s.next (some it) y.order.known out in
      let fresh : Fresh s' = λ k h.
        (let ne : k ≢ s.next = omega (arith, h) in
          let below : s.next ≤ k = omega (arith, h) in rw (ne→== ne) (y.fresh k below)) in
      rw (at, e)
        (
          InOrder-as s s' v y refl known fresh,
          out,
          known,
          (it, rw (==_self s.next) refl),
          fresh,
          refl,
        )

  -- What coercion hands on: an item that does not stand on the poller yet, unless it was given.
  pub record Coerced (s : Polls n z) (v : ℕ) (y : InOrder s v) (w : ℕ) (t : Polls n z)
      : Type 0 where
    pub still : t.pollers v ≡ s.pollers v
    pub known : Known t.items y.refs y.structs
    pub struct : Pollitem
    pub item : t.items w ≡ some struct
    pub fresh : Fresh t

  pub coerce-Coerced :
      (s : Polls n z) (v u : ℕ) (y : InOrder s v)
      → Returns
          (λ w t. Coerced s v y w t × ((w ≡ u) ⊎ NotIn w y.refs))
          (λ e t. InOrder t v)
          (coerce u s)
  coerce-Coerced s v u y = Returns-mono (coerce_lem s u) found (λ e t same. rw same y)
    where
      found :
          (w : ℕ) (t : Polls n z)
          → ((w ≡ u) × (t ≡ s) × ((it : Pollitem) × (s.items u ≡ some it))) ⊎ Made s w t
          → Coerced s v y w t × ((w ≡ u) ⊎ NotIn w y.refs)
      found w t (inl (e, same, (it, h))) =
          rw (e, same)
            (
              record {
                still = refl;
                known = y.order.known;
                struct = it;
                item = h;
                fresh = y.fresh;
              },
              inl refl,
            )
      found w t (inr made) =
          let (o, out, known, (it, h), fresh, still) = Made-InOrder s t v w y made in
          (record { still = still; known = known; struct = it; item = h; fresh = fresh }, inr out)

  -- The item stands behind the others.
  Listed-InOrder :
      (s t : Polls n z) (v w : ℕ) (m : Net n z) (verbose : Bool) (y : InOrder s v)
      → Coerced s v y w t
      → NotIn w y.refs
      → InOrder
          (record t {
            net = m;
            pollers = update t.pollers v (
                some (record {
                  pollables = y.refs ++ w ∷ [];
                  readables = y.order.readables;
                  writables = y.order.writables;
                  pollset = y.order.pollset;
                  poll_size = length y.refs + 1;
                  dirty = true;
                  verbose = verbose;
                }));
          })
          v
  Listed-InOrder s t v w m verbose y x new =
      let count : length y.refs + 1 ≡ length (y.refs ++ w ∷ []) =
        omega (arith, length-append y.refs (w ∷ [])) in
      record {
        refs = y.refs ++ w ∷ [];
        structs = y.structs ++ x.struct ∷ [];
        order = record {
          readables = y.order.readables;
          writables = y.order.writables;
          pollset = y.order.pollset;
          dirty = true;
          verbose = verbose;
          object = rw (==_self v, count) refl;
          known = Known-append t.items y.refs y.structs w x.struct x.known x.item;
          current = λ h e. cc;
        };
        apart = Distinct-snoc w y.refs y.apart new;
        fresh = x.fresh;
      }

  -- register of any object that is no item on the poller: the poller stays in order.
  pub register-InOrder :
      (s : Polls n z) (v u : ℕ) (y : InOrder s v)
      → NotIn u y.refs
      → Returns (λ a t. InOrder t v) (λ e t. InOrder t v) (register v u s)
  unfolding register
  register-InOrder s v u y out = rw y.order.object (
      Returns-bind (coerce-Coerced s v u y) (λ w t c.
        let x = c.0 in
        let new : NotIn w y.refs = elim c.1 [ inl e ↦ rw e out | inr h ↦ h ] in
        rw x.item (elim (Bool-cases y.order.verbose) [
          | inr quiet ↦ rw quiet (returns (Listed-InOrder s t v w t.net false y x new))
          | inl loud ↦ rw loud (
              Returns-bind
                (Returns-mono (set_verbose_lem t w x.struct true x.item) (λ a r h. h)
                  (λ e r same. rw same (InOrder-as s t v y x.still x.known x.fresh)))
                (λ a r h. rw h.1 (returns (Listed-InOrder s t v w h.0 true y x new))))
        ])))

  remove-item :
      (s : Polls n z) (v u : ℕ) (it : Pollitem) (y : InOrder s v)
      → s.items u ≡ some it
      → Returns (λ a t. InOrder t v) (λ e t. ⊥) (remove v u s)
  remove-item s v u it y h =
      Returns-mono (remove_keeps s v u it y.refs y.structs y.order y.apart h) left (λ e t q. q)
    where
      left :
          (a : Value) (t : Polls n z)
          → ((a ≡ qfalse) × (first_match u it y.refs y.structs ≡ none) × (t ≡ s))
            ⊎ ((w : ℕ) × (a ≡ obj w)
                × (first_match u it y.refs y.structs ≡ some w)
                × ((js : List Pollitem) × WellFormed t v (erase_all w y.refs) js)
                × (t ≡ record s { pollers = t.pollers }))
          → InOrder t v
      left a t (inl (_, _, same)) = rw same y
      left a t (inr (w, _, _, (js, o), same)) = record {
        refs = erase_all w y.refs;
        structs = js;
        order = o;
        apart = Distinct-erase_all w y.refs y.apart;
        fresh = rw same (y.fresh);
      }

  -- remove of any object.
  pub remove-InOrder :
      (s : Polls n z) (v u : ℕ) (y : InOrder s v)
      → Returns (λ a t. InOrder t v) (λ e t. InOrder t v) (remove v u s)
  unfolding remove
  remove-InOrder s v u y = rw y.order.object (
      Returns-bind (coerce-Coerced s v u y) (λ w t c.
        let x = c.0 in
        let o : InOrder t v = InOrder-as s t v y x.still x.known x.fresh in
        let same : t.pollers v ≡ _ = x.still ∙ y.order.object in
        let run = remove-item t v w x.struct o x.item in
        Returns-mono (rw (same, coerce_item t w x.struct x.item) at run) (λ a r h. h)
          (λ e r q. absurd q)))
