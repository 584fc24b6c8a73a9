-- ===== src/Socket/Lives.antt =====
-- The life of a context and of its sockets: ctx.socket, sock.close, ctx.destroy and the collector in
-- whatever order, by ext/rbczmq/context.c and ext/rbczmq/socket.c.
use rbczmq.Base.{
  ℕ, ◌≤◌, arith, ◌≡◌, ◌≢◌, refl, sym, subst, ◌∙◌, ap, ◌⊎◌, inl, inr, true, Option, none, some, List,
  [], ◌∷◌, Returns, Returns-mono, Bool-cases, update, NotIn, erase_first, ◌==◌, ==_apart, ==_self,
  ==_iff, ne→==,
}
use rbczmq.Context.{closed, destroy_socket}
use rbczmq.Context.Closing.{Member, live, alive, refs, Owned, Owned-frame, destroy_socket_lem}
use rbczmq.Context.Members.{
  without, refs-without, NotIn-back, Found, Done, Owned-mono, NotIn-unused, NotIn-shut,
}
use rbczmq.Context.Opening.{member, Kept, Opened}
use rbczmq.Czmq.{Ptr}
use rbczmq.Czmq.Zlist.{Zlist, ListLaws}
use rbczmq.Net.{Zsocket, Closing, Net, Sock}
use rbczmq.Objects.{Value}

-- Two structs at one reference are the same.
pub destroyed_of :
    (k' : Sock) {o : Option Sock} {k : Sock}
    → o ≡ some k
    → o ≡ some (closed k')
    → k.destroyed ≡ true
destroyed_of k' {o} {k} e g =
    let same : k ≡ closed k' = cc (e, g) in ap (λ (i : Sock). i.destroyed) same

module _ {n : Zsocket} {z : Zlist} (laws : Closing n) (lists : ListLaws z) where
  -- The context `v` is live and its list holds exactly its open sockets; every other socket object
  -- is done with, no reference from the next one on is in use, and no object has lost its struct.
  pub record Lives (s : Net n z) (v : ℕ) (ms : List Member) (x : Ptr) (p : ℕ) (l : z.L)
      : Type 0 where
    pub context : s.ctxs v ≡ some (alive x p l)
    pub nonnull : x ≢ 0
    pub items : lists.items l ≡ refs ms
    pub owned : Owned s.socks (laws.is_open s.world) v ms
    pub others : (u : ℕ) (k : Sock) → s.socks u ≡ some k → NotIn u (refs ms) → Done k
    pub fresh : (q : ℕ) → s.next ≤ q → s.socks q ≡ none
    pub positive : s.next ≢ 0
    pub sound : s.dangling ≡ []

  -- The context is destroyed or collected, and every socket object is done with.
  pub record Ended (s : Net n z) (v : ℕ) : Type 0 where
    pub context :
        (s.ctxs v ≡ none)
        ⊎ ((p : ℕ) × (s.ctxs v
              ≡ some (record { ctx = 0; destroyed = true; pid = p; sockets = none })))
    pub done : (u : ℕ) (k : Sock) → s.socks u ≡ some k → Done k
    pub sound : s.dangling ≡ []

  -- A member leaves, whatever its state.
  pub leave :
      (s : Net n z) (v u : ℕ) (ms : List Member) (x : Ptr) (p : ℕ) (l : z.L)
      (y : Lives s v ms x p l) (f : Found s.socks (laws.is_open s.world) v u ms) (st : ℕ)
      (socks : ℕ → Option Sock)
      → socks f.member.ref ≡ some (live v (record f.member { state = st }))
      → ((q : ℕ) → q ≢ f.member.ref → socks q ≡ s.socks q)
      → Returns
          (λ r t. Lives t v (without u ms) x p (z.zlist_remove f.member.ref l))
          (λ e t. ⊥)
          (destroy_socket f.member.ref (record s { socks = socks }))
  leave s v u ms x p l y f st socks here other =
      let m = f.member in
      let used : s.socks m.ref ≢ none = λ e. cc (sym e ∙ f.here) in
      Returns-mono
        (destroy_socket_lem laws lists (record s { socks = socks }) v (record m { state = st })
          f.nonnull l x p here f.pointers.0 f.pointers.1 f.is_open y.context)
        (λ r t d. record {
          context = rw (d.context, ==_self v);
          nonnull = y.nonnull;
          items =
              lists.items-remove m.ref l
              ∙ ap (erase_first m.ref) y.items
              ∙ ap (λ q. erase_first q (refs ms)) f.same
              ∙ sym (refs-without u ms);
          owned =
              Owned-frame v m.ref m.socket (without u ms) (λ q h. d.other_socks q h ∙ other q h)
                d.other_open f.no_ref f.no_socket f.rest;
          others = λ q k e out. elim (Bool-cases (q == m.ref)) [
            | inl g ↦ inl (
                destroyed_of (live v (record m { state = st })) e
                  (ap t.socks ((==_iff q m.ref).0 g) ∙ d.mark))
            | inr g ↦
                let ne : q ≢ m.ref = ==_apart g in
                y.others q k (sym (d.other_socks q ne ∙ other q ne) ∙ e)
                  (NotIn-back q u ms (λ h. ne (h ∙ sym f.same)) out)
          ];
          fresh = λ q h.
              let free = y.fresh q (omega (arith, h, d.next)) in
              let ne : q ≢ m.ref = λ g. used (ap s.socks (sym g) ∙ free) in
              d.other_socks q ne ∙ other q ne ∙ free;
          positive = λ h. y.positive (sym d.next ∙ h);
          sound = d.dangling ∙ y.sound;
        })
        (λ e t q. q)

  -- The collector takes the struct of an object that is no member.
  pub Lives-without :
      (s : Net n z) (v u : ℕ) (ms : List Member) (x : Ptr) (p : ℕ) (l : z.L)
      → NotIn u (refs ms)
      → Lives s v ms x p l
      → Lives (record s { socks = update s.socks u none }) v ms x p l
  Lives-without s v u ms x p l out y = record {
    context = y.context;
    nonnull = y.nonnull;
    items = y.items;
    owned = Owned-mono v u ms (λ q h. rw (ne→== h) refl) (λ q h. h) out y.owned;
    others = λ q k e h. y.others q k (back q k e) h;
    fresh = λ q h. elim (Bool-cases (q == u)) [ inl g ↦ rw g refl | inr g ↦ rw g (y.fresh q h) ];
    positive = y.positive;
    sound = y.sound;
  }
    where
      back : (q : ℕ) (k : Sock) → update s.socks u none q ≡ some k → s.socks q ≡ some k
      back q k = elim (Bool-cases (q == u)) [
        | inl g ↦ rw g (λ e. absurd (cc e))
        | inr g ↦ rw g (λ e. e)
      ]

  -- A struct that is done with is written.
  pub Lives-Done :
      (s : Net n z) (v u : ℕ) (k : Sock) (ms : List Member) (x : Ptr) (p : ℕ) (l : z.L)
      → NotIn u (refs ms)
      → s.socks u ≢ none
      → Done k
      → Lives s v ms x p l
      → Lives (record s { socks = update s.socks u (some k) }) v ms x p l
  Lives-Done s v u k ms x p l out used d y = record {
    context = y.context;
    nonnull = y.nonnull;
    items = y.items;
    owned = Owned-mono v u ms (λ q h. rw (ne→== h) refl) (λ q h. h) out y.owned;
    others = back;
    fresh = λ q h. elim (Bool-cases (q == u)) [
      | inl g ↦ absurd (used (ap s.socks (sym ((==_iff q u).0 g)) ∙ y.fresh q h))
      | inr g ↦ rw g (y.fresh q h)
    ];
    positive = y.positive;
    sound = y.sound;
  }
    where
      back : (q : ℕ) (i : Sock) → update s.socks u (some k) q ≡ some i → NotIn q (refs ms) → Done i
      back q i = elim (Bool-cases (q == u)) [
        | inl g ↦ rw g (λ e h. let same : k ≡ i = cc e in subst Done same d)
        | inr g ↦ rw g (λ e h. y.others q i e h)
      ]

  -- A new socket joins the members, and a call that fails changes none.
  pub join :
      (s t : Net n z) (v : ℕ) (ms : List Member) (x : Ptr) (p : ℕ) (l : z.L) (r : Value)
      → Lives s v ms x p l
      → (d : Opened laws s t v x p l r)
      → Lives t v (member s x d.socket ∷ ms) x p (z.zlist_push s.next l)
  join s t v ms x p l r y d = record {
    context = rw (d.ctxs, ==_self v) refl;
    nonnull = y.nonnull;
    items = lists.items-push s.next l ∙ ap (◌∷◌ s.next) y.items;
    owned = (
      rw (d.socks, ==_self s.next) refl,
      y.positive,
      (y.nonnull, d.nonnull),
      d.is_open,
      out,
      NotIn-shut s.socks (laws.is_open s.world) v d.socket ms d.closed_before y.owned,
      Owned-mono v s.next ms (λ q h. rw (d.socks, ne→== h) refl) d.opens out y.owned,
    );
    others = λ q k e h. y.others q k (sym (rw (d.socks, ne→== h.0) refl) ∙ e) h.1;
    fresh = λ q h.
        let ne : q ≢ s.next = λ g. absurd (omega (arith, h, d.next, g)) in
        rw (d.socks, ne→== ne) (y.fresh q (omega (arith, h, d.next)));
    positive = λ h. absurd (omega (arith, h, d.next));
    sound = d.dangling ∙ y.sound;
  }
    where
      out : NotIn s.next (refs ms)
      out =
          NotIn-unused s.socks (laws.is_open s.world) v s.next ms (y.fresh s.next (omega arith))
            y.owned

  pub stay :
      (s t : Net n z) (v : ℕ) (ms : List Member) (x : Ptr) (p : ℕ) (l : z.L)
      → Lives s v ms x p l
      → Kept laws s t
      → Lives t v ms x p l
  stay s t v ms x p l y d = record {
    context = ap (λ f. f v) d.ctxs ∙ y.context;
    nonnull = y.nonnull;
    items = y.items;
    owned =
        Owned-mono v s.next ms (λ q h. ap (λ f. f q) d.socks) d.opens
          (NotIn-unused s.socks (laws.is_open s.world) v s.next ms (y.fresh s.next (omega arith))
            y.owned)
          y.owned;
    others = λ q k e h. y.others q k (sym (ap (λ f. f q) d.socks) ∙ e) h;
    fresh = λ q h. ap (λ f. f q) d.socks ∙ y.fresh q (omega (arith, h, d.next));
    positive = λ h. y.positive (sym d.next ∙ h);
    sound = d.dangling ∙ y.sound;
  }
