-- ===== src/Context/Members.antt =====
-- The sockets of a context as a list of members, of which any one may leave, and sockets that no
-- context owns any more.
use rbczmq.Base.{
  ℕ, ◌≤◌, arith, ◌≡◌, ◌≢◌, refl, sym, ◌∙◌, ap, ◌⊎◌, inl, inr, Bool, true, false, Option, none, some,
  List, [], ◌∷◌, length, Bool-cases, update, NotIn, erase_first, ok, ◌==◌, ==_iff, if◌then◌else◌,
}
use rbczmq.Czmq.{Ptr}
use rbczmq.Czmq.Zlist.{Zlist}
use rbczmq.Context.{closed, destroy_socket}
use rbczmq.Context.Closing.{Member, live, refs, sockets, Owned, Closed}
use rbczmq.Net.{Zsocket, ContextRef, null, nil, ref, Net, Sock}

-- The members without the first one whose reference is `u`.
abbrev pub without : ℕ → List Member → List Member
without u [] = []
without u (m ∷ ms) = let rest = without u ms in if m.ref == u then ms else m ∷ rest

pub refs-without : (u : ℕ) (ms : List Member) → refs (without u ms) ≡ erase_first u (refs ms)
refs-without u [] = refl
refs-without u (m ∷ ms) = elim (Bool-cases (m.ref == u)) [
  | inl e ↦ rw e refl
  | inr e ↦ rw e (ap (◌∷◌ m.ref) (refs-without u ms))
]

pub length-without : (u : ℕ) (ms : List Member) → length (without u ms) ≤ length ms
length-without u [] = omega arith
length-without u (m ∷ ms) = elim (Bool-cases (m.ref == u)) [
  | inl e ↦ rw e (omega arith)
  | inr e ↦ rw e (omega (arith, length-without u ms))
]

NotIn-refs-without :
    (q u : ℕ) (ms : List Member) → NotIn q (refs ms) → NotIn q (refs (without u ms))
NotIn-refs-without q u [] h = tt
NotIn-refs-without q u (m ∷ ms) h = elim (Bool-cases (m.ref == u)) [
  | inl e ↦ rw e h.1
  | inr e ↦ rw e (h.0, NotIn-refs-without q u ms h.1)
]

NotIn-sockets-without :
    (q : Ptr) (u : ℕ) (ms : List Member) → NotIn q (sockets ms) → NotIn q (sockets (without u ms))
NotIn-sockets-without q u [] h = tt
NotIn-sockets-without q u (m ∷ ms) h = elim (Bool-cases (m.ref == u)) [
  | inl e ↦ rw e h.1
  | inr e ↦ rw e (h.0, NotIn-sockets-without q u ms h.1)
]

-- Only `u` itself may be missing.
pub NotIn-back :
    (q u : ℕ) (ms : List Member) → q ≢ u → NotIn q (refs (without u ms)) → NotIn q (refs ms)
NotIn-back q u [] ne = λ h. tt
NotIn-back q u (m ∷ ms) ne = elim (Bool-cases (m.ref == u)) [
  | inl e ↦ rw e (λ h. (λ g. ne (g ∙ (==_iff m.ref u).0 e), h))
  | inr e ↦ rw e (λ h. (h.0, NotIn-back q u ms ne h.1))
]

module _ (socks : ℕ → Option Sock) (opened : Ptr → Bool) (v : ℕ) where
  -- The member with the reference `u`, apart from the others.
  pub record Found (u : ℕ) (ms : List Member) : Type 0 where
    pub member : Member
    pub same : member.ref ≡ u
    pub here : socks member.ref ≡ some (live v member)
    pub nonnull : member.ref ≢ 0
    pub pointers : (member.ctx ≢ 0) × (member.socket ≢ 0)
    pub is_open : opened member.socket ≡ true
    pub among : (p : Ptr) → NotIn p (sockets ms) → p ≢ member.socket
    pub no_ref : NotIn member.ref (refs (without u ms))
    pub no_socket : NotIn member.socket (sockets (without u ms))
    pub rest : Owned socks opened v (without u ms)

  pub member-cases :
      (u : ℕ) (ms : List Member) → Owned socks opened v ms → NotIn u (refs ms) ⊎ Found u ms
  member-cases u [] o = inl tt
  member-cases u (m ∷ ms) o = elim (Bool-cases (m.ref == u)) [
    | inl e ↦ inr (record {
      member = m;
      same = (==_iff m.ref u).0 e;
      here = o.0;
      nonnull = o.1;
      pointers = o.2;
      is_open = o.3;
      among = λ p h. h.0;
      no_ref = rw e o.4;
      no_socket = rw e o.5;
      rest = rw e o.6;
    })
    | inr e ↦ elim (member-cases u ms o.6) [
      | inl h ↦ inl (λ g. absurd (grind arith), h)
      | inr f ↦ inr (record {
        member = f.member;
        same = f.same;
        here = f.here;
        nonnull = f.nonnull;
        pointers = f.pointers;
        is_open = f.is_open;
        among = λ p h. f.among p h.1;
        no_ref = rw e (λ g. absurd (grind (arith, f.same)), f.no_ref);
        no_socket = rw e (λ g. f.among m.socket o.5 (sym g), f.no_socket);
        rest = rw e (
          o.0,
          o.1,
          o.2,
          o.3,
          NotIn-refs-without m.ref u ms o.4,
          NotIn-sockets-without m.socket u ms o.5,
          f.rest,
        );
      })
    ]
  ]

module _ {socks socks' : ℕ → Option Sock} {opened opened' : Ptr → Bool} (v : ℕ) where
  -- What other sockets do and a socket that is opened leave the members as they are.
  pub Owned-mono :
      (u : ℕ) (ms : List Member)
      → ((q : ℕ) → q ≢ u → socks' q ≡ socks q)
      → ((q : Ptr) → opened q ≡ true → opened' q ≡ true)
      → NotIn u (refs ms)
      → Owned socks opened v ms
      → Owned socks' opened' v ms
  Owned-mono u [] f g h o = tt
  Owned-mono u (m ∷ ms) f g h o = (
    f m.ref (λ e. h.0 (sym e)) ∙ o.0,
    o.1,
    o.2,
    g m.socket o.3,
    o.4,
    o.5,
    Owned-mono u ms f g h.1 o.6,
  )

module _ (socks : ℕ → Option Sock) (opened : Ptr → Bool) (v : ℕ) where
  -- A reference that is not in use is not a member's.
  pub NotIn-unused :
      (u : ℕ) (ms : List Member) → socks u ≡ none → Owned socks opened v ms → NotIn u (refs ms)
  NotIn-unused u [] h o = tt
  NotIn-unused u (m ∷ ms) h o = (λ e. cc (sym h ∙ (ap socks e ∙ o.0)), NotIn-unused u ms h o.6)

  -- A socket that is not open is not a member's.
  pub NotIn-shut :
      (p : Ptr) (ms : List Member)
      → opened p ≡ false
      → Owned socks opened v ms
      → NotIn p (sockets ms)
  NotIn-shut p [] h o = tt
  NotIn-shut p (m ∷ ms) h o = (λ e. cc (sym h ∙ (ap opened e ∙ o.3)), NotIn-shut p ms h o.6)

  -- Of members that are closed, every one is done with.
  pub closed-cases :
      (u : ℕ) (ms : List Member)
      → Closed socks opened v ms
      → NotIn u (refs ms) ⊎ ((m : Member) × (socks u ≡ some (closed (live v m))))
  closed-cases u [] h = inl tt
  closed-cases u (m ∷ ms) h = elim (Bool-cases (m.ref == u)) [
    | inl e ↦ inr (m, rw (← (==_iff m.ref u).0 e) h.0)
    | inr e ↦ elim (closed-cases u ms h.2) [
      | inl g ↦ inl (λ q. absurd (grind arith), g)
      | inr g ↦ inr g
    ]
  ]

-- A socket that no context owns: it has been destroyed, or it belongs to a beacon.
abbrev pub Done : Sock → Type 0
Done k = (k.destroyed ≡ true) ⊎ (k.context ≡ nil)

-- The struct with what decides the course of `rb_czmq_context_destroy_socket`.
abbrev with_fields : Sock → ContextRef → Option ℕ → Bool → Sock
with_fields k c w d = record k { context = c; ctx_wrapper = w; destroyed = d }

module _ {n : Zsocket} {z : Zlist} where
  destroy_fields :
      (s : Net n z) (u : ℕ) (k : Sock) (c : ContextRef) (w : Option ℕ) (d : Bool)
      → (u == 0) ≡ false
      → s.socks u ≡ some (with_fields k c w d)
      → Done (with_fields k c w d)
      → (destroy_socket u s ≡ ok tt s)
        ⊎ (destroy_socket u s
            ≡ ok tt (record s { socks = update s.socks u (some (closed (with_fields k c w d))) }))
  unfolding destroy_socket
  destroy_fields s u k null w d e here h = inl (rw e (rw here refl))
  destroy_fields s u k nil w d e here h = inr (rw e (rw here refl))
  destroy_fields s u k (ref v) none d e here h = inr (rw e (rw here refl))
  destroy_fields s u k (ref v) (some x) true e here h = elim (Bool-cases (k.ctx == 0)) [
    | inl q ↦ inr (rw e (rw here (rw q refl)))
    | inr q ↦ inr (rw e (rw here (rw q refl)))
  ]
  destroy_fields s u k (ref v) (some x) false e here (inl g) = absurd (grind arith)
  destroy_fields s u k (ref v) (some x) false e here (inr g) = absurd (grind arith)

  -- Destroying such a socket again calls nothing and touches no other struct.
  pub destroy_socket-Done :
      (s : Net n z) (u : ℕ) (k : Sock)
      → s.socks u ≡ some k
      → Done k
      → (destroy_socket u s ≡ ok tt s)
        ⊎ (destroy_socket u s ≡ ok tt (record s { socks = update s.socks u (some (closed k)) }))
  unfolding destroy_socket
  destroy_socket-Done s u k here d = elim (Bool-cases (u == 0)) [
    | inl e ↦ inl (rw e refl)
    | inr e ↦ destroy_fields s u k k.context k.ctx_wrapper k.destroyed e here d
  ]
