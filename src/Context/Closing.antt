-- ===== src/Context/Closing.antt =====
-- The sockets of a context are closed once each, in whatever order the context and its sockets are
-- closed or collected.
use rbczmq.Base.{
  ℕ, zero, suc, ◌<◌, ◌≡◌, ◌≢◌, refl, sym, ◌∙◌, ap, Bool, true, false, Option, some, List, [], ◌∷◌,
  length, Returns, returns, Returns-bind, Returns-mono, update, NotIn, erase_first, arith, ==_self,
  ne→==, head_or, tail,
}
use rbczmq.Czmq.{Ptr, Bytes}
use rbczmq.Czmq.Zlist.{Zlist, ListLaws}
use rbczmq.Context.{closed, destroy_socket, destroy_sockets}
use rbczmq.Net.{Zsocket, Closing, Net, Sock, Ctx, ref}

-- A socket object of a context: its reference, and the members of its struct that a context does
-- not fix.
pub record Member : Type 0 where
  pub ref : ℕ
  pub ctx : Ptr
  pub socket : Ptr
  pub verbose : Bool
  pub state : ℕ
  pub endpoints : List Bytes
  pub thread : ℕ

-- The struct of a socket of context `v` that has not been closed.
abbrev pub live : ℕ → Member → Sock
live v m = record {
  ctx = m.ctx;
  socket = m.socket;
  ctx_wrapper = some v;
  destroyed = false;
  verbose = m.verbose;
  state = m.state;
  endpoints = m.endpoints;
  thread = m.thread;
  context = ref v;
}

-- The struct of a context that has not been destroyed.
abbrev pub alive : {z : Zlist} → Ptr → ℕ → z.L → Ctx z
alive x pid l = record { ctx = x; destroyed = false; pid = pid; sockets = some l }

abbrev pub refs : List Member → List ℕ
refs [] = []
refs (m ∷ ms) = m.ref ∷ refs ms

abbrev pub sockets : List Member → List Ptr
sockets [] = []
sockets (m ∷ ms) = m.socket ∷ sockets ms

-- The members are live and open sockets of context `v`, and none stands twice.
abbrev pub Owned : (ℕ → Option Sock) → (Ptr → Bool) → ℕ → List Member → Type 0
Owned socks opened v [] = Unit
Owned socks opened v (m ∷ ms) =
    (socks m.ref ≡ some (live v m))
    × (m.ref ≢ 0)
    × ((m.ctx ≢ 0) × (m.socket ≢ 0))
    × (opened m.socket ≡ true)
    × NotIn m.ref (refs ms)
    × NotIn m.socket (sockets ms)
    × Owned socks opened v ms

-- The members are marked as destroyed, and their sockets are closed in the library.
abbrev pub Closed : (ℕ → Option Sock) → (Ptr → Bool) → ℕ → List Member → Type 0
Closed socks opened v [] = Unit
Closed socks opened v (m ∷ ms) =
    (socks m.ref ≡ some (closed (live v m))) × (opened m.socket ≡ false) × Closed socks opened v ms

erase_absent : (u : ℕ) (us : List ℕ) → NotIn u us → erase_first u us ≡ us
erase_absent u [] h = refl
erase_absent u (w ∷ us) h = rw (ne→== (λ e. h.0 (sym e))) (ap (◌∷◌ w) (erase_absent u us h.1))

pub Owned-frame :
    {socks socks' : ℕ → Option Sock} {opened opened' : Ptr → Bool} (v u : ℕ) (p : Ptr)
    (ms : List Member)
    → ((q : ℕ) → q ≢ u → socks' q ≡ socks q)
    → ((q : Ptr) → q ≢ p → opened' q ≡ opened q)
    → NotIn u (refs ms)
    → NotIn p (sockets ms)
    → Owned socks opened v ms
    → Owned socks' opened' v ms
Owned-frame v u p [] f g a b o = tt
Owned-frame v u p (m ∷ ms) f g a b o = (
  f m.ref (λ e. a.0 (sym e)) ∙ o.0,
  o.1,
  o.2,
  g m.socket (λ e. b.0 (sym e)) ∙ o.3,
  o.4,
  o.5,
  Owned-frame v u p ms f g a.1 b.1 o.6,
)

module _ {n : Zsocket} {z : Zlist} (laws : Closing n) (lists : ListLaws z) where
  -- What the destruction of one socket leaves.
  pub record Destroyed (s t : Net n z) (v : ℕ) (m : Member) (l : z.L) (x : Ptr) (p : ℕ)
      : Type 0 where
    pub mark : t.socks m.ref ≡ some (closed (live v m))
    pub shut : laws.is_open t.world m.socket ≡ false
    pub other_socks : (q : ℕ) → q ≢ m.ref → t.socks q ≡ s.socks q
    pub other_open : (q : Ptr) → q ≢ m.socket → laws.is_open t.world q ≡ laws.is_open s.world q
    pub context : t.ctxs ≡ update s.ctxs v (some (alive x p (z.zlist_remove m.ref l)))
    pub processes : t.processes ≡ s.processes
    pub pid : t.pid ≡ s.pid
    pub next : t.next ≡ s.next
    pub dangling : t.dangling ≡ s.dangling

  module _ (s : Net n z) (v : ℕ) (m : Member) (nz : m.ref ≢ 0) where
    -- Closing a live and open socket, whose reference, socket and context in the library are not
    -- NULL, closes it in the library, marks it as destroyed and takes it from its context's list;
    -- every other socket, the context's other members and the table of processes stay as they
    -- were. It raises nothing.
    pub destroy_socket_lem :
        (l : z.L) (x : Ptr) (pid : ℕ)
        → s.socks m.ref ≡ some (live v m)
        → m.ctx ≢ 0
        → m.socket ≢ 0
        → laws.is_open s.world m.socket ≡ true
        → s.ctxs v ≡ some (alive x pid l)
        → Returns (λ r t. Destroyed s t v m l x pid) (λ e t. ⊥) (destroy_socket m.ref s)
    unfolding destroy_socket
    destroy_socket_lem l x pid here nc ns opened ctx =
        let (w, e, f) = laws.close m.ctx m.socket s.world opened in
        rw (ne→== nz, here)
          (rw (ne→== nc, ctx, ne→== ns, e)
            (returns (record {
              mark = rw (==_self m.ref);
              shut = f m.socket ∙ rw (==_self m.socket);
              other_socks = λ q h. rw (ne→== h);
              other_open = λ q h. f q ∙ rw (ne→== h);
              context = refl;
              processes = refl;
              pid = refl;
              next = refl;
              dangling = refl;
            })))

    -- Closing a socket that is marked as destroyed, by a second call or by the collector, calls
    -- the library no more and changes no context. It raises nothing.
    destroy_socket_twice :
        s.socks m.ref ≡ some (closed (live v m))
        → Returns
            (λ r t.
              (t.world ≡ s.world)
              × ((t.socks m.ref ≡ some (closed (live v m))) × (t.ctxs ≡ s.ctxs)))
            (λ e t. ⊥)
            (destroy_socket m.ref s)
    unfolding destroy_socket
    destroy_socket_twice here = rw (ne→== nz, here) (returns (refl, (rw (==_self m.ref), refl)))

  -- What the loop leaves: the members closed, and every other socket as it was.
  pub record Emptied (s t : Net n z) (v : ℕ) (ms : List Member) (x : Ptr) (p : ℕ) : Type 0 where
    pub marks : Closed t.socks (laws.is_open t.world) v ms
    pub other_socks : (q : ℕ) → NotIn q (refs ms) → t.socks q ≡ s.socks q
    pub other_open :
        (q : Ptr) → NotIn q (sockets ms) → laws.is_open t.world q ≡ laws.is_open s.world q
    pub list : z.L
    pub context : t.ctxs v ≡ some (alive x p list)
    pub empty : lists.items list ≡ []
    pub processes : t.processes ≡ s.processes
    pub pid : t.pid ≡ s.pid
    pub dangling : t.dangling ≡ s.dangling

  -- The loop closes every socket of the list, given fuel for each of them and one round more.
  pub destroy_sockets_lem :
      (f : ℕ) (s : Net n z) (v : ℕ) (ms : List Member) (x : Ptr) (p : ℕ) (l : z.L)
      → s.ctxs v ≡ some (alive x p l)
      → lists.items l ≡ refs ms
      → Owned s.socks (laws.is_open s.world) v ms
      → length ms < f
      → Returns (λ r t. Emptied s t v ms x p) (λ e t. ⊥) (destroy_sockets f v s)
  unfolding destroy_sockets
  destroy_sockets_lem zero s v ms x p l ctx items o h = absurd (omega arith)
  destroy_sockets_lem (suc f) s v [] x p l ctx items o h =
      let got = lists.pop_value l ∙ ap (head_or 0) items in
      rw ctx (
        rw got (
          returns (record {
            marks = tt;
            other_socks = λ q _. refl;
            other_open = λ q _. refl;
            list = (z.zlist_pop l).1;
            context = rw (==_self v);
            empty = lists.items-pop l ∙ ap tail items;
            processes = refl;
            pid = refl;
            dangling = refl;
          })))
  destroy_sockets_lem (suc f) s v (m ∷ ms) x p l ctx items o h =
      let got : (z.zlist_pop l).0 ≡ m.ref = lists.pop_value l ∙ ap (head_or 0) items in
      let l₁ = (z.zlist_pop l).1 in
      let left : lists.items l₁ ≡ refs ms = lists.items-pop l ∙ ap tail items in
      rw ctx (
        rw got (
          rw (ne→== o.1) (
            Returns-bind (destroy_socket_lem _ v m o.1 l₁ x p o.0 o.2.0 o.2.1 o.3 (rw (==_self v)))
              λ r t d.
                Returns-mono
                  (destroy_sockets_lem f t v ms x p (z.zlist_remove m.ref l₁)
                    (rw (d.context, ==_self v))
                    (lists.items-remove m.ref l₁
                      ∙ ap (erase_first m.ref) left
                      ∙ erase_absent m.ref (refs ms) o.4)
                    (Owned-frame v m.ref m.socket ms d.other_socks d.other_open o.4 o.5 o.6)
                    (omega arith))
                  (λ r' t' e. record {
                    marks = (
                      e.other_socks m.ref o.4 ∙ d.mark,
                      e.other_open m.socket o.5 ∙ d.shut,
                      e.marks,
                    );
                    other_socks = λ q g. e.other_socks q g.1 ∙ d.other_socks q g.0;
                    other_open = λ q g. e.other_open q g.1 ∙ d.other_open q g.0;
                    list = e.list;
                    context = e.context;
                    empty = e.empty;
                    processes = e.processes ∙ d.processes;
                    pid = e.pid ∙ d.pid;
                    dangling = e.dangling ∙ d.dangling;
                  })
                  (λ e' t' q. q))))
