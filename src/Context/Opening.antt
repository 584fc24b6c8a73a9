-- ===== src/Context/Opening.antt =====
-- `ctx.socket` of ext/rbczmq/context.c: a new socket joins the list of its context.
use rbczmq.Base.{
  ==_apart, ne→==, subst, sym, ◌∙◌, ◌⊎◌, none, fault, ◌∷◌, ℕ, ◌+◌, ◌≡◌, ◌≢◌, refl, inl, inr, true,
  false, some, [], ℤ, Returns, returns, raises, Option-cases, Bool-cases, update, ◌==◌, ==_iff,
}
use rbczmq.Czmq.{Ptr}
use rbczmq.Czmq.Zlist.{Zlist}
use rbczmq.Context.{
  SocketClass, free_sock_gc, destroy_socket, socket, socket_alloc, alloc_as, context_wrapper,
  socket_klass,
}
use rbczmq.Context.Closing.{Member, live, alive}
use rbczmq.Net.{Zsocket, Closing, Opening, Net, pending}
use rbczmq.Objects.{Value, obj, int, is_sys_error}

-- The socket at `p` as a member of a context, whose struct in the library is `x`.
abbrev pub member : {n : Zsocket} {z : Zlist} → Net n z → (x p : Ptr) → Member
member s x p = record {
  ref = s.next;
  ctx = x;
  socket = p;
  verbose = false;
  state = pending;
  endpoints = [];
  thread = s.thread;
}

-- Where `zsocket_new` gives NULL, the type that is read off NULL has no class, so that no object is
-- made.
abbrev pub NullRefused : Zsocket → Type 0
NullRefused n =
    (x : Ptr) (type : ℤ) (w w' : n.World) (k : ℕ)
    → n.zsocket_new x type w ≡ some (0, w')
    → n.zsocket_type 0 w' ≡ some k
    → socket_klass k ≡ none

module _ {n : Zsocket} {z : Zlist} (laws : Closing n) where
  -- No struct has changed, and the library has closed no socket.
  pub record Kept (s t : Net n z) : Type 0 where
    pub socks : t.socks ≡ s.socks
    pub ctxs : t.ctxs ≡ s.ctxs
    pub processes : t.processes ≡ s.processes
    pub next : t.next ≡ s.next
    pub dangling : t.dangling ≡ s.dangling
    pub pid : t.pid ≡ s.pid
    pub opens : (q : Ptr) → laws.is_open s.world q ≡ true → laws.is_open t.world q ≡ true

  -- A new socket stands in front of the list `l` of the context `v`.
  pub record Opened (s t : Net n z) (v : ℕ) (x : Ptr) (owner : ℕ) (l : z.L) (r : Value)
      : Type 0 where
    pub socket : Ptr
    pub result : r ≡ obj s.next
    pub nonnull : socket ≢ 0
    pub closed_before : laws.is_open s.world socket ≡ false
    pub is_open : laws.is_open t.world socket ≡ true
    pub socks : t.socks ≡ update s.socks s.next (some (live v (member s x socket)))
    pub ctxs : t.ctxs ≡ update s.ctxs v (some (alive x owner (z.zlist_push s.next l)))
    pub processes : t.processes ≡ s.processes
    pub next : t.next ≡ s.next + 1
    pub dangling : t.dangling ≡ s.dangling
    pub pid : t.pid ≡ s.pid
    pub opens : (q : Ptr) → laws.is_open s.world q ≡ true → laws.is_open t.world q ≡ true

  -- No socket has been made. The struct of the object under the next reference has been freed, so
  -- that the collector will read a struct that is gone.
  pub record Lost (s t : Net n z) (x : Ptr) (type : ℤ) : Type 0 where
    pub world : n.World
    pub null : n.zsocket_new x type s.world ≡ some (0, world)
    pub kind : ℕ
    pub read : n.zsocket_type 0 world ≡ some kind
    pub klass : SocketClass
    pub known : socket_klass kind ≡ some klass
    pub socks : t.socks ≡ s.socks
    pub ctxs : t.ctxs ≡ s.ctxs
    pub processes : t.processes ≡ s.processes
    pub next : t.next ≡ s.next + 1
    pub dangling : t.dangling ≡ s.next ∷ s.dangling
    pub pid : t.pid ≡ s.pid
    pub opens : (q : Ptr) → laws.is_open s.world q ≡ true → laws.is_open t.world q ≡ true
    pub collected : s.next ≢ 0 → s.socks s.next ≡ none → free_sock_gc s.next t ≡ fault

  pub not-Lost :
      (s t : Net n z) (x : Ptr) (type : ℤ) → NullRefused n → Kept s t ⊎ Lost s t x type → Kept s t
  not-Lost s t x type refused (inl y) = y
  not-Lost s t x type refused (inr y) =
      absurd (cc (sym y.known ∙ refused x type s.world y.world y.kind y.null y.read))

module _ {n : Zsocket} {z : Zlist} (laws : Closing n) (opening : Opening laws) where
  pub socket_lem :
      (s : Net n z) (v : ℕ) (t : ℤ) (x : Ptr) (pid : ℕ) (l : z.L)
      → s.ctxs v ≡ some (alive x pid l)
      → Returns
          (λ r t'. (pid ≡ s.pid) × Opened laws s t' v x pid l r)
          (λ e t'. Kept laws s t' ⊎ Lost laws s t' x t)
          (socket v (int t) s)
  unfolding socket socket_alloc alloc_as context_wrapper free_sock_gc destroy_socket
  socket_lem s v t x pid l ctx =
      let (p, w, e, new, keeps) = opening.opens x t s.world in
      let (k, g) = opening.kind p w (λ h. (new h).1) in
      let lost : Kept laws s (record s { world = w }) = record {
        socks = refl;
        ctxs = refl;
        processes = refl;
        next = refl;
        dangling = refl;
        pid = refl;
        opens = keeps;
      } in
      let fallen : (c : SocketClass)
          → socket_klass k ≡ some c
          → (p == 0) ≡ true
          → Lost laws s (record s { world = w; dangling = s.next ∷ s.dangling; next = s.next + 1 })
              x t =
        λ c known null.
          (let zero : p ≡ 0 = (==_iff p 0).0 null in
            record {
              world = w;
              null = subst (λ q. n.zsocket_new x t s.world ≡ some (q, w)) zero e;
              kind = k;
              read = subst (λ q. n.zsocket_type q w ≡ some k) zero g;
              klass = c;
              known = known;
              socks = refl;
              ctxs = refl;
              processes = refl;
              next = refl;
              dangling = refl;
              pid = refl;
              opens = keeps;
              collected = λ nz free. rw (ne→== nz, free) refl;
            }) in
      rw ctx (elim (Bool-cases (pid == s.pid)) [
        | inr foreign ↦ rw foreign (
            raises (
              inl (record {
                socks = refl;
                ctxs = refl;
                processes = refl;
                next = refl;
                dangling = refl;
                pid = refl;
                opens = λ q h. h;
              })))
        | inl own ↦ rw own (
            rw e (
              rw g (elim (Option-cases (socket_klass k)) [
                | inl unknown ↦ rw unknown (raises (inl lost))
                | inr (c, known) ↦ rw known (elim (Bool-cases (p == 0)) [
                  | inl null ↦ rw null (elim (Bool-cases (is_sys_error (n.zmq_errno w))) [
                    | inl q ↦ rw q (raises (inr (fallen c known null)))
                    | inr q ↦ rw q (raises (inr (fallen c known null)))
                  ])
                  | inr some_p ↦
                      let nz : p ≢ 0 = ==_apart some_p in
                      rw some_p (
                        rw ctx (
                          rw ctx (
                            returns (
                              (==_iff pid s.pid).0 own,
                              record {
                                socket = p;
                                result = refl;
                                nonnull = nz;
                                closed_before = (new nz).0;
                                is_open = (new nz).1;
                                socks = refl;
                                ctxs = refl;
                                processes = refl;
                                next = refl;
                                dangling = refl;
                                pid = refl;
                                opens = keeps;
                              },
                            ))))
                ])
              ])))
      ])
