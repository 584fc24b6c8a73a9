-- ===== src/Context/Freeing.antt =====
-- `rb_czmq_free_ctx` of ext/rbczmq/context.c, the end of a context.
use rbczmq.Base.{
  ℕ, ◌<◌, ◌≡◌, ◌≢◌, refl, ◌∙◌, ap, Bool, true, false, Option, none, some, List, [], ◌∷◌, length,
  Bool-cases, inl, inr, Returns, returns, Returns-bind, NotIn, ◌==◌, ==_self, ne→==,
}
use rbczmq.Czmq.{Ptr}
use rbczmq.Czmq.Zlist.{Zlist, ListLaws}
use rbczmq.Context.{zctx_destroy, free_ctx}
use rbczmq.Net.{Zsocket, Closing, Net, Sock}
use rbczmq.Context.Closing.{Member, alive, refs, Owned, Closed, destroy_sockets_lem}

module _ {n : Zsocket} {z : Zlist} (laws : Closing n) (lists : ListLaws z) where
  -- Freeing a context closes each of its sockets, and touches no socket that is not its own.
  pub record Freed (s t : Net n z) (v : ℕ) (ms : List Member) (p : ℕ) : Type 0 where
    pub marks : Closed t.socks (laws.is_open t.world) v ms
    pub other_socks : (q : ℕ) → NotIn q (refs ms) → t.socks q ≡ s.socks q
    pub context : t.ctxs v ≡ some (record { ctx = 0; destroyed = true; pid = p; sockets = none })
    pub process : t.processes p ≡ none
    pub other_process : (q : ℕ) → q ≢ p → t.processes q ≡ s.processes q
    pub dangling : t.dangling ≡ s.dangling

  Closed-shut :
      (socks socks' : ℕ → Option Sock) (opened opened' : Ptr → Bool) (v : ℕ) (ms : List Member)
      → ((q : ℕ) → socks' q ≡ socks q)
      → ((q : Ptr) → opened q ≡ false → opened' q ≡ false)
      → Closed socks opened v ms
      → Closed socks' opened' v ms
  Closed-shut socks socks' opened opened' v [] g f h = tt
  Closed-shut socks socks' opened opened' v (m ∷ ms) g f h =
      (g m.ref ∙ h.0, f m.socket h.1, Closed-shut socks socks' opened opened' v ms g f h.2)

  destroy_library :
      (s : Net n z) (v : ℕ) (x : Ptr) (p : ℕ) (l : z.L)
      → s.ctxs v ≡ some (alive x p l)
      → Returns
          (λ r t.
            (t.socks ≡ s.socks)
            × (t.processes ≡ s.processes)
            × (t.ctxs v ≡ some (record { ctx = x; destroyed = true; pid = p; sockets = some l }))
            × ((q : Ptr) → laws.is_open s.world q ≡ false → laws.is_open t.world q ≡ false)
            × (t.dangling ≡ s.dangling))
          (λ e t. ⊥)
          (zctx_destroy v s)
  unfolding zctx_destroy
  destroy_library s v x p l ctx =
      let (w, e, f) = laws.close_ctx x s.world in
      rw ctx (elim (Bool-cases (p == s.pid)) [
        | inl own ↦ rw own (rw e (returns (refl, refl, rw (==_self v), f, refl)))
        | inr foreign ↦ rw foreign (returns (refl, refl, rw (==_self v), (λ q h. h), refl))
      ])

  -- Freeing a live context whose list holds exactly its open sockets, each once, with more fuel
  -- than sockets, is defined, so no socket is closed twice: afterwards every one of them is closed
  -- in the library and marked as destroyed, no other socket object has changed, the context is
  -- marked as destroyed, its process may make a context again, and the entries of other processes
  -- are as before.
  pub free_ctx_lem :
      (f : ℕ) (s : Net n z) (v : ℕ) (ms : List Member) (x : Ptr) (p : ℕ) (l : z.L)
      → s.ctxs v ≡ some (alive x p l)
      → lists.items l ≡ refs ms
      → Owned s.socks (laws.is_open s.world) v ms
      → length ms < f
      → Returns (λ r t. Freed s t v ms p) (λ e t. ⊥) (free_ctx f v s)
  unfolding free_ctx
  free_ctx_lem f s v ms x p l ctx items o h =
      Returns-bind (destroy_sockets_lem laws lists f s v ms x p l ctx items o h) λ r t d.
        Returns-bind (destroy_library t v x p d.list d.context) λ r' t' e. rw e.2 (
          returns (record {
            marks = Closed-shut _ _ _ _ v ms (λ q. ap (λ k. k q) e.0) e.3 d.marks;
            other_socks = λ q g. ap (λ k. k q) e.0 ∙ d.other_socks q g;
            context = rw (==_self v);
            process = rw (==_self p);
            other_process = λ q g. rw (ne→== g) (ap (λ k. k q) (e.1 ∙ d.processes));
            dangling = e.4 ∙ d.dangling;
          }))
