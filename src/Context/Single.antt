-- ===== src/Context/Single.antt =====
-- One context to a process, and the way back: destroying the context lets the process make another.
use rbczmq.Base.{
  ℕ, ◌+◌, ◌<◌, ◌≡◌, ◌≢◌, refl, inl, inr, none, some, List, length, zmq_error, raise, Returns,
  returns, raises, Returns-bind, Returns-mono, Bool-cases, ◌==◌, ==_apart, ==_self, ==_iff, ne→==,
}
use rbczmq.Czmq.{Ptr}
use rbczmq.Czmq.Zlist.{Zlist, ListLaws}
use rbczmq.Context.{s_new, destroy}
use rbczmq.Context.Closing.{Member, alive, refs, Owned}
use rbczmq.Context.Freeing.{Freed, free_ctx_lem}
use rbczmq.Net.{Zsocket, Closing, Net}
use rbczmq.Objects.{Value, qnil, obj}

module _ {n : Zsocket} {z : Zlist} (laws : Closing n) (lists : ListLaws z) where
  -- In a process without a context, where the library makes one, ZMQ::Context.new without an
  -- argument returns a new live context of the process with an empty list and changes no socket,
  -- and every further ZMQ::Context.new in that process raises a ZMQ::Error and changes nothing.
  pub s_new_lem :
      (s : Net n z)
      → s.processes s.pid ≡ none
      → (n.zctx_new s.world).0 ≢ 0
      → Returns
          (λ r t.
            (r ≡ obj s.next)
            × (t.processes s.pid ≡ some s.next)
            × (t.ctxs s.next ≡ some (alive (n.zctx_new s.world).0 s.pid z.zlist_new))
            × (t.socks ≡ s.socks)
            × (t.next ≡ s.next + 1)
            × (t.dangling ≡ s.dangling)
            × ((i : Value) → s_new i t ≡ raise zmq_error t))
          (λ e t. ⊥)
          (s_new qnil s)
  unfolding s_new
  s_new_lem s free made =
      let (w, e) = laws.linger_new s.world made in
      rw free (
        rw e (
          rw (ne→== made) (
            returns (
              refl,
              rw (==_self s.pid),
              rw (==_self s.next),
              refl,
              refl,
              refl,
              λ i. rw (==_self s.pid) refl,
            ))))

  -- destroy of a live context whose list holds exactly its open sockets, each once, with more fuel
  -- than sockets, frees the context as stated there and returns nil if its process runs, after
  -- which a further destroy raises a ZMQ::Error; in any other process it raises a ZMQ::Error and
  -- changes nothing.
  pub destroy_frees :
      (f : ℕ) (s : Net n z) (v : ℕ) (ms : List Member) (x : Ptr) (p : ℕ) (l : z.L)
      → s.ctxs v ≡ some (alive x p l)
      → lists.items l ≡ refs ms
      → Owned s.socks (laws.is_open s.world) v ms
      → length ms < f
      → Returns
          (λ r t.
            (r ≡ qnil)
            × (p ≡ s.pid)
            × Freed laws lists s t v ms p
            × ((g : ℕ) → destroy g v t ≡ raise zmq_error t))
          (λ e t. (e ≡ zmq_error) × (p ≢ s.pid) × (t ≡ s))
          (destroy f v s)
  unfolding destroy
  destroy_frees f s v ms x p l ctx items o h = rw ctx (elim (Bool-cases (p == s.pid)) [
    | inl own ↦ rw own (
        Returns-bind
          (Returns-mono (free_ctx_lem laws lists f s v ms x p l ctx items o h) (λ r t d. d)
            (λ e t q. absurd q))
          λ r t d. returns (refl, (==_iff p s.pid).0 own, d, λ g. rw d.context refl))
    | inr foreign ↦ rw foreign (raises (refl, ==_apart foreign, refl))
  ])
