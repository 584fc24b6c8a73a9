-- ===== src/Socket/Ended.antt =====
-- What sock.close, ctx.socket, ctx.destroy and the collector do after a context has ended, by
-- ext/rbczmq/context.c and ext/rbczmq/socket.c.
use rbczmq.Base.{
  ℕ, ◌≡◌, refl, subst, inl, inr, none, some, Returns, returns, Bool-cases, Option-cases, update,
  ◌==◌, ==_self,
}
use rbczmq.Context.{free_ctx_gc, destroy, socket}
use rbczmq.Context.Members.{Done}
use rbczmq.Czmq.Zlist.{Zlist, ListLaws}
use rbczmq.Net.{Zsocket, Closing, Net, Sock}
use rbczmq.Socket.{close}
use rbczmq.Socket.Idle.{free_Done, close_Done}
use rbczmq.Socket.Lives.{Ended}
use rbczmq.Socket.Steps.{holds-none, Op, perform, Returns-rescued}

module _ {n : Zsocket} {z : Zlist} (laws : Closing n) (lists : ListLaws z) where
  Ended-put :
      (t : Net n z) (v u : ℕ) (i : Sock)
      → Ended laws lists t v
      → Done i
      → Ended laws lists (record t { socks = update t.socks u (some i) }) v
  Ended-put t v u i y d = record {
    context = y.context;
    done = λ q k. elim (Bool-cases (q == u)) [
      | inl g ↦ rw g (λ e. let same : i ≡ k = cc e in subst Done same d)
      | inr g ↦ rw g (λ e. y.done q k e)
    ];
    sound = y.sound;
  }

  Ended-drop :
      (t : Net n z) (v u : ℕ)
      → Ended laws lists t v
      → Ended laws lists (record t { socks = update t.socks u none }) v
  Ended-drop t v u y = record {
    context = y.context;
    done = λ q k. elim (Bool-cases (q == u)) [
      | inl g ↦ rw g (λ e. absurd (cc e))
      | inr g ↦ rw g (λ e. y.done q k e)
    ];
    sound = y.sound;
  }

  -- Nothing brings a context back.
  pub Ended-step :
      (f : ℕ) (s : Net n z) (v : ℕ) (o : Op)
      → Ended laws lists s v
      → Returns (λ r t. Ended laws lists t v) (λ e t. ⊥) (perform f v o s)
  unfolding socket close destroy free_ctx_gc
  Ended-step f s v (Op.opens t) y = elim y.context [
    | inl e ↦ rw e (returns y)
    | inr (p, e) ↦ rw e (returns y)
  ]
  Ended-step f s v (Op.closes u) y = elim (Option-cases (s.socks u)) [
    | inl e ↦ rw e (returns y)
    | inr (k, e) ↦
        Returns-rescued (λ t. Ended laws lists t v)
          (close_Done u (λ t. Ended laws lists t v) (λ t i q g d. Ended-put t v u i q d)
            (λ t q. Ended-drop t v u q) s k k.destroyed y e (y.done u k e))
          (λ r t q. q) (λ e t q. q)
  ]
  Ended-step f s v (Op.collects u) y = elim (Option-cases (s.socks u)) [
    | inl e ↦ rw (holds-none u s.dangling y.sound, e) (returns y)
    | inr (k, e) ↦
        rw (holds-none u s.dangling y.sound, e)
          (free_Done u (λ t. Ended laws lists t v) (λ t i q g d. Ended-put t v u i q d)
            (λ t q. Ended-drop t v u q) s k y e (y.done u k e))
  ]
  Ended-step f s v Op.destroys y = elim y.context [
    | inl e ↦ rw e (returns y)
    | inr (p, e) ↦ rw e (returns y)
  ]
  Ended-step f s v Op.collects_context y = elim y.context [
    | inl e ↦ rw e (returns y)
    | inr (p, e) ↦ rw e (
        rw e (
          returns (record { context = inl (rw (==_self v) refl); done = y.done; sound = y.sound })))
  ]
  Ended-step f s v (Op.forks p) y =
      returns (record { context = y.context; done = y.done; sound = y.sound })
  Ended-step f s v (Op.enters th) y =
      returns (record { context = y.context; done = y.done; sound = y.sound })
