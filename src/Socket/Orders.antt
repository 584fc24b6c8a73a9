-- ===== src/Socket/Orders.antt =====
-- Every order in which sockets of a context are made and closed, and sockets and context are
-- destroyed and collected, by ext/rbczmq/context.c and ext/rbczmq/socket.c.
use rbczmq.Base.{
  ℕ, suc, ◌+◌, ◌≤◌, ◌<◌, arith, ◌≡◌, ◌≢◌, sym, ◌∙◌, ap, inl, inr, none, some, List, [], ◌∷◌, length,
  Returns, returns, Returns-bind, Returns-mono, Option-cases, ◌>>◌,
}
use rbczmq.Context.{s_new}
use rbczmq.Context.Closing.{Member}
use rbczmq.Context.Members.{Done}
use rbczmq.Context.Opening.{NullRefused, not-Lost, socket_lem}
use rbczmq.Context.Single.{s_new_lem}
use rbczmq.Czmq.{Ptr}
use rbczmq.Czmq.Zlist.{Zlist, ListLaws}
use rbczmq.Net.{Zsocket, Closing, Opening, Net, Sock}
use rbczmq.Objects.{qnil}
use rbczmq.Socket.Ended.{Ended-step}
use rbczmq.Socket.Lives.{Lives, Ended, join, stay}
use rbczmq.Socket.Steps.{
  holds-none, Op, perform, perform_all, Returns-rescued, destroy-Lives, free_ctx_gc-Lives,
  free_sock_gc-Lives, close-Lives,
}

module _ {n : Zsocket} {z : Zlist} (laws : Closing n) (lists : ListLaws z) where
  -- The context lives, with at most `b` sockets, or has ended.
  pub data Proper (s : Net n z) (v b : ℕ) : Type 0 where
    lives :
        {ms : List Member} {x : Ptr} {p : ℕ} {l : z.L}
        → Lives laws lists s v ms x p l
        → length ms ≤ b
        → Proper s v b
    ended : Ended laws lists s v → Proper s v b

  -- Another process or thread runs.
  turn :
      (s : Net n z) (v : ℕ) (ms : List Member) (x : Ptr) (p : ℕ) (l : z.L)
      → Lives laws lists s v ms x p l
      → (pid thread : ℕ) → Lives laws lists (record s { pid = pid; thread = thread }) v ms x p l
  turn s v ms x p l y pid thread = record {
    context = y.context;
    nonnull = y.nonnull;
    items = y.items;
    owned = y.owned;
    others = y.others;
    fresh = y.fresh;
    positive = y.positive;
    sound = y.sound;
  }

  Proper-mono : (s : Net n z) (v a b : ℕ) → a ≤ b → Proper s v a → Proper s v b
  Proper-mono s v a b h (lives y k) = lives y (omega arith)
  Proper-mono s v a b h (ended y) = ended y

module _ {n : Zsocket} {z : Zlist} (laws : Closing n) (lists : ListLaws z) (opening : Opening laws)
    (refused : NullRefused n) where
  -- One step of a context that lives adds at most one socket.
  Lives-step :
      (f : ℕ) (s : Net n z) (v : ℕ) (o : Op) (ms : List Member) (x : Ptr) (p : ℕ) (l : z.L)
      → Lives laws lists s v ms x p l
      → length ms < f
      → Returns (λ r t. Proper laws lists t v (suc (length ms))) (λ e t. ⊥) (perform f v o s)
  Lives-step f s v (Op.opens t) ms x p l y h =
      Returns-rescued (λ t'. Proper laws lists t' v (suc (length ms)))
        (socket_lem laws opening s v t x p l y.context)
        (λ r t' d. lives (join laws lists s t' v ms x p l r y d.1) (omega arith))
        (λ e t' d.
          lives (stay laws lists s t' v ms x p l y (not-Lost laws s t' x t refused d))
            (omega arith))
  Lives-step f s v (Op.closes u) ms x p l y h =
      Returns-rescued (λ t. Proper laws lists t v (suc (length ms)))
        (close-Lives laws lists s v ms x p l y u) (λ r t d. lives d.2 (omega (arith, d.3)))
        (λ e t d. lives d.2 (omega (arith, d.3)))
  Lives-step f s v (Op.collects u) ms x p l y h = elim (Option-cases (s.socks u)) [
    | inl e ↦ rw (holds-none u s.dangling y.sound, e) (returns (lives y (omega arith)))
    | inr (k, e) ↦
        rw (holds-none u s.dangling y.sound, e)
          (Returns-mono (free_sock_gc-Lives laws lists s v ms x p l y u k e)
            (λ r t d. lives d.2 (omega (arith, d.3))) (λ e t q. q))
  ]
  Lives-step f s v Op.destroys ms x p l y h =
      Returns-rescued (λ t. Proper laws lists t v (suc (length ms)))
        (destroy-Lives laws lists s v ms x p l y f h) (λ r t d. ended d)
        (λ e t d. lives d (omega arith))
  Lives-step f s v Op.collects_context ms x p l y h = rw (y.context) (
      Returns-mono (free_ctx_gc-Lives laws lists s v ms x p l y f h) (λ r t d. ended d)
        (λ e t q. q))
  Lives-step f s v (Op.forks q) ms x p l y h =
      returns (lives (turn laws lists s v ms x p l y q s.thread) (omega arith))
  Lives-step f s v (Op.enters q) ms x p l y h =
      returns (lives (turn laws lists s v ms x p l y s.pid q) (omega arith))

  step-Proper :
      (f b : ℕ) (s : Net n z) (v : ℕ) (o : Op)
      → Proper laws lists s v b
      → b < f
      → Returns (λ r t. Proper laws lists t v (suc b)) (λ e t. ⊥) (perform f v o s)
  step-Proper f b s v o (ended y) h =
      Returns-mono (Ended-step laws lists f s v o y) (λ r t d. ended d) (λ e t q. q)
  step-Proper f b s v o (lives {ms} {x} {p} {l} y k) h =
      Returns-mono (Lives-step f s v o ms x p l y (omega arith))
        (λ r t d. Proper-mono laws lists t v (suc (length ms)) (suc b) (omega arith) d) (λ e t q. q)

  perform_all-Proper :
      (f b : ℕ) (s : Net n z) (v : ℕ) (os : List Op)
      → Proper laws lists s v b
      → b + length os < f
      → Returns (λ r t. Proper laws lists t v (b + length os)) (λ e t. ⊥) (perform_all f v os s)
  perform_all-Proper f b s v [] y h = returns (Proper-mono laws lists s v b (b + 0) (omega arith) y)
  perform_all-Proper f b s v (o ∷ os) y h =
      Returns-bind (step-Proper f b s v o y (omega arith)) λ r t d.
        Returns-mono (perform_all-Proper f (suc b) t v os d (omega arith))
          (λ r' t' q.
            Proper-mono laws lists t' v (suc b + length os) (b + suc (length os)) (omega arith) q)
          (λ e t' q. q)

  -- After ZMQ::Context.new in a process without a context, where the library makes one, every
  -- socket object is done with, that is, destroyed or a beacon's, no object has lost its struct,
  -- and no reference from the next one on is in use, any sequence of ctx.socket, sock.close,
  -- ctx.destroy, collections of sockets and of the context, forks and changes of the thread, what
  -- is raised being rescued, is defined, given more fuel than steps, as long as a zsocket_new that
  -- gives NULL leaves a NULL whose type has no class, so that ctx.socket makes no object: no
  -- socket is closed twice in the library and no struct is read that is gone. Afterwards the
  -- context is live, its list is exactly its open sockets, each once, every other socket object is
  -- done with, and the sockets are no more than the steps; or it is destroyed or gone and every
  -- socket object is done with.
  pub orders_lem :
      (f : ℕ) (s : Net n z) (os : List Op)
      → s.processes s.pid ≡ none
      → (n.zctx_new s.world).0 ≢ 0
      → ((u : ℕ) (k : Sock) → s.socks u ≡ some k → Done k)
      → ((q : ℕ) → s.next ≤ q → s.socks q ≡ none)
      → s.dangling ≡ []
      → length os < f
      → Returns
          (λ r t. Proper laws lists t s.next (length os))
          (λ e t. ⊥)
          ((s_new qnil >> perform_all f s.next os) s)
  orders_lem f s os free made done fresh sound h =
      Returns-bind (s_new_lem laws lists s free made) λ r t d.
        Returns-mono
          (perform_all-Proper f 0 t s.next os
            (lives {ms = []}
              (record {
                context = d.2;
                nonnull = made;
                items = lists.items-new;
                owned = tt;
                others = λ u k e out. done u k (ap (λ g. g u) (sym d.3) ∙ e);
                fresh = λ q g. ap (λ g. g q) d.3 ∙ fresh q (omega (arith, g, d.4));
                sound = d.5 ∙ sound;
                positive = λ g. absurd (omega (arith, g, d.4));
              })
              (omega arith))
            (omega (arith, h)))
          (λ r' t' q. Proper-mono laws lists t' s.next (0 + length os) (length os) (omega arith) q)
          (λ e t' q. q)

  -- From a live context whose list holds exactly its open sockets, each once, where every other
  -- socket object is done with, no object has lost its struct and no reference from the next one
  -- on is in use, and with a library as in orders_lem where it gives NULL: after any sequence of
  -- ctx.socket, sock.close, ctx.destroy, collections, forks and changes of the thread, what is
  -- raised being rescued, a collection of the context, if nothing has taken it before, ends in a
  -- state in which the context is destroyed or gone and every socket object is done with. The run
  -- is defined, given more fuel than sockets and steps.
  pub end_lem :
      (f : ℕ) (s : Net n z) (v : ℕ) (os : List Op) (ms : List Member) (x : Ptr) (p : ℕ) (l : z.L)
      → Lives laws lists s v ms x p l
      → length ms + length os < f
      → Returns
          (λ r t. Ended laws lists t v)
          (λ e t. ⊥)
          ((perform_all f v os >> perform f v Op.collects_context) s)
  end_lem f s v os ms x p l y h =
      Returns-bind (perform_all-Proper f (length ms) s v os (lives y (omega arith)) h)
        λ r t d. last t d
    where
      last :
          (t : Net n z)
          → Proper laws lists t v (length ms + length os)
          → Returns (λ r i. Ended laws lists i v) (λ e i. ⊥) (perform f v Op.collects_context t)
      last t (ended q) = Ended-step laws lists f t v Op.collects_context q
      last t (lives {ms = ms'} {x = x'} {p = p'} {l = l'} q k) =
          rw (q.context) (free_ctx_gc-Lives laws lists t v ms' x' p' l' q f (omega (arith, k, h)))
