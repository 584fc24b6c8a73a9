-- ===== src/Loop/Serving.antt =====
-- `start` of ext/rbczmq/loop.c: what the reactor calls back while it runs, as long as no call of the
-- program fails or returns false.
use rbczmq.Base.{
  ℕ, ◌≡◌, refl, sym, ap, ◌∙◌, subst, inl, inr, Bool, true, false, Option, some, [], ℤ, pos,
  zmq_error, Run, Cmd, Returns, returns, raises, Bool-cases, ==_self, pure,
}
use rbczmq.Czmq.{Ptr}
use rbczmq.Czmq.Zlist.{Zlist}
use rbczmq.Loop.{wrapper, Handler, started, breaker, timer, pollitem, Zloop, with_world}
use rbczmq.Net.{Zsocket}
use rbczmq.Timer.{LoopObj, React}
use rbczmq.Base.{◌>>◌, zero, suc, negsuc, Returns-mono, minus_one, Returns-bind}
use rbczmq.Loop.{set_running}
use rbczmq.Pollitem.{is_in, is_out}
use rbczmq.Timer.{
  Call, Outcome, gives, fails, jumps, Ruby, on_readable, on_writable, on_error, call,
}
use rbczmq.Loop.{is_false, is_err, Serve}
use rbczmq.Loop.Callbacks.{
  dispatch, start, started_callback, breaker_callback, timer_callback, pollitem_callback, callback,
  call_if, after_ruby, ended,
}
use rbczmq.Loop.Safety.{Reactors, Keeps, Reacts, Kept, Safe, get_loop-Safe}
use rbczmq.Loop.Methods.{Safe-world, Safe-flags, Safe-timer}

-- A call that neither fails nor returns false.
abbrev pub Fine : Outcome → Type 0
Fine (gives v) = is_false v ≡ false
Fine fails = ⊥
Fine jumps = ⊥

module _ {n : Zsocket} {z : Zlist} (lib : Zloop n) (r : Reactors n) (v : ℕ) (p : Ptr) where
  -- The loop is safe, and its reactor is `p`.
  abbrev pub At : React n z → Type 0
  At s = Safe r s v × ((l : LoopObj) → s.loops v ≡ some l → l.loop ≡ p)

  -- The code of the program leaves the loop safe with its reactor, and does not fail.
  abbrev pub Behaves : Ruby n z → Type 0
  Behaves ruby =
      (s : React n z) (receiver : Option ℕ) (m : Call)
      → At s
      → Returns (λ o t. At t × Fine o) (λ e t. ⊥) (ruby receiver m s)

  -- The documented behaviour of `zloop_start`: it calls back only what is pending, and adds nothing
  -- to it. What such calls keep is kept to its end.
  abbrev pub Serves : Serve n z → Type 1
  Serves serve =
      (call_back : Handler → ℤ → Cmd (React n z) ℤ) (I : React n z → Type 0) (s : React n z)
      → ((h : Handler) (events : ℤ) (t : React n z)
          → I t
          → r.Pending t.polls.net.world p h
          → Returns (λ rc x. I x) (λ e x. ⊥) (call_back h events t))
      → ((t : React n z) (w : n.World) → I t → Keeps r t.polls.net.world w → I (with_world t w))
      → I s
      → Returns (λ rc t. I t) (λ e t. ⊥) (serve call_back p s)

  module _ (laws : Reacts lib r) (ruby : Ruby n z) (fine : Behaves ruby) where
    abbrev Serving : Run (React n z) ℤ → Type 0
    Serving = Returns (λ rc t. At t) (λ e t. ⊥)

    callback_lem :
        (s : React n z) (receiver : Option ℕ) (m : Call)
        → At s
        → Serving (callback lib ruby p receiver m s)
    unfolding callback after_ruby
    callback_lem s receiver m a = Returns-bind (fine s receiver m a) (λ o t b. go o t b)
      where
        go :
            (o : Outcome) (t : React n z)
            → At t × Fine o
            → Serving (after_ruby lib ruby p receiver o t)
        go (gives x) t (b, f) = rw f (returns b)
        go fails t (b, f) = absurd f
        go jumps t (b, f) = absurd f

    updated :
        {s : React n z} (b : Bool) (y : Safe r s v)
        → ((l : LoopObj) → s.loops v ≡ some l → l.loop ≡ p)
        → (l : LoopObj) → some (record y.struct { running = b }) ≡ some l
        → l.loop ≡ p
    updated b y here l e =
        let same : record y.struct { running = b } ≡ l = cc e in
        sym (ap (λ (i : LoopObj). i.loop) same) ∙ here y.struct y.here

    set_running-At :
        (s : React n z) (b : Bool) (rc : ℤ)
        → At s
        → Serving ((set_running (wrapper v) b >> pure rc) s)
    set_running-At s b rc (y, here) = rw y.here (
        returns (
          Safe-flags lib r laws s v y b y.struct.verbose,
          λ l e. updated b y here l (rw (==_self v) at e),
        ))

    -- A turn of the reactor.
    pub turn-At :
        (s : React n z) (w : n.World) → At s → Keeps r s.polls.net.world w → At (with_world s w)
    turn-At s w (y, here) keeps =
        (Safe-world lib r laws s v y w keeps.0 (λ k q. inl (keeps.1 y.struct.loop k q)), here)

    call_if_lem :
        (b : Bool) (s : React n z) (receiver : Option ℕ) (m : Call)
        → At s
        → Serving (call_if lib ruby b p receiver m s)
    unfolding call_if
    call_if_lem true s receiver m a = callback_lem s receiver m a
    call_if_lem false s receiver m a = returns a

    -- Whatever is pending can be called.
    pub dispatch_lem :
        (h : Handler) (events : ℤ) (s : React n z)
        → At s
        → r.Pending s.polls.net.world p h
        → Serving (dispatch lib ruby p h events s)
    unfolding dispatch started_callback breaker_callback timer_callback pollitem_callback
    dispatch_lem h events s (y, here) q =
        let kept =
          y.kept h (subst (λ x. r.Pending s.polls.net.world x h) (sym (here y.struct y.here)) q) in
        go h kept
      where
        go : (h : Handler) → Kept r s v y.struct.items h → Serving (dispatch lib ruby p h events s)
        go (started a) k = rw k (set_running-At s true (pos 0) (y, here))
        go (breaker a) k = rw k (set_running-At s false minus_one (y, here))
        go (timer u) ((t, f), m) =
            let live : r.live s.polls.net.world p ≡ true =
              subst (λ x. r.live s.polls.net.world x ≡ true) (here y.struct y.here) y.live in
            let (rc, w, e, keeps, _) = laws.ends_timer p u s.polls.net.world live in
            rw f (elim (Bool-cases t.cancelled) [
              | inl c ↦ rw c (rw e (returns (turn-At s w (y, here) keeps)))
              | inr c ↦ rw c (callback_lem s (some u) (call []) (y, here))
            ])
        go (pollitem i u) ((it, e, _), m) = rw e (
            Returns-bind (call_if_lem (is_in events) s it.handler on_readable (y, here)) (λ x t a.
              Returns-bind (call_if_lem (is_out events) t it.handler on_writable a) (λ x' t' a'.
                Returns-bind (call_if_lem (is_err events) t' it.handler on_error a')
                  (λ x'' t'' a''. returns a''))))

module _ {n : Zsocket} {z : Zlist} (lib : Zloop n) (r : Reactors n) (laws : Reacts lib r) where
  -- start of a safe loop (not destroyed, its reactor live, no object both timer and item, and all
  -- that the reactor may call back kept by its list), where the reactor calls back only what is
  -- pending and the code of the program leaves the loop safe with the same reactor and neither
  -- fails nor returns false, is defined: it returns with the loop safe, or raises a ZMQ::Error
  -- with the loop safe, so that no callback reaches an object that is gone.
  pub start_lem :
      (serve : Serve n z) (ruby : Ruby n z) (s : React n z) (v : ℕ) (y : Safe r s v)
      → Serves lib r v y.struct.loop serve
      → Behaves lib r v y.struct.loop ruby
      → Returns (λ a t. Safe r t v) (λ e t. (e ≡ zmq_error) × Safe r t v) (start lib ruby serve v s)
  unfolding start
  start_lem serve ruby s v y serves fine =
      let (rc, w, e, adds, _) =
        laws.adds_timer y.struct.loop 1 1 (started (wrapper v)) s.polls.net.world y.live in
      let safe = Safe-timer lib r laws s v y w (started (wrapper v)) adds refl in
      rw (get_loop-Safe r s v y) (
        rw e (
          Returns-bind
            (Returns-mono
              (serves (dispatch lib ruby y.struct.loop) (At lib r v y.struct.loop) (with_world s w)
                (dispatch_lem lib r v y.struct.loop laws ruby fine)
                (λ t w a keeps. turn-At lib r v y.struct.loop laws ruby fine t w a keeps)
                (
                  safe,
                  λ l h.
                      (let same : l ≡ y.struct = cc (h, y.here) in
                        ap (λ (i : LoopObj). i.loop) same),
                ))
              (λ rc t a. a.0) (λ x t q. absurd q))
            (λ rc t a. ended_lem rc t a)))
    where
      ended_lem :
          (rc : ℤ) (t : React n z)
          → Safe r t v
          → Returns (λ a t. Safe r t v) (λ e t. (e ≡ zmq_error) × Safe r t v) (ended lib ruby rc t)
      ended_lem (pos zero) t a = returns a
      ended_lem (pos (suc k)) t a = raises (refl, a)
      ended_lem (negsuc k) t a = returns a
