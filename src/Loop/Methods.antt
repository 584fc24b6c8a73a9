-- ===== src/Loop/Methods.antt =====
-- The methods of ext/rbczmq/loop.c on a loop whose reactor calls back nothing that the loop has let
-- go.
use rbczmq.Base.{
  ℕ, ◌≡◌, refl, sym, subst, ◌⊎◌, inl, inr, Bool, false, some, List, [], ◌∷◌, Run, Returns,
  Returns-bind, returns, raises, Bool-cases, ==_self, ne→==, update,
}
use rbczmq.Czmq.{Ptr}
use rbczmq.Czmq.Zlist.{Zlist}
use rbczmq.Loop.{
  wrapper, Handler, started, breaker, timer, pollitem, Zloop, with_world, register, remove,
  register_timer, cancel_timer, stop, new, set_loop_verbose, is_true, stop0,
}
use rbczmq.Net.{Zsocket}
use rbczmq.Objects.{Value, is_sys_error}
use rbczmq.Pollitem.{Pollitem}
use rbczmq.Socket.{is_success}
use rbczmq.Timer.{TimerObj, React}
use rbczmq.Pollitem.{coerce_item}
use rbczmq.Loop.Safety.{
  Reactors, StaysLive, Adds, Reacts, holds-last, Kept, Kept-mono, Safe, Spares, Safe-adds,
  Safe-erases, get_loop-Safe,
}
use rbczmq.Loop.Outcomes.{Returns-loop_assert, Safe-verbose}

module _ {n : Zsocket} {z : Zlist} (lib : Zloop n) (r : Reactors n) (laws : Reacts lib r)
    (s : React n z) (v : ℕ) (y : Safe r s v) where
  -- What is left when nothing polls an item, or no timer has the argument, is of another object.
  Spares-item :
      (w : n.World) (l : List ℕ) (u : ℕ) (it : Pollitem) (p : Ptr)
      → s.polls.items u ≡ some it
      → ((x : ℕ) → ¬ r.Pending w p (pollitem it.item x))
      → (h : Handler) → Kept r s v l h
      → r.Pending w p h
      → Spares u h
  Spares-item w l u it p e none_left (started a) k q = tt
  Spares-item w l u it p e none_left (breaker a) k q = tt
  Spares-item w l u it p e none_left (timer x) ((t, f), m) q =
      λ same. y.apart u t it (subst (λ j. s.timers j ≡ some t) same f) e
  Spares-item w l u it p e none_left (pollitem i x) ((other, f, g), m) q = λ same.
      (let same_raw : i ≡ it.item = cc (e, f, g, same) in
        none_left x (subst (λ j. r.Pending w p (pollitem j x)) same_raw q))

  Spares-timer :
      (w : n.World) (l : List ℕ) (u : ℕ) (t : TimerObj) (p : Ptr)
      → s.timers u ≡ some t
      → ¬ r.Pending w p (timer u)
      → (h : Handler) → Kept r s v l h
      → r.Pending w p h
      → Spares u h
  Spares-timer w l u t p e none_left (started a) k q = tt
  Spares-timer w l u t p e none_left (breaker a) k q = tt
  Spares-timer w l u t p e none_left (timer x) k q =
      λ same. none_left (subst (λ j. r.Pending w p (timer j)) same q)
  Spares-timer w l u t p e none_left (pollitem i x) ((it, f, g), m) q =
      λ same. y.apart u t it e (subst (λ j. s.polls.items j ≡ some it) same f)

  -- A method that is defined, and leaves the loop safe.
  abbrev pub StaysSafe : Run (React n z) Value → Type 0
  StaysSafe = Returns (λ a t. Safe r t v) (λ e t. Safe r t v)

  -- What the reactor may call back after a call: what it did before, or what is kept.
  abbrev pub Allows : n.World → Type 0
  Allows w =
      (k : Handler)
      → r.Pending w y.struct.loop k
      → r.Pending s.polls.net.world y.struct.loop k ⊎ Kept r s v y.struct.items k

  pub Safe-world :
      (w : n.World) → StaysLive r s.polls.net.world w → Allows w → Safe r (with_world s w) v
  Safe-world w stays allows = record {
    struct = y.struct;
    here = y.here;
    up = y.up;
    live = stays y.struct.loop y.live;
    kept = λ k p.
        Kept-mono r s w s.loops v y.struct.items _ k (λ u e. e)
          (elim (allows k p) [ inl q ↦ y.kept k q | inr q ↦ q ]);
    apart = y.apart;
  }

  -- The flags of the struct.
  pub Safe-flags :
      (a b : Bool)
      → Safe r
          (record s {
            loops = update s.loops v (some (record y.struct { running = a; verbose = b }));
          })
          v
  Safe-flags a b = record {
    struct = record y.struct { running = a; verbose = b };
    here = rw (==_self v);
    up = y.up;
    live = y.live;
    kept =
        λ k p. Kept-mono r s s.polls.net.world s.loops v y.struct.items _ k (λ u e. e) (y.kept k p);
    apart = y.apart;
  }

  -- A one-shot timer of the loop itself.
  pub Safe-timer :
      (w : n.World) (h : Handler)
      → Adds r s.polls.net.world w y.struct.loop h
      → Kept r s v y.struct.items h
      → Safe r (with_world s w) v
  Safe-timer w h (stays, adds) new = Safe-world w stays (λ k p. elim (adds y.struct.loop k p) [
    | inl q ↦ inl q
    | inr (_, e) ↦ inr (subst (Kept r s v y.struct.items) (sym e) new)
  ])

  pub stop-Safe : StaysSafe (stop lib v s)
  unfolding stop stop0
  stop-Safe =
      let (rc, w, e, adds, _) =
        laws.adds_timer y.struct.loop 1 1 (breaker (wrapper v)) s.polls.net.world y.live in
      rw (get_loop-Safe r s v y) (elim (Bool-cases y.struct.running) [
        | inl f ↦ rw f (rw y.here (rw e (returns (Safe-timer w _ adds refl))))
        | inr f ↦ rw f (raises y)
      ])

  pub register_timer-Safe :
      (u : ℕ) (t : TimerObj) → s.timers u ≡ some t → StaysSafe (register_timer lib v u s)
  unfolding register_timer
  register_timer-Safe u t h =
      let (rc, w, e, adds, _) =
        laws.adds_timer y.struct.loop t.delay t.times (timer u) s.polls.net.world y.live in
      let safe =
        Safe-adds r s v y w (u ∷ []) (timer u) adds ((t, h), holds-last u y.struct.items) in
      rw (get_loop-Safe r s v y)
        ((rw h (rw e (Returns-loop_assert (is_success rc) _ _ (returns safe) safe (λ _. safe)))))

  pub register-Safe :
      (u : ℕ) (it : Pollitem) → s.polls.items u ≡ some it → StaysSafe (register lib v u s)
  unfolding register
  register-Safe u it h =
      let (rc, w, e, adds) =
        laws.adds_poller y.struct.loop it.item (pollitem it.item u) s.polls.net.world y.live in
      let safe =
        Safe-adds r s v y w (u ∷ []) (pollitem it.item u) adds
          ((it, h, refl), holds-last u y.struct.items) in
      rw (get_loop-Safe r s v y) (
        (rw (coerce_item s.polls u it h) (
          rw h (
            rw e (
              Returns-loop_assert (is_success rc) _ _
                (Returns-bind (Safe-verbose r v _ u it y.struct.verbose safe h)
                  (λ a t p. returns p))
                safe (λ _. safe))))))

  pub remove-Safe :
      (u : ℕ) (it : Pollitem) → s.polls.items u ≡ some it → StaysSafe (remove lib v u s)
  unfolding remove
  remove-Safe u it h =
      let (w, e, keeps, none_left) =
        laws.ends_poller y.struct.loop it.item s.polls.net.world y.live in
      rw (get_loop-Safe r s v y) (
        (rw (coerce_item s.polls u it h) (
          rw h (
            rw e (
              returns (
                Safe-erases r s v y w u keeps (λ k p.
                  Spares-item w y.struct.items u it y.struct.loop h none_left k
                    (y.kept k (keeps.1 y.struct.loop k p)) p)))))))

  pub cancel_timer-Safe :
      (u : ℕ) (t : TimerObj) → s.timers u ≡ some t → StaysSafe (cancel_timer lib v u s)
  unfolding cancel_timer
  cancel_timer-Safe u t h =
      let (rc, w, e, keeps, none_left) = laws.ends_timer y.struct.loop u s.polls.net.world y.live in
      let safe = Safe-erases r s v y w u keeps (λ k p.
        Spares-timer w y.struct.items u t y.struct.loop h none_left k
          (y.kept k (keeps.1 y.struct.loop k p)) p) in
      rw (get_loop-Safe r s v y)
        ((rw h (rw e (Returns-loop_assert (is_success rc) _ _ (returns safe) safe (λ _. safe)))))

module _ {n : Zsocket} {z : Zlist} (lib : Zloop n) (r : Reactors n) (laws : Reacts lib r)
    (s : React n z) where
  pub set_loop_verbose-Safe :
      (v : ℕ) (y : Safe r s v) (level : Value)
      → StaysSafe lib r laws s v y (set_loop_verbose lib v level s)
  unfolding set_loop_verbose Safe-world
  set_loop_verbose-Safe v y level =
      let (w, e, keeps) =
        laws.sets_verbose y.struct.loop (is_true level) s.polls.net.world y.live in
      let safe = Safe-world lib r laws s v y w keeps.0 (λ k p. inl (keeps.1 y.struct.loop k p)) in
      rw (get_loop-Safe r s v y) (
        rw e (
          returns (Safe-flags lib r laws (with_world s w) v safe y.struct.running (is_true level))))

  -- A new loop has nothing to call back.
  pub new-Safe :
      ((u : ℕ) (t : TimerObj) (i : Pollitem) → s.timers u ≡ some t → s.polls.items u ≡ some i → ⊥)
      → Returns (λ u t. (u ≡ s.polls.next) × Safe r t u) (λ e t. t.loops ≡ s.loops) (new lib s)
  unfolding new
  new-Safe apart = elim (laws.opens s.polls.net.world) [
    | inl (p, w, e, nz, live, idle) ↦ rw e (
        rw (ne→== nz) (
          returns (
            refl,
            record {
              struct = record {
                loop = p;
                destroyed = false;
                verbose = false;
                running = false;
                items = [];
              };
              here = rw (==_self s.polls.next);
              up = refl;
              live = live;
              kept = λ h q. absurd (idle h q);
              apart = apart;
            },
          )))
    | inr (w, e) ↦ rw e (elim (Bool-cases (is_sys_error (n.zmq_errno w))) [
      | inl f ↦ rw f (raises refl)
      | inr f ↦ rw f (raises refl)
    ])
  ]
