-- ===== src/Loop/Safety.antt =====
-- What a reactor may call back, and that the loop of ext/rbczmq/loop.c keeps it alive: the list
-- `items` of a loop is all that the collector knows of it.
use rbczmq.Base.{
  ℕ, ◌≡◌, ◌≢◌, refl, sym, ◌∙◌, subst, ◌⊎◌, inl, inr, Bool, true, false, Option, some, List, [], ◌∷◌,
  ◌++◌, erase_all, ℤ, ok, Bool-cases, ◌==◌, ==_self, ne→==, ==_iff, if◌then◌else◌, update,
}
use rbczmq.Czmq.{Ptr}
use rbczmq.Czmq.Zlist.{Zlist}
use rbczmq.Loop.{get_loop, wrapper, Handler, started, breaker, timer, pollitem, Zloop, with_world}
use rbczmq.Net.{Zsocket}
use rbczmq.Pollitem.{RawItem, Pollitem}
use rbczmq.Socket.{is_success}
use rbczmq.Timer.{LoopObj, TimerObj, React}

-- What a state of the library stands for: which reactors are live, and what each may call back.
pub record Reactors (n : Zsocket) : Type 1 where
  pub live : n.World → Ptr → Bool
  pub Pending : n.World → Ptr → Handler → Type 0

module _ {n : Zsocket} (r : Reactors n) where
  abbrev pub StaysLive : (w w' : n.World) → Type 0
  StaysLive w w' = (q : Ptr) → r.live w q ≡ true → r.live w' q ≡ true

  -- Nothing is added to what may be called back, or only `h` at `p`.
  abbrev pub Keeps : (w w' : n.World) → Type 0
  Keeps w w' = StaysLive w w' × ((q : Ptr) (k : Handler) → r.Pending w' q k → r.Pending w q k)

  abbrev pub Adds : (w w' : n.World) → Ptr → Handler → Type 0
  Adds w w' p h =
      StaysLive w w'
      × ((q : Ptr) (k : Handler) → r.Pending w' q k → r.Pending w q k ⊎ ((q ≡ p) × (k ≡ h)))

-- The documented behaviour of the calls on a live reactor.
pub record Reacts {n : Zsocket} (lib : Zloop n) (r : Reactors n) : Type 0 where
  pub opens :
      (w : n.World)
      → ((p : Ptr) × (w' : n.World) × (lib.zloop_new w ≡ (p, w'))
          × (p ≢ 0)
          × (r.live w' p ≡ true)
          × ((h : Handler) → ¬ r.Pending w' p h))
        ⊎ ((w' : n.World) × (lib.zloop_new w ≡ (0, w')))
  pub adds_timer :
      (p : Ptr) (d t : ℕ) (h : Handler) (w : n.World)
      → r.live w p ≡ true
      → (rc : ℤ) × (w' : n.World) × (lib.zloop_timer p d t h w ≡ some (rc, w'))
        × Adds r w w' p h
        × (is_success rc ≡ true → r.Pending w' p h)
  pub ends_timer :
      (p : Ptr) (u : ℕ) (w : n.World)
      → r.live w p ≡ true
      → (rc : ℤ) × (w' : n.World) × (lib.zloop_timer_end p u w ≡ some (rc, w'))
        × Keeps r w w'
        × ¬ r.Pending w' p (timer u)
  pub adds_poller :
      (p : Ptr) (i : RawItem) (h : Handler) (w : n.World)
      → r.live w p ≡ true
      → (rc : ℤ) × (w' : n.World) × (lib.zloop_poller p i h w ≡ some (rc, w')) × Adds r w w' p h
  pub ends_poller :
      (p : Ptr) (i : RawItem) (w : n.World)
      → r.live w p ≡ true
      → (w' : n.World) × (lib.zloop_poller_end p i w ≡ some w')
        × Keeps r w w'
        × ((u : ℕ) → ¬ r.Pending w' p (pollitem i u))
  pub sets_verbose :
      (p : Ptr) (b : Bool) (w : n.World)
      → r.live w p ≡ true
      → (w' : n.World) × (lib.zloop_set_verbose p b w ≡ some w') × Keeps r w w'

-- The documented behaviour of the end of a reactor: it calls back no more.
pub record Destroys {n : Zsocket} (lib : Zloop n) (r : Reactors n) : Type 0 where
  pub destroys :
      (p : Ptr) (w : n.World)
      → r.live w p ≡ true
      → (w' : n.World) × (lib.zloop_destroy p w ≡ some w') × ((h : Handler) → ¬ r.Pending w' p h)

-- The reference is in the list.
abbrev pub holds : ℕ → List ℕ → Bool
holds x [] = false
holds x (y ∷ ys) = if x == y then true else holds x ys

pub holds-append : (x : ℕ) (ys zs : List ℕ) → holds x ys ≡ true → holds x (ys ++ zs) ≡ true
holds-append x [] zs h = absurd (cc h)
holds-append x (y ∷ ys) zs h = elim (Bool-cases (x == y)) [
  | inl e ↦ rw e refl
  | inr e ↦ (let k : holds x ys ≡ true = sym (rw e refl) ∙ h in rw e (holds-append x ys zs k))
]

pub holds-last : (x : ℕ) (ys : List ℕ) → holds x (ys ++ x ∷ []) ≡ true
holds-last x [] = rw (==_self x)
holds-last x (y ∷ ys) = elim (Bool-cases (x == y)) [
  | inl e ↦ rw e refl
  | inr e ↦ rw e (holds-last x ys)
]

pub holds-erase_all :
    (x v : ℕ) (ys : List ℕ) → x ≢ v → holds x ys ≡ true → holds x (erase_all v ys) ≡ true
holds-erase_all x v [] ne h = h
holds-erase_all x v (y ∷ ys) ne h = elim (Bool-cases (y == v)) [
  | inl e ↦
      (let other : x ≢ y = λ q. ne (q ∙ (==_iff y v).0 e) in
        let k : holds x ys ≡ true = sym (rw (ne→== other) refl) ∙ h in
        rw e (holds-erase_all x v ys ne k))
  | inr e ↦ rw e (elim (Bool-cases (x == y)) [
    | inl f ↦ rw f refl
    | inr f ↦
        (let k : holds x ys ≡ true = sym (rw f refl) ∙ h in rw f (holds-erase_all x v ys ne k))
  ])
]

-- The struct with another list.
abbrev pub with_items : LoopObj → List ℕ → LoopObj
with_items l us = record l { items = us }

-- The handler is not of this object.
abbrev pub Spares : ℕ → Handler → Type 0
Spares u (started a) = Unit
Spares u (breaker a) = Unit
Spares u (timer x) = x ≢ u
Spares u (pollitem i x) = x ≢ u

module _ {n : Zsocket} {z : Zlist} (r : Reactors n) where
  -- What a handler of the loop `v` needs: the loop itself as argument, or an object in its list.
  abbrev pub Kept : React n z → ℕ → List ℕ → Handler → Type 0
  Kept s v l (started a) = a ≡ wrapper v
  Kept s v l (breaker a) = a ≡ wrapper v
  Kept s v l (timer u) = ((t : TimerObj) × (s.timers u ≡ some t)) × (holds u l ≡ true)
  Kept s v l (pollitem i u) =
      ((it : Pollitem) × (s.polls.items u ≡ some it) × (it.item ≡ i)) × (holds u l ≡ true)

  -- The loop `v` with this struct is live, what its reactor may call back is kept, and no object is
  -- both a timer and an item.
  pub record Safe (s : React n z) (v : ℕ) : Type 0 where
    pub struct : LoopObj
    pub here : s.loops v ≡ some struct
    pub up : struct.destroyed ≡ false
    pub live : r.live s.polls.net.world struct.loop ≡ true
    pub kept : (h : Handler) → r.Pending s.polls.net.world struct.loop h → Kept s v struct.items h
    pub apart :
        (u : ℕ) (t : TimerObj) (i : Pollitem) → s.timers u ≡ some t → s.polls.items u ≡ some i → ⊥

  -- A handler stays kept when only the struct of the loop and the world change, and its object stays
  -- in the list.
  pub Kept-mono :
      (s : React n z) (w : n.World) (g : ℕ → Option LoopObj) (v : ℕ) (l l' : List ℕ) (h : Handler)
      → ((u : ℕ) → holds u l ≡ true → holds u l' ≡ true)
      → Kept s v l h
      → Kept (record (with_world s w) { loops = g }) v l' h
  Kept-mono s w g v l l' (started a) m k = k
  Kept-mono s w g v l l' (breaker a) m k = k
  Kept-mono s w g v l l' (timer u) m k = (k.0, m u k.1)
  Kept-mono s w g v l l' (pollitem i u) m k = (k.0, m u k.1)

  -- The state behind a call of the reactor that sets the struct of the loop.
  abbrev pub after : React n z → n.World → ℕ → LoopObj → React n z
  after s w v l = record (with_world s w) { loops = update s.loops v (some l) }

  pub Safe-adds :
      (s : React n z) (v : ℕ) (y : Safe s v) (w : n.World) (us : List ℕ) (h : Handler)
      → Adds r s.polls.net.world w y.struct.loop h
      → Kept s v (y.struct.items ++ us) h
      → Safe (after s w v (with_items y.struct (y.struct.items ++ us))) v
  Safe-adds s v y w us h (stays, adds) new = record {
    struct = with_items y.struct (y.struct.items ++ us);
    here = rw (==_self v);
    up = y.up;
    live = stays y.struct.loop y.live;
    kept = λ k p. elim (adds y.struct.loop k p) [
      | inl old ↦
          Kept-mono s w s.loops v y.struct.items _ k (λ u e. holds-append u y.struct.items us e)
            (y.kept k old)
      | inr (_, e) ↦ rw e (Kept-mono s w s.loops v _ _ h (λ u e. e) new)
    ];
    apart = y.apart;
  }

  Kept-erase_all :
      (s : React n z) (w : n.World) (g : ℕ → Option LoopObj) (v u : ℕ) (l : List ℕ) (h : Handler)
      → Spares u h
      → Kept s v l h
      → Kept (record (with_world s w) { loops = g }) v (erase_all u l) h
  Kept-erase_all s w g v u l (started a) m k = k
  Kept-erase_all s w g v u l (breaker a) m k = k
  Kept-erase_all s w g v u l (timer x) m k = (k.0, holds-erase_all x u l m k.1)
  Kept-erase_all s w g v u l (pollitem i x) m k = (k.0, holds-erase_all x u l m k.1)

  pub Safe-erases :
      (s : React n z) (v : ℕ) (y : Safe s v) (w : n.World) (u : ℕ)
      → Keeps r s.polls.net.world w
      → ((h : Handler) → r.Pending w y.struct.loop h → Spares u h)
      → Safe (after s w v (with_items y.struct (erase_all u y.struct.items))) v
  Safe-erases s v y w u (stays, keeps) spares = record {
    struct = with_items y.struct (erase_all u y.struct.items);
    here = rw (==_self v);
    up = y.up;
    live = stays y.struct.loop y.live;
    kept = λ k p.
        Kept-erase_all s w s.loops v u y.struct.items k (spares k p)
          (y.kept k (keeps y.struct.loop k p));
    apart = y.apart;
  }

  Kept-same :
      (s t : React n z) (v : ℕ) (l : List ℕ) (h : Handler)
      → t.timers ≡ s.timers
      → t.polls.items ≡ s.polls.items
      → Kept s v l h
      → Kept t v l h
  Kept-same s t v l (started a) b d k = k
  Kept-same s t v l (breaker a) b d k = k
  Kept-same s t v l (timer u) b d k = rw b k
  Kept-same s t v l (pollitem i u) b d k = rw d k

  -- With the same loops, timers, items and world.
  pub Safe-same :
      (s t : React n z) (v : ℕ)
      → t.loops ≡ s.loops
      → t.timers ≡ s.timers
      → t.polls.items ≡ s.polls.items
      → t.polls.net.world ≡ s.polls.net.world
      → Safe s v
      → Safe t v
  Safe-same s t v a b d e y = record {
    struct = y.struct;
    here = rw a y.here;
    up = y.up;
    live = rw e y.live;
    kept = λ h p.
        Kept-same s t v y.struct.items h b d
          (y.kept h (subst (λ x. r.Pending x y.struct.loop h) e p));
    apart = rw (b, d) y.apart;
  }

  pub get_loop-Safe : (s : React n z) (v : ℕ) (y : Safe s v) → get_loop v s ≡ ok y.struct s
  unfolding get_loop
  get_loop-Safe s v y = rw y.here (rw y.up refl)
