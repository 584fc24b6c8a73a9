-- ===== src/Loop/Ideal.antt =====
-- One reactor that behaves as documented, for examples: it keeps what it may call back in a list.
use rbczmq.Base.{
  ℕ, zero, suc, ◌+◌, ◌≡◌, refl, ◌⊎◌, inl, inr, Bool, true, false, not, ◌&&◌, Option, none, some,
  List, [], ◌∷◌, ℤ, pos, negsuc, ok, returns, Bool-cases, Option-cases, ==_iff, ◌==◌, ==_self,
  if◌then◌else◌, arith, and_then, Returns-bind,
}
use rbczmq.Czmq.{Ptr}
use rbczmq.Czmq.Zlist.{Zlist}
use rbczmq.Loop.{is_minus_one, Handler, timer, pollitem, Zloop, Serve}
use rbczmq.Loop.Safety.{Reactors, Reacts, Destroys, Keeps}
use rbczmq.Loop.Serving.{Serves}
use rbczmq.Net.{Zsocket}
use rbczmq.Net.Ideal.{World, ideal_of, on_open, shut}
use rbczmq.Pollitem.{RawItem}

abbrev pub Waiting : Type 0
Waiting = List (Ptr × Handler)

-- The handler waits at the reactor.
abbrev pub Waits : Waiting → Ptr → Handler → Type 0
Waits [] p h = ⊥
Waits ((q, k) ∷ l) p h = ((p ≡ q) × (h ≡ k)) ⊎ Waits l p h

-- The entries that pass a test.
abbrev pub keep : (Ptr → Handler → Bool) → Waiting → Waiting
keep f [] = []
keep f ((q, k) ∷ l) = if f q k then (q, k) ∷ keep f l else keep f l

pub Waits-keep :
    (f : Ptr → Handler → Bool) (l : Waiting) (p : Ptr) (h : Handler)
    → Waits (keep f l) p h
    → Waits l p h × (f p h ≡ true)
Waits-keep f [] p h w = absurd w
Waits-keep f ((q, k) ∷ l) p h w = go (λ x. Waits-keep f l p h x) (f q k) refl w
  where
    go :
        (Waits (keep f l) p h → Waits l p h × (f p h ≡ true))
        → (b : Bool) → f q k ≡ b
        → Waits (if b then (q, k) ∷ keep f l else keep f l) p h
        → Waits ((q, k) ∷ l) p h × (f p h ≡ true)
    go rest true e (inl (a, c)) = (inl (a, c), rw (a, c) e)
    go rest true e (inr x) = let (y, g) = rest x in (inr y, g)
    go rest false e x = let (y, g) = rest x in (inr y, g)

abbrev is_timer : ℕ → Handler → Bool
is_timer u (timer x) = x == u
is_timer u _ = false

abbrev fd_eq : ℤ → ℤ → Bool
fd_eq (pos a) (pos b) = a == b
fd_eq (pos a) (negsuc b) = false
fd_eq (negsuc a) (pos b) = false
fd_eq (negsuc a) (negsuc b) = a == b

pub fd_eq_refl : (i : ℤ) → fd_eq i i ≡ true
fd_eq_refl (pos a) = ==_self a
fd_eq_refl (negsuc a) = ==_self a

abbrev polls : RawItem → Handler → Bool
polls i (pollitem j u) = (j.socket == i.socket) && fd_eq j.fd i.fd
polls i _ = false

abbrev with_queue : Waiting → World Waiting → World Waiting
with_queue l w = record w { queue = l }

abbrev add : Ptr → Handler → World Waiting → World Waiting
add p h w = with_queue ((p, h) ∷ w.queue) w

-- The handlers of the reactor that pass the test go.
abbrev drop : Ptr → (Handler → Bool) → World Waiting → World Waiting
drop p f w = with_queue (keep (λ q h. not ((q == p) && f h)) w.queue) w

abbrev pub reactor_world : Zsocket
reactor_world = ideal_of Waiting

abbrev pub ideal_zloop : Zloop reactor_world
ideal_zloop = record {
  zloop_new = λ w. (
    w.next + 1,
    drop (w.next + 1) (λ h. true)
        (record w {
          next = w.next + 1;
          opened = λ q. if q == w.next + 1 then true else w.opened q;
        }),
  );
  zloop_destroy = λ p w. on_open p w (drop p (λ h. true) (shut p w));
  zloop_timer = λ p d t h w. on_open p w (pos 0, add p h w);
  zloop_timer_end = λ p u w. on_open p w (pos 0, drop p (is_timer u) w);
  zloop_poller = λ p i h w. on_open p w (pos 0, add p h w);
  zloop_poller_end = λ p i w. on_open p w (drop p (polls i) w);
  zloop_set_verbose = λ p b w. on_open p w w;
  interrupt = λ w. w;
}

abbrev pub reactors : Reactors reactor_world
reactors = record { live = λ w p. w.opened p; Pending = λ w p h. Waits w.queue p h }

-- What is dropped waits no more.
pub Waits-drop :
    (p : Ptr) (f : Handler → Bool) (w : World Waiting) (h : Handler)
    → f h ≡ true
    → ¬ Waits (drop p f w).queue p h
Waits-drop p f w h e x =
    let (y, g) = Waits-keep (λ q k. not ((q == p) && f k)) w.queue p h x in
    let never : not ((p == p) && f h) ≡ false = rw (==_self p, e) refl in cc (never, g)

pub drop-Keeps : (p : Ptr) (f : Handler → Bool) (w : World Waiting) → Keeps reactors w (drop p f w)
drop-Keeps p f w = (λ q a. a, λ q k x. (Waits-keep (λ q k. not ((q == p) && f k)) w.queue q k x).0)

pub Waits-add :
    (p : Ptr) (h : Handler) (w : World Waiting) (q : Ptr) (k : Handler)
    → Waits (add p h w).queue q k
    → Waits w.queue q k ⊎ ((q ≡ p) × (k ≡ h))
Waits-add p h w q k (inl x) = inr x
Waits-add p h w q k (inr x) = inl x

abbrev pub ideal_reacts : Reacts ideal_zloop reactors
ideal_reacts = record {
  opens = λ w. inl (
    w.next + 1,
    _,
    refl,
    omega arith,
    rw (==_self (w.next + 1)),
    λ h x.
        Waits-drop (w.next + 1) (λ h. true)
          (record w {
            next = w.next + 1;
            opened = λ q. if q == w.next + 1 then true else w.opened q;
          })
          h refl x,
  );
  adds_timer =
      λ p d t h w a. (pos 0, add p h w, rw a, (λ q b. b, Waits-add p h w), λ e. inl (refl, refl));
  ends_timer = λ p u w a. (
    pos 0,
    drop p (is_timer u) w,
    rw a,
    drop-Keeps p (is_timer u) w,
    Waits-drop p (is_timer u) w (timer u) (==_self u),
  );
  adds_poller = λ p i h w a. (pos 0, add p h w, rw a, (λ q b. b, Waits-add p h w));
  ends_poller = λ p i w a. (
    drop p (polls i) w,
    rw a,
    drop-Keeps p (polls i) w,
    λ u. Waits-drop p (polls i) w (pollitem i u) (rw (==_self i.socket, fd_eq_refl i.fd) refl),
  );
  sets_verbose = λ p b w a. (w, rw a, (λ q c. c, λ q k x. x));
}

abbrev pub ideal_destroys : Destroys ideal_zloop reactors
ideal_destroys = record {
  destroys = λ p w a.
      (drop p (λ h. true) (shut p w), rw a, λ h. Waits-drop p (λ h. true) (shut p w) h refl);
}

abbrev first_of : Waiting → Ptr → Option Handler
first_of [] p = none
first_of ((q, h) ∷ l) p = if p == q then some h else none

Waits-first : (l : Waiting) (p : Ptr) (h : Handler) → first_of l p ≡ some h → Waits l p h
Waits-first [] p h e = absurd (cc e)
Waits-first ((q, k) ∷ l) p h e = elim (Bool-cases (p == q)) [
  | inl f ↦ inl ((==_iff p q).0 f, cc (rw f at e))
  | inr f ↦ absurd (cc (rw f at e))
]

-- What waits first is called, at most so many times, until a call returns -1.
module _ {z : Zlist} where
  abbrev pub serve : ℕ → Serve reactor_world z
  serve zero call_back p = λ s. ok (pos 0) s
  serve (suc k) call_back p =
      let rest = serve k call_back p in
      λ s. elim (first_of s.polls.net.world.queue p) [
        | none ↦ ok (pos 0) s
        | some h ↦
            and_then (call_back h (pos 0) s) (λ rc t. if is_minus_one rc then ok rc t else rest t)
      ]

  pub serve-Serves : (v p k : ℕ) → Serves ideal_zloop reactors v p (serve k)
  serve-Serves v p zero call_back I s f g i = returns i
  serve-Serves v p (suc k) call_back I s f g i =
      elim (Option-cases (first_of s.polls.net.world.queue p)) [
        | inl e ↦ rw (serve, e) (returns i)
        | inr (h, e) ↦
            rw (serve, e)
              (Returns-bind (f h (pos 0) s i (Waits-first s.polls.net.world.queue p h e)) (λ rc t j.
                elim (Bool-cases (is_minus_one rc)) [
                  | inl m ↦ rw m (returns j)
                  | inr m ↦ rw m (serve-Serves v p k call_back I t f g j)
                ]))
      ]
