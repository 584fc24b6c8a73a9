-- ===== src/Loop/Tables.antt =====
-- Loops of ext/rbczmq/loop.c when the tables of timers and items change around them.
use rbczmq.Base.{
  ℕ, ◌≡◌, refl, sym, ap, ◌∙◌, subst, ◌⊎◌, inl, inr, false, Option, none, some, List, Bool-cases,
  ◌==◌, ==_iff, update,
}
use rbczmq.Czmq.Zlist.{Zlist}
use rbczmq.Loop.{Handler, started, breaker, timer, pollitem}
use rbczmq.Net.{Zsocket}
use rbczmq.Pollitem.{Pollitem}
use rbczmq.Timer.{TimerObj, React}
use rbczmq.Loop.Safety.{Reactors, holds, Kept, Safe}

-- A table that may differ where `lost` holds, and whose entries are as before as far as `same` says.
pub record Shrinks {A : Type 0} (a b : ℕ → Option A) (lost : ℕ → Type 0) (same : A → A → Type 0)
    : Type 0 where
  pub forth : (u : ℕ) (x : A) → a u ≡ some x → lost u ⊎ ((x' : A) × (b u ≡ some x') × same x x')
  pub back : (u : ℕ) (x' : A) → b u ≡ some x' → (x : A) × (a u ≡ some x)

module _ {A : Type 0} (a : ℕ → Option A) where
  pub Shrinks-refl :
      (lost : ℕ → Type 0) (same : A → A → Type 0) → ((x : A) → same x x) → Shrinks a a lost same
  Shrinks-refl lost same f = record { forth = λ u x e. inr (x, e, f x); back = λ u x e. (x, e) }

  pub Shrinks-none :
      (u : ℕ) (lost : ℕ → Type 0) (same : A → A → Type 0)
      → lost u
      → ((x : A) → same x x)
      → Shrinks a (update a u none) lost same
  Shrinks-none u lost same k f = record {
    forth = λ x v e. elim (Bool-cases (x == u)) [
      | inl h ↦ inl (subst lost (sym ((==_iff x u).0 h)) k)
      | inr h ↦ inr (v, rw h e, f v)
    ];
    back = λ x v e. elim (Bool-cases (x == u)) [
      | inl h ↦ absurd (cc (rw h at e))
      | inr h ↦ (v, rw h at e)
    ];
  }

  pub Shrinks-some :
      (u : ℕ) (y y' : A) (lost : ℕ → Type 0) (same : A → A → Type 0)
      → a u ≡ some y
      → ((x : A) → same x y')
      → ((x : A) → same x x)
      → Shrinks a (update a u (some y')) lost same
  Shrinks-some u y y' lost same h g f = record {
    forth = λ x v e. elim (Bool-cases (x == u)) [
      | inl k ↦ inr (y', rw k refl, g v)
      | inr k ↦ inr (v, rw k e, f v)
    ];
    back = λ x v e. elim (Bool-cases (x == u)) [
      | inl k ↦ (y, ap a ((==_iff x u).0 k) ∙ h)
      | inr k ↦ (v, rw k at e)
    ];
  }

module _ {n : Zsocket} {z : Zlist} (r : Reactors n) (s : React n z) (v : ℕ) where
  -- Other tables of timers and items.
  abbrev pub with_tables : (ℕ → Option TimerObj) → (ℕ → Option Pollitem) → React n z
  with_tables a b = record s { timers = a; polls = record s.polls { items = b } }

  -- The entry is one that the loop does not hold.
  abbrev pub Lost : List ℕ → ℕ → Type 0
  Lost l u = holds u l ≡ false

  abbrev pub SameRaw : Pollitem → Pollitem → Type 0
  SameRaw i j = j.item ≡ i.item

  Kept-tables :
      (a : ℕ → Option TimerObj) (b : ℕ → Option Pollitem) (l : List ℕ) (h : Handler)
      → Shrinks s.timers a (Lost l) (λ x y. Unit {0})
      → Shrinks s.polls.items b (Lost l) SameRaw
      → Kept r s v l h
      → Kept r (with_tables a b) v l h
  Kept-tables a b l (started x) f g k = k
  Kept-tables a b l (breaker x) f g k = k
  Kept-tables a b l (timer u) f g ((t, e), m) = elim (f.forth u t e) [
    | inl lost ↦ absurd (cc (lost, m))
    | inr (t', e', _) ↦ ((t', e'), m)
  ]
  Kept-tables a b l (pollitem i u) f g ((it, e, q), m) = elim (g.forth u it e) [
    | inl lost ↦ absurd (cc (lost, m))
    | inr (it', e', same) ↦ ((it', e', same ∙ q), m)
  ]

  pub Safe-tables :
      (a : ℕ → Option TimerObj) (b : ℕ → Option Pollitem) (y : Safe r s v)
      → Shrinks s.timers a (Lost y.struct.items) (λ x y. Unit {0})
      → Shrinks s.polls.items b (Lost y.struct.items) SameRaw
      → Safe r (with_tables a b) v
  Safe-tables a b y f g = record {
    struct = y.struct;
    here = y.here;
    up = y.up;
    live = y.live;
    kept = λ h p. Kept-tables a b y.struct.items h f g (y.kept h p);
    apart = λ u t i e q.
        let (t', e') = f.back u t e in let (i', q') = g.back u i q in y.apart u t' i' e' q';
  }
