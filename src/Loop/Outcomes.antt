-- ===== src/Loop/Outcomes.antt =====
-- What the methods of ext/rbczmq/loop.c end in: `ZmqAssert`, and the verbosity of a new item.
use rbczmq.Base.{
  ℕ, ◌≡◌, refl, inl, inr, Bool, true, false, some, Exc, Run, Cmd, Returns, returns, raises,
  Bool-cases, Option-cases, if◌then◌else◌, pure,
}
use rbczmq.Czmq.Zlist.{Zlist}
use rbczmq.Loop.{loop_assert, on_net}
use rbczmq.Net.Failing.{Returns-failed}
use rbczmq.Net.{Zsocket, call_failed}
use rbczmq.Objects.{Value, qnil, qfalse}
use rbczmq.Pollitem.{Pollitem}
use rbczmq.Timer.{React}
use rbczmq.Pollitem.{Polls, set_verbose}
use rbczmq.Loop.{on_polls, of_polls}
use rbczmq.Loop.Safety.{Reactors, Safe, Safe-same}

module _ {n : Zsocket} {z : Zlist} {P : Value → React n z → Type 0}
    {Q : Exc → React n z → Type 0} where
  -- The branch of `ZmqAssert` for -1 leaves the state as it is.
  Returns-loop_failed :
      (s : React n z) → P qfalse s → ((e : Exc) → Q e s) → Returns P Q (on_net call_failed s)
  Returns-loop_failed s p q =
      Returns-failed (λ r. on_net (λ _. r) s) s.polls.net (returns p) (λ e. raises (q e))

  -- `ZmqAssert` of any return code, with the rest of the method.
  pub Returns-loop_assert :
      (b : Bool) (k : Cmd (React n z) Value) (s : React n z)
      → Returns P Q (k s)
      → P qfalse s
      → ((e : Exc) → Q e s)
      → Returns P Q (loop_assert b k s)
  Returns-loop_assert true k s h p q = h
  Returns-loop_assert false k s h p q = Returns-loop_failed s p q

module _ {n : Zsocket} {z : Zlist} where
  -- `verbose=` of an item changes neither the items nor the library.
  abbrev SameItems : Polls n z → Polls n z → Type 0
  SameItems s t = (t.items ≡ s.items) × (t.net.world ≡ s.net.world)

  set_verbose-SameItems :
      (s : Polls n z) (u : ℕ) (it : Pollitem) (b : Bool)
      → s.items u ≡ some it
      → Returns (λ a t. SameItems s t) (λ e t. SameItems s t) (set_verbose u b s)
  unfolding set_verbose
  set_verbose-SameItems s u it b h = elim (Option-cases it.socket) [
    | inl e ↦ rw h (rw e (returns (refl, refl)))
    | inr (x, e) ↦ rw h (
        rw e (elim (Option-cases (s.net.socks x)) [
          | inl f ↦ rw f (raises (refl, refl))
          | inr (k, f) ↦ rw f (elim (Bool-cases k.destroyed) [
            | inl d ↦ rw d (raises (refl, refl))
            | inr d ↦ rw d (returns (refl, refl))
          ])
        ]))
  ]

module _ {n : Zsocket} {z : Zlist} (r : Reactors n) (v : ℕ) where
  Safe-of_polls :
      (s : React n z) {x : Run (Polls n z) Value}
      → Safe r s v
      → Returns (λ a t. SameItems s.polls t) (λ e t. SameItems s.polls t) x
      → Returns (λ a t. Safe r t v) (λ e t. Safe r t v) (of_polls x s)
  Safe-of_polls s y (returns same) = returns (Safe-same r s _ v refl refl same.0 same.1 y)
  Safe-of_polls s y (raises same) = raises (Safe-same r s _ v refl refl same.0 same.1 y)

  -- A new item takes the verbosity of the loop.
  pub Safe-verbose :
      (s : React n z) (u : ℕ) (it : Pollitem) (b : Bool)
      → Safe r s v
      → s.polls.items u ≡ some it
      → Returns
          (λ a t. Safe r t v)
          (λ e t. Safe r t v)
          ((if b then on_polls (set_verbose u true) else pure qnil) s)
  Safe-verbose s u it true y h = Safe-of_polls s y (set_verbose-SameItems s.polls u it true h)
  Safe-verbose s u it false y h = returns y
