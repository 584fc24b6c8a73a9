-- ===== src/Poller/Entries.antt =====
-- The entries of a poller of ext/rbczmq/poller.c as lists: none stands twice, and each is an item.
use rbczmq.Base.{
  ℕ, ◌≡◌, ◌≢◌, sym, subst, inl, inr, Option, none, some, List, [], ◌∷◌, ◌++◌, erase_all, NotIn,
  Distinct, Bool-cases, update, ne→==, ◌==◌,
}
use rbczmq.Pollitem.{Pollitem}
use rbczmq.Poller.Items.{Known}

pub NotIn-append : (x : ℕ) (us ws : List ℕ) → NotIn x (us ++ ws) → NotIn x us
NotIn-append x [] ws h = tt
NotIn-append x (u ∷ us) ws h = (h.0, NotIn-append x us ws h.1)

NotIn-snoc : (x u : ℕ) (us : List ℕ) → NotIn x us → x ≢ u → NotIn x (us ++ u ∷ [])
NotIn-snoc x u [] h ne = (ne, tt)
NotIn-snoc x u (w ∷ us) h ne = (h.0, NotIn-snoc x u us h.1 ne)

pub Distinct-snoc : (u : ℕ) (us : List ℕ) → Distinct us → NotIn u us → Distinct (us ++ u ∷ [])
Distinct-snoc u [] d h = (tt, tt)
Distinct-snoc u (w ∷ us) d h =
    (NotIn-snoc w u us d.0 (λ e. h.0 (sym e)), Distinct-snoc u us d.1 h.1)

NotIn-erase_all : (x u : ℕ) (us : List ℕ) → NotIn x us → NotIn x (erase_all u us)
NotIn-erase_all x u [] h = tt
NotIn-erase_all x u (w ∷ us) h = elim (Bool-cases (w == u)) [
  | inl e ↦ rw e (NotIn-erase_all x u us h.1)
  | inr e ↦ rw e (h.0, NotIn-erase_all x u us h.1)
]

pub Distinct-erase_all : (u : ℕ) (us : List ℕ) → Distinct us → Distinct (erase_all u us)
Distinct-erase_all u [] d = tt
Distinct-erase_all u (w ∷ us) d = elim (Bool-cases (w == u)) [
  | inl e ↦ rw e (Distinct-erase_all u us d.1)
  | inr e ↦ rw e (NotIn-erase_all w u us d.0, Distinct-erase_all u us d.1)
]

-- An entry that is none of them does not matter.
pub Known-update :
    (items : ℕ → Option Pollitem) (us : List ℕ) (is : List Pollitem) (x : ℕ) (e : Option Pollitem)
    → Known items us is
    → NotIn x us
    → Known (update items x e) us is
Known-update items [] [] x e h out = tt
Known-update items [] (i ∷ is) x e h out = absurd h
Known-update items (u ∷ us) [] x e h out = absurd h
Known-update items (u ∷ us) (i ∷ is) x e h out =
    (rw (ne→== (λ q. out.0 (sym q))) (h.0), Known-update items us is x e h.1 out.1)

-- Where there is no item, it is none of them.
pub Known-absent :
    (items : ℕ → Option Pollitem) (us : List ℕ) (is : List Pollitem) (x : ℕ)
    → Known items us is
    → items x ≡ none
    → NotIn x us
Known-absent items [] is x h e = tt
Known-absent items (u ∷ us) [] x h e = absurd h
Known-absent items (u ∷ us) (i ∷ is) x h e = (
  λ q.
      (let g : items u ≡ some i = h.0 in
        let f : items u ≡ none = subst (λ w. items w ≡ none) q e in cc (f, g)),
  Known-absent items us is x h.1 e,
)
