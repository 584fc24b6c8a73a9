-- ===== src/Poller/Removal.antt =====
-- `remove` of ext/rbczmq/poller.c.
use rbczmq.Base.{
  ℕ, suc, ◌+◌, ◌-◌, ◌≡◌, ◌≢◌, refl, sym, ap, subst, ◌⊎◌, inl, inr, true, ◌||◌, Option, none, some,
  List, [], ◌∷◌, ◌++◌, length, length-append, erase_all, NotIn, Distinct, type_error, ok, Returns,
  returns, raises, Bool-cases, Option-cases, arith, ◌==◌, ==_self, ne→==, ==_iff, if◌then◌else◌,
}
use mathlib.Core.List.{append_assoc}
use rbczmq.Czmq.Zlist.{Zlist}
use rbczmq.Net.{Zsocket}
use rbczmq.Objects.{qfalse, obj}
use rbczmq.Pollitem.{coerce_item, Pollitem, Polls, pollable_of}
use rbczmq.Poller.{rebuild, rebuild_pollset, remove, find, same_pollable}
use rbczmq.Poller.Items.{Known, WellFormed, get_elem-middle}

-- The item that `remove` looks for: the first that is the given item or has its pollable.
abbrev pub first_match : ℕ → Pollitem → List ℕ → List Pollitem → Option ℕ
first_match u it [] is = none
first_match u it (r ∷ us) [] = none
first_match u it (r ∷ us) (i ∷ is) =
    if (u == r) || same_pollable (pollable_of it) (pollable_of i)
    then some r
    else first_match u it us is

first_match-NotIn :
    (u : ℕ) (it : Pollitem) (us : List ℕ) (is : List Pollitem) (r x : ℕ)
    → first_match u it us is ≡ some r
    → NotIn x us
    → x ≢ r
first_match-NotIn u it [] is r x h out e = cc
first_match-NotIn u it (w ∷ us) [] r x h out e = cc
first_match-NotIn u it (w ∷ us) (i ∷ is) r x h out e =
    elim (Bool-cases ((u == w) || same_pollable (pollable_of it) (pollable_of i))) [
      | inl same ↦ (let g : some w ≡ some r = rw same at h in out.0 (cc (e, g)))
      | inr other ↦ first_match-NotIn u it us is r x (rw other at h) out.1 e
    ]

erase_all-absent : (r : ℕ) (us : List ℕ) → NotIn r us → erase_all r us ≡ us
erase_all-absent r [] h = refl
erase_all-absent r (w ∷ us) h =
    rw (ne→== (λ e. h.0 (sym e))) (ap (◌∷◌ w) (erase_all-absent r us h.1))

-- Without the item that was found there is one item less, and the others are known.
erase_all-Known :
    (items : ℕ → Option Pollitem) (u : ℕ) (it : Pollitem) (us : List ℕ) (is : List Pollitem) (r : ℕ)
    → Known items us is
    → Distinct us
    → first_match u it us is ≡ some r
    → (suc (length (erase_all r us)) ≡ length us)
      × ((js : List Pollitem) × Known items (erase_all r us) js)
erase_all-Known items u it [] is r k d h = cc
erase_all-Known items u it (w ∷ us) [] r k d h = absurd k
erase_all-Known items u it (w ∷ us) (i ∷ is) r k d h =
    elim (Bool-cases ((u == w) || same_pollable (pollable_of it) (pollable_of i))) [
      | inl same ↦
          (let g : some w ≡ some r = rw same at h in
            let e : w ≡ r = cc g in
            let out : NotIn r us = subst (λ x. NotIn x us) e d.0 in
            let f : (w == r) ≡ true = (==_iff w r).1 e in
            rw (f, erase_all-absent r us out) (refl, (is, k.1)))
      | inr other ↦
          (let g = rw other at h in
            let ne = first_match-NotIn u it us is r w g d.0 in
            let (len, (js, rest)) = erase_all-Known items u it us is r k.1 d.1 g in
            rw (ne→== ne) (ap suc len, (i ∷ js, (k.0, rest))))
    ]

module _ {n : Zsocket} {z : Zlist} where
  find_lem :
      (s : Polls n z) (u : ℕ) (it : Pollitem) (pre us : List ℕ) (is : List Pollitem) (k : ℕ)
      → Known s.items us is
      → k ≡ length pre
      → find (length us) (pre ++ us) k u it s ≡ ok (first_match u it us is) s
  unfolding find
  find_lem s u it pre [] [] k h e = refl
  find_lem s u it pre [] (i ∷ is) k h e = absurd h
  find_lem s u it pre (r ∷ us) [] k h e = absurd h
  find_lem s u it pre (r ∷ us) (i ∷ is) k h e =
      let split : pre ++ r ∷ us ≡ (pre ++ r ∷ []) ++ us = sym (append_assoc pre (r ∷ []) us) in
      let there : k + 1 ≡ length (pre ++ r ∷ []) = omega (arith, e, length-append pre (r ∷ [])) in
      rw (get_elem-middle pre us r k e, h.0)
        (elim (Bool-cases ((u == r) || same_pollable (pollable_of it) (pollable_of i))) [
          | inl same ↦ rw same refl
          | inr other ↦ rw (other, split) (find_lem s u it (pre ++ r ∷ []) us is (k + 1) h.1 there)
        ])

  -- remove of an item on a poller in order on which no item stands twice takes away the first item
  -- that is the given one or has the same pollable, returns it and leaves the poller in order with
  -- the rest, changing no other part of the state than the pollers, or returns false and changes
  -- nothing if there is none. It raises nothing.
  pub remove_keeps :
      (s : Polls n z) (v u : ℕ) (it : Pollitem) (us : List ℕ) (is : List Pollitem)
      → WellFormed s v us is
      → Distinct us
      → s.items u ≡ some it
      → Returns
          (λ r t.
            ((r ≡ qfalse) × (first_match u it us is ≡ none) × (t ≡ s))
            ⊎ ((w : ℕ) × (r ≡ obj w)
                × (first_match u it us is ≡ some w)
                × ((js : List Pollitem) × WellFormed t v (erase_all w us) js)
                × (t ≡ record s { pollers = t.pollers })))
          (λ e t. ⊥)
          (remove v u s)
  unfolding remove
  remove_keeps s v u it us is y d h = rw y.object (
      rw (coerce_item s u it h) (
        rw h (
          rw (find_lem s u it [] us is 0 y.known refl)
            (elim (Option-cases (first_match u it us is)) [
              | inl none_found ↦ rw none_found (returns (inl (refl, refl, refl)))
              | inr (w, found) ↦
                  (let (len, (js, rest)) = erase_all-Known s.items u it us is w y.known d found in
                    let count : length us - 1 ≡ length (erase_all w us) = omega (arith, len) in
                    rw found (
                      returns (
                        inr (
                          w,
                          refl,
                          refl,
                          (
                            js,
                            record {
                              readables = y.readables;
                              writables = y.writables;
                              pollset = y.pollset;
                              dirty = true;
                              verbose = y.verbose;
                              object = rw (==_self v, count);
                              known = rest;
                              current = λ h e. cc;
                            },
                          ),
                          refl,
                        ))))
            ]))))

  -- On a poller in order that has one item twice and no other, remove of that item returns it, and
  -- rebuilding the array afterwards raises a TypeError, since the count is one and no item is
  -- left.
  pub remove_twice :
      (s : Polls n z) (v u : ℕ) (it : Pollitem)
      → WellFormed s v (u ∷ u ∷ []) (it ∷ it ∷ [])
      → Returns
          (λ r t. (r ≡ obj u) × Returns (λ a t'. ⊥) (λ e t'. e ≡ type_error) (rebuild_pollset v t))
          (λ e t. ⊥)
          (remove v u s)
  unfolding remove rebuild_pollset rebuild
  remove_twice s v u it y =
      let own : (u == u) ≡ true = ==_self u in
      rw y.object (
        rw (coerce_item s u it y.known.0) (
          rw (y.known.0) (
            rw (find_lem s u it [] (u ∷ u ∷ []) (it ∷ it ∷ []) 0 y.known refl)
              (rw own (returns (refl, rw (==_self v) (rw own (raises refl))))))))
