-- ===== src/Poller/Items.antt =====
-- The items of a poller, their count, and the array for libzmq.
use rbczmq.Base.{
  ℕ, ◌≢◌, zero, suc, ◌+◌, ◌≡◌, refl, sym, Bool, true, false, Option, none, some, List, [], ◌∷◌,
  ◌++◌, length, length-append, get_elem?, ok, Returns, returns, update, arith, ==_self,
}
use mathlib.Core.List.{append_assoc}
use rbczmq.Czmq.Zlist.{Zlist}
use rbczmq.Net.{Zsocket}
use rbczmq.Objects.{obj}
use rbczmq.Pollitem.{coerce_item, RawItem, Pollitem, Polls}
use rbczmq.Poller.{rebuild, rebuild_pollset, register}

-- What the array holds of items.
abbrev pub raws : List Pollitem → List RawItem
raws [] = []
raws (i ∷ is) = i.item ∷ raws is

-- The references are those of these items.
abbrev pub Known : (ℕ → Option Pollitem) → List ℕ → List Pollitem → Type 0
Known items [] [] = Unit
Known items [] (i ∷ is) = ⊥
Known items (u ∷ us) [] = ⊥
Known items (u ∷ us) (i ∷ is) = (items u ≡ some i) × Known items us is

pub get_elem-middle :
    (pre us : List ℕ) (u : ℕ) (k : ℕ) → k ≡ length pre → get_elem? (pre ++ u ∷ us) k ≡ some u
get_elem-middle [] us u zero h = refl
get_elem-middle [] us u (suc k) h = absurd (omega arith)
get_elem-middle (x ∷ pre) us u zero h = absurd (omega arith)
get_elem-middle (x ∷ pre) us u (suc k) h = get_elem-middle pre us u k (omega arith)

pub Known-append :
    (items : ℕ → Option Pollitem) (us : List ℕ) (is : List Pollitem) (u : ℕ) (i : Pollitem)
    → Known items us is
    → items u ≡ some i
    → Known items (us ++ u ∷ []) (is ++ i ∷ [])
Known-append items [] [] u i h e = (e, tt)
Known-append items [] (x ∷ is) u i h e = absurd h
Known-append items (w ∷ us) [] u i h e = absurd h
Known-append items (w ∷ us) (x ∷ is) u i h e = (h.0, Known-append items us is u i h.1 e)

module _ {n : Zsocket} {z : Zlist} where
  pub rebuild_lem :
      (s : Polls n z) (pre us : List ℕ) (is : List Pollitem) (k : ℕ)
      → Known s.items us is
      → k ≡ length pre
      → rebuild (length us) (pre ++ us) k s ≡ ok (raws is) s
  unfolding rebuild
  rebuild_lem s pre [] [] k h e = refl
  rebuild_lem s pre [] (i ∷ is) k h e = absurd h
  rebuild_lem s pre (u ∷ us) [] k h e = absurd h
  rebuild_lem s pre (u ∷ us) (i ∷ is) k h e =
      let split : pre ++ u ∷ us ≡ (pre ++ u ∷ []) ++ us = sym (append_assoc pre (u ∷ []) us) in
      let there : k + 1 ≡ length (pre ++ u ∷ []) = omega (arith, e, length-append pre (u ∷ [])) in
      rw (get_elem-middle pre us u k e, h.0)
        (rw split (rw (rebuild_lem s (pre ++ u ∷ []) us is (k + 1) h.1 there) refl))

  -- A poller of the items: the count is that of the items, and, where there are items, the array
  -- that is not marked as dirty holds them in order.
  pub record WellFormed (s : Polls n z) (v : ℕ) (us : List ℕ) (is : List Pollitem) : Type 0 where
    pub readables : List (Option ℕ)
    pub writables : List (Option ℕ)
    pub pollset : Option (List RawItem)
    pub dirty : Bool
    pub verbose : Bool
    pub object :
        s.pollers v
        ≡ some (record {
          pollables = us;
          readables = readables;
          writables = writables;
          pollset = pollset;
          poll_size = length us;
          dirty = dirty;
          verbose = verbose;
        })
    pub known : Known s.items us is
    pub current : length us ≢ 0 → dirty ≡ false → pollset ≡ some (raws is)

  -- Rebuilding the array of a poller in order raises nothing, and leaves the poller in order with
  -- an array that is not marked as dirty and holds what libzmq polls of each item, in order.
  rebuild_pollset_lem :
      (s : Polls n z) (v : ℕ) (us : List ℕ) (is : List Pollitem)
      → WellFormed s v us is
      → Returns
          (λ r t. (y : WellFormed t v us is) × (y.dirty ≡ false) × (y.pollset ≡ some (raws is)))
          (λ e t. ⊥)
          (rebuild_pollset v s)
  unfolding rebuild_pollset
  rebuild_pollset_lem s v us is y =
      let emptied : Polls n z = record s {
        pollers = update s.pollers v (
            some (record {
              pollables = us;
              readables = y.readables;
              writables = y.writables;
              pollset = none;
              poll_size = length us;
              dirty = y.dirty;
              verbose = y.verbose;
            }));
      } in
      rw y.object (
        rw (rebuild_lem emptied [] us is 0 y.known refl) (
          returns (
            record {
              readables = y.readables;
              writables = y.writables;
              pollset = some (raws is);
              dirty = false;
              verbose = y.verbose;
              object = rw (==_self v);
              known = y.known;
              current = λ _ _. refl;
            },
            refl,
            refl,
          )))

  -- register of an item on a poller that is in order (its count is that of its items, every entry
  -- is an item, and the array for libzmq, unless it is marked as dirty, holds them in order) and
  -- not verbose returns the item and leaves the poller in order with the item behind the others.
  -- It raises nothing.
  register_lem :
      (s : Polls n z) (v u : ℕ) (it : Pollitem) (us : List ℕ) (is : List Pollitem)
      (y : WellFormed s v us is)
      → y.verbose ≡ false
      → s.items u ≡ some it
      → Returns
          (λ r t. (r ≡ obj u) × WellFormed t v (us ++ u ∷ []) (is ++ it ∷ []))
          (λ e t. ⊥)
          (register v u s)
  unfolding register
  register_lem s v u it us is y quiet h =
      let count : length us + 1 ≡ length (us ++ u ∷ []) =
        omega (arith, length-append us (u ∷ [])) in
      rw y.object (
        rw (coerce_item s u it h) (
          rw (h, quiet)
            (returns (
              refl,
              record {
                readables = y.readables;
                writables = y.writables;
                pollset = y.pollset;
                dirty = true;
                verbose = false;
                object = rw (==_self v, count);
                known = Known-append s.items us is u it y.known h;
                current = λ h e. cc;
              },
            ))))
