-- ===== src/Poller/Selection.antt =====
-- What `poll` of ext/rbczmq/poller.c selects: the items that libzmq reports, in order.
use mathlib.Core.List.{append_assoc}
use rbczmq.Base.{
  ℕ, zero, suc, ◌+◌, ◌≡◌, refl, sym, Bool, true, false, Option, none, some, List, [], ◌∷◌, ◌++◌,
  length, length-append, get_elem?, ok, update, arith, if◌then◌else◌, ℤ,
}
use rbczmq.Czmq.Zlist.{Zlist}
use rbczmq.Net.{Zsocket}
use rbczmq.Poller.{select, rebuild_selectables, rebuild_pollset}
use rbczmq.Poller.Items.{raws, Known, get_elem-middle, rebuild_lem}
use rbczmq.Pollitem.{RawItem, Pollitem, Poller, Polls, pollable_of, is_in, is_out}

-- The pollables of the items whose events pass the test, in order.
abbrev pub chosen : (ℤ → Bool) → List ℤ → List Pollitem → List (Option ℕ)
chosen test [] is = []
chosen test (e ∷ es) [] = []
chosen test (e ∷ es) (i ∷ is) =
    if test e then pollable_of i ∷ chosen test es is else chosen test es is

get_event-middle :
    (pre es : List ℤ) (e : ℤ) (k : ℕ) → k ≡ length pre → get_elem? (pre ++ e ∷ es) k ≡ some e
get_event-middle [] es e zero h = refl
get_event-middle [] es e (suc k) h = absurd (omega arith)
get_event-middle (x ∷ pre) es e zero h = absurd (omega arith)
get_event-middle (x ∷ pre) es e (suc k) h = get_event-middle pre es e k (omega arith)

-- The poller with an array that holds its items, and these lists.
abbrev pub ready : List ℕ → List Pollitem → Bool → (rs ws : List (Option ℕ)) → Poller
ready us is verbose rs ws = record {
  pollables = us;
  readables = rs;
  writables = ws;
  pollset = some (raws is);
  poll_size = length us;
  dirty = false;
  verbose = verbose;
}

module _ {n : Zsocket} {z : Zlist} where
  select_lem :
      (s : Polls n z) (pre us : List ℕ) (before es : List ℤ) (is : List Pollitem) (k : ℕ)
      → Known s.items us is
      → length es ≡ length us
      → k ≡ length pre
      → k ≡ length before
      → select (length us) (pre ++ us) (before ++ es) k s
        ≡ ok (chosen is_in es is, chosen is_out es is) s
  unfolding select
  select_lem s pre [] before [] [] k h l e f = refl
  select_lem s pre [] before (x ∷ es) [] k h l e f = absurd (omega (arith, l))
  select_lem s pre [] before es (i ∷ is) k h l e f = absurd h
  select_lem s pre (u ∷ us) before es [] k h l e f = absurd h
  select_lem s pre (u ∷ us) before [] (i ∷ is) k h l e f = absurd (omega (arith, l))
  select_lem s pre (u ∷ us) before (x ∷ es) (i ∷ is) k h l e f =
      let split : pre ++ u ∷ us ≡ (pre ++ u ∷ []) ++ us = sym (append_assoc pre (u ∷ []) us) in
      let parted : before ++ x ∷ es ≡ (before ++ x ∷ []) ++ es =
        sym (append_assoc before (x ∷ []) es) in
      let there : k + 1 ≡ length (pre ++ u ∷ []) = omega (arith, e, length-append pre (u ∷ [])) in
      let same : k + 1 ≡ length (before ++ x ∷ []) =
        omega (arith, f, length-append before (x ∷ [])) in
      rw (get_event-middle before es x k f, get_elem-middle pre us u k e, h.0)
        (rw (split, parted)
          (rw
            (select_lem s (pre ++ u ∷ []) us (before ++ x ∷ []) es is (k + 1) h.1 (omega (arith, l))
              there same)
            refl))

  -- The states that the two rebuildings leave.
  abbrev pub filled :
      Polls n z
      → ℕ
      → List ℕ
      → List Pollitem
      → (rs ws : List (Option ℕ)) → (verbose : Bool) → Polls n z
  filled s v us is rs ws verbose = record s {
    pollers =
        update
          (update s.pollers v (
            some (record {
              pollables = us;
              readables = rs;
              writables = ws;
              pollset = none;
              poll_size = length us;
              dirty = true;
              verbose = verbose;
            })))
          v (some (ready us is verbose rs ws));
  }

  abbrev pub selected :
      Polls n z → ℕ → List ℕ → List Pollitem → List ℤ → (verbose : Bool) → Polls n z
  selected s v us is es verbose = record s {
    pollers =
        update (update s.pollers v (some (ready us is verbose [] []))) v
          (some (ready us is verbose (chosen is_in es is) (chosen is_out es is)));
  }

  pub rebuild_pollset-filled :
      (s : Polls n z) (v : ℕ) (us : List ℕ) (is : List Pollitem) (rs ws : List (Option ℕ))
      (set : Option (List RawItem)) (verbose : Bool)
      → s.pollers v
        ≡ some (record {
          pollables = us;
          readables = rs;
          writables = ws;
          pollset = set;
          poll_size = length us;
          dirty = true;
          verbose = verbose;
        })
      → Known s.items us is
      → rebuild_pollset v s ≡ ok tt (filled s v us is rs ws verbose)
  unfolding rebuild_pollset
  rebuild_pollset-filled s v us is rs ws set verbose h k =
      let emptied : Polls n z = record s {
        pollers = update s.pollers v (
            some (record {
              pollables = us;
              readables = rs;
              writables = ws;
              pollset = none;
              poll_size = length us;
              dirty = true;
              verbose = verbose;
            }));
      } in
      rw h (rw (rebuild_lem emptied [] us is 0 k refl) refl)

  pub rebuild_selectables-selected :
      (s : Polls n z) (v : ℕ) (us : List ℕ) (is : List Pollitem) (es : List ℤ) (verbose : Bool)
      → s.pollers v ≡ some (ready us is verbose [] [])
      → Known s.items us is
      → length es ≡ length us
      → rebuild_selectables v es s ≡ ok tt (selected s v us is es verbose)
  unfolding rebuild_selectables
  rebuild_selectables-selected s v us is es verbose h k l =
      let cleared : Polls n z = record s {
        pollers = update s.pollers v (some (ready us is verbose [] []));
      } in
      rw h (rw (select_lem cleared [] us [] es is 0 k l refl refl) refl)
