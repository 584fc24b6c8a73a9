-- ===== src/Message/Iteration.antt =====
-- `first` and `next` of ext/rbczmq/message.c move the cursor of the message's list, and so does
-- `rb_czmq_mark_message`, whenever the collector runs.
use mathlib.Core.List.{append-nil, append_assoc}
use rbczmq.Base.{
  ℕ, zero, suc, ◌<◌, ◌≡◌, refl, sym, ◌∙◌, ap, none, some, List, [], ◌∷◌, ◌++◌, length, Cmd, Returns,
  returns, Returns-bind, Returns-mono, NonNull, arith, fault, pure, ◌>>=◌, ne→==, head_or,
}
use rbczmq.Czmq.{Czmq, Documented}
use rbczmq.Czmq.Zlist.{Zlist, ListLaws, from_first}
use rbczmq.Message.Cursor.{first, next, mark, to_a}
use rbczmq.Message.Access.{collect_lem, to_a_lem}
use rbczmq.Message.Sync.{Cell, refs, Synced, Synced-list}
use rbczmq.Objects.{Value, obj, arr, St, or_nil}

module _ {c : Czmq} {z : Zlist} where
  -- What a program writes to see every frame: first, and then next until it returns nil.
  abbrev pub each_from : (fuel message : ℕ) → List ℕ → Value → Cmd (St c z) (List ℕ)
  each_from zero v seen r = λ _. fault
  each_from (suc k) v seen (obj u) = do r ← next v; each_from k v (seen ++ u ∷ []) r
  each_from (suc k) v seen _ = pure seen

  abbrev pub each : (fuel message : ℕ) → Cmd (St c z) (List ℕ)
  each k v = do r ← first v; each_from k v [] r

module _ {c : Czmq} {z : Zlist} (laws : Documented c) (lists : ListLaws z) where
  module _ (s : St c z) (v : ℕ) (xs : List Cell) (y : Synced laws lists s v xs) where
    -- A message in step whose cursor stands before the references of a list.
    abbrev Before : St c z → List ℕ → Type 0
    Before t us = (y' : Synced laws lists t v xs) × (lists.ahead y'.list ≡ from_first us)

    first-Before :
        Returns
          (λ r t. (r ≡ or_nil (head_or 0 (refs xs))) × Before t (refs xs))
          (λ e t. ⊥)
          (first v s)
    unfolding first
    first-Before =
        let got = lists.first_value y.list ∙ ap (head_or 0) y.items in
        rw (y.object) (
          rw (y.object, got)
            (returns (
              refl,
              (
                Synced-list laws lists s v xs y (z.zlist_first y.list).1
                    (lists.items-first y.list ∙ y.items),
                lists.ahead-first y.list ∙ ap from_first y.items,
              ),
            )))

    next-Before :
        (us : List ℕ)
        → lists.ahead y.list ≡ some us
        → Returns (λ r t. (r ≡ or_nil (head_or 0 us)) × Before t us) (λ e t. ⊥) (next v s)
    unfolding next
    next-Before us a =
        let got = lists.next_value y.list us a in
        rw (y.object) (
          rw (y.object, got)
            (returns (
              refl,
              (
                Synced-list laws lists s v xs y (z.zlist_next y.list).1
                    (lists.items-next y.list ∙ y.items),
                lists.ahead-next y.list us a,
              ),
            )))

  -- Off the list.
  next_beyond :
      (s : St c z) (v : ℕ) (xs : List Cell) (y : Synced laws lists s v xs)
      → lists.ahead y.list ≡ none
      → Returns (λ r t. r ≡ or_nil (lists.after_end (refs xs))) (λ e t. ⊥) (next v s)
  unfolding next
  next_beyond s v xs y a =
      let got = lists.next_beyond y.list a ∙ ap lists.after_end y.items in
      rw (y.object) (rw (y.object, got) (returns refl))

  -- The loop of a program that sees every frame.
  each_from_lem :
      (k : ℕ) (s : St c z) (v : ℕ) (xs : List Cell) (seen us : List ℕ)
      (y : Synced laws lists s v xs)
      → lists.ahead y.list ≡ from_first us
      → NonNull us
      → length us < k
      → Returns
          (λ r t. (r ≡ seen ++ us) × Synced laws lists t v xs)
          (λ e t. ⊥)
          (each_from k v seen (or_nil (head_or 0 us)) s)
  each_from_lem zero s v xs seen us y a n h = absurd (omega arith)
  each_from_lem (suc k) s v xs seen [] y a n h = returns (sym (append-nil seen), y)
  each_from_lem (suc k) s v xs seen (u ∷ us) y a n h = rw (ne→== n.0) (
      Returns-bind (next-Before s v xs y us a) λ r t d. rw (d.0) (
        rw (← append_assoc seen (u ∷ []) us)
          (each_from_lem k t v xs (seen ++ u ∷ []) us d.1.0 d.1.1 n.1 (omega arith))))

  -- first and then next, until it returns nil, on a message in step whose objects are not NULL,
  -- with more fuel than frames and without the collector in between, visits the objects of all
  -- frames in order, leaves the message in step, and to_a then returns an array of just these.
  -- Nothing is raised.
  pub each_lem :
      (k : ℕ) (s : St c z) (v : ℕ) (xs : List Cell)
      → Synced laws lists s v xs
      → NonNull (refs xs)
      → length (refs xs) < k
      → Returns
          (λ r t.
            (r ≡ refs xs)
            × Synced laws lists t v xs
            × Returns (λ a t'. (a ≡ arr r) × Synced laws lists t' v xs) (λ e t'. ⊥) (to_a k v t))
          (λ e t. ⊥)
          (each k v s)
  each_lem k s v xs y n h = Returns-bind (first-Before s v xs y) λ r t d. rw (d.0) (
      Returns-mono (each_from_lem k t v xs [] (refs xs) d.1.0 d.1.1 n h)
        (λ r' t' q. (q.0, q.1, rw (q.0) (to_a_lem laws lists k t' v xs q.1 n h))) (λ e t' q. q))

  -- On a message in step whose objects are not NULL, with more fuel than frames, marking for the
  -- collector is defined, marks exactly the objects of the message's frames, in order, and leaves
  -- the message in step. But it moves the cursor: next returns the object ahead of the cursor, nil
  -- at the end, where the collector has not run, and where it has, what the list gives beyond its
  -- end, wherever the cursor stood.
  pub mark_lem :
      (k : ℕ) (s : St c z) (v : ℕ) (xs : List Cell) (y : Synced laws lists s v xs) (us : List ℕ)
      → lists.ahead y.list ≡ some us
      → NonNull (refs xs)
      → length (refs xs) < k
      → Returns (λ r t. r ≡ or_nil (head_or 0 us)) (λ e t. ⊥) (next v s)
        × Returns
            (λ r t.
              (r ≡ refs xs)
              × Synced laws lists t v xs
              × Returns (λ a t'. a ≡ or_nil (lists.after_end (refs xs))) (λ e t'. ⊥) (next v t))
            (λ e t. ⊥)
            (mark k v s)
  unfolding mark
  mark_lem k s v xs y us a n h =
      let got = lists.first_value y.list ∙ ap (head_or 0) y.items in
      (
        Returns-mono (next-Before s v xs y us a) (λ r t d. d.0) (λ e t q. q),
        rw (y.object) (
            rw (y.object, got)
              (Returns-mono
                (collect_lem laws lists k _ v xs [] (refs xs)
                  (Synced-list laws lists s v xs y (z.zlist_first y.list).1
                    (lists.items-first y.list ∙ y.items))
                  (lists.ahead-first y.list ∙ ap from_first y.items) n h)
                (λ r t d. (d.0, d.1.0, next_beyond t v xs d.1.0 d.1.1)) (λ e t q. q))),
      )
