-- ===== src/Message/Refinement.antt =====
-- Sequences of `pushstr`, `addstr` and `popstr` of ext/rbczmq/message.c on one message, against a
-- double-ended queue of strings.
use rbczmq.Base.{
  ℕ, ◌+◌, ◌≡◌, ◌≢◌, refl, sym, subst, ap, ◌⊎◌, inl, inr, none, List, [], ◌∷◌, ◌++◌, Cmd, Run, Exc,
  pure, Returns, returns, raises, Returns-bind, Returns-mono, arith, ne→==, ==_self, ◌>>=◌,
}
use rbczmq.Czmq.{Bytes, Czmq, Documented, up_to_nul}
use rbczmq.Czmq.Zlist.{Zlist, ListLaws}
use rbczmq.Message.{pushstr, addstr, popstr}
use rbczmq.Message.Alloc.{Fresh}
use rbczmq.Message.Strings.{cell, pushstr_lem, addstr_lem, popstr_lem, last_frame}
use rbczmq.Message.Sync.{Cell, frames, bytes, Synced, Synced-world, Returns-call_failed}
use rbczmq.Objects.{Value, qnil, qtrue, qfalse, str, St}

pub data StringOp : Type 0 where
  pushes adds : Bytes → StringOp
  pops : StringOp

-- What one operation on a queue of strings may return and leave: an operation that adds may fail,
-- and what is taken out is cut at its first 0 byte.
abbrev pub Spec : StringOp → List Bytes → Value → List Bytes → Type 0
Spec (pushes d) l r l' = ((r ≡ qtrue) × (l' ≡ d ∷ l)) ⊎ ((r ≡ qfalse) × (l' ≡ l))
Spec (adds d) l r l' = ((r ≡ qtrue) × (l' ≡ l ++ d ∷ [])) ⊎ ((r ≡ qfalse) × (l' ≡ l))
Spec pops [] r l' = (r ≡ qnil) × (l' ≡ [])
Spec pops (d ∷ l) r l' = (r ≡ str (up_to_nul d)) × (l' ≡ l)

-- What a sequence of operations may return and leave.
abbrev pub Specs : List StringOp → List Bytes → List Value → List Bytes → Type 0
Specs [] l [] l' = l' ≡ l
Specs [] l (r ∷ rs) l' = ⊥
Specs (o ∷ os) l [] l' = ⊥
Specs (o ∷ os) l (r ∷ rs) l' = (m : List Bytes) × Spec o l r m × Specs os m rs l'

module _ {c : Czmq} {z : Zlist} where
  abbrev pub perform : ℕ → StringOp → Cmd (St c z) Value
  perform v (pushes d) = pushstr v (str d)
  perform v (adds d) = addstr v (str d)
  perform v pops = popstr v

  -- The operations in order, with all that they return.
  abbrev pub perform_all : ℕ → List StringOp → Cmd (St c z) (List Value)
  perform_all v [] = pure []
  perform_all v (o ∷ os) = do r ← perform v o; rs ← perform_all v os; pure (r ∷ rs)

module _ {S A : Type 0} {P P' : A → S → Type 0} {Q Q' : Exc → S → Type 0} where
  -- Two postconditions of one run.
  Returns-and :
      {r : Run S A}
      → Returns P Q r
      → Returns P' Q' r
      → Returns (λ a s. P a s × P' a s) (λ e s. Q e s × Q' e s) r
  Returns-and (returns p) (returns p') = returns (p, p')
  Returns-and (raises q) (raises q') = raises (q, q')

bytes-append : (xs : List Cell) (x : Cell) → bytes (xs ++ x ∷ []) ≡ bytes xs ++ x.bytes ∷ []
bytes-append [] x = refl
bytes-append (y ∷ xs) x = ap (◌∷◌ y.bytes) (bytes-append xs x)

module _ {c : Czmq} {z : Zlist} (laws : Documented c) (lists : ListLaws z) where
  abbrev Stays : Run (St c z) Value → Type 0
  Stays = Returns (λ r t. Fresh laws lists t) (λ e t. Fresh laws lists t)

  -- One more object leaves the references behind it unused.
  Fresh-next :
      (s : St c z) (i : ℕ)
      → Fresh laws lists s
      → (s.next + 1 + i ≢ s.next) × (s.frame_objs (s.next + 1 + i) ≡ none)
  Fresh-next s i f =
      let same : s.next + 1 + i ≡ s.next + (1 + i) = omega arith in
      (omega arith, rw same (f (1 + i)))

  first_free : (s : St c z) → Fresh laws lists s → s.frame_objs s.next ≡ none
  first_free s f =
      let same : s.next ≡ s.next + 0 = omega arith in
      subst (λ i. s.frame_objs i ≡ none) (sym same) (f 0)

  pushstr-Fresh :
      (s : St c z) (v : ℕ) (xs : List Cell) (d : Bytes)
      → Synced laws lists s v xs
      → Fresh laws lists s
      → Stays (pushstr v (str d) s)
  unfolding pushstr
  pushstr-Fresh s v xs d y f =
      rw y.object (elim (laws.pushmem_msg y.message d (frames xs) s.world y.native) [
        | inl (p, w, e, nz, dead, k) ↦
            let (w', e', k', _) =
              laws.first_msg y.message (p ∷ frames xs) w (rw (k, ==_self y.message)) in
            rw e (
              rw (e', ==_self s.next, y.object)
                (returns (λ i. (let (ne, h) = Fresh-next s i f in rw (ne→== ne) h))))
        | inr (w, e, k) ↦ rw e (Returns-call_failed _ f (λ _. f))
      ])

  addstr-Fresh :
      (s : St c z) (v : ℕ) (xs : List Cell) (d : Bytes)
      → Synced laws lists s v xs
      → Fresh laws lists s
      → Stays (addstr v (str d) s)
  unfolding addstr
  addstr-Fresh s v xs d y f =
      rw y.object (elim (laws.addmem_msg y.message d (frames xs) s.world y.native) [
        | inl (p, w, e, nz, dead, k) ↦
            let (w', e', k') =
              laws.last_msg y.message (frames xs ++ p ∷ []) w (rw (k, ==_self y.message)) in
            rw e (
              rw (e', last_frame, ==_self s.next, y.object)
                (returns (λ i. (let (ne, h) = Fresh-next s i f in rw (ne→== ne) h))))
        | inr (w, e, k) ↦ rw e (Returns-call_failed _ f (λ _. f))
      ])

  popstr-Fresh :
      (s : St c z) (v : ℕ) (x : Cell) (xs : List Cell)
      → Synced laws lists s v (x ∷ xs)
      → Fresh laws lists s
      → Stays (popstr v s)
  unfolding popstr
  popstr-Fresh s v x xs y f =
      let (w, e, k) =
        laws.popstr_msg y.message x.frame (frames xs) x.bytes s.world y.native y.linked.1 in
      rw (y.object, e) (rw y.object (returns f))

  popstr-none :
      (s : St c z) (v : ℕ)
      → Synced laws lists s v []
      → Fresh laws lists s
      → Returns
          (λ r t. (r ≡ qnil) × Synced laws lists t v [] × Fresh laws lists t)
          (λ e t. ⊥)
          (popstr v s)
  unfolding popstr
  popstr-none s v y f =
      let (w, e, k) = laws.popstr_empty y.message s.world y.native in
      rw (y.object, e) (returns (refl, Synced-world laws lists s w k y, f))

  -- In step with some frames, and with references to come.
  abbrev Ready : ℕ → List Cell → St c z → Type 0
  Ready v xs t = Synced laws lists t v xs × Fresh laws lists t

  -- One operation.
  perform_lem :
      (o : StringOp) (s : St c z) (v : ℕ) (xs : List Cell)
      → Ready v xs s
      → Returns
          (λ r t. (ys : List Cell) × Ready v ys t × Spec o (bytes xs) r (bytes ys))
          (λ e t. (ys : List Cell) × Ready v ys t)
          (perform v o s)
  perform_lem (pushes d) s v xs (y, f) =
      Returns-mono
        (Returns-and (pushstr_lem laws lists s v xs d y (first_free s f))
          (pushstr-Fresh s v xs d y f))
        (λ r t (a, g). elim a [
          | inl (p, e, x) ↦ (cell s.next p d ∷ xs, (x, g), inl (e, refl))
          | inr (e, x) ↦ (xs, (x, g), inr (e, refl))
        ])
        (λ e t (x, g). (xs, (x, g)))
  perform_lem (adds d) s v xs (y, f) =
      Returns-mono
        (Returns-and (addstr_lem laws lists s v xs d y (first_free s f))
          (addstr-Fresh s v xs d y f))
        (λ r t (a, g). elim a [
          | inl (p, e, x) ↦
              (xs ++ cell s.next p d ∷ [], (x, g), inl (e, bytes-append xs (cell s.next p d)))
          | inr (e, x) ↦ (xs, (x, g), inr (e, refl))
        ])
        (λ e t (x, g). (xs, (x, g)))
  perform_lem pops s v [] (y, f) =
      Returns-mono (popstr-none s v y f) (λ r t (e, x, g). ([], (x, g), (e, refl)))
        (λ e t q. absurd q)
  perform_lem pops s v (x ∷ xs) (y, f) =
      Returns-mono (Returns-and (popstr_lem laws lists s v x xs y) (popstr-Fresh s v x xs y f))
        (λ r t (a, g). (xs, (a.1, g), (a.0, refl))) (λ e t (q, g). absurd q)

  -- Any sequence of pushstr and addstr of strings and of popstr on a message in step, where no
  -- reference from the next one on is in use, refines a double-ended queue of strings: if all
  -- return, what they return and the data of the message afterwards, which is in step, are what
  -- the queue gives, where an operation that adds may return false and leave the queue, popstr
  -- returns the first string up to its first 0 byte, and nil of the empty queue; and if one raises
  -- an exception, the message is in step.
  pub perform_all_lem :
      (os : List StringOp) (s : St c z) (v : ℕ) (xs : List Cell)
      → Synced laws lists s v xs
      → Fresh laws lists s
      → Returns
          (λ rs t. (ys : List Cell) × Synced laws lists t v ys × Specs os (bytes xs) rs (bytes ys))
          (λ e t. (ys : List Cell) × Synced laws lists t v ys)
          (perform_all v os s)
  perform_all_lem [] s v xs y f = returns (xs, y, refl)
  perform_all_lem (o ∷ os) s v xs y f =
      Returns-bind
        (Returns-mono (perform_lem o s v xs (y, f)) (λ r t a. a) (λ e t (ys, a). (ys, a.0)))
        (λ r t (ys, a, now).
          Returns-bind (perform_all_lem os t v ys a.0 a.1)
            (λ rs x (us, b, later). returns (us, b, (bytes ys, now, later))))
