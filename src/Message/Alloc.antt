-- ===== src/Message/Alloc.antt =====
-- `rb_czmq_alloc_message` of ext/rbczmq/message.c and the methods that end in it: `ZMQ::Message.new`
-- and `dup`. A message of the library gets a Ruby object for itself and one for each frame.
use native.Mathlib.Nat.{add-zero, add_assoc}
use mathlib.Core.List.{append-nil, append_assoc}
use rbczmq.Base.{
  map, fault, Bool-cases, Exc, ℕ, zero, suc, ◌+◌, ◌<◌, ◌≡◌, ◌≢◌, refl, sym, ◌∙◌, ap, subst, true,
  none, some, List, [], ◌∷◌, ◌++◌, length, Returns, returns, raises, Returns-bind, Returns-mono,
  NotIn, NonNull, Distinct, Table, arith, ==_self, ne→==, head_or, tail, inl, inr, zmq_error,
}
use rbczmq.Czmq.{Ptr, Bytes, Czmq, Documented}
use rbczmq.Czmq.Zlist.{Zlist, ListLaws}
use rbczmq.Message.{alloc_frames, alloc_message, new, free_message, free_message_gc}
use rbczmq.Message.Copies.{dup}
use rbczmq.Message.Sync.{
  Cell, refs, frames, bytes, Linked, Synced, NotIn-refs, Linked-put, Linked-append, Linked-live,
  frames_eq, refs-append, frames-append,
}
use rbczmq.Objects.{FrameObj, Value, obj, St, alloc_failed, dangled, is_sys_error}

-- The cells of frames whose objects are numbered from `n` on.
abbrev pub numbered : ℕ → List (Ptr × Bytes) → List Cell
numbered n [] = []
numbered n ((p, d) ∷ ps) = record { ref = n; frame = p; bytes = d } ∷ numbered (n + 1) ps

-- The frames are live and hold these data.
abbrev pub Live : Table Bytes → List (Ptr × Bytes) → Type 0
Live live [] = Unit
Live live ((p, d) ∷ ps) = (live p ≡ some d) × Live live ps

abbrev pub ptrs : List (Ptr × Bytes) → List Ptr
ptrs [] = []
ptrs ((p, d) ∷ ps) = p ∷ ptrs ps

frames-numbered : (n : ℕ) (ps : List (Ptr × Bytes)) → frames (numbered n ps) ≡ ptrs ps
frames-numbered n [] = refl
frames-numbered n ((p, d) ∷ ps) = ap (◌∷◌ p) (frames-numbered (n + 1) ps)

Distinct-middle : (ps : List Ptr) (p : Ptr) (qs : List Ptr) → Distinct (ps ++ p ∷ qs) → NotIn p ps
Distinct-middle [] p qs d = tt
Distinct-middle (x ∷ ps) p qs d = (λ e. at_middle ps d.0 (sym e), Distinct-middle ps p qs d.1)
  where
    at_middle : (rs : List Ptr) → NotIn x (rs ++ p ∷ qs) → x ≢ p
    at_middle [] h = h.0
    at_middle (r ∷ rs) h = at_middle rs h.1

abbrev pub datas : List (Ptr × Bytes) → List Bytes
datas [] = []
datas ((p, d) ∷ ps) = d ∷ datas ps

pub bytes-numbered : (n : ℕ) (ps : List (Ptr × Bytes)) → bytes (numbered n ps) ≡ datas ps
bytes-numbered n [] = refl
bytes-numbered n ((p, d) ∷ ps) = ap (◌∷◌ d) (bytes-numbered (n + 1) ps)

-- Frames that hold known data, as pairs.
pub pair_up :
    (t : Table Bytes) (qs : List Ptr) (bs : List Bytes)
    → map t qs ≡ map some bs
    → (ps : List (Ptr × Bytes)) × (ptrs ps ≡ qs) × Live t ps × (datas ps ≡ bs)
pair_up t [] [] e = ([], refl, tt, refl)
pair_up t [] (b ∷ bs) e = cc
pair_up t (q ∷ qs) [] e = cc
pair_up t (q ∷ qs) (b ∷ bs) e =
    let (ps, f, l, g) = pair_up t qs bs (ap tail e) in
    ((q, b) ∷ ps, ap (◌∷◌ q) f, (ap (head_or none) e, l), ap (◌∷◌ b) g)

pub contents-frames :
    (objs : Table FrameObj) (live : Table Bytes) (v : ℕ) (xs : List Cell)
    → Linked objs live v xs
    → map live (frames xs) ≡ map some (bytes xs)
contents-frames objs live v [] l = refl
contents-frames objs live v (x ∷ xs) l = rw (l.1, contents-frames objs live v xs l.4)

pub length-datas : (ps : List (Ptr × Bytes)) → length ps ≡ length (datas ps)
length-datas [] = refl
length-datas ((p, d) ∷ ps) = ap suc (length-datas ps)

pub length-bytes : (xs : List Cell) → length (bytes xs) ≡ length xs
length-bytes [] = refl
length-bytes (x ∷ xs) = ap suc (length-bytes xs)

module _ {c : Czmq} {z : Zlist} {P : Value → St c z → Type 0} {Q : Exc → St c z → Type 0} where
  Returns-alloc_failed : (s : St c z) → ((e : Exc) → Q e (dangled s)) → Returns P Q (alloc_failed s)
  Returns-alloc_failed s q = elim (Bool-cases (is_sys_error (c.zmq_errno s.world))) [
    | inl e ↦ rw e (raises (q _))
    | inr e ↦ rw e (raises (q _))
  ]

module _ {c : Czmq} {z : Zlist} (laws : Documented c) (lists : ListLaws z) where
  -- One more object has lost its struct, so that the collector will read a struct that is gone.
  abbrev pub Dangling : (s t : St c z) → Type 0
  Dangling s t =
      (t.dangling ≡ s.next ∷ s.dangling)
      × (t.message_objs ≡ s.message_objs)
      × (s.message_objs s.next ≡ none → free_message_gc s.next t ≡ fault)

  -- No reference from `next` on is in use.
  abbrev pub Fresh : St c z → Type 0
  Fresh s = (i : ℕ) → s.frame_objs (s.next + i) ≡ none

  -- The loop links a new object to each frame that the cursor has yet to return.
  alloc_frames_lem :
      (k : ℕ) (s : St c z) (v : ℕ) (xs : List Cell) (ps : List (Ptr × Bytes)) (m : Ptr) (l : z.L)
      → s.message_objs v ≡ some (record { message = m; owned = true; frames = some l })
      → lists.items l ≡ refs xs
      → (laws.view s.world).msgs m ≡ some (frames xs ++ ptrs ps)
      → Linked s.frame_objs (laws.view s.world).frames v xs
      → Live (laws.view s.world).frames ps
      → ((p : Ptr) (qs : List Ptr) → ptrs ps ≡ p ∷ qs → laws.cursor s.world m ≡ qs)
      → Distinct (frames xs ++ ptrs ps)
      → NonNull (ptrs ps)
      → Fresh s
      → length ps < k
      → Returns
          (λ r t.
            Synced laws lists t v (xs ++ numbered s.next ps)
            × (laws.view t.world ≡ laws.view s.world))
          (λ e t. ⊥)
          (alloc_frames k v m (head_or 0 (ptrs ps)) s)
  unfolding alloc_frames
  alloc_frames_lem zero s v xs ps m l o i n y live cur d nn f h = absurd (omega arith)
  alloc_frames_lem (suc k) s v xs [] m l o i n y live cur d nn f h = returns (
    rw append-nil (record {
      message = m;
      list = l;
      object = o;
      items = i;
      native = rw append-nil at n;
      linked = y;
    }),
    refl,
  )
  alloc_frames_lem (suc k) s v xs ((p, b) ∷ ps) m l o i n y live cur d nn f h =
      let x : Cell = record { ref = s.next; frame = p; bytes = b } in
      let free : s.frame_objs s.next ≡ none = rw add-zero at (f 0) in
      let (w, e, k₁, cur') = laws.next_msg m (frames xs ++ p ∷ ptrs ps) s.world n in
      let out : NotIn s.next (refs xs) = NotIn-refs v _ _ s.next xs (λ q g. cc (sym free ∙ g)) y in
      rw (ne→== nn.0) (
        rw (==_self s.next) (
          rw (o, e)
            (rw (cur p (ptrs ps) refl) (
              Returns-mono
                (alloc_frames_lem k _ v (xs ++ x ∷ []) ps m (z.zlist_append s.next l)
                  (rw (==_self v))
                  (rw refs-append (lists.items-append s.next l ∙ ap (λ r. r ++ s.next ∷ []) i))
                  (rw (k₁, frames-append, append_assoc (frames xs) (p ∷ []) (ptrs ps)) n)
                  (Linked-append v _ _ xs x out (Distinct-middle (frames xs) p (ptrs ps) d)
                    (rw (==_self s.next)) (rw k₁ live.0)
                    (Linked-live v _ _ xs (frames_eq k₁)
                      (Linked-put v _ _ s.next _ xs out (Linked-put v _ _ s.next _ xs out y))))
                  (subst (λ t. Live t ps) (sym (frames_eq k₁)) live.1)
                  (λ q qs g. cur' q qs (cur p (ptrs ps) refl ∙ g))
                  (rw (frames-append, append_assoc (frames xs) (p ∷ []) (ptrs ps)) d) nn.1
                  (λ j.
                    let off : s.next + 1 + j ≢ s.next = omega arith in
                    rw (ne→== off, add_assoc s.next 1 j) (f (1 + j)))
                  (omega arith))
                (λ a t (r, g).
                  (rw (append_assoc xs (x ∷ []) (numbered (s.next + 1) ps)) at r, g ∙ k₁))
                (λ e t q. q)))))

  -- A message of the library gets an object with one new object for each frame, in order.
  pub alloc_message_lem :
      (k : ℕ) (s : St c z) (ps : List (Ptr × Bytes)) (m : Ptr)
      → m ≢ 0
      → (laws.view s.world).msgs m ≡ some (ptrs ps)
      → Live (laws.view s.world).frames ps
      → Distinct (ptrs ps)
      → NonNull (ptrs ps)
      → Fresh s
      → length ps < k
      → Returns
          (λ r t. (r ≡ obj s.next) × Synced laws lists t s.next (numbered (s.next + 1) ps))
          (λ e t. ⊥)
          (alloc_message k m s)
  unfolding alloc_message
  alloc_message_lem k s ps m nz n live d nn f h =
      let (w, e, k₁, cur) = laws.first_msg m (ptrs ps) s.world n in
      rw (ne→== nz, e)
        (Returns-bind
          (alloc_frames_lem k _ s.next [] ps m z.zlist_new (rw (==_self s.next)) lists.items-new
            (rw k₁ n) tt (subst (λ t. Live t ps) (sym (frames_eq k₁)) live)
            (λ q qs g. cur ∙ ap tail g) d nn (λ j. rw (add_assoc s.next 1 j) (f (1 + j))) h)
          (λ a t r. returns (refl, r.0)))

  alloc_message-null : (k : ℕ) (s : St c z) → alloc_message k 0 s ≡ alloc_failed s
  unfolding alloc_message
  alloc_message-null k s = refl

  -- ZMQ::Message.new with fuel, where no reference from the next one on is in use, returns a
  -- message in step without frames under the next reference, or raises a ZMQ::Error and leaves the
  -- library's frames and messages as they were.
  new_lem :
      (k : ℕ) (s : St c z)
      → Fresh s
      → Returns
          (λ r t. (r ≡ obj s.next) × Synced laws lists t s.next [])
          (λ e t. (e ≡ zmq_error) × (laws.view t.world ≡ laws.view s.world))
          (new (suc k) s)
  unfolding new
  new_lem k s f = elim (laws.new_msg s.world) [
    | inl (m, w, e, nz, none_yet, k₁) ↦
        rw (e, ne→== nz)
          (Returns-mono
            (alloc_message_lem (suc k) (record s { world = w }) [] m nz (rw (k₁, ==_self m)) tt tt
              tt f (omega arith))
            (λ a t r. r) (λ b t q. absurd q))
    | inr (w, e, k₁) ↦ rw e (raises (refl, k₁))
  ]

  -- dup of a message in step, where no reference from the next one on is in use and with more fuel
  -- than frames, returns a new message in step whose frames hold the same data in the same order.
  -- Or it raises an exception and leaves the library's frames and messages and every message
  -- struct as they were, but also an object under the next reference whose struct has been freed,
  -- and which the collector cannot free without reading that struct.
  pub dup_lem :
      (k : ℕ) (s : St c z) (v : ℕ) (xs : List Cell)
      → Synced laws lists s v xs
      → Fresh s
      → length xs < k
      → Returns
          (λ r t.
            (r ≡ obj s.next)
            × ((ys : List Cell) × Synced laws lists t s.next ys × (bytes ys ≡ bytes xs)))
          (λ e t. (laws.view t.world ≡ laws.view s.world) × Dangling s t)
          (dup k v s)
  unfolding dup free_message_gc free_message
  dup_lem k s v xs y f h = elim (laws.dup_msg y.message (frames xs) s.world y.native) [
    | inl (m, qs, w, e, nz, n, d, nn, same, keeps, others, was) ↦
        let (ps, f₁, l, g) =
          pair_up (laws.view w).frames qs (bytes xs) (same ∙ contents-frames _ _ v xs y.linked) in
        let len : length ps < k = omega (arith, length-datas ps, ap length g, length-bytes xs) in
        rw (y.object, e)
          (Returns-mono
            (alloc_message_lem k (record s { world = w }) ps m nz (rw f₁ n) l (rw f₁ d) (rw f₁ nn) f
              len)
            (λ a t r. (r.0, (numbered (s.next + 1) ps, r.1, bytes-numbered (s.next + 1) ps ∙ g)))
            (λ b t q. absurd q))
    | inr (w, e, k₁) ↦
        let failed =
          Returns-alloc_failed (record s { world = w }) (λ _. (k₁, (refl, refl, λ g. rw g refl))) in
        rw (y.object, e) (rw (alloc_message-null k (record s { world = w })) failed)
  ]
