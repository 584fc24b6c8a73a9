-- ===== src/Czmq/Ideal.antt =====
-- One library that behaves as documented, for examples: frames and messages in lists of entries,
-- where the first entry of an address counts and a new address is above all others.
use rbczmq.Base.{
  ℕ, ◌∙◌, sym, ◌<◌, ltb, Bool-cases, NotIn, Distinct, NonNull, ◌+◌, ◌≡◌, ◌≢◌, ◌≤◌, refl, ap, true,
  inl, inr, Option, none, some, List, [], ◌∷◌, ◌++◌, map, length, last_or, head_or, tail,
  erase_first, ◌==◌, if◌then◌else◌, Table, update, arith, ne→==, ==_self,
}
use rbczmq.Czmq.{Ptr, Bytes, Errno, Czmq, Store, Documented, drop_frames, bytes_eq, up_to_nul}
use rbczmq.Czmq.Codec.{join, parse, parse-join, Codec}
use mathlib.Core.Option

abbrev pub Entries : Type 0 → Type 0
Entries V = List (ℕ × Option V)

abbrev pub look : {V : Type 0} → Entries V → Table V
look [] q = none
look ((p, v) ∷ l) q = if q == p then v else look l q

-- An address above those of the entries, and not 0.
abbrev pub above : {V : Type 0} → Entries V → ℕ
above [] = 1
above ((p, v) ∷ l) = p + above l

above_pos : {V : Type 0} (l : Entries V) → 1 ≤ above l
above_pos [] = omega arith
above_pos ((p, v) ∷ l) = omega (arith, above_pos l)

look-above : {V : Type 0} (l : Entries V) (k : ℕ) → above l ≤ k → look l k ≡ none
look-above [] k h = refl
look-above ((p, v) ∷ l) k h =
    let ne : k ≢ p = omega (arith, above_pos l) in
    rw (ne→== ne) (look-above l k (omega (arith, above_pos l)))

pub record World : Type 0 where
  pub frames : Entries Bytes
  pub msgs : Entries (List Ptr)
  pub cursor : Ptr → List Ptr
  pub errno : Errno

abbrev pub view : World → Store
view w = record { frames = look w.frames; msgs = look w.msgs }

abbrev pub put_frame : World → Ptr → Option Bytes → World
put_frame w p d = record w { frames = (p, d) ∷ w.frames }

abbrev put_msg : World → Ptr → Option (List Ptr) → World
put_msg w m ps = record w { msgs = (m, ps) ∷ w.msgs }

abbrev pub drop_all : Entries Bytes → List Ptr → Entries Bytes
drop_all l [] = l
drop_all l (p ∷ ps) = (p, none) ∷ drop_all l ps

abbrev set_cursor : World → Ptr → List Ptr → World
set_cursor w m ps = record w { cursor = λ q. if q == m then ps else w.cursor q }

-- On a live message, on a live frame.
abbrev pub on_msg : {A : Type 0} → Ptr → World → (List Ptr → A) → Option A
on_msg m w f = Option.map f (look w.msgs m)

abbrev on_frame : {A : Type 0} → Ptr → World → (Bytes → A) → Option A
on_frame p w f = Option.map f (look w.frames p)

abbrev total : List (Option Bytes) → ℕ
total [] = 0
total (none ∷ ds) = total ds
total (some d ∷ ds) = length d + total ds

abbrev popstr : World → Ptr → List Ptr → Option Bytes × World
popstr w m [] = (none, w)
popstr w m (p ∷ ps) = (look w.frames p, put_msg (put_frame w p none) m (some ps))

-- The frames with a new one for each of the data, and the new ones.
abbrev pub copy : Entries Bytes → List (Option Bytes) → Entries Bytes × List Ptr
copy l [] = (l, [])
copy l (d ∷ ds) = let r = copy ((above l, d) ∷ l) ds in (r.0, above l ∷ r.1)

abbrev pub ideal : Czmq
ideal = record {
  World = World;
  zmq_errno = λ w. w.errno;
  zframe_new = λ d w. (above w.frames, put_frame w (above w.frames) (some d));
  zframe_destroy = λ p w. on_frame p w (λ d. put_frame w p none);
  zframe_size = λ p w. on_frame p w length;
  zframe_data = λ p w. look w.frames p;
  zframe_strhex = λ p w. look w.frames p;
  zframe_dup = λ p w. on_frame p w (λ d. (above w.frames, put_frame w (above w.frames) (some d)));
  zframe_streq = λ p s w. on_frame p w (λ d. bytes_eq d (up_to_nul s));
  zframe_more = λ p w. on_frame p w (λ d. 0);
  zframe_eq = λ p q w. Option.bind (look w.frames p) (λ d. on_frame q w (bytes_eq d));
  zframe_print = λ p s w. on_frame p w (λ d. w);
  zframe_reset = λ p e w. on_frame p w (λ d. put_frame w p (some e));
  zmsg_new = λ w. (above w.msgs, put_msg w (above w.msgs) (some []));
  zmsg_destroy = λ m w.
      on_msg m w (λ ps. record w { frames = drop_all w.frames ps; msgs = (m, none) ∷ w.msgs });
  zmsg_size = λ m w. on_msg m w length;
  zmsg_content_size = λ m w. on_msg m w (λ ps. total (map (look w.frames) ps));
  zmsg_push = λ m p w. on_msg m w (λ ps. (true, put_msg w m (some (p ∷ ps))));
  zmsg_add = λ m p w. on_msg m w (λ ps. (true, put_msg w m (some (ps ++ p ∷ []))));
  zmsg_pushmem = λ m d w.
      let p = above w.frames in
      on_msg m w (λ ps. (true, put_msg (put_frame w p (some d)) m (some (p ∷ ps))));
  zmsg_addmem = λ m d w.
      let p = above w.frames in
      on_msg m w (λ ps. (true, put_msg (put_frame w p (some d)) m (some (ps ++ p ∷ []))));
  zmsg_pop = λ m w. on_msg m w (λ ps. (head_or 0 ps, put_msg w m (some (tail ps))));
  zmsg_popstr = λ m w. on_msg m w (popstr w m);
  zmsg_remove = λ m p w. on_msg m w (λ ps. put_msg w m (some (erase_first p ps)));
  zmsg_wrap = λ m p w.
      let e = above w.frames in
      on_msg m w (λ ps. put_msg (put_frame w e (some [])) m (some (p ∷ e ∷ ps)));
  zmsg_first = λ m w. on_msg m w (λ ps. (head_or 0 ps, set_cursor w m (tail ps)));
  zmsg_next =
      λ m w. on_msg m w (λ ps. (head_or 0 (w.cursor m), set_cursor w m (tail (w.cursor m))));
  zmsg_last = λ m w. on_msg m w (λ ps. (last_or 0 ps, w));
  zmsg_dump = λ m w. on_msg m w (λ ps. w);
  zmsg_dup = λ m w. on_msg m w (λ ps.
      let r = copy w.frames (map (look w.frames) ps) in
      (above w.msgs, record w { frames = r.0; msgs = (above w.msgs, some r.1) ∷ w.msgs }));
  zmsg_encode = λ m w. on_msg m w (λ ps. join (map (look w.frames) ps));
  zmsg_decode = λ b w.
      let r = copy w.frames (parse b) in
      (above w.msgs, record w { frames = r.0; msgs = (above w.msgs, some r.1) ∷ w.msgs });
}

pub drop_all_lem :
    (l : Entries Bytes) (ps : List Ptr) → look (drop_all l ps) ≡ drop_frames (look l) ps
drop_all_lem l [] = refl
drop_all_lem l (p ∷ ps) = ap (λ t. update t p none) (drop_all_lem l ps)

pub new_ne_null : {V : Type 0} (l : Entries V) → above l ≢ 0
new_ne_null l = omega (arith, above_pos l)

pub new_is_free : {V : Type 0} (l : Entries V) → look l (above l) ≡ none
new_is_free l = look-above l (above l) (omega arith)

pub look-copy :
    (l : Entries Bytes) (ds : List (Option Bytes)) (q : Ptr)
    → q < above l
    → look (copy l ds).0 q ≡ look l q
look-copy l [] q h = refl
look-copy l (d ∷ ds) q h =
    let ne : q ≢ above l = omega (arith, h) in
    look-copy ((above l, d) ∷ l) ds q (omega (arith, h, above_pos l)) ∙ rw (ne→== ne)

copy-NotIn :
    (l : Entries Bytes) (ds : List (Option Bytes)) (q : Ptr) → q < above l → NotIn q (copy l ds).1
copy-NotIn l [] q h = tt
copy-NotIn l (d ∷ ds) q h =
    (omega (arith, h), copy-NotIn ((above l, d) ∷ l) ds q (omega (arith, h, above_pos l)))

pub copy-Distinct : (l : Entries Bytes) (ds : List (Option Bytes)) → Distinct (copy l ds).1
copy-Distinct l [] = tt
copy-Distinct l (d ∷ ds) = (
  copy-NotIn ((above l, d) ∷ l) ds (above l) (omega (arith, above_pos l)),
  copy-Distinct ((above l, d) ∷ l) ds,
)

pub copy-NonNull : (l : Entries Bytes) (ds : List (Option Bytes)) → NonNull (copy l ds).1
copy-NonNull l [] = tt
copy-NonNull l (d ∷ ds) = (omega (arith, above_pos l), copy-NonNull ((above l, d) ∷ l) ds)

pub contents-copy :
    (l : Entries Bytes) (ds : List (Option Bytes)) → map (look (copy l ds).0) (copy l ds).1 ≡ ds
contents-copy l [] = refl
contents-copy l (d ∷ ds) =
    let here : look (copy ((above l, d) ∷ l) ds).0 (above l) ≡ d =
      look-copy ((above l, d) ∷ l) ds (above l) (omega (arith, above_pos l))
      ∙ rw (==_self (above l)) in
    rw (here, contents-copy ((above l, d) ∷ l) ds)

-- A live address is below those to come.
pub below : {V : Type 0} (l : Entries V) (q : ℕ) (v : V) → look l q ≡ some v → q < above l
below l q v h = elim (Bool-cases (ltb q (above l))) [
  | inl less ↦ ground (arith, less)
  | inr more ↦
      (let far : above l ≤ q = ground (arith, more) in absurd (cc (sym (look-above l q far) ∙ h)))
]

abbrev pub ideal_laws : Documented ideal
ideal_laws = record {
  view = view;
  cursor = λ w. w.cursor;
  new_frame = λ d w. inl (_, _, refl, new_ne_null w.frames, new_is_free w.frames, refl);
  destroy_frame = λ p d w h. (put_frame w p none, rw h, refl);
  size_frame = λ p d w h. rw h;
  data_frame = λ p d w h. h;
  streq_frame = λ p d s w h. rw h;
  reset_frame = λ p d e w h. (put_frame w p (some e), rw h, refl);
  destroy_msg = λ m ps w h. (
    record w { frames = drop_all w.frames ps; msgs = (m, none) ∷ w.msgs },
    rw h,
    ap (λ (t : Table Bytes). record { frames = t; msgs = update (look w.msgs) m none })
        (drop_all_lem w.frames ps),
  );
  size_msg = λ m ps w h. rw h;
  push_msg = λ m p ps d w h k. inl (put_msg w m (some (p ∷ ps)), rw h, refl);
  add_msg = λ m p ps d w h k. inl (put_msg w m (some (ps ++ p ∷ [])), rw h, refl);
  pushmem_msg = λ m d ps w h. inl (
    above w.frames,
    put_msg (put_frame w (above w.frames) (some d)) m (some (above w.frames ∷ ps)),
    rw h,
    new_ne_null w.frames,
    new_is_free w.frames,
    refl,
  );
  addmem_msg = λ m d ps w h. inl (
    above w.frames,
    put_msg (put_frame w (above w.frames) (some d)) m (some (ps ++ above w.frames ∷ [])),
    rw h,
    new_ne_null w.frames,
    new_is_free w.frames,
    refl,
  );
  pop_msg = λ m ps w h. (put_msg w m (some (tail ps)), rw h, refl);
  popstr_msg = λ m p ps d w h k. (put_msg (put_frame w p none) m (some ps), rw (h, k), refl);
  popstr_empty = λ m w h. (w, rw h, refl);
  remove_msg = λ m p ps w h. (put_msg w m (some (erase_first p ps)), rw h, refl);
  wrap_msg = λ m p ps d w h k. (
    above w.frames,
    put_msg (put_frame w (above w.frames) (some [])) m (some (p ∷ above w.frames ∷ ps)),
    rw h,
    new_ne_null w.frames,
    new_is_free w.frames,
    refl,
  );
  first_msg = λ m ps w h. (set_cursor w m (tail ps), rw h, refl, rw (==_self m));
  next_msg = λ m ps w h.
      (set_cursor w m (tail (w.cursor m)), rw h, refl, λ p qs e. rw (==_self m) (ap tail e));
  last_msg = λ m ps w h. (w, rw h, refl);
  new_msg = λ w. inl (_, _, refl, new_ne_null w.msgs, new_is_free w.msgs, refl);
  dup_msg = λ m ps w h. inl (
    above w.msgs,
    (copy w.frames (map (look w.frames) ps)).1,
    record w {
      frames = (copy w.frames (map (look w.frames) ps)).0;
      msgs = (above w.msgs, some (copy w.frames (map (look w.frames) ps)).1) ∷ w.msgs;
    },
    rw h,
    new_ne_null w.msgs,
    rw (==_self (above w.msgs)),
    copy-Distinct w.frames (map (look w.frames) ps),
    copy-NonNull w.frames (map (look w.frames) ps),
    contents-copy w.frames (map (look w.frames) ps),
    λ p d k. look-copy w.frames (map (look w.frames) ps) p (below w.frames p d k) ∙ k,
    λ q ne. rw (ne→== ne),
    new_is_free w.msgs,
  );
}

pub ideal_codec : Codec ideal_laws
ideal_codec = record {
  encode_msg = λ m ps w h. (join (map (look w.frames) ps), rw h refl);
  decode_msg = λ m ps ds b w₀ w h c e.
      let shown : ideal.zmsg_encode m w₀ ≡ some (join (map (look w₀.frames) ps)) = rw h refl in
      let made : b ≡ join (map (look w₀.frames) ps) = cc (e, shown) in
      let same : b ≡ join (map some ds) = made ∙ ap join c in
      inl (
        above w.msgs,
        (copy w.frames (parse b)).1,
        record w {
          frames = (copy w.frames (parse b)).0;
          msgs = (above w.msgs, some (copy w.frames (parse b)).1) ∷ w.msgs;
        },
        refl,
        new_ne_null w.msgs,
        rw (==_self (above w.msgs)) refl,
        copy-Distinct w.frames (parse b),
        copy-NonNull w.frames (parse b),
        contents-copy w.frames (parse b) ∙ ap parse same ∙ parse-join ds,
        λ p d k. look-copy w.frames (parse b) p (below w.frames p d k) ∙ k,
        λ q ne. rw (ne→== ne) refl,
        new_is_free w.msgs,
      );
}
