-- ===== src/Czmq.antt =====
-- What the extension uses of libczmq: the operations on frames, messages and lists that
-- ext/rbczmq/frame.c and ext/rbczmq/message.c call. The library is not part of the repository, so
-- its operations are the fields of a record that the model takes as a parameter, and what the code
-- relies on are the fields of a second record. An operation that returns `none` is undefined there.
pub mod Zlist
pub mod Codec
pub mod Errors
pub mod Ideal
use rbczmq.Base.{
  ℕ, ◌≡◌, ◌≢◌, ◌⊎◌, Bool, true, false, Option, none, some, List, [], ◌∷◌, ◌++◌, map, length,
  last_or, head_or, tail, erase_first, Distinct, NonNull, ◌==◌, Table, update, ◌&&◌,
}

-- An address, 0 for `NULL`.
abbrev pub Ptr : Type 0
Ptr = ℕ

abbrev pub Bytes : Type 0
Bytes = List ℕ

-- `zmq_errno`, as far as the code tells its values apart: 0, EAGAIN, EMTHREAD, EINVAL, and others.
pub data Errno : Type 0 where
  success again interrupted mt_thread invalid other : Errno

abbrev pub bytes_eq : Bytes → Bytes → Bool
bytes_eq [] [] = true
bytes_eq [] (y ∷ ys) = false
bytes_eq (x ∷ xs) [] = false
bytes_eq (x ∷ xs) (y ∷ ys) = (x == y) && bytes_eq xs ys

-- The part of a buffer that a C string function reads, when the buffer is followed by a 0.
unfoldable pub up_to_nul : Bytes → Bytes
up_to_nul [] = []
up_to_nul (x ∷ xs) = elim (x == 0) [ true ↦ [] | false ↦ x ∷ up_to_nul xs ]

pub record Czmq : Type 1 where
  -- the state of the library, with its heap
  pub World : Type 0
  pub zmq_errno : World → Errno
  pub zframe_new : Bytes → World → Ptr × World
  pub zframe_destroy : Ptr → World → Option World
  pub zframe_size : Ptr → World → Option ℕ
  pub zframe_data : Ptr → World → Option Bytes
  pub zframe_strhex : Ptr → World → Option Bytes
  pub zframe_dup : Ptr → World → Option (Ptr × World)
  pub zframe_streq : Ptr → Bytes → World → Option Bool
  pub zframe_more : Ptr → World → Option ℕ
  pub zframe_eq : Ptr → Ptr → World → Option Bool
  pub zframe_print : Ptr → Bytes → World → Option World
  pub zframe_reset : Ptr → Bytes → World → Option World
  pub zmsg_new : World → Ptr × World
  pub zmsg_destroy : Ptr → World → Option World
  pub zmsg_size : Ptr → World → Option ℕ
  pub zmsg_content_size : Ptr → World → Option ℕ
  -- `true` for the return code 0, `false` for -1
  pub zmsg_push : Ptr → Ptr → World → Option (Bool × World)
  pub zmsg_add : Ptr → Ptr → World → Option (Bool × World)
  pub zmsg_pushmem : Ptr → Bytes → World → Option (Bool × World)
  pub zmsg_addmem : Ptr → Bytes → World → Option (Bool × World)
  pub zmsg_pop : Ptr → World → Option (Ptr × World)
  pub zmsg_popstr : Ptr → World → Option (Option Bytes × World)
  pub zmsg_remove : Ptr → Ptr → World → Option World
  pub zmsg_wrap : Ptr → Ptr → World → Option World
  pub zmsg_first : Ptr → World → Option (Ptr × World)
  pub zmsg_next : Ptr → World → Option (Ptr × World)
  pub zmsg_last : Ptr → World → Option (Ptr × World)
  pub zmsg_dump : Ptr → World → Option World
  pub zmsg_dup : Ptr → World → Option (Ptr × World)
  pub zmsg_encode : Ptr → World → Option Bytes
  pub zmsg_decode : Bytes → World → Ptr × World

-- What a state of the library stands for: the data of each live frame, and the frames of each live
-- message in order.
pub record Store : Type 0 where
  pub frames : Table Bytes
  pub msgs : Table (List Ptr)

abbrev pub set_frame : Store → Ptr → Option Bytes → Store
set_frame s p d = record s { frames = update s.frames p d }

abbrev pub set_msg : Store → Ptr → Option (List Ptr) → Store
set_msg s m fs = record s { msgs = update s.msgs m fs }

-- Every frame of the list is given back.
abbrev pub drop_frames : Table Bytes → List Ptr → Table Bytes
drop_frames t [] = t
drop_frames t (p ∷ ps) = update (drop_frames t ps) p none

-- The data of the frames of a message.
abbrev pub contents : Store → List Ptr → List (Option Bytes)
contents s ps = map s.frames ps

-- The documented behaviour that the code relies on. A call is defined on live frames and messages.
pub record Documented (c : Czmq) : Type 0 where
  pub view : c.World → Store
  -- the frames that `zmsg_next` has yet to return; what it does beyond the end is not documented
  pub cursor : c.World → Ptr → List Ptr
  pub new_frame :
      (d : Bytes) (w : c.World)
      → ((p : Ptr) × (w' : c.World) × (c.zframe_new d w ≡ (p, w'))
          × (p ≢ 0)
          × ((view w).frames p ≡ none)
          × (view w' ≡ set_frame (view w) p (some d)))
        ⊎ ((w' : c.World) × (c.zframe_new d w ≡ (0, w')) × (view w' ≡ view w))
  pub destroy_frame :
      (p : Ptr) (d : Bytes) (w : c.World)
      → (view w).frames p ≡ some d
      → (w' : c.World) × (c.zframe_destroy p w ≡ some w') × (view w' ≡ set_frame (view w) p none)
  pub size_frame :
      (p : Ptr) (d : Bytes) (w : c.World)
      → (view w).frames p ≡ some d
      → c.zframe_size p w ≡ some (length d)
  pub data_frame :
      (p : Ptr) (d : Bytes) (w : c.World) → (view w).frames p ≡ some d → c.zframe_data p w ≡ some d
  pub streq_frame :
      (p : Ptr) (d s : Bytes) (w : c.World)
      → (view w).frames p ≡ some d
      → c.zframe_streq p s w ≡ some (bytes_eq d (up_to_nul s))
  pub reset_frame :
      (p : Ptr) (d e : Bytes) (w : c.World)
      → (view w).frames p ≡ some d
      → (w' : c.World) × (c.zframe_reset p e w ≡ some w')
        × (view w' ≡ set_frame (view w) p (some e))
  pub destroy_msg :
      (m : Ptr) (ps : List Ptr) (w : c.World)
      → (view w).msgs m ≡ some ps
      → (w' : c.World) × (c.zmsg_destroy m w ≡ some w')
        × (view w' ≡ record {
          frames = drop_frames (view w).frames ps;
          msgs = update (view w).msgs m none;
        })
  pub size_msg :
      (m : Ptr) (ps : List Ptr) (w : c.World)
      → (view w).msgs m ≡ some ps
      → c.zmsg_size m w ≡ some (length ps)
  pub push_msg :
      (m p : Ptr) (ps : List Ptr) (d : Bytes) (w : c.World)
      → (view w).msgs m ≡ some ps
      → (view w).frames p ≡ some d
      → ((w' : c.World) × (c.zmsg_push m p w ≡ some (true, w'))
          × (view w' ≡ set_msg (view w) m (some (p ∷ ps))))
        ⊎ ((w' : c.World) × (c.zmsg_push m p w ≡ some (false, w')) × (view w' ≡ view w))
  pub add_msg :
      (m p : Ptr) (ps : List Ptr) (d : Bytes) (w : c.World)
      → (view w).msgs m ≡ some ps
      → (view w).frames p ≡ some d
      → ((w' : c.World) × (c.zmsg_add m p w ≡ some (true, w'))
          × (view w' ≡ set_msg (view w) m (some (ps ++ p ∷ []))))
        ⊎ ((w' : c.World) × (c.zmsg_add m p w ≡ some (false, w')) × (view w' ≡ view w))
  pub pushmem_msg :
      (m : Ptr) (d : Bytes) (ps : List Ptr) (w : c.World)
      → (view w).msgs m ≡ some ps
      → ((p : Ptr) × (w' : c.World) × (c.zmsg_pushmem m d w ≡ some (true, w'))
          × (p ≢ 0)
          × ((view w).frames p ≡ none)
          × (view w' ≡ set_msg (set_frame (view w) p (some d)) m (some (p ∷ ps))))
        ⊎ ((w' : c.World) × (c.zmsg_pushmem m d w ≡ some (false, w')) × (view w' ≡ view w))
  pub addmem_msg :
      (m : Ptr) (d : Bytes) (ps : List Ptr) (w : c.World)
      → (view w).msgs m ≡ some ps
      → ((p : Ptr) × (w' : c.World) × (c.zmsg_addmem m d w ≡ some (true, w'))
          × (p ≢ 0)
          × ((view w).frames p ≡ none)
          × (view w' ≡ set_msg (set_frame (view w) p (some d)) m (some (ps ++ p ∷ []))))
        ⊎ ((w' : c.World) × (c.zmsg_addmem m d w ≡ some (false, w')) × (view w' ≡ view w))
  pub pop_msg :
      (m : Ptr) (ps : List Ptr) (w : c.World)
      → (view w).msgs m ≡ some ps
      → (w' : c.World) × (c.zmsg_pop m w ≡ some (head_or 0 ps, w'))
        × (view w' ≡ set_msg (view w) m (some (tail ps)))
  pub popstr_msg :
      (m p : Ptr) (ps : List Ptr) (d : Bytes) (w : c.World)
      → (view w).msgs m ≡ some (p ∷ ps)
      → (view w).frames p ≡ some d
      → (w' : c.World) × (c.zmsg_popstr m w ≡ some (some d, w'))
        × (view w' ≡ set_msg (set_frame (view w) p none) m (some ps))
  pub popstr_empty :
      (m : Ptr) (w : c.World)
      → (view w).msgs m ≡ some []
      → (w' : c.World) × (c.zmsg_popstr m w ≡ some (none, w')) × (view w' ≡ view w)
  pub remove_msg :
      (m p : Ptr) (ps : List Ptr) (w : c.World)
      → (view w).msgs m ≡ some ps
      → (w' : c.World) × (c.zmsg_remove m p w ≡ some w')
        × (view w' ≡ set_msg (view w) m (some (erase_first p ps)))
  pub wrap_msg :
      (m p : Ptr) (ps : List Ptr) (d : Bytes) (w : c.World)
      → (view w).msgs m ≡ some ps
      → (view w).frames p ≡ some d
      → (e : Ptr) × (w' : c.World) × (c.zmsg_wrap m p w ≡ some w')
        × (e ≢ 0)
        × ((view w).frames e ≡ none)
        × (view w' ≡ set_msg (set_frame (view w) e (some [])) m (some (p ∷ e ∷ ps)))
  pub first_msg :
      (m : Ptr) (ps : List Ptr) (w : c.World)
      → (view w).msgs m ≡ some ps
      → (w' : c.World) × (c.zmsg_first m w ≡ some (head_or 0 ps, w'))
        × (view w' ≡ view w)
        × (cursor w' m ≡ tail ps)
  pub next_msg :
      (m : Ptr) (ps : List Ptr) (w : c.World)
      → (view w).msgs m ≡ some ps
      → (w' : c.World) × (c.zmsg_next m w ≡ some (head_or 0 (cursor w m), w'))
        × (view w' ≡ view w)
        × ((p : Ptr) (qs : List Ptr) → cursor w m ≡ p ∷ qs → cursor w' m ≡ qs)
  pub last_msg :
      (m : Ptr) (ps : List Ptr) (w : c.World)
      → (view w).msgs m ≡ some ps
      → (w' : c.World) × (c.zmsg_last m w ≡ some (last_or 0 ps, w')) × (view w' ≡ view w)
  pub new_msg :
      (w : c.World)
      → ((m : Ptr) × (w' : c.World) × (c.zmsg_new w ≡ (m, w'))
          × (m ≢ 0)
          × ((view w).msgs m ≡ none)
          × (view w' ≡ set_msg (view w) m (some [])))
        ⊎ ((w' : c.World) × (c.zmsg_new w ≡ (0, w')) × (view w' ≡ view w))
  -- A copy has frames of its own, and disturbs no frame and no message that is live.
  pub dup_msg :
      (m : Ptr) (ps : List Ptr) (w : c.World)
      → (view w).msgs m ≡ some ps
      → ((m' : Ptr) × (qs : List Ptr) × (w' : c.World) × (c.zmsg_dup m w ≡ some (m', w'))
          × (m' ≢ 0)
          × ((view w').msgs m' ≡ some qs)
          × Distinct qs
          × NonNull qs
          × (contents (view w') qs ≡ contents (view w) ps)
          × ((p : Ptr) (d : Bytes) → (view w).frames p ≡ some d → (view w').frames p ≡ some d)
          × ((n : Ptr) → n ≢ m' → (view w').msgs n ≡ (view w).msgs n)
          × ((view w).msgs m' ≡ none))
        ⊎ ((w' : c.World) × (c.zmsg_dup m w ≡ some (0, w')) × (view w' ≡ view w))
