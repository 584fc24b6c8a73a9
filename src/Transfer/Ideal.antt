-- ===== src/Transfer/Ideal.antt =====
-- Sockets that pass frames and messages through one queue, for examples.
use rbczmq.Base.{
  true, ◌≡◌, refl, ap, inl, inr, Bool-cases, Table, Option, none, some, List, [], ◌∷◌, ◌++◌, map,
  head_or, pos, ==_self, if◌then◌else◌, update,
}
use rbczmq.Czmq.{Ptr, Bytes}
use rbczmq.Czmq.Ideal.{
  Entries, look, above, put_frame, drop_all, drop_all_lem, on_msg, copy, copy-Distinct,
  copy-NonNull, contents-copy, new_ne_null, ideal, ideal_laws,
}
use rbczmq.Net.Ideal.{ideal_zsocket}
use rbczmq.Transfer.{Wire, is_reuse}
use rbczmq.Transfer.Sending.{Sends, without}
use rbczmq.Transfer.Receiving.{NewFrame, Receives, Pipe}
use rbczmq.Czmq.Ideal as Heap
use rbczmq.Net.Ideal as Sockets
use mathlib.Core.Option

abbrev somes : List (Option Bytes) → List Bytes
somes [] = []
somes (none ∷ ds) = somes ds
somes (some d ∷ ds) = d ∷ somes ds

pub somes-map : (ds : List Bytes) → somes (map some ds) ≡ ds
somes-map [] = refl
somes-map (d ∷ ds) = ap (λ l. d ∷ l) (somes-map ds)

abbrev enqueue : List Bytes → (Sockets.World Sockets.Queue) → (Sockets.World Sockets.Queue)
enqueue ds v = record v { queue = v.queue ++ ds ∷ [] }

abbrev without_msg : Ptr → List Ptr → Heap.World → Heap.World
without_msg m ps w = record w { frames = drop_all w.frames ps; msgs = (m, none) ∷ w.msgs }

abbrev with_msg : List Bytes → Heap.World → Heap.World
with_msg ds w =
    let r = copy w.frames (map some ds) in
    record w { frames = r.0; msgs = (above w.msgs, some r.1) ∷ w.msgs }

abbrev take_frame :
    List (List Bytes)
    → Heap.World
    → (Sockets.World Sockets.Queue)
    → Ptr × Heap.World × (Sockets.World Sockets.Queue)
take_frame [] w v = (0, w, v)
take_frame (ds ∷ q) w v =
    (above w.frames, put_frame w (above w.frames) (some (head_or [] ds)), record v { queue = q })

abbrev take_message :
    List (List Bytes)
    → Heap.World
    → (Sockets.World Sockets.Queue)
    → Ptr × Heap.World × (Sockets.World Sockets.Queue)
take_message [] w v = (0, w, v)
take_message (ds ∷ q) w v = (above w.msgs, with_msg ds w, record v { queue = q })

abbrev pub ideal_wire : Wire ideal ideal_zsocket
ideal_wire = record {
  zframe_send = λ p q i w v.
      Option.map (λ d. (pos 0, (if is_reuse i then w else put_frame w p none), enqueue (d ∷ []) v))
        (look w.frames p);
  zframe_recv = λ q w v. some (take_frame v.queue w v);
  zframe_recv_nowait = λ q w v. some (take_frame v.queue w v);
  zmsg_send = λ m q w v.
      on_msg m w (λ ps. (pos 0, without_msg m ps w, enqueue (somes (map (look w.frames) ps)) v));
  zmsg_recv = λ q w v. some (take_message v.queue w v);
}

pub without_lem :
    (m : Ptr) (ps : List Ptr) (w : Heap.World)
    → Heap.view (without_msg m ps w) ≡ without (Heap.view w) m ps
without_lem m ps w =
    ap (λ (t : Table Bytes). record { frames = t; msgs = update (look w.msgs) m none })
      (drop_all_lem w.frames ps)

pub new_frame_lem :
    (q : List (List Bytes)) (w : Heap.World) (v : (Sockets.World Sockets.Queue))
    → NewFrame ideal_zsocket ideal_laws w (some (take_frame q w v))
new_frame_lem [] w v = inr (w, v, refl, refl)
new_frame_lem (ds ∷ q) w v = inl (
  above w.frames,
  head_or [] ds,
  put_frame w (above w.frames) (some (head_or [] ds)),
  record v { queue = q },
  refl,
  new_ne_null w.frames,
  refl,
)

abbrev pub ideal_sends : Sends ideal_wire ideal_laws
ideal_sends = record {
  frame = λ p q d i w v h. inl (
    (if is_reuse i then w else put_frame w p none),
    enqueue (d ∷ []) v,
    rw h,
    elim (Bool-cases (is_reuse i)) [ inl e ↦ rw e | inr e ↦ rw e ],
  );
  message = λ m q ps w v h. (
    pos 0,
    without_msg m ps w,
    enqueue (somes (map (look w.frames) ps)) v,
    rw h,
    inl (without_lem m ps w),
  );
}

abbrev pub ideal_receives : Receives ideal_wire ideal_laws
ideal_receives = record {
  frame = λ q w v. new_frame_lem v.queue w v;
  frame_nowait = λ q w v. new_frame_lem v.queue w v;
}

abbrev pub ideal_pipe : (p q : Ptr) → Pipe ideal_wire ideal_laws p q
ideal_pipe p q = record {
  ready = λ v. true;
  waiting = λ v. v.queue;
  put = λ m ps ds w v ready some_frame h e. (
    pos 0,
    without_msg m ps w,
    enqueue (somes (map (look w.frames) ps)) v,
    rw h,
    without_lem m ps w,
    rw (e, somes-map ds),
  );
  take = λ ds rest w v e. (
    above w.msgs,
    with_msg ds w,
    record v { queue = rest },
    rw e,
    (
      new_ne_null w.msgs,
      (
        (copy w.frames (map some ds)).1,
        rw (==_self (above w.msgs)),
        copy-Distinct w.frames (map some ds),
        copy-NonNull w.frames (map some ds),
        contents-copy w.frames (map some ds),
      ),
    ),
    refl,
  );
}
