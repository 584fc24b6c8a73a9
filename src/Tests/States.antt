-- ===== src/Tests/States.antt =====
-- Concrete states: a message with two frames, one with a single frame, and a frame of its own.
use rbczmq.Base.{◌+◌, ◌≢◌, refl, arith, true, none, some, [], ◌∷◌, ◌==◌, ne→==, if◌then◌else◌}
use rbczmq.Czmq.{Errno}
use rbczmq.Czmq.Ideal.{ideal, ideal_laws, World}
use rbczmq.Czmq.Zlist.{ideal_zlist, ideal_lists}
use rbczmq.Message.Alloc.{Fresh}
use rbczmq.Message.Sync.{Cell, linked, free, Synced, Owns}
use rbczmq.Objects.{St}

abbrev pub world : World
world = record {
  frames = (20, some (7 ∷ [])) ∷ (30, some []) ∷ (40, some (9 ∷ 8 ∷ [])) ∷ (50, some (5 ∷ [])) ∷ [];
  msgs = (10, some (20 ∷ 30 ∷ [])) ∷ (11, some (50 ∷ [])) ∷ [];
  cursor = λ _. [];
  errno = Errno.success;
}

-- Object 1 is a message of the objects 2 and 3, object 6 is a message of the object 5, and object 4
-- is a frame that no message holds.
abbrev pub state : St ideal ideal_zlist
state = record {
  world = world;
  frame_objs = λ u.
      if u == 2
      then some (linked 20 1)
      else if u == 3
      then some (linked 30 1)
      else if u == 4
      then some (free 40)
      else if u == 5
      then some (linked 50 6)
      else none;
  message_objs = λ v.
      if v == 1
      then some (record {
        message = 10;
        owned = true;
        frames = some (record { all = 2 ∷ 3 ∷ []; rest = none });
      })
      else if v == 6
      then some (record {
        message = 11;
        owned = true;
        frames = some (record { all = 5 ∷ []; rest = none });
      })
      else none;
  next = 7;
  dangling = [];
}

abbrev pub cell2 : Cell
cell2 = record { ref = 2; frame = 20; bytes = 7 ∷ [] }

abbrev pub cell3 : Cell
cell3 = record { ref = 3; frame = 30; bytes = [] }

abbrev pub cell4 : Cell
cell4 = record { ref = 4; frame = 40; bytes = 9 ∷ 8 ∷ [] }

abbrev pub cell5 : Cell
cell5 = record { ref = 5; frame = 50; bytes = 5 ∷ [] }

abbrev pub synced : Synced ideal_laws ideal_lists state 1 (cell2 ∷ cell3 ∷ [])
synced = record {
  message = 10;
  list = record { all = 2 ∷ 3 ∷ []; rest = none };
  object = refl;
  items = refl;
  native = refl;
  linked = (refl, refl, (omega arith, tt), (omega arith, tt), (refl, refl, tt, tt, tt));
}

abbrev pub synced_single : Synced ideal_laws ideal_lists state 6 (cell5 ∷ [])
synced_single = record {
  message = 11;
  list = record { all = 5 ∷ []; rest = none };
  object = refl;
  items = refl;
  native = refl;
  linked = (refl, refl, tt, tt, tt);
}

abbrev pub owns : Owns ideal_laws ideal_lists state 4 40 (9 ∷ 8 ∷ [])
owns = record { object = refl; live = refl }

pub fresh : Fresh ideal_laws ideal_lists state
fresh i =
    let a : 7 + i ≢ 2 = omega arith in
    let b : 7 + i ≢ 3 = omega arith in
    let d : 7 + i ≢ 4 = omega arith in
    let e : 7 + i ≢ 5 = omega arith in rw (ne→== a, ne→== b, ne→== d, ne→== e)
