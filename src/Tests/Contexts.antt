-- ===== src/Tests/Contexts.antt =====
-- Examples of the theorems on contexts and sockets.
use rbczmq.Base.{ℕ, refl, arith, true, false, none, some, [], ◌∷◌, Returns, ◌==◌, if◌then◌else◌}
use rbczmq.Context.{closed, free_ctx}
use rbczmq.Context.Closing.{Member, live, alive}
use rbczmq.Context.Freeing.{Freed, free_ctx_lem}
use rbczmq.Czmq.{Errno}
use rbczmq.Czmq.Zlist.{Cursor, ideal_zlist, ideal_lists}
use rbczmq.Net.{Net}
use rbczmq.Net.Ideal.{World, Queue, ideal_zsocket, ideal_closing}

abbrev world : (World Queue)
world = record {
  opened = λ p. if p == 21 then true else p == 22;
  endpoint = λ p. none;
  next = 30;
  errno = Errno.success;
  queue = [];
}

abbrev first : Member
first = record {
  ref = 2;
  ctx = 11;
  socket = 21;
  verbose = false;
  state = 1;
  endpoints = [];
  thread = 9;
}

abbrev second : Member
second = record {
  ref = 3;
  ctx = 11;
  socket = 22;
  verbose = false;
  state = 1;
  endpoints = [];
  thread = 9;
}

abbrev sockets : Cursor
sockets = record { all = 2 ∷ 3 ∷ []; rest = none }

-- Context 1 of process 8 has the sockets 2 and 3; no context of process 7 has been made.
abbrev state : Net ideal_zsocket ideal_zlist
state = record {
  world = world;
  socks =
      λ u. if u == 2 then some (live 1 first) else if u == 3 then some (live 1 second) else none;
  ctxs = λ v. if v == 1 then some (alive 11 8 sockets) else none;
  processes = λ p. if p == 8 then some 1 else none;
  dangling = [];
  next = 4;
  pid = 8;
  thread = 9;
}

abbrev process : ℕ
process = 8

free_ctx_lem_example :
    Returns
      (λ r t. Freed ideal_closing ideal_lists state t 1 (first ∷ second ∷ []) 8)
      (λ e t. ⊥)
      (free_ctx 3 1 state)
free_ctx_lem_example =
    free_ctx_lem ideal_closing ideal_lists 3 state 1 (first ∷ second ∷ []) 11 8 sockets refl refl
      (
        refl,
        omega arith,
        (omega arith, omega arith),
        refl,
        (omega arith, tt),
        (omega arith, tt),
        (refl, omega arith, (omega arith, omega arith), refl, tt, tt, tt),
      )
      (omega arith)

-- The state in which socket 2 has been closed.
abbrev shut : Net ideal_zsocket ideal_zlist
shut = record state { socks = λ u. if u == 2 then some (closed (live 1 first)) else none }

-- The same state in a process without a context.
abbrev forked : Net ideal_zsocket ideal_zlist
forked = record state { pid = 7 }
