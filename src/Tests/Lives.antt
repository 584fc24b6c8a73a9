-- ===== src/Tests/Lives.antt =====
-- Examples of the theorems on the life of a context and its sockets.
use rbczmq.Base.{
  subst, ◌≡◌, ◌≢◌, refl, arith, inl, inr, false, none, some, List, [], ◌∷◌, pos, Returns, ◌==◌,
  ◌>>◌, if◌then◌else◌, ne→==, Bool-cases, ==_iff,
}
use rbczmq.Context.{s_new, socket, socket_klass}
use rbczmq.Context.Closing.{Member, live, alive}
use rbczmq.Context.Opening.{NullRefused}
use rbczmq.Czmq.{Errno}
use rbczmq.Czmq.Zlist.{Cursor, ideal_zlist, ideal_lists}
use rbczmq.Net.{Net}
use rbczmq.Net.Ideal.{World, Queue, ideal_zsocket, ideal_closing, ideal_opening}
use rbczmq.Objects.{qnil}
use rbczmq.Socket.Lives.{Lives, Ended}
use rbczmq.Socket.Orders.{Proper, orders_lem, end_lem}
use rbczmq.Socket.Steps.{
  Op, opens, closes, collects, destroys, collects_context, forks, perform, perform_all,
}

abbrev world : World Queue
world = record {
  opened = λ p. p == 21;
  endpoint = λ p. none;
  next = 30;
  errno = Errno.success;
  queue = [];
}

abbrev first : Member
first = record {
  ref = 2;
  ctx = 11;
  socket = 21;
  verbose = false;
  state = 1;
  endpoints = [];
  thread = 9;
}

-- Process 8 has no context and no socket.
abbrev empty : Net ideal_zsocket ideal_zlist
empty = record {
  world = world;
  socks = λ u. none;
  ctxs = λ v. none;
  processes = λ p. none;
  dangling = [];
  next = 4;
  pid = 8;
  thread = 9;
}

abbrev sockets : Cursor
sockets = record { all = 2 ∷ []; rest = none }

-- Context 1 of process 8 has the socket 2.
abbrev state : Net ideal_zsocket ideal_zlist
state = record empty {
  socks = λ u. if u == 2 then some (live 1 first) else none;
  ctxs = λ v. if v == 1 then some (alive 11 8 sockets) else none;
}

-- Two sockets are made, one is closed and collected, a fork cannot destroy the context, its parent
-- can, and the collector takes what is left.
abbrev steps : List Op
steps =
    opens (pos 1)
    ∷ opens (pos 2)
    ∷ closes 5
    ∷ collects 5
    ∷ forks 7
    ∷ destroys
    ∷ forks 8
    ∷ destroys
    ∷ collects_context
    ∷ collects 6
    ∷ []

lives_state : Lives ideal_closing ideal_lists state 1 (first ∷ []) 11 8 sockets
lives_state = record {
  context = refl;
  nonnull = omega arith;
  items = refl;
  owned = (refl, omega arith, (omega arith, omega arith), refl, tt, tt, tt);
  others = λ u k. elim (Bool-cases (u == 2)) [
    | inl g ↦ λ e h. absurd (h.0 ((==_iff u 2).0 g))
    | inr g ↦ rw g (λ e h. absurd (cc e))
  ];
  fresh = λ q h. let ne : q ≢ 2 = omega (arith, h) in rw (ne→== ne) refl;
  positive = omega arith;
  sound = refl;
}

null_refused : NullRefused ideal_zsocket
unfolding socket_klass
null_refused x t w w' k e g =
    let kind : 99 ≡ k = cc g in subst (λ i. socket_klass i ≡ none) kind refl

orders_lem_example :
    Returns
      (λ r t. Proper ideal_closing ideal_lists t 4 10)
      (λ e t. ⊥)
      ((s_new qnil >> perform_all 11 4 steps) empty)
orders_lem_example =
    orders_lem ideal_closing ideal_lists ideal_opening null_refused 11 empty steps refl
      (omega arith) (λ u k e. absurd (cc e)) (λ q h. refl) refl (omega arith)

end_lem_example :
    Returns
      (λ r t. Ended ideal_closing ideal_lists t 1)
      (λ e t. ⊥)
      ((perform_all 4 1 (opens (pos 1) ∷ closes 2 ∷ []) >> perform 4 1 collects_context) state)
end_lem_example =
    end_lem ideal_closing ideal_lists ideal_opening null_refused 4 state 1
      (opens (pos 1) ∷ closes 2 ∷ []) (first ∷ []) 11 8 sockets lives_state (omega arith)
