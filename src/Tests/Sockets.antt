-- ===== src/Tests/Sockets.antt =====
-- Examples of the theorems on the endpoints of sockets.
use rbczmq.Base.{
  ℕ, refl, false, none, some, List, [], ◌∷◌, pos, Returns, ◌==◌, ==_self, if◌then◌else◌,
}
use rbczmq.Context.Closing.{Member, live}
use rbczmq.Czmq.{Errno}
use rbczmq.Czmq.Zlist.{ideal_zlist}
use rbczmq.Net.{Net, bound}
use rbczmq.Net.Ideal.{World, Queue, ideal_zsocket, ideal_closing}
use rbczmq.Objects.{int, str}
use rbczmq.Socket.{bind}
use rbczmq.Socket.Endpoints.{Addressing, Attached, Failed, bind_lem}

abbrev named : ℕ → List ℕ → (World Queue) → (World Queue)
named p e w = record w { endpoint = λ q. if q == p then some e else w.endpoint q }

abbrev ideal_addressing : Addressing ideal_closing
ideal_addressing = record {
  bind = λ p e w h. (pos 5432, named p e w, rw h, λ _. (e, rw (h, ==_self p)));
  connect = λ p e w h. (pos 0, named p e w, rw h, λ _. (e, rw (h, ==_self p)));
  disconnect = λ p e w h. (pos 0, w, rw h);
  unbind = λ p e w h. (pos 0, w, rw h);
}

abbrev member : Member
member = record {
  ref = 2;
  ctx = 11;
  socket = 21;
  verbose = false;
  state = 2;
  endpoints = (105 ∷ 58 ∷ []) ∷ [];
  thread = 9;
}

-- Socket 2 has one endpoint.
abbrev state : Net ideal_zsocket ideal_zlist
state = record {
  world = record {
    opened = λ p. p == 21;
    endpoint = λ p. none;
    next = 30;
    errno = Errno.success;
    queue = [];
  };
  socks = λ u. if u == 2 then some (live 1 member) else none;
  ctxs = λ v. none;
  processes = λ p. none;
  dangling = [];
  next = 4;
  pid = 8;
  thread = 9;
}

bind_lem_example :
    Returns
      (Attached ideal_closing ideal_addressing state 2 1 member
        (7 ∷ [])
        refl
        refl
        refl
        refl
        (ideal_zsocket.zsocket_bind 21 (7 ∷ []))
        int
        bound)
      (Failed ideal_closing ideal_addressing state 2 1 member
        (7 ∷ [])
        refl
        refl
        refl
        refl
        (ideal_zsocket.zsocket_bind 21 (7 ∷ [])))
      (bind 2 (str (7 ∷ [])) state)
bind_lem_example =
    bind_lem ideal_closing ideal_addressing state 2 1 member (7 ∷ []) refl refl refl refl
