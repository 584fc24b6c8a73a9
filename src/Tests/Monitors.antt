-- ===== src/Tests/Monitors.antt =====
-- An example of the theorem on the monitor of a socket.
use rbczmq.Base.{
  arith, ◌≡◌, refl, true, false, none, some, [], ◌∷◌, pos, ok, ◌==◌, if◌then◌else◌, update,
}
use rbczmq.Context.{closed}
use rbczmq.Context.Closing.{Member, live}
use rbczmq.Czmq.{Bytes, Errno}
use rbczmq.Czmq.Zlist.{ideal_zlist}
use rbczmq.Monitor.{Zmonitor, on_listening, event_name, MonitorObj, Watch, Watcher, monitor_turns}
use rbczmq.Monitor.Events.{event_lem}
use rbczmq.Net.Ideal.{ideal_zsocket}

abbrev watched : Member
watched = record {
  ref = 2;
  ctx = 11;
  socket = 21;
  verbose = false;
  state = 2;
  endpoints = (105 ∷ 58 ∷ []) ∷ [];
  thread = 9;
}

-- The bytes of an event.
abbrev event : Bytes
event = 8 ∷ 0 ∷ 5 ∷ 0 ∷ 0 ∷ 0 ∷ []

-- Every message is the event ZMQ_EVENT_LISTENING, and an endpoint follows.
abbrev events : Zmonitor ideal_zsocket
events = record {
  zmq_socket_monitor = λ p e mask w. some (pos 0, w);
  zmq_connect = λ p e w. some (pos 0, w);
  zmq_recvmsg = λ p w. some ((pos 6, event, true), w);
  is_end = λ w. false;
  event_size = 6;
  event_of = λ d. (8, pos 5);
  event_all = pos 2047;
}

abbrev handler : MonitorObj
handler = record { endpoint = 7 ∷ []; handler = 5 }

abbrev state : Watch ideal_zsocket ideal_zlist
state = record {
  net = record {
    world = record {
      opened = λ p. true;
      endpoint = λ p. none;
      next = 30;
      errno = Errno.success;
      queue = [];
    };
    socks = λ u. if u == 2 then some (live 1 watched) else none;
    ctxs = λ v. none;
    processes = λ p. none;
    dangling = [];
    next = 6;
    pid = 8;
    thread = 9;
  };
  monitors = λ u. if u == 2 then some handler else none;
}

-- The handler closes the socket.
abbrev with_closed : Watch ideal_zsocket ideal_zlist → Watch ideal_zsocket ideal_zlist
with_closed s = record s {
  net = record s.net { socks = update s.net.socks 2 (some (closed (live 1 watched))) };
}

abbrev closes : Watcher ideal_zsocket ideal_zlist
closes h m endpoint value = λ s. ok tt (with_closed s)

listening : event_name 8 ≡ some on_listening
unfolding event_name
listening = refl

event_lem_example :
    (monitor_turns events closes 4 2 22 state ≡ ok true (with_closed state))
    × (monitor_turns events closes 1 2 22 state ≡ ok true (with_closed state))
event_lem_example =
    event_lem events closes state 2 22 (live 1 watched) refl handler event 5 true state.net.world
      on_listening refl refl refl (omega arith) listening (with_closed state)
      (closed (live 1 watched)) refl refl 3
