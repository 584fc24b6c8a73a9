-- ===== src/Monitor/Events.antt =====
-- What the thread of a monitor, in ext/rbczmq/socket.c, makes of an event.
use rbczmq.Base.{
  ℕ, length, ltb, ◌≤◌, ◌<◌, arith, fault, false, suc, ◌≡◌, refl, ◌∙◌, Bool-cases, inl, inr,
  if◌then◌else◌, true, false, not, some, [], pos, ok, and_then, Bool,
}
use rbczmq.Czmq.{Ptr, Bytes}
use rbczmq.Czmq.Zlist.{Zlist}
use rbczmq.Monitor.{
  Zmonitor, EventName, event_name, MonitorObj, Watch, Watcher, monitor_recv, notify, goes_on,
  copy_event, monitor_turn, monitor_turns,
}
use rbczmq.Net.{Zsocket, Sock}

module _ {n : Zsocket} {z : Zlist} (lib : Zmonitor n) (ruby : Watcher n z) (s : Watch n z) (u : ℕ)
    (p : Ptr) (k : Sock) (here : s.net.socks u ≡ some k) where
  -- A socket that is marked as destroyed ends the thread, which receives nothing more.
  monitor_ends : (j : ℕ) → k.destroyed ≡ true → monitor_turns lib ruby (suc j) u p s ≡ ok true s
  unfolding monitor_turns monitor_turn monitor_recv
  monitor_ends j e = rw here (rw e (rw here (rw e refl)))

  abbrev received : n.World → Watch n z
  received w = record s { net = record s.net { world = w } }

  -- One event whose method is known, where more than 0 bytes have been received: the handler gets no
  -- endpoint.
  event_turn :
      (m : MonitorObj) (d : Bytes) (j : ℕ) (more : Bool) (w : n.World) (name : EventName)
      → k.destroyed ≡ false
      → s.monitors u ≡ some m
      → lib.zmq_recvmsg p s.net.world ≡ some ((pos (suc j), d, more), w)
      → lib.event_size ≤ length d
      → event_name (lib.event_of d).0 ≡ some name
      → monitor_turn lib ruby u p s
        ≡ and_then
            (ruby m.handler name [] (lib.event_of d).1 (received w))
            (λ _. goes_on lib ruby u)
  unfolding monitor_turn monitor_recv copy_event notify
  event_turn m d j more w name alive watched got whole known =
      let enough : ltb (length d) lib.event_size ≡ false = ground arith in
      rw here (rw alive (rw got (rw here (rw enough (rw watched (rw known refl))))))

  -- An event of fewer bytes than the struct: the copy reads behind the end of its data.
  short_turn :
      (d : Bytes) (j : ℕ) (more : Bool) (w : n.World)
      → k.destroyed ≡ false
      → lib.zmq_recvmsg p s.net.world ≡ some ((pos (suc j), d, more), w)
      → length d < lib.event_size
      → monitor_turn lib ruby u p s ≡ fault
  unfolding monitor_turn monitor_recv copy_event
  short_turn d j more w alive got short =
      let less : ltb (length d) lib.event_size ≡ true = ground arith in
      rw here (rw alive (rw got (rw here (rw less refl))))

  -- When the thread of a monitor receives an event of more than 0 bytes, with no fewer bytes than
  -- the struct of an event, for which the handler has a method, on a socket that is not destroyed,
  -- it calls that method once, with an empty endpoint even where the endpoint follows. If the call
  -- returns, the thread ends when the socket has been destroyed by then, and else goes on from the
  -- state that the call has left.
  pub event_lem :
      (m : MonitorObj) (d : Bytes) (j : ℕ) (more : Bool) (w : n.World) (name : EventName)
      → k.destroyed ≡ false
      → s.monitors u ≡ some m
      → lib.zmq_recvmsg p s.net.world ≡ some ((pos (suc j), d, more), w)
      → lib.event_size ≤ length d
      → event_name (lib.event_of d).0 ≡ some name
      → (t : Watch n z) (k' : Sock)
      → ruby m.handler name [] (lib.event_of d).1 (received w) ≡ ok tt t
      → t.net.socks u ≡ some k'
      → (turns : ℕ)
      → (monitor_turns lib ruby (suc turns) u p s
          ≡ (if k'.destroyed then ok true t else monitor_turns lib ruby turns u p t))
        × (monitor_turns lib ruby 1 u p s ≡ ok k'.destroyed t)
  unfolding monitor_turns goes_on
  event_lem m d j more w name alive watched got whole known t k' called there turns =
      let first : monitor_turn lib ruby u p s ≡ ok (not k'.destroyed) t =
        event_turn m d j more w name alive watched got whole known ∙ rw called (rw there refl) in
      rw first
        (elim (Bool-cases k'.destroyed) [ inl e ↦ rw e (refl, refl) | inr e ↦ rw e (refl, refl) ])
