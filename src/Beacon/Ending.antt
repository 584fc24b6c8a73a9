-- ===== src/Beacon/Ending.antt =====
-- The end of a beacon and of its socket, in ext/rbczmq/beacon.c.
use rbczmq.Base.{
  ℕ, ◌≡◌, ◌≢◌, refl, false, Option, [], none, some, ok, fault, Returns, returns, ==_self, ne→==, ℤ,
}
use rbczmq.Beacon.{
  Zbeacon, Beacons, free_beacon_gc, destroy_beacon, destroy, hostname, set_interval, noecho,
  publish, silence, subscribe, unsubscribe, pipe,
}
use rbczmq.Context.{SocketClass, closed, socket_klass, destroy_socket, socket_alloc, alloc_as}
use rbczmq.Czmq.{Ptr, Bytes}
use rbczmq.Czmq.Zlist.{Zlist}
use rbczmq.Net.{Zsocket, Sock, ContextRef, bound}
use rbczmq.Objects.{qnil, int, str, obj}
use rbczmq.Socket.{close}

-- What a call with `NULL` for the beacon comes to: the functions of the library do not take it.
pub record NullUndefined {n : Zsocket} (lib : Zbeacon n) : Type 0 where
  pub hostname : (w : n.World) → lib.zbeacon_hostname 0 w ≡ none
  pub set_interval : (i : ℤ) (w : n.World) → lib.zbeacon_set_interval 0 i w ≡ none
  pub noecho : (w : n.World) → lib.zbeacon_noecho 0 w ≡ none
  pub publish : (d : Bytes) (w : n.World) → lib.zbeacon_publish 0 d w ≡ none
  pub silence : (w : n.World) → lib.zbeacon_silence 0 w ≡ none
  pub subscribe : (f : Option Bytes) (w : n.World) → lib.zbeacon_subscribe 0 f w ≡ none
  pub unsubscribe : (w : n.World) → lib.zbeacon_unsubscribe 0 w ≡ none
  pub socket : (w : n.World) → lib.zbeacon_socket 0 w ≡ none

-- The struct of the socket of a beacon.
abbrev pub pipe_of : Ptr → ℕ → Sock
pipe_of q thread = record {
  ctx = 0;
  socket = q;
  ctx_wrapper = none;
  destroyed = false;
  verbose = false;
  state = bound;
  endpoints = [];
  thread = thread;
  context = ContextRef.nil;
}

module _ {n : Zsocket} {z : Zlist} (lib : Zbeacon n) where
  -- The methods of a destroyed beacon, `destroy` excepted, call the library with `NULL`.
  abbrev pub Unguarded : Beacons n z → ℕ → ℤ → Bytes → Type 0
  Unguarded t u i d =
      (hostname lib u t ≡ fault)
      × (set_interval lib u (int i) t ≡ fault)
      × (noecho lib u t ≡ fault)
      × (publish lib u (str d) t ≡ fault)
      × (silence lib u t ≡ fault)
      × (subscribe lib u (str d) t ≡ fault)
      × (unsubscribe lib u t ≡ fault)
      × (pipe lib u t ≡ fault)

  -- destroy of a beacon that has not been destroyed, where the library's call returns, returns
  -- nil; then a second destroy returns nil and changes nothing, the collector calls the library no
  -- more, and hostname, interval=, noecho, publish, silence, subscribe, unsubscribe and pipe call
  -- the library with NULL, which is undefined.
  pub destroyed_lem :
      (null : NullUndefined lib) (s : Beacons n z) (u : ℕ) (p : Ptr) (w : n.World) (i : ℤ)
      (d : Bytes)
      → s.beacons u ≡ some p
      → p ≢ 0
      → lib.zbeacon_destroy p s.net.world ≡ some w
      → Returns
          (λ r t.
            (r ≡ qnil)
            × (t.net.world ≡ w)
            × (destroy lib u t ≡ ok qnil t)
            × Returns (λ x t'. t'.net ≡ t.net) (λ e t'. ⊥) (free_beacon_gc lib u t)
            × Unguarded t u i d)
          (λ e t. ⊥)
          (destroy lib u s)
  unfolding destroy hostname set_interval noecho publish silence subscribe unsubscribe pipe
      free_beacon_gc destroy_beacon
  destroyed_lem null s u p w i d here nz e = rw here (
      rw here (
        rw (ne→== nz) (
          rw e (
            returns (
              refl,
              refl,
              rw (==_self u) (rw (==_self u) refl),
              rw (==_self u) (returns refl),
              (
                rw (==_self u) (rw (null.hostname w) refl),
                rw (==_self u) (rw (null.set_interval i w) refl),
                rw (==_self u) (rw (null.noecho w) refl),
                rw (==_self u) (rw (null.publish d w) refl),
                rw (==_self u) (rw (null.silence w) refl),
                rw (==_self u) (rw (null.subscribe (some d) w) refl),
                rw (==_self u) (rw (null.unsubscribe w) refl),
                rw (==_self u) (rw (null.socket w) refl),
              ),
            )))))

  -- pipe of a beacon, where the library gives a socket of a known type and the next reference is
  -- not 0, returns a new socket under it without a context and bound; close of that socket returns
  -- nil and marks it as destroyed without a call of the library.
  pipe_lem :
      (s : Beacons n z) (u : ℕ) (p q : Ptr) (t : ℕ) (c : SocketClass)
      → s.beacons u ≡ some p
      → lib.zbeacon_socket p s.net.world ≡ some q
      → q ≢ 0
      → n.zsocket_type q s.net.world ≡ some t
      → socket_klass t ≡ some c
      → s.net.next ≢ 0
      → Returns
          (λ r x.
            (r ≡ obj s.net.next)
            × (x.net.socks s.net.next ≡ some (pipe_of q s.net.thread))
            × Returns
                (λ r' m.
                  (r' ≡ qnil)
                  × (m.world ≡ s.net.world)
                  × (m.socks s.net.next ≡ some (closed (pipe_of q s.net.thread))))
                (λ e m. ⊥)
                (close s.net.next x.net))
          (λ e x. ⊥)
          (pipe lib u s)
  unfolding pipe socket_alloc alloc_as close destroy_socket
  pipe_lem s u p q t c here socket nz kind klass live = rw here (
      rw socket (
        rw kind (
          rw klass (
            rw (ne→== nz) (
              rw (==_self s.net.next) (
                returns (
                  refl,
                  rw (==_self s.net.next) refl,
                  rw (==_self s.net.next) (
                      rw (==_self s.net.thread) (
                        rw (ne→== live) (
                          rw (==_self s.net.next)
                            (returns (refl, refl, rw (==_self s.net.next) refl))))),
                )))))))
