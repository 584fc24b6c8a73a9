-- ===== src/Beacon.antt =====
-- ext/rbczmq/beacon.c: service announcement, and the socket of a beacon.
pub mod Ending
use rbczmq.Base.{
  ℕ, ◌+◌, Bool, Option, none, some, ℤ, type_error, mem_error, ok, raise, fault, Cmd, Run, pure,
  throw, defined, or_raise, ◌>>=◌, ◌>>◌, ◌==◌, if◌then◌else◌, Table, update,
}
use rbczmq.Context.{socket_alloc}
use rbczmq.Czmq.{Ptr, Bytes}
use rbczmq.Czmq.Zlist.{Zlist}
use rbczmq.Net.{Zsocket, Net, ContextRef, bound, get_socket, put_socket, alloc_failed}
use rbczmq.Objects.{Value, qnil, int, str, obj}

-- The beacons of libczmq, a parameter. A filter that is `none` is `NULL`.
pub record Zbeacon (n : Zsocket) : Type 0 where
  pub zbeacon_new : ℤ → n.World → Ptr × n.World
  pub zbeacon_destroy : Ptr → n.World → Option n.World
  pub zbeacon_hostname : Ptr → n.World → Option Bytes
  pub zbeacon_set_interval : Ptr → ℤ → n.World → Option n.World
  pub zbeacon_noecho : Ptr → n.World → Option n.World
  pub zbeacon_publish : Ptr → Bytes → n.World → Option n.World
  pub zbeacon_silence : Ptr → n.World → Option n.World
  pub zbeacon_subscribe : Ptr → Option Bytes → n.World → Option n.World
  pub zbeacon_unsubscribe : Ptr → n.World → Option n.World
  pub zbeacon_socket : Ptr → n.World → Option Ptr

-- The sockets beside the beacons: `zmq_beacon_wrapper` has the address of a beacon only.
pub record Beacons (n : Zsocket) (z : Zlist) : Type 0 where
  pub net : Net n z
  pub beacons : Table Ptr

module _ {n : Zsocket} {z : Zlist} where
  abbrev of_net : {A : Type 0} → Run (Net n z) A → Cmd (Beacons n z) A
  of_net (ok a m) s = ok a (record s { net = m })
  of_net (raise e m) s = raise e (record s { net = m })
  of_net fault s = fault

  -- A step on sockets.
  abbrev on_net : {A : Type 0} → Cmd (Net n z) A → Cmd (Beacons n z) A
  on_net f s = of_net (f s.net) s

  abbrev after_run : Option n.World → Cmd (Beacons n z) (Unit {0})
  after_run none s = fault
  after_run (some w) s = ok tt (record s { net = record s.net { world = w } })

  -- Calls of the library: one that returns nothing, and one that reads.
  abbrev run : (n.World → Option n.World) → Cmd (Beacons n z) (Unit {0})
  run f s = after_run (f s.net.world) s

  abbrev query : {A : Type 0} → (n.World → Option A) → Cmd (Beacons n z) A
  query f s = defined (f s.net.world) s

  -- `GetZmqBeacon`, which does not ask whether the beacon has been destroyed
  abbrev pub get_beacon : ℕ → Cmd (Beacons n z) Ptr
  get_beacon u s = or_raise type_error (s.beacons u) s

  abbrev put_beacon : ℕ → Ptr → Cmd (Beacons n z) (Unit {0})
  put_beacon u p s = ok tt (record s { beacons = update s.beacons u (some p) })

  abbrev int_of : Value → Cmd (Beacons n z) ℤ
  int_of (int i) = pure i
  int_of _ = throw type_error

  abbrev string_of : Value → Cmd (Beacons n z) Bytes
  string_of (str d) = pure d
  string_of _ = throw type_error

  abbrev filter_of : Value → Cmd (Beacons n z) (Option Bytes)
  filter_of qnil = pure none
  filter_of (str d) = pure (some d)
  filter_of _ = throw type_error

module _ {n : Zsocket} {z : Zlist} (lib : Zbeacon n) where
  -- `rb_czmq_nogvl_beacon_destroy`
  unfoldable pub destroy_beacon : ℕ → Cmd (Beacons n z) (Unit {0})
  destroy_beacon u = do
    p ← (λ s. defined (s.beacons u) s)
    if p == 0 then pure tt else do run (lib.zbeacon_destroy p); put_beacon u 0

  -- `rb_czmq_free_beacon_gc`, after which the struct is gone
  unfoldable pub free_beacon_gc : ℕ → Cmd (Beacons n z) (Unit {0})
  unfolding destroy_beacon
  free_beacon_gc u = do
    destroy_beacon u
    (λ s. ok tt (record s { beacons = update s.beacons u none }))

  -- What `ZMQ::Beacon.new` does with the address that it gets.
  abbrev alloc_beacon : Ptr × n.World → Cmd (Beacons n z) ℕ
  alloc_beacon (p, w) s =
      (if p == 0 then on_net alloc_failed else λ t. ok t.net.next (record t {
        beacons = update t.beacons t.net.next (some p);
        net = record t.net { next = t.net.next + 1 };
      }))
        (record s { net = record s.net { world = w } })

  -- `ZMQ::Beacon.new`
  unfoldable pub s_new : Value → Cmd (Beacons n z) ℕ
  s_new port = do prt ← int_of port; (λ s. alloc_beacon (lib.zbeacon_new prt s.net.world) s)

  -- `destroy`
  unfoldable pub destroy : ℕ → Cmd (Beacons n z) Value
  unfolding destroy_beacon
  destroy u = do get_beacon u; destroy_beacon u; pure qnil

  -- `hostname`
  unfoldable pub hostname : ℕ → Cmd (Beacons n z) Value
  hostname u = do p ← get_beacon u; h ← query (lib.zbeacon_hostname p); pure (str h)

  -- `interval=`
  unfoldable pub set_interval : ℕ → Value → Cmd (Beacons n z) Value
  set_interval u interval = do
    p ← get_beacon u
    i ← int_of interval
    run (lib.zbeacon_set_interval p i)
    pure qnil

  -- `noecho`
  unfoldable pub noecho : ℕ → Cmd (Beacons n z) Value
  noecho u = do p ← get_beacon u; run (lib.zbeacon_noecho p); pure qnil

  -- `publish`
  unfoldable pub publish : ℕ → Value → Cmd (Beacons n z) Value
  publish u transmit = do
    p ← get_beacon u
    d ← string_of transmit
    run (lib.zbeacon_publish p d)
    pure qnil

  -- `silence`
  unfoldable pub silence : ℕ → Cmd (Beacons n z) Value
  silence u = do p ← get_beacon u; run (lib.zbeacon_silence p); pure qnil

  -- `subscribe`
  unfoldable pub subscribe : ℕ → Value → Cmd (Beacons n z) Value
  subscribe u filter = do
    p ← get_beacon u
    f ← filter_of filter
    run (lib.zbeacon_subscribe p f)
    pure qnil

  -- `unsubscribe`
  unfoldable pub unsubscribe : ℕ → Cmd (Beacons n z) Value
  unsubscribe u = do p ← get_beacon u; run (lib.zbeacon_unsubscribe p); pure qnil

  -- `pipe`, a socket without a context
  unfoldable pub pipe : ℕ → Cmd (Beacons n z) Value
  unfolding socket_alloc
  pipe u = do
    p ← get_beacon u
    q ← query (lib.zbeacon_socket p)
    v ← on_net (socket_alloc ContextRef.nil 0 q)
    k ← on_net (get_socket v)
    on_net (put_socket v (record k { state = bound }))
    pure (obj v)
