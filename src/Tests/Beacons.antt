-- ===== src/Tests/Beacons.antt =====
-- Examples of the theorems on beacons and on the functions of the module.
use rbczmq.Base.{
  ℕ, ◌≡◌, ◌↔◌, ◌<◌, ◌^◌, refl, arith, true, false, none, some, [], ◌∷◌, pos, ℤ, Returns, ok, ◌==◌,
  if◌then◌else◌,
}
use rbczmq.Beacon.{Zbeacon, Beacons, destroy, free_beacon_gc}
use rbczmq.Beacon.Ending.{NullUndefined, Unguarded, destroyed_lem}
use rbczmq.Czmq.{Errno}
use rbczmq.Czmq.Zlist.{ideal_zlist}
use rbczmq.Extension.{Library, now}
use rbczmq.Extension.Clock.{FitsInt, now_lem}
use rbczmq.Net.{Net}
use rbczmq.Net.Ideal.{ideal_zsocket, on_open, shut}
use rbczmq.Objects.{qnil, int}

-- A beacon is an address that is open, and its socket is the next one.
abbrev ideal_zbeacon : Zbeacon ideal_zsocket
ideal_zbeacon = record {
  zbeacon_new = λ i w. (0, w);
  zbeacon_destroy = λ p w. on_open p w (shut p w);
  zbeacon_hostname = λ p w. if p == 0 then none else some [];
  zbeacon_set_interval = λ p i w. if p == 0 then none else some w;
  zbeacon_noecho = λ p w. if p == 0 then none else some w;
  zbeacon_publish = λ p d w. if p == 0 then none else some w;
  zbeacon_silence = λ p w. if p == 0 then none else some w;
  zbeacon_subscribe = λ p f w. if p == 0 then none else some w;
  zbeacon_unsubscribe = λ p w. if p == 0 then none else some w;
  zbeacon_socket = λ p w. if p == 0 then none else some 22;
}

abbrev null_undefined : NullUndefined ideal_zbeacon
null_undefined = record {
  hostname = λ w. refl;
  set_interval = λ i w. refl;
  noecho = λ w. refl;
  publish = λ d w. refl;
  silence = λ w. refl;
  subscribe = λ f w. refl;
  unsubscribe = λ w. refl;
  socket = λ w. refl;
}

abbrev net : Net ideal_zsocket ideal_zlist
net = record {
  world = record {
    opened = λ p. true;
    endpoint = λ p. none;
    next = 30;
    errno = Errno.success;
    queue = [];
  };
  socks = λ u. none;
  ctxs = λ v. none;
  processes = λ p. none;
  dangling = [];
  next = 4;
  pid = 8;
  thread = 9;
}

abbrev state : Beacons ideal_zsocket ideal_zlist
state = record { net = net; beacons = λ u. if u == 3 then some 21 else none }

destroyed_lem_example :
    Returns
      (λ r t.
        (r ≡ qnil)
        × (t.net.world ≡ shut 21 net.world)
        × (destroy ideal_zbeacon 3 t ≡ ok qnil t)
        × Returns (λ x t'. t'.net ≡ t.net) (λ e t'. ⊥) (free_beacon_gc ideal_zbeacon 3 t)
        × Unguarded ideal_zbeacon t 3 (pos 5) (7 ∷ []))
      (λ e t. ⊥)
      (destroy ideal_zbeacon 3 state)
destroyed_lem_example =
    destroyed_lem ideal_zbeacon null_undefined state 3 21 (shut 21 net.world) (pos 5) (7 ∷ []) refl
      (omega arith) refl

abbrev time : ℕ
time = 1323206405148

abbrev library : Library ideal_zsocket
library = record {
  zctx_interrupted = λ w. false;
  set_interrupted = λ w. w;
  zmq_version = (pos 3, pos 2, pos 4);
  czmq_version = (pos 1, pos 4, pos 1);
  zclock_time = λ w. time;
  zclock_log = λ d w. w;
  zmq_errno = λ w. pos 0;
  zmq_strerror = λ e. [];
  zmq_proxy = λ f b c w. some (pos 0, w);
}

now_lem_example :
    Returns
      (λ r t.
        (t.world ≡ net.world)
        × ((i : ℤ) × (r ≡ int i) × FitsInt i × ((i ≡ pos time) ↔ time < 2 ^ 31)))
      (λ e t. ⊥)
      (now library net)
now_lem_example = now_lem library net
