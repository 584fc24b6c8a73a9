-- ===== src/Tests/Settings.antt =====
-- An example of the theorem on the options of a socket: a library that keeps their values.
use rbczmq.Base.{
  ℕ, ◌+◌, ◌≡◌, ◌≢◌, refl, sym, ◌∙◌, ap, true, false, none, some, Option, List, [], ◌∷◌, get_elem?,
  ℤ, pos, zmq_error, Returns, ◌==◌, ==_self, ne→==, if◌then◌else◌,
}
use rbczmq.Context.Closing.{Member, live}
use rbczmq.Czmq.{Ptr, Errno}
use rbczmq.Czmq.Zlist.{ideal_zlist}
use rbczmq.Net.{Zsocket, Closing, Net, IntOption}
use rbczmq.Net.Ideal.{World, ideal_of, on_open, shut}
use rbczmq.Objects.{qnil, int}
use rbczmq.Socket.OptionTable.{write}
use rbczmq.Socket.Settings.{Settings, Written, setting_lem}

abbrev index : IntOption → ℕ
index IntOption.sndhwm = 0
index IntOption.rcvhwm = 1
index IntOption.affinity = 2
index IntOption.rate = 3
index IntOption.recovery_ivl = 4
index IntOption.maxmsgsize = 5
index IntOption.multicast_hops = 6
index IntOption.sndbuf = 7
index IntOption.rcvbuf = 8
index IntOption.linger = 9
index IntOption.backlog = 10
index IntOption.reconnect_ivl = 11
index IntOption.reconnect_ivl_max = 12
index IntOption.rcvtimeo = 13
index IntOption.sndtimeo = 14

abbrev all_options : List IntOption
all_options =
    IntOption.sndhwm ∷ IntOption.rcvhwm ∷ IntOption.affinity ∷ IntOption.rate
    ∷ IntOption.recovery_ivl ∷ IntOption.maxmsgsize ∷ IntOption.multicast_hops ∷ IntOption.sndbuf
    ∷ IntOption.rcvbuf ∷ IntOption.linger ∷ IntOption.backlog ∷ IntOption.reconnect_ivl
    ∷ IntOption.reconnect_ivl_max ∷ IntOption.rcvtimeo ∷ IntOption.sndtimeo ∷ []

abbrev or_first : Option IntOption → IntOption
or_first none = IntOption.sndhwm
or_first (some o) = o

abbrev of_index : ℕ → IntOption
of_index i = or_first (get_elem? all_options i)

of_index-index : (o : IntOption) → of_index (index o) ≡ o
of_index-index IntOption.sndhwm = refl
of_index-index IntOption.rcvhwm = refl
of_index-index IntOption.affinity = refl
of_index-index IntOption.rate = refl
of_index-index IntOption.recovery_ivl = refl
of_index-index IntOption.maxmsgsize = refl
of_index-index IntOption.multicast_hops = refl
of_index-index IntOption.sndbuf = refl
of_index-index IntOption.rcvbuf = refl
of_index-index IntOption.linger = refl
of_index-index IntOption.backlog = refl
of_index-index IntOption.reconnect_ivl = refl
of_index-index IntOption.reconnect_ivl_max = refl
of_index-index IntOption.rcvtimeo = refl
of_index-index IntOption.sndtimeo = refl

index_apart : (q o : IntOption) → q ≢ o → index q ≢ index o
index_apart q o ne e = ne (sym (of_index-index q) ∙ ap of_index e ∙ of_index-index o)

-- The value of each option of each socket.
abbrev Values : Type 0
Values = ℕ → Ptr → ℤ

abbrev kept : ℕ → Ptr → ℤ → World Values → World Values
kept o p i w = record w {
  queue = λ o' q. if o' == o then (if q == p then i else w.queue o' q) else w.queue o' q;
}

abbrev options : Zsocket
options = record (ideal_of Values) {
  zsocket_get = λ o p w. on_open p w (w.queue (index o) p);
  zsocket_set = λ o p i w. on_open p w (kept (index o) p i w);
}

abbrev closing : Closing options
closing = record {
  is_open = λ w q. w.opened q;
  close = λ x p w h. (shut p w, rw h, λ q. refl);
  close_ctx = λ x w. (w, refl, λ q h. h);
  linger_new = λ w h. (record w { next = w.next + 1 }, refl);
}

unfoldable settings : Settings closing
settings = record {
  takes = λ o i. true;
  get = λ o p w h. (w.queue (index o) p, rw h refl);
  set = λ o p i w h g. (
    kept (index o) p i w,
    rw h refl,
    rw (h, ==_self (index o), ==_self p) refl,
    λ q ne. rw (h, ne→== (index_apart q o ne)) refl,
  );
}

abbrev member : Member
member = record {
  ref = 2;
  ctx = 11;
  socket = 21;
  verbose = false;
  state = 2;
  endpoints = [];
  thread = 9;
}

abbrev state : Net options ideal_zlist
state = record {
  world = record {
    opened = λ p. p == 21;
    endpoint = λ p. none;
    next = 30;
    errno = Errno.success;
    queue = λ o p. pos 1000;
  };
  socks = λ u. if u == 2 then some (live 1 member) else none;
  ctxs = λ v. none;
  processes = λ p. none;
  dangling = [];
  next = 4;
  pid = 8;
  thread = 9;
}

setting_lem_example :
    Returns
      (Written closing settings state 2 (live 1 member) refl refl IntOption.rate (pos 50))
      (λ e t. (e ≡ zmq_error) × (t ≡ state) × (9 ≢ state.thread))
      (write IntOption.rate 2 (int (pos 50)) state)
    × Returns (λ r t. ⊥) (λ e t. t ≡ state) (write IntOption.rate 2 qnil state)
unfolding settings
setting_lem_example =
    setting_lem closing settings state 2 (live 1 member) refl refl IntOption.rate (pos 50) qnil refl
      refl (λ j e. absurd (cc e))
