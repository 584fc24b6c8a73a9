-- ===== src/Pollitem.antt =====
-- ext/rbczmq/pollitem.c: sockets and IO objects as items of a poller.
use rbczmq.Base.{
  ℕ, ◌≡◌, refl, ◌+◌, Bool, ◌||◌, Option, none, some, List, [], ◌∷◌, ◌++◌, ℤ, pos, negsuc, zmq_error,
  type_error, ok, raise, fault, Cmd, pure, throw, or_raise, assert, ◌>>=◌, ◌>>◌, Run, ◌==◌, ◌/◌,
  ◌%◌, Table, update,
}
use rbczmq.Czmq.{Ptr}
use rbczmq.Czmq.Zlist.{Zlist}
use rbczmq.Net.{Zsocket, Net, get_socket, guard_cross_thread, put_socket}
use rbczmq.Objects.{Value, qnil, int}
use rbczmq.Socket.{assert_not_pending}

-- `zmq_pollitem_t`, without the member that a poll fills in.
pub record RawItem : Type 0 where
  pub socket : Ptr
  pub fd : ℤ
  pub events : ℤ

-- `zmq_pollitem_wrapper`, where `none` is nil and the handler is a reference.
pub record Pollitem : Type 0 where
  pub socket : Option ℕ
  pub io : Option ℕ
  pub events : ℤ
  pub handler : Option ℕ
  pub item : RawItem

-- The references among the members of a struct, where `none` is nil or `NULL`.
abbrev pub given : List (Option ℕ) → List ℕ
given [] = []
given (none ∷ us) = given us
given (some u ∷ us) = u ∷ given us

-- `rb_czmq_mark_pollitem`: what the collector marks for an item; `events` is no object
pub mark_pollitem : Pollitem → List ℕ
mark_pollitem i = given (i.socket ∷ i.io ∷ i.handler ∷ [])

-- `zmq_poll_wrapper`
pub record Poller : Type 0 where
  pub pollables : List ℕ
  pub readables : List (Option ℕ)
  pub writables : List (Option ℕ)
  -- `none` where it is NULL or not filled in
  pub pollset : Option (List RawItem)
  pub poll_size : ℕ
  pub dirty : Bool
  pub verbose : Bool

-- `rb_czmq_mark_poller`: what the collector marks for a poller, with the elements of the arrays
unfoldable pub mark_poller : Poller → List ℕ
mark_poller p = p.pollables ++ given p.readables ++ given p.writables

-- The objects that polling works on. An IO object is known by its `fileno`, and a handler by the
-- test that it responds to on_error, on_readable and on_writable.
pub record Polls (n : Zsocket) (z : Zlist) : Type 0 where
  pub net : Net n z
  pub items : Table Pollitem
  pub pollers : Table Poller
  pub ios : Table ℤ
  pub responds : ℕ → Bool
  pub next : ℕ

-- ZMQ_POLLIN is bit 0 of the events and ZMQ_POLLOUT is bit 1, in two's complement.
unfoldable pub is_in : ℤ → Bool
is_in (pos k) = k % 2 == 1
is_in (negsuc k) = k % 2 == 0

unfoldable pub is_out : ℤ → Bool
is_out (pos k) = k / 2 % 2 == 1
is_out (negsuc k) = k / 2 % 2 == 0

-- The socket of an item, or else its IO object.
abbrev pub pollable_of : Pollitem → Option ℕ
pollable_of i = elim i.socket [ none ↦ i.io | some u ↦ some u ]

module _ {n : Zsocket} {z : Zlist} where
  abbrev pub on_net : {A : Type 0} → Run (Net n z) A → Cmd (Polls n z) A
  on_net (ok a m) s = ok a (record s { net = m })
  on_net (raise e m) s = raise e (record s { net = m })
  on_net fault s = fault

  -- A step on sockets.
  abbrev pub lift : {A : Type 0} → Cmd (Net n z) A → Cmd (Polls n z) A
  lift f s = on_net (f s.net) s

  -- `ZmqGetPollitem`
  abbrev pub get_pollitem : ℕ → Cmd (Polls n z) Pollitem
  get_pollitem u s = or_raise type_error (s.items u) s

  abbrev pub put_pollitem : ℕ → Pollitem → Cmd (Polls n z) (Unit {0})
  put_pollitem u i s = ok tt (record s { items = update s.items u (some i) })

  -- `rb_czmq_free_pollitem_gc`, after which the struct is gone
  unfoldable pub free_pollitem_gc : ℕ → Cmd (Polls n z) (Unit {0})
  free_pollitem_gc u s = ok tt (record s { items = update s.items u none })

  -- `rb_czmq_free_poller_gc` of poller.c, likewise
  pub free_poller_gc : ℕ → Cmd (Polls n z) (Unit {0})
  free_poller_gc v s = ok tt (record s { pollers = update s.pollers v none })

  -- The object of a new item.
  abbrev alloc_pollitem : Pollitem → Cmd (Polls n z) ℕ
  alloc_pollitem i s =
      ok s.next (record s { items = update s.items s.next (some i); next = s.next + 1 })

  -- The branch for a socket, and the one for an IO object.
  unfoldable pub of_socket : ℕ → ℤ → Cmd (Polls n z) ℕ
  of_socket u events = do
    k ← lift (get_socket u)
    lift (assert_not_pending k)
    lift (guard_cross_thread k)
    alloc_pollitem (record {
      socket = some u;
      io = none;
      events = events;
      handler = none;
      item = record { socket = k.socket; fd = pos 0; events = events };
    })

  unfoldable pub of_io : ℕ → ℤ → Cmd (Polls n z) ℕ
  of_io u events = do
    fd ← (λ s. or_raise type_error (s.ios u) s)
    alloc_pollitem (record {
      socket = none;
      io = some u;
      events = events;
      handler = none;
      item = record { socket = 0; fd = fd; events = events };
    })

  -- `ZMQ::Pollitem.new`, of an object and its events
  abbrev pub of_events : ℕ → ℤ → Cmd (Polls n z) ℕ
  of_events u events = do
    assert (is_in events || is_out events) zmq_error
    (λ s. elim (s.net.socks u) [ some _ ↦ of_socket u events s | none ↦ of_io u events s ])

  unfoldable pub s_new : ℕ → Value → Cmd (Polls n z) ℕ
  unfolding of_socket of_io is_in is_out
  s_new u (int events) = of_events u events
  s_new u qnil = of_events u (pos 3)
  s_new u _ = throw type_error

  -- `ZMQ::Pollitem.coerce` and `rb_czmq_pollitem_coerce`
  unfoldable pub coerce : ℕ → Cmd (Polls n z) ℕ
  unfolding s_new
  coerce u = λ s. elim (s.items u) [ some _ ↦ ok u s | none ↦ s_new u qnil s ]

  -- An item is its own coercion.
  pub coerce_item :
      (s : Polls n z) (u : ℕ) (it : Pollitem) → s.items u ≡ some it → coerce u s ≡ ok u s
  unfolding coerce
  coerce_item s u it h = rw (coerce, h) refl

  -- `rb_czmq_pollitem_pollable`
  unfoldable pub pollable : ℕ → Cmd (Polls n z) (Option ℕ)
  pollable u = do i ← get_pollitem u; pure (pollable_of i)

  pub events : ℕ → Cmd (Polls n z) Value
  events u = do i ← get_pollitem u; pure (int i.events)

  pub handler : ℕ → Cmd (Polls n z) (Option ℕ)
  handler u = do i ← get_pollitem u; pure i.handler

  -- `handler=`
  pub handler_equals : ℕ → ℕ → Cmd (Polls n z) Value
  handler_equals u h = do
    i ← get_pollitem u
    (λ s. assert (s.responds h) zmq_error s)
    put_pollitem u (record i { handler = some h })
    pure qnil

  -- `verbose=`, which passes the level on to a socket
  unfoldable pub set_verbose : ℕ → Bool → Cmd (Polls n z) Value
  set_verbose u level = do
    i ← get_pollitem u
    elim i.socket [
      | none ↦ pure qnil
      | some v ↦ (do
        k ← lift (get_socket v)
        lift (put_socket v (record k { verbose = level }))
        pure qnil)
    ]
