-- ===== src/Poller.antt =====
-- ext/rbczmq/poller.c: the items of a poller, and the array that it hands to libzmq.
pub mod Coercion
pub mod Entries
pub mod Items
pub mod Order
pub mod Polling
pub mod Reached
pub mod Removal
pub mod Selection
use rbczmq.Base.{
  ℕ, zero, suc, ◌+◌, ◌-◌, ◌*◌, Bool, true, false, not, ◌||◌, ◌&&◌, Option, none, some, List, [],
  ◌∷◌, ◌++◌, get_elem?, erase_all, ℤ, pos, negsuc, zmq_error, type_error, sys_error, ok, raise,
  fault, Cmd, pure, throw, defined, or_raise, assert, ◌>>=◌, ◌>>◌, ◌==◌, if◌then◌else◌, Table,
  update,
}
use rbczmq.Czmq.{Errno}
use rbczmq.Czmq.Zlist.{Zlist}
use rbczmq.Doubles.{Doubles, Delay, fixnum, double_of, long_of_size}
use rbczmq.Net.{Zsocket, Net, call_failed}
use rbczmq.Objects.{Value, qnil, qtrue, qfalse, int, obj}
use rbczmq.Pollitem.{
  RawItem, Pollitem, Poller, Polls, get_pollitem, coerce, pollable_of, set_verbose, lift, is_in,
  is_out,
}

-- libzmq's poll, which is not part of the repository: the items and the timeout give a return code
-- and the events of each item.
abbrev pub ZmqPoll : Zsocket → Type 0
ZmqPoll n = List RawItem → ℤ → n.World → Option (ℤ × List ℤ × n.World)

-- `EINTR` and `EAGAIN`, after which `poll` returns to Ruby.
abbrev pub is_recoverable : Errno → Bool
is_recoverable Errno.interrupted = true
is_recoverable Errno.again = true
is_recoverable _ = false

-- Two pollables are the same object, where `none` is nil.
abbrev pub same_pollable : Option ℕ → Option ℕ → Bool
same_pollable none none = true
same_pollable none (some _) = false
same_pollable (some _) none = false
same_pollable (some a) (some b) = a == b

module _ {n : Zsocket} {z : Zlist} where
  -- `ZmqGetPoller`
  abbrev pub get_poller : ℕ → Cmd (Polls n z) Poller
  get_poller v s = or_raise type_error (s.pollers v) s

  abbrev pub put_poller : ℕ → Poller → Cmd (Polls n z) (Unit {0})
  put_poller v p s = ok tt (record s { pollers = update s.pollers v (some p) })

  -- `rb_ary_entry` with `ZmqGetPollitem`, which raises on nil
  abbrev pub entry : List ℕ → ℕ → Cmd (Polls n z) ℕ
  entry us i s = or_raise type_error (get_elem? us i) s

  -- the loop of `rb_czmq_poller_rebuild_pollset`, over `k` items from position `i` on
  unfoldable pub rebuild : (k : ℕ) → List ℕ → (i : ℕ) → Cmd (Polls n z) (List RawItem)
  rebuild zero us i = pure []
  rebuild (suc k) us i = do
    u ← entry us i
    it ← get_pollitem u
    rest ← rebuild k us (i + 1)
    pure (it.item ∷ rest)

  -- `rb_czmq_poller_rebuild_pollset`
  unfoldable pub rebuild_pollset : ℕ → Cmd (Polls n z) (Unit {0})
  unfolding rebuild
  rebuild_pollset v = do
    p ← get_poller v
    put_poller v (record p { pollset = none })
    items ← rebuild p.poll_size p.pollables 0
    put_poller v (record p { pollset = some items; dirty = false })

  -- `ZMQ::Poller.new`
  unfoldable pub new : Cmd (Polls n z) ℕ
  new s = ok s.next (record s {
    pollers = update s.pollers s.next (
        some (record {
          pollables = [];
          readables = [];
          writables = [];
          pollset = none;
          poll_size = 0;
          dirty = false;
          verbose = false;
        }));
    next = s.next + 1;
  })

  -- `register`
  unfoldable pub register : ℕ → ℕ → Cmd (Polls n z) Value
  unfolding coerce set_verbose
  register v pollable = do
    p ← get_poller v
    u ← coerce pollable
    get_pollitem u
    (if p.verbose then set_verbose u true else pure qnil)
    put_poller v
        (record p { pollables = p.pollables ++ u ∷ []; poll_size = p.poll_size + 1; dirty = true })
    pure (obj u)

  -- the loop of `remove`, over `k` items from position `i` on: the first that is the item itself, or
  -- has the same pollable
  unfoldable pub find : (k : ℕ) → List ℕ → (i u : ℕ) → Pollitem → Cmd (Polls n z) (Option ℕ)
  find zero us i u it = pure none
  find (suc k) us i u it =
      let rest = find k us (i + 1) u it in
      do
        r ← entry us i
        other ← get_pollitem r
        if (u == r) || same_pollable (pollable_of it) (pollable_of other)
            then pure (some r)
            else rest

  -- `rb_ary_delete` takes every entry away that is the item, and the size goes down by one.
  unfoldable pub remove : ℕ → ℕ → Cmd (Polls n z) Value
  unfolding coerce find
  remove v pollable = do
    p ← get_poller v
    u ← coerce pollable
    it ← get_pollitem u
    found ← find p.poll_size p.pollables 0 u it
    elim found [
      | none ↦ pure qfalse
      | some r ↦ (do
        put_poller v (record p {
          pollables = erase_all r p.pollables;
          poll_size = p.poll_size - 1;
          dirty = true;
        })
        pure (obj r))
    ]

  pub readables : ℕ → Cmd (Polls n z) (List (Option ℕ))
  readables v = do p ← get_poller v; pure p.readables

  pub writables : ℕ → Cmd (Polls n z) (List (Option ℕ))
  writables v = do p ← get_poller v; pure p.writables

  -- `verbose=`
  unfoldable pub set_poller_verbose : ℕ → Bool → Cmd (Polls n z) Value
  set_poller_verbose v level = do
    p ← get_poller v
    put_poller v (record p { verbose = level })
    pure qnil

  -- The argument of `poll` in seconds, where `none` is nil or no argument.
  abbrev pub seconds : (f : Doubles) → Option (Delay f) → Cmd (Polls n z) f.Double
  seconds f none = double_of f (fixnum (pos 0))
  seconds f (some d) = double_of f d

  -- the loop of `rb_czmq_poller_rebuild_selectables`, over `k` items from position `i` on, with the
  -- events that the poll has filled in
  unfoldable pub select :
      (k : ℕ) → List ℕ → List ℤ → (i : ℕ) → Cmd (Polls n z) (List (Option ℕ) × List (Option ℕ))
  select zero us revents i = pure ([], [])
  select (suc k) us revents i = do
    e ← (λ s. defined (get_elem? revents i) s)
    u ← entry us i
    it ← get_pollitem u
    rest ← select k us revents (i + 1)
    pure (
      (if is_in e then pollable_of it ∷ rest.0 else rest.0),
      (if is_out e then pollable_of it ∷ rest.1 else rest.1),
    )

  -- `rb_czmq_poller_rebuild_selectables`. After an exception in the loop both lists are empty here,
  -- where the code keeps what it has pushed until then.
  unfoldable pub rebuild_selectables : ℕ → List ℤ → Cmd (Polls n z) (Unit {0})
  unfolding select
  rebuild_selectables v revents = do
    p ← get_poller v
    put_poller v (record p { readables = []; writables = [] })
    found ← select p.poll_size p.pollables revents 0
    put_poller v (record p { readables = found.0; writables = found.1 })

  -- What follows the return code of libzmq's poll: -1 goes through `ZmqAssert`.
  abbrev polled : ℕ → ℤ → List ℤ → Cmd (Polls n z) Value
  polled v (pos zero) revents = pure (int (pos zero))
  polled v (pos (suc k)) revents = do rebuild_selectables v revents; pure (int (pos (suc k)))
  polled v (negsuc k) revents = λ s.
      (if is_recoverable (n.zmq_errno s.net.world) then pure (int (negsuc k)) else assert_rc k) s
    where
      assert_rc : ℕ → Cmd (Polls n z) Value
      assert_rc zero = lift call_failed
      assert_rc (suc j) = pure (int (negsuc (suc j)))

  -- `rb_czmq_nogvl_poll`
  abbrev after_poll : Option (ℤ × List ℤ × n.World) → Cmd (Net n z) (ℤ × List ℤ)
  after_poll none m = fault
  after_poll (some (rc, revents, w)) m = ok (rc, revents) (record m { world = w })

  -- The test for a timeout below 0, of an unsigned type, never holds.
  unfoldable pub poll :
      ZmqPoll n
      → (f : Doubles) → (poller : ℕ) → (timeout : Option (Delay f)) → Cmd (Polls n z) Value
  unfolding rebuild_pollset rebuild_selectables
  poll zmq_poll f v tmout = do
    p ← get_poller v
    d ← seconds f tmout
    if p.poll_size == 0 then pure (int (pos 0)) else do
      (if p.dirty then rebuild_pollset v else pure tt)
      timeout ← defined (f.to_size (f.times_1000 d))
      q ← get_poller v
      items ← defined q.pollset
      put_poller v (record q { readables = []; writables = [] })
      (rc, revents) ← lift (λ m. after_poll (zmq_poll items (long_of_size timeout) m.world) m)
      polled v rc revents
