-- ===== src/Loop.antt =====
-- ext/rbczmq/loop.c: reactors, what they call back, and the methods that register it.
pub mod Callbacks
pub mod Safety
pub mod Outcomes
pub mod Methods
pub mod Tables
pub mod Reached
pub mod Serving
pub mod Breaking
pub mod Ending
pub mod Ideal
use rbczmq.Base.{
  ℕ, zero, suc, ◌+◌, Bool, true, false, not, ◌||◌, ◌&&◌, Option, none, some, List, [], ◌∷◌, ◌++◌,
  erase_all, ℤ, pos, negsuc, minus_one, type_error, mem_error, zmq_error, sys_error, ruby_error, ok,
  raise, fault, Cmd, Run, pure, throw, defined, or_raise, assert, ◌>>=◌, ◌>>◌, ◌==◌, if◌then◌else◌,
  Table, update, ◌/◌, ◌%◌,
}
use rbczmq.Czmq.{Ptr}
use rbczmq.Czmq.Zlist.{Zlist}
use rbczmq.Net.{Zsocket, Net, call_failed, assert_sys_error, after_call, after_run}
use rbczmq.Objects.{Value, qnil, qtrue, qfalse, bool_value, int, obj}
use rbczmq.Pollitem.{
  RawItem, Pollitem, Polls, get_pollitem, coerce, lift, is_in, is_out, set_verbose,
}
use rbczmq.Socket.{is_success}
use rbczmq.Timer.{
  LoopObj, TimerObj, React, Call, call, on_readable, on_writable, on_error, Outcome, gives, fails,
  jumps, Ruby, get_timer,
}

-- The `void *` that a callback of a reactor gets, where it stands for a loop: the struct of a loop,
-- or a VALUE, `none` for nil.
pub data Arg : Type 0 where
  wrapper : ℕ → Arg
  value : Option ℕ → Arg

-- A function that a reactor calls back, with its argument: a VALUE for a timer, and the struct of an
-- item, with what is polled, for `rb_czmq_loop_pollitem_callback`.
pub data Handler : Type 0 where
  started breaker : Arg → Handler
  timer : ℕ → Handler
  pollitem : RawItem → ℕ → Handler

-- The reactor of libczmq, a parameter. `zloop_timer_end` takes the argument of a timer.
pub record Zloop (n : Zsocket) : Type 0 where
  pub zloop_new : n.World → Ptr × n.World
  pub zloop_destroy : Ptr → n.World → Option n.World
  pub zloop_timer : Ptr → (delay times : ℕ) → Handler → n.World → Option (ℤ × n.World)
  pub zloop_timer_end : Ptr → ℕ → n.World → Option (ℤ × n.World)
  pub zloop_poller : Ptr → RawItem → Handler → n.World → Option (ℤ × n.World)
  pub zloop_poller_end : Ptr → RawItem → n.World → Option n.World
  pub zloop_set_verbose : Ptr → Bool → n.World → Option n.World
  -- `zctx_interrupted = true`
  pub interrupt : n.World → n.World

-- `zloop_start`, which calls back with a handler and the events of its item until it ends.
abbrev pub Serve : Zsocket → Zlist → Type 0
Serve n z = (Handler → ℤ → Cmd (React n z) ℤ) → Ptr → Cmd (React n z) ℤ

-- ZMQ_POLLERR is bit 2 of the events.
unfoldable pub is_err : ℤ → Bool
is_err (pos k) = k / 4 % 2 == 1
is_err (negsuc k) = k / 4 % 2 == 0

abbrev pub is_minus_one : ℤ → Bool
is_minus_one (negsuc zero) = true
is_minus_one _ = false

-- The test `ret == Qfalse`.
abbrev pub is_false : Value → Bool
is_false qfalse = true
is_false _ = false

-- The test `level == Qtrue`.
abbrev pub is_true : Value → Bool
is_true qtrue = true
is_true _ = false

module _ {n : Zsocket} {z : Zlist} where
  abbrev pub of_polls : {A : Type 0} → Run (Polls n z) A → Cmd (React n z) A
  of_polls (ok a m) s = ok a (record s { polls = m })
  of_polls (raise e m) s = raise e (record s { polls = m })
  of_polls fault s = fault

  -- A step on items and sockets, and one on sockets.
  abbrev pub on_polls : {A : Type 0} → Cmd (Polls n z) A → Cmd (React n z) A
  on_polls f s = of_polls (f s.polls) s

  abbrev pub on_net : {A : Type 0} → Cmd (Net n z) A → Cmd (React n z) A
  on_net f = on_polls (lift f)

  abbrev pub with_world : React n z → n.World → React n z
  with_world s w = record s { polls = record s.polls { net = record s.polls.net { world = w } } }

  abbrev pub after_zloop : {A : Type 0} → Option (A × n.World) → Cmd (React n z) A
  after_zloop none s = fault
  after_zloop (some (a, w)) s = ok a (with_world s w)

  abbrev pub after_zloop_run : Option n.World → Cmd (React n z) (Unit {0})
  after_zloop_run none s = fault
  after_zloop_run (some w) s = ok tt (with_world s w)

  -- Calls of the reactor: one with a result, and one that returns nothing.
  abbrev pub zloop : {A : Type 0} → (n.World → Option (A × n.World)) → Cmd (React n z) A
  zloop f s = after_zloop (f s.polls.net.world) s

  abbrev pub zloop_run : (n.World → Option n.World) → Cmd (React n z) (Unit {0})
  zloop_run f s = after_zloop_run (f s.polls.net.world) s

  -- `ZmqAssert`, with the rest of the method
  abbrev pub loop_assert : Bool → Cmd (React n z) Value → Cmd (React n z) Value
  loop_assert true rest = rest
  loop_assert false rest = on_net call_failed

  -- The struct behind an address that the code holds.
  abbrev pub deref_loop : ℕ → Cmd (React n z) LoopObj
  deref_loop v s = defined (s.loops v) s

  abbrev pub put_loop : ℕ → LoopObj → Cmd (React n z) (Unit {0})
  put_loop v l s = ok tt (record s { loops = update s.loops v (some l) })

  -- `ZmqGetLoop`
  unfoldable pub get_loop : ℕ → Cmd (React n z) LoopObj
  get_loop v = do
    l ← (λ s. or_raise type_error (s.loops v) s)
    assert (not l.destroyed) zmq_error
    pure l

  -- `loop_wrapper->running = …` through the argument, which is no struct of a loop if it is a VALUE
  abbrev pub set_running : Arg → Bool → Cmd (React n z) (Unit {0})
  set_running (wrapper v) b = do l ← deref_loop v; put_loop v (record l { running = b })
  set_running (value r) b = λ s. fault

module _ {n : Zsocket} {z : Zlist} (lib : Zloop n) where
  -- `rb_czmq_loop_stop0`
  unfoldable pub stop0 : ℕ → Cmd (React n z) (Unit {0})
  stop0 v = do l ← deref_loop v; zloop (lib.zloop_timer l.loop 1 1 (breaker (wrapper v))); pure tt

  -- `rb_czmq_free_loop`
  unfoldable pub free_loop : ℕ → Cmd (React n z) (Unit {0})
  unfolding stop0
  free_loop v = do
    stop0 v
    l ← deref_loop v
    zloop_run (lib.zloop_destroy l.loop)
    put_loop v (record l { loop = 0; destroyed = true })

  -- `rb_czmq_free_loop_gc`, after which the struct is gone
  unfoldable pub free_loop_gc : ℕ → Cmd (React n z) (Unit {0})
  unfolding free_loop
  free_loop_gc v = do
    l ← deref_loop v
    if not (l.loop == 0) && not l.destroyed then free_loop v else pure tt
    (λ s. ok tt (record s { loops = update s.loops v none }))

  -- What `ZMQ::Loop.new` does with the address that it gets.
  abbrev alloc_loop : Ptr → Cmd (React n z) ℕ
  alloc_loop p s = ok s.polls.next (record s {
    loops = update s.loops s.polls.next (
        some
          (record { loop = p; destroyed = false; verbose = false; running = false; items = [] }));
    polls = record s.polls { next = s.polls.next + 1 };
  })

  -- `ZmqAssertObjOnAlloc` on NULL: `xfree(wrapper)` frees the struct of the object that has just been
  -- made, and that the collector will free once more.
  abbrev alloc_failed : Cmd (React n z) ℕ
  alloc_failed =
      (λ s. ok tt (record s {
        polls = record s.polls { next = s.polls.next + 1 };
        dangling = s.polls.next ∷ s.dangling;
      }))
      >> (on_net assert_sys_error >> throw mem_error)

  -- `ZMQ::Loop.new`
  unfoldable pub new : Cmd (React n z) ℕ
  new = do p ← zloop (λ w. some (lib.zloop_new w)); if p == 0 then alloc_failed else alloc_loop p

  -- `rb_czmq_loop_start_ubf`, which the interpreter calls to have `start` end
  unfoldable pub start_ubf : ℕ → Cmd (React n z) (Unit {0})
  start_ubf v = do zloop_run (λ w. some (lib.interrupt w)); set_running (wrapper v) false

  -- `running?`
  unfoldable pub is_running : ℕ → Cmd (React n z) Value
  is_running v = do l ← get_loop v; pure (bool_value l.running)

  -- `stop`
  unfoldable pub stop : ℕ → Cmd (React n z) Value
  unfolding stop0
  stop v = do l ← get_loop v; assert l.running zmq_error; stop0 v; pure qnil

  -- `destroy`
  unfoldable pub destroy : ℕ → Cmd (React n z) Value
  unfolding free_loop
  destroy v = do get_loop v; free_loop v; pure qnil

  -- `verbose=`
  unfoldable pub set_loop_verbose : ℕ → Value → Cmd (React n z) Value
  set_loop_verbose v level = do
    l ← get_loop v
    zloop_run (lib.zloop_set_verbose l.loop (is_true level))
    put_loop v (record l { verbose = is_true level })
    pure qnil

  -- `register`
  unfoldable pub register : ℕ → ℕ → Cmd (React n z) Value
  unfolding coerce set_verbose
  register v pollable = do
    l ← get_loop v
    u ← on_polls (coerce pollable)
    it ← on_polls (get_pollitem u)
    put_loop v (record l { items = l.items ++ u ∷ [] })
    rc ← zloop (lib.zloop_poller l.loop it.item (pollitem it.item u))
    loop_assert (is_success rc)
        (do (if l.verbose then on_polls (set_verbose u true) else pure qnil); pure (obj u))

  -- `remove`
  unfoldable pub remove : ℕ → ℕ → Cmd (React n z) Value
  unfolding coerce
  remove v pollable = do
    l ← get_loop v
    u ← on_polls (coerce pollable)
    it ← on_polls (get_pollitem u)
    zloop_run (lib.zloop_poller_end l.loop it.item)
    put_loop v (record l { items = erase_all u l.items })
    pure qnil

  -- `register_timer`
  unfoldable pub register_timer : ℕ → ℕ → Cmd (React n z) Value
  register_timer v u = do
    l ← get_loop v
    t ← get_timer u
    rc ← zloop (lib.zloop_timer l.loop t.delay t.times (timer u))
    put_loop v (record l { items = l.items ++ u ∷ [] })
    loop_assert (is_success rc) (pure qtrue)

  -- `cancel_timer`
  unfoldable pub cancel_timer : ℕ → ℕ → Cmd (React n z) Value
  cancel_timer v u = do
    l ← get_loop v
    get_timer u
    rc ← zloop (lib.zloop_timer_end l.loop u)
    put_loop v (record l { items = erase_all u l.items })
    loop_assert (is_success rc) (pure qtrue)
