-- ===== src/Timer.antt =====
-- ext/rbczmq/timer.c, and the state that timers share with reactors: the structs of
-- ext/rbczmq/timer.h and ext/rbczmq/loop.h.
pub mod Delays
use rbczmq.Base.{
  ℕ, ◌+◌, ◌-◌, ◌^◌, ◌≡◌, ◌≤◌, ◌*◌, Bool, true, false, Option, none, some, List, [], ◌∷◌, ℤ, pos,
  negsuc, type_error, arg_error, zmq_error, ruby_error, ok, raise, fault, Cmd, Run, pure, throw,
  defined, or_raise, assert, ◌>>=◌, ◌>>◌, ◌==◌, if◌then◌else◌, Table, update, not,
}
use rbczmq.Czmq.{Ptr}
use rbczmq.Czmq.Zlist.{Zlist}
use rbczmq.Doubles.{Doubles, Delay, double_of}
use rbczmq.Net.{Zsocket}
use rbczmq.Objects.{Value, qnil}
use rbczmq.Pollitem.{Polls}

-- `zmq_timer_wrapper`, with the callback as a reference
pub record TimerObj : Type 0 where
  pub delay : ℕ
  pub times : ℕ
  pub cancelled : Bool
  pub callback : ℕ

-- `rb_czmq_mark_timer`: what the collector marks for a timer
pub mark_timer : TimerObj → List ℕ
mark_timer t = t.callback ∷ []

-- `zmq_loop_wrapper`. `destroyed` is ZMQ_LOOP_DESTROYED, the only bit of `flags`.
pub record LoopObj : Type 0 where
  pub loop : Ptr
  pub destroyed : Bool
  pub verbose : Bool
  pub running : Bool
  pub items : List ℕ

-- `rb_czmq_mark_loop`: what the collector marks for a loop, with the elements of the array
abbrev pub mark_loop : LoopObj → List ℕ
mark_loop l = l.items

pub record React (n : Zsocket) (z : Zlist) : Type 0 where
  pub polls : Polls n z
  pub loops : Table LoopObj
  pub timers : Table TimerObj
  -- the loops whose struct has been freed behind their back
  pub dangling : List ℕ

-- A method of the program that the extension calls, and what the call comes to: a value, an
-- exception, or a jump that is no exception, such as a `throw`.
pub data Call : Type 0 where
  call : List ℕ → Call
  on_readable on_writable on_error : Call

pub data Outcome : Type 0 where
  gives : Value → Outcome
  fails jumps : Outcome

-- The code of the program, a parameter: it takes a receiver, where `none` is nil, and a method, and
-- may call any method of the extension.
abbrev pub Ruby : Zsocket → Zlist → Type 0
Ruby n z = Option ℕ → Call → Cmd (React n z) Outcome

-- An `int` that is assigned to a `size_t`.
unfoldable pub size_of_int : ℤ → ℕ
size_of_int (pos k) = k
size_of_int (negsuc k) = 2 ^ 64 - (k + 1)

module _ {n : Zsocket} {z : Zlist} where
  -- `ZmqGetTimer`
  abbrev pub get_timer : ℕ → Cmd (React n z) TimerObj
  get_timer u s = or_raise type_error (s.timers u) s

  -- `rb_czmq_free_timer_gc`, after which the struct is gone
  unfoldable pub free_timer_gc : ℕ → Cmd (React n z) (Unit {0})
  free_timer_gc u s = ok tt (record s { timers = update s.timers u none })

  abbrev pub put_timer : ℕ → TimerObj → Cmd (React n z) (Unit {0})
  put_timer u t s = ok tt (record s { timers = update s.timers u (some t) })

  -- The callback of a new timer: the argument if it is given, else the block.
  abbrev callback_of : (proc block : Option ℕ) → Cmd (React n z) ℕ
  callback_of none none = throw arg_error
  callback_of none (some b) = pure b
  callback_of (some p) block = pure p

  abbrev int_of : Value → Cmd (React n z) ℤ
  int_of (Value.int i) = pure i
  int_of _ = throw type_error

  abbrev alloc_timer : TimerObj → Cmd (React n z) ℕ
  alloc_timer t s = ok s.polls.next (record s {
    timers = update s.timers s.polls.next (some t);
    polls = record s.polls { next = s.polls.next + 1 };
  })

  -- `ZMQ::Timer.new`
  unfoldable pub s_new :
      (f : Doubles) → Delay f → Value → (proc block : Option ℕ) → Cmd (React n z) ℕ
  unfolding size_of_int
  s_new f delay times proc block = do
    callback ← callback_of proc block
    d ← double_of f delay
    t ← int_of times
    ms ← defined (f.to_size (f.times_1000 d))
    alloc_timer
        (record { delay = ms; times = size_of_int t; cancelled = false; callback = callback })

  -- What a call of the program hands on to its caller.
  abbrev pub result_of : Outcome → Cmd (React n z) Value
  result_of (gives v) = pure v
  result_of fails = throw ruby_error
  result_of jumps = throw ruby_error

  -- `fire`, also called `call`
  unfoldable pub fire : Ruby n z → ℕ → List ℕ → Cmd (React n z) Value
  fire ruby u args = do
    t ← get_timer u
    assert (not t.cancelled) zmq_error
    o ← ruby (some t.callback) (call args)
    result_of o

  -- `cancel`
  unfoldable pub cancel : ℕ → Cmd (React n z) Value
  cancel u = do t ← get_timer u; put_timer u (record t { cancelled = true }); pure qnil
