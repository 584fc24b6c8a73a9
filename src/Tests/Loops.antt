-- ===== src/Tests/Loops.antt =====
-- Examples of the theorems on reactors and timers.
use rbczmq.Base.{
  ℕ, ◌≡◌, inl, inr, refl, arith, true, false, none, some, [], ◌∷◌, pos, negsuc, ℤ, minus_one,
  Returns, returns, update, ok, raise, fault, zmq_error, ◌==◌, if◌then◌else◌, ◌*◌, ◌+◌, ◌^◌, ◌-◌,
}
use rbczmq.Czmq.{Errno}
use rbczmq.Czmq.Zlist.{ideal_zlist}
use rbczmq.Doubles.{fixnum}
use rbczmq.Doubles.Ideal.{integers, integer_laws}
use rbczmq.Net.Ideal.{World}
use rbczmq.Loop.{
  value, Handler, new, free_loop_gc, destroy, timer, pollitem, breaker, wrapper, stop,
  register_timer, get_loop,
}
use rbczmq.Loop.Callbacks.{callback, after_ruby, dispatch, start, timer_callback}
use rbczmq.Loop.Ideal.{
  Waiting, Waits, ideal_destroys, reactor_world, ideal_zloop, reactors, ideal_reacts, serve,
  serve-Serves,
}
use rbczmq.Loop.Safety.{Kept, Safe}
use rbczmq.Loop.Reached.{calls_back, initial, step, returned, adds_timer, reached_lem}
use rbczmq.Loop.Ending.{Refuses, destroy_lem}
use rbczmq.Loop.Serving.{start_lem}
use rbczmq.Loop.Breaking.{Misbreaks, timer_callback_lem, stopping_lem}
use rbczmq.Objects.{qtrue, qnil, int}
use rbczmq.Pollitem.{Pollitem}
use rbczmq.Socket.{is_success}
use rbczmq.Timer.{LoopObj, TimerObj, React, Ruby, s_new, Call, Outcome, on_error, gives, fails}
use rbczmq.Timer.Delays.{Makes, delay_lem}

abbrev item : Pollitem
item = record {
  socket = none;
  io = some 11;
  events = pos 3;
  handler = some 15;
  item = record { socket = 0; fd = pos 4; events = pos 3 };
}

abbrev two_times : TimerObj
two_times = record { delay = 1000; times = 2; cancelled = false; callback = 16 }

abbrev loop : LoopObj
loop = record { loop = 31; destroyed = false; verbose = false; running = true; items = 2 ∷ 3 ∷ [] }

-- Loop 1 has the item 2 and the timer 3.
abbrev with_pending : LoopObj → Waiting → React reactor_world ideal_zlist
with_pending l waiting = record {
  polls = record {
    net = record {
      world = record {
        opened = λ p. p == 31;
        endpoint = λ p. none;
        next = 40;
        errno = Errno.success;
        queue = waiting;
      };
      socks = λ u. none;
      ctxs = λ v. none;
      processes = λ p. none;
      dangling = [];
      next = 7;
      pid = 8;
      thread = 9;
    };
    items = λ u. if u == 2 then some item else none;
    pollers = λ v. none;
    ios = λ u. if u == 11 then some (pos 4) else none;
    responds = λ u. true;
    next = 7;
  };
  loops = λ v. if v == 1 then some l else none;
  timers = λ u. if u == 3 then some two_times else none;
  dangling = [];
}

abbrev pending : Waiting
pending = (31, timer 3) ∷ (31, pollitem item.item 2) ∷ []

abbrev state : React reactor_world ideal_zlist
state = with_pending loop pending

kept : (h : Handler) → Waits pending 31 h → Kept reactors state 1 (2 ∷ 3 ∷ []) h
kept h (inl (a, e)) = rw e ((two_times, refl), refl)
kept h (inr (inl (a, e))) = rw e ((item, refl, refl), refl)
kept h (inr (inr x)) = absurd x

apart :
    (u : ℕ) (t : TimerObj) (i : Pollitem)
    → state.timers u ≡ some t
    → state.polls.items u ≡ some i
    → ⊥
apart u t i e f = ground arith

abbrev safe : Safe reactors state 1
safe = record { struct = loop; here = refl; up = refl; live = refl; kept = kept; apart = apart }

-- No loop has been made.
abbrev bare : React reactor_world ideal_zlist
bare = record (with_pending loop []) { loops = λ v. none }

abbrev made_loop : LoopObj
made_loop = record { loop = 41; destroyed = false; verbose = false; running = false; items = [] }

abbrev new_world : Waiting → World Waiting
new_world waiting = record {
  opened = λ q. if q == 41 then true else q == 31;
  endpoint = λ p. none;
  next = 41;
  errno = Errno.success;
  queue = waiting;
}

-- The state behind ZMQ::Loop.new, and behind the registration of the timer 3.
abbrev made : React reactor_world ideal_zlist
made = record bare {
  polls = record bare.polls { net = record bare.polls.net { world = new_world [] }; next = 8 };
  loops = update bare.loops 7 (some made_loop);
}

abbrev with_timer : React reactor_world ideal_zlist
with_timer = record made {
  polls = record made.polls {
    net = record made.polls.net { world = new_world ((41, timer 3) ∷ []) };
  };
  loops = update made.loops 7 (some (record made_loop { items = 3 ∷ [] }));
}

makes : new ideal_zloop bare ≡ ok 7 made
unfolding new
makes = refl

registers_it : register_timer ideal_zloop 7 3 made ≡ ok qtrue with_timer
unfolding register_timer get_loop
registers_it = refl

-- A program whose methods all return true.
abbrev answers : Ruby reactor_world ideal_zlist
answers receiver m = λ s. ok (gives qtrue) s

calls_it : dispatch ideal_zloop answers 41 (timer 3) (pos 0) with_timer ≡ ok (pos 0) with_timer
unfolding dispatch timer_callback callback after_ruby
calls_it = refl

reached_lem_example : Kept reactors with_timer 7 (3 ∷ []) (timer 3)
reached_lem_example =
    reached_lem ideal_zloop reactors ideal_reacts answers 7 (λ p s u m a. returns (a, refl)) bare
      (record made_loop { items = 3 ∷ [] }) (timer 3) apart makes
      (step {t = with_timer} {x = with_timer}
        (step {t = made} {x = with_timer} initial
          (returned (adds_timer 3) qtrue (two_times, refl) registers_it))
        (calls_back (record made_loop { items = 3 ∷ [] }) (timer 3) (pos 0) (pos 0) refl
          (inl (refl, refl)) calls_it))
      refl (inl (refl, refl))

-- A program in which every call but that of `on_error` fails.
abbrev outcome : Call → Outcome
outcome on_error = gives qnil
outcome _ = fails

abbrev failing : Ruby reactor_world ideal_zlist
failing receiver m = λ s. ok (outcome m) s

destroy_lem_example :
    Returns
      (λ a t.
        (a ≡ qnil)
        × ((h : Handler) → ¬ Waits t.polls.net.world.queue 31 h)
        × Refuses ideal_zloop answers (serve 5) t 1
        × (free_loop_gc ideal_zloop 1 t ≡ ok tt (record t { loops = update t.loops 1 none })))
      (λ e t. ⊥)
      (destroy ideal_zloop 1 state)
destroy_lem_example =
    destroy_lem ideal_zloop reactors ideal_reacts ideal_destroys state 1 safe answers (serve 5)

start_lem_example :
    Returns
      (λ a t. Safe reactors t 1)
      (λ e t. (e ≡ zmq_error) × Safe reactors t 1)
      (start ideal_zloop answers (serve 5) 1 state)
start_lem_example =
    start_lem ideal_zloop reactors ideal_reacts (serve 5) answers state 1 safe (serve-Serves 1 31 5)
      (λ s receiver m a. returns (a, refl))

-- The breaker with the timer as its argument has been added.
abbrev broken : React reactor_world ideal_zlist
broken = with_pending loop ((31, breaker (value (some 3))) ∷ pending)

timer_callback_lem_example :
    (timer_callback ideal_zloop failing 31 3 state ≡ ok (pos 0) broken)
    × Misbreaks ideal_zloop reactors ideal_reacts failing 31 3 (pos 0) broken.polls.net.world
timer_callback_lem_example =
    timer_callback_lem ideal_zloop reactors ideal_reacts failing state state broken 31 3 two_times
      fails qnil (pos 0) broken.polls.net.world refl refl refl refl refl (inr (refl, refl))

stopping_lem_example :
    Returns
      (λ a t.
        (a ≡ qnil)
        × ((rc : ℤ) × (ideal_zloop.zloop_timer 31 1 1 (breaker (wrapper 1)) state.polls.net.world
              ≡ some (rc, t.polls.net.world))
            × (is_success rc ≡ true → reactors.Pending t.polls.net.world 31 (breaker (wrapper 1))))
        × Returns
            (λ rc x. (rc ≡ minus_one) × (stop ideal_zloop 1 x ≡ raise zmq_error x))
            (λ e x. ⊥)
            (dispatch ideal_zloop answers 31 (breaker (wrapper 1)) (pos 0) t))
      (λ e t. ⊥)
      (stop ideal_zloop 1 state)
stopping_lem_example =
    stopping_lem ideal_zloop reactors ideal_reacts answers state 1 safe (pos 0) refl

delay_lem_example :
    Makes integers integer_laws state
      (2 * 1000)
      5
      16
      (s_new integers (fixnum (pos 2)) (int (pos 5)) none (some 16) state)
    × Makes integers integer_laws state
        (2 * 1000)
        (2 ^ 64 - (5 + 1))
        16
        (s_new integers (fixnum (pos 2)) (int (negsuc 5)) none (some 16) state)
    × (s_new integers (fixnum (negsuc 2)) (int (pos 5)) none (some 16) state ≡ fault)
delay_lem_example = delay_lem integers integer_laws state 2 5 16 (omega arith) (omega arith)
