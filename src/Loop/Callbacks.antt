-- ===== src/Loop/Callbacks.antt =====
-- The functions of ext/rbczmq/loop.c that the reactor calls back, and `start`, which runs it.
use rbczmq.Base.{
  ℕ, suc, Bool, true, false, ◌||◌, Option, some, ℤ, pos, minus_one, zmq_error, ruby_error, Cmd,
  pure, throw, defined, ◌>>=◌, ◌>>◌, if◌then◌else◌, [],
}
use rbczmq.Czmq.{Ptr}
use rbczmq.Czmq.Zlist.{Zlist}
use rbczmq.Loop.{
  Arg, wrapper, value, Handler, started, breaker, timer, pollitem, Zloop, Serve, is_err,
  is_minus_one, is_false, zloop, get_loop, set_running,
}
use rbczmq.Net.{Zsocket}
use rbczmq.Objects.{Value, int}
use rbczmq.Pollitem.{is_in, is_out}
use rbczmq.Timer.{
  React, Call, call, on_readable, on_writable, on_error, Outcome, gives, fails, jumps, Ruby,
}

module _ {n : Zsocket} {z : Zlist} (lib : Zloop n) where
  -- `rb_czmq_loop_started_callback` and `rb_czmq_loop_breaker_callback`
  unfoldable pub started_callback : Arg → Cmd (React n z) ℤ
  started_callback a = do set_running a true; pure (pos 0)

  unfoldable pub breaker_callback : Arg → Cmd (React n z) ℤ
  breaker_callback a = do set_running a false; pure minus_one

  -- The one-shot timer that is to end the reactor `p`, with the receiver of the call as argument.
  break_later : Ptr → Option ℕ → Cmd (React n z) ℤ
  break_later p r = zloop (lib.zloop_timer p 1 1 (breaker (value r)))

  module _ (ruby : Ruby n z) where
    -- the call of `on_error`, which nothing protects
    error_call : Outcome → Cmd (React n z) ℤ
    error_call (gives v) = pure (pos 0)
    error_call fails = throw ruby_error
    error_call jumps = throw ruby_error

    -- what `rb_czmq_callback` does with the outcome of the call
    unfoldable pub after_ruby : Ptr → Option ℕ → Outcome → Cmd (React n z) ℤ
    unfolding break_later error_call
    after_ruby p r (gives v) =
        if is_false v then (do break_later p r; pure minus_one) else pure (pos 0)
    after_ruby p r fails = do break_later p r; o ← ruby r on_error; error_call o
    after_ruby p r jumps = do break_later p r; throw ruby_error

    -- `rb_czmq_callback`
    unfoldable pub callback : Ptr → Option ℕ → Call → Cmd (React n z) ℤ
    unfolding after_ruby
    callback p r m = do o ← ruby r m; after_ruby p r o

    -- `rb_czmq_loop_timer_callback_with_gvl`, through the reference of a timer
    unfoldable pub timer_callback : Ptr → ℕ → Cmd (React n z) ℤ
    unfolding callback
    timer_callback p u = do
      t ← (λ s. defined (s.timers u) s)
      if t.cancelled
          then (do zloop (lib.zloop_timer_end p u); pure (pos 0))
          else callback p (some u) (call [])

    -- the call for one of the events
    unfoldable pub call_if : Bool → Ptr → Option ℕ → Call → Cmd (React n z) ℤ
    unfolding callback
    call_if b p r m = if b then callback p r m else pure (pos 0)

    -- `rb_czmq_loop_pollitem_callback_with_gvl`, through the struct of an item
    unfoldable pub pollitem_callback : Ptr → ℕ → (revents : ℤ) → Cmd (React n z) ℤ
    unfolding call_if
    pollitem_callback p u revents = do
      it ← (λ s. defined (s.polls.items u) s)
      ret_r ← call_if (is_in revents) p it.handler on_readable
      ret_w ← call_if (is_out revents) p it.handler on_writable
      ret_e ← call_if (is_err revents) p it.handler on_error
      pure (
          if is_minus_one ret_r || is_minus_one ret_w || is_minus_one ret_e
          then minus_one
          else pos 0)

    -- What the reactor `p` calls.
    unfoldable pub dispatch : Ptr → Handler → (revents : ℤ) → Cmd (React n z) ℤ
    unfolding started_callback breaker_callback timer_callback pollitem_callback
    dispatch p (started a) revents = started_callback a
    dispatch p (breaker a) revents = breaker_callback a
    dispatch p (timer u) revents = timer_callback p u
    dispatch p (pollitem raw u) revents = pollitem_callback p u revents

    -- `start` behind the result of the reactor
    abbrev pub ended : ℤ → Cmd (React n z) Value
    ended (pos (suc k)) = throw zmq_error
    ended rc = pure (int rc)

    -- `start`
    unfoldable pub start : Serve n z → ℕ → Cmd (React n z) Value
    unfolding dispatch
    start serve v = do
      l ← get_loop v
      zloop (lib.zloop_timer l.loop 1 1 (started (wrapper v)))
      rc ← serve (dispatch l.loop) l.loop
      ended rc
