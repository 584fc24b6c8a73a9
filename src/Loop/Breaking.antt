-- ===== src/Loop/Breaking.antt =====
-- The calls of `rb_czmq_callback` of ext/rbczmq/loop.c that fail or return false, and how a loop is
-- stopped.
use rbczmq.Base.{
  ℕ, ◌≡◌, refl, ◌⊎◌, inl, inr, true, false, some, [], ℤ, pos, zmq_error, ok, raise, Returns,
  returns, ==_self,
}
use rbczmq.Czmq.{Ptr}
use rbczmq.Czmq.Zlist.{Zlist}
use rbczmq.Loop.{wrapper, value, breaker, Zloop, with_world, stop}
use rbczmq.Net.{Zsocket}
use rbczmq.Objects.{Value, qnil, qfalse}
use rbczmq.Socket.{is_success}
use rbczmq.Timer.{TimerObj, React}
use rbczmq.Base.{minus_one, fault}
use rbczmq.Timer.{Outcome, gives, fails, jumps, Ruby, on_error, call}
use rbczmq.Loop.{stop0, get_loop}
use rbczmq.Loop.Callbacks.{dispatch, breaker_callback, timer_callback, callback, after_ruby}
use rbczmq.Loop.Safety.{Reactors, Reacts, Safe, get_loop-Safe}

-- What the callback of a timer returns to the reactor when the call has returned or failed.
abbrev pub code_of : Outcome → ℤ
code_of (gives a) = minus_one
code_of fails = pos 0
code_of jumps = pos 0

module _ {n : Zsocket} {z : Zlist} (lib : Zloop n) (r : Reactors n) (laws : Reacts lib r) where
  -- The breaker with a VALUE as its argument is pending if the reactor has taken it, and faults
  -- when it is called.
  abbrev pub Misbreaks : Ruby n z → (p : Ptr) (u : ℕ) → ℤ → n.World → Type 0
  Misbreaks ruby p u rc w =
      (is_success rc ≡ true → r.Pending w p (breaker (value (some u))))
      × ((events : ℤ) (y : React n z)
          → dispatch lib ruby p (breaker (value (some u))) events y ≡ fault)

  -- When the call of a timer that has not been cancelled returns false, or fails and on_error then
  -- returns, where the reactor is live behind the call: the callback has asked the reactor for a
  -- breaker with the VALUE of the timer as its argument, and returns -1 behind false, with nothing
  -- else changed, and 0 behind a failure, in the state that on_error has left. If the reactor has
  -- taken the breaker it is pending, and whenever it is called it writes to what is no loop.
  pub timer_callback_lem :
      (ruby : Ruby n z) (s t x : React n z) (p : Ptr) (u : ℕ) (tm : TimerObj) (o : Outcome)
      (a : Value) (rc : ℤ) (w : n.World)
      → s.timers u ≡ some tm
      → tm.cancelled ≡ false
      → r.live t.polls.net.world p ≡ true
      → ruby (some u) (call []) s ≡ ok o t
      → lib.zloop_timer p 1 1 (breaker (value (some u))) t.polls.net.world ≡ some (rc, w)
      → ((o ≡ gives qfalse) × (x ≡ with_world t w))
        ⊎ ((o ≡ fails) × (ruby (some u) on_error (with_world t w) ≡ ok (gives a) x))
      → (timer_callback lib ruby p u s ≡ ok (code_of o) x) × Misbreaks ruby p u rc w
  unfolding timer_callback callback after_ruby dispatch breaker_callback
  timer_callback_lem ruby s t x p u tm o a rc w here on live h taken broken =
      let (rc', w', e, _, there) =
        laws.adds_timer p 1 1 (breaker (value (some u))) t.polls.net.world live in
      let codes : rc ≡ rc' = cc (taken, e) in
      let worlds : w ≡ w' = cc (taken, e) in
      (
        elim broken [
          | inl (f, q) ↦ rw (here, on) (rw h (rw f (rw taken (rw q refl))))
          | inr (f, q) ↦ rw (here, on) (rw h (rw f (rw taken (rw q refl))))
        ],
        (rw (codes, worlds) there, λ events y. refl),
      )

  -- stop of a safe loop that runs returns nil and has registered the breaker with the loop as its
  -- argument, which is pending if the reactor has taken it; when it is called, it returns -1, by
  -- which the reactor ends, and a further stop raises a ZMQ::Error.
  pub stopping_lem :
      (ruby : Ruby n z) (s : React n z) (v : ℕ) (y : Safe r s v) (events : ℤ)
      → y.struct.running ≡ true
      → Returns
          (λ a t.
            (a ≡ qnil)
            × ((rc : ℤ) × (lib.zloop_timer y.struct.loop 1 1 (breaker (wrapper v)) s.polls.net.world
                  ≡ some (rc, t.polls.net.world))
                × (is_success rc ≡ true
                    → r.Pending t.polls.net.world y.struct.loop (breaker (wrapper v))))
            × Returns
                (λ rc x. (rc ≡ minus_one) × (stop lib v x ≡ raise zmq_error x))
                (λ e x. ⊥)
                (dispatch lib ruby y.struct.loop (breaker (wrapper v)) events t))
          (λ e t. ⊥)
          (stop lib v s)
  unfolding stop stop0 dispatch breaker_callback get_loop
  stopping_lem ruby s v y events on =
      let (rc, w, e, _, there) =
        laws.adds_timer y.struct.loop 1 1 (breaker (wrapper v)) s.polls.net.world y.live in
      rw (get_loop-Safe r s v y) (
        rw on (
          rw y.here (
            rw e (
              returns (
                refl,
                (rc, refl, there),
                rw y.here (returns (refl, rw (==_self v) (rw y.up refl))),
              )))))
