-- ===== src/Loop/Ending.antt =====
-- `destroy` of ext/rbczmq/loop.c, and what a loop is afterwards.
use rbczmq.Base.{
  ℕ, ◌≡◌, refl, true, some, none, zmq_error, ok, raise, Returns, returns, update, ==_self,
}
use rbczmq.Czmq.Zlist.{Zlist}
use rbczmq.Loop.{
  Handler, wrapper, breaker, Zloop, Serve, stop0, free_loop, free_loop_gc, get_loop, is_running,
  stop, destroy, set_loop_verbose, register, remove, register_timer, cancel_timer,
}
use rbczmq.Loop.Callbacks.{start}
use rbczmq.Loop.Safety.{Reactors, Reacts, Destroys, Safe, get_loop-Safe}
use rbczmq.Net.{Zsocket}
use rbczmq.Objects.{Value, qnil}
use rbczmq.Timer.{LoopObj, React, Ruby}

module _ {n : Zsocket} {z : Zlist} (lib : Zloop n) where
  -- Every method of the loop raises a ZMQ::Error and changes nothing.
  pub record Refuses (ruby : Ruby n z) (serve : Serve n z) (t : React n z) (v : ℕ) : Type 0 where
    pub registers : (u : ℕ) → register lib v u t ≡ raise zmq_error t
    pub removes : (u : ℕ) → remove lib v u t ≡ raise zmq_error t
    pub registers_timer : (u : ℕ) → register_timer lib v u t ≡ raise zmq_error t
    pub cancels_timer : (u : ℕ) → cancel_timer lib v u t ≡ raise zmq_error t
    pub stops : stop lib v t ≡ raise zmq_error t
    pub starts : start lib ruby serve v t ≡ raise zmq_error t
    pub runs : is_running lib v t ≡ raise zmq_error t
    pub verbose : (level : Value) → set_loop_verbose lib v level t ≡ raise zmq_error t
    pub destroys : destroy lib v t ≡ raise zmq_error t

  destroyed-Refuses :
      (ruby : Ruby n z) (serve : Serve n z) (t : React n z) (v : ℕ) (l : LoopObj)
      → t.loops v ≡ some (record l { destroyed = true })
      → Refuses ruby serve t v
  unfolding get_loop register remove register_timer cancel_timer stop start is_running
      set_loop_verbose destroy
  destroyed-Refuses ruby serve t v l h = record {
    registers = λ u. rw h refl;
    removes = λ u. rw h refl;
    registers_timer = λ u. rw h refl;
    cancels_timer = λ u. rw h refl;
    stops = rw h refl;
    starts = rw h refl;
    runs = rw h refl;
    verbose = λ level. rw h refl;
    destroys = rw h refl;
  }

module _ {n : Zsocket} {z : Zlist} (lib : Zloop n) (r : Reactors n) (laws : Reacts lib r)
    (ends : Destroys lib r) where
  -- destroy of a loop that is safe (not destroyed, its reactor live, no object both timer and
  -- item, and all that the reactor may call back kept by the loop's list) returns nil. Afterwards
  -- nothing may be called back by its reactor; register, remove, register_timer, cancel_timer,
  -- stop, start, running?, verbose= and destroy raise a ZMQ::Error and change nothing; and the
  -- collector frees the loop without a call of the library. It raises nothing.
  pub destroy_lem :
      (s : React n z) (v : ℕ) (y : Safe r s v) (ruby : Ruby n z) (serve : Serve n z)
      → Returns
          (λ a t.
            (a ≡ qnil)
            × ((h : Handler) → ¬ r.Pending t.polls.net.world y.struct.loop h)
            × Refuses lib ruby serve t v
            × (free_loop_gc lib v t ≡ ok tt (record t { loops = update t.loops v none })))
          (λ e t. ⊥)
          (destroy lib v s)
  unfolding destroy free_loop stop0 free_loop_gc
  destroy_lem s v y ruby serve =
      let l = y.struct in
      let (rc, w, e, adds, _) =
        laws.adds_timer l.loop 1 1 (breaker (wrapper v)) s.polls.net.world y.live in
      let (w', e', none_left) = ends.destroys l.loop w (adds.0 l.loop y.live) in
      rw (get_loop-Safe r s v y) (
        rw (y.here) (
          rw e (
            rw (y.here) (
              rw e' (
                returns (
                  refl,
                  none_left,
                  destroyed-Refuses lib ruby serve _ v (record l { loop = 0 })
                      (rw (==_self v) refl),
                  rw (==_self v) refl,
                ))))))
