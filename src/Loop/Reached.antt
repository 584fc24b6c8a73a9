-- ===== src/Loop/Reached.antt =====
-- Every state that a loop of ext/rbczmq/loop.c comes to, by its methods, by those of its timers and
-- items, by the calls back of the reactor, by changes of the state of the library and by the
-- collector.
use rbczmq.Base.{
  Returns-ok, Returns-raise, ap, ℤ, ℕ, ◌≡◌, refl, sym, subst, inl, inr, true, false, some, Exc, ok,
  raise, Cmd, Returns, returns, raises, Option-cases,
}
use rbczmq.Czmq.{Ptr}
use rbczmq.Czmq.Zlist.{Zlist}
use rbczmq.Loop.{
  Handler, Zloop, with_world, on_polls, register, remove, register_timer, cancel_timer, stop, new,
}
use rbczmq.Net.{Zsocket}
use rbczmq.Objects.{Value}
use rbczmq.Pollitem.{Pollitem, free_pollitem_gc}
use rbczmq.Timer.{LoopObj, TimerObj, React, mark_loop, free_timer_gc, Ruby}
use rbczmq.Timer.{cancel}
use rbczmq.Loop.{set_loop_verbose}
use rbczmq.Loop.Callbacks.{dispatch}
use rbczmq.Loop.Serving.{Behaves, dispatch_lem}
use rbczmq.Loop.Safety.{Reactors, Keeps, Reacts, holds, Kept, Safe}
use rbczmq.Loop.Tables.{Shrinks-refl, Shrinks-none, Shrinks-some, Safe-tables}
use rbczmq.Loop.Methods.{
  new-Safe, StaysSafe, Safe-world, register-Safe, remove-Safe, register_timer-Safe,
  cancel_timer-Safe, stop-Safe, set_loop_verbose-Safe,
}

-- The methods of a loop that register and unregister.
pub data Op : Type 0 where
  registers removes adds_timer drops_timer : ℕ → Op
  stops : Op
  verbose : Value → Op

module _ {n : Zsocket} {z : Zlist} where
  -- The method, on the loop `v`.
  abbrev pub perform : Zloop n → ℕ → Op → Cmd (React n z) Value
  perform lib v (registers u) = register lib v u
  perform lib v (removes u) = remove lib v u
  perform lib v (adds_timer u) = register_timer lib v u
  perform lib v (drops_timer u) = cancel_timer lib v u
  perform lib v stops = stop lib v
  perform lib v (verbose level) = set_loop_verbose lib v level

  -- The arguments are an item and a timer.
  abbrev pub Fits : React n z → Op → Type 0
  Fits s (registers u) = (it : Pollitem) × (s.polls.items u ≡ some it)
  Fits s (removes u) = (it : Pollitem) × (s.polls.items u ≡ some it)
  Fits s (adds_timer u) = (t : TimerObj) × (s.timers u ≡ some t)
  Fits s (drops_timer u) = (t : TimerObj) × (s.timers u ≡ some t)
  Fits s stops = Unit
  Fits s (verbose level) = Unit

  -- The collector does not mark the object for the loop.
  abbrev pub Unmarked : React n z → ℕ → ℕ → Type 0
  Unmarked s v u = (l : LoopObj) → s.loops v ≡ some l → holds u (mark_loop l) ≡ false

module _ {n : Zsocket} {z : Zlist} (lib : Zloop n) (r : Reactors n) (ruby : Ruby n z) (v : ℕ) where
  -- One step around the loop `v`. Beside the methods and the collector, the reactor calls back what
  -- is pending, and the library's state changes by itself, which ends no reactor and adds nothing
  -- that may be called back.
  pub data Step : React n z → React n z → Type 0 where
    returned :
        {s t : React n z} (o : Op) (a : Value) → Fits s o → perform lib v o s ≡ ok a t → Step s t
    raised :
        {s t : React n z} (o : Op) (e : Exc) → Fits s o → perform lib v o s ≡ raise e t → Step s t
    cancels : {s t : React n z} (u : ℕ) (a : Value) → cancel u s ≡ ok a t → Step s t
    calls_back :
        {s t : React n z} (l : LoopObj) (h : Handler) (events rc : ℤ)
        → s.loops v ≡ some l
        → r.Pending s.polls.net.world l.loop h
        → dispatch lib ruby l.loop h events s ≡ ok rc t
        → Step s t
    library_changes :
        {s : React n z} (w : n.World) → Keeps r s.polls.net.world w → Step s (with_world s w)
    collects_timer :
        {s t : React n z} (u : ℕ) → Unmarked s v u → free_timer_gc u s ≡ ok tt t → Step s t
    collects_item :
        {s t : React n z} (u : ℕ)
        → Unmarked s v u
        → on_polls (free_pollitem_gc u) s ≡ ok tt t
        → Step s t

  pub data Reached (s : React n z) : React n z → Type 0 where
    initial : Reached s s
    step : {t x : React n z} → Reached s t → Step t x → Reached s x

module _ {n : Zsocket} {z : Zlist} (lib : Zloop n) (r : Reactors n) (laws : Reacts lib r) where
  -- Every method leaves the loop safe.
  pub perform-Safe :
      (s : React n z) (v : ℕ) (y : Safe r s v) (o : Op)
      → Fits s o
      → StaysSafe lib r laws s v y (perform lib v o s)
  perform-Safe s v y (registers u) (it, h) = register-Safe lib r laws s v y u it h
  perform-Safe s v y (removes u) (it, h) = remove-Safe lib r laws s v y u it h
  perform-Safe s v y (adds_timer u) (t, h) = register_timer-Safe lib r laws s v y u t h
  perform-Safe s v y (drops_timer u) (t, h) = cancel_timer-Safe lib r laws s v y u t h
  perform-Safe s v y stops h = stop-Safe lib r laws s v y
  perform-Safe s v y (verbose level) h = set_loop_verbose-Safe lib r laws s v y level

  cancel-Safe :
      (s : React n z) (v : ℕ) (y : Safe r s v) (u : ℕ)
      → Returns (λ a t. Safe r t v) (λ e t. Safe r t v) (cancel u s)
  unfolding cancel
  cancel-Safe s v y u = elim (Option-cases (s.timers u)) [
    | inl e ↦ rw e (raises y)
    | inr (t, e) ↦ rw e (
        returns (
          Safe-tables r s v _ s.polls.items y
            (Shrinks-some s.timers u t (record t { cancelled = true }) _ _ e (λ x. tt) (λ x. tt))
            (Shrinks-refl s.polls.items _ _ (λ x. refl))))
  ]

  free_timer_gc-Safe :
      (s : React n z) (v : ℕ) (y : Safe r s v) (u : ℕ)
      → Unmarked s v u
      → Returns (λ a t. Safe r t v) (λ e t. ⊥) (free_timer_gc u s)
  unfolding free_timer_gc
  free_timer_gc-Safe s v y u h = returns (
      Safe-tables r s v _ s.polls.items y
        (Shrinks-none s.timers u _ _ (h y.struct y.here) (λ x. tt))
        (Shrinks-refl s.polls.items _ _ (λ x. refl)))

  free_pollitem_gc-Safe :
      (s : React n z) (v : ℕ) (y : Safe r s v) (u : ℕ)
      → Unmarked s v u
      → Returns (λ a t. Safe r t v) (λ e t. ⊥) (on_polls (free_pollitem_gc u) s)
  unfolding free_pollitem_gc
  free_pollitem_gc-Safe s v y u h = returns (
      Safe-tables r s v s.timers _ y (Shrinks-refl s.timers _ _ (λ x. tt))
        (Shrinks-none s.polls.items u _ _ (h y.struct y.here) (λ x. refl)))

module _ {n : Zsocket} {z : Zlist} (lib : Zloop n) (r : Reactors n) (laws : Reacts lib r)
    (ruby : Ruby n z) (v : ℕ) (fine : (p : Ptr) → Behaves lib r v p ruby) where
  Step-Safe : {s t : React n z} → Safe r s v → Step lib r ruby v s t → Safe r t v
  Step-Safe y (returned o a f e) = Returns-ok (perform-Safe lib r laws _ v y o f) e
  Step-Safe y (raised o x f e) = Returns-raise (perform-Safe lib r laws _ v y o f) e
  Step-Safe y (cancels u a e) = Returns-ok (cancel-Safe lib r laws _ v y u) e
  Step-Safe y (calls_back {s} l h events rc here p e) =
      let own : (k : LoopObj) → s.loops v ≡ some k → k.loop ≡ l.loop =
        λ k g. (let same : k ≡ l = cc (g, here) in ap (λ (i : LoopObj). i.loop) same) in
      (Returns-ok (dispatch_lem lib r v l.loop laws ruby (fine l.loop) h events s (y, own) p) e).0
  Step-Safe y (library_changes {s} w keeps) =
      Safe-world lib r laws s v y w keeps.0 (λ k p. inl (keeps.1 y.struct.loop k p))
  Step-Safe y (collects_timer {s} u h e) = Returns-ok (free_timer_gc-Safe lib r laws s v y u h) e
  Step-Safe y (collects_item {s} u h e) = Returns-ok (free_pollitem_gc-Safe lib r laws s v y u h) e

  Reached-Safe : {s t : React n z} → Safe r s v → Reached lib r ruby v s t → Safe r t v
  Reached-Safe y initial = y
  Reached-Safe y (step k e) = Step-Safe (Reached-Safe y k) e

  -- From ZMQ::Loop.new in a state in which no object is both timer and item, after any sequence of
  -- register, remove, register_timer, cancel_timer, stop and verbose= of that loop with items and
  -- timers as arguments, whether they return or raise, of timer.cancel, of calls back of what is
  -- pending, where the code of the program leaves the loop safe with the same reactor and neither
  -- fails nor returns false, of changes of the library's state that end no reactor and add nothing
  -- that may be called back, and of collections of timers and items that the collector does not
  -- mark for the loop: all that the reactor may call back is about the loop itself, or is a timer
  -- or an item that exists and stands in the loop's list.
  pub reached_lem :
      (s : React n z) {t x : React n z} (l : LoopObj) (h : Handler)
      → ((u : ℕ) (k : TimerObj) (i : Pollitem) → s.timers u ≡ some k → s.polls.items u ≡ some i → ⊥)
      → new lib s ≡ ok v t
      → Reached lib r ruby v t x
      → x.loops v ≡ some l
      → r.Pending x.polls.net.world l.loop h
      → Kept r x v l.items h
  reached_lem s {t} {x} l h apart made k e p =
      let safe : Safe r t v = (Returns-ok (new-Safe lib r laws s apart) made).1 in
      let y = Reached-Safe safe k in
      let same : l ≡ y.struct = cc (e, y.here) in
      subst (λ (i : LoopObj). Kept r x v i.items h) (sym same)
        (y.kept h (subst (λ (i : LoopObj). r.Pending x.polls.net.world i.loop h) same p))
