-- ===== src/Poller/Reached.antt =====
-- The methods of ext/rbczmq/poller.c in any sequence, with the collector, from ZMQ::Poller.new.
use rbczmq.Base.{
  ℕ, ◌∙◌, ◌⊎◌, inl, inr, true, ◌≤◌, ◌≡◌, refl, Bool, false, Option, none, some, List, [], ◌∷◌, ◌++◌,
  length, ℤ, Exc, ok, raise, Cmd, pure, ◌>>◌, NotIn, Distinct, Returns, returns, Returns-mono,
  Returns-bind, Returns-ok, Returns-raise, Bool-cases, update, arith, ==_self, ◌==◌,
}
use rbczmq.Czmq.Zlist.{Zlist}
use rbczmq.Doubles.{Doubles, DoubleLaws, Delay, long_of_size}
use rbczmq.Net.{Zsocket}
use rbczmq.Objects.{int}
use rbczmq.Poller.{ZmqPoll, new, register, remove, set_poller_verbose, poll}
use rbczmq.Poller.Coercion.{s_new-Makes}
use rbczmq.Poller.Entries.{Known-update, NotIn-append}
use rbczmq.Poller.Items.{Known, WellFormed, raws}
use rbczmq.Poller.Order.{Fresh, InOrder, InOrder-as, Made-InOrder, register-InOrder, remove-InOrder}
use rbczmq.Poller.Polling.{milliseconds, milliseconds-seconds, poll_lem}
use rbczmq.Pollitem.{RawItem, Pollitem, Poller, Polls, given, mark_poller, free_pollitem_gc, s_new}

-- A call of a method on a poller, and two events beside it: a new item of an object with its events,
-- and the collection of an item.
pub data Op (f : Doubles) : Type 0 where
  registers removes : ℕ → Op f
  verbose : Bool → Op f
  polls : Option (Delay f) → Op f
  makes : ℕ → ℤ → Op f
  collects : ℕ → Op f

-- libzmq's poll is defined and fills in the events of every item.
abbrev pub Answers : (n : Zsocket) → ZmqPoll n → Type 0
Answers n zmq_poll =
    (items : List RawItem) (timeout : ℤ) (w : n.World)
    → (rc : ℤ) × (es : List ℤ) × (w' : n.World) × (zmq_poll items timeout w ≡ some (rc, es, w'))
      × (length es ≡ length items)

length-raws :
    (items : ℕ → Option Pollitem) (us : List ℕ) (is : List Pollitem)
    → Known items us is
    → length (raws is) ≡ length us
length-raws items [] [] h = refl
length-raws items [] (i ∷ is) h = absurd h
length-raws items (u ∷ us) [] h = absurd h
length-raws items (u ∷ us) (i ∷ is) h =
    let rest = length-raws items us is h.1 in omega (arith, rest)

module _ {n : Zsocket} {z : Zlist} (zmq_poll : ZmqPoll n) (f : Doubles) (v : ℕ) where
  abbrev forget : {A : Type 0} → Cmd (Polls n z) A → Cmd (Polls n z) (Unit {0})
  forget m = do m; pure tt

  -- The method, on the poller `v`.
  abbrev pub perform : Op f → Cmd (Polls n z) (Unit {0})
  perform (registers u) = forget (register v u)
  perform (removes u) = forget (remove v u)
  perform (verbose level) = forget (set_poller_verbose v level)
  perform (polls tmout) = forget (poll zmq_poll f v tmout)
  perform (makes u events) = forget (s_new u (int events))
  perform (collects u) = free_pollitem_gc u

  -- What is registered is no item on the poller, a timeout is a number of milliseconds, and what is
  -- collected is nothing that the collector marks for the poller.
  abbrev pub Fits : Polls n z → Op f → Type 0
  Fits s (registers u) = (p : Poller) → s.pollers v ≡ some p → NotIn u p.pollables
  Fits s (polls tmout) = (ms : ℕ) × (milliseconds f tmout ≡ some ms)
  Fits s (collects u) = (p : Poller) → s.pollers v ≡ some p → NotIn u (mark_poller p)
  Fits s _ = Unit

  -- The states after ZMQ::Poller.new has returned this poller.
  pub data Reached : Polls n z → Type 0 where
    opened : (s : Polls n z) {t : Polls n z} → Fresh s → new s ≡ ok v t → Reached t
    returned :
        {s t : Polls n z} (o : Op f) → Reached s → Fits s o → perform o s ≡ ok tt t → Reached t
    raised :
        {s t : Polls n z} (o : Op f) (e : Exc)
        → Reached s
        → Fits s o
        → perform o s ≡ raise e t
        → Reached t

module _ {n : Zsocket} {z : Zlist} (zmq_poll : ZmqPoll n) (answers : Answers n zmq_poll)
    (f : Doubles) (laws : DoubleLaws f) where
  polls-InOrder :
      (s : Polls n z) (v : ℕ) (us : List ℕ) (is : List Pollitem) (tmout : Option (Delay f)) (ms : ℕ)
      → WellFormed s v us is
      → Distinct us
      → Fresh s
      → milliseconds f tmout ≡ some ms
      → Returns (λ a t. InOrder t v) (λ e t. InOrder t v) (poll zmq_poll f v tmout s)
  unfolding poll
  polls-InOrder s v [] is tmout ms o apart fresh fits =
      let (d, value, _) = milliseconds-seconds f tmout ms fits in
      rw (o.object) (
        rw (value s)
          (returns (record { refs = []; structs = is; order = o; apart = apart; fresh = fresh })))
  polls-InOrder s v (u ∷ us) is tmout ms o apart fresh fits =
      let (rc, es, w, called, len) = answers (raws is) (long_of_size ms) s.net.world in
      let count : length es ≡ length (u ∷ us) = len ∙ length-raws s.items (u ∷ us) is o.known in
      Returns-mono (poll_lem zmq_poll f laws tmout ms s v u us is rc es w o fits called count).0
        (λ a t ((_, (o', _, _, _)), (items, next)). in_order t o' items next)
        (λ e t ((_, _, (o', _, _, _)), (items, next)). in_order t o' items next)
    where
      in_order :
          (t : Polls n z)
          → WellFormed t v (u ∷ us) is
          → t.items ≡ s.items
          → t.next ≡ s.next
          → InOrder t v
      in_order t o' items next = record {
        refs = u ∷ us;
        structs = is;
        order = o';
        apart = apart;
        fresh = rw (items, next) fresh;
      }

  perform-InOrder :
      (s : Polls n z) (v : ℕ) (y : InOrder s v) (o : Op f)
      → Fits zmq_poll f v s o
      → Returns (λ a t. InOrder t v) (λ e t. InOrder t v) (perform zmq_poll f v o s)
  unfolding free_pollitem_gc set_poller_verbose mark_poller
  perform-InOrder s v y (registers u) fits =
      Returns-bind (register-InOrder s v u y (fits _ y.order.object)) (λ a t h. returns h)
  perform-InOrder s v y (removes u) fits =
      Returns-bind (remove-InOrder s v u y) (λ a t h. returns h)
  perform-InOrder s v y (verbose level) fits = rw y.order.object (
      returns (record {
        refs = y.refs;
        structs = y.structs;
        order = record {
          readables = y.order.readables;
          writables = y.order.writables;
          pollset = y.order.pollset;
          dirty = y.order.dirty;
          verbose = level;
          object = rw (==_self v) refl;
          known = y.order.known;
          current = y.order.current;
        };
        apart = y.apart;
        fresh = y.fresh;
      }))
  perform-InOrder s v y (polls tmout) (ms, fits) =
      Returns-bind (polls-InOrder s v y.refs y.structs tmout ms y.order y.apart y.fresh fits)
        (λ a t h. returns h)
  perform-InOrder s v y (makes u events) fits =
      Returns-bind
        (Returns-mono (s_new-Makes s u events) (λ w t made. (Made-InOrder s t v w y made).0)
          (λ e t same. rw same y))
        (λ a t h. returns h)
  perform-InOrder s v y (collects u) fits =
      let out : NotIn u y.refs = NotIn-append u y.refs (given y.order.readables) (
        NotIn-append u (y.refs ++ given y.order.readables) (given y.order.writables)
          (fits _ y.order.object)) in
      returns (
        InOrder-as s _ v y refl (Known-update s.items y.refs y.structs u none y.order.known out)
          (λ k h. freed k h (Bool-cases (k == u))))
    where
      freed :
          (k : ℕ)
          → s.next ≤ k
          → ((k == u) ≡ true) ⊎ ((k == u) ≡ false)
          → update s.items u none k ≡ none
      freed k h (inl e) = rw e refl
      freed k h (inr e) = rw e (y.fresh k h)

  new-InOrder : (s : Polls n z) → Fresh s → Returns (λ v t. InOrder t v) (λ e t. ⊥) (new s)
  unfolding new
  new-InOrder s fresh = returns (record {
    refs = [];
    structs = [];
    order = record {
      readables = [];
      writables = [];
      pollset = none;
      dirty = false;
      verbose = false;
      object = rw (==_self s.next) refl;
      known = tt;
      current = λ h e. absurd (h refl);
    };
    apart = tt;
    fresh = λ k h. fresh k (omega (arith, h));
  })

  Reached-InOrder : (v : ℕ) {s : Polls n z} → Reached zmq_poll f v s → InOrder s v
  Reached-InOrder v (opened s fresh made) = Returns-ok (new-InOrder s fresh) made
  Reached-InOrder v (returned {s} o k fits e) =
      Returns-ok (perform-InOrder s v (Reached-InOrder v k) o fits) e
  Reached-InOrder v (raised {s} o x k fits e) =
      Returns-raise (perform-InOrder s v (Reached-InOrder v k) o fits) e

  -- Where libzmq's poll always answers with the events of every item, and in any state that
  -- ZMQ::Poller.new, where no reference from the next one on is an item, and then any sequence of
  -- calls lead to: the poller is in order (its count is that of its items, every entry is an item,
  -- none stands twice, and the array for libzmq, where there are items and it is not marked as
  -- dirty, holds them in order), and every further call is defined and leaves it in order, whether
  -- it returns or raises. The calls are register of any object that is no item on the poller,
  -- remove of any object, verbose=, poll with a timeout that is a number of milliseconds,
  -- ZMQ::Pollitem.new, and the collection of any item that the collector does not mark for the
  -- poller.
  pub order_lem :
      (v : ℕ) (s : Polls n z)
      → Reached zmq_poll f v s
      → InOrder s v
        × ((o : Op f)
            → Fits zmq_poll f v s o
            → Returns (λ a t. InOrder t v) (λ e t. InOrder t v) (perform zmq_poll f v o s))
  order_lem v s k = (Reached-InOrder v k, perform-InOrder s v (Reached-InOrder v k))
