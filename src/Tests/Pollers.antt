-- ===== src/Tests/Pollers.antt =====
-- Examples of the theorems on pollers.
use rbczmq.Base.{
  ℕ, suc, ap, length, ℤ, Bool, update, ok, subst, NotIn, fault, negsuc, ◌≡◌, ◌⊎◌, refl, arith, true,
  false, none, some, List, [], ◌∷◌, pos, Returns, type_error, ◌==◌, erase_all, if◌then◌else◌,
}
use rbczmq.Czmq.{Errno}
use rbczmq.Czmq.Zlist.{ideal_zlist}
use rbczmq.Doubles.{fixnum}
use rbczmq.Doubles.Ideal.{integers, integer_laws}
use rbczmq.Net.Ideal.{ideal_zsocket}
use rbczmq.Objects.{qfalse, obj}
use rbczmq.Poller.{new, rebuild_pollset, register, remove, ZmqPoll, poll}
use rbczmq.Poller.Items.{WellFormed}
use rbczmq.Poller.Order.{InOrder}
use rbczmq.Poller.Reached.{Op, registers, Fits, perform, Reached, opened, returned, order_lem}
use rbczmq.Poller.Removal.{first_match, remove_keeps, remove_twice}
use rbczmq.Poller.Polling.{SameItems, Polled, PollFailed, poll_lem}
use rbczmq.Pollitem.{RawItem, Poller, Pollitem, Polls}

-- Items for two IO objects.
abbrev first : Pollitem
first = record {
  socket = none;
  io = some 11;
  events = pos 3;
  handler = none;
  item = record { socket = 0; fd = pos 4; events = pos 3 };
}

abbrev second : Pollitem
second = record {
  socket = none;
  io = some 12;
  events = pos 1;
  handler = none;
  item = record { socket = 0; fd = pos 5; events = pos 1 };
}

-- Poller 1 has the items 2 and 3, and poller 4 has item 2 twice.
abbrev state : Polls ideal_zsocket ideal_zlist
state = record {
  net = record {
    world = record {
      opened = λ p. false;
      endpoint = λ p. none;
      next = 30;
      errno = Errno.success;
      queue = [];
    };
    socks = λ u. none;
    ctxs = λ v. none;
    processes = λ p. none;
    dangling = [];
    next = 4;
    pid = 8;
    thread = 9;
  };
  items = λ u. if u == 2 then some first else if u == 3 then some second else none;
  pollers = λ v.
      if v == 1
      then some (record {
        pollables = 2 ∷ 3 ∷ [];
        readables = [];
        writables = [];
        pollset = none;
        poll_size = 2;
        dirty = true;
        verbose = false;
      })
      else if v == 4
      then some (record {
        pollables = 2 ∷ 2 ∷ [];
        readables = [];
        writables = [];
        pollset = none;
        poll_size = 2;
        dirty = true;
        verbose = false;
      })
      else none;
  ios = λ u. none;
  responds = λ h. false;
  next = 20;
}

abbrev two : WellFormed state 1 (2 ∷ 3 ∷ []) (first ∷ second ∷ [])
two = record {
  readables = [];
  writables = [];
  pollset = none;
  dirty = true;
  verbose = false;
  object = refl;
  known = (refl, (refl, tt));
  current = λ h e. cc;
}

abbrev twice : WellFormed state 4 (2 ∷ 2 ∷ []) (first ∷ first ∷ [])
twice = record {
  readables = [];
  writables = [];
  pollset = none;
  dirty = true;
  verbose = false;
  object = refl;
  known = (refl, (refl, tt));
  current = λ h e. cc;
}

remove_keeps_example :
    Returns
      (λ r t.
        ((r ≡ qfalse)
          × (first_match 3 second (2 ∷ 3 ∷ []) (first ∷ second ∷ []) ≡ none)
          × (t ≡ state))
        ⊎ ((w : ℕ) × (r ≡ obj w)
            × (first_match 3 second (2 ∷ 3 ∷ []) (first ∷ second ∷ []) ≡ some w)
            × ((js : List Pollitem) × WellFormed t 1 (erase_all w (2 ∷ 3 ∷ [])) js)
            × (t ≡ record state { pollers = t.pollers })))
      (λ e t. ⊥)
      (remove 1 3 state)
remove_keeps_example =
    remove_keeps state 1 3 second (2 ∷ 3 ∷ []) (first ∷ second ∷ []) two
      ((omega arith, tt), (tt, tt)) refl

remove_twice_example :
    Returns
      (λ r t. (r ≡ obj 2) × Returns (λ a t'. ⊥) (λ e t'. e ≡ type_error) (rebuild_pollset 4 t))
      (λ e t. ⊥)
      (remove 4 2 state)
remove_twice_example = remove_twice state 4 2 first twice

-- A library that reports the first of two items as readable.
abbrev readable : ZmqPoll ideal_zsocket
readable items timeout w = some (pos 1, pos 1 ∷ pos 0 ∷ [], w)

poll_lem_example :
    Returns
      (λ a t.
        Polled 1 2 (3 ∷ []) (first ∷ second ∷ []) (pos 1) (pos 1 ∷ pos 0 ∷ []) state.net.world a t
        × SameItems state t)
      (λ e t.
        PollFailed 1 2
          (3 ∷ [])
          (first ∷ second ∷ [])
          (pos 1)
          (pos 1 ∷ pos 0 ∷ [])
          state.net.world
          e
          t
        × SameItems state t)
      (poll readable integers 1 (some (fixnum (pos 2))) state)
    × ((j : ℕ) → poll readable integers 1 (some (fixnum (negsuc j))) state ≡ fault)
poll_lem_example =
    poll_lem readable integers integer_laws (some (fixnum (pos 2))) 2000 state 1 2 (3 ∷ [])
      (first ∷ second ∷ []) (pos 1) (pos 1 ∷ pos 0 ∷ []) state.net.world two refl refl refl

-- A library that reports nothing.
abbrev quiet : List RawItem → List ℤ
quiet [] = []
quiet (i ∷ is) = pos 0 ∷ quiet is

abbrev idle : ZmqPoll ideal_zsocket
idle items timeout w = some (pos 0, quiet items, w)

length-quiet : (is : List RawItem) → length (quiet is) ≡ length is
length-quiet [] = refl
length-quiet (i ∷ is) = ap suc (length-quiet is)

-- A state without items, that behind ZMQ::Poller.new, and that behind register of an IO object.
abbrev bare : Polls ideal_zsocket ideal_zlist
bare = record state { items = λ u. none; pollers = λ v. none; ios = λ u. some (pos 5) }

abbrev poller_of : List ℕ → (dirty : Bool) → Poller
poller_of us dirty = record {
  pollables = us;
  readables = [];
  writables = [];
  pollset = none;
  poll_size = length us;
  dirty = dirty;
  verbose = false;
}

abbrev made : Polls ideal_zsocket ideal_zlist
made = record bare { pollers = update bare.pollers 20 (some (poller_of [] false)); next = 21 }

abbrev listed : Polls ideal_zsocket ideal_zlist
listed = record made {
  items = update made.items 21 (
      some (record {
        socket = none;
        io = some 12;
        events = pos 3;
        handler = none;
        item = record { socket = 0; fd = pos 5; events = pos 3 };
      }));
  pollers = update made.pollers 20 (some (poller_of (21 ∷ []) true));
  next = 22;
}

makes : new bare ≡ ok 20 made
unfolding new
makes = refl

registers_it : perform idle integers 20 (registers 12) made ≡ ok tt listed
unfolding register
registers_it = refl

listed-Reached : Reached idle integers 20 listed
listed-Reached =
    returned (registers 12) (opened bare (λ k h. refl) makes)
      (λ p e.
        let same : poller_of [] false ≡ p = cc e in
        subst (λ (q : Poller). NotIn 12 q.pollables) same tt)
      registers_it

order_lem_example :
    InOrder listed 20
    × ((o : Op integers)
        → Fits idle integers 20 listed o
        → Returns (λ a t. InOrder t 20) (λ e t. InOrder t 20) (perform idle integers 20 o listed))
order_lem_example =
    order_lem idle (λ items timeout w. (pos 0, quiet items, w, refl, length-quiet items)) integers
      integer_laws 20 listed listed-Reached
