-- ===== src/Poller/Polling.antt =====
-- `poll` of ext/rbczmq/poller.c, whatever libzmq returns.
use rbczmq.Base.{
  ℕ, Returns-mono, ◌∙◌, none, ok, fault, zero, suc, ◌≡◌, ◌≢◌, refl, ◌⊎◌, inl, inr, Bool, false,
  some, Option, List, [], ◌∷◌, length, Exc, Returns, returns, raises, Bool-cases, update, arith,
  ==_self, ne→==, ℤ, pos, negsuc,
}
use rbczmq.Czmq.Zlist.{Zlist}
use rbczmq.Doubles.{Doubles, DoubleLaws, Delay, fixnum, float, other, long_of_size}
use rbczmq.Net.{Zsocket, Net}
use rbczmq.Net.Failing.{Returns-failed}
use rbczmq.Objects.{Value, int, qfalse}
use rbczmq.Poller.{ZmqPoll, seconds, polled, is_recoverable, poll}
use rbczmq.Poller.Items.{raws, Known, WellFormed}
use rbczmq.Poller.Selection.{
  chosen, ready, filled, rebuild_pollset-filled, rebuild_selectables-selected,
}
use rbczmq.Pollitem.{Pollitem, Poller, Polls, is_in, is_out, on_net}

-- The pollables that a return code reports: none unless it is above 0.
abbrev pub reported : (ℤ → Bool) → ℤ → List ℤ → List Pollitem → List (Option ℕ)
reported test (pos (suc k)) es is = chosen test es is
reported test _ es is = []

-- A timeout as a number of milliseconds, where it is one: 0 for no timeout.
abbrev pub milliseconds : (f : Doubles) → Option (Delay f) → Option ℕ
milliseconds f none = f.to_size (f.times_1000 (f.of_long (pos 0)))
milliseconds f (some (fixnum i)) = f.to_size (f.times_1000 (f.of_long i))
milliseconds f (some (float d)) = f.to_size (f.times_1000 d)
milliseconds f (some other) = none

module _ {n : Zsocket} {z : Zlist} where
  -- The items are the same.
  abbrev pub SameItems : (s t : Polls n z) → Type 0
  SameItems s t = (t.items ≡ s.items) × (t.next ≡ s.next)

  -- The poller is in order, its array is not marked as dirty, and its lists are these.
  abbrev pub Lists : Polls n z → ℕ → List ℕ → List Pollitem → (rs ws : List (Option ℕ)) → Type 0
  Lists t v us is rs ws =
      (y : WellFormed t v us is) × (y.readables ≡ rs) × (y.writables ≡ ws) × (y.dirty ≡ false)

  Lists-ready :
      (t : Polls n z) (v : ℕ) (us : List ℕ) (is : List Pollitem) (verbose : Bool)
      (rs ws : List (Option ℕ))
      → t.pollers v ≡ some (ready us is verbose rs ws)
      → Known t.items us is
      → Lists t v us is rs ws
  Lists-ready t v us is verbose rs ws h k = (
    record {
      readables = rs;
      writables = ws;
      pollset = some (raws is);
      dirty = false;
      verbose = verbose;
      object = h;
      known = k;
      current = λ _ _. refl;
    },
    refl,
    refl,
    refl,
  )

  pub milliseconds-seconds :
      (f : Doubles) (tmout : Option (Delay f)) (ms : ℕ)
      → milliseconds f tmout ≡ some ms
      → (d : f.Double) × ((s : Polls n z) → seconds f tmout s ≡ ok d s)
        × (f.to_size (f.times_1000 d) ≡ some ms)
  milliseconds-seconds f none ms e = (f.of_long (pos 0), λ s. refl, e)
  milliseconds-seconds f (some (fixnum i)) ms e = (f.of_long i, λ s. refl, e)
  milliseconds-seconds f (some (float d)) ms e = (d, λ s. refl, e)
  milliseconds-seconds f (some other) ms e = cc

  -- Up to the return of libzmq's poll: the array is up to date, and the lists are empty.
  poll_reaches :
      (zmq_poll : ZmqPoll n) (f : Doubles) (tmout : Option (Delay f)) (ms : ℕ) (s : Polls n z)
      (v u : ℕ) (us : List ℕ) (is : List Pollitem) (rc : ℤ) (es : List ℤ) (w : n.World)
      → (y : WellFormed s v (u ∷ us) is) → milliseconds f tmout ≡ some ms
      → zmq_poll (raws is) (long_of_size ms) s.net.world ≡ some (rc, es, w)
      → (t : Polls n z) × (poll zmq_poll f v tmout s ≡ polled v rc es t)
        × (t.pollers v ≡ some (ready (u ∷ us) is y.verbose [] []))
        × Known t.items (u ∷ us) is
        × (t.net.world ≡ w)
        × SameItems s t
  unfolding poll
  poll_reaches zmq_poll f tmout ms s v u us is rc es w y fits called =
      let (d, value, size) = milliseconds-seconds f tmout ms fits in
      let some_items : length (u ∷ us) ≢ 0 = omega arith in
      let new_world : Net n z = record s.net { world = w } in
      let empty : Poller = ready (u ∷ us) is y.verbose [] [] in
      elim (Bool-cases y.dirty) [
        | inl old ↦
            let at_once : Polls n z = filled s v (u ∷ us) is y.readables y.writables y.verbose in
            let cleared : Polls n z = record at_once {
              net = new_world;
              pollers = update at_once.pollers v (some empty);
            } in
            (
              cleared,
              rw y.object (
                  rw (value s) (
                    rw (ne→== some_items) (
                      rw old (
                        rw
                          (rebuild_pollset-filled s v (u ∷ us) is y.readables y.writables y.pollset
                            y.verbose (rw old at y.object) y.known)
                          (rw size (rw (==_self v) (rw called refl))))))),
              rw (==_self v) refl,
              y.known,
              refl,
              (refl, refl),
            )
        | inr new ↦
            let cleared : Polls n z = record s {
              net = new_world;
              pollers = update s.pollers v (some empty);
            } in
            (
              cleared,
              rw y.object (
                  rw (value s, ne→== some_items)
                    (rw (new, size)
                      (rw (rw (new, y.current some_items new) at y.object) (rw called refl)))),
              rw (==_self v) refl,
              y.known,
              refl,
              (refl, refl),
            )
      ]

  module _ (v u : ℕ) (us : List ℕ) (is : List Pollitem) (rc : ℤ) (es : List ℤ) (w : n.World) where
    -- What poll returns, and what it raises.
    abbrev pub Polled : Value → Polls n z → Type 0
    Polled r t =
        ((r ≡ int rc)
          ⊎ ((r ≡ qfalse) × (rc ≡ negsuc zero) × (is_recoverable (n.zmq_errno w) ≡ false)))
        × Lists t v (u ∷ us) is (reported is_in rc es is) (reported is_out rc es is)

    abbrev pub PollFailed : Exc → Polls n z → Type 0
    PollFailed e t =
        (rc ≡ negsuc zero) × (is_recoverable (n.zmq_errno w) ≡ false) × Lists t v (u ∷ us) is [] []

  polled_lem :
      (t : Polls n z) (v u : ℕ) (us : List ℕ) (is : List Pollitem) (rc : ℤ) (es : List ℤ)
      (w : n.World) (verbose : Bool)
      → t.pollers v ≡ some (ready (u ∷ us) is verbose [] [])
      → Known t.items (u ∷ us) is
      → t.net.world ≡ w
      → length es ≡ length (u ∷ us)
      → Returns
          (λ a r. Polled v u us is rc es w a r × SameItems t r)
          (λ e r. PollFailed v u us is rc es w e r × SameItems t r)
          (polled v rc es t)
  polled_lem t v u us is (pos zero) es w verbose h k same l =
      returns ((inl refl, Lists-ready t v (u ∷ us) is verbose [] [] h k), (refl, refl))
  polled_lem t v u us is (pos (suc j)) es w verbose h k same l =
      rw (rebuild_selectables-selected t v (u ∷ us) is es verbose h k l) (
        returns (
          (
            inl refl,
            Lists-ready _ v (u ∷ us) is verbose (chosen is_in es is) (chosen is_out es is)
                (rw (==_self v) refl) k,
          ),
          (refl, refl),
        ))
  polled_lem t v u us is (negsuc zero) es w verbose h k same l =
      let empty : Lists t v (u ∷ us) is [] [] = Lists-ready t v (u ∷ us) is verbose [] [] h k in
      rw (← same) (elim (Bool-cases (is_recoverable (n.zmq_errno t.net.world))) [
        | inl again ↦ rw again (returns ((inl refl, empty), (refl, refl)))
        | inr failed ↦ rw failed (
            Returns-failed (λ r. on_net r t) t.net
              (returns ((inr (refl, refl, refl), empty), (refl, refl)))
              (λ e. raises ((refl, refl, empty), (refl, refl))))
      ])
  polled_lem t v u us is (negsuc (suc j)) es w verbose h k same l =
      let empty : Lists t v (u ∷ us) is [] [] = Lists-ready t v (u ∷ us) is verbose [] [] h k in
      elim (Bool-cases (is_recoverable (n.zmq_errno t.net.world))) [
        | inl again ↦ rw again (returns ((inl refl, empty), (refl, refl)))
        | inr failed ↦ rw failed (returns ((inl refl, empty), (refl, refl)))
      ]

  -- A Fixnum below 0 has no value of an unsigned type.
  poll_negative :
      (zmq_poll : ZmqPoll n) (f : Doubles) (laws : DoubleLaws f) (j : ℕ) (s : Polls n z) (v u : ℕ)
      (us : List ℕ) (is : List Pollitem)
      → WellFormed s v (u ∷ us) is
      → poll zmq_poll f v (some (fixnum (negsuc j))) s ≡ fault
  unfolding poll
  poll_negative zmq_poll f laws j s v u us is y =
      let some_items : length (u ∷ us) ≢ 0 = omega arith in
      elim (Bool-cases y.dirty) [
        | inl old ↦ rw y.object (
            rw (ne→== some_items) (
              rw old (
                rw
                  (rebuild_pollset-filled s v (u ∷ us) is y.readables y.writables y.pollset
                    y.verbose (rw old at y.object) y.known)
                  (rw (laws.negative j) refl))))
        | inr new ↦ rw y.object (rw (ne→== some_items, new) (rw (laws.negative j) refl))
      ]

  -- poll on a poller in order that has an item. For a timeout of `ms` milliseconds, with which
  -- libzmq's poll of the items returns a code and as many events as there are items, it is
  -- defined, and the poller is in order afterwards with an array that is not marked as dirty, and
  -- no item changed. It returns the code, or, for the code -1 with an errno that is neither EINTR
  -- nor EAGAIN, returns false or raises an exception. readables and writables are, for a positive
  -- code, the pollables whose events have ZMQ_POLLIN and ZMQ_POLLOUT, in order, and else empty.
  -- For a Fixnum below 0, which is to wait without end, poll is undefined.
  pub poll_lem :
      (zmq_poll : ZmqPoll n) (f : Doubles) (laws : DoubleLaws f) (tmout : Option (Delay f)) (ms : ℕ)
      (s : Polls n z) (v u : ℕ) (us : List ℕ) (is : List Pollitem) (rc : ℤ) (es : List ℤ)
      (w : n.World)
      → WellFormed s v (u ∷ us) is
      → milliseconds f tmout ≡ some ms
      → zmq_poll (raws is) (long_of_size ms) s.net.world ≡ some (rc, es, w)
      → length es ≡ length (u ∷ us)
      → Returns
          (λ a r. Polled v u us is rc es w a r × SameItems s r)
          (λ e r. PollFailed v u us is rc es w e r × SameItems s r)
          (poll zmq_poll f v tmout s)
        × ((j : ℕ) → poll zmq_poll f v (some (fixnum (negsuc j))) s ≡ fault)
  poll_lem zmq_poll f laws tmout ms s v u us is rc es w y fits called l =
      let (t, e, h, k, same, (items, next)) =
        poll_reaches zmq_poll f tmout ms s v u us is rc es w y fits called in
      (
        rw e (
            Returns-mono (polled_lem t v u us is rc es w y.verbose h k same l)
              (λ a r x. (x.0, (x.1.0 ∙ items, x.1.1 ∙ next)))
              (λ x r q. (q.0, (q.1.0 ∙ items, q.1.1 ∙ next)))),
        λ j. poll_negative zmq_poll f laws j s v u us is y,
      )
