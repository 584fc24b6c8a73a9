-- ===== src/Socket/Endpoints.antt =====
-- The endpoints of a socket and its state: a socket is bound or connected just when it has an
-- endpoint, as the guards of sending and receiving in ext/rbczmq/socket.c rely on.
use rbczmq.Base.{
  ℕ, ◌≡◌, refl, ◌⊎◌, inl, inr, true, false, Option, some, update, List, [], ◌∷◌, ◌++◌, ℤ, Exc,
  Returns, returns, raises, Bool-cases, ◌==◌, ==_self,
}
use rbczmq.Context.Closing.{Member, live}
use rbczmq.Czmq.{Ptr, Bytes}
use rbczmq.Czmq.Zlist.{Zlist}
use rbczmq.Net.Failing.{Returns-failed}
use rbczmq.Net.{
  Zsocket, Closing, Net, Sock, bound, connected, disconnected, is_attached, call_failed,
}
use rbczmq.Objects.{Value, qfalse, qtrue, int, str}
use rbczmq.Socket.{is_success, has_nul, delete, detached, bind, connect, disconnect, unbind}

-- The documented behaviour of the calls on an open socket: they return, and a socket that has been
-- bound or connected has a last endpoint.
pub record Addressing {n : Zsocket} (laws : Closing n) : Type 0 where
  pub bind :
      (p : Ptr) (e : Bytes) (w : n.World)
      → laws.is_open w p ≡ true
      → (rc : ℤ) × (w' : n.World) × (n.zsocket_bind p e w ≡ some (rc, w'))
        × (is_success rc ≡ true → (d : Bytes) × (n.zsocket_last_endpoint p w' ≡ some (some d)))
  pub connect :
      (p : Ptr) (e : Bytes) (w : n.World)
      → laws.is_open w p ≡ true
      → (rc : ℤ) × (w' : n.World) × (n.zsocket_connect p e w ≡ some (rc, w'))
        × (is_success rc ≡ true → (d : Bytes) × (n.zsocket_last_endpoint p w' ≡ some (some d)))
  pub disconnect :
      (p : Ptr) (e : Bytes) (w : n.World)
      → laws.is_open w p ≡ true
      → (rc : ℤ) × (w' : n.World) × (n.zsocket_disconnect p e w ≡ some (rc, w'))
  pub unbind :
      (p : Ptr) (e : Bytes) (w : n.World)
      → laws.is_open w p ≡ true
      → (rc : ℤ) × (w' : n.World) × (n.zsocket_unbind p e w ≡ some (rc, w'))

-- A socket has endpoints just when its state is that of one that is bound or connected.
abbrev pub Consistent : Sock → Type 0
Consistent k =
    ((k.endpoints ≡ []) × (is_attached k.state ≡ false))
    ⊎ ((e : Bytes) × (es : List Bytes) × (k.endpoints ≡ e ∷ es) × (is_attached k.state ≡ true))

-- The socket with an endpoint more, in a new state.
abbrev pub attached : Sock → ℕ → Bytes → Sock
attached k st d = record k { state = st; endpoints = k.endpoints ++ d ∷ [] }

attached-Consistent :
    (k : Sock) (st : ℕ) (d : Bytes) → is_attached st ≡ true → Consistent (attached k st d)
attached-Consistent k st d h = go k.endpoints
  where
    go : (es : List Bytes) → Consistent (record k { state = st; endpoints = es ++ d ∷ [] })
    go [] = inr (d, [], refl, h)
    go (e ∷ es) = inr (e, es ++ d ∷ [], refl, h)

detached-Consistent : (k : Sock) (e : Bytes) → Consistent k → Consistent (detached k e)
detached-Consistent k e (inl (h, a)) = rw h (inl (refl, refl))
detached-Consistent k e (inr (d, ds, h, a)) = go (delete e k.endpoints)
  where
    go :
        (es : List Bytes)
        → Consistent (elim es [
          | [] ↦ record k { endpoints = []; state = disconnected }
          | x ∷ xs ↦ record k { endpoints = x ∷ xs }
        ])
    go [] = inl (refl, refl)
    go (x ∷ xs) = inr (x, xs, refl, a)

module _ {n : Zsocket} {z : Zlist} {P : Value → Net n z → Type 0} {Q : Exc → Net n z → Type 0} where
  Returns-call_failed :
      (s : Net n z) → P qfalse s → ((e : Exc) → Q e s) → Returns P Q (call_failed s)
  Returns-call_failed s p q = Returns-failed (λ r. r) s (returns p) (λ e. raises (q e))

module _ {n : Zsocket} {z : Zlist} (laws : Closing n) (addressing : Addressing laws) (s : Net n z)
    (u v : ℕ) (m : Member) (e : Bytes) (here : s.socks u ≡ some (live v m))
    (own : m.thread ≡ s.thread) (opened : laws.is_open s.world m.socket ≡ true)
    (plain : has_nul e ≡ false) where
  -- What `bind` and `connect` may come to, by the library's call and by what they return for its
  -- return code: in case of success the endpoint that the library then names is the last.
  abbrev pub Attached :
      (n.World → Option (ℤ × n.World)) → (ℤ → Value) → (state : ℕ) → Value → Net n z → Type 0
  Attached call value st r t =
      (rc : ℤ) × (call s.world ≡ some (rc, t.world))
      × (((is_success rc ≡ false) × (r ≡ qfalse) × (t.socks ≡ s.socks))
          ⊎ ((is_success rc ≡ true)
              × (r ≡ value rc)
              × ((d : Bytes) × (n.zsocket_last_endpoint m.socket t.world ≡ some (some d))
                  × (t.socks ≡ update s.socks u (some (attached (live v m) st d)))
                  × Consistent (attached (live v m) st d))))

  -- The call has failed, and no socket object has changed.
  abbrev pub Failed : (n.World → Option (ℤ × n.World)) → Exc → Net n z → Type 0
  Failed call x t =
      (rc : ℤ) × (call s.world ≡ some (rc, t.world)) × (is_success rc ≡ false) × (t.socks ≡ s.socks)

  same_thread : (m.thread == s.thread) ≡ true
  same_thread = rw own (==_self s.thread)

  -- On an open socket of a context that has not been closed, from its own thread and with an
  -- endpoint without a NUL byte, where the library's calls return and name the last endpoint, bind
  -- is defined. If the library's bind succeeds, it returns the library's return code, has put the
  -- endpoint that the library names as the last behind the socket's others and changed no other
  -- socket object, the state is bound, and the socket has endpoints just when its state is that of
  -- one which is bound or connected. If the library's bind fails, it returns false or raises an
  -- exception and changes no socket object.
  pub bind_lem :
      Returns
        (Attached (n.zsocket_bind m.socket e) int bound)
        (Failed (n.zsocket_bind m.socket e))
        (bind u (str e) s)
  unfolding bind
  bind_lem =
      let (rc, w, call, last) = addressing.bind m.socket e s.world opened in
      rw here (
        rw same_thread (
          rw (plain, call)
            (elim (Bool-cases (is_success rc)) [
              | inl good ↦
                  let (d, l) = last good in
                  rw good (
                    rw (l, here)
                      (returns
                        {s = record s {
                          world = w;
                          socks = update s.socks u (some (attached (live v m) bound d));
                        }}
                        (
                          rc,
                          call,
                          inr (
                            good,
                            refl,
                            (d, l, refl, attached-Consistent (live v m) bound d refl),
                          ),
                        )))
              | inr bad ↦ rw bad (
                  Returns-call_failed _ (rc, call, inl (bad, refl, refl))
                    (λ _. (rc, call, bad, refl)))
            ])))

  -- Under the conditions of bind, connect is defined: it puts the last endpoint behind the others,
  -- the state is connected, and the socket has endpoints just when its state is that of one which
  -- is bound or connected; or it returns false or raises an exception and changes no socket
  -- object.
  connect_lem :
      Returns
        (Attached (n.zsocket_connect m.socket e) (λ rc. qtrue) connected)
        (Failed (n.zsocket_connect m.socket e))
        (connect u (str e) s)
  unfolding connect
  connect_lem =
      let (rc, w, call, last) = addressing.connect m.socket e s.world opened in
      rw here (
        rw same_thread (
          rw (plain, call)
            (elim (Bool-cases (is_success rc)) [
              | inl good ↦
                  let (d, l) = last good in
                  rw good (
                    rw (l, here)
                      (returns
                        {s = record s {
                          world = w;
                          socks = update s.socks u (some (attached (live v m) connected d));
                        }}
                        (
                          rc,
                          call,
                          inr (
                            good,
                            refl,
                            (d, l, refl, attached-Consistent (live v m) connected d refl),
                          ),
                        )))
              | inr bad ↦ rw bad (
                  Returns-call_failed _ (rc, call, inl (bad, refl, refl))
                    (λ _. (rc, call, bad, refl)))
            ])))

  -- What `disconnect` and `unbind` may come to.
  abbrev pub Detached : Value → Net n z → Type 0
  Detached r t =
      ((r ≡ qfalse) × (t.socks ≡ s.socks))
      ⊎ ((t.socks u ≡ some (detached (live v m) e)) × Consistent (detached (live v m) e))

  -- Under the conditions of bind, on a socket that has endpoints just when its state is that of
  -- one which is bound or connected, disconnect is defined: it takes every endpoint equal to the
  -- argument away, the state is disconnected if none is left and else unchanged, and the condition
  -- holds again; or it returns false or raises an exception and changes no socket object.
  pub disconnect_lem :
      Consistent (live v m) → Returns Detached (λ x t. t.socks ≡ s.socks) (disconnect u (str e) s)
  unfolding disconnect
  disconnect_lem c =
      let (rc, w, call) = addressing.disconnect m.socket e s.world opened in
      rw here (
        rw same_thread (
          rw (plain, call)
            (elim (Bool-cases (is_success rc)) [
              | inl good ↦
                  rw good
                    (rw here (returns (inr (rw (==_self u), detached-Consistent (live v m) e c))))
              | inr bad ↦ rw bad (Returns-call_failed _ (inl (refl, refl)) (λ _. refl))
            ])))

  -- Under the conditions of disconnect, unbind is defined: it takes every endpoint equal to the
  -- argument away, the state is disconnected if none is left and else unchanged, and the condition
  -- holds again; or it returns false or raises an exception and changes no socket object.
  unbind_lem :
      Consistent (live v m) → Returns Detached (λ x t. t.socks ≡ s.socks) (unbind u (str e) s)
  unfolding unbind
  unbind_lem c =
      let (rc, w, call) = addressing.unbind m.socket e s.world opened in
      rw here (
        rw same_thread (
          rw (plain, call)
            (elim (Bool-cases (is_success rc)) [
              | inl good ↦
                  rw good
                    (rw here (returns (inr (rw (==_self u), detached-Consistent (live v m) e c))))
              | inr bad ↦ rw bad (Returns-call_failed _ (inl (refl, refl)) (λ _. refl))
            ])))
