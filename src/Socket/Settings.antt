-- ===== src/Socket/Settings.antt =====
-- The options of ext/rbczmq/socket.c that take an integer: what is set is what is read.
use rbczmq.Base.{
  ℕ, ◌≡◌, ◌≢◌, refl, ◌∙◌, inl, inr, Bool, true, false, some, ℤ, zmq_error, throw, type_error, ◌>>=◌,
  ◌>>◌, Returns, returns, raises, Bool-cases, ok, ◌==◌, ==_iff, ==_apart,
}
use rbczmq.Czmq.{Ptr}
use rbczmq.Czmq.Zlist.{Zlist}
use rbczmq.Net.{Zsocket, Closing, Net, Sock, IntOption, get_socket, guard_cross_thread}
use rbczmq.Objects.{Value, qnil, qtrue, qfalse, obj, int, str, arr}
use rbczmq.Socket.Options.{opt, set_sock_opt, opt_linger}
use rbczmq.Socket.OptionTable.{
  write, read, write-set_sock_opt, read-opt, shown, linger-cases, shown_lem,
}

-- The documented behaviour of the options: a value that an option takes is its value afterwards, and
-- no other option's of the socket, and sockets stay open.
pub record Settings {n : Zsocket} (laws : Closing n) : Type 0 where
  pub takes : IntOption → ℤ → Bool
  pub get :
      (o : IntOption) (p : Ptr) (w : n.World)
      → laws.is_open w p ≡ true
      → (i : ℤ) × (n.zsocket_get o p w ≡ some i)
  pub set :
      (o : IntOption) (p : Ptr) (i : ℤ) (w : n.World)
      → laws.is_open w p ≡ true
      → takes o i ≡ true
      → (w' : n.World) × (n.zsocket_set o p i w ≡ some w')
        × (n.zsocket_get o p w' ≡ some i)
        × ((q : IntOption) → q ≢ o → n.zsocket_get q p w' ≡ n.zsocket_get q p w)

module _ {n : Zsocket} {z : Zlist} (laws : Closing n) (settings : Settings laws) (s : Net n z)
    (u : ℕ) (k : Sock) (here : s.socks u ≡ some k) (up : k.destroyed ≡ false) where
  -- Reading an option of which the library says the value.
  read_lem :
      (w : n.World) (o : IntOption) (i : ℤ)
      → n.zsocket_get o k.socket w ≡ some i
      → read o u (record s { world = w }) ≡ ok (int (shown o i)) (record s { world = w })
  unfolding opt read opt_linger
  read_lem w o i e = elim (linger-cases o) [
    | inl g ↦ rw g (rw (here, up) refl)
    | inr g ↦ rw (read-opt o u g, shown_lem o i g) (rw (here, up) (rw e refl))
  ]

  -- What setting the option comes to.
  abbrev pub Written : IntOption → ℤ → Value → Net n z → Type 0
  Written o i r t =
      (r ≡ qnil)
      × (k.thread ≡ s.thread)
      × (read o u t ≡ ok (int (shown o i)) t)
      × ((q : IntOption)
          → q ≢ o
          → (j : ℤ) × (read q u s ≡ ok (int j) s) × (read q u t ≡ ok (int j) t))

  written :
      (o : IntOption) (i : ℤ)
      → laws.is_open s.world k.socket ≡ true
      → settings.takes o i ≡ true
      → Returns
          (Written o i)
          (λ e t. (e ≡ zmq_error) × (t ≡ s) × (k.thread ≢ s.thread))
          (set_sock_opt o u (int i) s)
  unfolding set_sock_opt
  written o i opened taken =
      let (w, e, got, same) = settings.set o k.socket i s.world opened taken in
      rw (here, up)
        (elim (Bool-cases (k.thread == s.thread)) [
          | inr other ↦ rw other (raises (refl, refl, ==_apart other))
          | inl own ↦ rw own (
              rw e (
                returns (
                  refl,
                  (==_iff k.thread s.thread).0 own,
                  read_lem w o i got,
                  λ q h.
                      let (j, g) = settings.get q k.socket s.world opened in
                      (shown q j, read_lem s.world q j g, read_lem w q j (same q h ∙ g)),
                )))
        ])

  refused :
      Returns {S = Net n z} {A = Value}
        (λ r t. ⊥)
        (λ e t. t ≡ s)
        ((do k' ← get_socket u; guard_cross_thread k'; throw type_error) s)
  refused =
      rw (here, up)
        (elim (Bool-cases (k.thread == s.thread)) [
          | inr other ↦ rw other (raises refl)
          | inl own ↦ rw own (raises refl)
        ])

  not_written :
      (o : IntOption) (x : Value)
      → ((j : ℤ) → x ≢ int j)
      → Returns (λ r t. ⊥) (λ e t. t ≡ s) (set_sock_opt o u x s)
  unfolding set_sock_opt
  not_written o (int j) h = absurd (h j refl)
  not_written o qnil h = refused
  not_written o qtrue h = refused
  not_written o qfalse h = refused
  not_written o (obj v) h = refused
  not_written o (str d) h = refused
  not_written o (arr us) h = refused

  -- For each of the 15 options of a socket that take an integer, on an open socket that is not
  -- destroyed, with a value that the library takes for the option: the method that sets it returns
  -- nil if the socket is of the thread that runs, and then the method that reads it returns the
  -- value, but -1 for linger whatever the value, and reading any other of the options gives what
  -- it gave before; on another thread it raises a ZMQ::Error and changes nothing. With an argument
  -- that is no integer it raises an exception and changes nothing.
  pub setting_lem :
      (o : IntOption) (i : ℤ) (x : Value)
      → laws.is_open s.world k.socket ≡ true
      → settings.takes o i ≡ true
      → ((j : ℤ) → x ≢ int j)
      → Returns
          (Written o i)
          (λ e t. (e ≡ zmq_error) × (t ≡ s) × (k.thread ≢ s.thread))
          (write o u (int i) s)
        × Returns (λ r t. ⊥) (λ e t. t ≡ s) (write o u x s)
  setting_lem o i x opened taken h = (
    rw (write-set_sock_opt o u (int i)) (written o i opened taken),
    rw (write-set_sock_opt o u x) (not_written o x h),
  )
