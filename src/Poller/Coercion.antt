-- ===== src/Poller/Coercion.antt =====
-- `rb_czmq_pollitem_coerce` and `ZMQ::Pollitem.new` of ext/rbczmq/pollitem.c, by what they change.
use rbczmq.Base.{
  ℕ, ◌+◌, ◌≡◌, refl, ◌⊎◌, inl, inr, Bool, Returns-mono, ◌||◌, some, ℤ, pos, Returns, returns,
  raises, Run, Bool-cases, Option-cases, update, ◌==◌,
}
use rbczmq.Czmq.Zlist.{Zlist}
use rbczmq.Net.{Zsocket, Net}
use rbczmq.Objects.{int}
use rbczmq.Pollitem.{
  Pollitem, Polls, coerce, s_new, of_socket, of_io, of_events, set_verbose, is_in, is_out,
}
use rbczmq.Net.{is_attached}

module _ {n : Zsocket} {z : Zlist} where
  -- A new item under the next reference.
  abbrev pub Made : Polls n z → ℕ → Polls n z → Type 0
  Made s u t =
      (it : Pollitem) × (u ≡ s.next)
      × (t ≡ record s { items = update s.items s.next (some it); next = s.next + 1 })

  -- A run that makes an item, or raises and changes nothing.
  abbrev pub Makes : Polls n z → Run (Polls n z) ℕ → Type 0
  Makes s = Returns (Made s) (λ e t. t ≡ s)

  of_socket-Makes : (s : Polls n z) (u : ℕ) (events : ℤ) → Makes s (of_socket u events s)
  unfolding of_socket
  of_socket-Makes s u events = elim (Option-cases (s.net.socks u)) [
    | inl e ↦ rw e (raises refl)
    | inr (k, e) ↦ elim (Bool-cases k.destroyed) [
      | inl d ↦ rw (e, d) (raises refl)
      | inr d ↦ elim (Bool-cases (is_attached k.state)) [
        | inr a ↦ rw (e, d, a) (raises refl)
        | inl a ↦ elim (Bool-cases (k.thread == s.net.thread)) [
          | inr h ↦ rw (e, d, a, h) (raises refl)
          | inl h ↦ rw (e, d, a, h) (returns (_, refl, refl))
        ]
      ]
    ]
  ]

  of_io-Makes : (s : Polls n z) (u : ℕ) (events : ℤ) → Makes s (of_io u events s)
  unfolding of_io
  of_io-Makes s u events = elim (Option-cases (s.ios u)) [
    | inl e ↦ rw e (raises refl)
    | inr (fd, e) ↦ rw e (returns (_, refl, refl))
  ]

  of_events-Makes : (s : Polls n z) (u : ℕ) (events : ℤ) → Makes s (of_events u events s)
  of_events-Makes s u events = elim (Bool-cases (is_in events || is_out events)) [
    | inr h ↦ rw h (raises refl)
    | inl h ↦ elim (Option-cases (s.net.socks u)) [
      | inl e ↦ rw (h, e) (of_io-Makes s u events)
      | inr (k, e) ↦ rw (h, e) (of_socket-Makes s u events)
    ]
  ]

  pub s_new-Makes : (s : Polls n z) (u : ℕ) (events : ℤ) → Makes s (s_new u (int events) s)
  unfolding s_new
  s_new-Makes s u events = of_events-Makes s u events

  -- An item is itself; of another object an item is made.
  pub coerce_lem :
      (s : Polls n z) (u : ℕ)
      → Returns
          (λ w t. ((w ≡ u) × (t ≡ s) × ((it : Pollitem) × (s.items u ≡ some it))) ⊎ Made s w t)
          (λ e t. t ≡ s)
          (coerce u s)
  unfolding coerce s_new
  coerce_lem s u = elim (Option-cases (s.items u)) [
    | inr (it, e) ↦ rw (coerce, e) (returns (inl (refl, refl, (it, refl))))
    | inl e ↦
        rw (coerce, e) (Returns-mono (of_events-Makes s u (pos 3)) (λ a t h. inr h) (λ x t h. h))
  ]

  -- `verbose=` of an item concerns its socket.
  pub set_verbose_lem :
      (s : Polls n z) (u : ℕ) (it : Pollitem) (level : Bool)
      → s.items u ≡ some it
      → Returns
          (λ a t. (m : Net n z) × (t ≡ record s { net = m }))
          (λ e t. t ≡ s)
          (set_verbose u level s)
  unfolding set_verbose
  set_verbose_lem s u it level h = elim (Option-cases it.socket) [
    | inl e ↦ rw (h, e) (returns (_, refl))
    | inr (v, e) ↦ elim (Option-cases (s.net.socks v)) [
      | inl g ↦ rw (h, e, g) (raises refl)
      | inr (k, g) ↦ elim (Bool-cases k.destroyed) [
        | inl d ↦ rw (h, e, g, d) (raises refl)
        | inr d ↦ rw (h, e, g, d) (returns (_, refl))
      ]
    ]
  ]
