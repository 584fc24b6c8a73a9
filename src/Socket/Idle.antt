-- ===== src/Socket/Idle.antt =====
-- sock.close and the collector on a socket that no context owns any more, by ext/rbczmq/socket.c and
-- ext/rbczmq/context.c.
use rbczmq.Base.{
  ℕ, ◌≡◌, ◌≢◌, refl, sym, ◌∙◌, inl, inr, Bool, true, false, none, some, Returns, returns, raises,
  Returns-bind, Returns-mono, Bool-cases, update, ==_self, ◌==◌,
}
use rbczmq.Context.{closed, destroy_socket, free_sock_gc}
use rbczmq.Context.Members.{Done, destroy_socket-Done}
use rbczmq.Czmq.Zlist.{Zlist}
use rbczmq.Net.{Zsocket, Net, Sock, disconnected}
use rbczmq.Socket.{close}

-- A property of states that the struct of the socket `u`, done with, does not decide.
module _ {n : Zsocket} {z : Zlist} (u : ℕ) (R : Net n z → Type 0)
    (put : (t : Net n z) (i : Sock)
      → R t
      → t.socks u ≢ none
      → Done i
      → R (record t { socks = update t.socks u (some i) }))
    (drop : (t : Net n z) → R t → R (record t { socks = update t.socks u none })) where
  destroy_Done :
      (s : Net n z) (k : Sock)
      → R s
      → s.socks u ≡ some k
      → Done k
      → Returns (λ r t. R t) (λ e t. ⊥) (destroy_socket u s)
  destroy_Done s k y here d = elim (destroy_socket-Done s u k here d) [
    | inl e ↦ rw e (returns y)
    | inr e ↦ rw e (returns (put s (closed k) y (λ g. cc (sym g ∙ here)) (inl refl)))
  ]

  -- The collector leaves the property as it is,
  pub free_Done :
      (s : Net n z) (k : Sock)
      → R s
      → s.socks u ≡ some k
      → Done k
      → Returns (λ r t. R t) (λ e t. ⊥) (free_sock_gc u s)
  unfolding free_sock_gc
  free_Done s k y here d = Returns-bind (destroy_Done s k y here d) λ r t q. returns (drop t q)

  -- and so does close.
  pub close_Done :
      (s : Net n z) (k : Sock) (d : Bool)
      → R s
      → s.socks u ≡ some (record k { destroyed = d })
      → Done (record k { destroyed = d })
      → Returns (λ r t. R t) (λ e t. R t) (close u s)
  unfolding close
  close_Done s k true y here d = rw here (raises y)
  close_Done s k false y here d = rw here (elim (Bool-cases (k.thread == s.thread)) [
    | inr other ↦ rw other (raises y)
    | inl own ↦
        let i : Sock = record k { destroyed = false; state = disconnected } in
        rw own (
          Returns-bind
            (Returns-mono
              (destroy_Done (record s { socks = update s.socks u (some i) }) i
                (put s i y (λ g. cc (sym g ∙ here)) d) (rw (==_self u) refl) d)
              (λ r t q. q) (λ e t q. absurd q))
            λ r t q. returns q)
  ])
