-- ===== src/Socket/OptionTable.antt =====
-- The options of ext/rbczmq/socket.c that take an integer, as a table of methods.
use rbczmq.Base.{ℕ, ◌≡◌, ◌≢◌, refl, ◌⊎◌, inl, inr, ℤ, minus_one, Cmd}
use rbczmq.Czmq.Zlist.{Zlist}
use rbczmq.Net.{Zsocket, Net, IntOption}
use rbczmq.Objects.{Value}
use rbczmq.Socket.Options.{
  opt, set_sock_opt, opt_sndhwm, opt_rcvhwm, opt_affinity, opt_rate, opt_recovery_ivl,
  opt_maxmsgsize, opt_multicast_hops, opt_sndbuf, opt_rcvbuf, opt_linger, opt_backlog,
  opt_reconnect_ivl, opt_reconnect_ivl_max, opt_rcvtimeo, opt_sndtimeo, set_opt_sndhwm,
  set_opt_rcvhwm, set_opt_affinity, set_opt_rate, set_opt_recovery_ivl, set_opt_maxmsgsize,
  set_opt_multicast_hops, set_opt_sndbuf, set_opt_rcvbuf, set_opt_linger, set_opt_backlog,
  set_opt_reconnect_ivl, set_opt_reconnect_ivl_max, set_opt_rcvtimeo, set_opt_sndtimeo,
}

module _ {n : Zsocket} {z : Zlist} where
  -- The method that sets an option, and the one that reads it.
  unfoldable pub write : IntOption → ℕ → Value → Cmd (Net n z) Value
  write IntOption.sndhwm u v = set_opt_sndhwm u v
  write IntOption.rcvhwm u v = set_opt_rcvhwm u v
  write IntOption.affinity u v = set_opt_affinity u v
  write IntOption.rate u v = set_opt_rate u v
  write IntOption.recovery_ivl u v = set_opt_recovery_ivl u v
  write IntOption.maxmsgsize u v = set_opt_maxmsgsize u v
  write IntOption.multicast_hops u v = set_opt_multicast_hops u v
  write IntOption.sndbuf u v = set_opt_sndbuf u v
  write IntOption.rcvbuf u v = set_opt_rcvbuf u v
  write IntOption.linger u v = set_opt_linger u v
  write IntOption.backlog u v = set_opt_backlog u v
  write IntOption.reconnect_ivl u v = set_opt_reconnect_ivl u v
  write IntOption.reconnect_ivl_max u v = set_opt_reconnect_ivl_max u v
  write IntOption.rcvtimeo u v = set_opt_rcvtimeo u v
  write IntOption.sndtimeo u v = set_opt_sndtimeo u v

  unfoldable pub read : IntOption → ℕ → Cmd (Net n z) Value
  read IntOption.sndhwm u = opt_sndhwm u
  read IntOption.rcvhwm u = opt_rcvhwm u
  read IntOption.affinity u = opt_affinity u
  read IntOption.rate u = opt_rate u
  read IntOption.recovery_ivl u = opt_recovery_ivl u
  read IntOption.maxmsgsize u = opt_maxmsgsize u
  read IntOption.multicast_hops u = opt_multicast_hops u
  read IntOption.sndbuf u = opt_sndbuf u
  read IntOption.rcvbuf u = opt_rcvbuf u
  read IntOption.linger u = opt_linger u
  read IntOption.backlog u = opt_backlog u
  read IntOption.reconnect_ivl u = opt_reconnect_ivl u
  read IntOption.reconnect_ivl_max u = opt_reconnect_ivl_max u
  read IntOption.rcvtimeo u = opt_rcvtimeo u
  read IntOption.sndtimeo u = opt_sndtimeo u

  pub write-set_sock_opt : (o : IntOption) (u : ℕ) (v : Value) → write o u v ≡ set_sock_opt o u v
  unfolding write set_opt_sndhwm set_opt_rcvhwm set_opt_affinity set_opt_rate set_opt_recovery_ivl
      set_opt_maxmsgsize set_opt_multicast_hops set_opt_sndbuf set_opt_rcvbuf set_opt_linger
      set_opt_backlog set_opt_reconnect_ivl set_opt_reconnect_ivl_max set_opt_rcvtimeo
      set_opt_sndtimeo
  write-set_sock_opt IntOption.sndhwm u v = refl
  write-set_sock_opt IntOption.rcvhwm u v = refl
  write-set_sock_opt IntOption.affinity u v = refl
  write-set_sock_opt IntOption.rate u v = refl
  write-set_sock_opt IntOption.recovery_ivl u v = refl
  write-set_sock_opt IntOption.maxmsgsize u v = refl
  write-set_sock_opt IntOption.multicast_hops u v = refl
  write-set_sock_opt IntOption.sndbuf u v = refl
  write-set_sock_opt IntOption.rcvbuf u v = refl
  write-set_sock_opt IntOption.linger u v = refl
  write-set_sock_opt IntOption.backlog u v = refl
  write-set_sock_opt IntOption.reconnect_ivl u v = refl
  write-set_sock_opt IntOption.reconnect_ivl_max u v = refl
  write-set_sock_opt IntOption.rcvtimeo u v = refl
  write-set_sock_opt IntOption.sndtimeo u v = refl

  pub read-opt : (o : IntOption) (u : ℕ) → o ≢ IntOption.linger → read o u ≡ opt o u
  unfolding read opt_sndhwm opt_rcvhwm opt_affinity opt_rate opt_recovery_ivl opt_maxmsgsize
      opt_multicast_hops opt_sndbuf opt_rcvbuf opt_backlog opt_reconnect_ivl opt_reconnect_ivl_max
      opt_rcvtimeo opt_sndtimeo
  read-opt IntOption.sndhwm u h = refl
  read-opt IntOption.rcvhwm u h = refl
  read-opt IntOption.affinity u h = refl
  read-opt IntOption.rate u h = refl
  read-opt IntOption.recovery_ivl u h = refl
  read-opt IntOption.maxmsgsize u h = refl
  read-opt IntOption.multicast_hops u h = refl
  read-opt IntOption.sndbuf u h = refl
  read-opt IntOption.rcvbuf u h = refl
  read-opt IntOption.backlog u h = refl
  read-opt IntOption.reconnect_ivl u h = refl
  read-opt IntOption.reconnect_ivl_max u h = refl
  read-opt IntOption.rcvtimeo u h = refl
  read-opt IntOption.sndtimeo u h = refl
  read-opt IntOption.linger u h = absurd (h refl)

-- `linger` does not ask for its value.
abbrev pub shown : IntOption → ℤ → ℤ
shown IntOption.linger i = minus_one
shown _ i = i

pub linger-cases : (o : IntOption) → (o ≡ IntOption.linger) ⊎ (o ≢ IntOption.linger)
linger-cases IntOption.sndhwm = inr (λ e. absurd (cc e))
linger-cases IntOption.rcvhwm = inr (λ e. absurd (cc e))
linger-cases IntOption.affinity = inr (λ e. absurd (cc e))
linger-cases IntOption.rate = inr (λ e. absurd (cc e))
linger-cases IntOption.recovery_ivl = inr (λ e. absurd (cc e))
linger-cases IntOption.maxmsgsize = inr (λ e. absurd (cc e))
linger-cases IntOption.multicast_hops = inr (λ e. absurd (cc e))
linger-cases IntOption.sndbuf = inr (λ e. absurd (cc e))
linger-cases IntOption.rcvbuf = inr (λ e. absurd (cc e))
linger-cases IntOption.linger = inl refl
linger-cases IntOption.backlog = inr (λ e. absurd (cc e))
linger-cases IntOption.reconnect_ivl = inr (λ e. absurd (cc e))
linger-cases IntOption.reconnect_ivl_max = inr (λ e. absurd (cc e))
linger-cases IntOption.rcvtimeo = inr (λ e. absurd (cc e))
linger-cases IntOption.sndtimeo = inr (λ e. absurd (cc e))

pub shown_lem : (o : IntOption) (i : ℤ) → o ≢ IntOption.linger → shown o i ≡ i
shown_lem IntOption.sndhwm i h = refl
shown_lem IntOption.rcvhwm i h = refl
shown_lem IntOption.affinity i h = refl
shown_lem IntOption.rate i h = refl
shown_lem IntOption.recovery_ivl i h = refl
shown_lem IntOption.maxmsgsize i h = refl
shown_lem IntOption.multicast_hops i h = refl
shown_lem IntOption.sndbuf i h = refl
shown_lem IntOption.rcvbuf i h = refl
shown_lem IntOption.linger i h = absurd (h refl)
shown_lem IntOption.backlog i h = refl
shown_lem IntOption.reconnect_ivl i h = refl
shown_lem IntOption.reconnect_ivl_max i h = refl
shown_lem IntOption.rcvtimeo i h = refl
shown_lem IntOption.sndtimeo i h = refl
