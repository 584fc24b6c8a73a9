-- ===== src/Net/Ideal.antt =====
-- One library of contexts and sockets that behaves as documented, for examples: it knows which
-- sockets are open, their last endpoints, and the next address.
use rbczmq.Base.{
  inl, inr, Bool-cases, ==_apart, ==_self, ◌≡◌, ◌≢◌, ◌+◌, refl, Bool, true, false, Option, none,
  some, List, pos, ◌==◌, if◌then◌else◌,
}
use rbczmq.Czmq.{Ptr, Bytes, Errno}
use rbczmq.Net.{Zsocket, Closing, Opening}

-- The last member is for what else an example keeps.
pub record World (A : Type 0) : Type 0 where
  pub opened : Ptr → Bool
  pub endpoint : Ptr → Option Bytes
  pub next : Ptr
  pub errno : Errno
  pub queue : A

abbrev pub shut : {A : Type 0} → Ptr → World A → World A
shut p w = record w { opened = λ q. if q == p then false else w.opened q }

abbrev pub set_endpoint : {A : Type 0} → Ptr → Bytes → World A → World A
set_endpoint p e w = record w { endpoint = λ q. if q == p then some e else w.endpoint q }

abbrev pub on_open : {A B : Type 0} → Ptr → World A → B → Option B
on_open p w a = if w.opened p then some a else none

-- A new socket at the next address, or NULL where that is taken.
abbrev pub made : {A : Type 0} → Bool → World A → Ptr × World A
made true w = (0, w)
made false w = (
  w.next + 1,
  record w { next = w.next + 1; opened = λ q. if q == w.next + 1 then true else w.opened q },
)

abbrev pub ideal_of : Type 0 → Zsocket
ideal_of A = record {
  World = World A;
  zmq_errno = λ w. w.errno;
  zctx_new = λ w. (w.next + 1, record w { next = w.next + 1 });
  zctx_destroy = λ x w. some w;
  zctx_set_iothreads = λ x i w. some w;
  zctx_set_linger = λ x i w. some w;
  zsocket_new = λ x t w. some (made (w.opened (w.next + 1)) w);
  zsocket_type = λ p w. if p == 0 then some 99 else on_open p w 2;
  zsocket_destroy = λ x p w. on_open p w (shut p w);
  zsocket_bind = λ p e w. on_open p w (pos 5432, set_endpoint p e w);
  zsocket_connect = λ p e w. on_open p w (pos 0, set_endpoint p e w);
  zsocket_disconnect = λ p e w. on_open p w (pos 0, w);
  zsocket_unbind = λ p e w. on_open p w (pos 0, w);
  zsocket_last_endpoint = λ p w. on_open p w (w.endpoint p);
  zsocket_fd = λ p w. on_open p w (pos 4);
  zsocket_poll = λ p i w. on_open p w (false, w);
  zsocket_get = λ o p w. on_open p w (pos 0);
  zsocket_set = λ o p i w. on_open p w w;
  zsocket_ipv4only = λ p w. on_open p w (pos 1);
  zsocket_rcvmore = λ p w. on_open p w (pos 0);
  zsocket_events = λ p w. on_open p w (pos 0);
  zsocket_set_bool = λ o p b w. on_open p w w;
  zsocket_set_string = λ o p e w. on_open p w w;
  zmq_sendmsg = λ p d more w. on_open p w (true, w);
  zmq_recvmsg = λ p nonblock w. on_open p w (none, w);
}

-- The messages that sockets have sent and not received.
abbrev pub Queue : Type 0
Queue = List (List Bytes)

abbrev pub ideal_zsocket : Zsocket
ideal_zsocket = ideal_of Queue

abbrev pub ideal_closing : Closing ideal_zsocket
ideal_closing = record {
  is_open = λ w q. w.opened q;
  close = λ x p w h. (shut p w, rw h, λ q. refl);
  close_ctx = λ x w. (w, refl, λ q h. h);
  linger_new = λ w h. (record w { next = w.next + 1 }, refl);
}

pub made_lem :
    (w : World Queue) (b : Bool)
    → w.opened (w.next + 1) ≡ b
    → ((made b w).0 ≢ 0
        → (w.opened (made b w).0 ≡ false) × ((made b w).1.opened (made b w).0 ≡ true))
      × ((q : Ptr) → w.opened q ≡ true → (made b w).1.opened q ≡ true)
made_lem w true e = (λ h. absurd (h refl), λ q h. h)
made_lem w false e = (
  λ h. (e, rw (==_self (w.next + 1)) refl),
  λ q h. elim (Bool-cases (q == w.next + 1)) [ inl g ↦ rw g refl | inr g ↦ rw g h ],
)

-- Making sockets is as documented too.
abbrev pub ideal_opening : Opening ideal_closing
ideal_opening = record {
  opens = λ x t w.
      let r = made (w.opened (w.next + 1)) w in
      let m = made_lem w (w.opened (w.next + 1)) refl in (r.0, r.1, refl, m.0, m.1);
  kind = λ p w h. elim (Bool-cases (p == 0)) [
    | inl e ↦ (99, rw e refl)
    | inr e ↦ (2, rw e (rw (h (==_apart e)) refl))
  ];
}
