-- ===== src/Timer/Delays.antt =====
-- What `ZMQ::Timer.new` makes of its numbers, and cancelling, in ext/rbczmq/timer.c.
use rbczmq.Base.{
  ℕ, ◌+◌, ◌-◌, Run, Returns, returns, ◌*◌, ◌^◌, ◌<◌, ◌≤◌, ◌≡◌, refl, raise, fault, false, some,
  none, List, pos, negsuc, zmq_error, ==_self,
}
use rbczmq.Czmq.Zlist.{Zlist}
use rbczmq.Doubles.{Doubles, DoubleLaws, fixnum}
use rbczmq.Net.{Zsocket}
use rbczmq.Objects.{qnil, int}
use rbczmq.Timer.{TimerObj, React, Ruby, size_of_int, s_new, fire, cancel}

-- A timer that has not been cancelled.
abbrev pub timer_of : (delay times callback : ℕ) → TimerObj
timer_of d t p = record { delay = d; times = t; cancelled = false; callback = p }

module _ {n : Zsocket} {z : Zlist} (f : Doubles) (laws : DoubleLaws f) (s : React n z) where
  -- A new timer under the next reference.
  abbrev pub Makes : (delay times callback : ℕ) → Run (React n z) ℕ → Type 0
  Makes d t p =
      Returns (λ u r. (u ≡ s.polls.next) × (r.timers u ≡ some (timer_of d t p))) (λ e r. ⊥)

  -- For a Fixnum delay of k seconds with 1000 k up to 2 ^ 53, and a count of times that fits an
  -- int, ZMQ::Timer.new makes a timer of 1000 k milliseconds with that count, or for a negative
  -- count with 2 ^ 64 less its size; a negative delay is undefined.
  pub delay_lem :
      (k t p : ℕ)
      → k * 1000 ≤ 2 ^ 53
      → t < 2 ^ 31
      → Makes (k * 1000) t p (s_new f (fixnum (pos k)) (int (pos t)) none (some p) s)
        × Makes
            (k * 1000)
            (2 ^ 64 - (t + 1))
            p
            (s_new f (fixnum (pos k)) (int (negsuc t)) none (some p) s)
        × (s_new f (fixnum (negsuc k)) (int (pos t)) none (some p) s ≡ fault)
  unfolding s_new size_of_int
  delay_lem k t p small fits = (
    rw (laws.exact k small) (returns (refl, rw (==_self s.polls.next))),
    rw (laws.exact k small) (returns (refl, rw (==_self s.polls.next))),
    rw (laws.negative k),
  )

module _ {n : Zsocket} {z : Zlist} where
  -- A timer that has been cancelled fires no more.
  cancel_lem :
      (ruby : Ruby n z) (s : React n z) (u : ℕ) (t : TimerObj) (args : List ℕ)
      → s.timers u ≡ some t
      → Returns
          (λ v r. (v ≡ qnil) × (fire ruby u args r ≡ raise zmq_error r))
          (λ e r. ⊥)
          (cancel u s)
  unfolding cancel fire
  cancel_lem ruby s u t args here = rw here (returns (refl, rw (==_self u)))
