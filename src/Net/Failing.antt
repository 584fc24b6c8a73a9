-- ===== src/Net/Failing.antt =====
-- What the macro ZmqAssert of ext/rbczmq/rbczmq_ext.h comes to where a call has failed.
use rbczmq.Base.{
  ◌≡◌, refl, sym, subst, ◌⊎◌, inl, inr, Exc, zmq_error, sys_error, Run, ok, raise, Returns,
}
use rbczmq.Czmq.Errors.{errno_cases}
use rbczmq.Czmq.Zlist.{Zlist}
use rbczmq.Net.{Zsocket, Net, call_failed}
use rbczmq.Objects.{Value, qfalse}

module _ {n : Zsocket} {z : Zlist} where
  -- It returns false or raises an exception, and leaves the state as it is.
  pub call_failed-cases :
      (s : Net n z) → (call_failed s ≡ ok qfalse s) ⊎ ((e : Exc) × (call_failed s ≡ raise e s))
  call_failed-cases s = elim (errno_cases (n.zmq_errno s.world)) [
    | inl (inl e) ↦ inr (zmq_error, rw (e, call_failed) refl)
    | inl (inr (inl e)) ↦ inr (sys_error, rw (e, call_failed) refl)
    | inl (inr (inr (inl e))) ↦ inr (sys_error, rw (e, call_failed) refl)
    | inl (inr (inr (inr e))) ↦ inr (sys_error, rw (e, call_failed) refl)
    | inr (inl e) ↦ inl (rw (e, call_failed) refl)
    | inr (inr e) ↦ inl (rw (e, call_failed) refl)
  ]

  -- So it does within a state that holds that of the sockets.
  pub Returns-failed :
      {S : Type 0} {P : Value → S → Type 0} {Q : Exc → S → Type 0}
      (lift : Run (Net n z) Value → Run S Value) (s : Net n z)
      → Returns P Q (lift (ok qfalse s))
      → ((e : Exc) → Returns P Q (lift (raise e s)))
      → Returns P Q (lift (call_failed s))
  Returns-failed {P = P} {Q = Q} lift s p q = elim (call_failed-cases s) [
    | inl e ↦ subst (λ r. Returns P Q (lift r)) (sym e) p
    | inr (x, e) ↦ subst (λ r. Returns P Q (lift r)) (sym e) (q x)
  ]
