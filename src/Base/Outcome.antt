-- ===== src/Base/Outcome.antt =====
-- What a C function of the extension can do: return, raise a Ruby exception, or commit an
-- error that C leaves undefined or that stops the process, such as an access through a pointer
-- to freed memory. The state is passed along explicitly.
use mathlib.Core.Path.{◌≡◌, subst}
use mathlib.Core.Bool.{Bool, true, false}
use mathlib.Core.Option.{Option, none, some}

-- `rb_eTypeError`, `rb_eArgError`, `rb_eZmqError`, `rb_memerror` and `rb_sys_fail`, and what the code of
-- the program raises.
pub data Exc : Type 0 where
  type_error arg_error zmq_error mem_error sys_error ruby_error : Exc

pub data Run (S A : Type 0) : Type 0 where
  ok : A → S → Run S A
  raise : Exc → S → Run S A
  fault : Run S A

abbrev pub Cmd : Type 0 → Type 0 → Type 0
Cmd S A = S → Run S A

module _ {S A : Type 0} where
  abbrev pub pure : A → Cmd S A
  pure a s = ok a s

  abbrev pub throw : Exc → Cmd S A
  throw e s = raise e s

  -- The result of a call that may be undefined, `none`.
  abbrev pub defined : Option A → Cmd S A
  defined none s = fault
  defined (some a) s = ok a s

  -- A lookup, or an exception.
  abbrev pub or_raise : Exc → Option A → Cmd S A
  or_raise e none s = raise e s
  or_raise e (some a) s = ok a s

module _ {S A B : Type 0} where
  abbrev pub and_then : Run S A → (A → Cmd S B) → Run S B
  and_then (ok a s) k = k a s
  and_then (raise e s) k = raise e s
  and_then fault k = fault

  infixl 5 ◌>>=◌ ◌>>◌
  abbrev pub ◌>>=◌ : Cmd S A → (A → Cmd S B) → Cmd S B
  m >>= k = λ s. and_then (m s) k

  abbrev pub ◌>>◌ : Cmd S A → Cmd S B → Cmd S B
  m >> n = m >>= λ _. n

module _ {S : Type 0} where
  abbrev pub get : Cmd S S
  get s = ok s s

  abbrev pub put : S → Cmd S (Unit {0})
  put s' s = ok tt s'

  abbrev pub modify : (S → S) → Cmd S (Unit {0})
  modify f s = ok tt (f s)

  -- Raise `e` unless the test holds.
  abbrev pub assert : Bool → Exc → Cmd S (Unit {0})
  assert true e s = ok tt s
  assert false e s = raise e s

-- A run that is defined: it returns in a state that satisfies `P` with its result, or raises an
-- exception in a state that satisfies `Q` with it.
pub data Returns {S A : Type 0} (P : A → S → Type 0) (Q : Exc → S → Type 0) : Run S A → Type 0 where
  returns : {a : A} {s : S} → P a s → Returns P Q (ok a s)
  raises : {e : Exc} {s : S} → Q e s → Returns P Q (raise e s)

module _ {S A B : Type 0} {P : A → S → Type 0} {P' : B → S → Type 0} {Q : Exc → S → Type 0} where
  -- What follows a run that is defined.
  pub Returns-bind :
      {r : Run S A} {k : A → Cmd S B}
      → Returns P Q r
      → ((a : A) (s : S) → P a s → Returns P' Q (k a s))
      → Returns P' Q (and_then r k)
  Returns-bind (returns p) next = next _ _ p
  Returns-bind (raises q) next = raises q

module _ {S A : Type 0} {P P' : A → S → Type 0} {Q Q' : Exc → S → Type 0} where
  pub Returns-mono :
      {r : Run S A}
      → Returns P Q r
      → ((a : A) (s : S) → P a s → P' a s)
      → ((e : Exc) (s : S) → Q e s → Q' e s)
      → Returns P' Q' r
  Returns-mono (returns p) f g = returns (f _ _ p)
  Returns-mono (raises q) f g = raises (g _ _ q)

-- What a run that is defined ends in.
module _ {S A : Type 0} {P : A → S → Type 0} {Q : Exc → S → Type 0} where
  pub Returns-ok : {r : Run S A} {a : A} {s : S} → Returns P Q r → r ≡ ok a s → P a s
  Returns-ok {r} {a} {s} h e = go (subst (Returns P Q) e h)
    where
      go : Returns P Q (ok a s) → P a s
      go (returns p) = p

  pub Returns-raise : {r : Run S A} {e : Exc} {s : S} → Returns P Q r → r ≡ raise e s → Q e s
  Returns-raise {r} {e} {s} h q = go (subst (Returns P Q) q h)
    where
      go : Returns P Q (raise e s) → Q e s
      go (raises p) = p
