-- ===== src/Doubles.antt =====
-- The C type `double`, as ext/rbczmq/timer.c and ext/rbczmq/poller.c use it: seconds that Ruby passes
-- become milliseconds.
pub mod Ideal
use rbczmq.Base.{
  ℕ, ◌*◌, ◌^◌, ◌-◌, ◌≤◌, ◌≡◌, refl, Option, none, some, ℤ, pos, negsuc, type_error, Cmd, pure,
  throw, ltb, if◌then◌else◌,
}

-- The model does not compute with it: the value of a `long`, its product with 1000, and the
-- conversion to `size_t`, which is undefined out of range.
pub record Doubles : Type 1 where
  pub Double : Type 0
  pub of_long : ℤ → Double
  pub times_1000 : Double → Double
  pub to_size : Double → Option ℕ

-- What C and IEEE 754 say of it: up to 2 ^ 53 integers are exact, and a value of -1 or below is out
-- of the range of an unsigned type.
pub record DoubleLaws (f : Doubles) : Type 0 where
  pub exact :
      (k : ℕ) → k * 1000 ≤ 2 ^ 53 → f.to_size (f.times_1000 (f.of_long (pos k))) ≡ some (k * 1000)
  pub negative : (k : ℕ) → f.to_size (f.times_1000 (f.of_long (negsuc k))) ≡ none

-- An argument in seconds: a Fixnum, a Float, or something else.
pub data Delay (f : Doubles) : Type 0 where
  fixnum : ℤ → Delay f
  float : f.Double → Delay f
  other : Delay f

-- The type check of the argument, with its value as a `double`.
abbrev pub double_of : {S : Type 0} (f : Doubles) → Delay f → Cmd S f.Double
double_of f (fixnum i) = pure (f.of_long i)
double_of f (float d) = pure d
double_of f other = throw type_error

-- A `size_t` that is assigned to a `long` of the same width.
unfoldable pub long_of_size : ℕ → ℤ
long_of_size k = if ltb k (2 ^ 63) then pos k else negsuc (2 ^ 64 - 1 - k)
