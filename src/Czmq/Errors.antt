-- ===== src/Czmq/Errors.antt =====
-- The values of `errno` as ZmqAssert of ext/rbczmq/rbczmq_ext.h tells them apart.
use rbczmq.Base.{◌⊎◌, inl, inr, ◌≡◌, refl}
use rbczmq.Czmq.{Errno}

-- Those for which it raises an exception.
abbrev pub Raises : Errno → Type 0
Raises e =
    (e ≡ Errno.mt_thread) ⊎ ((e ≡ Errno.invalid) ⊎ ((e ≡ Errno.interrupted) ⊎ (e ≡ Errno.other)))

pub errno_cases : (e : Errno) → Raises e ⊎ ((e ≡ Errno.success) ⊎ (e ≡ Errno.again))
errno_cases Errno.success = inr (inl refl)
errno_cases Errno.again = inr (inr refl)
errno_cases Errno.mt_thread = inl (inl refl)
errno_cases Errno.invalid = inl (inr (inl refl))
errno_cases Errno.interrupted = inl (inr (inr (inl refl)))
errno_cases Errno.other = inl (inr (inr (inr refl)))
