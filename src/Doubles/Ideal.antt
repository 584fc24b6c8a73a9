-- ===== src/Doubles/Ideal.antt =====
-- Numbers of seconds of which only integers are taken, for examples.
use rbczmq.Base.{ℕ, ◌*◌, ◌+◌, refl, Option, none, some, ℤ, pos, negsuc}
use rbczmq.Doubles.{Doubles, DoubleLaws}

-- The product with 1000.
abbrev thousandfold : ℤ → ℤ
thousandfold (pos k) = pos (k * 1000)
thousandfold (negsuc k) = negsuc (k * 1000 + 999)

abbrev size : ℤ → Option ℕ
size (pos k) = some k
size (negsuc k) = none

abbrev pub integers : Doubles
integers = record { Double = ℤ; of_long = λ i. i; times_1000 = thousandfold; to_size = size }

abbrev pub integer_laws : DoubleLaws integers
integer_laws = record { exact = λ k h. refl; negative = λ k. refl }
