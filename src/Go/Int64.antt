-- ===== src/Go/Int64.antt =====
-- Go's `int` and `int64`: integers that wrap at 64 bits.
use kaa_s_demo.Prelude.{ℕ, ◌-◌, ◌%◌, ◌≤◌, ◌<◌, ◌≡◌, arith, ltb, if◌then◌else◌}
use kaa_s_demo.Prelude.Int.{ℤ, pos, negsuc, pos_part, neg_part, ◌+ℤ◌, ◌-ℤ◌, ◌*ℤ◌}

-- 2^63 and 2^64
abbrev pub half_range : ℕ
half_range = 9223372036854775808

abbrev pub full_range : ℕ
full_range = 18446744073709551616

abbrev pub max_int64 : ℤ
max_int64 = pos 9223372036854775807

abbrev pub min_int64 : ℤ
min_int64 = negsuc 9223372036854775807

-- The bits of a result, read again as a signed number.
as_signed : ℕ → ℤ
as_signed u = if ltb u half_range then pos u else negsuc (full_range - u - 1)

unfoldable pub wrap64 : ℤ → ℤ
unfolding as_signed
wrap64 (pos n) = as_signed (n % full_range)
wrap64 (negsuc n) = as_signed (full_range - 1 - n % full_range)

unfoldable pub add64 : ℤ → ℤ → ℤ
unfolding wrap64 ◌+ℤ◌
add64 a b = wrap64 (a +ℤ b)

unfoldable pub sub64 : ℤ → ℤ → ℤ
unfolding wrap64 ◌-ℤ◌
sub64 a b = wrap64 (a -ℤ b)

unfoldable pub mul64 : ℤ → ℤ → ℤ
unfolding wrap64 ◌*ℤ◌
mul64 a b = wrap64 (a *ℤ b)

-- What an `int64` can hold.
abbrev pub Fits64 : ℤ → Type 0
Fits64 z = (pos_part z < half_range) × (neg_part z ≤ half_range)

pub wrap64_exact : (z : ℤ) → Fits64 z → wrap64 z ≡ z
unfolding wrap64
wrap64_exact (pos n) h = ground arith
wrap64_exact (negsuc n) h = ground arith

pub add64_exact : (a b : ℤ) → Fits64 (a +ℤ b) → add64 a b ≡ a +ℤ b
unfolding add64
add64_exact a b h = wrap64_exact (a +ℤ b) h

pub sub64_exact : (a b : ℤ) → Fits64 (a -ℤ b) → sub64 a b ≡ a -ℤ b
unfolding sub64
sub64_exact a b h = wrap64_exact (a -ℤ b) h
