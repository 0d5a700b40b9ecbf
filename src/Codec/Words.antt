-- ===== src/Codec/Words.antt =====
-- Signed integers as machine words, two's complement.
use pg_otel.Prelude.{ℕ, ◌+◌, ◌-◌, ◌<◌, ◌≡◌, ltb, if◌then◌else◌, arith}
use pg_otel.Prelude.Int.{ℤ, pos, negsuc}

-- A signed integer in two's complement below `modulus`.
abbrev pub to_bits : (modulus : ℕ) → ℤ → ℕ
to_bits modulus (pos n) = n
to_bits modulus (negsuc n) = modulus - 1 - n

abbrev pub from_bits : (modulus : ℕ) → ℕ → ℤ
from_bits modulus b = if ltb (b + b) modulus then pos b else negsuc (modulus - 1 - b)

-- The integers of a signed type of this modulus.
abbrev pub IsSigned : (modulus : ℕ) → ℤ → Type 0
IsSigned modulus (pos n) = n + n < modulus
IsSigned modulus (negsuc n) = n + n < modulus

pub to_bits-lt : (modulus : ℕ) (z : ℤ) → IsSigned modulus z → to_bits modulus z < modulus
to_bits-lt modulus (pos n) h = omega arith
to_bits-lt modulus (negsuc n) h = omega arith

pub from_bits-to_bits :
    (half : ℕ) (z : ℤ)
    → IsSigned (half + half) z
    → from_bits (half + half) (to_bits (half + half) z) ≡ z
from_bits-to_bits half (pos n) h = ground arith
from_bits-to_bits half (negsuc n) h = ground arith
