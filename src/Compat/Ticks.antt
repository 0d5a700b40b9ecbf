-- ===== src/Compat/Ticks.antt =====
-- `ticks_to_ns` of src/compat/pg19.rs on `i64`, and that it is exact where it can be.
use pg_otel.Prelude.{
  ℕ, suc, ◌+◌, ◌-◌, ◌*◌, ◌/◌, ◌%◌, ◌^◌, ◌≤◌, ◌<◌, ◌≡◌, ap, ◌∙◌, false, Bool-cases, inl, inr, ltb,
  ◌==◌, min, if◌then◌else◌, arith,
}
use native.Mathlib.Nat.{mul-le-mul, mul-le-mul_left, mul-le-mul_right}
use pg_otel.Prelude.Int.{ℤ, pos, negsuc}

abbrev pub max_i64 : ℕ
max_i64 = 9223372036854775807

-- `TICKS_TO_NS_SHIFT` is 14: this is what a shift by it divides by.
abbrev pub shifted_one : ℕ
shifted_one = 16384

-- A number that is not negative, as an `i64` that saturates.
abbrev pub saturated_i64 : ℕ → ℕ
saturated_i64 n = min n max_i64

-- Both parts of a count of ticks that is larger than the limit.
abbrev pub split_ns : (ticks scale : ℕ) → ℕ
split_ns ticks scale =
    let count = ticks / shifted_one in
    let ns = saturated_i64 (count * scale) in
    let rest = ticks - count * shifted_one in
    saturated_i64 (ns + saturated_i64 (rest * scale) / shifted_one)

-- A shift of a negative number rounds down. The limit is not negative, so that only a positive count
-- is above it.
abbrev pub scaled_ns : ℤ → (scale max_ticks : ℕ) → ℤ
scaled_ns (pos t) scale max_ticks =
    pos (if ltb max_ticks t then split_ns t scale else saturated_i64 (t * scale) / shifted_one)
scaled_ns (negsuc t) scale max_ticks =
    negsuc ((min (suc t * scale) (suc max_i64) - 1) / shifted_one)

unfoldable pub ticks_to_ns : ℤ → (ticks_per_ns_scaled max_ticks_no_overflow : ℕ) → ℤ
ticks_to_ns ticks ticks_per_ns_scaled max_ticks_no_overflow =
    if ticks_per_ns_scaled == 0
    then ticks
    else scaled_ns ticks (saturated_i64 ticks_per_ns_scaled) (saturated_i64 max_ticks_no_overflow)

-- A product by its parts.
split_product : (c r s : ℕ) → (c * 16384 + r) * s ≡ c * s * 16384 + r * s
split_product c r s = omega arith

-- The two parts of a product, scaled, make up the product, scaled.
split_quotient : (t s : ℕ) → t * s / 16384 ≡ t / 16384 * s + (t % 16384 * s) / 16384
split_quotient t s =
    let parts : t * s ≡ t / 16384 * s * 16384 + t % 16384 * s =
      ap (λ n. n * s) (omega arith) ∙ split_product (t / 16384) (t % 16384) s in
    omega arith

split_ns_lem : (t s : ℕ) → s < 2 ^ 49 → t * s / 16384 ≤ max_i64 → split_ns t s ≡ t * s / 16384
split_ns_lem t s scale fits =
    let whole = split_quotient t s in
    let part : t % 16384 ≤ 16383 = omega arith in
    let bound : s ≤ 2 ^ 49 - 1 = omega arith in
    let small : t % 16384 * s ≤ 16383 * (2 ^ 49 - 1) = mul-le-mul part bound in
    let rest : t - t / 16384 * 16384 ≡ t % 16384 = omega arith in
    ap (λ n. saturated_i64 (saturated_i64 (t / 16384 * s) + saturated_i64 (n * s) / 16384)) rest
    ∙ omega (arith, whole, fits, small)

-- A count of ticks that is not negative is converted exactly, to `ticks * scale / 2^14` rounded down,
-- if the scale is below 2^49 and not 0, the limit is one up to which the product of ticks and scale
-- is an `i64`, and the result is an `i64`. So the split of a large count loses nothing.
pub ticks_to_ns_exact :
    (t scale max_ticks : ℕ)
    → 0 < scale
    → scale < 2 ^ 49
    → max_ticks * scale ≤ max_i64
    → t * scale / 16384 ≤ max_i64
    → ticks_to_ns (pos t) scale max_ticks ≡ pos (t * scale / 16384)
unfolding ticks_to_ns
ticks_to_ns_exact t scale max_ticks some_scale small limit fits =
    let nonzero : (scale == 0) ≡ false = ground arith in
    let same : saturated_i64 scale ≡ scale = omega arith in
    let bounded : max_ticks * 1 ≤ max_ticks * scale = mul-le-mul_left max_ticks (omega arith) in
    let same_max : saturated_i64 max_ticks ≡ max_ticks = omega arith in
    rw (nonzero, same, same_max)
      (ap pos (elim (Bool-cases (ltb max_ticks t)) [
        | inl e ↦ rw e (split_ns_lem t scale small fits)
        | inr e ↦
            let below : t ≤ max_ticks = ground arith in
            let product : t * scale ≤ max_ticks * scale = mul-le-mul_right scale below in
            rw e (ap (λ n. n / 16384) (omega (arith, product, limit)))
      ]))
