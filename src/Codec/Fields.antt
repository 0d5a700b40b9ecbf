-- ===== src/Codec/Fields.antt =====
-- Each field on its own: what its encoder appends, and that its decoder reads it back.
use pg_otel.Prelude.{
  ℕ, zero, suc, ◌+◌, ◌-◌, ◌^◌, ◌<◌, ◌≤◌, ◌≡◌, refl, sym, ap, ap₂, ◌∙◌, Bool, true, false, Option,
  none, some, List, [], ◌∷◌, ◌++◌, ltb, leb, le→leb, le→ltb, ◌==◌, if◌then◌else◌, length, take,
  drop, Result, ok, err, arith, length-append, take-append, take-length, drop-append, append_assoc,
  append-nil, min,
}
use pg_otel.Prelude.Int.{ℤ, pos, pos_part}
use pg_otel.Prelude.Bytes.{to_le_bytes, length-to_le_bytes, from_le_bytes-to_le_bytes}
use pg_otel.Prelude.Utf8.{is_utf8}
use pg_otel.Span.{Str, Float, SystemTime}
use pg_otel.Codec.Words.{to_bits, IsSigned, to_bits-lt, from_bits-to_bits}
use pg_otel.Codec.Encode.{
  put_bool, put_i64, put_i32, put_u64, put_opt_i64, put_f64, put_time, put_str, put_opt_str,
  u64_max, u32_max,
}
use pg_otel.Codec.Decode.{
  Reader, take_bytes, array, u8, bool, bool_of, u64, i64, i32, f64, time, from_utf8, string, opt_of,
  opt_i64, opt_string,
}

-- A string that `put_str` writes whole.
abbrev pub IsStr : Str → Type 0
IsStr s = (is_utf8 s ≡ true) × (length s < 2 ^ 32)

abbrev pub IsOptStr : Option Str → Type 0
IsOptStr none = Unit
IsOptStr (some s) = IsStr s

abbrev pub IsOptI64 : Option ℤ → Type 0
IsOptI64 none = Unit
IsOptI64 (some z) = IsSigned (2 ^ 63 + 2 ^ 63) z

-- The time that travels: from the epoch on, and as far as 64 bits count nanoseconds.
abbrev pub clamp_time : SystemTime → SystemTime
clamp_time t = pos (min (pos_part t) u64_max)

unfoldable pub bool_bytes : Bool → List ℕ
bool_bytes value = (if value then 1 else 0) ∷ []

unfoldable pub i64_bytes : ℤ → List ℕ
i64_bytes value = to_le_bytes 8 (to_bits (2 ^ 64) value)

unfoldable pub i32_bytes : ℤ → List ℕ
i32_bytes value = to_le_bytes 4 (to_bits (2 ^ 32) value)

unfoldable pub u64_bytes : ℕ → List ℕ
u64_bytes value = to_le_bytes 8 value

unfoldable pub opt_i64_bytes : Option ℤ → List ℕ
unfolding i64_bytes
opt_i64_bytes none = 0 ∷ []
opt_i64_bytes (some value) = 1 ∷ i64_bytes value

unfoldable pub time_bytes : SystemTime → List ℕ
time_bytes t = to_le_bytes 8 (min (pos_part t) u64_max)

unfoldable pub str_bytes : Str → List ℕ
str_bytes s = to_le_bytes 4 (min (length s) u32_max) ++ take (min (length s) u32_max) s

unfoldable pub opt_str_bytes : Option Str → List ℕ
unfolding str_bytes
opt_str_bytes none = 0 ∷ []
opt_str_bytes (some s) = 1 ∷ str_bytes s

saturates : (a b : ℕ) → (if leb a b then a else b) ≡ min a b
saturates a b = ground arith

module _ (out : List ℕ) where
  pub put_bool-bytes : (v : Bool) → put_bool out v ≡ out ++ bool_bytes v
  unfolding put_bool bool_bytes
  put_bool-bytes v = refl

  pub put_i64-bytes : (v : ℤ) → put_i64 out v ≡ out ++ i64_bytes v
  unfolding put_i64 i64_bytes
  put_i64-bytes v = refl

  pub put_i32-bytes : (v : ℤ) → put_i32 out v ≡ out ++ i32_bytes v
  unfolding put_i32 i32_bytes
  put_i32-bytes v = refl

  pub put_u64-bytes : (v : ℕ) → put_u64 out v ≡ out ++ u64_bytes v
  unfolding put_u64 u64_bytes
  put_u64-bytes v = refl

  pub put_f64-bytes : (v : Float) → put_f64 out v ≡ out ++ u64_bytes v
  unfolding put_f64 u64_bytes
  put_f64-bytes v = refl

  pub put_opt_i64-bytes : (v : Option ℤ) → put_opt_i64 out v ≡ out ++ opt_i64_bytes v
  unfolding put_opt_i64 put_i64 opt_i64_bytes
  put_opt_i64-bytes none = refl
  put_opt_i64-bytes (some v) = append_assoc out (1 ∷ []) _

  pub put_time-bytes : (t : SystemTime) → put_time out t ≡ out ++ time_bytes t
  unfolding put_time time_bytes
  put_time-bytes t = rw (saturates (pos_part t) u64_max)

pub put_str-bytes : (out : List ℕ) (s : Str) → put_str out s ≡ out ++ str_bytes s
unfolding put_str str_bytes
put_str-bytes out s = rw (saturates (length s) u32_max) (append_assoc out _ _)

pub put_opt_str-bytes : (out : List ℕ) (s : Option Str) → put_opt_str out s ≡ out ++ opt_str_bytes s
unfolding put_opt_str opt_str_bytes
put_opt_str-bytes out none = refl
put_opt_str-bytes out (some s) = put_str-bytes (out ++ (1 ∷ [])) s ∙ append_assoc out (1 ∷ []) _

pub ruleset appends = (
  put_bool-bytes, put_i64-bytes, put_i32-bytes, put_u64-bytes, put_f64-bytes, put_opt_i64-bytes,
  put_time-bytes, put_str-bytes, put_opt_str-bytes, append_assoc,
)

-- The reader takes exactly `bytes` for the value, whatever follows them.
abbrev pub Reads {ℓ} : {A : Type ℓ} → Reader A → List ℕ → A → Type ℓ
Reads read bytes value = (rest : List ℕ) → read (bytes ++ rest) ≡ ok (value, rest)

pub take_bytes-Reads : (n : ℕ) (xs : List ℕ) → n ≡ length xs → Reads (take_bytes n) xs xs
unfolding take_bytes
take_bytes-Reads n xs e rest = rw (
  le→ltb (length (xs ++ rest)) n (omega (arith, length-append xs rest)),
  take-append xs rest n e,
  drop-append xs rest n e,
)

pub array-Reads : (n : ℕ) (xs : List ℕ) → n ≡ length xs → Reads (array n) xs xs
unfolding array
array-Reads n xs e rest = take_bytes-Reads n xs e rest

pub u8-Reads : (b : ℕ) → Reads u8 (b ∷ []) b
unfolding u8
u8-Reads b rest = rw (array-Reads 1 (b ∷ []) refl rest, u8)

-- A little-endian number of `w` bytes.
number-Reads : (w v : ℕ) → Reads (array w) (to_le_bytes w v) (to_le_bytes w v)
number-Reads w v = array-Reads w (to_le_bytes w v) (sym (length-to_le_bytes w v))

pub u64-Reads : (v : ℕ) → v < 2 ^ 64 → Reads u64 (u64_bytes v) v
unfolding u64 u64_bytes
u64-Reads v h rest = rw (number-Reads 8 v rest, from_le_bytes-to_le_bytes 8 v h, u64)

pub f64-Reads : (v : Float) → v < 2 ^ 64 → Reads f64 (u64_bytes v) v
unfolding f64 u64_bytes
f64-Reads v h rest = rw (number-Reads 8 v rest, from_le_bytes-to_le_bytes 8 v h, f64)

pub i64-Reads : (v : ℤ) → IsSigned (2 ^ 63 + 2 ^ 63) v → Reads i64 (i64_bytes v) v
unfolding i64 i64_bytes
i64-Reads v h rest = rw (
  number-Reads 8 (to_bits (2 ^ 64) v) rest,
  from_le_bytes-to_le_bytes 8 (to_bits (2 ^ 64) v) (to_bits-lt (2 ^ 64) v h),
  from_bits-to_bits (2 ^ 63) v h,
  i64,
)

pub i32-Reads : (v : ℤ) → IsSigned (2 ^ 31 + 2 ^ 31) v → Reads i32 (i32_bytes v) v
unfolding i32 i32_bytes
i32-Reads v h rest = rw (
  number-Reads 4 (to_bits (2 ^ 32) v) rest,
  from_le_bytes-to_le_bytes 4 (to_bits (2 ^ 32) v) (to_bits-lt (2 ^ 32) v h),
  from_bits-to_bits (2 ^ 31) v h,
  i32,
)

pub time-Reads : (t : SystemTime) → Reads time (time_bytes t) (clamp_time t)
unfolding time time_bytes
time-Reads t rest = rw (
  number-Reads 8 (min (pos_part t) u64_max) rest,
  from_le_bytes-to_le_bytes 8 (min (pos_part t) u64_max) (omega arith),
  time,
)

pub bool-Reads : (v : Bool) → Reads bool (bool_bytes v) v
unfolding bool bool_bytes bool_of
bool-Reads true rest = rw (u8-Reads 1 rest, bool)
bool-Reads false rest = rw (u8-Reads 0 rest, bool)

pub string-Reads : (s : Str) → IsStr s → Reads string (str_bytes s) s
unfolding string str_bytes from_utf8
string-Reads s h rest =
    let len : min (length s) u32_max ≡ length s = omega arith in
    rw (len, append_assoc (to_le_bytes 4 (length s)) (take (length s) s) rest)
      (rw
        (
          number-Reads 4 (length s) (take (length s) s ++ rest),
          from_le_bytes-to_le_bytes 4 (length s) h.1,
          string,
        )
        (rw (take-length s, take_bytes-Reads (length s) s refl rest, h.0)))

pub opt_i64-Reads : (v : Option ℤ) → IsOptI64 v → Reads opt_i64 (opt_i64_bytes v) v
unfolding opt_i64 opt_i64_bytes opt_of
opt_i64-Reads none h rest = rw (u8-Reads 0 rest, opt_i64)
opt_i64-Reads (some v) h rest = rw (u8-Reads 1 (i64_bytes v ++ rest), i64-Reads v h rest, opt_i64)

pub opt_string-Reads : (s : Option Str) → IsOptStr s → Reads opt_string (opt_str_bytes s) s
unfolding opt_string opt_str_bytes opt_of
opt_string-Reads none h rest = rw (u8-Reads 0 rest, opt_string)
opt_string-Reads (some s) h rest =
    rw (u8-Reads 1 (str_bytes s ++ rest), string-Reads s h rest, opt_string)
