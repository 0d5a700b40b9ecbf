-- ===== src/Prelude/Text.antt =====
-- What the code uses of Rust's `str`: ranges, comparison without case, decimal numbers.
use pg_otel.Prelude.{
  ℕ, zero, suc, ◌+◌, ◌-◌, ◌/◌, ◌%◌, Bool, true, false, ◌&&◌, Option, none, some, List, [], ◌∷◌,
  ◌++◌, ◌≡◌, refl, ap₂, arith, ltb, leb, ◌==◌, if◌then◌else◌, slice, map,
}
use pg_otel.Prelude.Int.{ℤ, pos, negsuc}
use pg_otel.Prelude.Utf8.{is_char_boundary}

-- `s.get(start..end)`.
unfoldable pub get_range : List ℕ → ℕ → ℕ → Option (List ℕ)
get_range s start end =
    if leb start end && (is_char_boundary s start && is_char_boundary s end)
    then some (slice s start (end - start))
    else none

unfoldable pub bytes_eq : List ℕ → List ℕ → Bool
bytes_eq [] [] = true
bytes_eq [] (b ∷ bs) = false
bytes_eq (a ∷ xs) [] = false
bytes_eq (a ∷ xs) (b ∷ ys) = a == b && bytes_eq xs ys

pub bytes_eq_sound : (s t : List ℕ) → bytes_eq s t ≡ true → s ≡ t
unfolding bytes_eq
bytes_eq_sound [] [] h = refl
bytes_eq_sound [] (b ∷ t) h = cc
bytes_eq_sound (a ∷ s) [] h = cc
bytes_eq_sound (a ∷ s) (b ∷ t) h =
    let same : a ≡ b = ground arith in
    let rest : bytes_eq s t ≡ true = ground arith in
    ap₂ (λ x xs. x ∷ xs) same (bytes_eq_sound s t rest)

abbrev pub to_ascii_lowercase : ℕ → ℕ
to_ascii_lowercase b = if leb 65 b && leb b 90 then b + 32 else b

unfoldable pub eq_ignore_ascii_case : List ℕ → List ℕ → Bool
eq_ignore_ascii_case s t = bytes_eq (map to_ascii_lowercase s) (map to_ascii_lowercase t)

-- The decimal digits of a number; a number has at most one more digit than it counts.
unfoldable pub digits : ℕ → ℕ → List ℕ
digits zero n = []
digits (suc fuel) n =
    let rest = digits fuel (n / 10) in
    if ltb n 10 then (48 + n) ∷ [] else rest ++ ((48 + n % 10) ∷ [])

abbrev pub decimal : ℕ → List ℕ
decimal n = digits (suc n) n

abbrev pub decimal_ℤ : ℤ → List ℕ
decimal_ℤ (pos n) = decimal n
decimal_ℤ (negsuc n) = 45 ∷ decimal (suc n)

abbrev pub last_of : ℕ → List ℕ → ℕ
last_of d [] = d
last_of d (b ∷ bs) = last_of b bs
