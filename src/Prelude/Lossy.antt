-- ===== src/Prelude/Lossy.antt =====
-- Rust's `String::from_utf8_lossy`: what is not UTF-8 becomes U+FFFD, once for each maximal piece.
use pg_otel.Prelude.{
  ℕ, zero, suc, ◌<◌, ◌≡◌, refl, sym, All, ◌∙◌, ap, Bool-cases, inl, inr, true, false, ◌&&◌, List,
  [], ◌∷◌, ◌++◌, append_assoc, append-nil, leb, arith,
}
use pg_otel.Prelude.Utf8.{invalid, lead, lead_byte, utf8_rest, is_utf8}
use pg_otel.Prelude.Boundaries.{Lead-cases, IsInner-of, utf8_rest-lead, utf8_rest-invalid}

-- U+FFFD.
abbrev pub replacement : List ℕ
replacement = 0xef ∷ 0xbf ∷ 0xbd ∷ []

-- `seen` are the bytes of the character that wants `count` more bytes.
unfoldable pub lossy_rest : (count lo hi : ℕ) (seen : List ℕ) → List ℕ → List ℕ
lossy_rest zero lo hi seen [] = seen
lossy_rest (suc count) lo hi seen [] = replacement
lossy_rest zero lo hi seen (b ∷ bs) = seen ++ elim (lead_byte b) [
  | invalid ↦ replacement ++ lossy_rest 0 0x80 0xbf [] bs
  | lead n l h ↦ lossy_rest n l h (b ∷ []) bs
]
lossy_rest (suc count) lo hi seen (b ∷ bs) = elim (leb lo b && leb b hi) [
  | true ↦ lossy_rest count 0x80 0xbf (seen ++ (b ∷ [])) bs
  | false ↦ replacement ++ elim (lead_byte b) [
    | invalid ↦ replacement ++ lossy_rest 0 0x80 0xbf [] bs
    | lead n l h ↦ lossy_rest n l h (b ∷ []) bs
  ]
]

unfoldable pub from_utf8_lossy : List ℕ → List ℕ
from_utf8_lossy bytes = lossy_rest 0 0x80 0xbf [] bytes

pub lossy_rest-utf8_rest :
    (count lo hi : ℕ) (seen bytes : List ℕ)
    → utf8_rest count lo hi bytes ≡ true
    → lossy_rest count lo hi seen bytes ≡ seen ++ bytes
unfolding lossy_rest utf8_rest
lossy_rest-utf8_rest zero lo hi seen [] u = sym (append-nil seen)
lossy_rest-utf8_rest (suc count) lo hi seen [] u = cc
lossy_rest-utf8_rest zero lo hi seen (b ∷ bs) u = elim (Lead-cases (lead_byte b)) [
  | inl e ↦ let bad = utf8_rest-invalid lo hi b bs e in cc
  | inr (n, l, h, e) ↦ rw e (
      ap (λ t. seen ++ t)
        (lossy_rest-utf8_rest n l h (b ∷ []) bs (sym (utf8_rest-lead lo hi b bs n l h e) ∙ u)))
]
lossy_rest-utf8_rest (suc count) lo hi seen (b ∷ bs) u = elim (Bool-cases (leb lo b && leb b hi)) [
  | inl e ↦
      let next : utf8_rest count 0x80 0xbf bs ≡ true = ground arith in
      rw (e, lossy_rest)
        (lossy_rest-utf8_rest count 0x80 0xbf (seen ++ (b ∷ [])) bs next
          ∙ append_assoc seen (b ∷ []) bs)
  | inr e ↦ absurd (ground arith)
]

-- What is UTF-8 stays as it is.
pub from_utf8_lossy-id : (s : List ℕ) → is_utf8 s ≡ true → from_utf8_lossy s ≡ s
unfolding from_utf8_lossy is_utf8
from_utf8_lossy-id s u = lossy_rest-utf8_rest 0 0x80 0xbf [] s u

lead_byte-byte : (b n l h : ℕ) → lead_byte b ≡ lead n l h → b < 256
unfolding lead_byte
lead_byte-byte b n l h e = ground arith

utf8_rest-bytes :
    (count lo hi : ℕ) (s : List ℕ)
    → hi < 256
    → utf8_rest count lo hi s ≡ true
    → All (λ b. b < 256) s
unfolding utf8_rest
utf8_rest-bytes count lo hi [] l u = tt
utf8_rest-bytes zero lo hi (b ∷ bs) l u = elim (Lead-cases (lead_byte b)) [
  | inl e ↦ let bad = utf8_rest-invalid lo hi b bs e in cc
  | inr (n, l', h, e) ↦
      let inner = IsInner-of b n l' h e in
      (
        lead_byte-byte b n l' h e,
        utf8_rest-bytes n l' h bs (omega arith) (sym (utf8_rest-lead lo hi b bs n l' h e) ∙ u),
      )
]
utf8_rest-bytes (suc count) lo hi (b ∷ bs) l u =
    let next : utf8_rest count 0x80 0xbf bs ≡ true = ground arith in
    (ground arith, utf8_rest-bytes count 0x80 0xbf bs (omega arith) next)

-- The bytes of a UTF-8 text are bytes.
pub is_utf8-bytes : (s : List ℕ) → is_utf8 s ≡ true → All (λ b. b < 256) s
unfolding is_utf8
is_utf8-bytes s u = utf8_rest-bytes 0 0x80 0xbf s (omega arith) u

-- What the bytes `seen` begin: with `rest` behind them they are UTF-8 if `rest` ends a character.
abbrev Begins : (count lo hi : ℕ) → List ℕ → Type 0
Begins count lo hi seen =
    (rest : List ℕ) → utf8_rest 0 0x80 0xbf (seen ++ rest) ≡ utf8_rest count lo hi rest

Begins-more :
    (count lo hi b : ℕ) (seen : List ℕ)
    → (leb lo b && leb b hi) ≡ true
    → Begins (suc count) lo hi seen
    → Begins count 0x80 0xbf (seen ++ (b ∷ []))
unfolding utf8_rest
Begins-more count lo hi b seen e h rest =
    ap (utf8_rest 0 0x80 0xbf) (append_assoc seen (b ∷ []) rest) ∙ h (b ∷ rest) ∙ rw e refl

replacement_utf8 :
    (rest : List ℕ) → utf8_rest 0 0x80 0xbf (replacement ++ rest) ≡ utf8_rest 0 0x80 0xbf rest
unfolding utf8_rest lead_byte
replacement_utf8 [] = refl
replacement_utf8 (b ∷ rest) = refl

zero_wanted : (lo hi : ℕ) (rest : List ℕ) → utf8_rest 0 lo hi rest ≡ utf8_rest 0 0x80 0xbf rest
unfolding utf8_rest
zero_wanted lo hi [] = refl
zero_wanted lo hi (b ∷ rest) = refl

-- What stands for a byte between two characters and the bytes behind it.
lead_byte-utf8 :
    (b : ℕ) (bs : List ℕ)
    → ((n l h : ℕ) (seen : List ℕ)
        → Begins n l h seen
        → utf8_rest 0 0x80 0xbf (lossy_rest n l h seen bs) ≡ true)
    → utf8_rest 0 0x80 0xbf (lossy_rest 0 0x80 0xbf [] (b ∷ bs)) ≡ true
unfolding lossy_rest
lead_byte-utf8 b bs next = elim (Lead-cases (lead_byte b)) [
  | inl e ↦
      rw e (replacement_utf8 (lossy_rest 0 0x80 0xbf [] bs) ∙ next 0 0x80 0xbf [] (λ rest. refl))
  | inr (n, l, h, e) ↦ rw e (next n l h (b ∷ []) (λ rest. utf8_rest-lead 0x80 0xbf b rest n l h e))
]

lossy_rest-utf8 :
    (count lo hi : ℕ) (seen bytes : List ℕ)
    → Begins count lo hi seen
    → utf8_rest 0 0x80 0xbf (lossy_rest count lo hi seen bytes) ≡ true
unfolding lossy_rest
lossy_rest-utf8 zero lo hi seen [] h =
    ap (utf8_rest 0 0x80 0xbf) (sym (append-nil seen)) ∙ h [] ∙ unfold utf8_rest in refl
lossy_rest-utf8 (suc count) lo hi seen [] h = unfold utf8_rest lead_byte in refl
lossy_rest-utf8 zero lo hi seen (b ∷ bs) h =
    h (lossy_rest 0 0x80 0xbf [] (b ∷ bs))
    ∙ zero_wanted lo hi (lossy_rest 0 0x80 0xbf [] (b ∷ bs))
    ∙ lead_byte-utf8 b bs (λ n l h seen. lossy_rest-utf8 n l h seen bs)
lossy_rest-utf8 (suc count) lo hi seen (b ∷ bs) h = elim (Bool-cases (leb lo b && leb b hi)) [
  | inl e ↦
      rw (e, lossy_rest)
        (lossy_rest-utf8 count 0x80 0xbf (seen ++ (b ∷ [])) bs (Begins-more count lo hi b seen e h))
  | inr e ↦
      rw (e, lossy_rest)
        (replacement_utf8 (lossy_rest 0 0x80 0xbf [] (b ∷ bs))
          ∙ lead_byte-utf8 b bs (λ n l h seen. lossy_rest-utf8 n l h seen bs))
]

-- Whatever the bytes are, the result is UTF-8.
pub from_utf8_lossy-utf8 : (s : List ℕ) → is_utf8 (from_utf8_lossy s) ≡ true
unfolding from_utf8_lossy is_utf8
from_utf8_lossy-utf8 s = lossy_rest-utf8 0 0x80 0xbf [] s (λ rest. refl)
