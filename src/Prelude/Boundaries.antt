-- ===== src/Prelude/Boundaries.antt =====
-- Where the characters of a UTF-8 text begin, and the prefixes that end there.
use pg_otel.Prelude.{
  ◌+◌, ℕ, zero, suc, ◌≤◌, ◌<◌, ◌≡◌, refl, sym, ap, subst, ◌∙◌, true, false, List, [], ◌∷◌, length,
  take, get_or, arith, Bool-cases, inl, inr, ◌⊎◌, take-nil,
}
use pg_otel.Prelude.Utf8.{
  Lead, invalid, lead, lead_byte, utf8_rest, is_utf8, is_continuation, is_char_boundary,
}

-- A lead byte wants continuation bytes behind it.
abbrev pub IsInner : Lead → Type 0
IsInner invalid = Unit
IsInner (lead n lo hi) = (0x80 ≤ lo) × (hi < 0xc0)

lead_byte-IsInner : (b : ℕ) → IsInner (lead_byte b)
unfolding lead_byte
lead_byte-IsInner b = ground arith

pub Lead-cases : (l : Lead) → (l ≡ invalid) ⊎ ((n : ℕ) × (lo : ℕ) × (hi : ℕ) × (l ≡ lead n lo hi))
Lead-cases invalid = inl refl
Lead-cases (lead n lo hi) = inr (n, lo, hi, refl)

pub utf8_rest-lead :
    (lo hi x : ℕ) (xs : List ℕ) (n l h : ℕ)
    → lead_byte x ≡ lead n l h
    → utf8_rest 0 lo hi (x ∷ xs) ≡ utf8_rest n l h xs
unfolding utf8_rest
utf8_rest-lead lo hi x xs n l h e = rw (e, utf8_rest)

pub utf8_rest-invalid :
    (lo hi x : ℕ) (xs : List ℕ) → lead_byte x ≡ invalid → utf8_rest 0 lo hi (x ∷ xs) ≡ false
unfolding utf8_rest
utf8_rest-invalid lo hi x xs e = rw (e, utf8_rest)

pub IsInner-of : (x n lo hi : ℕ) → lead_byte x ≡ lead n lo hi → IsInner (lead n lo hi)
IsInner-of x n lo hi e = subst IsInner e (lead_byte-IsInner x)

-- Between bytes of a character there is no boundary.
pub utf8_rest-inner :
    (n lo hi x : ℕ) (xs : List ℕ)
    → 0x80 ≤ lo
    → hi < 0xc0
    → utf8_rest (suc n) lo hi (x ∷ xs) ≡ true
    → (is_continuation x ≡ true) × (utf8_rest n 0x80 0xbf xs ≡ true)
unfolding utf8_rest
utf8_rest-inner n lo hi x xs l h u = ground arith

utf8_rest-inside :
    (n lo hi x : ℕ) (xs ys : List ℕ)
    → utf8_rest (suc n) lo hi (x ∷ xs) ≡ true
    → utf8_rest n 0x80 0xbf ys ≡ true
    → utf8_rest (suc n) lo hi (x ∷ ys) ≡ true
unfolding utf8_rest
utf8_rest-inside n lo hi x xs ys u v = ground arith

-- A prefix of a text that ends at a character boundary is a text.
utf8_rest-take :
    (n lo hi : ℕ) (s : List ℕ) (k : ℕ)
    → 0x80 ≤ lo
    → hi < 0xc0
    → utf8_rest n lo hi s ≡ true
    → ((length s ≤ k) ⊎ (is_continuation (get_or s k 0) ≡ false))
    → utf8_rest n lo hi (take k s) ≡ true
utf8_rest-take n lo hi [] k l h u b = ap (utf8_rest n lo hi) (take-nil k) ∙ u
utf8_rest-take zero lo hi (x ∷ xs) zero l h u b = unfold utf8_rest in refl
utf8_rest-take (suc n) lo hi (x ∷ xs) zero l h u b = elim b [
  | inl f ↦ absurd (omega arith)
  | inr f ↦ let c = (utf8_rest-inner n lo hi x xs l h u).0 in cc
]
utf8_rest-take zero lo hi (x ∷ xs) (suc k) l h u b = elim (Lead-cases (lead_byte x)) [
  | inl e ↦ let bad = utf8_rest-invalid lo hi x xs e in cc
  | inr (n, lo', hi', e) ↦
      let inner = IsInner-of x n lo' hi' e in
      utf8_rest-lead lo hi x (take k xs) n lo' hi' e
      ∙ utf8_rest-take n lo' hi' xs k inner.0 inner.1
          (sym (utf8_rest-lead lo hi x xs n lo' hi' e) ∙ u)
          (elim b [ inl f ↦ inl (omega arith) | inr f ↦ inr f ])
]
utf8_rest-take (suc n) lo hi (x ∷ xs) (suc k) l h u b =
    utf8_rest-inside n lo hi x xs (take k xs) u (
      utf8_rest-take n 0x80 0xbf xs k (omega arith) (omega arith)
        (utf8_rest-inner n lo hi x xs l h u).1
        (elim b [ inl f ↦ inl (omega arith) | inr f ↦ inr f ]))

boundary_test :
    (s : List ℕ) (k : ℕ)
    → is_char_boundary s k ≡ true
    → (k ≡ 0) ⊎ ((length s ≤ k) ⊎ (is_continuation (get_or s k 0) ≡ false))
unfolding is_char_boundary
boundary_test s k h = ground arith

pub is_utf8-take :
    (s : List ℕ) (k : ℕ)
    → is_utf8 s ≡ true
    → is_char_boundary s k ≡ true
    → is_utf8 (take k s) ≡ true
unfolding is_utf8
is_utf8-take s k u b = elim (boundary_test s k b) [
  | inl e ↦ rw e (unfold utf8_rest in refl)
  | inr c ↦ utf8_rest-take 0 0x80 0xbf s k (omega arith) (omega arith) u c
]

lead_byte-invalid : (b : ℕ) → is_continuation b ≡ true → lead_byte b ≡ invalid
unfolding lead_byte
lead_byte-invalid b h = ground arith

-- A continuation byte begins no character.
utf8_rest-start :
    (lo hi y : ℕ) (ys : List ℕ) → utf8_rest 0 lo hi (y ∷ ys) ≡ true → is_continuation y ≡ false
utf8_rest-start lo hi y ys u = elim (Bool-cases (is_continuation y)) [
  | inr e ↦ e
  | inl e ↦ let bad = utf8_rest-invalid lo hi y ys (lead_byte-invalid y e) in cc
]

lead_byte-ascii : (b : ℕ) → b < 0x80 → lead_byte b ≡ lead 0 0x80 0xbf
unfolding lead_byte
lead_byte-ascii b h = ground arith

ascii_inner : (x : ℕ) → x < 0x80 → is_continuation x ≡ false
ascii_inner x h = ground arith

-- An ASCII byte is followed by the start of a character.
utf8_rest-after :
    (n lo hi : ℕ) (s : List ℕ) (k : ℕ)
    → 0x80 ≤ lo
    → hi < 0xc0
    → utf8_rest n lo hi s ≡ true
    → k + 1 < length s
    → get_or s k 0 < 0x80
    → is_continuation (get_or s (suc k) 0) ≡ false
utf8_rest-after n lo hi [] k l h u b a = absurd (omega arith)
utf8_rest-after n lo hi (x ∷ []) k l h u b a = absurd (omega arith)
utf8_rest-after zero lo hi (x ∷ y ∷ ys) zero l h u b a =
    utf8_rest-start 0x80 0xbf y ys
      (sym (utf8_rest-lead lo hi x (y ∷ ys) 0 0x80 0xbf (lead_byte-ascii x a)) ∙ u)
utf8_rest-after (suc n) lo hi (x ∷ y ∷ ys) zero l h u b a =
    let c = (utf8_rest-inner n lo hi x (y ∷ ys) l h u).0 in let d = ascii_inner x a in cc
utf8_rest-after zero lo hi (x ∷ y ∷ ys) (suc k) l h u b a = elim (Lead-cases (lead_byte x)) [
  | inl e ↦ let bad = utf8_rest-invalid lo hi x (y ∷ ys) e in cc
  | inr (n, lo', hi', e) ↦
      let inner = IsInner-of x n lo' hi' e in
      utf8_rest-after n lo' hi' (y ∷ ys) k inner.0 inner.1
        (sym (utf8_rest-lead lo hi x (y ∷ ys) n lo' hi' e) ∙ u) (omega arith) a
]
utf8_rest-after (suc n) lo hi (x ∷ y ∷ ys) (suc k) l h u b a =
    utf8_rest-after n 0x80 0xbf (y ∷ ys) k (omega arith) (omega arith)
      (utf8_rest-inner n lo hi x (y ∷ ys) l h u).1 (omega arith) a

boundary_of :
    (s : List ℕ) (i : ℕ)
    → i < length s
    → is_continuation (get_or s i 0) ≡ false
    → is_char_boundary s i ≡ true
unfolding is_char_boundary
boundary_of s i h c = ground arith

-- Before an ASCII byte, and behind one, a character begins.
pub is_char_boundary-before :
    (s : List ℕ) (i : ℕ) → i < length s → get_or s i 0 < 0x80 → is_char_boundary s i ≡ true
is_char_boundary-before s i h a = boundary_of s i h (ascii_inner (get_or s i 0) a)

pub is_char_boundary-after :
    (s : List ℕ) (i : ℕ)
    → is_utf8 s ≡ true
    → i + 1 < length s
    → get_or s i 0 < 0x80
    → is_char_boundary s (suc i) ≡ true
unfolding is_utf8
is_char_boundary-after s i u h a =
    boundary_of s (suc i) (omega arith)
      (utf8_rest-after 0 0x80 0xbf s i (omega arith) (omega arith) u h a)
