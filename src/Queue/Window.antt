-- ===== src/Queue/Window.antt =====
-- The window of bytes that lies round the end of the ring's slice.
use pg_otel.Prelude.{
  ℕ, zero, suc, ◌+◌, ◌-◌, ◌%◌, ◌<◌, ◌≤◌, ◌≡◌, refl, sym, ap, ◌∙◌, List, [], ◌∷◌, ◌++◌, arith,
  length, take, drop, get_or, slice, length-slice, get_or-slice, min, length-append, take-append,
  drop-append, get_or-append_lt, get_or-append_le, list_ext,
}
use native.Mathlib.Decide.{dec_lt}
use native.Mathlib.Nat.{mod-add-mod, mod-eq_of_lt, mod-eq-sub-mod, mod-lt}

-- The `n` bytes from the counter `pos` on, going round at the capacity.
abbrev pub ring_bytes : List ℕ → ℕ → ℕ → List ℕ
ring_bytes cells pos zero = []
ring_bytes cells pos (suc n) = get_or cells (pos % length cells) 0 ∷ ring_bytes cells (pos + 1) n

pub length-ring_bytes : (cells : List ℕ) (pos n : ℕ) → length (ring_bytes cells pos n) ≡ n
length-ring_bytes cells pos zero = refl
length-ring_bytes cells pos (suc n) = ap suc (length-ring_bytes cells (pos + 1) n)

pub get_or-ring_bytes :
    (cells : List ℕ) (pos n k : ℕ)
    → k < n
    → get_or (ring_bytes cells pos n) k 0 ≡ get_or cells ((pos + k) % length cells) 0
get_or-ring_bytes cells pos zero k h = absurd (omega arith)
get_or-ring_bytes cells pos (suc n) zero h =
    ap (λ j. get_or cells (j % length cells) 0) (omega arith)
get_or-ring_bytes cells pos (suc n) (suc k) h =
    get_or-ring_bytes cells (pos + 1) n k (omega arith)
    ∙ ap (λ j. get_or cells (j % length cells) 0) (omega arith)

pub ring_bytes-split :
    (cells : List ℕ) (pos a b : ℕ)
    → ring_bytes cells pos (a + b) ≡ ring_bytes cells pos a ++ ring_bytes cells (pos + a) b
ring_bytes-split cells pos zero b =
    let e : pos + 0 ≡ pos = omega arith in let f : 0 + b ≡ b = omega arith in rw (e, f)
ring_bytes-split cells pos (suc a) b =
    let e : pos + suc a ≡ pos + 1 + a = omega arith in
    let f : suc a + b ≡ suc (a + b) = omega arith in
    rw (e, f)
      (ap (◌∷◌ (get_or cells (pos % length cells) 0)) (ring_bytes-split cells (pos + 1) a b))

-- A window that reads as two parts is the window of each.
pub ring_bytes-cut :
    (cells : List ℕ) (pos a b : ℕ) (xs ys : List ℕ)
    → length xs ≡ a
    → ring_bytes cells pos (a + b) ≡ xs ++ ys
    → (ring_bytes cells pos a ≡ xs) × (ring_bytes cells (pos + a) b ≡ ys)
ring_bytes-cut cells pos a b xs ys l e =
    let halves : ring_bytes cells pos a ++ ring_bytes cells (pos + a) b ≡ xs ++ ys =
      sym (ring_bytes-split cells pos a b) ∙ e in
    (
      sym (take-append (ring_bytes cells pos a) _ a (sym (length-ring_bytes cells pos a)))
          ∙ ap (take a) halves
          ∙ take-append xs ys a (sym l),
      sym (drop-append (ring_bytes cells pos a) _ a (sym (length-ring_bytes cells pos a)))
          ∙ ap (drop a) halves
          ∙ drop-append xs ys a (sym l),
    )

-- The index of the `k`th byte of a window, before and behind the end of the slice.
pub index_before : (cap pos k : ℕ) → pos % cap + k < cap → (pos + k) % cap ≡ pos % cap + k
index_before cap pos k h = sym (mod-add-mod pos cap k) ∙ mod-eq_of_lt h

pub index_behind :
    (cap pos k : ℕ) → cap ≤ pos % cap + k → k < cap → (pos + k) % cap ≡ pos % cap + k - cap
index_behind cap pos k h l =
    sym (mod-add-mod pos cap k)
    ∙ mod-eq-sub-mod h
    ∙ mod-eq_of_lt (omega (arith, mod-lt pos {m = cap} (omega arith)))

-- How many of `n` bytes lie before the end of the slice, when the first is at `pos`.
abbrev pub first_part : List ℕ → ℕ → ℕ → ℕ
first_part cells pos n = min n (length cells - pos % length cells)

-- The two ranges that a copy out reads.
abbrev pub two_ranges : List ℕ → ℕ → ℕ → List ℕ
two_ranges cells pos n =
    slice cells (pos % length cells) (first_part cells pos n)
    ++ slice cells 0 (n - first_part cells pos n)

module _ (cells : List ℕ) (pos n : ℕ) (some_bytes : 0 < n) (fits : n ≤ length cells) where
  pub start-lt : pos % length cells < length cells
  start-lt = mod-lt pos (omega arith)

  front_length :
      length (slice cells (pos % length cells) (first_part cells pos n)) ≡ first_part cells pos n
  front_length =
      length-slice cells (pos % length cells) (first_part cells pos n) (omega (arith, start-lt))

  length-two_ranges : length (two_ranges cells pos n) ≡ n
  length-two_ranges = omega (
    arith,
    length-append (slice cells (pos % length cells) (first_part cells pos n))
        (slice cells 0 (n - first_part cells pos n)),
    front_length,
    length-slice cells 0 (n - first_part cells pos n) (omega (arith, start-lt)),
  )

  two_ranges-at :
      (k : ℕ)
      → k < n
      → get_or (two_ranges cells pos n) k 0 ≡ get_or cells ((pos + k) % length cells) 0
  two_ranges-at k h = elim (dec_lt k (first_part cells pos n)) [
    | yes front ↦
        get_or-append_lt (slice cells (pos % length cells) (first_part cells pos n)) _ k 0
          (omega (arith, front_length))
        ∙ get_or-slice cells (pos % length cells) (first_part cells pos n) k 0 front
        ∙ ap (λ j. get_or cells j 0)
            (sym (index_before (length cells) pos k (omega (arith, start-lt))))
    | no back ↦
        get_or-append_le (slice cells (pos % length cells) (first_part cells pos n)) _ k 0
          (omega (arith, front_length))
        ∙ get_or-slice cells 0 (n - first_part cells pos n)
            (k - length (slice cells (pos % length cells) (first_part cells pos n))) 0
            (omega (arith, front_length))
        ∙ ap (λ j. get_or cells j 0)
            (omega (
              arith,
              front_length,
              start-lt,
              index_behind (length cells) pos k (omega (arith, start-lt)) (omega arith),
            ))
  ]

  pub two_ranges-eq-ring_bytes : two_ranges cells pos n ≡ ring_bytes cells pos n
  two_ranges-eq-ring_bytes =
      list_ext _ _ 0 (omega (arith, length-two_ranges, length-ring_bytes cells pos n)) (λ k h.
        two_ranges-at k (omega (arith, length-two_ranges))
        ∙ sym (get_or-ring_bytes cells pos n k (omega (arith, length-two_ranges))))
