-- ===== src/Queue/Written.antt =====
-- The ring's slice after a copy into it, seen through its windows.
use pg_otel.Prelude.{
  ℕ, zero, suc, ◌+◌, ◌-◌, ◌%◌, ◌<◌, ◌≤◌, ◌≡◌, refl, sym, ap, ◌∙◌, List, [], ◌∷◌, arith, length,
  take, drop, get_or, overwrite, length-take, length-drop, length-overwrite, get_or-take,
  get_or-drop, list_ext, get_or-overwrite_before, get_or-overwrite_inside, get_or-overwrite_after,
}
use native.Mathlib.Decide.{dec_lt}
use native.Mathlib.Nat.{mod-lt, add-mod_right}
use pg_otel.Queue.Window.{
  ring_bytes, length-ring_bytes, get_or-ring_bytes, index_before, index_behind, first_part,
}

-- The slice after a copy in.
abbrev pub written : List ℕ → ℕ → List ℕ → List ℕ
written cells pos src =
    let first = first_part cells pos (length src) in
    overwrite (overwrite cells (pos % length cells) (take first src)) 0 (drop first src)

pub length-written :
    (cells : List ℕ) (pos : ℕ) (src : List ℕ) → length (written cells pos src) ≡ length cells
length-written cells pos src =
    length-overwrite
      (overwrite cells (pos % length cells) (take (first_part cells pos (length src)) src)) 0 _
    ∙ length-overwrite cells _ _

module _ (cells : List ℕ) (pos : ℕ) (src : List ℕ) (some_bytes : 0 < length cells)
    (fits : length src ≤ length cells) where
  inside-lt : pos % length cells < length cells
  inside-lt = mod-lt pos some_bytes

  part : ℕ
  part = first_part cells pos (length src)

  front : List ℕ
  unfolding part
  front = overwrite cells (pos % length cells) (take part src)

  ruleset sizes = (arith, inside-lt, length-take, length-drop, length-overwrite)

  written-at_new :
      (k : ℕ)
      → k < length src
      → get_or (written cells pos src) ((pos + k) % length cells) 0 ≡ get_or src k 0
  unfolding front
  written-at_new k h = elim (dec_lt (pos % length cells + k) (length cells)) [
    | yes before ↦
        ap (λ j. get_or (written cells pos src) j 0) (index_before (length cells) pos k before)
        ∙ get_or-overwrite_after front 0 (drop part src) _ 0
            (omega (arith, inside-lt, length-drop part src))
        ∙ get_or-overwrite_inside cells _ (take part src) k _ 0 refl before
            (omega (arith, length-take part src))
        ∙ get_or-take part src k 0 (omega arith)
    | no behind ↦
        ap (λ j. get_or (written cells pos src) j 0)
          (index_behind (length cells) pos k (omega arith) (omega arith))
        ∙ get_or-overwrite_inside front 0 (drop part src) (k - part) _ 0 (omega (arith, inside-lt))
            (omega (arith, inside-lt, length-overwrite cells (pos % length cells) (take part src)))
            (omega (arith, inside-lt, length-drop part src))
        ∙ get_or-drop part src (k - part) 0
        ∙ ap (λ j. get_or src j 0) (omega (arith, inside-lt))
  ]

  written-at_old :
      (k : ℕ)
      → length src ≤ k
      → k < length cells
      → get_or (written cells pos src) ((pos + k) % length cells) 0
        ≡ get_or cells ((pos + k) % length cells) 0
  unfolding front
  written-at_old k h l = elim (dec_lt (pos % length cells + k) (length cells)) [
    | yes before ↦ rw (index_before (length cells) pos k before) (
        get_or-overwrite_after front 0 (drop part src) _ 0
          (omega (arith, inside-lt, length-drop part src))
        ∙ get_or-overwrite_after cells _ (take part src) _ 0
            (omega (arith, inside-lt, length-take part src)))
    | no behind ↦ rw (index_behind (length cells) pos k (omega arith) l) (
        get_or-overwrite_after front 0 (drop part src) _ 0
          (omega (arith, inside-lt, length-drop part src))
        ∙ get_or-overwrite_before cells _ (take part src) _ 0 (omega (arith, inside-lt)))
  ]

  written_new_some : ring_bytes (written cells pos src) pos (length src) ≡ src
  written_new_some = list_ext _ src 0 (length-ring_bytes _ pos (length src)) (λ k h.
      let l : k < length src =
        omega (arith, length-ring_bytes (written cells pos src) pos (length src)) in
      get_or-ring_bytes (written cells pos src) pos (length src) k l
      ∙ ap (λ c. get_or (written cells pos src) ((pos + k) % c) 0) (length-written cells pos src)
      ∙ written-at_new k l)

  written_old_some :
      (head n : ℕ)
      → head + n ≡ pos
      → n + length src ≤ length cells
      → ring_bytes (written cells pos src) head n ≡ ring_bytes cells head n
  written_old_some head n e f =
      list_ext _ _ 0
        (omega
          (arith, length-ring_bytes (written cells pos src) head n, length-ring_bytes cells head n))
        (λ k h.
          let l : k < n = omega (arith, length-ring_bytes (written cells pos src) head n) in
          let round : (head + k) % length cells ≡ (pos + (k + length cells - n)) % length cells =
            sym (add-mod_right (head + k) (length cells))
            ∙ ap (λ j. j % length cells) (omega arith) in
          get_or-ring_bytes (written cells pos src) head n k l
          ∙ ap (λ c. get_or (written cells pos src) ((head + k) % c) 0)
              (length-written cells pos src)
          ∙ ap (λ j. get_or (written cells pos src) j 0) round
          ∙ written-at_old (k + length cells - n) (omega arith) (omega arith)
          ∙ ap (λ j. get_or cells j 0) (sym round)
          ∙ sym (get_or-ring_bytes cells head n k l))

-- The window at `pos` then holds the source.
pub ring_bytes-written_new :
    (cells : List ℕ) (pos : ℕ) (src : List ℕ)
    → length src ≤ length cells
    → ring_bytes (written cells pos src) pos (length src) ≡ src
ring_bytes-written_new [] pos [] h = refl
ring_bytes-written_new [] pos (x ∷ xs) h = absurd (omega arith)
ring_bytes-written_new (c ∷ cs) pos src h = written_new_some (c ∷ cs) pos src (omega arith) h

-- A window that ends at `pos` is kept, if it and the source fit in the slice together.
pub ring_bytes-written_old :
    (cells : List ℕ) (pos : ℕ) (src : List ℕ) (head n : ℕ)
    → head + n ≡ pos
    → n + length src ≤ length cells
    → ring_bytes (written cells pos src) head n ≡ ring_bytes cells head n
ring_bytes-written_old [] pos src head zero e h = refl
ring_bytes-written_old [] pos src head (suc n) e h = absurd (omega arith)
ring_bytes-written_old (c ∷ cs) pos src head n e h =
    written_old_some (c ∷ cs) pos src (omega arith) (omega arith) head n e h
