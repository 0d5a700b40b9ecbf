-- ===== src/Queue/Copies.antt =====
-- `copy_in` and `copy_out_slice` of src/queue.rs for data that fits.
use pg_otel.Prelude.{
  ℕ, zero, suc, ◌+◌, ◌-◌, ◌%◌, ◌<◌, ◌≤◌, ◌≡◌, refl, sym, ap, ◌∙◌, List, [], ◌∷◌, arith, length,
  take, drop, slice, overwrite, length-take, length-drop, length-overwrite, returns, le→ltb, false,
  take-nil, drop-nil, overwrite-nil, ◌==◌,
}
use pg_otel.Queue.{Ring, rem, range, copy_from_slice, copy_in, copy_out_slice}
use pg_otel.Queue.Window.{start-lt, ring_bytes, first_part, two_ranges-eq-ring_bytes}
use pg_otel.Queue.Written.{written}

-- The guards of slice accesses pass for what lies in the slice.
pub rem-returns : (a b : ℕ) → 0 < b → rem a b ≡ returns (a % b)
rem-returns a b h = ground arith

pub range-returns :
    (xs : List ℕ) (i n : ℕ) → i + n ≤ length xs → range xs i n ≡ returns (slice xs i n)
range-returns xs i n h = rw (le→ltb (length xs) (i + n) h)

pub copy_from_slice-returns :
    (xs : List ℕ) (i : ℕ) (src : List ℕ)
    → i + length src ≤ length xs
    → copy_from_slice xs i src ≡ returns (overwrite xs i src)
copy_from_slice-returns xs i src h = rw (le→ltb (length xs) (i + length src) h)

-- What the copies of the code come to, for data that fits.
pub copy_out_slice_lem :
    (r : Ring) (pos n : ℕ)
    → n ≤ length r.cells
    → copy_out_slice r pos n ≡ returns (ring_bytes r.cells pos n)
unfolding copy_out_slice
copy_out_slice_lem r pos zero h = refl
copy_out_slice_lem r pos (suc n) h =
    let start = start-lt r.cells pos (suc n) (omega arith) h in
    let first = first_part r.cells pos (suc n) in
    let some_bytes : (suc n == 0) ≡ false = ground arith in
    rw
      (
        some_bytes,
        rem-returns pos (length r.cells) (omega arith),
        range-returns r.cells (pos % length r.cells) first (omega (arith, start)),
        range-returns r.cells 0 (suc n - first) (omega (arith, start)),
      )
      (ap returns (two_ranges-eq-ring_bytes r.cells pos (suc n) (omega arith) h))

written-nil : (cells : List ℕ) (pos : ℕ) → written cells pos [] ≡ cells
written-nil cells pos =
    ap
      (λ src.
        overwrite (overwrite cells (pos % length cells) (take (first_part cells pos 0) [])) 0 src)
      (drop-nil (first_part cells pos 0))
    ∙ overwrite-nil _ 0
    ∙ ap (λ src. overwrite cells (pos % length cells) src) (take-nil (first_part cells pos 0))
    ∙ overwrite-nil cells (pos % length cells)

pub copy_in_lem :
    (r : Ring) (pos : ℕ) (src : List ℕ)
    → length src ≤ length r.cells
    → copy_in r pos src ≡ returns (record r { cells = written r.cells pos src })
unfolding copy_in
copy_in_lem r pos [] l =
    ap (λ cs. returns (record r { cells = cs })) (sym (written-nil r.cells pos))
copy_in_lem r pos (x ∷ xs) l =
    let src : List ℕ = x ∷ xs in
    let start = start-lt r.cells pos (length src) (omega arith) l in
    let first = first_part r.cells pos (length src) in
    let front = overwrite r.cells (pos % length r.cells) (take first src) in
    let some_src : (length src == 0) ≡ false = ground arith in
    rw (
      some_src,
      rem-returns pos (length r.cells) (omega arith),
      copy_from_slice-returns r.cells (pos % length r.cells) (take first src)
          (omega (arith, start, length-take first src)),
      copy_from_slice-returns front 0 (drop first src) (
          omega (
            arith,
            start,
            length-drop first src,
            length-overwrite r.cells (pos % length r.cells) (take first src),
          )),
    )
