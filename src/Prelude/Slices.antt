-- ===== src/Prelude/Slices.antt =====
-- Rust's slice operations on byte lists: a range read, and `copy_from_slice` into a range.
use Prim.Native.Nat.{ℕ, zero, suc, ◌+◌, ◌<◌, ◌≤◌}
use mathlib.Core.Path.{◌≡◌, refl, ap, ◌∙◌}
use mathlib.Core.List.{List, [], ◌∷◌, ◌++◌}
use native.Mathlib.Omega.{arith}
use pg_otel.Prelude.Lists.{
  length, get_or, take, drop, length-take, length-drop, get_or-take, get_or-drop,
}

module _ {ℓ} {A : Type ℓ} where
  -- `xs[i..i + n]`, for a range inside the slice.
  abbrev pub slice : List A → ℕ → ℕ → List A
  slice xs i n = take n (drop i xs)

  -- `xs[i..i + src.len()].copy_from_slice(src)`, for a range inside the slice.
  abbrev pub overwrite : List A → ℕ → List A → List A
  overwrite [] i src = []
  overwrite (x ∷ xs) (suc i) src = x ∷ overwrite xs i src
  overwrite (x ∷ xs) zero [] = x ∷ xs
  overwrite (x ∷ xs) zero (y ∷ src) = y ∷ overwrite xs zero src

  pub length-slice : (xs : List A) (i n : ℕ) → i + n ≤ length xs → length (slice xs i n) ≡ n
  length-slice xs i n h = omega (arith, length-take n (drop i xs), length-drop i xs)

  pub get_or-slice :
      (xs : List A) (i n k : ℕ) (d : A) → k < n → get_or (slice xs i n) k d ≡ get_or xs (i + k) d
  get_or-slice xs i n k d h = get_or-take n (drop i xs) k d h ∙ get_or-drop i xs k d

  pub overwrite-nil : (xs : List A) (i : ℕ) → overwrite xs i [] ≡ xs
  overwrite-nil [] i = refl
  overwrite-nil (x ∷ xs) zero = refl
  overwrite-nil (x ∷ xs) (suc i) = ap (◌∷◌ x) (overwrite-nil xs i)

  pub take-nil : (n : ℕ) → take {A = A} n [] ≡ []
  take-nil zero = refl
  take-nil (suc n) = refl

  pub drop-nil : (n : ℕ) → drop {A = A} n [] ≡ []
  drop-nil zero = refl
  drop-nil (suc n) = refl

  pub length-overwrite :
      (xs : List A) (i : ℕ) (src : List A) → length (overwrite xs i src) ≡ length xs
  length-overwrite [] i src = refl
  length-overwrite (x ∷ xs) (suc i) src = ap suc (length-overwrite xs i src)
  length-overwrite (x ∷ xs) zero [] = refl
  length-overwrite (x ∷ xs) zero (y ∷ src) = ap suc (length-overwrite xs zero src)

  pub get_or-overwrite_before :
      (xs : List A) (i : ℕ) (src : List A) (k : ℕ) (d : A)
      → k < i
      → get_or (overwrite xs i src) k d ≡ get_or xs k d
  get_or-overwrite_before [] i src k d h = refl
  get_or-overwrite_before (x ∷ xs) zero src k d h = absurd (omega arith)
  get_or-overwrite_before (x ∷ xs) (suc i) src zero d h = refl
  get_or-overwrite_before (x ∷ xs) (suc i) src (suc k) d h =
      get_or-overwrite_before xs i src k d (omega arith)

  pub get_or-overwrite_inside :
      (xs : List A) (i : ℕ) (src : List A) (k j : ℕ) (d : A)
      → j ≡ i + k
      → j < length xs
      → k < length src
      → get_or (overwrite xs i src) j d ≡ get_or src k d
  get_or-overwrite_inside [] i src k j d e h l = absurd (omega arith)
  get_or-overwrite_inside (x ∷ xs) (suc i) src k zero d e h l = absurd (omega arith)
  get_or-overwrite_inside (x ∷ xs) (suc i) src k (suc j) d e h l =
      get_or-overwrite_inside xs i src k j d (omega arith) (omega arith) l
  get_or-overwrite_inside (x ∷ xs) zero [] k j d e h l = absurd (omega arith)
  get_or-overwrite_inside (x ∷ xs) zero (y ∷ src) zero zero d e h l = refl
  get_or-overwrite_inside (x ∷ xs) zero (y ∷ src) zero (suc j) d e h l = absurd (omega arith)
  get_or-overwrite_inside (x ∷ xs) zero (y ∷ src) (suc k) zero d e h l = absurd (omega arith)
  get_or-overwrite_inside (x ∷ xs) zero (y ∷ src) (suc k) (suc j) d e h l =
      get_or-overwrite_inside xs zero src k j d (omega arith) (omega arith) (omega arith)

  pub get_or-overwrite_after :
      (xs : List A) (i : ℕ) (src : List A) (k : ℕ) (d : A)
      → i + length src ≤ k
      → get_or (overwrite xs i src) k d ≡ get_or xs k d
  get_or-overwrite_after [] i src k d h = refl
  get_or-overwrite_after (x ∷ xs) (suc i) src zero d h = absurd (omega arith)
  get_or-overwrite_after (x ∷ xs) (suc i) src (suc k) d h =
      get_or-overwrite_after xs i src k d (omega arith)
  get_or-overwrite_after (x ∷ xs) zero [] k d h = refl
  get_or-overwrite_after (x ∷ xs) zero (y ∷ src) zero d h = absurd (omega arith)
  get_or-overwrite_after (x ∷ xs) zero (y ∷ src) (suc k) d h =
      get_or-overwrite_after xs zero src k d (omega arith)

  -- Writing just behind a prefix replaces what stood there.
  pub overwrite-append :
      (xs ys src zs : List A) (i : ℕ)
      → i ≡ length xs
      → length src ≡ length ys
      → overwrite (xs ++ (ys ++ zs)) i src ≡ xs ++ (src ++ zs)
  overwrite-append (x ∷ xs) ys src zs zero e l = absurd (omega arith)
  overwrite-append (x ∷ xs) ys src zs (suc i) e l =
      ap (◌∷◌ x) (overwrite-append xs ys src zs i (omega arith) l)
  overwrite-append [] ys src zs (suc i) e l = absurd (omega arith)
  overwrite-append [] [] [] zs zero e l = overwrite-nil zs zero
  overwrite-append [] [] (s ∷ src) zs zero e l = absurd (omega arith)
  overwrite-append [] (y ∷ ys) [] zs zero e l = absurd (omega arith)
  overwrite-append [] (y ∷ ys) (s ∷ src) zs zero e l =
      ap (◌∷◌ s) (overwrite-append [] ys src zs zero refl (omega arith))
