-- ===== src/Queue/Budget.antt =====
-- Which records a drain takes under its budget of bytes.
use pg_otel.Prelude.{
  ℕ, ◌+◌, ◌<◌, ◌≤◌, ◌≡◌, ◌≢◌, ◌⊎◌, inl, inr, refl, ap, ◌&&◌, List, [], ◌∷◌, ◌++◌, arith, length,
  ltb, if◌then◌else◌, Bool-cases,
}
use pg_otel.Queue.Frames.{frame, frames, length-frame, length-frames_cons}

-- What a drain with this budget takes from a queue: the first payload, and then as many more as
-- keep the total within the budget.
pub record Takes (max_bytes : ℕ) (payloads taken left : List (List ℕ)) : Type 0 where
  pub split : payloads ≡ taken ++ left
  pub progress : payloads ≢ [] → 0 < length taken
  pub budget : (length taken ≤ 1) ⊎ (length (frames taken) ≤ max_bytes)
  pub greedy :
      (p : List ℕ) (ps : List (List ℕ))
      → left ≡ p ∷ ps
      → 0 < length taken
      → max_bytes < length (frames taken) + length (frame p)

-- The loop's own choice, from `bytes` bytes and `records` records taken.
unfoldable pub chosen :
    (max_bytes bytes records : ℕ) → List (List ℕ) → List (List ℕ) × List (List ℕ)
chosen max_bytes bytes records [] = ([], [])
chosen max_bytes bytes records (p ∷ ps) =
    let (taken, left) = chosen max_bytes (bytes + (4 + length p)) (records + 1) ps in
    if ltb 0 records && ltb max_bytes (bytes + (4 + length p))
    then ([], p ∷ ps)
    else (p ∷ taken, left)

pub chosen-split :
    (max_bytes bytes records : ℕ) (ps : List (List ℕ))
    → let (taken, left) = chosen max_bytes bytes records ps in ps ≡ taken ++ left
unfolding chosen
chosen-split max_bytes bytes records [] = refl
chosen-split max_bytes bytes records (p ∷ ps) =
    elim (Bool-cases (ltb 0 records && ltb max_bytes (bytes + (4 + length p)))) [
      | inl stop ↦ rw stop
      | inr go ↦
          rw go (ap (◌∷◌ p) (chosen-split max_bytes (bytes + (4 + length p)) (records + 1) ps))
    ]

frames-none : (ps : List (List ℕ)) → length ps ≡ 0 → length (frames ps) ≡ 0
frames-none [] e = refl
frames-none (p ∷ ps) e = absurd (omega arith)

chosen-budget :
    (max_bytes bytes records : ℕ) (ps : List (List ℕ))
    → 0 < records
    → let (taken, left) = chosen max_bytes bytes records ps in
      (length taken ≡ 0) ⊎ (bytes + length (frames taken) ≤ max_bytes)
unfolding chosen
chosen-budget max_bytes bytes records [] h = inl refl
chosen-budget max_bytes bytes records (p ∷ ps) h =
    let taken = (chosen max_bytes (bytes + (4 + length p)) (records + 1) ps).0 in
    ground (
      arith,
      chosen-budget max_bytes (bytes + (4 + length p)) (records + 1) ps,
      length-frames_cons p taken,
      frames-none taken,
    )

chosen-greedy :
    (max_bytes bytes records : ℕ) (ps : List (List ℕ)) (q : List ℕ) (qs : List (List ℕ))
    → let (taken, left) = chosen max_bytes bytes records ps in
      left ≡ q ∷ qs
      → 0 < records + length taken
      → max_bytes < bytes + length (frames taken) + length (frame q)
unfolding chosen
chosen-greedy max_bytes bytes records [] q qs e h = cc
chosen-greedy max_bytes bytes records (p ∷ ps) q qs e h =
    let taken = (chosen max_bytes (bytes + (4 + length p)) (records + 1) ps).0 in
    ground (
      arith,
      chosen-greedy max_bytes (bytes + (4 + length p)) (records + 1) ps q qs,
      length-frames_cons p taken,
      length-frame p,
      length-frame q,
    )

pub chosen-Takes :
    (max_bytes : ℕ) (ps : List (List ℕ))
    → let (taken, left) = chosen max_bytes 0 0 ps in Takes max_bytes ps taken left
unfolding chosen
chosen-Takes max_bytes [] = record {
  split = refl;
  progress = λ h. absurd (h refl);
  budget = inl (omega arith);
  greedy = λ p ps e. cc;
}
chosen-Takes max_bytes (p ∷ ps) = record {
  split = ap (◌∷◌ p) (chosen-split max_bytes (0 + (4 + length p)) (0 + 1) ps);
  progress = λ _. omega arith;
  budget = omega (
    arith,
    chosen-budget max_bytes (0 + (4 + length p)) (0 + 1) ps (omega arith),
    length-frames_cons p (chosen max_bytes (0 + (4 + length p)) (0 + 1) ps).0,
  );
  greedy = λ q qs e h. omega (
    arith,
    chosen-greedy max_bytes (0 + (4 + length p)) (0 + 1) ps q qs e (omega arith),
    length-frames_cons p (chosen max_bytes (0 + (4 + length p)) (0 + 1) ps).0,
  );
}
