-- ===== src/Queue/Frames.antt =====
-- The queue as its clients see it: a list of payloads, and the bytes that carry them.
use pg_otel.Prelude.{
  ℕ, ◌+◌, ◌≤◌, ◌≡◌, refl, sym, ap, ◌∙◌, List, [], ◌∷◌, ◌++◌, arith, length, take, drop, All,
  length-append, take-append, drop-append, append_assoc,
}
use pg_otel.Prelude.Bytes.{
  to_le_bytes, from_le_bytes, length-to_le_bytes, from_le_bytes-to_le_bytes,
}
use pg_otel.Queue.{max_record_bytes, Batch}

-- A payload that the queue accepts.
abbrev pub IsPayload : List ℕ → Type 0
IsPayload p = length p ≤ max_record_bytes

-- One record, and the records of a list of payloads back to back.
abbrev pub frame : List ℕ → List ℕ
frame p = to_le_bytes 4 (length p) ++ p

abbrev pub frames : List (List ℕ) → List ℕ
frames [] = []
frames (p ∷ ps) = frame p ++ frames ps

pub length-frame : (p : List ℕ) → length (frame p) ≡ 4 + length p
length-frame p =
    omega (arith, length-append (to_le_bytes 4 (length p)) p, length-to_le_bytes 4 (length p))

pub length-frames_cons :
    (p : List ℕ) (ps : List (List ℕ)) → length (frames (p ∷ ps)) ≡ 4 + length p + length (frames ps)
length-frames_cons p ps = omega (arith, length-append (frame p) (frames ps), length-frame p)

pub frames-append : (ps qs : List (List ℕ)) → frames (ps ++ qs) ≡ frames ps ++ frames qs
frames-append [] qs = refl
frames-append (p ∷ ps) qs =
    ap (λ xs. frame p ++ xs) (frames-append ps qs)
    ∙ sym (append_assoc (frame p) (frames ps) (frames qs))

-- The prefix of a record, the payload, and what follows.
pub frames-split :
    (p : List ℕ) (rest : List ℕ) → frame p ++ rest ≡ to_le_bytes 4 (length p) ++ (p ++ rest)
frames-split p rest = append_assoc (to_le_bytes 4 (length p)) p rest

pub take-frame : (p : List ℕ) (rest : List ℕ) → take 4 (frame p ++ rest) ≡ to_le_bytes 4 (length p)
take-frame p rest =
    ap (take 4) (frames-split p rest)
    ∙ take-append _ (p ++ rest) 4 (sym (length-to_le_bytes 4 (length p)))

pub drop-frame : (p : List ℕ) (rest : List ℕ) → drop 4 (frame p ++ rest) ≡ p ++ rest
drop-frame p rest =
    ap (drop 4) (frames-split p rest)
    ∙ drop-append _ (p ++ rest) 4 (sym (length-to_le_bytes 4 (length p)))

-- The length that a reader finds in the prefix.
pub prefix_length : (p : List ℕ) → IsPayload p → from_le_bytes (to_le_bytes 4 (length p)) ≡ length p
prefix_length p h = from_le_bytes-to_le_bytes 4 (length p) (omega arith)

-- A batch that carries these payloads.
pub record Carries (b : Batch) (payloads : List (List ℕ)) : Type 0 where
  pub encoded : b.bytes ≡ frames payloads
  pub number : b.records ≡ length payloads
  pub sized : All IsPayload payloads
