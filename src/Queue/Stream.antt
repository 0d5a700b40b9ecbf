-- ===== src/Queue/Stream.antt =====
-- `records`: the iterator over a byte stream, on well formed and on corrupt input.
use pg_otel.Prelude.{
  ℕ, zero, suc, ◌+◌, ◌<◌, ◌≡◌, ◌≢◌, ◌⊎◌, inl, inr, refl, sym, subst, ap, ap₂, ◌∙◌, List, [], ◌∷◌,
  ◌++◌, arith, length, take, drop, All, All-take, All-behind, length-take, false, ltb, le→ltb,
  lt→ltb, Result, ok, err, Outcome, returns, map, length-append, take-append, drop-append,
  take-append-drop, append_assoc,
}
use pg_otel.Prelude.Bytes.{IsByte, to_le_bytes, from_le_bytes, to_le_bytes-from_le_bytes}
use pg_otel.Queue.{
  Corrupted, Reason, split_record, next_item, records_next, records_loop, records, max_record_bytes,
}
use pg_otel.Queue.Frames.{
  frame, frames, IsPayload, length-frame, length-frames_cons, take-frame, drop-frame, prefix_length,
}
use native.Mathlib.Decide.{dec_lt}

abbrev Item : Type 0
Item = Result (List ℕ) Corrupted

split_record-frame : (p rest : List ℕ) → IsPayload p → split_record (frame p ++ rest) ≡ ok (p, rest)
unfolding split_record
split_record-frame p rest h =
    rw
      (
        le→ltb (length (frame p ++ rest)) 4
            (omega (arith, length-append (frame p) rest, length-frame p)),
        take-frame,
        drop-frame,
        prefix_length p h,
        le→ltb max_record_bytes (length p) h,
        le→ltb (length (p ++ rest)) (length p) (omega (arith, length-append p rest)),
      )
      (ap₂ (λ a b. ok (a, b)) (take-append p rest (length p) refl)
        (drop-append p rest (length p) refl))

-- Splitting fails, or the record that is split off stands at the front of the bytes.
abbrev SplitsOff : List ℕ → Type 0
SplitsOff bytes =
    (p : List ℕ) × (rest : List ℕ) × (split_record bytes ≡ ok (p, rest))
    × IsPayload p
    × (bytes ≡ frame p ++ rest)

split_record-cases :
    (bytes : List ℕ)
    → All IsByte bytes
    → ((e : Corrupted) × (split_record bytes ≡ err e)) ⊎ SplitsOff bytes
unfolding split_record
split_record-cases bytes b = elim (dec_lt (length bytes) 4) [
  | yes short ↦
      inl (record { reason = Reason.truncated_prefix }, rw (lt→ltb (length bytes) 4 short))
  | no enough ↦
      let len : ℕ = from_le_bytes (take 4 bytes) in
      let body : List ℕ = drop 4 bytes in
      let no_cut : ltb (length bytes) 4 ≡ false = le→ltb (length bytes) 4 (omega arith) in
      elim (dec_lt max_record_bytes len) [
        | yes large ↦ inl (
          record { reason = Reason.length_out_of_range },
          rw (no_cut, lt→ltb max_record_bytes len large),
        )
        | no small ↦ elim (dec_lt (length body) len) [
          | yes past ↦ inl (
            record { reason = Reason.length_out_of_range },
            rw (no_cut, le→ltb max_record_bytes len (omega arith), lt→ltb (length body) len past),
          )
          | no inside ↦
              let size : length (take len body) ≡ len = omega (arith, length-take len body) in
              inr (
                take len body,
                drop len body,
                rw (
                  no_cut,
                  le→ltb max_record_bytes len (omega arith),
                  le→ltb (length body) len (omega arith),
                ),
                omega (arith, size),
                sym (take-append-drop 4 bytes)
                    ∙ ap₂ ◌++◌
                        (sym (
                            to_le_bytes-from_le_bytes 4 (take 4 bytes) (All-take IsByte 4 bytes b)
                              (omega (arith, length-take 4 bytes)))
                          ∙ ap (to_le_bytes 4) (sym size))
                        (sym (take-append-drop len body))
                    ∙ sym (append_assoc _ (take len body) (drop len body)),
              )
        ]
      ]
]

records_step-ok :
    (fuel : ℕ) (bytes p rest : List ℕ) (items : List Item)
    → 0 < length bytes
    → split_record bytes ≡ ok (p, rest)
    → records_loop fuel rest ≡ returns items
    → records_loop (suc fuel) bytes ≡ returns (ok p ∷ items)
unfolding records_loop records_next next_item
records_step-ok fuel [] p rest items h e more = absurd (omega arith)
records_step-ok fuel (b ∷ bs) p rest items h e more = rw (e, more)

records_step-err :
    (fuel : ℕ) (bytes : List ℕ) (e : Corrupted)
    → 0 < length bytes
    → 0 < fuel
    → split_record bytes ≡ err e
    → records_loop (suc fuel) bytes ≡ returns (err e ∷ [])
unfolding records_loop records_next next_item
records_step-err fuel [] e h f s = absurd (omega arith)
records_step-err zero (b ∷ bs) e h f s = absurd (omega arith)
records_step-err (suc fuel) (b ∷ bs) e h f s = rw s

frame_pos : (p : List ℕ) (rest : List ℕ) → 0 < length (frame p ++ rest)
frame_pos p rest = omega (arith, length-append (frame p) rest, length-frame p)

records_loop-frames :
    (fuel : ℕ) (ps : List (List ℕ))
    → length (frames ps) < fuel
    → All IsPayload ps
    → records_loop fuel (frames ps) ≡ returns (map ok ps)
records_loop-frames zero ps h a = absurd (omega arith)
records_loop-frames (suc fuel) [] h a = unfold records_loop records_next in refl
records_loop-frames (suc fuel) (p ∷ ps) h a =
    records_step-ok fuel _ p (frames ps) (map ok ps) (frame_pos p (frames ps))
      (split_record-frame p (frames ps) a.0)
      (records_loop-frames fuel ps (omega (arith, length-frames_cons p ps)) a.1)

-- Iterating over the records of a list of payloads within the size limit yields exactly these payloads, in order.
pub records-frames :
    (ps : List (List ℕ)) → All IsPayload ps → records (frames ps) ≡ returns (map ok ps)
unfolding records
records-frames ps a = records_loop-frames (suc (length (frames ps))) ps (omega arith) a

-- Bytes at whose front no record stands.
abbrev pub IsJunk : List ℕ → Type 0
IsJunk bytes = (bytes ≢ []) × ((p rest : List ℕ) → IsPayload p → bytes ≢ frame p ++ rest)

IsJunk-split :
    (bytes : List ℕ) (e : Corrupted) → 0 < length bytes → split_record bytes ≡ err e → IsJunk bytes
IsJunk-split bytes e h s = (
  λ empty. absurd (omega (arith, ap length empty)),
  λ p rest small same.
      let split : split_record bytes ≡ ok (p, rest) =
        ap split_record same ∙ split_record-frame p rest small in
      cc,
)

-- What iterating over any bytes yields: the payloads of the whole records at the front, and one
-- error at the end if bytes that are no record follow them.
pub record Yields (bytes : List ℕ) (items : Outcome (List Item)) : Type 0 where
  pub good : List (List ℕ)
  pub junk : List ℕ
  pub splits : bytes ≡ frames good ++ junk
  pub sized : All IsPayload good
  pub items_lem :
      ((junk ≡ []) × (items ≡ returns (map ok good)))
      ⊎ (IsJunk junk × (e : Corrupted) × (items ≡ returns (map ok good ++ (err e ∷ []))))

Yields-cons :
    (fuel : ℕ) (bytes p rest : List ℕ)
    → 0 < length bytes
    → split_record bytes ≡ ok (p, rest)
    → IsPayload p
    → bytes ≡ frame p ++ rest
    → Yields rest (records_loop fuel rest)
    → Yields bytes (records_loop (suc fuel) bytes)
Yields-cons fuel bytes p rest h s small e y = record {
  good = p ∷ y.good;
  junk = y.junk;
  splits =
      e ∙ ap (λ r. frame p ++ r) y.splits ∙ sym (append_assoc (frame p) (frames y.good) y.junk);
  sized = (small, y.sized);
  items_lem = elim y.items_lem [
    | inl (none_left, i) ↦ inl (none_left, records_step-ok fuel bytes p rest _ h s i)
    | inr (bad, c, i) ↦ inr (bad, c, records_step-ok fuel bytes p rest _ h s i)
  ];
}

records_loop-Yields :
    (fuel : ℕ) (bytes : List ℕ)
    → length bytes < fuel
    → All IsByte bytes
    → Yields bytes (records_loop fuel bytes)
records_loop-Yields zero bytes h b = absurd (omega arith)
records_loop-Yields (suc fuel) [] h b = record {
  good = [];
  junk = [];
  splits = refl;
  sized = tt;
  items_lem = inl (refl, unfold records_loop records_next in refl);
}
records_loop-Yields (suc fuel) (x ∷ xs) h b = elim (split_record-cases (x ∷ xs) b) [
  | inl (e, s) ↦ record {
    good = [];
    junk = x ∷ xs;
    splits = refl;
    sized = tt;
    items_lem = inr (
      IsJunk-split (x ∷ xs) e (omega arith) s,
      e,
      records_step-err fuel (x ∷ xs) e (omega arith) (omega arith) s,
    );
  }
  | inr (p, rest, s, small, e) ↦
      let shorter : length (x ∷ xs) ≡ length (frame p) + length rest =
        ap length e ∙ length-append (frame p) rest in
      Yields-cons fuel (x ∷ xs) p rest (omega arith) s small e (
        records_loop-Yields fuel rest (omega (arith, shorter, length-frame p))
          (All-behind IsByte (frame p) rest (subst (All IsByte) e b)))
]

-- Iterating over any bytes ends. It yields the payloads of the whole records at the front of the
-- bytes, in order; if other bytes follow them, at whose front no record stands, one error comes last.
pub records_total : (bytes : List ℕ) → All IsByte bytes → Yields bytes (records bytes)
unfolding records
records_total bytes b = records_loop-Yields (suc (length bytes)) bytes (omega arith) b
