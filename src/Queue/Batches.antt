-- ===== src/Queue/Batches.antt =====
-- `Batch::push_record`: a batch carries the payloads pushed to it, and drops one that is too large.
use pg_otel.Prelude.{
  ℕ, ◌+◌, ◌-◌, ◌%◌, ◌^◌, ◌<◌, ◌≤◌, ◌≡◌, refl, sym, ap, ap₂, ◌∙◌, List, [], ◌∷◌, ◌++◌, arith, length,
  take, replicate, All-append, overwrite, overwrite-append, le→ltb, lt→ltb, Result, ok, err,
  length-append, take-append, append_assoc, append-nil,
}
use pg_otel.Prelude.Bytes.{to_le_bytes, length-to_le_bytes}
use pg_otel.Queue.{Batch, RecordTooLarge, push_record, max_record_bytes, batch_new}
use pg_otel.Queue.Frames.{frame, frames-append, IsPayload, Carries}
use native.Mathlib.Decide.{dec_lt}

-- A closure that only appends `payload`.
abbrev pub Appends : (List ℕ → List ℕ) → List ℕ → Type 0
Appends write payload = (bytes : List ℕ) → write bytes ≡ bytes ++ payload

-- What pushing `payload` does to a batch that carries `ps`.
abbrev pub RecordResult :
    Batch → List (List ℕ) → List ℕ → Batch × Result (Unit {0}) RecordTooLarge → Type 0
RecordResult b ps payload (b', ok u) = IsPayload payload × Carries b' (ps ++ (payload ∷ []))
RecordResult b ps payload (b', err e) =
    (max_record_bytes < length payload) × (b' ≡ b) × (e ≡ record { len = length payload })

pub batch_new-Carries : Carries batch_new []
batch_new-Carries = record { encoded = refl; number = refl; sized = tt }

module _ (b : Batch) (write : List ℕ → List ℕ) (payload : List ℕ)
    (appends : Appends write payload) where
  zeros : List ℕ
  zeros = replicate 4 0

  written_lem : write (b.bytes ++ replicate 4 0) ≡ b.bytes ++ (replicate 4 0 ++ payload)
  written_lem = appends (b.bytes ++ replicate 4 0) ∙ append_assoc b.bytes (replicate 4 0) payload

  measured : length (write (b.bytes ++ replicate 4 0)) - length b.bytes - 4 ≡ length payload
  measured = omega (arith, ap length written_lem, length-append b.bytes (replicate 4 0 ++ payload))

  pub push_record-large :
      max_record_bytes < length payload
      → push_record b write ≡ (b, err (record { len = length payload }))
  unfolding push_record
  push_record-large h =
      rw (measured, lt→ltb max_record_bytes (length payload) h)
        (ap (λ bytes. (record b { bytes = bytes }, err (record { len = length payload })))
          (ap (take (length b.bytes)) written_lem ∙ take-append b.bytes _ (length b.bytes) refl))

  pub push_record-fits :
      length payload ≤ max_record_bytes
      → push_record b write
        ≡ (record { bytes = b.bytes ++ frame payload; records = b.records + 1 }, ok tt)
  unfolding push_record
  push_record-fits h =
      let whole : length payload % 2 ^ 32 ≡ length payload = omega arith in
      rw (measured, le→ltb max_record_bytes (length payload) h, whole)
        (ap (λ bytes. (record { bytes = bytes; records = b.records + 1 }, ok tt))
          (ap (λ bytes. overwrite bytes (length b.bytes) (to_le_bytes 4 (length payload)))
              written_lem
            ∙ overwrite-append b.bytes (replicate 4 0) (to_le_bytes 4 (length payload)) payload
                (length b.bytes) refl (length-to_le_bytes 4 (length payload))))

-- Pushing a record to a batch that carries `ps`: a payload within the limit is appended to them,
-- and a larger one is refused with its length, the batch unchanged.
pub push_record_refines :
    (b : Batch) (write : List ℕ → List ℕ) (ps : List (List ℕ)) (payload : List ℕ)
    → Carries b ps
    → Appends write payload
    → RecordResult b ps payload (push_record b write)
push_record_refines b write ps payload c a = elim (dec_lt max_record_bytes (length payload)) [
  | yes large ↦ rw (push_record-large b write payload a large) (large, refl, refl)
  | no small ↦ rw (push_record-fits b write payload a (omega arith)) (
    omega arith,
    record {
      encoded =
          ap₂ ◌++◌ c.encoded (sym (append-nil (frame payload)))
          ∙ sym (frames-append ps (payload ∷ []));
      number = omega (arith, c.number, length-append ps (payload ∷ []));
      sized = All-append IsPayload ps (payload ∷ []) c.sized (omega arith);
    },
  )
]
