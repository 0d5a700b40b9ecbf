-- ===== src/Codec/Stream.antt =====
-- `encode_batch` and `decode_records`: a batch of spans, and the stream of records that it becomes.
use pg_otel.Prelude.{
  ℕ, ◌+◌, ◌≡◌, refl, sym, ap, ◌∙◌, List, [], ◌∷◌, ◌++◌, map, length, All, leb, le→leb, lt→leb,
  subst, if◌then◌else◌, Bool-cases, inl, inr, Result, ok, err, returns, arith, append_assoc,
  append-nil, some,
}
use pg_otel.Queue.{Batch, RecordTooLarge, push_record, batch_new, max_record_bytes}
use pg_otel.Queue.Frames.{frames, IsPayload, Carries}
use pg_otel.Queue.Batches.{RecordResult, batch_new-Carries, push_record_refines}
use pg_otel.Queue.Stream.{records-frames}
use pg_otel.Span.{SpanRecord}
use pg_otel.Codec.Encode.{encode_span, encode_loop, encode_batch, is_err}
use pg_otel.Codec.Decode.{
  decode_span, decoded, decode_item, decode_items, after_items, decode_records,
}
use pg_otel.Codec.RoundTrip.{
  IsSpan, clamp_span, span_bytes, encode_span-bytes, decode_span-encode_span,
}

-- The spans whose encoding fits in a record of the queue.
abbrev pub kept : List SpanRecord → List SpanRecord
kept [] = []
kept (s ∷ ss) = if leb (length (span_bytes s)) max_record_bytes then s ∷ kept ss else kept ss

abbrev pub payloads : List SpanRecord → List (List ℕ)
payloads ss = map span_bytes ss

-- What encoding `spans` onto a batch that carries `queued` leaves: the batch and the skipped spans.
pub record Encoded (queued : List (List ℕ)) (skipped : ℕ) (spans : List SpanRecord)
    (out : Batch × ℕ) : Type 0 where
  pub carries : Carries out.0 (queued ++ payloads (kept spans))
  pub counted : out.1 + length (kept spans) ≡ skipped + length spans

encode_step :
    (s : SpanRecord) (ss : List SpanRecord) (b : Batch) (queued : List (List ℕ)) (skipped : ℕ)
    → (p : Batch × Result (Unit {0}) RecordTooLarge) → Carries b queued
    → RecordResult b queued (span_bytes s) p
    → ((b' : Batch) (queued' : List (List ℕ)) (skipped' : ℕ)
        → Carries b' queued'
        → Encoded queued' skipped' ss (encode_loop b' skipped' ss))
    → Encoded queued skipped (s ∷ ss) (encode_loop p.0 (skipped + is_err p.1) ss)
encode_step s ss b queued skipped (b', ok u) c r next =
    let fits = le→leb (length (span_bytes s)) max_record_bytes r.0 in
    let rest = next b' (queued ++ (span_bytes s ∷ [])) (skipped + 0) r.1 in
    record {
      carries =
          rw (fits, sym (append_assoc queued (span_bytes s ∷ []) (payloads (kept ss))))
            rest.carries;
      counted = rw fits (omega (arith, rest.counted));
    }
encode_step s ss b queued skipped (b', err e) c r next =
    let large = lt→leb (length (span_bytes s)) max_record_bytes r.0 in
    let rest = next b' queued (skipped + 1) (subst (λ x. Carries x queued) (sym r.1) c) in
    record { carries = rw large rest.carries; counted = rw large (omega (arith, rest.counted)) }

encode_loop_lem :
    (spans : List SpanRecord) (b : Batch) (queued : List (List ℕ)) (skipped : ℕ)
    → Carries b queued
    → Encoded queued skipped spans (encode_loop b skipped spans)
unfolding encode_loop
encode_loop_lem [] b queued skipped c = record { carries = rw append-nil c; counted = refl }
encode_loop_lem (s ∷ ss) b queued skipped c =
    encode_step s ss b queued skipped (push_record b (encode_span s)) c
      (push_record_refines b (encode_span s) queued (span_bytes s) c (encode_span-bytes s))
      (encode_loop_lem ss)

-- Encoding a batch of spans: the batch carries, in order, the encodings of the spans that fit in a
-- record of the queue, and the count of skipped spans is the number of the others.
pub encode_batch_refines : (spans : List SpanRecord) → Encoded [] 0 spans (encode_batch spans)
unfolding encode_batch
encode_batch_refines spans = encode_loop_lem spans batch_new [] 0 batch_new-Carries

pub decode_item-span_bytes :
    (s : SpanRecord) → IsSpan s → decode_item (ok (span_bytes s)) ≡ some (clamp_span s)
unfolding decode_item
decode_item-span_bytes s v =
    ap decoded (ap decode_span (sym (encode_span-bytes s [])) ∙ decode_span-encode_span s v)

decode_items-payloads :
    (ss done : List SpanRecord) (undecodable : ℕ)
    → All IsSpan ss
    → decode_items done undecodable (map ok (payloads ss))
      ≡ (done ++ map clamp_span ss, undecodable)
unfolding decode_items
decode_items-payloads [] done undecodable v = ap (λ x. (x, undecodable)) (sym (append-nil done))
decode_items-payloads (s ∷ ss) done undecodable v =
    rw (decode_item-span_bytes s v.0, decode_items)
      (decode_items-payloads ss (done ++ (clamp_span s ∷ [])) undecodable v.1
        ∙ ap (λ x. (x, undecodable)) (append_assoc done (clamp_span s ∷ []) (map clamp_span ss)))

-- Decoding the records of a list of encoded spans gives these spans, in order, their times clamped,
-- and finds no undecodable record.
pub decode_records-frames :
    (ss : List SpanRecord)
    → All IsSpan ss
    → All IsPayload (payloads ss)
    → decode_records (frames (payloads ss)) ≡ returns (map clamp_span ss, 0)
unfolding decode_records
decode_records-frames ss v a =
    ap after_items (records-frames (payloads ss) a) ∙ ap returns (decode_items-payloads ss [] 0 v)

pub kept-IsSpan : (ss : List SpanRecord) → All IsSpan ss → All IsSpan (kept ss)
kept-IsSpan [] v = tt
kept-IsSpan (s ∷ ss) v = elim (Bool-cases (leb (length (span_bytes s)) max_record_bytes)) [
  | inl e ↦ rw e (v.0, kept-IsSpan ss v.1)
  | inr e ↦ rw e (kept-IsSpan ss v.1)
]

-- For spans whose fields have values of their types, encoding them to a batch and decoding the bytes of the batch gives the spans that fit in a
-- record, in order, with their times clamped, and finds no undecodable record.
pub decode_records-encode_batch :
    (spans : List SpanRecord)
    → All IsSpan spans
    → decode_records ((encode_batch spans).0.bytes) ≡ returns (map clamp_span (kept spans), 0)
decode_records-encode_batch spans v =
    let c = (encode_batch_refines spans).carries in
    ap decode_records c.encoded ∙ decode_records-frames (kept spans) (kept-IsSpan spans v) c.sized
