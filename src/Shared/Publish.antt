-- ===== src/Shared/Publish.antt =====
-- `publish` of src/shared.rs: a span is queued or counted as dropped, and never neither.
use pg_otel.Prelude.{
  ℕ, ◌+◌, ◌^◌, ◌<◌, ◌≡◌, refl, sym, ap, ◌∙◌, subst, true, Option, none, List, [], ◌∷◌, ◌++◌,
  length-map, ltb, Bool-cases, inl, inr, ◌⊎◌, length, length-append, append-nil, All, Result, ok,
  err, returns, arith,
}
use pg_otel.Queue.{Ring, Batch, QueueFull, batch_is_empty}
use pg_otel.Span.{SpanRecord}
use pg_otel.Codec.Encode.{encode_batch}
use pg_otel.Codec.RoundTrip.{IsSpan}
use pg_otel.Codec.Stream.{kept, encode_batch_refines}
use pg_otel.Pipeline.{HoldsSpans, Queued, push_batch-encode_batch}
use pg_otel.Shared.{
  Header, queued, dropped, count_dropped, published, publish_pushed, PublishOutcome, publish,
}

count_dropped_lem :
    (n : ℕ) (h : Header)
    → h.dropped_spans + n < 2 ^ 64
    → count_dropped n h ≡ record h { dropped_spans = h.dropped_spans + n }
unfolding count_dropped
count_dropped_lem n h l = elim (Bool-cases (ltb 0 n)) [
  | inl e ↦ rw e (ap (λ d. record h { dropped_spans = d }) (omega arith))
  | inr e ↦
      let none_dropped : n ≡ 0 = ground arith in
      rw e (ap (λ d. record h { dropped_spans = d }) (omega arith))
]

-- What publishing the batch of `spans` does to a header whose ring holds `held`: the ring then
-- holds `now`, and every span is accounted for.
pub record Accounted (h : Header) (held spans : List SpanRecord) (out : PublishOutcome)
    : Type 0 where
  pub now : List SpanRecord
  pub holds : HoldsSpans (out.0.ring) now
  pub answer : ((out.1 ≡ queued) × (now ≡ held ++ kept spans)) ⊎ ((out.1 ≡ dropped) × (now ≡ held))
  pub conserved : out.0.dropped_spans + length now ≡ h.dropped_spans + (length held + length spans)

published-Accounted :
    (procs : Option ℕ) (h : Header) (held spans : List SpanRecord) (skipped : ℕ) (b : Batch)
    (out : Ring × Result (Unit {0}) QueueFull)
    → HoldsSpans h.ring held
    → h.dropped_spans + length spans < 2 ^ 64
    → b.records ≡ length (kept spans)
    → skipped + length (kept spans) ≡ length spans
    → Queued h.ring b held spans out
    → Accounted h held spans
        (published procs (record h { dropped_spans = h.dropped_spans + skipped }) b out)
published-Accounted procs h held spans skipped b (ring, ok u) v counts number all q = record {
  now = held ++ kept spans;
  holds = q.1;
  answer = inl (refl, refl);
  conserved = omega (arith, length-append held (kept spans));
}
published-Accounted procs h held spans skipped b (ring, err e) v counts number all q =
    let counted =
      count_dropped_lem b.records
        (record h { dropped_spans = h.dropped_spans + skipped; ring = ring }) (omega arith) in
    record {
      now = held;
      holds = rw counted (subst (λ r. HoldsSpans r held) (sym q.1) v);
      answer = inr (refl, refl);
      conserved = rw counted (omega arith);
    }

none_kept : (b : Batch) (n : ℕ) → b.records ≡ n → batch_is_empty b ≡ true → n ≡ 0
none_kept b n e h = ground arith

no_spans : (ss : List SpanRecord) → length ss ≡ 0 → ss ≡ []
no_spans [] e = refl
no_spans (s ∷ ss) e = absurd (omega arith)

-- Publishing the batch of the spans of a statement, whose fields have values of their types, returns. Either all spans that fit in a record
-- are queued behind those that are held, or none is; and the number of dropped spans grows by
-- exactly the number of spans that were not queued. The 64-bit counters must not wrap.
pub publish_accounts :
    (procs : Option ℕ) (h : Header) {held : List SpanRecord} (spans : List SpanRecord)
    → HoldsSpans h.ring held
    → All IsSpan spans
    → h.dropped_spans + length spans < 2 ^ 64
    → h.ring.state.tail + length ((encode_batch spans).0.bytes) < 2 ^ 64
    → (out : PublishOutcome) × (publish procs h (encode_batch spans).0 (encode_batch spans).1
        ≡ returns out)
      × Accounted h held spans out
unfolding publish
publish_accounts procs h {held} spans v valid counts room =
    let (b, skipped) = encode_batch spans in
    let (out, pushed, q) = push_batch-encode_batch spans v valid room in
    let enc = encode_batch_refines spans in
    let counted = count_dropped_lem skipped h (omega (arith, enc.counted)) in
    elim (Bool-cases (batch_is_empty b)) [
      | inl e ↦
          let nothing =
            none_kept b (length (kept spans)) (enc.carries.number ∙ length-map _ (kept spans)) e in
          (
            (count_dropped skipped h, queued, none),
            rw e refl,
            record {
              now = held;
              holds = rw counted v;
              answer = inl (
                refl,
                sym (append-nil held) ∙ ap (λ ks. held ++ ks) (sym (no_spans (kept spans) nothing)),
              );
              conserved = rw counted (omega (arith, enc.counted));
            },
          )
      | inr e ↦ (
        published procs (record h { dropped_spans = h.dropped_spans + skipped }) b out,
        rw (e, counted)
            (ap (publish_pushed procs (record h { dropped_spans = h.dropped_spans + skipped }) b)
              pushed),
        published-Accounted procs h held spans skipped b out v counts
            (enc.carries.number ∙ length-map _ (kept spans)) (omega (arith, enc.counted)) q,
      )
    ]
