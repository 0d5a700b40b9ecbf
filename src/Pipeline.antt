-- ===== src/Pipeline.antt =====
-- The queue and the codec together, as `collect_spans` of src/postgres.rs and `drain_queue` of
-- src/worker.rs use them: spans are encoded to a batch, pushed, drained and decoded.
pub mod Samples
mod Tests
use pg_otel.Prelude.{
  ℕ, ◌+◌, ◌^◌, ◌<◌, ◌≤◌, ◌≡◌, ◌≢◌, refl, sym, ap, ap₂, ◌∙◌, subst, List, [], ◌∷◌, ◌++◌, map, length,
  length-map, All, All-append, All-front, Result, ok, err, Outcome, returns, arith,
}
use pg_otel.Queue.{Ring, Batch, QueueFull, free, push_batch, drain_into}
use pg_otel.Queue.Frames.{frames, IsPayload}
use pg_otel.Queue.Push.{Holds, PushResult, push_batch_refines}
use pg_otel.Queue.Budget.{Takes}
use pg_otel.Queue.Drain.{drain_into_refines}
use pg_otel.Span.{SpanRecord}
use pg_otel.Codec.Encode.{encode_batch}
use pg_otel.Codec.Decode.{decode_records}
use pg_otel.Codec.RoundTrip.{IsSpan, clamp_span, span_bytes}
use pg_otel.Codec.Stream.{kept, kept-IsSpan, payloads, encode_batch_refines, decode_records-frames}

-- The ring holds these spans, oldest first.
pub record HoldsSpans (r : Ring) (spans : List SpanRecord) : Type 0 where
  pub queued : Holds r (payloads spans)
  pub valid : All IsSpan spans

payloads-append : (xs ys : List SpanRecord) → payloads (xs ++ ys) ≡ payloads xs ++ payloads ys
payloads-append [] ys = refl
payloads-append (x ∷ xs) ys = ap (◌∷◌ (span_bytes x)) (payloads-append xs ys)

-- What pushing `spans` does to a ring that holds `held`.
abbrev pub Queued :
    (r : Ring) (b : Batch) (held spans : List SpanRecord)
    → Ring × Result (Unit {0}) QueueFull
    → Type 0
Queued r b held spans (r', ok u) = (length b.bytes ≤ free r) × HoldsSpans r' (held ++ kept spans)
Queued r b held spans (r', err e) = (free r < length b.bytes) × (r' ≡ r)

Queued-of :
    (r : Ring) (b : Batch) (held spans : List SpanRecord)
    → All IsSpan held
    → All IsSpan spans
    → (out : Ring × Result (Unit {0}) QueueFull)
    → PushResult r b (payloads held) (payloads (kept spans)) out
    → Queued r b held spans out
Queued-of r b held spans v w (r', ok u) p = (
  p.0,
  record {
    queued = subst (Holds r') (sym (payloads-append held (kept spans))) p.2;
    valid = All-append IsSpan held (kept spans) v (kept-IsSpan spans w);
  },
)
Queued-of r b held spans v w (r', err e) p = (p.0, p.1)

-- Encoding spans, whose fields have values of their types, and pushing the batch to a ring that holds `held` returns. Either the batch fits,
-- and the ring then holds `held` with the spans that fit in a record behind them; or the batch is
-- larger than the free space, and the ring is unchanged. The 64-bit counter must not wrap.
pub push_batch-encode_batch :
    {r : Ring} {held : List SpanRecord} (spans : List SpanRecord)
    → HoldsSpans r held
    → All IsSpan spans
    → r.state.tail + length ((encode_batch spans).0.bytes) < 2 ^ 64
    → (out : Ring × Result (Unit {0}) QueueFull) × (push_batch r (encode_batch spans).0
        ≡ returns out)
      × Queued r (encode_batch spans).0 held spans out
push_batch-encode_batch {r} {held} spans h w counts =
    let (out, e, post) =
      push_batch_refines h.queued ((encode_batch_refines spans).carries) counts in
    (out, e, Queued-of r (encode_batch spans).0 held spans h.valid w out post)

-- A split of the payloads is a split of the spans.
record Split (held : List SpanRecord) (taken left : List (List ℕ)) : Type 0 where
  front : List SpanRecord
  back : List SpanRecord
  whole : held ≡ front ++ back
  front_lem : taken ≡ payloads front
  back_lem : left ≡ payloads back
  front_valid : All IsSpan front
  back_valid : All IsSpan back

tail_of : List (List ℕ) → List (List ℕ)
tail_of [] = []
tail_of (p ∷ ps) = ps

head_of : List (List ℕ) → List ℕ
head_of [] = []
head_of (p ∷ ps) = p

split_lem :
    (held : List SpanRecord) (taken left : List (List ℕ))
    → payloads held ≡ taken ++ left
    → All IsSpan held
    → Split held taken left
unfolding head_of tail_of
split_lem held [] left e v = record {
  front = [];
  back = held;
  whole = refl;
  front_lem = refl;
  back_lem = sym e;
  front_valid = tt;
  back_valid = v;
}
split_lem [] (p ∷ taken) left e v = absurd (omega (arith, ap length e))
split_lem (s ∷ held) (p ∷ taken) left e v =
    let rest = split_lem held taken left (ap tail_of e) v.1 in
    record {
      front = s ∷ rest.front;
      back = rest.back;
      whole = ap (◌∷◌ s) rest.whole;
      front_lem = ap₂ ◌∷◌ (sym (ap head_of e)) rest.front_lem;
      back_lem = rest.back_lem;
      front_valid = (v.0, rest.front_valid);
      back_valid = rest.back_valid;
    }

-- Draining a ring that holds `held` and decoding the bytes returns the oldest spans, in order and
-- with their times clamped, as many as the budget allows and at least one if there is one; no
-- record is undecodable, and the ring holds the rest.
pub decode_records-drain_into :
    {r : Ring} {held : List SpanRecord} (max_bytes : ℕ)
    → HoldsSpans r held
    → (taken : List SpanRecord) × (left : List SpanRecord) × (r' : Ring) × (bytes : List ℕ)
      × (drain_into r [] max_bytes ≡ returns (r', bytes, ok (length taken)))
      × (decode_records bytes ≡ returns (map clamp_span taken, 0))
      × (held ≡ taken ++ left)
      × Takes max_bytes (payloads held) (payloads taken) (payloads left)
      × HoldsSpans r' left
decode_records-drain_into {r} {held} max_bytes h =
    let (taken, left, r', e, t, v) = drain_into_refines [] max_bytes h.queued in
    let s = split_lem held taken left t.split h.valid in
    let bytes_lem = ap frames s.front_lem in
    (
      s.front,
      s.back,
      r',
      frames taken,
      e
          ∙ ap (λ n. returns (r', frames taken, ok n))
              (ap length s.front_lem ∙ length-map span_bytes s.front),
      ap decode_records bytes_lem
          ∙ decode_records-frames s.front s.front_valid (
              subst (All IsPayload) s.front_lem
                (All-front IsPayload taken left (subst (All IsPayload) t.split h.queued.accepted))),
      s.whole,
      subst (λ x. Takes max_bytes (payloads held) x (payloads s.back)) s.front_lem
          (subst (Takes max_bytes (payloads held) taken) s.back_lem t),
      record { queued = subst (Holds r') s.back_lem v; valid = s.back_valid },
    )
