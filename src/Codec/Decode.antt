-- ===== src/Codec/Decode.antt =====
-- The decoders of src/codec.rs. A decoder is a step of `Reader`, which keeps the unread bytes.
use pg_otel.Prelude.{
  ℕ, ◌+◌, ◌^◌, Bool, true, false, Option, none, some, List, [], ◌∷◌, ◌++◌, ltb, ◌==◌, if◌then◌else◌,
  length, take, drop, Result, ok, err, Outcome, returns, panics, unfinished, get_or,
}
use pg_otel.Prelude.Int.{ℤ, pos}
use pg_otel.Prelude.Bytes.{from_le_bytes}
use pg_otel.Prelude.Utf8.{is_utf8}
use pg_otel.Queue.{records, Corrupted}
use pg_otel.Span.{
  Bytes, Str, Float, SystemTime, QueryAttributes, PlanNodeAttributes, SpanAttributes, query,
  plan_node, SpanRecord,
}
use pg_otel.Codec.Encode.{format_version, kind_query, kind_plan_node}
use pg_otel.Codec.Words.{from_bits}

pub data DecodeError : Type 0 where
  truncated invalid_utf8 trailing_bytes : DecodeError
  unknown_tag : ℕ → DecodeError

-- A step of the reader: a value and the bytes that are left, or an error.
abbrev pub Reader {ℓ} : Type ℓ → Type ℓ
Reader A = List ℕ → Result (A × List ℕ) DecodeError

module _ {ℓ κ} {A : Type ℓ} {B : Type κ} where
  abbrev pub go_on :
      Result (A × List ℕ) DecodeError → (A → Reader B) → Result (B × List ℕ) DecodeError
  go_on (ok (a, rest)) f = f a rest
  go_on (err e) f = err e

  infixl 5 ◌>>=◌
  abbrev pub ◌>>=◌ : Reader A → (A → Reader B) → Reader B
  ◌>>=◌ m f bytes = go_on (m bytes) f

abbrev pub pure {ℓ} : {A : Type ℓ} → A → Reader A
pure a rest = ok (a, rest)

abbrev pub fail {ℓ} : {A : Type ℓ} → DecodeError → Reader A
fail e rest = err e

-- `Reader::take`, and `array::<N>`, which copies what `take` returns.
unfoldable pub take_bytes : ℕ → Reader Bytes
take_bytes len rest =
    if ltb (length rest) len then err truncated else ok (take len rest, drop len rest)

unfoldable pub array : ℕ → Reader Bytes
array n = take_bytes n

unfoldable pub u8 : Reader ℕ
u8 = do b ← array 1; pure (get_or b 0 0)

unfoldable pub bool_of : ℕ → Reader Bool
bool_of tag =
    if tag == 0 then pure false else if tag == 1 then pure true else fail (unknown_tag tag)

unfoldable pub bool : Reader Bool
bool = do tag ← u8; bool_of tag

unfoldable pub u64 : Reader ℕ
u64 = do b ← array 8; pure (from_le_bytes b)

unfoldable pub i64 : Reader ℤ
i64 = do b ← array 8; pure (from_bits (2 ^ 64) (from_le_bytes b))

unfoldable pub i32 : Reader ℤ
i32 = do b ← array 4; pure (from_bits (2 ^ 32) (from_le_bytes b))

unfoldable pub f64 : Reader Float
f64 = do b ← array 8; pure (from_le_bytes b)

unfoldable pub time : Reader SystemTime
time = do b ← array 8; pure (pos (from_le_bytes b))

unfoldable pub from_utf8 : Bytes → Reader Str
from_utf8 bytes = if is_utf8 bytes then pure bytes else fail invalid_utf8

unfoldable pub string : Reader Str
string = do b ← array 4; bytes ← take_bytes (from_le_bytes b); from_utf8 bytes

-- The match on the tag byte of `opt_i64` and `opt_string`.
unfoldable pub opt_of {ℓ} : {A : Type ℓ} → Reader A → ℕ → Reader (Option A)
opt_of value tag =
    if tag == 0
    then pure none
    else if tag == 1
    then (do v ← value; pure (some v))
    else fail (unknown_tag tag)

unfoldable pub opt_i64 : Reader (Option ℤ)
opt_i64 = do tag ← u8; opt_of i64 tag

unfoldable pub opt_string : Reader (Option Str)
opt_string = do tag ← u8; opt_of string tag

unfoldable pub decode_query : Reader QueryAttributes
decode_query = do
  parent_is_remote ← bool
  operation ← string
  query_text ← opt_string
  query_id ← i64
  exec_total_time_ns ← i64
  plan_spans_omitted ← u64
  pure (record {
    parent_is_remote = parent_is_remote;
    operation = operation;
    query_text = query_text;
    query_id = query_id;
    exec_total_time_ns = exec_total_time_ns;
    plan_spans_omitted = plan_spans_omitted;
  })

unfoldable pub decode_plan_node : Reader PlanNodeAttributes
decode_plan_node = do
  node_type ← string
  relation ← opt_string
  parent_relationship ← opt_string
  subplan_name ← opt_string
  subplans_removed ← u64
  workers_launched ← opt_i64
  never_executed ← bool
  instrumentation_incomplete ← bool
  startup_cost ← f64
  total_cost ← f64
  rows ← f64
  width_bytes ← i32
  parallel_aware ← bool
  parallel_safe ← bool
  async_capable ← bool
  instr_startup_time_ns ← i64
  instr_total_time_ns ← i64
  instr_rows ← f64
  instr_secondary_rows ← f64
  instr_loops ← f64
  removed_by_scan_or_join ← f64
  removed_by_other ← f64
  pure (record {
    node_type = node_type;
    relation = relation;
    parent_relationship = parent_relationship;
    subplan_name = subplan_name;
    subplans_removed = subplans_removed;
    workers_launched = workers_launched;
    never_executed = never_executed;
    instrumentation_incomplete = instrumentation_incomplete;
    startup_cost = startup_cost;
    total_cost = total_cost;
    rows = rows;
    width_bytes = width_bytes;
    parallel_aware = parallel_aware;
    parallel_safe = parallel_safe;
    async_capable = async_capable;
    instr_startup_time_ns = instr_startup_time_ns;
    instr_total_time_ns = instr_total_time_ns;
    instr_rows = instr_rows;
    instr_secondary_rows = instr_secondary_rows;
    instr_loops = instr_loops;
    instr_rows_removed_by_scan_or_join_filter = removed_by_scan_or_join;
    instr_rows_removed_by_other_filter = removed_by_other;
  })

-- The match of `decode_span` on the kind byte.
unfoldable pub decode_attributes : ℕ → Reader SpanAttributes
decode_attributes kind =
    if kind == kind_query
    then (do q ← decode_query; pure (query q))
    else if kind == kind_plan_node
    then (do node ← decode_plan_node; pure (plan_node node))
    else fail (unknown_tag kind)

unfoldable pub expect_version : ℕ → Reader (Unit {0})
expect_version version = if version == format_version then pure tt else fail (unknown_tag version)

-- `decode_span` up to the test that no bytes remain.
unfoldable pub decode_body : Reader SpanRecord
decode_body = do
  version ← u8
  _ ← expect_version version
  kind ← u8
  trace_id ← array 16
  span_id ← array 8
  parent_id ← array 8
  start_time ← time
  end_time ← time
  name ← string
  attributes ← decode_attributes kind
  pure (record {
    trace_id = trace_id;
    span_id = span_id;
    parent_id = parent_id;
    name = name;
    start_time = start_time;
    end_time = end_time;
    attributes = attributes;
  })

-- The end of `decode_span`: no bytes may remain.
unfoldable pub finish : Result (SpanRecord × List ℕ) DecodeError → Result SpanRecord DecodeError
finish (ok (span, [])) = ok span
finish (ok (span, b ∷ bs)) = err trailing_bytes
finish (err e) = err e

unfoldable pub decode_span : List ℕ → Result SpanRecord DecodeError
decode_span bytes = finish (decode_body bytes)

-- The match of `decode_records` on a decoded payload: a span, or one more undecodable record.
abbrev pub decoded : Result SpanRecord DecodeError → Option SpanRecord
decoded (ok span) = some span
decoded (err e) = none

unfoldable pub decode_item : Result (List ℕ) Corrupted → Option SpanRecord
decode_item (ok payload) = decoded (decode_span payload)
decode_item (err e) = none

abbrev pub collect : List SpanRecord → ℕ → Option SpanRecord → List SpanRecord × ℕ
collect spans undecodable (some span) = (spans ++ (span ∷ []), undecodable)
collect spans undecodable none = (spans, undecodable + 1)

unfoldable pub decode_items :
    List SpanRecord → ℕ → List (Result (List ℕ) Corrupted) → List SpanRecord × ℕ
decode_items spans undecodable [] = (spans, undecodable)
decode_items spans undecodable (item ∷ items) =
    let (spans', undecodable') = collect spans undecodable (decode_item item) in
    decode_items spans' undecodable' items

-- The loop of `decode_records` over the items of the iterator.
abbrev pub after_items : Outcome (List (Result (List ℕ) Corrupted)) → Outcome (List SpanRecord × ℕ)
after_items (returns items) = returns (decode_items [] 0 items)
after_items panics = panics
after_items unfinished = unfinished

unfoldable pub decode_records : List ℕ → Outcome (List SpanRecord × ℕ)
decode_records bytes = after_items (records bytes)
