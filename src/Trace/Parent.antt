-- ===== src/Trace/Parent.antt =====
-- `parse_traceparent` of src/span.rs and `decide_parent` of src/postgres.rs: the parent trace of a
-- statement. The propagator and its span contexts are OpenTelemetry's; a context is what the code
-- reads of it. `random_trace_id` is the next id of the generator.
pub mod Shape
pub mod Keys
pub mod Decide
pub mod Sources
pub mod Total
mod Tests
use pg_otel.Prelude.{
  ℕ, zero, suc, Bool, true, false, ◌&&◌, ◌||◌, not, Option, none, some, List, [], ◌∷◌, ltb, leb,
  ◌==◌, if◌then◌else◌, length, take, replicate, Outcome, returns, panics, unfinished, ◌>>=◌,
}
use pg_otel.Prelude.Text.{bytes_eq, eq_ignore_ascii_case}
use pg_otel.Prelude.White.{trim}
use pg_otel.Span.{Str, TraceId, SpanId}
use pg_otel.Trace.{block_comments}
use pg_otel.Trace.Values.{traceparent, traceparent_values}

pub record RemoteContext : Type 0 where
  pub trace_id : TraceId
  pub span_id : SpanId
  pub is_sampled : Bool
  pub is_valid : Bool

-- What a propagator extracts from a carrier, which looks keys up and lists them.
abbrev pub Propagator : Type 0
Propagator = (Str → Option Str) → List Str → RemoteContext

-- `TraceParentExtractor`.
abbrev pub extractor_get : (parent : Str) → Str → Option Str
extractor_get parent key = if eq_ignore_ascii_case key traceparent then some parent else none

abbrev pub extractor_keys : List Str
extractor_keys = traceparent ∷ []

abbrev pub is_hex_byte : ℕ → Bool
is_hex_byte b = (leb 48 b && leb b 57) || (leb 97 b && leb b 102)

abbrev pub all_hex : Str → Bool
all_hex [] = true
all_hex (b ∷ bs) = is_hex_byte b && all_hex bs

abbrev pub is_hex : (field : Str) → (len : ℕ) → Bool
is_hex field len = length field == len && all_hex field

-- The piece before the first separator gets a byte in front.
abbrev pub in_first : ℕ → List Str → List Str
in_first b [] = (b ∷ []) ∷ []
in_first b (part ∷ parts) = (b ∷ part) ∷ parts

-- `str::split`.
unfoldable pub split : (separator : ℕ) → Str → List Str
split separator [] = [] ∷ []
split separator (b ∷ bs) =
    if b == separator then [] ∷ split separator bs else in_first b (split separator bs)

abbrev pub fields_ok : (version trace_id span_id flags : Str) → (fields : ℕ) → Bool
fields_ok version trace_id span_id flags fields =
    is_hex version 2
    && (not (bytes_eq version (102 ∷ 102 ∷ []))
        && ((not (bytes_eq version (48 ∷ 48 ∷ [])) || fields == 4)
            && (is_hex trace_id 32 && (is_hex span_id 16 && is_hex flags 2))))

abbrev pub parts_ok : List Str → Bool
parts_ok [] = false
parts_ok (version ∷ []) = false
parts_ok (version ∷ trace_id ∷ []) = false
parts_ok (version ∷ trace_id ∷ span_id ∷ []) = false
parts_ok (version ∷ trace_id ∷ span_id ∷ flags ∷ rest) =
    fields_ok version trace_id span_id flags (length (version ∷ trace_id ∷ span_id ∷ flags ∷ rest))

unfoldable pub has_traceparent_shape : Str → Bool
has_traceparent_shape s = parts_ok (split 45 s)

abbrev pub valid_context : RemoteContext → Option RemoteContext
valid_context context = if context.is_valid then some context else none

-- `windows(KEY.len())` and the comparison of each with the key; a shorter rest equals no key.
unfoldable pub any_window : (key : Str) → Str → Bool
any_window key [] = false
any_window key (b ∷ bs) = eq_ignore_ascii_case (take (length key) (b ∷ bs)) key || any_window key bs

pub record ParentContext : Type 0 where
  pub trace_id : TraceId
  pub span_id : SpanId
  pub is_remote : Bool

pub data TraceDecision : Type 0 where
  skip : TraceDecision
  trace : ParentContext → TraceDecision

abbrev pub invalid_span_id : SpanId
invalid_span_id = replicate 8 0

abbrev pub new_root : (random_trace_id : TraceId) → ParentContext
new_root random_trace_id = record {
  trace_id = random_trace_id;
  span_id = invalid_span_id;
  is_remote = false;
}

abbrev pub from_remote : RemoteContext → ParentContext
from_remote remote = record {
  trace_id = remote.trace_id;
  span_id = remote.span_id;
  is_remote = true;
}

-- The match of `decide_parent` on the remote parent.
abbrev pub decision : (random_trace_id : TraceId) → Option RemoteContext → TraceDecision
decision random_trace_id none = trace (new_root random_trace_id)
decision random_trace_id (some remote) =
    if remote.is_sampled then trace (from_remote remote) else skip

module _ (propagator : Propagator) where
  unfoldable pub parse_traceparent : Str → Option RemoteContext
  parse_traceparent s =
      if has_traceparent_shape (trim s)
      then valid_context (propagator (extractor_get s) extractor_keys)
      else none

  abbrev pub some_or : Option RemoteContext → Option RemoteContext → Option RemoteContext
  some_or none other = other
  some_or (some context) other = some context

  -- The first value that is a valid trace context.
  abbrev pub first_parsed : List Str → Option RemoteContext
  first_parsed [] = none
  first_parsed (value ∷ values) = some_or (parse_traceparent value) (first_parsed values)

  -- The first context among the values of the comments.
  abbrev pub found_in : List Str → Outcome (Option RemoteContext)
  found_in [] = returns none
  found_in (comment ∷ comments) = traceparent_values comment >>= λ values.
      after_comment (first_parsed values) (found_in comments)
    where
      after_comment :
          Option RemoteContext → Outcome (Option RemoteContext) → Outcome (Option RemoteContext)
      after_comment none others = others
      after_comment (some context) others = returns (some context)

  unfoldable pub traceparent_from_comments : Str → Outcome (Option RemoteContext)
  traceparent_from_comments text =
      if any_window traceparent text then block_comments text >>= found_in else returns none

  abbrev pub parsed_guc : Option Str → Option RemoteContext
  parsed_guc none = none
  parsed_guc (some value) = parse_traceparent value

  -- `or_else` and the search of the query text, if there is one.
  abbrev pub remote_parent : Option RemoteContext → Option Str → Outcome (Option RemoteContext)
  remote_parent (some remote) query_text = returns (some remote)
  remote_parent none none = returns none
  remote_parent none (some query_text) = traceparent_from_comments query_text

  unfoldable pub decide_parent :
      (random_trace_id : TraceId)
      → (guc_traceparent query_text : Option Str) → Outcome TraceDecision
  decide_parent random_trace_id guc_traceparent query_text =
      remote_parent (parsed_guc guc_traceparent) query_text >>= λ remote.
      returns (decision random_trace_id remote)
