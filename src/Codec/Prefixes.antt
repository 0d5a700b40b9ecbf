-- ===== src/Codec/Prefixes.antt =====
-- A decoder that is given less than a whole record reports an error.
use pg_otel.Prelude.{
  ℕ, ◌≡◌, ◌≢◌, refl, sym, ap, ◌∙◌, Bool, true, false, List, [], ◌∷◌, ◌++◌, length, take-append_le,
  drop-append_le, Result, ok, err, arith, append-nil, if◌then◌else◌, ◌==◌, le→ltb, lt→ltb,
  length-append,
}
use pg_otel.Prelude.Utf8.{is_utf8}
use pg_otel.Span.{SpanRecord}
use pg_otel.Codec.Encode.{encode_span}
use pg_otel.Codec.Decode.{
  DecodeError, Reader, ◌>>=◌, pure, fail, go_on, take_bytes, array, u8, bool_of, bool, u64, i64,
  i32, f64, time, from_utf8, string, opt_of, opt_i64, opt_string, decode_query, decode_plan_node,
  decode_attributes, expect_version, decode_body, decode_span, finish,
}
use pg_otel.Codec.RoundTrip.{IsSpan, clamp_span, span_bytes, encode_span-bytes, decode_body-Reads}
use native.Mathlib.Decide.{dec_lt}

abbrev left_of : Result (SpanRecord × List ℕ) DecodeError → List ℕ
left_of (ok (span, left)) = left
left_of (err e) = []

-- A reader that succeeds does not look past what it takes.
pub record IsLocal {ℓ} {A : Type ℓ} (read : Reader A) : Type ℓ where
  pub extend :
      (xs ys : List ℕ) (a : A) (rest : List ℕ)
      → read xs ≡ ok (a, rest)
      → read (xs ++ ys) ≡ ok (a, rest ++ ys)

module _ {ℓ κ} {A : Type ℓ} {B : Type κ} where
  bind-IsLocal :
      (m : Reader A) (f : A → Reader B) → IsLocal m → ((a : A) → IsLocal (f a)) → IsLocal (m >>= f)
  bind-IsLocal m f hm hf = record { extend = λ xs ys b rest e. go xs ys b rest (m xs) refl e }
    where
      go :
          (xs ys : List ℕ) (b : B) (rest : List ℕ) (r : Result (A × List ℕ) DecodeError)
          → m xs ≡ r
          → go_on r f ≡ ok (b, rest)
          → go_on (m (xs ++ ys)) f ≡ ok (b, rest ++ ys)
      go xs ys b rest (ok (a, left)) e h =
          ap (λ r. go_on r f) (hm.extend xs ys a left e) ∙ (hf a).extend left ys b rest h
      go xs ys b rest (err x) e h = cc

pure-IsLocal {ℓ} : {A : Type ℓ} (a : A) → IsLocal (pure a)
pure-IsLocal a = record { extend = λ xs ys b rest e. cc }

fail-IsLocal {ℓ} : (A : Type ℓ) (e : DecodeError) → IsLocal (fail {A = A} e)
fail-IsLocal A e = record { extend = λ xs ys b rest h. cc }

if_IsLocal {ℓ} :
    {A : Type ℓ} (b : Bool) (m n : Reader A) → IsLocal m → IsLocal n → IsLocal (if b then m else n)
if_IsLocal true m n hm hn = hm
if_IsLocal false m n hm hn = hn

take_bytes-IsLocal : (n : ℕ) → IsLocal (take_bytes n)
unfolding take_bytes
take_bytes-IsLocal n = record {
  extend = λ xs ys a rest e. elim (dec_lt (length xs) n) [
    | yes short ↦ cc (rw (lt→ltb (length xs) n short) at e)
    | no enough ↦
        rw
          (
            le→ltb (length (xs ++ ys)) n (omega (arith, length-append xs ys)),
            take-append_le xs ys n (omega arith),
            drop-append_le xs ys n (omega arith),
          )
          (cc (rw (le→ltb (length xs) n (omega arith)) at e))
  ];
}

array-IsLocal : (n : ℕ) → IsLocal (array n)
unfolding array
array-IsLocal n = take_bytes-IsLocal n

u8-IsLocal : IsLocal u8
unfolding u8
u8-IsLocal = bind-IsLocal _ _ (array-IsLocal 1) (λ b. pure-IsLocal _)

u64-IsLocal : IsLocal u64
unfolding u64
u64-IsLocal = bind-IsLocal _ _ (array-IsLocal 8) (λ b. pure-IsLocal _)

i64-IsLocal : IsLocal i64
unfolding i64
i64-IsLocal = bind-IsLocal _ _ (array-IsLocal 8) (λ b. pure-IsLocal _)

i32-IsLocal : IsLocal i32
unfolding i32
i32-IsLocal = bind-IsLocal _ _ (array-IsLocal 4) (λ b. pure-IsLocal _)

f64-IsLocal : IsLocal f64
unfolding f64
f64-IsLocal = bind-IsLocal _ _ (array-IsLocal 8) (λ b. pure-IsLocal _)

time-IsLocal : IsLocal time
unfolding time
time-IsLocal = bind-IsLocal _ _ (array-IsLocal 8) (λ b. pure-IsLocal _)

bool-IsLocal : IsLocal bool
unfolding bool bool_of
bool-IsLocal = bind-IsLocal _ _ u8-IsLocal (λ tag.
    if_IsLocal (tag == 0) _ _ (pure-IsLocal _)
      (if_IsLocal (tag == 1) _ _ (pure-IsLocal _) (fail-IsLocal _ _)))

string-IsLocal : IsLocal string
unfolding string from_utf8
string-IsLocal = bind-IsLocal _ _ (array-IsLocal 4) (λ b.
    bind-IsLocal _ _ (take_bytes-IsLocal _)
      (λ bytes. if_IsLocal (is_utf8 bytes) _ _ (pure-IsLocal _) (fail-IsLocal _ _)))

opt_of-IsLocal {ℓ} :
    {A : Type ℓ} (read : Reader A) (tag : ℕ) → IsLocal read → IsLocal (opt_of read tag)
unfolding opt_of
opt_of-IsLocal read tag h =
    if_IsLocal (tag == 0) _ _ (pure-IsLocal _)
      (if_IsLocal (tag == 1) _ _ (bind-IsLocal _ _ h (λ v. pure-IsLocal _)) (fail-IsLocal _ _))

opt_i64-IsLocal : IsLocal opt_i64
unfolding opt_i64
opt_i64-IsLocal = bind-IsLocal _ _ u8-IsLocal (λ tag. opt_of-IsLocal i64 tag i64-IsLocal)

opt_string-IsLocal : IsLocal opt_string
unfolding opt_string
opt_string-IsLocal = bind-IsLocal _ _ u8-IsLocal (λ tag. opt_of-IsLocal string tag string-IsLocal)

decode_query-IsLocal : IsLocal decode_query
unfolding decode_query
decode_query-IsLocal = bind-IsLocal _ _ bool-IsLocal (λ _. bind-IsLocal _ _ string-IsLocal (λ _.
    bind-IsLocal _ _ opt_string-IsLocal (λ _. bind-IsLocal _ _ i64-IsLocal (λ _.
      bind-IsLocal _ _ i64-IsLocal (λ _. bind-IsLocal _ _ u64-IsLocal (λ _. pure-IsLocal _))))))

decode_plan_node-IsLocal : IsLocal decode_plan_node
unfolding decode_plan_node
decode_plan_node-IsLocal = bind-IsLocal _ _ string-IsLocal (λ _.
    bind-IsLocal _ _ opt_string-IsLocal (λ _. bind-IsLocal _ _ opt_string-IsLocal (λ _.
      bind-IsLocal _ _ opt_string-IsLocal (λ _. bind-IsLocal _ _ u64-IsLocal (λ _.
        bind-IsLocal _ _ opt_i64-IsLocal (λ _. bind-IsLocal _ _ bool-IsLocal (λ _.
          bind-IsLocal _ _ bool-IsLocal (λ _. bind-IsLocal _ _ f64-IsLocal (λ _.
            bind-IsLocal _ _ f64-IsLocal (λ _. bind-IsLocal _ _ f64-IsLocal (λ _.
              bind-IsLocal _ _ i32-IsLocal (λ _. bind-IsLocal _ _ bool-IsLocal (λ _.
                bind-IsLocal _ _ bool-IsLocal (λ _. bind-IsLocal _ _ bool-IsLocal (λ _.
                  bind-IsLocal _ _ i64-IsLocal (λ _. bind-IsLocal _ _ i64-IsLocal (λ _.
                    bind-IsLocal _ _ f64-IsLocal (λ _. bind-IsLocal _ _ f64-IsLocal (λ _.
                      bind-IsLocal _ _ f64-IsLocal (λ _. bind-IsLocal _ _ f64-IsLocal (λ _.
                        bind-IsLocal _ _ f64-IsLocal (λ _. pure-IsLocal _))))))))))))))))))))))

decode_attributes-IsLocal : (kind : ℕ) → IsLocal (decode_attributes kind)
unfolding decode_attributes
decode_attributes-IsLocal kind =
    if_IsLocal (kind == 1) _ _ (bind-IsLocal _ _ decode_query-IsLocal (λ q. pure-IsLocal _)) (
      if_IsLocal (kind == 2) _ _ (bind-IsLocal _ _ decode_plan_node-IsLocal (λ n. pure-IsLocal _))
        (fail-IsLocal _ _))

expect_version-IsLocal : (version : ℕ) → IsLocal (expect_version version)
unfolding expect_version
expect_version-IsLocal version = if_IsLocal (version == 2) _ _ (pure-IsLocal _) (fail-IsLocal _ _)

pub decode_body-IsLocal : IsLocal decode_body
unfolding decode_body
decode_body-IsLocal = bind-IsLocal _ _ u8-IsLocal (λ version.
    bind-IsLocal _ _ (expect_version-IsLocal version) (λ _. bind-IsLocal _ _ u8-IsLocal (λ kind.
      bind-IsLocal _ _ (array-IsLocal 16) (λ _. bind-IsLocal _ _ (array-IsLocal 8) (λ _.
        bind-IsLocal _ _ (array-IsLocal 8) (λ _. bind-IsLocal _ _ time-IsLocal (λ _.
          bind-IsLocal _ _ time-IsLocal (λ _.
            bind-IsLocal _ _ string-IsLocal
              (λ _. bind-IsLocal _ _ (decode_attributes-IsLocal kind) (λ _. pure-IsLocal _))))))))))

-- No proper prefix of an encoded span, whose fields have values of their types, decodes: whatever the cut, the decoder reports an error.
pub decode_span_truncated :
    (span : SpanRecord) (front : List ℕ) (b : ℕ) (back : List ℕ)
    → IsSpan span
    → encode_span span [] ≡ front ++ (b ∷ back)
    → (e : DecodeError) × (decode_span front ≡ err e)
unfolding decode_span finish
decode_span_truncated span front b back v cut = go (decode_body front) refl
  where
    whole : decode_body (front ++ (b ∷ back)) ≡ ok (clamp_span span, [])
    whole =
        ap decode_body (sym cut ∙ encode_span-bytes span [] ∙ sym (append-nil (span_bytes span)))
        ∙ decode_body-Reads span v []

    none_left : (rest : List ℕ) → rest ++ (b ∷ back) ≢ []
    none_left [] e = cc
    none_left (x ∷ xs) e = cc

    go :
        (r : Result (SpanRecord × List ℕ) DecodeError)
        → decode_body front ≡ r
        → (e : DecodeError) × (finish (decode_body front) ≡ err e)
    go (err e) h = (e, rw h)
    go (ok (s, rest)) h = absurd (
        none_left rest
          (ap left_of (sym (decode_body-IsLocal.extend front (b ∷ back) s rest h) ∙ whole)))
