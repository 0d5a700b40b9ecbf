-- ===== src/Trace/Parent/Shape.antt =====
-- `has_traceparent_shape` of src/span.rs against the W3C form of a `traceparent` value.
use pg_otel.Prelude.{
  ℕ, ◌+◌, ◌≡◌, ◌≢◌, refl, sym, ap, ◌∙◌, ◌⊎◌, inl, inr, true, false, ◌&&◌, ◌||◌, not, Bool,
  Bool-cases, List, [], ◌∷◌, ◌++◌, append-nil, length, ap₂, subst, ◌==◌, All, arith,
}
use pg_otel.Prelude.Text.{bytes_eq, bytes_eq_sound}
use pg_otel.Span.{Str}
use pg_otel.Trace.Parent.{
  is_hex_byte, all_hex, is_hex, in_first, split, parts_ok, has_traceparent_shape,
}

-- A field of lowercase hexadecimal digits.
pub record IsField (size : ℕ) (field : Str) : Type 0 where
  pub size_ok : length field ≡ size
  pub digits : All (λ b. is_hex_byte b ≡ true) field

-- What stands behind the flags: nothing, or a dash and anything.
abbrev pub tail_of : List Str → Str
tail_of [] = []
tail_of (part ∷ parts) = 45 ∷ (part ++ tail_of parts)

-- `version-traceid-spanid-flags`, and more behind a dash only in a later version than 00; version
-- ff is none.
pub record IsTraceparent (s : Str) : Type 0 where
  pub version : Str
  pub trace_id : Str
  pub span_id : Str
  pub flags : Str
  pub further : Str
  pub printed : s ≡ version ++ (45 ∷ (trace_id ++ (45 ∷ (span_id ++ (45 ∷ (flags ++ further))))))
  pub version_ok : IsField 2 version
  pub trace_id_ok : IsField 32 trace_id
  pub span_id_ok : IsField 16 span_id
  pub flags_ok : IsField 2 flags
  pub known : version ≢ 102 ∷ 102 ∷ []
  pub ends : (further ≡ []) ⊎ ((version ≢ 48 ∷ 48 ∷ []) × ((more : Str) × (further ≡ 45 ∷ more)))

split-field :
    (field rest : Str)
    → All (λ b. is_hex_byte b ≡ true) field
    → split 45 (field ++ (45 ∷ rest)) ≡ field ∷ split 45 rest
unfolding split
split-field [] rest h = refl
split-field (b ∷ field) rest h =
    let other : (b == 45) ≡ false = ground (arith, h.0) in
    rw other (ap (in_first b) (split-field field rest h.1))

split-last : (field : Str) → All (λ b. is_hex_byte b ≡ true) field → split 45 field ≡ field ∷ []
unfolding split
split-last [] h = refl
split-last (b ∷ field) h =
    let other : (b == 45) ≡ false = ground (arith, h.0) in
    rw other (ap (in_first b) (split-last field h.1))

and_lem : (a b : Bool) → (a && b) ≡ true → (a ≡ true) × (b ≡ true)
and_lem a b h = ground arith

-- A split text has a first piece.
split-cases : (s : Str) → (part : Str) × (parts : List Str) × (split 45 s ≡ part ∷ parts)
unfolding split
split-cases [] = ([], [], refl)
split-cases (b ∷ bs) = elim (Bool-cases (b == 45)) [
  | inl e ↦ ([], split 45 bs, rw e refl)
  | inr e ↦ let (part, parts, f) = split-cases bs in (b ∷ part, parts, rw e (ap (in_first b) f))
]

all_hex-All : (field : Str) → all_hex field ≡ true → All (λ b. is_hex_byte b ≡ true) field
all_hex-All [] h = tt
all_hex-All (b ∷ field) h =
    let (first, rest) = and_lem (is_hex_byte b) (all_hex field) h in (first, all_hex-All field rest)

All-all_hex : (field : Str) → All (λ b. is_hex_byte b ≡ true) field → all_hex field ≡ true
All-all_hex [] h = refl
All-all_hex (b ∷ field) h = rw h.0 (All-all_hex field h.1)

IsField-of : (size : ℕ) (field : Str) → is_hex field size ≡ true → IsField size field
IsField-of size field h =
    let (long, digits) = and_lem (length field == size) (all_hex field) h in
    record { size_ok = ground arith; digits = all_hex-All field digits }

is_hex-of : (size : ℕ) (field : Str) → IsField size field → is_hex field size ≡ true
is_hex-of size field f =
    let long : (length field == size) ≡ true = ground (arith, f.size_ok) in
    rw (long, All-all_hex field f.digits) refl

bytes_eq_refl : (s : Str) → bytes_eq s s ≡ true
unfolding bytes_eq
bytes_eq_refl [] = refl
bytes_eq_refl (a ∷ s) = let same : (a == a) ≡ true = ground arith in rw same (bytes_eq_refl s)

different : (s t : Str) → not (bytes_eq s t) ≡ true → s ≢ t
different s t h =
    λ e. let same : bytes_eq s t ≡ true = ap (bytes_eq s) (sym e) ∙ bytes_eq_refl s in cc

not_equal : (s t : Str) → s ≢ t → not (bytes_eq s t) ≡ true
not_equal s t h = elim (Bool-cases (bytes_eq s t)) [
  | inl e ↦ absurd (h (bytes_eq_sound s t e))
  | inr e ↦ rw e refl
]

-- What splits is what stands between the dashes.
joined : List Str → Str
joined [] = []
joined (part ∷ parts) = part ++ tail_of parts

joined-in_first : (b : ℕ) (parts : List Str) → joined (in_first b parts) ≡ b ∷ joined parts
unfolding joined
joined-in_first b [] = refl
joined-in_first b (part ∷ parts) = refl

tail_of-split : (s : Str) → tail_of (split 45 s) ≡ 45 ∷ joined (split 45 s)
unfolding joined
tail_of-split s = let (part, parts, e) = split-cases s in rw e refl

joined-split : (s : Str) → joined (split 45 s) ≡ s
unfolding split joined
joined-split [] = refl
joined-split (b ∷ bs) = elim (Bool-cases (b == 45)) [
  | inl e ↦
      let dash : b ≡ 45 = ground arith in
      rw e (tail_of-split bs ∙ ap₂ (λ x xs. x ∷ xs) (sym dash) (joined-split bs))
  | inr e ↦ rw e (joined-in_first b (split 45 bs) ∙ ap (◌∷◌ b) (joined-split bs))
]

or_true : (a : Bool) → (a || true) ≡ true
or_true a = ground arith

further_ok :
    (version : Str) (rest : List Str)
    → (not (bytes_eq version (48 ∷ 48 ∷ [])) || length rest + 4 == 4) ≡ true
    → (tail_of rest ≡ []) ⊎ ((version ≢ 48 ∷ 48 ∷ []) × ((more : Str) × (tail_of rest ≡ 45 ∷ more)))
further_ok version [] h = inl refl
further_ok version (r ∷ rs) h =
    let later : not (bytes_eq version (48 ∷ 48 ∷ [])) ≡ true = ground arith in
    inr (different version (48 ∷ 48 ∷ []) later, (r ++ tail_of rs, refl))

parts_ok-IsTraceparent : (parts : List Str) → parts_ok parts ≡ true → IsTraceparent (joined parts)
unfolding joined
parts_ok-IsTraceparent [] h = cc
parts_ok-IsTraceparent (v ∷ []) h = cc
parts_ok-IsTraceparent (v ∷ t ∷ []) h = cc
parts_ok-IsTraceparent (v ∷ t ∷ p ∷ []) h = cc
parts_ok-IsTraceparent (v ∷ t ∷ p ∷ f ∷ rest) h =
    let (version, h1) = and_lem (is_hex v 2) _ h in
    let (known, h2) = and_lem (not (bytes_eq v (102 ∷ 102 ∷ []))) _ h1 in
    let (count, h3) = and_lem _ (is_hex t 32 && (is_hex p 16 && is_hex f 2)) h2 in
    let (trace, h4) = and_lem (is_hex t 32) _ h3 in
    let (span, flags) = and_lem (is_hex p 16) (is_hex f 2) h4 in
    let fields : (not (bytes_eq v (48 ∷ 48 ∷ [])) || length rest + 4 == 4) ≡ true =
      ap (λ n. not (bytes_eq v (48 ∷ 48 ∷ [])) || n == 4) (omega arith) ∙ count in
    record {
      version = v;
      trace_id = t;
      span_id = p;
      flags = f;
      further = tail_of rest;
      printed = refl;
      version_ok = IsField-of 2 v version;
      trace_id_ok = IsField-of 32 t trace;
      span_id_ok = IsField-of 16 p span;
      flags_ok = IsField-of 2 f flags;
      known = different v (102 ∷ 102 ∷ []) known;
      ends = further_ok v rest fields;
    }

-- The pieces of a value in W3C form.
split-IsTraceparent :
    {s : Str} (w : IsTraceparent s)
    → (rest : List Str) × (split 45 s ≡ w.version ∷ w.trace_id ∷ w.span_id ∷ w.flags ∷ rest)
      × ((rest ≡ []) ⊎ (w.version ≢ 48 ∷ 48 ∷ []))
split-IsTraceparent {s} w =
    let front : split 45 s ≡ w.version ∷ w.trace_id ∷ w.span_id ∷ split 45 (w.flags ++ w.further) =
      ap (split 45) w.printed
      ∙ split-field w.version _ w.version_ok.digits
      ∙ ap (◌∷◌ w.version) (
          split-field w.trace_id _ w.trace_id_ok.digits
          ∙ ap (◌∷◌ w.trace_id) (split-field w.span_id _ w.span_id_ok.digits)) in
    let behind = λ (parts : List Str). w.version ∷ w.trace_id ∷ w.span_id ∷ parts in
    elim w.ends [
      | inl e ↦ (
        [],
        front
            ∙ ap (λ u. behind (split 45 (w.flags ++ u))) e
            ∙ ap (λ u. behind (split 45 u)) (append-nil w.flags)
            ∙ ap behind (split-last w.flags w.flags_ok.digits),
        inl refl,
      )
      | inr (later, (more, e)) ↦ (
        split 45 more,
        front
            ∙ ap (λ u. behind (split 45 (w.flags ++ u))) e
            ∙ ap behind (split-field w.flags more w.flags_ok.digits),
        inr later,
      )
    ]

fields_ok-IsTraceparent :
    {s : Str} (w : IsTraceparent s) (rest : List Str)
    → (rest ≡ []) ⊎ (w.version ≢ 48 ∷ 48 ∷ [])
    → parts_ok (w.version ∷ w.trace_id ∷ w.span_id ∷ w.flags ∷ rest) ≡ true
fields_ok-IsTraceparent w rest c =
    let count : (not (bytes_eq w.version (48 ∷ 48 ∷ []))
          || length (w.version ∷ w.trace_id ∷ w.span_id ∷ w.flags ∷ rest) == 4)
        ≡ true =
      elim c [
        | inl e ↦ rw e (or_true (not (bytes_eq w.version (48 ∷ 48 ∷ []))))
        | inr later ↦ rw (not_equal w.version (48 ∷ 48 ∷ []) later) refl
      ] in
    rw
      (
        is_hex-of 2 w.version w.version_ok,
        not_equal w.version (102 ∷ 102 ∷ []) w.known,
        count,
        is_hex-of 32 w.trace_id w.trace_id_ok,
        is_hex-of 16 w.span_id w.span_id_ok,
        is_hex-of 2 w.flags w.flags_ok,
      )
      refl

-- The shape test accepts exactly the values in the W3C form: a version of two hexadecimal digits
-- other than ff, a trace id of 32, a span id of 16 and flags of two, with dashes between them, and
-- anything behind a further dash if the version is not 00.
pub has_traceparent_shape_iff :
    (s : Str)
    → (has_traceparent_shape s ≡ true → IsTraceparent s)
      × (IsTraceparent s → has_traceparent_shape s ≡ true)
unfolding has_traceparent_shape
has_traceparent_shape_iff s = (
  λ h. subst IsTraceparent (joined-split s) (parts_ok-IsTraceparent (split 45 s) h),
  λ w. let (rest, e, c) = split-IsTraceparent w in ap parts_ok e ∙ fields_ok-IsTraceparent w rest c,
)
