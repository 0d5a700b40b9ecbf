-- ===== src/Trace/Parent/Keys.antt =====
-- The pre-check of `traceparent_from_comments` of src/postgres.rs, and how the keys that it looks for are
-- written in a comment in the sqlcommenter format.
use pg_otel.Prelude.{
  ℕ, suc, ◌≡◌, refl, sym, ap, ◌∙◌, inl, inr, true, ◌||◌, Bool, Bool-cases, [], ◌∷◌, ◌++◌,
  append_assoc, append-nil, length, take, take-append, ◌==◌, All, map, length-map, arith,
}
use pg_otel.Prelude.Text.{bytes_eq, eq_ignore_ascii_case, to_ascii_lowercase}
use pg_otel.Span.{Str}
use pg_otel.Trace.Percent.{percent_encode}
use pg_otel.Trace.Values.{traceparent, prefixed_traceparent, is_traceparent_key}
use pg_otel.Trace.Values.Plain.{is_unreserved, url_encode}
use pg_otel.Trace.Parent.{any_window}

-- A text in which `traceparent` stands, in upper or lower case.
pub record Contains (s : Str) : Type 0 where
  pub front : Str
  pub key : Str
  pub back : Str
  pub parts : s ≡ front ++ (key ++ back)
  pub is_key : eq_ignore_ascii_case key traceparent ≡ true

pub Contains-append : (x s y : Str) → Contains s → Contains (x ++ (s ++ y))
Contains-append x s y c = record {
  front = x ++ c.front;
  key = c.key;
  back = c.back ++ y;
  parts =
      ap (λ u. x ++ (u ++ y)) c.parts
      ∙ ap (λ u. x ++ u)
          (append_assoc c.front (c.key ++ c.back) y
            ∙ ap (λ u. c.front ++ u) (append_assoc c.key c.back y))
      ∙ sym (append_assoc x c.front (c.key ++ (c.back ++ y)));
  is_key = c.is_key;
}

length-bytes_eq : (s t : Str) → bytes_eq s t ≡ true → length s ≡ length t
unfolding bytes_eq
length-bytes_eq [] [] h = refl
length-bytes_eq [] (b ∷ t) h = cc
length-bytes_eq (a ∷ s) [] h = cc
length-bytes_eq (a ∷ s) (b ∷ t) h =
    let rest : bytes_eq s t ≡ true = ground arith in ap suc (length-bytes_eq s t rest)

length-eq_ignore_ascii_case : (s t : Str) → eq_ignore_ascii_case s t ≡ true → length s ≡ length t
unfolding eq_ignore_ascii_case
length-eq_ignore_ascii_case s t h =
    sym (length-map to_ascii_lowercase s)
    ∙ length-bytes_eq (map to_ascii_lowercase s) (map to_ascii_lowercase t) h
    ∙ length-map to_ascii_lowercase t

any_window-key :
    (key back : Str)
    → eq_ignore_ascii_case key traceparent ≡ true
    → any_window traceparent (key ++ back) ≡ true
unfolding any_window
any_window-key [] back h =
    let bad = length-eq_ignore_ascii_case [] traceparent h in absurd (omega arith)
any_window-key (b ∷ key) back h =
    let window : take (length traceparent) ((b ∷ key) ++ back) ≡ b ∷ key =
      take-append (b ∷ key) back (length traceparent)
        (sym (length-eq_ignore_ascii_case (b ∷ key) traceparent h)) in
    rw (window, h) refl

any_window-behind :
    (front s : Str) → any_window traceparent s ≡ true → any_window traceparent (front ++ s) ≡ true
unfolding any_window
any_window-behind [] s h = h
any_window-behind (b ∷ front) s h = rw (any_window-behind front s h) (or_true _)
  where
    or_true : (a : Bool) → (a || true) ≡ true
    or_true a = ground arith

-- The cheap test of the text does not overlook the key.
pub any_window-Contains : (s : Str) → Contains s → any_window traceparent s ≡ true
any_window-Contains s c =
    ap (any_window traceparent) c.parts
    ∙ any_window-behind c.front (c.key ++ c.back) (any_window-key c.key c.back c.is_key)

-- A text that equals another but for case splits the way the other does.
eq_ignore_ascii_case-append :
    (s xs ys : Str)
    → eq_ignore_ascii_case s (xs ++ ys) ≡ true
    → (front : Str) × (back : Str) × (s ≡ front ++ back) × (eq_ignore_ascii_case back ys ≡ true)
unfolding eq_ignore_ascii_case bytes_eq
eq_ignore_ascii_case-append s [] ys h = ([], s, refl, h)
eq_ignore_ascii_case-append [] (x ∷ xs) ys h = cc
eq_ignore_ascii_case-append (b ∷ s) (x ∷ xs) ys h =
    let rest : bytes_eq (map to_ascii_lowercase s) (map to_ascii_lowercase (xs ++ ys)) ≡ true =
      ground arith in
    let (front, back, e, f) = eq_ignore_ascii_case-append s xs ys rest in
    (b ∷ front, back, ap (◌∷◌ b) e, f)

unreserved_byte :
    (b c : ℕ)
    → (to_ascii_lowercase b == to_ascii_lowercase c) ≡ true
    → is_unreserved c ≡ true
    → is_unreserved b ≡ true
unfolding is_unreserved
unreserved_byte b c h k = ground arith

unreserved_text :
    (s t : Str)
    → eq_ignore_ascii_case s t ≡ true
    → All (λ b. is_unreserved b ≡ true) t
    → All (λ b. is_unreserved b ≡ true) s
unfolding eq_ignore_ascii_case bytes_eq
unreserved_text [] t h k = tt
unreserved_text (b ∷ s) [] h k = cc
unreserved_text (b ∷ s) (c ∷ t) h k =
    let same : (to_ascii_lowercase b == to_ascii_lowercase c) ≡ true = ground arith in
    let rest : bytes_eq (map to_ascii_lowercase s) (map to_ascii_lowercase t) ≡ true =
      ground arith in
    (unreserved_byte b c same k.0, unreserved_text s t rest k.1)

url_encode-unreserved : (s : Str) → All (λ b. is_unreserved b ≡ true) s → url_encode s ≡ s
unfolding percent_encode
url_encode-unreserved [] h = refl
url_encode-unreserved (b ∷ s) h = rw h.0 (ap (◌∷◌ b) (url_encode-unreserved s h.1))

-- A key of a parent trace is written as it is.
pub url_encode-Contains : (key : Str) → is_traceparent_key key ≡ true → Contains (url_encode key)
unfolding is_traceparent_key
url_encode-Contains key h = elim (Bool-cases (eq_ignore_ascii_case key traceparent)) [
  | inl e ↦ record {
    front = [];
    key = key;
    back = [];
    parts =
        url_encode-unreserved key
          (unreserved_text key traceparent e (unfold is_unreserved in ground arith))
        ∙ sym (append-nil key);
    is_key = e;
  }
  | inr e ↦
      let prefixed : eq_ignore_ascii_case key prefixed_traceparent ≡ true = ground arith in
      let (front, back, f, g) =
        eq_ignore_ascii_case-append key (112 ∷ 103 ∷ 95 ∷ 111 ∷ 116 ∷ 101 ∷ 108 ∷ 46 ∷ [])
          traceparent prefixed in
      record {
        front = front;
        key = back;
        back = [];
        parts =
            url_encode-unreserved key (
              unreserved_text key prefixed_traceparent prefixed
                (unfold is_unreserved in ground arith))
            ∙ f
            ∙ ap (λ u. front ++ u) (sym (append-nil back));
        is_key = g;
      }
]
