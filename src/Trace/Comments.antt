-- ===== src/Trace/Comments.antt =====
-- `block_comments` of src/postgres.rs: what it finds are the comments, and it does not panic.
use pg_otel.Prelude.{
  ℕ, suc, ◌+◌, ◌-◌, ◌≤◌, ◌<◌, ◌≡◌, inl, inr, refl, sym, ap, ◌∙◌, subst, true, ◌&&◌, Bool-cases,
  some, List, [], ◌∷◌, length, get_or, slice, ◌==◌, All, All-mono, returns, arith, map,
}
use pg_otel.Prelude.Utf8.{is_utf8, is_char_boundary}
use pg_otel.Prelude.Text.{get_range}
use pg_otel.Prelude.Boundaries.{is_char_boundary-before, is_char_boundary-after}
use pg_otel.Span.{Str}
use pg_otel.Trace.{popped, push_comment, comment_ranges, comment_texts, block_comments}

-- A `/*` that ends at `start`, at or before index `i`.
record IsOpen (text : Str) (i start : ℕ) : Type 0 where
  room : 2 ≤ start
  before : start ≤ i
  slash : get_or text (start - 2) 0 ≡ 47
  star : get_or text (start - 1) 0 ≡ 42

-- The range of a text between a `/*` and a `*/`.
pub record IsComment (text : Str) (range : ℕ × ℕ) : Type 0 where
  pub room : 2 ≤ range.0
  pub ordered : range.0 ≤ range.1
  pub inside : range.1 + 2 ≤ length text
  pub opening_slash : get_or text (range.0 - 2) 0 ≡ 47
  pub opening_star : get_or text (range.0 - 1) 0 ≡ 42
  pub closing_star : get_or text (range.1) 0 ≡ 42
  pub closing_slash : get_or text (range.1 + 1) 0 ≡ 47

-- The bytes of `rest` are those of the text from index `i` on.
record IsRest (text : Str) (i : ℕ) (rest : List ℕ) : Type 0 where
  ends : i + length rest ≡ length text
  bytes : (k : ℕ) → k < length rest → get_or rest k 0 ≡ get_or text (i + k) 0

IsRest-next :
    (text : Str) (i a : ℕ) (rest : List ℕ) → IsRest text i (a ∷ rest) → IsRest text (i + 1) rest
IsRest-next text i a rest r = record {
  ends = omega (arith, r.ends);
  bytes = λ k h. r.bytes (suc k) (omega arith) ∙ ap (λ j. get_or text j 0) (omega arith);
}

IsOpen-later : (text : Str) (i j start : ℕ) → i ≤ j → IsOpen text i start → IsOpen text j start
IsOpen-later text i j start h o = record {
  room = o.room;
  before = omega (arith, o.before);
  slash = o.slash;
  star = o.star;
}

pair_lem : (a b x y : ℕ) → (a == x && b == y) ≡ true → (a ≡ x) × (b ≡ y)
pair_lem a b x y e = ground arith

popped-IsOpen :
    (text : Str) (i j : ℕ) (opens : List ℕ)
    → i ≤ j
    → All (IsOpen text i) opens
    → All (IsOpen text j) (popped opens)
popped-IsOpen text i j [] h o = tt
popped-IsOpen text i j (s ∷ ss) h o =
    All-mono (IsOpen text i) (IsOpen text j) ss (λ s. IsOpen-later text i j s h) o.1

push_comment-IsComment :
    (text : Str) (i : ℕ) (opens : List ℕ) (comments : List (ℕ × ℕ))
    → All (IsOpen text i) opens
    → i + 2 ≤ length text
    → get_or text i 0 ≡ 42
    → get_or text (i + 1) 0 ≡ 47
    → All (IsComment text) comments
    → All (IsComment text) (push_comment opens i comments)
push_comment-IsComment text i [] comments o h x y c = c
push_comment-IsComment text i (s ∷ ss) comments o h x y c = (
  record {
    room = o.0.room;
    ordered = o.0.before;
    inside = h;
    opening_slash = o.0.slash;
    opening_star = o.0.star;
    closing_star = x;
    closing_slash = y;
  },
  c,
)

comment_ranges-IsComment :
    (text : Str) (i : ℕ) (opens bytes : List ℕ)
    → IsRest text i bytes
    → All (IsOpen text i) opens
    → All (IsComment text) (comment_ranges i opens bytes)
unfolding comment_ranges
comment_ranges-IsComment text i opens [] r o = tt
comment_ranges-IsComment text i opens (a ∷ []) r o = tt
comment_ranges-IsComment text i opens (a ∷ b ∷ rest) r o =
    let next = IsRest-next text i a (b ∷ rest) r in
    let after : IsRest text (i + 2) rest =
      subst (λ j. IsRest text j rest) (omega arith) (IsRest-next text (i + 1) b rest next) in
    let first : a ≡ get_or text i 0 =
      r.bytes 0 (omega arith) ∙ ap (λ j. get_or text j 0) (omega arith) in
    let second : b ≡ get_or text (i + 1) 0 = r.bytes 1 (omega arith) in
    let size : i + 2 ≤ length text = omega (arith, r.ends) in
    elim (Bool-cases (a == 47 && b == 42)) [
      | inl e ↦
          let (is_slash, is_star) = pair_lem a b 47 42 e in
          let opened : IsOpen text (i + 2) (i + 2) = record {
            room = omega arith;
            before = omega arith;
            slash = ap (λ j. get_or text j 0) (omega arith) ∙ sym first ∙ is_slash;
            star = ap (λ j. get_or text j 0) (omega arith) ∙ sym second ∙ is_star;
          } in
          rw e (
            comment_ranges-IsComment text (i + 2) ((i + 2) ∷ opens) rest after (
              opened,
              All-mono (IsOpen text i) (IsOpen text (i + 2)) opens
                  (λ s. IsOpen-later text i (i + 2) s (omega arith)) o,
            ))
      | inr e ↦ elim (Bool-cases (a == 42 && b == 47)) [
        | inl f ↦
            let (is_star, is_slash) = pair_lem a b 42 47 f in
            rw (e, f)
              (push_comment-IsComment text i opens _ o size (sym first ∙ is_star)
                (sym second ∙ is_slash)
                (comment_ranges-IsComment text (i + 2) (popped opens) rest after
                  (popped-IsOpen text i (i + 2) opens (omega arith) o)))
        | inr f ↦
            rw (e, f)
              (comment_ranges-IsComment text (i + 1) opens (b ∷ rest) next (
                All-mono (IsOpen text i) (IsOpen text (i + 1)) opens
                  (λ s. IsOpen-later text i (i + 1) s (omega arith)) o))
      ]
    ]

-- Each range that the scan of a text finds lies within the text, right behind a `/*` and right
-- before a `*/`.
pub comment_ranges_lem : (text : Str) → All (IsComment text) (comment_ranges 0 [] text)
comment_ranges_lem text =
    comment_ranges-IsComment text 0 [] text
      (record { ends = omega arith; bytes = λ k h. ap (λ j. get_or text j 0) (omega arith) }) tt

get_range-some :
    (s : Str) (i j : ℕ)
    → i ≤ j
    → is_char_boundary s i ≡ true
    → is_char_boundary s j ≡ true
    → get_range s i j ≡ some (slice s i (j - i))
unfolding get_range
get_range-some s i j h a b = ground arith

comment_text :
    (text : Str) (range : ℕ × ℕ)
    → is_utf8 text ≡ true
    → IsComment text range
    → get_range text range.0 range.1 ≡ some (slice text range.0 (range.1 - range.0))
comment_text text (start, end) u c =
    let last : suc (start - 1) ≡ start = omega (arith, c.room) in
    get_range-some text start end c.ordered
      (subst (λ i. is_char_boundary text i ≡ true) last
        (is_char_boundary-after text (start - 1) u (omega (arith, c.room, c.ordered, c.inside))
          (omega (arith, c.opening_star))))
      (is_char_boundary-before text end (omega (arith, c.inside)) (omega (arith, c.closing_star)))

abbrev pub texts_of : Str → List (ℕ × ℕ) → List Str
texts_of text ranges = map (λ r. slice text r.0 (r.1 - r.0)) ranges

pub comment_texts-returns :
    (text : Str) (ranges : List (ℕ × ℕ))
    → is_utf8 text ≡ true
    → All (IsComment text) ranges
    → comment_texts text ranges ≡ returns (texts_of text ranges)
comment_texts-returns text [] u c = refl
comment_texts-returns text ((start, end) ∷ ranges) u c =
    rw (comment_text text (start, end) u c.0, comment_texts-returns text ranges u c.1) refl

-- On every UTF-8 text the search for comments returns: no slice cuts a character. What it returns
-- are the texts of ranges of which each lies right behind a `/*` and right before a `*/`.
pub block_comments_total :
    (text : Str)
    → is_utf8 text ≡ true
    → (ranges : List (ℕ × ℕ)) × (block_comments text ≡ returns (texts_of text ranges))
      × All (IsComment text) ranges
unfolding block_comments
block_comments_total text u = (
  comment_ranges 0 [] text,
  comment_texts-returns text (comment_ranges 0 [] text) u (comment_ranges_lem text),
  comment_ranges_lem text,
)
