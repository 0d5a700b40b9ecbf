-- ===== src/Trace/Nested.antt =====
-- Texts with nested comments, and what `block_comments` of src/postgres.rs finds in them.
use pg_otel.Prelude.{
  ℕ, ◌+◌, ◌-◌, ◌≡◌, refl, sym, ap, ◌∙◌, ◌⊎◌, inl, inr, true, false, ◌&&◌, ◌||◌, not, Bool, List, [],
  ◌∷◌, ◌++◌, append_assoc, append-nil, length, length-append, ◌==◌, slice, take, drop-append,
  take-append, ap₂, returns, arith,
}
use pg_otel.Prelude.Utf8.{is_utf8}
use pg_otel.Span.{Str}
use pg_otel.Trace.{comment_ranges, block_comments}
use pg_otel.Trace.Comments.{texts_of, comment_texts-returns, comment_ranges_lem}

-- A text with comments in it: a last piece of text, or a first piece, a comment with its inner text,
-- and the rest.
pub data Sql : Type 0 where
  text : Str → Sql
  comment : (front : Str) (inner rest : Sql) → Sql

abbrev pub print : Sql → Str
print (text t) = t
print (comment front inner rest) = front ++ (47 ∷ 42 ∷ (print inner ++ (42 ∷ 47 ∷ print rest)))

-- The inner texts of the comments, those within a comment before it.
abbrev pub comments_of : Sql → List Str
comments_of (text t) = []
comments_of (comment front inner rest) = comments_of inner ++ (print inner ∷ comments_of rest)

abbrev is_marker : ℕ → ℕ → Bool
is_marker a b = (a == 47 && b == 42) || (a == 42 && b == 47)

-- No two bytes side by side open or close a comment.
unfoldable pub unmarked : Str → Bool
unmarked [] = true
unmarked (a ∷ []) = true
unmarked (a ∷ b ∷ bs) = not (is_marker a b) && unmarked (b ∷ bs)

-- The pieces of text make no marker, neither by themselves nor with the first byte of the marker
-- behind them; `close` is what comes behind the whole text.
abbrev pub IsSql : (close : Str) → Sql → Type 0
IsSql close (text t) = unmarked (t ++ close) ≡ true
IsSql close (comment front inner rest) =
    (unmarked (front ++ (47 ∷ [])) ≡ true) × IsSql (42 ∷ []) inner × IsSql close rest

abbrev ranges_of : ℕ → Sql → List (ℕ × ℕ)
ranges_of i (text t) = []
ranges_of i (comment front inner rest) =
    let start = i + length front + 2 in
    let end = start + length (print inner) in
    ranges_of start inner ++ ((start, end) ∷ ranges_of (end + 2) rest)

-- Two bytes that are no marker are passed.
comment_ranges-passed :
    (i a b : ℕ) (opens bs : List ℕ)
    → is_marker a b ≡ false
    → comment_ranges i opens (a ∷ b ∷ bs) ≡ comment_ranges (i + 1) opens (b ∷ bs)
unfolding comment_ranges
comment_ranges-passed i a b opens bs h =
    let no_opening : (a == 47 && b == 42) ≡ false = ground arith in
    let no_closing : (a == 42 && b == 47) ≡ false = ground arith in rw (no_opening, no_closing) refl

not_marker :
    (a b : ℕ) (bs : Str)
    → unmarked (a ∷ b ∷ bs) ≡ true
    → (is_marker a b ≡ false) × (unmarked (b ∷ bs) ≡ true)
unfolding unmarked
not_marker a b bs h = ground arith

-- A piece of text before a byte `c` is passed.
comment_ranges-text :
    (i c : ℕ) (opens t tail : List ℕ)
    → unmarked (t ++ (c ∷ [])) ≡ true
    → comment_ranges i opens (t ++ (c ∷ tail)) ≡ comment_ranges (i + length t) opens (c ∷ tail)
comment_ranges-text i c opens [] tail h = ap (λ j. comment_ranges j opens (c ∷ tail)) (omega arith)
comment_ranges-text i c opens (a ∷ []) tail h =
    comment_ranges-passed i a c opens tail (not_marker a c [] h).0
comment_ranges-text i c opens (a ∷ b ∷ t) tail h =
    let (plain, rest) = not_marker a b (t ++ (c ∷ [])) h in
    comment_ranges-passed i a b opens (t ++ (c ∷ tail)) plain
    ∙ comment_ranges-text (i + 1) c opens (b ∷ t) tail rest
    ∙ ap (λ j. comment_ranges j opens (c ∷ tail)) (omega arith)

comment_ranges-last : (i : ℕ) (opens t : List ℕ) → unmarked t ≡ true → comment_ranges i opens t ≡ []
comment_ranges-last i opens [] h = unfold comment_ranges in refl
comment_ranges-last i opens (a ∷ []) h = unfold comment_ranges in refl
comment_ranges-last i opens (a ∷ b ∷ t) h =
    let (plain, rest) = not_marker a b t h in
    comment_ranges-passed i a b opens t plain ∙ comment_ranges-last (i + 1) opens (b ∷ t) rest

comment_ranges-opening :
    (i : ℕ) (opens bs : List ℕ)
    → comment_ranges i opens (47 ∷ 42 ∷ bs) ≡ comment_ranges (i + 2) ((i + 2) ∷ opens) bs
unfolding comment_ranges
comment_ranges-opening i opens bs = refl

comment_ranges-closing :
    (i start : ℕ) (opens bs : List ℕ)
    → comment_ranges i (start ∷ opens) (42 ∷ 47 ∷ bs) ≡ (start, i) ∷ comment_ranges (i + 2) opens bs
unfolding comment_ranges
comment_ranges-closing i start opens bs = refl

-- What comes behind a text: nothing, or the end of the comment around it.
abbrev Closes : (close tail : Str) → Type 0
Closes close tail =
    ((close ≡ []) × (tail ≡ [])) ⊎ ((close ≡ 42 ∷ []) × ((more : Str) × (tail ≡ 42 ∷ more)))

print_assoc :
    (front : Str) (inner rest : Sql) (tail : Str)
    → print (comment front inner rest) ++ tail
      ≡ front ++ (47 ∷ 42 ∷ (print inner ++ (42 ∷ 47 ∷ (print rest ++ tail))))
print_assoc front inner rest tail =
    append_assoc front (47 ∷ 42 ∷ (print inner ++ (42 ∷ 47 ∷ print rest))) tail
    ∙ ap (λ t. front ++ (47 ∷ 42 ∷ t)) (append_assoc (print inner) (42 ∷ 47 ∷ print rest) tail)

length-print :
    (front : Str) (inner rest : Sql)
    → length (print (comment front inner rest))
      ≡ length front + 2 + length (print inner) + 2 + length (print rest)
length-print front inner rest = omega (
  arith,
  length-append front (47 ∷ 42 ∷ (print inner ++ (42 ∷ 47 ∷ print rest))),
  length-append (print inner) (42 ∷ 47 ∷ print rest),
)

comment_ranges-piece :
    (i : ℕ) (opens : List ℕ) (t close tail : Str)
    → unmarked (t ++ close) ≡ true
    → Closes close tail
    → comment_ranges i opens (t ++ tail) ≡ comment_ranges (i + length t) opens tail
comment_ranges-piece i opens t close tail h (inl (c, e)) =
    let plain : unmarked t ≡ true =
      ap unmarked (sym (append-nil t) ∙ ap (λ u. t ++ u) (sym c)) ∙ h in
    ap (λ u. comment_ranges i opens (t ++ u)) e
    ∙ ap (comment_ranges i opens) (append-nil t)
    ∙ comment_ranges-last i opens t plain
    ∙ sym (comment_ranges-last (i + length t) opens [] (unfold unmarked in refl))
    ∙ ap (comment_ranges (i + length t) opens) (sym e)
comment_ranges-piece i opens t close tail h (inr (c, (more, e))) =
    let plain : unmarked (t ++ (42 ∷ [])) ≡ true = ap (λ u. unmarked (t ++ u)) (sym c) ∙ h in
    ap (λ u. comment_ranges i opens (t ++ u)) e
    ∙ comment_ranges-text i 42 opens t more plain
    ∙ ap (comment_ranges (i + length t) opens) (sym e)

-- The scan of a printed text finds its comments, whatever is open around it and comes behind it.
comment_ranges-print :
    (i : ℕ) (opens : List ℕ) (q : Sql) (close tail : Str)
    → IsSql close q
    → Closes close tail
    → comment_ranges i opens (print q ++ tail)
      ≡ ranges_of i q ++ comment_ranges (i + length (print q)) opens tail
comment_ranges-print i opens (text t) close tail h c = comment_ranges-piece i opens t close tail h c
comment_ranges-print i opens (comment front inner rest) close tail h c =
    let start = i + length front + 2 in
    let end = start + length (print inner) in
    let behind = print rest ++ tail in
    let last = comment_ranges (i + length (print (comment front inner rest))) opens tail in
    ap (comment_ranges i opens) (print_assoc front inner rest tail)
    ∙ comment_ranges-text i 47 opens front (42 ∷ (print inner ++ (42 ∷ 47 ∷ behind))) h.0
    ∙ comment_ranges-opening (i + length front) opens (print inner ++ (42 ∷ 47 ∷ behind))
    ∙ comment_ranges-print start (start ∷ opens) inner (42 ∷ []) (42 ∷ 47 ∷ behind) h.1
        (inr (refl, (47 ∷ behind, refl)))
    ∙ ap (λ r. ranges_of start inner ++ r)
        (comment_ranges-closing end start opens behind
          ∙ ap (◌∷◌ (start, end)) (
              comment_ranges-print (end + 2) opens rest close tail h.2 c
              ∙ ap (λ j. ranges_of (end + 2) rest ++ comment_ranges j opens tail)
                  (omega (arith, length-print front inner rest))))
    ∙ sym (append_assoc (ranges_of start inner) ((start, end) ∷ ranges_of (end + 2) rest) last)

slice-middle :
    (front t back : Str) (i n : ℕ)
    → i ≡ length front
    → n ≡ length t
    → slice (front ++ (t ++ back)) i n ≡ t
slice-middle front t back i n e f =
    ap (take n) (drop-append front (t ++ back) i e) ∙ take-append t back n f

texts_of-append :
    (s : Str) (xs ys : List (ℕ × ℕ)) → texts_of s (xs ++ ys) ≡ texts_of s xs ++ texts_of s ys
texts_of-append s [] ys = refl
texts_of-append s (x ∷ xs) ys = ap (◌∷◌ (slice s x.0 (x.1 - x.0))) (texts_of-append s xs ys)

-- The ranges of the comments of a text that stands at index `i` of `s` are the comments.
texts_of-ranges_of :
    (s : Str) (i : ℕ) (q : Sql) (front back : Str)
    → s ≡ front ++ (print q ++ back)
    → i ≡ length front
    → texts_of s (ranges_of i q) ≡ comments_of q
texts_of-ranges_of s i (text t) front back e f = refl
texts_of-ranges_of s i (comment text_before inner rest) front back e f =
    let start = i + length text_before + 2 in
    let end = start + length (print inner) in
    let opened = front ++ (text_before ++ (47 ∷ 42 ∷ [])) in
    let closed = opened ++ (print inner ++ (42 ∷ 47 ∷ [])) in
    let split : s ≡ opened ++ (print inner ++ (42 ∷ 47 ∷ (print rest ++ back))) =
      e
      ∙ ap (λ u. front ++ u) (print_assoc text_before inner rest back)
      ∙ sym (
          append_assoc front (text_before ++ (47 ∷ 42 ∷ [])) _
          ∙ ap (λ u. front ++ u) (append_assoc text_before (47 ∷ 42 ∷ []) _)) in
    let split_rest : s ≡ closed ++ (print rest ++ back) =
      split
      ∙ sym (
          append_assoc opened (print inner ++ (42 ∷ 47 ∷ [])) _
          ∙ ap (λ u. opened ++ u) (append_assoc (print inner) (42 ∷ 47 ∷ []) _)) in
    let here : start ≡ length opened = omega (
      arith,
      f,
      length-append front (text_before ++ (47 ∷ 42 ∷ [])),
      length-append text_before (47 ∷ 42 ∷ []),
    ) in
    let there : end + 2 ≡ length closed = omega (
      arith,
      here,
      length-append opened (print inner ++ (42 ∷ 47 ∷ [])),
      length-append (print inner) (42 ∷ 47 ∷ []),
    ) in
    texts_of-append s (ranges_of start inner) ((start, end) ∷ ranges_of (end + 2) rest)
    ∙ ap₂ (λ a b. a ++ b)
        (texts_of-ranges_of s start inner opened (42 ∷ 47 ∷ (print rest ++ back)) split here)
        (ap₂ (λ a b. a ∷ b)
          (ap (λ u. slice u start (end - start)) split
            ∙ slice-middle opened (print inner) (42 ∷ 47 ∷ (print rest ++ back)) start (end - start)
                here (omega arith))
          (texts_of-ranges_of s (end + 2) rest closed back split_rest there))

-- In a text whose pieces between the comments and their markers make no marker, `block_comments`
-- finds exactly the comments, those within a comment before it, if the text is UTF-8.
pub block_comments-print :
    (q : Sql)
    → IsSql [] q
    → is_utf8 (print q) ≡ true
    → block_comments (print q) ≡ returns (comments_of q)
unfolding block_comments
block_comments-print q h u =
    let all = print q in
    let found : comment_ranges 0 [] all ≡ ranges_of 0 q =
      ap (comment_ranges 0 []) (sym (append-nil all))
      ∙ comment_ranges-print 0 [] q [] [] h (inl (refl, refl))
      ∙ ap (λ r. ranges_of 0 q ++ r) (comment_ranges-last _ [] [] (unfold unmarked in refl))
      ∙ append-nil (ranges_of 0 q) in
    comment_texts-returns all (comment_ranges 0 [] all) u (comment_ranges_lem all)
    ∙ ap (λ r. returns (texts_of all r)) found
    ∙ ap returns (texts_of-ranges_of all 0 q [] [] (sym (append-nil all)) refl)
