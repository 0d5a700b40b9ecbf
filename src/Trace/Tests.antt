-- ===== src/Trace/Tests.antt =====
-- The theorems on src/postgres.rs at the text `/*a*/`.
use pg_otel.Prelude.{ℕ, ◌≡◌, refl, true, List, [], ◌∷◌, All, returns}
use pg_otel.Prelude.Utf8.{is_utf8, utf8_rest, lead_byte}
use pg_otel.Span.{Str}
use pg_otel.Trace.{block_comments}
use pg_otel.Trace.Comments.{IsComment, texts_of, block_comments_total}

abbrev one_comment : Str
one_comment = 47 ∷ 42 ∷ 97 ∷ 42 ∷ 47 ∷ []

one_comment_utf8 : is_utf8 one_comment ≡ true
unfolding is_utf8 utf8_rest lead_byte
one_comment_utf8 = refl

block_comments_total_example :
    (ranges : List (ℕ × ℕ)) × (block_comments one_comment ≡ returns (texts_of one_comment ranges))
    × All (IsComment one_comment) ranges
block_comments_total_example = block_comments_total one_comment one_comment_utf8
