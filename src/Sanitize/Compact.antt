-- ===== src/Sanitize/Compact.antt =====
-- `select_list_compactions` of src/sanitize.rs: the columns of a `SELECT` that are left out.
-- An `i32` depth is an integer; a statement of at most 64 KiB cannot make it overflow.
use pg_otel.Prelude.{
  ℕ, ◌+◌, Bool, false, ◌||◌, not, Option, none, some, List, [], ◌∷◌, leb, ◌==◌, if◌then◌else◌,
}
use pg_otel.Prelude.Int.{ℤ, pos, negsuc, ◌+ℤ◌}
use pg_otel.Prelude.Text.{get_range, bytes_eq, eq_ignore_ascii_case}
use pg_otel.Span.{Str}
use pg_otel.Sanitize.Tokens.{Token}

pub record SelectListCompaction : Type 0 where
  pub start : ℕ
  pub end : ℕ
  pub additional_columns : ℕ

abbrev pub open_paren : Str
open_paren = 40 ∷ []

abbrev pub close_paren : Str
close_paren = 41 ∷ []

abbrev pub comma : Str
comma = 44 ∷ []

abbrev pub semicolon : Str
semicolon = 59 ∷ []

abbrev pub select_word : Str
select_word = 83 ∷ 69 ∷ 76 ∷ 69 ∷ 67 ∷ 84 ∷ []

-- EXCEPT, FETCH, FOR, FROM, GROUP, HAVING, INTO, INTERSECT, LIMIT, OFFSET, ORDER, UNION, WHERE,
-- WINDOW.
abbrev pub terminators : List Str
terminators =
    (69 ∷ 88 ∷ 67 ∷ 69 ∷ 80 ∷ 84 ∷ [])
    ∷ (70 ∷ 69 ∷ 84 ∷ 67 ∷ 72 ∷ [])
    ∷ (70 ∷ 79 ∷ 82 ∷ [])
    ∷ (70 ∷ 82 ∷ 79 ∷ 77 ∷ [])
    ∷ (71 ∷ 82 ∷ 79 ∷ 85 ∷ 80 ∷ [])
    ∷ (72 ∷ 65 ∷ 86 ∷ 73 ∷ 78 ∷ 71 ∷ [])
    ∷ (73 ∷ 78 ∷ 84 ∷ 79 ∷ [])
    ∷ (73 ∷ 78 ∷ 84 ∷ 69 ∷ 82 ∷ 83 ∷ 69 ∷ 67 ∷ 84 ∷ [])
    ∷ (76 ∷ 73 ∷ 77 ∷ 73 ∷ 84 ∷ [])
    ∷ (79 ∷ 70 ∷ 70 ∷ 83 ∷ 69 ∷ 84 ∷ [])
    ∷ (79 ∷ 82 ∷ 68 ∷ 69 ∷ 82 ∷ [])
    ∷ (85 ∷ 78 ∷ 73 ∷ 79 ∷ 78 ∷ [])
    ∷ (87 ∷ 72 ∷ 69 ∷ 82 ∷ 69 ∷ [])
    ∷ (87 ∷ 73 ∷ 78 ∷ 68 ∷ 79 ∷ 87 ∷ [])
    ∷ []

abbrev pub any_word : Str → List Str → Bool
any_word token [] = false
any_word token (w ∷ ws) = eq_ignore_ascii_case token w || any_word token ws

unfoldable pub select_list_terminator : Str → Bool
select_list_terminator token = any_word token terminators

abbrev pub depth_after : Str → ℤ → ℤ
depth_after text depth =
    if bytes_eq text open_paren
    then depth +ℤ pos 1
    else if bytes_eq text close_paren
    then depth +ℤ negsuc 0
    else depth

abbrev pub both : Option Str → Option (List Str) → Option (List Str)
both none rest = none
both (some text) none = none
both (some text) (some texts) = some (text ∷ texts)

-- The texts of the tokens, if all have one.
unfoldable pub token_texts : Str → List Token → Option (List Str)
token_texts sql [] = some []
token_texts sql (t ∷ ts) = both (get_range sql t.start t.end) (token_texts sql ts)

-- The text of each token with the depth before it.
abbrev pub with_depths : ℤ → List Str → List (Str × ℤ)
with_depths depth [] = []
with_depths depth (text ∷ texts) = (text, depth) ∷ with_depths (depth_after text depth) texts

abbrev pub ends_list : Str → Bool
ends_list text =
    bytes_eq text close_paren || (bytes_eq text semicolon || select_list_terminator text)

abbrev pub same_depth : ℤ → ℤ → Bool
same_depth (pos a) (pos b) = a == b
same_depth (negsuc a) (negsuc b) = a == b
same_depth (pos a) (negsuc b) = false
same_depth (negsuc a) (pos b) = false

abbrev pub or_first : Option ℕ → ℕ → Option ℕ
or_first none index = some index
or_first (some first) index = some first

-- The loop behind a `SELECT` of depth `select_depth`, from token `index` on: the first comma, the
-- number of commas, and the end of the list.
unfoldable pub select_loop :
    (select_depth : ℤ) (index : ℕ) (first_comma : Option ℕ) (additional_columns : ℕ)
    → List (Str × ℤ)
    → Option ℕ × ℕ × ℕ
select_loop select_depth index first_comma additional_columns [] =
    (first_comma, additional_columns, index)
select_loop select_depth index first_comma additional_columns ((text, depth) ∷ rest) =
    let passed = select_loop select_depth (index + 1) first_comma additional_columns rest in
    let counted =
      select_loop select_depth (index + 1) (or_first first_comma index) (additional_columns + 1)
        rest in
    if not (same_depth depth select_depth)
    then passed
    else if ends_list text
    then (first_comma, additional_columns, index)
    else if bytes_eq text comma
    then counted
    else passed

abbrev pub push_compaction :
    Option ℕ × ℕ × ℕ → List SelectListCompaction → List SelectListCompaction
push_compaction (none, columns, end) compactions = compactions
push_compaction (some start, columns, end) compactions =
    record { start = start; end = end; additional_columns = columns } ∷ compactions

-- The loop over the tokens from `index` on.
unfoldable pub find_compactions : (index : ℕ) → List (Str × ℤ) → List SelectListCompaction
find_compactions index [] = []
find_compactions index ((text, depth) ∷ rest) =
    let others = find_compactions (index + 1) rest in
    if eq_ignore_ascii_case text select_word
    then push_compaction (select_loop depth (index + 1) none 0 rest) others
    else others

abbrev pub insert_by_start :
    SelectListCompaction → List SelectListCompaction → List SelectListCompaction
insert_by_start c [] = c ∷ []
insert_by_start c (d ∷ ds) = if leb c.start d.start then c ∷ d ∷ ds else d ∷ insert_by_start c ds

-- `sort_unstable_by_key`: compactions with the same start have the same first comma and so the same
-- depth, end and columns behind it.
unfoldable pub sort_by_start : List SelectListCompaction → List SelectListCompaction
sort_by_start [] = []
sort_by_start (c ∷ cs) = insert_by_start c (sort_by_start cs)

-- The loop that keeps a compaction which begins at or after `previous_end`.
unfoldable pub non_overlapping :
    (previous_end : ℕ) → List SelectListCompaction → List SelectListCompaction
non_overlapping previous_end [] = []
non_overlapping previous_end (c ∷ cs) =
    let kept = c ∷ non_overlapping c.end cs in
    let dropped = non_overlapping previous_end cs in
    if leb previous_end c.start then kept else dropped

abbrev pub compactions_of : Option (List Str) → Option (List SelectListCompaction)
compactions_of none = none
compactions_of (some texts) =
    some (non_overlapping 0 (sort_by_start (find_compactions 0 (with_depths (pos 0) texts))))

unfoldable pub select_list_compactions : Str → List Token → Option (List SelectListCompaction)
select_list_compactions sql tokens = compactions_of (token_texts sql tokens)
