-- ===== src/Sanitize/Quiet/Tests.antt =====
-- The theorem on the suppression of messages in a process of the second type of three.
use pg_otel.Prelude.{◌≡◌, refl, Option, none, some, List, [], ◌∷◌, arith}
use pg_otel.Sanitize.Tokens.{Scanned}
use pg_otel.Sanitize.Quiet.{Messages, lex_quietly}
use pg_otel.Sanitize.Quiet.Restored.{Quieted, lex_quietly_lem}

abbrev messages : Messages
messages = record { client_min_messages = 18; log_min_messages = 15 ∷ 19 ∷ 22 ∷ [] }

-- A scanner that raises an error.
abbrev failing : Messages → Option (List Scanned) × Messages
failing m = (none, m)

restored : lex_quietly 21 (some 1) failing messages ≡ (none, messages)
unfolding lex_quietly
restored = refl

lex_quietly_lem_example :
    Quieted 21 (some 1) failing messages (lex_quietly 21 (some 1) failing messages)
lex_quietly_lem_example = lex_quietly_lem 21 (some 1) failing messages (λ n h. h) (omega arith)
