-- ===== src/Sanitize/Quiet.antt =====
-- `MessageSuppression` of src/sanitize.rs around the scan of `lex`. `slot` is the place of
-- `log_min_messages` that src/compat finds, `error` the level of an error.
pub mod Restored
pub mod Tests
use pg_otel.Prelude.{ℕ, zero, suc, Option, none, some, List, [], ◌∷◌, leb, if◌then◌else◌, get_or}
use pg_otel.Sanitize.Tokens.{Token, Scanned, lex}

-- The two settings of Postgres: the levels of the log have a place for each type of backend, or one.
pub record Messages : Type 0 where
  pub client_min_messages : ℕ
  pub log_min_messages : List ℕ

-- The saved levels.
pub record MessageSuppression : Type 0 where
  pub client_level : ℕ
  pub log_level : ℕ

abbrev pub max_level : ℕ → ℕ → ℕ
max_level a b = if leb a b then b else a

-- A write through a pointer to the place `i`.
abbrev pub set_at : List ℕ → ℕ → ℕ → List ℕ
set_at [] i level = []
set_at (x ∷ xs) zero level = level ∷ xs
set_at (x ∷ xs) (suc i) level = x ∷ set_at xs i level

module _ (error : ℕ) where
  abbrev pub log_level_of : Option ℕ → Messages → ℕ
  log_level_of none m = error
  log_level_of (some i) m = get_or m.log_min_messages i error

  abbrev pub set_log_min_messages : Option ℕ → ℕ → Messages → Messages
  set_log_min_messages none level m = m
  set_log_min_messages (some i) level m = record m {
    log_min_messages = set_at m.log_min_messages i level;
  }

  abbrev pub suppression_new : Option ℕ → Messages → MessageSuppression × Messages
  suppression_new slot m =
      let saved : MessageSuppression = record {
        client_level = m.client_min_messages;
        log_level = log_level_of slot m;
      } in
      let quiet = record m { client_min_messages = max_level saved.client_level error } in
      (saved, set_log_min_messages slot (max_level saved.log_level error) quiet)

  abbrev pub suppression_drop : Option ℕ → MessageSuppression → Messages → Messages
  suppression_drop slot saved m =
      set_log_min_messages slot saved.log_level
        (record m { client_min_messages = saved.client_level })

  -- The scanner sees the settings and may change them; an error that it raises is caught, and the
  -- settings are restored in either case.
  unfoldable pub lex_quietly :
      Option ℕ
      → (Messages → Option (List Scanned) × Messages)
      → Messages
      → Option (List Token) × Messages
  lex_quietly slot scan m =
      let (saved, quiet) = suppression_new slot m in
      let (scanned, after) = scan quiet in (lex scanned, suppression_drop slot saved after)
