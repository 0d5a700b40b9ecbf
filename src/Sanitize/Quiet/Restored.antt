-- ===== src/Sanitize/Quiet/Restored.antt =====
-- What `MessageSuppression` of src/sanitize.rs promises to the scan and to the session.
use pg_otel.Prelude.{
  ℕ, zero, suc, ◌≤◌, ◌<◌, ◌≡◌, refl, ap, Option, none, some, List, [], ◌∷◌, length, get_or, arith,
}
use pg_otel.Sanitize.Tokens.{Token, Scanned, lex}
use pg_otel.Sanitize.Quiet.{Messages, max_level, set_at, log_level_of, lex_quietly}

get_or-set_at :
    (xs : List ℕ) (i level d : ℕ) → i < length xs → get_or (set_at xs i level) i d ≡ level
get_or-set_at [] i level d h = absurd (omega arith)
get_or-set_at (x ∷ xs) zero level d h = refl
get_or-set_at (x ∷ xs) (suc i) level d h = get_or-set_at xs i level d (omega arith)

length-set_at : (xs : List ℕ) (i level : ℕ) → length (set_at xs i level) ≡ length xs
length-set_at [] i level = refl
length-set_at (x ∷ xs) zero level = refl
length-set_at (x ∷ xs) (suc i) level = ap suc (length-set_at xs i level)

max_level-IsAbove : (a b : ℕ) → b ≤ max_level a b
max_level-IsAbove a b = ground arith

-- The place of the setting is one of its levels.
abbrev pub HasSlot : Option ℕ → Messages → Type 0
HasSlot none m = Unit
HasSlot (some i) m = i < length m.log_min_messages

module _ (error : ℕ) where
  -- The tokens are those of a scan at quiet levels, and both levels are afterwards as before.
  pub record Quieted (slot : Option ℕ) (scan : Messages → Option (List Scanned) × Messages)
      (m : Messages) (out : Option (List Token) × Messages) : Type 0 where
    pub quiet : Messages
    pub client_quiet : error ≤ quiet.client_min_messages
    pub log_quiet : error ≤ log_level_of error slot quiet
    pub tokens : out.0 ≡ lex (scan quiet).0
    pub client_restored : out.1.client_min_messages ≡ m.client_min_messages
    pub log_restored : log_level_of error slot out.1 ≡ log_level_of error slot m

  -- For a scanner that leaves the number of levels as it is, and a place among them: the scan runs
  -- with both levels at an error at least, and afterwards both are as they were before, also if
  -- the scanner raises an error or changes them.
  pub lex_quietly_lem :
      (slot : Option ℕ) (scan : Messages → Option (List Scanned) × Messages) (m : Messages)
      → ((n : Messages) → HasSlot slot n → HasSlot slot (scan n).1)
      → HasSlot slot m
      → Quieted slot scan m (lex_quietly error slot scan m)
  unfolding lex_quietly
  lex_quietly_lem none scan m keeps h = record {
    quiet = record m { client_min_messages = max_level m.client_min_messages error };
    client_quiet = max_level-IsAbove m.client_min_messages error;
    log_quiet = omega arith;
    tokens = refl;
    client_restored = refl;
    log_restored = refl;
  }
  lex_quietly_lem (some i) scan m keeps h =
      let saved = get_or m.log_min_messages i error in
      let level = max_level saved error in
      let quiet : Messages = record {
        client_min_messages = max_level m.client_min_messages error;
        log_min_messages = set_at m.log_min_messages i level;
      } in
      let has : HasSlot (some i) quiet = rw (length-set_at m.log_min_messages i level) h in
      record {
        quiet = quiet;
        client_quiet = max_level-IsAbove m.client_min_messages error;
        log_quiet =
            rw (get_or-set_at m.log_min_messages i level error h) (max_level-IsAbove saved error);
        tokens = refl;
        client_restored = refl;
        log_restored =
            get_or-set_at (scan quiet).1.log_min_messages i saved error (keeps quiet has);
      }
