-- ===== src/Config/Loaded.antt =====
-- What `ExporterConfig::load` of src/config.rs makes of the settings.
use pg_otel.Prelude.{
  ℕ, ◌-◌, ◌^◌, ◌≡◌, refl, sym, ap, subst, ◌∙◌, ◌⊎◌, inl, inr, ◌↔◌, true, false, Bool-cases, Option,
  none, some, [], ◌∷◌, arith,
}
use pg_otel.Prelude.Int.{ℤ, pos, negsuc}
use pg_otel.Prelude.Utf8.{is_utf8}
use pg_otel.Span.{Bytes, Str}
use pg_otel.Config.{
  Settings, into_string, string_of, get_otlp_endpoint, get_otlp_protocol, name_or_default,
  ExporterConfig, as_u32, load_with, load,
}

-- A setting that is set, to a text.
abbrev pub IsGiven : Option Bytes → Str → Type 0
IsGiven setting text = (setting ≡ some text) × (is_utf8 text ≡ true)

-- A setting that may be missing, or be no text.
abbrev pub IsOptional : Option Bytes → Option Str → Type 0
IsOptional none text = text ≡ none
IsOptional (some bytes) text =
    ((is_utf8 bytes ≡ true) × (text ≡ some bytes)) ⊎ ((is_utf8 bytes ≡ false) × (text ≡ none))

abbrev pub postgresql : Str
postgresql = 112 ∷ 111 ∷ 115 ∷ 116 ∷ 103 ∷ 114 ∷ 101 ∷ 115 ∷ 113 ∷ 108 ∷ []

-- The name of the service, which is `postgresql` if the setting is missing or no text.
abbrev pub IsName : Option Bytes → Str → Type 0
IsName none name = name ≡ postgresql
IsName (some bytes) name =
    ((is_utf8 bytes ≡ true) × (name ≡ bytes)) ⊎ ((is_utf8 bytes ≡ false) × (name ≡ postgresql))

-- The 32 bits of a setting, without a sign.
abbrev pub IsWord : ℤ → ℕ → Type 0
IsWord (pos n) word = word ≡ n
IsWord (negsuc n) word = word ≡ 2 ^ 32 - 1 - n

pub record IsConfig (s : Settings) (config : ExporterConfig) : Type 0 where
  pub endpoint : IsGiven s.otlp_endpoint config.endpoint
  pub protocol : IsGiven s.otlp_protocol config.protocol
  pub timeout : IsWord s.otlp_timeout_ms config.timeout_ms
  pub authorization : IsOptional s.otlp_authorization config.authorization
  pub ca_certificate : IsOptional s.otlp_ca_certificate config.ca_certificate
  pub service_name : IsName s.otlp_service_name config.service_name

string_of-IsGiven :
    (setting : Option Bytes) (text : Str) → string_of setting ≡ some text → IsGiven setting text
unfolding into_string
string_of-IsGiven none text e = cc
string_of-IsGiven (some bytes) text e = elim (Bool-cases (is_utf8 bytes)) [
  | inl u ↦
      let same : bytes ≡ text = ground arith in (ap some same, subst (λ t. is_utf8 t ≡ true) same u)
  | inr u ↦ absurd (ground arith)
]

IsGiven-string_of :
    (setting : Option Bytes) (text : Str) → IsGiven setting text → string_of setting ≡ some text
unfolding into_string
IsGiven-string_of setting text (e, u) = ap string_of e ∙ rw u refl

string_of-IsOptional : (setting : Option Bytes) → IsOptional setting (string_of setting)
unfolding into_string
string_of-IsOptional none = refl
string_of-IsOptional (some bytes) = elim (Bool-cases (is_utf8 bytes)) [
  | inl u ↦ inl (u, rw u refl)
  | inr u ↦ inr (u, rw u refl)
]

IsOptional-string_of :
    (setting : Option Bytes) (text : Option Str)
    → IsOptional setting text
    → string_of setting ≡ text
unfolding into_string
IsOptional-string_of none text e = sym e
IsOptional-string_of (some bytes) text (inl (u, e)) = rw u (sym e)
IsOptional-string_of (some bytes) text (inr (u, e)) = rw u (sym e)

name_or_default-IsName :
    (setting : Option Bytes) → IsName setting (name_or_default (string_of setting))
unfolding into_string
name_or_default-IsName none = refl
name_or_default-IsName (some bytes) = elim (Bool-cases (is_utf8 bytes)) [
  | inl u ↦ inl (u, rw u refl)
  | inr u ↦ inr (u, rw u refl)
]

IsName-name_or_default :
    (setting : Option Bytes) (name : Str)
    → IsName setting name
    → name_or_default (string_of setting) ≡ name
unfolding into_string
IsName-name_or_default none name e = sym e
IsName-name_or_default (some bytes) name (inl (u, e)) = rw u (sym e)
IsName-name_or_default (some bytes) name (inr (u, e)) = rw u (sym e)

as_u32-IsWord : (n : ℤ) → IsWord n (as_u32 n)
as_u32-IsWord (pos n) = refl
as_u32-IsWord (negsuc n) = refl

IsWord-as_u32 : (n : ℤ) (word : ℕ) → IsWord n word → as_u32 n ≡ word
IsWord-as_u32 (pos n) word e = sym e
IsWord-as_u32 (negsuc n) word e = sym e

load_with-IsConfig :
    (s : Settings) (e p : Option Str) (config : ExporterConfig)
    → get_otlp_endpoint s ≡ e
    → get_otlp_protocol s ≡ p
    → load_with s e p ≡ some config
    → IsConfig s config
load_with-IsConfig s none p config f g h = cc
load_with-IsConfig s (some endpoint) none config f g h = cc
load_with-IsConfig s (some endpoint) (some protocol) config f g h =
    let same : load_with s (some endpoint) (some protocol) ≡ some config = h in
    subst (IsConfig s) (ground arith) (record {
      endpoint = string_of-IsGiven s.otlp_endpoint endpoint f;
      protocol = string_of-IsGiven s.otlp_protocol protocol g;
      timeout = as_u32-IsWord s.otlp_timeout_ms;
      authorization = string_of-IsOptional s.otlp_authorization;
      ca_certificate = string_of-IsOptional s.otlp_ca_certificate;
      service_name = name_or_default-IsName s.otlp_service_name;
    })

-- The settings give a configuration exactly if it is the one that they describe.
pub load-IsConfig :
    (s : Settings) (config : ExporterConfig) → (load s ≡ some config) ↔ IsConfig s config
unfolding load
load-IsConfig s config = (
  load_with-IsConfig s (get_otlp_endpoint s) (get_otlp_protocol s) config refl refl,
  λ c.
      rw
        (
          IsGiven-string_of s.otlp_endpoint config.endpoint c.endpoint,
          IsGiven-string_of s.otlp_protocol config.protocol c.protocol,
          IsWord-as_u32 s.otlp_timeout_ms config.timeout_ms c.timeout,
          IsOptional-string_of s.otlp_authorization config.authorization c.authorization,
          IsOptional-string_of s.otlp_ca_certificate config.ca_certificate c.ca_certificate,
          IsName-name_or_default s.otlp_service_name config.service_name c.service_name,
        )
        refl,
)
