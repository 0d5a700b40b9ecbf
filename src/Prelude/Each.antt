-- ===== src/Prelude/Each.antt =====
-- What holds of the result of code, if it returns one.
use pg_otel.Prelude.Results.{Outcome, returns, panics, unfinished, ◌>>=◌}
use mathlib.Core.Path.{◌≡◌, subst}

module _ {ℓ κ} {B : Type ℓ} (P : B → Type κ) where
  abbrev pub Each : Outcome B → Type κ
  Each (returns b) = P b
  Each panics = Unit {κ}
  Each unfinished = Unit {κ}

  pub Each-bind {μ} :
      {A : Type μ} (o : Outcome A) (f : A → Outcome B) → ((a : A) → Each (f a)) → Each (o >>= f)
  Each-bind (returns a) f h = h a
  Each-bind panics f h = tt
  Each-bind unfinished f h = tt

  pub Each-returns : (o : Outcome B) (b : B) → o ≡ returns b → Each o → P b
  Each-returns o b e h = subst Each e h

pub Each-mono {ℓ κ μ} :
    {B : Type ℓ} (P : B → Type κ) (Q : B → Type μ) (o : Outcome B)
    → ((b : B) → P b → Q b)
    → Each P o
    → Each Q o
Each-mono P Q (returns b) f h = f b h
Each-mono P Q panics f h = tt
Each-mono P Q unfinished f h = tt
