-- ===== src/Prelude/Results.antt =====
-- The results of Rust code: `Result`, and the outcome of code that can panic or loop.

-- `Result<A, E>`.
pub data Result {ℓ κ} (A : Type ℓ) (E : Type κ) : Type (ℓ ⊔ κ) where
  ok : A → Result A E
  err : E → Result A E

-- What running a piece of code comes to: it returns, it panics (an index out of range, a remainder
-- by zero), or, where the model gives a loop fuel, it is not done yet.
pub data Outcome {ℓ} (A : Type ℓ) : Type ℓ where
  returns : A → Outcome A
  panics : Outcome A
  unfinished : Outcome A

module _ {ℓ κ} {A : Type ℓ} {B : Type κ} where
  infixl 5 ◌>>=◌
  abbrev pub ◌>>=◌ : Outcome A → (A → Outcome B) → Outcome B
  returns a >>= f = f a
  panics >>= f = panics
  unfinished >>= f = unfinished
