-- ===== src/Prelude/Results.antt =====
-- Rust's `Result`, and `?` as a bind.

pub data Result {ℓ κ} (E : Type ℓ) (A : Type κ) : Type (ℓ ⊔ κ) where
  ok : A → Result E A
  err : E → Result E A

module _ {ℓ κ ι} {E : Type ℓ} {A : Type κ} {B : Type ι} where
  infixl 5 ◌>>=◌
  abbrev pub ◌>>=◌ : Result E A → (A → Result E B) → Result E B
  ok a >>= f = f a
  err e >>= f = err e

  -- `map_err`
  abbrev pub map_err : Result E A → (E → B) → Result B A
  map_err (ok a) f = ok a
  map_err (err e) f = err (f e)
