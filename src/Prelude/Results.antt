-- ===== src/Prelude/Results.antt =====
-- The result of C++ code that may throw an exception of type `E`.
pub data Result {ℓ} (E : Type 0) (A : Type ℓ) : Type ℓ where
  ok : A → Result E A
  throw : E → Result E A

infixl 5 ◌>>=◌
abbrev pub ◌>>=◌ {ℓ κ} :
    {E : Type 0} {A : Type ℓ} {B : Type κ} → Result E A → (A → Result E B) → Result E B
throw e >>= next = throw e
ok a >>= next = next a
