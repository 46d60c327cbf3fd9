-- ===== src/Prelude/Fallible.antt =====
-- What a Go function that also returns an `error` gives: a value, or a failure of the model's type `E`.
-- The chain of two such functions stops at the first failure.
pub data Result {ℓ} (E A : Type ℓ) : Type ℓ where
  ok : A → Result E A
  fail : E → Result E A

infixl 5 ◌>>=◌
abbrev pub ◌>>=◌ {ℓ} : {E A B : Type ℓ} → Result E A → (A → Result E B) → Result E B
fail e >>= next = fail e
ok a >>= next = next a
