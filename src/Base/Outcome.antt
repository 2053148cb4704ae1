-- ===== src/Base/Outcome.antt =====
-- What a call comes to: a value, an error that the caller sees, or a panic of the task.

pub data Outcome {ℓ κ} (E : Type ℓ) (A : Type κ) : Type (ℓ ⊔ κ) where
  ok : A → Outcome E A
  err : E → Outcome E A
  panic : Outcome E A
