-- ===== src/Base/Outcomes.antt =====
-- What a routine answers: a value, an error code, or (only when the model's fuel runs out) `stuck`.
use mathlib.Core.Option.{Option, none, some}

pub data Outcome {ℓ} (E A : Type ℓ) : Type ℓ where
  done : A → Outcome E A
  fails : E → Outcome E A
  stuck : Outcome E A

-- A null result of a helper becomes the caller's error code.
abbrev pub or_fail {ℓ} : {E A : Type ℓ} → Option A → E → Outcome E A
or_fail none e = fails e
or_fail (some a) e = done a
