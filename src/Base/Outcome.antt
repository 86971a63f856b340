-- ===== src/Base/Outcome.antt =====
-- What a Go call may end in beside its results: a runtime panic.

pub data Panic : Type 0 where
  slice_range index_range make_range nil_call : Panic

pub data Outcome {ℓ} (A : Type ℓ) : Type ℓ where
  done : A → Outcome A
  panic : Panic → Outcome A

infixl 5 ◌>>=◌
abbrev pub ◌>>=◌ {ℓ κ} : {A : Type ℓ} {B : Type κ} → Outcome A → (A → Outcome B) → Outcome B
done a >>= f = f a
panic p >>= f = panic p
