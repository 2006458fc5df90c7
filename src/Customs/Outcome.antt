-- ===== src/Customs/Outcome.antt =====
-- The bodies of the `update` methods: a row of blocks, each of which may return early.
use fxa_local_dev.Prelude.{ℕ}

pub data Outcome {ℓ} (R : Type ℓ) : Type ℓ where
  returns : R → ℕ → Outcome R
  continues : R → Outcome R

module _ {ℓ} {R : Type ℓ} where
  infixl 5 ◌>>=◌
  abbrev pub ◌>>=◌ : Outcome R → (R → Outcome R) → Outcome R
  returns r t >>= f = returns r t
  continues r >>= f = f r

  -- `return 0` after the last block; the record, as it is then, and the result.
  abbrev pub finish : Outcome R → R × ℕ
  finish (returns r t) = (r, t)
  finish (continues r) = (r, 0)
