-- ===== src/AuthServer/Lifetimes.antt =====
-- When tokens expire.
use fxa_local_dev.Prelude.{
  ℕ, ◌+◌, ◌-◌, ◌*◌, ◌/◌, ◌≤◌, ◌<◌, String, ◌≡◌, refl, ap, ◌∙◌, false, Option, some, arith, leb,
  ◌==◌,
}
use fxa_local_dev.AuthServer.Tokens.{expired, new_password_token, new_token, ttl}

nonzero : (n : ℕ) → 0 < n → (n == 0) ≡ false
nonzero n pos = ground arith

-- The seconds of a time, rounded up.
rounded :
    (left : ℕ) → (left ≤ (left + 999) / 1000 * 1000) × ((left + 999) / 1000 * 1000 < left + 1000)
rounded left = (omega arith, omega arith)

rounded_zero : (t at : ℕ) → ((t - at + 999) / 1000 == 0) ≡ leb t at
rounded_zero t at = ground arith

-- A token of a password, created at a time other than 0 with a lifetime other than 0, is expired just
-- if its lifetime has passed at the time asked about; the time to live that is told covers what is
-- left of the lifetime, by less than a second.
pub expired_exact :
    (lifetime created_at at : ℕ) (uid : Option String)
    → 0 < lifetime
    → 0 < created_at
    → 0 < at
    → let t = new_password_token lifetime uid (some created_at) in
      (seconds : ℕ) × (ttl t (some at) at ≡ some seconds)
      × (expired t (some at) at ≡ leb (created_at + lifetime) at)
      × ((created_at + lifetime) - at ≤ seconds * 1000)
      × (seconds * 1000 < (created_at + lifetime) - at + 1000)
unfolding expired ttl new_password_token new_token
expired_exact lifetime created_at at uid pos pos' pos'' =
    rw (nonzero lifetime pos, nonzero created_at pos', nonzero at pos'')
      (
        (lifetime + created_at - at + 999) / 1000,
        refl,
        rounded_zero (lifetime + created_at) at ∙ ap (λ t. leb t at) (omega arith),
        omega arith,
        omega arith,
      )
