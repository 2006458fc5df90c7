-- ===== src/Customs/IpRecord/Accesses.antt =====
-- When an address has asked about too many different accounts.
use fxa_local_dev.Prelude.{
  ℕ, suc, String, ◌≡◌, refl, ap, ◌∙◌, inl, inr, Bool-cases, Bool, false, ◌||◌, List, [], ◌∷◌, map,
  arith, ltb, str_eq, if◌then◌else◌, Ascending,
}
use fxa_local_dev.Customs.Objects.{contains, has_key, inherited}
use fxa_local_dev.Customs.Unique.{count_unseen}
use fxa_local_dev.Customs.Unique.Distinct.{count_unseen-cons}
use fxa_local_dev.Customs.Unique.Kept.{recent_users, count-trim_unique}
use fxa_local_dev.Customs.Limits.{Limits}
use fxa_local_dev.Customs.IpRecord.{
  Access, IpRecord, is_over_verify_codes, is_over_account_status_check,
}

abbrev pub times : List Access → List ℕ
times = map (λ (a : Access). a.t)

-- Whether a name is one of a list.
abbrev occurs : String → List String → Bool
occurs u [] = false
occurs u (v ∷ us) = str_eq v u || occurs u us

-- The number of different names of a list, those of `Object.prototype` aside: each counts where it
-- stands last.
unfoldable pub different : List String → ℕ
different [] = 0
different (u ∷ us) =
    let rest = different us in if occurs u us || occurs u inherited then rest else suc rest

contains-occurs : (u : String) (us : List String) → contains u us ≡ occurs u us
unfolding contains
contains-occurs u [] = refl
contains-occurs u (v ∷ us) = ground (arith, contains-occurs u us)

has_key-occurs :
    (u : String) (us : List String) → has_key u us ≡ (occurs u us || occurs u inherited)
unfolding has_key
has_key-occurs u us = rw (contains-occurs u us, contains-occurs u inherited) refl

count_unseen-different : (us : List String) → count_unseen [] us ≡ different us
unfolding count_unseen different
count_unseen-different [] = refl
count_unseen-different (u ∷ us) = elim (Bool-cases (occurs u us || occurs u inherited)) [
  | inl counted ↦
      count_unseen-cons u us
      ∙ rw (has_key-occurs u us, counted) (omega (arith, count_unseen-different us))
  | inr new ↦
      count_unseen-cons u us
      ∙ rw (has_key-occurs u us, new) (omega (arith, count_unseen-different us))
]

module _ (limits : Limits) (now : ℕ) where
  -- The number of different accounts among the events within the interval, those named like a
  -- member of `Object.prototype` aside.
  abbrev pub recent_accounts : List Access → ℕ
  recent_accounts items =
      different
        (recent_users (λ (a : Access). a.t) (λ a. a.u) now limits.ip_rate_limit_interval_ms items)

  -- An address is over its limit of code verifications, and of account status checks, just when the
  -- events within the interval, which stand in order, concern more different accounts than the limit,
  -- those named like a member of `Object.prototype` aside, though old events and those past the limit
  -- are forgotten.
  pub over_accounts_exact :
      (r : IpRecord)
      → Ascending (times r.vc)
      → Ascending (times r.status_checks)
      → ((is_over_verify_codes limits now r).1 ≡ ltb limits.max_verify_codes (recent_accounts r.vc))
        × ((is_over_account_status_check limits now r).1
            ≡ ltb limits.max_account_status_check (recent_accounts r.status_checks))
  unfolding is_over_verify_codes is_over_account_status_check recent_users
  over_accounts_exact r asc asc' = (
    count-trim_unique (λ (a : Access). a.t) (λ a. a.u) now limits.ip_rate_limit_interval_ms
          limits.max_verify_codes r.vc asc
        ∙ ap (ltb limits.max_verify_codes) (count_unseen-different _),
    count-trim_unique (λ (a : Access). a.t) (λ a. a.u) now limits.ip_rate_limit_interval_ms
          limits.max_account_status_check r.status_checks asc'
        ∙ ap (ltb limits.max_account_status_check) (count_unseen-different _),
  )
