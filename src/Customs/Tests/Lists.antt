-- ===== src/Customs/Tests/Lists.antt =====
-- Lists of times, of addresses and of domains.
use fxa_local_dev.Prelude.{
  str_eq, Bool, ℕ, String, ◌≡◌, refl, true, false, Option, some, [], ◌∷◌, List, ◌==◌, Bool-cases,
  inl, inr, if◌then◌else◌,
}
use fxa_local_dev.Customs.Objects.{contains, inherited}
use fxa_local_dev.Customs.Blocklist.{
  Table, list_contains, load, load_rows, parse_row, token_row, split_slash, add_row, add_parsed,
}
use fxa_local_dev.Customs.Blocklist.Membership.{rows_of, load-contains}
use fxa_local_dev.Customs.Server.{missing, found}
use fxa_local_dev.Customs.Settings.{
  refresh, allowed_email_domains, allowed_phone_numbers, allowed_ips,
}
use fxa_local_dev.Customs.Settings.Refresh.{refresh_lem}
use fxa_local_dev.Customs.Allowed.{is_allowed_email, has_line_end}
use fxa_local_dev.Customs.Allowed.Domains.{allowed_email_exact}

-- A mask that knows one network.
abbrev mask : ℕ → String
mask p = if p == 24 then "192.0.2.0" else "192.0.2.7"

abbrev base_ip : String → ℕ → Option String
base_ip address p = some (mask p)

abbrev parse_int : String → ℕ
parse_int text = 24

abbrev lines : List String
lines = "# a comment" ∷ "192.0.2.9/24" ∷ "203.0.113.5" ∷ []

mask_is_own : (p : ℕ) → contains (mask p) inherited ≡ false
unfolding contains inherited
mask_is_own p = elim (Bool-cases (p == 24)) [ inl same ↦ rw same refl | inr other ↦ rw other refl ]

abbrev table : Table
table = (24, "192.0.2.0" ∷ []) ∷ (32, "203.0.113.5" ∷ []) ∷ []

load-contains_example : list_contains base_ip table "192.0.2.7" ≡ some true
unfolding contains rows_of load load_rows parse_row token_row split_slash add_row add_parsed
load-contains_example =
    load-contains base_ip parse_int lines
      (record { base_ip = "192.0.2.0"; prefix_length = 24 }
        ∷ record { base_ip = "203.0.113.5"; prefix_length = 32 }
        ∷ [])
      table "192.0.2.7" mask (λ p. refl) mask_is_own refl refl

allowed_email_exact_example : is_allowed_email ("restmail.dev" ∷ []) "x@constructor" ≡ true
unfolding contains inherited has_line_end
allowed_email_exact_example =
    allowed_email_exact ("restmail.dev" ∷ []) "x" "constructor" refl refl refl refl refl

-- An address of IPv4, as far as this list goes.
abbrev is_ipv4 : String → Bool
is_ipv4 text = str_eq text "192.0.2.1"

abbrev configured : List String
configured = "192.0.2.1" ∷ "2001:db8::1" ∷ []

-- memcached has no list, takes the one that is pushed and hands it back.
refresh_lem_example :
    (contains "2001:db8::1"
        (refresh allowed_email_domains true missing true (λ v. found v) configured).0
      ≡ true)
    × (contains "2001:db8::1"
          (refresh allowed_phone_numbers true missing true (λ v. found v) configured).0
        ≡ true)
    × (contains "2001:db8::1"
          (refresh (allowed_ips is_ipv4) true missing true (λ v. found v) configured).0
        ≡ false)
unfolding contains
refresh_lem_example = refresh_lem is_ipv4 "2001:db8::1" true true missing (λ v. found v) configured
