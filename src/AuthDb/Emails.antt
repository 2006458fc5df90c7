-- ===== src/AuthDb/Emails.antt =====
-- The methods of lib/db/mem.js on email addresses and bounces. An email is its key in `emails`.
use fxa_local_dev.Prelude.{
  ℕ, String, Bool, true, false, ◌&&◌, ◌||◌, not, Option, none, some, List, [], ◌∷◌, str_eq,
  if◌then◌else◌,
}
use fxa_local_dev.AuthDb.Table.{get, put, remove, any, update_all}
use fxa_local_dev.AuthDb.Store.{
  Account, EmailEntry, EmailBounce, Store, Answer, ok, not_found, duplicate,
  cannot_delete_primary_email, done, reject, with_account, is_set,
}
use fxa_local_dev.AuthDb.Reads.{account_emails}

-- `Object.keys(accounts).some(...)` of `createEmail` and `deleteEmail`
unfoldable pub is_account_email : String → Store → Bool
unfolding any
is_account_email email s = any (λ k a. str_eq a.normalized_email email) s.accounts

unfoldable pub create_email : String → EmailEntry → Store → Answer (Unit {0})
unfolding get put is_account_email
create_email uid e s =
    if is_account_email e.normalized_email s || is_set (get e.normalized_email s.emails)
    then reject duplicate s
    else done (record s {
      emails = put e.normalized_email (record e { is_primary = false; uid = uid }) s.emails;
    })

unfoldable pub get_secondary_email : String → Store → Answer EmailEntry
unfolding get
get_secondary_email email s = elim (get email s.emails) [
  | none ↦ reject not_found s
  | some e ↦ (ok e, s)
]

-- The primary address that `accountRecord` writes: that of the last primary entry.
unfoldable pub last_primary : List EmailEntry → Option String → Option String
last_primary [] last = last
last_primary (e ∷ es) last =
    last_primary es (if e.is_primary then some e.normalized_email else last)

unfoldable pub account_record : String → Store → Answer Account
unfolding get put with_account account_emails last_primary
account_record email s = elim (get email s.emails) [
  | none ↦ reject not_found s
  | some e ↦ with_account e.uid s (λ a.
      let a' = record a { primary_email = last_primary (account_emails e.uid s) a.primary_email } in
      (ok a', record s { accounts = put e.uid a' s.accounts }))
]

-- `account.profileChangedAt = Date.now()`, which ends several methods
unfoldable pub touch_profile : ℕ → String → Store → Answer (Unit {0})
unfolding with_account put
touch_profile now uid s = with_account uid s (λ a.
    done (record s { accounts = put uid (record a { profile_changed_at = some now }) s.accounts }))

unfoldable pub clear_primary : String → String → EmailEntry → EmailEntry
clear_primary uid key e =
    if str_eq e.uid uid && e.is_primary then record e { is_primary = false } else e

-- `emails[email].isPrimary = true`
unfoldable pub make_primary : String → String → EmailEntry → EmailEntry
make_primary email key e = if str_eq key email then record e { is_primary = true } else e

unfoldable pub set_primary_email : ℕ → String → String → Store → Answer (Unit {0})
unfolding get update_all clear_primary make_primary touch_profile
set_primary_email now uid email s =
    if not (is_set (get email s.emails))
    then reject not_found s
    else touch_profile now uid (record s {
      emails = update_all (make_primary email) (update_all (clear_primary uid) s.emails);
    })

unfoldable pub delete_email : ℕ → String → String → Store → Answer (Unit {0})
unfolding get remove is_account_email touch_profile
delete_email now uid email s = elim (get email s.emails) [
  | none ↦
      if is_account_email email s
      then reject cannot_delete_primary_email s
      else touch_profile now uid s
  | some e ↦
      if e.is_primary
      then reject cannot_delete_primary_email s
      else if str_eq e.uid uid
      then touch_profile now uid (record s { emails = remove email s.emails })
      else touch_profile now uid s
]

abbrev pub bounces_of : Option (List EmailBounce) → List EmailBounce
bounces_of none = []
bounces_of (some bs) = bs

-- `createEmailBounce`; the kinds of the bounce are given as numbers.
unfoldable pub create_email_bounce : ℕ → EmailBounce → Store → Answer (Unit {0})
unfolding get put
create_email_bounce now b s = done (record s {
  email_bounces =
      put b.email (record b { created_at = now } ∷ bounces_of (get b.email s.email_bounces))
        s.email_bounces;
})

unfoldable pub fetch_email_bounces : String → Store → List EmailBounce
unfolding get
fetch_email_bounces email s = bounces_of (get email s.email_bounces)
