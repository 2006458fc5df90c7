-- ===== src/AuthDb/Deletion.antt =====
-- What `deleteAccount` and `resetAccount` of lib/db/mem.js leave.
use fxa_local_dev.Prelude.{
  String, ◌≡◌, refl, ap, Bool, Option, ◌∙◌, inl, inr, false, not, none, some, [], arith, str_eq,
  str_eq_iff, Option-cases,
}
use fxa_local_dev.AuthDb.Table.{Table, get, remove}
use fxa_local_dev.AuthDb.Table.Laws.{get-keep, remove_self}
use fxa_local_dev.AuthDb.Store.{Account, SessionToken, Store, done, ok, with_account}
use fxa_local_dev.AuthDb.Accounts.{
  ResetData, create_account, delete_account, delete_by_uid, delete_tokens,
}
use fxa_local_dev.AuthDb.OneEach.{NoneOf}
use fxa_local_dev.AuthDb.Valid.{IsValid}

-- No table of tokens has one of the account's.
abbrev pub HasNoTokens : String → Store → Type 0
HasNoTokens uid s =
    NoneOf (λ t. t.uid) uid s.session_tokens
    × NoneOf (λ t. t.uid) uid s.key_fetch_tokens
    × NoneOf (λ t. t.uid) uid s.account_reset_tokens
    × NoneOf (λ t. t.uid) uid s.password_change_tokens
    × NoneOf (λ t. t.uid) uid s.password_forgot_tokens
    × NoneOf (λ t. t.uid) uid s.unverified_tokens

-- Whether a token is one of a session of another account.
abbrev pub is_of_other : String → Option SessionToken → Bool
is_of_other uid none = false
is_of_other uid (some t) = not (str_eq t.uid uid)

-- The email that an account was created with is free once its addresses are deleted.
email_free :
    (uid : String) (a : Account) (s : Store)
    → IsValid s
    → get uid s.accounts ≡ some a
    → get a.normalized_email (delete_by_uid (λ e. e.uid) uid s.emails) ≡ none
unfolding IsValid delete_by_uid
email_free uid a s v known = elim (Option-cases (get a.normalized_email s.emails)) [
  | inl gone ↦
      ground (arith, gone, get-keep (λ k e. not (str_eq e.uid uid)) a.normalized_email s.emails v.4)
  | inr (e, there) ↦ ground (
    arith,
    there,
    v.0.owned uid a e known there,
    str_eq_iff e.uid uid,
    get-keep (λ k e. not (str_eq e.uid uid)) a.normalized_email s.emails v.4,
  )
]

-- The store after a known account is deleted.
abbrev deleted : String → Account → Store → Store
deleted uid a s = record (delete_tokens uid s) {
  emails = delete_by_uid (λ e. e.uid) uid s.emails;
  signin_codes = delete_by_uid (λ c. c.uid) uid s.signin_codes;
  uid_by_normalized_email = remove a.normalized_email s.uid_by_normalized_email;
  accounts = remove uid s.accounts;
  totp_tokens = remove uid s.totp_tokens;
  recovery_codes = remove uid s.recovery_codes;
  recovery_keys = remove uid s.recovery_keys;
  security_events = remove uid s.security_events;
}

delete_account-known :
    (uid : String) (a : Account) (s : Store)
    → get uid s.accounts ≡ some a
    → delete_account uid s ≡ done (deleted uid a s)
unfolding delete_account with_account
delete_account-known uid a s known = rw (known, with_account) refl

create_account-free :
    (uid : String) (b : Account) (s : Store)
    → get uid s.accounts ≡ none
    → get b.normalized_email s.emails ≡ none
    → get b.normalized_email s.uid_by_normalized_email ≡ none
    → (create_account uid b s).0 ≡ ok tt
unfolding create_account
create_account-free uid b s free unused unlisted = rw (free, unused, unlisted, create_account) refl

-- In a valid store, once a known account is deleted, its email and its uid are free for a new
-- account.
pub create-delete :
    (uid : String) (a b : Account) (s : Store)
    → IsValid s
    → get uid s.accounts ≡ some a
    → b.normalized_email ≡ a.normalized_email
    → (create_account uid b (delete_account uid s).1).0 ≡ ok tt
create-delete uid a b s v known same = rw (delete_account-known uid a s known) (
    create_account-free uid b (deleted uid a s) (remove_self uid s.accounts)
      (ap (λ k. get k (delete_by_uid (λ e. e.uid) uid s.emails)) same ∙ email_free uid a s v known)
      (ap (λ k. get k (remove a.normalized_email s.uid_by_normalized_email)) same
        ∙ remove_self a.normalized_email s.uid_by_normalized_email))

abbrev with_new : ResetData → Account → Account
with_new new a = record a {
  verify_hash = new.verify_hash;
  auth_salt = new.auth_salt;
  wrap_wrap_kb = new.wrap_wrap_kb;
  verifier_set_at = new.verifier_set_at;
  verifier_version = new.verifier_version;
  profile_changed_at = some new.verifier_set_at;
  devices = [];
}
