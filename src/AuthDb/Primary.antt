-- ===== src/AuthDb/Primary.antt =====
-- Primary addresses in lib/db/mem.js.
use fxa_local_dev.Prelude.{
  ℕ, String, ◌≡◌, refl, ap, ◌∙◌, inl, inr, true, false, not, ◌&&◌, Option, none, some, str_eq,
  if◌then◌else◌, Bool-cases,
}
use fxa_local_dev.AuthDb.Table.{get, put, remove, update_all}
use fxa_local_dev.AuthDb.Table.Laws.{changed, get-update_all, get-remove}
use fxa_local_dev.AuthDb.Store.{
  Account, EmailEntry, Store, cannot_delete_primary_email, done, err, ok, with_account,
}
use fxa_local_dev.AuthDb.Emails.{
  clear_primary, delete_email, make_primary, set_primary_email, touch_profile,
}

-- An address as it is once another is made the primary one of an account.
abbrev pub chosen : String → String → String → EmailEntry → EmailEntry
chosen uid email key e = record e {
  is_primary = if str_eq key email then true else if str_eq e.uid uid then false else e.is_primary;
}

make-clear :
    (uid email key : String) (e : EmailEntry)
    → make_primary email key (clear_primary uid key e) ≡ chosen uid email key e
unfolding make_primary clear_primary
make-clear uid email key e = elim (Bool-cases (str_eq key email)) [
  | inl here ↦ elim (Bool-cases (str_eq e.uid uid && e.is_primary)) [
    | inl was ↦ rw (here, was) refl
    | inr not_was ↦ rw (here, not_was) refl
  ]
  | inr there ↦ elim (Bool-cases (str_eq e.uid uid)) [
    | inl own ↦ elim (Bool-cases e.is_primary) [
      | inl was ↦ rw (there, own, was) refl
      | inr not_was ↦ rw (there, own, not_was) refl
    ]
    | inr foreign ↦ rw (there, foreign) refl
  ]
]

changed-clear :
    (uid email key : String) (x : Option EmailEntry)
    → changed (make_primary email key) (changed (clear_primary uid key) x)
      ≡ changed (chosen uid email key) x
changed-clear uid email key none = refl
changed-clear uid email key (some e) = ap some (make-clear uid email key e)

touch_profile-known :
    (now : ℕ) (uid : String) (a : Account) (s : Store)
    → get uid s.accounts ≡ some a
    → touch_profile now uid s
      ≡ done
          (record s { accounts = put uid (record a { profile_changed_at = some now }) s.accounts })
unfolding touch_profile with_account
touch_profile-known now uid a s known = rw (known, with_account) refl

-- Where the address and the account are known, `setPrimaryEmail` makes the address primary, takes
-- the mark from every other address of the account, and leaves all else of the addresses as it was.
pub set_primary_email_lem :
    (now : ℕ) (uid email key : String) (e : EmailEntry) (a : Account) (s : Store)
    → get email s.emails ≡ some e
    → get uid s.accounts ≡ some a
    → ((set_primary_email now uid email s).0 ≡ ok tt)
      × (get key (set_primary_email now uid email s).1.emails
          ≡ changed (chosen uid email key) (get key s.emails))
unfolding set_primary_email
set_primary_email_lem now uid email key e a s there known =
    let emails = update_all (make_primary email) (update_all (clear_primary uid) s.emails) in
    rw
      (there, set_primary_email, touch_profile-known now uid a (record s { emails = emails }) known)
      (
        refl,
        get-update_all (make_primary email) key (update_all (clear_primary uid) s.emails)
            ∙ ap (changed (make_primary email key))
                (get-update_all (clear_primary uid) key s.emails)
            ∙ changed-clear uid email key (get key s.emails),
      )

-- Where the address and the account are known, `deleteEmail` fails just if the address is a primary
-- one; the address goes just if it is the account's and not primary, and no other address changes.
pub delete_email_lem :
    (now : ℕ) (uid email key : String) (e : EmailEntry) (a : Account) (s : Store)
    → get email s.emails ≡ some e
    → get uid s.accounts ≡ some a
    → ((delete_email now uid email s).0
        ≡ (if e.is_primary then err cannot_delete_primary_email else ok tt))
      × (get key (delete_email now uid email s).1.emails ≡ (
          if not e.is_primary && str_eq e.uid uid && str_eq email key
          then none
          else get key s.emails))
unfolding delete_email
delete_email_lem now uid email key e a s there known = elim (Bool-cases e.is_primary) [
  | inl primary ↦ rw (there, primary, delete_email) (refl, refl)
  | inr other ↦ elim (Bool-cases (str_eq e.uid uid)) [
    | inl own ↦
        rw
          (
            there,
            other,
            own,
            delete_email,
            touch_profile-known now uid a (record s { emails = remove email s.emails }) known,
          )
          (refl, get-remove key email s.emails)
    | inr foreign ↦
        rw (there, other, foreign, delete_email, touch_profile-known now uid a s known) (refl, refl)
  ]
]
