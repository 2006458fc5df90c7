-- ===== src/AuthDb/Valid/Codes.antt =====
-- The calls on codes, keys, reminders and events keep the store valid.
use fxa_local_dev.Prelude.{
  ℕ, String, inl, inr, Bool, ◌==◌, ◌+◌, leb, Option, List, Bool-cases, Option-cases,
}
use fxa_local_dev.AuthDb.Table.{Table, get}
use fxa_local_dev.AuthDb.Store.{RecoveryCode, Store, is_set}
use fxa_local_dev.AuthDb.Codes.{
  consume_recovery_code, consume_signin_code, consume_unblock_code, create_recovery_key,
  create_signin_code, create_totp_token, create_verification_reminder, delete_recovery_key,
  delete_totp_token, fetch_reminders, replace_recovery_codes, row_of, splice_match,
  update_totp_token,
}
use fxa_local_dev.AuthDb.Valid.{IsValid, if-IsValid, with_account-IsValid}
use fxa_local_dev.AuthDb.Valid.Emails.{touch_profile-IsValid}

module _ (s : Store) (v : IsValid s) where
  pub consume_unblock_code-IsValid :
      (uid code : String) → IsValid (consume_unblock_code uid code s).1
  unfolding IsValid consume_unblock_code
  consume_unblock_code-IsValid uid code =
      elim (Option-cases (get code (row_of (get uid s.unblock_codes)))) [
        | inl unknown ↦ rw (unknown, consume_unblock_code) v
        | inr (t, there) ↦ elim (Bool-cases (t == 0)) [
          | inl zero_time ↦ rw (there, zero_time, consume_unblock_code) v
          | inr time ↦ rw (there, time, consume_unblock_code) v
        ]
      ]

  pub create_signin_code-IsValid :
      (code uid : String) (t : ℕ) (flow : Option String)
      → IsValid (create_signin_code code uid t flow s).1
  unfolding IsValid create_signin_code
  create_signin_code-IsValid code uid t flow = if-IsValid _ _ _ (λ h. v) (λ h. v)

  pub consume_signin_code-IsValid :
      (max_age now : ℕ) (code : String) → IsValid (consume_signin_code max_age now code s).1
  unfolding IsValid consume_signin_code
  consume_signin_code-IsValid max_age now code = elim (Option-cases (get code s.signin_codes)) [
    | inl unknown ↦ rw (unknown, consume_signin_code) v
    | inr (c, there) ↦ elim (Bool-cases (leb (c.created_at + max_age) now)) [
      | inl late ↦ rw (there, late, consume_signin_code) v
      | inr early ↦ elim (Option-cases (get c.uid s.accounts)) [
        | inl gone ↦ rw (there, early, gone, consume_signin_code) v
        | inr (a, known) ↦ rw (there, early, known, consume_signin_code) v
      ]
    ]
  ]

  pub create_totp_token-IsValid :
      (uid secret : String) (epoch : Option ℕ) → IsValid (create_totp_token uid secret epoch s).1
  unfolding IsValid create_totp_token
  create_totp_token-IsValid uid secret epoch = if-IsValid _ _ _ (λ h. v) (λ h. v)

  set_totp-IsValid : (m : Table _) → IsValid (record s { totp_tokens = m })
  unfolding IsValid
  set_totp-IsValid m = v

  pub update_totp_token-IsValid :
      (now : ℕ) (uid : String) (verified enabled : Bool)
      → IsValid (update_totp_token now uid verified enabled s).1
  unfolding update_totp_token
  update_totp_token-IsValid now uid verified enabled = elim (Option-cases (get uid s.totp_tokens)) [
    | inl unknown ↦ rw (unknown, update_totp_token) v
    | inr (t, there) ↦
        rw (there, update_totp_token) (touch_profile-IsValid now uid _ (set_totp-IsValid _))
  ]

  pub delete_totp_token-IsValid : (now : ℕ) (uid : String) → IsValid (delete_totp_token now uid s).1
  unfolding delete_totp_token
  delete_totp_token-IsValid now uid = touch_profile-IsValid now uid _ (set_totp-IsValid _)

  pub replace_recovery_codes-IsValid :
      (uid : String) (codes : List String) (hashes : List RecoveryCode)
      → IsValid (replace_recovery_codes uid codes hashes s).1
  unfolding IsValid replace_recovery_codes
  replace_recovery_codes-IsValid uid codes hashes = with_account-IsValid uid s _ v (λ a known. v)

  pub consume_recovery_code-IsValid :
      (compare : String → RecoveryCode → Bool) (uid code : String)
      → IsValid (consume_recovery_code compare uid code s).1
  unfolding IsValid consume_recovery_code
  consume_recovery_code-IsValid compare uid code = with_account-IsValid uid s _ v (λ a known.
      elim (Option-cases (get uid s.recovery_codes)) [
        | inl unknown ↦ rw unknown v
        | inr (codes, there) ↦ elim (Option-cases (splice_match (compare code) codes)) [
          | inl nothing ↦ rw (there, nothing) v
          | inr (rest, found) ↦ rw (there, found) v
        ]
      ])

  pub create_recovery_key-IsValid :
      (hash : String → String) (uid id content : String)
      → IsValid (create_recovery_key hash uid id content s).1
  unfolding IsValid create_recovery_key
  create_recovery_key-IsValid hash uid id content = with_account-IsValid uid s _ v (λ a known.
      elim (Bool-cases (is_set (get uid s.recovery_keys))) [
        | inl taken ↦ rw taken v
        | inr free ↦ rw free v
      ])

  pub delete_recovery_key-IsValid : (uid : String) → IsValid (delete_recovery_key uid s).1
  unfolding IsValid delete_recovery_key
  delete_recovery_key-IsValid uid = with_account-IsValid uid s _ v (λ a known. v)

  pub create_verification_reminder-IsValid :
      (now : ℕ) (uid kind : String) → IsValid (create_verification_reminder now uid kind s).1
  unfolding IsValid create_verification_reminder
  create_verification_reminder-IsValid now uid kind = if-IsValid _ _ _ (λ h. v) (λ h. v)

  pub fetch_reminders-IsValid :
      (now t : ℕ) (kind : String) (limit : ℕ) → IsValid (fetch_reminders now t kind limit s).1
  unfolding IsValid fetch_reminders
  fetch_reminders-IsValid now t kind limit = if-IsValid _ _ _ (λ h. v) (λ h. v)
