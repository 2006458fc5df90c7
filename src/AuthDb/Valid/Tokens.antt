-- ===== src/AuthDb/Valid/Tokens.antt =====
-- The calls on tokens keep the store valid.
use fxa_local_dev.Prelude.{
  ℕ, String, refl, inl, inr, Bool, true, false, Option, none, some, if◌then◌else◌, Option-cases,
}
use fxa_local_dev.AuthDb.Table.{Table, get, put, remove}
use fxa_local_dev.AuthDb.Table.Laws.{IsTable, put-IsTable, keep-IsTable}
use fxa_local_dev.AuthDb.Store.{
  KeyFetchToken, PasswordForgotToken, UnverifiedToken, UserToken, Store,
}
use fxa_local_dev.AuthDb.OneEach.{
  OneEach, put-OneEach, put_same-OneEach, keep-OneEach, delete_by_uid-NoneOf,
}
use fxa_local_dev.AuthDb.Accounts.{delete_by_uid}
use fxa_local_dev.AuthDb.Tokens.{
  NewSession, SessionUpdate, create_session_token, create_key_fetch_token,
  create_password_forgot_token, create_password_change_token, delete_key_fetch_token,
  delete_account_reset_token, delete_password_forgot_token, delete_password_change_token,
  reset_account_tokens, create_account_reset_token, update_password_forgot_token,
  update_session_token, assign, unverified_session,
}
use fxa_local_dev.AuthDb.Valid.{IsValid, if-IsValid}

-- A token that replaces all others of its account.
replace-OneEach {ℓ} :
    {V : Type ℓ} (uid_of : V → String) (k : String) (v : V) (m : Table V)
    → OneEach uid_of m
    → OneEach uid_of (put k v (delete_by_uid uid_of (uid_of v) m))
unfolding delete_by_uid
replace-OneEach uid_of k v m h =
    put-OneEach uid_of k v _ (delete_by_uid-NoneOf uid_of (uid_of v) m) (keep-OneEach uid_of _ m h)

put-some-IsTable {ℓ} :
    {A : Type 0} {V : Type ℓ} (k : String) (f : A → V) (x : Option A) (m : Table V)
    → IsTable m
    → IsTable (elim x [ none ↦ m | some a ↦ put k (f a) m ])
put-some-IsTable k f none m h = h
put-some-IsTable k f (some a) m h = put-IsTable k (f a) m h

must_verify-IsTable :
    (k : String) (b : Bool) (x : Option UnverifiedToken) (m : Table UnverifiedToken)
    → IsTable m
    → IsTable
        (elim x [ none ↦ m | some w ↦ if b then put k (record w { must_verify = true }) m else m ])
must_verify-IsTable k b none m h = h
must_verify-IsTable k true (some w) m h = put-IsTable k (record w { must_verify = true }) m h
must_verify-IsTable k false (some w) m h = h

module _ (s : Store) (v : IsValid s) where
  pub create_session_token-IsValid :
      (hash : String → String) (id : String) (t : NewSession)
      → IsValid (create_session_token hash id t s).1
  unfolding IsValid create_session_token
  create_session_token-IsValid hash id t =
      if-IsValid _ _ _ (λ h. v)
        (λ h. (
          v.0,
          v.1,
          v.2,
          v.3,
          v.4,
          put-some-IsTable id (unverified_session hash t) t.verification s.unverified_tokens v.5,
        ))

  pub create_key_fetch_token-IsValid :
      (id : String) (t : KeyFetchToken) (w : Option String)
      → IsValid (create_key_fetch_token id t w s).1
  unfolding IsValid create_key_fetch_token
  create_key_fetch_token-IsValid id t none = if-IsValid _ _ _ (λ h. v) (λ h. v)
  create_key_fetch_token-IsValid id t (some w) =
      if-IsValid _ _ _ (λ h. v)
        (λ h. (v.0, v.1, v.2, v.3, v.4, put-IsTable id _ s.unverified_tokens v.5))

  pub create_password_forgot_token-IsValid :
      (id : String) (t : PasswordForgotToken) → IsValid (create_password_forgot_token id t s).1
  unfolding IsValid create_password_forgot_token
  create_password_forgot_token-IsValid id t =
      if-IsValid _ _ _ (λ h. v)
        (λ h.
          (v.0, replace-OneEach (λ t. t.uid) id t s.password_forgot_tokens v.1, v.2, v.3, v.4, v.5))

  pub create_password_change_token-IsValid :
      (id : String) (t : UserToken) → IsValid (create_password_change_token id t s).1
  unfolding IsValid create_password_change_token
  create_password_change_token-IsValid id t =
      if-IsValid _ _ _ (λ h. v)
        (λ h.
          (v.0, v.1, replace-OneEach (λ t. t.uid) id t s.password_change_tokens v.2, v.3, v.4, v.5))

  pub create_account_reset_token-IsValid :
      (id : String) (t : UserToken) → IsValid (create_account_reset_token id t s)
  unfolding IsValid create_account_reset_token
  create_account_reset_token-IsValid id t =
      (v.0, v.1, v.2, replace-OneEach (λ t. t.uid) id t s.account_reset_tokens v.3, v.4, v.5)

  pub delete_key_fetch_token-IsValid : (id : String) → IsValid (delete_key_fetch_token id s).1
  unfolding IsValid delete_key_fetch_token remove
  delete_key_fetch_token-IsValid id =
      (v.0, v.1, v.2, v.3, v.4, keep-IsTable _ s.unverified_tokens v.5)

  pub delete_account_reset_token-IsValid :
      (id : String) → IsValid (delete_account_reset_token id s).1
  unfolding IsValid delete_account_reset_token remove
  delete_account_reset_token-IsValid id =
      (v.0, v.1, v.2, keep-OneEach (λ t. t.uid) _ s.account_reset_tokens v.3, v.4, v.5)

  pub delete_password_forgot_token-IsValid :
      (id : String) → IsValid (delete_password_forgot_token id s).1
  unfolding IsValid delete_password_forgot_token remove
  delete_password_forgot_token-IsValid id =
      (v.0, keep-OneEach (λ t. t.uid) _ s.password_forgot_tokens v.1, v.2, v.3, v.4, v.5)

  pub delete_password_change_token-IsValid :
      (id : String) → IsValid (delete_password_change_token id s).1
  unfolding IsValid delete_password_change_token remove
  delete_password_change_token-IsValid id =
      (v.0, v.1, keep-OneEach (λ t. t.uid) _ s.password_change_tokens v.2, v.3, v.4, v.5)

  pub reset_account_tokens-IsValid : (uid : String) → IsValid (reset_account_tokens uid s).1
  unfolding IsValid reset_account_tokens delete_by_uid
  reset_account_tokens-IsValid uid = (
    v.0,
    keep-OneEach (λ t. t.uid) _ s.password_forgot_tokens v.1,
    keep-OneEach (λ t. t.uid) _ s.password_change_tokens v.2,
    keep-OneEach (λ t. t.uid) _ s.account_reset_tokens v.3,
    v.4,
    v.5,
  )

  pub update_password_forgot_token-IsValid :
      (id : String) (tries : ℕ) → IsValid (update_password_forgot_token id tries s).1
  unfolding IsValid update_password_forgot_token
  update_password_forgot_token-IsValid id tries =
      elim (Option-cases (get id s.password_forgot_tokens)) [
        | inl unknown ↦ rw (unknown, update_password_forgot_token) v
        | inr (t, known) ↦
            rw (known, update_password_forgot_token)
              (
                v.0,
                put_same-OneEach (λ t. t.uid) id (record t { tries = tries }) t
                    s.password_forgot_tokens known refl v.1,
                v.2,
                v.3,
                v.4,
                v.5,
              )
      ]

  pub update_session_token-IsValid :
      (id : String) (u : SessionUpdate) → IsValid (update_session_token id u s).1
  unfolding IsValid update_session_token
  update_session_token-IsValid id u = elim (Option-cases (get id s.session_tokens)) [
    | inl unknown ↦ rw (unknown, update_session_token) v
    | inr (t, known) ↦
        rw (known, update_session_token)
          (
            v.0,
            v.1,
            v.2,
            v.3,
            v.4,
            must_verify-IsTable id (assign false u.must_verify) (get id s.unverified_tokens)
                s.unverified_tokens v.5,
          )
  ]
