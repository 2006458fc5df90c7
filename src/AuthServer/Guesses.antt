-- ===== src/AuthServer/Guesses.antt =====
-- How many codes can be tried with one token to reset a password.
use fxa_local_dev.Prelude.{
  ℕ, ◌-◌, ◌<◌, ◌≤◌, String, ◌≡◌, refl, inl, inr, Bool, false, none, some, List, [], ◌∷◌, arith,
  str_eq, ltb, leb, length, Bool-cases,
}
use fxa_local_dev.AuthDb.Table.{get, put, remove}
use fxa_local_dev.AuthDb.Table.Laws.{get-put_self, remove_self}
use fxa_local_dev.AuthDb.Store.{Account, PasswordForgotToken as StoredForgot, Store}
use fxa_local_dev.AuthDb.Reads.{password_forgot_token, read_token}
use fxa_local_dev.AuthDb.Tokens
use fxa_local_dev.AuthServer.CustomsClient.{let_through}
use fxa_local_dev.AuthServer.Tokens.{expired, fail_attempt, new_password_token}
use fxa_local_dev.AuthServer.Db.{
  and_then, responds, throws, translate, unauthenticated, invalid_verification_code,
}
use fxa_local_dev.AuthServer.Routes.{after_check}
use fxa_local_dev.AuthServer.Reset.{
  Attempt, fail_verify_attempt, forgot_credentials, forgot_verify, forgot_verify_all,
  forgot_verify_code, new_forgot, token_not_found_error,
}

module _ (lifetime : ℕ) (id : String) where
  -- A wrong code that the customs server lets through, as suspicious or not, while the token lives.
  abbrev pub IsWrong : StoredForgot → Attempt → Type 0
  IsWrong t q =
      (str_eq t.pass_code q.code ≡ false)
      × ((suspicious : Bool) × (q.checked ≡ let_through suspicious))
      × (expired (new_password_token lifetime (some t.uid) (some t.created_at)) (some q.now) q.now
          ≡ false)

  abbrev pub AreWrong : StoredForgot → List Attempt → Type 0
  AreWrong t [] = Unit
  AreWrong t (q ∷ qs) = IsWrong t q × AreWrong t qs

  -- The tries that are left do not matter to the next codes.
  AreWrong-tries :
      (n : ℕ) (t : StoredForgot) (qs : List Attempt)
      → AreWrong t qs
      → AreWrong (record t { tries = n }) qs
  AreWrong-tries n t [] w = tt
  AreWrong-tries n t (q ∷ qs) (w, ws) = (w, AreWrong-tries n t qs ws)

  credentials-known :
      (q : Attempt) (t : StoredForgot) (a : Account) (s : Store)
      → get id s.password_forgot_tokens ≡ some t
      → get t.uid s.accounts ≡ some a
      → IsWrong t q
      → forgot_credentials lifetime q.now id s ≡ responds (new_forgot lifetime t)
  unfolding forgot_credentials new_forgot password_forgot_token read_token
  credentials-known q t a s there known (wrong, passed, alive) =
      rw (there, known, read_token, alive, forgot_credentials) refl

  abbrev ended : Store → Store
  ended s = record s { password_forgot_tokens = remove id s.password_forgot_tokens }

  abbrev with_tries : ℕ → StoredForgot → StoredForgot
  with_tries n t = record t { tries = n }

  abbrev tried : StoredForgot → Store → Store
  tried t s = record s {
    password_forgot_tokens = put id (with_tries (t.tries - 1) t) s.password_forgot_tokens;
  }

  last_wrong :
      (t : StoredForgot) (s : Store)
      → t.tries ≤ 1
      → fail_verify_attempt id (new_forgot lifetime t).token s ≡ (responds tt, ended s)
  unfolding fail_verify_attempt new_forgot fail_attempt translate
      Tokens.delete_password_forgot_token
  last_wrong t s few = ground (arith, few)

  earlier_wrong :
      (t : StoredForgot) (s : Store)
      → get id s.password_forgot_tokens ≡ some t
      → 1 < t.tries
      → fail_verify_attempt id (new_forgot lifetime t).token s ≡ (responds tt, tried t s)
  unfolding fail_verify_attempt new_forgot fail_attempt translate
      Tokens.update_password_forgot_token
  earlier_wrong t s there more = elim (Bool-cases (ltb (t.tries - 1) 1)) [
    | inl last ↦ ground (arith, last, more)
    | inr other ↦ rw (other, Tokens.update_password_forgot_token, there) refl
  ]

  wrong_code :
      (q : Attempt) (t : StoredForgot) (a : Account) (s s' : Store)
      → get id s.password_forgot_tokens ≡ some t
      → get t.uid s.accounts ≡ some a
      → IsWrong t q
      → fail_verify_attempt id (new_forgot lifetime t).token s ≡ (responds tt, s')
      → forgot_verify_code lifetime id q s ≡ (throws invalid_verification_code, s')
  unfolding forgot_verify_code forgot_verify new_forgot and_then after_check
  wrong_code q t a s s' there known wrong failed =
      rw
        (
          forgot_verify_code,
          credentials-known q t a s there known wrong,
          forgot_verify,
          wrong.1.1,
          after_check,
          wrong.0,
          failed,
          and_then,
        )
        refl

  -- Without the token no request changes the store.
  forgot_verify_all-gone :
      (qs : List Attempt) (s : Store)
      → get id s.password_forgot_tokens ≡ none
      → forgot_verify_all lifetime id qs s ≡ s
  unfolding forgot_verify_all forgot_verify_code forgot_credentials password_forgot_token read_token
  forgot_verify_all-gone [] s gone = refl
  forgot_verify_all-gone (q ∷ qs) s gone =
      rw
        (
          forgot_verify_all, forgot_verify_code, forgot_credentials, password_forgot_token, gone,
          read_token, token_not_found_error,
        )
        (forgot_verify_all-gone qs s gone)

  token_gone :
      (t : StoredForgot) (a : Account) (qs : List Attempt) (s : Store)
      → get id s.password_forgot_tokens ≡ some t
      → get t.uid s.accounts ≡ some a
      → AreWrong t qs
      → t.tries ≤ length qs
      → 0 < length qs
      → get id (forgot_verify_all lifetime id qs s).password_forgot_tokens ≡ none
  unfolding forgot_verify_all
  token_gone t a [] s there known wrong enough some_guess = ground (arith, some_guess)
  token_gone t a (q ∷ qs) s there known (wrong, wrongs) enough some_guess =
      elim (Bool-cases (leb t.tries 1)) [
        | inl few ↦
            rw
              (
                forgot_verify_all,
                wrong_code q t a s (ended s) there known wrong
                    (last_wrong t s (ground (arith, few))),
                forgot_verify_all-gone qs (ended s) (remove_self id s.password_forgot_tokens),
              )
              (remove_self id s.password_forgot_tokens)
        | inr more ↦
            rw
              (
                forgot_verify_all,
                wrong_code q t a s (tried t s) there known wrong
                    (earlier_wrong t s there (ground (arith, more))),
              )
              (token_gone (with_tries (t.tries - 1) t) a qs (tried t s)
                (get-put_self id (with_tries (t.tries - 1) t) s.password_forgot_tokens) known
                (AreWrong-tries (t.tries - 1) t qs wrongs) (ground (arith, more, enough))
                (ground (arith, more, enough)))
      ]

  -- After as many wrong codes, one after the other, as a token to reset a password has tries left
  -- (at least one), each let through by the customs server (as suspicious or not) while the token lives and its account
  -- exists, the token is gone and every further request with it, with the right code too, is
  -- unauthenticated and changes nothing.
  pub guesses_end :
      (t : StoredForgot) (a : Account) (qs : List Attempt) (q : Attempt) (s : Store)
      → get id s.password_forgot_tokens ≡ some t
      → get t.uid s.accounts ≡ some a
      → AreWrong t qs
      → t.tries ≤ length qs
      → 0 < length qs
      → let after = forgot_verify_all lifetime id qs s in
        (get id after.password_forgot_tokens ≡ none)
        × (forgot_verify_code lifetime id q after ≡ (throws unauthenticated, after))
  unfolding forgot_verify_code forgot_credentials password_forgot_token
  guesses_end t a qs q s there known wrong enough some_guess =
      let gone = token_gone t a qs s there known wrong enough some_guess in
      (
        gone,
        rw (forgot_verify_code, forgot_credentials, password_forgot_token, gone, read_token) refl,
      )
