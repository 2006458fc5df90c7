-- ===== src/AuthDb/Verification.antt =====
-- The methods of lib/db/mem.js that verify tokens.
use fxa_local_dev.Prelude.{
  ℕ, suc, String, Bool, false, ◌&&◌, ◌||◌, not, Option, none, some, List, [], ◌∷◌, leb, ◌==◌,
  str_eq, if◌then◌else◌,
}
use fxa_local_dev.AuthDb.Table.{Table, get, put, keep, update_all}
use fxa_local_dev.AuthDb.Store.{
  UnverifiedToken, SecurityEvent, Store, Answer, ok, err, not_found,
  expired_token_verification_code, invalid_verification_method, type_error, done, reject,
}
use fxa_local_dev.AuthDb.Devices.{is_key}
use fxa_local_dev.AuthDb.Reads.{session_token}

-- The test of `verifyTokens` on an unverified token.
unfoldable pub is_target : String → String → UnverifiedToken → Bool
is_target id uid w = str_eq w.token_verification_id id && str_eq w.uid uid

-- `reduce`, as the number of tokens verified
unfoldable pub count_targets : String → String → Table UnverifiedToken → ℕ
unfolding is_target
count_targets id uid [] = 0
count_targets id uid ((k, w) ∷ m) =
    let rest = count_targets id uid m in if is_target id uid w then suc rest else rest

unfoldable pub is_target_key : String → String → Table UnverifiedToken → Option String → Bool
unfolding is_target
is_target_key id uid [] key = false
is_target_key id uid ((k, w) ∷ m) key =
    (is_target id uid w && is_key key k) || is_target_key id uid m key

-- The events of the tokens that are verified become verified.
unfoldable pub verify_events : (Option String → Bool) → List SecurityEvent → List SecurityEvent
verify_events p [] = []
verify_events p (e ∷ es) = record e { verified = p e.token_id || e.verified } ∷ verify_events p es

unfoldable pub verify_tokens : String → String → Store → Answer (Unit {0})
unfolding count_targets keep is_target is_target_key verify_events update_all
verify_tokens id uid s =
    if count_targets id uid s.unverified_tokens == 0
    then reject not_found s
    else done (record s {
      security_events =
          update_all
            (λ k es.
              if str_eq k uid
              then verify_events (is_target_key id uid s.unverified_tokens) es
              else es)
            s.security_events;
      unverified_tokens = keep (λ k w. not (is_target id uid w)) s.unverified_tokens;
    })

-- The first unverified token with the hash of the code.
unfoldable pub find_code : String → Table UnverifiedToken → Option UnverifiedToken
find_code hash [] = none
find_code hash ((k, w) ∷ m) =
    if is_key w.token_verification_code_hash hash then some w else find_code hash m

-- `expiresAt <= now`; a comparison with `undefined` is false.
abbrev pub is_expired : Option ℕ → ℕ → Bool
is_expired none now = false
is_expired (some t) now = leb t now

unfoldable pub verify_token_code :
    (String → String) → ℕ → String → String → Store → Answer (Unit {0})
unfolding find_code verify_tokens
verify_token_code create_hash now code uid s =
    elim (find_code (create_hash code) s.unverified_tokens) [
      | none ↦ reject not_found s
      | some w ↦
          if is_expired w.token_verification_code_expires_at now
          then reject expired_token_verification_code s
          else verify_tokens w.token_verification_id uid s
    ]

-- `mapVerificationMethodType` of lib/db/util.js on texts: `get(val) || undefined`, which is
-- `undefined` for 'email', whose number is 0.
unfoldable pub map_verification_method_type : String → Option ℕ
map_verification_method_type method =
    if str_eq method "email-2fa"
    then some 1
    else if str_eq method "totp-2fa"
    then some 2
    else if str_eq method "recovery-code"
    then some 3
    else none

-- The last step of `verifyTokensWithMethod`.
unfoldable pub set_method : ℕ → String → ℕ → Answer (Unit {0}) → Answer (Unit {0})
unfolding get put
set_method now token_id method (err e, s) = (err e, s)
set_method now token_id method (ok u, s) = elim (get token_id s.session_tokens) [
  | none ↦ reject type_error s
  | some t ↦ done (record s {
    session_tokens =
        put token_id (record t { verification_method = some method; verified_at = some now })
          s.session_tokens;
  })
]

-- The verification of the session's token, if it is unverified.
unfoldable pub verify_session : String → Store → Answer (Unit {0})
unfolding session_token verify_tokens
verify_session token_id s = elim (session_token token_id s).0 [
  | err e ↦ reject e s
  | ok item ↦ elim item.token_verification_id [
    | none ↦ done s
    | some id ↦ verify_tokens id item.uid s
  ]
]

unfoldable pub verify_tokens_with_method : ℕ → String → String → Store → Answer (Unit {0})
unfolding map_verification_method_type verify_session set_method
verify_tokens_with_method now token_id method s = elim (map_verification_method_type method) [
  | none ↦ reject invalid_verification_method s
  | some n ↦ set_method now token_id n (verify_session token_id s)
]
