-- ===== src/AuthDb/Codes.antt =====
-- The methods of lib/db/mem.js on codes, keys, one-time passwords, reminders and security events.
-- `create_hash` and `compare_hash` are the hashes of lib/db/util.js, `is_v4_format` and `is_equal`
-- those of the package `ip`; a method that waits for a hash is taken as one step.
use Prim.Native.String.{◌++◌ as string_append}
use fxa_local_dev.Prelude.{
  ℕ, ◌+◌, String, Bool, true, false, ◌&&◌, ◌||◌, not, Option, none, some, List, [], ◌∷◌, ◌++◌, leb,
  ltb, ◌==◌, str_eq, length, take, if◌then◌else◌,
}
use fxa_local_dev.AuthDb.Table.{Table, get, put, remove}
use fxa_local_dev.AuthDb.Store.{
  TotpToken, RecoveryCode, RecoveryKey, Reminder, SecurityEvent, UnverifiedToken, Store, Answer, ok,
  not_found, duplicate, invalid_request, recovery_key_invalid, type_error, done, reject,
  with_account, or_else, is_set,
}
use fxa_local_dev.AuthDb.Emails.{touch_profile}

-- `unblockCodes[uid]`, where a missing row and `null` hold no code
abbrev pub row_of : Option (Table ℕ) → Table ℕ
row_of none = []
row_of (some row) = row

unfoldable pub create_unblock_code : ℕ → String → String → Store → Answer (Unit {0})
unfolding get put
create_unblock_code now uid code s = done (record s {
  unblock_codes = put uid (put code now (row_of (get uid s.unblock_codes))) s.unblock_codes;
})

-- A code that was made at the time 0 counts as missing.
unfoldable pub consume_unblock_code : String → String → Store → Answer ℕ
unfolding get put
consume_unblock_code uid code s = elim (get code (row_of (get uid s.unblock_codes))) [
  | none ↦ reject not_found s
  | some t ↦
      if t == 0
      then reject not_found s
      else (ok t, record s { unblock_codes = put uid [] s.unblock_codes })
]

unfoldable pub create_signin_code : String → String → ℕ → Option String → Store → Answer (Unit {0})
unfolding get put
create_signin_code code uid created_at flow_id s =
    if is_set (get code s.signin_codes)
    then reject duplicate s
    else done (record s {
      signin_codes =
          put code (record { uid = uid; created_at = created_at; flow_id = flow_id })
            s.signin_codes;
    })

-- `createdAt <= Date.now() - config.signinCodesMaxAge` is `created_at + max_age ≤ now`.
unfoldable pub consume_signin_code : ℕ → ℕ → String → Store → Answer (String × Option String)
unfolding get remove
consume_signin_code max_age now code s = elim (get code s.signin_codes) [
  | none ↦ reject not_found s
  | some c ↦
      if leb (c.created_at + max_age) now then reject not_found s else elim (get c.uid s.accounts) [
        | none ↦ reject type_error s
        | some a ↦ (ok (a.email, c.flow_id), record s { signin_codes = remove code s.signin_codes })
      ]
]

unfoldable pub create_totp_token : String → String → Option ℕ → Store → Answer (Unit {0})
unfolding get put
create_totp_token uid shared_secret epoch s =
    if is_set (get uid s.totp_tokens)
    then reject duplicate s
    else done (record s {
      totp_tokens =
          put uid
            (record {
              shared_secret = shared_secret;
              epoch = or_else epoch 0;
              verified = false;
              enabled = true;
            })
            s.totp_tokens;
    })

unfoldable pub update_totp_token : ℕ → String → Bool → Bool → Store → Answer (Unit {0})
unfolding get put touch_profile
update_totp_token now uid verified enabled s = elim (get uid s.totp_tokens) [
  | none ↦ reject not_found s
  | some t ↦ touch_profile now uid (record s {
    totp_tokens = put uid (record t { verified = verified; enabled = enabled }) s.totp_tokens;
  })
]

unfoldable pub totp_token : String → Store → Answer TotpToken
unfolding get
totp_token uid s = elim (get uid s.totp_tokens) [ none ↦ reject not_found s | some t ↦ (ok t, s) ]

unfoldable pub delete_totp_token : ℕ → String → Store → Answer (Unit {0})
unfolding remove touch_profile
delete_totp_token now uid s =
    touch_profile now uid (record s { totp_tokens = remove uid s.totp_tokens })

-- `replaceRecoveryCodes`; the codes and their salted hashes are drawn at random.
unfoldable pub replace_recovery_codes :
    String → List String → List RecoveryCode → Store → Answer (List String)
unfolding with_account put
replace_recovery_codes uid codes hashes s =
    with_account uid s
      (λ a. (ok codes, record s { recovery_codes = put uid hashes s.recovery_codes }))

-- `codes.splice(index, 1)` at the first code that matches
unfoldable pub splice_match : (RecoveryCode → Bool) → List RecoveryCode → Option (List RecoveryCode)
splice_match p [] = none
splice_match p (c ∷ cs) = elim (p c) [
  | true ↦ some cs
  | false ↦ elim (splice_match p cs) [ none ↦ none | some cs' ↦ some (c ∷ cs') ]
]

unfoldable pub consume_recovery_code :
    (String → RecoveryCode → Bool) → String → String → Store → Answer ℕ
unfolding with_account get put splice_match
consume_recovery_code compare_hash uid code s = with_account uid s (λ a.
    elim (get uid s.recovery_codes) [
      | none ↦ reject not_found s
      | some codes ↦ elim (splice_match (compare_hash code) codes) [
        | none ↦ reject not_found s
        | some rest ↦
            (ok (length rest), record s { recovery_codes = put uid rest s.recovery_codes })
      ]
    ])

module _ (create_hash : String → String) where
  unfoldable pub create_recovery_key : String → String → String → Store → Answer (Unit {0})
  unfolding with_account get put
  create_recovery_key uid recovery_key_id recovery_data s = with_account uid s (λ a.
      if is_set (get uid s.recovery_keys)
      then reject duplicate s
      else done (record s {
        recovery_keys =
            put uid
              (record {
                uid = uid;
                recovery_key_id_hash = create_hash recovery_key_id;
                recovery_data = recovery_data;
              })
              s.recovery_keys;
      }))

  unfoldable pub get_recovery_key : String → String → Store → Answer RecoveryKey
  unfolding with_account get
  get_recovery_key uid recovery_key_id s = with_account uid s (λ a. elim (get uid s.recovery_keys) [
    | none ↦ reject not_found s
    | some k ↦
        if str_eq k.recovery_key_id_hash (create_hash recovery_key_id)
        then (ok k, s)
        else reject recovery_key_invalid s
  ])

-- An account that does not exist has no recovery key.
unfoldable pub recovery_key_exists : String → Store → Bool
unfolding get
recovery_key_exists uid s = is_set (get uid s.accounts) && is_set (get uid s.recovery_keys)

unfoldable pub delete_recovery_key : String → Store → Answer (Unit {0})
unfolding with_account remove
delete_recovery_key uid s =
    with_account uid s (λ a. done (record s { recovery_keys = remove uid s.recovery_keys }))

abbrev is_empty_text : String → Bool
is_empty_text text = str_eq text ""

unfoldable pub create_verification_reminder : ℕ → String → String → Store → Answer (Unit {0})
unfolding put
create_verification_reminder now uid kind s =
    if is_empty_text uid || is_empty_text kind
    then reject invalid_request s
    else done (record s {
      reminders =
          put (string_append uid kind) (record { uid = uid; kind = kind; created_at = now })
            s.reminders;
    })

-- `deleteReminder`, of a reminder that was found
unfoldable pub delete_reminder : String → String → Table Reminder → Table Reminder
unfolding remove
delete_reminder uid kind = remove (string_append uid kind)

unfoldable pub delete_reminders : List Reminder → Table Reminder → Table Reminder
unfolding delete_reminder
delete_reminders [] m = m
delete_reminders (r ∷ rs) m = delete_reminders rs (delete_reminder r.uid r.kind m)

-- `Date.now() - item.createdAt > query.reminderTime`
unfoldable pub due_reminders : ℕ → ℕ → String → Table Reminder → List Reminder
due_reminders now reminder_time kind [] = []
due_reminders now reminder_time kind ((k, r) ∷ m) =
    let rest = due_reminders now reminder_time kind m in
    if str_eq r.kind kind && ltb (r.created_at + reminder_time) now then r ∷ rest else rest

unfoldable pub fetch_reminders : ℕ → ℕ → String → ℕ → Store → Answer (List Reminder)
unfolding due_reminders delete_reminders
fetch_reminders now reminder_time kind limit s =
    if reminder_time == 0 || is_empty_text kind || limit == 0
    then reject invalid_request s
    else let result = take limit (due_reminders now reminder_time kind s.reminders) in
      (ok result, record s { reminders = delete_reminders result s.reminders })

module _ (is_v4_format : String → Bool) where
  abbrev mapped : String → String
  mapped addr = if is_v4_format addr then string_append "::" addr else addr

  unfoldable pub is_verified_token : Option String → Table UnverifiedToken → Bool
  unfolding get
  is_verified_token none m = true
  is_verified_token (some id) m = not (is_set (get id m))

  abbrev events_of : Option (List SecurityEvent) → List SecurityEvent
  events_of none = []
  events_of (some es) = es

  unfoldable pub create_security_event :
      ℕ → String → String → String → Option String → Store → Answer (Unit {0})
  unfolding get put is_verified_token
  create_security_event now addr name uid token_id s = done (record s {
    security_events =
        put uid
          (events_of (get uid s.security_events)
            ++ (record {
              created_at = now;
              ip_addr = mapped addr;
              name = name;
              uid = uid;
              token_id = token_id;
              verified = is_verified_token token_id s.unverified_tokens;
            }
                ∷ []))
          s.security_events;
  })

  -- `filter(...).map(...).reverse()`; an event is shown by its name, its time and whether it is
  -- verified.
  unfoldable pub shown_events :
      (String → String → Bool) → String → String → List SecurityEvent → List (String × ℕ × Bool)
  shown_events is_equal uid addr [] = []
  shown_events is_equal uid addr (e ∷ es) =
      let rest = shown_events is_equal uid addr es in
      if str_eq e.uid uid && is_equal e.ip_addr (mapped addr)
      then rest ++ ((e.name, e.created_at, e.verified) ∷ [])
      else rest

  unfoldable pub security_events :
      (String → String → Bool) → String → String → Store → List (String × ℕ × Bool)
  unfolding get shown_events
  security_events is_equal uid addr s =
      shown_events is_equal uid addr (events_of (get uid s.security_events))
