-- ===== src/AuthDb/Devices.antt =====
-- The methods of lib/db/mem.js on devices, and the deletion of session tokens, which takes their
-- devices along. An object that a method changes in place is put back where it stands.
use fxa_local_dev.Prelude.{
  ℕ, String, Bool, false, ◌&&◌, ◌||◌, not, Option, none, some, List, [], ◌∷◌, str_eq, if◌then◌else◌,
}
use fxa_local_dev.AuthDb.Table.{Table, get, put, keep, remove}
use fxa_local_dev.AuthDb.Store.{
  Device, Account, SessionToken, UnverifiedToken, Store, Answer, ok, err, not_found, duplicate,
  done, reject, with_account, is_set,
}

-- What `createDevice` and `updateDevice` are given; `null` and `undefined` are `none`.
pub record DeviceInfo : Type 0 where
  pub session_token_id : Option String
  pub refresh_token_id : Option String
  pub name : Option String
  pub kind : Option String
  pub created_at : Option ℕ
  pub callback_url : Option String
  pub callback_public_key : Option String
  pub callback_auth_key : Option String
  pub callback_is_expired : Option Bool
  pub available_commands : Option String

-- A field that is not given stays.
abbrev pub or_old {ℓ} : {A : Type ℓ} → Option A → Option A → Option A
or_old none old = old
or_old (some a) old = some a

-- `id && id === key`
abbrev pub is_key : Option String → String → Bool
is_key none key = false
is_key (some id) key = str_eq id key

abbrev pub is_other_key : Option String → String → Bool
is_other_key none key = false
is_other_key (some id) key = not (str_eq id key)

-- `sessionTokens[sessionKey]`, of an id that may be missing
unfoldable pub find {ℓ} : {V : Type ℓ} → Option String → Table V → Option V
unfolding get
find none m = none
find (some key) m = get key m

abbrev pub device_key_of : Option SessionToken → Option String
device_key_of none = none
device_key_of (some t) = t.device_key

-- The fields that `updateDeviceRecord` sets, with those of the session.
unfoldable pub merge_device : Device → DeviceInfo → Option SessionToken → Device
merge_device d i session = record {
  id = d.id;
  session_token_id = or_old i.session_token_id d.session_token_id;
  refresh_token_id = or_old i.refresh_token_id d.refresh_token_id;
  name = or_old i.name d.name;
  kind = or_old i.kind d.kind;
  created_at = or_old i.created_at d.created_at;
  callback_url = or_old i.callback_url d.callback_url;
  callback_public_key = or_old i.callback_public_key d.callback_public_key;
  callback_auth_key = or_old i.callback_auth_key d.callback_auth_key;
  callback_is_expired = or_old i.callback_is_expired d.callback_is_expired;
  available_commands = or_old i.available_commands d.available_commands;
  agent = elim session [ none ↦ none | some t ↦ some t.agent ];
  last_access_time = elim session [ none ↦ none | some t ↦ some t.last_access_time ];
}

-- `devicesByRefreshTokenId[refreshTokenId] = deviceKey`
abbrev link_refresh_token : Option String → String → Table String → Table String
link_refresh_token none key m = m
link_refresh_token (some id) key m = put id key m

-- `session.deviceKey = deviceKey`, of the session that the id names, if there is one
unfoldable pub link_session :
    Option String → Option String → Table SessionToken → Table SessionToken
unfolding get put
link_session none key m = m
link_session (some id) key m = elim (get id m) [
  | none ↦ m
  | some t ↦ put id (record t { device_key = key }) m
]

unfoldable pub update_device_record : Device → DeviceInfo → String → Store → Answer Device
unfolding find link_session merge_device put
update_device_record d i key s =
    if is_other_key (device_key_of (find i.session_token_id s.session_tokens)) key
      || is_other_key (find i.refresh_token_id s.devices_by_refresh_token_id) key
    then reject duplicate s
    else (
      ok (merge_device d i (find i.session_token_id s.session_tokens)),
      record s {
        devices_by_refresh_token_id =
            link_refresh_token i.refresh_token_id key s.devices_by_refresh_token_id;
        session_tokens = link_session i.session_token_id (some key) s.session_tokens;
      },
    )

-- `account.devices[deviceKey] = ...`
unfoldable pub set_device : String → Account → String → Answer Device → Answer (Unit {0})
unfolding put
set_device uid a key (ok d, s) =
    done (record s { accounts = put uid (record a { devices = put key d a.devices }) s.accounts })
set_device uid a key (err e, s) = (err e, s)

unfoldable pub new_device : String → Device
new_device id = record {
  id = id;
  session_token_id = none;
  refresh_token_id = none;
  name = none;
  kind = none;
  created_at = none;
  callback_url = none;
  callback_public_key = none;
  callback_auth_key = none;
  callback_is_expired = none;
  available_commands = some "{}";
  agent = none;
  last_access_time = none;
}

unfoldable pub create_device : String → String → DeviceInfo → Store → Answer (Unit {0})
unfolding with_account get update_device_record set_device new_device
create_device uid key i s = with_account uid s (λ a.
    if is_set (get key a.devices)
    then reject duplicate s
    else set_device uid a key (
        update_device_record (new_device key) (record i { callback_is_expired = some false }) key
          s))

-- Before it updates the record, `updateDevice` cuts the links of the tokens that are replaced.
unfoldable pub unlink_old : Device → DeviceInfo → Store → Store
unfolding link_session remove
unlink_old d i s = record s {
  session_tokens = elim i.session_token_id [
    | none ↦ s.session_tokens
    | some id ↦
        if is_other_key d.session_token_id id
        then link_session d.session_token_id none s.session_tokens
        else s.session_tokens
  ];
  devices_by_refresh_token_id = elim i.refresh_token_id [
    | none ↦ s.devices_by_refresh_token_id
    | some id ↦ elim d.refresh_token_id [
      | none ↦ s.devices_by_refresh_token_id
      | some old ↦
          if str_eq old id
          then s.devices_by_refresh_token_id
          else remove old s.devices_by_refresh_token_id
    ]
  ];
}

unfoldable pub update_device : String → String → DeviceInfo → Store → Answer (Unit {0})
unfolding with_account get update_device_record set_device unlink_old
update_device uid key i s = with_account uid s (λ a. elim (get key a.devices) [
  | none ↦ reject not_found s
  | some d ↦ set_device uid a key (
      update_device_record d
        (record i {
          session_token_id = or_old i.session_token_id d.session_token_id;
          refresh_token_id = or_old i.refresh_token_id d.refresh_token_id;
        })
        key (unlink_old d i s))
])

-- The last step of `deleteSessionToken`.
unfoldable pub drop_session : String → Store → Store
unfolding remove
drop_session token_id s = record s {
  unverified_tokens = remove token_id s.unverified_tokens;
  session_tokens = remove token_id s.session_tokens;
}

unfoldable pub delete_session_token : String → Store → Answer (Unit {0})
unfolding get put keep with_account drop_session
delete_session_token token_id s = elim (get token_id s.session_tokens) [
  | none ↦ done (drop_session token_id s)
  | some t ↦ with_account t.uid s (λ a.
      let devices = keep (λ k d. not (is_key d.session_token_id token_id)) a.devices in
      done (record (drop_session token_id s) {
        accounts = put t.uid (record a { devices = devices }) s.accounts;
      }))
]

-- The tokens that `deleteDevice` returns, once the session token is deleted.
abbrev pub returned :
    Option String × Option String → Answer (Unit {0}) → Answer (Option String × Option String)
returned ids (ok u, s) = (ok ids, s)
returned ids (err e, s) = (err e, s)

abbrev pub delete_session_of : Option String → Store → Answer (Unit {0})
delete_session_of none s = done s
delete_session_of (some id) s = delete_session_token id s

unfoldable pub delete_device : String → String → Store → Answer (Option String × Option String)
unfolding with_account get put remove delete_session_token
delete_device uid key s = with_account uid s (λ a. elim (get key a.devices) [
  | none ↦ reject not_found s
  | some d ↦
      returned (d.session_token_id, d.refresh_token_id)
        (delete_session_of d.session_token_id (record s {
          accounts = put uid (record a { devices = remove key a.devices }) s.accounts;
        }))
])

-- A device as `accountDevices` shows it: with the fields of its session, or, having a refresh token
-- and no session, without a session token; others are left out.
unfoldable pub show_device : Table SessionToken → Device → Option Device
unfolding find
show_device sessions d = elim (find d.session_token_id sessions) [
  | some t ↦ some (record d { agent = some t.agent; last_access_time = some t.last_access_time })
  | none ↦ if is_set d.refresh_token_id then some (record d { session_token_id = none }) else none
]

unfoldable pub show_devices : Table SessionToken → Table Device → List Device
unfolding show_device
show_devices sessions [] = []
show_devices sessions ((k, d) ∷ m) =
    let rest = show_devices sessions m in
    elim (show_device sessions d) [ none ↦ rest | some d' ↦ d' ∷ rest ]

unfoldable pub account_devices : String → Store → List Device
unfolding get show_devices
account_devices uid s = elim (get uid s.accounts) [
  | none ↦ []
  | some a ↦ show_devices s.session_tokens a.devices
]

-- `devices.find(...)`
unfoldable pub find_device : (Device → Bool) → List Device → Option Device
find_device p [] = none
find_device p (d ∷ ds) = if p d then some d else find_device p ds

unfoldable pub device : String → String → Store → Answer Device
unfolding account_devices find_device
device uid id s = elim (find_device (λ d. str_eq d.id id) (account_devices uid s)) [
  | none ↦ reject not_found s
  | some d ↦ (ok d, s)
]

-- The first key of `unverifiedTokens` with the verification id and the account.
unfoldable pub find_unverified : String → String → Table UnverifiedToken → Option String
find_unverified uid id [] = none
find_unverified uid id ((k, w) ∷ m) =
    if str_eq w.token_verification_id id && str_eq w.uid uid
    then some k
    else find_unverified uid id m

unfoldable pub device_from_token_verification_id : String → String → Store → Answer Device
unfolding find_unverified account_devices find_device
device_from_token_verification_id uid id s = elim (find_unverified uid id s.unverified_tokens) [
  | none ↦ reject not_found s
  | some key ↦ elim (find_device (λ d. is_key d.session_token_id key) (account_devices uid s)) [
    | none ↦ reject not_found s
    | some d ↦ (ok d, s)
  ]
]
