-- ===== src/Customs/Settings.antt =====
-- lib/settings/settings.js: options that are refreshed from memcached, and the lists of
-- lib/settings/allowed_*.js as such options. Polling is a timer that calls `refresh` and is not
-- modelled; nor is the order of `Object.keys`, but for duplicates.
pub mod Refresh
use fxa_local_dev.Prelude.{
  String, Bool, true, false, ◌||◌, str_eq, Option, none, some, List, [], ◌∷◌, if◌then◌else◌,
}
use fxa_local_dev.Customs.Objects.{contains}
use fxa_local_dev.Customs.Server.{Reply, failed, missing, found}

-- How `validate`, `setAll`, or a promise of `refresh` or `push` ends: with a value, with the exception
-- `Missing`, or with another.
pub data Refreshed (J : Type 0) : Type 0 where
  refreshed : J → Refreshed J
  missing_error other_error : Refreshed J

-- What a class that extends `Settings` provides: `validate`, where `none` is `undefined`, `setAll` with
-- the settings that it leaves, also where it throws, and `toJSON`. `V` is for what memcached may hold,
-- `J` for what `validate` and `setAll` return.
pub record SettingsClass (S V J : Type 0) : Type 0 where
  pub validate : S → Option V → Refreshed J
  pub set_all : J → S → S × Refreshed J
  pub to_json : S → V

module _ {S V J : Type 0} (c : SettingsClass S V J) where
  -- `mc.getAsync(key).then(value => this.validate(value))`
  unfoldable pub fetch : Reply V → S → Refreshed J
  fetch failed s = other_error
  fetch missing s = c.validate s none
  fetch (found value) s = c.validate s (some value)

  -- The last `then` of `refresh`: `setAll` on success, nothing but a line of the log else.
  unfoldable pub apply : Refreshed J → S → S × Refreshed J
  apply (refreshed j) s = c.set_all j s
  apply missing_error s = (s, missing_error)
  apply other_error s = (s, other_error)

  -- `push`: whether memcached takes `this` as JSON, and what it replies to the `refresh()` that
  -- follows, which may depend on what was written.
  unfoldable pub push : Bool → (V → Reply V) → S → S × Refreshed J
  unfolding fetch apply
  push set_succeeds reply s =
      if set_succeeds then apply (fetch (reply (c.to_json s)) s) s else (s, other_error)

  unfoldable pub push_if_missing : Refreshed J → Bool → (V → Reply V) → S → S × Refreshed J
  unfolding push
  push_if_missing missing_error set_succeeds reply s = push set_succeeds reply s
  push_if_missing other_error set_succeeds reply s = (s, other_error)
  push_if_missing (refreshed j) set_succeeds reply s = (s, refreshed j)

  -- The last `then` of `refresh`, after what `push` may have done.
  unfoldable pub finish_refresh : S × Refreshed J → S × Refreshed J
  unfolding apply
  finish_refresh (s, r) = apply r s

  -- `refresh(options)`, with the replies of memcached to its own read and to that of `push`.
  unfoldable pub refresh : Bool → Reply V → Bool → (V → Reply V) → S → S × Refreshed J
  unfolding fetch push_if_missing finish_refresh
  refresh push_on_missing reply set_succeeds reply' s = finish_refresh (
      if push_on_missing
      then push_if_missing (fetch reply s) set_succeeds reply' s
      else (s, fetch reply s))

-- The keys of the object that the loop of `setAll` fills, on top of those it has. An assignment to
-- `__proto__` makes no key.
unfoldable pub add_keys : List String → List String → List String
unfolding contains
add_keys [] keys = keys
add_keys (k ∷ ks) keys =
    add_keys ks (if str_eq k "__proto__" || contains k keys then keys else k ∷ keys)

unfoldable pub keys_of : List String → List String
unfolding add_keys
keys_of ks = add_keys ks []

-- `new Set(...)`, on top of what it has
unfoldable pub add_members : List String → List String → List String
unfolding contains
add_members [] members = members
add_members (k ∷ ks) members = add_members ks (if contains k members then members else k ∷ members)

-- `ips.filter(net.isIPv4)`; the test is Node's.
unfoldable pub filter_ips : (String → Bool) → List String → List String
filter_ips is_ipv4 [] = []
filter_ips is_ipv4 (ip ∷ ips) =
    let rest = filter_ips is_ipv4 ips in if is_ipv4 ip then ip ∷ rest else rest

-- A JSON value, as far as the lists go: a list of texts, or `none` for what is no array.
abbrev pub ListValue : Type 0
ListValue = Option (List String)

-- `validate` of the lists, by what it returns of an array
unfoldable pub validate_list :
    (List String → List String) → Option ListValue → Refreshed (List String)
validate_list valid none = missing_error
validate_list valid (some none) = missing_error
validate_list valid (some (some ks)) = refreshed (valid ks)

-- `setAll` of the lists, by the keys or members that it makes
unfoldable pub set_all_list :
    (List String → List String) → List String → List String × Refreshed (List String)
set_all_list made ks = (made ks, refreshed (made ks))

unfoldable pub allowed_ips : (String → Bool) → SettingsClass (List String) ListValue (List String)
unfolding validate_list set_all_list filter_ips keys_of
allowed_ips is_ipv4 = record {
  validate = λ s value. validate_list (filter_ips is_ipv4) value;
  set_all = λ ips s. set_all_list keys_of ips;
  to_json = λ s. some s;
}

unfoldable pub allowed_email_domains : SettingsClass (List String) ListValue (List String)
unfolding validate_list set_all_list keys_of
allowed_email_domains = record {
  validate = λ s value. validate_list (λ ks. ks) value;
  set_all = λ domains s. set_all_list keys_of domains;
  to_json = λ s. some s;
}

unfoldable pub allowed_phone_numbers : SettingsClass (List String) ListValue (List String)
unfolding validate_list set_all_list add_members
allowed_phone_numbers = record {
  validate = λ s value. validate_list (λ ks. ks) value;
  set_all = λ numbers s. set_all_list (λ ks. add_members ks []) numbers;
  to_json = λ s. some s;
}
