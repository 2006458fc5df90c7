-- ===== src/Customs/Settings/Refresh.antt =====
-- What a refresh leaves of the allow lists.
use fxa_local_dev.Prelude.{
  String, ◌≡◌, refl, inl, inr, Bool, true, false, ◌&&◌, ◌||◌, not, none, some, List, [], ◌∷◌, arith,
  str_eq, str_eq_iff, if◌then◌else◌, ap, Bool-cases,
}
use fxa_local_dev.Customs.Objects.{contains}
use fxa_local_dev.Customs.Server.{Reply, failed, missing, found}
use fxa_local_dev.Customs.Settings.{
  SettingsClass, ListValue, fetch, apply, push, push_if_missing, finish_refresh, refresh, add_keys,
  keys_of, add_members, filter_ips, validate_list, set_all_list, allowed_ips, allowed_email_domains,
  allowed_phone_numbers,
}

contains-add_keys :
    (k : String) (ks keys : List String)
    → contains k (add_keys ks keys)
      ≡ (contains k ks && not (str_eq k "__proto__") || contains k keys)
unfolding contains add_keys
contains-add_keys k [] keys = refl
contains-add_keys k (l ∷ ks) keys = elim (Bool-cases (str_eq l "__proto__" || contains l keys)) [
  | inl known ↦ rw known (
      ground (
        arith,
        contains-add_keys k ks keys,
        known,
        str_eq_iff l k,
        ap (λ w. contains w keys),
        ap (λ w. str_eq w "__proto__"),
      ))
  | inr new ↦ rw new (
      ground (
        arith,
        contains-add_keys k ks (l ∷ keys),
        new,
        str_eq_iff l k,
        ap (λ w. str_eq w "__proto__"),
      ))
]

contains-keys_of :
    (k : String) (ks : List String)
    → contains k (keys_of ks) ≡ (contains k ks && not (str_eq k "__proto__"))
unfolding keys_of contains
contains-keys_of k ks = ground (arith, contains-add_keys k ks [])

contains-add_members :
    (k : String) (ks members : List String)
    → contains k (add_members ks members) ≡ (contains k ks || contains k members)
unfolding contains add_members
contains-add_members k [] members = refl
contains-add_members k (l ∷ ks) members = elim (Bool-cases (contains l members)) [
  | inl known ↦ rw known (
      ground (
        arith,
        contains-add_members k ks members,
        known,
        str_eq_iff l k,
        ap (λ w. contains w members),
      ))
  | inr new ↦ rw new (ground (arith, contains-add_members k ks (l ∷ members)))
]

contains-filter_ips :
    (is_ipv4 : String → Bool) (ip : String) (ips : List String)
    → contains ip (filter_ips is_ipv4 ips) ≡ (contains ip ips && is_ipv4 ip)
unfolding contains filter_ips
contains-filter_ips is_ipv4 ip [] = refl
contains-filter_ips is_ipv4 ip (i ∷ ips) =
    ground (arith, contains-filter_ips is_ipv4 ip ips, str_eq_iff i ip, ap is_ipv4)

-- Whether a key is allowed by what memcached replied, where `may` tells whether it can be at all, or
-- else by the list before.
abbrev pub listed : String → Bool → Reply ListValue → Bool → Bool
listed key may (found (some keys)) old = contains key keys && may
listed key may (found none) old = old
listed key may missing old = old
listed key may failed old = old

-- memcached answers, and has no list.
abbrev pub lacks_list : Reply ListValue → Bool
lacks_list (found (some keys)) = false
lacks_list (found none) = true
lacks_list missing = true
lacks_list failed = false

-- Whether a key is allowed after a refresh.
abbrev pub refreshed_list :
    String → Bool → Bool → Reply ListValue → Bool → Reply ListValue → Bool → Bool
refreshed_list key may push_on_missing reply set_succeeds reply' old =
    listed key may reply (
      if push_on_missing && lacks_list reply && set_succeeds
      then listed key may reply' old
      else old)

module _ (valid made : List String → List String) (key : String) (is_valid can_be : Bool)
    (valid_lem : (ks : List String) → contains key (valid ks) ≡ (contains key ks && is_valid))
    (made_lem : (ks : List String) → contains key (made ks) ≡ (contains key ks && can_be)) where
  abbrev list_class : SettingsClass (List String) ListValue (List String)
  list_class = record {
    validate = λ s value. validate_list valid value;
    set_all = λ ks s. set_all_list made ks;
    to_json = λ s. some s;
  }

  made_valid :
      (ks : List String)
      → contains key (made (valid ks)) ≡ (contains key ks && (is_valid && can_be))
  made_valid ks = ground (arith, made_lem (valid ks), valid_lem ks)

  apply-fetch :
      (reply : Reply ListValue) (s : List String)
      → contains key (apply list_class (fetch list_class reply s) s).0
        ≡ listed key (is_valid && can_be) reply (contains key s)
  unfolding fetch apply validate_list set_all_list
  apply-fetch (found (some ks)) s = made_valid ks
  apply-fetch (found none) s = refl
  apply-fetch missing s = refl
  apply-fetch failed s = refl

  -- What `push` leaves, which `refresh` sets once more.
  finish-push :
      (reply : Reply ListValue) (s : List String)
      → contains key (finish_refresh list_class (apply list_class (fetch list_class reply s) s)).0
        ≡ listed key (is_valid && can_be) reply (contains key s)
  unfolding fetch apply validate_list set_all_list finish_refresh
  finish-push (found (some ks)) s = ground (arith, made_lem (made (valid ks)), made_valid ks)
  finish-push (found none) s = refl
  finish-push missing s = refl
  finish-push failed s = refl

  refresh-list_class :
      (push_on_missing set_succeeds : Bool) (reply : Reply ListValue)
      (memory : ListValue → Reply ListValue) (old : List String)
      → contains key (refresh list_class push_on_missing reply set_succeeds memory old).0
        ≡ refreshed_list key
            (is_valid && can_be)
            push_on_missing
            reply
            set_succeeds
            (memory (some old))
            (contains key old)
  unfolding refresh finish_refresh push_if_missing push fetch apply validate_list set_all_list
  refresh-list_class false set reply memory old = apply-fetch reply old
  refresh-list_class true set (found (some ks)) memory old = made_valid ks
  refresh-list_class true set failed memory old = refl
  refresh-list_class true true missing memory old = finish-push (memory (some old)) old
  refresh-list_class true false missing memory old = refl
  refresh-list_class true true (found none) memory old = finish-push (memory (some old)) old
  refresh-list_class true false (found none) memory old = refl

-- What a refresh allows, for every outcome of its calls of memcached. A list that memcached holds
-- takes the place of the list before; without one, and if the refresh is to push, the list before is
-- written, and what memcached then holds for it is read back. Whatever else fails leaves the list as
-- it was. Of the addresses of a list only those of IPv4 are taken, and no object takes the key
-- `__proto__`.
pub refresh_lem :
    (is_ipv4 : String → Bool) (key : String) (push_on_missing set_succeeds : Bool)
    (reply : Reply ListValue) (memory : ListValue → Reply ListValue) (old : List String)
    → let own = not (str_eq key "__proto__") in
      let after = λ (may : Bool).
        refreshed_list key may push_on_missing reply set_succeeds
          (memory (some old))
          (contains key old) in
      (contains key (refresh allowed_email_domains push_on_missing reply set_succeeds memory old).0
        ≡ after own)
      × (contains key
            (refresh allowed_phone_numbers push_on_missing reply set_succeeds memory old).0
          ≡ after true)
      × (contains key
            (refresh (allowed_ips is_ipv4) push_on_missing reply set_succeeds memory old).0
          ≡ after (is_ipv4 key && own))
unfolding allowed_email_domains allowed_phone_numbers allowed_ips contains
refresh_lem is_ipv4 key push_on_missing set_succeeds reply memory old =
    let any_key : (ks : List String) → contains key ks ≡ (contains key ks && true) =
      λ ks. ground arith in
    let any_member : (ks : List String)
        → contains key (add_members ks []) ≡ (contains key ks && true) =
      λ ks. ground (arith, contains-add_members key ks []) in
    (
      refresh-list_class (λ ks. ks) keys_of key true (not (str_eq key "__proto__")) any_key
          (contains-keys_of key) push_on_missing set_succeeds reply memory old,
      refresh-list_class (λ ks. ks) (λ ks. add_members ks []) key true true any_key any_member
          push_on_missing set_succeeds reply memory old,
      refresh-list_class (filter_ips is_ipv4) keys_of key (is_ipv4 key)
          (not (str_eq key "__proto__")) (contains-filter_ips is_ipv4 key) (contains-keys_of key)
          push_on_missing set_succeeds reply memory old,
    )
