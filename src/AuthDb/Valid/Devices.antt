-- ===== src/AuthDb/Valid/Devices.antt =====
-- The calls on devices keep the store valid.
use fxa_local_dev.Prelude.{
  String, ◌≡◌, refl, inl, inr, false, Option, none, some, ◌||◌, Bool-cases, Option-cases,
}
use fxa_local_dev.AuthDb.Table.{get, remove}
use fxa_local_dev.AuthDb.Table.Laws.{keep-IsTable}
use fxa_local_dev.AuthDb.Store.{Account, Device, ok, err, Answer, Store, is_set}
use fxa_local_dev.AuthDb.Links.{Linked-put}
use fxa_local_dev.AuthDb.Devices.{
  find, is_other_key, device_key_of, DeviceInfo, create_device, delete_device, delete_session_of,
  delete_session_token, drop_session, new_device, set_device, returned, unlink_old, update_device,
  update_device_record,
}
use fxa_local_dev.AuthDb.Valid.{IsValid, set_account-IsValid, with_account-IsValid}

-- A change of tokens and links only.
drop_session-IsValid : (id : String) (s : Store) → IsValid s → IsValid (drop_session id s)
unfolding IsValid drop_session remove
drop_session-IsValid id s v = (v.0, v.1, v.2, v.3, v.4, keep-IsTable _ s.unverified_tokens v.5)

module _ (s : Store) (v : IsValid s) where
  unlink_old-IsValid : (d : Device) (i : DeviceInfo) → IsValid (unlink_old d i s)
  unfolding IsValid unlink_old
  unlink_old-IsValid d i = v

  pub set_device-IsValid :
      (uid key : String) (a : Account) (d : Device) (i : DeviceInfo)
      → get uid s.accounts ≡ some a
      → IsValid (set_device uid a key (update_device_record d i key s)).1
  unfolding IsValid set_device update_device_record
  set_device-IsValid uid key a d i known =
      elim (Bool-cases (
        is_other_key (device_key_of (find i.session_token_id s.session_tokens)) key
        || is_other_key (find i.refresh_token_id s.devices_by_refresh_token_id) key)) [
          | inl taken ↦ rw (taken, set_device) v
          | inr free ↦
              rw (free, set_device) (Linked-put uid a _ known refl v.0, v.1, v.2, v.3, v.4, v.5)
        ]

  pub create_device-IsValid :
      (uid key : String) (i : DeviceInfo) → IsValid (create_device uid key i s).1
  unfolding create_device
  create_device-IsValid uid key i = with_account-IsValid uid s _ v (λ a known.
      elim (Bool-cases (is_set (get key a.devices))) [
        | inl taken ↦ rw taken v
        | inr free ↦ rw free (
            set_device-IsValid uid key a (new_device key)
              (record i { callback_is_expired = some false }) known)
      ])

module _ (s : Store) (v : IsValid s) where
  pub update_device-IsValid :
      (uid key : String) (i : DeviceInfo) → IsValid (update_device uid key i s).1
  unfolding update_device
  update_device-IsValid uid key i = with_account-IsValid uid s _ v (λ a known.
      elim (Option-cases (get key a.devices)) [
        | inl unknown ↦ rw unknown v
        | inr (d, there) ↦
            rw there (
              set_device-IsValid (unlink_old d i s) (unlink_old-IsValid s v d i) uid key a d _
                known)
      ])

  pub delete_session_token-IsValid : (id : String) → IsValid (delete_session_token id s).1
  unfolding delete_session_token
  delete_session_token-IsValid id = elim (Option-cases (get id s.session_tokens)) [
    | inl unknown ↦ rw (unknown, delete_session_token) (drop_session-IsValid id s v)
    | inr (t, there) ↦
        rw (there, delete_session_token)
          (with_account-IsValid t.uid s _ v (λ a known.
            set_account-IsValid t.uid a _ (drop_session id s) known refl
              (drop_session-IsValid id s v)))
  ]

returned-IsValid :
    (ids : Option String × Option String) (x : Answer (Unit {0}))
    → IsValid x.1
    → IsValid (returned ids x).1
returned-IsValid ids (ok u, s) v = v
returned-IsValid ids (err e, s) v = v

delete_session_of-IsValid :
    (id : Option String) (s : Store) → IsValid s → IsValid (delete_session_of id s).1
delete_session_of-IsValid none s v = v
delete_session_of-IsValid (some id) s v = delete_session_token-IsValid s v id

pub delete_device-IsValid :
    (uid key : String) (s : Store) → IsValid s → IsValid (delete_device uid key s).1
unfolding delete_device
delete_device-IsValid uid key s v = with_account-IsValid uid s _ v (λ a known.
    elim (Option-cases (get key a.devices)) [
      | inl unknown ↦ rw unknown v
      | inr (d, there) ↦ rw there (
          returned-IsValid _ _ (
            delete_session_of-IsValid d.session_token_id _
              (set_account-IsValid uid a _ s known refl v)))
    ])
