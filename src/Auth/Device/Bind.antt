-- ===== src/Auth/Device/Bind.antt =====
-- What checkAndBindDevices of src/auth/device/device.service.ts keeps, and when it refuses.
use lodestar_server.Prelude.{
  ℕ, ◌≤◌, ◌<◌, String, ◌≡◌, ◌⊎◌, ◌↔◌, true, false, Option, arith, length, any, inl, inr,
}
use lodestar_server.Auth.Device.{Details, Table, get_member_devices}
use lodestar_server.Auth.Device.Service.{
  AppCache, has_module, login_limit, device_limit, is_role, has_fingerprint, login_devices,
  upserted, LoginDeviceStatus, bind_limit_exceed, login_limit_exceed, check_and_bind_devices,
}
use lodestar_server.Auth.Device.Rows.{
  IsUnique, logins-upsert-le, devices-upsert-le, devices-upsert_of_bound, logins-upsert_of_existed,
  upsert-IsUnique, any-of_logged_in,
}

module _ (app : AppCache) (member_id : String) (member_role : Option String)
    (fingerprint_id : String) (details : Details) (now : ℕ) (new_id : String) where
  abbrev check : Table → LoginDeviceStatus × Table
  check = check_and_bind_devices app member_id member_role fingerprint_id details now new_id

  module _ (t : Table) where
    abbrev signed : Table
    signed = upserted app member_id member_role fingerprint_id details now new_id t

    -- Where sign-ins are restricted, a member who is no owner of the app never has more devices signed in
    -- than the app's limit: if he had no more before, he has no more after, whatever the answer.
    pub check-login_limit :
        IsUnique t
        → has_module app "login_restriction" ≡ true
        → is_role "app-owner" member_role ≡ false
        → length (login_devices member_id t) ≤ login_limit app
        → length (login_devices member_id (check t).1) ≤ login_limit app
    unfolding check_and_bind_devices
    check-login_limit unique restricted no_owner within = ground (
      arith,
      logins-upsert-le member_id fingerprint_id details now new_id t,
      logins-upsert_of_existed member_id fingerprint_id details now new_id t unique,
    )

    -- Where devices are managed, a member who is no owner of the app has no more devices bound than the
    -- app's limit after a check, if he had no more before.
    check-device_limit :
        has_module app "device_management" ≡ true
        → is_role "app-owner" member_role ≡ false
        → length (get_member_devices member_id t) ≤ device_limit app
        → length (get_member_devices member_id (check t).1) ≤ device_limit app
    unfolding check_and_bind_devices
    check-device_limit managed no_owner within = ground (
      arith,
      devices-upsert-le member_id fingerprint_id details now new_id t,
      devices-upsert_of_bound member_id fingerprint_id details now new_id t,
      any-of_logged_in (has_fingerprint fingerprint_id) (get_member_devices member_id t),
    )

    -- A check that refuses, for the limit of bound devices or of sign-ins, changes no row.
    pub check_refused :
        ((check t).0 ≡ bind_limit_exceed) ⊎ ((check t).0 ≡ login_limit_exceed) → (check t).1 ≡ t
    unfolding check_and_bind_devices
    check_refused h = ground arith

    check_table : ((check t).1 ≡ t) ⊎ ((check t).1 ≡ signed)
    unfolding check_and_bind_devices
    check_table = ground arith

    -- If no two rows were the same device of a member before a check, none are after it.
    check-IsUnique : IsUnique t → IsUnique (check t).1
    check-IsUnique unique = elim check_table [
      | inl same ↦ rw same unique
      | inr changed ↦
          rw changed (upsert-IsUnique member_id fingerprint_id details now new_id t unique)
    ]

    -- The login limit refuses exactly a member who is no owner, on a browser not signed in, in an app that
    -- restricts sign-ins, while his sign-ins are at the limit and the bind limit does not refuse him first.
    login_limit_exceed_iff : ((check t).0 ≡ login_limit_exceed) ↔ (
        (has_module app "login_restriction" ≡ true)
        × (is_role "app-owner" member_role ≡ false)
        × (any (has_fingerprint fingerprint_id) (login_devices member_id t) ≡ false)
        × (login_limit app ≤ length (login_devices member_id t))
        × ((has_module app "device_management" ≡ false)
            ⊎ (length (get_member_devices member_id t) < device_limit app)
            ⊎ (any (has_fingerprint fingerprint_id) (get_member_devices member_id t) ≡ true)))
    unfolding check_and_bind_devices
    login_limit_exceed_iff = ground arith
