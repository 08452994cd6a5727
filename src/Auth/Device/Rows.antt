-- ===== src/Auth/Device/Rows.antt =====
-- The table after a device is signed in: no two rows are the same device of the same member (the unique
-- index of src/member/entity/member_device.entity.ts), and how the member's rows are counted.
use mathlib.Core.Path.{subst}
use mathlib.Core.Bool.{and-eq-true_iff}
use lodestar_server.Prelude.{
  Bool-cases, inl, inr, ℕ, ◌+◌, ◌≤◌, String, ◌≡◌, refl, Bool, true, false, List, [], ◌∷◌, arith,
  eq_iff, length, select, any, All,
}
use lodestar_server.Auth.Device.{
  Details, MemberDevice, Table, is_device, get_member_devices, upsert_member_device,
}
use lodestar_server.Auth.Device.Service.{logged_in, has_fingerprint, login_devices}

abbrev pub IsUnique : Table → Type 0
IsUnique [] = Unit
IsUnique (d ∷ ds) = All (λ e. is_device d.member_id d.fingerprint_id e ≡ false) ds × IsUnique ds

-- A device signed in is a device.
pub any-of_logged_in :
    (p : MemberDevice → Bool) (ds : List MemberDevice)
    → any p (select logged_in ds) ≡ true
    → any p ds ≡ true
any-of_logged_in p [] h = h
any-of_logged_in p (d ∷ ds) h = ground (arith, any-of_logged_in p ds)

module _ (member_id fingerprint_id : String) where
  -- A table without the device has no sign-in of it.
  any-eq-false_of_absent :
      (ds : Table)
      → All (λ e. is_device member_id fingerprint_id e ≡ false) ds
      → any (has_fingerprint fingerprint_id) (login_devices member_id ds) ≡ false
  unfolding get_member_devices
  any-eq-false_of_absent [] h = refl
  any-eq-false_of_absent (d ∷ ds) (p, h) = ground (arith, any-eq-false_of_absent ds h)

  module _ (details : Details) (now : ℕ) (new_id : String) where
    abbrev upserted : Table → Table
    upserted = upsert_member_device member_id fingerprint_id details now new_id

    pub logins-upsert-le :
        (t : Table)
        → length (login_devices member_id (upserted t)) ≤ length (login_devices member_id t) + 1
    unfolding get_member_devices upsert_member_device
    logins-upsert-le [] = ground arith
    logins-upsert-le (d ∷ ds) = ground (arith, logins-upsert-le ds)

    pub devices-upsert-le :
        (t : Table)
        → length (get_member_devices member_id (upserted t))
          ≤ length (get_member_devices member_id t) + 1
    unfolding get_member_devices upsert_member_device
    devices-upsert-le [] = ground arith
    devices-upsert-le (d ∷ ds) = ground (arith, devices-upsert-le ds)

    -- A device that is bound keeps the number of the member's devices.
    pub devices-upsert_of_bound :
        (t : Table)
        → any (has_fingerprint fingerprint_id) (get_member_devices member_id t) ≡ true
        → length (get_member_devices member_id (upserted t))
          ≡ length (get_member_devices member_id t)
    unfolding get_member_devices upsert_member_device
    devices-upsert_of_bound [] h = cc
    devices-upsert_of_bound (d ∷ ds) h = ground (arith, devices-upsert_of_bound ds)

    same_device :
        (d : MemberDevice) (ds : Table)
        → is_device member_id fingerprint_id d ≡ true
        → IsUnique (d ∷ ds)
        → All (λ e. is_device member_id fingerprint_id e ≡ false) ds
    same_device d ds same unique =
        let (member, fingerprint) = (and-eq-true_iff _ _).0 same in
        subst (λ x. All (λ e. is_device x fingerprint_id e ≡ false) ds) ((eq_iff _ _).0 member)
          (subst (λ y. All (λ e. is_device d.member_id y e ≡ false) ds) ((eq_iff _ _).0 fingerprint)
            unique.0)

    -- A device that is signed in keeps the number of the member's sign-ins.
    pub logins-upsert_of_existed :
        (t : Table)
        → IsUnique t
        → any (has_fingerprint fingerprint_id) (login_devices member_id t) ≡ true
        → length (login_devices member_id (upserted t)) ≤ length (login_devices member_id t)
    unfolding get_member_devices upsert_member_device
    logins-upsert_of_existed [] u h = cc
    logins-upsert_of_existed (d ∷ ds) u h =
        elim (Bool-cases (is_device member_id fingerprint_id d)) [
          | inl same ↦ ground (arith, any-eq-false_of_absent ds (same_device d ds same u))
          | inr differ ↦ rw differ (ground (arith, logins-upsert_of_existed ds u.1))
        ]

    absent-upsert :
        (m f : String) (t : Table)
        → is_device m f (record {
          id = new_id;
          member_id = member_id;
          fingerprint_id = fingerprint_id;
          is_login = true;
          created_at = now;
          last_login_at = now;
          details = details;
        })
          ≡ false
        → All (λ e. is_device m f e ≡ false) t
        → All (λ e. is_device m f e ≡ false) (upserted t)
    unfolding upsert_member_device
    absent-upsert m f [] new h = (new, tt)
    absent-upsert m f (d ∷ ds) new (p, h) =
        elim (Bool-cases (is_device member_id fingerprint_id d)) [
          | inl same ↦ rw same (p, h)
          | inr differ ↦ rw differ (p, absent-upsert m f ds new h)
        ]

    -- Signing a device in makes no second row of it.
    pub upsert-IsUnique : (t : Table) → IsUnique t → IsUnique (upserted t)
    unfolding upsert_member_device
    upsert-IsUnique [] u = (tt, tt)
    upsert-IsUnique (d ∷ ds) (h, u) = elim (Bool-cases (is_device member_id fingerprint_id d)) [
      | inl same ↦ rw same (h, u)
      | inr differ ↦ rw differ (
        absent-upsert d.member_id d.fingerprint_id ds
            (ground (
              arith,
              eq_iff d.member_id member_id,
              eq_iff member_id d.member_id,
              eq_iff d.fingerprint_id fingerprint_id,
              eq_iff fingerprint_id d.fingerprint_id,
            ))
            h,
        upsert-IsUnique ds u,
      )
    ]
