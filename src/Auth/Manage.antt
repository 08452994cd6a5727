-- ===== src/Auth/Manage.antt =====
-- DeviceController.logoutEarlyLoginedDevice of src/auth/device/device.controller.ts: what lets it sign devices
-- out, and what it leaves.
use mathlib.Core.Path.{subst}
use lodestar_server.Prelude.{
  ℕ, String, ◌≡◌, ◌≢◌, ◌≤◌, refl, sym, ap, ◌∙◌, true, false, Option, some, length, eqb, Bool-cases,
  Option-cases, inl, inr, arith, eq_refl,
}
use lodestar_server.Redis.{Redis}
use lodestar_server.Auth.Keys.{device_login_limit}
use lodestar_server.Auth.Limits.{match_device_login_challenge, clear_device_login_challenge}
use lodestar_server.Auth.Limits.Challenge.{match-eq-false_of_absent}
use lodestar_server.Auth.Device.{Details, Table}
use lodestar_server.Auth.Device.Sort.{HasDistinctIds}
use lodestar_server.Auth.Device.Service.{
  AppCache, login_limit, login_devices, login_limit_exceed, check_and_bind_devices,
  get_login_devices, check_login_device_reached_limit, logout_excess_devices,
}
use lodestar_server.Auth.Device.Logout.{check-logout_excess_devices}
use lodestar_server.Auth.Endpoint.{
  Reply, code, app_mismatch, challenge_required, failed_to_manage, choose_fingerprint, is_own_app,
  manage, logout_early_logined_device,
}
use lodestar_server.MailCode.{World}

module _ (r : Redis) (sha256_hex : String → String) (from_user_agent : String → String) where
  open r use {Store, find, find-del}

  -- What signing older devices out does where it succeeds.
  manage-succeeds :
      (a : AppCache) (app_id member_id : String) (w : World Store)
      → (manage r sha256_hex from_user_agent a app_id member_id w).0 ≡ code "SUCCESS"
      → (check_login_device_reached_limit member_id a w.devices ≡ true)
        × ((devices : Table) × (logout_excess_devices member_id a w.devices ≡ some devices)
            × ((manage r sha256_hex from_user_agent a app_id member_id w).1 ≡ record w {
              devices = devices;
              store = clear_device_login_challenge r sha256_hex app_id member_id w.store;
            }))
  manage-succeeds a app_id member_id w h =
      elim (Bool-cases (eqb (length (get_login_devices member_id w.devices)) 0)) [
        | inl empty ↦
            (let answer : failed_to_manage ≡ code "SUCCESS" = rw (manage, empty) at h in cc)
        | inr some_in ↦ elim (Bool-cases (check_login_device_reached_limit member_id a w.devices)) [
          | inr below ↦
              (let answer : failed_to_manage ≡ code "SUCCESS" = rw (manage, some_in, below) at h in
                cc)
          | inl reached ↦ elim (Option-cases (logout_excess_devices member_id a w.devices)) [
            | inl fails ↦
                (let answer : failed_to_manage ≡ code "SUCCESS" =
                    rw (manage, some_in, reached, fails) at h in
                  cc)
            | inr (devices, done) ↦
                (reached, (devices, done, rw (manage, some_in, reached, done) refl))
          ]
        ]
      ]

  abbrev calls :
      AppCache → String → Option String → Option String → World Store → Reply × World Store
  calls a member_id body cookie w =
      logout_early_logined_device r sha256_hex from_user_agent (some a) a.id member_id body cookie w

  -- A cleared challenge matches no fingerprint.
  match_cleared :
      (app_id member_id : String) (fp : Option String) (s : Store)
      → match_device_login_challenge r sha256_hex app_id member_id fp
          (clear_device_login_challenge r sha256_hex app_id member_id s)
        ≡ false
  unfolding clear_device_login_challenge
  match_cleared app_id member_id fp s =
      let key = device_login_limit sha256_hex app_id member_id in
      match-eq-false_of_absent r sha256_hex app_id member_id fp _
        (find-del key key s ∙ rw (eq_refl key) refl)

  reached-le :
      (a : AppCache) (member_id : String) (t : Table)
      → check_login_device_reached_limit member_id a t ≡ true
      → login_limit a ≤ length (login_devices member_id t)
  unfolding check_login_device_reached_limit
  reached-le a member_id t h = ground arith

  again :
      (a : AppCache) (member_id : String) (body cookie : Option String)
      → is_own_app (some a) a.id ≡ true
      → (w : World Store)
      → match_device_login_challenge r sha256_hex a.id member_id
          (choose_fingerprint from_user_agent body cookie)
          w.store
        ≡ false
      → (calls a member_id body cookie w).0 ≡ challenge_required
  unfolding logout_early_logined_device
  again a member_id body cookie own w gone = rw (logout_early_logined_device, own, gone) refl

  -- Where the ids of the devices are distinct: devices are signed out only for the browser whose challenge is live; the challenge is used up, so that
  -- another call is refused, and no sign-in that follows is refused for the limit of sign-ins.
  pub logout_early_logined_device-succeeds :
      (a : AppCache) (member_id : String) (body cookie body' cookie' : Option String)
      (w : World Store) (role : Option String) (fingerprint_id : String) (details : Details)
      (now : ℕ) (new_id : String)
      → HasDistinctIds w.devices
      → (calls a member_id body cookie w).0 ≡ code "SUCCESS"
      → (match_device_login_challenge r sha256_hex a.id member_id
            (choose_fingerprint from_user_agent body cookie)
            w.store
          ≡ true)
        × ((calls a member_id body' cookie' (calls a member_id body cookie w).1).0
            ≡ challenge_required)
        × ((check_and_bind_devices a member_id role fingerprint_id details now new_id
              (calls a member_id body cookie w).1.devices).0
            ≢ login_limit_exceed)
  unfolding logout_early_logined_device
  logout_early_logined_device-succeeds a member_id body cookie body' cookie' w role fingerprint_id
        details now new_id distinct h =
      elim (Bool-cases (is_own_app (some a) a.id)) [
        | inr other ↦
            (let answer : app_mismatch ≡ code "SUCCESS" =
                rw (logout_early_logined_device, other) at h in
              cc)
        | inl own ↦
            elim (Bool-cases (
              match_device_login_challenge r sha256_hex a.id member_id
                (choose_fingerprint from_user_agent body cookie) w.store)) [
                  | inr differs ↦
                      (let answer : challenge_required ≡ code "SUCCESS" =
                          rw (logout_early_logined_device, own, differs) at h in
                        cc)
                  | inl matched ↦
                      (let managed : calls a member_id body cookie w
                            ≡ manage r sha256_hex from_user_agent a a.id member_id w =
                          rw (logout_early_logined_device, own, matched) refl in
                        let (reached, (devices, done, left)) =
                          manage-succeeds a a.id member_id w (ap (λ x. x.0) (sym managed) ∙ h) in
                        let after : (calls a member_id body cookie w).1 ≡ record w {
                          devices = devices;
                          store = clear_device_login_challenge r sha256_hex a.id member_id w.store;
                        } =
                          ap (λ x. x.1) managed ∙ left in
                        let gone =
                          match_cleared a.id member_id
                            (choose_fingerprint from_user_agent body' cookie') w.store in
                        (
                          matched,
                          ap (λ x. (calls a member_id body' cookie' x).0) after
                              ∙ again a member_id body' cookie' own _ gone,
                          subst
                              (λ x.
                                (check_and_bind_devices a member_id role fingerprint_id details now
                                  new_id x.devices).0
                                ≢ login_limit_exceed)
                              (sym after)
                              (check-logout_excess_devices member_id a w.devices distinct
                                (reached-le a member_id w.devices reached) role fingerprint_id
                                details now new_id devices done),
                        ))
                ]
      ]
