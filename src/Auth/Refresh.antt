-- ===== src/Auth/Refresh.antt =====
-- AuthService.refreshToken of src/auth/auth.service.ts.
use mathlib.Core.Bool.{and-eq-true_iff}
use lodestar_server.Prelude.{
  ◌≢◌, String, ◌≡◌, ◌↔◌, refl, sym, ap, ◌∙◌, Bool, true, false, ◌&&◌, ◌||◌, not, Option, none, some,
  List, ◌==◌, if◌then◌else◌, Bool-cases, Option-cases, inl, inr, arith,
}
use lodestar_server.Redis.{Redis}
use lodestar_server.Auth.Device.{MemberDevice, Table}
use lodestar_server.Auth.Device.Service.{AppCache, has_module, get_by_fingerprint_id}
use lodestar_server.Auth.Directory.{Member, Directory, get_by_id}
use lodestar_server.Auth.Payload.{PublicMember, Claim, build_jwt_payload, claim_of}
use lodestar_server.Auth.Login.{
  State, RefreshResult, refresh_no_member, session_destroy, refreshed, refresh_failed,
  insert_last_login_job_into_queue,
}

-- `device && !device.isLogin`
abbrev pub is_signed_out : Option MemberDevice → Bool
is_signed_out none = false
is_signed_out (some d) = not d.is_login

-- The device of the request; no row has a fingerprint that is undefined.
abbrev pub device_of : String → Option String → Table → Option MemberDevice
device_of member_id none devices = none
device_of member_id (some fingerprint_id) devices =
    get_by_fingerprint_id member_id fingerprint_id devices

-- The members of the app who are held to their devices.
abbrev pub watches : AppCache → Member → Bool
watches a m =
    not (m.role == "app-owner")
    && (has_module a "login_restriction" || has_module a "device_management")

module _ (r : Redis) (sha256_hex : String → String) (bcrypt_compare : String → String → Bool)
    (sign : Claim → String) (node_env : String) where
  open r use {Store}

  abbrev pub renew :
      AppCache
      → Member
      → List PublicMember
      → String
      → Directory
      → State Store
      → RefreshResult × State Store
  renew a m logged_in now dir w =
      let w' = record w {
        store =
            insert_last_login_job_into_queue r sha256_hex bcrypt_compare sign node_env m.id now
              w.store;
      } in
      elim (build_jwt_payload a.org_id m logged_in dir) [
        | none ↦ (refresh_failed, w')
        | some payload ↦ (refreshed (sign (claim_of a payload dir)), w')
      ]

  abbrev pub refresh_member :
      AppCache
      → Option String
      → Option Member
      → List PublicMember
      → String
      → Directory
      → Table
      → State Store
      → RefreshResult × State Store
  refresh_member a fingerprint_id none logged_in now dir devices w = (refresh_no_member, w)
  refresh_member a fingerprint_id (some m) logged_in now dir devices w =
      if watches a m && is_signed_out (device_of m.id fingerprint_id devices)
      then (session_destroy, w)
      else renew a m logged_in now dir w

  unfoldable pub refresh_token :
      AppCache
      → Option String
      → Option String
      → List PublicMember
      → String
      → Directory
      → Table
      → State Store
      → RefreshResult × State Store
  unfolding insert_last_login_job_into_queue
  refresh_token a fingerprint_id none logged_in now dir devices w = (refresh_no_member, w)
  refresh_token a fingerprint_id (some session_member_id) logged_in now dir devices w =
      if session_member_id == ""
      then (refresh_no_member, w)
      else refresh_member a fingerprint_id (get_by_id a.id session_member_id dir) logged_in now dir
          devices w

  renew-ne-destroy :
      (a : AppCache) (m : Member) (logged_in : List PublicMember) (now : String) (dir : Directory)
      (w : State Store)
      → (renew a m logged_in now dir w).0 ≢ session_destroy
  renew-ne-destroy a m logged_in now dir w h =
      elim (Option-cases (build_jwt_payload a.org_id m logged_in dir)) [
        | inl absent ↦
            (let answer : refresh_failed ≡ session_destroy = rw (renew, absent) at h in cc)
        | inr (p, built) ↦
            (let answer : refreshed (sign (claim_of a p dir)) ≡ session_destroy =
                rw (renew, built) at h in
              cc)
      ]

  signed_out_iff :
      (found : Option MemberDevice)
      → (is_signed_out found ≡ true)
        ↔ ((d : MemberDevice) × (found ≡ some d) × (d.is_login ≡ false))
  signed_out_iff none = (λ h. cc, λ (d, e, f). cc)
  signed_out_iff (some d) = (
    λ h. (d, refl, ground arith),
    λ (d', e, f). (let same : d' ≡ d = cc in rw (sym (ap (λ x. x.is_login) same)) (rw f refl)),
  )

  -- For a member of the session who is found, the session is destroyed exactly where the app watches devices, the member is no owner,
  -- and the device of the request is known and was signed out.
  pub refresh_token-destroy_iff :
      (a : AppCache) (fingerprint_id session_member_id : String) (logged_in : List PublicMember)
      (now : String) (dir : Directory) (devices : Table) (w : State Store) (m : Member)
      → (session_member_id == "") ≡ false
      → get_by_id a.id session_member_id dir ≡ some m
      → ((refresh_token a
            (some fingerprint_id)
            (some session_member_id)
            logged_in
            now
            dir
            devices
            w).0
          ≡ session_destroy)
        ↔ ((watches a m ≡ true)
            × ((d : MemberDevice) × (get_by_fingerprint_id m.id fingerprint_id devices ≡ some d)
                × (d.is_login ≡ false)))
  unfolding refresh_token
  refresh_token-destroy_iff a fingerprint_id session_member_id logged_in now dir devices w m given
        found =
      let out = is_signed_out (get_by_fingerprint_id m.id fingerprint_id devices) in
      elim (Bool-cases (watches a m && out)) [
        | inl both ↦
            rw (given, found, both)
              (
                λ _.
                    (let (watched, gone) = (and-eq-true_iff _ _).0 both in
                      (watched, (signed_out_iff _).0 gone)),
                λ _. refl,
              )
        | inr kept ↦
            rw (given, found, kept)
              (
                λ h. absurd (renew-ne-destroy a m logged_in now dir w h),
                λ (watched, gone).
                    cc (sym kept ∙ (and-eq-true_iff _ _).1 (watched, (signed_out_iff _).1 gone)),
              )
      ]
