-- ===== src/Auth/Endpoint.antt =====
-- AuthController.generalLogin of src/auth/auth.controller.ts and DeviceController.logoutEarlyLoginedDevice of
-- src/auth/device/device.controller.ts. The fingerprint taken from the user agent is a parameter.
use lodestar_server.Prelude.{
  ℕ, String, Bool, false, ◌&&◌, not, Option, none, some, List, [], ◌∷◌, ◌++◌, ◌==◌, if◌then◌else◌,
  select, length, eqb,
}
use lodestar_server.Redis.{Redis}
use lodestar_server.Auth.Limits.{
  write_device_login_challenge, match_device_login_challenge, clear_device_login_challenge,
  write_device_bind_challenge, is_device_bind_locked,
}
use lodestar_server.Auth.Device.{Details, Table}
use lodestar_server.Auth.Device.Service.{
  AppCache, has_module, LoginDeviceStatus, available, existed, limited, unsupported,
  bind_limit_exceed, login_limit_exceed, check_and_bind_devices, get_login_devices,
  check_login_device_reached_limit, logout_excess_devices,
}
use lodestar_server.Auth.Directory.{Member, Directory}
use lodestar_server.Auth.Payload.{PublicMember, Claim, public_member}
use lodestar_server.Auth.Login.{
  State, LoginResult, no_member, reset_password, password, success, too_many_attempts, no_app_host,
  failed, general_login,
}
use lodestar_server.Auth.Session.{Account, Session, SessionStore, rotate_session_identity}
use lodestar_server.MailCode.{World, Codes, MailJob}
use lodestar_server.MailCode.Service.{bind_device_limit, send_device_bind_code}

-- What the two endpoints read and write: the state of sign-in, the tables of codes and devices, the queue
-- of the codes' mails, and the session of the request.
pub record Site (S : Type 0) : Type 0 where
  pub state : State S
  pub codes : Codes
  pub devices : Table
  pub code_mails : List MailJob
  pub session : Option Session

abbrev pub world_of : {S : Type 0} → Site S → World S
world_of site = record {
  codes = site.codes;
  devices = site.devices;
  mails = site.code_mails;
  store = site.state.store;
}

abbrev pub with_world : {S : Type 0} → Site S → World S → Site S
with_world site w = record site {
  state = record site.state { store = w.store };
  codes = w.codes;
  devices = w.devices;
  code_mails = w.mails;
}

-- The code of an answer, and the exceptions that leave the handler.
pub data Reply : Type 0 where
  code : String → Reply
  app_mismatch : Reply
  too_many : Reply
  challenge_required : Reply
  failed_to_manage : Reply

-- `bodyFingerPrint && !cookieFingerPrint ? … : cookieFingerPrint`
abbrev pub is_filled : Option String → Bool
is_filled none = false
is_filled (some s) = not (s == "")

abbrev pub choose_fingerprint : (String → String) → Option String → Option String → Option String
choose_fingerprint from_user_agent none cookie = cookie
choose_fingerprint from_user_agent (some body) cookie =
    if is_filled (some body) && not (is_filled cookie) then some (from_user_agent body) else cookie

-- `!appCache?.id || body.appId !== appCache.id`
abbrev pub is_own_app : Option AppCache → String → Bool
is_own_app none app_id = false
is_own_app (some a) app_id = not (a.id == "") && app_id == a.id

module _ (r : Redis) (sha256_hex : String → String) (from_user_agent : String → String) where
  open r use {Store}

  abbrev pub manage : AppCache → String → String → World Store → Reply × World Store
  manage a app_id member_id w =
      if eqb (length (get_login_devices member_id w.devices)) 0
      then (failed_to_manage, w)
      else if not (check_login_device_reached_limit member_id a w.devices)
      then (failed_to_manage, w)
      else elim (logout_excess_devices member_id a w.devices) [
        | none ↦ (failed_to_manage, w)
        | some devices ↦ (
          code "SUCCESS",
          record w {
            devices = devices;
            store = clear_device_login_challenge r sha256_hex app_id member_id w.store;
          },
        )
      ]

  -- DeviceController.logoutEarlyLoginedDevice
  unfoldable pub logout_early_logined_device :
      Option AppCache
      → String
      → String
      → Option String
      → Option String
      → World Store
      → Reply × World Store
  logout_early_logined_device none app_id member_id body cookie w = (app_mismatch, w)
  logout_early_logined_device (some a) app_id member_id body cookie w =
      if not (is_own_app (some a) app_id)
      then (app_mismatch, w)
      else if not (
          match_device_login_challenge r sha256_hex a.id member_id
            (choose_fingerprint from_user_agent body cookie) w.store)
      then (challenge_required, w)
      else manage a a.id member_id w

-- `session[appId]`, and the members it keeps.
abbrev pub account_of : String → Session → List PublicMember
account_of app_id [] = []
account_of app_id ((key, account) ∷ rest) =
    if key == app_id then account.members else account_of app_id rest

-- The body, the cookie and what else the request and the server give.
pub record Request : Type 0 where
  pub app_id : String
  pub account : String
  pub password_text : String
  pub body_fingerprint : Option String
  pub cookie_fingerprint : Option String
  pub ip : Option String
  pub geo_ip : Option String
  pub browser : String
  pub details : Details

pub record Fresh : Type 0 where
  pub now : String
  pub now_ms : ℕ
  pub token : String
  pub device_id : String
  pub code_id : String
  pub draws : List String

module _ (r : Redis) (sha256_hex : String → String) (bcrypt_compare : String → String → Bool)
    (sign : Claim → String) (node_env : String) (from_user_agent : String → String)
    (dir : Directory) (store_answers : SessionStore) (req : Request) (fresh : Fresh) where
  open r use {Store}

  -- A member has no `orgId`, so the session's entry has none.
  abbrev pub identity : Member → List PublicMember → Account
  identity m logged_in = record {
    current_member_id = m.id;
    members =
        select (λ p. not (p.id == m.id)) logged_in
        ++ (record (public_member none m) { org_id = none } ∷ []);
  }

  abbrev pub rotated : Bool × Option Session → Site Store → Reply × Site Store
  rotated (done, session) site =
      if done
      then (code "SUCCESS", record site { session = session })
      else (code "E_SESSION", record site { session = session })

  -- The branch of a member at the limit of bound devices.
  abbrev pub challenge_bind : AppCache → Member → Site Store → Site Store
  challenge_bind a m site =
      if not (m.email == "")
        && not (is_device_bind_locked r sha256_hex req.app_id m.id site.state.store)
      then (let w = record (world_of site) {
        store = write_device_bind_challenge r sha256_hex req.app_id m.email m.id site.state.store;
      } in
          with_world site
            (send_device_bind_code r sha256_hex (some a) req.app_id m.email bind_device_limit
              req.browser req.geo_ip fresh.draws fresh.code_id fresh.now_ms w).1)
      else site

  abbrev pub or_no_fingerprint : Option String → String
  or_no_fingerprint none = ""
  or_no_fingerprint (some s) = s

  -- `checkAndBindDevices` with a fingerprint, UNSUPPORTED without.
  abbrev pub device_status : AppCache → Member → Option String → Table → LoginDeviceStatus × Table
  device_status a m fingerprint devices =
      if is_filled fingerprint
      then check_and_bind_devices a m.id (some m.role) (or_no_fingerprint fingerprint) req.details
          fresh.now_ms fresh.device_id devices
      else (unsupported, devices)

  abbrev pub answer_device :
      AppCache
      → Member
      → Option String
      → List PublicMember
      → LoginDeviceStatus
      → Site Store
      → Reply × Site Store
  answer_device a m fingerprint logged_in login_limit_exceed site = (
    code "E_LOGIN_DEVICE",
    record site {
      state = record site.state {
        store =
            write_device_login_challenge r sha256_hex req.app_id m.id
              (or_no_fingerprint fingerprint) site.state.store;
      };
    },
  )
  answer_device a m fingerprint logged_in bind_limit_exceed site =
      (code "E_BIND_DEVICE", challenge_bind a m site)
  answer_device a m fingerprint logged_in existed site =
      rotated (rotate_session_identity store_answers req.app_id (identity m logged_in) site.session)
        site
  answer_device a m fingerprint logged_in available site =
      rotated (rotate_session_identity store_answers req.app_id (identity m logged_in) site.session)
        site
  answer_device a m fingerprint logged_in limited site =
      rotated (rotate_session_identity store_answers req.app_id (identity m logged_in) site.session)
        site
  answer_device a m fingerprint logged_in unsupported site =
      rotated (rotate_session_identity store_answers req.app_id (identity m logged_in) site.session)
        site

  abbrev pub answer_login :
      AppCache → List PublicMember → LoginResult → Site Store → Reply × Site Store
  answer_login a logged_in no_member site = (code "E_NO_MEMBER", site)
  answer_login a logged_in password site = (code "E_PASSWORD", site)
  answer_login a logged_in reset_password site = (code "I_RESET_PASSWORD", site)
  answer_login a logged_in too_many_attempts site = (too_many, site)
  answer_login a logged_in no_app_host site = (code "Error", site)
  answer_login a logged_in failed site = (code "Error", site)
  answer_login a logged_in (success m token) site =
      if m.is_business && not (has_module a "business_member")
      then (code "E_NO_MODULE", site)
      else (let fingerprint =
            choose_fingerprint from_user_agent req.body_fingerprint req.cookie_fingerprint in
          let (status, devices) = device_status a m fingerprint site.devices in
          answer_device a m fingerprint logged_in status (record site { devices = devices }))

  -- AuthController.generalLogin
  unfoldable pub post_general_login : Option AppCache → Site Store → Reply × Site Store
  post_general_login app_cache site = elim site.session [
    | none ↦ (code "E_SESSION", site)
    | some session ↦ elim app_cache [
      | none ↦ (app_mismatch, site)
      | some a ↦
          if not (is_own_app (some a) req.app_id)
          then (app_mismatch, site)
          else (let logged_in = account_of req.app_id session in
              let (result, state) =
                general_login r sha256_hex bcrypt_compare sign node_env a req.app_id req.account
                  req.password_text req.ip logged_in fresh.now fresh.token dir site.state in
              answer_login a logged_in result (record site { state = state }))
    ]
  ]
