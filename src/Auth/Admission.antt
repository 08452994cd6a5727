-- ===== src/Auth/Admission.antt =====
-- The sign-in endpoint, and the endpoint that signs older devices out: the session, and the challenge.
use mathlib.Core.Path.{subst}
use lodestar_server.Prelude.{
  String, ◌≡◌, ◌≢◌, refl, sym, Bool, true, ◌&&◌, not, Option, none, some, List, [], ◌∷◌, ◌==◌,
  Bool-cases, inl, inr,
}
use lodestar_server.Redis.{Redis}
use lodestar_server.Auth.Limits.{is_device_bind_locked}
use lodestar_server.Auth.Device.Service.{
  AppCache, has_module, LoginDeviceStatus, available, existed, limited, unsupported,
  bind_limit_exceed, login_limit_exceed,
}
use lodestar_server.Auth.Directory.{Member, Directory}
use lodestar_server.Auth.Payload.{PublicMember, Claim}
use lodestar_server.Auth.Login.{
  LoginResult, no_member, reset_password, password, success, too_many_attempts, no_app_host, failed,
  general_login,
}
use lodestar_server.Auth.Session.{Session, SessionStore, rotate_session_identity}
use lodestar_server.Auth.Endpoint.{
  Site, Reply, code, Request, Fresh, choose_fingerprint, identity, rotated, challenge_bind,
  device_status, answer_device, answer_login, account_of, is_own_app, post_general_login,
}

-- How an answer leaves the session that the request came with, after a sign-in that ended with `who`.
pub data Leaves (key : String) (before : Option Session) (who : LoginResult)
    : Reply → Option Session → Type 0 where
  kept :
      (reply : Reply)
      → reply ≢ code "SUCCESS"
      → reply ≢ code "E_SESSION"
      → Leaves key before who reply before
  dropped : Leaves key before who (code "E_SESSION") none
  rebuilt :
      (m : Member) (token : String) (members : List PublicMember)
      → who ≡ success m token
      → Leaves key before who
          (code "SUCCESS")
          (some ((key, record { current_member_id = m.id; members = members }) ∷ []))

module _ (r : Redis) (sha256_hex : String → String) (bcrypt_compare : String → String → Bool)
    (sign : Claim → String) (node_env : String) (from_user_agent : String → String)
    (dir : Directory) (store_answers : SessionStore) (req : Request) (fresh : Fresh) where
  open r use {Store}

  abbrev answering :
      AppCache
      → Member
      → Option String
      → List PublicMember
      → LoginDeviceStatus
      → Site Store
      → Reply × Site Store
  answering =
      answer_device r sha256_hex bcrypt_compare sign node_env from_user_agent dir store_answers req
        fresh

  abbrev rotating : Bool × Option Session → Site Store → Reply × Site Store
  rotating =
      rotated r sha256_hex bcrypt_compare sign node_env from_user_agent dir store_answers req fresh

  rotation-Leaves :
      (m : Member) (token : String) (logged_in : List PublicMember) (before : Option Session)
      (site : Site Store)
      → Leaves req.app_id before
          (success m token)
          (rotating
            (rotate_session_identity store_answers req.app_id
              (identity r sha256_hex bcrypt_compare sign node_env from_user_agent dir store_answers
                req fresh m logged_in)
              before)
            site).0
          (rotating
            (rotate_session_identity store_answers req.app_id
              (identity r sha256_hex bcrypt_compare sign node_env from_user_agent dir store_answers
                req fresh m logged_in)
              before)
            site).1.session
  unfolding rotate_session_identity
  rotation-Leaves m token logged_in before site = elim (Bool-cases store_answers.regenerates) [
    | inr fails ↦ rw fails dropped
    | inl works ↦ elim (Bool-cases store_answers.saves) [
      | inl saves ↦ rw (works, saves) (rebuilt m token _ refl)
      | inr fails ↦ rw (works, fails) dropped
    ]
  ]

  bind-session :
      (a : AppCache) (m : Member) (site : Site Store)
      → (challenge_bind r sha256_hex bcrypt_compare sign node_env from_user_agent dir store_answers
          req fresh a m site).session
        ≡ site.session
  bind-session a m site =
      elim (Bool-cases (
        not (m.email == "")
        && not (is_device_bind_locked r sha256_hex req.app_id m.id site.state.store))) [
          | inl t ↦ rw (challenge_bind, t) refl
          | inr f ↦ rw (challenge_bind, f) refl
        ]

  device-Leaves :
      (a : AppCache) (m : Member) (token : String) (fingerprint : Option String)
      (logged_in : List PublicMember) (status : LoginDeviceStatus) (site : Site Store)
      → Leaves req.app_id site.session
          (success m token)
          (answering a m fingerprint logged_in status site).0
          (answering a m fingerprint logged_in status site).1.session
  device-Leaves a m token fingerprint logged_in login_limit_exceed site = kept _ (λ e. cc) (λ e. cc)
  device-Leaves a m token fingerprint logged_in bind_limit_exceed site =
      subst (λ s. Leaves req.app_id site.session (success m token) (code "E_BIND_DEVICE") s)
        (sym (bind-session a m site)) (kept _ (λ e. cc) (λ e. cc))
  device-Leaves a m token fingerprint logged_in existed site =
      rotation-Leaves m token logged_in site.session site
  device-Leaves a m token fingerprint logged_in available site =
      rotation-Leaves m token logged_in site.session site
  device-Leaves a m token fingerprint logged_in limited site =
      rotation-Leaves m token logged_in site.session site
  device-Leaves a m token fingerprint logged_in unsupported site =
      rotation-Leaves m token logged_in site.session site

  abbrev ending : AppCache → List PublicMember → LoginResult → Site Store → Reply × Site Store
  ending =
      answer_login r sha256_hex bcrypt_compare sign node_env from_user_agent dir store_answers req
        fresh

  login-Leaves :
      (a : AppCache) (logged_in : List PublicMember) (result : LoginResult) (site : Site Store)
      → Leaves req.app_id site.session result
          (ending a logged_in result site).0
          (ending a logged_in result site).1.session
  login-Leaves a logged_in no_member site = kept _ (λ e. cc) (λ e. cc)
  login-Leaves a logged_in password site = kept _ (λ e. cc) (λ e. cc)
  login-Leaves a logged_in reset_password site = kept _ (λ e. cc) (λ e. cc)
  login-Leaves a logged_in too_many_attempts site = kept _ (λ e. cc) (λ e. cc)
  login-Leaves a logged_in no_app_host site = kept _ (λ e. cc) (λ e. cc)
  login-Leaves a logged_in failed site = kept _ (λ e. cc) (λ e. cc)
  login-Leaves a logged_in (success m token) site =
      elim (Bool-cases (m.is_business && not (has_module a "business_member"))) [
        | inl lacks ↦ rw lacks (kept _ (λ e. cc) (λ e. cc))
        | inr may ↦ rw may (
            let fingerprint =
              choose_fingerprint from_user_agent req.body_fingerprint req.cookie_fingerprint in
            let (status, devices) =
              device_status r sha256_hex bcrypt_compare sign node_env from_user_agent dir
                store_answers req fresh a m fingerprint site.devices in
            device-Leaves a m token fingerprint logged_in status
              (record site { devices = devices }))
      ]

  -- What AuthService.generalLogin answers to the endpoint's request.
  abbrev pub login_of : AppCache → Site Store → Session → LoginResult
  login_of a site session =
      (general_login r sha256_hex bcrypt_compare sign node_env a req.app_id req.account
        req.password_text req.ip (account_of req.app_id session) fresh.now fresh.token dir
        site.state).0

  abbrev pub posting : Option AppCache → Site Store → Reply × Site Store
  posting =
      post_general_login r sha256_hex bcrypt_compare sign node_env from_user_agent dir store_answers
        req fresh

  -- With a session, the sign-in endpoint of the request's own app answers with success only after a
  -- sign-in that succeeds, and then the session holds that member's scope of that app and nothing else; with
  -- E_SESSION, the answer where the session cannot be saved, no session is left, and with any other answer
  -- the session stays as it was.
  pub post_general_login-Leaves :
      (a : AppCache) (site : Site Store) (session : Session)
      → is_own_app (some a) req.app_id ≡ true
      → Leaves req.app_id
          (some session)
          (login_of a site session)
          (posting (some a) (record site { session = some session })).0
          (posting (some a) (record site { session = some session })).1.session
  unfolding post_general_login
  post_general_login-Leaves a site session own =
      let logged_in = account_of req.app_id session in
      let (result, state) =
        general_login r sha256_hex bcrypt_compare sign node_env a req.app_id req.account
          req.password_text req.ip logged_in fresh.now fresh.token dir site.state in
      let after : Site Store = record site { state = state; session = some session } in
      let same : posting (some a) (record site { session = some session })
          ≡ ending a logged_in result after =
        rw (post_general_login, own) refl in
      subst (λ x. Leaves req.app_id (some session) result x.0 x.1.session) (sym same)
        (login-Leaves a logged_in result after)
