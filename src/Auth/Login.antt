-- ===== src/Auth/Login.antt =====
-- AuthService of src/auth/auth.service.ts: signing in and the reset mail. Parameters: bcrypt, and the
-- signature of a claim. The clock's text and the random token are arguments.
use Prim.Native.String.{◌++◌}
use lodestar_server.Prelude.{
  String, Bool, ◌&&◌, not, Option, none, some, List, [], ◌∷◌, ◌==◌, if◌then◌else◌,
}
use lodestar_server.Redis.{Redis, Entry, Value, text}
use lodestar_server.Auth.Keys.{app, reset_password_app, safe_equal}
use lodestar_server.Auth.Limits.{
  register_login_attempt, clear_login_attempts, allow_token_issue, filled,
}
use lodestar_server.Auth.Device.Service.{AppCache}
use lodestar_server.Auth.Directory.{
  Member, Directory, get_general_login_member, get_first_matched_app_host,
}
use lodestar_server.Auth.Payload.{PublicMember, Claim, build_jwt_payload, claim_of}
use lodestar_server.Auth.Token.{issue_reset_password_app_token}

-- The job that sendResetPasswordEmail puts into the mail queue.
pub record ResetMail : Type 0 where
  pub app_id : String
  pub target_member_ids : List String
  pub app_title : String
  pub url : String
  pub subject : String

-- The row that insertAuthAuditLog writes; its action is `apply_temporary_password`.
pub record AuditLog : Type 0 where
  pub member_id : String
  pub target : String
  pub reason : String
  pub app_id : String

pub record State (S : Type 0) : Type 0 where
  pub store : S
  pub mails : List ResetMail
  pub audit : List AuditLog

-- LoginStatus, and the exceptions.
pub data LoginResult : Type 0 where
  no_member : LoginResult
  reset_password : LoginResult
  password : LoginResult
  success : Member → String → LoginResult
  too_many_attempts : LoginResult
  no_app_host : LoginResult
  failed : LoginResult

pub data RefreshResult : Type 0 where
  refresh_no_member : RefreshResult
  session_destroy : RefreshResult
  refreshed : String → RefreshResult
  refresh_failed : RefreshResult

-- `host` is falsy where it is empty.
abbrev pub filled_host : Option String → Option String
filled_host none = none
filled_host (some h) = if h == "" then none else some h

-- AuthService.resolveAppLinkHost; none where it throws E_NO_APP_HOST.
unfoldable pub resolve_app_link_host : AppCache → String → Directory → Option String
resolve_app_link_host a target_app_id dir =
    if a.id == target_app_id && not (a.host == "")
    then some a.host
    else filled_host (get_first_matched_app_host target_app_id dir)

unfoldable pub tmp_password_key : String → String → String
tmp_password_key app_id account = "tmpPass:" ++ (app_id ++ (":" ++ account))

-- The reply to GET where the key holds a text.
abbrev pub text_in : Value → Option String
text_in (text t) = some t
text_in _ = none

abbrev pub text_of : Option Entry → Option String
text_of none = none
text_of (some e) = text_in e.value

abbrev pub or_unknown : Option String → String
or_unknown none = "unknown"
or_unknown (some ip) = if ip == "" then "unknown" else ip

module _ (r : Redis) (sha256_hex : String → String) (bcrypt_compare : String → String → Bool)
    (sign : Claim → String) (node_env : String) where
  open r use {Store, find, set}

  abbrev test_mark : String
  test_mark = if node_env == "production" then "" else "(測試)"

  -- AuthService.insertLastLoginJobIntoQueue
  unfoldable pub insert_last_login_job_into_queue : String → String → Store → Store
  insert_last_login_job_into_queue member_id now s =
      set ("last-logged-in:" ++ member_id) (text now) 604800 s

  abbrev pub reset_mail : AppCache → Member → String → String → ResetMail
  reset_mail a m host token = record {
    app_id = a.id;
    target_member_ids = m.email ∷ [];
    app_title = a.name;
    url = "https://" ++ (host ++ ("/reset-password?token=" ++ (token ++ ("&member=" ++ m.id))));
    subject = "[" ++ (a.name ++ ("] 重設您的密碼 " ++ test_mark));
  }

  -- AuthService.sendResetPasswordEmail; none where the link has no host.
  unfoldable pub send_reset_password_email :
      AppCache → Member → String → Directory → State Store → Option (State Store)
  unfolding resolve_app_link_host
  send_reset_password_email a m token dir w = elim (resolve_app_link_host a m.app_id dir) [
    | none ↦ none
    | some host ↦
        (let (allowed, s) = allow_token_issue r sha256_hex reset_password_app m.id w.store in
          if allowed
          then some (record w {
            store = issue_reset_password_app_token r sha256_hex m.id m.app_id token s;
            mails = reset_mail a m host token ∷ w.mails;
          })
          else some (record w { store = s }))
  ]

  -- The end of a sign-in that is accepted.
  abbrev pub sign_in :
      AppCache
      → String
      → String
      → String
      → Member
      → List PublicMember
      → Directory
      → State Store
      → LoginResult × State Store
  sign_in a app_id account ip m logged_in dir w =
      let w' = record w {
        store = clear_login_attempts r sha256_hex app app_id account ip w.store;
      } in
      elim (build_jwt_payload a.org_id m logged_in dir) [
        | none ↦ (failed, w')
        | some payload ↦ (success m (sign (claim_of a payload dir)), w')
      ]

  abbrev pub reset_result : Option (State Store) → State Store → LoginResult × State Store
  reset_result none w = (no_app_host, w)
  reset_result (some w') w = (reset_password, w')

  -- AuthService.generalLogin after the attempt was counted and the member found.
  abbrev pub check_password :
      AppCache
      → String
      → String
      → String
      → String
      → Member
      → List PublicMember
      → String
      → String
      → Directory
      → State Store
      → LoginResult × State Store
  check_password a app_id account password_text ip m logged_in now token dir w =
      if safe_equal sha256_hex (text_of (find (tmp_password_key app_id account) w.store))
        (some password_text)
      then sign_in a app_id account ip m logged_in dir w
      else elim (filled m.passhash) [
        | none ↦ reset_result (send_reset_password_email a m token dir w) w
        | some passhash ↦
            if not (bcrypt_compare password_text passhash)
            then (password, w)
            else sign_in a app_id account ip m logged_in dir
                (record w { store = insert_last_login_job_into_queue m.id now w.store })
      ]

  unfoldable pub general_login :
      AppCache
      → String
      → String
      → String
      → Option String
      → List PublicMember
      → String
      → String
      → Directory
      → State Store
      → LoginResult × State Store
  unfolding insert_last_login_job_into_queue tmp_password_key send_reset_password_email
  general_login a app_id account password_text given_ip logged_in now token dir w =
      let ip = or_unknown given_ip in
      let (allowed, s) = register_login_attempt r sha256_hex app app_id account ip w.store in
      if not allowed
      then (too_many_attempts, record w { store = s })
      else elim (get_general_login_member app_id account dir) [
        | none ↦ (no_member, record w { store = s })
        | some m ↦
            check_password a app_id account password_text ip m logged_in now token dir
              (record w { store = s })
      ]
