-- ===== src/Auth/RefreshEndpoint.antt =====
-- The endpoint refresh-token: AuthController.refreshToken of src/auth/auth.controller.ts. Without a session
-- the handler throws, as it reads the session's account first.
use lodestar_server.Prelude.{String, Bool, Option, none, some, List, [], ◌==◌, find_first}
use lodestar_server.Redis.{Redis}
use lodestar_server.Auth.Device.{Table}
use lodestar_server.Auth.Device.Service.{AppCache}
use lodestar_server.Auth.Directory.{Directory}
use lodestar_server.Auth.Payload.{PublicMember, Claim}
use lodestar_server.Auth.Login.{
  State, RefreshResult, refresh_no_member, session_destroy, refreshed, refresh_failed,
}
use lodestar_server.Auth.Refresh.{refresh_token}
use lodestar_server.Auth.Session.{Account, Session}
use lodestar_server.Auth.Endpoint.{choose_fingerprint}

-- RefreshTokenDTO with the cookie.
pub record RefreshRequest : Type 0 where
  pub app_id : String
  pub body_fingerprint : Option String
  pub cookie_fingerprint : Option String

-- The code of an answer with its token, or the error that leaves the handler.
pub data RefreshReply : Type 0 where
  answer : String → RefreshReply
  renewed : String → RefreshReply
  type_error : RefreshReply
  error_name : RefreshReply

abbrev account_at : String → Session → Option Account
account_at app_id session = elim (find_first (λ p. p.0 == app_id) session) [
  | none ↦ none
  | some p ↦ some p.1
]

abbrev current_member : Option Account → Option String
current_member none = none
current_member (some a) = some a.current_member_id

abbrev members_of_account : Option Account → List PublicMember
members_of_account none = []
members_of_account (some a) = a.members

-- The switch on the status: a destroyed session falls through to the answer of an unknown device.
abbrev answer_refresh : RefreshResult → Session → RefreshReply × Option Session
answer_refresh refresh_no_member session = (answer "E_NO_MEMBER", some session)
answer_refresh session_destroy session = (answer "E_NO_DEVICE", none)
answer_refresh (refreshed token) session = (renewed token, some session)
answer_refresh refresh_failed session = (error_name, some session)

module _ (r : Redis) (sha256_hex : String → String) (bcrypt_compare : String → String → Bool)
    (sign : Claim → String) (node_env : String) (from_user_agent : String → String) where
  open r use {Store}

  -- The answer with the session that is left, and the state.
  unfoldable pub post_refresh_token :
      AppCache
      → RefreshRequest
      → Option Session
      → String
      → Directory
      → Table
      → State Store
      → (RefreshReply × Option Session) × State Store
  unfolding refresh_token
  post_refresh_token a request none now dir devices w = ((type_error, none), w)
  post_refresh_token a request (some session) now dir devices w =
      let account = account_at request.app_id session in
      let result =
        refresh_token r sha256_hex bcrypt_compare sign node_env a
          (choose_fingerprint from_user_agent request.body_fingerprint request.cookie_fingerprint)
          (current_member account) (members_of_account account) now dir devices w in
      (answer_refresh result.0 session, result.1)
