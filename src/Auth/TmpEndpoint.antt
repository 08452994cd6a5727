-- ===== src/Auth/TmpEndpoint.antt =====
-- AuthController.generateTmpPassword of src/auth/auth.controller.ts, behind its two guards.
use lodestar_server.Prelude.{
  String, Bool, false, ◌||◌, not, Option, none, some, ◌==◌, if◌then◌else◌,
}
use lodestar_server.Redis.{Redis}
use lodestar_server.Access.{Claims}
use lodestar_server.Auth.Device.Service.{AppCache}
use lodestar_server.Auth.Directory.{Directory}
use lodestar_server.Auth.Login.{State}
use lodestar_server.Auth.TmpPassword.{
  TmpResult, forbidden, no_member, generated, generate_tmp_password,
}
use lodestar_server.Auth.Endpoint.{is_own_app}

-- The exceptions of status 403, and the answers.
pub data TmpReply : Type 0 where
  forbidden_body : TmpReply
  app_mismatch : TmpReply
  e_tmp_password : TmpReply
  password_given : String → TmpReply

-- The body, each member of which may be missing.
pub record TmpRequest : Type 0 where
  pub app_id : Option String
  pub applicant : Option String
  pub email : Option String
  pub purpose : String

-- `value !== undefined && value !== expected`
abbrev pub differs : Option String → String → Bool
differs none expected = false
differs (some s) expected = not (s == expected)

module _ (r : Redis) where
  open r use {Store}

  abbrev pub reply_of : TmpResult × State Store → TmpReply × State Store
  reply_of (forbidden, w) = (forbidden_body, w)
  reply_of (no_member, w) = (e_tmp_password, w)
  reply_of (generated password, w) = (password_given password, w)

  unfoldable pub post_tmp_password :
      Option AppCache
      → Option Claims
      → TmpRequest
      → String
      → Directory
      → State Store
      → TmpReply × State Store
  post_tmp_password app_cache none req password dir w = (forbidden_body, w)
  post_tmp_password app_cache (some member) req password dir w =
      if member.app_id == "" || member.sub == ""
      then (forbidden_body, w)
      else if not (is_own_app app_cache member.app_id)
      then (app_mismatch, w)
      else if differs req.app_id member.app_id
      then (app_mismatch, w)
      else if differs req.applicant member.sub
      then (forbidden_body, w)
      else reply_of
          (generate_tmp_password r member.app_id member.sub req.email req.purpose password dir w)
