-- ===== src/Auth/Temporary.antt =====
-- The temporary password of src/auth/auth.service.ts, from generateTmpPassword to generalLogin.
use mathlib.Core.Path.{subst}
use lodestar_server.Prelude.{
  String, ◌≡◌, refl, ap, ◌∙◌, Bool, true, Option, some, List, inl, arith, eq_refl,
  append-ne_of_apart,
}
use lodestar_server.Redis.{Redis, text, entry}
use lodestar_server.Auth.Keys.{
  app, safe_equal, login_fail_account, login_fail_account_ip, login_fail_ip,
}
use lodestar_server.Auth.Keys.Distinct.{==-eq-false_of_ne}
use lodestar_server.Auth.Limits.{register_login_attempt}
use lodestar_server.Auth.Limits.Three.{find-three_ne}
use lodestar_server.Auth.Device.Service.{AppCache}
use lodestar_server.Auth.Directory.{Member, Directory, get_general_login_member}
use lodestar_server.Auth.Payload.{PublicMember, Claim, JwtDto, build_jwt_payload}
use lodestar_server.Auth.Login.{State, tmp_password_key, text_of, or_unknown, general_login}
use lodestar_server.Auth.TmpPassword.{
  generate_tmp_password, generated, generated-requires, find_tmp_password_target,
}
use lodestar_server.Auth.SignIn.{is_success, general_login_success_iff}

module _ (r : Redis) (sha256_hex : String → String) (bcrypt_compare : String → String → Bool)
    (sign : Claim → String) (node_env : String) where
  open r use {Store, find, find-del}

  safe_equal_self : (s : String) → safe_equal sha256_hex (some s) (some s) ≡ true
  unfolding safe_equal
  safe_equal_self s = rw (eq_refl (sha256_hex s)) (ground arith)

  find-tmp-registered :
      (app_id account account' ip : String) (s : Store)
      → find
          (tmp_password_key app_id account)
          (register_login_attempt r sha256_hex app app_id account' ip s).1
        ≡ find (tmp_password_key app_id account) s
  unfolding register_login_attempt tmp_password_key login_fail_account_ip login_fail_account
      login_fail_ip
  find-tmp-registered app_id account account' ip s =
      find-three_ne r _ _ _ _ _ _ _ s
        (==-eq-false_of_ne _ _ (append-ne_of_apart "auth:login-fail:" "tmpPass:" _ _ refl))
        (==-eq-false_of_ne _ _ (append-ne_of_apart "auth:login-fail:" "tmpPass:" _ _ refl))
        (==-eq-false_of_ne _ _ (append-ne_of_apart "auth:login-fail:ip:" "tmpPass:" _ _ refl))

  -- A temporary password that was generated signs the member of that address in, while the limits allow
  -- the attempt and the member's metadata is found.
  pub tmp_password-signs_in :
      (a : AppCache) (app_id applicant_id : String) (email : Option String) (purpose tmp : String)
      (target m : Member) (given_ip : Option String) (logged_in : List PublicMember)
      (now token : String) (dir : Directory) (w : State Store) (p : JwtDto)
      → (generate_tmp_password r app_id applicant_id email purpose tmp dir w).0 ≡ generated tmp
      → find_tmp_password_target app_id email dir ≡ some target
      → (register_login_attempt r sha256_hex app app_id target.email
          (or_unknown given_ip)
          (generate_tmp_password r app_id applicant_id email purpose tmp dir w).1.store).0
        ≡ true
      → get_general_login_member app_id target.email dir ≡ some m
      → build_jwt_payload a.org_id m logged_in dir ≡ some p
      → is_success
          (general_login r sha256_hex bcrypt_compare sign node_env a app_id target.email tmp
            given_ip logged_in now token dir
            (generate_tmp_password r app_id applicant_id email purpose tmp dir w).1).0
        ≡ true
  tmp_password-signs_in a app_id applicant_id email purpose tmp target m given_ip logged_in now
        token dir w p done aimed within found built =
      let (applicant, target', known, aimed', may, stored, audit) =
        generated-requires r app_id applicant_id email purpose tmp dir w done in
      let same : target' ≡ target = cc in
      let after = (generate_tmp_password r app_id applicant_id email purpose tmp dir w).1 in
      let kept =
        find-tmp-registered app_id target.email target.email (or_unknown given_ip) after.store in
      let held : find (tmp_password_key app_id target.email) after.store
          ≡ entry (text tmp) (some 259200) =
        subst
          (λ x. find (tmp_password_key app_id x.email) after.store ≡ entry (text tmp) (some 259200))
          same stored in
      (general_login_success_iff r sha256_hex bcrypt_compare sign node_env a app_id target.email tmp
          given_ip logged_in now token dir after).1
        (
          within,
          (
            m,
            found,
            inl (
                ap (λ e. safe_equal sha256_hex (text_of e) (some tmp)) (kept ∙ held)
                ∙ safe_equal_self tmp),
            (p, built),
          ),
        )
