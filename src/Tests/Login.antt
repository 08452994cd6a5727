-- ===== src/Tests/Login.antt =====
-- Signing in, refreshing and the temporary password on a sample directory.
use lodestar_server.Prelude.{String, ◌≡◌, ◌↔◌, refl, Bool, true, false, none, some, [], ◌∷◌, ◌==◌}
use lodestar_server.Prelude.Ascii.{trim, to_lower_case}
use lodestar_server.Auth.Keys.{
  LoginScope, login_fail_account, login_fail_account_ip, safe_equal, login_fail_ip,
  normalize_identifier,
}
use lodestar_server.Auth.Limits.{register_login_attempt, incr_key}
use lodestar_server.Auth.Directory.{
  Member, LoginMemberMetadata, Directory, get_by_id, get_general_login_member,
  get_sign_up_property_ids,
}
use lodestar_server.Auth.Payload.{
  Claim, JwtDto, build_jwt_payload, payload_of, check_undone_sign_up_property,
  check_undone-eq-false, add_default_permissions,
}
use lodestar_server.Auth.Login.{LoginResult, State, LoginResult, tmp_password_key, general_login}
use lodestar_server.Auth.TmpPassword.{
  TmpResult, generate_tmp_password, generated, get_app_member_with_permission,
  find_tmp_password_target,
}
use lodestar_server.Access.{Claims}
use lodestar_server.Auth.TmpEndpoint.{TmpRequest}
use lodestar_server.Auth.Temporary.{tmp_password-signs_in}
use lodestar_server.Auth.SignIn.{login, is_success, IsPassword, general_login_success_iff}
use lodestar_server.Auth.Outcomes.{is_refusal, general_login_refused}
use lodestar_server.Tests.Server.{server, blank}
use lodestar_server.Tests.Limits.{constant_hash}
use lodestar_server.Tests.Devices.{app}

abbrev pub alice : Member
alice = record {
  id = "m";
  app_id = "app";
  email = "a@x";
  username = "alice";
  name = "Alice";
  role = "general-member";
  passhash = some "secret";
  is_business = false;
}

abbrev admin : Member
admin = record {
  id = "n";
  app_id = "app";
  email = "n@x";
  username = "admin";
  name = "Admin";
  role = "app-owner";
  passhash = none;
  is_business = false;
}

abbrev facts : LoginMemberMetadata
facts = record { phones = []; oauths = ""; permissions = "P" ∷ [] }

abbrev pub directory : Directory
directory = record {
  members = alice ∷ admin ∷ [];
  metadata = λ id. facts ∷ [];
  member_properties = record { id = "row"; member_id = "m"; property_id = "p"; value = "yes" } ∷ [];
  signup_properties = record { app_id = "app"; property_id = "p"; is_required = true } ∷ [];
  app_hosts = [];
  member_permissions = ("n", "APP_TMP_PASSWORD_ADMIN") ∷ [];
}

abbrev pub same : String → String → Bool
same s t = s == t

abbrev pub sign : Claim → String
sign c = c.user_id

abbrev pub start : State server.Store
start = record { store = blank; mails = []; audit = [] }

no_repetition : add_default_permissions ("P" ∷ "Q" ∷ []) ("P" ∷ []) ≡ "P" ∷ "Q" ∷ []
unfolding add_default_permissions
no_repetition = refl

check_undone-eq-false_example : check_undone_sign_up_property "app" "m" directory ≡ false
unfolding get_sign_up_property_ids
check_undone-eq-false_example = check_undone-eq-false "app" "m" directory (refl, tt) (λ e. cc)

general_login_success_iff_example :
    (is_success
        (general_login server constant_hash same sign "production" app "app" "alice" "secret" none
          [] "now" "t" directory start).0
      ≡ true)
    ↔ (((register_login_attempt server constant_hash LoginScope.app "app" "alice" "unknown" blank).0
          ≡ true)
        × ((m : Member) × (get_general_login_member "app" "alice" directory ≡ some m)
            × IsPassword server constant_hash same sign "production" app "app" "alice" "secret" none
                [] "now" "t" directory
                (register_login_attempt server constant_hash LoginScope.app "app" "alice" "unknown"
                  blank).1
                m
            × ((p : JwtDto) × (build_jwt_payload none m [] directory ≡ some p))))
general_login_success_iff_example =
    general_login_success_iff server constant_hash same sign "production" app "app" "alice" "secret"
      none [] "now" "t" directory start

abbrev tries : String → State server.Store → LoginResult × State server.Store
tries password_text w =
    login server constant_hash same sign "production" app "app" "alice" password_text none [] "now"
      "t" directory w

refuses :
    is_refusal server constant_hash same sign "production" app "app" "alice" "guess" none [] "now"
      "t" directory
      (tries "guess" start).0
    ≡ true
unfolding general_login get_general_login_member register_login_attempt incr_key login_fail_account
    login_fail_account_ip login_fail_ip tmp_password_key normalize_identifier safe_equal
refuses = refl

general_login_refused_example : (tries "guess" start).1 ≡ record start {
  store =
      (register_login_attempt server constant_hash LoginScope.app "app" "alice" "unknown" blank).1;
}
general_login_refused_example =
    general_login_refused server constant_hash same sign "production" app "app" "alice" "guess" none
      [] "now" "t" directory start refuses

signs_in : is_success (tries "secret" start).0 ≡ true
unfolding general_login get_general_login_member register_login_attempt incr_key login_fail_account
    login_fail_account_ip login_fail_ip tmp_password_key normalize_identifier safe_equal
    build_jwt_payload
signs_in = refl

abbrev generates : TmpResult × State server.Store
generates = generate_tmp_password server "app" "n" (some " A@x ") "support" "tmp" directory start

done : generates.0 ≡ generated "tmp"
unfolding generate_tmp_password get_app_member_with_permission find_tmp_password_target trim
    to_lower_case
done = refl

aimed : find_tmp_password_target "app" (some " A@x ") directory ≡ some alice
unfolding find_tmp_password_target trim to_lower_case
aimed = refl

within :
    (register_login_attempt server constant_hash LoginScope.app "app" "a@x" "unknown"
      generates.1.store).0
    ≡ true
unfolding generate_tmp_password get_app_member_with_permission find_tmp_password_target trim
    to_lower_case register_login_attempt incr_key login_fail_account login_fail_account_ip
    login_fail_ip tmp_password_key normalize_identifier
within = refl

found : get_general_login_member "app" "a@x" directory ≡ some alice
unfolding get_general_login_member
found = refl

built : build_jwt_payload none alice [] directory ≡ some (payload_of none alice [] facts)
unfolding build_jwt_payload
built = refl

tmp_password-signs_in_example :
    is_success
      (general_login server constant_hash same sign "production" app "app" "a@x" "tmp" none [] "now"
        "t" directory generates.1).0
    ≡ true
tmp_password-signs_in_example =
    tmp_password-signs_in server constant_hash same sign "production" app "app" "n" (some " A@x ")
      "support" "tmp" alice alice none [] "now" "t" directory start (payload_of none alice [] facts)
      done aimed within found built

by_id : get_by_id "app" "m" directory ≡ some alice
unfolding get_by_id
by_id = refl

abbrev holder : Claims
holder = record { sub = "n"; app_id = "app"; permissions = "APP_TMP_PASSWORD_ADMIN" ∷ [] }

abbrev asks : TmpRequest
asks = record { app_id = none; applicant = some "n"; email = some " A@x "; purpose = "support" }
