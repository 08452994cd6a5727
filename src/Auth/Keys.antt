-- ===== src/Auth/Keys.antt =====
-- src/auth/auth-limits.ts, first half: the limits, and the names of the Redis keys that hold counters,
-- cooldowns and challenges. `sha256_hex` is the hash of the crypto library, a parameter. A template
-- literal is the texts joined from the right.
pub mod Distinct
use Prim.Native.String.{◌++◌, count}
use lodestar_server.Prelude.{ℕ, String, Bool, ◌&&◌, eqb, Option, none, some, false, ◌==◌}
use lodestar_server.Prelude.Ascii.{trim, to_lower_case}

-- LIMITS: the seconds that an entry of each kind lives, and the most that its counter may reach.
abbrev pub device_login_limit_ttl : ℕ
device_login_limit_ttl = 600

abbrev pub device_bind_ttl : ℕ
device_bind_ttl = 1800

abbrev pub device_bind_fail_ttl : ℕ
device_bind_fail_ttl = 3600

abbrev pub device_bind_fail_cap : ℕ
device_bind_fail_cap = 10

abbrev pub device_bind_send_cooldown_ttl : ℕ
device_bind_send_cooldown_ttl = 60

abbrev pub device_bind_send_count_ttl : ℕ
device_bind_send_count_ttl = 3600

abbrev pub device_bind_send_count_cap : ℕ
device_bind_send_count_cap = 5

abbrev pub login_fail_account_ip_ttl : ℕ
login_fail_account_ip_ttl = 900

abbrev pub login_fail_account_ip_cap : ℕ
login_fail_account_ip_cap = 10

abbrev pub login_fail_account_ttl : ℕ
login_fail_account_ttl = 900

abbrev pub login_fail_account_cap : ℕ
login_fail_account_cap = 50

abbrev pub login_fail_ip_ttl : ℕ
login_fail_ip_ttl = 900

abbrev pub login_fail_ip_cap : ℕ
login_fail_ip_cap = 200

abbrev pub issue_cooldown_ttl : ℕ
issue_cooldown_ttl = 60

abbrev pub issue_count_ttl : ℕ
issue_count_ttl = 3600

abbrev pub issue_count_cap : ℕ
issue_count_cap = 5

pub data LoginScope : Type 0 where
  app org : LoginScope

abbrev pub scope_text : LoginScope → String
scope_text app = "app"
scope_text org = "org"

pub data IssueKind : Type 0 where
  reset_password_app reset_password_org verify_email : IssueKind

abbrev pub kind_text : IssueKind → String
kind_text reset_password_app = "reset-password:app"
kind_text reset_password_org = "reset-password:org"
kind_text verify_email = "verify-email"

module _ (sha256_hex : String → String) where
  -- norm(x): the hash of the trimmed text in lower case.
  unfoldable pub normalize_identifier : String → String
  unfolding trim to_lower_case
  normalize_identifier value = sha256_hex (to_lower_case (trim value))

  unfoldable pub fingerprint_hash : String → String
  fingerprint_hash finger_print_id = sha256_hex finger_print_id

  -- Both are texts, their hashes agree, and their lengths do.
  unfoldable pub safe_equal : Option String → Option String → Bool
  safe_equal (some a) (some b) = sha256_hex a == sha256_hex b && eqb (count a) (count b)
  safe_equal _ _ = false

  -- authKeys
  unfoldable pub device_login_limit : String → String → String
  device_login_limit app_id member_id = "auth:device-login-limit:" ++ app_id ++ ":" ++ member_id

  unfoldable pub device_bind : String → String → String
  device_bind app_id email = "auth:device-bind:" ++ app_id ++ ":" ++ normalize_identifier email

  unfoldable pub device_bind_fail : String → String → String
  device_bind_fail app_id member_id = "auth:device-bind-fail:" ++ app_id ++ ":" ++ member_id

  unfoldable pub device_bind_send_cooldown : String → String → String
  device_bind_send_cooldown app_id member_id =
      "auth:device-bind-send-cooldown:" ++ app_id ++ ":" ++ member_id

  unfoldable pub device_bind_send_count : String → String → String
  device_bind_send_count app_id member_id =
      "auth:device-bind-send-count:" ++ app_id ++ ":" ++ member_id

  unfoldable pub login_fail_account_ip : LoginScope → String → String → String → String
  login_fail_account_ip scope id account ip =
      "auth:login-fail:"
      ++ scope_text scope
      ++ ":"
      ++ id
      ++ ":"
      ++ normalize_identifier account
      ++ ":"
      ++ ip

  unfoldable pub login_fail_account : LoginScope → String → String → String
  login_fail_account scope id account =
      "auth:login-fail:" ++ scope_text scope ++ ":" ++ id ++ ":" ++ normalize_identifier account

  unfoldable pub login_fail_ip : String → String
  login_fail_ip ip = "auth:login-fail:ip:" ++ ip

  unfoldable pub issue_cooldown : IssueKind → String → String
  issue_cooldown kind member_id = "auth:issue-cooldown:" ++ kind_text kind ++ ":" ++ member_id

  unfoldable pub issue_count : IssueKind → String → String
  issue_count kind member_id = "auth:issue-count:" ++ kind_text kind ++ ":" ++ member_id
