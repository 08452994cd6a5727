-- ===== src/MailCode.antt =====
-- src/mailVerificationCode: the table of verification codes, its queries (mailVerificationCode.infra.ts),
-- and what the service keeps. `now` is the clock in milliseconds, of the database and of the process.
pub mod Service
pub mod Codes
pub mod Send
pub mod Compare
pub mod Verify
pub mod Lock
pub mod Attempts
pub mod Controller
use Prim.Native.String.{◌++◌}
use lodestar_server.Prelude.{
  ℕ, ◌+◌, String, Bool, true, false, ◌&&◌, ◌||◌, Option, List, [], ◌∷◌, map, ◌==◌, ltb,
  if◌then◌else◌, select, any,
}
use lodestar_server.Auth.Device.{Table}

pub record VerificationCode : Type 0 where
  pub id : String
  pub app_id : String
  pub email : String
  pub type : String
  pub code : String
  pub expired_at : ℕ

abbrev pub Codes : Type 0
Codes = List VerificationCode

abbrev pub subject_of : String → String
subject_of app_name = "[" ++ app_name ++ "] 新裝置登入通知"

-- The row of the mail queue that putEmailQueue writes.
pub record MailJob : Type 0 where
  pub app_id : String
  pub catalog : String
  pub target_member_ids : List String
  pub browser : String
  pub ip : Option String
  pub code : String
  pub app_name : String
  pub subject : String

-- The three tables that the service writes, and the Redis store.
pub record World (S : Type 0) : Type 0 where
  pub codes : Codes
  pub devices : Table
  pub mails : List MailJob
  pub store : S

module _ (app_id email type : String) where
  -- The condition that every query shares.
  abbrev pub concerns : VerificationCode → Bool
  concerns c = c.app_id == app_id && c.email == email && c.type == type

  unfoldable pub get_all_codes_by_email : Codes → Codes
  get_all_codes_by_email codes = select concerns codes

  abbrev pub is_unexpired : ℕ → VerificationCode → Bool
  is_unexpired now c = concerns c && ltb now c.expired_at

  unfoldable pub get_unexpired_codes_by_email : ℕ → Codes → Codes
  get_unexpired_codes_by_email now codes = select (is_unexpired now) codes

  unfoldable pub insert_verification_code : String → String → ℕ → ℕ → Codes → Codes
  insert_verification_code new_id code expiration_time_ms now codes =
      record {
        id = new_id;
        app_id = app_id;
        email = email;
        type = type;
        code = code;
        expired_at = now + expiration_time_ms;
      }
      ∷ codes

  -- `ids.length > 0` adds the condition on the ids; without ids every row concerned is updated.
  abbrev pub updates : List String → VerificationCode → Bool
  updates [] c = concerns c
  updates (i ∷ ids) c = concerns c && any (λ j. j == c.id) (i ∷ ids)

  abbrev pub expired_now : List String → ℕ → VerificationCode → VerificationCode
  expired_now ids now c = if updates ids c then record c { expired_at = now } else c

  unfoldable pub update_codes_to_now : List String → ℕ → Codes → Codes
  update_codes_to_now ids now codes = map (expired_now ids now) codes
