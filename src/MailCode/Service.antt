-- ===== src/MailCode/Service.antt =====
-- src/mailVerificationCode/mailVerificationCode.service.ts. The codes drawn at random, the browser read
-- from the user agent and the new row's id are arguments. A query that fails is not modelled; what the
-- code itself throws (no device to remove, no app) is.
use lodestar_server.Prelude.{
  ℕ, ◌-◌, String, Bool, true, false, ◌&&◌, not, Option, none, some, List, [], ◌∷◌, map, ◌==◌, ltb,
  leb, eqb, length, if◌then◌else◌, any, find_first,
}
use lodestar_server.Redis.{Redis}
use lodestar_server.Auth.Keys
use lodestar_server.Auth.Limits.{
  filled, head_or_zero, increment_with_ttl, decrement_if_exists, is_device_bind_locked,
  read_device_bind_challenge, clear_device_bind_challenge, allow_device_bind_send,
}
use lodestar_server.Auth.Device.{MemberDevice, get_member_devices, delete_member_device_by_id}
use lodestar_server.Auth.Device.Service.{AppCache}
use lodestar_server.MailCode.{
  VerificationCode, Codes, World, subject_of, get_unexpired_codes_by_email,
  insert_verification_code, update_codes_to_now,
}

-- EventType.BIND_DEVICE_LIMIT
abbrev pub bind_device_limit : String
bind_device_limit = "bind-device-limit"

-- `1000 * 60 * 30`
abbrev pub expiration_ms : ℕ
expiration_ms = 1800000

abbrev pub has_code : String → VerificationCode → Bool
has_code code c = c.code == code

-- `new Date(undefined)` is no date, and no comparison with it holds.
abbrev pub expires_within : ℕ → ℕ → Option VerificationCode → Bool
expires_within expiration_time_ms now none = false
expires_within expiration_time_ms now (some c) = ltb (c.expired_at - now) expiration_time_ms

-- MailVerificationCodeService.checkMailVerificationCodeExpired
unfoldable pub check_code_expired : String → String → String → String → ℕ → ℕ → Codes → Bool
check_code_expired app_id email type code expiration_time_ms now codes =
    let result = get_unexpired_codes_by_email app_id email type now codes in
    if eqb (length result) 0
    then false
    else expires_within expiration_time_ms now (find_first (has_code code) result)

-- The reducer of `memberDevices.reduce`, and the fold.
abbrev pub older : MemberDevice → MemberDevice → MemberDevice
older prev curr = if ltb curr.created_at prev.created_at then curr else prev

abbrev pub fold_older : MemberDevice → List MemberDevice → MemberDevice
fold_older prev [] = prev
fold_older prev (d ∷ ds) = fold_older (older prev d) ds

-- The device created first; the query's order by creation keeps the same one. None where there is no
-- device: the field of undefined throws.
unfoldable pub oldest_member_device : List MemberDevice → Option MemberDevice
oldest_member_device [] = none
oldest_member_device (d ∷ ds) = some (fold_older d (d ∷ ds))

abbrev pub ids_of : Codes → List String
ids_of = map (λ c. c.id)

-- MailVerificationCodeService.expireOldVerificationCodesByEmail, on the table of codes.
unfoldable pub expire_old_codes : String → String → String → ℕ → Codes → Codes
expire_old_codes app_id email type now codes =
    update_codes_to_now app_id email type
      (ids_of (get_unexpired_codes_by_email app_id email type now codes)) now codes

-- The loop that draws until the code is none of those; `draws` is what the generator gives, and none
-- is left where each of them is taken.
unfoldable pub fresh_code : Codes → List String → Option String
fresh_code taken [] = none
fresh_code taken (code ∷ draws) =
    let rest = fresh_code taken draws in if any (has_code code) taken then rest else some code

module _ {S : Type 0} where
  -- MailVerificationCodeService.verifyMailVerificationCode; what it catches it answers with undefined.
  unfoldable pub verify_code :
      String → String → String → String → String → ℕ → World S → Bool × World S
  unfolding check_code_expired oldest_member_device expire_old_codes
  verify_code app_id email member_id type code now w =
      if check_code_expired app_id email type code expiration_ms now w.codes
      then elim (oldest_member_device (get_member_devices member_id w.devices)) [
        | none ↦ (false, w)
        | some oldest ↦ (
          true,
          record w {
            devices = delete_member_device_by_id oldest.id w.devices;
            codes = expire_old_codes app_id email type now w.codes;
          },
        )
      ]
      else (false, w)

  -- The mail for a code; getAppInfo throws where there is no app, after the code was stored.
  abbrev pub put_email_queue :
      Option AppCache
      → String
      → String
      → String
      → String
      → Option String
      → String
      → World S
      → World S
  put_email_queue none app_id type email browser ip code w = w
  put_email_queue (some app) app_id type email browser ip code w = record w {
    mails =
        record {
          app_id = app_id;
          catalog = type;
          target_member_ids = email ∷ [];
          browser = browser;
          ip = filled ip;
          code = code;
          app_name = app.name;
          subject = subject_of app.name;
        }
        ∷ w.mails;
  }

  -- MailVerificationCodeService.expireOldAndSendVerificationCode
  unfoldable pub expire_old_and_send :
      Option AppCache
      → String
      → String
      → String
      → String
      → Option String
      → List String
      → String
      → ℕ
      → World S
      → World S
  unfolding expire_old_codes fresh_code
  expire_old_and_send app app_id email type browser ip draws new_id now w =
      let taken = get_unexpired_codes_by_email app_id email type now w.codes in
      let expired = expire_old_codes app_id email type now w.codes in
      elim (fresh_code taken draws) [
        | none ↦ record w { codes = expired }
        | some code ↦ put_email_queue app app_id type email browser ip code (record w {
          codes = insert_verification_code app_id email type new_id code expiration_ms now expired;
        })
      ]

module _ (r : Redis) (sha256_hex : String → String) where
  open r use {Store}

  -- MailVerificationCodeService.sendDeviceBindCode
  unfoldable pub send_device_bind_code :
      Option AppCache
      → String
      → String
      → String
      → String
      → Option String
      → List String
      → String
      → ℕ
      → World Store
      → Bool × World Store
  unfolding expire_old_and_send
  send_device_bind_code app app_id email type browser ip draws new_id now w =
      if not (type == bind_device_limit)
      then (false, w)
      else elim (read_device_bind_challenge r sha256_hex app_id email w.store) [
        | none ↦ (false, w)
        | some member_id ↦
            (let (allowed, s) = allow_device_bind_send r sha256_hex app_id member_id w.store in
              if allowed
              then (
                true,
                expire_old_and_send app app_id email type browser ip draws new_id now
                    (record w { store = s }),
              )
              else (false, record w { store = s }))
      ]

  abbrev pub is_member : String → Option String → Bool
  is_member member_id none = false
  is_member member_id (some m) = m == member_id

  -- verifyDeviceBindCode, up to the count: the requests it turns away.
  unfoldable pub may_attempt : String → String → String → String → Store → Bool
  may_attempt app_id email member_id type s =
      (type == bind_device_limit && not (member_id == ""))
      && (not (is_device_bind_locked r sha256_hex app_id member_id s)
          && is_member member_id (read_device_bind_challenge r sha256_hex app_id email s))

  -- The attempt is counted before the code is compared.
  unfoldable pub count_attempt : String → String → Store → ℕ × Store
  unfolding increment_with_ttl
  count_attempt app_id member_id s =
      let (counts, s') =
        increment_with_ttl r
          ((Keys.device_bind_fail sha256_hex app_id member_id, Keys.device_bind_fail_ttl) ∷ []) s in
      (head_or_zero counts, s')

  -- The rest, for the attempt that was counted as number `attempts`.
  unfoldable pub settle_attempt :
      String → String → String → String → String → ℕ → ℕ → World Store → Bool × World Store
  unfolding verify_code
  settle_attempt app_id email member_id type code attempts now w =
      let (verified, w') = verify_code app_id email member_id type code now w in
      if verified
      then (
        true,
        record w' {
          store =
              clear_device_bind_challenge r sha256_hex app_id email
                (decrement_if_exists r (Keys.device_bind_fail sha256_hex app_id member_id)
                  w'.store).1;
        },
      )
      else if leb Keys.device_bind_fail_cap attempts
      then (
        false,
        record w' {
          store = clear_device_bind_challenge r sha256_hex app_id email w'.store;
          codes = expire_old_codes app_id email type now w'.codes;
        },
      )
      else (false, w')

  -- MailVerificationCodeService.verifyDeviceBindCode
  unfoldable pub verify_device_bind_code :
      String → String → String → String → String → ℕ → World Store → Bool × World Store
  unfolding may_attempt count_attempt settle_attempt
  verify_device_bind_code app_id email member_id type code now w =
      if may_attempt app_id email member_id type w.store
      then (let (attempts, s) = count_attempt app_id member_id w.store in
          if ltb Keys.device_bind_fail_cap attempts
          then (false, record w { store = s })
          else settle_attempt app_id email member_id type code attempts now
              (record w { store = s }))
      else (false, w)
