-- ===== src/Tests/MailCode.antt =====
-- The verification codes on a sample world.
use lodestar_server.Prelude.{
  ℕ, ◌+◌, ◌≤◌, String, ◌≡◌, refl, ap, Bool, true, false, not, none, some, List, [], ◌∷◌, ◌==◌, any,
  All, length, arith,
}
use lodestar_server.Redis.{int, object, count_of}
use lodestar_server.Auth.Keys.{
  device_bind, device_bind_fail, device_bind_send_cooldown, device_bind_send_count,
  normalize_identifier,
}
use lodestar_server.Auth.Limits.{
  read_device_bind_challenge, allow_device_bind_send, is_device_bind_locked, parse_json, incr_key,
  read_counter,
}
use lodestar_server.Auth.Device.{MemberDevice, get_member_devices, delete_member_device_by_id}
use lodestar_server.MailCode.{World, get_unexpired_codes_by_email}
use lodestar_server.MailCode.Service.{
  bind_device_limit, expiration_ms, has_code, check_code_expired, oldest_member_device, may_attempt,
  verify_device_bind_code, count_attempt, settle_attempt, verify_code,
}
use lodestar_server.MailCode.Send.{send, mail_of, send-granted}
use lodestar_server.MailCode.Verify.{verify, fail_key, verified-leaves}
use lodestar_server.MailCode.Lock.{verified-once, tenth_wrong-locks}
use lodestar_server.MailCode.Attempts.{Event, count, settle, wait, run}
use lodestar_server.MailCode.Attempts.Bound.{wrong-le_ten}
use lodestar_server.Tests.Server.{server, blank}
use lodestar_server.Tests.Limits.{constant_hash}
use lodestar_server.Tests.Devices.{app, table}

-- A member who has signed in at the limit, with nine wrong codes counted or none.
abbrev held : server.Store
held = server.set (device_bind constant_hash "app" "e") (object (("memberId", "m") ∷ [])) 1800 blank

abbrev held_nine : server.Store
held_nine = server.set (device_bind_fail constant_hash "app" "m") (int 9) 3600 held

abbrev world_with : server.Store → World server.Store
world_with s = record {
  codes =
      record {
        id = "1";
        app_id = "app";
        email = "e";
        type = bind_device_limit;
        code = "0001";
        expired_at = 5000;
      }
      ∷ [];
  devices = table;
  mails = [];
  store = s;
}

abbrev sends : World server.Store → Bool × World server.Store
sends = send server constant_hash "app" "e" "2" 1000 app "Chrome" none ("0001" ∷ "0002" ∷ [])

challenged : read_device_bind_challenge server constant_hash "app" "e" held ≡ some "m"
unfolding read_device_bind_challenge parse_json device_bind normalize_identifier
challenged = refl

may_send : (allow_device_bind_send server constant_hash "app" "m" held).0 ≡ true
unfolding allow_device_bind_send incr_key device_bind device_bind_send_cooldown
    device_bind_send_count normalize_identifier
may_send = refl

free :
    any
      (λ c. not (
        any
          (has_code c)
          (get_unexpired_codes_by_email "app" "e" bind_device_limit 1000 (world_with held).codes)))
      ("0001" ∷ "0002" ∷ [])
    ≡ true
unfolding get_unexpired_codes_by_email
free = refl

send-granted_example :
    (code : String) × ((sends (world_with held)).0 ≡ true)
    × ((sends (world_with held)).1.mails
        ≡ mail_of "app" "e" bind_device_limit "2" 1000 app "Chrome" none code ∷ [])
    × (any
          (has_code code)
          (get_unexpired_codes_by_email "app" "e" bind_device_limit 1000 (world_with held).codes)
        ≡ false)
    × (check_code_expired "app" "e" bind_device_limit "0002" expiration_ms 2000
          (sends (world_with held)).1.codes
        ≡ (code == "0002"))
send-granted_example =
    send-granted server constant_hash "app" "e" "2" 1000 app "Chrome" none ("0001" ∷ "0002" ∷ [])
      (world_with held) "m" 2000 "0002" challenged may_send free (omega arith) (omega arith)

uncounted : server.find (fail_key server constant_hash "app" "e" "m") held ≡ none
unfolding device_bind device_bind_fail normalize_identifier
uncounted = refl

nine_counted :
    count_of (server.find (fail_key server constant_hash "app" "e" "m") held_nine) ≡ some 9
unfolding device_bind_fail
nine_counted = refl

abbrev tries : String → ℕ → World server.Store → Bool × World server.Store
tries code now = verify server constant_hash "app" "e" "m" code now

verifies : (tries "0001" 1000 (world_with held)).0 ≡ true
unfolding verify_device_bind_code may_attempt count_attempt settle_attempt verify_code
    check_code_expired read_device_bind_challenge parse_json device_bind device_bind_fail
    normalize_identifier is_device_bind_locked read_counter incr_key get_unexpired_codes_by_email
    oldest_member_device get_member_devices
verifies = refl

verified-leaves_example :
    (check_code_expired "app" "e" bind_device_limit "0001" expiration_ms 1000
        (world_with held).codes
      ≡ true)
    × (get_unexpired_codes_by_email "app" "e" bind_device_limit 2000
          (tries "0001" 1000 (world_with held)).1.codes
        ≡ [])
    × (read_device_bind_challenge server constant_hash "app" "e"
          (tries "0001" 1000 (world_with held)).1.store
        ≡ none)
    × (count_of (
          server.find
            (fail_key server constant_hash "app" "e" "m")
            (tries "0001" 1000 (world_with held)).1.store)
        ≡ some 0)
    × ((oldest : MemberDevice) × (oldest_member_device (get_member_devices "m" table) ≡ some oldest)
        × All (λ e. oldest.created_at ≤ e.created_at) (get_member_devices "m" table)
        × ((tries "0001" 1000 (world_with held)).1.devices
            ≡ delete_member_device_by_id oldest.id table))
verified-leaves_example =
    verified-leaves server constant_hash "app" "e" "m" "0001" 1000 (world_with held) 0 2000
      (ap count_of uncounted) (omega arith) verifies

verified-once_example :
    tries "0001" 1001 (tries "0001" 1000 (world_with held)).1
    ≡ (false, (tries "0001" 1000 (world_with held)).1)
verified-once_example =
    verified-once server constant_hash "app" "e" "m" (world_with held) "0001" "0001" 1000 1001 0
      (ap count_of uncounted) verifies

let_in : may_attempt server constant_hash "app" "e" "m" bind_device_limit held_nine ≡ true
unfolding may_attempt read_device_bind_challenge parse_json device_bind device_bind_fail
    normalize_identifier is_device_bind_locked read_counter
let_in = refl

fails : (tries "0007" 1000 (world_with held_nine)).0 ≡ false
unfolding verify_device_bind_code may_attempt count_attempt settle_attempt verify_code
    check_code_expired read_device_bind_challenge parse_json device_bind device_bind_fail
    normalize_identifier is_device_bind_locked read_counter incr_key get_unexpired_codes_by_email
    oldest_member_device get_member_devices
fails = refl

tenth_wrong-locks_example :
    (get_unexpired_codes_by_email "app" "e" bind_device_limit 2000
        (tries "0007" 1000 (world_with held_nine)).1.codes
      ≡ [])
    × (is_device_bind_locked server constant_hash "app" "m"
          (tries "0007" 1000 (world_with held_nine)).1.store
        ≡ true)
    × (read_device_bind_challenge server constant_hash "app" "e"
          (tries "0007" 1000 (world_with held_nine)).1.store
        ≡ none)
    × (tries "0001" 1500 (tries "0007" 1000 (world_with held_nine)).1
        ≡ (false, (tries "0007" 1000 (world_with held_nine)).1))
tenth_wrong-locks_example =
    tenth_wrong-locks server constant_hash "app" "e" "m" (world_with held_nine) "0007" "0001" 1000
      1500 2000 nine_counted let_in fails (omega arith)

abbrev mixed : List Event
mixed = count "e" "0007" ∷ count "e" "0001" ∷ settle 1 1000 ∷ wait 60 ∷ settle 0 1100 ∷ []

wrong-le_ten_example :
    (run server constant_hash "app" "m" mixed
        (record { world = world_with held; pending = []; wrong = 0 })).wrong
      + length
          (run server constant_hash "app" "m" mixed
            (record { world = world_with held; pending = []; wrong = 0 })).pending
    ≤ 10
wrong-le_ten_example =
    wrong-le_ten server constant_hash "app" "m" "e" mixed (world_with held) uncounted (omega arith)
