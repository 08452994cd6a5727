-- ===== src/Tests/Endpoint.antt =====
-- The sign-in endpoint and the endpoint that signs older devices out, on the sample directory.
use lodestar_server.Prelude.{String, ◌≡◌, ◌≢◌, refl, true, Option, none, some, [], ◌∷◌}
use lodestar_server.Redis.{object}
use lodestar_server.Auth.Keys.{device_login_limit, fingerprint_hash, safe_equal}
use lodestar_server.Auth.Limits.{match_device_login_challenge, parse_json}
use lodestar_server.Auth.Device.{get_member_devices, logout_member_devices}
use lodestar_server.Auth.Device.Service.{
  check_and_bind_devices, login_limit_exceed, get_login_devices, check_login_device_reached_limit,
  logout_excess_devices, login_limit, devices_to_be_logged_out, sort_by_login,
}
use lodestar_server.Auth.Session.{SessionStore}
use lodestar_server.Auth.Endpoint.{
  Reply, Site, Request, Fresh, code, challenge_required, logout_early_logined_device,
}
use lodestar_server.Auth.Admission.{Leaves, login_of, posting, post_general_login-Leaves}
use lodestar_server.Auth.Manage.{logout_early_logined_device-succeeds}
use lodestar_server.MailCode.{World}
use lodestar_server.Tests.Server.{server, blank}
use lodestar_server.Tests.Limits.{constant_hash}
use lodestar_server.Tests.Devices.{app, table, details, distinct}
use lodestar_server.Tests.Login.{directory, same, sign, start}

abbrev plain : String → String
plain s = s

abbrev request : Request
request = record {
  app_id = "app";
  account = "alice";
  password_text = "secret";
  body_fingerprint = some "a";
  cookie_fingerprint = none;
  ip = none;
  geo_ip = none;
  browser = "Chrome";
  details = details;
}

abbrev fresh : Fresh
fresh = record {
  now = "now";
  now_ms = 50;
  token = "t";
  device_id = "9";
  code_id = "8";
  draws = "0001" ∷ [];
}

abbrev works : SessionStore
works = record { regenerates = true; saves = true }

abbrev site : Site server.Store
site = record { state = start; codes = []; devices = table; code_mails = []; session = none }

post_general_login-Leaves_example :
    Leaves "app"
      (some [])
      (login_of server constant_hash same sign "production" plain directory works request fresh app
        site [])
      (posting server constant_hash same sign "production" plain directory works request fresh
        (some app)
        (record site { session = some [] })).0
      (posting server constant_hash same sign "production" plain directory works request fresh
        (some app)
        (record site { session = some [] })).1.session
post_general_login-Leaves_example =
    post_general_login-Leaves server constant_hash same sign "production" plain directory works
      request fresh app site [] refl

abbrev challenged : server.Store
challenged =
    server.set (device_login_limit constant_hash "app" "m")
      (object (("fp", constant_hash "a") ∷ [])) 600 blank

abbrev world : World server.Store
world = record { codes = []; devices = table; mails = []; store = challenged }

abbrev calls : Option String → World server.Store → Reply × World server.Store
calls body w =
    logout_early_logined_device server constant_hash plain (some app) "app" "m" body none w

signs_out : (calls (some "a") world).0 ≡ code "SUCCESS"
unfolding logout_early_logined_device match_device_login_challenge parse_json safe_equal
    fingerprint_hash device_login_limit get_login_devices get_member_devices
    check_login_device_reached_limit login_limit logout_excess_devices devices_to_be_logged_out
    sort_by_login logout_member_devices
signs_out = refl

logout_early_logined_device-succeeds_example :
    (match_device_login_challenge server constant_hash "app" "m" (some "a") challenged ≡ true)
    × ((calls (some "a") (calls (some "a") world).1).0 ≡ challenge_required)
    × ((check_and_bind_devices app "m" none "z" details 40 "4" (calls (some "a") world).1.devices).0
        ≢ login_limit_exceed)
logout_early_logined_device-succeeds_example =
    logout_early_logined_device-succeeds server constant_hash plain app "m" (some "a") none
      (some "a") none world none "z" details 40 "4" distinct signs_out
