-- ===== src/Tests/Cors.antt =====
-- Origins, guards and permissions on a sample environment.
use lodestar_server.Prelude.{
  String, ◌≡◌, ◌≢◌, ◌↔◌, ◌⊎◌, refl, true, Option, none, some, [], ◌∷◌, ◌==◌, if◌then◌else◌,
}
use lodestar_server.Cors.{array, Environment, RequestHostAppLookup}
use lodestar_server.Cors.Hostname.{
  normalize_hostname, registrable_domain, origin_hostname, request_hostname,
}
use lodestar_server.Cors.Origin.{evaluate_origin, evaluate_cors}
use lodestar_server.Cors.Trust.{Grounds, evaluate_origin_trusted_iff}
use lodestar_server.Cors.Guard.{
  RequestHeaders, missing, single, can_activate, accepted, header_value, fetch_site_values,
}
use lodestar_server.Cors.SameSite.{IsAllowed, can_activate_iff, can_activate-evaluate_cors_iff}
use lodestar_server.Access.{Claims, passes, guarded}
use lodestar_server.Access.Guarded.{IsBearer, SharePermission, guarded_iff}
use lodestar_server.Tests.Devices.{app}

abbrev environment : Environment
environment = record {
  is_production = true;
  parse_url = λ origin.
      if origin == "https://shop.example.com"
      then some (record { protocol = "https:"; hostname = "shop.example.com"; port = "" })
      else none;
  parse_domain = λ name. some ("example", "com" ∷ []);
  json_parse = λ value. array [];
}

abbrev lookup : RequestHostAppLookup
lookup = record {
  get_app_info_by_host = λ host. some app;
  get_app_host_names = λ id. some ("Shop.example.com." ∷ []);
}

evaluate_origin_trusted_iff_example :
    ((evaluate_origin environment lookup
        (some "https://shop.example.com")
        (some "www.example.com:3000")).trusted
      ≡ true)
    ↔ ((origin_host : String) × (host : String) × (origin_hostname environment
            (some "https://shop.example.com")
          ≡ some origin_host)
        × (request_hostname (some "www.example.com:3000") ≡ some host)
        × Grounds environment lookup origin_host host)
evaluate_origin_trusted_iff_example =
    evaluate_origin_trusted_iff environment lookup refl (some "https://shop.example.com")
      (some "www.example.com:3000")

sibling :
    (evaluate_origin environment lookup
      (some "https://shop.example.com")
      (some "www.example.com:3000")).trusted
    ≡ true
unfolding evaluate_origin origin_hostname normalize_hostname request_hostname registrable_domain
sibling = refl

abbrev headers : RequestHeaders
headers name =
    if name == "origin"
    then single "https://shop.example.com"
    else if name == "host"
    then single "www.example.com"
    else missing

can_activate_iff_example : (can_activate environment lookup "POST" headers ≡ accepted) ↔ (
    ((◌≡◌ {A = String} "POST" "GET")
      ⊎ ((◌≡◌ {A = String} "POST" "HEAD") ⊎ (◌≡◌ {A = String} "POST" "OPTIONS")))
    ⊎ IsAllowed environment lookup "POST" headers)
can_activate_iff_example = can_activate_iff environment lookup "POST" headers

can_activate-evaluate_cors_iff_example :
    (can_activate environment lookup "POST" headers ≡ accepted) ↔ (
      evaluate_cors environment lookup (header_value headers "origin") (header_value headers "host")
      ≡ true)
unfolding header_value fetch_site_values
can_activate-evaluate_cors_iff_example =
    can_activate-evaluate_cors_iff environment lookup "POST" headers "https://shop.example.com"
      "www.example.com" refl refl refl refl (λ e. cc) (λ e. cc)

abbrev admin : Claims
admin = record { sub = "m"; app_id = "app"; permissions = "APP_TMP_PASSWORD_ADMIN" ∷ [] }

abbrev verify : String → Option Claims
verify token = if token == "t" then some admin else none

guarded_iff_example :
    (guarded verify (some ("APP_TMP_PASSWORD_ADMIN" ∷ [])) (some "Bearer t") ≡ passes (some admin))
    ↔ ((token : String) × IsBearer (some "Bearer t") token
        × (token ≢ "")
        × (verify token ≡ some admin)
        × SharePermission admin.permissions ("APP_TMP_PASSWORD_ADMIN" ∷ []))
guarded_iff_example = guarded_iff verify ("APP_TMP_PASSWORD_ADMIN" ∷ []) (some "Bearer t") admin

reaches :
    guarded verify (some ("APP_TMP_PASSWORD_ADMIN" ∷ [])) (some "Bearer t") ≡ passes (some admin)
unfolding guarded
reaches = refl
