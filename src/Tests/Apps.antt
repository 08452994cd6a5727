-- ===== src/Tests/Apps.antt =====
-- Apps and their copy in a sample Redis.
use lodestar_server.Prelude.{String, ◌≡◌, refl, true, false, none, some, List, [], ◌∷◌, All, ◌>>=◌}
use lodestar_server.Redis.{with_fields}
use lodestar_server.Apps.{AppInfo, AppTables}
use lodestar_server.Apps.Recent.{Event, waits, asks, IsAnswer, SameHosts, answers, answers_recent}
use lodestar_server.Apps.Info.{ParseIds, default_permissions_of, get_app_cache, set_app_cache}
use lodestar_server.Apps.Stored.{IsFresh, restored, get_app_cache-set_app_cache}
use lodestar_server.Tests.Server.{server, blank}

abbrev app_tables : AppTables
app_tables = record {
  apps = record { id = "app"; org_id = none } ∷ [];
  settings = [];
  secrets = [];
  hosts = record { app_id = "app"; host = "a.example.com" } ∷ [];
  modules = [];
  permissions = "P" ∷ [];
}

abbrev visits : List Event
visits = asks true true ∷ waits 200 ∷ asks true true ∷ waits 200 ∷ asks false true ∷ []

answers_recent_example :
    All
      (λ a. IsAnswer "app" (λ t. app_tables) a.0 a.1)
      (answers server "app" (λ t. app_tables) visits 0 blank)
answers_recent_example = answers_recent server "app" (λ t. app_tables) visits 0 blank refl

abbrev parse_ids : ParseIds
parse_ids s = some ("P" ∷ [])

abbrev app_info : AppInfo
app_info = record {
  id = "app";
  org_id = some "";
  host = some "a.example.com";
  name = some "A";
  settings = ("name", "A") ∷ [];
  secrets = ("key", "k") ∷ [];
  modules = "voucher" ∷ [];
  default_permissions = "P" ∷ [];
}

nothing_held : IsFresh server "app" blank
nothing_held = record {
  head = refl;
  org_id = refl;
  settings = refl;
  secrets = refl;
  modules = refl;
}

get_app_cache-set_app_cache_example :
    (ms : List String) × SameHosts ms ("voucher" ∷ [])
    × (get_app_cache server parse_ids "app" app_tables
          (set_app_cache server "a.example.com" app_info blank)
        ≡ (default_permissions_of parse_ids (with_fields (("name", "A") ∷ []) []) app_tables
            >>= λ permissions. some (restored server parse_ids app_info ms permissions)))
get_app_cache-set_app_cache_example =
    get_app_cache-set_app_cache server parse_ids "a.example.com" app_info app_tables blank
      nothing_held refl refl refl
