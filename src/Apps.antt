-- ===== src/Apps.antt =====
-- Apps and what Redis holds of them: src/app/app.service.ts with the queries of src/app/app.infra.ts.
pub mod Hosts
pub mod Recent
pub mod Info
pub mod Steps
pub mod Stored
use lodestar_server.Prelude.{
  String, Option, none, some, List, [], ◌∷◌, map, select, find_first, ◌==◌,
}
use lodestar_server.Redis.{with_fields}

-- AppCache
pub record AppInfo : Type 0 where
  pub id : String
  pub org_id : Option String
  pub host : Option String
  pub name : Option String
  pub settings : List (String × String)
  pub secrets : List (String × String)
  pub modules : List String
  pub default_permissions : List String

pub record App : Type 0 where
  pub id : String
  pub org_id : Option String

-- A row of app_setting or app_secret.
pub record AppEntry : Type 0 where
  pub app_id : String
  pub key : String
  pub value : String

pub record AppHost : Type 0 where
  pub app_id : String
  pub host : String

pub record AppModule : Type 0 where
  pub app_id : String
  pub module_id : String

-- The tables; the hosts in the order of their priority.
pub record AppTables : Type 0 where
  pub apps : List App
  pub settings : List AppEntry
  pub secrets : List AppEntry
  pub hosts : List AppHost
  pub modules : List AppModule
  pub permissions : List String

unfoldable pub get_app_by_id : String → AppTables → Option App
get_app_by_id id t = find_first (λ a. a.id == id) t.apps

unfoldable pub get_app_hosts : String → AppTables → List AppHost
get_app_hosts app_id t = select (λ h. h.app_id == app_id) t.hosts

unfoldable pub get_app_hosts_by_host : String → AppTables → List AppHost
get_app_hosts_by_host host t = select (λ h. h.host == host) t.hosts

-- `result[key] = value` for every row.
abbrev pub record_of : List AppEntry → List (String × String)
record_of es = with_fields (map (λ e. (e.key, e.value)) es) []
