-- ===== src/Apps/Info.antt =====
-- The app's information and its copy in Redis: src/app/app.service.ts.
use Prim.Native.String.{◌++◌}
use lodestar_server.Prelude.{
  ℕ, ◌+◌, ◌*◌, String, Bool, true, false, not, Option, none, some, List, [], ◌∷◌, map, select, any,
  is_none, ltb, ◌==◌, if◌then◌else◌, ◌>>=◌, or_blank,
}
use lodestar_server.Redis.{Redis, Entry, Value, text, fields_of, members_of}
use lodestar_server.Auth.Device.Service.{setting}
use lodestar_server.Apps.{
  AppInfo, AppHost, AppTables, record_of, get_app_by_id, get_app_hosts, get_app_hosts_by_host,
}
use lodestar_server.Apps.Hosts.{sadd_all, or_members}

abbrev pub app_key : String → String
app_key app_id = "app:" ++ app_id

abbrev pub org_id_key : String → String
org_id_key app_id = "app:" ++ (app_id ++ ":orgId")

abbrev pub settings_key : String → String
settings_key app_id = "app:" ++ (app_id ++ ":settings")

abbrev pub secrets_key : String → String
secrets_key app_id = "app:" ++ (app_id ++ ":secrets")

abbrev pub modules_key : String → String
modules_key app_id = "app:" ++ (app_id ++ ":modules")

abbrev pub host_key : String → String
host_key host = "host:" ++ host

abbrev pub expire_time : ℕ
expire_time = 60 * 60

-- What HGETALL gives; a value of another type is an error, none.
abbrev or_fields : Option (List (String × String)) → List (String × String)
or_fields none = []
or_fields (some fs) = fs

-- What GET gives.
abbrev pub text_in : Value → Option String
text_in (text s) = some s
text_in _ = none

abbrev pub text_at : Option Entry → Option String
text_at none = none
text_at (some e) = text_in e.value

abbrev pub is_cons {ℓ} : {A : Type ℓ} → List A → Bool
is_cons [] = false
is_cons (x ∷ xs) = true

abbrev one_if : Bool → ℕ
one_if true = 1
one_if false = 0

-- `x && ...` on a text that may be null
abbrev pub is_filled_text : Option String → Bool
is_filled_text none = false
is_filled_text (some s) = not (s == "")

module _ (r : Redis) where
  unfoldable pub cache_fields : String → List (String × String) → r.Store → r.Store
  cache_fields key fs s = r.expire key expire_time (if is_cons fs then r.hset key fs s else s)

  unfoldable pub cache_modules : String → List String → r.Store → r.Store
  cache_modules key ms s = r.expire key expire_time (if is_cons ms then sadd_all r key ms s else s)

  unfoldable pub cache_org_id : String → Option String → r.Store → r.Store
  cache_org_id key org_id s =
      r.expire key expire_time (if is_filled_text org_id then r.put key (or_blank org_id) s else s)

  -- AppService.setAppCache
  unfoldable pub set_app_cache : String → AppInfo → r.Store → r.Store
  unfolding cache_fields cache_modules cache_org_id
  set_app_cache host a s =
      let s = cache_fields (host_key host) (("appId", a.id) ∷ []) s in
      let s =
        cache_fields (app_key a.id) (("name", or_blank a.name) ∷ ("host", or_blank a.host) ∷ [])
          s in
      let s = cache_org_id (org_id_key a.id) a.org_id s in
      let s = cache_fields (settings_key a.id) a.settings s in
      let s = cache_fields (secrets_key a.id) a.secrets s in
      cache_modules (modules_key a.id) a.modules s

  abbrev has_key : String → r.Store → Bool
  has_key key s = not (is_none (r.find key s))

  -- EXISTS with the four keys
  unfoldable pub count_existing : String → r.Store → ℕ
  count_existing app_id s =
      one_if (has_key (app_key app_id) s)
      + one_if (has_key (settings_key app_id) s)
      + one_if (has_key (secrets_key app_id) s)
      + one_if (has_key (modules_key app_id) s)

  abbrev fields_at : String → r.Store → List (String × String)
  fields_at key s = or_fields (fields_of (r.find key s))

-- getFirstMatchedAppHost, its host; without one the code throws.
abbrev first_host : List AppHost → Option String
first_host [] = none
first_host (h ∷ hs) = some h.host

-- The only host's app, else an error.
abbrev only_app : List AppHost → Option String
only_app [] = none
only_app (h ∷ []) = some h.app_id
only_app (h ∷ k ∷ hs) = none

-- JSON.parse of a list of ids, none where it throws.
abbrev pub ParseIds : Type 0
ParseIds = String → Option (List String)

-- `settings['feature.membership_default_permission'] || '[]'`
abbrev permission_setting : List (String × String) → String
permission_setting settings = elim (setting "feature.membership_default_permission" settings) [
  | none ↦ "[]"
  | some s ↦ if s == "" then "[]" else s
]

-- PermissionInfrastructure.getByIds, the ids of what it finds.
unfoldable get_permissions_by_ids : List String → AppTables → List String
get_permissions_by_ids ids t = select (λ p. any (λ i. i == p) ids) t.permissions

unfoldable pub default_permissions_of :
    ParseIds → List (String × String) → AppTables → Option (List String)
unfolding get_permissions_by_ids
default_permissions_of parse settings t = do
  ids ← parse (permission_setting settings)
  some (get_permissions_by_ids ids t)

module _ (r : Redis) (parse : ParseIds) where
  -- AppService.getAppCache; none where it throws.
  unfoldable pub get_app_cache : String → AppTables → r.Store → Option AppInfo
  unfolding count_existing default_permissions_of
  get_app_cache app_id t s =
      let settings = fields_at r (settings_key app_id) s in
      let head = fields_at r (app_key app_id) s in
      elim (ltb (count_existing r app_id s) 4) [
        | true ↦ none
        | false ↦ do
          permissions ← default_permissions_of parse settings t
          some (record {
            id = app_id;
            org_id = text_at (r.find (org_id_key app_id) s);
            host = setting "host" head;
            name = setting "name" head;
            settings = settings;
            secrets = fields_at r (secrets_key app_id) s;
            modules = or_members (members_of (r.find (modules_key app_id) s));
            default_permissions = permissions;
          })
      ]

  -- What the tables say of the app; none where it throws.
  unfoldable read_app : String → AppTables → Option (String × AppInfo)
  unfolding get_app_by_id get_app_hosts default_permissions_of
  read_app app_id t =
      let settings = record_of (select (λ e. e.app_id == app_id) t.settings) in
      do
        app ← get_app_by_id app_id t
        first ← first_host (get_app_hosts app_id t)
        permissions ← default_permissions_of parse settings t
        some (
          first,
          record {
            id = app_id;
            org_id = some (or_blank app.org_id);
            host = some first;
            name = some (or_blank (setting "name" settings));
            settings = settings;
            secrets = record_of (select (λ e. e.app_id == app_id) t.secrets);
            modules = map (λ m. m.module_id) (select (λ m. m.app_id == app_id) t.modules);
            default_permissions = permissions;
          },
        )

  -- AppService.getAppInfo. When Redis throws, `up` is false: the tables are read, and nothing is written.
  unfoldable get_app_info : Bool → String → AppTables → r.Store → Option AppInfo × r.Store
  unfolding get_app_cache read_app set_app_cache
  get_app_info up app_id t s = elim (if up then get_app_cache app_id t s else none) [
    | some a ↦ (some a, s)
    | none ↦ elim (read_app app_id t) [
      | none ↦ (none, s)
      | some (host, a) ↦ (some a, if up then set_app_cache r host a s else s)
    ]
  ]

  unfoldable find_app_id : Bool → String → AppTables → r.Store → Option String
  unfolding get_app_hosts_by_host
  find_app_id up host t s =
      elim (if up then setting "appId" (fields_at r (host_key host) s) else none) [
        | some id ↦ if id == "" then only_app (get_app_hosts_by_host host t) else some id
        | none ↦ only_app (get_app_hosts_by_host host t)
      ]

  -- AppService.getAppInfoByHost
  unfoldable pub get_app_info_by_host :
      Bool → String → AppTables → r.Store → Option AppInfo × r.Store
  unfolding find_app_id get_app_info
  get_app_info_by_host up host t s = elim (find_app_id up host t s) [
    | none ↦ (none, s)
    | some app_id ↦ get_app_info up app_id t s
  ]
