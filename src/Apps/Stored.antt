-- ===== src/Apps/Stored.antt =====
-- What setAppCache of src/app/app.service.ts stores is what getAppCache gives back.
use Prim.Native.String.{◌++◌}
use lodestar_server.Prelude.{
  String, ◌≡◌, ◌≢◌, ◌∙◌, refl, ap, true, false, none, some, List, [], ◌∷◌, ◌==◌, if◌then◌else◌,
  ◌>>=◌, or_blank,
}
use lodestar_server.Redis.{Redis, object, members, entry, with_fields}
use lodestar_server.Auth.Keys.Distinct.{==-eq-false_sym}
use lodestar_server.Apps.{AppInfo, AppTables}
use lodestar_server.Apps.Recent.{SameHosts}
use lodestar_server.Apps.Info.{
  app_key, org_id_key, settings_key, secrets_key, modules_key, host_key, is_cons, is_filled_text,
  cache_fields, cache_modules, cache_org_id, set_app_cache, ParseIds, default_permissions_of,
  get_app_cache, count_existing, text_at,
}
use lodestar_server.Apps.Steps.{
  suffix_apart, app_key_apart, host_apart, texts_differ, cache_fields-ne, cache_fields_self,
  cache_modules-ne, cache_modules_self, cache_org_id-ne, cache_org_id_self,
}

-- Redis holds nothing under the keys of the app.
pub record IsFresh (r : Redis) (id : String) (s : r.Store) : Type 0 where
  pub head : r.find (app_key id) s ≡ none
  pub org_id : r.find (org_id_key id) s ≡ none
  pub settings : r.find (settings_key id) s ≡ none
  pub secrets : r.find (secrets_key id) s ≡ none
  pub modules : r.find (modules_key id) s ≡ none

abbrev head_of : AppInfo → List (String × String)
head_of a = ("name", or_blank a.name) ∷ ("host", or_blank a.host) ∷ []

-- What the five keys hold after setAppCache.
record Holds (r : Redis) (a : AppInfo) (ms : List String) (s : r.Store) : Type 0 where
  head : r.find (app_key a.id) s ≡ entry (object (with_fields (head_of a) [])) (some 3600)
  org_id :
      text_at (r.find (org_id_key a.id) s) ≡ (if is_filled_text a.org_id then a.org_id else none)
  settings : r.find (settings_key a.id) s ≡ entry (object (with_fields a.settings [])) (some 3600)
  secrets : r.find (secrets_key a.id) s ≡ entry (object (with_fields a.secrets [])) (some 3600)
  modules : r.find (modules_key a.id) s ≡ entry (members ms) (some 3600)

module _ (r : Redis) (host : String) (a : AppInfo) where
  set_app_cache-Holds :
      (s : r.Store)
      → IsFresh r a.id s
      → is_cons a.settings ≡ true
      → is_cons a.secrets ≡ true
      → is_cons a.modules ≡ true
      → (ms : List String) × Holds r a ms (set_app_cache r host a s) × SameHosts ms a.modules
  unfolding set_app_cache
  set_app_cache-Holds s fresh settings secrets modules =
      let id = a.id in
      let s1 = cache_fields r (host_key host) (("appId", id) ∷ []) s in
      let s2 = cache_fields r (app_key id) (head_of a) s1 in
      let s3 = cache_org_id r (org_id_key id) a.org_id s2 in
      let s4 = cache_fields r (settings_key id) a.settings s3 in
      let s5 = cache_fields r (secrets_key id) a.secrets s4 in
      let at_org = org_id_key id in
      let at_settings = settings_key id in
      let at_secrets = secrets_key id in
      let at_modules = modules_key id in
      let first : (t : String) → r.find ("app:" ++ t) s1 ≡ r.find ("app:" ++ t) s =
        λ t. cache_fields-ne r _ (host_key host) (("appId", id) ∷ []) s (host_apart host t) in
      let second : (b : String)
          → "" ≢ b
          → r.find ("app:" ++ (id ++ b)) s2 ≡ r.find ("app:" ++ (id ++ b)) s =
        λ b ne.
          cache_fields-ne r _ (app_key id) (head_of a) s1 (app_key_apart id b ne)
          ∙ first (id ++ b) in
      let third : (b : String)
          → "" ≢ b
          → ":orgId" ≢ b
          → r.find ("app:" ++ (id ++ b)) s3 ≡ r.find ("app:" ++ (id ++ b)) s =
        λ b ne ne'.
          cache_org_id-ne r _ at_org a.org_id s2 (suffix_apart id ":orgId" b ne') ∙ second b ne in
      let settings_here = cache_fields_self r at_settings a.settings s3 settings (
        third ":settings" (texts_differ "" ":settings" refl)
          (texts_differ ":orgId" ":settings" refl)
        ∙ fresh.settings) in
      let secrets_here = cache_fields_self r at_secrets a.secrets s4 secrets (
        cache_fields-ne r at_secrets at_settings a.settings s3
          (suffix_apart id ":settings" ":secrets" (texts_differ ":settings" ":secrets" refl))
        ∙ third ":secrets" (texts_differ "" ":secrets" refl) (texts_differ ":orgId" ":secrets" refl)
        ∙ fresh.secrets) in
      let (ms, modules_here, same) = cache_modules_self r at_modules a.modules s5 modules (
        cache_fields-ne r at_modules at_secrets a.secrets s4
          (suffix_apart id ":secrets" ":modules" (texts_differ ":secrets" ":modules" refl))
        ∙ cache_fields-ne r at_modules at_settings a.settings s3
            (suffix_apart id ":settings" ":modules" (texts_differ ":settings" ":modules" refl))
        ∙ third ":modules" (texts_differ "" ":modules" refl) (texts_differ ":orgId" ":modules" refl)
        ∙ fresh.modules) in
      let last_three : (j : String)
          → (at_settings == j) ≡ false
          → (at_secrets == j) ≡ false
          → (at_modules == j) ≡ false
          → r.find j (cache_modules r at_modules a.modules s5) ≡ r.find j s3 =
        λ j ne ne' ne''.
          cache_modules-ne r j at_modules a.modules s5 ne''
          ∙ cache_fields-ne r j at_secrets a.secrets s4 ne'
          ∙ cache_fields-ne r j at_settings a.settings s3 ne in
      (
        ms,
        record {
          head =
              last_three (app_key id)
                (==-eq-false_sym _ _
                  (app_key_apart id ":settings" (texts_differ "" ":settings" refl)))
                (==-eq-false_sym _ _
                  (app_key_apart id ":secrets" (texts_differ "" ":secrets" refl)))
                (==-eq-false_sym _ _
                  (app_key_apart id ":modules" (texts_differ "" ":modules" refl)))
              ∙ cache_org_id-ne r (app_key id) at_org a.org_id s2
                  (==-eq-false_sym _ _ (app_key_apart id ":orgId" (texts_differ "" ":orgId" refl)))
              ∙ cache_fields_self r (app_key id) (head_of a) s1 refl (first id ∙ fresh.head);
          org_id =
              ap text_at (
                last_three at_org
                  (suffix_apart id ":settings" ":orgId" (texts_differ ":settings" ":orgId" refl))
                  (suffix_apart id ":secrets" ":orgId" (texts_differ ":secrets" ":orgId" refl))
                  (suffix_apart id ":modules" ":orgId" (texts_differ ":modules" ":orgId" refl)))
              ∙ cache_org_id_self r at_org a.org_id s2
                  (second ":orgId" (texts_differ "" ":orgId" refl) ∙ fresh.org_id);
          settings =
              cache_modules-ne r at_settings at_modules a.modules s5
                (suffix_apart id ":modules" ":settings" (texts_differ ":modules" ":settings" refl))
              ∙ cache_fields-ne r at_settings at_secrets a.secrets s4 (
                  suffix_apart id ":secrets" ":settings" (texts_differ ":secrets" ":settings" refl))
              ∙ settings_here;
          secrets =
              cache_modules-ne r at_secrets at_modules a.modules s5
                (suffix_apart id ":modules" ":secrets" (texts_differ ":modules" ":secrets" refl))
              ∙ secrets_here;
          modules = modules_here;
        },
        same,
      )

module _ (r : Redis) (parse : ParseIds) where
  -- The app as it comes back from Redis.
  abbrev pub restored : AppInfo → List String → List String → AppInfo
  restored a ms permissions = record {
    id = a.id;
    org_id = if is_filled_text a.org_id then a.org_id else none;
    host = some (or_blank a.host);
    name = some (or_blank a.name);
    settings = with_fields a.settings [];
    secrets = with_fields a.secrets [];
    modules = ms;
    default_permissions = permissions;
  }

  get_app_cache-Holds :
      (a : AppInfo) (ms : List String) (t : AppTables) (s : r.Store)
      → Holds r a ms s
      → get_app_cache r parse a.id t s ≡ (
          default_permissions_of parse (with_fields a.settings []) t >>= λ permissions.
          some (restored a ms permissions))
  unfolding get_app_cache count_existing
  get_app_cache-Holds a ms t s h =
      let four : count_existing r a.id s ≡ 4 =
        rw (count_existing, h.head, h.settings, h.secrets, h.modules) refl in
      rw (get_app_cache, four, h.head, h.settings, h.secrets, h.modules, h.org_id) refl

  -- If Redis holds nothing under the keys of an app that has settings, secrets and modules, then what
  -- setAppCache stores is complete: getAppCache gives the app back, with its settings and secrets by the
  -- last value of each key, its modules in some order, and null for an organisation that is blank; or it
  -- throws where the default permissions in the settings cannot be parsed.
  pub get_app_cache-set_app_cache :
      (host : String) (a : AppInfo) (t : AppTables) (s : r.Store)
      → IsFresh r a.id s
      → is_cons a.settings ≡ true
      → is_cons a.secrets ≡ true
      → is_cons a.modules ≡ true
      → (ms : List String) × SameHosts ms a.modules
        × (get_app_cache r parse a.id t (set_app_cache r host a s) ≡ (
            default_permissions_of parse (with_fields a.settings []) t >>= λ permissions.
            some (restored a ms permissions)))
  get_app_cache-set_app_cache host a t s fresh settings secrets modules =
      let (ms, holds, same) = set_app_cache-Holds r host a s fresh settings secrets modules in
      (ms, same, get_app_cache-Holds a ms t (set_app_cache r host a s) holds)
