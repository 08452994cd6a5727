-- ===== src/Apps/Hosts.antt =====
-- getAppHostNames of src/app/app.service.ts: the hosts of an app, held in Redis for five minutes.
use Prim.Native.String.{◌++◌}
use lodestar_server.Prelude.{
  String, Bool, Option, none, some, List, [], ◌∷◌, map, ◌*◌, if◌then◌else◌,
}
use lodestar_server.Redis.{Redis, members_of}
use lodestar_server.Apps.{AppTables, get_app_hosts}

abbrev pub hosts_key : String → String
hosts_key app_id = "app:" ++ (app_id ++ ":hosts")

-- What SMEMBERS gives; a value of another type is an error, none.
abbrev pub or_members : Option (List String) → List String
or_members none = []
or_members (some ms) = ms

module _ (r : Redis) where
  -- `sadd(key, ...hosts)`
  abbrev pub sadd_all : String → List String → r.Store → r.Store
  sadd_all key [] s = s
  sadd_all key (h ∷ hs) s = sadd_all key hs (r.sadd key h s)

  -- The transaction: del, sadd, expire.
  unfoldable pub cache_hosts : String → List String → r.Store → r.Store
  cache_hosts key hosts s = r.expire key (5 * 60) (sadd_all key hosts (r.del key s))

  -- Whether a call of Redis throws is told by `readable` and `writable`. A failure is logged.
  unfoldable pub read_hosts : Bool → String → r.Store → List String
  read_hosts readable key s = if readable then or_members (members_of (r.find key s)) else []

  unfoldable pub write_hosts : Bool → String → List String → r.Store → r.Store
  unfolding cache_hosts
  write_hosts writable key [] s = s
  write_hosts writable key (h ∷ hs) s = if writable then cache_hosts key (h ∷ hs) s else s

  -- AppService.getAppHostNames
  unfoldable pub get_app_host_names :
      Bool → Bool → String → AppTables → r.Store → List String × r.Store
  unfolding read_hosts write_hosts get_app_hosts
  get_app_host_names readable writable app_id t s =
      let key = hosts_key app_id in
      let hosts = map (λ h. h.host) (get_app_hosts app_id t) in
      elim (read_hosts readable key s) [
        | c ∷ cached ↦ (c ∷ cached, s)
        | [] ↦ (hosts, write_hosts writable key hosts s)
      ]
