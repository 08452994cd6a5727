-- ===== src/Cors.antt =====
-- src/cors.ts: which origins a request host trusts. The URL parser, the public suffix list of
-- parse-domain, the JSON parser and the environment are parameters.
pub mod Hostname
pub mod Origin
pub mod Trust
pub mod Guard
pub mod Marked
pub mod SameSite
use lodestar_server.Prelude.{ℕ, String, Bool, Option, List}
use lodestar_server.Auth.Device.Service.{AppCache}

-- What `new URL(origin)` gives, as far as it is read.
pub record Url : Type 0 where
  pub protocol : String
  pub hostname : String
  pub port : String

-- What JSON.parse gives: it throws, or the value is an array, of texts and other values, or is no array.
pub data Item : Type 0 where
  text : String → Item
  no_text : Item

pub data Parsed : Type 0 where
  malformed : Parsed
  array : List Item → Parsed
  no_array : Parsed

-- `parse_domain` gives the ICANN domain, empty where there is none, and the top level domains of a name
-- that is Listed.
pub record Environment : Type 0 where
  pub is_production : Bool
  pub parse_url : String → Option Url
  pub parse_domain : String → Option (String × List String)
  pub json_parse : String → Parsed

-- RequestHostAppLookup; none where the lookup throws.
pub record RequestHostAppLookup : Type 0 where
  pub get_app_info_by_host : String → Option AppCache
  pub get_app_host_names : String → Option (List String)
