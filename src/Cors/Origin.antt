-- ===== src/Cors/Origin.antt =====
-- src/cors.ts, second part: the verdict on an origin, and the answer to the CORS middleware.
use Prim.Native.Char.{code}
use Prim.Native.String.{[], ◌∷◌}
use lodestar_server.Prelude.{
  String, Bool, true, false, ◌&&◌, ◌||◌, not, Option, none, some, List, map, any, ◌==◌, eqb,
  if◌then◌else◌,
}
use lodestar_server.Auth.Device.Service.{AppCache, setting}
use lodestar_server.Cors.{
  Item, text, no_text, Parsed, malformed, array, no_array, Environment, RequestHostAppLookup,
}
use lodestar_server.Cors.Hostname.{
  normalize_hostname, request_hostname, origin_hostname, registrable_domain,
}

pub data OriginTrust : Type 0 where
  same_host app_host allowed_domain development no_origin invalid_origin invalid_host other
        lookup_failed :
      OriginTrust

pub record Verdict : Type 0 where
  pub trusted : Bool
  pub reason : OriginTrust

-- String.prototype.startsWith and includes.
starts_with : String → String → Bool
starts_with [] s = true
starts_with (c ∷ p) [] = false
starts_with (c ∷ p) (d ∷ s) = eqb (code c) (code d) && starts_with p s

includes_text : String → String → Bool
includes_text p [] = starts_with p []
includes_text p (c ∷ s) = starts_with p (c ∷ s) || includes_text p s

abbrev is_local_host : Option String → Bool
is_local_host none = false
is_local_host (some host) = starts_with "localhost" host

-- `value || '[]'`
abbrev or_empty_array : Option String → String
or_empty_array none = "[]"
or_empty_array (some value) = if value == "" then "[]" else value

abbrev pub texts_of : List Item → List String
texts_of List.[] = List.[]
texts_of (List.◌∷◌ (text s) items) = List.◌∷◌ s (texts_of items)
texts_of (List.◌∷◌ no_text items) = texts_of items

-- `Array.isArray(parsed) ? … : []`; none where JSON.parse throws.
abbrev domains_in : Parsed → Option (List String)
domains_in malformed = none
domains_in no_array = some List.[]
domains_in (array items) = some (map normalize_hostname (texts_of items))

abbrev pub includes : List String → String → Bool
includes list item = any (λ x. x == item) list

module _ (env : Environment) where
  unfoldable pub is_development_exception : String → Option String → Bool
  unfolding starts_with includes_text
  is_development_exception origin_host host =
      if env.is_production
      then false
      else origin_host == "localhost" || includes_text "ngrok" origin_host || is_local_host host

  unfoldable pub parse_allowed_domains : Option String → Option (List String)
  parse_allowed_domains value = domains_in (env.json_parse (or_empty_array value))

  abbrev pub failed : Verdict
  failed = record { trusted = false; reason = lookup_failed }

  abbrev unrelated : Verdict
  unrelated = record { trusted = false; reason = other }

  module _ (lookup : RequestHostAppLookup) where
    abbrev pub judge_names : String → Option (List String) → Verdict
    judge_names origin_host none = failed
    judge_names origin_host (some names) =
        if includes (map normalize_hostname names) origin_host
        then record { trusted = true; reason = app_host }
        else unrelated

    -- `originSite === undefined || originSite !== registrableDomain(host)`
    abbrev pub is_same_site : Option String → Option String → Bool
    is_same_site none site = false
    is_same_site (some s) none = false
    is_same_site (some s) (some t) = s == t

    abbrev pub judge_domains : String → String → AppCache → Option (List String) → Verdict
    judge_domains origin_host host app none = failed
    judge_domains origin_host host app (some domains) =
        if includes domains origin_host
        then record { trusted = true; reason = allowed_domain }
        else if not
            (is_same_site (registrable_domain env origin_host) (registrable_domain env host))
        then unrelated
        else judge_names origin_host (lookup.get_app_host_names app.id)

    abbrev pub judge_app : String → String → Option AppCache → Verdict
    judge_app origin_host host none = failed
    judge_app origin_host host (some app) =
        judge_domains origin_host host app
          (parse_allowed_domains (setting "cors_allowed_domains" app.settings))

    abbrev pub judge_hosts : String → Option String → Verdict
    judge_hosts origin_host none =
        if is_development_exception origin_host none
        then record { trusted = true; reason = development }
        else record { trusted = false; reason = invalid_host }
    judge_hosts origin_host (some host) =
        if is_development_exception origin_host (some host)
        then record { trusted = true; reason = development }
        else if origin_host == host
        then record { trusted = true; reason = same_host }
        else judge_app origin_host host (lookup.get_app_info_by_host host)

    abbrev pub judge_origin : Option String → Option String → Verdict
    judge_origin none raw_host = record { trusted = false; reason = invalid_origin }
    judge_origin (some origin_host) raw_host = judge_hosts origin_host (request_hostname raw_host)

    -- evaluateOrigin
    unfoldable pub evaluate_origin : Option String → Option String → Verdict
    unfolding is_development_exception parse_allowed_domains
    evaluate_origin none raw_host = record { trusted = false; reason = no_origin }
    evaluate_origin (some origin) raw_host =
        if origin == ""
        then record { trusted = false; reason = no_origin }
        else judge_origin (origin_hostname env (some origin)) raw_host

    -- describeOriginSite and describeRequestHost, for the log.
    abbrev pub or_invalid : Option String → String
    or_invalid none = "invalid"
    or_invalid (some s) = s

    unfoldable pub describe_origin_site : Option String → String
    describe_origin_site none = "-"
    describe_origin_site (some origin) =
        if origin == "null" then "null" else elim (env.parse_url origin) [
          | none ↦ "invalid"
          | some url ↦ or_invalid (registrable_domain env (normalize_hostname url.hostname))
        ]

    unfoldable pub describe_request_host : Option String → String
    describe_request_host raw_host = or_invalid (request_hostname raw_host)

    abbrev pub is_given : Option String → Bool
    is_given none = false
    is_given (some s) = not (s == "")

    -- evaluateCors, whose answer sets `credentials` and `origin` alike.
    unfoldable pub evaluate_cors : Option String → Option String → Bool
    unfolding evaluate_origin
    evaluate_cors origin raw_host =
        if not (is_given raw_host) || not (is_given origin)
        then false
        else (evaluate_origin origin raw_host).trusted
