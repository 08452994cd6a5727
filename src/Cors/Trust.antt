-- ===== src/Cors/Trust.antt =====
-- evaluateOrigin of src/cors.ts in production: exactly which origins are trusted, and why.
use mathlib.Core.Path.{subst}
use mathlib.Core.Bool.{and-eq-true_iff}
use lodestar_server.Prelude.{
  String, ◌≡◌, ◌↔◌, refl, sym, ap, true, false, ◌&&◌, Option, none, some, List, map, ◌==◌, eq_iff,
  eq_refl, Bool-cases, inl, inr, arith,
}
use lodestar_server.Auth.Device.Service.{AppCache, setting}
use lodestar_server.Cors.{Url, Environment, RequestHostAppLookup}
use lodestar_server.Cors.Hostname.{
  normalize_hostname, request_hostname, origin_hostname, registrable_domain, hostname_of,
}
use lodestar_server.Cors.Origin.{
  includes, is_development_exception, parse_allowed_domains, evaluate_origin, judge_origin,
  judge_hosts, judge_app, judge_domains, judge_names, is_same_site,
}

module _ (env : Environment) (lookup : RequestHostAppLookup) where
  abbrev allowed_domains : AppCache → Option (List String)
  allowed_domains app = parse_allowed_domains env (setting "cors_allowed_domains" app.settings)

  -- The three grounds on which an origin's host is trusted by a request host.
  pub data Grounds (origin_host host : String) : Type 0 where
    is_host : origin_host ≡ host → Grounds origin_host host
    is_listed :
        (app : AppCache) (domains : List String)
        → lookup.get_app_info_by_host host ≡ some app
        → allowed_domains app ≡ some domains
        → includes domains origin_host ≡ true
        → Grounds origin_host host
    is_sibling :
        (app : AppCache) (domains names : List String) (site : String)
        → lookup.get_app_info_by_host host ≡ some app
        → allowed_domains app ≡ some domains
        → registrable_domain env origin_host ≡ some site
        → registrable_domain env host ≡ some site
        → lookup.get_app_host_names app.id ≡ some names
        → includes (map normalize_hostname names) origin_host ≡ true
        → Grounds origin_host host

  same_site-sites :
      (a b : Option String)
      → is_same_site env lookup a b ≡ true
      → (s : String) × (a ≡ some s) × (b ≡ some s)
  same_site-sites none b h = cc
  same_site-sites (some s) none h = cc
  same_site-sites (some s) (some t) h = (s, refl, ap some (sym ((eq_iff s t).0 h)))

  module _ (origin_host host : String) where
    names-Grounds :
        (app : AppCache) (domains : List String) (site : String) (found : Option (List String))
        → lookup.get_app_info_by_host host ≡ some app
        → allowed_domains app ≡ some domains
        → registrable_domain env origin_host ≡ some site
        → registrable_domain env host ≡ some site
        → lookup.get_app_host_names app.id ≡ found
        → (judge_names env lookup origin_host found).trusted ≡ true
        → Grounds origin_host host
    names-Grounds app domains site none at allowed so sh e h = cc
    names-Grounds app domains site (some names) at allowed so sh e h =
        is_sibling app domains names site at allowed so sh e (ground arith)

    domains-Grounds :
        (app : AppCache) (found : Option (List String))
        → lookup.get_app_info_by_host host ≡ some app
        → allowed_domains app ≡ found
        → (judge_domains env lookup origin_host host app found).trusted ≡ true
        → Grounds origin_host host
    domains-Grounds app none at allowed h = cc
    domains-Grounds app (some domains) at allowed h =
        elim (Bool-cases (includes domains origin_host)) [
          | inl listed ↦ is_listed app domains at allowed listed
          | inr unlisted ↦
              elim (Bool-cases (
                is_same_site env lookup (registrable_domain env origin_host)
                  (registrable_domain env host))) [
                    | inl same ↦
                        (let (site, so, sh) = same_site-sites _ _ same in
                          names-Grounds app domains site _ at allowed so sh refl
                            (rw (unlisted, same) at h))
                    | inr apart ↦ (let judged : false ≡ true = rw (unlisted, apart) at h in cc)
                  ]
        ]

    app-Grounds :
        (found : Option AppCache)
        → lookup.get_app_info_by_host host ≡ found
        → (judge_app env lookup origin_host host found).trusted ≡ true
        → Grounds origin_host host
    app-Grounds none at h = cc
    app-Grounds (some app) at h = domains-Grounds app _ at refl h

    module _ (production : env.is_production ≡ true) where
      no_exception : (h : Option String) → is_development_exception env origin_host h ≡ false
      unfolding is_development_exception
      no_exception h = rw production refl

      hosts-Grounds :
          (judge_hosts env lookup origin_host (some host)).trusted ≡ true → Grounds origin_host host
      hosts-Grounds h = elim (Bool-cases (origin_host == host)) [
        | inl same ↦ is_host ((eq_iff origin_host host).0 same)
        | inr differ ↦ app-Grounds _ refl (rw (no_exception (some host), differ) at h)
      ]

      trusted_of_app :
          (judge_app env lookup origin_host host (lookup.get_app_info_by_host host)).trusted ≡ true
          → (judge_hosts env lookup origin_host (some host)).trusted ≡ true
      trusted_of_app h = ground (arith, no_exception (some host))

      trusted_of_Grounds :
          Grounds origin_host host → (judge_hosts env lookup origin_host (some host)).trusted ≡ true
      trusted_of_Grounds (is_host same) =
          ground (arith, no_exception (some host), (eq_iff origin_host host).1 same)
      trusted_of_Grounds (is_listed app domains at allowed listed) =
          trusted_of_app (rw (at, allowed, listed) refl)
      trusted_of_Grounds (is_sibling app domains names site at allowed so sh named listed) =
          trusted_of_app (rw (at, allowed, so, sh, named) (ground (arith, listed, eq_refl site)))

      untrusted_of_no_host : (judge_hosts env lookup origin_host none).trusted ≡ false
      untrusted_of_no_host = rw (no_exception none) refl

  origin_hostname_of_none : origin_hostname env none ≡ none
  unfolding origin_hostname
  origin_hostname_of_none = refl

  origin_hostname_of_empty :
      (origin : String) → (origin == "") ≡ true → origin_hostname env (some origin) ≡ none
  unfolding origin_hostname
  origin_hostname_of_empty origin e = rw e refl

  abbrev HasGrounds : Option String → Option String → Type 0
  HasGrounds found parsed =
      (origin_host : String) × (host : String) × (found ≡ some origin_host)
      × (parsed ≡ some host)
      × Grounds origin_host host

  judge_origin_iff :
      env.is_production ≡ true
      → (found raw_host parsed : Option String) → request_hostname raw_host ≡ parsed
      → ((judge_origin env lookup found raw_host).trusted ≡ true) ↔ HasGrounds found parsed
  judge_origin_iff production none raw_host parsed at = (λ h. cc, λ (o, h, e, f, g). cc)
  judge_origin_iff production (some o) raw_host none at =
      rw at (λ t. cc (untrusted_of_no_host o o production), λ (o', h', e, f, g). cc)
  judge_origin_iff production (some o) raw_host (some h) at = rw at (
    λ t. (o, h, refl, refl, hosts-Grounds o h production t),
    λ (o', h', e, f, g).
        let same_origin : o' ≡ o = cc in
        let same : h' ≡ h = cc in
        trusted_of_Grounds o h production
          (subst (λ x. Grounds o x) same (subst (λ x. Grounds x h') same_origin g)),
  )

  -- In production an origin is trusted exactly where it has an accepted host name, the request has a
  -- plain one, and they are the same, or the request host's app lists the origin's host, or the origin's
  -- host is a host of that app on the same registrable domain; a lookup that fails grants nothing.
  pub evaluate_origin_trusted_iff :
      env.is_production ≡ true
      → (origin raw_host : Option String)
      → ((evaluate_origin env lookup origin raw_host).trusted ≡ true) ↔ (
          (origin_host : String) × (host : String) × (origin_hostname env origin ≡ some origin_host)
          × (request_hostname raw_host ≡ some host)
          × Grounds origin_host host)
  unfolding evaluate_origin
  evaluate_origin_trusted_iff production none raw_host =
      (λ h. cc, λ (o, h, e, f, g). cc origin_hostname_of_none)
  evaluate_origin_trusted_iff production (some origin) raw_host = elim (Bool-cases (origin == "")) [
    | inl empty ↦ (
      λ h. (let judged : false ≡ true = rw empty at h in cc),
      λ (o, h, e, f, g). cc (origin_hostname_of_empty origin empty),
    )
    | inr given ↦
        rw (evaluate_origin, given)
          (judge_origin_iff production (origin_hostname env (some origin)) raw_host _ refl)
  ]

  hostname_of-secure :
      (found : Option Url) (o : String)
      → env.is_production ≡ true
      → hostname_of env found ≡ some o
      → (url : Url) × (found ≡ some url) × (url.protocol ≡ "https:") × (url.port ≡ "")
  hostname_of-secure none o production h = cc
  hostname_of-secure (some url) o production h =
      elim (Bool-cases (url.protocol == "https:" && url.port == "")) [
        | inl secure ↦
            (let (https, default) = (and-eq-true_iff _ _).0 secure in
              (url, refl, (eq_iff url.protocol "https:").0 https, (eq_iff url.port "").0 default))
        | inr not_secure ↦ (let gone : none ≡ some o = rw (production, not_secure) at h in cc)
      ]

  -- An origin that production trusts is a URL of https on the default port.
  trusted-secure :
      env.is_production ≡ true
      → (origin : String) (raw_host : Option String)
      → (evaluate_origin env lookup (some origin) raw_host).trusted ≡ true
      → (url : Url) × (env.parse_url origin ≡ some url)
        × (url.protocol ≡ "https:")
        × (url.port ≡ "")
  unfolding origin_hostname
  trusted-secure production origin raw_host h =
      let (o, host, accepted, rest, grounds) =
        (evaluate_origin_trusted_iff production (some origin) raw_host).0 h in
      hostname_of-secure (env.parse_url origin) o production (elim (Bool-cases (origin == "")) [
        | inl empty ↦ cc (origin_hostname_of_empty origin empty)
        | inr given ↦ rw (origin_hostname, given) at accepted
      ])
