-- ===== src/Cors/SameSite.antt =====
-- src/auth/same-site.guard.ts: which requests reach the session endpoints, and how that agrees with CORS.
use lodestar_server.Prelude.{
  String, ◌≡◌, ◌≢◌, ◌↔◌, ◌⊎◌, refl, sym, ◌∙◌, true, false, not, none, some, eq_iff, Bool-cases,
  Option-cases, inl, inr, arith,
}
use lodestar_server.Cors.{Environment, RequestHostAppLookup}
use lodestar_server.Cors.Origin.{includes, evaluate_origin, evaluate_cors}
use lodestar_server.Cors.Marked.{IsMarked, fetch_site_values_iff}
use lodestar_server.Cors.Guard.{
  RequestHeaders, safe_methods, header_value, fetch_site_values, accepted, cross_site_rejected,
  is_cross_site_request, can_activate,
}

module _ (env : Environment) (lookup : RequestHostAppLookup) (method : String)
    (headers : RequestHeaders) where
  -- A request that is not marked cross-site and has no Origin, or a trusted one.
  abbrev FromTrusted : Type 0
  FromTrusted =
      (includes (fetch_site_values headers) "cross-site" ≡ false)
      × ((header_value headers "origin" ≡ none)
          ⊎ ((origin : String) × (header_value headers "origin" ≡ some origin)
              × ((evaluate_origin env lookup (some origin) (header_value headers "host")).trusted
                  ≡ true)))

  cross_site_of_origin :
      (origin : String)
      → includes (fetch_site_values headers) "cross-site" ≡ false
      → header_value headers "origin" ≡ some origin
      → is_cross_site_request env lookup headers
        ≡ not (evaluate_origin env lookup (some origin) (header_value headers "host")).trusted
  unfolding is_cross_site_request
  cross_site_of_origin origin unmarked sent = rw (is_cross_site_request, unmarked, sent) refl

  cross_site_of_none :
      includes (fetch_site_values headers) "cross-site" ≡ false
      → header_value headers "origin" ≡ none
      → is_cross_site_request env lookup headers ≡ false
  unfolding is_cross_site_request
  cross_site_of_none unmarked absent = rw (is_cross_site_request, unmarked, absent) refl

  cross_site_of_marked :
      includes (fetch_site_values headers) "cross-site" ≡ true
      → is_cross_site_request env lookup headers ≡ true
  unfolding is_cross_site_request
  cross_site_of_marked marked = rw (is_cross_site_request, marked) refl

  same_site_iff : (is_cross_site_request env lookup headers ≡ false) ↔ FromTrusted
  same_site_iff = elim (Bool-cases (includes (fetch_site_values headers) "cross-site")) [
    | inl marked ↦ (λ h. cc (cross_site_of_marked marked), λ (unmarked, rest). cc)
    | inr unmarked ↦ elim (Option-cases (header_value headers "origin")) [
      | inl absent ↦ (λ h. (unmarked, inl absent), λ h. cross_site_of_none unmarked absent)
      | inr (origin, sent) ↦ (
        λ h. (
          unmarked,
          inr (origin, sent, ground (arith, cross_site_of_origin origin unmarked sent)),
        ),
        λ (unmarked, how). elim how [
          | inl absent ↦ cc
          | inr (origin', sent', trusted) ↦
              cross_site_of_origin origin' unmarked sent' ∙ rw trusted refl
        ],
      )
    ]
  ]

  -- What the guard asks of a request that changes state.
  abbrev pub IsAllowed : Type 0
  IsAllowed =
      (IsMarked headers → ⊥)
      × ((header_value headers "origin" ≡ none)
          ⊎ ((origin : String) × (header_value headers "origin" ≡ some origin)
              × ((evaluate_origin env lookup (some origin) (header_value headers "host")).trusted
                  ≡ true)))

  allowed_iff : FromTrusted ↔ IsAllowed
  allowed_iff = elim (Bool-cases (includes (fetch_site_values headers) "cross-site")) [
    | inl marked ↦ (
      λ (unmarked, rest). cc,
      λ (unmarked, rest). absurd (unmarked ((fetch_site_values_iff headers).0 marked)),
    )
    | inr unmarked ↦ (
      λ (_, rest). (λ is. cc (unmarked, (fetch_site_values_iff headers).1 is), rest),
      λ (_, rest). (unmarked, rest),
    )
  ]

  safe_iff :
      (includes safe_methods method ≡ true)
      ↔ ((method ≡ "GET") ⊎ ((method ≡ "HEAD") ⊎ (method ≡ "OPTIONS")))
  safe_iff = ground (arith, eq_iff "GET" method, eq_iff "HEAD" method, eq_iff "OPTIONS" method)

  -- The guard accepts exactly the GET, HEAD and OPTIONS requests, and those that have no Origin or one that
  -- is trusted for the request's host, and of whose Sec-Fetch-Site header no part between commas is
  -- cross-site, in any case and with blanks around it.
  pub can_activate_iff :
      (can_activate env lookup method headers ≡ accepted)
      ↔ (((method ≡ "GET") ⊎ ((method ≡ "HEAD") ⊎ (method ≡ "OPTIONS"))) ⊎ IsAllowed)
  unfolding can_activate
  can_activate_iff = elim (Bool-cases (includes safe_methods method)) [
    | inl safe ↦ (λ h. inl (safe_iff.0 safe), λ h. rw (can_activate, safe) refl)
    | inr unsafe ↦ elim (Bool-cases (is_cross_site_request env lookup headers)) [
      | inl cross ↦ (
        λ h.
            (let answer : cross_site_rejected ≡ accepted = rw (can_activate, unsafe, cross) at h in
              cc),
        λ how. elim how [
          | inl safe ↦ cc (unsafe, safe_iff.1 safe)
          | inr from ↦ cc (same_site_iff.1 (allowed_iff.1 from))
        ],
      )
      | inr same ↦ (
        λ h. inr (allowed_iff.0 (same_site_iff.0 same)),
        λ h. rw (can_activate, unsafe, same) refl,
      )
    ]
  ]

  -- A state-changing request that is not marked cross-site and names a host and an origin passes the
  -- guard exactly where CORS grants that origin credentials.
  pub can_activate-evaluate_cors_iff :
      (origin host : String)
      → includes safe_methods method ≡ false
      → includes (fetch_site_values headers) "cross-site" ≡ false
      → header_value headers "origin" ≡ some origin
      → header_value headers "host" ≡ some host
      → origin ≢ ""
      → host ≢ ""
      → (can_activate env lookup method headers ≡ accepted) ↔ (
          evaluate_cors env lookup (header_value headers "origin") (header_value headers "host")
          ≡ true)
  unfolding evaluate_cors can_activate
  can_activate-evaluate_cors_iff origin host unsafe unmarked sent named given plain =
      let judged = cross_site_of_origin origin unmarked sent in
      let granted : evaluate_cors env lookup (header_value headers "origin")
            (header_value headers "host")
          ≡ (evaluate_origin env lookup (some origin) (header_value headers "host")).trusted =
        rw (sent, named) (ground (arith, eq_iff origin "", eq_iff host "")) in
      elim (Bool-cases
        (evaluate_origin env lookup (some origin) (header_value headers "host")).trusted) [
          | inl trusted ↦
              (λ _. granted ∙ trusted, λ _. rw (can_activate, unsafe, judged, trusted) refl)
          | inr untrusted ↦ (
            λ h.
                (let answer : cross_site_rejected ≡ accepted =
                    rw (can_activate, unsafe, judged, untrusted) at h in
                  cc),
            λ h. cc (sym h ∙ granted ∙ untrusted),
          )
        ]
