-- ===== src/Cors/Guard.antt =====
-- src/auth/same-site.guard.ts: the guard of the session endpoints.
use Prim.Native.Char.{Char, code}
use Prim.Native.String.{[], ◌∷◌, ◌++◌}
use lodestar_server.Prelude.{
  or_blank, String, Bool, true, false, not, Option, none, some, List, map, select, ◌==◌, eqb,
  if◌then◌else◌,
}
use lodestar_server.Prelude.Ascii.{trim, to_lower_case}
use lodestar_server.Cors.{Environment, RequestHostAppLookup}
use lodestar_server.Cors.Origin.{includes, evaluate_origin}

-- A header's value: `string | string[] | undefined`.
pub data HeaderValue : Type 0 where
  missing : HeaderValue
  single : String → HeaderValue
  many : List String → HeaderValue

abbrev pub RequestHeaders : Type 0
RequestHeaders = String → HeaderValue

abbrev pub safe_methods : List String
safe_methods = List.◌∷◌ "GET" (List.◌∷◌ "HEAD" (List.◌∷◌ "OPTIONS" List.[]))

-- `value.join(', ')`
abbrev pub join_commas : List String → String
join_commas List.[] = ""
join_commas (List.◌∷◌ s List.[]) = s
join_commas (List.◌∷◌ s ss) = s ++ (", " ++ join_commas ss)

abbrev pub value_of : HeaderValue → Option String
value_of missing = none
value_of (single s) = some s
value_of (many ss) = some (join_commas ss)

unfoldable pub header_value : RequestHeaders → String → Option String
header_value headers name = value_of (headers name)

abbrev pub push_char : Char → List String → List String
push_char c List.[] = List.◌∷◌ (c ∷ []) List.[]
push_char c (List.◌∷◌ s ss) = List.◌∷◌ (c ∷ s) ss

-- `text.split(',')`
unfoldable pub split_commas : String → List String
split_commas [] = List.◌∷◌ [] List.[]
split_commas (c ∷ s) =
    let rest = split_commas s in if eqb (code c) 44 then List.◌∷◌ [] rest else push_char c rest

unfoldable pub fetch_site_values : RequestHeaders → List String
unfolding header_value split_commas trim to_lower_case
fetch_site_values headers =
    select (λ value. not (value == ""))
      (map (λ value. to_lower_case (trim value))
        (split_commas (or_blank (header_value headers "sec-fetch-site"))))

pub data Answer : Type 0 where
  accepted : Answer
  cross_site_rejected : Answer

module _ (env : Environment) (lookup : RequestHostAppLookup) where
  unfoldable pub is_cross_site_request : RequestHeaders → Bool
  unfolding fetch_site_values header_value
  is_cross_site_request headers =
      if includes (fetch_site_values headers) "cross-site"
      then true
      else elim (header_value headers "origin") [
        | none ↦ false
        | some origin ↦
            not (evaluate_origin env lookup (some origin) (header_value headers "host")).trusted
      ]

  -- SameSiteRequestGuard.canActivate; the rejection is the exception of status 403.
  unfoldable pub can_activate : String → RequestHeaders → Answer
  unfolding is_cross_site_request
  can_activate method headers =
      if includes safe_methods method
      then accepted
      else if not (is_cross_site_request headers)
      then accepted
      else cross_site_rejected
