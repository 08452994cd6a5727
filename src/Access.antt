-- ===== src/Access.antt =====
-- src/auth/auth.guard.ts, permission.guard.ts and access-control.service.ts: who reaches an endpoint that
-- asks for permissions. The verification of a JSON web token is a parameter.
pub mod Guarded
use Prim.Native.Char.{code}
use Prim.Native.String.{[], ◌∷◌}
use lodestar_server.Prelude.{String, Bool, Option, none, some, List, any, ◌==◌, eqb, if◌then◌else◌}

-- What a token says of the member, as far as the guards read it.
pub record Claims : Type 0 where
  pub sub : String
  pub app_id : String
  pub permissions : List String

-- `authorization.split(' ')`, its first two parts.
unfoldable pub word : String → String
word [] = []
word (c ∷ s) = let rest = word s in if eqb (code c) 32 then [] else c ∷ rest

unfoldable pub after_space : String → Option String
after_space [] = none
after_space (c ∷ s) = let rest = after_space s in if eqb (code c) 32 then some s else rest

abbrev bearer : String → Option String → Option String
bearer type none = none
bearer type (some token) = if type == "Bearer" then some (word token) else none

unfoldable pub extract_token_from_header : Option String → Option String
unfolding word after_space
extract_token_from_header none = none
extract_token_from_header (some authorization) =
    bearer (word authorization) (after_space authorization)

-- The outcome of a guard: the request goes on, with the member set, or an UnauthorizedException is thrown.
pub data Outcome : Type 0 where
  passes : Option Claims → Outcome
  unauthorized : Outcome

abbrev of_verified : Option Claims → Outcome
of_verified none = unauthorized
of_verified (some member) = passes (some member)

-- AccessControlService.isAuthorized
unfoldable pub is_authorized : List String → List String → Bool
is_authorized current required = any (λ p. any (λ q. q == p) required) current

-- PermissionGuard.canActivate; `required` is none where the handler and its class name no permissions.
unfoldable pub can_activate_permissions : Option (List String) → Option Claims → Outcome
unfolding is_authorized
can_activate_permissions none member = passes member
can_activate_permissions (some required) none = unauthorized
can_activate_permissions (some required) (some member) =
    if is_authorized member.permissions required then passes (some member) else unauthorized

module _ (verify : String → Option Claims) where
  -- AuthGuard.canActivate; an empty token is no token.
  abbrev of_token : Option String → Outcome
  of_token none = unauthorized
  of_token (some token) = if token == "" then unauthorized else of_verified (verify token)

  unfoldable pub can_activate_auth : Option String → Outcome
  unfolding extract_token_from_header
  can_activate_auth authorization = of_token (extract_token_from_header authorization)

  -- The two guards in the order that `UseGuards(AuthGuard, PermissionGuard)` runs them.
  unfoldable pub guarded : Option (List String) → Option String → Outcome
  unfolding can_activate_auth can_activate_permissions
  guarded required authorization = elim (can_activate_auth authorization) [
    | passes member ↦ can_activate_permissions required member
    | unauthorized ↦ unauthorized
  ]
