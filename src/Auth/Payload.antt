-- ===== src/Auth/Payload.antt =====
-- The token's payload in src/auth/auth.service.ts: buildJwtPayload, checkUndoneSignUpProperty and signJWT.
-- The signature is a parameter of what uses the claim.
use lodestar_server.Prelude.{
  or_blank, String, ◌≡◌, refl, sym, ap, ◌∙◌, Bool, true, false, ◌&&◌, ◌||◌, not, Option, none, some,
  List, [], ◌∷◌, ◌++◌, ◌==◌, eqb, if◌then◌else◌, select, any, length, All, Bool-cases, inl, inr,
  arith, eq_iff, ◌≢◌,
}
use lodestar_server.Auth.Device.Service.{AppCache}
use lodestar_server.Auth.Directory.{
  Member, LoginMemberMetadata, MemberProperty, Directory, get_member_properties_by_ids,
  get_sign_up_property_ids,
}

pub record PublicMember : Type 0 where
  pub org_id : Option String
  pub id : String
  pub app_id : String
  pub email : String
  pub username : String
  pub name : String
  pub is_business : Bool

pub record JwtDto : Type 0 where
  pub sub : String
  pub app_id : String
  pub role : String
  pub permissions : List String
  pub org_id : String
  pub member_id : String
  pub name : String
  pub username : String
  pub email : String
  pub phone_number : String
  pub is_business : Bool
  pub logged_in_members : List PublicMember
  pub options : String

-- Array.prototype.pop, what it gives.
abbrev pub last {ℓ} : {A : Type ℓ} → List A → Option A
last [] = none
last (x ∷ []) = some x
last (x ∷ y ∷ ys) = last (y ∷ ys)

-- The picture is left out.
abbrev pub public_member : Option String → Member → PublicMember
public_member org_id m = record {
  org_id = some (or_blank org_id);
  id = m.id;
  app_id = m.app_id;
  email = m.email;
  username = m.username;
  name = m.name;
  is_business = m.is_business;
}

abbrev pub payload_of : Option String → Member → List PublicMember → LoginMemberMetadata → JwtDto
payload_of org_id m logged_in metadata = record {
  sub = m.id;
  app_id = m.app_id;
  role = m.role;
  permissions = metadata.permissions;
  org_id = or_blank org_id;
  member_id = m.id;
  name = m.name;
  username = m.username;
  email = m.email;
  phone_number = or_blank (last metadata.phones);
  is_business = m.is_business;
  logged_in_members = select (λ p. not (p.id == m.id)) logged_in ++ (public_member org_id m ∷ []);
  options = metadata.oauths;
}

-- AuthService.buildJwtPayload; without a row of metadata the destructuring throws.
unfoldable pub build_jwt_payload :
    Option String → Member → List PublicMember → Directory → Option JwtDto
build_jwt_payload org_id m logged_in dir = elim (last (dir.metadata m.id)) [
  | none ↦ none
  | some metadata ↦ some (payload_of org_id m logged_in metadata)
]

-- AuthService.checkUndoneSignUpProperty
unfoldable pub check_undone_sign_up_property : String → String → Directory → Bool
check_undone_sign_up_property app_id member_id dir =
    let required = get_sign_up_property_ids app_id dir in
    let answered = get_member_properties_by_ids member_id required dir in
    if any (λ p. p.value == "") answered
    then false
    else if not (eqb (length required) (length answered))
    then false
    else true

abbrev pub has : List String → String → Bool
has ps p = any (λ q. q == p) ps

abbrev pub add_permission : String → List String → List String
add_permission p ps = if has ps p then ps else ps ++ (p ∷ [])

-- The loop over the default permissions.
unfoldable pub add_default_permissions : List String → List String → List String
add_default_permissions [] ps = ps
add_default_permissions (d ∷ ds) ps = add_default_permissions ds (add_permission d ps)

pub record Claim : Type 0 where
  pub payload : JwtDto
  pub is_finished_sign_up_property : Bool
  pub allowed_roles : List String
  pub default_role : String
  pub user_id : String
  pub app_id : String
  pub org_id : String

-- AuthService.signJWT, the claim that it signs.
unfoldable pub claim_of : AppCache → JwtDto → Directory → Claim
unfolding add_default_permissions check_undone_sign_up_property
claim_of app p dir = record {
  payload = record p {
    permissions = add_default_permissions app.default_permissions p.permissions;
  };
  is_finished_sign_up_property =
      if p.member_id == "" then true else check_undone_sign_up_property p.app_id p.member_id dir;
  allowed_roles = p.role ∷ [];
  default_role = p.role;
  user_id = p.sub;
  app_id = p.app_id;
  org_id = p.org_id;
}

has-append : (ps qs : List String) (q : String) → has (ps ++ qs) q ≡ (has ps q || has qs q)
has-append [] qs q = refl
has-append (p ∷ ps) qs q = ground (arith, has-append ps qs q)

has-add_permission :
    (p : String) (ps : List String) (q : String)
    → has (add_permission p ps) q ≡ (p == q || has ps q)
has-add_permission p ps q = elim (Bool-cases (p == q)) [
  | inl same ↦ elim (Bool-cases (has ps p)) [
    | inl t ↦ rw (t, same) (ap (has ps) (sym ((eq_iff p q).0 same)) ∙ t)
    | inr f ↦ rw f (has-append ps (p ∷ []) q ∙ ground (arith, same))
  ]
  | inr differ ↦ elim (Bool-cases (has ps p)) [
    | inl t ↦ rw (t, differ) refl
    | inr f ↦ rw f (has-append ps (p ∷ []) q ∙ ground (arith, differ))
  ]
]

-- The token's permissions are the member's and the defaults of the app, and no others.
has-add_default_permissions :
    (ds ps : List String) (q : String)
    → has (add_default_permissions ds ps) q ≡ (has ds q || has ps q)
unfolding add_default_permissions
has-add_default_permissions [] ps q = refl
has-add_default_permissions (d ∷ ds) ps q =
    ground
      (arith, has-add_default_permissions ds (add_permission d ps) q, has-add_permission d ps q)

-- No id of a row of member_property is the id of a property that the app requires.
abbrev pub HasOwnIds : String → Directory → Type 0
HasOwnIds app_id dir =
    All (λ p. any (λ i. i == p.id) (get_sign_up_property_ids app_id dir) ≡ false)
      dir.member_properties

select_member_none :
    (member_id : String) (ids : List String) (ps : List MemberProperty)
    → All (λ p. any (λ i. i == p.id) ids ≡ false) ps
    → select (λ p. any (λ i. i == p.id) ids && p.member_id == member_id) ps ≡ []
select_member_none member_id ids [] h = refl
select_member_none member_id ids (p ∷ ps) (e, h) = rw e (select_member_none member_id ids ps h)

unanswered :
    (ids : List String) → ids ≢ [] → (if not (eqb (length ids) 0) then false else true) ≡ false
unanswered [] given = absurd (given refl)
unanswered (i ∷ ids) given = ground arith

-- The answers are looked up by the ids of their rows: where those are no ids of properties, every member
-- of an app that requires a property is reported as not finished, whatever the member answered.
pub check_undone-eq-false :
    (app_id member_id : String) (dir : Directory)
    → HasOwnIds app_id dir
    → get_sign_up_property_ids app_id dir ≢ []
    → check_undone_sign_up_property app_id member_id dir ≡ false
unfolding check_undone_sign_up_property get_member_properties_by_ids
check_undone-eq-false app_id member_id dir own required =
    rw
      (select_member_none member_id (get_sign_up_property_ids app_id dir) dir.member_properties own)
      (unanswered (get_sign_up_property_ids app_id dir) required)
