-- ===== src/Auth/Directory.antt =====
-- The tables that sign-in reads: members, their metadata and properties, the properties that sign-up
-- requires, and the hosts of the apps; with the queries of src/member/member.infra.ts.
use lodestar_server.Prelude.{
  String, Bool, ◌&&◌, ◌||◌, Option, none, some, List, map, ◌==◌, select, any, find_first,
}

pub record Member : Type 0 where
  pub id : String
  pub app_id : String
  pub email : String
  pub username : String
  pub name : String
  pub role : String
  pub passhash : Option String
  pub is_business : Bool

-- What getLoginMemberMetadata aggregates; the accounts of other providers are one text.
pub record LoginMemberMetadata : Type 0 where
  pub phones : List String
  pub oauths : String
  pub permissions : List String

pub record MemberProperty : Type 0 where
  pub id : String
  pub member_id : String
  pub property_id : String
  pub value : String

pub record SignupProperty : Type 0 where
  pub app_id : String
  pub property_id : String
  pub is_required : Bool

pub record Directory : Type 0 where
  pub members : List Member
  pub metadata : String → List LoginMemberMetadata
  pub member_properties : List MemberProperty
  pub signup_properties : List SignupProperty
  pub app_hosts : List (String × String)
  pub member_permissions : List (String × String)

-- MemberInfrastructure.getById
unfoldable pub get_by_id : String → String → Directory → Option Member
get_by_id app_id member_id dir =
    find_first (λ m. m.app_id == app_id && m.id == member_id) dir.members

-- MemberInfrastructure.getGeneralLoginMemberByUsernameOrEmail
unfoldable pub get_general_login_member : String → String → Directory → Option Member
get_general_login_member app_id account dir =
    find_first (λ m. m.app_id == app_id && (m.username == account || m.email == account))
      dir.members

-- MemberInfrastructure.getMemberPropertiesByIds: the ids are compared with the ids of the rows.
unfoldable pub get_member_properties_by_ids : String → List String → Directory → List MemberProperty
get_member_properties_by_ids member_id ids dir =
    select (λ p. any (λ i. i == p.id) ids && p.member_id == member_id) dir.member_properties

-- AuthService.getSignUpPropertyIds
unfoldable pub get_sign_up_property_ids : String → Directory → List String
get_sign_up_property_ids app_id dir =
    map (λ s. s.property_id)
      (select (λ s. s.is_required) (select (λ s. s.app_id == app_id) dir.signup_properties))

-- AppService.getFirstMatchedAppHost
unfoldable pub get_first_matched_app_host : String → Directory → Option String
get_first_matched_app_host app_id dir = elim (find_first (λ h. h.0 == app_id) dir.app_hosts) [
  | none ↦ none
  | some h ↦ some h.1
]
