-- ===== src/Auth/Device.antt =====
-- src/auth/device, and the queries of src/member/member.infra.ts that it makes: the table of member devices.
-- The table is the list of its rows. Times are numbers. A query is the function on rows that its condition
-- says; `new_id` and `now` are what the database and the clock give.
pub mod Service
pub mod Rows
pub mod Bind
pub mod Sort
pub mod Logout
use lodestar_server.Prelude.{
  ℕ, String, Bool, true, false, ◌&&◌, Option, none, some, List, [], ◌∷◌, map, ◌==◌, if◌then◌else◌,
  select, any, find_first,
}

-- The columns that a sign-in writes from the user agent and the request.
pub record Details : Type 0 where
  pub browser : Option String
  pub os_name : Option String
  pub ip_address : Option String
  pub device_type : String
  pub user_agent : String

pub record MemberDevice : Type 0 where
  pub id : String
  pub member_id : String
  pub fingerprint_id : String
  pub is_login : Bool
  pub created_at : ℕ
  pub last_login_at : ℕ
  pub details : Details

abbrev pub Table : Type 0
Table = List MemberDevice

abbrev pub of_member : String → MemberDevice → Bool
of_member member_id d = d.member_id == member_id

-- The condition of `findOneBy({ memberId, fingerprintId })`.
abbrev pub is_device : String → String → MemberDevice → Bool
is_device member_id fingerprint_id d =
    d.member_id == member_id && d.fingerprint_id == fingerprint_id

-- MemberInfrastructure.getMemberDevices
unfoldable pub get_member_devices : String → Table → List MemberDevice
get_member_devices member_id table = select (of_member member_id) table

abbrev pub signed_in : Details → ℕ → MemberDevice → MemberDevice
signed_in details now d = record d { is_login = true; last_login_at = now; details = details }

-- MemberInfrastructure.upsertMemberDevice: the row of the device, or a new one, is signed in.
unfoldable pub upsert_member_device : String → String → Details → ℕ → String → Table → Table
upsert_member_device member_id fingerprint_id details now new_id [] =
    record {
      id = new_id;
      member_id = member_id;
      fingerprint_id = fingerprint_id;
      is_login = true;
      created_at = now;
      last_login_at = now;
      details = details;
    }
    ∷ []
upsert_member_device member_id fingerprint_id details now new_id (d ∷ ds) =
    let rest = upsert_member_device member_id fingerprint_id details now new_id ds in
    if is_device member_id fingerprint_id d then signed_in details now d ∷ ds else d ∷ rest

-- DeviceInfrastructure.logoutMemberDevices: `IN ()` is no SQL, so an empty list of ids fails.
abbrev pub logged_out : List String → MemberDevice → MemberDevice
logged_out ids d = if any (λ i. i == d.id) ids then record d { is_login = false } else d

unfoldable pub logout_member_devices : List String → Table → Option Table
logout_member_devices [] table = none
logout_member_devices (i ∷ ids) table = some (map (logged_out (i ∷ ids)) table)

-- DeviceInfrastructure.deleteMemberDeviceById
unfoldable pub delete_member_device_by_id : String → Table → Table
delete_member_device_by_id id [] = []
delete_member_device_by_id id (d ∷ ds) =
    let rest = delete_member_device_by_id id ds in if d.id == id then rest else d ∷ rest
