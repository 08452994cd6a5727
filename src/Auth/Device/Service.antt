-- ===== src/Auth/Device/Service.antt =====
-- DeviceService of src/auth/device/device.service.ts. The parsed user agent is an argument; a setting is a
-- text, and Number reads it as a decimal numeral or as no number.
use Prim.Native.Char.{code}
use lodestar_server.Prelude.{
  ℕ, ◌+◌, ◌-◌, ◌*◌, String, Bool, false, ◌&&◌, not, Option, none, some, List, [], ◌∷◌, map, leb,
  eqb, ◌==◌, if◌then◌else◌, select, any, find_first, length, take,
}
use lodestar_server.Auth.Device.{
  Details, MemberDevice, Table, get_member_devices, upsert_member_device, logout_member_devices,
}

-- Number of a text of digits; none (NaN) of any other.
digits : ℕ → String → Option ℕ
digits n String.[] = some n
digits n (String.◌∷◌ c s) =
    let more = digits (n * 10 + (code c - 48)) s in
    if leb 48 (code c) && leb (code c) 57 then more else none

abbrev pub or_one : Option ℕ → ℕ
or_one none = 1
or_one (some n) = if eqb n 0 then 1 else n

-- `Number(setting) || 1`
unfoldable pub number_or_one : Option String → ℕ
unfolding digits
number_or_one none = 1
number_or_one (some s) = or_one (digits 0 s)

abbrev pub setting : String → List (String × String) → Option String
setting name [] = none
setting name ((key, value) ∷ rest) = if key == name then some value else setting name rest

-- AppCache, as far as sign-in reads it.
pub record AppCache : Type 0 where
  pub id : String
  pub org_id : Option String
  pub host : String
  pub name : String
  pub settings : List (String × String)
  pub modules : List String
  pub default_permissions : List String

abbrev pub has_module : AppCache → String → Bool
has_module app name = any (λ m. m == name) app.modules

unfoldable pub login_limit : AppCache → ℕ
unfolding number_or_one
login_limit app = number_or_one (setting "login_device_num" app.settings)

unfoldable pub device_limit : AppCache → ℕ
unfolding number_or_one
device_limit app = number_or_one (setting "bind_device_num" app.settings)

pub data LoginDeviceStatus : Type 0 where
  existed available limited unsupported bind_limit_exceed login_limit_exceed : LoginDeviceStatus

abbrev pub is_role : String → Option String → Bool
is_role role none = false
is_role role (some r) = r == role

abbrev pub logged_in : MemberDevice → Bool
logged_in d = d.is_login

abbrev pub has_fingerprint : String → MemberDevice → Bool
has_fingerprint fingerprint_id d = d.fingerprint_id == fingerprint_id

-- The devices of the member, and those signed in.
abbrev pub login_devices : String → Table → List MemberDevice
login_devices member_id table = select logged_in (get_member_devices member_id table)

module _ (app : AppCache) (member_id : String) (member_role : Option String)
    (fingerprint_id : String) (details : Details) (now : ℕ) (new_id : String) where
  abbrev pub upserted : Table → Table
  upserted = upsert_member_device member_id fingerprint_id details now new_id

  unfoldable pub check_and_bind_devices : Table → LoginDeviceStatus × Table
  check_and_bind_devices table =
      let restricted = has_module app "login_restriction" in
      let managed = has_module app "device_management" in
      let devices = get_member_devices member_id table in
      let signed = login_devices member_id table in
      let is_bind = any (has_fingerprint fingerprint_id) devices in
      let is_login = any (has_fingerprint fingerprint_id) signed in
      if not restricted && not managed
      then (unsupported, table)
      else if is_role "app-owner" member_role
      then (available, upserted table)
      else if is_login
      then (existed, upserted table)
      else if leb (device_limit app) (length devices) && managed && not is_bind
      then (bind_limit_exceed, table)
      else if leb (login_limit app) (length signed) && restricted && not is_login
      then (login_limit_exceed, table)
      else (available, upserted table)

-- DeviceService.getByFingerprintId
unfoldable pub get_by_fingerprint_id : String → String → Table → Option MemberDevice
get_by_fingerprint_id member_id fingerprint_id table =
    find_first (has_fingerprint fingerprint_id) (get_member_devices member_id table)

unfoldable pub check_current_device_exist : String → String → Table → Bool
check_current_device_exist member_id fingerprint_id table =
    any (has_fingerprint fingerprint_id) (get_member_devices member_id table)

unfoldable pub get_login_devices : String → Table → List MemberDevice
get_login_devices member_id table = login_devices member_id table

unfoldable pub check_login_device_reached_limit : String → AppCache → Table → Bool
check_login_device_reached_limit member_id app table =
    leb (login_limit app) (length (login_devices member_id table))

-- Array.prototype.sort by lastLoginAt: stable, the earliest first.
unfoldable pub insert_by_login : MemberDevice → List MemberDevice → List MemberDevice
insert_by_login d [] = d ∷ []
insert_by_login d (e ∷ es) =
    let rest = insert_by_login d es in
    if leb d.last_login_at e.last_login_at then d ∷ e ∷ es else e ∷ rest

unfoldable pub sort_by_login : List MemberDevice → List MemberDevice
unfolding insert_by_login
sort_by_login [] = []
sort_by_login (d ∷ ds) = insert_by_login d (sort_by_login ds)

abbrev pub first_or_none : List MemberDevice → Option MemberDevice
first_or_none [] = none
first_or_none (d ∷ ds) = some d

unfoldable pub get_earliest_login_device : String → Table → Option MemberDevice
get_earliest_login_device member_id table =
    first_or_none (sort_by_login (get_member_devices member_id table))

-- `slice(0, len - limit + 1)`: a negative end counts back from the end of the list.
abbrev pub slice_end : ℕ → ℕ → ℕ
slice_end len limit = if leb limit (len + 1) then len + 1 - limit else len - (limit - (len + 1))

abbrev pub ids_of : List MemberDevice → List String
ids_of = map (λ d. d.id)

unfoldable pub devices_to_be_logged_out : String → AppCache → Table → List MemberDevice
devices_to_be_logged_out member_id app table =
    let signed = sort_by_login (login_devices member_id table) in
    take (slice_end (length signed) (login_limit app)) signed

unfoldable pub logout_excess_devices : String → AppCache → Table → Option Table
logout_excess_devices member_id app table =
    logout_member_devices (ids_of (devices_to_be_logged_out member_id app table)) table

-- DeviceService.expireFingerPrintId: the first row with the fingerprint, of any member; without one the
-- assignment to its field throws.
unfoldable pub expire_finger_print_id : String → Table → Option Table
expire_finger_print_id fingerprint_id [] = none
expire_finger_print_id fingerprint_id (d ∷ ds) =
    let rest = expire_finger_print_id fingerprint_id ds in
    if has_fingerprint fingerprint_id d
    then some (record d { is_login = false } ∷ ds)
    else elim rest [ none ↦ none | some ds' ↦ some (d ∷ ds') ]
