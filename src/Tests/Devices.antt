-- ===== src/Tests/Devices.antt =====
-- Devices of two members in an app that allows two sign-ins.
use lodestar_server.Prelude.{
  ℕ, ◌+◌, ◌≤◌, String, ◌≡◌, ◌≢◌, refl, true, false, none, some, [], ◌∷◌, All, arith, length,
}
use lodestar_server.Auth.Device.{
  Details, MemberDevice, Table, get_member_devices, logout_member_devices,
}
use lodestar_server.Auth.Device.Service.{
  AppCache, login_limit, device_limit, login_devices, login_limit_exceed, check_and_bind_devices,
  devices_to_be_logged_out, logout_excess_devices, sort_by_login,
}
use lodestar_server.Auth.Device.Sort.{HasDistinctIds}
use lodestar_server.Auth.Device.Rows.{IsUnique}
use lodestar_server.Auth.Device.Bind.{check-login_limit}
use lodestar_server.Auth.Device.Logout.{logout_excess_devices_lem, check-logout_excess_devices}

abbrev pub details : Details
details = record {
  browser = some "Chrome";
  os_name = none;
  ip_address = none;
  device_type = "desktop";
  user_agent = "ua";
}

abbrev device : String → String → String → ℕ → MemberDevice
device id member fingerprint at = record {
  id = id;
  member_id = member;
  fingerprint_id = fingerprint;
  is_login = true;
  created_at = at;
  last_login_at = at;
  details = details;
}

abbrev pub table : Table
table = device "1" "m" "a" 30 ∷ device "2" "m" "b" 10 ∷ device "3" "n" "c" 20 ∷ []

abbrev pub app : AppCache
app = record {
  id = "app";
  org_id = none;
  host = "h";
  name = "App";
  settings = ("login_device_num", "2") ∷ ("bind_device_num", "5") ∷ [];
  modules = "login_restriction" ∷ "device_management" ∷ [];
  default_permissions = [];
}

pub distinct : HasDistinctIds table
distinct = ((refl, (refl, tt)), ((refl, tt), (tt, tt)))

unique : IsUnique table
unique = ((refl, (refl, tt)), ((refl, tt), (tt, tt)))

reached : login_limit app ≤ length (login_devices "m" table)
unfolding login_limit get_member_devices
reached = omega arith

logout_excess_devices_lem_example :
    (t' : Table) × (logout_excess_devices "m" app table ≡ some t')
    × (length (login_devices "m" t') + 1 ≡ login_limit app)
    × All
        (λ d. All (λ e. d.last_login_at ≤ e.last_login_at) (login_devices "m" t'))
        (devices_to_be_logged_out "m" app table)
logout_excess_devices_lem_example = logout_excess_devices_lem "m" app table distinct reached

abbrev left : Table
left =
    record (device "1" "m" "a" 30) { is_login = true }
    ∷ record (device "2" "m" "b" 10) { is_login = false }
    ∷ device "3" "n" "c" 20
    ∷ []

runs : logout_excess_devices "m" app table ≡ some left
unfolding logout_excess_devices devices_to_be_logged_out login_limit get_member_devices
    sort_by_login logout_member_devices
runs = refl

check-logout_excess_devices_example :
    (check_and_bind_devices app "m" none "z" details 40 "4" left).0 ≢ login_limit_exceed
check-logout_excess_devices_example =
    check-logout_excess_devices "m" app table distinct reached none "z" details 40 "4" left runs

within_login : length (login_devices "m" table) ≤ login_limit app
unfolding login_limit get_member_devices
within_login = omega arith

check-login_limit_example :
    length (login_devices "m" (check_and_bind_devices app "m" none "a" details 40 "4" table).1)
    ≤ login_limit app
check-login_limit_example =
    check-login_limit app "m" none "a" details 40 "4" table unique refl refl within_login

within_device : length (get_member_devices "m" table) ≤ device_limit app
unfolding device_limit get_member_devices
within_device = omega arith

refused : (check_and_bind_devices app "m" none "z" details 40 "4" table).0 ≡ login_limit_exceed
unfolding check_and_bind_devices login_limit device_limit get_member_devices
refused = refl
