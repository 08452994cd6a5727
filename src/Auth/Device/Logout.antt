-- ===== src/Auth/Device/Logout.antt =====
-- logoutExcessDevices of src/auth/device/device.service.ts, and what a sign-in finds after it.
use lodestar_server.Prelude.{
  ℕ, zero, suc, All-map, ◌+◌, ◌-◌, ◌≤◌, ◌<◌, String, ◌≡◌, ◌≢◌, refl, sym, ap, ◌∙◌, Option, some,
  List, [], ◌∷◌, map, arith, length, take, drop, select, All, take-append-drop, length-drop,
}
use lodestar_server.Auth.Device.{
  Details, MemberDevice, Table, of_member, logged_out, get_member_devices, logout_member_devices,
}
use lodestar_server.Auth.Device.Service.{
  AppCache, login_limit, number_or_one, logged_in, login_devices, sort_by_login, slice_end, ids_of,
  devices_to_be_logged_out, logout_excess_devices, login_limit_exceed, check_and_bind_devices,
}
use lodestar_server.Auth.Device.Sort.{
  HasDistinctIds, kept, length-sort, length-select-sort, select-kept, sort-IsSorted,
  sort-HasDistinctIds, select-HasDistinctIds, sorted_parts, All-select_of_sort,
}

-- The login limit is never 0.
pub login_limit-pos : (app : AppCache) → 0 < login_limit app
unfolding login_limit number_or_one
login_limit-pos app = ground arith

-- Signing rows out by id leaves of a member's sign-ins those not among the ids.
login_devices-logged_out :
    (member_id : String) (ids : List String) (t : Table)
    → login_devices member_id (map (logged_out ids) t)
      ≡ select (kept ids) (login_devices member_id t)
unfolding get_member_devices
login_devices-logged_out member_id ids [] = refl
login_devices-logged_out member_id ids (d ∷ ds) =
    ground (arith, login_devices-logged_out member_id ids ds)

login_devices-HasDistinctIds :
    (member_id : String) (t : Table) → HasDistinctIds t → HasDistinctIds (login_devices member_id t)
unfolding get_member_devices
login_devices-HasDistinctIds member_id t u =
    select-HasDistinctIds logged_in _ (select-HasDistinctIds (of_member member_id) t u)

logout_of_ne-nil :
    (ids : List String) (t : Table)
    → ids ≢ []
    → logout_member_devices ids t ≡ some (map (logged_out ids) t)
unfolding logout_member_devices
logout_of_ne-nil [] t h = absurd (h refl)
logout_of_ne-nil (i ∷ ids) t h = refl

ids-ne-nil : (n : ℕ) (ds : List MemberDevice) → 0 < n → 0 < length ds → ids_of (take n ds) ≢ []
ids-ne-nil zero ds h k e = omega arith
ids-ne-nil (suc n) [] h k e = omega arith
ids-ne-nil (suc n) (d ∷ ds) h k e = cc

module _ (member_id : String) (app : AppCache) (t : Table) (distinct : HasDistinctIds t)
    (reached : login_limit app ≤ length (login_devices member_id t)) where
  abbrev sorted : List MemberDevice
  sorted = sort_by_login (login_devices member_id t)

  abbrev excess : ℕ
  excess = slice_end (length sorted) (login_limit app)

  abbrev out : List String
  out = ids_of (take excess sorted)

  excess_lem : excess ≡ length (login_devices member_id t) + 1 - login_limit app
  excess_lem = ground (arith, length-sort (login_devices member_id t))

  -- What is left of the sorted sign-ins.
  select-sorted : select (kept out) sorted ≡ drop excess sorted
  select-sorted =
      ap (select (kept out)) (sym (take-append-drop excess sorted))
      ∙ select-kept (take excess sorted) (drop excess sorted) (
          rw (take-append-drop excess sorted)
            (sort-HasDistinctIds _ (login_devices-HasDistinctIds member_id t distinct)))

  length-left : length (select (kept out) (login_devices member_id t)) + 1 ≡ login_limit app
  length-left =
      let same = length-select-sort (kept out) (login_devices member_id t) in
      let rest = ap length select-sorted ∙ length-drop excess sorted in
      omega (
        arith,
        same,
        rest,
        excess_lem,
        length-sort (login_devices member_id t),
        login_limit-pos app,
      )

  logout_runs : logout_excess_devices member_id app t ≡ some (map (logged_out out) t)
  unfolding logout_excess_devices devices_to_be_logged_out
  logout_runs = logout_of_ne-nil out t (
      ids-ne-nil excess sorted (omega (arith, excess_lem))
        (omega (arith, length-sort (login_devices member_id t), login_limit-pos app)))

  -- With the limit reached and distinct ids, the excess is signed out: one sign-in fewer than the limit is
  -- left, each of them no earlier than every one that was signed out.
  pub logout_excess_devices_lem :
      (t' : Table) × (logout_excess_devices member_id app t ≡ some t')
      × (length (login_devices member_id t') + 1 ≡ login_limit app)
      × All
          (λ d. All (λ e. d.last_login_at ≤ e.last_login_at) (login_devices member_id t'))
          (devices_to_be_logged_out member_id app t)
  unfolding devices_to_be_logged_out
  logout_excess_devices_lem = (
    map (logged_out out) t,
    logout_runs,
    rw (login_devices-logged_out member_id out t) length-left,
    rw (login_devices-logged_out member_id out t) (
        All-map (take excess sorted)
          (λ d after.
            All-select_of_sort _ (kept out) (login_devices member_id t) (rw select-sorted after))
          (sorted_parts (take excess sorted) (drop excess sorted)
            (rw (take-append-drop excess sorted) (sort-IsSorted (login_devices member_id t))))),
  )

-- After the excess devices of a member at the login limit are signed out, where the ids are distinct, the
-- next sign-in of the member, from any browser, is not refused for the login limit.
pub check-logout_excess_devices :
    (member_id : String) (app : AppCache) (t : Table)
    → HasDistinctIds t
    → login_limit app ≤ length (login_devices member_id t)
    → (role : Option String) (fingerprint_id : String) (details : Details) (now : ℕ)
      (new_id : String) (t' : Table)
    → logout_excess_devices member_id app t ≡ some t'
    → (check_and_bind_devices app member_id role fingerprint_id details now new_id t').0
      ≢ login_limit_exceed
unfolding check_and_bind_devices
check-logout_excess_devices member_id app t distinct reached role fingerprint_id details now new_id
      t' runs e =
    let (u, runs', left, _) = logout_excess_devices_lem member_id app t distinct reached in
    let same : t' ≡ u = cc in
    let left' : length (login_devices member_id t') + 1 ≡ login_limit app = rw same left in
    ground arith
