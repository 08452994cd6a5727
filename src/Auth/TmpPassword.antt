-- ===== src/Auth/TmpPassword.antt =====
-- AuthService.generateTmpPassword of src/auth/auth.service.ts, with the queries of auth.infra.ts.
use lodestar_server.Prelude.{
  String, ◌≡◌, ◌≢◌, ◌⊎◌, refl, ap, ◌∙◌, Bool, true, false, ◌&&◌, not, Option, none, some, List, [],
  ◌∷◌, ◌==◌, if◌then◌else◌, select, any, take, find_first, Bool-cases, Option-cases, inl, inr,
  eq_refl, eq_iff,
}
use lodestar_server.Prelude.Ascii.{trim, to_lower_case}
use lodestar_server.Redis.{Redis, text, entry}
use lodestar_server.Auth.Directory.{Member, Directory}
use lodestar_server.Auth.Login.{State, tmp_password_key}

-- PermissionSet.APP_TMP_PASSWORD_ADMIN
abbrev pub app_tmp_password_admin : String
app_tmp_password_admin = "APP_TMP_PASSWORD_ADMIN"

-- AuthInfrastructure.getAppMemberWithPermission: the member, and whether the permission is granted.
unfoldable pub get_app_member_with_permission :
    String → String → String → Directory → Option (Member × Bool)
get_app_member_with_permission member_id app_id permission_id dir =
    elim (find_first (λ m. m.id == member_id && m.app_id == app_id) dir.members) [
      | none ↦ none
      | some m ↦ some (m, any (λ g. g.0 == m.id && g.1 == permission_id) dir.member_permissions)
    ]

unfoldable pub get_app_members_by_exact_email : String → String → Directory → List Member
get_app_members_by_exact_email app_id email dir =
    take 2 (select (λ m. m.app_id == app_id && m.email == email) dir.members)

unfoldable pub get_app_members_by_email_ignoring_case : String → String → Directory → List Member
unfolding to_lower_case
get_app_members_by_email_ignoring_case app_id email dir =
    take 2
      (select (λ m. m.app_id == app_id && to_lower_case m.email == to_lower_case email) dir.members)

-- `list.length === 1 ? list[0] : null`
abbrev pub only : List Member → Option Member
only [] = none
only (m ∷ []) = some m
only (m ∷ n ∷ ms) = none

-- One exact match, or none and one match that ignores case.
abbrev pub exact_or_only : List Member → List Member → Option Member
exact_or_only [] ignoring_case = only ignoring_case
exact_or_only (m ∷ []) ignoring_case = some m
exact_or_only (m ∷ n ∷ ms) ignoring_case = none

-- AuthService.findTmpPasswordTarget; none stands for an email that is no text.
unfoldable pub find_tmp_password_target : String → Option String → Directory → Option Member
unfolding get_app_members_by_exact_email get_app_members_by_email_ignoring_case
find_tmp_password_target app_id none dir = none
find_tmp_password_target app_id (some email) dir =
    if trim email == ""
    then none
    else exact_or_only (get_app_members_by_exact_email app_id (trim email) dir)
        (get_app_members_by_email_ignoring_case app_id (trim email) dir)

pub data TmpResult : Type 0 where
  forbidden : TmpResult
  no_member : TmpResult
  generated : String → TmpResult

module _ (r : Redis) where
  open r use {Store, find, set}

  -- AuthService.generateTmpPassword: the password lives for three days.
  unfoldable pub generate_tmp_password :
      String
      → String
      → Option String
      → String
      → String
      → Directory
      → State Store
      → TmpResult × State Store
  unfolding tmp_password_key
  generate_tmp_password app_id applicant_id email purpose password dir w =
      elim (get_app_member_with_permission applicant_id app_id app_tmp_password_admin dir) [
        | none ↦ (forbidden, w)
        | some (applicant, has_permission) ↦
            if not has_permission
            then (forbidden, w)
            else elim (find_tmp_password_target app_id email dir) [
              | none ↦ (no_member, w)
              | some target ↦
                  if target.role == "app-owner" && not (applicant.role == "app-owner")
                  then (forbidden, w)
                  else (
                    generated password,
                    record w {
                      store =
                          set (tmp_password_key app_id target.email) (text password) 259200 w.store;
                      audit =
                          record {
                            member_id = applicant_id;
                            target = target.id;
                            reason = purpose;
                            app_id = app_id;
                          }
                          ∷ w.audit;
                    },
                  )
            ]
      ]

  may_reset :
      (target applicant : String)
      → (target == "app-owner" && not (applicant == "app-owner")) ≡ false
      → (target ≢ "app-owner") ⊎ (applicant ≡ "app-owner")
  may_reset target applicant h = elim (Bool-cases (applicant == "app-owner")) [
    | inl owner ↦ inr ((eq_iff applicant "app-owner").0 owner)
    | inr other ↦
        inl (λ e.
          (let refused : true ≡ false = rw (other, (eq_iff target "app-owner").1 e) at h in cc))
  ]

  -- A temporary password is generated only by a member of the app who holds the permission, for the one
  -- member that the address names, an owner's only by an owner; it is stored for that member's address
  -- for three days, and the request is logged.
  pub generated-requires :
      (app_id applicant_id : String) (email : Option String) (purpose password : String)
      (dir : Directory) (w : State Store)
      → (generate_tmp_password app_id applicant_id email purpose password dir w).0
        ≡ generated password
      → (applicant : Member) × (target : Member) × (get_app_member_with_permission applicant_id
            app_id app_tmp_password_admin dir
          ≡ some (applicant, true))
        × (find_tmp_password_target app_id email dir ≡ some target)
        × ((target.role ≢ "app-owner") ⊎ (applicant.role ≡ "app-owner"))
        × (find
              (tmp_password_key app_id target.email)
              (generate_tmp_password app_id applicant_id email purpose password dir w).1.store
            ≡ entry (text password) (some 259200))
        × ((generate_tmp_password app_id applicant_id email purpose password dir w).1.audit
            ≡ record {
              member_id = applicant_id;
              target = target.id;
              reason = purpose;
              app_id = app_id;
            }
              ∷ w.audit)
  unfolding generate_tmp_password
  generated-requires app_id applicant_id email purpose password dir w h =
      elim (Option-cases
        (get_app_member_with_permission applicant_id app_id app_tmp_password_admin dir)) [
          | inl absent ↦
              (let answer : forbidden ≡ generated password =
                  rw (generate_tmp_password, absent) at h in
                cc)
          | inr ((applicant, has_permission), known) ↦ elim (Bool-cases has_permission) [
            | inr lacks ↦
                (let answer : forbidden ≡ generated password =
                    rw (generate_tmp_password, known, lacks) at h in
                  cc)
            | inl granted ↦ elim (Option-cases (find_tmp_password_target app_id email dir)) [
              | inl nobody ↦
                  (let answer : no_member ≡ generated password =
                      rw (generate_tmp_password, known, granted, nobody) at h in
                    cc)
              | inr (target, found) ↦
                  elim (Bool-cases
                    (target.role == "app-owner" && not (applicant.role == "app-owner"))) [
                      | inl above ↦
                          (let answer : forbidden ≡ generated password =
                              rw (generate_tmp_password, known, granted, found, above) at h in
                            cc)
                      | inr allowed ↦ (
                        applicant,
                        target,
                        known ∙ ap (λ b. some (applicant, b)) granted,
                        found,
                        may_reset target.role applicant.role allowed,
                        rw (generate_tmp_password, known, granted, found, allowed)
                            (r.find-set _ _ _ _ w.store
                              ∙ rw (eq_refl (tmp_password_key app_id target.email)) refl),
                        rw (generate_tmp_password, known, granted, found, allowed) refl,
                      )
                    ]
            ]
          ]
        ]
