-- ===== src/Auth/SignIn.antt =====
-- AuthService.generalLogin of src/auth/auth.service.ts: who signs in, and what each outcome leaves.
use mathlib.Core.Path.{subst}
use lodestar_server.Prelude.{
  String, ◌≡◌, ◌↔◌, ◌⊎◌, refl, sym, ap, ◌∙◌, Bool, true, false, Option, none, some, List,
  Bool-cases, Option-cases, inl, inr,
}
use lodestar_server.Redis.{Redis}
use lodestar_server.Auth.Keys.{app, safe_equal}
use lodestar_server.Auth.Limits.{register_login_attempt, filled}
use lodestar_server.Auth.Device.Service.{AppCache}
use lodestar_server.Auth.Directory.{Member, Directory, get_general_login_member}
use lodestar_server.Auth.Payload.{PublicMember, Claim, JwtDto, build_jwt_payload}
use lodestar_server.Auth.Login.{
  State, LoginResult, success, insert_last_login_job_into_queue, tmp_password_key, text_of,
  or_unknown, sign_in, check_password, reset_result, general_login,
}

abbrev pub is_success : LoginResult → Bool
is_success (success m token) = true
is_success _ = false

module _ (r : Redis) (sha256_hex : String → String) (bcrypt_compare : String → String → Bool)
    (sign : Claim → String) (node_env : String) (a : AppCache)
    (app_id account password_text : String) (given_ip : Option String)
    (logged_in : List PublicMember) (now token : String) (dir : Directory) where
  open r use {Store, find, find-del}

  abbrev pub login : State Store → LoginResult × State Store
  login =
      general_login r sha256_hex bcrypt_compare sign node_env a app_id account password_text
        given_ip logged_in now token dir

  abbrev pub registered : Store → Bool × Store
  registered = register_login_attempt r sha256_hex app app_id account (or_unknown given_ip)

  -- The password is the temporary one of the account, or the member's own.
  abbrev pub IsPassword : Store → Member → Type 0
  IsPassword s m =
      (safe_equal sha256_hex (text_of (find (tmp_password_key app_id account) s))
          (some password_text)
        ≡ true)
      ⊎ ((passhash : String) × (filled m.passhash ≡ some passhash)
          × (bcrypt_compare password_text passhash ≡ true))

  abbrev signing : Member → State Store → LoginResult × State Store
  signing m w =
      sign_in r sha256_hex bcrypt_compare sign node_env a app_id account (or_unknown given_ip) m
        logged_in dir w

  abbrev checking : Member → State Store → LoginResult × State Store
  checking m w =
      check_password r sha256_hex bcrypt_compare sign node_env a app_id account password_text
        (or_unknown given_ip) m logged_in now token dir w

  sign_in_lem :
      (m : Member) (w : State Store)
      → (is_success (signing m w).0 ≡ true)
        ↔ ((p : JwtDto) × (build_jwt_payload a.org_id m logged_in dir ≡ some p))
  sign_in_lem m w = elim (Option-cases (build_jwt_payload a.org_id m logged_in dir)) [
    | inl absent ↦
        (λ h. (let answer : false ≡ true = rw (sign_in, absent) at h in cc), λ (p, e). cc)
    | inr (p, built) ↦ (λ h. (p, built), λ x. rw (sign_in, built) refl)
  ]

  reset_fails :
      (o : Option (State Store)) (w : State Store)
      → is_success (reset_result r sha256_hex bcrypt_compare sign node_env o w).0 ≡ false
  reset_fails none w = refl
  reset_fails (some w') w = refl

  check_password_lem :
      (m : Member) (w : State Store)
      → (is_success (checking m w).0 ≡ true) ↔ (
          IsPassword w.store m
          × ((p : JwtDto) × (build_jwt_payload a.org_id m logged_in dir ≡ some p)))
  check_password_lem m w =
      elim (Bool-cases (
        safe_equal sha256_hex (text_of (find (tmp_password_key app_id account) w.store))
          (some password_text))) [
            | inl same ↦
                rw (check_password, same)
                  (
                    λ h. (inl refl, (sign_in_lem m w).0 h),
                    λ (how, built). (sign_in_lem m w).1 built,
                  )
            | inr differ ↦ elim (Option-cases (filled m.passhash)) [
              | inl bare ↦
                  (let refused : is_success (checking m w).0 ≡ false =
                      rw (check_password, differ, bare) (reset_fails _ w) in
                    (λ h. cc, λ (how, built). elim how [ inl same ↦ cc | inr (hash, e, f) ↦ cc ]))
              | inr (hash, kept) ↦ elim (Bool-cases (bcrypt_compare password_text hash)) [
                | inl right ↦
                    (let logged : State Store = record w {
                      store =
                          insert_last_login_job_into_queue r sha256_hex bcrypt_compare sign node_env
                            m.id now w.store;
                    } in
                      (
                        λ h. (
                          inr (hash, kept, right),
                          (sign_in_lem m logged).0 (rw (check_password, differ, kept, right) at h),
                        ),
                        λ (how, built).
                            rw (check_password, differ, kept, right)
                              ((sign_in_lem m logged).1 built),
                      ))
                | inr wrong ↦
                    (let refused : is_success (checking m w).0 ≡ false =
                        rw (check_password, differ, kept, wrong) refl in
                      (
                        λ h. cc,
                        λ (how, built). elim how [
                          | inl same ↦ cc
                          | inr (hash', e, f) ↦
                              (let other : hash' ≡ hash = cc in
                                cc (sym wrong ∙ ap (bcrypt_compare password_text) (sym other) ∙ f))
                        ],
                      ))
              ]
            ]
          ]

  -- A sign-in succeeds exactly where the attempt is within the limits, the app has a member of that
  -- username or address, the password is the account's temporary one or the member's own, and the
  -- member's metadata is found.
  pub general_login_success_iff :
      (w : State Store)
      → (is_success (login w).0 ≡ true) ↔ (
          ((registered w.store).0 ≡ true)
          × ((m : Member) × (get_general_login_member app_id account dir ≡ some m)
              × IsPassword (registered w.store).1 m
              × ((p : JwtDto) × (build_jwt_payload a.org_id m logged_in dir ≡ some p))))
  unfolding general_login
  general_login_success_iff w = elim (Bool-cases (registered w.store).0) [
    | inr over ↦
        (let refused : is_success (login w).0 ≡ false = rw (general_login, over) refl in
          (λ h. cc, λ (within, rest). cc))
    | inl within ↦ elim (Option-cases (get_general_login_member app_id account dir)) [
      | inl nobody ↦
          (let refused : is_success (login w).0 ≡ false = rw (general_login, within, nobody) refl in
            (λ h. cc, λ (ok, (m, found, how, built)). cc))
      | inr (m, found) ↦
          (let counted : State Store = record w { store = (registered w.store).1 } in
            (
              λ h.
                  (let (how, built) =
                      (check_password_lem m counted).0 (rw (general_login, within, found) at h) in
                    (within, (m, found, how, built))),
              λ (ok, (m', found', how, built)).
                  (let same : m' ≡ m = cc in
                    rw (general_login, within, found)
                      ((check_password_lem m counted).1 (
                        subst
                          (λ x.
                            IsPassword (registered w.store).1 x
                            × ((p : JwtDto) × (build_jwt_payload a.org_id x logged_in dir
                                  ≡ some p)))
                          same (how, built)))),
            ))
    ]
  ]
