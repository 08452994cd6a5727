-- ===== src/Auth/Outcomes.antt =====
-- AuthService.generalLogin of src/auth/auth.service.ts: what each outcome leaves.
use mathlib.Core.Path.{subst}
use lodestar_server.Prelude.{
  String, ◌≡◌, ◌⊎◌, refl, sym, ap, ◌∙◌, Bool, true, false, Option, none, some, List, Bool-cases,
  Option-cases, inl, inr, arith, eq_refl,
}
use lodestar_server.Redis.{Redis}
use lodestar_server.Auth.Keys.{app, safe_equal, login_fail_account, login_fail_account_ip}
use lodestar_server.Auth.Limits.{clear_login_attempts, filled}
use lodestar_server.Auth.Device.Service.{AppCache}
use lodestar_server.Auth.Directory.{Member, Directory, get_general_login_member}
use lodestar_server.Auth.Payload.{PublicMember, Claim, build_jwt_payload}
use lodestar_server.Auth.Login.{
  State, LoginResult, no_member, password, too_many_attempts, send_reset_password_email,
  insert_last_login_job_into_queue, tmp_password_key, text_of, or_unknown, sign_in, check_password,
  reset_result, general_login,
}
use lodestar_server.Auth.SignIn.{login, registered, is_success}

module _ (r : Redis) (sha256_hex : String → String) (bcrypt_compare : String → String → Bool)
    (sign : Claim → String) (node_env : String) where
  open r use {Store, find, find-del}

  module _ (a : AppCache) (app_id account password_text : String) (given_ip : Option String)
      (logged_in : List PublicMember) (now token : String) (dir : Directory) where
    abbrev login_here : State Store → LoginResult × State Store
    login_here =
        login r sha256_hex bcrypt_compare sign node_env a app_id account password_text given_ip
          logged_in now token dir

    abbrev registering : Store → Bool × Store
    registering =
        registered r sha256_hex bcrypt_compare sign node_env a app_id account password_text given_ip
          logged_in now token dir

    abbrev counted : State Store → State Store
    counted w = record w { store = (registering w.store).1 }

    -- A refusal that depends on nothing but the limits, the member and the password.
    abbrev pub is_refusal : LoginResult → Bool
    is_refusal too_many_attempts = true
    is_refusal no_member = true
    is_refusal password = true
    is_refusal _ = false

    abbrev signing : Member → State Store → LoginResult × State Store
    signing m w =
        sign_in r sha256_hex bcrypt_compare sign node_env a app_id account (or_unknown given_ip) m
          logged_in dir w

    abbrev checking : Member → State Store → LoginResult × State Store
    checking m w =
        check_password r sha256_hex bcrypt_compare sign node_env a app_id account password_text
          (or_unknown given_ip) m logged_in now token dir w

    abbrev logged : Member → State Store → State Store
    logged m w = record w {
      store =
          insert_last_login_job_into_queue r sha256_hex bcrypt_compare sign node_env m.id now
            w.store;
    }

    signing_no_refusal : (m : Member) (w : State Store) → is_refusal (signing m w).0 ≡ false
    signing_no_refusal m w = elim (Option-cases (build_jwt_payload a.org_id m logged_in dir)) [
      | inl absent ↦ rw (sign_in, absent) refl
      | inr (p, built) ↦ rw (sign_in, built) refl
    ]

    reset_no_refusal :
        (o : Option (State Store)) (w : State Store)
        → (is_refusal (reset_result r sha256_hex bcrypt_compare sign node_env o w).0 ≡ false)
          × (is_success (reset_result r sha256_hex bcrypt_compare sign node_env o w).0 ≡ false)
    reset_no_refusal none w = (refl, refl)
    reset_no_refusal (some w') w = (refl, refl)

    -- The four ways that the check of a password ends.
    check-cases :
        (m : Member) (w : State Store)
        → (checking m w ≡ signing m w)
          ⊎ ((checking m w ≡ signing m (logged m w))
              ⊎ ((checking m w ≡ (password, w))
                  ⊎ ((o : Option (State Store)) × (checking m w
                        ≡ reset_result r sha256_hex bcrypt_compare sign node_env o w))))
    check-cases m w =
        elim (Bool-cases (
          safe_equal sha256_hex (text_of (find (tmp_password_key app_id account) w.store))
            (some password_text))) [
              | inl same ↦ inl (rw (check_password, same) refl)
              | inr differ ↦ elim (Option-cases (filled m.passhash)) [
                | inl bare ↦ inr (
                    inr (
                      inr (
                        send_reset_password_email r sha256_hex bcrypt_compare sign node_env a m
                            token dir w,
                        rw (check_password, differ, bare) refl,
                      )))
                | inr (hash, kept) ↦ elim (Bool-cases (bcrypt_compare password_text hash)) [
                  | inl right ↦ inr (inl (rw (check_password, differ, kept, right) refl))
                  | inr wrong ↦ inr (inr (inl (rw (check_password, differ, kept, wrong) refl)))
                ]
              ]
            ]

    check-refused :
        (m : Member) (w : State Store) → is_refusal (checking m w).0 ≡ true → (checking m w).1 ≡ w
    check-refused m w h = elim (check-cases m w) [
      | inl e ↦ cc (sym h ∙ ap (λ x. is_refusal x.0) e ∙ signing_no_refusal m w)
      | inr (inl e) ↦ cc (sym h ∙ ap (λ x. is_refusal x.0) e ∙ signing_no_refusal m (logged m w))
      | inr (inr (inl e)) ↦ ap (λ x. x.1) e
      | inr (inr (inr (o, e))) ↦ cc (sym h ∙ ap (λ x. is_refusal x.0) e ∙ (reset_no_refusal o w).0)
    ]

    -- Too many attempts, an unknown account and a wrong password change nothing but the counters, which
    -- keep the attempt: no mail is sent and no job is queued.
    pub general_login_refused :
        (w : State Store) → is_refusal (login_here w).0 ≡ true → (login_here w).1 ≡ counted w
    unfolding general_login
    general_login_refused w h = elim (Bool-cases (registering w.store).0) [
      | inr over ↦ rw (general_login, over) refl
      | inl within ↦ elim (Option-cases (get_general_login_member app_id account dir)) [
        | inl nobody ↦ rw (general_login, within, nobody) refl
        | inr (m, found) ↦
            rw (general_login, within, found)
              (check-refused m (counted w) (rw (general_login, within, found) at h))
      ]
    ]

    -- The counters of the account are gone.
    abbrev IsCleared : State Store → Type 0
    IsCleared w =
        (find (login_fail_account sha256_hex app app_id account) w.store ≡ none)
        × (find (login_fail_account_ip sha256_hex app app_id account (or_unknown given_ip)) w.store
            ≡ none)

    clear_lem :
        (s : Store)
        → (find
              (login_fail_account sha256_hex app app_id account)
              (clear_login_attempts r sha256_hex app app_id account (or_unknown given_ip) s)
            ≡ none)
          × (find
                (login_fail_account_ip sha256_hex app app_id account (or_unknown given_ip))
                (clear_login_attempts r sha256_hex app app_id account (or_unknown given_ip) s)
              ≡ none)
    unfolding clear_login_attempts
    clear_lem s =
        let one = login_fail_account sha256_hex app app_id account in
        let two = login_fail_account_ip sha256_hex app app_id account (or_unknown given_ip) in
        (
          find-del one one _ ∙ rw (eq_refl one) refl,
          find-del two one _ ∙ ground (arith, find-del two two s, eq_refl two),
        )

    signing-clears : (m : Member) (w : State Store) → IsCleared (signing m w).1
    signing-clears m w = elim (Option-cases (build_jwt_payload a.org_id m logged_in dir)) [
      | inl absent ↦ rw (sign_in, absent) (clear_lem w.store)
      | inr (p, built) ↦ rw (sign_in, built) (clear_lem w.store)
    ]

    check-clears :
        (m : Member) (w : State Store)
        → is_success (checking m w).0 ≡ true
        → IsCleared (checking m w).1
    check-clears m w h = elim (check-cases m w) [
      | inl e ↦ subst (λ x. IsCleared x.1) (sym e) (signing-clears m w)
      | inr (inl e) ↦ subst (λ x. IsCleared x.1) (sym e) (signing-clears m (logged m w))
      | inr (inr (inl e)) ↦ cc (sym h ∙ ap (λ x. is_success x.0) e)
      | inr (inr (inr (o, e))) ↦ cc (sym h ∙ ap (λ x. is_success x.0) e ∙ (reset_no_refusal o w).1)
    ]

    -- After a sign-in that succeeds, the counters of the account are gone.
    general_login_clears :
        (w : State Store) → is_success (login_here w).0 ≡ true → IsCleared (login_here w).1
    unfolding general_login
    general_login_clears w h = elim (Bool-cases (registering w.store).0) [
      | inr over ↦ (let refused : false ≡ true = rw (general_login, over) at h in cc)
      | inl within ↦ elim (Option-cases (get_general_login_member app_id account dir)) [
        | inl nobody ↦ (let refused : false ≡ true = rw (general_login, within, nobody) at h in cc)
        | inr (m, found) ↦
            rw (general_login, within, found)
              (check-clears m (counted w) (rw (general_login, within, found) at h))
      ]
    ]
