-- ===== src/Auth/Limits/Login.antt =====
-- registerLoginAttempt and clearLoginAttempts of src/auth/auth-limits.ts.
use mathlib.Core.Path.{subst}
use mathlib.Core.Bool.{and-eq-true_iff, and-false}
use lodestar_server.Prelude.{
  eq_iff, Bool-cases, ℕ, ◌+◌, ◌≤◌, ◌<◌, String, ◌≡◌, refl, ap, ◌∙◌, inl, inr, Bool, true, false,
  ◌≢◌, All, if◌then◌else◌, [], ◌∷◌, ◌&&◌, none, some, List, leb, ◌==◌, arith, ColonFree,
}
use lodestar_server.Redis.{Redis, int, count_of, ttl_of, entry}
use lodestar_server.Auth.Keys.{LoginScope, login_fail_account_ip, login_fail_account, login_fail_ip}
use lodestar_server.Auth.Keys.Distinct.{
  ==-eq-false_of_ne, ==-eq-false_sym, login_fail_ip-ne-login_fail_account,
  login_fail_ip-ne-login_fail_account_ip, login_fail_account_ip-ne-login_fail_account,
}
use lodestar_server.Auth.Limits.{register_login_attempt, clear_login_attempts}
use lodestar_server.Auth.Limits.Counter.{ttl_after}
use lodestar_server.Auth.Limits.Three.{three_first, three_second, three_third, find-three_ne}
use lodestar_server.Auth.Limits.Window.{
  Metered, idle, hits, waits, granted, elapsed, granted-le_cap,
}

-- A request to sign in that is counted, one that has then succeeded, whose counters are cleared, or the
-- passing of seconds. An app or org id holds no colon.
pub data LoginEvent : Type 0 where
  attempt : (scope : LoginScope) (id account ip : String) → ColonFree id → LoginEvent
  succeeds : (scope : LoginScope) (id account ip : String) → ColonFree id → LoginEvent
  wait : ℕ → LoginEvent

abbrev login_cost : LoginEvent → ℕ
login_cost (wait n) = n
login_cost _ = 0

module _ (r : Redis) (sha256_hex : String → String)
    (hex : (s : String) → ColonFree (sha256_hex s)) where
  open r use {Store, find, elapse, find-elapse}

  -- The attempts on one counter: an event is granted if it is admitted and counts there.
  module _ (key_of : LoginScope → String → String → String → String) (key : String) where
    unfoldable pub login_step : LoginEvent → Store → Bool × Store
    login_step (attempt scope id account ip _) s =
        let (admitted, s') = register_login_attempt r sha256_hex scope id account ip s in
        (admitted && (key_of scope id account ip == key), s')
    login_step (succeeds scope id account ip _) s =
        (false, clear_login_attempts r sha256_hex scope id account ip s)
    login_step (wait n) s = (false, elapse n s)

  module _ (scope : LoginScope) (id account ip : String) (h : ColonFree id) where
    abbrev ka : String
    ka = login_fail_account_ip sha256_hex scope id account ip

    abbrev kb : String
    kb = login_fail_account sha256_hex scope id account

    abbrev kc : String
    kc = login_fail_ip sha256_hex ip

    kb-ne-ka : (kb == ka) ≡ false
    kb-ne-ka = ==-eq-false_sym _ _ (
        ==-eq-false_of_ne _ _ (
          login_fail_account_ip-ne-login_fail_account sha256_hex hex scope scope id id account
            account ip h h))

    kc-ne-ka : (kc == ka) ≡ false
    kc-ne-ka =
        ==-eq-false_of_ne _ _
          (login_fail_ip-ne-login_fail_account_ip sha256_hex scope id account ip ip)

    kc-ne-kb : (kc == kb) ≡ false
    kc-ne-kb =
        ==-eq-false_of_ne _ _ (login_fail_ip-ne-login_fail_account sha256_hex scope id account ip)

    abbrev register : Store → Bool × Store
    register = register_login_attempt r sha256_hex scope id account ip

    module _ (s : Store) (n : ℕ) where
      counted_account_ip :
          count_of (find ka s) ≡ some n
          → ((register s).0 ≡ true → n + 1 ≤ 10)
            × (find ka (register s).1 ≡ entry (int (n + 1)) (ttl_after n 900 (ttl_of (find ka s))))
      unfolding register_login_attempt
      counted_account_ip counted =
          let (reply, left) = three_first r ka kb kc 900 900 900 s n kb-ne-ka kc-ne-ka counted in
          (ground (arith, reply), left)

      counted_account :
          count_of (find kb s) ≡ some n
          → ((register s).0 ≡ true → n + 1 ≤ 50)
            × (find kb (register s).1 ≡ entry (int (n + 1)) (ttl_after n 900 (ttl_of (find kb s))))
      unfolding register_login_attempt
      counted_account counted =
          let (reply, left) =
            three_second r ka kb kc 900 900 900 s n (==-eq-false_sym _ _ kb-ne-ka) kc-ne-kb
              counted in
          (ground (arith, reply), left)

      counted_ip :
          count_of (find kc s) ≡ some n
          → ((register s).0 ≡ true → n + 1 ≤ 200)
            × (find kc (register s).1 ≡ entry (int (n + 1)) (ttl_after n 900 (ttl_of (find kc s))))
      unfolding register_login_attempt
      counted_ip counted =
          let (reply, left) =
            three_third r ka kb kc 900 900 900 s n (==-eq-false_sym _ _ kc-ne-ka)
              (==-eq-false_sym _ _ kc-ne-kb) counted in
          (ground (arith, reply), left)

    -- An attempt is admitted exactly where each of its three counters, with this attempt, is within its
    -- cap, and it counts on all three whether it is admitted or not.
    register_login_attempt_lem :
        (s : Store) (na nb nc : ℕ)
        → count_of (find ka s) ≡ some na
        → count_of (find kb s) ≡ some nb
        → count_of (find kc s) ≡ some nc
        → ((register s).0 ≡ (leb (na + 1) 10 && leb (nb + 1) 50 && leb (nc + 1) 200))
          × (find ka (register s).1 ≡ entry (int (na + 1)) (ttl_after na 900 (ttl_of (find ka s))))
          × (find kb (register s).1 ≡ entry (int (nb + 1)) (ttl_after nb 900 (ttl_of (find kb s))))
          × (find kc (register s).1 ≡ entry (int (nc + 1)) (ttl_after nc 900 (ttl_of (find kc s))))
    unfolding register_login_attempt
    register_login_attempt_lem s na nb nc a b c =
        let (reply_a, _) = three_first r ka kb kc 900 900 900 s na kb-ne-ka kc-ne-ka a in
        let (reply_b, _) =
          three_second r ka kb kc 900 900 900 s nb (==-eq-false_sym _ _ kb-ne-ka) kc-ne-kb b in
        let (reply_c, _) =
          three_third r ka kb kc 900 900 900 s nc (==-eq-false_sym _ _ kc-ne-ka)
            (==-eq-false_sym _ _ kc-ne-kb) c in
        (
          ground (arith, reply_a, reply_b, reply_c),
          (counted_account_ip s na a).1,
          (counted_account s nb b).1,
          (counted_ip s nc c).1,
        )

    frame :
        (j : String) (s : Store)
        → (ka == j) ≡ false
        → (kb == j) ≡ false
        → (kc == j) ≡ false
        → find j (register s).1 ≡ find j s
    unfolding register_login_attempt
    frame j s = find-three_ne r ka kb kc 900 900 900 j s

  -- The sign-ins that count on one account, whatever addresses they come from.
  module _ (scope : LoginScope) (id account : String) (h : ColonFree id) where
    abbrev account_key : String
    account_key = login_fail_account sha256_hex scope id account

    abbrev pub account_step : LoginEvent → Store → Bool × Store
    account_step =
        login_step (λ scope' id' account' ip'. login_fail_account sha256_hex scope' id' account')
          account_key

    cleared_other :
        (scope' : LoginScope) (id' account' ip' : String)
        → ColonFree id'
        → (s : Store) → (login_fail_account sha256_hex scope' id' account' == account_key) ≡ false
        → find account_key (clear_login_attempts r sha256_hex scope' id' account' ip' s)
          ≡ find account_key s
    unfolding clear_login_attempts
    cleared_other scope' id' account' ip' h' s differ =
        let addressed = login_fail_account_ip sha256_hex scope' id' account' ip' in
        let other : (addressed == account_key) ≡ false = ==-eq-false_of_ne _ _ (
          login_fail_account_ip-ne-login_fail_account sha256_hex hex scope' scope id' id account'
            account ip' h' h) in
        r.find-del account_key (login_fail_account sha256_hex scope' id' account')
          (r.del addressed s)
        ∙ rw differ (r.find-del account_key addressed s ∙ rw other refl)

    -- No sign-in to the account has succeeded with the event; those to other accounts may have.
    abbrev pub Spares : LoginEvent → Type 0
    Spares (succeeds scope' id' account' ip' _) =
        login_fail_account sha256_hex scope' id' account' ≢ account_key
    Spares _ = Unit

    -- The events without what clears the account's own counter.
    abbrev sparing_step : LoginEvent → Store → Bool × Store
    sparing_step (succeeds scope' id' account' ip' h') s =
        if login_fail_account sha256_hex scope' id' account' == account_key
        then (false, s)
        else account_step (succeeds scope' id' account' ip' h') s
    sparing_step e s = account_step e s

    sparing_step_lem : (e : LoginEvent) (s : Store) → Spares e → sparing_step e s ≡ account_step e s
    sparing_step_lem (attempt scope' id' account' ip' h') s spares = refl
    sparing_step_lem (wait n) s spares = refl
    sparing_step_lem (succeeds scope' id' account' ip' h') s spares =
        rw (==-eq-false_of_ne _ _ spares) refl

    granted_sparing :
        (es : List LoginEvent) (s : Store)
        → All Spares es
        → granted sparing_step es s ≡ granted account_step es s
    granted_sparing [] s spares = refl
    granted_sparing (e ∷ es) s (own, rest) =
        rw (sparing_step_lem e s own, granted_sparing es (account_step e s).1 rest) refl

    sparing_step-Metered :
        (e : LoginEvent) (s : Store) (n : ℕ)
        → count_of (find account_key s) ≡ some n
        → Metered r account_key 900 50 s (sparing_step e s).1 (sparing_step e s).0 (login_cost e)
    unfolding login_step
    sparing_step-Metered (attempt scope' id' account' ip' h') s n counted =
        elim (Bool-cases (login_fail_account sha256_hex scope' id' account' == account_key)) [
          | inl same ↦
              let e : login_fail_account sha256_hex scope' id' account' ≡ account_key =
                (eq_iff _ _).0 same in
              let (capped, left) =
                counted_account scope' id' account' ip' h' s n
                  (ap (λ k. count_of (find k s)) e ∙ counted) in
              hits n counted refl
                (subst
                  (λ k.
                    find k (register_login_attempt r sha256_hex scope' id' account' ip' s).1
                    ≡ entry (int (n + 1)) (ttl_after n 900 (ttl_of (find k s))))
                  e left)
                (λ g. capped ((and-eq-true_iff _ _).0 g).0)
          | inr differ ↦ idle (rw differ (and-false _)) refl (
              frame scope' id' account' ip' h' account_key s
                (==-eq-false_of_ne _ _ (
                  login_fail_account_ip-ne-login_fail_account sha256_hex hex scope' scope id' id
                    account' account ip' h' h))
                differ
                (==-eq-false_of_ne _ _
                  (login_fail_ip-ne-login_fail_account sha256_hex scope id account ip')))
        ]
    sparing_step-Metered (succeeds scope' id' account' ip' h') s n counted =
        elim (Bool-cases (login_fail_account sha256_hex scope' id' account' == account_key)) [
          | inl same ↦ idle (rw same refl) refl (rw same refl)
          | inr differ ↦
              rw differ (idle refl refl (cleared_other scope' id' account' ip' h' s differ))
        ]
    sparing_step-Metered (wait d) s n counted = waits refl (find-elapse account_key d s)

    -- As long as no sign-in to the account succeeds, fewer than 51 attempts on it are admitted in less than 15
    -- minutes, if no counter stood before: however many addresses they come from, and whatever sign-ins to
    -- other accounts are tried and succeed in between.
    pub account_attempts-le_fifty :
        (es : List LoginEvent) (s : Store)
        → All Spares es
        → find account_key s ≡ none
        → elapsed login_cost es < 900
        → granted account_step es s ≤ 50
    account_attempts-le_fifty es s spares fresh short =
        let bound =
          granted-le_cap r account_key 900 50 sparing_step login_cost sparing_step-Metered es s
            fresh short in
        omega (arith, bound, granted_sparing es s spares)
