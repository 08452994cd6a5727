-- ===== src/Auth/Keys/Distinct.antt =====
-- The keys of src/auth/auth-limits.ts as texts: what tells those of different purposes apart. A section over the hash, whose output is
-- free of colons (it is hexadecimal).
use Prim.Native.String.{◌++◌}
use text.Mathlib.TextLemmas.{append_assoc, append_cancel_left}
use lodestar_server.Prelude.{
  String, ◌≡◌, ◌≢◌, refl, sym, ◌∙◌, false, ColonFree, append-ne_of_apart, append_colon_inj,
  colon-ne_ColonFree, ◌==◌, arith, eq_iff,
}
use lodestar_server.Auth.Keys.{
  LoginScope, app, org, scope_text, IssueKind, reset_password_app, reset_password_org, verify_email,
  kind_text, normalize_identifier, device_bind, device_bind_fail, device_bind_send_cooldown,
  device_bind_send_count, login_fail_account_ip, login_fail_account, login_fail_ip, issue_cooldown,
  issue_count,
}

-- Texts that are different compare as such.
pub ==-eq-false_of_ne : (s t : String) → s ≢ t → (s == t) ≡ false
==-eq-false_of_ne s t h = ground (arith, eq_iff s t)

pub ==-eq-false_sym : (s t : String) → (s == t) ≡ false → (t == s) ≡ false
==-eq-false_sym s t h = ground (arith, eq_iff s t, eq_iff t s)

ip-ne_scope : (scope : LoginScope) (s t : String) → "ip:" ++ s ≢ scope_text scope ++ t
ip-ne_scope app s t = append-ne_of_apart "ip:" "app" s t refl
ip-ne_scope org s t = append-ne_of_apart "ip:" "org" s t refl

scope_inj :
    (a b : LoginScope) (s t : String)
    → scope_text a ++ (":" ++ s) ≡ scope_text b ++ (":" ++ t)
    → (a ≡ b) × (s ≡ t)
scope_inj app app s t e = (refl, append_cancel_left ":" s t (append_cancel_left "app" _ _ e))
scope_inj app org s t e = absurd (append-ne_of_apart "app" "org" _ _ refl e)
scope_inj org app s t e = absurd (append-ne_of_apart "org" "app" _ _ refl e)
scope_inj org org s t e = (refl, append_cancel_left ":" s t (append_cancel_left "org" _ _ e))

kind_text_inj :
    (k l : IssueKind) (m n : String)
    → kind_text k ++ (":" ++ m) ≡ kind_text l ++ (":" ++ n)
    → (k ≡ l) × (m ≡ n)
kind_text_inj reset_password_app reset_password_app m n e =
    (refl, append_cancel_left ":" m n (append_cancel_left "reset-password:app" _ _ e))
kind_text_inj reset_password_org reset_password_org m n e =
    (refl, append_cancel_left ":" m n (append_cancel_left "reset-password:org" _ _ e))
kind_text_inj verify_email verify_email m n e =
    (refl, append_cancel_left ":" m n (append_cancel_left "verify-email" _ _ e))
kind_text_inj reset_password_app reset_password_org m n e =
    absurd (append-ne_of_apart "reset-password:app" "reset-password:org" _ _ refl e)
kind_text_inj reset_password_org reset_password_app m n e =
    absurd (append-ne_of_apart "reset-password:org" "reset-password:app" _ _ refl e)
kind_text_inj reset_password_app verify_email m n e =
    absurd (append-ne_of_apart "reset-password:app" "verify-email" _ _ refl e)
kind_text_inj reset_password_org verify_email m n e =
    absurd (append-ne_of_apart "reset-password:org" "verify-email" _ _ refl e)
kind_text_inj verify_email reset_password_app m n e =
    absurd (append-ne_of_apart "verify-email" "reset-password:app" _ _ refl e)
kind_text_inj verify_email reset_password_org m n e =
    absurd (append-ne_of_apart "verify-email" "reset-password:org" _ _ refl e)

module _ (sha256_hex : String → String) where
  pub issue_cooldown-ne-issue_count :
      (k l : IssueKind) (m n : String) → issue_cooldown sha256_hex k m ≢ issue_count sha256_hex l n
  unfolding issue_cooldown issue_count
  issue_cooldown-ne-issue_count k l m n =
      append-ne_of_apart "auth:issue-cooldown:" "auth:issue-count:" _ _ refl

  pub send_cooldown-ne-send_count :
      (a b m n : String)
      → device_bind_send_cooldown sha256_hex a m ≢ device_bind_send_count sha256_hex b n
  unfolding device_bind_send_cooldown device_bind_send_count
  send_cooldown-ne-send_count a b m n =
      append-ne_of_apart "auth:device-bind-send-cooldown:" "auth:device-bind-send-count:" _ _ refl

  pub device_bind-ne-device_bind_fail :
      (a b m n : String) → device_bind sha256_hex a m ≢ device_bind_fail sha256_hex b n
  unfolding device_bind device_bind_fail
  device_bind-ne-device_bind_fail a b m n =
      append-ne_of_apart "auth:device-bind:" "auth:device-bind-fail:" _ _ refl

  -- The account counters of a scope "app" or "org" are never the counter of an address.
  pub login_fail_ip-ne-login_fail_account :
      (scope : LoginScope) (id account ip : String)
      → login_fail_ip sha256_hex ip ≢ login_fail_account sha256_hex scope id account
  unfolding login_fail_ip login_fail_account
  login_fail_ip-ne-login_fail_account scope id account ip e = ip-ne_scope scope ip _ (
      append_cancel_left "auth:login-fail:" _ _
        (sym (append_assoc "auth:login-fail:" "ip:" ip) ∙ e))

  pub login_fail_ip-ne-login_fail_account_ip :
      (scope : LoginScope) (id account ip ip' : String)
      → login_fail_ip sha256_hex ip ≢ login_fail_account_ip sha256_hex scope id account ip'
  unfolding login_fail_ip login_fail_account_ip
  login_fail_ip-ne-login_fail_account_ip scope id account ip ip' e = ip-ne_scope scope ip _ (
      append_cancel_left "auth:login-fail:" _ _
        (sym (append_assoc "auth:login-fail:" "ip:" ip) ∙ e))

  -- One counter for each kind of token and each member: two kinds or two members never share one.
  pub issue_count_inj :
      (k l : IssueKind) (m n : String)
      → issue_count sha256_hex k m ≡ issue_count sha256_hex l n
      → (k ≡ l) × (m ≡ n)
  unfolding issue_count
  issue_count_inj k l m n e = kind_text_inj k l m n (append_cancel_left "auth:issue-count:" _ _ e)

  pub issue_cooldown_inj :
      (k l : IssueKind) (m n : String)
      → issue_cooldown sha256_hex k m ≡ issue_cooldown sha256_hex l n
      → (k ≡ l) × (m ≡ n)
  unfolding issue_cooldown
  issue_cooldown_inj k l m n e =
      kind_text_inj k l m n (append_cancel_left "auth:issue-cooldown:" _ _ e)

  module _ (hex : (s : String) → ColonFree (sha256_hex s)) where
    -- Where neither app id holds a colon, equal counters are of one scope, one app, one account (up to
    -- case and outer space, if the hash does not collide) and one address.
    pub login_fail_account_ip_inj :
        (scope scope' : LoginScope) (id id' account account' ip ip' : String)
        → ColonFree id
        → ColonFree id'
        → login_fail_account_ip sha256_hex scope id account ip
          ≡ login_fail_account_ip sha256_hex scope' id' account' ip'
        → (scope ≡ scope')
          × (id ≡ id')
          × (normalize_identifier sha256_hex account ≡ normalize_identifier sha256_hex account')
          × (ip ≡ ip')
    unfolding login_fail_account_ip normalize_identifier
    login_fail_account_ip_inj scope scope' id id' account account' ip ip' h h' e =
        let (scopes, rest) =
          scope_inj scope scope' _ _ (append_cancel_left "auth:login-fail:" _ _ e) in
        let (ids, rest') = append_colon_inj id id' _ _ h h' rest in
        let (accounts, ips) = append_colon_inj _ _ ip ip' (hex _) (hex _) rest' in
        (scopes, ids, accounts, ips)

    -- The counter of an account with an address is never the counter of an account alone.
    pub login_fail_account_ip-ne-login_fail_account :
        (scope scope' : LoginScope) (id id' account account' ip : String)
        → ColonFree id
        → ColonFree id'
        → login_fail_account_ip sha256_hex scope id account ip
          ≢ login_fail_account sha256_hex scope' id' account'
    unfolding login_fail_account_ip login_fail_account normalize_identifier
    login_fail_account_ip-ne-login_fail_account scope scope' id id' account account' ip h h' e =
        let (scopes, rest) =
          scope_inj scope scope' _ _ (append_cancel_left "auth:login-fail:" _ _ e) in
        let (ids, rest') = append_colon_inj id id' _ _ h h' rest in
        colon-ne_ColonFree _ _ ip (hex _) rest'
