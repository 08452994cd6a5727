-- ===== src/Tests/Limits.antt =====
-- The limits on the sample server.
use lodestar_server.Prelude.{
  ◌≤◌, String, ◌≡◌, ◌≢◌, ◌↔◌, refl, true, false, some, List, [], ◌∷◌, arith, eq_iff, ColonFree,
  ◌==◌,
}
use lodestar_server.Auth.Keys.{
  app, org, reset_password_app, verify_email, issue_count, issue_cooldown, login_fail_account,
  login_fail_account_ip, normalize_identifier, device_bind,
}
use lodestar_server.Auth.Keys.Distinct.{issue_count_inj}
use lodestar_server.Auth.Limits.{
  incr_key, allow_token_issue, match_device_login_challenge, write_device_login_challenge,
}
use lodestar_server.Auth.Limits.Window.{granted}
use lodestar_server.Auth.Limits.Issue.{issues-le_five, issue_step, IssueEvent}
use lodestar_server.Auth.Limits.BindSend.{SendEvent}
use lodestar_server.Auth.Limits.Login.{account_attempts-le_fifty, account_step, LoginEvent}
use lodestar_server.Auth.Limits.Challenge.{match-write_device_login_challenge_iff}
use lodestar_server.Tests.Server.{server, blank}

-- Two stand-ins for the hash: one without colons, one without collisions.
abbrev pub constant_hash : String → String
constant_hash s = "ab"

abbrev pub plain_hash : String → String
plain_hash s = s

abbrev constant_hex : (s : String) → ColonFree (constant_hash s)
constant_hex s = (λ e. omega arith, (λ e. omega arith, tt))

abbrev requests : List (IssueEvent reset_password_app "m")
requests = IssueEvent.ask ∷ IssueEvent.ask ∷ IssueEvent.wait 60 ∷ IssueEvent.ask ∷ []

issues-le_five_example :
    granted (issue_step server constant_hash reset_password_app "m") requests blank ≤ 5
issues-le_five_example =
    issues-le_five server constant_hash reset_password_app "m" requests blank refl (omega arith)

abbrev second : List (IssueEvent reset_password_app "m")
second = IssueEvent.wait 59 ∷ IssueEvent.ask ∷ []

passes : (allow_token_issue server constant_hash reset_password_app "m" blank).0 ≡ true
unfolding allow_token_issue incr_key issue_cooldown issue_count
passes = refl

abbrev sends : List SendEvent
sends = SendEvent.send ∷ SendEvent.wait 60 ∷ SendEvent.send ∷ []

app_plain : ColonFree "demo"
app_plain = (λ e. omega arith, (λ e. omega arith, (λ e. omega arith, (λ e. omega arith, tt))))

abbrev sign_ins : List LoginEvent
sign_ins =
    LoginEvent.attempt app "demo" "bob" "1.2.3.4" app_plain
    ∷ LoginEvent.wait 30
    ∷ LoginEvent.attempt org "demo" "bob" "::1" app_plain
    ∷ LoginEvent.succeeds org "demo" "bob" "::1" app_plain
    ∷ []

other_account :
    login_fail_account constant_hash org "demo" "bob"
    ≢ login_fail_account constant_hash app "demo" "bob"
unfolding login_fail_account normalize_identifier
other_account e = cc ((eq_iff _ _).1 e)

account_attempts-le_fifty_example :
    granted
      (account_step server constant_hash constant_hex app "demo" "bob" app_plain)
      sign_ins
      blank
    ≤ 50
account_attempts-le_fifty_example =
    account_attempts-le_fifty server constant_hash constant_hex app "demo" "bob" app_plain sign_ins
      blank (tt, (tt, (tt, (other_account, tt)))) refl (omega arith)

not_empty : (s : String) → (s == "") ≡ false → s ≢ ""
not_empty s h = ground (arith, eq_iff s "")

match-write_device_login_challenge_iff_example :
    (match_device_login_challenge server plain_hash "demo" "m"
        (some "fp2")
        (write_device_login_challenge server plain_hash "demo" "m" "fp1" blank)
      ≡ true)
    ↔ ◌≡◌ {A = String} "fp1" "fp2"
match-write_device_login_challenge_iff_example =
    match-write_device_login_challenge_iff server plain_hash "demo" "m" (not_empty "demo" refl)
      (not_empty "m" refl) (λ s t e. e) "fp1" "fp2" blank (not_empty "fp2" refl)

same_address : device_bind plain_hash "demo" " Bob@x.tw" ≡ device_bind plain_hash "demo" "bob@X.tw"
unfolding device_bind normalize_identifier
same_address = refl

no_shared_counter : ¬ (
    ◌≡◌ {A = String}
      (issue_count constant_hash reset_password_app "m")
      (issue_count constant_hash verify_email "m"))
no_shared_counter e =
    cc ((issue_count_inj constant_hash reset_password_app verify_email "m" "m" e).0)

same_counter :
    login_fail_account_ip constant_hash app "demo" "bob" "::1"
    ≡ login_fail_account_ip constant_hash app "demo" "BOB" "::1"
unfolding login_fail_account_ip normalize_identifier
same_counter = refl
