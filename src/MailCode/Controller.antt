-- ===== src/MailCode/Controller.antt =====
-- src/mailVerificationCode/mailVerificationCode.controller.ts: the two endpoints. An answer is the status,
-- the code and the message of the response, or of the APIException that is thrown.
use lodestar_server.Prelude.{
  ℕ, String, ◌≡◌, ◌↔◌, refl, Bool, true, false, ◌&&◌, not, Option, none, some, List, ◌==◌,
  Bool-cases, inl, inr, arith, if◌then◌else◌,
}
use lodestar_server.Redis.{Redis}
use lodestar_server.Auth.Device.Service.{AppCache}
use lodestar_server.MailCode.{World}
use lodestar_server.MailCode.Service.{
  send_device_bind_code, verify_device_bind_code, expire_old_codes,
}

pub record Response : Type 0 where
  pub status : ℕ
  pub code : String
  pub message : String

-- assertRequestApp: the request's app, and that the body names it.
unfoldable pub assert_request_app : Option AppCache → String → Bool
assert_request_app none app_id = false
assert_request_app (some app) app_id = not (app.id == "") && app_id == app.id

abbrev pub app_mismatch : Response
app_mismatch = record { status = 403; code = "E_APP_MISMATCH"; message = "app mismatch" }

abbrev pub verification_failed : Response
verification_failed = record {
  status = 201;
  code = "E_VERIFICATION_FAILED";
  message = "Verification failed.";
}

abbrev pub verified_response : Response
verified_response = record {
  status = 201;
  code = "SUCCESS";
  message = "Verification code validated successfully";
}

abbrev pub sent_response : Response
sent_response = record {
  status = 201;
  code = "SUCCESS";
  message = "Sent verification email successfully";
}

module _ (r : Redis) (sha256_hex : String → String) (app : Option AppCache)
    (app_id email type : String) (now : ℕ) where
  open r use {Store}

  -- MailVerificationCodeController.verifyMailVerificationCode
  unfoldable pub post_verify : String → String → World Store → Response × World Store
  unfolding assert_request_app
  post_verify member_id code w =
      let (verified, w') =
        verify_device_bind_code r sha256_hex app_id email member_id type code now w in
      if not (assert_request_app app app_id)
      then (app_mismatch, w)
      else if not verified
      then (verification_failed, w')
      else (
        verified_response,
        record w' { codes = expire_old_codes app_id email type now w'.codes },
      )

  -- MailVerificationCodeController.mailVerificationCode; getAppInfo answers with `found`.
  unfoldable pub post_send :
      Option AppCache
      → String
      → Option String
      → List String
      → String
      → World Store
      → Response × World Store
  unfolding assert_request_app
  post_send found browser ip draws new_id w =
      if not (assert_request_app app app_id) then (app_mismatch, w) else (
        sent_response,
        (send_device_bind_code r sha256_hex found app_id email type browser ip draws new_id now
            w).1,
      )

  -- The answer to a request for a code tells nothing of the store or the tables: it is the same
  -- whether or not the address holds a challenge and a mail is sent.
  post_send_uniform :
      (found : Option AppCache) (browser : String) (ip : Option String) (draws : List String)
      (new_id : String) (w w' : World Store)
      → (post_send found browser ip draws new_id w).0
        ≡ (post_send found browser ip draws new_id w').0
  unfolding post_send
  post_send_uniform found browser ip draws new_id w w' = ground arith

  -- A verification request is answered with success exactly where the body names the request's app and
  -- the service accepts the code, and with a mismatch exactly where it names another app.
  post_verify_lem :
      (member_id code : String) (w : World Store)
      → (((post_verify member_id code w).0.code ≡ "SUCCESS") ↔ (
          (assert_request_app app app_id ≡ true)
          × ((verify_device_bind_code r sha256_hex app_id email member_id type code now w).0
              ≡ true)))
        × (((post_verify member_id code w).0.code ≡ "E_APP_MISMATCH")
            ↔ (assert_request_app app app_id ≡ false))
  unfolding post_verify
  post_verify_lem member_id code w = elim (Bool-cases (assert_request_app app app_id)) [
    | inr other ↦ rw (post_verify, other) ((λ e. cc, λ (a, b). cc), (λ e. refl, λ e. refl))
    | inl own ↦
        elim (Bool-cases
          (verify_device_bind_code r sha256_hex app_id email member_id type code now w).0) [
            | inl t ↦ rw (post_verify, own, t) ((λ e. (refl, refl), λ e. refl), (λ e. cc, λ e. cc))
            | inr f ↦ rw (post_verify, own, f) ((λ e. cc, λ (a, b). cc), (λ e. cc, λ e. cc))
          ]
  ]
