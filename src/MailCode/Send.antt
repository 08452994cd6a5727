-- ===== src/MailCode/Send.antt =====
-- sendDeviceBindCode: the code that is stored and mailed.
use lodestar_server.Prelude.{
  ℕ, ◌+◌, ◌≤◌, ◌<◌, String, ◌≡◌, refl, ap, Bool, true, false, not, Option, some, List, [], ◌∷◌,
  ◌==◌, Bool-cases, Option-cases, inl, inr, any, arith,
}
use lodestar_server.Redis.{Redis}
use lodestar_server.Auth.Limits.{filled, read_device_bind_challenge, allow_device_bind_send}
use lodestar_server.Auth.Device.Service.{AppCache}
use lodestar_server.MailCode.{
  VerificationCode, Codes, MailJob, World, subject_of, get_unexpired_codes_by_email,
  insert_verification_code,
}
use lodestar_server.MailCode.Service.{
  bind_device_limit, expiration_ms, has_code, fresh_code, expire_old_codes, expire_old_and_send,
  send_device_bind_code, check_code_expired,
}
use lodestar_server.MailCode.Codes.{unexpired-expire_old_codes, is_unexpired-new}

-- The loop ends as soon as a code that is not taken is drawn, and what it ends with is not taken.
pub fresh_code_lem :
    (taken : Codes) (draws : List String)
    → any (λ c. not (any (has_code c) taken)) draws ≡ true
    → (code : String) × (fresh_code taken draws ≡ some code) × (any (has_code code) taken ≡ false)
unfolding fresh_code
fresh_code_lem taken [] h = cc
fresh_code_lem taken (c ∷ draws) h = elim (Bool-cases (any (has_code c) taken)) [
  | inl t ↦
      (let (code, drawn, free) = fresh_code_lem taken draws (ground arith) in
        (code, rw t drawn, free))
  | inr f ↦ (c, rw f refl, f)
]

module _ (app_id email type new_id : String) (now : ℕ) where
  abbrev pub new_row : String → VerificationCode
  new_row code = record {
    id = new_id;
    app_id = app_id;
    email = email;
    type = type;
    code = code;
    expired_at = now + expiration_ms;
  }

  -- The codes after a code is stored: for half an hour it is the only one unexpired.
  pub unexpired-sent :
      (code : String) (cs : Codes) (later : ℕ)
      → now ≤ later
      → later < now + expiration_ms
      → get_unexpired_codes_by_email app_id email type later (
          insert_verification_code app_id email type new_id code expiration_ms now
            (expire_old_codes app_id email type now cs))
        ≡ new_row code ∷ []
  unfolding get_unexpired_codes_by_email insert_verification_code
  unexpired-sent code cs later late soon = ground (
    arith,
    is_unexpired-new app_id email type new_id code now expiration_ms later,
    unexpired-expire_old_codes app_id email type now later cs late,
  )

  -- Where the stored code is the only one unexpired, exactly it is accepted.
  pub check_sent :
      (code code' : String) (cs : Codes) (later : ℕ)
      → now < later
      → later < now + expiration_ms
      → get_unexpired_codes_by_email app_id email type later cs ≡ new_row code ∷ []
      → check_code_expired app_id email type code' expiration_ms later cs ≡ (code == code')
  unfolding check_code_expired
  check_sent code code' cs later late soon only = ground arith

  module _ (app : AppCache) (browser : String) (ip : Option String) where
    abbrev pub mail_of : String → MailJob
    mail_of code = record {
      app_id = app_id;
      catalog = type;
      target_member_ids = email ∷ [];
      browser = browser;
      ip = filled ip;
      code = code;
      app_name = app.name;
      subject = subject_of app.name;
    }

    -- What is stored and queued once a free code is drawn.
    pub expire_old_and_send_drawn :
        {S : Type 0}
        → (draws : List String) (code : String) (w : World S)
        → fresh_code (get_unexpired_codes_by_email app_id email type now w.codes) draws ≡ some code
        → expire_old_and_send (some app) app_id email type browser ip draws new_id now w
          ≡ record w {
            codes =
                insert_verification_code app_id email type new_id code expiration_ms now
                  (expire_old_codes app_id email type now w.codes);
            mails = mail_of code ∷ w.mails;
          }
    unfolding expire_old_and_send
    expire_old_and_send_drawn draws code w drawn = rw (drawn, expire_old_and_send) refl

module _ (r : Redis) (sha256_hex : String → String) (app_id email new_id : String) (now : ℕ)
    (app : AppCache) (browser : String) (ip : Option String) (draws : List String) where
  open r use {Store}

  abbrev pub send : World Store → Bool × World Store
  send =
      send_device_bind_code r sha256_hex (some app) app_id email bind_device_limit browser ip draws
        new_id now

  -- Where the address holds a challenge, the limits allow a mail and a code that is not taken is drawn,
  -- one mail is queued; its code was not among the unexpired ones, and at any moment after the sending
  -- and within half an hour, it and no other code is accepted.
  pub send-granted :
      (w : World Store) (member_id : String) (later : ℕ) (code' : String)
      → read_device_bind_challenge r sha256_hex app_id email w.store ≡ some member_id
      → (allow_device_bind_send r sha256_hex app_id member_id w.store).0 ≡ true
      → any
          (λ c. not (
            any
              (has_code c)
              (get_unexpired_codes_by_email app_id email bind_device_limit now w.codes)))
          draws
        ≡ true
      → now < later
      → later < now + expiration_ms
      → (code : String) × ((send w).0 ≡ true)
        × ((send w).1.mails
            ≡ mail_of app_id email bind_device_limit new_id now app browser ip code ∷ w.mails)
        × (any
              (has_code code)
              (get_unexpired_codes_by_email app_id email bind_device_limit now w.codes)
            ≡ false)
        × (check_code_expired app_id email bind_device_limit code' expiration_ms later
              (send w).1.codes
            ≡ (code == code'))
  unfolding send_device_bind_code
  send-granted w member_id later code' held allowed some_free late soon =
      let (code, drawn, free) = fresh_code_lem _ draws some_free in
      let s = (allow_device_bind_send r sha256_hex app_id member_id w.store).1 in
      let sent =
        expire_old_and_send_drawn app_id email bind_device_limit new_id now app browser ip draws
          code (record w { store = s }) drawn in
      (
        code,
        rw (held, allowed) refl,
        rw (held, allowed) (ap (λ v. v.mails) sent),
        free,
        rw (held, allowed, sent)
            (check_sent app_id email bind_device_limit new_id now code code' _ later late soon (
              unexpired-sent app_id email bind_device_limit new_id now code w.codes later
                (omega arith) soon)),
      )

  -- A request that is answered with false stores no code, queues no mail and touches no device.
  pub send-refused :
      (w : World Store)
      → (send w).0 ≡ false
      → ((send w).1.codes ≡ w.codes)
        × ((send w).1.mails ≡ w.mails)
        × ((send w).1.devices ≡ w.devices)
  unfolding send_device_bind_code
  send-refused w h =
      elim (Option-cases (read_device_bind_challenge r sha256_hex app_id email w.store)) [
        | inl absent ↦ rw (absent) (refl, refl, refl)
        | inr (m, held) ↦
            elim (Bool-cases (allow_device_bind_send r sha256_hex app_id m w.store).0) [
              | inl t ↦ (let answered : (send w).0 ≡ true = rw (held, t) refl in cc)
              | inr f ↦ rw (held, f) (refl, refl, refl)
            ]
      ]
