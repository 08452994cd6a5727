-- ===== src/MailCode/Codes.antt =====
-- The table of verification codes: what expireOldVerificationCodesByEmail and a new code leave unexpired.
use lodestar_server.Prelude.{
  ℕ, ◌+◌, ◌≤◌, String, ◌≡◌, refl, Bool, true, false, List, [], ◌∷◌, map, ◌==◌, select, any, All,
  All-map, eq_refl, arith, ltb,
}
use lodestar_server.MailCode.{
  VerificationCode, Codes, is_unexpired, expired_now, get_unexpired_codes_by_email,
  update_codes_to_now,
}
use lodestar_server.MailCode.Service.{ids_of, expire_old_codes}

select-map_none :
    (p : VerificationCode → Bool) (f : VerificationCode → VerificationCode) (cs : Codes)
    → All (λ c. p (f c) ≡ false) cs
    → select p (map f cs) ≡ []
select-map_none p f [] h = refl
select-map_none p f (c ∷ cs) (e, h) = rw e (select-map_none p f cs h)

module _ (p : VerificationCode → Bool) where
  any-ids_of-cons :
      (q : String → Bool) (c : VerificationCode) (cs : Codes)
      → any q (ids_of (select p cs)) ≡ true
      → any q (ids_of (select p (c ∷ cs))) ≡ true
  any-ids_of-cons q c cs h = ground arith

  -- The ids of the rows selected name each of them.
  ids_of-select :
      (cs : Codes) → All (λ c. p c ≡ true → any (λ j. j == c.id) (ids_of (select p cs)) ≡ true) cs
  ids_of-select [] = tt
  ids_of-select (c ∷ cs) = (
    λ e. rw (e, eq_refl c.id) refl,
    All-map cs (λ d h e. any-ids_of-cons (λ j. j == d.id) c cs (h e)) (ids_of-select cs),
  )

module _ (app_id email type : String) where
  -- A row that the update reaches, or that had expired, is expired from then on.
  expired_now-expired :
      (ids : List String) (now later : ℕ) (c : VerificationCode)
      → now ≤ later
      → (is_unexpired app_id email type now c ≡ true → any (λ j. j == c.id) ids ≡ true)
      → is_unexpired app_id email type later (expired_now app_id email type ids now c) ≡ false
  expired_now-expired [] now later c late named = ground arith
  expired_now-expired (i ∷ ids) now later c late named = ground arith

  -- After the old codes are expired none is unexpired, then or later.
  pub unexpired-expire_old_codes :
      (now later : ℕ) (cs : Codes)
      → now ≤ later
      → get_unexpired_codes_by_email app_id email type later
          (expire_old_codes app_id email type now cs)
        ≡ []
  unfolding get_unexpired_codes_by_email expire_old_codes update_codes_to_now
  unexpired-expire_old_codes now later cs late = select-map_none _ _ cs (
      All-map cs (λ c named. expired_now-expired _ now later c late named)
        (ids_of-select (is_unexpired app_id email type now) cs))

  -- The row that a new code gets is unexpired for the time given, and then is not.
  pub is_unexpired-new :
      (new_id code : String) (now ms later : ℕ)
      → is_unexpired app_id email type later (record {
        id = new_id;
        app_id = app_id;
        email = email;
        type = type;
        code = code;
        expired_at = now + ms;
      })
        ≡ ltb later (now + ms)
  is_unexpired-new new_id code now ms later = rw (eq_refl app_id, eq_refl email, eq_refl type) refl
