-- ===== src/MailCode/Lock.antt =====
-- verifyDeviceBindCode: the attempts that follow a success, and those that follow the tenth wrong code.
use lodestar_server.Prelude.{
  ℕ, ◌≤◌, String, ◌≡◌, refl, ap, ◌∙◌, true, false, none, some, [], Bool-cases, inl, inr, arith,
}
use lodestar_server.Redis.{Redis, count_of}
use lodestar_server.Auth.Limits.{
  is_device_bind_locked, read_device_bind_challenge, clear_device_bind_challenge, read_counter,
}
use lodestar_server.MailCode.{World, get_unexpired_codes_by_email}
use lodestar_server.MailCode.Service.{
  bind_device_limit, expire_old_codes, verify_code, may_attempt, settle_attempt,
  verify_device_bind_code,
}
use lodestar_server.MailCode.Codes.{unexpired-expire_old_codes}
use lodestar_server.MailCode.Verify.{
  fail_key, verify, counted_store, verify-settles, settle_verified, count_attempt_lem, clear_lem,
  verified-leaves,
}
use lodestar_server.MailCode.Compare.{verify_code-false}

module _ (r : Redis) (sha256_hex : String → String) (app_id email member_id : String) where
  open r use {Store, find}

  -- Without a challenge, or while the member is locked, an attempt is refused and leaves nothing.
  refused_of_absent :
      (code : String) (now : ℕ) (w : World Store)
      → read_device_bind_challenge r sha256_hex app_id email w.store ≡ none
      → verify r sha256_hex app_id email member_id code now w ≡ (false, w)
  unfolding verify_device_bind_code may_attempt
  refused_of_absent code now w absent = ground (arith, absent)

  -- Where the counter of wrong codes can be read: right after a code is verified, another attempt for the
  -- address, with any code and at any moment, is refused and changes nothing.
  pub verified-once :
      (w : World Store) (code code' : String) (now now' n : ℕ)
      → count_of (find (fail_key r sha256_hex app_id email member_id) w.store) ≡ some n
      → (verify r sha256_hex app_id email member_id code now w).0 ≡ true
      → verify r sha256_hex app_id email member_id code' now'
          (verify r sha256_hex app_id email member_id code now w).1
        ≡ (false, (verify r sha256_hex app_id email member_id code now w).1)
  verified-once w code code' now now' n counted verified =
      let (checked, codes, absent, given_back, device) =
        verified-leaves r sha256_hex app_id email member_id code now w n now counted (omega arith)
          verified in
      refused_of_absent code' now' _ absent

  -- Of a member who is let in with nine wrong codes counted, the tenth drops every unexpired code of the
  -- address and the challenge, and locks the member: the next attempt is refused and changes nothing.
  pub tenth_wrong-locks :
      (w : World Store) (code code' : String) (now now' later : ℕ)
      → count_of (find (fail_key r sha256_hex app_id email member_id) w.store) ≡ some 9
      → may_attempt r sha256_hex app_id email member_id bind_device_limit w.store ≡ true
      → (verify r sha256_hex app_id email member_id code now w).0 ≡ false
      → now ≤ later
      → (get_unexpired_codes_by_email app_id email bind_device_limit later
            (verify r sha256_hex app_id email member_id code now w).1.codes
          ≡ [])
        × (is_device_bind_locked r sha256_hex app_id member_id
              (verify r sha256_hex app_id email member_id code now w).1.store
            ≡ true)
        × (read_device_bind_challenge r sha256_hex app_id email
              (verify r sha256_hex app_id email member_id code now w).1.store
            ≡ none)
        × (verify r sha256_hex app_id email member_id code' now'
              (verify r sha256_hex app_id email member_id code now w).1
            ≡ (false, (verify r sha256_hex app_id email member_id code now w).1))
  unfolding is_device_bind_locked settle_attempt
  tenth_wrong-locks w code code' now now' later counted let_in wrong late =
      let left : World Store = record w {
        store = counted_store r sha256_hex app_id email member_id code now w;
      } in
      let settles =
        verify-settles r sha256_hex app_id email member_id code now w 9 counted let_in
          (omega arith) in
      elim (Bool-cases (verify_code app_id email member_id bind_device_limit code now left).0) [
        | inl right ↦
            (let accepted =
                settle_verified r sha256_hex app_id email member_id code now 10 left right in
              let answered : (verify r sha256_hex app_id email member_id code now w).0 ≡ true =
                ap (λ a. a.0) (settles ∙ accepted) in
              cc)
        | inr not_right ↦
            (let (cleared, kept) = clear_lem r sha256_hex app_id email member_id left.store in
              let after : (verify r sha256_hex app_id email member_id code now w).1 ≡ record left {
                store = clear_device_bind_challenge r sha256_hex app_id email left.store;
                codes = expire_old_codes app_id email bind_device_limit now w.codes;
              } =
                ap (λ a. a.1) settles
                ∙ rw
                    (
                      settle_attempt,
                      verify_code-false app_id email member_id bind_device_limit code now left
                          not_right,
                    )
                    refl in
              (
                rw after (
                    unexpired-expire_old_codes app_id email bind_device_limit now later w.codes
                      late),
                rw
                    (
                      after,
                      read_counter,
                      kept,
                      (count_attempt_lem r sha256_hex app_id email member_id w.store 9 counted).1,
                    )
                    refl,
                rw after cleared,
                refused_of_absent code' now' _ (rw after cleared),
              ))
      ]
