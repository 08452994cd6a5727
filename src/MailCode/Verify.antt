-- ===== src/MailCode/Verify.antt =====
-- verifyDeviceBindCode: what a verification that succeeds leaves, and what the last wrong one does.
use lodestar_server.Prelude.{
  ℕ, suc, ◌+◌, ◌≤◌, String, ◌≡◌, refl, ap, ◌∙◌, Bool, true, false, Option, none, some, [], ◌==◌,
  Bool-cases, inl, inr, All, eq_refl, arith,
}
use lodestar_server.Redis.{Redis, int, count_of, ttl_of, entry}
use lodestar_server.Auth.Keys.{device_bind, device_bind_fail}
use lodestar_server.Auth.Keys.Distinct.{==-eq-false_of_ne, device_bind-ne-device_bind_fail}
use lodestar_server.Auth.Limits.{
  decrement_if_exists, read_device_bind_challenge, clear_device_bind_challenge,
}
use lodestar_server.Auth.Limits.Counter.{ttl_after, incr_key_reply, find-incr_key_self}
use lodestar_server.Auth.Device.{MemberDevice, get_member_devices, delete_member_device_by_id}
use lodestar_server.MailCode.{World, get_unexpired_codes_by_email}
use lodestar_server.MailCode.Service.{
  bind_device_limit, expiration_ms, check_code_expired, expire_old_codes, oldest_member_device,
  verify_code, may_attempt, count_attempt, settle_attempt, verify_device_bind_code,
}
use lodestar_server.MailCode.Codes.{unexpired-expire_old_codes}
use lodestar_server.MailCode.Compare.{verify_code-true, oldest-le}

module _ (r : Redis) (sha256_hex : String → String) (app_id email member_id : String) where
  open r use {Store, find, find-del}

  abbrev pub fail_key : String
  fail_key = device_bind_fail sha256_hex app_id member_id

  abbrev pub bind_key : String
  bind_key = device_bind sha256_hex app_id email

  bind-ne-fail : (bind_key == fail_key) ≡ false
  bind-ne-fail =
      ==-eq-false_of_ne _ _
        (device_bind-ne-device_bind_fail sha256_hex app_id app_id email member_id)

  -- The count of an attempt: its number, and the counter that it leaves.
  pub count_attempt_lem :
      (s : Store) (n : ℕ)
      → count_of (find fail_key s) ≡ some n
      → ((count_attempt r sha256_hex app_id member_id s).0 ≡ n + 1)
        × (find fail_key (count_attempt r sha256_hex app_id member_id s).1
            ≡ entry (int (n + 1)) (ttl_after n 3600 (ttl_of (find fail_key s))))
  unfolding count_attempt
  count_attempt_lem s n counted =
      (incr_key_reply r fail_key 3600 s n counted, find-incr_key_self r fail_key 3600 s n counted)

  -- Clearing the challenge of the address leaves none, and leaves the counter.
  pub clear_lem :
      (s : Store)
      → (read_device_bind_challenge r sha256_hex app_id email
            (clear_device_bind_challenge r sha256_hex app_id email s)
          ≡ none)
        × (find fail_key (clear_device_bind_challenge r sha256_hex app_id email s)
            ≡ find fail_key s)
  unfolding read_device_bind_challenge clear_device_bind_challenge
  clear_lem s = (
    ground (arith, find-del bind_key bind_key s, eq_refl bind_key),
    find-del fail_key bind_key s ∙ rw bind-ne-fail refl,
  )

  -- A correct code gives its count back.
  pub decrement_lem :
      (s : Store) (n : ℕ) (t : Option ℕ)
      → find fail_key s ≡ entry (int (n + 1)) t
      → find fail_key (decrement_if_exists r fail_key s).1 ≡ entry (int n) t
  unfolding decrement_if_exists
  decrement_lem s n t at =
      let next : n + 1 ≡ suc n = omega arith in
      rw (decrement_if_exists, at)
        (r.find-decr_self fail_key s n (ap count_of at ∙ ap some next) ∙ rw at refl)

  module _ (code : String) (now : ℕ) where
    abbrev pub verify : World Store → Bool × World Store
    verify = verify_device_bind_code r sha256_hex app_id email member_id bind_device_limit code now

    abbrev pub counted_store : World Store → Store
    counted_store w = (count_attempt r sha256_hex app_id member_id w.store).1

    -- A verification that is let in and is no more than the tenth counted settles its attempt.
    pub verify-settles :
        (w : World Store) (n : ℕ)
        → count_of (find fail_key w.store) ≡ some n
        → may_attempt r sha256_hex app_id email member_id bind_device_limit w.store ≡ true
        → n + 1 ≤ 10
        → verify w
          ≡ settle_attempt r sha256_hex app_id email member_id bind_device_limit code
              (n + 1)
              now
              (record w { store = counted_store w })
    unfolding verify_device_bind_code
    verify-settles w n counted let_in few =
        let (number, left) = count_attempt_lem w.store n counted in ground (arith, let_in, number)

    verify-true-parts :
        (w : World Store) (n : ℕ)
        → count_of (find fail_key w.store) ≡ some n
        → (verify w).0 ≡ true
        → (may_attempt r sha256_hex app_id email member_id bind_device_limit w.store ≡ true)
          × (n + 1 ≤ 10)
    unfolding verify_device_bind_code
    verify-true-parts w n counted h =
        let (number, left) = count_attempt_lem w.store n counted in ground (arith, number)

    -- An attempt whose code is accepted settles as the verification leaves the tables.
    pub settle_verified :
        (attempts : ℕ) (w : World Store)
        → (verify_code app_id email member_id bind_device_limit code now w).0 ≡ true
        → settle_attempt r sha256_hex app_id email member_id bind_device_limit code attempts now w
          ≡ (
            true,
            record (verify_code app_id email member_id bind_device_limit code now w).1 {
              store =
                  clear_device_bind_challenge r sha256_hex app_id email
                    (decrement_if_exists r fail_key
                      (verify_code app_id email member_id bind_device_limit code now w).1.store).1;
            },
          )
    unfolding settle_attempt
    settle_verified attempts w h = rw (settle_attempt, h) refl

    -- An attempt whose code is not accepted is answered with false.
    settle_wrong :
        (attempts : ℕ) (w : World Store)
        → (verify_code app_id email member_id bind_device_limit code now w).0 ≡ false
        → (settle_attempt r sha256_hex app_id email member_id bind_device_limit code attempts now
            w).0
          ≡ false
    unfolding settle_attempt
    settle_wrong attempts w h = ground arith

    -- Where the counter of wrong codes can be read: a code that is verified was unexpired, and no code of the address is unexpired any more; the
    -- challenge is gone, the attempt is not counted, and the member has lost the device created first.
    pub verified-leaves :
        (w : World Store) (n later : ℕ)
        → count_of (find fail_key w.store) ≡ some n
        → now ≤ later
        → (verify w).0 ≡ true
        → (check_code_expired app_id email bind_device_limit code expiration_ms now w.codes ≡ true)
          × (get_unexpired_codes_by_email app_id email bind_device_limit later (verify w).1.codes
              ≡ [])
          × (read_device_bind_challenge r sha256_hex app_id email (verify w).1.store ≡ none)
          × (count_of (find fail_key (verify w).1.store) ≡ some n)
          × ((oldest : MemberDevice) × (oldest_member_device
                  (get_member_devices member_id w.devices)
                ≡ some oldest)
              × All (λ e. oldest.created_at ≤ e.created_at) (get_member_devices member_id w.devices)
              × ((verify w).1.devices ≡ delete_member_device_by_id oldest.id w.devices))
    verified-leaves w n later counted late verified =
        let (let_in, few) = verify-true-parts w n counted verified in
        let counted_w : World Store = record w { store = counted_store w } in
        let settles = verify-settles w n counted let_in few in
        elim (Bool-cases
          (verify_code app_id email member_id bind_device_limit code now counted_w).0) [
            | inr wrong ↦ (let refused = settle_wrong (n + 1) counted_w wrong in cc)
            | inl right ↦
                (let (checked, (oldest, found, tables)) =
                    verify_code-true app_id email member_id bind_device_limit code now counted_w
                      right in
                  let after : (verify w).1 ≡ record counted_w {
                    devices = delete_member_device_by_id oldest.id w.devices;
                    codes = expire_old_codes app_id email bind_device_limit now w.codes;
                    store =
                        clear_device_bind_challenge r sha256_hex app_id email
                          (decrement_if_exists r fail_key (counted_store w)).1;
                  } =
                    ap (λ a. a.1) settles
                    ∙ ap (λ a. a.1) (settle_verified (n + 1) counted_w right)
                    ∙ rw tables refl in
                  let (cleared, kept) =
                    clear_lem (decrement_if_exists r fail_key (counted_store w)).1 in
                  (
                    checked,
                    rw after (
                        unexpired-expire_old_codes app_id email bind_device_limit now later w.codes
                          late),
                    rw after cleared,
                    rw after (
                        ap count_of (
                          kept
                          ∙ decrement_lem (counted_store w) n _
                              (count_attempt_lem w.store n counted).1)),
                    (oldest, found, oldest-le _ oldest found, rw after refl),
                  ))
          ]
