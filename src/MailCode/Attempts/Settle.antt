-- ===== src/MailCode/Attempts/Settle.antt =====
-- verifyDeviceBindCode: the counter of wrong codes when an attempt under way is settled.
use lodestar_server.Prelude.{
  ℕ, zero, suc, ◌+◌, String, ◌≡◌, refl, ap, ◌∙◌, true, false, ◌⊎◌, inl, inr, Option, some, List, [],
  ◌∷◌, leb, Bool-cases, Option-cases, length, arith,
}
use lodestar_server.Redis.{Redis, int, entry}
use lodestar_server.Auth.Keys
use lodestar_server.MailCode.{World}
use lodestar_server.MailCode.Service.{bind_device_limit, settle_attempt, verify_code}
use lodestar_server.MailCode.Verify.{fail_key, clear_lem, decrement_lem}
use lodestar_server.MailCode.Compare.{verify_code-store}
use lodestar_server.MailCode.Attempts.{pick}

pub length-pick :
    {A : Type 0}
    → (n : ℕ) (xs : List A) (y : A) (ys : List A) → pick n xs ≡ some (y, ys)
    → length xs ≡ length ys + 1
length-pick n [] y ys h = cc
length-pick zero (x ∷ xs) y ys h = let same : ys ≡ xs = cc in rw same (omega arith)
length-pick (suc n) (x ∷ xs) y ys h = elim (Option-cases (pick n xs)) [
  | inl absent ↦ cc
  | inr ((z, zs), found) ↦
      (let one_more = length-pick n xs z zs found in
        let same : ys ≡ x ∷ zs = cc in rw same (omega (arith, one_more)))
]

module _ (r : Redis) (sha256_hex : String → String) (app_id member_id : String) where
  open r use {Store, find, elapse, find-set, find-elapse}

  -- Settling an attempt gives its count back, or leaves the counter and is answered with false.
  pub settle-fail_key :
      (email code : String) (attempts now n : ℕ) (t : Option ℕ) (w : World Store)
      → find (fail_key r sha256_hex app_id email member_id) w.store ≡ entry (int (n + 1)) t
      → (((settle_attempt r sha256_hex app_id email member_id bind_device_limit code attempts now
              w).0
            ≡ true)
          × (find
                (fail_key r sha256_hex app_id email member_id)
                (settle_attempt r sha256_hex app_id email member_id bind_device_limit code attempts
                  now w).1.store
              ≡ entry (int n) t))
        ⊎ (((settle_attempt r sha256_hex app_id email member_id bind_device_limit code attempts now
                w).0
              ≡ false)
            × (find
                  (fail_key r sha256_hex app_id email member_id)
                  (settle_attempt r sha256_hex app_id email member_id bind_device_limit code
                    attempts now w).1.store
                ≡ entry (int (n + 1)) t))
  unfolding settle_attempt
  settle-fail_key email code attempts now n t w at =
      let key = fail_key r sha256_hex app_id email member_id in
      let verified = verify_code app_id email member_id bind_device_limit code now w in
      let at' : find key verified.1.store ≡ entry (int (n + 1)) t =
        ap (find key) (verify_code-store app_id email member_id bind_device_limit code now w)
        ∙ at in
      elim (Bool-cases verified.0) [
        | inl right ↦ inl (
          rw (settle_attempt, right) refl,
          rw (settle_attempt, right)
              ((clear_lem r sha256_hex app_id email member_id _).1
                ∙ decrement_lem r sha256_hex app_id email member_id verified.1.store n t at'),
        )
        | inr not_right ↦ inr (elim (Bool-cases (leb Keys.device_bind_fail_cap attempts)) [
          | inl last ↦ (
            rw (settle_attempt, not_right, last) refl,
            rw (settle_attempt, not_right, last)
                ((clear_lem r sha256_hex app_id email member_id _).1 ∙ at'),
          )
          | inr early ↦ (
            rw (settle_attempt, not_right, early) refl,
            rw (settle_attempt, not_right, early) at',
          )
        ])
      ]
