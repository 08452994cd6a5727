-- ===== src/MailCode/Compare.antt =====
-- verifyMailVerificationCode: what the comparison of a code does to the tables.
use lodestar_server.Prelude.{
  ℕ, ◌≤◌, String, ◌≡◌, refl, true, false, some, List, [], ◌∷◌, Bool-cases, Option-cases, inl, inr,
  All, arith,
}
use mathlib.Core.Path.{subst}
use lodestar_server.Auth.Device.{MemberDevice, get_member_devices, delete_member_device_by_id}
use lodestar_server.MailCode.{World}
use lodestar_server.MailCode.Service.{
  expiration_ms, check_code_expired, expire_old_codes, oldest_member_device, older, fold_older,
  verify_code,
}

-- What the verification of a code that is accepted does to the tables.
pub verify_code-true :
    {S : Type 0}
    → (app_id email member_id type code : String) (now : ℕ) (w : World S)
    → (verify_code app_id email member_id type code now w).0 ≡ true
    → (check_code_expired app_id email type code expiration_ms now w.codes ≡ true)
      × ((oldest : MemberDevice) × (oldest_member_device (get_member_devices member_id w.devices)
            ≡ some oldest)
          × ((verify_code app_id email member_id type code now w).1 ≡ record w {
            devices = delete_member_device_by_id oldest.id w.devices;
            codes = expire_old_codes app_id email type now w.codes;
          }))
unfolding verify_code
verify_code-true app_id email member_id type code now w h =
    elim (Bool-cases (check_code_expired app_id email type code expiration_ms now w.codes)) [
      | inl t ↦
          elim (Option-cases (oldest_member_device (get_member_devices member_id w.devices))) [
            | inl alone ↦
                (let refused : (verify_code app_id email member_id type code now w).0 ≡ false =
                    rw (verify_code, t, alone) refl in
                  cc)
            | inr (d, oldest) ↦ (t, (d, oldest, rw (verify_code, t, oldest) refl))
          ]
      | inr f ↦
          (let refused : (verify_code app_id email member_id type code now w).0 ≡ false =
              rw (verify_code, f) refl in
            cc)
    ]

-- The device that is removed was created no later than any other.
fold_older-le :
    (d : MemberDevice) (ds : List MemberDevice)
    → ((fold_older d ds).created_at ≤ d.created_at)
      × All (λ e. (fold_older d ds).created_at ≤ e.created_at) ds
fold_older-le d [] = (omega arith, tt)
fold_older-le d (e ∷ ds) =
    let (first, rest) = fold_older-le (older d e) ds in
    (ground (arith, first), (ground (arith, first), rest))

pub oldest-le :
    (ds : List MemberDevice) (oldest : MemberDevice)
    → oldest_member_device ds ≡ some oldest
    → All (λ e. oldest.created_at ≤ e.created_at) ds
unfolding oldest_member_device
oldest-le [] oldest h = cc
oldest-le (d ∷ ds) oldest h =
    let same : fold_older d (d ∷ ds) ≡ oldest = cc h in
    subst (λ o. All (λ e. o.created_at ≤ e.created_at) (d ∷ ds)) same (fold_older-le d (d ∷ ds)).1

-- A code that is not accepted leaves the world as it was.
pub verify_code-false :
    {S : Type 0}
    → (app_id email member_id type code : String) (now : ℕ) (w : World S)
    → (verify_code app_id email member_id type code now w).0 ≡ false
    → verify_code app_id email member_id type code now w ≡ (false, w)
unfolding verify_code
verify_code-false app_id email member_id type code now w h =
    elim (Bool-cases (check_code_expired app_id email type code expiration_ms now w.codes)) [
      | inl t ↦
          elim (Option-cases (oldest_member_device (get_member_devices member_id w.devices))) [
            | inl alone ↦ rw (verify_code, t, alone) refl
            | inr (d, oldest) ↦
                (let accepted : (verify_code app_id email member_id type code now w).0 ≡ true =
                    rw (verify_code, t, oldest) refl in
                  cc)
          ]
      | inr f ↦ rw (verify_code, f) refl
    ]

-- The verification of a code does not touch the store.
pub verify_code-store :
    {S : Type 0}
    → (app_id email member_id type code : String) (now : ℕ) (w : World S)
    → (verify_code app_id email member_id type code now w).1.store ≡ w.store
unfolding verify_code
verify_code-store app_id email member_id type code now w =
    elim (Bool-cases (check_code_expired app_id email type code expiration_ms now w.codes)) [
      | inl t ↦
          elim (Option-cases (oldest_member_device (get_member_devices member_id w.devices))) [
            | inl alone ↦ rw (verify_code, t, alone) refl
            | inr (d, oldest) ↦ rw (verify_code, t, oldest) refl
          ]
      | inr f ↦ rw (verify_code, f) refl
    ]
