-- ===== src/Auth/Limits/Challenge.antt =====
-- The challenges of src/auth/auth-limits.ts: writing, reading, clearing and running out.
use mathlib.Core.Bool.{and-eq-true_iff}
use lodestar_server.Prelude.{
  ℕ, ◌≤◌, String, ◌≡◌, ◌≢◌, ◌↔◌, refl, sym, ap, ◌∙◌, true, false, Option, none, some, [], ◌∷◌, ◌==◌,
  eq_iff, eq_refl, arith,
}
use lodestar_server.Redis.{Redis, object, aged, entry}
use lodestar_server.Auth.Keys.{device_login_limit, device_bind, fingerprint_hash, safe_equal}
use lodestar_server.Auth.Limits.{
  write_device_login_challenge, match_device_login_challenge, clear_device_login_challenge,
  write_device_bind_challenge, read_device_bind_challenge, clear_device_bind_challenge,
}

module _ (r : Redis) (sha256_hex : String → String) where
  open r use {Store, find, elapse, find-set, find-del, find-elapse}

  -- The comparison holds of equal texts, and of no others if the hash has no collision.
  safe_equal_iff :
      ((s t : String) → sha256_hex s ≡ sha256_hex t → s ≡ t)
      → (s t : String) → (safe_equal sha256_hex (some s) (some t) ≡ true) ↔ (s ≡ t)
  unfolding safe_equal
  safe_equal_iff inj s t = (
    λ e. inj s t ((eq_iff _ _).0 ((and-eq-true_iff _ _).0 e).0),
    λ e. rw e (rw (eq_refl (sha256_hex t)) (ground arith)),
  )

  module _ (app_id member_id : String) (named : app_id ≢ "") (filled_in : member_id ≢ "") where
    -- Right after the challenge is written for one fingerprint, exactly that fingerprint matches it, if
    -- the hash has no collision and no part is empty.
    pub match-write_device_login_challenge_iff :
        ((s t : String) → sha256_hex s ≡ sha256_hex t → s ≡ t)
        → (fp fp' : String) (s : Store) → fp' ≢ ""
        → (match_device_login_challenge r sha256_hex app_id member_id
              (some fp')
              (write_device_login_challenge r sha256_hex app_id member_id fp s)
            ≡ true)
          ↔ (fp ≡ fp')
    unfolding match_device_login_challenge write_device_login_challenge fingerprint_hash
    match-write_device_login_challenge_iff inj fp fp' s given =
        let stored : find (device_login_limit sha256_hex app_id member_id)
              (write_device_login_challenge r sha256_hex app_id member_id fp s)
            ≡ entry (object (("fp", fingerprint_hash sha256_hex fp) ∷ [])) (some 600) =
          find-set _ _ _ 600 s
          ∙ rw (eq_refl (device_login_limit sha256_hex app_id member_id)) refl in
        let (to, from) = safe_equal_iff inj (sha256_hex fp) (sha256_hex fp') in
        let compared : match_device_login_challenge r sha256_hex app_id member_id (some fp')
              (write_device_login_challenge r sha256_hex app_id member_id fp s)
            ≡ safe_equal sha256_hex (some (sha256_hex fp)) (some (sha256_hex fp')) =
          ground (arith, stored, eq_iff app_id "", eq_iff member_id "", eq_iff fp' "") in
        (λ e. inj _ _ (to (sym compared ∙ e)), λ e. compared ∙ from (ap sha256_hex e))

  -- Without a live challenge no fingerprint matches.
  pub match-eq-false_of_absent :
      (app_id member_id : String) (fp : Option String) (s : Store)
      → find (device_login_limit sha256_hex app_id member_id) s ≡ none
      → match_device_login_challenge r sha256_hex app_id member_id fp s ≡ false
  unfolding match_device_login_challenge safe_equal
  match-eq-false_of_absent app_id member_id none s absent = refl
  match-eq-false_of_absent app_id member_id (some fp) s absent = ground arith

  -- A challenge that was written no longer matches any fingerprint once it is cleared, or after ten minutes.
  match-gone :
      (app_id member_id fp : String) (fp' : Option String) (s : Store) (n : ℕ)
      → 600 ≤ n
      → (match_device_login_challenge r sha256_hex app_id member_id fp' (
            clear_device_login_challenge r sha256_hex app_id member_id
              (write_device_login_challenge r sha256_hex app_id member_id fp s))
          ≡ false)
        × (match_device_login_challenge r sha256_hex app_id member_id fp'
              (elapse n (write_device_login_challenge r sha256_hex app_id member_id fp s))
            ≡ false)
  unfolding write_device_login_challenge clear_device_login_challenge
  match-gone app_id member_id fp fp' s n late =
      let key = device_login_limit sha256_hex app_id member_id in
      let value = object (("fp", fingerprint_hash sha256_hex fp) ∷ []) in
      let stored : find key (r.set key value 600 s) ≡ entry value (some 600) =
        find-set key key value 600 s ∙ rw (eq_refl key) refl in
      (
        match-eq-false_of_absent app_id member_id fp' _
            (find-del key key _ ∙ rw (eq_refl key) refl),
        match-eq-false_of_absent app_id member_id fp' _
            (find-elapse key n _ ∙ ap (aged n) stored ∙ ground arith),
      )

  -- The bind challenge of an address is read back as the member it was written for, under any spelling
  -- of the address that normalizes alike; once it is cleared, or after half an hour, none is read.
  read-write_device_bind_challenge :
      (app_id email email' member_id : String) (s : Store) (n : ℕ)
      → app_id ≢ ""
      → email' ≢ ""
      → member_id ≢ ""
      → device_bind sha256_hex app_id email ≡ device_bind sha256_hex app_id email'
      → 1800 ≤ n
      → (read_device_bind_challenge r sha256_hex app_id email'
            (write_device_bind_challenge r sha256_hex app_id email member_id s)
          ≡ some member_id)
        × (read_device_bind_challenge r sha256_hex app_id email' (
              clear_device_bind_challenge r sha256_hex app_id email
                (write_device_bind_challenge r sha256_hex app_id email member_id s))
            ≡ none)
        × (read_device_bind_challenge r sha256_hex app_id email'
              (elapse n (write_device_bind_challenge r sha256_hex app_id email member_id s))
            ≡ none)
  unfolding read_device_bind_challenge write_device_bind_challenge clear_device_bind_challenge
  read-write_device_bind_challenge app_id email email' member_id s n named given filled_in same
        late =
      let key = device_bind sha256_hex app_id email in
      let key' = device_bind sha256_hex app_id email' in
      let written = r.set key (object (("memberId", member_id) ∷ [])) 1800 s in
      let alike : (key == key') ≡ true = (eq_iff key key').1 same in
      let stored : find key' written ≡ entry (object (("memberId", member_id) ∷ [])) (some 1800) =
        find-set key' key _ 1800 s ∙ rw alike refl in
      let cleared : find key' (r.del key written) ≡ none =
        find-del key' key written ∙ rw alike refl in
      let lapsed : find key' (elapse n written) ≡ none =
        find-elapse key' n written ∙ ap (aged n) stored ∙ ground arith in
      (
        ground (arith, stored, eq_iff app_id "", eq_iff email' "", eq_iff member_id ""),
        ground (arith, cleared),
        ground (arith, lapsed),
      )
