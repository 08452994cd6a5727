-- ===== src/Auth/Limits/Gate.antt =====
-- What allowTokenIssue and allowDeviceBindSend share: SET NX of a cooldown key, then one round of the
-- hourly counter, and the answer by the cap.
use lodestar_server.Prelude.{
  ℕ, ◌+◌, String, ◌≡◌, refl, ap, ◌∙◌, Bool, true, false, ◌&&◌, some, [], ◌∷◌, leb, is_none, ◌==◌,
  eq_iff, eq_refl, arith, if◌then◌else◌, Bool-cases, Option-cases, inl, inr,
}
use lodestar_server.Redis.{Redis, Entry, int, count_of, ttl_of, entry}
use lodestar_server.Auth.Limits.{head_or_zero, increment_with_ttl, acquire_cooldown}
use lodestar_server.Auth.Limits.Counter.{
  ttl_after, incr_key_reply, find-incr_key_self, find-incr_key_ne,
}
use lodestar_server.Auth.Limits.Window.{Metered, idle, hits}
use lodestar_server.Auth.Limits.Cooldown.{Cooled, shut, opens}

module _ (r : Redis) (cooldown : String) (cooldown_ttl : ℕ) (count : String) (ttl cap : ℕ) where
  open r use {Store, find, set_nx, find-set_nx, set_nx_reply}

  abbrev pub gate : Store → Bool × Store
  gate s =
      let (cooled, s') = acquire_cooldown r cooldown cooldown_ttl s in
      if cooled
      then (let (counts, s'') = increment_with_ttl r ((count, ttl) ∷ []) s' in
          (leb (head_or_zero counts) cap, s''))
      else (false, s')

  module _ (other : (cooldown == count) ≡ false) where
    swapped : (count == cooldown) ≡ false
    swapped = ground (arith, eq_iff cooldown count, eq_iff count cooldown)

    cooled_reply :
        (s : Store) → (acquire_cooldown r cooldown cooldown_ttl s).0 ≡ is_none (find cooldown s)
    unfolding acquire_cooldown
    cooled_reply s = set_nx_reply cooldown (int 1) cooldown_ttl s

    refused : (s : Store) (e : Entry) → find cooldown s ≡ some e → (gate s).0 ≡ false
    refused s e running = ground (arith, cooled_reply s)

    -- The count stands as before after the cooldown's SET NX.
    find-cooled :
        (s : Store) → find count (acquire_cooldown r cooldown cooldown_ttl s).1 ≡ find count s
    unfolding acquire_cooldown
    find-cooled s = ground (arith, find-set_nx count cooldown (int 1) cooldown_ttl s)

    module _ (s : Store) (n : ℕ) (counted : count_of (find count s) ≡ some n) where
      counted-cooled : count_of (find count (acquire_cooldown r cooldown cooldown_ttl s).1) ≡ some n
      counted-cooled = ap count_of (find-cooled s) ∙ counted

      -- Granted exactly where no cooldown runs and the counter, incremented, is within the cap.
      pub gate_granted : (gate s).0 ≡ (is_none (find cooldown s) && leb (n + 1) cap)
      unfolding increment_with_ttl
      gate_granted = ground (
        arith,
        cooled_reply s,
        incr_key_reply r count ttl (acquire_cooldown r cooldown cooldown_ttl s).1 n counted-cooled,
      )

      pub find-gate-count : find count (gate s).1 ≡ (
          if is_none (find cooldown s)
          then entry (int (n + 1)) (ttl_after n ttl (ttl_of (find count s)))
          else find count s)
      unfolding increment_with_ttl
      find-gate-count = ground (
        arith,
        cooled_reply s,
        find-cooled s,
        find-incr_key_self r count ttl (acquire_cooldown r cooldown cooldown_ttl s).1 n
            counted-cooled,
      )

    pub find-gate_cooldown :
        (s : Store)
        → find cooldown (gate s).1 ≡ (
            if is_none (find cooldown s)
            then entry (int 1) (some cooldown_ttl)
            else find cooldown s)
    unfolding increment_with_ttl acquire_cooldown
    find-gate_cooldown s = ground (
      arith,
      cooled_reply s,
      find-set_nx cooldown cooldown (int 1) cooldown_ttl s,
      eq_refl cooldown,
      find-incr_key_ne r cooldown count ttl (acquire_cooldown r cooldown cooldown_ttl s).1 swapped,
    )

    -- Keys that are neither of the two are left as they are.
    pub find-gate_ne :
        (j : String) (s : Store)
        → (cooldown == j) ≡ false
        → (count == j) ≡ false
        → find j (gate s).1 ≡ find j s
    unfolding increment_with_ttl acquire_cooldown
    find-gate_ne j s h k = ground (
      arith,
      find-set_nx j cooldown (int 1) cooldown_ttl s,
      find-incr_key_ne r j count ttl (acquire_cooldown r cooldown cooldown_ttl s).1 k,
    )

    pub gate-Metered :
        (s : Store) (n : ℕ)
        → count_of (find count s) ≡ some n
        → Metered r count ttl cap s (gate s).1 (gate s).0 0
    gate-Metered s n counted = elim (Bool-cases (is_none (find cooldown s))) [
      | inl free ↦
          hits n counted refl (find-gate-count s n counted ∙ rw free)
            (λ yes_granted. ground (arith, gate_granted s n counted))
      | inr running ↦
          idle (gate_granted s n counted ∙ rw running) refl
            (find-gate-count s n counted ∙ rw running)
    ]

    pub gate-Cooled : (s : Store) → Cooled r cooldown s (gate s).1 (gate s).0 0
    gate-Cooled s = elim (Option-cases (find cooldown s)) [
      | inl absent ↦ opens absent
      | inr (e, running) ↦ shut (refused s e running) refl (find-gate_cooldown s ∙ rw running)
    ]

    -- A grant has started the cooldown.
    pub find-gate_cooldown_of_granted :
        (s : Store)
        → (gate s).0 ≡ true
        → find cooldown (gate s).1 ≡ entry (int 1) (some cooldown_ttl)
    find-gate_cooldown_of_granted s passed = elim (Option-cases (find cooldown s)) [
      | inl absent ↦ find-gate_cooldown s ∙ rw absent refl
      | inr (e, running) ↦ cc (refused s e running)
    ]
