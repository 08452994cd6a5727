-- ===== src/Auth/Limits/Window.antt =====
-- The counters of src/auth/auth-limits.ts as meters of what they admit between their creation and their
-- expiry, over sequences of events. The events are a parameter: each leaves
-- the counter alone, lets time pass, or increments it and is granted at most up to the cap.
use lodestar_server.Prelude.{
  sym, eqb, refl, ℕ, ◌+◌, ◌-◌, ◌≤◌, ◌<◌, String, ◌≡◌, ap, ◌∙◌, Bool, true, false, none, some, List,
  [], ◌∷◌, arith, if◌then◌else◌,
}
use lodestar_server.Redis.{Redis, int, count_of, ttl_of, aged, entry}
use lodestar_server.Auth.Limits.Counter.{ttl_after}

-- How many events of a sequence are granted, from a state on.
abbrev pub granted : {S Event : Type 0} → (Event → S → Bool × S) → List Event → S → ℕ
granted step [] s = 0
granted step (e ∷ es) s =
    let (b, s') = step e s in if b then granted step es s' + 1 else granted step es s'

-- How long the events take.
abbrev pub elapsed : {Event : Type 0} → (Event → ℕ) → List Event → ℕ
elapsed cost [] = 0
elapsed cost (e ∷ es) = cost e + elapsed cost es

module _ (r : Redis) (key : String) (ttl cap : ℕ) where
  open r use {Store, find}

  -- What an event that returns `granted`, takes `cost` seconds and leaves `t` does to the counter.
  pub data Metered (s t : Store) (granted : Bool) (cost : ℕ) : Type 0 where
    idle : granted ≡ false → cost ≡ 0 → find key t ≡ find key s → Metered s t granted cost
    waits : granted ≡ false → find key t ≡ aged cost (find key s) → Metered s t granted cost
    hits :
        (n : ℕ)
        → count_of (find key s) ≡ some n
        → cost ≡ 0
        → find key t ≡ entry (int (n + 1)) (ttl_after n ttl (ttl_of (find key s)))
        → (granted ≡ true → n + 1 ≤ cap)
        → Metered s t granted cost

  module _ {Event : Type 0} (step : Event → Store → Bool × Store) (cost : Event → ℕ) where
    -- The bound for the events that follow, whatever the counter then holds.
    abbrev Bounded : List Event → Store → Type 0
    Bounded es s =
        (n left : ℕ)
        → find key s ≡ entry (int n) (some left)
        → left ≤ ttl
        → elapsed cost es < left
        → granted step es s ≤ cap - n

    Bounded-cons :
        (e : Event) (es : List Event) (s : Store)
        → Metered s (step e s).1 (step e s).0 (cost e)
        → Bounded es (step e s).1
        → Bounded (e ∷ es) s
    Bounded-cons e es s (idle no_grant free same) ih n left at fits short =
        rw no_grant (ih n left (same ∙ at) fits (omega arith))
    Bounded-cons e es s (waits no_grant same) ih n left at fits short = rw no_grant (
        ih n (left - cost e) (same ∙ ap (aged (cost e)) at ∙ ground arith) (omega arith)
          (omega arith))
    Bounded-cons e es s (hits m counted free bumped capped) ih n left at fits short =
        let m≡n : m ≡ n = cc (sym counted ∙ ap count_of at) in
        let bumped' : find key (step e s).1
            ≡ entry (int (n + 1)) (some (if eqb n 0 then ttl else left)) =
          bumped ∙ rw (m≡n, at) (ground arith) in
        let rest : granted step es (step e s).1 ≤ cap - (n + 1) =
          ih (n + 1) (if eqb n 0 then ttl else left) bumped' (ground arith) (ground arith) in
        ground arith

    -- The events treat the key as a counter, where it holds one.
    abbrev pub MetersAll : Type 0
    MetersAll =
        (e : Event) (s : Store) (n : ℕ)
        → count_of (find key s) ≡ some n
        → Metered s (step e s).1 (step e s).0 (cost e)

    module _ (metered : MetersAll) where
      granted-le_of_counted : (es : List Event) (s : Store) → Bounded es s
      granted-le_of_counted [] s = λ n left at fits short. omega arith
      granted-le_of_counted (e ∷ es) s = λ n left at.
          Bounded-cons e es s (metered e s n (ap count_of at))
            (granted-le_of_counted es (step e s).1) n left at

      granted-le_of_fresh_step :
          (e : Event) (es : List Event) (s : Store)
          → Metered s (step e s).1 (step e s).0 (cost e)
          → find key s ≡ none
          → elapsed cost (e ∷ es) < ttl
          → (find key (step e s).1 ≡ none
              → elapsed cost es < ttl
              → granted step es (step e s).1 ≤ cap)
          → granted step (e ∷ es) s ≤ cap
      granted-le_of_fresh_step e es s (idle no_grant free same) fresh short ih =
          rw no_grant (ih (same ∙ fresh) (omega arith))
      granted-le_of_fresh_step e es s (waits no_grant same) fresh short ih =
          rw no_grant (ih (same ∙ ap (aged (cost e)) fresh) (omega arith))
      granted-le_of_fresh_step e es s (hits m counted free bumped capped) fresh short ih =
          let m≡0 : m ≡ 0 = cc (sym counted ∙ ap count_of fresh) in
          let bumped' : find key (step e s).1 ≡ entry (int 1) (some ttl) = bumped ∙ rw m≡0 refl in
          let rest : granted step es (step e s).1 ≤ cap - 1 =
            granted-le_of_counted es (step e s).1 1 ttl bumped' (omega arith) (omega arith) in
          ground arith

      -- From no counter, at most `cap` events are granted within less than the TTL.
      pub granted-le_cap :
          (es : List Event) (s : Store)
          → find key s ≡ none
          → elapsed cost es < ttl
          → granted step es s ≤ cap
      granted-le_cap [] s fresh short = omega arith
      granted-le_cap (e ∷ es) s fresh short =
          granted-le_of_fresh_step e es s (metered e s 0 (ap count_of fresh)) fresh short
            (granted-le_cap es (step e s).1)
