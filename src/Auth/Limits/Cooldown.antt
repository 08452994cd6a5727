-- ===== src/Auth/Limits/Cooldown.antt =====
-- The cooldown keys of src/auth/auth-limits.ts over sequences of events. The events are a parameter:
-- each leaves the key alone, lets time pass, or is granted only where the key is absent.
use lodestar_server.Prelude.{
  ℕ, ◌-◌, ◌<◌, String, ◌≡◌, refl, ap, ◌∙◌, Bool, false, some, none, List, [], ◌∷◌, arith,
}
use lodestar_server.Redis.{Redis, Value, aged, entry}
use lodestar_server.Auth.Limits.Window.{granted, elapsed}

module _ (r : Redis) (key : String) where
  open r use {Store, find}

  -- What an event that returns `granted`, takes `cost` seconds and leaves `t` does to the cooldown.
  pub data Cooled (s t : Store) (granted : Bool) (cost : ℕ) : Type 0 where
    shut : granted ≡ false → cost ≡ 0 → find key t ≡ find key s → Cooled s t granted cost
    waits : granted ≡ false → find key t ≡ aged cost (find key s) → Cooled s t granted cost
    opens : find key s ≡ none → Cooled s t granted cost

  module _ {Event : Type 0} (step : Event → Store → Bool × Store) (cost : Event → ℕ) where
    -- The bound for the events that follow, whatever the cooldown has left.
    abbrev pub Quiet : List Event → Store → Type 0
    Quiet es s =
        (v : Value) (left : ℕ)
        → find key s ≡ entry v (some left)
        → elapsed cost es < left
        → granted step es s ≡ 0

    Quiet-cons :
        (e : Event) (es : List Event) (s : Store)
        → Cooled s (step e s).1 (step e s).0 (cost e)
        → Quiet es (step e s).1
        → Quiet (e ∷ es) s
    Quiet-cons e es s (shut no_grant free same) ih v left at short =
        rw no_grant (ih v left (same ∙ at) (omega arith))
    Quiet-cons e es s (waits no_grant same) ih v left at short =
        rw no_grant
          (ih v (left - cost e) (same ∙ ap (aged (cost e)) at ∙ ground arith) (omega arith))
    Quiet-cons e es s (opens absent) ih v left at short = cc

    pub granted-eq-zero :
        ((e : Event) (s : Store) → Cooled s (step e s).1 (step e s).0 (cost e))
        → (es : List Event) (s : Store) → Quiet es s
    granted-eq-zero cooled [] s = λ v left at short. refl
    granted-eq-zero cooled (e ∷ es) s =
        Quiet-cons e es s (cooled e s) (granted-eq-zero cooled es (step e s).1)
