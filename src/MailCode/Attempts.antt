-- ===== src/MailCode/Attempts.antt =====
-- verifyDeviceBindCode under concurrency: requests of one member that interleave between the count of an
-- attempt and its settling, with other requests and the passing of time.
pub mod Settle
pub mod Bound
use lodestar_server.Prelude.{
  ℕ, zero, suc, ◌+◌, ◌-◌, ◌≤◌, ◌<◌, String, ◌≡◌, refl, sym, ap, ◌∙◌, Bool, true, false, ◌⊎◌, inl,
  inr, Option, none, some, List, [], ◌∷◌, ltb, leb, eqb, Bool-cases, Option-cases, length, ◌==◌,
  arith, if◌then◌else◌,
}
use lodestar_server.Redis.{Redis, count_of, int, entry, aged}
use lodestar_server.Auth.Keys
use lodestar_server.Auth.Keys.Distinct.{==-eq-false_of_ne, device_bind-ne-device_bind_fail}
use lodestar_server.Auth.Limits.{clear_device_bind_challenge, write_device_bind_challenge}
use lodestar_server.Auth.Limits.Window.{elapsed}
use lodestar_server.Auth.Device.{Table, get_member_devices}
use lodestar_server.MailCode.{Codes, World}
use lodestar_server.MailCode.Service.{
  bind_device_limit, count_attempt, settle_attempt, verify_code, check_code_expired, expiration_ms,
  oldest_member_device,
}
use lodestar_server.MailCode.Verify.{fail_key, count_attempt_lem, clear_lem, decrement_lem}

-- A request that has been counted and is not yet compared.
pub record Attempt : Type 0 where
  pub email : String
  pub code : String
  pub attempts : ℕ

-- The world, the attempts under way, and how many wrong codes were compared.
pub record Room (S : Type 0) : Type 0 where
  pub world : World S
  pub pending : List Attempt
  pub wrong : ℕ

-- `count`: a request that was let in counts its attempt, whatever has happened since it was let in.
-- `settle i now`: the i-th of the attempts under way is compared. `sign_in`: the member gets a challenge.
-- `rewrite`: others write the tables. `wait`: seconds pass.
pub data Event : Type 0 where
  count : String → String → Event
  settle : ℕ → ℕ → Event
  sign_in : String → String → Event
  rewrite : Codes → Table → Event
  wait : ℕ → Event

abbrev pub cost : Event → ℕ
cost (wait n) = n
cost _ = 0

abbrev pub pick : {A : Type 0} → ℕ → List A → Option (A × List A)
pick n [] = none
pick zero (x ∷ xs) = some (x, xs)
pick (suc n) (x ∷ xs) = elim (pick n xs) [ none ↦ none | some (y, ys) ↦ some (y, x ∷ ys) ]

module _ (r : Redis) (sha256_hex : String → String) (app_id member_id : String) where
  open r use {Store, elapse}

  abbrev pub counted_after : String → String → ℕ × Store → Room Store → Room Store
  counted_after email code (attempts, s) room =
      if ltb Keys.device_bind_fail_cap attempts
      then record room { world = record room.world { store = s } }
      else record room {
        world = record room.world { store = s };
        pending = record { email = email; code = code; attempts = attempts } ∷ room.pending;
      }

  abbrev pub settled_after : Bool × World Store → List Attempt → ℕ → Room Store
  settled_after (answer, w) rest wrong = record {
    world = w;
    pending = rest;
    wrong = if answer then wrong else wrong + 1;
  }

  unfoldable pub step : Event → Room Store → Room Store
  step (count email code) room =
      counted_after email code (count_attempt r sha256_hex app_id member_id room.world.store) room
  step (settle i now) room = elim (pick i room.pending) [
    | none ↦ room
    | some (a, rest) ↦
        settled_after
          (settle_attempt r sha256_hex app_id a.email member_id bind_device_limit a.code a.attempts
            now room.world)
          rest room.wrong
  ]
  step (sign_in email id) room = record room {
    world = record room.world {
      store = write_device_bind_challenge r sha256_hex app_id email id room.world.store;
    };
  }
  step (rewrite codes devices) room = record room {
    world = record room.world { codes = codes; devices = devices };
  }
  step (wait n) room = record room {
    world = record room.world { store = elapse n room.world.store };
  }

  unfoldable pub run : List Event → Room Store → Room Store
  unfolding step
  run [] room = room
  run (e ∷ es) room = run es (step e room)
