-- ===== src/Auth/Limits/BindSend.antt =====
-- allowDeviceBindSend of src/auth/auth-limits.ts: the exact answer, and the bound on the mails.
use lodestar_server.Prelude.{
  ℕ, ◌+◌, ◌≤◌, ◌<◌, String, ◌≡◌, refl, Bool, false, ◌&&◌, none, some, List, leb, is_none, ◌==◌,
  if◌then◌else◌,
}
use lodestar_server.Redis.{Redis, int, count_of, ttl_of, entry}
use lodestar_server.Auth.Keys.{device_bind_send_cooldown, device_bind_send_count}
use lodestar_server.Auth.Keys.Distinct.{==-eq-false_of_ne, send_cooldown-ne-send_count}
use lodestar_server.Auth.Limits.{allow_device_bind_send}
use lodestar_server.Auth.Limits.Counter.{ttl_after}
use lodestar_server.Auth.Limits.Window.{Metered, waits, granted, elapsed, granted-le_cap}
use lodestar_server.Auth.Limits.Gate.{
  gate_granted, find-gate-count, find-gate_cooldown, gate-Metered,
}

-- What happens around the mails to one member: a request to send, and the passing of seconds.
pub data SendEvent : Type 0 where
  send : SendEvent
  wait : ℕ → SendEvent

abbrev pub send_cost : SendEvent → ℕ
send_cost send = 0
send_cost (wait n) = n

module _ (r : Redis) (sha256_hex : String → String) (app_id member_id : String) where
  open r use {Store, find, elapse, find-elapse}

  abbrev cooldown_key : String
  cooldown_key = device_bind_send_cooldown sha256_hex app_id member_id

  abbrev count_key : String
  count_key = device_bind_send_count sha256_hex app_id member_id

  keys_differ : (cooldown_key == count_key) ≡ false
  keys_differ =
      ==-eq-false_of_ne _ _
        (send_cooldown-ne-send_count sha256_hex app_id app_id member_id member_id)

  -- What a request to send a bind code answers and leaves, whatever the two keys hold: it is granted
  -- exactly where no cooldown runs and fewer than five were counted this hour; a running cooldown
  -- leaves the counter alone, and any other request counts and starts the cooldown.
  pub allow_device_bind_send_lem :
      (s : Store) (n : ℕ)
      → count_of (find count_key s) ≡ some n
      → ((allow_device_bind_send r sha256_hex app_id member_id s).0
          ≡ (is_none (find cooldown_key s) && leb (n + 1) 5))
        × (find count_key (allow_device_bind_send r sha256_hex app_id member_id s).1 ≡ (
            if is_none (find cooldown_key s)
            then entry (int (n + 1)) (ttl_after n 3600 (ttl_of (find count_key s)))
            else find count_key s))
        × (find cooldown_key (allow_device_bind_send r sha256_hex app_id member_id s).1 ≡ (
            if is_none (find cooldown_key s) then entry (int 1) (some 60) else find cooldown_key s))
  unfolding allow_device_bind_send
  allow_device_bind_send_lem s n counted = (
    gate_granted r cooldown_key 60 count_key 3600 5 keys_differ s n counted,
    find-gate-count r cooldown_key 60 count_key 3600 5 keys_differ s n counted,
    find-gate_cooldown r cooldown_key 60 count_key 3600 5 keys_differ s,
  )

  unfoldable pub send_step : SendEvent → Store → Bool × Store
  send_step send s = allow_device_bind_send r sha256_hex app_id member_id s
  send_step (wait n) s = (false, elapse n s)

  send_step-Metered :
      (e : SendEvent) (s : Store) (n : ℕ)
      → count_of (find count_key s) ≡ some n
      → Metered r count_key 3600 5 s (send_step e s).1 (send_step e s).0 (send_cost e)
  unfolding send_step allow_device_bind_send
  send_step-Metered send s n counted =
      gate-Metered r cooldown_key 60 count_key 3600 5 keys_differ s n counted
  send_step-Metered (wait d) s n counted = waits refl (find-elapse count_key d s)

  -- At most five bind codes are sent to a member in less than an hour, if no counter stood before.
  sends-le_five :
      (es : List SendEvent) (s : Store)
      → find count_key s ≡ none
      → elapsed send_cost es < 3600
      → granted send_step es s ≤ 5
  sends-le_five = granted-le_cap r count_key 3600 5 send_step send_cost send_step-Metered
