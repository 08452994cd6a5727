-- ===== src/Auth/Limits/Counter.antt =====
-- INCR_WITH_TTL_SCRIPT on one counter, and DECR_IF_EXISTS_SCRIPT: the reply, and what each leaves.
use lodestar_server.Prelude.{
  ℕ, ◌+◌, String, ◌≡◌, false, Option, some, eqb, ◌==◌, eq_refl, arith, if◌then◌else◌,
}
use lodestar_server.Redis.{Redis, int, count_of, ttl_of, entry}
use lodestar_server.Auth.Limits.{incr_key}

-- The TTL of a counter that stood at `n` and is incremented: set anew at 0, kept otherwise.
abbrev pub ttl_after : ℕ → ℕ → Option ℕ → Option ℕ
ttl_after n ttl old = if eqb n 0 then some ttl else old

module _ (r : Redis) where
  open r use {Store, find, incr, expire}

  module _ (key : String) (ttl : ℕ) (s : Store) (n : ℕ)
      (counted : count_of (find key s) ≡ some n) where
    pub incr_key_reply : (incr_key r key ttl s).0 ≡ n + 1
    unfolding incr_key
    incr_key_reply = ground (arith, r.incr_reply key s n counted)

    pub find-incr_key_self :
        find key (incr_key r key ttl s).1
        ≡ entry (int (n + 1)) (ttl_after n ttl (ttl_of (find key s)))
    unfolding incr_key
    find-incr_key_self = ground (
      arith,
      r.incr_reply key s n counted,
      r.find-incr_self key s n counted,
      r.find-expire key key ttl (incr key s).1,
      eq_refl key,
    )

  pub find-incr_key_ne :
      (j key : String) (ttl : ℕ) (s : Store)
      → (key == j) ≡ false
      → find j (incr_key r key ttl s).1 ≡ find j s
  unfolding incr_key
  find-incr_key_ne j key ttl s h =
      ground (arith, r.find-incr_ne j key s h, r.find-expire j key ttl (incr key s).1)
