-- ===== src/Jobs/Lock.antt =====
-- src/utility/lock/distributed_lock.service.ts. The seconds of the store stand for milliseconds here, the
-- unit of PX.
use Prim.Native.String.{◌++◌}
use text.Mathlib.TextLemmas.{append_cancel_left}
use lodestar_server.Prelude.{
  ℕ, String, ◌≡◌, ◌≢◌, ◌∙◌, refl, sym, ap, Bool, false, Option, none, some, is_none, ◌==◌,
  if◌then◌else◌,
}
use lodestar_server.Redis.{Redis, Value}
use lodestar_server.Auth.Keys.Distinct.{==-eq-false_of_ne}

-- `lock:${this.key}${identityKey ? `:${identityKey}` : ''}`
abbrev pub lock_key : String → Option String → String
lock_key key none = "lock:" ++ (key ++ "")
lock_key key (some identity) = "lock:" ++ (key ++ (if identity == "" then "" else ":" ++ identity))

module _ (r : Redis) (key : String) where
  -- DistributedLockService.occupyLock; false where it throws for a lock that is held.
  unfoldable pub occupy_lock : Option String → Value → ℕ → r.Store → Bool × r.Store
  occupy_lock identity value expire_time s = r.set_nx (lock_key key identity) value expire_time s

  -- DistributedLockService.releaseLock
  unfoldable pub release_lock : Option String → r.Store → r.Store
  release_lock identity s = r.del (lock_key key identity) s

  identity_apart :
      (a b : String)
      → (a == "") ≡ false
      → (b == "") ≡ false
      → a ≢ b
      → (lock_key key (some a) == lock_key key (some b)) ≡ false
  identity_apart a b ha hb ne =
      rw (ha, hb)
        (==-eq-false_of_ne _ _ (λ e. ne (
          append_cancel_left ":" a b
            (append_cancel_left key _ _ (append_cancel_left "lock:" _ _ e)))))

  -- Whoever occupies a lock under one identity keeps no one from occupying it under another: for two
  -- different identities that are not blank, the second succeeds after the first just where it would have
  -- succeeded before.
  pub occupy_lock_other :
      (a b : String) (v w : Value) (t u : ℕ) (s : r.Store)
      → (a == "") ≡ false
      → (b == "") ≡ false
      → a ≢ b
      → (occupy_lock (some b) w u (occupy_lock (some a) v t s).1).0 ≡ (occupy_lock (some b) w u s).0
  unfolding occupy_lock
  occupy_lock_other a b v w t u s ha hb ne =
      let first = lock_key key (some a) in
      let second = lock_key key (some b) in
      let kept : r.find second (r.set_nx first v t s).1 ≡ r.find second s =
        r.find-set_nx second first v t s ∙ rw (identity_apart a b ha hb ne) refl in
      r.set_nx_reply second w u (r.set_nx first v t s).1
      ∙ ap is_none kept
      ∙ sym (r.set_nx_reply second w u s)
