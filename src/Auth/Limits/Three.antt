-- ===== src/Auth/Limits/Three.antt =====
-- INCR_WITH_TTL_SCRIPT over three counters, as registerLoginAttempt runs it.
use lodestar_server.Prelude.{ℕ, ◌+◌, String, ◌≡◌, ap, ◌∙◌, false, some, List, [], ◌∷◌, ◌==◌}
use lodestar_server.Redis.{Redis, int, count_of, ttl_of, entry}
use lodestar_server.Auth.Limits.{incr_key, increment_with_ttl}
use lodestar_server.Auth.Limits.Counter.{
  ttl_after, incr_key_reply, find-incr_key_self, find-incr_key_ne,
}

-- The script over three keys that differ pairwise: each counter is told apart from the others.
module _ (r : Redis) (a b c : String) (ta tb tc : ℕ) where
  open r use {Store, find}

  abbrev pub three : Store → List ℕ × Store
  three s = increment_with_ttl r ((a, ta) ∷ (b, tb) ∷ (c, tc) ∷ []) s

  pub after_a : Store → Store
  after_a s = (incr_key r a ta s).1

  pub after_b : Store → Store
  after_b s = (incr_key r b tb (after_a s)).1

  pub find-three_ne :
      (j : String) (s : Store)
      → (a == j) ≡ false
      → (b == j) ≡ false
      → (c == j) ≡ false
      → find j (three s).1 ≡ find j s
  unfolding increment_with_ttl after_a after_b
  find-three_ne j s ha hb hc =
      find-incr_key_ne r j c tc (after_b s) hc
      ∙ find-incr_key_ne r j b tb (after_a s) hb
      ∙ find-incr_key_ne r j a ta s ha

  module _ (s : Store) (n : ℕ) where
    pub three_first :
        (b == a) ≡ false
        → (c == a) ≡ false
        → count_of (find a s) ≡ some n
        → ((three s).0
            ≡ (n + 1) ∷ (incr_key r b tb (after_a s)).0 ∷ (incr_key r c tc (after_b s)).0 ∷ [])
          × (find a (three s).1 ≡ entry (int (n + 1)) (ttl_after n ta (ttl_of (find a s))))
    unfolding increment_with_ttl after_a after_b
    three_first ba ca counted = (
      rw (incr_key_reply r a ta s n counted),
      find-incr_key_ne r a c tc (after_b s) ca
          ∙ find-incr_key_ne r a b tb (after_a s) ba
          ∙ find-incr_key_self r a ta s n counted,
    )

    pub three_second :
        (a == b) ≡ false
        → (c == b) ≡ false
        → count_of (find b s) ≡ some n
        → ((three s).0 ≡ (incr_key r a ta s).0 ∷ (n + 1) ∷ (incr_key r c tc (after_b s)).0 ∷ [])
          × (find b (three s).1 ≡ entry (int (n + 1)) (ttl_after n tb (ttl_of (find b s))))
    unfolding increment_with_ttl after_a after_b
    three_second ab cb counted =
        let same : find b (after_a s) ≡ find b s = find-incr_key_ne r b a ta s ab in
        let counted' : count_of (find b (after_a s)) ≡ some n = ap count_of same ∙ counted in
        (
          rw (incr_key_reply r b tb (after_a s) n counted'),
          find-incr_key_ne r b c tc (after_b s) cb
              ∙ find-incr_key_self r b tb (after_a s) n counted'
              ∙ rw same,
        )

    pub three_third :
        (a == c) ≡ false
        → (b == c) ≡ false
        → count_of (find c s) ≡ some n
        → ((three s).0 ≡ (incr_key r a ta s).0 ∷ (incr_key r b tb (after_a s)).0 ∷ (n + 1) ∷ [])
          × (find c (three s).1 ≡ entry (int (n + 1)) (ttl_after n tc (ttl_of (find c s))))
    unfolding increment_with_ttl after_a after_b
    three_third ac bc counted =
        let same : find c (after_b s) ≡ find c s =
          find-incr_key_ne r c b tb (after_a s) bc ∙ find-incr_key_ne r c a ta s ac in
        let counted' : count_of (find c (after_b s)) ≡ some n = ap count_of same ∙ counted in
        (
          rw (incr_key_reply r c tc (after_b s) n counted'),
          find-incr_key_self r c tc (after_b s) n counted' ∙ rw same,
        )
