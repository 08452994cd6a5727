-- ===== src/Auth/Limits/Issue.antt =====
-- allowTokenIssue and allowDeviceBindSend of src/auth/auth-limits.ts: the exact answer, and what they
-- bound over any interleaving of requests and waiting.
use lodestar_server.Prelude.{
  ℕ, ◌+◌, ◌≤◌, ◌<◌, String, ◌≡◌, ◌≢◌, refl, sym, ◌⊎◌, inl, inr, Bool, true, false, ◌&&◌, none, some,
  List, leb, is_none, ◌==◌, if◌then◌else◌,
}
use lodestar_server.Redis.{Redis, int, count_of, ttl_of, entry}
use lodestar_server.Auth.Keys.{IssueKind, issue_cooldown, issue_count}
use lodestar_server.Auth.Keys.Distinct.{
  ==-eq-false_of_ne, issue_cooldown-ne-issue_count, issue_count_inj, issue_cooldown_inj,
}
use lodestar_server.Auth.Limits.{allow_token_issue}
use lodestar_server.Auth.Limits.Counter.{ttl_after}
use lodestar_server.Auth.Limits.Window.{Metered, idle, waits, granted, elapsed, granted-le_cap}
use lodestar_server.Auth.Limits.Cooldown.{Cooled, shut, waits as pauses, granted-eq-zero}
use lodestar_server.Auth.Limits.Gate.{
  gate_granted, find-gate-count, find-gate_cooldown, find-gate_ne, find-gate_cooldown_of_granted,
  gate-Metered, gate-Cooled,
}

module _ (kind : IssueKind) (member_id : String) where
  -- What happens around one member's requests for one kind of token: his own requests, those of other
  -- members or for other kinds, and the passing of seconds.
  pub data IssueEvent : Type 0 where
    ask : IssueEvent
    ask_other : (k : IssueKind) (m : String) → (k ≢ kind) ⊎ (m ≢ member_id) → IssueEvent
    wait : ℕ → IssueEvent

  abbrev pub issue_cost : IssueEvent → ℕ
  issue_cost (wait n) = n
  issue_cost _ = 0

module _ (r : Redis) (sha256_hex : String → String) where
  open r use {Store, find, elapse, find-elapse}

  module _ (kind : IssueKind) (member_id : String) where
    abbrev cooldown_key : String
    cooldown_key = issue_cooldown sha256_hex kind member_id

    abbrev count_key : String
    count_key = issue_count sha256_hex kind member_id

    keys_differ :
        (k : IssueKind) (m : String) → (issue_cooldown sha256_hex k m == count_key) ≡ false
    keys_differ k m =
        ==-eq-false_of_ne _ _ (issue_cooldown-ne-issue_count sha256_hex k kind m member_id)

    -- What a token request answers and leaves, whatever the two keys hold: it is granted exactly where
    -- no cooldown runs and fewer than five were counted this hour; a running cooldown leaves the counter
    -- alone, and any other request counts, refused or not, and starts the cooldown.
    allow_token_issue_lem :
        (s : Store) (n : ℕ)
        → count_of (find count_key s) ≡ some n
        → ((allow_token_issue r sha256_hex kind member_id s).0
            ≡ (is_none (find cooldown_key s) && leb (n + 1) 5))
          × (find count_key (allow_token_issue r sha256_hex kind member_id s).1 ≡ (
              if is_none (find cooldown_key s)
              then entry (int (n + 1)) (ttl_after n 3600 (ttl_of (find count_key s)))
              else find count_key s))
          × (find cooldown_key (allow_token_issue r sha256_hex kind member_id s).1 ≡ (
              if is_none (find cooldown_key s)
              then entry (int 1) (some 60)
              else find cooldown_key s))
    unfolding allow_token_issue
    allow_token_issue_lem s n counted = (
      gate_granted r cooldown_key 60 count_key 3600 5 (keys_differ kind member_id) s n counted,
      find-gate-count r cooldown_key 60 count_key 3600 5 (keys_differ kind member_id) s n counted,
      find-gate_cooldown r cooldown_key 60 count_key 3600 5 (keys_differ kind member_id) s,
    )

    unfoldable pub issue_step : IssueEvent kind member_id → Store → Bool × Store
    issue_step ask s = allow_token_issue r sha256_hex kind member_id s
    issue_step (ask_other k m _) s = (false, (allow_token_issue r sha256_hex k m s).1)
    issue_step (wait n) s = (false, elapse n s)

    clash :
        {k : IssueKind} {m : String}
        → (k ≡ kind) × (m ≡ member_id)
        → (k ≢ kind) ⊎ (m ≢ member_id)
        → ⊥
    clash (same, _) (inl differ) = differ same
    clash (_, same) (inr differ) = differ same

    other_keys :
        (k : IssueKind) (m : String)
        → (k ≢ kind) ⊎ (m ≢ member_id)
        → ((issue_count sha256_hex k m == count_key) ≡ false)
          × ((issue_cooldown sha256_hex k m == cooldown_key) ≡ false)
    other_keys k m differ = (
      ==-eq-false_of_ne _ _ (λ e. clash (issue_count_inj sha256_hex k kind m member_id e) differ),
      ==-eq-false_of_ne _ _
          (λ e. clash (issue_cooldown_inj sha256_hex k kind m member_id e) differ),
    )

    issue_step-Metered :
        (e : IssueEvent kind member_id) (s : Store) (n : ℕ)
        → count_of (find count_key s) ≡ some n
        → Metered r count_key 3600 5 s
            (issue_step e s).1
            (issue_step e s).0
            (issue_cost kind member_id e)
    unfolding issue_step allow_token_issue
    issue_step-Metered ask s n counted =
        gate-Metered r cooldown_key 60 count_key 3600 5 (keys_differ kind member_id) s n counted
    issue_step-Metered (ask_other k m differ) s n counted = idle refl refl (
        find-gate_ne r (issue_cooldown sha256_hex k m) 60 (issue_count sha256_hex k m) 3600 5
          (==-eq-false_of_ne _ _ (issue_cooldown-ne-issue_count sha256_hex k k m m)) count_key s
          (keys_differ k m) (other_keys k m differ).0)
    issue_step-Metered (wait d) s n counted = waits refl (find-elapse count_key d s)

    -- Of any requests, his own and others', at most five of a member's requests for one kind of token
    -- are granted within an hour of his first, if his counter did not stand before.
    pub issues-le_five :
        (es : List (IssueEvent kind member_id)) (s : Store)
        → find count_key s ≡ none
        → elapsed (issue_cost kind member_id) es < 3600
        → granted issue_step es s ≤ 5
    issues-le_five =
        granted-le_cap r count_key 3600 5 issue_step (issue_cost kind member_id) issue_step-Metered

    issue_step-Cooled :
        (e : IssueEvent kind member_id) (s : Store)
        → Cooled r cooldown_key s
            (issue_step e s).1
            (issue_step e s).0
            (issue_cost kind member_id e)
    unfolding issue_step allow_token_issue
    issue_step-Cooled ask s =
        gate-Cooled r cooldown_key 60 count_key 3600 5 (keys_differ kind member_id) s
    issue_step-Cooled (ask_other k m differ) s = shut refl refl (
        find-gate_ne r (issue_cooldown sha256_hex k m) 60 (issue_count sha256_hex k m) 3600 5
          (==-eq-false_of_ne _ _ (issue_cooldown-ne-issue_count sha256_hex k k m m)) cooldown_key s
          (other_keys k m differ).1
          (==-eq-false_of_ne _ _
            (λ e. issue_cooldown-ne-issue_count sha256_hex kind k member_id m (sym e))))
    issue_step-Cooled (wait d) s = pauses refl (find-elapse cooldown_key d s)

    -- After a granted request none of the member's requests for that kind is granted in the next 60
    -- seconds, whatever he and others ask in between.
    pub issues_apart :
        (es : List (IssueEvent kind member_id)) (s : Store)
        → (allow_token_issue r sha256_hex kind member_id s).0 ≡ true
        → elapsed (issue_cost kind member_id) es < 60
        → granted issue_step es (allow_token_issue r sha256_hex kind member_id s).1 ≡ 0
    unfolding allow_token_issue
    issues_apart es s yes_granted short =
        granted-eq-zero r cooldown_key issue_step (issue_cost kind member_id) issue_step-Cooled es
          (allow_token_issue r sha256_hex kind member_id s).1 (int 1) 60
          (find-gate_cooldown_of_granted r cooldown_key 60 count_key 3600 5
            (keys_differ kind member_id) s yes_granted)
          short
