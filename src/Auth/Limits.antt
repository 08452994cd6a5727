-- ===== src/Auth/Limits.antt =====
-- src/auth/auth-limits.ts, second half: the helpers over Redis. A section over the server and the hash;
-- an asynchronous helper takes the store and returns its result with the store that it leaves.
pub mod Counter
pub mod Window
pub mod Cooldown
pub mod Gate
pub mod Issue
pub mod BindSend
pub mod Three
pub mod Login
pub mod Challenge
use lodestar_server.Prelude.{
  ℕ, ◌+◌, String, Bool, true, false, ◌&&◌, ◌||◌, Option, none, some, List, [], ◌∷◌, leb, eqb, ◌==◌,
  if◌then◌else◌,
}
use lodestar_server.Redis.{Redis, Entry, Value, int, object, members, text}
use lodestar_server.Auth.Keys
use lodestar_server.Auth.Keys.{LoginScope, IssueKind}

-- Number(value) || 0, for the reply to GET. A counter holds a decimal integer.
abbrev pub number_or_zero : Option Entry → ℕ
number_or_zero none = 0
number_or_zero (some e) = elim e.value [ int n ↦ n | object o ↦ 0 | members m ↦ 0 | text t ↦ 0 ]

-- The text member of an object, as `value?.name` with `typeof … === 'string'` reads it.
abbrev pub member : String → List (String × String) → Option String
member name [] = none
member name ((key, v) ∷ rest) = if key == name then some v else member name rest

-- parseJson: the object, or null.
unfoldable pub parse_json : Option Entry → Option (List (String × String))
parse_json none = none
parse_json (some e) = elim e.value [
  | int n ↦ none
  | object o ↦ some o
  | members m ↦ none
  | text t ↦ none
]

abbrev pub member_of : String → Option (List (String × String)) → Option String
member_of name none = none
member_of name (some o) = member name o

-- `typeof v === 'string' && v ? v : null`
abbrev pub filled : Option String → Option String
filled none = none
filled (some v) = if v == "" then none else some v

abbrev pub head_or_zero : List ℕ → ℕ
head_or_zero [] = 0
head_or_zero (n ∷ ns) = n

module _ (r : Redis) where
  open r use {Store, find, set, set_nx, del, incr, decr, expire}

  -- One round of INCR_WITH_TTL_SCRIPT.
  unfoldable pub incr_key : String → ℕ → Store → ℕ × Store
  incr_key key ttl s =
      let (n, s') = incr key s in if eqb n 1 then (n, expire key ttl s') else (n, s')

  -- The script's loop, run whole by EVAL.
  unfoldable pub increment_with_ttl : List (String × ℕ) → Store → List ℕ × Store
  increment_with_ttl [] s = ([], s)
  increment_with_ttl ((key, ttl) ∷ entries) s =
      let (n, s') = incr_key key ttl s in
      let (ns, s'') = increment_with_ttl entries s' in (n ∷ ns, s'')

  -- DECR_IF_EXISTS_SCRIPT
  unfoldable pub decrement_if_exists : String → Store → ℕ × Store
  decrement_if_exists key s = elim (find key s) [ none ↦ (0, s) | some _ ↦ decr key s ]

  unfoldable pub acquire_cooldown : String → ℕ → Store → Bool × Store
  acquire_cooldown key ttl s = set_nx key (int 1) ttl s

  unfoldable pub read_counter : String → Store → ℕ
  read_counter key s = number_or_zero (find key s)

  module _ (sha256_hex : String → String) where
    -- device login limit challenge
    unfoldable pub write_device_login_challenge : String → String → String → Store → Store
    write_device_login_challenge app_id member_id finger_print_id s =
        set (Keys.device_login_limit sha256_hex app_id member_id)
          (object (("fp", Keys.fingerprint_hash sha256_hex finger_print_id) ∷ []))
          Keys.device_login_limit_ttl s

    unfoldable pub match_device_login_challenge : String → String → Option String → Store → Bool
    unfolding parse_json
    match_device_login_challenge app_id member_id none s = false
    match_device_login_challenge app_id member_id (some fp) s =
        if app_id == "" || member_id == "" || fp == ""
        then false
        else Keys.safe_equal sha256_hex
            (member_of "fp"
              (parse_json (find (Keys.device_login_limit sha256_hex app_id member_id) s)))
            (some (Keys.fingerprint_hash sha256_hex fp))

    unfoldable pub clear_device_login_challenge : String → String → Store → Store
    clear_device_login_challenge app_id member_id s =
        del (Keys.device_login_limit sha256_hex app_id member_id) s

    -- device bind challenge
    unfoldable pub is_device_bind_locked : String → String → Store → Bool
    unfolding read_counter
    is_device_bind_locked app_id member_id s =
        leb Keys.device_bind_fail_cap
          (read_counter (Keys.device_bind_fail sha256_hex app_id member_id) s)

    unfoldable pub write_device_bind_challenge : String → String → String → Store → Store
    write_device_bind_challenge app_id email member_id s =
        set (Keys.device_bind sha256_hex app_id email) (object (("memberId", member_id) ∷ []))
          Keys.device_bind_ttl s

    unfoldable pub read_device_bind_challenge : String → String → Store → Option String
    unfolding parse_json
    read_device_bind_challenge app_id email s =
        if app_id == "" || email == ""
        then none
        else filled
            (member_of "memberId" (parse_json (find (Keys.device_bind sha256_hex app_id email) s)))

    unfoldable pub clear_device_bind_challenge : String → String → Store → Store
    clear_device_bind_challenge app_id email s = del (Keys.device_bind sha256_hex app_id email) s

    -- The cooldown first, then the hourly counter.
    unfoldable pub allow_device_bind_send : String → String → Store → Bool × Store
    unfolding acquire_cooldown increment_with_ttl
    allow_device_bind_send app_id member_id s =
        let (cooled, s') =
          acquire_cooldown (Keys.device_bind_send_cooldown sha256_hex app_id member_id)
            Keys.device_bind_send_cooldown_ttl s in
        if cooled
        then (let (counts, s'') =
              increment_with_ttl
                ((
                  Keys.device_bind_send_count sha256_hex app_id member_id,
                  Keys.device_bind_send_count_ttl,
                )
                  ∷ [])
                s' in
            (leb (head_or_zero counts) Keys.device_bind_send_count_cap, s''))
        else (false, s')

    -- token issuance
    unfoldable pub allow_token_issue : IssueKind → String → Store → Bool × Store
    unfolding acquire_cooldown increment_with_ttl
    allow_token_issue kind member_id s =
        let (cooled, s') =
          acquire_cooldown (Keys.issue_cooldown sha256_hex kind member_id) Keys.issue_cooldown_ttl
            s in
        if cooled
        then (let (counts, s'') =
              increment_with_ttl
                ((Keys.issue_count sha256_hex kind member_id, Keys.issue_count_ttl) ∷ []) s' in
            (leb (head_or_zero counts) Keys.issue_count_cap, s''))
        else (false, s')

    -- `[accountIp, accountOnly, ipOnly]` under their caps
    abbrev pub within_caps : List ℕ → Bool
    within_caps (account_ip ∷ account_only ∷ ip_only ∷ _) =
        leb account_ip Keys.login_fail_account_ip_cap
        && leb account_only Keys.login_fail_account_cap
        && leb ip_only Keys.login_fail_ip_cap
    within_caps _ = false

    -- login attempts
    unfoldable pub register_login_attempt :
        LoginScope → String → String → String → Store → Bool × Store
    unfolding increment_with_ttl
    register_login_attempt scope id account ip s =
        let (counts, s') =
          increment_with_ttl
            ((
              Keys.login_fail_account_ip sha256_hex scope id account ip,
              Keys.login_fail_account_ip_ttl,
            )
              ∷ (Keys.login_fail_account sha256_hex scope id account, Keys.login_fail_account_ttl)
              ∷ (Keys.login_fail_ip sha256_hex ip, Keys.login_fail_ip_ttl)
              ∷ [])
            s in
        (within_caps counts, s')

    unfoldable pub clear_login_attempts : LoginScope → String → String → String → Store → Store
    clear_login_attempts scope id account ip s =
        del (Keys.login_fail_account sha256_hex scope id account)
          (del (Keys.login_fail_account_ip sha256_hex scope id account ip) s)
