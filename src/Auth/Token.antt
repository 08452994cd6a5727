-- ===== src/Auth/Token.antt =====
-- src/auth/auth-token.ts: the token of a reset mail, stored by its hash. The random token is an argument.
use Prim.Native.String.{◌++◌}
use text.Mathlib.TextLemmas.{append_cancel_left, append-nil, cons-append}
use lodestar_server.Prelude.{
  ℕ, ◌-◌, ◌<◌, String, ◌≡◌, ◌≢◌, refl, sym, ap, ◌∙◌, false, some, List, [], ◌∷◌, ◌==◌, eq_refl,
  append-ne_of_apart, arith, if◌then◌else◌,
}
use lodestar_server.Redis.{Redis, object, members, members_of, with_member, entry, with_ttl, aged}
use lodestar_server.Auth.Keys.Distinct.{==-eq-false_of_ne}

abbrev pub reset_password_app_ttl_seconds : ℕ
reset_password_app_ttl_seconds = 3600

unfoldable pub reset_password_app_key : String → String
reset_password_app_key member_id = "auth:reset-password:app:" ++ member_id

unfoldable pub reset_password_app_token_key : String → String → String
reset_password_app_token_key member_id token_hash =
    "auth:reset-password:app:" ++ (member_id ++ (":" ++ token_hash))

unfoldable pub reset_password_app_index_key : String → String
reset_password_app_index_key member_id = "auth:reset-password:app-tokens:" ++ member_id

module _ (r : Redis) (sha256_hex : String → String) where
  open r use {Store, find, set, sadd, expire, elapse}

  unfoldable pub hash_auth_token : String → String
  hash_auth_token token = sha256_hex token

  -- serializeResetPasswordApp, as the object that is stored.
  abbrev pub reset_value : String → String → List (String × String)
  reset_value token_hash app_id = ("tokenHash", token_hash) ∷ ("appId", app_id) ∷ []

  -- issueResetPasswordAppToken
  unfoldable pub issue_reset_password_app_token : String → String → String → Store → Store
  unfolding hash_auth_token
  issue_reset_password_app_token member_id app_id token s =
      let token_hash = hash_auth_token token in
      let s1 =
        set (reset_password_app_token_key member_id token_hash)
          (object (reset_value token_hash app_id)) reset_password_app_ttl_seconds s in
      let s2 = sadd (reset_password_app_index_key member_id) token_hash s1 in
      let s3 = expire (reset_password_app_index_key member_id) reset_password_app_ttl_seconds s2 in
      set (reset_password_app_key member_id) (object (reset_value token_hash app_id))
        reset_password_app_ttl_seconds s3

  index-ne-token :
      (m n h : String) → reset_password_app_index_key m ≢ reset_password_app_token_key n h
  unfolding reset_password_app_index_key reset_password_app_token_key
  index-ne-token m n h =
      append-ne_of_apart "auth:reset-password:app-tokens:" "auth:reset-password:app:" _ _ refl

  key-ne-index : (m n : String) → reset_password_app_key m ≢ reset_password_app_index_key n
  unfolding reset_password_app_index_key reset_password_app_key
  key-ne-index m n =
      append-ne_of_apart "auth:reset-password:app:" "auth:reset-password:app-tokens:" _ _ refl

  key-ne-token : (m h : String) → reset_password_app_key m ≢ reset_password_app_token_key m h
  unfolding reset_password_app_key reset_password_app_token_key
  key-ne-token m h e =
      let same : m ++ "" ≡ m ++ (":" ++ h) =
        append-nil m ∙ append_cancel_left "auth:reset-password:app:" m _ e in
      cc (append_cancel_left m "" (":" ++ h) same ∙ cons-append ":" "" h)

  token-ne-token :
      (m h k : String) → h ≢ k → reset_password_app_token_key m h ≢ reset_password_app_token_key m k
  unfolding reset_password_app_token_key
  token-ne-token m h k differ e = differ (
      append_cancel_left ":" h k
        (append_cancel_left m _ _ (append_cancel_left "auth:reset-password:app:" _ _ e)))

  -- Issuing a token writes its key and touches no key of another token of the member.
  find-issued :
      (m app_id token h : String) (s : Store)
      → find (reset_password_app_token_key m h) (issue_reset_password_app_token m app_id token s)
        ≡ (if reset_password_app_token_key m (sha256_hex token) == reset_password_app_token_key m h
            then entry (object (reset_value (sha256_hex token) app_id)) (some 3600)
            else find (reset_password_app_token_key m h) s)
  unfolding issue_reset_password_app_token
  find-issued m app_id token h s =
      let key = reset_password_app_token_key m h in
      let index = reset_password_app_index_key m in
      let apart : (index == key) ≡ false = ==-eq-false_of_ne _ _ (index-ne-token m m h) in
      r.find-set key (reset_password_app_key m) _ _ _
      ∙ rw (==-eq-false_of_ne _ _ (key-ne-token m h)) (
          r.find-expire key index _ _
          ∙ rw apart
              (r.find-sadd_ne key index (sha256_hex token) _ apart ∙ r.find-set key _ _ 3600 s))

  -- Where the member's index holds a set or is absent: a reset token is stored by its hash for an hour, its hash joins the member's index, and a
  -- token issued later in that hour, if its hash is another, leaves it the rest of its hour.
  issue_reset_password_app_token_lem :
      (m app_id token later_token : String) (s : Store) (n : ℕ) (ms : List String)
      → members_of (find (reset_password_app_index_key m) s) ≡ some ms
      → sha256_hex later_token ≢ sha256_hex token
      → n < 3600
      → (find
            (reset_password_app_token_key m (sha256_hex token))
            (issue_reset_password_app_token m app_id token s)
          ≡ entry (object (reset_value (sha256_hex token) app_id)) (some 3600))
        × (find (reset_password_app_index_key m) (issue_reset_password_app_token m app_id token s)
            ≡ entry (members (with_member (sha256_hex token) ms)) (some 3600))
        × (find (reset_password_app_token_key m (sha256_hex token)) (
              issue_reset_password_app_token m app_id later_token
                (elapse n (issue_reset_password_app_token m app_id token s)))
            ≡ entry (object (reset_value (sha256_hex token) app_id)) (some (3600 - n)))
  unfolding issue_reset_password_app_token
  issue_reset_password_app_token_lem m app_id token later_token s n ms indexed differ soon =
      let key = reset_password_app_token_key m (sha256_hex token) in
      let index = reset_password_app_index_key m in
      let stored : find key (issue_reset_password_app_token m app_id token s)
          ≡ entry (object (reset_value (sha256_hex token) app_id)) (some 3600) =
        find-issued m app_id token (sha256_hex token) s ∙ rw (eq_refl key) refl in
      let s1 = set key (object (reset_value (sha256_hex token) app_id)) 3600 s in
      let indexed' : members_of (find index s1) ≡ some ms =
        ap members_of (
          r.find-set index key _ 3600 s
          ∙ rw (==-eq-false_of_ne _ _ (λ e. index-ne-token m m (sha256_hex token) (sym e))) refl)
        ∙ indexed in
      (
        stored,
        r.find-set index (reset_password_app_key m) _ _ _
            ∙ rw (==-eq-false_of_ne _ _ (key-ne-index m m)) (
                r.find-expire index index 3600 _
                ∙ rw (eq_refl index) (
                    ap (with_ttl 3600) (r.find-sadd_self index (sha256_hex token) s1 ms indexed'))),
        find-issued m app_id later_token (sha256_hex token) _
            ∙ rw
                (==-eq-false_of_ne _ _
                  (token-ne-token m (sha256_hex later_token) (sha256_hex token) differ))
                (r.find-elapse key n _ ∙ ap (aged n) stored ∙ ground arith),
      )
