-- ===== src/Apps/Recent.antt =====
-- The hosts that getAppHostNames of src/app/app.service.ts answers with are recent: how old they can be.
use mathlib.Core.Path.{subst}
use lodestar_server.Prelude.{
  All, ℕ, ◌+◌, ◌≤◌, ◌-◌, String, ◌≡◌, ◌∙◌, leb, refl, sym, ap, Bool, true, false, ◌||◌, Option,
  none, some, List, [], ◌∷◌, map, any, ◌==◌, eq_iff, eq_refl, arith, if◌then◌else◌, List-cases,
  Bool-cases, inl, inr,
}
use lodestar_server.Redis.{Redis, Entry, members, members_of, with_member, entry, ttl_of, aged}
use lodestar_server.Apps.{AppTables, get_app_hosts}
use lodestar_server.Apps.Hosts.{
  hosts_key, sadd_all, cache_hosts, read_hosts, write_hosts, get_app_host_names,
}

abbrev pub has : List String → String → Bool
has xs x = any (λ y. y == x) xs

-- The same texts, in any order and number.
abbrev pub SameHosts : List String → List String → Type 0
SameHosts xs ys = (x : String) → has xs x ≡ has ys x

module _ (app_id : String) (tables_at : ℕ → AppTables) where
  abbrev hosts_at : ℕ → List String
  hosts_at t = map (λ h. h.host) (get_app_hosts app_id (tables_at t))

  -- No entry, or one that was written at a second `since` and lasts until five minutes after it at most.
  data IsRecent (now : ℕ) (e : Option Entry) : Type 0 where
    absent : e ≡ none → IsRecent now e
    held :
        (ms : List String) (k since : ℕ)
        → e ≡ entry (members ms) (some k)
        → since ≤ now
        → now + k ≤ since + 300
        → SameHosts ms (hosts_at since)
        → IsRecent now e

  -- What the app's hosts were at a second that is at most five minutes past.
  pub record IsAnswer (now : ℕ) (answer : List String) : Type 0 where
    pub since : ℕ
    pub is_past : since ≤ now
    pub is_near : now ≤ since + 300
    pub is_same : SameHosts answer (hosts_at since)

  aged-IsRecent : (now n : ℕ) (e : Option Entry) → IsRecent now e → IsRecent (now + n) (aged n e)
  aged-IsRecent now n e (absent h) = absent (rw h refl)
  aged-IsRecent now n e (held ms k since at past near same) = elim (Bool-cases (leb k n)) [
    | inl over ↦ absent (rw (at, over) refl)
    | inr left ↦ held ms (k - n) since (rw (at, left) refl) (omega arith) (ground arith) same
  ]

has-with_member :
    (m x : String) (ms : List String) → has (with_member m ms) x ≡ ((m == x) || has ms x)
has-with_member m x ms = elim (Bool-cases (has ms m)) [
  | inl there ↦ rw there (ground (arith, eq_iff m x))
  | inr not_there ↦ rw not_there refl
]

module _ (r : Redis) where
  sadd_all-held :
      (key : String) (hs ms : List String) (s : r.Store)
      → r.find key s ≡ entry (members ms) none
      → (ms' : List String) × (r.find key (sadd_all r key hs s) ≡ entry (members ms') none)
        × ((x : String) → has ms' x ≡ (has hs x || has ms x))
  sadd_all-held key [] ms s at = (ms, at, λ x. refl)
  sadd_all-held key (h ∷ hs) ms s at =
      let next = r.find-sadd_self key h s ms (rw at refl) in
      let (ms', stored, same) =
        sadd_all-held key hs (with_member h ms) (r.sadd key h s)
          (next ∙ ap (λ e. entry (members (with_member h ms)) (ttl_of e)) at) in
      (ms', stored, λ x. ground (arith, same x, has-with_member h x ms))

  -- SADD of several members to a key that holds nothing.
  pub sadd_all-members :
      (key h : String) (hs : List String) (s : r.Store)
      → r.find key s ≡ none
      → (ms : List String) × (r.find key (sadd_all r key (h ∷ hs) s) ≡ entry (members ms) none)
        × SameHosts ms (h ∷ hs)
  sadd_all-members key h hs s gone =
      let first =
        r.find-sadd_self key h s [] (ap members_of gone)
        ∙ ap (λ e. entry (members (h ∷ [])) (ttl_of e)) gone in
      let (ms, stored, same) = sadd_all-held key hs (h ∷ []) (r.sadd key h s) first in
      (ms, stored, λ x. ground (arith, same x))

  pub sadd_all-ne :
      (j key : String) (hs : List String) (s : r.Store)
      → (key == j) ≡ false
      → r.find j (sadd_all r key hs s) ≡ r.find j s
  sadd_all-ne j key [] s ne = refl
  sadd_all-ne j key (h ∷ hs) s ne =
      sadd_all-ne j key hs (r.sadd key h s) ne ∙ r.find-sadd_ne j key h s ne

  cache_hosts-held :
      (key h : String) (hs : List String) (s : r.Store)
      → (ms : List String) × (r.find key (cache_hosts r key (h ∷ hs) s)
          ≡ entry (members ms) (some 300))
        × SameHosts ms (h ∷ hs)
  unfolding cache_hosts
  cache_hosts-held key h hs s =
      let gone : r.find key (r.del key s) ≡ none =
        r.find-del key key s ∙ ap (λ b. if b then none else r.find key s) (eq_refl key) in
      let (ms, stored, same) = sadd_all-members key h hs (r.del key s) gone in
      (ms, r.find-expire key key 300 _ ∙ rw (eq_refl key, stored) refl, same)

-- A stretch of time, or a request for the app's hosts in which Redis can or cannot be read or written.
pub data Event : Type 0 where
  waits : ℕ → Event
  asks : Bool → Bool → Event

module _ (r : Redis) (app_id : String) (tables_at : ℕ → AppTables) where
  -- The answers with their seconds; a request's own calls are one step.
  abbrev pub answers : List Event → ℕ → r.Store → List (ℕ × List String)
  answers [] now s = []
  answers (waits n ∷ events) now s = answers events (now + n) (r.elapse n s)
  answers (asks readable writable ∷ events) now s =
      let reply = get_app_host_names r readable writable app_id (tables_at now) s in
      (now, reply.0) ∷ answers events now reply.1

  abbrev Served : ℕ → List String × r.Store → Type 0
  Served now reply =
      IsAnswer app_id tables_at now reply.0
      × IsRecent app_id tables_at now (r.find (hosts_key app_id) reply.1)

  fresh-IsAnswer : (now : ℕ) → IsAnswer app_id tables_at now (hosts_at app_id tables_at now)
  fresh-IsAnswer now = record {
    since = now;
    is_past = omega arith;
    is_near = omega arith;
    is_same = λ x. refl;
  }

  read-IsAnswer :
      (readable : Bool) (now : ℕ) (s : r.Store) (c : String) (cached : List String)
      → read_hosts r readable (hosts_key app_id) s ≡ c ∷ cached
      → IsRecent app_id tables_at now (r.find (hosts_key app_id) s)
      → IsAnswer app_id tables_at now (c ∷ cached)
  unfolding read_hosts
  read-IsAnswer false now s c cached found h = absurd (cc found)
  read-IsAnswer true now s c cached found (absent gone) =
      absurd
        (let none_found : Path (List String) [] (c ∷ cached) = rw gone at found in cc none_found)
  read-IsAnswer true now s c cached found (held ms k since stored past near same) =
      let same_list : Path (List String) ms (c ∷ cached) = rw stored at found in
      record {
        since = since;
        is_past = past;
        is_near = omega arith;
        is_same = λ x. ap (λ ys. has ys x) (sym same_list) ∙ same x;
      }

  write_hosts-IsRecent :
      (writable : Bool) (now : ℕ) (s : r.Store)
      → IsRecent app_id tables_at now (r.find (hosts_key app_id) s)
      → IsRecent app_id tables_at now (
          r.find
            (hosts_key app_id)
            (write_hosts r writable (hosts_key app_id) (hosts_at app_id tables_at now) s))
  unfolding write_hosts
  write_hosts-IsRecent writable now s h = elim (List-cases (hosts_at app_id tables_at now)) [
    | inl empty ↦ rw (write_hosts, empty) h
    | inr (x, xs, some_hosts) ↦ elim (Bool-cases writable) [
      | inr off ↦ rw (write_hosts, some_hosts, off) h
      | inl on ↦
          let (ms, stored, same) = cache_hosts-held r (hosts_key app_id) x xs s in
          rw (write_hosts, some_hosts, on)
            (held ms 300 now stored (omega arith) (omega arith)
              (λ y. same y ∙ ap (λ zs. has zs y) (sym some_hosts)))
    ]
  ]

  get_app_host_names-Served :
      (readable writable : Bool) (now : ℕ) (s : r.Store)
      → IsRecent app_id tables_at now (r.find (hosts_key app_id) s)
      → Served now (get_app_host_names r readable writable app_id (tables_at now) s)
  unfolding get_app_host_names
  get_app_host_names-Served readable writable now s h =
      let key = hosts_key app_id in
      elim (List-cases (read_hosts r readable key s)) [
        | inl nothing ↦
            rw (get_app_host_names, nothing)
              (fresh-IsAnswer now, write_hosts-IsRecent writable now s h)
        | inr (c, cached, found) ↦
            let reply : get_app_host_names r readable writable app_id (tables_at now) s
                ≡ (c ∷ cached, s) =
              rw (get_app_host_names, found) refl in
            subst (Served now) (sym reply) (read-IsAnswer readable now s c cached found h, h)
      ]

  answers-IsAnswer :
      (events : List Event) (now : ℕ) (s : r.Store)
      → IsRecent app_id tables_at now (r.find (hosts_key app_id) s)
      → All (λ a. IsAnswer app_id tables_at a.0 a.1) (answers events now s)
  answers-IsAnswer [] now s h = tt
  answers-IsAnswer (waits n ∷ events) now s h = answers-IsAnswer events (now + n) (r.elapse n s) (
      subst (IsRecent app_id tables_at (now + n)) (sym (r.find-elapse (hosts_key app_id) n s))
        (aged-IsRecent app_id tables_at now n _ h))
  answers-IsAnswer (asks readable writable ∷ events) now s h =
      let (served, left) = get_app_host_names-Served readable writable now s h in
      (served, answers-IsAnswer events now _ left)

  -- If Redis holds no hosts of the app at the start, then, however requests and stretches of time follow
  -- each other, whichever of them Redis fails, and however the tables change meanwhile, each request is
  -- answered with the hosts that the table gave the app at some second of the last five minutes.
  pub answers_recent :
      (events : List Event) (now : ℕ) (s : r.Store)
      → r.find (hosts_key app_id) s ≡ none
      → All (λ a. IsAnswer app_id tables_at a.0 a.1) (answers events now s)
  answers_recent events now s empty = answers-IsAnswer events now s (absent empty)
