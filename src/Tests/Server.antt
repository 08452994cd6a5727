-- ===== src/Tests/Server.antt =====
-- A Redis server as a function from keys to entries: the interface can be met.
use lodestar_server.Prelude.{
  ℕ, zero, suc, ◌+◌, String, refl, ◌&&◌, Option, none, some, List, [], is_none, eq_refl, ◌==◌,
  if◌then◌else◌,
}
use lodestar_server.Redis.{
  int, members, object, text, with_fields, fields_of, Entry, Redis, count_of, members_of, ttl_of,
  with_member, aged, with_ttl, entry,
}

abbrev Map : Type 0
Map = String → Option Entry

abbrev put : String → Option Entry → Map → Map
put k e s j = if k == j then e else s j

abbrev or_zero : Option ℕ → ℕ
or_zero none = 0
or_zero (some n) = n

abbrev or_empty : Option (List String) → List String
or_empty none = []
or_empty (some ms) = ms

abbrev or_no_fields : Option (List (String × String)) → List (String × String)
or_no_fields none = []
or_no_fields (some fs) = fs

abbrev less_one : ℕ → ℕ
less_one zero = 0
less_one (suc n) = n

abbrev pub server : Redis
server = record {
  Store = Map;
  find = λ k s. s k;
  set = λ k v t s. put k (entry v (some t)) s;
  set_nx =
      λ k v t s. (is_none (s k), λ j. if (k == j) && is_none (s k) then entry v (some t) else s j);
  del = λ k s. put k none s;
  incr = λ k s. (
    or_zero (count_of (s k)) + 1,
    put k (entry (int (or_zero (count_of (s k)) + 1)) (ttl_of (s k))) s,
  );
  decr = λ k s. (
    less_one (or_zero (count_of (s k))),
    put k (entry (int (less_one (or_zero (count_of (s k))))) (ttl_of (s k))) s,
  );
  expire = λ k t s. put k (with_ttl t (s k)) s;
  sadd = λ k m s.
      put k (entry (members (with_member m (or_empty (members_of (s k))))) (ttl_of (s k))) s;
  put = λ k v s. put k (entry (text v) none) s;
  hset = λ k new s.
      put k (entry (object (with_fields new (or_no_fields (fields_of (s k))))) (ttl_of (s k))) s;
  elapse = λ n s j. aged n (s j);
  find-set = λ j k v t s. refl;
  set_nx_reply = λ k v t s. refl;
  find-set_nx = λ j k v t s. refl;
  find-del = λ j k s. refl;
  incr_reply = λ k s n h. rw h;
  find-incr_self = λ k s n h. rw (eq_refl k, h);
  find-incr_ne = λ j k s h. rw h;
  decr_reply = λ k s n h. rw h;
  find-decr_self = λ k s n h. rw (eq_refl k, h);
  find-decr_ne = λ j k s h. rw h;
  find-expire = λ j k t s. refl;
  find-sadd_self = λ k m s ms h. rw (eq_refl k, h);
  find-sadd_ne = λ j k m s h. rw h;
  find-put = λ j k v s. refl;
  find-hset_self = λ k new s fs h. rw (eq_refl k, h);
  find-hset_ne = λ j k new s h. rw h;
  find-elapse = λ j n s. refl;
}

abbrev pub blank : server.Store
blank k = none
