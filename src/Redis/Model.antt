-- ===== src/Redis/Model.antt =====
-- Entries of the store, and the interface.
use lodestar_server.Prelude.{
  ℕ, suc, ◌+◌, ◌-◌, String, ◌≡◌, Bool, false, ◌&&◌, Option, none, some, List, [], ◌∷◌, leb, is_none,
  any, ◌==◌, if◌then◌else◌,
}

pub data Value : Type 0 where
  int : ℕ → Value
  object : List (String × String) → Value
  members : List String → Value
  text : String → Value

-- `ttl`: the seconds left, none where the key does not expire.
pub record Entry : Type 0 where
  pub value : Value
  pub ttl : Option ℕ

abbrev pub ttl_of : Option Entry → Option ℕ
ttl_of none = none
ttl_of (some e) = e.ttl

-- What INCR reads: an absent key counts as 0, and a value that is no integer is an error.
abbrev pub count_in : Value → Option ℕ
count_in (int n) = some n
count_in _ = none

abbrev pub count_of : Option Entry → Option ℕ
count_of none = some 0
count_of (some e) = count_in e.value

-- What SADD reads.
abbrev pub members_in : Value → Option (List String)
members_in (members ms) = some ms
members_in _ = none

abbrev pub members_of : Option Entry → Option (List String)
members_of none = some []
members_of (some e) = members_in e.value

abbrev pub with_member : String → List String → List String
with_member m ms = if any (λ x. x == m) ms then ms else m ∷ ms

-- What HSET reads, and what it leaves: a field given replaces the field that there was.
abbrev pub fields_in : Value → Option (List (String × String))
fields_in (object fs) = some fs
fields_in _ = none

abbrev pub fields_of : Option Entry → Option (List (String × String))
fields_of none = some []
fields_of (some e) = fields_in e.value

abbrev pub with_field : String → String → List (String × String) → List (String × String)
with_field k v [] = (k, v) ∷ []
with_field k v (f ∷ fs) = if f.0 == k then (k, v) ∷ fs else f ∷ with_field k v fs

abbrev pub with_fields : List (String × String) → List (String × String) → List (String × String)
with_fields [] fs = fs
with_fields (g ∷ gs) fs = with_fields gs (with_field g.0 g.1 fs)

-- What is left of an entry after `n` seconds.
abbrev pub aged_ttl : ℕ → Value → Option ℕ → Option Entry
aged_ttl n v none = some (record { value = v; ttl = none })
aged_ttl n v (some t) = if leb t n then none else some (record { value = v; ttl = some (t - n) })

abbrev pub aged : ℕ → Option Entry → Option Entry
aged n none = none
aged n (some e) = aged_ttl n e.value e.ttl

abbrev pub with_ttl : ℕ → Option Entry → Option Entry
with_ttl t none = none
with_ttl t (some e) = some (record { value = e.value; ttl = some t })

abbrev pub entry : Value → Option ℕ → Option Entry
entry v t = some (record { value = v; ttl = t })

pub record Redis : Type 1 where
  pub Store : Type 0
  pub find : String → Store → Option Entry
  pub set : String → Value → ℕ → Store → Store
  pub set_nx : String → Value → ℕ → Store → Bool × Store
  pub del : String → Store → Store
  pub incr : String → Store → ℕ × Store
  pub decr : String → Store → ℕ × Store
  pub expire : String → ℕ → Store → Store
  pub sadd : String → String → Store → Store
  pub put : String → String → Store → Store
  pub hset : String → List (String × String) → Store → Store
  pub elapse : ℕ → Store → Store
  pub find-set :
      (j k : String) (v : Value) (t : ℕ) (s : Store)
      → find j (set k v t s) ≡ (if k == j then entry v (some t) else find j s)
  pub set_nx_reply :
      (k : String) (v : Value) (t : ℕ) (s : Store) → (set_nx k v t s).0 ≡ is_none (find k s)
  pub find-set_nx :
      (j k : String) (v : Value) (t : ℕ) (s : Store)
      → find j (set_nx k v t s).1
        ≡ (if (k == j) && is_none (find k s) then entry v (some t) else find j s)
  pub find-del : (j k : String) (s : Store) → find j (del k s) ≡ (if k == j then none else find j s)
  pub incr_reply :
      (k : String) (s : Store) (n : ℕ) → count_of (find k s) ≡ some n → (incr k s).0 ≡ n + 1
  pub find-incr_self :
      (k : String) (s : Store) (n : ℕ)
      → count_of (find k s) ≡ some n
      → find k (incr k s).1 ≡ entry (int (n + 1)) (ttl_of (find k s))
  pub find-incr_ne : (j k : String) (s : Store) → (k == j) ≡ false → find j (incr k s).1 ≡ find j s
  pub decr_reply :
      (k : String) (s : Store) (n : ℕ) → count_of (find k s) ≡ some (suc n) → (decr k s).0 ≡ n
  pub find-decr_self :
      (k : String) (s : Store) (n : ℕ)
      → count_of (find k s) ≡ some (suc n)
      → find k (decr k s).1 ≡ entry (int n) (ttl_of (find k s))
  pub find-decr_ne : (j k : String) (s : Store) → (k == j) ≡ false → find j (decr k s).1 ≡ find j s
  pub find-expire :
      (j k : String) (t : ℕ) (s : Store)
      → find j (expire k t s) ≡ (if k == j then with_ttl t (find k s) else find j s)
  pub find-sadd_self :
      (k m : String) (s : Store) (ms : List String)
      → members_of (find k s) ≡ some ms
      → find k (sadd k m s) ≡ entry (members (with_member m ms)) (ttl_of (find k s))
  pub find-sadd_ne :
      (j k m : String) (s : Store) → (k == j) ≡ false → find j (sadd k m s) ≡ find j s
  pub find-put :
      (j k v : String) (s : Store)
      → find j (put k v s) ≡ (if k == j then entry (text v) none else find j s)
  pub find-hset_self :
      (k : String) (new : List (String × String)) (s : Store) (fs : List (String × String))
      → fields_of (find k s) ≡ some fs
      → find k (hset k new s) ≡ entry (object (with_fields new fs)) (ttl_of (find k s))
  pub find-hset_ne :
      (j k : String) (new : List (String × String)) (s : Store)
      → (k == j) ≡ false
      → find j (hset k new s) ≡ find j s
  pub find-elapse : (j : String) (n : ℕ) (s : Store) → find j (elapse n s) ≡ aged n (find j s)
