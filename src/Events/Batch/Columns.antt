-- ===== src/Events/Batch/Columns.antt =====
-- The columns of an insertion of src/event/batchHelpers.ts.
use mathlib.Core.Path.{subst}
use lodestar_server.Prelude.{
  ℕ, ◌+◌, ◌≤◌, String, ◌≡◌, refl, sym, ap, Bool, true, not, Option, none, some, List, [], ◌∷◌, ◌++◌,
  map, length, length-map, select, ◌==◌, if◌then◌else◌, arith, eq_iff, Among, inl, inr, Bool-cases,
}
use lodestar_server.Import.MemberHeader.{distinct}
use lodestar_server.Programs.Package.Delivered.{Among-distinct}
use lodestar_server.Events.Batch.{
  Obj, keys_of, flat_keys, get_unique_keys, row_values, insert_value, member_of_key,
}

abbrev pub times : String → List String → ℕ
times x [] = 0
times x (y ∷ ys) = (if y == x then 1 else 0) + times x ys

times-without :
    (x y : String) (ys : List String) → times x (select (λ z. not (z == y)) ys) ≤ times x ys
times-without x y [] = omega arith
times-without x y (z ∷ ys) = ground (arith, times-without x y ys)

times-without_self : (y : String) (ys : List String) → times y (select (λ z. not (z == y)) ys) ≡ 0
times-without_self y [] = refl
times-without_self y (z ∷ ys) = ground (arith, times-without_self y ys)

times-distinct : (x : String) (ys : List String) → times x (distinct ys) ≤ 1
times-distinct x [] = omega arith
times-distinct x (y ∷ ys) = ground (
  arith,
  eq_iff y x,
  times-distinct x ys,
  times-without x y (distinct ys),
  times-without_self y (distinct ys),
)

Among-append :
    (x : String) (xs ys : List String)
    → (Among x xs → Among x (xs ++ ys)) × (Among x ys → Among x (xs ++ ys))
Among-append x [] ys = (λ a. absurd a, λ a. a)
Among-append x (z ∷ xs) ys =
    let (left, right) = Among-append x xs ys in
    (λ a. elim a [ inl e ↦ inl e | inr b ↦ inr (left b) ], λ a. inr (right a))

key-Among :
    (key : String) (o : Obj) (payload : List Obj)
    → Among o payload
    → Among key (keys_of o)
    → Among key (flat_keys payload)
key-Among key o [] a h = absurd a
key-Among key o (p ∷ ps) (inl e) h =
    (Among-append key (keys_of p) (flat_keys ps)).0 (subst (λ q. Among key (keys_of q)) e h)
key-Among key o (p ∷ ps) (inr a) h =
    (Among-append key (keys_of p) (flat_keys ps)).1 (key-Among key o ps a h)

-- The value of a row under a column.
abbrev value_under : String → List String → List String → Option String
value_under key [] vs = none
value_under key (k ∷ ks) [] = none
value_under key (k ∷ ks) (v ∷ vs) = if k == key then some v else value_under key ks vs

value_under-map :
    (f : String → String) (key : String) (ks : List String)
    → Among key ks
    → value_under key ks (map f ks) ≡ some (f key)
value_under-map f key [] a = absurd a
value_under-map f key (k ∷ ks) a = elim (Bool-cases (k == key)) [
  | inl same ↦ rw same (ap (λ x. some (f x)) ((eq_iff k key).0 same))
  | inr other ↦ elim a [
    | inl e ↦
        absurd (let yes : Path Bool (k == key) true = (eq_iff k key).1 (sym e) in cc (yes, other))
    | inr b ↦ rw other (value_under-map f key ks b)
  ]
]

-- The columns of an insertion have every key of every object of the payload, none of them twice; every row
-- of values is as long as the columns and has the object's own member, as it is written, under each of its
-- keys.
insert_columns_lem :
    (payload : List Obj) (o : Obj) (key : String)
    → Among o payload
    → Among key (keys_of o)
    → Among key (get_unique_keys payload)
      × (times key (get_unique_keys payload) ≤ 1)
      × (length (row_values (get_unique_keys payload) o) ≡ length (get_unique_keys payload))
      × (value_under key (get_unique_keys payload) (row_values (get_unique_keys payload) o)
          ≡ some (insert_value (member_of_key key o)))
unfolding get_unique_keys row_values
insert_columns_lem payload o key a h =
    let column = Among-distinct (flat_keys payload) key (key-Among key o payload a h) in
    (
      column,
      times-distinct key (flat_keys payload),
      length-map (λ k. insert_value (member_of_key k o)) (distinct (flat_keys payload)),
      value_under-map (λ k. insert_value (member_of_key k o)) key (distinct (flat_keys payload))
          column,
    )
