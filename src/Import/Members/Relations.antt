-- ===== src/Import/Members/Relations.antt =====
-- The rows of one member in a table, after a deletion and after upserts: src/member/member.service.ts.
use mathlib.Core.List.{append-nil}
use lodestar_server.Prelude.{
  String, ◌≡◌, ◌≢◌, ◌∙◌, refl, ap, ◌&&◌, Option, some, List, [], ◌∷◌, ◌++◌, select, ◌==◌, eq_iff,
  if◌then◌else◌, arith, All, select-append, find_first,
}
use lodestar_server.Import.Members.{PropertyValue}
use lodestar_server.Import.Members.Save.{without, upsert_value, upsert_values}

module _ {A : Type 0} (key : A → String) where
  abbrev pub rows_of : String → List A → List A
  rows_of id rows = select (λ r. key r == id) rows

  rows_of-without_self : (id : String) (rows : List A) → rows_of id (without key id rows) ≡ []
  rows_of-without_self id [] = refl
  rows_of-without_self id (r ∷ rows) = ground (arith, rows_of-without_self id rows)

  rows_of-without :
      (id j : String) (rows : List A) → id ≢ j → rows_of j (without key id rows) ≡ rows_of j rows
  rows_of-without id j [] ne = refl
  rows_of-without id j (r ∷ rows) ne =
      ground (arith, eq_iff (key r) id, eq_iff (key r) j, rows_of-without id j rows ne)

  All-eq : (id : String) (rows : List A) → All (λ r. key r ≡ id) rows → rows_of id rows ≡ rows
  All-eq id [] h = refl
  All-eq id (r ∷ rows) (e, h) = ground (arith, (eq_iff (key r) id).1 e, All-eq id rows h)

  All-ne :
      (id j : String) (rows : List A) → id ≢ j → All (λ r. key r ≡ id) rows → rows_of j rows ≡ []
  All-ne id j [] ne h = refl
  All-ne id j (r ∷ rows) ne (e, h) = ground (arith, eq_iff (key r) j, e, All-ne id j rows ne h)

  pub replaced_self :
      (id : String) (old new : List A)
      → All (λ r. key r ≡ id) new
      → rows_of id (without key id old ++ new) ≡ new
  replaced_self id old new h =
      rw (select-append (λ r. key r == id) (without key id old) new, rows_of-without_self id old)
        (All-eq id new h)

  pub replaced_other :
      (id j : String) (old new : List A)
      → id ≢ j
      → All (λ r. key r ≡ id) new
      → rows_of j (without key id old ++ new) ≡ rows_of j old
  replaced_other id j old new ne h =
      rw
        (
          select-append (λ r. key r == j) (without key id old) new,
          All-ne id j new ne h,
          rows_of-without id j old ne,
        )
        (append-nil (rows_of j old))

abbrev pub value_of : String → String → List PropertyValue → Option PropertyValue
value_of member property vs =
    find_first (λ v. (v.member_id == member) && (v.property_id == property)) vs

-- The last of the values for the property, or else the value that there was.
abbrev pub latest :
    String → String → List PropertyValue → Option PropertyValue → Option PropertyValue
latest member property [] old = old
latest member property (v ∷ vs) old =
    latest member property vs
      (if (v.member_id == member) && (v.property_id == property) then some v else old)

value_of-upsert_value :
    (member property : String) (v : PropertyValue) (ws : List PropertyValue)
    → value_of member property (upsert_value v ws) ≡ (
        if (v.member_id == member) && (v.property_id == property)
        then some v
        else value_of member property ws)
value_of-upsert_value member property v [] = refl
value_of-upsert_value member property v (w ∷ ws) = ground (
  arith,
  eq_iff v.member_id member,
  eq_iff v.property_id property,
  eq_iff w.member_id member,
  eq_iff w.property_id property,
  eq_iff w.member_id v.member_id,
  eq_iff w.property_id v.property_id,
  value_of-upsert_value member property v ws,
)

pub value_of-upsert_values :
    (member property : String) (vs ws : List PropertyValue)
    → value_of member property (upsert_values vs ws)
      ≡ latest member property vs (value_of member property ws)
value_of-upsert_values member property [] ws = refl
value_of-upsert_values member property (v ∷ vs) ws =
    value_of-upsert_values member property vs (upsert_value v ws)
    ∙ ap (latest member property vs) (value_of-upsert_value member property v ws)

pub latest_other :
    (id member property : String) (vs : List PropertyValue) (old : Option PropertyValue)
    → id ≢ member
    → All (λ v. v.member_id ≡ id) vs
    → latest member property vs old ≡ old
latest_other id member property [] old ne h = refl
latest_other id member property (v ∷ vs) old ne (e, h) =
    ground (arith, eq_iff v.member_id member, e, latest_other id member property vs old ne h)
