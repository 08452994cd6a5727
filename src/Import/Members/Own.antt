-- ===== src/Import/Members/Own.antt =====
-- The rows that rawCsvToMember of src/member/member.service.ts makes name the member's id.
use mathlib.Core.Path.{subst}
use lodestar_server.Prelude.{
  String, ◌≡◌, refl, Bool, not, Option, none, some, List, [], ◌∷◌, map, select, any, ◌==◌, All,
  List-cases, Option-cases, Bool-cases, inl, inr,
}
use lodestar_server.Import.MemberHeader.{CsvRawMember}
use lodestar_server.Import.Members.{
  MemberError, MemberRow, Category, Property, ImportedMember, Outside, Definitions, member_of,
}
use lodestar_server.Import.Members.Rows.{
  find_category, find_property, categories_of, property_values_of, with_relations, row_to_member,
  MemberResult,
}

-- Every row that the entity brings names the entity's id.
pub record IsOwn (m : ImportedMember) : Type 0 where
  pub categories : All (λ c. c.member_id ≡ m.id) m.categories
  pub properties : All (λ v. v.member_id ≡ m.id) m.properties
  pub phones : All (λ p. p.member_id ≡ m.id) m.phones
  pub tags : All (λ g. g.member_id ≡ m.id) m.tags

categories_of-own :
    (id : String) (cs : List Category) (names : List String)
    → All (λ c. c.member_id ≡ id) (categories_of id cs names)
unfolding categories_of
categories_of-own id cs [] = tt
categories_of-own id cs (name ∷ names) = elim (Option-cases (find_category name cs)) [
  | inl absent ↦ rw (categories_of, absent) (categories_of-own id cs names)
  | inr (c, found) ↦ rw (categories_of, found) (refl, categories_of-own id cs names)
]

property_values_of-own :
    (id : String) (ps : List Property) (entries : List (String × String))
    → All (λ v. v.member_id ≡ id) (property_values_of id ps entries)
unfolding property_values_of
property_values_of-own id ps [] = tt
property_values_of-own id ps (entry ∷ entries) = elim (Option-cases (find_property entry.0 ps)) [
  | inl absent ↦ rw (property_values_of, absent) (property_values_of-own id ps entries)
  | inr (p, found) ↦ elim (Bool-cases (entry.1 == "")) [
    | inl blank ↦ rw (property_values_of, found, blank) (property_values_of-own id ps entries)
    | inr filled ↦
        rw (property_values_of, found, filled) (refl, property_values_of-own id ps entries)
  ]
]

All-map_eq :
    {A B : Type 0} (key : B → String) (id : String) (f : A → B) (xs : List A)
    → ((x : A) → key (f x) ≡ id)
    → All (λ r. key r ≡ id) (map f xs)
All-map_eq key id f [] e = tt
All-map_eq key id f (x ∷ xs) e = (e x, All-map_eq key id f xs e)

with_relations-IsOwn :
    (defs : Definitions) (row : CsvRawMember) (m : ImportedMember)
    → IsOwn (with_relations defs row m)
unfolding with_relations
with_relations-IsOwn defs row m = record {
  categories = categories_of-own m.id defs.categories row.categories;
  properties = property_values_of-own m.id defs.properties row.properties;
  phones =
      All-map_eq (λ p. p.member_id) m.id _ (select (λ p. not (p == "")) row.phones) (λ p. refl);
  tags =
      All-map_eq (λ g. g.member_id) m.id _ (select (λ n. any (λ t. t == n) defs.tags) row.tags)
        (λ n. refl);
}

pub row_to_member-IsOwn :
    (o : Outside) (defs : Definitions) (app_id fresh : String) (is_new : Bool)
    (rows : List MemberRow) (row : CsvRawMember) (m : ImportedMember) (errors : List MemberError)
    → row_to_member o defs app_id fresh is_new rows row ≡ some (some m, errors)
    → IsOwn m
unfolding row_to_member
row_to_member-IsOwn o defs app_id fresh is_new rows row m errors e =
    elim (List-cases (o.row_errors is_new row)) [
      | inl valid ↦ elim (Option-cases (member_of o app_id fresh rows row)) [
        | inl thrown ↦ absurd (
            let f : Path (Option MemberResult) none (some (some m, errors)) =
              rw (row_to_member, valid, thrown) at e in
            cc f)
        | inr (made, at) ↦
            let f : Path (Option MemberResult) (some (some (with_relations defs row made), []))
                (some (some m, errors)) =
              rw (row_to_member, valid, at) at e in
            subst IsOwn (cc f) (with_relations-IsOwn defs row made)
      ]
      | inr (x, xs, invalid) ↦ absurd (
          let f : Path (Option MemberResult) (some (none, x ∷ xs)) (some (some m, errors)) =
            rw (row_to_member, invalid) at e in
          cc f)
    ]
