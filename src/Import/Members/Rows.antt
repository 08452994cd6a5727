-- ===== src/Import/Members/Rows.antt =====
-- The members of the rows, with their categories, properties, phones and tags: rawCsvToMember of
-- src/member/member.service.ts.
use lodestar_server.Prelude.{
  ℕ, ◌+◌, String, Bool, not, Option, none, some, List, [], ◌∷◌, map, select, any, find_first, ◌==◌,
  if◌then◌else◌, ◌>>=◌,
}
use lodestar_server.Import.Cells.{Row}
use lodestar_server.Import.Tally.{Parsed}
use lodestar_server.Import.MemberHeader.{
  MemberCsvHeaderMapping, CsvRawMember, deserialize_member_row, is_new_row,
}
use lodestar_server.Import.Members.{
  MemberError, MemberRow, Category, Property, MemberCategory, PropertyValue, MemberPhone, MemberTag,
  ImportedMember, Outside, Definitions, member_of,
}

unfoldable pub find_category : String → List Category → Option Category
find_category name cs = find_first (λ c. name == c.name) cs

unfoldable pub find_property : String → List Property → Option Property
find_property name ps = find_first (λ p. p.name == name) ps

-- The names that no category of the app has are left out.
unfoldable pub categories_of : String → List Category → List String → List MemberCategory
unfolding find_category
categories_of id cs [] = []
categories_of id cs (name ∷ names) = elim (find_category name cs) [
  | none ↦ categories_of id cs names
  | some c ↦
      record { member_id = id; category_id = c.id; position = c.position }
      ∷ categories_of id cs names
]

-- The empty values and the names that no property of the app has are left out.
unfoldable pub property_values_of :
    String → List Property → List (String × String) → List PropertyValue
unfolding find_property
property_values_of id ps [] = []
property_values_of id ps (entry ∷ entries) = elim (find_property entry.0 ps) [
  | none ↦ property_values_of id ps entries
  | some p ↦
      let rest = property_values_of id ps entries in
      if entry.1 == ""
      then rest
      else record { member_id = id; property_id = p.id; value = entry.1 } ∷ rest
]

abbrev phones_of : String → List String → List MemberPhone
phones_of id phones =
    map (λ p. record { member_id = id; phone = p }) (select (λ p. not (p == "")) phones)

abbrev tags_of : String → List String → List String → List MemberTag
tags_of id tags names =
    map (λ t. record { member_id = id; tag_name = t }) (select (λ n. any (λ t. t == n) tags) names)

unfoldable pub with_relations : Definitions → CsvRawMember → ImportedMember → ImportedMember
unfolding categories_of property_values_of
with_relations defs row m = record m {
  categories = categories_of m.id defs.categories row.categories;
  properties = property_values_of m.id defs.properties row.properties;
  phones = phones_of m.id row.phones;
  tags = tags_of m.id defs.tags row.tags;
}

abbrev pub MemberResult : Type 0
MemberResult = Parsed ImportedMember MemberError

-- DefinitionInfrastructure: the categories and properties of the app.
unfoldable pub get_categories : String → List Category → List Category
get_categories app_id cs = select (λ c. c.app_id == app_id) cs

unfoldable pub get_properties : String → List Property → List Property
get_properties app_id ps = select (λ p. p.app_id == app_id) ps

-- Every row is read before the first is made a member, so a row that cannot be read throws first.
unfoldable pub deserialize_all :
    MemberCsvHeaderMapping → List Row → Option (List (Bool × CsvRawMember))
unfolding deserialize_member_row is_new_row
deserialize_all header [] = some []
deserialize_all header (row ∷ rows) = do
  raw ← deserialize_member_row header row
  raws ← deserialize_all header rows
  some ((is_new_row header row, raw) ∷ raws)

module _ (o : Outside) (defs : Definitions) where
  -- One round of the loop in rawCsvToMember; none where it throws.
  unfoldable pub row_to_member :
      String → String → Bool → List MemberRow → CsvRawMember → Option MemberResult
  unfolding member_of with_relations
  row_to_member app_id fresh is_new rows row = elim (o.row_errors is_new row) [
    | e ∷ es ↦ some (none, e ∷ es)
    | [] ↦ do m ← member_of o app_id fresh rows row; some (some (with_relations defs row m), [])
  ]

  unfoldable pub make_all :
      String
      → (ℕ → String)
      → ℕ
      → List MemberRow
      → List (Bool × CsvRawMember)
      → Option (List MemberResult)
  unfolding row_to_member
  make_all app_id ids n table [] = some []
  make_all app_id ids n table (raw ∷ raws) = do
    result ← row_to_member app_id (ids n) raw.0 table raw.1
    results ← make_all app_id ids (n + 1) table raws
    some (result ∷ results)

-- MemberService.rawCsvToMember
unfoldable pub raw_csv_to_member :
    Outside
    → Definitions
    → String
    → MemberCsvHeaderMapping
    → (ℕ → String)
    → List MemberRow
    → List Row
    → Option (List MemberResult)
unfolding deserialize_all make_all get_categories get_properties
raw_csv_to_member o defs app_id header ids table rows =
    let own : Definitions = record {
      categories = get_categories app_id defs.categories;
      properties = get_properties app_id defs.properties;
      tags = defs.tags;
    } in
    do raws ← deserialize_all header rows; make_all o own app_id ids 0 table raws
