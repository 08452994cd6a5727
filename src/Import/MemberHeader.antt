-- ===== src/Import/MemberHeader.antt =====
-- The columns of a member spreadsheet: src/member/class/csvHeaderMapping.ts and csvRawMember.ts.
use text.Mathlib.Text.{starts_with}
use lodestar_server.Prelude.{
  ◌>>=◌, String, Bool, true, not, Option, none, some, List, [], ◌∷◌, ◌++◌, ◌==◌, if◌then◌else◌,
  select,
}
use lodestar_server.Import.Cells.{
  Row, Field, cell, cell_under, parse_field_from_raw, parse_nullable_field_from_raw,
}

-- Each field holds the name of its column; the last four the names of theirs.
pub record MemberCsvHeaderMapping : Type 0 where
  pub id : Option String
  pub name : Option String
  pub username : Option String
  pub email : Option String
  pub role : Option String
  pub star : Option String
  pub created_at : Option String
  pub logined_at : Option String
  pub categories : Option (List String)
  pub properties : Option (List String)
  pub phones : Option (List String)
  pub tags : Option (List String)

abbrev pub new_member_mapping : MemberCsvHeaderMapping
new_member_mapping = record {
  id = none;
  name = none;
  username = none;
  email = none;
  role = none;
  star = none;
  created_at = none;
  logined_at = none;
  categories = none;
  properties = none;
  phones = none;
  tags = none;
}

-- `names ? [...names, name] : [name]`
abbrev and_name : String → Option (List String) → Option (List String)
and_name name none = some (name ∷ [])
and_name name (some names) = some (names ++ (name ∷ []))

-- The default case of the switch: a list of columns.
unfoldable assign_list : String → String → MemberCsvHeaderMapping → MemberCsvHeaderMapping
assign_list human_readable code_readable h =
    if starts_with code_readable "categories."
    then record h { categories = and_name human_readable h.categories }
    else if starts_with code_readable "properties."
    then record h { properties = and_name human_readable h.properties }
    else if starts_with code_readable "phones."
    then record h { phones = and_name human_readable h.phones }
    else if starts_with code_readable "tags."
    then record h { tags = and_name human_readable h.tags }
    else h

unfoldable assign_column : String → String → MemberCsvHeaderMapping → MemberCsvHeaderMapping
unfolding assign_list
assign_column human_readable code_readable h =
    if code_readable == "id"
    then record h { id = some human_readable }
    else if code_readable == "name"
    then record h { name = some human_readable }
    else if code_readable == "username"
    then record h { username = some human_readable }
    else if code_readable == "email"
    then record h { email = some human_readable }
    else if code_readable == "role"
    then record h { role = some human_readable }
    else if code_readable == "star"
    then record h { star = some human_readable }
    else if code_readable == "createdAt"
    then record h { created_at = some human_readable }
    else if code_readable == "loginedAt"
    then record h { logined_at = some human_readable }
    else assign_list human_readable code_readable h

-- MemberCsvHeaderMapping.deserializeFromRaw, without the validation.
unfoldable pub deserialize_member_header : Row → MemberCsvHeaderMapping → MemberCsvHeaderMapping
unfolding assign_column
deserialize_member_header [] h = h
deserialize_member_header (p ∷ row) h = deserialize_member_header row (assign_column p.0 p.1 h)

pub record CsvRawMember : Type 0 where
  pub id : Field
  pub name : Option String
  pub username : Option String
  pub email : Option String
  pub star : Field
  pub role : Field
  pub created_at : Field
  pub logined_at : Field
  pub phones : List String
  pub categories : List String
  pub properties : List (String × String)
  pub tags : List String

abbrev or_none : Option (List String) → List String
or_none none = []
or_none (some names) = names

-- `names.map(each => row[each]).filter(isNotEmpty)`
unfoldable cells_of : List String → Row → List String
unfolding cell
cells_of [] row = []
cells_of (name ∷ names) row = elim (cell name row) [
  | none ↦ cells_of names row
  | some value ↦ let rest = cells_of names row in if value == "" then rest else value ∷ rest
]

-- `names.map(each => row[each].toString())`: a TypeError, none, where a cell is undefined.
unfoldable pub texts_of : List String → Row → Option (List String)
unfolding cell
texts_of [] row = some []
texts_of (name ∷ names) row = do
  value ← cell name row
  rest ← texts_of names row
  some (value ∷ rest)

-- `[...new Set(items)]`
abbrev pub distinct : List String → List String
distinct [] = []
distinct (x ∷ xs) = x ∷ select (λ y. not (y == x)) (distinct xs)

-- `acc[key] = value`
abbrev pub put : String → String → List (String × String) → List (String × String)
put key value [] = (key, value) ∷ []
put key value (p ∷ acc) =
    let rest = put key value acc in if p.0 == key then (key, value) ∷ acc else p ∷ rest

unfoldable properties_of : List String → Row → List (String × String) → List (String × String)
unfolding cell
properties_of [] row acc = acc
properties_of (name ∷ names) row acc = elim (cell name row) [
  | none ↦ properties_of names row acc
  | some value ↦ properties_of names row (if value == "" then acc else put name value acc)
]

-- CsvRawMember.deserializedFromCsvRawRow, without the validation; none where it throws.
unfoldable pub deserialize_member_row : MemberCsvHeaderMapping → Row → Option CsvRawMember
unfolding texts_of cells_of properties_of cell_under parse_field_from_raw
    parse_nullable_field_from_raw
deserialize_member_row header row = do
  phones ← texts_of (or_none header.phones) row
  some (record {
    id = parse_nullable_field_from_raw (cell_under header.id row);
    name = parse_field_from_raw (cell_under header.name row);
    username = parse_field_from_raw (cell_under header.username row);
    email = parse_field_from_raw (cell_under header.email row);
    star = parse_nullable_field_from_raw (cell_under header.star row);
    role = parse_nullable_field_from_raw (cell_under header.role row);
    created_at = parse_nullable_field_from_raw (cell_under header.created_at row);
    logined_at = parse_nullable_field_from_raw (cell_under header.logined_at row);
    phones = distinct (select (λ p. not (p == "")) phones);
    categories = cells_of (or_none header.categories) row;
    properties = properties_of (or_none header.properties) row [];
    tags = cells_of (or_none header.tags) row;
  })

-- `isEmpty(row[header.id]) ? 'import-new' : 'import-exists'`
unfoldable pub is_new_row : MemberCsvHeaderMapping → Row → Bool
unfolding cell_under cell
is_new_row header row = elim (cell_under header.id row) [ none ↦ true | some value ↦ value == "" ]
