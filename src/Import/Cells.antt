-- ===== src/Import/Cells.antt =====
-- The cells of a spreadsheet's row, as src/utils.ts reads them.
use lodestar_server.Prelude.{
  ℕ, String, Bool, true, ◌||◌, Option, none, some, List, ◌==◌, if◌then◌else◌, find_first,
}

-- A row as sheet_to_json gives it: the columns with their cells.
abbrev pub Row : Type 0
Row = List (String × String)

-- `row[key]`
unfoldable pub cell : String → Row → Option String
cell key row = elim (find_first (λ p. p.0 == key) row) [ none ↦ none | some p ↦ some p.1 ]

-- `row[header.x]`, where a header that is undefined is the key "undefined".
unfoldable pub cell_under : Option String → Row → Option String
unfolding cell
cell_under none row = cell "undefined" row
cell_under (some key) row = cell key row

-- `string | null | undefined`
pub data Field : Type 0 where
  undefined : Field
  null : Field
  text : String → Field

abbrev is_empty_string : String → Bool
is_empty_string value = value == ""

abbrev is_null_string : String → Bool
is_null_string value = (value == "null") || (value == "N/A")

unfoldable pub parse_field_from_raw : Option String → Option String
parse_field_from_raw none = none
parse_field_from_raw (some value) = if is_empty_string value then none else some value

unfoldable pub parse_nullable_field_from_raw : Option String → Field
parse_nullable_field_from_raw none = undefined
parse_nullable_field_from_raw (some value) =
    if is_empty_string value then undefined else if is_null_string value then null else text value

-- `dayjs(value)`, none where it is not valid, and toISOString of a valid one.
pub record Dayjs : Type 0 where
  pub parse : String → Option ℕ
  pub to_iso_string : ℕ → String

unfoldable pub parse_date_string_field_from_raw : Dayjs → Option String → Field
parse_date_string_field_from_raw d none = null
parse_date_string_field_from_raw d (some value) =
    if is_empty_string value
    then null
    else if is_null_string value
    then null
    else elim (d.parse value) [ none ↦ text value | some at ↦ text (d.to_iso_string at) ]

-- `!value` of a field
abbrev pub is_falsy : Field → Bool
is_falsy undefined = true
is_falsy null = true
is_falsy (text s) = s == ""
