-- ===== src/Events/Batch.antt =====
-- The statements of src/event/batchHelpers.ts. An object of a payload is the list of its members.
pub mod Columns
use Prim.Native.String
use lodestar_server.Prelude.{
  String, Bool, true, false, Option, none, some, List, [], ◌∷◌, ◌++◌, map, any, ◌==◌, if◌then◌else◌,
}
use lodestar_server.Cors.Guard.{join_commas}
use lodestar_server.Import.MemberHeader.{distinct}

-- A member's value, by what typeof says: the text of a number, a text, an object with its JSON, null or
-- undefined.
pub data Val : Type 0 where
  number : String → Val
  text : String → Val
  object : String → Val
  null : Val
  undefined : Val

abbrev pub Obj : Type 0
Obj = List (String × Val)

abbrev pub keys_of : Obj → List String
keys_of o = map (λ m. m.0) o

abbrev pub flat_keys : List Obj → List String
flat_keys [] = []
flat_keys (o ∷ os) = keys_of o ++ flat_keys os

-- getUniqueKeys
unfoldable pub get_unique_keys : List Obj → List String
get_unique_keys payload = distinct (flat_keys payload)

-- `obj?.[key]`
unfoldable pub member_of_key : String → Obj → Val
member_of_key key [] = undefined
member_of_key key (m ∷ ms) = if m.0 == key then m.1 else member_of_key key ms

abbrev quoted : String → String
quoted s = String.◌++◌ "'" (String.◌++◌ s "'")

-- `?? 'null'`, JSON.stringify of an object, and quotes around all but a number.
abbrev pub insert_value : Val → String
insert_value (number n) = n
insert_value (text s) = quoted s
insert_value (object json) = quoted json
insert_value null = quoted "null"
insert_value undefined = quoted "null"

abbrev in_brackets : String → String
in_brackets s = String.◌++◌ "(" (String.◌++◌ s ")")

-- The values of one row in the order of the keys.
unfoldable pub row_values : List String → Obj → List String
unfolding member_of_key
row_values keys o = map (λ key. insert_value (member_of_key key o)) keys

-- generateInsertString
unfoldable generate_insert_string : List Obj → String × String
unfolding get_unique_keys row_values
generate_insert_string payload =
    let keys = get_unique_keys payload in
    (
      in_brackets (join_commas keys),
      join_commas (map (λ o. in_brackets (join_commas (row_values keys o))) payload),
    )

abbrev values_clause : String → String → String
values_clause keys_string value_string =
    if keys_string == "()"
    then "DEFAULT VALUES"
    else String.◌++◌ keys_string (String.◌++◌ " VALUES " value_string)

abbrev returning : Option (List String) → String
returning none = "*"
returning (some columns) = join_commas columns

abbrev spaced : List String → String
spaced [] = ""
spaced (s ∷ []) = s
spaced (s ∷ t ∷ ts) = String.◌++◌ s (String.◌++◌ " " (spaced (t ∷ ts)))

-- batchInsert, its statement up to white space.
unfoldable pub batch_insert : String → List Obj → Option (List String) → String
unfolding generate_insert_string
batch_insert table payload columns =
    let parts = generate_insert_string payload in
    spaced
      ("INSERT INTO" ∷ table ∷ values_clause parts.0 parts.1 ∷ "RETURNING" ∷ returning columns ∷ [])

-- One assignment of generateUpdateString: an object stands without quotes; null is an object.
abbrev update_value : Val → String
update_value (number n) = n
update_value (text s) = quoted s
update_value (object json) = json
update_value null = "null"
update_value undefined = quoted "undefined"

unfoldable generate_update_string : Obj → String
generate_update_string payload =
    join_commas (map (λ m. String.◌++◌ m.0 (String.◌++◌ "=" (update_value m.1))) payload)

-- batchUpdate joins the columns with nothing between them.
abbrev run_together : List String → String
run_together [] = ""
run_together (s ∷ ss) = String.◌++◌ s (run_together ss)

abbrev returning_together : Option (List String) → String
returning_together none = "*"
returning_together (some columns) = run_together columns

unfoldable batch_update : String → Obj → Option (List String) → String
unfolding generate_update_string
batch_update table payload columns = spaced (
    "UPDATE"
    ∷ table
    ∷ "SET"
    ∷ generate_update_string payload
    ∷ "WHERE id = ANY($1) RETURNING"
    ∷ returning_together columns
    ∷ [])

-- The keys that are among the columns to update; the filter drops undefined, which no kept key gives.
abbrev excluded : List String → List String → List String
excluded columns [] = []
excluded columns (key ∷ keys) =
    if any (λ c. c == key) columns
    then String.◌++◌ key (String.◌++◌ "=EXCLUDED." key) ∷ excluded columns keys
    else excluded columns keys

-- generateUpsertUpdateString
unfoldable generate_upsert_update_string : List String → List Obj → String
unfolding get_unique_keys
generate_upsert_update_string columns payload =
    join_commas (excluded columns (get_unique_keys payload))

-- batchUpsert
unfoldable batch_upsert :
    String → List String → List String → List Obj → Option (List String) → String
unfolding generate_insert_string generate_upsert_update_string
batch_upsert table conflicts updates payload columns =
    let parts = generate_insert_string payload in
    spaced (
      "INSERT INTO"
      ∷ table
      ∷ values_clause parts.0 parts.1
      ∷ "ON CONFLICT"
      ∷ in_brackets (join_commas conflicts)
      ∷ "DO UPDATE SET"
      ∷ generate_upsert_update_string updates payload
      ∷ "RETURNING"
      ∷ returning columns
      ∷ [])
