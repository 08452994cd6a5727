-- ===== src/Import/Members.antt =====
-- The import of members: src/member/member.service.ts. What the tables hold, and the member of a row.
pub mod Rows
pub mod Save
pub mod Relations
pub mod Own
pub mod Replaced
pub mod Counts
use Prim.Native.String
use lodestar_server.Prelude.{
  ℕ, zero, suc, ◌+◌, ◌<◌, String, Bool, true, false, not, ◌&&◌, Option, none, some, List, [], ◌∷◌,
  ◌++◌, map, length, select, any, find_first, ◌==◌, if◌then◌else◌, ◌>>=◌,
}
use lodestar_server.Import.Cells.{Row, Field, undefined, null, text, is_falsy}
use lodestar_server.Import.Settle.{Outcome, committed, rolled_back, settle_all}
use lodestar_server.Import.Tally.{
  Parsed, ImportResult, has_no_errors, tally, refuse_header, shift, shown,
}
use lodestar_server.Import.MemberHeader.{
  MemberCsvHeaderMapping, CsvRawMember, new_member_mapping, deserialize_member_header,
  deserialize_member_row, is_new_row,
}

-- What an error of class-validator tells of its target and of its property.
pub record MemberError : Type 0 where
  pub id : Field
  pub username : Option String
  pub email : Option String
  pub property : String
  pub constraints : String

-- `star`: null, not a number, or a number.
pub data Star : Type 0 where
  no_star : Star
  nan : Star
  stars : ℕ → Star

-- The columns of the member table that the import reads; a date is none for null or invalid.
pub record MemberRow : Type 0 where
  pub id : String
  pub app_id : String
  pub name : String
  pub username : String
  pub email : String
  pub role : String
  pub star : Star
  pub created_at : Option ℕ
  pub logined_at : Option ℕ

pub record Category : Type 0 where
  pub id : String
  pub app_id : String
  pub name : String
  pub position : ℕ

pub record Property : Type 0 where
  pub id : String
  pub app_id : String
  pub name : String

pub record MemberCategory : Type 0 where
  pub member_id : String
  pub category_id : String
  pub position : ℕ

pub record PropertyValue : Type 0 where
  pub member_id : String
  pub property_id : String
  pub value : String

pub record MemberPhone : Type 0 where
  pub member_id : String
  pub phone : String

pub record MemberTag : Type 0 where
  pub member_id : String
  pub tag_name : String

-- The entity that rawCsvToMember makes of a row.
pub record ImportedMember : Type 0 where
  pub id : String
  pub app_id : String
  pub name : Option String
  pub username : Field
  pub email : Option String
  pub role : Field
  pub star : Star
  pub created_at : Option ℕ
  pub logined_at : Option ℕ
  pub categories : List MemberCategory
  pub properties : List PropertyValue
  pub phones : List MemberPhone
  pub tags : List MemberTag

pub record Tables : Type 0 where
  pub members : List MemberRow
  pub categories : List MemberCategory
  pub properties : List PropertyValue
  pub phones : List MemberPhone
  pub tags : List MemberTag

-- What the import takes from elsewhere: the validation, toLowerCase, parseInt, isDateString and the
-- parser of dates, what `save` makes of an entity and the row with its id, and what the database objects to.
pub record Outside : Type 0 where
  pub header_errors : MemberCsvHeaderMapping → List MemberError
  pub row_errors : Bool → CsvRawMember → List MemberError
  pub to_lower_case : String → String
  pub parse_int : String → Option ℕ
  pub is_date_string : String → Bool
  pub parse_date : String → Option ℕ
  pub saved_row : ImportedMember → Option MemberRow → MemberRow
  pub objection : ImportedMember → Tables → Option String

-- The definitions of the app: its categories, its properties, and the tags of all apps.
pub record Definitions : Type 0 where
  pub categories : List Category
  pub properties : List Property
  pub tags : List String

abbrev pub text_field : Option String → Field
text_field none = undefined
text_field (some s) = text s

-- class-validator's isEmpty
abbrev is_empty_field : Field → Bool
is_empty_field f = is_falsy f

abbrev is_truthy_star : Star → Bool
is_truthy_star (stars (suc n)) = true
is_truthy_star _ = false

unfoldable pub find_row : String → List MemberRow → Option MemberRow
find_row id rows = find_first (λ m. m.id == id) rows

-- `inDbMember.x`, a TypeError without a member of the id
abbrev of_row {ℓ} : {A : Type ℓ} → Option MemberRow → (MemberRow → A) → Option A
of_row none f = none
of_row (some m) f = some (f m)

module _ (o : Outside) where
  abbrev pub star_of : Field → Star
  star_of (text s) = elim (o.parse_int s) [ none ↦ nan | some n ↦ stars n ]
  star_of _ = nan

  abbrev date_or_null : Field → Option ℕ
  date_or_null (text s) = if o.is_date_string s then o.parse_date s else none
  date_or_null _ = none

  -- `(isEmpty(eachRow.star) && inDbMember.star) || parseInt(eachRow.star, 10)`
  abbrev pub star_or_row : Option MemberRow → Field → Option Star
  star_or_row row f =
      if is_empty_field f
      then of_row row (λ m. if is_truthy_star m.star then m.star else star_of f)
      else some (star_of f)

  abbrev pub date_or_row : Option MemberRow → (MemberRow → Option ℕ) → Field → Option (Option ℕ)
  date_or_row row get null = some none
  date_or_row row get undefined = of_row row get
  date_or_row row get (text s) = if s == "" then of_row row get else some (o.parse_date s)

  abbrev pub text_or_row :
      Option MemberRow → (MemberRow → String) → Option String → Option (Option String)
  text_or_row row get none = of_row row (λ m. some (get m))
  text_or_row row get (some s) = if s == "" then of_row row (λ m. some (get m)) else some (some s)

  abbrev pub field_or_row : Option MemberRow → (MemberRow → String) → Field → Option Field
  field_or_row row get undefined = of_row row (λ m. text (get m))
  field_or_row row get null = some null
  field_or_row row get (text s) = if s == "" then of_row row (λ m. text (get m)) else some (text s)

  -- `(isEmpty(eachRow.email) && inDbMember.email) || eachRow.email`
  abbrev pub email_or_row : Option MemberRow → Option String → Option (Option String)
  email_or_row row none = of_row row (λ m. if m.email == "" then none else some m.email)
  email_or_row row (some s) =
      if s == ""
      then of_row row (λ m. if m.email == "" then some s else some m.email)
      else some (some s)

  abbrev lower_email : Option String → Option String
  lower_email none = none
  lower_email (some s) = some (o.to_lower_case s)

  abbrev role_or_general : Field → Field
  role_or_general f = if is_falsy f then text "general-member" else f

  -- `eachRow.username || eachRow.id`
  abbrev username_or_id : Option String → Field → Field
  username_or_id none id = id
  username_or_id (some s) id = if s == "" then id else text s

  -- The branch of a row without an id; it is drawn by v4.
  unfoldable pub new_member : String → String → CsvRawMember → Option ImportedMember
  new_member app_id id row = do
    email ← lower_email row.email
    some (record {
      id = id;
      app_id = app_id;
      name = row.name;
      username = username_or_id row.username row.id;
      email = some email;
      role = role_or_general row.role;
      star = star_of row.star;
      created_at = date_or_null row.created_at;
      logined_at = date_or_null row.logined_at;
      categories = [];
      properties = [];
      phones = [];
      tags = [];
    })

  -- The branch of a row with an id: what the row leaves out is taken from the member of the id.
  unfoldable pub existing_member :
      String → String → Option MemberRow → CsvRawMember → Option ImportedMember
  existing_member app_id id found row = do
    name ← text_or_row found (λ m. m.name) row.name
    username ← field_or_row found (λ m. m.username) (text_field row.username)
    email ← email_or_row found row.email
    role ← field_or_row found (λ m. m.role) row.role
    star ← star_or_row found row.star
    created_at ← date_or_row found (λ m. m.created_at) row.created_at
    logined_at ← date_or_row found (λ m. m.logined_at) row.logined_at
    some (record {
      id = id;
      app_id = app_id;
      name = name;
      username = username;
      email = email;
      role = role;
      star = star;
      created_at = created_at;
      logined_at = logined_at;
      categories = [];
      properties = [];
      phones = [];
      tags = [];
    })

  unfoldable pub member_of : String → String → List MemberRow → CsvRawMember → Option ImportedMember
  unfolding new_member existing_member find_row
  member_of app_id fresh rows row = elim row.id [
    | text id ↦
        if id == ""
        then new_member app_id fresh row
        else existing_member app_id id (find_row id rows) row
    | undefined ↦ new_member app_id fresh row
    | null ↦ new_member app_id fresh row
  ]
