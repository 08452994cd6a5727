-- ===== src/Import/Members/Save.antt =====
-- The transaction of a member, and processImportFromFile: src/member/member.service.ts.
use Prim.Native.String
use lodestar_server.Prelude.{
  ℕ, String, not, ◌&&◌, Option, none, some, List, [], ◌∷◌, ◌++◌, map, select, ◌==◌, if◌then◌else◌,
  ◌>>=◌,
}
use lodestar_server.Import.Cells.{Row, Field, undefined, null, text}
use lodestar_server.Import.Settle.{Outcome, committed, rolled_back, settle_all}
use lodestar_server.Import.Tally.{ImportResult, has_no_errors, tally, refuse_header, shift, shown}
use lodestar_server.Import.MemberHeader.{
  new_member_mapping, deserialize_member_header, MemberCsvHeaderMapping,
}
use lodestar_server.Import.Members.{
  MemberError, MemberRow, PropertyValue, ImportedMember, Tables, Outside, Definitions, find_row,
}
use lodestar_server.Import.Members.Rows.{raw_csv_to_member}

-- `delete({ memberId })`
abbrev pub without {ℓ} : {A : Type ℓ} → (A → String) → String → List A → List A
without member_of id rows = select (λ r. not (member_of r == id)) rows

-- The row of the id replaced, or the row added.
abbrev pub upsert_row : MemberRow → List MemberRow → List MemberRow
upsert_row m [] = m ∷ []
upsert_row m (r ∷ rows) = if r.id == m.id then m ∷ rows else r ∷ upsert_row m rows

-- `upsert(..., { conflictPaths: ['memberId', 'propertyId'] })`
abbrev pub upsert_value : PropertyValue → List PropertyValue → List PropertyValue
upsert_value v [] = v ∷ []
upsert_value v (w ∷ ws) =
    if (w.member_id == v.member_id) && (w.property_id == v.property_id)
    then v ∷ ws
    else w ∷ upsert_value v ws

abbrev pub upsert_values : List PropertyValue → List PropertyValue → List PropertyValue
upsert_values [] ws = ws
upsert_values (v ∷ vs) ws = upsert_values vs (upsert_value v ws)

module _ (o : Outside) where
  -- The statements of the transaction, without a failure.
  unfoldable pub saved : ImportedMember → Tables → Tables
  unfolding find_row
  saved m t = record {
    members = upsert_row (o.saved_row m (find_row m.id t.members)) t.members;
    categories = without (λ c. c.member_id) m.id t.categories ++ m.categories;
    properties = upsert_values m.properties t.properties;
    phones = without (λ p. p.member_id) m.id t.phones ++ m.phones;
    tags = without (λ g. g.member_id) m.id t.tags ++ m.tags;
  }

  -- The reason tells the member's email and user name with the error.
  unfoldable pub save_member :
      Option ImportedMember → Tables → Outcome Tables (Option String × Field × String)
  unfolding saved
  save_member none t = rolled_back (none, undefined, "Cannot read properties of null")
  save_member (some m) t = elim (o.objection m t) [
    | none ↦ committed (saved m t)
    | some error ↦ rolled_back (m.email, m.username, error)
  ]

abbrev shown_field : Field → String
shown_field undefined = "undefined"
shown_field null = "null"
shown_field (text s) = s

-- `${id}/${username}/${email}`
abbrev pub identity_of_member : MemberError → String
identity_of_member e =
    String.◌++◌ (shown_field e.id)
      (String.◌++◌ "/" (String.◌++◌ (shown e.username) (String.◌++◌ "/" (shown e.email))))

abbrev pub MemberImportResult : Type 0
MemberImportResult = ImportResult MemberError (Option String × Field × String)

module _ (o : Outside) (defs : Definitions) where
  unfoldable pub import_members :
      String
      → MemberCsvHeaderMapping
      → (ℕ → String)
      → List Row
      → Tables
      → Option (MemberImportResult × Tables)
  unfolding save_member raw_csv_to_member
  import_members app_id header ids rows t = do
    results ← raw_csv_to_member o defs app_id header ids t.members rows
    let settled = settle_all (save_member o) (map (λ r. r.0) (select has_no_errors results)) t
    some (tally identity_of_member results settled.0, settled.1)

  -- MemberService.processImportFromFile; none where it throws.
  unfoldable pub process_member_import :
      String → (ℕ → String) → List Row → Tables → Option (MemberImportResult × Tables)
  unfolding import_members deserialize_member_header
  process_member_import app_id ids raw_rows t =
      let parts = shift raw_rows in
      let header = deserialize_member_header parts.0 new_member_mapping in
      elim (o.header_errors header) [
        | e ∷ es ↦ some (refuse_header parts.1 (e ∷ es), t)
        | [] ↦ import_members app_id header ids parts.1 t
      ]
