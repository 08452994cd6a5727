-- ===== src/Import/Coins.antt =====
-- The import of coins: src/coin/coin.service.ts.
pub mod Counts
pub mod Saved
use Prim.Native.String
use lodestar_server.Prelude.{
  ℕ, zero, ◌+◌, ◌<◌, String, Bool, true, false, not, ◌&&◌, Option, none, some, List, [], ◌∷◌, ◌++◌,
  map, length, select, find_first, ◌==◌, or_blank, if◌then◌else◌,
}
use lodestar_server.Auth.Directory.{Member}
use lodestar_server.Import.Cells.{Row, Field, undefined, null, text, Dayjs, is_falsy}
use lodestar_server.Import.Settle.{
  Settled, is_fulfilled, reasons, Outcome, committed, rolled_back, settle_all,
}
use lodestar_server.Import.Tally.{
  Parsed, ImportResult, has_no_errors, tally, refuse_header, shift, shown,
}
use lodestar_server.Import.CoinHeader.{
  CoinCsvHeaderMapping, CsvRawCoin, new_mapping, deserialize_from_raw,
  deserialized_from_csv_raw_row,
}

-- What an error of class-validator tells of its target and of its property.
pub record ValidationError : Type 0 where
  pub email : Option String
  pub title : Option String
  pub property : String
  pub constraints : String

-- The validation of both classes, and parseFloat.
pub record Validator : Type 0 where
  pub header_errors : CoinCsvHeaderMapping → List ValidationError
  pub row_errors : CsvRawCoin → List ValidationError
  pub parse_float : Option String → String

-- A date as the code computes it: null, `false`, an invalid date or a moment.
pub data Moment : Type 0 where
  no_moment : Moment
  refused : Moment
  date : Option ℕ → Moment

pub record CoinLog : Type 0 where
  pub id : String
  pub member_id : String
  pub title : Option String
  pub amount : String
  pub note : Option String
  pub description : String
  pub started_at : Moment
  pub ended_at : Moment
  pub claimed_at : Moment
  pub created_at : Moment

abbrev pub parsed : Dayjs → Field → Option ℕ
parsed d undefined = none
parsed d null = none
parsed d (text s) = d.parse s

-- `dayjs(x).isValid && dayjs(x).toDate()`, where the method itself is tested.
abbrev pub started : Dayjs → Field → Moment
started d f = if is_falsy f then no_moment else date (parsed d f)

-- `dayjs(x).isValid() && dayjs(x).toDate()`
abbrev pub checked : Dayjs → Field → Moment
checked d f = elim (parsed d f) [ none ↦ refused | some at ↦ date (some at) ]

abbrev pub moment_or_null : Dayjs → Field → Moment
moment_or_null d f = if is_falsy f then no_moment else checked d f

abbrev moment_or_now : Dayjs → ℕ → Field → Moment
moment_or_now d now f = if is_falsy f then date (some now) else checked d f

abbrev pub text_of : Field → Option String
text_of (text s) = if s == "" then none else some s
text_of _ = none

-- `findOne({ where: { appId, email } })`: an email that is undefined is no condition.
abbrev has_email : Option String → Member → Bool
has_email none m = true
has_email (some e) m = m.email == e

unfoldable pub find_member : String → Option String → List Member → Option Member
find_member app_id email members =
    find_first (λ m. (m.app_id == app_id) && has_email email m) members

-- A row's log, none in place of null, with its errors.
abbrev pub RowResult : Type 0
RowResult = Parsed CoinLog ValidationError

abbrev member_not_found : CsvRawCoin → ValidationError
member_not_found row = record {
  email = row.email;
  title = row.title;
  property = "email";
  constraints = "member not found";
}

module _ (d : Dayjs) (v : Validator) (now : ℕ) (members : List Member) where
  abbrev pub log_of : String → CsvRawCoin → Member → CoinLog
  log_of id row m = record {
    id = id;
    member_id = m.id;
    title = row.title;
    amount = v.parse_float row.amount;
    note = text_of row.note;
    description = or_blank (text_of row.description);
    started_at = started d row.started_at;
    ended_at = moment_or_null d row.ended_at;
    claimed_at = moment_or_null d row.claimed_at;
    created_at = moment_or_now d now row.created_at;
  }

  -- One round of the loop in rawCsvToCoinLog; the id is drawn by v4.
  unfoldable pub row_to_log : String → String → CsvRawCoin → RowResult
  unfolding find_member
  row_to_log app_id id row = elim (v.row_errors row) [
    | e ∷ es ↦ (none, e ∷ es)
    | [] ↦ elim (find_member app_id row.email members) [
      | none ↦ (none, member_not_found row ∷ [])
      | some m ↦ (some (log_of id row m), [])
    ]
  ]

  -- CoinService.rawCsvToCoinLog; `ids` gives the ids by the number of the row.
  unfoldable pub raw_csv_to_coin_log :
      String → CoinCsvHeaderMapping → (ℕ → String) → ℕ → List Row → List RowResult
  unfolding row_to_log deserialized_from_csv_raw_row
  raw_csv_to_coin_log app_id header ids n [] = []
  raw_csv_to_coin_log app_id header ids n (row ∷ rows) =
      row_to_log app_id (ids n) (deserialized_from_csv_raw_row d header row)
      ∷ raw_csv_to_coin_log app_id header ids (n + 1) rows

abbrev pub identity_of : ValidationError → String
identity_of e = String.◌++◌ (shown e.email) (String.◌++◌ "/" (shown e.title))

abbrev CoinOutcome : Type 0
CoinOutcome = Outcome (List CoinLog) String

-- The save of one log in its transaction. What the database objects to is a parameter.
unfoldable pub save_log :
    (CoinLog → List CoinLog → Option String) → Option CoinLog → List CoinLog → CoinOutcome
save_log objection none table = rolled_back "Cannot read properties of null"
save_log objection (some log) table = elim (objection log table) [
  | none ↦ committed (table ++ (log ∷ []))
  | some reason ↦ rolled_back reason
]

module _ (d : Dayjs) (v : Validator) (now : ℕ) (members : List Member)
    (objection : CoinLog → List CoinLog → Option String) where
  unfoldable pub import_rows :
      String
      → CoinCsvHeaderMapping
      → (ℕ → String)
      → List Row
      → List CoinLog
      → ImportResult ValidationError String × List CoinLog
  unfolding raw_csv_to_coin_log save_log
  import_rows app_id header ids rows table =
      let results = raw_csv_to_coin_log d v now members app_id header ids 0 rows in
      let logs = map (λ r. r.0) (select has_no_errors results) in
      let settled = settle_all (save_log objection) logs table in
      (tally identity_of results settled.0, settled.1)

  -- CoinService.processImportFromFile
  unfoldable pub process_import_from_file :
      String
      → (ℕ → String)
      → List Row
      → List CoinLog
      → ImportResult ValidationError String × List CoinLog
  unfolding import_rows deserialize_from_raw
  process_import_from_file app_id ids raw_rows table =
      let parts = shift raw_rows in
      let header = deserialize_from_raw parts.0 new_mapping in
      elim (v.header_errors header) [
        | e ∷ es ↦ (refuse_header parts.1 (e ∷ es), table)
        | [] ↦ import_rows app_id header ids parts.1 table
      ]
