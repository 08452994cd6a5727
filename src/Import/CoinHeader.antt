-- ===== src/Import/CoinHeader.antt =====
-- The columns of a coin spreadsheet: src/coin/class/csvHeaderMapping.ts and csvRawCoin.ts.
use lodestar_server.Prelude.{String, Option, none, some, [], ◌∷◌, ◌==◌, if◌then◌else◌}
use lodestar_server.Import.Cells.{
  Row, Field, Dayjs, cell_under, parse_field_from_raw, parse_nullable_field_from_raw,
  parse_date_string_field_from_raw,
}

-- Each field holds the name that the spreadsheet gives its column.
pub record CoinCsvHeaderMapping : Type 0 where
  pub email : Option String
  pub title : Option String
  pub amount : Option String
  pub started_at : Option String
  pub ended_at : Option String
  pub note : Option String
  pub description : Option String
  pub claimed_at : Option String
  pub created_at : Option String

abbrev pub new_mapping : CoinCsvHeaderMapping
new_mapping = record {
  email = none;
  title = none;
  amount = none;
  started_at = none;
  ended_at = none;
  note = none;
  description = none;
  claimed_at = none;
  created_at = none;
}

-- The switch on the cell below a column's name.
unfoldable assign : String → String → CoinCsvHeaderMapping → CoinCsvHeaderMapping
assign human_readable code_readable h =
    if code_readable == "email"
    then record h { email = some human_readable }
    else if code_readable == "title"
    then record h { title = some human_readable }
    else if code_readable == "amount"
    then record h { amount = some human_readable }
    else if code_readable == "startedAt"
    then record h { started_at = some human_readable }
    else if code_readable == "endedAt"
    then record h { ended_at = some human_readable }
    else if code_readable == "note"
    then record h { note = some human_readable }
    else if code_readable == "description"
    then record h { description = some human_readable }
    else if code_readable == "claimedAt"
    then record h { claimed_at = some human_readable }
    else if code_readable == "createdAt"
    then record h { created_at = some human_readable }
    else h

-- CoinCsvHeaderMapping.deserializeFromRaw, without the validation.
unfoldable pub deserialize_from_raw : Row → CoinCsvHeaderMapping → CoinCsvHeaderMapping
unfolding assign
deserialize_from_raw [] h = h
deserialize_from_raw (p ∷ row) h = deserialize_from_raw row (assign p.0 p.1 h)

pub record CsvRawCoin : Type 0 where
  pub email : Option String
  pub title : Option String
  pub amount : Option String
  pub started_at : Field
  pub ended_at : Field
  pub note : Field
  pub description : Field
  pub claimed_at : Field
  pub created_at : Field

-- CsvRawCoin.deserializedFromCsvRawRow, without the validation.
unfoldable pub deserialized_from_csv_raw_row : Dayjs → CoinCsvHeaderMapping → Row → CsvRawCoin
unfolding cell_under parse_field_from_raw parse_nullable_field_from_raw
    parse_date_string_field_from_raw
deserialized_from_csv_raw_row d header row = record {
  email = parse_field_from_raw (cell_under header.email row);
  title = parse_field_from_raw (cell_under header.title row);
  amount = parse_field_from_raw (cell_under header.amount row);
  started_at = parse_date_string_field_from_raw d (cell_under header.started_at row);
  ended_at = parse_date_string_field_from_raw d (cell_under header.ended_at row);
  note = parse_nullable_field_from_raw (cell_under header.note row);
  description = parse_nullable_field_from_raw (cell_under header.description row);
  claimed_at = parse_date_string_field_from_raw d (cell_under header.claimed_at row);
  created_at = parse_date_string_field_from_raw d (cell_under header.created_at row);
}
