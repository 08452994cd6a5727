-- ===== src/Tests/Import.antt =====
-- Imports of small spreadsheets of coins and members.
use lodestar_server.Prelude.{
  ℕ, String, ◌≡◌, refl, Bool, true, false, Option, none, some, List, [], ◌∷◌, ◌++◌, length, All,
  eq_iff,
}
use lodestar_server.Import.Cells.{Row, Dayjs, undefined, text}
use lodestar_server.Import.Settle.{committed}
use lodestar_server.Import.Tally.{Balanced}
use lodestar_server.Import.CoinHeader.{CsvRawCoin, new_mapping, deserialize_from_raw}
use lodestar_server.Import.Coins.{ValidationError, Validator, CoinLog, process_import_from_file}
use lodestar_server.Import.Coins.Saved.{AsksEmail, IsGranted, process_import-Granted}
use lodestar_server.Import.MemberHeader.{
  CsvRawMember, deserialize_member_header, new_member_mapping,
}
use lodestar_server.Import.Members.{MemberRow, ImportedMember, Tables, Outside, Definitions, nan}
use lodestar_server.Import.Members.Rows.{row_to_member, deserialize_all}
use lodestar_server.Import.Members.Save.{
  MemberImportResult, save_member, saved, process_member_import,
}
use lodestar_server.Import.Members.Replaced.{KeepsId, Replaces, Spares, save_member-Replaces}
use lodestar_server.Import.Members.Counts.{IsReadable, process_member_import-Balanced}
use lodestar_server.Tests.Login.{alice}

abbrev no_dates : Dayjs
no_dates = record { parse = λ s. none; to_iso_string = λ n. "" }

abbrev email_missing : CsvRawCoin → List ValidationError
email_missing row = elim row.email [
  | none ↦
      record { email = none; title = row.title; property = "email"; constraints = "isNotEmpty" }
      ∷ []
  | some e ↦ []
]

abbrev validator : Validator
validator = record { header_errors = λ h. []; row_errors = email_missing; parse_float = λ s. "1" }

asks_email : AsksEmail validator
asks_email row h absent =
    (let refused : Path (List ValidationError)
          (record {
            email = none;
            title = row.title;
            property = "email";
            constraints = "isNotEmpty";
          }
            ∷ [])
          [] =
        rw absent at h in
      cc)

abbrev coin_sheet : List Row
coin_sheet =
    (("mail", "email") ∷ ("what", "title") ∷ ("how many", "amount") ∷ [])
    ∷ (("mail", "a@x") ∷ ("what", "gift") ∷ ("how many", "1") ∷ [])
    ∷ (("mail", "") ∷ ("what", "gift") ∷ ("how many", "1") ∷ [])
    ∷ []

abbrev new_id : ℕ → String
new_id n = "id"

abbrev accepts : CoinLog → List CoinLog → Option String
accepts log table = none

process_import-Granted_example :
    (new : List CoinLog) × ((process_import_from_file no_dates validator 0
        (alice ∷ [])
        accepts
        "app"
        new_id
        coin_sheet
        []).1
      ≡ [] ++ new)
    × (length new
        ≡ (process_import_from_file no_dates validator 0
            (alice ∷ [])
            accepts
            "app"
            new_id
            coin_sheet
            []).0.inserted_count)
    × All
        (IsGranted no_dates
          (alice ∷ [])
          "app"
          (deserialize_from_raw
            (("mail", "email") ∷ ("what", "title") ∷ ("how many", "amount") ∷ [])
            new_mapping)
          ((("mail", "a@x") ∷ ("what", "gift") ∷ ("how many", "1") ∷ [])
            ∷ (("mail", "") ∷ ("what", "gift") ∷ ("how many", "1") ∷ [])
            ∷ []))
        new
process_import-Granted_example =
    process_import-Granted no_dates validator 0 (alice ∷ []) accepts asks_email "app" new_id
      coin_sheet []

-- One of the two rows is inserted.
coins_run :
    (process_import_from_file no_dates validator 0
      (alice ∷ [])
      accepts
      "app"
      new_id
      coin_sheet
      []).0.inserted_count
    ≡ 1
unfolding process_import_from_file
coins_run = refl

abbrev row_of : ImportedMember → Option MemberRow → MemberRow
row_of m row = record {
  id = m.id;
  app_id = m.app_id;
  name = "";
  username = "";
  email = "";
  role = "";
  star = m.star;
  created_at = m.created_at;
  logined_at = m.logined_at;
}

abbrev outside : Outside
outside = record {
  header_errors = λ h. [];
  row_errors = λ is_new row. [];
  to_lower_case = λ s. s;
  parse_int = λ s. some 1;
  is_date_string = λ s. false;
  parse_date = λ s. none;
  saved_row = row_of;
  objection = λ m t. none;
}

keeps_id : KeepsId outside
keeps_id m row = refl

abbrev definitions : Definitions
definitions = record {
  categories = record { id = "c"; app_id = "app"; name = "vip"; position = 1 } ∷ [];
  properties = [];
  tags = [];
}

abbrev tables : Tables
tables = record { members = []; categories = []; properties = []; phones = []; tags = [] }

abbrev raw_member : CsvRawMember
raw_member = record {
  id = undefined;
  name = some "Bob";
  username = some "bob";
  email = some "b@x";
  star = undefined;
  role = undefined;
  created_at = undefined;
  logined_at = undefined;
  phones = "1" ∷ [];
  categories = "vip" ∷ [];
  properties = [];
  tags = [];
}

abbrev bob : ImportedMember
bob = record {
  id = "id";
  app_id = "app";
  name = some "Bob";
  username = text "bob";
  email = some "b@x";
  role = text "general-member";
  star = nan;
  created_at = none;
  logined_at = none;
  categories = record { member_id = "id"; category_id = "c"; position = 1 } ∷ [];
  properties = [];
  phones = record { member_id = "id"; phone = "1" } ∷ [];
  tags = [];
}

bob_is_read : row_to_member outside definitions "app" "id" true [] raw_member ≡ some (some bob, [])
unfolding row_to_member
bob_is_read = refl

bob_is_saved : save_member outside (some bob) tables ≡ committed (saved outside bob tables)
unfolding save_member
bob_is_saved = refl

save_member-Replaces_example :
    Replaces bob tables (saved outside bob tables)
    × Spares "other" tables (saved outside bob tables)
save_member-Replaces_example =
    save_member-Replaces outside keeps_id definitions "app" "id" true [] raw_member bob [] tables
      (saved outside bob tables) "other" bob_is_read bob_is_saved
      (λ e. cc ((eq_iff "id" "other").1 e))

abbrev member_sheet : List Row
member_sheet =
    (("key", "id") ∷ ("mail", "email") ∷ ("kind", "categories.1") ∷ [])
    ∷ (("key", "") ∷ ("mail", "b@x") ∷ ("kind", "vip") ∷ [])
    ∷ []

abbrev raws : List (Bool × CsvRawMember)
raws =
    (
      true,
      record {
        id = undefined;
        name = none;
        username = none;
        email = some "b@x";
        star = undefined;
        role = undefined;
        created_at = undefined;
        logined_at = undefined;
        phones = [];
        categories = "vip" ∷ [];
        properties = [];
        tags = [];
      },
    )
    ∷ []

sheet_is_read :
    deserialize_all
      (deserialize_member_header
        (("key", "id") ∷ ("mail", "email") ∷ ("kind", "categories.1") ∷ [])
        new_member_mapping)
      ((("key", "") ∷ ("mail", "b@x") ∷ ("kind", "vip") ∷ []) ∷ [])
    ≡ some raws
unfolding deserialize_all deserialize_member_header
sheet_is_read = refl

rows_are_known : All (IsReadable outside []) raws
rows_are_known = (λ valid absent. cc, tt)

process_member_import-Balanced_example :
    (result : MemberImportResult) × (after : Tables) × (process_member_import outside definitions
        "app" new_id member_sheet tables
      ≡ some (result, after))
    × Balanced 1 result
process_member_import-Balanced_example =
    process_member_import-Balanced outside definitions "app" new_id member_sheet tables raws refl
      sheet_is_read rows_are_known
