-- ===== src/Import/Coins/Saved.antt =====
-- What an import in src/coin/coin.service.ts leaves in the table of coin logs.
use mathlib.Core.List.{append-nil, append_assoc}
use mathlib.Core.Path.{subst}
use mathlib.Core.Bool.{and-eq-true_iff}
use lodestar_server.Prelude.{
  ℕ, suc, ◌+◌, String, ◌≡◌, ◌≢◌, ◌∙◌, refl, sym, ap, true, false, Option, none, some, List, [], ◌∷◌,
  ◌++◌, map, length, select, List-cases, Option-cases, Bool-cases, inl, inr, Among,
  find_first-Among, All, All-map, eq_iff, ◌&&◌, ◌==◌,
}
use lodestar_server.Auth.Directory.{Member}
use lodestar_server.Import.Cells.{Row, Dayjs}
use lodestar_server.Import.Settle.{is_fulfilled, settle_all}
use lodestar_server.Import.Tally.{shift, has_no_errors}
use lodestar_server.Import.CoinHeader.{
  CoinCsvHeaderMapping, CsvRawCoin, new_mapping, deserialize_from_raw,
  deserialized_from_csv_raw_row,
}
use lodestar_server.Import.Coins.{
  Validator, CoinLog, RowResult, find_member, row_to_log, raw_csv_to_coin_log, log_of, import_rows,
  process_import_from_file, save_log,
}

-- The validator refuses a row without an email, as IsNotEmpty does.
abbrev pub AsksEmail : Validator → Type 0
AsksEmail v = (row : CsvRawCoin) → v.row_errors row ≡ [] → row.email ≢ none

-- The log stands for a row, and goes to a member of the app who has the email of the row.
pub record IsGranted (d : Dayjs) (members : List Member) (app_id : String)
    (header : CoinCsvHeaderMapping) (rows : List Row) (log : CoinLog) : Type 0 where
  pub row : Row
  pub member : Member
  pub is_row : Among row rows
  pub is_member : Among member members
  pub is_app : member.app_id ≡ app_id
  pub is_email : (deserialized_from_csv_raw_row d header row).email ≡ some member.email
  pub is_granted : log.member_id ≡ member.id

find_member-some :
    (app_id : String) (email : Option String) (members : List Member) (m : Member)
    → email ≢ none
    → find_member app_id email members ≡ some m
    → Among m members × (m.app_id ≡ app_id) × (email ≡ some m.email)
unfolding find_member
find_member-some app_id none members m given e = absurd (given refl)
find_member-some app_id (some email) members m given e =
    let (among, passes) =
      find_first-Among (λ m. (m.app_id == app_id) && (m.email == email)) members m e in
    let same = (and-eq-true_iff _ _).0 passes in
    (among, (eq_iff m.app_id app_id).0 same.0, ap some (sym ((eq_iff m.email email).0 same.1)))

-- A row without errors is valid, and its member was found.
row_to_log-valid :
    (d : Dayjs) (v : Validator) (now : ℕ) (members : List Member) (app_id id : String)
    (raw : CsvRawCoin)
    → has_no_errors (row_to_log d v now members app_id id raw) ≡ true
    → (m : Member) × (v.row_errors raw ≡ [])
      × (find_member app_id raw.email members ≡ some m)
      × ((row_to_log d v now members app_id id raw).0 ≡ some (log_of d v now members id raw m))
unfolding row_to_log
row_to_log-valid d v now members app_id id raw h = elim (List-cases (v.row_errors raw)) [
  | inl valid ↦ elim (Option-cases (find_member app_id raw.email members)) [
    | inl absent ↦ absurd (let f : false ≡ true = rw (row_to_log, valid, absent) at h in cc f)
    | inr (m, at) ↦ (m, valid, at, rw (row_to_log, valid, at) refl)
  ]
  | inr (e, es, invalid) ↦ absurd (let f : false ≡ true = rw (row_to_log, invalid) at h in cc f)
]

module _ (d : Dayjs) (v : Validator) (now : ℕ) (members : List Member) (asks : AsksEmail v) where
  abbrev Granted : String → CoinCsvHeaderMapping → List Row → Option CoinLog → Type 0
  Granted app_id header rows o =
      (log : CoinLog) × (o ≡ some log) × IsGranted d members app_id header rows log

  row_to_log-Granted :
      (app_id id : String) (header : CoinCsvHeaderMapping) (row : Row) (rows : List Row)
      → Among row rows
      → has_no_errors
          (row_to_log d v now members app_id id (deserialized_from_csv_raw_row d header row))
        ≡ true
      → Granted app_id header rows
          (row_to_log d v now members app_id id (deserialized_from_csv_raw_row d header row)).0
  unfolding row_to_log
  row_to_log-Granted app_id id header row rows among h =
      let raw = deserialized_from_csv_raw_row d header row in
      let (m, valid, at, made) = row_to_log-valid d v now members app_id id raw h in
      let (is_member, is_app, is_email) =
        find_member-some app_id raw.email members m (asks raw valid) at in
      (
        log_of d v now members id raw m,
        made,
        record {
          row = row;
          member = m;
          is_row = among;
          is_member = is_member;
          is_app = is_app;
          is_email = is_email;
          is_granted = refl;
        },
      )

  raw_csv-Granted :
      (app_id : String) (header : CoinCsvHeaderMapping) (ids : ℕ → String) (n : ℕ)
      (all rows : List Row)
      → All (λ row. Among row all) rows
      → All
          (λ r. has_no_errors r ≡ true → Granted app_id header all r.0)
          (raw_csv_to_coin_log d v now members app_id header ids n rows)
  unfolding raw_csv_to_coin_log
  raw_csv-Granted app_id header ids n all [] h = tt
  raw_csv-Granted app_id header ids n all (row ∷ rows) (a, h) = (
    row_to_log-Granted app_id (ids n) header row all a,
    raw_csv-Granted app_id header ids (n + 1) all rows h,
  )

-- Each transaction adds its log or leaves the table.
settle_all-save_log :
    (P : CoinLog → Type 0) (objection : CoinLog → List CoinLog → Option String)
    (logs : List (Option CoinLog)) (table : List CoinLog)
    → All (λ o. (log : CoinLog) × (o ≡ some log) × P log) logs
    → let settled = settle_all (save_log objection) logs table in
      (new : List CoinLog) × (settled.1 ≡ table ++ new)
      × (length new ≡ length (select is_fulfilled settled.0))
      × All P new
unfolding save_log
settle_all-save_log P objection [] table h = ([], sym (append-nil table), refl, tt)
settle_all-save_log P objection (none ∷ logs) table ((log, e, p), h) = absurd (cc e)
settle_all-save_log P objection (some given ∷ logs) table ((log, e, p), h) =
    elim (Option-cases (objection given table)) [
      | inl accepted ↦
          let (new, left, count, all) =
            settle_all-save_log P objection logs (table ++ (given ∷ [])) h in
          rw (save_log, accepted)
            (
              given ∷ new,
              left ∙ append_assoc table (given ∷ []) new,
              ap suc count,
              (subst P (cc e) p, all),
            )
      | inr (reason, refused) ↦
          let (new, left, count, all) = settle_all-save_log P objection logs table h in
          rw (save_log, refused) (new, left, count, all)
    ]

Among-self : (rows : List Row) → All (λ row. Among row rows) rows
Among-self [] = tt
Among-self (row ∷ rows) = (inl refl, All-map rows (λ x a. inr a) (Among-self rows))

select-Granted :
    (P : Option CoinLog → Type 0) (results : List RowResult)
    → All (λ r. has_no_errors r ≡ true → P r.0) results
    → All P (map (λ r. r.0) (select has_no_errors results))
select-Granted P [] h = tt
select-Granted P (r ∷ results) (f, h) = elim (Bool-cases (has_no_errors r)) [
  | inl t ↦ rw t (f t, select-Granted P results h)
  | inr n ↦ rw n (select-Granted P results h)
]

module _ (d : Dayjs) (v : Validator) (now : ℕ) (members : List Member)
    (objection : CoinLog → List CoinLog → Option String) (asks : AsksEmail v) where
  -- An import leaves the coin logs that were there and adds as many as it counts as inserted; if the
  -- validator refuses rows without an email, each of these stands for a row of the spreadsheet and goes
  -- to a member of the app with the email of the row.
  pub process_import-Granted :
      (app_id : String) (ids : ℕ → String) (raw_rows : List Row) (table : List CoinLog)
      → let (result, left) =
          process_import_from_file d v now members objection app_id ids raw_rows table in
        let (first, rows) = shift raw_rows in
        (new : List CoinLog) × (left ≡ table ++ new)
        × (length new ≡ result.inserted_count)
        × All (IsGranted d members app_id (deserialize_from_raw first new_mapping) rows) new
  unfolding process_import_from_file import_rows
  process_import-Granted app_id ids raw_rows table =
      let (first, rows) = shift raw_rows in
      let header = deserialize_from_raw first new_mapping in
      let results = raw_csv_to_coin_log d v now members app_id header ids 0 rows in
      elim (List-cases (v.header_errors header)) [
        | inl valid ↦
            rw (process_import_from_file, valid)
              (settle_all-save_log (IsGranted d members app_id header rows) objection _ table (
                select-Granted _ results (
                  raw_csv-Granted d v now members asks app_id header ids 0 rows rows
                    (Among-self rows))))
        | inr (e, es, invalid) ↦
            rw (process_import_from_file, invalid) ([], sym (append-nil table), refl, tt)
      ]
