-- ===== src/Import/Coins/Counts.antt =====
-- The counts of the result in src/coin/coin.service.ts.
use mathlib.Core.Path.{subst}
use lodestar_server.Prelude.{
  ℕ, ◌+◌, String, ◌≡◌, refl, Option, List, [], ◌∷◌, map, length, select, arith, length-map,
  List-cases, inl, inr, ◌∙◌,
}
use lodestar_server.Auth.Directory.{Member}
use lodestar_server.Import.Cells.{Row, Dayjs}
use lodestar_server.Import.Settle.{settle_all, length-settle_all}
use lodestar_server.Import.CoinHeader.{CoinCsvHeaderMapping, new_mapping, deserialize_from_raw}
use lodestar_server.Import.Tally.{shift, has_no_errors, tally, Balanced, tally-Balanced}
use lodestar_server.Import.Coins.{
  Validator, CoinLog, raw_csv_to_coin_log, import_rows, process_import_from_file, save_log,
  identity_of,
}

module _ (d : Dayjs) (v : Validator) (now : ℕ) (members : List Member)
    (objection : CoinLog → List CoinLog → Option String) where
  length-raw_csv :
      (app_id : String) (header : CoinCsvHeaderMapping) (ids : ℕ → String) (n : ℕ) (rows : List Row)
      → length (raw_csv_to_coin_log d v now members app_id header ids n rows) ≡ length rows
  unfolding raw_csv_to_coin_log
  length-raw_csv app_id header ids n [] = refl
  length-raw_csv app_id header ids n (row ∷ rows) =
      omega (arith, length-raw_csv app_id header ids (n + 1) rows)

  import_rows-Balanced :
      (app_id : String) (header : CoinCsvHeaderMapping) (ids : ℕ → String) (rows : List Row)
      (table : List CoinLog)
      → Balanced
          (length rows)
          (import_rows d v now members objection app_id header ids rows table).0
  unfolding import_rows
  import_rows-Balanced app_id header ids rows table =
      let results = raw_csv_to_coin_log d v now members app_id header ids 0 rows in
      let logs = map (λ r. r.0) (select has_no_errors results) in
      let settled = settle_all (save_log objection) logs table in
      subst (λ n. Balanced n (tally identity_of results settled.0))
        (length-raw_csv app_id header ids 0 rows)
        (tally-Balanced identity_of results settled.0 (
          length-settle_all (save_log objection) logs table
          ∙ length-map (λ r. r.0) (select has_no_errors results)))

  -- The result of an import counts every row below the header as to be inserted, and each of them
  -- either as inserted or as failed.
  process_import-Balanced :
      (app_id : String) (ids : ℕ → String) (raw_rows : List Row) (table : List CoinLog)
      → Balanced
          (length (shift raw_rows).1)
          (process_import_from_file d v now members objection app_id ids raw_rows table).0
  unfolding process_import_from_file import_rows
  process_import-Balanced app_id ids raw_rows table =
      let header = deserialize_from_raw (shift raw_rows).0 new_mapping in
      elim (List-cases (v.header_errors header)) [
        | inl valid ↦
            rw (process_import_from_file, valid)
              (import_rows-Balanced app_id header ids (shift raw_rows).1 table)
        | inr (e, es, invalid) ↦ rw (process_import_from_file, invalid) (refl, omega arith)
      ]
