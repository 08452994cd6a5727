-- ===== src/Import/Tally.antt =====
-- What processImportFromFile of src/coin/coin.service.ts and of src/member/member.service.ts both do with
-- the rows: the rows with errors are told apart, and the result counts them and the transactions.
use lodestar_server.Prelude.{
  ℕ, ◌+◌, String, ◌≡◌, refl, Bool, true, false, not, Option, none, some, List, [], ◌∷◌, ◌++◌, map,
  length, select, ◌==◌, if◌then◌else◌, arith, length-append, length-map,
}
use lodestar_server.Import.Cells.{Row}
use lodestar_server.Import.Settle.{
  Settled, is_fulfilled, reasons, length-reasons, length-select-not,
}

-- A row's entity, none in place of null, with its errors.
abbrev pub Parsed : Type 0 → Type 0 → Type 0
Parsed A E = Option A × List E

-- An entry of failedErrors: an error of the header, the reason of a rejection, or the errors of a row
-- under its identity.
pub data Failure (E R : Type 0) : Type 0 where
  header_failure : E → Failure E R
  transaction_failure : R → Failure E R
  row_failure : List (String × List E) → Failure E R

pub record ImportResult (E R : Type 0) : Type 0 where
  pub to_insert_count : ℕ
  pub inserted_count : ℕ
  pub failed_count : ℕ
  pub failed_errors : List (Failure E R)

abbrev pub shown : Option String → String
shown none = "undefined"
shown (some s) = s

-- `rawRows.shift()`: the first row, empty where there is none, and the others.
abbrev pub shift : List Row → Row × List Row
shift [] = ([], [])
shift (row ∷ rows) = (row, rows)

module _ {A E : Type 0} where
  abbrev pub has_no_errors : Parsed A E → Bool
  has_no_errors (a, []) = true
  has_no_errors (a, e ∷ es) = false

module _ {E : Type 0} where
  -- `acc[identity].push(...)`
  abbrev push_under : String → E → List (String × List E) → List (String × List E)
  push_under identity e [] = (identity, e ∷ []) ∷ []
  push_under identity e (p ∷ acc) =
      if p.0 == identity then (p.0, p.1 ++ (e ∷ [])) ∷ acc else p ∷ push_under identity e acc

  abbrev grouped : (E → String) → List E → List (String × List E) → List (String × List E)
  grouped identity_of [] acc = acc
  grouped identity_of (e ∷ es) acc = grouped identity_of es (push_under (identity_of e) e acc)

module _ {E R : Type 0} where
  abbrev pub refuse_header : List Row → List E → ImportResult E R
  refuse_header rows errors = record {
    to_insert_count = length rows;
    inserted_count = 0;
    failed_count = length rows;
    failed_errors = map header_failure errors;
  }

  abbrev pub Balanced : ℕ → ImportResult E R → Type 0
  Balanced n r = (r.to_insert_count ≡ n) × (r.inserted_count + r.failed_count ≡ n)

module _ {A E R : Type 0} where
  abbrev pub tally : (E → String) → List (Parsed A E) → List (Settled R) → ImportResult E R
  tally identity_of results settled =
      let rejecteds =
        map transaction_failure (reasons settled)
        ++ map (λ r. row_failure (grouped identity_of r.1 []))
            (select (λ r. not (has_no_errors r)) results) in
      record {
        to_insert_count = length results;
        inserted_count = length (select is_fulfilled settled);
        failed_count = length rejecteds;
        failed_errors = rejecteds;
      }

  -- With a transaction for each row without errors, the result counts each row once.
  pub tally-Balanced :
      (identity_of : E → String) (results : List (Parsed A E)) (settled : List (Settled R))
      → length settled ≡ length (select has_no_errors results)
      → Balanced (length results) (tally identity_of results settled)
  tally-Balanced identity_of results settled e =
      let refused : R → Failure E R = transaction_failure in
      let invalid : Parsed A E → Failure E R = λ r. row_failure (grouped identity_of r.1 []) in
      let others = select (λ r. not (has_no_errors r)) results in
      (
        refl,
        omega (
          arith,
          length-append (map refused (reasons settled)) (map invalid others),
          length-map refused (reasons settled),
          length-map invalid others,
          length-reasons settled,
          length-select-not has_no_errors results,
        ),
      )
