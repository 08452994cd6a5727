-- ===== src/Programs/Progress.antt =====
-- trackProgramContentProgress of src/program/program.service.ts, with its queries of program.infra.ts. A
-- progress counts the smallest steps of its column.
pub mod Largest
use lodestar_server.Prelude.{
  ℕ, String, Bool, true, false, ◌&&◌, ◌||◌, Option, none, some, List, [], ◌∷◌, ◌==◌, leb,
  if◌then◌else◌, find_first,
}

-- program_content_progress
pub record ContentProgress : Type 0 where
  pub member_id : String
  pub program_content_id : String
  pub progress : ℕ
  pub last_progress : ℕ

-- The parameters of a report.
pub record Report : Type 0 where
  pub member_id : String
  pub program_content_id : String
  pub progress : Option ℕ
  pub last_progress : Option ℕ

-- Math.max
abbrev pub larger : ℕ → ℕ → ℕ
larger a b = if leb a b then b else a

-- `a ?? b`
abbrev pub or_else : Option ℕ → ℕ → ℕ
or_else none b = b
or_else (some a) b = a

abbrev pub is_of : String → String → ContentProgress → Bool
is_of member content row = (row.program_content_id == content) && (row.member_id == member)

-- ProgramInfrastructure.getProgramContentProgressByIdAndMemberId
unfoldable pub get_progress : String → String → List ContentProgress → Option ContentProgress
get_progress content member rows = find_first (is_of member content) rows

-- ProgramInfrastructure.trackProgramContentProgress: the upsert, for a member and a content that exist; the
-- foreign keys are not modelled.
unfoldable pub upsert_progress : ContentProgress → List ContentProgress → List ContentProgress
upsert_progress new [] = new ∷ []
upsert_progress new (row ∷ rows) =
    if is_of new.member_id new.program_content_id row
    then new ∷ rows
    else row ∷ upsert_progress new rows

abbrev pub max_progress : Option ContentProgress → Option ℕ → ℕ
max_progress none progress = or_else progress 0
max_progress (some row) progress = larger row.progress (or_else progress row.progress)

abbrev pub final_last_progress : Option ContentProgress → Option ℕ → ℕ
final_last_progress none last = or_else last 0
final_last_progress (some row) last = or_else last row.last_progress

-- ProgramService.trackProgramContentProgress: whether it succeeds, and the table after it.
unfoldable pub track_progress : Report → List ContentProgress → Bool × List ContentProgress
unfolding get_progress upsert_progress
track_progress report rows =
    let existing = get_progress report.program_content_id report.member_id rows in
    if (report.member_id == "") || (report.program_content_id == "") then (false, rows) else (
      true,
      upsert_progress
          (record {
            member_id = report.member_id;
            program_content_id = report.program_content_id;
            progress = max_progress existing report.progress;
            last_progress = final_last_progress existing report.last_progress;
          })
          rows,
    )
