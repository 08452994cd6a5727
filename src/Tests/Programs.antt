-- ===== src/Tests/Programs.antt =====
-- Progress, merged plans and packages at concrete inputs.
use lodestar_server.Prelude.{
  ℕ, String, ◌≡◌, ◌↔◌, ◌≤◌, ◌*◌, refl, true, Option, none, some, List, [], ◌∷◌, select, eq_iff,
  arith, Among,
}
use lodestar_server.Programs.Progress.{Report, get_progress}
use lodestar_server.Programs.Progress.Largest.{track_all, summary, is_about, track_all_refines}
use lodestar_server.Programs.Plans.{Program, merge_program_plans}
use lodestar_server.Programs.Plans.Merge.{plan_of, count_id, merge_program_plans_lem}
use lodestar_server.Programs.Package.{
  Item, TempoDelivery, PackageProgram, package_programs, view_rate_of, calculate_progress,
}
use lodestar_server.Programs.Package.Average.{IsCompleted, view_rate-le_hundred}
use lodestar_server.Programs.Package.Delivered.{WasDelivered, shown_iff}

abbrev report : String → String → ℕ → Option ℕ → Report
report m c p l = record {
  member_id = m;
  program_content_id = c;
  progress = some p;
  last_progress = l;
}

abbrev reports : List Report
reports =
    report "m" "c" 30 (some 5)
    ∷ report "n" "c" 90 none
    ∷ report "m" "c" 20 none
    ∷ report "" "c" 99 none
    ∷ []

track_all_refines_example :
    get_progress "c" "m" (track_all reports [])
    ≡ summary "m" "c" (select (is_about "m" "c") reports)
track_all_refines_example =
    track_all_refines "c" "m" reports (λ e. cc ((eq_iff "m" "").1 e))
      (λ e. cc ((eq_iff "c" "").1 e))

-- The smaller report leaves the progress.
progress_run :
    summary "m" "c" (select (is_about "m" "c") reports)
    ≡ some (record { member_id = "m"; program_content_id = "c"; progress = 30; last_progress = 5 })
progress_run = refl

abbrev plan : String → ℕ → Program
plan id rate = record { id = id; view_rate = some rate; roles = [] }

merge_program_plans_lem_example :
    (plan_of "p" (merge_program_plans (plan "p" 1 ∷ plan "q" 2 ∷ []) (plan "p" 3 ∷ []))
      ≡ some (plan "p" 3))
    × (count_id "p" (merge_program_plans (plan "p" 1 ∷ plan "q" 2 ∷ []) (plan "p" 3 ∷ [])) ≤ 1)
merge_program_plans_lem_example =
    merge_program_plans_lem "p" (plan "p" 1 ∷ plan "q" 2 ∷ []) (plan "p" 3 ∷ [])

abbrev item : String → ℕ → String → Item
item id progress entry = record {
  program_id = id;
  program_title = id;
  program_cover_url = none;
  progress = some progress;
  program_package_program_id = entry;
  position = 0;
}

abbrev items : List Item
items = item "p" 100 "e" ∷ item "p" 99 "e" ∷ item "q" 100 "f" ∷ []

view_rate_run : view_rate_of "p" (calculate_progress 1 items) ≡ some 99
unfolding calculate_progress
view_rate_run = refl

view_rate-le_hundred_example : (99 ≤ 100) × (◌≡◌ {A = ℕ} 99 100 ↔ IsCompleted (100 * 1) "p" items)
view_rate-le_hundred_example =
    view_rate-le_hundred "p" 1 99 items (omega arith)
      (omega arith, (omega arith, (omega arith, tt))) view_rate_run

abbrev deliveries : List (Option TempoDelivery)
deliveries =
    some (record { program_package_program_id = "e"; delivered_at = 5 })
    ∷ none
    ∷ some (record { program_package_program_id = "f"; delivered_at = 50 })
    ∷ []

shown_iff_example :
    ((p : PackageProgram) × Among p (package_programs 1 10 true items deliveries) × (p.id ≡ "p"))
    ↔ ((i : Item) × Among i items
        × (i.program_id ≡ "p")
        × WasDelivered 10 deliveries i.program_package_program_id)
shown_iff_example = shown_iff 1 10 items deliveries "p"
