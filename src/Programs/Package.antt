-- ===== src/Programs/Package.antt =====
-- src/program-package/program-package.service.ts: the programs of a package, their delivery and the
-- average progress. A progress is exact here and counts parts of a hundredth, `scale` to each.
pub mod Average
pub mod Delivered
use Prim.Native.Nat.{◌/◌}
use lodestar_server.Prelude.{
  ℕ, zero, suc, ◌+◌, ◌*◌, String, Bool, true, false, not, ◌&&◌, Option, none, some, List, [], ◌∷◌,
  map, any, select, find_first, ◌==◌, leb, ltb, if◌then◌else◌,
}
use lodestar_server.Import.MemberHeader.{distinct}

-- ProgramPackageProgramContentProgressDTO, with the position that the query gives.
pub record Item : Type 0 where
  pub program_id : String
  pub program_title : String
  pub program_cover_url : Option String
  pub progress : Option ℕ
  pub program_package_program_id : String
  pub position : ℕ

pub record TempoDelivery : Type 0 where
  pub program_package_program_id : String
  pub delivered_at : ℕ

-- The items whose program has been delivered; an empty delivery is none.
abbrev pub is_delivered : ℕ → List TempoDelivery → Item → Bool
is_delivered now deliveries item =
    any
      (λ d.
        (d.program_package_program_id == item.program_package_program_id) && ltb d.delivered_at now)
      deliveries

abbrev pub non_empty : List (Option TempoDelivery) → List TempoDelivery
non_empty [] = []
non_empty (none ∷ ds) = non_empty ds
non_empty (some d ∷ ds) = d ∷ non_empty ds

-- filterProgramContentProgressNotTempoDelivered
unfoldable pub filter_delivered : ℕ → List Item → List TempoDelivery → List Item
filter_delivered now items deliveries = select (is_delivered now deliveries) items

pub record Summary : Type 0 where
  pub program_id : String
  pub sum : ℕ
  pub count : ℕ

abbrev pub or_nothing : Option ℕ → ℕ
or_nothing none = 0
or_nothing (some n) = n

-- One round of the reduce: null adds nothing to the sum.
abbrev pub add_item : Item → List Summary → List Summary
add_item i [] = record { program_id = i.program_id; sum = or_nothing i.progress; count = 1 } ∷ []
add_item i (s ∷ ss) =
    if s.program_id == i.program_id
    then record s { sum = s.sum + or_nothing i.progress; count = s.count + 1 } ∷ ss
    else s ∷ add_item i ss

abbrev pub summarize : List Item → List Summary → List Summary
summarize [] acc = acc
summarize (i ∷ is) acc = summarize is (add_item i acc)

-- `Math.floor((sum / count) * 100)`, in hundredths; null without an item.
abbrev pub average : ℕ → ℕ → ℕ → Option ℕ
average scale sum zero = none
average scale sum (suc n) = some (sum / (suc n * scale))

-- calculateProgramPackageProgramProgress
unfoldable pub calculate_progress : ℕ → List Item → List (String × Option ℕ)
calculate_progress scale items =
    map (λ s. (s.program_id, average scale s.sum s.count)) (summarize items [])

-- `progress[programId]`, undefined or null as none.
abbrev pub view_rate_of : String → List (String × Option ℕ) → Option ℕ
view_rate_of id [] = none
view_rate_of id (p ∷ ps) = if p.0 == id then p.1 else view_rate_of id ps

-- Array.prototype.sort by position, which keeps the order of equals.
abbrev pub insert_item : Item → List Item → List Item
insert_item i [] = i ∷ []
insert_item i (j ∷ js) = if leb i.position j.position then i ∷ j ∷ js else j ∷ insert_item i js

unfoldable pub sort_items : List Item → List Item
sort_items [] = []
sort_items (i ∷ is) = insert_item i (sort_items is)

pub record PackageProgram : Type 0 where
  pub id : String
  pub title : String
  pub cover_url : Option String
  pub view_rate : Option ℕ

abbrev title_of : Option Item → String
title_of none = ""
title_of (some i) = i.program_title

-- `programCoverUrl || null`
abbrev cover_of : Option Item → Option String
cover_of none = none
cover_of (some i) = elim i.program_cover_url [
  | none ↦ none
  | some u ↦ if u == "" then none else some u
]

abbrev pub program_at : ℕ → List Item → String → PackageProgram
program_at scale shown id = record {
  id = id;
  title = title_of (find_first (λ i. i.program_id == id) (sort_items shown));
  cover_url = cover_of (find_first (λ i. i.program_id == id) (sort_items shown));
  view_rate = view_rate_of id (calculate_progress scale shown);
}

-- The programs of getEnrolledProgramPackageById; the categories are left out.
unfoldable pub package_programs :
    ℕ → ℕ → Bool → List Item → List (Option TempoDelivery) → List PackageProgram
unfolding filter_delivered calculate_progress sort_items
package_programs scale now is_tempo_delivery items deliveries =
    let shown =
      if is_tempo_delivery then filter_delivered now items (non_empty deliveries) else items in
    map (program_at scale shown) (distinct (map (λ i. i.program_id) (sort_items shown)))
