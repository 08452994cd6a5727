-- ===== src/Programs/Plans.antt =====
-- The programs of a member: getProgramsByMemberId, _mergeProgramPlans and sortProgramRole of
-- src/program/program.service.ts. The queries behind it are arguments.
pub mod Merge
use lodestar_server.Prelude.{
  ℕ, String, Bool, Option, none, some, List, [], ◌∷◌, ◌++◌, map, any, ◌==◌, leb, if◌then◌else◌,
}

pub record Role : Type 0 where
  pub member_id : String
  pub name : String
  pub created_at : ℕ

pub record Program : Type 0 where
  pub id : String
  pub view_rate : Option ℕ
  pub roles : List Role

-- Array.prototype.sort by creation, which keeps the order of equals.
abbrev insert_role : Role → List Role → List Role
insert_role r [] = r ∷ []
insert_role r (q ∷ qs) = if leb r.created_at q.created_at then r ∷ q ∷ qs else q ∷ insert_role r qs

unfoldable sort_program_role : List Role → List Role
sort_program_role [] = []
sort_program_role (r ∷ rs) = insert_role r (sort_program_role rs)

-- `Number(program.viewRate || 0)`
abbrev pub or_zero : Option ℕ → ℕ
or_zero none = 0
or_zero (some n) = n

abbrev present : Program → Program
present p = record p { view_rate = some (or_zero p.view_rate); roles = sort_program_role p.roles }

-- Map.prototype.set
abbrev pub set_plan : Program → List Program → List Program
set_plan p [] = p ∷ []
set_plan p (q ∷ qs) = if q.id == p.id then p ∷ qs else q ∷ set_plan p qs

unfoldable pub set_plans : List Program → List Program → List Program
set_plans [] acc = acc
set_plans (p ∷ ps) acc = set_plans ps (set_plan p acc)

-- ProgramService._mergeProgramPlans
unfoldable pub merge_program_plans : List Program → List Program → List Program
unfolding set_plans
merge_program_plans primary secondary = set_plans secondary (set_plans primary [])

-- What the queries give.
record Owned : Type 0 where
  pub directly : List Program
  pub from_plans : List Program
  pub from_cards : List Program
  pub as_assistant : List Program

-- ProgramService.getProgramsByMemberId; none is E_NO_MEMBER. The Set of new objects drops none.
unfoldable get_programs_by_member_id : Bool → Owned → Option (List Program)
unfolding merge_program_plans sort_program_role
get_programs_by_member_id has_member owned =
    if has_member
    then some (
        map present owned.directly
        ++ (map present owned.as_assistant
            ++ map present (merge_program_plans owned.from_cards owned.from_plans)))
    else none
