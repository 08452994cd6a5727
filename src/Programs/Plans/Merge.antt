-- ===== src/Programs/Plans/Merge.antt =====
-- What _mergeProgramPlans of src/program/program.service.ts keeps.
use lodestar_server.Prelude.{
  ℕ, ◌+◌, ◌≤◌, String, ◌≡◌, ◌∙◌, refl, ap, Option, none, some, List, [], ◌∷◌, find_first, ◌==◌,
  if◌then◌else◌, arith, eq_iff,
}
use lodestar_server.Programs.Progress.{larger}
use lodestar_server.Programs.Plans.{Program, set_plan, set_plans, merge_program_plans}

abbrev pub plan_of : String → List Program → Option Program
plan_of id ps = find_first (λ p. p.id == id) ps

-- The last of the plans with the id.
abbrev last_plan : String → List Program → Option Program → Option Program
last_plan id [] old = old
last_plan id (p ∷ ps) old = last_plan id ps (if p.id == id then some p else old)

abbrev pub count_id : String → List Program → ℕ
count_id id [] = 0
count_id id (p ∷ ps) = (if p.id == id then 1 else 0) + count_id id ps

plan_of-set_plan :
    (id : String) (p : Program) (acc : List Program)
    → plan_of id (set_plan p acc) ≡ (if p.id == id then some p else plan_of id acc)
plan_of-set_plan id p [] = refl
plan_of-set_plan id p (q ∷ acc) =
    ground (arith, eq_iff q.id p.id, eq_iff p.id id, eq_iff q.id id, plan_of-set_plan id p acc)

plan_of-set_plans :
    (id : String) (ps acc : List Program)
    → plan_of id (set_plans ps acc) ≡ last_plan id ps (plan_of id acc)
unfolding set_plans
plan_of-set_plans id [] acc = refl
plan_of-set_plans id (p ∷ ps) acc =
    plan_of-set_plans id ps (set_plan p acc) ∙ ap (last_plan id ps) (plan_of-set_plan id p acc)

count_id-set_plan :
    (id : String) (p : Program) (acc : List Program)
    → count_id id (set_plan p acc)
      ≡ (if p.id == id then larger 1 (count_id id acc) else count_id id acc)
count_id-set_plan id p [] = ground arith
count_id-set_plan id p (q ∷ acc) =
    ground (arith, eq_iff q.id p.id, eq_iff p.id id, eq_iff q.id id, count_id-set_plan id p acc)

count_id-set_plans :
    (id : String) (ps acc : List Program) → count_id id acc ≤ 1 → count_id id (set_plans ps acc) ≤ 1
unfolding set_plans
count_id-set_plans id [] acc h = h
count_id-set_plans id (p ∷ ps) acc h =
    count_id-set_plans id ps (set_plan p acc) (ground (arith, count_id-set_plan id p acc, h))

-- Of each id the merged plans hold one plan at most: the last among the secondary plans, or else the
-- last among the primary plans, or none.
pub merge_program_plans_lem :
    (id : String) (primary secondary : List Program)
    → (plan_of id (merge_program_plans primary secondary)
        ≡ last_plan id secondary (last_plan id primary none))
      × (count_id id (merge_program_plans primary secondary) ≤ 1)
unfolding merge_program_plans
merge_program_plans_lem id primary secondary = (
  plan_of-set_plans id secondary (set_plans primary [])
      ∙ ap (last_plan id secondary) (plan_of-set_plans id primary []),
  count_id-set_plans id secondary (set_plans primary [])
      (count_id-set_plans id primary [] (omega arith)),
)
