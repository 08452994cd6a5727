-- ===== src/Programs/Package/Average.antt =====
-- The average that src/program-package/program-package.service.ts shows for a program.
use Prim.Native.Nat.{◌/◌}
use mathlib.Core.Path.{ap₂, subst}
use native.Mathlib.Nat.{le-div_iff_mul-le, div-lt_iff_lt-mul, mul-pos}
use lodestar_server.Prelude.{
  true, ℕ, zero, suc, ◌+◌, ◌*◌, ◌≤◌, String, ◌≡◌, ◌∙◌, refl, sym, ◌↔◌, ◌<◌, Bool-cases, inl, inr,
  some, List, [], ◌∷◌, map, ◌==◌, if◌then◌else◌, arith, eq_iff, All,
}
use lodestar_server.Programs.Package.{
  Item, Summary, or_nothing, add_item, summarize, average, calculate_progress, view_rate_of,
}

abbrev sum_of : String → List Item → ℕ
sum_of id [] = 0
sum_of id (i ∷ is) = (if i.program_id == id then or_nothing i.progress else 0) + sum_of id is

abbrev count_of_program : String → List Item → ℕ
count_of_program id [] = 0
count_of_program id (i ∷ is) = (if i.program_id == id then 1 else 0) + count_of_program id is

-- What the summaries hold of a program.
abbrev held_sum : String → List Summary → ℕ
held_sum id [] = 0
held_sum id (s ∷ ss) = if s.program_id == id then s.sum else held_sum id ss

abbrev held_count : String → List Summary → ℕ
held_count id [] = 0
held_count id (s ∷ ss) = if s.program_id == id then s.count else held_count id ss

held-add_item :
    (id : String) (i : Item) (acc : List Summary)
    → (held_sum id (add_item i acc)
        ≡ (if i.program_id == id then or_nothing i.progress else 0) + held_sum id acc)
      × (held_count id (add_item i acc) ≡ (if i.program_id == id then 1 else 0) + held_count id acc)
held-add_item id i [] = ground arith
held-add_item id i (s ∷ acc) = ground (
  arith,
  eq_iff s.program_id i.program_id,
  eq_iff i.program_id id,
  eq_iff s.program_id id,
  held-add_item id i acc,
)

held-summarize :
    (id : String) (items : List Item) (acc : List Summary)
    → (held_sum id (summarize items acc) ≡ sum_of id items + held_sum id acc)
      × (held_count id (summarize items acc) ≡ count_of_program id items + held_count id acc)
held-summarize id [] acc = (omega arith, omega arith)
held-summarize id (i ∷ is) acc =
    ground (arith, held-add_item id i acc, held-summarize id is (add_item i acc))

view_rate-map :
    (id : String) (scale : ℕ) (ss : List Summary)
    → view_rate_of id (map (λ s. (s.program_id, average scale s.sum s.count)) ss)
      ≡ average scale (held_sum id ss) (held_count id ss)
view_rate-map id scale [] = refl
view_rate-map id scale (s ∷ ss) = elim (Bool-cases (s.program_id == id)) [
  | inl own ↦ rw own refl
  | inr other ↦ rw other (view_rate-map id scale ss)
]

-- The view rate of a program is the floor of its mean over the items of the program, null without one.
view_rate-average :
    (id : String) (scale : ℕ) (items : List Item)
    → view_rate_of id (calculate_progress scale items)
      ≡ average scale (sum_of id items) (count_of_program id items)
unfolding calculate_progress
view_rate-average id scale items =
    let (sums, counts) = held-summarize id items [] in
    let sum : held_sum id (summarize items []) ≡ sum_of id items = omega (arith, sums) in
    let count : held_count id (summarize items []) ≡ count_of_program id items =
      omega (arith, counts) in
    view_rate-map id scale (summarize items []) ∙ ap₂ (average scale) sum count

-- No progress is above the whole.
abbrev AtMost : ℕ → List Item → Type 0
AtMost full = All (λ i. or_nothing i.progress ≤ full)

-- Every item of the program is completed.
abbrev pub IsCompleted : ℕ → String → List Item → Type 0
IsCompleted full id = All (λ i. (i.program_id == id) ≡ true → or_nothing i.progress ≡ full)

sum_of-le :
    (full : ℕ) (id : String) (items : List Item)
    → AtMost full items
    → sum_of id items ≤ count_of_program id items * full
sum_of-le full id [] h = omega arith
sum_of-le full id (i ∷ is) (e, h) = ground (arith, sum_of-le full id is h)

completed-sum :
    (full : ℕ) (id : String) (items : List Item)
    → IsCompleted full id items
    → sum_of id items ≡ count_of_program id items * full
completed-sum full id [] h = omega arith
completed-sum full id (i ∷ is) (e, h) = ground (arith, e, completed-sum full id is h)

sum-IsCompleted :
    (full : ℕ) (id : String) (items : List Item)
    → AtMost full items
    → count_of_program id items * full ≤ sum_of id items
    → IsCompleted full id items
sum-IsCompleted full id [] h e = tt
sum-IsCompleted full id (i ∷ is) (e, h) le = (
  λ own. ground (arith, own, sum_of-le full id is h),
  sum-IsCompleted full id is h (ground (arith, sum_of-le full id is h)),
)

average_hundred :
    (scale n sum : ℕ)
    → 0 < scale
    → sum ≤ suc n * (100 * scale)
    → (sum / (suc n * scale) ≤ 100)
      × ((sum / (suc n * scale) ≡ 100) ↔ (suc n * (100 * scale) ≤ sum))
average_hundred scale n sum pos le =
    let whole = suc n * scale in
    let whole_pos : 0 < whole = mul-pos (omega arith) pos in
    let same : suc n * (100 * scale) ≡ 100 * whole = omega arith in
    let upper : sum / whole < 101 =
      (div-lt_iff_lt-mul {y = 101} whole_pos).1 (omega (arith, same)) in
    let reach = le-div_iff_mul-le {x = 100} {y = sum} whole_pos in
    (
      omega (arith, upper),
      (
        λ e. omega (arith, same, reach.0 (omega (arith, e))),
        λ h. omega (arith, upper, reach.1 (omega (arith, same))),
      ),
    )

view_rate_hundred :
    (scale n sum a : ℕ)
    → 0 < scale
    → sum ≤ n * (100 * scale)
    → average scale sum n ≡ some a
    → (a ≤ 100) × ((a ≡ 100) ↔ (n * (100 * scale) ≤ sum))
view_rate_hundred scale zero sum a pos le e = absurd (cc e)
view_rate_hundred scale (suc n) sum a pos le e =
    let same : sum / (suc n * scale) ≡ a = cc e in
    subst (λ b. (b ≤ 100) × ((b ≡ 100) ↔ (suc n * (100 * scale) ≤ sum))) same
      (average_hundred scale n sum pos le)

-- If no progress of an item is above the whole, the view rate of a program is at most 100 hundredths,
-- and it is 100 exactly when every item of the program is completed: a floor never rounds up.
pub view_rate-le_hundred :
    (id : String) (scale a : ℕ) (items : List Item)
    → 0 < scale
    → AtMost (100 * scale) items
    → view_rate_of id (calculate_progress scale items) ≡ some a
    → (a ≤ 100) × ((a ≡ 100) ↔ IsCompleted (100 * scale) id items)
view_rate-le_hundred id scale a items pos most e =
    let full = 100 * scale in
    let (bound, reached) =
      view_rate_hundred scale (count_of_program id items) (sum_of id items) a pos
        (sum_of-le full id items most) (sym (view_rate-average id scale items) ∙ e) in
    (
      bound,
      (
        λ h. sum-IsCompleted full id items most (reached.0 h),
        λ c. reached.1 (omega (arith, completed-sum full id items c)),
      ),
    )
