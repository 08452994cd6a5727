-- ===== src/Programs/Package/Delivered.antt =====
-- Which programs of a package src/program-package/program-package.service.ts shows before all are delivered.
use lodestar_server.Prelude.{
  ℕ, String, ◌≡◌, ◌⊎◌, ◌↔◌, ◌∙◌, sym, ap, Bool, true, not, Option, none, some, List, [], ◌∷◌, map,
  select, ◌==◌, leb, arith, eq_iff, Bool-cases, inl, inr, Among, ◌<◌, ltb, ◌&&◌, Among-select,
  select-Among, Among-map, map-Among, any-Among, Among-any,
}
use lodestar_server.Import.MemberHeader.{distinct}
use lodestar_server.Programs.Package.{
  Item, TempoDelivery, is_delivered, non_empty, filter_delivered, insert_item, sort_items,
  PackageProgram, program_at, package_programs,
}

distinct-Among : (xs : List String) (x : String) → Among x (distinct xs) → Among x xs
distinct-Among [] x a = absurd a
distinct-Among (y ∷ ys) x (inl e) = inl e
distinct-Among (y ∷ ys) x (inr a) =
    inr (distinct-Among ys x (Among-select (λ z. not (z == y)) (distinct ys) x a).0)

pub Among-distinct : (xs : List String) (x : String) → Among x xs → Among x (distinct xs)
Among-distinct [] x a = absurd a
Among-distinct (y ∷ ys) x (inl e) = inl e
Among-distinct (y ∷ ys) x (inr a) = elim (Bool-cases (x == y)) [
  | inl same ↦ inl ((eq_iff x y).0 same)
  | inr other ↦
      inr (select-Among (λ z. not (z == y)) (distinct ys) x (Among-distinct ys x a) (ap not other))
]

Among-insert_item :
    (i : Item) (js : List Item) (x : Item)
    → (Among x (insert_item i js) → (x ≡ i) ⊎ Among x js)
      × ((x ≡ i) ⊎ Among x js → Among x (insert_item i js))
Among-insert_item i [] x = (λ a. a, λ a. a)
Among-insert_item i (j ∷ js) x = elim (Bool-cases (leb i.position j.position)) [
  | inl t ↦ rw t (λ a. a, λ a. a)
  | inr f ↦
      let (taken, put_in) = Among-insert_item i js x in
      rw f (
        λ a. elim a [
          | inl e ↦ inr (inl e)
          | inr rest ↦ elim (taken rest) [ inl e ↦ inl e | inr b ↦ inr (inr b) ]
        ],
        λ a. elim a [
          | inl e ↦ inr (put_in (inl e))
          | inr b ↦ elim b [ inl e ↦ inl e | inr c ↦ inr (put_in (inr c)) ]
        ],
      )
]

sort_items-Among : (is : List Item) (x : Item) → Among x (sort_items is) ↔ Among x is
unfolding sort_items
sort_items-Among [] x = (λ a. a, λ a. a)
sort_items-Among (i ∷ is) x =
    let (taken, put_in) = Among-insert_item i (sort_items is) x in
    let (fewer, more) = sort_items-Among is x in
    (
      λ a. elim (taken a) [ inl e ↦ inl e | inr b ↦ inr (fewer b) ],
      λ a. elim a [ inl e ↦ put_in (inl e) | inr b ↦ put_in (inr (more b)) ],
    )

non_empty-Among :
    (d : TempoDelivery) (ds : List (Option TempoDelivery))
    → Among d (non_empty ds) ↔ Among (some d) ds
non_empty-Among d [] = (λ a. a, λ a. a)
non_empty-Among d (none ∷ ds) =
    let (fewer, more) = non_empty-Among d ds in
    (λ a. inr (fewer a), λ a. elim a [ inl e ↦ absurd (cc e) | inr b ↦ more b ])
non_empty-Among d (some e ∷ ds) =
    let (fewer, more) = non_empty-Among d ds in
    (
      λ a. elim a [ inl same ↦ inl (ap some same) | inr b ↦ inr (fewer b) ],
      λ a. elim a [ inl same ↦ inl (cc same) | inr b ↦ inr (more b) ],
    )

-- An entry of the package was delivered before now.
abbrev pub WasDelivered : ℕ → List (Option TempoDelivery) → String → Type 0
WasDelivered now deliveries entry =
    (d : TempoDelivery) × Among (some d) deliveries
    × (d.program_package_program_id ≡ entry)
    × (d.delivered_at < now)

test_iff :
    (now : ℕ) (entry : String) (d : TempoDelivery)
    → ((d.program_package_program_id == entry) && ltb d.delivered_at now ≡ true)
      ↔ ((d.program_package_program_id ≡ entry) × (d.delivered_at < now))
test_iff now entry d = (
  λ h. (
    ground (arith, h, eq_iff d.program_package_program_id entry),
    ground (arith, h, eq_iff d.program_package_program_id entry),
  ),
  λ h. ground (arith, h.0, h.1, eq_iff d.program_package_program_id entry),
)

is_delivered_iff :
    (now : ℕ) (deliveries : List (Option TempoDelivery)) (item : Item)
    → (is_delivered now (non_empty deliveries) item ≡ true)
      ↔ WasDelivered now deliveries item.program_package_program_id
is_delivered_iff now deliveries item =
    let entry = item.program_package_program_id in
    let test : TempoDelivery → Bool =
      λ d. (d.program_package_program_id == entry) && ltb d.delivered_at now in
    (
      λ h.
          let (d, at, passes) = any-Among test (non_empty deliveries) h in
          let (same, before) = (test_iff now entry d).0 passes in
          (d, (non_empty-Among d deliveries).0 at, same, before),
      λ h.
          let (d, at, same, before) = h in
          Among-any test (non_empty deliveries) d ((non_empty-Among d deliveries).1 at)
            ((test_iff now entry d).1 (same, before)),
    )

-- Where the package is delivered by and by, a program is shown exactly if one of its items stands in the
-- package under an entry that was delivered before now.
pub shown_iff :
    (scale now : ℕ) (items : List Item) (deliveries : List (Option TempoDelivery)) (id : String)
    → ((p : PackageProgram) × Among p (package_programs scale now true items deliveries)
        × (p.id ≡ id))
      ↔ ((item : Item) × Among item items
          × (item.program_id ≡ id)
          × WasDelivered now deliveries item.program_package_program_id)
unfolding package_programs filter_delivered
shown_iff scale now items deliveries id =
    let delivered = is_delivered now (non_empty deliveries) in
    let shown = select delivered items in
    let ids = map (λ i. i.program_id) (sort_items shown) in
    let program : String → PackageProgram = λ id. program_at scale shown id in
    (
      λ h.
          let (p, at, same) = h in
          let (found, at_id, made) = Among-map program (distinct ids) p at in
          let (item, at_item, is_id) =
            Among-map (λ i. i.program_id) (sort_items shown) found
              (distinct-Among ids found at_id) in
          let (among, passes) =
            Among-select delivered items item ((sort_items-Among shown item).0 at_item) in
          (
            item,
            among,
            sym is_id ∙ sym (ap (λ p. p.id) made) ∙ same,
            (is_delivered_iff now deliveries item).0 passes,
          ),
      λ h.
          let (item, among, same, was) = h in
          let passes = (is_delivered_iff now deliveries item).1 was in
          let at_id = Among-distinct ids item.program_id (
            map-Among (λ i. i.program_id) (sort_items shown) item
              ((sort_items-Among shown item).1 (select-Among delivered items item among passes))) in
          (program item.program_id, map-Among program (distinct ids) item.program_id at_id, same),
    )
