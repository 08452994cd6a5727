-- ===== src/Import/Members/Counts.antt =====
-- That processImportFromFile of src/member/member.service.ts gives a result, and its counts.
use mathlib.Core.Path.{subst}
use lodestar_server.Prelude.{
  suc, ℕ, ◌+◌, String, ◌≡◌, ◌≢◌, ◌∙◌, refl, ap, Bool, false, Option, none, some, List, [], ◌∷◌, map,
  length, select, arith, All, length-map, List-cases, Option-cases, inl, inr, ◌>>=◌, ◌==◌,
}
use lodestar_server.Import.Cells.{Row, Field, undefined, null, text}
use lodestar_server.Import.Settle.{settle_all, length-settle_all}
use lodestar_server.Import.Tally.{shift, has_no_errors, tally, Balanced, tally-Balanced}
use lodestar_server.Import.MemberHeader.{
  MemberCsvHeaderMapping, CsvRawMember, new_member_mapping, deserialize_member_header,
  deserialize_member_row, is_new_row,
}
use lodestar_server.Import.Members.{
  MemberRow, Tables, Outside, Definitions, new_member, existing_member, text_or_row, field_or_row,
  email_or_row, star_or_row, date_or_row, text_field, member_of, find_row,
}
use lodestar_server.Import.Members.Rows.{
  MemberResult, deserialize_all, row_to_member, make_all, raw_csv_to_member, get_categories,
  get_properties,
}
use lodestar_server.Import.Members.Save.{
  save_member, import_members, process_member_import, identity_of_member, MemberImportResult,
}

-- A row with an id names a member, and a row without one has an email.
abbrev IsKnown : List MemberRow → Option String → Field → Type 0
IsKnown rows email (text id) = ((id == "") ≡ false) × (find_row id rows ≢ none)
IsKnown rows email undefined = email ≢ none
IsKnown rows email null = email ≢ none

-- A row without errors is known.
abbrev pub IsReadable : Outside → List MemberRow → Bool × CsvRawMember → Type 0
IsReadable o rows (is_new, row) = o.row_errors is_new row ≡ [] → IsKnown rows row.email row.id

new_member-some :
    (o : Outside) (app_id fresh : String) (row : CsvRawMember)
    → row.email ≢ none
    → new_member o app_id fresh row ≢ none
unfolding new_member
new_member-some o app_id fresh row given e = ground (arith, given)

bind-some :
    {A B : Type 0} (x : Option A) (f : A → Option B)
    → x ≢ none
    → ((a : A) → f a ≢ none)
    → (x >>= f) ≢ none
bind-some none f h k e = h refl
bind-some (some a) f h k e = k a e

module _ (o : Outside) (m : MemberRow) where
  text_or_row-some :
      (get : MemberRow → String) (s : Option String) → text_or_row o (some m) get s ≢ none
  text_or_row-some get none e = cc
  text_or_row-some get (some s) e = ground arith

  field_or_row-some : (get : MemberRow → String) (f : Field) → field_or_row o (some m) get f ≢ none
  field_or_row-some get undefined e = cc
  field_or_row-some get null e = cc
  field_or_row-some get (text s) e = ground arith

  email_or_row-some : (s : Option String) → email_or_row o (some m) s ≢ none
  email_or_row-some none e = cc
  email_or_row-some (some s) e = ground arith

  star_or_row-some : (f : Field) → star_or_row o (some m) f ≢ none
  star_or_row-some undefined e = cc
  star_or_row-some null e = cc
  star_or_row-some (text s) e = ground arith

  date_or_row-some : (get : MemberRow → Option ℕ) (f : Field) → date_or_row o (some m) get f ≢ none
  date_or_row-some get undefined e = cc
  date_or_row-some get null e = cc
  date_or_row-some get (text s) e = ground arith

  existing_member-some :
      (app_id id : String) (row : CsvRawMember) → existing_member o app_id id (some m) row ≢ none
  unfolding existing_member
  existing_member-some app_id id row =
      bind-some _ _ (text_or_row-some (λ m. m.name) row.name) λ name.
        bind-some _ _ (field_or_row-some (λ m. m.username) (text_field row.username)) λ username.
          bind-some _ _ (email_or_row-some row.email) λ email.
            bind-some _ _ (field_or_row-some (λ m. m.role) row.role) λ role.
              bind-some _ _ (star_or_row-some row.star) λ star.
                bind-some _ _ (date_or_row-some (λ m. m.created_at) row.created_at) λ created.
                  bind-some _ _ (date_or_row-some (λ m. m.logined_at) row.logined_at)
                    λ logined e. cc

member_of_field-some :
    (o : Outside) (app_id fresh : String) (rows : List MemberRow) (row : CsvRawMember) (id : Field)
    → row.id ≡ id
    → IsKnown rows row.email id
    → member_of o app_id fresh rows row ≢ none
unfolding member_of
member_of_field-some o app_id fresh rows row undefined e h =
    rw (member_of, e) (new_member-some o app_id fresh row h)
member_of_field-some o app_id fresh rows row null e h =
    rw (member_of, e) (new_member-some o app_id fresh row h)
member_of_field-some o app_id fresh rows row (text id) e (filled, found) =
    elim (Option-cases (find_row id rows)) [
      | inl absent ↦ absurd (found absent)
      | inr (m, at) ↦ rw (member_of, e, filled, at) (existing_member-some o m app_id id row)
    ]

module _ (o : Outside) (defs : Definitions) where
  row_to_member-some :
      (app_id fresh : String) (is_new : Bool) (rows : List MemberRow) (row : CsvRawMember)
      → IsReadable o rows (is_new, row)
      → row_to_member o defs app_id fresh is_new rows row ≢ none
  unfolding row_to_member
  row_to_member-some app_id fresh is_new rows row h = elim (List-cases (o.row_errors is_new row)) [
    | inl valid ↦
        rw (row_to_member, valid)
          (bind-some _ _ (member_of_field-some o app_id fresh rows row row.id refl (h valid))
            λ m e. cc)
    | inr (x, xs, invalid) ↦ rw (row_to_member, invalid) (λ e. cc)
  ]

  make_all-some :
      (app_id : String) (ids : ℕ → String) (n : ℕ) (rows : List MemberRow)
      (raws : List (Bool × CsvRawMember))
      → All (IsReadable o rows) raws
      → (results : List MemberResult) × (make_all o defs app_id ids n rows raws ≡ some results)
        × (length results ≡ length raws)
  unfolding make_all
  make_all-some app_id ids n rows [] h = ([], refl, refl)
  make_all-some app_id ids n rows (raw ∷ raws) (r, h) =
      let (results, made, count) = make_all-some app_id ids (n + 1) rows raws h in
      elim (Option-cases (row_to_member o defs app_id (ids n) raw.0 rows raw.1)) [
        | inl thrown ↦ absurd (row_to_member-some app_id (ids n) raw.0 rows raw.1 r thrown)
        | inr (result, at) ↦ (result ∷ results, rw (make_all, at, made) refl, ap suc count)
      ]

length-deserialize_all :
    (header : MemberCsvHeaderMapping) (rows : List Row) (raws : List (Bool × CsvRawMember))
    → deserialize_all header rows ≡ some raws
    → length raws ≡ length rows
unfolding deserialize_all
length-deserialize_all header [] raws e =
    let same : Path (Option (List (Bool × CsvRawMember))) (some []) (some raws) = e in
    let empty : Path (List (Bool × CsvRawMember)) [] raws = cc same in
    subst (λ r. length r ≡ 0) empty refl
length-deserialize_all header (row ∷ rows) raws e =
    elim (Option-cases (deserialize_member_row header row)) [
      | inl thrown ↦ absurd (
          let f : Path (Option (List (Bool × CsvRawMember))) none (some raws) =
            rw (deserialize_all, thrown) at e in
          cc f)
      | inr (raw, at) ↦ elim (Option-cases (deserialize_all header rows)) [
        | inl thrown ↦ absurd (
            let f : Path (Option (List (Bool × CsvRawMember))) none (some raws) =
              rw (deserialize_all, at, thrown) at e in
            cc f)
        | inr (rest, found) ↦
            let f : Path (Option (List (Bool × CsvRawMember)))
                (some ((is_new_row header row, raw) ∷ rest)) (some raws) =
              rw (deserialize_all, at, found) at e in
            let same : Path (List (Bool × CsvRawMember)) ((is_new_row header row, raw) ∷ rest)
                raws =
              cc f in
            subst (λ r. length r ≡ suc (length rows)) same
              (ap suc (length-deserialize_all header rows rest found))
      ]
    ]

module _ (o : Outside) (defs : Definitions) where
  -- If the header is valid, every row can be read, and of the rows without errors those without an id have an
  -- email and those with an id have that of a member, then the import gives a result; it counts every row
  -- below the header as to be inserted, and each of them either as inserted or as failed.
  pub process_member_import-Balanced :
      (app_id : String) (ids : ℕ → String) (raw_rows : List Row) (t : Tables)
      (raws : List (Bool × CsvRawMember))
      → o.header_errors (deserialize_member_header (shift raw_rows).0 new_member_mapping) ≡ []
      → deserialize_all
          (deserialize_member_header (shift raw_rows).0 new_member_mapping)
          (shift raw_rows).1
        ≡ some raws
      → All (IsReadable o t.members) raws
      → (result : MemberImportResult) × (after : Tables) × (process_member_import o defs app_id ids
            raw_rows t
          ≡ some (result, after))
        × Balanced (length (shift raw_rows).1) result
  unfolding process_member_import import_members raw_csv_to_member
  process_member_import-Balanced app_id ids raw_rows t raws valid read known =
      let (first, rows) = shift raw_rows in
      let header = deserialize_member_header first new_member_mapping in
      let own : Definitions = record {
        categories = get_categories app_id defs.categories;
        properties = get_properties app_id defs.properties;
        tags = defs.tags;
      } in
      let (results, made, count) = make_all-some o own app_id ids 0 t.members raws known in
      let saves = map (λ r. r.0) (select has_no_errors results) in
      let settled = settle_all (save_member o) saves t in
      (
        tally identity_of_member results settled.0,
        settled.1,
        rw (process_member_import, valid, import_members, raw_csv_to_member, read, made) refl,
        subst (λ n. Balanced n (tally identity_of_member results settled.0))
            (count ∙ length-deserialize_all header rows raws read)
            (tally-Balanced identity_of_member results settled.0 (
              length-settle_all (save_member o) saves t
              ∙ length-map (λ r. r.0) (select has_no_errors results))),
      )
