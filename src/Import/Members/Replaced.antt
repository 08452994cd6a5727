-- ===== src/Import/Members/Replaced.antt =====
-- What the transaction of a member leaves in the tables: src/member/member.service.ts.
use mathlib.Core.Path.{subst}
use lodestar_server.Prelude.{
  String, ◌≡◌, ◌≢◌, ◌∙◌, sym, Bool, Option, some, List, [], ◌∷◌, eq_iff, arith, Option-cases, inl,
  inr,
}
use lodestar_server.Import.Cells.{Field}
use lodestar_server.Import.Settle.{Outcome, committed, rolled_back}
use lodestar_server.Import.MemberHeader.{CsvRawMember}
use lodestar_server.Import.Members.{
  MemberError, MemberRow, ImportedMember, Tables, Outside, Definitions, find_row,
}
use lodestar_server.Import.Members.Relations.{
  rows_of, replaced_self, replaced_other, value_of, latest, latest_other, value_of-upsert_values,
}
use lodestar_server.Import.Members.Own.{IsOwn, row_to_member-IsOwn}
use lodestar_server.Import.Members.Rows.{row_to_member}
use lodestar_server.Import.Members.Save.{upsert_row, saved, save_member}

-- What `save` makes of an entity keeps its id.
abbrev pub KeepsId : Outside → Type 0
KeepsId o = (m : ImportedMember) (row : Option MemberRow) → (o.saved_row m row).id ≡ m.id

find_row-upsert_row :
    (m : MemberRow) (other : String) (rows : List MemberRow)
    → m.id ≢ other
    → find_row other (upsert_row m rows) ≡ find_row other rows
unfolding find_row
find_row-upsert_row m other [] ne = ground (arith, eq_iff m.id other)
find_row-upsert_row m other (r ∷ rows) ne = ground (
  arith,
  eq_iff m.id other,
  eq_iff r.id other,
  eq_iff r.id m.id,
  find_row-upsert_row m other rows ne,
)

abbrev pub Replaces : ImportedMember → Tables → Tables → Type 0
Replaces m t after =
    (rows_of (λ c. c.member_id) m.id after.categories ≡ m.categories)
    × (rows_of (λ p. p.member_id) m.id after.phones ≡ m.phones)
    × (rows_of (λ g. g.member_id) m.id after.tags ≡ m.tags)
    × ((property : String)
        → value_of m.id property after.properties
          ≡ latest m.id property m.properties (value_of m.id property t.properties))

abbrev pub Spares : String → Tables → Tables → Type 0
Spares other t after =
    (find_row other after.members ≡ find_row other t.members)
    × (rows_of (λ c. c.member_id) other after.categories
        ≡ rows_of (λ c. c.member_id) other t.categories)
    × (rows_of (λ p. p.member_id) other after.phones ≡ rows_of (λ p. p.member_id) other t.phones)
    × (rows_of (λ g. g.member_id) other after.tags ≡ rows_of (λ g. g.member_id) other t.tags)
    × ((property : String)
        → value_of other property after.properties ≡ value_of other property t.properties)

module _ (o : Outside) (keeps : KeepsId o) where
  saved-Replaces : (m : ImportedMember) (t : Tables) → IsOwn m → Replaces m t (saved o m t)
  unfolding saved
  saved-Replaces m t own = (
    replaced_self (λ c. c.member_id) m.id t.categories m.categories own.categories,
    replaced_self (λ p. p.member_id) m.id t.phones m.phones own.phones,
    replaced_self (λ g. g.member_id) m.id t.tags m.tags own.tags,
    λ property. value_of-upsert_values m.id property m.properties t.properties,
  )

  saved-Spares :
      (m : ImportedMember) (t : Tables) (other : String)
      → m.id ≢ other
      → IsOwn m
      → Spares other t (saved o m t)
  unfolding saved
  saved-Spares m t other ne own =
      let row = o.saved_row m (find_row m.id t.members) in
      (
        find_row-upsert_row row other t.members
            (λ e. ne (sym (keeps m (find_row m.id t.members)) ∙ e)),
        replaced_other (λ c. c.member_id) m.id other t.categories m.categories ne own.categories,
        replaced_other (λ p. p.member_id) m.id other t.phones m.phones ne own.phones,
        replaced_other (λ g. g.member_id) m.id other t.tags m.tags ne own.tags,
        λ property.
            value_of-upsert_values other property m.properties t.properties
            ∙ latest_other m.id other property m.properties _ ne own.properties,
      )

  -- If a row of the spreadsheet is read as a member without errors and the member's transaction commits,
  -- then the member's categories, phones and tags are those of the row, each property of the member has the
  -- row's last value for it or else the value it had, and nothing of another id changes, provided that the
  -- saved entity keeps its id.
  pub save_member-Replaces :
      (defs : Definitions) (app_id fresh : String) (is_new : Bool) (rows : List MemberRow)
      (row : CsvRawMember) (m : ImportedMember) (errors : List MemberError) (t after : Tables)
      (other : String)
      → row_to_member o defs app_id fresh is_new rows row ≡ some (some m, errors)
      → save_member o (some m) t ≡ committed after
      → m.id ≢ other
      → Replaces m t after × Spares other t after
  unfolding save_member
  save_member-Replaces defs app_id fresh is_new rows row m errors t after other made saves ne =
      let own = row_to_member-IsOwn o defs app_id fresh is_new rows row m errors made in
      elim (Option-cases (o.objection m t)) [
        | inl accepted ↦
            let same : Path (Outcome Tables (Option String × Field × String))
                (committed (saved o m t)) (committed after) =
              rw (save_member, accepted) at saves in
            subst (λ u. Replaces m t u × Spares other t u) (cc same)
              (saved-Replaces m t own, saved-Spares m t other ne own)
        | inr (error, refused) ↦ absurd (
            let no : Path (Outcome Tables (Option String × Field × String))
                (rolled_back (m.email, m.username, error)) (committed after) =
              rw (save_member, refused) at saves in
            cc no)
      ]
