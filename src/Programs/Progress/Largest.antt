-- ===== src/Programs/Progress/Largest.antt =====
-- What the table of src/program/program.service.ts says of a content after any reports.
use lodestar_server.Prelude.{
  ℕ, String, ◌≡◌, ◌≢◌, ◌∙◌, refl, ap, Bool, true, ◌&&◌, Option, none, some, List, [], ◌∷◌, ◌==◌,
  if◌then◌else◌, select, arith, eq_iff, Bool-cases, inl, inr,
}
use lodestar_server.Programs.Progress.{
  ContentProgress, Report, larger, or_else, is_of, get_progress, upsert_progress, max_progress,
  final_last_progress, track_progress,
}

-- The reports one after another.
abbrev pub track_all : List Report → List ContentProgress → List ContentProgress
track_all [] rows = rows
track_all (r ∷ rs) rows = track_all rs (track_progress r rows).1

abbrev pub is_about : String → String → Report → Bool
is_about member content r = (r.program_content_id == content) && (r.member_id == member)

-- The largest progress that was reported, 0 where none was.
abbrev largest : List Report → ℕ
largest [] = 0
largest (r ∷ rs) = larger (or_else r.progress 0) (largest rs)

-- The last position that was reported, else the one given.
abbrev pub latest : List Report → ℕ → ℕ
latest [] old = old
latest (r ∷ rs) old = latest rs (or_else r.last_progress old)

abbrev pub summary : String → String → List Report → Option ContentProgress
summary member content [] = none
summary member content (r ∷ rs) = some (record {
  member_id = member;
  program_content_id = content;
  progress = largest (r ∷ rs);
  last_progress = latest (r ∷ rs) 0;
})

-- What one report makes of a row.
abbrev updated : Option ContentProgress → Report → ContentProgress
updated existing r = record {
  member_id = r.member_id;
  program_content_id = r.program_content_id;
  progress = max_progress existing r.progress;
  last_progress = final_last_progress existing r.last_progress;
}

get-upsert :
    (content member : String) (new : ContentProgress) (rows : List ContentProgress)
    → get_progress content member (upsert_progress new rows)
      ≡ (if is_of member content new then some new else get_progress content member rows)
unfolding get_progress upsert_progress
get-upsert content member new [] = refl
get-upsert content member new (row ∷ rows) = ground (
  arith,
  eq_iff row.member_id member,
  eq_iff row.program_content_id content,
  eq_iff new.member_id member,
  eq_iff new.program_content_id content,
  eq_iff row.member_id new.member_id,
  eq_iff row.program_content_id new.program_content_id,
  get-upsert content member new rows,
)

get-track :
    (content member : String) (r : Report) (rows : List ContentProgress)
    → member ≢ ""
    → content ≢ ""
    → get_progress content member (track_progress r rows).1 ≡ (
        if is_about member content r
        then some (updated (get_progress content member rows) r)
        else get_progress content member rows)
unfolding track_progress
get-track content member r rows hm hc = ground (
  arith,
  hm,
  hc,
  eq_iff r.member_id "",
  eq_iff r.program_content_id "",
  eq_iff r.member_id member,
  eq_iff r.program_content_id content,
  get-upsert content member (updated (get_progress r.program_content_id r.member_id rows) r) rows,
)

is_about-eq :
    (member content : String) (r : Report)
    → is_about member content r ≡ true
    → (r.member_id ≡ member) × (r.program_content_id ≡ content)
is_about-eq member content r h =
    ground (arith, eq_iff r.member_id member, eq_iff r.program_content_id content)

larger_report :
    (p : ℕ) (progress : Option ℕ) (n : ℕ)
    → larger (larger p (or_else progress p)) n ≡ larger p (larger (or_else progress 0) n)
larger_report p none n = ground arith
larger_report p (some q) n = ground arith

-- Reports of the content, from a row that is there.
abbrev absorbed : String → String → ℕ → ℕ → List Report → ContentProgress
absorbed member content p l rs = record {
  member_id = member;
  program_content_id = content;
  progress = larger p (largest rs);
  last_progress = latest rs l;
}

-- The row that there is when a row with progress `p` and position `l` was there.
get-track_all-some :
    (content member : String) (rs : List Report) (rows : List ContentProgress) (p l : ℕ)
    → member ≢ ""
    → content ≢ ""
    → get_progress content member rows
      ≡ some (record {
        member_id = member;
        program_content_id = content;
        progress = p;
        last_progress = l;
      })
    → get_progress content member (track_all rs rows)
      ≡ some (absorbed member content p l (select (is_about member content) rs))
get-track_all-some content member [] rows p l hm hc e = e ∙ ap some (ground arith)
get-track_all-some content member (r ∷ rs) rows p l hm hc e =
    let step = get-track content member r rows hm hc in
    elim (Bool-cases (is_about member content r)) [
      | inr other ↦ rw other (
          get-track_all-some content member rs (track_progress r rows).1 p l hm hc
            (step ∙ rw other e))
      | inl own ↦
          let kept : ℕ → ℕ → ContentProgress = λ n m. record {
            member_id = member;
            program_content_id = content;
            progress = n;
            last_progress = m;
          } in
          let ids = is_about-eq member content r own in
          let next =
            get-track_all-some content member rs (track_progress r rows).1
              (larger p (or_else r.progress p)) (or_else r.last_progress l) hm hc
              (step ∙ rw (own, e) (rw (ids.0, ids.1) refl)) in
          rw own (
            next
            ∙ ap
                (λ n. some (
                  kept n
                    (latest (select (is_about member content) rs) (or_else r.last_progress l))))
                (larger_report p r.progress (largest (select (is_about member content) rs))))
    ]

get-track_all-none :
    (content member : String) (rs : List Report) (rows : List ContentProgress)
    → member ≢ ""
    → content ≢ ""
    → get_progress content member rows ≡ none
    → get_progress content member (track_all rs rows)
      ≡ summary member content (select (is_about member content) rs)
get-track_all-none content member [] rows hm hc e = e
get-track_all-none content member (r ∷ rs) rows hm hc e =
    let step = get-track content member r rows hm hc in
    elim (Bool-cases (is_about member content r)) [
      | inr other ↦
          rw other (
            get-track_all-none content member rs (track_progress r rows).1 hm hc
              (step ∙ rw other e))
      | inl own ↦
          let ids = is_about-eq member content r own in
          rw own (
            get-track_all-some content member rs (track_progress r rows).1 (or_else r.progress 0)
              (or_else r.last_progress 0) hm hc (step ∙ rw (own, e) (rw (ids.0, ids.1) refl)))
    ]

-- From an empty table, after any reports of any members, the row of a member and a content is the
-- summary of their reports alone, for ids that are not blank: the largest progress and the last position
-- that they gave, 0 where none did, and no row where there was no report.
pub track_all_refines :
    (content member : String) (rs : List Report)
    → member ≢ ""
    → content ≢ ""
    → get_progress content member (track_all rs [])
      ≡ summary member content (select (is_about member content) rs)
unfolding get_progress
track_all_refines content member rs hm hc = get-track_all-none content member rs [] hm hc refl
