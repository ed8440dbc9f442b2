-- ===== src/Ingest/Writes.antt =====
-- Each write keeps the issues sound (`GroupOccurrence` and `MarkNotified` of
-- internal/store/issues.go, `TrimBefore` of both stores).
use touchgrass.Base.{
  ℕ, suc, ◌≤◌, ◌<◌, ◌≡◌, refl, sym, subst, inl, inr, Bool, true, not, ◌||◌, ltb, Text, List, [],
  ◌∷◌, ◌++◌, map, count, select, find, Option, none, some, All, All_mono, append-All, select-All,
  arith, Bool-cases, Option-cases,
}
use touchgrass.Ingest.{Occurrence}
use touchgrass.Ingest.Issues.{
  IssueRow, OccurrenceRow, Grouped, is_issue, upsert_issue, group_occurrence, has_issue, detach,
  trim_issues, stamp_notified,
}
use touchgrass.Ingest.Grouping.{
  is_some, is_linked, IsAscending, IsSound, select-IsAscending, append-IsAscending,
  upsert_issue-single, upsert_issue-has_issue, find-has_issue,
}

linked_still :
    (id : Option ℕ) (next now : ℕ) (service fp title : Text) (rows : List IssueRow)
    → (not (is_some id) || has_issue id rows) ≡ true
    → (not (is_some id) || has_issue id (upsert_issue next now service fp title rows)) ≡ true
linked_still none next now service fp title rows h = refl
linked_still (some id) next now service fp title rows h =
    upsert_issue-has_issue (some id) next now service fp title rows h

pub group_occurrence-IsSound :
    (fails : Bool) (now : ℕ) (service fp title release : Text) (o : Occurrence) (g : Grouped)
    → IsSound g
    → IsSound (group_occurrence fails now service fp title release o g).1
group_occurrence-IsSound fails now service fp title release o g s =
    let after = (group_occurrence fails now service fp title release o g).1 in
    let issues = upsert_issue g.next_issue now service fp title g.issues in
    elim (Bool-cases fails) [
      | inl failed ↦
          let same : g ≡ after = unfold group_occurrence in ground (arith, failed) in
          subst IsSound same s
      | inr fine ↦ elim (Option-cases (find (is_issue service fp) issues)) [
        | inl missing ↦
            let same : g ≡ after = unfold group_occurrence in ground (arith, fine, missing) in
            subst IsSound same s
        | inr (issue, found) ↦
            let row : OccurrenceRow = record {
              id = g.next_occurrence;
              issue_id = some issue.id;
              occurrence = o;
              created_at = now;
            } in
            let same_issues : issues ≡ after.issues =
              unfold group_occurrence in ground (arith, fine, found) in
            let same_rows : g.occurrences ++ row ∷ [] ≡ after.occurrences =
              unfold group_occurrence in ground (arith, fine, found) in
            let same_next : suc g.next_occurrence ≡ after.next_occurrence =
              unfold group_occurrence in ground (arith, fine, found) in
            record {
              single = λ t f.
                  subst (λ rows. count (is_issue t f) rows ≤ 1) same_issues
                    (upsert_issue-single t f g.next_issue now service fp title g.issues
                      (s.single t f));
              linked =
                  subst (λ rows. All (λ r. is_linked after.issues r ≡ true) rows) same_rows
                    (subst (λ is. All (λ r. is_linked is r ≡ true) (g.occurrences ++ row ∷ []))
                      same_issues
                      (append-All (λ r. is_linked issues r ≡ true) g.occurrences (row ∷ [])
                        (All_mono (λ r. is_linked g.issues r ≡ true)
                          (λ r. is_linked issues r ≡ true) g.occurrences
                          (λ r l.
                            linked_still r.issue_id g.next_issue now service fp title g.issues l)
                          s.linked)
                        (find-has_issue (is_issue service fp) issues {issue = issue} found, tt)));
              ascending =
                  subst IsAscending same_rows
                    (append-IsAscending g.occurrences row s.ascending s.given);
              given =
                  subst (λ rows. All (λ r. r.id < after.next_occurrence) rows) same_rows
                    (subst (λ n. All (λ r. r.id < n) (g.occurrences ++ row ∷ [])) same_next
                      (append-All (λ r. r.id < suc g.next_occurrence) g.occurrences (row ∷ [])
                        (All_mono (λ r. r.id < g.next_occurrence)
                          (λ r. r.id < suc g.next_occurrence) g.occurrences
                          (λ r l. omega (arith, l)) s.given)
                        (omega arith, tt)));
            }
      ]
    ]

-- Occurrences that go leave the rest sound.
pub select-IsSound :
    (p : OccurrenceRow → Bool) (g : Grouped)
    → IsSound g
    → IsSound (record g { occurrences = select p g.occurrences })
select-IsSound p g s = record {
  single = s.single;
  linked = select-All (λ r. is_linked g.issues r ≡ true) p g.occurrences s.linked;
  ascending = select-IsAscending p g.occurrences s.ascending;
  given = select-All (λ r. r.id < g.next_occurrence) p g.occurrences s.given;
}

count-select :
    (q p : IssueRow → Bool) (rows : List IssueRow) → count q (select p rows) ≤ count q rows
unfolding count select
count-select q p [] = omega arith
count-select q p (row ∷ rows) = ground (arith, count-select q p rows)

detach-id : (issues : List IssueRow) (row : OccurrenceRow) → (detach issues row).id ≡ row.id
unfolding detach
detach-id issues row = ground arith

detach-linked :
    (issues : List IssueRow) (row : OccurrenceRow) → is_linked issues (detach issues row) ≡ true
detach-linked issues row = elim (Bool-cases (has_issue row.issue_id issues)) [
  | inl there ↦
      let same : row ≡ detach issues row = unfold detach in ground (arith, there) in
      subst (λ r. is_linked issues r ≡ true) same (ground (arith, there))
  | inr gone ↦
      let same : record row { issue_id = none } ≡ detach issues row =
        unfold detach in ground (arith, gone) in
      subst (λ r. is_linked issues r ≡ true) same refl
]

map-linked :
    (issues : List IssueRow) (rows : List OccurrenceRow)
    → All (λ r. is_linked issues r ≡ true) (map (detach issues) rows)
map-linked issues [] = tt
map-linked issues (row ∷ rows) = (detach-linked issues row, map-linked issues rows)

map-detach-All :
    (issues : List IssueRow) (P : ℕ → Type 0) (rows : List OccurrenceRow)
    → All (λ r. P r.id) rows
    → All (λ r. P r.id) (map (detach issues) rows)
map-detach-All issues P [] a = tt
map-detach-All issues P (row ∷ rows) a =
    (subst P (sym (detach-id issues row)) a.0, map-detach-All issues P rows a.1)

map-detach-IsAscending :
    (issues : List IssueRow) (rows : List OccurrenceRow)
    → IsAscending rows
    → IsAscending (map (detach issues) rows)
map-detach-IsAscending issues [] a = tt
map-detach-IsAscending issues (row ∷ rows) a = (
  map-detach-All issues (λ id. (detach issues row).id < id) rows
      (subst (λ id. All (λ other. id < other.id) rows) (sym (detach-id issues row)) a.0),
  map-detach-IsAscending issues rows a.1,
)

pub trim_issues-IsSound : (cutoff : ℕ) (g : Grouped) → IsSound g → IsSound (trim_issues cutoff g)
unfolding trim_issues
trim_issues-IsSound cutoff g s =
    let recent = λ (row : IssueRow). not (ltb row.last_seen cutoff) in
    let kept = select recent g.issues in
    record {
      single = λ t f. omega (arith, count-select (is_issue t f) recent g.issues, s.single t f);
      linked = map-linked kept g.occurrences;
      ascending = map-detach-IsAscending kept g.occurrences s.ascending;
      given = map-detach-All kept (λ id. id < g.next_occurrence) g.occurrences s.given;
    }

stamp_notified-count :
    (t f : Text) (now id : ℕ) (rows : List IssueRow)
    → count (is_issue t f) (stamp_notified now id rows) ≡ count (is_issue t f) rows
unfolding stamp_notified count
stamp_notified-count t f now id [] = refl
stamp_notified-count t f now id (row ∷ rows) = ground (arith, stamp_notified-count t f now id rows)

stamp_notified-has_issue :
    (now id : ℕ) (whose : Option ℕ) (rows : List IssueRow)
    → has_issue whose (stamp_notified now id rows) ≡ has_issue whose rows
unfolding stamp_notified has_issue
stamp_notified-has_issue now id none rows = refl
stamp_notified-has_issue now id (some n) [] = refl
stamp_notified-has_issue now id (some n) (row ∷ rows) =
    ground (arith, stamp_notified-has_issue now id (some n) rows)

pub stamp_notified-IsSound :
    (now id : ℕ) (g : Grouped)
    → IsSound g
    → IsSound (record g { issues = stamp_notified now id g.issues })
stamp_notified-IsSound now id g s = record {
  single = λ t f. omega (arith, stamp_notified-count t f now id g.issues, s.single t f);
  linked =
      All_mono (λ r. is_linked g.issues r ≡ true)
        (λ r. is_linked (stamp_notified now id g.issues) r ≡ true) g.occurrences
        (λ r l. ground (arith, l, stamp_notified-has_issue now id r.issue_id g.issues)) s.linked;
  ascending = s.ascending;
  given = s.given;
}
