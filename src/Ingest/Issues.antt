-- ===== src/Ingest/Issues.antt =====
-- Issues and their occurrences (`GroupOccurrence`, `MarkNotified` and `TrimBefore` of
-- internal/store/issues.go, `insertOccurrenceRow`, `TrimBeyondCap` and `TrimBefore` of
-- internal/store/occurrences.go), over the tables of migrations 0007 and 0008.
use touchgrass.Base.{
  ℕ, suc, Bool, false, not, ◌&&◌, ◌||◌, ◌==◌, ltb, if◌then◌else◌, Text, text_eq, is_empty, List, [],
  ◌∷◌, ◌++◌, map, count, select, find, Option, none, some,
}
use touchgrass.Base.Results.{database, Result, ok, err}
use touchgrass.Ingest.{Occurrence}

pub record IssueRow : Type 0 where
  pub id : ℕ
  pub service_id : Text
  pub fingerprint : Text
  pub title : Text
  pub first_seen : ℕ
  pub last_seen : ℕ
  pub notified_at : Option ℕ

pub record ReleaseRow : Type 0 where
  pub issue_id : ℕ
  pub release : Text

pub record OccurrenceRow : Type 0 where
  pub id : ℕ
  pub issue_id : Option ℕ
  pub occurrence : Occurrence
  pub created_at : ℕ

pub record Grouped : Type 0 where
  pub issues : List IssueRow
  pub releases : List ReleaseRow
  pub occurrences : List OccurrenceRow
  pub next_issue : ℕ
  pub next_occurrence : ℕ

abbrev pub is_issue : Text → Text → IssueRow → Bool
is_issue service fingerprint row =
    text_eq row.service_id service && text_eq row.fingerprint fingerprint

-- The upsert of `GroupOccurrence`: the issue's row seen again, or a new one with the id `next`.
unfoldable pub upsert_issue :
    (next now : ℕ) → (service fingerprint title : Text) → List IssueRow → List IssueRow
unfolding text_eq
upsert_issue next now service fingerprint title [] =
    record {
      id = next;
      service_id = service;
      fingerprint = fingerprint;
      title = title;
      first_seen = now;
      last_seen = now;
      notified_at = none;
    }
    ∷ []
upsert_issue next now service fingerprint title (row ∷ rows) =
    if is_issue service fingerprint row
    then record row { last_seen = now } ∷ rows
    else row ∷ upsert_issue next now service fingerprint title rows

abbrev is_release : ℕ → Text → ReleaseRow → Bool
is_release issue release row = (row.issue_id == issue) && text_eq row.release release

-- `INSERT INTO issue_releases … ON CONFLICT DO NOTHING`, left out for an empty release.
unfoldable pub record_release : ℕ → Text → List ReleaseRow → List ReleaseRow
unfolding is_empty count text_eq
record_release issue release rows =
    if is_empty release || ltb 0 (count (is_release issue release) rows)
    then rows
    else rows ++ record { issue_id = issue; release = release } ∷ []

-- `GroupOccurrence`, a transaction; `fails` says that one of its statements does. A new issue takes
-- an id, and so does the occurrence.
unfoldable pub group_occurrence :
    (fails : Bool)
    → (now : ℕ) → (service fingerprint title release : Text) → Occurrence
    → Grouped
    → Result (Unit {0}) × Grouped
unfolding upsert_issue record_release find count
group_occurrence fails now service fingerprint title release o g =
    let issues = upsert_issue g.next_issue now service fingerprint title g.issues in
    if fails then (err database, g) else elim (find (is_issue service fingerprint) issues) [
      | none ↦ (err database, g)
      | some issue ↦ (
        ok tt,
        record {
          issues = issues;
          releases = record_release issue.id release g.releases;
          occurrences =
              g.occurrences
              ++ record {
                id = g.next_occurrence;
                issue_id = some issue.id;
                occurrence = o;
                created_at = now;
              }
                ∷ [];
          next_issue =
              if count (is_issue service fingerprint) g.issues == 0
              then suc g.next_issue
              else g.next_issue;
          next_occurrence = suc g.next_occurrence;
        },
      )
    ]

abbrev pub is_of : Text → OccurrenceRow → Bool
is_of service row = text_eq row.occurrence.service_id service

-- A newer occurrence of the service than `row`.
abbrev pub is_newer_of : Text → OccurrenceRow → OccurrenceRow → Bool
is_newer_of service row other = is_of service other && ltb row.id other.id

-- `TrimBeyondCap`: of the service, only rows with fewer than `maximum` newer ones stay.
unfoldable pub trim_beyond_cap : Text → ℕ → List OccurrenceRow → List OccurrenceRow
unfolding select count text_eq
trim_beyond_cap service maximum rows =
    select (λ row. not (is_of service row) || ltb (count (is_newer_of service row) rows) maximum)
      rows

-- `TrimBefore` of the occurrences.
unfoldable pub trim_occurrences : ℕ → List OccurrenceRow → List OccurrenceRow
unfolding select
trim_occurrences cutoff rows = select (λ row. not (ltb row.created_at cutoff)) rows

unfoldable pub has_issue : Option ℕ → List IssueRow → Bool
has_issue none rows = false
has_issue (some id) [] = false
has_issue (some id) (row ∷ rows) = (row.id == id) || has_issue (some id) rows

-- `ON DELETE SET NULL` and `ON DELETE CASCADE`.
unfoldable pub detach : List IssueRow → OccurrenceRow → OccurrenceRow
unfolding has_issue
detach issues row = if has_issue row.issue_id issues then row else record row { issue_id = none }

-- `TrimBefore` of the issues.
unfoldable pub trim_issues : ℕ → Grouped → Grouped
unfolding select detach has_issue
trim_issues cutoff g =
    let kept = select (λ (row : IssueRow). not (ltb row.last_seen cutoff)) g.issues in
    record g {
      issues = kept;
      releases = select (λ (row : ReleaseRow). has_issue (some row.issue_id) kept) g.releases;
      occurrences = map (detach kept) g.occurrences;
    }

-- `MarkNotified`
unfoldable pub stamp_notified : ℕ → ℕ → List IssueRow → List IssueRow
stamp_notified now id rows =
    map (λ (row : IssueRow). if row.id == id then record row { notified_at = some now } else row)
      rows
