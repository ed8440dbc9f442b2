-- ===== src/Ingest/Grouping.antt =====
-- What holds of the issues and occurrences at any time (internal/store/issues.go and
-- internal/store/occurrences.go under `Ingest` of internal/service/ingest.go).
use touchgrass.Base.{
  ℕ, ◌+◌, ◌≤◌, ◌<◌, ◌≡◌, refl, sym, ◌∙◌, subst, ◌⊎◌, inl, inr, Bool, true, false, not, ◌&&◌, ◌||◌,
  ◌==◌, ==_refl, if◌then◌else◌, Text, text_eq, text_eq_iff, List, [], ◌∷◌, ◌++◌, count, select,
  find, Option, none, some, All, append-All, select-All, arith, Bool-cases,
}
use touchgrass.Ingest.Issues.{IssueRow, OccurrenceRow, Grouped, is_issue, upsert_issue, has_issue}

abbrev pub is_some : Option ℕ → Bool
is_some none = false
is_some (some n) = true

-- The issue of an occurrence is there, or it has none.
abbrev pub is_linked : List IssueRow → OccurrenceRow → Bool
is_linked issues row = not (is_some row.issue_id) || has_issue row.issue_id issues

-- Every row is older than those after it.
abbrev pub IsAscending : List OccurrenceRow → Type 0
IsAscending [] = Unit
IsAscending (row ∷ rows) = All (λ other. row.id < other.id) rows × IsAscending rows

pub record IsSound (g : Grouped) : Type 0 where
  pub single : (service fp : Text) → count (is_issue service fp) g.issues ≤ 1
  pub linked : All (λ row. is_linked g.issues row ≡ true) g.occurrences
  pub ascending : IsAscending g.occurrences
  pub given : All (λ row. row.id < g.next_occurrence) g.occurrences

pub select-IsAscending :
    (p : OccurrenceRow → Bool) (rows : List OccurrenceRow)
    → IsAscending rows
    → IsAscending (select p rows)
unfolding select
select-IsAscending p [] a = tt
select-IsAscending p (row ∷ rows) a = elim (Bool-cases (p row)) [
  | inl kept ↦
      rw kept (select-All (λ other. row.id < other.id) p rows a.0, select-IsAscending p rows a.1)
  | inr cut ↦ rw cut (select-IsAscending p rows a.1)
]

pub append-IsAscending :
    (rows : List OccurrenceRow) (row : OccurrenceRow)
    → IsAscending rows
    → All (λ other. other.id < row.id) rows
    → IsAscending (rows ++ row ∷ [])
append-IsAscending [] row a b = (tt, tt)
append-IsAscending (r ∷ rows) row a b = (
  append-All (λ other. r.id < other.id) rows (row ∷ []) a.0 (b.0, tt),
  append-IsAscending rows row a.1 b.1,
)

-- Either the issue is there, or it is added.
upsert_issue-count :
    (s f : Text) (next now : ℕ) (service fp title : Text) (rows : List IssueRow)
    → (count (is_issue s f) (upsert_issue next now service fp title rows)
        ≡ count (is_issue s f) rows)
      ⊎ ((count (is_issue service fp) rows ≡ 0)
          × (count (is_issue s f) (upsert_issue next now service fp title rows)
              ≡ count (is_issue s f) rows + (if text_eq service s && text_eq fp f then 1 else 0)))
unfolding upsert_issue count
upsert_issue-count s f next now service fp title [] = inr (refl, omega arith)
upsert_issue-count s f next now service fp title (row ∷ rows) =
    elim (Bool-cases (is_issue service fp row)) [
      | inl same ↦ inl (ground (arith, same))
      | inr differs ↦ elim (upsert_issue-count s f next now service fp title rows) [
        | inl kept ↦ inl (ground (arith, differs, kept))
        | inr (none_yet, added) ↦
            inr (ground (arith, differs, none_yet), ground (arith, differs, added))
      ]
    ]

pub upsert_issue-single :
    (s f : Text) (next now : ℕ) (service fp title : Text) (rows : List IssueRow)
    → count (is_issue s f) rows ≤ 1
    → count (is_issue s f) (upsert_issue next now service fp title rows) ≤ 1
upsert_issue-single s f next now service fp title rows l =
    elim (upsert_issue-count s f next now service fp title rows) [
      | inl kept ↦ omega (arith, kept, l)
      | inr (none_yet, added) ↦ elim (Bool-cases (text_eq service s && text_eq fp f)) [
        | inl same ↦
            let first : service ≡ s = (text_eq_iff service s).0 (ground (arith, same)) in
            let second : fp ≡ f = (text_eq_iff fp f).0 (ground (arith, same)) in
            let nothing : count (is_issue s f) rows ≡ 0 =
              (λ i. count (is_issue (sym first i) (sym second i)) rows) ∙ none_yet in
            ground (arith, same, added, nothing)
        | inr differs ↦ ground (arith, differs, added, l)
      ]
    ]

pub upsert_issue-has_issue :
    (id : Option ℕ) (next now : ℕ) (service fp title : Text) (rows : List IssueRow)
    → has_issue id rows ≡ true
    → has_issue id (upsert_issue next now service fp title rows) ≡ true
unfolding upsert_issue has_issue
upsert_issue-has_issue none next now service fp title rows h = absurd cc
upsert_issue-has_issue (some id) next now service fp title [] h = absurd cc
upsert_issue-has_issue (some id) next now service fp title (row ∷ rows) h =
    ground (arith, h, upsert_issue-has_issue (some id) next now service fp title rows)

pub find-has_issue :
    (p : IssueRow → Bool) (rows : List IssueRow) {issue : IssueRow}
    → find p rows ≡ some issue
    → has_issue (some issue.id) rows ≡ true
unfolding find has_issue
find-has_issue p [] h = absurd cc
find-has_issue p (row ∷ rows) {issue} h = elim (Bool-cases (p row)) [
  | inl yes_ ↦
      let same : row ≡ issue = ground (arith, h, yes_) in
      subst (λ (i : IssueRow). ((row.id == i.id) || has_issue (some i.id) rows) ≡ true) same
        (ground (arith, ==_refl row.id))
  | inr no_ ↦ ground (arith, find-has_issue p rows {issue = issue} (ground (arith, h, no_)))
]
