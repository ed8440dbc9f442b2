-- ===== src/Ingest/Retention.antt =====
-- How many occurrences a service keeps (`TrimBeyondCap` of internal/store/occurrences.go after
-- `Ingest` of internal/service/ingest.go).
use touchgrass.Base.{
  ℕ, ◌+◌, ◌≤◌, ◌<◌, ◌≡◌, refl, sym, ap, ◌∙◌, subst, inl, inr, Bool, true, false, not, ◌||◌, ltb,
  Text, text_eq, text_eq_iff, List, [], ◌∷◌, ◌++◌, count, count-append, select, find, some, All,
  arith, Bool-cases, Option-cases,
}
use touchgrass.Base.Results.{ok, Result-cases}
use touchgrass.Ingest.{Occurrence, IngestReport, build_occurrence, issue_title}
use touchgrass.Ingest.Keys.{ApiKey, authenticate_key}
use touchgrass.Ingest.Issues.{
  OccurrenceRow, Grouped, is_issue, upsert_issue, group_occurrence, is_of, is_newer_of,
  trim_beyond_cap,
}
use touchgrass.Ingest.Requests.{
  Ingestor, Circumstances, Ingested, fingerprint, cap_occurrences, store_occurrence, is_kept,
  ingest,
}
use touchgrass.Ingest.Grouping.{IsAscending, IsSound}
use touchgrass.Ingest.Writes.{group_occurrence-IsSound}

abbrev stays : Text → ℕ → List OccurrenceRow → OccurrenceRow → Bool
stays service maximum all row =
    not (is_of service row) || ltb (count (is_newer_of service row) all) maximum

-- A row that is older than all of these does not count among the newer ones.
head_apart :
    (service : Text) (row : OccurrenceRow) (maximum : ℕ) (all rows : List OccurrenceRow)
    → All (λ other. row.id < other.id) rows
    → select (stays service maximum (row ∷ all)) rows ≡ select (stays service maximum all) rows
unfolding select count
head_apart service row maximum all [] a = refl
head_apart service row maximum all (r ∷ rows) a =
    ground (arith, a.0, head_apart service row maximum all rows a.1)

count-newer :
    (service : Text) (row : OccurrenceRow) (rows : List OccurrenceRow)
    → All (λ other. row.id < other.id) rows
    → count (is_newer_of service row) rows ≡ count (is_of service) rows
unfolding count
count-newer service row [] a = refl
count-newer service row (r ∷ rows) a = ground (arith, a.0, count-newer service row rows a.1)

trim_beyond_cap-bounds :
    (service : Text) (maximum : ℕ) (rows : List OccurrenceRow)
    → IsAscending rows
    → (count (is_of service) (trim_beyond_cap service maximum rows) ≤ maximum)
      × (count (is_of service) (trim_beyond_cap service maximum rows) ≤ count (is_of service) rows)
unfolding trim_beyond_cap select count
trim_beyond_cap-bounds service maximum [] a = (omega arith, omega arith)
trim_beyond_cap-bounds service maximum (row ∷ rows) a = ground (
  arith,
  trim_beyond_cap-bounds service maximum rows a.1,
  head_apart service row maximum rows rows a.0,
  count-newer service row rows a.0,
)

-- The rows of another service all stay.
select-other :
    (service other : Text) (maximum : ℕ) (all rows : List OccurrenceRow)
    → text_eq other service ≡ false
    → count (is_of other) (select (stays service maximum all) rows) ≡ count (is_of other) rows
unfolding select count
select-other service other maximum all [] d = refl
select-other service other maximum all (row ∷ rows) d = elim (Bool-cases (is_of other row)) [
  | inl mine ↦
      let whose : row.occurrence.service_id ≡ other =
        (text_eq_iff row.occurrence.service_id other).0 mine in
      ground (
        arith,
        mine,
        ap (λ t. text_eq t service) whose,
        select-other service other maximum all rows d,
      )
  | inr foreign ↦ ground (arith, foreign, select-other service other maximum all rows d)
]

trim_beyond_cap-other :
    (service other : Text) (maximum : ℕ) (rows : List OccurrenceRow)
    → text_eq other service ≡ false
    → count (is_of other) (trim_beyond_cap service maximum rows) ≡ count (is_of other) rows
unfolding trim_beyond_cap
trim_beyond_cap-other service other maximum rows d = select-other service other maximum rows rows d

build_occurrence-service :
    (service : Text) (report : IngestReport) {o : Occurrence}
    → build_occurrence service report ≡ ok o
    → o.service_id ≡ service
unfolding build_occurrence
build_occurrence-service service report {o} h = ground (arith, h)

group_occurrence-rows :
    (fails : Bool) (now : ℕ) (service fp title release : Text) (o : Occurrence) (g : Grouped)
    → (group_occurrence fails now service fp title release o g).0 ≡ ok tt
    → (row : OccurrenceRow) × (row.occurrence ≡ o)
      × (g.occurrences ++ row ∷ []
          ≡ (group_occurrence fails now service fp title release o g).1.occurrences)
unfolding group_occurrence
group_occurrence-rows fails now service fp title release o g h =
    let issues = upsert_issue g.next_issue now service fp title g.issues in
    elim (Bool-cases fails) [
      | inl failed ↦ absurd (ground (arith, h, failed))
      | inr fine ↦ elim (Option-cases (find (is_issue service fp) issues)) [
        | inl missing ↦ absurd (ground (arith, h, fine, missing))
        | inr (issue, found) ↦
            let row : OccurrenceRow = record {
              id = g.next_occurrence;
              issue_id = some issue.id;
              occurrence = o;
              created_at = now;
            } in
            (row, refl, ground (arith, fine, found))
      ]
    ]

other_way : (s t : Text) → text_eq s t ≡ false → text_eq t s ≡ false
other_way s t d = elim (Bool-cases (text_eq t s)) [
  | inl same ↦
      let e : t ≡ s = (text_eq_iff t s).0 same in
      absurd (ground (arith, d, (text_eq_iff s t).1 (sym e)))
  | inr differs ↦ differs
]

alone :
    (other : Text) (rows : List OccurrenceRow) (row : OccurrenceRow)
    → is_of other row ≡ false
    → count (is_of other) rows + count (is_of other) (row ∷ []) ≡ count (is_of other) rows
unfolding count
alone other rows row d = ground (arith, d)

module _ {R : Type 0} (ingestor : Ingestor R) (x : Circumstances)
    (trims : x.trim_fails ≡ false) where
  store_occurrence-capped :
      (key : ApiKey R) (o : Occurrence) (g : Grouped)
      → IsSound g
      → o.service_id ≡ key.service_id
      → (store_occurrence ingestor x key o g).0 ≡ ok true
      → (count (is_of key.service_id) (store_occurrence ingestor x key o g).1.occurrences
          ≤ ingestor.max_occurrences)
        × ((other : Text)
            → text_eq other key.service_id ≡ false
            → count (is_of other) (store_occurrence ingestor x key o g).1.occurrences
              ≡ count (is_of other) g.occurrences)
  store_occurrence-capped key o g s mine h =
      let service = key.service_id in
      let print = fingerprint ingestor.hash ingestor.template service o.type o.message o.stack in
      let grouped =
        group_occurrence x.group_fails x.now service print (issue_title o.message) o.release o g in
      let sound =
        group_occurrence-IsSound x.group_fails x.now service print (issue_title o.message) o.release
          o g s in
      let after = (store_occurrence ingestor x key o g).1 in
      elim (Result-cases grouped.0) [
        | inr (e, failed) ↦ absurd (unfold store_occurrence in ground (arith, h, failed))
        | inl (u, stored) ↦
            let rows =
              group_occurrence-rows x.group_fails x.now service print (issue_title o.message)
                o.release o g (ground (arith, stored)) in
            let row = rows.0 in
            let left : trim_beyond_cap service ingestor.max_occurrences grouped.1.occurrences
                ≡ after.occurrences =
              unfold store_occurrence cap_occurrences in ground (arith, stored, trims) in
            (
              subst (λ r. count (is_of service) r ≤ ingestor.max_occurrences) left
                  (trim_beyond_cap-bounds service ingestor.max_occurrences grouped.1.occurrences
                    sound.ascending).0,
              λ other d.
                  let whose : row.occurrence.service_id ≡ service =
                    ap (λ (q : Occurrence). q.service_id) rows.1 ∙ mine in
                  let foreign : is_of other row ≡ false =
                    ap (λ t. text_eq t other) whose ∙ other_way other service d in
                  sym (ap (count (is_of other)) left)
                  ∙ trim_beyond_cap-other service other ingestor.max_occurrences
                      grouped.1.occurrences d
                  ∙ sym (ap (count (is_of other)) rows.2)
                  ∙ count-append (is_of other) g.occurrences (row ∷ [])
                  ∙ alone other g.occurrences row foreign,
            )
      ]

  stored_when :
      (presented : Text) (report : IngestReport) (s : Ingested R) (key : ApiKey R)
      → authenticate_key ingestor.hash x.key_fails presented s.keys ≡ ok key
      → (ingest ingestor x presented report s).0 ≡ ok true
      → (o : Occurrence) × (build_occurrence key.service_id report ≡ ok o)
        × ((store_occurrence ingestor x key o s.grouped).0 ≡ ok true)
        × ((store_occurrence ingestor x key o s.grouped).1
            ≡ (ingest ingestor x presented report s).1.grouped)
  unfolding ingest
  stored_when presented report s key known h =
      elim (Result-cases (build_occurrence key.service_id report)) [
        | inr (e, invalid) ↦ absurd (ground (arith, h, known, invalid))
        | inl (o, valid) ↦ elim (Bool-cases (is_kept ingestor x.draw key.sample_rate)) [
          | inr dropped ↦ absurd (ground (arith, h, known, valid, dropped))
          | inl kept ↦
              (o, valid, ground (arith, h, known, valid, kept), ground (arith, known, valid, kept))
        ]
      ]

  -- After a report was stored and the trimming worked, its service has no more occurrences than
  -- configured, and every other service as many as before, given that the issues and occurrences
  -- were sound.
  pub ingest-capped :
      (presented : Text) (report : IngestReport) (s : Ingested R) (key : ApiKey R)
      → IsSound s.grouped
      → authenticate_key ingestor.hash x.key_fails presented s.keys ≡ ok key
      → (ingest ingestor x presented report s).0 ≡ ok true
      → (count (is_of key.service_id) (ingest ingestor x presented report s).1.grouped.occurrences
          ≤ ingestor.max_occurrences)
        × ((other : Text)
            → text_eq other key.service_id ≡ false
            → count (is_of other) (ingest ingestor x presented report s).1.grouped.occurrences
              ≡ count (is_of other) s.grouped.occurrences)
  ingest-capped presented report s key b known h =
      let stored = stored_when presented report s key known h in
      let service = key.service_id in
      subst
        (λ (g : Grouped).
          (count (is_of service) g.occurrences ≤ ingestor.max_occurrences)
          × ((other : Text)
              → text_eq other service ≡ false
              → count (is_of other) g.occurrences ≡ count (is_of other) s.grouped.occurrences))
        stored.3
        (store_occurrence-capped key stored.0 s.grouped b
          (build_occurrence-service service report {o = stored.0} stored.1) stored.2)
