-- ===== src/Ingest/Histories.antt =====
-- Reports, notifications and retention keep the issues sound, in any order (`Ingest` of
-- internal/service/ingest.go).
use touchgrass.Base.{
  ◌≤◌, ◌≡◌, sym, subst, ◌⊎◌, inl, inr, Bool, true, false, not, ◌||◌, ltb, Text, List, [], ◌∷◌,
  count, All, arith, Bool-cases,
}
use touchgrass.Base.Results.{ok, Result-cases}
use touchgrass.Ingest.{Occurrence, IngestReport, build_occurrence, issue_title}
use touchgrass.Ingest.Keys.{ApiKey, authenticate_key}
use touchgrass.Ingest.Issues.{
  Grouped, is_issue, group_occurrence, is_of, is_newer_of, trim_beyond_cap, trim_occurrences,
}
use touchgrass.Ingest.Requests.{
  Ingestor, Circumstances, Ingested, Happening, reported, quiet_issues_trimmed,
  old_occurrences_trimmed, notified, fingerprint, cap_occurrences, store_occurrence, is_kept,
  ingest, happen, happen_all,
}
use touchgrass.Ingest.Grouping.{is_linked, IsSound}
use touchgrass.Ingest.Writes.{
  group_occurrence-IsSound, select-IsSound, trim_issues-IsSound, stamp_notified-IsSound,
}

module _ {R : Type 0} (ingestor : Ingestor R) where
  cap_occurrences-IsSound :
      (fails : Bool) (service : Text) (g : Grouped)
      → IsSound g
      → IsSound (cap_occurrences ingestor fails service g)
  unfolding cap_occurrences trim_beyond_cap
  cap_occurrences-IsSound true service g s = s
  cap_occurrences-IsSound false service g s =
      select-IsSound
        (λ row.
          not (is_of service row)
          || ltb (count (is_newer_of service row) g.occurrences) ingestor.max_occurrences)
        g s

  store_occurrence-IsSound :
      (x : Circumstances) (key : ApiKey R) (o : Occurrence) (g : Grouped)
      → IsSound g
      → IsSound (store_occurrence ingestor x key o g).1
  unfolding store_occurrence
  store_occurrence-IsSound x key o g s =
      let service = key.service_id in
      let print = fingerprint ingestor.hash ingestor.template service o.type o.message o.stack in
      let grouped =
        group_occurrence x.group_fails x.now service print (issue_title o.message) o.release o g in
      let sound =
        group_occurrence-IsSound x.group_fails x.now service print (issue_title o.message) o.release
          o g s in
      let after = (store_occurrence ingestor x key o g).1 in
      elim (Result-cases grouped.0) [
        | inl (u, stored) ↦
            let same : cap_occurrences ingestor x.trim_fails service grouped.1 ≡ after =
              unfold store_occurrence in ground (arith, stored) in
            subst IsSound same (cap_occurrences-IsSound x.trim_fails service grouped.1 sound)
        | inr (e, failed) ↦
            let same : grouped.1 ≡ after = unfold store_occurrence in ground (arith, failed) in
            subst IsSound same sound
      ]

  -- A report changes nothing, or its occurrence is stored.
  ingest_cases :
      (x : Circumstances) (presented : Text) (report : IngestReport) (s : Ingested R)
      → ((ingest ingestor x presented report s).1.grouped ≡ s.grouped)
        ⊎ ((key : ApiKey R) × (o : Occurrence) × (authenticate_key ingestor.hash x.key_fails
                presented s.keys
              ≡ ok key)
            × (build_occurrence key.service_id report ≡ ok o)
            × ((store_occurrence ingestor x key o s.grouped).1
                ≡ (ingest ingestor x presented report s).1.grouped)
            × ((store_occurrence ingestor x key o s.grouped).0
                ≡ (ingest ingestor x presented report s).0))
  unfolding ingest
  ingest_cases x presented report s =
      elim (Result-cases (authenticate_key ingestor.hash x.key_fails presented s.keys)) [
        | inr (e, refused) ↦ inl (ground (arith, refused))
        | inl (key, known) ↦ elim (Result-cases (build_occurrence key.service_id report)) [
          | inr (e, invalid) ↦ inl (ground (arith, known, invalid))
          | inl (o, valid) ↦ elim (Bool-cases (is_kept ingestor x.draw key.sample_rate)) [
            | inr dropped ↦ inl (ground (arith, known, valid, dropped))
            | inl kept ↦ inr (
              key,
              o,
              known,
              valid,
              ground (arith, known, valid, kept),
              ground (arith, known, valid, kept),
            )
          ]
        ]
      ]

  happen-IsSound :
      (e : Happening) (s : Ingested R) → IsSound s.grouped → IsSound (happen ingestor e s).grouped
  unfolding happen trim_occurrences
  happen-IsSound (reported x presented report) s b = elim (ingest_cases x presented report s) [
    | inl same ↦ subst IsSound (sym same) b
    | inr (key, o, known, valid, stored, r) ↦
        subst IsSound stored (store_occurrence-IsSound x key o s.grouped b)
  ]
  happen-IsSound (quiet_issues_trimmed cutoff) s b = trim_issues-IsSound cutoff s.grouped b
  happen-IsSound (old_occurrences_trimmed cutoff) s b =
      select-IsSound (λ row. not (ltb row.created_at cutoff)) s.grouped b
  happen-IsSound (notified now id) s b = stamp_notified-IsSound now id s.grouped b

  happen_all-IsSound :
      (es : List Happening) (s : Ingested R)
      → IsSound s.grouped
      → IsSound (happen_all ingestor es s).grouped
  unfolding happen_all
  happen_all-IsSound [] s b = b
  happen_all-IsSound (e ∷ es) s b =
      happen_all-IsSound es (happen ingestor e s) (happen-IsSound e s b)

  -- Over any sequence of reports, notifications and retention runs, whatever fails, a service has
  -- at most one issue of a fingerprint, and every occurrence that names an issue names one that is
  -- there, given that this held and the ids of the occurrences had been given out in order.
  pub happen_all-single :
      (es : List Happening) (s : Ingested R)
      → IsSound s.grouped
      → ((service fp : Text)
          → count (is_issue service fp) (happen_all ingestor es s).grouped.issues ≤ 1)
        × All
            (λ row. is_linked (happen_all ingestor es s).grouped.issues row ≡ true)
            (happen_all ingestor es s).grouped.occurrences
  happen_all-single es s b = let after = happen_all-IsSound es s b in (after.single, after.linked)
