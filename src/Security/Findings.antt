-- ===== src/Security/Findings.antt =====
-- Finding episodes (internal/store/security.go). A transaction is atomic: it commits, or the
-- statement that fails leaves the store as it was. Hashing and JSON are parameters.
use touchgrass.Base.{
  ℕ, suc, ◌+◌, Bool, true, false, not, ◌&&◌, ◌||◌, ◌==◌, ltb, leb, if◌then◌else◌, Text, text_eq,
  is_empty, bytes, Option, none, some, List, [], ◌∷◌, ◌++◌, length, find,
}
use touchgrass.Base.Results.{invalid_input, database, Result, ok, err}
use touchgrass.Security.Model.{
  Severity, Confidence, Category, Status, open_status, acknowledged, resolved, suppressed, Evidence,
  Observation, Evaluation, Finding, Store, EvaluationResult,
}

-- `sha256` of the joined parts, in hexadecimal, and the size of the evidence as JSON.
pub record Codec : Type 0 where
  pub digest : Text → Text
  pub encoded_size : Evidence → ℕ

-- 32 KiB
abbrev pub maximum_evidence_bytes : ℕ
maximum_evidence_bytes = 32768

-- `findingFingerprint`
abbrev pub finding_fingerprint : Codec → Text → Text → Text → Text
finding_fingerprint c container rule baseline =
    c.digest (container ++ (0 ∷ (rule ++ (0 ∷ baseline))))

abbrev is_unknown_category : Category → Bool
is_unknown_category Category.unknown = true
is_unknown_category _ = false

abbrev is_unknown_severity : Severity → Bool
is_unknown_severity Severity.unknown = true
is_unknown_severity _ = false

abbrev is_unknown_confidence : Confidence → Bool
is_unknown_confidence Confidence.unknown = true
is_unknown_confidence _ = false

unfoldable pub fits_limits : Evidence → Bool
fits_limits [] = true
fits_limits ((key, item) ∷ rest) =
    leb (length key) 64 && (leb (length item) 256 && fits_limits rest)

-- `validateObservation`
unfoldable pub is_valid_observation : Observation → Bool
unfolding is_empty fits_limits
is_valid_observation o =
    not (
      is_empty o.container_id
      || (is_empty o.rule_id
          || (is_unknown_category o.category
              || (is_unknown_severity o.severity || is_unknown_confidence o.confidence))))
    && (leb (length o.container_id) 128
        && (leb (length o.rule_id) 128 && (leb (length o.evidence) 32 && fits_limits o.evidence)))

-- status IN ('open','acknowledged','suppressed')
unfoldable pub is_active : Status → Bool
is_active open_status = true
is_active acknowledged = true
is_active suppressed = true
is_active _ = false

abbrev pub is_suppressed : Status → Bool
is_suppressed suppressed = true
is_suppressed _ = false

-- The rows that `findOpenFinding` looks for.
unfoldable pub is_open_episode : Text → Finding → Bool
unfolding is_active
is_open_episode fingerprint f = text_eq f.fingerprint fingerprint && is_active f.status

-- `SELECT COALESCE(MAX(episode), 0)` for a fingerprint.
unfoldable pub max_episode : Text → List Finding → ℕ
max_episode fingerprint [] = 0
max_episode fingerprint (f ∷ fs) =
    let rest = max_episode fingerprint fs in
    if text_eq f.fingerprint fingerprint && ltb rest f.episode then f.episode else rest

-- `UPDATE … WHERE id = ?`
unfoldable pub put_finding : Finding → List Finding → List Finding
put_finding g [] = []
put_finding g (f ∷ fs) = (if f.id == g.id then g else f) ∷ put_finding g fs

-- A temporary suppression that has run out at the given time.
unfoldable pub has_lapsed : ℕ → Finding → Bool
has_lapsed now f =
    is_suppressed f.status && elim f.suppressed_until [ none ↦ false | some until ↦ leb until now ]

-- The first update of `Evaluate`: a lapsed suppression reopens.
unfoldable pub reopen_lapsed : ℕ → Finding → Finding
unfolding has_lapsed
reopen_lapsed now f =
    if has_lapsed now f then record f { status = open_status; last_seen_at = now } else f

-- A further sighting within an episode.
abbrev pub seen_again : Observation → Finding → Finding
seen_again o f = record f {
  occurrence_count = f.occurrence_count + 1;
  last_seen_at = o.observed_at;
  severity = o.severity;
  confidence = o.confidence;
  evidence = o.evidence;
}

-- The end of an episode that a complete scan no longer sees.
abbrev pub recovered_at : ℕ → Finding → Finding
recovered_at now f = record f {
  status = resolved;
  resolved_at = some now;
  resolved_by = bytes "collector";
  last_seen_at = now;
}

-- `insertFinding`: the first sighting of a new episode.
abbrev pub new_finding : ℕ → Text → ℕ → Observation → Finding
new_finding id fingerprint episode o = record {
  id = id;
  fingerprint = fingerprint;
  episode = episode;
  container_id = o.container_id;
  rule_id = o.rule_id;
  category = o.category;
  severity = o.severity;
  confidence = o.confidence;
  status = open_status;
  occurrence_count = 1;
  opened_at = o.observed_at;
  last_seen_at = o.observed_at;
  evidence = o.evidence;
  acknowledged_at = none;
  acknowledged_by = [];
  resolved_at = none;
  resolved_by = [];
  suppressed_until = none;
  suppression_reason = [];
  suppression_actor = [];
  notification_status = [];
}

abbrev pub result : Option Finding → Bool → Bool → EvaluationResult
result f opened recovered = record { finding = f; opened = opened; recovered = recovered }

-- The body of the transaction, for the open episode of the fingerprint, if there is one.
unfoldable pub evaluate_episode :
    Text → Observation → Option Finding → Store → EvaluationResult × Store
unfolding reopen_lapsed
evaluate_episode fingerprint o none s =
    if o.detected
    then (let created =
          new_finding s.next_id fingerprint (suc (max_episode fingerprint s.findings)) o in
        (
          result (some created) true false,
          record s { findings = s.findings ++ created ∷ []; next_id = suc s.next_id },
        ))
    else (result none false false, s)
evaluate_episode fingerprint o (some f) s =
    let reopened = has_lapsed o.observed_at f in
    let f' = reopen_lapsed o.observed_at f in
    if o.detected
    then (
      result (some (seen_again o f')) reopened false,
      record s { findings = put_finding (seen_again o f') s.findings },
    )
    else if o.coverage_complete
    then (
      result (some (recovered_at o.observed_at f')) false true,
      record s { findings = put_finding (recovered_at o.observed_at f') s.findings },
    )
    else (result none false false, record s { findings = put_finding f' s.findings })

-- A transition leaves its observation behind.
abbrev pub note_transition : Observation → EvaluationResult × Store → EvaluationResult × Store
note_transition o (r, s) =
    (r, if r.opened || r.recovered then record s { observations = s.observations ++ o ∷ [] } else s)

-- An observation with no time gets the clock's.
abbrev pub stamped : ℕ → Observation → Observation
stamped now o = if o.observed_at == 0 then record o { observed_at = now } else o

-- The transaction, on a stamped observation.
abbrev pub evaluate_stamped : Text → Observation → Store → EvaluationResult × Store
evaluate_stamped fingerprint o s =
    note_transition o
      (evaluate_episode fingerprint o (find (is_open_episode fingerprint) s.findings) s)

-- `SecurityStore.Evaluate`, with the clock and whether a statement of the transaction fails.
unfoldable pub evaluate : Codec → ℕ → Bool → Evaluation → Store → Result EvaluationResult × Store
evaluate c now fails e s =
    if not (is_valid_observation e.observation)
    then (err invalid_input, s)
    else if ltb maximum_evidence_bytes (c.encoded_size e.observation.evidence)
    then (err invalid_input, s)
    else if fails
    then (err database, s)
    else (let (r, t) =
          evaluate_stamped
            (finding_fingerprint c e.observation.container_id e.observation.rule_id
              e.baseline_fingerprint)
            (stamped now e.observation) s in
        (ok r, t))
