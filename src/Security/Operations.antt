-- ===== src/Security/Operations.antt =====
-- What operators and the clock do to findings (internal/store/security.go).
use touchgrass.Base.{
  ℕ, Bool, true, false, not, ◌&&◌, ◌||◌, ◌==◌, ltb, if◌then◌else◌, Text, is_blank, Option, none,
  some, List, [], ◌∷◌, ◌++◌, map, find, select,
}
use touchgrass.Base.Results.{invalid_input, database, not_found, Result, ok, err}
use touchgrass.Security.Model.{
  Status, open_status, acknowledged, resolved, suppressed, Finding, acknowledge, resolve, suppress,
  Entry, Store,
}
use touchgrass.Security.Findings.{is_active, has_lapsed, put_finding}

-- `FindingSuppression`
pub record Suppression : Type 0 where
  pub actor : Text
  pub reason : Text
  pub until : Option ℕ

abbrev pub is_open : Status → Bool
is_open open_status = true
is_open _ = false

-- status IN ('open','acknowledged')
abbrev pub is_unsuppressed : Status → Bool
is_unsuppressed open_status = true
is_unsuppressed acknowledged = true
is_unsuppressed _ = false

-- One guarded update of one row with its audit entry, in a transaction: no row affected is
-- reported as such, and a failed statement leaves the store as it was.
unfoldable pub transition :
    Bool → ℕ → (Finding → Bool) → (Finding → Finding) → Entry → Store → Result Finding × Store
transition fails id allowed change entry s =
    if fails then (err database, s) else elim (find (λ f. f.id == id && allowed f) s.findings) [
      | none ↦ (err not_found, s)
      | some f ↦ (
        ok (change f),
        record s { findings = put_finding (change f) s.findings; trail = s.trail ++ entry ∷ [] },
      )
    ]

abbrev pub mark_acknowledged : ℕ → Text → Finding → Finding
mark_acknowledged now actor f = record f {
  status = acknowledged;
  acknowledged_at = some now;
  acknowledged_by = actor;
}

abbrev pub mark_resolved : ℕ → Text → Finding → Finding
mark_resolved now actor f = record f {
  status = resolved;
  resolved_at = some now;
  resolved_by = actor;
}

abbrev pub mark_suppressed : Suppression → Finding → Finding
mark_suppressed p f = record f {
  status = suppressed;
  suppressed_until = p.until;
  suppression_reason = p.reason;
  suppression_actor = p.actor;
}

-- `Acknowledge`
unfoldable pub acknowledge_finding : Bool → ℕ → ℕ → Text → Store → Result Finding × Store
acknowledge_finding fails now id actor s =
    if is_blank actor
    then (err invalid_input, s)
    else transition fails id (λ f. is_open f.status) (mark_acknowledged now actor)
        (record { actor = actor; action = acknowledge; finding = id }) s

-- `Resolve`
unfoldable pub resolve_finding : Bool → ℕ → ℕ → Text → Store → Result Finding × Store
resolve_finding fails now id actor s =
    if is_blank actor
    then (err invalid_input, s)
    else transition fails id (λ f. is_active f.status) (mark_resolved now actor)
        (record { actor = actor; action = resolve; finding = id }) s

-- `Suppression.Until` may be missing; one that is given lies in the future.
abbrev pub is_future : ℕ → Option ℕ → Bool
is_future now none = true
is_future now (some until) = ltb now until

-- `Suppress`
unfoldable pub suppress_finding : Bool → ℕ → ℕ → Suppression → Store → Result Finding × Store
suppress_finding fails now id p s =
    if is_blank p.actor || is_blank p.reason
    then (err invalid_input, s)
    else if not (is_future now p.until)
    then (err invalid_input, s)
    else transition fails id (λ f. is_unsuppressed f.status) (mark_suppressed p)
        (record { actor = p.actor; action = suppress; finding = id }) s

abbrev pub reopened : Finding → Finding
reopened f = record f { status = open_status }

-- `ExpireSuppressions`: the findings that it reopened, and the store. A clock at Go's zero time
-- stands for the present.
unfoldable pub expire_suppressions : Bool → ℕ → ℕ → Store → Result (List Finding) × Store
unfolding select
expire_suppressions fails clock at s =
    let now = if at == 0 then clock else at in
    if fails then (err database, s) else (
      ok (map reopened (select (has_lapsed now) s.findings)),
      record s { findings = map (λ f. if has_lapsed now f then reopened f else f) s.findings },
    )
