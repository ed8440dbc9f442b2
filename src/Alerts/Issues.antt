-- ===== src/Alerts/Issues.antt =====
-- Issue rules (internal/service/issue_alerts.go, with the queries of internal/store/issues.go and
-- internal/store/occurrences.go that they run).
use touchgrass.Base.{
  ℕ, ◌+◌, ◌-◌, ◌*◌, ◌%◌, ◌^◌, Bool, true, false, ◌&&◌, ltb, leb, ◌==◌, if◌then◌else◌, text_eq, none,
  some, List, [], ◌∷◌, ◌++◌, count, select,
}
use touchgrass.Base.Maps.{nat_key, empty, insert, erase, get_or}
use touchgrass.Base.Results.{Result, invalid_input, database, ok, err, Method, ◌>>◌}
use touchgrass.Alerts.{IssueKind, IssueRule, Issue, Occurrence, issue_new, issue_spike, Sampler}

-- Which statements fail: the list of issues, the count for an issue, the insert of its
-- notification and the stamp on it.
pub record Failures : Type 0 where
  pub listing : Bool
  pub counting : ℕ → Bool
  pub inserting : ℕ → Bool
  pub stamping : ℕ → Bool

-- `time.Now().Add(-time.Duration(rule.WindowSecs) * time.Second)`: the product wraps to a signed
-- 64-bit number, so it is a step back of at most 2^63 nanoseconds or a step forward. Times are
-- nanoseconds since Go's zero time, and the clock's are later than 2^63, so `-` does not stop at 0.
unfoldable pub since : IssueRule → ℕ → ℕ
since rule now =
    let back = (rule.window_secs * 1000000000) % 2 ^ 64 in
    if leb back (2 ^ 63) then now - back else now + (2 ^ 64 - back)

-- `spikeFired`, with `false` for a missing entry in either map.
unfoldable pub spike_fired : ℕ → ℕ → Sampler → Bool
spike_fired rule issue s = get_or (get_or s.spikes rule empty) issue false

-- `setSpike`
unfoldable pub set_spike : ℕ → ℕ → Sampler → Sampler
set_spike rule issue s = record s {
  spikes = insert s.spikes rule (insert (get_or s.spikes rule empty) issue true);
}

-- `clearSpike`: deleting from a map that is missing does nothing.
unfoldable pub clear_spike : ℕ → ℕ → Sampler → Sampler
clear_spike rule issue s = elim (s.spikes rule) [
  | none ↦ s
  | some latches ↦ record s { spikes = insert s.spikes rule (erase latches issue) }
]

-- `UnnotifiedSince`
abbrev pub is_fresh : IssueRule → ℕ → Issue → Bool
is_fresh rule now i =
    text_eq i.service_id rule.service_id
    && (leb (since rule now) i.first_seen && elim i.notified_at [ none ↦ true | some _ ↦ false ])

-- `ActiveSince`
abbrev pub is_active : IssueRule → ℕ → Issue → Bool
is_active rule now i = text_eq i.service_id rule.service_id && leb (since rule now) i.last_seen

-- `CountByIssueSince`
unfoldable pub window_count : ℕ → ℕ → List Occurrence → ℕ
window_count issue from os = count (λ o. o.issue_id == issue && leb from o.created_at) os

-- `MarkNotified`
unfoldable pub mark_notified : ℕ → ℕ → List Issue → List Issue
mark_notified now id [] = []
mark_notified now id (i ∷ is) =
    (if i.id == id then record i { notified_at = some now } else i) ∷ mark_notified now id is

-- The body of the loop of `evaluateNewIssue`.
unfoldable pub announce : IssueRule → ℕ → Failures → Issue → Method Sampler (Unit {0})
announce rule now fails i s =
    if fails.inserting i.id
    then (err database, s)
    else (let t = record s {
      notifications =
          s.notifications ++ issue_new rule.id i.id (window_count i.id 0 s.occurrences) ∷ [];
    } in
        if fails.stamping i.id
        then (err database, t)
        else (ok tt, record t { issues = mark_notified now i.id t.issues }))

unfoldable pub announce_all : IssueRule → ℕ → Failures → List Issue → Method Sampler (Unit {0})
announce_all rule now fails [] s = (ok tt, s)
announce_all rule now fails (i ∷ is) s =
    (announce rule now fails i >> announce_all rule now fails is) s

-- `evaluateNewIssue`
unfoldable pub evaluate_new_issue : IssueRule → ℕ → Failures → Method Sampler (Unit {0})
evaluate_new_issue rule now fails s =
    if fails.listing
    then (err database, s)
    else announce_all rule now fails (select (is_fresh rule now) s.issues) s

-- The body of the loop of `evaluateSpike`.
unfoldable pub watch_issue : IssueRule → ℕ → Failures → Issue → Method Sampler (Unit {0})
watch_issue rule now fails i s =
    let seen = window_count i.id (since rule now) s.occurrences in
    if fails.counting i.id
    then (err database, s)
    else if ltb seen rule.threshold
    then (ok tt, clear_spike rule.id i.id s)
    else if spike_fired rule.id i.id s
    then (ok tt, s)
    else if fails.inserting i.id
    then (err database, s)
    else (
      ok tt,
      set_spike rule.id i.id
          (record s { notifications = s.notifications ++ issue_spike rule.id i.id seen ∷ [] }),
    )

unfoldable pub watch_all : IssueRule → ℕ → Failures → List Issue → Method Sampler (Unit {0})
watch_all rule now fails [] s = (ok tt, s)
watch_all rule now fails (i ∷ is) s =
    (watch_issue rule now fails i >> watch_all rule now fails is) s

-- `evaluateSpike`
unfoldable pub evaluate_spike : IssueRule → ℕ → Failures → Method Sampler (Unit {0})
evaluate_spike rule now fails s =
    if fails.listing
    then (err database, s)
    else watch_all rule now fails (select (is_active rule now) s.issues) s

-- `evaluateIssueRule`
unfoldable pub evaluate_issue_rule : IssueRule → ℕ → Failures → Method Sampler (Unit {0})
evaluate_issue_rule rule now fails s = elim (rule.kind) [
  | IssueKind.new_issue ↦ evaluate_new_issue rule now fails s
  | IssueKind.spike ↦ evaluate_spike rule now fails s
  | IssueKind.other _ ↦ (err invalid_input, s)
]

-- A rule that fails is logged, and the next one is evaluated.
unfoldable pub each_issue_rule : List (IssueRule × ℕ × Failures) → Sampler → Sampler
each_issue_rule [] s = s
each_issue_rule ((rule, now, fails) ∷ rest) s =
    each_issue_rule rest (evaluate_issue_rule rule now fails s).1

-- `evaluateIssues`: the enabled rules, each with its time, or a failed list.
unfoldable pub evaluate_issues :
    Result (List (IssueRule × ℕ × Failures)) → Method Sampler (Unit {0})
evaluate_issues (err e) s = (err e, s)
evaluate_issues (ok rules) s = (ok tt, each_issue_rule rules s)
