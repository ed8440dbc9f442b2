-- ===== src/Security/Reports.antt =====
-- What `Evaluate` of internal/store/security.go reports to its callers, who notify on it.
use touchgrass.Base.{
  ℕ, ◌≡◌, inl, inr, ◌⊎◌, ◌↔◌, Bool, true, false, ◌∙◌, Option, none, some, find, arith, Option-cases,
}
use touchgrass.Base.Results.{ok}
use touchgrass.Security.Model.{Observation, Evaluation, Finding, Store, EvaluationResult}
use touchgrass.Security.Findings.{
  Codec, is_open_episode, has_lapsed, evaluate_episode, evaluate, stamped,
}
use touchgrass.Security.Outcomes.{target, evaluate_accepted, note_transition-result}

-- The open episode that a scan looks up.
abbrev pub current : Codec → Evaluation → Store → Option Finding
current c e s = find (is_open_episode (target c e)) s.findings

result-eq :
    (c : Codec) (now : ℕ) (fails : Bool) (e : Evaluation) (s : Store) {r : EvaluationResult}
    → (evaluate c now fails e s).0 ≡ ok r
    → r ≡ (evaluate_episode (target c e) (stamped now e.observation) (current c e s) s).0
result-eq c now fails e s {r} a =
    let (reported, _) = evaluate_accepted c now fails e s {r = r} a in
    reported
    ∙ note_transition-result (stamped now e.observation)
        (evaluate_episode (target c e) (stamped now e.observation) (current c e s) s)

-- An accepted scan reports a finding as opened exactly when it detected the signal and its
-- fingerprint had no open episode, or one whose suppression had run out at the observed time.
pub evaluate-opened_iff :
    (c : Codec) (now : ℕ) (fails : Bool) (e : Evaluation) (s : Store) (r : EvaluationResult)
    → (evaluate c now fails e s).0 ≡ ok r
    → (r.opened ≡ true) ↔ (
        (e.observation.detected ≡ true)
        × ((current c e s ≡ none)
            ⊎ ((f : Finding) × (current c e s ≡ some f)
                × (has_lapsed (stamped now e.observation).observed_at f ≡ true))))
evaluate-opened_iff c now fails e s r a = elim (Option-cases (current c e s)) [
  | inl free ↦
      let h : r ≡ (evaluate_episode (target c e) o none s).0 =
        ground (arith, result-eq c now fails e s {r = r} a) in
      (
        λ x. (unfold evaluate_episode in ground arith, inl free),
        λ x. unfold evaluate_episode in ground arith,
      )
  | inr (f, taken) ↦
      let h : r ≡ (evaluate_episode (target c e) o (some f) s).0 =
        ground (arith, result-eq c now fails e s {r = r} a) in
      (
        λ x. (
          unfold evaluate_episode in ground arith,
          inr (f, taken, unfold evaluate_episode in ground arith),
        ),
        λ x. unfold evaluate_episode in ground arith,
      )
]
  where
    o : Observation
    o = stamped now e.observation

-- An accepted scan reports a finding as recovered exactly when its fingerprint had an open
-- episode and a complete scan no longer detected the signal.
evaluate-recovered_iff :
    (c : Codec) (now : ℕ) (fails : Bool) (e : Evaluation) (s : Store) (r : EvaluationResult)
    → (evaluate c now fails e s).0 ≡ ok r
    → (r.recovered ≡ true) ↔ (
        ((f : Finding) × (current c e s ≡ some f))
        × (e.observation.detected ≡ false)
        × (e.observation.coverage_complete ≡ true))
evaluate-recovered_iff c now fails e s r a = elim (Option-cases (current c e s)) [
  | inl free ↦
      let h : r ≡ (evaluate_episode (target c e) (stamped now e.observation) none s).0 =
        ground (arith, result-eq c now fails e s {r = r} a) in
      (λ x. unfold evaluate_episode in ground arith, λ x. ground arith)
  | inr (f, taken) ↦
      let h : r ≡ (evaluate_episode (target c e) (stamped now e.observation) (some f) s).0 =
        ground (arith, result-eq c now fails e s {r = r} a) in
      (
        λ x. (
          (f, taken),
          unfold evaluate_episode in ground arith,
          unfold evaluate_episode in ground arith,
        ),
        λ x. unfold evaluate_episode in ground arith,
      )
]
