-- ===== src/Security/Outcomes.antt =====
-- What an accepted scan (`Evaluate` of internal/store/security.go) does to the open episodes.
use touchgrass.Base.{
  ℕ, suc, ◌≤◌, ◌≡◌, ◌≢◌, inl, inr, Bool, true, if◌then◌else◌, Text, text_eq_iff, text_eq_refl, some,
  List, [], ◌∷◌, count, count-append, find, arith, Option-cases,
}
use touchgrass.Base.Results.{ok}
use touchgrass.Security.Model.{Observation, Evaluation, Finding, Store, EvaluationResult}
use touchgrass.Security.Findings.{
  Codec, finding_fingerprint, is_active, is_open_episode, reopen_lapsed, put_finding, seen_again,
  recovered_at, new_finding, max_episode, evaluate_episode, evaluate, stamped, evaluate_stamped,
  note_transition,
}
use touchgrass.Security.Rows.{share, find_sound, count-put_finding, count_of-find-none}
use touchgrass.Security.Episodes.{IsStore}

-- The fingerprint that a scan is about.
abbrev pub target : Codec → Evaluation → Text
target c e =
    finding_fingerprint c e.observation.container_id e.observation.rule_id e.baseline_fingerprint

-- How many episodes of a fingerprint are open.
abbrev pub open_episodes : Text → Store → ℕ
open_episodes fingerprint s = count (is_open_episode fingerprint) s.findings

-- The count that a scan leaves.
abbrev pub expected_episodes : Observation → ℕ → ℕ
expected_episodes o before = if o.detected then 1 else if o.coverage_complete then 0 else before

count_of-find-some :
    (p : Finding → Bool) (fs : List Finding) {f : Finding} → find p fs ≡ some f → 1 ≤ count p fs
unfolding find count
count_of-find-some p [] e = ground arith
count_of-find-some p (w ∷ fs) {f} e = ground (arith, count_of-find-some p fs {f = f})

pub evaluate_accepted :
    (c : Codec) (now : ℕ) (fails : Bool) (e : Evaluation) (s : Store) {r : EvaluationResult}
    → (evaluate c now fails e s).0 ≡ ok r
    → (r ≡ (evaluate_stamped (target c e) (stamped now e.observation) s).0)
      × ((evaluate c now fails e s).1
          ≡ (evaluate_stamped (target c e) (stamped now e.observation) s).1)
unfolding evaluate
evaluate_accepted c now fails e s a = ground arith

note_transition-findings :
    (o : Observation) (p : EvaluationResult × Store)
    → (note_transition o p).1.findings ≡ p.1.findings
note_transition-findings o (r, s) = ground arith

pub note_transition-result :
    (o : Observation) (p : EvaluationResult × Store) → (note_transition o p).0 ≡ p.0
note_transition-result o (r, s) = ground arith

-- The row that an open episode becomes.
rewritten : Observation → Finding → Finding
rewritten o f =
    let f' = reopen_lapsed o.observed_at f in
    if o.detected
    then seen_again o f'
    else if o.coverage_complete
    then recovered_at o.observed_at f'
    else f'

-- A scan that finds an open episode rewrites that row and no other.
evaluate_episode-rewritten :
    (fingerprint : Text) (o : Observation) (f : Finding) (s : Store)
    → (evaluate_episode fingerprint o (some f) s).1.findings
      ≡ put_finding (rewritten o f) s.findings
unfolding rewritten evaluate_episode
evaluate_episode-rewritten fingerprint o f s = ground arith

rewritten-id : (o : Observation) (f : Finding) → (rewritten o f).id ≡ f.id
unfolding rewritten reopen_lapsed
rewritten-id o f = ground arith

share-rewritten :
    (fingerprint : Text) (o : Observation) (f : Finding)
    → is_open_episode fingerprint f ≡ true
    → share (is_open_episode fingerprint) (rewritten o f) ≡ expected_episodes o 1
unfolding rewritten reopen_lapsed is_open_episode is_active
share-rewritten fingerprint o f e = ground arith

share-elsewhere :
    (fingerprint other : Text) (o : Observation) (f : Finding)
    → is_open_episode fingerprint f ≡ true
    → fingerprint ≢ other
    → (share (is_open_episode other) (rewritten o f) ≡ 0) × (share (is_open_episode other) f ≡ 0)
unfolding rewritten reopen_lapsed is_open_episode
share-elsewhere fingerprint other o f e differ =
    ground (arith, text_eq_iff f.fingerprint fingerprint, text_eq_iff f.fingerprint other)

evaluate_episode-count :
    (fingerprint : Text) (o : Observation) (s : Store)
    → IsStore s
    → open_episodes fingerprint
        (evaluate_episode fingerprint o (find (is_open_episode fingerprint) s.findings) s).1
      ≡ expected_episodes o (open_episodes fingerprint s)
evaluate_episode-count fingerprint o s v = elim (Option-cases (find q s.findings)) [
  | inl e ↦ rw e (
      unfold evaluate_episode count is_open_episode is_active in
      ground (
        arith,
        count-append q s.findings
            (new_finding s.next_id fingerprint (suc (max_episode fingerprint s.findings)) o ∷ []),
        count_of-find-none q s.findings e,
        text_eq_refl fingerprint,
      ))
  | inr (f, e) ↦ rw e (
      rw (evaluate_episode-rewritten fingerprint o f s) (
        ground (
          arith,
          share-rewritten fingerprint o f (find_sound q s.findings {f = f} e),
          find_sound q s.findings {f = f} e,
          count_of-find-some q s.findings {f = f} e,
          v.single fingerprint,
          count-put_finding q q (rewritten o f) 0 s.next_id s.findings {f = f} v.ascending e
              (rewritten-id o f),
        )))
]
  where
    q : Finding → Bool
    q = is_open_episode fingerprint

evaluate_episode-elsewhere :
    (fingerprint other : Text) (o : Observation) (s : Store)
    → IsStore s
    → fingerprint ≢ other
    → open_episodes other
        (evaluate_episode fingerprint o (find (is_open_episode fingerprint) s.findings) s).1
      ≡ open_episodes other s
evaluate_episode-elsewhere fingerprint other o s v differ =
    elim (Option-cases (find q s.findings)) [
      | inl e ↦ rw e (
          unfold evaluate_episode count is_open_episode in
          ground (
            arith,
            count-append (is_open_episode other) s.findings (
                new_finding s.next_id fingerprint (suc (max_episode fingerprint s.findings)) o
                ∷ []),
            text_eq_iff fingerprint other,
          ))
      | inr (f, e) ↦ rw e (
          rw (evaluate_episode-rewritten fingerprint o f s) (
            ground (
              arith,
              share-elsewhere fingerprint other o f (find_sound q s.findings {f = f} e) differ,
              count-put_finding (is_open_episode other) q (rewritten o f) 0 s.next_id s.findings
                  {f = f} v.ascending e (rewritten-id o f),
            )))
    ]
  where
    q : Finding → Bool
    q = is_open_episode fingerprint

-- On a table whose ids ascend below the next one and that holds at most one open episode for
-- each fingerprint, an accepted scan leaves one open episode of its fingerprint when it detected
-- the signal, none when it did not and its coverage was complete, and as many as there were when
-- its coverage was not complete.
pub evaluate-open_episodes :
    (c : Codec) (now : ℕ) (fails : Bool) (e : Evaluation) (s : Store) {r : EvaluationResult}
    → IsStore s
    → (evaluate c now fails e s).0 ≡ ok r
    → open_episodes (target c e) (evaluate c now fails e s).1
      ≡ expected_episodes e.observation (open_episodes (target c e) s)
evaluate-open_episodes c now fails e s {r} v a =
    let o = stamped now e.observation in
    let (_, moved) = evaluate_accepted c now fails e s {r = r} a in
    rw moved (
      rw
        (note_transition-findings o
          (evaluate_episode (target c e) o (find (is_open_episode (target c e)) s.findings) s))
        (rw (evaluate_episode-count (target c e) o s v) (ground arith)))

-- On such a table, an accepted scan changes the number of open episodes of no other fingerprint.
evaluate-elsewhere :
    (c : Codec) (now : ℕ) (fails : Bool) (e : Evaluation) (s : Store) (other : Text)
    {r : EvaluationResult}
    → IsStore s
    → (evaluate c now fails e s).0 ≡ ok r
    → target c e ≢ other
    → open_episodes other (evaluate c now fails e s).1 ≡ open_episodes other s
evaluate-elsewhere c now fails e s other {r} v a differ =
    let o = stamped now e.observation in
    let (_, moved) = evaluate_accepted c now fails e s {r = r} a in
    rw moved (
      rw
        (note_transition-findings o
          (evaluate_episode (target c e) o (find (is_open_episode (target c e)) s.findings) s))
        (evaluate_episode-elsewhere (target c e) other o s v differ))
