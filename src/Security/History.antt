-- ===== src/Security/History.antt =====
-- Whatever scanners, operators and the clock do, one after the other
-- (internal/store/security.go): at most one open episode for each fingerprint.
use touchgrass.Base.{
  ℕ, suc, ◌≤◌, ◌≡◌, refl, inl, inr, ◌⊎◌, Bool, true, ◌&&◌, ◌==◌, if◌then◌else◌, Text, is_blank,
  List, [], ◌∷◌, ◌++◌, map, count, find, arith, Bool-cases, Option-cases,
}
use touchgrass.Security.Model.{
  acknowledge, resolve, suppress, Observation, Evaluation, Finding, Entry, Store, EvaluationResult,
}
use touchgrass.Security.Findings.{
  Codec, finding_fingerprint, is_active, is_open_episode, has_lapsed, put_finding, evaluate,
  stamped, evaluate_episode, evaluate_stamped, note_transition,
}
use touchgrass.Security.Operations.{
  Suppression, transition, is_open, is_unsuppressed, mark_acknowledged, mark_resolved,
  mark_suppressed, acknowledge_finding, resolve_finding, suppress_finding, reopened,
  expire_suppressions,
}
use touchgrass.Security.Rows.{IsAscending, find_sound}
use touchgrass.Security.Episodes.{IsStore, IsTame, put-IsStore, evaluate_episode-IsStore}

-- A call of the store, with the clock and whether a statement of its transaction fails.
pub data Call : Type 0 where
  scan : Bool → ℕ → Evaluation → Call
  acknowledgement resolution : Bool → ℕ → ℕ → Text → Call
  suppression : Bool → ℕ → ℕ → Suppression → Call
  expiry : Bool → ℕ → ℕ → Call

unfoldable pub step : Codec → Call → Store → Store
step c (scan fails now e) s = (evaluate c now fails e s).1
step c (acknowledgement fails now id actor) s = (acknowledge_finding fails now id actor s).1
step c (resolution fails now id actor) s = (resolve_finding fails now id actor s).1
step c (suppression fails now id p) s = (suppress_finding fails now id p s).1
step c (expiry fails clock at) s = (expire_suppressions fails clock at s).1

unfoldable pub run : Codec → List Call → Store → Store
run c [] s = s
run c (call ∷ rest) s = run c rest (step c call s)

same_rows :
    (s : Store) (os : List Observation) (es : List Entry)
    → IsStore s
    → IsStore (record s { observations = os; trail = es })
same_rows s os es v = record {
  ascending = v.ascending;
  single = λ fingerprint. v.single fingerprint;
}

note_transition-IsStore :
    (o : Observation) (r : EvaluationResult × Store) → IsStore r.1 → IsStore (note_transition o r).1
note_transition-IsStore o (r, s) v =
    ground (arith, same_rows s (s.observations ++ o ∷ []) s.trail v)

evaluate_cases :
    (c : Codec) (now : ℕ) (fails : Bool) (e : Evaluation) (s : Store)
    → ((evaluate c now fails e s).1 ≡ s)
      ⊎ ((evaluate c now fails e s).1
          ≡ (evaluate_stamped
              (finding_fingerprint c e.observation.container_id e.observation.rule_id
                e.baseline_fingerprint)
              (stamped now e.observation)
              s).1)
unfolding evaluate
evaluate_cases c now fails e s = ground arith

evaluate-IsStore :
    (c : Codec) (now : ℕ) (fails : Bool) (e : Evaluation) (s : Store)
    → IsStore s
    → IsStore (evaluate c now fails e s).1
evaluate-IsStore c now fails e s v = elim (evaluate_cases c now fails e s) [
  | inl same ↦ rw same v
  | inr moved ↦
      let fingerprint =
        finding_fingerprint c e.observation.container_id e.observation.rule_id
          e.baseline_fingerprint in
      let o = stamped now e.observation in
      rw moved (
        note_transition-IsStore o
          (evaluate_episode fingerprint o (find (is_open_episode fingerprint) s.findings) s)
          (evaluate_episode-IsStore fingerprint o s v))
]

-- A guarded update leaves the store alone, or rewrites the row that passes its guard.
transition-IsStore :
    (fails : Bool) (id : ℕ) (allowed : Finding → Bool) (change : Finding → Finding) (entry : Entry)
    (s : Store)
    → ((f : Finding) → allowed f ≡ true → IsTame f (change f))
    → IsStore s
    → IsStore (transition fails id allowed change entry s).1
unfolding transition
transition-IsStore fails id allowed change entry s tame v =
    elim (Option-cases (find q s.findings)) [
      | inl e ↦ ground (arith, v)
      | inr (f, e) ↦ ground (
        arith,
        v,
        same_rows (record s { findings = put_finding (change f) s.findings }) s.observations
            (s.trail ++ entry ∷ [])
            (put-IsStore q (change f) s {f = f} v e
              (tame f (ground (arith, find_sound q s.findings {f = f} e)))),
      )
    ]
  where
    q : Finding → Bool
    q f = f.id == id && allowed f

mark-IsTame :
    (f g : Finding)
    → g.id ≡ f.id
    → g.fingerprint ≡ f.fingerprint
    → is_active f.status ≡ true
    → IsTame f g
mark-IsTame f g i p live = record { same_id = i; same_fingerprint = p; calm = λ _. live }

acknowledge_finding-IsStore :
    (fails : Bool) (now id : ℕ) (actor : Text) (s : Store)
    → IsStore s
    → IsStore (acknowledge_finding fails now id actor s).1
unfolding acknowledge_finding
acknowledge_finding-IsStore fails now id actor s v = elim (Bool-cases (is_blank actor)) [
  | inl blank ↦ ground (arith, v)
  | inr given ↦ ground (
    arith,
    transition-IsStore fails id (λ f. is_open f.status) (mark_acknowledged now actor)
        (record { actor = actor; action = acknowledge; finding = id }) s
        (λ f open_row.
          mark-IsTame f (mark_acknowledged now actor f) refl refl
            (unfold is_active in ground arith))
        v,
  )
]

resolve_finding-IsStore :
    (fails : Bool) (now id : ℕ) (actor : Text) (s : Store)
    → IsStore s
    → IsStore (resolve_finding fails now id actor s).1
unfolding resolve_finding
resolve_finding-IsStore fails now id actor s v = elim (Bool-cases (is_blank actor)) [
  | inl blank ↦ ground (arith, v)
  | inr given ↦ ground (
    arith,
    transition-IsStore fails id (λ f. is_active f.status) (mark_resolved now actor)
        (record { actor = actor; action = resolve; finding = id }) s
        (λ f live. mark-IsTame f (mark_resolved now actor f) refl refl live) v,
  )
]

suppress_finding-IsStore :
    (fails : Bool) (now id : ℕ) (p : Suppression) (s : Store)
    → IsStore s
    → IsStore (suppress_finding fails now id p s).1
unfolding suppress_finding
suppress_finding-IsStore fails now id p s v = ground (
  arith,
  v,
  transition-IsStore fails id (λ f. is_unsuppressed f.status) (mark_suppressed p)
      (record { actor = p.actor; action = suppress; finding = id }) s
      (λ f live. mark-IsTame f (mark_suppressed p f) refl refl (unfold is_active in ground arith))
      v,
)

-- Reopening in place neither activates a row nor renumbers it.
IsAscending-map :
    (now lo hi : ℕ) (fs : List Finding)
    → IsAscending lo hi fs
    → IsAscending lo hi (map (λ f. if has_lapsed now f then reopened f else f) fs)
IsAscending-map now lo hi [] h = h
IsAscending-map now lo hi (f ∷ fs) h = elim (Bool-cases (has_lapsed now f)) [
  | inl lapsed ↦ rw lapsed (h.0, IsAscending-map now (suc f.id) hi fs h.1)
  | inr kept ↦ rw kept (h.0, IsAscending-map now (suc f.id) hi fs h.1)
]

count-map :
    (fingerprint : Text) (now : ℕ) (fs : List Finding)
    → count (is_open_episode fingerprint) (map (λ f. if has_lapsed now f then reopened f else f) fs)
      ≡ count (is_open_episode fingerprint) fs
unfolding count has_lapsed is_open_episode is_active
count-map fingerprint now [] = refl
count-map fingerprint now (f ∷ fs) = ground (arith, count-map fingerprint now fs)

expire_suppressions-IsStore :
    (fails : Bool) (clock at : ℕ) (s : Store)
    → IsStore s
    → IsStore (expire_suppressions fails clock at s).1
unfolding expire_suppressions
expire_suppressions-IsStore fails clock at s v = ground (arith, v, moved)
  where
    now : ℕ
    now = if at == 0 then clock else at

    moved :
        IsStore
          (record s { findings = map (λ f. if has_lapsed now f then reopened f else f) s.findings })
    moved = record {
      ascending = IsAscending-map now 0 s.next_id s.findings v.ascending;
      single = λ fingerprint. rw (count-map fingerprint now s.findings) (v.single fingerprint);
    }

step-IsStore : (c : Codec) (call : Call) (s : Store) → IsStore s → IsStore (step c call s)
unfolding step
step-IsStore c (scan fails now e) s v = evaluate-IsStore c now fails e s v
step-IsStore c (acknowledgement fails now id actor) s v =
    acknowledge_finding-IsStore fails now id actor s v
step-IsStore c (resolution fails now id actor) s v = resolve_finding-IsStore fails now id actor s v
step-IsStore c (suppression fails now id p) s v = suppress_finding-IsStore fails now id p s v
step-IsStore c (expiry fails clock at) s v = expire_suppressions-IsStore fails clock at s v

run-IsStore : (c : Codec) (calls : List Call) (s : Store) → IsStore s → IsStore (run c calls s)
unfolding run
run-IsStore c [] s v = v
run-IsStore c (call ∷ rest) s v = run-IsStore c rest (step c call s) (step-IsStore c call s v)

-- From a table whose ids ascend below the next one and that holds at most one open episode for
-- each fingerprint, every sequence of scans, acknowledgements, resolutions, suppressions and
-- expiries, each failing or not, leaves at most one open episode for each fingerprint.
pub run-single :
    (c : Codec) (calls : List Call) (s : Store) (fingerprint : Text)
    → IsStore s
    → count (is_open_episode fingerprint) (run c calls s).findings ≤ 1
run-single c calls s fingerprint v = let w = run-IsStore c calls s v in w.single fingerprint
