-- ===== src/Alerts/Announcements.antt =====
-- New issues are announced once (`evaluateNewIssue` of internal/service/issue_alerts.go).
use touchgrass.Base.{
  ℕ, ◌≤◌, ◌≡◌, refl, sym, subst, inl, inr, true, not, ◌||◌, ==_refl, List, [], ◌∷◌, select, All,
  arith, Bool-cases,
}
use touchgrass.Base.Results.{ok}
use touchgrass.Alerts.{IssueRule, Issue, Sampler}
use touchgrass.Alerts.Issues.{
  since, is_fresh, mark_notified, announce, announce_all, evaluate_new_issue,
}
use touchgrass.Alerts.Spikes.{no_failures, mentions}

-- The stamps of a whole list.
abbrev marked : ℕ → List Issue → List Issue → List Issue
marked now [] js = js
marked now (i ∷ is) js = marked now is (mark_notified now i.id js)

announce_all-issues :
    (rule : IssueRule) (now : ℕ) (is : List Issue) (s : Sampler)
    → (announce_all rule now no_failures is s).1.issues ≡ marked now is s.issues
unfolding announce_all announce
announce_all-issues rule now [] s = refl
announce_all-issues rule now (i ∷ is) s =
    announce_all-issues rule now is (announce rule now no_failures i s).1

-- Every fresh issue of the table is on the list.
abbrev Covers : IssueRule → ℕ → List Issue → List Issue → Type 0
Covers rule now is js = All (λ j. (not (is_fresh rule now j) || mentions j.id is) ≡ true) js

Covers-mark :
    (rule : IssueRule) (now : ℕ) (i : Issue) (is js : List Issue)
    → Covers rule now (i ∷ is) js
    → Covers rule now is (mark_notified now i.id js)
unfolding mark_notified mentions
Covers-mark rule now i is [] c = tt
Covers-mark rule now i is (j ∷ js) c = (ground (arith, c.0), Covers-mark rule now i is js c.1)

Covers-none :
    (rule : IssueRule) (now : ℕ) (js : List Issue)
    → Covers rule now [] js
    → select (is_fresh rule now) js ≡ []
unfolding select mentions
Covers-none rule now [] c = refl
Covers-none rule now (j ∷ js) c = ground (arith, c.0, Covers-none rule now js c.1)

marked-none :
    (rule : IssueRule) (now : ℕ) (is js : List Issue)
    → Covers rule now is js
    → select (is_fresh rule now) (marked now is js) ≡ []
marked-none rule now [] js c = Covers-none rule now js c
marked-none rule now (i ∷ is) js c =
    marked-none rule now is (mark_notified now i.id js) (Covers-mark rule now i is js c)

Covers-more :
    (rule : IssueRule) (now : ℕ) (i : Issue) (is js : List Issue)
    → Covers rule now is js
    → Covers rule now (i ∷ is) js
unfolding mentions
Covers-more rule now i is [] c = tt
Covers-more rule now i is (j ∷ js) c = (ground (arith, c.0), Covers-more rule now i is js c.1)

Covers-select :
    (rule : IssueRule) (now : ℕ) (js : List Issue)
    → Covers rule now (select (is_fresh rule now) js) js
unfolding select mentions
Covers-select rule now [] = tt
Covers-select rule now (j ∷ js) =
    let rest = select (is_fresh rule now) js in
    let known = Covers-select rule now js in
    elim (Bool-cases (is_fresh rule now j)) [
      | inl fresh ↦
          let e : select (is_fresh rule now) (j ∷ js) ≡ j ∷ rest = rw fresh refl in
          subst (λ is. Covers rule now is (j ∷ js)) (sym e)
            (ground (arith, ==_refl j.id), Covers-more rule now j rest js known)
      | inr stale ↦
          let e : select (is_fresh rule now) (j ∷ js) ≡ rest = rw stale refl in
          subst (λ is. Covers rule now is (j ∷ js)) (sym e) (ground arith, known)
    ]

since_mono : (rule : IssueRule) (now later : ℕ) → now ≤ later → since rule now ≤ since rule later
unfolding since
since_mono rule now later l = ground arith

-- What is not fresh does not become so by the passing of time.
select-later :
    (rule : IssueRule) (now later : ℕ) (js : List Issue)
    → now ≤ later
    → select (is_fresh rule now) js ≡ []
    → select (is_fresh rule later) js ≡ []
unfolding select
select-later rule now later [] l e = refl
select-later rule now later (j ∷ js) l e =
    ground (arith, since_mono rule now later l, select-later rule now later js l)

announce_all-ok :
    (rule : IssueRule) (now : ℕ) (is : List Issue) (s : Sampler)
    → (announce_all rule now no_failures is s).0 ≡ ok tt
unfolding announce_all announce
announce_all-ok rule now [] s = refl
announce_all-ok rule now (i ∷ is) s =
    announce_all-ok rule now is (announce rule now no_failures i s).1

-- Where no statement fails, an evaluation of a new-issue rule succeeds, and a later one of the same
-- rule, with nothing happening in between, leaves the sampler as it is: it sends no notification.
evaluate_new_issue-once :
    (rule : IssueRule) (now later : ℕ) (s : Sampler)
    → now ≤ later
    → ((evaluate_new_issue rule now no_failures s).0 ≡ ok tt)
      × ((evaluate_new_issue rule later no_failures (evaluate_new_issue rule now no_failures s).1).1
          ≡ (evaluate_new_issue rule now no_failures s).1)
unfolding evaluate_new_issue
evaluate_new_issue-once rule now later s l =
    let fresh = select (is_fresh rule now) s.issues in
    (
      announce_all-ok rule now fresh s,
      rw (announce_all-issues rule now fresh s) (
          rw
            (select-later rule now later (marked now fresh s.issues) l
              (marked-none rule now fresh s.issues (Covers-select rule now s.issues)))
            (unfold announce_all in refl)),
    )
