-- ===== src/Alerts/Breaches.antt =====
-- A breach episode of a threshold rule: it starts at the first evaluation above the threshold and
-- ends at the first that is not (`evaluateThreshold` of internal/service/resources.go).
use touchgrass.Base.{
  ℕ, ◌+◌, ◌-◌, ◌≤◌, ◌≡◌, ◌≢◌, refl, inl, inr, Bool, true, false, not, ◌&&◌, ◌||◌, ◌==◌, ==_iff,
  ==_refl, if◌then◌else◌, none, some, List, [], ◌∷◌, count, count-append, arith, Bool-cases,
}
use touchgrass.Base.Maps.{nat_key, get_or}
use touchgrass.Alerts.{
  Breach, Notification, alert_breach, issue_new, issue_spike, Sampler, no_breach, has_lasted,
  started, evaluate_threshold,
}

-- An evaluation above the threshold, with whether its notification cannot be stored.
pub record Tick : Type 0 where
  pub now : ℕ
  pub fails : Bool

-- Evaluations of one rule that all find it above the threshold.
unfoldable pub breach_on : (rule secs : ℕ) → List Tick → Sampler → Sampler
breach_on rule secs [] s = s
breach_on rule secs (t ∷ ts) s =
    breach_on rule secs ts (evaluate_threshold rule secs true t.now t.fails s).1

abbrev is_breach_of : ℕ → Notification → Bool
is_breach_of rule (alert_breach r now) = r == rule
is_breach_of rule (issue_new r i n) = false
is_breach_of rule (issue_spike r i n) = false

-- How many notifications a rule has sent.
abbrev pub breach_count : ℕ → Sampler → ℕ
breach_count rule s = count (is_breach_of rule) s.notifications

abbrev pub breach_of : ℕ → Sampler → Breach
breach_of rule s = get_or s.breaches rule no_breach

-- The rule has been above its threshold for its duration at one of these evaluations, which could
-- store the notification.
unfoldable pub any_due : (secs start : ℕ) → List Tick → Bool
any_due secs start [] = false
any_due secs start (t ∷ ts) =
    (has_lasted secs (t.now - start) && not t.fails) || any_due secs start ts

-- The evaluation sends the notification.
abbrev sends : (secs : ℕ) → Tick → Breach → Bool
sends secs t b = not b.fired && (has_lasted secs (t.now - started t.now b) && not t.fails)

tick_count :
    (rule secs : ℕ) (t : Tick) (s : Sampler)
    → breach_count rule (evaluate_threshold rule secs true t.now t.fails s).1
      ≡ breach_count rule s + (if sends secs t (breach_of rule s) then 1 else 0)
unfolding evaluate_threshold count
tick_count rule secs t s = ground (
  arith,
  ==_refl rule,
  count-append (is_breach_of rule) s.notifications (alert_breach rule t.now ∷ []),
)

tick_fired :
    (rule secs : ℕ) (t : Tick) (s : Sampler)
    → (breach_of rule (evaluate_threshold rule secs true t.now t.fails s).1).fired
      ≡ ((breach_of rule s).fired || sends secs t (breach_of rule s))
unfolding evaluate_threshold
tick_fired rule secs t s = ground (arith, ==_refl rule)

tick_start :
    (rule secs : ℕ) (t : Tick) (s : Sampler) (start : ℕ)
    → (breach_of rule s).start ≡ some start
    → (breach_of rule (evaluate_threshold rule secs true t.now t.fails s).1).start ≡ some start
unfolding evaluate_threshold
tick_start rule secs t s start e = ground (arith, ==_refl rule)

fired_stays :
    (rule secs : ℕ) (ts : List Tick) (s : Sampler)
    → (breach_of rule s).fired ≡ true
    → breach_count rule (breach_on rule secs ts s) ≡ breach_count rule s
unfolding breach_on
fired_stays rule secs [] s e = refl
fired_stays rule secs (t ∷ ts) s e =
    let after = (evaluate_threshold rule secs true t.now t.fails s).1 in
    ground (
      arith,
      tick_count rule secs t s,
      fired_stays rule secs ts after (ground (arith, tick_fired rule secs t s)),
    )

-- From any state, evaluations of one rule that all find it above its threshold, whatever their
-- times and whichever inserts fail, send at most one notification for it.
breach_on-at_most_one :
    (rule secs : ℕ) (ts : List Tick) (s : Sampler)
    → breach_count rule (breach_on rule secs ts s) ≤ breach_count rule s + 1
unfolding breach_on
breach_on-at_most_one rule secs [] s = omega arith
breach_on-at_most_one rule secs (t ∷ ts) s =
    let after = (evaluate_threshold rule secs true t.now t.fails s).1 in
    elim (Bool-cases (sends secs t (breach_of rule s))) [
      | inl sent ↦ ground (
        arith,
        tick_count rule secs t s,
        fired_stays rule secs ts after (ground (arith, tick_fired rule secs t s)),
      )
      | inr quiet ↦
          ground (arith, tick_count rule secs t s, breach_on-at_most_one rule secs ts after)
    ]

-- An episode that has started and not fired sends its notification as soon as it is due.
running_episode :
    (rule secs start : ℕ) (ts : List Tick) (s : Sampler)
    → (breach_of rule s).start ≡ some start
    → (breach_of rule s).fired ≡ false
    → breach_count rule (breach_on rule secs ts s)
      ≡ breach_count rule s + (if any_due secs start ts then 1 else 0)
unfolding breach_on any_due
running_episode rule secs start [] s b f = omega arith
running_episode rule secs start (t ∷ ts) s b f =
    let after = (evaluate_threshold rule secs true t.now t.fails s).1 in
    elim (Bool-cases (sends secs t (breach_of rule s))) [
      | inl sent ↦ ground (
        arith,
        tick_count rule secs t s,
        fired_stays rule secs ts after (ground (arith, tick_fired rule secs t s)),
      )
      | inr quiet ↦ ground (
        arith,
        tick_count rule secs t s,
        running_episode rule secs start ts after (tick_start rule secs t s start b)
            (ground (arith, tick_fired rule secs t s)),
      )
    ]

first_tick :
    (rule secs : ℕ) (t : Tick) (s : Sampler)
    → s.breaches rule ≡ none
    → t.fails ≡ false
    → (breach_of rule (evaluate_threshold rule secs true t.now t.fails s).1).start ≡ some t.now
unfolding evaluate_threshold
first_tick rule secs t s e f = ground (arith, ==_refl rule)

-- A rule with no episode that is found above its threshold, first with a working insert and then
-- any number of times, sends exactly one notification if at one of these evaluations it had been
-- above the threshold for its duration since the first and the insert worked, and none otherwise.
pub breach_on-exactly_one :
    (rule secs : ℕ) (t : Tick) (ts : List Tick) (s : Sampler)
    → s.breaches rule ≡ none
    → t.fails ≡ false
    → breach_count rule (breach_on rule secs (t ∷ ts) s)
      ≡ breach_count rule s + (if any_due secs t.now (t ∷ ts) then 1 else 0)
unfolding breach_on any_due
breach_on-exactly_one rule secs t ts s e f =
    let after = (evaluate_threshold rule secs true t.now t.fails s).1 in
    elim (Bool-cases (sends secs t (breach_of rule s))) [
      | inl sent ↦ ground (
        arith,
        tick_count rule secs t s,
        fired_stays rule secs ts after (ground (arith, tick_fired rule secs t s)),
      )
      | inr quiet ↦ ground (
        arith,
        tick_count rule secs t s,
        running_episode rule secs t.now ts after (first_tick rule secs t s e f)
            (ground (arith, tick_fired rule secs t s)),
      )
    ]

-- An evaluation that finds the rule at or below its threshold ends the episode and sends nothing.
evaluate_threshold-ends :
    (rule secs now : ℕ) (fails : Bool) (s : Sampler)
    → ((evaluate_threshold rule secs false now fails s).1.breaches rule ≡ none)
      × (breach_count rule (evaluate_threshold rule secs false now fails s).1 ≡ breach_count rule s)
unfolding evaluate_threshold
evaluate_threshold-ends rule secs now fails s = ground (arith, ==_refl rule)

-- The evaluation of another rule changes neither the episode nor the notifications of this one.
evaluate_threshold-elsewhere :
    (rule other secs : ℕ) (breaching : Bool) (now : ℕ) (fails : Bool) (s : Sampler)
    → other ≢ rule
    → ((evaluate_threshold other secs breaching now fails s).1.breaches rule ≡ s.breaches rule)
      × (breach_count rule (evaluate_threshold other secs breaching now fails s).1
          ≡ breach_count rule s)
unfolding evaluate_threshold count
evaluate_threshold-elsewhere rule other secs breaching now fails s h = ground (
  arith,
  ==_iff other rule,
  ==_iff rule other,
  count-append (is_breach_of rule) s.notifications (alert_breach other now ∷ []),
)
