-- ===== src/Auth/RateLimit.antt =====
-- The limiter prunes its log at every check; it decides as if it had kept every failure.
use touchgrass.Auth.{
  new_authenticator, Authenticator, max_failures, is_recent, attempts_exceeded, register_failure,
}
use touchgrass.Base.Maps
use touchgrass.Base.{
  ◌∙◌, ap, ℕ, ◌+◌, ◌≤◌, ◌≡◌, refl, Bool, true, Text, text_eq_refl, List, [], ◌∷◌, ◌++◌, length,
  count, count-append, select, leb, arith,
}

-- What one peer does to the limiter: a failed login, or the check before one.
pub data Attempt : Type 0 where
  fails checks : ℕ → Attempt

abbrev pub time : Attempt → ℕ
time (fails t) = t
time (checks t) = t

abbrev attempt : Text → Attempt → Authenticator → Authenticator
attempt ip (fails t) a = register_failure t ip true a
attempt ip (checks t) a = (attempts_exceeded t ip a).1

abbrev pub attempts : Text → List Attempt → Authenticator → Authenticator
attempts ip [] a = a
attempts ip (x ∷ xs) a = attempts ip xs (attempt ip x a)

-- Every failure of the history, pruned or not.
abbrev pub failure_times : List Attempt → List ℕ
failure_times [] = []
failure_times (fails t ∷ xs) = t ∷ failure_times xs
failure_times (checks t ∷ xs) = failure_times xs

-- Time does not run backwards, and has not passed `now`.
abbrev pub IsOrdered : ℕ → List Attempt → ℕ → Type 0
IsOrdered from [] now = from ≤ now
IsOrdered from (x ∷ xs) now = (from ≤ time x) × IsOrdered (time x) xs now

abbrev logged : Text → Authenticator → List ℕ
logged ip a = Maps.get_or a.failures ip []

length-select : (p : ℕ → Bool) (ts : List ℕ) → length (select p ts) ≡ count p ts
unfolding select count
length-select p [] = refl
length-select p (t ∷ ts) = ground (arith, length-select p ts)

-- What was already old stays old.
count-select :
    (earlier now : ℕ) (ts : List ℕ)
    → earlier ≤ now
    → count (is_recent now) (select (is_recent earlier) ts) ≡ count (is_recent now) ts
unfolding select count
count-select earlier now [] h = refl
count-select earlier now (t ∷ ts) h = ground (arith, count-select earlier now ts h)

logged-checks :
    (ip : Text) (t : ℕ) (a : Authenticator)
    → logged ip (attempts_exceeded t ip a).1 ≡ select (is_recent t) (logged ip a)
unfolding attempts_exceeded
logged-checks ip t a = ground (arith, text_eq_refl ip)

logged-fails :
    (ip : Text) (t : ℕ) (a : Authenticator)
    → logged ip (register_failure t ip true a) ≡ logged ip a ++ t ∷ []
unfolding register_failure
logged-fails ip t a = ground (arith, text_eq_refl ip)

IsOrdered-le : (from now : ℕ) (xs : List Attempt) → IsOrdered from xs now → from ≤ now
IsOrdered-le from now [] h = h
IsOrdered-le from now (x ∷ xs) h = omega (arith, IsOrdered-le (time x) now xs h.1)

-- Pruning loses no failure that still counts.
count-attempts :
    (ip : Text) (from now : ℕ) (xs : List Attempt) (a : Authenticator)
    → IsOrdered from xs now
    → count (is_recent now) (logged ip (attempts ip xs a))
      ≡ count (is_recent now) (logged ip a) + count (is_recent now) (failure_times xs)
unfolding count
count-attempts ip from now [] a h = omega arith
count-attempts ip from now (fails t ∷ xs) a h =
    count-attempts ip t now xs (register_failure t ip true a) h.1
    ∙ rw (logged-fails ip t a, count-append (is_recent now) (logged ip a) (t ∷ [])) (omega arith)
count-attempts ip from now (checks t ∷ xs) a h =
    count-attempts ip t now xs (attempts_exceeded t ip a).1 h.1
    ∙ rw (logged-checks ip t a, count-select t now (logged ip a) (IsOrdered-le t now xs h.1))

count-attempts_fresh :
    (ip : Text) (now : ℕ) (xs : List Attempt)
    → IsOrdered 0 xs now
    → count (is_recent now) (logged ip (attempts ip xs new_authenticator))
      ≡ count (is_recent now) (failure_times xs)
unfolding count new_authenticator
count-attempts_fresh ip now xs h = count-attempts ip 0 now xs new_authenticator h ∙ omega arith

-- After any history of failed logins and checks from a peer, in the order of time and with no
-- success in between, the next check refuses exactly when five or more of all those failures are
-- younger than a minute.
pub attempts_exceeded_iff :
    (ip : Text) (now : ℕ) (xs : List Attempt)
    → IsOrdered 0 xs now
    → (attempts_exceeded now ip (attempts ip xs new_authenticator)).0
      ≡ leb max_failures (count (is_recent now) (failure_times xs))
unfolding attempts_exceeded
attempts_exceeded_iff ip now xs h = ap (leb max_failures) (
    length-select (is_recent now) (logged ip (attempts ip xs new_authenticator))
    ∙ count-attempts_fresh ip now xs h)
