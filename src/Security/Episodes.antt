-- ===== src/Security/Episodes.antt =====
-- One open episode for each fingerprint, whatever scanners, operators and the clock do.
use touchgrass.Base.{
  ℕ, suc, ◌≤◌, ◌≡◌, refl, inl, inr, Bool, true, Text, text_eq, text_eq_iff, none, some, [], ◌∷◌,
  ◌++◌, count, count-append, find, arith, Bool-cases, Option-cases,
}
use touchgrass.Security.Model.{Observation, Finding, Store}
use touchgrass.Security.Findings.{
  is_active, is_open_episode, reopen_lapsed, put_finding, seen_again, recovered_at, new_finding,
  max_episode, evaluate_episode,
}
use touchgrass.Security.Rows.{
  IsAscending, share, find_sound, count-put_finding, IsAscending-put_finding, IsAscending-append,
  count_of-find-none,
}

pub record IsStore (s : Store) : Type 0 where
  pub ascending : IsAscending 0 s.next_id s.findings
  pub single : (fingerprint : Text) → count (is_open_episode fingerprint) s.findings ≤ 1

-- An update that keeps the row's id and fingerprint and does not activate it.
pub record IsTame (f g : Finding) : Type 0 where
  pub same_id : g.id ≡ f.id
  pub same_fingerprint : g.fingerprint ≡ f.fingerprint
  pub calm : is_active g.status ≡ true → is_active f.status ≡ true

share-le :
    (fingerprint : Text) (f g : Finding)
    → IsTame f g
    → share (is_open_episode fingerprint) g ≤ share (is_open_episode fingerprint) f
unfolding is_open_episode
share-le fingerprint f g t = ground arith

pub put-IsStore :
    (q : Finding → Bool) (g : Finding) (s : Store) {f : Finding}
    → IsStore s
    → find q s.findings ≡ some f
    → IsTame f g
    → IsStore (record s { findings = put_finding g s.findings })
put-IsStore q g s {f} v e t = record {
  ascending = IsAscending-put_finding g 0 s.next_id s.findings v.ascending;
  single = λ fingerprint. omega (
    arith,
    v.single fingerprint,
    share-le fingerprint f g t,
    count-put_finding (is_open_episode fingerprint) q g 0 s.next_id s.findings {f = f} v.ascending e
        t.same_id,
  );
}

-- A new episode comes only where its fingerprint has none open.
new_finding-IsStore :
    (fingerprint : Text) (episode : ℕ) (o : Observation) (s : Store)
    → IsStore s
    → find (is_open_episode fingerprint) s.findings ≡ none
    → IsStore (record s {
      findings = s.findings ++ new_finding s.next_id fingerprint episode o ∷ [];
      next_id = suc s.next_id;
    })
new_finding-IsStore fingerprint episode o s v e = record {
  ascending =
      IsAscending-append 0 s.next_id s.findings (new_finding s.next_id fingerprint episode o)
        v.ascending refl;
  single = λ other. counted other;
}
  where
    counted :
        (other : Text)
        → count
            (is_open_episode other)
            (s.findings ++ new_finding s.next_id fingerprint episode o ∷ [])
          ≤ 1
    counted other = elim (Bool-cases (text_eq fingerprint other)) [
      | inl same ↦
          unfold count is_open_episode in
          ground (
            arith,
            text_eq_iff fingerprint other,
            count-append (is_open_episode other) s.findings
                (new_finding s.next_id fingerprint episode o ∷ []),
            count_of-find-none (is_open_episode fingerprint) s.findings e,
          )
      | inr differ ↦
          unfold count is_open_episode in
          ground (
            arith,
            count-append (is_open_episode other) s.findings
                (new_finding s.next_id fingerprint episode o ∷ []),
            v.single other,
          )
    ]

reopen_lapsed-IsTame :
    (now : ℕ) (f : Finding) → is_active f.status ≡ true → IsTame f (reopen_lapsed now f)
unfolding reopen_lapsed
reopen_lapsed-IsTame now f live = record {
  same_id = ground arith;
  same_fingerprint = ground arith;
  calm = λ _. live;
}

seen_again-IsTame :
    (o : Observation) (f : Finding)
    → is_active f.status ≡ true
    → IsTame f (seen_again o (reopen_lapsed o.observed_at f))
unfolding reopen_lapsed
seen_again-IsTame o f live = record {
  same_id = ground arith;
  same_fingerprint = ground arith;
  calm = λ _. live;
}

recovered_at-IsTame : (now : ℕ) (f : Finding) → IsTame f (recovered_at now (reopen_lapsed now f))
unfolding reopen_lapsed is_active
recovered_at-IsTame now f = record {
  same_id = ground arith;
  same_fingerprint = ground arith;
  calm = λ e. ground arith;
}

pub evaluate_episode-IsStore :
    (fingerprint : Text) (o : Observation) (s : Store)
    → IsStore s
    → IsStore (evaluate_episode fingerprint o (find (is_open_episode fingerprint) s.findings) s).1
evaluate_episode-IsStore fingerprint o s v =
    elim (Option-cases (find (is_open_episode fingerprint) s.findings)) [
      | inl e ↦ rw e (fresh e)
      | inr (f, e) ↦ rw e (again f e)
    ]
  where
    fresh :
        find (is_open_episode fingerprint) s.findings ≡ none
        → IsStore (evaluate_episode fingerprint o none s).1
    fresh e =
        unfold evaluate_episode in
        ground (
          arith,
          v,
          new_finding-IsStore fingerprint (suc (max_episode fingerprint s.findings)) o s v e,
        )

    again :
        (f : Finding)
        → find (is_open_episode fingerprint) s.findings ≡ some f
        → IsStore (evaluate_episode fingerprint o (some f) s).1
    again f e =
        let live : is_active f.status ≡ true =
          (unfold is_open_episode in
            ground (arith, find_sound (is_open_episode fingerprint) s.findings {f = f} e)) in
        let q = is_open_episode fingerprint in
        let f' = reopen_lapsed o.observed_at f in
        unfold evaluate_episode in
        ground (
          arith,
          put-IsStore q (seen_again o f') s {f = f} v e (seen_again-IsTame o f live),
          put-IsStore q (recovered_at o.observed_at f') s {f = f} v e
              (recovered_at-IsTame o.observed_at f),
          put-IsStore q f' s {f = f} v e (reopen_lapsed-IsTame o.observed_at f live),
        )
