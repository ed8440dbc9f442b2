-- ===== src/Security/Rows.antt =====
-- Facts about the table of findings: ids ascend, so an update by id touches one row.
use touchgrass.Base.{
  ℕ, suc, ◌+◌, ◌≤◌, ◌<◌, ◌≡◌, refl, inl, inr, Bool, true, ◌==◌, if◌then◌else◌, some, none, List, [],
  ◌∷◌, ◌++◌, count, find, arith, Bool-cases,
}
use touchgrass.Security.Model.{Finding}
use touchgrass.Security.Findings.{put_finding}

-- Ids strictly ascend from `lo` and stay below `hi`.
abbrev pub IsAscending : ℕ → ℕ → List Finding → Type 0
IsAscending lo hi [] = lo ≤ hi
IsAscending lo hi (f ∷ fs) = (lo ≤ f.id) × IsAscending (suc f.id) hi fs

abbrev pub share : (Finding → Bool) → Finding → ℕ
share p f = if p f then 1 else 0

IsAscending-mono :
    (lo lo' hi : ℕ) (fs : List Finding) → lo' ≤ lo → IsAscending lo hi fs → IsAscending lo' hi fs
IsAscending-mono lo lo' hi [] l h = omega arith
IsAscending-mono lo lo' hi (f ∷ fs) l h = (omega arith, h.1)

pub find-id_bound :
    (q : Finding → Bool) (lo hi : ℕ) (fs : List Finding) {f : Finding}
    → IsAscending lo hi fs
    → find q fs ≡ some f
    → lo ≤ f.id
unfolding find
find-id_bound q lo hi [] h e = ground arith
find-id_bound q lo hi (w ∷ fs) {f} h e =
    ground (arith, find-id_bound q (suc w.id) hi fs {f = f} h.1)

pub find_sound :
    (q : Finding → Bool) (fs : List Finding) {f : Finding} → find q fs ≡ some f → q f ≡ true
unfolding find
find_sound q [] e = ground arith
find_sound q (w ∷ fs) {f} e = elim (Bool-cases (q w)) [
  | inl hit ↦ ground arith
  | inr miss ↦ ground (arith, find_sound q fs {f = f})
]

put_finding_above :
    (g : Finding) (lo hi : ℕ) (fs : List Finding)
    → g.id < lo
    → IsAscending lo hi fs
    → put_finding g fs ≡ fs
unfolding put_finding
put_finding_above g lo hi [] l h = refl
put_finding_above g lo hi (f ∷ fs) l h =
    ground (arith, put_finding_above g (suc f.id) hi fs (omega arith) h.1)

-- An update by id exchanges one row's share of any count.
pub count-put_finding :
    (p q : Finding → Bool) (g : Finding) (lo hi : ℕ) (fs : List Finding) {f : Finding}
    → IsAscending lo hi fs
    → find q fs ≡ some f
    → g.id ≡ f.id
    → count p (put_finding g fs) + share p f ≡ count p fs + share p g
unfolding find count put_finding
count-put_finding p q g lo hi [] h e same = ground arith
count-put_finding p q g lo hi (w ∷ fs) {f} h e same = elim (Bool-cases (q w)) [
  | inl hit ↦ ground (arith, put_finding_above g (suc w.id) hi fs (ground arith) h.1)
  | inr miss ↦ ground (
    arith,
    find-id_bound q (suc w.id) hi fs {f = f} h.1,
    count-put_finding p q g (suc w.id) hi fs {f = f} h.1,
  )
]

pub IsAscending-put_finding :
    (g : Finding) (lo hi : ℕ) (fs : List Finding)
    → IsAscending lo hi fs
    → IsAscending lo hi (put_finding g fs)
unfolding put_finding
IsAscending-put_finding g lo hi [] h = h
IsAscending-put_finding g lo hi (f ∷ fs) h = elim (Bool-cases (f.id == g.id)) [
  | inl hit ↦
      let same : f.id ≡ g.id = ground arith in
      rw hit (rw (← same) (h.0, IsAscending-put_finding g (suc f.id) hi fs h.1))
  | inr miss ↦ rw miss (h.0, IsAscending-put_finding g (suc f.id) hi fs h.1)
]

pub IsAscending-append :
    (lo hi : ℕ) (fs : List Finding) (f : Finding)
    → IsAscending lo hi fs
    → f.id ≡ hi
    → IsAscending lo (suc hi) (fs ++ f ∷ [])
IsAscending-append lo hi [] f h e = (omega arith, omega arith)
IsAscending-append lo hi (w ∷ fs) f h e = (h.0, IsAscending-append (suc w.id) hi fs f h.1 e)

pub count_of-find-none :
    (p : Finding → Bool) (fs : List Finding) → find p fs ≡ none → count p fs ≡ 0
unfolding find count
count_of-find-none p [] e = refl
count_of-find-none p (f ∷ fs) e = ground (arith, count_of-find-none p fs)
