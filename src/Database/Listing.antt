-- ===== src/Database/Listing.antt =====
-- The order of the listing (`Backups` of internal/service/database.go), and what the removal of one
-- backup does to it.
use touchgrass.Base.{
  ◌≡◌, refl, true, false, not, if◌then◌else◌, Text, text_eq, List, [], ◌∷◌, select, All, arith, inl,
  inr, Bool-cases,
}
use touchgrass.Database.Files.{BackupInfo, text_leb, comes_before, insert_backup, sort_backups}

text_leb_trans : (s t u : Text) → text_leb s t ≡ true → text_leb t u ≡ true → text_leb s u ≡ true
unfolding text_leb
text_leb_trans [] t u h k = refl
text_leb_trans (c ∷ s) [] u h k = ground arith
text_leb_trans (c ∷ s) (d ∷ t) [] h k = ground arith
text_leb_trans (c ∷ s) (d ∷ t) (e ∷ u) h k = ground (arith, text_leb_trans s t u)

text_leb_total : (s t : Text) → text_leb s t ≡ false → text_leb t s ≡ true
unfolding text_leb
text_leb_total [] t h = ground arith
text_leb_total (c ∷ s) [] h = refl
text_leb_total (c ∷ s) (d ∷ t) h = ground (arith, text_leb_total s t)

comes_before_trans :
    (a b c : BackupInfo)
    → comes_before a b ≡ true
    → comes_before b c ≡ true
    → comes_before a c ≡ true
unfolding comes_before
comes_before_trans a b c h k = ground (arith, text_leb_trans c.name b.name a.name)

comes_before_total : (a b : BackupInfo) → comes_before a b ≡ false → comes_before b a ≡ true
unfolding comes_before
comes_before_total a b h = ground (arith, text_leb_total b.name a.name)

-- Every entry comes before those after it.
abbrev pub IsOrdered : List BackupInfo → Type 0
IsOrdered [] = Unit
IsOrdered (x ∷ xs) = All (λ y. comes_before x y ≡ true) xs × IsOrdered xs

-- The entries of other names.
unfoldable pub without : Text → List BackupInfo → List BackupInfo
unfolding select
without name bs = select (λ b. not (text_eq b.name name)) bs

pub insert-All {κ} :
    (P : BackupInfo → Type κ) (x : BackupInfo) (ys : List BackupInfo)
    → P x
    → All P ys
    → All P (insert_backup x ys)
unfolding insert_backup
insert-All P x [] p q = (p, tt)
insert-All P x (y ∷ ys) p q = elim (Bool-cases (comes_before x y)) [
  | inl first ↦ rw first (p, q)
  | inr later ↦ rw later (q.0, insert-All P x ys p q.1)
]

before-All :
    (x y : BackupInfo) (ys : List BackupInfo)
    → comes_before x y ≡ true
    → All (λ z. comes_before y z ≡ true) ys
    → All (λ z. comes_before x z ≡ true) ys
before-All x y [] h q = tt
before-All x y (z ∷ zs) h q = (comes_before_trans x y z h q.0, before-All x y zs h q.1)

insert-IsOrdered :
    (x : BackupInfo) (ys : List BackupInfo) → IsOrdered ys → IsOrdered (insert_backup x ys)
unfolding insert_backup
insert-IsOrdered x [] o = (tt, tt)
insert-IsOrdered x (y ∷ ys) o = elim (Bool-cases (comes_before x y)) [
  | inl first ↦ rw first ((first, before-All x y ys first o.0), o)
  | inr later ↦ rw later (
    insert-All (λ z. comes_before y z ≡ true) x ys (comes_before_total x y later) o.0,
    insert-IsOrdered x ys o.1,
  )
]

pub sort-IsOrdered : (xs : List BackupInfo) → IsOrdered (sort_backups xs)
unfolding sort_backups
sort-IsOrdered [] = tt
sort-IsOrdered (x ∷ xs) = insert-IsOrdered x (sort_backups xs) (sort-IsOrdered xs)

without-All {κ} :
    (P : BackupInfo → Type κ) (name : Text) (ys : List BackupInfo)
    → All P ys
    → All P (without name ys)
unfolding without select
without-All P name [] q = tt
without-All P name (y ∷ ys) q = elim (Bool-cases (text_eq y.name name)) [
  | inl same ↦ rw same (without-All P name ys q.1)
  | inr other ↦ rw other (q.0, without-All P name ys q.1)
]

insert-first :
    (x : BackupInfo) (ys : List BackupInfo)
    → All (λ y. comes_before x y ≡ true) ys
    → insert_backup x ys ≡ x ∷ ys
unfolding insert_backup
insert-first x [] q = refl
insert-first x (y ∷ ys) q = ground (arith, q.0)

without-insert :
    (name : Text) (x : BackupInfo) (ys : List BackupInfo)
    → IsOrdered ys
    → without name (insert_backup x ys)
      ≡ (if text_eq x.name name then without name ys else insert_backup x (without name ys))
unfolding without select insert_backup
without-insert name x [] o = ground arith
without-insert name x (y ∷ ys) o = elim (Bool-cases (comes_before x y)) [
  | inl first ↦ ground (
    arith,
    insert-first x (without name (y ∷ ys)) (
        without-All (λ z. comes_before x z ≡ true) name (y ∷ ys)
          (first, before-All x y ys first o.0)),
  )
  | inr later ↦ ground (arith, without-insert name x ys o.1)
]

pub without-sort :
    (name : Text) (xs : List BackupInfo)
    → without name (sort_backups xs) ≡ sort_backups (without name xs)
unfolding without select sort_backups
without-sort name [] = refl
without-sort name (x ∷ xs) =
    ground
      (arith, without-insert name x (sort_backups xs) (sort-IsOrdered xs), without-sort name xs)
