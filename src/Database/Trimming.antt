-- ===== src/Database/Trimming.antt =====
-- What trimming leaves (`trimBackups` of internal/service/database.go).
use mathlib.Core.List.{append_assoc}
use touchgrass.Base.{
  ℕ, zero, suc, ◌≤◌, ◌≡◌, refl, ap, sym, subst, ◌∙◌, Bool, true, false, if◌then◌else◌, Text,
  text_eq, text_eq_refl, List, [], ◌∷◌, ◌++◌, count, count-append, select, All, arith, inl, inr,
  Bool-cases,
}
use touchgrass.Base.Results.{ok}
use touchgrass.Database.Names.{is_backup_name}
use touchgrass.Database.Files.{
  File, BackupInfo, sha_suffix, has_name, remove, infos, insert_backup, sort_backups, listing,
  backups, drop, trim_each, trim_backups,
}
use touchgrass.Database.Listing.{without, insert-All}
use touchgrass.Database.Removal.{listing-remove, listing-remove_sidecar}

unfoldable pub take : ℕ → List BackupInfo → List BackupInfo
take zero xs = []
take (suc n) [] = []
take (suc n) (x ∷ xs) = x ∷ take n xs

-- No two entries of a directory have the same name.
abbrev pub IsDirectory : List File → Type 0
IsDirectory dir = (name : Text) → count (has_name name) dir ≤ 1

abbrev pub is_named : Text → BackupInfo → Bool
is_named name b = text_eq b.name name

abbrev IsDistinct : List BackupInfo → Type 0
IsDistinct bs = (name : Text) → count (is_named name) bs ≤ 1

take-drop : (n : ℕ) (xs : List BackupInfo) → take n xs ++ drop n xs ≡ xs
unfolding take drop
take-drop zero xs = refl
take-drop (suc n) [] = refl
take-drop (suc n) (x ∷ xs) = ap (λ ys. x ∷ ys) (take-drop n xs)

drop-All {κ} :
    (P : BackupInfo → Type κ) (n : ℕ) (xs : List BackupInfo) → All P xs → All P (drop n xs)
unfolding drop
drop-All P zero xs a = a
drop-All P (suc n) [] a = tt
drop-All P (suc n) (x ∷ xs) a = drop-All P n xs a.1

sort-All {κ} : (P : BackupInfo → Type κ) (xs : List BackupInfo) → All P xs → All P (sort_backups xs)
unfolding sort_backups
sort-All P [] a = tt
sort-All P (x ∷ xs) a = insert-All P x (sort_backups xs) a.0 (sort-All P xs a.1)

infos-All : (dir fs : List File) → All (λ b. is_backup_name b.name ≡ true) (infos dir fs)
unfolding infos
infos-All dir [] = tt
infos-All dir (f ∷ fs) = elim (Bool-cases f.is_folder) [
  | inl folder ↦ rw folder (infos-All dir fs)
  | inr file ↦ elim (Bool-cases (is_backup_name f.name)) [
    | inl backup ↦ rw file (rw backup (backup, infos-All dir fs))
    | inr other ↦ rw file (rw other (infos-All dir fs))
  ]
]

count-insert :
    (p : BackupInfo → Bool) (x : BackupInfo) (ys : List BackupInfo)
    → count p (insert_backup x ys) ≡ count p (x ∷ ys)
unfolding count insert_backup
count-insert p x [] = refl
count-insert p x (y ∷ ys) = ground (arith, count-insert p x ys)

count-sort : (p : BackupInfo → Bool) (xs : List BackupInfo) → count p (sort_backups xs) ≡ count p xs
unfolding count sort_backups
count-sort p [] = refl
count-sort p (x ∷ xs) =
    unfold count in ground (arith, count-insert p x (sort_backups xs), count-sort p xs)

pub count-infos :
    (name : Text) (dir fs : List File)
    → count (is_named name) (infos dir fs) ≤ count (has_name name) fs
unfolding count infos
count-infos name dir [] = omega arith
count-infos name dir (f ∷ fs) = ground (arith, count-infos name dir fs)

listing-IsDistinct : (dir : List File) → IsDirectory dir → IsDistinct (listing dir)
unfolding listing
listing-IsDistinct dir d name =
    omega (arith, count-sort (is_named name) (infos dir dir), count-infos name dir dir, d name)

without-none :
    (name : Text) (bs : List BackupInfo) → count (is_named name) bs ≡ 0 → without name bs ≡ bs
unfolding without select count
without-none name [] e = refl
without-none name (b ∷ bs) e = ground (arith, without-none name bs)

without-append :
    (name : Text) (bs cs : List BackupInfo)
    → without name (bs ++ cs) ≡ without name bs ++ without name cs
unfolding without select
without-append name [] cs = refl
without-append name (b ∷ bs) cs = ground (arith, without-append name bs cs)

-- The loop of the trimming, on a listing.
unfoldable withdraw : (sticks : Text → Bool) → List BackupInfo → List BackupInfo → List BackupInfo
withdraw sticks [] xs = xs
withdraw sticks (b ∷ bs) xs =
    if sticks b.name then withdraw sticks bs xs else withdraw sticks bs (without b.name xs)

listing-trim_each :
    (sticks : Text → Bool) (bs : List BackupInfo) (dir : List File)
    → All (λ b. is_backup_name b.name ≡ true) bs
    → listing (trim_each sticks bs dir) ≡ withdraw sticks bs (listing dir)
unfolding trim_each withdraw
listing-trim_each sticks [] dir a = refl
listing-trim_each sticks (b ∷ bs) dir a =
    let gone = remove b.name dir in
    ground (
      arith,
      listing-trim_each sticks bs dir a.1,
      listing-trim_each sticks bs gone a.1,
      listing-trim_each sticks bs (remove (b.name ++ sha_suffix) gone) a.1,
      listing-remove b.name dir a.0,
      listing-remove_sidecar b.name dir,
    )

one_less :
    (kept : List BackupInfo) (b : BackupInfo) (bs : List BackupInfo)
    → IsDistinct (kept ++ b ∷ bs)
    → IsDistinct (kept ++ bs)
unfolding count
one_less kept b bs d name = ground (
  arith,
  d name,
  count-append (is_named name) kept (b ∷ bs),
  count-append (is_named name) kept bs,
)

without-one :
    (kept : List BackupInfo) (b : BackupInfo) (bs : List BackupInfo)
    → IsDistinct (kept ++ b ∷ bs)
    → without b.name (kept ++ b ∷ bs) ≡ kept ++ bs
unfolding count without select
without-one kept b bs d =
    let counted = count-append (is_named b.name) kept (b ∷ bs) in
    let same = text_eq_refl b.name in
    let once = d b.name in
    without-append b.name kept (b ∷ bs)
    ∙ ground (
      arith,
      same,
      without-none b.name kept (ground (arith, counted, same, once)),
      without-none b.name bs (ground (arith, counted, same, once)),
    )

withdraw_lem :
    (sticks : Text → Bool) (bs kept : List BackupInfo)
    → IsDistinct (kept ++ bs)
    → withdraw sticks bs (kept ++ bs) ≡ kept ++ select (λ b. sticks b.name) bs
unfolding withdraw select
withdraw_lem sticks [] kept d = refl
withdraw_lem sticks (b ∷ bs) kept d = elim (Bool-cases (sticks b.name)) [
  | inl stuck ↦ ground (
    arith,
    append_assoc kept (b ∷ []) bs,
    append_assoc kept (b ∷ []) (select (λ c. sticks c.name) bs),
    withdraw_lem sticks bs (kept ++ b ∷ [])
        (subst IsDistinct (sym (append_assoc kept (b ∷ []) bs)) d),
  )
  | inr gone ↦
      ground (arith, without-one kept b bs d, withdraw_lem sticks bs kept (one_less kept b bs d))
]

-- Trimming a directory that can be read succeeds, and leaves in the listing the newest `keep`
-- backups as they were, followed by the older ones that could not be removed.
pub trim_backups-listing :
    (sticks : Text → Bool) (keep : ℕ) (dir : List File)
    → IsDirectory dir
    → ((trim_backups false sticks keep dir).0 ≡ ok tt)
      × (listing (trim_backups false sticks keep dir).1
          ≡ take keep (listing dir) ++ select (λ b. sticks b.name) (drop keep (listing dir)))
unfolding trim_backups backups
trim_backups-listing sticks keep dir d =
    let found = listing dir in
    (
      refl,
      listing-trim_each sticks (drop keep found) dir (
            drop-All (λ b. is_backup_name b.name ≡ true) keep found
              (unfold listing in
                sort-All (λ b. is_backup_name b.name ≡ true) (infos dir dir) (infos-All dir dir)))
          ∙ ap (λ bs. withdraw sticks (drop keep found) bs) (sym (take-drop keep found))
          ∙ withdraw_lem sticks (drop keep found) (take keep found)
              (subst IsDistinct (sym (take-drop keep found)) (listing-IsDistinct dir d)),
    )
