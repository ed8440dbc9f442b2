-- ===== src/Database/Removal.antt =====
-- The removal of a backup and of its sidecar, in the listing (`trimBackups` of
-- internal/service/database.go).
use touchgrass.Base.{
  ℕ, ◌≡◌, refl, ap, sym, ◌∙◌, true, false, Text, bytes, text_eq, text_eq_iff, text_eq-eq, List, [],
  ◌∷◌, ◌++◌, length, length-append, select, arith, inl, inr, Bool-cases,
}
use touchgrass.Database.Names.{ends_in_dump, is_backup_name}
use touchgrass.Database.Files.{File, sha_suffix, exists, remove, infos, sort_backups, listing}
use touchgrass.Database.Listing.{without, without-sort}

abbrev last : Text → ℕ
last [] = 0
last (c ∷ []) = c
last (c ∷ d ∷ s) = last (d ∷ s)

ends_in_dump-last : (t : Text) → ends_in_dump t ≡ true → last t ≡ b'p'
unfolding ends_in_dump
ends_in_dump-last [] e = ground arith
ends_in_dump-last (c ∷ []) e = unfold text_eq in ground arith
ends_in_dump-last (c ∷ d ∷ s) e = elim (Bool-cases (text_eq (c ∷ d ∷ s) (bytes ".dump"))) [
  | inl dump ↦ ap last (text_eq-eq (c ∷ d ∷ s) (bytes ".dump") dump)
  | inr longer ↦ ends_in_dump-last (d ∷ s) (ground arith)
]

sidecar-last : (s : Text) → last (s ++ sha_suffix) ≡ b'6'
sidecar-last [] = refl
sidecar-last (c ∷ []) = refl
sidecar-last (c ∷ d ∷ s) = sidecar-last (d ∷ s)

ends_in_dump-sidecar : (s : Text) → ends_in_dump (s ++ sha_suffix) ≡ false
ends_in_dump-sidecar s = elim (Bool-cases (ends_in_dump (s ++ sha_suffix))) [
  | inl dump ↦ ground (arith, ends_in_dump-last (s ++ sha_suffix) dump, sidecar-last s)
  | inr sidecar ↦ sidecar
]

-- A sidecar is never a backup.
pub is_backup_name-sidecar : (s : Text) → is_backup_name (s ++ sha_suffix) ≡ false
unfolding is_backup_name
is_backup_name-sidecar [] = unfold ends_in_dump text_eq in refl
is_backup_name-sidecar (c ∷ s) = ground (arith, ends_in_dump-sidecar s)

append_cancel : (s t u : Text) → s ++ u ≡ t ++ u → s ≡ t
append_cancel [] [] u e = refl
append_cancel [] (d ∷ t) u e = absurd (omega (arith, ap length e, length-append (d ∷ t) u))
append_cancel (c ∷ s) [] u e = absurd (omega (arith, ap length e, length-append (c ∷ s) u))
append_cancel (c ∷ s) (d ∷ t) u e = ground (arith, append_cancel s t u)

pub exists-remove :
    (m name : Text) (dir : List File)
    → text_eq m name ≡ false
    → exists name (remove m dir) ≡ exists name dir
unfolding exists remove select
exists-remove m name [] e = refl
exists-remove m name (f ∷ fs) e = elim (Bool-cases (text_eq f.name m)) [
  | inl same ↦ ground (
    arith,
    exists-remove m name fs e,
    text_eq_iff f.name m,
    text_eq_iff f.name name,
    text_eq_iff m name,
  )
  | inr other ↦ ground (arith, exists-remove m name fs e)
]

pub not_sidecar :
    (name s : Text) → is_backup_name name ≡ true → text_eq name (s ++ sha_suffix) ≡ false
not_sidecar name s b = elim (Bool-cases (text_eq name (s ++ sha_suffix))) [
  | inl same ↦ absurd (ground (arith, is_backup_name-sidecar s, text_eq_iff name (s ++ sha_suffix)))
  | inr other ↦ other
]

infos-remove :
    (name : Text) (dir fs : List File)
    → is_backup_name name ≡ true
    → infos (remove name dir) (remove name fs) ≡ without name (infos dir fs)
unfolding infos remove without select
infos-remove name dir [] b = refl
infos-remove name dir (f ∷ fs) b =
    unfold remove in
    ground (
      arith,
      infos-remove name dir fs b,
      exists-remove name (f.name ++ sha_suffix) dir (not_sidecar name f.name b),
    )

-- Removing a backup takes it out of the listing, and nothing else.
pub listing-remove :
    (name : Text) (dir : List File)
    → is_backup_name name ≡ true
    → listing (remove name dir) ≡ without name (listing dir)
unfolding listing
listing-remove name dir b =
    ap sort_backups (infos-remove name dir dir b) ∙ sym (without-sort name (infos dir dir))

sidecars_apart :
    (s t : Text) → text_eq s t ≡ false → text_eq (s ++ sha_suffix) (t ++ sha_suffix) ≡ false
sidecars_apart s t e = elim (Bool-cases (text_eq (s ++ sha_suffix) (t ++ sha_suffix))) [
  | inl same ↦ absurd (
      ground (
        arith,
        append_cancel s t sha_suffix (text_eq-eq (s ++ sha_suffix) (t ++ sha_suffix) same),
        text_eq_iff s t,
      ))
  | inr other ↦ other
]

infos-remove_sidecar :
    (name : Text) (dir fs : List File)
    → infos (remove (name ++ sha_suffix) dir) (remove (name ++ sha_suffix) (remove name fs))
      ≡ infos dir (remove name fs)
unfolding infos remove select
infos-remove_sidecar name dir [] = refl
infos-remove_sidecar name dir (f ∷ fs) = elim (Bool-cases (text_eq f.name name)) [
  | inl same ↦ ground (arith, infos-remove_sidecar name dir fs)
  | inr other ↦ elim (Bool-cases (text_eq f.name (name ++ sha_suffix))) [
    | inl sidecar ↦ ground (
      arith,
      infos-remove_sidecar name dir fs,
      is_backup_name-sidecar name,
      text_eq_iff f.name (name ++ sha_suffix),
    )
    | inr file ↦
        unfold remove in
        ground (
          arith,
          infos-remove_sidecar name dir fs,
          exists-remove (name ++ sha_suffix) (f.name ++ sha_suffix) dir (
              sidecars_apart name f.name
                (ground (arith, text_eq_iff f.name name, text_eq_iff name f.name))),
        )
  ]
]

pub listing-remove_sidecar :
    (name : Text) (dir : List File)
    → listing (remove (name ++ sha_suffix) (remove name dir)) ≡ listing (remove name dir)
unfolding listing
listing-remove_sidecar name dir = ap sort_backups (infos-remove_sidecar name (remove name dir) dir)
