-- ===== src/Database/Shapes.antt =====
-- The shape of backup names (internal/service/database.go).
use touchgrass.Base.{
  ◌≡◌, refl, Bool, true, false, Text, bytes, text_eq, text_eq-eq, sym, subst, [], ◌∷◌, ◌++◌, All,
  arith, inl, inr, Bool-cases,
}
use touchgrass.Base.Results.{ok}
use touchgrass.Database.Names.{
  is_name_char, ends_in_dump, is_backup_name, validate_backup_name, sanitize_from, sanitize_name,
  backup_file_name, safety_file_name,
}

ends_in_dump-All : (s : Text) → ends_in_dump s ≡ true → All (λ c. is_name_char c ≡ true) s
unfolding ends_in_dump
ends_in_dump-All [] e = tt
ends_in_dump-All (c ∷ s) e = elim (Bool-cases (text_eq (c ∷ s) (bytes ".dump"))) [
  | inl dump ↦
      subst (λ t. All (λ d. is_name_char d ≡ true) t)
        (sym (text_eq-eq (c ∷ s) (bytes ".dump") dump)) (refl, (refl, (refl, (refl, (refl, tt)))))
  | inr longer ↦ (ground arith, ends_in_dump-All s (ground arith))
]

append-ends_in_dump :
    (s t : Text)
    → All (λ c. is_name_char c ≡ true) s
    → ends_in_dump t ≡ true
    → ends_in_dump (s ++ t) ≡ true
unfolding ends_in_dump
append-ends_in_dump [] t a e = e
append-ends_in_dump (c ∷ s) t a e = ground (arith, a.0, append-ends_in_dump s t a.1 e)

sanitize_from-All :
    (inside : Bool) (s : Text) → All (λ c. is_name_char c ≡ true) (sanitize_from inside s)
unfolding sanitize_from
sanitize_from-All inside [] = tt
sanitize_from-All true (c ∷ s) = elim (Bool-cases (is_name_char c)) [
  | inl good ↦ rw good (good, sanitize_from-All false s)
  | inr bad ↦ rw bad (sanitize_from-All true s)
]
sanitize_from-All false (c ∷ s) = elim (Bool-cases (is_name_char c)) [
  | inl good ↦ rw good (good, sanitize_from-All false s)
  | inr bad ↦ rw bad (refl, sanitize_from-All true s)
]

is_backup_name-All :
    (name : Text) → is_backup_name name ≡ true → All (λ c. is_name_char c ≡ true) name
unfolding is_backup_name
is_backup_name-All [] e = tt
is_backup_name-All (c ∷ s) e = (ground arith, ends_in_dump-All s (ground arith))

append-is_backup_name :
    (s t : Text)
    → All (λ c. is_name_char c ≡ true) s
    → is_backup_name t ≡ true
    → is_backup_name (s ++ t) ≡ true
unfolding is_backup_name
append-is_backup_name [] t a e = e
append-is_backup_name (c ∷ s) [] a e = ground arith
append-is_backup_name (c ∷ s) (d ∷ u) a e =
    ground (arith, a.0, append-ends_in_dump s (d ∷ u) a.1 (unfold ends_in_dump in ground arith))

stamped :
    (mark stamp : Text)
    → All (λ c. is_name_char c ≡ true) mark
    → All (λ c. is_name_char c ≡ true) stamp
    → is_backup_name (b'-' ∷ (mark ++ (stamp ++ bytes ".dump"))) ≡ true
unfolding is_backup_name
stamped mark stamp m a =
    append-ends_in_dump mark (stamp ++ bytes ".dump") m
      (append-ends_in_dump stamp (bytes ".dump") a (unfold ends_in_dump text_eq in refl))

-- The names that a backup and a safety copy get, for any database name and a stamp of name
-- characters, pass the validation of names. A name that passes it has only name
-- characters.
pub validate_backup_name-generated :
    (db_name stamp name : Text)
    → All (λ c. is_name_char c ≡ true) stamp
    → validate_backup_name name ≡ ok tt
    → (validate_backup_name (backup_file_name db_name stamp) ≡ ok tt)
      × (validate_backup_name (safety_file_name db_name stamp) ≡ ok tt)
      × All (λ c. is_name_char c ≡ true) name
unfolding validate_backup_name backup_file_name safety_file_name
validate_backup_name-generated db_name stamp name a e = (
  rw
      (append-is_backup_name (sanitize_name db_name) (b'-' ∷ (stamp ++ bytes ".dump"))
        (sanitize_from-All false db_name) (stamped [] stamp tt a))
      refl,
  rw
      (append-is_backup_name (sanitize_name db_name)
        (b'-' ∷ (bytes "pre-restore-" ++ (stamp ++ bytes ".dump")))
        (sanitize_from-All false db_name)
        (stamped (bytes "pre-restore-") stamp
          (
            refl,
            (
              refl,
              (refl, (refl, (refl, (refl, (refl, (refl, (refl, (refl, (refl, (refl, tt)))))))))),
            ),
          )
          a))
      refl,
  is_backup_name-All name (ground arith),
)
