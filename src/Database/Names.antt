-- ===== src/Database/Names.antt =====
-- The names of backups (`validateBackupName`, `backupFileName`, `safetyFileName`, `sanitizeName` of
-- internal/service/database.go). A stamp is the time in the format `20060102T150405Z`.
use touchgrass.Base.{
  ℕ, Bool, true, false, ◌&&◌, ◌||◌, ◌==◌, leb, if◌then◌else◌, Text, bytes, text_eq, [], ◌∷◌, ◌++◌,
}
use touchgrass.Base.Results.{invalid_input, Result, ok, err}

-- `[A-Za-z0-9_.-]`
abbrev pub is_name_char : ℕ → Bool
is_name_char c =
    (leb b'A' c && leb c b'Z')
    || ((leb b'a' c && leb c b'z')
        || ((leb b'0' c && leb c b'9') || (c == b'_' || (c == b'.' || c == b'-'))))

-- `[A-Za-z0-9_.-]*\.dump$` from here on.
unfoldable pub ends_in_dump : Text → Bool
unfolding text_eq
ends_in_dump [] = false
ends_in_dump (c ∷ s) =
    let rest = ends_in_dump s in text_eq (c ∷ s) (bytes ".dump") || (is_name_char c && rest)

-- `backupNameRe.MatchString`: `^[A-Za-z0-9_.-]+\.dump$`.
unfoldable pub is_backup_name : Text → Bool
unfolding ends_in_dump
is_backup_name [] = false
is_backup_name (c ∷ s) = is_name_char c && ends_in_dump s

-- `validateBackupName`
unfoldable pub validate_backup_name : Text → Result (Unit {0})
unfolding is_backup_name
validate_backup_name name = if is_backup_name name then ok tt else err invalid_input

-- `sanitizeName`: a run of hostile runes becomes one underscore; `inside` is within such a run. All
-- bytes of a rune of several bytes are hostile.
unfoldable pub sanitize_from : (inside : Bool) → Text → Text
sanitize_from inside [] = []
sanitize_from inside (c ∷ s) =
    if is_name_char c
    then c ∷ sanitize_from false s
    else if inside
    then sanitize_from true s
    else b'_' ∷ sanitize_from true s

abbrev pub sanitize_name : Text → Text
sanitize_name name = sanitize_from false name

-- `backupFileName`
unfoldable pub backup_file_name : Text → Text → Text
backup_file_name db_name stamp = sanitize_name db_name ++ (bytes "-" ++ (stamp ++ bytes ".dump"))

-- `safetyFileName`
unfoldable pub safety_file_name : Text → Text → Text
safety_file_name db_name stamp =
    sanitize_name db_name ++ (bytes "-pre-restore-" ++ (stamp ++ bytes ".dump"))
