-- ===== src/Database/Verify.antt =====
-- The verification of a backup (`Verify` and `checkSHA256` of internal/service/database.go). White
-- space of a sidecar is ASCII.
use touchgrass.Base.{
  ℕ, Bool, true, false, not, ◌&&◌, ◌||◌, ◌==◌, leb, if◌then◌else◌, Text, text_eq, is_empty, none,
  some, List, [], ◌∷◌, ◌++◌, find,
}
use touchgrass.Base.Results.{invalid_input, unconfigured, io, Result, ok, err}
use touchgrass.Database.Names.{is_backup_name}
use touchgrass.Database.Files.{File, sha_suffix, has_name, exists}

abbrev pub is_white : ℕ → Bool
is_white c = c == 32 || (leb 9 c && leb c 13)

-- What stands before the first space: `strings.Cut(raw, " ")`.
unfoldable pub before_space : Text → Text
before_space [] = []
before_space (c ∷ s) = if c == 32 then [] else c ∷ before_space s

unfoldable pub trim_front : Text → Text
trim_front [] = []
trim_front (c ∷ s) = let rest = trim_front s in if is_white c then rest else c ∷ s

unfoldable pub trim_back : Text → Text
unfolding is_empty
trim_back [] = []
trim_back (c ∷ s) = let rest = trim_back s in if is_empty rest && is_white c then [] else c ∷ rest

-- `checkSHA256`; `unreadable` is a file that is there and cannot be read.
unfoldable pub check_sha256 :
    (sha256 : Text → Text) → (unreadable : Text → Bool) → Text → List File → Result Bool
unfolding find before_space trim_front trim_back text_eq
check_sha256 sha256 unreadable name dir = elim (find (has_name (name ++ sha_suffix)) dir) [
  | none ↦ ok true
  | some sidecar ↦
      if sidecar.is_folder || unreadable (name ++ sha_suffix)
      then err io
      else elim (find (has_name name) dir) [
        | none ↦ err io
        | some f ↦
            if f.is_folder || unreadable name
            then err io
            else ok
                (text_eq (sha256 f.content) (trim_back (trim_front (before_space sidecar.content))))
      ]
]

-- `pg_restore --list` on the dump; a folder opens and cannot be read.
unfoldable pub list_dump : (accepts : Text → Bool) → Text → List File → Result Bool
unfolding find
list_dump accepts name dir = elim (find (has_name name) dir) [
  | none ↦ err io
  | some f ↦ if f.is_folder then ok false else ok (accepts f.content)
]

-- `Verify`
unfoldable pub verify :
    (sha256 : Text → Text)
    → (accepts : Text → Bool) → (has_container stat_fails : Bool) → (unreadable : Text → Bool)
    → Text
    → List File
    → Result Bool
unfolding is_backup_name exists check_sha256 list_dump
verify sha256 accepts has_container stat_fails unreadable name dir =
    if not (is_backup_name name)
    then err invalid_input
    else if not has_container
    then err unconfigured
    else if stat_fails
    then err io
    else if not (exists name dir)
    then err invalid_input
    else elim (check_sha256 sha256 unreadable name dir) [
      | err e ↦ err e
      | ok passed ↦
          if not passed
          then ok false
          else if unreadable name
          then err io
          else list_dump accepts name dir
    ]
