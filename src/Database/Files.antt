-- ===== src/Database/Files.antt =====
-- The backup directory (`Backups`, `runBackup`, `trimBackups`, `writeSHA256`, `checkSHA256`,
-- `Verify` and `runRestore` of internal/service/database.go). A directory is the list of its
-- entries; one that is missing stands as an empty one, which the code treats alike.
use touchgrass.Base.{
  ℕ, zero, suc, Bool, true, false, not, ◌&&◌, ◌||◌, ◌==◌, ltb, if◌then◌else◌, Text, bytes, text_eq,
  Option, none, some, List, [], ◌∷◌, ◌++◌, length, select, find,
}
use touchgrass.Base.Results.{io, Result, ok, err, Method}
use touchgrass.Database.Names.{is_backup_name}

pub record File : Type 0 where
  pub name : Text
  pub is_folder : Bool
  pub content : Text
  pub modified : ℕ

-- `BackupInfo`; `has_sha` is the state of the sidecar.
pub record BackupInfo : Type 0 where
  pub name : Text
  pub size : ℕ
  pub created_at : ℕ
  pub has_sha : Bool

abbrev pub sha_suffix : Text
sha_suffix = bytes ".sha256"

abbrev pub has_name : Text → File → Bool
has_name name f = text_eq f.name name

-- `os.Stat`
unfoldable pub exists : Text → List File → Bool
exists name [] = false
exists name (f ∷ fs) = has_name name f || exists name fs

-- `os.Remove`
unfoldable pub remove : Text → List File → List File
unfolding select
remove name dir = select (λ f. not (has_name name f)) dir

-- The loop of `Backups` over the entries of the directory.
unfoldable pub infos : List File → List File → List BackupInfo
unfolding is_backup_name exists
infos dir [] = []
infos dir (f ∷ fs) =
    let rest = infos dir fs in
    if f.is_folder || not (is_backup_name f.name)
    then rest
    else record {
      name = f.name;
      size = length f.content;
      created_at = f.modified;
      has_sha = exists (f.name ++ sha_suffix) dir;
    }
      ∷ rest

-- `strings.Compare(s, t) <= 0`
unfoldable pub text_leb : Text → Text → Bool
text_leb [] t = true
text_leb (c ∷ s) [] = false
text_leb (c ∷ s) (d ∷ t) = ltb c d || (c == d && text_leb s t)

-- Newest first, then by name, backwards.
unfoldable pub comes_before : BackupInfo → BackupInfo → Bool
unfolding text_leb
comes_before a b =
    ltb b.created_at a.created_at || (a.created_at == b.created_at && text_leb b.name a.name)

-- `slices.SortFunc`
unfoldable pub insert_backup : BackupInfo → List BackupInfo → List BackupInfo
unfolding comes_before
insert_backup x [] = x ∷ []
insert_backup x (y ∷ ys) =
    let rest = insert_backup x ys in if comes_before x y then x ∷ y ∷ ys else y ∷ rest

unfoldable pub sort_backups : List BackupInfo → List BackupInfo
sort_backups [] = []
sort_backups (x ∷ xs) = insert_backup x (sort_backups xs)

-- What the entries of a directory that could be read and statted give.
unfoldable pub listing : List File → List BackupInfo
unfolding infos sort_backups
listing dir = sort_backups (infos dir dir)

-- `Backups`; `unreadable` is a directory or an entry that cannot be read.
unfoldable pub backups : (unreadable : Bool) → List File → Result (List BackupInfo)
backups true dir = err io
backups false dir = ok (listing dir)

unfoldable pub drop {ℓ} : {A : Type ℓ} → ℕ → List A → List A
drop zero xs = xs
drop (suc n) [] = []
drop (suc n) (x ∷ xs) = drop n xs

-- The loop of `trimBackups`; `sticks` is a name that cannot be removed.
unfoldable pub trim_each : (sticks : Text → Bool) → List BackupInfo → List File → List File
unfolding remove
trim_each sticks [] dir = dir
trim_each sticks (b ∷ bs) dir =
    if sticks b.name
    then trim_each sticks bs dir
    else if sticks (b.name ++ sha_suffix)
    then trim_each sticks bs (remove b.name dir)
    else trim_each sticks bs (remove (b.name ++ sha_suffix) (remove b.name dir))

-- `trimBackups`
unfoldable pub trim_backups :
    (unreadable : Bool) → (sticks : Text → Bool) → ℕ → Method (List File) (Unit {0})
unfolding backups drop trim_each
trim_backups unreadable sticks keep dir = elim (backups unreadable dir) [
  | err e ↦ (err e, dir)
  | ok found ↦ (ok tt, trim_each sticks (drop keep found) dir)
]

-- What the outside does to a backup: the bytes that `pg_dump` writes, the file's time, which steps
-- fail, and which names cannot be removed.
pub record Dumping : Type 0 where
  pub dump : Text
  pub modified : ℕ
  pub create_fails : Bool
  pub dump_fails : Bool
  pub close_fails : Bool
  pub sidecar_fails : Bool
  pub stat_fails : Bool
  pub unreadable : Bool
  pub sticks : Text → Bool

-- The sidecar's text, over the hexadecimal SHA-256 of the file.
abbrev pub sidecar_of : (Text → Text) → Text → Text → Text
sidecar_of sha256 name content = sha256 content ++ (bytes "  " ++ (name ++ bytes "\n"))

-- `os.WriteFile`: an existing file is overwritten.
unfoldable pub write_file : File → List File → List File
write_file f dir = remove f.name dir ++ f ∷ []

-- The file that `runBackup` creates, and the directory with it and its sidecar.
abbrev pub dump_file : Dumping → Text → File
dump_file w name = record {
  name = name;
  is_folder = false;
  content = w.dump;
  modified = w.modified;
}

unfoldable pub with_dump : (sha256 : Text → Text) → Dumping → Text → List File → List File
unfolding write_file
with_dump sha256 w name dir =
    write_file
      (record {
        name = name ++ sha_suffix;
        is_folder = false;
        content = sidecar_of sha256 name w.dump;
        modified = w.modified;
      })
      (dir ++ dump_file w name ∷ [])

-- `runBackup`; a sidecar that cannot be written leaves nothing of itself.
unfoldable pub run_backup : (sha256 : Text → Text) → ℕ → Dumping → Text → Method (List File) Text
unfolding exists with_dump trim_backups
run_backup sha256 keep w name dir =
    let written = with_dump sha256 w name dir in
    let (trim, trimmed) = trim_backups w.unreadable w.sticks keep written in
    if w.create_fails || exists name dir
    then (err io, dir)
    else if w.dump_fails || (w.close_fails || w.sidecar_fails)
    then (err io, if w.sticks name then dir ++ dump_file w name ∷ [] else dir)
    else if w.stat_fails
    then (err io, written)
    else elim trim [ err e ↦ (err e, trimmed) | ok _ ↦ (ok name, trimmed) ]

-- What a restore acts on: the directory, the sessions of the database, the dump loaded into it.
pub record Server : Type 0 where
  pub dir : List File
  pub terminated : Bool
  pub loaded : Option Text

-- The outside of a restore: the safety copy, and which of the queries and of `pg_restore` fail;
-- `select_one` is the answer to `SELECT 1`, `counts` whether the tables can be counted.
pub record Restoring : Type 0 where
  pub safety : Dumping
  pub safety_name : Text
  pub terminate_fails : Bool
  pub restore_fails : Bool
  pub select_one : Option Text
  pub counts : Bool

-- The queries after `pg_restore`.
unfoldable pub check_restore : Restoring → Text → Result Text
unfolding text_eq
check_restore w name = elim w.select_one [
  | none ↦ err io
  | some one ↦
      if not (text_eq one (bytes "1")) then err io else if w.counts then ok name else err io
]

-- `runRestore`, after its safety copy.
unfoldable pub restore_from : Restoring → Text → Method Server Text
unfolding find check_restore
restore_from w name s =
    if w.terminate_fails then (err io, s) else elim (find (has_name name) s.dir) [
      | none ↦ (err io, record s { terminated = true })
      | some f ↦
          let fed = record s { terminated = true; loaded = some f.content } in
          if f.is_folder
          then (err io, record s { terminated = true })
          else if w.restore_fails
          then (err io, fed)
          else (check_restore w name, fed)
    ]

-- `runRestore`
unfoldable pub run_restore : (sha256 : Text → Text) → ℕ → Restoring → Text → Method Server Text
unfolding run_backup restore_from
run_restore sha256 keep w name s =
    let (copy, dir) = run_backup sha256 keep w.safety w.safety_name s.dir in
    elim copy [
      | err e ↦ (err e, record s { dir = dir })
      | ok _ ↦ restore_from w name (record s { dir = dir })
    ]
