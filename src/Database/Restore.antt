-- ===== src/Database/Restore.antt =====
-- What a restore finds after its safety copy (`runRestore` of internal/service/database.go).
use touchgrass.Base.{
  ℕ, ◌≤◌, ◌≡◌, ◌↔◌, refl, ap, sym, subst, ◌∙◌, Bool, true, false, not, ◌&&◌, ◌||◌, Text, text_eq,
  text_eq_iff, none, some, List, [], ◌∷◌, ◌++◌, count, count-append, select, find, arith, inl, inr,
  Bool-cases, Option-cases,
}
use touchgrass.Base.Results.{ok}
use touchgrass.Database.Names.{is_backup_name}
use touchgrass.Database.Files.{
  File, BackupInfo, sha_suffix, has_name, exists, remove, infos, insert_backup, sort_backups,
  listing, drop, trim_each, trim_backups, backups, Dumping, dump_file, with_dump, write_file,
  run_backup, Server, Restoring, check_restore, restore_from, run_restore,
}
use touchgrass.Database.Trimming.{IsDirectory, is_named, count-infos, take, trim_backups-listing}

unfoldable pub is_listed : Text → List BackupInfo → Bool
is_listed name [] = false
is_listed name (b ∷ bs) = text_eq b.name name || is_listed name bs

-- A file of that name can be read.
unfoldable pub can_open : Text → List File → Bool
unfolding find
can_open name dir = elim (find (has_name name) dir) [ none ↦ false | some f ↦ not f.is_folder ]

is_listed-insert :
    (name : Text) (x : BackupInfo) (ys : List BackupInfo)
    → is_listed name (insert_backup x ys) ≡ is_listed name (x ∷ ys)
unfolding is_listed insert_backup
is_listed-insert name x [] = refl
is_listed-insert name x (y ∷ ys) = ground (arith, is_listed-insert name x ys)

is_listed-sort :
    (name : Text) (xs : List BackupInfo) → is_listed name (sort_backups xs) ≡ is_listed name xs
unfolding is_listed sort_backups
is_listed-sort name [] = refl
is_listed-sort name (x ∷ xs) =
    unfold is_listed in
    ground (arith, is_listed-insert name x (sort_backups xs), is_listed-sort name xs)

is_listed-count :
    (name : Text) (bs : List BackupInfo) → count (is_named name) bs ≡ 0 → is_listed name bs ≡ false
unfolding is_listed count
is_listed-count name [] e = refl
is_listed-count name (b ∷ bs) e = ground (arith, is_listed-count name bs)

is_listed-infos :
    (name : Text) (dir fs : List File)
    → is_backup_name name ≡ true
    → count (has_name name) fs ≤ 1
    → is_listed name (infos dir fs) ≡ can_open name fs
unfolding is_listed infos can_open find count
is_listed-infos name dir [] b d = refl
is_listed-infos name dir (f ∷ fs) b d = elim (Bool-cases (text_eq f.name name)) [
  | inl same ↦
      let none_left : count (is_named name) (infos dir fs) ≡ 0 =
        unfold count in ground (arith, count-infos name dir fs) in
      ground (arith, text_eq_iff f.name name, is_listed-count name (infos dir fs) none_left)
  | inr other ↦ ground (arith, is_listed-infos name dir fs b)
]

pub is_listed-listing :
    (name : Text) (dir : List File)
    → is_backup_name name ≡ true
    → IsDirectory dir
    → is_listed name (listing dir) ≡ can_open name dir
unfolding listing
is_listed-listing name dir b d =
    is_listed-sort name (infos dir dir) ∙ is_listed-infos name dir dir b (d name)

count-remove :
    (name m : Text) (dir : List File)
    → count (has_name name) (remove m dir) ≤ count (has_name name) dir
unfolding count remove select
count-remove name m [] = omega arith
count-remove name m (f ∷ fs) = ground (arith, count-remove name m fs)

removed-none : (m : Text) (dir : List File) → count (has_name m) (remove m dir) ≡ 0
unfolding count remove select
removed-none m [] = refl
removed-none m (f ∷ fs) = ground (arith, removed-none m fs)

exists-count :
    (name : Text) (dir : List File) → exists name dir ≡ false → count (has_name name) dir ≡ 0
unfolding exists count
exists-count name [] e = refl
exists-count name (f ∷ fs) e = ground (arith, exists-count name fs)

added-IsDirectory :
    (f : File) (dir : List File)
    → count (has_name f.name) dir ≡ 0
    → IsDirectory dir
    → IsDirectory (dir ++ f ∷ [])
added-IsDirectory f dir e d name =
    unfold count in
    ground (arith, d name, count-append (has_name name) dir (f ∷ []), text_eq_iff f.name name)

with_dump-IsDirectory :
    (sha256 : Text → Text) (w : Dumping) (name : Text) (dir : List File)
    → exists name dir ≡ false
    → IsDirectory dir
    → IsDirectory (with_dump sha256 w name dir)
unfolding with_dump write_file
with_dump-IsDirectory sha256 w name dir e d =
    let sidecar = name ++ sha_suffix in
    let added = added-IsDirectory (dump_file w name) dir (exists-count name dir e) d in
    added-IsDirectory _ (remove sidecar (dir ++ dump_file w name ∷ []))
      (removed-none sidecar (dir ++ dump_file w name ∷ []))
      (λ n. omega (arith, added n, count-remove n sidecar (dir ++ dump_file w name ∷ [])))

trim_each-IsDirectory :
    (sticks : Text → Bool) (bs : List BackupInfo) (dir : List File)
    → IsDirectory dir
    → IsDirectory (trim_each sticks bs dir)
unfolding trim_each
trim_each-IsDirectory sticks [] dir d name = d name
trim_each-IsDirectory sticks (b ∷ bs) dir d name =
    let gone = remove b.name dir in
    let sidecar = b.name ++ sha_suffix in
    let less : IsDirectory gone = λ n. omega (arith, d n, count-remove n b.name dir) in
    ground (
      arith,
      trim_each-IsDirectory sticks bs dir d name,
      trim_each-IsDirectory sticks bs gone less name,
      trim_each-IsDirectory sticks bs (remove sidecar gone)
          (λ n. omega (arith, less n, count-remove n sidecar gone)) name,
    )

-- No step of a backup fails, and its name is not taken.
abbrev pub is_smooth_dump : Dumping → Text → List File → Bool
is_smooth_dump w name dir =
    not w.create_fails
    && (not (exists name dir)
        && (not w.dump_fails
            && (not w.close_fails
                && (not w.sidecar_fails && (not w.stat_fails && not w.unreadable)))))

-- The same of a safety copy, and neither the termination of sessions nor `pg_restore` fails.
abbrev pub is_smooth : Restoring → List File → Bool
is_smooth w dir =
    is_smooth_dump w.safety w.safety_name dir && (not w.terminate_fails && not w.restore_fails)

-- The backups that are there once another one is made: the newest `keep`, and the older ones that
-- could not be removed.
unfoldable pub survivors : (sha256 : Text → Text) → ℕ → Dumping → Text → List File → List BackupInfo
unfolding take drop select
survivors sha256 keep w name dir =
    let found = listing (with_dump sha256 w name dir) in
    take keep found ++ select (λ b. w.sticks b.name) (drop keep found)

restore_from-can_open :
    (w : Restoring) (name : Text) (s : Server)
    → w.terminate_fails ≡ false
    → w.restore_fails ≡ false
    → check_restore w name ≡ ok name
    → ((restore_from w name s).1.terminated ≡ true)
      × ((restore_from w name s).1.dir ≡ s.dir)
      × (((restore_from w name s).0 ≡ ok name) ↔ (can_open name s.dir ≡ true))
unfolding restore_from can_open
restore_from-can_open w name s t r c = elim (Option-cases (find (has_name name) s.dir)) [
  | inl f ↦ (ground arith, ground arith, (λ x. ground arith, λ x. ground arith))
  | inr (file, f) ↦ (ground arith, ground arith, (λ x. ground arith, λ x. ground arith))
]

-- A smooth backup is made, and the trimming after it runs.
pub run_backup-smooth :
    (sha256 : Text → Text) (keep : ℕ) (w : Dumping) (name : Text) (dir : List File)
    → IsDirectory dir
    → is_smooth_dump w name dir ≡ true
    → (run_backup sha256 keep w name dir
        ≡ (ok name, (trim_backups false w.sticks keep (with_dump sha256 w name dir)).1))
      × (listing (run_backup sha256 keep w name dir).1 ≡ survivors sha256 keep w name dir)
      × IsDirectory (run_backup sha256 keep w name dir).1
unfolding run_backup survivors
run_backup-smooth sha256 keep w name dir d e =
    let written = with_dump sha256 w name dir in
    let made : IsDirectory written = with_dump-IsDirectory sha256 w name dir (ground arith) d in
    let trimmed = trim_backups-listing w.sticks keep written made in
    let same : run_backup sha256 keep w name dir
        ≡ (ok name, (trim_backups false w.sticks keep written).1) =
      unfold run_backup in ground (arith, trimmed.0) in
    let still : IsDirectory (trim_backups false w.sticks keep written).1 =
      unfold trim_backups backups in
      trim_each-IsDirectory w.sticks (drop keep (listing written)) written made in
    (same, ap (λ p. listing p.1) same ∙ trimmed.1, subst (λ p. IsDirectory p.1) (sym same) still)

-- A restore in which the safety copy, the queries and `pg_restore` all work ends the other sessions
-- of the database, and succeeds exactly when the requested backup is still there once the safety
-- copy is made: among the newest `keep` then, or an older one that could not be removed. A backup
-- that is not among them is gone from the directory.
pub run_restore_iff :
    (sha256 : Text → Text) (keep : ℕ) (w : Restoring) (name : Text) (s : Server)
    → IsDirectory s.dir
    → is_backup_name name ≡ true
    → is_smooth w s.dir ≡ true
    → check_restore w name ≡ ok name
    → ((run_restore sha256 keep w name s).1.terminated ≡ true)
      × (((run_restore sha256 keep w name s).0 ≡ ok name)
          ↔ (is_listed name (survivors sha256 keep w.safety w.safety_name s.dir) ≡ true))
      × (can_open name (run_restore sha256 keep w name s).1.dir
          ≡ is_listed name (survivors sha256 keep w.safety w.safety_name s.dir))
unfolding run_restore
run_restore_iff sha256 keep w name s d b e c =
    let copied = run_backup-smooth sha256 keep w.safety w.safety_name s.dir d (ground arith) in
    let dir : List File = (run_backup sha256 keep w.safety w.safety_name s.dir).1 in
    let restored =
      restore_from-can_open w name (record s { dir = dir }) (ground arith) (ground arith) c in
    let here : is_listed name (survivors sha256 keep w.safety w.safety_name s.dir)
        ≡ can_open name dir =
      ap (is_listed name) (sym copied.1) ∙ is_listed-listing name dir b copied.2 in
    ground (arith, ap (λ p. p.0) copied.0, restored, here)
