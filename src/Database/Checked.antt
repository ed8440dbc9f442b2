-- ===== src/Database/Checked.antt =====
-- A backup that was just made passes its verification (`runBackup`, `writeSHA256` and `Verify` of
-- internal/service/database.go).
use touchgrass.Base.{
  ℕ, ◌≡◌, ◌⊎◌, refl, ap, sym, subst, ◌∙◌, inl, inr, Bool, true, false, Text, text_eq, text_eq_iff,
  text_eq_refl, none, some, List, [], ◌∷◌, ◌++◌, select, find, All, arith,
}
use touchgrass.Base.Results.{ok}
use touchgrass.Database.Names.{is_backup_name}
use touchgrass.Database.Files.{
  File, BackupInfo, sha_suffix, has_name, exists, remove, listing, drop, trim_each, trim_backups,
  backups, Dumping, sidecar_of, write_file, dump_file, with_dump, run_backup,
}
use touchgrass.Database.Removal.{not_sidecar}
use touchgrass.Database.Restore.{
  can_open, is_listed, is_listed-listing, is_smooth_dump, survivors, run_backup-smooth,
}
use touchgrass.Database.Trimming.{IsDirectory}
use touchgrass.Database.Verify.{
  is_white, before_space, trim_front, trim_back, check_sha256, list_dump, verify,
}

find_removed : (m : Text) (dir : List File) → find (has_name m) (remove m dir) ≡ none
unfolding find remove select
find_removed m [] = refl
find_removed m (f ∷ fs) = ground (arith, find_removed m fs)

find-remove :
    (name m : Text) (dir : List File)
    → (find (has_name name) (remove m dir) ≡ none)
      ⊎ (find (has_name name) (remove m dir) ≡ find (has_name name) dir)
unfolding find remove select
find-remove name m [] = inl refl
find-remove name m (f ∷ fs) =
    ground (
      arith,
      find-remove name m fs,
      text_eq_iff f.name m,
      text_eq_iff f.name name,
      find_removed m fs,
    )

find-trim_each :
    (sticks : Text → Bool) (name : Text) (bs : List BackupInfo) (dir : List File)
    → (find (has_name name) (trim_each sticks bs dir) ≡ none)
      ⊎ (find (has_name name) (trim_each sticks bs dir) ≡ find (has_name name) dir)
unfolding trim_each
find-trim_each sticks name [] dir = inr refl
find-trim_each sticks name (b ∷ bs) dir =
    let gone = remove b.name dir in
    let sidecar = b.name ++ sha_suffix in
    ground (
      arith,
      find-trim_each sticks name bs dir,
      find-trim_each sticks name bs gone,
      find-trim_each sticks name bs (remove sidecar gone),
      find-remove name b.name dir,
      find-remove name sidecar gone,
    )

find-last :
    (name : Text) (dir : List File) (f : File)
    → exists name dir ≡ false
    → text_eq f.name name ≡ true
    → find (has_name name) (dir ++ f ∷ []) ≡ some f
unfolding find exists
find-last name [] f e s = ground arith
find-last name (g ∷ gs) f e s = ground (arith, find-last name gs f)

find-first :
    (name : Text) (dir : List File) (f g : File)
    → find (has_name name) dir ≡ some g
    → find (has_name name) (dir ++ f ∷ []) ≡ some g
unfolding find
find-first name [] f g e = absurd (ground arith)
find-first name (x ∷ xs) f g e = ground (arith, find-first name xs f g)

find-remove_other :
    (name m : Text) (dir : List File)
    → text_eq m name ≡ false
    → find (has_name name) (remove m dir) ≡ find (has_name name) dir
unfolding find remove select
find-remove_other name m [] e = refl
find-remove_other name m (f ∷ fs) e = ground (
  arith,
  find-remove_other name m fs e,
  text_eq_iff f.name m,
  text_eq_iff f.name name,
  text_eq_iff m name,
)

exists-removed : (m : Text) (dir : List File) → exists m (remove m dir) ≡ false
unfolding exists remove select
exists-removed m [] = refl
exists-removed m (f ∷ fs) = ground (arith, exists-removed m fs)

sidecar_file : (Text → Text) → Dumping → Text → File
sidecar_file sha256 w name = record {
  name = name ++ sha_suffix;
  is_folder = false;
  content = sidecar_of sha256 name w.dump;
  modified = w.modified;
}

-- The files that a backup writes are found again before the trimming.
find-with_dump :
    (sha256 : Text → Text) (w : Dumping) (name : Text) (dir : List File)
    → is_backup_name name ≡ true
    → exists name dir ≡ false
    → (find (has_name name) (with_dump sha256 w name dir) ≡ some (dump_file w name))
      × (find (has_name (name ++ sha_suffix)) (with_dump sha256 w name dir)
          ≡ some (sidecar_file sha256 w name))
unfolding with_dump write_file sidecar_file
find-with_dump sha256 w name dir b e =
    let made = dir ++ dump_file w name ∷ [] in
    let sidecar = name ++ sha_suffix in
    let apart : text_eq sidecar name ≡ false =
      ground (arith, not_sidecar name name b, text_eq_iff sidecar name, text_eq_iff name sidecar) in
    (
      find-first name (remove sidecar made) (sidecar_file sha256 w name) (dump_file w name) (
          find-remove_other name sidecar made apart
          ∙ find-last name dir (dump_file w name) e (text_eq_refl name)),
      find-last sidecar (remove sidecar made) (sidecar_file sha256 w name)
          (exists-removed sidecar made) (text_eq_refl sidecar),
    )

before_space_lem : (h t : Text) → All (λ c. is_white c ≡ false) h → before_space (h ++ 32 ∷ t) ≡ h
unfolding before_space
before_space_lem [] t a = refl
before_space_lem (c ∷ s) t a = ground (arith, a.0, before_space_lem s t a.1)

trim_front_lem : (h : Text) → All (λ c. is_white c ≡ false) h → trim_front h ≡ h
unfolding trim_front
trim_front_lem [] a = refl
trim_front_lem (c ∷ s) a = ground (arith, a.0)

trim_back_lem : (h : Text) → All (λ c. is_white c ≡ false) h → trim_back h ≡ h
unfolding trim_back
trim_back_lem [] a = refl
trim_back_lem (c ∷ s) a = ground (arith, a.0, trim_back_lem s a.1)

-- The checksum that a sidecar holds.
read_sidecar :
    (sha256 : Text → Text) (name content : Text)
    → All (λ c. is_white c ≡ false) (sha256 content)
    → trim_back (trim_front (before_space (sidecar_of sha256 name content))) ≡ sha256 content
read_sidecar sha256 name content a =
    ap (λ h. trim_back (trim_front h)) (before_space_lem (sha256 content) _ a)
    ∙ ap trim_back (trim_front_lem (sha256 content) a)
    ∙ trim_back_lem (sha256 content) a

exists-find :
    (name : Text) (dir : List File) {f : File}
    → find (has_name name) dir ≡ some f
    → exists name dir ≡ true
unfolding exists find
exists-find name [] e = ground arith
exists-find name (g ∷ gs) {f} e = ground (arith, exists-find name gs {f = f})

verified :
    (sha256 : Text → Text) (accepts : Text → Bool) (w : Dumping) (name : Text) (dir : List File)
    → All (λ c. is_white c ≡ false) (sha256 w.dump)
    → is_backup_name name ≡ true
    → find (has_name name) dir ≡ some (dump_file w name)
    → (find (has_name (name ++ sha_suffix)) dir ≡ none)
      ⊎ (find (has_name (name ++ sha_suffix)) dir ≡ some (sidecar_file sha256 w name))
    → verify sha256 accepts true false (λ path. false) name dir ≡ ok (accepts w.dump)
unfolding verify check_sha256 list_dump sidecar_file
verified sha256 accepts w name dir a b f (inl gone) =
    ground (arith, exists-find name dir {f = dump_file w name} f)
verified sha256 accepts w name dir a b f (inr there) = ground (
  arith,
  exists-find name dir {f = dump_file w name} f,
  read_sidecar sha256 name w.dump a,
  text_eq_refl (sha256 w.dump),
)

-- With checksums that hold no white space: a backup that worked and was not trimmed away at once
-- passes the verification exactly when `pg_restore` can list what was dumped.
pub verify-run_backup :
    (sha256 : Text → Text) (accepts : Text → Bool) (keep : ℕ) (w : Dumping) (name : Text)
    (dir : List File)
    → All (λ c. is_white c ≡ false) (sha256 w.dump)
    → IsDirectory dir
    → is_backup_name name ≡ true
    → is_smooth_dump w name dir ≡ true
    → is_listed name (survivors sha256 keep w name dir) ≡ true
    → verify sha256 accepts true false (λ path. false) name (run_backup sha256 keep w name dir).1
      ≡ ok (accepts w.dump)
verify-run_backup sha256 accepts keep w name dir a d b smooth kept =
    let made = run_backup-smooth sha256 keep w name dir d smooth in
    let written = with_dump sha256 w name dir in
    let trimmed : List File = trim_each w.sticks (drop keep (listing written)) written in
    let same : trimmed ≡ (run_backup sha256 keep w name dir).1 =
      sym (ap (λ p. p.1) made.0 ∙ (unfold trim_backups backups in refl)) in
    let opens : can_open name (run_backup sha256 keep w name dir).1 ≡ true =
      sym (is_listed-listing name (run_backup sha256 keep w name dir).1 b made.2)
      ∙ ap (is_listed name) made.1
      ∙ kept in
    let files = find-with_dump sha256 w name dir b (ground arith) in
    subst (λ t. verify sha256 accepts true false (λ path. false) name t ≡ ok (accepts w.dump)) same
      (verified sha256 accepts w name trimmed a b
        (unfold can_open in
          ground (
            arith,
            opens,
            same,
            find-trim_each w.sticks name (drop keep (listing written)) written,
            files.0,
          ))
        (ground (
          arith,
          find-trim_each w.sticks (name ++ sha_suffix) (drop keep (listing written)) written,
          files.1,
        )))
