-- ===== src/Users/Logins.antt =====
-- Who may log in, and the bootstrap admin.
use touchgrass.Base.{
  sym, ◌↔◌, ◌<◌, ◌≡◌, refl, inl, inr, Bool, true, false, Text, none, some, List, [], ◌∷◌, ◌++◌, map,
  count, count-append, find, arith, Bool-cases, text_eq_refl, ltb,
}
use touchgrass.Base.Results.{ok, Result-cases}
use touchgrass.Users.Store.{
  admin, User, Db, Env, is_disabled, is_enabled_admin, is_known_role, has_id, has_name, rewrite,
  select_by_username, by_username, update, create, fresh_row, count_enabled_admins,
}
use touchgrass.Users.Service.{
  Bcrypt, CreateUserInput, create_user, check_user_input, verify, ensure_admin, seed_admin,
  new_user, bootstrap_admin, hash_password, existing_user,
}
use touchgrass.Users.Tables.{share, share-le-count, find_sound}
use touchgrass.Users.Statements.{IsTable}
use touchgrass.Users.Admins.{enabled, enabled-rewrite}

-- Credentials are accepted exactly when the name has a row, the account is enabled and bcrypt
-- matches; the answer is that row. (The lookup's statement must not fail.)
verify_iff :
    (b : Bcrypt) (env : Env) (username password : Text) (db : Db) (u : User)
    → env.fails select_by_username ≡ false
    → (verify b env username password db ≡ ok u) ↔ (
        (find (has_name username) db.users ≡ some u)
        × (is_disabled u ≡ false)
        × (b.matches u.password_hash password ≡ true))
unfolding verify
verify_iff b env username password db u live = (λ h. ground arith, λ h. ground arith)

find-append_none :
    (p : User → Bool) (us : List User) (u : User)
    → find p us ≡ none
    → p u ≡ true
    → find p (us ++ u ∷ []) ≡ some u
unfolding find
find-append_none p [] u e h = ground arith
find-append_none p (w ∷ us) u e h = ground (arith, find-append_none p us u)

create-ok :
    (env : Env) (u : User) (db : Db) {v : User}
    → (create env u db).0 ≡ ok v
    → (find (has_name u.username) db.users ≡ none)
      × (v ≡ fresh_row env u db)
      × ((create env u db).1.users ≡ db.users ++ v ∷ [])
unfolding create
create-ok env u db h = ground arith

hash_password-ok :
    (b : Bcrypt) (env : Env) (password : Text) {hash : Text}
    → hash_password b env password ≡ ok hash
    → b.matches hash password ≡ true
unfolding hash_password
hash_password-ok b env password {hash} e = b.matches-generate env.salt password hash (ground arith)

-- An account that was created can log in at once with the password it was created with. (The
-- lookup's statement must not fail.)
pub verify-create_user :
    (b : Bcrypt) (env later : Env) (input : CreateUserInput) (actor : Text) (db : Db) {u : User}
    → (create_user b env input actor db).0 ≡ ok u
    → later.fails select_by_username ≡ false
    → verify b later input.username input.password (create_user b env input actor db).1 ≡ ok u
unfolding create_user check_user_input verify
verify-create_user b env later input actor db {u} h live =
    elim (Result-cases (hash_password b env input.password)) [
      | inr (x, f) ↦ ground arith
      | inl (hash, f) ↦ ground (
        arith,
        hash_password-ok b env input.password {hash = hash} f,
        create-ok env (new_user input.username hash input.role) db {v = u},
        find-append_none (has_name input.username) db.users u,
        text_eq_refl input.username,
      )
    ]

update-ok :
    (env : Env) (v : User) (db : Db)
    → (update env v db).0 ≡ ok tt
    → (u : User) × (find (has_id v.id) db.users ≡ some u)
      × (is_known_role v.role ≡ true)
      × ((update env v db).1 ≡ record db { users = map (rewrite v) db.users })
unfolding update
update-ok env v db h = ground arith

seed_new :
    (env : Env) (hash : Text) (db : Db) {v : User}
    → (create env (new_user bootstrap_admin hash admin) db).0 ≡ ok v
    → 0 < enabled (create env (new_user bootstrap_admin hash admin) db).1
unfolding is_enabled_admin count
seed_new env hash db {v} h = ground (
  arith,
  create-ok env (new_user bootstrap_admin hash admin) db {v = v},
  count-append is_enabled_admin db.users (v ∷ []),
)

abbrev repaired : Text → User → User
repaired hash u = record u { password_hash = hash; role = admin; disabled_at = none }

seed_repaired :
    (env : Env) (hash : Text) (u : User) (db : Db)
    → IsTable db
    → (update env (repaired hash u) db).0 ≡ ok tt
    → 0 < enabled (update env (repaired hash u) db).1
seed_repaired env hash u db t h =
    let (w, found, known, after) = update-ok env (repaired hash u) db h in
    let full : share is_enabled_admin (repaired hash u) ≡ 1 = unfold is_enabled_admin in refl in
    let same : w.id ≡ u.id = ground (arith, find_sound (has_id u.id) db.users {u = w} found) in
    rw after (
      omega (
        arith,
        full,
        share-le-count is_enabled_admin (has_id u.id) db.users {u = w} found,
        enabled-rewrite u.id (repaired hash u) db {u = w} t found (sym same),
      ))

-- A bootstrap that reports success leaves an enabled admin behind, whatever accounts the table
-- held; its ids are fresh and its names unique.
ensure_admin-ok :
    (b : Bcrypt) (env : Env) (password : Text) (db : Db) {seeded : Bool}
    → IsTable db
    → (ensure_admin b env password db).0 ≡ ok seeded
    → 0 < enabled (ensure_admin b env password db).1
unfolding ensure_admin seed_admin count_enabled_admins
ensure_admin-ok b env password db {seeded} t h = elim (Bool-cases (ltb 0 (enabled db))) [
  | inl some_admin ↦ ground arith
  | inr no_admin ↦ elim (Result-cases (hash_password b env password)) [
    | inr (x, f) ↦ ground arith
    | inl (hash, f) ↦ elim (Result-cases (existing_user (by_username env bootstrap_admin db))) [
      | inr (x, e) ↦ ground arith
      | inl (none, e) ↦
          elim (Result-cases (create env (new_user bootstrap_admin hash admin) db).0) [
            | inr (x, g) ↦ ground arith
            | inl (v, g) ↦ ground (arith, seed_new env hash db {v = v} g)
          ]
      | inl (some u, e) ↦ ground (arith, seed_repaired env hash u db t)
    ]
  ]
]
