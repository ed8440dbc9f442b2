-- ===== src/Users/Admins.antt =====
-- The last-admin guard: no call of account management takes away the last enabled admin.
use touchgrass.Base.{
  ℕ, ◌+◌, ◌≤◌, ◌<◌, ◌≡◌, refl, sym, subst, inl, inr, ◌⊎◌, not, Bool, true, ◌&&◌, Text, some, List,
  [], ◌∷◌, map, count, count-append, find, arith,
}
use touchgrass.Base.Results.{ok, Result-cases}
use touchgrass.Users.Store.{
  Role, is_admin, is_viewer, is_known_role, User, Db, Env, has_id, is_enabled_admin, is_disabled,
  count_enabled_admins, rewrite, by_id, create, fresh_row,
}
use touchgrass.Users.Service.{
  Bcrypt, CreateUserInput, require_another_admin, hash_password, check_user_input, create_user,
  set_role, set_password, set_disabled, delete_user, ensure_admin, new_user, with_disabled,
}
use touchgrass.Users.Statements.{IsTable, by_id-ok, update_cases, create_cases, delete_cases}
use touchgrass.Users.Tables.{share, count-rewrite, count-remove_id, find_sound}

-- How many accounts are enabled admins.
abbrev pub enabled : Db → ℕ
enabled db = count is_enabled_admin db.users

pub found_self :
    (id : ℕ) (us : List User) {u : User}
    → find (has_id id) us ≡ some u
    → find (has_id u.id) us ≡ some u
found_self id us {u} e =
    subst (λ k. find (has_id k) us ≡ some u) (ground (arith, find_sound (has_id id) us {u = u})) e

-- A rewrite of the row `u` to `v` changes the number of enabled admins as the two rows differ.
pub enabled-rewrite :
    (id : ℕ) (v : User) (db : Db) {u : User}
    → IsTable db
    → find (has_id id) db.users ≡ some u
    → v.id ≡ u.id
    → count is_enabled_admin (map (rewrite v) db.users) + share is_enabled_admin u
      ≡ enabled db + share is_enabled_admin v
enabled-rewrite id v db {u} t e same =
    let found : find (has_id v.id) db.users ≡ some u =
      subst (λ k. find (has_id k) db.users ≡ some u) (sym same)
        (found_self id db.users {u = u} e) in
    let changed : share is_enabled_admin (rewrite v u) ≡ share is_enabled_admin v =
      unfold rewrite is_enabled_admin in ground arith in
    omega (
      arith,
      count-rewrite is_enabled_admin v 0 db.next_id db.users {u = u} t.ascending found,
      changed,
    )

require_another_admin-ok :
    (b : Bcrypt) (env : Env) (u : User) (db : Db)
    → require_another_admin b env u db ≡ ok tt
    → is_enabled_admin u ≡ true
    → 2 ≤ enabled db
unfolding require_another_admin is_enabled_admin
require_another_admin-ok b env u db e h = ground arith

-- A known role change disables no admin unless it makes a viewer of one.
share_viewer :
    (u : User) (role : Role)
    → is_known_role role ≡ true
    → ((is_admin u.role && is_viewer role) ≡ true)
      ⊎ (share is_enabled_admin u ≤ share is_enabled_admin (record u { role = role }))
unfolding is_enabled_admin is_known_role
share_viewer u role h = ground arith

pub set_role-enabled :
    (b : Bcrypt) (env : Env) (id : ℕ) (role : Role) (actor : Text) (db : Db)
    → IsTable db
    → 0 < enabled db
    → 0 < enabled (set_role b env id role actor db).1
unfolding set_role
set_role-enabled b env id role actor db t h = elim (Result-cases (by_id env id db)) [
  | inr (x, e) ↦ ground arith
  | inl (u, e) ↦ ground (
    arith,
    by_id-ok env id db {u = u} e,
    update_cases env (record u { role = role }) db,
    enabled-rewrite id (record u { role = role }) db {u = u} t,
    require_another_admin-ok b env u db,
    share_viewer u role,
  )
]

pub set_password-enabled :
    (b : Bcrypt) (env : Env) (id : ℕ) (password actor : Text) (db : Db)
    → IsTable db
    → 0 < enabled db
    → 0 < enabled (set_password b env id password actor db).1
unfolding set_password
set_password-enabled b env id password actor db t h = elim (Result-cases (by_id env id db)) [
  | inr (x, e) ↦ ground arith
  | inl (u, e) ↦ elim (Result-cases (hash_password b env password)) [
    | inr (x, f) ↦ ground arith
    | inl (hash, f) ↦ ground (
      arith,
      by_id-ok env id db {u = u} e,
      update_cases env (record u { password_hash = hash }) db,
      enabled-rewrite id (record u { password_hash = hash }) db {u = u} t,
      share_password u hash,
    )
  ]
]
  where
    share_password :
        (u : User) (hash : Text)
        → share is_enabled_admin (record u { password_hash = hash }) ≡ share is_enabled_admin u
    share_password u hash = unfold is_enabled_admin in refl

-- An account counts less only where it is disabled while enabled.
share_disabled :
    (env : Env) (u : User) (disabled : Bool)
    → ((disabled && not (is_disabled u)) ≡ true)
      ⊎ (share is_enabled_admin u ≤ share is_enabled_admin (with_disabled env disabled u))
unfolding is_enabled_admin
share_disabled env u disabled = ground arith

pub set_disabled-enabled :
    (b : Bcrypt) (env : Env) (id : ℕ) (disabled : Bool) (actor : Text) (db : Db)
    → IsTable db
    → 0 < enabled db
    → 0 < enabled (set_disabled b env id disabled actor db).1
unfolding set_disabled
set_disabled-enabled b env id disabled actor db t h = elim (Result-cases (by_id env id db)) [
  | inr (x, e) ↦ ground arith
  | inl (u, e) ↦ ground (
    arith,
    by_id-ok env id db {u = u} e,
    update_cases env (with_disabled env disabled u) db,
    enabled-rewrite id (with_disabled env disabled u) db {u = u} t,
    require_another_admin-ok b env u db,
    share_disabled env u disabled,
  )
]

pub delete_user-enabled :
    (b : Bcrypt) (env : Env) (id : ℕ) (actor : Text) (db : Db)
    → IsTable db
    → 0 < enabled db
    → 0 < enabled (delete_user b env id actor db).1
unfolding delete_user
delete_user-enabled b env id actor db t h = elim (Result-cases (by_id env id db)) [
  | inr (x, e) ↦ ground arith
  | inl (u, e) ↦ ground (
    arith,
    by_id-ok env id db {u = u} e,
    delete_cases env id db,
    count-remove_id is_enabled_admin id 0 db.next_id db.users {u = u} t.ascending,
    require_another_admin-ok b env u db,
  )
]

create-enabled : (env : Env) (u : User) (db : Db) → enabled db ≤ enabled (create env u db).1
create-enabled env u db =
    ground (
      arith,
      create_cases env u db,
      count-append is_enabled_admin db.users (fresh_row env u db ∷ []),
    )

pub create_user-enabled :
    (b : Bcrypt) (env : Env) (input : CreateUserInput) (actor : Text) (db : Db)
    → 0 < enabled db
    → 0 < enabled (create_user b env input actor db).1
unfolding create_user check_user_input
create_user-enabled b env input actor db h =
    elim (Result-cases (hash_password b env input.password)) [
      | inr (x, f) ↦ ground arith
      | inl (hash, f) ↦
          ground (arith, create-enabled env (new_user input.username hash input.role) db)
    ]

-- Where an enabled admin exists, the bootstrap changes nothing.
pub ensure_admin-enabled :
    (b : Bcrypt) (env : Env) (password : Text) (db : Db)
    → 0 < enabled db
    → (ensure_admin b env password db).1 ≡ db
unfolding ensure_admin count_enabled_admins
ensure_admin-enabled b env password db h = ground arith
