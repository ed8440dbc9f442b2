-- ===== src/Users/Store.antt =====
-- Login accounts as rows of the table `users` (internal/model/user.go, internal/store/users.go,
-- migrations/0015_users.sql). Each method runs one SQL statement, which the environment may fail.
use touchgrass.Audit.{Entry}
use touchgrass.Base.{
  ℕ, suc, Bool, true, false, not, ◌&&◌, ◌||◌, ◌==◌, if◌then◌else◌, Text, text_eq, Option, none,
  some, List, [], ◌∷◌, ◌++◌, map, count, find,
}
use touchgrass.Base.Results.{database, not_found, Result, ok, err, Method}

pub data Role : Type 0 where
  admin viewer : Role
  other_role : Text → Role

pub record User : Type 0 where
  pub id : ℕ
  pub username : Text
  pub password_hash : Text
  pub role : Role
  pub disabled_at : Option ℕ
  pub created_at : ℕ

-- `User.Disabled`
unfoldable pub is_disabled : User → Bool
is_disabled u = elim u.disabled_at [ none ↦ false | some t ↦ true ]

unfoldable pub is_admin : Role → Bool
is_admin admin = true
is_admin _ = false

unfoldable pub is_viewer : Role → Bool
is_viewer viewer = true
is_viewer _ = false

-- The tables that account management writes; `next_id` is the AUTOINCREMENT counter.
pub record Db : Type 0 where
  pub users : List User
  pub next_id : ℕ
  pub trail : List Entry

pub data Statement : Type 0 where
  insert_user select_by_id select_by_username select_users : Statement
  update_user delete_user count_admins insert_audit : Statement

-- What one call sees of the outside: which of its statements fail, the clock, and bcrypt's salt.
pub record Env : Type 0 where
  pub fails : Statement → Bool
  pub now : ℕ
  pub salt : ℕ

abbrev pub has_id : ℕ → User → Bool
has_id id u = u.id == id

abbrev pub has_name : Text → User → Bool
has_name name u = text_eq u.username name

-- The row that `role = 'admin' AND disabled_at IS NULL` selects.
unfoldable pub is_enabled_admin : User → Bool
unfolding is_admin is_disabled
is_enabled_admin u = is_admin u.role && not (is_disabled u)

-- CHECK (role IN ('admin', 'viewer'))
unfoldable pub is_known_role : Role → Bool
unfolding is_admin is_viewer
is_known_role r = is_admin r || is_viewer r

unfoldable pub or_not_found : Option User → Result User
or_not_found none = err not_found
or_not_found (some u) = ok u

-- `UPDATE users SET password_hash, role, disabled_at WHERE id`, on one row.
unfoldable pub rewrite : User → User → User
rewrite v u =
    if u.id == v.id
    then record u { password_hash = v.password_hash; role = v.role; disabled_at = v.disabled_at }
    else u

unfoldable pub remove_id : ℕ → List User → List User
remove_id id [] = []
remove_id id (u ∷ us) = if u.id == id then remove_id id us else u ∷ remove_id id us

module _ (env : Env) where
  -- A query that the environment may fail.
  abbrev pub query {ℓ} : {A : Type ℓ} → Statement → Result A → Result A
  query q r = if env.fails q then err database else r

  -- A statement that the environment may fail before it runs.
  abbrev pub run {ℓ} : {A : Type ℓ} → Statement → Method Db A → Method Db A
  run q m db = if env.fails q then (err database, db) else m db

  -- `UserStore.Create`: the id is the next one, and the name and the role meet the constraints.
  abbrev pub fresh_row : User → Db → User
  fresh_row u db = record u {
    id = db.next_id;
    created_at = if u.created_at == 0 then env.now else u.created_at;
  }

  unfoldable pub create : User → Method Db User
  unfolding is_known_role find
  create u db =
      run insert_user
        (λ d. elim (find (has_name u.username) d.users) [
          | some taken ↦ (err database, d)
          | none ↦
              if is_known_role u.role
              then (
                ok (fresh_row u d),
                record d { users = d.users ++ fresh_row u d ∷ []; next_id = suc d.next_id },
              )
              else (err database, d)
        ])
        db

  -- `UserStore.ByID`
  unfoldable pub by_id : ℕ → Db → Result User
  unfolding or_not_found find
  by_id id db = query select_by_id (or_not_found (find (has_id id) db.users))

  -- `UserStore.ByUsername`
  unfoldable pub by_username : Text → Db → Result User
  unfolding or_not_found find
  by_username name db = query select_by_username (or_not_found (find (has_name name) db.users))

  -- `UserStore.Update`: no row affected means an unknown id.
  unfoldable pub update : User → Method Db (Unit {0})
  unfolding is_known_role find
  update v = run update_user (λ d. elim (find (has_id v.id) d.users) [
    | none ↦ (err not_found, d)
    | some u ↦
        if is_known_role v.role
        then (ok tt, record d { users = map (rewrite v) d.users })
        else (err database, d)
  ])

  -- `UserStore.Delete`
  unfoldable pub delete : ℕ → Method Db (Unit {0})
  unfolding find
  delete id = run delete_user (λ d. elim (find (has_id id) d.users) [
    | none ↦ (err not_found, d)
    | some u ↦ (ok tt, record d { users = remove_id id d.users })
  ])

  -- `UserStore.CountEnabledAdmins`
  unfoldable pub count_enabled_admins : Db → Result ℕ
  count_enabled_admins db = query count_admins (ok (count is_enabled_admin db.users))
