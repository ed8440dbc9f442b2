-- ===== src/Users/History.antt =====
-- Histories of account management: any calls, in any order, under any faults.
use touchgrass.Base.{Option, ℕ, ◌<◌, inl, inr, Bool, Text, List, [], ◌∷◌, some, none, arith}
use touchgrass.Base.Results.{Error, Result, ok, err, Result-cases}
use touchgrass.Users.Store.{Role, admin, User, Db, Env, by_username}
use touchgrass.Users.Service.{
  Bcrypt, CreateUserInput, create_user, set_role, set_password, set_disabled, delete_user,
  ensure_admin, seed_admin, new_user, bootstrap_admin, hash_password, existing_user,
}
use touchgrass.Users.Statements.{IsTable, update-IsTable, create-IsTable}
use touchgrass.Users.Keeps.{
  create_user-IsTable, set_role-IsTable, set_password-IsTable, set_disabled-IsTable,
  delete_user-IsTable,
}
use touchgrass.Users.Admins.{
  enabled, create_user-enabled, set_role-enabled, set_password-enabled, set_disabled-enabled,
  delete_user-enabled, ensure_admin-enabled,
}

-- One request of the HTTP layer, or the bootstrap at start-up.
pub data Call : Type 0 where
  creates : CreateUserInput → Text → Call
  sets_role : ℕ → Role → Text → Call
  sets_password : ℕ → Text → Text → Call
  sets_disabled : ℕ → Bool → Text → Call
  deletes : ℕ → Text → Call
  ensures_admin : Text → Call

-- The error of a call, if it has one.
abbrev pub failure {ℓ} : {A : Type ℓ} → Result A → Option Error
failure (ok a) = none
failure (err e) = some e

abbrev pub error_of {ℓ} : {A : Type ℓ} → Result A × Db → Option Error × Db
error_of r = (failure r.0, r.1)

module _ (b : Bcrypt) where
  unfoldable pub call : Env × Call → Db → Option Error × Db
  call (env, creates input actor) db = error_of (create_user b env input actor db)
  call (env, sets_role id role actor) db = error_of (set_role b env id role actor db)
  call (env, sets_password id password actor) db =
      error_of (set_password b env id password actor db)
  call (env, sets_disabled id disabled actor) db =
      error_of (set_disabled b env id disabled actor db)
  call (env, deletes id actor) db = error_of (delete_user b env id actor db)
  call (env, ensures_admin password) db = error_of (ensure_admin b env password db)

  unfoldable pub step : Env × Call → Db → Db
  unfolding call
  step c db = (call c db).1

  unfoldable pub history : List (Env × Call) → Db → Db
  history [] db = db
  history (c ∷ cs) db = history cs (step c db)

  seed_admin-IsTable :
      (env : Env) (hash : Text) (db : Db)
      → IsTable db
      → (IsTable (seed_admin b env hash none db).1)
        × ((u : User) → IsTable (seed_admin b env hash (some u) db).1)
  unfolding seed_admin
  seed_admin-IsTable env hash db t = (
    ground (arith, create-IsTable env (new_user bootstrap_admin hash admin) db t),
    λ u. ground (
      arith,
      update-IsTable env (record u { password_hash = hash; role = admin; disabled_at = none }) db t,
    ),
  )

  ensure_admin-IsTable :
      (env : Env) (password : Text) (db : Db)
      → IsTable db
      → IsTable (ensure_admin b env password db).1
  unfolding ensure_admin
  ensure_admin-IsTable env password db t = elim (Result-cases (hash_password b env password)) [
    | inr (x, f) ↦ ground arith
    | inl (hash, f) ↦ elim (Result-cases (existing_user (by_username env bootstrap_admin db))) [
      | inr (x, e) ↦ ground arith
      | inl (none, e) ↦ ground (arith, (seed_admin-IsTable env hash db t).0)
      | inl (some u, e) ↦ ground (arith, (seed_admin-IsTable env hash db t).1 u)
    ]
  ]

  pub step-IsTable : (c : Env × Call) (db : Db) → IsTable db → IsTable (step c db)
  unfolding step
  step-IsTable (env, creates input actor) db t = create_user-IsTable b env input actor db t
  step-IsTable (env, sets_role id role actor) db t = set_role-IsTable b env id role actor db t
  step-IsTable (env, sets_password id password actor) db t =
      set_password-IsTable b env id password actor db t
  step-IsTable (env, sets_disabled id disabled actor) db t =
      set_disabled-IsTable b env id disabled actor db t
  step-IsTable (env, deletes id actor) db t = delete_user-IsTable b env id actor db t
  step-IsTable (env, ensures_admin password) db t = ensure_admin-IsTable env password db t

  step-enabled : (c : Env × Call) (db : Db) → IsTable db → 0 < enabled db → 0 < enabled (step c db)
  unfolding step
  step-enabled (env, creates input actor) db t h = create_user-enabled b env input actor db h
  step-enabled (env, sets_role id role actor) db t h = set_role-enabled b env id role actor db t h
  step-enabled (env, sets_password id password actor) db t h =
      set_password-enabled b env id password actor db t h
  step-enabled (env, sets_disabled id disabled actor) db t h =
      set_disabled-enabled b env id disabled actor db t h
  step-enabled (env, deletes id actor) db t h = delete_user-enabled b env id actor db t h
  step-enabled (env, ensures_admin password) db t h =
      rw (ensure_admin-enabled b env password db h) h

  -- In any history of account calls, one after the other, with whatever statements failing, a
  -- table that starts with fresh ids, unique names and an enabled admin keeps all three.
  pub history-enabled :
      (cs : List (Env × Call)) (db : Db)
      → IsTable db
      → 0 < enabled db
      → IsTable (history cs db) × (0 < enabled (history cs db))
  unfolding history
  history-enabled [] db t h = (t, h)
  history-enabled (c ∷ cs) db t h =
      history-enabled cs (step c db) (step-IsTable c db t) (step-enabled c db t h)
