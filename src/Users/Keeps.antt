-- ===== src/Users/Keeps.antt =====
-- Every method of account management keeps what the database promises of the table.
use touchgrass.Base.{ℕ, inl, inr, Bool, Text, arith}
use touchgrass.Base.Results.{Result-cases}
use touchgrass.Users.Store.{Role, Db, Env, by_id}
use touchgrass.Users.Service.{
  Bcrypt, CreateUserInput, hash_password, check_user_input, create_user, set_role, set_password,
  set_disabled, delete_user, new_user, with_disabled,
}
use touchgrass.Users.Statements.{IsTable, update-IsTable, create-IsTable, delete-IsTable}

pub set_role-IsTable :
    (b : Bcrypt) (env : Env) (id : ℕ) (role : Role) (actor : Text) (db : Db)
    → IsTable db
    → IsTable (set_role b env id role actor db).1
unfolding set_role
set_role-IsTable b env id role actor db t = elim (Result-cases (by_id env id db)) [
  | inr (x, e) ↦ ground arith
  | inl (u, e) ↦ ground (arith, update-IsTable env (record u { role = role }) db t)
]

pub set_password-IsTable :
    (b : Bcrypt) (env : Env) (id : ℕ) (password actor : Text) (db : Db)
    → IsTable db
    → IsTable (set_password b env id password actor db).1
unfolding set_password
set_password-IsTable b env id password actor db t = elim (Result-cases (by_id env id db)) [
  | inr (x, e) ↦ ground arith
  | inl (u, e) ↦ elim (Result-cases (hash_password b env password)) [
    | inr (x, f) ↦ ground arith
    | inl (hash, f) ↦ ground (arith, update-IsTable env (record u { password_hash = hash }) db t)
  ]
]

pub set_disabled-IsTable :
    (b : Bcrypt) (env : Env) (id : ℕ) (disabled : Bool) (actor : Text) (db : Db)
    → IsTable db
    → IsTable (set_disabled b env id disabled actor db).1
unfolding set_disabled
set_disabled-IsTable b env id disabled actor db t = elim (Result-cases (by_id env id db)) [
  | inr (x, e) ↦ ground arith
  | inl (u, e) ↦ ground (arith, update-IsTable env (with_disabled env disabled u) db t)
]

pub delete_user-IsTable :
    (b : Bcrypt) (env : Env) (id : ℕ) (actor : Text) (db : Db)
    → IsTable db
    → IsTable (delete_user b env id actor db).1
unfolding delete_user
delete_user-IsTable b env id actor db t = ground (arith, delete-IsTable env id db t)

pub create_user-IsTable :
    (b : Bcrypt) (env : Env) (input : CreateUserInput) (actor : Text) (db : Db)
    → IsTable db
    → IsTable (create_user b env input actor db).1
unfolding create_user check_user_input
create_user-IsTable b env input actor db t =
    elim (Result-cases (hash_password b env input.password)) [
      | inr (x, f) ↦ ground arith
      | inl (hash, f) ↦
          ground (arith, create-IsTable env (new_user input.username hash input.role) db t)
    ]
