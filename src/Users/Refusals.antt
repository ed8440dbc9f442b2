-- ===== src/Users/Refusals.antt =====
-- What a call that is turned down leaves behind.
use touchgrass.Audit.{record_audit, user_create, user_update, user_delete}
use touchgrass.Audit
use touchgrass.Base.{
  ℕ, ◌≡◌, ◌≢◌, inl, inr, Bool, true, false, Text, is_empty, none, some, [], arith,
}
use touchgrass.Base.Results.{Error, database, Result, ok, err, Result-cases}
use touchgrass.Users.Store.{Role, User, Db, Env, by_id, by_username, admin, update, delete, create}
use touchgrass.Users.Service.{
  Bcrypt, CreateUserInput, audit_user, hash_password, check_user_input, create_user, set_role,
  set_password, set_disabled, delete_user, ensure_admin, seed_admin, new_user, with_disabled,
  existing_user, bootstrap_admin,
}
use touchgrass.Users.History.{
  Call, creates, sets_role, sets_password, sets_disabled, deletes, ensures_admin, call, failure,
}

update-err :
    (env : Env) (v : User) (db : Db) {e : Error}
    → (update env v db).0 ≡ err e
    → (update env v db).1 ≡ db
unfolding update
update-err env v db h = ground arith

create-err :
    (env : Env) (v : User) (db : Db) {e : Error}
    → (create env v db).0 ≡ err e
    → (create env v db).1 ≡ db
unfolding create
create-err env v db h = ground arith

delete-err :
    (env : Env) (id : ℕ) (db : Db) {e : Error}
    → (delete env id db).0 ≡ err e
    → (delete env id db).1 ≡ db
unfolding delete
delete-err env id db h = ground arith

-- With an actor and a known action only the database can refuse an entry.
audit-err :
    (b : Bcrypt) (env : Env) (actor : Text) (action : Audit.Action) (detail : Text) (db : Db)
    {e : Error}
    → is_empty actor ≡ false
    → Audit.is_supported action ≡ true
    → (audit_user b env actor action detail db).0 ≡ err e
    → e ≡ database
unfolding record_audit
audit-err b env actor action detail db h k f = ground arith

module _ (b : Bcrypt) (env : Env) (actor : Text) (db : Db) {e : Error} (other : e ≢ database) where
  set_role-err :
      (id : ℕ) (role : Role)
      → (set_role b env id role actor db).0 ≡ err e
      → (set_role b env id role actor db).1 ≡ db
  unfolding set_role record_audit
  set_role-err id role h = elim (Result-cases (by_id env id db)) [
    | inr (x, f) ↦ ground arith
    | inl (u, f) ↦ ground (arith, update-err env (record u { role = role }) db {e = e})
  ]

  set_password-err :
      (id : ℕ) (password : Text)
      → (set_password b env id password actor db).0 ≡ err e
      → (set_password b env id password actor db).1 ≡ db
  unfolding set_password record_audit
  set_password-err id password h = elim (Result-cases (by_id env id db)) [
    | inr (x, f) ↦ ground arith
    | inl (u, f) ↦ elim (Result-cases (hash_password b env password)) [
      | inr (x, g) ↦ ground arith
      | inl (hash, g) ↦
          ground (arith, update-err env (record u { password_hash = hash }) db {e = e})
    ]
  ]

  set_disabled-err :
      (id : ℕ) (disabled : Bool)
      → (set_disabled b env id disabled actor db).0 ≡ err e
      → (set_disabled b env id disabled actor db).1 ≡ db
  unfolding set_disabled record_audit
  set_disabled-err id disabled h = elim (Result-cases (by_id env id db)) [
    | inr (x, f) ↦ ground arith
    | inl (u, f) ↦ ground (arith, update-err env (with_disabled env disabled u) db {e = e})
  ]

  delete_user-err :
      (id : ℕ) → (delete_user b env id actor db).0 ≡ err e → (delete_user b env id actor db).1 ≡ db
  unfolding delete_user record_audit
  delete_user-err id h = ground (arith, delete-err env id db {e = e})

  create_user-err :
      (input : CreateUserInput)
      → (create_user b env input actor db).0 ≡ err e
      → (create_user b env input actor db).1 ≡ db
  unfolding create_user check_user_input record_audit
  create_user-err input h = elim (Result-cases (hash_password b env input.password)) [
    | inr (x, g) ↦ ground arith
    | inl (hash, g) ↦
        ground (arith, create-err env (new_user input.username hash input.role) db {e = e})
  ]

  ensure_admin-err :
      (password : Text)
      → (ensure_admin b env password db).0 ≡ err e
      → (ensure_admin b env password db).1 ≡ db
  unfolding ensure_admin seed_admin
  ensure_admin-err password h = elim (Result-cases (hash_password b env password)) [
    | inr (x, g) ↦ ground arith
    | inl (hash, g) ↦ elim (Result-cases (existing_user (by_username env bootstrap_admin db))) [
      | inr (x, f) ↦ ground arith
      | inl (none, f) ↦
          ground (arith, create-err env (new_user bootstrap_admin hash admin) db {e = e})
      | inl (some u, f) ↦ ground (
        arith,
        update-err env (record u { password_hash = hash; role = admin; disabled_at = none }) db
            {e = e},
      )
    ]
  ]

some-error : {A : Type 0} (r : Result A) {e : Error} → failure r ≡ some e → r ≡ err e
some-error (ok a) h = cc
some-error (err x) h = cc

-- A call that is refused for any reason but a failed statement leaves the accounts and the audit
-- trail exactly as they were.
pub call_refused :
    (b : Bcrypt) (c : Env × Call) (db : Db) {e : Error}
    → (call b c db).0 ≡ some e
    → e ≢ database
    → (call b c db).1 ≡ db
unfolding call
call_refused b (env, creates input actor) db {e} h n =
    create_user-err b env actor db {e = e} n input (some-error _ h)
call_refused b (env, sets_role id role actor) db {e} h n =
    set_role-err b env actor db {e = e} n id role (some-error _ h)
call_refused b (env, sets_password id password actor) db {e} h n =
    set_password-err b env actor db {e = e} n id password (some-error _ h)
call_refused b (env, sets_disabled id disabled actor) db {e} h n =
    set_disabled-err b env actor db {e = e} n id disabled (some-error _ h)
call_refused b (env, deletes id actor) db {e} h n =
    delete_user-err b env actor db {e = e} n id (some-error _ h)
call_refused b (env, ensures_admin password) db {e} h n =
    ensure_admin-err b env [] db {e = e} n password (some-error _ h)
