-- ===== src/Users/Service.antt =====
-- Account management (internal/service/users.go): validation, the last-admin guard, auditing.
-- bcrypt and `services.Get` are parameters; a call's statements may fail as its environment says.
use touchgrass.Audit.{
  AuditRecord, user_create, user_update, user_delete, Outcome, success, record_audit,
}
use touchgrass.Audit
use touchgrass.Base.{
  ℕ, ◌≡◌, Bool, true, false, not, ◌&&◌, ◌||◌, ◌==◌, ltb, leb, if◌then◌else◌, Text, bytes, is_empty,
  Option, none, some, [], ◌∷◌, ◌++◌, length,
}
use touchgrass.Base.Results.{
  invalid_input, conflict, unauthorized, not_found, hashing, Result, ok, err, Method, ◌>>=◌, ◌>>◌,
  return, require, when, lift, attempt, ask, guard, gate,
}
use touchgrass.Users.Store.{
  Role, admin, viewer, other_role, User, is_disabled, is_admin, is_viewer, is_known_role, Db, Env,
  insert_audit, create, by_id, by_username, update, delete, count_enabled_admins,
}

-- golang.org/x/crypto/bcrypt: a salted hash, which may fail, and the comparison. A password
-- matches the hash that was made from it.
pub record Bcrypt : Type 0 where
  pub generate : ℕ → Text → Option Text
  pub matches : Text → Text → Bool
  pub matches-generate :
      (salt : ℕ) (password hash : Text)
      → generate salt password ≡ some hash
      → matches hash password ≡ true

abbrev pub bootstrap_admin : Text
bootstrap_admin = bytes "admin"

abbrev pub min_password_length : ℕ
min_password_length = 12

abbrev pub max_password_length : ℕ
max_password_length = 72

abbrev pub max_username_length : ℕ
max_username_length = 64

pub record CreateUserInput : Type 0 where
  pub username : Text
  pub password : Text
  pub role : Role

abbrev pub role_text : Role → Text
role_text admin = bytes "admin"
role_text viewer = bytes "viewer"
role_text (other_role r) = r

-- The character class `[a-z0-9-]`.
unfoldable pub is_username_char : ℕ → Bool
is_username_char c = (leb b'a' c && leb c b'z') || ((leb b'0' c && leb c b'9') || c == b'-')

unfoldable pub all_username_chars : Text → Bool
unfolding is_username_char
all_username_chars [] = true
all_username_chars (c ∷ s) = is_username_char c && all_username_chars s

-- `^[a-z0-9-]+$`
unfoldable pub matches_username : Text → Bool
unfolding all_username_chars is_empty
matches_username s = not (is_empty s) && all_username_chars s

-- `checkPassword`
unfoldable pub check_password : Text → Result (Unit {0})
check_password p =
    if ltb (length p) min_password_length
    then err invalid_input
    else if ltb max_password_length (length p)
    then err invalid_input
    else ok tt

-- The answer to the lookup that must find nothing.
unfoldable pub name_is_free : Result User → Result (Unit {0})
name_is_free (ok u) = err conflict
name_is_free (err not_found) = ok tt
name_is_free (err e) = err e

-- An unknown name is reported as a wrong password is.
unfoldable pub hide_unknown : Result User → Result User
hide_unknown (ok u) = ok u
hide_unknown (err not_found) = err unauthorized
hide_unknown (err e) = err e

-- The bootstrap account, where there is one.
unfoldable pub existing_user : Result User → Result (Option User)
existing_user (ok u) = ok (some u)
existing_user (err not_found) = ok none
existing_user (err e) = err e

-- The row of a new account, before the store gives it an id and a time.
abbrev pub new_user : Text → Text → Role → User
new_user username hash role = record {
  id = 0;
  username = username;
  password_hash = hash;
  role = role;
  disabled_at = none;
  created_at = 0;
}

abbrev pub with_disabled : Env → Bool → User → User
with_disabled env disabled u = record u { disabled_at = if disabled then some env.now else none }

module _ (b : Bcrypt) (env : Env) where
  abbrev pub audit_user : Text → Audit.Action → Text → Method Db (Unit {0})
  audit_user actor action detail db =
      let (r, trail) =
        record_audit (λ id. ok tt) (env.fails insert_audit) env.now
          (record {
            service_id = [];
            actor = actor;
            action = action;
            outcome = success;
            detail = detail;
          })
          db.trail in
      (r, record db { trail = trail })

  -- `hashPassword`
  unfoldable pub hash_password : Text → Result Text
  hash_password p = elim (b.generate env.salt p) [ none ↦ err hashing | some h ↦ ok h ]

  -- `requireAnotherAdmin`
  unfoldable pub require_another_admin : User → Db → Result (Unit {0})
  unfolding is_admin is_disabled count_enabled_admins
  require_another_admin u db =
      gate (is_admin u.role && not (is_disabled u)) (elim (count_enabled_admins env db) [
        | ok count ↦ guard (ltb 1 count) conflict
        | err e ↦ err e
      ])

  -- `checkUserInput`
  unfoldable pub check_user_input : CreateUserInput → Text → Method Db (Unit {0})
  check_user_input input actor = do
    require (not (is_empty actor)) invalid_input
    require
        (not (
          length input.username == 0
          || (ltb max_username_length (length input.username)
              || not (matches_username input.username))))
        invalid_input
    taken ← attempt (by_username env input.username)
    lift (name_is_free taken)
    require (is_known_role input.role) invalid_input
    lift (check_password input.password)

  -- `Users.Create`
  unfoldable pub create_user : CreateUserInput → Text → Method Db User
  create_user input actor = do
    check_user_input input actor
    hash ← lift (hash_password input.password)
    created ← create env (new_user input.username hash input.role)
    audit_user actor user_create (
        bytes "created user "
        ++ (created.username ++ (bytes " (" ++ (role_text created.role ++ bytes ")"))))
    return created

  -- `Users.Verify`
  unfoldable pub verify : Text → Text → Db → Result User
  unfolding by_username hide_unknown is_disabled
  verify username password db = elim (hide_unknown (by_username env username db)) [
    | err e ↦ err e
    | ok user ↦
        if is_disabled user
        then err unauthorized
        else if b.matches user.password_hash password
        then ok user
        else err unauthorized
  ]

  -- `Users.Lookup`
  unfoldable pub lookup : Text → Db → Result User
  unfolding by_username hide_unknown is_disabled
  lookup username db = elim (hide_unknown (by_username env username db)) [
    | err e ↦ err e
    | ok user ↦ if is_disabled user then err unauthorized else ok user
  ]

  -- `Users.SetRole`
  unfoldable pub set_role : ℕ → Role → Text → Method Db User
  set_role id role actor = do
    require (not (is_empty actor)) invalid_input
    require (is_known_role role) invalid_input
    user ← ask (by_id env id)
    when (is_admin user.role && is_viewer role) (require_another_admin user)
    update env (record user { role = role })
    audit_user actor user_update
        (bytes "changed role of user " ++ (user.username ++ (bytes " to " ++ role_text role)))
    return (record user { role = role })

  -- `Users.SetPassword`
  unfoldable pub set_password : ℕ → Text → Text → Method Db (Unit {0})
  set_password id password actor = do
    require (not (is_empty actor)) invalid_input
    lift (check_password password)
    user ← ask (by_id env id)
    hash ← lift (hash_password password)
    update env (record user { password_hash = hash })
    audit_user actor user_update (bytes "reset password of user " ++ user.username)

  -- `Users.SetDisabled`
  unfoldable pub set_disabled : ℕ → Bool → Text → Method Db User
  set_disabled id disabled actor = do
    require (not (is_empty actor)) invalid_input
    user ← ask (by_id env id)
    when (disabled && not (is_disabled user)) (require_another_admin user)
    let changed = with_disabled env disabled user
    update env changed
    audit_user actor user_update (
        (if disabled then bytes "disabled" else bytes "enabled")
        ++ (bytes " user " ++ user.username))
    return changed

  -- `Users.Delete`
  unfoldable pub delete_user : ℕ → Text → Method Db (Unit {0})
  delete_user id actor = do
    require (not (is_empty actor)) invalid_input
    user ← ask (by_id env id)
    ask (require_another_admin user)
    delete env id
    audit_user actor user_delete (bytes "deleted user " ++ user.username)

  -- The bootstrap admin, created or repaired.
  unfoldable pub seed_admin : Text → Option User → Method Db Bool
  seed_admin hash none = do created ← create env (new_user bootstrap_admin hash admin); return true
  seed_admin hash (some existing) = do
    update env (record existing { password_hash = hash; role = admin; disabled_at = none })
    return true

  -- `Users.EnsureAdmin`
  unfoldable pub ensure_admin : Text → Method Db Bool
  ensure_admin password = do
    count ← ask (count_enabled_admins env)
    elim (ltb 0 count) [
      | true ↦ return false
      | false ↦ do
        lift (check_password password)
        hash ← lift (hash_password password)
        found ← attempt (by_username env bootstrap_admin)
        existing ← lift (existing_user found)
        seed_admin hash existing
    ]
