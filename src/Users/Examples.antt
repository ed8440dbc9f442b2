-- ===== src/Users/Examples.antt =====
-- The accounts' theorems at concrete tables.
use touchgrass.Base.{
  ℕ, ◌<◌, ◌≡◌, ◌≢◌, refl, true, false, Text, bytes, text_eq, text_eq_iff, is_empty, none, some,
  List, [], ◌∷◌, count, arith,
}
use touchgrass.Base.Results.{conflict, database, ok}
use touchgrass.Audit.{record_audit}
use touchgrass.Users.Store.{
  admin, viewer, User, is_disabled, is_admin, Db, Env, is_enabled_admin, is_known_role,
  or_not_found, create, by_id, by_username, count_enabled_admins,
}
use touchgrass.Users.Service.{
  Bcrypt, CreateUserInput, matches_username, check_password, name_is_free, existing_user,
  hash_password, require_another_admin, check_user_input, create_user, verify, delete_user,
  seed_admin, ensure_admin,
}
use touchgrass.Users.Statements.{IsTable}
use touchgrass.Users.Admins.{enabled}
use touchgrass.Users.History.{
  Call, sets_role, sets_disabled, deletes, call, history, history-enabled,
}
use touchgrass.Users.Refusals.{call_refused}
use touchgrass.Users.Logins.{verify-create_user}

pub matches_itself :
    (salt : ℕ) (password hash : Text) → some password ≡ some hash → text_eq hash password ≡ true
matches_itself salt password hash e = ground (arith, text_eq_iff hash password)

-- A hash that keeps the password.
abbrev pub plain : Bcrypt
plain = record {
  generate = λ salt password. some password;
  matches = text_eq;
  matches-generate = matches_itself;
}

abbrev pub calm : Env
calm = record { fails = λ statement. false; now = 10; salt = 1 }

abbrev pub ann : User
ann = record {
  id = 1;
  username = bytes "ann";
  password_hash = bytes "a long password";
  role = admin;
  disabled_at = none;
  created_at = 5;
}

abbrev pub bob : User
bob = record {
  id = 2;
  username = bytes "bob";
  password_hash = bytes "some other words";
  role = viewer;
  disabled_at = none;
  created_at = 6;
}

abbrev pub two : Db
two = record { users = ann ∷ bob ∷ []; next_id = 3; trail = [] }

pub two-IsTable : IsTable two
unfolding count
two-IsTable = record {
  ascending = (omega arith, (omega arith, omega arith));
  unique = λ name. ground (arith, text_eq_iff (bytes "ann") name, text_eq_iff (bytes "bob") name);
}

two_enabled : 0 < enabled two
unfolding count is_enabled_admin is_admin is_disabled
two_enabled = omega arith

abbrev requests : List (Env × Call)
requests =
    (calm, sets_role 2 admin (bytes "ann"))
    ∷ (calm, deletes 1 (bytes "bob"))
    ∷ (calm, sets_disabled 2 true (bytes "bob"))
    ∷ []

history-enabled_example :
    IsTable (history plain requests two) × (0 < enabled (history plain requests two))
history-enabled_example = history-enabled plain requests two two-IsTable two_enabled

last_admin_stays : (call plain (calm, deletes 1 (bytes "ann")) two).0 ≡ some conflict
unfolding call delete_user by_id or_not_found require_another_admin is_admin is_disabled is_empty
    count is_enabled_admin
last_admin_stays = refl

conflict≢database : conflict ≢ database
conflict≢database e = cc

call_refused_example : (call plain (calm, deletes 1 (bytes "ann")) two).1 ≡ two
call_refused_example =
    call_refused plain (calm, deletes 1 (bytes "ann")) two {e = conflict} last_admin_stays
      conflict≢database

abbrev cat : CreateUserInput
cat = record { username = bytes "cat"; password = bytes "twelve letters"; role = viewer }

abbrev created_cat : User
created_cat = record {
  id = 3;
  username = bytes "cat";
  password_hash = bytes "twelve letters";
  role = viewer;
  disabled_at = none;
  created_at = 10;
}

cat_created : (create_user plain calm cat (bytes "ann") two).0 ≡ ok created_cat
unfolding create_user check_user_input is_empty matches_username name_is_free by_username text_eq
    is_known_role check_password hash_password create record_audit
cat_created = refl

verify-create_user_example :
    verify plain calm
      (bytes "cat")
      (bytes "twelve letters")
      (create_user plain calm cat (bytes "ann") two).1
    ≡ ok created_cat
verify-create_user_example =
    verify-create_user plain calm calm cat (bytes "ann") two {u = created_cat} cat_created refl

-- Only a disabled account: the bootstrap seeds a new one.
abbrev locked : Db
locked = record { users = record ann { disabled_at = some 7 } ∷ []; next_id = 2; trail = [] }

locked-IsTable : IsTable locked
unfolding count
locked-IsTable = record { ascending = (omega arith, omega arith); unique = λ name. ground arith }

seeded : (ensure_admin plain calm (bytes "a first password") locked).0 ≡ ok true
unfolding ensure_admin count_enabled_admins count is_enabled_admin check_password hash_password
    existing_user by_username text_eq seed_admin create
seeded = refl
