-- ===== src/Auth/Sessions.antt =====
-- Who a session stands for, and how it ends.
use touchgrass.Auth.{Identity, Session, Authenticator, authenticate}
use touchgrass.Base.{
  ℕ, ◌≤◌, ◌≡◌, ◌↔◌, refl, inl, inr, ◌⊎◌, true, false, Text, is_empty, text_eq_refl, none, some,
  find, arith, Option-cases,
}
use touchgrass.Base.Results.{ok, Result-cases}
use touchgrass.Users.Store.{
  User, Db, Env, is_disabled, has_id, has_name, rewrite, remove_id, by_id, update, delete,
  select_by_username,
}
use touchgrass.Users.Service.{Bcrypt, lookup, set_disabled, delete_user, with_disabled}
use touchgrass.Users.Tables.{
  count-remove_id, find-has_name, find-has_name-rewrite, find-none_of-count,
}
use touchgrass.Users.Statements.{IsTable, by_id-ok}

-- What makes a token good for the identity `i`.
pub record IsGood (b : Bcrypt) (env : Env) (token : Text) (db : Db) (a : Authenticator)
    (i : Identity) : Type 0 where
  session : Session
  user : User
  known : a.sessions token ≡ some session
  fresh : env.now ≤ session.expires
  listed : find (has_name session.username) db.users ≡ some user
  enabled : is_disabled user ≡ false
  name : i.username ≡ user.username
  rank : i.role ≡ user.role

-- A request is let in as `i` exactly when its token names a session that has not expired, whose
-- account is in the table and enabled; its role is the one that the table holds now. (The token is not
-- empty, and the lookup's statement must not fail.)
pub authenticate_iff :
    (b : Bcrypt) (env : Env) (token : Text) (db : Db) (a : Authenticator) (i : Identity)
    → env.fails select_by_username ≡ false
    → is_empty token ≡ false
    → ((authenticate b env (some token) db a).0 ≡ some i) ↔ IsGood b env token db a i
unfolding authenticate lookup
authenticate_iff b env token db a i live given = (forth, back)
  where
    forth : (authenticate b env (some token) db a).0 ≡ some i → IsGood b env token db a i
    forth h = elim (Option-cases (a.sessions token)) [
      | inl e ↦ absurd (ground arith)
      | inr (s, e) ↦ elim (Option-cases (find (has_name s.username) db.users)) [
        | inl f ↦ absurd (ground arith)
        | inr (u, f) ↦ record {
          session = s;
          user = u;
          known = e;
          fresh = ground arith;
          listed = f;
          enabled = ground arith;
          name = ground arith;
          rank = ground arith;
        }
      ]
    ]

    back : IsGood b env token db a i → (authenticate b env (some token) db a).0 ≡ some i
    back g = ground arith

-- A session for a name that the table does not hold as enabled is turned away.
authenticate-none :
    (b : Bcrypt) (env : Env) (token : Text) (db : Db) (a : Authenticator) (s : Session)
    → a.sessions token ≡ some s
    → (find (has_name s.username) db.users ≡ none)
      ⊎ ((u : User) × (find (has_name s.username) db.users ≡ some u) × (is_disabled u ≡ true))
    → (authenticate b env (some token) db a).0 ≡ none
unfolding authenticate lookup
authenticate-none b env token db a s e (inl f) = ground arith
authenticate-none b env token db a s e (inr (u, f, d)) = ground arith

-- After an update that went through, the name leads to the rewritten row.
find-update :
    (env : Env) (id : ℕ) (v : User) (db : Db) {u : User}
    → IsTable db
    → find (has_id id) db.users ≡ some u
    → v.id ≡ u.id
    → (update env v db).0 ≡ ok tt
    → find (has_name u.username) (update env v db).1.users ≡ some (rewrite v u)
unfolding update
find-update env id v db {u} t e same h = ground (
  arith,
  find-has_name-rewrite u.username v db.users {u = u},
  find-has_name u.username (has_id id) db.users {u = u} (t.unique u.username) e
      (text_eq_refl u.username),
)

rewrite-disabled :
    (env : Env) (u : User) → is_disabled (rewrite (with_disabled env true u) u) ≡ true
unfolding rewrite is_disabled
rewrite-disabled env u = ground arith

set_disabled-row :
    (b : Bcrypt) (env : Env) (id : ℕ) (actor : Text) (db : Db) {u : User}
    → IsTable db
    → (set_disabled b env id true actor db).0 ≡ ok u
    → (w : User) × (find (has_name u.username) (set_disabled b env id true actor db).1.users
        ≡ some w)
      × (is_disabled w ≡ true)
unfolding set_disabled
set_disabled-row b env id actor db {u} t h = elim (Result-cases (by_id env id db)) [
  | inr (x, e) ↦ absurd (ground arith)
  | inl (w, e) ↦ (
    rewrite (with_disabled env true w) w,
    ground (
      arith,
      find-update env id (with_disabled env true w) db {u = w} t (by_id-ok env id db {u = w} e)
          refl,
    ),
    rewrite-disabled env w,
  )
]

-- Once an account of a table with fresh ids and unique names is disabled, every session that it
-- has is turned away, from the next request on.
authenticate-set_disabled :
    (b : Bcrypt) (env later : Env) (id : ℕ) (actor token : Text) (db : Db) (a : Authenticator)
    (s : Session) {u : User}
    → IsTable db
    → (set_disabled b env id true actor db).0 ≡ ok u
    → a.sessions token ≡ some s
    → s.username ≡ u.username
    → (authenticate b later (some token) (set_disabled b env id true actor db).1 a).0 ≡ none
authenticate-set_disabled b env later id actor token db a s {u} t h e same =
    let (w, found, off) = set_disabled-row b env id actor db {u = u} t h in
    authenticate-none b later token _ a s e (inr (w, rw same found, off))

delete_user-row :
    (b : Bcrypt) (env : Env) (id : ℕ) (actor : Text) (db : Db) {u : User}
    → IsTable db
    → find (has_id id) db.users ≡ some u
    → (delete_user b env id actor db).0 ≡ ok tt
    → find (has_name u.username) (delete_user b env id actor db).1.users ≡ none
unfolding delete_user delete
delete_user-row b env id actor db {u} t e h =
    let gone : find (has_name u.username) (remove_id id db.users) ≡ none =
      find-none_of-count (has_name u.username) (remove_id id db.users) (
        ground (
          arith,
          t.unique u.username,
          text_eq_refl u.username,
          count-remove_id (has_name u.username) id 0 db.next_id db.users {u = u} t.ascending e,
        )) in
    ground (arith, gone)

-- Once an account of a table with fresh ids and unique names is deleted, every session that it had
-- is turned away.
authenticate-delete_user :
    (b : Bcrypt) (env later : Env) (id : ℕ) (actor token : Text) (db : Db) (a : Authenticator)
    (s : Session) {u : User}
    → IsTable db
    → find (has_id id) db.users ≡ some u
    → (delete_user b env id actor db).0 ≡ ok tt
    → a.sessions token ≡ some s
    → s.username ≡ u.username
    → (authenticate b later (some token) (delete_user b env id actor db).1 a).0 ≡ none
authenticate-delete_user b env later id actor token db a s {u} t found h e same =
    authenticate-none b later token _ a s e
      (inl (rw same (delete_user-row b env id actor db {u = u} t found h)))
