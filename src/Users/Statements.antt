-- ===== src/Users/Statements.antt =====
-- What each SQL statement does to the table of accounts, and what the table keeps.
use touchgrass.Base.{
  ℕ, suc, ◌≤◌, ◌≡◌, refl, inl, inr, ◌⊎◌, Text, text_eq, text_eq_iff, none, some, [], ◌∷◌, ◌++◌, map,
  count, count-append, find, arith, Bool-cases,
}
use touchgrass.Base.Results.{ok}
use touchgrass.Users.Store.{
  User, Db, Env, has_id, has_name, rewrite, remove_id, by_id, update, delete, create, fresh_row,
}
use touchgrass.Users.Tables.{
  IsAscending, count-remove_id-le, count-has_name-rewrite, IsAscending-rewrite,
  IsAscending-remove_id, IsAscending-append, count_of-find-none,
}

-- What SQLite keeps of the table: ids are fresh and ascend, and names are unique.
pub record IsTable (db : Db) : Type 0 where
  pub ascending : IsAscending 0 db.next_id db.users
  pub unique : (name : Text) → count (has_name name) db.users ≤ 1

pub by_id-ok :
    (env : Env) (id : ℕ) (db : Db) {u : User}
    → by_id env id db ≡ ok u
    → find (has_id id) db.users ≡ some u
unfolding by_id
by_id-ok env id db e = ground arith

-- An update leaves the table alone, or rewrites one of its rows.
pub update_cases :
    (env : Env) (v : User) (db : Db)
    → ((update env v db).1 ≡ db)
      ⊎ ((update env v db).1 ≡ record db { users = map (rewrite v) db.users })
unfolding update
update_cases env v db = ground arith

pub update-IsTable : (env : Env) (v : User) (db : Db) → IsTable db → IsTable (update env v db).1
update-IsTable env v db t = elim (update_cases env v db) [
  | inl e ↦ rw e t
  | inr e ↦ rw e (record {
    ascending = IsAscending-rewrite v 0 db.next_id db.users t.ascending;
    unique = λ name. rw (count-has_name-rewrite v name db.users) (t.unique name);
  })
]

-- An insertion leaves the table alone, or adds a fresh row under a name that was free.
pub create_cases :
    (env : Env) (u : User) (db : Db)
    → ((create env u db).1 ≡ db)
      ⊎ ((find (has_name u.username) db.users ≡ none)
          × ((create env u db).1 ≡ record db {
            users = db.users ++ fresh_row env u db ∷ [];
            next_id = suc db.next_id;
          }))
unfolding create
create_cases env u db = ground arith

pub delete_cases :
    (env : Env) (id : ℕ) (db : Db)
    → ((delete env id db).1 ≡ db)
      ⊎ ((delete env id db).1 ≡ record db { users = remove_id id db.users })
unfolding delete
delete_cases env id db = ground arith

pub create-IsTable : (env : Env) (u : User) (db : Db) → IsTable db → IsTable (create env u db).1
create-IsTable env u db t = elim (create_cases env u db) [
  | inl e ↦ rw e t
  | inr (free, e) ↦ rw e (record {
    ascending = IsAscending-append 0 db.next_id db.users (fresh_row env u db) t.ascending refl;
    unique = λ name. count_names name free;
  })
]
  where
    count_names :
        (name : Text)
        → find (has_name u.username) db.users ≡ none
        → count (has_name name) (db.users ++ fresh_row env u db ∷ []) ≤ 1
    count_names name free = elim (Bool-cases (text_eq u.username name)) [
      | inl same ↦
          unfold count in
          ground (
            arith,
            text_eq_iff u.username name,
            count-append (has_name name) db.users (fresh_row env u db ∷ []),
            count_of-find-none (has_name u.username) db.users free,
          )
      | inr other ↦
          unfold count in
          ground
            (arith, count-append (has_name name) db.users (fresh_row env u db ∷ []), t.unique name)
    ]

pub delete-IsTable : (env : Env) (id : ℕ) (db : Db) → IsTable db → IsTable (delete env id db).1
delete-IsTable env id db t = elim (delete_cases env id db) [
  | inl e ↦ rw e t
  | inr e ↦ rw e (record {
    ascending = IsAscending-remove_id id 0 db.next_id db.users t.ascending;
    unique = λ name. omega (arith, count-remove_id-le (has_name name) id db.users, t.unique name);
  })
]
