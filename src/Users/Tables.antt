-- ===== src/Users/Tables.antt =====
-- Facts about the table of accounts: ids ascend, so an id selects at most one row.
use touchgrass.Base.{
  ℕ, suc, ◌+◌, ◌≤◌, ◌<◌, ◌≡◌, refl, ◌≢◌, inl, inr, Bool, true, ◌==◌, if◌then◌else◌, Text, none,
  some, List, [], ◌∷◌, ◌++◌, map, count, find, arith, Bool-cases,
}
use touchgrass.Users.Store.{User, has_id, has_name, rewrite, remove_id}

-- Ids strictly ascend from `lo` and stay below `hi`.
abbrev pub IsAscending : ℕ → ℕ → List User → Type 0
IsAscending lo hi [] = lo ≤ hi
IsAscending lo hi (u ∷ us) = (lo ≤ u.id) × IsAscending (suc u.id) hi us

-- One row's share of a count.
abbrev pub share : (User → Bool) → User → ℕ
share p u = if p u then 1 else 0

IsAscending-le : (lo hi : ℕ) (us : List User) → IsAscending lo hi us → lo ≤ hi
IsAscending-le lo hi [] h = h
IsAscending-le lo hi (u ∷ us) h = omega (arith, IsAscending-le (suc u.id) hi us h.1)

pub rewrite-ne : (v u : User) → u.id ≢ v.id → rewrite v u ≡ u
unfolding rewrite
rewrite-ne v u h = ground arith

pub id-rewrite : (v u : User) → (rewrite v u).id ≡ u.id
unfolding rewrite
id-rewrite v u = ground arith

pub username-rewrite : (v u : User) → (rewrite v u).username ≡ u.username
unfolding rewrite
username-rewrite v u = ground arith

-- Rows above the rewritten id stay as they are.
map-rewrite_above :
    (v : User) (lo hi : ℕ) (us : List User)
    → v.id < lo
    → IsAscending lo hi us
    → map (rewrite v) us ≡ us
map-rewrite_above v lo hi [] l h = refl
map-rewrite_above v lo hi (u ∷ us) l h =
    ground (arith, rewrite-ne v u, map-rewrite_above v (suc u.id) hi us (omega arith) h.1)

remove_id_above :
    (id lo hi : ℕ) (us : List User) → id < lo → IsAscending lo hi us → remove_id id us ≡ us
unfolding remove_id
remove_id_above id lo hi [] l h = refl
remove_id_above id lo hi (u ∷ us) l h =
    ground (arith, remove_id_above id (suc u.id) hi us (omega arith) h.1)

-- A rewrite moves one row's share of any count.
pub count-rewrite :
    (p : User → Bool) (v : User) (lo hi : ℕ) (us : List User) {u : User}
    → IsAscending lo hi us
    → find (has_id v.id) us ≡ some u
    → count p (map (rewrite v) us) + share p u ≡ count p us + share p (rewrite v u)
unfolding find count
count-rewrite p v lo hi [] h e = ground arith
count-rewrite p v lo hi (w ∷ us) {u} h e = elim (Bool-cases (w.id == v.id)) [
  | inl hit ↦ ground (arith, map-rewrite_above v (suc w.id) hi us (ground arith) h.1)
  | inr miss ↦ ground (arith, rewrite-ne v w, count-rewrite p v (suc w.id) hi us {u = u} h.1)
]

-- A deletion takes one row's share away.
pub count-remove_id :
    (p : User → Bool) (id lo hi : ℕ) (us : List User) {u : User}
    → IsAscending lo hi us
    → find (has_id id) us ≡ some u
    → count p (remove_id id us) + share p u ≡ count p us
unfolding find count remove_id
count-remove_id p id lo hi [] h e = ground arith
count-remove_id p id lo hi (w ∷ us) {u} h e = elim (Bool-cases (w.id == id)) [
  | inl hit ↦ ground (arith, remove_id_above id (suc w.id) hi us (ground arith) h.1)
  | inr miss ↦ ground (arith, count-remove_id p id (suc w.id) hi us {u = u} h.1)
]

pub count-remove_id-le :
    (p : User → Bool) (id : ℕ) (us : List User) → count p (remove_id id us) ≤ count p us
unfolding count remove_id
count-remove_id-le p id [] = omega arith
count-remove_id-le p id (u ∷ us) = ground (arith, count-remove_id-le p id us)

pub IsAscending-rewrite :
    (v : User) (lo hi : ℕ) (us : List User)
    → IsAscending lo hi us
    → IsAscending lo hi (map (rewrite v) us)
IsAscending-rewrite v lo hi [] h = h
IsAscending-rewrite v lo hi (u ∷ us) h =
    rw (id-rewrite v u) (h.0, IsAscending-rewrite v (suc u.id) hi us h.1)

IsAscending-mono :
    (lo lo' hi : ℕ) (us : List User) → lo' ≤ lo → IsAscending lo hi us → IsAscending lo' hi us
IsAscending-mono lo lo' hi [] l h = omega arith
IsAscending-mono lo lo' hi (u ∷ us) l h = (omega arith, h.1)

pub IsAscending-remove_id :
    (id lo hi : ℕ) (us : List User) → IsAscending lo hi us → IsAscending lo hi (remove_id id us)
unfolding remove_id
IsAscending-remove_id id lo hi [] h = h
IsAscending-remove_id id lo hi (u ∷ us) h = elim (Bool-cases (u.id == id)) [
  | inl hit ↦ rw hit (
      IsAscending-mono (suc u.id) lo hi (remove_id id us) (omega arith)
        (IsAscending-remove_id id (suc u.id) hi us h.1))
  | inr miss ↦ rw miss (h.0, IsAscending-remove_id id (suc u.id) hi us h.1)
]

pub IsAscending-append :
    (lo hi : ℕ) (us : List User) (u : User)
    → IsAscending lo hi us
    → u.id ≡ hi
    → IsAscending lo (suc hi) (us ++ u ∷ [])
IsAscending-append lo hi [] u h e = (omega arith, omega arith)
IsAscending-append lo hi (w ∷ us) u h e = (h.0, IsAscending-append (suc w.id) hi us u h.1 e)

-- Usernames are never rewritten.
pub count-has_name-rewrite :
    (v : User) (name : Text) (us : List User)
    → count (has_name name) (map (rewrite v) us) ≡ count (has_name name) us
unfolding count
count-has_name-rewrite v name [] = refl
count-has_name-rewrite v name (u ∷ us) = rw (username-rewrite v u, count-has_name-rewrite v name us)

-- A search that finds nothing counts nothing.
pub count_of-find-none : (p : User → Bool) (us : List User) → find p us ≡ none → count p us ≡ 0
unfolding find count
count_of-find-none p [] e = refl
count_of-find-none p (u ∷ us) e = ground (arith, count_of-find-none p us)

-- The row that is found passes the test.
pub find_sound : (p : User → Bool) (us : List User) {u : User} → find p us ≡ some u → p u ≡ true
unfolding find
find_sound p [] e = ground arith
find_sound p (w ∷ us) {u} e = elim (Bool-cases (p w)) [
  | inl hit ↦ ground arith
  | inr miss ↦ ground (arith, find_sound p us {u = u})
]

-- A row that a search finds has its share in every count.
pub share-le-count :
    (p q : User → Bool) (us : List User) {u : User} → find q us ≡ some u → share p u ≤ count p us
unfolding find count
share-le-count p q [] h = ground arith
share-le-count p q (w ∷ us) {u} h = ground (arith, share-le-count p q us {u = u})

-- Names are unique, so the row found in another way is the row found by its name.
pub find-has_name :
    (name : Text) (q : User → Bool) (us : List User) {u : User}
    → count (has_name name) us ≤ 1
    → find q us ≡ some u
    → has_name name u ≡ true
    → find (has_name name) us ≡ some u
unfolding find count
find-has_name name q [] c e h = ground arith
find-has_name name q (w ∷ us) {u} c e h =
    ground (arith, share-le-count (has_name name) q us {u = u}, find-has_name name q us {u = u})

-- A rewrite keeps names, so it commutes with the search for one.
pub find-has_name-rewrite :
    (name : Text) (v : User) (us : List User) {u : User}
    → find (has_name name) us ≡ some u
    → find (has_name name) (map (rewrite v) us) ≡ some (rewrite v u)
unfolding find
find-has_name-rewrite name v [] e = ground arith
find-has_name-rewrite name v (w ∷ us) {u} e =
    ground (arith, username-rewrite v w, find-has_name-rewrite name v us {u = u})

pub find-none_of-count : (p : User → Bool) (us : List User) → count p us ≡ 0 → find p us ≡ none
unfolding find count
find-none_of-count p [] e = refl
find-none_of-count p (u ∷ us) e = ground (arith, find-none_of-count p us)
