-- ===== src/Database/Rows.antt =====
-- The rows of the job history: their ids and their number (`Create`, `trim`, `Finish` and
-- `FailRunning` of internal/store/database.go).
use touchgrass.Base.{
  ℕ, suc, ◌-◌, ◌≤◌, ◌<◌, ◌≡◌, refl, sym, ap, subst, inl, inr, Bool, ltb, List, [], ◌∷◌, ◌++◌, map,
  length, length-append, count, select, All, append-All, select-All, All_mono, arith, Bool-cases,
}
use touchgrass.Database.Jobs.{DbJob, max_jobs, is_newer, trim_jobs}

-- Every row is older than those after it.
abbrev pub IsAscending : List DbJob → Type 0
IsAscending [] = Unit
IsAscending (row ∷ rows) = All (λ other. row.id < other.id) rows × IsAscending rows

select-IsAscending :
    (p : DbJob → Bool) (rows : List DbJob) → IsAscending rows → IsAscending (select p rows)
unfolding select
select-IsAscending p [] a = tt
select-IsAscending p (row ∷ rows) a = elim (Bool-cases (p row)) [
  | inl kept ↦
      rw kept (select-All (λ other. row.id < other.id) p rows a.0, select-IsAscending p rows a.1)
  | inr cut ↦ rw cut (select-IsAscending p rows a.1)
]

-- A row that is older than all of these does not count among the newer ones.
head_apart :
    (row : DbJob) (keep : ℕ) (all rows : List DbJob)
    → All (λ other. row.id < other.id) rows
    → select (λ r. ltb (count (is_newer r) (row ∷ all)) keep) rows
      ≡ select (λ r. ltb (count (is_newer r) all) keep) rows
unfolding select count is_newer
head_apart row keep all [] a = refl
head_apart row keep all (r ∷ rows) a = ground (arith, a.0, head_apart row keep all rows a.1)

count-newer :
    (row : DbJob) (rows : List DbJob)
    → All (λ other. row.id < other.id) rows
    → count (is_newer row) rows ≡ length rows
unfolding count is_newer
count-newer row [] a = refl
count-newer row (r ∷ rows) a = ground (arith, a.0, count-newer row rows a.1)

trim_jobs-bounds :
    (keep : ℕ) (rows : List DbJob)
    → IsAscending rows
    → (length (trim_jobs keep rows) ≤ keep) × (length (trim_jobs keep rows) ≤ length rows)
unfolding trim_jobs select count is_newer
trim_jobs-bounds keep [] a = (omega arith, omega arith)
trim_jobs-bounds keep (row ∷ rows) a =
    unfold is_newer in
    ground (
      arith,
      trim_jobs-bounds keep rows a.1,
      head_apart row keep rows rows a.0,
      count-newer row rows a.0,
    )

map-id-All :
    (f : DbJob → DbJob) (same : (row : DbJob) → (f row).id ≡ row.id) (P : ℕ → Type 0)
    (rows : List DbJob)
    → All (λ row. P row.id) rows
    → All (λ row. P row.id) (map f rows)
map-id-All f same P [] a = tt
map-id-All f same P (row ∷ rows) a = (subst P (sym (same row)) a.0, map-id-All f same P rows a.1)

map-id-IsAscending :
    (f : DbJob → DbJob) (same : (row : DbJob) → (f row).id ≡ row.id) (rows : List DbJob)
    → IsAscending rows
    → IsAscending (map f rows)
map-id-IsAscending f same [] a = tt
map-id-IsAscending f same (row ∷ rows) a = (
  map-id-All f same (λ id. (f row).id < id) rows
      (subst (λ id. All (λ other. id < other.id) rows) (sym (same row)) a.0),
  map-id-IsAscending f same rows a.1,
)

length-map : (f : DbJob → DbJob) (rows : List DbJob) → length (map f rows) ≡ length rows
length-map f [] = refl
length-map f (row ∷ rows) = ap suc (length-map f rows)

append-IsAscending :
    (rows : List DbJob) (row : DbJob)
    → IsAscending rows
    → All (λ other. other.id < row.id) rows
    → IsAscending (rows ++ row ∷ [])
append-IsAscending [] row a b = (tt, tt)
append-IsAscending (r ∷ rows) row a b = (
  append-All (λ other. r.id < other.id) rows (row ∷ []) a.0 (b.0, tt),
  append-IsAscending rows row a.1 b.1,
)

-- The rows of a service: ascending ids that have been given out, and no more than the limit.
pub record IsBounded (rows : List DbJob) (next_id : ℕ) : Type 0 where
  pub ascending : IsAscending rows
  pub given : All (λ row. row.id < next_id) rows
  pub bounded : length rows ≤ max_jobs

pub IsBounded-map :
    (f : DbJob → DbJob) (same : (row : DbJob) → (f row).id ≡ row.id) (rows : List DbJob) (n : ℕ)
    → IsBounded rows n
    → IsBounded (map f rows) n
IsBounded-map f same rows n b = record {
  ascending = map-id-IsAscending f same rows b.ascending;
  given = map-id-All f same (λ id. id < n) rows b.given;
  bounded = subst (λ k. k ≤ max_jobs) (sym (length-map f rows)) b.bounded;
}

pub IsBounded-trim :
    (rows : List DbJob) (n : ℕ) → IsBounded rows n → IsBounded (trim_jobs (max_jobs - 1) rows) n
unfolding trim_jobs
IsBounded-trim rows n b =
    let newest = λ (row : DbJob). ltb (count (is_newer row) rows) (max_jobs - 1) in
    let less = trim_jobs-bounds (max_jobs - 1) rows b.ascending in
    record {
      ascending = select-IsAscending newest rows b.ascending;
      given = select-All (λ row. row.id < n) newest rows b.given;
      bounded = omega (arith, less);
    }

pub IsBounded-create :
    (rows : List DbJob) (row : DbJob)
    → IsBounded rows row.id
    → IsBounded (trim_jobs (max_jobs - 1) rows ++ row ∷ []) (suc row.id)
IsBounded-create rows row b =
    let trimmed = IsBounded-trim rows row.id b in
    let less = trim_jobs-bounds (max_jobs - 1) rows b.ascending in
    record {
      ascending =
          append-IsAscending (trim_jobs (max_jobs - 1) rows) row trimmed.ascending trimmed.given;
      given =
          append-All (λ other. other.id < suc row.id) (trim_jobs (max_jobs - 1) rows) (row ∷ [])
            (All_mono (λ other. other.id < row.id) (λ other. other.id < suc row.id)
              (trim_jobs (max_jobs - 1) rows) (λ other l. omega (arith, l)) trimmed.given)
            (omega arith, tt);
      bounded = omega (arith, less, length-append (trim_jobs (max_jobs - 1) rows) (row ∷ []));
    }
