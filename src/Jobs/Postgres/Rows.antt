-- ===== src/Jobs/Postgres/Rows.antt =====
-- internal/jobs/postgres.go: rows, the jobs that a query locks, and the search for a task.
use mathlib.Core.Option.{some-injective}
use aquila.Base.{
  ℕ, ◌≡◌, ◌≢◌, refl, sym, ap, ◌∙◌, Str, true, inl, inr, Option, none, some, List, [], ◌∷◌, map,
  arith, Bool-cases, Option-cases, All, All-In, In, filter_by, str_eq, str_eq_refl, str_eq→eq,
  if◌then◌else◌, sort_by, sort_by-In, In-sort_by, In-map, map-In, In-filter, filter-In, Distinct,
  str_ne,
}
use aquila.Url.{UrlPackage}
use aquila.Jobs.{Task, Job}
use aquila.Jobs.Memory.{find_in_tasks}
use aquila.Jobs.Postgres.{
  Row, Rows, find_row, update_job, is_active, row_before, find_spot, decode_job, lock_jobs,
}

abbrev pub row_ids : Rows → List Str
row_ids = map λ (r : Row). r.id

-- What updateJobSQL makes of a row.
abbrev pub updated : Job → Row → Row
updated job r =
    if str_eq r.id job.id
    then record r { status = job.status; validated = job.validated; payload = job }
    else r

pub updated-id : (job : Job) (r : Row) → (updated job r).id ≡ r.id
updated-id job r = elim (Bool-cases (str_eq r.id job.id)) [ inl q ↦ rw q | inr q ↦ rw q ]

pub row_ids-update : (job : Job) (rows : Rows) → row_ids (update_job job rows) ≡ row_ids rows
unfolding update_job
row_ids-update job [] = refl
row_ids-update job (r ∷ rows) =
    rw (updated-id job r) (ap (λ (ids : List Str). r.id ∷ ids) (row_ids-update job rows))

module _ (P : Row → Type 0) where
  pub update_job-All :
      (job : Job) (rows : Rows)
      → All P rows
      → ((r : Row) → P r → r.id ≡ job.id → P (updated job r))
      → All P (update_job job rows)
  unfolding update_job
  update_job-All job [] h f = tt
  update_job-All job (r ∷ rows) h f = elim (Bool-cases (str_eq r.id job.id)) [
    | inl q ↦ (f r h.0 (str_eq→eq r.id job.id q), update_job-All job rows h.1 f)
    | inr q ↦ (rw q (h.0), update_job-All job rows h.1 f)
  ]

abbrev pub map_some : {A B : Type 0} → (A → B) → Option A → Option B
map_some f none = none
map_some f (some a) = some (f a)

-- Reading a row after a write.
pub find_row-update :
    (id : Str) (job : Job) (rows : Rows)
    → find_row id (update_job job rows) ≡ map_some (updated job) (find_row id rows)
unfolding find_row update_job
find_row-update id job [] = refl
find_row-update id job (r ∷ rows) = elim (Bool-cases (str_eq r.id id)) [
  | inl q ↦ rw (updated-id job r) (rw q)
  | inr q ↦ rw (updated-id job r) (rw q (find_row-update id job rows))
]

pub find_row-In :
    (id : Str) (r : Row) (rows : Rows) → find_row id rows ≡ some r → In r rows × (r.id ≡ id)
unfolding find_row
find_row-In id r [] e = absurd (ground arith)
find_row-In id r (q ∷ rows) e = elim (Bool-cases (str_eq q.id id)) [
  | inl b ↦
      let eq : q ≡ r = some-injective _ _ (rw b at e) in
      (inl (sym eq), ap (λ (x : Row). x.id) (sym eq) ∙ str_eq→eq q.id id b)
  | inr b ↦ let (m, i) = find_row-In id r rows (rw b at e) in (inr m, i)
]

In-row_ids : (r : Row) (rows : Rows) → In r rows → In r.id (row_ids rows)
In-row_ids r [] m = absurd m
In-row_ids r (q ∷ rows) (inl e) = inl (ap (λ (x : Row). x.id) e)
In-row_ids r (q ∷ rows) (inr m) = inr (In-row_ids r rows m)

pub In-find_row :
    (r : Row) (rows : Rows) → Distinct (row_ids rows) → In r rows → find_row r.id rows ≡ some r
unfolding find_row
In-find_row r [] d m = absurd m
In-find_row r (q ∷ rows) d (inl e) = rw e (rw (str_eq_refl q.id))
In-find_row r (q ∷ rows) d (inr m) =
    let ne = All-In (λ (x : Str). q.id ≢ x) (row_ids rows) r.id d.0 (In-row_ids r rows m) in
    rw (str_ne q.id r.id ne) (In-find_row r rows d.1 m)

-- The jobs that are locked are those of the active rows.
module _ (urls : UrlPackage) where
  pub In-lock_jobs :
      (r : Row) (rows : Rows)
      → In r rows
      → is_active r ≡ true
      → In (decode_job urls r) (lock_jobs urls rows)
  unfolding lock_jobs
  In-lock_jobs r rows m a =
      In-map (decode_job urls) r (sort_by row_before (filter_by is_active rows))
        (In-sort_by row_before r (filter_by is_active rows) (In-filter is_active r rows m a))

  pub lock_jobs-In :
      (j : Job) (rows : Rows)
      → In j (lock_jobs urls rows)
      → (r : Row) × In r rows × (is_active r ≡ true) × (j ≡ decode_job urls r)
  unfolding lock_jobs
  lock_jobs-In j rows m =
      let (r, k, e) =
        map-In (decode_job urls) j (sort_by row_before (filter_by is_active rows)) m in
      let h = filter-In is_active r rows (sort_by-In row_before r (filter_by is_active rows) k) in
      (r, h.0, h.1, e)

-- The search finds the task of a job that is alone in having one of that id.
module _ (tid : Str) where
  pub find_spot-only :
      (j : Job) (i : ℕ) (t : Task) (js : List Job)
      → In j js
      → find_in_tasks tid j.tasks ≡ some (i, t)
      → ((k : Job) → In k js → find_in_tasks tid k.tasks ≢ none → k ≡ j)
      → find_spot tid js ≡ some (record { job = j; index = i; task = t })
  unfolding find_spot
  find_spot-only j i t [] m h alone = absurd m
  find_spot-only j i t (k ∷ js) m h alone = elim (Option-cases (find_in_tasks tid k.tasks)) [
    | inr ((a, u), e) ↦
        let ej : k ≡ j = alone k (inl refl) (ground arith) in rw ej (rw (h, find_spot))
    | inl n ↦ elim m [
      | inl e ↦ absurd (
          let h' : none ≡ some (i, t) =
            sym n ∙ ap (λ (x : Job). find_in_tasks tid x.tasks) (sym e) ∙ h in
          ground arith)
      | inr m' ↦ rw (n, find_spot) (find_spot-only j i t js m' h (λ x y z. alone x (inr y) z))
    ]
  ]

  pub find_spot-none :
      (js : List Job)
      → ((k : Job) → In k js → find_in_tasks tid k.tasks ≡ none)
      → find_spot tid js ≡ none
  unfolding find_spot
  find_spot-none [] f = refl
  find_spot-none (k ∷ js) f =
      rw (f k (inl refl), find_spot) (find_spot-none js (λ x m. f x (inr m)))
