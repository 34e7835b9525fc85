-- ===== src/Jobs/Memory/Tables.antt =====
-- The map of the store as an association list: what a write changes, and what holds of every job.
use mathlib.Core.Path.{subst}
use mathlib.Core.Option.{some-injective}
use aquila.Base.{
  ℕ, zero, suc, ◌≡◌, ◌≢◌, refl, sym, ap, ◌∙◌, Str, true, ◌⊎◌, inl, inr, Option, none, some, List,
  [], ◌∷◌, ◌++◌, map, get_elem?, arith, Bool-cases, Option-cases, All, In, All-In, str_eq,
  str_eq_refl, str_eq→eq, Distinct, str_ne,
}
use aquila.Jobs.{Task, Job}
use aquila.Jobs.Memory.{
  Table, Found, cons_some, find_job, put_job, jobs_in, find_in_tasks, find_task,
}

abbrev pub keys : Table → List Str
keys = map λ (e : Str × Job). e.0

abbrev pub values : Table → List Job
values = map λ (e : Str × Job). e.1

abbrev pub Entries : (Str × Job → Type 0) → Table → Type 0
Entries P = All P

module _ (P : Str × Job → Type 0) where
  pub put_job-All :
      (id : Str) (j : Job) (table : Table)
      → Entries P table
      → P (id, j)
      → Entries P (put_job id j table)
  unfolding put_job
  put_job-All id j [] h p = (p, tt)
  put_job-All id j ((k, x) ∷ table) h p = elim (Bool-cases (str_eq k id)) [
    | inl e ↦ let e' = str_eq→eq k id e in rw e (subst (λ (q : Str). P (q, j)) (sym e') p, h.1)
    | inr e ↦ rw e (h.0, put_job-All id j table h.1 p)
  ]

  pub find_job-All :
      (id : Str) (j : Job) (table : Table)
      → Entries P table
      → find_job id table ≡ some j
      → P (id, j)
  unfolding find_job
  find_job-All id j [] h e = absurd (ground arith)
  find_job-All id j ((k, x) ∷ table) h e = elim (Bool-cases (str_eq k id)) [
    | inl q ↦
        let q' = str_eq→eq k id q in
        let x' : x ≡ j = ground arith in
        subst (λ (y : Job). P (id, y)) x' (subst (λ (s : Str). P (s, x)) q' h.0)
    | inr q ↦ find_job-All id j table h.1 (ground arith)
  ]

-- A write to a key that is there leaves the keys as they were; another adds its key at the end.
pub keys-put_job :
    (id : Str) (i j : Job) (table : Table)
    → find_job id table ≡ some i
    → keys (put_job id j table) ≡ keys table
unfolding put_job find_job
keys-put_job id i j [] e = absurd (ground arith)
keys-put_job id i j ((k, x) ∷ table) e = elim (Bool-cases (str_eq k id)) [
  | inl q ↦ rw q
  | inr q ↦ rw q (ap (λ (ks : List Str). k ∷ ks) (keys-put_job id i j table (ground arith)))
]

pub put_job-new :
    (id : Str) (j : Job) (table : Table)
    → find_job id table ≡ none
    → put_job id j table ≡ table ++ (id, j) ∷ []
unfolding put_job find_job
put_job-new id j [] e = refl
put_job-new id j ((k, x) ∷ table) e = elim (Bool-cases (str_eq k id)) [
  | inl q ↦ absurd (ground arith)
  | inr q ↦ rw q (ap (λ (r : Table). (k, x) ∷ r) (put_job-new id j table (ground arith)))
]

get-cons_some :
    (o : Option Job) (js : List Job) (i : ℕ) (j : Job)
    → get_elem? (cons_some o js) i ≡ some j
    → (o ≡ some j) ⊎ ((k : ℕ) × (get_elem? js k ≡ some j))
get-cons_some none js i j e = inr (i, e)
get-cons_some (some x) js zero j e = inl e
get-cons_some (some x) js (suc i) j e = inr (i, e)

-- What jobs_in lists stands in the table.
pub jobs_in-found :
    (table : Table) (ids : List Str) (i : ℕ) (j : Job)
    → get_elem? (jobs_in table ids) i ≡ some j
    → (id : Str) × (find_job id table ≡ some j)
unfolding jobs_in
jobs_in-found table [] i j e = absurd (ground arith)
jobs_in-found table (id ∷ ids) i j e =
    elim (get-cons_some (find_job id table) (jobs_in table ids) i j e) [
      | inl h ↦ (id, h)
      | inr (k, h) ↦ jobs_in-found table ids k j h
    ]

-- A table whose keys are distinct is listed as it stands, by its keys in order.
jobs_in-skip :
    (id : Str) (j : Job) (table : Table) (ids : List Str)
    → All (λ (x : Str). id ≢ x) ids
    → jobs_in ((id, j) ∷ table) ids ≡ jobs_in table ids
unfolding jobs_in find_job
jobs_in-skip id j table [] h = refl
jobs_in-skip id j table (x ∷ ids) h = rw (str_ne id x h.0) (rw (jobs_in-skip id j table ids h.1))

pub jobs_in-keys :
    (table : Table) → Distinct (keys table) → jobs_in table (keys table) ≡ values table
unfolding jobs_in find_job
jobs_in-keys [] d = refl
jobs_in-keys ((id, j) ∷ table) d = rw (str_eq_refl id) (
    ap (λ (js : List Job). j ∷ js)
      (jobs_in-skip id j table (keys table) d.0 ∙ jobs_in-keys table d.1))

-- The task that is found stands at its place in its job.
pub find_in_tasks-get :
    (tid : Str) (ts : List Task) (i : ℕ) (t : Task)
    → find_in_tasks tid ts ≡ some (i, t)
    → (get_elem? ts i ≡ some t) × (t.id ≡ tid)
unfolding find_in_tasks
find_in_tasks-get tid [] i t e = absurd (ground arith)
find_in_tasks-get tid (x ∷ ts) i t e = elim (Bool-cases (str_eq x.id tid)) [
  | inl q ↦ first q i e
  | inr q ↦ elim (Option-cases (find_in_tasks tid ts)) [
    | inl n ↦ absurd (ground arith)
    | inr ((k, u), n) ↦
        let h = find_in_tasks-get tid ts k u n in
        let ei : i ≡ suc k = ground arith in let et : t ≡ u = ground arith in rw (ei, et) h
  ]
]
  where
    first :
        str_eq x.id tid ≡ true
        → (i : ℕ) → find_in_tasks tid (x ∷ ts) ≡ some (i, t)
        → (get_elem? (x ∷ ts) i ≡ some t) × (t.id ≡ tid)
    first q i e =
        let q' = str_eq→eq x.id tid q in
        let ei : i ≡ 0 = ground arith in
        let et : x ≡ t = ground arith in rw ei (ap some et, ap (λ (y : Task). y.id) (sym et) ∙ q')

find_job-here : (k : Str) (j : Job) (table : Table) → find_job k ((k, j) ∷ table) ≡ some j
unfolding find_job
find_job-here k j table = rw (str_eq_refl k)

find_job-skip :
    (k id : Str) (j : Job) (table : Table)
    → k ≢ id
    → find_job id ((k, j) ∷ table) ≡ find_job id table
unfolding find_job
find_job-skip k id j table h = rw (str_ne k id h)

pub In-keys : (id : Str) (j : Job) (table : Table) → find_job id table ≡ some j → In id (keys table)
unfolding find_job
In-keys id j [] e = absurd (ground arith)
In-keys id j ((k, x) ∷ table) e = elim (Bool-cases (str_eq k id)) [
  | inl q ↦ inl (sym (str_eq→eq k id q))
  | inr q ↦ inr (In-keys id j table (ground arith))
]

pub find_task-found :
    (tid : Str) (table : Table) (f : Found)
    → Distinct (keys table)
    → find_task tid table ≡ some f
    → (find_job f.key table ≡ some f.job)
      × (get_elem? f.job.tasks f.index ≡ some f.task)
      × (f.task.id ≡ tid)
unfolding find_task
find_task-found tid [] f d e = absurd (ground arith)
find_task-found tid ((k, j) ∷ table) f d e = elim (Option-cases (find_in_tasks tid j.tasks)) [
  | inl n ↦
      let h = find_task-found tid table f d.1 (rw (n, find_task) at e) in
      let ne = All-In (λ (x : Str). k ≢ x) (keys table) f.key d.0 (In-keys f.key f.job table h.0) in
      (find_job-skip k f.key j table ne ∙ h.0, h.1, h.2)
  | inr ((i, t), n) ↦
      let g = find_in_tasks-get tid j.tasks i t n in
      let ef : record { key = k; job = j; index = i; task = t } ≡ f =
        some-injective _ _ (rw (n, find_task) at e) in
      subst
        (λ (f : Found).
          (find_job f.key ((k, j) ∷ table) ≡ some f.job)
          × (get_elem? f.job.tasks f.index ≡ some f.task)
          × (f.task.id ≡ tid))
        ef (find_job-here k j table, g.0, g.1)
]
