-- ===== src/Jobs/Memory/Places.antt =====
-- internal/jobs/memory.go: where a task and a job stand in the store as calls pass.
use mathlib.Core.Path.{subst}
use mathlib.Core.Option.{some-injective}
use aquila.Base.{
  ℕ, zero, suc, ◌≡◌, refl, ap, ◌∙◌, Str, inl, inr, none, some, List, [], ◌∷◌, set, get_elem?, arith,
  Bool-cases, Option-cases, str_eq, str_eq_refl,
}
use aquila.Jobs.{Task, Job}
use aquila.Jobs.Lifecycle.Moves.{Moved, AllMoved}
use aquila.Jobs.Memory.{Table, Found, find_job, put_job, find_in_tasks, find_task}
use aquila.Jobs.Memory.Invariant.{Extends}

module _ (tid : Str) where
  find_in_tasks-Moved :
      (ts us : List Task) (i : ℕ) (t : Task)
      → AllMoved ts us
      → find_in_tasks tid ts ≡ some (i, t)
      → (u : Task) × (find_in_tasks tid us ≡ some (i, u)) × Moved t u
  unfolding find_in_tasks
  find_in_tasks-Moved [] us i t m e = absurd (ground arith)
  find_in_tasks-Moved (x ∷ ts) [] i t m e = absurd m
  find_in_tasks-Moved (x ∷ ts) (y ∷ us) i t m e = elim (Bool-cases (str_eq x.id tid)) [
    | inl q ↦
        let ei : i ≡ 0 = ground arith in
        let et : x ≡ t = ground arith in
        (y, rw ((m.0).same_id, q, ei), subst (λ (z : Task). Moved z y) et m.0)
    | inr q ↦ elim (Option-cases (find_in_tasks tid ts)) [
      | inl n ↦ absurd (ground arith)
      | inr ((k, v), n) ↦
          let ei : i ≡ suc k = ground arith in
          let et : v ≡ t = ground arith in
          let (u, fu, mu) = find_in_tasks-Moved ts us k v m.1 n in
          (u, rw ((m.0).same_id, q, fu, ei), subst (λ (z : Task). Moved z u) et mu)
    ]
  ]

  find_in_tasks-gone :
      (ts us : List Task)
      → AllMoved ts us
      → find_in_tasks tid ts ≡ none
      → find_in_tasks tid us ≡ none
  unfolding find_in_tasks
  find_in_tasks-gone [] [] m e = refl
  find_in_tasks-gone [] (y ∷ us) m e = absurd m
  find_in_tasks-gone (x ∷ ts) [] m e = absurd m
  find_in_tasks-gone (x ∷ ts) (y ∷ us) m e = elim (Bool-cases (str_eq x.id tid)) [
    | inl q ↦ absurd (ground arith)
    | inr q ↦ elim (Option-cases (find_in_tasks tid ts)) [
      | inl n ↦ rw ((m.0).same_id, q, find_in_tasks-gone ts us m.1 n)
      | inr ((k, v), n) ↦ absurd (ground arith)
    ]
  ]

  -- The first task of an id keeps its place in the store.
  pub find_task-Moved :
      (ts us : Table) (f : Found)
      → Extends ts us
      → find_task tid ts ≡ some f
      → (g : Found) × (find_task tid us ≡ some g)
        × (g.key ≡ f.key)
        × (g.index ≡ f.index)
        × Moved f.task g.task
  unfolding find_task
  find_task-Moved [] us f x e = absurd (ground arith)
  find_task-Moved ((a, j) ∷ ts) [] f x e = absurd x
  find_task-Moved ((a, j) ∷ ts) ((b, k) ∷ us) f x e =
      elim (Option-cases (find_in_tasks tid j.tasks)) [
        | inl n ↦
            let gone = find_in_tasks-gone j.tasks k.tasks (x.1).tasks_moved n in
            let (g, fg, gk, gi, gm) = find_task-Moved ts us f x.2 (rw (n, find_task) at e) in
            (g, rw (gone, find_task) fg, gk, gi, gm)
        | inr ((i, t), n) ↦
            let (u, fu, mu) = find_in_tasks-Moved j.tasks k.tasks i t (x.1).tasks_moved n in
            let ef : record { key = a; job = j; index = i; task = t } ≡ f =
              some-injective _ _ (rw (n, find_task) at e) in
            (
              record { key = b; job = k; index = i; task = u },
              rw (fu, find_task),
              x.0 ∙ ap (λ (y : Found). y.key) ef,
              ap (λ (y : Found). y.index) ef,
              subst (λ (y : Found). Moved y.task u) ef mu,
            )
      ]

pub find_put : (id : Str) (j : Job) (ts : Table) → find_job id (put_job id j ts) ≡ some j
unfolding find_job put_job
find_put id j [] = rw (str_eq_refl id)
find_put id j ((k, x) ∷ ts) = elim (Bool-cases (str_eq k id)) [
  | inl q ↦ rw (q, find_job) (rw q)
  | inr q ↦ rw (q, find_job) (rw q (find_put id j ts))
]

pub get-set :
    (ts : List Task) (i : ℕ) (t u : Task)
    → get_elem? ts i ≡ some t
    → get_elem? (set ts i u) i ≡ some u
get-set [] i t u e = absurd (ground arith)
get-set (x ∷ ts) zero t u e = refl
get-set (x ∷ ts) (suc i) t u e = get-set ts i t u e

pub Moved-at :
    (ts us : List Task) (i : ℕ) (t u : Task)
    → AllMoved ts us
    → get_elem? ts i ≡ some t
    → get_elem? us i ≡ some u
    → Moved t u
Moved-at [] us i t u m e f = absurd (ground arith)
Moved-at (x ∷ ts) [] i t u m e f = absurd m
Moved-at (x ∷ ts) (y ∷ us) zero t u m e f =
    subst (λ (z : Task). Moved z u) (some-injective _ _ e)
      (subst (λ (z : Task). Moved x z) (some-injective _ _ f) m.0)
Moved-at (x ∷ ts) (y ∷ us) (suc i) t u m e f = Moved-at ts us i t u m.1 e f
