-- ===== src/Jobs/Memory/Held.antt =====
-- How many leases the tasks of a job hold, before and after each operation on it.
use aquila.Base.{
  ℕ, zero, suc, ◌+◌, ◌≤◌, ◌≡◌, refl, Str, true, false, ◌||◌, inl, inr, some, List, [], ◌∷◌, map,
  any, set, get_elem?, length, if◌then◌else◌, arith, Bool-cases, count_by,
}
use mathlib.Core.Option.{some-injective}
use aquila.Url.{UrlPackage}
use aquila.Plan
use aquila.Plan.{StepResult}
use aquila.Jobs.{Time, Task, Job, ok}
use aquila.Jobs.Dag.{settle_task, settle_round, settle_rounds, settle, state_by_plan, moves}
use aquila.Jobs.Attempt.{apply_commit, apply_heartbeat, requeue, is_expired}
use aquila.Jobs.Lifecycle.{
  refresh_job, cancel_task, expire_task, apply_cancel, fail_deadline, expire_job, is_over,
  is_overdue,
}
use aquila.Jobs.Quota.{is_leased}
use aquila.Jobs.Create.{CreateOpts, tasks_of_plan, draft_job, build_job}
use aquila.Jobs.Create.Built.{built}

abbrev pub held : List Task → ℕ
held = count_by is_leased

held-map :
    (f : Task → Task)
    → ((t : Task) → is_leased (f t) ≡ true → is_leased t ≡ true)
    → (ts : List Task) → held (map f ts) ≤ held ts
held-map f h [] = omega arith
held-map f h (t ∷ ts) =
    let ih = held-map f h ts in
    elim (Bool-cases (is_leased (f t))) [
      | inl y ↦ rw (y, h t y) (omega (arith, ih))
      | inr n ↦ rw n (ground arith)
    ]

pub held-set :
    (ts : List Task) (i : ℕ) (t u : Task)
    → get_elem? ts i ≡ some t
    → held (set ts i u) + (if is_leased t then 1 else 0) ≡ held ts + (if is_leased u then 1 else 0)
held-set [] i t u e = absurd (ground arith)
held-set (x ∷ ts) zero t u e = let ex : x ≡ t = some-injective _ _ e in rw ex (omega arith)
held-set (x ∷ ts) (suc i) t u e = let ih = held-set ts i t u e in omega (arith, ih)

held-settle_rounds : (k : ℕ) (ts : List Task) → held (settle_rounds k ts) ≤ held ts
unfolding settle_rounds settle_round settle_task
held-settle_rounds zero ts = omega arith
held-settle_rounds (suc k) ts =
    let by = state_by_plan ts in
    let round = held-map (settle_task by) (λ t h. ground arith) ts in
    let rest = held-settle_rounds k (settle_round ts) in
    elim (Bool-cases (any (moves by) ts)) [
      | inl y ↦ rw y (omega (arith, round, rest))
      | inr n ↦ rw n round
    ]

held-settle : (ts : List Task) → held (settle ts) ≤ held ts
unfolding settle
held-settle ts = held-settle_rounds (length ts) ts

module _ (urls : UrlPackage) where
  pub held-refresh_job : (j : Job) → held (refresh_job urls j).tasks ≤ held j.tasks
  unfolding refresh_job
  held-refresh_job j = held-settle j.tasks

  pub held-apply_cancel : (j : Job) → held (apply_cancel urls j).tasks ≤ held j.tasks
  unfolding apply_cancel cancel_task
  held-apply_cancel j = elim (Bool-cases (j.canceled || is_over j.status)) [
    | inl y ↦ rw y (omega arith)
    | inr n ↦
        let c = held-map cancel_task (λ t h. ground arith) j.tasks in
        let r = held-refresh_job (record j { canceled = true; tasks = map cancel_task j.tasks }) in
        rw n (omega (arith, c, r))
  ]

  pub held-expire_job : (now : Time) (j : Job) → held (expire_job urls now j).0.tasks ≤ held j.tasks
  unfolding expire_job fail_deadline expire_task requeue
  held-expire_job now j = elim (Bool-cases (is_overdue now j)) [
    | inl y ↦ rw y (held-map expire_task (λ t h. ground arith) j.tasks)
    | inr n ↦ elim (Bool-cases (any (is_expired now) j.tasks)) [
      | inr m ↦ rw (n, m) (omega arith)
      | inl y ↦
          let c = held-map (requeue now j.canceled) (λ t h. ground arith) j.tasks in
          let r = held-refresh_job (record j { tasks = map (requeue now j.canceled) j.tasks }) in
          rw (n, y) (omega (arith, c, r))
    ]
  ]

  held-new : (job : Str) (i : ℕ) (steps : List Plan.Step) → held (tasks_of_plan job i steps) ≡ 0
  unfolding tasks_of_plan
  held-new job i [] = refl
  held-new job i (s ∷ steps) = let ih = held-new job (suc i) steps in ground arith

  pub held-build_job :
      (id : Str) (now : Time) (opts : CreateOpts) (j : Job)
      → build_job urls id now opts ≡ ok j
      → held j.tasks ≡ 0
  unfolding draft_job
  held-build_job id now opts j e =
      let r = held-refresh_job (draft_job id now opts) in
      let s = held-settle (tasks_of_plan id 0 opts.plan.steps) in
      let z = held-new id 0 opts.plan.steps in
      rw (built urls id now opts j e) (omega (arith, r, s, z))

pub leased-apply_commit :
    (t u : Task) (aid : Str) (r : StepResult) (fail : Str)
    → apply_commit t aid r fail ≡ ok u
    → (is_leased t ≡ true) × (is_leased u ≡ false)
unfolding apply_commit
leased-apply_commit t u aid r fail e = ground arith

pub leased-apply_heartbeat :
    (t u : Task) (aid worker : Str) (now : Time)
    → apply_heartbeat t aid worker now ≡ ok u
    → (is_leased t ≡ true) × (is_leased u ≡ true)
unfolding apply_heartbeat
leased-apply_heartbeat t u aid worker now e = ground arith
