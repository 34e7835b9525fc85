-- ===== src/Jobs/Lifecycle/Moves.antt =====
-- The states of a task as a graph: each operation on a job moves each of its tasks along it.
use aquila.Base.{
  ℕ, zero, suc, ◌≡◌, refl, Str, Bool, true, false, inl, inr, Option, some, List, [], ◌∷◌, map, any,
  length, set, get_elem?, arith, Bool-cases, ◌||◌, ◌&&◌, not,
}
use mathlib.Core.Path.{subst}
use aquila.Url.{UrlPackage}
use aquila.Plan.{StepResult}
use aquila.Jobs.{Time, TaskState, Task, Job, ok, state_eq}
use aquila.Jobs.Dag.{state_by_plan, settle_task, settle_round, settle_rounds, settle, moves}
use aquila.Jobs.Attempt.{apply_commit, apply_heartbeat, requeue, lease_task, is_expired}
use aquila.Jobs.Lifecycle.{
  cancel_task, expire_task, refresh_job, apply_cancel, fail_deadline, expire_job, is_over,
  is_overdue,
}
use aquila.Jobs.Lifecycle.States.{Walk, trans, Walk-of, can_move, stay}

-- A task before and after: the same node of the DAG, its state moved along the graph.
pub record Moved (t u : Task) : Type 0 where
  pub same_id : u.id ≡ t.id
  pub same_plan : u.plan_id ≡ t.plan_id
  pub same_operator : u.operator ≡ t.operator
  pub same_deps : u.depends_on ≡ t.depends_on
  pub moved : Walk t.state u.state

-- The same for the tasks of a job, place by place.
abbrev pub AllMoved : List Task → List Task → Type 0
AllMoved [] [] = Unit
AllMoved [] (u ∷ us) = ⊥
AllMoved (t ∷ ts) [] = ⊥
AllMoved (t ∷ ts) (u ∷ us) = Moved t u × AllMoved ts us

Moved-refl : (t : Task) → Moved t t
Moved-refl t = record {
  same_id = refl;
  same_plan = refl;
  same_operator = refl;
  same_deps = refl;
  moved = stay;
}

Moved-trans : {t u v : Task} → Moved t u → Moved u v → Moved t v
Moved-trans a b = record {
  same_id = cc (a.same_id, b.same_id);
  same_plan = cc (a.same_plan, b.same_plan);
  same_operator = cc (a.same_operator, b.same_operator);
  same_deps = cc (a.same_deps, b.same_deps);
  moved = trans a.moved b.moved;
}

pub AllMoved-refl : (ts : List Task) → AllMoved ts ts
AllMoved-refl [] = tt
AllMoved-refl (t ∷ ts) = (Moved-refl t, AllMoved-refl ts)

pub AllMoved-trans : (ts us vs : List Task) → AllMoved ts us → AllMoved us vs → AllMoved ts vs
AllMoved-trans [] [] vs a b = b
AllMoved-trans [] (u ∷ us) vs a b = absurd a
AllMoved-trans (t ∷ ts) [] vs a b = absurd a
AllMoved-trans (t ∷ ts) (u ∷ us) [] a b = absurd b
AllMoved-trans (t ∷ ts) (u ∷ us) (v ∷ vs) a b =
    (Moved-trans a.0 b.0, AllMoved-trans ts us vs a.1 b.1)

pub AllMoved-map :
    (f : Task → Task) → ((t : Task) → Moved t (f t)) → (ts : List Task) → AllMoved ts (map f ts)
AllMoved-map f h [] = tt
AllMoved-map f h (t ∷ ts) = (h t, AllMoved-map f h ts)

pub AllMoved-set :
    (ts : List Task) (i : ℕ) (t u : Task)
    → get_elem? ts i ≡ some t
    → Moved t u
    → AllMoved ts (set ts i u)
AllMoved-set [] i t u e m = tt
AllMoved-set (x ∷ ts) zero t u e m = (subst (λ y. Moved y u) (cc) m, AllMoved-refl ts)
AllMoved-set (x ∷ ts) (suc i) t u e m = (Moved-refl x, AllMoved-set ts i t u e m)

Moved-by :
    (t u : Task)
    → (u.id ≡ t.id)
      × (u.plan_id ≡ t.plan_id)
      × (u.operator ≡ t.operator)
      × (u.depends_on ≡ t.depends_on)
      × (can_move t.state u.state ≡ true)
    → Moved t u
Moved-by t u h = record {
  same_id = h.0;
  same_plan = h.1;
  same_operator = h.2;
  same_deps = h.3;
  moved = Walk-of t.state u.state h.4;
}

settle_task-Moved : (by : Str → Option TaskState) (t : Task) → Moved t (settle_task by t)
unfolding settle_task
settle_task-Moved by t = Moved-by _ _ (ground arith)

settle_rounds-AllMoved : (k : ℕ) (ts : List Task) → AllMoved ts (settle_rounds k ts)
unfolding settle_rounds settle_round
settle_rounds-AllMoved zero ts = AllMoved-refl ts
settle_rounds-AllMoved (suc k) ts =
    let by = state_by_plan ts in
    let here = AllMoved-map (settle_task by) (settle_task-Moved by) ts in
    elim (Bool-cases (any (moves by) ts)) [
      | inl e ↦
          rw e (
            AllMoved-trans ts (settle_round ts) _ here (settle_rounds-AllMoved k (settle_round ts)))
      | inr e ↦ rw e here
    ]

pub settle-AllMoved : (ts : List Task) → AllMoved ts (settle ts)
unfolding settle
settle-AllMoved ts = settle_rounds-AllMoved (length ts) ts

pub apply_commit-Moved :
    (t u : Task) (a : Str) (r : StepResult) (f : Str) → apply_commit t a r f ≡ ok u → Moved t u
unfolding apply_commit
apply_commit-Moved t u a r f e = Moved-by _ _ (ground arith)

pub apply_heartbeat-Moved :
    (t u : Task) (a w : Str) (now : Time) → apply_heartbeat t a w now ≡ ok u → Moved t u
unfolding apply_heartbeat
apply_heartbeat-Moved t u a w now e = Moved-by _ _ (ground arith)

pub lease_task-Moved :
    (w a : Str) (now : Time) (t : Task)
    → state_eq t.state TaskState.ready ≡ true
    → Moved t (lease_task w a now t)
unfolding lease_task
lease_task-Moved w a now t h = Moved-by _ _ (ground arith)

requeue-Moved : (now : Time) (c : Bool) (t : Task) → Moved t (requeue now c t)
unfolding requeue
requeue-Moved now c t = Moved-by _ _ (ground arith)

cancel_task-Moved : (t : Task) → Moved t (cancel_task t)
unfolding cancel_task
cancel_task-Moved t = Moved-by _ _ (ground arith)

expire_task-Moved : (t : Task) → Moved t (expire_task t)
unfolding expire_task
expire_task-Moved t = Moved-by _ _ (ground arith)

-- A job before and after: the same experiment, its tasks moved along the graph.
pub record JobMoved (j k : Job) : Type 0 where
  pub same_id : k.id ≡ j.id
  pub same_service : k.service ≡ j.service
  pub same_baseline : k.baseline ≡ j.baseline
  pub same_patch : k.patch ≡ j.patch
  pub stays_canceled : (j.canceled && not k.canceled) ≡ false
  pub tasks_moved : AllMoved j.tasks k.tasks

pub JobMoved-refl : (j : Job) → JobMoved j j
JobMoved-refl j = record {
  same_id = refl;
  same_service = refl;
  same_baseline = refl;
  same_patch = refl;
  stays_canceled = ground arith;
  tasks_moved = AllMoved-refl j.tasks;
}

pub JobMoved-trans : {j k l : Job} → JobMoved j k → JobMoved k l → JobMoved j l
JobMoved-trans {j} {k} {l} a b = record {
  same_id = cc (a.same_id, b.same_id);
  same_service = cc (a.same_service, b.same_service);
  same_baseline = cc (a.same_baseline, b.same_baseline);
  same_patch = cc (a.same_patch, b.same_patch);
  stays_canceled = let x = a.stays_canceled in let y = b.stays_canceled in ground arith;
  tasks_moved = AllMoved-trans j.tasks k.tasks l.tasks a.tasks_moved b.tasks_moved;
}

abbrev with_tasks : Job → List Task → Job
with_tasks j ts = record j { tasks = ts }

pub with_tasks-JobMoved :
    (j : Job) (ts : List Task) → AllMoved j.tasks ts → JobMoved j (with_tasks j ts)
with_tasks-JobMoved j ts m = record {
  same_id = refl;
  same_service = refl;
  same_baseline = refl;
  same_patch = refl;
  stays_canceled = ground arith;
  tasks_moved = m;
}

module _ (urls : UrlPackage) where
  pub refresh_job-JobMoved : (j : Job) → JobMoved j (refresh_job urls j)
  unfolding refresh_job
  refresh_job-JobMoved j = record {
    same_id = refl;
    same_service = refl;
    same_baseline = refl;
    same_patch = refl;
    stays_canceled = ground arith;
    tasks_moved = settle-AllMoved j.tasks;
  }

  -- A change of the tasks that is followed by refreshJob.
  pub refreshed-JobMoved :
      (j : Job) (ts : List Task)
      → AllMoved j.tasks ts
      → JobMoved j (refresh_job urls (with_tasks j ts))
  refreshed-JobMoved j ts m =
      JobMoved-trans (with_tasks-JobMoved j ts m) (refresh_job-JobMoved (with_tasks j ts))

  pub apply_cancel-JobMoved : (j : Job) → JobMoved j (apply_cancel urls j)
  unfolding apply_cancel
  apply_cancel-JobMoved j = elim (Bool-cases (j.canceled || is_over j.status)) [
    | inl e ↦ rw e (JobMoved-refl j)
    | inr e ↦ rw e (
        let k = record j { canceled = true; tasks = map cancel_task j.tasks } in
        let here : JobMoved j k = record {
          same_id = refl;
          same_service = refl;
          same_baseline = refl;
          same_patch = refl;
          stays_canceled = ground arith;
          tasks_moved = AllMoved-map cancel_task cancel_task-Moved j.tasks;
        } in
        JobMoved-trans here (refresh_job-JobMoved k))
  ]

  fail_deadline-JobMoved : (j : Job) → JobMoved j (fail_deadline urls j)
  unfolding fail_deadline
  fail_deadline-JobMoved j = record {
    same_id = refl;
    same_service = refl;
    same_baseline = refl;
    same_patch = refl;
    stays_canceled = ground arith;
    tasks_moved = AllMoved-map expire_task expire_task-Moved j.tasks;
  }

  pub expire_job-JobMoved : (now : Time) (j : Job) → JobMoved j (expire_job urls now j).0
  unfolding expire_job
  expire_job-JobMoved now j = elim (Bool-cases (is_overdue now j)) [
    | inl e ↦ rw e (fail_deadline-JobMoved j)
    | inr e ↦ elim (Bool-cases (any (is_expired now) j.tasks)) [
      | inl x ↦
          rw (e, x)
            (refreshed-JobMoved j (map (requeue now j.canceled) j.tasks)
              (AllMoved-map (requeue now j.canceled) (requeue-Moved now j.canceled) j.tasks))
      | inr x ↦ rw (e, x) (JobMoved-refl j)
    ]
  ]
