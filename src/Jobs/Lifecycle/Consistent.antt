-- ===== src/Jobs/Lifecycle/Consistent.antt =====
-- What the stored status and decision of a job say about its tasks, and that each operation on a
-- job keeps it so.
use aquila.Base.{
  ℕ, zero, suc, ◌≡◌, refl, ap, sym, ◌∙◌, Str, Bool, true, false, not, ◌&&◌, ◌||◌, inl, inr, Option,
  none, some, List, [], ◌∷◌, map, any, all, set, get_elem?, if◌then◌else◌, arith, Bool-cases, All,
  All-imp, All-set,
}
use aquila.Url.{UrlPackage}
use aquila.Validate.{Decision}
use aquila.Jobs.{Time, TaskState, Status, Task, Job}
use aquila.Jobs.Dag.{state_by_plan, is_done, deps_ok, job_status, has_state}
use aquila.Jobs.Dag.Settle.{is_pending, can_start, IsSettled, settle-IsSettled}
use aquila.Jobs.Dag.StatusLaws.{
  is_live, job_status-occupied, job_status-complete, job_status_of_failed,
}
use aquila.Jobs.Attempt.{requeue, is_expired}
use aquila.Jobs.Lifecycle.{
  cancel_task, expire_task, job_decision, refresh_job, apply_cancel, fail_deadline, expire_job,
  is_over, is_overdue, is_complete,
}

module _ (urls : UrlPackage) where
  -- The status is that of the tasks, or canceled; the decision is that of the job as it stands; and
  -- no task that may go on is left pending.
  pub record IsConsistent (j : Job) : Type 0 where
    pub settled : IsSettled j.tasks
    pub status_of_tasks : j.status ≡ (if j.canceled then Status.canceled else job_status j.tasks)
    pub decision : j.validated ≡ (job_decision urls j).validated
    pub reasons : j.blockers ≡ (job_decision urls j).blockers

  -- refreshJob makes any job consistent.
  pub refresh_job-IsConsistent : (j : Job) → IsConsistent (refresh_job urls j)
  unfolding refresh_job job_decision
  refresh_job-IsConsistent j = record {
    settled = settle-IsSettled j.tasks;
    status_of_tasks = refl;
    decision = refl;
    reasons = refl;
  }

  pub apply_cancel-IsConsistent : (j : Job) → IsConsistent j → IsConsistent (apply_cancel urls j)
  unfolding apply_cancel
  apply_cancel-IsConsistent j c = elim (Bool-cases (j.canceled || is_over j.status)) [
    | inl e ↦ rw e c
    | inr e ↦
        rw e
          (refresh_job-IsConsistent (record j { canceled = true; tasks = map cancel_task j.tasks }))
  ]

expired_not_pending : (t : Task) → is_pending (expire_task t) ≡ false
unfolding expire_task
expired_not_pending t = ground arith

expired-IsSettled :
    (all_ts ts : List Task)
    → All (λ t. (is_pending t && can_start all_ts t) ≡ false) (map expire_task ts)
expired-IsSettled all_ts [] = tt
expired-IsSettled all_ts (t ∷ ts) = (rw (expired_not_pending t), expired-IsSettled all_ts ts)

expired_failed :
    (ts : List Task)
    → has_state TaskState.failed (map expire_task ts)
      ≡ (any is_live ts || has_state TaskState.failed ts)
unfolding expire_task
expired_failed [] = refl
expired_failed (t ∷ ts) = ground (arith, expired_failed ts)

-- A job that is not over has a live task.
live_of_not_over : (ts : List Task) → is_over (job_status ts) ≡ false → any is_live ts ≡ true
live_of_not_over ts h = ground (arith, job_status-occupied ts)

module _ (urls : UrlPackage) where
  fail_deadline-IsConsistent :
      (now : Time) (j : Job)
      → IsConsistent urls j
      → is_overdue now j ≡ true
      → IsConsistent urls (fail_deadline urls j)
  unfolding fail_deadline job_decision
  fail_deadline-IsConsistent now j c h =
      let live_c : j.canceled ≡ false = ground arith in
      let open_s : is_over j.status ≡ false = ground arith in
      let st : j.status ≡ job_status j.tasks = c.status_of_tasks ∙ rw live_c in
      let live = live_of_not_over j.tasks (rw st at open_s) in
      record {
        settled = expired-IsSettled (map expire_task j.tasks) j.tasks;
        status_of_tasks = rw live_c (
            sym
              (job_status_of_failed (map expire_task j.tasks) (rw (expired_failed j.tasks, live))));
        decision = refl;
        reasons = refl;
      }

  pub expire_job-IsConsistent :
      (now : Time) (j : Job) → IsConsistent urls j → IsConsistent urls (expire_job urls now j).0
  unfolding expire_job
  expire_job-IsConsistent now j c = elim (Bool-cases (is_overdue now j)) [
    | inl e ↦ rw e (fail_deadline-IsConsistent now j c e)
    | inr e ↦ elim (Bool-cases (any (is_expired now) j.tasks)) [
      | inl x ↦
          rw (e, x)
            (refresh_job-IsConsistent urls
              (record j { tasks = map (requeue now j.canceled) j.tasks }))
      | inr x ↦ rw (e, x) c
    ]
  ]

abbrev is_known : Option TaskState → Bool
is_known none = false
is_known (some s) = true

-- Writing one task that was not done, and is not done, unblocks no other.
module _ (u : Task) (u_open : is_done (some u.state) ≡ false) where
  done_by_plan :
      (ts : List Task) (i : ℕ) (t : Task)
      → get_elem? ts i ≡ some t
      → u.plan_id ≡ t.plan_id
      → is_done (some t.state) ≡ false
      → (d : Str)
      → (is_done (state_by_plan (set ts i u) d) ≡ is_done (state_by_plan ts d))
        × (is_known (state_by_plan (set ts i u) d) ≡ is_known (state_by_plan ts d))
  unfolding state_by_plan
  done_by_plan [] i t e p o d = (refl, refl)
  done_by_plan (x ∷ ts) zero t e p o d =
      let e' : x ≡ t = cc in
      let ex : x.plan_id ≡ t.plan_id = ap (λ (y : Task). y.plan_id) e' in
      let es : x.state ≡ t.state = ap (λ (y : Task). y.state) e' in (ground arith, ground arith)
  done_by_plan (x ∷ ts) (suc i) t e p o d =
      let ih = done_by_plan ts i t e p o d in (ground arith, ground arith)

  deps_of_set :
      (ts : List Task) (i : ℕ) (t : Task)
      → get_elem? ts i ≡ some t
      → u.plan_id ≡ t.plan_id
      → is_done (some t.state) ≡ false
      → (ds : List Str)
      → all (λ d. is_done (state_by_plan (set ts i u) d)) ds
        ≡ all (λ d. is_done (state_by_plan ts d)) ds
  deps_of_set ts i t e p o [] = refl
  deps_of_set ts i t e p o (d ∷ ds) =
      rw ((done_by_plan ts i t e p o d).0, deps_of_set ts i t e p o ds)

  -- So it leaves the tasks settled, if it is not pending itself.
  pub set-IsSettled :
      (ts : List Task) (i : ℕ) (t : Task)
      → get_elem? ts i ≡ some t
      → u.plan_id ≡ t.plan_id
      → is_done (some t.state) ≡ false
      → is_pending u ≡ false
      → IsSettled ts
      → IsSettled (set ts i u)
  unfolding deps_ok
  set-IsSettled ts i t e p o np s =
      All-set (λ (x : Task). (is_pending x && can_start (set ts i u) x) ≡ false) ts i u
        (All-imp (λ (x : Task). (is_pending x && can_start ts x) ≡ false)
          (λ (x : Task). (is_pending x && can_start (set ts i u) x) ≡ false)
          (λ x h. rw (deps_of_set ts i t e p o x.depends_on) h) ts s)
        (rw np)

-- A job that is canceled or not complete has no decision but its status.
same_unfinished :
    (urls : UrlPackage) (j k : Job)
    → k.status ≡ j.status
    → (j.canceled || not (is_complete j.status)) ≡ true
    → (k.canceled || not (is_complete k.status)) ≡ true
    → job_decision urls k ≡ job_decision urls j
unfolding job_decision
same_unfinished urls j k s hj hk = rw (hj, hk, s)

module _ (urls : UrlPackage) (j k : Job) (same : k.status ≡ j.status) where
  -- A job consistent before a write that leaves its status and its flags is consistent after it.
  pub touched-IsConsistent :
      (j.canceled || not (is_complete j.status)) ≡ true
      → k.canceled ≡ j.canceled
      → k.validated ≡ j.validated
      → k.blockers ≡ j.blockers
      → IsSettled k.tasks
      → job_status k.tasks ≡ job_status j.tasks
      → IsConsistent urls j
      → IsConsistent urls k
  touched-IsConsistent un c v b s st o =
      let un' : (k.canceled || not (is_complete k.status)) ≡ true = rw (c, same) un in
      let d = same_unfinished urls j k same un un' in
      record {
        settled = s;
        status_of_tasks = same ∙ o.status_of_tasks ∙ rw (c, st);
        decision = v ∙ o.decision ∙ ap (λ (x : Decision). x.validated) (sym d);
        reasons = b ∙ o.reasons ∙ ap (λ (x : Decision). x.blockers) (sym d);
      }

  -- A job with a live task is not complete.
  pub unfinished_of_live :
      IsConsistent urls j
      → any is_live j.tasks ≡ true
      → (j.canceled || not (is_complete j.status)) ≡ true
  unfinished_of_live o live = elim (Bool-cases j.canceled) [
    | inl e ↦ rw e
    | inr e ↦
        let st : j.status ≡ job_status j.tasks = o.status_of_tasks ∙ rw e in
        let nc = job_status-complete j.tasks in rw (e, st) (ground arith)
  ]
