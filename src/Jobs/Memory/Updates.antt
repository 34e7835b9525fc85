-- ===== src/Jobs/Memory/Updates.antt =====
-- What each method writes in place of a stored job: the same job moved on, and consistent.
use aquila.Base.{ℕ, ◌≡◌, refl, sym, ◌∙◌, Str, true, false, some, set, get_elem?, arith, any-get}
use aquila.Url.{UrlPackage}
use aquila.Plan.{StepResult}
use aquila.Jobs.{Time, TaskState, Task, Job, ok, state_eq}
use aquila.Jobs.Dag.{job_status}
use aquila.Jobs.Dag.StatusLaws.{is_live, job_status-claim, job_status-same}
use aquila.Jobs.Attempt.{apply_commit, apply_heartbeat, lease_task}
use aquila.Jobs.Lifecycle.{refresh_job}
use aquila.Jobs.Lifecycle.Moves.{
  Moved, JobMoved, AllMoved-set, apply_commit-Moved, apply_heartbeat-Moved, lease_task-Moved,
  refreshed-JobMoved,
}
use aquila.Jobs.Lifecycle.Consistent.{
  IsConsistent, set-IsSettled, touched-IsConsistent, unfinished_of_live,
}
use aquila.Jobs.Memory.{Worker, Found, leased_job, with_task}

heartbeat_shape :
    (t u : Task) (aid worker : Str) (now : Time)
    → apply_heartbeat t aid worker now ≡ ok u
    → (t.state ≡ TaskState.leased) × (u.state ≡ TaskState.leased) × (u.plan_id ≡ t.plan_id)
unfolding apply_heartbeat
heartbeat_shape t u aid worker now e = ground arith

module _ (w : Worker) (fresh : Str) (now : Time) (j : Job) (i : ℕ) (t : Task) where
  pub leased_job-JobMoved :
      get_elem? j.tasks i ≡ some t
      → state_eq t.state TaskState.ready ≡ true
      → JobMoved j (leased_job w fresh now j i t)
  unfolding leased_job
  leased_job-JobMoved g r = record {
    same_id = refl;
    same_service = refl;
    same_baseline = refl;
    same_patch = refl;
    stays_canceled = ground arith;
    tasks_moved =
        AllMoved-set j.tasks i t (lease_task w.id fresh now t) g
          (lease_task-Moved w.id fresh now t r);
  }

  pub leased_job-IsConsistent :
      (urls : UrlPackage)
      → get_elem? j.tasks i ≡ some t
      → state_eq t.state TaskState.ready ≡ true
      → j.canceled ≡ false
      → IsConsistent urls j
      → IsConsistent urls (leased_job w fresh now j i t)
  unfolding leased_job lease_task
  leased_job-IsConsistent urls g r c o =
      let k = leased_job w fresh now j i t in
      let u = lease_task w.id fresh now t in
      let ready : t.state ≡ TaskState.ready = ground arith in
      let st : j.status ≡ job_status j.tasks = o.status_of_tasks ∙ rw c in
      let same = job_status-claim j.tasks i t u g ready refl in
      touched-IsConsistent urls j k (same ∙ sym st)
        (unfinished_of_live urls j k (same ∙ sym st) o
          (any-get is_live j.tasks i t g (ground arith)))
        refl refl refl (set-IsSettled u refl j.tasks i t g refl (ground arith) refl o.settled) same
        o

module _ (f : Found) (t : Task) (at_task : get_elem? f.job.tasks f.index ≡ some f.task) where
  with_task-JobMoved : Moved f.task t → JobMoved f.job (with_task f t)
  with_task-JobMoved m = record {
    same_id = refl;
    same_service = refl;
    same_baseline = refl;
    same_patch = refl;
    stays_canceled = ground arith;
    tasks_moved = AllMoved-set f.job.tasks f.index f.task t at_task m;
  }

  pub beat-JobMoved :
      (aid worker : Str) (now : Time)
      → apply_heartbeat f.task aid worker now ≡ ok t
      → JobMoved f.job (with_task f t)
  beat-JobMoved aid worker now e =
      with_task-JobMoved (apply_heartbeat-Moved f.task t aid worker now e)

  pub commit-JobMoved :
      (urls : UrlPackage) (aid : Str) (result : StepResult) (fail : Str)
      → apply_commit f.task aid result fail ≡ ok t
      → JobMoved f.job (refresh_job urls (with_task f t))
  commit-JobMoved urls aid result fail e =
      refreshed-JobMoved urls f.job (set f.job.tasks f.index t) (
        AllMoved-set f.job.tasks f.index f.task t at_task
          (apply_commit-Moved f.task t aid result fail e))

  pub beat-IsConsistent :
      (urls : UrlPackage) (aid worker : Str) (now : Time)
      → apply_heartbeat f.task aid worker now ≡ ok t
      → IsConsistent urls f.job
      → IsConsistent urls (with_task f t)
  beat-IsConsistent urls aid worker now e o =
      let b = heartbeat_shape f.task t aid worker now e in
      let same = job_status-same f.job.tasks f.index f.task t at_task (b.0 ∙ sym b.1) in
      touched-IsConsistent urls f.job (with_task f t) refl
        (unfinished_of_live urls f.job (with_task f t) refl o
          (any-get is_live f.job.tasks f.index f.task at_task (rw (b.0) refl)))
        refl refl refl
        (set-IsSettled t (rw (b.1)) f.job.tasks f.index f.task at_task b.2 (rw (b.0)) (rw (b.1))
          o.settled)
        same o
