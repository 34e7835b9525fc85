-- ===== src/Jobs/Lifecycle.antt =====
-- internal/jobs/earned.go: refreshJob, jobDecision, jobEvidence, applyCancel and failDeadline.
pub mod States
pub mod Moves
pub mod Consistent
pub mod Occupancy
use aquila.Base.{
  ℕ, ◌+◌, Str, codes, Bool, true, false, not, ◌&&◌, ◌||◌, List, [], ◌∷◌, ◌++◌, map, any, ltb, ◌==◌,
  if◌then◌else◌, is_empty, count_by,
}
use aquila.Url.{UrlPackage}
use aquila.Replay.{verdict_incomplete}
use aquila.Plan.{StepResult, Evidence, verdict_skipped}
use aquila.Plan.Overall.{overall}
use aquila.Validate.{step_failed, Decision, Input}
use aquila.Validate.Decide.{decide}
use aquila.Jobs.{Time, TaskState, Status, Task, Job, state_eq, default_deadline}
use aquila.Jobs.Dag.{settle, job_status}
use aquila.Jobs.Attempt.{is_expired, requeue}

-- The switch of jobEvidence over the state of a task.
abbrev pub recorded_verdict : TaskState → Str → Str
recorded_verdict TaskState.skipped v = if is_empty v then verdict_skipped else v
recorded_verdict TaskState.succeeded v = v
recorded_verdict TaskState.failed v = if is_empty v then verdict_incomplete else v
recorded_verdict _ v = verdict_incomplete

unfoldable pub task_evidence : Task → StepResult
task_evidence t =
    let r = t.result in
    record r {
      id = if is_empty r.id then t.plan_id else r.id;
      kind = if is_empty r.kind then t.kind else r.kind;
      verdict = recorded_verdict t.state r.verdict;
    }

-- jobEvidence.
unfoldable pub job_evidence : Job → Evidence
unfolding task_evidence
job_evidence j =
    let steps = map task_evidence j.tasks in
    record { overall = overall steps; steps = steps; notes = [] }

abbrev pub status_text : Status → Str
status_text Status.pending = codes "pending"
status_text Status.running = codes "running"
status_text Status.complete = codes "complete"
status_text Status.failed = codes "failed"
status_text Status.canceled = codes "canceled"

abbrev pub is_complete : Status → Bool
is_complete Status.complete = true
is_complete _ = false

-- What jobDecision hands to the policy. It sets no attributions.
unfoldable pub decision_input : Job → Input
unfolding job_evidence
decision_input j = record {
  attributions = [];
  baseline_rev = j.baseline_rev;
  patch_rev = j.patch_rev;
  baseline = j.baseline;
  patch = j.patch;
  plan = j.plan;
  result = job_evidence j;
  impacted = j.impacted;
  workload = j.workload;
  changes = j.changes;
}

abbrev pub unfinished : Job → Decision
unfinished j = record {
  coverage_basis = [];
  validated = false;
  blockers = record { code = step_failed; subject = codes "job:" ++ status_text j.status } ∷ [];
}

-- The statuses that end a job.
abbrev pub is_over : Status → Bool
is_over Status.complete = true
is_over Status.failed = true
is_over Status.canceled = true
is_over _ = false

abbrev pub is_waiting : TaskState → Bool
is_waiting s = state_eq s TaskState.pending || state_eq s TaskState.ready

unfoldable pub cancel_task : Task → Task
cancel_task t =
    if is_waiting t.state
    then record t { state = TaskState.skipped; error = codes "canceled" }
    else t

unfoldable pub expire_task : Task → Task
expire_task t =
    if is_waiting t.state || state_eq t.state TaskState.leased
    then record t {
      state = TaskState.failed;
      error = codes "deadline";
      worker_id = [];
      lease_until = 0;
    }
    else t

-- The deadline in force: 0 where there is none. Rows that have no deadline take the default one.
abbrev pub deadline_of : Job → Time
deadline_of j =
    if not (j.deadline == 0)
    then j.deadline
    else if j.created == 0
    then 0
    else (j.created + default_deadline)

-- failDeadline returns true.
abbrev pub is_overdue : Time → Job → Bool
is_overdue now j =
    not (deadline_of j == 0) && ltb (deadline_of j) now && not (j.canceled || is_over j.status)

module _ (urls : UrlPackage) where
  -- jobDecision.
  unfoldable pub job_decision : Job → Decision
  unfolding decision_input
  job_decision j =
      if j.canceled || not (is_complete j.status)
      then unfinished j
      else decide urls (decision_input j)

  unfoldable pub decided : Job → Job
  unfolding job_decision
  decided j = record j {
    validated = (job_decision j).validated;
    blockers = (job_decision j).blockers;
  }

  -- refreshJob.
  unfoldable pub refresh_job : Job → Job
  unfolding decided
  refresh_job j =
      let ts = settle j.tasks in
      decided
        (record j { tasks = ts; status = if j.canceled then Status.canceled else job_status ts })

  -- applyCancel.
  unfoldable pub apply_cancel : Job → Job
  unfolding cancel_task refresh_job
  apply_cancel j =
      if j.canceled || is_over j.status
      then j
      else refresh_job (record j { canceled = true; tasks = map cancel_task j.tasks })

  -- failDeadline, where it returns true.
  unfoldable pub fail_deadline : Job → Job
  unfolding expire_task decided
  fail_deadline j = decided (record j { tasks = map expire_task j.tasks; status = Status.failed })

  -- The body of requeueExpiredLocked for one job, with what it adds to the count.
  unfoldable pub expire_job : Time → Job → Job × ℕ
  unfolding fail_deadline refresh_job requeue
  expire_job now j =
      if is_overdue now j
      then (fail_deadline j, 1)
      else if any (is_expired now) j.tasks
      then (
        refresh_job (record j { tasks = map (requeue now j.canceled) j.tasks }),
        count_by (is_expired now) j.tasks,
      )
      else (j, 0)
