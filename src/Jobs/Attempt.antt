-- ===== src/Jobs/Attempt.antt =====
-- internal/jobs/enqueue.go: applyCommit, applyHeartbeat and requeue, and the lease that
-- Memory.Lease and Postgres.Lease write.
use aquila.Base.{
  ◌+◌, Str, codes, Bool, not, ◌&&◌, ◌||◌, [], ltb, ◌==◌, if◌then◌else◌, is_empty, str_eq, pos, ◌+ℤ◌,
  wrap_64,
}
use aquila.Plan.{StepResult}
use aquila.Jobs.{
  Time, TaskState, Task, stale_attempt, not_leased, errorf, Result, ok, err, state_eq, lease_ttl,
}

-- A task that no worker holds.
abbrev pub released : Task → Task
released t = record t { worker_id = []; lease_until = 0 }

abbrev pub is_pass : Str → Bool
is_pass v = str_eq v (codes "pass") || str_eq v (codes "validated")

-- applyCommit.
unfoldable pub apply_commit : Task → Str → StepResult → Str → Result Task
apply_commit t attempt result fail =
    if not (state_eq t.state TaskState.leased)
    then err not_leased
    else if not (str_eq t.attempt_id attempt)
    then err stale_attempt
    else if not (is_empty fail)
    then ok (record t {
      state = TaskState.failed;
      error = fail;
      result = result;
      worker_id = [];
      lease_until = 0;
    })
    else if is_pass result.verdict
    then err (errorf (codes "jobs: result cannot be a pass"))
    else ok (record t {
      state = TaskState.succeeded;
      result = result;
      error = [];
      worker_id = [];
      lease_until = 0;
    })

-- applyHeartbeat.
unfoldable pub apply_heartbeat : Task → Str → Str → Time → Result Task
apply_heartbeat t attempt worker now =
    if not (state_eq t.state TaskState.leased)
    then err not_leased
    else if not (str_eq t.attempt_id attempt) || not (str_eq t.worker_id worker)
    then err stale_attempt
    else ok (record t { lease_until = now + lease_ttl })

-- The test of requeue: a lease that ran out before `now`.
abbrev pub is_expired : Time → Task → Bool
is_expired now t =
    state_eq t.state TaskState.leased && not (t.lease_until == 0) && ltb t.lease_until now

-- requeue, where it returns true.
unfoldable pub requeued : Bool → Task → Task
requeued canceled t =
    if canceled
    then record t {
      state = TaskState.skipped;
      error = codes "canceled";
      attempt_id = [];
      worker_id = [];
      lease_until = 0;
    }
    else record t { state = TaskState.ready; attempt_id = []; worker_id = []; lease_until = 0 }

-- requeue.
unfoldable pub requeue : Time → Bool → Task → Task
unfolding requeued
requeue now canceled t = if is_expired now t then requeued canceled t else t

-- The writes of Lease: a fresh attempt id, and the next fence in int64.
unfoldable pub lease_task : Str → Str → Time → Task → Task
lease_task worker attempt now t = record t {
  state = TaskState.leased;
  attempt_id = attempt;
  fence = wrap_64 (t.fence +ℤ pos 1);
  worker_id = worker;
  lease_until = now + lease_ttl;
}
