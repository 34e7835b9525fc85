-- ===== src/Jobs/Postgres.antt =====
-- internal/jobs/postgres.go: the store in the table aquila.jobs. A method takes the rows and returns
-- them with its result. A transaction that is rolled back leaves the rows as they were, and the row
-- locks make transactions on the same jobs one at a time. Which statements the database refuses is
-- an argument, and so is whether a Commit that returns an error was applied all the same. The payload is the job itself, which package json writes and reads back; the columns
-- that no query reads are left out.
pub mod Calls
pub mod Rows
pub mod Examples
use aquila.Base.{
  ℕ, ◌+◌, ◌∷◌, [], ◌++◌, Str, codes, Bool, true, false, ◌&&◌, ◌||◌, Option, none, some, List, map,
  ltb, ◌==◌, if◌then◌else◌, is_empty, take, set, get_elem?, str_eq, str_lt, trim_space, filter_by,
  ℤ, pos, pos_part, leb_ℤ, sort_by,
}
use aquila.Url.{UrlPackage}
use aquila.Plan.{StepResult}
use aquila.Jobs.{
  Time, Status, Task, Job, not_found, no_ready, at_capacity, invalid_id, busy, over_quota, errorf,
  Result, ok, err,
}
use aquila.Jobs.Attempt.{apply_commit, apply_heartbeat, lease_task}
use aquila.Jobs.Lifecycle.{decided, refresh_job, apply_cancel, expire_job}
use aquila.Jobs.Quota.{Quota, Choice, count_leased, pick_ready, gateway_busy, over_active}
use aquila.Jobs.Create.{CreateOpts, normalize_id, clip_limit, clip_service, build_job}
use aquila.Jobs.Memory.{Worker, Lease, slots_of, find_in_tasks, task_or}

pub record Row : Type 0 where
  pub id : Str
  pub created : Time
  pub status : Status
  pub validated : Bool
  pub payload : Job

abbrev pub Rows : Type 0
Rows = List Row

-- The error of Commit. Where only its answer was lost, the writes are applied.
pub record CommitFault : Type 0 where
  pub message : Str
  pub applied : Bool

-- The error of each statement of a transaction, if the database has one: Begin, the advisory lock,
-- the query and the updates of expireTx, the query of the method, its write, and Commit.
pub record Faults : Type 0 where
  pub begin : Option Str
  pub advisory : Option Str
  pub expire_read : Option Str
  pub expire_write : Option Str
  pub read : Option Str
  pub write : Option Str
  pub commit : Option CommitFault

abbrev pub no_faults : Faults
no_faults = record {
  begin = none;
  advisory = none;
  expire_read = none;
  expire_write = none;
  read = none;
  write = none;
  commit = none;
}

-- The statements up to the first that fails, and what the method does after them. An error makes
-- the method return, and its deferred Rollback undoes what the statements wrote.
unfoldable pub after : {A : Type 0} → List (Option Str) → Rows → (Rows × Result A) → Rows × Result A
after [] rows next = next
after (none ∷ faults) rows next = after faults rows next
after (some e ∷ faults) rows next = (rows, err (errorf e))

-- Commit of what the transaction has written, in place of the rows before it.
unfoldable pub finish :
    {A : Type 0} → Option CommitFault → Rows → (Rows × Result A) → Rows × Result A
finish none rows next = next
finish (some c) rows next = (if c.applied then next.0 else rows, err (errorf c.message))

unfoldable pub find_row : Str → Rows → Option Row
find_row id [] = none
find_row id (r ∷ rows) = let rest = find_row id rows in if str_eq r.id id then some r else rest

-- updateJobSQL.
unfoldable pub update_job : Job → Rows → Rows
update_job job [] = []
update_job job (r ∷ rows) =
    (if str_eq r.id job.id
      then record r { status = job.status; validated = job.validated; payload = job }
      else r)
    ∷ update_job job rows

-- insertJobSQL; `id` is the primary key.
unfoldable pub insert_job : Job → Rows → Option Rows
unfolding find_row
insert_job job rows = elim (find_row job.id rows) [
  | some r ↦ none
  | none ↦ some (
      rows
      ++ record {
        id = job.id;
        created = job.created;
        status = job.status;
        validated = job.validated;
        payload = job;
      }
        ∷ [])
]

abbrev pub is_active : Row → Bool
is_active r = elim r.status [
  | Status.pending ↦ true
  | Status.running ↦ true
  | Status.complete ↦ false
  | Status.failed ↦ false
  | Status.canceled ↦ false
]

-- ORDER BY created_at ASC, id ASC.
abbrev pub row_before : Row → Row → Bool
row_before a b = ltb a.created b.created || (a.created == b.created && str_lt a.id b.id)

-- A task of a job that the query found.
pub record Spot : Type 0 where
  pub job : Job
  pub index : ℕ
  pub task : Task

unfoldable pub find_spot : Str → List Job → Option Spot
unfolding find_in_tasks
find_spot tid [] = none
find_spot tid (j ∷ js) =
    let rest = find_spot tid js in
    elim (find_in_tasks tid j.tasks) [
      | none ↦ rest
      | some (i, t) ↦ some (record { job = j; index = i; task = t })
    ]

abbrev pub with_spot : Spot → Task → Job
with_spot s t = let j = s.job in record j { tasks = set j.tasks s.index t }

module _ (urls : UrlPackage) where
  -- decodeJob, of a payload that package json reads.
  abbrev pub decode_job : Row → Job
  decode_job r = decided urls r.payload

  -- lockJobs, and the query that Commit and expireTx write out.
  unfoldable pub lock_jobs : Rows → List Job
  unfolding sort_by
  lock_jobs rows = map decode_job (sort_by row_before (filter_by is_active rows))

  -- The loop of expireTx over the rows: the jobs that it changes, and n.
  unfoldable pub expired_jobs : Time → List Job → List Job × ℕ
  expired_jobs now [] = ([], 0)
  expired_jobs now (j ∷ js) =
      let here = expire_job urls now j in
      let rest = expired_jobs now js in
      (if here.1 == 0 then rest.0 else here.0 ∷ rest.0, here.1 + rest.1)

  unfoldable pub update_all : List Job → Rows → Rows
  unfolding update_job
  update_all [] rows = rows
  update_all (j ∷ js) rows = update_all js (update_job j rows)

  -- expireTx.
  unfoldable pub expire_tx : Time → Rows → Rows
  unfolding expired_jobs update_all lock_jobs
  expire_tx now rows = update_all (expired_jobs now (lock_jobs rows)).0 rows
