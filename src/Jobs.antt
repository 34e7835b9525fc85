-- ===== src/Jobs.antt =====
-- internal/jobs: the experiment queue. Its data (store.go); the DAG (enqueue.go), the life of a task
-- and of a job (enqueue.go, earned.go), the quotas (quota.go, occupancy.go) and the in-memory store
-- (memory.go) are in the modules below.
pub mod Dag
pub mod Attempt
pub mod Lifecycle
pub mod Quota
pub mod Create
pub mod Memory
pub mod Postgres
use aquila.Base.{ℕ, ◌*◌, Str, codes, Bool, true, false, List, [], ℤ, pos}
use aquila.Gitrev.{Revision}
use aquila.Replay.{Step as WorkStep}
use aquila.Plan.{Dag as PlanDag, StepResult}
use aquila.Impact.{Changes}
use aquila.Validate.{Blocker}

-- Times are nanoseconds since Go's zero time, so that IsZero tests for 0.
abbrev pub Time : Type 0
Time = ℕ

-- StatePending ... StateSkipped.
pub data TaskState : Type 0 where
  pending ready leased succeeded failed skipped : TaskState

-- StatusPending ... StatusCanceled.
pub data Status : Type 0 where
  pending running complete failed canceled : Status

abbrev pub second : ℕ
second = 1000000000

abbrev pub lease_ttl : ℕ
lease_ttl = 15 * second

abbrev pub default_deadline : ℕ
default_deadline = 600 * second

-- The errors of the package; `errorf` is one made by fmt.Errorf, with its text less the values in it.
pub data Error : Type 0 where
  not_found stale_attempt not_leased no_ready at_capacity invalid_id busy over_quota : Error
  errorf : Str → Error

pub data Result (A : Type 0) : Type 0 where
  ok : A → Result A
  err : Error → Result A

pub record Task : Type 0 where
  pub id : Str
  pub job_id : Str
  pub plan_id : Str
  pub kind : Str
  pub operator : Bool
  pub required : Bool
  pub depends_on : List Str
  pub n : ℤ
  pub state : TaskState
  pub attempt_id : Str
  pub fence : ℤ
  pub lease_until : Time
  pub worker_id : Str
  pub result : StepResult
  pub error : Str

pub record Job : Type 0 where
  pub baseline_rev : Revision
  pub patch_rev : Revision
  pub impact_source : Str
  pub id : Str
  pub created : Time
  pub status : Status
  pub service : Str
  pub baseline : Str
  pub patch : Str
  pub baseline_sha : Str
  pub dirty : Bool
  pub deadline : Time
  pub canceled : Bool
  pub impacted : List Str
  pub changes : Changes
  pub workload : List WorkStep
  pub plan : PlanDag
  pub tasks : List Task
  pub blockers : List Blocker
  pub validated : Bool

abbrev pub state_eq : TaskState → TaskState → Bool
state_eq TaskState.pending TaskState.pending = true
state_eq TaskState.ready TaskState.ready = true
state_eq TaskState.leased TaskState.leased = true
state_eq TaskState.succeeded TaskState.succeeded = true
state_eq TaskState.failed TaskState.failed = true
state_eq TaskState.skipped TaskState.skipped = true
state_eq _ _ = false

abbrev pub empty_result : StepResult
empty_result = record { id = []; kind = []; verdict = []; notes = []; latency = []; steps = [] }
