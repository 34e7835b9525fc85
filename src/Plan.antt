-- ===== src/Plan.antt =====
-- internal/plan: the records of the experiment DAG and of its evidence. The verdict over the steps,
-- the construction of the DAG and the comparison of bursts are in the modules below.
pub mod Overall
pub mod Build
pub mod Burst
pub mod Execute
pub mod Examples
use aquila.Base.{Str, codes, Bool, List, ℤ}
use aquila.Replay.{Delta, StepLatency}

abbrev pub kind_env : Str
kind_env = codes "env"

abbrev pub kind_behavior : Str
kind_behavior = codes "behavior"

abbrev pub kind_latency : Str
kind_latency = codes "latency"

abbrev pub kind_concurrency : Str
kind_concurrency = codes "concurrency"

abbrev pub kind_tests : Str
kind_tests = codes "tests"

abbrev pub kind_fault_status : Str
kind_fault_status = codes "fault_status"

abbrev pub verdict_skipped : Str
verdict_skipped = codes "skipped"

abbrev pub verdict_samples : Str
verdict_samples = codes "samples"

abbrev pub verdict_prepared : Str
verdict_prepared = codes "prepared"

pub record Step : Type 0 where
  pub id : Str
  pub kind : Str
  pub required : Bool
  pub operator : Bool
  pub n : ℤ
  pub status : ℤ
  pub depends_on : List Str
  pub reason : Str

pub record Dag : Type 0 where
  pub steps : List Step
  pub notes : List Str
  pub module_dir : Str
  pub test_packages : List Str
  pub health_path : Str

pub record StepResult : Type 0 where
  pub id : Str
  pub kind : Str
  pub verdict : Str
  pub notes : List Str
  pub latency : List StepLatency
  pub steps : List Delta

pub record Evidence : Type 0 where
  pub overall : Str
  pub steps : List StepResult
  pub notes : List Str
