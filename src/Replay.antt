-- ===== src/Replay.antt =====
-- internal/replay: the records of a replay and of the comparison of two replays. The comparison, the
-- latency summaries and the workloads are in the modules below.
pub mod Json
pub mod Compare
pub mod Latency
pub mod Traffic
pub mod Headers
pub mod Files
pub mod Examples
use aquila.Base.{Str, codes, Bool, List, ℤ, any, str_eq, Dict}

abbrev pub verdict_match : Str
verdict_match = codes "match"

abbrev pub verdict_differ : Str
verdict_differ = codes "differ"

abbrev pub verdict_incomplete : Str
verdict_incomplete = codes "incomplete"

abbrev pub note_auth_rejected : Str
note_auth_rejected = codes "auth_rejected"

pub record Delta : Type 0 where
  pub method : Str
  pub path : Str
  pub status : Str
  pub baseline_status : ℤ
  pub patch_status : ℤ
  pub notes : List Str

-- Delta.AuthRejected.
unfoldable pub auth_rejected : Delta → Bool
auth_rejected d = any (λ n. str_eq n note_auth_rejected) d.notes

pub record Report : Type 0 where
  pub verdict : Str
  pub steps : List Delta

pub record Observation : Type 0 where
  pub method : Str
  pub path : Str
  pub status : ℤ
  pub body : Str
  pub duration_ns : ℤ
  pub err : Str

-- Result of a replay.
pub record Run : Type 0 where
  pub target : Str
  pub steps : List Observation

pub record Summary : Type 0 where
  pub n : ℤ
  pub min_ns : ℤ
  pub med_ns : ℤ
  pub p95_ns : ℤ
  pub p99_ns : ℤ
  pub has_p95 : Bool
  pub has_p99 : Bool

pub record StepLatency : Type 0 where
  pub method : Str
  pub path : Str
  pub baseline : Summary
  pub patch : Summary

pub record Step : Type 0 where
  pub method : Str
  pub path : Str
  pub body : Str
  pub headers : Dict (List Str)
  pub provenance : Str
  pub service : Str

pub record Workload : Type 0 where
  pub steps : List Step
