-- ===== src/Plan/Execute.antt =====
-- internal/plan/run.go: the evaluation of a step from what was observed. What the two targets, the
-- test runner and the fault proxy answer is a parameter. Execute is in Gather.
pub mod Gather
pub mod Verdicts
pub mod Matching
use aquila.Base.{
  ℕ, zero, suc, ◌+◌, Str, codes, Bool, true, false, not, ◌&&◌, ◌||◌, Option, none, some, List, [],
  ◌∷◌, ◌++◌, map, any, if◌then◌else◌, is_empty, str_eq, cut_at, itoa, Dict, find_key, put_key,
  Outcome, yields, fails, ◌>>=◌, ℤ, pos, pos_part, ltb_ℤ, eqb_ℤ, leb_ℤ, contains, has_prefix,
}
use aquila.Replay
use aquila.Replay.{
  Delta, Observation, Run, StepLatency, Workload, verdict_incomplete, auth_rejected,
}
use aquila.Replay.Compare.{Decoder}
use aquila.Replay.Latency.{latency, shifted}
use aquila.Replay.Traffic.{safe_replay}
use aquila.Plan.{
  Step, Dag, StepResult, Evidence, kind_env, kind_behavior, kind_latency, kind_concurrency,
  kind_tests, kind_fault_status, verdict_skipped, verdict_samples, verdict_prepared,
}
use aquila.Plan.Overall.{overall}
use aquila.Plan.Build.{compare_first, replay_repeats, concurrency_n, has_kind}
use aquila.Plan.Burst.{compare_burst, probe_step}

-- Each is named for the call that it answers. A turn of the loop of Repeat gets the error of the
-- context or what Run returns; a burst is what the goroutines of Burst leave.
pub record World : Type 0 where
  pub check_target : Str → Option Str
  pub healthz : Str → Str → Option Str
  pub turn : Str → Workload → ℕ → Outcome Run
  pub burst : Str → Workload → ℤ → Outcome (List Run)
  pub run_tests : Dag → StepResult
  pub fault_handler : Str → ℤ → Option Str
  pub listen : Str → Outcome Str
  pub probe_run : Str → Workload → Outcome Run
  pub unmarshal : Decoder
  pub quote : Str → Str
  pub milliseconds : ℤ → Str

-- The fields workload, baseURL and patchURL are never read.
pub record ExecData : Type 0 where
  pub env_err : Option Str
  pub base : List Run
  pub patch : List Run
  pub base_burst : List Run
  pub patch_burst : List Run
  pub tests : StepResult
  pub fault : Dict StepResult

abbrev pub blank_result : Str → Str → StepResult
blank_result id kind = record {
  id = id;
  kind = kind;
  verdict = [];
  notes = [];
  latency = [];
  steps = [];
}

abbrev pub with_verdict : Step → Str → List Str → StepResult
with_verdict s verdict notes = record (blank_result s.id s.kind) {
  verdict = verdict;
  notes = notes;
}

-- routePath.
abbrev pub route_path : Str → Str
route_path p = cut_at b'?' p

-- hasSamples.
abbrev pub has_samples : List StepLatency → Bool
has_samples = any λ (l : StepLatency). ltb_ℤ (pos 0) l.baseline.n || ltb_ℤ (pos 0) l.patch.n

-- strings.Join with commas.
join_commas : List Str → Str
join_commas [] = []
join_commas (s ∷ []) = s
join_commas (s ∷ t ∷ ss) = s ++ (b',' ∷ join_commas (t ∷ ss))

abbrev delta_note : Delta → Str
delta_note d =
    d.method
    ++ (b' ' ∷ route_path d.path)
    ++ (b' ' ∷ itoa d.baseline_status)
    ++ (b'/' ∷ itoa d.patch_status)
    ++ (b' ' ∷ join_commas d.notes)
    ++ (if auth_rejected d then codes ": handler did not run; check workload headers" else [])

delta_notes : List Delta → List Str
unfolding join_commas
delta_notes [] = []
delta_notes (d ∷ ds) =
    let rest = delta_notes ds in if is_empty d.notes then rest else delta_note d ∷ rest

module _ (world : World) where
  shift_note : StepLatency → Str
  shift_note l =
      codes "latency_shift "
      ++ l.method
      ++ (b' ' ∷ route_path l.path)
      ++ codes " median "
      ++ world.milliseconds l.baseline.med_ns
      ++ codes "ms -> "
      ++ world.milliseconds l.patch.med_ns
      ++ codes "ms (> 2x and >= 5ms slower); blocks validated"

  shift_notes : List StepLatency → List Str
  unfolding shift_note
  shift_notes [] = []
  shift_notes (l ∷ ls) =
      let rest = shift_notes ls in if shifted l then shift_note l ∷ rest else rest

  -- The cases of the switch of evalStep.
  unfoldable pub behavior_result : Step → ExecData → StepResult
  unfolding delta_notes
  behavior_result s runs =
      let rep = compare_first world.unmarshal runs.base runs.patch in
      record (with_verdict s rep.verdict (delta_notes rep.steps)) { steps = rep.steps }

  unfoldable pub latency_result : Step → ExecData → StepResult
  unfolding shift_notes
  latency_result s runs =
      let lat = latency runs.base runs.patch in
      if is_empty runs.base || is_empty runs.patch
      then with_verdict s verdict_incomplete (codes "no samples" ∷ [])
      else if not (has_samples lat)
      then record (with_verdict s verdict_incomplete (codes "no successful samples" ∷ [])) {
        latency = lat;
      }
      else record (with_verdict s verdict_samples (shift_notes lat)) { latency = lat }

  unfoldable pub fault_result : Step → ExecData → StepResult
  fault_result s runs = elim (find_key s.id runs.fault) [
    | some got ↦ got
    | none ↦ with_verdict s verdict_incomplete (codes "fault not executed" ∷ [])
  ]

  env_result : Step → Option Str → StepResult
  env_result s none = with_verdict s verdict_prepared (codes "healthz" ∷ [])
  env_result s (some e) = with_verdict s verdict_incomplete (e ∷ [])

  -- evalStep.
  unfoldable pub eval_step : Step → ExecData → StepResult
  unfolding behavior_result latency_result fault_result env_result compare_burst
  eval_step s runs =
      if str_eq s.kind kind_env && not s.operator
      then env_result s runs.env_err
      else if s.operator
      then with_verdict s verdict_skipped (codes "operator" ∷ [])
      else if str_eq s.kind kind_behavior
      then behavior_result s runs
      else if str_eq s.kind kind_latency
      then latency_result s runs
      else if str_eq s.kind kind_concurrency
      then record (compare_burst runs.base_burst runs.patch_burst) { id = s.id }
      else if str_eq s.kind kind_tests
      then record runs.tests { id = s.id; kind = kind_tests }
      else if str_eq s.kind kind_fault_status
      then fault_result s runs
      else with_verdict s verdict_incomplete (codes "unknown step" ∷ [])
