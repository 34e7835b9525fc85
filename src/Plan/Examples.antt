-- ===== src/Plan/Examples.antt =====
-- internal/plan: the execution of a DAG, at a concrete input.
use aquila.Base.{
  ◌≡◌, refl, Str, codes, true, false, none, [], ◌∷◌, All, yields, ℤ, pos, has_prefix, contains,
  contains_any, find_key, itoa, trim_space, str_eq, if◌then◌else◌,
}
use aquila.Replay.{Run, Workload, verdict_match}
use aquila.Plan.{Step, Dag, StepResult, Evidence}
use aquila.Replay.Compare.{compare, json_notes}
use aquila.Plan.Build.{replay_repeats, concurrency_n, compare_first}
use aquila.Plan.Execute.{World, ExecData, blank_result}
use aquila.Plan.Execute.Gather.{gather, execute}
use aquila.Plan.Execute.Matching.{Met, execute-Met}

abbrev step : Str → Step
step kind = record {
  id = kind;
  kind = kind;
  required = true;
  operator = false;
  n = pos 0;
  status = pos 0;
  depends_on = [];
  reason = [];
}

-- A step of each kind but latency and tests, and one that the operator runs.
abbrev dag : Dag
dag = record {
  steps =
      step (codes "env")
      ∷ step (codes "behavior")
      ∷ step (codes "concurrency")
      ∷ step (codes "fault_status")
      ∷ record (step (codes "tests")) { operator = true }
      ∷ [];
  notes = codes "note" ∷ [];
  module_dir = [];
  test_packages = [];
  health_path = [];
}

abbrev answer : ℤ → Run
answer status = record {
  target = codes "http://a";
  steps =
      record {
        method = codes "GET";
        path = codes "/users?id=1";
        status = status;
        body = codes "ok";
        duration_ns = pos 9;
        err = [];
      }
      ∷ [];
}

-- Both targets answer 200; what runs through the fault proxy gets 502.
abbrev world : World
world = record {
  check_target = λ t. none;
  healthz = λ t p. none;
  turn = λ t w i. yields (answer (pos 200));
  burst = λ t w n. yields (answer (pos 200) ∷ []);
  run_tests = λ d. blank_result [] [];
  fault_handler = λ t status. none;
  listen = λ id. yields (codes "127.0.0.1:9");
  probe_run = λ t w.
      yields (if str_eq t (codes "http://127.0.0.1:9") then answer (pos 502) else answer (pos 200));
  unmarshal = λ s. none;
  quote = λ s. s;
  milliseconds = λ n. [];
}

abbrev workload : Workload
workload = record {
  steps =
      record {
        method = codes "GET";
        path = codes "/users?id=1";
        body = [];
        headers = [];
        provenance = [];
        service = [];
      }
      ∷ [];
}

abbrev result : Str → Str → Str → StepResult
result kind verdict note = record {
  id = kind;
  kind = kind;
  verdict = verdict;
  notes = note ∷ [];
  latency = [];
  steps = [];
}

abbrev evidence : Evidence
evidence = record {
  overall = verdict_match;
  steps =
      result (codes "env") (codes "prepared") (codes "healthz")
      ∷ record (result (codes "behavior") verdict_match []) {
        notes = [];
        steps =
            record {
              method = codes "GET";
              path = codes "/users?id=1";
              status = verdict_match;
              baseline_status = pos 200;
              patch_status = pos 200;
              notes = [];
            }
            ∷ [];
      }
      ∷ result (codes "concurrency") verdict_match (codes "baseline_errors=0/1 patch_errors=0/1")
      ∷ result (codes "fault_status") (codes "prepared") (codes "one-sided 502")
      ∷ result (codes "tests") (codes "skipped") (codes "operator")
      ∷ [];
  notes = codes "note" ∷ [];
}

executed : execute world dag (codes "a") (codes "b") workload ≡ yields evidence
unfolding execute replay_repeats str_eq has_prefix contains contains_any concurrency_n find_key
    compare_first itoa compare json_notes trim_space
executed = refl

execute-Met_example :
    (world.check_target (codes "a") ≡ none)
    × (world.check_target (codes "b") ≡ none)
    × ((runs : ExecData) × (gather world dag (codes "a") (codes "b") workload ≡ yields runs)
        × All (Met world runs) dag.steps)
execute-Met_example = execute-Met world dag (codes "a") (codes "b") workload evidence executed refl
