-- ===== src/Examples.antt =====
-- Inputs of the policy, the comparison and the checks of targets, and what the theorems say of them.
use aquila.Base.{
  ℕ, ◌+◌, ◌*◌, ◌^◌, ◌<◌, ◌≡◌, ◌≢◌, ◌⊎◌, ◌↔◌, refl, Str, codes, Bool, true, false, Option, none,
  some, List, [], ◌∷◌, any, All, ℤ, pos, arith, trim_space,
}
use aquila.Url.{Url, UrlPackage, v4, v6}
use aquila.Gitrev.{Revision}
use aquila.Replay
use aquila.Replay.{Run, Observation, Delta, StepLatency, Summary, verdict_match, verdict_differ}
use aquila.Replay.Latency.{summarize}
use aquila.Replay.Latency.Order.{IsSummary, summarize-IsSummary}
use aquila.Replay.Json.{null}
use aquila.Replay.Compare.{Decoder, compare}
use aquila.Replay.Compare.Same.{AllAlike, compare-match}
use aquila.Plan
use aquila.Plan.{
  Dag, StepResult, Evidence, kind_env, kind_behavior, kind_latency, kind_concurrency,
  verdict_prepared, verdict_samples,
}
use aquila.Plan.Overall.{env_failed, overall}
use aquila.Plan.Overall.Verdict.{votes, is_cut, is_change, overall-match}
use aquila.Impact.{Changes, Report}
use aquila.Plan.Build.{first_note, base_steps, from_impact}
use aquila.Plan.Build.Shape.{samples_latency}
use aquila.Plan.Burst.{burst_errors, compare_burst}
use aquila.Plan.Burst.Errors.{compare_burst-match}
use aquila.Netguard.{blocked, check_url}
use aquila.Netguard.Targets.{Allowed, blocked-mapped, check_url-Allowed}
use aquila.Validate.{Input, fold_text}
use aquila.Validate.Steps.{step_ok}
use aquila.Validate.Decide.{decide}
use aquila.Validate.Decide.Policy.{Policy}
use aquila.Validate.Decide.Validated.{decide-validated}

abbrev urls : UrlPackage
urls = record {
  parse = λ s. some (record { scheme = codes "http"; host = s; has_user = false; rest = [] });
  hostname = λ u. u.host;
  port = λ u. [];
  render = λ u. u.host;
  parse_addr = λ s. none;
}

abbrev rev : Str → Revision
rev tree = record {
  commit = codes "c1";
  tree = tree;
  path = [];
  dirty = false;
  source = codes "built";
}

abbrev planned : Str → Plan.Step
planned kind = record {
  id = kind;
  kind = kind;
  required = true;
  operator = false;
  n = pos 0;
  status = pos 0;
  depends_on = [];
  reason = [];
}

abbrev answer : Delta
answer = record {
  method = codes "GET";
  path = codes "/x";
  status = verdict_match;
  baseline_status = pos 200;
  patch_status = pos 200;
  notes = [];
}

abbrev twenty : Summary
twenty = record {
  n = pos 20;
  min_ns = pos 1;
  med_ns = pos 2;
  p95_ns = pos 3;
  p99_ns = pos 3;
  has_p95 = true;
  has_p99 = true;
}

abbrev measured : StepLatency
measured = record { method = codes "GET"; path = codes "/x"; baseline = twenty; patch = twenty }

abbrev reported : Str → Str → List StepLatency → List Delta → StepResult
reported kind verdict latency steps = record {
  id = kind;
  kind = kind;
  verdict = verdict;
  notes = [];
  latency = latency;
  steps = steps;
}

abbrev latency_result : StepResult
latency_result = reported kind_latency verdict_samples (measured ∷ []) []

abbrev results : List StepResult
results =
    reported kind_env verdict_prepared [] []
    ∷ reported kind_behavior verdict_match [] (answer ∷ [])
    ∷ latency_result
    ∷ reported kind_concurrency verdict_match [] []
    ∷ []

-- An input that meets the policy.
abbrev sound_input : Input
sound_input = record {
  attributions = [];
  baseline_rev = rev (codes "t1");
  patch_rev = rev (codes "t2");
  baseline = codes "http://a";
  patch = codes "http://b";
  plan = record {
    steps =
        planned kind_env
        ∷ planned kind_behavior
        ∷ planned kind_latency
        ∷ planned kind_concurrency
        ∷ [];
    notes = [];
    module_dir = [];
    test_packages = [];
    health_path = [];
  };
  result = record { overall = codes " Match "; steps = results; notes = [] };
  impacted = codes "GET /{id}" ∷ [];
  workload =
      record {
        method = codes "GET";
        path = codes "/x";
        body = [];
        headers = [];
        provenance = [];
        service = [];
      }
      ∷ [];
  changes = record { bound = codes "f" ∷ []; unanalyzed = [] };
}

runs :
    ((decide urls sound_input).validated ≡ true)
    × (step_ok kind_latency latency_result ≡ true)
    × (overall results ≡ verdict_match)
    × (check_url urls (codes "http://a") ≡ none)
unfolding aquila.Base.str_eq aquila.Base.str_lt aquila.Base.to_lower aquila.Base.to_upper
    aquila.Base.trim_left aquila.Base.trim_right aquila.Base.trim aquila.Base.trim_space
    aquila.Base.has_prefix aquila.Base.has_suffix aquila.Base.contains_any aquila.Base.cut_at
    aquila.Base.split aquila.Base.decimal aquila.Base.itoa aquila.Base.hex4
    aquila.Replay.auth_rejected aquila.Replay.Latency.shifted
    aquila.Replay.Latency.successful_durations aquila.Replay.Latency.latency
    aquila.Plan.Overall.overall aquila.Impact.Routes.split_route aquila.Impact.Routes.segments_match
    aquila.Impact.Routes.route_matches aquila.Validate.sorted_blockers
    aquila.Validate.Steps.latency_samples aquila.Validate.Steps.step_ok
    aquila.Validate.Steps.step_blockers aquila.Validate.Steps.required_step_blockers
    aquila.Validate.Duplicates.distinct_kinds aquila.Validate.Duplicates.plan_kinds
    aquila.Validate.Duplicates.result_kinds aquila.Validate.Duplicates.duplicate_blockers
    aquila.Validate.Coverage.change_blockers aquila.Validate.Coverage.answered
    aquila.Validate.Coverage.covered aquila.Validate.Coverage.coverage_blockers
    aquila.Validate.Coverage.coverage_basis_of aquila.Validate.Targets.norm_url
    aquila.Validate.Targets.target_blockers aquila.Validate.Decide.policy_blockers
    aquila.Validate.Decide.decide aquila.Netguard.check_url aquila.Netguard.blocked
    aquila.Base.wrap_64 aquila.Base.◌+ℤ◌
runs = (refl, refl, refl, refl)

decide-validated_example : ((decide urls sound_input).validated ≡ true) ↔ Policy urls sound_input
decide-validated_example = decide-validated urls sound_input

-- The policy holds of the input, so it is not empty.
sound_input-Policy : Policy urls sound_input
sound_input-Policy = (decide-validated urls sound_input).0 runs.0

overall-match_example : (overall results ≡ verdict_match) ↔ (
    (any env_failed results ≡ false)
    × (any votes results ≡ true)
    × (any is_cut results ≡ false)
    × (any is_change results ≡ false))
overall-match_example = overall-match results

abbrev observed : ℤ → Observation
observed status = record {
  method = codes "GET";
  path = codes "/x";
  status = status;
  body = codes "null";
  duration_ns = pos 7;
  err = [];
}

abbrev run_of : ℤ → Run
run_of status = record { target = codes "http://a"; steps = observed status ∷ [] }

abbrev only_null : Decoder
only_null = λ s. some null

compare-match_example :
    ((compare only_null (run_of (pos 200)) (run_of (pos 500))).verdict ≡ verdict_match)
    ↔ AllAlike only_null (observed (pos 200) ∷ []) (observed (pos 500) ∷ [])
compare-match_example = compare-match only_null (run_of (pos 200)) (run_of (pos 500))

-- 169.254.169.254, where clouds serve metadata.
blocked-mapped_example : blocked (v6 (65535 * 2 ^ 32 + 2852039166) []) ≡ blocked (v4 2852039166)
blocked-mapped_example = blocked-mapped 2852039166 [] (omega arith)

check_url-Allowed_example :
    (u : Url) × (urls.parse (trim_space (codes "http://a")) ≡ some u) × Allowed urls u
check_url-Allowed_example = check_url-Allowed urls (codes "http://a") runs.3

abbrev touched : Report
touched = record {
  route_trace_counts = [];
  files = codes "a.go" ∷ [];
  direct = [];
  likely = [];
  runtime = [];
  unobserved = [];
}

abbrev built_dag : Dag
built_dag = record {
  steps = base_steps;
  notes = first_note ∷ codes "concurrency and fault omitted: no observed runtime path" ∷ [];
  module_dir = [];
  test_packages = [];
  health_path = [];
}

builds : from_impact touched ≡ some built_dag
unfolding from_impact
builds = refl

has_latency : any samples_latency built_dag.steps ≡ true
unfolding aquila.Base.str_eq
has_latency = refl

compare_burst-match_example :
    ((compare_burst (run_of (pos 200) ∷ []) (run_of (pos 503) ∷ [])).verdict ≡ verdict_match) ↔ (
      (0 < (burst_errors (run_of (pos 200) ∷ [])).1)
      × (0 < (burst_errors (run_of (pos 503) ∷ [])).1)
      × ((burst_errors (run_of (pos 200) ∷ [])).0 ≡ (burst_errors (run_of (pos 503) ∷ [])).0))
compare_burst-match_example = compare_burst-match (run_of (pos 200) ∷ []) (run_of (pos 503) ∷ [])

summarize-IsSummary_example : IsSummary (pos 3 ∷ pos 1 ∷ []) (summarize (pos 3 ∷ pos 1 ∷ []))
summarize-IsSummary_example = summarize-IsSummary (pos 3) (pos 1 ∷ [])
