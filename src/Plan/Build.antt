-- ===== src/Plan/Build.antt =====
-- internal/plan/plan.go: the DAG that a report of an impact asks for, and how often its steps repeat.
pub mod Shape
use aquila.Base.{
  ℕ, Str, codes, Bool, true, false, not, ◌&&◌, ◌||◌, Option, none, some, List, [], ◌∷◌, ◌++◌, map,
  any, if◌then◌else◌, is_empty, str_eq, ℤ, pos, ltb_ℤ, leb_ℤ,
}
use aquila.Impact.{Report}
use aquila.Replay.{Run, verdict_incomplete}
use aquila.Replay
use aquila.Replay.Compare.{Decoder, compare}
use aquila.Plan.{
  Step, Dag, kind_env, kind_behavior, kind_latency, kind_concurrency, kind_fault_status,
}

abbrev pub default_latency_n : ℤ
default_latency_n = pos 20

abbrev pub default_concurrency_n : ℤ
default_concurrency_n = pos 8

abbrev pub env_only : List Str
env_only = codes "env" ∷ []

abbrev pub base_steps : List Step
base_steps =
    record {
      id = codes "env";
      kind = kind_env;
      required = true;
      operator = false;
      n = pos 0;
      status = pos 0;
      depends_on = [];
      reason = codes "GET /healthz on baseline and patch; compose is a local shop path";
    }
    ∷ record {
      id = codes "behavior";
      kind = kind_behavior;
      required = true;
      operator = false;
      n = pos 0;
      status = pos 0;
      depends_on = env_only;
      reason = codes "first-run status and json compare";
    }
    ∷ record {
      id = codes "latency";
      kind = kind_latency;
      required = true;
      operator = false;
      n = default_latency_n;
      status = pos 0;
      depends_on = env_only;
      reason = codes "successful-sample median; p95 withheld below 20; no regression threshold";
    }
    ∷ []

abbrev pub runtime_steps : List Step
runtime_steps =
    record {
      id = codes "concurrency";
      kind = kind_concurrency;
      required = true;
      operator = false;
      n = default_concurrency_n;
      status = pos 0;
      depends_on = env_only;
      reason = codes "parallel replay error-rate compare; not a latency threshold";
    }
    ∷ record {
      id = codes "fault_status";
      kind = kind_fault_status;
      required = false;
      operator = false;
      n = pos 0;
      status = pos 502;
      depends_on = env_only;
      reason = codes "one-sided 502 inject on patch via loopback proxy; probe, not a patch verdict";
    }
    ∷ []

abbrev pub first_note : Str
first_note =
    codes
      "not validated until required executable steps succeed on a clean recorded revision. match is not a pass."

-- hasRuntime.
abbrev pub has_runtime : Report → Bool
has_runtime rep = not (is_empty rep.runtime)

abbrev pub is_blank : Report → Bool
is_blank rep =
    is_empty rep.files
    && is_empty rep.direct
    && is_empty rep.likely
    && is_empty rep.runtime
    && is_empty rep.unobserved

-- FromImpact; `none` for its error on an empty impact.
unfoldable pub from_impact : Report → Option Dag
from_impact rep =
    if is_blank rep
    then none
    else some (record {
      steps = if has_runtime rep then base_steps ++ runtime_steps else base_steps;
      notes =
          first_note
          ∷ (if has_runtime rep
              then codes "fault is a one-sided inject probe and does not vote overall"
              else codes "concurrency and fault omitted: no observed runtime path")
          ∷ [];
      module_dir = [];
      test_packages = [];
      health_path = [];
    })

-- WithLatencyN.
unfoldable pub with_latency_n : Dag → ℤ → Dag
with_latency_n dag n = if ltb_ℤ n (pos 1) then dag else record dag {
  steps =
      map (λ (s : Step). if str_eq s.kind kind_latency then record s { n = n } else s) dag.steps;
}

-- WithLocalEnv.
unfoldable pub with_local_env : Dag → Dag
with_local_env dag = record dag {
  steps =
      map
        (λ (s : Step).
          if str_eq s.kind kind_env
          then record s {
            operator = false;
            reason =
                codes
                  "isolated shop pair started by aquila; GET /healthz; traces stay out of the live store";
          }
          else s)
        dag.steps;
}

-- hasKind.
abbrev pub has_kind : Dag → Str → Bool
has_kind dag kind = any (λ (s : Step). str_eq s.kind kind) dag.steps

repeats_from : ℤ → Bool → List Step → ℤ × Bool
repeats_from n need [] = (n, need)
repeats_from n need (s ∷ steps) =
    let skip = repeats_from n need steps in
    let once = repeats_from n true steps in
    let more = repeats_from (if ltb_ℤ n s.n then s.n else n) true steps in
    if s.operator
    then skip
    else if str_eq s.kind kind_behavior
    then once
    else if str_eq s.kind kind_latency
    then more
    else skip

-- replayRepeats.
unfoldable pub replay_repeats : Dag → ℤ × Bool
unfolding repeats_from
replay_repeats dag = repeats_from (pos 1) false dag.steps

burst_from : ℤ → Bool → List Step → ℤ × Bool
burst_from n need [] = (n, need)
burst_from n need (s ∷ steps) =
    let skip = burst_from n need steps in
    let taken = burst_from (if ltb_ℤ (pos 0) s.n then s.n else n) true steps in
    if s.operator || not (str_eq s.kind kind_concurrency) then skip else taken

-- concurrencyN.
unfoldable pub concurrency_n : Dag → ℤ × Bool
unfolding burst_from
concurrency_n dag = burst_from default_concurrency_n false dag.steps

-- compareFirst.
unfoldable pub compare_first : Decoder → List Run → List Run → Replay.Report
compare_first unmarshal [] patch = record { verdict = verdict_incomplete; steps = [] }
compare_first unmarshal (b ∷ base) [] = record { verdict = verdict_incomplete; steps = [] }
compare_first unmarshal (b ∷ base) (p ∷ patch) = compare unmarshal b p
