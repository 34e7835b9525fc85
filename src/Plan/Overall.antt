-- ===== src/Plan/Overall.antt =====
-- internal/plan/run.go: the verdict over the steps of a DAG.
pub mod Verdict
use aquila.Base.{Str, Bool, true, false, ◌&&◌, ◌||◌, List, [], ◌∷◌, if◌then◌else◌, str_eq}
use aquila.Replay.{verdict_match, verdict_differ, verdict_incomplete}
use aquila.Plan.{kind_env, kind_latency, kind_fault_status, verdict_skipped, StepResult}

-- The variables of the loop; `executed` records only whether the counter left 0.
pub record Tally : Type 0 where
  pub incomplete : Bool
  pub differ : Bool
  pub executed : Bool

abbrev pub no_tally : Tally
no_tally = record { incomplete = false; differ = false; executed = false }

-- Env has failed: the loop returns at once.
abbrev pub env_failed : StepResult → Bool
env_failed s = str_eq s.kind kind_env && str_eq s.verdict verdict_incomplete

-- Skipped, env and fault steps do not vote.
abbrev pub is_silent : StepResult → Bool
is_silent s =
    str_eq s.verdict verdict_skipped || str_eq s.kind kind_env || str_eq s.kind kind_fault_status

-- The body of the loop for a step that votes. A latency step can only make the verdict incomplete.
abbrev pub vote : StepResult → Tally → Tally
vote s t = record {
  incomplete = t.incomplete || str_eq s.verdict verdict_incomplete;
  differ =
      t.differ || (if str_eq s.kind kind_latency then false else str_eq s.verdict verdict_differ);
  executed = true;
}

conclude : Tally → Str
conclude t =
    if t.executed
    then if t.incomplete
      then verdict_incomplete
      else if t.differ
      then verdict_differ
      else verdict_match
    else verdict_incomplete

overall_from : Tally → List StepResult → Str
unfolding conclude
overall_from t [] = conclude t
overall_from t (s ∷ steps) =
    let rest = overall_from (if is_silent s then t else vote s t) steps in
    if env_failed s then verdict_incomplete else rest

-- Overall.
unfoldable pub overall : List StepResult → Str
unfolding overall_from
overall steps = overall_from no_tally steps
