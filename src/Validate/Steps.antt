-- ===== src/Validate/Steps.antt =====
-- internal/validate/decide.go: stepOK, latencyN, stepBlockers and requiredStepBlockers.

pub mod Laws
pub mod Samples
use aquila.Base.{
  Str, Bool, true, false, not, ◌&&◌, ◌||◌, List, [], ◌∷◌, ◌++◌, if◌then◌else◌, any, str_eq, itoa, ℤ,
  pos, ltb_ℤ,
}
use aquila.Replay.{StepLatency, verdict_match}
use aquila.Replay.Latency.{shifted}
use aquila.Plan
use aquila.Plan.{
  Dag, StepResult, Evidence, kind_env, kind_behavior, kind_latency, kind_concurrency, kind_tests,
  verdict_samples, verdict_prepared,
}
use aquila.Validate.{
  step_missing, step_failed, latency_n, latency_shift, Blocker, Input, block_if, sorted_blockers,
  is_in, fold_text,
}

abbrev pub min_latency_n : ℤ
min_latency_n = pos 20

abbrev pub core_kinds : List Str
core_kinds = kind_env ∷ kind_behavior ∷ kind_latency ∷ kind_concurrency ∷ []

abbrev pub samples_of : StepLatency → ℤ
samples_of l = if ltb_ℤ l.patch.n l.baseline.n then l.patch.n else l.baseline.n

least_from : ℤ → List StepLatency → ℤ
least_from m [] = m
least_from m (l ∷ ls) = least_from (if ltb_ℤ (samples_of l) m then samples_of l else m) ls

least_samples : List StepLatency → ℤ
unfolding least_from
least_samples [] = pos 0
least_samples (l ∷ ls) = least_from (samples_of l) ls

-- latencyN.
unfoldable pub latency_samples : StepResult → ℤ
unfolding least_samples
latency_samples got = least_samples got.latency

abbrev pub latency_ok : StepResult → Bool
latency_ok got =
    str_eq (fold_text got.verdict) verdict_samples
    && not (ltb_ℤ (latency_samples got) min_latency_n)
    && not (any shifted got.latency)

-- stepOK.
unfoldable pub step_ok : Str → StepResult → Bool
unfolding latency_samples
step_ok kind got =
    let v = fold_text got.verdict in
    if str_eq kind kind_env || str_eq kind kind_tests
    then str_eq v verdict_prepared
    else if str_eq kind kind_behavior || str_eq kind kind_concurrency
    then str_eq v verdict_match
    else if str_eq kind kind_latency
    then latency_ok got
    else (str_eq v verdict_match || str_eq v verdict_samples || str_eq v verdict_prepared)

shift_blockers : List StepLatency → List Blocker
shift_blockers [] = []
shift_blockers (row ∷ rows) =
    block_if (shifted row) latency_shift (row.method ++ (b' ' ∷ row.path)) ++ shift_blockers rows

-- The blockers of one latency step.
latency_blockers : StepResult → List Blocker
unfolding shift_blockers latency_samples
latency_blockers step =
    block_if (ltb_ℤ (latency_samples step) min_latency_n) latency_n (itoa (latency_samples step))
    ++ shift_blockers step.latency

-- The loop of stepBlockers over the results, for one kind: the blockers, found and failed.
scan_results : Str → List StepResult → Bool → Bool → List Blocker × Bool × Bool
unfolding latency_blockers step_ok
scan_results kind [] found failed = ([], found, failed)
scan_results kind (step ∷ steps) found failed =
    let same = str_eq step.kind kind in
    let rest =
      scan_results kind steps (found || same) (failed || (same && not (step_ok kind step))) in
    (
      (if same && str_eq kind kind_latency then latency_blockers step else []) ++ rest.0,
      rest.1,
      rest.2,
    )

kind_blockers : Str → List StepResult → List Blocker
unfolding scan_results
kind_blockers kind results =
    let scan = scan_results kind results false false in
    scan.0
    ++ (if not scan.1 then block_if true step_missing kind else block_if scan.2 step_failed kind)

each_kind_blockers : List Str → List StepResult → List Blocker
unfolding kind_blockers
each_kind_blockers [] results = []
each_kind_blockers (kind ∷ kinds) results =
    kind_blockers kind results ++ each_kind_blockers kinds results

-- stepBlockers.
unfoldable pub step_blockers : List Str → List StepResult → List Blocker
unfolding each_kind_blockers sorted_blockers
step_blockers kinds results = sorted_blockers (each_kind_blockers kinds results)

abbrev pub is_extra : Plan.Step → Bool
is_extra step = step.required && not step.operator && not (is_in step.kind core_kinds)

required_kinds : List Str → List Plan.Step → List Str
required_kinds kinds [] = kinds
required_kinds kinds (step ∷ steps) =
    required_kinds
      (if is_extra step && not (is_in step.kind kinds) then kinds ++ step.kind ∷ [] else kinds)
      steps

-- requiredStepBlockers.
unfoldable pub required_step_blockers : Input → List Blocker
unfolding required_kinds step_blockers
required_step_blockers i = step_blockers (required_kinds [] i.plan.steps) i.result.steps
