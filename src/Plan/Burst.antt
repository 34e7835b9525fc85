-- ===== src/Plan/Burst.antt =====
-- internal/plan/fault.go: the comparison of the errors of two bursts, and the step that a fault
-- probe sends. The probe itself starts a proxy and is not modelled.
pub mod Errors
use aquila.Base.{
  ℕ, ◌+◌, Str, codes, Bool, true, false, not, ◌&&◌, ◌||◌, List, [], ◌∷◌, ◌++◌, any, count_by,
  length, ltb, ◌==◌, if◌then◌else◌, is_empty, str_eq, to_upper, trim_space, itoa, ℤ, pos, eqb_ℤ,
  leb_ℤ,
}
use aquila.Replay.{Observation, Run, verdict_match, verdict_differ, verdict_incomplete}
use aquila.Replay
use aquila.Plan.{StepResult, kind_concurrency}

abbrev pub is_burst_error : Observation → Bool
is_burst_error s = not (is_empty s.err) || leb_ℤ (pos 500) s.status || eqb_ℤ s.status (pos 0)

-- burstErrors: the errors, and all observations.
unfoldable pub burst_errors : List Run → ℕ × ℕ
burst_errors [] = (0, 0)
burst_errors (r ∷ runs) =
    let rest = burst_errors runs in
    (count_by is_burst_error r.steps + rest.0, length r.steps + rest.1)

abbrev burst_result : Str → List Str → StepResult
burst_result verdict notes = record {
  id = codes "concurrency";
  kind = kind_concurrency;
  verdict = verdict;
  notes = notes;
  latency = [];
  steps = [];
}

abbrev ratio : ℕ → ℕ → Str
ratio e n = itoa (pos e) ++ (b'/' ∷ itoa (pos n))

unfoldable pub compare_counts : ℕ × ℕ → ℕ × ℕ → StepResult
compare_counts (be, bn) (pe, pn) =
    let note = codes "baseline_errors=" ++ ratio be bn ++ (codes " patch_errors=" ++ ratio pe pn) in
    if bn == 0 || pn == 0
    then burst_result verdict_incomplete (codes "no observations" ∷ [])
    else if ltb be pe
    then burst_result verdict_differ (note ∷ codes "patch errors more under concurrency" ∷ [])
    else if ltb pe be
    then burst_result verdict_differ (note ∷ codes "patch errors less under concurrency" ∷ [])
    else burst_result verdict_match (note ∷ [])

-- compareBurst.
unfoldable pub compare_burst : List Run → List Run → StepResult
unfolding compare_counts burst_errors
compare_burst base patch =
    if is_empty base || is_empty patch
    then burst_result verdict_incomplete (codes "no samples" ∷ [])
    else compare_counts (burst_errors base) (burst_errors patch)

abbrev is_safe : Replay.Step → Bool
is_safe s =
    let m = to_upper (trim_space s.method) in
    str_eq m (codes "GET") || str_eq m (codes "HEAD") || str_eq m (codes "OPTIONS")

first_safe : Replay.Step → List Replay.Step → Replay.Step
first_safe d [] = d
first_safe d (s ∷ steps) = let rest = first_safe d steps in if is_safe s then s else rest

-- probeStep.
unfoldable pub probe_step : List Replay.Step → Replay.Step
unfolding first_safe
probe_step [] = record {
  method = codes "GET";
  path = codes "/healthz";
  body = [];
  headers = [];
  provenance = [];
  service = [];
}
probe_step (s ∷ steps) = first_safe s (s ∷ steps)
