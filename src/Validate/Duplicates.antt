-- ===== src/Validate/Duplicates.antt =====
-- internal/validate/decide.go: duplicateBlockers.

pub mod Laws
use aquila.Base.{Str, Bool, ◌||◌, List, [], ◌∷◌, ◌++◌, map, ltb, if◌then◌else◌, count_by, str_eq}
use aquila.Plan
use aquila.Plan.{
  Dag, StepResult, Evidence, kind_env, kind_behavior, kind_latency, kind_concurrency, kind_tests,
  verdict_samples, verdict_prepared,
}
use aquila.Validate.{duplicate_step, Blocker, Input, block_if, sorted_blockers, is_in}

-- The kinds of `ks` without repetition: the keys of the map that duplicateBlockers fills. Sorting
-- makes the order in which a map yields its keys immaterial.
unfoldable pub distinct_kinds : List Str → List Str
distinct_kinds [] = []
distinct_kinds (k ∷ ks) = let rest = distinct_kinds ks in if is_in k ks then rest else k ∷ rest

unfoldable pub plan_kinds : Input → List Str
plan_kinds i = map (λ (s : Plan.Step). s.kind) i.plan.steps

unfoldable pub result_kinds : Input → List Str
result_kinds i = map (λ (s : StepResult). s.kind) i.result.steps

abbrev pub repeats : List Str → Str → Bool
repeats ks k = ltb 1 (count_by (λ s. str_eq s k) ks)

duplicates_among : List Str → List Str → List Str → List Blocker
duplicates_among ps rs [] = []
duplicates_among ps rs (k ∷ ks) =
    block_if (repeats ps k || repeats rs k) duplicate_step k ++ duplicates_among ps rs ks

-- duplicateBlockers.
unfoldable pub duplicate_blockers : Input → List Blocker
unfolding duplicates_among distinct_kinds plan_kinds result_kinds sorted_blockers
duplicate_blockers i = sorted_blockers (
    duplicates_among (plan_kinds i) (result_kinds i)
      (distinct_kinds (plan_kinds i ++ result_kinds i)))
