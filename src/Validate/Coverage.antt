-- ===== src/Validate/Coverage.antt =====
-- internal/validate/decide.go: changeBlockers, Covered, coverageBlockers and coverageBasis.

pub mod Laws
use aquila.Base.{
  Str, codes, Bool, true, not, ◌&&◌, ◌||◌, List, [], ◌∷◌, ◌++◌, if◌then◌else◌, is_empty, any,
  str_eq, pos, eqb_ℤ,
}
use aquila.Replay.{Delta, StepLatency, verdict_match, auth_rejected}
use aquila.Replay
use aquila.Plan.{StepResult, Evidence, kind_behavior}
use aquila.Impact.{
  RouteAttribution, provenance_trace_entry, provenance_code_attrs, provenance_trace_entry_caller,
}
use aquila.Impact.Routes.{route_matches}
use aquila.Validate.{
  unanalyzed_change, no_function_binding, no_runtime_route, route_missed, Blocker, Input, block_if,
  sorted_blockers, is_in,
}

unanalyzed_blockers : List Str → List Blocker
unanalyzed_blockers [] = []
unanalyzed_blockers (path ∷ paths) =
    block_if true unanalyzed_change path ++ unanalyzed_blockers paths

-- changeBlockers.
unfoldable pub change_blockers : Input → List Blocker
unfolding unanalyzed_blockers sorted_blockers
change_blockers i = sorted_blockers (
    unanalyzed_blockers i.changes.unanalyzed
    ++ (if is_empty i.changes.bound
        then block_if true no_function_binding []
        else block_if (is_empty i.impacted) no_runtime_route []))

-- A delta that a handler answered on both sides.
abbrev pub is_answered : Delta → Bool
is_answered d =
    not (eqb_ℤ d.baseline_status (pos 0) || eqb_ℤ d.patch_status (pos 0) || auth_rejected d)

answered_by : List Delta → List Str
answered_by [] = []
answered_by (d ∷ ds) =
    let rest = answered_by ds in
    if is_answered d then (d.method ++ (b' ' ∷ d.path)) ∷ rest else rest

-- The keys of the map `answered` of Covered.
unfoldable pub answered : List StepResult → List Str
unfolding answered_by
answered [] = []
answered (s ∷ steps) =
    (if str_eq s.kind kind_behavior then answered_by s.steps else []) ++ answered steps

-- Covered.
unfoldable pub covered : List Str → List Replay.Step → Evidence → Bool
unfolding answered
covered impacted work res =
    any
      (λ (st : Replay.Step).
        is_in (st.method ++ (b' ' ∷ st.path)) (answered res.steps)
        && any (λ route. route_matches route st.method st.path) impacted)
      work

missed_blockers : List Str → Input → List Blocker
missed_blockers [] i = []
missed_blockers (route ∷ routes) i =
    block_if (not (covered (route ∷ []) i.workload i.result)) route_missed route
    ++ missed_blockers routes i

-- coverageBlockers.
unfoldable pub coverage_blockers : Input → List Blocker
unfolding missed_blockers sorted_blockers
coverage_blockers i = sorted_blockers (missed_blockers i.impacted i)

abbrev is_direct : RouteAttribution → Bool
is_direct a =
    str_eq a.provenance provenance_trace_entry || str_eq a.provenance provenance_code_attrs

abbrev is_inferred : RouteAttribution → Bool
is_inferred a = str_eq a.provenance provenance_trace_entry_caller

abbrev pub coverage_observed : Str
coverage_observed = codes "observed"

abbrev pub coverage_inferred : Str
coverage_inferred = codes "inferred"

basis_from : Str → List Str → Input → Str
basis_from basis [] i = basis
basis_from basis (route ∷ routes) i =
    let about =
      λ (p : RouteAttribution → Bool). any (λ a. str_eq a.route route && p a) i.attributions in
    let rest = basis_from basis routes i in
    let observed = basis_from coverage_observed routes i in
    if not (covered (route ∷ []) i.workload i.result)
    then rest
    else if about is_inferred && not (about is_direct)
    then coverage_inferred
    else if about is_direct
    then observed
    else rest

-- coverageBasis.
unfoldable pub coverage_basis_of : Input → Str
unfolding basis_from
coverage_basis_of i = basis_from [] i.impacted i
