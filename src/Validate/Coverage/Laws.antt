-- ===== src/Validate/Coverage/Laws.antt =====
-- When changeBlockers and coverageBlockers name no blocker.
use aquila.Base.{
  ◌≡◌, refl, ◌∙◌, Str, Bool, true, not, ◌&&◌, List, [], ◌∷◌, ◌++◌, all, is_empty, is_empty-append,
  if◌then◌else◌, arith,
}
use aquila.Validate.{
  Input, block_if, no_function_binding, no_runtime_route, route_missed, is_empty-sorted,
}
use aquila.Validate.Coverage.{
  unanalyzed_blockers, change_blockers, covered, missed_blockers, coverage_blockers,
}

unanalyzed_blockers-empty :
    (paths : List Str) → is_empty (unanalyzed_blockers paths) ≡ is_empty paths
unfolding unanalyzed_blockers
unanalyzed_blockers-empty [] = refl
unanalyzed_blockers-empty (p ∷ ps) = refl

pub change_blockers-empty :
    (i : Input)
    → is_empty (change_blockers i) ≡ (
        is_empty i.changes.unanalyzed
        && (not (is_empty i.changes.bound) && not (is_empty i.impacted)))
unfolding change_blockers
change_blockers-empty i =
    let rest =
      if is_empty i.changes.bound
      then block_if true no_function_binding []
      else block_if (is_empty i.impacted) no_runtime_route [] in
    is_empty-sorted (unanalyzed_blockers i.changes.unanalyzed ++ rest)
    ∙ (is_empty-append (unanalyzed_blockers i.changes.unanalyzed) rest
        ∙ rw (unanalyzed_blockers-empty i.changes.unanalyzed) (ground arith))

-- The workload of the input reaches the route.
abbrev pub is_covered : Input → Str → Bool
is_covered i route = covered (route ∷ []) i.workload i.result

missed_blockers-empty :
    (routes : List Str) (i : Input)
    → is_empty (missed_blockers routes i) ≡ all (is_covered i) routes
unfolding missed_blockers
missed_blockers-empty [] i = refl
missed_blockers-empty (route ∷ routes) i =
    is_empty-append (block_if (not (is_covered i route)) route_missed route)
      (missed_blockers routes i)
    ∙ rw (missed_blockers-empty routes i) (ground arith)

pub coverage_blockers-empty :
    (i : Input) → is_empty (coverage_blockers i) ≡ all (is_covered i) i.impacted
unfolding coverage_blockers
coverage_blockers-empty i =
    is_empty-sorted (missed_blockers i.impacted i) ∙ missed_blockers-empty i.impacted i
