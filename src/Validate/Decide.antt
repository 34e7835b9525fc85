-- ===== src/Validate/Decide.antt =====
-- internal/validate/decide.go: Decide.
pub mod Blockers
pub mod Policy
pub mod Validated
use aquila.Base.{Str, codes, not, ◌&&◌, ◌||◌, List, [], ◌++◌, is_empty, str_eq}
use aquila.Url.{UrlPackage}
use aquila.Gitrev.{Revision, source_built}
use aquila.Replay.{verdict_match}
use aquila.Validate.{
  dirty_baseline, unverified_revision, same_target, not_match, Blocker, Decision, Input, block_if,
  fold_text,
}
use aquila.Validate.Steps.{core_kinds, step_blockers, required_step_blockers}
use aquila.Validate.Duplicates.{duplicate_blockers}
use aquila.Validate.Coverage.{change_blockers, coverage_blockers, coverage_basis_of}
use aquila.Validate.Targets.{target_blockers}

revision_blockers : Str → Revision → List Blocker
revision_blockers name rev =
    block_if (is_empty rev.tree || not (str_eq rev.source source_built)) unverified_revision name

module _ (urls : UrlPackage) where
  -- The blockers of Decide, in the order of the policy.
  unfoldable pub policy_blockers : Input → List Blocker
  unfolding revision_blockers
  policy_blockers i =
      block_if i.baseline_rev.dirty dirty_baseline []
      ++ (revision_blockers (codes "baseline") i.baseline_rev
          ++ (revision_blockers (codes "patch") i.patch_rev
              ++ (block_if
                    (not (is_empty i.baseline_rev.tree)
                      && str_eq i.baseline_rev.tree i.patch_rev.tree)
                    same_target i.baseline_rev.tree
                  ++ (target_blockers urls i
                      ++ (block_if (not (str_eq (fold_text i.result.overall) verdict_match))
                            not_match i.result.overall
                          ++ (duplicate_blockers i
                              ++ (step_blockers core_kinds i.result.steps
                                  ++ (required_step_blockers i
                                      ++ (change_blockers i ++ coverage_blockers i)))))))))

  -- Decide.
  unfoldable pub decide : Input → Decision
  unfolding policy_blockers
  decide i = record {
    coverage_basis = coverage_basis_of i;
    validated = is_empty (policy_blockers i);
    blockers = policy_blockers i;
  }
