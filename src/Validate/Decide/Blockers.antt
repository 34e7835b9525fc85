-- ===== src/Validate/Decide/Blockers.antt =====
-- When Decide names no blocker, test by test.
use aquila.Base.{
  ◌≡◌, refl, ◌∙◌, Str, codes, Bool, not, ◌&&◌, [], ◌++◌, all, is_empty, is_empty-append, arith,
  str_eq, trim_space,
}
use aquila.Url.{UrlPackage}
use aquila.Gitrev.{Revision, source_built}
use aquila.Replay.{verdict_match}
use aquila.Validate.{
  Input, block_if, fold_text, is_empty-sorted, missing_target, same_target, not_match,
  dirty_baseline,
}
use aquila.Validate.Steps.{core_kinds, step_blockers, required_step_blockers}
use aquila.Validate.Steps.Laws.{
  kind_ok, extra_met, step_blockers-empty, required_step_blockers-empty,
}
use aquila.Validate.Duplicates.{plan_kinds, result_kinds, duplicate_blockers}
use aquila.Validate.Duplicates.Laws.{is_single, duplicate_blockers-empty}
use aquila.Validate.Coverage.{change_blockers, coverage_blockers}
use aquila.Validate.Coverage.Laws.{is_covered, change_blockers-empty, coverage_blockers-empty}
use aquila.Validate.Targets.{norm_url, target_blockers}
use aquila.Validate.Decide.{revision_blockers, policy_blockers}

abbrev pub revision_ok : Revision → Bool
revision_ok rev = not (is_empty rev.tree) && str_eq rev.source source_built

revision_blockers-empty :
    (name : Str) (rev : Revision) → is_empty (revision_blockers name rev) ≡ revision_ok rev
unfolding revision_blockers
revision_blockers-empty name rev = ground arith

module _ (urls : UrlPackage) where
  abbrev pub targets_ok : Input → Bool
  targets_ok i =
      not (is_empty (trim_space i.baseline))
      && (not (is_empty (trim_space i.patch))
          && not (
              not (is_empty i.baseline)
              && not (is_empty i.patch)
              && str_eq (norm_url urls i.baseline) (norm_url urls i.patch)))

  target_blockers-empty : (i : Input) → is_empty (target_blockers urls i) ≡ targets_ok i
  unfolding target_blockers
  target_blockers-empty i =
      let a = block_if (is_empty (trim_space i.baseline)) missing_target (codes "baseline") in
      let b = block_if (is_empty (trim_space i.patch)) missing_target (codes "patch") in
      let c =
        block_if
          (not (is_empty i.baseline)
            && not (is_empty i.patch)
            && str_eq (norm_url urls i.baseline) (norm_url urls i.patch))
          same_target (norm_url urls i.baseline) in
      is_empty-sorted (a ++ (b ++ c))
      ∙ (is_empty-append a (b ++ c) ∙ rw (is_empty-append b c) (ground arith))

  -- The tests of the policy, in its order.
  abbrev pub meets : Input → Bool
  meets i =
      not i.baseline_rev.dirty
      && (revision_ok i.baseline_rev
          && (revision_ok i.patch_rev
              && (not (
                    not (is_empty i.baseline_rev.tree)
                    && str_eq i.baseline_rev.tree i.patch_rev.tree)
                  && (targets_ok i
                      && (str_eq (fold_text i.result.overall) verdict_match
                          && (all (is_single (plan_kinds i) (result_kinds i))
                                (plan_kinds i ++ result_kinds i)
                              && (all (kind_ok i.result.steps) core_kinds
                                  && (all (extra_met i.result.steps) i.plan.steps
                                      && ((is_empty i.changes.unanalyzed
                                            && (not (is_empty i.changes.bound)
                                                && not (is_empty i.impacted)))
                                          && all (is_covered i) i.impacted)))))))))

  tail_meets : Input → Bool
  tail_meets i =
      all (is_single (plan_kinds i) (result_kinds i)) (plan_kinds i ++ result_kinds i)
      && (all (kind_ok i.result.steps) core_kinds
          && (all (extra_met i.result.steps) i.plan.steps
              && ((is_empty i.changes.unanalyzed
                    && (not (is_empty i.changes.bound) && not (is_empty i.impacted)))
                  && all (is_covered i) i.impacted)))

  -- The blockers that the steps, the changes and the coverage give.
  tail_blockers-empty :
      (i : Input)
      → is_empty (
          duplicate_blockers i
          ++ (step_blockers core_kinds i.result.steps
              ++ (required_step_blockers i ++ (change_blockers i ++ coverage_blockers i))))
        ≡ tail_meets i
  unfolding tail_meets
  tail_blockers-empty i =
      let d = duplicate_blockers i in
      let s = step_blockers core_kinds i.result.steps in
      let r = required_step_blockers i in
      let c = change_blockers i in
      let k = coverage_blockers i in
      is_empty-append d (s ++ (r ++ (c ++ k)))
      ∙ rw
          (
            is_empty-append s (r ++ (c ++ k)),
            is_empty-append r (c ++ k),
            is_empty-append c k,
            duplicate_blockers-empty i,
            step_blockers-empty core_kinds i.result.steps,
            required_step_blockers-empty i,
            change_blockers-empty i,
            coverage_blockers-empty i,
          )
          refl

  pub blockers-meets : (i : Input) → is_empty (policy_blockers urls i) ≡ meets i
  unfolding policy_blockers tail_meets
  blockers-meets i =
      let dirty = block_if i.baseline_rev.dirty dirty_baseline [] in
      let b = revision_blockers (codes "baseline") i.baseline_rev in
      let p = revision_blockers (codes "patch") i.patch_rev in
      let same =
        block_if (not (is_empty i.baseline_rev.tree) && str_eq i.baseline_rev.tree i.patch_rev.tree)
          same_target i.baseline_rev.tree in
      let t = target_blockers urls i in
      let m =
        block_if (not (str_eq (fold_text i.result.overall) verdict_match)) not_match
          i.result.overall in
      let rest =
        duplicate_blockers i
        ++ (step_blockers core_kinds i.result.steps
            ++ (required_step_blockers i ++ (change_blockers i ++ coverage_blockers i))) in
      is_empty-append dirty (b ++ (p ++ (same ++ (t ++ (m ++ rest)))))
      ∙ rw
          (
            is_empty-append b (p ++ (same ++ (t ++ (m ++ rest)))),
            is_empty-append p (same ++ (t ++ (m ++ rest))),
            is_empty-append same (t ++ (m ++ rest)),
            is_empty-append t (m ++ rest),
            is_empty-append m rest,
            revision_blockers-empty (codes "baseline") i.baseline_rev,
            revision_blockers-empty (codes "patch") i.patch_rev,
            target_blockers-empty i,
            tail_blockers-empty i,
          )
          (ground arith)
