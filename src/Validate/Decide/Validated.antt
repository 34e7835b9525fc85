-- ===== src/Validate/Decide/Validated.antt =====
-- internal/validate/decide.go: which inputs Decide validates.
use aquila.Base.{
  ◌≡◌, ◌≢◌, refl, sym, ◌∙◌, Str, true, false, ◌⊎◌, ◌↔◌, [], ◌∷◌, is_empty, arith, str_eq→eq,
  str_eq_iff, str_eq-false, all→All, All→all, nonempty_iff, is_empty_iff, All-imp, trim_space,
}
use aquila.Url.{UrlPackage}
use aquila.Replay.{verdict_match}
use aquila.Plan
use aquila.Plan.{StepResult, kind_behavior}
use aquila.Validate.{Input, fold_text}
use aquila.Validate.Steps.{core_kinds, is_extra}
use aquila.Validate.Steps.Laws.{kind_ok, extra_met}
use aquila.Validate.Duplicates.{plan_kinds, result_kinds}
use aquila.Validate.Coverage.Laws.{is_covered}
use aquila.Validate.Targets.{norm_url}
use aquila.Validate.Decide.{decide}
use aquila.Validate.Decide.Blockers.{targets_ok, meets, blockers-meets}
use aquila.Validate.Decide.Policy.{
  KindPasses, Reaches, Policy, IsBuilt-iff, KindPasses-iff, Reaches-iff, NeverTwice-iff,
  extra_met_iff,
}

trim_space-given : (s : Str) → is_empty (trim_space s) ≡ false → is_empty s ≡ false
unfolding trim_space
trim_space-given [] h = h
trim_space-given (c ∷ s) h = refl

module _ (urls : UrlPackage) where
  Targets_iff :
      (i : Input)
      → (targets_ok urls i ≡ true) ↔ (
          (trim_space i.baseline ≢ [])
          × (trim_space i.patch ≢ [])
          × (norm_url urls i.baseline ≢ norm_url urls i.patch))
  Targets_iff i =
      let b = norm_url urls i.baseline in
      let p = norm_url urls i.patch in
      (
        λ h.
            let b_raw = trim_space-given i.baseline (ground arith) in
            let p_raw = trim_space-given i.patch (ground arith) in
            (
              (nonempty_iff (trim_space i.baseline)).0 (ground arith),
              (nonempty_iff (trim_space i.patch)).0 (ground arith),
              (str_eq-false b p).0 (ground arith),
            ),
        λ t.
            let x = (nonempty_iff (trim_space i.baseline)).1 t.0 in
            let y = (nonempty_iff (trim_space i.patch)).1 t.1 in
            let z = (str_eq-false b p).1 t.2 in ground arith,
      )

  meets→Policy : (i : Input) → meets urls i ≡ true → Policy urls i
  meets→Policy i h =
      let built = (IsBuilt-iff i.baseline_rev).0 (ground arith) in
      let known = (nonempty_iff i.baseline_rev.tree).1 built.tree_known in
      let t = (Targets_iff i).0 (ground arith) in
      let once = (NeverTwice-iff (plan_kinds i) (result_kinds i)).0 (ground arith) in
      record {
        clean = ground arith;
        baseline_built = built;
        patch_built = (IsBuilt-iff i.patch_rev).0 (ground arith);
        trees_differ = (str_eq-false i.baseline_rev.tree i.patch_rev.tree).0 (ground arith);
        baseline_given = t.0;
        patch_given = t.1;
        targets_differ = t.2;
        matched = str_eq→eq (fold_text i.result.overall) verdict_match (ground arith);
        planned_once = once.0;
        reported_once = once.1;
        core_pass =
            All-imp (λ k. kind_ok i.result.steps k ≡ true) (KindPasses i.result.steps)
              (λ k. (KindPasses-iff i.result.steps k).0) core_kinds
              (all→All (kind_ok i.result.steps) core_kinds (ground arith));
        extra_pass =
            All-imp (λ s. extra_met i.result.steps s ≡ true)
              (λ (s : Plan.Step). (is_extra s ≡ false) ⊎ KindPasses i.result.steps s.kind)
              (λ s. (extra_met_iff i.result.steps s).0) i.plan.steps
              (all→All (extra_met i.result.steps) i.plan.steps (ground arith));
        analyzed = (is_empty_iff i.changes.unanalyzed).0 (ground arith);
        bound = (nonempty_iff i.changes.bound).0 (ground arith);
        impacted = (nonempty_iff i.impacted).0 (ground arith);
        reached =
            All-imp (λ r. is_covered i r ≡ true) (Reaches i) (λ r. (Reaches-iff i r).0) i.impacted
              (all→All (is_covered i) i.impacted (ground arith));
      }

  Policy→meets : (i : Input) → Policy urls i → meets urls i ≡ true
  Policy→meets i p =
      let a = p.clean in
      let b = (IsBuilt-iff i.baseline_rev).1 p.baseline_built in
      let c = (IsBuilt-iff i.patch_rev).1 p.patch_built in
      let d = (str_eq-false i.baseline_rev.tree i.patch_rev.tree).1 p.trees_differ in
      let t = (Targets_iff i).1 (p.baseline_given, p.patch_given, p.targets_differ) in
      let m = (str_eq_iff (fold_text i.result.overall) verdict_match).1 p.matched in
      let o =
        (NeverTwice-iff (plan_kinds i) (result_kinds i)).1 (p.planned_once, p.reported_once) in
      let k = All→all (kind_ok i.result.steps) core_kinds (
        All-imp (KindPasses i.result.steps) (λ k. kind_ok i.result.steps k ≡ true)
          (λ k. (KindPasses-iff i.result.steps k).1) core_kinds p.core_pass) in
      let e = All→all (extra_met i.result.steps) i.plan.steps (
        All-imp (λ (s : Plan.Step). (is_extra s ≡ false) ⊎ KindPasses i.result.steps s.kind)
          (λ s. extra_met i.result.steps s ≡ true) (λ s. (extra_met_iff i.result.steps s).1)
          i.plan.steps p.extra_pass) in
      let u = (is_empty_iff i.changes.unanalyzed).1 p.analyzed in
      let v = (nonempty_iff i.changes.bound).1 p.bound in
      let w = (nonempty_iff i.impacted).1 p.impacted in
      let r = All→all (is_covered i) i.impacted (
        All-imp (Reaches i) (λ r. is_covered i r ≡ true) (λ r. (Reaches-iff i r).1) i.impacted
          p.reached) in
      ground arith

  -- Decide validates an input exactly when the input meets the whole policy: clean and built
  -- revisions with two trees and two targets, a match overall, no kind of step planned or
  -- reported twice, every core kind and every further required kind present and passing, every
  -- changed function analyzed and bound, and every impacted route reached by the workload.
  pub decide-validated : (i : Input) → ((decide urls i).validated ≡ true) ↔ Policy urls i
  unfolding decide
  decide-validated i = (
    λ h. meets→Policy i (sym (blockers-meets urls i) ∙ h),
    λ p. blockers-meets urls i ∙ Policy→meets i p,
  )
