-- ===== src/Validate/Steps/Laws.antt =====
-- When stepBlockers names no blocker.
use mathlib.Core.Path.{subst}
use aquila.Base.{
  ◌≡◌, refl, sym, ◌∙◌, Str, Bool, true, false, not, ◌&&◌, ◌||◌, inl, inr, List, [], ◌∷◌, ◌++◌, any,
  all, is_empty, is_empty-append, if◌then◌else◌, arith, Bool-cases, str_eq, str_eq→eq, ltb_ℤ, itoa,
}
use aquila.Replay.{StepLatency}
use aquila.Replay.Latency.{shifted}
use aquila.Plan
use aquila.Plan.{StepResult, kind_latency}
use aquila.Validate.{
  all-is_in, Blocker, Input, block_if, is_empty-sorted, is_in, step_missing, step_failed, latency_n,
}
use aquila.Validate.Steps.{
  min_latency_n, latency_samples, latency_ok, step_ok, shift_blockers, latency_blockers,
  scan_results, kind_blockers, each_kind_blockers, step_blockers, is_extra, required_kinds,
  required_step_blockers,
}

shift_blockers-empty :
    (rows : List StepLatency) → is_empty (shift_blockers rows) ≡ not (any shifted rows)
unfolding shift_blockers
shift_blockers-empty [] = refl
shift_blockers-empty (row ∷ rows) = ground (arith, shift_blockers-empty rows)

pub step_ok-latency : (s : StepResult) → step_ok kind_latency s ≡ latency_ok s
unfolding step_ok str_eq
step_ok-latency s = refl

latency_blockers-empty :
    (s : StepResult) → step_ok kind_latency s ≡ true → is_empty (latency_blockers s) ≡ true
unfolding latency_blockers
latency_blockers-empty s h =
    let ok = sym (step_ok-latency s) ∙ h in
    rw
      (
        is_empty-append
            (block_if (ltb_ℤ (latency_samples s) min_latency_n) latency_n
              (itoa (latency_samples s)))
            (shift_blockers s.latency),
        shift_blockers-empty s.latency,
      )
      (ground arith)

abbrev same_kind : Str → StepResult → Bool
same_kind kind s = str_eq s.kind kind

abbrev fails : Str → StepResult → Bool
fails kind s = same_kind kind s && not (step_ok kind s)

-- A kind has a result, and all its results pass.
abbrev pub kind_ok : List StepResult → Str → Bool
kind_ok results kind = any (same_kind kind) results && not (any (fails kind) results)

module _ (kind : Str) where
  here_blockers : StepResult → List Blocker
  here_blockers s = if same_kind kind s && str_eq kind kind_latency then latency_blockers s else []

  here_blockers-empty : (s : StepResult) → fails kind s ≡ false → is_empty (here_blockers s) ≡ true
  unfolding here_blockers
  here_blockers-empty s h = elim (Bool-cases (same_kind kind s && str_eq kind kind_latency)) [
    | inr n ↦ rw n
    | inl y ↦
        let e = str_eq→eq kind kind_latency (ground arith) in
        rw y (latency_blockers-empty s (subst (λ (k : Str). step_ok k s ≡ true) e (ground arith)))
  ]

  scan_found :
      (rs : List StepResult) (found failed : Bool)
      → ((scan_results kind rs found failed).1 ≡ (found || any (same_kind kind) rs))
        × ((scan_results kind rs found failed).2 ≡ (failed || any (fails kind) rs))
  unfolding scan_results
  scan_found [] found failed = (ground arith, ground arith)
  scan_found (s ∷ rs) found failed =
      let ih = scan_found rs (found || same_kind kind s) (failed || fails kind s) in
      (ih.0 ∙ ground arith, ih.1 ∙ ground arith)

  scan-empty :
      (rs : List StepResult) (found failed : Bool)
      → any (fails kind) rs ≡ false
      → is_empty (scan_results kind rs found failed).0 ≡ true
  unfolding scan_results here_blockers
  scan-empty [] found failed h = refl
  scan-empty (s ∷ rs) found failed h =
      let hd = here_blockers-empty s (ground arith) in
      let tl = scan-empty rs (found || same_kind kind s) (failed || fails kind s) (ground arith) in
      is_empty-append (here_blockers s)
        (scan_results kind rs (found || same_kind kind s) (failed || fails kind s)).0
      ∙ rw (hd, tl) refl

  kind_blockers-empty : (rs : List StepResult) → is_empty (kind_blockers kind rs) ≡ kind_ok rs kind
  unfolding kind_blockers
  kind_blockers-empty rs =
      let found = (scan_found rs false false).0 in
      let failed = (scan_found rs false false).1 in
      elim (Bool-cases (any (same_kind kind) rs)) [
        | inr absent ↦
            is_empty-append (scan_results kind rs false false).0 (
              if not (scan_results kind rs false false).1
              then block_if true step_missing kind
              else block_if (scan_results kind rs false false).2 step_failed kind)
            ∙ rw (found, absent) (ground arith)
        | inl there ↦
            is_empty-append (scan_results kind rs false false).0 (
              if not (scan_results kind rs false false).1
              then block_if true step_missing kind
              else block_if (scan_results kind rs false false).2 step_failed kind)
            ∙ elim (Bool-cases (any (fails kind) rs)) [
              | inl bad ↦ rw (found, there, failed, bad) (ground arith)
              | inr fine ↦ rw (found, there, failed, fine, scan-empty rs false false fine) refl
            ]
      ]

each_kind-empty :
    (kinds : List Str) (rs : List StepResult)
    → is_empty (each_kind_blockers kinds rs) ≡ all (kind_ok rs) kinds
unfolding each_kind_blockers
each_kind-empty [] rs = refl
each_kind-empty (k ∷ kinds) rs =
    is_empty-append (kind_blockers k rs) (each_kind_blockers kinds rs)
    ∙ rw (kind_blockers-empty k rs, each_kind-empty kinds rs) refl

pub step_blockers-empty :
    (kinds : List Str) (rs : List StepResult)
    → is_empty (step_blockers kinds rs) ≡ all (kind_ok rs) kinds
unfolding step_blockers
step_blockers-empty kinds rs =
    is_empty-sorted (each_kind_blockers kinds rs) ∙ each_kind-empty kinds rs

module _ (ok : Str → Bool) where
  all-snoc : (ks : List Str) (k : Str) → all ok (ks ++ k ∷ []) ≡ (all ok ks && ok k)
  all-snoc [] k = ground arith
  all-snoc (l ∷ ks) k = ground (arith, all-snoc ks k)

  -- An extra step passes when its kind does.
  abbrev extra_ok : Plan.Step → Bool
  extra_ok s = not (is_extra s) || ok s.kind

  required_kinds-all :
      (ks : List Str) (steps : List Plan.Step)
      → all ok (required_kinds ks steps) ≡ (all ok ks && all extra_ok steps)
  unfolding required_kinds
  required_kinds-all ks [] = ground arith
  required_kinds-all ks (s ∷ steps) = elim (Bool-cases (is_extra s)) [
    | inr plain ↦ rw plain (required_kinds-all ks steps)
    | inl ext ↦ elim (Bool-cases (is_in s.kind ks)) [
      | inl old ↦
          let e = all-is_in ok ks s.kind old in
          let ih = required_kinds-all ks steps in rw (ext, old) (ih ∙ ground arith)
      | inr new ↦
          let e = all-snoc ks s.kind in
          let ih = required_kinds-all (ks ++ s.kind ∷ []) steps in rw (ext, new) (ih ∙ ground arith)
    ]
  ]

-- An extra step is required of the result as the kinds of the policy are.
abbrev pub extra_met : List StepResult → Plan.Step → Bool
extra_met rs s = not (is_extra s) || kind_ok rs s.kind

pub required_step_blockers-empty :
    (i : Input) → is_empty (required_step_blockers i) ≡ all (extra_met i.result.steps) i.plan.steps
unfolding required_step_blockers
required_step_blockers-empty i =
    step_blockers-empty (required_kinds [] i.plan.steps) i.result.steps
    ∙ required_kinds-all (kind_ok i.result.steps) [] i.plan.steps
