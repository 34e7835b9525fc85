-- ===== src/Plan/Overall/Verdict.antt =====
-- internal/plan/run.go: what Overall says of a list of steps.
use aquila.Base.{
  ◌≡◌, ◌∙◌, Str, Bool, true, false, not, ◌&&◌, ◌||◌, ◌↔◌, inl, inr, List, [], ◌∷◌, any,
  if◌then◌else◌, arith, Bool-cases, str_eq,
}
use aquila.Replay.{verdict_match, verdict_differ, verdict_incomplete}
use aquila.Plan.{StepResult, kind_latency}
use aquila.Plan.Overall.{
  Tally, no_tally, env_failed, is_silent, vote, conclude, overall_from, overall,
}

abbrev pub votes : StepResult → Bool
votes s = not (is_silent s)

abbrev pub is_cut : StepResult → Bool
is_cut s = votes s && str_eq s.verdict verdict_incomplete

abbrev pub is_change : StepResult → Bool
is_change s = votes s && (not (str_eq s.kind kind_latency) && str_eq s.verdict verdict_differ)

abbrev summed : Tally → List StepResult → Tally
summed t steps = record {
  incomplete = t.incomplete || any is_cut steps;
  differ = t.differ || any is_change steps;
  executed = t.executed || any votes steps;
}

conclude-same :
    (t u : Tally)
    → t.incomplete ≡ u.incomplete
    → t.differ ≡ u.differ
    → t.executed ≡ u.executed
    → conclude t ≡ conclude u
unfolding conclude
conclude-same t u a b c = rw (a, b, c)

if_same :
    (x : Str) {a b : Bool} {y z : Str} → a ≡ b → y ≡ z → (if b then x else y) ≡ (if a then x else z)
if_same x p q = rw (p, q)

-- The loop, as tests of the whole list.
overall_from-any :
    (t : Tally) (steps : List StepResult)
    → overall_from t steps
      ≡ (if any env_failed steps then verdict_incomplete else conclude (summed t steps))
unfolding overall_from
overall_from-any t [] = conclude-same t (summed t []) (ground arith) (ground arith) (ground arith)
overall_from-any t (s ∷ steps) = elim (Bool-cases (env_failed s)) [
  | inl f ↦ rw f
  | inr f ↦ elim (Bool-cases (is_silent s)) [
    | inl q ↦
        let e =
          conclude-same (summed t steps) (summed t (s ∷ steps)) (ground arith) (ground arith)
            (ground arith) in
        let ih = overall_from-any t steps in
        let here : overall_from t (s ∷ steps) ≡ overall_from t steps = rw (f, q) in
        let fails : any env_failed (s ∷ steps) ≡ any env_failed steps = rw f in
        here ∙ ih ∙ if_same verdict_incomplete fails e
    | inr q ↦
        let e =
          conclude-same (summed (vote s t) steps) (summed t (s ∷ steps)) (ground arith)
            (ground arith) (ground arith) in
        let ih = overall_from-any (vote s t) steps in
        let here : overall_from t (s ∷ steps) ≡ overall_from (vote s t) steps = rw (f, q) in
        let fails : any env_failed (s ∷ steps) ≡ any env_failed steps = rw f in
        here ∙ ih ∙ if_same verdict_incomplete fails e
  ]
]

-- Overall says match exactly when env has not failed, some step votes, and of those that vote none
-- is incomplete and none but a latency step differs.
pub overall-match :
    (steps : List StepResult)
    → (overall steps ≡ verdict_match) ↔ (
        (any env_failed steps ≡ false)
        × (any votes steps ≡ true)
        × (any is_cut steps ≡ false)
        × (any is_change steps ≡ false))
unfolding overall conclude
overall-match steps =
    let e = overall_from-any no_tally steps in (λ h. ground arith, λ p. ground arith)
