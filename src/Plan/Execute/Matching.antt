-- ===== src/Plan/Execute/Matching.antt =====
-- internal/plan/run.go: what an overall match of Execute says of the steps of the DAG.
use mathlib.Core.Bool.{false≢true}
use aquila.Base.{
  ◌≡◌, ◌≢◌, refl, sym, ap, ◌∙◌, Str, true, false, ◌||◌, inl, inr, Option, none, some, List, [], ◌∷◌,
  map, any, arith, Bool-cases, All, or-false, is_empty, str_eq, str_eq→eq, codes, Outcome, yields,
  Outcome-cases, yields-injective,
}
use aquila.Replay.{Workload, verdict_match, verdict_differ, verdict_incomplete}
use aquila.Replay.Latency.{latency}
use aquila.Plan.{
  Step, Dag, StepResult, Evidence, kind_env, kind_behavior, kind_latency, kind_concurrency,
  kind_tests, kind_fault_status,
}
use aquila.Plan.Overall.{env_failed}
use aquila.Plan.Overall.Verdict.{is_cut, is_change, overall-match}
use aquila.Plan.Build.{compare_first}
use aquila.Plan.Burst.{compare_burst}
use aquila.Plan.Execute.Gather.{unless_error, gather, evaluate, execute}
use aquila.Plan.Execute.{
  with_verdict, World, ExecData, has_samples, behavior_result, latency_result, env_result,
  eval_step,
}
use aquila.Plan.Execute.Verdicts.{
  cut-true, change-true, Passes, Passes-match, compare_first-IsVerdict, compare_burst-IsVerdict,
  not_kind, compare_burst-kind,
}

-- What a step of each kind has to show for a match.
pub data Met (world : World) (runs : ExecData) (s : Step) : Type 0 where
  operated : s.operator ≡ true → Met world runs s
  prepared : s.kind ≡ kind_env → runs.env_err ≡ none → Met world runs s
  same_answers :
      s.kind ≡ kind_behavior
      → (compare_first world.unmarshal runs.base runs.patch).verdict ≡ verdict_match
      → Met world runs s
  sampled :
      s.kind ≡ kind_latency → has_samples (latency runs.base runs.patch) ≡ true → Met world runs s
  same_errors :
      s.kind ≡ kind_concurrency
      → (compare_burst runs.base_burst runs.patch_burst).verdict ≡ verdict_match
      → Met world runs s
  tested :
      s.kind ≡ kind_tests
      → runs.tests.verdict ≢ verdict_incomplete
      → runs.tests.verdict ≢ verdict_differ
      → Met world runs s
  probed : s.kind ≡ kind_fault_status → Met world runs s

module _ (world : World) (runs : ExecData) where
  behavior-Met :
      (s : Step) → s.kind ≡ kind_behavior → Passes (behavior_result world s runs) → Met world runs s
  unfolding behavior_result str_eq
  behavior-Met s e p = same_answers e (
      Passes-match (behavior_result world s runs) (rw e refl) (rw e refl) (rw e refl)
        (compare_first-IsVerdict world.unmarshal runs.base runs.patch) p)

  concurrency-Met :
      (s : Step)
      → s.kind ≡ kind_concurrency
      → Passes (record (compare_burst runs.base_burst runs.patch_burst) { id = s.id })
      → Met world runs s
  unfolding str_eq
  concurrency-Met s e p =
      let burst = compare_burst runs.base_burst runs.patch_burst in
      let k = compare_burst-kind runs.base_burst runs.patch_burst in
      same_errors e (
        Passes-match (record burst { id = s.id })
          (not_kind burst.kind kind_concurrency kind_env k refl)
          (not_kind burst.kind kind_concurrency kind_fault_status k refl)
          (not_kind burst.kind kind_concurrency kind_latency k refl)
          (compare_burst-IsVerdict runs.base_burst runs.patch_burst) p)

  latency_result-kind : (s : Step) → (latency_result world s runs).kind ≡ s.kind
  unfolding latency_result
  latency_result-kind s = ground arith

  latency_result-none :
      (s : Step)
      → (is_empty runs.base || is_empty runs.patch) ≡ true
      → (latency_result world s runs).verdict ≡ verdict_incomplete
  unfolding latency_result
  latency_result-none s q = rw q refl

  latency_result-unsampled :
      (s : Step)
      → (is_empty runs.base || is_empty runs.patch) ≡ false
      → has_samples (latency runs.base runs.patch) ≡ false
      → (latency_result world s runs).verdict ≡ verdict_incomplete
  unfolding latency_result
  latency_result-unsampled s q h = rw (q, h) refl

  latency-Met :
      (s : Step) → s.kind ≡ kind_latency → Passes (latency_result world s runs) → Met world runs s
  unfolding str_eq Passes
  latency-Met s e (a, b, c) =
      let r = latency_result world s runs in
      let k = latency_result-kind s ∙ e in
      let cut : r.verdict ≡ verdict_incomplete → is_cut r ≡ true =
        cut-true r (not_kind r.kind kind_latency kind_env k refl)
          (not_kind r.kind kind_latency kind_fault_status k refl) in
      elim (Bool-cases (is_empty runs.base || is_empty runs.patch)) [
        | inl q ↦ absurd (false≢true (sym b ∙ cut (latency_result-none s q)))
        | inr q ↦ elim (Bool-cases (has_samples (latency runs.base runs.patch))) [
          | inl h ↦ sampled e h
          | inr h ↦ absurd (false≢true (sym b ∙ cut (latency_result-unsampled s q h)))
        ]
      ]

  tests-Met :
      (s : Step)
      → s.kind ≡ kind_tests
      → Passes (record runs.tests { id = s.id; kind = kind_tests })
      → Met world runs s
  unfolding str_eq Passes
  tests-Met s e (a, b, c) =
      let r : StepResult = record runs.tests { id = s.id; kind = kind_tests } in
      tested e (λ v. false≢true (sym b ∙ cut-true r refl refl v))
        (λ v. false≢true (sym c ∙ change-true r refl refl refl v))

  env-Met :
      (s : Step)
      → s.kind ≡ kind_env
      → (o : Option Str) → runs.env_err ≡ o
      → Passes (env_result world s o)
      → Met world runs s
  unfolding env_result str_eq Passes
  env-Met s e none h p = prepared e h
  env-Met s e (some x) h (a, b, c) =
      let failed : env_failed (env_result world s (some x)) ≡ true = rw e refl in
      absurd (false≢true (sym a ∙ failed))

  unknown-Met :
      (s : Step)
      → str_eq s.kind kind_env ≡ false
      → str_eq s.kind kind_fault_status ≡ false
      → Passes (with_verdict s verdict_incomplete (codes "unknown step" ∷ []))
      → Met world runs s
  unfolding Passes
  unknown-Met s k z (a, b, c) =
      let r = with_verdict s verdict_incomplete (codes "unknown step" ∷ []) in
      absurd (false≢true (sym b ∙ cut-true r k z refl))

  -- A step is one of the six kinds, or of none that Execute knows.
  eval_step-Met : (s : Step) → Passes (eval_step world s runs) → Met world runs s
  unfolding eval_step
  eval_step-Met s p = elim (Bool-cases s.operator) [
    | inl o ↦ operated o
    | inr o ↦ elim (Bool-cases (str_eq s.kind kind_env)) [
      | inl k ↦
          env-Met s (str_eq→eq s.kind kind_env k) runs.env_err refl (rw (k, o, eval_step) at p)
      | inr k ↦ elim (Bool-cases (str_eq s.kind kind_behavior)) [
        | inl l ↦ behavior-Met s (str_eq→eq s.kind kind_behavior l) (rw (k, o, l, eval_step) at p)
        | inr l ↦ elim (Bool-cases (str_eq s.kind kind_latency)) [
          | inl m ↦
              latency-Met s (str_eq→eq s.kind kind_latency m) (rw (k, o, l, m, eval_step) at p)
          | inr m ↦ elim (Bool-cases (str_eq s.kind kind_concurrency)) [
            | inl n ↦
                concurrency-Met s (str_eq→eq s.kind kind_concurrency n)
                  (rw (k, o, l, m, n, eval_step) at p)
            | inr n ↦ elim (Bool-cases (str_eq s.kind kind_tests)) [
              | inl q ↦
                  tests-Met s (str_eq→eq s.kind kind_tests q)
                    (rw (k, o, l, m, n, q, eval_step) at p)
              | inr q ↦ elim (Bool-cases (str_eq s.kind kind_fault_status)) [
                | inl z ↦ probed (str_eq→eq s.kind kind_fault_status z)
                | inr z ↦ unknown-Met s k z (rw (k, o, l, m, n, q, z, eval_step) at p)
              ]
            ]
          ]
        ]
      ]
    ]
  ]

  eval_steps-Met :
      (steps : List Step)
      → any env_failed (map (λ s. eval_step world s runs) steps) ≡ false
      → any is_cut (map (λ s. eval_step world s runs) steps) ≡ false
      → any is_change (map (λ s. eval_step world s runs) steps) ≡ false
      → All (Met world runs) steps
  unfolding Passes
  eval_steps-Met [] a b c = tt
  eval_steps-Met (s ∷ steps) a b c =
      let (a1, a2) = or-false _ _ a in
      let (b1, b2) = or-false _ _ b in
      let (c1, c2) = or-false _ _ c in (eval_step-Met s (a1, b1, c1), eval_steps-Met steps a2 b2 c2)

  evaluate-Met :
      (dag : Dag)
      → (evaluate world dag runs).overall ≡ verdict_match
      → All (Met world runs) dag.steps
  unfolding evaluate
  evaluate-Met dag h =
      let (a, v, b, c) = (overall-match (map (λ s. eval_step world s runs) dag.steps)).0 h in
      eval_steps-Met dag.steps a b c

unless_error-none :
    {A : Type 0} (world : World) (c : Option Str) (o : Outcome A) (a : A)
    → unless_error world c o ≡ yields a
    → (c ≡ none) × (o ≡ yields a)
unfolding unless_error
unless_error-none world none o a h = (refl, h)
unless_error-none world (some e) o a h = absurd (ground arith)

gather-checked :
    (world : World) (dag : Dag) (base patch : Str) (w : Workload) (runs : ExecData)
    → gather world dag base patch w ≡ yields runs
    → (world.check_target base ≡ none) × (world.check_target patch ≡ none)
unfolding gather
gather-checked world dag base patch w runs h =
    let (b, h1) = unless_error-none world (world.check_target base) _ runs h in
    let (p, h2) = unless_error-none world (world.check_target patch) _ runs h1 in (b, p)

-- Where Execute returns evidence with an overall match, it had checked both targets, and by what it
-- observed each step of the DAG is met: it is an operator's, or of a kind that Execute knows. An env
-- step found both targets healthy, a behavior step and a concurrency step compared equal, a latency
-- step has a sample on some side, and the result of the tests is neither incomplete nor a difference.
pub execute-Met :
    (world : World) (dag : Dag) (base patch : Str) (w : Workload) (ev : Evidence)
    → execute world dag base patch w ≡ yields ev
    → ev.overall ≡ verdict_match
    → (world.check_target base ≡ none)
      × (world.check_target patch ≡ none)
      × ((runs : ExecData) × (gather world dag base patch w ≡ yields runs)
          × All (Met world runs) dag.steps)
unfolding execute
execute-Met world dag base patch w ev h m = elim (Outcome-cases (gather world dag base patch w)) [
  | inr (x, e) ↦ absurd (let z = rw (e, execute) at h in ground arith)
  | inl (runs, e) ↦
      let q : evaluate world dag runs ≡ ev = yields-injective _ _ (rw (e, execute) at h) in
      let (b, p) = gather-checked world dag base patch w runs e in
      (b, p, (runs, e, evaluate-Met world runs dag (ap (λ (v : Evidence). v.overall) q ∙ m)))
]
