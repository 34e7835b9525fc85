-- ===== src/Plan/Execute/Gather.antt =====
-- internal/plan/run.go: what Execute observes before it evaluates the steps, and Execute itself. With
-- it the guards of Repeat, Burst and HealthzPath (internal/replay) and probeFault (fault.go).
use aquila.Base.{
  ℕ, zero, suc, Str, codes, Bool, true, false, not, ◌&&◌, ◌||◌, Option, none, some, List, [], ◌∷◌,
  ◌++◌, map, any, if◌then◌else◌, is_empty, str_eq, itoa, Dict, put_key, Outcome, yields, fails,
  ◌>>=◌, ℤ, pos, pos_part, ltb_ℤ, eqb_ℤ,
}
use aquila.Replay.{Observation, Run, Workload, verdict_incomplete}
use aquila.Replay.Traffic.{safe_replay}
use aquila.Plan.{
  Step, Dag, StepResult, Evidence, kind_env, kind_tests, kind_fault_status, verdict_prepared,
}
use aquila.Plan.Overall.{overall}
use aquila.Plan.Build.{replay_repeats, concurrency_n, has_kind}
use aquila.Plan.Burst.{probe_step}
use aquila.Plan.Execute.{World, ExecData, blank_result, with_verdict, eval_step}

module _ (world : World) where
  -- The loop of Repeat, from turn `i`, with the turns that are left.
  turns : Str → Workload → ℕ → ℕ → Outcome (List Run)
  turns target w i zero = yields []
  turns target w i (suc left) =
      world.turn target w i >>= λ r. turns target w (suc i) left >>= λ rs. yields (r ∷ rs)

  -- Repeat, with clipRepeats and maxRepeats = 100.
  unfoldable pub repeat : Str → Workload → ℤ → Outcome (List Run)
  unfolding turns
  repeat target w n =
      if ltb_ℤ n (pos 1)
      then fails (codes "replay: n must be >= 1")
      else if ltb_ℤ (pos 100) n
      then fails (codes "replay: n exceeds 100")
      else turns target w 0 (pos_part n)

  unfoldable pub unless_error : {A : Type 0} → Option Str → Outcome A → Outcome A
  unless_error none o = o
  unless_error (some e) o = fails e

  -- Burst up to the start of its goroutines, with maxBurst = 32.
  unfoldable pub burst_checked : Str → Workload → ℤ → Outcome (List Run)
  unfolding unless_error
  burst_checked target w n =
      if ltb_ℤ n (pos 1)
      then fails (codes "replay: n must be >= 1")
      else if ltb_ℤ (pos 32) n
      then fails (codes "replay: n exceeds 32")
      else unless_error (world.check_target target) (
          if is_empty w.steps
          then fails (codes "replay: empty workload")
          else world.burst target w n)

  probe_error : Str → Str → Option Str → Option Str → Option Str
  probe_error side path none rest = rest
  probe_error side path (some e) rest =
      some (codes "replay: " ++ side ++ codes " GET " ++ path ++ codes ": " ++ e)

  -- HealthzPath.
  unfoldable pub healthz_path : Str → Str → Str → Option Str
  unfolding safe_replay probe_error
  healthz_path base patch given =
      let path = if is_empty given then codes "/healthz" else given in
      if not (safe_replay (codes "GET") path)
      then some
          (codes "replay: health path " ++ world.quote path ++ codes " is not a local GET path")
      else probe_error (codes "baseline") path (world.healthz base path)
          (probe_error (codes "patch") path (world.healthz patch path) none)

  -- probeEnv.
  unfoldable pub probe_env : Dag → Str → Str → Option Str
  unfolding healthz_path
  probe_env dag base patch =
      if any (λ (s : Step). str_eq s.kind kind_env && not s.operator) dag.steps
      then healthz_path base patch dag.health_path
      else none

  -- The verdict of probeFault on what the injecting proxy and the baseline answered.
  judge_fault : Step → ℤ → List Observation → List Observation → StepResult
  judge_fault s status inj base =
      if not (any_first (λ (o : Observation). eqb_ℤ o.status status) inj)
      then with_verdict s verdict_incomplete
          (codes "inject did not return the requested status" ∷ [])
      else if not
          (any_first (λ (o : Observation). is_empty o.err && not (eqb_ℤ o.status status)) base)
      then with_verdict s verdict_incomplete
          (codes "baseline also failed; inject is not distinguishable" ∷ [])
      else with_verdict s verdict_prepared ((codes "one-sided " ++ itoa status) ∷ [])
    where
      any_first : (Observation → Bool) → List Observation → Bool
      any_first p [] = false
      any_first p (o ∷ os) = p o

  settled : Step → Outcome StepResult → StepResult
  settled s (yields r) = r
  settled s (fails e) = with_verdict s verdict_incomplete (e ∷ [])

  -- probeFault.
  unfoldable pub probe_fault : Step → Str → Str → Workload → StepResult
  unfolding judge_fault settled unless_error probe_step
  probe_fault s base patch w =
      let status = if ltb_ℤ s.status (pos 1) then pos 502 else s.status in
      let one : Workload = record { steps = probe_step w.steps ∷ [] } in
      settled s (
        unless_error (world.fault_handler patch status) (
          world.listen s.id >>= λ addr. world.probe_run (codes "http://" ++ addr) one >>= λ inj.
          world.probe_run base one >>= λ b. yields (judge_fault s status inj.steps b.steps)))

  -- The loop of Execute over the fault probes.
  fault_results : Str → Str → Workload → List Step → Dict StepResult → Dict StepResult
  unfolding probe_fault put_key
  fault_results base patch w [] done = done
  fault_results base patch w (s ∷ steps) done = fault_results base patch w steps (
      if str_eq s.kind kind_fault_status && not s.operator
      then put_key s.id (probe_fault s base patch w) done
      else done)

  -- Both sides of the replays, and of the bursts, where they are needed and env has not failed.
  pair_runs : Bool → Outcome (List Run) → Outcome (List Run) → Outcome (List Run × List Run)
  pair_runs false b p = yields ([], [])
  pair_runs true b p = b >>= λ bs. p >>= λ ps. yields (bs, ps)

  is_clear : Option Str → Bool
  is_clear none = true
  is_clear (some e) = false

  -- Execute up to the evaluation of the steps.
  unfoldable pub gather : Dag → Str → Str → Workload → Outcome ExecData
  unfolding repeat burst_checked probe_env fault_results pair_runs is_clear unless_error
  gather dag base patch w =
      let (n, need_replay) = replay_repeats dag in
      let (cn, need_burst) = concurrency_n dag in
      let env = probe_env dag base patch in
      unless_error (world.check_target base) (
        unless_error (world.check_target patch) (
          if (need_replay || need_burst) && is_empty w.steps
          then fails (codes "plan: empty workload")
          else (pair_runs (is_clear env && need_replay) (repeat base w n) (repeat patch w n)
              >>= λ rs.
                  pair_runs (is_clear env && need_burst) (burst_checked base w cn)
                    (burst_checked patch w cn)
                  >>= λ bs. yields (record {
                    env_err = env;
                    base = rs.0;
                    patch = rs.1;
                    base_burst = bs.0;
                    patch_burst = bs.1;
                    tests =
                        if has_kind dag kind_tests then world.run_tests dag else blank_result [] [];
                    fault = fault_results base patch w dag.steps [];
                  }))))

  -- The end of Execute.
  unfoldable pub evaluate : Dag → ExecData → Evidence
  unfolding eval_step overall
  evaluate dag runs =
      let results = map (λ s. eval_step world s runs) dag.steps in
      record { overall = overall results; steps = results; notes = dag.notes }

  -- Execute.
  unfoldable pub execute : Dag → Str → Str → Workload → Outcome Evidence
  unfolding gather evaluate
  execute dag base patch w = gather dag base patch w >>= λ runs. yields (evaluate dag runs)
