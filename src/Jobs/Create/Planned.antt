-- ===== src/Jobs/Create/Planned.antt =====
-- How the tasks of a plan that FromImpact builds start.
use aquila.Base.{
  ◌≡◌, refl, sym, ap, ◌∙◌, Str, inl, inr, some, List, ◌++◌, map, if◌then◌else◌, arith, Bool-cases,
  str_eq, All, any, Bool, true,
}
use mathlib.Core.Option.{some-injective}
use mathlib.Core.Path.{subst}
use aquila.Impact.{Report}
use aquila.Plan.{Dag, kind_env}
use aquila.Plan
use aquila.Plan.Build.{base_steps, runtime_steps, from_impact, has_runtime, is_blank}
use aquila.Jobs.{TaskState, Task}
use aquila.Jobs.Dag.{settle}
use aquila.Jobs.Create.{tasks_of_plan}

abbrev pub is_env : Task → Bool
is_env t = str_eq t.kind kind_env

-- The env task ends in a state.
abbrev pub end_env : TaskState → Task → Task
end_env s t = if is_env t then record t { state = s } else t

-- The env tasks are in one state and all others in another.
abbrev pub Apart : TaskState → TaskState → List Task → Type 0
Apart a b = All λ (t : Task). t.state ≡ (if is_env t then a else b)

-- There is an env task. At first only env is ready; while it does not succeed all others wait; once
-- it has, they are ready.
abbrev pub Starts : Str → List Plan.Step → Type 0
Starts id steps =
    let first = settle (tasks_of_plan id 0 steps) in
    (any is_env first ≡ true)
    × Apart TaskState.ready TaskState.pending first
    × Apart TaskState.failed TaskState.pending (settle (map (end_env TaskState.failed) first))
    × Apart TaskState.succeeded TaskState.ready (settle (map (end_env TaskState.succeeded) first))

Starts-base : (id : Str) → Starts id base_steps
unfolding settle tasks_of_plan str_eq
Starts-base id =
    (refl, (refl, (refl, (refl, tt))), (refl, (refl, (refl, tt))), (refl, (refl, (refl, tt))))

Starts-runtime : (id : Str) → Starts id (base_steps ++ runtime_steps)
unfolding settle tasks_of_plan str_eq
Starts-runtime id = (
  refl,
  (refl, (refl, (refl, (refl, (refl, tt))))),
  (refl, (refl, (refl, (refl, (refl, tt))))),
  (refl, (refl, (refl, (refl, (refl, tt))))),
)

from_impact-steps :
    (rep : Report) (dag : Dag)
    → from_impact rep ≡ some dag
    → dag.steps ≡ (if has_runtime rep then base_steps ++ runtime_steps else base_steps)
unfolding from_impact
from_impact-steps rep dag e = elim (Bool-cases (is_blank rep)) [
  | inl b ↦ absurd (let e' = rw b at e in ground arith)
  | inr b ↦ sym (ap (λ (d : Dag). d.steps) (some-injective _ _ (rw b at e)))
]

-- The tasks of a plan that FromImpact builds: there is an env task, which alone is ready at first;
-- all others wait, and still do if it fails; once it has succeeded, all others are ready.
pub from_impact-Starts :
    (id : Str) (rep : Report) (dag : Dag) → from_impact rep ≡ some dag → Starts id dag.steps
from_impact-Starts id rep dag e = elim (Bool-cases (has_runtime rep)) [
  | inl r ↦
      let s : dag.steps ≡ base_steps ++ runtime_steps = from_impact-steps rep dag e ∙ rw r in
      subst (Starts id) (sym s) (Starts-runtime id)
  | inr r ↦
      let s : dag.steps ≡ base_steps = from_impact-steps rep dag e ∙ rw r in
      subst (Starts id) (sym s) (Starts-base id)
]
