-- ===== src/Jobs/Dag.antt =====
-- internal/jobs/enqueue.go: settle, stateByPlan, depsOK and jobStatus.
pub mod Settle
pub mod StatusLaws
use aquila.Base.{
  ℕ, zero, suc, Str, Bool, true, false, not, ◌&&◌, ◌||◌, Option, none, some, List, [], ◌∷◌, map,
  any, all, length, if◌then◌else◌, str_eq,
}
use aquila.Jobs.{TaskState, Status, Task, state_eq}

-- The entry of the map of stateByPlan: the last task of that plan id.
unfoldable pub state_by_plan : List Task → Str → Option TaskState
state_by_plan [] d = none
state_by_plan (t ∷ ts) d =
    let rest = state_by_plan ts d in
    elim rest [ some s ↦ some s | none ↦ if str_eq t.plan_id d then some t.state else none ]

-- A missing entry reads as the empty state.
abbrev pub is_done : Option TaskState → Bool
is_done none = false
is_done (some s) = state_eq s TaskState.succeeded || state_eq s TaskState.skipped

-- depsOK.
unfoldable pub deps_ok : Task → (Str → Option TaskState) → Bool
deps_ok t by = all (λ d. is_done (by d)) t.depends_on

-- The body of settle's inner loop. `by` is computed once a round.
unfoldable pub settle_task : (Str → Option TaskState) → Task → Task
unfolding deps_ok
settle_task by t =
    if t.operator && state_eq t.state TaskState.pending
    then record t { state = TaskState.skipped }
    else if state_eq t.state TaskState.pending && deps_ok t by
    then record t { state = TaskState.ready }
    else t

unfoldable pub settle_round : List Task → List Task
unfolding settle_task state_by_plan
settle_round ts = map (settle_task (state_by_plan ts)) ts

abbrev pub moves : (Str → Option TaskState) → Task → Bool
moves by t = not (state_eq (settle_task by t).state t.state)

unfoldable pub settle_rounds : ℕ → List Task → List Task
unfolding settle_round
settle_rounds zero ts = ts
settle_rounds (suc k) ts =
    let rest = settle_rounds k (settle_round ts) in
    if any (moves (state_by_plan ts)) ts then rest else settle_round ts

-- settle: as many rounds as there are tasks, or until a round changes nothing.
unfoldable pub settle : List Task → List Task
unfolding settle_rounds
settle ts = settle_rounds (length ts) ts

abbrev pub has_state : TaskState → List Task → Bool
has_state s = any λ t. state_eq t.state s

-- jobStatus.
unfoldable pub job_status : List Task → Status
job_status ts =
    if has_state TaskState.failed ts
    then Status.failed
    else if has_state TaskState.leased ts || has_state TaskState.ready ts
    then Status.running
    else if has_state TaskState.pending ts
    then Status.pending
    else Status.complete
