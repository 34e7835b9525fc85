-- ===== src/Jobs/Create.antt =====
-- internal/jobs/store.go and enqueue.go: the ids and limits of a request, validateCreate, and
-- buildJob. The random id and the clock are arguments.
pub mod Built
pub mod Planned
pub mod Ids
use aquila.Base.{
  ℕ, zero, suc, ◌+◌, ◌-◌, ◌*◌, ◌%◌, Str, codes, Bool, true, false, not, ◌&&◌, ◌||◌, Option, none,
  some, List, [], ◌∷◌, ◌++◌, map, any, all, leb, ltb, ◌==◌, if◌then◌else◌, is_empty, length, take,
  str_eq, to_lower, trim_space, has_prefix, contains_any, hex4, ℤ, pos, leb_ℤ, ltb_ℤ,
}
use aquila.Url.{UrlPackage}
use aquila.Netguard.{check_url}
use aquila.Gitrev.{Revision, source_declared}
use aquila.Replay.{Step as WorkStep}
use aquila.Plan
use aquila.Plan.{Dag as PlanDag}
use aquila.Impact.{Changes}
use aquila.Jobs.{
  Time, TaskState, Status, Task, Job, Error, errorf, Result, ok, err, second, default_deadline,
  empty_result,
}
use aquila.Jobs.Dag.{settle}
use aquila.Jobs.Lifecycle.{refresh_job}

pub record CreateOpts : Type 0 where
  pub baseline_rev : Revision
  pub patch_rev : Revision
  pub baseline : Str
  pub patch : Str
  pub service : Str
  pub deadline : Time
  pub workload : List WorkStep
  pub plan : PlanDag
  pub impacted : List Str
  pub changes : Changes

abbrev pub is_hex : ℕ → Bool
is_hex c = (leb b'0' c && leb c b'9') || (leb b'a' c && leb c b'f')

-- normalizeID; `none` for ok = false.
unfoldable pub normalize_id : Str → Option Str
normalize_id raw =
    let s = to_lower (trim_space raw) in
    if ltb (length s) 8 || ltb 64 (length s) || not (all is_hex s)
    then none
    else some (if ltb 16 (length s) then take 16 s else s)

-- clipLimit, with DefaultList = 20 and MaxList = 50.
unfoldable pub clip_limit : ℤ → ℤ
clip_limit n = if leb_ℤ n (pos 0) then pos 20 else if ltb_ℤ (pos 50) n then pos 50 else n

-- clipService.
unfoldable pub clip_service : Str → Str
clip_service raw = let s = trim_space raw in if ltb 128 (length s) then take 128 s else s

-- An entry of a chain of guards: the text of the error, where the test holds.
abbrev refuse : Bool → Str → Option Str
refuse b text = if b then some text else none

abbrev first_some : List (Option Str) → Option Str
first_some [] = none
first_some (none ∷ es) = first_some es
first_some (some e ∷ es) = some e

-- strings.ContainsAny(s, "\r\n\x00").
abbrev pub has_control : Str → Bool
has_control s = contains_any s (13 ∷ 10 ∷ 0 ∷ [])

check_changes : List Str → Option Str
check_changes entries = first_some (
    refuse (ltb 500 (length entries)) (codes "jobs: changes exceeds 500 entries")
    ∷ map
        (λ value. first_some (
          refuse (ltb 512 (length value)) (codes "jobs: changes exceeds 512 bytes")
          ∷ refuse (has_control value)
              (codes "jobs: changes contains a forbidden control character")
          ∷ []))
        entries)

abbrev pub is_http : Str → Bool
is_http s = has_prefix s (codes "http://") || has_prefix s (codes "https://")

abbrev in_context : Str → Option Str → Option Str
in_context name none = none
in_context name (some e) = some (name ++ e)

module _ (urls : UrlPackage) where
  -- validateCreate: the text of its error, if it returns one.
  unfoldable pub validate_create : Time → CreateOpts → Option Str
  unfolding check_changes
  validate_create now opts = first_some (
      check_changes opts.changes.bound
      ∷ check_changes opts.changes.unanalyzed
      ∷ refuse (is_empty (trim_space opts.baseline) || is_empty (trim_space opts.patch))
          (codes "jobs: baseline and patch are required")
      ∷ refuse (not (is_http opts.baseline)) (codes "jobs: baseline must be http or https")
      ∷ refuse (not (is_http opts.patch)) (codes "jobs: patch must be http or https")
      ∷ in_context (codes "jobs: baseline: ") (check_url urls opts.baseline)
      ∷ in_context (codes "jobs: patch: ") (check_url urls opts.patch)
      ∷ refuse (is_empty opts.plan.steps) (codes "jobs: empty plan")
      ∷ refuse (is_empty opts.workload) (codes "jobs: empty workload")
      ∷ refuse (not (opts.deadline == 0) && leb (opts.deadline + second) now)
          (codes "jobs: deadline has passed")
      ∷ refuse (ltb 20 (length opts.workload)) (codes "jobs: too many workload steps")
      ∷ refuse (ltb 20 (length opts.impacted)) (codes "jobs: too many impacted routes")
      ∷ refuse (any (λ r. ltb 512 (length r) || has_control r) opts.impacted)
          (codes "jobs: invalid impacted route")
      ∷ refuse (any (λ (s : WorkStep). ltb (8 * 1024) (length s.body)) opts.workload)
          (codes "jobs: body too large")
      ∷ [])

-- taskID.
unfoldable pub task_id : Str → ℕ → Str
task_id job i =
    let padded = if ltb (length job) 12 then job ++ codes "000000000000" else job in
    take 12 padded ++ hex4 i

new_task : Str → ℕ → Plan.Step → Task
unfolding task_id
new_task job i s = record {
  id = task_id job i;
  job_id = job;
  plan_id = s.id;
  kind = s.kind;
  operator = s.operator;
  required = s.required;
  depends_on = s.depends_on;
  n = s.n;
  state = if s.operator then TaskState.skipped else TaskState.pending;
  attempt_id = [];
  fence = pos 0;
  lease_until = 0;
  worker_id = [];
  result = empty_result;
  error = [];
}

unfoldable pub tasks_of_plan : Str → ℕ → List Plan.Step → List Task
unfolding new_task
tasks_of_plan job i [] = []
tasks_of_plan job i (s ∷ steps) = new_task job i s ∷ tasks_of_plan job (suc i) steps

-- workloadOf: a stored step has no service and no headers.
unfoldable pub workload_of : List WorkStep → List WorkStep
workload_of = map λ (s : WorkStep). record s { service = []; headers = [] }

abbrev declared : Revision → Revision
declared rev = record rev { source = source_declared }

-- The job that buildJob fills in, before refreshJob sets its status and its decision.
unfoldable pub draft_job : Str → Time → CreateOpts → Job
unfolding tasks_of_plan workload_of clip_service
draft_job id now opts = record {
  baseline_rev = declared opts.baseline_rev;
  patch_rev = declared opts.patch_rev;
  impact_source = codes "client";
  id = id;
  created = now - now % 1000000;
  status = Status.pending;
  service = clip_service opts.service;
  baseline = opts.baseline;
  patch = opts.patch;
  baseline_sha = opts.baseline_rev.commit;
  dirty = opts.patch_rev.dirty;
  deadline = if opts.deadline == 0 then now - now % 1000000 + default_deadline else opts.deadline;
  canceled = false;
  impacted = opts.impacted;
  changes = opts.changes;
  workload = workload_of opts.workload;
  plan = opts.plan;
  tasks = settle (tasks_of_plan id 0 opts.plan.steps);
  blockers = [];
  validated = false;
}

module _ (urls : UrlPackage) where
  -- buildJob, with the answer of newID.
  unfoldable pub build_job : Str → Time → CreateOpts → Result Job
  unfolding draft_job validate_create
  build_job id now opts = elim (validate_create urls now opts) [
    | some e ↦ err (errorf e)
    | none ↦ ok (refresh_job urls (draft_job id now opts))
  ]
