-- ===== src/Jobs/Memory/Examples.antt =====
-- internal/jobs/memory.go: a store with one job, its task leased, committed and expired.
pub mod Expired
pub mod Picks
use aquila.Base.{
  all, length, ℕ, ◌+◌, ◌≤◌, ◌≡◌, refl, Str, codes, Bool, true, false, Option, none, some, List, [],
  ◌∷◌, get_elem?, ℤ, pos, arith, ◌==◌, ◌↔◌, count_by,
}
use aquila.Url.{UrlPackage}
use aquila.Gitrev.{Revision}
use aquila.Plan
use aquila.Plan.{Dag, StepResult, kind_env, verdict_prepared}
use aquila.Jobs.{Time, Task, Job, Result, ok, err, not_leased}
use aquila.Jobs.Quota.{Quota}
use aquila.Jobs.Create.Ids.{normalize_id-normal}
use aquila.Jobs.Create.{is_hex, CreateOpts, normalize_id, build_job}
use aquila.Jobs.Memory.{
  Memory, Worker, Found, new_memory, create, lease, commit, requeue_expired, cancel, find_job,
  find_task, jobs, list,
}
use aquila.Jobs.Memory.Effects.{requeues}
use aquila.Jobs.Memory.Invariant.{IsStore}
use aquila.Jobs.Memory.History.{Reach-IsStore, final_task_stays}
use aquila.Jobs.Memory.Fencing.{accepts, commit_once, commit_accepted}
use aquila.Jobs.Memory.Expiry.{commit_expired}
use aquila.Jobs.Memory.Gateways.{gateways_exclusive}
use aquila.Jobs.Memory.Shares
use aquila.Jobs.Memory.Shares.{leases_within}
use aquila.Jobs.Memory.Active
use aquila.Jobs.Memory.Active.{is_active, active_within}
use aquila.Jobs.Memory.Declared.{never_validated}
use aquila.Jobs.Memory.Canceling.{cancel_idempotent}
use aquila.Jobs.Memory.Listing.{IsPage, list-IsPage}
use aquila.Jobs.Dag.{settle}
use aquila.Jobs.Dag.Settle.{IsSettled, settle-IsSettled}
use aquila.Jobs.Attempt.{is_expired}
use aquila.Jobs.Lifecycle.States.{is_final}
use aquila.Jobs.Quota.{Choice, normalized, occupies, leased_of, share_gateway, pick_ready}
use aquila.Jobs.Quota.Pick.{
  is_candidate, IsSound, pick_ready-fair, pick_ready-IsSound, pick_ready-none,
}
use aquila.Jobs.Memory.Effects.{Reach, creates, leases, commits_to, here, next}

abbrev pub urls : UrlPackage
urls = record {
  parse = λ s. some (record { scheme = codes "http"; host = s; has_user = false; rest = [] });
  hostname = λ u. u.host;
  port = λ u. [];
  render = λ u. u.host;
  parse_addr = λ s. none;
}

abbrev rev : Str → Revision
rev tree = record {
  commit = codes "c1";
  tree = tree;
  path = [];
  dirty = false;
  source = codes "built";
}

abbrev env_step : Plan.Step
env_step = record {
  id = codes "env";
  kind = kind_env;
  required = true;
  operator = false;
  n = pos 0;
  status = pos 0;
  depends_on = [];
  reason = [];
}

abbrev pub opts : CreateOpts
opts = record {
  baseline_rev = rev (codes "t1");
  patch_rev = rev (codes "t2");
  baseline = codes "http://a";
  patch = codes "http://b";
  service = codes "shop";
  deadline = 0;
  workload =
      record {
        method = codes "GET";
        path = codes "/x";
        body = [];
        headers = [];
        provenance = [];
        service = [];
      }
      ∷ [];
  plan = record {
    steps = env_step ∷ [];
    notes = [];
    module_dir = [];
    test_packages = [];
    health_path = [];
  };
  impacted = codes "GET /x" ∷ [];
  changes = record { bound = codes "f" ∷ []; unanalyzed = [] };
}

abbrev pub quota : Quota
quota = record { active_jobs = pos 0; leased_tasks = pos 0 }

abbrev start : Memory
start = new_memory quota

abbrev pub job_id : Str
job_id = codes "aaaaaaaaaaaa"

abbrev pub task : Str
task = codes "aaaaaaaaaaaa0000"

abbrev pub attempt : Str
attempt = codes "bbbbbbbbbbbbbbbb"

abbrev pub worker : Worker
worker = record { id = codes "w"; slots = pos 1; job_id = [] }

abbrev pub created : Memory
created = (create urls none opts job_id 1000000 2000000 start).0

abbrev pub leased : Memory
leased = (lease urls none worker attempt 3000000 created).0

pub created-Reach : Reach urls start created
unfolding find_job
created-Reach = next here (creates none opts job_id 1000000 2000000 refl refl)

pub leased-Reach : Reach urls start leased
leased-Reach = next created-Reach (leases none worker attempt 3000000 refl)

pub task-id : normalize_id task ≡ some task
unfolding normalize_id aquila.Base.to_lower aquila.Base.trim_space
task-id = refl

pub attempt-id : normalize_id attempt ≡ some attempt
unfolding normalize_id aquila.Base.to_lower aquila.Base.trim_space
attempt-id = refl

abbrev pub prepared : StepResult
prepared = record {
  id = codes "env";
  kind = kind_env;
  verdict = verdict_prepared;
  notes = [];
  latency = [];
  steps = [];
}

-- The value that a computed option or result holds.
abbrev pub is_some {ℓ} : {A : Type ℓ} → (A → Bool) → Option A → Bool
is_some p none = false
is_some p (some a) = p a

pub some_of {ℓ} :
    {A : Type ℓ} (p : A → Bool) (o : Option A)
    → is_some p o ≡ true
    → (a : A) × (o ≡ some a) × (p a ≡ true)
some_of p none h = absurd (ground arith)
some_of p (some a) h = (a, refl, h)

abbrev pub is_ok : {A : Type 0} → Result A → Bool
is_ok (ok a) = true
is_ok (err e) = false

pub ok_of : {A : Type 0} (r : Result A) → is_ok r ≡ true → (a : A) × (r ≡ ok a)
ok_of (ok a) h = (a, refl)
ok_of (err e) h = absurd (ground arith)

abbrev pub first_task : (Task → Bool) → Job → Bool
first_task p j = is_some p (get_elem? j.tasks 0)

abbrev committed : Memory
committed = (commit urls none task attempt prepared [] leased).0

-- A second job, of other gateways.
abbrev both : Memory
both =
    (create urls none (record opts { baseline = codes "http://c"; patch = codes "http://d" })
      (codes "cccccccccccc") 1000000 2000000 created).0

both-Reach : Reach urls start both
unfolding aquila.Base.str_eq aquila.Base.str_lt aquila.Base.to_lower aquila.Base.to_upper
    aquila.Base.trim_left aquila.Base.trim_right aquila.Base.trim aquila.Base.trim_space
    aquila.Base.has_prefix aquila.Base.has_suffix aquila.Base.contains_any aquila.Base.wrap_64
    aquila.Base.decimal aquila.Base.itoa aquila.Base.hex4 aquila.Netguard.unmap
    aquila.Netguard.blocked aquila.Netguard.check_url aquila.Jobs.Dag.state_by_plan
    aquila.Jobs.Dag.deps_ok aquila.Jobs.Dag.settle_task aquila.Jobs.Dag.settle_round
    aquila.Jobs.Dag.settle_rounds aquila.Jobs.Dag.settle aquila.Jobs.Dag.job_status
    aquila.Jobs.Attempt.apply_commit aquila.Jobs.Attempt.apply_heartbeat
    aquila.Jobs.Attempt.requeued aquila.Jobs.Attempt.requeue aquila.Jobs.Attempt.lease_task
    aquila.Jobs.Lifecycle.task_evidence aquila.Jobs.Lifecycle.job_evidence
    aquila.Jobs.Lifecycle.decision_input aquila.Jobs.Lifecycle.cancel_task
    aquila.Jobs.Lifecycle.expire_task aquila.Jobs.Lifecycle.job_decision
    aquila.Jobs.Lifecycle.decided aquila.Jobs.Lifecycle.refresh_job
    aquila.Jobs.Lifecycle.apply_cancel aquila.Jobs.Lifecycle.fail_deadline
    aquila.Jobs.Lifecycle.expire_job aquila.Jobs.Quota.normalized aquila.Jobs.Quota.over_active
    aquila.Jobs.Quota.leased_of aquila.Jobs.Quota.count_leased aquila.Jobs.Quota.first_free
    aquila.Jobs.Quota.consider aquila.Jobs.Quota.pick_from aquila.Jobs.Quota.pick_ready
    aquila.Jobs.Quota.occupancy_key aquila.Jobs.Quota.occupancy_keys aquila.Jobs.Quota.gateway_busy
    aquila.Jobs.Create.normalize_id aquila.Jobs.Create.clip_limit aquila.Jobs.Create.clip_service
    aquila.Jobs.Create.validate_create aquila.Jobs.Create.task_id aquila.Jobs.Create.tasks_of_plan
    aquila.Jobs.Create.workload_of aquila.Jobs.Create.draft_job aquila.Jobs.Create.build_job
    aquila.Jobs.Memory.find_job aquila.Jobs.Memory.put_job aquila.Jobs.Memory.jobs_in
    aquila.Jobs.Memory.jobs aquila.Jobs.Memory.find_in_tasks aquila.Jobs.Memory.find_task
    aquila.Jobs.Memory.leased_job aquila.Jobs.Memory.expire_table aquila.Jobs.Memory.expire_all
    aquila.Jobs.Memory.create aquila.Jobs.Memory.requeue_expired aquila.Jobs.Memory.lease
    aquila.Jobs.Memory.commit
both-Reach = next created-Reach (
    creates none (record opts { baseline = codes "http://c"; patch = codes "http://d" })
      (codes "cccccccccccc") 1000000 2000000 refl refl)

-- What the calls above come to.
runs :
    (is_some (λ f. is_expired 99000000000 f.task) (find_task task leased.by_id) ≡ true)
    × (is_ok (commit urls none task attempt prepared [] leased).1 ≡ true)
    × (is_some (first_task (λ t. is_final t.state)) (find_job job_id committed.by_id) ≡ true)
    × (is_some occupies (get_elem? (jobs created) 0) ≡ true)
    × (is_some (is_candidate (jobs created) [] (normalized quota)) (get_elem? (jobs created) 0)
        ≡ true)
    × (is_some (λ c. c.task == 0) (pick_ready (jobs created) [] quota) ≡ true)
    × (is_some occupies (get_elem? (jobs leased) 0) ≡ true)
    × (pick_ready (jobs leased) [] quota ≡ none)
    × (is_some occupies (get_elem? (jobs both) 0) ≡ true)
    × (is_some occupies (get_elem? (jobs both) 1) ≡ true)
unfolding aquila.Base.str_eq aquila.Base.str_lt aquila.Base.to_lower aquila.Base.to_upper
    aquila.Base.trim_left aquila.Base.trim_right aquila.Base.trim aquila.Base.trim_space
    aquila.Base.has_prefix aquila.Base.has_suffix aquila.Base.contains_any aquila.Base.wrap_64
    aquila.Base.decimal aquila.Base.itoa aquila.Base.hex4 aquila.Netguard.unmap
    aquila.Netguard.blocked aquila.Netguard.check_url aquila.Jobs.Dag.state_by_plan
    aquila.Jobs.Dag.deps_ok aquila.Jobs.Dag.settle_task aquila.Jobs.Dag.settle_round
    aquila.Jobs.Dag.settle_rounds aquila.Jobs.Dag.settle aquila.Jobs.Dag.job_status
    aquila.Jobs.Attempt.apply_commit aquila.Jobs.Attempt.apply_heartbeat
    aquila.Jobs.Attempt.requeued aquila.Jobs.Attempt.requeue aquila.Jobs.Attempt.lease_task
    aquila.Jobs.Lifecycle.task_evidence aquila.Jobs.Lifecycle.job_evidence
    aquila.Jobs.Lifecycle.decision_input aquila.Jobs.Lifecycle.cancel_task
    aquila.Jobs.Lifecycle.expire_task aquila.Jobs.Lifecycle.job_decision
    aquila.Jobs.Lifecycle.decided aquila.Jobs.Lifecycle.refresh_job
    aquila.Jobs.Lifecycle.apply_cancel aquila.Jobs.Lifecycle.fail_deadline
    aquila.Jobs.Lifecycle.expire_job aquila.Jobs.Quota.normalized aquila.Jobs.Quota.over_active
    aquila.Jobs.Quota.leased_of aquila.Jobs.Quota.count_leased aquila.Jobs.Quota.first_free
    aquila.Jobs.Quota.consider aquila.Jobs.Quota.pick_from aquila.Jobs.Quota.pick_ready
    aquila.Jobs.Quota.occupancy_key aquila.Jobs.Quota.occupancy_keys aquila.Jobs.Quota.gateway_busy
    aquila.Jobs.Create.normalize_id aquila.Jobs.Create.clip_limit aquila.Jobs.Create.clip_service
    aquila.Jobs.Create.validate_create aquila.Jobs.Create.task_id aquila.Jobs.Create.tasks_of_plan
    aquila.Jobs.Create.workload_of aquila.Jobs.Create.draft_job aquila.Jobs.Create.build_job
    aquila.Jobs.Memory.find_job aquila.Jobs.Memory.put_job aquila.Jobs.Memory.jobs_in
    aquila.Jobs.Memory.jobs aquila.Jobs.Memory.find_in_tasks aquila.Jobs.Memory.find_task
    aquila.Jobs.Memory.leased_job aquila.Jobs.Memory.expire_table aquila.Jobs.Memory.expire_all
    aquila.Jobs.Memory.create aquila.Jobs.Memory.requeue_expired aquila.Jobs.Memory.lease
    aquila.Jobs.Memory.commit
runs = (refl, refl, refl, refl, refl, refl, refl, refl, refl, refl)

pub leased-IsStore : IsStore urls leased
leased-IsStore = Reach-IsStore urls quota leased leased-Reach

abbrev leased_found : Found
leased_found = (some_of (λ f. is_expired 99000000000 f.task) (find_task task leased.by_id) runs.0).0

commit_once_example :
    commit urls none task attempt prepared [] committed ≡ (committed, err not_leased)
commit_once_example =
    commit_once urls leased committed task attempt attempt attempt prepared prepared [] []
      (ok_of (commit urls none task attempt prepared [] leased).1 runs.1).0 leased-IsStore
      (ok_of (commit urls none task attempt prepared [] leased).1 runs.1).1 here attempt-id

abbrev requeued_store : Memory
requeued_store = (requeue_expired urls none 99000000000 leased).0

commit_expired_example :
    commit urls none task attempt prepared [] requeued_store ≡ (requeued_store, err not_leased)
commit_expired_example =
    commit_expired urls leased 99000000000 task attempt task attempt prepared [] leased_found
      leased-IsStore task-id attempt-id
      (some_of (λ f. is_expired 99000000000 f.task) (find_task task leased.by_id) runs.0).1
      (some_of (λ f. is_expired 99000000000 f.task) (find_task task leased.by_id) runs.0).2

commit_accepted_example :
    ((t : Task) × ((commit urls none task attempt prepared [] leased).1 ≡ ok t))
    ↔ (accepts leased_found.task attempt prepared [] ≡ true)
commit_accepted_example =
    commit_accepted urls leased task attempt task attempt prepared [] leased_found task-id
      attempt-id
      (some_of (λ f. is_expired 99000000000 f.task) (find_task task leased.by_id) runs.0).1

abbrev committed_found :
    (j : Job) × (find_job job_id committed.by_id ≡ some j)
    × (first_task (λ t. is_final t.state) j ≡ true)
committed_found =
    some_of (first_task (λ t. is_final t.state)) (find_job job_id committed.by_id) runs.2

abbrev committed_task :
    (t : Task) × (get_elem? committed_found.0.tasks 0 ≡ some t) × (is_final t.state ≡ true)
committed_task =
    some_of (λ t. is_final t.state) (get_elem? committed_found.0.tasks 0) committed_found.2

committed-IsStore : IsStore urls committed
committed-IsStore =
    Reach-IsStore urls quota committed
      (next leased-Reach (commits_to none task attempt prepared [] refl))

abbrev later : Memory
later = (requeue_expired urls none 99000000000 committed).0

final_task_stays_example :
    (k : Job) × (u : Task) × (find_job job_id later.by_id ≡ some k)
    × (get_elem? k.tasks 0 ≡ some u)
    × (u.id ≡ committed_task.0.id)
    × (u.state ≡ committed_task.0.state)
final_task_stays_example =
    final_task_stays urls committed later job_id committed_found.0 0 committed_task.0
      committed-IsStore (next here (requeues none 99000000000 refl)) committed_found.1
      committed_task.1 committed_task.2

Reach-IsStore_example : IsStore urls leased
Reach-IsStore_example = Reach-IsStore urls quota leased leased-Reach

abbrev first_job : (j : Job) × (get_elem? (jobs both) 0 ≡ some j) × (occupies j ≡ true)
first_job = some_of occupies (get_elem? (jobs both) 0) runs.8

abbrev second_job : (j : Job) × (get_elem? (jobs both) 1 ≡ some j) × (occupies j ≡ true)
second_job = some_of occupies (get_elem? (jobs both) 1) runs.9

gateways_exclusive_example : share_gateway urls first_job.0 second_job.0 ≡ false
gateways_exclusive_example =
    gateways_exclusive urls quota both 0 1 first_job.0 second_job.0 both-Reach first_job.1
      second_job.1 (omega arith) first_job.2 second_job.2

leases_within_example : leased_of (codes "shop") (jobs leased) ≤ Shares.cap_of quota
leases_within_example = leases_within urls (codes "shop") quota leased leased-Reach

active_within_example : count_by (is_active (codes "shop")) (jobs both) ≤ Active.cap_of quota
active_within_example = active_within urls (codes "shop") quota both both-Reach

never_validated_example : committed_found.0.validated ≡ false
never_validated_example =
    never_validated urls quota committed job_id committed_found.0
      (next leased-Reach (commits_to none task attempt prepared [] refl)) committed_found.1
