-- ===== src/Jobs/Postgres/Examples.antt =====
-- The table's store on the jobs of the in-memory store's examples.
use mathlib.Core.Path.{subst}
use aquila.Base.{
  ◌≡◌, ◌≢◌, refl, sym, ◌∙◌, Str, codes, Bool, true, false, not, ◌&&◌, inl, inr, Option, none, some,
  List, [], ◌∷◌, pos, and_iff, arith, In,
}
use aquila.Jobs.{Job, Task, Result, ok, err, not_found}
use aquila.Jobs.Quota.{occupies}
use aquila.Jobs.Memory.{Memory, Found, Lease, find_job, find_task, find_in_tasks}
use aquila.Jobs.Memory as Mem
use aquila.Jobs.Memory.Effects.{cancels_job, next}
use aquila.Jobs.Memory.Fencing.{accepts}
use aquila.Jobs.Memory.Invariant.{IsStore, found_task}
use aquila.Jobs.Memory.History.{Reach-IsStore}
use aquila.Jobs.Memory.Tables.{keys, In-keys}
use aquila.Jobs.Memory.Examples.{
  urls, opts, quota, job_id, task, attempt, worker, created, leased, prepared, is_some, is_ok,
  some_of, ok_of, task-id, attempt-id, leased-IsStore, leased-Reach,
}
use aquila.Jobs.Postgres.{Rows, Row, Faults, no_faults}
use aquila.Jobs.Postgres.Calls as Pg
use aquila.Jobs.Postgres.Calls.Refines.{Agrees, rows_of, rows_of-Agrees}
use aquila.Jobs.Postgres.Calls.Agree.{IsAlone, lookups-agree, attempts-agree}
use aquila.Jobs.Postgres.Calls.Atomic.{Whole, AllOrNothing, calls-Whole}
use aquila.Jobs.Postgres.Calls.Leasing.{Grants, lease-Grants}
use aquila.Jobs.Postgres.Calls.Differ.{ended-differs}

abbrev rows : Rows
rows = rows_of leased.by_id

leased-Agrees : Agrees urls leased rows
leased-Agrees = rows_of-Agrees urls leased leased-IsStore

-- The job is canceled while its task is leased.
abbrev canceled : Memory
canceled = (Mem.cancel urls none job_id leased).0

canceled-IsStore : IsStore urls canceled
canceled-IsStore =
    Reach-IsStore urls quota canceled (next leased-Reach (cancels_job none job_id refl))

abbrev is_live : Found → Bool
is_live f = occupies f.job

abbrev is_left : Found → Bool
is_left f = not (occupies f.job) && accepts f.task attempt prepared []

-- What the calls above come to.
runs :
    (keys leased.by_id ≡ job_id ∷ [])
    × (keys canceled.by_id ≡ job_id ∷ [])
    × (is_some is_live (find_task task leased.by_id) ≡ true)
    × (is_some is_left (find_task task canceled.by_id) ≡ true)
    × (is_ok (Pg.lease urls quota no_faults worker attempt 3000000 (rows_of created.by_id)).1
        ≡ true)
unfolding aquila.Base.str_eq aquila.Base.str_lt aquila.Base.to_lower aquila.Base.to_upper
    aquila.Base.trim_left aquila.Base.trim_right aquila.Base.trim aquila.Base.trim_space
    aquila.Base.has_prefix aquila.Base.has_suffix aquila.Base.contains_any aquila.Base.wrap_64
    aquila.Base.decimal aquila.Base.itoa aquila.Base.hex4 aquila.Netguard.unmap
    aquila.Netguard.blocked aquila.Netguard.check_url aquila.Jobs.Dag.state_by_plan
    aquila.Jobs.Dag.deps_ok aquila.Jobs.Dag.settle_task aquila.Jobs.Dag.settle_round
    aquila.Jobs.Dag.settle_rounds aquila.Jobs.Dag.settle aquila.Jobs.Dag.job_status
    aquila.Jobs.Attempt.apply_commit aquila.Jobs.Attempt.apply_heartbeat
    aquila.Jobs.Attempt.requeued aquila.Jobs.Attempt.requeue aquila.Jobs.Attempt.lease_task
    aquila.Jobs.Lifecycle.task_evidence aquila.Jobs.Lifecycle.job_evidence
    aquila.Jobs.Lifecycle.decision_input aquila.Jobs.Lifecycle.cancel_task
    aquila.Jobs.Lifecycle.expire_task aquila.Jobs.Lifecycle.job_decision
    aquila.Jobs.Lifecycle.decided aquila.Jobs.Lifecycle.refresh_job
    aquila.Jobs.Lifecycle.apply_cancel aquila.Jobs.Lifecycle.fail_deadline
    aquila.Jobs.Lifecycle.expire_job aquila.Jobs.Quota.normalized aquila.Jobs.Quota.over_active
    aquila.Jobs.Quota.leased_of aquila.Jobs.Quota.count_leased aquila.Jobs.Quota.first_free
    aquila.Jobs.Quota.consider aquila.Jobs.Quota.pick_from aquila.Jobs.Quota.pick_ready
    aquila.Jobs.Quota.occupancy_key aquila.Jobs.Quota.occupancy_keys aquila.Jobs.Quota.gateway_busy
    aquila.Jobs.Create.normalize_id aquila.Jobs.Create.clip_limit aquila.Jobs.Create.clip_service
    aquila.Jobs.Create.validate_create aquila.Jobs.Create.task_id aquila.Jobs.Create.tasks_of_plan
    aquila.Jobs.Create.workload_of aquila.Jobs.Create.draft_job aquila.Jobs.Create.build_job
    aquila.Jobs.Memory.find_job aquila.Jobs.Memory.put_job aquila.Jobs.Memory.jobs_in
    aquila.Jobs.Memory.jobs aquila.Jobs.Memory.find_in_tasks aquila.Jobs.Memory.find_task
    aquila.Jobs.Memory.leased_job aquila.Jobs.Memory.expire_table aquila.Jobs.Memory.expire_all
    aquila.Jobs.Memory.create aquila.Jobs.Memory.requeue_expired aquila.Jobs.Memory.lease
    aquila.Jobs.Memory.commit aquila.Jobs.Memory.cancel aquila.Jobs.Memory.cancel_id
    aquila.Jobs.Memory.cancel_found aquila.Jobs.Postgres.after aquila.Jobs.Postgres.finish
    aquila.Jobs.Postgres.find_row aquila.Jobs.Postgres.update_job aquila.Base.insert_by
    aquila.Base.sort_by aquila.Jobs.Postgres.lock_jobs aquila.Jobs.Postgres.expired_jobs
    aquila.Jobs.Postgres.update_all aquila.Jobs.Postgres.expire_tx Pg.lease Pg.leased_job
runs = (refl, refl, refl, refl, refl)

-- A store with the one job.
only_key :
    (m : Memory) (k : Str) (j : Job)
    → keys m.by_id ≡ job_id ∷ []
    → find_job k m.by_id ≡ some j
    → k ≡ job_id
only_key m k j e h = elim (subst (In k) e (In-keys k j m.by_id h)) [ inl p ↦ p | inr x ↦ absurd x ]

only-IsAlone :
    (m : Memory) (tid : Str) (f : Found)
    → IsStore urls m
    → keys m.by_id ≡ job_id ∷ []
    → find_task tid m.by_id ≡ some f
    → IsAlone m tid f.key
only-IsAlone m tid f s e h k j fk nk =
    only_key m k j e fk ∙ sym (only_key m f.key f.job e (found_task urls m tid f s h).0)

abbrev live : (f : Found) × (find_task task leased.by_id ≡ some f) × (is_live f ≡ true)
live = some_of is_live (find_task task leased.by_id) runs.2

abbrev left : (f : Found) × (find_task task canceled.by_id ≡ some f) × (is_left f ≡ true)
left = some_of is_left (find_task task canceled.by_id) runs.3

lookups-agree_example :
    (Pg.get urls no_faults job_id rows ≡ Mem.get none job_id leased)
    × ((Pg.cancel urls no_faults job_id rows).1 ≡ (Mem.cancel urls none job_id leased).1)
    × Agrees urls (Mem.cancel urls none job_id leased).0 (Pg.cancel urls no_faults job_id rows).0
lookups-agree_example = lookups-agree urls leased rows leased-IsStore leased-Agrees job_id

attempts-agree_example :
    let pb = Pg.heartbeat urls no_faults task attempt (codes "w") 4000000 rows in
    let qb = Mem.heartbeat none task attempt (codes "w") 4000000 leased in
    let pc = Pg.commit urls no_faults task attempt prepared [] rows in
    let qc = Mem.commit urls none task attempt prepared [] leased in
    ((pb.1 ≡ qb.1) × Agrees urls qb.0 pb.0) × ((pc.1 ≡ qc.1) × Agrees urls qc.0 pc.0)
attempts-agree_example =
    attempts-agree urls leased rows leased-IsStore leased-Agrees task attempt task attempt live.0
      task-id attempt-id live.1 live.2
      (only-IsAlone leased task live.0 leased-IsStore runs.0 live.1) (codes "w") 4000000 prepared []

-- Commit is applied, and its answer is lost.
abbrev lost : Faults
lost = record no_faults {
  commit = some (record { message = codes "connection reset"; applied = true });
}

calls-Whole_example :
    Whole lost rows
      (Pg.create urls quota lost opts (codes "cccccccccccc") 1000000 2000000 rows)
      (Pg.create urls quota no_faults opts (codes "cccccccccccc") 1000000 2000000 rows)
    × Whole lost rows
        (Pg.requeue_expired urls lost 2000000 rows)
        (Pg.requeue_expired urls no_faults 2000000 rows)
    × Whole lost rows
        (Pg.heartbeat urls lost task attempt (codes "w") 2000000 rows)
        (Pg.heartbeat urls no_faults task attempt (codes "w") 2000000 rows)
    × Whole lost rows
        (Pg.commit urls lost task attempt prepared [] rows)
        (Pg.commit urls no_faults task attempt prepared [] rows)
    × Whole lost rows (Pg.cancel urls lost task rows) (Pg.cancel urls no_faults task rows)
    × AllOrNothing lost rows
        (Pg.lease urls quota lost worker (codes "cccccccccccc") 2000000 rows)
        (Pg.lease urls quota no_faults worker (codes "cccccccccccc") 2000000 rows)
calls-Whole_example =
    calls-Whole urls quota lost opts (codes "cccccccccccc") task attempt (codes "w") [] worker
      prepared 1000000 2000000 rows

abbrev granted :
    (l : Lease) × ((Pg.lease urls quota no_faults worker attempt 3000000 (rows_of created.by_id)).1
      ≡ ok l)
granted =
    ok_of (Pg.lease urls quota no_faults worker attempt 3000000 (rows_of created.by_id)).1 runs.4

lease-Grants_example :
    Grants urls quota worker attempt 3000000 granted.0
      (rows_of created.by_id)
      (Pg.lease urls quota no_faults worker attempt 3000000 (rows_of created.by_id)).0
lease-Grants_example =
    lease-Grants urls quota no_faults worker attempt 3000000 (rows_of created.by_id) granted.0
      granted.1

ended-differs_example :
    (Pg.commit urls no_faults task attempt prepared [] (rows_of canceled.by_id)
      ≡ (rows_of canceled.by_id, err not_found))
    × ((t : Task) × ((Mem.commit urls none task attempt prepared [] canceled).1 ≡ ok t))
ended-differs_example =
    ended-differs urls canceled (rows_of canceled.by_id) canceled-IsStore
      (rows_of-Agrees urls canceled canceled-IsStore) task left.0 left.1
      (let h = left.2 in ground arith)
      (only-IsAlone canceled task left.0 canceled-IsStore runs.1 left.1) task attempt attempt
      prepared [] task-id attempt-id (let h = left.2 in ground arith)
