-- ===== src/Jobs/Memory/Examples/Expired.antt =====
-- Lease on a store whose one task has a lease that has run out.
use aquila.Base.{
  ◌≡◌, refl, Str, codes, Bool, true, false, not, ◌&&◌, Option, none, some, get_elem?, is_empty,
  trim_space, pos, leb_ℤ, arith,
}
use aquila.Jobs.{Job, Task, ok}
use aquila.Jobs.Attempt.{is_expired}
use aquila.Jobs.Lifecycle.{is_overdue}
use aquila.Jobs.Quota.{normalized, count_leased, leased_of}
use aquila.Jobs.Memory.{Lease, find_job, jobs, slots_of, expire_all, lease}
use aquila.Jobs.Memory.Progress.{lease-progress}
use aquila.Jobs.Memory.Examples.{urls, job_id, worker, leased, is_some, some_of, leased-IsStore}

abbrev later : Str
later = codes "dddddddddddddddd"

abbrev ran_out : Task → Bool
ran_out t = is_expired 99000000000 t && not t.operator

abbrev waits : Job → Bool
waits j =
    is_some ran_out (get_elem? j.tasks 0)
    && not j.canceled
    && not (is_overdue 99000000000 j)
    && not (
        leb_ℤ (normalized leased.quota).leased_tasks
          (pos (leased_of j.service (jobs (expire_all urls 99000000000 leased)))))

runs :
    (is_some waits (find_job job_id leased.by_id) ≡ true)
    × (leb_ℤ
          (slots_of worker)
          (pos (count_leased (jobs (expire_all urls 99000000000 leased)) worker.id))
        ≡ false)
    × (is_empty (trim_space worker.id) ≡ false)
    × (is_empty (trim_space worker.job_id) ≡ true)
unfolding aquila.Base.str_eq aquila.Base.str_lt aquila.Base.to_lower aquila.Base.to_upper
    aquila.Base.trim_left aquila.Base.trim_right aquila.Base.trim aquila.Base.trim_space
    aquila.Base.has_prefix aquila.Base.has_suffix aquila.Base.contains_any aquila.Base.wrap_64
    aquila.Base.decimal aquila.Base.itoa aquila.Base.hex4 aquila.Netguard.unmap
    aquila.Netguard.blocked aquila.Netguard.check_url aquila.Jobs.Dag.state_by_plan
    aquila.Jobs.Dag.deps_ok aquila.Jobs.Dag.settle_task aquila.Jobs.Dag.settle_round
    aquila.Jobs.Dag.settle_rounds aquila.Jobs.Dag.settle aquila.Jobs.Dag.job_status
    aquila.Jobs.Attempt.apply_commit aquila.Jobs.Attempt.apply_heartbeat
    aquila.Jobs.Attempt.requeued aquila.Jobs.Attempt.requeue aquila.Jobs.Attempt.lease_task
    aquila.Jobs.Lifecycle.task_evidence aquila.Jobs.Lifecycle.job_evidence
    aquila.Jobs.Lifecycle.decision_input aquila.Jobs.Lifecycle.cancel_task
    aquila.Jobs.Lifecycle.expire_task aquila.Jobs.Lifecycle.job_decision
    aquila.Jobs.Lifecycle.decided aquila.Jobs.Lifecycle.refresh_job
    aquila.Jobs.Lifecycle.apply_cancel aquila.Jobs.Lifecycle.fail_deadline
    aquila.Jobs.Lifecycle.expire_job aquila.Jobs.Quota.normalized aquila.Jobs.Quota.over_active
    aquila.Jobs.Quota.leased_of aquila.Jobs.Quota.count_leased aquila.Jobs.Quota.first_free
    aquila.Jobs.Quota.consider aquila.Jobs.Quota.pick_from aquila.Jobs.Quota.pick_ready
    aquila.Jobs.Quota.occupancy_key aquila.Jobs.Quota.occupancy_keys aquila.Jobs.Quota.gateway_busy
    aquila.Jobs.Create.normalize_id aquila.Jobs.Create.clip_limit aquila.Jobs.Create.clip_service
    aquila.Jobs.Create.validate_create aquila.Jobs.Create.task_id aquila.Jobs.Create.tasks_of_plan
    aquila.Jobs.Create.workload_of aquila.Jobs.Create.draft_job aquila.Jobs.Create.build_job
    aquila.Jobs.Memory.find_job aquila.Jobs.Memory.put_job aquila.Jobs.Memory.jobs_in
    aquila.Jobs.Memory.jobs aquila.Jobs.Memory.find_in_tasks aquila.Jobs.Memory.find_task
    aquila.Jobs.Memory.leased_job aquila.Jobs.Memory.expire_table aquila.Jobs.Memory.expire_all
    aquila.Jobs.Memory.create aquila.Jobs.Memory.requeue_expired aquila.Jobs.Memory.lease
    aquila.Jobs.Memory.commit
runs = (refl, refl, refl, refl)

abbrev held : (j : Job) × (find_job job_id leased.by_id ≡ some j) × (waits j ≡ true)
held = some_of waits (find_job job_id leased.by_id) runs.0

task_lost : (j : Job) → waits j ≡ true → is_some ran_out (get_elem? j.tasks 0) ≡ true
task_lost j h = ground arith

abbrev lost : (t : Task) × (get_elem? held.0.tasks 0 ≡ some t) × (ran_out t ≡ true)
lost = some_of ran_out (get_elem? held.0.tasks 0) (task_lost held.0 held.2)

lease-progress_example : (l : Lease) × ((lease urls none worker later 99000000000 leased).1 ≡ ok l)
lease-progress_example =
    lease-progress urls 99000000000 leased worker later job_id held.0 0 lost.0 leased-IsStore runs.2
      runs.3 held.1 lost.1 (let h = lost.2 in ground arith) (let h = lost.2 in ground arith)
      (let h = held.2 in ground arith) (let h = held.2 in ground arith) runs.1
      (let h = held.2 in ground arith)
