-- ===== src/Jobs/Memory/Progress.antt =====
-- internal/jobs/memory.go: when Lease hands out a task.
use aquila.Base.{
  ℕ, suc, ◌≡◌, refl, Str, true, false, inl, inr, none, some, List, [], ◌∷◌, map, any, get_elem?,
  is_empty, trim_space, arith, Bool-cases, Option-cases, pos, leb_ℤ, str_eq, any-get, get-map,
}
use aquila.Url.{UrlPackage}
use aquila.Jobs.{Time, Status, Task, Job, ok}
use aquila.Jobs.Dag.{job_status}
use aquila.Jobs.Dag.Settle.{is_pending, settle_kept}
use aquila.Jobs.Attempt.{is_expired, requeue}
use aquila.Jobs.Lifecycle.{refresh_job, expire_job, is_overdue}
use aquila.Jobs.Quota.{Quota, normalized, leased_of, count_leased, is_open, is_free, pick_ready}
use aquila.Jobs.Quota.Pick.{is_candidate, pick_ready-IsSound, pick_ready-none}
use aquila.Jobs.Memory.{
  Memory, Table, Worker, Lease, find_job, jobs, slots_of, expire_all, grant, grant_in, grant_task,
  lease_ready, lease_wanted, lease_live, lease,
}
use aquila.Jobs.Memory.Tables.{values}
use aquila.Jobs.Memory.Invariant.{IsStore, expire_all-IsStore}
use aquila.Jobs.Memory.Follows.{jobs-values}
use aquila.Jobs.Memory.Expiry.{find-expired}

status_not_canceled :
    (ts : List Task) → (elim (job_status ts) [ Status.canceled ↦ true | _ ↦ false ]) ≡ false
unfolding job_status
status_not_canceled ts = ground arith

requeued_free :
    (now : Time) (t : Task)
    → is_expired now t ≡ true
    → t.operator ≡ false
    → (is_free (requeue now false t) ≡ true) × (is_pending (requeue now false t) ≡ false)
unfolding requeue
requeued_free now t h o = ground arith

get-values :
    (id : Str) (j : Job) (ts : Table)
    → find_job id ts ≡ some j
    → (k : ℕ) × (get_elem? (values ts) k ≡ some j)
unfolding find_job
get-values id j [] e = absurd (ground arith)
get-values id j ((a, x) ∷ ts) e = elim (Bool-cases (str_eq a id)) [
  | inl q ↦ (0, rw q at e)
  | inr q ↦ let (k, h) = get-values id j ts (rw q at e) in (suc k, h)
]

module _ (urls : UrlPackage) (now : Time) where
  -- A job with an expired lease, within its deadline, is open again.
  expired_opens :
      (j : Job) (i : ℕ) (t : Task) (q : Quota) (load : ℕ)
      → get_elem? j.tasks i ≡ some t
      → is_expired now t ≡ true
      → t.operator ≡ false
      → j.canceled ≡ false
      → is_overdue now j ≡ false
      → leb_ℤ q.leased_tasks (pos load) ≡ false
      → let k = (expire_job urls now j).0 in
        (k.service ≡ j.service) × (is_open [] q load k ≡ true) × (any is_free k.tasks ≡ true)
  unfolding expire_job refresh_job
  expired_opens j i t q load at_i x o c d l =
      let some_x = any-get (is_expired now) j.tasks i t at_i x in
      let f = requeued_free now t x o in
      let ts = map (requeue now false) j.tasks in
      let here =
        settle_kept ts i (requeue now false t) (get-map (requeue now false) j.tasks i t at_i) f.1 in
      rw (d, some_x, c)
        (
          refl,
          rw (l, status_not_canceled _) refl,
          any-get is_free _ i (requeue now false t) here f.0,
        )

  granted :
      (x : Memory) (w : Worker) (fresh : Str) (k : ℕ) (j : Job)
      → get_elem? (jobs x) k ≡ some j
      → is_candidate (jobs x) [] (normalized x.quota) j ≡ true
      → (l : Lease) × ((lease_ready w [] fresh now x).1 ≡ ok l)
  unfolding lease_ready grant grant_in grant_task
  granted x w fresh k j at_k cand = elim (Option-cases (pick_ready (jobs x) [] x.quota)) [
    | inl n ↦ absurd (let z = pick_ready-none (jobs x) [] x.quota k j n at_k in ground arith)
    | inr (c, n) ↦
        let (j', t', g, h, open_j, free_t, load) = pick_ready-IsSound (jobs x) [] x.quota c n in
        rw (n, lease_ready) (rw (g, grant) (rw (h, grant_in) (_, refl)))
  ]

  -- A lease that has run out does not hold a job up: where a worker below its slots asks for any
  -- task, and some job in the store, not canceled and within its deadline, has a task other than an
  -- operator's whose lease has run out, and the service of that job is then below its cap, Lease
  -- hands out a task.
  pub lease-progress :
      (m : Memory) (w : Worker) (fresh id : Str) (j : Job) (i : ℕ) (t : Task)
      → IsStore urls m
      → is_empty (trim_space w.id) ≡ false
      → is_empty (trim_space w.job_id) ≡ true
      → find_job id m.by_id ≡ some j
      → get_elem? j.tasks i ≡ some t
      → is_expired now t ≡ true
      → t.operator ≡ false
      → j.canceled ≡ false
      → is_overdue now j ≡ false
      → leb_ℤ (slots_of w) (pos (count_leased (jobs (expire_all urls now m)) w.id)) ≡ false
      → leb_ℤ
          (normalized m.quota).leased_tasks
          (pos (leased_of j.service (jobs (expire_all urls now m))))
        ≡ false
      → (l : Lease) × ((lease urls none w fresh now m).1 ≡ ok l)
  unfolding lease lease_live lease_wanted expire_all
  lease-progress m w fresh id j i t s named any_job here at_i x o c d slots cap =
      let n : Memory = expire_all urls now m in
      let k = (expire_job urls now j).0 in
      let (same, opened, free) =
        expired_opens j i t (normalized m.quota) (leased_of j.service (jobs n)) at_i x o c d cap in
      let (p, at_p) = get-values id k n.by_id (find-expired urls now id j m.by_id here) in
      let placed : get_elem? (jobs n) p ≡ some k =
        rw (jobs-values urls n (expire_all-IsStore urls now m s)) at_p in
      let cand : is_candidate (jobs n) [] (normalized m.quota) k ≡ true =
        rw (same, opened, free) refl in
      rw (named, slots, any_job) (granted n w fresh p k placed cand)
