-- ===== src/Jobs/Postgres/Calls.antt =====
-- internal/jobs/postgres.go: the methods of the store.
pub mod Refines
pub mod Agree
pub mod Atomic
pub mod Differ
pub mod Leasing
use aquila.Base.{
  ℕ, ◌∷◌, [], Str, codes, Bool, ◌&&◌, ◌||◌, Option, none, some, List, map, ltb, ◌==◌, if◌then◌else◌,
  is_empty, take, set, get_elem?, str_eq, str_lt, trim_space, filter_by, ℤ, pos, pos_part, leb_ℤ,
  sort_by,
}
use aquila.Url.{UrlPackage}
use aquila.Plan.{StepResult}
use aquila.Jobs.{
  Time, Task, Job, not_found, no_ready, at_capacity, invalid_id, busy, over_quota, errorf, Result,
  ok, err,
}
use aquila.Jobs.Attempt.{apply_commit, apply_heartbeat, lease_task}
use aquila.Jobs.Lifecycle.{refresh_job, apply_cancel}
use aquila.Jobs.Quota.{Quota, Choice, count_leased, pick_ready, gateway_busy, over_active}
use aquila.Jobs.Create.{CreateOpts, normalize_id, clip_limit, clip_service, build_job}
use aquila.Jobs.Memory.{Worker, Lease, slots_of, task_or}
use aquila.Jobs.Postgres.{
  Row, Rows, Faults, after, finish, find_row, update_job, insert_job, Spot, find_spot, with_spot,
  decode_job, lock_jobs, expired_jobs, expire_tx,
}

module _ (urls : UrlPackage) where
  -- RequeueExpired.
  unfoldable pub requeue_expired : Faults → Time → Rows → Rows × Result ℕ
  unfolding after expire_tx
  requeue_expired f now rows = after (f.begin ∷ f.expire_read ∷ f.expire_write ∷ []) rows (
      finish f.commit rows
        (expire_tx urls now rows, ok (expired_jobs urls now (lock_jobs urls rows)).1))

  insert_checked : Faults → Job → Rows → Rows → Rows × Result Job
  insert_checked f job before rows = elim (insert_job job rows) [
    | none ↦ (before, err (errorf (codes "insert job: ")))
    | some next ↦ after (f.write ∷ []) before (finish f.commit before (next, ok job))
  ]

  admit : Quota → Faults → Job → Rows → Rows → Rows × Result Job
  unfolding insert_checked
  admit q f job before rows =
      if gateway_busy urls (lock_jobs urls rows) job
      then (before, err busy)
      else if over_active (lock_jobs urls rows) job q
      then (before, err over_quota)
      else insert_checked f job before rows

  -- Create.
  unfoldable pub create : Quota → Faults → CreateOpts → Str → Time → Time → Rows → Rows × Result Job
  unfolding admit
  create q f opts fresh started now rows = elim (build_job urls fresh started opts) [
    | err e ↦ (rows, err e)
    | ok job ↦
        after (f.begin ∷ f.advisory ∷ f.expire_read ∷ f.expire_write ∷ f.read ∷ []) rows
          (admit q f job rows (expire_tx urls now rows))
  ]

  -- Get; the one query.
  unfoldable pub get_id : Faults → Option Str → Rows → Result Job
  get_id f none rows = err (errorf (codes "jobs: invalid id"))
  get_id f (some id) rows = elim f.read [
    | some e ↦ err (errorf e)
    | none ↦ elim (find_row id rows) [ none ↦ err not_found | some r ↦ ok (decode_job urls r) ]
  ]

  unfoldable pub get : Faults → Str → Rows → Result Job
  unfolding get_id
  get f raw rows = get_id f (normalize_id raw) rows

  -- The rows of listJobSQL.
  abbrev pub listed_before : Row → Row → Bool
  listed_before a b = ltb b.created a.created || (b.created == a.created && str_lt b.id a.id)

  unfoldable pub list : Faults → ℤ → Str → Rows → Result (List Job)
  unfolding sort_by
  list f limit service rows =
      let want = clip_service service in
      let wanted = filter_by (λ r. is_empty want || str_eq r.payload.service want) rows in
      elim f.read [
        | some e ↦ err (errorf e)
        | none ↦ ok (
            map (decode_job urls)
              (take (pos_part (clip_limit limit)) (sort_by listed_before wanted)))
      ]

  -- What Lease writes for a choice of pickReady.
  unfoldable pub leased_job : Worker → Str → Time → Job → ℕ → Task → Job
  leased_job w fresh now j ti t =
      refresh_job urls (record j { tasks = set j.tasks ti (lease_task w.id fresh now t) })

  grant_task : Faults → Worker → Str → Time → Rows → Rows → Job → ℕ → Task → Rows × Result Lease
  unfolding leased_job
  grant_task f w fresh now before rows j ti t =
      let job = leased_job w fresh now j ti t in
      let task = task_or (lease_task w.id fresh now t) (get_elem? job.tasks ti) in
      after (f.write ∷ []) before (
        finish f.commit before (
          update_job job rows,
          ok (record {
            job = job;
            task = task;
            n = task.n;
            fence = task.fence;
            attempt = task.attempt_id;
          }),
        ))

  -- A choice holds indices of the list, so the cases of `none` do not occur.
  grant : Faults → Worker → Str → Time → Rows → Rows → Choice → Rows × Result Lease
  unfolding grant_task
  grant f w fresh now before rows c = elim (get_elem? (lock_jobs urls rows) c.job) [
    | none ↦ (rows, err no_ready)
    | some j ↦ elim (get_elem? j.tasks c.task) [
      | none ↦ (rows, err no_ready)
      | some t ↦ grant_task f w fresh now before rows j c.task t
    ]
  ]

  -- The transaction of Lease: the rows at its start, and those that expireTx leaves. Where no task
  -- is leased, the expiry is committed all the same.
  lease_rows : Quota → Faults → Worker → Str → Str → Time → Rows → Rows → Rows × Result Lease
  unfolding grant
  lease_rows q f w want fresh now before rows =
      if leb_ℤ (slots_of w) (pos (count_leased (lock_jobs urls rows) w.id))
      then finish f.commit before (rows, err at_capacity)
      else elim (pick_ready (lock_jobs urls rows) want q) [
        | none ↦ finish f.commit before (rows, err no_ready)
        | some c ↦ grant f w fresh now before rows c
      ]

  lease_want : Quota → Faults → Worker → Option Str → Str → Time → Rows → Rows × Result Lease
  unfolding lease_rows
  lease_want q f w none fresh now rows = (rows, err invalid_id)
  lease_want q f w (some want) fresh now rows =
      after (f.begin ∷ f.expire_read ∷ f.expire_write ∷ f.read ∷ []) rows
        (lease_rows q f w want fresh now rows (expire_tx urls now rows))

  -- Lease.
  unfoldable pub lease : Quota → Faults → Worker → Str → Time → Rows → Rows × Result Lease
  unfolding lease_want
  lease q f w fresh now rows =
      if is_empty (trim_space w.id)
      then (rows, err (errorf (codes "jobs: worker id required")))
      else lease_want q f w
          (if is_empty (trim_space w.job_id) then some [] else normalize_id w.job_id) fresh now rows

  beat_spot : Faults → Option Spot → Str → Str → Time → Rows → Rows × Result (Unit {0})
  beat_spot f none aid worker now rows = (rows, err not_found)
  beat_spot f (some s) aid worker now rows = elim (apply_heartbeat s.task aid worker now) [
    | err e ↦ (rows, err e)
    | ok t ↦
        after (f.write ∷ []) rows (finish f.commit rows (update_job (with_spot s t) rows, ok tt))
  ]

  beat_ids : Faults → Option Str → Option Str → Str → Time → Rows → Rows × Result (Unit {0})
  unfolding beat_spot
  beat_ids f none aid worker now rows = (rows, err (errorf (codes "jobs: invalid id")))
  beat_ids f (some tid) none worker now rows = (rows, err (errorf (codes "jobs: invalid attempt")))
  beat_ids f (some tid) (some aid) worker now rows =
      after (f.begin ∷ f.read ∷ []) rows
        (beat_spot f (find_spot tid (lock_jobs urls rows)) aid worker now rows)

  -- Heartbeat.
  unfoldable pub heartbeat : Faults → Str → Str → Str → Time → Rows → Rows × Result (Unit {0})
  unfolding beat_ids
  heartbeat f task attempt worker now rows =
      beat_ids f (normalize_id task) (normalize_id attempt) worker now rows

  commit_spot : Faults → Option Spot → Str → StepResult → Str → Rows → Rows × Result Task
  commit_spot f none aid result fail rows = (rows, err not_found)
  commit_spot f (some s) aid result fail rows = elim (apply_commit s.task aid result fail) [
    | err e ↦ (rows, err e)
    | ok t ↦
        let job = refresh_job urls (with_spot s t) in
        after (f.write ∷ []) rows
          (finish f.commit rows (update_job job rows, ok (task_or t (get_elem? job.tasks s.index))))
  ]

  commit_ids : Faults → Option Str → Option Str → StepResult → Str → Rows → Rows × Result Task
  unfolding commit_spot
  commit_ids f none aid result fail rows = (rows, err (errorf (codes "jobs: invalid id")))
  commit_ids f (some tid) none result fail rows =
      (rows, err (errorf (codes "jobs: invalid attempt")))
  commit_ids f (some tid) (some aid) result fail rows =
      after (f.begin ∷ f.read ∷ []) rows
        (commit_spot f (find_spot tid (lock_jobs urls rows)) aid result fail rows)

  -- Commit.
  unfoldable pub commit : Faults → Str → Str → StepResult → Str → Rows → Rows × Result Task
  unfolding commit_ids
  commit f task attempt result fail rows =
      commit_ids f (normalize_id task) (normalize_id attempt) result fail rows

  cancel_row : Faults → Option Row → Rows → Rows × Result Job
  cancel_row f none rows = (rows, err not_found)
  cancel_row f (some r) rows =
      let job = apply_cancel urls (decode_job urls r) in
      after (f.write ∷ []) rows (finish f.commit rows (update_job job rows, ok job))

  cancel_id : Faults → Option Str → Rows → Rows × Result Job
  unfolding cancel_row
  cancel_id f none rows = (rows, err (errorf (codes "jobs: invalid id")))
  cancel_id f (some id) rows =
      after (f.begin ∷ f.read ∷ []) rows (cancel_row f (find_row id rows) rows)

  -- Cancel.
  unfoldable pub cancel : Faults → Str → Rows → Rows × Result Job
  unfolding cancel_id
  cancel f raw rows = cancel_id f (normalize_id raw) rows
