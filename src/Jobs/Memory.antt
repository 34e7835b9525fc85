-- ===== src/Jobs/Memory.antt =====
-- internal/jobs/memory.go: the in-memory store. A method takes the store and returns it with the
-- method's result; the mutex makes the methods one at a time. The error of the context, the clock
-- and the answers of newID are arguments.
pub mod Effects
pub mod Updates
pub mod History
pub mod Places
pub mod Fencing
pub mod Expiry
pub mod Progress
pub mod Follows
pub mod Gateways
pub mod Active
pub mod Held
pub mod Shares
pub mod Listing
pub mod Declared
pub mod Canceling
pub mod Examples
pub mod Tables
pub mod Invariant
use aquila.Base.{
  ℕ, zero, suc, ◌+◌, Str, codes, Bool, true, false, not, ◌&&◌, ◌||◌, Option, none, some, List, [],
  ◌∷◌, ◌++◌, map, any, ltb, leb, ◌==◌, if◌then◌else◌, is_empty, length, take, set, get_elem?,
  str_eq, str_lt, trim_space, ℤ, pos, pos_part, ltb_ℤ, leb_ℤ, filter_by,
}
use aquila.Url.{UrlPackage}
use aquila.Plan.{StepResult}
use aquila.Jobs.{
  Time, TaskState, Status, Task, Job, Error, not_found, no_ready, at_capacity, invalid_id, busy,
  over_quota, errorf, Result, ok, err,
}
use aquila.Jobs.Dag.{job_status}
use aquila.Jobs.Attempt.{apply_commit, apply_heartbeat, lease_task}
use aquila.Jobs.Lifecycle.{refresh_job, apply_cancel, expire_job}
use aquila.Jobs.Quota.{Quota, Choice, count_leased, pick_ready, gateway_busy, over_active}
use aquila.Jobs.Create.{CreateOpts, normalize_id, clip_limit, clip_service, build_job}

abbrev pub Table : Type 0
Table = List (Str × Job)

-- byID as an association list, whose order is the one in which a range over the map visits it.
pub record Memory : Type 0 where
  pub by_id : Table
  pub order : List Str
  pub quota : Quota

pub record Worker : Type 0 where
  pub id : Str
  pub slots : ℤ
  pub job_id : Str

pub record Lease : Type 0 where
  pub job : Job
  pub task : Task
  pub n : ℤ
  pub fence : ℤ
  pub attempt : Str

unfoldable pub find_job : Str → Table → Option Job
find_job id [] = none
find_job id ((k, j) ∷ table) = let rest = find_job id table in if str_eq k id then some j else rest

-- m.byID[id] = job.
unfoldable pub put_job : Str → Job → Table → Table
put_job id job [] = (id, job) ∷ []
put_job id job ((k, j) ∷ table) =
    let rest = put_job id job table in if str_eq k id then (k, job) ∷ table else (k, j) ∷ rest

abbrev pub cons_some : Option Job → List Job → List Job
cons_some none js = js
cons_some (some j) js = j ∷ js

-- Memory.jobs. The order holds only keys of the map.
unfoldable pub jobs_in : Table → List Str → List Job
jobs_in table [] = []
jobs_in table (id ∷ ids) = cons_some (find_job id table) (jobs_in table ids)

unfoldable pub jobs : Memory → List Job
unfolding jobs_in
jobs m = jobs_in m.by_id m.order

-- NewMemory and WithQuota.
abbrev pub new_memory : Quota → Memory
new_memory q = record { by_id = []; order = []; quota = q }

-- Worker.id, an error for a blank one; and Worker.slots, with DefaultSlots = 1 and MaxSlots = 8.
abbrev pub slots_of : Worker → ℤ
slots_of w =
    if ltb_ℤ w.slots (pos 1) then pos 1 else if ltb_ℤ (pos 8) w.slots then pos 8 else w.slots

-- Where a task stands: the first task of that id in the job, and the job's key.
pub record Found : Type 0 where
  pub key : Str
  pub job : Job
  pub index : ℕ
  pub task : Task

unfoldable pub find_in_tasks : Str → List Task → Option (ℕ × Task)
find_in_tasks tid [] = none
find_in_tasks tid (t ∷ ts) =
    let rest = find_in_tasks tid ts in
    if str_eq t.id tid
    then some (0, t)
    else elim rest [ none ↦ none | some (i, u) ↦ some (suc i, u) ]

unfoldable pub find_task : Str → Table → Option Found
unfolding find_in_tasks
find_task tid [] = none
find_task tid ((k, j) ∷ table) =
    let rest = find_task tid table in
    elim (find_in_tasks tid j.tasks) [
      | none ↦ rest
      | some (i, t) ↦ some (record { key = k; job = j; index = i; task = t })
    ]

abbrev pub task_or : Task → Option Task → Task
task_or d none = d
task_or d (some t) = t

pub insert_new : Job → Memory → Memory
insert_new job m = record m { by_id = put_job job.id job m.by_id; order = m.order ++ (job.id ∷ []) }

-- The job that Lease stores for a choice of pickReady.
unfoldable pub leased_job : Worker → Str → Time → Job → ℕ → Task → Job
leased_job w fresh now j ti t =
    let ts = set j.tasks ti (lease_task w.id fresh now t) in
    record j { tasks = ts; status = job_status ts }

grant_task : Worker → Str → Time → Memory → Job → ℕ → Task → Memory × Result Lease
unfolding leased_job
grant_task w fresh now m j ti t =
    let job = leased_job w fresh now j ti t in
    let task = lease_task w.id fresh now t in
    (
      record m { by_id = put_job j.id job m.by_id },
      ok (record { job = job; task = task; n = task.n; fence = task.fence; attempt = fresh }),
    )

grant_in : Worker → Str → Time → Memory → Job → ℕ → Option Task → Memory × Result Lease
unfolding grant_task
grant_in w fresh now m j ti none = (m, err no_ready)
grant_in w fresh now m j ti (some t) = grant_task w fresh now m j ti t

-- A choice holds indices of the list, so the two cases of `none` do not occur.
grant : Worker → Str → Time → Memory → Choice → Memory × Result Lease
unfolding grant_in
grant w fresh now m c = elim (get_elem? (jobs m) c.job) [
  | none ↦ (m, err no_ready)
  | some j ↦ grant_in w fresh now m j c.task (get_elem? j.tasks c.task)
]

lease_ready : Worker → Str → Str → Time → Memory → Memory × Result Lease
unfolding grant
lease_ready w want fresh now m = elim (pick_ready (jobs m) want m.quota) [
  | none ↦ (m, err no_ready)
  | some c ↦ grant w fresh now m c
]

lease_wanted : Worker → Str → Time → Memory → Memory × Result Lease
unfolding lease_ready
lease_wanted w fresh now m =
    if is_empty (trim_space w.job_id)
    then lease_ready w [] fresh now m
    else elim (normalize_id w.job_id) [
      | none ↦ (m, err invalid_id)
      | some id ↦ lease_ready w id fresh now m
    ]

lease_live : Worker → Str → Time → Memory → Memory × Result Lease
unfolding lease_wanted
lease_live w fresh now m =
    if leb_ℤ (slots_of w) (pos (count_leased (jobs m) w.id))
    then (m, err at_capacity)
    else lease_wanted w fresh now m

-- Write a task of a job back, the job being refreshed or not.
abbrev pub with_task : Found → Task → Job
with_task f t = let j = f.job in record j { tasks = set j.tasks f.index t }

unfoldable pub beat_found : Option Found → Str → Str → Time → Memory → Memory × Result (Unit {0})
beat_found none aid worker now m = (m, err not_found)
beat_found (some f) aid worker now m = elim (apply_heartbeat f.task aid worker now) [
  | err e ↦ (m, err e)
  | ok t ↦ (record m { by_id = put_job f.key (with_task f t) m.by_id }, ok tt)
]

unfoldable pub beat_ids : Option Str → Option Str → Str → Time → Memory → Memory × Result (Unit {0})
unfolding beat_found
beat_ids none aid worker now m = (m, err (errorf (codes "jobs: invalid id")))
beat_ids (some tid) none worker now m = (m, err (errorf (codes "jobs: invalid attempt")))
beat_ids (some tid) (some aid) worker now m = beat_found (find_task tid m.by_id) aid worker now m

-- Heartbeat.
unfoldable pub heartbeat : Option Str → Str → Str → Str → Time → Memory → Memory × Result (Unit {0})
unfolding beat_ids
heartbeat (some e) task attempt worker now m = (m, err (errorf e))
heartbeat none task attempt worker now m =
    beat_ids (normalize_id task) (normalize_id attempt) worker now m

module _ (urls : UrlPackage) where
  -- requeueExpiredLocked: every job, and the sum of what they count.
  unfoldable pub expire_table : Time → Table → Table × ℕ
  expire_table now [] = ([], 0)
  expire_table now ((k, j) ∷ table) =
      let here = expire_job urls now j in
      let rest = expire_table now table in ((k, here.0) ∷ rest.0, here.1 + rest.1)

  unfoldable pub expire_all : Time → Memory → Memory
  unfolding expire_table
  expire_all now m = record m { by_id = (expire_table now m.by_id).0 }

  admit : Job → Memory → Memory × Result Job
  unfolding insert_new
  admit job m =
      if gateway_busy urls (jobs m) job
      then (m, err busy)
      else if over_active (jobs m) job m.quota
      then (m, err over_quota)
      else (insert_new job m, ok job)

  -- Create; `started` is the clock as validateCreate and buildJob read it, `now` as the store does.
  unfoldable pub create : Option Str → CreateOpts → Str → Time → Time → Memory → Memory × Result Job
  unfolding admit
  create (some e) opts fresh started now m = (m, err (errorf e))
  create none opts fresh started now m = elim (build_job urls fresh started opts) [
    | err e ↦ (m, err e)
    | ok job ↦ admit job (expire_all now m)
  ]

  -- RequeueExpired.
  unfoldable pub requeue_expired : Option Str → Time → Memory → Memory × Result ℕ
  requeue_expired (some e) now m = (m, err (errorf e))
  requeue_expired none now m = (expire_all now m, ok (expire_table now m.by_id).1)

  -- Memory.Lease.
  unfoldable pub lease : Option Str → Worker → Str → Time → Memory → Memory × Result Lease
  unfolding lease_live
  lease (some e) w fresh now m = (m, err (errorf e))
  lease none w fresh now m =
      if is_empty (trim_space w.id)
      then (m, err (errorf (codes "jobs: worker id required")))
      else lease_live w fresh now (expire_all now m)

  unfoldable pub commit_found :
      Option Found → Str → StepResult → Str → Memory → Memory × Result Task
  commit_found none aid result fail m = (m, err not_found)
  commit_found (some f) aid result fail m = elim (apply_commit f.task aid result fail) [
    | err e ↦ (m, err e)
    | ok t ↦
        let job = refresh_job urls (with_task f t) in
        (
          record m { by_id = put_job f.key job m.by_id },
          ok (task_or t (get_elem? job.tasks f.index)),
        )
  ]

  unfoldable pub commit_ids :
      Option Str → Option Str → StepResult → Str → Memory → Memory × Result Task
  unfolding commit_found
  commit_ids none aid result fail m = (m, err (errorf (codes "jobs: invalid id")))
  commit_ids (some tid) none result fail m = (m, err (errorf (codes "jobs: invalid attempt")))
  commit_ids (some tid) (some aid) result fail m =
      commit_found (find_task tid m.by_id) aid result fail m

  -- Commit.
  unfoldable pub commit : Option Str → Str → Str → StepResult → Str → Memory → Memory × Result Task
  unfolding commit_ids
  commit (some e) task attempt result fail m = (m, err (errorf e))
  commit none task attempt result fail m =
      commit_ids (normalize_id task) (normalize_id attempt) result fail m

  unfoldable pub cancel_found : Str → Option Job → Memory → Memory × Result Job
  cancel_found id none m = (m, err not_found)
  cancel_found id (some j) m =
      let job = apply_cancel urls j in (record m { by_id = put_job id job m.by_id }, ok job)

  unfoldable pub cancel_id : Option Str → Memory → Memory × Result Job
  unfolding cancel_found
  cancel_id none m = (m, err (errorf (codes "jobs: invalid id")))
  cancel_id (some id) m = cancel_found id (find_job id m.by_id) m

  -- Cancel.
  unfoldable pub cancel : Option Str → Str → Memory → Memory × Result Job
  unfolding cancel_id
  cancel (some e) raw m = (m, err (errorf e))
  cancel none raw m = cancel_id (normalize_id raw) m

unfoldable pub get_id : Option Str → Memory → Result Job
get_id none m = err (errorf (codes "jobs: invalid id"))
get_id (some id) m = elim (find_job id m.by_id) [ none ↦ err not_found | some j ↦ ok j ]

-- Get.
unfoldable pub get : Option Str → Str → Memory → Result Job
unfolding get_id
get (some e) raw m = err (errorf e)
get none raw m = get_id (normalize_id raw) m

-- The order of List: newest first, then the greater id.
abbrev pub comes_first : Job → Job → Bool
comes_first a b = if a.created == b.created then str_lt b.id a.id else ltb b.created a.created

insert_listed : Job → List Job → List Job
insert_listed j [] = j ∷ []
insert_listed j (k ∷ ks) =
    let rest = insert_listed j ks in if comes_first k j then k ∷ rest else j ∷ k ∷ ks

-- sort.SliceStable.
unfoldable pub sort_listed : List Job → List Job
unfolding insert_listed
sort_listed [] = []
sort_listed (j ∷ js) = insert_listed j (sort_listed js)

-- List.
unfoldable pub list : Option Str → ℤ → Str → Memory → Result (List Job)
unfolding sort_listed
list (some e) limit service m = err (errorf e)
list none limit service m =
    let want = clip_service service in
    let wanted = filter_by (λ (j : Job). is_empty want || str_eq j.service want) (jobs m) in
    ok (take (pos_part (clip_limit limit)) (sort_listed wanted))
