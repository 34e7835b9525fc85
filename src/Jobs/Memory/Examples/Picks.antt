-- ===== src/Jobs/Memory/Examples/Picks.antt =====
-- The choice of a task, the settling of a job, lists, cancels and ids, on the stores of the parent.
use aquila.Base.{
  ◌<◌, ◌⊎◌, all, length, ℕ, ◌+◌, ◌≤◌, ◌≡◌, refl, Str, codes, Bool, true, false, Option, none, some,
  List, [], ◌∷◌, get_elem?, ℤ, pos, arith, ◌==◌, ◌↔◌, count_by,
}
use aquila.Jobs.{Job, ok}
use aquila.Jobs.Create.Ids.{normalize_id-normal}
use aquila.Jobs.Create.{is_hex, normalize_id}
use aquila.Jobs.Memory.{cancel, jobs, list}
use aquila.Jobs.Memory.Canceling.{cancel_idempotent}
use aquila.Jobs.Memory.Listing.{IsPage, list-IsPage}
use aquila.Jobs.Dag.{settle}
use aquila.Jobs.Dag.Settle.{IsSettled, settle-IsSettled}
use aquila.Jobs.Quota.{Choice, normalized, occupies, leased_of, pick_ready}
use aquila.Jobs.Quota.Pick.{
  is_candidate, IsSound, pick_ready-fair, pick_ready-IsSound, pick_ready-none,
}
use aquila.Jobs.Memory.Examples.{urls, quota, job_id, task, created, leased, some_of, runs}

abbrev choice :
    (c : Choice) × (pick_ready (jobs created) [] quota ≡ some c) × ((c.task == 0) ≡ true)
choice = some_of (λ c. c.task == 0) (pick_ready (jobs created) [] quota) runs.5

abbrev candidate :
    (j : Job) × (get_elem? (jobs created) 0 ≡ some j)
    × (is_candidate (jobs created) [] (normalized quota) j ≡ true)
candidate =
    some_of (is_candidate (jobs created) [] (normalized quota)) (get_elem? (jobs created) 0) runs.4

pick_ready-fair_example :
    (j : Job) × (get_elem? (jobs created) choice.0.job ≡ some j)
    × ((leased_of j.service (jobs created) < leased_of candidate.0.service (jobs created))
        ⊎ ((leased_of j.service (jobs created) ≡ leased_of candidate.0.service (jobs created))
            × (choice.0.job ≤ 0)))
pick_ready-fair_example =
    pick_ready-fair (jobs created) [] quota choice.0 0 candidate.0 choice.1 candidate.1 candidate.2

pick_ready-IsSound_example : IsSound (jobs created) [] (normalized quota) choice.0
pick_ready-IsSound_example = pick_ready-IsSound (jobs created) [] quota choice.0 choice.1

abbrev busy_job : (j : Job) × (get_elem? (jobs leased) 0 ≡ some j) × (occupies j ≡ true)
busy_job = some_of occupies (get_elem? (jobs leased) 0) runs.6

pick_ready-none_example : is_candidate (jobs leased) [] (normalized quota) busy_job.0 ≡ false
pick_ready-none_example = pick_ready-none (jobs leased) [] quota 0 busy_job.0 runs.7 busy_job.1

settle-IsSettled_example : IsSettled (settle candidate.0.tasks)
settle-IsSettled_example = settle-IsSettled candidate.0.tasks

list-IsPage_example : (js : List Job) × (list none (pos 5) [] created ≡ ok js) × IsPage [] js
list-IsPage_example = list-IsPage (pos 5) [] created

cancel_idempotent_example :
    let n = (cancel urls none job_id leased).0 in
    cancel urls none job_id n ≡ (n, (cancel urls none job_id leased).1)
cancel_idempotent_example = cancel_idempotent urls job_id leased

-- A text with blanks, capitals and more digits than an id keeps.
abbrev loud_id : Str
loud_id = codes " AAAAAAAAAAAA0000FF "

loud_id-normal : normalize_id loud_id ≡ some task
unfolding normalize_id aquila.Base.to_lower aquila.Base.trim_space
loud_id-normal = refl

normalize_id-normal_example :
    (all is_hex task ≡ true)
    × (8 ≤ length task)
    × (length task ≤ 16)
    × (normalize_id task ≡ some task)
normalize_id-normal_example = normalize_id-normal loud_id task loud_id-normal
