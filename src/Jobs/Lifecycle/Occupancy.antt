-- ===== src/Jobs/Lifecycle/Occupancy.antt =====
-- internal/jobs/occupancy.go: when a job occupies its gateway, as its tasks move.
use aquila.Base.{◌≡◌, sym, ◌∙◌, true, not, ◌&&◌, List, [], ◌∷◌, any, arith, Bool-cases, inl, inr}
use aquila.Url.{UrlPackage}
use aquila.Jobs.{TaskState, Status, Task, Job, state_eq}
use aquila.Jobs.Dag.{job_status, has_state}
use aquila.Jobs.Dag.StatusLaws.{is_live, job_status-occupied}
use aquila.Jobs.Quota.{occupies}
use aquila.Jobs.Lifecycle.Moves.{Moved, AllMoved, JobMoved}
use aquila.Jobs.Lifecycle.States.{is_final, final_stays}
use aquila.Jobs.Lifecycle.Consistent.{IsConsistent}

live_or_final : (t : Task) → is_live t ≡ not (is_final t.state)
live_or_final t = ground arith

live_back : (t u : Task) → Moved t u → is_live u ≡ true → is_live t ≡ true
live_back t u m h = elim (Bool-cases (is_final t.state)) [
  | inr n ↦ rw (live_or_final t, n)
  | inl f ↦ let e = final_stays m.moved f in absurd (ground arith)
]

failed_on :
    (t u : Task)
    → Moved t u
    → state_eq t.state TaskState.failed ≡ true
    → state_eq u.state TaskState.failed ≡ true
failed_on t u m h = let e = final_stays m.moved (ground arith) in rw e h

any-live_back : (ts us : List Task) → AllMoved ts us → any is_live us ≡ true → any is_live ts ≡ true
any-live_back [] [] m h = h
any-live_back [] (u ∷ us) m h = absurd m
any-live_back (t ∷ ts) [] m h = absurd m
any-live_back (t ∷ ts) (u ∷ us) m h = elim (Bool-cases (is_live u)) [
  | inl e ↦ rw (live_back t u m.0 e)
  | inr e ↦ let r = any-live_back ts us m.1 (rw e at h) in ground arith
]

any-failed_on :
    (ts us : List Task)
    → AllMoved ts us
    → has_state TaskState.failed ts ≡ true
    → has_state TaskState.failed us ≡ true
any-failed_on [] [] m h = h
any-failed_on [] (u ∷ us) m h = absurd m
any-failed_on (t ∷ ts) [] m h = absurd m
any-failed_on (t ∷ ts) (u ∷ us) m h = elim (Bool-cases (state_eq t.state TaskState.failed)) [
  | inl e ↦ rw (failed_on t u m.0 e)
  | inr e ↦ let r = any-failed_on ts us m.1 (rw e at h) in ground arith
]

-- A consistent job occupies its gateway if it is not canceled, a task is live and none has failed.
pub occupies-live :
    (urls : UrlPackage) (j : Job)
    → IsConsistent urls j
    → occupies j
      ≡ (not j.canceled && (any is_live j.tasks && not (has_state TaskState.failed j.tasks)))
occupies-live urls j o = elim (Bool-cases j.canceled) [
  | inl e ↦ let st : j.status ≡ Status.canceled = o.status_of_tasks ∙ rw e in rw (st, e)
  | inr e ↦
      let st : j.status ≡ job_status j.tasks = o.status_of_tasks ∙ rw e in
      rw (st, e) (job_status-occupied j.tasks)
]

pub occupies_back :
    (urls : UrlPackage) (j k : Job)
    → IsConsistent urls j
    → IsConsistent urls k
    → JobMoved j k
    → occupies k ≡ true
    → occupies j ≡ true
occupies_back urls j k oj ok m h =
    let hk = sym (occupies-live urls k ok) ∙ h in
    let live = any-live_back j.tasks k.tasks m.tasks_moved (ground arith) in
    let stay = m.stays_canceled in
    elim (Bool-cases (has_state TaskState.failed j.tasks)) [
      | inl f ↦ let g = any-failed_on j.tasks k.tasks m.tasks_moved f in absurd (ground arith)
      | inr n ↦ occupies-live urls j oj ∙ rw (live, n) (ground arith)
    ]
