-- ===== src/Jobs/Postgres/Calls/Differ.antt =====
-- internal/jobs/postgres.go and memory.go: a task that is leased in a job that has ended.
use mathlib.Core.Option.{some-injective}
use aquila.Base.{
  ◌≡◌, refl, sym, ap, ◌∙◌, Str, true, false, inl, inr, none, some, arith, Option-cases, All-In, In,
}
use aquila.Url.{UrlPackage}
use aquila.Plan.{StepResult}
use aquila.Jobs.{Task, Job, ok, err, not_found}
use aquila.Jobs.Lifecycle.{decided}
use aquila.Jobs.Quota.{occupies}
use aquila.Jobs.Create.{normalize_id}
use aquila.Jobs.Memory.{
  Memory, Table, Found, find_job, put_job, find_in_tasks, find_task, with_task, task_or,
}
use aquila.Jobs.Memory as Mem
use aquila.Jobs.Memory.Invariant.{IsStore, found_task}
use aquila.Jobs.Postgres.{Row, Rows, no_faults, after, finish, decode_job, lock_jobs}
use aquila.Jobs.Postgres.Calls as Pg
use aquila.Jobs.Postgres.Calls.{
  beat_spot, beat_ids, commit_spot, commit_ids, cancel_row, cancel_id, get_id,
}
use aquila.Jobs.Postgres.Rows.{map_some, In-find_row, lock_jobs-In}
use aquila.Jobs.Memory.Fencing.{accepts, commit_accepted}
use aquila.Jobs.Postgres.Rows.{find_spot-none}
use aquila.Jobs.Postgres.Calls.Refines.{Agrees}
use aquila.Jobs.Postgres.Calls.Agree.{IsAlone}

module _ (urls : UrlPackage) (m : Memory) (rows : Rows) (s : IsStore urls m)
    (a : Agrees urls m rows) (tid : Str) (f : Found) (finds : find_task tid m.by_id ≡ some f)
    (over : occupies f.job ≡ false) (alone : IsAlone m tid f.key) where
  unlocked : (k : Job) → In k (lock_jobs urls rows) → find_in_tasks tid k.tasks ≡ none
  unfolding decided
  unlocked k mk = elim (Option-cases (find_in_tasks tid k.tasks)) [
    | inl n ↦ n
    | inr (p, n) ↦
        let (q, mq, aq, eq) = lock_jobs-In urls k rows mk in
        let fk : find_job q.id m.by_id ≡ some k =
          a.same q.id
          ∙ ap (map_some (decode_job urls)) (In-find_row q rows a.distinct mq)
          ∙ ap some (sym eq) in
        let here = alone q.id k fk (ground arith) in
        let at_key = (found_task urls m tid f s finds).0 in
        let ek : k ≡ f.job =
          some-injective _ _ (sym fk ∙ ap (λ (x : Str). find_job x m.by_id) here ∙ at_key) in
        let st : q.status ≡ f.job.status =
          All-In (λ (x : Row). x.status ≡ x.payload.status) rows q a.status_kept mq
          ∙ ap (λ (x : Job). x.status) (sym eq ∙ ek) in
        absurd (ground arith)
  ]

  -- The stores differ on a job that has ended with a task still leased, as Cancel leaves one, where no
  -- other job has a task of that id and no statement fails: the in-memory store accepts that task's
  -- commit, the table's refuses it as not found.
  pub ended-differs :
      (task attempt aid : Str) (r : StepResult) (fail : Str)
      → normalize_id task ≡ some tid
      → normalize_id attempt ≡ some aid
      → accepts f.task aid r fail ≡ true
      → (Pg.commit urls no_faults task attempt r fail rows ≡ (rows, err not_found))
        × ((t : Task) × ((Mem.commit urls none task attempt r fail m).1 ≡ ok t))
  unfolding Pg.commit after finish
  ended-differs task attempt aid r fail nt na acc = (
    rw (nt, na, commit_ids) (rw (find_spot-none tid (lock_jobs urls rows) unlocked) refl),
    (commit_accepted urls m task attempt tid aid r fail f nt na finds).1 acc,
  )
