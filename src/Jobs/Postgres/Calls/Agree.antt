-- ===== src/Jobs/Postgres/Calls/Agree.antt =====
-- internal/jobs/postgres.go and memory.go: the calls of the two stores side by side.
use mathlib.Core.Path.{subst}
use mathlib.Core.Option.{some-injective}
use aquila.Base.{
  ◌≡◌, ◌≢◌, refl, sym, ap, ◌∙◌, Str, true, inl, inr, none, some, [], ◌∷◌, arith, Option-cases,
  All-In, In,
}
use aquila.Url.{UrlPackage}
use aquila.Plan.{StepResult}
use aquila.Jobs.{Time, Job}
use aquila.Jobs.Attempt.{apply_commit, apply_heartbeat}
use aquila.Jobs.Lifecycle.{decided, refresh_job, apply_cancel}
use aquila.Jobs.Lifecycle.Moves.{apply_cancel-JobMoved}
use aquila.Jobs.Lifecycle.Consistent.{
  IsConsistent, apply_cancel-IsConsistent, refresh_job-IsConsistent,
}
use aquila.Jobs.Quota.{occupies}
use aquila.Jobs.Create.{normalize_id}
use aquila.Jobs.Memory.{
  Memory, Table, Found, find_job, put_job, find_in_tasks, find_task, with_task, task_or,
}
use aquila.Jobs.Memory as Mem
use aquila.Jobs.Memory.Effects.{Result-cases}
use aquila.Jobs.Memory.Updates.{beat-IsConsistent}
use aquila.Jobs.Memory.Tables.{find_job-All}
use aquila.Jobs.Memory.Invariant.{IsStore, found_task}
use aquila.Jobs.Postgres.{
  Row, Rows, no_faults, after, finish, find_row, update_job, is_active, find_spot, decode_job,
  lock_jobs,
}
use aquila.Jobs.Postgres.Calls as Pg
use aquila.Jobs.Postgres.Calls.{
  beat_spot, beat_ids, commit_spot, commit_ids, cancel_row, cancel_id, get_id,
}
use aquila.Jobs.Postgres.Rows.{
  map_some, find_row-In, In-find_row, In-lock_jobs, lock_jobs-In, find_spot-only,
}
use aquila.Jobs.Postgres.Calls.Refines.{Agrees, consistent-decided, write-Agrees}

find_task-in :
    (tid : Str) (table : Table) (f : Found)
    → find_task tid table ≡ some f
    → find_in_tasks tid f.job.tasks ≡ some (f.index, f.task)
unfolding find_task
find_task-in tid [] f e = absurd (ground arith)
find_task-in tid ((k, j) ∷ table) f e = elim (Option-cases (find_in_tasks tid j.tasks)) [
  | inl n ↦ find_task-in tid table f (rw (n, find_task) at e)
  | inr ((i, t), n) ↦
      let ef : record { key = k; job = j; index = i; task = t } ≡ f =
        some-injective _ _ (rw (n, find_task) at e) in
      subst (λ (f : Found). find_in_tasks tid f.job.tasks ≡ some (f.index, f.task)) ef n
]

refresh_job-id : (urls : UrlPackage) (j : Job) → (refresh_job urls j).id ≡ j.id
unfolding refresh_job
refresh_job-id urls j = refl

-- No other job of the store has a task of that id.
abbrev pub IsAlone : Memory → Str → Str → Type 0
IsAlone m tid key =
    (k : Str) (j : Job) → find_job k m.by_id ≡ some j → find_in_tasks tid j.tasks ≢ none → k ≡ key

module _ (urls : UrlPackage) (m : Memory) (rows : Rows) (s : IsStore urls m)
    (a : Agrees urls m rows) where
  row_of :
      (id : Str) (j : Job)
      → find_job id m.by_id ≡ some j
      → (r : Row) × (find_row id rows ≡ some r) × (decode_job urls r ≡ j)
  row_of id j e = elim (Option-cases (find_row id rows)) [
    | inl n ↦ absurd (let z = sym e ∙ a.same id ∙ ap (map_some (decode_job urls)) n in ground arith)
    | inr (r, n) ↦
        (r, n, some-injective _ _ (sym (sym e ∙ a.same id ∙ ap (map_some (decode_job urls)) n)))
  ]

  row_status :
      (id : Str) (r : Row) (j : Job)
      → find_row id rows ≡ some r
      → decode_job urls r ≡ j
      → r.status ≡ j.status
  unfolding decided
  row_status id r j e d =
      All-In (λ (x : Row). x.status ≡ x.payload.status) rows r a.status_kept
        (find_row-In id r rows e).0
      ∙ ap (λ (x : Job). x.status) d

  active_of : (r : Row) (j : Job) → r.status ≡ j.status → occupies j ≡ true → is_active r ≡ true
  active_of r j e o = ground arith

  -- Where the one store finds a task of an active job, so does the other.
  pub spot_of :
      (tid : Str) (f : Found)
      → find_task tid m.by_id ≡ some f
      → occupies f.job ≡ true
      → IsAlone m tid f.key
      → find_spot tid (lock_jobs urls rows)
        ≡ some (record { job = f.job; index = f.index; task = f.task })
  spot_of tid f e o alone =
      let (at_key, at_task, id) = found_task urls m tid f s e in
      let (r, er, d) = row_of f.key f.job at_key in
      let m1 =
        In-lock_jobs urls r rows (find_row-In f.key r rows er).0
          (active_of r f.job (row_status f.key r f.job er d) o) in
      find_spot-only tid f.job f.index f.task (lock_jobs urls rows)
        (subst (λ (j : Job). In j (lock_jobs urls rows)) d m1) (find_task-in tid m.by_id f e)
        (λ k mk nk.
          let (q, mq, aq, eq) = lock_jobs-In urls k rows mk in
          let fk : find_job q.id m.by_id ≡ some k =
            a.same q.id
            ∙ ap (map_some (decode_job urls)) (In-find_row q rows a.distinct mq)
            ∙ ap some (sym eq) in
          let here = alone q.id k fk nk in
          some-injective _ _ (sym fk ∙ ap (λ (x : Str). find_job x m.by_id) here ∙ at_key))

  -- Get returns the same from both stores.
  get-agrees : (raw : Str) → Pg.get urls no_faults raw rows ≡ Mem.get none raw m
  unfolding Pg.get Mem.get
  get-agrees raw = elim (Option-cases (normalize_id raw)) [
    | inl n ↦ rw (n, get_id, Mem.get_id)
    | inr (id, n) ↦ elim (Option-cases (find_row id rows)) [
      | inl h ↦ rw (n, get_id, Mem.get_id) (rw (a.same id, h) refl)
      | inr (r, h) ↦ rw (n, get_id, Mem.get_id) (rw (a.same id, h) refl)
    ]
  ]

  -- Cancel, where no statement fails: the same answer, and the stores hold the same jobs again.
  cancel-Agrees :
      (raw : Str)
      → ((Pg.cancel urls no_faults raw rows).1 ≡ (Mem.cancel urls none raw m).1)
        × Agrees urls (Mem.cancel urls none raw m).0 (Pg.cancel urls no_faults raw rows).0
  unfolding Pg.cancel Mem.cancel after finish
  cancel-Agrees raw = elim (Option-cases (normalize_id raw)) [
    | inl n ↦ rw (n, cancel_id, Mem.cancel_id) (refl, a)
    | inr (id, n) ↦ elim (Option-cases (find_row id rows)) [
      | inl h ↦
          let hm : find_job id m.by_id ≡ none = a.same id ∙ ap (map_some (decode_job urls)) h in
          rw (n, cancel_id, Mem.cancel_id) (rw (h, hm, cancel_row, Mem.cancel_found) (refl, a))
      | inr (r, h) ↦
          let j = decode_job urls r in
          let hm : find_job id m.by_id ≡ some j = a.same id ∙ ap (map_some (decode_job urls)) h in
          let c = find_job-All (λ e. IsConsistent urls e.1) id j m.by_id s.consistent hm in
          let own = find_job-All (λ e. e.1.id ≡ e.0) id j m.by_id s.own_key hm in
          let job = apply_cancel urls j in
          rw (n, cancel_id, Mem.cancel_id)
            (rw (h, hm, cancel_row, Mem.cancel_found)
              (
                refl,
                write-Agrees urls m rows r id job a h ((apply_cancel-JobMoved urls j).same_id ∙ own)
                    (consistent-decided urls job (apply_cancel-IsConsistent urls j c)),
              ))
    ]
  ]

  -- Where the stores hold the same jobs and no statement fails, Get and Cancel return the same from
  -- both, a job or an error, and after Cancel the stores hold the same jobs again.
  pub lookups-agree :
      (raw : Str)
      → (Pg.get urls no_faults raw rows ≡ Mem.get none raw m)
        × ((Pg.cancel urls no_faults raw rows).1 ≡ (Mem.cancel urls none raw m).1)
        × Agrees urls (Mem.cancel urls none raw m).0 (Pg.cancel urls no_faults raw rows).0
  lookups-agree raw = let (e, h) = cancel-Agrees raw in (get-agrees raw, e, h)

  module _ (task attempt tid aid : Str) (f : Found) (nt : normalize_id task ≡ some tid)
      (na : normalize_id attempt ≡ some aid) (finds : find_task tid m.by_id ≡ some f)
      (active : occupies f.job ≡ true) (alone : IsAlone m tid f.key) where
    write_of :
        (job : Job)
        → job.id ≡ f.job.id
        → IsConsistent urls job
        → Agrees urls (record m { by_id = put_job f.key job m.by_id }) (update_job job rows)
    write_of job e c =
        let at_key = (found_task urls m tid f s finds).0 in
        let (r, er, d) = row_of f.key f.job at_key in
        let own = find_job-All (λ e. e.1.id ≡ e.0) f.key f.job m.by_id s.own_key at_key in
        write-Agrees urls m rows r f.key job a er (e ∙ own) (consistent-decided urls job c)

    -- Heartbeat for a task of an active job, where no statement fails.
    heartbeat-Agrees :
        (worker : Str) (now : Time)
        → let p = Pg.heartbeat urls no_faults task attempt worker now rows in
          let q = Mem.heartbeat none task attempt worker now m in (p.1 ≡ q.1) × Agrees urls q.0 p.0
    unfolding Pg.heartbeat Mem.heartbeat after finish
    heartbeat-Agrees worker now =
        let sp = spot_of tid f finds active alone in
        elim (Result-cases (apply_heartbeat f.task aid worker now)) [
          | inr (e, h) ↦
              rw (nt, na, beat_ids, Mem.beat_ids)
                (rw (sp, finds, beat_spot, Mem.beat_found)
                  (rw (h, beat_spot, Mem.beat_found) (refl, a)))
          | inl (t, h) ↦
              let (at_key, at_task, id) = found_task urls m tid f s finds in
              let c =
                find_job-All (λ e. IsConsistent urls e.1) f.key f.job m.by_id s.consistent at_key in
              rw (nt, na, beat_ids, Mem.beat_ids)
                (rw (sp, finds, beat_spot, Mem.beat_found)
                  (rw (h, beat_spot, Mem.beat_found)
                    (
                      refl,
                      write_of (with_task f t) refl
                          (beat-IsConsistent f t at_task urls aid worker now h c),
                    )))
        ]

    -- Commit for a task of an active job, where no statement fails.
    commit-Agrees :
        (result : StepResult) (fail : Str)
        → let p = Pg.commit urls no_faults task attempt result fail rows in
          let q = Mem.commit urls none task attempt result fail m in
          (p.1 ≡ q.1) × Agrees urls q.0 p.0
    unfolding Pg.commit Mem.commit after finish
    commit-Agrees result fail =
        let sp = spot_of tid f finds active alone in
        elim (Result-cases (apply_commit f.task aid result fail)) [
          | inr (e, h) ↦
              rw (nt, na, commit_ids, Mem.commit_ids)
                (rw (sp, finds, commit_spot, Mem.commit_found)
                  (rw (h, commit_spot, Mem.commit_found) (refl, a)))
          | inl (t, h) ↦
              rw (nt, na, commit_ids, Mem.commit_ids)
                (rw (sp, finds, commit_spot, Mem.commit_found)
                  (rw (h, commit_spot, Mem.commit_found)
                    (
                      refl,
                      write_of (refresh_job urls (with_task f t))
                          (refresh_job-id urls (with_task f t))
                          (refresh_job-IsConsistent urls (with_task f t)),
                    )))
        ]

    -- Where the stores hold the same jobs and no statement fails, Heartbeat and Commit for a task of
    -- a pending or running job, alone in the store with its id, return the same from both, and the
    -- stores hold the same jobs again.
    pub attempts-agree :
        (worker : Str) (now : Time) (result : StepResult) (fail : Str)
        → let pb = Pg.heartbeat urls no_faults task attempt worker now rows in
          let qb = Mem.heartbeat none task attempt worker now m in
          let pc = Pg.commit urls no_faults task attempt result fail rows in
          let qc = Mem.commit urls none task attempt result fail m in
          ((pb.1 ≡ qb.1) × Agrees urls qb.0 pb.0) × ((pc.1 ≡ qc.1) × Agrees urls qc.0 pc.0)
    attempts-agree worker now result fail = (heartbeat-Agrees worker now, commit-Agrees result fail)
