-- ===== src/Jobs/Postgres/Calls/Leasing.antt =====
-- internal/jobs/postgres.go: what Lease grants.
use aquila.Base.{
  ℕ, zero, suc, ◌+◌, any, length, set, get-map, ◌+ℤ◌, wrap_64, ◌≡◌, ◌∷◌, [], refl, sym, ap, ◌∙◌,
  Str, true, false, inl, inr, Option, none, some, List, get_elem?, arith, Bool-cases, Option-cases,
  is_empty, trim_space, pos, leb_ℤ, if◌then◌else◌,
}
use mathlib.Core.Path.{subst}
use aquila.Url.{UrlPackage}
use aquila.Jobs.{Time, TaskState, Task, Job, lease_ttl, Result, ok, err, at_capacity, no_ready}
use aquila.Jobs.Dag.{state_by_plan, settle_task, settle_round, settle_rounds, settle, moves}
use aquila.Jobs.Attempt.{lease_task}
use aquila.Jobs.Lifecycle.{decided, refresh_job}
use aquila.Jobs.Quota.{
  Quota, Choice, normalized, leased_of, count_leased, is_open, is_free, pick_ready,
}
use aquila.Jobs.Quota.Pick.{pick_ready-IsSound}
use aquila.Jobs.Create.{normalize_id}
use aquila.Jobs.Memory.{Worker, Lease, slots_of}
use aquila.Jobs.Memory.Places.{get-set}
use aquila.Jobs.Postgres.{
  Rows, Faults, CommitFault, after, finish, update_job, lock_jobs, expire_tx,
}
use aquila.Jobs.Postgres.Calls.{leased_job, grant_task, grant, lease_rows, lease_want, lease}

after-ok :
    {A : Type 0} (faults : List (Option Str)) (rows : Rows) (next : Rows × Result A) (a : A)
    → (after faults rows next).1 ≡ ok a
    → after faults rows next ≡ next
unfolding after
after-ok [] rows next a e = refl
after-ok (none ∷ faults) rows next a e = after-ok faults rows next a e
after-ok (some x ∷ faults) rows next a e = absurd (ground arith)

value_or : {A : Type 0} → A → Result A → A
value_or d (ok a) = a
value_or d (err e) = d

ok-injective : {A : Type 0} {a b : A} → ok a ≡ ok b → a ≡ b
unfolding value_or
ok-injective {A} {a} h = ap (value_or a) h

finish-ok :
    {A : Type 0} (c : Option CommitFault) (rows : Rows) (next : Rows × Result A) (a : A)
    → (finish c rows next).1 ≡ ok a
    → finish c rows next ≡ next
unfolding finish
finish-ok none rows next a e = refl
finish-ok (some c) rows next a e = absurd (ground arith)

-- A write and a Commit that both pass.
write-ok :
    {A : Type 0} (faults : List (Option Str)) (c : Option CommitFault) (rows : Rows)
    (next : Rows × Result A) (a : A)
    → (after faults rows (finish c rows next)).1 ≡ ok a
    → after faults rows (finish c rows next) ≡ next
write-ok faults c rows next a e =
    let q = after-ok faults rows (finish c rows next) a e in
    q ∙ finish-ok c rows next a (ap (λ p. p.1) (sym q) ∙ e)

-- The job that Lease asks pickReady for: none, or the worker's.
abbrev wanted : Worker → Option Str
wanted w = if is_empty (trim_space w.job_id) then some [] else normalize_id w.job_id

-- The task of a lease: that of the table, now held by the worker under a fresh attempt and the next
-- fence, for the span of a lease; and the fields of the lease are the task's.
pub record Hands (w : Worker) (fresh : Str) (now : Time) (task : Task) (l : Lease) : Type 0 where
  pub same_id : l.task.id ≡ task.id
  pub same_step : l.task.plan_id ≡ task.plan_id
  pub leased : l.task.state ≡ TaskState.leased
  pub held : l.task.worker_id ≡ w.id
  pub new_attempt : l.task.attempt_id ≡ fresh
  pub next_fence : l.task.fence ≡ wrap_64 (task.fence +ℤ pos 1)
  pub until : l.task.lease_until ≡ now + lease_ttl
  pub attempt : l.attempt ≡ fresh
  pub fence : l.fence ≡ l.task.fence
  pub n : l.n ≡ task.n

-- A grant: after the expiry, the worker was below its slots, and the task stood free in a locked
-- job that is open to it. The lease holds that task and that job with the task leased in its place,
-- and the table then holds this job.
pub record Grants (urls : UrlPackage) (q : Quota) (w : Worker) (fresh : Str) (now : Time)
    (l : Lease) (rows after_call : Rows) : Type 0 where
  pub want : Str
  pub asked : wanted w ≡ some want
  pub choice : Choice
  pub job : Job
  pub task : Task
  pub room :
      leb_ℤ (slots_of w) (pos (count_leased (lock_jobs urls (expire_tx urls now rows)) w.id))
      ≡ false
  pub listed : get_elem? (lock_jobs urls (expire_tx urls now rows)) choice.job ≡ some job
  pub placed : get_elem? job.tasks choice.task ≡ some task
  pub opened :
      is_open want
        (normalized q)
        (leased_of job.service (lock_jobs urls (expire_tx urls now rows)))
        job
      ≡ true
  pub free : is_free task ≡ true
  pub hands : Hands w fresh now task l
  pub leased_job : l.job ≡ leased_job urls w fresh now job choice.task task
  pub leased_place : get_elem? l.job.tasks choice.task ≡ some l.task
  pub table : after_call ≡ update_job l.job (expire_tx urls now rows)

-- settle leaves a leased task as it is, in its place.
settle_task-leased :
    (by : Str → Option TaskState) (t : Task) → t.state ≡ TaskState.leased → settle_task by t ≡ t
unfolding settle_task
settle_task-leased by t e = elim (Bool-cases t.operator) [
  | inl o ↦ rw (o, e) refl
  | inr o ↦ rw (o, e) refl
]

settle_rounds-leased :
    (k : ℕ) (ts : List Task) (i : ℕ) (t : Task)
    → t.state ≡ TaskState.leased
    → get_elem? ts i ≡ some t
    → get_elem? (settle_rounds k ts) i ≡ some t
unfolding settle_rounds settle_round
settle_rounds-leased zero ts i t e g = g
settle_rounds-leased (suc k) ts i t e g =
    let by = state_by_plan ts in
    let here : get_elem? (settle_round ts) i ≡ some t =
      get-map (settle_task by) ts i t g ∙ ap some (settle_task-leased by t e) in
    elim (Bool-cases (any (moves by) ts)) [
      | inl b ↦ rw b (settle_rounds-leased k (settle_round ts) i t e here)
      | inr b ↦ rw b here
    ]

leased_job-task :
    (urls : UrlPackage) (w : Worker) (fresh : Str) (now : Time) (j : Job) (i : ℕ) (t : Task)
    → get_elem? j.tasks i ≡ some t
    → get_elem? (leased_job urls w fresh now j i t).tasks i ≡ some (lease_task w.id fresh now t)
unfolding leased_job refresh_job decided settle lease_task
leased_job-task urls w fresh now j i t g =
    let u = lease_task w.id fresh now t in
    let ts = set j.tasks i u in
    settle_rounds-leased (length ts) ts i u refl (get-set j.tasks i t u g)

lease_task-Hands :
    (w : Worker) (fresh : Str) (now : Time) (t : Task) (j : Job)
    → let u = lease_task w.id fresh now t in
      Hands w fresh now t
        (record { job = j; task = u; n = u.n; fence = u.fence; attempt = u.attempt_id })
unfolding lease_task
lease_task-Hands w fresh now t j = record {
  same_id = refl;
  same_step = refl;
  leased = refl;
  held = refl;
  new_attempt = refl;
  next_fence = refl;
  until = refl;
  attempt = refl;
  fence = refl;
  n = refl;
}

module _ (urls : UrlPackage) (q : Quota) (f : Faults) (w : Worker) (fresh : Str) (now : Time)
    (rows : Rows) (l : Lease) where
  grant_task-ok :
      (live : Rows) (j : Job) (i : ℕ) (t : Task)
      → get_elem? j.tasks i ≡ some t
      → (grant_task urls f w fresh now rows live j i t).1 ≡ ok l
      → let job = leased_job urls w fresh now j i t in
        let u = lease_task w.id fresh now t in
        ((grant_task urls f w fresh now rows live j i t).0 ≡ update_job job live)
        × (record { job = job; task = u; n = u.n; fence = u.fence; attempt = u.attempt_id } ≡ l)
  unfolding grant_task
  grant_task-ok live j i t g e =
      let put = leased_job-task urls w fresh now j i t g in
      let e' = rw put at e in
      let q = write-ok (f.write ∷ []) f.commit rows _ l e' in
      (rw put (ap (λ p. p.0) q), ok-injective (sym (ap (λ p. p.1) q) ∙ e'))

  Grants-rows :
      (want : Str)
      → wanted w ≡ some want
      → (lease_rows urls q f w want fresh now rows (expire_tx urls now rows)).1 ≡ ok l
      → Grants urls q w fresh now l rows
          (lease_rows urls q f w want fresh now rows (expire_tx urls now rows)).0
  unfolding lease_rows grant
  Grants-rows want asked e =
      let live = expire_tx urls now rows in
      let js = lock_jobs urls live in
      elim (Bool-cases (leb_ℤ (slots_of w) (pos (count_leased js w.id)))) [
        | inl b ↦ absurd (
            let z = finish-ok f.commit rows (live, err at_capacity) l (rw b at e) in
            let y = ap (λ (p : Rows × Result Lease). p.1) z in
            let x = sym y ∙ (rw b at e) in ground arith)
        | inr b ↦ elim (Option-cases (pick_ready js want q)) [
          | inl n ↦ absurd (
              let e' = rw (b, n, lease_rows) at e in
              let z = finish-ok f.commit rows (live, err no_ready) l e' in
              let y = ap (λ (p : Rows × Result Lease). p.1) z in let x = sym y ∙ e' in ground arith)
          | inr (c, n) ↦
              let (j, t, g, h, open_j, free_t, load) = pick_ready-IsSound js want q c n in
              let e' : (grant_task urls f w fresh now rows live j c.task t).1 ≡ ok l =
                rw (b, n, lease_rows, g, grant, h, grant) at e in
              let (left, at_l) = grant_task-ok live j c.task t h e' in
              let hands = subst (Hands w fresh now t) at_l (lease_task-Hands w fresh now t _) in
              let same_job = sym (ap (λ (x : Lease). x.job) at_l) in
              let there =
                subst (λ (x : Lease). get_elem? x.job.tasks c.task ≡ some x.task) at_l
                  (leased_job-task urls w fresh now j c.task t h) in
              rw (b, n, lease_rows)
                (rw (g, grant)
                  (rw (h, grant)
                    (record {
                      want = want;
                      asked = asked;
                      choice = c;
                      job = j;
                      task = t;
                      room = b;
                      listed = g;
                      placed = h;
                      opened = rw (sym load) open_j;
                      free = free_t;
                      hands = hands;
                      leased_job = same_job;
                      leased_place = there;
                      table = left ∙ ap (λ (x : Job). update_job x live) (sym same_job);
                    })))
        ]
      ]

  -- A lease that the table's store grants is of a free task of a pending or running job that is
  -- open to the worker, who was below its slots, all once leases have run out. The lease holds that
  -- task, leased to the worker under a fresh attempt and the next fence, and its job; and all that
  -- the call writes besides the expiry is this job.
  pub lease-Grants :
      (lease urls q f w fresh now rows).1 ≡ ok l
      → Grants urls q w fresh now l rows (lease urls q f w fresh now rows).0
  unfolding lease lease_want
  lease-Grants e = elim (Bool-cases (is_empty (trim_space w.id))) [
    | inl b ↦ absurd (let z = rw b at e in ground arith)
    | inr b ↦ elim (Option-cases (wanted w)) [
      | inl n ↦ absurd (let z = rw (b, n, lease_want) at e in ground arith)
      | inr (want, n) ↦
          let fs = f.begin ∷ f.expire_read ∷ f.expire_write ∷ f.read ∷ [] in
          let next = lease_rows urls q f w want fresh now rows (expire_tx urls now rows) in
          let e' : (after fs rows next).1 ≡ ok l = rw (b, n, lease_want) at e in
          let same : after fs rows next ≡ next = after-ok fs rows next l e' in
          let e'' : next.1 ≡ ok l = ap (λ (p : Rows × Result Lease). p.1) (sym same) ∙ e' in
          rw (b, n, lease_want) (rw same (Grants-rows want n e''))
    ]
  ]
