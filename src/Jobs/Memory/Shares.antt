-- ===== src/Jobs/Memory/Shares.antt =====
-- internal/jobs/quota.go: the leases that the jobs of a service hold.
use mathlib.Core.Path.{subst}
use aquila.Base.{
  ℕ, ◌+◌, ◌≤◌, ◌≡◌, refl, sym, ap, ◌∙◌, Str, true, false, inl, inr, some, [], ◌∷◌, ◌++◌, get_elem?,
  if◌then◌else◌, arith, Bool-cases, str_eq, str_eq→eq, ℤ, pos, negsuc, leb_ℤ, pos_part,
}
use mathlib.Core.Option.{some-injective}
use aquila.Url.{UrlPackage}
use aquila.Jobs.{Time, TaskState, Task, Job, state_eq}
use aquila.Jobs.Attempt.{lease_task}
use aquila.Jobs.Lifecycle.{refresh_job, apply_cancel}
use aquila.Jobs.Lifecycle.Moves.{expire_job-JobMoved, refresh_job-JobMoved, apply_cancel-JobMoved}
use aquila.Jobs.Quota.{Quota, Choice, normalized, leased_of, pick_ready}
use aquila.Jobs.Quota.Pick.{pick_ready-IsSound}
use aquila.Jobs.Memory.{
  Memory, Table, Worker, find_job, put_job, jobs, with_task, expire_table, expire_all, insert_new,
  leased_job, new_memory,
}
use aquila.Jobs.Memory.Effects.{
  Effect, unchanged, expires, inserts, claims, beats, commits, cancels, Reach, here, next,
  Step-Effect,
}
use aquila.Jobs.Memory.Tables.{values, put_job-new}
use aquila.Jobs.Memory.Invariant.{IsStore, expire_all-IsStore, found_task, claimed, inserted_new}
use aquila.Jobs.Memory.History.{Reach-IsStore}
use aquila.Jobs.Memory.Follows.{jobs-values, Effect-quota}
use aquila.Jobs.Memory.Held.{
  held, held-set, held-refresh_job, held-apply_cancel, held-expire_job, held-build_job,
  leased-apply_commit, leased-apply_heartbeat,
}

abbrev pub cap_of : Quota → ℕ
cap_of q = pos_part (normalized q).leased_tasks

below_share : (cap : ℤ) (load : ℕ) → leb_ℤ cap (pos load) ≡ false → load + 1 ≤ pos_part cap
below_share (pos n) load h = ground arith
below_share (negsuc n) load h = ground arith

held-leased_job :
    (w : Worker) (fresh : Str) (now : Time) (j : Job) (i : ℕ) (t : Task)
    → get_elem? j.tasks i ≡ some t
    → state_eq t.state TaskState.ready ≡ true
    → ((leased_job w fresh now j i t).service ≡ j.service)
      × (held (leased_job w fresh now j i t).tasks ≡ held j.tasks + 1)
unfolding leased_job lease_task
held-leased_job w fresh now j i t g r =
    let s = held-set j.tasks i t (lease_task w.id fresh now t) g in (refl, ground arith)

module _ (service : Str) where
  -- What a job adds to the leases of the service.
  abbrev share_of : Job → ℕ
  share_of j = if str_eq j.service service then held j.tasks else 0

  abbrev total : Table → ℕ
  total ts = leased_of service (values ts)

  total-put :
      (id : Str) (j k : Job) (ts : Table)
      → find_job id ts ≡ some j
      → total (put_job id k ts) + share_of j ≡ total ts + share_of k
  unfolding put_job find_job leased_of
  total-put id j k [] e = absurd (ground arith)
  total-put id j k ((x, y) ∷ ts) e = elim (Bool-cases (str_eq x id)) [
    | inl q ↦ let ey : y ≡ j = ground arith in rw (q, ey) (omega arith)
    | inr q ↦ let ih = total-put id j k ts (ground arith) in rw q (omega (arith, ih))
  ]

  total-lighter :
      (id : Str) (j k : Job) (ts : Table)
      → find_job id ts ≡ some j
      → k.service ≡ j.service
      → held k.tasks ≤ held j.tasks
      → total (put_job id k ts) ≤ total ts
  total-lighter id j k ts e s h =
      let t = total-put id j k ts e in
      let d : share_of k ≤ share_of j = rw s (ground arith) in omega (arith, t, d)

  total-append :
      (ts : Table) (id : Str) (j : Job) → held j.tasks ≡ 0 → total (ts ++ (id, j) ∷ []) ≡ total ts
  unfolding leased_of
  total-append [] id j z = rw z (ground arith)
  total-append (e ∷ ts) id j z = rw (total-append ts id j z)

  module _ (urls : UrlPackage) where
    total-expired : (now : Time) (ts : Table) → total (expire_table urls now ts).0 ≤ total ts
    unfolding expire_table leased_of
    total-expired now [] = omega arith
    total-expired now ((k, j) ∷ ts) =
        let ih = total-expired now ts in
        let h = held-expire_job urls now j in
        let s = (expire_job-JobMoved urls now j).same_service in rw s (ground arith)

    abbrev Within : Memory → Type 0
    Within m = total m.by_id ≤ cap_of m.quota

    claim-Within :
        (x : Memory) (w : Worker) (fresh want : Str) (now : Time) (c : Choice) (j : Job) (t : Task)
        → IsStore urls x
        → pick_ready (jobs x) want x.quota ≡ some c
        → get_elem? (jobs x) c.job ≡ some j
        → get_elem? j.tasks c.task ≡ some t
        → Within x
        → total (put_job j.id (leased_job w fresh now j c.task t) x.by_id) ≤ cap_of x.quota
    claim-Within x w fresh want now c j t s p g k h =
        let (f, live, ready) = claimed urls x want c j t s p g k in
        let (j', t', g', k', open_j, free_t, load) = pick_ready-IsSound (jobs x) want x.quota c p in
        let ej : j' ≡ j = some-injective _ _ (sym g' ∙ g) in
        let el : c.load ≡ leased_of j.service (values x.by_id) =
          load
          ∙ ap (λ (y : Job). leased_of y.service (jobs x)) ej
          ∙ ap (leased_of j.service) (jobs-values urls x s) in
        let room = below_share (normalized x.quota).leased_tasks c.load (ground arith) in
        let put = total-put j.id j (leased_job w fresh now j c.task t) x.by_id f in
        let (same, more) = held-leased_job w fresh now j c.task t k ready in
        elim (Bool-cases (str_eq j.service service)) [
          | inr n ↦
              let sj : share_of j ≡ 0 = rw n in
              let sk : share_of (leased_job w fresh now j c.task t) ≡ 0 = rw (same, n) in
              omega (arith, h, put, sj, sk)
          | inl y ↦
              let e = str_eq→eq j.service service y in
              let room' : leased_of service (values x.by_id) + 1 ≤ cap_of x.quota =
                subst (λ z. leased_of z (values x.by_id) + 1 ≤ cap_of x.quota) e
                  (subst (λ z. z + 1 ≤ cap_of x.quota) el room) in
              let sj : share_of j ≡ held j.tasks = rw y in
              let sk : share_of (leased_job w fresh now j c.task t)
                  ≡ held (leased_job w fresh now j c.task t).tasks =
                rw (same, y) in
              omega (arith, room', more, put, sj, sk)
        ]

    all_lighter :
        (x : Memory) (id : Str) (j k : Job)
        → find_job id x.by_id ≡ some j
        → k.service ≡ j.service
        → held k.tasks ≤ held j.tasks
        → Within x
        → total (put_job id k x.by_id) ≤ cap_of x.quota
    all_lighter x id j k e s h w = omega (arith, total-lighter id j k x.by_id e s h, w)

    expired-Within : (now : Time) (m : Memory) → Within m → Within (expire_all urls now m)
    unfolding expire_all
    expired-Within now m h = omega (arith, total-expired now m.by_id, h)

    Effect-Within : (m n : Memory) → Effect urls m n → IsStore urls m → Within m → Within n
    unfolding insert_new
    Effect-Within m n (unchanged e) s h = rw e h
    Effect-Within m n (expires now e) s h = rw e (expired-Within now m h)
    Effect-Within m n (inserts now started fresh opts job new b g o e) s h =
        let x = expire_all urls now m in
        let absent = inserted_new urls m now started fresh opts job new b in
        let z = held-build_job urls fresh started opts job b in
        rw e (
          rw (put_job-new job.id job x.by_id absent)
            (rw (total-append x.by_id job.id job z) (expired-Within now m h)))
    Effect-Within m n (claims now w fresh want c j t l p g k e) s h =
        let x = expire_all urls now m in
        rw e (
          claim-Within x w fresh want now c j t (expire_all-IsStore urls now m s) p g k
            (expired-Within now m h))
    Effect-Within m n (beats tid aid worker now f t i a e) s h =
        let (at_key, at_task, same) = found_task urls m tid f s i in
        let moved = held-set f.job.tasks f.index f.task t at_task in
        let (before, after) = leased-apply_heartbeat f.task t aid worker now a in
        rw e (all_lighter m f.key f.job (with_task f t) at_key refl (ground arith) h)
    Effect-Within m n (commits tid aid result fail f t i a e) s h =
        let (at_key, at_task, same) = found_task urls m tid f s i in
        let moved = held-set f.job.tasks f.index f.task t at_task in
        let (before, after) = leased-apply_commit f.task t aid result fail a in
        let r = held-refresh_job urls (with_task f t) in
        rw e (
          all_lighter m f.key f.job (refresh_job urls (with_task f t)) at_key
            (refresh_job-JobMoved urls (with_task f t)).same_service (ground arith) h)
    Effect-Within m n (cancels id j i e) s h = rw e (
        all_lighter m id j (apply_cancel urls j) i (apply_cancel-JobMoved urls j).same_service
          (held-apply_cancel urls j) h)

    reached-Within :
        (q : Quota) {n : Memory} → Reach urls (new_memory q) n → Within n × (n.quota ≡ q)
    unfolding leased_of
    reached-Within q here = (omega arith, refl)
    reached-Within q (next {n = m} {k = n} r st) =
        let (h, e) = reached-Within q r in
        let step = Step-Effect urls m n st in
        (Effect-Within m n step (Reach-IsStore urls q m r) h, Effect-quota urls m n step ∙ e)

-- In every store that calls reach from a new one, the jobs of a service hold no more leased tasks
-- together than its share, which is the configured limit, or 2 where that is not positive.
pub leases_within :
    (urls : UrlPackage) (service : Str) (q : Quota) (n : Memory)
    → Reach urls (new_memory q) n
    → leased_of service (jobs n) ≤ cap_of q
leases_within urls service q n r =
    let (h, e) = reached-Within service urls q r in
    let s = Reach-IsStore urls q n r in
    subst (λ c. leased_of service (jobs n) ≤ cap_of c) e
      (subst (λ js. leased_of service js ≤ cap_of n.quota) (sym (jobs-values urls n s)) h)
