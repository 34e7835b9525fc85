-- ===== src/Jobs/Memory/Declared.antt =====
-- internal/jobs/enqueue.go and earned.go: jobs whose revisions their caller declares.
use aquila.Base.{
  ◌≡◌, refl, sym, ap, ◌∙◌, Str, true, false, ◌||◌, inl, inr, some, [], ◌∷◌, any, arith, Bool-cases,
  str_eq, str_eq-false,
}
use aquila.Url.{UrlPackage}
use aquila.Gitrev.{source_built, source_declared}
use aquila.Validate.Decide.{decide}
use aquila.Validate.Decide.Policy.{IsBuilt, Policy}
use aquila.Validate.Decide.Validated.{decide-validated}
use aquila.Jobs.{Time, Job, ok}
use aquila.Jobs.Attempt.{is_expired}
use aquila.Jobs.Lifecycle.{
  refresh_job, apply_cancel, expire_job, decision_input, job_decision, is_over, is_overdue,
}
use aquila.Jobs.Lifecycle.Consistent.{IsConsistent}
use aquila.Jobs.Quota.{Quota}
use aquila.Jobs.Create.{CreateOpts, draft_job, build_job}
use aquila.Jobs.Create.Built.{built}
use aquila.Jobs.Memory.{
  Memory, Table, find_job, put_job, with_task, expire_table, expire_all, insert_new, leased_job,
  new_memory,
}
use aquila.Jobs.Memory.Effects.{
  Effect, unchanged, expires, inserts, claims, beats, commits, cancels, Reach, here, next,
  Step-Effect,
}
use aquila.Jobs.Memory.Tables.{Entries, put_job-All, find_job-All}
use aquila.Jobs.Memory.Invariant.{IsStore, expire_all-IsStore, found_task, claimed}
use aquila.Jobs.Memory.History.{Reach-IsStore}

abbrev IsDeclared : Job → Type 0
IsDeclared j = j.baseline_rev.source ≡ source_declared

abbrev AllDeclared : Table → Type 0
AllDeclared = Entries (λ e. IsDeclared e.1)

decided_by :
    (urls : UrlPackage) (j : Job)
    → (job_decision urls j).validated ≡ true
    → (decide urls (decision_input j)).validated ≡ true
unfolding job_decision
decided_by urls j h = ground arith

input-IsBuilt :
    (urls : UrlPackage) (j : Job) → Policy urls (decision_input j) → IsBuilt j.baseline_rev
unfolding decision_input
input-IsBuilt urls j p = p.baseline_built

module _ (urls : UrlPackage) where
  refresh_job-rev : (j : Job) → (refresh_job urls j).baseline_rev ≡ j.baseline_rev
  unfolding refresh_job
  refresh_job-rev j = refl

  apply_cancel-rev : (j : Job) → (apply_cancel urls j).baseline_rev ≡ j.baseline_rev
  unfolding apply_cancel
  apply_cancel-rev j = elim (Bool-cases (j.canceled || is_over j.status)) [
    | inl y ↦ rw y
    | inr n ↦ rw n refl
  ]

  expire_job-rev : (now : Time) (j : Job) → (expire_job urls now j).0.baseline_rev ≡ j.baseline_rev
  unfolding expire_job
  expire_job-rev now j = elim (Bool-cases (is_overdue now j)) [
    | inl y ↦ rw y refl
    | inr n ↦ elim (Bool-cases (any (is_expired now) j.tasks)) [
      | inl y ↦ rw (n, y) refl
      | inr m ↦ rw (n, m)
    ]
  ]

  build_job-IsDeclared :
      (id : Str) (now : Time) (opts : CreateOpts) (j : Job)
      → build_job urls id now opts ≡ ok j
      → IsDeclared j
  unfolding draft_job refresh_job
  build_job-IsDeclared id now opts j e =
      ap (λ (x : Job). x.baseline_rev.source) (built urls id now opts j e)

  expire_table-AllDeclared :
      (now : Time) (ts : Table) → AllDeclared ts → AllDeclared (expire_table urls now ts).0
  unfolding expire_table
  expire_table-AllDeclared now [] h = tt
  expire_table-AllDeclared now ((k, j) ∷ ts) h =
      (ap (λ r. r.source) (expire_job-rev now j) ∙ h.0, expire_table-AllDeclared now ts h.1)

  expire_all-AllDeclared :
      (now : Time) (m : Memory) → AllDeclared m.by_id → AllDeclared (expire_all urls now m).by_id
  unfolding expire_all
  expire_all-AllDeclared now m h = expire_table-AllDeclared now m.by_id h

  put_same :
      (id : Str) (j k : Job) (ts : Table)
      → find_job id ts ≡ some j
      → k.baseline_rev ≡ j.baseline_rev
      → AllDeclared ts
      → AllDeclared (put_job id k ts)
  put_same id j k ts e r h =
      put_job-All (λ e. IsDeclared e.1) id k ts h
        (ap (λ r. r.source) r ∙ find_job-All (λ e. IsDeclared e.1) id j ts h e)

  Effect-AllDeclared :
      (m n : Memory) → Effect urls m n → IsStore urls m → AllDeclared m.by_id → AllDeclared n.by_id
  unfolding insert_new leased_job
  Effect-AllDeclared m n (unchanged e) s h = rw e h
  Effect-AllDeclared m n (expires now e) s h = rw e (expire_all-AllDeclared now m h)
  Effect-AllDeclared m n (inserts now started fresh opts job new b g o e) s h = rw e (
      put_job-All (λ e. IsDeclared e.1) job.id job (expire_all urls now m).by_id
        (expire_all-AllDeclared now m h) (build_job-IsDeclared fresh started opts job b))
  Effect-AllDeclared m n (claims now w fresh want c j t l p g k e) s h =
      let x = expire_all urls now m in
      let (f, live, ready) = claimed urls x want c j t (expire_all-IsStore urls now m s) p g k in
      rw e (
        put_same j.id j (leased_job w fresh now j c.task t) x.by_id f refl
          (expire_all-AllDeclared now m h))
  Effect-AllDeclared m n (beats tid aid worker now f t i a e) s h =
      rw e (put_same f.key f.job (with_task f t) m.by_id (found_task urls m tid f s i).0 refl h)
  Effect-AllDeclared m n (commits tid aid result fail f t i a e) s h = rw e (
      put_same f.key f.job (refresh_job urls (with_task f t)) m.by_id
        (found_task urls m tid f s i).0 (refresh_job-rev (with_task f t)) h)
  Effect-AllDeclared m n (cancels id j i e) s h =
      rw e (put_same id j (apply_cancel urls j) m.by_id i (apply_cancel-rev j) h)

  reached-AllDeclared : (q : Quota) {n : Memory} → Reach urls (new_memory q) n → AllDeclared n.by_id
  reached-AllDeclared q here = tt
  reached-AllDeclared q (next {n = m} {k = n} r st) =
      Effect-AllDeclared m n (Step-Effect urls m n st) (Reach-IsStore urls q m r)
        (reached-AllDeclared q r)

  declared_not_built : (str_eq source_declared source_built) ≡ false
  unfolding str_eq
  declared_not_built = refl

  not_decided : (j : Job) → IsDeclared j → (job_decision urls j).validated ≡ false
  not_decided j d = elim (Bool-cases (job_decision urls j).validated) [
    | inr n ↦ n
    | inl y ↦
        let p = (decide-validated urls (decision_input j)).0 (decided_by urls j y) in
        let b : source_declared ≡ source_built = sym d ∙ (input-IsBuilt urls j p).from_build in
        absurd ((str_eq-false source_declared source_built).0 declared_not_built b)
  ]

  -- No calls of the in-memory store make a job validated: buildJob marks the revisions that its
  -- caller declares as declared, and the policy takes only revisions read from the build.
  pub never_validated :
      (q : Quota) (n : Memory) (id : Str) (j : Job)
      → Reach urls (new_memory q) n
      → find_job id n.by_id ≡ some j
      → j.validated ≡ false
  never_validated q n id j r f =
      let s = Reach-IsStore urls q n r in
      let o = find_job-All (λ e. IsConsistent urls e.1) id j n.by_id s.consistent f in
      let d = find_job-All (λ e. IsDeclared e.1) id j n.by_id (reached-AllDeclared q r) f in
      o.decision ∙ not_decided j d
