-- ===== src/Jobs/Memory/Expiry.antt =====
-- internal/jobs/memory.go: a lease that has run out, and the pass over the store that follows.
use mathlib.Core.Path.{subst}
use mathlib.Core.Option.{some-injective}
use aquila.Base.{
  ℕ, ◌≡◌, refl, sym, ap, ◌∙◌, Str, Bool, true, false, inl, inr, none, some, [], ◌∷◌, map, get_elem?,
  arith, Bool-cases, str_eq, any-get, get-map,
}
use aquila.Url.{UrlPackage}
use aquila.Plan.{StepResult}
use aquila.Jobs.{Time, TaskState, Task, Job, not_leased, err, state_eq}
use aquila.Jobs.Dag.Settle.{is_pending, settle_kept}
use aquila.Jobs.Attempt.{is_expired, requeue}
use aquila.Jobs.Lifecycle.{refresh_job, expire_task, fail_deadline, expire_job, is_overdue}
use aquila.Jobs.Create.{normalize_id}
use aquila.Jobs.Memory.{
  Memory, Table, Found, find_job, find_task, expire_table, expire_all, requeue_expired, commit,
}
use aquila.Jobs.Memory.Effects.{Step, requeues, here, next}
use aquila.Jobs.Memory.Invariant.{IsStore, found_task}
use aquila.Jobs.Memory.History.{Reach-Extends, Step-IsStore}
use aquila.Jobs.Memory.Places.{find_task-Moved}
use aquila.Jobs.Memory.Fencing.{commit_not_leased}

requeued_state :
    (now : Time) (c : Bool) (t : Task)
    → is_expired now t ≡ true
    → ((state_eq (requeue now c t).state TaskState.leased) ≡ false)
      × (is_pending (requeue now c t) ≡ false)
unfolding requeue
requeued_state now c t h = ground arith

expired_state :
    (now : Time) (t : Task)
    → is_expired now t ≡ true
    → state_eq (expire_task t).state TaskState.leased ≡ false
unfolding expire_task
expired_state now t h = ground arith

module _ (urls : UrlPackage) (now : Time) where
  -- A pass over a job leaves no task leased whose lease has run out.
  revoked :
      (j : Job) (i : ℕ) (t u : Task)
      → get_elem? j.tasks i ≡ some t
      → is_expired now t ≡ true
      → get_elem? (expire_job urls now j).0.tasks i ≡ some u
      → state_eq u.state TaskState.leased ≡ false
  unfolding expire_job fail_deadline refresh_job
  revoked j i t u e h g = elim (Bool-cases (is_overdue now j)) [
    | inl o ↦
        let here = get-map expire_task j.tasks i t e in
        let eu : expire_task t ≡ u = some-injective _ _ (sym here ∙ (rw o at g)) in
        subst (λ (x : Task). state_eq x.state TaskState.leased ≡ false) eu (expired_state now t h)
    | inr o ↦
        let some_x = any-get (is_expired now) j.tasks i t e h in
        let r = requeued_state now j.canceled t h in
        let here =
          settle_kept (map (requeue now j.canceled) j.tasks) i (requeue now j.canceled t)
            (get-map (requeue now j.canceled) j.tasks i t e) r.1 in
        let eu : requeue now j.canceled t ≡ u =
          some-injective _ _ (sym here ∙ (rw (o, some_x) at g)) in
        subst (λ (x : Task). state_eq x.state TaskState.leased ≡ false) eu r.0
  ]

  pub find-expired :
      (id : Str) (j : Job) (ts : Table)
      → find_job id ts ≡ some j
      → find_job id (expire_table urls now ts).0 ≡ some (expire_job urls now j).0
  unfolding find_job expire_table
  find-expired id j [] e = absurd (ground arith)
  find-expired id j ((k, x) ∷ ts) e = elim (Bool-cases (str_eq k id)) [
    | inl q ↦
        let ex : x ≡ j = ground arith in rw q (ap (λ (y : Job). some (expire_job urls now y).0) ex)
    | inr q ↦ rw q (find-expired id j ts (ground arith))
  ]

-- Once a lease has run out and RequeueExpired has passed over the store, no attempt commits the
-- task, the one that held it included: every commit is refused as not leased and changes nothing.
pub commit_expired :
    (urls : UrlPackage) (m : Memory) (now : Time) (task attempt tid aid : Str) (r : StepResult)
    (fail : Str) (f : Found)
    → IsStore urls m
    → normalize_id task ≡ some tid
    → normalize_id attempt ≡ some aid
    → find_task tid m.by_id ≡ some f
    → is_expired now f.task ≡ true
    → let n = (requeue_expired urls none now m).0 in
      commit urls none task attempt r fail n ≡ (n, err not_leased)
unfolding requeue_expired expire_all
commit_expired urls m now task attempt tid aid r fail f s nt na h x =
    let n : Memory = (requeue_expired urls none now m).0 in
    let st : Step urls m n = requeues none now refl in
    let sn = Step-IsStore urls m n st s in
    let (g, fg, gk, gi, gm) =
      find_task-Moved tid m.by_id n.by_id f (Reach-Extends urls m (next here st) s) h in
    let (f_key, f_task, f_id) = found_task urls m tid f s h in
    let (g_key, g_task, g_id) = found_task urls n tid g sn fg in
    let ej : g.job ≡ (expire_job urls now f.job).0 = some-injective _ _ (
      sym g_key
      ∙ ap (λ (k : Str). find_job k n.by_id) gk
      ∙ find-expired urls now f.key f.job m.by_id f_key) in
    let placed : get_elem? (expire_job urls now f.job).0.tasks f.index ≡ some g.task =
      subst (λ (i : ℕ). get_elem? (expire_job urls now f.job).0.tasks i ≡ some g.task) gi
        (subst (λ (j : Job). get_elem? j.tasks g.index ≡ some g.task) ej g_task) in
    commit_not_leased urls n task attempt tid aid r fail g nt na fg
      (revoked urls now f.job f.index f.task g.task f_task x placed)
