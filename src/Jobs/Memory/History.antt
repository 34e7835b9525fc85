-- ===== src/Jobs/Memory/History.antt =====
-- internal/jobs/memory.go: what any sequence of calls keeps.
use mathlib.Core.Path.{subst}
use aquila.Base.{
  ℕ, zero, suc, ◌≡◌, refl, ◌∙◌, Str, true, inl, inr, some, List, [], ◌∷◌, get_elem?, arith,
  Bool-cases, str_eq,
}
use aquila.Url.{UrlPackage}
use aquila.Jobs.{Task, Job}
use aquila.Jobs.Lifecycle.{refresh_job, apply_cancel}
use aquila.Jobs.Lifecycle.Moves.{Moved, AllMoved, JobMoved, JobMoved-trans, apply_cancel-JobMoved}
use aquila.Jobs.Lifecycle.States.{is_final, final_stays}
use aquila.Jobs.Quota.{Quota}
use aquila.Jobs.Memory.{Memory, Table, find_job, with_task, expire_all, new_memory, leased_job}
use aquila.Jobs.Memory.Effects.{
  Effect, unchanged, expires, inserts, claims, beats, commits, cancels, Step, Reach, here, next,
  Step-Effect,
}
use aquila.Jobs.Memory.Updates.{leased_job-JobMoved, beat-JobMoved, commit-JobMoved}
use aquila.Jobs.Memory.Invariant.{
  Extends, Extends-refl, put_job-Extends, IsStore, expire_all-IsStore, found_task, claimed,
  expired-Extends, insert-Extends, inserted_new, Effect-IsStore,
}

Extends-trans : (ts us vs : Table) → Extends ts us → Extends us vs → Extends ts vs
Extends-trans [] us vs a b = tt
Extends-trans (e ∷ ts) [] vs a b = absurd a
Extends-trans (e ∷ ts) (f ∷ us) [] a b = absurd b
Extends-trans (e ∷ ts) (f ∷ us) (g ∷ vs) a b =
    (b.0 ∙ a.0, JobMoved-trans a.1 b.1, Extends-trans ts us vs a.2 b.2)

module _ (urls : UrlPackage) where
  pub Effect-Extends : (m n : Memory) → Effect urls m n → IsStore urls m → Extends m.by_id n.by_id
  Effect-Extends m n (unchanged e) s = rw e (Extends-refl m.by_id)
  Effect-Extends m n (expires now e) s = rw e (expired-Extends urls now m)
  Effect-Extends m n (inserts now started fresh opts job new b g o e) s =
      let x = expire_all urls now m in
      rw e (
        Extends-trans m.by_id x.by_id _ (expired-Extends urls now m)
          (insert-Extends urls x job (inserted_new urls m now started fresh opts job new b)))
  Effect-Extends m n (claims now w fresh want c j t l p g k e) s =
      let x = expire_all urls now m in
      let (f, live, ready) = claimed urls x want c j t (expire_all-IsStore urls now m s) p g k in
      rw e (
        Extends-trans m.by_id x.by_id _ (expired-Extends urls now m) (
          put_job-Extends j.id j (leased_job w fresh now j c.task t) x.by_id f
            (leased_job-JobMoved w fresh now j c.task t k ready)))
  Effect-Extends m n (beats tid aid worker now f t h a e) s =
      let (at_key, at_task, same) = found_task urls m tid f s h in
      rw e (
        put_job-Extends f.key f.job (with_task f t) m.by_id at_key
          (beat-JobMoved f t at_task aid worker now a))
  Effect-Extends m n (commits tid aid result fail f t h a e) s =
      let (at_key, at_task, same) = found_task urls m tid f s h in
      rw e (
        put_job-Extends f.key f.job (refresh_job urls (with_task f t)) m.by_id at_key
          (commit-JobMoved f t at_task urls aid result fail a))
  Effect-Extends m n (cancels id j h e) s =
      rw e (put_job-Extends id j (apply_cancel urls j) m.by_id h (apply_cancel-JobMoved urls j))

  pub Step-IsStore : (m n : Memory) → Step urls m n → IsStore urls m → IsStore urls n
  Step-IsStore m n st s = Effect-IsStore urls m n (Step-Effect urls m n st) s

  pub Reach-keeps : (m : Memory) {n : Memory} → Reach urls m n → IsStore urls m → IsStore urls n
  Reach-keeps m here s = s
  Reach-keeps m (next {n = n} {k = k} r st) s = Step-IsStore n k st (Reach-keeps m r s)

  pub new-IsStore : (q : Quota) → IsStore urls (new_memory q)
  new-IsStore q = record { consistent = tt; own_key = tt; listed = refl; distinct = tt }

  -- After any calls on a new store, whatever their arguments and errors: the jobs stand under their
  -- own ids, each id once and in the order of the list; each stored status is that of the job's
  -- tasks, or canceled; each stored decision is the one that the job as it stands has; and no task
  -- that may go on is left pending.
  pub Reach-IsStore : (q : Quota) (n : Memory) → Reach urls (new_memory q) n → IsStore urls n
  Reach-IsStore q n r = Reach-keeps (new_memory q) r (new-IsStore q)

  pub Reach-Extends :
      (m : Memory) {n : Memory} → Reach urls m n → IsStore urls m → Extends m.by_id n.by_id
  Reach-Extends m here s = Extends-refl m.by_id
  Reach-Extends m (next {n = n} {k = k} r st) s =
      Extends-trans m.by_id n.by_id k.by_id (Reach-Extends m r s)
        (Effect-Extends n k (Step-Effect urls n k st) (Reach-keeps m r s))

moved_job :
    (ts us : Table) (id : Str) (j : Job)
    → Extends ts us
    → find_job id ts ≡ some j
    → (k : Job) × (find_job id us ≡ some k) × JobMoved j k
unfolding find_job
moved_job [] us id j x e = absurd (ground arith)
moved_job ((a, y) ∷ ts) [] id j x e = absurd x
moved_job ((a, y) ∷ ts) ((b, z) ∷ us) id j x e = elim (Bool-cases (str_eq a id)) [
  | inl q ↦
      let ey : y ≡ j = ground arith in (z, rw (x.0, q), subst (λ (w : Job). JobMoved w z) ey x.1)
  | inr q ↦ let (k, f, m) = moved_job ts us id j x.2 (ground arith) in (k, rw (x.0, q) f, m)
]

Moved-task :
    (ts us : List Task) (i : ℕ) (t : Task)
    → AllMoved ts us
    → get_elem? ts i ≡ some t
    → (u : Task) × (get_elem? us i ≡ some u) × Moved t u
Moved-task [] us i t m e = absurd (ground arith)
Moved-task (x ∷ ts) [] i t m e = absurd m
Moved-task (x ∷ ts) (y ∷ us) zero t m e = (y, refl, subst (λ (z : Task). Moved z y) (cc) m.0)
Moved-task (x ∷ ts) (y ∷ us) (suc i) t m e = Moved-task ts us i t m.1 e

-- A task that has succeeded, failed or been skipped stays so, whatever calls follow: its job stays
-- in the store under the same id, and the task keeps its place, its id and its state. So no late
-- commit, lease or requeue overturns an outcome.
pub final_task_stays :
    (urls : UrlPackage) (m n : Memory) (id : Str) (j : Job) (i : ℕ) (t : Task)
    → IsStore urls m
    → Reach urls m n
    → find_job id m.by_id ≡ some j
    → get_elem? j.tasks i ≡ some t
    → is_final t.state ≡ true
    → (k : Job) × (u : Task) × (find_job id n.by_id ≡ some k)
      × (get_elem? k.tasks i ≡ some u)
      × (u.id ≡ t.id)
      × (u.state ≡ t.state)
final_task_stays urls m n id j i t s r f g h =
    let (k, fk, jm) = moved_job m.by_id n.by_id id j (Reach-Extends urls m r s) f in
    let (u, gu, tm) = Moved-task j.tasks k.tasks i t jm.tasks_moved g in
    (k, u, fk, gu, tm.same_id, final_stays tm.moved h)
