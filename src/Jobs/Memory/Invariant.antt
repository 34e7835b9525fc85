-- ===== src/Jobs/Memory/Invariant.antt =====
-- internal/jobs/memory.go: when a store is well formed, and how the methods act on such a store.
use mathlib.Core.Path.{subst}
use mathlib.Core.Bool.{false≢true}
use mathlib.Core.Option.{some-injective}
use aquila.Base.{
  ℕ, ◌≡◌, ◌≢◌, refl, sym, ap, ◌∙◌, Str, true, false, inl, inr, none, some, List, [], ◌∷◌, ◌++◌,
  get_elem?, arith, Bool-cases, All, str_eq, str_eq_refl, Distinct, Distinct-append,
}
use aquila.Url.{UrlPackage}
use aquila.Jobs.{Time, TaskState, Task, Job, ok, state_eq}
use aquila.Jobs.Lifecycle.{refresh_job, apply_cancel}
use aquila.Jobs.Lifecycle.Moves.{
  JobMoved, JobMoved-refl, apply_cancel-JobMoved, expire_job-JobMoved,
}
use aquila.Jobs.Lifecycle.Consistent.{
  IsConsistent, refresh_job-IsConsistent, apply_cancel-IsConsistent, expire_job-IsConsistent,
}
use aquila.Jobs.Quota.{Choice, normalized, is_open, is_free, pick_ready}
use aquila.Jobs.Quota.Pick.{pick_ready-IsSound}
use aquila.Jobs.Create.{CreateOpts, build_job}
use aquila.Jobs.Create.Built.{built-id, built-IsConsistent}
use aquila.Jobs.Memory.{
  Memory, Table, Found, find_job, put_job, find_task, jobs, with_task, expire_table, expire_all,
  insert_new, leased_job,
}
use aquila.Jobs.Memory.Effects.{
  Effect, unchanged, expires, inserts, claims, beats, commits, cancels,
}
use aquila.Jobs.Memory.Updates.{
  leased_job-JobMoved, leased_job-IsConsistent, beat-JobMoved, commit-JobMoved, beat-IsConsistent,
}
use aquila.Jobs.Memory.Tables.{
  keys, Entries, put_job-All, find_job-All, keys-put_job, put_job-new, jobs_in-found,
  find_task-found,
}

-- A table before and after: each job stands where it stood, moved on; new ones stand behind.
abbrev pub Extends : Table → Table → Type 0
Extends [] us = Unit
Extends (e ∷ ts) [] = ⊥
Extends (e ∷ ts) (f ∷ us) = (f.0 ≡ e.0) × JobMoved e.1 f.1 × Extends ts us

pub Extends-refl : (ts : Table) → Extends ts ts
Extends-refl [] = tt
Extends-refl (e ∷ ts) = (refl, JobMoved-refl e.1, Extends-refl ts)

Extends-append : (ts us : Table) → Extends ts (ts ++ us)
Extends-append [] us = tt
Extends-append (e ∷ ts) us = (refl, JobMoved-refl e.1, Extends-append ts us)

pub put_job-Extends :
    (id : Str) (j k : Job) (ts : Table)
    → find_job id ts ≡ some j
    → JobMoved j k
    → Extends ts (put_job id k ts)
unfolding put_job find_job
put_job-Extends id j k [] e m = tt
put_job-Extends id j k ((x, y) ∷ ts) e m = elim (Bool-cases (str_eq x id)) [
  | inl q ↦
      let ey : y ≡ j = ground arith in
      rw q (refl, subst (λ (z : Job). JobMoved z k) (sym ey) m, Extends-refl ts)
  | inr q ↦ rw q (refl, JobMoved-refl y, put_job-Extends id j k ts (ground arith) m)
]

absent_key : (id : Str) (ts : Table) → find_job id ts ≡ none → All (λ (x : Str). x ≢ id) (keys ts)
unfolding find_job
absent_key id [] e = tt
absent_key id ((k, j) ∷ ts) e = elim (Bool-cases (str_eq k id)) [
  | inl q ↦ absurd (ground arith)
  | inr q ↦ (
    λ k_id. absurd (false≢true (sym q ∙ rw k_id (str_eq_refl id))),
    absent_key id ts (ground arith),
  )
]

keys-append : (ts : Table) (id : Str) (j : Job) → keys (ts ++ (id, j) ∷ []) ≡ keys ts ++ id ∷ []
keys-append [] id j = refl
keys-append (e ∷ ts) id j = ap (λ (ks : List Str). e.0 ∷ ks) (keys-append ts id j)

module _ (urls : UrlPackage) where
  -- The jobs are consistent and stand under their own ids; the order lists the ids, each once.
  pub record IsStore (m : Memory) : Type 0 where
    pub consistent : Entries (λ e. IsConsistent urls e.1) m.by_id
    pub own_key : Entries (λ e. e.1.id ≡ e.0) m.by_id
    pub listed : keys m.by_id ≡ m.order
    pub distinct : Distinct m.order

  expire_table-Extends : (now : Time) (ts : Table) → Extends ts (expire_table urls now ts).0
  unfolding expire_table
  expire_table-Extends now [] = tt
  expire_table-Extends now ((k, j) ∷ ts) =
      (refl, expire_job-JobMoved urls now j, expire_table-Extends now ts)

  expire_table-keys : (now : Time) (ts : Table) → keys (expire_table urls now ts).0 ≡ keys ts
  unfolding expire_table
  expire_table-keys now [] = refl
  expire_table-keys now ((k, j) ∷ ts) = ap (λ (ks : List Str). k ∷ ks) (expire_table-keys now ts)

  expire_table-IsConsistent :
      (now : Time) (ts : Table)
      → Entries (λ e. IsConsistent urls e.1) ts
      → Entries (λ e. IsConsistent urls e.1) (expire_table urls now ts).0
  unfolding expire_table
  expire_table-IsConsistent now [] h = tt
  expire_table-IsConsistent now ((k, j) ∷ ts) h =
      (expire_job-IsConsistent urls now j h.0, expire_table-IsConsistent now ts h.1)

  expire_table-own_key :
      (now : Time) (ts : Table)
      → Entries (λ e. e.1.id ≡ e.0) ts
      → Entries (λ e. e.1.id ≡ e.0) (expire_table urls now ts).0
  unfolding expire_table
  expire_table-own_key now [] h = tt
  expire_table-own_key now ((k, j) ∷ ts) h =
      ((expire_job-JobMoved urls now j).same_id ∙ h.0, expire_table-own_key now ts h.1)

  expire_table-new :
      (now : Time) (ts : Table) (id : Str)
      → find_job id ts ≡ none
      → find_job id (expire_table urls now ts).0 ≡ none
  unfolding expire_table find_job
  expire_table-new now [] id h = refl
  expire_table-new now ((k, j) ∷ ts) id h = ground (arith, expire_table-new now ts id)

  pub expire_all-IsStore : (now : Time) (m : Memory) → IsStore m → IsStore (expire_all urls now m)
  unfolding expire_all
  expire_all-IsStore now m s = record {
    consistent = expire_table-IsConsistent now m.by_id s.consistent;
    own_key = expire_table-own_key now m.by_id s.own_key;
    listed = expire_table-keys now m.by_id ∙ s.listed;
    distinct = s.distinct;
  }

  -- Writing a job that has moved on in place of one of the store.
  update-IsStore :
      (m : Memory) (id : Str) (j k : Job)
      → find_job id m.by_id ≡ some j
      → JobMoved j k
      → IsConsistent urls k
      → IsStore m
      → IsStore (record m { by_id = put_job id k m.by_id })
  update-IsStore m id j k e moved o s = record {
    consistent = put_job-All (λ e. IsConsistent urls e.1) id k m.by_id s.consistent o;
    own_key =
        put_job-All (λ e. e.1.id ≡ e.0) id k m.by_id s.own_key
          (moved.same_id ∙ find_job-All (λ e. e.1.id ≡ e.0) id j m.by_id s.own_key e);
    listed = keys-put_job id j k m.by_id e ∙ s.listed;
    distinct = s.distinct;
  }

  -- A job that the store lists stands under its own id.
  pub listed_job :
      (m : Memory) (i : ℕ) (j : Job)
      → IsStore m
      → get_elem? (jobs m) i ≡ some j
      → find_job j.id m.by_id ≡ some j
  unfolding jobs
  listed_job m i j s e =
      let h = jobs_in-found m.by_id m.order i j e in
      let own = find_job-All (λ e. e.1.id ≡ e.0) h.0 j m.by_id s.own_key h.1 in
      ap (λ (id : Str). find_job id m.by_id) own ∙ h.1

  pub found_task :
      (m : Memory) (tid : Str) (f : Found)
      → IsStore m
      → find_task tid m.by_id ≡ some f
      → (find_job f.key m.by_id ≡ some f.job)
        × (get_elem? f.job.tasks f.index ≡ some f.task)
        × (f.task.id ≡ tid)
  found_task m tid f s e =
      find_task-found tid m.by_id f (subst Distinct (sym s.listed) s.distinct) e

  IsConsistent-job :
      (m : Memory) (id : Str) (j : Job)
      → IsStore m
      → find_job id m.by_id ≡ some j
      → IsConsistent urls j
  IsConsistent-job m id j s e =
      find_job-All (λ e. IsConsistent urls e.1) id j m.by_id s.consistent e

  -- Adding a job under an id that the store does not hold.
  insert-IsStore :
      (m : Memory) (job : Job)
      → find_job job.id m.by_id ≡ none
      → IsConsistent urls job
      → IsStore m
      → IsStore (insert_new job m)
  unfolding insert_new
  insert-IsStore m job new o s = record {
    consistent = put_job-All (λ e. IsConsistent urls e.1) job.id job m.by_id s.consistent o;
    own_key = put_job-All (λ e. e.1.id ≡ e.0) job.id job m.by_id s.own_key refl;
    listed =
        rw (put_job-new job.id job m.by_id new)
          (keys-append m.by_id job.id job ∙ ap (λ (ks : List Str). ks ++ job.id ∷ []) s.listed);
    distinct =
        Distinct-append m.order job.id s.distinct
          (subst (All (λ (x : Str). x ≢ job.id)) s.listed (absent_key job.id m.by_id new));
  }

  pub insert-Extends :
      (m : Memory) (job : Job)
      → find_job job.id m.by_id ≡ none
      → Extends m.by_id (insert_new job m).by_id
  unfolding insert_new
  insert-Extends m job new =
      rw (put_job-new job.id job m.by_id new) (Extends-append m.by_id ((job.id, job) ∷ []))

  -- What a lease writes: the chosen job is listed, not canceled, and the task is ready.
  pub claimed :
      (e : Memory) (want : Str) (c : Choice) (j : Job) (t : Task)
      → IsStore e
      → pick_ready (jobs e) want e.quota ≡ some c
      → get_elem? (jobs e) c.job ≡ some j
      → get_elem? j.tasks c.task ≡ some t
      → (find_job j.id e.by_id ≡ some j)
        × (j.canceled ≡ false)
        × (state_eq t.state TaskState.ready ≡ true)
  claimed e want c j t s p g k =
      let (j', t', g', k', open_j, free_t, load) = pick_ready-IsSound (jobs e) want e.quota c p in
      let ej : j' ≡ j = some-injective _ _ (sym g' ∙ g) in
      let et : t' ≡ t =
        some-injective _ _ (sym k' ∙ ap (λ (x : Job). get_elem? x.tasks c.task) ej ∙ k) in
      let open' =
        subst (λ (x : Job). is_open want (normalized e.quota) c.load x ≡ true) ej open_j in
      let free' = subst (λ (x : Task). is_free x ≡ true) et free_t in
      (listed_job e c.job j s g, ground arith, ground arith)

  pub expired-Extends : (now : Time) (m : Memory) → Extends m.by_id (expire_all urls now m).by_id
  unfolding expire_all
  expired-Extends now m = expire_table-Extends now m.by_id

  -- The id of a new job is not in the store, also after leases have run out.
  pub inserted_new :
      (m : Memory) (now started : Time) (fresh : Str) (opts : CreateOpts) (job : Job)
      → find_job fresh m.by_id ≡ none
      → build_job urls fresh started opts ≡ ok job
      → find_job job.id (expire_all urls now m).by_id ≡ none
  unfolding expire_all
  inserted_new m now started fresh opts job new b =
      rw (built-id urls fresh started opts job b) (expire_table-new now m.by_id fresh new)

  -- Every effect keeps the store well formed.
  pub Effect-IsStore : (m n : Memory) → Effect urls m n → IsStore m → IsStore n
  Effect-IsStore m n (unchanged e) s = rw e s
  Effect-IsStore m n (expires now e) s = rw e (expire_all-IsStore now m s)
  Effect-IsStore m n (inserts now started fresh opts job new b g o e) s = rw e (
      insert-IsStore (expire_all urls now m) job (inserted_new m now started fresh opts job new b)
        (built-IsConsistent urls fresh started opts job b) (expire_all-IsStore now m s))
  Effect-IsStore m n (claims now w fresh want c j t l p g k e) s =
      let x = expire_all urls now m in
      let sx = expire_all-IsStore now m s in
      let (f, live, ready) = claimed x want c j t sx p g k in
      rw e (
        update-IsStore x j.id j (leased_job w fresh now j c.task t) f
          (leased_job-JobMoved w fresh now j c.task t k ready)
          (leased_job-IsConsistent w fresh now j c.task t urls k ready live
            (IsConsistent-job x j.id j sx f))
          sx)
  Effect-IsStore m n (beats tid aid worker now f t h a e) s =
      let (at_key, at_task, same) = found_task m tid f s h in
      rw e (
        update-IsStore m f.key f.job (with_task f t) at_key
          (beat-JobMoved f t at_task aid worker now a)
          (beat-IsConsistent f t at_task urls aid worker now a
            (IsConsistent-job m f.key f.job s at_key))
          s)
  Effect-IsStore m n (commits tid aid result fail f t h a e) s =
      let (at_key, at_task, same) = found_task m tid f s h in
      rw e (
        update-IsStore m f.key f.job (refresh_job urls (with_task f t)) at_key
          (commit-JobMoved f t at_task urls aid result fail a)
          (refresh_job-IsConsistent urls (with_task f t)) s)
  Effect-IsStore m n (cancels id j h e) s = rw e (
      update-IsStore m id j (apply_cancel urls j) h (apply_cancel-JobMoved urls j)
        (apply_cancel-IsConsistent urls j (IsConsistent-job m id j s h)) s)
