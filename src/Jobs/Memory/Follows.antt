-- ===== src/Jobs/Memory/Follows.antt =====
-- internal/jobs/memory.go: the jobs of the store before and after a call.
use mathlib.Core.Path.{subst}
use aquila.Base.{
  ◌≡◌, ◌≢◌, refl, sym, ap, ◌∙◌, Str, false, ◌⊎◌, inl, inr, none, some, List, [], ◌∷◌, ◌++◌,
  if◌then◌else◌, arith, All, str_eq, str_eq_refl, Distinct,
}
use aquila.Url.{UrlPackage}
use mathlib.Core.Bool.{false≢true}
use aquila.Jobs.{Time, Job}
use aquila.Jobs.Lifecycle.Moves.{JobMoved}
use aquila.Jobs.Lifecycle.Consistent.{IsConsistent}
use aquila.Jobs.Quota.{gateway_busy, over_active}
use aquila.Jobs.Memory.{Memory, Table, find_job, jobs, jobs_in, expire_all, insert_new}
use aquila.Jobs.Memory.Effects.{
  Effect, unchanged, expires, inserts, claims, beats, commits, cancels,
}
use aquila.Jobs.Memory.Tables.{keys, values, Entries, jobs_in-keys, put_job-new}
use aquila.Jobs.Memory.Invariant.{
  Extends, IsStore, expire_all-IsStore, inserted_new, Effect-IsStore,
}
use aquila.Jobs.Memory.History.{Effect-Extends}

-- The jobs of one list, moved on place by place.
abbrev pub Follows : List Job → List Job → Type 0
Follows [] [] = Unit
Follows [] (k ∷ ks) = ⊥
Follows (j ∷ js) [] = ⊥
Follows (j ∷ js) (k ∷ ks) = JobMoved j k × Follows js ks

same_keys : (ts us : Table) → Extends ts us → keys us ≡ keys ts → Follows (values ts) (values us)
same_keys [] [] x e = tt
same_keys [] (f ∷ us) x e = absurd (ground arith)
same_keys (e ∷ ts) [] x q = absurd x
same_keys (e ∷ ts) (f ∷ us) x q = (x.1, same_keys ts us x.2 (ground arith))

module _ (urls : UrlPackage) where
  pub jobs-values : (m : Memory) → IsStore urls m → jobs m ≡ values m.by_id
  unfolding jobs
  jobs-values m s =
      ap (jobs_in m.by_id) (sym s.listed)
      ∙ jobs_in-keys m.by_id (subst Distinct (sym s.listed) s.distinct)

  kept :
      (m n : Memory)
      → Effect urls m n
      → IsStore urls m
      → n.order ≡ m.order
      → Follows (jobs m) (jobs n)
  kept m n e s o =
      let t = Effect-IsStore urls m n e s in
      rw (jobs-values m s, jobs-values n t)
        (same_keys m.by_id n.by_id (Effect-Extends urls m n e s) (t.listed ∙ o ∙ sym s.listed))

  -- What Create adds to the jobs that are left once leases have run out.
  pub record Grown (m n : Memory) : Type 0 where
    pub expired : Memory
    pub job : Job
    pub moved : Follows (jobs m) (jobs expired)
    pub same_quota : expired.quota ≡ m.quota
    pub quiet : gateway_busy urls (jobs expired) job ≡ false
    pub below : over_active (jobs expired) job expired.quota ≡ false
    pub fresh : All (λ (j : Job). j.id ≢ job.id) (jobs expired)
    pub grown : jobs n ≡ jobs expired ++ job ∷ []

  values-append :
      (ts : Table) (id : Str) (j : Job) → values (ts ++ (id, j) ∷ []) ≡ values ts ++ j ∷ []
  values-append [] id j = refl
  values-append (e ∷ ts) id j = ap (λ (js : List Job). e.1 ∷ js) (values-append ts id j)

  values-fresh :
      (ts : Table) (id : Str)
      → Entries (λ e. e.1.id ≡ e.0) ts
      → find_job id ts ≡ none
      → All (λ (j : Job). j.id ≢ id) (values ts)
  unfolding find_job
  values-fresh [] id h e = tt
  values-fresh ((k, j) ∷ ts) id h e = (
    λ q.
        absurd
          (false≢true (sym (key_differs e) ∙ ap (λ x. str_eq x id) (sym h.0 ∙ q) ∙ str_eq_refl id)),
    values-fresh ts id h.1 (ground arith),
  )
    where
      key_differs : (if str_eq k id then some j else find_job id ts) ≡ none → str_eq k id ≡ false
      key_differs e = ground arith

  values-All : (P : Job → Type 0) (ts : Table) → Entries (λ e. P e.1) ts → All P (values ts)
  values-All P [] h = tt
  values-All P (e ∷ ts) h = (h.0, values-All P ts h.1)

  pub jobs-IsConsistent : (m : Memory) → IsStore urls m → All (IsConsistent urls) (jobs m)
  jobs-IsConsistent m s = rw (jobs-values m s) (values-All (IsConsistent urls) m.by_id s.consistent)

  expired-Follows :
      (now : Time) (m : Memory) → IsStore urls m → Follows (jobs m) (jobs (expire_all urls now m))
  unfolding expire_all
  expired-Follows now m s = kept m (expire_all urls now m) (expires now refl) s refl

  -- Every call keeps the jobs in their places, or is one of Create that adds a job behind them.
  pub grows :
      (m n : Memory) → Effect urls m n → IsStore urls m → Follows (jobs m) (jobs n) ⊎ Grown m n
  unfolding expire_all insert_new
  grows m n (inserts now started fresh opts job new b g o e) s =
      let x = expire_all urls now m in
      let sx = expire_all-IsStore urls now m s in
      let absent = inserted_new urls m now started fresh opts job new b in
      let sn = Effect-IsStore urls m n (inserts now started fresh opts job new b g o e) s in
      inr (record {
        expired = x;
        job = job;
        moved = expired-Follows now m s;
        same_quota = refl;
        quiet = g;
        below = o;
        fresh = rw (jobs-values x sx) (values-fresh x.by_id job.id sx.own_key absent);
        grown =
            jobs-values n sn
            ∙ ap (λ (k : Memory). values k.by_id) e
            ∙ ap values (put_job-new job.id job x.by_id absent)
            ∙ values-append x.by_id job.id job
            ∙ ap (λ (js : List Job). js ++ job ∷ []) (sym (jobs-values x sx));
      })
  grows m n (unchanged e) s = inl (kept m n (unchanged e) s (ap (λ (k : Memory). k.order) e))
  grows m n (expires now e) s = inl (kept m n (expires now e) s (ap (λ (k : Memory). k.order) e))
  grows m n (claims now w fresh want c j t l p g k e) s =
      inl (kept m n (claims now w fresh want c j t l p g k e) s (ap (λ (k : Memory). k.order) e))
  grows m n (beats tid aid worker now f t h a e) s =
      inl (kept m n (beats tid aid worker now f t h a e) s (ap (λ (k : Memory). k.order) e))
  grows m n (commits tid aid result fail f t h a e) s =
      inl (kept m n (commits tid aid result fail f t h a e) s (ap (λ (k : Memory). k.order) e))
  grows m n (cancels id j h e) s =
      inl (kept m n (cancels id j h e) s (ap (λ (k : Memory). k.order) e))

  pub Effect-quota : (m n : Memory) → Effect urls m n → n.quota ≡ m.quota
  unfolding expire_all insert_new
  Effect-quota m n (unchanged e) = ap (λ (k : Memory). k.quota) e
  Effect-quota m n (expires now e) = ap (λ (k : Memory). k.quota) e
  Effect-quota m n (inserts now started fresh opts job new b g o e) = ap (λ (k : Memory). k.quota) e
  Effect-quota m n (claims now w fresh want c j t l p g k e) = ap (λ (k : Memory). k.quota) e
  Effect-quota m n (beats tid aid worker now f t h a e) = ap (λ (k : Memory). k.quota) e
  Effect-quota m n (commits tid aid result fail f t h a e) = ap (λ (k : Memory). k.quota) e
  Effect-quota m n (cancels id j h e) = ap (λ (k : Memory). k.quota) e
