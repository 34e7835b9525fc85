-- ===== src/Jobs/Memory/Active.antt =====
-- internal/jobs/quota.go: the active jobs of a service.
use mathlib.Core.Path.{subst}
use aquila.Base.{
  All-front, ℕ, ◌+◌, ◌≤◌, ◌≡◌, ◌≢◌, refl, ◌∙◌, Str, Bool, false, ◌&&◌, inl, inr, List, [], ◌∷◌,
  ◌++◌, if◌then◌else◌, arith, Bool-cases, All, str_eq, str_eq→eq, str_eq-false, count_by, pos_part,
}
use aquila.Url.{UrlPackage}
use aquila.Jobs.{Job}
use aquila.Jobs.Lifecycle.Consistent.{IsConsistent}
use aquila.Jobs.Lifecycle.Occupancy.{occupies_back}
use aquila.Jobs.Quota.{Quota, normalized, occupies, is_rival, over_active}
use aquila.Jobs.Memory.{Memory, jobs, new_memory}
use aquila.Jobs.Memory.Effects.{Reach, Effect, here, next, Step-Effect}
use aquila.Jobs.Memory.Invariant.{IsStore, Effect-IsStore}
use aquila.Jobs.Memory.History.{Reach-IsStore}
use aquila.Jobs.Memory.Follows.{Follows, Grown, grows, jobs-IsConsistent, Effect-quota}

-- An active job of a service.
abbrev pub is_active : Str → Job → Bool
is_active service j = str_eq j.service service && occupies j

count-append :
    {A : Type 0} (p : A → Bool) (xs : List A) (y : A)
    → count_by p (xs ++ y ∷ []) ≡ count_by p xs + (if p y then 1 else 0)
count-append p [] y = omega arith
count-append p (x ∷ xs) y = omega (arith, count-append p xs y)

module _ (urls : UrlPackage) (service : Str) where
  active-moved :
      (js ks : List Job)
      → All (IsConsistent urls) js
      → All (IsConsistent urls) ks
      → Follows js ks
      → count_by (is_active service) ks ≤ count_by (is_active service) js
  active-moved [] [] o o' f = omega arith
  active-moved [] (k ∷ ks) o o' f = absurd f
  active-moved (j ∷ js) [] o o' f = absurd f
  active-moved (j ∷ js) (k ∷ ks) o o' f =
      let ih = active-moved js ks o.1 o'.1 f.1 in
      elim (Bool-cases (occupies k)) [
        | inr n ↦ rw n (ground arith)
        | inl y ↦
            let b = occupies_back urls j k o.0 o'.0 f.0 y in
            rw (y, b, f.0.same_service) (ground arith)
      ]

-- The jobs that overActive counts are all the active jobs of the candidate's service.
rivals-active :
    (js : List Job) (job : Job)
    → All (λ (j : Job). j.id ≢ job.id) js
    → count_by (is_rival job) js ≡ count_by (is_active job.service) js
rivals-active [] job d = refl
rivals-active (j ∷ js) job d =
    let e = (str_eq-false j.id job.id).1 d.0 in rw (e, rivals-active js job d.1)

abbrev pub cap_of : Quota → ℕ
cap_of q = pos_part (normalized q).active_jobs

below_cap :
    (js : List Job) (job : Job) (q : Quota)
    → over_active js job q ≡ false
    → count_by (is_rival job) js + 1 ≤ cap_of q
unfolding over_active normalized
below_cap js job q h = ground arith

module _ (urls : UrlPackage) (service : Str) where
  abbrev Within : Memory → Type 0
  Within m = count_by (is_active service) (jobs m) ≤ cap_of m.quota

  Grown-Within :
      (m n : Memory)
      → (g : Grown urls m n) → All (IsConsistent urls) (jobs m)
      → All (IsConsistent urls) (jobs g.expired)
      → n.quota ≡ m.quota
      → Within m
      → Within n
  Grown-Within m n g cm cx q h =
      let before = active-moved urls service (jobs m) (jobs g.expired) cm cx g.moved in
      let added = count-append (is_active service) (jobs g.expired) g.job in
      rw (g.grown, added, q)
        (elim (Bool-cases (str_eq g.job.service service)) [
          | inr n ↦ rw n (omega (arith, before, h))
          | inl y ↦
              let room = below_cap (jobs g.expired) g.job g.expired.quota g.below in
              let same = rivals-active (jobs g.expired) g.job g.fresh in
              let e = str_eq→eq g.job.service service y in
              let room' : count_by (is_active service) (jobs g.expired) + 1 ≤ cap_of m.quota =
                subst (λ s. count_by (is_active s) (jobs g.expired) + 1 ≤ cap_of m.quota) e
                  (subst (λ r. r + 1 ≤ cap_of m.quota) same
                    (subst (λ q. count_by (is_rival g.job) (jobs g.expired) + 1 ≤ cap_of q)
                      g.same_quota room)) in
              ground arith
        ])

  Effect-Within : (m n : Memory) → Effect urls m n → IsStore urls m → Within m → Within n
  unfolding jobs normalized
  Effect-Within m n e s h =
      let sn = Effect-IsStore urls m n e s in
      let cm = jobs-IsConsistent urls m s in
      let cn = jobs-IsConsistent urls n sn in
      let q = Effect-quota urls m n e in
      elim (grows urls m n e s) [
        | inl f ↦
            let a = active-moved urls service (jobs m) (jobs n) cm cn f in
            rw q (omega (arith, a, h))
        | inr g ↦
            let cx =
              All-front (IsConsistent urls) (jobs g.expired) g.job
                (subst (All (IsConsistent urls)) g.grown cn) in
            Grown-Within m n g cm cx q h
      ]

  new-Within : (q : Quota) → Within (new_memory q)
  unfolding jobs
  new-Within q = ground arith

  -- In every store that calls reach from a new one, no service has more pending and running jobs
  -- than its share, which is the configured limit, or 4 where that is not positive.
  pub active_within :
      (q : Quota) (n : Memory)
      → Reach urls (new_memory q) n
      → count_by (is_active service) (jobs n) ≤ cap_of q
  active_within q n r =
      subst (λ c. count_by (is_active service) (jobs n) ≤ cap_of c) (same r) (all r)
    where
      same : {n : Memory} → Reach urls (new_memory q) n → n.quota ≡ q
      same here = refl
      same (next {n = m} {k = n} r st) = Effect-quota urls m n (Step-Effect urls m n st) ∙ same r

      all : {n : Memory} → Reach urls (new_memory q) n → Within n
      all here = new-Within q
      all (next {n = m} {k = n} r st) =
          Effect-Within m n (Step-Effect urls m n st) (Reach-IsStore urls q m r) (all r)
