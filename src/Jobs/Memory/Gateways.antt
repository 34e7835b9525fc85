-- ===== src/Jobs/Memory/Gateways.antt =====
-- internal/jobs/occupancy.go: which jobs are on a gateway at once.
use mathlib.Core.Path.{subst}
use aquila.Base.{
  All-front, ℕ, zero, suc, ◌≡◌, ◌≢◌, ◌<◌, Bool, true, false, not, ◌&&◌, inl, inr, some, List, [],
  ◌∷◌, ◌++◌, get_elem?, arith, Bool-cases, All, All-get, str_eq-false,
}
use mathlib.Core.Option.{some-injective}
use aquila.Url.{UrlPackage}
use aquila.Jobs.{Job}
use aquila.Jobs.Lifecycle.Moves.{JobMoved}
use aquila.Jobs.Lifecycle.Consistent.{IsConsistent}
use aquila.Jobs.Lifecycle.Occupancy.{occupies_back}
use aquila.Jobs.Quota.{Quota, occupies, occupancy_keys, share_gateway, gateway_busy}
use aquila.Jobs.Memory.{Memory, jobs, new_memory}
use aquila.Jobs.Memory.Effects.{Reach, Effect, here, next, Step-Effect}
use aquila.Jobs.Memory.Invariant.{IsStore, Effect-IsStore}
use aquila.Jobs.Memory.History.{Reach-IsStore}
use aquila.Jobs.Memory.Follows.{Follows, grows, jobs-IsConsistent}

module _ (urls : UrlPackage) where
  -- Not both occupy a gateway that is the same.
  abbrev pub apart : Job → Job → Bool
  apart j k = not (occupies j && (occupies k && share_gateway urls j k))

  -- Each job of the list is apart from every later one.
  abbrev Exclusive : List Job → Type 0
  Exclusive [] = Unit
  Exclusive (j ∷ js) = All (λ k. apart j k ≡ true) js × Exclusive js

  occupancy_keys-moved : (j k : Job) → JobMoved j k → occupancy_keys urls k ≡ occupancy_keys urls j
  unfolding occupancy_keys
  occupancy_keys-moved j k m = rw (m.same_baseline, m.same_patch)

  share_gateway-moved :
      (j j' k k' : Job)
      → JobMoved j j'
      → JobMoved k k'
      → share_gateway urls j' k' ≡ share_gateway urls j k
  share_gateway-moved j j' k k' m n = rw (occupancy_keys-moved j j' m, occupancy_keys-moved k k' n)

  apart-moved :
      (j j' k k' : Job)
      → IsConsistent urls j
      → IsConsistent urls j'
      → IsConsistent urls k
      → IsConsistent urls k'
      → JobMoved j j'
      → JobMoved k k'
      → apart j k ≡ true
      → apart j' k' ≡ true
  apart-moved j j' k k' oj oj' ok ok' m n h =
      let s = share_gateway-moved j j' k k' m n in
      elim (Bool-cases (occupies j')) [
        | inr f ↦ rw f
        | inl t ↦ elim (Bool-cases (occupies k')) [
          | inr f ↦ rw (t, f)
          | inl u ↦
              let bj = occupies_back urls j j' oj oj' m t in
              let bk = occupies_back urls k k' ok ok' n u in rw s (ground arith)
        ]
      ]

  apart-all_moved :
      (j j' : Job) (ks ks' : List Job)
      → IsConsistent urls j
      → IsConsistent urls j'
      → JobMoved j j'
      → All (IsConsistent urls) ks
      → All (IsConsistent urls) ks'
      → Follows ks ks'
      → All (λ k. apart j k ≡ true) ks
      → All (λ k. apart j' k ≡ true) ks'
  apart-all_moved j j' [] [] oj oj' m o o' f h = tt
  apart-all_moved j j' [] (k' ∷ ks') oj oj' m o o' f h = absurd f
  apart-all_moved j j' (k ∷ ks) [] oj oj' m o o' f h = absurd f
  apart-all_moved j j' (k ∷ ks) (k' ∷ ks') oj oj' m o o' f h = (
    apart-moved j j' k k' oj oj' o.0 o'.0 m f.0 h.0,
    apart-all_moved j j' ks ks' oj oj' m o.1 o'.1 f.1 h.1,
  )

  Exclusive-moved :
      (js ks : List Job)
      → All (IsConsistent urls) js
      → All (IsConsistent urls) ks
      → Follows js ks
      → Exclusive js
      → Exclusive ks
  Exclusive-moved [] [] o o' f h = tt
  Exclusive-moved [] (k ∷ ks) o o' f h = absurd f
  Exclusive-moved (j ∷ js) [] o o' f h = absurd f
  Exclusive-moved (j ∷ js) (k ∷ ks) o o' f h = (
    apart-all_moved j k js ks o.0 o'.0 f.0 o.1 o'.1 f.1 h.0,
    Exclusive-moved js ks o.1 o'.1 f.1 h.1,
  )

  quiet-apart :
      (js : List Job) (job : Job)
      → All (λ (j : Job). j.id ≢ job.id) js
      → gateway_busy urls js job ≡ false
      → All (λ j. apart j job ≡ true) js
  unfolding gateway_busy
  quiet-apart [] job d h = tt
  quiet-apart (j ∷ js) job d h =
      let e = (str_eq-false j.id job.id).1 d.0 in
      (ground arith, quiet-apart js job d.1 (ground arith))

  Exclusive-add :
      (js : List Job) (job : Job)
      → Exclusive js
      → All (λ j. apart j job ≡ true) js
      → Exclusive (js ++ job ∷ [])
  Exclusive-add [] job h a = (tt, tt)
  Exclusive-add (j ∷ js) job h a = (add_one js h.0 a.0, Exclusive-add js job h.1 a.1)
    where
      add_one :
          (ks : List Job)
          → All (λ k. apart j k ≡ true) ks
          → apart j job ≡ true
          → All (λ k. apart j k ≡ true) (ks ++ job ∷ [])
      add_one [] h a = (a, tt)
      add_one (k ∷ ks) h a = (h.0, add_one ks h.1 a)

  Effect-Exclusive :
      (m n : Memory) → Effect urls m n → IsStore urls m → Exclusive (jobs m) → Exclusive (jobs n)
  Effect-Exclusive m n e s h =
      let sn = Effect-IsStore urls m n e s in
      let cm = jobs-IsConsistent urls m s in
      let cn = jobs-IsConsistent urls n sn in
      elim (grows urls m n e s) [
        | inl f ↦ Exclusive-moved (jobs m) (jobs n) cm cn f h
        | inr g ↦
            let cx =
              All-front (IsConsistent urls) (jobs g.expired) g.job
                (subst (All (IsConsistent urls)) g.grown cn) in
            rw g.grown (
              Exclusive-add (jobs g.expired) g.job
                (Exclusive-moved (jobs m) (jobs g.expired) cm cx g.moved h)
                (quiet-apart (jobs g.expired) g.job g.fresh g.quiet))
      ]

  Reach-Exclusive : (q : Quota) {n : Memory} → Reach urls (new_memory q) n → Exclusive (jobs n)
  unfolding jobs
  Reach-Exclusive q here = tt
  Reach-Exclusive q (next {n = m} {k = n} r st) =
      Effect-Exclusive m n (Step-Effect urls m n st) (Reach-IsStore urls q m r)
        (Reach-Exclusive q r)

  Exclusive-at :
      (js : List Job) (a b : ℕ) (j k : Job)
      → Exclusive js
      → get_elem? js a ≡ some j
      → get_elem? js b ≡ some k
      → a < b
      → apart j k ≡ true
  Exclusive-at [] a b j k h ga gb l = absurd (ground arith)
  Exclusive-at (x ∷ js) zero zero j k h ga gb l = absurd (omega arith)
  Exclusive-at (x ∷ js) zero (suc b) j k h ga gb l =
      subst (λ y. apart y k ≡ true) (some-injective _ _ ga)
        (All-get (λ k. apart x k ≡ true) js b k h.0 gb)
  Exclusive-at (x ∷ js) (suc a) zero j k h ga gb l = absurd (omega arith)
  Exclusive-at (x ∷ js) (suc a) (suc b) j k h ga gb l =
      Exclusive-at js a b j k h.1 ga gb (omega arith)

  -- In every store that calls reach from a new one, two jobs that are pending or running have no
  -- gateway in common: no key of the earlier, other than the empty one, is a key of the later.
  pub gateways_exclusive :
      (q : Quota) (n : Memory) (a b : ℕ) (j k : Job)
      → Reach urls (new_memory q) n
      → get_elem? (jobs n) a ≡ some j
      → get_elem? (jobs n) b ≡ some k
      → a < b
      → occupies j ≡ true
      → occupies k ≡ true
      → share_gateway urls j k ≡ false
  gateways_exclusive q n a b j k r ga gb l oj ok =
      let h = Exclusive-at (jobs n) a b j k (Reach-Exclusive q r) ga gb l in ground arith
