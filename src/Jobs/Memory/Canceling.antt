-- ===== src/Jobs/Memory/Canceling.antt =====
-- internal/jobs/memory.go: Cancel called again.
use mathlib.Core.Path.{subst}
use aquila.Base.{
  ◌≡◌, refl, sym, ap, ◌∙◌, Str, codes, ◌||◌, inl, inr, none, some, [], ◌∷◌, Bool-cases,
  Option-cases, str_eq, str_eq_refl,
}
use aquila.Url.{UrlPackage}
use aquila.Jobs.{Job, Result, ok, err, errorf, not_found}
use aquila.Jobs.Lifecycle.{refresh_job, apply_cancel, is_over}
use aquila.Jobs.Create.{normalize_id}
use aquila.Jobs.Memory.{Memory, Table, find_job, put_job, cancel, cancel_id, cancel_found}
use aquila.Jobs.Memory.Places.{find_put}

module _ (urls : UrlPackage) where
  refresh_job-canceled : (j : Job) → (refresh_job urls j).canceled ≡ j.canceled
  unfolding refresh_job
  refresh_job-canceled j = refl

  apply_cancel-twice : (j : Job) → apply_cancel urls (apply_cancel urls j) ≡ apply_cancel urls j
  unfolding apply_cancel
  apply_cancel-twice j = elim (Bool-cases (j.canceled || is_over j.status)) [
    | inl y ↦ rw (y, y)
    | inr n ↦ rw n refl
  ]

  put_job-twice :
      (id : Str) (j : Job) (ts : Table) → put_job id j (put_job id j ts) ≡ put_job id j ts
  unfolding put_job
  put_job-twice id j [] = rw (str_eq_refl id)
  put_job-twice id j ((k, x) ∷ ts) = elim (Bool-cases (str_eq k id)) [
    | inl q ↦ rw (q, put_job) (rw q)
    | inr q ↦ rw (q, put_job) (rw (q, put_job-twice id j ts))
  ]

  cancel-found :
      (raw id : Str) (m : Memory) (j : Job)
      → normalize_id raw ≡ some id
      → find_job id m.by_id ≡ some j
      → cancel urls none raw m
        ≡ (record m { by_id = put_job id (apply_cancel urls j) m.by_id }, ok (apply_cancel urls j))
  unfolding cancel
  cancel-found raw id m j e h = rw (e, cancel_id) (rw (h, cancel_found))

  same_call :
      (raw : Str) (m n : Memory) (r : Result Job)
      → cancel urls none raw m ≡ (n, r)
      → cancel urls none raw n ≡ (n, r)
      → cancel urls none raw (cancel urls none raw m).0
        ≡ ((cancel urls none raw m).0, (cancel urls none raw m).1)
  same_call raw m n r once again =
      subst (λ (x : Memory × Result Job). cancel urls none raw x.0 ≡ (x.0, x.1)) (sym once) again

  -- Cancel is idempotent: called again with the same id, it returns what it returned, a job or an
  -- error, and leaves the store as it is.
  pub cancel_idempotent :
      (raw : Str) (m : Memory)
      → let n = (cancel urls none raw m).0 in
        cancel urls none raw n ≡ (n, (cancel urls none raw m).1)
  unfolding cancel
  cancel_idempotent raw m = elim (Option-cases (normalize_id raw)) [
    | inl e ↦
        let once : cancel urls none raw m ≡ (m, err (errorf (codes "jobs: invalid id"))) =
          rw (e, cancel_id) in
        same_call raw m m _ once once
    | inr (id, e) ↦ elim (Option-cases (find_job id m.by_id)) [
      | inl h ↦
          let once : cancel urls none raw m ≡ (m, err not_found) =
            rw (e, cancel_id) (rw (h, cancel_found)) in
          same_call raw m m _ once once
      | inr (j, h) ↦
          let k = apply_cancel urls j in
          let n : Memory = record m { by_id = put_job id k m.by_id } in
          let again : cancel urls none raw n ≡ (n, ok k) =
            cancel-found raw id n k e (find_put id k m.by_id)
            ∙ ap (λ (x : Job). (record n { by_id = put_job id x n.by_id }, ok x))
                (apply_cancel-twice j)
            ∙ ap (λ (ts : Table). (record n { by_id = ts }, ok k)) (put_job-twice id k m.by_id) in
          same_call raw m n (ok k) (cancel-found raw id m j e h) again
    ]
  ]
