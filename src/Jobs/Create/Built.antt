-- ===== src/Jobs/Create/Built.antt =====
-- What buildJob returns.
use mathlib.Core.Path.{subst}
use aquila.Base.{◌≡◌, sym, ap, ◌∙◌, Str, arith, inl, inr, Option-cases}
use aquila.Url.{UrlPackage}
use aquila.Jobs.{Time, Job, ok}
use aquila.Jobs.Lifecycle.{refresh_job}
use aquila.Jobs.Lifecycle.Moves.{refresh_job-JobMoved}
use aquila.Jobs.Lifecycle.Consistent.{IsConsistent, refresh_job-IsConsistent}
use aquila.Jobs.Create.{CreateOpts, draft_job, validate_create, build_job}

module _ (urls : UrlPackage) (id : Str) (now : Time) (opts : CreateOpts) (j : Job) where
  pub built : build_job urls id now opts ≡ ok j → j ≡ refresh_job urls (draft_job id now opts)
  unfolding build_job
  built e = elim (Option-cases (validate_create urls now opts)) [
    | inl n ↦ let e' = rw (n, build_job) at e in cc
    | inr (x, n) ↦ absurd (let e' = rw (n, build_job) at e in ground arith)
  ]

  -- A built job bears the id that newID drew.
  pub built-id : build_job urls id now opts ≡ ok j → j.id ≡ id
  unfolding draft_job
  built-id e =
      ap (λ (k : Job). k.id) (built e) ∙ (refresh_job-JobMoved urls (draft_job id now opts)).same_id

  pub built-IsConsistent : build_job urls id now opts ≡ ok j → IsConsistent urls j
  built-IsConsistent e =
      subst (IsConsistent urls) (sym (built e))
        (refresh_job-IsConsistent urls (draft_job id now opts))
