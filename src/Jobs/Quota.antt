-- ===== src/Jobs/Quota.antt =====
-- internal/jobs/quota.go and occupancy.go: the shares of a service, the choice of the next task, and
-- which gateways are taken. Also countLeased of enqueue.go.
pub mod Pick
use aquila.Base.{
  ℕ, zero, suc, ◌+◌, Str, codes, Bool, true, false, not, ◌&&◌, ◌||◌, Option, none, some, List, [],
  ◌∷◌, ◌++◌, any, leb, if◌then◌else◌, is_empty, count_by, str_eq, to_lower, trim_space, ℤ, pos,
  leb_ℤ,
}
use aquila.Url.{Url, UrlPackage}
use aquila.Jobs.{TaskState, Status, Task, Job, state_eq}

-- Quota.
pub record Quota : Type 0 where
  pub active_jobs : ℤ
  pub leased_tasks : ℤ

-- A limit of 0 or less takes its default: DefaultActiveJobs or DefaultLeasedTasks.
abbrev pub or_default : ℤ → ℕ → ℤ
or_default q d = if leb_ℤ q (pos 0) then pos d else q

-- Quota.normalized.
unfoldable pub normalized : Quota → Quota
normalized q = record {
  active_jobs = or_default q.active_jobs 4;
  leased_tasks = or_default q.leased_tasks 2;
}

-- occupies.
abbrev pub occupies : Job → Bool
occupies j = elim j.status [
  | Status.pending ↦ true
  | Status.running ↦ true
  | Status.complete ↦ false
  | Status.failed ↦ false
  | Status.canceled ↦ false
]

abbrev pub is_rival : Job → Job → Bool
is_rival candidate j =
    not (str_eq j.id candidate.id) && str_eq j.service candidate.service && occupies j

-- overActive.
unfoldable pub over_active : List Job → Job → Quota → Bool
unfolding normalized
over_active existing candidate q =
    leb_ℤ (normalized q).active_jobs (pos (count_by (is_rival candidate) existing))

abbrev pub is_leased : Task → Bool
is_leased t = state_eq t.state TaskState.leased

-- The entry of the map `leased` of pickReady.
unfoldable pub leased_of : Str → List Job → ℕ
leased_of service [] = 0
leased_of service (j ∷ js) =
    (if str_eq j.service service then count_by is_leased j.tasks else 0) + leased_of service js

-- countLeased.
unfoldable pub count_leased : List Job → Str → ℕ
count_leased [] worker = 0
count_leased (j ∷ js) worker =
    count_by (λ t. is_leased t && str_eq t.worker_id worker) j.tasks + count_leased js worker

abbrev pub is_free : Task → Bool
is_free t = state_eq t.state TaskState.ready && not t.operator

-- The index of the first task that can be leased.
unfoldable pub first_free : List Task → Option ℕ
first_free [] = none
first_free (t ∷ ts) =
    let rest = first_free ts in
    if is_free t then some 0 else elim rest [ none ↦ none | some i ↦ some (suc i) ]

-- jobIdx, taskIdx and best.
pub record Choice : Type 0 where
  pub job : ℕ
  pub task : ℕ
  pub load : ℕ

-- The tests by which the loop passes over a job before it looks at its tasks.
abbrev pub is_open : Str → Quota → ℕ → Job → Bool
is_open want q load j =
    (is_empty want || str_eq j.id want)
    && not j.canceled
    && not (elim j.status [ Status.canceled ↦ true | _ ↦ false ])
    && not (leb_ℤ q.leased_tasks (pos load))

abbrev pub beats : ℕ → Option Choice → Bool
beats load none = true
beats load (some c) = not (leb c.load load)

-- One round of the loop of pickReady.
unfoldable pub consider : Str → Quota → ℕ → ℕ → Job → Option Choice → Option Choice
unfolding first_free
consider want q load ji j best =
    if is_open want q load j && beats load best
    then elim (first_free j.tasks) [
      | none ↦ best
      | some ti ↦ some (record { job = ji; task = ti; load = load })
    ]
    else best

unfoldable pub pick_from : List Job → Str → Quota → ℕ → List Job → Option Choice → Option Choice
unfolding consider leased_of
pick_from all want q ji [] best = best
pick_from all want q ji (j ∷ js) best =
    pick_from all want q (suc ji) js (consider want q (leased_of j.service all) ji j best)

-- pickReady; `none` for ok = false.
unfoldable pub pick_ready : List Job → Str → Quota → Option Choice
unfolding pick_from normalized
pick_ready all want q = pick_from all want (normalized q) 0 all none

module _ (urls : UrlPackage) where
  parsed_key : Str → Url → Str
  parsed_key raw u =
      if is_empty u.host
      then to_lower (trim_space raw)
      else to_lower u.scheme ++ (codes "://" ++ to_lower u.host)

  -- occupancyKey.
  unfoldable pub occupancy_key : Str → Str
  unfolding parsed_key
  occupancy_key raw = elim (urls.parse (trim_space raw)) [
    | none ↦ to_lower (trim_space raw)
    | some u ↦ parsed_key raw u
  ]

  -- occupancyKeys.
  unfoldable pub occupancy_keys : Job → List Str
  unfolding occupancy_key
  occupancy_keys j =
      let a = occupancy_key j.baseline in
      let b = occupancy_key j.patch in if str_eq a b then a ∷ [] else a ∷ b ∷ []

  -- A key of one job that is not empty is a key of the other.
  abbrev pub share_gateway : Job → Job → Bool
  share_gateway j candidate =
      any (λ k. any (λ w. not (is_empty w) && str_eq w k) (occupancy_keys candidate))
        (occupancy_keys j)

  -- gatewayBusy.
  unfoldable pub gateway_busy : List Job → Job → Bool
  gateway_busy existing candidate =
      any (λ j. not (str_eq j.id candidate.id) && occupies j && share_gateway j candidate) existing
