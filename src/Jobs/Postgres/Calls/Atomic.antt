-- ===== src/Jobs/Postgres/Calls/Atomic.antt =====
-- internal/jobs/postgres.go: what a call leaves in the table when a statement fails.
use aquila.Base.{
  ◌≡◌, ◌∷◌, [], refl, Str, ◌⊎◌, inl, inr, Option, none, some, List, Bool-cases, Option-cases, true,
  leb_ℤ, pos, is_empty, trim_space,
}
use aquila.Url.{UrlPackage}
use aquila.Plan.{StepResult}
use aquila.Jobs.{Time, Job, Result, ok, err, Error, errorf, at_capacity, no_ready}
use aquila.Jobs.Attempt.{apply_commit, apply_heartbeat}
use aquila.Jobs.Quota.{count_leased, pick_ready, Choice, Quota, gateway_busy, over_active}
use aquila.Jobs.Create.{CreateOpts, build_job, normalize_id}
use aquila.Jobs.Quota.Pick.{pick_ready-IsSound}
use aquila.Jobs.Memory.{Worker, slots_of}
use aquila.Jobs.Memory.Effects.{Result-cases}
use aquila.Jobs.Postgres.{
  no_faults, CommitFault, finish, Rows, Faults, Spot, Row, after, insert_job, find_row, find_spot,
  lock_jobs, expire_tx,
}
use aquila.Jobs.Postgres.Calls.{
  insert_checked, admit, create, requeue_expired, beat_spot, beat_ids, heartbeat, commit_spot,
  commit_ids, grant, grant_task, lease_rows, lease_want, lease, commit, cancel_row, cancel_id,
  cancel,
}

-- The call succeeded, or left the rows as they were.
abbrev pub Atomic : {A : Type 0} → Rows → Rows × Result A → Type 0
Atomic {A} rows p = (p.0 ≡ rows) ⊎ ((a : A) × (p.1 ≡ ok a))

-- Commit returned an error and was applied all the same.
abbrev pub LostAnswer : Faults → Type 0
LostAnswer f = (c : CommitFault) × (f.commit ≡ some c) × (c.applied ≡ true)

-- A call under faults, beside the same call without any: it is that call; or it returns an error,
-- and leaves the rows as they were, or, where the answer of Commit was lost, as that call leaves
-- them.
pub data AllOrNothing {A : Type 0} (f : Faults) (rows : Rows) (p clean : Rows × Result A)
    : Type 0 where
  unharmed : p ≡ clean → AllOrNothing f rows p clean
  undone : (e : Error) → p ≡ (rows, err e) → AllOrNothing f rows p clean
  unanswered : (e : Error) → LostAnswer f → p ≡ (clean.0, err e) → AllOrNothing f rows p clean

abbrev pub Whole : {A : Type 0} → Faults → Rows → Rows × Result A → Rows × Result A → Type 0
Whole f rows p clean = Atomic rows clean × AllOrNothing f rows p clean

after-AllOrNothing :
    {A : Type 0} (f : Faults) (faults : List (Option Str)) (rows : Rows)
    (next clean : Rows × Result A)
    → AllOrNothing f rows next clean
    → AllOrNothing f rows (after faults rows next) clean
unfolding after
after-AllOrNothing f [] rows next clean h = h
after-AllOrNothing f (none ∷ faults) rows next clean h =
    after-AllOrNothing f faults rows next clean h
after-AllOrNothing f (some e ∷ faults) rows next clean h = undone (errorf e) refl

finish-AllOrNothing :
    {A : Type 0} (f : Faults) (c : Option CommitFault) (rows : Rows) (next : Rows × Result A)
    → f.commit ≡ c
    → AllOrNothing f rows (finish c rows next) next
unfolding finish
finish-AllOrNothing f none rows next e = unharmed refl
finish-AllOrNothing f (some c) rows next e = elim (Bool-cases c.applied) [
  | inl b ↦ unanswered (errorf c.message) (c, e, b) (rw b refl)
  | inr b ↦ undone (errorf c.message) (rw b refl)
]

after-Whole :
    {A : Type 0} (f : Faults) (faults : List (Option Str)) (rows : Rows)
    (next clean : Rows × Result A)
    → Whole f rows next clean
    → Whole f rows (after faults rows next) clean
after-Whole f faults rows next clean (a, h) = (a, after-AllOrNothing f faults rows next clean h)

-- A last write and its Commit.
write-AllOrNothing :
    {A : Type 0} (f : Faults) (faults : List (Option Str)) (rows : Rows) (next : Rows × Result A)
    → AllOrNothing f rows (after faults rows (finish f.commit rows next)) next
write-AllOrNothing f faults rows next =
    after-AllOrNothing f faults rows (finish f.commit rows next) next
      (finish-AllOrNothing f f.commit rows next refl)

write-Whole :
    {A : Type 0} (f : Faults) (faults : List (Option Str)) (rows next : Rows) (a : A)
    → Whole f rows (after faults rows (finish f.commit rows (next, ok a))) (next, ok a)
write-Whole f faults rows next a = (inr (a, refl), write-AllOrNothing f faults rows (next, ok a))

module _ (urls : UrlPackage) (q : Quota) (f : Faults) where
  admit-Whole :
      (job : Job) (before rows : Rows)
      → Whole f before (admit urls q f job before rows) (admit urls q no_faults job before rows)
  unfolding admit insert_checked after finish
  admit-Whole job before rows = elim (Bool-cases (gateway_busy urls (lock_jobs urls rows) job)) [
    | inl b ↦ rw b (inl refl, unharmed refl)
    | inr b ↦ elim (Bool-cases (over_active (lock_jobs urls rows) job q)) [
      | inl o ↦ rw (b, o) (inl refl, unharmed refl)
      | inr o ↦ elim (Option-cases (insert_job job rows)) [
        | inl n ↦ rw (b, o, n, insert_checked) (inl refl, unharmed refl)
        | inr (r, n) ↦ rw (b, o, n, insert_checked) (write-Whole f (f.write ∷ []) before r job)
      ]
    ]
  ]

  create-Whole :
      (opts : CreateOpts) (fresh : Str) (started now : Time) (rows : Rows)
      → Whole f rows
          (create urls q f opts fresh started now rows)
          (create urls q no_faults opts fresh started now rows)
  unfolding create after finish
  create-Whole opts fresh started now rows =
      elim (Result-cases (build_job urls fresh started opts)) [
        | inr (e, h) ↦ rw (h, create) (inl refl, unharmed refl)
        | inl (job, h) ↦
            rw (h, create)
              (after-Whole f (f.begin ∷ f.advisory ∷ f.expire_read ∷ f.expire_write ∷ f.read ∷ [])
                rows (admit urls q f job rows (expire_tx urls now rows)) _
                (admit-Whole job rows (expire_tx urls now rows)))
      ]

  requeue-Whole :
      (now : Time) (rows : Rows)
      → Whole f rows (requeue_expired urls f now rows) (requeue_expired urls no_faults now rows)
  unfolding requeue_expired after finish
  requeue-Whole now rows = write-Whole f (f.begin ∷ f.expire_read ∷ f.expire_write ∷ []) rows _ _

  beat_spot-Whole :
      (s : Option Spot) (aid worker : Str) (now : Time) (rows : Rows)
      → Whole f rows
          (beat_spot urls f s aid worker now rows)
          (beat_spot urls no_faults s aid worker now rows)
  unfolding beat_spot after finish
  beat_spot-Whole none aid worker now rows = (inl refl, unharmed refl)
  beat_spot-Whole (some s) aid worker now rows =
      elim (Result-cases (apply_heartbeat s.task aid worker now)) [
        | inr (e, h) ↦ rw (h, beat_spot) (inl refl, unharmed refl)
        | inl (t, h) ↦ rw (h, beat_spot) (write-Whole f (f.write ∷ []) rows _ _)
      ]

  heartbeat-Whole :
      (task attempt worker : Str) (now : Time) (rows : Rows)
      → Whole f rows
          (heartbeat urls f task attempt worker now rows)
          (heartbeat urls no_faults task attempt worker now rows)
  unfolding heartbeat beat_ids after finish
  heartbeat-Whole task attempt worker now rows = by_ids (normalize_id task) (normalize_id attempt)
    where
      by_ids :
          (a b : Option Str)
          → Whole f rows
              (beat_ids urls f a b worker now rows)
              (beat_ids urls no_faults a b worker now rows)
      by_ids none b = (inl refl, unharmed refl)
      by_ids (some tid) none = (inl refl, unharmed refl)
      by_ids (some tid) (some aid) =
          after-Whole f (f.begin ∷ f.read ∷ []) rows _ _
            (beat_spot-Whole (find_spot tid (lock_jobs urls rows)) aid worker now rows)

  commit_spot-Whole :
      (s : Option Spot) (aid : Str) (result : StepResult) (fail : Str) (rows : Rows)
      → Whole f rows
          (commit_spot urls f s aid result fail rows)
          (commit_spot urls no_faults s aid result fail rows)
  unfolding commit_spot after finish
  commit_spot-Whole none aid result fail rows = (inl refl, unharmed refl)
  commit_spot-Whole (some s) aid result fail rows =
      elim (Result-cases (apply_commit s.task aid result fail)) [
        | inr (e, h) ↦ rw (h, commit_spot) (inl refl, unharmed refl)
        | inl (t, h) ↦ rw (h, commit_spot) (write-Whole f (f.write ∷ []) rows _ _)
      ]

  commit-Whole :
      (task attempt : Str) (result : StepResult) (fail : Str) (rows : Rows)
      → Whole f rows
          (commit urls f task attempt result fail rows)
          (commit urls no_faults task attempt result fail rows)
  unfolding commit commit_ids after finish
  commit-Whole task attempt result fail rows = by_ids (normalize_id task) (normalize_id attempt)
    where
      by_ids :
          (a b : Option Str)
          → Whole f rows
              (commit_ids urls f a b result fail rows)
              (commit_ids urls no_faults a b result fail rows)
      by_ids none b = (inl refl, unharmed refl)
      by_ids (some tid) none = (inl refl, unharmed refl)
      by_ids (some tid) (some aid) =
          after-Whole f (f.begin ∷ f.read ∷ []) rows _ _
            (commit_spot-Whole (find_spot tid (lock_jobs urls rows)) aid result fail rows)

  cancel-Whole :
      (raw : Str) (rows : Rows)
      → Whole f rows (cancel urls f raw rows) (cancel urls no_faults raw rows)
  unfolding cancel cancel_id cancel_row after finish
  cancel-Whole raw rows = by_id (normalize_id raw)
    where
      by_row :
          (r : Option Row)
          → Whole f rows (cancel_row urls f r rows) (cancel_row urls no_faults r rows)
      by_row none = (inl refl, unharmed refl)
      by_row (some r) = write-Whole f (f.write ∷ []) rows _ _

      by_id :
          (a : Option Str)
          → Whole f rows (cancel_id urls f a rows) (cancel_id urls no_faults a rows)
      by_id none = (inl refl, unharmed refl)
      by_id (some id) = after-Whole f (f.begin ∷ f.read ∷ []) rows _ _ (by_row (find_row id rows))

  -- A choice of pickReady stands in the locked jobs, so what it grants ends with a write.
  grant-AllOrNothing :
      (w : Worker) (want fresh : Str) (now : Time) (before rows : Rows) (c : Choice)
      → pick_ready (lock_jobs urls rows) want q ≡ some c
      → AllOrNothing f before
          (grant urls f w fresh now before rows c)
          (grant urls no_faults w fresh now before rows c)
  unfolding grant grant_task after finish
  grant-AllOrNothing w want fresh now before rows c e =
      let (j, t, g, h, opened, free, load) = pick_ready-IsSound (lock_jobs urls rows) want q c e in
      rw (g, grant) (rw (h, grant) (write-AllOrNothing f (f.write ∷ []) before _))

  lease_rows-AllOrNothing :
      (w : Worker) (want fresh : Str) (now : Time) (before rows : Rows)
      → AllOrNothing f before
          (lease_rows urls q f w want fresh now before rows)
          (lease_rows urls q no_faults w want fresh now before rows)
  unfolding lease_rows finish
  lease_rows-AllOrNothing w want fresh now before rows =
      let js = lock_jobs urls rows in
      elim (Bool-cases (leb_ℤ (slots_of w) (pos (count_leased js w.id)))) [
        | inl b ↦ rw b (finish-AllOrNothing f f.commit before (rows, err at_capacity) refl)
        | inr b ↦ elim (Option-cases (pick_ready js want q)) [
          | inl n ↦
              rw (b, n, lease_rows)
                (finish-AllOrNothing f f.commit before (rows, err no_ready) refl)
          | inr (c, n) ↦ rw (b, n, lease_rows) (grant-AllOrNothing w want fresh now before rows c n)
        ]
      ]

  lease_want-AllOrNothing :
      (w : Worker) (want : Option Str) (fresh : Str) (now : Time) (rows : Rows)
      → AllOrNothing f rows
          (lease_want urls q f w want fresh now rows)
          (lease_want urls q no_faults w want fresh now rows)
  unfolding lease_want after
  lease_want-AllOrNothing w none fresh now rows = unharmed refl
  lease_want-AllOrNothing w (some want) fresh now rows =
      after-AllOrNothing f (f.begin ∷ f.expire_read ∷ f.expire_write ∷ f.read ∷ []) rows _ _
        (lease_rows-AllOrNothing w want fresh now rows (expire_tx urls now rows))

  lease-AllOrNothing :
      (w : Worker) (fresh : Str) (now : Time) (rows : Rows)
      → AllOrNothing f rows
          (lease urls q f w fresh now rows)
          (lease urls q no_faults w fresh now rows)
  unfolding lease
  lease-AllOrNothing w fresh now rows = elim (Bool-cases (is_empty (trim_space w.id))) [
    | inl b ↦ rw b (unharmed refl)
    | inr b ↦ rw b (lease_want-AllOrNothing w _ fresh now rows)
  ]

-- Without faults, Create, RequeueExpired, Heartbeat, Commit and Cancel succeed or leave the table as
-- it was. Under any faults each of them, and Lease, does what it does without; or it returns an error
-- and leaves the table as it was, or as the call without faults leaves it where Commit was applied
-- and only its answer was lost. So no call leaves a part of its writes, such as the expiry alone.
pub calls-Whole :
    (urls : UrlPackage) (q : Quota) (f : Faults) (opts : CreateOpts)
    (fresh task attempt worker fail : Str) (w : Worker) (result : StepResult) (started now : Time)
    (rows : Rows)
    → Whole f rows
        (create urls q f opts fresh started now rows)
        (create urls q no_faults opts fresh started now rows)
      × Whole f rows (requeue_expired urls f now rows) (requeue_expired urls no_faults now rows)
      × Whole f rows
          (heartbeat urls f task attempt worker now rows)
          (heartbeat urls no_faults task attempt worker now rows)
      × Whole f rows
          (commit urls f task attempt result fail rows)
          (commit urls no_faults task attempt result fail rows)
      × Whole f rows (cancel urls f task rows) (cancel urls no_faults task rows)
      × AllOrNothing f rows
          (lease urls q f w fresh now rows)
          (lease urls q no_faults w fresh now rows)
calls-Whole urls q f opts fresh task attempt worker fail w result started now rows = (
  create-Whole urls q f opts fresh started now rows,
  requeue-Whole urls q f now rows,
  heartbeat-Whole urls q f task attempt worker now rows,
  commit-Whole urls q f task attempt result fail rows,
  cancel-Whole urls q f task rows,
  lease-AllOrNothing urls q f w fresh now rows,
)
