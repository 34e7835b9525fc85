-- ===== src/Jobs/Memory/Effects.antt =====
-- The effect of each method on the store, with the conditions under which the method has it.
use aquila.Base.{
  ◌≡◌, refl, Str, false, ◌⊎◌, inl, inr, Option, none, some, [], is_empty, trim_space, get_elem?,
  Bool-cases, Option-cases, pos, leb_ℤ,
}
use aquila.Url.{UrlPackage}
use aquila.Plan.{StepResult}
use aquila.Jobs.{Time, Task, Job, Error, Result, ok, err}
use aquila.Jobs.Attempt.{apply_commit, apply_heartbeat}
use aquila.Jobs.Lifecycle.{refresh_job, apply_cancel}
use aquila.Jobs.Quota.{Choice, count_leased, pick_ready, gateway_busy, over_active}
use aquila.Jobs.Create.{CreateOpts, build_job, normalize_id}
use aquila.Jobs.Memory.{
  Memory, Worker, Found, jobs, find_job, put_job, find_task, with_task, slots_of, expire_all,
  insert_new, admit, create, requeue_expired, leased_job, grant, lease_ready, lease_wanted, lease,
  beat_found, beat_ids, heartbeat, commit_found, commit_ids, commit, cancel_found, cancel_id,
  cancel,
}

pub Result-cases :
    {A : Type 0} (r : Result A) → ((a : A) × (r ≡ ok a)) ⊎ ((e : Error) × (r ≡ err e))
Result-cases (ok a) = inl (a, refl)
Result-cases (err e) = inr (e, refl)

module _ (urls : UrlPackage) where
  -- What a method may do to the store.
  pub data Effect (m n : Memory) : Type 0 where
    unchanged : n ≡ m → Effect m n
    expires : (now : Time) → n ≡ expire_all urls now m → Effect m n
    inserts :
        (now started : Time) (fresh : Str) (opts : CreateOpts) (job : Job)
        → find_job fresh m.by_id ≡ none
        → build_job urls fresh started opts ≡ ok job
        → gateway_busy urls (jobs (expire_all urls now m)) job ≡ false
        → over_active (jobs (expire_all urls now m)) job (expire_all urls now m).quota ≡ false
        → n ≡ insert_new job (expire_all urls now m)
        → Effect m n
    claims :
        (now : Time) (w : Worker) (fresh want : Str) (c : Choice) (j : Job) (t : Task)
        → leb_ℤ (slots_of w) (pos (count_leased (jobs (expire_all urls now m)) w.id)) ≡ false
        → pick_ready (jobs (expire_all urls now m)) want (expire_all urls now m).quota ≡ some c
        → get_elem? (jobs (expire_all urls now m)) c.job ≡ some j
        → get_elem? j.tasks c.task ≡ some t
        → n ≡ (
            let e = expire_all urls now m in
            record e { by_id = put_job j.id (leased_job w fresh now j c.task t) e.by_id })
        → Effect m n
    beats :
        (tid aid worker : Str) (now : Time) (f : Found) (t : Task)
        → find_task tid m.by_id ≡ some f
        → apply_heartbeat f.task aid worker now ≡ ok t
        → n ≡ record m { by_id = put_job f.key (with_task f t) m.by_id }
        → Effect m n
    commits :
        (tid aid : Str) (result : StepResult) (fail : Str) (f : Found) (t : Task)
        → find_task tid m.by_id ≡ some f
        → apply_commit f.task aid result fail ≡ ok t
        → n ≡ record m { by_id = put_job f.key (refresh_job urls (with_task f t)) m.by_id }
        → Effect m n
    cancels :
        (id : Str) (j : Job)
        → find_job id m.by_id ≡ some j
        → n ≡ record m { by_id = put_job id (apply_cancel urls j) m.by_id }
        → Effect m n

  pub requeue_expired-Effect :
      (ctx : Option Str) (now : Time) (m : Memory) → Effect m (requeue_expired urls ctx now m).0
  unfolding requeue_expired
  requeue_expired-Effect none now m = expires now refl
  requeue_expired-Effect (some e) now m = unchanged refl

  admit-Effect :
      (now started : Time) (fresh : Str) (opts : CreateOpts) (job : Job) (m : Memory)
      → find_job fresh m.by_id ≡ none
      → build_job urls fresh started opts ≡ ok job
      → Effect m (admit urls job (expire_all urls now m)).0
  unfolding admit
  admit-Effect now started fresh opts job m new h =
      let e = expire_all urls now m in
      elim (Bool-cases (gateway_busy urls (jobs e) job)) [
        | inl b ↦ rw b (expires now refl)
        | inr b ↦ elim (Bool-cases (over_active (jobs e) job e.quota)) [
          | inl o ↦ rw (b, o) (expires now refl)
          | inr o ↦ rw (b, o) (inserts now started fresh opts job new h b o refl)
        ]
      ]

  pub create-Effect :
      (ctx : Option Str) (opts : CreateOpts) (fresh : Str) (started now : Time) (m : Memory)
      → find_job fresh m.by_id ≡ none
      → Effect m (create urls ctx opts fresh started now m).0
  unfolding create
  create-Effect (some e) opts fresh started now m new = unchanged refl
  create-Effect none opts fresh started now m new =
      elim (Result-cases (build_job urls fresh started opts)) [
        | inr (e, h) ↦ rw (h, create) (unchanged refl)
        | inl (job, h) ↦ rw (h, create) (admit-Effect now started fresh opts job m new h)
      ]

  grant-Effect :
      (now : Time) (w : Worker) (fresh want : Str) (c : Choice) (m : Memory)
      → leb_ℤ (slots_of w) (pos (count_leased (jobs (expire_all urls now m)) w.id)) ≡ false
      → pick_ready (jobs (expire_all urls now m)) want (expire_all urls now m).quota ≡ some c
      → Effect m (grant w fresh now (expire_all urls now m) c).0
  unfolding grant
  grant-Effect now w fresh want c m s p =
      let e = expire_all urls now m in
      elim (Option-cases (get_elem? (jobs e) c.job)) [
        | inl n ↦ rw (n, grant) (expires now refl)
        | inr (j, n) ↦ elim (Option-cases (get_elem? j.tasks c.task)) [
          | inl k ↦ rw (n, grant, k) (expires now refl)
          | inr (t, k) ↦ rw (n, grant, k) (claims now w fresh want c j t s p n k refl)
        ]
      ]

  lease_ready-Effect :
      (now : Time) (w : Worker) (fresh want : Str) (m : Memory)
      → leb_ℤ (slots_of w) (pos (count_leased (jobs (expire_all urls now m)) w.id)) ≡ false
      → Effect m (lease_ready w want fresh now (expire_all urls now m)).0
  unfolding lease_ready
  lease_ready-Effect now w fresh want m s =
      let e = expire_all urls now m in
      elim (Option-cases (pick_ready (jobs e) want e.quota)) [
        | inl n ↦ rw (n, lease_ready) (expires now refl)
        | inr (c, n) ↦ rw (n, lease_ready) (grant-Effect now w fresh want c m s n)
      ]

  lease_wanted-Effect :
      (now : Time) (w : Worker) (fresh : Str) (m : Memory)
      → leb_ℤ (slots_of w) (pos (count_leased (jobs (expire_all urls now m)) w.id)) ≡ false
      → Effect m (lease_wanted w fresh now (expire_all urls now m)).0
  unfolding lease_wanted
  lease_wanted-Effect now w fresh m s = elim (Bool-cases (is_empty (trim_space w.job_id))) [
    | inl b ↦ rw b (lease_ready-Effect now w fresh [] m s)
    | inr b ↦ elim (Option-cases (normalize_id w.job_id)) [
      | inl n ↦ rw (b, n, lease_wanted) (expires now refl)
      | inr (id, n) ↦ rw (b, n, lease_wanted) (lease_ready-Effect now w fresh id m s)
    ]
  ]

  pub lease-Effect :
      (ctx : Option Str) (w : Worker) (fresh : Str) (now : Time) (m : Memory)
      → Effect m (lease urls ctx w fresh now m).0
  unfolding lease
  lease-Effect (some e) w fresh now m = unchanged refl
  lease-Effect none w fresh now m = elim (Bool-cases (is_empty (trim_space w.id))) [
    | inl b ↦ rw b (unchanged refl)
    | inr b ↦
        let e = expire_all urls now m in
        elim (Bool-cases (leb_ℤ (slots_of w) (pos (count_leased (jobs e) w.id)))) [
          | inl s ↦ rw (b, s) (expires now refl)
          | inr s ↦ rw (b, s) (lease_wanted-Effect now w fresh m s)
        ]
  ]

  pub heartbeat-Effect :
      (ctx : Option Str) (task attempt worker : Str) (now : Time) (m : Memory)
      → Effect m (heartbeat ctx task attempt worker now m).0
  unfolding heartbeat
  heartbeat-Effect (some e) task attempt worker now m = unchanged refl
  heartbeat-Effect none task attempt worker now m = go (normalize_id task) (normalize_id attempt)
    where
      found :
          (tid aid : Str) (r : Option Found)
          → find_task tid m.by_id ≡ r
          → Effect m (beat_found r aid worker now m).0
      found tid aid none h = unchanged refl
      found tid aid (some f) h = elim (Result-cases (apply_heartbeat f.task aid worker now)) [
        | inl (t, k) ↦ rw (k, beat_found) (beats tid aid worker now f t h k refl)
        | inr (e, k) ↦ rw (k, beat_found) (unchanged refl)
      ]

      go : (a b : Option Str) → Effect m (beat_ids a b worker now m).0
      go none b = unchanged refl
      go (some tid) none = unchanged refl
      go (some tid) (some aid) = found tid aid (find_task tid m.by_id) refl

  pub commit-Effect :
      (ctx : Option Str) (task attempt : Str) (result : StepResult) (fail : Str) (m : Memory)
      → Effect m (commit urls ctx task attempt result fail m).0
  unfolding commit
  commit-Effect (some e) task attempt result fail m = unchanged refl
  commit-Effect none task attempt result fail m = go (normalize_id task) (normalize_id attempt)
    where
      found :
          (tid aid : Str) (r : Option Found)
          → find_task tid m.by_id ≡ r
          → Effect m (commit_found urls r aid result fail m).0
      found tid aid none h = unchanged refl
      found tid aid (some f) h = elim (Result-cases (apply_commit f.task aid result fail)) [
        | inl (t, k) ↦ rw (k, commit_found) (commits tid aid result fail f t h k refl)
        | inr (e, k) ↦ rw (k, commit_found) (unchanged refl)
      ]

      go : (a b : Option Str) → Effect m (commit_ids urls a b result fail m).0
      go none b = unchanged refl
      go (some tid) none = unchanged refl
      go (some tid) (some aid) = found tid aid (find_task tid m.by_id) refl

  pub cancel-Effect :
      (ctx : Option Str) (raw : Str) (m : Memory) → Effect m (cancel urls ctx raw m).0
  unfolding cancel
  cancel-Effect (some e) raw m = unchanged refl
  cancel-Effect none raw m = go (normalize_id raw)
    where
      found :
          (id : Str) (r : Option Job)
          → find_job id m.by_id ≡ r
          → Effect m (cancel_found urls id r m).0
      found id none h = unchanged refl
      found id (some j) h = cancels id j h refl

      go : (a : Option Str) → Effect m (cancel_id urls a m).0
      go none = unchanged refl
      go (some id) = found id (find_job id m.by_id) refl

  -- One call of a method, whatever its arguments. The id that newID draws for a new job is not one
  -- that the store holds.
  pub data Step (m n : Memory) : Type 0 where
    creates :
        (ctx : Option Str) (opts : CreateOpts) (fresh : Str) (started now : Time)
        → find_job fresh m.by_id ≡ none
        → n ≡ (create urls ctx opts fresh started now m).0
        → Step m n
    requeues : (ctx : Option Str) (now : Time) → n ≡ (requeue_expired urls ctx now m).0 → Step m n
    leases :
        (ctx : Option Str) (w : Worker) (fresh : Str) (now : Time)
        → n ≡ (lease urls ctx w fresh now m).0
        → Step m n
    heartbeats :
        (ctx : Option Str) (task attempt worker : Str) (now : Time)
        → n ≡ (heartbeat ctx task attempt worker now m).0
        → Step m n
    commits_to :
        (ctx : Option Str) (task attempt : Str) (result : StepResult) (fail : Str)
        → n ≡ (commit urls ctx task attempt result fail m).0
        → Step m n
    cancels_job : (ctx : Option Str) (raw : Str) → n ≡ (cancel urls ctx raw m).0 → Step m n

  pub data Reach (m : Memory) : Memory → Type 0 where
    here : Reach m m
    next : {n k : Memory} → Reach m n → Step n k → Reach m k

  pub Step-Effect : (m n : Memory) → Step m n → Effect m n
  Step-Effect m n (creates ctx opts fresh started now new e) =
      rw e (create-Effect ctx opts fresh started now m new)
  Step-Effect m n (requeues ctx now e) = rw e (requeue_expired-Effect ctx now m)
  Step-Effect m n (leases ctx w fresh now e) = rw e (lease-Effect ctx w fresh now m)
  Step-Effect m n (heartbeats ctx task attempt worker now e) =
      rw e (heartbeat-Effect ctx task attempt worker now m)
  Step-Effect m n (commits_to ctx task attempt result fail e) =
      rw e (commit-Effect ctx task attempt result fail m)
  Step-Effect m n (cancels_job ctx raw e) = rw e (cancel-Effect ctx raw m)
