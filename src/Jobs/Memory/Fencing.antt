-- ===== src/Jobs/Memory/Fencing.antt =====
-- internal/jobs/memory.go: who may commit a task, and when.
use mathlib.Core.Path.{subst}
use mathlib.Core.Option.{some-injective}
use aquila.Base.{
  ℕ, ◌≡◌, refl, sym, ap, ◌∙◌, Str, Bool, true, false, not, ◌&&◌, ◌||◌, ◌↔◌, Option, none, some, [],
  set, get_elem?, is_empty, if◌then◌else◌, arith, str_eq,
}
use aquila.Url.{UrlPackage}
use aquila.Plan.{StepResult}
use aquila.Jobs.{TaskState, Task, Job, not_leased, Result, ok, err, state_eq}
use aquila.Jobs.Attempt.{apply_commit, is_pass}
use aquila.Jobs.Lifecycle.{refresh_job}
use aquila.Jobs.Lifecycle.Moves.{refresh_job-JobMoved}
use aquila.Jobs.Lifecycle.States.{is_final, final_stays}
use aquila.Jobs.Create.{normalize_id}
use aquila.Jobs.Memory.{
  Memory, Found, find_job, put_job, find_task, with_task, commit_found, commit_ids, commit, task_or,
}
use aquila.Jobs.Memory.Effects.{Reach, Step, commits_to, here, next}
use aquila.Jobs.Memory.Invariant.{IsStore, found_task}
use aquila.Jobs.Memory.History.{Reach-Extends, Step-IsStore}
use aquila.Jobs.Memory.Places.{find_task-Moved, find_put, get-set, Moved-at}

apply_commit-final :
    (t u : Task) (aid : Str) (r : StepResult) (fail : Str)
    → apply_commit t aid r fail ≡ ok u
    → is_final u.state ≡ true
unfolding apply_commit
apply_commit-final t u aid r fail e = ground arith

-- The test by which applyCommit accepts a result.
abbrev pub accepts : Task → Str → StepResult → Str → Bool
accepts t aid r fail =
    state_eq t.state TaskState.leased
    && str_eq t.attempt_id aid
    && (not (is_empty fail) || not (is_pass r.verdict))

apply_commit-accepts :
    (t : Task) (aid : Str) (r : StepResult) (fail : Str)
    → accepts t aid r fail ≡ true
    → (u : Task) × (apply_commit t aid r fail ≡ ok u)
unfolding apply_commit
apply_commit-accepts t aid r fail h = (accepted t aid r fail, ground arith)
  where
    accepted : Task → Str → StepResult → Str → Task
    accepted t aid r fail = record t {
      state = if is_empty fail then TaskState.succeeded else TaskState.failed;
      error = fail;
      result = r;
      worker_id = [];
      lease_until = 0;
    }

apply_commit-refuses :
    (t u : Task) (aid : Str) (r : StepResult) (fail : Str)
    → apply_commit t aid r fail ≡ ok u
    → accepts t aid r fail ≡ true
unfolding apply_commit
apply_commit-refuses t u aid r fail e = ground arith

-- A commit to a task that is not leased is refused and changes nothing.
pub commit_not_leased :
    (urls : UrlPackage) (m : Memory) (task attempt tid aid : Str) (r : StepResult) (fail : Str)
    (f : Found)
    → normalize_id task ≡ some tid
    → normalize_id attempt ≡ some aid
    → find_task tid m.by_id ≡ some f
    → state_eq f.task.state TaskState.leased ≡ false
    → commit urls none task attempt r fail m ≡ (m, err not_leased)
unfolding commit apply_commit
commit_not_leased urls m task attempt tid aid r fail f nt na e h =
    rw (nt, na, commit_ids) (rw (e, commit_found) (rw (h, apply_commit)))

-- What a commit that is accepted has found and written.
pub record Committed (urls : UrlPackage) (m : Memory) (task attempt : Str) (r : StepResult)
    (fail : Str) : Type 0 where
  pub tid : Str
  pub aid : Str
  pub found : Found
  pub written : Task
  pub task_id : normalize_id task ≡ some tid
  pub attempt_id : normalize_id attempt ≡ some aid
  pub finds : find_task tid m.by_id ≡ some found
  pub writes : apply_commit found.task aid r fail ≡ ok written
  pub store :
      (commit urls none task attempt r fail m).0
      ≡ record m { by_id = put_job found.key (refresh_job urls (with_task found written)) m.by_id }

module _ (urls : UrlPackage) (m : Memory) (task attempt : Str) (r : StepResult) (fail : Str) where
  committed :
      (t : Task)
      → (commit urls none task attempt r fail m).1 ≡ ok t
      → Committed urls m task attempt r fail
  unfolding commit
  committed t e = by_ids (normalize_id task) (normalize_id attempt) refl refl e
    where
      by_result :
          (tid aid : Str) (f : Found) (x : Result Task)
          → normalize_id task ≡ some tid
          → normalize_id attempt ≡ some aid
          → find_task tid m.by_id ≡ some f
          → apply_commit f.task aid r fail ≡ x
          → (commit_found urls (some f) aid r fail m).1 ≡ ok t
          → Committed urls m task attempt r fail
      by_result tid aid f (err y) nt na h a e =
          absurd (let e' = rw (a, commit_found) at e in ground arith)
      by_result tid aid f (ok u) nt na h a e = record {
        tid = tid;
        aid = aid;
        found = f;
        written = u;
        task_id = nt;
        attempt_id = na;
        finds = h;
        writes = a;
        store = rw (nt, na, commit_ids) (rw (h, commit_found) (rw (a, commit_found)));
      }

      by_found :
          (tid aid : Str) (o : Option Found)
          → normalize_id task ≡ some tid
          → normalize_id attempt ≡ some aid
          → find_task tid m.by_id ≡ o
          → (commit_found urls o aid r fail m).1 ≡ ok t
          → Committed urls m task attempt r fail
      by_found tid aid none nt na h e = absurd (ground arith)
      by_found tid aid (some f) nt na h e =
          by_result tid aid f (apply_commit f.task aid r fail) nt na h refl e

      by_ids :
          (a b : Option Str)
          → normalize_id task ≡ a
          → normalize_id attempt ≡ b
          → (commit_ids urls a b r fail m).1 ≡ ok t
          → Committed urls m task attempt r fail
      by_ids none b na nb e = absurd (ground arith)
      by_ids (some tid) none na nb e = absurd (ground arith)
      by_ids (some tid) (some aid) na nb e = by_found tid aid (find_task tid m.by_id) na nb refl e

-- A commit is accepted exactly when the task of that id is leased under that very attempt and the
-- result claims no pass; a failure is accepted with any result.
pub commit_accepted :
    (urls : UrlPackage) (m : Memory) (task attempt tid aid : Str) (r : StepResult) (fail : Str)
    (f : Found)
    → normalize_id task ≡ some tid
    → normalize_id attempt ≡ some aid
    → find_task tid m.by_id ≡ some f
    → ((t : Task) × ((commit urls none task attempt r fail m).1 ≡ ok t))
      ↔ (accepts f.task aid r fail ≡ true)
unfolding commit
commit_accepted urls m task attempt tid aid r fail f nt na h = (
  λ p.
      let c = committed urls m task attempt r fail p.0 p.1 in
      let et : c.tid ≡ tid = some-injective _ _ (sym c.task_id ∙ nt) in
      let ea : c.aid ≡ aid = some-injective _ _ (sym c.attempt_id ∙ na) in
      let ef : c.found ≡ f =
        some-injective _ _ (sym c.finds ∙ ap (λ (x : Str). find_task x m.by_id) et ∙ h) in
      let a = apply_commit-refuses c.found.task c.written c.aid r fail c.writes in
      subst (λ (x : Str). accepts f.task x r fail ≡ true) ea
        (subst (λ (x : Found). accepts x.task c.aid r fail ≡ true) ef a),
  λ a.
      let (u, e) = apply_commit-accepts f.task aid r fail a in
      (
        task_or u (get_elem? (refresh_job urls (with_task f u)).tasks f.index),
        rw (nt, na, commit_ids) (rw (h, commit_found) (rw (e, commit_found))),
      ),
)

not_leased_final : (t : Task) → is_final t.state ≡ true → state_eq t.state TaskState.leased ≡ false
not_leased_final t h = ground arith

module _ (urls : UrlPackage) (m : Memory) (task attempt : Str) (r : StepResult) (fail : Str)
    (s : IsStore urls m) (c : Committed urls m task attempt r fail) where
  abbrev after_commit : Memory
  after_commit = (commit urls none task attempt r fail m).0

  -- Right after the commit the task of that id is in a final state.
  committed-final :
      (g : Found)
      → find_task c.tid after_commit.by_id ≡ some g
      → g.key ≡ c.found.key
      → g.index ≡ c.found.index
      → IsStore urls after_commit
      → is_final g.task.state ≡ true
  committed-final g fg ek ei sn =
      let n = (commit urls none task attempt r fail m).0 in
      let job = refresh_job urls (with_task c.found c.written) in
      let (at_key, at_task, id) = found_task urls m c.tid c.found s c.finds in
      let (g_key, g_task, g_id) = found_task urls n c.tid g sn fg in
      let here : find_job c.found.key n.by_id ≡ some job =
        ap (λ (x : Memory). find_job c.found.key x.by_id) c.store
        ∙ find_put c.found.key job m.by_id in
      let ej : g.job ≡ job =
        some-injective _ _ (sym g_key ∙ ap (λ (x : Str). find_job x n.by_id) ek ∙ here) in
      let placed : get_elem? job.tasks c.found.index ≡ some g.task =
        subst (λ (x : ℕ). get_elem? job.tasks x ≡ some g.task) ei
          (subst (λ (x : Job). get_elem? x.tasks g.index ≡ some g.task) ej g_task) in
      let tm =
        Moved-at (set c.found.job.tasks c.found.index c.written) job.tasks c.found.index c.written
          g.task (refresh_job-JobMoved urls (with_task c.found c.written)).tasks_moved
          (get-set c.found.job.tasks c.found.index c.found.task c.written at_task) placed in
      let fin = apply_commit-final c.found.task c.written c.aid r fail c.writes in
      rw (final_stays tm.moved fin) fin

-- A task is committed once: after a commit that is accepted, and any calls that follow, every
-- further commit to that task is refused as not leased and changes nothing.
pub commit_once :
    (urls : UrlPackage) (m n : Memory) (task attempt attempt' aid' : Str) (r r' : StepResult)
    (fail fail' : Str) (t : Task)
    → IsStore urls m
    → (commit urls none task attempt r fail m).1 ≡ ok t
    → Reach urls (commit urls none task attempt r fail m).0 n
    → normalize_id attempt' ≡ some aid'
    → commit urls none task attempt' r' fail' n ≡ (n, err not_leased)
commit_once urls m n task attempt attempt' aid' r r' fail fail' t s e reach na =
    let c = committed urls m task attempt r fail t e in
    let k = (commit urls none task attempt r fail m).0 in
    let st : Step urls m k = commits_to none task attempt r fail refl in
    let sk = Step-IsStore urls m k st s in
    let first = Reach-Extends urls m (next here st) s in
    let (g, fg, gk, gi, gm) = find_task-Moved c.tid m.by_id k.by_id c.found first c.finds in
    let fin = committed-final urls m task attempt r fail s c g fg gk gi sk in
    let (h, fh, hk, hi, hm) =
      find_task-Moved c.tid k.by_id n.by_id g (Reach-Extends urls k reach sk) fg in
    let still = final_stays hm.moved fin in
    commit_not_leased urls n task attempt' c.tid aid' r' fail' h c.task_id na fh
      (not_leased_final h.task (rw still fin))
