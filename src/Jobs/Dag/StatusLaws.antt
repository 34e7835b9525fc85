-- ===== src/Jobs/Dag/StatusLaws.antt =====
-- jobStatus under the writes of a lease, a heartbeat and a missed deadline.
use aquila.Base.{
  ℕ, ◌≡◌, refl, Bool, true, false, not, ◌&&◌, ◌||◌, some, List, [], ◌∷◌, any, set, get_elem?, arith,
  any-get, any-set_same, any-set_self,
}
use aquila.Jobs.{TaskState, Status, Task, state_eq}
use aquila.Jobs.Dag.{has_state, job_status}

abbrev in_state : TaskState → Task → Bool
in_state s t = state_eq t.state s

-- A lease of a ready task changes no status.
pub job_status-claim :
    (ts : List Task) (i : ℕ) (t u : Task)
    → get_elem? ts i ≡ some t
    → t.state ≡ TaskState.ready
    → u.state ≡ TaskState.leased
    → job_status (set ts i u) ≡ job_status ts
unfolding job_status
job_status-claim ts i t u e r l =
    let same_f = any-set_same (in_state TaskState.failed) ts i t u e (ground arith) in
    let was_r = any-get (in_state TaskState.ready) ts i t e (ground arith) in
    let is_l = any-set_self (in_state TaskState.leased) ts i t u e (ground arith) in
    rw (same_f, was_r, is_l) (ground arith)

pub job_status-same :
    (ts : List Task) (i : ℕ) (t u : Task)
    → get_elem? ts i ≡ some t
    → t.state ≡ u.state
    → job_status (set ts i u) ≡ job_status ts
unfolding job_status
job_status-same ts i t u e s =
    let same = λ (q : TaskState). any-set_same (in_state q) ts i t u e (ground arith) in
    rw (same TaskState.failed, same TaskState.leased, same TaskState.ready, same TaskState.pending)

abbrev pub is_live : Task → Bool
is_live t =
    state_eq t.state TaskState.pending
    || state_eq t.state TaskState.ready
    || state_eq t.state TaskState.leased

any-is_live :
    (ts : List Task)
    → any is_live ts ≡ (
        has_state TaskState.pending ts
        || has_state TaskState.ready ts
        || has_state TaskState.leased ts)
any-is_live [] = refl
any-is_live (t ∷ ts) = ground (arith, any-is_live ts)

-- Pending or running: some task is live, and none has failed.
pub job_status-occupied :
    (ts : List Task)
    → (elim (job_status ts) [ Status.pending ↦ true | Status.running ↦ true | _ ↦ false ])
      ≡ (any is_live ts && not (has_state TaskState.failed ts))
unfolding job_status
job_status-occupied ts = rw (any-is_live ts) (ground arith)

pub job_status-complete :
    (ts : List Task)
    → (elim (job_status ts) [ Status.complete ↦ true | _ ↦ false ])
      ≡ (not (any is_live ts) && not (has_state TaskState.failed ts))
unfolding job_status
job_status-complete ts = rw (any-is_live ts) (ground arith)

pub job_status-ne-canceled :
    (ts : List Task) → (elim (job_status ts) [ Status.canceled ↦ true | _ ↦ false ]) ≡ false
unfolding job_status
job_status-ne-canceled ts = ground arith

pub job_status-failed :
    (ts : List Task)
    → (elim (job_status ts) [ Status.failed ↦ true | _ ↦ false ]) ≡ has_state TaskState.failed ts
unfolding job_status
job_status-failed ts = ground arith

pub job_status_of_failed :
    (ts : List Task) → has_state TaskState.failed ts ≡ true → job_status ts ≡ Status.failed
unfolding job_status
job_status_of_failed ts h = rw h
