-- ===== src/Jobs/Lifecycle/States.antt =====
-- internal/jobs/enqueue.go and earned.go: the moves of the state of a task.
use aquila.Base.{◌≡◌, refl, Bool, true, false, arith}
use aquila.Jobs.{TaskState, state_eq}

-- The edges of the graph.
pub data Edge : TaskState → TaskState → Type 0 where
  start : Edge TaskState.pending TaskState.ready
  pass : Edge TaskState.pending TaskState.skipped
  drop : Edge TaskState.ready TaskState.skipped
  claim : Edge TaskState.ready TaskState.leased
  renew : Edge TaskState.leased TaskState.leased
  revoke : Edge TaskState.leased TaskState.ready
  abandon : Edge TaskState.leased TaskState.skipped
  succeed : Edge TaskState.leased TaskState.succeeded
  fail : Edge TaskState.leased TaskState.failed
  miss_pending : Edge TaskState.pending TaskState.failed
  miss_ready : Edge TaskState.ready TaskState.failed

pub data Walk : TaskState → TaskState → Type 0 where
  stay : {s : TaskState} → Walk s s
  go : {s t u : TaskState} → Edge s t → Walk t u → Walk s u

pub trans : {s t u : TaskState} → Walk s t → Walk t u → Walk s u
trans stay q = q
trans (go e p) q = go e (trans p q)

-- One edge or none, as a test.
abbrev pub can_move : TaskState → TaskState → Bool
can_move TaskState.pending TaskState.ready = true
can_move TaskState.pending TaskState.skipped = true
can_move TaskState.pending TaskState.failed = true
can_move TaskState.ready TaskState.leased = true
can_move TaskState.ready TaskState.skipped = true
can_move TaskState.ready TaskState.failed = true
can_move TaskState.leased TaskState.ready = true
can_move TaskState.leased TaskState.skipped = true
can_move TaskState.leased TaskState.succeeded = true
can_move TaskState.leased TaskState.failed = true
can_move s t = state_eq s t

pub Walk-of : (s t : TaskState) → can_move s t ≡ true → Walk s t
Walk-of TaskState.pending TaskState.pending h = stay
Walk-of TaskState.pending TaskState.ready h = go start stay
Walk-of TaskState.pending TaskState.skipped h = go pass stay
Walk-of TaskState.pending TaskState.failed h = go miss_pending stay
Walk-of TaskState.ready TaskState.ready h = stay
Walk-of TaskState.ready TaskState.leased h = go claim stay
Walk-of TaskState.ready TaskState.skipped h = go drop stay
Walk-of TaskState.ready TaskState.failed h = go miss_ready stay
Walk-of TaskState.leased TaskState.leased h = stay
Walk-of TaskState.leased TaskState.ready h = go revoke stay
Walk-of TaskState.leased TaskState.skipped h = go abandon stay
Walk-of TaskState.leased TaskState.succeeded h = go succeed stay
Walk-of TaskState.leased TaskState.failed h = go fail stay
Walk-of TaskState.succeeded TaskState.succeeded h = stay
Walk-of TaskState.failed TaskState.failed h = stay
Walk-of TaskState.skipped TaskState.skipped h = stay
Walk-of s t h = absurd (ground arith)

-- The states that no edge leaves.
abbrev pub is_final : TaskState → Bool
is_final TaskState.succeeded = true
is_final TaskState.failed = true
is_final TaskState.skipped = true
is_final _ = false

Edge-not_final : {s t : TaskState} → Edge s t → is_final s ≡ false
Edge-not_final start = refl
Edge-not_final pass = refl
Edge-not_final drop = refl
Edge-not_final claim = refl
Edge-not_final renew = refl
Edge-not_final revoke = refl
Edge-not_final abandon = refl
Edge-not_final succeed = refl
Edge-not_final fail = refl
Edge-not_final miss_pending = refl
Edge-not_final miss_ready = refl

pub final_stays : {s t : TaskState} → Walk s t → is_final s ≡ true → t ≡ s
final_stays stay h = refl
final_stays (go e p) h = let n = Edge-not_final e in cc
