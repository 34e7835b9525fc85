-- ===== src/Jobs/Dag/Settle.antt =====
-- internal/jobs/enqueue.go: the rounds of settle.
use aquila.Base.{
  ℕ, zero, suc, ◌+◌, ◌≤◌, ◌<◌, ◌≡◌, refl, ap, ◌∙◌, Str, Bool, true, false, ◌&&◌, ◌||◌, inl, inr,
  Option, List, [], ◌∷◌, map, any, length, count_by, All, get_elem?, get-map, some, if◌then◌else◌,
  arith, Bool-cases,
}
use aquila.Jobs.{TaskState, Task, state_eq}
use aquila.Jobs.Dag.{
  state_by_plan, deps_ok, settle_task, settle_round, settle_rounds, settle, moves,
}

abbrev pub is_pending : Task → Bool
is_pending t = state_eq t.state TaskState.pending

module _ (by : Str → Option TaskState) where
  settle_task_same : (t : Task) → moves by t ≡ false → settle_task by t ≡ t
  unfolding settle_task
  settle_task_same t h = ground arith

  settle_task-pending :
      (t : Task)
      → (if is_pending (settle_task by t) then 1 else 0) + (if moves by t then 1 else 0)
        ≡ (if is_pending t then 1 else 0)
  unfolding settle_task
  settle_task-pending t = ground arith

  map-settle_same : (ts : List Task) → any (moves by) ts ≡ false → map (settle_task by) ts ≡ ts
  map-settle_same [] h = refl
  map-settle_same (t ∷ ts) h = ground (arith, settle_task_same t, map-settle_same ts)

  map-settle_fewer :
      (ts : List Task)
      → count_by is_pending (map (settle_task by) ts) + (if any (moves by) ts then 1 else 0)
        ≤ count_by is_pending ts
  map-settle_fewer [] = omega arith
  map-settle_fewer (t ∷ ts) = ground (arith, settle_task-pending t, map-settle_fewer ts)

pub settle_round_same :
    (ts : List Task) → any (moves (state_by_plan ts)) ts ≡ false → settle_round ts ≡ ts
unfolding settle_round
settle_round_same ts h = map-settle_same (state_by_plan ts) ts h

settle_round_fewer :
    (ts : List Task)
    → any (moves (state_by_plan ts)) ts ≡ true
    → count_by is_pending (settle_round ts) < count_by is_pending ts
unfolding settle_round
settle_round_fewer ts h = let e = map-settle_fewer (state_by_plan ts) ts in ground (arith, e)

pub no_pending_still :
    (by : Str → Option TaskState) (ts : List Task)
    → count_by is_pending ts ≤ 0
    → any (moves by) ts ≡ false
no_pending_still by [] h = refl
no_pending_still by (t ∷ ts) h = ground (arith, settle_task-pending by t, no_pending_still by ts)

settle_rounds_fixed :
    (k : ℕ) (ts : List Task)
    → count_by is_pending ts ≤ k
    → settle_round (settle_rounds k ts) ≡ settle_rounds k ts
unfolding settle_rounds
settle_rounds_fixed zero ts h = settle_round_same ts (no_pending_still (state_by_plan ts) ts h)
settle_rounds_fixed (suc k) ts h = elim (Bool-cases (any (moves (state_by_plan ts)) ts)) [
  | inl e ↦
      rw e
        (settle_rounds_fixed k (settle_round ts) (let d = settle_round_fewer ts e in omega arith))
  | inr e ↦ rw e (ap settle_round (settle_round_same ts e))
]

count_by-le-length {ℓ} : {A : Type ℓ} (p : A → Bool) (xs : List A) → count_by p xs ≤ length xs
count_by-le-length p [] = omega arith
count_by-le-length p (x ∷ xs) = ground (arith, count_by-le-length p xs)

-- One more round after settle changes nothing: as many rounds as there are tasks are enough.
pub settle_round-settle : (ts : List Task) → settle_round (settle ts) ≡ settle ts
unfolding settle
settle_round-settle ts = settle_rounds_fixed (length ts) ts (count_by-le-length is_pending ts)

-- A task that may go on: an operator's task, or one whose dependencies are done.
abbrev pub can_start : List Task → Task → Bool
can_start ts t = t.operator || deps_ok t (state_by_plan ts)

-- No task that may go on is left pending.
abbrev pub IsSettled : List Task → Type 0
IsSettled ts = All (λ t. (is_pending t && can_start ts t) ≡ false) ts

fixed_head : (by : Str → Option TaskState) (t : Task) → settle_task by t ≡ t → moves by t ≡ false
unfolding settle_task
fixed_head by t e = let s = ap (λ (u : Task). u.state) e in ground arith

moves_can_start :
    (by : Str → Option TaskState) (t : Task)
    → moves by t ≡ false
    → (is_pending t && (t.operator || deps_ok t by)) ≡ false
unfolding settle_task
moves_can_start by t h = ground arith

fixed_settled :
    (by : Str → Option TaskState) (ts : List Task)
    → map (settle_task by) ts ≡ ts
    → All (λ t. (is_pending t && (t.operator || deps_ok t by)) ≡ false) ts
fixed_settled by [] e = tt
fixed_settled by (t ∷ ts) e =
    (moves_can_start by t (fixed_head by t (cc)), fixed_settled by ts (cc))

pub IsSettled-of_fixed : (ts : List Task) → settle_round ts ≡ ts → IsSettled ts
unfolding settle_round
IsSettled-of_fixed ts e = fixed_settled (state_by_plan ts) ts e

-- settle leaves no task pending that may go on: its bound of one round a task is enough.
pub settle-IsSettled : (ts : List Task) → IsSettled (settle ts)
settle-IsSettled ts = IsSettled-of_fixed (settle ts) (settle_round-settle ts)

settle_task_kept :
    (by : Str → Option TaskState) (t : Task) → is_pending t ≡ false → settle_task by t ≡ t
unfolding settle_task
settle_task_kept by t h = ground arith

settle_rounds_kept :
    (k : ℕ) (ts : List Task) (i : ℕ) (t : Task)
    → get_elem? ts i ≡ some t
    → is_pending t ≡ false
    → get_elem? (settle_rounds k ts) i ≡ some t
unfolding settle_rounds settle_round
settle_rounds_kept zero ts i t e h = e
settle_rounds_kept (suc k) ts i t e h =
    let by = state_by_plan ts in
    let here : get_elem? (map (settle_task by) ts) i ≡ some t =
      get-map (settle_task by) ts i t e ∙ ap some (settle_task_kept by t h) in
    elim (Bool-cases (any (moves by) ts)) [
      | inl m ↦ rw m (settle_rounds_kept k (settle_round ts) i t here h)
      | inr m ↦ rw m here
    ]

-- settle leaves a task alone that is not pending.
pub settle_kept :
    (ts : List Task) (i : ℕ) (t : Task)
    → get_elem? ts i ≡ some t
    → is_pending t ≡ false
    → get_elem? (settle ts) i ≡ some t
unfolding settle
settle_kept ts i t e h = settle_rounds_kept (length ts) ts i t e h
