-- ===== src/Plan/Execute/Verdicts.antt =====
-- internal/plan: the verdicts of a result, and what its vote makes of an overall match.
use mathlib.Core.Bool.{false≢true}
use aquila.Base.{
  ℕ, ◌≡◌, refl, sym, ◌∙◌, Str, Bool, true, false, not, ◌||◌, ◌⊎◌, inl, inr, List, [], ◌∷◌, any,
  arith, Bool-cases, is_empty, length, ◌==◌, ltb, if◌then◌else◌, str_eq,
}
use aquila.Replay.{Run, verdict_match, verdict_differ, verdict_incomplete}
use aquila.Replay.Compare.{Decoder, compare, cuts, changes, deltas}
use aquila.Plan.{StepResult, kind_env, kind_latency, kind_concurrency, kind_fault_status}
use aquila.Plan.Overall.{env_failed}
use aquila.Plan.Overall.Verdict.{is_cut, is_change}
use aquila.Plan.Build.{compare_first}
use aquila.Plan.Burst.{compare_burst, compare_counts, burst_errors}

pub cut-true :
    (r : StepResult)
    → str_eq r.kind kind_env ≡ false
    → str_eq r.kind kind_fault_status ≡ false
    → r.verdict ≡ verdict_incomplete
    → is_cut r ≡ true
unfolding str_eq
cut-true r e f v = rw (v, e, f) refl

pub change-true :
    (r : StepResult)
    → str_eq r.kind kind_env ≡ false
    → str_eq r.kind kind_fault_status ≡ false
    → str_eq r.kind kind_latency ≡ false
    → r.verdict ≡ verdict_differ
    → is_change r ≡ true
unfolding str_eq
change-true r e f l v = rw (v, e, f, l) refl

-- One of the three verdicts of a comparison.
unfoldable pub IsVerdict : Str → Type 0
IsVerdict v = (v ≡ verdict_match) ⊎ ((v ≡ verdict_differ) ⊎ (v ≡ verdict_incomplete))

choice-IsVerdict :
    (a b : Bool)
    → IsVerdict (if a then verdict_incomplete else if b then verdict_differ else verdict_match)
unfolding IsVerdict
choice-IsVerdict true b = inr (inr refl)
choice-IsVerdict false true = inr (inl refl)
choice-IsVerdict false false = inl refl

pub compare_first-IsVerdict :
    (u : Decoder) (base patch : List Run) → IsVerdict (compare_first u base patch).verdict
unfolding compare_first IsVerdict compare
compare_first-IsVerdict u [] patch = inr (inr refl)
compare_first-IsVerdict u (b ∷ base) [] = inr (inr refl)
compare_first-IsVerdict u (b ∷ base) (p ∷ patch) = compared
  where
    compared : IsVerdict (compare u b p).verdict
    compared =
        let ds = deltas u b.steps p.steps in
        choice-IsVerdict (not (length b.steps == length p.steps) || any cuts ds) (any changes ds)

compare_counts-IsVerdict : (b p : ℕ × ℕ) → IsVerdict (compare_counts b p).verdict
unfolding compare_counts IsVerdict
compare_counts-IsVerdict (be, bn) (pe, pn) = elim (Bool-cases (bn == 0 || pn == 0)) [
  | inl c ↦ rw c (inr (inr refl))
  | inr c ↦ elim (Bool-cases (ltb be pe)) [
    | inl d ↦ rw (c, d) (inr (inl refl))
    | inr d ↦ elim (Bool-cases (ltb pe be)) [
      | inl e ↦ rw (c, d, e) (inr (inl refl))
      | inr e ↦ rw (c, d, e) (inl refl)
    ]
  ]
]

pub compare_burst-IsVerdict : (base patch : List Run) → IsVerdict (compare_burst base patch).verdict
unfolding compare_burst IsVerdict
compare_burst-IsVerdict base patch = elim (Bool-cases (is_empty base || is_empty patch)) [
  | inl c ↦ rw c (inr (inr refl))
  | inr c ↦ rw c (compare_counts-IsVerdict (burst_errors base) (burst_errors patch))
]

-- A result that does not stand in the way of a match.
unfoldable pub Passes : StepResult → Type 0
Passes r = (env_failed r ≡ false) × (is_cut r ≡ false) × (is_change r ≡ false)

-- A compared step that passes has matched.
pub Passes-match :
    (r : StepResult)
    → str_eq r.kind kind_env ≡ false
    → str_eq r.kind kind_fault_status ≡ false
    → str_eq r.kind kind_latency ≡ false
    → IsVerdict r.verdict
    → Passes r
    → r.verdict ≡ verdict_match
unfolding Passes IsVerdict
Passes-match r e f l (inl m) (a, b, c) = m
Passes-match r e f l (inr (inl d)) (a, b, c) = absurd (false≢true (sym c ∙ change-true r e f l d))
Passes-match r e f l (inr (inr i)) (a, b, c) = absurd (false≢true (sym b ∙ cut-true r e f i))

pub not_kind : (a k l : Str) → a ≡ k → str_eq k l ≡ false → str_eq a l ≡ false
not_kind a k l e h = rw e h

pub compare_counts-kind : (b p : ℕ × ℕ) → (compare_counts b p).kind ≡ kind_concurrency
unfolding compare_counts
compare_counts-kind (be, bn) (pe, pn) = ground arith

pub compare_burst-kind :
    (base patch : List Run) → (compare_burst base patch).kind ≡ kind_concurrency
unfolding compare_burst
compare_burst-kind base patch = elim (Bool-cases (is_empty base || is_empty patch)) [
  | inl c ↦ rw c refl
  | inr c ↦ rw c (compare_counts-kind (burst_errors base) (burst_errors patch))
]
