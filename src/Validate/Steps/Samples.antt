-- ===== src/Validate/Steps/Samples.antt =====
-- What a latency step that passes has measured.
use aquila.Base.{
  ◌≡◌, ◌≢◌, sym, ◌∙◌, true, false, inl, inr, List, [], ◌∷◌, any, if◌then◌else◌, arith, Bool-cases,
  str_eq→eq, ltb_ℤ, ℤ, ◌≤ℤ◌, All,
}
use aquila.Replay.{StepLatency}
use aquila.Replay.Latency.{shifted}
use aquila.Plan.{StepResult, kind_latency, verdict_samples}
use aquila.Validate.{fold_text}
use aquila.Validate.Steps.{
  min_latency_n, samples_of, least_from, least_samples, latency_samples, step_ok,
}
use aquila.Validate.Steps.Laws.{step_ok-latency}

-- Enough samples on both sides, and no shift between them.
abbrev pub IsMeasured : StepLatency → Type 0
IsMeasured l = (min_latency_n ≤ℤ l.baseline.n) × (min_latency_n ≤ℤ l.patch.n) × (shifted l ≡ false)

least_from-below : (m : ℤ) (ls : List StepLatency) → least_from m ls ≤ℤ m
unfolding least_from
least_from-below m [] = omega arith
least_from-below m (l ∷ ls) = elim (Bool-cases (ltb_ℤ (samples_of l) m)) [
  | inl y ↦ rw y (let h = least_from-below (samples_of l) ls in ground arith)
  | inr n ↦ rw n (least_from-below m ls)
]

samples_of-least : (l : StepLatency) → (samples_of l ≤ℤ l.baseline.n) × (samples_of l ≤ℤ l.patch.n)
samples_of-least l = elim (Bool-cases (ltb_ℤ l.patch.n l.baseline.n)) [
  | inl y ↦ rw y (ground arith)
  | inr n ↦ rw n (ground arith)
]

trans_ℤ : (a b c : ℤ) → a ≤ℤ b → b ≤ℤ c → a ≤ℤ c
trans_ℤ a b c p q = omega (arith, p, q)

measured :
    (m : ℤ) (ls : List StepLatency)
    → min_latency_n ≤ℤ least_from m ls
    → any shifted ls ≡ false
    → All IsMeasured ls
unfolding least_from
measured m [] h s = tt
measured m (l ∷ ls) h s =
    let (b, p) = samples_of-least l in
    let next = if ltb_ℤ (samples_of l) m then samples_of l else m in
    let low : next ≤ℤ samples_of l = elim (Bool-cases (ltb_ℤ (samples_of l) m)) [
      | inl y ↦ rw y (omega arith)
      | inr n ↦ rw n (ground arith)
    ] in
    let below =
      trans_ℤ min_latency_n next (samples_of l)
        (trans_ℤ min_latency_n (least_from next ls) next h (least_from-below next ls)) low in
    (
      (
        trans_ℤ min_latency_n (samples_of l) l.baseline.n below b,
        trans_ℤ min_latency_n (samples_of l) l.patch.n below p,
        ground arith,
      ),
      measured next ls h (ground arith),
    )

rows_of :
    (ls : List StepLatency)
    → min_latency_n ≤ℤ least_samples ls
    → any shifted ls ≡ false
    → (ls ≢ []) × All IsMeasured ls
unfolding least_samples
rows_of [] h s = absurd (omega (arith, h))
rows_of (l ∷ ls) h s =
    let (b, p) = samples_of-least l in
    let below =
      trans_ℤ min_latency_n (least_from (samples_of l) ls) (samples_of l) h
        (least_from-below (samples_of l) ls) in
    (
      λ e. ground arith,
      (
        (
          trans_ℤ min_latency_n (samples_of l) l.baseline.n below b,
          trans_ℤ min_latency_n (samples_of l) l.patch.n below p,
          ground arith,
        ),
        measured (samples_of l) ls h (ground arith),
      ),
    )

-- A latency step that passes reports samples, has at least one row, and each row has 20 successful
-- samples or more on either side and shows no shift.
pub latency_step-IsMeasured :
    (s : StepResult)
    → step_ok kind_latency s ≡ true
    → (fold_text s.verdict ≡ verdict_samples) × (s.latency ≢ []) × All IsMeasured s.latency
unfolding latency_samples
latency_step-IsMeasured s h =
    let ok = sym (step_ok-latency s) ∙ h in
    let enough : min_latency_n ≤ℤ least_samples s.latency = ground arith in
    let (some_row, rows) = rows_of s.latency enough (ground arith) in
    (str_eq→eq (fold_text s.verdict) verdict_samples (ground arith), some_row, rows)
